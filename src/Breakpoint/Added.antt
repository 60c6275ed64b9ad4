-- ===== src/Breakpoint/Added.antt =====
-- What `breakpoint_add` does when it takes a breakpoint.
use mathlib.Core.Option.{get_or}
use atrace.Prelude.{
  ℕ, zero, suc, ◌+◌, ◌*◌, ◌≡◌, refl, ◌≢◌, sym, ap, ◌∙◌, inl, inr, arith, Bool, true, false, ◌||◌,
  Option, none, some, List, [], ◌∷◌, ◌==◌, ltb, if◌then◌else◌, Bool-cases, length, set, ok, Status,
  success,
}
use atrace.Object.{Object, obj_attr_flag_no_bkpt, object_attr_flag}
use atrace.BpTree.{
  BpEntry, Tree, IsSorted, inorder, breakpoint_rb_find, breakpoint_rb_search_insert, with_empty,
}
use atrace.BpTree.Insertion.{search_insert_refines}
use atrace.Slot.{
  Allocation, slot_alloc, slot_invalid_cache, slot_size, slot_page_size, bp_get_slot_offset,
}
use atrace.Breakpoint.{
  Breakpoint, World, Machine, brk, bkpt_attr_flag_no_slot, breakpoint_attr_flag, object_pointer,
  deref, write, fill_slot, add_slot, breakpoint_add, bkpt_of, breakpoint_find,
}

-- The address of the instruction in the slot, and of the break instruction behind it.
abbrev pub slot_address : Allocation → ℕ
slot_address a = bp_get_slot_offset a.slot a.index

-- A breakpoint that `breakpoint_new` made, whose slot is wanted.
pub record IsFresh (p : ℕ) (bkpt : Breakpoint) : Type 0 where
  pub enter_empty : bkpt.bp_enter.rb_empty ≡ true
  pub return_empty : bkpt.bp_return.rb_empty ≡ true
  pub enter_back : bkpt.bp_enter.bkpt ≡ p
  pub return_back : bkpt.bp_return.bkpt ≡ p
  pub unchained : bkpt.chained ≡ false
  pub wants_slot : breakpoint_attr_flag bkpt_attr_flag_no_slot bkpt ≡ false

pub set-set : (xs : List Breakpoint) (p : ℕ) (v u : Breakpoint) → set (set xs p v) p u ≡ set xs p u
set-set [] p v u = refl
set-set (x ∷ xs) zero v u = refl
set-set (x ∷ xs) (suc p) v u = ap (λ ys. x ∷ ys) (set-set xs p v u)

-- Two entries of one breakpoint are inserted.
find_either :
    (here there : Bool) (e r : BpEntry) (before : Option BpEntry) {p : ℕ}
    {between after : Option BpEntry}
    → between ≡ (if here then some e else before)
    → after ≡ (if there then some r else between)
    → e.bkpt ≡ p
    → r.bkpt ≡ p
    → bkpt_of after ≡ (if here || there then some p else bkpt_of before)
find_either true true e r before h k i j = ap bkpt_of k ∙ ap some j
find_either true false e r before h k i j = ap bkpt_of (k ∙ h) ∙ ap some i
find_either false true e r before h k i j = ap bkpt_of k ∙ ap some j
find_either false false e r before h k i j = ap bkpt_of (k ∙ h)

module _ (m : Machine) where
  -- The address may take the breakpoint, in the object `i`.
  pub record IsOpen (w : World) (addr i : ℕ) (obj : Object) : Type 0 where
    pub sorted : IsSorted (inorder w.tree)
    pub pointer : object_pointer addr w.objects ≡ some i
    pub object : deref w.objects i ≡ ok obj
    pub allowed : object_attr_flag obj_attr_flag_no_bkpt obj ≡ false
    pub free : breakpoint_rb_find w.tree addr ≡ none

  -- The slot that is handed out lies in the mapped page, and no breakpoint stands behind it.
  pub record HasSlot (w : World) (addr : ℕ) (a : Allocation) : Type 0 where
    pub alloc : slot_alloc m.set_lists m.source 2 (length w.slot_sets) w.slot_sets ≡ ok a
    pub mapped : ltb (a.index * slot_size) slot_page_size ≡ true
    pub return_free : breakpoint_rb_find w.tree (slot_address a + 4) ≡ none
    pub apart : addr ≢ slot_address a + 4

  pub insert_free :
      (e : BpEntry) (t : Tree)
      → IsSorted (inorder t)
      → e.rb_empty ≡ true
      → breakpoint_rb_find t e.address ≡ none
      → (t' : Tree) × (breakpoint_rb_search_insert m.rb e t ≡ ok (t', success))
        × IsSorted (inorder t')
        × ((addr : ℕ)
            → breakpoint_rb_find t' addr ≡ (
                if e.address == addr then some (with_empty false e) else breakpoint_rb_find t addr))
  insert_free e t s empty free =
      let ((t', st), done, sorted, finds, status) = search_insert_refines m.rb e t s empty in
      let chosen : st ≡ success = status ∙ rw free refl in
      (t', done ∙ ap (λ (x : Status). ok (t', x)) chosen, sorted, λ addr. finds addr ∙ at addr)
    where
      at :
          (addr : ℕ)
          → (if e.address == addr
              then some (get_or (breakpoint_rb_find t addr) (with_empty false e))
              else breakpoint_rb_find t addr)
            ≡ (if e.address == addr then some (with_empty false e) else breakpoint_rb_find t addr)
      at addr = elim (Bool-cases (e.address == addr)) [
        | inl here ↦
            let same : e.address ≡ addr = ground arith in
            rw (here, sym (ap (breakpoint_rb_find t) same), free) refl
        | inr there ↦ rw there refl
      ]

  -- The breakpoint once it is added.
  abbrev pub added : ℕ → Allocation → Breakpoint → Breakpoint
  added i a bkpt = record bkpt {
    bp_enter = with_empty false bkpt.bp_enter;
    bp_return = record {
      address = slot_address a + 4;
      bkpt = bkpt.bp_return.bkpt;
      rb_empty = false;
    };
    slot_set = some a.slot.ptr;
    slot_index = a.index;
    obj = some i;
    chained = true;
  }

  -- What changed from `w` to `w'`.
  pub record Placed (p i : ℕ) (bkpt : Breakpoint) (obj : Object) (a : Allocation) (w w' : World)
      : Type 0 where
    pub sorted : IsSorted (inorder w'.tree)
    pub finds :
        (addr : ℕ)
        → breakpoint_find w' addr ≡ (
            if bkpt.bp_enter.address == addr || slot_address a + 4 == addr
            then some p
            else breakpoint_find w addr)
    pub saved : w'.memory (slot_address a) ≡ w.memory bkpt.bp_enter.address
    pub break_behind : w'.memory (slot_address a + 4) ≡ brk
    pub same_memory :
        (b : ℕ) → b ≢ slot_address a → b ≢ slot_address a + 4 → w'.memory b ≡ w.memory b
    pub joined :
        w'.objects ≡ set w.objects i (record obj { breakpoint_chain = p ∷ obj.breakpoint_chain })
    pub holds : w'.breakpoints ≡ set w.breakpoints p (added i a bkpt)
    pub sets : w'.slot_sets ≡ a.sets

  -- The world behind the call, with its last tree.
  abbrev placed_world : ℕ → ℕ → Object → Allocation → Breakpoint → World → Tree → World
  placed_world p i obj a bkpt w t = record w {
    objects =
        set w.objects i
          (record obj { breakpoint_chain = m.chain_lists.list_add p obj.breakpoint_chain });
    breakpoints =
        set (set w.breakpoints p (record bkpt { bp_enter = with_empty false bkpt.bp_enter })) p
          (added i a bkpt);
    tree = t;
    slot_sets = a.sets;
    memory =
        write (slot_address a + 4) brk
          (write (slot_address a) (w.memory bkpt.bp_enter.address) w.memory);
    cleared = slot_invalid_cache a.slot a.index ∷ w.cleared;
  }

  placed_run :
      (p i : ℕ) (bkpt : Breakpoint) (obj : Object) (a : Allocation) (w : World) (t u : Tree)
      → deref w.breakpoints p ≡ ok bkpt
      → IsFresh p bkpt
      → IsOpen w bkpt.bp_enter.address i obj
      → HasSlot w bkpt.bp_enter.address a
      → breakpoint_rb_search_insert m.rb bkpt.bp_enter w.tree ≡ ok (t, success)
      → breakpoint_rb_search_insert m.rb (record bkpt.bp_return { address = slot_address a + 4 }) t
        ≡ ok (u, success)
      → breakpoint_add m p w ≡ ok (placed_world p i obj a bkpt w u, success)
  unfolding breakpoint_add add_slot fill_slot breakpoint_attr_flag
  placed_run p i bkpt obj a w t u d fresh may slot e r =
      rw
        (
          breakpoint_add, d, fresh.unchained, may.pointer, may.object, may.allowed, e, add_slot,
          fresh.wants_slot, slot.alloc, fill_slot, slot.mapped, r,
        )
        refl

  -- Where the tree is a search tree, a fresh breakpoint that wants a slot, whose address an object allows and
  -- no breakpoint has, and for which a slot in the mapped page is handed out whose return address, 4 bytes
  -- behind its start, is not the breakpoint's own address and has no breakpoint, is added: breakpoint_add
  -- returns 0; both entries are found, and no other address is found differently; the slot holds the
  -- instruction with a break instruction behind it, and no other word of memory changes; the object has the
  -- breakpoint first in its chain; and the tree stays a search tree.
  pub breakpoint_add-Placed :
      (p i : ℕ) (bkpt : Breakpoint) (obj : Object) (a : Allocation) (w : World)
      → deref w.breakpoints p ≡ ok bkpt
      → IsFresh p bkpt
      → IsOpen w bkpt.bp_enter.address i obj
      → HasSlot w bkpt.bp_enter.address a
      → (w' : World) × (breakpoint_add m p w ≡ ok (w', success)) × Placed p i bkpt obj a w w'
  unfolding breakpoint_find
  breakpoint_add-Placed p i bkpt obj a w d fresh may slot =
      let (t, e, t_sorted, t_finds) =
        insert_free bkpt.bp_enter w.tree may.sorted fresh.enter_empty may.free in
      let back : BpEntry = record bkpt.bp_return { address = slot_address a + 4 } in
      let clear : breakpoint_rb_find t (slot_address a + 4) ≡ none =
        t_finds (slot_address a + 4) ∙ ground (arith, slot.apart, slot.return_free) in
      let (u, r, u_sorted, u_finds) = insert_free back t t_sorted fresh.return_empty clear in
      (
        placed_world p i obj a bkpt w u,
        placed_run p i bkpt obj a w t u d fresh may slot e r,
        record {
          sorted = u_sorted;
          finds = λ addr.
              find_either _ _ (with_empty false bkpt.bp_enter) (with_empty false back)
                (breakpoint_rb_find w.tree addr) (t_finds addr) (u_finds addr) fresh.enter_back
                fresh.return_back;
          saved = ground arith;
          break_behind = ground arith;
          same_memory = λ b. ground arith;
          joined =
              ap (λ c. set w.objects i (record obj { breakpoint_chain = c }))
                (m.chain_lists.list_add_lem p obj.breakpoint_chain);
          holds = set-set w.breakpoints p _ (added i a bkpt);
          sets = refl;
        },
      )
