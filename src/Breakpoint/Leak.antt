-- ===== src/Breakpoint/Leak.antt =====
-- What `breakpoint_add` leaves behind where the insertion of `bp_return` fails.
use atrace.Prelude.{
  ℕ, ◌+◌, ◌*◌, ◌≡◌, refl, ◌≢◌, ap, ◌∙◌, arith, true, false, some, ◌∷◌, ltb, length, set, Run, ok,
  fault, Status, minus,
}
use atrace.Object.{Object}
use atrace.BpTree.{
  BpEntry, Tree, IsSorted, inorder, breakpoint_rb_find, breakpoint_rb_search_insert, with_empty,
}
use atrace.BpTree.Insertion.{search_insert_refines}
use atrace.Slot.{
  SlotSet, Allocation, slot_alloc, slot_free, slot_invalid_cache, slot_size, slot_page_size,
  uint_bit_num,
}
use atrace.Breakpoint.{
  Breakpoint, World, Machine, breakpoint_attr_flag, brk, put_set, write, deref, fill_slot, add_slot,
  breakpoint_add, bkpt_of, breakpoint_find,
}
use atrace.Breakpoint.Added.{IsFresh, IsOpen, slot_address, insert_free}

slot_free_returns :
    (s : SlotSet) (index : ℕ)
    → ltb index uint_bit_num ≡ true
    → (s' : SlotSet) × (slot_free s index ≡ ok s')
unfolding slot_free
slot_free_returns s index h = go (slot_free s index) refl
  where
    go : (m : Run SlotSet) → slot_free s index ≡ m → (s' : SlotSet) × (slot_free s index ≡ ok s')
    go (ok s') e = (s', e)
    go (fault f) e = absurd (returns e)
      where
        returns : slot_free s index ≢ fault f
        returns = rw (slot_free, h) (λ q. ground arith)

module _ (m : Machine) where
  insert_taken :
      (e f : BpEntry) (t : Tree)
      → IsSorted (inorder t)
      → e.rb_empty ≡ true
      → breakpoint_rb_find t e.address ≡ some f
      → (t' : Tree) × (breakpoint_rb_search_insert m.rb e t ≡ ok (t', minus 1))
  insert_taken e f t s empty taken =
      let ((t', st), done, _, _, status) = search_insert_refines m.rb e t s empty in
      let chosen : st ≡ minus 1 = status ∙ rw taken refl in
      (t', done ∙ ap (λ (x : Status). ok (t', x)) chosen)

  -- A slot of the first word is handed out whose return address has a breakpoint already.
  pub record Collides (w : World) (addr : ℕ) (a : Allocation) (f : BpEntry) : Type 0 where
    pub alloc : slot_alloc m.set_lists m.source 2 (length w.slot_sets) w.slot_sets ≡ ok a
    pub mapped : ltb (a.index * slot_size) slot_page_size ≡ true
    pub first_word : ltb a.index uint_bit_num ≡ true
    pub return_taken : breakpoint_rb_find w.tree (slot_address a + 4) ≡ some f
    pub apart : addr ≢ slot_address a + 4

  abbrev leaked : ℕ → Allocation → Breakpoint → World → Tree → SlotSet → World
  leaked p a bkpt w t s' = record w {
    breakpoints =
        set (set w.breakpoints p (record bkpt { bp_enter = with_empty false bkpt.bp_enter })) p
          (record bkpt {
            bp_enter = with_empty false bkpt.bp_enter;
            bp_return = record bkpt.bp_return { address = slot_address a + 4 };
            slot_set = some a.slot.ptr;
            slot_index = a.index;
          });
    tree = t;
    slot_sets = put_set s' a.sets;
    memory =
        write (slot_address a + 4) brk
          (write (slot_address a) (w.memory bkpt.bp_enter.address) w.memory);
    cleared = slot_invalid_cache a.slot a.index ∷ w.cleared;
  }

  -- Where the tree is a search tree, a fresh breakpoint wants a slot, an object allows its address and no
  -- breakpoint has it, and a slot is handed out that lies in the mapped page and in the first word of its set
  -- (its index is below 32), whose return address, 4 bytes behind its start, is not the breakpoint's own and
  -- has a breakpoint already, breakpoint_add returns -4, and the breakpoint that it did not add is found at
  -- its address all the same.
  pub breakpoint_add_leaks :
      (p i : ℕ) (bkpt : Breakpoint) (obj : Object) (a : Allocation) (f : BpEntry) (w : World)
      → deref w.breakpoints p ≡ ok bkpt
      → IsFresh p bkpt
      → IsOpen m w bkpt.bp_enter.address i obj
      → Collides w bkpt.bp_enter.address a f
      → (w' : World) × (breakpoint_add m p w ≡ ok (w', minus 4))
        × (breakpoint_find w' bkpt.bp_enter.address ≡ some p)
  unfolding breakpoint_add add_slot fill_slot breakpoint_attr_flag breakpoint_find
  breakpoint_add_leaks p i bkpt obj a f w d fresh may slot =
      let (t, e, t_sorted, t_finds) =
        insert_free m bkpt.bp_enter w.tree may.sorted fresh.enter_empty may.free in
      let back : BpEntry = record bkpt.bp_return { address = slot_address a + 4 } in
      let taken : breakpoint_rb_find t (slot_address a + 4) ≡ some f =
        t_finds (slot_address a + 4) ∙ ground (arith, slot.apart, slot.return_taken) in
      let (u, r) = insert_taken back f t t_sorted fresh.return_empty taken in
      let (s', freed) = slot_free_returns a.slot a.index slot.first_word in
      (
        leaked p a bkpt w t s',
        rw
            (
              breakpoint_add, d, fresh.unchained, may.pointer, may.object, may.allowed, e, add_slot,
              fresh.wants_slot, slot.alloc, fill_slot, slot.mapped, r, freed,
            )
            refl,
        ap bkpt_of (t_finds bkpt.bp_enter.address) ∙ ground (arith, fresh.enter_back),
      )
