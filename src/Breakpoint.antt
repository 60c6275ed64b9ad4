-- ===== src/Breakpoint.antt =====
-- signal_test/breakpoint.h and breakpoint.c, the breakpoints themselves. A
-- breakpoint joins an object, the tree and a slot; Breakpoint.Code has the code that is patched. Pointers to breakpoints and to
-- objects are positions in their lists, as both only grow. Each function takes its locks and releases them, so a call is
-- one step.
pub mod Code
pub mod PutSet
pub mod Errors
pub mod Added
pub mod Undo
pub mod Patch
pub mod Leak
pub mod Lifecycle
pub mod Consistent
pub mod Grown
pub mod AddInv
pub mod Keeps
pub mod Outcome
pub mod Slots
pub mod SlotsAdd
pub mod SlotsCalls
pub mod Calls
pub mod Stored
pub mod Flagged
mod Examples
mod CallsExamples
use atrace.Prelude.{
  ℕ, zero, suc, ◌+◌, ◌-◌, ◌*◌, ◌/◌, ◌≤◌, ◌<◌, ◌≡◌, Bool, true, false, not, ◌&&◌, ◌||◌, Option, none,
  some, List, [], ◌∷◌, ◌++◌, ◌==◌, leb, ltb, if◌then◌else◌, bit_and, bit_or, length, get_elem?, set,
  Run, ok, fault, Fault, check, ◌>>=◌, ◌>>◌, Status, success, minus,
}
use atrace.Linux.{ListOps}
use atrace.Object.{Object, obj_attr_flag_no_bkpt, object_attr_flag}
use atrace.BpTree.{
  BpEntry, Tree, RbOps, breakpoint_rb_find, breakpoint_rb_search_insert, with_empty,
}
use atrace.Slot.{
  SlotSet, PageSource, Allocation, slot_alloc, slot_free, slot_invalid_cache, bp_get_slot_offset,
  slot_page_size, slot_size,
}

abbrev pub bkpt_attr_flag_enable : ℕ
bkpt_attr_flag_enable = 1

abbrev pub bkpt_attr_flag_trace : ℕ
bkpt_attr_flag_trace = 2

abbrev pub bkpt_attr_flag_no_slot : ℕ
bkpt_attr_flag_no_slot = 4

-- `brk #0x03`
abbrev pub brk : ℕ
brk = 0xD4200060

-- `struct breakpoint`. `slot_set` is the address of a set; `chained` is false while `breakpoint_chain` is empty.
pub record Breakpoint : Type 0 where
  pub attr : ℕ
  pub bp_enter : BpEntry
  pub bp_return : BpEntry
  pub slot_set : Option ℕ
  pub slot_index : ℕ
  pub obj : Option ℕ
  pub chained : Bool

-- `breakpoint_attr_set_##name`, `breakpoint_attr_clr_##name` and `breakpoint_attr_flag_##name`, at a flag.
unfoldable pub breakpoint_attr_set : ℕ → Breakpoint → Breakpoint
breakpoint_attr_set flag bp = record bp { attr = bit_or bp.attr flag }

unfoldable pub breakpoint_attr_clr : ℕ → Breakpoint → Breakpoint
breakpoint_attr_clr flag bp = record bp { attr = bit_and bp.attr (4294967295 - flag) }

unfoldable pub breakpoint_attr_flag : ℕ → Breakpoint → Bool
breakpoint_attr_flag flag bp = not (bit_and bp.attr flag == 0)

-- What the process holds: the instruction words by address, which addresses of code may be written, and the ranges
-- whose cache lines were cleared, the last one first.
pub record World : Type 0 where
  pub objects : List Object
  pub breakpoints : List Breakpoint
  pub tree : Tree
  pub slot_sets : List SlotSet
  pub memory : ℕ → ℕ
  pub writable : ℕ → Bool
  pub cleared : List (ℕ × ℕ)

-- What stands outside the source: the tree and list code, the pages for slots, and whether `mprotect` allows writing,
-- or takes it away, for an address and a length.
pub record Machine : Type 0 where
  pub rb : RbOps
  pub set_lists : ListOps SlotSet
  pub chain_lists : ListOps ℕ
  pub source : PageSource
  pub mprotect : Bool → ℕ → ℕ → Bool

abbrev pub in_text : Object → ℕ → Bool
in_text obj addr = leb obj.text_start addr && ltb addr obj.text_end

-- A pointer that is followed.
abbrev pub deref {ℓ} : {A : Type ℓ} → List A → ℕ → Run A
deref [] p = fault Fault.null_deref
deref (x ∷ xs) zero = ok x
deref (x ∷ xs) (suc p) = deref xs p

-- `calloc` fails or clears the breakpoint; the nodes of its entries are in no tree and the entries point back to it.
unfoldable pub breakpoint_new : Bool → World → Run (World × ℕ)
breakpoint_new false w = fault Fault.aborted
breakpoint_new true w =
    let bkpt = length w.breakpoints in
    let entry : BpEntry = record { address = 0; bkpt = bkpt; rb_empty = true } in
    let fresh : Breakpoint = record {
      attr = 0;
      bp_enter = entry;
      bp_return = entry;
      slot_set = none;
      slot_index = 0;
      obj = none;
      chained = false;
    } in
    ok (record w { breakpoints = w.breakpoints ++ fresh ∷ [] }, bkpt)

-- NULL, or the breakpoint of an entry.
abbrev pub bkpt_of : Option BpEntry → Option ℕ
bkpt_of none = none
bkpt_of (some entry) = some entry.bkpt

unfoldable pub breakpoint_find : World → ℕ → Option ℕ
breakpoint_find w addr = bkpt_of (breakpoint_rb_find w.tree addr)

-- The pointer that `object_get_by_address` returns.
unfoldable pub object_pointer : ℕ → List Object → Option ℕ
object_pointer addr [] = none
object_pointer addr (o ∷ rest) =
    let behind = object_pointer addr rest in
    if leb o.text_start addr && leb addr o.text_end
    then some 0
    else elim behind [ none ↦ none | some i ↦ some (suc i) ]

-- A store of 32 bits.
abbrev pub write : ℕ → ℕ → (ℕ → ℕ) → ℕ → ℕ
write addr v memory a = if addr == a then v else memory a

-- The set with the address of `s` is replaced.
abbrev pub put_set : SlotSet → List SlotSet → List SlotSet
put_set s [] = []
put_set s (x ∷ xs) = if x.ptr == s.ptr then s ∷ xs else x ∷ put_set s xs

unfoldable pub find_set : ℕ → List SlotSet → Run SlotSet
find_set q [] = fault Fault.null_deref
find_set q (x ∷ xs) = if x.ptr == q then ok x else find_set q xs

-- The slot gets the instruction and a break instruction behind it, which is where `bp_return` stands.
-- Only the first page of a set is mapped.
unfoldable pub fill_slot : Breakpoint → Allocation → World → Run (World × Breakpoint)
fill_slot bkpt a w = do
  let instr_ptr = bp_get_slot_offset a.slot a.index
  elim (ltb (a.index * slot_size) slot_page_size) [
    | false ↦ fault Fault.out_of_bounds
    | true ↦ ok (
      record w {
        slot_sets = a.sets;
        memory =
            write (instr_ptr + 4) brk (write instr_ptr (w.memory bkpt.bp_enter.address) w.memory);
        cleared = slot_invalid_cache a.slot a.index ∷ w.cleared;
      },
      record bkpt {
        slot_set = some a.slot.ptr;
        slot_index = a.index;
        bp_return = record bkpt.bp_return { address = instr_ptr + 4 };
      },
    )
  ]

-- `bkpt->slot_set`, which is followed.
unfoldable pub slot_of : Option ℕ → List SlotSet → Run SlotSet
slot_of none slot_sets = fault Fault.null_deref
slot_of (some q) slot_sets = find_set q slot_sets

module _ (m : Machine) where
  -- Behind the slot: the breakpoint `p` joins the object `i`.
  abbrev pub join_object : ℕ → ℕ → Object → Breakpoint → World → World
  join_object p i obj bkpt w = record w {
    objects =
        set w.objects i
          (record obj { breakpoint_chain = m.chain_lists.list_add p obj.breakpoint_chain });
    breakpoints = set w.breakpoints p (record bkpt { obj = some i; chained = true });
  }

  -- What follows the insertion of `bp_return`: where its address is taken the slot is given back.
  abbrev pub returned :
      ℕ → ℕ → Object → SlotSet → World → Breakpoint → Tree × Status → Run (World × Status)
  returned p i obj s w bkpt (t, success) = ok (
    join_object p i obj (record bkpt { bp_return = with_empty false bkpt.bp_return })
        (record w { tree = t }),
    success,
  )
  returned p i obj s w bkpt (t, minus n) = slot_free s bkpt.slot_index >>= λ freed. ok (
    record w { breakpoints = set w.breakpoints p bkpt; slot_sets = put_set freed w.slot_sets },
    minus 4,
  )

  abbrev pub insert_return : ℕ → ℕ → Object → SlotSet → World × Breakpoint → Run (World × Status)
  insert_return p i obj s (w, bkpt) =
      breakpoint_rb_search_insert m.rb bkpt.bp_return w.tree >>= returned p i obj s w bkpt

  -- `slot_alloc` tries again once at most: the set that it adds has room.
  abbrev pub with_slot : ℕ → ℕ → Object → Breakpoint → World → Run (World × Status)
  with_slot p i obj bkpt w =
      slot_alloc m.set_lists m.source 2 (length w.slot_sets) w.slot_sets >>= λ a.
      fill_slot bkpt a w >>= insert_return p i obj a.slot

  -- The part of `breakpoint_add` behind the insertion of `bp_enter`, which is in `w` and `bkpt` already.
  unfoldable pub add_slot : ℕ → ℕ → Object → Breakpoint → World → Run (World × Status)
  add_slot p i obj bkpt w =
      if breakpoint_attr_flag bkpt_attr_flag_no_slot bkpt
      then ok (join_object p i obj bkpt w, success)
      else with_slot p i obj bkpt w

  abbrev pub inserted_enter :
      ℕ → ℕ → Object → Breakpoint → World → Tree × Status → Run (World × Status)
  inserted_enter p i obj bkpt w (t, minus n) = ok (record w { tree = t }, minus 3)
  inserted_enter p i obj bkpt w (t, success) =
      let linked : Breakpoint = record bkpt { bp_enter = with_empty false bkpt.bp_enter } in
      add_slot p i obj linked (record w { tree = t; breakpoints = set w.breakpoints p linked })

  abbrev pub insert_enter : ℕ → ℕ → Object → Breakpoint → World → Run (World × Status)
  insert_enter p i obj bkpt w =
      breakpoint_rb_search_insert m.rb bkpt.bp_enter w.tree >>= inserted_enter p i obj bkpt w

  abbrev pub add_at : ℕ → Breakpoint → World → Option ℕ → Run (World × Status)
  add_at p bkpt w none = ok (w, minus 1)
  add_at p bkpt w (some i) = deref w.objects i >>= λ obj.
      if object_attr_flag obj_attr_flag_no_bkpt obj
      then ok (w, minus 2)
      else insert_enter p i obj bkpt w

  unfoldable pub breakpoint_add : ℕ → World → Run (World × Status)
  breakpoint_add p w = do
    bkpt ← deref w.breakpoints p
    check (not bkpt.chained)
    add_at p bkpt w (object_pointer bkpt.bp_enter.address w.objects)
