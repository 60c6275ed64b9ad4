-- ===== src/Breakpoint/CallsExamples.antt =====
-- Calls of the breakpoints one after the other, at concrete inputs.
use atrace.Prelude.{
  ℕ, zero, suc, ◌+◌, ◌-◌, ◌*◌, ◌^◌, ◌≤◌, ◌<◌, ◌≡◌, refl, ◌≢◌, ◌⊎◌, inl, inr, arith, Bool, true,
  false, Option, none, some, List, [], ◌∷◌, ◌++◌, ◌==◌, if◌then◌else◌, Run, map, set, ok, fault,
  Fault, Status, success, minus,
}
use atrace.Object.{object_attr_flag}
use atrace.BpTree.{BpEntry, Tree, null, node, red, breakpoint_rb_find}
use atrace.Slot.{SlotSet, PageSource, Allocation, new_set, take_slot, slot_alloc}
use atrace.Breakpoint.{
  breakpoint_find, breakpoint_new, Breakpoint, World, Machine, breakpoint_add, breakpoint_attr_flag,
  object_pointer, find_set, slot_of,
}
use atrace.Breakpoint.AddInv.{Inv}
use atrace.Breakpoint.Calls.{new, aim, add, start, behind, Calls-Inv}
use atrace.Breakpoint.SlotsCalls.{SlotsOf, Calls-Slots}
use atrace.Breakpoint.{deref}
use atrace.Breakpoint.Examples.{machine, fresh_at, world_with}

-- One object and no breakpoint.
abbrev bare : World
bare = record (world_with 0) { breakpoints = [] }

bare-Inv : Inv bare
unfolding breakpoint_rb_find atrace.BpTree.breakpoint_rb_find_internal
bare-Inv = record {
  tree = record { sorted = tt; back = λ addr f e. absurd (ground arith) };
  each = λ p b e. absurd (ground arith);
}

abbrev world_of : World → Run (World × Status) → World
world_of w (ok r) = r.0
world_of w (fault e) = w

abbrev world_added : World
world_added = world_of bare (breakpoint_add machine 0 (world_with 1500))

makes : breakpoint_new true bare ≡ ok (world_with 0, 0)
unfolding breakpoint_new
makes = refl

adds : breakpoint_add machine 0 (world_with 1500) ≡ ok (world_added, success)
unfolding breakpoint_add object_pointer object_attr_flag atrace.BpTree.breakpoint_rb_search_insert
    atrace.BpTree.breakpoint_rb_find_internal atrace.BpTree.breakpoint_rb_insert_internal
    atrace.BpTree.link atrace.Breakpoint.add_slot breakpoint_attr_flag slot_alloc
    atrace.Slot.scan_sets atrace.Slot.slot_set_add atrace.Slot.scan_words atrace.Prelude.Count.ffs
    atrace.Breakpoint.fill_slot
adds = refl

-- A second breakpoint, made behind the first, aimed at 1600 and added.
abbrev second : ℕ → Breakpoint
second addr = record (fresh_at addr) {
  bp_enter = record { address = addr; bkpt = 1; rb_empty = true };
  bp_return = record { address = 0; bkpt = 1; rb_empty = true };
}

abbrev world_second : World
world_second = record world_added { breakpoints = world_added.breakpoints ++ second 0 ∷ [] }

abbrev world_aimed : World
world_aimed = record world_second { breakpoints = set world_second.breakpoints 1 (second 1600) }

abbrev world_both : World
world_both = world_of bare (breakpoint_add machine 1 world_aimed)

makes_second : breakpoint_new true world_added ≡ ok (world_second, 1)
unfolding breakpoint_new breakpoint_add object_pointer object_attr_flag
    atrace.BpTree.breakpoint_rb_search_insert atrace.BpTree.breakpoint_rb_find_internal
    atrace.BpTree.breakpoint_rb_insert_internal atrace.BpTree.link atrace.Breakpoint.add_slot
    breakpoint_attr_flag slot_alloc atrace.Slot.scan_sets atrace.Slot.slot_set_add
    atrace.Slot.scan_words atrace.Prelude.Count.ffs atrace.Breakpoint.fill_slot
makes_second = refl

holds_second : deref world_second.breakpoints 1 ≡ ok (second 0)
unfolding breakpoint_add object_pointer object_attr_flag atrace.BpTree.breakpoint_rb_search_insert
    atrace.BpTree.breakpoint_rb_find_internal atrace.BpTree.breakpoint_rb_insert_internal
    atrace.BpTree.link atrace.Breakpoint.add_slot breakpoint_attr_flag slot_alloc
    atrace.Slot.scan_sets atrace.Slot.slot_set_add atrace.Slot.scan_words atrace.Prelude.Count.ffs
    atrace.Breakpoint.fill_slot
holds_second = refl

adds_second : breakpoint_add machine 1 world_aimed ≡ ok (world_both, success)
unfolding breakpoint_add object_pointer object_attr_flag atrace.BpTree.breakpoint_rb_search_insert
    atrace.BpTree.breakpoint_rb_find_internal atrace.BpTree.breakpoint_rb_insert_internal
    atrace.BpTree.link atrace.Breakpoint.add_slot breakpoint_attr_flag slot_alloc
    atrace.Slot.scan_sets atrace.Slot.slot_set_add atrace.Slot.scan_words atrace.Prelude.Count.ffs
    atrace.Breakpoint.fill_slot
adds_second = refl

-- The slots are those of one set, and differ.
slots_differ : map (λ (b : Breakpoint). b.slot_index) world_both.breakpoints ≡ 0 ∷ 1 ∷ []
unfolding breakpoint_add object_pointer object_attr_flag atrace.BpTree.breakpoint_rb_search_insert
    atrace.BpTree.breakpoint_rb_find_internal atrace.BpTree.breakpoint_rb_insert_internal
    atrace.BpTree.link atrace.Breakpoint.add_slot breakpoint_attr_flag slot_alloc
    atrace.Slot.scan_sets atrace.Slot.slot_set_add atrace.Slot.scan_words atrace.Prelude.Count.ffs
    atrace.Breakpoint.fill_slot
slots_differ = refl

-- A breakpoint is made, aimed at 1500 and added.
Calls-Inv_example : Inv world_added
Calls-Inv_example = Calls-Inv machine bare-Inv (
    behind (behind (behind start (new true 0 makes)) (aim 0 1500 0 (fresh_at 0) refl refl))
      (add 0 success adds))

bare-Slots : SlotsOf machine bare
bare-Slots = record {
  pool = record { valid = tt; distinct = tt };
  given = tt;
  in_tree = λ p b q e has. absurd (ground arith);
  taken = λ p b q j e has. absurd (ground arith);
  apart = λ p r b c q j e f has has'. absurd (ground arith);
}

calloc-once :
    (i j r : ℕ) → machine.source.calloc i ≡ some r → machine.source.calloc j ≡ some r → i ≡ j
calloc-once i j r e f = ground arith

Calls-Slots_example : SlotsOf machine world_both
Calls-Slots_example = Calls-Slots machine calloc-once bare-Inv bare-Slots (
    behind
      (behind
        (behind
          (behind (behind (behind start (new true 0 makes)) (aim 0 1500 0 (fresh_at 0) refl refl))
            (add 0 success adds))
          (new true 1 makes_second))
        (aim 1 1600 0 (second 0) holds_second refl))
      (add 1 success adds_second))
