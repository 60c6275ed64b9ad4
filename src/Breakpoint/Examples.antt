-- ===== src/Breakpoint/Examples.antt =====
-- Runs of the breakpoints, and their theorems at concrete inputs.
use atrace.Prelude.{
  ℕ, zero, suc, ◌+◌, ◌-◌, ◌*◌, ◌^◌, ◌≤◌, ◌<◌, ◌≡◌, refl, ◌≢◌, ◌⊎◌, inl, inr, arith, Bool, true,
  false, Option, none, some, List, [], ◌∷◌, ◌++◌, ◌==◌, if◌then◌else◌, Run, ok, fault, Fault,
  Status, success, minus,
}
use atrace.Linux.{plain_lists}
use atrace.Object.{Object, object_attr_flag}
use atrace.BpTree.{BpEntry, Tree, null, node, red, breakpoint_rb_find}
use atrace.BpTree.Plain.{plain_rb}
use atrace.Slot.{SlotSet, PageSource, Allocation, new_set, take_slot, slot_alloc}
use atrace.Breakpoint.{
  breakpoint_find, Breakpoint, World, Machine, breakpoint_add, breakpoint_attr_flag, object_pointer,
  find_set, slot_of,
}
use atrace.Breakpoint.Code.{breakpoint_enable, breakpoint_disable}
use atrace.Breakpoint.Errors.{Refused, breakpoint_add-Refused}
use atrace.Breakpoint.Added.{Placed, breakpoint_add-Placed}
use atrace.Breakpoint.Leak.{breakpoint_add_leaks}
use atrace.Breakpoint.Lifecycle.{breakpoint_add_enable_disable}
use atrace.Breakpoint.Patch.{IsPlaced, Enabled, breakpoint_enable-Enabled, disable-enable}

abbrev pub machine : Machine
machine = record {
  rb = plain_rb;
  set_lists = plain_lists;
  chain_lists = plain_lists;
  source = record { calloc = λ n. some (n + 100); mmap = λ n len. some (n * 0x10000 + 0x10000) };
  mprotect = λ allow start len. true;
}

abbrev code : Object
code = record {
  file_name = [];
  text_start = 1000;
  text_end = 2000;
  text_attr = 10;
  breakpoint_chain = [];
}

abbrev pub fresh_at : ℕ → Breakpoint
fresh_at addr = record {
  attr = 0;
  bp_enter = record { address = addr; bkpt = 0; rb_empty = true };
  bp_return = record { address = 0; bkpt = 0; rb_empty = true };
  slot_set = none;
  slot_index = 0;
  obj = none;
  chained = false;
}

abbrev pub world_with : ℕ → World
world_with addr = record {
  objects = code ∷ [];
  breakpoints = fresh_at addr ∷ [];
  tree = null;
  slot_sets = [];
  memory = λ a. a + 7;
  writable = λ a. false;
  cleared = [];
}

abbrev first_slot : Allocation
first_slot = record {
  sets = take_slot (new_set 100 0x10000) 0 0 ∷ [];
  slot = take_slot (new_set 100 0x10000) 0 0;
  index = 0;
}

-- The world with the breakpoint at 1500 added.
abbrev placed_at : Breakpoint
placed_at = record (fresh_at 1500) {
  bp_enter = record { address = 1500; bkpt = 0; rb_empty = false };
  slot_set = some 100;
  obj = some 0;
  chained = true;
}

abbrev world_placed : World
world_placed = record (world_with 1500) {
  breakpoints = placed_at ∷ [];
  slot_sets = take_slot (new_set 100 0x10000) 0 0 ∷ [];
  memory = λ a. if a == 0x10000 then 1507 else a + 7;
}

outside : breakpoint_add machine 0 (world_with 5000) ≡ ok (world_with 5000, minus 1)
unfolding breakpoint_add object_pointer
outside = refl

-- The address behind the last byte of an object is resolved to it.
closed_end : object_pointer 2000 (code ∷ []) ≡ some 0
unfolding object_pointer
closed_end = refl

breakpoint_add-Refused_example :
    (world_with 5000 ≡ world_with 5000) × Refused 1 (world_with 5000) 5000
breakpoint_add-Refused_example =
    breakpoint_add-Refused machine 0 1 (fresh_at 5000) (world_with 5000) (world_with 5000) refl
      outside (omega arith)

breakpoint_add-Placed_example :
    (w' : World) × (breakpoint_add machine 0 (world_with 1500) ≡ ok (w', success))
    × Placed machine 0 0 (fresh_at 1500) code first_slot (world_with 1500) w'
unfolding breakpoint_attr_flag object_attr_flag object_pointer breakpoint_rb_find
    atrace.BpTree.breakpoint_rb_find_internal slot_alloc atrace.Slot.scan_sets
    atrace.Slot.slot_set_add atrace.Slot.scan_words atrace.Prelude.Count.ffs
breakpoint_add-Placed_example =
    breakpoint_add-Placed machine 0 0 (fresh_at 1500) code first_slot (world_with 1500) refl
      (record {
        enter_empty = refl;
        return_empty = refl;
        enter_back = refl;
        return_back = refl;
        unchained = refl;
        wants_slot = refl;
      })
      (record { sorted = tt; pointer = refl; object = refl; allowed = refl; free = refl })
      (record { alloc = refl; mapped = refl; return_free = refl; apart = omega arith })

placed : IsPlaced machine 0 0 placed_at code world_placed
placed = record {
  held = refl;
  linked = refl;
  owner = refl;
  object = refl;
  inside = refl;
  can_unlock = refl;
  can_lock = refl;
}

breakpoint_enable-Enabled_example :
    (w' : World) × (breakpoint_enable machine 0 world_placed ≡ ok (w', success))
    × Enabled machine 0 placed_at code world_placed w'
unfolding breakpoint_attr_flag
breakpoint_enable-Enabled_example =
    breakpoint_enable-Enabled machine 0 0 placed_at code world_placed placed refl

disable-enable_example :
    (on : World) × (off : World) × (breakpoint_enable machine 0 world_placed ≡ ok (on, success))
    × (breakpoint_disable machine 0 on ≡ ok (off, success))
    × (off.memory ≡ world_placed.memory)
    × (off.breakpoints ≡ world_placed.breakpoints)
unfolding breakpoint_attr_flag slot_of find_set
disable-enable_example =
    disable-enable machine 0 0 (take_slot (new_set 100 0x10000) 0 0) placed_at code world_placed
      placed (record { slot = refl; saved = refl; elsewhere = omega arith }) (omega arith) refl

-- A breakpoint stands where the first slot returns.
abbrev other : BpEntry
other = record { address = 0x10004; bkpt = 5; rb_empty = false }

abbrev world_taken : World
world_taken = record (world_with 1500) { tree = node red null other null }

breakpoint_add_leaks_example :
    (w' : World) × (breakpoint_add machine 0 world_taken ≡ ok (w', minus 4))
    × (breakpoint_find w' 1500 ≡ some 0)
unfolding breakpoint_attr_flag object_pointer object_attr_flag breakpoint_rb_find
    atrace.BpTree.breakpoint_rb_find_internal slot_alloc atrace.Slot.scan_sets
    atrace.Slot.slot_set_add atrace.Slot.scan_words atrace.Prelude.Count.ffs
breakpoint_add_leaks_example =
    breakpoint_add_leaks machine 0 0 (fresh_at 1500) code first_slot other world_taken refl
      (record {
        enter_empty = refl;
        return_empty = refl;
        enter_back = refl;
        return_back = refl;
        unchained = refl;
        wants_slot = refl;
      })
      (record { sorted = (tt, tt); pointer = refl; object = refl; allowed = refl; free = refl })
      (record {
        alloc = refl;
        mapped = refl;
        first_word = refl;
        return_taken = refl;
        apart = omega arith;
      })

breakpoint_add_enable_disable_example :
    (w' : World) × (on : World) × (off : World) × (breakpoint_add machine 0 (world_with 1500)
      ≡ ok (w', success))
    × (breakpoint_enable machine 0 w' ≡ ok (on, success))
    × (breakpoint_disable machine 0 on ≡ ok (off, success))
    × (off.memory ≡ w'.memory)
    × (off.breakpoints ≡ w'.breakpoints)
unfolding breakpoint_attr_flag object_pointer object_attr_flag breakpoint_rb_find
    atrace.BpTree.breakpoint_rb_find_internal slot_alloc atrace.Slot.scan_sets
    atrace.Slot.slot_set_add atrace.Slot.scan_words atrace.Prelude.Count.ffs find_set
breakpoint_add_enable_disable_example =
    breakpoint_add_enable_disable machine 0 0 (fresh_at 1500) code first_slot (world_with 1500) refl
      (record {
        enter_empty = refl;
        return_empty = refl;
        enter_back = refl;
        return_back = refl;
        unchained = refl;
        wants_slot = refl;
      })
      (record { sorted = tt; pointer = refl; object = refl; allowed = refl; free = refl })
      (record { alloc = refl; mapped = refl; return_free = refl; apart = omega arith })
      (record {
        inside = refl;
        can_unlock = refl;
        can_lock = refl;
        kept = refl;
        elsewhere = omega arith;
      })
      (omega arith) refl
