-- ===== src/Slot/Examples.antt =====
-- Runs of the slot sets, and their theorems at concrete inputs.
use atrace.Prelude.{
  ℕ, zero, suc, ◌+◌, ◌-◌, ◌*◌, ◌/◌, ◌%◌, ◌^◌, ◌≤◌, ◌<◌, ◌≡◌, refl, ap, ◌∙◌, ◌⊎◌, arith, true, false,
  none, some, List, [], ◌∷◌, ◌++◌, ◌==◌, if◌then◌else◌, replicate, get_or, ok, fault, Fault, All,
}
use atrace.Prelude.Count.{ffs, popcount}
use atrace.Prelude.Bits.{bit, bit-zero}
use atrace.Linux.{plain_lists}
use atrace.Slot.{
  SlotSet, PageSource, Allocation, new_set, take_slot, slot_set_add, scan_words, scan_sets,
  slot_alloc, slot_free, slot_invalid_cache, bp_get_slot_offset, slot_page_size,
}
use atrace.Slot.Valid.{IsValid, is_free, new_set-IsValid}
use atrace.Slot.Scan.{IsFull}
use atrace.Slot.Alloc.{Takes, slot_alloc-Takes}
use atrace.Slot.Free.{slot_free-first, slot_free-take_slot}
use atrace.Slot.Mapping.{slot_alloc_beyond_mapping}

-- Sets at 100, 101, …, with their pages far apart.
abbrev plenty : PageSource
plenty = record { calloc = λ n. some (n + 100); mmap = λ n len. some (n * 0x10000 + 0x10000) }

abbrev starved : PageSource
starved = record { calloc = λ n. none; mmap = λ n len. none }

-- Twenty words taken.
abbrev busy : SlotSet
busy = record {
  ptr = 7;
  free_slot = replicate 20 0 ++ replicate 12 (2 ^ 32 - 1);
  used_slot_count = 640;
  slots = 0x40000;
}

-- A set with no slot left.
abbrev full_set : SlotSet
full_set = record busy { ptr = 5; free_slot = replicate 32 0; used_slot_count = 1024 }

first_alloc :
    slot_alloc plain_lists plenty 2 0 []
    ≡ ok (record {
      sets = take_slot (new_set 100 0x10000) 0 0 ∷ [];
      slot = take_slot (new_set 100 0x10000) 0 0;
      index = 0;
    })
unfolding slot_alloc slot_set_add scan_sets scan_words ffs
first_alloc = refl

busy_alloc :
    slot_alloc plain_lists plenty 1 0 (busy ∷ [])
    ≡ ok (record { sets = take_slot busy 20 0 ∷ []; slot = take_slot busy 20 0; index = 640 })
unfolding slot_alloc slot_set_add scan_sets scan_words ffs
busy_alloc = refl

no_memory : slot_alloc plain_lists starved 2 0 [] ≡ fault Fault.aborted
unfolding slot_alloc slot_set_add scan_sets
no_memory = refl

cache_range : slot_invalid_cache busy 3 ≡ (0x40018, 0x40020)
unfolding slot_invalid_cache
cache_range = refl

busy-IsValid : IsValid busy
unfolding popcount
busy-IsValid = record { width = refl; words = omega arith; counted = refl }

slot_alloc-Takes_example :
    (sets' : List SlotSet) × (a : Allocation) × ((sets' ≡ busy ∷ [])
      ⊎ (All IsFull (busy ∷ []) × (sets' ≡ new_set 103 0x40000 ∷ busy ∷ [])))
    × (slot_alloc plain_lists plenty 2 3 (busy ∷ []) ≡ ok a)
    × Takes sets' a
slot_alloc-Takes_example =
    slot_alloc-Takes plain_lists plenty 0 3 103 0x40000 (busy ∷ [])
      (record { valid = (busy-IsValid, tt); distinct = (tt, tt) }) refl refl (omega arith)

slot_free-first_example :
    (s' : SlotSet) × (slot_free busy 5 ≡ ok s')
    × IsValid s'
    × ((j : ℕ) → is_free s' j ≡ (if 5 == j then true else is_free busy j))
    × (is_free busy 5 ≡ true → s' ≡ busy)
slot_free-first_example = slot_free-first busy 5 busy-IsValid (omega arith)

slot_free-take_slot_example : slot_free (take_slot busy 20 3) (20 * 32 + 3) ≡ fault Fault.assertion
slot_free-take_slot_example =
    slot_free-take_slot busy 20 3 busy-IsValid (omega arith) (omega arith) refl

-- Giving back a slot that can be given back.
slot_free_restores : slot_free (take_slot (new_set 1 0) 0 9) 9 ≡ ok (new_set 1 0)
slot_free_restores =
    slot_free-take_slot (new_set 1 0) 0 9 (new_set-IsValid 1 0) (omega arith) (omega arith) refl

get_or-replicate_append : (n i a : ℕ) (ws : List ℕ) → i < n → get_or (replicate n a ++ ws) i 0 ≡ a
get_or-replicate_append zero i a ws h = elim h [ ]
get_or-replicate_append (suc n) zero a ws h = refl
get_or-replicate_append (suc n) (suc i) a ws h = get_or-replicate_append n i a ws (omega arith)

taken_below : (j : ℕ) → j < 512 → is_free busy j ≡ false
taken_below j h =
    ap (bit (j % 32))
      (get_or-replicate_append 20 (j / 32) 0 (replicate 12 (2 ^ 32 - 1)) (omega arith))
    ∙ bit-zero (j % 32)

slot_alloc_beyond_mapping_example :
    (a : Allocation) × (slot_alloc plain_lists plenty 1 0 (full_set ∷ busy ∷ []) ≡ ok a)
    × (a.slot.ptr ≡ 7)
    × (a.slot.slots ≡ 0x40000)
    × (0x40000 + slot_page_size ≤ bp_get_slot_offset busy a.index)
slot_alloc_beyond_mapping_example =
    slot_alloc_beyond_mapping plain_lists plenty 0 0 (full_set ∷ []) [] busy (refl, tt) busy-IsValid
      (omega arith) taken_below
