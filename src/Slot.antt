-- ===== src/Slot.antt =====
-- signal_test/breakpoint.h and breakpoint.c, the sets of instruction slots: a page of slots with a
-- bit map of the free ones. Each function takes its locks and releases them, so a call is one step.
pub mod Words
pub mod Valid
pub mod Scan
pub mod Alloc
pub mod Returned
pub mod Free
pub mod Mapping
mod Examples
use atrace.Prelude.{
  ℕ, zero, suc, ◌+◌, ◌-◌, ◌*◌, ◌/◌, ◌%◌, ◌^◌, ◌<◌, ◌≡◌, Bool, true, false, Option, none, some, List,
  [], ◌∷◌, ◌==◌, ltb, if◌then◌else◌, get_or, set, replicate, Run, ok, fault, Fault, check, ◌>>=◌,
  ◌>>◌,
}
use atrace.Prelude.Bits.{clear_bit, set_bit, test_bit}
use atrace.Prelude.Count.{ffs}
use atrace.Linux.{ListOps}

abbrev pub slot_page_size : ℕ
slot_page_size = 4096

abbrev pub slot_page_num : ℕ
slot_page_num = 2

abbrev pub slot_size : ℕ
slot_size = 8

abbrev pub slot_num : ℕ
slot_num = slot_page_num * slot_page_size / slot_size

-- `sizeof(unsigned int) << 3`
abbrev pub uint_bit_num : ℕ
uint_bit_num = 32

abbrev pub slot_map_len : ℕ
slot_map_len = (slot_num + uint_bit_num - 1) / uint_bit_num

-- `struct slot_set`; `ptr` is the address of the structure itself.
pub record SlotSet : Type 0 where
  pub ptr : ℕ
  pub free_slot : List ℕ
  pub used_slot_count : ℕ
  pub slots : ℕ

-- `BP_GET_SLOT_OFFSET`
abbrev pub bp_get_slot_offset : SlotSet → ℕ → ℕ
bp_get_slot_offset s idx = s.slots + idx * slot_size

-- What `calloc` and `mmap` answer at the n-th call of `slot_set_add`: `none` is NULL or MAP_FAILED.
-- `mmap` is also given the length that is asked for.
pub record PageSource : Type 0 where
  pub calloc : ℕ → Option ℕ
  pub mmap : ℕ → ℕ → Option ℕ

abbrev pub new_set : ℕ → ℕ → SlotSet
new_set q map_ptr = record {
  ptr = q;
  free_slot = replicate slot_map_len (2 ^ 32 - 1);
  used_slot_count = 0;
  slots = map_ptr;
}

module _ (lists : ListOps SlotSet) (source : PageSource) where
  unfoldable pub slot_set_add : ℕ → List SlotSet → Run (List SlotSet)
  slot_set_add count slot_sets = elim (source.calloc count) [
    | none ↦ fault Fault.aborted
    | some q ↦ elim (source.mmap count slot_page_size) [
      | none ↦ fault Fault.aborted
      | some map_ptr ↦ ok (lists.list_add (new_set q map_ptr) slot_sets)
    ]
  ]

-- How the loop over the words of one set ends: at `goto found`, or behind the loop with the value
-- that `idx` has then.
pub data WordScan : Type 0 where
  found : ℕ → ℕ → WordScan
  behind : ℕ → WordScan

-- `for (; idx<SLOT_MAP_LEN; idx++)`, with the rounds left.
unfoldable pub scan_words : ℕ → ℕ → List ℕ → WordScan
scan_words zero idx free_slot = behind idx
scan_words (suc rounds) idx free_slot =
    let next = scan_words rounds (suc idx) free_slot in
    let word = get_or free_slot idx 0 in
    if word == 0
    then next
    else if ltb slot_num (ffs word + idx * uint_bit_num)
    then behind idx
    else found idx (ffs word - 1)

-- What `slot_alloc` leaves: the sets, the chosen set and the index of the slot in it.
pub record Allocation : Type 0 where
  pub sets : List SlotSet
  pub slot : SlotSet
  pub index : ℕ

-- Behind the label `found`.
abbrev pub take_slot : SlotSet → ℕ → ℕ → SlotSet
take_slot curr idx pos = record curr {
  free_slot = set curr.free_slot idx (clear_bit (get_or curr.free_slot idx 0) pos);
  used_slot_count = curr.used_slot_count + 1;
}

abbrev pub behind_set : SlotSet → Option Allocation → Option Allocation
behind_set curr none = none
behind_set curr (some a) = some (record a { sets = curr ∷ a.sets })

-- `list_for_each_entry` over the sets. `idx` is set to 0 before the loop only.
unfoldable pub scan_sets : ℕ → List SlotSet → Option Allocation
scan_sets idx [] = none
scan_sets idx (curr ∷ rest) = elim (curr.used_slot_count == slot_num) [
  | true ↦ behind_set curr (scan_sets idx rest)
  | false ↦ elim (scan_words (slot_map_len - idx) idx curr.free_slot) [
    | behind idx' ↦ behind_set curr (scan_sets idx' rest)
    | found i pos ↦ some (record {
      sets = take_slot curr i pos ∷ rest;
      slot = take_slot curr i pos;
      index = i * uint_bit_num + pos;
    })
  ]
]

module _ (lists : ListOps SlotSet) (source : PageSource) where
  -- `goto retry` makes a round of the fuel.
  unfoldable pub slot_alloc : ℕ → ℕ → List SlotSet → Run Allocation
  slot_alloc zero count slot_sets = fault Fault.out_of_fuel
  slot_alloc (suc fuel) count slot_sets = elim (scan_sets 0 slot_sets) [
    | some a ↦ ok a
    | none ↦ slot_set_add lists source count slot_sets >>= λ more. slot_alloc fuel (suc count) more
  ]

-- The set after the call. `used_slot_count` is unsigned, so the last assertion always holds.
unfoldable pub slot_free : SlotSet → ℕ → Run SlotSet
slot_free s index = do
  check (ltb index uint_bit_num)
  let idx = index / uint_bit_num
  let pos = index % uint_bit_num
  let word = get_or s.free_slot idx 0
  ok (
      if test_bit word pos then s else record s {
        free_slot = set s.free_slot idx (set_bit word pos);
        used_slot_count = (s.used_slot_count + 2 ^ 32 - 1) % 2 ^ 32;
      })

-- The range whose cache lines `slot_invalid_cache` clears.
unfoldable pub slot_invalid_cache : SlotSet → ℕ → ℕ × ℕ
slot_invalid_cache s index = (bp_get_slot_offset s index, bp_get_slot_offset s index + slot_size)
