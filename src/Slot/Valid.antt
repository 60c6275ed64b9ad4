-- ===== src/Slot/Valid.antt =====
-- The invariant of a slot set: the count of used slots is the number of zeros in the bit map.
use atrace.Prelude.{
  ℕ, ◌+◌, ◌*◌, ◌/◌, ◌%◌, ◌^◌, ◌<◌, ◌≡◌, refl, ◌∙◌, arith, Bool, true, false, ◌==◌, if◌then◌else◌,
  length, length-set, get_or, get_or-set, All, All-set, All-get_or,
}
use atrace.Prelude.Bits.{bit, clear_bit, bit-clear_bit, bit_and-lt}
use atrace.Prelude.Count.{popcount_flip, popcount_full}
use atrace.Slot.{SlotSet, uint_bit_num, slot_num, slot_map_len, take_slot, new_set}
use atrace.Slot.Words.{ones, ones-set}

pub record IsValid (s : SlotSet) : Type 0 where
  pub width : length s.free_slot ≡ slot_map_len
  pub words : All (λ w. w < 2 ^ 32) s.free_slot
  pub counted : s.used_slot_count + ones s.free_slot ≡ slot_num

-- Whether slot `index` is free.
abbrev pub is_free : SlotSet → ℕ → Bool
is_free s index = bit (index % uint_bit_num) (get_or s.free_slot (index / uint_bit_num) 0)

pub is_free-index :
    (s : SlotSet) (idx pos : ℕ)
    → pos < uint_bit_num
    → is_free s (idx * uint_bit_num + pos) ≡ bit pos (get_or s.free_slot idx 0)
is_free-index s idx pos h =
    let low : (idx * uint_bit_num + pos) % uint_bit_num ≡ pos = omega arith in
    let high : (idx * uint_bit_num + pos) / uint_bit_num ≡ idx = omega arith in rw (low, high)

pub new_set-IsValid : (q map_ptr : ℕ) → IsValid (new_set q map_ptr)
new_set-IsValid q map_ptr = record { width = refl; words = omega arith; counted = rw popcount_full }

-- One free slot of a valid set, at a word and a position in it.
module _ (s : SlotSet) (idx pos : ℕ) (valid : IsValid s) (idx_lt : idx < slot_map_len)
    (pos_lt : pos < uint_bit_num) (free : bit pos (get_or s.free_slot idx 0) ≡ true) where
  pub take_slot-IsValid : IsValid (take_slot s idx pos)
  take_slot-IsValid = record {
    width = length-set s.free_slot idx _ ∙ valid.width;
    words =
        All-set (λ w. w < 2 ^ 32) s.free_slot idx _
          (bit_and-lt 32 _ _ (
            All-get_or (λ w. w < 2 ^ 32) s.free_slot idx 0 (omega (arith, valid.width))
              valid.words))
          valid.words;
    counted = omega (
      arith,
      valid.counted,
      ones-set s.free_slot idx (clear_bit (get_or s.free_slot idx 0) pos),
      popcount_flip 32 pos (get_or s.free_slot idx 0) (clear_bit (get_or s.free_slot idx 0) pos)
          pos_lt free (λ k h. bit-clear_bit (get_or s.free_slot idx 0) pos k pos_lt h),
    );
  }

  -- Taking the slot leaves every other slot as it was.
  pub is_free-take_slot :
      (j : ℕ)
      → is_free (take_slot s idx pos) j
        ≡ (if idx * uint_bit_num + pos == j then false else is_free s j)
  is_free-take_slot j =
      rw
        (get_or-set s.free_slot idx (j / uint_bit_num) (clear_bit (get_or s.free_slot idx 0) pos) 0
          (omega (arith, valid.width)))
        (ground (arith, bit-clear_bit (get_or s.free_slot idx 0) pos (j % uint_bit_num) pos_lt))
