-- ===== src/Slot/Free.antt =====
-- `slot_free` gives a slot back, where its assertion lets it.
use atrace.Prelude.{
  ℕ, zero, suc, ◌+◌, ◌-◌, ◌*◌, ◌/◌, ◌%◌, ◌^◌, ◌≤◌, ◌<◌, ◌≡◌, refl, sym, ap, ◌∙◌, arith, true, false,
  List, [], ◌∷◌, ◌==◌, lt→ltb, if◌then◌else◌, length-set, get_or, get_or-set, set, ok, fault, Fault,
  All-set, All-get_or, Bool-cases, inl, inr,
}
use atrace.Prelude.Bits.{
  bit, clear_bit, set_bit, test_bit-bit, bit-set_bit, bit-clear_bit, bit_and-lt, bit_or-lt,
  eq_of_bits,
}
use atrace.Prelude.Count.{popcount_flip}
use atrace.Slot.{SlotSet, uint_bit_num, slot_map_len, take_slot, slot_free}
use atrace.Slot.Words.{ones-set, ones-le}
use atrace.Slot.Valid.{IsValid, is_free}

-- Rewriting the first word twice, back to what it was.
set_back :
    (ws : List ℕ) (f g : ℕ → ℕ)
    → g (f (get_or ws 0 0)) ≡ get_or ws 0 0
    → set (set ws 0 (f (get_or ws 0 0))) 0 (g (get_or (set ws 0 (f (get_or ws 0 0))) 0 0)) ≡ ws
set_back [] f g e = refl
set_back (w ∷ ws) f g e = ap (λ (v : ℕ). v ∷ ws) e

abbrev released : SlotSet → ℕ → SlotSet
released s pos = record s {
  free_slot = set s.free_slot 0 (set_bit (get_or s.free_slot 0 0) pos);
  used_slot_count = (s.used_slot_count + 2 ^ 32 - 1) % 2 ^ 32;
}

slot_free-first_word :
    (s : SlotSet) (pos : ℕ)
    → pos < uint_bit_num
    → slot_free s pos ≡ ok (if bit pos (get_or s.free_slot 0 0) then s else released s pos)
unfolding slot_free
slot_free-first_word s pos h =
    let word = get_or s.free_slot 0 0 in
    let low : pos % uint_bit_num ≡ pos = omega arith in
    let high : pos / uint_bit_num ≡ 0 = omega arith in
    rw (lt→ltb pos uint_bit_num h, low, high, test_bit-bit word pos h)

module _ (s : SlotSet) (pos : ℕ) (valid : IsValid s) (pos_lt : pos < uint_bit_num) where
  word_small : get_or s.free_slot 0 0 < 2 ^ 32
  word_small = All-get_or (λ w. w < 2 ^ 32) s.free_slot 0 0 (omega (arith, valid.width)) valid.words

  set_bit-lt : set_bit (get_or s.free_slot 0 0) pos < 2 ^ 32
  set_bit-lt = bit_or-lt 32 _ _ word_small (omega arith)

  released-IsValid : bit pos (get_or s.free_slot 0 0) ≡ false → IsValid (released s pos)
  released-IsValid taken =
      let word = get_or s.free_slot 0 0 in
      let flip =
        popcount_flip 32 pos (set_bit word pos) word pos_lt
          (bit-set_bit word pos pos pos_lt ∙ ground arith)
          (λ k h. ground (arith, bit-set_bit word pos k pos_lt)) in
      record {
        width = length-set s.free_slot 0 _ ∙ valid.width;
        words = All-set (λ w. w < 2 ^ 32) s.free_slot 0 _ set_bit-lt valid.words;
        counted = omega (
          arith,
          flip,
          valid.counted,
          valid.width,
          ones-set s.free_slot 0 (set_bit word pos),
          ones-le (set s.free_slot 0 (set_bit word pos)),
          length-set s.free_slot 0 (set_bit word pos),
        );
      }

  is_free-released : (j : ℕ) → is_free (released s pos) j ≡ (if pos == j then true else is_free s j)
  is_free-released j =
      rw
        (get_or-set s.free_slot 0 (j / uint_bit_num) (set_bit (get_or s.free_slot 0 0) pos) 0
          (omega (arith, valid.width)))
        (ground (arith, bit-set_bit (get_or s.free_slot 0 0) pos (j % uint_bit_num) pos_lt))

  first_is_free : is_free s pos ≡ bit pos (get_or s.free_slot 0 0)
  first_is_free =
      let low : pos % uint_bit_num ≡ pos = omega arith in
      let high : pos / uint_bit_num ≡ 0 = omega arith in rw (low, high)

  -- For a slot of the first word, `slot_free` returns a valid set at the same place in which that slot is free
  -- and every other slot is as before; a slot that was free already changes nothing.
  pub slot_free-first :
      (s' : SlotSet) × (slot_free s pos ≡ ok s')
      × IsValid s'
      × ((j : ℕ) → is_free s' j ≡ (if pos == j then true else is_free s j))
      × (is_free s pos ≡ true → s' ≡ s)
  slot_free-first = elim (Bool-cases (bit pos (get_or s.free_slot 0 0))) [
    | inl free ↦ (
      s,
      slot_free-first_word s pos pos_lt ∙ rw free,
      valid,
      λ j. ground (arith, first_is_free),
      λ _. refl,
    )
    | inr taken ↦ (
      released s pos,
      slot_free-first_word s pos pos_lt ∙ rw taken,
      released-IsValid taken,
      is_free-released,
      λ free. cc (sym taken ∙ sym first_is_free ∙ free),
    )
  ]

pub slot_free-beyond :
    (s : SlotSet) (index : ℕ) → uint_bit_num ≤ index → slot_free s index ≡ fault Fault.assertion
unfolding slot_free
slot_free-beyond s index h = ground arith

set_bit-clear_bit :
    (w pos : ℕ) → w < 2 ^ 32 → pos < 32 → bit pos w ≡ true → set_bit (clear_bit w pos) pos ≡ w
set_bit-clear_bit w pos small h on =
    eq_of_bits 32 (set_bit (clear_bit w pos) pos) w
      (bit_or-lt 32 _ _ (bit_and-lt 32 _ _ small) (omega arith)) small
      λ k l. ground (arith, bit-set_bit (clear_bit w pos) pos k h, bit-clear_bit w pos k h l)

released-take_slot :
    (s : SlotSet) (pos : ℕ)
    → IsValid s
    → pos < uint_bit_num
    → bit pos (get_or s.free_slot 0 0) ≡ true
    → released (take_slot s 0 pos) pos ≡ s
released-take_slot s pos v h on =
    let small = word_small s pos v h in
    let count : (s.used_slot_count + 1 + 2 ^ 32 - 1) % 2 ^ 32 ≡ s.used_slot_count =
      omega (arith, v.counted) in
    let bits =
      set_back s.free_slot (λ w. clear_bit w pos) (λ w. set_bit w pos)
        (set_bit-clear_bit (get_or s.free_slot 0 0) pos small h on) in
    λ i. record { ptr = s.ptr; free_slot = bits i; used_slot_count = count i; slots = s.slots }

taken-take_slot :
    (s : SlotSet) (pos : ℕ)
    → IsValid s
    → pos < uint_bit_num
    → bit pos (get_or (take_slot s 0 pos).free_slot 0 0) ≡ false
taken-take_slot s pos v h =
    let word = get_or s.free_slot 0 0 in
    rw (get_or-set s.free_slot 0 0 (clear_bit word pos) 0 (omega (arith, v.width)))
      (bit-clear_bit word pos pos h h ∙ ground arith)

-- Giving back at once a slot that was just taken: in the first word of the bit map this restores
-- the set as it was, and in every later word the assertion of `slot_free` stops the program.
pub slot_free-take_slot :
    (s : SlotSet) (idx pos : ℕ)
    → IsValid s
    → idx < slot_map_len
    → pos < uint_bit_num
    → bit pos (get_or s.free_slot idx 0) ≡ true
    → slot_free (take_slot s idx pos) (idx * uint_bit_num + pos)
      ≡ (if idx == 0 then ok s else fault Fault.assertion)
slot_free-take_slot s zero pos v i h on =
    let same : 0 * uint_bit_num + pos ≡ pos = omega arith in
    ap (slot_free (take_slot s 0 pos)) same
    ∙ slot_free-first_word (take_slot s 0 pos) pos h
    ∙ rw (taken-take_slot s pos v h) (ap ok (released-take_slot s pos v h on))
slot_free-take_slot s (suc idx) pos v i h on = slot_free-beyond _ _ (omega arith) ∙ ground arith
