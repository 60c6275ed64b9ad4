-- ===== src/Slot/Words.antt =====
-- The bit map of one set: how many slots it leaves, and what the scan of its words finds.
use atrace.Prelude.{
  ℕ, zero, suc, ◌+◌, ◌-◌, ◌*◌, ◌^◌, ◌≤◌, ◌<◌, ◌≡◌, refl, ◌≢◌, ap, arith, true, List, [], ◌∷◌,
  length, get_or, set, drop, All, All-get_or, ℕ_discrete,
}
use atrace.Prelude.Bits.{bit}
use atrace.Prelude.Count.{popcount, popcount-zero, popcount-le, ffs, ffs_bounds, bit-ffs}
use atrace.Slot.{uint_bit_num, slot_map_len, WordScan, found, scan_words}

-- The ones in all the words: the free slots.
abbrev pub ones : List ℕ → ℕ
ones [] = 0
ones (w ∷ ws) = popcount 32 w + ones ws

pub ones-set :
    (ws : List ℕ) (i v : ℕ)
    → i < length ws
    → ones (set ws i v) + popcount 32 (get_or ws i 0) ≡ ones ws + popcount 32 v
ones-set [] i v h = elim h [ ]
ones-set (w ∷ ws) zero v h = omega arith
ones-set (w ∷ ws) (suc i) v h = omega (arith, ones-set ws i v (omega arith))

pub ones-le : (ws : List ℕ) → ones ws ≤ 32 * length ws
ones-le [] = omega arith
ones-le (w ∷ ws) = omega (arith, popcount-le 32 w, ones-le ws)

drop_next : (ws : List ℕ) (i : ℕ) → i < length ws → drop i ws ≡ get_or ws i 0 ∷ drop (suc i) ws
drop_next [] i h = elim h [ ]
drop_next (w ∷ ws) zero h = refl
drop_next (w ∷ ws) (suc i) h = drop_next ws i (omega arith)

ones-drop_beyond : (ws : List ℕ) (i : ℕ) → length ws ≤ i → ones (drop i ws) ≡ 0
ones-drop_beyond [] zero h = refl
ones-drop_beyond [] (suc i) h = refl
ones-drop_beyond (w ∷ ws) zero h = absurd (omega arith)
ones-drop_beyond (w ∷ ws) (suc i) h = ones-drop_beyond ws i (omega arith)

-- The scan stops at a free slot.
pub record Finds (free_slot : List ℕ) (scanned : WordScan) : Type 0 where
  pub idx : ℕ
  pub pos : ℕ
  pub is_found : scanned ≡ found idx pos
  pub idx_lt : idx < slot_map_len
  pub pos_lt : pos < uint_bit_num
  pub is_free : bit pos (get_or free_slot idx 0) ≡ true

Finds-here :
    (rounds idx : ℕ) (ws : List ℕ)
    → idx < slot_map_len
    → get_or ws idx 0 < 2 ^ 32
    → get_or ws idx 0 ≢ 0
    → Finds ws (scan_words (suc rounds) idx ws)
unfolding scan_words
Finds-here rounds idx ws h small ne =
    let word = get_or ws idx 0 in
    let bounds = ffs_bounds word small ne in
    record {
      idx = idx;
      pos = ffs word - 1;
      is_found = ground arith;
      idx_lt = h;
      pos_lt = omega arith;
      is_free = bit-ffs word (ffs word - 1) (omega arith);
    }

-- If a word from `idx` on has a free slot, then the scan from `idx` finds one.
pub scan_words-Finds :
    (rounds idx : ℕ) (ws : List ℕ)
    → rounds + idx ≡ slot_map_len
    → length ws ≡ slot_map_len
    → All (λ w. w < 2 ^ 32) ws
    → 0 < ones (drop idx ws)
    → Finds ws (scan_words rounds idx ws)
unfolding scan_words
scan_words-Finds zero idx ws e len small h = absurd (omega (arith, ones-drop_beyond ws idx))
scan_words-Finds (suc rounds) idx ws e len small h = elim (ℕ_discrete (get_or ws idx 0) 0) [
  | no ne ↦
      Finds-here rounds idx ws (omega arith)
        (All-get_or (λ w. w < 2 ^ 32) ws idx 0 (omega arith) small) ne
  | yes same ↦
      let rest : 0 < ones (drop (suc idx) ws) = omega (
        arith,
        ap ones (drop_next ws idx (omega arith)),
        ap (popcount 32) same,
        popcount-zero 32,
      ) in
      let later = scan_words-Finds rounds (suc idx) ws (omega arith) len small rest in
      record {
        idx = later.idx;
        pos = later.pos;
        is_found = ground arith;
        idx_lt = later.idx_lt;
        pos_lt = later.pos_lt;
        is_free = later.is_free;
      }
]
