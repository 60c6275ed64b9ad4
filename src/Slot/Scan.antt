-- ===== src/Slot/Scan.antt =====
-- The search for a free slot in the sets.
use atrace.Prelude.{
  ℕ, ◌+◌, ◌*◌, ◌<◌, ◌≡◌, refl, ◌≢◌, ◌⊎◌, inl, inr, ap, ◌∙◌, arith, Bool, true, false, none, some,
  List, [], ◌∷◌, ◌++◌, ◌==◌, if◌then◌else◌, get_or, All, ℕ_discrete,
}
use atrace.Prelude.Bits.{bit}
use atrace.Slot.{
  SlotSet, uint_bit_num, slot_num, slot_map_len, behind_set, found, scan_words, Allocation,
  take_slot, scan_sets,
}
use atrace.Slot.Words.{Finds, scan_words-Finds}
use atrace.Slot.Valid.{IsValid, is_free}

-- No two sets are at one address.
abbrev pub Distinct : List SlotSet → Type 0
Distinct [] = Unit
Distinct (s ∷ sets) = All (λ t. t.ptr ≢ s.ptr) sets × Distinct sets

pub record IsPool (sets : List SlotSet) : Type 0 where
  pub valid : All IsValid sets
  pub distinct : Distinct sets

-- The slot at index `j` of the set at address `q` is there and free.
abbrev pub free_at : List SlotSet → ℕ → ℕ → Bool
free_at [] q j = false
free_at (s ∷ sets) q j = if s.ptr == q then is_free s j else free_at sets q j

abbrev pub IsFull : SlotSet → Type 0
IsFull s = s.used_slot_count ≡ slot_num

-- The choice of a free slot in a list of sets: the first set that is not full.
pub record Chooses (sets : List SlotSet) (a : Allocation) : Type 0 where
  pub before : List SlotSet
  pub curr : SlotSet
  pub after : List SlotSet
  pub idx : ℕ
  pub pos : ℕ
  pub split : sets ≡ before ++ (curr ∷ after)
  pub sets_after : a.sets ≡ before ++ (take_slot curr idx pos ∷ after)
  pub slot_is : a.slot ≡ take_slot curr idx pos
  pub index_is : a.index ≡ idx * uint_bit_num + pos
  pub idx_lt : idx < slot_map_len
  pub pos_lt : pos < uint_bit_num
  pub free : bit pos (get_or curr.free_slot idx 0) ≡ true

abbrev pub chosen : SlotSet → List SlotSet → ℕ → ℕ → Allocation
chosen curr rest idx pos = record {
  sets = take_slot curr idx pos ∷ rest;
  slot = take_slot curr idx pos;
  index = idx * uint_bit_num + pos;
}

pub scan_sets-found :
    (curr : SlotSet) (rest : List SlotSet) (idx pos : ℕ)
    → curr.used_slot_count ≢ slot_num
    → scan_words slot_map_len 0 curr.free_slot ≡ found idx pos
    → scan_sets 0 (curr ∷ rest) ≡ some (chosen curr rest idx pos)
unfolding scan_sets
scan_sets-found curr rest idx pos room e = ground arith

pub scan_sets-full :
    (curr : SlotSet) (rest : List SlotSet)
    → IsFull curr
    → scan_sets 0 (curr ∷ rest) ≡ behind_set curr (scan_sets 0 rest)
unfolding scan_sets
scan_sets-full curr rest full = ground arith

pub Chooses-found :
    (curr : SlotSet) (rest : List SlotSet)
    → IsValid curr
    → curr.used_slot_count ≢ slot_num
    → Finds curr.free_slot (scan_words slot_map_len 0 curr.free_slot)
    → (a : Allocation) × (scan_sets 0 (curr ∷ rest) ≡ some a) × Chooses (curr ∷ rest) a
Chooses-found curr rest v room f = (
  chosen curr rest f.idx f.pos,
  scan_sets-found curr rest f.idx f.pos room f.is_found,
  record {
    before = [];
    curr = curr;
    after = rest;
    idx = f.idx;
    pos = f.pos;
    split = refl;
    sets_after = refl;
    slot_is = refl;
    index_is = refl;
    idx_lt = f.idx_lt;
    pos_lt = f.pos_lt;
    free = f.is_free;
  },
)

pub Chooses-behind :
    (curr : SlotSet) (rest : List SlotSet) (a : Allocation)
    → Chooses rest a
    → Chooses (curr ∷ rest) (record a { sets = curr ∷ a.sets })
Chooses-behind curr rest a c = record {
  before = curr ∷ c.before;
  curr = c.curr;
  after = c.after;
  idx = c.idx;
  pos = c.pos;
  split = ap (◌∷◌ curr) c.split;
  sets_after = ap (◌∷◌ curr) c.sets_after;
  slot_is = c.slot_is;
  index_is = c.index_is;
  idx_lt = c.idx_lt;
  pos_lt = c.pos_lt;
  free = c.free;
}

-- The loop over valid sets chooses a slot, or all of them are full.
pub scan_sets-Chooses :
    (sets : List SlotSet)
    → All IsValid sets
    → ((scan_sets 0 sets ≡ none) × All IsFull sets)
      ⊎ ((a : Allocation) × (scan_sets 0 sets ≡ some a) × Chooses sets a)
scan_sets-Chooses [] v = inl (unfold scan_sets in refl, tt)
scan_sets-Chooses (curr ∷ rest) v = elim (ℕ_discrete curr.used_slot_count slot_num) [
  | no room ↦ inr (
      Chooses-found curr rest v.0 room (
        scan_words-Finds slot_map_len 0 curr.free_slot (omega arith) v.0.width v.0.words
          (omega (arith, v.0.counted))))
  | yes full ↦ elim (scan_sets-Chooses rest v.1) [
    | inl (nothing, all_full) ↦
        inl (scan_sets-full curr rest full ∙ ap (behind_set curr) nothing, (full, all_full))
    | inr (a, some_a, c) ↦ inr (
      record a { sets = curr ∷ a.sets },
      scan_sets-full curr rest full ∙ ap (behind_set curr) some_a,
      Chooses-behind curr rest a c,
    )
  ]
]
