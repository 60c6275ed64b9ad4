-- ===== src/Breakpoint/Grown.antt =====
-- No slot set of signal_test/breakpoint.c is lost: what is found at an address before a call is found there after it.
use atrace.Prelude.{
  ℕ, zero, suc, ◌≡◌, refl, sym, subst, ◌∙◌, inl, inr, arith, Bool, true, false, Option, none, some,
  List, [], ◌∷◌, ◌==◌, Bool-cases, ◌-◌, ◌+◌, ◌*◌, ok, fault, Fault, ◌>>=◌, bind-eq-ok, ok_inj,
}
use atrace.Linux.{ListOps}
use atrace.Slot.{
  SlotSet, PageSource, Allocation, WordScan, found, behind, behind_set, take_slot, scan_words,
  scan_sets, slot_set_add, slot_alloc, slot_map_len, slot_num, slot_page_size, uint_bit_num,
  new_set,
}
use atrace.Breakpoint.{put_set, find_set}
use atrace.Breakpoint.Consistent.{Grows}

-- A set in front hides none but one at its own address.
Grows-cons :
    (x y : SlotSet) (sets sets' : List SlotSet)
    → y.ptr ≡ x.ptr
    → Grows sets sets'
    → Grows (x ∷ sets) (y ∷ sets')
unfolding find_set
Grows-cons x y sets sets' same g q s h = elim (Bool-cases (x.ptr == q)) [
  | inl here ↦ let at : (y.ptr == q) ≡ true = ground arith in (y, rw (find_set, at) refl)
  | inr there ↦
      let apart : (y.ptr == q) ≡ false = ground arith in
      let (s', e) = g q s (ground arith) in (s', rw (find_set, apart) e)
]

Grows-new : (x : SlotSet) (sets : List SlotSet) → Grows sets (x ∷ sets)
unfolding find_set
Grows-new x sets q s h = elim (Bool-cases (x.ptr == q)) [
  | inl here ↦ (x, rw (find_set, here) refl)
  | inr there ↦ (s, rw (find_set, there) h)
]

Grows-refl : (sets : List SlotSet) → Grows sets sets
Grows-refl sets q s h = (s, h)

pub Grows-put_set : (s : SlotSet) (sets : List SlotSet) → Grows sets (put_set s sets)
Grows-put_set s [] = Grows-refl []
Grows-put_set s (x ∷ sets) = elim (Bool-cases (x.ptr == s.ptr)) [
  | inl here ↦ rw here (Grows-cons x s sets sets (ground arith) (Grows-refl sets))
  | inr there ↦ rw there (Grows-cons x x sets (put_set s sets) refl (Grows-put_set s sets))
]

-- An allocation loses no set, and its slot is in one of them.
pub record Kept (sets : List SlotSet) (a : Allocation) : Type 0 where
  pub grows : Grows sets a.sets
  pub holds : (s : SlotSet) × (find_set a.slot.ptr a.sets ≡ ok s)

Kept-behind_set :
    (curr : SlotSet) (rest : List SlotSet) (o : Option Allocation) (a : Allocation)
    → ((b : Allocation) → o ≡ some b → Kept rest b)
    → behind_set curr o ≡ some a
    → Kept (curr ∷ rest) a
Kept-behind_set curr rest none a k h = absurd (ground arith)
Kept-behind_set curr rest (some b) a k h =
    let kept = k b refl in
    let same : record b { sets = curr ∷ b.sets } ≡ a = ground arith in
    subst (Kept (curr ∷ rest)) same (record {
      grows = Grows-cons curr curr rest b.sets refl kept.grows;
      holds = Grows-new curr b.sets b.slot.ptr kept.holds.0 kept.holds.1;
    })

Kept-take_slot :
    (curr : SlotSet) (rest : List SlotSet) (i pos : ℕ)
    → Kept (curr ∷ rest) (record {
      sets = take_slot curr i pos ∷ rest;
      slot = take_slot curr i pos;
      index = i * uint_bit_num + pos;
    })
unfolding find_set
Kept-take_slot curr rest i pos = record {
  grows = Grows-cons curr (take_slot curr i pos) rest rest refl (Grows-refl rest);
  holds = (take_slot curr i pos, ground arith);
}

scan_sets-Kept :
    (idx : ℕ) (sets : List SlotSet) (a : Allocation) → scan_sets idx sets ≡ some a → Kept sets a
unfolding scan_sets
scan_sets-Kept idx [] a h = absurd (ground arith)
scan_sets-Kept idx (curr ∷ rest) a h =
    go (curr.used_slot_count == slot_num) (scan_words (slot_map_len - idx) idx curr.free_slot)
      (λ i b. scan_sets-Kept i rest b) h
  where
    go :
        (full : Bool) (scanned : WordScan)
        → ((i : ℕ) (b : Allocation) → scan_sets i rest ≡ some b → Kept rest b)
        → (elim full [
          | true ↦ behind_set curr (scan_sets idx rest)
          | false ↦ elim scanned [
            | behind idx' ↦ behind_set curr (scan_sets idx' rest)
            | found i pos ↦ some (record {
              sets = take_slot curr i pos ∷ rest;
              slot = take_slot curr i pos;
              index = i * uint_bit_num + pos;
            })
          ]
        ])
          ≡ some a
        → Kept (curr ∷ rest) a
    go true scanned next k = Kept-behind_set curr rest (scan_sets idx rest) a (next idx) k
    go false (behind idx') next k = Kept-behind_set curr rest (scan_sets idx' rest) a (next idx') k
    go false (found i pos) next k =
        subst (Kept (curr ∷ rest)) (ground arith) (Kept-take_slot curr rest i pos)

module _ (lists : ListOps SlotSet) (source : PageSource) where
  slot_set_add-Grows :
      (count : ℕ) (sets more : List SlotSet)
      → slot_set_add lists source count sets ≡ ok more
      → Grows sets more
  unfolding slot_set_add
  slot_set_add-Grows count sets more h =
      go (source.calloc count) (source.mmap count slot_page_size) h
    where
      go :
          (o p : Option ℕ)
          → (elim o [
            | none ↦ fault Fault.aborted
            | some q ↦ elim p [
              | none ↦ fault Fault.aborted
              | some map_ptr ↦ ok (lists.list_add (new_set q map_ptr) sets)
            ]
          ])
            ≡ ok more
          → Grows sets more
      go none p k = absurd (ground arith)
      go (some q) none k = absurd (ground arith)
      go (some q) (some base) k =
          subst (Grows sets) (sym (lists.list_add_lem (new_set q base) sets) ∙ ok_inj k)
            (Grows-new (new_set q base) sets)

  pub slot_alloc-Kept :
      (fuel count : ℕ) (sets : List SlotSet) (a : Allocation)
      → slot_alloc lists source fuel count sets ≡ ok a
      → Kept sets a
  unfolding slot_alloc
  slot_alloc-Kept zero count sets a h = absurd (ground arith)
  slot_alloc-Kept (suc fuel) count sets a h =
      go (scan_sets 0 sets) (λ b. scan_sets-Kept 0 sets b)
        (λ more. slot_alloc-Kept fuel (suc count) more a) h
    where
      go :
          (o : Option Allocation)
          → ((b : Allocation) → o ≡ some b → Kept sets b)
          → ((more : List SlotSet)
              → slot_alloc lists source fuel (suc count) more ≡ ok a
              → Kept more a)
          → (elim o [
            | some b ↦ ok b
            | none ↦ slot_set_add lists source count sets >>= λ more.
                slot_alloc lists source fuel (suc count) more
          ])
            ≡ ok a
          → Kept sets a
      go (some b) room next k = subst (Kept sets) (ok_inj k) (room b refl)
      go none room next k =
          let (more, e, l) = bind-eq-ok (slot_set_add lists source count sets) _ k in
          let kept = next more l in
          record {
            grows = λ q s f.
                let (s', f') = slot_set_add-Grows count sets more e q s f in kept.grows q s' f';
            holds = kept.holds;
          }
