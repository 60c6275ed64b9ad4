-- ===== src/Breakpoint/PutSet.antt =====
-- The list of slot sets of signal_test/breakpoint.c: a set that is stored in place, and a new one.
use atrace.Prelude.{
  ℕ, ◌<◌, ◌≡◌, refl, ◌≢◌, inl, inr, ap, subst, ◌∙◌, arith, false, some, List, [], ◌∷◌, ◌==◌,
  Bool-cases, All, ok,
}
use atrace.Slot.{SlotSet, PageSource}
use atrace.Slot.Valid.{is_free}
use atrace.Slot.Scan.{Distinct, free_at}
use atrace.Breakpoint.{put_set, find_set}
use atrace.Breakpoint.Slots.{ptrs}

pub All-put_set :
    (P : SlotSet → Type 0) (s : SlotSet) (sets : List SlotSet)
    → P s
    → All P sets
    → All P (put_set s sets)
All-put_set P s [] p a = tt
All-put_set P s (x ∷ xs) p a = elim (Bool-cases (x.ptr == s.ptr)) [
  | inl here ↦ rw here (p, a.1)
  | inr there ↦ rw there (a.0, All-put_set P s xs p a.1)
]

pub Distinct-put_set :
    (s : SlotSet) (sets : List SlotSet) → Distinct sets → Distinct (put_set s sets)
Distinct-put_set s [] d = tt
Distinct-put_set s (x ∷ xs) d = elim (Bool-cases (x.ptr == s.ptr)) [
  | inl here ↦
      let same : x.ptr ≡ s.ptr = ground arith in
      rw here (subst (λ (q : ℕ). All (λ t. t.ptr ≢ q) xs) same d.0, d.1)
  | inr there ↦
      rw there
        (All-put_set (λ t. t.ptr ≢ x.ptr) s xs (λ e. ground arith) d.0, Distinct-put_set s xs d.1)
]

pub ptrs-put_set : (s : SlotSet) (sets : List SlotSet) → ptrs (put_set s sets) ≡ ptrs sets
ptrs-put_set s [] = refl
ptrs-put_set s (x ∷ xs) = elim (Bool-cases (x.ptr == s.ptr)) [
  | inl here ↦ let same : s.ptr ≡ x.ptr = ground arith in rw here (ap (λ (q : ℕ). q ∷ ptrs xs) same)
  | inr there ↦ rw there (ap (λ qs. x.ptr ∷ qs) (ptrs-put_set s xs))
]

pub free_at-put_set :
    (s : SlotSet) (sets : List SlotSet) (q j : ℕ)
    → free_at sets q j ≡ false
    → (s.ptr ≡ q → is_free s j ≡ false)
    → free_at (put_set s sets) q j ≡ false
free_at-put_set s [] q j f g = refl
free_at-put_set s (x ∷ xs) q j f g = ground (arith, free_at-put_set s xs q j)

-- A set that is found is not at an address that no set has.
pub found-absent :
    (q : ℕ) (s : SlotSet) (sets : List SlotSet) → All (λ x. x.ptr ≢ q) sets → find_set q sets ≢ ok s
unfolding find_set
found-absent q s [] a = ground arith
found-absent q s (x ∷ xs) a = ground (arith, found-absent q s xs a.1)

-- What the system gives is at an address that no set has.
pub fresh_ptrs :
    (source : PageSource) (n q : ℕ) (sets : List SlotSet)
    → ((i j r : ℕ) → source.calloc i ≡ some r → source.calloc j ≡ some r → i ≡ j)
    → All (λ r. (k : ℕ) × (k < n) × (source.calloc k ≡ some r)) (ptrs sets)
    → source.calloc n ≡ some q
    → All (λ x. x.ptr ≢ q) sets
fresh_ptrs source n q [] once given new = tt
fresh_ptrs source n q (x ∷ xs) once given new =
    let (k, lt, e) = given.0 in
    (
      λ same. omega (arith, once k n q (e ∙ ap some same) new),
      fresh_ptrs source n q xs once given.1 new,
    )
