-- ===== src/Breakpoint/Undo.antt =====
-- What enabling a breakpoint of signal_test/breakpoint.c stores, and what takes it back: a flag, a word and a list element.
use atrace.Prelude.{
  ℕ, zero, suc, ◌^◌, ◌<◌, ◌≡◌, refl, sym, ap, fun_ext, ◌∙◌, inl, inr, arith, true, false, List, [],
  ◌∷◌, ◌==◌, if◌then◌else◌, Bool-cases, set, ok,
}
use atrace.Prelude.Bits.{
  bit, test_bit, test_bit-bit, eq_of_bits, clear_bit, set_bit, bit-set_bit, bit-clear_bit,
  bit_or-lt, bit_and-lt,
}
use atrace.Breakpoint.{Breakpoint, deref, write}

pub off_again :
    (attr : ℕ) → attr < 2 ^ 32 → test_bit attr 0 ≡ false → clear_bit (set_bit attr 0) 0 ≡ attr
off_again attr lt off =
    eq_of_bits 32 (clear_bit (set_bit attr 0) 0) attr
      (bit_and-lt 32 (set_bit attr 0) 4294967294 (bit_or-lt 32 attr 1 lt (omega arith))) lt
      (λ k small.
        bit-clear_bit (set_bit attr 0) 0 k (omega arith) small
        ∙ same k (bit-set_bit attr 0 k (omega arith)))
  where
    same :
        (k : ℕ)
        → bit k (set_bit attr 0) ≡ (if k == 0 then true else bit k attr)
        → (if k == 0 then false else bit k (set_bit attr 0)) ≡ bit k attr
    same zero e = sym off ∙ test_bit-bit attr 0 (omega arith)
    same (suc k) e = ground arith

pub write-write :
    (a v u : ℕ) (memory : ℕ → ℕ) → memory a ≡ u → write a u (write a v memory) ≡ memory
write-write a v u memory e = fun_ext (λ b. at b)
  where
    at : (b : ℕ) → write a u (write a v memory) b ≡ memory b
    at b = elim (Bool-cases (a == b)) [
      | inl here ↦ let eq : a ≡ b = ground arith in rw here (sym e ∙ ap memory eq)
      | inr there ↦ rw there refl
    ]

pub set-back :
    (xs : List Breakpoint) (p : ℕ) (x y : Breakpoint)
    → deref xs p ≡ ok x
    → set (set xs p y) p x ≡ xs
set-back [] p x y h = refl
set-back (z ∷ xs) zero x y h = ground arith
set-back (z ∷ xs) (suc p) x y h = ap (λ ys. z ∷ ys) (set-back xs p x y h)
