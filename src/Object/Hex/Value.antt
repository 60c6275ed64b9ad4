-- ===== src/Object/Hex/Value.antt =====
-- What `hex_to_int` computes.
use atrace.Prelude.{
  ℕ, suc, ◌+◌, ◌-◌, ◌*◌, ◌/◌, ◌%◌, ◌^◌, ◌≤◌, ◌<◌, ◌≡◌, ◌⊎◌, inl, inr, ap, subst, false, ◌∙◌, arith,
  some, [], ◌∷◌, ltb, if◌then◌else◌, length, bit_or, ok, All,
}
use atrace.Prelude.Bits.{bit_or-shifted}
use native.Mathlib.Nat.{pow-suc, one-le-pow}
use atrace.Object.{Text}
use atrace.Object.Hex.{value, error, digit_of, hex_loop, hex_to_int}

-- The digit that stands for a number below 16, from `a` or from `A` on behind 9.
abbrev pub hex_digit : ℕ → ℕ → ℕ
hex_digit letter d = if ltb d 10 then b'0' + d else letter + (d - 10)

-- A hexadecimal digit of either case, with its value.
abbrev pub IsHex : ℕ → Type 0
IsHex c = (d : ℕ) × (d < 16) × ((c ≡ hex_digit b'a' d) ⊎ (c ≡ hex_digit b'A' d))

-- The number that digits stand for, behind those already read.
abbrev pub hex_from : ℕ → (ds : Text) → All IsHex ds → ℕ
hex_from n [] h = n
hex_from n (c ∷ cs) h = hex_from (n * 16 + h.0.0) cs h.1

digit_of-IsHex : (c : ℕ) (h : IsHex c) → digit_of c ≡ some h.0
unfolding digit_of
digit_of-IsHex c (d, lt, inl lower) = ground arith
digit_of-IsHex c (d, lt, inr upper) = ground arith

bit_or_nibble : (a d : ℕ) → d < 16 → bit_or (a * 16) d ≡ a * 16 + d
bit_or_nibble a d h = bit_or-shifted 4 a d h

hex_step :
    (acc n d : ℕ)
    → d < 16
    → acc ≡ n % 2 ^ 64
    → bit_or (acc * 2 ^ 4 % 2 ^ 64) d ≡ (n * 16 + d) % 2 ^ 64
hex_step acc n d h e =
    let even : acc * 2 ^ 4 % 2 ^ 64 ≡ (acc * 2 ^ 4 % 2 ^ 64) / 16 * 16 = omega arith in
    omega (arith, ap (λ (t : ℕ). bit_or t d) even, bit_or_nibble ((acc * 2 ^ 4 % 2 ^ 64) / 16) d h)

hex_loop-hex_from :
    (acc n : ℕ) (ds : Text) (h : All IsHex ds)
    → acc ≡ n % 2 ^ 64
    → hex_loop acc ds ≡ value (hex_from n ds h % 2 ^ 64)
unfolding hex_loop
hex_loop-hex_from acc n [] h e = ap value e
hex_loop-hex_from acc n (c ∷ cs) h e =
    let d = h.0.0 in
    rw (hex_loop, digit_of-IsHex c h.0)
      (hex_loop-hex_from (bit_or (acc * 2 ^ 4 % 2 ^ 64) d) (n * 16 + d) cs h.1
        (hex_step acc n d h.0.1 e))

-- On a string of one or more hexadecimal digits, 0 to 9 and a to f in either case, hex_to_int gives the number
-- that they stand for, reduced to 64 bits, if there are at most 17 of them, and the error 1 if there are more.
pub hex_to_int-hex_from :
    (c : ℕ) (cs : Text) (h : All IsHex (c ∷ cs))
    → hex_to_int (c ∷ cs)
      ≡ ok (if ltb 17 (length (c ∷ cs)) then error 1 else value (hex_from 0 (c ∷ cs) h % 2 ^ 64))
unfolding hex_to_int
hex_to_int-hex_from c cs h =
    let loop = hex_loop-hex_from 0 0 (c ∷ cs) h (omega arith) in ground (arith, loop)

hex_from-lt :
    (n k bound : ℕ) (ds : Text) (h : All IsHex ds)
    → n < 16 ^ k
    → k + length ds ≡ bound
    → hex_from n ds h < 16 ^ bound
hex_from-lt n k bound [] h lt e = subst (λ (t : ℕ). n < 16 ^ t) (omega arith) lt
hex_from-lt n k bound (c ∷ cs) h lt e =
    hex_from-lt (n * 16 + h.0.0) (suc k) bound cs h.1 (omega (arith, pow-suc 16 k, h.0.1))
      (omega arith)

-- Up to 16 digits stand for a number of 64 bits, so that `hex_to_int` gives it with no reduction.
pub hex_to_int_exact :
    (c : ℕ) (cs : Text) (h : All IsHex (c ∷ cs))
    → length (c ∷ cs) ≤ 16
    → hex_to_int (c ∷ cs) ≡ ok (value (hex_from 0 (c ∷ cs) h))
hex_to_int_exact c cs h short =
    let small =
      hex_from-lt 0 (16 - length (c ∷ cs)) 16 (c ∷ cs) h
        (one-le-pow (16 - length (c ∷ cs)) 16 (omega arith)) (omega arith) in
    let same : hex_from 0 (c ∷ cs) h % 2 ^ 64 ≡ hex_from 0 (c ∷ cs) h = omega arith in
    let few : ltb 17 (length (c ∷ cs)) ≡ false = ground arith in
    hex_to_int-hex_from c cs h ∙ rw (few, same)
