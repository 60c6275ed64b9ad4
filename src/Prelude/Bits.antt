-- ===== src/Prelude/Bits.antt =====
-- Bits of native numbers, as the C operators `&`, `|`, `~` and `<<` see them.
use Prim.Native.Nat.{
  ℕ, zero, suc, ◌+◌, ◌-◌, ◌*◌, ◌/◌, ◌%◌, ◌^◌, ◌≤◌, ◌<◌, min, max, bit_and, bit_or, digits, bitwise,
  bit_and-bitwise, bit_or-bitwise,
}
use mathlib.Core.Path.{◌≡◌, refl, ap, ◌∙◌}
use mathlib.Core.Bool.{Bool, true, false, not, ◌&&◌, ◌||◌}
use native.Mathlib.Nat.{pow-suc, one-le-pow}
use native.Mathlib.Omega.{arith}
use atrace.Prelude.Tests.{◌==◌, ltb, if◌then◌else◌}

-- The native operations are a recursion on binary digits with fuel; here the fuel is dropped.
module _ (z : ℕ → ℕ) (f : ℕ → ℕ → ℕ) where
  digits_enough : (n m a b : ℕ) → a ≤ n → a ≤ m → digits z f n a b ≡ digits z f m a b
  digits_enough zero zero a b p q = refl
  digits_enough zero (suc m) zero b p q = refl
  digits_enough zero (suc m) (suc a) b p q = absurd (omega arith)
  digits_enough (suc n) zero zero b p q = refl
  digits_enough (suc n) zero (suc a) b p q = absurd (omega arith)
  digits_enough (suc n) (suc m) zero b p q = refl
  digits_enough (suc n) (suc m) (suc a) b p q =
      rw (digits_enough n m (suc a / 2) (b / 2) (omega arith) (omega arith))

  bitwise_lowest :
      (a b : ℕ)
      → bitwise z f (suc a) b ≡ bitwise z f (suc a / 2) (b / 2) * 2 + f (suc a % 2) (b % 2)
  bitwise_lowest a b =
      omega (arith, digits_enough a (suc a / 2) (suc a / 2) (b / 2) (omega arith) (omega arith))

pub bit_or_lowest : (a b : ℕ) → bit_or a b ≡ bit_or (a / 2) (b / 2) * 2 + max (a % 2) (b % 2)
bit_or_lowest zero b = simp bit_or-bitwise (omega arith)
bit_or_lowest (suc a) b = simp bit_or-bitwise (bitwise_lowest (λ y. y) max a b)

pub bit_and_lowest : (a b : ℕ) → bit_and a b ≡ bit_and (a / 2) (b / 2) * 2 + min (a % 2) (b % 2)
bit_and_lowest zero b = simp bit_and-bitwise (omega arith)
bit_and_lowest (suc a) b = simp bit_and-bitwise (bitwise_lowest (λ y. 0) min a b)

-- Bit `k` of a word.
abbrev pub bit : ℕ → ℕ → Bool
bit zero w = w % 2 == 1
bit (suc k) w = bit k (w / 2)

pub bit-bit_and : (k a b : ℕ) → bit k (bit_and a b) ≡ (bit k a && bit k b)
bit-bit_and zero a b = ground (arith, bit_and_lowest a b)
bit-bit_and (suc k) a b =
    ap (bit k) (omega (arith, bit_and_lowest a b)) ∙ bit-bit_and k (a / 2) (b / 2)

pub bit-bit_or : (k a b : ℕ) → bit k (bit_or a b) ≡ (bit k a || bit k b)
bit-bit_or zero a b = ground (arith, bit_or_lowest a b)
bit-bit_or (suc k) a b =
    ap (bit k) (omega (arith, bit_or_lowest a b)) ∙ bit-bit_or k (a / 2) (b / 2)

-- `x << k` on 32 bits.
abbrev pub shl32 : ℕ → ℕ → ℕ
shl32 x k = x * 2 ^ k % 2 ^ 32

-- `~x` on 32 bits.
abbrev pub not32 : ℕ → ℕ
not32 x = 2 ^ 32 - 1 - x

pub bit-zero : (k : ℕ) → bit k 0 ≡ false
bit-zero zero = refl
bit-zero (suc k) = bit-zero k

pub bit-two_pow : (k p : ℕ) → bit k (2 ^ p) ≡ (k == p)
bit-two_pow zero zero = refl
bit-two_pow zero (suc p) = ground (arith, pow-suc 2 p)
bit-two_pow (suc k) zero = bit-zero k ∙ ground arith
bit-two_pow (suc k) (suc p) =
    ap (bit k) (omega (arith, pow-suc 2 p)) ∙ bit-two_pow k p ∙ ground arith

two_pow-le : (p n : ℕ) → p < n → 2 ^ p < 2 ^ n
two_pow-le p zero h = elim h [ ]
two_pow-le zero (suc n) h = omega (arith, pow-suc 2 n, one-le-pow n 2)
two_pow-le (suc p) (suc n) h = omega (arith, pow-suc 2 n, pow-suc 2 p, two_pow-le p n (omega arith))

-- A mask of `n` ones.
bit-ones : (k n : ℕ) → bit k (2 ^ n - 1) ≡ ltb k n
bit-ones k zero = bit-zero k ∙ ground arith
bit-ones zero (suc n) = ground (arith, pow-suc 2 n, one-le-pow n 2)
bit-ones (suc k) (suc n) =
    ap (bit k) (omega (arith, pow-suc 2 n, one-le-pow n 2)) ∙ bit-ones k n ∙ ground arith

-- The complement of one bit, below 2 ^ n.
bit-complement :
    (k n p : ℕ) → p < n → bit k (2 ^ n - 1 - 2 ^ p) ≡ (if k == p then false else ltb k n)
bit-complement k zero p h = elim h [ ]
bit-complement zero (suc n) zero h = ground (arith, pow-suc 2 n, one-le-pow n 2)
bit-complement zero (suc n) (suc p) h =
    ground (arith, pow-suc 2 n, pow-suc 2 p, two_pow-le p n (omega arith))
bit-complement (suc k) (suc n) zero h =
    ap (bit k) (omega (arith, pow-suc 2 n, one-le-pow n 2)) ∙ bit-ones k n ∙ ground arith
bit-complement (suc k) (suc n) (suc p) h =
    ap (bit k) (omega (arith, pow-suc 2 n, pow-suc 2 p, two_pow-le p n (omega arith)))
    ∙ bit-complement k n p (omega arith)
    ∙ ground arith

-- `w & ~(0x1 << p)`, `w | (0x1 << p)` and the test `w & (0x1 << p)`, on an unsigned int.
abbrev pub clear_bit : ℕ → ℕ → ℕ
clear_bit w p = bit_and w (not32 (shl32 1 p))

abbrev pub set_bit : ℕ → ℕ → ℕ
set_bit w p = bit_or w (shl32 1 p)

abbrev pub test_bit : ℕ → ℕ → Bool
test_bit w p = not (bit_and w (shl32 1 p) == 0)

pub shl32-one : (p : ℕ) → p < 32 → shl32 1 p ≡ 2 ^ p
shl32-one p h = grind (arith, two_pow-le p 32 h)

pub bit-clear_bit :
    (w p k : ℕ) → p < 32 → k < 32 → bit k (clear_bit w p) ≡ (if k == p then false else bit k w)
bit-clear_bit w p k h j =
    bit-bit_and k w _
    ∙ ground (arith, bit-complement k 32 p h, ap (λ (t : ℕ). 2 ^ 32 - 1 - t) (shl32-one p h))

pub bit-set_bit : (w p k : ℕ) → p < 32 → bit k (set_bit w p) ≡ (if k == p then true else bit k w)
bit-set_bit w p k h = rw (shl32-one p h) (bit-bit_or k w (2 ^ p) ∙ ground (arith, bit-two_pow k p))

pub bit_and-lt : (n a b : ℕ) → a < 2 ^ n → bit_and a b < 2 ^ n
bit_and-lt zero zero b h = omega (arith, bit_and-bitwise 0 b)
bit_and-lt zero (suc a) b h = absurd (omega arith)
bit_and-lt (suc n) a b h =
    omega (arith, bit_and_lowest a b, pow-suc 2 n, bit_and-lt n (a / 2) (b / 2))

pub bit_or-lt : (n a b : ℕ) → a < 2 ^ n → b < 2 ^ n → bit_or a b < 2 ^ n
bit_or-lt zero zero zero h k = omega arith
bit_or-lt zero zero (suc b) h k = absurd (omega arith)
bit_or-lt zero (suc a) b h k = absurd (omega arith)
bit_or-lt (suc n) a b h k =
    omega (arith, bit_or_lowest a b, pow-suc 2 n, bit_or-lt n (a / 2) (b / 2))

bit_and-zero_below : (n a : ℕ) → a ≤ n → bit_and a 0 ≡ 0
bit_and-zero_below n zero h = omega (arith, bit_and-bitwise 0 0)
bit_and-zero_below zero (suc a) h = absurd (omega arith)
bit_and-zero_below (suc n) (suc a) h =
    omega (arith, bit_and_lowest (suc a) 0, bit_and-zero_below n (suc a / 2) (omega arith))

bit_and-two_pow : (p w : ℕ) → bit_and w (2 ^ p) ≡ (if bit p w then 2 ^ p else 0)
bit_and-two_pow zero w =
    ground (arith, bit_and_lowest w 1, bit_and-zero_below (w / 2) (w / 2) (omega arith))
bit_and-two_pow (suc p) w =
    let half : 2 ^ suc p / 2 ≡ 2 ^ p = omega (arith, pow-suc 2 p) in
    ground (
      arith,
      bit_and_lowest w (2 ^ suc p),
      ap (bit_and (w / 2)) half,
      pow-suc 2 p,
      bit_and-two_pow p (w / 2),
    )

-- The test `w & (0x1 << p)` reads one bit.
pub test_bit-bit : (w p : ℕ) → p < 32 → test_bit w p ≡ bit p w
test_bit-bit w p h =
    ground (arith, ap (bit_and w) (shl32-one p h), bit_and-two_pow p w, one-le-pow p 2)

-- Two words with the same bits are one.
pub eq_of_bits : (n a b : ℕ) → a < 2 ^ n → b < 2 ^ n → ((k : ℕ) → k < n → bit k a ≡ bit k b) → a ≡ b
eq_of_bits zero a b h j same = omega arith
eq_of_bits (suc n) a b h j same = ground (
  arith,
  pow-suc 2 n,
  same 0,
  eq_of_bits n (a / 2) (b / 2) (omega (arith, pow-suc 2 n)) (omega (arith, pow-suc 2 n))
      (λ k l. same (suc k) (omega arith)),
)

bit_or-zero_below : (n a : ℕ) → a ≤ n → bit_or a 0 ≡ a
bit_or-zero_below n zero h = omega (arith, bit_or-bitwise 0 0)
bit_or-zero_below zero (suc a) h = absurd (omega arith)
bit_or-zero_below (suc n) (suc a) h =
    omega (arith, bit_or_lowest (suc a) 0, bit_or-zero_below n (suc a / 2) (omega arith))

-- A field put into the bits that a shift has cleared.
pub bit_or-shifted : (k q r : ℕ) → r < 2 ^ k → bit_or (q * 2 ^ k) r ≡ q * 2 ^ k + r
bit_or-shifted zero q zero h =
    let same : q * 2 ^ 0 ≡ q = omega arith in
    omega (arith, ap (λ (t : ℕ). bit_or t 0) same, bit_or-zero_below q q (omega arith))
bit_or-shifted zero q (suc r) h = absurd (omega arith)
bit_or-shifted (suc k) q r h =
    let double : q * 2 ^ suc k ≡ 2 * (q * 2 ^ k) =
      omega (arith, ap (λ (t : ℕ). q * t) (pow-suc 2 k)) in
    let half : q * 2 ^ suc k / 2 ≡ q * 2 ^ k = omega arith in
    omega (
      arith,
      bit_or_lowest (q * 2 ^ suc k) r,
      ap (λ (t : ℕ). bit_or t (r / 2)) half,
      bit_or-shifted k q (r / 2) (omega (arith, pow-suc 2 k)),
    )

-- The lowest bits of a number.
abbrev pub low : ℕ → ℕ → ℕ
low zero x = 0
low (suc n) x = low n (x / 2) * 2 + x % 2

-- A mask of ones keeps the lowest bits.
pub bit_and-mask : (n x : ℕ) → bit_and x (2 ^ n - 1) ≡ low n x
bit_and-mask zero x = bit_and-zero_below x x (omega arith)
bit_and-mask (suc n) x =
    let half : (2 ^ suc n - 1) / 2 ≡ 2 ^ n - 1 = omega (arith, pow-suc 2 n, one-le-pow n 2) in
    let odd : (2 ^ suc n - 1) % 2 ≡ 1 = omega (arith, pow-suc 2 n, one-le-pow n 2) in
    omega (
      arith,
      bit_and_lowest x (2 ^ suc n - 1),
      ap (bit_and (x / 2)) half,
      bit_and-mask n (x / 2),
      odd,
    )

pub low-four : (x : ℕ) → low 4 x ≡ x % 2 ^ 4
low-four x = omega arith

pub low-nine : (x : ℕ) → low 9 x ≡ x % 2 ^ 9
low-nine x = omega arith

-- In three parts of nine bits.
low-add_nine :
    (n x : ℕ)
    → low (suc (suc (suc (suc (suc (suc (suc (suc (suc n))))))))) x
      ≡ low n (x / 2 ^ 9) * 2 ^ 9 + x % 2 ^ 9
low-add_nine n x =
    let parts : x / 2 / 2 / 2 / 2 / 2 / 2 / 2 / 2 / 2 ≡ x / 2 ^ 9 = omega arith in
    omega (arith, ap (low n) parts)

pub low-twenty_seven : (x : ℕ) → low 27 x ≡ x % 2 ^ 27
low-twenty_seven x =
    omega (arith, low-add_nine 18 x, low-add_nine 9 (x / 2 ^ 9), low-nine (x / 2 ^ 9 / 2 ^ 9))
