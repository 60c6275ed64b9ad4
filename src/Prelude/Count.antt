-- ===== src/Prelude/Count.antt =====
-- The number of ones in a word, and `__builtin_ffs`.
use Prim.Native.Nat.{ℕ, zero, suc, ◌+◌, ◌-◌, ◌/◌, ◌%◌, ◌^◌, ◌≤◌, ◌<◌}
use mathlib.Core.Path.{◌≡◌, refl, ◌∙◌}
use mathlib.Core.Bool.{true, false}
use mathlib.Core.Logic.{◌≢◌}
use native.Mathlib.Nat.{pow-suc}
use native.Mathlib.Omega.{arith}
use atrace.Prelude.Tests.{◌==◌, if◌then◌else◌}
use atrace.Prelude.Bits.{bit}

-- The ones among the lowest `n` bits.
unfoldable pub popcount : ℕ → ℕ → ℕ
popcount zero w = 0
popcount (suc n) w = w % 2 + popcount n (w / 2)

pub popcount-le : (n w : ℕ) → popcount n w ≤ n
unfolding popcount
popcount-le zero w = omega arith
popcount-le (suc n) w = omega (arith, popcount-le n (w / 2))

pub popcount-zero : (n : ℕ) → popcount n 0 ≡ 0
unfolding popcount
popcount-zero zero = refl
popcount-zero (suc n) = omega (arith, popcount-zero n)

pub popcount_full : popcount 32 (2 ^ 32 - 1) ≡ 32
unfolding popcount
popcount_full = refl

popcount_congr : (n w v : ℕ) → ((k : ℕ) → k < n → bit k w ≡ bit k v) → popcount n w ≡ popcount n v
unfolding popcount
popcount_congr zero w v h = refl
popcount_congr (suc n) w v h =
    ground (arith, h 0, popcount_congr n (w / 2) (v / 2) (λ k l. h (suc k) (omega arith)))

-- Two words that differ in one bit.
pub popcount_flip :
    (n p w v : ℕ)
    → p < n
    → bit p w ≡ true
    → ((k : ℕ) → k < n → bit k v ≡ (if k == p then false else bit k w))
    → popcount n v + 1 ≡ popcount n w
unfolding popcount
popcount_flip zero p w v l b h = elim l [ ]
popcount_flip (suc n) zero w v l b h =
    ground
      (arith, h 0, popcount_congr n (v / 2) (w / 2) (λ k l. h (suc k) (omega arith) ∙ ground arith))
popcount_flip (suc n) (suc p) w v l b h = ground (
  arith,
  h 0,
  popcount_flip n p (w / 2) (v / 2) (omega arith) b (λ k l. h (suc k) (omega arith) ∙ ground arith),
)

-- One plus the index of the lowest one among `n` bits, or 0.
pub ffs_below : ℕ → ℕ → ℕ
ffs_below zero w = 0
ffs_below (suc n) w =
    let rest = ffs_below n (w / 2) in if w % 2 == 1 then 1 else if rest == 0 then 0 else rest + 1

-- `__builtin_ffs` on an unsigned int.
unfoldable pub ffs : ℕ → ℕ
unfolding ffs_below
ffs w = ffs_below 32 w

ffs_below-le : (n w : ℕ) → ffs_below n w ≤ n
unfolding ffs_below
ffs_below-le zero w = omega arith
ffs_below-le (suc n) w = ground (arith, ffs_below-le n (w / 2))

ffs_below_pos : (n w : ℕ) → w < 2 ^ n → w ≢ 0 → 0 < ffs_below n w
unfolding ffs_below
ffs_below_pos zero w h ne = absurd (ne (omega arith))
ffs_below_pos (suc n) w h ne = ground (arith, pow-suc 2 n, ffs_below_pos n (w / 2))

bit-ffs_below : (n w p : ℕ) → ffs_below n w ≡ suc p → bit p w ≡ true
unfolding ffs_below
bit-ffs_below zero w p e = cc
bit-ffs_below (suc n) w zero e = ground arith
bit-ffs_below (suc n) w (suc p) e = ground (arith, bit-ffs_below n (w / 2) p)

-- A word that is not 0 has a lowest one, below bit 32.
pub ffs_bounds : (w : ℕ) → w < 2 ^ 32 → w ≢ 0 → (0 < ffs w) × (ffs w ≤ 32)
unfolding ffs
ffs_bounds w h ne = (ffs_below_pos 32 w h ne, ffs_below-le 32 w)

pub bit-ffs : (w p : ℕ) → ffs w ≡ suc p → bit p w ≡ true
unfolding ffs
bit-ffs w p = bit-ffs_below 32 w p
