-- ===== src/Tracer/Bytes.antt =====
-- The words that ptrace moves, and what the break instruction does to one.
use atrace.Prelude.{
  ℕ, zero, suc, ◌+◌, ◌-◌, ◌*◌, ◌/◌, ◌%◌, ◌^◌, ◌≤◌, ◌<◌, ◌≡◌, refl, ap, ◌∙◌, arith, ◌==◌, Bool-cases,
  inl, inr, dec_lt, bit_and, ok,
}
use native.Mathlib.Nat.{pow-suc}
use atrace.Prelude.Bits.{bit_and_lowest, bit_and-mask, low, bit_or-shifted}
use atrace.Tracer.{arch_make_breakpoint, arch_remove_breakpoint, word, write_word}

-- Memory of bytes.
abbrev pub IsBytes : (ℕ → ℕ) → Type 0
IsBytes memory = (a : ℕ) → memory a < 256

low-small : (n x : ℕ) → x < 2 ^ n → low n x ≡ x
low-small zero x h = omega arith
low-small (suc n) x h = omega (arith, low-small n (x / 2) (omega (arith, pow-suc 2 n)), pow-suc 2 n)

bit_and-double : (x y : ℕ) → bit_and x (y * 2) ≡ bit_and (x / 2) y * 2
bit_and-double x y =
    let half : y * 2 / 2 ≡ y = omega arith in
    omega (arith, bit_and_lowest x (y * 2), ap (bit_and (x / 2)) half)

-- The mask keeps what is above the lowest byte.
high_mask : (x : ℕ) → x < 2 ^ 64 → bit_and x (2 ^ 64 - 256) ≡ x / 256 * 256
high_mask x h =
    let s0 : bit_and x 0xFFFFFFFFFFFFFF00 ≡ bit_and (x / 2) 0x7FFFFFFFFFFFFF80 * 2 =
      bit_and-double x 0x7FFFFFFFFFFFFF80 in
    let s1 : bit_and (x / 2) 0x7FFFFFFFFFFFFF80 ≡ bit_and (x / 2 / 2) 0x3FFFFFFFFFFFFFC0 * 2 =
      bit_and-double (x / 2) 0x3FFFFFFFFFFFFFC0 in
    let s2 : bit_and (x / 2 / 2) 0x3FFFFFFFFFFFFFC0
        ≡ bit_and (x / 2 / 2 / 2) 0x1FFFFFFFFFFFFFE0 * 2 =
      bit_and-double (x / 2 / 2) 0x1FFFFFFFFFFFFFE0 in
    let s3 : bit_and (x / 2 / 2 / 2) 0x1FFFFFFFFFFFFFE0
        ≡ bit_and (x / 2 / 2 / 2 / 2) 0xFFFFFFFFFFFFFF0 * 2 =
      bit_and-double (x / 2 / 2 / 2) 0xFFFFFFFFFFFFFF0 in
    let s4 : bit_and (x / 2 / 2 / 2 / 2) 0xFFFFFFFFFFFFFF0
        ≡ bit_and (x / 2 / 2 / 2 / 2 / 2) 0x7FFFFFFFFFFFFF8 * 2 =
      bit_and-double (x / 2 / 2 / 2 / 2) 0x7FFFFFFFFFFFFF8 in
    let s5 : bit_and (x / 2 / 2 / 2 / 2 / 2) 0x7FFFFFFFFFFFFF8
        ≡ bit_and (x / 2 / 2 / 2 / 2 / 2 / 2) 0x3FFFFFFFFFFFFFC * 2 =
      bit_and-double (x / 2 / 2 / 2 / 2 / 2) 0x3FFFFFFFFFFFFFC in
    let s6 : bit_and (x / 2 / 2 / 2 / 2 / 2 / 2) 0x3FFFFFFFFFFFFFC
        ≡ bit_and (x / 2 / 2 / 2 / 2 / 2 / 2 / 2) 0x1FFFFFFFFFFFFFE * 2 =
      bit_and-double (x / 2 / 2 / 2 / 2 / 2 / 2) 0x1FFFFFFFFFFFFFE in
    let s7 : bit_and (x / 2 / 2 / 2 / 2 / 2 / 2 / 2) 0x1FFFFFFFFFFFFFE
        ≡ bit_and (x / 2 / 2 / 2 / 2 / 2 / 2 / 2 / 2) 0xFFFFFFFFFFFFFF * 2 =
      bit_and-double (x / 2 / 2 / 2 / 2 / 2 / 2 / 2) 0xFFFFFFFFFFFFFF in
    let top = bit_and-mask 56 (x / 2 / 2 / 2 / 2 / 2 / 2 / 2 / 2) in
    let all = low-small 56 (x / 2 / 2 / 2 / 2 / 2 / 2 / 2 / 2) (omega arith) in
    omega (arith, s0, s1, s2, s3, s4, s5, s6, s7, top, all)

low_byte : (x : ℕ) → bit_and x 0xFF ≡ x % 256
low_byte x = bit_and-mask 8 x ∙ omega arith

pub make-bytes :
    (b w : ℕ) → b < 256 → b + 256 * w < 2 ^ 64 → arch_make_breakpoint (b + 256 * w) ≡ 0xCC + 256 * w
unfolding arch_make_breakpoint
make-bytes b w hb h =
    let high : bit_and (b + 256 * w) (2 ^ 64 - 256) ≡ w * 2 ^ 8 =
      high_mask (b + 256 * w) h ∙ omega arith in
    rw high (bit_or-shifted 8 w 0xCC (omega arith) ∙ omega arith)

pub remove-bytes :
    (b w u : ℕ)
    → b < 256
    → 0xCC + 256 * w < 2 ^ 64
    → arch_remove_breakpoint (0xCC + 256 * w) (b + 256 * u) ≡ ok (b + 256 * w)
unfolding arch_remove_breakpoint
remove-bytes b w u hb h =
    let high : bit_and (0xCC + 256 * w) (2 ^ 64 - 256) ≡ w * 2 ^ 8 =
      high_mask (0xCC + 256 * w) h ∙ omega arith in
    let byte : bit_and (0xCC + 256 * w) 0xFF ≡ 0xCC = low_byte (0xCC + 256 * w) ∙ omega arith in
    let old : bit_and (b + 256 * u) 0xFF ≡ b = low_byte (b + 256 * u) ∙ omega arith in
    rw (byte, high, old) (ap ok (bit_or-shifted 8 w b (omega arith) ∙ omega arith))

pub word-lt : (n addr : ℕ) (memory : ℕ → ℕ) → IsBytes memory → word n memory addr < 256 ^ n
unfolding word
word-lt zero addr memory h = omega arith
word-lt (suc n) addr memory h = omega (arith, pow-suc 256 n, word-lt n (suc addr) memory h, h addr)

-- Writing back a word of `memory`, where the bytes around it are those of `memory` already, gives its bytes.
pub write_word-word :
    (n addr a : ℕ) (memory other : ℕ → ℕ)
    → IsBytes memory
    → (a < addr → other a ≡ memory a)
    → (addr + n ≤ a → other a ≡ memory a)
    → write_word n addr (word n memory addr) other a ≡ memory a
unfolding word write_word
write_word-word zero addr a memory other h below above = elim (dec_lt a addr) [
  | yes lt ↦ below lt
  | no ge ↦ above (omega arith)
]
write_word-word (suc n) addr a memory other h below above =
    let rest : (memory addr + 256 * word n memory (suc addr)) / 256 ≡ word n memory (suc addr) =
      omega (arith, h addr) in
    let first : (memory addr + 256 * word n memory (suc addr)) % 256 ≡ memory addr =
      omega (arith, h addr) in
    rw (rest, first)
      (elim (Bool-cases (addr == a)) [
        | inl here ↦ let same : addr ≡ a = ground arith in rw here (ap memory same)
        | inr there ↦ rw there (
            write_word-word n (suc addr) a memory other h (λ lt. below (ground arith))
              (λ le. above (omega arith)))
      ])

-- A word depends on its own bytes only.
pub word-same :
    (n addr : ℕ) (memory other : ℕ → ℕ)
    → ((a : ℕ) → addr ≤ a → other a ≡ memory a)
    → word n other addr ≡ word n memory addr
unfolding word
word-same zero addr memory other same = refl
word-same (suc n) addr memory other same = omega (
  arith,
  same addr (omega arith),
  word-same n (suc addr) memory other (λ a le. same a (omega arith)),
)

-- The lowest byte of a word is the byte at its address.
pub word-lowest :
    (addr : ℕ) (memory : ℕ → ℕ) → IsBytes memory → bit_and (word 8 memory addr) 0xFF ≡ memory addr
unfolding word
word-lowest addr memory h =
    low_byte (memory addr + 256 * word 7 memory (suc addr)) ∙ omega (arith, h addr)
