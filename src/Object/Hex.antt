-- ===== src/Object/Hex.antt =====
-- `hex_to_int` of signal_test/object.c. The bytes from `high_byte` to `low_byte` stand as a list, which is
-- empty where `low_byte` is below `high_byte`.
pub mod Value
use atrace.Prelude.{
  ℕ, ◌+◌, ◌-◌, ◌*◌, ◌%◌, ◌^◌, ◌≡◌, Bool, ◌&&◌, Option, none, some, List, [], ◌∷◌, leb, ltb,
  if◌then◌else◌, length, bit_or, Run, ok, fault, Fault,
}
use atrace.Object.{Text}

-- The return value 0 with `*data_ptr`, or another return value.
pub data HexResult : Type 0 where
  value : ℕ → HexResult
  error : ℕ → HexResult

abbrev within : ℕ → ℕ → ℕ → Bool
within lo hi c = leb lo c && leb c hi

-- What the three ranges make of one byte.
unfoldable pub digit_of : ℕ → Option ℕ
digit_of curr_byte =
    if within b'0' b'9' curr_byte
    then some (curr_byte - b'0')
    else if within b'a' b'f' curr_byte
    then some (curr_byte - b'a' + 10)
    else if within b'A' b'F' curr_byte
    then some (curr_byte - b'A' + 10)
    else none

-- The loop; `data << 4` wraps at 64 bits.
unfoldable pub hex_loop : ℕ → Text → HexResult
hex_loop acc [] = value acc
hex_loop acc (c ∷ cs) = elim (digit_of c) [
  | none ↦ error 2
  | some d ↦ hex_loop (bit_or (acc * 2 ^ 4 % 2 ^ 64) d) cs
]

unfoldable pub hex_to_int : Text → Run HexResult
hex_to_int [] = fault Fault.assertion
hex_to_int (c ∷ cs) = ok (if ltb 16 (length cs) then error 1 else hex_loop 0 (c ∷ cs))
