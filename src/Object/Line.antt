-- ===== src/Object/Line.antt =====
-- The functions of signal_test/object.c that parse one line of /proc/self/maps. Each takes the text at
-- its pointer and gives what it stores, with the text at the pointer that it returns.
pub mod Printing
pub mod Printed
use atrace.Prelude.{
  ℕ, zero, suc, ◌+◌, ◌-◌, ◌*◌, ◌%◌, ◌^◌, ◌≡◌, Bool, true, false, ◌&&◌, ◌||◌, Option, none, some,
  List, [], ◌∷◌, ◌==◌, leb, ltb, if◌then◌else◌, min, bit_or, Run, ok, fault, Fault,
}
use atrace.Object.{
  Text, obj_attr_flag_private, obj_attr_flag_execute, obj_attr_flag_write, obj_attr_flag_read,
}
use atrace.Object.Parse.{Parse, got, null, crash, ◌>>=◌, ◌>>◌, until, skip_spaces, step, strndup}
use atrace.Object.Hex.{value, error, hex_to_int}

-- `for(; sp_pos < end_pos && mmap[sp_pos] != '-'; sp_pos++);`: what stands before and behind `sp_pos`.
unfoldable pub split_dash : Text → Text × Text
split_dash [] = ([], [])
split_dash (c ∷ cs) =
    let (before, after) = split_dash cs in if c == b'-' then ([], cs) else (c ∷ before, after)

-- A call of `hex_to_int` under `if`: another result than 0 makes the caller return NULL.
unfoldable pub hex_or_null : Text → Parse ℕ
hex_or_null str = elim (hex_to_int str) [
  | fault e ↦ crash e
  | ok (error code) ↦ null
  | ok (value n) ↦ got n
]

module _ (memory : Text → Bool) where
  unfoldable pub parse_mmap_range : Text → Parse ((ℕ × ℕ) × Text)
  parse_mmap_range mmap = do
    (passed, rest) ← until b' ' mmap
    range_str ← strndup memory mmap passed
    let halves = split_dash range_str
    start ← hex_or_null halves.0
    end ← hex_or_null halves.1
    got ((start, end), step rest)

-- The `switch` on one byte of the attributes.
abbrev pub attr_byte : ℕ → ℕ → ℕ
attr_byte attr c =
    if c == b'r'
    then bit_or attr obj_attr_flag_read
    else if c == b'w'
    then bit_or attr obj_attr_flag_write
    else if c == b'x'
    then bit_or attr obj_attr_flag_execute
    else if c == b'p'
    then bit_or attr obj_attr_flag_private
    else attr

unfoldable pub attr_loop : ℕ → Text → ℕ
attr_loop attr [] = attr
attr_loop attr (c ∷ cs) = attr_loop (attr_byte attr c) cs

module _ (memory : Text → Bool) where
  unfoldable pub parse_mmap_attr : Text → Parse (ℕ × Text)
  parse_mmap_attr mmap = do
    (passed, rest) ← until b' ' mmap
    attr_str ← strndup memory mmap passed
    got (attr_loop 0 attr_str, step rest)

abbrev is_space : ℕ → Bool
is_space c = c == b' ' || (leb 9 c && leb c 13)

-- The digits of `strtol` at base 10.
unfoldable pub decimal : ℕ → Text → ℕ
decimal n [] = n
decimal n (c ∷ cs) =
    let rest = decimal (n * 10 + (c - b'0')) cs in if leb b'0' c && leb c b'9' then rest else n

-- `(uint32_t)atoi(str)`, where `atoi` is `strtol` cast to int: `strtol` stops at the ends of its range.
unfoldable pub atoi : Text → ℕ
atoi [] = 0
atoi (c ∷ cs) =
    let skipped = atoi cs in
    if is_space c
    then skipped
    else if c == b'-'
    then (2 ^ 32 - min (decimal 0 cs) (2 ^ 63) % 2 ^ 32) % 2 ^ 32
    else min (decimal 0 (if c == b'+' then cs else c ∷ cs)) (2 ^ 63 - 1) % 2 ^ 32

module _ (memory : Text → Bool) where
  unfoldable pub parse_mmap_inode : Text → Parse (ℕ × Text)
  parse_mmap_inode mmap = do
    offset ← until b' ' mmap
    device ← until b' ' (step offset.1)
    let inode_ptr = step device.1
    (passed, rest) ← until b' ' inode_ptr
    inode_str ← strndup memory inode_ptr passed
    got (atoi inode_str, skip_spaces rest)

  -- The pointer is left at the newline.
  unfoldable pub parse_mmap_file : Text → Parse (Text × Text)
  parse_mmap_file mmap = do
    (passed, rest) ← until b'\n' mmap
    file_str ← strndup memory mmap passed
    got (file_str, rest)

-- What one turn of the loop in `object_parse_mmap` reads of its line.
pub record Region : Type 0 where
  pub start : ℕ
  pub end : ℕ
  pub attr : ℕ
  pub inode : ℕ
  pub file : Option Text

module _ (memory : Text → Bool) where
  -- The part with the file: a line whose inode is 0 is skipped up to its newline.
  unfoldable pub parse_file_part : ℕ → Text → Parse (Option Text × Text)
  parse_file_part inode mmap =
      if inode == 0
      then (until b'\n' mmap >>= λ passed. got (none, passed.1))
      else (parse_mmap_file memory mmap >>= λ file. got (some file.0, file.1))

  -- From the start of a line to the pointer behind its newline.
  unfoldable pub parse_line : Text → Parse (Region × Text)
  parse_line mmap = do
    (range, after_range) ← parse_mmap_range memory mmap
    (attr, after_attr) ← parse_mmap_attr memory after_range
    (inode, after_inode) ← parse_mmap_inode memory after_attr
    (file, newline) ← parse_file_part inode after_inode
    got (
      record { start = range.0; end = range.1; attr = attr; inode = inode; file = file },
      step newline,
    )
