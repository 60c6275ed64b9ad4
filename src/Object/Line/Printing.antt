-- ===== src/Object/Line/Printing.antt =====
-- A line as the kernel prints it in /proc/self/maps, and the region that it describes.
use atrace.Prelude.{
  ℕ, ◌+◌, ◌-◌, ◌*◌, ◌%◌, ◌^◌, ◌≤◌, ◌≢◌, Bool, none, some, [], ◌∷◌, ◌++◌, ◌==◌, if◌then◌else◌, min,
  length, All, replicate,
}
use atrace.Object.{Text}
use atrace.Object.Hex.Value.{IsHex, hex_from}
use atrace.Object.Line.{Region}

-- The fields of a line. An address is the string of its digits, first digit apart.
pub record Entry : Type 0 where
  pub start : ℕ × Text
  pub end : ℕ × Text
  pub readable : Bool
  pub writable : Bool
  pub executable : Bool
  pub is_private : Bool
  pub offset : Text
  pub device : Text
  pub inode : ℕ × Text
  pub padding : ℕ
  pub name : Text

abbrev pub digits_of : ℕ × Text → Text
digits_of d = d.0 ∷ d.1

-- `rwxp`, with a dash for a right that is missing and `s` for a shared mapping.
abbrev pub rights : Entry → Text
rights e =
    (if e.readable then b'r' else b'-')
    ∷ (if e.writable then b'w' else b'-')
    ∷ (if e.executable then b'x' else b'-')
    ∷ (if e.is_private then b'p' else b's')
    ∷ []

-- A field with the space behind it, in front of the text that follows.
abbrev pub word : Text → Text → Text
word w rest = w ++ (b' ' ∷ rest)

abbrev pub name_part : Entry → Text → Text
name_part e rest = e.name ++ (b'\n' ∷ rest)

abbrev pub inode_part : Entry → Text → Text
inode_part e rest = word (digits_of e.inode) (replicate e.padding b' ' ++ name_part e rest)

abbrev pub range_text : Entry → Text
range_text e = digits_of e.start ++ (b'-' ∷ digits_of e.end)

-- The line, in front of the text that follows.
abbrev pub print_line : Entry → Text → Text
print_line e rest =
    word (range_text e) (word (rights e) (word e.offset (word e.device (inode_part e rest))))

abbrev pub IsDecimal : ℕ → Type 0
IsDecimal c = (b'0' ≤ c) × (c ≤ b'9')

abbrev pub Lacks : ℕ → Text → Type 0
Lacks b = All (λ c. c ≢ b)

-- The name begins with no space.
abbrev pub IsTrimmed : Text → Type 0
IsTrimmed [] = Unit
IsTrimmed (c ∷ cs) = c ≢ b' '

pub record IsLine (e : Entry) : Type 0 where
  pub start_hex : All IsHex (digits_of e.start)
  pub start_short : length (digits_of e.start) ≤ 16
  pub end_hex : All IsHex (digits_of e.end)
  pub end_short : length (digits_of e.end) ≤ 16
  pub offset_word : Lacks b' ' e.offset
  pub device_word : Lacks b' ' e.device
  pub inode_decimal : All IsDecimal (digits_of e.inode)
  pub name_line : Lacks b'\n' e.name
  pub name_trimmed : IsTrimmed e.name

-- The number that decimal digits stand for.
abbrev pub dec_from : ℕ → Text → ℕ
dec_from n [] = n
dec_from n (c ∷ cs) = dec_from (n * 10 + (c - b'0')) cs

-- The inode as the program keeps it, in 32 bits of an int that stops at the end of a long.
abbrev pub inode32 : Entry → ℕ
inode32 e = min (dec_from 0 (digits_of e.inode)) (2 ^ 63 - 1) % 2 ^ 32

abbrev pub attr_bits : Entry → ℕ
attr_bits e =
    (if e.readable then 8 else 0)
    + (if e.writable then 4 else 0)
    + (if e.executable then 2 else 0)
    + (if e.is_private then 1 else 0)

abbrev pub region_of : (e : Entry) → IsLine e → Region
region_of e l = record {
  start = hex_from 0 (digits_of e.start) l.start_hex;
  end = hex_from 0 (digits_of e.end) l.end_hex;
  attr = attr_bits e;
  inode = inode32 e;
  file = if inode32 e == 0 then none else some e.name;
}
