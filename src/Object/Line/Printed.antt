-- ===== src/Object/Line/Printed.antt =====
-- A line as the kernel prints it in /proc/self/maps, and what the parsing functions make of it.
use atrace.Prelude.{
  ℕ, zero, suc, ◌+◌, ◌-◌, ◌*◌, ◌%◌, ◌^◌, ◌≤◌, ◌≡◌, refl, ◌≢◌, arith, Bool, true, false, none, some,
  [], ◌∷◌, ◌++◌, ◌==◌, if◌then◌else◌, Bool-cases, inl, inr, min, length, All, All-append, All-imp,
  replicate,
}
use atrace.Object.{Text}
use atrace.Object.Parse.{got, until, skip_spaces, strndup}
use atrace.Object.Hex.Value.{IsHex, hex_from, hex_to_int_exact}
use atrace.Object.Line.{
  split_dash, hex_or_null, parse_mmap_range, attr_loop, parse_mmap_attr, decimal, atoi,
  parse_mmap_inode, parse_mmap_file, parse_file_part, parse_line,
}
use atrace.Object.Line.Printing.{
  Entry, digits_of, rights, word, name_part, inode_part, range_text, print_line, IsDecimal, Lacks,
  IsTrimmed, IsLine, dec_from, inode32, attr_bits, region_of,
}

until-append :
    (b : ℕ) (xs rest : Text) → Lacks b xs → until b (xs ++ (b ∷ rest)) ≡ got (xs, b ∷ rest)
unfolding until
until-append b [] rest h = ground arith
until-append b (x ∷ xs) rest h = rw (until-append b xs rest h.1) (ground arith)

IsHex-bytes : (c : ℕ) → IsHex c → (c ≢ b' ') × (c ≢ b'-')
IsHex-bytes c (d, lt, inl lower) = ground arith
IsHex-bytes c (d, lt, inr upper) = ground arith

split_dash-append : (xs ys : Text) → Lacks b'-' xs → split_dash (xs ++ (b'-' ∷ ys)) ≡ (xs, ys)
unfolding split_dash
split_dash-append [] ys h = refl
split_dash-append (x ∷ xs) ys h = rw (split_dash-append xs ys h.1) (ground arith)

attr_loop-rights : (e : Entry) → attr_loop 0 (rights e) ≡ attr_bits e
unfolding attr_loop
attr_loop-rights e = go e.readable e.writable e.executable e.is_private
  where
    go :
        (r w x p : Bool)
        → attr_loop 0 (
            (if r then b'r' else b'-')
            ∷ (if w then b'w' else b'-')
            ∷ (if x then b'x' else b'-')
            ∷ (if p then b'p' else b's')
            ∷ [])
          ≡ (if r then 8 else 0)
            + (if w then 4 else 0)
            + (if x then 2 else 0)
            + (if p then 1 else 0)
    go true true true true = refl
    go true true true false = refl
    go true true false true = refl
    go true true false false = refl
    go true false true true = refl
    go true false true false = refl
    go true false false true = refl
    go true false false false = refl
    go false true true true = refl
    go false true true false = refl
    go false true false true = refl
    go false true false false = refl
    go false false true true = refl
    go false false true false = refl
    go false false false true = refl
    go false false false false = refl

decimal-dec_from : (n : ℕ) (ds : Text) → All IsDecimal ds → decimal n ds ≡ dec_from n ds
unfolding decimal
decimal-dec_from n [] h = refl
decimal-dec_from n (c ∷ cs) h = ground (arith, decimal-dec_from (n * 10 + (c - b'0')) cs h.1)

atoi-dec_from :
    (c : ℕ) (cs : Text)
    → All IsDecimal (c ∷ cs)
    → atoi (c ∷ cs) ≡ min (dec_from 0 (c ∷ cs)) (2 ^ 63 - 1) % 2 ^ 32
unfolding atoi
atoi-dec_from c cs h = ground (arith, decimal-dec_from 0 (c ∷ cs) h)

skip_spaces-replicate :
    (n : ℕ) (rest : Text) → skip_spaces (replicate n b' ' ++ rest) ≡ skip_spaces rest
unfolding skip_spaces
skip_spaces-replicate zero rest = refl
skip_spaces-replicate (suc n) rest = skip_spaces-replicate n rest

skip_spaces_trimmed :
    (name rest : Text)
    → IsTrimmed name
    → skip_spaces (name ++ (b'\n' ∷ rest)) ≡ name ++ (b'\n' ∷ rest)
unfolding skip_spaces
skip_spaces_trimmed [] rest h = refl
skip_spaces_trimmed (c ∷ cs) rest h = ground arith

Lacks-rights : (e : Entry) → Lacks b' ' (rights e)
Lacks-rights e = ground arith

Lacks-range_text : (e : Entry) → IsLine e → Lacks b' ' (range_text e)
Lacks-range_text e l =
    All-append (λ c. c ≢ b' ') (digits_of e.start) (b'-' ∷ digits_of e.end)
      (All-imp (λ c h. (IsHex-bytes c h).0) (digits_of e.start) l.start_hex)
      (omega arith, All-imp (λ c h. (IsHex-bytes c h).0) (digits_of e.end) l.end_hex)

hex_or_null-digits :
    (d : ℕ × Text) (h : All IsHex (digits_of d))
    → length (digits_of d) ≤ 16
    → hex_or_null (digits_of d) ≡ got (hex_from 0 (digits_of d) h)
unfolding hex_or_null
hex_or_null-digits d h short = rw (hex_or_null, hex_to_int_exact d.0 d.1 h short)

-- One line is parsed in its parts, where `strndup` finds memory.
module _ (memory : Text → Bool) (enough : (p : Text) → memory p ≡ true) (e : Entry)
    (l : IsLine e) where
  range_printed :
      (rest : Text)
      → parse_mmap_range memory (word (range_text e) rest)
        ≡ got (
          (hex_from 0 (digits_of e.start) l.start_hex, hex_from 0 (digits_of e.end) l.end_hex),
          rest,
        )
  unfolding parse_mmap_range strndup
  range_printed rest = simp (
    until-append b' ' (range_text e) rest (Lacks-range_text e l),
    enough,
    split_dash-append (digits_of e.start) (digits_of e.end)
        (All-imp (λ c h. (IsHex-bytes c h).1) (digits_of e.start) l.start_hex),
    hex_or_null-digits e.start l.start_hex l.start_short,
    hex_or_null-digits e.end l.end_hex l.end_short,
  )

  attr_printed :
      (rest : Text) → parse_mmap_attr memory (word (rights e) rest) ≡ got (attr_bits e, rest)
  unfolding parse_mmap_attr strndup
  attr_printed rest =
      simp (until-append b' ' (rights e) rest (Lacks-rights e), enough, attr_loop-rights e)

  inode_printed :
      (rest : Text)
      → parse_mmap_inode memory (word e.offset (word e.device (inode_part e rest)))
        ≡ got (inode32 e, name_part e rest)
  unfolding parse_mmap_inode strndup
  inode_printed rest =
      let digits = digits_of e.inode in
      let no_space =
        All-imp {Q = λ c. c ≢ b' '} (λ c (h : IsDecimal c). omega arith) digits l.inode_decimal in
      let behind = replicate e.padding b' ' ++ name_part e rest in
      simp (
        until-append b' ' e.offset (word e.device (inode_part e rest)) l.offset_word,
        until-append b' ' e.device (inode_part e rest) l.device_word,
        until-append b' ' digits behind no_space,
        enough,
        atoi-dec_from e.inode.0 e.inode.1 l.inode_decimal,
        skip_spaces-replicate (suc e.padding) (name_part e rest),
        skip_spaces_trimmed e.name rest l.name_trimmed,
      )

  file_printed :
      (rest : Text)
      → parse_file_part memory (inode32 e) (name_part e rest)
        ≡ got (if inode32 e == 0 then none else some e.name, b'\n' ∷ rest)
  unfolding parse_file_part parse_mmap_file strndup
  file_printed rest =
      let named = until-append b'\n' e.name rest l.name_line in
      elim (Bool-cases (inode32 e == 0)) [
        | inl zero_inode ↦ rw (zero_inode, parse_file_part, named)
        | inr real ↦ rw (real, parse_file_part, named, enough)
      ]

  -- Where `strndup` finds memory, a line as the kernel prints it is parsed into its fields, and the
  -- text that follows it is left: addresses of up to 16 digits exactly, the rights as a bit each, the inode reduced
  -- to 32 bits, and the name only if that inode is not 0.
  pub parse_line-print_line :
      (rest : Text) → parse_line memory (print_line e rest) ≡ got (region_of e l, rest)
  unfolding parse_line
  parse_line-print_line rest = simp (range_printed, attr_printed, inode_printed, file_printed)
