-- ===== src/Object/Maps/Printed.antt =====
-- `object_parse_mmap` on a file as the kernel prints it: line by line, what is registered.
use atrace.Prelude.{
  map, ℕ, zero, suc, ◌+◌, ◌≤◌, ◌<◌, ◌≡◌, refl, sym, ap, ◌∙◌, arith, Bool, true, false, not, ◌&&◌,
  some, List, [], ◌∷◌, ◌++◌, ◌==◌, leb, if◌then◌else◌, Bool-cases, inl, inr, length, replicate,
  bit_and, bit_or, ok, success,
}
use atrace.Object.Ranges.{listed}
use atrace.Linux.{ListOps}
use atrace.Object.{Text, Object, obj_attr_flag_execute, obj_attr_flag_no_bkpt, object_new, cleared}
use atrace.Object.Hex.Value.{hex_from}
use atrace.Object.Line.Printed.{parse_line-print_line}
use atrace.Object.Line.Printing.{
  Entry, IsLine, print_line, digits_of, name_part, inode_part, word, rights, range_text, inode32,
  attr_bits, region_of,
}
use atrace.Object.Maps.{Memory, exists, fill, add_region, parse_loop, object_parse_mmap}

-- A well-formed line, and a file of such lines.
abbrev pub Line : Type 0
Line = (e : Entry) × IsLine e

abbrev pub print_file : List Line → Text
print_file [] = []
print_file ((e, l) ∷ lines) = print_line e (print_file lines)

abbrev pub first_address : Line → ℕ
first_address (e, l) = hex_from 0 (digits_of e.start) l.start_hex

abbrev pub last_address : Line → ℕ
last_address (e, l) = hex_from 0 (digits_of e.end) l.end_hex

-- The object that a line describes, in a process whose parser is at `self`.
abbrev pub described : ℕ → Line → Object
described self (e, l) = record {
  file_name = e.name;
  text_start = first_address (e, l);
  text_end = last_address (e, l);
  text_attr =
      if leb (first_address (e, l)) self && leb self (last_address (e, l))
      then bit_or (attr_bits e) obj_attr_flag_no_bkpt
      else attr_bits e;
  breakpoint_chain = [];
}

-- The ranges of the listed objects.
abbrev pub ranges : List Object → List (ℕ × ℕ)
ranges = map (λ o. (o.text_start, o.text_end))

exists-listed :
    (start end : ℕ) (objects : List Object)
    → exists start end objects ≡ listed (start, end) (ranges objects)
unfolding exists
exists-listed start end [] = refl
exists-listed start end (curr ∷ rest) = ground (arith, exists-listed start end rest)

-- Is the line registered: a mapping of a file that may be executed, and not yet in the list?
abbrev pub is_new : Line → List Object → Bool
is_new (e, l) objects =
    not (inode32 e == 0)
    && e.executable
    && not (listed (first_address (e, l), last_address (e, l)) (ranges objects))

-- The list after a file, line by line.
abbrev pub register : ℕ → List Line → List Object → List Object
register self [] objects = objects
register self (line ∷ lines) objects =
    register self lines
      (if is_new line objects then objects ++ described self line ∷ [] else objects)

pub executable_bit :
    (e : Entry) → (bit_and (attr_bits e) obj_attr_flag_execute == 0) ≡ not e.executable
executable_bit e = go e.readable e.writable e.executable e.is_private
  where
    go :
        (r w x p : Bool)
        → (bit_and
              ((if r then 8 else 0)
                + (if w then 4 else 0)
                + (if x then 2 else 0)
                + (if p then 1 else 0))
              2
            == 0)
          ≡ not x
    go true true true true = refl
    go true true true false = refl
    go true true false true = refl
    go true true false false = refl
    go true false true true = refl
    go true false true false = refl
    go true false false true = refl
    go true false false false = refl
    go false true true true = refl
    go false true true false = refl
    go false true false true = refl
    go false true false false = refl
    go false false true true = refl
    go false false true false = refl
    go false false false true = refl
    go false false false false = refl

length-behind : (xs : Text) (c : ℕ) (rest : Text) → length rest < length (xs ++ (c ∷ rest))
length-behind [] c rest = omega arith
length-behind (x ∷ xs) c rest = omega (arith, length-behind xs c rest)

length-le : (xs rest : Text) → length rest ≤ length (xs ++ rest)
length-le [] rest = omega arith
length-le (x ∷ xs) rest = omega (arith, length-le xs rest)

pub length-print_line : (e : Entry) (rest : Text) → length rest < length (print_line e rest)
length-print_line e rest =
    let named = name_part e rest in
    let inode = inode_part e rest in
    let device = word e.device inode in
    let offset = word e.offset device in
    omega (
      arith,
      length-behind e.name b'\n' rest,
      length-le (replicate e.padding b' ') named,
      length-behind (digits_of e.inode) b' ' (replicate e.padding b' ' ++ named),
      length-behind e.device b' ' inode,
      length-behind e.offset b' ' device,
      length-behind (rights e) b' ' offset,
      length-behind (range_text e) b' ' (word (rights e) offset),
    )

module _ (lists : ListOps Object) (memory : Memory) (self : ℕ)
    (enough : (p : Text) → memory.strndup p ≡ true)
    (calloc_enough : (n : ℕ) → memory.calloc n ≡ true) where
  fill-described :
      (e : Entry) (l : IsLine e)
      → fill self (record (region_of e l) { file = some e.name }) cleared ≡ described self (e, l)
  fill-described e l =
      elim (Bool-cases (leb (first_address (e, l)) self && leb self (last_address (e, l)))) [
        | inl inside ↦ rw inside refl
        | inr outside ↦ rw outside refl
      ]

  add_region-register :
      (e : Entry) (l : IsLine e) (objects : List Object)
      → add_region lists memory self objects (region_of e l)
        ≡ ok (if is_new (e, l) objects then objects ++ described self (e, l) ∷ [] else objects)
  unfolding add_region object_new
  add_region-register e l objects =
      let known = exists-listed (first_address (e, l)) (last_address (e, l)) objects in
      elim (Bool-cases (inode32 e == 0)) [
        | inl e1 ↦ rw (add_region, e1) refl
        | inr real ↦ elim (Bool-cases e.executable) [
          | inl x ↦
              elim (Bool-cases
                (listed (first_address (e, l), last_address (e, l)) (ranges objects))) [
                  | inl old ↦ rw (add_region, real, executable_bit e, x, known, old) refl
                  | inr new ↦
                      rw
                        (
                          add_region,
                          real,
                          executable_bit e ∙ ap not x,
                          known,
                          new,
                          object_new,
                          calloc_enough,
                          lists.list_add_tail_lem,
                        )
                        (ap (λ (o : Object). ok (objects ++ o ∷ [])) (fill-described e l)
                          ∙ ap
                              (λ (b : Bool).
                                ok (if b then objects ++ described self (e, l) ∷ [] else objects))
                              (sym (ap (λ b. b && true) x)))
                ]
          | inr x ↦ rw (add_region, real, executable_bit e, x) refl
        ]
      ]

  parse_loop-register :
      (fuel : ℕ) (lines : List Line) (objects : List Object)
      → length (print_file lines) < fuel
      → parse_loop lists memory self fuel (print_file lines) objects
        ≡ ok (register self lines objects, success)
  unfolding parse_loop
  parse_loop-register zero lines objects h = ground arith
  parse_loop-register (suc fuel) [] objects h = refl
  parse_loop-register (suc fuel) ((e, l) ∷ lines) objects h =
      rw
        (
          parse_loop,
          parse_line-print_line memory.strndup enough e l (print_file lines),
          add_region-register e l objects,
        )
        (parse_loop-register fuel lines _ (omega (arith, length-print_line e (print_file lines))))

  pub object_parse_mmap-register :
      (lines : List Line) (objects : List Object)
      → object_parse_mmap lists memory self (print_file lines) objects
        ≡ ok (register self lines objects, success)
  unfolding object_parse_mmap
  object_parse_mmap-register lines objects =
      parse_loop-register (suc (length (print_file lines))) lines objects (omega arith)
