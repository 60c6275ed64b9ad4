-- ===== src/Object/Examples.antt =====
-- Runs of the object list, and its theorems at concrete inputs.
use atrace.Prelude.{
  inr, inl, ℕ, check, length, ◌==◌, ◌≡◌, refl, ◌≢◌, arith, true, false, some, List, [], ◌∷◌,
  replicate, ok, fault, Fault, success, minus,
}
use atrace.Linux.{plain_lists}
use atrace.Object.{
  Text, Object, object_get_by_file, object_get_by_address, object_attr_clr, object_attr_set,
  object_attr_flag,
}
use atrace.Object.Parse.{Parse, got, null, crash}
use atrace.Object.Hex.{HexResult, value, error, digit_of, hex_to_int}
use atrace.Object.Hex.Value.{hex_to_int-hex_from}
use atrace.Object.Line.{Region, parse_line}
use atrace.Object.Line.Printed.{parse_line-print_line}
use atrace.Object.Line.Printing.{Entry, IsLine, print_line}
use atrace.Object.Maps.{
  Memory, ReadResult, exists, bytes, eof, failed, object_parse_mmap, object_get_mmap, object_load,
  object_unload,
}
use atrace.Object.Maps.Load.{results, object_load-register}
use atrace.Object.Maps.Ends.{object_parse_mmap_ends}
use atrace.Object.Maps.Unique.{Extends, object_parse_mmap-Extends}
use atrace.Object.Maps.Printed.{Line, print_file, described, object_parse_mmap-register}
use atrace.Object.Entry.{Files, object_get_self_entrypoint}
use atrace.Object.Entry.Elf64.{elf64, object_get_self_entrypoint-elf64}
use atrace.Object.Address.{IsLayout, object_get_by_address_finds, object_get_by_address_shared}

abbrev plenty : Memory
plenty = record { strndup = λ p. true; calloc = λ n. true; realloc = λ n. true }

abbrev starved : Memory
starved = record { strndup = λ p. false; calloc = λ n. true; realloc = λ n. true }

-- `ab0-ac0 r-xp 0 8 12  /l`
abbrev code : Entry
code = record {
  start = (b'a', b'b' ∷ b'0' ∷ []);
  end = (b'a', b'c' ∷ b'0' ∷ []);
  readable = true;
  writable = false;
  executable = true;
  is_private = true;
  offset = b'0' ∷ [];
  device = b'8' ∷ [];
  inode = (b'1', b'2' ∷ []);
  padding = 1;
  name = b'/' ∷ b'l' ∷ [];
}

abbrev stack : Entry
stack = record code { executable = false; inode = (b'0', []); name = [] }

code-IsLine : IsLine code
code-IsLine = record {
  start_hex = (
    (10, omega arith, inl refl),
    ((11, omega arith, inl refl), ((0, omega arith, inl refl), tt)),
  );
  start_short = omega arith;
  end_hex = (
    (10, omega arith, inl refl),
    ((12, omega arith, inl refl), ((0, omega arith, inl refl), tt)),
  );
  end_short = omega arith;
  offset_word = (omega arith, tt);
  device_word = (omega arith, tt);
  inode_decimal = ((omega arith, omega arith), ((omega arith, omega arith), tt));
  name_line = (omega arith, (omega arith, tt));
  name_trimmed = omega arith;
}

stack-IsLine : IsLine stack
stack-IsLine = record {
  start_hex = (
    (10, omega arith, inl refl),
    ((11, omega arith, inl refl), ((0, omega arith, inl refl), tt)),
  );
  start_short = omega arith;
  end_hex = (
    (10, omega arith, inl refl),
    ((12, omega arith, inl refl), ((0, omega arith, inl refl), tt)),
  );
  end_short = omega arith;
  offset_word = (omega arith, tt);
  device_word = (omega arith, tt);
  inode_decimal = ((omega arith, omega arith), tt);
  name_line = tt;
  name_trimmed = tt;
}

abbrev maps : List Line
maps = (stack, stack-IsLine) ∷ (code, code-IsLine) ∷ []

-- The code mapping once it is registered, by a parser elsewhere.
abbrev code_object : Object
code_object = described 0 (code, code-IsLine)

-- A text that the kernel does not print.
not_a_line : object_parse_mmap plain_lists plenty 0 (b'z' ∷ b' ' ∷ []) [] ≡ ok ([], minus 1)
unfolding object_parse_mmap atrace.Object.Maps.parse_loop parse_line
    atrace.Object.Line.parse_mmap_range atrace.Object.Parse.until atrace.Object.Parse.strndup
    atrace.Object.Line.hex_or_null hex_to_int atrace.Object.Line.split_dash
    atrace.Object.Hex.hex_loop digit_of
not_a_line = refl

-- A line that is cut off before its newline is read beyond its end.
cut_off :
    object_parse_mmap plain_lists plenty 0 (b'a' ∷ b'-' ∷ b'b' ∷ []) [] ≡ fault Fault.out_of_bounds
unfolding object_parse_mmap atrace.Object.Maps.parse_loop parse_line
    atrace.Object.Line.parse_mmap_range atrace.Object.Parse.until
cut_off = refl

no_maps : object_load plain_lists plenty 0 false [] [] ≡ fault Fault.aborted
unfolding object_load object_get_mmap
no_maps = refl

loaded :
    object_load plain_lists plenty 0 true (bytes b'a' (b'-' ∷ []) ∷ failed ∷ []) []
    ≡ fault Fault.aborted
unfolding object_load object_get_mmap atrace.Object.Maps.read_loop
loaded = refl

read_twice :
    object_get_mmap plenty true (bytes 1 (2 ∷ []) ∷ bytes 3 [] ∷ eof ∷ [])
    ≡ ok (some (1 ∷ 2 ∷ 3 ∷ []))
unfolding object_get_mmap atrace.Object.Maps.read_loop
read_twice = refl

-- Two mappings that share an address.
abbrev touching : List Object
touching =
    record code_object { text_start = 10; text_end = 20 }
    ∷ record code_object { text_start = 20; text_end = 30 }
    ∷ []

touching-IsLayout : IsLayout touching
touching-IsLayout = (omega arith, (omega arith, tt), (omega arith, tt, tt))

hex_to_int-hex_from_example : hex_to_int (b'a' ∷ b'B' ∷ []) ≡ ok (value 171)
hex_to_int-hex_from_example =
    hex_to_int-hex_from b'a' (b'B' ∷ [])
      ((10, omega arith, inl refl), ((11, omega arith, inr refl), tt))

parse_line-print_line_example :
    parse_line (λ p. true) (print_line code (b'x' ∷ []))
    ≡ got (
      record { start = 2736; end = 2752; attr = 11; inode = 12; file = some (b'/' ∷ b'l' ∷ []) },
      b'x' ∷ [],
    )
unfolding code-IsLine
parse_line-print_line_example =
    parse_line-print_line (λ p. true) (λ p. refl) code code-IsLine (b'x' ∷ [])

object_parse_mmap_ends_example :
    object_parse_mmap plain_lists starved 0 (b'a' ∷ b' ' ∷ []) [] ≢ fault Fault.out_of_fuel
object_parse_mmap_ends_example = object_parse_mmap_ends plain_lists starved 0 (b'a' ∷ b' ' ∷ []) []

maps_parsed :
    object_parse_mmap plain_lists plenty 0 (print_file maps) [] ≡ ok (code_object ∷ [], success)
maps_parsed = object_parse_mmap-register plain_lists plenty 0 (λ p. refl) (λ n. refl) maps []

object_parse_mmap-Extends_example : Extends 0 [] (code_object ∷ [])
object_parse_mmap-Extends_example =
    object_parse_mmap-Extends plain_lists plenty 0 (print_file maps) [] (code_object ∷ []) success
      tt maps_parsed

object_get_by_address_finds_example :
    object_get_by_address 25 touching ≡ some (record code_object { text_start = 20; text_end = 30 })
object_get_by_address_finds_example =
    object_get_by_address_finds 25 (record code_object { text_start = 10; text_end = 20 } ∷ [])
      (record code_object { text_start = 20; text_end = 30 }) [] touching-IsLayout (omega arith)
      (omega arith) (omega arith, tt)

object_get_by_address_shared_example :
    object_get_by_address 20 touching ≡ some (record code_object { text_start = 10; text_end = 20 })
object_get_by_address_shared_example =
    object_get_by_address_shared [] (record code_object { text_start = 10; text_end = 20 })
      (record code_object { text_start = 20; text_end = 30 }) [] touching-IsLayout refl

-- An ELF file of 64 bits with its entry point at 0x100000740, and the program that it is.
abbrev middle_bytes : Text
middle_bytes = replicate 20 1

abbrev files : Files
files = record {
  readlink = some (b'/' ∷ b'l' ∷ []);
  contents = λ name. some (elf64 0x100000740 middle_bytes []);
  malloc_path = true;
  malloc_header = true;
  strdup = true;
}

object_get_self_entrypoint-elf64_example :
    object_get_self_entrypoint files (code_object ∷ []) ≡ ok 4592
unfolding code-IsLine object_get_by_file
object_get_self_entrypoint-elf64_example =
    object_get_self_entrypoint-elf64 files (code_object ∷ []) (b'/' ∷ b'l' ∷ []) code_object
      0x100000740 middle_bytes [] refl (omega arith) (omega arith, (omega arith, tt)) refl refl refl
      refl refl refl

-- Each byte in a piece of its own.
abbrev cut : Text → List (ℕ × Text)
cut [] = []
cut (c ∷ cs) = (c, []) ∷ cut cs

object_load-register_example :
    object_load plain_lists plenty 0 true (results (cut (print_file maps))) []
    ≡ ok (code_object ∷ [])
object_load-register_example =
    object_load-register plain_lists plenty 0 maps (cut (print_file maps)) [] (λ p. refl)
      (λ n. refl) (λ n. refl) refl

-- `object_unload` empties the list where `object_del` returns, and shows it objects with no breakpoints.
unloaded :
    object_unload
      (λ obj. check (length obj.breakpoint_chain == 0))
      (record code_object { breakpoint_chain = 3 ∷ [] } ∷ code_object ∷ [])
    ≡ ok []
unfolding object_unload
unloaded = refl
