-- ===== src/Tracer/Maps/Examples.antt =====
-- Runs of the list of objects of the traced process, and its theorem at a concrete input.
use atrace.Prelude.{
  inl, ℕ, ◌≡◌, refl, arith, true, false, none, some, List, [], ◌∷◌, replicate, ok, fault, Fault,
  success, minus,
}
use atrace.Linux.{plain_lists}
use atrace.Object.{Text}
use atrace.Object.Hex.{digit_of}
use atrace.Object.Line.Printing.{Entry, IsLine}
use atrace.Object.Maps.{Memory}
use atrace.Object.Maps.Printed.{Line, print_file}
use atrace.Object.Maps.Load.{results}
use atrace.Tracer.{TracedObject}
use atrace.Tracer.Maps.{
  pseudo_file, exists, object_load, object_get_by_file, object_get_exe, TracedFiles,
  object_get_exe_entry_point,
}
use atrace.Tracer.Maps.Loaded.{object_load-described}

-- `ab0-ac0 r-xp 0 8 12 /l`, and `c0-d0 r-xp 0 8 0 ` with no file.
abbrev code : Entry
code = record {
  start = (b'a', b'b' ∷ b'0' ∷ []);
  end = (b'a', b'c' ∷ b'0' ∷ []);
  readable = true;
  writable = false;
  executable = true;
  is_private = true;
  offset = b'0' ∷ [];
  device = b'8' ∷ [];
  inode = (b'1', b'2' ∷ []);
  padding = 0;
  name = b'/' ∷ b'l' ∷ [];
}

abbrev anonymous : Entry
anonymous = record code {
  start = (b'c', b'0' ∷ []);
  end = (b'd', b'0' ∷ []);
  inode = (b'0', []);
  name = [];
}

code-IsLine : IsLine code
code-IsLine = record {
  start_hex = (
    (10, omega arith, inl refl),
    ((11, omega arith, inl refl), ((0, omega arith, inl refl), tt)),
  );
  start_short = omega arith;
  end_hex = (
    (10, omega arith, inl refl),
    ((12, omega arith, inl refl), ((0, omega arith, inl refl), tt)),
  );
  end_short = omega arith;
  offset_word = (omega arith, tt);
  device_word = (omega arith, tt);
  inode_decimal = ((omega arith, omega arith), ((omega arith, omega arith), tt));
  name_line = (omega arith, (omega arith, tt));
  name_trimmed = omega arith;
}

anonymous-IsLine : IsLine anonymous
anonymous-IsLine = record {
  start_hex = ((12, omega arith, inl refl), ((0, omega arith, inl refl), tt));
  start_short = omega arith;
  end_hex = ((13, omega arith, inl refl), ((0, omega arith, inl refl), tt));
  end_short = omega arith;
  offset_word = (omega arith, tt);
  device_word = (omega arith, tt);
  inode_decimal = ((omega arith, omega arith), tt);
  name_line = tt;
  name_trimmed = tt;
}

abbrev maps : List Line
maps = (code, code-IsLine) ∷ (anonymous, anonymous-IsLine) ∷ (code, code-IsLine) ∷ []

abbrev plenty : Memory
plenty = record { strndup = λ p. true; calloc = λ n. true; realloc = λ n. true }

-- The text in two pieces.
abbrev pieces : List (ℕ × Text)
pieces =
    (b'a', atrace.Prelude.take 10 (atrace.Prelude.drop 1 (print_file maps)))
    ∷ cut (atrace.Prelude.drop 11 (print_file maps))
  where
    cut : Text → List (ℕ × Text)
    cut [] = []
    cut (c ∷ cs) = (c, cs) ∷ []

abbrev objects : List TracedObject
objects =
    record {
      file_name = b'/' ∷ b'l' ∷ [];
      text_start = 0xab0;
      text_end = 0xac0;
      breakpoint_chain = [];
    }
    ∷ record { file_name = pseudo_file; text_start = 0xc0; text_end = 0xd0; breakpoint_chain = [] }
    ∷ []

object_load-described_example :
    object_load plain_lists plenty true (results pieces) [] ≡ ok (objects, success)
unfolding code-IsLine anonymous-IsLine
object_load-described_example =
    object_load-described plain_lists plenty (λ p. refl) (λ n. refl) maps pieces [] (λ n. refl) refl

-- No memory for an object is the same failure as a text that the kernel does not print.
no_memory :
    object_load plain_lists (record plenty { calloc = λ n. false }) true (results pieces) []
    ≡ ok ([], minus 1)
unfolding object_load atrace.Tracer.Maps.object_get_mmap atrace.Object.Maps.read_loop
    atrace.Tracer.Maps.object_parse_mmap atrace.Tracer.Maps.parse_loop atrace.Object.Line.parse_line
    atrace.Object.Line.parse_mmap_range atrace.Object.Parse.until atrace.Object.Parse.strndup
    atrace.Object.Line.hex_or_null atrace.Object.Hex.hex_to_int atrace.Object.Line.split_dash
    atrace.Object.Hex.hex_loop digit_of atrace.Object.Line.parse_mmap_attr
    atrace.Object.Line.parse_mmap_inode atrace.Object.Line.parse_file_part atrace.Object.Line.atoi
    atrace.Object.Line.decimal atrace.Object.Line.parse_mmap_file atrace.Object.Parse.skip_spaces
    atrace.Tracer.Maps.add_region atrace.Object.Line.attr_loop exists
no_memory = refl

not_opened : object_load plain_lists plenty false [] objects ≡ ok (objects, minus 1)
unfolding object_load atrace.Tracer.Maps.object_get_mmap
not_opened = refl

by_name : object_get_by_file pseudo_file objects ≡ some 1
unfolding object_get_by_file
by_name = refl

abbrev files : TracedFiles
files = record {
  readlink = some (b'/' ∷ b'l' ∷ []);
  malloc_path = some (b'x' ∷ b'y' ∷ b'z' ∷ replicate 8 0);
  strdup = true;
  contents = λ name. none;
  malloc_header = true;
}

-- What malloc left in the buffer is taken for the end of the path.
junk_path : object_get_exe files ≡ ok (some (b'/' ∷ b'l' ∷ b'z' ∷ []))
unfolding object_get_exe atrace.Object.Entry.terminated
junk_path = refl

no_file : object_get_exe_entry_point files (b'/' ∷ b'l' ∷ []) ≡ ok 0
unfolding object_get_exe_entry_point
no_file = refl
