-- ===== src/Tracer/Maps.antt =====
-- src/object.c and include/object.h: the executable mappings of the traced process. The functions that parse one line are
-- those of signal_test/object.c, but for the names of the flags.
pub mod Loaded
mod Examples
use atrace.Prelude.{
  ℕ, zero, suc, ◌+◌, Bool, true, false, not, ◌&&◌, ◌||◌, Option, none, some, List, [], ◌∷◌, ◌++◌,
  ◌==◌, if◌then◌else◌, bit_and, length, take, Run, ok, fault, Fault, ◌>>=◌, Status, success, minus,
}
use atrace.Linux.{ListOps}
use atrace.Object.{Text, obj_attr_flag_execute, strcmp_eq}
use atrace.Object.Parse.{Parse, got, null, crash}
use atrace.Object.Line.{Region, parse_line}
use atrace.Object.Maps.{Memory, ReadResult, bytes, eof, failed, read_loop}
use atrace.Object.Entry.{terminated, path_size, skip, e_entry_offset, is_elf, little_endian}
use atrace.Tracer.{TracedObject}

-- The search for a mapping that is in the list already.
unfoldable pub exists : ℕ → ℕ → List TracedObject → Bool
exists start end [] = false
exists start end (curr_obj ∷ rest) =
    curr_obj.text_start == start && curr_obj.text_end == end || exists start end rest

-- `<pseudo file>`
abbrev pub pseudo_file : Text
pseudo_file =
    b'<' ∷ b'p' ∷ b's' ∷ b'e' ∷ b'u' ∷ b'd' ∷ b'o' ∷ b' ' ∷ b'f' ∷ b'i' ∷ b'l' ∷ b'e' ∷ b'>' ∷ []

-- The name of a mapping: one with no inode has no file.
abbrev pub name_of : Option Text → Text
name_of (some file) = file
name_of none = pseudo_file

abbrev one_further : Option ℕ → Option ℕ
one_further none = none
one_further (some i) = some (suc i)

-- `object_get_by_file`; a pointer to an object is its position in the list.
unfoldable pub object_get_by_file : Text → List TracedObject → Option ℕ
object_get_by_file filename [] = none
object_get_by_file filename (curr_obj ∷ rest) =
    if strcmp_eq filename curr_obj.file_name
    then some 0
    else one_further (object_get_by_file filename rest)

-- The object for a region, as it is filled behind `calloc`.
abbrev pub fill : Region → TracedObject
fill r = record {
  file_name = name_of r.file;
  text_start = r.start;
  text_end = r.end;
  breakpoint_chain = [];
}

module _ (lists : ListOps TracedObject) (memory : Memory) where
  -- What a turn of the loop does once its line is read: the list behind it, or `none` where `calloc` finds no memory.
  unfoldable pub add_region : List TracedObject → Region → Option (List TracedObject)
  add_region objects r =
      if bit_and r.attr obj_attr_flag_execute == 0
      then some objects
      else if exists r.start r.end objects
      then some objects
      else if memory.calloc (length objects)
      then some (lists.list_add_tail (fill r) objects)
      else none

  -- The loop `while (mmap != mmap_end)`.
  unfoldable pub parse_loop : ℕ → Text → List TracedObject → Run (List TracedObject × Status)
  parse_loop zero mmap objects = fault Fault.out_of_fuel
  parse_loop (suc fuel) [] objects = ok (objects, success)
  parse_loop (suc fuel) (c ∷ cs) objects = elim (parse_line memory.strndup (c ∷ cs)) [
    | null ↦ ok (objects, minus 1)
    | crash e ↦ fault e
    | got (r, rest) ↦ elim (add_region objects r) [
      | none ↦ ok (objects, minus 2)
      | some more ↦ parse_loop fuel rest more
    ]
  ]

  -- A turn takes at least one byte.
  unfoldable pub object_parse_mmap : Text → List TracedObject → Run (List TracedObject × Status)
  object_parse_mmap mmap objects = parse_loop (suc (length mmap)) mmap objects

-- `object_get_mmap` opens /proc/<leader_pid>/maps; its loop is that of signal_test/object.c.
unfoldable pub object_get_mmap : Memory → Bool → List ReadResult → Run (Option Text)
object_get_mmap memory opened reads = if not opened then ok none else read_loop memory [] reads

-- Every failure is -1.
abbrev pub loaded : List TracedObject × Status → List TracedObject × Status
loaded (objects, success) = (objects, success)
loaded (objects, minus n) = (objects, minus 1)

module _ (lists : ListOps TracedObject) (memory : Memory) where
  abbrev pub load_maps : List TracedObject → Option Text → Run (List TracedObject × Status)
  load_maps objects none = ok (objects, minus 1)
  load_maps objects (some maps) = object_parse_mmap lists memory maps objects >>= λ r. ok (loaded r)

  unfoldable pub object_load :
      Bool → List ReadResult → List TracedObject → Run (List TracedObject × Status)
  object_load opened reads objects = object_get_mmap memory opened reads >>= load_maps objects

-- What the system and the C library answer: `readlink` on /proc/<leader_pid>/exe, what `malloc` leaves in a buffer of
-- 4096 bytes, the first bytes of a file that can be opened, and whether the allocations find memory.
pub record TracedFiles : Type 0 where
  pub readlink : Option Text
  pub malloc_path : Option Text
  pub strdup : Bool
  pub contents : Text → Option Text
  pub malloc_header : Bool

-- `readlink` writes over the first bytes of the buffer, and no NUL.
abbrev pub overwritten : Text → Text → Text
overwritten path buffer = path ++ atrace.Prelude.drop (length path) buffer

abbrev pub exe_path : TracedFiles → Text → Option Text → Run (Option Text)
exe_path files buffer none = ok none
exe_path files buffer (some path) = terminated path_size (overwritten path buffer) >>= λ t.
    ok (if files.strdup then some t else none)

abbrev pub exe_buffer : TracedFiles → Option Text → Run (Option Text)
exe_buffer files none = ok none
exe_buffer files (some buffer) = exe_path files buffer files.readlink

unfoldable pub object_get_exe : TracedFiles → Run (Option Text)
object_get_exe files = exe_buffer files files.malloc_path

-- `object_get_exe_entry_point`, which gives 0 where it fails. The result of `fread` is dropped, and what it did not read of
-- the header is not initialized.
abbrev pub entry_of_file : TracedFiles → Option Text → Run ℕ
entry_of_file files none = ok 0
entry_of_file files (some file) =
    if not files.malloc_header
    then ok 0
    else if not (is_elf file)
    then ok 0
    else elim (little_endian 4 (skip e_entry_offset file)) [
      | none ↦ fault Fault.out_of_bounds
      | some e ↦ ok e
    ]

unfoldable pub object_get_exe_entry_point : TracedFiles → Text → Run ℕ
object_get_exe_entry_point files name = entry_of_file files (files.contents name)
