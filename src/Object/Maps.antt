-- ===== src/Object/Maps.antt =====
-- signal_test/object.c: the list of objects, as `object_load` builds it from /proc/self/maps.
pub mod Ends
pub mod Unique
pub mod Printed
pub mod Load
use mathlib.Core.Option.{get_or}
use atrace.Prelude.{
  ℕ, zero, suc, ◌+◌, ◌-◌, ◌≡◌, Bool, true, false, ◌&&◌, ◌||◌, Option, none, some, List, [], ◌∷◌,
  ◌++◌, ◌==◌, leb, if◌then◌else◌, bit_and, bit_or, length, Run, ok, fault, Fault, ◌>>=◌, Status,
  success, minus,
}
use atrace.Linux.{ListOps}
use atrace.Object.{
  Text, Object, obj_attr_flag_execute, obj_attr_flag_no_bkpt, object_new, object_attr_set,
}
use atrace.Object.Parse.{Parse, got, null, crash}
use atrace.Object.Line.{Region, parse_line}

-- Which calls find memory: `strndup` by its pointer, `calloc` by the number of objects in the list, and `realloc` by
-- the length asked for.
pub record Memory : Type 0 where
  pub strndup : Text → Bool
  pub calloc : ℕ → Bool
  pub realloc : ℕ → Bool

-- The search for a mapping that is in the list already.
unfoldable pub exists : ℕ → ℕ → List Object → Bool
exists start end [] = false
exists start end (curr_obj ∷ rest) =
    curr_obj.text_start == start && curr_obj.text_end == end || exists start end rest

-- A new object for a region. `self` is the address of `object_parse_mmap`.
abbrev pub fill : ℕ → Region → Object → Object
fill self r obj =
    let filled = record obj {
      file_name = get_or r.file [];
      text_start = r.start;
      text_end = r.end;
      text_attr = r.attr;
    } in
    if leb r.start self && leb self r.end
    then record filled { text_attr = bit_or r.attr obj_attr_flag_no_bkpt }
    else filled

module _ (lists : ListOps Object) (memory : Memory) (self : ℕ) where
  -- What a turn of the loop does once its line is read.
  unfoldable pub add_region : List Object → Region → Run (List Object)
  add_region objects r =
      if r.inode == 0
      then ok objects
      else if bit_and r.attr obj_attr_flag_execute == 0
      then ok objects
      else if exists r.start r.end objects
      then ok objects
      else (object_new (memory.calloc (length objects)) >>= λ obj.
          ok (lists.list_add_tail (fill self r obj) objects))

  -- The loop `while (mmap != mmap_end)`.
  unfoldable pub parse_loop : ℕ → Text → List Object → Run (List Object × Status)
  parse_loop zero mmap objects = fault Fault.out_of_fuel
  parse_loop (suc fuel) [] objects = ok (objects, success)
  parse_loop (suc fuel) (c ∷ cs) objects = elim (parse_line memory.strndup (c ∷ cs)) [
    | null ↦ ok (objects, minus 1)
    | crash e ↦ fault e
    | got (r, rest) ↦ add_region objects r >>= λ more. parse_loop fuel rest more
  ]

  -- A turn takes at least one byte.
  unfoldable pub object_parse_mmap : Text → List Object → Run (List Object × Status)
  object_parse_mmap mmap objects = parse_loop (suc (length mmap)) mmap objects

-- What `read` gives: bytes, the end of the file or an error.
pub data ReadResult : Type 0 where
  bytes : ℕ → Text → ReadResult
  eof : ReadResult
  failed : ReadResult

module _ (memory : Memory) where
  -- The loop of `object_get_mmap` on the results of `read`, with what is in `mmap_buf`; a file that never ends
  -- runs out of results. `none` is NULL.
  unfoldable pub read_loop : Text → List ReadResult → Run (Option Text)
  read_loop mmap_buf [] = fault Fault.out_of_fuel
  read_loop mmap_buf (failed ∷ reads) = ok none
  read_loop mmap_buf (eof ∷ reads) =
      ok (if memory.realloc (length mmap_buf + 1) then some mmap_buf else none)
  read_loop mmap_buf (bytes b bs ∷ reads) =
      let next = read_loop (mmap_buf ++ (b ∷ bs)) reads in
      if memory.realloc (length (mmap_buf ++ (b ∷ bs)) + 1) then next else ok none

-- `opened` is false where `open` fails.
unfoldable pub object_get_mmap : Memory → Bool → List ReadResult → Run (Option Text)
object_get_mmap memory opened reads = if opened then read_loop memory [] reads else ok none

abbrev after_parse : List Object × Status → Run (List Object)
after_parse (objects, success) = ok objects
after_parse (objects, minus n) = fault Fault.aborted

module _ (lists : ListOps Object) (memory : Memory) (self : ℕ) where
  load_maps : Option Text → List Object → Run (List Object)
  load_maps none objects = fault Fault.aborted
  load_maps (some maps) objects = object_parse_mmap lists memory self maps objects >>= after_parse

  unfoldable pub object_load : Bool → List ReadResult → List Object → Run (List Object)
  unfolding load_maps
  object_load opened reads objects =
      object_get_mmap memory opened reads >>= λ maps. load_maps maps objects

-- `object_unload`, with the `object_del` that it calls and the source only declares. Each object loses its breakpoints, its name is
-- freed, and it leaves the list. No object has the name of `pseudo_file_ptr`, which `object_load` does not use.
unfoldable pub object_unload : (Object → Run (Unit {0})) → List Object → Run (List Object)
object_unload object_del [] = ok []
object_unload object_del (curr ∷ rest) =
    let left = object_unload object_del rest in
    object_del (record curr { breakpoint_chain = [] }) >>= λ deleted. left
