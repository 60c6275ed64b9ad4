-- ===== src/Object/Maps/Load.antt =====
-- `object_load` on the pieces of /proc/self/maps that `read` gives.
use atrace.Prelude.{
  ℕ, ◌+◌, ◌≡◌, sym, ap, ◌∙◌, true, some, List, [], ◌∷◌, ◌++◌, append-nil, append_assoc, length, ok,
  ◌>>=◌,
}
use atrace.Linux.{ListOps}
use atrace.Object.{Text, Object}
use atrace.Object.Maps.{
  Memory, ReadResult, bytes, eof, read_loop, object_get_mmap, object_parse_mmap, after_parse,
  load_maps, object_load,
}
use atrace.Object.Maps.Printed.{Line, print_file, register, object_parse_mmap-register}

-- Pieces of one or more bytes, and the end of the file behind them.
abbrev pub results : List (ℕ × Text) → List ReadResult
results [] = eof ∷ []
results ((b, bs) ∷ pieces) = bytes b bs ∷ results pieces

abbrev pub joined : List (ℕ × Text) → Text
joined [] = []
joined ((b, bs) ∷ pieces) = (b ∷ bs) ++ joined pieces

module _ (memory : Memory) (enough : (n : ℕ) → memory.realloc n ≡ true) where
  pub read_loop-joined :
      (mmap_buf : Text) (pieces : List (ℕ × Text))
      → read_loop memory mmap_buf (results pieces) ≡ ok (some (mmap_buf ++ joined pieces))
  unfolding read_loop
  read_loop-joined mmap_buf [] =
      rw (enough (length mmap_buf + 1)) (ap (λ (t : Text). ok (some t)) (sym (append-nil mmap_buf)))
  read_loop-joined mmap_buf ((b, bs) ∷ pieces) = rw (enough (length (mmap_buf ++ (b ∷ bs)) + 1)) (
      read_loop-joined (mmap_buf ++ (b ∷ bs)) pieces
      ∙ ap (λ (t : Text). ok (some t)) (append_assoc mmap_buf (b ∷ bs) (joined pieces)))

-- Where the file can be opened and memory is found, `object_load` returns, however `read` cuts a file
-- as the kernel prints it into pieces: the lines of the file are registered.
pub object_load-register :
    (lists : ListOps Object) (memory : Memory) (self : ℕ) (lines : List Line)
    (pieces : List (ℕ × Text)) (objects : List Object)
    → ((p : Text) → memory.strndup p ≡ true)
    → ((n : ℕ) → memory.calloc n ≡ true)
    → ((n : ℕ) → memory.realloc n ≡ true)
    → joined pieces ≡ print_file lines
    → object_load lists memory self true (results pieces) objects ≡ ok (register self lines objects)
unfolding object_load object_get_mmap load_maps
object_load-register lists memory self lines pieces objects s c r cut =
    ap (λ m. m >>= λ maps. load_maps lists memory self maps objects)
      (read_loop-joined memory r [] pieces)
    ∙ ap (λ t. object_parse_mmap lists memory self t objects >>= after_parse) cut
    ∙ ap (λ m. m >>= after_parse) (object_parse_mmap-register lists memory self s c lines objects)
