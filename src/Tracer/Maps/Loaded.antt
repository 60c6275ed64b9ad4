-- ===== src/Tracer/Maps/Loaded.antt =====
-- object_load of src/object.c on the pieces of /proc/<pid>/maps that `read` gives.
use atrace.Prelude.{
  map, ℕ, zero, suc, ◌≡◌, refl, sym, ap, ◌∙◌, arith, Bool, true, not, ◌&&◌, some, List, [], ◌∷◌,
  ◌++◌, ◌==◌, if◌then◌else◌, Bool-cases, inl, inr, length, ◌<◌, ok, ◌>>=◌, success,
}
use atrace.Object.Ranges.{listed}
use atrace.Linux.{ListOps}
use atrace.Object.{Text}
use atrace.Object.Line.Printed.{parse_line-print_line}
use atrace.Object.Line.Printing.{Entry, IsLine, inode32, region_of}
use atrace.Object.Maps.{Memory}
use atrace.Object.Maps.Printed.{
  Line, print_file, first_address, last_address, executable_bit, length-print_line,
}
use atrace.Object.Maps.Load.{results, joined, read_loop-joined}
use atrace.Tracer.{TracedObject}
use atrace.Tracer.Maps.{
  exists, pseudo_file, fill, add_region, parse_loop, object_parse_mmap, object_get_mmap, loaded,
  load_maps, object_load,
}

-- The object that a line describes.
abbrev pub described : Line → TracedObject
described (e, l) = record {
  file_name = if inode32 e == 0 then pseudo_file else e.name;
  text_start = first_address (e, l);
  text_end = last_address (e, l);
  breakpoint_chain = [];
}

-- The ranges of the listed objects.
abbrev pub ranges : List TracedObject → List (ℕ × ℕ)
ranges = map (λ o. (o.text_start, o.text_end))

exists-listed :
    (start end : ℕ) (objects : List TracedObject)
    → exists start end objects ≡ listed (start, end) (ranges objects)
unfolding exists
exists-listed start end [] = refl
exists-listed start end (curr ∷ rest) = ground (arith, exists-listed start end rest)

-- Is the line registered: a mapping that may be executed, and not yet in the list?
abbrev pub is_new : Line → List TracedObject → Bool
is_new (e, l) objects =
    e.executable && not (listed (first_address (e, l), last_address (e, l)) (ranges objects))

-- The list after a file, line by line.
abbrev pub register : List Line → List TracedObject → List TracedObject
register [] objects = objects
register (line ∷ lines) objects =
    register lines (if is_new line objects then objects ++ described line ∷ [] else objects)

fill-described : (e : Entry) (l : IsLine e) → fill (region_of e l) ≡ described (e, l)
fill-described e l = elim (Bool-cases (inode32 e == 0)) [
  | inl anonymous ↦ rw anonymous refl
  | inr mapped ↦ rw mapped refl
]

module _ (lists : ListOps TracedObject) (memory : Memory)
    (enough : (p : Text) → memory.strndup p ≡ true)
    (calloc_enough : (n : ℕ) → memory.calloc n ≡ true) where
  add_region-register :
      (e : Entry) (l : IsLine e) (objects : List TracedObject)
      → add_region lists memory objects (region_of e l)
        ≡ some (if is_new (e, l) objects then objects ++ described (e, l) ∷ [] else objects)
  unfolding add_region
  add_region-register e l objects =
      let known = exists-listed (first_address (e, l)) (last_address (e, l)) objects in
      elim (Bool-cases e.executable) [
        | inl x ↦
            elim (Bool-cases
              (listed (first_address (e, l), last_address (e, l)) (ranges objects))) [
                | inl old ↦ rw (add_region, executable_bit e, x, known, old) refl
                | inr new ↦
                    rw
                      (
                        add_region,
                        executable_bit e ∙ ap not x,
                        known,
                        new,
                        calloc_enough,
                        lists.list_add_tail_lem,
                      )
                      (ap (λ (o : TracedObject). some (objects ++ o ∷ [])) (fill-described e l)
                        ∙ ap
                            (λ (b : Bool).
                              some (if b then objects ++ described (e, l) ∷ [] else objects))
                            (sym (ap (λ b. b && true) x)))
              ]
        | inr x ↦ rw (add_region, executable_bit e, x) refl
      ]

  parse_loop-register :
      (fuel : ℕ) (lines : List Line) (objects : List TracedObject)
      → length (print_file lines) < fuel
      → parse_loop lists memory fuel (print_file lines) objects
        ≡ ok (register lines objects, success)
  unfolding parse_loop
  parse_loop-register zero lines objects h = ground arith
  parse_loop-register (suc fuel) [] objects h = refl
  parse_loop-register (suc fuel) ((e, l) ∷ lines) objects h =
      rw
        (
          parse_loop,
          parse_line-print_line memory.strndup enough e l (print_file lines),
          add_region-register e l objects,
        )
        (parse_loop-register fuel lines _ (omega (arith, length-print_line e (print_file lines))))

  -- Where the file can be opened and memory is found, object_load returns 0, however read cuts a file as
  -- the kernel prints it into pieces: its executable lines that are not in the list with the same range are
  -- registered in order, each with its addresses, and with its name or, where the inode is 0 in 32 bits, as a pseudo file.
  pub object_load-described :
      (lines : List Line) (pieces : List (ℕ × Text)) (objects : List TracedObject)
      → ((n : ℕ) → memory.realloc n ≡ true)
      → joined pieces ≡ print_file lines
      → object_load lists memory true (results pieces) objects
        ≡ ok (register lines objects, success)
  unfolding object_load object_get_mmap object_parse_mmap
  object_load-described lines pieces objects r cut =
      ap (λ m. m >>= λ maps. load_maps lists memory objects maps)
        (read_loop-joined memory r [] pieces)
      ∙ ap (λ t. object_parse_mmap lists memory t objects >>= λ p. ok (loaded p)) cut
      ∙ ap (λ m. m >>= λ p. ok (loaded p))
          (parse_loop-register (suc (length (print_file lines))) lines objects (omega arith))
