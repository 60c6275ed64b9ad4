-- ===== src/Object/Entry/Elf64.antt =====
-- The entry point of an ELF file of 64 bits, as the program reads it through the header of 32 bits.
use atrace.Prelude.{
  ℕ, zero, suc, ◌+◌, ◌/◌, ◌%◌, ◌^◌, ◌≡◌, refl, ap, ◌∙◌, arith, true, some, List, [], ◌∷◌, ◌++◌, ◌≢◌,
  ◌<◌, All, length, ok, ◌>>=◌,
}
use atrace.Object.{Text, Object, object_get_by_file}
use atrace.Object.Entry.{
  Files, path_size, entry_in, entry_of, terminated, skip, little_endian, object_get_self_exe,
  object_get_exe_entrypoint, object_get_self_entrypoint,
}

-- The bytes of a number of `n` bytes, the lowest first.
abbrev pub bytes_of : ℕ → ℕ → Text
bytes_of zero v = []
bytes_of (suc n) v = v % 256 ∷ bytes_of n (v / 256)

-- 16 bytes of identification, then type, machine and version in 8, and the entry point in 8 bytes.
abbrev pub elf64 : ℕ → Text → Text → Text
elf64 entry middle rest = 0x7f ∷ b'E' ∷ b'L' ∷ b'F' ∷ (middle ++ (bytes_of 8 entry ++ rest))

skip-append : (n : ℕ) (xs ys : Text) → length xs ≡ n → skip n (xs ++ ys) ≡ ys
unfolding skip
skip-append zero [] ys h = refl
skip-append (suc n) [] ys h = absurd (omega arith)
skip-append zero (x ∷ xs) ys h = absurd (omega arith)
skip-append (suc n) (x ∷ xs) ys h = skip-append n xs ys (omega arith)

low_half :
    (entry : ℕ) (rest : Text) → little_endian 4 (bytes_of 8 entry ++ rest) ≡ some (entry % 2 ^ 32)
unfolding little_endian
low_half entry rest = ap some (omega arith)

-- Of the entry point in the header of an ELF file of 64 bits, `object_get_exe_entrypoint` returns the
-- lower 32 bits, where the file can be read and there is memory for a header.
pub object_get_exe_entrypoint-elf64 :
    (files : Files) (name : Text) (entry : ℕ) (middle rest : Text)
    → files.contents name ≡ some (elf64 entry middle rest)
    → files.malloc_header ≡ true
    → length middle ≡ 20
    → object_get_exe_entrypoint files name ≡ ok (entry % 2 ^ 32)
unfolding object_get_exe_entrypoint skip
object_get_exe_entrypoint-elf64 files name entry middle rest h mem width =
    rw
      (
        object_get_exe_entrypoint,
        h,
        mem,
        skip-append 20 middle (bytes_of 8 entry ++ rest) width,
        low_half entry rest,
      )
      refl

terminated_lem : (n : ℕ) (xs : Text) → length xs < n → All (λ x. x ≢ 0) xs → terminated n xs ≡ ok xs
unfolding terminated
terminated_lem zero xs short h = elim short [ ]
terminated_lem (suc n) [] short h = refl
terminated_lem (suc n) (x ∷ xs) short h = rw (terminated_lem n xs (omega arith) h.1) (ground arith)

-- Where the path of the program fits its buffer with room for the NUL, the allocations find memory, and the object
-- of that path is found, `object_get_self_entrypoint` returns the start of that object plus the lower
-- 32 bits of the entry point in its 64-bit header, modulo 2 ^ 64.
pub object_get_self_entrypoint-elf64 :
    (files : Files) (objects : List Object) (path : Text) (self_obj : Object) (entry : ℕ)
    (middle rest : Text)
    → files.readlink ≡ some path
    → length path < path_size
    → All (λ x. x ≢ 0) path
    → files.malloc_path ≡ true
    → files.strdup ≡ true
    → object_get_by_file path objects ≡ some self_obj
    → files.contents path ≡ some (elf64 entry middle rest)
    → files.malloc_header ≡ true
    → length middle ≡ 20
    → object_get_self_entrypoint files objects
      ≡ ok ((self_obj.text_start + entry % 2 ^ 32) % 2 ^ 64)
unfolding object_get_self_entrypoint object_get_self_exe
object_get_self_entrypoint-elf64 files objects path self_obj entry middle rest r short h mp sd found
      file mem width =
    let exe : object_get_self_exe files ≡ ok (some path) =
      rw (object_get_self_exe, mp, r, terminated_lem path_size path short h, sd) refl in
    ap (λ e. e >>= entry_of files objects) exe
    ∙ ap (entry_in files path) found
    ∙ rw (object_get_exe_entrypoint-elf64 files path entry middle rest file mem width) refl
