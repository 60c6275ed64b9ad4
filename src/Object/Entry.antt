-- ===== src/Object/Entry.antt =====
-- signal_test/object.c: the path of the running program, and the entry point that its ELF header names.
pub mod Elf64
use atrace.Prelude.{
  ℕ, zero, suc, ◌+◌, ◌*◌, ◌%◌, ◌^◌, ◌≤◌, ◌<◌, ◌≡◌, refl, sym, ap, ◌∙◌, arith, Bool, true, false,
  ◌&&◌, not, Option, none, some, List, [], ◌∷◌, ◌==◌, ltb, if◌then◌else◌, Bool-cases, inl, inr,
  get_or, get_elem?, length, Run, ok, fault, Fault, ◌>>=◌,
}
use atrace.Object.{Text, Object, object_get_by_file, object_get_by_address, strcmp_eq}

-- What the kernel and the C library answer: `readlink` on /proc/self/exe, with the first bytes of a
-- file that can be opened, and whether the allocations find memory.
pub record Files : Type 0 where
  pub readlink : Option Text
  pub contents : Text → Option Text
  pub malloc_path : Bool
  pub malloc_header : Bool
  pub strdup : Bool

-- The bytes of a buffer up to its first NUL, from `n` on: `strdup` reads past the buffer where there is none.
unfoldable pub terminated : ℕ → Text → Run Text
terminated zero xs = fault Fault.out_of_bounds
terminated (suc room) [] = ok []
terminated (suc room) (x ∷ xs) =
    let rest = terminated room xs in if x == 0 then ok [] else (rest >>= λ t. ok (x ∷ t))

abbrev pub path_size : ℕ
path_size = 4096

-- `object_get_self_exe`. The buffer is cleared first, and `readlink` writes at most its size and no NUL.
unfoldable pub object_get_self_exe : Files → Run (Option Text)
object_get_self_exe files = if not files.malloc_path then ok none else elim files.readlink [
  | none ↦ ok none
  | some path ↦ terminated path_size path >>= λ t. ok (if files.strdup then some t else none)
]

-- `sizeof(Elf32_Ehdr)`, and the place of `e_entry` in it.
abbrev pub ehdr_size : ℕ
ehdr_size = 52

abbrev pub e_entry_offset : ℕ
e_entry_offset = 24

-- The text from a place on.
unfoldable pub skip : ℕ → Text → Text
skip zero file = file
skip (suc n) [] = []
skip (suc n) (x ∷ xs) = skip n xs

abbrev and_low : ℕ → Option ℕ → Option ℕ
and_low b none = none
and_low b (some rest) = some (b + 256 * rest)

-- `n` bytes as a number, the lowest first; a byte that `fread` did not reach is none.
unfoldable pub little_endian : ℕ → Text → Option ℕ
little_endian zero file = some 0
little_endian (suc n) [] = none
little_endian (suc n) (b ∷ file) = and_low b (little_endian n file)

-- `e_ident`: 0x7f and `ELF`.
abbrev pub is_elf : Text → Bool
is_elf (a ∷ b ∷ c ∷ d ∷ rest) = a == 0x7f && (b == b'E' && (c == b'L' && d == b'F'))
is_elf _ = false

-- `object_get_exe_entrypoint`, which gives 0 where it fails. The result of `fread` is dropped, and what it did not
-- read of the header is not initialized: a file with the magic but no whole entry is a fault.
unfoldable pub object_get_exe_entrypoint : Files → Text → Run ℕ
object_get_exe_entrypoint files name = elim (files.contents name) [
  | none ↦ ok 0
  | some file ↦
      if not files.malloc_header
      then ok 0
      else if not (is_elf file)
      then ok 0
      else elim (little_endian 4 (skip e_entry_offset file)) [
        | none ↦ fault Fault.out_of_bounds
        | some e ↦ ok e
      ]
]

abbrev pub entry_in : Files → Text → Option Object → Run ℕ
entry_in files path none = ok 0
entry_in files path (some self_obj) = object_get_exe_entrypoint files path >>= λ ep_addr.
    ok ((self_obj.text_start + ep_addr) % 2 ^ 64)

abbrev pub entry_of : Files → List Object → Option Text → Run ℕ
entry_of files objects none = ok 0
entry_of files objects (some path) = entry_in files path (object_get_by_file path objects)

-- `object_get_self_entrypoint`: the address wraps at 64 bits.
unfoldable pub object_get_self_entrypoint : Files → List Object → Run ℕ
object_get_self_entrypoint files objects = object_get_self_exe files >>= entry_of files objects
