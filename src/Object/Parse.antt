-- ===== src/Object/Parse.antt =====
-- How a parsing function of object.c ends: with a value and the pointer behind it, with NULL, or
-- with a fault. Also the loops over a text that the functions share.
use atrace.Prelude.{ℕ, Bool, [], ◌∷◌, ◌==◌, if◌then◌else◌, Fault}
use atrace.Object.{Text}

pub data Parse {ℓ} (A : Type ℓ) : Type ℓ where
  got : A → Parse A
  null : Parse A
  crash : Fault → Parse A

infixl 5 ◌>>=◌ ◌>>◌
abbrev pub ◌>>=◌ {ℓ κ} : {A : Type ℓ} {B : Type κ} → Parse A → (A → Parse B) → Parse B
got a >>= f = f a
null >>= f = null
crash e >>= f = crash e

abbrev pub ◌>>◌ {ℓ} : {B : Type ℓ} → Parse (Unit {0}) → Parse B → Parse B
m >> k = m >>= λ _. k

abbrev add_byte : ℕ → Text × Text → Text × Text
add_byte c (passed, rest) = (c ∷ passed, rest)

-- `for(; mmap[end_pos] != c; end_pos++);`: the bytes passed, and those from the first `c` on. The NUL
-- is no stop, so a text with no `c` is read beyond its end.
unfoldable pub until : ℕ → Text → Parse (Text × Text)
until c [] = crash Fault.out_of_bounds
until c (x ∷ xs) =
    let rest = until c xs in
    if x == c then got ([], x ∷ xs) else rest >>= λ found. got (add_byte x found)

-- `for(; mmap[end_pos] == ' '; end_pos++);`
unfoldable pub skip_spaces : Text → Text
skip_spaces [] = []
skip_spaces (x ∷ xs) = if x == b' ' then skip_spaces xs else x ∷ xs

-- The pointer one further.
abbrev pub step : Text → Text
step [] = []
step (x ∷ xs) = xs

-- `strndup`, which finds memory at some calls and not at others: a call is known by its pointer.
unfoldable pub strndup : (Text → Bool) → Text → Text → Parse Text
strndup memory mmap str = if memory mmap then got str else null
