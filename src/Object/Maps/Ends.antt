-- ===== src/Object/Maps/Ends.antt =====
-- The parsing loop always ends: its fuel, one more than the bytes of the text, is never used up.
use atrace.Prelude.{
  ℕ, zero, suc, ◌≤◌, ◌<◌, ◌≢◌, arith, Bool, List, [], ◌∷◌, ◌==◌, Bool-cases, inl, inr, length, Run,
  ok, fault, Fault, ◌>>=◌, minus,
}
use atrace.Linux.{ListOps}
use atrace.Object.{Text, Object, object_new}
use atrace.Object.Parse.{
  Parse, got, null, crash, until, skip_spaces, step, strndup, ◌>>=◌ as then_parse,
}
use atrace.Object.Hex.{hex_to_int}
use atrace.Object.Line.{
  split_dash, hex_or_null, parse_mmap_range, parse_mmap_attr, parse_mmap_inode, parse_mmap_file,
  Region, parse_file_part, parse_line,
}
use atrace.Object.Maps.{Memory, add_region, parse_loop, object_parse_mmap}

-- A parser gives only values with `P`, and no fault of the model's own.
abbrev Safe {ℓ} : {A : Type ℓ} → (A → Type 0) → Parse A → Type 0
Safe P (got a) = P a
Safe P null = Unit
Safe P (crash e) = e ≢ Fault.out_of_fuel

Safe-bind :
    {A B : Type 0} (P : A → Type 0) (Q : B → Type 0) (m : Parse A) (f : A → Parse B)
    → Safe P m
    → ((a : A) → P a → Safe Q (f a))
    → Safe Q (then_parse m f)
Safe-bind P Q (got a) f h k = k a h
Safe-bind P Q null f h k = tt
Safe-bind P Q (crash e) f h k = h

-- Nothing is said of a value.
Any : {A : Type 0} → A → Type 0
Any a = Unit {0}

-- The text behind the values is shorter than `n`.
abbrev Leaves : {A : Type 0} → ℕ → A × Text → Type 0
Leaves n r = length r.1 < n

abbrev Stops : ℕ → Text × Text → Type 0
Stops n p = (length p.1 < n) × (suc (length (step p.1)) < n)

until-Safe : (c n : ℕ) (xs : Text) → length xs < n → Safe (Stops n) (until c xs)
unfolding until
until-Safe c n [] h = ground arith
until-Safe c n (x ∷ xs) h = elim (Bool-cases (x == c)) [
  | inl here ↦ rw here (h, h)
  | inr later ↦
      rw later
        (Safe-bind (Stops n) (Stops n) (until c xs) _ (until-Safe c n xs (omega arith)) (λ p k. k))
]

skip_spaces-le : (xs : Text) → length (skip_spaces xs) ≤ length xs
unfolding skip_spaces
skip_spaces-le [] = omega arith
skip_spaces-le (x ∷ xs) = ground (arith, skip_spaces-le xs)

hex_or_null-Safe : (str : Text) → Safe Any (hex_or_null str)
unfolding hex_or_null hex_to_int Any
hex_or_null-Safe [] = ground arith
hex_or_null-Safe (c ∷ cs) = ground arith

module _ (memory : Text → Bool) where
  strndup-Safe : (p str : Text) → Safe Any (strndup memory p str)
  unfolding strndup Any
  strndup-Safe p str = elim (Bool-cases (memory p)) [ inl e ↦ rw e tt | inr e ↦ rw e tt ]

  range-Safe :
      (n : ℕ) (mmap : Text) → length mmap < n → Safe (Leaves n) (parse_mmap_range memory mmap)
  unfolding parse_mmap_range
  range-Safe n mmap h =
      Safe-bind (Stops n) (Leaves n) (until b' ' mmap) _ (until-Safe b' ' n mmap h) λ p k.
        Safe-bind Any (Leaves n) (strndup memory mmap p.0) _ (strndup-Safe mmap p.0) λ str _.
          Safe-bind Any (Leaves n) (hex_or_null (split_dash str).0) _ (hex_or_null-Safe _)
            λ start _.
              Safe-bind Any (Leaves n) (hex_or_null (split_dash str).1) _ (hex_or_null-Safe _)
                λ end _. omega arith

  attr-Safe :
      (n : ℕ) (mmap : Text) → length mmap < n → Safe (Leaves n) (parse_mmap_attr memory mmap)
  unfolding parse_mmap_attr
  attr-Safe n mmap h =
      Safe-bind (Stops n) (Leaves n) (until b' ' mmap) _ (until-Safe b' ' n mmap h) λ p k.
        Safe-bind Any (Leaves n) (strndup memory mmap p.0) _ (strndup-Safe mmap p.0)
          λ str _. omega arith

  inode-Safe :
      (n : ℕ) (mmap : Text) → length mmap < n → Safe (Leaves n) (parse_mmap_inode memory mmap)
  unfolding parse_mmap_inode
  inode-Safe n mmap h =
      Safe-bind (Stops n) (Leaves n) (until b' ' mmap) _ (until-Safe b' ' n mmap h) λ o k.
        Safe-bind (Stops n) (Leaves n) (until b' ' (step o.1)) _
          (until-Safe b' ' n (step o.1) (omega arith))
          λ d j.
            Safe-bind (Stops n) (Leaves n) (until b' ' (step d.1)) _
              (until-Safe b' ' n (step d.1) (omega arith))
              λ p i.
                Safe-bind Any (Leaves n) (strndup memory (step d.1) p.0) _
                  (strndup-Safe (step d.1) p.0) λ str _. omega (arith, skip_spaces-le p.1)

  file-Safe :
      (n inode : ℕ) (mmap : Text)
      → length mmap < n
      → Safe (λ r. suc (length (step r.1)) < n) (parse_file_part memory inode mmap)
  unfolding parse_file_part parse_mmap_file
  file-Safe n inode mmap h = elim (Bool-cases (inode == 0)) [
    | inl e ↦ rw e (
        Safe-bind (Stops n) (λ r. suc (length (step r.1)) < n) (until b'\n' mmap) _
          (until-Safe b'\n' n mmap h) (λ p k. k.1))
    | inr e ↦ rw e (
        Safe-bind (λ r. suc (length (step r.1)) < n) (λ r. suc (length (step r.1)) < n)
          (parse_mmap_file memory mmap) _
          (Safe-bind (Stops n) (λ r. suc (length (step r.1)) < n) (until b'\n' mmap) _
            (until-Safe b'\n' n mmap h)
            (λ p k.
              Safe-bind Any (λ r. suc (length (step r.1)) < n) (strndup memory mmap p.0) _
                (strndup-Safe mmap p.0) (λ str _. k.1)))
          (λ r k. k))
  ]

  parse_line-Safe :
      (n : ℕ) (mmap : Text) → length mmap < suc n → Safe (Leaves n) (parse_line memory mmap)
  unfolding parse_line
  parse_line-Safe n mmap h =
      Safe-bind (Leaves (suc n)) (Leaves n) (parse_mmap_range memory mmap) _
        (range-Safe (suc n) mmap h)
        λ range k.
          Safe-bind (Leaves (suc n)) (Leaves n) (parse_mmap_attr memory range.1) _
            (attr-Safe (suc n) range.1 k)
            λ attr j.
              Safe-bind (Leaves (suc n)) (Leaves n) (parse_mmap_inode memory attr.1) _
                (inode-Safe (suc n) attr.1 j)
                λ inode i.
                  Safe-bind (λ r. suc (length (step r.1)) < suc n) (Leaves n)
                    (parse_file_part memory inode.0 inode.1) _ (file-Safe (suc n) inode.0 inode.1 i)
                    λ file m. omega arith

module _ (lists : ListOps Object) (memory : Memory) (self : ℕ) where
  add_region_ends :
      (objects : List Object) (r : Region)
      → add_region lists memory self objects r ≢ fault Fault.out_of_fuel
  unfolding add_region object_new
  add_region_ends objects r = ground arith

  added_ends :
      (fuel : ℕ) (rest : Text) (m : Run (List Object))
      → ((more : List Object)
          → parse_loop lists memory self fuel rest more ≢ fault Fault.out_of_fuel)
      → m ≢ fault Fault.out_of_fuel
      → (m >>= λ more. parse_loop lists memory self fuel rest more) ≢ fault Fault.out_of_fuel
  added_ends fuel rest (ok more) next ends = next more
  added_ends fuel rest (fault e) next ends = λ p. ends (ground arith)

  turn_ends :
      (fuel : ℕ) (objects : List Object)
      → ((rest : Text) (more : List Object)
          → length rest < fuel
          → parse_loop lists memory self fuel rest more ≢ fault Fault.out_of_fuel)
      → (m : Parse (Region × Text)) → Safe (Leaves fuel) m
      → elim m [
        | null ↦ ok (objects, minus 1)
        | crash e ↦ fault e
        | got (r, rest) ↦ add_region lists memory self objects r >>= λ more.
            parse_loop lists memory self fuel rest more
      ]
        ≢ fault Fault.out_of_fuel
  turn_ends fuel objects next null s = ground arith
  turn_ends fuel objects next (crash e) s = λ p. s (ground arith)
  turn_ends fuel objects next (got (r, rest)) s =
      added_ends fuel rest (add_region lists memory self objects r) (λ more. next rest more s)
        (add_region_ends objects r)

  parse_loop_ends :
      (fuel : ℕ) (mmap : Text) (objects : List Object)
      → length mmap < fuel
      → parse_loop lists memory self fuel mmap objects ≢ fault Fault.out_of_fuel
  unfolding parse_loop
  parse_loop_ends zero mmap objects h = ground arith
  parse_loop_ends (suc fuel) [] objects h = ground arith
  parse_loop_ends (suc fuel) (c ∷ cs) objects h =
      turn_ends fuel objects (λ rest more short. parse_loop_ends fuel rest more short)
        (parse_line memory.strndup (c ∷ cs)) (parse_line-Safe memory.strndup fuel (c ∷ cs) h)

  -- The parsing of any text, printed by the kernel or not, with memory or without, comes to an end:
  -- the fuel of `object_parse_mmap`, one more than the bytes of the text, is never used up.
  pub object_parse_mmap_ends :
      (mmap : Text) (objects : List Object)
      → object_parse_mmap lists memory self mmap objects ≢ fault Fault.out_of_fuel
  unfolding object_parse_mmap
  object_parse_mmap_ends mmap objects =
      parse_loop_ends (suc (length mmap)) mmap objects (omega arith)
