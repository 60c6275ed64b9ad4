-- ===== src/Object/Maps/Unique.antt =====
-- What the loop of `object_parse_mmap` keeps of the list, whatever the text: no two objects with the same range, and
-- the objects that were there before.
use atrace.Prelude.{
  ℕ, zero, suc, ◌≡◌, ◌≢◌, refl, sym, ap, subst, ◌∙◌, arith, Bool, true, false, ◌&&◌, List, [], ◌∷◌,
  ◌++◌, append-nil, append_assoc, ◌==◌, length, leb, Bool-cases, inl, inr, bit_and, bit_or, ok,
  fault, ◌>>=◌, bind-eq-ok, Status, minus, All, All-append,
}
use atrace.Prelude.Bits.{bit-bit_or, test_bit-bit}
use atrace.Linux.{ListOps}
use atrace.Object.{
  Text, Object, obj_attr_flag_execute, obj_attr_flag_no_bkpt, object_attr_flag, cleared, object_new,
}
use atrace.Object.Parse.{Parse, got, null, crash}
use atrace.Object.Line.{Region, parse_line}
use atrace.Object.Maps.{Memory, exists, fill, add_region, parse_loop, object_parse_mmap}

-- Two objects that do not have both ends in common.
abbrev pub Differ : Object → Object → Type 0
Differ o u = u.text_start ≡ o.text_start → u.text_end ≢ o.text_end

-- No range is listed twice.
abbrev pub IsUnique : List Object → Type 0
IsUnique [] = Unit
IsUnique (o ∷ os) = All (Differ o) os × IsUnique os

-- An object as the loop adds it: no breakpoints, and breakpoints are forbidden in the range that holds the library.
abbrev pub IsLoaded : ℕ → Object → Type 0
IsLoaded self o =
    (o.breakpoint_chain ≡ [])
    × (leb o.text_start self && leb self o.text_end ≡ true
        → object_attr_flag obj_attr_flag_no_bkpt o ≡ true)

-- The list after is the list before with loaded objects behind it, and still without repetition.
abbrev pub Extends : ℕ → List Object → List Object → Type 0
Extends self before after =
    (added : List Object) × (after ≡ before ++ added) × All (IsLoaded self) added × IsUnique after

Extends-refl : (self : ℕ) (objects : List Object) → IsUnique objects → Extends self objects objects
Extends-refl self objects u = ([], sym (append-nil objects), tt, u)

Extends-trans :
    (self : ℕ) (xs ys zs : List Object)
    → Extends self xs ys
    → Extends self ys zs
    → Extends self xs zs
Extends-trans self xs ys zs (a, p, l, u) (b, q, m, v) =
    (a ++ b, q ∙ ap (λ t. t ++ b) p ∙ append_assoc xs a b, All-append (IsLoaded self) a b l m, v)

exists-Differ :
    (x : Object) (xs : List Object)
    → exists x.text_start x.text_end xs ≡ false
    → All (λ o. Differ o x) xs
unfolding exists
exists-Differ x [] h = tt
exists-Differ x (o ∷ xs) h = (λ start end. ground arith, exists-Differ x xs (ground arith))

IsUnique-snoc :
    (xs : List Object) (x : Object)
    → IsUnique xs
    → All (λ o. Differ o x) xs
    → IsUnique (xs ++ x ∷ [])
IsUnique-snoc [] x u h = (tt, tt)
IsUnique-snoc (o ∷ xs) x u h =
    (All-append (Differ o) xs (x ∷ []) u.0 (h.0, tt), IsUnique-snoc xs x u.1 h.1)

module _ (lists : ListOps Object) (memory : Memory) (self : ℕ) where
  fill-IsLoaded :
      (r : Region) (o : Object) → o.breakpoint_chain ≡ [] → IsLoaded self (fill self r o)
  unfolding object_attr_flag
  fill-IsLoaded r o h = elim (Bool-cases (leb r.start self && leb self r.end)) [
    | inl inside ↦ rw inside (
      h,
      λ p. test_bit-bit (bit_or r.attr 16) 4 (omega arith) ∙ bit-bit_or 4 r.attr 16 ∙ ground arith,
    )
    | inr outside ↦ rw outside (h, λ p. ground arith)
  ]

  fill_range :
      (r : Region) (o : Object)
      → exists (fill self r o).text_start (fill self r o).text_end ≡ exists r.start r.end
  fill_range r o = elim (Bool-cases (leb r.start self && leb self r.end)) [
    | inl inside ↦ rw inside refl
    | inr outside ↦ rw outside refl
  ]

  appended :
      (objects more : List Object) (r : Region)
      → IsUnique objects
      → exists r.start r.end objects ≡ false
      → (b : Bool)
      → (object_new b >>= λ obj. ok (lists.list_add_tail (fill self r obj) objects)) ≡ ok more
      → Extends self objects more
  unfolding object_new
  appended objects more r u g false h = cc
  appended objects more r u g true h =
      let o = fill self r cleared in
      let p : more ≡ objects ++ o ∷ [] = ground (arith, lists.list_add_tail_lem o objects) in
      (
        o ∷ [],
        p,
        (fill-IsLoaded r cleared refl, tt),
        subst IsUnique (sym p) (
            IsUnique-snoc objects o u
              (exists-Differ o objects (ap (λ f. f objects) (fill_range r cleared) ∙ g))),
      )

  add_region-Extends :
      (objects more : List Object) (r : Region)
      → IsUnique objects
      → add_region lists memory self objects r ≡ ok more
      → Extends self objects more
  unfolding add_region object_new
  add_region-Extends objects more r u h =
      let same : objects ≡ more → Extends self objects more =
        λ p. subst (Extends self objects) p (Extends-refl self objects u) in
      elim (Bool-cases (r.inode == 0)) [
        | inl e ↦ same (ground arith)
        | inr e ↦ elim (Bool-cases (bit_and r.attr obj_attr_flag_execute == 0)) [
          | inl f ↦ same (ground arith)
          | inr f ↦ elim (Bool-cases (exists r.start r.end objects)) [
            | inl g ↦ same (ground arith)
            | inr g ↦ appended objects more r u g (memory.calloc (length objects)) (ground arith)
          ]
        ]
      ]

  -- One turn, for the parsed line.
  turn-Extends :
      (fuel : ℕ) (objects after : List Object) (status : Status)
      → IsUnique objects
      → ((rest : Text) (more : List Object)
          → IsUnique more
          → parse_loop lists memory self fuel rest more ≡ ok (after, status)
          → Extends self more after)
      → (m : Parse (Region × Text))
      → elim m [
        | null ↦ ok (objects, minus 1)
        | crash e ↦ fault e
        | got (r, rest) ↦ add_region lists memory self objects r >>= λ more.
            parse_loop lists memory self fuel rest more
      ]
        ≡ ok (after, status)
      → Extends self objects after
  turn-Extends fuel objects after status u next null h =
      subst (Extends self objects) (ground arith) (Extends-refl self objects u)
  turn-Extends fuel objects after status u next (crash e) h = cc
  turn-Extends fuel objects after status u next (got (r, rest)) h =
      let (more, p, q) = bind-eq-ok (add_region lists memory self objects r) _ h in
      let one = add_region-Extends objects more r u p in
      Extends-trans self objects more after one (next rest more one.3 q)

  parse_loop-Extends :
      (fuel : ℕ) (mmap : Text) (objects after : List Object) (status : Status)
      → IsUnique objects
      → parse_loop lists memory self fuel mmap objects ≡ ok (after, status)
      → Extends self objects after
  unfolding parse_loop
  parse_loop-Extends zero mmap objects after status u h = cc
  parse_loop-Extends (suc fuel) [] objects after status u h =
      subst (Extends self objects) (ground arith) (Extends-refl self objects u)
  parse_loop-Extends (suc fuel) (c ∷ cs) objects after status u h =
      turn-Extends fuel objects after status u
        (λ rest more v k. parse_loop-Extends fuel rest more after status v k)
        (parse_line memory.strndup (c ∷ cs)) h

  -- If no two objects of a list have both ends in common and the parsing of any text returns, whatever the
  -- status, the list after it is the list before with new objects behind it, and still no two have both ends
  -- in common; the new objects have no breakpoints, and have NO_BKPT where the parser itself lies in their
  -- range.
  pub object_parse_mmap-Extends :
      (mmap : Text) (objects after : List Object) (status : Status)
      → IsUnique objects
      → object_parse_mmap lists memory self mmap objects ≡ ok (after, status)
      → Extends self objects after
  unfolding object_parse_mmap
  object_parse_mmap-Extends mmap objects after status u h =
      parse_loop-Extends (suc (length mmap)) mmap objects after status u h
