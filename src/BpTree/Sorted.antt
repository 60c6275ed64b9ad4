-- ===== src/BpTree/Sorted.antt =====
-- Sorted lists of entries as finite maps from addresses: the specification of the tree.
use atrace.Prelude.{
  ℕ, ◌<◌, ◌≡◌, refl, arith, Option, none, some, List, [], ◌∷◌, ◌++◌, ◌==◌, ltb, if◌then◌else◌,
  Bool-cases, inl, inr, ap, All, All-append, All-append_left, All-append_right, All-imp,
}
use atrace.BpTree.{BpEntry, IsSorted}

-- The entry at an address.
abbrev pub lookup : ℕ → List BpEntry → Option BpEntry
lookup addr [] = none
lookup addr (e ∷ es) = if e.address == addr then some e else lookup addr es

-- Puts an entry in its place; a list that has its address is left as it is.
abbrev pub insert_sorted : BpEntry → List BpEntry → List BpEntry
insert_sorted e [] = e ∷ []
insert_sorted e (f ∷ es) =
    if ltb e.address f.address
    then e ∷ f ∷ es
    else if e.address == f.address
    then f ∷ es
    else f ∷ insert_sorted e es

-- Drops the entry at an address.
abbrev pub remove : ℕ → List BpEntry → List BpEntry
remove addr [] = []
remove addr (e ∷ es) = if e.address == addr then es else e ∷ remove addr es

abbrev pub Below : ℕ → List BpEntry → Type 0
Below a = All (λ e. e.address < a)

abbrev pub Above : ℕ → List BpEntry → Type 0
Above a = All (λ e. a < e.address)

pub lookup-Above : (a : ℕ) (es : List BpEntry) → Above a es → lookup a es ≡ none
lookup-Above a [] h = refl
lookup-Above a (e ∷ es) h = ground (arith, lookup-Above a es h.1)

pub Above-trans : (a b : ℕ) (es : List BpEntry) → a < b → Above b es → Above a es
Above-trans a b es lt h = All-imp (λ e k. omega arith) es h

pub Below-trans : (a b : ℕ) (es : List BpEntry) → a < b → Below a es → Below b es
Below-trans a b es lt h = All-imp (λ e k. omega arith) es h

pub lookup-Below_append :
    (a : ℕ) (es fs : List BpEntry) → Below a es → lookup a (es ++ fs) ≡ lookup a fs
lookup-Below_append a [] fs h = refl
lookup-Below_append a (e ∷ es) fs h = ground (arith, lookup-Below_append a es fs h.1)

pub lookup-append_Above :
    (a : ℕ) (es fs : List BpEntry) → Above a fs → lookup a (es ++ fs) ≡ lookup a es
lookup-append_Above a [] fs h = lookup-Above a fs h
lookup-append_Above a (e ∷ es) fs h = ground (arith, lookup-append_Above a es fs h)

-- A sorted list around one of its entries.
pub IsSorted-around :
    (es : List BpEntry) (e : BpEntry) (fs : List BpEntry)
    → IsSorted (es ++ (e ∷ fs))
    → IsSorted es × Below e.address es × Above e.address fs × IsSorted fs
IsSorted-around [] e fs s = (tt, tt, s.0, s.1)
IsSorted-around (d ∷ es) e fs s =
    let (left, below, above, right) = IsSorted-around es e fs s.1 in
    let first = All-append_right (λ f. d.address < f.address) es (e ∷ fs) s.0 in
    ((All-append_left _ es (e ∷ fs) s.0, left), (first.0, below), above, right)

pub IsSorted-join :
    (es : List BpEntry) (e : BpEntry) (fs : List BpEntry)
    → IsSorted es
    → Below e.address es
    → Above e.address fs
    → IsSorted fs
    → IsSorted (es ++ (e ∷ fs))
IsSorted-join [] e fs s b a t = (a, t)
IsSorted-join (d ∷ es) e fs s b a t = (
  All-append _ es (e ∷ fs) s.0 (b.0, Above-trans d.address e.address fs b.0 a),
  IsSorted-join es e fs s.1 b.1 a t,
)

pub insert_sorted-append_left :
    (e : BpEntry) (es : List BpEntry) (f : BpEntry) (fs : List BpEntry)
    → e.address < f.address
    → insert_sorted e (es ++ (f ∷ fs)) ≡ insert_sorted e es ++ (f ∷ fs)
insert_sorted-append_left e [] f fs h = ground arith
insert_sorted-append_left e (d ∷ es) f fs h = ground (arith, insert_sorted-append_left e es f fs h)

pub insert_sorted-append_right :
    (e : BpEntry) (es : List BpEntry) (f : BpEntry) (fs : List BpEntry)
    → Below e.address es
    → f.address < e.address
    → insert_sorted e (es ++ (f ∷ fs)) ≡ es ++ (f ∷ insert_sorted e fs)
insert_sorted-append_right e [] f fs b h = ground arith
insert_sorted-append_right e (d ∷ es) f fs b h =
    ground (arith, insert_sorted-append_right e es f fs b.1 h)

Above-insert_sorted :
    (a : ℕ) (e : BpEntry) (es : List BpEntry)
    → a < e.address
    → Above a es
    → Above a (insert_sorted e es)
Above-insert_sorted a e [] h s = (h, tt)
Above-insert_sorted a e (f ∷ es) h s = ground (arith, Above-insert_sorted a e es h s.1)

pub insert_sorted-IsSorted :
    (e : BpEntry) (es : List BpEntry) → IsSorted es → IsSorted (insert_sorted e es)
insert_sorted-IsSorted e [] s = (tt, tt)
insert_sorted-IsSorted e (f ∷ es) s = ground (
  arith,
  insert_sorted-IsSorted e es s.1,
  Above-insert_sorted f.address e es,
  Above-trans e.address f.address es,
)

pub lookup-insert_sorted :
    (a : ℕ) (e : BpEntry) (es : List BpEntry)
    → IsSorted es
    → lookup e.address es ≡ none
    → lookup a (insert_sorted e es) ≡ (if e.address == a then some e else lookup a es)
lookup-insert_sorted a e [] s h = refl
lookup-insert_sorted a e (f ∷ es) s h = ground (arith, lookup-insert_sorted a e es s.1)

-- The place of a found entry.
pub lookup_split :
    (a : ℕ) (es : List BpEntry) (e : BpEntry)
    → lookup a es ≡ some e
    → (before after : List BpEntry) × (es ≡ before ++ (e ∷ after)) × (remove a es ≡ before ++ after)
lookup_split a [] e h = cc
lookup_split a (f ∷ es) e h = elim (Bool-cases (f.address == a)) [
  | inl here ↦ ([], es, ground arith, ground arith)
  | inr there ↦
      let (before, after, split, removed) = lookup_split a es e (rw there at h) in
      (f ∷ before, after, ap (◌∷◌ f) split, rw there (ap (◌∷◌ f) removed))
]

Above-remove : (b a : ℕ) (es : List BpEntry) → Above b es → Above b (remove a es)
Above-remove b a [] s = tt
Above-remove b a (f ∷ es) s = ground (arith, Above-remove b a es s.1)

pub remove-IsSorted : (a : ℕ) (es : List BpEntry) → IsSorted es → IsSorted (remove a es)
remove-IsSorted a [] s = tt
remove-IsSorted a (f ∷ es) s =
    ground (arith, remove-IsSorted a es s.1, Above-remove f.address a es s.0)

pub lookup-remove :
    (a b : ℕ) (es : List BpEntry)
    → IsSorted es
    → lookup a (remove b es) ≡ (if b == a then none else lookup a es)
lookup-remove a b [] s = ground arith
lookup-remove a b (f ∷ es) s =
    ground (arith, lookup-remove a b es s.1, lookup-Above f.address es s.0)

pub lookup_address :
    (a : ℕ) (es : List BpEntry) (e : BpEntry) → lookup a es ≡ some e → e.address ≡ a
lookup_address a [] e h = cc
lookup_address a (f ∷ es) e h = ground (arith, lookup_address a es e)
