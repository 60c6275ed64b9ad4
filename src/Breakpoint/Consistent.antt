-- ===== src/Breakpoint/Consistent.antt =====
-- What holds of breakpoints, tree and slots of signal_test/breakpoint.c together, and that each change keeps it.
use mathlib.Core.Option.{get_or}
use atrace.Prelude.{
  ℕ, zero, suc, ◌<◌, ◌≡◌, refl, ◌≢◌, sym, ap, subst, ◌∙◌, ◌⊎◌, inl, inr, arith, Bool, true, false,
  Option, none, some, List, [], ◌∷◌, ◌++◌, ◌==◌, if◌then◌else◌, Bool-cases, length, length-set, set,
  ok, fault, assertion, ◌>>=◌, ok_inj, Status, success, minus, ℕ_discrete,
}
use atrace.BpTree.{
  BpEntry, Tree, RbOps, IsSorted, inorder, breakpoint_rb_find, breakpoint_rb_find_internal,
  breakpoint_rb_insert_internal, breakpoint_rb_search_insert, with_empty,
}
use atrace.BpTree.Insertion.{search_insert_refines}
use atrace.Slot.{SlotSet}
use atrace.Breakpoint.{Breakpoint, deref, find_set}
use atrace.Breakpoint.Patch.{deref-set}

-- Every entry of the search tree points to one of the first `n` breakpoints.
pub record TreeInv (n : ℕ) (t : Tree) : Type 0 where
  pub sorted : IsSorted (inorder t)
  pub back : (addr : ℕ) (f : BpEntry) → breakpoint_rb_find t addr ≡ some f → f.bkpt < n

-- The entries of the breakpoint `p` point back to it, and its slot is in a set that exists.
pub record BkptInv (sets : List SlotSet) (p : ℕ) (b : Breakpoint) : Type 0 where
  pub enter : b.bp_enter.bkpt ≡ p
  pub return : b.bp_return.bkpt ≡ p
  pub slots : (q : ℕ) → b.slot_set ≡ some q → (s : SlotSet) × (find_set q sets ≡ ok s)

pub record Consistent (t : Tree) (breakpoints : List Breakpoint) (sets : List SlotSet)
    : Type 0 where
  pub tree : TreeInv (length breakpoints) t
  pub each : (p : ℕ) (b : Breakpoint) → deref breakpoints p ≡ ok b → BkptInv sets p b

-- Every set that is found in the one list is found in the other.
abbrev pub Grows : List SlotSet → List SlotSet → Type 0
Grows sets sets' =
    (q : ℕ) (s : SlotSet) → find_set q sets ≡ ok s → (s' : SlotSet) × (find_set q sets' ≡ ok s')

pub deref-lt : (xs : List Breakpoint) (p : ℕ) (b : Breakpoint) → deref xs p ≡ ok b → p < length xs
deref-lt [] p b h = absurd (ground arith)
deref-lt (x ∷ xs) zero b h = omega arith
deref-lt (x ∷ xs) (suc p) b h = omega (arith, deref-lt xs p b h)

pub lt-deref :
    (xs : List Breakpoint) (p : ℕ) → p < length xs → (b : Breakpoint) × (deref xs p ≡ ok b)
lt-deref [] p h = elim h [ ]
lt-deref (x ∷ xs) zero h = (x, refl)
lt-deref (x ∷ xs) (suc p) h = lt-deref xs p (omega arith)

pub deref-set_ne :
    (xs : List Breakpoint) (p j : ℕ) (v : Breakpoint) → j ≢ p → deref (set xs p v) j ≡ deref xs j
deref-set_ne [] p j v h = refl
deref-set_ne (x ∷ xs) zero zero v h = absurd (h refl)
deref-set_ne (x ∷ xs) zero (suc j) v h = refl
deref-set_ne (x ∷ xs) (suc p) zero v h = refl
deref-set_ne (x ∷ xs) (suc p) (suc j) v h = deref-set_ne xs p j v (λ e. h (ap suc e))

pub deref-snoc :
    (xs : List Breakpoint) (y b : Breakpoint) (p : ℕ)
    → deref (xs ++ y ∷ []) p ≡ ok b
    → (deref xs p ≡ ok b) ⊎ ((p ≡ length xs) × (b ≡ y))
deref-snoc [] y b zero h = inr (refl, sym (ok_inj h))
deref-snoc [] y b (suc p) h = absurd (ground arith)
deref-snoc (x ∷ xs) y b zero h = inl h
deref-snoc (x ∷ xs) y b (suc p) h = elim (deref-snoc xs y b p h) [
  | inl there ↦ inl there
  | inr (e, same) ↦ inr (ap suc e, same)
]

module _ (t : Tree) (breakpoints : List Breakpoint) (sets : List SlotSet)
    (c : Consistent t breakpoints sets) where
  -- A store into the breakpoint `p`.
  pub Consistent-set :
      (p : ℕ) (old b : Breakpoint)
      → deref breakpoints p ≡ ok old
      → BkptInv sets p b
      → Consistent t (set breakpoints p b) sets
  Consistent-set p old b held v = record {
    tree = subst (λ (n : ℕ). TreeInv n t) (sym (length-set breakpoints p b)) c.tree;
    each = λ j a e. elim (ℕ_discrete j p) [
      | yes same ↦
          let its : b ≡ a = ok_inj (
            sym (deref-set breakpoints p b held)
            ∙ subst (λ k. deref (set breakpoints p b) k ≡ ok a) same e) in
          subst (λ (k : ℕ). BkptInv sets k a) (sym same) (subst (BkptInv sets p) its v)
      | no ne ↦ c.each j a (sym (deref-set_ne breakpoints p j b ne) ∙ e)
    ];
  }

  pub Consistent-tree :
      (t' : Tree) → TreeInv (length breakpoints) t' → Consistent t' breakpoints sets
  Consistent-tree t' i = record { tree = i; each = c.each }

  pub Consistent-sets : (sets' : List SlotSet) → Grows sets sets' → Consistent t breakpoints sets'
  Consistent-sets sets' g = record {
    tree = c.tree;
    each = λ p b e.
        let i = c.each p b e in
        record {
          enter = i.enter;
          return = i.return;
          slots = λ q has. let (s, held) = i.slots q has in g q s held;
        };
  }

points-old-new :
    (n : ℕ) (e f : BpEntry) (here : Bool) (before : Option BpEntry)
    → e.bkpt < n
    → ((g : BpEntry) → before ≡ some g → g.bkpt < n)
    → (if here then some (get_or before (with_empty false e)) else before) ≡ some f
    → f.bkpt < n
points-old-new n e f true none lt old h = ground arith
points-old-new n e f true (some g) lt old h = old f h
points-old-new n e f false before lt old h = old f h

module _ (rb : RbOps) where
  -- An entry that is in a tree is not inserted.
  search_insert_linked :
      (e : BpEntry) (t : Tree) (r : Tree × Status)
      → e.rb_empty ≡ false
      → breakpoint_rb_search_insert rb e t ≡ ok r
      → r ≡ (t, minus 1)
  unfolding breakpoint_rb_search_insert breakpoint_rb_insert_internal
  search_insert_linked e t r linked h = go (breakpoint_rb_find_internal t e.address) h
    where
      no_insert : breakpoint_rb_insert_internal rb e t ≡ fault assertion
      no_insert = rw (breakpoint_rb_insert_internal, linked) refl

      go :
          (exist : Option BpEntry)
          → (elim exist [
            | some f ↦ ok (t, minus 1)
            | none ↦ breakpoint_rb_insert_internal rb e t >>= λ inserted. ok (inserted.0, success)
          ])
            ≡ ok r
          → r ≡ (t, minus 1)
      go (some f) k = sym (ok_inj k)
      go none k =
          absurd (
            ground
              (arith, sym (ap (λ m. m >>= λ inserted. ok (inserted.0, success)) no_insert) ∙ k))

  pub search_insert_unlinked :
      (e : BpEntry) (t t' : Tree)
      → breakpoint_rb_search_insert rb e t ≡ ok (t', success)
      → e.rb_empty ≡ true
  search_insert_unlinked e t t' h = elim (Bool-cases e.rb_empty) [
    | inl empty ↦ empty
    | inr linked ↦
        let refused =
          ap (λ (r : Tree × Status). r.1) (search_insert_linked e t (t', success) linked h) in
        absurd (ground arith)
  ]

  -- An entry of one of the first `n` breakpoints is inserted, or refused.
  pub search_insert-TreeInv :
      (n : ℕ) (e : BpEntry) (t : Tree) (r : Tree × Status)
      → e.bkpt < n
      → TreeInv n t
      → breakpoint_rb_search_insert rb e t ≡ ok r
      → TreeInv n r.0
  search_insert-TreeInv n e t r lt i h = elim (Bool-cases e.rb_empty) [
    | inl empty ↦
        let (r', done, sorted, finds, _) = search_insert_refines rb e t i.sorted empty in
        subst (λ (x : Tree × Status). TreeInv n x.0) (ok_inj (sym done ∙ h))
          (record {
            sorted = sorted;
            back = λ addr f k.
                points-old-new n e f (e.address == addr) (breakpoint_rb_find t addr) lt
                  (i.back addr) (sym (finds addr) ∙ k);
          })
    | inr linked ↦
        subst (λ (x : Tree × Status). TreeInv n x.0) (sym (search_insert_linked e t r linked h)) i
  ]
