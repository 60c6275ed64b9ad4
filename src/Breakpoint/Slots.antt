-- ===== src/Breakpoint/Slots.antt =====
-- Which breakpoint of signal_test/breakpoint.c has which slot: what holds of the slots of added breakpoints, and that stores and
-- changes of the sets keep it.
use atrace.Prelude.{
  ℕ, ◌<◌, ◌≡◌, ◌≢◌, ◌⊎◌, inl, inr, sym, ap, subst, ◌∙◌, true, false, some, List, map, length, set,
  All, ok, ok_inj, ℕ_discrete,
}
use atrace.Slot.{slot_num, SlotSet, PageSource}
use atrace.Slot.Scan.{IsPool, free_at}
use atrace.Breakpoint.{Breakpoint, deref}
use atrace.Breakpoint.Patch.{deref-set}
use atrace.Breakpoint.Consistent.{deref-set_ne}

abbrev pub ptrs : List SlotSet → List ℕ
ptrs = map (λ s. s.ptr)

-- An added breakpoint that has the slot `j` of the set at `q`.
pub record Owns (b : Breakpoint) (q j : ℕ) : Type 0 where
  pub added : b.chained ≡ true
  pub of : b.slot_set ≡ some q
  pub index : b.slot_index ≡ j

-- A slot of a set that is marked as taken.
abbrev pub IsTaken : List SlotSet → ℕ → ℕ → Type 0
IsTaken sets q j = (j < slot_num) × (free_at sets q j ≡ false)

pub record Slots (source : PageSource) (breakpoints : List Breakpoint) (sets : List SlotSet)
    : Type 0 where
  pub pool : IsPool sets
  pub given : All (λ q. (k : ℕ) × (k < length sets) × (source.calloc k ≡ some q)) (ptrs sets)
  -- A breakpoint that has a slot, or had one that was given back, is in the tree.
  pub in_tree :
      (p : ℕ) (b : Breakpoint) (q : ℕ)
      → deref breakpoints p ≡ ok b
      → b.slot_set ≡ some q
      → b.bp_enter.rb_empty ≡ false
  pub taken :
      (p : ℕ) (b : Breakpoint) (q j : ℕ)
      → deref breakpoints p ≡ ok b
      → Owns b q j
      → IsTaken sets q j
  -- No two added breakpoints have one slot.
  pub apart :
      (p r : ℕ) (b c : Breakpoint) (q j : ℕ)
      → deref breakpoints p ≡ ok b
      → deref breakpoints r ≡ ok c
      → Owns b q j
      → Owns c q j
      → p ≡ r

-- What is found behind a store.
pub stored_cases :
    (bs : List Breakpoint) (p j : ℕ) (b c d : Breakpoint)
    → deref bs p ≡ ok b
    → deref (set bs p c) j ≡ ok d
    → ((j ≡ p) × (c ≡ d)) ⊎ ((j ≢ p) × (deref bs j ≡ ok d))
stored_cases bs p j b c d held e = elim (ℕ_discrete j p) [
  | yes same ↦
      inl (
        same,
        ok_inj (sym (deref-set bs p c held) ∙ subst (λ k. deref (set bs p c) k ≡ ok d) same e),
      )
  | no ne ↦ inr (ne, sym (deref-set_ne bs p j c ne) ∙ e)
]

module _ (source : PageSource) (bs : List Breakpoint) (sets : List SlotSet)
    (s : Slots source bs sets) where
  -- A store of a breakpoint whose slot, if it was added, is taken and no other added breakpoint has.
  pub Slots-set :
      (p : ℕ) (b c : Breakpoint)
      → deref bs p ≡ ok b
      → ((q : ℕ) → c.slot_set ≡ some q → c.bp_enter.rb_empty ≡ false)
      → ((q j : ℕ) → Owns c q j → IsTaken sets q j)
      → ((r : ℕ) (d : Breakpoint) (q j : ℕ) → deref bs r ≡ ok d → Owns d q j → Owns c q j → r ≡ p)
      → Slots source (set bs p c) sets
  Slots-set p b c held tree own other = record {
    pool = s.pool;
    given = s.given;
    in_tree = λ j d q e has. elim (stored_cases bs p j b c d held e) [
      | inl (_, same) ↦
          subst (λ (x : Breakpoint). x.bp_enter.rb_empty ≡ false) same
            (tree q (ap (λ x. x.slot_set) same ∙ has))
      | inr (_, old) ↦ s.in_tree j d q old has
    ];
    taken = λ j d q k e has. elim (stored_cases bs p j b c d held e) [
      | inl (_, same) ↦ own q k (subst (λ (x : Breakpoint). Owns x q k) (sym same) has)
      | inr (_, old) ↦ s.taken j d q k old has
    ];
    apart = λ j r d f q k e g has has'. elim (stored_cases bs p j b c d held e) [
      | inl (at, same) ↦ elim (stored_cases bs p r b c f held g) [
        | inl (at', _) ↦ at ∙ sym at'
        | inr (_, old') ↦
            at
            ∙ sym (other r f q k old' has' (subst (λ (x : Breakpoint). Owns x q k) (sym same) has))
      ]
      | inr (_, old) ↦ elim (stored_cases bs p r b c f held g) [
        | inl (at', same') ↦
            other j d q k old has (subst (λ (x : Breakpoint). Owns x q k) (sym same') has')
            ∙ sym at'
        | inr (_, old') ↦ s.apart j r d f q k old old' has has'
      ]
    ];
  }

  -- The sets change, and what is taken stays taken.
  pub Slots-sets :
      (sets' : List SlotSet)
      → IsPool sets'
      → All (λ q. (k : ℕ) × (k < length sets') × (source.calloc k ≡ some q)) (ptrs sets')
      → ((p : ℕ) (b : Breakpoint) (q j : ℕ)
          → deref bs p ≡ ok b
          → Owns b q j
          → free_at sets' q j ≡ false)
      → Slots source bs sets'
  Slots-sets sets' pool given taken = record {
    pool = pool;
    given = given;
    in_tree = s.in_tree;
    taken = λ p b q j e has. ((s.taken p b q j e has).0, taken p b q j e has);
    apart = s.apart;
  }
