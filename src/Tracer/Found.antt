-- ===== src/Tracer/Found.antt =====
-- `breakpoint_find` of src/breakpoint.c finds a breakpoint where it was asked for.
use atrace.Prelude.{
  ℕ, ◌≡◌, subst, ◌∙◌, arith, ◌||◌, Option, none, some, List, [], ◌∷◌, ◌==◌, ltb, Bool-cases,
  then_eq, else_eq, inl, inr, ok, bind-eq-ok,
}
use atrace.Breakpoint.{deref}
use atrace.Tracer.{
  TracedBreakpoint, TracedObject, Tracer, find_in_chain, find_in_objects, or_next, breakpoint_find,
  arch_get_breakpoint_pc,
}

-- The breakpoint that a search gives has the address that was searched.
abbrev Stands : ℕ → List TracedBreakpoint → ℕ → Type 0
Stands bp_pc breakpoints p =
    (bp : TracedBreakpoint) × (deref breakpoints p ≡ ok bp) × (bp.address ≡ bp_pc)

find_in_chain-Stands :
    (bp_pc : ℕ) (breakpoints : List TracedBreakpoint) (chain : List ℕ) (p : ℕ)
    → find_in_chain bp_pc breakpoints chain ≡ ok (some p)
    → Stands bp_pc breakpoints p
unfolding find_in_chain
find_in_chain-Stands bp_pc breakpoints [] p h = absurd (ground arith)
find_in_chain-Stands bp_pc breakpoints (q ∷ rest) p h =
    let (bp, d, k) = bind-eq-ok (deref breakpoints q) _ h in
    elim (Bool-cases (bp.address == bp_pc)) [
      | inl here ↦
          let same : q ≡ p = ground arith in
          subst (Stands bp_pc breakpoints) same (bp, d, ground arith)
      | inr there ↦
          find_in_chain-Stands bp_pc breakpoints rest p (else_eq (bp.address == bp_pc) _ there k)
    ]

find_in_objects-Stands :
    (bp_pc : ℕ) (breakpoints : List TracedBreakpoint) (objects : List TracedObject) (p : ℕ)
    → find_in_objects bp_pc breakpoints objects ≡ ok (some p)
    → Stands bp_pc breakpoints p
unfolding find_in_objects
find_in_objects-Stands bp_pc breakpoints [] p h = absurd (ground arith)
find_in_objects-Stands bp_pc breakpoints (curr ∷ rest) p h =
    elim (Bool-cases (ltb bp_pc curr.text_start || ltb curr.text_end bp_pc)) [
      | inl outside ↦ find_in_objects-Stands bp_pc breakpoints rest p (then_eq _ _ outside h)
      | inr inside ↦
          let (found, e, k) =
            bind-eq-ok (find_in_chain bp_pc breakpoints curr.breakpoint_chain) _
              (else_eq _ _ inside h) in
          next found (λ l. find_in_objects-Stands bp_pc breakpoints rest p l) e k
    ]
  where
    next :
        (found : Option ℕ)
        → (find_in_objects bp_pc breakpoints rest ≡ ok (some p) → Stands bp_pc breakpoints p)
        → find_in_chain bp_pc breakpoints curr.breakpoint_chain ≡ ok found
        → or_next found (find_in_objects bp_pc breakpoints rest) ≡ ok (some p)
        → Stands bp_pc breakpoints p
    next (some q) behind e k =
        find_in_chain-Stands bp_pc breakpoints curr.breakpoint_chain p (e ∙ k)
    next none behind e k = behind k

-- A breakpoint that `breakpoint_find` gives stands at the address before the program counter.
pub breakpoint_find-Stands :
    (pc p : ℕ) (s : Tracer)
    → breakpoint_find pc s ≡ ok (some p)
    → (bp : TracedBreakpoint) × (deref s.breakpoints p ≡ ok bp)
      × (bp.address ≡ arch_get_breakpoint_pc pc)
unfolding breakpoint_find
breakpoint_find-Stands pc p s h = elim (Bool-cases (pc == 0)) [
  | inl zero_pc ↦ absurd (ground arith)
  | inr nonzero ↦
      find_in_objects-Stands (arch_get_breakpoint_pc pc) s.breakpoints s.objects p
        (else_eq (pc == 0) _ nonzero h)
]
