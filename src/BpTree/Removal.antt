-- ===== src/BpTree/Removal.antt =====
-- The removal of an address, against the map from addresses to entries.
use mathlib.Core.Option.{get_or}
use mathlib.Core.Option
use atrace.Prelude.{
  ℕ, ◌≡◌, sym, ap, subst, ◌∙◌, arith, true, none, some, ◌==◌, if◌then◌else◌, Option-cases, inl, inr,
}
use atrace.BpTree.{
  BpEntry, Tree, inorder, IsSorted, RbOps, with_empty, breakpoint_rb_find,
  breakpoint_rb_delete_internal, breakpoint_rb_delete,
}
use atrace.BpTree.Sorted.{lookup, remove, lookup_split, remove-IsSorted, lookup-remove}
use atrace.BpTree.Find.{find-lookup}

module _ (rb : RbOps) where
  delete-absent :
      (addr : ℕ) (t : Tree)
      → IsSorted (inorder t)
      → lookup addr (inorder t) ≡ none
      → breakpoint_rb_delete rb addr t ≡ (t, none)
  unfolding breakpoint_rb_delete breakpoint_rb_delete_internal
  delete-absent addr t s absent =
      rw (breakpoint_rb_delete, breakpoint_rb_delete_internal, find-lookup t addr s, absent)

  delete-present :
      (addr : ℕ) (f : BpEntry) (t : Tree)
      → IsSorted (inorder t)
      → lookup addr (inorder t) ≡ some f
      → breakpoint_rb_delete rb addr t ≡ (rb.rb_erase f t, some (with_empty true f))
  unfolding breakpoint_rb_delete breakpoint_rb_delete_internal
  delete-present addr f t s present =
      rw (breakpoint_rb_delete, breakpoint_rb_delete_internal, find-lookup t addr s, present)

  inorder-erase :
      (addr : ℕ) (f : BpEntry) (t : Tree)
      → IsSorted (inorder t)
      → lookup addr (inorder t) ≡ some f
      → inorder (rb.rb_erase f t) ≡ remove addr (inorder t)
  inorder-erase addr f t s present =
      let (before, after, split, removed) = lookup_split addr (inorder t) f present in
      rb.inorder-rb_erase f t before after split s ∙ sym removed

  -- `breakpoint_rb_delete` on a search tree, whatever the rebalancing does: it returns the entry
  -- at the address, cleared, or NULL if there is none; the tree stays a search tree, the address
  -- is free in it, and every other address reads as before.
  pub delete_refines :
      (addr : ℕ) (t : Tree)
      → IsSorted (inorder t)
      → let result = breakpoint_rb_delete rb addr t in
        (result.1 ≡ Option.map (with_empty true) (breakpoint_rb_find t addr))
        × IsSorted (inorder result.0)
        × ((a : ℕ)
            → breakpoint_rb_find result.0 a ≡ (if addr == a then none else breakpoint_rb_find t a))
  unfolding breakpoint_rb_find
  delete_refines addr t s = elim (Option-cases (lookup addr (inorder t))) [
    | inl absent ↦ rw (delete-absent addr t s absent) (
      rw (find-lookup t addr s, absent),
      s,
      λ a. ground (arith, find-lookup t a s, find-lookup t addr s),
    )
    | inr (f, present) ↦
        let order = inorder-erase addr f t s present in
        let sorted = subst IsSorted (sym order) (remove-IsSorted addr (inorder t) s) in
        rw (delete-present addr f t s present) (
          rw (find-lookup t addr s, present),
          sorted,
          λ a. ground (
            arith,
            find-lookup (rb.rb_erase f t) a sorted,
            ap (lookup a) order,
            lookup-remove a addr (inorder t) s,
            find-lookup t a s,
          ),
        )
  ]
