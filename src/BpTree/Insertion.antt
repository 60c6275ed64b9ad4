-- ===== src/BpTree/Insertion.antt =====
-- The two ways to insert an entry, against the map from addresses to entries.
use mathlib.Core.Option.{get_or}
use atrace.Prelude.{
  ℕ, ◌≡◌, refl, sym, ap, subst, ◌∙◌, arith, true, false, none, some, ◌∷◌, ◌++◌, ◌==◌, if◌then◌else◌,
  ok, Status, success, minus, Option-cases, inl, inr,
}
use atrace.BpTree.{
  BpEntry, Tree, null, node, inorder, IsSorted, RbOps, with_empty, link, breakpoint_rb_find,
  breakpoint_rb_insert_internal, breakpoint_rb_insert, breakpoint_rb_search_insert,
}
use atrace.BpTree.Sorted.{
  lookup, insert_sorted, Below-trans, IsSorted-around, insert_sorted-append_left,
  insert_sorted-append_right, insert_sorted-IsSorted, lookup-insert_sorted,
}
use atrace.BpTree.Find.{compare_cases, lookup_left, lookup_right, lookup_here, find-lookup}

module _ (rb : RbOps) where
  link-present :
      (e : BpEntry) (t : Tree) (g : BpEntry)
      → IsSorted (inorder t)
      → lookup e.address (inorder t) ≡ some g
      → link rb e t ≡ none
  unfolding link
  link-present e null g s h = cc
  link-present e (node c l f r) g s h =
      let parts = IsSorted-around (inorder l) f (inorder r) s in
      ground (
        arith,
        link-present e l g parts.0,
        link-present e r g parts.3,
        lookup_left e.address (inorder l) f (inorder r) s,
        lookup_right e.address (inorder l) f (inorder r) s,
      )

  -- The link is made in the place that the order asks for.
  link-absent :
      (e : BpEntry) (t : Tree)
      → IsSorted (inorder t)
      → lookup e.address (inorder t) ≡ none
      → (t' : Tree) × (link rb e t ≡ some t')
        × (inorder t' ≡ insert_sorted (with_empty false e) (inorder t))
  unfolding link
  link-absent e null s h = (rb.rb_link_node (with_empty false e), refl, rw rb.rb_link_node_lem)
  link-absent e (node c l f r) s h =
      let parts = IsSorted-around (inorder l) f (inorder r) s in
      elim (compare_cases e.address f.address) [
        | inl lt ↦
            let (l', linked, order) =
              link-absent e l parts.0
                (sym (lookup_left e.address (inorder l) f (inorder r) s lt) ∙ h) in
            (
              node c l' f r,
              ground arith,
              ap (λ es. es ++ (f ∷ inorder r)) order
                  ∙ sym
                      (insert_sorted-append_left (with_empty false e) (inorder l) f (inorder r) lt),
            )
        | inr (inl same) ↦
            absurd (cc (sym (lookup_here e.address (inorder l) f (inorder r) s same) ∙ h))
        | inr (inr gt) ↦
            let (r', linked, order) =
              link-absent e r parts.3
                (sym (lookup_right e.address (inorder l) f (inorder r) s gt) ∙ h) in
            (
              node c l f r',
              ground arith,
              ap (λ es. inorder l ++ (f ∷ es)) order
                  ∙ sym (
                      insert_sorted-append_right (with_empty false e) (inorder l) f (inorder r)
                        (Below-trans f.address e.address (inorder l) gt parts.1) gt),
            )
      ]

  insert-absent :
      (e : BpEntry) (t : Tree)
      → IsSorted (inorder t)
      → e.rb_empty ≡ true
      → lookup e.address (inorder t) ≡ none
      → (t' : Tree) × (breakpoint_rb_insert_internal rb e t ≡ ok (t', success))
        × (inorder t' ≡ insert_sorted (with_empty false e) (inorder t))
  unfolding breakpoint_rb_insert_internal
  insert-absent e t s empty h =
      let (t', linked, order) = link-absent e t s h in
      (
        rb.rb_insert_color (with_empty false e) t',
        simp (empty, linked),
        rb.inorder-rb_insert_color (with_empty false e) t' ∙ order,
      )

  insert-present :
      (e f : BpEntry) (t : Tree)
      → IsSorted (inorder t)
      → e.rb_empty ≡ true
      → lookup e.address (inorder t) ≡ some f
      → breakpoint_rb_insert_internal rb e t ≡ ok (t, minus 1)
  unfolding breakpoint_rb_insert_internal
  insert-present e f t s empty h = simp (empty, link-present e t f s h)

  search_insert-absent :
      (e : BpEntry) (t t' : Tree)
      → IsSorted (inorder t)
      → lookup e.address (inorder t) ≡ none
      → breakpoint_rb_insert_internal rb e t ≡ ok (t', success)
      → breakpoint_rb_search_insert rb e t ≡ ok (t', success)
  unfolding breakpoint_rb_search_insert
  search_insert-absent e t t' s absent done =
      rw (breakpoint_rb_search_insert, find-lookup t e.address s, absent, done)

  search_insert-present :
      (e f : BpEntry) (t : Tree)
      → IsSorted (inorder t)
      → lookup e.address (inorder t) ≡ some f
      → breakpoint_rb_search_insert rb e t ≡ ok (t, minus 1)
  unfolding breakpoint_rb_search_insert
  search_insert-present e f t s present =
      rw (breakpoint_rb_search_insert, find-lookup t e.address s, present)

  -- The two ways to insert agree on a search tree and an entry that is in no tree: the search
  -- that `breakpoint_rb_search_insert` makes first changes neither the tree nor the status.
  pub search_insert-eq-insert :
      (e : BpEntry) (t : Tree)
      → IsSorted (inorder t)
      → e.rb_empty ≡ true
      → breakpoint_rb_search_insert rb e t ≡ breakpoint_rb_insert rb e t
  unfolding breakpoint_rb_insert
  search_insert-eq-insert e t s empty = elim (Option-cases (lookup e.address (inorder t))) [
    | inl absent ↦
        let (t', done, _) = insert-absent e t s empty absent in
        search_insert-absent e t t' s absent done ∙ sym done
    | inr (f, present) ↦
        search_insert-present e f t s present ∙ sym (insert-present e f t s empty present)
  ]

  -- `breakpoint_rb_search_insert` on a search tree, whatever the rebalancing does: it returns, the
  -- tree stays a search tree, the new entry is found at its address unless one was there before, in
  -- which case that one stays; every other address reads as before. The status is 0 if the
  -- address was free and -1 if not.
  pub search_insert_refines :
      (e : BpEntry) (t : Tree)
      → IsSorted (inorder t)
      → e.rb_empty ≡ true
      → (result : Tree × Status) × (breakpoint_rb_search_insert rb e t ≡ ok result)
        × IsSorted (inorder result.0)
        × ((addr : ℕ)
            → breakpoint_rb_find result.0 addr ≡ (
                if e.address == addr
                then some (get_or (breakpoint_rb_find t addr) (with_empty false e))
                else breakpoint_rb_find t addr))
        × (result.1 ≡ (elim (breakpoint_rb_find t e.address) [ none ↦ success | some _ ↦ minus 1 ]))
  unfolding breakpoint_rb_find
  search_insert_refines e t s empty = elim (Option-cases (lookup e.address (inorder t))) [
    | inl absent ↦
        let (t', done, order) = insert-absent e t s empty absent in
        let sorted =
          subst IsSorted (sym order) (insert_sorted-IsSorted (with_empty false e) (inorder t) s) in
        (
          (t', success),
          search_insert-absent e t t' s absent done,
          sorted,
          λ addr. ground (
            arith,
            find-lookup t' addr sorted,
            ap (lookup addr) order,
            lookup-insert_sorted addr (with_empty false e) (inorder t) s absent,
            find-lookup t addr s,
          ),
          rw (find-lookup t e.address s, absent),
        )
    | inr (f, present) ↦ (
      (t, minus 1),
      search_insert-present e f t s present,
      s,
      λ addr. ground (arith, find-lookup t addr s, find-lookup t e.address s),
      rw (find-lookup t e.address s, present),
    )
  ]
