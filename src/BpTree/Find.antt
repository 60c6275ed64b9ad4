-- ===== src/BpTree/Find.antt =====
-- The descent against the lookup of an address in the entries in order.
use atrace.Prelude.{ℕ, ◌<◌, ◌≡◌, refl, ◌∙◌, arith, some, List, ◌∷◌, ◌++◌, ◌⊎◌}
use atrace.BpTree.{BpEntry, Tree, null, node, inorder, IsSorted, breakpoint_rb_find_internal}
use atrace.BpTree.Sorted.{
  lookup, Above-trans, Below-trans, lookup-Below_append, lookup-append_Above, IsSorted-around,
}

pub compare_cases : (a b : ℕ) → (a < b) ⊎ (a ≡ b) ⊎ (b < a)
compare_cases a b = ground arith

pub lookup_left :
    (addr : ℕ) (es : List BpEntry) (e : BpEntry) (fs : List BpEntry)
    → IsSorted (es ++ (e ∷ fs))
    → addr < e.address
    → lookup addr (es ++ (e ∷ fs)) ≡ lookup addr es
lookup_left addr es e fs s h =
    let parts = IsSorted-around es e fs s in
    lookup-append_Above addr es (e ∷ fs) (h, Above-trans addr e.address fs h parts.2)

pub lookup_right :
    (addr : ℕ) (es : List BpEntry) (e : BpEntry) (fs : List BpEntry)
    → IsSorted (es ++ (e ∷ fs))
    → e.address < addr
    → lookup addr (es ++ (e ∷ fs)) ≡ lookup addr fs
lookup_right addr es e fs s h =
    let parts = IsSorted-around es e fs s in
    lookup-Below_append addr es (e ∷ fs) (Below-trans e.address addr es h parts.1) ∙ ground arith

pub lookup_here :
    (addr : ℕ) (es : List BpEntry) (e : BpEntry) (fs : List BpEntry)
    → IsSorted (es ++ (e ∷ fs))
    → addr ≡ e.address
    → lookup addr (es ++ (e ∷ fs)) ≡ some e
lookup_here addr es e fs s h =
    let parts = IsSorted-around es e fs s in
    rw h (lookup-Below_append e.address es (e ∷ fs) parts.1 ∙ ground arith)

-- In a search tree, however it is balanced, the descent finds the entry of an address exactly
-- when the tree has one.
pub find-lookup :
    (t : Tree) (addr : ℕ)
    → IsSorted (inorder t)
    → breakpoint_rb_find_internal t addr ≡ lookup addr (inorder t)
unfolding breakpoint_rb_find_internal
find-lookup null addr s = refl
find-lookup (node c l e r) addr s =
    let parts = IsSorted-around (inorder l) e (inorder r) s in
    ground (
      arith,
      find-lookup l addr parts.0,
      find-lookup r addr parts.3,
      lookup_left addr (inorder l) e (inorder r) s,
      lookup_right addr (inorder l) e (inorder r) s,
      lookup_here addr (inorder l) e (inorder r) s,
    )
