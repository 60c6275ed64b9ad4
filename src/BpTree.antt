-- ===== src/BpTree.antt =====
-- signal_test/breakpoint.c, the tree of breakpoint entries: search, insertion and removal. The
-- descents are the program's own; linking, recolouring and unlinking are those of rbtree.c, which
-- stand as an interface.
pub mod Sorted
pub mod Find
pub mod Insertion
pub mod Removal
pub mod Plain
mod Examples
use atrace.Prelude.{
  ℕ, ◌<◌, ◌≡◌, Bool, true, false, Option, none, some, List, [], ◌∷◌, ◌++◌, ltb, if◌then◌else◌, Run,
  ok, fault, check, ◌>>=◌, ◌>>◌, Status, success, minus, All,
}

-- `struct bp_entry`. `bkpt` points to the breakpoint that holds the entry. `rb_empty` is
-- `RB_EMPTY_NODE` of its node, which holds while the node is in no tree.
pub record BpEntry : Type 0 where
  pub address : ℕ
  pub bkpt : ℕ
  pub rb_empty : Bool

pub data Color : Type 0 where
  red black : Color

-- A node with the entry around it, and NULL. Parent pointers are the way down to a node.
pub data Tree : Type 0 where
  null : Tree
  node : Color → Tree → BpEntry → Tree → Tree

-- The entries in the order of `rb_first` and `rb_next`.
abbrev pub inorder : Tree → List BpEntry
inorder null = []
inorder (node c l e r) = inorder l ++ (e ∷ inorder r)

-- Strictly ascending addresses.
abbrev pub IsSorted : List BpEntry → Type 0
IsSorted [] = Unit
IsSorted (e ∷ es) = All (λ f. e.address < f.address) es × IsSorted es

-- What breakpoint.c calls in rbtree.h and rbtree.c. `rb_link_node` makes the new node a red one with no
-- children, where the descent ended; `rb_insert_color` rebalances and keeps the order; `rb_erase`
-- takes one node out of a search tree and keeps the order of the others.
pub record RbOps : Type 0 where
  pub rb_link_node : BpEntry → Tree
  pub rb_insert_color : BpEntry → Tree → Tree
  pub rb_erase : BpEntry → Tree → Tree
  pub rb_link_node_lem : (e : BpEntry) → rb_link_node e ≡ node red null e null
  pub inorder-rb_insert_color : (e : BpEntry) (t : Tree) → inorder (rb_insert_color e t) ≡ inorder t
  pub inorder-rb_erase :
      (e : BpEntry) (t : Tree) (before after : List BpEntry)
      → inorder t ≡ before ++ (e ∷ after)
      → IsSorted (inorder t)
      → inorder (rb_erase e t) ≡ before ++ after

unfoldable pub breakpoint_rb_find_internal : Tree → ℕ → Option BpEntry
breakpoint_rb_find_internal null addr = none
breakpoint_rb_find_internal (node c l bp r) addr =
    let left = breakpoint_rb_find_internal l addr in
    let right = breakpoint_rb_find_internal r addr in
    if ltb addr bp.address then left else if ltb bp.address addr then right else some bp

unfoldable pub breakpoint_rb_find : Tree → ℕ → Option BpEntry
breakpoint_rb_find t addr = breakpoint_rb_find_internal t addr

-- `RB_CLEAR_NODE`, and its opposite when a node is linked.
abbrev pub with_empty : Bool → BpEntry → BpEntry
with_empty b e = record e { rb_empty = b }

module _ (rb : RbOps) where
  -- The descent of `breakpoint_rb_insert_internal`, with the link that ends it; `none` if the
  -- address is met on the way.
  unfoldable pub link : BpEntry → Tree → Option Tree
  link entry null = some (rb.rb_link_node (with_empty false entry))
  link entry (node c l bp r) =
      let left = link entry l in
      let right = link entry r in
      if ltb entry.address bp.address
      then elim left [ none ↦ none | some l' ↦ some (node c l' bp r) ]
      else if ltb bp.address entry.address
      then elim right [ none ↦ none | some r' ↦ some (node c l bp r') ]
      else none

  -- The tree after the call, and the status.
  unfoldable pub breakpoint_rb_insert_internal : BpEntry → Tree → Run (Tree × Status)
  breakpoint_rb_insert_internal entry t = do
    check entry.rb_empty
    elim (link entry t) [
      | none ↦ ok (t, minus 1)
      | some t' ↦ ok (rb.rb_insert_color (with_empty false entry) t', success)
    ]

  unfoldable pub breakpoint_rb_insert : BpEntry → Tree → Run (Tree × Status)
  breakpoint_rb_insert entry t = breakpoint_rb_insert_internal entry t

  unfoldable pub breakpoint_rb_search_insert : BpEntry → Tree → Run (Tree × Status)
  breakpoint_rb_search_insert entry t = elim (breakpoint_rb_find_internal t entry.address) [
    | some exist ↦ ok (t, minus 1)
    | none ↦ breakpoint_rb_insert_internal entry t >>= λ inserted. ok (inserted.0, success)
  ]

  -- The tree after the call, and the entry that was taken out, cleared.
  unfoldable pub breakpoint_rb_delete_internal : ℕ → Tree → Tree × Option BpEntry
  breakpoint_rb_delete_internal addr t = elim (breakpoint_rb_find_internal t addr) [
    | none ↦ (t, none)
    | some bp ↦ (rb.rb_erase bp t, some (with_empty true bp))
  ]

  unfoldable pub breakpoint_rb_delete : ℕ → Tree → Tree × Option BpEntry
  breakpoint_rb_delete addr t = breakpoint_rb_delete_internal addr t
