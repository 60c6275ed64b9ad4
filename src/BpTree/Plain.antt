-- ===== src/BpTree/Plain.antt =====
-- Operations that do what the interface of rbtree.c asks, with no rebalancing: for tests.
use atrace.Prelude.{◌≡◌, refl, ap, ◌∙◌, arith, List, [], ◌∷◌, ◌++◌}
use atrace.BpTree.{BpEntry, Tree, null, node, red, inorder, IsSorted, RbOps}
use atrace.BpTree.Sorted.{Below, remove, IsSorted-around}

abbrev pub of_list : List BpEntry → Tree
of_list [] = null
of_list (e ∷ es) = node red null e (of_list es)

inorder-of_list : (es : List BpEntry) → inorder (of_list es) ≡ es
inorder-of_list [] = refl
inorder-of_list (e ∷ es) = ap (◌∷◌ e) (inorder-of_list es)

remove_middle :
    (before : List BpEntry) (e : BpEntry) (after : List BpEntry)
    → Below e.address before
    → remove e.address (before ++ (e ∷ after)) ≡ before ++ after
remove_middle [] e after h = ground arith
remove_middle (f ∷ before) e after h = ground (arith, remove_middle before e after h.1)

pub inorder-plain_erase :
    (e : BpEntry) (t : Tree) (before after : List BpEntry)
    → inorder t ≡ before ++ (e ∷ after)
    → IsSorted (inorder t)
    → inorder (of_list (remove e.address (inorder t))) ≡ before ++ after
inorder-plain_erase e t before after split s =
    inorder-of_list _
    ∙ ap (remove e.address) split
    ∙ remove_middle before e after (IsSorted-around before e after (rw split at s)).1

abbrev pub plain_rb : RbOps
plain_rb = record {
  rb_link_node = λ e. node red null e null;
  rb_insert_color = λ e t. t;
  rb_erase = λ e t. of_list (remove e.address (inorder t));
  rb_link_node_lem = λ e. refl;
  inorder-rb_insert_color = λ e t. refl;
  inorder-rb_erase = inorder-plain_erase;
}
