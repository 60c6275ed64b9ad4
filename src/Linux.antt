-- ===== src/Linux.antt =====
-- The two copies of Linux kernel code that the program keeps (include/list.h, signal_test/list.h,
-- signal_test/rbtree.h and rbtree.c), as interfaces: what the program calls, with what it relies on.
-- A chain of `struct list_head` stands as the list of its entries, in the order in which
-- `list_for_each_entry` visits them.
use atrace.Prelude.{◌≡◌, refl, List, [], ◌∷◌, ◌++◌}

-- `list_add` inserts behind the head of a chain, and `list_add_tail` in front of it.
pub record ListOps (A : Type 0) : Type 0 where
  pub list_add : A → List A → List A
  pub list_add_tail : A → List A → List A
  pub list_add_lem : (x : A) (xs : List A) → list_add x xs ≡ x ∷ xs
  pub list_add_tail_lem : (x : A) (xs : List A) → list_add_tail x xs ≡ xs ++ x ∷ []

-- Operations that do what the interface asks.
abbrev pub plain_lists : {A : Type 0} → ListOps A
plain_lists = record {
  list_add = λ x xs. x ∷ xs;
  list_add_tail = λ x xs. xs ++ x ∷ [];
  list_add_lem = λ x xs. refl;
  list_add_tail_lem = λ x xs. refl;
}
