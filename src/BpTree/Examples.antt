-- ===== src/BpTree/Examples.antt =====
-- Runs of the tree, and its theorems at concrete inputs.
use mathlib.Core.Option.{get_or}
use mathlib.Core.Option
use atrace.Prelude.{
  ℕ, ◌≡◌, refl, arith, Bool, true, false, none, some, ◌∷◌, [], ◌==◌, if◌then◌else◌, ok, fault,
  Fault, ◌+◌, Status, success, minus,
}
use atrace.BpTree.{
  BpEntry, Tree, null, node, red, black, inorder, IsSorted, with_empty, link,
  breakpoint_rb_find_internal, breakpoint_rb_find, breakpoint_rb_insert_internal,
  breakpoint_rb_insert, breakpoint_rb_search_insert, breakpoint_rb_delete_internal,
  breakpoint_rb_delete,
}
use atrace.BpTree.Find.{find-lookup}
use atrace.BpTree.Insertion.{search_insert-eq-insert, search_insert_refines}
use atrace.BpTree.Removal.{delete_refines}
use atrace.BpTree.Plain.{plain_rb}
use atrace.BpTree.Sorted.{lookup}

abbrev entry : ℕ → Bool → BpEntry
entry a empty = record { address = a; bkpt = a + 1; rb_empty = empty }

abbrev three : Tree
three =
    node black (node red null (entry 16 false) null) (entry 32 false)
      (node red null (entry 64 false) null)

abbrev four : Tree
four =
    node black (node red null (entry 16 false) null) (entry 32 false)
      (node red (node red null (entry 48 false) null) (entry 64 false) null)

insert_fourth : breakpoint_rb_insert plain_rb (entry 48 true) three ≡ ok (four, success)
unfolding breakpoint_rb_insert breakpoint_rb_insert_internal link
insert_fourth = refl

insert_again : breakpoint_rb_insert plain_rb (entry 16 true) three ≡ ok (three, minus 1)
unfolding breakpoint_rb_insert breakpoint_rb_insert_internal link
insert_again = refl

insert_linked : breakpoint_rb_insert plain_rb (entry 48 false) three ≡ fault Fault.assertion
unfolding breakpoint_rb_insert breakpoint_rb_insert_internal link
insert_linked = refl

delete_middle :
    inorder (breakpoint_rb_delete plain_rb 32 three).0 ≡ entry 16 false ∷ entry 64 false ∷ []
unfolding breakpoint_rb_delete breakpoint_rb_delete_internal breakpoint_rb_find_internal
delete_middle = refl

find-lookup_example : breakpoint_rb_find_internal three 64 ≡ lookup 64 (inorder three)
find-lookup_example = find-lookup three 64 (omega arith)

search_insert-eq-insert_example :
    breakpoint_rb_search_insert plain_rb (entry 48 true) three
    ≡ breakpoint_rb_insert plain_rb (entry 48 true) three
search_insert-eq-insert_example =
    search_insert-eq-insert plain_rb (entry 48 true) three (omega arith) refl

search_insert_refines_example :
    (result : Tree × Status) × (breakpoint_rb_search_insert plain_rb (entry 48 true) three
      ≡ ok result)
    × IsSorted (inorder result.0)
    × ((addr : ℕ)
        → breakpoint_rb_find result.0 addr ≡ (
            if 48 == addr
            then some (get_or (breakpoint_rb_find three addr) (entry 48 false))
            else breakpoint_rb_find three addr))
    × (result.1 ≡ (elim (breakpoint_rb_find three 48) [ none ↦ success | some _ ↦ minus 1 ]))
search_insert_refines_example =
    search_insert_refines plain_rb (entry 48 true) three (omega arith) refl

delete_refines_example :
    let result = breakpoint_rb_delete plain_rb 32 three in
    (result.1 ≡ Option.map (with_empty true) (breakpoint_rb_find three 32))
    × IsSorted (inorder result.0)
    × ((a : ℕ)
        → breakpoint_rb_find result.0 a ≡ (if 32 == a then none else breakpoint_rb_find three a))
delete_refines_example = delete_refines plain_rb 32 three (omega arith)
