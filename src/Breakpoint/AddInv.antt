-- ===== src/Breakpoint/AddInv.antt =====
-- `breakpoint_add` of signal_test/breakpoint.c, however it returns, keeps what holds of breakpoints, tree and slots.
use atrace.Prelude.{
  ℕ, ◌≡◌, refl, ap, subst, ◌∙◌, arith, some, length, set, Run, ok, bind-eq-ok, ok_inj, true, Status,
  success, minus,
}
use atrace.BpTree.{Tree, breakpoint_rb_search_insert}
use atrace.Slot.{SlotSet, Allocation, slot_alloc}
use atrace.Breakpoint.{Breakpoint, World, Machine, deref, put_set, find_set, breakpoint_add}
use atrace.Breakpoint.Patch.{deref-set}
use atrace.Breakpoint.Consistent.{
  TreeInv, BkptInv, Consistent, deref-lt, Consistent-set, Consistent-tree, Consistent-sets,
  search_insert-TreeInv,
}
use atrace.Breakpoint.Grown.{Grows-put_set, slot_alloc-Kept}
use atrace.Breakpoint.Outcome.{
  linked, slotted, Outcome, unchanged, met, slotless, placed, given_back, breakpoint_add-Outcome,
}

abbrev pub Inv : World → Type 0
Inv w = Consistent w.tree w.breakpoints w.slot_sets

-- The world that a call returns.
pub Inv-returned :
    (w w' : World) (status status' : Status)
    → Inv w
    → ◌≡◌ {A = Run (World × Status)} (ok (w, status)) (ok (w', status'))
    → Inv w'
Inv-returned w w' status status' i h = subst Inv (ap (λ r. r.0) (ok_inj h)) i

module _ (m : Machine) (p : ℕ) (b : Breakpoint) (w : World) (i : Inv w)
    (held : deref w.breakpoints p ≡ ok b) where
  tree-inserted :
      (t : Tree) (status : Status)
      → breakpoint_rb_search_insert m.rb b.bp_enter w.tree ≡ ok (t, status)
      → TreeInv (length w.breakpoints) t
  tree-inserted t status e =
      search_insert-TreeInv m.rb (length w.breakpoints) b.bp_enter w.tree (t, status)
        (omega (arith, (i.each p b held).enter, deref-lt w.breakpoints p b held)) i.tree e

  -- With `bp_enter` in the tree, and any stores into the breakpoint behind that.
  stored-Consistent :
      (t : Tree) (c : Breakpoint)
      → TreeInv (length w.breakpoints) t
      → BkptInv w.slot_sets p c
      → Consistent t (set (set w.breakpoints p (linked b)) p c) w.slot_sets
  stored-Consistent t c tree good =
      let its = i.each p b held in
      let once =
        Consistent-set t w.breakpoints w.slot_sets
          (Consistent-tree w.tree w.breakpoints w.slot_sets i t tree) p b (linked b) held
          (record { enter = its.enter; return = its.return; slots = its.slots }) in
      Consistent-set t (set w.breakpoints p (linked b)) w.slot_sets once p (linked b) c
        (deref-set w.breakpoints p (linked b) held) good

  -- With a slot of the allocation `a`.
  slotted-Consistent :
      (t : Tree) (a : Allocation) (c : Breakpoint)
      → TreeInv (length w.breakpoints) t
      → slot_alloc m.set_lists m.source 2 (length w.slot_sets) w.slot_sets ≡ ok a
      → c.bp_enter.bkpt ≡ b.bp_enter.bkpt
      → c.bp_return.bkpt ≡ b.bp_return.bkpt
      → c.slot_set ≡ some a.slot.ptr
      → Consistent t (set (set w.breakpoints p (linked b)) p c) a.sets
  slotted-Consistent t a c tree f enter back slot =
      let its = i.each p b held in
      let kept = slot_alloc-Kept m.set_lists m.source 2 (length w.slot_sets) w.slot_sets a f in
      let once =
        Consistent-sets t (set w.breakpoints p (linked b)) w.slot_sets
          (Consistent-set t w.breakpoints w.slot_sets
            (Consistent-tree w.tree w.breakpoints w.slot_sets i t tree) p b (linked b) held
            (record { enter = its.enter; return = its.return; slots = its.slots }))
          a.sets kept.grows in
      Consistent-set t (set w.breakpoints p (linked b)) a.sets once p (linked b) c
        (deref-set w.breakpoints p (linked b) held)
        (record {
          enter = enter ∙ its.enter;
          return = back ∙ its.return;
          slots = λ q e.
              subst (λ (n : ℕ). (s : SlotSet) × (find_set n a.sets ≡ ok s)) (ground (arith, slot))
                kept.holds;
        })

  Outcome-Inv : (w' : World) (status : Status) → Outcome m p b w w' status → Inv w'
  Outcome-Inv w' status (unchanged n) = i
  Outcome-Inv w' status (met t k e) =
      Consistent-tree w.tree w.breakpoints w.slot_sets i t (tree-inserted t (minus k) e)
  Outcome-Inv w' status (slotless t j obj e flag) =
      let its = i.each p b held in
      stored-Consistent t (record (linked b) { obj = some j; chained = true })
        (tree-inserted t success e)
        (record { enter = its.enter; return = its.return; slots = its.slots })
  Outcome-Inv w' status (placed t u j obj a e f g) =
      let its = i.each p b held in
      let tree =
        search_insert-TreeInv m.rb (length w.breakpoints) (slotted a (linked b)).bp_return t
          (u, success) (omega (arith, its.return, deref-lt w.breakpoints p b held))
          (tree-inserted t success e) g in
      slotted-Consistent u a _ tree f refl refl refl
  Outcome-Inv w' status (given_back t a freed e f free) =
      Consistent-sets t (set (set w.breakpoints p (linked b)) p (slotted a (linked b))) a.sets
        (slotted-Consistent t a (slotted a (linked b)) (tree-inserted t success e) f refl refl refl)
        (put_set freed a.sets) (Grows-put_set freed a.sets)

module _ (m : Machine) where
  pub breakpoint_add-Inv :
      (p : ℕ) (w w' : World) (status : Status)
      → Inv w
      → breakpoint_add m p w ≡ ok (w', status)
      → Inv w'
  unfolding breakpoint_add
  breakpoint_add-Inv p w w' status i h =
      let (b, held, _) = bind-eq-ok (deref w.breakpoints p) _ h in
      Outcome-Inv m p b w i held w' status (breakpoint_add-Outcome m p b w w' status held h).1
