-- ===== src/Breakpoint/Keeps.antt =====
-- Patching code in signal_test/breakpoint.c changes no breakpoint, tree or slot.
use atrace.Prelude.{
  ℕ, ◌-◌, ◌≡◌, arith, Bool, true, false, Option, none, some, List, if◌then◌else◌, Bool-cases, inl,
  inr, subst, ok, fault, Fault, bind-eq-ok, ok_inj,
}
use atrace.Object.{Object}
use atrace.BpTree.{Tree}
use atrace.Slot.{SlotSet}
use atrace.Breakpoint.{Breakpoint, World, Machine, deref, write}
use atrace.Breakpoint.Code.{object_memory_lock, object_memory_unlock, patch, patch_object}

-- What is said of the tree, the breakpoints and the slot sets of a world.
abbrev pub Of : (Tree → List Breakpoint → List SlotSet → Type 0) → World → Type 0
Of P w = P w.tree w.breakpoints w.slot_sets

module _ (m : Machine) (P : Tree → List Breakpoint → List SlotSet → Type 0) where
  unlock-Of : (obj : Object) (w : World) → Of P w → Of P (object_memory_unlock m obj w).0
  unfolding object_memory_unlock
  unlock-Of obj w i =
      elim (Bool-cases (m.mprotect true obj.text_start (obj.text_end - obj.text_start))) [
        | inl e ↦ rw (object_memory_unlock, e) i
        | inr e ↦ rw (object_memory_unlock, e) i
      ]

  lock-Of : (obj : Object) (w : World) → Of P w → Of P (object_memory_lock m obj w).0
  unfolding object_memory_lock
  lock-Of obj w i =
      elim (Bool-cases (m.mprotect false obj.text_start (obj.text_end - obj.text_start))) [
        | inl e ↦ rw (object_memory_lock, e) i
        | inr e ↦ rw (object_memory_lock, e) i
      ]

  patch-Of : (addr v : ℕ) (w w' : World) → Of P w → patch m addr v w ≡ ok w' → Of P w'
  patch-Of addr v w w' i h = go (w.writable addr) h
    where
      go :
          (may : Bool)
          → (if may
              then ok (record w { memory = write addr v w.memory })
              else fault Fault.out_of_bounds)
            ≡ ok w'
          → Of P w'
      go true k = subst (Of P) (ok_inj k) i
      go false k = absurd (ground arith)

  pub patch_object-Of :
      (o : Option ℕ) (b : Breakpoint) (v : ℕ) (w w' : World)
      → Of P w
      → patch_object m o b v w ≡ ok w'
      → Of P w'
  unfolding patch_object
  patch_object-Of none b v w w' i h = absurd (ground arith)
  patch_object-Of (some j) b v w w' i h =
      let (obj, _, k) = bind-eq-ok (deref w.objects j) _ h in
      let (patched, e, l) =
        bind-eq-ok (patch m b.bp_enter.address v (object_memory_unlock m obj w).0) _ k in
      subst (Of P) (ok_inj l) (
        lock-Of obj patched (
          patch-Of b.bp_enter.address v (object_memory_unlock m obj w).0 patched (unlock-Of obj w i)
            e))
