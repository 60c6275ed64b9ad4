-- ===== src/Breakpoint/Lifecycle.antt =====
-- A breakpoint that is added, enabled and disabled.
use atrace.Prelude.{
  ℕ, zero, suc, ◌+◌, ◌-◌, ◌^◌, ◌<◌, ◌≡◌, refl, ◌≢◌, sym, ap, ◌∙◌, arith, true, false, List, [], ◌∷◌,
  set, ok, success,
}
use atrace.Object.{Object}
use atrace.Slot.{Allocation}
use atrace.Breakpoint.{
  Breakpoint, World, Machine, bkpt_attr_flag_enable, breakpoint_attr_flag, in_text, deref, find_set,
  slot_of, breakpoint_add,
}
use atrace.Breakpoint.Code.{breakpoint_enable, breakpoint_disable}
use atrace.Breakpoint.Added.{
  IsFresh, IsOpen, HasSlot, Placed, added, slot_address, breakpoint_add-Placed,
}
use atrace.Breakpoint.Patch.{IsPlaced, HoldsInstruction, deref-set, disable-enable}

deref-set_object :
    (xs : List Object) (i : ℕ) {x : Object} (v : Object)
    → deref xs i ≡ ok x
    → deref (set xs i v) i ≡ ok v
deref-set_object [] i v h = absurd (ground arith)
deref-set_object (x ∷ xs) zero v h = refl
deref-set_object (x ∷ xs) (suc i) v h = deref-set_object xs i v h

module _ (m : Machine) where
  -- The code around the address can be patched, and the slot lies elsewhere.
  pub record CanPatch (addr : ℕ) (obj : Object) (a : Allocation) : Type 0 where
    pub inside : in_text obj addr ≡ true
    pub can_unlock : m.mprotect true obj.text_start (obj.text_end - obj.text_start) ≡ true
    pub can_lock : m.mprotect false obj.text_start (obj.text_end - obj.text_start) ≡ true
    pub kept : find_set a.slot.ptr a.sets ≡ ok a.slot
    pub elsewhere : slot_address a ≢ addr

  Placed-IsPlaced :
      (p i : ℕ) (bkpt : Breakpoint) (obj : Object) (a : Allocation) (w w' : World)
      → deref w.breakpoints p ≡ ok bkpt
      → deref w.objects i ≡ ok obj
      → CanPatch bkpt.bp_enter.address obj a
      → Placed m p i bkpt obj a w w'
      → IsPlaced m p i
          (added m i a bkpt)
          (record obj { breakpoint_chain = p ∷ obj.breakpoint_chain })
          w'
  Placed-IsPlaced p i bkpt obj a w w' d o c h = record {
    held = ap (λ bs. deref bs p) h.holds ∙ deref-set w.breakpoints p (added m i a bkpt) d;
    linked = refl;
    owner = refl;
    object = ap (λ os. deref os i) h.joined ∙ deref-set_object w.objects i _ o;
    inside = c.inside;
    can_unlock = c.can_unlock;
    can_lock = c.can_lock;
  }

  Placed-HoldsInstruction :
      (p i : ℕ) (bkpt : Breakpoint) (obj : Object) (a : Allocation) (w w' : World)
      → CanPatch bkpt.bp_enter.address obj a
      → bkpt.bp_enter.address ≢ slot_address a + 4
      → Placed m p i bkpt obj a w w'
      → HoldsInstruction m a.slot (added m i a bkpt) w'
  unfolding slot_of
  Placed-HoldsInstruction p i bkpt obj a w w' c apart h = record {
    slot = ap (λ sets. find_set a.slot.ptr sets) h.sets ∙ c.kept;
    saved = h.saved ∙ sym (h.same_memory bkpt.bp_enter.address (λ e. c.elsewhere (sym e)) apart);
    elsewhere = c.elsewhere;
  }

  -- Where the tree is a search tree, a fresh breakpoint that is off and wants a slot, whose address an object
  -- allows and no breakpoint has, for which a slot in the mapped page is handed out that is not at that
  -- address, whose set is found at its address, and whose return address, 4 bytes behind its start, is not the
  -- breakpoint's own and has no breakpoint, and whose address lies in code that the system can protect, can be
  -- added, enabled and disabled: each call returns 0, and after the last, memory and breakpoints are what they
  -- were after the first.
  pub breakpoint_add_enable_disable :
      (p i : ℕ) (bkpt : Breakpoint) (obj : Object) (a : Allocation) (w : World)
      → deref w.breakpoints p ≡ ok bkpt
      → IsFresh p bkpt
      → IsOpen m w bkpt.bp_enter.address i obj
      → HasSlot m w bkpt.bp_enter.address a
      → CanPatch bkpt.bp_enter.address obj a
      → bkpt.attr < 2 ^ 32
      → breakpoint_attr_flag bkpt_attr_flag_enable bkpt ≡ false
      → (w' : World) × (on : World) × (off : World) × (breakpoint_add m p w ≡ ok (w', success))
        × (breakpoint_enable m p w' ≡ ok (on, success))
        × (breakpoint_disable m p on ≡ ok (off, success))
        × (off.memory ≡ w'.memory)
        × (off.breakpoints ≡ w'.breakpoints)
  unfolding breakpoint_attr_flag
  breakpoint_add_enable_disable p i bkpt obj a w d fresh may slot c lt idle =
      let (w', done, h) = breakpoint_add-Placed m p i bkpt obj a w d fresh may slot in
      let (on, off, e, f, same, kept) =
        disable-enable m p i a.slot (added m i a bkpt) _ w'
          (Placed-IsPlaced p i bkpt obj a w w' d may.object c h)
          (Placed-HoldsInstruction p i bkpt obj a w w' c slot.apart h) lt idle in
      (w', on, off, done, e, f, same, kept)
