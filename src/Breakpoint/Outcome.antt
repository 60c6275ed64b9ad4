-- ===== src/Breakpoint/Outcome.antt =====
-- The ways in which `breakpoint_add` of signal_test/breakpoint.c returns, each with the world that it leaves.
use atrace.Prelude.{
  ℕ, ◌+◌, ◌*◌, ◌≡◌, refl, sym, ap, subst, ◌∙◌, arith, Bool, true, false, not, Option, none, some,
  ◌∷◌, ltb, if◌then◌else◌, length, set, ok, fault, Fault, check, check-ok, bind-eq-ok, ok_inj,
  Status, success, minus,
}
use atrace.Object.{Object, obj_attr_flag_no_bkpt, object_attr_flag}
use atrace.BpTree.{Tree, breakpoint_rb_search_insert, with_empty}
use atrace.Slot.{
  SlotSet, Allocation, slot_alloc, slot_free, slot_size, slot_page_size, slot_invalid_cache,
  bp_get_slot_offset,
}
use atrace.Breakpoint.{
  Breakpoint, World, Machine, bkpt_attr_flag_no_slot, breakpoint_attr_flag, object_pointer, deref,
  brk, write, put_set, fill_slot, join_object, returned, insert_return, with_slot, add_slot,
  inserted_enter, insert_enter, add_at, breakpoint_add,
}

-- The breakpoint with `bp_enter` in the tree, and with a slot.
abbrev pub linked : Breakpoint → Breakpoint
linked b = record b { bp_enter = with_empty false b.bp_enter }

abbrev pub slotted : Allocation → Breakpoint → Breakpoint
slotted a b = record b {
  slot_set = some a.slot.ptr;
  slot_index = a.index;
  bp_return = record b.bp_return { address = bp_get_slot_offset a.slot a.index + 4 };
}

-- The slot is filled.
abbrev pub filled : Allocation → Breakpoint → World → World
filled a b w = record w {
  slot_sets = a.sets;
  memory =
      write (bp_get_slot_offset a.slot a.index + 4) brk
        (write (bp_get_slot_offset a.slot a.index) (w.memory b.bp_enter.address) w.memory);
  cleared = slot_invalid_cache a.slot a.index ∷ w.cleared;
}

-- `bp_enter` is in the tree `t`.
abbrev pub entered : ℕ → Breakpoint → Tree → World → World
entered p b t w = record w { tree = t; breakpoints = set w.breakpoints p (linked b) }

module _ (m : Machine) where
  pub data Outcome (p : ℕ) (b : Breakpoint) (w : World) : World → Status → Type 0 where
    unchanged : (n : ℕ) → Outcome p b w w (minus n)
    met :
        (t : Tree) (k : ℕ)
        → breakpoint_rb_search_insert m.rb b.bp_enter w.tree ≡ ok (t, minus k)
        → Outcome p b w (record w { tree = t }) (minus 3)
    slotless :
        (t : Tree) (i : ℕ) (obj : Object)
        → breakpoint_rb_search_insert m.rb b.bp_enter w.tree ≡ ok (t, success)
        → breakpoint_attr_flag bkpt_attr_flag_no_slot (linked b) ≡ true
        → Outcome p b w (join_object m p i obj (linked b) (entered p b t w)) success
    placed :
        (t u : Tree) (i : ℕ) (obj : Object) (a : Allocation)
        → breakpoint_rb_search_insert m.rb b.bp_enter w.tree ≡ ok (t, success)
        → slot_alloc m.set_lists m.source 2 (length w.slot_sets) w.slot_sets ≡ ok a
        → breakpoint_rb_search_insert m.rb (slotted a (linked b)).bp_return t ≡ ok (u, success)
        → Outcome p b w
            (join_object m p i obj
              (record (slotted a (linked b)) {
                bp_return = with_empty false (slotted a (linked b)).bp_return;
              })
              (record (filled a (linked b) (entered p b t w)) { tree = u }))
            success
    given_back :
        (t : Tree) (a : Allocation) (freed : SlotSet)
        → breakpoint_rb_search_insert m.rb b.bp_enter w.tree ≡ ok (t, success)
        → slot_alloc m.set_lists m.source 2 (length w.slot_sets) w.slot_sets ≡ ok a
        → slot_free a.slot a.index ≡ ok freed
        → Outcome p b w
            (record (filled a (linked b) (entered p b t w)) {
              breakpoints = set (set w.breakpoints p (linked b)) p (slotted a (linked b));
              slot_sets = put_set freed a.sets;
            })
            (minus 4)

  -- A result with this outcome is the result of the call.
  returns :
      (p : ℕ) (b : Breakpoint) (w : World) (r r' : World × Status)
      → Outcome p b w r.0 r.1
      → ok r ≡ ok r'
      → Outcome p b w r'.0 r'.1
  returns p b w r r' o h = subst (λ (x : World × Status). Outcome p b w x.0 x.1) (ok_inj h) o

  fill_slot-filled :
      (b : Breakpoint) (a : Allocation) (w : World) (r : World × Breakpoint)
      → fill_slot b a w ≡ ok r
      → (filled a b w, slotted a b) ≡ r
  unfolding fill_slot
  fill_slot-filled b a w r h = go (ltb (a.index * slot_size) slot_page_size) h
    where
      go :
          (mapped : Bool)
          → (elim mapped [
            | false ↦ fault Fault.out_of_bounds
            | true ↦ ok (filled a b w, slotted a b)
          ])
            ≡ ok r
          → (filled a b w, slotted a b) ≡ r
      go false k = absurd (ground arith)
      go true k = ok_inj k

  module _ (p : ℕ) (b : Breakpoint) (w : World) (r : World × Status) where
    insert_return-Outcome :
        (t : Tree) (i : ℕ) (obj : Object) (a : Allocation)
        → breakpoint_rb_search_insert m.rb b.bp_enter w.tree ≡ ok (t, success)
        → slot_alloc m.set_lists m.source 2 (length w.slot_sets) w.slot_sets ≡ ok a
        → insert_return m p i obj a.slot
            (filled a (linked b) (entered p b t w), slotted a (linked b))
          ≡ ok r
        → Outcome p b w r.0 r.1
    insert_return-Outcome t i obj a e f h =
        let (inserted, g, k) =
          bind-eq-ok (breakpoint_rb_search_insert m.rb (slotted a (linked b)).bp_return t) _ h in
        go inserted.0 inserted.1 g k
      where
        go :
            (u : Tree) (status : Status)
            → breakpoint_rb_search_insert m.rb (slotted a (linked b)).bp_return t ≡ ok (u, status)
            → returned m p i obj a.slot
                (filled a (linked b) (entered p b t w))
                (slotted a (linked b))
                (u, status)
              ≡ ok r
            → Outcome p b w r.0 r.1
        go u success g k = returns p b w _ r (placed t u i obj a e f g) k
        go u (minus n) g k =
            let (freed, free, l) = bind-eq-ok (slot_free a.slot a.index) _ k in
            returns p b w _ r (given_back t a freed e f free) l

    add_slot-Outcome :
        (t : Tree) (i : ℕ) (obj : Object)
        → breakpoint_rb_search_insert m.rb b.bp_enter w.tree ≡ ok (t, success)
        → add_slot m p i obj (linked b) (entered p b t w) ≡ ok r
        → Outcome p b w r.0 r.1
    unfolding add_slot
    add_slot-Outcome t i obj e h =
        go (breakpoint_attr_flag bkpt_attr_flag_no_slot (linked b)) refl h
      where
        go :
            (no_slot : Bool)
            → breakpoint_attr_flag bkpt_attr_flag_no_slot (linked b) ≡ no_slot
            → (if no_slot
                then ok (join_object m p i obj (linked b) (entered p b t w), success)
                else with_slot m p i obj (linked b) (entered p b t w))
              ≡ ok r
            → Outcome p b w r.0 r.1
        go true flag k = returns p b w _ r (slotless t i obj e flag) k
        go false flag k =
            let (a, f, l) =
              bind-eq-ok (slot_alloc m.set_lists m.source 2 (length w.slot_sets) w.slot_sets) _ k in
            let (pair, g, n) = bind-eq-ok (fill_slot (linked b) a (entered p b t w)) _ l in
            insert_return-Outcome t i obj a e f (
              ap (insert_return m p i obj a.slot)
                (fill_slot-filled (linked b) a (entered p b t w) pair g)
              ∙ n)

    insert_enter-Outcome :
        (i : ℕ) (obj : Object) → insert_enter m p i obj b w ≡ ok r → Outcome p b w r.0 r.1
    insert_enter-Outcome i obj h =
        let (inserted, e, k) =
          bind-eq-ok (breakpoint_rb_search_insert m.rb b.bp_enter w.tree) _ h in
        go inserted.0 inserted.1 e k
      where
        go :
            (t : Tree) (status : Status)
            → breakpoint_rb_search_insert m.rb b.bp_enter w.tree ≡ ok (t, status)
            → inserted_enter m p i obj b w (t, status) ≡ ok r
            → Outcome p b w r.0 r.1
        go t success e k = add_slot-Outcome t i obj e k
        go t (minus n) e k = returns p b w _ r (met t n e) k

    add_at-Outcome : (found : Option ℕ) → add_at m p b w found ≡ ok r → Outcome p b w r.0 r.1
    add_at-Outcome none h = returns p b w _ r (unchanged 1) h
    add_at-Outcome (some i) h =
        let (obj, _, k) = bind-eq-ok (deref w.objects i) _ h in
        go obj (object_attr_flag obj_attr_flag_no_bkpt obj) k
      where
        go :
            (obj : Object) (forbidden : Bool)
            → (if forbidden then ok (w, minus 2) else insert_enter m p i obj b w) ≡ ok r
            → Outcome p b w r.0 r.1
        go obj true k = returns p b w _ r (unchanged 2) k
        go obj false k = insert_enter-Outcome i obj k

  -- The breakpoint was in no chain.
  pub breakpoint_add-Outcome :
      (p : ℕ) (b : Breakpoint) (w w' : World) (status : Status)
      → deref w.breakpoints p ≡ ok b
      → breakpoint_add m p w ≡ ok (w', status)
      → (b.chained ≡ false) × Outcome p b w w' status
  unfolding breakpoint_add
  breakpoint_add-Outcome p b w w' status held h =
      let (c, d, k) = bind-eq-ok (deref w.breakpoints p) _ h in
      let (u, unchained, l) = bind-eq-ok (check (not c.chained)) _ k in
      let free : c.chained ≡ false = ground (arith, check-ok (not c.chained) u unchained) in
      subst (λ (x : Breakpoint). (x.chained ≡ false) × Outcome p x w w' status)
        (ok_inj (sym d ∙ held))
        (free, add_at-Outcome p c w (w', status) (object_pointer c.bp_enter.address w.objects) l)
