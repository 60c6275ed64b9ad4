-- ===== src/Breakpoint/Errors.antt =====
-- How `breakpoint_add` refuses a breakpoint.
use atrace.Prelude.{
  ℕ, zero, suc, ◌≡◌, refl, ◌≢◌, ap, subst, ◌∙◌, ◌⊎◌, inl, inr, arith, true, not, ◌&&◌, Option, none,
  some, List, [], ◌∷◌, leb, Bool-cases, else_eq, get_elem?, length, Run, ok, fault, check, ◌>>=◌,
  bind-eq-ok, Status, success, minus,
}
use atrace.Object.{Object, obj_attr_flag_no_bkpt, object_attr_flag, object_get_by_address}
use atrace.BpTree.{
  BpEntry, Tree, RbOps, breakpoint_rb_find, breakpoint_rb_find_internal,
  breakpoint_rb_insert_internal, breakpoint_rb_search_insert,
}
use atrace.Slot.{SlotSet, slot_alloc, slot_free}
use atrace.Breakpoint.{
  Breakpoint, World, Machine, bkpt_attr_flag_no_slot, breakpoint_attr_flag, object_pointer, deref,
  fill_slot, insert_return, returned, inserted_enter, add_slot, add_at, breakpoint_add,
}

abbrev pub follow : List Object → Option ℕ → Option Object
follow objects none = none
follow objects (some i) = get_elem? objects i

-- The pointer is that of the object.
pub object_get_by_address-follow :
    (addr : ℕ) (objects : List Object)
    → object_get_by_address addr objects ≡ follow objects (object_pointer addr objects)
unfolding object_pointer object_get_by_address
object_get_by_address-follow addr [] = refl
object_get_by_address-follow addr (o ∷ rest) =
    elim (Bool-cases (leb o.text_start addr && leb addr o.text_end)) [
      | inl here ↦ rw here refl
      | inr there ↦
          rw there (object_get_by_address-follow addr rest ∙ behind (object_pointer addr rest))
    ]
  where
    behind :
        (found : Option ℕ)
        → follow rest found ≡ follow (o ∷ rest) (elim found [ none ↦ none | some i ↦ some (suc i) ])
    behind none = refl
    behind (some i) = refl

-- An insertion that fails found the address taken and left the tree.
search_insert-minus :
    (rb : RbOps) (e : BpEntry) (t t' : Tree) (n : ℕ)
    → breakpoint_rb_search_insert rb e t ≡ ok (t', minus n)
    → (t' ≡ t) × ((f : BpEntry) × (breakpoint_rb_find t e.address ≡ some f))
unfolding breakpoint_rb_search_insert breakpoint_rb_find
search_insert-minus rb e t t' n h = go (breakpoint_rb_find_internal t e.address) h
  where
    succeed : Tree × Status → Run (Tree × Status)
    succeed inserted = ok (inserted.0, success)

    outcome : Option BpEntry → Run (Tree × Status)
    outcome (some exist) = ok (t, minus 1)
    outcome none = breakpoint_rb_insert_internal rb e t >>= succeed

    go :
        (exist : Option BpEntry)
        → outcome exist ≡ ok (t', minus n)
        → (t' ≡ t) × ((f : BpEntry) × (exist ≡ some f))
    go (some f) k = (ground arith, (f, refl))
    go none k = absurd (no_minus (breakpoint_rb_insert_internal rb e t) k)
      where
        no_minus : (m : Run (Tree × Status)) → (m >>= succeed) ≢ ok (t', minus n)
        no_minus (ok r) p = ground arith
        no_minus (fault f) p = ground arith

-- What is wrong with the address of a breakpoint, by the status: no object has it, the object forbids breakpoints, or
-- another breakpoint stands there.
abbrev pub Refused : ℕ → World → ℕ → Type 0
Refused n w addr =
    ((n ≡ 1) × (object_get_by_address addr w.objects ≡ none))
    ⊎ ((n ≡ 2)
        × ((obj : Object) × (object_get_by_address addr w.objects ≡ some obj)
            × (object_attr_flag obj_attr_flag_no_bkpt obj ≡ true)))
    ⊎ ((n ≡ 3) × ((f : BpEntry) × (breakpoint_rb_find w.tree addr ≡ some f)))

module _ (m : Machine) where
  insert_return-minus :
      (p i n : ℕ) (obj : Object) (s : SlotSet) (bkpt : Breakpoint) (w w' : World)
      → insert_return m p i obj s (w, bkpt) ≡ ok (w', minus n)
      → n ≡ 4
  insert_return-minus p i n obj s bkpt w w' h =
      let ((t, status), _, k) =
        bind-eq-ok (breakpoint_rb_search_insert m.rb bkpt.bp_return w.tree) _ h in
      go t status k
    where
      go :
          (t : Tree) (status : Status)
          → returned m p i obj s w bkpt (t, status) ≡ ok (w', minus n)
          → n ≡ 4
      go t success k = ground arith
      go t (minus j) k =
          let (freed, _, l) = bind-eq-ok (slot_free s bkpt.slot_index) _ k in ground arith

  -- What comes behind the insertion of `bp_enter` is refused with no other status than -4.
  add_slot-minus :
      (p i n : ℕ) (obj : Object) (bkpt : Breakpoint) (w w' : World)
      → add_slot m p i obj bkpt w ≡ ok (w', minus n)
      → n ≡ 4
  unfolding add_slot
  add_slot-minus p i n obj bkpt w w' h =
      elim (Bool-cases (breakpoint_attr_flag bkpt_attr_flag_no_slot bkpt)) [
        | inl e ↦ ground arith
        | inr e ↦
            let (a, _, k) =
              bind-eq-ok (slot_alloc m.set_lists m.source 2 (length w.slot_sets) w.slot_sets) _
                (else_eq (breakpoint_attr_flag bkpt_attr_flag_no_slot bkpt) _ e h) in
            let ((filled, bkpt'), _, l) = bind-eq-ok (fill_slot bkpt a w) _ k in
            insert_return-minus p i n obj a.slot bkpt' filled w' l
      ]

  inserted_enter-minus :
      (p i n : ℕ) (obj : Object) (bkpt : Breakpoint) (w w' : World) (inserted : Tree × Status)
      → breakpoint_rb_search_insert m.rb bkpt.bp_enter w.tree ≡ ok inserted
      → inserted_enter m p i obj bkpt w inserted ≡ ok (w', minus n)
      → n ≢ 4
      → (w' ≡ w)
        × (n ≡ 3)
        × ((f : BpEntry) × (breakpoint_rb_find w.tree bkpt.bp_enter.address ≡ some f))
  inserted_enter-minus p i n obj bkpt w w' (t, minus j) e h no4 =
      let (same, taken) = search_insert-minus m.rb bkpt.bp_enter w.tree t j e in
      (ground arith ∙ ap (λ (x : Tree). record w { tree = x }) same, ground arith, taken)
  inserted_enter-minus p i n obj bkpt w w' (t, success) e h no4 =
      absurd (no4 (add_slot-minus p i n obj _ _ w' h))

  deref-get_elem? :
      (objects : List Object) (i : ℕ) (obj : Object)
      → deref objects i ≡ ok obj
      → get_elem? objects i ≡ some obj
  deref-get_elem? [] i obj h = cc
  deref-get_elem? (o ∷ rest) zero obj h = ground arith
  deref-get_elem? (o ∷ rest) (suc i) obj h = deref-get_elem? rest i obj h

  add_at-Refused :
      (p n : ℕ) (bkpt : Breakpoint) (w w' : World) (found : Option ℕ)
      → object_get_by_address bkpt.bp_enter.address w.objects ≡ follow w.objects found
      → add_at m p bkpt w found ≡ ok (w', minus n)
      → n ≢ 4
      → (w' ≡ w) × Refused n w bkpt.bp_enter.address
  add_at-Refused p n bkpt w w' none o h no4 = (ground arith, inl (ground arith, o))
  add_at-Refused p n bkpt w w' (some i) o h no4 =
      let (obj, d, k) = bind-eq-ok (deref w.objects i) _ h in
      let named = o ∙ deref-get_elem? w.objects i obj d in
      elim (Bool-cases (object_attr_flag obj_attr_flag_no_bkpt obj)) [
        | inl e ↦ (ground arith, inr (inl (ground arith, (obj, named, e))))
        | inr e ↦
            let (inserted, done, l) =
              bind-eq-ok (breakpoint_rb_search_insert m.rb bkpt.bp_enter w.tree) _
                (else_eq (object_attr_flag obj_attr_flag_no_bkpt obj) _ e k) in
            let (same, three, taken) =
              inserted_enter-minus p i n obj bkpt w w' inserted done l no4 in
            (same, inr (inr (three, taken)))
      ]

  -- If `breakpoint_add` refuses a breakpoint with a status other than -4, then it changes nothing,
  -- and the status tells why: -1 that no object has the address, -2 that the object forbids breakpoints,
  -- -3 that the tree has an entry at the address already.
  pub breakpoint_add-Refused :
      (p n : ℕ) (bkpt : Breakpoint) (w w' : World)
      → deref w.breakpoints p ≡ ok bkpt
      → breakpoint_add m p w ≡ ok (w', minus n)
      → n ≢ 4
      → (w' ≡ w) × Refused n w bkpt.bp_enter.address
  unfolding breakpoint_add
  breakpoint_add-Refused p n bkpt w w' d h no4 =
      let (bkpt', d', k) = bind-eq-ok (deref w.breakpoints p) _ h in
      let (_, _, l) = bind-eq-ok (check (not bkpt'.chained)) _ k in
      let same : bkpt' ≡ bkpt = ground arith in
      subst (λ (b : Breakpoint). (w' ≡ w) × Refused n w b.bp_enter.address) same
        (add_at-Refused p n bkpt' w w' _
          (object_get_by_address-follow bkpt'.bp_enter.address w.objects) l no4)
