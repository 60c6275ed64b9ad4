-- ===== src/Breakpoint/SlotsAdd.antt =====
-- `breakpoint_add` of signal_test/breakpoint.c, however it returns, keeps what holds of the slots of added breakpoints.
use atrace.Prelude.{
  ℕ, ◌<◌, ◌≡◌, refl, ◌≢◌, inl, inr, sym, ap, subst, ◌∙◌, arith, true, false, some, List, ◌==◌,
  Bool-cases, length, length-map, set, All, All-imp, ok, Status,
}
use atrace.Slot.{SlotSet, Allocation, slot_alloc}
use atrace.Slot.Valid.{IsValid, is_free}
use atrace.Slot.Scan.{free_at}
use atrace.Slot.Returned.{Returned, slot_alloc-Returned, Freed, slot_free-Freed}
use atrace.Breakpoint.{Breakpoint, World, Machine, deref, put_set, breakpoint_add}
use atrace.Breakpoint.Patch.{deref-set}
use atrace.Breakpoint.Consistent.{search_insert_unlinked}
use atrace.Breakpoint.AddInv.{Inv}
use atrace.Breakpoint.Slots.{IsTaken, ptrs, Owns, Slots, stored_cases, Slots-set, Slots-sets}
use atrace.Breakpoint.Outcome.{
  linked, slotted, Outcome, unchanged, met, slotless, placed, given_back, breakpoint_add-Outcome,
}
use atrace.Breakpoint.PutSet.{
  All-put_set, Distinct-put_set, ptrs-put_set, free_at-put_set, found-absent, fresh_ptrs,
}

module _ (m : Machine)
    (once : (i j r : ℕ) → m.source.calloc i ≡ some r → m.source.calloc j ≡ some r → i ≡ j) (p : ℕ)
    (b : Breakpoint) (w : World) (i : Inv w) (s : Slots m.source w.breakpoints w.slot_sets)
    (held : deref w.breakpoints p ≡ ok b) (free : b.chained ≡ false) where
  -- The pool that a slot comes from has the slots of added breakpoints taken.
  module _ (a : Allocation)
      (r : Returned m.set_lists m.source (length w.slot_sets) w.slot_sets a) where
    from-taken :
        (j : ℕ) (d : Breakpoint) (q k : ℕ)
        → deref w.breakpoints j ≡ ok d
        → Owns d q k
        → free_at r.from q k ≡ false
    from-taken j d q k e has = elim r.origin [
      | inl same ↦ rw same (s.taken j d q k e has).1
      | inr (new, base, given, grown) ↦ rw grown (elim (Bool-cases (new == q)) [
        | inl here ↦
            let (found, f) = (i.each j d e).slots q has.of in
            let absent =
              fresh_ptrs m.source (length w.slot_sets) new w.slot_sets once s.given given in
            absurd (
              found-absent q found w.slot_sets
                (subst (λ (n : ℕ). All (λ x. x.ptr ≢ n) w.slot_sets) (ground arith) absent) f)
        | inr there ↦ rw there (s.taken j d q k e has).1
      ])
    ]

    grown-IsTaken :
        (j : ℕ) (d : Breakpoint) (q k : ℕ)
        → deref w.breakpoints j ≡ ok d
        → Owns d q k
        → free_at a.sets q k ≡ false
    grown-IsTaken j d q k e has =
        let old = from-taken j d q k e has in r.takes.only q k ∙ ground arith

    -- The slot is that of no added breakpoint.
    slot-new :
        (j : ℕ) (d : Breakpoint) → deref w.breakpoints j ≡ ok d → Owns d a.slot.ptr a.index → ⊥
    slot-new j d e has =
        let old = from-taken j d a.slot.ptr a.index e has in
        absurd (ground (arith, sym r.takes.was_free ∙ old))

    -- A breakpoint with this slot.
    own-IsTaken : (q k : ℕ) → some a.slot.ptr ≡ some q → a.index ≡ k → IsTaken a.sets q k
    own-IsTaken q k e f =
        let same : a.slot.ptr ≡ q = ground arith in
        (omega (arith, f, r.takes.in_range), r.takes.only q k ∙ ground arith)

    own-new :
        (j : ℕ) (d : Breakpoint) (q k : ℕ)
        → deref w.breakpoints j ≡ ok d
        → Owns d q k
        → some a.slot.ptr ≡ some q
        → a.index ≡ k
        → ⊥
    own-new j d q k e has f g =
        slot-new j d e
          (record { added = has.added; of = has.of ∙ sym f; index = has.index ∙ sym g })

    grown-given :
        All (λ q. (k : ℕ) × (k < length a.sets) × (m.source.calloc k ≡ some q)) (ptrs a.sets)
    grown-given =
        let width : length a.sets ≡ length r.from =
          sym (length-map a.sets (λ x. x.ptr))
          ∙ ap length r.same_sets
          ∙ length-map r.from (λ x. x.ptr) in
        rw (width, r.same_sets)
          (elim r.origin [
            | inl same ↦ rw same s.given
            | inr (new, base, given, grown) ↦ rw grown (
              (length w.slot_sets, omega arith, given),
              All-imp (λ q h. (h.0, omega (arith, h.1), h.2)) (ptrs w.slot_sets) s.given,
            )
          ])

    grown-Slots : Slots m.source w.breakpoints a.sets
    grown-Slots =
        Slots-sets m.source w.breakpoints w.slot_sets s a.sets r.takes.pool grown-given
          grown-IsTaken

    -- The slot is given back.
    module _ (freed : SlotSet) (f : Freed a.slot a.index freed) where
      back-taken :
          (j : ℕ) (d : Breakpoint) (q k : ℕ)
          → deref w.breakpoints j ≡ ok d
          → Owns d q k
          → free_at (put_set freed a.sets) q k ≡ false
      back-taken j d q k e has =
          let still = grown-IsTaken j d q k e has in
          free_at-put_set freed a.sets q k still (λ same.
            let at : a.slot.ptr ≡ q = sym f.same_ptr ∙ same in
            let busy : is_free a.slot k ≡ false =
              sym (r.here k) ∙ subst (λ (x : ℕ). free_at a.sets x k ≡ false) (sym at) still in
            f.frees k ∙ elim (Bool-cases (a.index == k)) [
              | inl here ↦ absurd (own-new j d q k e has (ap some at) (ground arith))
              | inr there ↦ rw there busy
            ])

      back-Slots : Slots m.source w.breakpoints (put_set freed a.sets)
      back-Slots =
          let width : length (put_set freed a.sets) ≡ length a.sets =
            sym (length-map (put_set freed a.sets) (λ x. x.ptr))
            ∙ ap length (ptrs-put_set freed a.sets)
            ∙ length-map a.sets (λ x. x.ptr) in
          Slots-sets m.source w.breakpoints a.sets grown-Slots (put_set freed a.sets)
            (record {
              valid = All-put_set IsValid freed a.sets f.valid r.takes.pool.valid;
              distinct = Distinct-put_set freed a.sets r.takes.pool.distinct;
            })
            (rw (width, ptrs-put_set freed a.sets) grown-given) back-taken

  returned :
      (a : Allocation)
      → slot_alloc m.set_lists m.source 2 (length w.slot_sets) w.slot_sets ≡ ok a
      → Returned m.set_lists m.source (length w.slot_sets) w.slot_sets a
  returned a f =
      slot_alloc-Returned m.set_lists m.source (length w.slot_sets) w.slot_sets a s.pool
        (λ q e. fresh_ptrs m.source (length w.slot_sets) q w.slot_sets once s.given e) f

  -- With `bp_enter` in the tree, over any sets.
  entered-Slots :
      (sets : List SlotSet)
      → Slots m.source w.breakpoints sets
      → Slots m.source (set w.breakpoints p (linked b)) sets
  entered-Slots sets t =
      Slots-set m.source w.breakpoints sets t p b (linked b) held (λ q e. refl)
        (λ q j has. absurd (ground (arith, has.added)))
        (λ r d q j e has mine. absurd (ground (arith, mine.added)))

  -- A store behind that.
  stored-Slots :
      (sets : List SlotSet) (c : Breakpoint)
      → Slots m.source w.breakpoints sets
      → c.bp_enter.rb_empty ≡ false
      → ((q j : ℕ) → Owns c q j → IsTaken sets q j)
      → ((r : ℕ) (d : Breakpoint) (q j : ℕ)
          → deref w.breakpoints r ≡ ok d
          → Owns d q j
          → Owns c q j
          → ⊥)
      → Slots m.source (set (set w.breakpoints p (linked b)) p c) sets
  stored-Slots sets c t in_tree own other =
      Slots-set m.source (set w.breakpoints p (linked b)) sets (entered-Slots sets t) p (linked b) c
        (deref-set w.breakpoints p (linked b) held) (λ q e. in_tree) own
        (λ r d q j e has mine. elim (stored_cases w.breakpoints p r b (linked b) d held e) [
          | inl (at, _) ↦ at
          | inr (_, old) ↦ absurd (other r d q j old has mine)
        ])

  Outcome-Slots :
      (w' : World) (status : Status)
      → Outcome m p b w w' status
      → Slots m.source w'.breakpoints w'.slot_sets
  Outcome-Slots w' status (unchanged n) = s
  Outcome-Slots w' status (met t k e) = s
  Outcome-Slots w' status (slotless t j obj e flag) =
      let empty = search_insert_unlinked m.rb b.bp_enter w.tree t e in
      let none_has : (q : ℕ) → b.slot_set ≢ some q =
        λ q has. absurd (ground (arith, sym (s.in_tree p b q held has) ∙ empty)) in
      stored-Slots w.slot_sets (record (linked b) { obj = some j; chained = true }) s refl
        (λ q k has. absurd (none_has q has.of)) (λ r d q k e' has mine. none_has q mine.of)
  Outcome-Slots w' status (placed t u j obj a e f g) =
      let r = returned a f in
      stored-Slots a.sets _ (grown-Slots a r) refl (λ q k has. own-IsTaken a r q k has.of has.index)
        (λ n d q k e' has mine. own-new a r n d q k e' has mine.of mine.index)
  Outcome-Slots w' status (given_back t a freed e f g) =
      let r = returned a f in
      stored-Slots (put_set freed a.sets) (slotted a (linked b))
        (back-Slots a r freed (slot_free-Freed a.slot a.index freed r.valid g)) refl
        (λ q k has. absurd (ground (arith, sym has.added ∙ free)))
        (λ n d q k e' has mine. absurd (ground (arith, sym mine.added ∙ free)))

-- `breakpoint_add`, however it returns, keeps `Slots`.
pub breakpoint_add-Slots :
    (m : Machine)
    → ((i j r : ℕ) → m.source.calloc i ≡ some r → m.source.calloc j ≡ some r → i ≡ j)
    → (p : ℕ) (b : Breakpoint) (w w' : World) (status : Status) → Inv w
    → Slots m.source w.breakpoints w.slot_sets
    → deref w.breakpoints p ≡ ok b
    → breakpoint_add m p w ≡ ok (w', status)
    → Slots m.source w'.breakpoints w'.slot_sets
breakpoint_add-Slots m once p b w w' status i s held h =
    let (free, o) = breakpoint_add-Outcome m p b w w' status held h in
    Outcome-Slots m once p b w i s held free w' status o
