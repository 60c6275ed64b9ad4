-- ===== src/Slot/Returned.antt =====
-- What a call of `slot_alloc` that returned has done, and which set it may have added.
use atrace.Prelude.{
  ℕ, suc, ◌≡◌, refl, ◌≢◌, ◌⊎◌, inl, inr, sym, ap, subst, ◌∙◌, arith, Option, none, some, List, [],
  ◌∷◌, ◌++◌, map, ok, fault, Fault, ◌>>=◌, bind-eq-ok, ok_inj, All, Bool, true, false, ◌==◌, ◌/◌,
  ◌%◌, ltb, if◌then◌else◌, get_or, check, dec_lt,
}
use atrace.Prelude.Bits.{test_bit}
use atrace.Linux.{ListOps}
use atrace.Slot.{
  SlotSet, PageSource, Allocation, new_set, take_slot, slot_free, uint_bit_num, slot_set_add,
  slot_alloc, slot_page_size,
}
use atrace.Slot.Valid.{IsValid, is_free, new_set-IsValid, take_slot-IsValid}
use atrace.Slot.Scan.{IsPool, Distinct, free_at, Chooses, scan_sets-Chooses}
use atrace.Slot.Free.{slot_free-first, slot_free-beyond}
use atrace.Slot.Alloc.{
  Takes, Chooses-Takes, chosen-IsValid, free_at_middle, alloc-room, alloc-retry, new_set-Chooses,
}

same_ptr :
    (before after : List SlotSet) (s s' : SlotSet)
    → s'.ptr ≡ s.ptr
    → map (λ u. u.ptr) (before ++ s' ∷ after) ≡ map (λ u. u.ptr) (before ++ s ∷ after)
same_ptr [] after s s' e = ap (λ (q : ℕ). q ∷ map (λ u. u.ptr) after) e
same_ptr (b ∷ before) after s s' e = ap (λ qs. b.ptr ∷ qs) (same_ptr before after s s' e)

-- The system gave a set.
pub record Gave (source : PageSource) (count : ℕ) : Type 0 where
  pub q : ℕ
  pub base : ℕ
  pub calloc : source.calloc count ≡ some q
  pub mmap : source.mmap count slot_page_size ≡ some base

module _ (lists : ListOps SlotSet) (source : PageSource) where
  slot_set_add-Gave :
      (count : ℕ) (sets more : List SlotSet)
      → slot_set_add lists source count sets ≡ ok more
      → Gave source count
  unfolding slot_set_add
  slot_set_add-Gave count sets more h =
      go (source.calloc count) (source.mmap count slot_page_size) refl refl h
    where
      go :
          (o p : Option ℕ)
          → source.calloc count ≡ o
          → source.mmap count slot_page_size ≡ p
          → (elim o [
            | none ↦ fault Fault.aborted
            | some q ↦ elim p [
              | none ↦ fault Fault.aborted
              | some map_ptr ↦ ok (lists.list_add (new_set q map_ptr) sets)
            ]
          ])
            ≡ ok more
          → Gave source count
      go none p c d k = absurd (ground arith)
      go (some q) none c d k = absurd (ground arith)
      go (some q) (some base) c d k = record { q = q; base = base; calloc = c; mmap = d }

  -- The slot was taken from the sets, or from the sets with a new one in front.
  pub record Returned (count : ℕ) (sets : List SlotSet) (a : Allocation) : Type 0 where
    pub from : List SlotSet
    pub origin :
        (from ≡ sets)
        ⊎ ((q : ℕ) × (base : ℕ) × (source.calloc count ≡ some q) × (from ≡ new_set q base ∷ sets))
    pub takes : Takes from a
    pub same_sets : map (λ s. s.ptr) a.sets ≡ map (λ s. s.ptr) from
    pub valid : IsValid a.slot
    pub here : (j : ℕ) → free_at a.sets a.slot.ptr j ≡ is_free a.slot j

  taken-Returned :
      (count : ℕ) (sets from : List SlotSet) (a b : Allocation)
      → ((from ≡ sets)
          ⊎ ((q : ℕ) × (base : ℕ) × (source.calloc count ≡ some q)
              × (from ≡ new_set q base ∷ sets)))
      → IsPool from
      → Chooses from b
      → slot_alloc lists source 2 count sets ≡ ok b
      → slot_alloc lists source 2 count sets ≡ ok a
      → Returned count sets a
  taken-Returned count sets from a b origin pool choice done h =
      subst (Returned count sets) (ok_inj (sym done ∙ h)) (record {
        from = from;
        origin = origin;
        takes = Chooses-Takes from b pool choice;
        same_sets =
            rw (choice.sets_after, choice.split)
              (same_ptr choice.before choice.after choice.curr _ refl);
        valid = rw choice.slot_is (
            take_slot-IsValid choice.curr choice.idx choice.pos (chosen-IsValid from b pool choice)
              choice.idx_lt choice.pos_lt choice.free);
        here = λ j.
            rw (choice.sets_after, choice.slot_is)
              (free_at_middle choice.before (take_slot choice.curr choice.idx choice.pos)
                choice.after j
                (subst Distinct choice.sets_after
                  (Chooses-Takes from b pool choice).pool.distinct));
      })

  pub slot_alloc-Returned :
      (count : ℕ) (sets : List SlotSet) (a : Allocation)
      → IsPool sets
      → ((q : ℕ) → source.calloc count ≡ some q → All (λ s. s.ptr ≢ q) sets)
      → slot_alloc lists source 2 count sets ≡ ok a
      → Returned count sets a
  unfolding slot_alloc
  slot_alloc-Returned count sets a pool fresh h = elim (scan_sets-Chooses sets pool.valid) [
    | inr (b, some_b, choice) ↦
        taken-Returned count sets sets a b (inl refl) pool choice
          (alloc-room lists source 1 count sets b some_b) h
    | inl (nothing, full) ↦
        let next = λ (more : List SlotSet). slot_alloc lists source 1 (suc count) more in
        let retries : slot_alloc lists source 2 count sets
            ≡ slot_set_add lists source count sets >>= next =
          rw (slot_alloc, nothing) refl in
        let (more, e, _) =
          bind-eq-ok (slot_set_add lists source count sets) next (sym retries ∙ h) in
        let g = slot_set_add-Gave count sets more e in
        let grown = new_set g.q g.base ∷ sets in
        let (b, some_b, choice) = new_set-Chooses lists source g.q g.base sets in
        taken-Returned count sets grown a b (inr (g.q, g.base, g.calloc, refl))
          (record {
            valid = (new_set-IsValid g.q g.base, pool.valid);
            distinct = (fresh g.q g.calloc, pool.distinct);
          })
          choice
          (alloc-retry lists source 1 count sets g.q g.base nothing g.calloc g.mmap
            ∙ alloc-room lists source 0 (suc count) grown b some_b)
          h
  ]

slot_free-ptr :
    (s : SlotSet) (index : ℕ) (freed : SlotSet) → slot_free s index ≡ ok freed → freed.ptr ≡ s.ptr
unfolding slot_free
slot_free-ptr s index freed h =
    let (_, _, k) = bind-eq-ok (check (ltb index uint_bit_num)) _ h in
    go (test_bit (get_or s.free_slot (index / uint_bit_num) 0) (index % uint_bit_num)) _ k
  where
    go :
        (is_set : Bool) (t : List ℕ × ℕ)
        → ok (if is_set then s else record s { free_slot = t.0; used_slot_count = t.1 }) ≡ ok freed
        → freed.ptr ≡ s.ptr
    go true t k = ap (λ (x : SlotSet). x.ptr) (sym (ok_inj k))
    go false t k = ap (λ (x : SlotSet). x.ptr) (sym (ok_inj k))

-- A call of `slot_free` that returned has freed the slot of a valid set, and no other.
pub record Freed (s : SlotSet) (index : ℕ) (freed : SlotSet) : Type 0 where
  pub valid : IsValid freed
  pub same_ptr : freed.ptr ≡ s.ptr
  pub frees : (j : ℕ) → is_free freed j ≡ (if index == j then true else is_free s j)

pub slot_free-Freed :
    (s : SlotSet) (index : ℕ) (freed : SlotSet)
    → IsValid s
    → slot_free s index ≡ ok freed
    → Freed s index freed
slot_free-Freed s index freed v h = elim (dec_lt index uint_bit_num) [
  | yes small ↦
      let (s', e, valid, frees, _) = slot_free-first s index v small in
      subst (Freed s index) (ok_inj (sym e ∙ h))
        (record { valid = valid; same_ptr = slot_free-ptr s index s' e; frees = frees })
  | no big ↦ absurd (ground (arith, slot_free-beyond s index (omega arith)))
]
