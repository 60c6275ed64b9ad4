-- ===== src/Slot/Alloc.antt =====
-- `slot_alloc` hands out a free slot and takes it, and always ends.
use atrace.Prelude.{
  ℕ, suc, ◌+◌, ◌*◌, ◌<◌, ◌≡◌, refl, ◌≢◌, ◌⊎◌, inl, inr, sym, subst, ◌∙◌, arith, true, false, ◌&&◌,
  none, some, List, [], ◌∷◌, ◌++◌, ◌==◌, if◌then◌else◌, ok, All, All-append_right,
}
use atrace.Linux.{ListOps}
use atrace.Slot.{
  SlotSet, uint_bit_num, slot_num, slot_map_len, slot_page_size, PageSource, new_set, slot_set_add,
  Allocation, take_slot, scan_sets, slot_alloc,
}
use atrace.Slot.Words.{scan_words-Finds}
use atrace.Slot.Valid.{
  IsValid, is_free, is_free-index, new_set-IsValid, take_slot-IsValid, is_free-take_slot,
}
use atrace.Slot.Scan.{Distinct, IsPool, free_at, IsFull, Chooses, Chooses-found, scan_sets-Chooses}

free_at-replace :
    (before : List SlotSet) (s s' : SlotSet) (after : List SlotSet) (q j i : ℕ)
    → s'.ptr ≡ s.ptr
    → Distinct (before ++ (s ∷ after))
    → is_free s' j ≡ (if i == j then false else is_free s j)
    → free_at (before ++ (s' ∷ after)) q j
      ≡ (if s.ptr == q && i == j then false else free_at (before ++ (s ∷ after)) q j)
free_at-replace [] s s' after q j i same d e = ground arith
free_at-replace (b ∷ before) s s' after q j i same d e = ground (
  arith,
  free_at-replace before s s' after q j i same d.1 e,
  (All-append_right (λ t. t.ptr ≢ b.ptr) before (s ∷ after) d.0).0,
)

All-replace :
    (P : SlotSet → Type 0) (before : List SlotSet) (s s' : SlotSet) (after : List SlotSet)
    → (P s → P s')
    → All P (before ++ (s ∷ after))
    → All P (before ++ (s' ∷ after))
All-replace P [] s s' after f a = (f a.0, a.1)
All-replace P (b ∷ before) s s' after f a = (a.0, All-replace P before s s' after f a.1)

Distinct-replace :
    (before : List SlotSet) (s s' : SlotSet) (after : List SlotSet)
    → s'.ptr ≡ s.ptr
    → Distinct (before ++ (s ∷ after))
    → Distinct (before ++ (s' ∷ after))
Distinct-replace [] s s' after e d =
    (subst (λ (p : ℕ). All (λ t. t.ptr ≢ p) after) (sym e) d.0, d.1)
Distinct-replace (b ∷ before) s s' after e d = (
  All-replace (λ t. t.ptr ≢ b.ptr) before s s' after (λ ne same. ne (sym e ∙ same)) d.0,
  Distinct-replace before s s' after e d.1,
)

-- What a choice does to a pool: the chosen slot was free and is taken, and no other slot changes.
pub record Takes (sets : List SlotSet) (a : Allocation) : Type 0 where
  pub pool : IsPool a.sets
  pub in_range : a.index < slot_num
  pub was_free : free_at sets a.slot.ptr a.index ≡ true
  pub only :
      (q j : ℕ)
      → free_at a.sets q j ≡ (if a.slot.ptr == q && a.index == j then false else free_at sets q j)

pub free_at_middle :
    (before : List SlotSet) (s : SlotSet) (after : List SlotSet) (j : ℕ)
    → Distinct (before ++ (s ∷ after))
    → free_at (before ++ (s ∷ after)) s.ptr j ≡ is_free s j
free_at_middle [] s after j d = ground arith
free_at_middle (b ∷ before) s after j d = ground (
  arith,
  free_at_middle before s after j d.1,
  (All-append_right (λ t. t.ptr ≢ b.ptr) before (s ∷ after) d.0).0,
)

All_middle :
    (P : SlotSet → Type 0) (before : List SlotSet) (s : SlotSet) (after : List SlotSet)
    → All P (before ++ (s ∷ after))
    → P s
All_middle P before s after a = (All-append_right P before (s ∷ after) a).0

module _ (sets : List SlotSet) (a : Allocation) (pool : IsPool sets) (c : Chooses sets a) where
  pub chosen-IsValid : IsValid c.curr
  chosen-IsValid =
      All_middle IsValid c.before c.curr c.after (subst (All IsValid) c.split pool.valid)

  chosen-Distinct : Distinct (c.before ++ (c.curr ∷ c.after))
  chosen-Distinct = subst Distinct c.split pool.distinct

  chosen_free : is_free c.curr (c.idx * uint_bit_num + c.pos) ≡ true
  chosen_free = is_free-index c.curr c.idx c.pos c.pos_lt ∙ c.free

  pub Chooses-Takes : Takes sets a
  Chooses-Takes = record {
    pool = record {
      valid = subst (All IsValid) (sym c.sets_after) (
          All-replace IsValid c.before c.curr (take_slot c.curr c.idx c.pos) c.after
            (λ v. take_slot-IsValid c.curr c.idx c.pos v c.idx_lt c.pos_lt c.free)
            (subst (All IsValid) c.split pool.valid));
      distinct = subst Distinct (sym c.sets_after) (
          Distinct-replace c.before c.curr (take_slot c.curr c.idx c.pos) c.after refl
            chosen-Distinct);
    };
    in_range = omega (arith, c.index_is, c.idx_lt, c.pos_lt);
    was_free =
        rw (c.slot_is, c.index_is, c.split)
          (free_at_middle c.before c.curr c.after _ chosen-Distinct ∙ chosen_free);
    only = λ q j.
        rw (c.sets_after, c.slot_is, c.index_is, c.split)
          (free_at-replace c.before c.curr (take_slot c.curr c.idx c.pos) c.after q j _ refl
            chosen-Distinct
            (is_free-take_slot c.curr c.idx c.pos chosen-IsValid c.idx_lt c.pos_lt c.free j));
  }

module _ (lists : ListOps SlotSet) (source : PageSource) where
  pub alloc-room :
      (fuel count : ℕ) (sets : List SlotSet) (a : Allocation)
      → scan_sets 0 sets ≡ some a
      → slot_alloc lists source (suc fuel) count sets ≡ ok a
  unfolding slot_alloc
  alloc-room fuel count sets a e = rw (slot_alloc, e)

  pub alloc-retry :
      (fuel count : ℕ) (sets : List SlotSet) (q base : ℕ)
      → scan_sets 0 sets ≡ none
      → source.calloc count ≡ some q
      → source.mmap count slot_page_size ≡ some base
      → slot_alloc lists source (suc fuel) count sets
        ≡ slot_alloc lists source fuel (suc count) (new_set q base ∷ sets)
  unfolding slot_alloc slot_set_add
  alloc-retry fuel count sets q base e c m =
      rw (slot_alloc, e, slot_set_add, c, m, lists.list_add_lem (new_set q base) sets)

  pub new_set-Chooses :
      (q base : ℕ) (sets : List SlotSet)
      → (a : Allocation) × (scan_sets 0 (new_set q base ∷ sets) ≡ some a)
        × Chooses (new_set q base ∷ sets) a
  new_set-Chooses q base sets =
      let v = new_set-IsValid q base in
      Chooses-found (new_set q base) sets v (omega arith) (
        scan_words-Finds slot_map_len 0 (new_set q base).free_slot (omega arith) v.width v.words
          (omega (arith, v.counted)))

  -- From a pool of valid sets, where the system gives a new set at an address that no set has, and
  -- with fuel for one retry, `slot_alloc` returns. The slot that it hands out was free in the
  -- pool, or in the pool with the new set in front if every set was full; its index is below
  -- SLOT_NUM; it is taken afterwards; no other slot changes; and the sets are valid again.
  pub slot_alloc-Takes :
      (fuel count q base : ℕ) (sets : List SlotSet)
      → IsPool sets
      → source.calloc count ≡ some q
      → source.mmap count slot_page_size ≡ some base
      → All (λ s. s.ptr ≢ q) sets
      → (sets' : List SlotSet) × (a : Allocation) × ((sets' ≡ sets)
          ⊎ (All IsFull sets × (sets' ≡ new_set q base ∷ sets)))
        × (slot_alloc lists source (suc (suc fuel)) count sets ≡ ok a)
        × Takes sets' a
  slot_alloc-Takes fuel count q base sets pool c m fresh =
      elim (scan_sets-Chooses sets pool.valid) [
        | inr (a, some_a, choice) ↦ (
          sets,
          a,
          inl refl,
          alloc-room (suc fuel) count sets a some_a,
          Chooses-Takes sets a pool choice,
        )
        | inl (nothing, full) ↦
            let grown = new_set q base ∷ sets in
            let (a, some_a, choice) = new_set-Chooses q base sets in
            let pool' : IsPool grown = record {
              valid = (new_set-IsValid q base, pool.valid);
              distinct = (fresh, pool.distinct);
            } in
            (
              grown,
              a,
              inr (full, refl),
              alloc-retry (suc fuel) count sets q base nothing c m
                  ∙ alloc-room fuel (suc count) grown a some_a,
              Chooses-Takes grown a pool' choice,
            )
      ]
