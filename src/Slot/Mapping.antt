-- ===== src/Slot/Mapping.antt =====
-- `slot_set_add` maps SLOT_PAGE_SIZE bytes for a set, and counts SLOT_NUM slots in it: twice as many as
-- fit.
use atrace.Prelude.{
  All, List, ◌++◌, ap, some, ℕ, suc, ◌+◌, ◌*◌, ◌/◌, ◌≤◌, ◌<◌, ◌≡◌, refl, ◌≢◌, sym, ◌∙◌, arith, true,
  false, [], ◌∷◌, ok, dec_lt,
}
use atrace.Linux.{ListOps}
use atrace.Slot.{
  SlotSet, slot_num, slot_map_len, slot_page_size, slot_size, uint_bit_num, bp_get_slot_offset,
  PageSource, Allocation, scan_words, scan_sets, behind_set, slot_alloc,
}
use atrace.Slot.Words.{Finds, scan_words-Finds}
use atrace.Slot.Valid.{IsValid, is_free, is_free-index}
use atrace.Slot.Scan.{IsFull, scan_sets-full, chosen, scan_sets-found}
use atrace.Slot.Alloc.{alloc-room}

beyond_mapping :
    (s : SlotSet) (index : ℕ)
    → ((j : ℕ) → j < slot_page_size / slot_size → is_free s j ≡ false)
    → is_free s index ≡ true
    → s.slots + slot_page_size ≤ bp_get_slot_offset s index
beyond_mapping s index taken free = elim (dec_lt index 512) [
  | yes low ↦ absurd (cc (sym (taken index low) ∙ free))
  | no high ↦ omega arith
]

-- The loop goes past sets that are full.
scan_sets_behind :
    (before rest : List SlotSet) (a : Allocation)
    → All IsFull before
    → scan_sets 0 rest ≡ some a
    → scan_sets 0 (before ++ rest) ≡ some (record a { sets = before ++ a.sets })
scan_sets_behind [] rest a full e = e
scan_sets_behind (b ∷ before) rest a full e =
    scan_sets-full b (before ++ rest) full.0
    ∙ ap (behind_set b) (scan_sets_behind before rest a full.1 e)

-- Where every set in front of a valid set is full, and that set is not full but has all the slots taken that
-- lie in its mapped bytes, slot_alloc hands out a slot of that set which begins behind the mapped bytes.
pub slot_alloc_beyond_mapping :
    (lists : ListOps SlotSet) (source : PageSource) (fuel count : ℕ) (before after : List SlotSet)
    (s : SlotSet)
    → All IsFull before
    → IsValid s
    → s.used_slot_count ≢ slot_num
    → ((j : ℕ) → j < slot_page_size / slot_size → is_free s j ≡ false)
    → (a : Allocation) × (slot_alloc lists source (suc fuel) count (before ++ s ∷ after) ≡ ok a)
      × (a.slot.ptr ≡ s.ptr)
      × (a.slot.slots ≡ s.slots)
      × (s.slots + slot_page_size ≤ bp_get_slot_offset s a.index)
slot_alloc_beyond_mapping lists source fuel count before after s full v room taken = handed (
    scan_words-Finds slot_map_len 0 s.free_slot (omega arith) v.width v.words
      (omega (arith, v.counted)))
  where
    handed :
        Finds s.free_slot (scan_words slot_map_len 0 s.free_slot)
        → (a : Allocation) × (slot_alloc lists source (suc fuel) count (before ++ s ∷ after) ≡ ok a)
          × (a.slot.ptr ≡ s.ptr)
          × (a.slot.slots ≡ s.slots)
          × (s.slots + slot_page_size ≤ bp_get_slot_offset s a.index)
    handed f =
        let a = chosen s after f.idx f.pos in
        (
          record a { sets = before ++ a.sets },
          alloc-room lists source fuel count (before ++ s ∷ after) _ (
              scan_sets_behind before (s ∷ after) a full
                (scan_sets-found s after f.idx f.pos room f.is_found)),
          refl,
          refl,
          beyond_mapping s (f.idx * uint_bit_num + f.pos) taken
              (is_free-index s f.idx f.pos f.pos_lt ∙ f.is_free),
        )
