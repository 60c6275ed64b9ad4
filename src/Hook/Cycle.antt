-- ===== src/Hook/Cycle.antt =====
-- The two traps of a breakpoint: at its address, and behind its slot.
use atrace.Prelude.{
  ℕ, ◌+◌, ◌%◌, ◌^◌, ◌≡◌, refl, ◌≢◌, sym, ap, subst, ◌∙◌, arith, true, Option, none, some, ◌==◌, ok,
}
use mathlib.Core.Option.{get_or as or_else}
use atrace.ThreadMap.{Thread, ThreadMap, thread_map_find}
use atrace.ThreadMap.Find.{view, find-view}
use atrace.ThreadMap.Laws.{IsValid}
use atrace.Slot.{SlotSet, bp_get_slot_offset}
use atrace.Breakpoint.{Breakpoint, World, breakpoint_find, deref, slot_of}
use atrace.Hook.{Process, Runtime, store_thread, current_thread, single_step, sigtrap_handler}
use atrace.Hook.Store.{
  store_thread-IsValid, view-store_thread, new_thread, Current, current_thread-Current,
}

-- The breakpoint `p` is found at a program counter, and its slot is in `set`.
pub record IsAt (w : World) (pc p : ℕ) (bkpt : Breakpoint) (set : SlotSet) : Type 0 where
  pub found : breakpoint_find w pc ≡ some p
  pub held : deref w.breakpoints p ≡ ok bkpt
  pub slots : slot_of bkpt.slot_set w.slot_sets ≡ ok set

-- A trap of the thread `thread_id` changed nothing but that thread, which is now stepping `stepping`.
pub record Trapped (thread_id : ℕ) (stepping : Option ℕ) (s s' : Process) : Type 0 where
  pub world : s'.world ≡ s.world
  pub valid : IsValid s'.threads
  pub thread : (t : Thread) × (view s'.threads thread_id ≡ some t) × (t.singlestep_bp ≡ stepping)
  pub others : (j : ℕ) → j ≢ thread_id → thread_map_find s'.threads j ≡ thread_map_find s.threads j

-- The breakpoint that a thread is stepping; a thread with no object steps none.
abbrev pub stepping_of : ThreadMap → ℕ → Option ℕ
stepping_of m thread_id = (or_else (view m thread_id) (new_thread thread_id)).singlestep_bp

module _ (runtime : Runtime) (memory : runtime.calloc ≡ true) where
  pub stored :
      (thread_id : ℕ) (stepping : Option ℕ) (s : Process) (m : ThreadMap) (t : Thread)
      → IsValid s.threads
      → Current thread_id s.threads (m, t)
      → Trapped thread_id stepping s
          (record s { threads = store_thread (record t { singlestep_bp = stepping }) m })
  stored thread_id stepping s m t v c =
      let t' : Thread = record t { singlestep_bp = stepping } in
      let held' : view m t'.tid ≡ some t = ap (view m) c.named ∙ c.held in
      let valid = store_thread-IsValid t' t m c.valid held' c.linked_in in
      let seen = view-store_thread t' t m c.valid held' c.linked_in in
      record {
        world = refl;
        valid = valid;
        thread = (t', seen thread_id ∙ ground (arith, c.named), refl);
        others = λ j ne.
            find-view _ j valid.width
            ∙ ap ok (seen j ∙ ground (arith, c.named) ∙ c.others j ne)
            ∙ sym (find-view s.threads j v.width);
      }

  -- The handler up to the test of `singlestep_bp`.
  handled :
      (thread_id pc p : ℕ) (bkpt : Breakpoint) (set : SlotSet) (s : Process) (m : ThreadMap)
      (t : Thread)
      → IsAt s.world pc p bkpt set
      → current_thread runtime thread_id s.threads ≡ ok (m, t)
      → sigtrap_handler runtime thread_id pc s
        ≡ single_step p bkpt (record s { threads = m }) t t.singlestep_bp
  unfolding sigtrap_handler
  handled thread_id pc p bkpt set s m t at e = rw (sigtrap_handler, e, at.found, at.held) refl

  -- The first trap: the thread goes on in the slot.
  pub first_trap :
      (thread_id pc p : ℕ) (bkpt : Breakpoint) (set : SlotSet) (s : Process)
      → IsValid s.threads
      → IsAt s.world pc p bkpt set
      → stepping_of s.threads thread_id ≡ none
      → (s' : Process) × (sigtrap_handler runtime thread_id pc s
          ≡ ok (s', bp_get_slot_offset set bkpt.slot_index))
        × Trapped thread_id (some p) s s'
  first_trap thread_id pc p bkpt set s v at idle =
      let ((m, t), e, c) = current_thread-Current runtime thread_id s.threads memory v in
      let step = ap (λ u. u.singlestep_bp) c.was ∙ idle in
      (
        record s { threads = store_thread (record t { singlestep_bp = some p }) m },
        handled thread_id pc p bkpt set s m t at e
            ∙ ap (single_step p bkpt (record s { threads = m }) t) step
            ∙ rw at.slots refl,
        stored thread_id (some p) s m t v c,
      )

  -- The second trap: the thread goes on behind the instruction.
  pub second_trap :
      (thread_id pc p : ℕ) (bkpt : Breakpoint) (set : SlotSet) (s : Process)
      → IsValid s.threads
      → IsAt s.world pc p bkpt set
      → stepping_of s.threads thread_id ≡ some p
      → (s' : Process) × (sigtrap_handler runtime thread_id pc s
          ≡ ok (s', (bkpt.bp_enter.address + 4) % 2 ^ 64))
        × Trapped thread_id none s s'
  second_trap thread_id pc p bkpt set s v at stepping =
      let ((m, t), e, c) = current_thread-Current runtime thread_id s.threads memory v in
      let step = ap (λ u. u.singlestep_bp) c.was ∙ stepping in
      let same : (p == p) ≡ true = ground arith in
      (
        record s { threads = store_thread (record t { singlestep_bp = none }) m },
        handled thread_id pc p bkpt set s m t at e
            ∙ ap (single_step p bkpt (record s { threads = m }) t) step
            ∙ rw same refl,
        stored thread_id none s m t v c,
      )

  -- A thread that steps no breakpoint and reaches a breakpoint goes on in its slot; when it then traps
  -- behind the slot, it goes on 4 bytes behind the breakpoint's address, and again steps none. Neither trap
  -- changes the breakpoints, memory or another thread, and the map of threads stays valid.
  pub sigtrap_handler-cycle :
      (thread_id enter_pc return_pc p : ℕ) (bkpt : Breakpoint) (set : SlotSet) (s : Process)
      → IsValid s.threads
      → IsAt s.world enter_pc p bkpt set
      → IsAt s.world return_pc p bkpt set
      → stepping_of s.threads thread_id ≡ none
      → (s' : Process) × (s'' : Process) × (sigtrap_handler runtime thread_id enter_pc s
          ≡ ok (s', bp_get_slot_offset set bkpt.slot_index))
        × (sigtrap_handler runtime thread_id return_pc s'
            ≡ ok (s'', (bkpt.bp_enter.address + 4) % 2 ^ 64))
        × Trapped thread_id (some p) s s'
        × Trapped thread_id none s' s''
  sigtrap_handler-cycle thread_id enter_pc return_pc p bkpt set s v enter back idle =
      let (s', e, t) = first_trap thread_id enter_pc p bkpt set s v enter idle in
      let there : IsAt s'.world return_pc p bkpt set =
        subst (λ (w : World). IsAt w return_pc p bkpt set) (sym t.world) back in
      let stepping : stepping_of s'.threads thread_id ≡ some p =
        ap (λ o. (or_else o (new_thread thread_id)).singlestep_bp) t.thread.1 ∙ t.thread.2 in
      let (s'', e', t') = second_trap thread_id return_pc p bkpt set s' t.valid there stepping in
      (s', s'', e, e', t, t')
