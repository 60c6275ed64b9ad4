-- ===== src/Hook/EntryPoint.antt =====
-- The two traps of the entry point in signal_test/hook_main.c: at its address the objects are loaded, and behind the
-- slot the handler of all later traps is set.
use atrace.Prelude.{
  ℕ, ◌+◌, ◌%◌, ◌^◌, ◌≡◌, refl, ◌≢◌, ap, ◌∙◌, true, false, Option, none, some, List, ok, ◌>>=◌, Run,
}
use atrace.ThreadMap.{Thread, ThreadMap, thread_map_find}
use atrace.ThreadMap.Find.{find-view}
use atrace.ThreadMap.Laws.{IsValid}
use atrace.Object.{Object}
use atrace.Object.Maps.{object_load}
use atrace.Slot.{SlotSet, bp_get_slot_offset}
use atrace.Breakpoint.{Breakpoint, deref, slot_of}
use atrace.Hook.{
  Process, Runtime, Loader, sigtrap, entrypoint_trap, store_thread, current_thread, asserted,
  entry_step, entrypoint_trap_handler, deliver,
}
use atrace.Hook.Store.{Current, current_thread-Current}
use atrace.Hook.Cycle.{stored}

-- The breakpoint `p` of the entry point is made, and its slot is in `set`.
pub record IsEntry (s : Process) (p : ℕ) (bkpt : Breakpoint) (set : SlotSet) : Type 0 where
  pub entry : s.entry_bp ≡ some p
  pub held : deref s.world.breakpoints p ≡ ok bkpt
  pub slots : slot_of bkpt.slot_set s.world.slot_sets ≡ ok set

-- A trap left the map of threads valid, with one thread stepping `stepping` and every other as it was.
pub record Stores (thread_id : ℕ) (stepping : Option ℕ) (m m' : ThreadMap) : Type 0 where
  pub valid : IsValid m'
  pub others : (j : ℕ) → j ≢ thread_id → thread_map_find m' j ≡ thread_map_find m j
  pub thread :
      (t : Thread) × (thread_map_find m' thread_id ≡ ok (some t)) × (t.singlestep_bp ≡ stepping)

module _ (runtime : Runtime) (memory : runtime.calloc ≡ true) (loader : Loader) where
  handled_entry :
      (thread_id pc p : ℕ) (bkpt : Breakpoint) (s : Process) (m : ThreadMap) (t : Thread)
      → current_thread runtime thread_id s.threads ≡ ok (m, t)
      → s.entry_bp ≡ some p
      → deref s.world.breakpoints p ≡ ok bkpt
      → entrypoint_trap_handler runtime loader thread_id pc s
        ≡ entry_step runtime loader p bkpt (record s { threads = m }) t s.entry_hit
  unfolding entrypoint_trap_handler
  handled_entry thread_id pc p bkpt s m t e entry held =
      let behind : ThreadMap × Thread → ℕ → Breakpoint → Run (Process × ℕ) = λ current i b.
        entry_step runtime loader i b (record s { threads = current.0 }) current.1 s.entry_hit in
      ap
        (λ r. r >>= λ current.
          asserted s.entry_bp >>= λ i. deref s.world.breakpoints i >>= λ b. behind current i b)
        e
      ∙ ap (λ o. asserted o >>= λ i. deref s.world.breakpoints i >>= λ b. behind (m, t) i b) entry
      ∙ ap (λ r. r >>= λ b. behind (m, t) p b) held

  stores :
      (thread_id : ℕ) (stepping : Option ℕ) (s : Process) (m : ThreadMap) (t : Thread)
      → IsValid s.threads
      → Current thread_id s.threads (m, t)
      → Stores thread_id stepping s.threads (store_thread (record t { singlestep_bp = stepping }) m)
  stores thread_id stepping s m t v c =
      let trapped = stored runtime memory thread_id stepping s m t v c in
      record {
        valid = trapped.valid;
        others = trapped.others;
        thread = (
          trapped.thread.0,
          find-view _ thread_id trapped.valid.width ∙ ap ok trapped.thread.1,
          trapped.thread.2,
        );
      }

  -- At a process that was set up for its entry point and has not reached it, the first trap sends its thread into the slot, with
  -- the objects loaded anew; the next trap sends its thread 4 bytes behind the entry point, and from then on
  -- sigtrap_handler is the handler. The breakpoints, the slots and memory stay as they were.
  pub entrypoint_trap_handler-cycle :
      (thread_id pc second_id second_pc p : ℕ) (bkpt : Breakpoint) (set : SlotSet)
      (objects : List Object) (s : Process)
      → IsValid s.threads
      → IsEntry s p bkpt set
      → s.handler ≡ entrypoint_trap
      → s.entry_hit ≡ false
      → object_load loader.object_lists loader.memory loader.self loader.opened loader.reads
          s.world.objects
        ≡ ok objects
      → (s' : Process) × (s'' : Process) × (deliver runtime s.handler loader thread_id pc s
          ≡ ok (s', bp_get_slot_offset set bkpt.slot_index))
        × (deliver runtime s'.handler loader second_id second_pc s'
            ≡ ok (s'', (bkpt.bp_enter.address + 4) % 2 ^ 64))
        × Stores thread_id (some p) s.threads s'.threads
        × Stores second_id none s'.threads s''.threads
        × (s''.world ≡ record s.world { objects = objects })
        × (s''.handler ≡ sigtrap)
  unfolding deliver
  entrypoint_trap_handler-cycle thread_id pc second_id second_pc p bkpt set objects s v at handler
        hit loaded =
      let ((m, t), e, c) = current_thread-Current runtime thread_id s.threads memory v in
      let s' : Process = record s {
        world = record s.world { objects = objects };
        entry_hit = true;
        threads = store_thread (record t { singlestep_bp = some p }) m;
      } in
      let entered = stores thread_id (some p) s m t v c in
      let ((m', t'), e', c') =
        current_thread-Current runtime second_id s'.threads memory entered.valid in
      (
        s',
        record s' {
          handler = sigtrap;
          threads = store_thread (record t' { singlestep_bp = none }) m';
        },
        ap (λ h. deliver runtime h loader thread_id pc s) handler
            ∙ handled_entry thread_id pc p bkpt s m t e at.entry at.held
            ∙ ap (entry_step runtime loader p bkpt (record s { threads = m }) t) hit
            ∙ rw (loaded, at.slots) refl,
        ap (λ h. deliver runtime h loader second_id second_pc s') handler
            ∙ handled_entry second_id second_pc p bkpt s' m' t' e' at.entry at.held,
        entered,
        stores second_id none s' m' t' entered.valid c',
        refl,
        refl,
      )
