-- ===== src/Breakpoint/Code.antt =====
-- Patched code: object_memory_lock and object_memory_unlock of signal_test/object.c, and breakpoint_enable and
-- breakpoint_disable of signal_test/breakpoint.c.
use atrace.Prelude.{
  ℕ, ◌-◌, true, false, not, Option, none, some, ◌∷◌, if◌then◌else◌, set, Run, ok, fault, Fault,
  check, ◌>>=◌, ◌>>◌, Status, success, minus,
}
use atrace.Object.{Object}
use atrace.Slot.{bp_get_slot_offset}
use atrace.Breakpoint.{
  bkpt_attr_flag_enable, brk, breakpoint_attr_set, breakpoint_attr_clr, breakpoint_attr_flag, World,
  Machine, in_text, deref, write, slot_of, Breakpoint,
}

module _ (m : Machine) where
  -- `object_memory_lock`, which also clears the cache.
  unfoldable pub object_memory_lock : Object → World → World × Status
  object_memory_lock obj w =
      if m.mprotect false obj.text_start (obj.text_end - obj.text_start)
      then (
        record w {
          writable = λ a. if in_text obj a then false else w.writable a;
          cleared = (obj.text_start, obj.text_end) ∷ w.cleared;
        },
        success,
      )
      else (w, minus 1)

  unfoldable pub object_memory_unlock : Object → World → World × Status
  object_memory_unlock obj w =
      if m.mprotect true obj.text_start (obj.text_end - obj.text_start)
      then (record w { writable = λ a. if in_text obj a then true else w.writable a }, success)
      else (w, minus 1)

  -- A store into code; where it may not be written the process gets a signal.
  abbrev pub patch : ℕ → ℕ → World → Run World
  patch addr v w =
      if w.writable addr
      then ok (record w { memory = write addr v w.memory })
      else fault Fault.out_of_bounds

  -- Unlock, write, lock; the results of both calls are dropped. `bkpt->obj` may be NULL.
  unfoldable pub patch_object : Option ℕ → Breakpoint → ℕ → World → Run World
  patch_object none bkpt v w = fault Fault.assertion
  patch_object (some i) bkpt v w = deref w.objects i >>= λ obj.
      patch bkpt.bp_enter.address v (object_memory_unlock obj w).0 >>= λ patched.
      ok (object_memory_lock obj patched).0

  unfoldable pub breakpoint_enable : ℕ → World → Run (World × Status)
  breakpoint_enable p w = do
    bkpt ← deref w.breakpoints p
    check (not bkpt.bp_enter.rb_empty)
    if breakpoint_attr_flag bkpt_attr_flag_enable bkpt
        then ok (w, success)
        else (let enabled = breakpoint_attr_set bkpt_attr_flag_enable bkpt in
            patch_object bkpt.obj enabled brk
              (record w { breakpoints = set w.breakpoints p enabled })
            >>= λ w'. ok (w', success))

  unfoldable pub breakpoint_disable : ℕ → World → Run (World × Status)
  breakpoint_disable p w = do
    bkpt ← deref w.breakpoints p
    check (not bkpt.bp_enter.rb_empty)
    if not (breakpoint_attr_flag bkpt_attr_flag_enable bkpt)
        then ok (w, success)
        else (let disabled = breakpoint_attr_clr bkpt_attr_flag_enable bkpt in
            slot_of bkpt.slot_set w.slot_sets >>= λ s.
            patch_object bkpt.obj disabled (w.memory (bp_get_slot_offset s bkpt.slot_index))
              (record w { breakpoints = set w.breakpoints p disabled })
            >>= λ w'. ok (w', success))
