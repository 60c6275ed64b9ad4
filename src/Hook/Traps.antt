-- ===== src/Hook/Traps.antt =====
-- What any trap that sigtrap_handler of signal_test/hook_main.c returns from has done.
use atrace.Prelude.{
  ℕ, ◌≡◌, refl, sym, ap, ◌∙◌, arith, subst, true, Option, none, some, ◌==◌, inl, inr, ◌⊎◌, Run, ok,
  ok_inj, check-ok, check, bind-eq-ok,
}
use atrace.ThreadMap.{Thread, ThreadMap}
use atrace.ThreadMap.Laws.{IsValid}
use atrace.Breakpoint.{Breakpoint, breakpoint_find, deref, slot_of}
use atrace.Hook.{Process, Runtime, current_thread, asserted, single_step, sigtrap_handler}
use atrace.Hook.Store.{Current, current_thread-Current}
use atrace.Hook.Cycle.{Trapped, stepping_of, stored}

-- The breakpoint at the program counter is `p`, which the thread did not step and steps now, or the other
-- way around.
abbrev pub Switches : ℕ → ℕ → Process → Process → Type 0
Switches thread_id p s s' =
    ((stepping_of s.threads thread_id ≡ none) × Trapped thread_id (some p) s s')
    ⊎ ((stepping_of s.threads thread_id ≡ some p) × Trapped thread_id none s s')

asserted-ok : (o : Option ℕ) (p : ℕ) → asserted o ≡ ok p → o ≡ some p
asserted-ok none p h = absurd (ground arith)
asserted-ok (some q) p h = ground arith

pub same_process :
    (s t : Process) (pc pc' : ℕ) → ◌≡◌ {A = Run (Process × ℕ)} (ok (s, pc)) (ok (t, pc')) → s ≡ t
same_process s t pc pc' h = ground arith

module _ (runtime : Runtime) (memory : runtime.calloc ≡ true) where
  -- The tail of the handler, at the thread object it works on.
  single_step-Switches :
      (thread_id p resume : ℕ) (bkpt : Breakpoint) (s s' : Process) (m : ThreadMap) (t : Thread)
      → IsValid s.threads
      → Current thread_id s.threads (m, t)
      → (stepping : Option ℕ) → t.singlestep_bp ≡ stepping
      → single_step p bkpt (record s { threads = m }) t stepping ≡ ok (s', resume)
      → Switches thread_id p s s'
  single_step-Switches thread_id p resume bkpt s s' m t v c none e h =
      let (set, _, k) = bind-eq-ok (slot_of bkpt.slot_set s.world.slot_sets) _ h in
      inl (
        ap (λ u. u.singlestep_bp) (sym c.was) ∙ e,
        subst (λ u. Trapped thread_id (some p) s u) (same_process _ _ _ _ k)
            (stored runtime memory thread_id (some p) s m t v c),
      )
  single_step-Switches thread_id p resume bkpt s s' m t v c (some q) e h =
      let (u, same, k) = bind-eq-ok (check (q == p)) _ h in
      let equal : q ≡ p = ground (arith, check-ok (q == p) u same) in
      inr (
        ap (λ u. u.singlestep_bp) (sym c.was) ∙ e ∙ ap some equal,
        subst (λ u. Trapped thread_id none s u) (same_process _ _ _ _ k)
            (stored runtime memory thread_id none s m t v c),
      )

  -- A trap that the handler returns from was at a breakpoint, which is there, and switched its thread only.
  pub sigtrap_handler-Switches :
      (thread_id pc resume : ℕ) (s s' : Process)
      → IsValid s.threads
      → sigtrap_handler runtime thread_id pc s ≡ ok (s', resume)
      → (p : ℕ) × (bkpt : Breakpoint) × (breakpoint_find s.world pc ≡ some p)
        × (deref s.world.breakpoints p ≡ ok bkpt)
        × Switches thread_id p s s'
  unfolding sigtrap_handler
  sigtrap_handler-Switches thread_id pc resume s s' v h =
      let (made, e, c) = current_thread-Current runtime thread_id s.threads memory v in
      let (current, e', h₁) = bind-eq-ok (current_thread runtime thread_id s.threads) _ h in
      let (p, found, h₂) = bind-eq-ok (asserted (breakpoint_find s.world pc)) _ h₁ in
      let (bkpt, held, h₃) = bind-eq-ok (deref s.world.breakpoints p) _ h₂ in
      let its : Current thread_id s.threads current =
        subst (Current thread_id s.threads) (ok_inj (sym e ∙ e')) c in
      (
        p,
        bkpt,
        asserted-ok (breakpoint_find s.world pc) p found,
        held,
        single_step-Switches thread_id p resume bkpt s s' current.0 current.1 v its
            current.1.singlestep_bp refl h₃,
      )
