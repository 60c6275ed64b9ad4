-- ===== src/Hook/Schedule.antt =====
-- signal_test/hook_main.c with several threads: their traps in any order, each taken by sigtrap_handler as one step.
use atrace.Prelude.{
  ℕ, ◌+◌, ◌%◌, ◌^◌, ◌≡◌, refl, ◌≢◌, sym, ap, subst, ◌∙◌, arith, true, Option, none, some, inl, inr,
  ok, ok_inj, ℕ_discrete,
}
use mathlib.Core.Option.{get_or as or_else}
use atrace.ThreadMap.Find.{view, find-view}
use atrace.ThreadMap.Laws.{IsValid}
use atrace.Slot.{SlotSet, bp_get_slot_offset}
use atrace.Breakpoint.{Breakpoint, World, deref}
use atrace.Hook.{Process, Runtime, sigtrap_handler}
use atrace.Hook.Store.{new_thread}
use atrace.Hook.Cycle.{IsAt, Trapped, stepping_of, first_trap, second_trap}
use atrace.Hook.Traps.{same_process, Switches, sigtrap_handler-Switches}

-- A trap of a thread that the handler returns from.
pub data Trap (runtime : Runtime) : ℕ → Process → Process → Type 0 where
  trap :
      (thread_id pc resume : ℕ) {s s' : Process}
      → sigtrap_handler runtime thread_id pc s ≡ ok (s', resume)
      → Trap runtime thread_id s s'

-- Traps of threads with `P`, one after the other.
pub data Traps (runtime : Runtime) (P : ℕ → Type 0) (s : Process) : Process → Type 0 where
  start : Traps runtime P s s
  behind :
      {thread_id : ℕ} {t u : Process}
      → Traps runtime P s t
      → P thread_id
      → Trap runtime thread_id t u
      → Traps runtime P s u

-- The map of threads is valid, and what a thread steps is a breakpoint that was made.
pub record Inv (s : Process) : Type 0 where
  pub valid : IsValid s.threads
  pub stepping :
      (j p : ℕ)
      → stepping_of s.threads j ≡ some p
      → (bkpt : Breakpoint) × (deref s.world.breakpoints p ≡ ok bkpt)

Trapped-stepping :
    (thread_id : ℕ) (o : Option ℕ) (s s' : Process)
    → Trapped thread_id o s s'
    → stepping_of s'.threads thread_id ≡ o
Trapped-stepping thread_id o s s' t =
    ap (λ u. (or_else u (new_thread thread_id)).singlestep_bp) t.thread.1 ∙ t.thread.2

Trapped-others :
    (thread_id j : ℕ) (o : Option ℕ) (s s' : Process)
    → IsValid s.threads
    → Trapped thread_id o s s'
    → j ≢ thread_id
    → stepping_of s'.threads j ≡ stepping_of s.threads j
Trapped-others thread_id j o s s' v t ne =
    let found : ok (view s'.threads j) ≡ ok (view s.threads j) =
      sym (find-view s'.threads j t.valid.width) ∙ t.others j ne ∙ find-view s.threads j v.width in
    ap (λ u. (or_else u (new_thread j)).singlestep_bp) (ok_inj found)

Trapped-Inv :
    (thread_id : ℕ) (o : Option ℕ) (s s' : Process)
    → Inv s
    → Trapped thread_id o s s'
    → ((p : ℕ) → o ≡ some p → (bkpt : Breakpoint) × (deref s.world.breakpoints p ≡ ok bkpt))
    → Inv s'
Trapped-Inv thread_id o s s' i t made = record {
  valid = t.valid;
  stepping = λ j p e.
      subst (λ (w : World). (bkpt : Breakpoint) × (deref w.breakpoints p ≡ ok bkpt)) (sym t.world)
        (elim (ℕ_discrete j thread_id) [
          | yes same ↦ made p (
              sym (Trapped-stepping thread_id o s s' t)
              ∙ subst (λ k. stepping_of s'.threads k ≡ some p) same e)
          | no ne ↦ i.stepping j p (sym (Trapped-others thread_id j o s s' i.valid t ne) ∙ e)
        ]);
}

Switches-Inv :
    (thread_id p : ℕ) (bkpt : Breakpoint) (s s' : Process)
    → Inv s
    → deref s.world.breakpoints p ≡ ok bkpt
    → Switches thread_id p s s'
    → Inv s' × (s'.world ≡ s.world)
Switches-Inv thread_id p bkpt s s' i held (inl (_, t)) = (
  Trapped-Inv thread_id (some p) s s' i t
      (λ q e. (bkpt, subst (λ (k : ℕ). deref s.world.breakpoints k ≡ ok bkpt) (ground arith) held)),
  t.world,
)
Switches-Inv thread_id p bkpt s s' i held (inr (_, t)) =
    (Trapped-Inv thread_id none s s' i t (λ q e. absurd (ground arith)), t.world)

module _ (runtime : Runtime) (memory : runtime.calloc ≡ true) where
  Trap-Inv :
      {thread_id : ℕ} {s s' : Process}
      → Inv s
      → Trap runtime thread_id s s'
      → Inv s' × (s'.world ≡ s.world)
  Trap-Inv i (trap thread_id pc resume {s} {s'} e) =
      let (p, bkpt, _, held, switches) =
        sigtrap_handler-Switches runtime memory thread_id pc resume s s' i.valid e in
      Switches-Inv thread_id p bkpt s s' i held switches

  -- Whatever threads trap, wherever and in whatever order, as long as the handler returns each time, the map of
  -- threads stays valid, each thread that steps a breakpoint steps one that was made, and the breakpoints,
  -- their tree, the slots and memory stay as they were.
  pub Traps-Inv :
      {P : ℕ → Type 0} {s s' : Process}
      → Inv s
      → Traps runtime P s s'
      → Inv s' × (s'.world ≡ s.world)
  Traps-Inv i start = (i, refl)
  Traps-Inv i (behind traps _ last) =
      let (j, same) = Traps-Inv i traps in let (k, same') = Trap-Inv j last in (k, same' ∙ same)

  Switches-others :
      (thread_id j p : ℕ) (s s' : Process)
      → IsValid s.threads
      → j ≢ thread_id
      → Switches thread_id p s s'
      → stepping_of s'.threads j ≡ stepping_of s.threads j
  Switches-others thread_id j p s s' v ne (inl (_, t)) =
      Trapped-others thread_id j (some p) s s' v t ne
  Switches-others thread_id j p s s' v ne (inr (_, t)) = Trapped-others thread_id j none s s' v t ne

  Trap-others :
      {thread_id : ℕ} {s s' : Process} (j : ℕ)
      → Inv s
      → j ≢ thread_id
      → Trap runtime thread_id s s'
      → stepping_of s'.threads j ≡ stepping_of s.threads j
  Trap-others j i ne (trap thread_id pc resume {s} {s'} e) =
      let (p, _, _, _, switches) =
        sigtrap_handler-Switches runtime memory thread_id pc resume s s' i.valid e in
      Switches-others thread_id j p s s' i.valid ne switches

  Traps-others :
      (j : ℕ) {s s' : Process}
      → Inv s
      → Traps runtime (λ k. j ≢ k) s s'
      → stepping_of s'.threads j ≡ stepping_of s.threads j
  Traps-others j i start = refl
  Traps-others j i (behind traps ne last) =
      Trap-others j (Traps-Inv i traps).0 ne last ∙ Traps-others j i traps

  -- A thread that steps none reaches a breakpoint, and the handler sends it into the slot. However other threads
  -- trap in between, as long as the handler returns for them, the trap behind the slot returns too: the
  -- thread goes on 4 bytes behind the breakpoint's address and steps none.
  pub stepping_thread_returns :
      (thread_id enter_pc return_pc p : ℕ) (bkpt : Breakpoint) (set : SlotSet) (s s' s'' : Process)
      → Inv s
      → IsAt s.world enter_pc p bkpt set
      → IsAt s.world return_pc p bkpt set
      → stepping_of s.threads thread_id ≡ none
      → sigtrap_handler runtime thread_id enter_pc s
        ≡ ok (s', bp_get_slot_offset set bkpt.slot_index)
      → Traps runtime (λ k. thread_id ≢ k) s' s''
      → (t : Process) × (sigtrap_handler runtime thread_id return_pc s''
          ≡ ok (t, (bkpt.bp_enter.address + 4) % 2 ^ 64))
        × (stepping_of t.threads thread_id ≡ none)
        × (t.world ≡ s.world)
  stepping_thread_returns thread_id enter_pc return_pc p bkpt set s s' s'' i enter back idle e
        others =
      let (i', same) =
        Trap-Inv i (trap thread_id enter_pc (bp_get_slot_offset set bkpt.slot_index) e) in
      let (u, e', entered) =
        first_trap runtime memory thread_id enter_pc p bkpt set s i.valid enter idle in
      let there : u ≡ s' = same_process u s' _ _ (sym e' ∙ e) in
      let steps : stepping_of s'.threads thread_id ≡ some p =
        subst (λ (x : Process). stepping_of x.threads thread_id ≡ some p) there
          (Trapped-stepping thread_id (some p) s u entered) in
      let (i'', same'') = Traps-Inv i' others in
      let kept = same'' ∙ same in
      let (t, done, left) =
        second_trap runtime memory thread_id return_pc p bkpt set s'' i''.valid
          (subst (λ (w : World). IsAt w return_pc p bkpt set) (sym kept) back)
          (Traps-others thread_id i' others ∙ steps) in
      (t, done, Trapped-stepping thread_id none s'' t left, left.world ∙ kept)
