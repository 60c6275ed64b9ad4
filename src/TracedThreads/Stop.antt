-- ===== src/TracedThreads/Stop.antt =====
-- thread_all_stop of src/thread.c: what becomes of each thread.
use atrace.Prelude.{
  ℕ, ◌≡◌, refl, sym, ap, ◌∙◌, arith, Bool, true, false, ◌||◌, Option, none, some, List, [], ◌∷◌,
  ◌++◌, ◌==◌, append_assoc, if◌then◌else◌, Bool-cases, inl, inr, All, ok, ◌>>=◌, bind-map, success,
}
use atrace.TracedThreads.{
  TracedThread, Kernel, ThreadLists, WaitResult, waited, interrupted, failed, wifexited, wifstopped,
  esrch, echild, no_child, wait_loop, record_state, wait_for, thread_wait, must_be, thread_delete,
  stop_behind, thread_stop, drop_lost, stop_each, thread_all_stop,
}
use atrace.TracedThreads.Chain.{
  Lacks, Distinct, Apart, thread_get_by_pid_middle, put_middle, Apart-snoc,
}

-- A thread that has ended or is stopped.
abbrev pub is_quiet : TracedThread → Bool
is_quiet t = wifexited t.state || wifstopped t.state

-- The wait comes to an end, and a status that it gives is a stop.
abbrev pub StopsAt : List WaitResult → Type 0
StopsAt [] = ⊥
StopsAt (waited state ∷ results) = wifstopped state ≡ true
StopsAt (interrupted ∷ results) = StopsAt results
StopsAt (failed e ∷ results) = Unit

-- What becomes of a thread: it has a new state, or is no longer traced.
abbrev pub after_wait : TracedThread → List WaitResult → Option TracedThread
after_wait t [] = some t
after_wait t (waited state ∷ results) = some (record t { state = state })
after_wait t (interrupted ∷ results) = after_wait t results
after_wait t (failed e ∷ results) = if e == echild then none else some t

abbrev pub after_kill : TracedThread → List WaitResult → Option ℕ → Option TracedThread
after_kill t results (some e) = if e == esrch || e == echild then none else some t
after_kill t results none = after_wait t results

abbrev pub settled : Kernel → TracedThread → Option TracedThread
settled kernel t =
    if is_quiet t then some t else after_kill t (kernel.waitpid t.pid 0) (kernel.kill t.pid)

abbrev pub keep : Option TracedThread → List TracedThread → List TracedThread
keep none rest = rest
keep (some t) rest = t ∷ rest

-- The threads that are left, in their order.
abbrev pub settle : Kernel → List TracedThread → List TracedThread
settle kernel [] = []
settle kernel (t ∷ rest) = keep (settled kernel t) (settle kernel rest)

module _ (lists : ThreadLists) (kernel : Kernel) (before rest : List TracedThread)
    (t : TracedThread) (alone : Lacks t.pid before) where
  deleted : thread_delete lists t (before ++ t ∷ rest) ≡ before ++ rest
  unfolding thread_delete
  deleted = lists.list_del_lem before rest t alone

  dropped :
      (b : Bool)
      → (if b then thread_delete lists t (before ++ t ∷ rest) else before ++ t ∷ rest)
        ≡ before ++ keep (if b then none else some t) rest
  dropped true = deleted
  dropped false = refl

  after_wait_lem :
      (results : List WaitResult)
      → StopsAt results
      → ((wait_loop results >>= λ result. ok (record_state t (before ++ t ∷ rest) result))
          >>= must_be wifstopped
          >>= λ stopped. ok (drop_lost lists kernel t stopped))
        ≡ ok (before ++ keep (after_wait t results) rest)
  unfolding wait_loop
  after_wait_lem [] h = elim h [ ]
  after_wait_lem (waited state ∷ results) h =
      rw (wait_loop, h) (ap ok (put_middle before rest t (record t { state = state }) refl alone))
  after_wait_lem (interrupted ∷ results) h = after_wait_lem results h
  after_wait_lem (failed e ∷ results) h = ap ok (dropped (e == echild))

  after_kill_lem :
      (o : Option ℕ)
      → (o ≡ none → StopsAt (kernel.waitpid t.pid 0))
      → (stop_behind kernel t (before ++ t ∷ rest) o >>= λ stopped.
          ok (drop_lost lists kernel t stopped))
        ≡ ok (before ++ keep (after_kill t (kernel.waitpid t.pid 0) o) rest)
  unfolding thread_wait
  after_kill_lem none h =
      ap
        (λ found.
          (wait_for kernel t.pid 0 (before ++ t ∷ rest) found >>= must_be wifstopped) >>= λ stopped.
          ok (drop_lost lists kernel t stopped))
        (thread_get_by_pid_middle before rest t alone)
      ∙ after_wait_lem (kernel.waitpid t.pid 0) (h refl)
  after_kill_lem (some e) h =
      let same : (no_child e == echild) ≡ (e == esrch || e == echild) = ground arith in
      ap
        (λ (b : Bool).
          ok (if b then thread_delete lists t (before ++ t ∷ rest) else before ++ t ∷ rest))
        same
      ∙ ap ok (dropped (e == esrch || e == echild))

  -- A turn of the loop.
  pub turn :
      (is_quiet t ≡ false → kernel.kill t.pid ≡ none → StopsAt (kernel.waitpid t.pid 0))
      → (thread_stop kernel t (before ++ t ∷ rest) >>= λ stopped.
          ok (drop_lost lists kernel t stopped))
        ≡ ok (before ++ keep (settled kernel t) rest)
  unfolding thread_stop
  turn h = elim (Bool-cases (wifexited t.state)) [
    | inl exited ↦ rw (thread_stop, exited) refl
    | inr running ↦ elim (Bool-cases (wifstopped t.state)) [
      | inl stopped ↦ rw (thread_stop, running, stopped) refl
      | inr going ↦
          rw (thread_stop, running, going)
            (after_kill_lem (kernel.kill t.pid) (h (rw (running, going) refl)))
    ]
  ]

-- What the system answers where it is asked: a thread that is neither ended nor stopped can be waited for until it stops
-- or the wait fails.
abbrev pub Answers : Kernel → TracedThread → Type 0
Answers kernel t = is_quiet t ≡ false → kernel.kill t.pid ≡ none → StopsAt (kernel.waitpid t.pid 0)

after_wait-pid :
    (t u : TracedThread) (results : List WaitResult) → after_wait t results ≡ some u → u.pid ≡ t.pid
after_wait-pid t u [] h = ground arith
after_wait-pid t u (waited state ∷ results) h = ground arith
after_wait-pid t u (interrupted ∷ results) h = after_wait-pid t u results h
after_wait-pid t u (failed e ∷ results) h = ground arith

after_kill-pid :
    (t u : TracedThread) (results : List WaitResult) (o : Option ℕ)
    → after_kill t results o ≡ some u
    → u.pid ≡ t.pid
after_kill-pid t u results none h = after_wait-pid t u results h
after_kill-pid t u results (some e) h = ground arith

settled-pid : (kernel : Kernel) (t u : TracedThread) → settled kernel t ≡ some u → u.pid ≡ t.pid
settled-pid kernel t u h =
    ground (arith, after_kill-pid t u (kernel.waitpid t.pid 0) (kernel.kill t.pid))

module _ (lists : ThreadLists) (kernel : Kernel) where
  stop_each-settle :
      (before rest : List TracedThread)
      → Apart before rest
      → Distinct rest
      → All (Answers kernel) rest
      → stop_each lists kernel rest (before ++ rest) ≡ ok (before ++ settle kernel rest)
  unfolding stop_each
  stop_each-settle before [] a d h = refl
  stop_each-settle before (t ∷ rest) a d h =
      bind-map (thread_stop kernel t (before ++ t ∷ rest)) (drop_lost lists kernel t)
        (stop_each lists kernel rest) (turn lists kernel before rest t a.0 h.0)
      ∙ go (settled kernel t) (settled-pid kernel t)
          (λ front apart. stop_each-settle front rest apart d.1 h.1)
    where
      go :
          (o : Option TracedThread)
          → ((u : TracedThread) → o ≡ some u → u.pid ≡ t.pid)
          → ((front : List TracedThread)
              → Apart front rest
              → stop_each lists kernel rest (front ++ rest) ≡ ok (front ++ settle kernel rest))
          → stop_each lists kernel rest (before ++ keep o rest)
            ≡ ok (before ++ keep o (settle kernel rest))
      go none e next = next before a.1
      go (some u) e next =
          ap (stop_each lists kernel rest) (sym (append_assoc before (u ∷ []) rest))
          ∙ next (before ++ u ∷ []) (Apart-snoc before rest t u (e u refl) d.0 a.1)
          ∙ ap ok (append_assoc before (u ∷ []) (settle kernel rest))

  Apart-nil : (rest : List TracedThread) → Apart [] rest
  Apart-nil [] = tt
  Apart-nil (t ∷ rest) = (tt, Apart-nil rest)

  -- Where no two threads share a pid, and a thread that is neither ended nor stopped, if it can be signalled,
  -- can be waited for until it stops or the wait fails, thread_all_stop returns 0. Each thread is then as
  -- it was if it had ended or was stopped, or if the system refused; it has the status of its stop if it was
  -- waited for; and it is taken out of the chain if it is no child any more.
  pub thread_all_stop-settle :
      (threads : List TracedThread)
      → Distinct threads
      → All (Answers kernel) threads
      → thread_all_stop lists kernel threads ≡ ok (settle kernel threads, success)
  unfolding thread_all_stop
  thread_all_stop-settle threads d h =
      ap (λ m. m >>= λ left. ok (left, success))
        (stop_each-settle [] threads (Apart-nil threads) d h)
