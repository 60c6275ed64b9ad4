-- ===== src/Profiler/Exit.antt =====
-- The loop of `run_profiler` in src/atrace.c: its first wait.
use atrace.Prelude.{
  ℕ, ◌≡◌, refl, sym, ap, subst, ◌∙◌, arith, Bool, true, false, Option, none, some, List, [], ◌∷◌,
  ◌==◌, if◌then◌else◌, ◌&&◌, Run, ok, fault, Fault, check, ◌>>=◌, bind-eq-ok, ok_inj,
}
use atrace.Tracer.{Tracer}
use atrace.TracedThreads.{
  TracedThread, Kernel, Errno, done, errno, wifexited, wifstopped, wstopsig, wifcontinued,
  wcontinued, thread_get_by_pid, put, wait_loop, record_state, wait_for, thread_wait, must_be,
  run_behind, thread_run,
}
use atrace.Profiler.{
  Profilee, sigtrap, any_child, thread_at, if_done, exit_unless, break_at_entry, run_to_entry,
  pass_entry, start_profile, first_turn, run_profiler,
}

put_lacks :
    (q : ℕ) (u : TracedThread) (threads : List TracedThread)
    → thread_get_by_pid q threads ≡ none
    → thread_get_by_pid q (put u threads) ≡ none
unfolding thread_get_by_pid put
put_lacks q u [] h = refl
put_lacks q u (t ∷ threads) h = ground (arith, put_lacks q u threads)

-- The wait and what is asked behind it take no new thread in.
record_state_lacks :
    (q : ℕ) (curr : TracedThread) (threads : List TracedThread) (e : Errno ℕ)
    → thread_get_by_pid q threads ≡ none
    → thread_get_by_pid q (record_state curr threads e).0 ≡ none
record_state_lacks q curr threads (done state) h =
    put_lacks q (record curr { state = state }) threads h
record_state_lacks q curr threads (errno e) h = h

returned :
    {B : Type 0} (q : ℕ) (r r' : List TracedThread × B)
    → ok r ≡ ok r'
    → thread_get_by_pid q r.0 ≡ none
    → thread_get_by_pid q r'.0 ≡ none
returned q r r' h l = ap (λ p. thread_get_by_pid q p.0) (sym (ok_inj h)) ∙ l

module _ (kernel : Kernel) (q : ℕ) where
  wait_for_lacks :
      (pid option : ℕ) (threads : List TracedThread) (found : Option TracedThread)
      (r : List TracedThread × Errno TracedThread)
      → wait_for kernel pid option threads found ≡ ok r
      → thread_get_by_pid q threads ≡ none
      → thread_get_by_pid q r.0 ≡ none
  wait_for_lacks pid option threads none r h l = returned q _ _ h l
  wait_for_lacks pid option threads (some curr) r h l =
      let (e, _, k) = bind-eq-ok (wait_loop (kernel.waitpid pid option)) _ h in
      returned q _ _ k (record_state_lacks q curr threads e l)

  thread_wait_lacks :
      (pid option : ℕ) (threads : List TracedThread) (r : List TracedThread × Errno TracedThread)
      → thread_wait kernel pid option threads ≡ ok r
      → thread_get_by_pid q threads ≡ none
      → thread_get_by_pid q r.0 ≡ none
  unfolding thread_wait
  thread_wait_lacks pid option threads r h l =
      wait_for_lacks pid option threads (thread_get_by_pid pid threads) r h l

  must_be_lacks :
      (test : ℕ → Bool) (r : List TracedThread × Errno TracedThread)
      (r' : List TracedThread × Errno (Unit {0}))
      → must_be test r ≡ ok r'
      → thread_get_by_pid q r.0 ≡ none
      → thread_get_by_pid q r'.0 ≡ none
  must_be_lacks test (threads, errno e) r' h l = returned q _ _ h l
  must_be_lacks test (threads, done t) r' h l =
      let (u, _, k) = bind-eq-ok (check (test t.state)) _ h in returned q _ _ k l

  run_behind_lacks :
      (t : TracedThread) (threads : List TracedThread) (o : Option ℕ)
      (r : List TracedThread × Errno (Unit {0}))
      → run_behind kernel t threads o ≡ ok r
      → thread_get_by_pid q threads ≡ none
      → thread_get_by_pid q r.0 ≡ none
  run_behind_lacks t threads (some e) r h l = returned q _ _ h l
  run_behind_lacks t threads none r h l =
      let (w, e, k) = bind-eq-ok (thread_wait kernel t.pid wcontinued threads) _ h in
      must_be_lacks wifcontinued w r k (thread_wait_lacks t.pid wcontinued threads w e l)

  thread_run_lacks :
      (t : TracedThread) (threads : List TracedThread) (r : List TracedThread × Errno (Unit {0}))
      → thread_run kernel t threads ≡ ok r
      → thread_get_by_pid q threads ≡ none
      → thread_get_by_pid q r.0 ≡ none
  unfolding thread_run
  thread_run_lacks t threads r h l = go (wifexited t.state) (wifcontinued t.state) h
    where
      go :
          (exited continued : Bool)
          → (if exited
              then ok (threads, done tt)
              else if continued
              then ok (threads, done tt)
              else run_behind kernel t threads (kernel.cont t.pid t.signal))
            ≡ ok r
          → thread_get_by_pid q r.0 ≡ none
      go true continued k = returned q (threads, done tt) r k l
      go false true k = returned q (threads, done tt) r k l
      go false false k = run_behind_lacks t threads (kernel.cont t.pid t.signal) r k l

if_done_lacks :
    {B : Type 0} (q : ℕ) (r : List TracedThread × Errno B) (x : List TracedThread × B)
    → if_done r ≡ ok x
    → thread_get_by_pid q r.0 ≡ none
    → thread_get_by_pid q x.0 ≡ none
if_done_lacks q (threads, done b) x h l = returned q (threads, b) x h l
if_done_lacks q (threads, errno e) x h l = absurd (ground arith)

module _ (env : Profilee) (q : ℕ) where
  run_to_entry_lacks :
      (pid : ℕ) (threads threads' : List TracedThread)
      → run_to_entry env pid threads ≡ ok threads'
      → thread_get_by_pid q threads ≡ none
      → thread_get_by_pid q threads' ≡ none
  unfolding run_to_entry
  run_to_entry_lacks pid threads threads' h l =
      let (t, _, h₁) = bind-eq-ok (thread_at (thread_get_by_pid pid threads)) _ h in
      let (run, e, h₂) = bind-eq-ok (thread_run env.to_entry t threads) _ h₁ in
      let (running, d, h₃) = bind-eq-ok (if_done run) _ h₂ in
      let (wait, w, h₄) = bind-eq-ok (thread_wait env.at_entry pid 0 running.0) _ h₃ in
      let (stopped, d', h₅) = bind-eq-ok (if_done wait) _ h₄ in
      let (u, _, h₆) =
        bind-eq-ok (exit_unless (wifstopped stopped.1.state && wstopsig stopped.1.state == sigtrap))
          _ h₅ in
      let there = thread_run_lacks env.to_entry q t threads run e l in
      let ready = if_done_lacks q run running d there in
      let behind = thread_wait_lacks env.at_entry q pid 0 running.0 wait w ready in
      subst (λ (ts : List TracedThread). thread_get_by_pid q ts ≡ none) (ok_inj h₆)
        (if_done_lacks q wait stopped d' behind)

  start_profile_lacks :
      (pid : ℕ) (s : Tracer) (threads : List TracedThread) (r : Tracer × List TracedThread)
      → start_profile env pid s threads ≡ ok r
      → thread_get_by_pid q threads ≡ none
      → thread_get_by_pid q r.1 ≡ none
  unfolding start_profile
  start_profile_lacks pid s threads r h l =
      let (broken, _, h₁) = bind-eq-ok (break_at_entry env s) _ h in
      let (stopped, e, h₂) = bind-eq-ok (run_to_entry env pid threads) _ h₁ in
      let (passed, _, h₃) = bind-eq-ok (pass_entry env broken.1 _) _ h₂ in
      let (t, _, h₄) = bind-eq-ok (thread_at (thread_get_by_pid pid stopped)) _ h₃ in
      let (run, f, h₅) = bind-eq-ok (thread_run env.behind_entry t stopped) _ h₄ in
      let (running, d, h₆) = bind-eq-ok (if_done run) _ h₅ in
      let there = run_to_entry_lacks pid threads stopped e l in
      ap (λ p. thread_get_by_pid q p.1) (sym (ok_inj h₆))
      ∙ if_done_lacks q run running d (thread_run_lacks env.behind_entry q t stopped run f there)

-- Where no thread has the pid -1, and all that run_profiler does in front of its loop succeeds, it exits at the first wait of
-- the loop, whatever the system answers and whatever the loop would do with the thread it waits for.
pub run_profiler_exits :
    {A : Type 0} (env : Profilee) (kernel : Kernel)
    (handle : TracedThread → Tracer → List TracedThread → Run A) (pid : ℕ) (s s' : Tracer)
    (threads threads' : List TracedThread)
    → thread_get_by_pid any_child threads ≡ none
    → start_profile env pid s threads ≡ ok (s', threads')
    → run_profiler env kernel handle pid s threads ≡ fault Fault.aborted
unfolding run_profiler first_turn thread_wait
run_profiler_exits env kernel handle pid s s' threads threads' l h =
    ap (λ m. m >>= first_turn kernel handle) h
    ∙ ap
        (λ found. wait_for kernel any_child 0 threads' found >>= λ wait.
          if_done wait >>= λ waited. handle waited.1 s' waited.0)
        (start_profile_lacks env any_child pid s threads (s', threads') h l)
