-- ===== src/Profiler.antt =====
-- src/atrace.c: `run_profiler`, which runs a traced process to its entry point and then waits for its threads.
pub mod Exit
mod Examples
use atrace.Prelude.{
  ℕ, ◌+◌, ◌-◌, ◌^◌, Bool, true, false, not, ◌&&◌, Option, none, some, List, [], ◌∷◌, ◌==◌,
  if◌then◌else◌, Run, ok, fault, Fault, ◌>>=◌, Status, success, minus,
}
use atrace.Linux.{ListOps}
use atrace.Object.{Text}
use atrace.Object.Maps.{Memory, ReadResult}
use atrace.Tracer.{
  TracedObject, Tracer, Stepper, bkpt_f_enter_ctx, bkpt_f_enable, breakpoint_create,
  breakpoint_resume, breakpoint_delete,
}
use atrace.Tracer.Maps.{
  TracedFiles, object_get_by_file, object_load, object_get_exe, object_get_exe_entry_point,
}
use atrace.TracedThreads.{
  TracedThread, Kernel, Errno, done, errno, wifstopped, wstopsig, thread_get_by_pid, thread_run,
  thread_wait,
}

-- What the setup meets outside the source: the list code, memory, the files, the answers of the system up to the entry point and
-- behind it, and what the process does to its memory on its way there.
pub record Profilee : Type 0 where
  pub object_lists : ListOps TracedObject
  pub breakpoint_lists : ListOps ℕ
  pub list_del : ℕ → List ℕ → List ℕ
  pub memory : Memory
  pub calloc : Bool
  pub opened : Bool
  pub reads : List ReadResult
  pub opened_again : Bool
  pub reads_again : List ReadResult
  pub files : TracedFiles
  pub to_entry : Kernel
  pub at_entry : Kernel
  pub behind_entry : Kernel
  pub ran : (ℕ → ℕ) → ℕ → ℕ
  pub stepper : Stepper

abbrev pub sigtrap : ℕ
sigtrap = 5

-- `(pid_t)-1`, which `waitpid` takes for any child.
abbrev pub any_child : ℕ
any_child = 2 ^ 32 - 1

-- A NULL, a -1 or an errno makes `run_profiler` exit.
abbrev pub or_exit {ℓ} : {A : Type ℓ} → Option A → Run A
or_exit none = fault Fault.aborted
or_exit (some a) = ok a

abbrev pub exit_unless : Bool → Run (Unit {0})
exit_unless true = ok tt
exit_unless false = fault Fault.aborted

abbrev pub if_done {ℓ κ} : {A : Type ℓ} {B : Type κ} → A × Errno B → Run (A × B)
if_done (a, done b) = ok (a, b)
if_done (a, errno e) = fault Fault.aborted

abbrev pub if_success {ℓ} : {A : Type ℓ} → A × Status → Run A
if_success (a, success) = ok a
if_success (a, minus n) = fault Fault.aborted

abbrev pub if_some {ℓ κ} : {A : Type ℓ} {B : Type κ} → A × Option B → Run (A × B)
if_some (a, some b) = ok (a, b)
if_some (a, none) = fault Fault.aborted

-- The thread that a pid points to.
abbrev pub thread_at : Option TracedThread → Run TracedThread
thread_at none = fault Fault.null_deref
thread_at (some t) = ok t

module _ (env : Profilee) where
  -- Up to the breakpoint at the entry point: the state of the tracer with the pointer to the breakpoint. What `object_load`
  -- returns is dropped.
  unfoldable pub break_at_entry : Tracer → Run (Tracer × ℕ)
  break_at_entry s = do
    found ← object_load env.object_lists env.memory env.opened env.reads s.objects
    exe ← object_get_exe env.files
    exe_path ← or_exit exe
    entry_point ← object_get_exe_entry_point env.files exe_path
    profilee_obj ← or_exit (object_get_by_file exe_path found.0)
    created ←
        breakpoint_create env.breakpoint_lists env.calloc profilee_obj entry_point
          (bkpt_f_enter_ctx + bkpt_f_enable) (record s { objects = found.0 })
    if_some created

  -- The process runs until it stops, which must be by SIGTRAP.
  unfoldable pub run_to_entry : ℕ → List TracedThread → Run (List TracedThread)
  run_to_entry pid threads = do
    t ← thread_at (thread_get_by_pid pid threads)
    run ← thread_run env.to_entry t threads
    running ← if_done run
    wait ← thread_wait env.at_entry pid 0 running.0
    stopped ← if_done wait
    u ← exit_unless (wifstopped stopped.1.state && wstopsig stopped.1.state == sigtrap)
    ok stopped.0

  -- At the entry point: the objects are loaded anew, and the breakpoint is passed and deleted.
  -- The state that the step over the breakpoint stores in the thread, a stop as before it, is left out.
  unfoldable pub pass_entry : ℕ → Tracer → Run Tracer
  pass_entry p s = do
    found ← object_load env.object_lists env.memory env.opened_again env.reads_again s.objects
    resume ← breakpoint_resume env.stepper p (record s { objects = found.0 })
    resumed ← if_success resume
    breakpoint_delete env.list_del p resumed

  -- `run_profiler` in front of its loop.
  unfoldable pub start_profile : ℕ → Tracer → List TracedThread → Run (Tracer × List TracedThread)
  start_profile pid s threads = do
    broken ← break_at_entry s
    stopped ← run_to_entry pid threads
    passed ← pass_entry broken.1 (record broken.0 { memory = env.ran broken.0.memory })
    t ← thread_at (thread_get_by_pid pid stopped)
    run ← thread_run env.behind_entry t stopped
    running ← if_done run
    ok (passed, running.0)

-- The first turn of the loop. What it does with the thread it waited for is `handle`: the end of the loop names
-- variables that do not exist.
unfoldable pub first_turn {ℓ} :
    {A : Type ℓ}
    → Kernel
    → (TracedThread → Tracer → List TracedThread → Run A)
    → Tracer × List TracedThread
    → Run A
first_turn kernel handle (s, threads) = thread_wait kernel any_child 0 threads >>= λ wait.
    if_done wait >>= λ waited. handle waited.1 s waited.0

unfoldable pub run_profiler {ℓ} :
    {A : Type ℓ}
    → Profilee
    → Kernel
    → (TracedThread → Tracer → List TracedThread → Run A)
    → ℕ
    → Tracer
    → List TracedThread
    → Run A
run_profiler env kernel handle pid s threads =
    start_profile env pid s threads >>= first_turn kernel handle
