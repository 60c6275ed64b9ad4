-- ===== src/TracedThreads.antt =====
-- src/thread.c, include/thread.h and src/arch-x86/thread.c: the threads of a process that is traced by ptrace. A
-- pointer to a thread stands as its pid, which the kernel gives to one thread at a time.
pub mod Chain
pub mod Stop
mod Examples
use atrace.Prelude.{
  ℕ, ◌/◌, ◌%◌, ◌+◌, ◌≡◌, ◌≢◌, Bool, true, false, not, Option, none, some, List, [], ◌∷◌, ◌++◌, map,
  ◌==◌, if◌then◌else◌, bit_and, All, Run, ok, fault, Fault, check, ◌>>=◌, ◌>>◌, Status, success,
  minus,
}
use atrace.Linux.{ListOps}

-- `struct thread` without its contexts, which nothing uses; `state` and `signal` are fields that the functions name and the
-- header does not.
pub record TracedThread : Type 0 where
  pub pid : ℕ
  pub code : ℕ
  pub status : ℕ
  pub state : ℕ
  pub signal : ℕ

-- The tests on a wait status.
unfoldable pub wifexited : ℕ → Bool
wifexited state = bit_and state 0x7f == 0

unfoldable pub wifstopped : ℕ → Bool
wifstopped state = bit_and state 0xff == 0x7f

unfoldable pub wifcontinued : ℕ → Bool
wifcontinued state = state == 0xffff

abbrev pub wstopsig : ℕ → ℕ
wstopsig state = state / 256 % 256

abbrev pub esrch : ℕ
esrch = 3

abbrev pub echild : ℕ
echild = 10

abbrev pub wcontinued : ℕ
wcontinued = 8

-- One call of `waitpid`: a status, EINTR, or another errno.
pub data WaitResult : Type 0 where
  waited : ℕ → WaitResult
  interrupted : WaitResult
  failed : ℕ → WaitResult

-- The system, as one pass over the threads meets it: `kill` and `ptrace` fail with an errno or not, and `waitpid` at a pid
-- and an option gives one result after the other.
pub record Kernel : Type 0 where
  pub kill : ℕ → Option ℕ
  pub cont : ℕ → ℕ → Option ℕ
  pub singlestep : ℕ → Bool
  pub waitpid : ℕ → ℕ → List WaitResult

-- The list code at the chain of threads.
pub record ThreadLists : Type 0 where
  pub adds : ListOps TracedThread
  pub list_del : TracedThread → List TracedThread → List TracedThread
  pub list_del_lem :
      (xs ys : List TracedThread) (t : TracedThread)
      → All (λ u. u.pid ≢ t.pid) xs
      → list_del t (xs ++ t ∷ ys) ≡ xs ++ ys

-- `thread_add`: calloc finds memory or not.
unfoldable pub thread_add :
    ThreadLists → Bool → ℕ → ℕ → ℕ → List TracedThread → List TracedThread × Option TracedThread
thread_add lists false pid code status threads = (threads, none)
thread_add lists true pid code status threads =
    let t : TracedThread = record {
      pid = pid;
      code = code;
      status = status;
      state = 0;
      signal = 0;
    } in
    (lists.adds.list_add_tail t threads, some t)

unfoldable pub thread_delete : ThreadLists → TracedThread → List TracedThread → List TracedThread
thread_delete lists t threads = lists.list_del t threads

unfoldable pub thread_get_by_pid : ℕ → List TracedThread → Option TracedThread
thread_get_by_pid pid [] = none
thread_get_by_pid pid (curr ∷ rest) =
    if curr.pid == pid then some curr else thread_get_by_pid pid rest

-- A store through the pointer to a thread.
unfoldable pub put : TracedThread → List TracedThread → List TracedThread
put t [] = []
put t (curr ∷ rest) =
    let behind = put t rest in if curr.pid == t.pid then t ∷ rest else curr ∷ behind

-- How a function that may fail ends: with a value, or with an errno.
pub data Errno {ℓ} (A : Type ℓ) : Type ℓ where
  done : A → Errno A
  errno : ℕ → Errno A

-- The loop `do … while (child_waited == -1 && errno == EINTR)`.
unfoldable pub wait_loop : List WaitResult → Run (Errno ℕ)
wait_loop [] = fault Fault.out_of_fuel
wait_loop (waited status ∷ results) = ok (done status)
wait_loop (interrupted ∷ results) = wait_loop results
wait_loop (failed e ∷ results) = ok (errno e)

-- The status is stored, or the errno stays.
abbrev pub record_state :
    TracedThread → List TracedThread → Errno ℕ → List TracedThread × Errno TracedThread
record_state curr threads (done status) =
    (put (record curr { state = status }) threads, done (record curr { state = status }))
record_state curr threads (errno e) = (threads, errno e)

module _ (kernel : Kernel) where
  abbrev pub wait_for :
      ℕ → ℕ → List TracedThread → Option TracedThread → Run (List TracedThread × Errno TracedThread)
  wait_for pid option threads none = ok (threads, errno echild)
  wait_for pid option threads (some curr) =
      wait_loop (kernel.waitpid pid option) >>= λ result. ok (record_state curr threads result)

  unfoldable pub thread_wait :
      ℕ → ℕ → List TracedThread → Run (List TracedThread × Errno TracedThread)
  thread_wait pid option threads = wait_for pid option threads (thread_get_by_pid pid threads)

-- `errno == ESRCH ? ECHILD : errno`
abbrev pub no_child : ℕ → ℕ
no_child e = if e == esrch then echild else e

-- Behind `thread_wait`, the state that the thread must have is asserted.
abbrev pub must_be :
    (ℕ → Bool) → List TracedThread × Errno TracedThread → Run (List TracedThread × Errno (Unit {0}))
must_be test (threads, errno e) = ok (threads, errno e)
must_be test (threads, done t) = check (test t.state) >>= λ u. ok (threads, done u)

module _ (kernel : Kernel) where
  -- `thread_stop` and `thread_run` from the system call on.
  abbrev pub stop_behind :
      TracedThread → List TracedThread → Option ℕ → Run (List TracedThread × Errno (Unit {0}))
  stop_behind t threads (some e) = ok (threads, errno (no_child e))
  stop_behind t threads none = thread_wait kernel t.pid 0 threads >>= must_be wifstopped

  unfoldable pub thread_stop :
      TracedThread → List TracedThread → Run (List TracedThread × Errno (Unit {0}))
  thread_stop t threads =
      if wifexited t.state
      then ok (threads, done tt)
      else if wifstopped t.state
      then ok (threads, done tt)
      else stop_behind t threads (kernel.kill t.pid)

  abbrev pub run_behind :
      TracedThread → List TracedThread → Option ℕ → Run (List TracedThread × Errno (Unit {0}))
  run_behind t threads (some e) = ok (threads, errno (no_child e))
  run_behind t threads none = thread_wait kernel t.pid wcontinued threads >>= must_be wifcontinued

  unfoldable pub thread_run :
      TracedThread → List TracedThread → Run (List TracedThread × Errno (Unit {0}))
  thread_run t threads =
      if wifexited t.state
      then ok (threads, done tt)
      else if wifcontinued t.state
      then ok (threads, done tt)
      else run_behind t threads (kernel.cont t.pid t.signal)

  abbrev pub step_behind : List TracedThread × Errno TracedThread → Run (List TracedThread × Status)
  step_behind (threads, done t) = ok (threads, success)
  step_behind (threads, errno e) = ok (threads, minus 1)

  unfoldable pub thread_single_step :
      TracedThread → List TracedThread → Run (List TracedThread × Status)
  thread_single_step t threads =
      if kernel.singlestep t.pid
      then (thread_wait kernel t.pid 0 threads >>= step_behind)
      else ok (threads, minus 1)

module _ (lists : ThreadLists) (kernel : Kernel) where
  -- A turn of the loop in `thread_all_stop`, behind the call of `thread_stop`.
  abbrev pub drop_lost : TracedThread → List TracedThread × Errno (Unit {0}) → List TracedThread
  drop_lost curr (threads, done _) = threads
  drop_lost curr (threads, errno e) =
      if e == echild then thread_delete lists curr threads else threads

  -- `list_for_each_entry_safe` visits the threads that were in the chain at the start: a turn takes out its own at most.
  unfoldable pub stop_each : List TracedThread → List TracedThread → Run (List TracedThread)
  stop_each [] threads = ok threads
  stop_each (curr ∷ rest) threads =
      thread_stop kernel curr threads >>= λ stopped. stop_each rest (drop_lost curr stopped)

  unfoldable pub thread_all_stop : List TracedThread → Run (List TracedThread × Status)
  thread_all_stop threads = stop_each threads threads >>= λ left. ok (left, success)

  -- `list_for_each_entry` of `thread_all_run` goes on from the entry it is at, which a deletion has freed.
  abbrev pub keep_all : List TracedThread × Errno (Unit {0}) → Run (List TracedThread)
  keep_all (threads, done _) = ok threads
  keep_all (threads, errno e) = if e == echild then fault Fault.out_of_bounds else ok threads

  unfoldable pub run_each : List TracedThread → List TracedThread → Run (List TracedThread)
  run_each [] threads = ok threads
  run_each (curr ∷ rest) threads =
      thread_run kernel curr threads >>= keep_all >>= λ left. run_each rest left

  unfoldable pub thread_all_run : List TracedThread → Run (List TracedThread × Status)
  thread_all_run threads = run_each threads threads >>= λ left. ok (left, success)

-- The registers of a thread, of which the program uses one.
pub record Registers : Type 0 where
  pub rip : ℕ
  pub others : List ℕ

-- What `ptrace` gives of a thread's registers, and whether it takes them.
pub record RegisterAccess : Type 0 where
  pub getregs : ℕ → Option Registers
  pub setregs : ℕ → Bool

-- `arch_get_thread_pc`, which gives 0 where it fails.
abbrev pub rip_of : Option Registers → ℕ
rip_of none = 0
rip_of (some regs) = regs.rip

unfoldable pub arch_get_thread_pc : RegisterAccess → TracedThread → ℕ
arch_get_thread_pc access t = rip_of (access.getregs t.pid)

abbrev pub write_pc : RegisterAccess → TracedThread → ℕ → Option Registers → RegisterAccess × Status
write_pc access t pc none = (access, minus 1)
write_pc access t pc (some regs) = if not (access.setregs t.pid) then (access, minus 1) else (
  record access {
    getregs = λ pid. if pid == t.pid then some (record regs { rip = pc }) else access.getregs pid;
  },
  success,
)

unfoldable pub arch_set_thread_pc : RegisterAccess → TracedThread → ℕ → RegisterAccess × Status
arch_set_thread_pc access t pc = write_pc access t pc (access.getregs t.pid)
