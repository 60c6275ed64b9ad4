-- ===== src/TracedThreads/Examples.antt =====
-- Runs of the functions on threads, and their theorem at a concrete input.
use atrace.Prelude.{
  ℕ, ◌≡◌, refl, arith, true, none, some, List, [], ◌∷◌, ◌++◌, ◌==◌, if◌then◌else◌, ok, fault, Fault,
  success,
}
use atrace.Linux.{plain_lists}
use atrace.TracedThreads.{
  TracedThread, Kernel, ThreadLists, waited, interrupted, failed, errno, done, esrch, thread_add,
  thread_get_by_pid, thread_stop, thread_wait, thread_all_stop, thread_all_run, RegisterAccess,
  Registers, arch_get_thread_pc, arch_set_thread_pc, wifexited,
}
use atrace.TracedThreads.Chain.{Lacks}
use atrace.TracedThreads.Stop.{thread_all_stop-settle}

-- A deletion by pid.
remove : ℕ → List TracedThread → List TracedThread
remove pid [] = []
remove pid (t ∷ ts) = let rest = remove pid ts in if t.pid == pid then ts else t ∷ rest

remove_middle :
    (xs ys : List TracedThread) (t : TracedThread)
    → Lacks t.pid xs
    → remove t.pid (xs ++ t ∷ ys) ≡ xs ++ ys
unfolding remove
remove_middle [] ys t h = ground arith
remove_middle (x ∷ xs) ys t h = ground (arith, remove_middle xs ys t h.1)

abbrev lists : ThreadLists
lists = record {
  adds = plain_lists;
  list_del = λ t ts. remove t.pid ts;
  list_del_lem = λ xs ys t h. remove_middle xs ys t h;
}

abbrev thread : ℕ → ℕ → TracedThread
thread pid state = record { pid = pid; code = 0; status = 0; state = state; signal = 0 }

-- 4 goes on and stops behind two interruptions, 5 has ended, 6 is stopped, 7 is not there any more.
abbrev threads : List TracedThread
threads = thread 4 0xffff ∷ thread 5 0 ∷ thread 6 0x137f ∷ thread 7 0xffff ∷ []

abbrev kernel : Kernel
kernel = record {
  kill = λ pid. if pid == 7 then some esrch else none;
  cont = λ pid signal. if pid == 6 then some esrch else none;
  singlestep = λ pid. true;
  waitpid = λ pid option.
      if option == 0 then interrupted ∷ interrupted ∷ waited 0x57f ∷ [] else waited 0xffff ∷ [];
}

thread_all_stop-settle_example :
    thread_all_stop lists kernel threads
    ≡ ok (thread 4 0x57f ∷ thread 5 0 ∷ thread 6 0x137f ∷ [], success)
unfolding atrace.TracedThreads.wifstopped wifexited
thread_all_stop-settle_example =
    thread_all_stop-settle lists kernel threads
      ((ground arith), ((ground arith), ((ground arith), (tt, tt))))
      ((λ q k. refl), ((λ q k. refl), ((λ q k. refl), ((λ q k. refl), tt))))

-- `thread_all_run` goes on from a thread that it has just freed.
all_run : thread_all_run lists kernel threads ≡ fault Fault.out_of_bounds
unfolding thread_all_run atrace.TracedThreads.run_each atrace.TracedThreads.thread_run wifexited
    atrace.TracedThreads.wifcontinued lists
all_run = refl

-- A thread that ends where `thread_stop` waits for its stop makes an assertion fail.
ended :
    thread_stop (record kernel { waitpid = λ pid option. waited 0 ∷ [] }) (thread 4 0xffff) threads
    ≡ fault Fault.assertion
unfolding thread_stop wifexited atrace.TracedThreads.wifstopped thread_wait thread_get_by_pid
    atrace.TracedThreads.wait_loop
ended = refl

-- A new thread has the state of one that has ended, so `thread_stop` lets it run.
new_thread : thread_add lists true 9 0 0 [] ≡ (thread 9 0 ∷ [], some (thread 9 0))
unfolding thread_add lists
new_thread = refl

new_thread_runs : thread_stop kernel (thread 9 0) (thread 9 0 ∷ []) ≡ ok (thread 9 0 ∷ [], done tt)
unfolding thread_stop wifexited
new_thread_runs = refl

not_a_child : thread_wait kernel 8 0 threads ≡ ok (threads, errno 10)
unfolding thread_wait thread_get_by_pid
not_a_child = refl

abbrev access : RegisterAccess
access = record {
  getregs = λ pid. some (record { rip = 100; others = 7 ∷ [] });
  setregs = λ pid. true;
}

set_pc : arch_get_thread_pc (arch_set_thread_pc access (thread 4 0) 200).0 (thread 4 0) ≡ 200
unfolding arch_get_thread_pc arch_set_thread_pc
set_pc = refl

other_pc : arch_get_thread_pc (arch_set_thread_pc access (thread 4 0) 200).0 (thread 5 0) ≡ 100
unfolding arch_get_thread_pc arch_set_thread_pc
other_pc = refl
