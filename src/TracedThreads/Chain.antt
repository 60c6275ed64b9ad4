-- ===== src/TracedThreads/Chain.antt =====
-- The chain of threads of src/thread.c: the thread of a pid, and stores into it.
use atrace.Prelude.{ℕ, ◌≡◌, ◌≢◌, arith, some, List, [], ◌∷◌, ◌++◌, All, All-append}
use atrace.TracedThreads.{TracedThread, thread_get_by_pid, put}

abbrev pub Lacks : ℕ → List TracedThread → Type 0
Lacks pid = All (λ u. u.pid ≢ pid)

-- No two threads share a pid.
abbrev pub Distinct : List TracedThread → Type 0
Distinct [] = Unit
Distinct (t ∷ ts) = Lacks t.pid ts × Distinct ts

-- No thread of the one list has the pid of a thread of the other.
abbrev pub Apart : List TracedThread → List TracedThread → Type 0
Apart before = All (λ r. Lacks r.pid before)

pub thread_get_by_pid_middle :
    (before rest : List TracedThread) (t : TracedThread)
    → Lacks t.pid before
    → thread_get_by_pid t.pid (before ++ t ∷ rest) ≡ some t
unfolding thread_get_by_pid
thread_get_by_pid_middle [] rest t h = ground arith
thread_get_by_pid_middle (u ∷ before) rest t h =
    ground (arith, thread_get_by_pid_middle before rest t h.1)

pub put_middle :
    (before rest : List TracedThread) (t u : TracedThread)
    → u.pid ≡ t.pid
    → Lacks t.pid before
    → put u (before ++ t ∷ rest) ≡ before ++ u ∷ rest
unfolding put
put_middle [] rest t u e h = ground arith
put_middle (v ∷ before) rest t u e h = ground (arith, put_middle before rest t u e h.1)

-- A thread goes from the one list to the end of the other, with its pid.
pub Apart-snoc :
    (before rest : List TracedThread) (t u : TracedThread)
    → u.pid ≡ t.pid
    → Lacks t.pid rest
    → Apart before rest
    → Apart (before ++ u ∷ []) rest
Apart-snoc before [] t u e l a = tt
Apart-snoc before (r ∷ rest) t u e l a = (
  All-append (λ v. v.pid ≢ r.pid) before (u ∷ []) a.0 ((λ same. ground arith), tt),
  Apart-snoc before rest t u e l.1 a.1,
)
