-- ===== src/ThreadMap.antt =====
-- signal_test/thread.h and thread.c: the hash map from thread ids to thread objects.
-- A thread id is a number, as the kernel's ids are positive. The lock is taken and released
-- within each call, so a call is one step. A chain holds the thread objects themselves: their
-- pointers are unique by `tid`.
pub mod Find
pub mod Laws
mod Examples
use atrace.Prelude.{
  ℕ, zero, suc, ◌%◌, ◌≡◌, Bool, true, false, Option, none, some, List, [], ◌∷◌, ◌==◌, if◌then◌else◌,
  get_elem?, set, Run, ok, fault, Fault, null_deref, out_of_bounds, check, ◌>>=◌, ◌>>◌, Status,
  success, minus,
}
use atrace.Linux.{ListOps}

abbrev pub thread_map_size : ℕ
thread_map_size = 64

-- `singlestep_bp` points to a breakpoint. `list_empty` is false once `thread_list_entry_` is in a
-- chain.
pub record Thread : Type 0 where
  pub tid : ℕ
  pub singlestep_bp : Option ℕ
  pub list_empty : Bool

abbrev pub Chain : Type 0
Chain = List Thread

abbrev pub ThreadMap : Type 0
ThreadMap = List Chain

-- `thread_map + (thread_id % THREAD_MAP_SIZE)`
abbrev pub bucket_of : ℕ → ℕ
bucket_of thread_id = thread_id % thread_map_size

-- Reads an element of the array of chain heads.
unfoldable pub chain_at : ThreadMap → ℕ → Run Chain
chain_at m i = elim (get_elem? m i) [ none ↦ fault out_of_bounds | some c ↦ ok c ]

-- The loop `for(i=0; i<THREAD_MAP_SIZE; i++)`, with the rounds left.
init_from : ℕ → ℕ → ThreadMap → ThreadMap
init_from zero i m = m
init_from (suc rounds) i m = init_from rounds (suc i) (set m i [])

unfoldable pub thread_map_init : ThreadMap → ThreadMap
unfolding init_from
thread_map_init m = init_from thread_map_size 0 m

-- `calloc` fails or clears the object; `INIT_LIST_HEAD` makes its entry a chain of its own.
unfoldable pub thread_new : Bool → Run Thread
thread_new false = fault Fault.aborted
thread_new true = ok (record { tid = 0; singlestep_bp = none; list_empty = true })

unfoldable pub thread_del : Thread → Run (Unit {0})
thread_del t = check t.list_empty

-- The loop `list_for_each_entry(pos, head, thread_list_entry_)`.
unfoldable pub scan : ℕ → Chain → Option Thread
scan thread_id [] = none
scan thread_id (pos ∷ rest) = if pos.tid == thread_id then some pos else scan thread_id rest

unfoldable pub thread_map_find_internal : ThreadMap → ℕ → Run (Option Thread)
thread_map_find_internal m thread_id = do
  head ← chain_at m (bucket_of thread_id)
  ok (scan thread_id head)

unfoldable pub thread_map_find : ThreadMap → ℕ → Run (Option Thread)
thread_map_find m thread_id = thread_map_find_internal m thread_id

-- What follows the search in `thread_map_add`.
add_absent : ListOps Thread → ThreadMap → Thread → Option Thread → Run (ThreadMap × Status)
add_absent lists m t (some exist) = ok (m, minus 1)
add_absent lists m t none = do
  head ← chain_at m (bucket_of t.tid)
  let linked = record t { list_empty = false }
  ok (set m (bucket_of t.tid) (lists.list_add linked head), success)

unfoldable pub thread_map_add : ListOps Thread → ThreadMap → Thread → Run (ThreadMap × Status)
unfolding add_absent
thread_map_add lists m t = do
  check t.list_empty
  exist ← thread_map_find_internal m t.tid
  add_absent lists m t exist

-- `list_del(&exist->thread_list_entry_)` reads the neighbours of `exist`, which is NULL here.
del_found : ThreadMap → Option Thread → Run (ThreadMap × Option Thread)
del_found m (some exist) = ok (m, none)
del_found m none = fault null_deref

unfoldable pub thread_map_del : ThreadMap → ℕ → Run (ThreadMap × Option Thread)
unfolding del_found
thread_map_del m thread_id = do exist ← thread_map_find_internal m thread_id; del_found m exist
