-- ===== src/ThreadMap/Examples.antt =====
-- Runs of the thread map, and its theorems at concrete inputs.
use mathlib.Core.Option.{get_or}
use atrace.Prelude.{
  ℕ, zero, suc, ◌≡◌, refl, All, Bool, true, false, none, some, [], ◌∷◌, ◌==◌, if◌then◌else◌, arith,
  ◌>>=◌, get_or as get_elem_or, replicate, ok, Status, success, minus,
}
use atrace.Linux.{plain_lists}
use atrace.ThreadMap.{
  Thread, Chain, ThreadMap, bucket_of, scan, chain_at, thread_map_init, thread_new, thread_del,
  thread_map_find_internal, thread_map_find, thread_map_add, thread_map_del,
}
use atrace.ThreadMap.Find.{view, Distinct}
use atrace.ThreadMap.Laws.{IsValid, linked, thread_map_add_refines, thread_map_del_removes_nothing}

abbrev blank : ThreadMap
blank = replicate 64 []

abbrev thread : ℕ → Bool → Thread
thread tid empty = record { tid = tid; singlestep_bp = none; list_empty = empty }

-- Threads 7 and 71 share a bucket.
abbrev two_threads : ThreadMap
two_threads =
    [] ∷ [] ∷ [] ∷ [] ∷ [] ∷ [] ∷ [] ∷ (thread 71 false ∷ thread 7 false ∷ []) ∷ replicate 56 []

add_twice :
    (do
      first ← thread_map_add plain_lists (thread_map_init blank) (thread 7 true)
      second ← thread_map_add plain_lists first.0 (thread 71 true)
      ok second)
    ≡ ok (two_threads, success)
unfolding thread_map_add thread_map_init thread_map_find_internal chain_at scan
add_twice = refl

get_or-replicate : (n i : ℕ) → get_elem_or (replicate {A = Chain} n []) i [] ≡ []
get_or-replicate zero i = refl
get_or-replicate (suc n) zero = refl
get_or-replicate (suc n) (suc i) = get_or-replicate n i

abbrev Placed : ℕ → Type 0
Placed i =
    All (λ t. (bucket_of t.tid ≡ i) × (t.list_empty ≡ false)) (get_elem_or two_threads i [])
    × Distinct (get_elem_or two_threads i [])

two_threads-Placed : (i : ℕ) → Placed i
two_threads-Placed zero = (tt, tt)
two_threads-Placed (suc zero) = (tt, tt)
two_threads-Placed (suc (suc zero)) = (tt, tt)
two_threads-Placed (suc (suc (suc zero))) = (tt, tt)
two_threads-Placed (suc (suc (suc (suc zero)))) = (tt, tt)
two_threads-Placed (suc (suc (suc (suc (suc zero))))) = (tt, tt)
two_threads-Placed (suc (suc (suc (suc (suc (suc zero)))))) = (tt, tt)
two_threads-Placed (suc (suc (suc (suc (suc (suc (suc zero))))))) =
    (((refl, refl), ((refl, refl), tt)), ((omega arith, tt), (tt, tt)))
two_threads-Placed (suc (suc (suc (suc (suc (suc (suc (suc i)))))))) =
    rw (get_or-replicate 56 i) (tt, tt)

two_threads-IsValid : IsValid two_threads
two_threads-IsValid = record {
  width = refl;
  placed = λ i. (two_threads-Placed i).0;
  distinct = λ i. (two_threads-Placed i).1;
}

thread_map_add_refines_example :
    (result : ThreadMap × Status) × (thread_map_add plain_lists two_threads (thread 135 true)
      ≡ ok result)
    × IsValid result.0
    × ((thread_id : ℕ)
        → thread_map_find result.0 thread_id
          ≡ ok (
              if 135 == thread_id
              then some (get_or (view two_threads 135) (linked (thread 135 true)))
              else view two_threads thread_id))
    × (result.1 ≡ (elim (view two_threads 135) [ none ↦ success | some _ ↦ minus 1 ]))
thread_map_add_refines_example =
    thread_map_add_refines plain_lists two_threads (thread 135 true) two_threads-IsValid refl

thread_map_del_removes_nothing_example : thread_map_del two_threads 7 ≡ ok (two_threads, none)
unfolding scan
thread_map_del_removes_nothing_example = thread_map_del_removes_nothing two_threads 7 refl

-- `thread_new` gives an object that `thread_map_add` and `thread_del` accept.
new_then_del : (do t ← thread_new true; thread_del t) ≡ ok tt
unfolding thread_new thread_del
new_then_del = refl
