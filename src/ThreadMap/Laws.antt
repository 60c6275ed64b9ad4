-- ===== src/ThreadMap/Laws.antt =====
-- The operations on the thread map against a map from ids to threads.
use atrace.Prelude.{
  ℕ, zero, suc, ◌+◌, ◌≡◌, refl, ap, ◌∙◌, arith, true, false, Option, none, some, [], ◌∷◌, ◌==◌,
  if◌then◌else◌, leb, get_elem?, get_or_beyond, get_or-set, get_or as get_elem_or, set, length,
  length-set, ok, fault, null_deref, All, Status, success, minus,
}
use mathlib.Core.Option.{get_or}
use atrace.Linux.{ListOps}
use atrace.ThreadMap.{
  Thread, ThreadMap, thread_map_size, bucket_of, scan, add_absent, init_from, del_found,
  thread_map_init, thread_map_find_internal, thread_map_find, thread_map_add, thread_map_del,
}
use atrace.ThreadMap.Find.{
  chain_at-get_or, chain_of, view, find-view, Distinct, scan-absent, scan-member, All-get_elem?,
}

-- Every bucket is there, a thread stands in the bucket of its id and is linked, and no id occurs
-- twice.
pub record IsValid (m : ThreadMap) : Type 0 where
  pub width : length m ≡ thread_map_size
  pub placed :
      (i : ℕ) → All (λ t. (bucket_of t.tid ≡ i) × (t.list_empty ≡ false)) (get_elem_or m i [])
  pub distinct : (i : ℕ) → Distinct (get_elem_or m i [])

abbrev pub linked : Thread → Thread
linked t = record t { list_empty = false }

-- The outcome of `thread_map_add` once the bucket has been searched.
abbrev added : ThreadMap → Thread → Option Thread → ThreadMap × Status
added m t (some exist) = (m, minus 1)
added m t none = (set m (bucket_of t.tid) (linked t ∷ chain_of m t.tid), success)

add_absent-added :
    (lists : ListOps Thread) (m : ThreadMap) (t : Thread) (exist : Option Thread)
    → length m ≡ thread_map_size
    → add_absent lists m t exist ≡ ok (added m t exist)
unfolding add_absent
add_absent-added lists m t none w =
    rw (chain_at-get_or m t.tid w, lists.list_add_lem (linked t) (chain_of m t.tid))
add_absent-added lists m t (some u) w = refl

pub add-added :
    (lists : ListOps Thread) (m : ThreadMap) (t : Thread)
    → length m ≡ thread_map_size
    → t.list_empty ≡ true
    → thread_map_add lists m t ≡ ok (added m t (view m t.tid))
unfolding thread_map_add thread_map_find_internal
add-added lists m t w e =
    simp (e, chain_at-get_or m t.tid w) (add_absent-added lists m t (view m t.tid) w)

-- The view of the result, at each id.
view-added :
    (m : ThreadMap) (t : Thread) (exist : Option Thread) (thread_id : ℕ)
    → length m ≡ thread_map_size
    → view m t.tid ≡ exist
    → view (added m t exist).0 thread_id
      ≡ (if t.tid == thread_id then some (get_or exist (linked t)) else view m thread_id)
unfolding scan
view-added m t none thread_id w e =
    rw
      (get_or-set m (bucket_of t.tid) (bucket_of thread_id) (linked t ∷ chain_of m t.tid) []
        (omega arith))
      (ground arith)
view-added m t (some u) thread_id w e = ground arith

-- The buckets keep their invariant.
added-IsValid :
    (m : ThreadMap) (t : Thread) (exist : Option Thread)
    → IsValid m
    → view m t.tid ≡ exist
    → IsValid (added m t exist).0
added-IsValid m t (some u) v e = v
added-IsValid m t none v e = record {
  width = length-set m _ _ ∙ v.width;
  placed = λ i.
      rw
        (get_or-set m (bucket_of t.tid) i (linked t ∷ chain_of m t.tid) [] (omega (arith, v.width)))
        (ground (arith, v.placed i));
  distinct = λ i.
      rw
        (get_or-set m (bucket_of t.tid) i (linked t ∷ chain_of m t.tid) [] (omega (arith, v.width)))
        (ground (arith, v.distinct i, scan-absent t.tid (chain_of m t.tid) e));
}

-- On a valid map and a thread that is in no chain, `thread_map_add` returns. The map that it
-- leaves is valid, and `thread_map_find` then gives, at the thread's id, the thread that was
-- there before or, if there was none, the added one, now linked; at every other id it gives what
-- it gave before. The status is 0 if the id was absent, and -1 otherwise.
pub thread_map_add_refines :
    (lists : ListOps Thread) (m : ThreadMap) (t : Thread)
    → IsValid m
    → t.list_empty ≡ true
    → (result : ThreadMap × Status) × (thread_map_add lists m t ≡ ok result)
      × IsValid result.0
      × ((thread_id : ℕ)
          → thread_map_find result.0 thread_id
            ≡ ok (
                if t.tid == thread_id
                then some (get_or (view m t.tid) (linked t))
                else view m thread_id))
      × (result.1 ≡ (elim (view m t.tid) [ none ↦ success | some _ ↦ minus 1 ]))
thread_map_add_refines lists m t v e =
    let valid = added-IsValid m t (view m t.tid) v refl in
    (
      added m t (view m t.tid),
      add-added lists m t v.width e,
      valid,
      λ thread_id.
          find-view _ thread_id valid.width ∙ ap ok (view-added m t _ thread_id v.width refl),
      status (view m t.tid),
    )
  where
    status :
        (exist : Option Thread)
        → (added m t exist).1 ≡ (elim exist [ none ↦ success | some _ ↦ minus 1 ])
    status none = refl
    status (some u) = refl

-- In a valid map, `thread_map_find` finds every thread that stands in any bucket by its id.
pub thread_map_find_complete :
    (m : ThreadMap) (i j : ℕ) {t : Thread}
    → IsValid m
    → get_elem? (get_elem_or m i []) j ≡ some t
    → thread_map_find m t.tid ≡ ok (some t)
thread_map_find_complete m i j {t} v e =
    let home =
      All-get_elem? (λ u. (bucket_of u.tid ≡ i) × (u.list_empty ≡ false)) _ j (v.placed i) e in
    find-view m t.tid v.width
    ∙ ap ok (rw home.0 (scan-member (get_elem_or m i []) j (v.distinct i) e))

-- `thread_map_del` never takes a thread out of a map with all its buckets: for a thread that is
-- present it returns NULL and leaves the map as it was, and for one that is absent it reads
-- through a null pointer.
pub thread_map_del_removes_nothing :
    (m : ThreadMap) (thread_id : ℕ)
    → length m ≡ thread_map_size
    → thread_map_del m thread_id
      ≡ (elim (view m thread_id) [ some _ ↦ ok (m, none) | none ↦ fault null_deref ])
unfolding thread_map_del thread_map_find_internal
thread_map_del_removes_nothing m thread_id w =
    rw (chain_at-get_or m thread_id w) (found (view m thread_id))
  where
    found :
        (exist : Option Thread)
        → del_found m exist ≡ (elim exist [ some _ ↦ ok (m, none) | none ↦ fault null_deref ])
    found none = refl
    found (some t) = refl

get_or-init_from :
    (rounds i j : ℕ) (m : ThreadMap)
    → rounds + i ≡ length m
    → get_elem_or (init_from rounds i m) j [] ≡ (if leb i j then [] else get_elem_or m j [])
unfolding init_from
get_or-init_from zero i j m e = ground (arith, get_or_beyond m j [])
get_or-init_from (suc rounds) i j m e = ground (
  arith,
  get_or-init_from rounds (suc i) j (set m i []),
  get_or-set m i j [] [],
  length-set m i [],
)

length-init_from : (rounds i : ℕ) (m : ThreadMap) → length (init_from rounds i m) ≡ length m
unfolding init_from
length-init_from zero i m = refl
length-init_from (suc rounds) i m = length-init_from rounds (suc i) _ ∙ length-set m i []

get_or-thread_map_init :
    (m : ThreadMap) (j : ℕ) → length m ≡ thread_map_size → get_elem_or (thread_map_init m) j [] ≡ []
unfolding thread_map_init
get_or-thread_map_init m j w = get_or-init_from thread_map_size 0 j m (omega arith) ∙ ground arith

length-thread_map_init : (m : ThreadMap) → length (thread_map_init m) ≡ length m
unfolding thread_map_init
length-thread_map_init m = length-init_from thread_map_size 0 m

-- From any array of 64 chain heads `thread_map_init` makes a valid map that holds no thread.
pub thread_map_init-IsValid :
    (m : ThreadMap)
    → length m ≡ thread_map_size
    → IsValid (thread_map_init m)
      × ((thread_id : ℕ) → thread_map_find (thread_map_init m) thread_id ≡ ok none)
unfolding scan
thread_map_init-IsValid m w =
    let width = length-thread_map_init m ∙ w in
    (
      record {
        width = width;
        placed = λ i. rw (get_or-thread_map_init m i w) tt;
        distinct = λ i. rw (get_or-thread_map_init m i w) tt;
      },
      λ thread_id.
          find-view _ thread_id width
          ∙ ap ok (rw (get_or-thread_map_init m (bucket_of thread_id) w)),
    )
