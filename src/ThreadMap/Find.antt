-- ===== src/ThreadMap/Find.antt =====
-- What `thread_map_find` reads: the first thread of its id in its bucket.
use atrace.Prelude.{
  ℕ, zero, suc, ◌≡◌, ◌≢◌, subst, arith, Option, none, some, [], ◌∷◌, get_elem?, get_or,
  get_elem?-get_or, length, ok, All,
}
use atrace.ThreadMap.{
  Thread, Chain, ThreadMap, thread_map_size, bucket_of, chain_at, scan, thread_map_find_internal,
  thread_map_find,
}

-- The chain that a thread id hashes to.
abbrev pub chain_of : ThreadMap → ℕ → Chain
chain_of m thread_id = get_or m (bucket_of thread_id) []

pub chain_at-get_or :
    (m : ThreadMap) (thread_id : ℕ)
    → length m ≡ thread_map_size
    → chain_at m (bucket_of thread_id) ≡ ok (chain_of m thread_id)
unfolding chain_at
chain_at-get_or m thread_id h =
    rw (chain_at, get_elem?-get_or m (bucket_of thread_id) [] (omega arith))

-- The map that the buckets stand for.
abbrev pub view : ThreadMap → ℕ → Option Thread
view m thread_id = scan thread_id (chain_of m thread_id)

pub find-view :
    (m : ThreadMap) (thread_id : ℕ)
    → length m ≡ thread_map_size
    → thread_map_find m thread_id ≡ ok (view m thread_id)
unfolding thread_map_find thread_map_find_internal
find-view m thread_id h = rw (chain_at-get_or m thread_id h)

-- No two threads of a chain share an id.
abbrev pub Distinct : Chain → Type 0
Distinct [] = Unit
Distinct (t ∷ ts) = All (λ u. u.tid ≢ t.tid) ts × Distinct ts

pub scan-absent :
    (thread_id : ℕ) (c : Chain) → scan thread_id c ≡ none → All (λ u. u.tid ≢ thread_id) c
unfolding scan
scan-absent thread_id [] e = tt
scan-absent thread_id (t ∷ c) e = ground (arith, scan-absent thread_id c)

pub scan_tid :
    (thread_id : ℕ) (c : Chain) (t : Thread) → scan thread_id c ≡ some t → t.tid ≡ thread_id
unfolding scan
scan_tid thread_id [] t e = cc
scan_tid thread_id (u ∷ c) t e = ground (arith, scan_tid thread_id c t)

pub All-get_elem? :
    (P : Thread → Type 0) (c : Chain) (j : ℕ) {t : Thread} → All P c → get_elem? c j ≡ some t → P t
All-get_elem? P [] j a e = cc
All-get_elem? P (u ∷ c) zero a e = subst P (ground arith) a.0
All-get_elem? P (u ∷ c) (suc j) a e = All-get_elem? P c j a.1 e

-- In a chain with distinct ids each thread is found by its id.
pub scan-member :
    (c : Chain) (j : ℕ) {t : Thread} → Distinct c → get_elem? c j ≡ some t → scan t.tid c ≡ some t
unfolding scan
scan-member [] j d e = cc
scan-member (u ∷ c) zero d e = ground arith
scan-member (u ∷ c) (suc j) {t} d e =
    ground (arith, All-get_elem? (λ v. v.tid ≢ u.tid) c j d.0 e, scan-member c j d.1 e)
