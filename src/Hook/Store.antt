-- ===== src/Hook/Store.antt =====
-- Stores into thread objects, and the thread object that a handler works on.
use atrace.Prelude.{
  ℕ, ◌≡◌, refl, ◌≢◌, sym, ap, subst, ◌∙◌, arith, true, false, none, some, [], ◌∷◌, ◌==◌,
  if◌then◌else◌, Option-cases, Bool-cases, inl, inr, get_or, get_or-set, length-set, ok, ok_inj,
  All, Status, success, ◌>>=◌,
}
use mathlib.Core.Option.{get_or as or_else}
use atrace.ThreadMap.{Thread, Chain, ThreadMap, bucket_of, scan, thread_new, thread_map_add}
use atrace.ThreadMap.Find.{chain_of, view, find-view, Distinct, scan_tid}
use atrace.ThreadMap.Laws.{IsValid, thread_map_add_refines}
use atrace.Hook.{Runtime, replace, store_thread, found_or_new, current_thread}

module _ (P : Thread → Type 0) (t : Thread) where
  All-replace : (c : Chain) → P t → All P c → All P (replace t c)
  unfolding replace
  All-replace [] p q = tt
  All-replace (u ∷ c) p q = ground (arith, All-replace c p q.1)

Distinct-replace : (t : Thread) (c : Chain) → Distinct c → Distinct (replace t c)
unfolding replace
Distinct-replace t [] d = tt
Distinct-replace t (u ∷ c) d = elim (Bool-cases (u.tid == t.tid)) [
  | inl here ↦
      let same : u.tid ≡ t.tid = ground arith in
      rw (replace, here) (subst (λ (i : ℕ). All (λ v. v.tid ≢ i) c) same d.0, d.1)
  | inr there ↦
      rw (replace, there)
        (All-replace (λ v. v.tid ≢ u.tid) t c (λ e. ground arith) d.0, Distinct-replace t c d.1)
]

scan-replace :
    (t : Thread) (c : Chain) (thread_id : ℕ) (old : Thread)
    → scan t.tid c ≡ some old
    → scan thread_id (replace t c) ≡ (if t.tid == thread_id then some t else scan thread_id c)
unfolding replace scan
scan-replace t [] thread_id old h = cc
scan-replace t (u ∷ c) thread_id old h = ground (arith, scan-replace t c thread_id old)

-- A store through a pointer to a thread of the map changes what the map holds at that thread's id, and nothing else.
module _ (t old : Thread) (m : ThreadMap) (v : IsValid m) (held : view m t.tid ≡ some old)
    (on : t.list_empty ≡ false) where
  pub store_thread-IsValid : IsValid (store_thread t m)
  store_thread-IsValid = record {
    width = length-set m _ _ ∙ v.width;
    placed = λ i.
        rw
          (get_or-set m (bucket_of t.tid) i (replace t (chain_of m t.tid)) []
            (omega (arith, v.width)))
          (at i);
    distinct = λ i.
        rw
          (get_or-set m (bucket_of t.tid) i (replace t (chain_of m t.tid)) []
            (omega (arith, v.width)))
          (ground (
            arith,
            v.distinct i,
            Distinct-replace t (chain_of m t.tid) (v.distinct (bucket_of t.tid)),
          ));
  }
    where
      at :
          (i : ℕ)
          → All
              (λ u. (bucket_of u.tid ≡ i) × (u.list_empty ≡ false))
              (if bucket_of t.tid == i then replace t (chain_of m t.tid) else get_or m i [])
      at i = elim (Bool-cases (bucket_of t.tid == i)) [
        | inl here ↦
            let same : bucket_of t.tid ≡ i = ground arith in
            rw here (
              All-replace (λ u. (bucket_of u.tid ≡ i) × (u.list_empty ≡ false)) t (chain_of m t.tid)
                (same, on)
                (subst
                  (λ (j : ℕ).
                    All (λ u. (bucket_of u.tid ≡ i) × (u.list_empty ≡ false)) (get_or m j []))
                  (sym same) (v.placed i)))
        | inr there ↦ rw there (v.placed i)
      ]

  pub view-store_thread :
      (thread_id : ℕ)
      → view (store_thread t m) thread_id
        ≡ (if t.tid == thread_id then some t else view m thread_id)
  view-store_thread thread_id =
      rw
        (get_or-set m (bucket_of t.tid) (bucket_of thread_id) (replace t (chain_of m t.tid)) []
          (omega (arith, v.width)))
        (ground (arith, scan-replace t (chain_of m t.tid) thread_id old held))

-- A thread object as `thread_map_add` leaves a new one.
abbrev pub new_thread : ℕ → Thread
new_thread thread_id = record { tid = thread_id; singlestep_bp = none; list_empty = false }

-- The thread that a handler works on is in the map under its id, and no other id is found differently.
pub record Current (thread_id : ℕ) (m : ThreadMap) (result : ThreadMap × Thread) : Type 0 where
  pub valid : IsValid result.0
  pub held : view result.0 thread_id ≡ some result.1
  pub named : result.1.tid ≡ thread_id
  pub linked_in : result.1.list_empty ≡ false
  pub was : result.1 ≡ or_else (view m thread_id) (new_thread thread_id)
  pub others : (j : ℕ) → j ≢ thread_id → view result.0 j ≡ view m j

scan-All :
    (P : Thread → Type 0) (thread_id : ℕ) (c : Chain) (t : Thread)
    → All P c
    → scan thread_id c ≡ some t
    → P t
unfolding scan
scan-All P thread_id [] t a e = absurd (ground arith)
scan-All P thread_id (u ∷ c) t a e = elim (Bool-cases (u.tid == thread_id)) [
  | inl here ↦ subst P (ground arith) a.0
  | inr there ↦ scan-All P thread_id c t a.1 (ground arith)
]

-- Where `calloc` finds memory, the start of a handler gives the thread object of its thread, a new one if there was none.
pub current_thread-Current :
    (runtime : Runtime) (thread_id : ℕ) (m : ThreadMap)
    → runtime.calloc ≡ true
    → IsValid m
    → (result : ThreadMap × Thread) × (current_thread runtime thread_id m ≡ ok result)
      × Current thread_id m result
unfolding current_thread thread_new
current_thread-Current runtime thread_id m memory v = elim (Option-cases (view m thread_id)) [
  | inr (t, e) ↦ (
    (m, t),
    ap (λ r. r >>= found_or_new runtime thread_id m) (find-view m thread_id v.width ∙ ap ok e),
    record {
      valid = v;
      held = e;
      named = scan_tid thread_id (chain_of m thread_id) t e;
      linked_in =
          (scan-All (λ u. (bucket_of u.tid ≡ bucket_of thread_id) × (u.list_empty ≡ false))
            thread_id (chain_of m thread_id) t (v.placed (bucket_of thread_id)) e).1;
      was = rw e refl;
      others = λ j ne. refl;
    },
  )
  | inl e ↦
      let made : Thread = record { tid = thread_id; singlestep_bp = none; list_empty = true } in
      let ((m', st), done, valid, finds, status) =
        thread_map_add_refines runtime.thread_lists m made v refl in
      let chosen : st ≡ success = status ∙ rw e refl in
      let taken : thread_map_add runtime.thread_lists m made ≡ ok (m', success) =
        done ∙ ap (λ (x : Status). ok (m', x)) chosen in
      let seen : (j : ℕ)
          → view m' j ≡ (if thread_id == j then some (new_thread thread_id) else view m j) =
        λ j. ok_inj (sym (find-view m' j valid.width) ∙ finds j ∙ rw e refl) in
      (
        (m', new_thread thread_id),
        ap (λ r. r >>= found_or_new runtime thread_id m) (find-view m thread_id v.width ∙ ap ok e)
            ∙ rw (memory, thread_new, taken) refl,
        record {
          valid = valid;
          held = seen thread_id ∙ ground arith;
          named = refl;
          linked_in = refl;
          was = rw e refl;
          others = λ j ne. seen j ∙ ground arith;
        },
      )
]
