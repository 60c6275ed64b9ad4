-- ===== src/Hook/Placing.antt =====
-- `place` of the constructor in signal_test/hook_main.c: a breakpoint that is made, aimed, added and enabled.
use atrace.Prelude.{
  ℕ, zero, suc, ◌≡◌, refl, ◌≢◌, sym, ap, subst, ◌∙◌, arith, Bool, true, false, none, List, [], ◌∷◌,
  ◌++◌, length, set, Run, ok, ◌>>=◌, bind-eq-ok, ok_inj, Status, success, minus,
}
use atrace.Breakpoint.{
  Breakpoint, World, Machine, breakpoint_new, breakpoint_add, breakpoint_attr_flag, deref,
}
use atrace.Breakpoint.Code.{breakpoint_enable}
use atrace.Breakpoint.Patch.{deref-set}
use atrace.Breakpoint.Consistent.{deref-set_ne}
use atrace.Breakpoint.AddInv.{Inv}
use atrace.Breakpoint.Calls.{new, aim, add, enable, start, behind, Calls-Inv}
use atrace.Breakpoint.Stored.{HasSet, breakpoint_add-Stored}
use atrace.Breakpoint.Flagged.{breakpoint_enable-Flagged}
use atrace.Hook.{or_abort, at_address, place}

or_abort-ok : {A : Type 0} (r : A × Status) (a : A) → or_abort r ≡ ok a → r ≡ (a, success)
or_abort-ok (b, success) a h = ap (λ x. (x, success)) (ok_inj h)
or_abort-ok (b, minus n) a h = absurd (ground arith)

deref-snoc_ne :
    (xs : List Breakpoint) (y : Breakpoint) (j : ℕ)
    → j ≢ length xs
    → deref (xs ++ y ∷ []) j ≡ deref xs j
deref-snoc_ne [] y zero h = absurd (h refl)
deref-snoc_ne [] y (suc j) h = refl
deref-snoc_ne (x ∷ xs) y zero h = refl
deref-snoc_ne (x ∷ xs) y (suc j) h = deref-snoc_ne xs y j (λ e. h (ap suc e))

deref_last : (xs : List Breakpoint) (y : Breakpoint) → deref (xs ++ y ∷ []) (length xs) ≡ ok y
deref_last [] y = refl
deref_last (x ∷ xs) y = deref_last xs y

-- A breakpoint as `breakpoint_new` makes it.
abbrev fresh : ℕ → Breakpoint
fresh p = record {
  attr = 0;
  bp_enter = record { address = 0; bkpt = p; rb_empty = true };
  bp_return = record { address = 0; bkpt = p; rb_empty = true };
  slot_set = none;
  slot_index = 0;
  obj = none;
  chained = false;
}

-- `p` is a new breakpoint at an address, with a slot, and the other breakpoints are as they were.
pub record IsAimed (addr p : ℕ) (w w' : World) : Type 0 where
  pub inv : Inv w'
  pub last : p ≡ length w.breakpoints
  pub bkpt : Breakpoint
  pub held : deref w'.breakpoints p ≡ ok bkpt
  pub address : bkpt.bp_enter.address ≡ addr
  pub slot : HasSet bkpt
  pub others : (j : ℕ) → j ≢ p → deref w'.breakpoints j ≡ deref w.breakpoints j

-- A call whose status is 0.
or_abort-bind :
    (call : Run (World × Status)) (w : World) → call >>= or_abort ≡ ok w → call ≡ ok (w, success)
or_abort-bind call w h = let (r, e, k) = bind-eq-ok call or_abort h in e ∙ ap ok (or_abort-ok r w k)

module _ (m : Machine) where
  -- The store of the address, the addition and the enabling.
  placed-IsAimed :
      (addr : ℕ) (w added enabled : World)
      → Inv w
      → breakpoint_add m (length w.breakpoints) (record w {
        breakpoints =
            set
              (w.breakpoints ++ fresh (length w.breakpoints) ∷ [])
              (length w.breakpoints)
              (at_address addr (fresh (length w.breakpoints)));
      })
        ≡ ok (added, success)
      → breakpoint_enable m (length w.breakpoints) added ≡ ok (enabled, success)
      → IsAimed addr (length w.breakpoints) w enabled
  unfolding breakpoint_new breakpoint_attr_flag
  placed-IsAimed addr w added enabled i e f =
      let n = length w.breakpoints in
      let grown : List Breakpoint = w.breakpoints ++ fresh n ∷ [] in
      let target : Breakpoint = at_address addr (fresh n) in
      let aimed : World = record w { breakpoints = set grown n target } in
      let made : breakpoint_new true w ≡ ok (record w { breakpoints = grown }, n) = refl in
      let last = deref_last w.breakpoints (fresh n) in
      let ready = deref-set grown n target last in
      let (r, has) = breakpoint_add-Stored m n target aimed added success ready e in
      let there = ap (λ bs. deref bs n) r.stored ∙ deref-set aimed.breakpoints n r.new ready in
      let (attr, flagged) = breakpoint_enable-Flagged m n r.new added enabled success there f in
      record {
        inv = Calls-Inv m i (
            behind
              (behind (behind (behind start (new true n made)) (aim n addr 0 (fresh n) last refl))
                (add n success e))
              (enable n success f));
        last = refl;
        bkpt = record r.new { attr = attr };
        held =
            ap (λ bs. deref bs n) flagged
            ∙ deref-set added.breakpoints n (record r.new { attr = attr }) there;
        address = r.address;
        slot = has refl refl;
        others = λ j ne.
            ap (λ bs. deref bs j) flagged
            ∙ deref-set_ne added.breakpoints n j (record r.new { attr = attr }) ne
            ∙ ap (λ bs. deref bs j) r.stored
            ∙ deref-set_ne aimed.breakpoints n j r.new ne
            ∙ deref-set_ne grown n j target ne
            ∙ deref-snoc_ne w.breakpoints (fresh n) j ne;
      }

  pub place-IsAimed :
      (calloc : Bool) (addr : ℕ) (w : World) (r : World × ℕ)
      → Inv w
      → place m calloc addr w ≡ ok r
      → IsAimed addr r.1 w r.0
  unfolding place breakpoint_new
  place-IsAimed false addr w r i h = absurd (ground arith)
  place-IsAimed true addr w r i h =
      let n = length w.breakpoints in
      let grown : List Breakpoint = w.breakpoints ++ fresh n ∷ [] in
      let (b, d, h₁) = bind-eq-ok (deref grown n) _ h in
      let its : b ≡ fresh n = ok_inj (sym d ∙ deref_last w.breakpoints (fresh n)) in
      let (added, e, h₂) =
        bind-eq-ok
          (breakpoint_add m n (record w { breakpoints = set grown n (at_address addr b) })
            >>= or_abort)
          _ h₁ in
      let (enabled, f, h₃) = bind-eq-ok (breakpoint_enable m n added >>= or_abort) _ h₂ in
      subst (λ (x : World × ℕ). IsAimed addr x.1 w x.0) (ok_inj h₃)
        (placed-IsAimed addr w added enabled i
          (subst
            (λ (x : Breakpoint).
              breakpoint_add m n (record w { breakpoints = set grown n (at_address addr x) })
              ≡ ok (added, success))
            its (or_abort-bind _ added e))
          (or_abort-bind _ enabled f))
