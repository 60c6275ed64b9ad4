-- ===== src/Breakpoint/Stored.antt =====
-- Which breakpoint `breakpoint_add` and `breakpoint_enable` of signal_test/breakpoint.c store, on every branch: their own.
use atrace.Prelude.{
  ℕ, zero, suc, ◌≡◌, refl, sym, ap, ◌∙◌, arith, true, false, some, List, [], ◌∷◌, set, ok, ok_inj,
  Status, success, minus,
}
use atrace.Breakpoint.{
  Breakpoint, World, Machine, bkpt_attr_flag_no_slot, breakpoint_attr_flag, deref, breakpoint_add,
}
use atrace.Breakpoint.Added.{set-set}
use atrace.Breakpoint.Outcome.{
  linked, slotted, Outcome, unchanged, met, slotless, placed, given_back, breakpoint_add-Outcome,
}

-- The breakpoint `p`, which was `b`, is stored and no other, and keeps its address.
pub record Stores (p : ℕ) (b : Breakpoint) (w w' : World) : Type 0 where
  pub new : Breakpoint
  pub stored : w'.breakpoints ≡ set w.breakpoints p new
  pub address : new.bp_enter.address ≡ b.bp_enter.address

-- It has a slot.
abbrev pub HasSet : Breakpoint → Type 0
HasSet b = (q : ℕ) × (b.slot_set ≡ some q)

-- Where a breakpoint was added that wants a slot, it has one.
abbrev pub Stored : ℕ → Breakpoint → World → World → Status → Type 0
Stored p b w w' status =
    (r : Stores p b w w') × (breakpoint_attr_flag bkpt_attr_flag_no_slot b ≡ false
      → status ≡ success
      → HasSet r.new)

pub set_same : (xs : List Breakpoint) (p : ℕ) (b : Breakpoint) → deref xs p ≡ ok b → set xs p b ≡ xs
set_same [] p b h = refl
set_same (x ∷ xs) zero b h = ap (λ (y : Breakpoint). y ∷ xs) (sym (ok_inj h))
set_same (x ∷ xs) (suc p) b h = ap (λ ys. x ∷ ys) (set_same xs p b h)

-- A refusal that stores nothing, or the breakpoint as it was.
Stores_nothing :
    (p n : ℕ) (b : Breakpoint) (w w' : World) (status : Status)
    → deref w.breakpoints p ≡ ok b
    → w'.breakpoints ≡ w.breakpoints
    → minus n ≡ status
    → Stored p b w w' status
Stores_nothing p n b w w' status held same refused = (
  record { new = b; stored = same ∙ sym (set_same w.breakpoints p b held); address = refl },
  λ f s. absurd (ground arith),
)

module _ (m : Machine) where
  pub breakpoint_add-Stored :
      (p : ℕ) (b : Breakpoint) (w w' : World) (status : Status)
      → deref w.breakpoints p ≡ ok b
      → breakpoint_add m p w ≡ ok (w', status)
      → Stored p b w w' status
  unfolding breakpoint_attr_flag
  breakpoint_add-Stored p b w w' status held h =
      go w' status (breakpoint_add-Outcome m p b w w' status held h).1
    where
      stores :
          (v : World) (c : Breakpoint)
          → v.breakpoints ≡ set (set w.breakpoints p (linked b)) p c
          → c.bp_enter.address ≡ b.bp_enter.address
          → Stores p b w v
      stores v c e address = record {
        new = c;
        stored = e ∙ set-set w.breakpoints p (linked b) c;
        address = address;
      }

      go : (v : World) (st : Status) → Outcome m p b w v st → Stored p b w v st
      go v st (unchanged n) = Stores_nothing p n b w v st held refl refl
      go v st (met t k e) = Stores_nothing p 3 b w v st held refl refl
      go v st (slotless t i obj e flag) = (
        stores v (record (linked b) { obj = some i; chained = true }) refl refl,
        λ f s. absurd (ground arith),
      )
      go v st (placed t u i obj a e f g) = (stores v _ refl refl, λ flag s. (a.slot.ptr, refl))
      go v st (given_back t a freed e f free) =
          (stores v (slotted a (linked b)) refl refl, λ flag s. absurd (ground arith))
