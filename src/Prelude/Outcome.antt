-- ===== src/Prelude/Outcome.antt =====
-- What a C function does: it returns a value, or the process stops with a fault.
use mathlib.Core.Path.{◌≡◌, refl, ap}
use Prim.Native.Nat.{ℕ}
use native.Mathlib.Omega.{arith}
use mathlib.Core.Bool.{Bool, true, false}

-- `assertion`: an `assert` fails. `aborted`: `abort` or `exit` is called. `null_deref` and
-- `out_of_bounds`: memory is used that the pointer does not own.
-- `out_of_fuel` is the model's own: a loop was cut short.
pub data Fault : Type 0 where
  assertion aborted null_deref out_of_bounds out_of_fuel : Fault

pub data Run {ℓ} (A : Type ℓ) : Type ℓ where
  ok : A → Run A
  fault : Fault → Run A

infixl 5 ◌>>=◌ ◌>>◌
abbrev pub ◌>>=◌ {ℓ κ} : {A : Type ℓ} {B : Type κ} → Run A → (A → Run B) → Run B
ok a >>= f = f a
fault e >>= f = fault e

abbrev pub ◌>>◌ {ℓ} : {B : Type ℓ} → Run (Unit {0}) → Run B → Run B
m >> k = m >>= λ _. k

-- `assert (b)`
abbrev pub check : Bool → Run (Unit {0})
check true = ok tt
check false = fault assertion

-- The values that the C functions return as an `int`: `success` is 0 and `minus n` is -n.
pub data Status : Type 0 where
  success : Status
  minus : ℕ → Status

pub bind-eq-ok {ℓ κ} :
    {A : Type ℓ} {B : Type κ} (m : Run A) (f : A → Run B) {b : B}
    → (m >>= f) ≡ ok b
    → (a : A) × (m ≡ ok a) × (f a ≡ ok b)
bind-eq-ok (ok a) f h = (a, refl, h)
bind-eq-ok (fault e) f h = cc

pub ok_inj {ℓ} : {A : Type ℓ} {a b : A} → ok a ≡ ok b → a ≡ b
ok_inj {a} {b} h = ground arith

-- A call whose result is only changed by `f`, in front of what goes on with it.
pub bind-map {ℓ κ μ} :
    {A : Type ℓ} {B : Type κ} {C : Type μ} (m : Run A) (f : A → B) (g : B → Run C) {r : B}
    → (m >>= λ a. ok (f a)) ≡ ok r
    → (m >>= λ a. g (f a)) ≡ g r
bind-map (ok a) f g h = ap (λ m. m >>= g) h
bind-map (fault e) f g h = ap (λ m. m >>= g) h

pub check-ok : (b : Bool) (u : Unit {0}) → check b ≡ ok u → b ≡ true
check-ok true u h = refl
check-ok false u h = absurd (ground arith)
