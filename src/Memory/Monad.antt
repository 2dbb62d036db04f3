-- ===== src/Memory/Monad.antt =====
-- A call that returns a value, or that never does: a memory fault, an `assert` or `INVARIANT` that
-- fails, an `exit`, a lock that is not there or not given, a loop that has used up its rounds, a call
-- that is not defined, memory that is given back twice, a remainder by zero, an exception of `new`.
use std.Path.{subst}
use sidle_baselines.Base.{Bool, true, false, ◌≡◌}

pub data Fault : Type 0 where
  out_of_bounds assert_failed exits lock_uninitialised lock_blocked lock_not_held out_of_fuel
        undefined_call double_free division_by_zero bad_alloc :
      Fault

pub data Run {ℓ} (A : Type ℓ) : Type ℓ where
  done : A → Run A
  fault : Fault → Run A

infixl 5 ◌>>=◌ ◌>>◌
abbrev pub ◌>>=◌ {ℓ κ} : {A : Type ℓ} {B : Type κ} → Run A → (A → Run B) → Run B
done a >>= f = f a
fault e >>= f = fault e

abbrev pub ◌>>◌ {ℓ} : {B : Type ℓ} → Run (Unit {0}) → Run B → Run B
m >> k = m >>= λ _. k

-- `assert(c)` and `INVARIANT(c)`
abbrev pub check : Bool → Run (Unit {0})
check true = done tt
check false = fault assert_failed

-- what a call returns, where it returns, has the property
abbrev pub Returns {ℓ κ} : {A : Type ℓ} → (A → Type κ) → Run A → Type κ
Returns P (done a) = P a
Returns P (fault e) = Unit

pub Returns-done {ℓ κ} :
    {A : Type ℓ} (P : A → Type κ) (m : Run A) (a : A) → Returns P m → m ≡ done a → P a
Returns-done P m a h e = subst (Returns P) e h
