-- ===== src/Prelude/Results.antt =====
-- Results of methods that may raise, alone and beside the state that the method leaves behind.
use mathlib.Core.Path.{◌≡◌, refl}
use mathlib.Core.Logic.{◌⊎◌, inl, inr}

pub data Error : Type 0 where
  value_error key_error integrity_error type_error runtime_error abort_requested transient_error :
      Error

pub data Result {ℓ} (A : Type ℓ) : Type ℓ where
  ok : A → Result A
  err : Error → Result A

infixl 5 ◌>>=◌
abbrev pub ◌>>=◌ {ℓ κ} : {A : Type ℓ} {B : Type κ} → Result A → (A → Result B) → Result B
ok a >>= f = f a
err e >>= f = err e

-- A method on an object: what was written before a raise stays written.
pub data Run {ℓ κ} (S : Type ℓ) (A : Type κ) : Type (ℓ ⊔ κ) where
  returns : A → S → Run S A
  raises : Error → S → Run S A

module _ {ℓ κ} {S : Type ℓ} {A : Type κ} where
  -- The state after the call, however it ended.
  abbrev pub after : Run S A → S
  after (returns a s) = s
  after (raises e s) = s

  abbrev pub and_then {ι} : {B : Type ι} → Run S A → (A → S → Run S B) → Run S B
  and_then (returns a s) f = f a s
  and_then (raises e s) f = raises e s

pub Result-cases {ℓ} :
    {A : Type ℓ} (r : Result A) → ((a : A) × (r ≡ ok a)) ⊎ ((e : Error) × (r ≡ err e))
Result-cases (ok a) = inl (a, refl)
Result-cases (err e) = inr (e, refl)
