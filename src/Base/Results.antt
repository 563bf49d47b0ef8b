-- ===== src/Base/Results.antt =====
-- What a Go function that returns `(A, error)` may do: return a value, return an error, or panic.
-- `out_of_fuel` has no counterpart in the program: a loop or recursion was given too few rounds.
use mathlib.Core.Path.{◌≡◌, refl}
use mathlib.Core.Logic.{◌≢◌}

pub data Outcome {ℓ κ} (E : Type κ) (A : Type ℓ) : Type (ℓ ⊔ κ) where
  ok : A → Outcome E A
  err : E → Outcome E A
  panic out_of_fuel : Outcome E A

infixl 5 ◌>>=◌
abbrev pub ◌>>=◌ {ℓ κ ι} :
    {E : Type ι} {A : Type ℓ} {B : Type κ} → Outcome E A → (A → Outcome E B) → Outcome E B
ok a >>= f = f a
err e >>= f = err e
panic >>= f = panic
out_of_fuel >>= f = out_of_fuel

-- A chain returns a value only if its first step does, and the rest from that value.
pub >>=-eq-ok {ℓ κ ι} :
    {E : Type ι} {A : Type ℓ} {B : Type κ} (step : Outcome E A) (next : A → Outcome E B) {b : B}
    → (step >>= next) ≡ ok b
    → (a : A) × (step ≡ ok a) × (next a ≡ ok b)
>>=-eq-ok out_of_fuel next h = cc
>>=-eq-ok panic next h = cc
>>=-eq-ok (err e) next h = cc
>>=-eq-ok (ok a) next h = (a, refl, h)

pub >>=-ne-out_of_fuel {ℓ κ ι} :
    {E : Type ι} {A : Type ℓ} {B : Type κ} (m : Outcome E A) (f : A → Outcome E B)
    → m ≢ out_of_fuel
    → ((a : A) → m ≡ ok a → f a ≢ out_of_fuel)
    → (m >>= f) ≢ out_of_fuel
>>=-ne-out_of_fuel (ok a) f hm hf = hf a refl
>>=-ne-out_of_fuel (err e) f hm hf = cc
>>=-ne-out_of_fuel panic f hm hf = cc
>>=-ne-out_of_fuel out_of_fuel f hm hf = absurd (hm refl)
