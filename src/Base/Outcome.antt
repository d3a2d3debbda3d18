-- ===== src/Base/Outcome.antt =====
-- How a call of a C function ends: it returns, the process stops, or a loop runs out of the rounds
-- that the model gives it (which is never a return).
use Prim.Native.Nat.{ℕ}
use mathlib.Core.Path.{◌≡◌, refl}

pub data Outcome {ℓ} (A : Type ℓ) : Type ℓ where
  returns : A → Outcome A
  aborts : Outcome A  -- abort()
  exits : ℕ → Outcome A  -- exit(n)
  unfinished : Outcome A

infixl 5 ◌>>=◌
abbrev pub ◌>>=◌ {ℓ κ} : {A : Type ℓ} {B : Type κ} → Outcome A → (A → Outcome B) → Outcome B
returns a >>= f = f a
aborts >>= f = aborts
exits n >>= f = exits n
unfinished >>= f = unfinished

-- Inversion of a chain that returns.
pub >>=-eq-returns {ℓ κ} :
    {A : Type ℓ} {B : Type κ} (m : Outcome A) (f : A → Outcome B) {b : B}
    → (m >>= f) ≡ returns b
    → (a : A) × (m ≡ returns a) × (f a ≡ returns b)
>>=-eq-returns (returns a) f h = (a, refl, h)
>>=-eq-returns aborts f h = cc
>>=-eq-returns (exits n) f h = cc
>>=-eq-returns unfinished f h = cc
