-- ===== src/Prelude/Outcomes.antt =====
-- What a C++ call can end in: a value, an exception that the caller can catch, or a fault.
-- A fault is a failed `CAFFEINE_ASSERT` or `assert`, or a read that the language leaves undefined.

use mathlib.Core.Path.{◌≡◌, refl, ap}
use mathlib.Core.Logic.{◌⊎◌, inl, inr}
use mathlib.Core.Bool.{Bool, true, false}
use mathlib.Core.Option.{Option, none, some}

pub data Outcome {ℓ} (A : Type ℓ) : Type ℓ where
  done : A → Outcome A
  throws : Outcome A
  fault : Outcome A

infixl 5 ◌>>=◌ ◌>>◌
abbrev pub ◌>>=◌ {ℓ κ} : {A : Type ℓ} {B : Type κ} → Outcome A → (A → Outcome B) → Outcome B
done a >>= f = f a
throws >>= f = throws
fault >>= f = fault

abbrev pub ◌>>◌ {ℓ} : {B : Type ℓ} → Outcome (Unit {0}) → Outcome B → Outcome B
m >> k = m >>= λ _. k

-- CAFFEINE_ASSERT
abbrev pub check : Bool → Outcome (Unit {0})
check true = done tt
check false = fault

-- A read that the code does not test.
abbrev pub or_fault {ℓ} : {A : Type ℓ} → Option A → Outcome A
or_fault none = fault
or_fault (some a) = done a

-- A read that throws where there is nothing to read.
abbrev pub or_throw {ℓ} : {A : Type ℓ} → Option A → Outcome A
or_throw none = throws
or_throw (some a) = done a

pub done-injective {ℓ} : {A : Type ℓ} {a b : A} → done a ≡ done b → a ≡ b
done-injective {A} {a} p = ap value p
  where
    value : Outcome A → A
    value (done x) = x
    value throws = a
    value fault = a

pub Outcome-cases {ℓ} :
    {A : Type ℓ} (o : Outcome A) → ((a : A) × (o ≡ done a)) ⊎ (o ≡ throws) ⊎ (o ≡ fault)
Outcome-cases (done a) = inl (a, refl)
Outcome-cases throws = inr (inl refl)
Outcome-cases fault = inr (inr refl)

-- A chain that ends well has a first step that ended well.
pub >>=-eq-done {ℓ κ} :
    {A : Type ℓ} {B : Type κ} (m : Outcome A) (f : A → Outcome B) {b : B}
    → (m >>= f) ≡ done b
    → (a : A) × (m ≡ done a) × (f a ≡ done b)
>>=-eq-done (done a) f h = (a, refl, h)
>>=-eq-done throws f h = cc
>>=-eq-done fault f h = cc
