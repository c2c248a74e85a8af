-- ===== src/Common/Faults.antt =====
-- The outcome of C++ code: a value, undefined behaviour, or no return within the fuel.
use mathlib.Core.Path.{◌≡◌, refl}

pub data Outcome {ℓ} (A : Type ℓ) : Type ℓ where
  undefined unfinished : Outcome A
  ok : A → Outcome A

-- The code goes on only after a value.
infixl 5 ◌>>=◌
abbrev pub ◌>>=◌ {ℓ κ} : {A : Type ℓ} {B : Type κ} → Outcome A → (A → Outcome B) → Outcome B
◌>>=◌ undefined next = undefined
◌>>=◌ unfinished next = unfinished
◌>>=◌ (ok value) next = next value

pub ok-injective {ℓ} : {A : Type ℓ} {a b : A} → ok a ≡ ok b → a ≡ b
ok-injective e = cc

pub unfinished≢ok {ℓ} : {A : Type ℓ} {a : A} → unfinished ≡ ok a → ⊥
unfinished≢ok e = cc

module _ {ℓ κ} {A : Type ℓ} {B : Type κ} where
  -- A sequence that gives a value has one after each of its two parts.
  pub >>=_parts :
      (first : Outcome A) (next : A → Outcome B) {result : B}
      → first >>= next ≡ ok result
      → (value : A) × (first ≡ ok value) × (next value ≡ ok result)
  >>=_parts (ok value) next h = (value, refl, h)
  >>=_parts undefined next h = cc
  >>=_parts unfinished next h = cc
