-- ===== src/Common/Ends.antt =====
-- How code may end: never with undefined behaviour, and without a value only if `F` allows that.
use mathlib.Core.Path.{◌≡◌, refl, sym, subst}
use mathlib.Core.Bool.{Bool, true, false}
use aimeath.Common.Tests.{if◌then◌else◌}
use aimeath.Common.Faults.{Outcome, ok, undefined, unfinished, ◌>>=◌}

abbrev pub Ends {ℓ} : {A : Type ℓ} → Type 0 → (A → Type 0) → Outcome A → Type 0
Ends F P undefined = ⊥
Ends F P unfinished = F
Ends F P (ok a) = P a

module _ (F : Type 0) where
  pub Ends->>= {ℓ κ} :
      {A : Type ℓ} {B : Type κ} (P : A → Type 0) (Q : B → Type 0) (m : Outcome A)
      (next : A → Outcome B)
      → Ends F P m
      → ((a : A) → P a → Ends F Q (next a))
      → Ends F Q (m >>= next)
  Ends->>= P Q undefined next h k = absurd h
  Ends->>= P Q unfinished next h k = h
  Ends->>= P Q (ok a) next h k = k a h

  pub Ends-if {ℓ} :
      {A : Type ℓ} (P : A → Type 0) (t : Bool) (x y : Outcome A)
      → Ends F P x
      → Ends F P y
      → Ends F P (if t then x else y)
  Ends-if P true x y hx hy = hx
  Ends-if P false x y hx hy = hy

  -- The branches may use the test.
  pub Ends-if_cases {ℓ} :
      {A : Type ℓ} (P : A → Type 0) (t : Bool) (x y : Outcome A)
      → (t ≡ true → Ends F P x)
      → (t ≡ false → Ends F P y)
      → Ends F P (if t then x else y)
  Ends-if_cases P true x y hx hy = hx refl
  Ends-if_cases P false x y hx hy = hy refl

-- Code that returns also ends where it may fail to.
pub Ends-of_all {ℓ} :
    {A : Type ℓ} (F : Type 0) (P : A → Type 0) (m : Outcome A) → Ends ⊥ P m → Ends F P m
Ends-of_all F P undefined h = absurd h
Ends-of_all F P unfinished h = absurd h
Ends-of_all F P (ok a) h = h

-- Code without undefined behaviour, of which each value has the property.
pub Ends-ok_all {ℓ} :
    {A : Type ℓ} (P : A → Type 0) (m : Outcome A)
    → Ends Unit (λ _. Unit {0}) m
    → ((a : A) → m ≡ ok a → P a)
    → Ends Unit P m
Ends-ok_all P undefined h k = absurd h
Ends-ok_all P unfinished h k = tt
Ends-ok_all P (ok a) h k = k a refl

pub Ends-map {ℓ} :
    {A : Type ℓ} (F : Type 0) (P Q : A → Type 0) (m : Outcome A)
    → ((a : A) → P a → Q a)
    → Ends F P m
    → Ends F Q m
Ends-map F P Q undefined k h = h
Ends-map F P Q unfinished k h = h
Ends-map F P Q (ok a) k h = k a h

-- Where `F` is empty, the code returns.
pub Ends-ok {ℓ} :
    {A : Type ℓ} (P : A → Type 0) (m : Outcome A) → Ends ⊥ P m → (a : A) × (m ≡ ok a) × P a
Ends-ok P undefined h = absurd h
Ends-ok P unfinished h = absurd h
Ends-ok P (ok a) h = (a, refl, h)

pub Ends-of {ℓ} :
    {A : Type ℓ} (F : Type 0) (P : A → Type 0) {m : Outcome A} {a : A} → m ≡ ok a → P a → Ends F P m
Ends-of F P e h = subst (Ends F P) (sym e) h
