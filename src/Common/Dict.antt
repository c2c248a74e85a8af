-- ===== src/Common/Dict.antt =====
-- `std::map` with text keys as an association list. The order of the entries is not modelled.
use mathlib.Core.Path.{◌≡◌}
use mathlib.Core.Bool.{false}
use mathlib.Core.Option.{Option, none, some}
use mathlib.Core.List.{List, [], ◌∷◌}
use native.Mathlib.Omega.{arith}
use aimeath.Common.Tests.{if◌then◌else◌}
use aimeath.Common.Json.{String, str_eq, eq_iff}

module _ {ℓ} {V : Type ℓ} where
  unfoldable pub find_key : String → List (String × V) → Option V
  find_key key [] = none
  find_key key ((k, v) ∷ rest) = if str_eq k key then some v else find_key key rest

  -- `m.erase(key)`.
  unfoldable pub erase : String → List (String × V) → List (String × V)
  erase key [] = []
  erase key ((k, v) ∷ rest) =
      let kept = erase key rest in if str_eq k key then kept else (k, v) ∷ kept

  -- `m[key] = value`.
  unfoldable pub assign : String → V → List (String × V) → List (String × V)
  unfolding erase
  assign key value m = (key, value) ∷ erase key m

  pub find_key-erase :
      (m : List (String × V)) (key j : String)
      → find_key j (erase key m) ≡ (if str_eq key j then none else find_key j m)
  unfolding find_key erase
  find_key-erase [] key j = ground arith
  find_key-erase ((k, v) ∷ rest) key j =
      ground (arith, eq_iff key j, eq_iff k key, eq_iff k j, find_key-erase rest key j)

  pub find_key-assign :
      (m : List (String × V)) (key j : String) (value : V)
      → find_key j (assign key value m) ≡ (if str_eq key j then some value else find_key j m)
  unfolding find_key assign
  find_key-assign m key j value = ground (arith, find_key-erase m key j)

  pub find_key-assign_self :
      (m : List (String × V)) (key : String) (value : V)
      → find_key key (assign key value m) ≡ some value
  find_key-assign_self m key value = ground (arith, find_key-assign m key key value, eq_iff key key)

  pub find_key-erase_self :
      (m : List (String × V)) (key : String) → find_key key (erase key m) ≡ none
  find_key-erase_self m key = ground (arith, find_key-erase m key key, eq_iff key key)

  pub find_key-assign_ne :
      (m : List (String × V)) (key j : String) (value : V)
      → str_eq key j ≡ false
      → find_key j (assign key value m) ≡ find_key j m
  find_key-assign_ne m key j value ne = ground (arith, find_key-assign m key j value)

  pub find_key-erase_ne :
      (m : List (String × V)) (key j : String)
      → str_eq key j ≡ false
      → find_key j (erase key m) ≡ find_key j m
  find_key-erase_ne m key j ne = ground (arith, find_key-erase m key j)
