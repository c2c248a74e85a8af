-- ===== src/Game/Direction.antt =====
-- desktop/app/shared/game/include/direction.hpp: the direction of a grid game.
use aimeath.Common.{zero, suc, Bool, true, false}
use aimeath.Common.Int.{ℤ, pos, inc, dec}

-- `enum class Direction`. The games make one from any `int` by `static_cast`; `other` is a value
-- that no enumerator names.
pub data Direction : Type 0 where
  up down left right : Direction
  other : ℤ → Direction

unfoldable pub to_direction : ℤ → Direction
to_direction (pos zero) = up
to_direction (pos (suc zero)) = down
to_direction (pos (suc (suc zero))) = left
to_direction (pos (suc (suc (suc zero)))) = right
to_direction n = other n

unfoldable pub is_opposite_dir : Direction → Direction → Bool
is_opposite_dir up down = true
is_opposite_dir down up = true
is_opposite_dir left right = true
is_opposite_dir right left = true
is_opposite_dir _ _ = false

unfoldable pub apply_dir : Direction → ℤ → ℤ → ℤ × ℤ
unfolding inc dec
apply_dir up x y = (x, dec y)
apply_dir down x y = (x, inc y)
apply_dir left x y = (dec x, y)
apply_dir right x y = (inc x, y)
apply_dir (other _) x y = (x, y)
