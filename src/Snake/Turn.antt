-- ===== src/Snake/Turn.antt =====
-- Snake::setDirection (snake.cpp).
use aimeath.Common.{ℕ, ◌≡◌, refl, sym, ◌∙◌, ap, true, false, if◌then◌else◌, arith, ok}
use aimeath.Common.Int.{ℤ}
use aimeath.Game.Direction.{
  Direction, up, down, left, right, other, apply_dir, to_direction, is_opposite_dir,
}
use aimeath.Snake.{Position, Snake, Game, moved, set_direction, update, tick}
use aimeath.Snake.Body.{IsNamed}

pub set_direction-body : (d : Direction) (s : Snake) → (set_direction d s).body ≡ s.body
unfolding set_direction
set_direction-body d s = ground arith

pub is_opposite_dir_unnamed : (d : Direction) (n : ℤ) → is_opposite_dir d (other n) ≡ false
unfolding is_opposite_dir
is_opposite_dir_unnamed up n = refl
is_opposite_dir_unnamed _ n = refl

pub is_opposite_dir_self : (d : Direction) → is_opposite_dir d d ≡ false
unfolding is_opposite_dir
is_opposite_dir_self up = refl
is_opposite_dir_self _ = refl

pub set_direction_opposite :
    (d : Direction) (s : Snake) → is_opposite_dir s.dir d ≡ true → set_direction d s ≡ s
unfolding set_direction
set_direction_opposite d s e = rw e

pub set_direction_unnamed :
    (d : Direction) (s : Snake) (p : Position)
    → ¬ IsNamed d
    → moved (set_direction d s).next_dir p ≡ p
unfolding set_direction apply_dir
set_direction_unnamed (other n) s p u = rw is_opposite_dir_unnamed
set_direction_unnamed up s p u = absurd (u tt)
set_direction_unnamed down s p u = absurd (u tt)
set_direction_unnamed left s p u = absurd (u tt)
set_direction_unnamed right s p u = absurd (u tt)

set_direction_same : (s : Snake) → s.next_dir ≡ s.dir → set_direction s.dir s ≡ s
unfolding set_direction
set_direction_same s e = rw is_opposite_dir_self (λ i. record s { next_dir = sym e i })

-- If the snake has no turn pending, an action that is the opposite of its direction has the same
-- effect as the action of the direction itself.
pub tick_reverse :
    (rand : ℕ → ℕ) (fuel : ℕ) (back on : ℤ) (g : Game)
    → g.snake.next_dir ≡ g.snake.dir
    → to_direction on ≡ g.snake.dir
    → is_opposite_dir g.snake.dir (to_direction back) ≡ true
    → tick rand fuel back g ≡ tick rand fuel on g
unfolding tick
tick_reverse rand fuel back on g settled same opposite =
    let kept : set_direction (to_direction back) g.snake ≡ g.snake =
      set_direction_opposite (to_direction back) g.snake opposite in
    let on_kept : set_direction (to_direction on) g.snake ≡ g.snake =
      rw same (set_direction_same g.snake settled) in
    ap (λ s. if g.game_over then ok g else update rand fuel (record g { snake = s }))
      (kept ∙ sym on_kept)
