-- ===== src/Snake/Tests.antt =====
-- Runs of the snake game, and its theorems at concrete games.
use aimeath.Common.{ℕ, ◌≡◌, refl, true, false, [], ◌∷◌, arith, ok, unfinished}
use aimeath.Common.Int.{pos, negsuc, inc, dec}
use aimeath.Game.Direction.{up, down, right, to_direction, apply_dir}
use aimeath.Snake.{Position, Game, on_body, drop_last, new_game, set_direction, tick}
use aimeath.Snake.Invariant.{IsValid}
use aimeath.Snake.Rules.{tick-IsValid, tick-game_over, tick_full, tick_returns, tick_unnamed}
use aimeath.Snake.Start.{new_game-IsValid, new_game_stuck}

abbrev draws : ℕ → ℕ
draws k = 0

abbrev cell : ℕ → ℕ → Position
cell x y = record { x = pos x; y = pos y }

-- The snake of a new game on 10 by 10 cells, with its food at `f`.
abbrev started : Position → Game
started f = record {
  board = record { width = 10; height = 10; food = f };
  snake = record { body = cell 5 5 ∷ cell 4 5 ∷ cell 3 5 ∷ []; dir = right; next_dir = right };
  game_over = false;
  score = 0;
  drawn = 2;
}

new_started : new_game draws 1 10 10 ≡ ok (started (cell 0 0))
unfolding new_game
new_started = refl

new_game-IsValid_example : IsValid (started (cell 0 0))
new_game-IsValid_example =
    new_game-IsValid draws 1 10 10 (started (cell 0 0)) (omega arith) (omega arith) new_started

-- Up, to a free cell.
abbrev climbed : Game
climbed = record (started (cell 0 0)) {
  snake = record { body = cell 5 4 ∷ cell 5 5 ∷ cell 4 5 ∷ []; dir = up; next_dir = up };
}

climb : tick draws 1 (pos 0) (started (cell 0 0)) ≡ ok climbed
unfolding tick
climb = refl

tick-IsValid_example : IsValid climbed
tick-IsValid_example =
    tick-IsValid draws 1 (pos 0) (started (cell 0 0)) climbed new_game-IsValid_example climb

tick-game_over_example : climbed.game_over ≡ false
unfolding on_body set_direction to_direction apply_dir drop_last
tick-game_over_example =
    tick-game_over draws 1 (pos 0) (started (cell 0 0)) (cell 5 5) (cell 4 5 ∷ cell 3 5 ∷ [])
      new_game-IsValid_example refl refl climbed climb

-- The food is the cell in front of the head.
started-IsValid : IsValid (started (cell 6 5))
unfolding on_body inc
started-IsValid = record {
  sides = omega arith;
  grown = omega arith;
  food_inside = omega arith;
  food_free = refl;
  alive = new_game-IsValid_example.alive;
}

tick_returns_example : (g' : Game) × (tick draws 1 (pos 3) (started (cell 6 5)) ≡ ok g')
unfolding on_body set_direction to_direction apply_dir
tick_returns_example =
    tick_returns draws 1 (pos 3) (started (cell 6 5)) (cell 5 5) (cell 4 5 ∷ cell 3 5 ∷ [])
      started-IsValid refl refl 0 (omega arith) refl

eat :
    tick draws 1 (pos 3) (started (cell 6 5))
    ≡ ok (record {
      board = record { width = 10; height = 10; food = cell 0 0 };
      snake = record {
        body = cell 6 5 ∷ cell 5 5 ∷ cell 4 5 ∷ cell 3 5 ∷ [];
        dir = right;
        next_dir = right;
      };
      game_over = false;
      score = 10;
      drawn = 4;
    })
unfolding tick
eat = refl

-- Two by two cells, all but the food covered.
abbrev last_bite : Game
last_bite = record {
  board = record { width = 2; height = 2; food = cell 0 1 };
  snake = record { body = cell 0 0 ∷ cell 1 0 ∷ cell 1 1 ∷ []; dir = down; next_dir = down };
  game_over = false;
  score = 0;
  drawn = 0;
}

last_bite-IsValid : IsValid last_bite
unfolding on_body inc dec
last_bite-IsValid = record {
  sides = omega arith;
  grown = omega arith;
  food_inside = omega arith;
  food_free = refl;
  alive = λ _.
      ((refl, (refl, (refl, tt))), (ground arith, (ground arith, tt)), omega arith, omega arith);
}

tick_full_example : tick draws 1000 (pos 1) last_bite ≡ unfinished
unfolding on_body set_direction to_direction apply_dir
tick_full_example =
    tick_full draws 1000 (pos 1) last_bite (cell 0 0) (cell 1 0 ∷ cell 1 1 ∷ []) last_bite-IsValid
      refl refl refl (λ x y hx hy. ground arith)

tick_unnamed_example :
    (g' : Game) × (tick draws 1 (negsuc 0) (started (cell 0 0)) ≡ ok g') × (g'.game_over ≡ true)
unfolding to_direction
tick_unnamed_example =
    tick_unnamed draws 1 (negsuc 0) (started (cell 0 0)) (cell 5 5) (cell 4 5 ∷ cell 3 5 ∷ [])
      new_game-IsValid_example refl refl (λ n. n)

new_game_stuck_example : new_game draws 1000 2 1 ≡ unfinished
new_game_stuck_example = new_game_stuck draws 1000 2 (omega arith) (omega arith)
