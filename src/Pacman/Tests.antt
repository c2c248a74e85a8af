-- ===== src/Pacman/Tests.antt =====
-- Runs of the pacman game, and its theorems at concrete games.
use aimeath.Common.{
  ℕ, zero, suc, ◌+◌, ◌*◌, ◌/◌, ◌%◌, ◌<◌, ◌≤◌, ◌≡◌, refl, true, false, [], ◌∷◌, ◌==◌, if◌then◌else◌,
  arith, ok,
}
use aimeath.Common.Int.{pos}
use aimeath.Game.Direction.{up, right, to_direction, apply_dir}
use aimeath.Pacman.{Board, Game, new_game, generate_beans, tick, play}
use aimeath.Pacman.Beans.{count_beans}
use aimeath.Pacman.Eat.{IsValid}
use aimeath.Pacman.Loop.{IsDrawn}
use aimeath.Pacman.Rules.{tick_total, tick_ends, play-score, worth}

-- Draws the cells of a board of two by two, row by row.
abbrev draws : ℕ → ℕ
draws k = if k % 2 == 0 then k / 2 else k / 4

draws_all : (x y : ℕ) → x < 2 → y < 2 → IsDrawn draws 2 2 4 0 x y
draws_all zero zero hx hy = (0, omega arith, refl, refl)
draws_all (suc zero) zero hx hy = (1, omega arith, refl, refl)
draws_all zero (suc zero) hx hy = (2, omega arith, refl, refl)
draws_all (suc zero) (suc zero) hx hy = (3, omega arith, refl, refl)
draws_all (suc (suc x)) y hx hy = absurd (omega arith)
draws_all zero (suc (suc y)) hx hy = absurd (omega arith)
draws_all (suc zero) (suc (suc y)) hx hy = absurd (omega arith)

abbrev empty_board : Board
empty_board = record {
  width = 2;
  height = 2;
  beans = false ∷ false ∷ false ∷ false ∷ [];
  bean_count = pos 0;
}

abbrev full_board : Board
full_board = record {
  width = 2;
  height = 2;
  beans = true ∷ true ∷ true ∷ false ∷ [];
  bean_count = pos 3;
}

filled : generate_beans draws (pos 1) (pos 1) 4 30 empty_board ≡ ok full_board
unfolding generate_beans
filled = refl

abbrev started : Game
started = record {
  board = full_board;
  player_x = pos 1;
  player_y = pos 1;
  dir = right;
  next_dir = right;
  score = 0;
  game_over = false;
}

new_started : new_game draws 4 2 2 ≡ ok started
unfolding new_game
new_started = refl

started-IsValid : IsValid started
started-IsValid = record { size = refl; counted = refl; inside = (omega arith, omega arith) }

tick_total_example :
    (g' : Game) × (tick (pos 0) started ≡ ok g') × IsValid g' × (worth g' ≡ worth started)
tick_total_example = tick_total (pos 0) started started-IsValid

abbrev climbed : Game
climbed = record started {
  board = record {
    width = 2;
    height = 2;
    beans = true ∷ false ∷ true ∷ false ∷ [];
    bean_count = pos 2;
  };
  player_y = pos 0;
  dir = up;
  next_dir = up;
  score = 10;
}

climb : tick (pos 0) started ≡ ok climbed
unfolding tick
climb = refl

tick_ends_example : climbed.game_over ≡ false
unfolding to_direction apply_dir
tick_ends_example = tick_ends (pos 0) started climbed started-IsValid refl climb

-- Up, left and down: all three beans.
play-score_example :
    (4 ≤ 2147483647)
    × ((g' : Game) × (play (pos 0 ∷ pos 2 ∷ pos 1 ∷ []) started ≡ ok g')
        × (g'.score + 10 * count_beans g'.board.beans ≡ 30))
play-score_example =
    play-score draws 4 2 2 (omega arith) (omega arith) (pos 0 ∷ pos 2 ∷ pos 1 ∷ []) started
      new_started
