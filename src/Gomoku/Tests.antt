-- ===== src/Gomoku/Tests.antt =====
-- Runs of the gomoku game, and its theorems at concrete games.
use aimeath.Common.{
  ◌≡◌, ◌↔◌, refl, Bool, true, false, [], ◌∷◌, List, ◌++◌, arith, ok, ◌>>=◌, replicate,
}
use mathlib.Core.Bool.{false≢true}
use aimeath.Common.Int.{ℤ, pos, ◌/ℤ◌, ◌%ℤ◌}
use aimeath.Gomoku.{empty, black, white, Board, Game, new_game, tick, play, at, check_win, dirs}
use aimeath.Common.Ends.{Ends}
use aimeath.Game.Api.{create, process, get_int}
use aimeath.Game.Api.Sessions.{Answered, process-Held}
use aimeath.Game.Api.Tests.{sample_boost}
use aimeath.Gomoku.Screen.{gomoku, gomoku_laws, Asks-int_max}
use aimeath.Gomoku.Five.{FiveAlong, check_win-five}
use aimeath.Gomoku.Fair.{IsFair, played, result}
use aimeath.Gomoku.Rules.{tick-stone, CanPlay, row_of, col_of}
use aimeath.Gomoku.Whole.{play-new_game}

-- Black fills the first row of a board of five by five, white the second.
abbrev race : List ℤ
race = pos 0 ∷ pos 5 ∷ pos 1 ∷ pos 6 ∷ pos 2 ∷ pos 7 ∷ pos 3 ∷ pos 8 ∷ pos 4 ∷ pos 9 ∷ []

abbrev five_blacks : Board
five_blacks = record {
  size = 5;
  cells = replicate 5 black ++ (replicate 4 white ++ replicate 16 empty);
}

race_won :
    new_game 5 >>= play race
    ≡ ok (record { board = five_blacks; cur = black; over = true; winner = black })
unfolding play new_game
race_won = refl

-- Two stones on a board of two by two.
abbrev two_stones : Game
two_stones = record {
  board = record { size = 2; cells = black ∷ white ∷ empty ∷ empty ∷ [] };
  cur = black;
  over = false;
  winner = empty;
}

two_stones-IsFair : IsFair two_stones
two_stones-IsFair = record {
  side = omega arith;
  sized = refl;
  stone = refl;
  turns = refl;
  live = λ _. refl;
  ended = λ o. absurd (false≢true o);
}

CanPlay-third : CanPlay (pos 2) two_stones
unfolding at ◌/ℤ◌ ◌%ℤ◌
CanPlay-third = (refl, refl, refl)

not_CanPlay : ¬ CanPlay (pos 1) two_stones
unfolding at ◌/ℤ◌ ◌%ℤ◌
not_CanPlay (live, h, e) = cc

tick-stone_example :
    (won : Bool) × (tick (pos 2) two_stones
      ≡ ok (result won (played (row_of (pos 2) two_stones) (col_of (pos 2) two_stones) two_stones)))
    × ((won ≡ true)
        ↔ FiveAlong
            (played (row_of (pos 2) two_stones) (col_of (pos 2) two_stones) two_stones).board
            (row_of (pos 2) two_stones)
            (col_of (pos 2) two_stones)
            black
            dirs)
tick-stone_example = tick-stone (pos 2) two_stones two_stones-IsFair CanPlay-third

abbrev three_stones : Game
three_stones = record two_stones {
  board = record { size = 2; cells = black ∷ white ∷ black ∷ empty ∷ [] };
  cur = white;
}

third : tick (pos 2) two_stones ≡ ok three_stones
unfolding tick
third = refl

play-new_game_example : (g : Game) × (new_game 5 >>= play race ≡ ok g) × IsFair g
play-new_game_example = play-new_game race 5 (omega arith) (omega arith)

check_win-five_example :
    (won : Bool) × (check_win five_blacks (pos 0) (pos 2) ≡ ok won)
    × ((won ≡ true) ↔ FiveAlong five_blacks (pos 0) (pos 2) black dirs)
unfolding at
check_win-five_example = check_win-five five_blacks (pos 0) (pos 2) black refl refl

process-Held_example :
    Ends ⊥
      (Answered sample_boost gomoku ⊥ gomoku_laws create)
      (process sample_boost gomoku "start" create)
unfolding create get_int
process-Held_example =
    process-Held sample_boost gomoku ⊥ gomoku_laws "start" create
      (Asks-int_max sample_boost "start" (omega arith)) tt
