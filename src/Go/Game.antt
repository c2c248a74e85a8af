-- ===== src/Go/Game.antt =====
-- GoGame (game.hpp and game.cpp): moves, passes, the marking of dead stones, and the state as JSON.
-- The komi of 3.75 never changes.
pub mod Moves
pub mod Invariant
pub mod Whole
use package.aimeath.Common.{
  ℕ, zero, suc, ◌+◌, ◌*◌, Bool, true, false, not, ◌&&◌, List, [], ◌∷◌, ◌++◌, ltb, leb, ◌==◌,
  if◌then◌else◌, Outcome, ok, ◌>>=◌,
}
use package.aimeath.Common.Int.{ℤ, pos, negsuc, ◌==ℤ◌, ◌/ℤ◌, ◌%ℤ◌}
use package.aimeath.Common.Json.{String, Value, int64, boolean, double, string, object, member, end}
use package.aimeath.Game.Api.{GameClass}
use Prim.Native.String.{◌++◌ as append}
use package.aimeath.Go.{
  Stone, black, white, stone_eq, opponent, Board, size, new_board, on_board, place,
}
use aimeath.Go.Simulate.{is_legal}
use package.aimeath.Go.Score.{
  each_cell, hash, mark_dead, remove_dead_stones, clear_dead_marks, is_marked_dead, count_score,
  render_grid,
}

pub record Game : Type 0 where
  pub board : Board
  pub turn : Stone
  pub passes : ℕ
  pub over : Bool
  pub marking : Bool
  pub cap_black : ℕ
  pub cap_white : ℕ
  pub history : List ℕ
  pub resigned : Bool

unfoldable pub new_game : Game
unfolding new_board
new_game = record {
  board = new_board;
  turn = black;
  passes = 0;
  over = false;
  marking = false;
  cap_black = 0;
  cap_white = 0;
  history = [];
  resigned = false;
}

abbrev pub pass : ℤ
pass = negsuc 0

abbrev pub resign : ℤ
resign = negsuc 1

abbrev pub clear_dead : ℤ
clear_dead = negsuc 2

abbrev pub confirm_dead : ℤ
confirm_dead = negsuc 3

-- `tick` in the marking phase.
pub tick_marking : ℤ → Game → Outcome Game
unfolding clear_dead_marks remove_dead_stones mark_dead ◌/ℤ◌ ◌%ℤ◌
tick_marking action g =
    if action ==ℤ clear_dead
    then ok (record g { board = clear_dead_marks g.board })
    else (if action ==ℤ confirm_dead
        then (do (b, _) ← remove_dead_stones g.board; ok (record g { board = b; marking = false }))
        else (do
          (_, b) ← mark_dead (action /ℤ size) (action %ℤ size) g.board
          ok (record g { board = b })))

abbrev pub contains : ℕ → List ℕ → Bool
contains h [] = false
contains h (k ∷ ks) = if k == h then true else contains h ks

-- The part of `tick` after the tests: the move is made and remembered.
pub commit : ℤ → ℤ → ℕ → Game → Outcome Game
unfolding place hash
commit row col captured g = do
  (_, b, taken) ← place row col g.turn captured g.board
  h ← hash b
  ok (record g {
    board = b;
    cap_black = if stone_eq g.turn black then g.cap_black + taken else g.cap_black;
    cap_white = if stone_eq g.turn black then g.cap_white else g.cap_white + taken;
    history = g.history ++ h ∷ [];
    passes = 0;
    turn = opponent g.turn;
  })

-- The part of `tick` that tries the move on a copy of the board.
pub try_move : ℤ → ℤ → Game → Outcome Game
unfolding place hash commit
try_move row col g = do
  (placed, copy, captured) ← place row col g.turn 0 g.board
  (if not placed
      then ok g
      else (do h ← hash copy; (if contains h g.history then ok g else commit row col captured g)))

-- `tick` in the playing phase, with a row and a column.
pub tick_stone : ℤ → ℤ → Game → Outcome Game
unfolding is_legal try_move
tick_stone row col g = if not (on_board row col) then ok g else (do
  legal ← is_legal row col g.turn g.board
  (if not legal then ok g else try_move row col g))

abbrev pub tick_pass : Game → Game
tick_pass g =
    if leb 2 (g.passes + 1)
    then record g { passes = g.passes + 1; over = true; marking = true }
    else record g { passes = g.passes + 1; turn = opponent g.turn }

pub tick : ℤ → Game → Outcome Game
unfolding tick_marking tick_stone ◌/ℤ◌ ◌%ℤ◌
tick action g =
    if g.marking
    then tick_marking action g
    else (if g.over
        then ok g
        else (if action ==ℤ resign
            then ok (record g { over = true; resigned = true })
            else (if action ==ℤ pass
                then ok (tick_pass g)
                else tick_stone (action /ℤ size) (action %ℤ size) g)))

pub play : List ℤ → Game → Outcome Game
unfolding tick
play [] g = ok g
play (action ∷ later) g = tick action g >>= play later

-- `result` is the difference of the scores less 7.5: its sign is that of twice the difference less 15.
pub score : Game → Outcome ℕ
unfolding count_score
score g = do
  b ← count_score g.board black
  w ← count_score g.board white
  ok (if ltb (2 * w + 15) (2 * b) then 1 else (if ltb (2 * b) (2 * w + 15) then 2 else 0))

abbrev pub mask_cell : Board → ℕ → ℕ → String → Outcome String
mask_cell b r c out = do
  mark ← is_marked_dead (pos r) (pos c) b
  ok (append out (if mark then "1" else "0"))

pub dead_mask : Board → Outcome String
unfolding is_marked_dead
dead_mask b = each_cell (mask_cell b) ""

-- The bits of 3.75.
abbrev komi : ℕ
komi = 4615626668101337088

pub get_state : Game → Outcome Value
unfolding render_grid score dead_mask
get_state g = do
  grid ← render_grid g.board
  n ← (if g.marking then ok 0 else score g)
  mask ← dead_mask g.board
  ok (
      object (
        member "type" (string "go") (
          member "s" (int64 (pos size)) (
            member "grid" (string grid) (
              member "turn" (string (if stone_eq g.turn black then "B" else "W")) (
                member "over" (boolean g.over) (
                  member "marking" (boolean g.marking) (
                    member "score" (int64 (pos n)) (
                      member "passes" (int64 (pos g.passes)) (
                        member "capsB" (int64 (pos g.cap_black)) (
                          member "capsW" (int64 (pos g.cap_white)) (
                            member "komi" (double komi)
                              (member "deadMask" (string mask) end)))))))))))))

-- GAME_CONSTRUCT passes the width to a constructor that ignores it.
pub go : GameClass Game
unfolding tick new_game get_state
go = record { construct = λ w h. ok new_game; step = tick; state = get_state }
