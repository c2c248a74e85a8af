-- ===== src/Gomoku/Screen.antt =====
-- GomokuGame::renderGrid and GomokuGame::getState (game.cpp), and the game as the app interface
-- drives it.
use aimeath.Common.{ℕ, ◌*◌, ◌≤◌, ◌<◌, ◌≡◌, subst, List, some, Outcome, ok, ◌>>=◌, arith}
use aimeath.Common.Int.{pos, Below→within}
use aimeath.Common.Json.{String, Value, int64, boolean, string, object, member, end}
use aimeath.Common.Ends.{Ends, Ends->>=, Ends-of, Ends-ok}
use aimeath.Game.Grid.{int_max}
use aimeath.Game.Text.{rows_text, rows_text-Shown, Shown}
use aimeath.Game.Api.{GameClass, Boost, Ctx, create, process_all, get_int, side_or_default}
use aimeath.Game.Api.Sessions.{GameLaws, Held, Asks, AllAsk, process_all-Held}
use aimeath.Gomoku.Line.{IsSized, at_inside}
use aimeath.Gomoku.Fair.{IsFair}
use aimeath.Gomoku.Rules.{tick-IsFair}
use aimeath.Gomoku.Whole.{new_game-IsFair}
use aimeath.Gomoku.{
  Cell, empty, black, white, Board, at, Game, new_game, tick, score, current_player,
}

abbrev cell_text : Cell → String
cell_text empty = "."
cell_text black = "B"
cell_text white = "W"

-- `out += (cell == EMPTY) ? '.' : (cell == BLACK) ? 'B' : 'W'`.
abbrev cell_at : Board → ℕ → ℕ → Outcome String
cell_at b c r = do cell ← at b (pos r) (pos c); ok (cell_text cell)

pub render_grid : Board → Outcome String
unfolding rows_text at
render_grid b = rows_text (cell_at b) b.size b.size 0

-- The value that `getState` writes out.
pub get_state : Game → Outcome Value
unfolding render_grid current_player score
get_state g = do
  grid ← render_grid g.board
  ok (
      object (
        member "type" (string "gomoku") (
          member "s" (int64 (pos g.board.size)) (
            member "grid" (string grid) (
              member "cur" (int64 (pos (current_player g))) (
                member "score" (int64 (pos (score g))) (
                  member "over" (boolean g.over)
                    (member "winner" (int64 (pos (score g))) end))))))))

-- GAME_CONSTRUCT ignores the height.
pub gomoku : GameClass Game
unfolding tick new_game get_state
gomoku = record { construct = λ w h. new_game w; step = tick; state = get_state }

cell_at-Shown :
    (b : Board) → IsSized b → (x y : ℕ) → x < b.size → y < b.size → Shown (cell_at b x y)
cell_at-Shown b size x y hx hy =
    let (a, e) =
      at_inside b (pos y) (pos x) size
        (ground (arith, Below→within (pos y) b.size, Below→within (pos x) b.size)) in
    Ends->>= ⊥ (λ _. Unit {0}) (λ _. Unit {0}) (at b (pos y) (pos x)) _
      (Ends-of ⊥ (λ _. Unit {0}) e tt) λ cell t. t

get_state-Unit : (g : Game) → IsFair g → Ends ⊥ (λ _. Unit {0}) (get_state g)
unfolding get_state render_grid
get_state-Unit g fair =
    Ends->>= ⊥ (λ _. Unit {0}) (λ _. Unit {0}) (render_grid g.board) _
      (rows_text-Shown (cell_at g.board) g.board.size g.board.size
        (cell_at-Shown g.board fair.sized))
      λ grid h. h

-- Gomoku keeps what the interface asks of a game.
pub gomoku_laws : GameLaws gomoku ⊥
unfolding gomoku
gomoku_laws = record {
  Good = IsFair;
  Fits = λ w h. w * w ≤ int_max;
  construct-Good = λ w h hw hh fits. new_game-IsFair w hw fits;
  step-Good =
      λ value g fair. let (g', e, fair') = tick-IsFair value g fair in Ends-of ⊥ IsFair e fair';
  state-Unit = get_state-Unit;
}

-- The game takes the sides of a message if an `int` can count the cells.
pub Asks-int_max :
    (boost : Boost) (msg : String)
    → side_or_default (get_int boost msg "width") * side_or_default (get_int boost msg "width")
      ≤ int_max
    → Asks boost gomoku ⊥ gomoku_laws msg
unfolding gomoku_laws
Asks-int_max boost msg fits = fits

-- Any sequence of requests to a new gomoku window, with sides whose square is an `int`, is answered, without a fault and without
-- running out of fuel, and a game that it then holds is fair.
pub gomoku_window :
    (boost : Boost) (msgs : List String)
    → AllAsk boost gomoku ⊥ gomoku_laws msgs
    → (r : Ctx Game × List Value) × (process_all boost gomoku msgs create ≡ ok r)
      × ((g : Game) → r.0.game ≡ some g → IsFair g)
unfolding create gomoku_laws
gomoku_window boost msgs asks =
    let (r, e, held) =
      Ends-ok (λ r. Held boost gomoku ⊥ gomoku_laws r.0.game) (process_all boost gomoku msgs create)
        (process_all-Held boost gomoku ⊥ gomoku_laws msgs create asks tt) in
    (r, e, λ g has. subst (Held boost gomoku ⊥ gomoku_laws) has held)
