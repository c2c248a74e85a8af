-- ===== src/Pacman/Screen.antt =====
-- PacmanGame::renderGrid and PacmanGame::getState (game.cpp), and the game as the app interface
-- drives it.
use aimeath.Common.{
  ℕ, ◌*◌, ◌/◌, ◌<◌, ◌≤◌, ◌≡◌, refl, sym, subst, false, ◌&&◌, List, some, Outcome, ok, ◌>>=◌, arith,
  if◌then◌else◌, length-replicate,
}
use aimeath.Common.Int.{pos, ◌==ℤ◌}
use aimeath.Common.Json.{String, Value, int64, boolean, string, object, member, end}
use aimeath.Common.Ends.{Ends, Ends->>=, Ends-of, Ends-of_all, Ends-ok_all, Ends-map, Ends-if}
use aimeath.Game.Grid.{int_max, read-grid_index}
use aimeath.Game.Text.{rows_text, rows_text-Shown, Shown}
use aimeath.Game.Api.{GameClass, Boost, Ctx, create, process_all}
use aimeath.Game.Api.Sessions.{GameLaws, Held, AllAsk, process_all-Held}
use aimeath.Pacman.{Game, bean_total, has_bean, blank, new_board, new_game, generate_beans, tick}
use aimeath.Pacman.Eat.{IsValid}
use aimeath.Pacman.Loop.{generate_beans-Ends}
use aimeath.Pacman.Rules.{tick_total, new_board_fits, new_game-start}

-- The player, a bean, or nothing.
abbrev cell_at : Game → ℕ → ℕ → Outcome String
cell_at g x y =
    if pos x ==ℤ g.player_x && pos y ==ℤ g.player_y
    then ok "@"
    else (do bean ← has_bean g.board (pos x) (pos y); ok (if bean then "*" else " "))

pub render_grid : Game → Outcome String
unfolding rows_text has_bean
render_grid g = rows_text (cell_at g) g.board.width g.board.height 0

-- The value that `getState` writes out.
pub get_state : Game → Outcome Value
unfolding render_grid
get_state g = do
  grid ← render_grid g
  ok (
      object (
        member "type" (string "pacman") (
          member "w" (int64 (pos g.board.width)) (
            member "h" (int64 (pos g.board.height)) (
              member "grid" (string grid) (
                member "score" (int64 (pos g.score)) (member "over" (boolean g.game_over) end)))))))

cell_at-Shown :
    (g : Game)
    → IsValid g
    → (x y : ℕ) → x < g.board.width
    → y < g.board.height
    → Shown (cell_at g x y)
unfolding has_bean
cell_at-Shown g v x y hx hy =
    Ends-if ⊥ (λ _. Unit {0}) (pos x ==ℤ g.player_x && pos y ==ℤ g.player_y) _ _ tt
      (Ends->>= ⊥ (λ _. Unit {0}) (λ _. Unit {0}) (has_bean g.board (pos x) (pos y)) _
        (Ends-of ⊥ (λ _. Unit {0})
          (read-grid_index g.board.width g.board.height g.board.beans v.size y x hy hx false) tt)
        λ bean t. t)

get_state-Unit : (g : Game) → IsValid g → Ends Unit (λ _. Unit {0}) (get_state g)
unfolding get_state render_grid
get_state-Unit g v =
    Ends->>= Unit (λ _. Unit {0}) (λ _. Unit {0}) (render_grid g) _
      (Ends-of_all Unit (λ _. Unit {0}) (render_grid g)
        (rows_text-Shown (cell_at g) g.board.width g.board.height (cell_at-Shown g v)))
      λ grid t. t

module _ (rand : ℕ → ℕ) (fuel : ℕ) where
  new_game-Ends :
      (w h : ℕ)
      → 0 < w
      → 0 < h
      → w * h ≤ int_max
      → Ends Unit (λ _. Unit {0}) (new_game rand fuel w h)
  unfolding new_game
  new_game-Ends w h hw hh fits =
      Ends->>= Unit {B = Game} (λ b. b ≡ blank w h) (λ _. Unit {0}) (new_board w h) _
        (Ends-of Unit (λ b. b ≡ blank w h) (new_board_fits w h fits) refl)
        λ b e.
          Ends->>= Unit {B = Game} (λ _. Unit {0}) (λ _. Unit {0})
            (generate_beans rand (pos (w / 2)) (pos (h / 2)) fuel bean_total b) _
            (subst
              (λ b.
                Ends Unit (λ _. Unit {0})
                  (generate_beans rand (pos (w / 2)) (pos (h / 2)) fuel bean_total b))
              (sym e)
              (generate_beans-Ends rand fuel bean_total (w / 2) (h / 2) (blank w h)
                (length-replicate (w * h) false) (omega arith) (omega arith)))
            λ r t. t

  pub pacman : GameClass Game
  unfolding tick new_game get_state
  pacman = record { construct = new_game rand fuel; step = tick; state = get_state }

  -- The pacman game keeps what the interface asks of a game, if placing the beans may not return.
  pub pacman_laws : GameLaws pacman Unit
  unfolding pacman
  pacman_laws = record {
    Good = IsValid;
    Fits = λ w h. w * h ≤ int_max;
    construct-Good = λ w h hw hh fits.
        Ends-ok_all IsValid (new_game rand fuel w h) (new_game-Ends w h hw hh fits)
          λ g e. (new_game-start rand fuel w h hw hh g e).1;
    step-Good =
        λ value g v. let (g', e, v', same) = tick_total value g v in Ends-of Unit IsValid e v';
    state-Unit = get_state-Unit;
  }

  abbrev pub WellHeld : Ctx Game × List Value → Type 0
  WellHeld r = (g : Game) → r.0.game ≡ some g → IsValid g

  -- No sequence of requests to a new pacman window, with sides whose product is an `int`, meets undefined behaviour: each either is
  -- answered, and a game that the window then holds is well formed, or does not return.
  pub pacman_window :
      (boost : Boost) (msgs : List String)
      → AllAsk boost pacman Unit pacman_laws msgs
      → Ends Unit WellHeld (process_all boost pacman msgs create)
  unfolding create pacman_laws
  pacman_window boost msgs asks =
      Ends-map Unit (λ r. Held boost pacman Unit pacman_laws r.0.game) WellHeld
        (process_all boost pacman msgs create)
        (λ r held g has. subst (Held boost pacman Unit pacman_laws) has held)
        (process_all-Held boost pacman Unit pacman_laws msgs create asks tt)
