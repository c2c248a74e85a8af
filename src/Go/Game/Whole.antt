-- ===== src/Go/Game/Whole.antt =====
-- Whole games of GoGame (game.cpp): the invariant, the ko rule, and the game in a window.
use aimeath.Common.{
  ℕ, zero, suc, ◌≡◌, ◌≢◌, refl, subst, false, List, [], ◌∷◌, some, ok, replicate, length-replicate,
  get_or-replicate, arith, if◌then◌else◌,
}
use mathlib.Core.Bool.{false≢true}
use aimeath.Common.Int.{ℤ, pos}
use aimeath.Common.Json.{String, Value}
use aimeath.Common.Ends.{Ends, Ends->>=, Ends-of, Ends-ok, Ends-if_cases}
use aimeath.Game.Api.{Boost, Ctx, create, process_all}
use aimeath.Game.Api.Sessions.{GameLaws, Held, AllAsk-any, process_all-Held}
use aimeath.Go.{Stone, empty, black, white, Board, cells, new_board}
use aimeath.Go.Remove.{stones}
use aimeath.Go.Score.{is_marked_dead, count_score, render_grid}
use aimeath.Go.Score.Loops.{each_cell-Ends}
use aimeath.Go.Score.Marks.{IsSized, is_marked_dead_returns, render_grid-Shown}
use aimeath.Go.Score.Territory.{count_score_bound}
use aimeath.Go.Game.{Game, new_game, tick, play, score, mask_cell, dead_mask, get_state, go}
use aimeath.Go.Game.Moves.{IsSound}
use aimeath.Go.Game.Invariant.{tick-Ends}

stones-replicate : (n : ℕ) → stones (replicate n empty) ≡ 0
stones-replicate zero = refl
stones-replicate (suc n) = stones-replicate n

pub new_game-IsSound : IsSound new_game
unfolding new_game new_board
new_game-IsSound = record {
  sized = record {
    bordered = record {
      size = length-replicate cells empty;
      border = λ i _. get_or-replicate cells i empty;
    };
    dead = length-replicate cells false;
  };
  turn = λ e. cc;
  distinct = tt;
  marked_over = λ e. absurd (false≢true e);
  live = λ _. record {
    alive = λ i held. absurd (held (get_or-replicate cells i empty));
    counted = omega (arith, stones-replicate cells);
    passes = omega arith;
  };
}

play-IsSound : (actions : List ℤ) (g : Game) → IsSound g → Ends ⊥ IsSound (play actions g)
unfolding play
play-IsSound [] g sound = sound
play-IsSound (action ∷ later) g sound =
    Ends->>= ⊥ IsSound IsSound (tick action g) _ (tick-Ends g sound action) (play-IsSound later)

-- Any sequence of actions from a new game is played to the end, without a fault and without running
-- out of fuel. The border stays empty and the hashes of the positions after the moves are all
-- different. While the game goes on every group has a liberty, and each move has left a stone that is
-- on the board or among those captured.
pub play-new_game_sound :
    (actions : List ℤ) → (g : Game) × (play actions new_game ≡ ok g) × IsSound g
play-new_game_sound actions =
    Ends-ok IsSound (play actions new_game) (play-IsSound actions new_game new_game-IsSound)

score_returns : (g : Game) → IsSound g → Ends ⊥ (λ _. Unit {0}) (score g)
unfolding score
score_returns g sound =
    let counts = λ (s : Stone) (ne : s ≢ empty).
      let (n, e, _, _) = count_score_bound g.board s sound.sized.bordered ne in
      Ends-of ⊥ (λ _. Unit {0}) e tt in
    Ends->>= ⊥ (λ _. Unit {0}) (λ _. Unit {0}) (count_score g.board black) _
      (counts black (λ e. cc))
      λ b _.
        Ends->>= ⊥ (λ _. Unit {0}) (λ _. Unit {0}) (count_score g.board white) _
          (counts white (λ e. cc)) λ w t. t

dead_mask_returns : (b : Board) → IsSized b → Ends ⊥ (λ _. Unit {0}) (dead_mask b)
unfolding dead_mask
dead_mask_returns b sized =
    each_cell-Ends ⊥ (λ _. Unit {0}) (mask_cell b) ""
      (λ r c out hr hc _.
        Ends->>= ⊥ (λ _. Unit {0}) (λ _. Unit {0}) (is_marked_dead (pos r) (pos c) b) _
          (is_marked_dead_returns b sized r c hr hc) λ mark t. t)
      tt

get_state-Unit : (g : Game) → IsSound g → Ends ⊥ (λ _. Unit {0}) (get_state g)
unfolding get_state
get_state-Unit g sound =
    Ends->>= ⊥ (λ _. Unit {0}) (λ _. Unit {0}) (render_grid g.board) _
      (render_grid-Shown g.board sound.sized)
      λ grid _.
        Ends->>= ⊥ (λ _. Unit {0}) (λ _. Unit {0}) (if g.marking then ok 0 else score g) _
          (Ends-if_cases ⊥ (λ _. Unit {0}) g.marking _ _ (λ _. tt) (λ _. score_returns g sound))
          λ n _.
            Ends->>= ⊥ (λ _. Unit {0}) (λ _. Unit {0}) (dead_mask g.board) _
              (dead_mask_returns g.board sound.sized) λ mask t. t

-- Go keeps what the interface asks of a game.
pub go_laws : GameLaws go ⊥
unfolding go
go_laws = record {
  Good = IsSound;
  Fits = λ w h. Unit {0};
  construct-Good = λ w h hw hh fits. new_game-IsSound;
  step-Good = λ value g sound. tick-Ends g sound value;
  state-Unit = get_state-Unit;
}

-- Any sequence of requests to a new go window is answered, without a fault and without running out
-- of fuel, and a game that it then holds satisfies the rules of `IsSound`.
pub go_window :
    (boost : Boost) (msgs : List String)
    → (r : Ctx Game × List Value) × (process_all boost go msgs create ≡ ok r)
      × ((g : Game) → r.0.game ≡ some g → IsSound g)
unfolding create go_laws
go_window boost msgs =
    let (r, e, held) =
      Ends-ok (λ r. Held boost go ⊥ go_laws r.0.game) (process_all boost go msgs create)
        (process_all-Held boost go ⊥ go_laws msgs create
          (AllAsk-any boost go ⊥ go_laws (λ w h. tt) msgs) tt) in
    (r, e, λ g has. subst (Held boost go ⊥ go_laws) has held)
