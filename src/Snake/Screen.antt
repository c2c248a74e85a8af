-- ===== src/Snake/Screen.antt =====
-- SnakeGame::renderGrid and SnakeGame::getState (game.cpp), and the game as the app interface drives
-- it.
use aimeath.Common.{
  ℕ, zero, suc, ◌+◌, ◌/◌, ◌<◌, ◌≡◌, sym, subst, List, [], ◌∷◌, some, Outcome, ok, undefined, ◌>>=◌,
  arith, if◌then◌else◌, Bool-cases, inl, inr, length,
}
use aimeath.Common.Int.{ℤ, pos}
use aimeath.Common.Json.{String, Value, int64, boolean, string, object, member, end}
use aimeath.Common.Ends.{Ends, Ends->>=, Ends-of, Ends-of_all, Ends-ok_all, Ends-map, Ends-if_cases}
use aimeath.Game.Direction.{to_direction}
use aimeath.Game.Text.{rows_text, rows_text-Shown, Shown}
use aimeath.Game.Api.{GameClass, Boost, Ctx, create, process_all}
use aimeath.Game.Api.Sessions.{GameLaws, Held, AllAsk-any, process_all-Held}
use aimeath.Snake.{
  Position, position_eq, Snake, Board, Game, new_game, new_snake, tick, has_body_at, is_food_at,
  food_loop, generate_food, draw, update, on_body,
}
use aimeath.Snake.Invariant.{IsValid, turned, longer, new_head, update_eats, update_moves}
use aimeath.Snake.Rules.{tick-IsValid, tick_live, tick_over, has_head, turn-body}
use aimeath.Snake.Start.{new_game-IsValid, first_board}

-- The cell of the head, of the body, of the food, or none; `front` of an empty body is undefined.
abbrev text_of : Board → Snake → List Position → Position → Outcome String
text_of b s [] p = undefined
text_of b s (h ∷ t) p = ok (
    if position_eq p h
    then "O"
    else (if has_body_at s p then "#" else (if is_food_at b p then "$" else " ")))

abbrev cell_at : Game → ℕ → ℕ → Outcome String
cell_at g x y = text_of g.board g.snake g.snake.body (record { x = pos x; y = pos y })

pub render_grid : Game → Outcome String
unfolding rows_text on_body
render_grid g = rows_text (cell_at g) g.board.width g.board.height 0

-- The value that `getState` writes out.
pub get_state : Game → Outcome Value
unfolding render_grid
get_state g = do
  grid ← render_grid g
  ok (
      object (
        member "type" (string "snake") (
          member "w" (int64 (pos g.board.width)) (
            member "h" (int64 (pos g.board.height)) (
              member "grid" (string grid) (
                member "score" (int64 (pos g.score)) (member "over" (boolean g.game_over) end)))))))

cell_at-Shown : (g : Game) → 0 < length g.snake.body → (x y : ℕ) → Shown (cell_at g x y)
cell_at-Shown g some_body x y = go g.snake.body some_body
  where
    p : Position
    p = record { x = pos x; y = pos y }

    go : (body : List Position) → 0 < length body → Shown (text_of g.board g.snake body p)
    go [] lt = absurd (omega arith)
    go (h ∷ t) lt = tt

get_state-Unit : (g : Game) → IsValid g → Ends Unit (λ _. Unit {0}) (get_state g)
unfolding get_state render_grid
get_state-Unit g v =
    Ends->>= Unit (λ _. Unit {0}) (λ _. Unit {0}) (render_grid g) _
      (Ends-of_all Unit (λ _. Unit {0}) (render_grid g)
        (rows_text-Shown (cell_at g) g.board.width g.board.height
          λ x y hx hy. cell_at-Shown g (omega (arith, v.grown)) x y))
      λ grid t. t

module _ (rand : ℕ → ℕ) (fuel : ℕ) where
  food_loop-Ends :
      (s : Snake) (b : Board) (n k : ℕ) → Ends Unit (λ _. Unit {0}) (food_loop rand n s b k)
  unfolding food_loop
  food_loop-Ends s b zero k = tt
  food_loop-Ends s b (suc n) k =
      Ends-if_cases Unit (λ _. Unit {0}) (has_body_at s (draw rand b k)) _ _
        (λ _. food_loop-Ends s b n (k + 2)) λ _. tt

  -- With sides of at least one cell, placing food does not divide by 0.
  generate_food-Ends :
      (s : Snake) (b : Board) (k : ℕ)
      → 0 < b.width
      → 0 < b.height
      → Ends Unit (λ _. Unit {0}) (generate_food rand fuel s b k)
  unfolding generate_food
  generate_food-Ends s b k hw hh = ground (arith, food_loop-Ends s b fuel k)

  new_game-Ends : (w h : ℕ) → 0 < w → 0 < h → Ends Unit (λ _. Unit {0}) (new_game rand fuel w h)
  unfolding new_game
  new_game-Ends w h hw hh =
      let s = new_snake (pos (w / 2)) (pos (h / 2)) in
      Ends->>= Unit {B = Game} (λ _. Unit {0}) (λ _. Unit {0})
        (generate_food rand fuel s (first_board w h) 0) _
        (generate_food-Ends s (first_board w h) 0 hw hh) λ r t. t

  -- A turned snake that is alive moves without a fault.
  update-Ends :
      (g : Game) (h : Position) (t : List Position)
      → g.snake.body ≡ h ∷ t
      → 0 < g.board.width
      → 0 < g.board.height
      → Ends Unit (λ _. Unit {0}) (update rand fuel g)
  update-Ends g h t body hw hh = elim (Bool-cases (is_food_at g.board (new_head g h))) [
    | inl eats ↦ subst (Ends Unit (λ _. Unit {0})) (sym (update_eats g h t rand fuel body eats)) (
        Ends->>= Unit (λ _. Unit {0}) (λ _. Unit {0})
          (generate_food rand fuel (longer g h t) g.board g.drawn) _
          (generate_food-Ends (longer g h t) g.board g.drawn hw hh) λ r t. t)
    | inr moves ↦ Ends-of Unit (λ _. Unit {0}) (update_moves g h t rand fuel body moves) tt
  ]

  tick-Ends :
      (action : ℤ) (g : Game) → IsValid g → Ends Unit (λ _. Unit {0}) (tick rand fuel action g)
  tick-Ends action g v = elim (Bool-cases g.game_over) [
    | inl over ↦ Ends-of Unit (λ _. Unit {0}) (tick_over rand fuel action g over) tt
    | inr live ↦
        let (h, t, body) = has_head rand fuel action g g.snake.body (v.alive live) in
        subst (Ends Unit (λ _. Unit {0})) (sym (tick_live rand fuel action g live)) (
          update-Ends (turned (to_direction action) g) h t (turn-body rand fuel action g body)
            v.sides.0 v.sides.1)
  ]

  pub snake : GameClass Game
  unfolding tick new_game get_state
  snake = record { construct = new_game rand fuel; step = tick rand fuel; state = get_state }

  -- The snake game keeps what the interface asks of a game, if placing food may not return.
  snake_laws : GameLaws snake Unit
  unfolding snake
  snake_laws = record {
    Good = IsValid;
    Fits = λ w h. Unit {0};
    construct-Good = λ w h hw hh fits.
        Ends-ok_all IsValid (new_game rand fuel w h) (new_game-Ends w h hw hh)
          λ g e. new_game-IsValid rand fuel w h g hw hh e;
    step-Good = λ value g v.
        Ends-ok_all IsValid (tick rand fuel value g) (tick-Ends value g v)
          λ g' e. tick-IsValid rand fuel value g g' v e;
    state-Unit = get_state-Unit;
  }

  abbrev pub WellHeld : Ctx Game × List Value → Type 0
  WellHeld r = (g : Game) → r.0.game ≡ some g → IsValid g

  -- No sequence of requests to a new snake window meets undefined behaviour: each either is
  -- answered, and a game that the window then holds is well formed, or does not return.
  pub snake_window :
      (boost : Boost) (msgs : List String)
      → Ends Unit WellHeld (process_all boost snake msgs create)
  unfolding create snake_laws
  snake_window boost msgs =
      Ends-map Unit (λ r. Held boost snake Unit snake_laws r.0.game) WellHeld
        (process_all boost snake msgs create)
        (λ r held g has. subst (Held boost snake Unit snake_laws) has held)
        (process_all-Held boost snake Unit snake_laws msgs create
          (AllAsk-any boost snake Unit snake_laws (λ w h. tt) msgs) tt)
