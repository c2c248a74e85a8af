-- ===== src/Snake/Invariant.antt =====
-- The well-formedness of a snake game, and SnakeGame::update (game.cpp).
use aimeath.Common.{
  ℕ, ◌+◌, ◌*◌, ◌<◌, ◌≡◌, ap, sym, ◌∙◌, true, false, arith, ok, inl, inr, Bool-cases, List, [], ◌∷◌,
  length, ◌>>=◌, >>=_parts, ok-injective, subst, Bool,
}
use mathlib.Core.Bool.{false≢true}
use aimeath.Common.Int.{Below, within→Below}
use aimeath.Game.Direction.{Direction}
use aimeath.Snake.{
  Position, Snake, Board, Game, moved, on_body, drop_last, update, set_direction, generate_food,
  is_food_at, judge,
}
use aimeath.Snake.Body.{
  Distinct, Linked, Adjacent-moved, Distinct-drop_last, Linked-drop_last, length-drop_last,
  on_body_head, on_body-drop_last_head, IsNamed-or_still, on_body-drop_last,
}
use aimeath.Snake.Turn.{set_direction-body}
use aimeath.Snake.Food.{Placed, generate_food-Placed}

-- Every cell of a live snake is its own, each is next to the one before, and the head is inside.
abbrev pub IsAlive : Board → List Position → Type 0
IsAlive b [] = ⊥
IsAlive b (h ∷ t) = Distinct (h ∷ t) × Linked (h ∷ t) × Below h.x b.width × Below h.y b.height

pub record IsValid (g : Game) : Type 0 where
  pub sides : (0 < g.board.width) × (0 < g.board.height)
  pub grown : 10 * length g.snake.body ≡ g.score + 30
  pub food_inside : Below g.board.food.x g.board.width × Below g.board.food.y g.board.height
  pub food_free : on_body g.snake.body g.board.food ≡ false
  pub alive : g.game_over ≡ false → IsAlive g.board g.snake.body

-- A game that is not over after the last test of a tick.
survives :
    (hit : Bool) (p : Position) (g : Game)
    → (judge p hit g).game_over ≡ false
    → (hit ≡ false) × Below p.x g.board.width × Below p.y g.board.height
survives hit p g over =
    ground (arith, within→Below p.x g.board.width, within→Below p.y g.board.height)

-- The cell that the head moves to, and the game after it grew and after it moved on.
module _ (g : Game) (h : Position) where
  abbrev pub new_head : Position
  new_head = moved g.snake.next_dir h

  module _ (t : List Position) where
    abbrev pub longer : Snake
    longer = record { body = new_head ∷ h ∷ t; dir = g.snake.next_dir; next_dir = g.snake.next_dir }

    abbrev pub fed : Board × ℕ → Game
    fed r = record g { board = r.0; snake = longer; score = g.score + 10; drawn = r.1 }

    abbrev pub shifted : Game
    shifted = record g { snake = record longer { body = new_head ∷ drop_last (h ∷ t) } }

module _ (g : Game) (h : Position) (t : List Position) where
  abbrev m : Position
  m = new_head g h

  module _ (rand : ℕ → ℕ) (fuel : ℕ) (body : g.snake.body ≡ h ∷ t) where
    pub update_eats :
        is_food_at g.board m ≡ true
        → update rand fuel g ≡ (
            generate_food rand fuel (longer g h t) g.board g.drawn >>= λ r.
            ok (judge m (on_body (h ∷ t) m) ((fed g h t) r)))
    unfolding update
    update_eats e = ground arith

    pub update_moves :
        is_food_at g.board m ≡ false
        → update rand fuel g ≡ ok (judge m (on_body (drop_last (h ∷ t)) m) (shifted g h t))
    unfolding update
    update_moves e = ground arith

    module _ (v : IsValid g) (live : IsAlive g.board (h ∷ t)) where
      -- A move to a cell that is free of the body keeps the snake linked: only a value of
      -- `Direction` without a name leaves the head where it is.
      Linked-move :
          (ps : List Position) → on_body ps h ≡ true → on_body ps m ≡ false → Linked (m ∷ h ∷ t)
      Linked-move ps held free = elim (IsNamed-or_still g.snake.next_dir h) [
        | inl named ↦ (Adjacent-moved g.snake.next_dir h named, live.1)
        | inr still ↦ absurd (false≢true (sym free ∙ rw still held))
      ]

      fed-IsValid :
          (r : Board × ℕ)
          → is_food_at g.board m ≡ true
          → Placed (longer g h t) g.board r.0
          → IsValid (judge m (on_body (h ∷ t) m) ((fed g h t) r))
      fed-IsValid r e p = record {
        sides = rw p.sides.0 (rw p.sides.1 v.sides);
        grown = omega (arith, v.grown, ap length body);
        food_inside = rw p.sides.0 (rw p.sides.1 p.inside);
        food_free = p.free;
        alive = λ over.
            let (free, in_x, in_y) = survives (on_body (h ∷ t) m) m ((fed g h t) r) over in
            ((free, live.0), Linked-move (h ∷ t) (on_body_head h t) free, in_x, in_y);
      }

      shifted-IsValid :
          is_food_at g.board m ≡ false
          → IsValid (judge m (on_body (drop_last (h ∷ t)) m) (shifted g h t))
      unfolding on_body drop_last
      shifted-IsValid e = record {
        sides = v.sides;
        grown = omega (arith, v.grown, ap length body, length-drop_last (h ∷ t));
        food_inside = v.food_inside;
        food_free = rw e (on_body-drop_last (h ∷ t) g.board.food (rw body at v.food_free));
        alive = λ over.
            let (free, in_x, in_y) =
              survives (on_body (drop_last (h ∷ t)) m) m (shifted g h t) over in
            let held = on_body-drop_last_head h t (omega (arith, v.grown, ap length body)) in
            (
              (free, Distinct-drop_last (h ∷ t) live.0),
              Linked-drop_last (m ∷ h ∷ t) (Linked-move (drop_last (h ∷ t)) held free),
              in_x,
              in_y,
            );
      }

      pub update-IsValid :
          (g' : Game) → g.game_over ≡ false → update rand fuel g ≡ ok g' → IsValid g'
      update-IsValid g' over e = elim (Bool-cases (is_food_at g.board m)) [
        | inl eats ↦
            let (r, made, done) = >>=_parts _ _ (sym (update_eats eats) ∙ e) in
            subst IsValid (ok-injective done) (
              fed-IsValid r eats
                (generate_food-Placed rand (longer g h t) g.board fuel g.drawn r made))
        | inr moves ↦
            subst IsValid (ok-injective (sym (update_moves moves) ∙ e)) (shifted-IsValid moves)
      ]

abbrev pub turned : Direction → Game → Game
turned d g = record g { snake = set_direction d g.snake }

-- Turning the snake keeps the game well formed.
pub turned-IsValid : (d : Direction) (g : Game) → IsValid g → IsValid (turned d g)
turned-IsValid d g v = record {
  sides = v.sides;
  grown = rw set_direction-body v.grown;
  food_inside = v.food_inside;
  food_free = rw set_direction-body v.food_free;
  alive = λ over. rw set_direction-body (v.alive over);
}
