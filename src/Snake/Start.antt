-- ===== src/Snake/Start.antt =====
-- SnakeGame::SnakeGame (game.cpp).
use aimeath.Common.{
  ℕ, zero, suc, ◌/◌, ◌<◌, ◌≤◌, ◌≡◌, refl, subst, inl, inr, length, arith, ok, unfinished,
  ok-injective, >>=_parts,
}
use aimeath.Common.Int.{pos, inc}
use aimeath.Snake.{Board, Game, on_body, new_snake, new_game, generate_food}
use aimeath.Snake.Body.{Distinct, Linked}
use aimeath.Snake.Food.{IsFull, generate_food-Placed, generate_food_full}
use aimeath.Snake.Invariant.{IsValid}

new_snake-Distinct : (n k : ℕ) → Distinct (new_snake (pos n) (pos k)).body
unfolding new_snake on_body
new_snake-Distinct zero k = ground arith
new_snake-Distinct (suc zero) k = ground arith
new_snake-Distinct (suc (suc n)) k = ground arith

new_snake-Linked : (n k : ℕ) → Linked (new_snake (pos n) (pos k)).body
unfolding new_snake inc
new_snake-Linked zero k = (inr (refl, inl refl), (inr (refl, inl refl), tt))
new_snake-Linked (suc zero) k = (inr (refl, inl refl), (inr (refl, inl refl), tt))
new_snake-Linked (suc (suc n)) k = (inr (refl, inl refl), (inr (refl, inl refl), tt))

new_snake-length : (n k : ℕ) → length (new_snake (pos n) (pos k)).body ≡ 3
unfolding new_snake
new_snake-length n k = refl

abbrev pub first_board : ℕ → ℕ → Board
first_board w h = record {
  width = w;
  height = h;
  food = record { x = pos (w / 2); y = pos (h / 2) };
}

module _ (rand : ℕ → ℕ) (fuel w h : ℕ) where
  -- A new game on a board with sides of at least one cell is well formed, if its construction
  -- returns.
  pub new_game-IsValid : (g : Game) → 0 < w → 0 < h → new_game rand fuel w h ≡ ok g → IsValid g
  unfolding new_game
  new_game-IsValid g hw hh e =
      let s = new_snake (pos (w / 2)) (pos (h / 2)) in
      let (r, made, done) = >>=_parts (generate_food rand fuel s (first_board w h) 0) _ e in
      let p = generate_food-Placed rand s (first_board w h) fuel 0 r made in
      subst IsValid (ok-injective done) (record {
        sides = rw (p.sides.0, p.sides.1) (hw, hh);
        grown = omega arith;
        food_inside = rw (p.sides.0, p.sides.1) p.inside;
        food_free = p.free;
        alive = λ _.
            rw (p.sides.0, p.sides.1)
              (
                new_snake-Distinct (w / 2) (h / 2),
                new_snake-Linked (w / 2) (h / 2),
                omega arith,
                omega arith,
              );
      })

-- On a board of one row and at most two columns the snake covers every cell.
covers : (w : ℕ) → 0 < w → w ≤ 2 → IsFull (new_snake (pos (w / 2)) (pos 0)).body (first_board w 1)
unfolding new_snake on_body
covers zero lo hi x y hx hy = absurd (omega arith)
covers (suc zero) lo hi x y hx hy = ground arith
covers (suc (suc zero)) lo hi x y hx hy = ground arith
covers (suc (suc (suc w))) lo hi x y hx hy = absurd (omega arith)

-- The construction of a game on one row of one or two columns never returns, whatever the fuel:
-- the three cells of a new snake cover that board, and no food can be placed.
pub new_game_stuck :
    (rand : ℕ → ℕ) (fuel w : ℕ) → 0 < w → w ≤ 2 → new_game rand fuel w 1 ≡ unfinished
unfolding new_game
new_game_stuck rand fuel w lo hi = rw (
    generate_food_full rand (new_snake (pos (w / 2)) (pos 0)) (first_board w 1) fuel 0 lo
      (omega arith) (covers w lo hi))
