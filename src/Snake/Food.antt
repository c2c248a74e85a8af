-- ===== src/Snake/Food.antt =====
-- Board::generateFood (board.cpp).
use aimeath.Common.{
  ℕ, zero, suc, ◌+◌, ◌-◌, ◌*◌, ◌<◌, ◌%◌, ◌≡◌, refl, true, false, arith, ok, unfinished, List,
  Bool-cases, inl, inr,
}
use aimeath.Common.Int.{Below, pos}
use aimeath.Snake.{Position, Snake, Board, draw, on_body, has_body_at, food_loop, generate_food}

-- The food lies on a cell of the board that the snake leaves free; the sides are kept.
pub record Placed (s : Snake) (b b' : Board) : Type 0 where
  pub sides : (b'.width ≡ b.width) × (b'.height ≡ b.height)
  pub inside : Below b'.food.x b.width × Below b'.food.y b.height
  pub free : has_body_at s b'.food ≡ false

-- The body covers the whole board.
abbrev pub IsFull : List Position → Board → Type 0
IsFull body b =
    (x y : ℕ) → x < b.width → y < b.height → on_body body (record { x = pos x; y = pos y }) ≡ true

module _ (rand : ℕ → ℕ) (s : Snake) (b : Board) where
  food_loop-Placed :
      (fuel k : ℕ) (r : Board × ℕ)
      → 0 < b.width
      → 0 < b.height
      → food_loop rand fuel s b k ≡ ok r
      → Placed s b r.0
  unfolding food_loop
  food_loop-Placed zero k r hw hh e = cc
  food_loop-Placed (suc fuel) k r hw hh e = elim (Bool-cases (has_body_at s (draw rand b k))) [
    | inl taken ↦ food_loop-Placed fuel (k + 2) r hw hh (rw taken at e)
    | inr free ↦ ground arith
  ]

  pub generate_food-Placed :
      (fuel k : ℕ) (r : Board × ℕ) → generate_food rand fuel s b k ≡ ok r → Placed s b r.0
  unfolding generate_food
  generate_food-Placed fuel k r e = grind (arith, food_loop-Placed fuel k r)

  food_loop-returns :
      (fuel k i : ℕ)
      → i < fuel
      → has_body_at s (draw rand b (k + 2 * i)) ≡ false
      → (r : Board × ℕ) × (food_loop rand fuel s b k ≡ ok r)
  unfolding food_loop
  food_loop-returns zero k i h free = absurd (omega arith)
  food_loop-returns (suc fuel) k i h free = elim (Bool-cases (has_body_at s (draw rand b k))) [
    | inl taken ↦
        let again : k + 2 * i ≡ k + 2 + 2 * (i - 1) = ground arith in
        let late : 0 < i = ground arith in
        rw taken (food_loop-returns fuel (k + 2) (i - 1) (omega arith) (rw again at free))
    | inr now ↦ ((record b { food = draw rand b k }, k + 2), rw now refl)
  ]

  -- If one of the draws that the fuel allows is a free cell, food is placed.
  pub generate_food-returns :
      (fuel k i : ℕ)
      → 0 < b.width
      → 0 < b.height
      → i < fuel
      → has_body_at s (draw rand b (k + 2 * i)) ≡ false
      → (r : Board × ℕ) × (generate_food rand fuel s b k ≡ ok r)
  unfolding generate_food
  generate_food-returns fuel k i hw hh h free =
      let (r, e) = food_loop-returns fuel k i h free in (r, ground arith)

  food_loop_full :
      (fuel k : ℕ)
      → 0 < b.width
      → 0 < b.height
      → IsFull s.body b
      → food_loop rand fuel s b k ≡ unfinished
  unfolding food_loop
  food_loop_full zero k hw hh full = refl
  food_loop_full (suc fuel) k hw hh full =
      let taken = full (rand k % b.width) (rand (k + 1) % b.height) (grind arith) (grind arith) in
      rw taken (food_loop_full fuel (k + 2) hw hh full)

  pub generate_food_full :
      (fuel k : ℕ)
      → 0 < b.width
      → 0 < b.height
      → IsFull s.body b
      → generate_food rand fuel s b k ≡ unfinished
  unfolding generate_food
  generate_food_full fuel k hw hh full = ground (arith, food_loop_full fuel k hw hh full)
