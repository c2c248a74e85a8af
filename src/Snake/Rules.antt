-- ===== src/Snake/Rules.antt =====
-- SnakeGame::tick and SnakeGame::update (game.cpp) as a whole.
use aimeath.Common.{
  ℕ, ◌+◌, ◌*◌, ◌<◌, ◌≡◌, refl, sym, ◌∙◌, subst, ap, length, true, false, not, ◌||◌, List, [], ◌∷◌,
  arith, ok, ok-injective, >>=_parts, ◌>>=◌, unfinished, Bool-cases, inl, inr,
}
use aimeath.Common.Int.{ℤ, Below→within}
use aimeath.Game.Direction.{Direction, to_direction}
use aimeath.Snake.{
  Position, Game, draw, moved, on_body, drop_last, is_inside, set_direction, update, tick,
  is_food_at, generate_food, judge, position_eq,
}
use aimeath.Snake.Body.{IsNamed, on_body-drop_last, on_body-drop_last_head, position_eq_iff_true}
use aimeath.Snake.Food.{generate_food-returns, IsFull, generate_food_full, generate_food-Placed}
use aimeath.Snake.Invariant.{
  IsValid, IsAlive, turned, turned-IsValid, update-IsValid, longer, fed, shifted, update_eats,
  update_moves,
}
use aimeath.Snake.Turn.{set_direction-body, set_direction_unnamed}

head_not_food :
    (food h : Position) (t : List Position)
    → on_body (h ∷ t) food ≡ false
    → position_eq h food ≡ false
unfolding on_body
head_not_food food h t e = ground arith

-- Where the head goes on the next step of a turned snake.
abbrev pub next_head : Direction → Game → Position → Position
next_head d g h = moved (set_direction d g.snake).next_dir h

module _ (rand : ℕ → ℕ) (fuel : ℕ) (action : ℤ) (g : Game) where
  abbrev turn : Game
  turn = turned (to_direction action) g

  pub tick_live : g.game_over ≡ false → tick rand fuel action g ≡ update rand fuel turn
  unfolding tick
  tick_live live = rw live

  pub tick_over : g.game_over ≡ true → tick rand fuel action g ≡ ok g
  unfolding tick
  tick_over over = rw over

  -- A live snake has a head.
  pub has_head :
      (b : List Position) → IsAlive g.board b → (h : Position) × (t : List Position) × (b ≡ h ∷ t)
  has_head [] a = absurd a
  has_head (h ∷ t) a = (h, t, refl)

  pub turn-body :
      {h : Position} {t : List Position} → g.snake.body ≡ h ∷ t → turn.snake.body ≡ h ∷ t
  turn-body e = set_direction-body (to_direction action) g.snake ∙ e

  -- A tick of a well-formed game that returns leaves a well-formed game: the length of the body
  -- and the score stay in step, the food lies on the board and off the body, and a snake that is
  -- not dead has distinct linked cells and its head on the board.
  pub tick-IsValid : (g' : Game) → IsValid g → tick rand fuel action g ≡ ok g' → IsValid g'
  tick-IsValid g' v e = elim (Bool-cases g.game_over) [
    | inl over ↦ subst IsValid (ok-injective (sym (tick_over over) ∙ e)) v
    | inr live ↦
        let a = v.alive live in
        let (h, t, body) = has_head g.snake.body a in
        update-IsValid turn h t rand fuel (turn-body body)
          (turned-IsValid (to_direction action) g v) (subst (IsAlive g.board) body a) g' live
          (sym (tick_live live) ∙ e)
  ]

module _ (rand : ℕ → ℕ) (fuel : ℕ) (action : ℤ) (g : Game) (h : Position) (t : List Position)
    (v : IsValid g) (live : g.game_over ≡ false) (body : g.snake.body ≡ h ∷ t) where
  abbrev turned_g : Game
  turned_g = turned (to_direction action) g

  abbrev m : Position
  m = next_head (to_direction action) g h

  bent : turned_g.snake.body ≡ h ∷ t
  bent = set_direction-body (to_direction action) g.snake ∙ body

  -- Food that the head reaches lies on the board and off the body.
  food_reached :
      is_food_at g.board m ≡ true → (on_body (h ∷ t) m ≡ false) × (is_inside g.board m ≡ true)
  food_reached eats =
      let e = position_eq_iff_true m g.board.food eats in
      (
        rw e (rw body at v.food_free),
        subst (λ p. is_inside g.board p ≡ true) (sym e)
            (ground (
              arith,
              v.food_inside,
              Below→within g.board.food.x g.board.width,
              Below→within g.board.food.y g.board.height,
            )),
      )

  tick_eats :
      is_food_at g.board m ≡ true
      → tick rand fuel action g ≡ (
          generate_food rand fuel (longer turned_g h t) g.board g.drawn >>= λ r.
          ok (judge m (on_body (h ∷ t) m) (fed turned_g h t r)))
  tick_eats eats = tick_live rand fuel action g live ∙ update_eats turned_g h t rand fuel bent eats

  tick_moves :
      is_food_at g.board m ≡ false
      → tick rand fuel action g
        ≡ ok (judge m (on_body (drop_last (h ∷ t)) m) (shifted turned_g h t))
  tick_moves moves =
      tick_live rand fuel action g live ∙ update_moves turned_g h t rand fuel bent moves

  -- After a tick of a live well-formed game the game is over exactly if the cell that the head
  -- moves to lies on the old body without its last cell, or off the board. That is so also when
  -- the snake eats, although the code keeps the last cell then.
  pub tick-game_over :
      (g' : Game)
      → tick rand fuel action g ≡ ok g'
      → g'.game_over ≡ (on_body (drop_last (h ∷ t)) m || not (is_inside g.board m))
  tick-game_over g' e = elim (Bool-cases (is_food_at g.board m)) [
    | inl eats ↦
        let (r, made, done) = >>=_parts _ _ (sym (tick_eats eats) ∙ e) in
        let p = generate_food-Placed rand (longer turned_g h t) g.board fuel g.drawn r made in
        let (free, inside) = food_reached eats in
        let free' = on_body-drop_last (h ∷ t) m free in
        ground (arith, free, free', inside, p.sides, ok-injective done, live)
    | inr moves ↦ rw (← ok-injective (sym (tick_moves moves) ∙ e)) (ground arith)
  ]

  -- If a live well-formed snake reaches the food and then covers the whole board, the tick never
  -- returns, whatever the fuel: no free cell is left to place food on.
  pub tick_full :
      position_eq m g.board.food ≡ true
      → IsFull (m ∷ h ∷ t) g.board
      → tick rand fuel action g ≡ unfinished
  tick_full eats full =
      tick_eats eats
      ∙ rw (
          generate_food_full rand (longer turned_g h t) g.board fuel g.drawn v.sides.0 v.sides.1
            full)

  -- A tick of a live well-formed game returns if one of the cells that the fuel lets it draw is
  -- neither on the body nor the cell that the head moves to.
  pub tick_returns :
      (i : ℕ)
      → i < fuel
      → on_body (m ∷ h ∷ t) (draw rand g.board (g.drawn + 2 * i)) ≡ false
      → (g' : Game) × (tick rand fuel action g ≡ ok g')
  tick_returns i lt free = elim (Bool-cases (is_food_at g.board m)) [
    | inl eats ↦
        let (r, e) =
          generate_food-returns rand (longer turned_g h t) g.board fuel g.drawn i v.sides.0
            v.sides.1 lt free in
        (judge m (on_body (h ∷ t) m) (fed turned_g h t r), tick_eats eats ∙ rw e)
    | inr moves ↦ (judge m (on_body (drop_last (h ∷ t)) m) (shifted turned_g h t), tick_moves moves)
  ]

  -- A tick of a live well-formed game whose action is the number of no direction returns, and
  -- the game is over: the head stays where it is and hits the cell itself.
  pub tick_unnamed :
      ¬ IsNamed (to_direction action)
      → (g' : Game) × (tick rand fuel action g ≡ ok g') × (g'.game_over ≡ true)
  tick_unnamed u =
      let still : m ≡ h = set_direction_unnamed (to_direction action) g.snake h u in
      let off : is_food_at g.board m ≡ false =
        subst (λ p. is_food_at g.board p ≡ false) (sym still)
          (head_not_food g.board.food h t (rw body at v.food_free)) in
      let hit : on_body (drop_last (h ∷ t)) m ≡ true =
        subst (λ p. on_body (drop_last (h ∷ t)) p ≡ true) (sym still)
          (on_body-drop_last_head h t (omega (arith, v.grown, ap length body))) in
      (
        judge m (on_body (drop_last (h ∷ t)) m) (shifted turned_g h t),
        tick_moves off,
        ground (arith, hit),
      )
