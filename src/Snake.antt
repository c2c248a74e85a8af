-- ===== src/Snake.antt =====
-- desktop/app/snake/backend: snake.hpp and snake.cpp, board.hpp and board.cpp, game.hpp and game.cpp.
-- `rand k` is the k-th result of `std::rand()` and `drawn` counts the calls made; a loop that draws
-- until it finds a free cell runs on fuel. Sides are `ℕ`: the app interface builds no other game.
pub mod Body
pub mod Food
pub mod Turn
pub mod Invariant
pub mod Rules
pub mod Start
pub mod Screen
mod Tests
use package.aimeath.Common.{
  ℕ, zero, suc, ◌+◌, ◌/◌, ◌%◌, Bool, true, false, not, ◌&&◌, ◌||◌, List, [], ◌∷◌, ◌==◌,
  if◌then◌else◌, Outcome, ok, undefined, unfinished, ◌>>=◌,
}
use package.aimeath.Common.Int.{ℤ, pos, dec, ◌==ℤ◌, within}
use package.aimeath.Game.Direction.{Direction, right, to_direction, is_opposite_dir, apply_dir}

pub record Position : Type 0 where
  pub x : ℤ
  pub y : ℤ

-- `Position::operator==`.
abbrev pub position_eq : Position → Position → Bool
position_eq p q = p.x ==ℤ q.x && p.y ==ℤ q.y

-- The body is listed from the head.
pub record Snake : Type 0 where
  pub body : List Position
  pub dir : Direction
  pub next_dir : Direction

pub new_snake : ℤ → ℤ → Snake
unfolding dec
new_snake x y = record {
  body =
      record { x = x; y = y }
      ∷ record { x = dec x; y = y }
      ∷ record { x = dec (dec x); y = y }
      ∷ [];
  dir = right;
  next_dir = right;
}

pub set_direction : Direction → Snake → Snake
unfolding is_opposite_dir
set_direction d s = if is_opposite_dir s.dir d then s else record s { next_dir = d }

abbrev pub moved : Direction → Position → Position
moved d p = let (x', y') = apply_dir d p.x p.y in record { x = x'; y = y' }

-- `front` of an empty deque is undefined.
push_head : Direction → List Position → Outcome (Position × List Position)
unfolding apply_dir
push_head d [] = undefined
push_head d (h ∷ t) = ok (moved d h, moved d h ∷ h ∷ t)

pub advance : Snake → Outcome (Position × Snake)
unfolding push_head
advance s = do
  (h, body) ← push_head s.next_dir s.body
  ok (h, record { body = body; dir = s.next_dir; next_dir = s.next_dir })

pub drop_last : List Position → List Position
drop_last [] = []
drop_last (p ∷ []) = []
drop_last (p ∷ q ∷ ps) = p ∷ drop_last (q ∷ ps)

abbrev is_empty : List Position → Bool
is_empty [] = true
is_empty (_ ∷ _) = false

-- `pop_back` of an empty deque is undefined.
pub pop_tail : Snake → Outcome Snake
unfolding drop_last
pop_tail s = if is_empty s.body then undefined else ok (record s { body = drop_last s.body })

pub on_body : List Position → Position → Bool
on_body [] p = false
on_body (q ∷ qs) p = position_eq q p || on_body qs p

abbrev pub has_body_at : Snake → Position → Bool
has_body_at s p = on_body s.body p

pub head_hits : List Position → Bool
unfolding on_body
head_hits [] = false
head_hits (h ∷ t) = on_body t h

-- `front` of an empty deque is undefined.
pub collides_with_self : Snake → Outcome Bool
unfolding head_hits
collides_with_self s = if is_empty s.body then undefined else ok (head_hits s.body)

pub record Board : Type 0 where
  pub width : ℕ
  pub height : ℕ
  pub food : Position

abbrev pub is_food_at : Board → Position → Bool
is_food_at b p = position_eq p b.food

-- new_head.x >= 0 && new_head.x < width, and the same of y.
abbrev pub is_inside : Board → Position → Bool
is_inside b p = within p.x b.width && within p.y b.height

module _ (rand : ℕ → ℕ) where
  abbrev pub draw : Board → ℕ → Position
  draw b k = record { x = pos (rand k % b.width); y = pos (rand (k + 1) % b.height) }

  -- The do-while loop of `generateFood`.
  pub food_loop : ℕ → Snake → Board → ℕ → Outcome (Board × ℕ)
  unfolding on_body
  food_loop zero s b k = unfinished
  food_loop (suc fuel) s b k =
      let rest = food_loop fuel s b (k + 2) in
      if has_body_at s (draw b k) then rest else ok (record b { food = draw b k }, k + 2)

  -- `% 0` is undefined.
  pub generate_food : ℕ → Snake → Board → ℕ → Outcome (Board × ℕ)
  unfolding food_loop
  generate_food fuel s b k =
      if b.width == 0 || b.height == 0 then undefined else food_loop fuel s b k

pub record Game : Type 0 where
  pub board : Board
  pub snake : Snake
  pub game_over : Bool
  pub score : ℕ
  pub drawn : ℕ

-- The last test of `SnakeGame::update`: the snake hit itself, or its new head left the board.
abbrev pub judge : Position → Bool → Game → Game
judge h hit g = record g {
  game_over = if hit || not (is_inside g.board h) then true else g.game_over;
}

module _ (rand : ℕ → ℕ) (fuel : ℕ) where
  -- `SnakeGame::SnakeGame`.
  pub new_game : ℕ → ℕ → Outcome Game
  unfolding new_snake generate_food
  new_game w h = do
    let centre : Position = record { x = pos (w / 2); y = pos (h / 2) }
    let s = new_snake centre.x centre.y
    (b, k) ← generate_food rand fuel s (record { width = w; height = h; food = centre }) 0
    ok (record { board = b; snake = s; game_over = false; score = 0; drawn = k })

  -- Eating grows the snake, scores and places new food; otherwise the tail moves on.
  pub eat_or_move : Game → Position → Snake → Outcome Game
  unfolding generate_food pop_tail
  eat_or_move g h s =
      if is_food_at g.board h
      then (do
        (b, k) ← generate_food rand fuel s g.board g.drawn
        ok (record g { board = b; snake = s; score = g.score + 10; drawn = k }))
      else (do s' ← pop_tail s; ok (record g { snake = s' }))

  -- `SnakeGame::update`; its argument is not used in the source.
  pub update : Game → Outcome Game
  unfolding advance eat_or_move collides_with_self
  update g = do
    (h, s) ← advance g.snake
    g' ← eat_or_move g h s
    hit ← collides_with_self g'.snake
    ok (judge h hit g')

  pub tick : ℤ → Game → Outcome Game
  unfolding to_direction set_direction update
  tick action g =
      if g.game_over
      then ok g
      else update (record g { snake = set_direction (to_direction action) g.snake })
