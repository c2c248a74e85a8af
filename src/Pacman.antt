-- ===== src/Pacman.antt =====
-- desktop/app/pacman/backend: board.hpp and board.cpp, game.hpp and game.cpp. `rand k` is the k-th
-- result of `std::rand()`; the loop that draws cells runs on fuel. Sides are `ℕ`: the app interface
-- builds no other game. A product of sides beyond `int` is undefined.
pub mod Beans
pub mod Fill
pub mod Loop
pub mod Eat
pub mod Rules
pub mod Screen
mod Tests
use package.aimeath.Common.{
  ℕ, zero, suc, ◌+◌, ◌-◌, ◌*◌, ◌/◌, ◌%◌, Bool, true, false, ◌&&◌, ◌||◌, List, [], ◌∷◌, ltb, leb,
  length, replicate, set, if◌then◌else◌, Outcome, ok, undefined, unfinished, ◌>>=◌,
}
use package.aimeath.Common.Int.{ℤ, pos, negsuc, inc, dec, ◌==ℤ◌, within}
use package.aimeath.Game.Direction.{Direction, right, to_direction, apply_dir}
use package.aimeath.Game.Grid.{int_max, grid_index, read}

pub record Board : Type 0 where
  pub width : ℕ
  pub height : ℕ
  pub beans : List Bool
  pub bean_count : ℤ

abbrev pub blank : ℕ → ℕ → Board
blank w h = record { width = w; height = h; beans = replicate (w * h) false; bean_count = pos 0 }

-- `width * height` is an `int`.
pub new_board : ℕ → ℕ → Outcome Board
new_board w h = if leb (w * h) int_max then ok (blank w h) else undefined

-- `m_beans[y * m_width + x]`.
pub has_bean : Board → ℤ → ℤ → Outcome Bool
unfolding grid_index read
has_bean b x y = read b.beans (grid_index b.width y x)

abbrev pub set_at : List Bool → ℤ → Bool → List Bool
set_at xs (pos i) v = set xs i v
set_at xs (negsuc i) v = xs

pub remove_bean : ℤ → ℤ → Board → Outcome Board
unfolding has_bean dec
remove_bean x y b = do
  bean ← has_bean b x y
  ok (
      if bean
      then record b {
        beans = set_at b.beans (grid_index b.width y x) false;
        bean_count = dec b.bean_count;
      }
      else b)

module _ (avoid_x avoid_y : ℤ) where
  -- One round of the loop of `generateBeans`: the board, and how many beans are placed.
  pub place_bean : ℤ → ℤ → Board × ℕ → Outcome (Board × ℕ)
  unfolding has_bean inc
  place_bean x y (b, placed) = if x ==ℤ avoid_x && y ==ℤ avoid_y then ok (b, placed) else (do
    bean ← has_bean b x y
    ok (
        if bean then (b, placed) else (
          record b {
            beans = set_at b.beans (grid_index b.width y x) true;
            bean_count = inc b.bean_count;
          },
          placed + 1,
        )))

abbrev pub draw_x : (ℕ → ℕ) → Board → ℕ → ℤ
draw_x rand b k = pos (rand k % b.width)

abbrev pub draw_y : (ℕ → ℕ) → Board → ℕ → ℤ
draw_y rand b k = pos (rand (k + 1) % b.height)

module _ (rand : ℕ → ℕ) (avoid_x avoid_y : ℤ) where
  pub beans_loop : ℕ → ℕ → ℕ → Board × ℕ → Outcome Board
  beans_loop zero count k (b, placed) = if ltb placed count then unfinished else ok b
  beans_loop (suc fuel) count k (b, placed) =
      let rest =
        place_bean avoid_x avoid_y (draw_x rand b k) (draw_y rand b k) (b, placed)
        >>= beans_loop fuel count (k + 2) in
      if ltb placed count then rest else ok b

  -- `%` by an empty side is not reached: a bean is placed only if there are two cells or more.
  pub generate_beans : ℕ → ℕ → Board → Outcome Board
  unfolding beans_loop place_bean
  generate_beans fuel count b =
      let total = b.width * b.height in
      let wanted = if ltb (total - 1) count then total - 1 else count in
      beans_loop fuel wanted 0
        (record b { bean_count = pos 0; beans = replicate (length b.beans) false }, 0)

abbrev pub bean_total : ℕ
bean_total = 30

pub record Game : Type 0 where
  pub board : Board
  pub player_x : ℤ
  pub player_y : ℤ
  pub dir : Direction
  pub next_dir : Direction
  pub score : ℕ
  pub game_over : Bool

-- `PacmanGame::PacmanGame`.
pub new_game : (ℕ → ℕ) → ℕ → ℕ → ℕ → Outcome Game
unfolding new_board generate_beans
new_game rand fuel w h = do
  b ← new_board w h
  b ← generate_beans rand (pos (w / 2)) (pos (h / 2)) fuel bean_total b
  ok (record {
    board = b;
    player_x = pos (w / 2);
    player_y = pos (h / 2);
    dir = right;
    next_dir = right;
    score = 0;
    game_over = false;
  })

-- The part of `tickDir` after the player has moved: eat the bean, and end the game after the last.
pub eat_bean : Game → Outcome Game
unfolding remove_bean
eat_bean g = do
  bean ← has_bean g.board g.player_x g.player_y
  g' ←
      (if bean
        then (do
          b ← remove_bean g.player_x g.player_y g.board
          ok (record g { board = b; score = g.score + 10 }))
        else ok g)
  ok (record g' { game_over = g'.game_over || g'.board.bean_count ==ℤ pos 0 })

pub tick_dir : Direction → Game → Outcome Game
unfolding apply_dir eat_bean
tick_dir d g =
    if g.game_over
    then ok g
    else (let (nx, ny) = apply_dir d g.player_x g.player_y in
        let turned = record g { dir = d; next_dir = d } in
        if within nx g.board.width && within ny g.board.height
        then eat_bean (record turned { player_x = nx; player_y = ny })
        else ok (record turned { game_over = true }))

pub tick : ℤ → Game → Outcome Game
unfolding to_direction tick_dir
tick action g = tick_dir (to_direction action) g

-- A game of several ticks.
pub play : List ℤ → Game → Outcome Game
unfolding tick
play [] g = ok g
play (a ∷ as') g = tick a g >>= play as'
