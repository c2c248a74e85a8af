-- ===== src/Gomoku.antt =====
-- desktop/app/gomoku/backend: board.hpp and board.cpp, game.hpp and game.cpp. The loop of
-- `countDir` runs on fuel. The side is `ℕ`: the app interface builds no other game. A
-- product of sides beyond `int` is undefined.
pub mod Walk
pub mod Line
pub mod Five
pub mod Stones
pub mod Fair
pub mod Rules
pub mod Whole
pub mod Screen
pub mod Tests
use package.aimeath.Common.{
  ℕ, zero, suc, ◌+◌, ◌*◌, Bool, true, false, not, ◌&&◌, List, [], ◌∷◌, leb, ◌==◌, replicate, set,
  if◌then◌else◌, Outcome, ok, undefined, unfinished, ◌>>=◌,
}
use package.aimeath.Common.Int.{ℤ, pos, negsuc, ◌+ℤ◌, neg, ◌/ℤ◌, ◌%ℤ◌, within}
use package.aimeath.Game.Grid.{int_max, grid_index, read}

pub data Cell : Type 0 where
  empty black white : Cell

abbrev pub cell_eq : Cell → Cell → Bool
cell_eq empty empty = true
cell_eq black black = true
cell_eq white white = true
cell_eq _ _ = false

pub record Board : Type 0 where
  pub size : ℕ
  pub cells : List Cell

abbrev pub blank : ℕ → Board
blank n = record { size = n; cells = replicate (n * n) empty }

-- `size * size` is an `int`.
pub new_board : ℕ → Outcome Board
new_board n = if leb (n * n) int_max then ok (blank n) else undefined

abbrev pub in_bounds : Board → ℤ → ℤ → Bool
in_bounds b row col = within row b.size && within col b.size

-- `m_cells[row * m_size + col]`.
pub at : Board → ℤ → ℤ → Outcome Cell
unfolding grid_index read
at b row col = read b.cells (grid_index b.size row col)

abbrev pub set_at : List Cell → ℤ → Cell → List Cell
set_at xs (pos i) v = set xs i v
set_at xs (negsuc i) v = xs

pub place : ℤ → ℤ → Cell → Board → Outcome (Bool × Board)
unfolding at
place row col cell b =
    if in_bounds b row col
    then (do
      c ← at b row col
      ok (
          if cell_eq c empty
          then (true, record b { cells = set_at b.cells (grid_index b.size row col) cell })
          else (false, b)))
    else ok (false, b)

abbrev none_empty : List Cell → Bool
none_empty [] = true
none_empty (c ∷ cs) = not (cell_eq c empty) && none_empty cs

pub is_full : Board → Bool
is_full b = none_empty b.cells

module _ (b : Board) (dr dc : ℤ) (cell : Cell) where
  -- The while loop of `countDir`, at the cell `r`, `c`.
  pub count_loop : ℕ → ℤ → ℤ → ℕ → Outcome ℕ
  count_loop zero r c cnt = unfinished
  count_loop (suc fuel) r c cnt =
      let rest = count_loop fuel (r +ℤ dr) (c +ℤ dc) (cnt + 1) in
      if in_bounds b r c then (do a ← at b r c; if cell_eq a cell then rest else ok cnt) else ok cnt

-- A line through the board has no more cells than the side, so the fuel lasts.
pub count_dir : Board → ℤ → ℤ → ℤ → ℤ → Outcome ℕ
count_dir b row col dr dc = do
  cell ← at b row col
  count_loop b dr dc cell (suc b.size) (row +ℤ dr) (col +ℤ dc) 0

abbrev pub dirs : List (ℤ × ℤ)
dirs = (pos 1, pos 0) ∷ (pos 0, pos 1) ∷ (pos 1, pos 1) ∷ (pos 1, negsuc 0) ∷ []

pub check_dirs : Board → ℤ → ℤ → List (ℤ × ℤ) → Outcome Bool
unfolding neg
check_dirs b row col [] = ok false
check_dirs b row col ((dr, dc) ∷ ds) =
    let rest = check_dirs b row col ds in
    (do
      n ← count_dir b row col dr dc
      m ← count_dir b row col (neg dr) (neg dc)
      if leb 5 (1 + n + m) then ok true else rest)

pub check_win : Board → ℤ → ℤ → Outcome Bool
unfolding check_dirs count_dir count_loop at ◌+ℤ◌
check_win b row col = check_dirs b row col dirs

pub record Game : Type 0 where
  pub board : Board
  pub cur : Cell
  pub over : Bool
  pub winner : Cell

pub new_game : ℕ → Outcome Game
unfolding new_board
new_game n = do
  b ← new_board n
  ok (record { board = b; cur = black; over = false; winner = empty })

pub current_player : Game → ℕ
current_player g = if cell_eq g.cur black then 1 else 2

pub score : Game → ℕ
score g = if cell_eq g.winner black then 1 else (if cell_eq g.winner white then 2 else 0)

-- The part of `tick` after a stone was placed.
pub finish : ℤ → ℤ → Game → Outcome Game
finish row col g = do
  won ← check_win g.board row col
  ok (
      if won
      then record g { winner = g.cur; over = true }
      else (if is_full g.board
          then record g { over = true }
          else record g { cur = if cell_eq g.cur black then white else black }))

-- Division by an empty side is undefined.
pub tick : ℤ → Game → Outcome Game
unfolding place finish check_win is_full ◌/ℤ◌ ◌%ℤ◌
tick position g =
    if g.over
    then ok g
    else (if g.board.size == 0 then undefined else (do
      let row = position /ℤ g.board.size
      let col = position %ℤ g.board.size
      (placed, b) ← place row col g.cur g.board
      if placed then finish row col (record g { board = b }) else ok g))

pub play : List ℤ → Game → Outcome Game
unfolding tick
play [] g = ok g
play (position ∷ later) g = tick position g >>= play later
