-- ===== src/Go.antt =====
-- desktop/app/go/backend: board.hpp and board.cpp. The board has 19 lines each way and a border of
-- empty cells around them, so that its vector has 21 * 21 cells. The searches run on fuel.
pub mod Cells
pub mod Simulate
pub mod Counted
pub mod Count
pub mod Waiting
pub mod Stack
pub mod Collected
pub mod Group
pub mod Remove
pub mod Capture
pub mod Place
pub mod Move
pub mod Legal
pub mod Rules
pub mod Alive
pub mod Again
pub mod Score
pub mod Game
pub mod Tests
use package.aimeath.Common.{
  ℕ, zero, suc, ◌+◌, ◌/◌, ◌%◌, Bool, true, false, not, ◌&&◌, ◌||◌, List, [], ◌∷◌, ◌++◌, ◌==◌,
  replicate, set, length, if◌then◌else◌, Outcome, ok, undefined, unfinished, ◌>>=◌,
}
use package.aimeath.Common.Int.{ℤ, pos, negsuc, ◌+ℤ◌, inc, within}
use package.aimeath.Common.Loops.{for_each}
use package.aimeath.Game.Grid.{grid_index, read}

pub data Stone : Type 0 where
  empty black white : Stone

abbrev pub stone_eq : Stone → Stone → Bool
stone_eq empty empty = true
stone_eq black black = true
stone_eq white white = true
stone_eq _ _ = false

abbrev pub opponent : Stone → Stone
opponent black = white
opponent white = black
opponent empty = empty

abbrev pub size : ℕ
size = 19

-- `SIZE1 * SIZE1`.
abbrev pub cells : ℕ
cells = 441

pub record Board : Type 0 where
  pub grid : List Stone
  pub dead : List Bool

pub new_board : Board
new_board = record { grid = replicate cells empty; dead = replicate cells false }

-- `isBorder(idx / SIZE1, idx % SIZE1)`.
abbrev pub is_border : ℕ → Bool
is_border idx = idx / 21 == 0 || idx / 21 == 20 || idx % 21 == 0 || idx % 21 == 20

abbrev pub on_board : ℤ → ℤ → Bool
on_board row col = within row size && within col size

-- `toIndex(row + 1, col + 1)`.
pub to_index : ℤ → ℤ → ℤ
unfolding grid_index inc
to_index row col = grid_index 21 (inc row) (inc col)

pub at : Board → ℤ → ℤ → Outcome Stone
unfolding to_index read
at b row col = if on_board row col then read b.grid (to_index row col) else ok empty

abbrev pub dirs : List ℤ
dirs = negsuc 20 ∷ pos 21 ∷ negsuc 0 ∷ pos 1 ∷ []

-- `idx + d`, the index of a neighbour; below 0 it lies outside of the arrays.
pub offset : ℕ → ℤ → Outcome ℕ
unfolding ◌+ℤ◌
offset idx d = elim (pos idx +ℤ d) [ pos n ↦ ok n | negsuc _ ↦ undefined ]

-- Reads of the arrays at an index from 0 on.
abbrev pub load {ℓ} : {A : Type ℓ} → List A → ℕ → Outcome A
load [] i = undefined
load (x ∷ xs) zero = ok x
load (x ∷ xs) (suc i) = load xs i

module _ (grid : List Stone) (color : Stone) where
  abbrev pub count_step :
      (ℕ → List Bool → Outcome (ℕ × List Bool)) → ℕ → ℤ → ℕ × List Bool → Outcome (ℕ × List Bool)
  count_step rec idx d (libs, visited) = do
    next ← offset idx d
    (more, visited') ← rec next visited
    ok (libs + more, visited')

  -- What is left to do at a cell that was not visited yet: is it empty, is it of the color?
  abbrev pub count_stone :
      (ℕ → List Bool → Outcome (ℕ × List Bool))
      → ℕ
      → List Bool
      → Bool
      → Bool
      → Outcome (ℕ × List Bool)
  count_stone rec idx visited true own = ok (if is_border idx then 0 else 1, set visited idx true)
  count_stone rec idx visited false false = ok (0, visited)
  count_stone rec idx visited false true =
      for_each (count_step rec idx) dirs (0, set visited idx true)

  abbrev pub count_cell :
      (ℕ → List Bool → Outcome (ℕ × List Bool)) → ℕ → List Bool → Bool → Outcome (ℕ × List Bool)
  count_cell rec idx visited true = ok (0, visited)
  count_cell rec idx visited false = do
    stone ← load grid idx
    count_stone rec idx visited (stone_eq stone empty) (stone_eq stone color)

  -- The liberties found from the cell `idx`, and the cells visited by then.
  pub count_liberties : ℕ → ℕ → List Bool → Outcome (ℕ × List Bool)
  unfolding for_each offset
  count_liberties zero idx visited = unfinished
  count_liberties (suc fuel) idx visited = do
    seen ← load visited idx
    count_cell (count_liberties fuel) idx visited seen

  abbrev pub collect_step :
      (ℕ → List Bool × List ℕ → Outcome (List Bool × List ℕ))
      → ℕ
      → ℤ
      → List Bool × List ℕ
      → Outcome (List Bool × List ℕ)
  collect_step rec idx d s = do next ← offset idx d; rec next s

  -- `out.push_back(idx)` and the cells around, where the cell is of the color.
  abbrev pub collect_stone :
      (ℕ → List Bool × List ℕ → Outcome (List Bool × List ℕ))
      → ℕ
      → List Bool × List ℕ
      → Bool
      → Outcome (List Bool × List ℕ)
  collect_stone rec idx (visited, out) false = ok (visited, out)
  collect_stone rec idx (visited, out) true =
      for_each (collect_step rec idx) dirs (set visited idx true, out ++ idx ∷ [])

  abbrev pub collect_cell :
      (ℕ → List Bool × List ℕ → Outcome (List Bool × List ℕ))
      → ℕ
      → List Bool × List ℕ
      → Bool
      → Outcome (List Bool × List ℕ)
  collect_cell rec idx s true = ok s
  collect_cell rec idx s false = do
    stone ← load grid idx
    collect_stone rec idx s (stone_eq stone color)

  -- The visited cells and the stones of the group that holds the cell `idx`.
  pub collect_group : ℕ → ℕ → List Bool × List ℕ → Outcome (List Bool × List ℕ)
  unfolding for_each offset
  collect_group zero idx s = unfinished
  collect_group (suc fuel) idx (visited, out) = do
    seen ← load visited idx
    collect_cell (collect_group fuel) idx (visited, out) seen

pub remove_stones : List Stone → List ℕ → List Stone
remove_stones grid [] = grid
remove_stones grid (p ∷ ps) = remove_stones (set grid p empty) ps

abbrev pub unvisited : List Bool
unvisited = replicate cells false

-- Each nested call of the searches visits one of the 441 cells.
abbrev pub visits : ℕ
visits = 442

module _ (s : Stone) (idx : ℕ) where
  -- The group of the opponent at `next` leaves the board when it has no liberty.
  pub capture_group : ℕ → List Stone × ℕ → Outcome (List Stone × ℕ)
  unfolding count_liberties collect_group remove_stones
  capture_group next (grid, captured) = do
    (libs, _) ← count_liberties grid (opponent s) visits next unvisited
    (if libs == 0
        then (do
          (_, group) ← collect_group grid (opponent s) visits next (unvisited, [])
          ok (remove_stones grid group, captured + length group))
        else ok (grid, captured))

  pub capture_at : ℤ → List Stone × ℕ → Outcome (List Stone × ℕ)
  unfolding offset capture_group
  capture_at d (grid, captured) = do
    next ← offset idx d
    stone ← load grid next
    (if stone_eq stone (opponent s)
        then capture_group next (grid, captured)
        else ok (grid, captured))

  -- The part of `place` after the guards: the answer, the grid and the stones captured.
  pub place_at : List Stone → Outcome (Bool × List Stone × ℕ)
  unfolding count_liberties capture_at for_each
  place_at grid = do
    (grid', captured) ← for_each capture_at dirs (set grid idx s, 0)
    (libs, _) ← count_liberties grid' s visits idx unvisited
    ok (
        if libs == 0 && captured == 0
        then (false, set grid' idx empty, captured)
        else (true, grid', captured))

module _ (s : Stone) (captured : ℕ) (b : Board) where
  -- `place` at an index of the grid.
  pub place_index : ℤ → Outcome (Bool × Board × ℕ)
  unfolding place_at
  place_index (negsuc _) = undefined
  place_index (pos idx) = do
    stone ← load b.grid idx
    (if not (stone_eq stone empty) then ok (false, b, captured) else (do
      (placed, grid, taken) ← place_at s idx b.grid
      ok (placed, record b { grid = grid }, taken)))

-- The answer, the board, and `captured`, which stays as it is where a guard refuses the move.
pub place : ℤ → ℤ → Stone → ℕ → Board → Outcome (Bool × Board × ℕ)
unfolding to_index place_index
place row col s captured b =
    if not (on_board row col)
    then ok (false, b, captured)
    else place_index s captured b (to_index row col)
