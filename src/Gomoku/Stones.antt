-- ===== src/Gomoku/Stones.antt =====
-- Board::place (board.cpp): the cell of the vector that a stone goes to.
use aimeath.Common.{
  ℕ, zero, suc, ◌+◌, ◌*◌, ◌<◌, ◌≡◌, sym, ap, subst, ◌∙◌, Bool, true, false, List, [], ◌∷◌, arith,
  Outcome, ok, ◌>>=◌, if◌then◌else◌, set, get_or, length,
}
use aimeath.Common.Int.{ℤ, pos, within→Below, Below-pos}
use aimeath.Game.Grid.{grid_index_pos, read-grid_index, grid_index, grid_index-lt}
use aimeath.Gomoku.Line.{IsSized}
use aimeath.Gomoku.{Cell, empty, cell_eq, Board, in_bounds, at, place, set_at}

-- How many cells hold `c`.
abbrev pub stones : Cell → List Cell → ℕ
stones c [] = 0
stones c (x ∷ xs) = (if cell_eq c x then 1 else 0) + stones c xs

pub stones-set :
    (c v : Cell) (xs : List Cell) (k : ℕ)
    → cell_eq c empty ≡ false
    → k < length xs
    → get_or xs k empty ≡ empty
    → stones c (set xs k v) ≡ stones c xs + (if cell_eq c v then 1 else 0)
stones-set c v [] k named lt e = absurd (omega arith)
stones-set c v (x ∷ xs) zero named lt e = rw (e, named) (omega arith)
stones-set c v (x ∷ xs) (suc k) named lt e =
    omega (arith, stones-set c v xs k named (omega arith) e)

-- The place in the vector of a cell on the board.
pub record Slot (b : Board) (row col : ℤ) : Type 0 where
  pub k : ℕ
  pub index : grid_index b.size row col ≡ pos k
  pub inside : k < length b.cells
  pub reads :
      (cells : List Cell)
      → length cells ≡ length b.cells
      → at (record b { cells = cells }) row col ≡ ok (get_or cells k empty)

pub slot : (b : Board) (row col : ℤ) → IsSized b → in_bounds b row col ≡ true → Slot b row col
unfolding at
slot b row col size h =
    let (i, er, hr) = Below-pos row b.size (ground (arith, within→Below row b.size)) in
    let (j, ec, hc) = Below-pos col b.size (ground (arith, within→Below col b.size)) in
    subst (λ r. Slot b r col) (sym er)
      (subst (λ c. Slot b (pos i) c) (sym ec)
        (record {
          k = i * b.size + j;
          index = grid_index_pos b.size i j;
          inside = rw size (grid_index-lt b.size b.size i j hr hc);
          reads = λ cells same. read-grid_index b.size b.size cells (same ∙ size) i j hr hc empty;
        }))

-- The board with a stone on the cell.
abbrev pub with_stone : ℤ → ℤ → Cell → Board → Board
with_stone row col cell b = record b { cells = set_at b.cells (grid_index b.size row col) cell }

module _ (b : Board) (row col : ℤ) (cell : Cell) where
  pub place_outside : in_bounds b row col ≡ false → place row col cell b ≡ ok (false, b)
  unfolding place
  place_outside out = rw out

  abbrev put : Cell → Outcome (Bool × Board)
  put c = ok (if cell_eq c empty then (true, with_stone row col cell b) else (false, b))

  pub place-at :
      (a : Cell) → in_bounds b row col ≡ true → at b row col ≡ ok a → place row col cell b ≡ put a
  unfolding place
  place-at a h e =
      ap (λ t. if t then at b row col >>= put else ok (false, b)) h ∙ ap (λ o. o >>= put) e
