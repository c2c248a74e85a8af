-- ===== src/Go/Score/Loops.antt =====
-- The loops over the cells of the board, and the score (board.cpp).
use aimeath.Common.{ℕ, suc, ◌<◌, ◌≡◌, ◌∙◌, ap, true, false, Outcome, ok, arith, if◌then◌else◌}
use aimeath.Common.Int.{pos, inc}
use aimeath.Common.Ends.{Ends}
use aimeath.Common.Loops.{for_each, for_each-kept, upto-lt}
use aimeath.Game.Grid.{read, or_undefined, get_elem?-get_or, grid_index_pos}
use aimeath.Go.{empty, Board, cells, is_border, on_board, to_index, at}
use aimeath.Go.Cells.{stone_at, IsBordered}
use aimeath.Go.Score.{lines, each_cell, inner}

-- A property that the body keeps at each cell holds after the loops.
pub each_cell-Ends :
    {S : Type 0} (F : Type 0) (P : S → Type 0) (body : ℕ → ℕ → S → Outcome S) (s : S)
    → ((r c : ℕ) (s : S) → r < 19 → c < 19 → P s → Ends F P (body r c s))
    → P s
    → Ends F P (each_cell body s)
unfolding each_cell
each_cell-Ends F P body s keep h =
    for_each-kept F P (λ r. for_each (body r) lines) lines s
      (λ r s mr p.
        for_each-kept F P (body r) lines s
          (λ c s mc p. keep r c s (upto-lt 0 19 r mr) (upto-lt 0 19 c mc) p) p)
      h

on_lines : (r c : ℕ) → r < 19 → c < 19 → on_board (pos r) (pos c) ≡ true
on_lines r c hr hc = ground arith

pub inner-lt : (r c : ℕ) → r < 19 → c < 19 → inner r c < cells
inner-lt r c hr hc = omega arith

pub inner_inside : (r c : ℕ) → r < 19 → c < 19 → is_border (inner r c) ≡ false
inner_inside r c hr hc = ground arith

pub to_index-inner : (r c : ℕ) → to_index (pos r) (pos c) ≡ pos (inner r c)
unfolding to_index inc
to_index-inner r c = grid_index_pos 21 (suc r) (suc c) ∙ ap pos (omega arith)

module _ (b : Board) (bordered : IsBordered b.grid) where
  -- `at` on the board reads the grid.
  pub at-stone_at :
      (r c : ℕ) → r < 19 → c < 19 → at b (pos r) (pos c) ≡ ok (stone_at b.grid (inner r c))
  unfolding at read
  at-stone_at r c hr hc =
      ap (λ t. if t then read b.grid (to_index (pos r) (pos c)) else ok empty) (on_lines r c hr hc)
      ∙ ap (read b.grid) (to_index-inner r c)
      ∙ ap or_undefined
          (get_elem?-get_or b.grid (inner r c) empty (rw bordered.size (inner-lt r c hr hc)))
