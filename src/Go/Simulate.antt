-- ===== src/Go/Simulate.antt =====
-- Board::isLegal (board.cpp): a move on a copy of the board, with a search on a stack.
use aimeath.Common.{
  ℕ, zero, suc, ◌+◌, Bool, true, false, not, ◌&&◌, List, [], ◌∷◌, ◌==◌, set, if◌then◌else◌, Outcome,
  ok, undefined, unfinished, ◌>>=◌,
}
use aimeath.Common.Int.{ℤ, pos, negsuc}
use aimeath.Common.Loops.{for_each}
use aimeath.Go.{
  Stone, empty, stone_eq, opponent, Board, is_border, on_board, to_index, dirs, offset, load,
  unvisited, visits,
}

-- The liberties counted, the visited cells and the stack with its top first.
abbrev pub Search : Type 0
Search = ℕ × List Bool × List ℕ

module _ (grid : List Stone) (color : Stone) where
  unfoldable pub look_at : ℕ → ℤ → Search → Outcome Search
  unfolding offset
  look_at cur d (libs, vis, stack) = do
    next ← offset cur d
    stone ← load grid next
    seen ← load vis next
    ok (
        if stone_eq stone empty
        then (if not (is_border next) && not seen
            then (libs + 1, set vis next true, stack)
            else (libs, vis, stack))
        else (if stone_eq stone color && not seen
            then (libs, set vis next true, next ∷ stack)
            else (libs, vis, stack)))

  -- The `while` loop of `isLegal` over the stack.
  unfoldable pub search : ℕ → Search → Outcome ℕ
  unfolding for_each look_at
  search zero s = unfinished
  search (suc fuel) (libs, vis, []) = ok libs
  search (suc fuel) (libs, vis, cur ∷ stack) = do
    s ← for_each (look_at cur) dirs (libs, vis, stack)
    search fuel s

  -- `isLegal` counts the liberties of the group at `start`.
  unfoldable pub group_liberties : ℕ → Outcome ℕ
  unfolding search
  group_liberties start = search visits (0, set unvisited start true, start ∷ [])

-- Does the stone `s` that was put at `idx` take a group of the opponent?
unfoldable pub can_capture : List Stone → Stone → ℕ → List ℤ → Outcome Bool
unfolding group_liberties offset
can_capture grid s idx [] = ok false
can_capture grid s idx (d ∷ ds) =
    let rest = can_capture grid s idx ds in
    (do
      next ← offset idx d
      stone ← load grid next
      (if stone_eq stone (opponent s)
          then (do
            libs ← group_liberties grid (opponent s) next
            (if libs == 0 then ok true else rest))
          else rest))

unfoldable pub legal_at : List Stone → Stone → ℕ → Outcome Bool
unfolding can_capture group_liberties
legal_at grid s idx = do
  captures ← can_capture grid s idx dirs
  (if captures then ok true else (do libs ← group_liberties grid s idx; ok (not (libs == 0))))

unfoldable pub legal_index : Stone → Board → ℤ → Outcome Bool
unfolding legal_at
legal_index s b (negsuc _) = undefined
legal_index s b (pos idx) = do
  stone ← load b.grid idx
  (if not (stone_eq stone empty) then ok false else legal_at (set b.grid idx s) s idx)

unfoldable pub is_legal : ℤ → ℤ → Stone → Board → Outcome Bool
unfolding to_index legal_index
is_legal row col s b =
    if not (on_board row col) then ok false else legal_index s b (to_index row col)
