-- ===== src/Go/Score.antt =====
-- The rest of Board (board.cpp): the hash, the marks on dead stones, the score and the text of the
-- board.
pub mod Loops
pub mod Owned
pub mod Counted
pub mod Territory
pub mod Marks
use package.aimeath.Common.{
  ℕ, zero, suc, ◌+◌, ◌*◌, ◌/◌, ◌%◌, ◌^◌, Bool, true, false, not, ◌&&◌, ◌||◌, List, [], ◌∷◌, set,
  replicate, if◌then◌else◌, ◌==◌, Outcome, ok, undefined, unfinished, ◌>>=◌,
}
use package.aimeath.Common.Int.{ℤ, pos, negsuc}
use package.aimeath.Common.Json.{String}
use package.aimeath.Common.Loops.{for_each, upto}
use package.aimeath.Game.Text.{rows_text}
use package.aimeath.Go.{
  Stone, empty, black, white, stone_eq, Board, size, cells, is_border, on_board, to_index, at, dirs,
  offset, load, visits, unvisited,
}

-- 0 to 18.
abbrev pub lines : List ℕ
lines = upto 0 19

-- The two nested loops over the rows and the columns.
unfoldable pub each_cell : {S : Type 0} → (ℕ → ℕ → S → Outcome S) → S → Outcome S
unfolding for_each
each_cell body = for_each (λ r. for_each (body r) lines) lines

-- `toIndex(r + 1, c + 1)` of a row and a column on the board.
abbrev pub inner : ℕ → ℕ → ℕ
inner r c = (r + 1) * 21 + (c + 1)

-- `a ^ b` on numbers of so many bits.
pub xor : ℕ → ℕ → ℕ → ℕ
xor zero a b = 0
xor (suc bits) a b = (a % 2 + b % 2) % 2 + 2 * xor bits (a / 2) (b / 2)

abbrev pub code : Stone → ℕ
code empty = 0
code black = 1
code white = 2

abbrev pub prime : ℕ
prime = 1099511628211

pub hash_cell : List Stone → ℕ → ℕ → ℕ → Outcome ℕ
unfolding xor
hash_cell grid r c h = do
  stone ← load grid (inner r c)
  let h₁ = xor 64 h (code stone) * prime % 2 ^ 64
  ok (xor 64 h₁ (r * size + c) * prime % 2 ^ 64)

unfoldable pub hash : Board → Outcome ℕ
unfolding hash_cell
hash b = each_cell (hash_cell b.grid) 14695981039346656037

pub mark_index : Board → ℤ → Outcome (Bool × Board)
mark_index b (negsuc _) = undefined
mark_index b (pos idx) = do
  stone ← load b.grid idx
  mark ← load b.dead idx
  ok (
      if stone_eq stone empty
      then (false, b)
      else (true, record b { dead = set b.dead idx (not mark) }))

unfoldable pub mark_dead : ℤ → ℤ → Board → Outcome (Bool × Board)
unfolding mark_index to_index
mark_dead row col b =
    if not (on_board row col) then ok (false, b) else mark_index b (to_index row col)

abbrev pub remove_dead : ℕ → ℕ → Board × ℕ → Outcome (Board × ℕ)
remove_dead r c (b, count) = do
  stone ← load b.grid (inner r c)
  mark ← load b.dead (inner r c)
  ok (
      if mark && not (stone_eq stone empty)
      then (
        record b { grid = set b.grid (inner r c) empty; dead = set b.dead (inner r c) false },
        count + 1,
      )
      else (b, count))

-- The board, and the number of stones removed.
unfoldable pub remove_dead_stones : Board → Outcome (Board × ℕ)
remove_dead_stones b = each_cell remove_dead (b, 0)

unfoldable pub clear_dead_marks : Board → Board
clear_dead_marks b = record b { dead = replicate cells false }

unfoldable pub is_marked_dead : ℤ → ℤ → Board → Outcome Bool
unfolding to_index
is_marked_dead row col b =
    if not (on_board row col)
    then ok false
    else elim (to_index row col) [ negsuc _ ↦ undefined | pos idx ↦ load b.dead idx ]

module _ (grid : List Stone) (color : Stone) where
  -- The neighbours at `ds` and the total so far. A negative answer ends the loop.
  abbrev pub territory_around :
      (ℕ → List Bool → Outcome (ℤ × List Bool))
      → ℕ
      → List ℤ
      → ℕ
      → List Bool
      → Outcome (ℤ × List Bool)
  territory_around rec idx [] total visited = ok (pos total, visited)
  territory_around rec idx (d ∷ ds) total visited = do
    next ← offset idx d
    (t, visited') ← rec next visited
    elim t [
      | negsuc n ↦ ok (negsuc n, visited')
      | pos n ↦ territory_around rec idx ds (total + n) visited'
    ]

  -- A cell that was not visited: is it on the border, of the color, empty?
  abbrev pub territory_stone :
      (ℕ → List Bool → Outcome (ℤ × List Bool))
      → ℕ
      → List Bool
      → Bool
      → Bool
      → Bool
      → Outcome (ℤ × List Bool)
  territory_stone rec idx visited true own vacant = ok (pos 0, set visited idx true)
  territory_stone rec idx visited false true vacant = ok (pos 1, set visited idx true)
  territory_stone rec idx visited false false false = ok (negsuc 9998, set visited idx true)
  territory_stone rec idx visited false false true =
      territory_around rec idx dirs 0 (set visited idx true)

  abbrev pub territory_cell :
      (ℕ → List Bool → Outcome (ℤ × List Bool)) → ℕ → List Bool → Bool → Outcome (ℤ × List Bool)
  territory_cell rec idx visited true = ok (pos 0, visited)
  territory_cell rec idx visited false = do
    stone ← load grid idx
    territory_stone rec idx visited (is_border idx) (stone_eq stone color) (stone_eq stone empty)

  pub count_territory : ℕ → ℕ → List Bool → Outcome (ℤ × List Bool)
  unfolding offset
  count_territory zero idx visited = unfinished
  count_territory (suc fuel) idx visited = do
    seen ← load visited idx
    territory_cell (count_territory fuel) idx visited seen

abbrev pub count_own : Board → Stone → ℕ → ℕ → ℕ → Outcome ℕ
count_own b s r c score = do
  stone ← at b (pos r) (pos c)
  ok (if stone_eq stone s then score + 1 else score)

-- The territory that the cell `idx` begins, where it was not visited yet.
abbrev pub add_territory : Board → Stone → ℕ → ℕ × List Bool → Bool → Outcome (ℕ × List Bool)
add_territory b s idx (score, visited) true = ok (score, visited)
add_territory b s idx (score, visited) false = do
  (t, copy) ← count_territory b.grid s visits idx visited
  ok (elim t [ pos (suc n) ↦ (score + suc n, copy) | _ ↦ (score, visited) ])

abbrev pub score_cell : Board → Stone → ℕ → ℕ → ℕ × List Bool → Outcome (ℕ × List Bool)
score_cell b s r c (score, visited) = do
  stone ← at b (pos r) (pos c)
  (if not (stone_eq stone empty) then ok (score, visited) else (do
    seen ← load visited (inner r c)
    add_territory b s (inner r c) (score, visited) seen))

unfoldable pub count_score : Board → Stone → Outcome ℕ
unfolding at count_territory
count_score b s = do
  own ← each_cell (count_own b s) 0
  (score, _) ← each_cell (score_cell b s) (own, unvisited)
  ok score

abbrev pub stone_char : Stone → String
stone_char black = "B"
stone_char white = "W"
stone_char empty = "."

abbrev pub cell_text : Board → ℕ → ℕ → Outcome String
cell_text b c r = do stone ← at b (pos r) (pos c); ok (stone_char stone)

unfoldable pub render_grid : Board → Outcome String
unfolding rows_text at
render_grid b = rows_text (cell_text b) size size 0
