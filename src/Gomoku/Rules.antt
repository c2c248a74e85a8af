-- ===== src/Gomoku/Rules.antt =====
-- GomokuGame::tick (game.cpp), and whole games.
use aimeath.Common.{
  ◌<◌, ◌≡◌, ap, ◌∙◌, ◌⊎◌, ◌↔◌, inl, inr, Bool, true, false, arith, Outcome, ok, undefined,
  Bool-cases, ◌>>=◌, ◌==◌, if◌then◌else◌,
}
use aimeath.Common.Int.{ℤ, ◌/ℤ◌, ◌%ℤ◌}
use aimeath.Gomoku.Line.{at_inside, cell_eq→≡}
use aimeath.Gomoku.Five.{FiveAlong}
use aimeath.Gomoku.Fair.{IsFair, played, result, finish-result, result-IsFair}
use aimeath.Gomoku.Stones.{with_stone, place_outside, place-at}
use aimeath.Gomoku.{Cell, empty, cell_eq, Board, in_bounds, at, place, Game, finish, tick, dirs}

-- The cell that a position names.
abbrev pub row_of : ℤ → Game → ℤ
row_of position g = position /ℤ g.board.size

abbrev pub col_of : ℤ → Game → ℤ
col_of position g = position %ℤ g.board.size

abbrev pub CanPlay : ℤ → Game → Type 0
CanPlay position g =
    (g.over ≡ false)
    × (in_bounds g.board (row_of position g) (col_of position g) ≡ true)
    × (at g.board (row_of position g) (col_of position g) ≡ ok empty)

module _ (position : ℤ) (g : Game) where
  abbrev row : ℤ
  row = row_of position g

  abbrev col : ℤ
  col = col_of position g

  abbrev go_on : Bool × Board → Outcome Game
  go_on (placed, b) = if placed then finish row col (record g { board = b }) else ok g

  tick_over : g.over ≡ true → tick position g ≡ ok g
  unfolding tick
  tick_over over = rw over

  tick_live :
      0 < g.board.size → g.over ≡ false → tick position g ≡ (place row col g.cur g.board >>= go_on)
  unfolding tick
  tick_live side live =
      let sized : (g.board.size == 0) ≡ false = ground arith in
      ap
        (λ o.
          if o
          then ok g
          else (if g.board.size == 0 then undefined else (place row col g.cur g.board >>= go_on)))
        live
      ∙ ap (λ z. if z then undefined else (place row col g.cur g.board >>= go_on)) sized

  module _ (fair : IsFair g) where
    tick_put : CanPlay position g → tick position g ≡ finish row col (played row col g)
    tick_put (live, h, e) =
        tick_live fair.side live ∙ ap (λ o. o >>= go_on) (place-at g.board row col g.cur empty h e)

    tick_outside : g.over ≡ false → in_bounds g.board row col ≡ false → tick position g ≡ ok g
    tick_outside live out =
        tick_live fair.side live ∙ ap (λ o. o >>= go_on) (place_outside g.board row col g.cur out)

    tick_held :
        (a : Cell)
        → g.over ≡ false
        → in_bounds g.board row col ≡ true
        → at g.board row col ≡ ok a
        → cell_eq a empty ≡ false
        → tick position g ≡ ok g
    tick_held a live h e held =
        tick_live fair.side live
        ∙ ap (λ o. o >>= go_on) (place-at g.board row col g.cur a h e)
        ∙ ap (λ t. go_on (if t then (true, with_stone row col g.cur g.board) else (false, g.board)))
            held

    -- Either the stone is put, or nothing changes.
    pub tick-cases : CanPlay position g ⊎ (tick position g ≡ ok g)
    tick-cases = elim (Bool-cases g.over) [
      | inl over ↦ inr (tick_over over)
      | inr live ↦ elim (Bool-cases (in_bounds g.board row col)) [
        | inr out ↦ inr (tick_outside live out)
        | inl h ↦
            let (a, e) = at_inside g.board row col fair.sized h in
            elim (Bool-cases (cell_eq a empty)) [
              | inl free ↦ inl (live, h, e ∙ ap ok (cell_eq→≡ a empty free))
              | inr held ↦ inr (tick_held a live h e held)
            ]
      ]
    ]

-- In a fair game, a tick changes nothing if the game is over, or the position is off the board,
-- or its cell is taken.
pub tick_refused :
    (position : ℤ) (g : Game) → IsFair g → ¬ CanPlay position g → tick position g ≡ ok g
tick_refused position g fair cannot = elim (tick-cases position g fair) [
  | inl can ↦ absurd (cannot can)
  | inr same ↦ same
]

-- In a fair game that is not over, a tick at an empty cell of the board puts a stone of the
-- colour whose turn it is there, and returns: the game is won exactly if the stone makes a line
-- of five through the cell, else it is over if the board is full, else it is the turn of the
-- other colour.
pub tick-stone :
    (position : ℤ) (g : Game)
    → IsFair g
    → CanPlay position g
    → let row = row_of position g in
      let col = col_of position g in
      (won : Bool) × (tick position g ≡ ok (result won (played row col g)))
      × ((won ≡ true) ↔ FiveAlong (played row col g).board row col g.cur dirs)
tick-stone position g fair can =
    let (won, e, iff) = finish-result g (row_of position g) (col_of position g) fair can.1 in
    (won, tick_put position g fair can ∙ e, iff)

-- A tick of a fair game, at any position, returns a fair game without a fault.
pub tick-IsFair :
    (position : ℤ) (g : Game) → IsFair g → (g' : Game) × (tick position g ≡ ok g') × IsFair g'
tick-IsFair position g fair = elim (tick-cases position g fair) [
  | inr same ↦ (g, same, fair)
  | inl can ↦
      let (won, e, iff) = tick-stone position g fair can in
      (
        _,
        e,
        result-IsFair g (row_of position g) (col_of position g) fair can.1 can.0 can.2 won iff.0,
      )
]
