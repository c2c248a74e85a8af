-- ===== src/Gomoku/Fair.antt =====
-- What GomokuGame (game.cpp) keeps: whose turn it is, and how a game ends. The part of `tick` after
-- a stone was put.
use aimeath.Common.{
  ℕ, ◌+◌, ◌<◌, ◌≡◌, refl, sym, ap, subst, ◌∙◌, ◌⊎◌, ◌↔◌, inl, inr, Bool, true, false, arith, ok,
  ok-injective, Bool-cases, ◌>>=◌, if◌then◌else◌, set, length, get_or, get_or-set_self, length-set,
}
use mathlib.Core.Bool.{false≢true}
use aimeath.Common.Int.{ℤ}
use aimeath.Gomoku.Line.{IsSized}
use aimeath.Gomoku.Five.{FiveAlong, check_win-five}
use aimeath.Gomoku.Stones.{stones, stones-set, Slot, slot, with_stone}
use aimeath.Gomoku.{
  Cell, empty, black, white, cell_eq, Board, in_bounds, at, set_at, Game, finish, is_full, dirs,
}

-- A line of five stones through a cell that holds one of them.
abbrev pub Wins : Board → Cell → Type 0
Wins b cell = (row : ℤ) × (col : ℤ) × (at b row col ≡ ok cell) × FiveAlong b row col cell dirs

-- How many more stones black has than white: while the game goes on, one if it is white's turn;
-- after the last stone, one if that was black's.
abbrev pub lead : Game → ℕ
lead g = if cell_eq g.cur (if g.over then black else white) then 1 else 0

abbrev pub Ended : Game → Type 0
Ended g = (g.winner ≡ g.cur) × Wins g.board g.cur ⊎ (g.winner ≡ empty) × (is_full g.board ≡ true)

pub record IsFair (g : Game) : Type 0 where
  pub side : 0 < g.board.size
  pub sized : IsSized g.board
  pub stone : cell_eq g.cur empty ≡ false
  pub turns : stones black g.board.cells ≡ stones white g.board.cells + lead g
  pub live : g.over ≡ false → g.winner ≡ empty
  pub ended : g.over ≡ true → Ended g

-- The game after the stone was put on the cell.
abbrev pub played : ℤ → ℤ → Game → Game
played row col g = record g { board = with_stone row col g.cur g.board }

-- The other colour.
abbrev pub next_turn : Cell → Cell
next_turn c = if cell_eq c black then white else black

-- What the stone leads to.
abbrev pub result : Bool → Game → Game
result won g =
    if won
    then record g { winner = g.cur; over = true }
    else (if is_full g.board then record g { over = true } else record g { cur = next_turn g.cur })

abbrev one_if : Bool → ℕ
one_if t = if t then 1 else 0

lead_turned :
    (c : Cell) (over : Bool)
    → over ≡ false
    → cell_eq c empty ≡ false
    → one_if (cell_eq (next_turn c) (if over then black else white)) ≡ one_if (cell_eq c black)
lead_turned c over live stone = ground (arith, live)

module _ (g : Game) (row col : ℤ) (fair : IsFair g) (h : in_bounds g.board row col ≡ true) where
  s : Slot g.board row col
  s = slot g.board row col fair.sized h

  put_at : (played row col g).board.cells ≡ set g.board.cells s.k g.cur
  put_at = ap (λ i. set_at g.board.cells i g.cur) s.index

  IsSized-after : IsSized (played row col g).board
  IsSized-after = ap length put_at ∙ length-set g.board.cells s.k g.cur ∙ fair.sized

  at_after : at (played row col g).board row col ≡ ok g.cur
  at_after =
      s.reads (played row col g).board.cells (ap length put_at ∙ length-set g.board.cells s.k g.cur)
      ∙ ap (λ cs. ok (get_or cs s.k empty)) put_at
      ∙ ap ok (get_or-set_self g.board.cells s.k g.cur empty s.inside)

  -- The stone wins if it is in a line of five.
  pub finish-result :
      (won : Bool) × (finish row col (played row col g) ≡ ok (result won (played row col g)))
      × ((won ≡ true) ↔ FiveAlong (played row col g).board row col g.cur dirs)
  unfolding finish
  finish-result =
      let (won, e, iff) =
        check_win-five (played row col g).board row col g.cur IsSized-after at_after in
      (won, ap (λ o. o >>= λ won. ok (result won (played row col g))) e, iff)

  module _ (live : g.over ≡ false) (e : at g.board row col ≡ ok empty) where
    stones_after :
        (c : Cell)
        → cell_eq c empty ≡ false
        → stones c (played row col g).board.cells
          ≡ stones c g.board.cells + (if cell_eq c g.cur then 1 else 0)
    stones_after c named =
        ap (stones c) put_at
        ∙ stones-set c g.cur g.board.cells s.k named s.inside
            (ok-injective (sym (s.reads g.board.cells refl) ∙ e))

    turns_after :
        stones black (played row col g).board.cells
        ≡ stones white (played row col g).board.cells + (if cell_eq g.cur black then 1 else 0)
    turns_after =
        ground
          (arith, fair.turns, live, fair.stone, stones_after black refl, stones_after white refl)

    pub result-IsFair :
        (won : Bool)
        → (won ≡ true → FiveAlong (played row col g).board row col g.cur dirs)
        → IsFair (result won (played row col g))
    result-IsFair true five = record {
      side = fair.side;
      sized = IsSized-after;
      stone = fair.stone;
      turns = turns_after;
      live = λ o. absurd (false≢true (sym o));
      ended = λ _. inl (refl, (row, col, at_after, five refl));
    }
    result-IsFair false five = elim (Bool-cases (is_full (played row col g).board)) [
      | inl full ↦
          subst IsFair
            (sym (ap (λ f. if f then record (played row col g) { over = true } else turned) full))
            (record {
              side = fair.side;
              sized = IsSized-after;
              stone = fair.stone;
              turns = turns_after;
              live = λ o. absurd (false≢true (sym o));
              ended = λ _. inr (fair.live live, full);
            })
      | inr free ↦
          subst IsFair
            (sym (ap (λ f. if f then record (played row col g) { over = true } else turned) free))
            (record {
              side = fair.side;
              sized = IsSized-after;
              stone = ground arith;
              turns =
                  turns_after
                  ∙ ap (λ n. stones white (played row col g).board.cells + n)
                      (sym (lead_turned g.cur g.over live fair.stone));
              live = λ _. fair.live live;
              ended = λ o. absurd (false≢true (sym live ∙ o));
            })
    ]
      where
        turned : Game
        turned = record (played row col g) { cur = next_turn g.cur }
