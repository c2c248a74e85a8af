-- ===== src/Gomoku/Whole.antt =====
-- Whole games of GomokuGame (game.cpp).
use aimeath.Common.{
  ℕ, zero, suc, ◌+◌, ◌*◌, ◌<◌, ◌≡◌, refl, sym, ap, subst, ◌∙◌, inl, inr, Bool, true, false, List,
  [], ◌∷◌, arith, ok, ok-injective, ◌>>=◌, set, get_or, get_or-set_ne, length-set, length-replicate,
  replicate, ◌≢◌, ◌≤◌, leb, if_by,
}
use mathlib.Core.Bool.{false≢true}
use aimeath.Common.Int.{ℤ}
use aimeath.Common.Ends.{Ends, Ends->>=, Ends-of, Ends-ok}
use aimeath.Game.Grid.{int_max}
use aimeath.Gomoku.Fair.{IsFair, played, result}
use aimeath.Gomoku.Rules.{tick-IsFair, tick-cases, tick-stone, row_of, col_of}
use aimeath.Gomoku.Stones.{stones, Slot, slot}
use aimeath.Gomoku.{
  Cell, empty, black, white, cell_eq, in_bounds, at, set_at, Game, new_game, tick, play,
}

module _ (g : Game) (row col : ℤ) (fair : IsFair g) (h : in_bounds g.board row col ≡ true)
    (e : at g.board row col ≡ ok empty) (r c : ℤ) (cell : Cell) (hr : in_bounds g.board r c ≡ true)
    (held : at g.board r c ≡ ok cell) (named : cell_eq cell empty ≡ false) where
  s : Slot g.board row col
  s = slot g.board row col fair.sized h

  s' : Slot g.board r c
  s' = slot g.board r c fair.sized hr

  -- The two cells are not the same one.
  apart : s.k ≢ s'.k
  apart same = false≢true (
      sym named
      ∙ ap (λ a. cell_eq a empty)
          (ok-injective (
            sym held
            ∙ s'.reads g.board.cells refl
            ∙ ap (λ k. ok (get_or g.board.cells k empty)) (sym same)
            ∙ sym (s.reads g.board.cells refl)
            ∙ e)))

  played-at : at (played row col g).board r c ≡ ok cell
  played-at =
      ap (λ i. at (record g.board { cells = set_at g.board.cells i g.cur }) r c) s.index
      ∙ s'.reads (set g.board.cells s.k g.cur) (length-set g.board.cells s.k g.cur)
      ∙ ap ok (get_or-set_ne g.board.cells s.k s'.k g.cur empty apart)
      ∙ sym (s'.reads g.board.cells refl)
      ∙ held

result-board : (won : Bool) (g : Game) → (result won g).board ≡ g.board
result-board true g = refl
result-board false g = ground arith

-- A stone on the board of a fair game is still there after a tick.
pub tick-at :
    (position : ℤ) (g g' : Game)
    → IsFair g
    → tick position g ≡ ok g'
    → (r c : ℤ) (cell : Cell) → in_bounds g.board r c ≡ true
    → at g.board r c ≡ ok cell
    → cell_eq cell empty ≡ false
    → at g'.board r c ≡ ok cell
tick-at position g g' fair e r c cell h held named = elim (tick-cases position g fair) [
  | inr same ↦ subst (λ k. at k.board r c ≡ ok cell) (ok-injective (sym same ∙ e)) held
  | inl can ↦
      let (won, e', iff) = tick-stone position g fair can in
      subst (λ k. at k.board r c ≡ ok cell) (ok-injective (sym e' ∙ e))
        (ap (λ b. at b r c) (result-board won (played (row_of position g) (col_of position g) g))
          ∙ played-at g (row_of position g) (col_of position g) fair can.1 can.2 r c cell h held
              named)
]

pub play-IsFair :
    (positions : List ℤ) (g : Game)
    → IsFair g
    → (g' : Game) × (play positions g ≡ ok g') × IsFair g'
unfolding play
play-IsFair [] g fair = (g, refl, fair)
play-IsFair (p ∷ ps) g fair =
    let (g₁, e₁, fair₁) = tick-IsFair p g fair in
    let (g', e, fair') = play-IsFair ps g₁ fair₁ in (g', ap (λ m. m >>= play ps) e₁ ∙ e, fair')

stones-replicate : (n : ℕ) → stones black (replicate n empty) ≡ stones white (replicate n empty) + 0
stones-replicate zero = refl
stones-replicate (suc n) = omega (arith, stones-replicate n)

pub new_game-IsFair : (n : ℕ) → 0 < n → n * n ≤ int_max → Ends ⊥ IsFair (new_game n)
unfolding new_game
new_game-IsFair n side fits =
    if_by
      (λ m.
        Ends ⊥ IsFair
          (m >>= λ b. ok (record { board = b; cur = black; over = false; winner = empty })))
      (leb (n * n) int_max) _ _
      (λ _. record {
        side = side;
        sized = length-replicate (n * n) empty;
        stone = refl;
        turns = stones-replicate (n * n);
        live = λ _. refl;
        ended = λ o. absurd (false≢true o);
      })
      (λ large. absurd (ground (arith, fits)))

-- From a new game on a board with a side of at least one cell, whose cells an `int` can count, any
-- sequence of positions can be played without a fault and leads to a fair game: black has as many
-- stones as white or one more, according to whose turn it is, a game that goes on has no winner, and
-- a game that is over has a line of five of the winner, who put the last stone, or a full board and
-- no winner.
pub play-new_game :
    (positions : List ℤ) (n : ℕ)
    → 0 < n
    → n * n ≤ int_max
    → (g : Game) × (new_game n >>= play positions ≡ ok g) × IsFair g
play-new_game positions n side fits = Ends-ok IsFair (new_game n >>= play positions) (
    Ends->>= ⊥ IsFair IsFair (new_game n) (play positions) (new_game-IsFair n side fits)
      λ g fair. let (g', e, fair') = play-IsFair positions g fair in Ends-of ⊥ IsFair e fair')
