-- ===== src/Game/Text.antt =====
-- The loops of the games' `renderGrid`: a board as text, row by row.
use aimeath.Common.{ℕ, zero, suc, ◌+◌, ◌<◌, ◌≡◌, Outcome, ok, ◌>>=◌, arith}
use aimeath.Common.Json.{String}
use aimeath.Common.Ends.{Ends, Ends->>=}
use Prim.Native.String.{◌++◌ as append}

-- `cell x y` is the text of the cell in column `x` of row `y`.
module _ (cell : ℕ → ℕ → Outcome String) where
  -- `n` cells of row `y`, from column `x` on.
  pub row_text : ℕ → ℕ → ℕ → Outcome String
  row_text zero x y = ok "\n"
  row_text (suc n) x y = do text ← cell x y; rest ← row_text n (suc x) y; ok (append text rest)

  -- `n` rows of `width` cells, from row `y` on.
  unfoldable pub rows_text : ℕ → ℕ → ℕ → Outcome String
  unfolding row_text
  rows_text width zero y = ok ""
  rows_text width (suc n) y = do
    line ← row_text width 0 y
    rest ← rows_text width n (suc y)
    ok (append line rest)

abbrev pub Shown : Outcome String → Type 0
Shown = Ends ⊥ (λ _. Unit {0})

module _ (cell : ℕ → ℕ → Outcome String) (w h : ℕ)
    (shown : (x y : ℕ) → x < w → y < h → Shown (cell x y)) where
  row_text-Shown : (n x y : ℕ) → y < h → x + n ≡ w → Shown (row_text cell n x y)
  unfolding row_text
  row_text-Shown zero x y hy e = tt
  row_text-Shown (suc n) x y hy e =
      Ends->>= ⊥ (λ _. Unit {0}) (λ _. Unit {0}) (cell x y) _ (shown x y (omega arith) hy)
        λ text _.
          Ends->>= ⊥ (λ _. Unit {0}) (λ _. Unit {0}) (row_text cell n (suc x) y) _
            (row_text-Shown n (suc x) y hy (omega arith)) λ rest t. t

  rows_text-from : (n y : ℕ) → y + n ≡ h → Shown (rows_text cell w n y)
  unfolding rows_text
  rows_text-from zero y e = tt
  rows_text-from (suc n) y e =
      Ends->>= ⊥ (λ _. Unit {0}) (λ _. Unit {0}) (row_text cell w 0 y) _
        (row_text-Shown w 0 y (omega arith) (omega arith))
        λ line _.
          Ends->>= ⊥ (λ _. Unit {0}) (λ _. Unit {0}) (rows_text cell w n (suc y)) _
            (rows_text-from n (suc y) (omega arith)) λ rest t. t

  -- The text of a board can be written if that of each cell can.
  pub rows_text-Shown : Shown (rows_text cell w h 0)
  rows_text-Shown = rows_text-from h 0 (omega arith)
