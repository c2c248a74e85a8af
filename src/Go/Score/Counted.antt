-- ===== src/Go/Score/Counted.antt =====
-- The first loop of Board::countScore (board.cpp): the stones of a color.
use aimeath.Common.{
  ℕ, zero, suc, ◌+◌, ◌<◌, ◌≤◌, ◌≡◌, ◌≢◌, refl, sym, subst, ◌∙◌, ap, true, List, [], ◌∷◌, length,
  Outcome, arith, if◌then◌else◌, if_by,
}
use aimeath.Common.Int.{pos}
use aimeath.Common.Ends.{Ends, Ends->>=, Ends-of, Ends-map}
use aimeath.Common.Loops.{for_each, upto}
use aimeath.Go.{Stone, empty, stone_eq, Board, is_border, at}
use aimeath.Go.Cells.{stone_eq→≡, stone_at, IsBordered}
use aimeath.Go.Score.{lines, each_cell, inner, count_own}
use aimeath.Go.Score.Loops.{at-stone_at}
use aimeath.Go.Score.Owned.{color_count}

-- A loop over k, k + 1 and so on, with a property for each number.
upto-Ends :
    {S : Type 0} (F : Type 0) (P : ℕ → S → Type 0) (body : ℕ → S → Outcome S) (k n : ℕ) (s : S)
    → ((i : ℕ) (s : S) → i < k + n → P i s → Ends F (P (suc i)) (body i s))
    → P k s
    → Ends F (P (k + n)) (for_each body (upto k n) s)
unfolding for_each
upto-Ends F P body k zero s keep h = let same : k ≡ k + 0 = omega arith in subst (λ i. P i s) same h
upto-Ends F P body k (suc n) s keep h =
    let same : suc k + n ≡ k + suc n = omega arith in
    Ends->>= F (P (suc k)) (P (k + suc n)) (body k s) _ (keep k s (omega arith) h) λ s' h'.
      subst (λ i. Ends F (P i) (for_each body (upto (suc k) n) s')) same
        (upto-Ends F P body (suc k) n s' (λ i t lt. keep i t (omega arith)) h')

-- The stones of a color among the first cells.
abbrev first_count : List Stone → Stone → ℕ → ℕ
first_count [] color n = 0
first_count (s ∷ grid) color zero = 0
first_count (s ∷ grid) color (suc n) =
    if stone_eq s color then suc (first_count grid color n) else first_count grid color n

first_count-zero : (grid : List Stone) (color : Stone) → first_count grid color 0 ≡ 0
first_count-zero [] color = refl
first_count-zero (s ∷ grid) color = refl

first_count-suc :
    (grid : List Stone) (color : Stone) (i : ℕ)
    → color ≢ empty
    → first_count grid color (suc i) ≡ (
        if stone_eq (stone_at grid i) color
        then first_count grid color i + 1
        else first_count grid color i)
first_count-suc [] color i ne =
    if_by (λ k. 0 ≡ k) (stone_eq empty color) _ _
      (λ own. absurd (ne (sym (stone_eq→≡ empty color own)))) (λ _. refl)
first_count-suc (s ∷ grid) color zero ne = ground (arith, first_count-zero grid color)
first_count-suc (s ∷ grid) color (suc i) ne = ground (arith, first_count-suc grid color i ne)

first_count-length :
    (grid : List Stone) (color : Stone)
    → first_count grid color (length grid) ≡ color_count grid color
first_count-length [] color = refl
first_count-length (s ∷ grid) color = ground (arith, first_count-length grid color)

module _ (b : Board) (bordered : IsBordered b.grid) (color : Stone) (colored : color ≢ empty) where
  abbrev first : ℕ → ℕ
  first = first_count b.grid color

  -- The cells of the border hold none.
  first_count-border :
      (i n : ℕ) → ((j : ℕ) → i ≤ j → j < i + n → is_border j ≡ true) → first (i + n) ≡ first i
  first_count-border i zero outer = let same : i + 0 ≡ i = omega arith in ap first same
  first_count-border i (suc n) outer =
      let next : i + suc n ≡ suc (i + n) = omega arith in
      ap first next
      ∙ first_count-suc b.grid color (i + n) colored
      ∙ if_by (λ k. k ≡ first (i + n)) (stone_eq (stone_at b.grid (i + n)) color) _ _
          (λ own. absurd (
            colored (
              sym (stone_eq→≡ (stone_at b.grid (i + n)) color own)
              ∙ bordered.border (i + n) (outer (i + n) (omega arith) (omega arith)))))
          (λ _. refl)
      ∙ first_count-border i n (λ j le lt. outer j le (omega arith))

  count_own-first_count :
      (r c score : ℕ)
      → r < 19
      → c < 19
      → score ≡ first (inner r c)
      → Ends ⊥ (λ score'. score' ≡ first (inner r (suc c))) (count_own b color r c score)
  count_own-first_count r c score hr hc h =
      let next : suc (inner r c) ≡ inner r (suc c) = omega arith in
      Ends->>= ⊥ (λ a. a ≡ stone_at b.grid (inner r c)) _ (at b (pos r) (pos c)) _
        (Ends-of ⊥ _ (at-stone_at b bordered r c hr hc) refl)
        λ stone e. sym (
          sym (ap first next)
          ∙ first_count-suc b.grid color (inner r c) colored
          ∙ ap (λ k. if stone_eq (stone_at b.grid (inner r c)) color then k + 1 else k) (sym h)
          ∙ ap (λ a. if stone_eq a color then score + 1 else score) (sym e))

  -- From the end of a row to the start of the next one, over two cells of the border.
  next_row : (r : ℕ) → r < 19 → first (inner (suc r) 0) ≡ first (inner r 19)
  next_row r hr =
      let same : inner (suc r) 0 ≡ inner r 19 + 2 = omega arith in
      ap first same ∙ first_count-border (inner r 19) 2 (λ j le lt. ground arith)

  pub count_own-color_count :
      Ends ⊥ (λ own. own ≡ color_count b.grid color) (each_cell (count_own b color) 0)
  unfolding each_cell
  count_own-color_count =
      let before : first 22 ≡ first 0 = first_count-border 0 22 (λ j le lt. ground arith) in
      let after : first 441 ≡ first (inner 19 0) =
        first_count-border 421 20 (λ j le lt. ground arith) in
      Ends-map ⊥ (λ own. own ≡ first (inner 19 0)) _
        (for_each (λ r. for_each (count_own b color r) lines) lines 0)
        (λ own e. e ∙ sym after ∙ ap first (sym bordered.size) ∙ first_count-length b.grid color)
        (upto-Ends ⊥ (λ r own. own ≡ first (inner r 0)) (λ r. for_each (count_own b color r) lines)
          0 19 0
          (λ r score hr h.
            Ends-map ⊥ (λ own. own ≡ first (inner r 19)) _
              (for_each (count_own b color r) lines score) (λ own e. e ∙ sym (next_row r hr))
              (upto-Ends ⊥ (λ c own. own ≡ first (inner r c)) (count_own b color r) 0 19 score
                (λ c own hc e. count_own-first_count r c own hr hc e) h))
          (sym (before ∙ first_count-zero b.grid color)))
