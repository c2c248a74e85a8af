-- ===== src/Go/Waiting.antt =====
-- The cells that wait on the stack of Board::isLegal (board.cpp).
use aimeath.Common.{
  ℕ, ◌+◌, ◌<◌, ◌≡◌, ◌≢◌, sym, subst, ◌∙◌, ◌⊎◌, inl, inr, true, false, List, ◌∷◌, length, set,
  length-set, get_or-set_self, arith,
}
use mathlib.Core.List.{Memᴰ}
use mathlib.Core.List.Memᴰ
use aimeath.Common.Loops.{marked, marked-set, marked-set_keeps, unmarked}
use aimeath.Go.{Stone, empty, cells, is_border}
use aimeath.Go.Simulate.{Search}
use aimeath.Go.Cells.{Next, stone_at, Liberty, free, Handled}
use aimeath.Go.Counted.{Handled-later}

-- The sum of the flags to set and of the stack falls with each round of the loop.
abbrev pub work : Search → ℕ
work s = unmarked s.1 + length s.2

module _ (grid : List Stone) (color : Stone) (start : ℕ) where
  -- A cell that was marked has its neighbours marked, waits on the stack, or is `busy`.
  pub record Inv (busy : ℕ → Type 0) (s : Search) : Type 0 where
    pub size : length s.1 ≡ cells
    pub started : marked s.1 start ≡ true
    pub stacked :
        (i : ℕ)
        → Memᴰ i s.2
        → (marked s.1 i ≡ true)
          × (stone_at grid i ≡ color)
          × (i < cells)
          × (Liberty grid color i → Liberty grid color start)
    pub closed :
        (i : ℕ)
        → marked s.1 i ≡ true
        → stone_at grid i ≡ color
        → Memᴰ i s.2 ⊎ busy i ⊎ ((j : ℕ) → Next i j → Handled grid color s.1 j)
    pub none : s.0 ≡ 0 → (i : ℕ) → marked s.1 i ≡ true → stone_at grid i ≢ empty
    pub found : s.0 ≢ 0 → Liberty grid color start

  module _ (busy : ℕ → Type 0) (s : Search) (inv : Inv busy s) (next : ℕ) (lt : next < cells)
      (new : marked s.1 next ≡ false)
      (lead : Liberty grid color next → Liberty grid color start) where
    pub keeps : (i : ℕ) → marked s.1 i ≡ true → marked (set s.1 next true) i ≡ true
    keeps i m = marked-set_keeps s.1 next i m

    pub Inv-liberty :
        stone_at grid next ≡ empty
        → is_border next ≡ false
        → color ≢ empty
        → Inv busy (s.0 + 1, set s.1 next true, s.2)
    Inv-liberty e inside colored = record {
      size = length-set s.1 next true ∙ inv.size;
      started = keeps start inv.started;
      stacked = λ i m. let (a, b, c, d) = inv.stacked i m in (keeps i a, b, c, d);
      closed = λ i m own. elim (marked-set s.1 next i m) [
        | inl old ↦ elim (inv.closed i old own) [
          | inl waits ↦ inl waits
          | inr (inl b) ↦ inr (inl b)
          | inr (inr around) ↦
              inr (inr λ j n. Handled-later grid color s.1 (set s.1 next true) j keeps (around j n))
        ]
        | inr same ↦ absurd (colored (sym own ∙ subst (λ k. stone_at grid k ≡ empty) (sym same) e))
      ];
      none = λ z. absurd (omega (arith, z));
      found = λ _. lead (free e inside);
    }

    pub Inv-push :
        stone_at grid next ≡ color → color ≢ empty → Inv busy (s.0, set s.1 next true, next ∷ s.2)
    Inv-push own colored = record {
      size = length-set s.1 next true ∙ inv.size;
      started = keeps start inv.started;
      stacked = λ i m. elim (Memᴰ.cases_cons m) [
        | inl same ↦
            subst
              (λ k.
                (marked (set s.1 next true) k ≡ true)
                × (stone_at grid k ≡ color)
                × (k < cells)
                × (Liberty grid color k → Liberty grid color start))
              (sym same) (get_or-set_self s.1 next true false (rw inv.size lt), own, lt, lead)
        | inr old ↦ let (a, b, c, d) = inv.stacked i old in (keeps i a, b, c, d)
      ];
      closed = λ i m own. elim (marked-set s.1 next i m) [
        | inl old ↦ elim (inv.closed i old own) [
          | inl waits ↦ inl (Memᴰ.tail waits)
          | inr (inl b) ↦ inr (inl b)
          | inr (inr around) ↦
              inr (inr λ j n. Handled-later grid color s.1 (set s.1 next true) j keeps (around j n))
        ]
        | inr same ↦ inl (Memᴰ.head same)
      ];
      none = λ z i m e. elim (marked-set s.1 next i m) [
        | inl old ↦ inv.none z i old e
        | inr same ↦ colored (sym own ∙ subst (λ k. stone_at grid k ≡ empty) same e)
      ];
      found = inv.found;
    }
