-- ===== src/Pacman/Fill.antt =====
-- Board::generateBeans (board.cpp).
use aimeath.Common.{
  ℕ, ◌+◌, ◌*◌, ◌≤◌, ◌<◌, ◌≡◌, ◌≢◌, sym, ap, ◌∙◌, inl, inr, true, false, length, set, length-set,
  get_or-set_self, get_or-set_ne, if◌then◌else◌, ◌==◌, ==→≡, ==→≢, arith, ok, Bool-cases, ◌&&◌,
}
use aimeath.Common.Int.{pos, inc}
use aimeath.Game.Grid.{grid_index_pos, grid_index-lt, grid_index_inj, get_elem?-grid_index}
use aimeath.Pacman.{Board, place_bean}
use aimeath.Pacman.Beans.{count_beans, bean_at, count_beans-set-true}

abbrev pub cell : ℕ → ℕ → ℕ → ℕ
cell w x y = y * w + x

abbrev pub planted : Board → ℕ → Board
planted b i = record b { beans = set b.beans i true; bean_count = inc b.bean_count }

-- The board after one round that draws the cell `x`, `y`.
abbrev pub chosen : ℕ → ℕ → ℕ → Board → ℕ → ℕ → ℕ → Board × ℕ
chosen w ax ay b placed x y =
    if x == ax && y == ay
    then (b, placed)
    else (if bean_at b.beans (cell w x y)
        then (b, placed)
        else (planted b (cell w x y), placed + 1))

module _ (w h ax ay : ℕ) where
  -- The beans are counted, and the cell to avoid has none.
  pub record IsFilled (b : Board) (placed : ℕ) : Type 0 where
    pub sides : (b.width ≡ w) × (b.height ≡ h)
    pub size : length b.beans ≡ w * h
    pub counted : b.bean_count ≡ pos (count_beans b.beans)
    pub total : placed ≡ count_beans b.beans
    pub avoided : bean_at b.beans (cell w ax ay) ≡ false

  -- What one round leaves.
  pub record Round (b : Board) (placed x y : ℕ) (r : Board × ℕ) : Type 0 where
    pub filled : IsFilled r.0 r.1
    pub grows : (placed ≤ r.1) × (r.1 ≤ placed + 1)
    pub keeps : (i : ℕ) → bean_at b.beans i ≡ true → bean_at r.0.beans i ≡ true
    pub reached : cell w x y ≢ cell w ax ay → bean_at r.0.beans (cell w x y) ≡ true

  module _ (hax : ax < w) (b : Board) (placed x y : ℕ) (hx : x < w) (hy : y < h)
      (f : IsFilled b placed) where
    plants :
        bean_at b.beans (cell w x y) ≡ false
        → cell w x y ≢ cell w ax ay
        → Round b placed x y (planted b (cell w x y), placed + 1)
    unfolding inc
    plants free ne =
        let lt : cell w x y < length b.beans = rw f.size (grid_index-lt w h y x hy hx) in
        let more = count_beans-set-true b.beans (cell w x y) lt free in
        record {
          filled = record {
            sides = f.sides;
            size = length-set b.beans (cell w x y) true ∙ f.size;
            counted = rw (f.counted, more) (ap pos (omega arith));
            total = omega (arith, more, f.total);
            avoided = get_or-set_ne b.beans (cell w x y) (cell w ax ay) true false ne ∙ f.avoided;
          };
          grows = omega arith;
          keeps = λ i e. elim (Bool-cases (i == cell w x y)) [
            | inl same ↦
                rw (==→≡ i (cell w x y) same) (get_or-set_self b.beans (cell w x y) true false lt)
            | inr other ↦
                get_or-set_ne b.beans (cell w x y) i true false
                  (λ q. ==→≢ i (cell w x y) other (sym q))
                ∙ e
          ];
          reached = λ _. get_or-set_self b.beans (cell w x y) true false lt;
        }

    pub place_bean-eq :
        place_bean (pos ax) (pos ay) (pos x) (pos y) (b, placed) ≡ ok (chosen w ax ay b placed x y)
    unfolding place_bean
    place_bean-eq = rw f.sides.0 (
        rw (grid_index_pos w y x)
          (ground (arith, get_elem?-grid_index w h b.beans f.size y x hy hx false)))

    unchanged :
        (cell w x y ≢ cell w ax ay → bean_at b.beans (cell w x y) ≡ true)
        → Round b placed x y (b, placed)
    unchanged r = record { filled = f; grows = omega arith; keeps = λ i e. e; reached = r }

    pub place_bean-Round : Round b placed x y (chosen w ax ay b placed x y)
    place_bean-Round = elim (Bool-cases (x == ax && y == ay)) [
      | inl avoid ↦ rw avoid (unchanged (λ ne. absurd (ne (ground arith))))
      | inr other ↦ rw other (elim (Bool-cases (bean_at b.beans (cell w x y))) [
        | inl held ↦ rw held (unchanged (λ _. held))
        | inr free ↦
            rw free (plants free (λ e. ground (arith, grid_index_inj w y ay x ax hx hax e)))
      ])
    ]
