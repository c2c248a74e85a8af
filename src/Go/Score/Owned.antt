-- ===== src/Go/Score/Owned.antt =====
-- The stones of one color among visited cells (board.cpp).
use aimeath.Common.{
  ℕ, zero, suc, ◌+◌, ◌<◌, ◌≤◌, ◌≡◌, ◌≢◌, refl, sym, Bool, true, false, List, [], ◌∷◌, length, set,
  replicate, arith, if◌then◌else◌, ◌&&◌,
}
use aimeath.Common.Loops.{marked}
use aimeath.Go.{Stone, empty, stone_eq}
use aimeath.Go.Cells.{stone_eq→≡, stone_at}

-- The stones of one color.
abbrev pub color_count : List Stone → Stone → ℕ
color_count [] color = 0
color_count (s ∷ grid) color =
    if stone_eq s color then suc (color_count grid color) else color_count grid color

-- The stones of one color that were visited.
abbrev pub owned : List Stone → Stone → List Bool → ℕ
owned [] color v = 0
owned (s ∷ grid) color [] = 0
owned (s ∷ grid) color (m ∷ v) =
    if m && stone_eq s color then suc (owned grid color v) else owned grid color v

pub owned-color_count :
    (grid : List Stone) (color : Stone) (v : List Bool)
    → owned grid color v ≤ color_count grid color
owned-color_count [] color v = omega arith
owned-color_count (s ∷ grid) color [] = omega arith
owned-color_count (s ∷ grid) color (m ∷ v) = ground (arith, owned-color_count grid color v)

pub owned-unvisited :
    (grid : List Stone) (color : Stone) (n : ℕ) → owned grid color (replicate n false) ≡ 0
owned-unvisited [] color n = refl
owned-unvisited (s ∷ grid) color zero = refl
owned-unvisited (s ∷ grid) color (suc n) = owned-unvisited grid color n

pub owned-set :
    (grid : List Stone) (color : Stone) (v : List Bool) (i : ℕ)
    → owned grid color v ≤ owned grid color (set v i true)
owned-set [] color v i = omega arith
owned-set (s ∷ grid) color [] i = omega arith
owned-set (s ∷ grid) color (m ∷ v) zero = ground arith
owned-set (s ∷ grid) color (m ∷ v) (suc i) = ground (arith, owned-set grid color v i)

pub owned-set_own :
    (grid : List Stone) (color : Stone) (v : List Bool) (i : ℕ)
    → i < length v
    → color ≢ empty
    → marked v i ≡ false
    → stone_eq (stone_at grid i) color ≡ true
    → owned grid color v + 1 ≤ owned grid color (set v i true)
owned-set_own [] color v i lt ne new own = absurd (ne (sym (stone_eq→≡ empty color own)))
owned-set_own (s ∷ grid) color [] i lt ne new own = absurd (omega arith)
owned-set_own (s ∷ grid) color (m ∷ v) zero lt ne new own = ground arith
owned-set_own (s ∷ grid) color (m ∷ v) (suc i) lt ne new own =
    ground (arith, owned-set_own grid color v i)
