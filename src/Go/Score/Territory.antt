-- ===== src/Go/Score/Territory.antt =====
-- Board::countTerritory and Board::countScore (board.cpp).
use aimeath.Common.{
  ℕ, zero, suc, ◌+◌, ◌*◌, ◌<◌, ◌≤◌, ◌≡◌, ◌≢◌, refl, subst, ◌∙◌, Bool, true, false, List, [], ◌∷◌,
  Outcome, ok, length, set, length-set, length-replicate, arith, not,
}
use mathlib.Core.List.{Memᴰ}
use aimeath.Common.Int.{ℤ, pos, negsuc}
use aimeath.Common.Ends.{Ends, Ends->>=, Ends-of, Ends-ok, Ends-if_cases}
use aimeath.Common.Loops.{marked, unmarked, unmarked-set, unmarked_le}
use aimeath.Go.{
  Stone, empty, stone_eq, Board, cells, is_border, at, dirs, offset, load, visits, unvisited,
}
use aimeath.Go.Cells.{load-get_or, offset_in, stone_at, IsBordered, load_stone}
use aimeath.Go.Score.{
  each_cell, inner, territory_around, territory_stone, territory_cell, count_territory, count_own,
  add_territory, score_cell, count_score,
}
use aimeath.Go.Score.Loops.{each_cell-Ends, inner-lt, at-stone_at}
use aimeath.Go.Score.Counted.{count_own-color_count}
use aimeath.Go.Score.Owned.{color_count, owned, owned-color_count, owned-set, owned-set_own}

module _ (grid : List Stone) (bordered : IsBordered grid) (color : Stone)
    (colored : color ≢ empty) where
  -- What an answer adds is at most the number of stones of the color that it visited.
  abbrev Gain : List Bool → ℤ → List Bool → Type 0
  Gain v (pos n) v' = owned grid color v + n ≤ owned grid color v'
  Gain v (negsuc n) v' = Unit

  record Visited (v : List Bool) (r : ℤ × List Bool) : Type 0 where
    size : length r.1 ≡ cells
    fewer : unmarked r.1 ≤ unmarked v
    gain : Gain v r.0 r.1

  Visited-set :
      (v : List Bool) (idx n : ℕ)
      → length v ≡ cells
      → idx < cells
      → marked v idx ≡ false
      → owned grid color v + n ≤ owned grid color (set v idx true)
      → Visited v (pos n, set v idx true)
  Visited-set v idx n size lt new gain = record {
    size = length-set v idx true ∙ size;
    fewer = omega (arith, unmarked-set v idx new (rw size lt));
    gain = gain;
  }

  module _ (rec : ℕ → List Bool → Outcome (ℤ × List Bool)) (fuel : ℕ)
      (visits_all : (idx : ℕ) (v : List Bool)
        → idx < cells
        → length v ≡ cells
        → unmarked v < fuel
        → Ends ⊥ (Visited v) (rec idx v))
      (idx : ℕ) (idx_lt : idx < cells) where
    territory_around-Visited :
        (v : List Bool)
        → is_border idx ≡ false
        → unmarked v < suc fuel
        → (ds : List ℤ) → ((d : ℤ) → Memᴰ d ds → Memᴰ d dirs)
        → (total : ℕ) (u : List Bool) → length u ≡ cells
        → suc (unmarked u) ≤ unmarked v
        → owned grid color v + total ≤ owned grid color u
        → Ends ⊥ (Visited v) (territory_around grid color rec idx ds total u)
    territory_around-Visited v inside enough [] sub total u size fewer gain = record {
      size = size;
      fewer = omega arith;
      gain = gain;
    }
    territory_around-Visited v inside enough (d ∷ ds) sub total u size fewer gain =
        let (n, e, lt) = offset_in idx d idx_lt inside (sub d (Memᴰ.head refl)) in
        Ends->>= ⊥ (λ k. k < cells) (Visited v) (offset idx d) _ (Ends-of ⊥ _ e lt)
          λ k k_lt.
            Ends->>= ⊥ (Visited u) (Visited v) (rec k u) _ (visits_all k u k_lt size (omega arith))
              λ (t, u') r. go t u' r (λ n more fewer'.
                territory_around-Visited v inside enough ds (λ b m. sub b (Memᴰ.tail m)) (total + n)
                  u' r.size fewer' more)
      where
        go :
            (t : ℤ) (u' : List Bool)
            → Visited u (t, u')
            → ((n : ℕ)
                → owned grid color v + (total + n) ≤ owned grid color u'
                → suc (unmarked u') ≤ unmarked v
                → Ends ⊥ (Visited v) (territory_around grid color rec idx ds (total + n) u'))
            → Ends ⊥ (Visited v) (elim t [
              | negsuc n ↦ ok (negsuc n, u')
              | pos n ↦ territory_around grid color rec idx ds (total + n) u'
            ])
        go (negsuc n) u' r next = record {
          size = r.size;
          fewer = omega (arith, r.fewer);
          gain = tt;
        }
        go (pos n) u' r next = next n (omega (arith, r.gain)) (omega (arith, r.fewer))

    territory_stone-Visited :
        (v : List Bool)
        → length v ≡ cells
        → unmarked v < suc fuel
        → marked v idx ≡ false
        → (border own vacant : Bool) → is_border idx ≡ border
        → stone_eq (stone_at grid idx) color ≡ own
        → Ends ⊥ (Visited v) (territory_stone grid color rec idx v border own vacant)
    territory_stone-Visited v size enough new true own vacant b o =
        Visited-set v idx 0 size idx_lt new (omega (arith, owned-set grid color v idx))
    territory_stone-Visited v size enough new false true vacant b o =
        Visited-set v idx 1 size idx_lt new
          (owned-set_own grid color v idx (rw size idx_lt) colored new o)
    territory_stone-Visited v size enough new false false false b o = record {
      size = length-set v idx true ∙ size;
      fewer = omega (arith, unmarked-set v idx new (rw size idx_lt));
      gain = tt;
    }
    territory_stone-Visited v size enough new false false true b o =
        territory_around-Visited v b enough dirs (λ d m. m) 0 (set v idx true)
          (length-set v idx true ∙ size) (omega (arith, unmarked-set v idx new (rw size idx_lt)))
          (omega (arith, owned-set grid color v idx))

    territory_cell-Visited :
        (v : List Bool)
        → length v ≡ cells
        → unmarked v < suc fuel
        → (seen : Bool) → marked v idx ≡ seen
        → Ends ⊥ (Visited v) (territory_cell grid color rec idx v seen)
    territory_cell-Visited v size enough true m = record {
      size = size;
      fewer = omega arith;
      gain = omega arith;
    }
    territory_cell-Visited v size enough false new =
        let Q : Stone → Type 0 = λ s. Ends ⊥ (Visited v) (
          territory_stone grid color rec idx v (is_border idx) (stone_eq s color)
            (stone_eq s empty)) in
        Ends->>= ⊥ (λ s. stone_at grid idx ≡ s) (Visited v) (load grid idx) _
          (Ends-of ⊥ _ (load_stone grid bordered idx idx_lt) refl)
          λ s e. subst Q e (territory_stone-Visited v size enough new _ _ _ refl refl)

  count_territory-Visited :
      (fuel idx : ℕ) (v : List Bool)
      → idx < cells
      → length v ≡ cells
      → unmarked v < fuel
      → Ends ⊥ (Visited v) (count_territory grid color fuel idx v)
  unfolding count_territory
  count_territory-Visited zero idx v lt size enough = absurd (omega arith)
  count_territory-Visited (suc fuel) idx v lt size enough =
      Ends->>= ⊥ (λ seen. marked v idx ≡ seen) (Visited v) (load v idx) _
        (Ends-of ⊥ _ (load-get_or v idx false (rw size lt)) refl)
        (territory_cell-Visited (count_territory grid color fuel) fuel
          (count_territory-Visited fuel) idx lt v size enough)

module _ (b : Board) (bordered : IsBordered b.grid) (s : Stone) (colored : s ≢ empty)
    (own : ℕ) where
  -- The score so far is the number of stones and at most the stones visited.
  record Scored (r : ℕ × List Bool) : Type 0 where
    size : length r.1 ≡ cells
    least : own ≤ r.0
    most : r.0 ≤ own + owned b.grid s r.1

  add_territory-Scored :
      (idx score : ℕ) (v : List Bool)
      → idx < cells
      → Scored (score, v)
      → (seen : Bool) → Ends ⊥ Scored (add_territory b s idx (score, v) seen)
  add_territory-Scored idx score v lt h true = h
  add_territory-Scored idx score v lt h false =
      Ends->>= ⊥ (Visited b.grid bordered s colored v) Scored
        (count_territory b.grid s visits idx v) _
        (count_territory-Visited b.grid bordered s colored visits idx v lt h.size
          (omega (arith, unmarked_le v, h.size)))
        λ (t, u) r. go t u r
    where
      go :
          (t : ℤ) (u : List Bool)
          → Visited b.grid bordered s colored v (t, u)
          → Scored (elim t [ pos (suc n) ↦ (score + suc n, u) | _ ↦ (score, v) ])
      go (negsuc n) u r = h
      go (pos zero) u r = h
      go (pos (suc n)) u r = record {
        size = r.size;
        least = omega (arith, h.least);
        most = omega (arith, h.most, r.gain);
      }

  score_cell-Scored :
      (r c : ℕ) (t : ℕ × List Bool)
      → r < 19
      → c < 19
      → Scored t
      → Ends ⊥ Scored (score_cell b s r c t)
  score_cell-Scored r c (score, v) hr hc h =
      Ends->>= ⊥ (λ _. Unit {0}) Scored (at b (pos r) (pos c)) _
        (Ends-of ⊥ _ (at-stone_at b bordered r c hr hc) tt)
        λ stone _.
          Ends-if_cases ⊥ Scored (not (stone_eq stone empty)) _ _ (λ _. h)
            λ _.
              Ends->>= ⊥ (λ _. Unit {0}) Scored (load v (inner r c)) _
                (Ends-of ⊥ _ (load-get_or v (inner r c) false (rw h.size (inner-lt r c hr hc))) tt)
                λ seen _. add_territory-Scored (inner r c) score v (inner-lt r c hr hc) h seen

pub count_score_bound :
    (b : Board) (s : Stone)
    → IsBordered b.grid
    → s ≢ empty
    → (score : ℕ) × (count_score b s ≡ ok score)
      × (color_count b.grid s ≤ score)
      × (score ≤ 2 * color_count b.grid s)
unfolding count_score
count_score_bound b s bordered colored =
    let (own, e, stones) =
      Ends-ok (λ own. own ≡ color_count b.grid s) (each_cell (count_own b s) 0)
        (count_own-color_count b bordered s colored) in
    let (r, e', h) =
      Ends-ok (Scored b bordered s colored own) (each_cell (score_cell b s) (own, unvisited)) (
        each_cell-Ends ⊥ (Scored b bordered s colored own) (score_cell b s) (own, unvisited)
          (score_cell-Scored b bordered s colored own)
          (record {
            size = length-replicate cells false;
            least = omega arith;
            most = omega arith;
          })) in
    (
      r.0,
      rw (e, e') refl,
      omega (arith, h.least, stones),
      omega (arith, h.most, stones, owned-color_count b.grid s r.1),
    )
