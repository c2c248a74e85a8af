-- ===== src/Go/Count.antt =====
-- Board::countLiberties (board.cpp).
use aimeath.Common.{
  ℕ, zero, suc, ◌<◌, ◌≡◌, ◌≢◌, refl, sym, subst, ◌∙◌, inl, inr, Bool, true, false, List, Outcome,
  ok, ok-injective, length, set, length-set, get_or-set_self, length-replicate, get_or-replicate,
  arith,
}
use aimeath.Common.Int.{ℤ}
use aimeath.Common.Ends.{Ends, Ends->>=, Ends-of, Ends-map}
use aimeath.Common.Loops.{
  for_each, for_each-each, marked, unmarked, unmarked-set, unmarked-replicate,
}
use aimeath.Go.{
  Stone, empty, stone_eq, cells, dirs, offset, load, count_step, count_stone, count_cell,
  count_liberties, visits, unvisited,
}
use aimeath.Go.Cells.{
  stone_eq→≡, stone_eq→≢, load-get_or, offset_in, stone_at, IsBordered, Liberty, through, Handled,
  sealed_lem, stone_inside, load_stone,
}
use aimeath.Go.Counted.{
  Counted, Handled-later, Counted-still, Counted-more, Counted-empty, Counted-own,
}

module _ (grid : List Stone) (bordered : IsBordered grid) (color : Stone)
    (colored : color ≢ empty) where
  abbrev Searched : ℕ → List Bool → ℕ × List Bool → Type 0
  Searched idx v r = Counted grid color idx v r × Handled grid color r.1 idx

  module _ (rec : ℕ → List Bool → Outcome (ℕ × List Bool)) (fuel : ℕ)
      (searches : (idx : ℕ) (v : List Bool)
        → idx < cells
        → length v ≡ cells
        → unmarked v < fuel
        → Ends ⊥ (Searched idx v) (rec idx v)) where
    count_around :
        (idx : ℕ) (v : List Bool)
        → idx < cells
        → length v ≡ cells
        → marked v idx ≡ false
        → stone_at grid idx ≡ color
        → unmarked v < suc fuel
        → Ends ⊥
            (Searched idx v)
            (for_each (count_step grid color rec idx) dirs (0, set v idx true))
    count_around idx v lt size new own enough =
        let v₀ = set v idx true in
        let fewer = unmarked-set v idx new (rw size lt) in
        let inside = stone_inside grid bordered idx (λ e. colored (sym own ∙ e)) in
        let P : ℕ × List Bool → Type 0 = Counted grid color idx v₀ in
        let Q : ℤ → ℕ × List Bool → Type 0 =
          λ d r. (j : ℕ) → offset idx d ≡ ok j → Handled grid color r.1 j in
        Ends-map ⊥ _ _ (for_each (count_step grid color rec idx) dirs (0, v₀))
          (λ r (counted, each, _). (
            Counted-own grid color idx v r (rw size lt) new own colored counted
                (λ j (d, m, e). each d m j e),
            inl (counted.keeps idx (get_or-set_self v idx true false (rw size lt))),
          ))
          (for_each-each ⊥ P Q (count_step grid color rec idx) dirs (0, v₀)
            (λ d r m counted.
              let (next, e, next_lt) = offset_in idx d lt inside m in
              Ends->>= ⊥ (λ k. offset idx d ≡ ok k) _ (offset idx d) _ (Ends-of ⊥ _ e e)
                λ k ek.
                  Ends->>= ⊥ (Searched k r.1) _ (rec k r.1) _
                    (searches k r.1 (subst (λ n. n < cells) (ok-injective (sym e ∙ ek)) next_lt)
                      counted.size (omega (arith, counted.fewer)))
                    λ s (more, handled). (
                      Counted-more grid color idx k v₀ r s (through own (d, m, ek)) counted more,
                      λ j ej. subst (Handled grid color s.1) (ok-injective (sym ek ∙ ej)) handled,
                      λ b q j ej. Handled-later grid color r.1 s.1 j more.keeps (q j ej),
                    ))
            (Counted-still grid color idx v₀ (length-set v idx true ∙ size)))

    at_stone :
        (idx : ℕ) (v : List Bool)
        → idx < cells
        → length v ≡ cells
        → marked v idx ≡ false
        → unmarked v < suc fuel
        → (free own : Bool) → stone_eq (stone_at grid idx) empty ≡ free
        → stone_eq (stone_at grid idx) color ≡ own
        → Ends ⊥ (Searched idx v) (count_stone grid color rec idx v free own)
    at_stone idx v lt size new enough true own e o = (
      Counted-empty grid color idx v size lt new (stone_eq→≡ (stone_at grid idx) empty e) colored,
      inl (get_or-set_self v idx true false (rw size lt)),
    )
    at_stone idx v lt size new enough false false e o = (
      Counted-still grid color idx v size,
      inr (
        stone_eq→≢ (stone_at grid idx) color o,
        λ q. absurd (stone_eq→≢ (stone_at grid idx) empty e q),
      ),
    )
    at_stone idx v lt size new enough false true e o =
        count_around idx v lt size new (stone_eq→≡ (stone_at grid idx) color o) enough

    at_cell :
        (idx : ℕ) (v : List Bool)
        → idx < cells
        → length v ≡ cells
        → unmarked v < suc fuel
        → (seen : Bool) → marked v idx ≡ seen
        → Ends ⊥ (Searched idx v) (count_cell grid color rec idx v seen)
    at_cell idx v lt size enough true m = (Counted-still grid color idx v size, inl m)
    at_cell idx v lt size enough false new =
        let Q : Stone → Type 0 = λ s.
          Ends ⊥ (Searched idx v)
            (count_stone grid color rec idx v (stone_eq s empty) (stone_eq s color)) in
        Ends->>= ⊥ (λ s. stone_at grid idx ≡ s) (Searched idx v) (load grid idx) _
          (Ends-of ⊥ _ (load_stone grid bordered idx lt) refl)
          λ s e. subst Q e (at_stone idx v lt size new enough _ _ refl refl)

  -- Enough fuel is given, so a search returns what it has found.
  pub count_liberties-Searched :
      (fuel idx : ℕ) (v : List Bool)
      → idx < cells
      → length v ≡ cells
      → unmarked v < fuel
      → Ends ⊥ (Searched idx v) (count_liberties grid color fuel idx v)
  unfolding count_liberties
  count_liberties-Searched zero idx v lt size enough = absurd (omega arith)
  count_liberties-Searched (suc fuel) idx v lt size enough =
      Ends->>= ⊥ (λ seen. marked v idx ≡ seen) (Searched idx v) (load v idx) _
        (Ends-of ⊥ _ (load-get_or v idx false (rw size lt)) refl)
        (at_cell (count_liberties grid color fuel) fuel (count_liberties-Searched fuel) idx v lt
          size enough)

  -- The liberties counted from a cell on a board where nothing was visited are zero exactly if the
  -- cell does not lead to a liberty.
  pub count_liberties_lem :
      (idx : ℕ)
      → idx < cells
      → Ends ⊥
          (λ r. (r.0 ≢ 0 → Liberty grid color idx) × (r.0 ≡ 0 → ¬ Liberty grid color idx))
          (count_liberties grid color visits idx unvisited)
  count_liberties_lem idx lt =
      Ends-map ⊥ _ _ (count_liberties grid color visits idx unvisited)
        (λ r (c, h). (
          c.found,
          λ z.
              sealed_lem grid color r.1 (λ i j m. c.closed i j m (get_or-replicate cells i false))
                (λ i m. c.none z i m (get_or-replicate cells i false)) h,
        ))
        (count_liberties-Searched visits idx unvisited lt (length-replicate cells false)
          (omega (arith, unmarked-replicate cells)))
