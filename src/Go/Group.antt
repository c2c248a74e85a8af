-- ===== src/Go/Group.antt =====
-- Board::collectGroup (board.cpp).
use aimeath.Common.{
  ℕ, zero, suc, ◌<◌, ◌≡◌, ◌≢◌, ◌↔◌, refl, sym, subst, ◌∙◌, ◌⊎◌, inl, inr, Bool, true, false, List,
  [], ◌∷◌, ◌++◌, Outcome, ok, ok-injective, Bool-cases, length, set, get_or-set_self,
  length-replicate, get_or-replicate, arith, ==→≡, ==→≢, ◌==◌,
}
use mathlib.Core.List.{Memᴰ}
use mathlib.Core.List.Memᴰ
use aimeath.Common.Int.{ℤ}
use aimeath.Common.Ends.{Ends, Ends->>=, Ends-of, Ends-map}
use aimeath.Common.Loops.{
  for_each, for_each-each, marked, unmarked, unmarked-set, unmarked-replicate,
}
use aimeath.Go.{
  Stone, empty, stone_eq, cells, dirs, offset, load, collect_step, collect_stone, collect_cell,
  collect_group, visits, unvisited,
}
use aimeath.Go.Cells.{
  stone_eq→≡, stone_eq→≢, load-get_or, Next, offset_in, stone_at, IsBordered, stone_inside,
  load_stone,
}
use aimeath.Go.Collected.{
  Distinct, Joined, Taken, IsListed, Collected, Taken-later, Collected-still, Collected-more,
  Collected-own, IsListed-pushed, alone, linked,
}

module _ (grid : List Stone) (bordered : IsBordered grid) (color : Stone)
    (colored : color ≢ empty) where
  abbrev Searched : ℕ → List Bool × List ℕ → List Bool × List ℕ → Type 0
  Searched idx s r = Collected grid color idx s r × Taken grid color r.0 idx

  module _ (rec : ℕ → List Bool × List ℕ → Outcome (List Bool × List ℕ)) (fuel : ℕ)
      (searches : (idx : ℕ) (s : List Bool × List ℕ)
        → idx < cells
        → IsListed grid color s.0 s.1
        → unmarked s.0 < fuel
        → Ends ⊥ (Searched idx s) (rec idx s))
      (idx : ℕ) (v : List Bool) (out : List ℕ) (idx_lt : idx < cells)
      (listed : IsListed grid color v out) (enough : unmarked v < suc fuel) where
    collect_around :
        marked v idx ≡ false
        → stone_at grid idx ≡ color
        → Ends ⊥
            (Searched idx (v, out))
            (for_each (collect_step grid color rec idx) dirs (set v idx true, out ++ idx ∷ []))
    collect_around new own =
        let lt : idx < length v = rw listed.size idx_lt in
        let fewer = unmarked-set v idx new lt in
        let inside = stone_inside grid bordered idx (λ e. colored (sym own ∙ e)) in
        let s₀ : List Bool × List ℕ = (set v idx true, out ++ idx ∷ []) in
        let Q : ℤ → List Bool × List ℕ → Type 0 =
          λ d r. (j : ℕ) → offset idx d ≡ ok j → Taken grid color r.0 j in
        Ends-map ⊥ _ _ (for_each (collect_step grid color rec idx) dirs s₀)
          (λ r (collected, each, _). (
            Collected-own grid color idx v out listed lt new own r collected
                (λ j (d, m, e). each d m j e),
            inl (collected.keeps idx (get_or-set_self v idx true false lt)),
          ))
          (for_each-each ⊥ (Collected grid color idx s₀) Q (collect_step grid color rec idx) dirs s₀
            (λ d r m collected.
              let (next, e, next_lt) = offset_in idx d idx_lt inside m in
              Ends->>= ⊥ (λ k. (offset idx d ≡ ok k) × (k < cells)) _ (offset idx d) _
                (Ends-of ⊥ _ e (e, next_lt))
                λ k (ek, k_lt).
                  Ends-map ⊥ (Searched k r) _ (rec k r)
                    (λ t (more, taken). (
                      Collected-more grid color idx k s₀ r t (λ p. linked own (d, m, ek)) collected
                          more,
                      λ j ej. subst (Taken grid color t.0) (ok-injective (sym ek ∙ ej)) taken,
                      λ b q j ej. Taken-later grid color r.0 t.0 j more.keeps (q j ej),
                    ))
                    (searches k r k_lt collected.listed (omega (arith, collected.fewer))))
            (Collected-still grid color idx s₀
              (IsListed-pushed grid color idx v out listed lt new own)))

    at_stone :
        marked v idx ≡ false
        → (own : Bool) → stone_eq (stone_at grid idx) color ≡ own
        → Ends ⊥ (Searched idx (v, out)) (collect_stone grid color rec idx (v, out) own)
    at_stone new false e = (
      Collected-still grid color idx (v, out) listed,
      inr (stone_eq→≢ (stone_at grid idx) color e),
    )
    at_stone new true e = collect_around new (stone_eq→≡ (stone_at grid idx) color e)

    at_cell :
        (seen : Bool)
        → marked v idx ≡ seen
        → Ends ⊥ (Searched idx (v, out)) (collect_cell grid color rec idx (v, out) seen)
    at_cell true m = (Collected-still grid color idx (v, out) listed, inl m)
    at_cell false new =
        let Q : Stone → Type 0 = λ s.
          Ends ⊥ (Searched idx (v, out))
            (collect_stone grid color rec idx (v, out) (stone_eq s color)) in
        Ends->>= ⊥ (λ s. stone_at grid idx ≡ s) (Searched idx (v, out)) (load grid idx) _
          (Ends-of ⊥ _ (load_stone grid bordered idx idx_lt) refl)
          λ s e. subst Q e (at_stone new _ refl)

  -- Enough fuel is given, so a search returns what it has found.
  collect_group-Searched :
      (fuel idx : ℕ) (s : List Bool × List ℕ)
      → idx < cells
      → IsListed grid color s.0 s.1
      → unmarked s.0 < fuel
      → Ends ⊥ (Searched idx s) (collect_group grid color fuel idx s)
  unfolding collect_group
  collect_group-Searched zero idx s lt listed enough = absurd (omega arith)
  collect_group-Searched (suc fuel) idx (v, out) lt listed enough =
      Ends->>= ⊥ (λ seen. marked v idx ≡ seen) (Searched idx (v, out)) (load v idx) _
        (Ends-of ⊥ _ (load-get_or v idx false (rw listed.size lt)) refl)
        (at_cell (collect_group grid color fuel) fuel (collect_group-Searched fuel) idx v out lt
          listed enough)

  -- The list of a whole group.
  pub record IsGroup (idx : ℕ) (group : List ℕ) : Type 0 where
    pub distinct : Distinct group
    pub members : (p : ℕ) → Memᴰ p group ↔ Joined grid color idx p

  Taken-Joined :
      (v : List Bool) (group : List ℕ)
      → ((i : ℕ) → marked v i ≡ true → Memᴰ i group)
      → ((i j : ℕ) → marked v i ≡ true → Next i j → Taken grid color v j)
      → {i p : ℕ} → Taken grid color v i
      → Joined grid color i p
      → Memᴰ p group
  Taken-Joined v group complete closed (inl m) (alone own) = complete _ m
  Taken-Joined v group complete closed (inr other) (alone own) = absurd (other own)
  Taken-Joined v group complete closed (inl m) (linked {i} {j} own n rest) =
      Taken-Joined v group complete closed (closed i j m n) rest
  Taken-Joined v group complete closed (inr other) (linked own n rest) = absurd (other own)

  -- The list collected from a cell holds the stones of its group, each once.
  pub collect_group-IsGroup :
      (idx : ℕ)
      → idx < cells
      → Ends ⊥ (λ r. IsGroup idx r.1) (collect_group grid color visits idx (unvisited, []))
  collect_group-IsGroup idx lt =
      let fresh = get_or-replicate cells in
      Ends-map ⊥ _ _ (collect_group grid color visits idx (unvisited, []))
        (λ r (c, taken). record {
          distinct = c.listed.distinct;
          members = λ p. (
            λ m. elim (c.sound p m) [ inl none ↦ absurd (Memᴰ.not-nil none) | inr j ↦ j ],
            Taken-Joined r.0 r.1 (λ i m. c.complete i m (fresh i false))
                (λ i j m. c.closed i j m (fresh i false)) taken,
          );
        })
        (collect_group-Searched visits idx (unvisited, []) lt
          (record {
            size = length-replicate cells false;
            stones = λ p m. absurd (Memᴰ.not-nil m);
            distinct = tt;
          })
          (omega (arith, unmarked-replicate cells)))

pub Memᴰ-cases : (p : ℕ) (ps : List ℕ) → Memᴰ p ps ⊎ (¬ Memᴰ p ps)
Memᴰ-cases p [] = inr Memᴰ.not-nil
Memᴰ-cases p (q ∷ ps) = elim (Bool-cases (p == q)) [
  | inl same ↦ inl (Memᴰ.head (==→≡ p q same))
  | inr other ↦ elim (Memᴰ-cases p ps) [
    | inl m ↦ inl (Memᴰ.tail m)
    | inr out ↦ inr λ m. elim (Memᴰ.cases_cons m) [ inl e ↦ ==→≢ p q other e | inr m' ↦ out m' ]
  ]
]
