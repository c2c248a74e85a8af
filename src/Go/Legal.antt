-- ===== src/Go/Legal.antt =====
-- Board::isLegal (board.cpp), and its agreement with Board::place.
use aimeath.Common.{
  ℕ, ◌<◌, ◌≡◌, ◌≢◌, refl, sym, subst, ◌∙◌, ap, inl, inr, Bool, true, false, List, [], ◌∷◌, ok,
  ok-injective, ==→≡, ==→≢, ◌==◌, not,
}
use mathlib.Core.Bool.{false≢true}
use mathlib.Core.List.{Memᴰ}
use mathlib.Core.List.Memᴰ
use aimeath.Common.Int.{ℤ}
use aimeath.Common.Ends.{Ends, Ends->>=, Ends-of, Ends-map, Ends-if_cases}
use aimeath.Go.{Stone, empty, stone_eq, opponent, cells, is_border, dirs, offset, load}
use aimeath.Go.Simulate.{group_liberties, can_capture, legal_at}
use aimeath.Go.Cells.{
  stone_eq→≡, stone_eq→≢, Next, offset_in, stone_at, IsBordered, load_stone, Liberty,
}
use aimeath.Go.Stack.{group_liberties-Tells}
use aimeath.Go.Capture.{opponent-ne}
use aimeath.Go.Move.{start, IsSuicide, start-IsBordered, start-idx}

module _ (grid : List Stone) (s : Stone) (idx : ℕ) (bordered : IsBordered grid)
    (colored : s ≢ empty) (lt : idx < cells) (inside : is_border idx ≡ false)
    (vacant : stone_at grid idx ≡ empty) where
  opp : Stone
  opp = opponent s

  -- Some group beside the new stone is taken, or none at the neighbours `ds`.
  abbrev Answer : List ℤ → Bool → Type 0
  Answer ds b =
      (b ≡ true
        → (n : ℕ) × Next idx n
          × (stone_at (start grid s idx) n ≡ opponent s)
          × (¬ Liberty (start grid s idx) (opponent s) n))
      × (b ≡ false
          → (d : ℤ) (n : ℕ) → Memᴰ d ds
          → offset idx d ≡ ok n
          → stone_at (start grid s idx) n ≡ opponent s
          → Liberty (start grid s idx) (opponent s) n)

  can_capture-Answer :
      (ds : List ℤ)
      → ((d : ℤ) → Memᴰ d ds → Memᴰ d dirs)
      → Ends ⊥ (Answer ds) (can_capture (start grid s idx) s idx ds)
  unfolding can_capture
  can_capture-Answer [] sub = (λ e. absurd (false≢true e), λ _ d n m. absurd (Memᴰ.not-nil m))
  can_capture-Answer (d ∷ ds) sub =
      let g = start grid s idx in
      let rest = can_capture-Answer ds (λ b m. sub b (Memᴰ.tail m)) in
      let m = sub d (Memᴰ.head refl) in
      let ne = (opponent-ne s colored).0 in
      let bg = start-IsBordered grid s idx bordered colored lt inside vacant in
      let (n, e, n_lt) = offset_in idx d lt inside m in
      Ends->>= ⊥ (λ k. (offset idx d ≡ ok k) × (k < cells)) (Answer (d ∷ ds)) (offset idx d) _
        (Ends-of ⊥ _ e (e, n_lt))
        λ k (ek, k_lt).
          Ends->>= ⊥ (λ s. stone_at g k ≡ s) (Answer (d ∷ ds)) (load g k) _
            (Ends-of ⊥ _ (load_stone g bg k k_lt) refl)
            λ stone es.
              Ends-if_cases ⊥ (Answer (d ∷ ds)) (stone_eq stone (opponent s)) _ _
                (λ held.
                  let own : stone_at g k ≡ opponent s = es ∙ stone_eq→≡ stone (opponent s) held in
                  Ends->>= ⊥ _ (Answer (d ∷ ds)) (group_liberties g (opponent s) k) _
                    (group_liberties-Tells g bg (opponent s) ne k k_lt own)
                    λ libs (found, none).
                      Ends-if_cases ⊥ (Answer (d ∷ ds)) (libs == 0) _ _
                        (λ z. (
                          λ _. (k, (d, m, ek), own, none (==→≡ libs 0 z)),
                          λ q. absurd (false≢true (sym q)),
                        ))
                        (λ some. later d ds k ek (λ _. found (==→≢ libs 0 some)) rest))
                (λ other.
                  later d ds k ek (λ q. absurd (stone_eq→≢ stone (opponent s) other (sym es ∙ q)))
                    rest)
    where
      later :
          (d : ℤ) (ds : List ℤ) (k : ℕ)
          → offset idx d ≡ ok k
          → (stone_at (start grid s idx) k ≡ opponent s → Liberty (start grid s idx) (opponent s) k)
          → Ends ⊥ (Answer ds) (can_capture (start grid s idx) s idx ds)
          → Ends ⊥ (Answer (d ∷ ds)) (can_capture (start grid s idx) s idx ds)
      later d ds k ek has =
          Ends-map ⊥ (Answer ds) (Answer (d ∷ ds)) (can_capture (start grid s idx) s idx ds)
            λ b (yes_, no_). (
              yes_,
              λ q d' n m en held. elim (Memᴰ.cases_cons m) [
                | inl same ↦
                    let at_k = ok-injective (sym en ∙ ap (offset idx) same ∙ ek) in
                    subst (Liberty (start grid s idx) (opponent s)) (sym at_k)
                      (has (subst (λ j. stone_at (start grid s idx) j ≡ opponent s) at_k held))
                | inr m' ↦ no_ q d' n m' en held
              ],
            )

  pub legal_at-not_suicide :
      Ends ⊥
        (λ l. (l ≡ true → ¬ IsSuicide grid s idx) × (l ≡ false → IsSuicide grid s idx))
        (legal_at (start grid s idx) s idx)
  unfolding legal_at
  legal_at-not_suicide =
      let g = start grid s idx in
      let bg = start-IsBordered grid s idx bordered colored lt inside vacant in
      Ends->>= ⊥ (Answer dirs) _ (can_capture g s idx dirs) _ (can_capture-Answer dirs (λ d m. m))
        λ captures (takes, spares).
          Ends-if_cases ⊥ _ captures _ _
            (λ c.
              let (n, near, held, stuck) = takes c in
              (
                λ _ suicide. stuck (suicide.no_capture n near held),
                λ q. absurd (false≢true (sym q)),
              ))
            (λ c.
              Ends->>= ⊥ _ _ (group_liberties g s idx) _
                (group_liberties-Tells g bg s colored idx lt
                  (start-idx grid s idx bordered colored lt inside vacant))
                λ libs (found, none). decide libs (spares c) found none (libs == 0) refl)
    where
      decide :
          (libs : ℕ)
          → ((d : ℤ) (n : ℕ)
              → Memᴰ d dirs
              → offset idx d ≡ ok n
              → stone_at (start grid s idx) n ≡ opponent s
              → Liberty (start grid s idx) (opponent s) n)
          → (libs ≢ 0 → Liberty (start grid s idx) s idx)
          → (libs ≡ 0 → ¬ Liberty (start grid s idx) s idx)
          → (z : Bool) → (libs == 0) ≡ z
          → (not z ≡ true → ¬ IsSuicide grid s idx) × (not z ≡ false → IsSuicide grid s idx)
      decide libs spares found none true z = (
        λ q. absurd (false≢true q),
        λ _. record {
          no_capture = λ n (d, m, e) held. spares d n m e held;
          no_liberty = none (==→≡ libs 0 z);
        },
      )
      decide libs spares found none false z = (
        λ _ suicide. suicide.no_liberty (found (==→≢ libs 0 z)),
        λ q. absurd (false≢true (sym q)),
      )
