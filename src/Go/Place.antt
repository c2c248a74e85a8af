-- ===== src/Go/Place.antt =====
-- Board::place (board.cpp): the loop over the neighbours and the test of the new group.
use aimeath.Common.{
  ℕ, ◌+◌, ◌<◌, ◌≡◌, ◌≢◌, refl, sym, subst, ◌∙◌, false, List, [], ok, ok-injective, ◌>>=◌, length,
  ==→≡, ==→≢, ◌==◌,
}
use mathlib.Core.List.{Memᴰ}
use aimeath.Common.Int.{ℤ}
use aimeath.Common.Ends.{Ends, Ends->>=, Ends-of, Ends-if_cases}
use aimeath.Go.{
  Stone, empty, stone_eq, opponent, cells, is_border, dirs, offset, load, count_liberties,
  collect_group, remove_stones, capture_group, capture_at, visits, unvisited,
}
use aimeath.Go.Cells.{stone_eq→≡, stone_eq→≢, offset_in, stone_at, load_stone, Liberty}
use aimeath.Go.Count.{count_liberties_lem}
use aimeath.Go.Group.{IsGroup, collect_group-IsGroup}
use aimeath.Go.Remove.{remove_stones-Removed}
use aimeath.Go.Capture.{
  opponent-ne, Capturing, Capturing-group, captured_here, still_there, Liberty-before, Joined-stone,
}

module _ (start : List Stone) (s : Stone) (idx : ℕ) (colored : s ≢ empty) where
  -- The group of the opponent at a neighbour that was looked at has a liberty.
  abbrev pub Around : ℤ → List Stone × ℕ → Type 0
  Around d r =
      (j : ℕ) → offset idx d ≡ ok j → stone_at r.0 j ≡ opponent s → Liberty start (opponent s) j

  abbrev pub Round : ℤ → List Stone × ℕ → List Stone × ℕ → Type 0
  Round d r r' = Capturing start s idx r' × Around d r' × ((b : ℤ) → Around b r → Around b r')

  module _ (d : ℤ) (m : Memᴰ d dirs) (grid : List Stone) (captured : ℕ)
      (c : Capturing start s idx (grid, captured)) (n : ℕ) (e : offset idx d ≡ ok n)
      (lt : n < cells) where
    Round-still :
        (stone_at grid n ≡ opponent s → Liberty start (opponent s) n)
        → Round d (grid, captured) (grid, captured)
    Round-still has = (
      c,
      λ j ej held.
          subst (Liberty start (opponent s)) (ok-injective (sym e ∙ ej))
            (has (subst (λ k. stone_at grid k ≡ opponent s) (ok-injective (sym ej ∙ e)) held)),
      λ b q. q,
    )

    Round-group :
        stone_at grid n ≡ opponent s
        → ¬ Liberty grid (opponent s) n
        → Ends ⊥ (Round d (grid, captured)) (do
          (_, group) ← collect_group grid (opponent s) visits n (unvisited, [])
          ok (remove_stones grid group, captured + length group))
    Round-group held stuck =
        let ne = (opponent-ne s colored).0 in
        Ends->>= ⊥ (λ r. IsGroup grid c.bordered (opponent s) ne n r.1) (Round d (grid, captured))
          (collect_group grid (opponent s) visits n (unvisited, [])) _
          (collect_group-IsGroup grid c.bordered (opponent s) ne n lt)
          λ (v, group) is_group.
            let removed = remove_stones-Removed grid group c.bordered is_group.distinct (λ p mp q.
              ne (sym (Joined-stone grid (opponent s) ((is_group.members p).0 mp)) ∙ q)) in
            let g : List Stone = remove_stones grid group in
            (
              Capturing-group start s idx colored (grid, captured) c n (d, m, e) held stuck group
                  is_group g removed,
              λ j ej held'. absurd (
                  captured_here start s idx colored (grid, captured) c n (d, m, e) held stuck group
                    is_group g removed
                    (subst (λ k. stone_at g k ≡ opponent s) (ok-injective (sym ej ∙ e)) held')),
              λ b q j ej held'.
                  q j ej
                    (still_there start s idx colored (grid, captured) c n (d, m, e) held stuck group
                      is_group g removed j held').1,
            )

    capture_group-Round :
        stone_at grid n ≡ opponent s
        → Ends ⊥ (Round d (grid, captured)) (capture_group s idx n (grid, captured))
    unfolding capture_group
    capture_group-Round held =
        let ne = (opponent-ne s colored).0 in
        Ends->>= ⊥ _ (Round d (grid, captured))
          (count_liberties grid (opponent s) visits n unvisited) _
          (count_liberties_lem grid c.bordered (opponent s) ne n lt)
          λ (libs, v) (found, none).
            Ends-if_cases ⊥ (Round d (grid, captured)) (libs == 0) _ _
              (λ z. Round-group held (none (==→≡ libs 0 z)))
              (λ some. Round-still (λ _.
                Liberty-before start s idx (grid, captured) c held ne (found (==→≢ libs 0 some))))

  pub capture_at-Round :
      is_border idx ≡ false
      → idx < cells
      → (d : ℤ) (r : List Stone × ℕ) → Memᴰ d dirs
      → Capturing start s idx r
      → Ends ⊥ (Round d r) (capture_at s idx d r)
  unfolding capture_at
  capture_at-Round inside idx_lt d (grid, captured) m c =
      let (n, e, lt) = offset_in idx d idx_lt inside m in
      Ends->>= ⊥ (λ k. (offset idx d ≡ ok k) × (k < cells)) _ (offset idx d) _
        (Ends-of ⊥ _ e (e, lt))
        λ k (ek, k_lt).
          Ends->>= ⊥ (λ s. stone_at grid k ≡ s) _ (load grid k) _
            (Ends-of ⊥ _ (load_stone grid c.bordered k k_lt) refl)
            λ stone es.
              Ends-if_cases ⊥ (Round d (grid, captured)) (stone_eq stone (opponent s)) _ _
                (λ opp.
                  capture_group-Round d m grid captured c k ek k_lt
                    (es ∙ stone_eq→≡ stone (opponent s) opp))
                (λ other.
                  Round-still d m grid captured c k ek k_lt
                    (λ held. absurd (stone_eq→≢ stone (opponent s) other (sym es ∙ held))))
