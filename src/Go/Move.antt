-- ===== src/Go/Move.antt =====
-- What Board::place (board.cpp) does to the board.
use aimeath.Common.{
  ℕ, zero, suc, ◌<◌, ◌≡◌, ◌≢◌, refl, sym, subst, ◌∙◌, ap, ◌⊎◌, inl, inr, Bool, true, false, List,
  [], ◌∷◌, Bool-cases, length, set, get_or, get_or-set_self, arith, ==→≡, ==→≢, ◌==◌, if◌then◌else◌,
  ◌&&◌,
}
use aimeath.Common.Ends.{Ends, Ends->>=}
use aimeath.Common.Loops.{for_each, for_each-each}
use aimeath.Go.{
  Stone, empty, opponent, cells, is_border, dirs, count_liberties, capture_at, place_at, visits,
  unvisited,
}
use aimeath.Go.Cells.{
  Next, stone_at, IsBordered, IsBordered-set, stone_inside, Liberty, free, through,
}
use aimeath.Go.Count.{count_liberties_lem}
use aimeath.Go.Capture.{opponent-ne, Capturing, Joined-stone}
use aimeath.Go.Place.{Around, capture_at-Round}

set-set :
    {A : Type 0} (xs : List A) (i : ℕ) (v d : A)
    → i < length xs
    → set (set xs i v) i (get_or xs i d) ≡ xs
set-set [] i v d lt = refl
set-set (x ∷ xs) zero v d lt = refl
set-set (x ∷ xs) (suc i) v d lt = ap (λ ys. x ∷ ys) (set-set xs i v d (omega arith))

module _ (grid : List Stone) (s : Stone) (idx : ℕ) where
  -- The grid with the new stone.
  abbrev pub start : List Stone
  start = set grid idx s

  -- Neither captures the new stone a group, nor has its own a liberty.
  pub record IsSuicide : Type 0 where
    pub no_capture :
        (n : ℕ) → Next idx n → stone_at start n ≡ opponent s → Liberty start (opponent s) n
    pub no_liberty : ¬ Liberty start s idx

  -- The grid and the captured stones after a move.
  pub record IsMoved (g : List Stone) (captured : ℕ) : Type 0 where
    pub capturing : Capturing start s idx (g, captured)
    pub beside : (n : ℕ) → Next idx n → stone_at g n ≡ opponent s → Liberty start (opponent s) n
    pub alive : Liberty g s idx

  -- A move changes the board, or is suicide and leaves it as it was.
  abbrev pub Played : Bool × List Stone × ℕ → Type 0
  Played (placed, g, captured) =
      (placed ≡ true) × IsMoved g captured
      ⊎ (placed ≡ false) × (g ≡ grid) × (captured ≡ 0) × IsSuicide

  pub IsMoved→not_suicide : (g : List Stone) (captured : ℕ) → IsMoved g captured → ¬ IsSuicide
  IsMoved→not_suicide g captured moved suicide = elim (Bool-cases (captured == 0)) [
    | inl z ↦
        suicide.no_liberty
          (subst (λ h. Liberty h s idx) (moved.capturing.none (==→≡ captured 0 z)) moved.alive)
    | inr some ↦
        let (n, was, near) = moved.capturing.some (==→≢ captured 0 some) in
        was.stuck (suicide.no_capture n near (Joined-stone start (opponent s) was.group))
  ]

  module _ (bordered : IsBordered grid) (colored : s ≢ empty) (lt : idx < cells)
      (inside : is_border idx ≡ false) (vacant : stone_at grid idx ≡ empty) where
    pub start-IsBordered : IsBordered start
    start-IsBordered = IsBordered-set grid bordered idx s inside

    pub start-idx : stone_at start idx ≡ s
    start-idx = get_or-set_self grid idx s empty (rw bordered.size lt)

    Capturing-start : Capturing start s idx (start, 0)
    Capturing-start = record {
      bordered = start-IsBordered;
      others = λ i _. refl;
      either = λ i e. inl e;
      whole = λ i k _ _ e. e;
      counted = omega arith;
      none = λ _. refl;
      some = λ ne. absurd (ne refl);
    }

    module _ (g : List Stone) (captured : ℕ) (c : Capturing start s idx (g, captured))
        (around : (n : ℕ)
          → Next idx n
          → stone_at g n ≡ opponent s
          → Liberty start (opponent s) n) where
      still_own : stone_at g idx ≡ s
      still_own = c.others idx (λ e. (opponent-ne s colored).1 (sym e ∙ start-idx)) ∙ start-idx

      -- A captured stone beside the new one is a liberty of it.
      alive_by_capture : captured ≢ 0 → Liberty g s idx
      alive_by_capture ne =
          let (n, was, near) = c.some ne in
          let held = Joined-stone start (opponent s) was.group in
          let inner =
            stone_inside start start-IsBordered n (λ e. (opponent-ne s colored).0 (sym held ∙ e)) in
          elim (c.either n held) [
            | inl stays ↦ absurd (was.stuck (around n near stays))
            | inr (gone, _) ↦ through still_own near (free gone inner)
          ]

      finished :
          (libs : ℕ)
          → (libs ≢ 0 → Liberty g s idx) × (libs ≡ 0 → ¬ Liberty g s idx)
          → Played (
              if libs == 0 && captured == 0
              then (false, set g idx empty, captured)
              else (true, g, captured))
      finished libs (found, none) = go (libs == 0) (captured == 0) refl refl
        where
          go :
              (no_libs no_stones : Bool)
              → (libs == 0) ≡ no_libs
              → (captured == 0) ≡ no_stones
              → Played (
                  if no_libs && no_stones
                  then (false, set g idx empty, captured)
                  else (true, g, captured))
          go true true z w =
              let zero_captured = ==→≡ captured 0 w in
              let same = c.none zero_captured in
              inr (
                refl,
                ap (λ h. set h idx empty) same
                    ∙ ap (λ v. set start idx v) (sym vacant)
                    ∙ set-set grid idx s empty (rw bordered.size lt),
                zero_captured,
                record {
                  no_capture = λ n near held.
                      around n near (subst (λ h. stone_at h n ≡ opponent s) (sym same) held);
                  no_liberty =
                      λ l. none (==→≡ libs 0 z) (subst (λ h. Liberty h s idx) (sym same) l);
                },
              )
          go false w z e =
              inl (refl, record { capturing = c; beside = around; alive = found (==→≢ libs 0 z) })
          go true false z w = inl (
            refl,
            record { capturing = c; beside = around; alive = alive_by_capture (==→≢ captured 0 w) },
          )

    pub place_at-Played : Ends ⊥ Played (place_at s idx grid)
    unfolding place_at
    place_at-Played =
        Ends->>= ⊥ _ Played (for_each (capture_at s idx) dirs (start, 0)) _
          (for_each-each ⊥ (Capturing start s idx) (Around start s idx colored) (capture_at s idx)
            dirs (start, 0) (λ d r m c. capture_at-Round start s idx colored inside lt d r m c)
            Capturing-start)
          λ (g, captured) (c, each, _).
            Ends->>= ⊥ _ Played (count_liberties g s visits idx unvisited) _
              (count_liberties_lem g c.bordered s colored idx lt)
              λ (libs, v) tells. finished g captured c (λ n (d, m, e). each d m n e) libs tells
