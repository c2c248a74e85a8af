-- ===== src/Gomoku/Five.antt =====
-- GomokuGame::checkWin (game.cpp): five in a row through a stone.
use aimeath.Common.{
  ℕ, zero, suc, ◌+◌, ◌-◌, ◌≤◌, ◌≡◌, refl, sym, ap, ◌∙◌, ◌⊎◌, ◌↔◌, inl, inr, Bool, true, false, List,
  [], ◌∷◌, arith, ok, Bool-cases, ◌>>=◌, leb, if◌then◌else◌,
}
use mathlib.Core.Bool.{false≢true}
use aimeath.Common.Int.{ℤ, ◌+ℤ◌, neg}
use aimeath.Gomoku.Line.{Run, IsSized, Longest, Moves, count_dir-Longest}
use aimeath.Gomoku.{Cell, Board, at, count_dir, check_dirs, check_win, dirs}

Run-prefix :
    (b : Board) (dr dc : ℤ) (cell : Cell) (m n : ℕ) (r c : ℤ)
    → m ≤ n
    → Run b dr dc cell n r c
    → Run b dr dc cell m r c
Run-prefix b dr dc cell zero n r c le run = tt
Run-prefix b dr dc cell (suc m) zero r c le run = absurd (omega arith)
Run-prefix b dr dc cell (suc m) (suc n) r c le (h, run) =
    (h, Run-prefix b dr dc cell m n (r +ℤ dr) (c +ℤ dc) (omega arith) run)

Longest-le :
    (b : Board) (dr dc : ℤ) (cell : Cell) (m n : ℕ) (r c : ℤ)
    → Longest b dr dc cell r c n
    → Run b dr dc cell m r c
    → m ≤ n
Longest-le b dr dc cell m n r c longest run = elim (Bool-cases (leb m n)) [
  | inl le ↦ ground arith
  | inr gt ↦ absurd (longest.ends (Run-prefix b dr dc cell (suc n) m r c (ground arith) run))
]

module _ (b : Board) (row col : ℤ) (cell : Cell) where
  -- Four more cells with `cell`, ahead of `row`, `col` and behind it, along `dr`, `dc`.
  abbrev pub FourMore : ℤ → ℤ → Type 0
  FourMore dr dc =
      (i : ℕ) × (j : ℕ) × (i + j ≡ 4)
      × Run b dr dc cell i (row +ℤ dr) (col +ℤ dc)
      × Run b (neg dr) (neg dc) cell j (row +ℤ neg dr) (col +ℤ neg dc)

  -- A line of five cells through `row`, `col` along one of the directions.
  abbrev pub FiveAlong : List (ℤ × ℤ) → Type 0
  FiveAlong [] = ⊥
  FiveAlong ((dr, dc) ∷ ds) = FourMore dr dc ⊎ FiveAlong ds

  abbrev AllMove : List (ℤ × ℤ) → Type 0
  AllMove [] = Unit {0}
  AllMove ((dr, dc) ∷ ds) = Moves dr dc × Moves (neg dr) (neg dc) × AllMove ds

  FourMore-iff :
      (dr dc : ℤ) (n m : ℕ)
      → Longest b dr dc cell (row +ℤ dr) (col +ℤ dc) n
      → Longest b (neg dr) (neg dc) cell (row +ℤ neg dr) (col +ℤ neg dc) m
      → (leb 5 (1 + n + m) ≡ true) ↔ FourMore dr dc
  FourMore-iff dr dc n m ahead behind = (
    λ long. elim (Bool-cases (leb 4 n)) [
      | inl le ↦ (
        4,
        0,
        refl,
        Run-prefix b dr dc cell 4 n (row +ℤ dr) (col +ℤ dc) (ground arith) ahead.run,
        tt,
      )
      | inr gt ↦
          let (j, e) = missing n (ground arith) in
          (
            n,
            j,
            e,
            ahead.run,
            Run-prefix b (neg dr) (neg dc) cell j m (row +ℤ neg dr) (col +ℤ neg dc) (ground arith)
                behind.run,
          )
    ],
    λ (i, j, sum, run, back). ground (
      arith,
      Longest-le b dr dc cell i n (row +ℤ dr) (col +ℤ dc) ahead run,
      Longest-le b (neg dr) (neg dc) cell j m (row +ℤ neg dr) (col +ℤ neg dc) behind back,
    ),
  )
    where
      missing : (n : ℕ) → n ≤ 4 → (j : ℕ) × (n + j ≡ 4)
      missing n le = (4 - n, omega arith)

  module _ (size : IsSized b) (e : at b row col ≡ ok cell) where
    check_dirs-FiveAlong :
        (ds : List (ℤ × ℤ))
        → AllMove ds
        → (won : Bool) × (check_dirs b row col ds ≡ ok won) × ((won ≡ true) ↔ FiveAlong ds)
    unfolding check_dirs
    check_dirs-FiveAlong [] all = (false, refl, (false≢true, λ h. absurd h))
    check_dirs-FiveAlong ((dr, dc) ∷ ds) (there, back, all) =
        let (n, en, ahead) = count_dir-Longest b row col dr dc cell size e there in
        let (m, em, behind) = count_dir-Longest b row col (neg dr) (neg dc) cell size e back in
        let (rest, er, iff) = check_dirs-FiveAlong ds all in
        let long = FourMore-iff dr dc n m ahead behind in
        let ran =
          ap
            (λ o. o >>= λ n. count_dir b row col (neg dr) (neg dc) >>= λ m.
              if leb 5 (1 + n + m) then ok true else check_dirs b row col ds)
            en
          ∙ ap (λ o. o >>= λ m. if leb 5 (1 + n + m) then ok true else check_dirs b row col ds)
              em in
        elim (Bool-cases (leb 5 (1 + n + m))) [
          | inl five ↦ (
            true,
            ran ∙ ap (λ t. if t then ok true else check_dirs b row col ds) five,
            ((λ _. inl (long.0 five)), λ _. refl),
          )
          | inr less ↦ (
            rest,
            ran ∙ ap (λ t. if t then ok true else check_dirs b row col ds) less ∙ er,
            (
              (λ h. inr (iff.0 h)),
              λ h. elim h [
                | inl four ↦ absurd (false≢true (sym less ∙ long.1 four))
                | inr five ↦ iff.1 five
              ],
            ),
          )
        ]

    dirs-AllMove : AllMove dirs
    unfolding neg
    dirs-AllMove =
        let up = inl refl in
        let down = inr refl in
        (inl up, inl down, (inr up, inr down, (inl up, inl down, (inl up, inl down, tt))))

    -- On a board whose cells are all stored, for a cell that can be read, `checkWin` returns,
    -- without running out of fuel, whether five cells in a row through that cell hold what it
    -- holds, along one of the four directions.
    pub check_win-five :
        (won : Bool) × (check_win b row col ≡ ok won) × ((won ≡ true) ↔ FiveAlong dirs)
    unfolding check_win
    check_win-five = check_dirs-FiveAlong dirs dirs-AllMove
