-- ===== src/Gomoku/Line.antt =====
-- GomokuGame::countDir (game.cpp): runs of equal stones along a direction.
use aimeath.Common.{
  ℕ, zero, suc, ◌+◌, ◌*◌, ◌≤◌, ◌≡◌, refl, sym, ap, ◌∙◌, ◌⊎◌, inl, inr, true, false, length, get_or,
  arith, ok, ok-injective, Bool-cases, ◌>>=◌,
}
use mathlib.Core.Bool.{false≢true}
use aimeath.Common.Int.{ℤ, ◌+ℤ◌, Below-pos, within→Below}
use aimeath.Game.Grid.{read-grid_index}
use aimeath.Gomoku.Walk.{Walk, IsUnit, Walk-le}
use aimeath.Gomoku.{Cell, empty, black, white, cell_eq, Board, in_bounds, at, count_loop, count_dir}

-- The cell `r`, `c` lies on the board and holds `cell`.
abbrev pub Holds : Board → Cell → ℤ → ℤ → Type 0
Holds b cell r c = (in_bounds b r c ≡ true) × (at b r c ≡ ok cell)

-- The `n` cells from `r`, `c` on, in steps of `dr`, `dc`, hold `cell`.
abbrev pub Run : Board → ℤ → ℤ → Cell → ℕ → ℤ → ℤ → Type 0
Run b dr dc cell zero r c = Unit {0}
Run b dr dc cell (suc n) r c = Holds b cell r c × Run b dr dc cell n (r +ℤ dr) (c +ℤ dc)

pub cell_eq→≡ : (a c : Cell) → cell_eq a c ≡ true → a ≡ c
cell_eq→≡ empty empty e = refl
cell_eq→≡ black black e = refl
cell_eq→≡ white white e = refl
cell_eq→≡ a c e = ground arith

pub cell_eq_refl : (a : Cell) → cell_eq a a ≡ true
cell_eq_refl empty = refl
cell_eq_refl black = refl
cell_eq_refl white = refl

-- Every cell of the board can be read.
abbrev pub IsSized : Board → Type 0
IsSized b = length b.cells ≡ b.size * b.size

pub at_inside :
    (b : Board) (r c : ℤ) → IsSized b → in_bounds b r c ≡ true → (a : Cell) × (at b r c ≡ ok a)
unfolding at
at_inside b r c size h =
    let (i, er, hr) = Below-pos r b.size (ground (arith, within→Below r b.size)) in
    let (j, ec, hc) = Below-pos c b.size (ground (arith, within→Below c b.size)) in
    (
      get_or b.cells (i * b.size + j) empty,
      rw (er, ec) (read-grid_index b.size b.size b.cells size i j hr hc empty),
    )

-- How far a run goes: it has `n` cells and no more.
pub record Longest (b : Board) (dr dc : ℤ) (cell : Cell) (r c : ℤ) (n : ℕ) : Type 0 where
  pub run : Run b dr dc cell n r c
  pub ends : ¬ Run b dr dc cell (suc n) r c

module _ (b : Board) (dr dc : ℤ) (cell : Cell) (size : IsSized b) where
  stop_outside :
      (fuel : ℕ) (r c : ℤ) (cnt : ℕ)
      → in_bounds b r c ≡ false
      → count_loop b dr dc cell (suc fuel) r c cnt ≡ ok cnt
  unfolding count_loop
  stop_outside fuel r c cnt out = rw out

  stop_other :
      (fuel : ℕ) (r c : ℤ) (cnt : ℕ) (a : Cell)
      → in_bounds b r c ≡ true
      → at b r c ≡ ok a
      → cell_eq a cell ≡ false
      → count_loop b dr dc cell (suc fuel) r c cnt ≡ ok cnt
  unfolding count_loop
  stop_other fuel r c cnt a inside e other = ground arith

  go_on :
      (fuel : ℕ) (r c : ℤ) (cnt : ℕ)
      → Holds b cell r c
      → count_loop b dr dc cell (suc fuel) r c cnt
        ≡ count_loop b dr dc cell fuel (r +ℤ dr) (c +ℤ dc) (cnt + 1)
  unfolding count_loop
  go_on fuel r c cnt (inside, e) = ground (arith, cell_eq_refl cell)

  -- The loop finds the end of the run, or else the run is as long as the fuel.
  pub count_loop-Longest :
      (fuel : ℕ) (r c : ℤ) (cnt : ℕ)
      → Run b dr dc cell fuel r c
        ⊎ ((n : ℕ) × (count_loop b dr dc cell fuel r c cnt ≡ ok (cnt + n))
            × Longest b dr dc cell r c n)
  count_loop-Longest zero r c cnt = inl tt
  count_loop-Longest (suc fuel) r c cnt = elim (Bool-cases (in_bounds b r c)) [
    | inr out ↦ inr (
      0,
      stop_outside fuel r c cnt out ∙ ap ok (omega arith),
      record { run = tt; ends = λ (h, _). false≢true (sym out ∙ h.0) },
    )
    | inl inside ↦
        let (a, e) = at_inside b r c size inside in
        elim (Bool-cases (cell_eq a cell)) [
          | inr other ↦ inr (
            0,
            stop_other fuel r c cnt a inside e other ∙ ap ok (omega arith),
            record {
              run = tt;
              ends = λ (h, _).
                  false≢true (sym other ∙ rw (ok-injective (sym e ∙ h.1)) (cell_eq_refl cell));
            },
          )
          | inl same ↦
              let held : Holds b cell r c = (inside, e ∙ ap ok (cell_eq→≡ a cell same)) in
              elim (count_loop-Longest fuel (r +ℤ dr) (c +ℤ dc) (cnt + 1)) [
                | inl run ↦ inl (held, run)
                | inr (n, counted, longest) ↦ inr (
                  suc n,
                  go_on fuel r c cnt held ∙ counted ∙ ap ok (omega arith),
                  record { run = (held, longest.run); ends = λ (_, more). longest.ends more },
                )
              ]
        ]
  ]

Run-Walk_rows :
    (b : Board) (dr dc : ℤ) (cell : Cell) (n : ℕ) (r c : ℤ)
    → Run b dr dc cell n r c
    → Walk b.size dr n r
Run-Walk_rows b dr dc cell zero r c run = tt
Run-Walk_rows b dr dc cell (suc n) r c (h, run) =
    (ground (arith, within→Below r b.size), Run-Walk_rows b dr dc cell n (r +ℤ dr) (c +ℤ dc) run)

Run-Walk_cols :
    (b : Board) (dr dc : ℤ) (cell : Cell) (n : ℕ) (r c : ℤ)
    → Run b dr dc cell n r c
    → Walk b.size dc n c
Run-Walk_cols b dr dc cell zero r c run = tt
Run-Walk_cols b dr dc cell (suc n) r c (h, run) =
    (ground (arith, within→Below c b.size), Run-Walk_cols b dr dc cell n (r +ℤ dr) (c +ℤ dc) run)

-- A direction of the game moves in a coordinate.
abbrev pub Moves : ℤ → ℤ → Type 0
Moves dr dc = IsUnit dr ⊎ IsUnit dc

Run-le :
    (b : Board) (dr dc : ℤ) (cell : Cell) (n : ℕ) (r c : ℤ)
    → Moves dr dc
    → Run b dr dc cell n r c
    → n ≤ b.size
Run-le b dr dc cell n r c (inl u) run =
    Walk-le b.size dr n r u (Run-Walk_rows b dr dc cell n r c run)
Run-le b dr dc cell n r c (inr u) run =
    Walk-le b.size dc n c u (Run-Walk_cols b dr dc cell n r c run)

-- On a board whose cells are all stored, from a cell that can be read and along a direction that
-- moves in a coordinate, `countDir` returns, without running out of fuel, the number of cells
-- that hold the same, up to the first that does not or to the edge of the board.
pub count_dir-Longest :
    (b : Board) (row col dr dc : ℤ) (cell : Cell)
    → IsSized b
    → at b row col ≡ ok cell
    → Moves dr dc
    → (n : ℕ) × (count_dir b row col dr dc ≡ ok n) × Longest b dr dc cell (row +ℤ dr) (col +ℤ dc) n
unfolding count_dir
count_dir-Longest b row col dr dc cell size e moves =
    elim (count_loop-Longest b dr dc cell size (suc b.size) (row +ℤ dr) (col +ℤ dc) 0) [
      | inl run ↦
          absurd (omega (arith, Run-le b dr dc cell (suc b.size) (row +ℤ dr) (col +ℤ dc) moves run))
      | inr (n, counted, longest) ↦ (
        n,
        ap (λ m. m >>= λ c. count_loop b dr dc c (suc b.size) (row +ℤ dr) (col +ℤ dc) 0) e
            ∙ counted
            ∙ ap ok (omega arith),
        longest,
      )
    ]
