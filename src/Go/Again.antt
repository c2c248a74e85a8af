-- ===== src/Go/Again.antt =====
-- Board::place (board.cpp) on a copy of the board and on the board.
use aimeath.Common.{
  ℕ, ◌≡◌, Bool, true, false, Outcome, ok, undefined, unfinished, ◌>>=◌, not, if◌then◌else◌,
}
use aimeath.Common.Int.{ℤ, pos, negsuc}
use aimeath.Go.{
  Stone, empty, stone_eq, Board, on_board, to_index, load, place_at, place, place_index,
}

module _ (s : Stone) (b : Board) (captured captured' : ℕ) where
  abbrev Same : Outcome (Bool × Board × ℕ) → Outcome (Bool × Board × ℕ) → Type 0
  Same m m' = (r : Bool × Board × ℕ) → m ≡ ok r → (n : ℕ) × (m' ≡ ok (r.0, r.1, n))

  placed_index :
      (idx : ℕ) (t : Bool)
      → Same
          (if t then ok (false, b, captured) else (do
            (placed, grid, taken) ← place_at s idx b.grid
            ok (placed, record b { grid = grid }, taken)))
          (if t then ok (false, b, captured') else (do
            (placed, grid, taken) ← place_at s idx b.grid
            ok (placed, record b { grid = grid }, taken)))
  placed_index idx true r e = (captured', cc)
  placed_index idx false r e = (r.2, e)

  place_index-Same : (idx : ℤ) → Same (place_index s captured b idx) (place_index s captured' b idx)
  unfolding place_index
  place_index-Same (negsuc n) r e = cc
  place_index-Same (pos idx) r e = go (load b.grid idx) r e
    where
      go :
          (stone : Outcome Stone)
          → Same
              (stone >>= λ stone.
                (if not (stone_eq stone empty) then ok (false, b, captured) else (do
                  (placed, grid, taken) ← place_at s idx b.grid
                  ok (placed, record b { grid = grid }, taken))))
              (stone >>= λ stone.
                (if not (stone_eq stone empty) then ok (false, b, captured') else (do
                  (placed, grid, taken) ← place_at s idx b.grid
                  ok (placed, record b { grid = grid }, taken))))
      go undefined r e = cc
      go unfinished r e = cc
      go (ok stone) r e = placed_index idx (not (stone_eq stone empty)) r e

  -- The answer and the board do not depend on what `captured` was.
  pub place_again :
      (row col : ℤ) (r : Bool × Board × ℕ)
      → place row col s captured b ≡ ok r
      → (n : ℕ) × (place row col s captured' b ≡ ok (r.0, r.1, n))
  unfolding place
  place_again row col = go (not (on_board row col))
    where
      go :
          (t : Bool)
          → Same
              (if t then ok (false, b, captured) else place_index s captured b (to_index row col))
              (if t then ok (false, b, captured') else place_index s captured' b (to_index row col))
      go true r e = (captured', cc)
      go false r e = place_index-Same (to_index row col) r e
