-- ===== src/Game/Grid.antt =====
-- A board kept row by row in one vector, as in pacman and gomoku: `cells[row * width + col]`. An
-- index out of range is undefined behaviour.
use aimeath.Common.{
  ◌/◌, ◌%◌, ℕ, zero, suc, ◌+◌, ◌*◌, ◌<◌, ◌≡◌, refl, List, [], ◌∷◌, length, get_elem?, get_or,
  Option, none, some, Outcome, ok, undefined, arith,
}
use aimeath.Common.Int.{ℤ, pos, negsuc, sub_ℕ, ◌+ℤ◌}

-- The largest `int`. A sum or product beyond it is undefined behaviour.
abbrev pub int_max : ℕ
int_max = 2147483647

-- row * width + col. On a board whose cells have been counted by an `int` it is in the range of `int`
-- wherever it is an index of the vector.
unfoldable pub grid_index : ℕ → ℤ → ℤ → ℤ
unfolding ◌+ℤ◌
grid_index w (pos row) col = pos (row * w) +ℤ col
grid_index w (negsuc row) col = sub_ℕ 0 (suc row * w) +ℤ col

module _ {A : Type 0} where
  abbrev pub or_undefined : Option A → Outcome A
  or_undefined none = undefined
  or_undefined (some a) = ok a

  unfoldable pub read : List A → ℤ → Outcome A
  read xs (pos i) = or_undefined (get_elem? xs i)
  read xs (negsuc i) = undefined

  pub get_elem?-get_or :
      (xs : List A) (i : ℕ) (d : A) → i < length xs → get_elem? xs i ≡ some (get_or xs i d)
  get_elem?-get_or [] i d h = absurd (omega arith)
  get_elem?-get_or (x ∷ xs) zero d h = refl
  get_elem?-get_or (x ∷ xs) (suc i) d h = get_elem?-get_or xs i d (omega arith)

pub grid_index_pos : (w row col : ℕ) → grid_index w (pos row) (pos col) ≡ pos (row * w + col)
unfolding grid_index
grid_index_pos w row col = ground arith

pub grid_index-lt : (w h row col : ℕ) → row < h → col < w → row * w + col < w * h
grid_index-lt w h row col hr hc = grind arith

grid_index_rows : (w r r' c c' : ℕ) → c < w → r < r' → r * w + c < r' * w + c'
grid_index_rows w r r' c c' hc hr = grind arith

-- Different cells have different indices.
pub grid_index_inj :
    (w r r' c c' : ℕ) → c < w → c' < w → r * w + c ≡ r' * w + c' → (r ≡ r') × (c ≡ c')
grid_index_inj w r r' c c' hc hc' e =
    ground (arith, grid_index_rows w r r' c c', grid_index_rows w r' r c' c)

-- Each index of the vector is that of a cell.
pub cell_of_index :
    (w h i : ℕ) → i < w * h → 0 < w → (i % w < w) × (i / w < h) × (i / w * w + i % w ≡ i)
cell_of_index w h i lt pos_w = (grind arith, grind arith, grind arith)

module _ {A : Type 0} (w h : ℕ) (cells : List A) (size : length cells ≡ w * h) (row col : ℕ)
    (hr : row < h) (hc : col < w) where
  pub get_elem?-grid_index :
      (d : A) → get_elem? cells (row * w + col) ≡ some (get_or cells (row * w + col) d)
  get_elem?-grid_index d =
      get_elem?-get_or cells (row * w + col) d (rw size (grid_index-lt w h row col hr hc))

  pub read-grid_index :
      (d : A) → read cells (grid_index w (pos row) (pos col)) ≡ ok (get_or cells (row * w + col) d)
  unfolding read
  read-grid_index d = rw (grid_index_pos w row col) (rw (get_elem?-grid_index d))
