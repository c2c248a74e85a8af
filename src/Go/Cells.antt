-- ===== src/Go/Cells.antt =====
-- The cells of a board (board.cpp): the border, the neighbours of a cell, and its liberties.
use aimeath.Common.{
  ℕ, zero, suc, ◌+◌, ◌-◌, ◌<◌, ◌≤◌, ◌≡◌, ◌≢◌, refl, sym, subst, ◌∙◌, ◌⊎◌, inl, inr, Bool, true,
  false, List, [], ◌∷◌, ok, Bool-cases, length, get_or, set, length-set, get_or-set_ne, arith,
}
use mathlib.Core.Bool.{false≢true}
use mathlib.Core.List.{Memᴰ}
use mathlib.Core.List.Memᴰ
use aimeath.Common.Int.{ℤ, pos, negsuc, ◌+ℤ◌}
use aimeath.Common.Loops.{marked}
use aimeath.Go.{Stone, empty, black, white, stone_eq, cells, is_border, dirs, offset, load}

pub stone_eq→≡ : (a b : Stone) → stone_eq a b ≡ true → a ≡ b
stone_eq→≡ empty empty h = refl
stone_eq→≡ black black h = refl
stone_eq→≡ white white h = refl
stone_eq→≡ empty black h = cc
stone_eq→≡ empty white h = cc
stone_eq→≡ black empty h = cc
stone_eq→≡ black white h = cc
stone_eq→≡ white empty h = cc
stone_eq→≡ white black h = cc

pub stone_eq→≢ : (a b : Stone) → stone_eq a b ≡ false → a ≢ b
stone_eq→≢ empty b h e = cc
stone_eq→≢ black b h e = cc
stone_eq→≢ white b h e = cc

pub load-get_or :
    {A : Type 0} (xs : List A) (i : ℕ) (d : A) → i < length xs → load xs i ≡ ok (get_or xs i d)
load-get_or [] i d h = absurd (omega arith)
load-get_or (x ∷ xs) zero d h = refl
load-get_or (x ∷ xs) (suc i) d h = load-get_or xs i d (omega arith)

-- `d` leads from the cell `i` to its neighbour `j`.
abbrev pub Next : ℕ → ℕ → Type 0
Next i j = (d : ℤ) × Memᴰ d dirs × (offset i d ≡ ok j)

not_border : (i : ℕ) → i < cells → is_border i ≡ false → (22 ≤ i) × (i ≤ 418)
not_border i lt h = ground arith

back_in : (i k : ℕ) → k < i → i < cells → (j : ℕ) × (offset i (negsuc k) ≡ ok j) × (j < cells)
unfolding offset ◌+ℤ◌
back_in i k h lt = (i - suc k, ground arith, omega arith)

forth_in : (i k : ℕ) → i + k < cells → (j : ℕ) × (offset i (pos k) ≡ ok j) × (j < cells)
unfolding offset ◌+ℤ◌
forth_in i k h = (i + k, ground arith, h)

-- A cell of the vector has four neighbours in the vector, if it is not on the border.
pub offset_in :
    (i : ℕ) (d : ℤ)
    → i < cells
    → is_border i ≡ false
    → Memᴰ d dirs
    → (j : ℕ) × (offset i d ≡ ok j) × (j < cells)
offset_in i d lt h (Memᴰ.head e) = rw e (back_in i 20 (omega (arith, not_border i lt h)) lt)
offset_in i d lt h (Memᴰ.tail (Memᴰ.head e)) =
    rw e (forth_in i 21 (omega (arith, not_border i lt h)))
offset_in i d lt h (Memᴰ.tail (Memᴰ.tail (Memᴰ.head e))) =
    rw e (back_in i 0 (omega (arith, not_border i lt h)) lt)
offset_in i d lt h (Memᴰ.tail (Memᴰ.tail (Memᴰ.tail (Memᴰ.head e)))) =
    rw e (forth_in i 1 (omega (arith, not_border i lt h)))
offset_in i d lt h (Memᴰ.tail (Memᴰ.tail (Memᴰ.tail (Memᴰ.tail m)))) = absurd (Memᴰ.not-nil m)

offset-back : (i k j : ℕ) → offset i (negsuc k) ≡ ok j → j + suc k ≡ i
unfolding offset ◌+ℤ◌
offset-back i k j e = ground arith

offset-forth : (i k j : ℕ) → offset i (pos k) ≡ ok j → j ≡ i + k
unfolding offset ◌+ℤ◌
offset-forth i k j e = ground arith

offset_of_back : (i k j : ℕ) → i ≡ j + suc k → offset i (negsuc k) ≡ ok j
unfolding offset ◌+ℤ◌
offset_of_back i k j e = ground arith

offset_of_forth : (i k j : ℕ) → j ≡ i + k → offset i (pos k) ≡ ok j
unfolding offset ◌+ℤ◌
offset_of_forth i k j e = ground arith

-- Neighbours are so in both directions.
pub Next-sym : (i j : ℕ) → Next i j → Next j i
Next-sym i j (d, Memᴰ.head e, o) = (
  pos 21,
  Memᴰ.tail (Memᴰ.head refl),
  offset_of_forth j 21 i (sym (offset-back i 20 j (subst (λ d. offset i d ≡ ok j) e o))),
)
Next-sym i j (d, Memᴰ.tail (Memᴰ.head e), o) = (
  negsuc 20,
  Memᴰ.head refl,
  offset_of_back j 20 i (offset-forth i 21 j (subst (λ d. offset i d ≡ ok j) e o)),
)
Next-sym i j (d, Memᴰ.tail (Memᴰ.tail (Memᴰ.head e)), o) = (
  pos 1,
  Memᴰ.tail (Memᴰ.tail (Memᴰ.tail (Memᴰ.head refl))),
  offset_of_forth j 1 i (sym (offset-back i 0 j (subst (λ d. offset i d ≡ ok j) e o))),
)
Next-sym i j (d, Memᴰ.tail (Memᴰ.tail (Memᴰ.tail (Memᴰ.head e))), o) = (
  negsuc 0,
  Memᴰ.tail (Memᴰ.tail (Memᴰ.head refl)),
  offset_of_back j 0 i (offset-forth i 1 j (subst (λ d. offset i d ≡ ok j) e o)),
)
Next-sym i j (d, Memᴰ.tail (Memᴰ.tail (Memᴰ.tail (Memᴰ.tail m))), o) = absurd (Memᴰ.not-nil m)

abbrev pub stone_at : List Stone → ℕ → Stone
stone_at grid i = get_or grid i empty

pub record IsBordered (grid : List Stone) : Type 0 where
  pub size : length grid ≡ cells
  pub border : (i : ℕ) → is_border i ≡ true → stone_at grid i ≡ empty

module _ (grid : List Stone) (color : Stone) where
  -- The cell leads to a liberty: it is one itself, or it holds a stone of the color and a neighbour
  -- leads to one.
  pub data Liberty : ℕ → Type 0 where
    free : {i : ℕ} → stone_at grid i ≡ empty → is_border i ≡ false → Liberty i
    through : {i j : ℕ} → stone_at grid i ≡ color → Next i j → Liberty j → Liberty i

  -- The searches do not enter the cell.
  abbrev pub Wall : ℕ → Type 0
  Wall i = (stone_at grid i ≢ color) × (stone_at grid i ≡ empty → is_border i ≡ true)

  abbrev pub Handled : List Bool → ℕ → Type 0
  Handled v i = (marked v i ≡ true) ⊎ Wall i

  Wall→no_Liberty : {i : ℕ} → Wall i → ¬ Liberty i
  Wall→no_Liberty (other, border) (free e inside) = absurd (false≢true (sym inside ∙ border e))
  Wall→no_Liberty (other, border) (through e n l) = other e

  -- Flags that are closed under the neighbours of the color and hold no liberty.
  pub sealed_lem :
      (v : List Bool)
      → ((i j : ℕ) → marked v i ≡ true → stone_at grid i ≡ color → Next i j → Handled v j)
      → ((i : ℕ) → marked v i ≡ true → stone_at grid i ≡ empty → is_border i ≡ true)
      → {i : ℕ} → Handled v i
      → ¬ Liberty i
  sealed_lem v closed none (inr wall) l = Wall→no_Liberty wall l
  sealed_lem v closed none (inl m) (free {i} e inside) = false≢true (sym inside ∙ none i m e)
  sealed_lem v closed none (inl m) (through {i} {j} e n l) =
      sealed_lem v closed none (closed i j m e n) l

module _ (grid : List Stone) (bordered : IsBordered grid) where
  pub stone_inside : (i : ℕ) → stone_at grid i ≢ empty → is_border i ≡ false
  stone_inside i ne = elim (Bool-cases (is_border i)) [
    | inl outer ↦ absurd (ne (bordered.border i outer))
    | inr inner ↦ inner
  ]

  pub stone_lt : (i : ℕ) → stone_at grid i ≢ empty → i < cells
  stone_lt i ne = subst (λ n. i < n) bordered.size (stone-lt-length grid i ne)
    where
      stone-lt-length : (xs : List Stone) (i : ℕ) → stone_at xs i ≢ empty → i < length xs
      stone-lt-length [] i h = absurd (h refl)
      stone-lt-length (x ∷ xs) zero h = omega arith
      stone-lt-length (x ∷ xs) (suc i) h = omega (arith, stone-lt-length xs i h)

  pub load_stone : (i : ℕ) → i < cells → load grid i ≡ ok (stone_at grid i)
  load_stone i lt = load-get_or grid i empty (rw bordered.size lt)

  -- Another stone in a cell that is not on the border.
  pub IsBordered-set : (i : ℕ) (s : Stone) → is_border i ≡ false → IsBordered (set grid i s)
  IsBordered-set i s inside = record {
    size = length-set grid i s ∙ bordered.size;
    border = λ j e.
        get_or-set_ne grid i j s empty
          (λ q. false≢true (sym inside ∙ subst (λ k. is_border k ≡ true) (sym q) e))
        ∙ bordered.border j e;
  }
