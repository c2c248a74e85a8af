-- ===== src/Go/Rules.antt =====
-- Board::place and Board::isLegal (board.cpp) at a row and a column.
use aimeath.Common.{
  ℕ, suc, ◌+◌, ◌*◌, ◌<◌, ◌≡◌, ◌≢◌, refl, sym, subst, ◌∙◌, ap, ◌⊎◌, inl, inr, Bool, true, false, ok,
  Bool-cases, not, arith, length, get_or-set_ne,
}
use mathlib.Core.Bool.{false≢true}
use aimeath.Common.Int.{ℤ, pos, negsuc, inc}
use aimeath.Common.Ends.{Ends, Ends->>=, Ends-of, Ends-map, Ends-ok, Ends-if_cases}
use aimeath.Game.Grid.{grid_index_pos}
use aimeath.Go.{
  Stone, empty, opponent, stone_eq, Board, cells, is_border, on_board, to_index, load, place_at,
  place, place_index,
}
use aimeath.Go.Simulate.{legal_at, legal_index, is_legal}
use aimeath.Go.Cells.{stone_eq→≡, stone_eq→≢, stone_at, IsBordered, load_stone}
use aimeath.Go.Remove.{stones, stones-set-stone}
use aimeath.Go.Capture.{opponent-ne, Stone-cases}
use aimeath.Go.Move.{
  start, start-idx, IsSuicide, IsMoved, Played, IsMoved→not_suicide, place_at-Played,
}
use aimeath.Go.Legal.{legal_at-not_suicide}

-- The cell of a row and a column on the board.
pub record Cell (row col : ℤ) : Type 0 where
  pub on : on_board row col ≡ true
  pub idx : ℕ
  pub index : to_index row col ≡ pos idx
  pub lt : idx < cells
  pub inside : is_border idx ≡ false

pub cell_of : (row col : ℤ) → on_board row col ≡ true → Cell row col
unfolding to_index inc
cell_of (pos r) (pos c) h = record {
  on = h;
  idx = suc r * 21 + suc c;
  index = grid_index_pos 21 (suc r) (suc c);
  lt = ground arith;
  inside = ground arith;
}
cell_of (negsuc r) c h = cc
cell_of (pos r) (negsuc c) h = ground arith

pub not-true : {b : Bool} → not b ≡ true → b ≡ false
not-true {b} h = ground arith

pub not-false : {b : Bool} → not b ≡ false → b ≡ true
not-false {b} h = ground arith

pos-injective : {a b : ℕ} → pos a ≡ pos b → a ≡ b
pos-injective e = cc

module _ (row col : ℤ) (s : Stone) (b : Board) (bordered : IsBordered b.grid)
    (colored : s ≢ empty) where
  -- The move puts a stone on an empty cell, where it is not suicide.
  pub record CanMove : Type 0 where
    pub cell : Cell row col
    pub vacant : stone_at b.grid cell.idx ≡ empty
    pub legal : ¬ IsSuicide b.grid s cell.idx

  -- The answer, the board and the captured stones.
  abbrev pub Placed : ℕ → Bool × Board × ℕ → Type 0
  Placed captured (placed, b', taken) =
      (placed ≡ true)
        × ((m : CanMove) × IsMoved b.grid s m.cell.idx b'.grid taken × (b'.dead ≡ b.dead))
      ⊎ (placed ≡ false) × (b' ≡ b) × ¬ CanMove

  abbrev pub Legal : Bool → Type 0
  Legal l = (l ≡ true) × CanMove ⊎ (l ≡ false) × ¬ CanMove

  off_board : on_board row col ≡ false → ¬ CanMove
  off_board off m = false≢true (sym off ∙ m.cell.on)

  same_cell : (c c' : Cell row col) → c.idx ≡ c'.idx
  same_cell c c' = pos-injective (sym c.index ∙ c'.index)

  module _ (c : Cell row col) where
    taken_cell : stone_at b.grid c.idx ≢ empty → ¬ CanMove
    taken_cell held m = held (subst (λ i. stone_at b.grid i ≡ empty) (same_cell m.cell c) m.vacant)

    suicide : IsSuicide b.grid s c.idx → ¬ CanMove
    suicide su m = m.legal (subst (IsSuicide b.grid s) (same_cell c m.cell) su)

    place_index-Placed :
        (captured : ℕ) → Ends ⊥ (Placed captured) (place_index s captured b (pos c.idx))
    unfolding place_index
    place_index-Placed captured =
        Ends->>= ⊥ (λ a. stone_at b.grid c.idx ≡ a) (Placed captured) (load b.grid c.idx) _
          (Ends-of ⊥ _ (load_stone b.grid bordered c.idx c.lt) refl)
          λ stone es.
            Ends-if_cases ⊥ (Placed captured) (not (stone_eq stone empty)) _ _
              (λ held.
                inr (
                  refl,
                  refl,
                  taken_cell (λ e. stone_eq→≢ stone empty (not-true held) (sym es ∙ e)),
                ))
              (λ free.
                let vacant = es ∙ stone_eq→≡ stone empty (not-false free) in
                Ends->>= ⊥ (Played b.grid s c.idx) (Placed captured) (place_at s c.idx b.grid) _
                  (place_at-Played b.grid s c.idx bordered colored c.lt c.inside vacant)
                  λ (placed, g, taken) played. elim played [
                    | inl (e, moved) ↦ inl (
                      e,
                      (
                        record {
                          cell = c;
                          vacant = vacant;
                          legal = IsMoved→not_suicide b.grid s c.idx g taken moved;
                        },
                        moved,
                        refl,
                      ),
                    )
                    | inr (e, same, _, su) ↦
                        inr (e, ap (λ h. record b { grid = h }) same, suicide su)
                  ])

    legal_index-Legal : Ends ⊥ Legal (legal_index s b (pos c.idx))
    unfolding legal_index
    legal_index-Legal =
        Ends->>= ⊥ (λ a. stone_at b.grid c.idx ≡ a) Legal (load b.grid c.idx) _
          (Ends-of ⊥ _ (load_stone b.grid bordered c.idx c.lt) refl)
          λ stone es.
            Ends-if_cases ⊥ Legal (not (stone_eq stone empty)) _ _
              (λ held.
                inr (refl, taken_cell (λ e. stone_eq→≢ stone empty (not-true held) (sym es ∙ e))))
              (λ free.
                let vacant = es ∙ stone_eq→≡ stone empty (not-false free) in
                Ends-map ⊥ _ Legal (legal_at (start b.grid s c.idx) s c.idx)
                  (λ l (yes_, no_). elim (Bool-cases l) [
                    | inl t ↦ inl (t, record { cell = c; vacant = vacant; legal = yes_ t })
                    | inr f ↦ inr (f, suicide (no_ f))
                  ])
                  (legal_at-not_suicide b.grid s c.idx bordered colored c.lt c.inside vacant))

  pub place-Placed : (captured : ℕ) → Ends ⊥ (Placed captured) (place row col s captured b)
  unfolding place
  place-Placed captured =
      Ends-if_cases ⊥ (Placed captured) (not (on_board row col)) _ _
        (λ off. inr (refl, refl, off_board (not-true off)))
        (λ on.
          let c = cell_of row col (not-false on) in
          subst (λ i. Ends ⊥ (Placed captured) (place_index s captured b i)) (sym c.index)
            (place_index-Placed c captured))

  pub is_legal-Legal : Ends ⊥ Legal (is_legal row col s b)
  unfolding is_legal
  is_legal-Legal =
      Ends-if_cases ⊥ Legal (not (on_board row col)) _ _
        (λ off. inr (refl, off_board (not-true off)))
        (λ on.
          let c = cell_of row col (not-false on) in
          subst (λ i. Ends ⊥ Legal (legal_index s b i)) (sym c.index) (legal_index-Legal c))

-- The stone `s` was put on an empty cell; each other cell is as it was, or held a stone of the
-- opponent that was taken; and the number of stones says how many were.
pub record IsStored (row col : ℤ) (s : Stone) (b b' : Board) (taken : ℕ) : Type 0 where
  pub cell : Cell row col
  pub vacant : stone_at b.grid cell.idx ≡ empty
  pub stored : stone_at b'.grid cell.idx ≡ s
  pub others :
      (i : ℕ)
      → cell.idx ≢ i
      → (stone_at b'.grid i ≡ stone_at b.grid i)
        ⊎ (stone_at b.grid i ≡ opponent s) × (stone_at b'.grid i ≡ empty)
  pub balance : stones b'.grid + taken ≡ suc (stones b.grid)
  pub marks : b'.dead ≡ b.dead

module _ (row col : ℤ) (s : Stone) (b : Board) (bordered : IsBordered b.grid)
    (colored : s ≢ empty) where
  moved-IsStored :
      (b' : Board) (taken : ℕ) (m : CanMove row col s b bordered colored)
      → IsMoved b.grid s m.cell.idx b'.grid taken
      → b'.dead ≡ b.dead
      → IsStored row col s b b' taken
  moved-IsStored b' taken m moved marks =
      let idx = m.cell.idx in
      let lt : idx < length b.grid = rw bordered.size m.cell.lt in
      let own = start-idx b.grid s idx bordered colored m.cell.lt m.cell.inside m.vacant in
      let kept : (i : ℕ) → idx ≢ i → stone_at (start b.grid s idx) i ≡ stone_at b.grid i =
        λ i ne. get_or-set_ne b.grid idx i s empty ne in
      record {
        cell = m.cell;
        vacant = m.vacant;
        stored = moved.capturing.others idx (λ e. (opponent-ne s colored).1 (sym e ∙ own)) ∙ own;
        others = λ i ne. elim (Stone-cases (stone_at (start b.grid s idx) i) (opponent s)) [
          | inr other ↦ inl (moved.capturing.others i other ∙ kept i ne)
          | inl held ↦ elim (moved.capturing.either i held) [
            | inl stays ↦ inl (stays ∙ sym held ∙ kept i ne)
            | inr (gone, _) ↦ inr (sym (kept i ne) ∙ held, gone)
          ]
        ];
        balance = moved.capturing.counted ∙ stones-set-stone b.grid idx s lt m.vacant colored;
        marks = marks;
      }

-- On a board with an empty border, and for a stone of either color, `isLegal` and `place` both
-- return, with the same answer. If it is yes, the cell was empty and holds the stone now, each other
-- cell is as it was or held a stone of the opponent and is empty now, the stones of the board and
-- those taken are one more than before, and the marks are as they were. If it is no, the board is as
-- it was.
pub is_legal-place :
    (row col : ℤ) (s : Stone) (captured : ℕ) (b : Board)
    → IsBordered b.grid
    → s ≢ empty
    → (answer : Bool) × (is_legal row col s b ≡ ok answer)
      × ((b' : Board) × (taken : ℕ) × (place row col s captured b ≡ ok (answer, b', taken))
          × (answer ≡ true → IsStored row col s b b' taken)
          × (answer ≡ false → b' ≡ b))
is_legal-place row col s captured b bordered colored =
    let (l, el, legal) =
      Ends-ok _ (is_legal row col s b) (is_legal-Legal row col s b bordered colored) in
    let (r, er, placed) =
      Ends-ok _ (place row col s captured b) (place-Placed row col s b bordered colored captured) in
    let (same, yes_, no_) = agree l r legal placed in
    (l, el, (r.1, r.2, er ∙ ap (λ a. ok (a, r.1, r.2)) same, yes_, no_))
  where
    agree :
        (l : Bool) (r : Bool × Board × ℕ)
        → Legal row col s b bordered colored l
        → Placed row col s b bordered colored captured r
        → (r.0 ≡ l) × (l ≡ true → IsStored row col s b r.1 r.2) × (l ≡ false → r.1 ≡ b)
    agree l r (inl (t, can)) (inl (e, (m, moved, marks))) = (
      e ∙ sym t,
      λ _. moved-IsStored row col s b bordered colored r.1 r.2 m moved marks,
      λ f. absurd (false≢true (sym f ∙ t)),
    )
    agree l r (inl (t, can)) (inr (e, _, cannot)) = absurd (cannot can)
    agree l r (inr (f, cannot)) (inl (e, (can, _, _))) = absurd (cannot can)
    agree l r (inr (f, cannot)) (inr (e, same, _)) =
        (e ∙ sym f, λ t. absurd (false≢true (sym f ∙ t)), λ _. same)
