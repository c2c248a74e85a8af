-- ===== src/Go/Score/Marks.antt =====
-- The operations of Board (board.cpp) that read or change the marks, and the hash.
use aimeath.Common.{
  ℕ, ◌<◌, ◌≡◌, refl, sym, subst, ◌∙◌, Bool, false, undefined, length, length-set, length-replicate,
  not, if_by, ◌&&◌,
}
use aimeath.Common.Int.{ℤ, pos, negsuc}
use aimeath.Common.Ends.{Ends, Ends->>=, Ends-of, Ends-if_cases}
use aimeath.Go.{at, empty, stone_eq, Board, size, cells, on_board, load}
use aimeath.Go.Cells.{load-get_or, IsBordered, IsBordered-set, load_stone}
use aimeath.Go.Rules.{cell_of, not-false}
use aimeath.Go.Score.{
  inner, hash, hash_cell, mark_index, mark_dead, remove_dead, remove_dead_stones, clear_dead_marks,
  is_marked_dead, render_grid, cell_text,
}
use aimeath.Go.Score.Loops.{each_cell-Ends, inner-lt, inner_inside, at-stone_at, to_index-inner}
use aimeath.Game.Text.{rows_text-Shown, Shown}

-- A board of the right size with an empty border.
pub record IsSized (b : Board) : Type 0 where
  pub bordered : IsBordered b.grid
  pub dead : length b.dead ≡ cells

-- The hash is computed, whatever the stones.
pub hash_returns : (b : Board) → IsSized b → Ends ⊥ (λ _. Unit {0}) (hash b)
unfolding hash hash_cell
hash_returns b sized =
    each_cell-Ends ⊥ (λ _. Unit {0}) (hash_cell b.grid) 14695981039346656037
      (λ r c h hr hc _.
        Ends->>= ⊥ (λ _. Unit {0}) (λ _. Unit {0}) (load b.grid (inner r c)) _
          (Ends-of ⊥ _ (load_stone b.grid sized.bordered (inner r c) (inner-lt r c hr hc)) tt)
          (λ stone _. tt))
      tt

-- A mark is set or taken away, and the stones stay.
abbrev pub Marked : Board → Bool × Board → Type 0
Marked b r = IsSized r.1 × (r.1.grid ≡ b.grid)

mark_index-Marked :
    (b : Board) (idx : ℕ) → IsSized b → idx < cells → Ends ⊥ (Marked b) (mark_index b (pos idx))
unfolding mark_index
mark_index-Marked b idx sized lt =
    Ends->>= ⊥ (λ _. Unit {0}) (Marked b) (load b.grid idx) _
      (Ends-of ⊥ _ (load_stone b.grid sized.bordered idx lt) tt)
      λ stone _.
        Ends->>= ⊥ (λ _. Unit {0}) (Marked b) (load b.dead idx) _
          (Ends-of ⊥ _ (load-get_or b.dead idx false (rw sized.dead lt)) tt)
          λ mark _.
            if_by (Marked b) (stone_eq stone empty) _ _ (λ _. (sized, refl))
              (λ _. (
                record {
                  bordered = sized.bordered;
                  dead = length-set b.dead idx (not mark) ∙ sized.dead;
                },
                refl,
              ))

pub mark_dead-Marked :
    (row col : ℤ) (b : Board) → IsSized b → Ends ⊥ (Marked b) (mark_dead row col b)
unfolding mark_dead
mark_dead-Marked row col b sized =
    Ends-if_cases ⊥ (Marked b) (not (on_board row col)) _ _ (λ _. (sized, refl))
      (λ on.
        let c = cell_of row col (not-false on) in
        subst (λ i. Ends ⊥ (Marked b) (mark_index b i)) (sym c.index)
          (mark_index-Marked b c.idx sized c.lt))

pub remove_dead_stones-IsSized :
    (b : Board) → IsSized b → Ends ⊥ (λ r. IsSized r.0) (remove_dead_stones b)
unfolding remove_dead_stones
remove_dead_stones-IsSized b sized =
    each_cell-Ends ⊥ (λ (r : Board × ℕ). IsSized r.0) remove_dead (b, 0)
      (λ r c (b, n) hr hc sized.
        Ends->>= ⊥ (λ _. Unit {0}) (λ (r : Board × ℕ). IsSized r.0) (load b.grid (inner r c)) _
          (Ends-of ⊥ _ (load_stone b.grid sized.bordered (inner r c) (inner-lt r c hr hc)) tt)
          λ stone _.
            Ends->>= ⊥ (λ _. Unit {0}) (λ (r : Board × ℕ). IsSized r.0) (load b.dead (inner r c)) _
              (Ends-of ⊥ _
                (load-get_or b.dead (inner r c) false (rw sized.dead (inner-lt r c hr hc))) tt)
              λ mark _.
                if_by (λ (r : Board × ℕ). IsSized r.0) (mark && not (stone_eq stone empty)) _ _
                  (λ _. record {
                    bordered =
                        IsBordered-set b.grid sized.bordered (inner r c) empty
                          (inner_inside r c hr hc);
                    dead = length-set b.dead (inner r c) false ∙ sized.dead;
                  })
                  (λ _. sized))
      sized

pub clear_dead_marks-IsSized : (b : Board) → IsSized b → IsSized (clear_dead_marks b)
unfolding clear_dead_marks
clear_dead_marks-IsSized b sized = record {
  bordered = sized.bordered;
  dead = length-replicate cells false;
}

pub is_marked_dead_returns :
    (b : Board)
    → IsSized b
    → (r c : ℕ) → r < 19
    → c < 19
    → Ends ⊥ (λ _. Unit {0}) (is_marked_dead (pos r) (pos c) b)
unfolding is_marked_dead
is_marked_dead_returns b sized r c hr hc =
    Ends-if_cases ⊥ (λ _. Unit {0}) (not (on_board (pos r) (pos c))) _ _ (λ _. tt)
      (λ _.
        subst
          (λ i.
            Ends ⊥ (λ _. Unit {0}) (elim i [ negsuc _ ↦ undefined | pos idx ↦ load b.dead idx ]))
          (sym (to_index-inner r c))
          (Ends-of ⊥ _ (load-get_or b.dead (inner r c) false (rw sized.dead (inner-lt r c hr hc)))
            tt))

pub render_grid-Shown : (b : Board) → IsSized b → Shown (render_grid b)
unfolding render_grid
render_grid-Shown b sized = rows_text-Shown (cell_text b) size size λ x y hx hy.
    Ends->>= ⊥ (λ _. Unit {0}) (λ _. Unit {0}) (at b (pos y) (pos x)) _
      (Ends-of ⊥ _ (at-stone_at b sized.bordered y x hy hx) tt) λ stone t. t
