-- ===== src/Go/Counted.antt =====
-- What a search of Board::countLiberties (board.cpp) has found.
use aimeath.Common.{
  ℕ, ◌+◌, ◌<◌, ◌≤◌, ◌≡◌, ◌≢◌, refl, sym, subst, ◌∙◌, ◌==◌, ==→≡, ==→≢, inl, inr, Bool, true, false,
  List, Bool-cases, length, set, length-set, arith, if◌then◌else◌,
}
use mathlib.Core.Bool.{false≢true}
use aimeath.Common.Loops.{marked, marked-set, marked-set_keeps, unmarked, unmarked-set}
use aimeath.Go.{Stone, empty, cells, is_border}
use aimeath.Go.Cells.{Next, stone_at, Liberty, free, Handled}

module _ (grid : List Stone) (color : Stone) where
  -- What a search has found from the cell `idx`, where `v` was visited before it.
  pub record Counted (idx : ℕ) (v : List Bool) (r : ℕ × List Bool) : Type 0 where
    pub size : length r.1 ≡ cells
    pub fewer : unmarked r.1 ≤ unmarked v
    pub keeps : (i : ℕ) → marked v i ≡ true → marked r.1 i ≡ true
    pub closed :
        (i j : ℕ)
        → marked r.1 i ≡ true
        → marked v i ≡ false
        → stone_at grid i ≡ color
        → Next i j
        → Handled grid color r.1 j
    pub none :
        r.0 ≡ 0
        → (i : ℕ) → marked r.1 i ≡ true
        → marked v i ≡ false
        → stone_at grid i ≡ empty
        → is_border i ≡ true
    pub found : r.0 ≢ 0 → Liberty grid color idx

  pub Handled-later :
      (v v' : List Bool) (j : ℕ)
      → ((i : ℕ) → marked v i ≡ true → marked v' i ≡ true)
      → Handled grid color v j
      → Handled grid color v' j
  Handled-later v v' j keeps (inl m) = inl (keeps j m)
  Handled-later v v' j keeps (inr wall) = inr wall

  -- Nothing was visited.
  pub Counted-still : (idx : ℕ) (v : List Bool) → length v ≡ cells → Counted idx v (0, v)
  Counted-still idx v size = record {
    size = size;
    fewer = omega arith;
    keeps = λ i m. m;
    closed = λ i j m n. absurd (false≢true (sym n ∙ m));
    none = λ _ i m n. absurd (false≢true (sym n ∙ m));
    found = λ ne. absurd (ne refl);
  }

  -- The neighbour `next` is searched after others.
  pub Counted-more :
      (idx next : ℕ) (v : List Bool) (r s : ℕ × List Bool)
      → (Liberty grid color next → Liberty grid color idx)
      → Counted idx v r
      → Counted next r.1 s
      → Counted idx v (r.0 + s.0, s.1)
  Counted-more idx next v r s lead a b = record {
    size = b.size;
    fewer = omega (arith, a.fewer, b.fewer);
    keeps = λ i m. b.keeps i (a.keeps i m);
    closed = λ i j m n e near. elim (Bool-cases (marked r.1 i)) [
      | inl before ↦ Handled-later r.1 s.1 j b.keeps (a.closed i j before n e near)
      | inr new ↦ b.closed i j m new e near
    ];
    none = λ z i m n e. elim (Bool-cases (marked r.1 i)) [
      | inl before ↦ a.none (omega (arith, z)) i before n e
      | inr new ↦ b.none (omega (arith, z)) i m new e
    ];
    found = λ ne. elim (Bool-cases (r.0 == 0)) [
      | inl z ↦ lead (b.found (λ e. ne (omega (arith, ==→≡ r.0 0 z, e))))
      | inr some ↦ a.found (==→≢ r.0 0 some)
    ];
  }

  -- A liberty, or a cell that the search does not enter.
  pub Counted-empty :
      (idx : ℕ) (v : List Bool)
      → length v ≡ cells
      → idx < cells
      → marked v idx ≡ false
      → stone_at grid idx ≡ empty
      → color ≢ empty
      → Counted idx v (if is_border idx then 0 else 1, set v idx true)
  Counted-empty idx v size lt clear e colored = record {
    size = length-set v idx true ∙ size;
    fewer = omega (arith, unmarked-set v idx clear (rw size lt));
    keeps = λ i m. marked-set_keeps v idx i m;
    closed = λ i j m n own. absurd (only i m n own);
    none = λ z i m n _. elim (marked-set v idx i m) [
      | inl before ↦ absurd (false≢true (sym n ∙ before))
      | inr same ↦ rw same (ground (arith, z))
    ];
    found = λ ne. free e (ground (arith, ne));
  }
    where
      only :
          (i : ℕ) → marked (set v idx true) i ≡ true → marked v i ≡ false → stone_at grid i ≢ color
      only i m n own = elim (marked-set v idx i m) [
        | inl before ↦ false≢true (sym n ∙ before)
        | inr same ↦ colored (sym own ∙ subst (λ k. stone_at grid k ≡ empty) (sym same) e)
      ]

  -- A stone of the color, after all its neighbours were searched.
  pub Counted-own :
      (idx : ℕ) (v : List Bool) (r : ℕ × List Bool)
      → idx < length v
      → marked v idx ≡ false
      → stone_at grid idx ≡ color
      → color ≢ empty
      → Counted idx (set v idx true) r
      → ((j : ℕ) → Next idx j → Handled grid color r.1 j)
      → Counted idx v r
  Counted-own idx v r lt clear own colored a around = record {
    size = a.size;
    fewer = omega (arith, a.fewer, unmarked-set v idx clear lt);
    keeps = λ i m. a.keeps i (marked-set_keeps v idx i m);
    closed = λ i j m n e near. elim (Bool-cases (marked (set v idx true) i)) [
      | inl before ↦ elim (marked-set v idx i before) [
        | inl old ↦ absurd (false≢true (sym n ∙ old))
        | inr same ↦ around j (subst (λ k. Next k j) same near)
      ]
      | inr new ↦ a.closed i j m new e near
    ];
    none = λ z i m n e. elim (Bool-cases (marked (set v idx true) i)) [
      | inl before ↦ elim (marked-set v idx i before) [
        | inl old ↦ absurd (false≢true (sym n ∙ old))
        | inr same ↦ absurd (colored (sym own ∙ subst (λ k. stone_at grid k ≡ empty) same e))
      ]
      | inr new ↦ a.none z i m new e
    ];
    found = a.found;
  }
