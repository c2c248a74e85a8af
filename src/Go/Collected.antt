-- ===== src/Go/Collected.antt =====
-- What a search of Board::collectGroup (board.cpp) has found.
use aimeath.Common.{
  ℕ, ◌<◌, ◌≤◌, ◌≡◌, ◌≢◌, sym, subst, ◌∙◌, ◌⊎◌, inl, inr, Bool, true, false, List, [], ◌∷◌, ◌++◌,
  Bool-cases, length, set, length-set, get_or-set_self, arith,
}
use mathlib.Core.Bool.{false≢true}
use mathlib.Core.List.{Memᴰ}
use mathlib.Core.List.Memᴰ
use aimeath.Common.Loops.{marked, marked-set, marked-set_keeps, unmarked, unmarked-set}
use aimeath.Go.{Stone, cells}
use aimeath.Go.Cells.{Next, stone_at}

-- No cell stands twice in the list.
abbrev pub Distinct : List ℕ → Type 0
Distinct [] = Unit
Distinct (x ∷ xs) = ¬ Memᴰ x xs × Distinct xs

pub Distinct-append_one :
    (xs : List ℕ) (y : ℕ) → Distinct xs → ¬ Memᴰ y xs → Distinct (xs ++ y ∷ [])
Distinct-append_one [] y d new = (Memᴰ.not-nil, tt)
Distinct-append_one (x ∷ xs) y (out, d) new = (
  λ m. elim (Memᴰ.append_cases xs m) [
    | inl old ↦ out old
    | inr (Memᴰ.head e) ↦ new (Memᴰ.head (sym e))
    | inr (Memᴰ.tail none) ↦ Memᴰ.not-nil none
  ],
  Distinct-append_one xs y d (λ m. new (Memᴰ.tail m)),
)

module _ (grid : List Stone) (color : Stone) where
  -- The cells `i` and `p` hold stones of one group of the color.
  pub data Joined : ℕ → ℕ → Type 0 where
    alone : {i : ℕ} → stone_at grid i ≡ color → Joined i i
    linked : {i j p : ℕ} → stone_at grid i ≡ color → Next i j → Joined j p → Joined i p

  abbrev pub Taken : List Bool → ℕ → Type 0
  Taken v i = (marked v i ≡ true) ⊎ (stone_at grid i ≢ color)

  -- The list holds visited stones of the color, once each.
  pub record IsListed (v : List Bool) (out : List ℕ) : Type 0 where
    pub size : length v ≡ cells
    pub stones : (p : ℕ) → Memᴰ p out → (marked v p ≡ true) × (stone_at grid p ≡ color)
    pub distinct : Distinct out

  -- What a search from `idx` adds.
  pub record Collected (idx : ℕ) (s r : List Bool × List ℕ) : Type 0 where
    pub listed : IsListed r.0 r.1
    pub fewer : unmarked r.0 ≤ unmarked s.0
    pub keeps : (i : ℕ) → marked s.0 i ≡ true → marked r.0 i ≡ true
    pub kept : (p : ℕ) → Memᴰ p s.1 → Memᴰ p r.1
    pub complete : (i : ℕ) → marked r.0 i ≡ true → marked s.0 i ≡ false → Memᴰ i r.1
    pub closed : (i j : ℕ) → marked r.0 i ≡ true → marked s.0 i ≡ false → Next i j → Taken r.0 j
    pub sound : (p : ℕ) → Memᴰ p r.1 → Memᴰ p s.1 ⊎ Joined idx p

  pub Taken-later :
      (v v' : List Bool) (j : ℕ)
      → ((i : ℕ) → marked v i ≡ true → marked v' i ≡ true)
      → Taken v j
      → Taken v' j
  Taken-later v v' j keeps (inl m) = inl (keeps j m)
  Taken-later v v' j keeps (inr other) = inr other

  pub Collected-still : (idx : ℕ) (s : List Bool × List ℕ) → IsListed s.0 s.1 → Collected idx s s
  Collected-still idx s listed = record {
    listed = listed;
    fewer = omega arith;
    keeps = λ i m. m;
    kept = λ p m. m;
    complete = λ i m n. absurd (false≢true (sym n ∙ m));
    closed = λ i j m n. absurd (false≢true (sym n ∙ m));
    sound = λ p m. inl m;
  }

  pub Collected-more :
      (idx next : ℕ) (s r t : List Bool × List ℕ)
      → ((p : ℕ) → Joined next p → Joined idx p)
      → Collected idx s r
      → Collected next r t
      → Collected idx s t
  Collected-more idx next s r t lead a b = record {
    listed = b.listed;
    fewer = omega (arith, a.fewer, b.fewer);
    keeps = λ i m. b.keeps i (a.keeps i m);
    kept = λ p m. b.kept p (a.kept p m);
    complete = λ i m n. elim (Bool-cases (marked r.0 i)) [
      | inl before ↦ b.kept i (a.complete i before n)
      | inr new ↦ b.complete i m new
    ];
    closed = λ i j m n near. elim (Bool-cases (marked r.0 i)) [
      | inl before ↦ Taken-later r.0 t.0 j b.keeps (a.closed i j before n near)
      | inr new ↦ b.closed i j m new near
    ];
    sound = λ p m. elim (b.sound p m) [
      | inl before ↦ a.sound p before
      | inr joined ↦ inr (lead p joined)
    ];
  }

  module _ (idx : ℕ) (v : List Bool) (out : List ℕ) (listed : IsListed v out) (lt : idx < length v)
      (new : marked v idx ≡ false) (own : stone_at grid idx ≡ color) where
    pub IsListed-pushed : IsListed (set v idx true) (out ++ idx ∷ [])
    IsListed-pushed = record {
      size = length-set v idx true ∙ listed.size;
      stones = λ p m. elim (Memᴰ.append_cases out m) [
        | inl old ↦ let (a, b) = listed.stones p old in (marked-set_keeps v idx p a, b)
        | inr (Memᴰ.head e) ↦ rw e (get_or-set_self v idx true false lt, own)
        | inr (Memᴰ.tail none) ↦ absurd (Memᴰ.not-nil none)
      ];
      distinct =
          Distinct-append_one out idx listed.distinct
            (λ m. false≢true (sym new ∙ (listed.stones idx m).0));
    }

    -- A stone of the color, after all its neighbours were searched.
    pub Collected-own :
        (r : List Bool × List ℕ)
        → Collected idx (set v idx true, out ++ idx ∷ []) r
        → ((j : ℕ) → Next idx j → Taken r.0 j)
        → Collected idx (v, out) r
    Collected-own r a around = record {
      listed = a.listed;
      fewer = omega (arith, a.fewer, unmarked-set v idx new lt);
      keeps = λ i m. a.keeps i (marked-set_keeps v idx i m);
      kept = λ p m. a.kept p (Memᴰ.append_left (idx ∷ []) m);
      complete = λ i m n. elim (Bool-cases (marked (set v idx true) i)) [
        | inl before ↦ elim (marked-set v idx i before) [
          | inl old ↦ absurd (false≢true (sym n ∙ old))
          | inr same ↦ a.kept i (Memᴰ.append_right out (Memᴰ.head same))
        ]
        | inr later ↦ a.complete i m later
      ];
      closed = λ i j m n near. elim (Bool-cases (marked (set v idx true) i)) [
        | inl before ↦ elim (marked-set v idx i before) [
          | inl old ↦ absurd (false≢true (sym n ∙ old))
          | inr same ↦ around j (subst (λ k. Next k j) same near)
        ]
        | inr later ↦ a.closed i j m later near
      ];
      sound = λ p m. elim (a.sound p m) [
        | inl before ↦ elim (Memᴰ.append_cases out before) [
          | inl old ↦ inl old
          | inr (Memᴰ.head e) ↦ inr (rw e (alone own))
          | inr (Memᴰ.tail none) ↦ absurd (Memᴰ.not-nil none)
        ]
        | inr joined ↦ inr joined
      ];
    }
