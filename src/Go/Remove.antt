-- ===== src/Go/Remove.antt =====
-- removeStones (board.cpp), and the number of stones on a board.
use aimeath.Common.{
  ℕ, zero, suc, ◌+◌, ◌<◌, ◌≡◌, ◌≢◌, refl, sym, subst, ◌∙◌, ap, inl, inr, List, [], ◌∷◌, length, set,
  get_or-set_self, get_or-set_ne, arith, if◌then◌else◌,
}
use mathlib.Core.List.{Memᴰ}
use mathlib.Core.List.Memᴰ
use aimeath.Go.{Stone, empty, black, white, stone_eq, remove_stones}
use aimeath.Go.Cells.{stone_at, IsBordered, IsBordered-set, stone_inside, stone_lt}
use aimeath.Go.Collected.{Distinct}

-- The stones on the board.
abbrev pub stones : List Stone → ℕ
stones [] = 0
stones (s ∷ ss) = if stone_eq s empty then stones ss else suc (stones ss)

pub stones-set-empty :
    (grid : List Stone) (p : ℕ)
    → stone_at grid p ≢ empty
    → suc (stones (set grid p empty)) ≡ stones grid
stones-set-empty [] p ne = absurd (ne refl)
stones-set-empty (empty ∷ grid) zero ne = absurd (ne refl)
stones-set-empty (black ∷ grid) zero ne = refl
stones-set-empty (white ∷ grid) zero ne = refl
stones-set-empty (empty ∷ grid) (suc p) ne = stones-set-empty grid p ne
stones-set-empty (black ∷ grid) (suc p) ne = ap suc (stones-set-empty grid p ne)
stones-set-empty (white ∷ grid) (suc p) ne = ap suc (stones-set-empty grid p ne)

pub stones-set-stone :
    (grid : List Stone) (p : ℕ) (s : Stone)
    → p < length grid
    → stone_at grid p ≡ empty
    → s ≢ empty
    → stones (set grid p s) ≡ suc (stones grid)
stones-set-stone [] p s lt e ne = absurd (omega arith)
stones-set-stone (a ∷ grid) zero empty lt e ne = absurd (ne refl)
stones-set-stone (a ∷ grid) zero black lt e ne = rw e
stones-set-stone (a ∷ grid) zero white lt e ne = rw e
stones-set-stone (empty ∷ grid) (suc p) s lt e ne = stones-set-stone grid p s (omega arith) e ne
stones-set-stone (black ∷ grid) (suc p) s lt e ne =
    ap suc (stones-set-stone grid p s (omega arith) e ne)
stones-set-stone (white ∷ grid) (suc p) s lt e ne =
    ap suc (stones-set-stone grid p s (omega arith) e ne)

-- What `removeStones` leaves.
pub record Removed (grid : List Stone) (ps : List ℕ) (grid' : List Stone) : Type 0 where
  pub bordered : IsBordered grid'
  pub gone : (p : ℕ) → Memᴰ p ps → stone_at grid' p ≡ empty
  pub stays : (p : ℕ) → ¬ Memᴰ p ps → stone_at grid' p ≡ stone_at grid p
  pub counted : stones grid' + length ps ≡ stones grid

pub remove_stones-Removed :
    (grid : List Stone) (ps : List ℕ)
    → IsBordered grid
    → Distinct ps
    → ((p : ℕ) → Memᴰ p ps → stone_at grid p ≢ empty)
    → Removed grid ps (remove_stones grid ps)
unfolding remove_stones
remove_stones-Removed grid [] bordered distinct held = record {
  bordered = bordered;
  gone = λ p m. absurd (Memᴰ.not-nil m);
  stays = λ p _. refl;
  counted = omega arith;
}
remove_stones-Removed grid (q ∷ ps) bordered (out, distinct) held =
    let here = held q (Memᴰ.head refl) in
    let next =
      remove_stones-Removed (set grid q empty) ps
        (IsBordered-set grid bordered q empty (stone_inside grid bordered q here)) distinct
        (λ p m.
          rw (get_or-set_ne grid q p empty empty (λ e. out (subst (λ k. Memᴰ k ps) (sym e) m)))
            (held p (Memᴰ.tail m))) in
    record {
      bordered = next.bordered;
      gone = λ p m. elim (Memᴰ.cases_cons m) [
        | inl e ↦
            next.stays p (λ m'. out (subst (λ k. Memᴰ k ps) e m'))
            ∙ subst (λ k. stone_at (set grid q empty) k ≡ empty) (sym e)
                (get_or-set_self grid q empty empty
                  (rw bordered.size (stone_lt grid bordered q here)))
        | inr m' ↦ next.gone p m'
      ];
      stays = λ p no.
          next.stays p (λ m. no (Memᴰ.tail m))
          ∙ get_or-set_ne grid q p empty empty (λ e. no (Memᴰ.head (sym e)));
      counted = omega (arith, next.counted, stones-set-empty grid q here);
    }
