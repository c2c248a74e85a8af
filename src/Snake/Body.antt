-- ===== src/Snake/Body.antt =====
-- The body of the snake (snake.cpp) as a list of cells.
use aimeath.Common.{◌-◌, ◌≡◌, refl, ◌⊎◌, true, false, List, [], ◌∷◌, length, arith, ◌<◌, inl, inr}
use aimeath.Common.Int.{inc, dec, ==ℤ_iff}
use aimeath.Game.Direction.{Direction, up, down, left, right, other, apply_dir}
use aimeath.Snake.{Position, position_eq, moved, drop_last, on_body}

-- No two cells of the body are the same.
abbrev pub Distinct : List Position → Type 0
Distinct [] = Unit {0}
Distinct (p ∷ ps) = (on_body ps p ≡ false) × Distinct ps

-- `q` is one of the four neighbours of `p`.
abbrev pub Adjacent : Position → Position → Type 0
Adjacent p q =
    (p.x ≡ q.x) × ((p.y ≡ inc q.y) ⊎ (p.y ≡ dec q.y))
    ⊎ (p.y ≡ q.y) × ((p.x ≡ inc q.x) ⊎ (p.x ≡ dec q.x))

-- Each cell of the body is next to the one before it.
abbrev pub Linked : List Position → Type 0
Linked [] = Unit {0}
Linked (p ∷ []) = Unit {0}
Linked (p ∷ q ∷ ps) = Adjacent p q × Linked (q ∷ ps)

abbrev pub IsNamed : Direction → Type 0
IsNamed (other _) = ⊥
IsNamed _ = Unit {0}

pub position_eq_iff_true : (p q : Position) → position_eq p q ≡ true → p ≡ q
position_eq_iff_true p q h = ground (arith, (==ℤ_iff p.x q.x).0, (==ℤ_iff p.y q.y).0)

pub position_eq_refl : (p : Position) → position_eq p p ≡ true
position_eq_refl p = ground (arith, (==ℤ_iff p.x p.x).1 refl, (==ℤ_iff p.y p.y).1 refl)

pub on_body-drop_last :
    (ps : List Position) (p : Position) → on_body ps p ≡ false → on_body (drop_last ps) p ≡ false
unfolding on_body drop_last
on_body-drop_last [] p h = h
on_body-drop_last (q ∷ []) p h = refl
on_body-drop_last (q ∷ r ∷ ps) p h = ground (arith, on_body-drop_last (r ∷ ps) p)

pub Distinct-drop_last : (ps : List Position) → Distinct ps → Distinct (drop_last ps)
unfolding drop_last
Distinct-drop_last [] d = tt
Distinct-drop_last (q ∷ []) d = tt
Distinct-drop_last (q ∷ r ∷ ps) d =
    (on_body-drop_last (r ∷ ps) q d.0, Distinct-drop_last (r ∷ ps) d.1)

pub Linked-drop_last : (ps : List Position) → Linked ps → Linked (drop_last ps)
unfolding drop_last
Linked-drop_last [] l = tt
Linked-drop_last (p ∷ []) l = tt
Linked-drop_last (p ∷ q ∷ []) l = tt
Linked-drop_last (p ∷ q ∷ r ∷ ps) l = (l.0, Linked-drop_last (q ∷ r ∷ ps) l.1)

pub length-drop_last : (ps : List Position) → length (drop_last ps) ≡ length ps - 1
unfolding drop_last
length-drop_last [] = omega arith
length-drop_last (p ∷ []) = omega arith
length-drop_last (p ∷ q ∷ ps) = omega (arith, length-drop_last (q ∷ ps))

pub Adjacent-moved : (d : Direction) (p : Position) → IsNamed d → Adjacent (moved d p) p
unfolding apply_dir
Adjacent-moved up p n = inl (refl, inr refl)
Adjacent-moved down p n = inl (refl, inl refl)
Adjacent-moved left p n = inr (refl, inr refl)
Adjacent-moved right p n = inr (refl, inl refl)
Adjacent-moved (other _) p n = absurd n

pub IsNamed-or_still : (d : Direction) (p : Position) → IsNamed d ⊎ (moved d p ≡ p)
unfolding apply_dir
IsNamed-or_still up p = inl tt
IsNamed-or_still down p = inl tt
IsNamed-or_still left p = inl tt
IsNamed-or_still right p = inl tt
IsNamed-or_still (other _) p = inr refl

pub on_body_head : (p : Position) (ps : List Position) → on_body (p ∷ ps) p ≡ true
unfolding on_body
on_body_head p ps = rw (position_eq_refl p)

pub on_body-drop_last_head :
    (p : Position) (ps : List Position) → 0 < length ps → on_body (drop_last (p ∷ ps)) p ≡ true
unfolding drop_last
on_body-drop_last_head p [] h = elim h [ ]
on_body-drop_last_head p (q ∷ ps) h = on_body_head p (drop_last (q ∷ ps))
