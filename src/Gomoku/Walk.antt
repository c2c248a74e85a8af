-- ===== src/Gomoku/Walk.antt =====
-- Numbers in steps of one: how long they stay on a side of a board (the loop of
-- GomokuGame::countDir, game.cpp).
use aimeath.Common.{ℕ, zero, suc, ◌+◌, ◌≤◌, ◌<◌, ◌≡◌, refl, subst, ◌⊎◌, inl, inr, arith}
use aimeath.Common.Int.{ℤ, pos, negsuc, ◌+ℤ◌, Below, Below-pos}

-- `n` numbers from `x` on, in steps of `d`, lie below `s`.
abbrev pub Walk : ℕ → ℤ → ℕ → ℤ → Type 0
Walk s d zero x = Unit {0}
Walk s d (suc n) x = Below x s × Walk s d n (x +ℤ d)

one_up : (i : ℕ) → pos i +ℤ pos 1 ≡ pos (suc i)
unfolding ◌+ℤ◌
one_up i = ground arith

one_down : (i : ℕ) → pos (suc i) +ℤ negsuc 0 ≡ pos i
unfolding ◌+ℤ◌
one_down i = ground arith

below_zero : pos 0 +ℤ negsuc 0 ≡ negsuc 0
unfolding ◌+ℤ◌
below_zero = refl

Walk-up : (s n i : ℕ) → Walk s (pos 1) n (pos i) → (n ≡ 0) ⊎ (i + n ≤ s)
Walk-up s zero i w = inl refl
Walk-up s (suc n) i (h, w) =
    ground (arith, Walk-up s n (suc i) (subst (Walk s (pos 1) n) (one_up i) w))

Walk-down : (s n i : ℕ) → Walk s (negsuc 0) n (pos i) → (n ≡ 0) ⊎ (i < s) × (n ≤ suc i)
Walk-down s zero i w = inl refl
Walk-down s (suc zero) zero (h, w) = inr (h, omega arith)
Walk-down s (suc (suc n)) zero (h, (k, w)) = absurd (subst (λ x. Below x s) below_zero k)
Walk-down s (suc n) (suc i) (h, w) =
    ground (arith, Walk-down s n i (subst (Walk s (negsuc 0) n) (one_down i) w))

abbrev pub IsUnit : ℤ → Type 0
IsUnit d = (d ≡ pos 1) ⊎ (d ≡ negsuc 0)

pub Walk-le : (s : ℕ) (d : ℤ) (n : ℕ) (x : ℤ) → IsUnit d → Walk s d n x → n ≤ s
Walk-le s d zero x u w = omega arith
Walk-le s d (suc n) x (inl up) w =
    let (i, e, lt) = Below-pos x s w.0 in
    ground (
      arith,
      Walk-up s (suc n) i (subst (Walk s (pos 1) (suc n)) e (subst (λ k. Walk s k (suc n) x) up w)),
    )
Walk-le s d (suc n) x (inr down) w =
    let (i, e, lt) = Below-pos x s w.0 in
    ground (
      arith,
      Walk-down s (suc n) i
          (subst (Walk s (negsuc 0) (suc n)) e (subst (λ k. Walk s k (suc n) x) down w)),
    )
