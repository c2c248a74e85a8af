-- ===== src/Pacman/Beans.antt =====
-- The bean vector of a board (board.cpp): how many beans it holds.
use aimeath.Common.{
  ℕ, zero, suc, ◌+◌, ◌≤◌, ◌<◌, ◌≡◌, ◌≢◌, refl, Bool, true, false, List, [], ◌∷◌, length, get_or,
  set, replicate, if◌then◌else◌, arith,
}

abbrev pub count_beans : List Bool → ℕ
count_beans [] = 0
count_beans (b ∷ bs) = (if b then 1 else 0) + count_beans bs

abbrev pub bean_at : List Bool → ℕ → Bool
bean_at bs i = get_or bs i false

pub count_beans-replicate : (n : ℕ) → count_beans (replicate n false) ≡ 0
count_beans-replicate zero = refl
count_beans-replicate (suc n) = omega (arith, count_beans-replicate n)

pub count_beans-set-true :
    (bs : List Bool) (i : ℕ)
    → i < length bs
    → bean_at bs i ≡ false
    → count_beans (set bs i true) ≡ count_beans bs + 1
count_beans-set-true [] i h e = absurd (omega arith)
count_beans-set-true (b ∷ bs) zero h e = ground arith
count_beans-set-true (b ∷ bs) (suc i) h e = omega (arith, count_beans-set-true bs i (omega arith) e)

pub count_beans-set-false :
    (bs : List Bool) (i : ℕ)
    → bean_at bs i ≡ true
    → count_beans bs ≡ count_beans (set bs i false) + 1
count_beans-set-false [] i e = cc
count_beans-set-false (b ∷ bs) zero e = ground arith
count_beans-set-false (b ∷ bs) (suc i) e = omega (arith, count_beans-set-false bs i e)

count_beans_all :
    (bs : List Bool) → ((i : ℕ) → i < length bs → bean_at bs i ≡ true) → length bs ≤ count_beans bs
count_beans_all [] all = omega arith
count_beans_all (b ∷ bs) all =
    let first = all 0 (omega arith) in
    ground (arith, count_beans_all bs (λ i h. all (suc i) (omega arith)))

-- All cells but one hold a bean.
pub count_beans_all_but :
    (bs : List Bool) (a : ℕ)
    → ((i : ℕ) → i < length bs → i ≢ a → bean_at bs i ≡ true)
    → length bs ≤ count_beans bs + 1
count_beans_all_but [] a all = omega arith
count_beans_all_but (b ∷ bs) zero all =
    let rest = count_beans_all bs (λ i h. all (suc i) (omega arith) (omega arith)) in
    ground (arith, rest)
count_beans_all_but (b ∷ bs) (suc a) all =
    let first = all 0 (omega arith) (omega arith) in
    ground (arith, count_beans_all_but bs a (λ i h ne. all (suc i) (omega arith) (omega arith)))
