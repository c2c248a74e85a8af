-- ===== src/Pacman/Loop.antt =====
-- Board::generateBeans (board.cpp): the loop over the draws.
use aimeath.Common.{
  ℕ, zero, suc, ◌+◌, ◌-◌, ◌*◌, ◌≤◌, ◌<◌, ◌%◌, ◌/◌, ◌≡◌, ◌≢◌, refl, sym, ap, subst, ◌∙◌, ◌⊎◌, inl,
  inr, true, false, length, length-replicate, get_or-replicate, replicate, if◌then◌else◌, ltb,
  arith, ok, unfinished, Bool-cases, ◌>>=◌, ok-injective, unfinished≢ok,
}
use mathlib.Core.Path.{ap₂}
use aimeath.Common.Int.{pos}
use aimeath.Common.Ends.{Ends, Ends-of}
use aimeath.Game.Grid.{grid_index-lt, cell_of_index}
use aimeath.Pacman.{Board, draw_x, draw_y, place_bean, beans_loop, generate_beans}
use aimeath.Pacman.Beans.{bean_at, count_beans-replicate, count_beans_all_but}
use aimeath.Pacman.Fill.{cell, chosen, IsFilled, Round, place_bean-eq, place_bean-Round}

-- The cell `x`, `y` is drawn in one of the next `fuel` rounds.
abbrev pub IsDrawn : (ℕ → ℕ) → ℕ → ℕ → ℕ → ℕ → ℕ → ℕ → Type 0
IsDrawn rand w h fuel k x y =
    (i : ℕ) × (i < fuel) × (rand (k + 2 * i) % w ≡ x) × (rand (k + 2 * i + 1) % h ≡ y)

module _ (w h ax ay : ℕ) (rand : ℕ → ℕ) (hax : ax < w) (hw : 0 < w) (hh : 0 < h) where
  module _ (b : Board) (placed k : ℕ) (f : IsFilled w h ax ay b placed) where
    abbrev x : ℕ
    x = rand k % w

    abbrev y : ℕ
    y = rand (k + 1) % h

    abbrev next : Board × ℕ
    next = chosen w ax ay b placed x y

    round : Round w h ax ay b placed x y next
    round = place_bean-Round w h ax ay hax b placed x y (grind arith) (grind arith) f

    drawn : place_bean (pos ax) (pos ay) (draw_x rand b k) (draw_y rand b k) (b, placed) ≡ ok next
    drawn =
        ap₂ (λ p q. place_bean (pos ax) (pos ay) p q (b, placed))
          (ap (λ n. pos (rand k % n)) f.sides.0) (ap (λ n. pos (rand (k + 1) % n)) f.sides.1)
        ∙ place_bean-eq w h ax ay hax b placed x y (grind arith) (grind arith) f

    beans_loop-more :
        (fuel count : ℕ)
        → ltb placed count ≡ true
        → beans_loop rand (pos ax) (pos ay) (suc fuel) count k (b, placed)
          ≡ beans_loop rand (pos ax) (pos ay) fuel count (k + 2) next
    unfolding beans_loop
    beans_loop-more fuel count more =
        rw more (ap (λ m. m >>= beans_loop rand (pos ax) (pos ay) fuel count (k + 2)) drawn)

  beans_loop-done :
      (fuel count k placed : ℕ) (b : Board)
      → ltb placed count ≡ false
      → beans_loop rand (pos ax) (pos ay) fuel count k (b, placed) ≡ ok b
  unfolding beans_loop
  beans_loop-done zero count k placed b done = rw done
  beans_loop-done (suc fuel) count k placed b done = rw done

  beans_loop-out :
      (count k placed : ℕ) (b : Board)
      → ltb placed count ≡ true
      → beans_loop rand (pos ax) (pos ay) 0 count k (b, placed) ≡ unfinished
  unfolding beans_loop
  beans_loop-out count k placed b more = rw more

  -- The loop stays on the board.
  beans_loop-Ends :
      (fuel count k placed : ℕ) (b : Board)
      → IsFilled w h ax ay b placed
      → Ends Unit (λ _. Unit {0}) (beans_loop rand (pos ax) (pos ay) fuel count k (b, placed))
  beans_loop-Ends zero count k placed b f = elim (Bool-cases (ltb placed count)) [
    | inr done ↦ Ends-of Unit (λ _. Unit {0}) (beans_loop-done zero count k placed b done) tt
    | inl more ↦ subst (Ends Unit (λ _. Unit {0})) (sym (beans_loop-out count k placed b more)) tt
  ]
  beans_loop-Ends (suc n) count k placed b f = elim (Bool-cases (ltb placed count)) [
    | inr done ↦ Ends-of Unit (λ _. Unit {0}) (beans_loop-done (suc n) count k placed b done) tt
    | inl more ↦
        let (b', placed') = next b placed k f in
        subst (Ends Unit (λ _. Unit {0})) (sym (beans_loop-more b placed k f n count more))
          (beans_loop-Ends n count (k + 2) placed' b' (round b placed k f).filled)
  ]

  ends :
      (fuel count k : ℕ) (b b' : Board) (placed : ℕ)
      → IsFilled w h ax ay b placed
      → placed ≤ count
      → ltb placed count ≡ false
      → beans_loop rand (pos ax) (pos ay) fuel count k (b, placed) ≡ ok b'
      → IsFilled w h ax ay b' count
  ends fuel count k b b' placed f le done e =
      let same : placed ≡ count = ground arith in
      subst (λ n. IsFilled w h ax ay b' n) same
        (subst (λ c. IsFilled w h ax ay c placed)
          (ok-injective (sym (beans_loop-done fuel count k placed b done) ∙ e)) f)

  beans_loop-IsFilled :
      (fuel count k : ℕ) (b b' : Board) (placed : ℕ)
      → IsFilled w h ax ay b placed
      → placed ≤ count
      → beans_loop rand (pos ax) (pos ay) fuel count k (b, placed) ≡ ok b'
      → IsFilled w h ax ay b' count
  beans_loop-IsFilled zero count k b b' placed f le e = elim (Bool-cases (ltb placed count)) [
    | inl more ↦ absurd (unfinished≢ok (sym (beans_loop-out count k placed b more) ∙ e))
    | inr done ↦ ends zero count k b b' placed f le done e
  ]
  beans_loop-IsFilled (suc fuel) count k b b' placed f le e = elim (Bool-cases (ltb placed count)) [
    | inl more ↦
        let r = round b placed k f in
        beans_loop-IsFilled fuel count (k + 2) (next b placed k f).0 b' (next b placed k f).1
          r.filled (ground (arith, r.grows))
          (sym (beans_loop-more b placed k f fuel count more) ∙ e)
    | inr done ↦ ends (suc fuel) count k b b' placed f le done e
  ]

  -- Every cell but the one to avoid holds a bean.
  all_held :
      (b : Board) (placed : ℕ)
      → IsFilled w h ax ay b placed
      → ((x y : ℕ)
          → x < w
          → y < h
          → cell w x y ≢ cell w ax ay
          → bean_at b.beans (cell w x y) ≡ true)
      → w * h ≤ placed + 1
  all_held b placed f held =
      let most = count_beans_all_but b.beans (cell w ax ay) (λ i lt ne.
        let c = cell_of_index w h i (rw f.size at lt) hw in
        subst (λ n. bean_at b.beans n ≡ true) c.2
          (held (i % w) (i / w) c.0 c.1 (λ e. ne (sym c.2 ∙ e)))) in
      omega (arith, most, f.size, f.total)

  carried :
      (b : Board) (placed k : ℕ) (f : IsFilled w h ax ay b placed) (fuel x' y' : ℕ)
      → cell w x' y' ≢ cell w ax ay
      → (bean_at b.beans (cell w x' y') ≡ true) ⊎ IsDrawn rand w h (suc fuel) k x' y'
      → (bean_at (next b placed k f).0.beans (cell w x' y') ≡ true)
        ⊎ IsDrawn rand w h fuel (k + 2) x' y'
  carried b placed k f fuel x' y' ne (inl held) =
      inl ((round b placed k f).keeps (cell w x' y') held)
  carried b placed k f fuel x' y' ne (inr (zero, lt, ex, ey)) = inl (
      let at_k : k ≡ k + 2 * 0 = omega arith in
      let e =
        ap₂ (cell w) (ap (λ n. rand n % w) at_k ∙ ex) (ap (λ n. rand (n + 1) % h) at_k ∙ ey) in
      subst (λ n. bean_at (next b placed k f).0.beans n ≡ true) e
        ((round b placed k f).reached (λ q. ne (sym e ∙ q))))
  carried b placed k f fuel x' y' ne (inr (suc i, lt, ex, ey)) =
      let later : k + 2 + 2 * i ≡ k + 2 * suc i = omega arith in
      inr (i, omega arith, ap (λ n. rand n % w) later ∙ ex, ap (λ n. rand (n + 1) % h) later ∙ ey)

  -- With a cell for each bean, and all cells held or about to be drawn, the loop ends.
  beans_loop-returns :
      (fuel count k : ℕ) (b : Board) (placed : ℕ)
      → IsFilled w h ax ay b placed
      → count + 1 ≤ w * h
      → ((x y : ℕ)
          → x < w
          → y < h
          → cell w x y ≢ cell w ax ay
          → (bean_at b.beans (cell w x y) ≡ true) ⊎ IsDrawn rand w h fuel k x y)
      → (b' : Board) × (beans_loop rand (pos ax) (pos ay) fuel count k (b, placed) ≡ ok b')
  beans_loop-returns zero count k b placed f room covered = (
    b,
    beans_loop-done zero count k placed b (
        ground (
          arith,
          all_held b placed f (λ x y hx hy ne. elim (covered x y hx hy ne) [
            | inl held ↦ held
            | inr (i, lt, _, _) ↦ absurd (omega arith)
          ]),
        )),
  )
  beans_loop-returns (suc fuel) count k b placed f room covered =
      elim (Bool-cases (ltb placed count)) [
        | inl more ↦
            let r = round b placed k f in
            let (b', e) =
              beans_loop-returns fuel count (k + 2) (next b placed k f).0 (next b placed k f).1
                r.filled room
                (λ x' y' hx hy ne. carried b placed k f fuel x' y' ne (covered x' y' hx hy ne)) in
            (b', beans_loop-more b placed k f fuel count more ∙ e)
        | inr done ↦ (b, beans_loop-done (suc fuel) count k placed b done)
      ]

-- How many beans `generateBeans` places: no more than there are cells but one.
abbrev pub wanted : ℕ → Board → ℕ
wanted count b = if ltb (b.width * b.height - 1) count then b.width * b.height - 1 else count

module _ (rand : ℕ → ℕ) (fuel count ax ay : ℕ) (b : Board) where
  abbrev emptied : Board
  emptied = record b { bean_count = pos 0; beans = replicate (length b.beans) false }

  emptied-IsFilled : length b.beans ≡ b.width * b.height → IsFilled b.width b.height ax ay emptied 0
  emptied-IsFilled size = record {
    sides = (refl, refl);
    size = length-replicate (length b.beans) false ∙ size;
    counted = ap pos (sym (count_beans-replicate (length b.beans)));
    total = sym (count_beans-replicate (length b.beans));
    avoided = get_or-replicate (length b.beans) (cell b.width ax ay) false;
  }

  module _ (size : length b.beans ≡ b.width * b.height) (hx : ax < b.width)
      (hy : ay < b.height) where
    -- If `generateBeans` returns on a board with a cell for each bean slot and the cell to avoid
    -- on it, the board holds the wanted number of beans, or one less than its cells if there are
    -- not so many; the count says so; and the cell to avoid holds none.
    pub generate_beans-IsFilled :
        (b' : Board)
        → generate_beans rand (pos ax) (pos ay) fuel count b ≡ ok b'
        → IsFilled b.width b.height ax ay b' (wanted count b)
    unfolding generate_beans
    generate_beans-IsFilled b' e =
        beans_loop-IsFilled b.width b.height ax ay rand hx (omega arith) (omega arith) fuel
          (wanted count b) 0 emptied b' 0 (emptied-IsFilled size) (omega arith) e

    pub generate_beans-returns :
        ((x y : ℕ) → x < b.width → y < b.height → IsDrawn rand b.width b.height fuel 0 x y)
        → (b' : Board) × (generate_beans rand (pos ax) (pos ay) fuel count b ≡ ok b')
    unfolding generate_beans
    generate_beans-returns drawn =
        beans_loop-returns b.width b.height ax ay rand hx (omega arith) (omega arith) fuel
          (wanted count b) 0 emptied 0 (emptied-IsFilled size)
          (ground (arith, grid_index-lt b.width b.height ay ax hy hx))
          (λ x y lx ly ne. inr (drawn x y lx ly))

    pub generate_beans-Ends :
        Ends Unit (λ _. Unit {0}) (generate_beans rand (pos ax) (pos ay) fuel count b)
    unfolding generate_beans
    generate_beans-Ends =
        beans_loop-Ends b.width b.height ax ay rand hx (omega arith) (omega arith) fuel
          (wanted count b) 0 0 emptied (emptied-IsFilled size)
