-- ===== src/Pacman/Rules.antt =====
-- PacmanGame::tick (game.cpp), and whole games.
use aimeath.Common.{
  ℕ, ◌+◌, ◌-◌, ◌*◌, ◌/◌, ◌<◌, ◌≡◌, refl, sym, ap, subst, ◌∙◌, inl, inr, Bool, true, false, not,
  ◌&&◌, ◌||◌, List, [], ◌∷◌, length-replicate, if◌then◌else◌, arith, Outcome, ok, ◌>>=◌,
  ok-injective, >>=_parts, Bool-cases, ◌==◌, ltb, leb, if_by, undefined, ◌≤◌,
}
use mathlib.Core.Path.{ap₂}
use aimeath.Common.Int.{ℤ, pos, within, within→Below}
use aimeath.Game.Direction.{Direction, right, to_direction, apply_dir}
use aimeath.Pacman.{
  Board, Game, bean_total, blank, new_board, new_game, generate_beans, eat_bean, tick, play,
}
use aimeath.Game.Grid.{int_max}
use aimeath.Pacman.Beans.{count_beans}
use aimeath.Pacman.Eat.{IsValid, eat_bean-Meal}
use aimeath.Pacman.Loop.{IsDrawn, generate_beans-IsFilled, generate_beans-returns}

-- The cell that a direction leads to lies on the board.
abbrev pub stays_inside : Direction → Game → Bool
stays_inside d g =
    let (nx, ny) = apply_dir d g.player_x g.player_y in
    within nx g.board.width && within ny g.board.height

abbrev pub worth : Game → ℕ
worth g = g.score + 10 * count_beans g.board.beans

-- The player at the cell that the direction leads to.
abbrev stepped : Direction → Game → Game
stepped d g =
    let (nx, ny) = apply_dir d g.player_x g.player_y in
    record g { dir = d; next_dir = d; player_x = nx; player_y = ny }

stepped-IsValid :
    (d : Direction) (g : Game) → IsValid g → stays_inside d g ≡ true → IsValid (stepped d g)
stepped-IsValid d g v h =
    let (nx, ny) = apply_dir d g.player_x g.player_y in
    record {
      size = v.size;
      counted = v.counted;
      inside = ground (arith, within→Below nx g.board.width, within→Below ny g.board.height);
    }

-- What a tick leaves of a live game.
pub record Ticked (action : ℤ) (g g' : Game) : Type 0 where
  pub valid : IsValid g'
  pub same_worth : worth g' ≡ worth g
  pub over :
      g'.game_over ≡ (not (stays_inside (to_direction action) g) || count_beans g'.board.beans == 0)
  pub sides : (g'.board.width ≡ g.board.width) × (g'.board.height ≡ g.board.height)

-- The game after the player ran into a wall.
abbrev walled : Direction → Game → Game
walled d g = record g { dir = d; next_dir = d; game_over = true }

tick_live :
    (action : ℤ) (g : Game)
    → g.game_over ≡ false
    → let d = to_direction action in
      tick action g ≡ (if stays_inside d g then eat_bean (stepped d g) else ok (walled d g))
unfolding tick
tick_live action g live =
    let d = to_direction action in
    ap
      (λ over.
        if over
        then ok g
        else (if stays_inside d g then eat_bean (stepped d g) else ok (walled d g)))
      live

tick-Ticked :
    (action : ℤ) (g : Game)
    → IsValid g
    → g.game_over ≡ false
    → (g' : Game) × (tick action g ≡ ok g') × Ticked action g g'
tick-Ticked action g v live = elim (Bool-cases (stays_inside d g)) [
  | inl stays ↦
      let (g', e, m) = eat_bean-Meal (stepped d g) (stepped-IsValid d g v stays) in
      (
        g',
        tick_live action g live
            ∙ ap (λ s. if s then eat_bean (stepped d g) else ok (walled d g)) stays
            ∙ e,
        record {
          valid = m.valid;
          same_worth = m.worth;
          over = ground (arith, m.over, live, stays);
          sides = m.sides;
        },
      )
  | inr leaves ↦ (
    walled d g,
    tick_live action g live
        ∙ ap (λ s. if s then eat_bean (stepped d g) else ok (walled d g)) leaves,
    record {
      valid = record { size = v.size; counted = v.counted; inside = v.inside };
      same_worth = refl;
      over = ground (arith, leaves);
      sides = (refl, refl);
    },
  )
]
  where
    d : Direction
    d = to_direction action

tick_over : (action : ℤ) (g : Game) → g.game_over ≡ true → tick action g ≡ ok g
unfolding tick
tick_over action g over = rw over

-- A tick of a well-formed game always returns, without a fault, a well-formed game, and the
-- score plus ten for each bean left is what it was.
pub tick_total :
    (action : ℤ) (g : Game)
    → IsValid g
    → (g' : Game) × (tick action g ≡ ok g') × IsValid g' × (worth g' ≡ worth g)
tick_total action g v = elim (Bool-cases g.game_over) [
  | inl over ↦ (g, tick_over action g over, v, refl)
  | inr live ↦ let (g', e, t) = tick-Ticked action g v live in (g', e, t.valid, t.same_worth)
]

-- After a tick of a live well-formed game the game is over exactly if the direction leads off
-- the board or no bean is left.
pub tick_ends :
    (action : ℤ) (g g' : Game)
    → IsValid g
    → g.game_over ≡ false
    → tick action g ≡ ok g'
    → g'.game_over ≡ (not (stays_inside (to_direction action) g) || count_beans g'.board.beans == 0)
tick_ends action g g' v live e =
    let (r, e', t) = tick-Ticked action g v live in
    subst
      (λ k.
        k.game_over
        ≡ (not (stays_inside (to_direction action) g) || count_beans k.board.beans == 0))
      (ok-injective (sym e' ∙ e)) t.over

play_total :
    (actions : List ℤ) (g : Game)
    → IsValid g
    → (g' : Game) × (play actions g ≡ ok g') × (worth g' ≡ worth g)
unfolding play
play_total [] g v = (g, refl, refl)
play_total (a ∷ as') g v =
    let (g₁, e₁, v₁, w₁) = tick_total a g v in
    let (g', e, w) = play_total as' g₁ v₁ in (g', ap (λ m. m >>= play as') e₁ ∙ e, w ∙ w₁)

pub new_board_fits : (w h : ℕ) → w * h ≤ int_max → new_board w h ≡ ok (blank w h)
unfolding new_board
new_board_fits w h fits =
    if_by (λ m. m ≡ ok (blank w h)) (leb (w * h) int_max) _ _ (λ _. refl)
      (λ large. absurd (ground (arith, fits)))

-- Beyond the range of an `int` there is no board.
new_board-blank : (w h : ℕ) (b : Board) → new_board w h ≡ ok b → (b ≡ blank w h) × (w * h ≤ int_max)
unfolding new_board
new_board-blank w h b = go (leb (w * h) int_max) refl
  where
    go :
        (fits : Bool)
        → leb (w * h) int_max ≡ fits
        → (if fits then ok (blank w h) else undefined) ≡ ok b
        → (b ≡ blank w h) × (w * h ≤ int_max)
    go true small e = (sym (ok-injective e), ground (arith, small))
    go false small e = cc

module _ (rand : ℕ → ℕ) (fuel w h : ℕ) (hw : 0 < w) (hh : 0 < h) where
  abbrev beans_of : ℕ
  beans_of = if ltb (w * h - 1) bean_total then w * h - 1 else bean_total

  -- What the constructor makes of the filled board.
  abbrev start : Board → Outcome Game
  start b = ok (record {
    board = b;
    player_x = pos (w / 2);
    player_y = pos (h / 2);
    dir = right;
    next_dir = right;
    score = 0;
    game_over = false;
  })

  pub new_game-start :
      (g : Game)
      → new_game rand fuel w h ≡ ok g
      → (w * h ≤ int_max) × IsValid g × (worth g ≡ 10 * beans_of)
  unfolding new_game
  new_game-start g e =
      let (start_b, blanked, begun) = >>=_parts (new_board w h) _ e in
      let (blank_b, fits) = new_board-blank w h start_b blanked in
      let (b, made, done) =
        >>=_parts (generate_beans rand (pos (w / 2)) (pos (h / 2)) fuel bean_total start_b) _
          begun in
      let f =
        generate_beans-IsFilled rand fuel bean_total (w / 2) (h / 2) (blank w h)
          (length-replicate (w * h) false) (omega arith) (omega arith) b
          (ap (generate_beans rand (pos (w / 2)) (pos (h / 2)) fuel bean_total) (sym blank_b)
            ∙ made) in
      subst (λ k. (w * h ≤ int_max) × IsValid k × (worth k ≡ 10 * beans_of)) (ok-injective done)
        (
          fits,
          record {
            size = f.size ∙ ap₂ ◌*◌ (sym f.sides.0) (sym f.sides.1);
            counted = f.counted;
            inside = rw (f.sides.0, f.sides.1) (omega arith, omega arith);
          },
          omega (arith, f.total),
        )

  -- The construction of a game on a board with sides of at least one cell, whose cells an `int` can
  -- count, returns if every cell of the board is among those that the fuel lets it draw.
  pub new_game-returns :
      w * h ≤ int_max
      → ((x y : ℕ) → x < w → y < h → IsDrawn rand w h fuel 0 x y)
      → (g : Game) × (new_game rand fuel w h ≡ ok g)
  unfolding new_game
  new_game-returns fits drawn =
      let (b, e) =
        generate_beans-returns rand fuel bean_total (w / 2) (h / 2) (blank w h)
          (length-replicate (w * h) false) (omega arith) (omega arith) drawn in
      (
        _,
        ap
              (λ m. m >>= λ b.
                generate_beans rand (pos (w / 2)) (pos (h / 2)) fuel bean_total b >>= start)
              (new_board_fits w h fits)
            ∙ ap (λ m. m >>= start) e,
      )

  -- If the construction of a game with sides of at least one cell returns, an `int` can count the
  -- cells of its board, and any sequence of actions can be played from the new game without a fault,
  -- and leaves a score of ten for each bean eaten: the score plus ten
  -- for each bean left is ten times 30, or ten times the cells but one if there are fewer.
  pub play-score :
      (actions : List ℤ) (g : Game)
      → new_game rand fuel w h ≡ ok g
      → (w * h ≤ int_max)
        × ((g' : Game) × (play actions g ≡ ok g')
            × (g'.score + 10 * count_beans g'.board.beans ≡ 10 * beans_of))
  play-score actions g e =
      let (fits, v, start) = new_game-start g e in
      let (g', e', same) = play_total actions g v in (fits, (g', e', same ∙ start))
