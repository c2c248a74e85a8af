-- ===== src/Pacman/Eat.antt =====
-- The well-formedness of a pacman game, and how the player eats (game.cpp).
use aimeath.Common.{
  ℕ, suc, ◌+◌, ◌*◌, ◌<◌, ◌≡◌, refl, sym, ap, subst, ◌∙◌, inl, inr, false, ◌||◌, length, set,
  length-set, if◌then◌else◌, arith, ok, Bool-cases, ◌==◌,
}
use aimeath.Common.Int.{pos, dec, ◌==ℤ◌, Below, Below-pos}
use aimeath.Game.Grid.{grid_index_pos, get_elem?-grid_index}
use aimeath.Pacman.{Game, eat_bean}
use aimeath.Pacman.Beans.{count_beans, bean_at, count_beans-set-false}
use aimeath.Pacman.Fill.{cell}

-- The beans are counted, and the player stands on the board.
pub record IsValid (g : Game) : Type 0 where
  pub size : length g.board.beans ≡ g.board.width * g.board.height
  pub counted : g.board.bean_count ≡ pos (count_beans g.board.beans)
  pub inside : Below g.player_x g.board.width × Below g.player_y g.board.height

-- The game after the bean of the cell `i`, if it has one, was eaten.
abbrev pub eaten : Game → ℕ → Game
eaten g i =
    if bean_at g.board.beans i
    then record g {
      board = record g.board {
        beans = set g.board.beans i false;
        bean_count = dec g.board.bean_count;
      };
      score = g.score + 10;
    }
    else g

abbrev pub settled : Game → Game
settled g = record g { game_over = g.game_over || g.board.bean_count ==ℤ pos 0 }

-- What eating leaves of the game `g`.
pub record Meal (g g' : Game) : Type 0 where
  pub valid : IsValid g'
  pub worth : g'.score + 10 * count_beans g'.board.beans ≡ g.score + 10 * count_beans g.board.beans
  pub over : g'.game_over ≡ (g.game_over || count_beans g'.board.beans == 0)
  pub sides : (g'.board.width ≡ g.board.width) × (g'.board.height ≡ g.board.height)

module _ (g : Game) (v : IsValid g) (x y : ℕ) (at_x : g.player_x ≡ pos x)
    (at_y : g.player_y ≡ pos y) (hx : x < g.board.width) (hy : y < g.board.height) where
  abbrev here : ℕ
  here = cell g.board.width x y

  eat_bean-here :
      eat_bean (record g { player_x = pos x; player_y = pos y })
      ≡ ok (settled (eaten (record g { player_x = pos x; player_y = pos y }) here))
  unfolding eat_bean
  eat_bean-here = rw (grid_index_pos g.board.width y x) (
      ground (
        arith,
        get_elem?-grid_index g.board.width g.board.height g.board.beans v.size y x hy hx false,
      ))

  same : record g { player_x = pos x; player_y = pos y } ≡ g
  same i = record g { player_x = sym at_x i; player_y = sym at_y i }

  pub eaten-Meal : Meal g (settled (eaten g here))
  unfolding dec
  eaten-Meal = elim (Bool-cases (bean_at g.board.beans here)) [
    | inl bean ↦
        let fewer = count_beans-set-false g.board.beans here bean in
        let left = count_beans (set g.board.beans here false) in
        let one_less : dec g.board.bean_count ≡ pos left =
          ap dec (v.counted ∙ ap pos {y = suc left} (omega (arith, fewer))) in
        rw bean (record {
          valid = record {
            size = length-set g.board.beans here false ∙ v.size;
            counted = one_less;
            inside = v.inside;
          };
          worth = omega (arith, fewer);
          over = ap (λ c. g.game_over || c ==ℤ pos 0) one_less;
          sides = (refl, refl);
        })
    | inr empty ↦ rw empty (record {
      valid = record { size = v.size; counted = v.counted; inside = v.inside };
      worth = refl;
      over = ap (λ c. g.game_over || c ==ℤ pos 0) v.counted;
      sides = (refl, refl);
    })
  ]

  pub eat_bean-eq : eat_bean g ≡ ok (settled (eaten g here))
  eat_bean-eq = subst (λ (k : Game). eat_bean k ≡ ok (settled (eaten k here))) same eat_bean-here

-- A player who stands on the board eats without a fault.
pub eat_bean-Meal : (g : Game) → IsValid g → (g' : Game) × (eat_bean g ≡ ok g') × Meal g g'
eat_bean-Meal g v =
    let (x, at_x, hx) = Below-pos g.player_x g.board.width v.inside.0 in
    let (y, at_y, hy) = Below-pos g.player_y g.board.height v.inside.1 in
    (
      settled (eaten g (cell g.board.width x y)),
      eat_bean-eq g v x y at_x at_y hx hy,
      eaten-Meal g v x y at_x at_y hx hy,
    )
