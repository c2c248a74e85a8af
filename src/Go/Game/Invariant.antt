-- ===== src/Go/Game/Invariant.antt =====
-- The rules of GoGame (game.cpp) as an invariant.
use aimeath.Common.{
  ◌+◌, ◌≡◌, refl, sym, ◌∙◌, inl, Bool, true, false, ok, arith, if◌then◌else◌, leb, if_by,
}
use mathlib.Core.Bool.{false≢true}
use aimeath.Common.Int.{ℤ, ◌==ℤ◌, ◌/ℤ◌, ◌%ℤ◌}
use aimeath.Common.Ends.{Ends, Ends->>=, Ends-map, Ends-ok, Ends-if_cases}
use aimeath.Go.{Board, size}
use aimeath.Go.Capture.{opponent-ne}
use aimeath.Go.Score.{mark_dead, remove_dead_stones, clear_dead_marks}
use aimeath.Go.Score.Marks.{
  IsSized, mark_dead-Marked, remove_dead_stones-IsSized, clear_dead_marks-IsSized,
}
use aimeath.Go.Game.{
  Game, tick_marking, tick_stone, tick_pass, tick, pass, resign, clear_dead, confirm_dead,
}
use aimeath.Go.Game.Moves.{IsSound, KoStep, tick_stone-Moves}

module _ (g : Game) (sound : IsSound g) where
  -- Another board while the game is over.
  settled :
      (b : Board) (marking : Bool)
      → g.over ≡ true
      → IsSized b
      → IsSound (record g { board = b; marking = marking })
  settled b marking over sized = record {
    sized = sized;
    turn = sound.turn;
    distinct = sound.distinct;
    marked_over = λ _. over;
    live = λ going. absurd (false≢true (sym going ∙ over));
  }

  tick_marking-IsSound : (action : ℤ) → g.marking ≡ true → Ends ⊥ IsSound (tick_marking action g)
  unfolding tick_marking
  tick_marking-IsSound action marks =
      let over = sound.marked_over marks in
      Ends-if_cases ⊥ IsSound (action ==ℤ clear_dead) _ _
        (λ _.
          settled (clear_dead_marks g.board) g.marking over
            (clear_dead_marks-IsSized g.board sound.sized))
        (λ _.
          Ends-if_cases ⊥ IsSound (action ==ℤ confirm_dead) _ _
            (λ _.
              Ends->>= ⊥ _ IsSound (remove_dead_stones g.board) _
                (remove_dead_stones-IsSized g.board sound.sized)
                λ (b, _) sized. settled b false over sized)
            (λ _.
              Ends->>= ⊥ _ IsSound (mark_dead (action /ℤ size) (action %ℤ size) g.board) _
                (mark_dead-Marked (action /ℤ size) (action %ℤ size) g.board sound.sized)
                λ (_, b) (sized, _). settled b g.marking over sized))

  tick_pass-IsSound : g.over ≡ false → IsSound (tick_pass g)
  tick_pass-IsSound going =
      if_by IsSound (leb 2 (g.passes + 1)) _ _
        (λ _. record {
          sized = sound.sized;
          turn = sound.turn;
          distinct = sound.distinct;
          marked_over = λ _. refl;
          live = λ going. absurd (false≢true (sym going));
        })
        (λ few. record {
          sized = sound.sized;
          turn = (opponent-ne g.turn sound.turn).0;
          distinct = sound.distinct;
          marked_over = sound.marked_over;
          live = λ going. record {
            alive = (sound.live going).alive;
            counted = (sound.live going).counted;
            passes = ground arith;
          };
        })

  playing-Moves :
      (action : ℤ)
      → Ends ⊥
          (λ g'. IsSound g' × KoStep g g')
          (if g.over
            then ok g
            else (if action ==ℤ resign
                then ok (record g { over = true; resigned = true })
                else (if action ==ℤ pass
                    then ok (tick_pass g)
                    else tick_stone (action /ℤ size) (action %ℤ size) g)))
  playing-Moves action =
      Ends-if_cases ⊥ _ g.over _ _ (λ _. (sound, inl (refl, refl)))
        λ going.
          Ends-if_cases ⊥ _ (action ==ℤ resign) _ _
            (λ _. (
              record {
                sized = sound.sized;
                turn = sound.turn;
                distinct = sound.distinct;
                marked_over = λ _. refl;
                live = λ going. absurd (false≢true (sym going));
              },
              inl (refl, refl),
            ))
            λ _.
              Ends-if_cases ⊥ _ (action ==ℤ pass) _ _
                (λ _. (
                  tick_pass-IsSound going,
                  if_by (KoStep g) (leb 2 (g.passes + 1)) _ _ (λ _. inl (refl, refl))
                      (λ _. inl (refl, refl)),
                ))
                λ _. tick_stone-Moves g sound going (action /ℤ size) (action %ℤ size)

  pub tick-Ends : (action : ℤ) → Ends ⊥ IsSound (tick action g)
  unfolding tick
  tick-Ends action =
      Ends-if_cases ⊥ IsSound g.marking _ _ (tick_marking-IsSound action)
        λ _. Ends-map ⊥ _ IsSound _ (λ g' (s, _). s) (playing-Moves action)

  -- In a sound game in which no dead stones are being marked, a tick leaves the board and the history
  -- as they are, or it puts the hash of the new position at the end of the history, where it was not
  -- before.
  pub tick_ko :
      (action : ℤ) → g.marking ≡ false → (g' : Game) × (tick action g ≡ ok g') × KoStep g g'
  unfolding tick
  tick_ko action playing =
      let (g', e, (_, ko)) =
        Ends-ok (λ g'. IsSound g' × KoStep g g') (tick action g)
          (Ends-if_cases ⊥ _ g.marking _ _ (λ marks. absurd (false≢true (sym playing ∙ marks)))
            (λ _. playing-Moves action)) in
      (g', e, ko)
