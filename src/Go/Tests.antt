-- ===== src/Go/Tests.antt =====
-- Runs of the go code.
use aimeath.Common.{
  ℕ, suc, ◌+◌, ◌≡◌, ◌≢◌, refl, Bool, true, false, some, List, [], ◌∷◌, set, replicate,
  length-replicate, get_or-replicate, arith, Outcome, ok, ◌>>=◌,
}
use aimeath.Common.Int.{pos}
use aimeath.Common.Json.{Value}
use aimeath.Common.Ends.{Ends}
use aimeath.Game.Api.{Ctx, create, process_all}
use aimeath.Game.Api.Tests.{sample_boost}
use aimeath.Go.{
  Stone, empty, black, white, cells, new_board, place, Board, visits, unvisited, count_liberties,
  collect_group,
}
use aimeath.Go.Simulate.{is_legal}
use aimeath.Go.Cells.{IsBordered, IsBordered-set, Liberty}
use aimeath.Go.Count.{count_liberties_lem}
use aimeath.Go.Group.{IsGroup, collect_group-IsGroup}
use aimeath.Go.Remove.{stones}
use aimeath.Go.Rules.{IsStored, is_legal-place}
use aimeath.Go.Alive.{AllAlive, place-AllAlive}
use aimeath.Go.Score.{each_cell, hash, count_score}
use aimeath.Go.Game.{Game, new_game, tick, play, pass, go}
use aimeath.Go.Game.Moves.{IsSound, KoStep}
use aimeath.Go.Game.Invariant.{tick_ko}
use aimeath.Go.Game.Whole.{new_game-IsSound, play-new_game_sound, go_window}

plays : List (ℕ × ℕ × Stone) → Board → Outcome Board
unfolding place
plays [] b = ok b
plays ((r, c, s) ∷ rest) b = do (_, b', _) ← place (pos r) (pos c) s 0 b; plays rest b'

corner : Outcome (Bool × ℕ)
unfolding plays new_board is_legal
corner = do
  b ← plays ((0, 0, white) ∷ (0, 1, black) ∷ []) new_board
  l ← is_legal (pos 1) (pos 0) black b
  (_, b', n) ← place (pos 1) (pos 0) black 0 b
  ok (l, n)

corner_lem : corner ≡ ok (true, 1)
unfolding corner
corner_lem = refl

-- A black stone alone on the board: the stone, and the one stone beside the territory.
lone : Outcome ℕ
unfolding plays new_board count_score each_cell
lone = do b ← plays ((3, 3, black) ∷ []) new_board; count_score b black

lone_lem : lone ≡ ok 2
unfolding lone
lone_lem = refl

hashed : Outcome ℕ
unfolding hash new_board each_cell
hashed = hash new_board

hashed_lem : hashed ≡ ok 6092676136234823925
unfolding hashed
hashed_lem = refl

sized : IsBordered new_board.grid
unfolding new_board
sized = record {
  size = length-replicate cells empty;
  border = λ i _. get_or-replicate cells i empty;
}

black≢empty : black ≢ empty
black≢empty e = cc

is_legal-place_example :
    (answer : Bool) × (is_legal (pos 2) (pos 3) black new_board ≡ ok answer)
    × ((b : Board) × (n : ℕ) × (place (pos 2) (pos 3) black 0 new_board ≡ ok (answer, b, n))
        × (answer ≡ true → IsStored (pos 2) (pos 3) black new_board b n)
        × (answer ≡ false → b ≡ new_board))
is_legal-place_example = is_legal-place (pos 2) (pos 3) black 0 new_board sized black≢empty

-- The cell 66 is that of the row 2 and the column 2.
abbrev one_stone : Board
one_stone = record { grid = set (replicate cells empty) 66 black; dead = replicate cells false }

one_stone_lem : place (pos 2) (pos 2) black 0 new_board ≡ ok (true, one_stone, 0)
unfolding place new_board
one_stone_lem = refl

no_stones : AllAlive new_board.grid
unfolding new_board
no_stones i held = absurd (held (get_or-replicate cells i empty))

not_marking : new_game.marking ≡ false
unfolding new_game
not_marking = refl

place-AllAlive_example :
    AllAlive one_stone.grid
    × IsBordered one_stone.grid
    × (stones one_stone.grid + 0 ≡ suc (stones new_board.grid))
place-AllAlive_example =
    place-AllAlive (pos 2) (pos 2) black 0 new_board one_stone 0 sized black≢empty no_stones
      one_stone_lem

play-new_game_sound_example :
    (g : Game) × (play (pos 60 ∷ pass ∷ pos 61 ∷ []) new_game ≡ ok g) × IsSound g
play-new_game_sound_example = play-new_game_sound (pos 60 ∷ pass ∷ pos 61 ∷ [])

tick_ko_example : (g : Game) × (tick (pos 60) new_game ≡ ok g) × KoStep new_game g
tick_ko_example = tick_ko new_game new_game-IsSound (pos 60) not_marking

stone_sized : IsBordered one_stone.grid
stone_sized = IsBordered-set (replicate cells empty) blank 66 black refl
  where
    blank : IsBordered (replicate cells empty)
    blank = record {
      size = length-replicate cells empty;
      border = λ i _. get_or-replicate cells i empty;
    }

count_liberties_lem_example :
    Ends ⊥
      (λ r.
        (r.0 ≢ 0 → Liberty one_stone.grid black 66) × (r.0 ≡ 0 → ¬ Liberty one_stone.grid black 66))
      (count_liberties one_stone.grid black visits 66 unvisited)
count_liberties_lem_example =
    count_liberties_lem one_stone.grid stone_sized black black≢empty 66 (omega arith)

collect_group-IsGroup_example :
    Ends ⊥
      (λ r. IsGroup one_stone.grid stone_sized black black≢empty 66 r.1)
      (collect_group one_stone.grid black visits 66 (unvisited, []))
collect_group-IsGroup_example =
    collect_group-IsGroup one_stone.grid stone_sized black black≢empty 66 (omega arith)

go_window_example :
    (r : Ctx Game × List Value) × (process_all sample_boost go ("a" ∷ []) create ≡ ok r)
    × ((g : Game) → r.0.game ≡ some g → IsSound g)
go_window_example = go_window sample_boost ("a" ∷ [])
