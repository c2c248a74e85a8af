-- ===== src/Game/Api/Tests.antt =====
-- Runs of the game interface, and its theorems at concrete requests.
use aimeath.Common.{◌≡◌, refl, true, false, List, [], ◌∷◌, Option, none, some, ok}
use aimeath.Common.Int.{ℤ, pos}
use aimeath.Common.Json.{String, Value, int64, string, object, member, end}
use aimeath.Game.Api.{Boost, GameClass, Ctx, create, process_all, error, acknowledged}
use aimeath.Game.Api.Phases.{phase_of, run_phases, process_all-phase}

abbrev read_int : Value → Option ℤ
read_int (int64 n) = some n
read_int _ = none

-- Reads every text as a request with that action and the value 3.
abbrev pub sample_boost : Boost
sample_boost = record {
  parse = λ s. some (object (member "action" (string s) (member "value" (int64 (pos 3)) end)));
  serialize = λ v. "";
  to_int64 = read_int;
}

-- A game that adds up the values.
abbrev adder : GameClass ℤ
adder = record {
  construct = λ w h. ok (pos w);
  step = λ value g. ok value;
  state = λ g. ok (int64 g);
}

abbrev requests : List String
requests =
    "tick" ∷ "start" ∷ "new_game" ∷ "pause" ∷ "tick" ∷ "resume" ∷ "tick" ∷ "end_game" ∷ "get_state"
    ∷ "x" ∷ []

abbrev after : Ctx ℤ
after = record { game = none; width = 20; height = 20; paused = false; done = true }

abbrev replied : List Value
replied =
    error "no game"
    ∷ int64 (pos 20)
    ∷ error "game already running"
    ∷ acknowledged
    ∷ acknowledged
    ∷ int64 (pos 3)
    ∷ acknowledged
    ∷ error "no game"
    ∷ error "unknown action: x"
    ∷ []

run_requests : process_all sample_boost adder requests create ≡ ok (after, replied)
unfolding process_all error acknowledged create
run_requests = refl

process_all-phase_example :
    phase_of after ≡ run_phases sample_boost requests (phase_of (create {G = ℤ}))
process_all-phase_example =
    process_all-phase sample_boost adder requests create (after, replied) run_requests
