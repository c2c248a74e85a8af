-- ===== src/Chat/Tests.antt =====
-- Runs of a room.
use aimeath.Common.{
  ℕ, ◌≡◌, refl, Bool, true, false, List, [], ◌∷◌, some, none, Outcome, ok, undefined, ◌>>=◌, length,
  arith, map,
}
use aimeath.Common.Json.{String, string, object, Members, member, end}
use aimeath.Game.Api.{Boost}
use aimeath.Chat.{Chat, go_on, remember}
use aimeath.Chat.Room.{parse_address, accept_text, on_stream, on_response, stop}
use aimeath.Chat.Command.{Profile}
use aimeath.Chat.Input.{create, say}
use aimeath.Chat.Events.{Event, said, piece, answered, run}
use aimeath.Chat.Handled.{IsOrdered}
use aimeath.Chat.Whole.{spoken, run-IsOrdered}
use aimeath.Chat.Stopped.{run-stop_silent}
use mathlib.Core.Bool.{false≢true}
use aimeath.Chat.Kept.{AreTalks}
use aimeath.Chat.Rounds.{answers, accept_text-asked}
use aimeath.Chat.Turns.{asked_of}

abbrev plain : Boost
plain = record {
  parse = λ s. some (object (member "text" (string s) end));
  serialize = λ v. "";
  to_int64 = λ v. none;
}

abbrev ann : Profile
ann = record { name = "Ann"; avatar = ""; system_prompt = "" }

abbrev bob : Profile
bob = record { name = "Bob"; avatar = ""; system_prompt = "" }

abbrev stream_end : Members
stream_end = member "type" (string "stream_end") end

prompts : Chat → List (String × String)
prompts c = map (λ a. (a.agent, a.prompt)) c.asked

two_messages : Outcome (List (String × String) × Bool)
unfolding create say on_stream prompts
two_messages = do
  c ← say plain [] "hi" (create (some ann))
  c ← say plain [] "more" c
  c ←
      on_stream plain
        (record { name = "Ann"; avatar = ""; system_prompt = ""; callback = remember }) stream_end c
  ok (prompts c, c.streaming)

two_messages_lem : two_messages ≡ ok (("Ann", "hi") ∷ ("Ann", "more") ∷ [], true)
unfolding two_messages
two_messages_lem = refl

unknown_target : Outcome (List (String × String) × Bool)
unfolding create say prompts
unknown_target = do c ← say plain [] "@Eve hi" (create (some ann)); ok (prompts c, c.streaming)

unknown_target_lem : unknown_target ≡ ok ([], true)
unfolding unknown_target
unknown_target_lem = refl

added_agent : Outcome ℕ
unfolding create say on_response
added_agent = do
  c ← say plain (bob ∷ []) "hi" (create (some ann))
  c ← say plain (bob ∷ []) "/agent add Bob" c
  c ← on_response plain (go_on 0) end c
  ok (length c.asked)

added_agent_lem : added_agent ≡ undefined
unfolding added_agent
added_agent_lem = refl

abbrev talk : List Event
talk = said "hi" ∷ said "more" ∷ piece 0 false "yes" ∷ answered 0 "yes" "" ∷ []

run-IsOrdered_example :
    (c : Chat) × (run plain [] talk (create (some ann)) ≡ ok c) × IsOrdered (spoken talk) c
run-IsOrdered_example =
    run-IsOrdered plain [] (some ann) talk
      ((λ e. absurd (false≢true e)), ((λ e. absurd (false≢true e)), (tt, (tt, tt))))

-- The room that the code returned.
abbrev room_of : Outcome Chat → Chat
room_of (ok c) = c
room_of _ = create none

asking : Chat
unfolding create say
asking = room_of (say plain [] "hi" (create (some ann)))

ended : Chat
unfolding asking stop
ended = room_of (stop plain asking)

later : Chat
unfolding ended run
later = room_of (run plain [] talk ended)

asking-stop : stop plain asking ≡ ok ended
unfolding stop asking ended
asking-stop = refl

ended-run : run plain [] talk ended ≡ ok later
unfolding run ended later
ended-run = refl

run-stop_silent_example : (later.cancelled ≡ true) × (later.asked ≡ asking.asked)
run-stop_silent_example = run-stop_silent plain [] asking ended later talk asking-stop ended-run

pair : Chat
unfolding create
pair = record (create (some ann)) {
  agents =
      record { name = "Ann"; avatar = ""; system_prompt = ""; callback = remember }
      ∷ record { name = "Bob"; avatar = ""; system_prompt = ""; callback = remember }
      ∷ [];
}

pair-AreTalks : AreTalks pair
unfolding pair
pair-AreTalks = record { talks = tt; callbacks = (tt, (tt, tt)) }

accept_text-asked_example :
    (c : Chat) × ((accept_text plain "hi" pair >>= answers plain 0 (end ∷ end ∷ [])) ≡ ok c)
    × (asked_of c ≡ "Ann" ∷ "Bob" ∷ "Ann" ∷ [])
unfolding pair parse_address
accept_text-asked_example =
    accept_text-asked plain "hi" (end ∷ end ∷ []) pair pair-AreTalks refl refl (omega arith) refl
