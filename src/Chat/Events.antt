-- ===== src/Chat/Events.antt =====
-- What can happen to a room (chat_server.cpp, agent_chat_participant.cpp), as a list of events.
use package.aimeath.Common.{ℕ, Bool, List, Option, none, some, get_elem?, Outcome, ok, ◌>>=◌}
use mathlib.Core.List.{[], ◌∷◌}
use package.aimeath.Common.Json.{String}
use package.aimeath.Game.Api.{Boost}
use package.aimeath.Chat.{Agent, Chat}
use package.aimeath.Chat.Command.{Profile}
use package.aimeath.Chat.Room.{drain_and_push, stop}
use package.aimeath.Chat.Input.{say, set_output}
use package.aimeath.Chat.Participant.{on_piece, on_tools, on_answer}

-- The user says something, stops the agents or polls; the session sets the output; and the agent at an
-- index streams a piece of an answer, calls tools, or ends its answer.
pub data Event : Type 0 where
  said : String → Event
  stopped polled : Event
  output_set : Bool → Event
  piece : ℕ → Bool → String → Event
  tools : ℕ → Event
  answered : ℕ → String → String → Event

module _ (boost : Boost) (profiles : List Profile) where
  abbrev pub by_agent : Option Agent → (Agent → Chat → Outcome Chat) → Chat → Outcome Chat
  by_agent none act c = ok c
  by_agent (some a) act c = act a c

  unfoldable pub step : Event → Chat → Outcome Chat
  unfolding say stop drain_and_push set_output on_piece on_tools on_answer
  step (said text) c = say boost profiles text c
  step stopped c = stop boost c
  step polled c = drain_and_push boost c
  step (output_set has) c = ok (set_output has c)
  step (piece i reasoning text) c =
      by_agent (get_elem? c.agents i) (on_piece boost reasoning text) c
  step (tools i) c = by_agent (get_elem? c.agents i) (on_tools boost) c
  step (answered i response reasoning) c =
      by_agent (get_elem? c.agents i) (on_answer boost i response reasoning) c

  unfoldable pub run : List Event → Chat → Outcome Chat
  unfolding step
  run [] c = ok c
  run (e ∷ es) c = step e c >>= run es
