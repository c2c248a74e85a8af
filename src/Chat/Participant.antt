-- ===== src/Chat/Participant.antt =====
-- AgentChatParticipant (module/agent/src/agent_chat_participant.cpp), as far as the room sees it: the
-- events while the model answers, and the end of an answer.
use package.aimeath.Common.{
  ℕ, Bool, true, false, Option, none, some, get_elem?, if◌then◌else◌, Outcome, ok, ◌>>=◌,
}
use package.aimeath.Common.Json.{String, str_eq, string, Members, end, member}
use package.aimeath.Game.Api.{Boost}
use package.aimeath.Chat.{Agent, Chat}
use package.aimeath.Chat.Room.{on_stream, on_response}

-- The type of an event of the model that is passed on.
abbrev pub event_type : Bool → String
event_type true = "reasoning"
event_type false = "delta"

abbrev pub stream_event : String → Members
stream_event type = member "type" (string type) end

abbrev pub reasoned : String → Members → Members
reasoned reasoning ms =
    if str_eq reasoning "" then ms else member "reasoning_content" (string reasoning) ms

-- The message of a finished answer.
abbrev pub answer_message : Agent → String → String → Members
answer_message a response reasoning = member "role" (string "assistant") (
    member "sender_name" (string a.name) (
      member "sender_avatar" (string a.avatar)
        (member "content" (string response) (reasoned reasoning end))))

module _ (boost : Boost) where
  -- A piece of an answer or of its reasoning.
  unfoldable pub on_piece : Bool → String → Agent → Chat → Outcome Chat
  unfolding on_stream
  on_piece reasoning text a c =
      on_stream boost a
        (member "type" (string (event_type reasoning)) (member "text" (string text) end)) c

  -- The end of an answer that calls tools: the stream ends, and the next round begins one.
  unfoldable pub on_tools : Agent → Chat → Outcome Chat
  unfolding on_stream
  on_tools a c = do
    c' ← on_stream boost a (stream_event "stream_end") c
    on_stream boost a (stream_event "stream_start") c'

  -- `pushResponse`: the callback is the one that the agent has now.
  abbrev pub push_response : Members → Option Agent → Chat → Outcome Chat
  push_response msg none c = ok c
  push_response msg (some a) c = on_response boost a.callback msg c

  -- The end of an answer without calls of tools, of the agent at the index `i`.
  unfoldable pub on_answer : ℕ → String → String → Agent → Chat → Outcome Chat
  unfolding on_stream on_response
  on_answer i response reasoning a c = do
    c' ← on_stream boost a (stream_event "stream_end") c
    (if str_eq response ""
        then ok c'
        else push_response (answer_message a response reasoning) (get_elem? c'.agents i) c')
