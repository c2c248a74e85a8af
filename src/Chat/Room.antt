-- ===== src/Chat/Room.antt =====
-- The messages of a room (chat_server.cpp): handleUserMessageAsync, processNextInQueue, push_output,
-- the events of the agents, and app_on_input.
use package.aimeath.Common.{
  ◌+◌, true, false, ◌&&◌, List, ◌++◌, Option, none, some, length, replicate, ltb, ◌==◌,
  if◌then◌else◌, Outcome, ok, undefined,
}
use mathlib.Core.List.{[], ◌∷◌}
use package.aimeath.Common.Json.{String, str_eq, string, Members, end, member}
use package.aimeath.Core.Queue.{Queue, push, try_pop, clear}
use package.aimeath.Game.Api.{Boost}
use package.aimeath.Chat.{
  Callback, remember, go_on, Agent, Talk, Chat, add_missing, is_end, user_message, emit,
  process_next,
}
use package.aimeath.Chat.Text.{first_is, split_space, drop_first, drop_blanks, blank_only}

-- `targetAgent` and `actualText` of a text.
pub record Address : Type 0 where
  pub target : String
  pub actual : String

-- After `@`: the name up to the first space, and the text behind it.
abbrev pub address_of : String → String × Option String → Address
address_of text (name, none) = record { target = ""; actual = text }
address_of text (name, some rest) = record {
  target = name;
  actual = if blank_only rest then "" else drop_blanks rest;
}

unfoldable pub parse_address : String → Address
parse_address text =
    if first_is 64 text
    then address_of text (split_space (drop_first text))
    else record { target = ""; actual = text }

module _ (boost : Boost) where
  -- The conversation that a text begins.
  abbrev pub new_talk : Chat → String → String → Talk
  new_talk c text sender =
      let a = parse_address text in
      record {
        idx = 0;
        round = 0;
        text = text;
        sender = sender;
        target = a.target;
        actual = a.actual;
        auto_loop = str_eq a.target "" && ltb 1 (length c.agents);
        slots = replicate (length c.agents) false;
      }

  abbrev pub begin_talk : Chat → Talk → Outcome Chat
  begin_talk c t =
      if length c.agents == 0
      then ok c
      else process_next boost (length c.agents + 2) (length c.talks)
          (record c { talks = c.talks ++ t ∷ [] })

  unfoldable pub handle_user_message : String → String → Chat → Outcome Chat
  unfolding process_next parse_address
  handle_user_message text sender c =
      let c' = record c { history = c.history ++ user_message text sender ∷ [] } in
      begin_talk c' (new_talk c' text sender)

  abbrev pub handle_next : Chat → Option String × Queue String → Outcome Chat
  handle_next c (none, q) = ok c
  handle_next c (some next, q) =
      handle_user_message next "用户"
        (record c { input_queue = q; streaming = true; round = c.round + 1 })

  unfoldable pub process_next_in_queue : Chat → Outcome Chat
  unfolding try_pop handle_user_message
  process_next_in_queue c = if c.cancelled then ok c else handle_next c (try_pop c.input_queue)

  unfoldable pub push_output : Members → Chat → Outcome Chat
  unfolding emit process_next_in_queue
  push_output o c =
      let c' = emit boost o c in
      if is_end o then process_next_in_queue (record c' { streaming = false }) else ok c'

  -- `push_output` locks the mutex that `drainAndPush` holds: with an output pending the behaviour
  -- is undefined.
  abbrev pub drain : List Members → Chat → Outcome Chat
  drain [] c = ok c
  drain (_ ∷ _) c = undefined

  unfoldable pub drain_and_push : Chat → Outcome Chat
  drain_and_push c = drain c.pending_outputs c

  -- The action `stop`.
  unfoldable pub stop : Chat → Outcome Chat
  unfolding push_output clear
  stop c =
      push_output (member "type" (string "stream_end") (member "msg" (string "stopped") end))
        (record c { cancelled = true; streaming = false; input_queue = clear c.input_queue })

  -- A text that is no command.
  unfoldable pub accept_text : String → Chat → Outcome Chat
  unfolding handle_user_message push
  accept_text text c =
      if c.streaming
      then ok (record c { input_queue = push text c.input_queue })
      else handle_user_message text c.display_name
          (record c { streaming = true; round = c.round + 1 })

  -- The stream callback of an agent, with the names that the agent adds.
  unfoldable pub on_stream : Agent → Members → Chat → Outcome Chat
  unfolding push_output
  on_stream a ev c =
      if c.cancelled
      then ok c
      else push_output (add_missing "sender_avatar" a.avatar (add_missing "sender_name" a.name ev))
          c

  abbrev pub remembered : Members → Chat → Chat
  remembered msg c = if c.cancelled then c else record c { history = c.history ++ msg ∷ [] }

  -- The response callback of an agent.
  unfoldable pub on_response : Callback → Members → Chat → Outcome Chat
  unfolding process_next
  on_response remember msg c = ok (remembered msg c)
  on_response (go_on k) msg c = process_next boost (length c.agents + 2) k (remembered msg c)
