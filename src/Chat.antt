-- ===== src/Chat.antt =====
-- desktop/app/chat/backend: chat_server.hpp and chat_server.cpp. The room's agents answer on threads
-- of their own, so that their events are steps of their own; what they are asked is kept in `asked`.
pub mod Text
pub mod Command
pub mod Room
pub mod Input
pub mod Participant
pub mod Kept
pub mod Listen
pub mod Talks
pub mod Handled
pub mod Order
pub mod Whole
pub mod Stopped
pub mod Schedule
pub mod Turns
pub mod Rounds
pub mod Events
pub mod Tests
use package.aimeath.Common.{
  ℕ, zero, suc, ◌+◌, Bool, true, false, not, ◌&&◌, ◌||◌, List, [], ◌∷◌, ◌++◌, Option, none, some,
  get_elem?, set, length, replicate, ltb, leb, ◌==◌, if◌then◌else◌, Outcome, ok, undefined,
  unfinished, ◌>>=◌,
}
use package.aimeath.Common.Json.{String, str_eq, Value, string, object, Members, end, member, find}
use package.aimeath.Core.Queue.{Queue, new_queue, push, try_pop}
use package.aimeath.Game.Api.{Boost}

-- What an agent does with an answer: the room remembers it, and the conversation of that number
-- may go on.
pub data Callback : Type 0 where
  remember : Callback
  go_on : ℕ → Callback

-- AgentChatParticipant, as far as the room sees it.
pub record Agent : Type 0 where
  pub name : String
  pub avatar : String
  pub system_prompt : String
  pub callback : Callback

-- The variables that `processNext` shares between its calls. `slots` tells which elements of
-- `oldCallbacks` hold a function.
pub record Talk : Type 0 where
  pub idx : ℕ
  pub round : ℕ
  pub text : String
  pub sender : String
  pub target : String
  pub actual : String
  pub auto_loop : Bool
  pub slots : List Bool

-- A call of `onUserMessage`, and the messages that it gives to the language model.
pub record Asked : Type 0 where
  pub agent : String
  pub prompt : String
  pub sender : String
  pub room_history : List Members
  pub messages : List Members

-- `ChatApp`. The texts given to the output callback are kept in `sent`.
pub record Chat : Type 0 where
  pub history : List Members
  pub pending_outputs : List Members
  pub input_queue : Queue String
  pub cancelled : Bool
  pub streaming : Bool
  pub round : ℕ
  pub has_output : Bool
  pub sender_name : String
  pub sender_avatar : String
  pub display_name : String
  pub agents : List Agent
  pub talks : List Talk
  pub asked : List Asked
  pub sent : List String

abbrev pub has_key : String → Members → Bool
has_key k ms = elim (find k ms) [ none ↦ false | some _ ↦ true ]

-- `o[key] = value` for a key that the object does not have.
abbrev pub add_member : String → Value → Members → Members
add_member k v end = member k v end
add_member k v (member j w ms) = member j w (add_member k v ms)

abbrev pub add_missing : String → String → Members → Members
add_missing k v o = if has_key k o then o else add_member k (string v) o

abbrev pub is_text : Option Value → String → Bool
is_text (some (string t)) s = str_eq t s
is_text _ s = false

-- `type == "stream_end"`.
abbrev pub is_end : Members → Bool
is_end o = is_text (find "type" o) "stream_end"

abbrev pub continue_text : String
continue_text = "轮到你了，请继续对话"

abbrev pub user_message : String → String → Members
user_message text sender = member "role" (string "user") (
    member "sender_name" (string sender)
      (member "sender_avatar" (string "") (member "content" (string text) end)))

abbrev pub with_value : String → Option Value → Members → Members
with_value k none ms = ms
with_value k (some v) ms = member k v ms

-- The role and the content of a message.
abbrev pub copied : Members → Members
copied m = with_value "role" (find "role" m) (with_value "content" (find "content" m) end)

abbrev pub copies : List Members → List Members
copies [] = []
copies (m ∷ ms) = copied m ∷ copies ms

-- What the model gets: the prompt of the agent, and then the history. The text and its sender are
-- not used.
abbrev pub messages_of : Agent → List Members → List Members
messages_of a history =
    member "role" (string "system") (member "content" (string a.system_prompt) end) ∷ copies history

module _ (boost : Boost) where
  abbrev pub signed : Chat → Members → Members
  signed c o =
      if str_eq c.sender_name ""
      then o
      else add_missing "sender_avatar" c.sender_avatar (add_missing "sender_name" c.sender_name o)

  -- `push_output` up to the test for the end of a stream.
  pub emit : Members → Chat → Chat
  emit o c =
      if c.has_output
      then record c { sent = c.sent ++ boost.serialize (object (signed c o)) ∷ [] }
      else record c { pending_outputs = c.pending_outputs ++ signed c o ∷ [] }

  -- `onUserMessage` of an agent that was not stopped: the answer starts with the event
  -- `stream_start` before the call returns.
  pub on_user_message : Agent → String → String → Chat → Chat
  unfolding emit
  on_user_message a prompt sender c =
      let start =
        member "type" (string "stream_start")
          (member "sender_name" (string a.name) (member "sender_avatar" (string a.avatar) end)) in
      let c' = if c.cancelled then c else emit start c in
      record c' {
        asked =
            c'.asked
            ++ record {
              agent = a.name;
              prompt = prompt;
              sender = sender;
              room_history = c.history;
              messages = messages_of a c.history;
            }
              ∷ [];
      }

  -- The end of `processNext`: each agent gets the callback that its slot holds.
  pub give_back : ℕ → List Agent → List Bool → Outcome (List Agent × List Bool)
  give_back k [] slots = ok ([], slots)
  give_back k (a ∷ agents) [] = undefined
  give_back k (a ∷ agents) (held ∷ slots) = do
    (agents', slots') ← give_back k agents slots
    ok ((if held then record a { callback = go_on k } else a) ∷ agents', false ∷ slots')

  pub finish_talk : ℕ → Talk → Chat → Outcome Chat
  unfolding give_back
  finish_talk k t c = do
    (agents, slots) ← give_back k c.agents t.slots
    ok (record c { agents = agents; talks = set c.talks k (record t { slots = slots }) })

  -- The agent `i` was asked: its answers go on with the conversation `k`.
  pub listen : ℕ → ℕ → Talk → Agent → Chat → Outcome Chat
  listen k i t a c =
      if ltb i (length t.slots)
      then ok (record c {
        agents = set c.agents i (record a { callback = go_on k });
        talks = set c.talks k (record t { slots = set t.slots i true });
      })
      else undefined

  -- `processNext` at the agent `i`; `next` is its call of itself.
  abbrev pub ask : ℕ → Talk → ℕ → (Chat → Outcome Chat) → Option Agent → Chat → Outcome Chat
  ask k t i next none c = undefined
  ask k t i next (some a) c =
      if str_eq t.target ""
      then listen k i t a (
          on_user_message a (if t.auto_loop && leb 1 t.round then continue_text else t.text)
            t.sender c)
      else (if str_eq a.name t.target
          then listen k i t a (on_user_message a t.actual t.sender c)
          else next c)

  -- The variables after `int i = (*idx)++` and the tests of the end, and the agent whose turn it is,
  -- or `none` at the end.
  pub turn_of : ℕ → Talk → Talk × Option ℕ
  turn_of agents t =
      if ltb t.idx agents
      then (record t { idx = t.idx + 1 }, some t.idx)
      else (if t.auto_loop
          then (if ltb t.round 10
              then (record t { idx = 1; round = t.round + 1 }, some 0)
              else (record t { idx = t.idx + 1; round = t.round + 1 }, none))
          else (record t { idx = t.idx + 1 }, none))

  abbrev pub take_turn : ℕ → (Chat → Outcome Chat) → Talk × Option ℕ → Chat → Outcome Chat
  take_turn k next (t, none) c = finish_talk k t c
  take_turn k next (t, some i) c =
      ask k t i next (get_elem? c.agents i) (record c { talks = set c.talks k t })

  abbrev pub process_at : ℕ → (Chat → Outcome Chat) → Option Talk → Chat → Outcome Chat
  process_at k next none c = undefined
  process_at k next (some t) c = take_turn k next (turn_of (length c.agents) t) c

  -- `processNext` of the conversation `k`.
  pub process_next : ℕ → ℕ → Chat → Outcome Chat
  unfolding on_user_message listen finish_talk turn_of
  process_next zero k c = unfinished
  process_next (suc fuel) k c =
      if c.cancelled then ok c else process_at k (process_next fuel k) (get_elem? c.talks k) c
