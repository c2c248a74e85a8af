-- ===== src/Chat/Input.antt =====
-- app_create, app_set_output, app_on_input and app_process (chat_server.cpp).
use package.aimeath.Common.{
  Bool, true, false, List, Option, none, some, if◌then◌else◌, Outcome, ok, ◌>>=◌,
}
use mathlib.Core.List.{[], ◌∷◌}
use package.aimeath.Common.Json.{String, str_eq, Value, string, object, Members, find}
use package.aimeath.Core.Queue.{new_queue}
use package.aimeath.Game.Api.{Boost}
use package.aimeath.Chat.{remember, Agent, Chat}
use package.aimeath.Chat.Text.{first_is}
use package.aimeath.Chat.Command.{Profile, handle_command}
use package.aimeath.Chat.Room.{push_output, drain_and_push, stop, accept_text}

-- The main agent, if its profile could be read.
abbrev pub main_agent : Option Profile → List Agent
main_agent none = []
main_agent (some p) =
    record {
      name = p.name;
      avatar = p.avatar;
      system_prompt = p.system_prompt;
      callback = remember;
    }
    ∷ []

abbrev pub main_name : Option Profile → String
main_name none = "AI助手"
main_name (some p) = p.name

unfoldable pub create : Option Profile → Chat
unfolding new_queue
create main = record {
  history = [];
  pending_outputs = [];
  input_queue = new_queue;
  cancelled = false;
  streaming = false;
  round = 0;
  has_output = false;
  sender_name = main_name main;
  sender_avatar = "/res/C220748556D18ADBC61177B1A5A8151D.png";
  display_name = "";
  agents = main_agent main;
  talks = [];
  asked = [];
  sent = [];
}

unfoldable pub set_output : Bool → Chat → Chat
set_output has c = record c { has_output = has }

-- `app_destroy`: the events that come later are dropped.
unfoldable pub destroy : Chat → Chat
destroy c = record c { cancelled = true; has_output = false }

abbrev pub display_of : Option Value → String → String
display_of (some (string name)) old = name
display_of _ old = old

module _ (boost : Boost) (profiles : List Profile) where
  abbrev pub push_embed : Chat × Members → Outcome Chat
  push_embed (c, o) = push_output boost o c

  unfoldable pub say : String → Chat → Outcome Chat
  unfolding handle_command push_output accept_text
  say text c =
      if first_is 47 text
      then push_embed (handle_command profiles text c)
      else accept_text boost text c

  -- The member `text` of an input.
  abbrev pub say_text : Option Value → Chat → Outcome Chat
  say_text (some (string text)) c = say text c
  say_text _ c = ok c

  -- The member `action` of an input.
  abbrev pub act : Option Value → Members → Chat → Outcome Chat
  act (some (string action)) obj c =
      if str_eq action "poll"
      then drain_and_push boost c
      else (if str_eq action "stop"
          then stop boost c
          else (if str_eq action "init"
              then ok
                  (record c { display_name = display_of (find "display_name" obj) c.display_name })
              else say_text (find "text" obj) c))
  act _ obj c = say_text (find "text" obj) c

  abbrev pub on_value : Option Value → Chat → Outcome Chat
  on_value (some (object obj)) c = act (find "action" obj) obj c
  on_value _ c = ok c

  unfoldable pub on_input : String → Chat → Outcome Chat
  unfolding say drain_and_push stop
  on_input input c = on_value (boost.parse input) c

  -- `app_process` drains as well, and goes on with the text.
  abbrev pub poll : Option Value → Chat → Outcome Chat
  poll (some (string action)) c = if str_eq action "poll" then drain_and_push boost c else ok c
  poll _ c = ok c

  abbrev pub process_value : Option Value → Chat → Outcome Chat
  process_value (some (object obj)) c = poll (find "action" obj) c >>= say_text (find "text" obj)
  process_value _ c = ok c

  -- The reply is always `[]`.
  unfoldable pub process : String → Chat → Outcome (Chat × String)
  unfolding say drain_and_push
  process input c = do c' ← process_value (boost.parse input) c; ok (c', "[]")
