-- ===== src/Server/Session/Input.antt =====
-- Session::on_read, do_read and process_legacy (module/access/src/ws_server.cpp): what a message from
-- the client does. The pool takes a task or not; a task that it took runs `app_process`, which is not
-- under this file, and then posts the two handlers at the end.
use aimeath.Common.{
  ◌||◌, [], ◌∷◌, ◌++◌, ◌>>=◌, ℕ, ◌+◌, ◌-◌, Bool, true, false, Option, none, some, if◌then◌else◌,
  Outcome, ok, undefined,
}
use aimeath.Common.Json.{
  boolean, array, Items, last, item, String, str_eq, Value, string, object, end, member, find,
}
use aimeath.Game.Api.{Boost, error}
use aimeath.Server.Registry.{Life, remove_stashed_app}
use aimeath.Server.Session.{
  Session, World, with_member, done_by, close_ws, enqueue, reset_heartbeat,
}

abbrev is_close_action : Option Value → Bool
is_close_action (some (string s)) = str_eq s "close_window"
is_close_action _ = false

abbrev is_close_value : Option Value → Bool
is_close_value (some (object members)) = is_close_action (find "action" members)
is_close_value _ = false

-- `isCloseWindowMsg`.
unfoldable pub is_close_window_msg : Boost → String → Bool
is_close_window_msg boost msg = is_close_value (boost.parse msg)

pub app_exited : {App : Type 0} → Session App → Value
app_exited s =
    object (member "type" (string "app_exited") (with_member "window_id" s.window_id end))

module _ {App : Type 0} where
  unfoldable pub do_read : World App → World App
  do_read w =
      if w.session.closing
      then w
      else record w { session = record w.session { reads = w.session.reads + 1 } }

  module _ (boost : Boost) (life : Life) (now : ℕ) where
    -- The client closed the window.
    unfoldable pub close_window : World App → World App
    unfolding close_ws remove_stashed_app
    close_window w = close_ws boost life now (record w {
      session = record w.session { user_close = true };
      registry =
          if str_eq w.session.window_id ""
          then w.registry
          else remove_stashed_app w.session.window_id w.registry;
    })

    -- `accepted`: the pool takes the task. The message is then in `submitted`.
    unfoldable pub process_legacy : Bool → String → World App → World App
    unfolding close_window enqueue do_read is_close_window_msg
    process_legacy accepted msg w =
        if is_close_window_msg boost msg
        then close_window w
        else (if accepted
            then w
            else do_read (
                enqueue boost life now (boost.serialize (error "server overloaded, please retry"))
                  w))

    abbrev pub after_input : App → World App → World App
    after_input a w =
        if done_by w.session.mod_of.is_done a
        then (let w' = enqueue boost life now (boost.serialize (app_exited w.session)) w in
            record w' { session = record w'.session { close_after_write = true } })
        else do_read w

    -- An input without an application is undefined: the module gets a null pointer.
    abbrev pub input_async : String → World App → Option App → Outcome (World App)
    input_async msg w none = undefined
    input_async msg w (some a) =
        let a' = w.session.mod_of.on_input a msg in
        ok (after_input a' (record w { session = record w.session { app = some a' } }))

    abbrev pub arrived : World App → World App
    arrived w = record w {
      session = record w.session { reads = w.session.reads - 1; missed_pongs = 0 };
    }

    -- The end of a read without an error.
    unfoldable pub on_read : Bool → String → World App → Outcome (World App)
    unfolding process_legacy reset_heartbeat app_exited
    on_read accepted msg w =
        if is_close_window_msg boost msg
        then ok (close_window (arrived w))
        else (if w.session.mod_of.is_async
            then input_async msg (arrived w) w.session.app
            else ok (process_legacy accepted msg (arrived w)))

abbrev true_value : Option Value → Bool
true_value (some (boolean b)) = b
true_value _ = false

abbrev ended_data : Option Value → Option Value
ended_data (some (object told)) = if true_value (find "over" told) then some (object told) else none
ended_data _ = none

-- The state in a reply, if it says that the game is over.
abbrev pub over_data : Value → Option Value
over_data (object members) = ended_data (find "data" members)
over_data _ = none

abbrev pub is_silent : String → Bool
is_silent name = str_eq name "" || str_eq name "chat"

pub legacy_done : Value
legacy_done = object (member "over" (boolean true) (member "reason" (string "session_closed") end))

module _ {App : Type 0} (boost : Boost) (life : Life) (now : ℕ) where
  abbrev tell : Option Value → World App → World App
  tell none w = w
  tell (some state) w = record w { notices = w.notices ++ ((w.session.app_name, state) ∷ []) }

  pub send_items : Items → World App → World App
  unfolding enqueue
  send_items last w = w
  send_items (item v rest) w =
      let w' = enqueue boost life now (boost.serialize v) w in
      send_items rest (if str_eq w.session.app_name "chat" then w' else tell (over_data v) w')

  abbrev send_value : Option Value → World App → World App
  send_value (some (array items)) w = send_items items w
  send_value _ w = w

  -- What a task posts first: its results, if they are an array of values.
  pub on_results : String → World App → World App
  unfolding send_items
  on_results results w = send_value (boost.parse results) w

  abbrev pub after_task : Bool → World App → World App
  after_task done w =
      if done
      then close_ws boost life now (
          if is_silent w.session.app_name
          then w
          else record w { notices = w.notices ++ ((w.session.app_name, legacy_done) ∷ []) })
      else do_read w

  -- The test asks the module about a null pointer if the application is gone.
  abbrev pub ask_done : Option (App → Bool) → Option App → Outcome Bool
  ask_done none app = ok false
  ask_done (some f) none = undefined
  ask_done (some f) (some a) = ok (f a)

  -- What a task posts last.
  unfoldable pub on_task_end : World App → Outcome (World App)
  unfolding do_read close_ws legacy_done
  on_task_end w = do done ← ask_done w.session.mod_of.is_done w.session.app; ok (after_task done w)
