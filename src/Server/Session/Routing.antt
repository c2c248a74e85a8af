-- ===== src/Server/Session/Routing.antt =====
-- Session::route_and_setup (module/access/src/ws_server.cpp), with the JSON helpers of
-- module/core/src/toolbox.cpp that it calls: what the first message of a session does. The calls
-- that give a module the session's output and the I/O context leave no state of the session.
use aimeath.Common.{ℕ, Bool, ◌||◌, Option, none, some, if◌then◌else◌}
use aimeath.Common.Json.{
  String, str_eq, Value, int64, uint64, double, boolean, string, object, Members, find,
}
use Prim.Native.String.{◌++◌ as append}
use aimeath.Game.Api.{Boost, error}
use aimeath.Server.Registry.{
  Life, register_session, register_window, restore_app, remove_stashed_app,
}
use aimeath.Server.Session.{Session, World, Module, Running, close_ws, enqueue, done_by}
use aimeath.Server.Session.Input.{do_read, process_legacy}

-- What IModuleCache::load gives: the functions of the module, and its constructor.
pub record Loaded (App : Type 0) : Type 0 where
  pub functions : Module App
  pub construct : String → Option App

-- `it->value().is_string()`.
abbrev only_text : Option Value → String → String
only_text (some (string s)) old = s
only_text _ old = old

module _ (boost : Boost) where
  -- `valueToString`.
  abbrev value_to_string : Value → String
  value_to_string (string s) = s
  value_to_string (int64 n) = boost.serialize (int64 n)
  value_to_string (uint64 n) = boost.serialize (uint64 n)
  value_to_string (double n) = boost.serialize (double n)
  value_to_string (boolean b) = boost.serialize (boolean b)
  value_to_string _ = ""

  abbrev text_or_empty : Option Value → String
  text_or_empty none = ""
  text_or_empty (some v) = value_to_string v

  -- `jsonParseStr` on an object.
  abbrev parse_str : String → Members → String
  parse_str key obj = text_or_empty (find key obj)

  abbrev first_of : String → String → String
  first_of name other = if str_eq name "" then other else name

  -- What the first message says: the window, the display name, the action and the application.
  pub record Request : Type 0 where
    pub window : String
    pub display : String
    pub action : String
    pub app_name : String

  abbrev read_request : {App : Type 0} → Session App → Option Value → Request
  read_request s (some (object obj)) = record {
    window = only_text (find "window_id" obj) s.window_id;
    display = only_text (find "display_name" obj) s.display_name;
    action = only_text (find "action" obj) "";
    app_name = first_of (parse_str "app" obj) (first_of (parse_str "game" obj) "chat");
  }
  read_request s _ = record {
    window = s.window_id;
    display = s.display_name;
    action = "";
    app_name = "";
  }

module _ {App : Type 0} (boost : Boost) (life : Life) (now : ℕ) where
  -- `enqueue(jsonError(msg)); close_ws();`
  unfoldable pub refuse : String → World App → World App
  refuse msg w = close_ws boost life now (enqueue boost life now (boost.serialize (error msg)) w)

  -- The session with an application that was created or restored, in the registry.
  abbrev pub adopt : App → Module App → String → World App → World App
  adopt a functions name w = record w {
    session = record w.session { app = some a; mod_of = functions; app_name = name };
    registry = register_session name w.session.handle w.registry;
  }

  abbrev pub with_window : World App → World App
  with_window w =
      let s = w.session in
      record w { registry = register_window s.window_id s.session_id s.app_name w.registry }

  -- The session has the restored application.
  abbrev pub resumed : World App → Option (Running App × String) → World App
  resumed w none = refuse (append "cannot resume: session expired for " w.session.window_id) w
  resumed w (some (running, name)) =
      let w' = with_window (adopt running.app running.mod_of name w) in
      if done_by running.mod_of.is_done running.app
      then refuse "restored app has ended"
          (record w' { registry = remove_stashed_app w.session.window_id w'.registry })
      else do_read w'

  -- The branch of `route_and_setup` for the action resume.
  unfoldable pub resume : World App → World App
  unfolding do_read refuse restore_app register_session register_window remove_stashed_app
  resume w =
      if str_eq w.session.window_id ""
      then refuse "resume requires window_id" w
      else (let (found, r) = restore_app w.session.window_id now w.registry in
          resumed (record w { registry = r }) found)

  module _ (load : String → Option (Loaded App)) (accepted : Bool) where
    abbrev created : String → String → Module App → World App → Option App → World App
    created name first functions w none =
        refuse (append "failed to create " (append name " instance"))
          (record w { session = record w.session { mod_of = functions } })
    created name first functions w (some a) =
        let w₁ = adopt a functions name w in
        let w' =
          if str_eq name "chat" || str_eq w.session.window_id "" then w₁ else with_window w₁ in
        if functions.is_async
        then do_read
            (record w' { session = record w'.session { app = some (functions.on_input a first) } })
        else process_legacy boost life now accepted first w'

    abbrev loaded : String → String → World App → Option (Loaded App) → World App
    loaded name first w none = refuse (append "failed to load " name) w
    loaded name first w (some l) = created name first l.functions w (l.construct first)

    -- `load` is IModuleCache::load, `accepted` whether the pool takes a task.
    pub route_and_setup : String → World App → World App
    unfolding resume process_legacy
    route_and_setup first w =
        let request = read_request boost w.session (boost.parse first) in
        let named = record w {
          session = record w.session { window_id = request.window; display_name = request.display };
        } in
        if str_eq request.action "resume"
        then resume named
        else (loaded request.app_name first
            (record named { session = record named.session { app_name = request.app_name } })
            (load request.app_name))
