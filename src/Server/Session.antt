-- ===== src/Server/Session.antt =====
-- Session (module/access/include/ws_server.hpp, module/access/src/ws_server.cpp): what its strand
-- runs on an accepted connection. Each handler is one step. `writes` and `reads` count the socket's
-- operations that have not ended, `sent` lists the messages handed to it. `handle` stands for the
-- pointer `this`. The log is not modelled.
pub mod Writer
pub mod Order
pub mod Input
pub mod Reads
pub mod Routing
pub mod Resume
pub mod Output
pub mod Closing
pub mod Tests
use package.aimeath.Common.{
  ℕ, zero, suc, ◌+◌, ◌-◌, Bool, true, false, not, ◌&&◌, ◌||◌, List, [], ◌∷◌, ◌++◌, Option, none,
  some, leb, if◌then◌else◌, Outcome, ok, undefined, ◌>>=◌,
}
use package.aimeath.Common.Json.{
  String, str_eq, Value, boolean, string, object, Members, end, member, find,
}
use package.aimeath.Game.Api.{Boost}
use package.aimeath.Server.Registry.{
  Life, Registry, unregister_session, unregister_window, stash_app, remove_stashed_app,
}

-- AppModule (module/core/include/iface_mod.hpp): the functions of a loaded application. Those that
-- may be missing are options; `is_async` is its test that both functions of an asynchronous
-- application are there. What the functions do is not under this file.
pub record Module (App : Type 0) : Type 0 where
  pub is_async : Bool
  pub is_done : Option (App → Bool)
  pub on_input : App → String → App
  pub process : App → String → App × Option String

-- An application and its module, as they are stashed.
pub record Running (App : Type 0) : Type 0 where
  pub app : App
  pub mod_of : Module App

pub record Session (App : Type 0) : Type 0 where
  pub handle : ℕ
  pub session_id : String
  pub window_id : String
  pub display_name : String
  pub app_name : String
  pub app : Option App
  pub mod_of : Module App
  pub write_queue : List String
  pub writing : Bool
  pub closing : Bool
  pub user_close : Bool
  pub close_after_write : Bool
  pub missed_pongs : ℕ
  pub pinging : Bool
  pub has_ws : Bool
  pub ws_closed : Bool
  pub sent : List String
  pub writes : ℕ
  pub reads : ℕ
  pub pings : ℕ

-- A session with what it shares: the registry, and the states told to AppStateNotifier.
pub record World (App : Type 0) : Type 0 where
  pub session : Session App
  pub registry : Registry (Running App)
  pub notices : List (String × Value)

abbrev pub max_missed_pongs : ℕ
max_missed_pongs = 2

abbrev pub with_member : String → String → Members → Members
with_member key text rest = if str_eq text "" then rest else member key (string text) rest

-- The state that `do_cleanup` tells: only an application that is not stashed has ended.
pub done_state : {App : Type 0} → Session App → Value
done_state s = object (
    member "over" (boolean true) (
      member "reason" (string "session_closed") (
        member "session_id" (string s.session_id)
          (with_member "window_id" s.window_id (with_member "display_name" s.display_name end)))))

abbrev pub pop_front : List String → Outcome (List String)
pop_front [] = undefined
pop_front (msg ∷ msgs) = ok msgs

module _ {App : Type 0} where
  abbrev pub done_by : Option (App → Bool) → App → Bool
  done_by none a = false
  done_by (some f) a = f a

  abbrev stash_of : Session App → Option App → Option App
  stash_of s none = none
  stash_of s (some a) =
      if str_eq s.window_id "" || s.user_close || done_by s.mod_of.is_done a then none else some a

  -- The application that `do_cleanup` stashes, if it does.
  pub stashable : Session App → Option App
  stashable s = stash_of s s.app

  module _ (boost : Boost) (life : Life) (now : ℕ) where
    abbrev pub cleaned : Session App → Session App
    cleaned s = record s { closing = true; pinging = false; app = none }

    -- The registry after the session left it: an application that is stashed keeps its window.
    abbrev pub registry_after : World App → Option App → Registry (Running App)
    registry_after w (some a) =
        let s = w.session in
        unregister_session life s.app_name s.handle
          (stash_app s.window_id (record { app = a; mod_of = s.mod_of }) s.app_name now w.registry)
    registry_after w none =
        let s = w.session in
        let r = unregister_session life s.app_name s.handle w.registry in
        if str_eq s.app_name ""
        then w.registry
        else (if str_eq s.window_id "" then r else unregister_window s.window_id r)

    abbrev pub notices_after : World App → Option App → List (String × Value)
    notices_after w (some a) = w.notices
    notices_after w none =
        let s = w.session in
        if str_eq s.app_name "" then w.notices else w.notices ++ ((s.app_name, done_state s) ∷ [])

    pub do_cleanup : World App → World App
    unfolding unregister_session unregister_window stash_app done_state stashable
    do_cleanup w = record {
      session = cleaned w.session;
      registry = registry_after w (stashable w.session);
      notices = notices_after w (stashable w.session);
    }

    abbrev pub shut : World App → World App
    shut w = record w { session = record w.session { ws_closed = true } }

    pub close_ws : World App → World App
    unfolding do_cleanup
    close_ws w = if w.session.has_ws && not w.session.closing then shut (do_cleanup w) else w

    abbrev pub write_next : World App → List String → World App
    write_next w [] =
        let s = record w.session { writing = false } in
        if s.close_after_write && not s.closing
        then close_ws (record w { session = s })
        else record w { session = s }
    write_next w (msg ∷ msgs) =
        let s = w.session in
        record w {
          session =
              if s.closing
              then record s { writing = false }
              else record s { writing = true; sent = s.sent ++ (msg ∷ []); writes = s.writes + 1 };
        }

    pub do_write : World App → World App
    unfolding close_ws
    do_write w = write_next w w.session.write_queue

    pub enqueue : String → World App → World App
    unfolding do_write
    enqueue msg w =
        let s = w.session in
        let w' = record w { session = record s { write_queue = s.write_queue ++ (msg ∷ []) } } in
        if s.closing then w else (if s.writing then w' else do_write w')

    -- The end of a write without an error; `pop_front` of an empty queue is undefined.
    pub on_written : World App → Outcome (World App)
    unfolding do_write
    on_written w = do
      rest ← pop_front w.session.write_queue
      ok (
          do_write (record w {
            session = record w.session { write_queue = rest; writes = w.session.writes - 1 };
          }))

    -- The end of a write with an error.
    pub on_write_error : World App → World App
    unfolding do_cleanup
    on_write_error w =
        let s = record w.session {
          write_queue = [];
          writing = false;
          writes = w.session.writes - 1;
        } in
        if s.closing then record w { session = s } else do_cleanup (record w { session = s })

    pub reset_heartbeat : World App → World App
    reset_heartbeat w = record w { session = record w.session { missed_pongs = 0 } }

    -- What the ping timer posts to the strand.
    pub on_ping : World App → World App
    unfolding close_ws
    on_ping w =
        let s = w.session in
        if s.closing
        then w
        else (if leb max_missed_pongs s.missed_pongs then close_ws w else record w {
          session = record s {
            missed_pongs = s.missed_pongs + 1;
            pings = s.pings + (if s.has_ws && not s.ws_closed then 1 else 0);
          };
        })
