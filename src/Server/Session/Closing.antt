-- ===== src/Server/Session/Closing.antt =====
-- How a Session (ws_server.cpp) ends: close_ws, do_cleanup and the heartbeat.
use aimeath.Common.{
  ℕ, ◌+◌, ◌≡◌, refl, sym, ap, ◌∙◌, Bool, true, false, not, ◌&&◌, List, Option, none, some,
  if◌then◌else◌, arith, if_by, leb,
}
use mathlib.Core.Path.{ap₂}
use mathlib.Core.Bool.{false≢true}
use aimeath.Common.Json.{String, str_eq}
use aimeath.Game.Api.{Boost}
use aimeath.Server.Registry.{
  Life, Registry, keep_if, is_expired, unregister_session, unregister_window, stash_app,
  restore_app,
}
use aimeath.Server.Registry.Stash.{restore_app-stash_app, restore_app-unregister_session}
use aimeath.Server.Registry.Views.{listed, is_not, unregister_session-listed}
use aimeath.Server.Session.{
  World, Running, stashable, do_cleanup, close_ws, on_ping, max_missed_pongs, registry_after, shut,
}

module _ {App : Type 0} (boost : Boost) (life : Life) (now : ℕ) (w : World App)
    (ws : w.session.has_ws ≡ true) (live : w.session.closing ≡ false) where
  pub closed_by : close_ws boost life now w ≡ shut boost life now (do_cleanup boost life now w)
  unfolding close_ws
  closed_by =
      ap (λ t. if t then shut boost life now (do_cleanup boost life now w) else w)
        (ap (λ t. t && not w.session.closing) ws ∙ ap not live)

  registry_closed :
      (close_ws boost life now w).registry ≡ registry_after boost life now w (stashable w.session)
  unfolding do_cleanup
  registry_closed = ap (λ (v : World App). v.registry) closed_by

  -- When an open session is closed whose application is to be stashed, in a window with a name,
  -- a later restore of that window gives the same application with its module and name, unless a
  -- limit is set and more time has passed.
  pub close_ws-restore_app :
      (a : App) (later : ℕ)
      → stashable w.session ≡ some a
      → str_eq w.session.window_id "" ≡ false
      → (restore_app w.session.window_id later (close_ws boost life now w).registry).0 ≡ (
          if is_expired w.registry.stash_ttl now later
          then none
          else some (record { app = a; mod_of = w.session.mod_of }, w.session.app_name))
  close_ws-restore_app a later stashes named =
      let r = w.registry in
      let running : Running App = record { app = a; mod_of = w.session.mod_of } in
      let stashed = stash_app w.session.window_id running w.session.app_name now r in
      ap (λ k. (restore_app w.session.window_id later k).0)
        (registry_closed ∙ ap (registry_after boost life now w) stashes)
      ∙ restore_app-unregister_session w.session.window_id named life w.session.app_name
          w.session.handle later stashed
      ∙ restore_app-stash_app w.session.window_id named running w.session.app_name now later r

  same_sessions :
      (name : String) (a : App)
      → listed life name (
          stash_app w.session.window_id
            (record { app = a; mod_of = w.session.mod_of })
            w.session.app_name
            now
            w.registry)
        ≡ listed life name w.registry
  unfolding stash_app
  same_sessions name a =
      if_by (λ (r : Registry (Running App)). listed life name r ≡ listed life name w.registry)
        (str_eq w.session.window_id "") _ _ (λ _. refl) λ _. refl

  -- When an open session of a named application is closed, it is no longer among the open
  -- sessions of that name, whether or not its application is stashed, and the sessions of other
  -- names are as before.
  pub close_ws-listed :
      (name : String)
      → str_eq w.session.app_name "" ≡ false
      → listed life name (close_ws boost life now w).registry ≡ (
          if str_eq w.session.app_name name
          then keep_if (is_not w.session.handle) (listed life w.session.app_name w.registry)
          else listed life name w.registry)
  unfolding unregister_window
  close_ws-listed name named = ap (listed life name) registry_closed ∙ go (stashable w.session)
    where
      left : Registry (Running App) → List ℕ
      left r =
          if str_eq w.session.app_name name
          then keep_if (is_not w.session.handle) (listed life w.session.app_name r)
          else listed life name r

      go : (o : Option App) → listed life name (registry_after boost life now w o) ≡ left w.registry
      go (some a) =
          let stashed =
            stash_app w.session.window_id (record { app = a; mod_of = w.session.mod_of })
              w.session.app_name now w.registry in
          unregister_session-listed life w.session.app_name w.session.handle stashed name
          ∙ ap₂
              (λ p q.
                if str_eq w.session.app_name name then keep_if (is_not w.session.handle) p else q)
              (same_sessions w.session.app_name a) (same_sessions name a)
      go none =
          let r = unregister_session life w.session.app_name w.session.handle w.registry in
          let P : Registry (Running App) → Type 0 = λ k. listed life name k ≡ left w.registry in
          let done : P r =
            unregister_session-listed life w.session.app_name w.session.handle w.registry name in
          if_by P (str_eq w.session.app_name "") _ _ (λ e. absurd (false≢true (sym named ∙ e)))
            λ _. if_by P (str_eq w.session.window_id "") _ _ (λ _. done) λ _. done

module _ {App : Type 0} (boost : Boost) (life : Life) (now : ℕ) where
  -- The session after a ping was sent.
  abbrev ticked : World App → World App
  ticked w =
      let s = w.session in
      record w {
        session = record s {
          missed_pongs = s.missed_pongs + 1;
          pings = s.pings + (if s.has_ws && not s.ws_closed then 1 else 0);
        };
      }

  abbrev by_count : World App → Bool → World App
  by_count w lost = if lost then close_ws boost life now w else ticked w

  on_ping_live :
      (w : World App)
      → w.session.closing ≡ false
      → on_ping boost life now w ≡ by_count w (leb max_missed_pongs w.session.missed_pongs)
  unfolding on_ping
  on_ping_live w live =
      ap (λ t. if t then w else by_count w (leb max_missed_pongs w.session.missed_pongs)) live

  close_ws-closing :
      (w : World App)
      → w.session.has_ws ≡ true
      → w.session.closing ≡ false
      → (close_ws boost life now w).session.closing ≡ true
  unfolding do_cleanup
  close_ws-closing w ws live =
      ap (λ (v : World App). v.session.closing) (closed_by boost life now w ws live)

  -- An open session that hears nothing from its client is still open after two pings and is
  -- closing after the third.
  pub on_ping_lost :
      (w : World App)
      → w.session.has_ws ≡ true
      → w.session.closing ≡ false
      → w.session.missed_pongs ≡ 0
      → ((on_ping boost life now (on_ping boost life now w)).session.closing ≡ false)
        × ((on_ping boost life now
              (on_ping boost life now (on_ping boost life now w))).session.closing
            ≡ true)
  on_ping_lost w ws live fresh =
      let few : leb max_missed_pongs w.session.missed_pongs ≡ false = ground arith in
      let more : leb max_missed_pongs (w.session.missed_pongs + 1) ≡ false = ground arith in
      let lost : leb max_missed_pongs (w.session.missed_pongs + 1 + 1) ≡ true = ground arith in
      let one : on_ping boost life now w ≡ ticked w = on_ping_live w live ∙ ap (by_count w) few in
      let two : on_ping boost life now (on_ping boost life now w) ≡ ticked (ticked w) =
        ap (on_ping boost life now) one
        ∙ on_ping_live (ticked w) live
        ∙ ap (by_count (ticked w)) more in
      let three : on_ping boost life now (on_ping boost life now (on_ping boost life now w))
          ≡ close_ws boost life now (ticked (ticked w)) =
        ap (on_ping boost life now) two
        ∙ on_ping_live (ticked (ticked w)) live
        ∙ ap (by_count (ticked (ticked w))) lost in
      (
        ap (λ (v : World App). v.session.closing) two ∙ live,
        ap (λ (v : World App). v.session.closing) three
            ∙ close_ws-closing (ticked (ticked w)) ws live,
      )
