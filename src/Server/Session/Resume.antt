-- ===== src/Server/Session/Resume.antt =====
-- The resume of a stashed application (module/access/src/ws_server.cpp): close_ws of one session and
-- route_and_setup of the next one for the same window.
use aimeath.Common.{
  ℕ, ◌≡◌, refl, sym, ap, subst, ◌∙◌, Bool, true, false, ◌||◌, Option, none, some, if◌then◌else◌,
  if_by,
}
use mathlib.Core.Path.{ap₂}
use mathlib.Core.Bool.{false≢true}
use aimeath.Common.Json.{String, str_eq}
use aimeath.Game.Api.{Boost}
use aimeath.Server.Registry.{Life, is_expired, restore_app}
use aimeath.Server.Session.{Session, World, Running, Module, stashable, stash_of, close_ws, done_by}
use aimeath.Server.Session.Closing.{close_ws-restore_app}
use aimeath.Server.Session.Input.{do_read}
use aimeath.Server.Session.Routing.{resume, resumed, refuse}

module _ {App : Type 0} where
  stashed_alive :
      (s : Session App) (o : Option App) (a : App)
      → stash_of s o ≡ some a
      → done_by s.mod_of.is_done a ≡ false
  stashed_alive s none a e = cc
  stashed_alive s (some b) a e =
      let (alive, same) = go (str_eq s.window_id "") s.user_close (done_by s.mod_of.is_done b) e in
      ap (done_by s.mod_of.is_done) (sym same) ∙ alive
    where
      go : (x y z : Bool) → (if x || y || z then none else some b) ≡ some a → (z ≡ false) × (b ≡ a)
      go true y z e = cc
      go false true z e = cc
      go false false true e = cc
      go false false false e = (refl, ap (λ o. elim o [ none ↦ b | some c ↦ c ]) e)

  -- The session runs `a` with its functions under that name.
  abbrev pub Runs : World App → App → Module App → String → Type 0
  Runs w a functions name =
      (w.session.app ≡ some a) × (w.session.mod_of ≡ functions) × (w.session.app_name ≡ name)

  module _ (boost : Boost) (life : Life) (later : ℕ) where
    resumed-Runs :
        (w : World App) (a : App) (functions : Module App) (name : String)
        → done_by functions.is_done a ≡ false
        → Runs
            (resumed boost life later w (some (record { app = a; mod_of = functions }, name)))
            a
            functions
            name
    unfolding do_read
    resumed-Runs w a functions name live =
        if_by (λ (v : World App). Runs v a functions name) (done_by functions.is_done a) _ _
          (λ done. absurd (false≢true (sym live ∙ done)))
          λ _.
            if_by (λ (v : World App). Runs v a functions name) w.session.closing _ _
              (λ _. (refl, refl, refl)) λ _. (refl, refl, refl)

    resume_named :
        (w : World App)
        → str_eq w.session.window_id "" ≡ false
        → resume boost life later w
          ≡ resumed boost life later
              (record w { registry = (restore_app w.session.window_id later w.registry).1 })
              (restore_app w.session.window_id later w.registry).0
    unfolding resume
    resume_named w named =
        ap
          (λ t.
            if t
            then refuse boost life later "resume requires window_id" w
            else resumed boost life later
                (record w { registry = (restore_app w.session.window_id later w.registry).1 })
                (restore_app w.session.window_id later w.registry).0)
          named

module _ {App : Type 0} (boost : Boost) (life : Life) (now later : ℕ) (w v : World App)
    (a : App) where
  -- If an open session with an application to be stashed is closed, in a window with a name, and
  -- a session of the same window resumes before the time limit, then that session runs the same
  -- application, with the same module and under the same name.
  pub resume-close_ws :
      w.session.has_ws ≡ true
      → w.session.closing ≡ false
      → stashable w.session ≡ some a
      → str_eq w.session.window_id "" ≡ false
      → is_expired w.registry.stash_ttl now later ≡ false
      → v.session.window_id ≡ w.session.window_id
      → v.registry ≡ (close_ws boost life now w).registry
      → Runs (resume boost life later v) a w.session.mod_of w.session.app_name
  unfolding stashable
  resume-close_ws ws live stashes named fresh same_window shared =
      let running : Running App = record { app = a; mod_of = w.session.mod_of } in
      let found =
        ap₂ (λ window r. (restore_app window later r).0) same_window shared
        ∙ close_ws-restore_app boost life now w ws live a later stashes named
        ∙ ap (λ t. if t then none else some (running, w.session.app_name)) fresh in
      let v' : World App = record v {
        registry = (restore_app v.session.window_id later v.registry).1;
      } in
      subst (λ u. Runs u a w.session.mod_of w.session.app_name)
        (sym (
          resume_named boost life later v (ap (λ k. str_eq k "") same_window ∙ named)
          ∙ ap (resumed boost life later v') found))
        (resumed-Runs boost life later v' a w.session.mod_of w.session.app_name
          (stashed_alive w.session w.session.app a stashes))
