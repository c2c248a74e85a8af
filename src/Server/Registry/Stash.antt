-- ===== src/Server/Registry/Stash.antt =====
-- SessionManager's stashed applications (ws_server.cpp): stashApp, restoreApp, removeStashedApp.
use aimeath.Common.{
  ℕ, ◌≡◌, refl, sym, not, ◌&&◌, ◌==◌, ap, ◌∙◌, false, Option, none, some, List, if◌then◌else◌,
}
use aimeath.Common.Json.{String, str_eq}
use aimeath.Common.Dict.{find_key, assign, find_key-assign_self, find_key-erase_self}
use aimeath.Server.Registry.{
  Life, Registry, StashedApp, put_back, without, keep_if, unregister_session, is_expired, stash_app,
  restore_app, restore_found,
}

module _ {App : Type 0} (window : String) (named : str_eq window "" ≡ false) where
  restore_named :
      (now : ℕ) (r : Registry App)
      → restore_app window now r ≡ restore_found window now r (find_key window r.stashed)
  unfolding restore_app
  restore_named now r =
      ap (λ t. if t then (none, r) else restore_found window now r (find_key window r.stashed))
        named

  stashed_named :
      (app : App) (name : String) (at : ℕ) (r : Registry App)
      → stash_app window app name at r ≡ record r {
        stashed = assign window (record { app = app; app_name = name; at = at }) r.stashed;
      }
  unfolding stash_app
  stashed_named app name at r =
      ap
        (λ t. if t then r else record r {
          stashed = assign window (record { app = app; app_name = name; at = at }) r.stashed;
        })
        named

  -- An application that was stashed for a window with a name is what a restore of that window
  -- gives back, with its name, unless a limit is set and more time has passed: then the restore
  -- gives nothing.
  pub restore_app-stash_app :
      (app : App) (name : String) (at now : ℕ) (r : Registry App)
      → (restore_app window now (stash_app window app name at r)).0
        ≡ (if is_expired r.stash_ttl at now then none else some (app, name))
  restore_app-stash_app app name at now r =
      let s : StashedApp App = record { app = app; app_name = name; at = at } in
      let r' : Registry App = record r { stashed = assign window s r.stashed } in
      ap (λ k. (restore_app window now k).0) (stashed_named app name at r)
      ∙ ap (λ p. p.0) (restore_named now r')
      ∙ ap (λ o. (restore_found window now r' o).0) (find_key-assign_self r.stashed window s)

  restored_once :
      (now : ℕ) (r : Registry App) (o : Option (StashedApp App))
      → find_key window r.stashed ≡ o
      → find_key window (restore_found window now r o).1.stashed ≡ none
  restored_once now r none e = e
  restored_once now r (some s) e = find_key-erase_self r.stashed window

  -- Of two restores of a window with a name, without a stash between them, the second gives
  -- nothing.
  pub restore_app_twice :
      (now later : ℕ) (r : Registry App)
      → (restore_app window later (restore_app window now r).1).0 ≡ none
  restore_app_twice now later r =
      let r' = (restore_app window now r).1 in
      let gone =
        ap (λ p. find_key window p.1.stashed) (restore_named now r)
        ∙ restored_once now r (find_key window r.stashed) refl in
      ap (λ p. p.0) (restore_named later r') ∙ ap (λ o. (restore_found window later r' o).0) gone

  -- Leaving the registry of sessions keeps what is stashed.
  pub restore_app-unregister_session :
      (life : Life) (name : String) (handle later : ℕ) (r : Registry App)
      → (restore_app window later (unregister_session life name handle r)).0
        ≡ (restore_app window later r).0
  unfolding unregister_session
  restore_app-unregister_session life name handle later r =
      ap (λ p. p.0) (restore_named later (unregister_session life name handle r))
      ∙ go (find_key name r.sessions)
      ∙ sym (ap (λ p. p.0) (restore_named later r))
    where
      found :
          (vec : List ℕ) (o : Option (StashedApp App))
          → (restore_found window later (put_back name vec r) o).0
            ≡ (restore_found window later r o).0
      found vec none = refl
      found vec (some s) = refl

      go :
          (o : Option (List ℕ))
          → (restore_found window later
              (without life handle name r o)
              (find_key window (without life handle name r o).stashed)).0
            ≡ (restore_found window later r (find_key window r.stashed)).0
      go none = refl
      go (some vec) =
          found (keep_if (λ w. life.alive w && not (w == handle)) vec) (find_key window r.stashed)
