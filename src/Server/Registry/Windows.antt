-- ===== src/Server/Registry/Windows.antt =====
-- SessionManager::listActiveWindows (module/access/src/ws_server.cpp).
use aimeath.Common.{ℕ, ◌+◌, Bool, true, false, List, [], ◌∷◌, ◌++◌, if◌then◌else◌}
use aimeath.Common.Int.{pos}
use aimeath.Common.Json.{String, str_eq, Value, int64, string, object, Members, end, member}
use aimeath.Server.Registry.{Life, Registry, keep_if, is_listed}

-- What a session tells of itself.
pub record Names : Type 0 where
  pub window_id : ℕ → String
  pub session_id : ℕ → String
  pub display_name : ℕ → String

abbrev has_none : List ℕ → Bool
has_none [] = true
has_none (_ ∷ _) = false

module _ (life : Life) (names : Names) where
  abbrev shown_name : String → Members
  shown_name name = if str_eq name "" then end else member "display_name" (string name) end

  abbrev entry : String → ℕ → ℕ → Value
  entry app idx s = object (
      member "window_id" (string (names.window_id s)) (
        member "session_id" (string (names.session_id s)) (
          member "app" (string app)
            (member "instance" (int64 (pos idx)) (shown_name (names.display_name s))))))

  -- The entries of a name; a session that is gone has none, and no number.
  pub entries : String → ℕ → List ℕ → List Value
  entries app idx [] = []
  entries app idx (s ∷ vec) =
      let gone = entries app idx vec in
      let rest = entries app (idx + 1) vec in if life.alive s then entry app idx s ∷ rest else gone

  pub window_entries : List (String × List ℕ) → List Value × List (String × List ℕ)
  unfolding entries keep_if
  window_entries [] = ([], [])
  window_entries ((app, vec) ∷ rest) =
      let kept = keep_if (is_listed life) vec in
      let (out, others) = window_entries rest in
      if has_none kept then (out, others) else (entries app 0 kept ++ out, (app, kept) ∷ others)

  pub list_active_windows : {App : Type 0} → Registry App → List Value × Registry App
  unfolding window_entries
  list_active_windows r =
      let (out, others) = window_entries r.sessions in (out, record r { sessions = others })
