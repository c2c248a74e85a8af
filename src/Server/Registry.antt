-- ===== src/Server/Registry.antt =====
-- SessionManager (module/access/include/ws_server.hpp, module/access/src/ws_server.cpp). A session is
-- named by a number; `Life` says of each weak reference whether the session still exists and is open.
-- Each operation holds the mutex throughout, so it is one step.
pub mod Prune
pub mod Views
pub mod Stash
pub mod Windows
pub mod Tests
use package.aimeath.Common.{
  ℕ, zero, suc, ◌+◌, ◌*◌, ◌^◌, Bool, true, false, not, ◌&&◌, ◌||◌, List, [], ◌∷◌, ◌++◌, Option,
  none, some, ltb, ◌==◌, length, get_elem?, if◌then◌else◌,
}
use package.aimeath.Common.Int.{ℤ, pos, negsuc}
use package.aimeath.Common.Json.{String, str_eq}
use package.aimeath.Common.Dict.{find_key, erase, assign}

-- `w.lock()` gives a session, and `Session::is_open`.
pub record Life : Type 0 where
  pub alive : ℕ → Bool
  pub is_open : ℕ → Bool

pub record WinInfo : Type 0 where
  pub session_id : String
  pub app_name : String

-- `App` is what a window's application and its module are (AppPtr and AppModule, module/core).
pub record StashedApp (App : Type 0) : Type 0 where
  pub app : App
  pub app_name : String
  pub at : ℕ

-- Times are nanoseconds of the steady clock; `stash_ttl` is in seconds, and 0 or less is no limit.
pub record Registry (App : Type 0) : Type 0 where
  pub sessions : List (String × List ℕ)
  pub windows : List (String × WinInfo)
  pub stashed : List (String × StashedApp App)
  pub stash_ttl : ℤ

module _ {A : Type 0} where
  -- `vec.erase(std::remove_if(...), vec.end())`.
  unfoldable pub keep_if : (A → Bool) → List A → List A
  keep_if p [] = []
  keep_if p (x ∷ xs) = let rest = keep_if p xs in if p x then x ∷ rest else rest

abbrev is_empty : {A : Type 0} → List A → Bool
is_empty [] = true
is_empty (_ ∷ _) = false

-- What `remove_if` keeps of a name's references.
abbrev pub is_listed : Life → ℕ → Bool
is_listed life s = life.alive s && life.is_open s

-- The references of an entry that may be missing.
abbrev pub or_empty : Option (List ℕ) → List ℕ
or_empty none = []
or_empty (some vec) = vec

-- `vec[index].lock()`, with the test of the index.
abbrev pub at_index : ℤ → List ℕ → Option ℕ
at_index (pos i) vec = get_elem? vec i
at_index (negsuc i) vec = none

-- `now - at > stashTtlSec_`, where a limit is set.
abbrev pub is_expired : ℤ → ℕ → ℕ → Bool
is_expired (pos zero) at now = false
is_expired (pos (suc ttl)) at now = ltb (at + suc ttl * 1000000000) now
is_expired (negsuc ttl) at now = false

abbrev pub numbered : String → ℕ → List ℕ → List (String × ℕ)
numbered name i [] = []
numbered name i (s ∷ vec) = (name, i) ∷ numbered name (suc i) vec

pub list_entries : Life → List (String × List ℕ) → List (String × ℕ) × List (String × List ℕ)
unfolding keep_if
list_entries life [] = ([], [])
list_entries life ((name, vec) ∷ rest) =
    let kept = keep_if (is_listed life) vec in
    let (out, entries) = list_entries life rest in
    if is_empty kept then (out, entries) else (numbered name 0 kept ++ out, (name, kept) ∷ entries)

module _ {App : Type 0} where
  unfoldable pub register_session : String → ℕ → Registry App → Registry App
  unfolding find_key assign
  register_session name s r = record r {
    sessions = assign name (or_empty (find_key name r.sessions) ++ (s ∷ [])) r.sessions;
  }

  -- An entry after its references were pruned; one without references is erased.
  abbrev pub put_back : String → List ℕ → Registry App → Registry App
  put_back name vec r = record r {
    sessions = if is_empty vec then erase name r.sessions else assign name vec r.sessions;
  }

  module _ (life : Life) where
    abbrev pub find_in : ℤ → String → Registry App → Option (List ℕ) → Option ℕ × Registry App
    find_in index name r none = (none, r)
    find_in index name r (some vec) =
        let kept = keep_if (is_listed life) vec in (at_index index kept, put_back name kept r)

    pub find_session : String → ℤ → Registry App → Option ℕ × Registry App
    unfolding find_key erase assign keep_if
    find_session name index r = find_in index name r (find_key name r.sessions)

    abbrev pub all_in : String → Registry App → Option (List ℕ) → List ℕ × Registry App
    all_in name r none = ([], r)
    all_in name r (some vec) =
        let kept = keep_if (is_listed life) vec in (keep_if life.alive kept, put_back name kept r)

    pub find_all_sessions : String → Registry App → List ℕ × Registry App
    unfolding find_key erase assign keep_if
    find_all_sessions name r = all_in name r (find_key name r.sessions)

    abbrev pub without : ℕ → String → Registry App → Option (List ℕ) → Registry App
    without s name r none = r
    without s name r (some vec) = put_back name (keep_if (λ w. life.alive w && not (w == s)) vec) r

    unfoldable pub unregister_session : String → ℕ → Registry App → Registry App
    unfolding find_key erase assign keep_if
    unregister_session name s r = without s name r (find_key name r.sessions)

    pub list_sessions : Registry App → List (String × ℕ) × Registry App
    unfolding list_entries
    list_sessions r =
        let (out, entries) = list_entries life r.sessions in (out, record r { sessions = entries })

  unfoldable pub register_window : String → String → String → Registry App → Registry App
  unfolding assign
  register_window window session name r = record r {
    windows = assign window (record { session_id = session; app_name = name }) r.windows;
  }

  unfoldable pub unregister_window : String → Registry App → Registry App
  unfolding erase
  unregister_window window r = record r { windows = erase window r.windows }

  unfoldable pub stash_app : String → App → String → ℕ → Registry App → Registry App
  unfolding assign
  stash_app window app name now r = if str_eq window "" then r else record r {
    stashed = assign window (record { app = app; app_name = name; at = now }) r.stashed;
  }

  unfoldable pub remove_stashed_app : String → Registry App → Registry App
  unfolding erase
  remove_stashed_app window r =
      if str_eq window "" then r else record r { stashed = erase window r.stashed }

  abbrev pub restore_found :
      String → ℕ → Registry App → Option (StashedApp App) → Option (App × String) × Registry App
  restore_found window now r none = (none, r)
  restore_found window now r (some s) = (
    if is_expired r.stash_ttl s.at now then none else some (s.app, s.app_name),
    record r { stashed = erase window r.stashed },
  )

  unfoldable pub restore_app : String → ℕ → Registry App → Option (App × String) × Registry App
  unfolding find_key erase
  restore_app window now r =
      if str_eq window "" then (none, r) else restore_found window now r (find_key window r.stashed)
