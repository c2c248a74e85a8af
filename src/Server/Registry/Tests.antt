-- ===== src/Server/Registry/Tests.antt =====
-- Runs of the session registry, and its theorems at concrete registries.
use aimeath.Common.{ℕ, ◌≡◌, refl, not, ◌==◌, [], ◌∷◌, ◌++◌, none}
use aimeath.Common.Int.{pos}
use aimeath.Server.Registry.{
  Life, Registry, register_session, list_sessions, stash_app, restore_app,
}
use aimeath.Server.Registry.Views.{listed, register_session-listed}
use aimeath.Server.Registry.Stash.{restore_app-stash_app}

-- Session 2 is closed, session 4 is gone.
abbrev life : Life
life = record { alive = λ s. not (s == 4); is_open = λ s. not (s == 2) }

-- Applications are numbers.
abbrev empty : Registry ℕ
empty = record { sessions = []; windows = []; stashed = []; stash_ttl = pos 30 }

abbrev shared : Registry ℕ
shared = record empty { sessions = ("snake", 1 ∷ 2 ∷ 3 ∷ []) ∷ ("chat", 4 ∷ []) ∷ [] }

registered :
    register_session "snake" 5 shared
    ≡ record empty { sessions = ("snake", 1 ∷ 2 ∷ 3 ∷ 5 ∷ []) ∷ ("chat", 4 ∷ []) ∷ [] }
unfolding register_session
registered = refl

listed_all :
    list_sessions life shared
    ≡ (("snake", 0) ∷ ("snake", 1) ∷ [], record empty { sessions = ("snake", 1 ∷ 3 ∷ []) ∷ [] })
unfolding list_sessions
listed_all = refl

register_session-listed_example :
    listed life "snake" (register_session "snake" 5 shared) ≡ listed life "snake" shared ++ (5 ∷ [])
register_session-listed_example = register_session-listed life "snake" 5 shared "snake"

restore_app-stash_app_example :
    (restore_app "w1" 31000000000 (stash_app "w1" 7 "go" 0 shared)).0 ≡ none
restore_app-stash_app_example = restore_app-stash_app "w1" refl 7 "go" 0 31000000000 shared
