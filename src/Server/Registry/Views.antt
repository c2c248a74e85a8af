-- ===== src/Server/Registry/Views.antt =====
-- SessionManager's sessions (ws_server.cpp) as a list of sessions for each name.
use aimeath.Common.{
  ℕ, ◌≡◌, refl, sym, ap, ◌∙◌, Bool, true, false, not, ◌&&◌, List, [], ◌∷◌, ◌++◌, Option, none, some,
  if◌then◌else◌, ◌==◌, arith,
}
use aimeath.Common.Int.{ℤ, pos, negsuc}
use aimeath.Common.Json.{String, str_eq, eq_iff}
use aimeath.Common.Dict.{find_key, find_key-assign, find_key-erase}
use aimeath.Server.Registry.{
  Life, Registry, keep_if, is_listed, or_empty, at_index, register_session, put_back, find_session,
  find_in, unregister_session, without,
}
use aimeath.Server.Registry.Prune.{keep_if-append, keep_if-keep_if}

abbrev pub is_not : ℕ → ℕ → Bool
is_not s w = not (w == s)

module _ (life : Life) where
  keep_twice :
      (vec : List ℕ)
      → keep_if (is_listed life) (keep_if (is_listed life) vec) ≡ keep_if (is_listed life) vec
  keep_twice vec =
      keep_if-keep_if (is_listed life) (is_listed life) (is_listed life) (λ x. ground arith) vec

  -- The two orders of pruning and unregistering agree.
  keep_swap :
      (s : ℕ) (vec : List ℕ)
      → keep_if (is_listed life) (keep_if (λ w. life.alive w && is_not s w) vec)
        ≡ keep_if (is_not s) (keep_if (is_listed life) vec)
  keep_swap s vec =
      let both : ℕ → Bool = λ w. is_listed life w && is_not s w in
      keep_if-keep_if (is_listed life) (λ w. life.alive w && is_not s w) both (λ w. ground arith)
        vec
      ∙ sym (keep_if-keep_if (is_not s) (is_listed life) both (λ w. ground arith) vec)

module _ {App : Type 0} where
  -- The sessions of a name that exist and are open, in the order of their registration.
  abbrev pub listed : Life → String → Registry App → List ℕ
  listed life name r = keep_if (is_listed life) (or_empty (find_key name r.sessions))

  put_back-refs :
      (name j : String) (vec : List ℕ) (r : Registry App)
      → or_empty (find_key j (put_back name vec r).sessions)
        ≡ (if str_eq name j then vec else or_empty (find_key j r.sessions))
  put_back-refs name j [] r = ground (arith, find_key-erase r.sessions name j)
  put_back-refs name j (s ∷ vec) r = ground (arith, find_key-assign r.sessions name j (s ∷ vec))

  module _ (life : Life) where
    -- The references of another name, or the given ones.
    abbrev refs_if : Bool → List ℕ → String → Registry App → List ℕ
    refs_if same vec j r = if same then vec else or_empty (find_key j r.sessions)

    -- A query leaves the view as it is.
    same_view :
        (name j : String) (vec : List ℕ) (r : Registry App)
        → find_key name r.sessions ≡ some vec
        → listed life j (put_back name (keep_if (is_listed life) vec) r) ≡ listed life j r
    same_view name j vec r e =
        ap (keep_if (is_listed life)) (put_back-refs name j (keep_if (is_listed life) vec) r)
        ∙ go (str_eq name j) refl
      where
        go :
            (t : Bool)
            → str_eq name j ≡ t
            → keep_if (is_listed life) (refs_if t (keep_if (is_listed life) vec) j r)
              ≡ listed life j r
        go true same =
            keep_twice life vec
            ∙ ap (λ o. keep_if (is_listed life) (or_empty o))
                (sym e ∙ ap (λ k. find_key k r.sessions) ((eq_iff name j).0 same))
        go false other = refl

    -- `findSession` returns the session at the index among the open sessions of the name in the
    -- order of their registration, or none if there is no such index, and the open sessions of
    -- no name change.
    pub find_session-listed :
        (name : String) (index : ℤ) (r : Registry App)
        → ((find_session life name index r).0 ≡ at_index index (listed life name r))
          × ((j : String) → listed life j (find_session life name index r).1 ≡ listed life j r)
    unfolding find_session keep_if
    find_session-listed name index r = go (find_key name r.sessions) refl
      where
        none_at : (i : ℤ) → none ≡ at_index i []
        none_at (pos i) = refl
        none_at (negsuc i) = refl

        go :
            (o : Option (List ℕ))
            → find_key name r.sessions ≡ o
            → ((find_in life index name r o).0
                ≡ at_index index (keep_if (is_listed life) (or_empty o)))
              × ((j : String) → listed life j (find_in life index name r o).1 ≡ listed life j r)
        go none e = (none_at index, λ j. refl)
        go (some vec) e = (refl, λ j. same_view name j vec r e)

    -- After `registerSession` a session that is open is the last of the open sessions of its
    -- name, and those of other names are as before.
    pub register_session-listed :
        (name : String) (s : ℕ) (r : Registry App) (j : String)
        → listed life j (register_session name s r) ≡ (
            if str_eq name j
            then listed life name r ++ (if is_listed life s then s ∷ [] else [])
            else listed life j r)
    unfolding register_session keep_if
    register_session-listed name s r j =
        let new = or_empty (find_key name r.sessions) ++ (s ∷ []) in
        ap (λ o. keep_if (is_listed life) (or_empty o)) (find_key-assign r.sessions name j new)
        ∙ go (str_eq name j)
      where
        go :
            (t : Bool)
            → keep_if (is_listed life) (
                or_empty (
                  if t
                  then some (or_empty (find_key name r.sessions) ++ (s ∷ []))
                  else find_key j r.sessions))
              ≡ (if t
                  then listed life name r ++ (if is_listed life s then s ∷ [] else [])
                  else listed life j r)
        go true = keep_if-append (is_listed life) (or_empty (find_key name r.sessions)) (s ∷ [])
        go false = refl

    -- After `unregisterSession` the open sessions of the name are those that they were but the
    -- given one, in the same order, and those of other names are as before.
    pub unregister_session-listed :
        (name : String) (s : ℕ) (r : Registry App) (j : String)
        → listed life j (unregister_session life name s r)
          ≡ (if str_eq name j then keep_if (is_not s) (listed life name r) else listed life j r)
    unfolding unregister_session keep_if
    unregister_session-listed name s r j = go (find_key name r.sessions) refl
      where
        gone :
            (t : Bool)
            → str_eq name j ≡ t
            → find_key name r.sessions ≡ none
            → listed life j r ≡ (if t then [] else listed life j r)
        gone true same e =
            ap (λ k. listed life k r) (sym ((eq_iff name j).0 same))
            ∙ ap (λ o. keep_if (is_listed life) (or_empty o)) e
        gone false other e = refl

        left :
            (t : Bool) (vec : List ℕ)
            → keep_if
                (is_listed life)
                (refs_if t (keep_if (λ w. life.alive w && is_not s w) vec) j r)
              ≡ (if t then keep_if (is_not s) (keep_if (is_listed life) vec) else listed life j r)
        left true vec = keep_swap life s vec
        left false vec = refl

        go :
            (o : Option (List ℕ))
            → find_key name r.sessions ≡ o
            → listed life j (without life s name r o) ≡ (
                if str_eq name j
                then keep_if (is_not s) (keep_if (is_listed life) (or_empty o))
                else listed life j r)
        go none e = gone (str_eq name j) refl e
        go (some vec) e =
            ap (keep_if (is_listed life))
              (put_back-refs name j (keep_if (λ w. life.alive w && is_not s w) vec) r)
            ∙ left (str_eq name j) vec
