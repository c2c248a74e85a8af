-- ===== src/Game/Api/Sessions.antt =====
-- `app_process` (game_api.hpp) over the life of one game window.
use aimeath.Common.{
  ℕ, zero, suc, ◌<◌, ◌≡◌, refl, ◌⊎◌, inl, inr, true, List, [], ◌∷◌, Option, none, some, ok, ◌>>=◌,
  arith, length,
}
use aimeath.Common.Int.{ℤ, pos, negsuc}
use aimeath.Common.Json.{String, Value}
use aimeath.Common.Ends.{Ends, Ends->>=, Ends-if_cases}
use aimeath.Game.Api.{
  Boost, GameClass, Ctx, side_or_default, start, input, get_state, end_game, serve, Request,
  start_game, make_input, pause, resume, finish, show_state, unknown, request_of, action_of,
  process, process_all, get_int, start_on, input_on, state_on,
}

side_or_default-pos : (n : ℤ) → 0 < side_or_default n
side_or_default-pos (pos zero) = omega arith
side_or_default-pos (pos (suc n)) = omega arith
side_or_default-pos (negsuc n) = omega arith

-- What a game promises to the interface: `Good` holds of a new game with sides of at least one
-- cell that the game takes (`Fits`), a step keeps it, and the state of such a game can be written out.
pub record GameLaws {G : Type 0} (class : GameClass G) (F : Type 0) : Type 1 where
  pub Good : G → Type 0
  pub Fits : ℕ → ℕ → Type 0
  pub construct-Good : (w h : ℕ) → 0 < w → 0 < h → Fits w h → Ends F Good (class.construct w h)
  pub step-Good : (value : ℤ) (g : G) → Good g → Ends F Good (class.step value g)
  pub state-Unit : (g : G) → Good g → Ends F (λ _. Unit {0}) (class.state g)

module _ (boost : Boost) {G : Type 0} (class : GameClass G) (F : Type 0)
    (laws : GameLaws class F) where
  abbrev pub Held : Option G → Type 0
  Held none = Unit
  Held (some g) = laws.Good g

  -- The sides that a message gives, or their defaults, are some that the game takes.
  abbrev pub Asks : String → Type 0
  Asks msg =
      laws.Fits (side_or_default (get_int boost msg "width"))
        (side_or_default (get_int boost msg "height"))

  abbrev pub AllAsk : List String → Type 0
  AllAsk [] = Unit
  AllAsk (msg ∷ msgs) = Asks msg × AllAsk msgs

  -- A game that takes all sides.
  pub AllAsk-any : ((w h : ℕ) → laws.Fits w h) → (msgs : List String) → AllAsk msgs
  AllAsk-any any [] = tt
  AllAsk-any any (msg ∷ msgs) = (any _ _, AllAsk-any any msgs)

  -- One reply to each request, or none while the game is paused.
  abbrev pub Answered : Ctx G → Ctx G × List Value → Type 0
  Answered ctx (ctx', out) =
      Held ctx'.game × ((length out ≡ 1) ⊎ (ctx.paused ≡ true) × (length out ≡ 0))

  with_state-Held :
      (ctx ctx' : Ctx G) (g : G)
      → Held ctx'.game
      → laws.Good g
      → Ends F (Answered ctx) (class.state g >>= λ s. ok (ctx', s ∷ []))
  with_state-Held ctx ctx' g held good =
      Ends->>= F (λ _. Unit {0}) (Answered ctx) (class.state g) _ (laws.state-Unit g good)
        λ s _. (held, inl refl)

  start-Held :
      (msg : String) (ctx : Ctx G)
      → Asks msg
      → Held ctx.game
      → Ends F (Answered ctx) (start boost class msg ctx)
  unfolding start
  start-Held msg ctx asks held = go ctx.game
    where
      go : (o : Option G) → Ends F (Answered ctx) (start_on boost class msg ctx o)
      go (some g) = (held, inl refl)
      go none =
          let w = side_or_default (get_int boost msg "width") in
          let h = side_or_default (get_int boost msg "height") in
          Ends->>= F laws.Good (Answered ctx) (class.construct w h) _
            (laws.construct-Good w h (side_or_default-pos _) (side_or_default-pos _) asks)
            λ g good. with_state-Held ctx _ g good good

  input-Held :
      (msg : String) (ctx : Ctx G)
      → Held ctx.game
      → Ends F (Answered ctx) (input boost class msg ctx)
  unfolding input
  input-Held msg ctx held = go ctx.game held
    where
      go : (o : Option G) → Held o → Ends F (Answered ctx) (input_on boost class msg ctx o)
      go none h = (held, inl refl)
      go (some g) good =
          Ends-if_cases F (Answered ctx) ctx.paused (ok (ctx, [])) _ (λ on. (held, inr (on, refl)))
            λ _.
              Ends->>= F laws.Good (Answered ctx) (class.step (get_int boost msg "value") g) _
                (laws.step-Good (get_int boost msg "value") g good)
                λ g' good'. with_state-Held ctx _ g' good' good'

  get_state-Held : (ctx : Ctx G) → Held ctx.game → Ends F (Answered ctx) (get_state boost class ctx)
  unfolding get_state
  get_state-Held ctx held = go ctx.game held
    where
      go : (o : Option G) → Held o → Ends F (Answered ctx) (state_on boost class ctx o)
      go none h = (held, inl refl)
      go (some g) good = with_state-Held ctx ctx g held good

  serve-Held :
      (request : Request) (action msg : String) (ctx : Ctx G)
      → Asks msg
      → Held ctx.game
      → Ends F (Answered ctx) (serve boost class request action msg ctx)
  unfolding serve end_game
  serve-Held start_game action msg ctx asks held = start-Held msg ctx asks held
  serve-Held make_input action msg ctx asks held = input-Held msg ctx held
  serve-Held pause action msg ctx asks held = (held, inl refl)
  serve-Held resume action msg ctx asks held = (held, inl refl)
  serve-Held finish action msg ctx asks held = (tt, inl refl)
  serve-Held show_state action msg ctx asks held = get_state-Held ctx held
  serve-Held unknown action msg ctx asks held = (held, inl refl)

  -- For every game that keeps the laws of the interface, a request to a window that holds a good
  -- game or none, with sides that the game takes, meets no undefined behaviour, and returns unless the laws let the game not
  -- return: it is answered with one value, or with none while the window is paused, and leaves a
  -- good game or none.
  pub process-Held :
      (msg : String) (ctx : Ctx G)
      → Asks msg
      → Held ctx.game
      → Ends F (Answered ctx) (process boost class msg ctx)
  unfolding process
  process-Held msg ctx asks held =
      serve-Held (request_of (action_of boost msg)) (action_of boost msg) msg ctx asks held

  pub process_all-Held :
      (msgs : List String) (ctx : Ctx G)
      → AllAsk msgs
      → Held ctx.game
      → Ends F (λ r. Held (r.0).game) (process_all boost class msgs ctx)
  unfolding process_all
  process_all-Held [] ctx asks held = held
  process_all-Held (msg ∷ msgs) ctx asks held =
      Ends->>= F (Answered ctx) (λ r. Held (r.0).game) (process boost class msg ctx) _
        (process-Held msg ctx asks.0 held)
        λ r h.
          Ends->>= F (λ r. Held (r.0).game) (λ r. Held (r.0).game)
            (process_all boost class msgs r.0) _ (process_all-Held msgs r.0 asks.1 h.0) λ r' h'. h'
