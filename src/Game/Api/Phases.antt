-- ===== src/Game/Api/Phases.antt =====
-- `app_process` (game_api.hpp) as a machine of three flags.
use aimeath.Common.{
  ◌≡◌, refl, sym, ap, ◌∙◌, Bool, true, false, List, [], ◌∷◌, Option, none, some, ok, ◌>>=◌,
  >>=_parts, ok-injective, if◌then◌else◌,
}
use aimeath.Common.Json.{String, Value}
use aimeath.Game.Api.{
  Boost, GameClass, Ctx, start, input, get_state, end_game, serve, start_on, input_on, state_on,
  Request, start_game, make_input, pause, resume, finish, show_state, unknown, request_of,
  action_of, process, process_all, get_int,
}

pub record Phase : Type 0 where
  pub running : Bool
  pub paused : Bool
  pub done : Bool

abbrev pub step_phase : Request → Phase → Phase
step_phase start_game p =
    if p.running then p else record { running = true; paused = false; done = false }
step_phase pause p = record p { paused = true }
step_phase resume p = record p { paused = false }
step_phase finish p = record p { running = false; done = true }
step_phase _ p = p

abbrev is_some : {A : Type 0} → Option A → Bool
is_some none = false
is_some (some a) = true

abbrev pub phase_of : {G : Type 0} → Ctx G → Phase
phase_of ctx = record { running = is_some ctx.game; paused = ctx.paused; done = ctx.done }

-- The phase after the requests.
abbrev pub run_phases : Boost → List String → Phase → Phase
run_phases boost [] p = p
run_phases boost (msg ∷ msgs) p =
    run_phases boost msgs (step_phase (request_of (action_of boost msg)) p)

module _ (boost : Boost) {G : Type 0} (class : GameClass G) where
  -- A reply that leaves the phase of `ctx'`.
  with_state-phase :
      (ctx' : Ctx G) (g : G) (r : Ctx G × List Value)
      → (class.state g >>= λ s. ok (ctx', s ∷ [])) ≡ ok r
      → phase_of r.0 ≡ phase_of ctx'
  with_state-phase ctx' g r e =
      let (s, shown, done) = >>=_parts (class.state g) _ e in
      ap (λ r. phase_of r.0) (sym (ok-injective done))

  -- A reply at once.
  reply-phase :
      (ctx' : Ctx G) (out : List Value) (r : Ctx G × List Value)
      → ok (ctx', out) ≡ ok r
      → phase_of r.0 ≡ phase_of ctx'
  reply-phase ctx' out r e = ap (λ r. phase_of r.0) (sym (ok-injective e))

  start_on-phase :
      (msg : String) (ctx : Ctx G) (o : Option G) (r : Ctx G × List Value)
      → start_on boost class msg ctx o ≡ ok r
      → phase_of r.0 ≡ (
          if is_some o
          then phase_of ctx
          else record { running = true; paused = false; done = false })
  start_on-phase msg ctx (some g) r e = reply-phase ctx _ r e
  start_on-phase msg ctx none r e =
      let (g, made, rest) = >>=_parts (class.construct _ _) _ e in with_state-phase _ g r rest

  input_on-phase :
      (msg : String) (ctx : Ctx G) (o : Option G) (r : Ctx G × List Value)
      → ctx.game ≡ o
      → input_on boost class msg ctx o ≡ ok r
      → phase_of r.0 ≡ phase_of ctx
  input_on-phase msg ctx none r has e = reply-phase ctx _ r e
  input_on-phase msg ctx (some g) r has e = go ctx.paused e
    where
      moved : G → Ctx G
      moved g' = record ctx { game = some g' }

      same_phase : (g' : G) → phase_of (moved g') ≡ phase_of ctx
      same_phase g' =
          ap (λ o. record { running = is_some o; paused = ctx.paused; done = ctx.done }) (sym has)

      go :
          (t : Bool)
          → (if t
              then ok (ctx, [])
              else (class.step (get_int boost msg "value") g >>= λ g'.
                  class.state g' >>= λ s. ok (moved g', s ∷ [])))
            ≡ ok r
          → phase_of r.0 ≡ phase_of ctx
      go true e = reply-phase ctx [] r e
      go false e =
          let (g', stepped, rest) = >>=_parts (class.step (get_int boost msg "value") g) _ e in
          with_state-phase (moved g') g' r rest ∙ same_phase g'

  state_on-phase :
      (ctx : Ctx G) (o : Option G) (r : Ctx G × List Value)
      → state_on boost class ctx o ≡ ok r
      → phase_of r.0 ≡ phase_of ctx
  state_on-phase ctx none r e = reply-phase ctx _ r e
  state_on-phase ctx (some g) r e = with_state-phase ctx g r e

  serve-phase :
      (request : Request) (action msg : String) (ctx : Ctx G) (r : Ctx G × List Value)
      → serve boost class request action msg ctx ≡ ok r
      → phase_of r.0 ≡ step_phase request (phase_of ctx)
  unfolding serve start input get_state end_game
  serve-phase start_game action msg ctx r e = start_on-phase msg ctx ctx.game r e
  serve-phase make_input action msg ctx r e = input_on-phase msg ctx ctx.game r refl e
  serve-phase pause action msg ctx r e = reply-phase _ _ r e
  serve-phase resume action msg ctx r e = reply-phase _ _ r e
  serve-phase finish action msg ctx r e = reply-phase _ _ r e
  serve-phase show_state action msg ctx r e = state_on-phase ctx ctx.game r e
  serve-phase unknown action msg ctx r e = reply-phase _ _ r e

  -- After any requests that were answered, whether the window has a game, is paused and is done
  -- is what the machine of these three flags gives: a start is refused while there is a game and
  -- else clears both flags, a pause and a resume set and clear the first whether or not there is
  -- a game, and the end of the game drops it and marks the window done.
  pub process_all-phase :
      (msgs : List String) (ctx : Ctx G) (r : Ctx G × List Value)
      → process_all boost class msgs ctx ≡ ok r
      → phase_of r.0 ≡ run_phases boost msgs (phase_of ctx)
  unfolding process_all process
  process_all-phase [] ctx r e = reply-phase ctx [] r e
  process_all-phase (msg ∷ msgs) ctx r e =
      let (r₁, e₁, rest) = >>=_parts (process boost class msg ctx) _ e in
      let (r₂, e₂, done) = >>=_parts (process_all boost class msgs r₁.0) _ rest in
      ap (λ r. phase_of r.0) (sym (ok-injective done))
      ∙ process_all-phase msgs r₁.0 r₂ e₂
      ∙ ap (run_phases boost msgs)
          (serve-phase (request_of (action_of boost msg)) (action_of boost msg) msg ctx r₁ e₁)
