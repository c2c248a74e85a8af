-- ===== src/Game/Api.antt =====
-- desktop/app/shared/game/include: game_base.hpp and game_api.hpp, the C interface that the macro
-- APP_GAME_API_COMMON gives to a game. A reply is kept as the items of the array that the code
-- writes out as text; a text that the code writes and reads back is kept as its value.
pub mod Sessions
pub mod Phases
pub mod Tests
use package.aimeath.Common.{
  ℕ, zero, suc, ◌+◌, ◌-◌, ◌%◌, ◌^◌, Bool, true, false, ◌||◌, List, [], ◌∷◌, ◌++◌, Option, none,
  some, ltb, if◌then◌else◌, Outcome, ok, ◌>>=◌,
}
use package.aimeath.Common.Int.{ℤ, pos, negsuc, sub_ℕ}
use package.aimeath.Common.Json.{
  String, str_eq, Value, null, boolean, int64, uint64, double, string, array, object, Members, end,
  member, find,
}
use Prim.Native.String.{◌++◌ as append}

-- The functions of boost::json (not under src/) that the interface calls: the parser, which throws
-- on a malformed text, the printer, and the conversion of a number to 64 bits.
pub record Boost : Type 0 where
  pub parse : String → Option Value
  pub serialize : Value → String
  pub to_int64 : Value → Option ℤ

-- `Game`: what the interface uses of a game. `construct` is GAME_CONSTRUCT, `state` is the value
-- that `getState` writes out.
pub record GameClass (G : Type 0) : Type 0 where
  pub construct : ℕ → ℕ → Outcome G
  pub step : ℤ → G → Outcome G
  pub state : G → Outcome Value

-- `_GameAppCtx`.
pub record Ctx (G : Type 0) : Type 0 where
  pub game : Option G
  pub width : ℕ
  pub height : ℕ
  pub paused : Bool
  pub done : Bool

unfoldable pub create : {G : Type 0} → Ctx G
create = record { game = none; width = 0; height = 0; paused = false; done = false }

-- `static_cast<int>` of 64 bits.
abbrev pub to_int : ℤ → ℤ
to_int (pos n) = let m = n % 2 ^ 32 in if ltb m (2 ^ 31) then pos m else sub_ℕ m (2 ^ 32)
to_int (negsuc n) =
    let m = 2 ^ 32 - 1 - n % 2 ^ 32 in if ltb m (2 ^ 31) then pos m else sub_ℕ m (2 ^ 32)

-- `if (w <= 0) w = 20;`
abbrev pub side_or_default : ℤ → ℕ
side_or_default (pos zero) = 20
side_or_default (pos (suc n)) = suc n
side_or_default (negsuc n) = 20

pub error : String → Value
error msg = object (member "type" (string "error") (member "msg" (string msg) end))

pub acknowledged : Value
acknowledged = object (member "type" (string "ok") end)

-- The tests of `app_process` on the action.
pub data Request : Type 0 where
  start_game make_input pause resume finish show_state unknown : Request

abbrev is_one_of : String → String → String → Bool
is_one_of action a b = str_eq action a || str_eq action b

pub request_of : String → Request
request_of action =
    if is_one_of action "start" "new_game"
    then start_game
    else (if is_one_of action "tick" "input"
        then make_input
        else (if str_eq action "pause"
            then pause
            else (if str_eq action "resume"
                then resume
                else (if str_eq action "end_game"
                    then finish
                    else (if str_eq action "get_state" then show_state else unknown)))))

module _ (boost : Boost) where
  abbrev text_of : Value → String
  text_of (string s) = s
  text_of (int64 n) = boost.serialize (int64 n)
  text_of (uint64 n) = boost.serialize (uint64 n)
  text_of (double n) = boost.serialize (double n)
  text_of (boolean b) = boost.serialize (boolean b)
  text_of _ = ""

  abbrev text_or_empty : Option Value → String
  text_or_empty none = ""
  text_or_empty (some v) = text_of v

  abbrev text_in : String → Option Value → String
  text_in key (some (object members)) = text_or_empty (find key members)
  text_in key _ = ""

  -- `_gameJsonGetStr`.
  pub get_str : String → String → String
  get_str msg key = text_in key (boost.parse msg)

  abbrev int_or_zero : Option ℤ → ℤ
  int_or_zero none = pos 0
  int_or_zero (some n) = to_int n

  abbrev int_of : Option Value → ℤ
  int_of none = pos 0
  int_of (some v) = int_or_zero (boost.to_int64 v)

  abbrev int_in : String → Option Value → ℤ
  int_in key (some (object members)) = int_of (find key members)
  int_in key _ = pos 0

  -- `_gameJsonGetInt`.
  unfoldable pub get_int : String → String → ℤ
  get_int msg key = int_in key (boost.parse msg)

  pub action_of : String → String
  unfolding get_str
  action_of msg =
      let action = get_str msg "action" in if str_eq action "" then get_str msg "type" else action

  module _ {G : Type 0} (class : GameClass G) where
    abbrev pub Reply : Type 0
    Reply = Outcome (Ctx G × List Value)

    abbrev replies : Ctx G → Value → Ctx G × List Value
    replies ctx v = (ctx, v ∷ [])

    abbrev with_state : Ctx G → G → Reply
    with_state ctx g = do s ← class.state g; ok (replies ctx s)

    abbrev pub start_on : String → Ctx G → Option G → Reply
    start_on msg ctx (some g) = ok (replies ctx (error "game already running"))
    start_on msg ctx none = do
      let w = side_or_default (get_int msg "width")
      let h = side_or_default (get_int msg "height")
      g ← class.construct w h
      with_state (record ctx { width = w; height = h; game = some g; paused = false; done = false })
          g

    pub start : String → Ctx G → Reply
    unfolding get_int error
    start msg ctx = start_on msg ctx ctx.game

    abbrev pub input_on : String → Ctx G → Option G → Reply
    input_on msg ctx none = ok (replies ctx (error "no game"))
    input_on msg ctx (some g) = if ctx.paused then ok (ctx, []) else (do
      g' ← class.step (get_int msg "value") g
      with_state (record ctx { game = some g' }) g')

    pub input : String → Ctx G → Reply
    unfolding get_int error
    input msg ctx = input_on msg ctx ctx.game

    abbrev pub state_on : Ctx G → Option G → Reply
    state_on ctx none = ok (replies ctx (error "no game"))
    state_on ctx (some g) = with_state ctx g

    pub get_state : Ctx G → Reply
    unfolding error
    get_state ctx = state_on ctx ctx.game

    pub end_game : Ctx G → Ctx G
    end_game ctx = record ctx { done = true; game = none }

    -- The branch of `app_process` for the action.
    pub serve : Request → String → String → Ctx G → Reply
    unfolding start input get_state end_game error acknowledged
    serve start_game action msg ctx = start msg ctx
    serve make_input action msg ctx = input msg ctx
    serve pause action msg ctx = ok (replies (record ctx { paused = true }) acknowledged)
    serve resume action msg ctx = ok (replies (record ctx { paused = false }) acknowledged)
    serve finish action msg ctx = ok (replies (end_game ctx) acknowledged)
    serve show_state action msg ctx = get_state ctx
    serve unknown action msg ctx = ok (replies ctx (error (append "unknown action: " action)))

    -- `app_process`.
    pub process : String → Ctx G → Reply
    unfolding serve
    process msg ctx = serve (request_of (action_of msg)) (action_of msg) msg ctx

    -- Several requests, and their replies in order.
    pub process_all : List String → Ctx G → Reply
    unfolding process request_of action_of
    process_all [] ctx = ok (ctx, [])
    process_all (msg ∷ msgs) ctx = do
      (ctx', out) ← process msg ctx
      (ctx'', outs) ← process_all msgs ctx'
      ok (ctx'', out ++ outs)
