-- ===== src/Server/Session/Output.antt =====
-- What other threads do with a Session (ws_server.cpp): on_app_output, call_app_process,
-- call_app_process_and_notify, is_open and the destructor. A call and what it posts to the strand
-- are two steps. The memory of a reply is not modelled.
use aimeath.Common.{ℕ, Bool, true, false, not, ◌&&◌, Option, none, some, if_by, if◌then◌else◌}
use aimeath.Common.Json.{String, str_eq, Value, array, Items, last, item}
use aimeath.Game.Api.{Boost}
use aimeath.Server.Registry.{Life, unregister_session, unregister_window}
use aimeath.Server.Session.{World, enqueue, reset_heartbeat}
use aimeath.Server.Session.Writer.{IsSteady, Reach, start, next, post, Reach-IsSteady}

-- `out ? out : "[]"`.
abbrev pub reply_of : Option String → String
reply_of none = "[]"
reply_of (some out) = out

module _ {App : Type 0} where
  unfoldable pub is_open : World App → Bool
  is_open w = not w.session.closing && (w.session.has_ws && not w.session.ws_closed)

  abbrev pub processed : World App → App × Option String → World App × String
  processed w (a, out) = (record w { session = record w.session { app = some a } }, reply_of out)

  abbrev pub call_on : String → World App → Option App → World App × String
  call_on input w none = (w, "[]")
  call_on input w (some a) = processed w (w.session.mod_of.process a input)

  unfoldable pub call_app_process : String → World App → World App × String
  call_app_process input w = call_on input w w.session.app

  -- `call_app_process_and_notify`: the reply, and whether it is posted to the strand as well.
  unfoldable pub call_app_process_and_notify : String → World App → (World App × String) × Bool
  call_app_process_and_notify input w =
      (call_on input w w.session.app, elim w.session.app [ none ↦ false | some _ ↦ true ])

  module _ (boost : Boost) (life : Life) (now : ℕ) where
    -- The call of the output function by an asynchronous application; then its text is posted.
    unfoldable pub on_app_output : World App → World App
    unfolding reset_heartbeat
    on_app_output w = if w.session.closing then w else reset_heartbeat boost life now w

    unfoldable pub on_output_posted : String → World App → World App
    unfolding enqueue
    on_output_posted json w = if w.session.closing then w else enqueue boost life now json w

    unfoldable pub enqueue_items : Items → World App → World App
    unfolding enqueue
    enqueue_items last w = w
    enqueue_items (item v rest) w =
        enqueue_items rest (enqueue boost life now (boost.serialize v) w)

    abbrev pub enqueue_value : Option Value → World App → World App
    enqueue_value (some (array items)) w = enqueue_items items w
    enqueue_value _ w = w

    -- What `call_app_process_and_notify` posts with the reply.
    unfoldable pub on_notified : String → World App → World App
    unfolding enqueue_items
    on_notified reply w = if w.session.closing then w else enqueue_value (boost.parse reply) w

    -- `~Session`: a session that was not closed leaves the registry.
    unfoldable pub end_of : World App → World App
    unfolding unregister_session unregister_window
    end_of w =
        let s = w.session in
        let r = unregister_session life s.app_name s.handle w.registry in
        if s.closing
        then w
        else (if str_eq s.app_name "" then w else record w {
          registry = if str_eq s.window_id "" then r else unregister_window s.window_id r;
        })

    enqueue_items-Reach :
        (u w : World App) (items : Items)
        → Reach boost life now u w
        → Reach boost life now u (enqueue_items items w)
    unfolding enqueue_items
    enqueue_items-Reach u w last r = r
    enqueue_items-Reach u w (item v rest) r =
        enqueue_items-Reach u (enqueue boost life now (boost.serialize v) w) rest
          (next r (post (boost.serialize v) w))

    -- What an asynchronous application puts out, and what a call with a notification posts, leave the
    -- session steady.
    pub on_notified-IsSteady :
        (reply : String) (w : World App)
        → IsSteady w.session
        → IsSteady (on_notified reply w).session
    unfolding on_notified
    on_notified-IsSteady reply w st =
        if_by (λ (v : World App). IsSteady v.session) w.session.closing _ _ (λ _. st)
          (λ _. go (boost.parse reply))
      where
        go : (v : Option Value) → IsSteady (enqueue_value v w).session
        go (some (array items)) =
            Reach-IsSteady boost life now st (enqueue_items-Reach w w items start)
        go _ = st
