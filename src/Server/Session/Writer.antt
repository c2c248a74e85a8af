-- ===== src/Server/Session/Writer.antt =====
-- The write queue of Session (ws_server.cpp): enqueue, do_write and the end of a write.
use aimeath.Common.{
  ℕ, ◌-◌, ◌≤◌, ◌≡◌, refl, sym, ap, subst, ◌∙◌, Bool, true, false, not, ◌&&◌, List, [], ◌∷◌, ◌++◌,
  if◌then◌else◌, ok, ◌>>=◌, arith, if_by, leb, ok-injective,
}
use mathlib.Core.Bool.{false≢true}
use aimeath.Common.Json.{String}
use aimeath.Game.Api.{Boost}
use aimeath.Server.Registry.{Life}
use aimeath.Server.Session.{
  Session, World, do_cleanup, close_ws, do_write, enqueue, on_written, on_write_error, on_ping,
  reset_heartbeat, write_next, pop_front, max_missed_pongs,
}

abbrev pub has_more : List String → Bool
has_more [] = false
has_more (_ ∷ _) = true

-- The message that was handed to the socket last is the first of the queue.
pub record IsCurrent (sent queue : List String) : Type 0 where
  pub before : List String
  pub msg : String
  pub rest : List String
  pub handed : sent ≡ before ++ (msg ∷ [])
  pub queued : queue ≡ msg ∷ rest

-- At most one write is outstanding, and it is that of the first queued message; while the session is
-- open, one is exactly if a message is queued.
pub record IsSteady {App : Type 0} (s : Session App) : Type 0 where
  pub at_most_one : s.writes ≤ 1
  pub held : s.writes ≡ 1 → IsCurrent s.sent s.write_queue
  pub busy :
      s.closing ≡ false
      → (s.writing ≡ has_more s.write_queue) × (s.writes ≡ (if s.writing then 1 else 0))

-- The messages that are queued behind the one being written.
abbrev pub behind : Bool → List String → List String
behind false queue = queue
behind true [] = []
behind true (msg ∷ queue) = queue

-- The messages that were accepted, oldest first.
abbrev pub accepted : {App : Type 0} → Session App → List String
accepted s = s.sent ++ behind s.writing s.write_queue

-- A session that is closing needs no more than one write, of the first message.
closing-IsSteady :
    {App : Type 0} (s : Session App)
    → s.closing ≡ true
    → s.writes ≤ 1
    → (s.writes ≡ 1 → IsCurrent s.sent s.write_queue)
    → IsSteady s
closing-IsSteady s closed le held = record {
  at_most_one = le;
  held = held;
  busy = λ o. absurd (false≢true (sym o ∙ closed));
}

-- A message that is queued behind the others changes nothing.
IsCurrent-append :
    {sent queue : List String} (msg : String)
    → IsCurrent sent queue
    → IsCurrent sent (queue ++ (msg ∷ []))
IsCurrent-append msg c = record {
  before = c.before;
  msg = c.msg;
  rest = c.rest ++ (msg ∷ []);
  handed = c.handed;
  queued = ap (λ q. q ++ (msg ∷ [])) c.queued;
}

has_more-append : (queue : List String) (msg : String) → has_more (queue ++ (msg ∷ [])) ≡ true
has_more-append [] msg = refl
has_more-append (m ∷ queue) msg = refl

module _ {App : Type 0} (boost : Boost) (life : Life) (now : ℕ) where
  abbrev Steady : World App → Type 0
  Steady w = IsSteady w.session

  do_cleanup-IsSteady :
      (w : World App)
      → w.session.writes ≤ 1
      → (w.session.writes ≡ 1 → IsCurrent w.session.sent w.session.write_queue)
      → Steady (do_cleanup boost life now w)
  unfolding do_cleanup
  do_cleanup-IsSteady w le held = closing-IsSteady _ refl le held

  pub close_ws-IsSteady : (w : World App) → Steady w → Steady (close_ws boost life now w)
  unfolding close_ws
  close_ws-IsSteady w st =
      if_by Steady (w.session.has_ws && not w.session.closing) _ _
        (λ _.
          let c = do_cleanup-IsSteady w st.at_most_one st.held in
          record { at_most_one = c.at_most_one; held = c.held; busy = c.busy })
        λ _. st

  -- With no write outstanding, `do_write` starts the next one if it may.
  do_write-IsSteady : (w : World App) → w.session.writes ≡ 0 → Steady (do_write boost life now w)
  unfolding do_write
  do_write-IsSteady w idle = go w.session.write_queue refl
    where
      go :
          (queue : List String)
          → w.session.write_queue ≡ queue
          → Steady (write_next boost life now w queue)
      go [] e =
          let s : Session App = record w.session { writing = false } in
          let st : IsSteady s = record {
            at_most_one = omega (arith, idle);
            held = λ one. absurd (omega (arith, idle, one));
            busy = λ _. (ap (λ q. has_more q) (sym e), idle);
          } in
          if_by Steady (s.close_after_write && not s.closing) _ _
            (λ _. close_ws-IsSteady (record w { session = s }) st) λ _. st
      go (msg ∷ msgs) e =
          let more : has_more w.session.write_queue ≡ true = ap has_more e in
          if_by IsSteady w.session.closing _ _
            (λ closed.
              closing-IsSteady _ closed (omega (arith, idle))
                (λ one. absurd (omega (arith, idle, one))))
            λ live. record {
              at_most_one = omega (arith, idle);
              held = λ _. record {
                before = w.session.sent;
                msg = msg;
                rest = msgs;
                handed = refl;
                queued = e;
              };
              busy = λ _. (sym more, omega (arith, idle));
            }

  pub enqueue-IsSteady :
      (msg : String) (w : World App) → Steady w → Steady (enqueue boost life now msg w)
  unfolding enqueue
  enqueue-IsSteady msg w st =
      let s = w.session in
      let queued : World App = record w {
        session = record s { write_queue = s.write_queue ++ (msg ∷ []) };
      } in
      if_by Steady s.closing _ _ (λ _. st)
        λ live.
          if_by Steady s.writing queued _
            (λ on. record {
              at_most_one = st.at_most_one;
              held = λ one. IsCurrent-append msg (st.held one);
              busy = λ _. (on ∙ sym (has_more-append s.write_queue msg), (st.busy live).1);
            })
            λ off. do_write-IsSteady queued ((st.busy live).1 ∙ ap (λ t. if t then 1 else 0) off)

  -- The end of a write that is outstanding.
  on_written-IsSteady :
      (w : World App)
      → Steady w
      → w.session.writes ≡ 1
      → (w' : World App) × (on_written boost life now w ≡ ok w') × Steady w'
  unfolding on_written
  on_written-IsSteady w st one = go w.session.write_queue (ap has_more (st.held one).queued)
    where
      after : List String → World App
      after rest = record w {
        session = record w.session { write_queue = rest; writes = w.session.writes - 1 };
      }

      go :
          (queue : List String)
          → has_more queue ≡ true
          → (w' : World App) × ((pop_front queue >>= λ rest.
                ok (do_write boost life now (after rest)))
              ≡ ok w')
            × Steady w'
      go [] more = absurd (false≢true more)
      go (msg ∷ rest) more = (_, refl, do_write-IsSteady (after rest) (omega (arith, one)))

  on_write_error-IsSteady :
      (w : World App) → w.session.writes ≡ 1 → Steady (on_write_error boost life now w)
  unfolding on_write_error
  on_write_error-IsSteady w one =
      let s : Session App = record w.session {
        write_queue = [];
        writing = false;
        writes = w.session.writes - 1;
      } in
      if_by Steady s.closing _ _
        (λ closed.
          closing-IsSteady s closed (omega (arith, one)) (λ e. absurd (omega (arith, one, e))))
        λ live.
          do_cleanup-IsSteady (record w { session = s }) (omega (arith, one))
            (λ e. absurd (omega (arith, one, e)))

  on_ping-IsSteady : (w : World App) → Steady w → Steady (on_ping boost life now w)
  unfolding on_ping
  on_ping-IsSteady w st =
      if_by Steady w.session.closing _ _ (λ _. st)
        λ _.
          if_by Steady (leb max_missed_pongs w.session.missed_pongs) _ _
            (λ _. close_ws-IsSteady w st)
            λ _. record { at_most_one = st.at_most_one; held = st.held; busy = st.busy }

  -- What the strand may run next. A write ends only if one is outstanding.
  pub data Step : World App → World App → Type 0 where
    post : (msg : String) (w : World App) → Step w (enqueue boost life now msg w)
    written :
        (w w' : World App) → w.session.writes ≡ 1 → on_written boost life now w ≡ ok w' → Step w w'
    failed : (w : World App) → w.session.writes ≡ 1 → Step w (on_write_error boost life now w)
    ping : (w : World App) → Step w (on_ping boost life now w)
    heard : (w : World App) → Step w (reset_heartbeat boost life now w)
    close : (w : World App) → Step w (close_ws boost life now w)

  pub data Reach (w : World App) : World App → Type 0 where
    start : Reach w w
    next : {v u : World App} → Reach w v → Step v u → Reach w u

  Step-IsSteady : {w w' : World App} → Step w w' → Steady w → Steady w'
  unfolding reset_heartbeat
  Step-IsSteady (post msg w) st = enqueue-IsSteady msg w st
  Step-IsSteady (written w w' one e) st =
      let (v, e', st') = on_written-IsSteady w st one in
      subst Steady (ok-injective (sym e' ∙ e)) st'
  Step-IsSteady (failed w one) st = on_write_error-IsSteady w one
  Step-IsSteady (ping w) st = on_ping-IsSteady w st
  Step-IsSteady (heard w) st = record {
    at_most_one = st.at_most_one;
    held = st.held;
    busy = st.busy;
  }
  Step-IsSteady (close w) st = close_ws-IsSteady w st

  -- From a steady session, whatever the strand runs in whatever order (messages queued, writes
  -- that end or fail, pings, answers, closings), the session stays steady: at most one write is
  -- outstanding, it is that of the first queued message, which is the last that was handed to the
  -- socket, and while the session is open a write is outstanding exactly if a message is queued.
  pub Reach-IsSteady : {w w' : World App} → IsSteady w.session → Reach w w' → IsSteady w'.session
  Reach-IsSteady st start = st
  Reach-IsSteady st (next r step) = Step-IsSteady step (Reach-IsSteady st r)

  -- In any session that the strand reaches from a steady one, the end of an outstanding write is
  -- handled without a fault: the queue is not empty.
  pub on_written_total :
      (w w' : World App)
      → IsSteady w.session
      → Reach w w'
      → w'.session.writes ≡ 1
      → (u : World App) × (on_written boost life now w' ≡ ok u)
  on_written_total w w' st r one =
      let (u, e, st') = on_written-IsSteady w' (Reach-IsSteady st r) one in (u, e)
