-- ===== src/Server/Session/Order.antt =====
-- The order of the messages that Session (ws_server.cpp) hands to its socket.
use aimeath.Common.{
  ℕ, ◌-◌, ◌≡◌, refl, sym, ap, ◌∙◌, Bool, true, false, not, ◌&&◌, List, [], ◌∷◌, ◌++◌, ok, ◌>>=◌,
  if_by, ok-injective,
}
use mathlib.Core.Bool.{false≢true}
use mathlib.Core.List.{append_assoc}
use aimeath.Common.Json.{String}
use aimeath.Game.Api.{Boost}
use aimeath.Server.Registry.{Life}
use aimeath.Server.Session.{
  Session, World, do_cleanup, close_ws, do_write, enqueue, on_written, write_next, pop_front,
}
use aimeath.Server.Session.Writer.{IsSteady, accepted, behind, has_more}

behind-append :
    (writing : Bool) (queue : List String) (msg : String)
    → writing ≡ has_more queue
    → behind writing (queue ++ (msg ∷ [])) ≡ behind writing queue ++ (msg ∷ [])
behind-append false queue msg e = refl
behind-append true [] msg e = absurd (false≢true (sym e))
behind-append true (m ∷ queue) msg e = refl

module _ {App : Type 0} (boost : Boost) (life : Life) (now : ℕ) where
  close_ws-accepted :
      (w : World App) → accepted (close_ws boost life now w).session ≡ accepted w.session
  unfolding close_ws do_cleanup
  close_ws-accepted w =
      if_by (λ (v : World App). accepted v.session ≡ accepted w.session)
        (w.session.has_ws && not w.session.closing) _ _ (λ _. refl) λ _. refl

  -- `do_write` hands the first queued message to the socket, or none.
  do_write-accepted :
      (w : World App)
      → w.session.closing ≡ false
      → accepted (do_write boost life now w).session ≡ w.session.sent ++ w.session.write_queue
  unfolding do_write
  do_write-accepted w live = go w.session.write_queue refl
    where
      go :
          (queue : List String)
          → w.session.write_queue ≡ queue
          → accepted (write_next boost life now w queue).session ≡ w.session.sent ++ queue
      go [] e =
          let s : Session App = record w.session { writing = false } in
          if_by (λ (v : World App). accepted v.session ≡ w.session.sent ++ [])
            (s.close_after_write && not s.closing) _ _
            (λ _. close_ws-accepted (record w { session = s }) ∙ ap (λ q. w.session.sent ++ q) e)
            λ _. ap (λ q. w.session.sent ++ q) e
      go (msg ∷ msgs) e =
          if_by (λ (s : Session App). accepted s ≡ w.session.sent ++ (msg ∷ msgs)) w.session.closing
            _ _ (λ closed. absurd (false≢true (sym live ∙ closed)))
            λ _.
              ap (λ q. (w.session.sent ++ (msg ∷ [])) ++ behind true q) e
              ∙ append_assoc w.session.sent (msg ∷ []) msgs

  -- Queueing a message in a steady open session puts it last in the list of the messages that
  -- were handed to the socket or wait behind the one being written, and changes nothing else of
  -- that list.
  pub enqueue-accepted :
      (msg : String) (w : World App)
      → IsSteady w.session
      → w.session.closing ≡ false
      → accepted (enqueue boost life now msg w).session ≡ accepted w.session ++ (msg ∷ [])
  unfolding enqueue
  enqueue-accepted msg w st live =
      let s = w.session in
      let queued : World App = record w {
        session = record s { write_queue = s.write_queue ++ (msg ∷ []) };
      } in
      let Q : World App → Type 0 = λ v. accepted v.session ≡ accepted s ++ (msg ∷ []) in
      if_by Q s.closing _ _ (λ closed. absurd (false≢true (sym live ∙ closed)))
        λ _.
          if_by Q s.writing queued _
            (λ _.
              ap (λ q. s.sent ++ q) (behind-append s.writing s.write_queue msg (st.busy live).0)
              ∙ sym (append_assoc s.sent (behind s.writing s.write_queue) (msg ∷ [])))
            λ off.
              do_write-accepted queued live
              ∙ sym (append_assoc s.sent s.write_queue (msg ∷ []))
              ∙ ap (λ b. (s.sent ++ behind b s.write_queue) ++ (msg ∷ [])) (sym off)

  -- The end of a write in an open session that is writing, if it returns, neither loses nor
  -- reorders a message: the messages handed to the socket, with those that wait behind, are the
  -- same list as before.
  pub on_written-accepted :
      (w w' : World App)
      → w.session.closing ≡ false
      → w.session.writing ≡ true
      → on_written boost life now w ≡ ok w'
      → accepted w'.session ≡ accepted w.session
  unfolding on_written
  on_written-accepted w w' live on e = go w.session.write_queue refl e
    where
      after : List String → World App
      after rest = record w {
        session = record w.session { write_queue = rest; writes = w.session.writes - 1 };
      }

      go :
          (queue : List String)
          → w.session.write_queue ≡ queue
          → (pop_front queue >>= λ rest. ok (do_write boost life now (after rest))) ≡ ok w'
          → accepted w'.session ≡ accepted w.session
      go [] held e = cc
      go (msg ∷ rest) held e =
          ap (λ (v : World App). accepted v.session) (sym (ok-injective e))
          ∙ do_write-accepted (after rest) live
          ∙ ap (λ b. w.session.sent ++ behind b (msg ∷ rest)) (sym on)
          ∙ ap (λ q. w.session.sent ++ behind w.session.writing q) (sym held)
