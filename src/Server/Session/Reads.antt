-- ===== src/Server/Session/Reads.antt =====
-- The reads of Session (ws_server.cpp): on_read and what it starts.
use aimeath.Common.{
  none, ◌>>=◌, ℕ, ◌+◌, ◌≤◌, ◌≡◌, refl, sym, ap, subst, ◌∙◌, Bool, true, false, not, ◌&&◌, List, [],
  ◌∷◌, ◌++◌, some, if◌then◌else◌, Outcome, ok, undefined, arith, if_by,
}
use aimeath.Common.Json.{String, str_eq}
use aimeath.Game.Api.{Boost, error}
use aimeath.Server.Registry.{Life, remove_stashed_app}
use aimeath.Server.Session.{
  Session, World, do_cleanup, close_ws, do_write, write_next, enqueue, shut, done_by,
}
use aimeath.Server.Session.Writer.{IsSteady, close_ws-IsSteady, enqueue-IsSteady}
use aimeath.Server.Session.Closing.{closed_by}
use aimeath.Server.Session.Input.{
  is_close_window_msg, do_read, close_window, process_legacy, after_input, input_async, app_exited,
  arrived, on_read, on_task_end, ask_done, after_task,
}

module _ {App : Type 0} (boost : Boost) (life : Life) (now : ℕ) where
  -- If a read of an asynchronous session ends without an error after the session was closed,
  -- with a message other than close_window, the input goes to an application that is gone, which
  -- is undefined behaviour.
  pub on_read_closed :
      (accepted : Bool) (msg : String) (w : World App)
      → w.session.has_ws ≡ true
      → w.session.closing ≡ false
      → w.session.mod_of.is_async ≡ true
      → is_close_window_msg boost msg ≡ false
      → on_read boost life now accepted msg (close_ws boost life now w) ≡ undefined
  unfolding on_read do_cleanup
  on_read_closed accepted msg w ws live async other =
      ap (on_read boost life now accepted msg) (closed_by boost life now w ws live)
      ∙ ap
          (λ t.
            if t
            then ok (
                close_window boost life now
                  (arrived boost life now (shut boost life now (do_cleanup boost life now w))))
            else (if w.session.mod_of.is_async
                then undefined
                else ok (
                    process_legacy boost life now accepted msg (
                      arrived boost life now (shut boost life now (do_cleanup boost life now w))))))
          other
      ∙ ap
          (λ t.
            if t
            then undefined
            else ok (
                process_legacy boost life now accepted msg
                  (arrived boost life now (shut boost life now (do_cleanup boost life now w)))))
          async

  -- If an open session of an application that can tell whether it is done is closed while a task
  -- of it runs, the end of the task asks the module about an application that is gone, which is
  -- undefined behaviour.
  pub on_task_end_closed :
      (w : World App) (f : App → Bool)
      → w.session.has_ws ≡ true
      → w.session.closing ≡ false
      → w.session.mod_of.is_done ≡ some f
      → on_task_end boost life now (close_ws boost life now w) ≡ undefined
  unfolding on_task_end do_cleanup
  on_task_end_closed w f ws live asks =
      ap (on_task_end boost life now) (closed_by boost life now w ws live)
      ∙ ap
          (λ o. ask_done boost life now o none >>= λ done.
            ok (after_task boost life now done (shut boost life now (do_cleanup boost life now w))))
          asks

  -- What an input leaves: a steady session with no more reads than before.
  record Kept (reads : ℕ) (w : World App) : Type 0 where
    steady : IsSteady w.session
    bounded : w.session.reads ≤ reads

  close_ws-reads : (w : World App) → (close_ws boost life now w).session.reads ≡ w.session.reads
  unfolding close_ws do_cleanup
  close_ws-reads w =
      if_by (λ (v : World App). v.session.reads ≡ w.session.reads)
        (w.session.has_ws && not w.session.closing) _ _ (λ _. refl) λ _. refl

  do_write-reads : (w : World App) → (do_write boost life now w).session.reads ≡ w.session.reads
  unfolding do_write
  do_write-reads w = go w.session.write_queue
    where
      go :
          (queue : List String)
          → (write_next boost life now w queue).session.reads ≡ w.session.reads
      go [] =
          let s : Session App = record w.session { writing = false } in
          if_by (λ (v : World App). v.session.reads ≡ w.session.reads)
            (s.close_after_write && not s.closing) _ _
            (λ _. close_ws-reads (record w { session = s })) λ _. refl
      go (msg ∷ msgs) =
          if_by (λ (s : Session App). s.reads ≡ w.session.reads) w.session.closing _ _ (λ _. refl)
            λ _. refl

  enqueue-reads :
      (msg : String) (w : World App)
      → (enqueue boost life now msg w).session.reads ≡ w.session.reads
  unfolding enqueue
  enqueue-reads msg w =
      let P : World App → Type 0 = λ v. v.session.reads ≡ w.session.reads in
      let queued : World App = record w {
        session = record w.session { write_queue = w.session.write_queue ++ (msg ∷ []) };
      } in
      if_by P w.session.closing _ _ (λ _. refl)
        λ _. if_by P w.session.writing _ _ (λ _. refl) λ _. do_write-reads queued

  do_read-Kept :
      (n : ℕ) (w : World App) → IsSteady w.session → w.session.reads + 1 ≤ n → Kept n (do_read w)
  unfolding do_read
  do_read-Kept n w st le =
      if_by (Kept n) w.session.closing _ _
        (λ _. record { steady = st; bounded = omega (arith, le) })
        λ _. record {
          steady = record { at_most_one = st.at_most_one; held = st.held; busy = st.busy };
          bounded = le;
        }

  close_window-Kept :
      (w : World App) → IsSteady w.session → Kept w.session.reads (close_window boost life now w)
  unfolding close_window
  close_window-Kept w st =
      let w' : World App = record w {
        session = record w.session { user_close = true };
        registry =
            if str_eq w.session.window_id ""
            then w.registry
            else remove_stashed_app w.session.window_id w.registry;
      } in
      record {
        steady =
            close_ws-IsSteady boost life now w'
              (record { at_most_one = st.at_most_one; held = st.held; busy = st.busy });
        bounded = omega (arith, close_ws-reads w');
      }

  after_input-Kept :
      (n : ℕ) (a : App) (w : World App)
      → IsSteady w.session
      → w.session.reads + 1 ≤ n
      → Kept n (after_input boost life now a w)
  after_input-Kept n a w st le =
      if_by (Kept n) (done_by w.session.mod_of.is_done a) _ _
        (λ _.
          let msg = boost.serialize (app_exited w.session) in
          let st' = enqueue-IsSteady boost life now msg w st in
          record {
            steady = record { at_most_one = st'.at_most_one; held = st'.held; busy = st'.busy };
            bounded = omega (arith, le, enqueue-reads msg w);
          })
        λ _. do_read-Kept n w st le

  process_legacy-Kept :
      (accepted : Bool) (msg : String) (n : ℕ) (w : World App)
      → IsSteady w.session
      → w.session.reads + 1 ≤ n
      → Kept n (process_legacy boost life now accepted msg w)
  unfolding process_legacy
  process_legacy-Kept accepted msg n w st le =
      let text = boost.serialize (error "server overloaded, please retry") in
      let closed = close_window-Kept w st in
      if_by (Kept n) (is_close_window_msg boost msg) _ _
        (λ _. record { steady = closed.steady; bounded = omega (arith, le, closed.bounded) })
        λ _.
          if_by (Kept n) accepted _ _ (λ _. record { steady = st; bounded = omega (arith, le) })
            λ _.
              do_read-Kept n (enqueue boost life now text w)
                (enqueue-IsSteady boost life now text w st)
                (omega (arith, le, enqueue-reads text w))

  -- In a steady session that has its application and one outstanding read, any message is
  -- handled without a fault and leaves a steady session with at most one outstanding read.
  pub on_read_total :
      (accepted : Bool) (msg : String) (w : World App) (a : App)
      → IsSteady w.session
      → w.session.app ≡ some a
      → w.session.reads ≡ 1
      → (w' : World App) × (on_read boost life now accepted msg w ≡ ok w')
        × IsSteady w'.session
        × (w'.session.reads ≤ 1)
  unfolding on_read
  on_read_total accepted msg w a st has one =
      let w₀ = arrived boost life now w in
      let st₀ : IsSteady w₀.session = record {
        at_most_one = st.at_most_one;
        held = st.held;
        busy = st.busy;
      } in
      let P : Outcome (World App) → Type 0 =
        λ o. (w' : World App) × (o ≡ ok w') × IsSteady w'.session × (w'.session.reads ≤ 1) in
      let closed = close_window-Kept w₀ st₀ in
      let legacy = process_legacy-Kept accepted msg 1 w₀ st₀ (omega (arith, one)) in
      let a' = w.session.mod_of.on_input a msg in
      let heard : World App = record w₀ { session = record w₀.session { app = some a' } } in
      let input =
        after_input-Kept 1 a' heard
          (record { at_most_one = st.at_most_one; held = st.held; busy = st.busy })
          (omega (arith, one)) in
      if_by P (is_close_window_msg boost msg) _ _
        (λ _. (_, refl, closed.steady, omega (arith, one, closed.bounded)))
        λ _.
          if_by P w.session.mod_of.is_async _ _
            (λ _.
              subst (λ o. P (input_async boost life now msg w₀ o)) (sym has)
                (_, refl, input.steady, input.bounded))
            λ _. (_, refl, legacy.steady, legacy.bounded)
