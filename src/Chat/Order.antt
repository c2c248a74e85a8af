-- ===== src/Chat/Order.antt =====
-- The messages of a room in their order (chat_server.cpp).
use aimeath.Common.{
  ◌+◌, ◌≡◌, refl, sym, subst, ◌∙◌, ap, true, false, List, [], ◌∷◌, ◌++◌, none, length, if_by, arith,
}
use mathlib.Core.Bool.{false≢true}
use mathlib.Core.List.{append_assoc, append-nil}
use aimeath.Common.Json.{String, Members}
use aimeath.Common.Ends.{Ends, Ends-map, Ends-if_cases}
use aimeath.Core.Queue.{push, try_pop, take_first}
use aimeath.Game.Api.{Boost}
use aimeath.Chat.{
  Callback, remember, go_on, Agent, Chat, is_end, add_missing, user_message, emit, process_next,
}
use aimeath.Chat.Room.{
  handle_user_message, handle_next, process_next_in_queue, push_output, accept_text, on_stream,
  remembered, on_response,
}
use aimeath.Chat.Talks.{process_next-Turned}
use aimeath.Chat.Kept.{NamesTalk, Turned, Same, Turned-Same}
use aimeath.Chat.Listen.{Same-emit}
use aimeath.Chat.Handled.{
  text_of, cons_some, texts_of, texts_of-append, IsOrdered, Handled, handle_user_message-Handled,
  Handled-IsOrdered,
}

module _ (boost : Boost) where
  pub accept_text-IsOrdered :
      (texts : List String) (text : String) (c : Chat)
      → IsOrdered texts c
      → Ends ⊥ (IsOrdered (texts ++ text ∷ [])) (accept_text boost text c)
  unfolding accept_text push
  accept_text-IsOrdered texts text c inv =
      Ends-if_cases ⊥ _ c.streaming _ _
        (λ streams.
          if_by (λ q. IsOrdered (texts ++ text ∷ []) (record c { input_queue = q }))
            c.input_queue.is_shutdown _ _ (λ down. absurd (false≢true (sym inv.running ∙ down)))
            (λ _. record {
              talks = record { talks = inv.talks.talks; callbacks = inv.talks.callbacks };
              live = inv.live;
              running = inv.running;
              order =
                  sym (append_assoc (texts_of c.history) c.input_queue.items (text ∷ []))
                  ∙ ap (λ ts. ts ++ text ∷ []) inv.order;
              idle = λ stops. absurd (false≢true (sym stops ∙ streams));
              rounds = inv.rounds;
            }))
        (λ stops.
          let c₁ = record c { streaming = true; round = c.round + 1 } in
          let none_wait = inv.idle stops in
          Ends-map ⊥ (Handled boost (user_message text c.display_name) c₁) _
            (handle_user_message boost text c.display_name c₁)
            (λ c' handled.
              Handled-IsOrdered boost (texts ++ text ∷ []) text c.display_name c₁ c' inv.live
                inv.running
                (ap (λ q. texts_of c.history ++ text ∷ q) none_wait
                  ∙ ap (λ ts. ts ++ text ∷ [])
                      (sym (append-nil (texts_of c.history))
                        ∙ ap (λ q. texts_of c.history ++ q) (sym none_wait)
                        ∙ inv.order))
                refl (omega (arith, inv.rounds)) handled)
            (handle_user_message-Handled boost text c.display_name c₁
              (record { talks = inv.talks.talks; callbacks = inv.talks.callbacks })))

  -- The room after a stream has ended, with the texts that wait.
  process_next_in_queue-IsOrdered :
      (texts : List String) (c : Chat)
      → IsOrdered texts c
      → Ends ⊥ (IsOrdered texts) (process_next_in_queue boost (record c { streaming = false }))
  unfolding process_next_in_queue try_pop
  process_next_in_queue-IsOrdered texts c inv =
      Ends-if_cases ⊥ (IsOrdered texts) c.cancelled _ _
        (λ stopped. absurd (false≢true (sym inv.live ∙ stopped))) (λ _. go c.input_queue.items refl)
    where
      go :
          (items : List String)
          → c.input_queue.items ≡ items
          → Ends ⊥
              (IsOrdered texts)
              (handle_next boost (record c { streaming = false }) (take_first items c.input_queue))
      go [] e = record {
        talks = record { talks = inv.talks.talks; callbacks = inv.talks.callbacks };
        live = inv.live;
        running = inv.running;
        order = inv.order;
        idle = λ _. e;
        rounds = inv.rounds;
      }
      go (text ∷ items) e =
          let c₁ = record c {
            input_queue = record c.input_queue { items = items };
            streaming = true;
            round = c.round + 1;
          } in
          Ends-map ⊥ (Handled boost (user_message text "用户") c₁) (IsOrdered texts)
            (handle_user_message boost text "用户" c₁)
            (λ c' handled.
              Handled-IsOrdered boost texts text "用户" c₁ c' inv.live inv.running
                (ap (λ q. texts_of c.history ++ q) (sym e) ∙ inv.order) refl
                (omega (arith, inv.rounds)) handled)
            (handle_user_message-Handled boost text "用户" c₁
              (record { talks = inv.talks.talks; callbacks = inv.talks.callbacks }))

  -- A turn of a conversation.
  Turned-IsOrdered :
      (texts : List String) (c c' : Chat) → IsOrdered texts c → Turned c c' → IsOrdered texts c'
  Turned-IsOrdered texts c c' inv turned =
      let (h, q, x, s, r) = turned.kept in
      record {
        talks = turned.sound;
        live = x ∙ inv.live;
        running = ap (λ q. q.is_shutdown) q ∙ inv.running;
        order =
            ap (λ q. texts_of c'.history ++ q.items) q
            ∙ ap (λ h. texts_of h ++ c.input_queue.items) h
            ∙ inv.order;
        idle = λ stops. ap (λ q. q.items) q ∙ inv.idle (sym s ∙ stops);
        rounds = r ∙ inv.rounds ∙ ap (λ h. length (texts_of h)) (sym h);
      }

  -- Only the outputs differ.
  Same-IsOrdered :
      (texts : List String) (c c' : Chat) → IsOrdered texts c → Same c c' → IsOrdered texts c'
  Same-IsOrdered texts c c' inv same =
      Turned-IsOrdered texts c c' inv (Turned-Same c c' inv.talks same)

  pub push_output-IsOrdered :
      (texts : List String) (o : Members) (c : Chat)
      → IsOrdered texts c
      → Ends ⊥ (IsOrdered texts) (push_output boost o c)
  unfolding push_output
  push_output-IsOrdered texts o c inv =
      let inv' = Same-IsOrdered texts c (emit boost o c) inv (Same-emit boost o c) in
      Ends-if_cases ⊥ (IsOrdered texts) (is_end o) _ _
        (λ _. process_next_in_queue-IsOrdered texts (emit boost o c) inv') (λ _. inv')

  pub on_stream-IsOrdered :
      (texts : List String) (a : Agent) (o : Members) (c : Chat)
      → IsOrdered texts c
      → Ends ⊥ (IsOrdered texts) (on_stream boost a o c)
  unfolding on_stream
  on_stream-IsOrdered texts a o c inv =
      Ends-if_cases ⊥ (IsOrdered texts) c.cancelled _ _ (λ _. inv)
        (λ _.
          push_output-IsOrdered texts
            (add_missing "sender_avatar" a.avatar (add_missing "sender_name" a.name o)) c inv)

  -- A message that is no user's comes to the history.
  remembered-IsOrdered :
      (texts : List String) (msg : Members) (c : Chat)
      → text_of msg ≡ none
      → IsOrdered texts c
      → IsOrdered texts (remembered boost msg c)
  remembered-IsOrdered texts msg c other inv =
      if_by (IsOrdered texts) c.cancelled _ _ (λ _. inv)
        (λ _.
          let same : texts_of (c.history ++ msg ∷ []) ≡ texts_of c.history =
            texts_of-append c.history msg
            ∙ ap (λ o. texts_of c.history ++ cons_some o []) other
            ∙ append-nil (texts_of c.history) in
          record {
            talks = record { talks = inv.talks.talks; callbacks = inv.talks.callbacks };
            live = inv.live;
            running = inv.running;
            order = ap (λ ts. ts ++ c.input_queue.items) same ∙ inv.order;
            idle = inv.idle;
            rounds = inv.rounds ∙ ap length (sym same);
          })

  pub on_response-IsOrdered :
      (texts : List String) (cb : Callback) (msg : Members) (c : Chat)
      → text_of msg ≡ none
      → NamesTalk (length c.talks) cb
      → IsOrdered texts c
      → Ends ⊥ (IsOrdered texts) (on_response boost cb msg c)
  unfolding on_response
  on_response-IsOrdered texts remember msg c other calls inv =
      remembered-IsOrdered texts msg c other inv
  on_response-IsOrdered texts (go_on k) msg c other calls inv =
      let c' = remembered boost msg c in
      let inv' = remembered-IsOrdered texts msg c other inv in
      let agents : length c'.agents ≡ length c.agents =
        if_by (λ (c' : Chat). length c'.agents ≡ length c.agents) c.cancelled _ _ (λ _. refl)
          (λ _. refl) in
      let talks : length c'.talks ≡ length c.talks =
        if_by (λ (c' : Chat). length c'.talks ≡ length c.talks) c.cancelled _ _ (λ _. refl)
          (λ _. refl) in
      subst (λ n. Ends ⊥ (IsOrdered texts) (process_next boost (n + 2) k c')) agents
        (Ends-map ⊥ (Turned c') (IsOrdered texts) (process_next boost (length c'.agents + 2) k c')
          (λ c'' turned. Turned-IsOrdered texts c' c'' inv' turned)
          (process_next-Turned boost k c' inv'.talks (omega (arith, talks, calls))))
