-- ===== src/Chat/Listen.antt =====
-- The parts of processNext in a room (chat_server.cpp): the callbacks that it sets and gives back.
use aimeath.Common.{
  ℕ, suc, ◌<◌, ◌≡◌, refl, sym, subst, ◌∙◌, ap, Bool, true, List, [], ◌∷◌, set, length, length-set,
  ltb, if_by, arith,
}
use aimeath.Common.Json.{String, Members}
use aimeath.Common.Ends.{Ends, Ends->>=, Ends-if_cases}
use aimeath.Game.Api.{Boost}
use aimeath.Chat.{
  go_on, Agent, Talk, Asked, Chat, emit, on_user_message, give_back, finish_talk, listen,
}
use aimeath.Chat.Kept.{All, All-set, IsTalk, CallsTalk, AreTalks, Turned, Same}

module _ (boost : Boost) where
  pub Same-emit : (o : Members) (c : Chat) → Same c (emit boost o c)
  unfolding emit
  Same-emit o c =
      if_by (Same c) c.has_output _ _
        (λ _. record { kept = (refl, refl, refl, refl, refl); agents = refl; talks = refl })
        (λ _. record { kept = (refl, refl, refl, refl, refl); agents = refl; talks = refl })

  pub Same-on_user_message :
      (a : Agent) (prompt sender : String) (c : Chat)
      → Same c (on_user_message boost a prompt sender c)
  unfolding on_user_message
  Same-on_user_message a prompt sender c = asks (
      if_by (Same c) c.cancelled _ _
        (λ _. record { kept = (refl, refl, refl, refl, refl); agents = refl; talks = refl })
        (λ _. Same-emit _ c))
    where
      asks : {c' : Chat} {more : List Asked} → Same c c' → Same c (record c' { asked = more })
      asks same = record { kept = same.kept; agents = same.agents; talks = same.talks }

  module _ (k : ℕ) where
    pub give_back-ok :
        (talks : ℕ) (agents : List Agent) (slots : List Bool)
        → k < talks
        → length slots ≡ length agents
        → All (CallsTalk talks) agents
        → Ends ⊥
            (λ r.
              (length r.0 ≡ length agents)
              × (length r.1 ≡ length slots)
              × All (CallsTalk talks) r.0)
            (give_back boost k agents slots)
    unfolding give_back
    give_back-ok talks [] slots lt e calls = (refl, refl, tt)
    give_back-ok talks (a ∷ agents) [] lt e calls = absurd (omega (arith, e))
    give_back-ok talks (a ∷ agents) (held ∷ slots) lt e calls =
        Ends->>= ⊥ _ _ (give_back boost k agents slots) _
          (give_back-ok talks agents slots lt (omega (arith, e)) calls.1)
          λ (agents', slots') (ea, es, calls'). (
            ap suc ea,
            ap suc es,
            (if_by (CallsTalk talks) held _ _ (λ _. lt) (λ _. calls.0), calls'),
          )

    pub finish_talk-Turned :
        (t : Talk) (c : Chat)
        → AreTalks c
        → k < length c.talks
        → IsTalk (length c.agents) t
        → Ends ⊥ (Turned c) (finish_talk boost k t c)
    unfolding finish_talk
    finish_talk-Turned t c sound lt talk =
        Ends->>= ⊥ _ (Turned c) (give_back boost k c.agents t.slots) _
          (give_back-ok (length c.talks) c.agents t.slots lt talk.slots sound.callbacks)
          λ (agents, slots) (ea, es, calls). record {
            kept = (refl, refl, refl, refl, refl);
            agents = ea;
            more = omega (arith, length-set c.talks k (record t { slots = slots }));
            sound = record {
              talks =
                  subst (λ n. All (IsTalk n) (set c.talks k (record t { slots = slots }))) (sym ea)
                    (All-set (IsTalk (length c.agents)) c.talks k _
                      (record {
                        slots = es ∙ talk.slots;
                        someone = talk.someone;
                        alone = talk.alone;
                      })
                      sound.talks);
              callbacks =
                  subst (λ n. All (CallsTalk n) agents)
                    (sym (length-set c.talks k (record t { slots = slots }))) calls;
            };
          }

    -- A conversation whose variables have moved on.
    pub AreTalks-set :
        (t : Talk) (c : Chat)
        → AreTalks c
        → IsTalk (length c.agents) t
        → AreTalks (record c { talks = set c.talks k t })
    AreTalks-set t c sound talk = record {
      talks = All-set (IsTalk (length c.agents)) c.talks k t talk sound.talks;
      callbacks =
          subst (λ n. All (CallsTalk n) c.agents) (sym (length-set c.talks k t)) sound.callbacks;
    }

    pub Turned-set :
        (t : Talk) (c : Chat)
        → AreTalks c
        → IsTalk (length c.agents) t
        → Turned c (record c { talks = set c.talks k t })
    Turned-set t c sound talk = record {
      kept = (refl, refl, refl, refl, refl);
      agents = refl;
      more = omega (arith, length-set c.talks k t);
      sound = AreTalks-set t c sound talk;
    }

    pub listen-Turned :
        (i : ℕ) (t : Talk) (a : Agent) (c : Chat)
        → AreTalks c
        → k < length c.talks
        → IsTalk (length c.agents) t
        → i < length c.agents
        → Ends ⊥ (Turned c) (listen boost k i t a c)
    unfolding listen
    listen-Turned i t a c sound lt talk i_lt =
        Ends-if_cases ⊥ (Turned c) (ltb i (length t.slots)) _ _
          (λ _.
            let t' = record t { slots = set t.slots i true } in
            let ea = length-set c.agents i (record a { callback = go_on k }) in
            let talk' : IsTalk (length c.agents) t' = record {
              slots = length-set t.slots i true ∙ talk.slots;
              someone = talk.someone;
              alone = talk.alone;
            } in
            record {
              kept = (refl, refl, refl, refl, refl);
              agents = ea;
              more = omega (arith, length-set c.talks k t');
              sound = record {
                talks =
                    subst (λ n. All (IsTalk n) (set c.talks k t')) (sym ea)
                      (All-set (IsTalk (length c.agents)) c.talks k t' talk' sound.talks);
                callbacks =
                    subst
                      (λ n. All (CallsTalk n) (set c.agents i (record a { callback = go_on k })))
                      (sym (length-set c.talks k t'))
                      (All-set (CallsTalk (length c.talks)) c.agents i _ lt sound.callbacks);
              };
            })
          (λ out. absurd (ground (arith, talk.slots)))
