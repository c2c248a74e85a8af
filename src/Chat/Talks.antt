-- ===== src/Chat/Talks.antt =====
-- The conversations of a room (chat_server.cpp): what `processNext` keeps.
use aimeath.Common.{
  ℕ, zero, suc, ◌+◌, ◌<◌, ◌≡◌, refl, sym, subst, ◌∙◌, ap, false, Option, some, get_elem?, set,
  length, ltb, Outcome, if_by, arith,
}
use mathlib.Core.Bool.{false≢true}
use aimeath.Common.Json.{String, str_eq}
use aimeath.Common.Ends.{Ends, Ends-map, Ends-if_cases}
use aimeath.Game.Api.{Boost}
use aimeath.Chat.{
  Agent, Talk, Chat, on_user_message, listen, ask, turn_of, take_turn, process_at, process_next,
}
use aimeath.Chat.Kept.{
  get_elem?-some, get_elem?-lt, get_elem?-set, All-at, IsTalk, AreTalks, Turned, Turned-trans,
  Turned-Same,
}
use aimeath.Chat.Listen.{Same-on_user_message, finish_talk-Turned, Turned-set, listen-Turned}

module _ (boost : Boost) where
  module _ (k : ℕ) where
    -- The agent is asked, and then listened to.
    listen-on_user_message-Turned :
        (i : ℕ) (t : Talk) (a : Agent) (prompt sender : String) (c : Chat)
        → AreTalks c
        → k < length c.talks
        → IsTalk (length c.agents) t
        → i < length c.agents
        → Ends ⊥ (Turned c) (listen boost k i t a (on_user_message boost a prompt sender c))
    listen-on_user_message-Turned i t a prompt sender c sound lt talk i_lt =
        let c' = on_user_message boost a prompt sender c in
        let same = Same-on_user_message boost a prompt sender c in
        let first = Turned-Same c c' sound same in
        let n = ap length same.agents in
        Ends-map ⊥ (Turned c') (Turned c) (listen boost k i t a c')
          (λ c'' second. Turned-trans c c' c'' first second)
          (listen-Turned boost k i t a c' first.sound (omega (arith, lt, first.more))
            (subst (λ n. IsTalk n t) (sym n) talk) (omega (arith, n, i_lt)))

    ask-Turned :
        (t : Talk) (i : ℕ) (next : Chat → Outcome Chat) (c : Chat)
        → AreTalks c
        → k < length c.talks
        → IsTalk (length c.agents) t
        → i < length c.agents
        → (str_eq t.target "" ≡ false → Ends ⊥ (Turned c) (next c))
        → Ends ⊥ (Turned c) (ask boost k t i next (get_elem? c.agents i) c)
    ask-Turned t i next c sound lt talk i_lt rest =
        let (a, e) = get_elem?-some c.agents i i_lt in
        subst (λ o. Ends ⊥ (Turned c) (ask boost k t i next o c)) (sym e)
          (Ends-if_cases ⊥ (Turned c) (str_eq t.target "") _ _
            (λ _. listen-on_user_message-Turned i t a _ t.sender c sound lt talk i_lt)
            (λ named.
              Ends-if_cases ⊥ (Turned c) (str_eq a.name t.target) _ _
                (λ _. listen-on_user_message-Turned i t a t.actual t.sender c sound lt talk i_lt)
                (λ _. rest named)))

    -- `next` ends well, if it has the fuel for the agents that are left.
    abbrev Goes : ℕ → (Chat → Outcome Chat) → Type 0
    Goes fuel next =
        (t : Talk) (c : Chat)
        → AreTalks c
        → get_elem? c.talks k ≡ some t
        → 0 < fuel
        → length c.agents < t.idx + fuel
        → Ends ⊥ (Turned c) (next c)

    -- The turn of the agent `i`, after the variables have moved on to `t`.
    take_turn-Turned :
        (fuel : ℕ) (next : Chat → Outcome Chat) (t : Talk) (i : ℕ) (c : Chat)
        → Goes fuel next
        → AreTalks c
        → k < length c.talks
        → IsTalk (length c.agents) t
        → i < length c.agents
        → (str_eq t.target "" ≡ false → (0 < fuel) × (length c.agents < t.idx + fuel))
        → Ends ⊥ (Turned c) (take_turn boost k next (t, some i) c)
    take_turn-Turned fuel next t i c goes sound lt talk i_lt enough =
        let c' = record c { talks = set c.talks k t } in
        let first = Turned-set boost k t c sound talk in
        Ends-map ⊥ (Turned c') (Turned c) (ask boost k t i next (get_elem? c.agents i) c')
          (λ c'' second. Turned-trans c c' c'' first second)
          (ask-Turned t i next c' first.sound (omega (arith, lt, first.more)) talk i_lt (λ named.
            let (some_fuel, more) = enough named in
            goes t c' first.sound (get_elem?-set c.talks k t lt) some_fuel more))

    take_turn-turn_of-Turned :
        (fuel : ℕ) (next : Chat → Outcome Chat) (t : Talk) (c : Chat)
        → Goes fuel next
        → AreTalks c
        → k < length c.talks
        → IsTalk (length c.agents) t
        → length c.agents < t.idx + suc fuel
        → Ends ⊥ (Turned c) (take_turn boost k next (turn_of boost (length c.agents) t) c)
    unfolding turn_of
    take_turn-turn_of-Turned fuel next t c goes sound lt talk enough =
        let P : Talk × Option ℕ → Type 0 = λ r. Ends ⊥ (Turned c) (take_turn boost k next r c) in
        let moved : (idx round : ℕ)
            → IsTalk (length c.agents) (record t { idx = idx; round = round }) =
          λ idx round. record { slots = talk.slots; someone = talk.someone; alone = talk.alone } in
        if_by P (ltb t.idx (length c.agents)) _ _
          (λ left.
            take_turn-Turned fuel next (record t { idx = t.idx + 1 }) t.idx c goes sound lt
              (moved (t.idx + 1) t.round) (ground arith) (λ _. ground arith))
          (λ _.
            if_by P t.auto_loop _ _
              (λ auto.
                if_by P (ltb t.round 10) _ _
                  (λ _.
                    take_turn-Turned fuel next (record t { idx = 1; round = t.round + 1 }) 0 c goes
                      sound lt (moved 1 (t.round + 1)) talk.someone
                      (λ named. absurd (false≢true (sym named ∙ talk.alone auto))))
                  (λ _.
                    finish_talk-Turned boost k (record t { idx = t.idx + 1; round = t.round + 1 }) c
                      sound lt (moved (t.idx + 1) (t.round + 1))))
              (λ _.
                finish_talk-Turned boost k (record t { idx = t.idx + 1 }) c sound lt
                  (moved (t.idx + 1) t.round)))

    process_next-Goes : (fuel : ℕ) → Goes fuel (process_next boost fuel k)
    unfolding process_next
    process_next-Goes zero t c sound e some_fuel enough = absurd (omega arith)
    process_next-Goes (suc fuel) t c sound e some_fuel enough =
        Ends-if_cases ⊥ (Turned c) c.cancelled _ _
          (λ _. record {
            kept = (refl, refl, refl, refl, refl);
            agents = refl;
            more = omega arith;
            sound = sound;
          })
          (λ _.
            subst (λ o. Ends ⊥ (Turned c) (process_at boost k (process_next boost fuel k) o c))
              (sym e)
              (take_turn-turn_of-Turned fuel (process_next boost fuel k) t c
                (process_next-Goes fuel) sound (get_elem?-lt c.talks k t e)
                (All-at (IsTalk (length c.agents)) c.talks k t sound.talks e) enough))

    -- The fuel of two more than the agents is enough, whatever the variables are.
    pub process_next-Turned :
        (c : Chat)
        → AreTalks c
        → k < length c.talks
        → Ends ⊥ (Turned c) (process_next boost (length c.agents + 2) k c)
    process_next-Turned c sound lt =
        let (t, e) = get_elem?-some c.talks k lt in
        process_next-Goes (length c.agents + 2) t c sound e (omega arith) (omega arith)
