-- ===== src/Chat/Turns.antt =====
-- The turns of the agents of a room (chat_server.cpp): whom `processNext` asks.
use aimeath.Common.{
  ℕ, zero, suc, ◌≡◌, refl, sym, subst, ◌∙◌, ap, Bool, true, false, List, [], ◌∷◌, ◌++◌, Option,
  none, some, get_elem?, set, length, length-set, ltb, map, if_by, arith, Outcome,
}
use mathlib.Core.Bool.{false≢true}
use mathlib.Core.List.{map-append, append-nil}
use aimeath.Common.Json.{String, str_eq, Members}
use aimeath.Common.Ends.{Ends, Ends->>=, Ends-if_cases}
use aimeath.Game.Api.{Boost}
use aimeath.Chat.{
  go_on, Agent, Talk, Asked, Chat, emit, on_user_message, messages_of, give_back, finish_talk,
  listen, ask, turn_of, take_turn, process_at, process_next,
}
use aimeath.Chat.Kept.{some_injective, get_elem?-set, get_elem?-lt, All-at, IsTalk, AreTalks}
use aimeath.Chat.Listen.{Same-on_user_message}
use aimeath.Chat.Schedule.{take, drop, left, Takes, turn_of-Takes}

abbrev pub names_of : List Agent → List String
names_of = map (λ a. a.name)

-- The agents that were asked, in their order.
abbrev pub asked_of : Chat → List String
asked_of c = map (λ q. q.agent) c.asked

-- The conversation `k` goes on in the room, addressed to all agents, and these are left to ask.
pub record IsOpen (k : ℕ) (names rest : List String) (c : Chat) : Type 0 where
  pub talk : Talk
  pub here : get_elem? c.talks k ≡ some talk
  pub everyone : str_eq talk.target "" ≡ true
  pub live : c.cancelled ≡ false
  pub agents : names_of c.agents ≡ names
  pub ahead : left names talk ≡ rest

-- One turn: the first agent that is left is asked, if there is one.
abbrev pub Asks : ℕ → List String → List String → Chat → Chat → Type 0
Asks k names ahead c c' =
    IsOpen k names (drop 1 ahead) c' × (asked_of c' ≡ asked_of c ++ take 1 ahead)

names_of-set :
    (agents : List Agent) (i : ℕ) (a b : Agent)
    → get_elem? agents i ≡ some a
    → b.name ≡ a.name
    → names_of (set agents i b) ≡ names_of agents
names_of-set [] i a b e same = cc
names_of-set (x ∷ agents) zero a b e same =
    ap (λ n. n ∷ names_of agents) (same ∙ sym (ap (λ y. y.name) (some_injective e)))
names_of-set (x ∷ agents) (suc i) a b e same =
    ap (λ xs. x.name ∷ xs) (names_of-set agents i a b e same)

length-names_of : (agents : List Agent) → length (names_of agents) ≡ length agents
length-names_of [] = refl
length-names_of (a ∷ agents) = ap suc (length-names_of agents)

get_elem?-names_of :
    (agents : List Agent) (i : ℕ) (name : String)
    → get_elem? (names_of agents) i ≡ some name
    → (a : Agent) × (get_elem? agents i ≡ some a) × (a.name ≡ name)
get_elem?-names_of [] i name e = cc
get_elem?-names_of (a ∷ agents) zero name e = (a, refl, cc)
get_elem?-names_of (a ∷ agents) (suc i) name e = get_elem?-names_of agents i name e

module _ (boost : Boost) where
  emit-asked : (o : Members) (c : Chat) → (emit boost o c).asked ≡ c.asked
  unfolding emit
  emit-asked o c = if_by (λ (d : Chat). d.asked ≡ c.asked) c.has_output _ _ (λ _. refl) (λ _. refl)

  asked_of-on_user_message :
      (a : Agent) (prompt sender : String) (c : Chat)
      → asked_of (on_user_message boost a prompt sender c) ≡ asked_of c ++ a.name ∷ []
  unfolding on_user_message
  asked_of-on_user_message a prompt sender c =
      let q : Asked = record {
        agent = a.name;
        prompt = prompt;
        sender = sender;
        room_history = c.history;
        messages = messages_of a c.history;
      } in
      if_by (λ (d : Chat). map (λ q. q.agent) (d.asked ++ q ∷ []) ≡ asked_of c ++ a.name ∷ [])
        c.cancelled _ _ (λ _. map-append (λ q. q.agent) c.asked (q ∷ []))
        (λ _.
          ap (λ qs. map (λ q. q.agent) (qs ++ q ∷ [])) (emit-asked _ c)
          ∙ map-append (λ q. q.agent) c.asked (q ∷ []))

  names_of-give_back :
      (k : ℕ) (agents : List Agent) (slots : List Bool)
      → length slots ≡ length agents
      → Ends ⊥ (λ r. names_of r.0 ≡ names_of agents) (give_back boost k agents slots)
  unfolding give_back
  names_of-give_back k [] slots e = refl
  names_of-give_back k (a ∷ agents) [] e = absurd (omega (arith, e))
  names_of-give_back k (a ∷ agents) (held ∷ slots) e =
      Ends->>= ⊥ _ _ (give_back boost k agents slots) _
        (names_of-give_back k agents slots (omega (arith, e)))
        λ (agents', slots') same.
          if_by (λ (b : Agent). b.name ∷ names_of agents' ≡ a.name ∷ names_of agents) held _ _
            (λ _. ap (λ xs. a.name ∷ xs) same) (λ _. ap (λ xs. a.name ∷ xs) same)

  finish_talk-Asks :
      (k : ℕ) (names ahead : List String) (t : Talk) (c : Chat)
      → IsOpen k names ahead c
      → ahead ≡ []
      → left names t ≡ []
      → str_eq t.target "" ≡ true
      → length t.slots ≡ length c.agents
      → Ends ⊥ (Asks k names ahead c) (finish_talk boost k t c)
  unfolding finish_talk
  finish_talk-Asks k names ahead t c going over over' everyone slots =
      Ends->>= ⊥ _ _ (give_back boost k c.agents t.slots) _
        (names_of-give_back k c.agents t.slots slots)
        λ (agents', slots') same. (
          record {
            talk = record t { slots = slots' };
            here = get_elem?-set c.talks k _ (get_elem?-lt c.talks k _ going.here);
            everyone = everyone;
            live = going.live;
            agents = same ∙ going.agents;
            ahead = over' ∙ sym (ap (drop 1) over);
          },
          sym (append-nil (asked_of c)) ∙ ap (λ xs. asked_of c ++ take 1 xs) (sym over),
        )

  listen-Asks :
      (k : ℕ) (names ahead : List String) (i : ℕ) (t : Talk) (a : Agent) (prompt sender : String)
      (c : Chat)
      → IsOpen k names ahead c
      → get_elem? c.agents i ≡ some a
      → ahead ≡ a.name ∷ left names t
      → str_eq t.target "" ≡ true
      → length t.slots ≡ length c.agents
      → Ends ⊥ (Asks k names ahead c) (
          listen boost k i t a
            (on_user_message boost a prompt sender (record c { talks = set c.talks k t })))
  unfolding listen
  listen-Asks k names ahead i t a prompt sender c going at split everyone slots =
      let c₁ = record c { talks = set c.talks k t } in
      let c₂ = on_user_message boost a prompt sender c₁ in
      let same = Same-on_user_message boost a prompt sender c₁ in
      Ends-if_cases ⊥ (Asks k names ahead c) (ltb i (length t.slots)) _ _
        (λ _.
          let (h, q, live, s, r) = same.kept in
          let a' : Agent = record a { callback = go_on k } in
          (
            record {
              talk = record t { slots = set t.slots i true };
              here = get_elem?-set c₂.talks k _ (
                  omega (
                    arith,
                    ap length same.talks,
                    length-set c.talks k t,
                    get_elem?-lt c.talks k _ going.here,
                  ));
              everyone = everyone;
              live = live ∙ going.live;
              agents =
                  names_of-set c₂.agents i a a' (ap (λ as'. get_elem? as' i) same.agents ∙ at) refl
                  ∙ ap names_of same.agents
                  ∙ going.agents;
              ahead = sym (ap (drop 1) split);
            },
            asked_of-on_user_message a prompt sender c₁
                ∙ ap (λ xs. asked_of c ++ take 1 xs) (sym split),
          ))
        (λ out. absurd (ground (arith, slots, get_elem?-lt c.agents i a at)))

  -- A turn changes neither the addressee nor the callbacks.
  abbrev Moves : Talk → Talk × Option ℕ → Type 0
  Moves t r = (r.0.target ≡ t.target) × (r.0.slots ≡ t.slots)

  turn_of-Moves : (agents : ℕ) (t : Talk) → Moves t (turn_of boost agents t)
  unfolding turn_of
  turn_of-Moves agents t =
      if_by (Moves t) (ltb t.idx agents) _ _ (λ _. (refl, refl))
        (λ _.
          if_by (Moves t) t.auto_loop _ _
            (λ _. if_by (Moves t) (ltb t.round 10) _ _ (λ _. (refl, refl)) (λ _. (refl, refl)))
            (λ _. (refl, refl)))

  take_turn-Asks :
      (k : ℕ) (names ahead : List String) (next : Chat → Outcome Chat) (c : Chat)
      (going : IsOpen k names ahead c)
      → length going.talk.slots ≡ length c.agents
      → (r : Talk × Option ℕ) → Takes names going.talk r
      → Moves going.talk r
      → Ends ⊥ (Asks k names ahead c) (take_turn boost k next r c)
  take_turn-Asks k names ahead next c going slots (t, none) (over, over') (target, same) =
      finish_talk-Asks k names ahead t c going (sym going.ahead ∙ over) over'
        (ap (λ s. str_eq s "") target ∙ going.everyone) (ap length same ∙ slots)
  take_turn-Asks k names ahead next c going slots (t, some i) (name, at, split) (target, same) =
      let (a, here, named) =
        get_elem?-names_of c.agents i name (ap (λ xs. get_elem? xs i) going.agents ∙ at) in
      let everyone : str_eq t.target "" ≡ true = ap (λ s. str_eq s "") target ∙ going.everyone in
      subst
        (λ o.
          Ends ⊥ (Asks k names ahead c)
            (ask boost k t i next o (record c { talks = set c.talks k t })))
        (sym here)
        (Ends-if_cases ⊥ (Asks k names ahead c) (str_eq t.target "") _ _
          (λ _.
            listen-Asks k names ahead i t a _ t.sender c going here
              (sym going.ahead ∙ split ∙ ap (λ n. n ∷ left names t) (sym named)) everyone
              (ap length same ∙ slots))
          (λ named. absurd (false≢true (sym named ∙ everyone))))

  pub process_next-Asks :
      (fuel k : ℕ) (names ahead : List String) (c : Chat)
      → AreTalks c
      → IsOpen k names ahead c
      → Ends ⊥ (Asks k names ahead c) (process_next boost (suc fuel) k c)
  unfolding process_next
  process_next-Asks fuel k names ahead c sound going =
      let talk = All-at (IsTalk (length c.agents)) c.talks k going.talk sound.talks going.here in
      let n : length c.agents ≡ length names =
        sym (length-names_of c.agents) ∙ ap length going.agents in
      Ends-if_cases ⊥ (Asks k names ahead c) c.cancelled _ _
        (λ stopped. absurd (false≢true (sym going.live ∙ stopped)))
        (λ _.
          subst
            (λ o.
              Ends ⊥ (Asks k names ahead c) (process_at boost k (process_next boost fuel k) o c))
            (sym going.here)
            (take_turn-Asks k names ahead (process_next boost fuel k) c going talk.slots
              (turn_of boost (length c.agents) going.talk)
              (subst (λ m. Takes names going.talk (turn_of boost m going.talk)) (sym n)
                (turn_of-Takes boost names going.talk (omega (arith, n, talk.someone))))
              (turn_of-Moves (length c.agents) going.talk)))
