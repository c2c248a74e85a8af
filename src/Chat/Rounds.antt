-- ===== src/Chat/Rounds.antt =====
-- The rounds of a conversation (chat_server.cpp): the agents that one text leads to.
use aimeath.Common.{
  ℕ, zero, suc, ◌+◌, ◌<◌, ◌≡◌, refl, sym, subst, ◌∙◌, ap, Bool, true, false, List, [], ◌∷◌, ◌++◌,
  some, get_elem?, length, ltb, ◌==◌, ◌&&◌, if_by, arith, if◌then◌else◌, Outcome, ok, undefined,
  unfinished, ◌>>=◌,
}
use mathlib.Core.Bool.{false≢true}
use mathlib.Core.List.{append_assoc, append-nil}
use aimeath.Common.Json.{String, str_eq, Members}
use aimeath.Common.Ends.{Ends, Ends->>=, Ends-if_cases, Ends-ok, Ends-map}
use aimeath.Game.Api.{Boost}
use aimeath.Chat.{go_on, Chat, user_message, process_next}
use aimeath.Chat.Room.{
  parse_address, new_talk, begin_talk, handle_user_message, accept_text, on_response,
}
use aimeath.Chat.Kept.{get_elem?-lt, AreTalks, Turned}
use aimeath.Chat.Talks.{process_next-Turned}
use aimeath.Chat.Handled.{new_talk-IsTalk, AreTalks-append_one}
use aimeath.Chat.Schedule.{take, drop, repeat, later}
use aimeath.Chat.Turns.{names_of, asked_of, IsOpen, Asks, process_next-Asks}

take_one : {A : Type 0} (n : ℕ) (xs : List A) → take 1 xs ++ take n (drop 1 xs) ≡ take (suc n) xs
take_one zero [] = refl
take_one (suc n) [] = refl
take_one n (x ∷ xs) = refl

get_elem?-append_one :
    {A : Type 0} (xs : List A) (x : A) → get_elem? (xs ++ x ∷ []) (length xs) ≡ some x
get_elem?-append_one [] x = refl
get_elem?-append_one (y ∷ xs) x = get_elem?-append_one xs x

Ends-both :
    {A : Type 0} (P Q : A → Type 0) (m : Outcome A)
    → Ends ⊥ P m
    → Ends ⊥ Q m
    → Ends ⊥ (λ a. P a × Q a) m
Ends-both P Q undefined p q = p
Ends-both P Q unfinished p q = p
Ends-both P Q (ok a) p q = (p, q)

-- The answers of the agents, one after the other.
abbrev pub answers : Boost → ℕ → List Members → Chat → Outcome Chat
answers boost k [] c = ok c
answers boost k (msg ∷ msgs) c = on_response boost (go_on k) msg c >>= answers boost k msgs

module _ (boost : Boost) where
  -- A turn, and what holds in the room after it.
  abbrev Sound : ℕ → List String → List String → Chat → Chat → Type 0
  Sound k names ahead c c' = AreTalks c' × Asks k names ahead c c'

  process_next-Sound :
      (k : ℕ) (names ahead : List String) (c : Chat)
      → AreTalks c
      → IsOpen k names ahead c
      → Ends ⊥ (Sound k names ahead c) (process_next boost (length c.agents + 2) k c)
  process_next-Sound k names ahead c sound going =
      let fuel : suc (length c.agents + 1) ≡ length c.agents + 2 = omega arith in
      Ends-both AreTalks (Asks k names ahead c) (process_next boost (length c.agents + 2) k c)
        (Ends-map ⊥ (Turned c) AreTalks (process_next boost (length c.agents + 2) k c)
          (λ c' turned. turned.sound)
          (process_next-Turned boost k c sound (get_elem?-lt c.talks k going.talk going.here)))
        (subst (λ n. Ends ⊥ (Asks k names ahead c) (process_next boost n k c)) fuel
          (process_next-Asks boost (length c.agents + 1) k names ahead c sound going))

  on_response-Sound :
      (k : ℕ) (names ahead : List String) (msg : Members) (c : Chat)
      → AreTalks c
      → IsOpen k names ahead c
      → Ends ⊥ (Sound k names ahead c) (on_response boost (go_on k) msg c)
  unfolding on_response
  on_response-Sound k names ahead msg c sound going =
      if_by (λ d. Ends ⊥ (Sound k names ahead c) (process_next boost (length c.agents + 2) k d))
        c.cancelled _ _ (λ stopped. absurd (false≢true (sym going.live ∙ stopped)))
        (λ _.
          process_next-Sound k names ahead (record c { history = c.history ++ msg ∷ [] })
            (record { talks = sound.talks; callbacks = sound.callbacks })
            (record {
              talk = going.talk;
              here = going.here;
              everyone = going.everyone;
              live = going.live;
              agents = going.agents;
              ahead = going.ahead;
            }))

  answers-asked :
      (k : ℕ) (names ahead : List String) (msgs : List Members) (c : Chat)
      → AreTalks c
      → IsOpen k names ahead c
      → Ends ⊥ (λ c'. asked_of c' ≡ asked_of c ++ take (length msgs) ahead) (answers boost k msgs c)
  answers-asked k names ahead [] c sound going = sym (append-nil (asked_of c))
  answers-asked k names ahead (msg ∷ msgs) c sound going =
      Ends->>= ⊥ (Sound k names ahead c) _ (on_response boost (go_on k) msg c) _
        (on_response-Sound k names ahead msg c sound going)
        λ c' (sound', (going', asks)).
          Ends-map ⊥ _ _ (answers boost k msgs c')
            (λ c'' more.
              more
              ∙ ap (λ xs. xs ++ take (length msgs) (drop 1 ahead)) asks
              ∙ append_assoc (asked_of c) (take 1 ahead) (take (length msgs) (drop 1 ahead))
              ∙ ap (λ xs. asked_of c ++ xs) (take_one (length msgs) ahead))
            (answers-asked k names (drop 1 ahead) msgs c' sound' going')

  -- The rounds that a conversation has.
  abbrev pub rounds : ℕ → ℕ
  rounds agents = if ltb 1 agents then 11 else 1

  all_rounds :
      (names : List String) (several : Bool)
      → names ++ later names several 0 ≡ repeat (if several then 11 else 1) names
  all_rounds names true = refl
  all_rounds names false = refl

  begin_talk-asked :
      (text sender : String) (c : Chat)
      → AreTalks c
      → c.cancelled ≡ false
      → 0 < length c.agents
      → str_eq (parse_address text).target "" ≡ true
      → (msgs : List Members)
      → Ends ⊥
          (λ c'.
            asked_of c'
            ≡ asked_of c
              ++ take (suc (length msgs)) (repeat (rounds (length c.agents)) (names_of c.agents)))
          (begin_talk boost c (new_talk boost c text sender)
            >>= answers boost (length c.talks) msgs)
  begin_talk-asked text sender c sound live someone everyone msgs =
      let t = new_talk boost c text sender in
      let c₁ = record c { talks = c.talks ++ t ∷ [] } in
      let k = length c.talks in
      let names = names_of c.agents in
      let several = ltb 1 (length c.agents) in
      let going : IsOpen k names (repeat (rounds (length c.agents)) names) c₁ = record {
        talk = t;
        here = get_elem?-append_one c.talks t;
        everyone = everyone;
        live = live;
        agents = refl;
        ahead = ap (λ b. names ++ later names (b && several) 0) everyone ∙ all_rounds names several;
      } in
      let ahead = repeat (rounds (length c.agents)) names in
      Ends->>= ⊥ (Sound k names ahead c₁) _ (begin_talk boost c t) _
        (Ends-if_cases ⊥ _ (length c.agents == 0) _ _ (λ empty. absurd (ground (arith, someone)))
          (λ _.
            process_next-Sound k names ahead c₁
              (AreTalks-append_one boost c t sound (new_talk-IsTalk boost c text sender someone))
              going))
        λ c' (sound', (going', asks)).
          Ends-map ⊥ _ _ (answers boost k msgs c')
            (λ c'' more.
              more
              ∙ ap (λ xs. xs ++ take (length msgs) (drop 1 ahead)) asks
              ∙ append_assoc (asked_of c) (take 1 ahead) (take (length msgs) (drop 1 ahead))
              ∙ ap (λ xs. asked_of c ++ xs) (take_one (length msgs) ahead))
            (answers-asked k names (drop 1 ahead) msgs c' sound' going')

  -- In a room that has agents, is not stopped and does not stream, and whose earlier conversations
  -- have a slot for each agent and are those that the callbacks name, a text that is addressed to nobody, followed by answers of the agents, asks the agents one after the other, one with the
  -- text and one more with each answer: eleven rounds if there are several agents, and otherwise one.
  -- Answers beyond that ask nobody, and neither the text nor any answer meets a fault or runs out
  -- of fuel.
  pub accept_text-asked :
      (text : String) (msgs : List Members) (c : Chat)
      → AreTalks c
      → c.cancelled ≡ false
      → c.streaming ≡ false
      → 0 < length c.agents
      → str_eq (parse_address text).target "" ≡ true
      → (c' : Chat) × ((accept_text boost text c >>= answers boost (length c.talks) msgs) ≡ ok c')
        × (asked_of c'
            ≡ asked_of c
              ++ take (suc (length msgs)) (repeat (rounds (length c.agents)) (names_of c.agents)))
  unfolding accept_text handle_user_message
  accept_text-asked text msgs c sound live idle someone everyone =
      Ends-ok _ (accept_text boost text c >>= answers boost (length c.talks) msgs) (
        if_by
          (λ m.
            Ends ⊥
              (λ c'.
                asked_of c'
                ≡ asked_of c
                  ++ take (suc (length msgs))
                      (repeat (rounds (length c.agents)) (names_of c.agents)))
              (m >>= answers boost (length c.talks) msgs))
          c.streaming _ _ (λ streams. absurd (false≢true (sym idle ∙ streams)))
          (λ _.
            begin_talk-asked text c.display_name
              (record c {
                history = c.history ++ user_message text c.display_name ∷ [];
                streaming = true;
                round = c.round + 1;
              })
              (record { talks = sound.talks; callbacks = sound.callbacks }) live someone everyone
              msgs))
