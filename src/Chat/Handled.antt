-- ===== src/Chat/Handled.antt =====
-- The text that begins a conversation of a room (chat_server.cpp), and the order of the messages.
use aimeath.Common.{
  ℕ, suc, ◌+◌, ◌<◌, ◌≤◌, ◌≡◌, refl, sym, ◌∙◌, ap, Bool, true, false, List, [], ◌∷◌, ◌++◌, Option,
  none, some, length, length-append, ltb, ◌==◌, arith, if◌then◌else◌, ◌&&◌, length-replicate,
}
use mathlib.Core.Bool.{false≢true}
use mathlib.Core.List.{append_assoc}
use aimeath.Common.Json.{String, str_eq, Value, string, Members, find}
use aimeath.Common.Ends.{Ends, Ends-map, Ends-if_cases}
use aimeath.Game.Api.{Boost}
use aimeath.Chat.{Callback, remember, go_on, Agent, Talk, Chat, is_text, user_message, process_next}
use aimeath.Chat.Room.{parse_address, new_talk, begin_talk, handle_user_message}
use aimeath.Chat.Talks.{process_next-Turned}
use aimeath.Chat.Kept.{All, IsTalk, NamesTalk, CallsTalk, AreTalks, Kept, Turned}

-- The text of a message of a user.
abbrev pub content_of : Option Value → Option String
content_of (some (string text)) = some text
content_of _ = none

abbrev pub text_of : Members → Option String
text_of m = if is_text (find "role" m) "user" then content_of (find "content" m) else none

abbrev pub cons_some : Option String → List String → List String
cons_some none texts = texts
cons_some (some text) texts = text ∷ texts

-- The texts of the users in a history.
abbrev pub texts_of : List Members → List String
texts_of [] = []
texts_of (m ∷ ms) = cons_some (text_of m) (texts_of ms)

pub cons_some-append :
    (o : Option String) (xs ys : List String) → cons_some o (xs ++ ys) ≡ cons_some o xs ++ ys
cons_some-append none xs ys = refl
cons_some-append (some text) xs ys = refl

pub texts_of-append :
    (ms : List Members) (m : Members)
    → texts_of (ms ++ m ∷ []) ≡ texts_of ms ++ cons_some (text_of m) []
texts_of-append [] m = refl
texts_of-append (n ∷ ms) m =
    ap (cons_some (text_of n)) (texts_of-append ms m)
    ∙ cons_some-append (text_of n) (texts_of ms) (cons_some (text_of m) [])

-- The texts that were said are those that the users said in the history, and then those that wait. A
-- room that does not stream has none that waits.
pub record IsOrdered (texts : List String) (c : Chat) : Type 0 where
  pub talks : AreTalks c
  pub live : c.cancelled ≡ false
  pub running : c.input_queue.is_shutdown ≡ false
  pub order : texts_of c.history ++ c.input_queue.items ≡ texts
  pub idle : c.streaming ≡ false → c.input_queue.items ≡ []
  pub rounds : c.round ≡ length (texts_of c.history)

pub &&-left : (a b : Bool) → (a && b) ≡ true → a ≡ true
&&-left true b h = refl
&&-left false b h = h

module _ (boost : Boost) where
  pub new_talk-IsTalk :
      (c : Chat) (text sender : String)
      → 0 < length c.agents
      → IsTalk (length c.agents) (new_talk boost c text sender)
  new_talk-IsTalk c text sender some_agent = record {
    slots = length-replicate (length c.agents) false;
    someone = some_agent;
    alone = λ auto. &&-left (str_eq (parse_address text).target "") (ltb 1 (length c.agents)) auto;
  }

  pub All-CallsTalk_more :
      (n m : ℕ) (agents : List Agent) → n ≤ m → All (CallsTalk n) agents → All (CallsTalk m) agents
  All-CallsTalk_more n m [] le h = tt
  All-CallsTalk_more n m (a ∷ agents) le h =
      (more a.callback h.0, All-CallsTalk_more n m agents le h.1)
    where
      more : (cb : Callback) → NamesTalk n cb → NamesTalk m cb
      more remember h = tt
      more (go_on k) h = omega arith

  pub All-append_one :
      {A : Type 0} (P : A → Type 0) (xs : List A) (a : A) → All P xs → P a → All P (xs ++ a ∷ [])
  All-append_one P [] a h p = (p, tt)
  All-append_one P (x ∷ xs) a h p = (h.0, All-append_one P xs a h.1 p)

  pub AreTalks-append_one :
      (c : Chat) (t : Talk)
      → AreTalks c
      → IsTalk (length c.agents) t
      → AreTalks (record c { talks = c.talks ++ t ∷ [] })
  AreTalks-append_one c t sound talk =
      let n = length-append c.talks (t ∷ []) in
      record {
        talks = All-append_one (IsTalk (length c.agents)) c.talks t sound.talks talk;
        callbacks =
            All-CallsTalk_more (length c.talks) (length (c.talks ++ t ∷ [])) c.agents
              (omega (arith, n)) sound.callbacks;
      }

  -- A text was handled: the history has it, and the rest of the room is as before.
  abbrev pub Handled : Members → Chat → Chat → Type 0
  Handled m c c' = Kept (record c { history = c.history ++ m ∷ [] }) c' × AreTalks c'

  pub begin_talk-Handled :
      (c : Chat) (t : Talk)
      → AreTalks c
      → (0 < length c.agents → IsTalk (length c.agents) t)
      → Ends ⊥ (λ c'. Kept c c' × AreTalks c') (begin_talk boost c t)
  begin_talk-Handled c t sound talk =
      Ends-if_cases ⊥ _ (length c.agents == 0) _ _ (λ _. ((refl, refl, refl, refl, refl), sound))
        (λ some_agents.
          let c₁ = record c { talks = c.talks ++ t ∷ [] } in
          let n = length-append c.talks (t ∷ []) in
          let sound₁ = AreTalks-append_one c t sound (talk (ground arith)) in
          Ends-map ⊥ (Turned c₁) _ (process_next boost (length c.agents + 2) (length c.talks) c₁)
            (λ c' turned. (turned.kept, turned.sound))
            (process_next-Turned boost (length c.talks) c₁ sound₁ (omega (arith, n))))

  pub handle_user_message-Handled :
      (text sender : String) (c : Chat)
      → AreTalks c
      → Ends ⊥ (Handled (user_message text sender) c) (handle_user_message boost text sender c)
  unfolding handle_user_message
  handle_user_message-Handled text sender c sound =
      let c' = record c { history = c.history ++ user_message text sender ∷ [] } in
      begin_talk-Handled c' (new_talk boost c' text sender)
        (record { talks = sound.talks; callbacks = sound.callbacks })
        (new_talk-IsTalk c' text sender)

  -- A text is handled while the room streams.
  pub Handled-IsOrdered :
      (texts : List String) (text sender : String) (c c' : Chat)
      → c.cancelled ≡ false
      → c.input_queue.is_shutdown ≡ false
      → texts_of c.history ++ text ∷ c.input_queue.items ≡ texts
      → c.streaming ≡ true
      → c.round ≡ suc (length (texts_of c.history))
      → Handled (user_message text sender) c c'
      → IsOrdered texts c'
  Handled-IsOrdered texts text sender c c' live running order streams rounds
        ((h, q, x, s, r), sound) =
      let texts' : texts_of c'.history ≡ texts_of c.history ++ text ∷ [] =
        ap texts_of h ∙ texts_of-append c.history (user_message text sender) in
      record {
        talks = sound;
        live = x ∙ live;
        running = ap (λ q. q.is_shutdown) q ∙ running;
        order =
            ap (λ ts. ts ++ c'.input_queue.items) texts'
            ∙ ap (λ q. (texts_of c.history ++ text ∷ []) ++ q.items) q
            ∙ append_assoc (texts_of c.history) (text ∷ []) c.input_queue.items
            ∙ order;
        idle = λ stops. absurd (false≢true (sym stops ∙ s ∙ streams));
        rounds =
            omega
              (arith, r, rounds, ap length texts', length-append (texts_of c.history) (text ∷ []));
      }
