-- ===== src/Chat/Kept.antt =====
-- What the steps of a room keep (chat_server.cpp): the conversations and the callbacks.
use aimeath.Common.{
  ℕ, zero, suc, ◌<◌, ◌≤◌, ◌≡◌, refl, sym, subst, ◌∙◌, ap, true, List, [], ◌∷◌, some, get_elem?, set,
  length, arith,
}
use aimeath.Common.Json.{str_eq}
use aimeath.Chat.{Callback, remember, go_on, Agent, Talk, Chat}

pub some_injective : {A : Type 0} {a b : A} → some a ≡ some b → a ≡ b
some_injective e = cc

module _ {A : Type 0} where
  pub get_elem?-some : (xs : List A) (i : ℕ) → i < length xs → (a : A) × (get_elem? xs i ≡ some a)
  get_elem?-some [] i h = absurd (omega arith)
  get_elem?-some (x ∷ xs) zero h = (x, refl)
  get_elem?-some (x ∷ xs) (suc i) h = get_elem?-some xs i (omega arith)

  pub get_elem?-lt : (xs : List A) (i : ℕ) (a : A) → get_elem? xs i ≡ some a → i < length xs
  get_elem?-lt [] i a e = cc
  get_elem?-lt (x ∷ xs) zero a e = omega arith
  get_elem?-lt (x ∷ xs) (suc i) a e = omega (arith, get_elem?-lt xs i a e)

  pub get_elem?-set :
      (xs : List A) (i : ℕ) (a : A) → i < length xs → get_elem? (set xs i a) i ≡ some a
  get_elem?-set [] i a h = absurd (omega arith)
  get_elem?-set (x ∷ xs) zero a h = refl
  get_elem?-set (x ∷ xs) (suc i) a h = get_elem?-set xs i a (omega arith)

  -- Every element has the property.
  abbrev pub All : (A → Type 0) → List A → Type 0
  All P [] = Unit
  All P (x ∷ xs) = P x × All P xs

  pub All-at :
      (P : A → Type 0) (xs : List A) (i : ℕ) (a : A) → All P xs → get_elem? xs i ≡ some a → P a
  All-at P [] i a h e = cc
  All-at P (x ∷ xs) zero a h e = subst P (some_injective e) h.0
  All-at P (x ∷ xs) (suc i) a h e = All-at P xs i a h.1 e

  pub All-set : (P : A → Type 0) (xs : List A) (i : ℕ) (a : A) → P a → All P xs → All P (set xs i a)
  All-set P [] i a p h = tt
  All-set P (x ∷ xs) zero a p h = (p, h.1)
  All-set P (x ∷ xs) (suc i) a p h = (h.0, All-set P xs i a p h.1)

-- A conversation in a room with `n` agents.
pub record IsTalk (n : ℕ) (t : Talk) : Type 0 where
  pub slots : length t.slots ≡ n
  pub someone : 0 < n
  pub alone : t.auto_loop ≡ true → str_eq t.target "" ≡ true

-- An agent's callback names a conversation that there is.
abbrev pub NamesTalk : ℕ → Callback → Type 0
NamesTalk talks remember = Unit
NamesTalk talks (go_on k) = k < talks

abbrev pub CallsTalk : ℕ → Agent → Type 0
CallsTalk talks a = NamesTalk talks a.callback

pub record AreTalks (c : Chat) : Type 0 where
  pub talks : All (IsTalk (length c.agents)) c.talks
  pub callbacks : All (CallsTalk (length c.talks)) c.agents

-- What a turn of a conversation does not change.
abbrev pub Kept : Chat → Chat → Type 0
Kept c c' =
    (c'.history ≡ c.history)
    × (c'.input_queue ≡ c.input_queue)
    × (c'.cancelled ≡ c.cancelled)
    × (c'.streaming ≡ c.streaming)
    × (c'.round ≡ c.round)

-- The room after a turn.
pub record Turned (c c' : Chat) : Type 0 where
  pub kept : Kept c c'
  pub agents : length c'.agents ≡ length c.agents
  pub more : length c.talks ≤ length c'.talks
  pub sound : AreTalks c'

-- Only the outputs and what was asked may differ.
pub record Same (c c' : Chat) : Type 0 where
  pub kept : Kept c c'
  pub agents : c'.agents ≡ c.agents
  pub talks : c'.talks ≡ c.talks

pub Kept-trans : (a b c : Chat) → Kept a b → Kept b c → Kept a c
Kept-trans a b c (h, q, x, s, r) (h', q', x', s', r') = (h' ∙ h, q' ∙ q, x' ∙ x, s' ∙ s, r' ∙ r)

pub Turned-trans : (a b c : Chat) → Turned a b → Turned b c → Turned a c
Turned-trans a b c h k = record {
  kept = Kept-trans a b c h.kept k.kept;
  agents = k.agents ∙ h.agents;
  more = omega (arith, h.more, k.more);
  sound = k.sound;
}

pub Turned-Same : (a b : Chat) → AreTalks a → Same a b → Turned a b
Turned-Same a b sound same = record {
  kept = same.kept;
  agents = ap length same.agents;
  more = omega (arith, ap length same.talks);
  sound = record {
    talks =
        subst (λ agents. All (IsTalk (length agents)) b.talks) (sym same.agents)
          (subst (All (IsTalk (length a.agents))) (sym same.talks) sound.talks);
    callbacks =
        subst (λ talks. All (CallsTalk (length talks)) b.agents) (sym same.talks)
          (subst (All (CallsTalk (length a.talks))) (sym same.agents) sound.callbacks);
  };
}
