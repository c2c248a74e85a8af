-- ===== src/Chat/Whole.antt =====
-- Whole histories of a room (chat_server.cpp, agent_chat_participant.cpp).
use aimeath.Common.{
  ℕ, ◌≡◌, refl, sym, subst, ◌∙◌, ap, Bool, true, false, List, [], ◌∷◌, ◌++◌, Option, none, some,
  get_elem?, length, Outcome, ok, if◌then◌else◌,
}
use mathlib.Core.List.{append_assoc, append-nil}
use aimeath.Common.Json.{String, str_eq, string, member, end}
use aimeath.Common.Ends.{Ends, Ends->>=, Ends-if_cases, Ends-ok}
use aimeath.Core.Queue.{new_queue}
use aimeath.Game.Api.{Boost}
use aimeath.Chat.{Agent, Chat}
use aimeath.Chat.Text.{first_is}
use aimeath.Chat.Command.{Profile, handle_command}
use aimeath.Chat.Room.{accept_text, on_stream}
use aimeath.Chat.Input.{create, say, set_output, main_agent, push_embed}
use aimeath.Chat.Participant.{
  answer_message, stream_event, event_type, push_response, on_piece, on_tools, on_answer,
}
use aimeath.Chat.Events.{
  Event, said, stopped, polled, output_set, piece, tools, answered, by_agent, step, run,
}
use aimeath.Chat.Kept.{All, All-at, CallsTalk}
use aimeath.Chat.Order.{
  accept_text-IsOrdered, push_output-IsOrdered, on_stream-IsOrdered, on_response-IsOrdered,
}
use aimeath.Chat.Handled.{text_of, IsOrdered}

-- Neither the agents are stopped, nor does the user poll or change the agents by a command.
abbrev pub IsCalm : List Profile → Event → Type 0
IsCalm profiles (said text) =
    first_is 47 text ≡ true → (c : Chat) → (handle_command profiles text c).0 ≡ c
IsCalm profiles stopped = ⊥
IsCalm profiles polled = ⊥
IsCalm profiles _ = Unit

-- The texts that were said, without the commands.
abbrev pub spoken : List Event → List String
spoken [] = []
spoken (said text ∷ es) = if first_is 47 text then spoken es else text ∷ spoken es
spoken (_ ∷ es) = spoken es

module _ (boost : Boost) (profiles : List Profile) where
  text_of-answer_message :
      (a : Agent) (response reasoning : String)
      → text_of (answer_message a response reasoning) ≡ none
  text_of-answer_message a response reasoning = refl

  by_agent-IsOrdered :
      (texts : List String) (i : ℕ) (act : Agent → Chat → Outcome Chat) (c : Chat)
      → IsOrdered texts c
      → ((a : Agent) → Ends ⊥ (IsOrdered texts) (act a c))
      → Ends ⊥ (IsOrdered texts) (by_agent boost profiles (get_elem? c.agents i) act c)
  by_agent-IsOrdered texts i act c inv acts = go (get_elem? c.agents i)
    where
      go : (o : Option Agent) → Ends ⊥ (IsOrdered texts) (by_agent boost profiles o act c)
      go none = inv
      go (some a) = acts a

  on_tools-IsOrdered :
      (texts : List String) (a : Agent) (c : Chat)
      → IsOrdered texts c
      → Ends ⊥ (IsOrdered texts) (on_tools boost a c)
  unfolding on_tools
  on_tools-IsOrdered texts a c inv =
      Ends->>= ⊥ (IsOrdered texts) (IsOrdered texts)
        (on_stream boost a (stream_event "stream_end") c) _
        (on_stream-IsOrdered boost texts a (stream_event "stream_end") c inv)
        λ c' inv'. on_stream-IsOrdered boost texts a (stream_event "stream_start") c' inv'

  on_answer-IsOrdered :
      (texts : List String) (i : ℕ) (response reasoning : String) (a : Agent) (c : Chat)
      → IsOrdered texts c
      → Ends ⊥ (IsOrdered texts) (on_answer boost i response reasoning a c)
  unfolding on_answer
  on_answer-IsOrdered texts i response reasoning a c inv =
      Ends->>= ⊥ (IsOrdered texts) (IsOrdered texts)
        (on_stream boost a (stream_event "stream_end") c) _
        (on_stream-IsOrdered boost texts a (stream_event "stream_end") c inv)
        λ c' inv'.
          Ends-if_cases ⊥ (IsOrdered texts) (str_eq response "") _ _ (λ _. inv')
            (λ _. go c' inv' (get_elem? c'.agents i) refl)
    where
      go :
          (c' : Chat)
          → IsOrdered texts c'
          → (o : Option Agent) → get_elem? c'.agents i ≡ o
          → Ends ⊥
              (IsOrdered texts)
              (push_response boost (answer_message a response reasoning) o c')
      go c' inv' none e = inv'
      go c' inv' (some b) e =
          on_response-IsOrdered boost texts b.callback (answer_message a response reasoning) c'
            (text_of-answer_message a response reasoning)
            (All-at (CallsTalk (length c'.talks)) c'.agents i b inv'.talks.callbacks e) inv'

  said-IsOrdered :
      (texts : List String) (text : String) (c : Chat)
      → IsCalm profiles (said text)
      → IsOrdered texts c
      → Ends ⊥ (IsOrdered (texts ++ spoken (said text ∷ []))) (say boost profiles text c)
  unfolding say
  said-IsOrdered texts text c calm inv = go (first_is 47 text) refl
    where
      go :
          (command : Bool)
          → first_is 47 text ≡ command
          → Ends ⊥ (IsOrdered (texts ++ (if command then [] else text ∷ []))) (
              if command
              then push_embed boost profiles (handle_command profiles text c)
              else accept_text boost text c)
      go true e =
          subst
            (λ ts.
              Ends ⊥ (IsOrdered ts) (push_embed boost profiles (handle_command profiles text c)))
            (sym (append-nil texts))
            (push_output-IsOrdered boost texts (handle_command profiles text c).1
              (handle_command profiles text c).0 (subst (IsOrdered texts) (sym (calm e c)) inv))
      go false e = accept_text-IsOrdered boost texts text c inv

  step-IsOrdered :
      (texts : List String) (e : Event) (c : Chat)
      → IsCalm profiles e
      → IsOrdered texts c
      → Ends ⊥ (IsOrdered (texts ++ spoken (e ∷ []))) (step boost profiles e c)
  unfolding step on_piece set_output
  step-IsOrdered texts (said text) c calm inv = said-IsOrdered texts text c calm inv
  step-IsOrdered texts stopped c calm inv = absurd calm
  step-IsOrdered texts polled c calm inv = absurd calm
  step-IsOrdered texts (output_set has) c calm inv =
      subst (λ ts. IsOrdered ts (record c { has_output = has })) (sym (append-nil texts))
        (record {
          talks = record { talks = inv.talks.talks; callbacks = inv.talks.callbacks };
          live = inv.live;
          running = inv.running;
          order = inv.order;
          idle = inv.idle;
          rounds = inv.rounds;
        })
  step-IsOrdered texts (piece i reasoning text) c calm inv =
      subst
        (λ ts.
          Ends ⊥ (IsOrdered ts)
            (by_agent boost profiles (get_elem? c.agents i) (on_piece boost reasoning text) c))
        (sym (append-nil texts))
        (by_agent-IsOrdered texts i (on_piece boost reasoning text) c inv (λ a.
          on_stream-IsOrdered boost texts a
            (member "type" (string (event_type reasoning)) (member "text" (string text) end)) c
            inv))
  step-IsOrdered texts (tools i) c calm inv =
      subst
        (λ ts.
          Ends ⊥ (IsOrdered ts) (by_agent boost profiles (get_elem? c.agents i) (on_tools boost) c))
        (sym (append-nil texts))
        (by_agent-IsOrdered texts i (on_tools boost) c inv (λ a. on_tools-IsOrdered texts a c inv))
  step-IsOrdered texts (answered i response reasoning) c calm inv =
      subst
        (λ ts.
          Ends ⊥ (IsOrdered ts) (
            by_agent boost profiles (get_elem? c.agents i) (on_answer boost i response reasoning)
              c))
        (sym (append-nil texts))
        (by_agent-IsOrdered texts i (on_answer boost i response reasoning) c inv
          (λ a. on_answer-IsOrdered texts i response reasoning a c inv))

  spoken_cons : (e : Event) (es : List Event) → spoken (e ∷ []) ++ spoken es ≡ spoken (e ∷ es)
  spoken_cons (said text) es = go (first_is 47 text)
    where
      go :
          (command : Bool)
          → (if command then [] else text ∷ []) ++ spoken es
            ≡ (if command then spoken es else text ∷ spoken es)
      go true = refl
      go false = refl
  spoken_cons stopped es = refl
  spoken_cons polled es = refl
  spoken_cons (output_set has) es = refl
  spoken_cons (piece i reasoning text) es = refl
  spoken_cons (tools i) es = refl
  spoken_cons (answered i response reasoning) es = refl

  run-IsOrdered_from :
      (texts : List String) (es : List Event) (c : Chat)
      → All (IsCalm profiles) es
      → IsOrdered texts c
      → Ends ⊥ (IsOrdered (texts ++ spoken es)) (run boost profiles es c)
  unfolding run
  run-IsOrdered_from texts [] c calm inv = subst (λ ts. IsOrdered ts c) (sym (append-nil texts)) inv
  run-IsOrdered_from texts (e ∷ es) c calm inv =
      subst (λ ts. Ends ⊥ (IsOrdered ts) (run boost profiles (e ∷ es) c))
        (append_assoc texts (spoken (e ∷ [])) (spoken es)
          ∙ ap (λ ts. texts ++ ts) (spoken_cons e es))
        (Ends->>= ⊥ (IsOrdered (texts ++ spoken (e ∷ []))) _ (step boost profiles e c) _
          (step-IsOrdered texts e c calm.0 inv)
          (λ c' inv'. run-IsOrdered_from (texts ++ spoken (e ∷ [])) es c' calm.1 inv'))

  create-IsOrdered : (main : Option Profile) → IsOrdered [] (create main)
  unfolding create new_queue
  create-IsOrdered main = record {
    talks = record { talks = tt; callbacks = callbacks main };
    live = refl;
    running = refl;
    order = refl;
    idle = λ _. refl;
    rounds = refl;
  }
    where
      callbacks : (main : Option Profile) → All (CallsTalk 0) (main_agent main)
      callbacks none = tt
      callbacks (some p) = (tt, tt)

-- From a new room, any sequence of events in which the agents are not stopped and the user neither
-- polls nor changes the agents leads to a room, without a fault and without running out of fuel: the
-- texts that the users said stand in its history in their order, followed by those that wait, and
-- none waits while the room does not stream.
pub run-IsOrdered :
    (boost : Boost) (profiles : List Profile) (main : Option Profile) (es : List Event)
    → All (IsCalm profiles) es
    → (c : Chat) × (run boost profiles es (create main) ≡ ok c) × IsOrdered (spoken es) c
run-IsOrdered boost profiles main es calm =
    Ends-ok (IsOrdered (spoken es)) (run boost profiles es (create main)) (
      run-IsOrdered_from boost profiles [] es (create main) calm
        (create-IsOrdered boost profiles main))
