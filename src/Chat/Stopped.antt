-- ===== src/Chat/Stopped.antt =====
-- A room whose agents were stopped (chat_server.cpp).
use aimeath.Common.{
  ℕ, zero, suc, ◌+◌, ◌≡◌, refl, sym, subst, ◌∙◌, Bool, true, false, List, [], ◌∷◌, Option, none,
  some, get_elem?, length, ◌||◌, ◌==◌, Outcome, ok, undefined, unfinished, ◌>>=◌, if_by,
  if◌then◌else◌,
}
use mathlib.Core.Bool.{false≢true}
use aimeath.Common.Json.{String, str_eq, Members, string, member, end}
use aimeath.Core.Queue.{clear}
use aimeath.Game.Api.{Boost}
use aimeath.Chat.{Callback, remember, go_on, Agent, Chat, is_end, emit, process_next}
use aimeath.Chat.Text.{first_is, drop_first, trim_end, split_blank, after_prefix}
use aimeath.Chat.Command.{
  Profile, find_profile, without, added, removed, agent_change, agent_command, argument,
  run_command, handle_command,
}
use aimeath.Chat.Room.{
  handle_user_message, process_next_in_queue, push_output, drain, drain_and_push, stop, accept_text,
  on_stream, remembered, on_response,
}
use aimeath.Chat.Input.{say, set_output}
use aimeath.Chat.Participant.{
  on_piece, on_tools, on_answer, push_response, answer_message, stream_event, event_type,
}
use aimeath.Chat.Events.{
  Event, said, stopped, polled, output_set, piece, tools, answered, by_agent, step, run,
}

-- A property of the room that the code returns, if it does.
abbrev Ever : (Chat → Type 0) → Outcome Chat → Type 0
Ever P undefined = Unit
Ever P unfinished = Unit
Ever P (ok c) = P c

Ever->>= :
    (P : Chat → Type 0) (m : Outcome Chat) (next : Chat → Outcome Chat)
    → Ever P m
    → ((c : Chat) → P c → Ever P (next c))
    → Ever P (m >>= next)
Ever->>= P undefined next h k = tt
Ever->>= P unfinished next h k = tt
Ever->>= P (ok c) next h k = k c h

Ever-if_cases :
    (P : Chat → Type 0) (t : Bool) (x y : Outcome Chat)
    → (t ≡ true → Ever P x)
    → (t ≡ false → Ever P y)
    → Ever P (if t then x else y)
Ever-if_cases P true x y hx hy = hx refl
Ever-if_cases P false x y hx hy = hy refl

-- The agents stay stopped, and none is asked again.
abbrev pub Silent : Chat → Chat → Type 0
Silent c c' = (c'.cancelled ≡ true) × (c'.asked ≡ c.asked)

module _ (boost : Boost) (start : Chat) where
  emit-Silent : (o : Members) (c : Chat) → Silent start c → Silent start (emit boost o c)
  unfolding emit
  emit-Silent o c h = if_by (Silent start) c.has_output _ _ (λ _. h) (λ _. h)

  push_output-Silent :
      (o : Members) (c : Chat) → Silent start c → Ever (Silent start) (push_output boost o c)
  unfolding push_output process_next_in_queue
  push_output-Silent o c h =
      let h' = emit-Silent o c h in
      Ever-if_cases (Silent start) (is_end o) _ _
        (λ _.
          Ever-if_cases (Silent start) (emit boost o c).cancelled _ _ (λ _. h')
            (λ live. absurd (false≢true (sym live ∙ h'.0))))
        (λ _. h')

  process_next-Silent :
      (n k : ℕ) (c : Chat) → Silent start c → Ever (Silent start) (process_next boost n k c)
  unfolding process_next
  process_next-Silent zero k c h = tt
  process_next-Silent (suc n) k c h =
      Ever-if_cases (Silent start) c.cancelled _ _ (λ _. h)
        (λ live. absurd (false≢true (sym live ∙ h.0)))

  accept_text-Silent :
      (text : String) (c : Chat) → Silent start c → Ever (Silent start) (accept_text boost text c)
  unfolding accept_text handle_user_message
  accept_text-Silent text c h =
      Ever-if_cases (Silent start) c.streaming _ _ (λ _. h)
        (λ _.
          Ever-if_cases (Silent start) (length c.agents == 0) _ _ (λ _. h)
            (λ _. process_next-Silent (length c.agents + 2) (length c.talks) _ h))

  on_stream-Silent :
      (a : Agent) (o : Members) (c : Chat)
      → Silent start c
      → Ever (Silent start) (on_stream boost a o c)
  unfolding on_stream
  on_stream-Silent a o c h =
      Ever-if_cases (Silent start) c.cancelled _ _ (λ _. h)
        (λ live. absurd (false≢true (sym live ∙ h.0)))

  remembered-Silent :
      (msg : Members) (c : Chat) → Silent start c → Silent start (remembered boost msg c)
  remembered-Silent msg c h = if_by (Silent start) c.cancelled _ _ (λ _. h) (λ _. h)

  on_response-Silent :
      (cb : Callback) (msg : Members) (c : Chat)
      → Silent start c
      → Ever (Silent start) (on_response boost cb msg c)
  unfolding on_response
  on_response-Silent remember msg c h = remembered-Silent msg c h
  on_response-Silent (go_on k) msg c h =
      process_next-Silent (length c.agents + 2) k (remembered boost msg c)
        (remembered-Silent msg c h)

  abbrev Quiet : Chat × Members → Type 0
  Quiet r = Silent start r.0

  handle_command-Silent :
      (profiles : List Profile) (text : String) (c : Chat)
      → Silent start c
      → Quiet (handle_command profiles text c)
  unfolding handle_command agent_command
  handle_command-Silent profiles text c h =
      by_words (trim_end (drop_first text)) (split_blank (trim_end (drop_first text)))
    where
      by_profile : (name : String) (p : Option Profile) → Quiet (added name p c)
      by_profile name none = h
      by_profile name (some p) = h

      by_agents : (name : String) (agents : Option (List Agent)) → Quiet (removed name agents c)
      by_agents name none = h
      by_agents name (some agents) = h

      by_change : (add take : Option String) → Quiet (agent_change profiles add take c)
      by_change (some name) take = by_profile name (find_profile name profiles)
      by_change none (some name) = by_agents name (without name c.agents)
      by_change none none = h

      by_words :
          (s : String) (words : String × Option String) → Quiet (run_command profiles s words c)
      by_words s (cmd, rest) =
          if_by Quiet (str_eq cmd "agent") _ _
            (λ _.
              if_by Quiet (str_eq (argument rest) "" || str_eq (argument rest) "list") _ _ (λ _. h)
                (λ _.
                  if_by Quiet (str_eq (argument rest) "available") _ _ (λ _. h)
                    (λ _.
                      by_change (after_prefix "add " (argument rest))
                        (after_prefix "remove " (argument rest)))))
            (λ _. h)

  say-Silent :
      (profiles : List Profile) (text : String) (c : Chat)
      → Silent start c
      → Ever (Silent start) (say boost profiles text c)
  unfolding say
  say-Silent profiles text c h =
      Ever-if_cases (Silent start) (first_is 47 text) _ _
        (λ _.
          let r = handle_command profiles text c in
          push_output-Silent r.1 r.0 (handle_command-Silent profiles text c h))
        (λ _. accept_text-Silent text c h)

  on_tools-Silent :
      (a : Agent) (c : Chat) → Silent start c → Ever (Silent start) (on_tools boost a c)
  unfolding on_tools
  on_tools-Silent a c h =
      Ever->>= (Silent start) (on_stream boost a (stream_event "stream_end") c) _
        (on_stream-Silent a (stream_event "stream_end") c h)
        (on_stream-Silent a (stream_event "stream_start"))

  on_answer-Silent :
      (i : ℕ) (response reasoning : String) (a : Agent) (c : Chat)
      → Silent start c
      → Ever (Silent start) (on_answer boost i response reasoning a c)
  unfolding on_answer
  on_answer-Silent i response reasoning a c h =
      Ever->>= (Silent start) (on_stream boost a (stream_event "stream_end") c) _
        (on_stream-Silent a (stream_event "stream_end") c h)
        λ c' h'.
          Ever-if_cases (Silent start) (str_eq response "") _ _ (λ _. h')
            (λ _. go c' h' (get_elem? c'.agents i))
    where
      go :
          (c' : Chat)
          → Silent start c'
          → (o : Option Agent)
          → Ever (Silent start) (push_response boost (answer_message a response reasoning) o c')
      go c' h' none = h'
      go c' h' (some b) = on_response-Silent b.callback (answer_message a response reasoning) c' h'

  step-Silent :
      (profiles : List Profile) (e : Event) (c : Chat)
      → Silent start c
      → Ever (Silent start) (step boost profiles e c)
  unfolding step stop drain_and_push set_output on_piece
  step-Silent profiles (said text) c h = say-Silent profiles text c h
  step-Silent profiles stopped c h =
      push_output-Silent (member "type" (string "stream_end") (member "msg" (string "stopped") end))
        _ (refl, h.1)
  step-Silent profiles polled c h = go c.pending_outputs
    where
      go : (os : List Members) → Ever (Silent start) (drain boost os c)
      go [] = h
      go (o ∷ os) = tt
  step-Silent profiles (output_set has) c h = h
  step-Silent profiles (piece i reasoning text) c h = agent_step (get_elem? c.agents i) (λ a.
      on_stream-Silent a
        (member "type" (string (event_type reasoning)) (member "text" (string text) end)) c h)
    where
      agent_step :
          (o : Option Agent)
          → ((a : Agent) → Ever (Silent start) (on_piece boost reasoning text a c))
          → Ever (Silent start) (by_agent boost profiles o (on_piece boost reasoning text) c)
      agent_step none acts = h
      agent_step (some a) acts = acts a
  step-Silent profiles (tools i) c h = go (get_elem? c.agents i)
    where
      go : (o : Option Agent) → Ever (Silent start) (by_agent boost profiles o (on_tools boost) c)
      go none = h
      go (some a) = on_tools-Silent a c h
  step-Silent profiles (answered i response reasoning) c h = go (get_elem? c.agents i)
    where
      go :
          (o : Option Agent)
          → Ever (Silent start) (by_agent boost profiles o (on_answer boost i response reasoning) c)
      go none = h
      go (some a) = on_answer-Silent i response reasoning a c h

  run-Silent :
      (profiles : List Profile) (es : List Event) (c : Chat)
      → Silent start c
      → Ever (Silent start) (run boost profiles es c)
  unfolding run
  run-Silent profiles [] c h = h
  run-Silent profiles (e ∷ es) c h =
      Ever->>= (Silent start) (step boost profiles e c) _ (step-Silent profiles e c h)
        (run-Silent profiles es)

-- Once the user has stopped the agents of a room, no agent is asked again in any later events that
-- the code returns from: nothing takes the stop back.
pub run-stop_silent :
    (boost : Boost) (profiles : List Profile) (c c' c'' : Chat) (es : List Event)
    → stop boost c ≡ ok c'
    → run boost profiles es c' ≡ ok c''
    → (c''.cancelled ≡ true) × (c''.asked ≡ c.asked)
unfolding stop
run-stop_silent boost profiles c c' c'' es e e' =
    let stopped_c = record c {
      cancelled = true;
      streaming = false;
      input_queue = clear c.input_queue;
    } in
    let first : Silent c c' = subst (Ever (Silent c)) e (
      push_output-Silent boost c
        (member "type" (string "stream_end") (member "msg" (string "stopped") end)) stopped_c
        (refl, refl)) in
    subst (Ever (Silent c)) e' (run-Silent boost c profiles es c' first)
