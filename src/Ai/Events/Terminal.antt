-- ===== src/Ai/Events/Terminal.antt =====
-- Pushes on the streams of src/pi_agent/ai/event_stream.py, and the terminal events.
use pi_agent_python.Base.{
  ◌≡◌, refl, sym, ap, ◌∙◌, true, false, inl, inr, Option, none, some, List, [], ◌∷◌, arith,
  Bool-cases, Option-cases,
}
use pi_agent_python.Ai.Types.{AssistantMessage}
use pi_agent_python.Ai.EventStream.{Waiter, EventStream, new_stream, hand, push, completed}
use pi_agent_python.Ai.Events.{
  AssistantMessageEvent, event_result, is_terminal_event, is_some, AssistantMessageEventStream,
  push_event,
}

-- The state after the events were pushed.
abbrev pub push_events :
    List AssistantMessageEvent → AssistantMessageEventStream → AssistantMessageEventStream
push_events [] s = s
push_events (e ∷ es) s = push_events es (push_event e s)

-- The result of the first terminal event.
abbrev pub first_result : List AssistantMessageEvent → Option AssistantMessage
first_result [] = none
first_result (e ∷ es) = elim (event_result e) [ none ↦ first_result es | some m ↦ some m ]

-- What `_result` holds for it: nothing, or a message.
abbrev pub wrapped : Option AssistantMessage → Option (Option AssistantMessage)
wrapped none = none
wrapped (some m) = some (some m)

first_later :
    (e : AssistantMessageEvent) (es : List AssistantMessageEvent)
    → event_result e ≡ none
    → first_result (e ∷ es) ≡ first_result es
first_later e es h = ground arith

first_here :
    (e : AssistantMessageEvent) (es : List AssistantMessageEvent) (m : AssistantMessage)
    → event_result e ≡ some m
    → first_result (e ∷ es) ≡ some m
first_here e es m h = ground arith

terminal_result : (e : AssistantMessageEvent) → is_terminal_event e ≡ is_some (event_result e)
unfolding is_terminal_event event_result
terminal_result (AssistantMessageEvent.start m) = refl
terminal_result (AssistantMessageEvent.text_start i m) = refl
terminal_result (AssistantMessageEvent.text_delta i d m) = refl
terminal_result (AssistantMessageEvent.text_end i d m) = refl
terminal_result (AssistantMessageEvent.thinking_start i m) = refl
terminal_result (AssistantMessageEvent.thinking_delta i d m) = refl
terminal_result (AssistantMessageEvent.thinking_end i d m) = refl
terminal_result (AssistantMessageEvent.toolcall_start i m) = refl
terminal_result (AssistantMessageEvent.toolcall_delta i d m) = refl
terminal_result (AssistantMessageEvent.toolcall_end i c m) = refl
terminal_result (AssistantMessageEvent.done r m) = refl
terminal_result (AssistantMessageEvent.error r m) = refl

hand_keeps :
    (e : AssistantMessageEvent) (ws : List Waiter) (s : AssistantMessageEventStream)
    → ((hand e ws s).done ≡ s.done) × ((hand e ws s).result ≡ s.result)
unfolding hand
hand_keeps e [] s = (refl, refl)
hand_keeps e (w ∷ ws) s =
    let (d, r) = hand_keeps e ws s in
    elim (Bool-cases w.done) [ inl gone ↦ rw gone (d, r) | inr live ↦ rw live (refl, refl) ]

-- A stream that is done stays as it is.
push_done :
    (e : AssistantMessageEvent) (s : AssistantMessageEventStream)
    → s.done ≡ true
    → push_event e s ≡ s
unfolding push_event push
push_done e s h = ground arith

push_events_done :
    (es : List AssistantMessageEvent) (s : AssistantMessageEventStream)
    → s.done ≡ true
    → push_events es s ≡ s
push_events_done [] s h = refl
push_events_done (e ∷ es) s h = ap (push_events es) (push_done e s h) ∙ push_events_done es s h

push_running :
    (e : AssistantMessageEvent) (s : AssistantMessageEventStream)
    → s.done ≡ false
    → push_event e s ≡ hand e s.waiting (completed is_terminal_event event_result e s)
unfolding push_event push
push_running e s h = ground arith

-- One push on a stream that is not done.
push_one :
    (e : AssistantMessageEvent) (s : AssistantMessageEventStream)
    → s.done ≡ false
    → s.result ≡ none
    → ((push_event e s).done ≡ is_some (event_result e))
      × ((push_event e s).result ≡ wrapped (event_result e))
push_one e s d r =
    let (kept_done, kept_result) =
      hand_keeps e s.waiting (completed is_terminal_event event_result e s) in
    let run = push_running e s d in let terminal = terminal_result e in (ground arith, ground arith)

result_from :
    (es : List AssistantMessageEvent) (s : AssistantMessageEventStream)
    → s.done ≡ false
    → s.result ≡ none
    → ((push_events es s).done ≡ is_some (first_result es))
      × ((push_events es s).result ≡ wrapped (first_result es))
result_from [] s d r = (d, r)
result_from (e ∷ es) s d r =
    let (one_done, one_result) = push_one e s d r in
    elim (Option-cases (event_result e)) [
      | inl nothing ↦
          let (later_done, later_result) =
            result_from es (push_event e s) (ground arith) (ground arith) in
          let first : first_result es ≡ first_result (e ∷ es) = sym (first_later e es nothing) in
          (later_done ∙ ap is_some first, later_result ∙ ap wrapped first)
      | inr (m, something) ↦
          let same = push_events_done es (push_event e s) (ground arith) in
          let first : some m ≡ first_result (e ∷ es) = sym (first_here e es m something) in
          (
            ap (λ t. EventStream.done t) same ∙ one_done ∙ ap is_some (something ∙ first),
            ap (λ t. EventStream.result t) same ∙ one_result ∙ ap wrapped (something ∙ first),
          )
    ]

-- However many events are pushed on a new stream, it is done exactly when one of them is a `done` or
-- an `error` event, and its result is then the message of the first such event; the result never
-- raises.
pub push_events-first_result :
    (es : List AssistantMessageEvent)
    → ((push_events es new_stream).done ≡ is_some (first_result es))
      × ((push_events es new_stream).result ≡ wrapped (first_result es))
push_events-first_result es = result_from es new_stream refl refl
