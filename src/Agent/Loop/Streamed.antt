-- ===== src/Agent/Loop/Streamed.antt =====
-- No turn of src/pi_agent/agent/agent_loop.py emits `agent_end` before its last step: the answer of the model.
use pi_agent_python.Base.{String, ℕ, refl, Bool, true, false, Option, none, some, List, [], ◌∷◌}
use pi_agent_python.Ai.Types.{AssistantMessage, Message}
use pi_agent_python.Ai.Events.{AssistantMessageEvent}
use pi_agent_python.Agent.Types.{
  AgentMessage, Model, ThinkingLevel, AgentLoopConfig, Ask, StreamOptions,
}
use pi_agent_python.Agent.Loop.{Env, Loop}
use pi_agent_python.Agent.Loop.Turn.{
  Progress, Kind, kind_of, insert_partial, replace_partial, insert_unless, insert_or_replace,
  finish_message, start_message, take_kind, take_event, unless_closed, read_events, final_or,
  require_done, transform_with, require_llm, refresh_key, request, stream_assistant_response,
}
use pi_agent_python.Agent.Loop.Log.{
  Continues, Continues->>=, Continues-pure, Continues-raise, Continues-get, Continues-ask,
  Continues-change, Continues-emit,
}
use pi_agent_python.Agent.Loop.Open.{Continues-append_message}

module _ {W : Type 0} (env : Env W) where
  Continues-insert_partial : (m : AssistantMessage) → Continues (insert_partial env m)
  unfolding insert_partial
  Continues-insert_partial m = Continues->>= _ _ (Continues-append_message env _) (λ _.
      Continues->>= _ _ Continues-get
        (λ s. Continues->>= _ _ (Continues-emit env _ refl) (λ _. Continues-pure _)))

  Continues-replace_partial :
      (index : ℕ) (m : AssistantMessage) → Continues (replace_partial env index m)
  Continues-replace_partial index m = Continues-change _ (λ s. refl)

  Continues-insert_unless :
      (m : AssistantMessage) (o : Option ℕ) → Continues (insert_unless env m o)
  Continues-insert_unless m none = Continues-insert_partial m
  Continues-insert_unless m (some index) = Continues-pure index

  Continues-insert_or_replace :
      (m : AssistantMessage) (o : Option ℕ) → Continues (insert_or_replace env m o)
  Continues-insert_or_replace m none = Continues-insert_partial m
  Continues-insert_or_replace m (some index) =
      Continues->>= _ _ (Continues-replace_partial index m) (λ _. Continues-pure index)

  Continues-finish_message :
      (m : AssistantMessage) (o : Option ℕ) → Continues (finish_message env m o)
  unfolding finish_message
  Continues-finish_message m o = Continues->>= _ _ (Continues-insert_unless _ o) (λ index.
      Continues->>= _ _ (Continues-replace_partial index m)
        (λ _. Continues->>= _ _ (Continues-emit env _ refl) (λ _. Continues-pure index)))

  Continues-start_message :
      (m : AssistantMessage) (o : Option ℕ) → Continues (start_message env m o)
  Continues-start_message m none = Continues-insert_partial m
  Continues-start_message m (some index) = Continues-raise _

  Continues-take_kind :
      (p : Progress) (event : AssistantMessageEvent) (k : Kind)
      → Continues (take_kind env p event k)
  Continues-take_kind p event (Kind.starts m) =
      Continues->>= _ _ (Continues-start_message m p.index) (λ index. Continues-pure _)
  Continues-take_kind p event (Kind.ends m) =
      Continues->>= _ _ (Continues-finish_message m p.index) (λ index. Continues-pure _)
  Continues-take_kind p event (Kind.updates m) =
      Continues->>= _ _ (Continues-insert_or_replace m p.index)
        (λ index. Continues->>= _ _ (Continues-emit env _ refl) (λ _. Continues-pure _))

  Continues-unless_closed :
      (p : Progress) (o : Option AssistantMessageEvent) (rest : Progress → Loop W Progress)
      → ((q : Progress) → Continues (rest q))
      → Continues (unless_closed env p o rest)
  unfolding take_event
  Continues-unless_closed p none rest h = Continues-pure p
  Continues-unless_closed p (some event) rest h =
      Continues->>= _ _ (Continues-take_kind p event (kind_of event)) h

  Continues-read_events :
      (rounds : List (Ask W (Option AssistantMessageEvent))) (p : Progress)
      → Continues (read_events env rounds p)
  unfolding read_events
  Continues-read_events [] p = Continues-pure p
  Continues-read_events (round ∷ rounds) p =
      Continues->>= _ _ (Continues-ask round)
        (λ o. Continues-unless_closed p o (read_events env rounds) (Continues-read_events rounds))

  Continues-final_or :
      (m : AssistantMessage) (p : Progress) (o : Option AssistantMessage)
      → Continues (final_or env m p o)
  Continues-final_or m p (some final) = Continues-pure final
  Continues-final_or m p none =
      Continues->>= _ _ (Continues-finish_message m p.index) (λ _. Continues-pure m)

  Continues-require_done : (b : Bool) → Continues (require_done env b)
  Continues-require_done true = Continues-pure tt
  Continues-require_done false = Continues-raise _

  Continues-transform_with :
      (o : Option (List AgentMessage → Ask W (List AgentMessage))) (l : List AgentMessage)
      → Continues (transform_with env o l)
  Continues-transform_with none l = Continues-pure l
  Continues-transform_with (some f) l = Continues-ask (f l)

  Continues-require_llm : (o : Option (List Message)) → Continues (require_llm env o)
  Continues-require_llm none = Continues-raise _
  Continues-require_llm (some l) = Continues-pure l

  Continues-refresh_key :
      (o : Option (String → Ask W (Option String))) (m : Model) (options : StreamOptions)
      → Continues (refresh_key env o m options)
  Continues-refresh_key none m options = Continues-pure options
  Continues-refresh_key (some f) m options =
      Continues->>= _ _ (Continues-ask (f m.provider)) (λ key. Continues-pure _)

  Continues-request :
      (config : AgentLoopConfig W) (m : Model) (level : ThinkingLevel)
      → Continues (request env config m level)
  unfolding request
  Continues-request config m level = Continues->>= _ _ Continues-get (λ s.
      Continues->>= _ _ (Continues-transform_with config.transform_context s.context.messages) (λ t.
        Continues->>= _ _ (Continues-ask (config.convert_to_llm t)) (λ l.
          Continues->>= _ _ (Continues-require_llm _) (λ ms.
            Continues->>= _ _ (Continues-refresh_key config.get_api_key m _)
              (λ o. Continues-ask _)))))

  pub Continues-stream_assistant_response :
      (config : AgentLoopConfig W) (m : Model) (level : ThinkingLevel)
      → Continues (stream_assistant_response env config m level)
  unfolding stream_assistant_response
  Continues-stream_assistant_response config m level =
      Continues->>= _ _ (Continues-request config m level) (λ r.
        Continues->>= _ _ (Continues-read_events r.rounds _) (λ p.
          Continues->>= _ _ Continues-get (λ s. Continues->>= _ _ (Continues-require_done _) (λ _.
            Continues->>= _ _ (Continues-ask r.result) (λ m. Continues-final_or m p p.final)))))
