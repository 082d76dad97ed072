-- ===== src/Agent/Loop/Run.antt =====
-- src/pi_agent/agent/agent_loop.py: `_run_loop` on fuel, and `_run_guarded` around it.
use pi_agent_python.Base.{
  ℕ, zero, suc, String, Bool, true, false, not, ◌&&◌, ◌||◌, Option, none, some, List, [], ◌∷◌, ◌++◌,
  map, if◌then◌else◌, nat_eq, string_eq,
}
use pi_agent_python.Base.Lists.{all, last?}
use pi_agent_python.Base.Result.{Result, ok, err}
use pi_agent_python.Ai.Types.{
  StopReason, ToolCall, AssistantMessage, ToolResultMessage, Message, tool_calls, zero_usage,
}
use pi_agent_python.Ai.EventStream.{new_stream, end as end_stream}
use pi_agent_python.Agent.Types.{
  AgentMessage, Exn, Outcome, Model, ThinkingLevel, AgentContext, CompletedTurnContext,
  AgentLoopTurnUpdate, AgentEvent, AgentLoopConfig, Ask,
}
use pi_agent_python.Agent.Loop.{
  Env, LoopState, Loop, ◌>>=◌, ◌>>◌, pure, raise, attempt, ask, get, change, set_messages,
  append_message, emit, emit_message, raise_if_cancelled,
}
use pi_agent_python.Agent.Loop.Tools.{aborted_text}
use pi_agent_python.Agent.Loop.Batch.{Answers, execute_tool_batch}
use pi_agent_python.Agent.Loop.Turn.{assistant_message, stream_assistant_response}

-- The local variables of `_run_loop` that change from turn to turn.
pub record Locals (W : Type 0) : Type 0 where
  pub model : Model
  pub thinking_level : ThinkingLevel
  pub last_completed : Option (CompletedTurnContext W)
  pub pending : List AgentMessage

-- What a turn leaves: the run has ended, or it goes on.
pub data Step (W : Type 0) : Type 0 where
  finished : Step W
  goes_on : Bool → Locals W → Step W

abbrev pub or_keep : {A : Type 0} → Option A → A → A
or_keep none old = old
or_keep (some new) old = new

abbrev pub is_failed : StopReason → Bool
is_failed StopReason.error = true
is_failed StopReason.aborted = true
is_failed _ = false

abbrev pub is_empty : {A : Type 0} → List A → Bool
is_empty [] = true
is_empty (x ∷ xs) = false

-- `bool(executions) and all(outcome.result.terminate for outcome in executions)`
abbrev pub terminates : Answers → Bool
terminates answers = not (is_empty answers) && all (λ a. a.1.result.terminate) answers

module _ {W : Type 0} (env : Env W) (config : AgentLoopConfig W) where
  -- `config.get_steering_messages`, and the like for what follows up
  abbrev pub queued :
      Option (Ask W (List AgentMessage)) → List AgentMessage → Loop W (List AgentMessage)
  queued none l = pure l
  queued (some f) l = ask f

  -- A context that replaces the current one; the first stays the caller's.
  abbrev pub replace_context : Option (AgentContext W) → Loop W Unit
  replace_context none = pure tt
  replace_context (some c) =
      change λ s. record s { context = c; first_context = some (or_keep s.first_context s.context) }

  -- `_apply_turn_update`
  abbrev pub apply_update : Locals W → Option (AgentLoopTurnUpdate W) → Loop W (Locals W)
  apply_update l none = pure l
  apply_update l (some u) = do
    replace_context u.context
    pure (record l {
      model = or_keep u.model l.model;
      thinking_level = or_keep u.thinking_level l.thinking_level;
    })

  abbrev pub prepare_next :
      Option (CompletedTurnContext W → Ask W (Option (AgentLoopTurnUpdate W)))
      → CompletedTurnContext W
      → Locals W
      → Loop W (Locals W)
  prepare_next none completed l = pure l
  prepare_next (some f) completed l = ask (f completed) >>= apply_update l

  abbrev pub steer_if_empty : List AgentMessage → Loop W (List AgentMessage)
  steer_if_empty [] = queued config.get_steering_messages []
  steer_if_empty (m ∷ ms) = pure (m ∷ ms)

  -- `if last_completed is not None`
  abbrev pub begin_turn : Option (CompletedTurnContext W) → Locals W → Loop W (Locals W)
  begin_turn none l = pure l
  begin_turn (some completed) l = do
    next ← prepare_next config.prepare_next_turn completed l
    pending ← steer_if_empty next.pending
    emit env AgentEvent.turn_start
    pure (record next { pending = pending })

  -- The loop over the copied messages.
  unfoldable pub inject : List AgentMessage → Loop W Unit
  unfolding emit_message
  inject [] = pure tt
  inject (m ∷ ms) = do emit_message env m; append_message m; inject ms

  abbrev pub stop_with :
      Option (CompletedTurnContext W → Ask W Bool) → CompletedTurnContext W → Loop W Bool
  stop_with none completed = pure false
  stop_with (some f) completed = ask (f completed)

  -- `AgentEndEvent(copy.deepcopy(new_messages))`
  abbrev pub emit_end : Loop W Unit
  emit_end = get >>= λ s. emit env (AgentEvent.agent_end s.new_messages)

  abbrev pub after_turn : Bool → Bool → Locals W → Loop W (Step W)
  after_turn true more l = emit_end >> pure finished
  after_turn false more l = do
    pending ← queued config.get_steering_messages []
    pure (goes_on more (record l { pending = pending }))

  -- The turn after an answer that is no failure.
  unfoldable pub run_tools : Locals W → AssistantMessage → Loop W (Step W)
  unfolding execute_tool_batch tool_calls emit
  run_tools l assistant = do
    let calls : List ToolCall = tool_calls assistant.content
    answers ← execute_tool_batch env config assistant calls
    let results : List ToolResultMessage = map (λ a. a.0) answers
    emit env (AgentEvent.turn_end assistant results)
    s ← get
    let completed : CompletedTurnContext W = record {
      message = assistant;
      tool_results = results;
      context = s.context;
      new_messages = s.new_messages;
    }
    stop ← stop_with config.should_stop_after_turn completed
    after_turn stop (not (is_empty calls) && not (terminates answers))
        (record l { last_completed = some completed; pending = [] })

  abbrev pub after_answer : Bool → Locals W → AssistantMessage → Loop W (Step W)
  after_answer false l assistant = run_tools l assistant
  after_answer true l assistant = do
    emit env (AgentEvent.turn_end assistant [])
    emit_end
    pure finished

  -- The body of the inner `while`.
  unfoldable pub turn : Locals W → Loop W (Step W)
  unfolding inject stream_assistant_response run_tools emit
  turn l = do
    ready ← begin_turn l.last_completed l
    inject ready.pending
    raise_if_cancelled env
    assistant ← stream_assistant_response env config ready.model ready.thinking_level
    after_answer (is_failed assistant.stop_reason) (record ready { pending = [] }) assistant

  abbrev pub follow :
      Loop W Unit → (Locals W → Loop W Unit) → Locals W → List AgentMessage → Loop W Unit
  follow ending again l [] = ending
  follow ending again l (m ∷ ms) = again (record l { pending = m ∷ ms })

  -- The test of the inner `while`, and what follows it.
  abbrev pub next_turn : (Locals W → Loop W Unit) → Step W → Loop W Unit
  next_turn again finished = pure tt
  next_turn again (goes_on more l) =
      if more || not (is_empty l.pending)
      then again l
      else (queued config.get_follow_up_messages [] >>= follow emit_end again l)

  -- Both loops: a turn for each unit of fuel.
  unfoldable pub run_turns : ℕ → Locals W → Loop W Unit
  unfolding turn emit
  run_turns zero l = raise Exn.out_of_fuel
  run_turns (suc fuel) l = turn l >>= next_turn (run_turns fuel)

  unfoldable pub emit_prompts : Bool → List AgentMessage → Loop W Unit
  unfolding emit_message
  emit_prompts true prompts = pure tt
  emit_prompts false [] = pure tt
  emit_prompts false (p ∷ ps) = emit_message env p >> emit_prompts false ps

  -- `_run_loop`
  unfoldable pub run_loop : ℕ → Bool → List AgentMessage → Loop W Unit
  unfolding emit_prompts run_turns emit
  run_loop fuel is_continue prompts = do
    emit env AgentEvent.agent_start
    emit env AgentEvent.turn_start
    emit_prompts is_continue prompts
    pending ← queued config.get_steering_messages []
    run_turns fuel (record {
      model = config.model;
      thinking_level = config.thinking_level;
      last_completed = none;
      pending = pending;
    })

  abbrev pub failure_message : StopReason → String → ℕ → AssistantMessage
  failure_message reason text now = record {
    content = [];
    api = config.model.api;
    provider = config.model.provider;
    model = config.model.id;
    response_model = none;
    response_id = none;
    usage = zero_usage;
    stop_reason = reason;
    error_message = some text;
    raw_stop_reason = none;
    end_turn = none;
    diagnostics = [];
    timestamp = now;
  }

  -- `context.messages.append(error)`, on the caller's context
  abbrev pub append_first : Option (AgentContext W) → AgentMessage → LoopState W → LoopState W
  append_first none m s = set_messages (s.context.messages ++ m ∷ []) s
  append_first (some c) m s = record s {
    first_context = some (record c { messages = c.messages ++ m ∷ [] });
  }

  abbrev pub append_failure : AgentMessage → LoopState W → LoopState W
  append_failure m s = append_first s.first_context m s

  -- `_finish_after_loop_failure`
  unfoldable pub finish_after_loop_failure : StopReason → String → Loop W Unit
  unfolding emit_message emit
  finish_after_loop_failure reason text = do
    s ← get
    let error : AssistantMessage = failure_message reason text (env.clock s.world)
    emit_message env (assistant_message error)
    change (append_failure (assistant_message error))
    emit env (AgentEvent.turn_end error [])
    last ← get
    emit env (AgentEvent.agent_end (last.new_messages ++ assistant_message error ∷ []))

  abbrev pub guard_with : Outcome Unit → Loop W Unit
  guard_with (ok u) = pure tt
  guard_with (err (Exn.cancelled s)) =
      finish_after_loop_failure StopReason.aborted (aborted_text (Exn.cancelled s))
  guard_with (err Exn.out_of_fuel) = raise Exn.out_of_fuel
  guard_with (err (Exn.timed_out s)) = finish_after_loop_failure StopReason.error s
  guard_with (err (Exn.tool_arguments s)) = finish_after_loop_failure StopReason.error s
  guard_with (err (Exn.failure s)) = finish_after_loop_failure StopReason.error s

  abbrev pub close : Outcome Unit → Loop W Unit
  close r s = (r, record s { stream = end_stream none s.stream })

  -- `_run_guarded`, whose `finally` ends the stream
  unfoldable pub run_guarded : ℕ → Bool → List AgentMessage → Loop W Unit
  unfolding run_loop finish_after_loop_failure end_stream
  run_guarded fuel is_continue prompts =
      attempt (attempt (run_loop fuel is_continue prompts) >>= guard_with) >>= close

  abbrev pub new_run : AgentContext W → List AgentMessage → W → LoopState W
  new_run context prompts w = record {
    world = w;
    emitted = [];
    stream = new_stream;
    context = context;
    first_context = none;
    new_messages = prompts;
  }

  -- `agent_loop`
  unfoldable pub agent_loop :
      ℕ → List AgentMessage → AgentContext W → W → Outcome Unit × LoopState W
  unfolding run_guarded
  agent_loop fuel prompts context w =
      run_guarded fuel false prompts
        (new_run (record context { messages = context.messages ++ prompts }) prompts w)

  abbrev pub is_assistant : AgentMessage → Bool
  is_assistant (AgentMessage.llm (Message.assistant m)) = true
  is_assistant _ = false

  abbrev pub continue_from :
      ℕ → AgentContext W → W → Option AgentMessage → Result Exn (Outcome Unit × LoopState W)
  continue_from fuel context w none = err (Exn.failure "Cannot continue an empty context")
  continue_from fuel context w (some m) =
      if is_assistant m
      then err (Exn.failure "Cannot continue when the last message is an assistant message")
      else ok (run_guarded fuel true [] (new_run context [] w))

  -- `agent_loop_continue`, on the caller's own list of messages
  unfoldable pub agent_loop_continue :
      ℕ → AgentContext W → W → Result Exn (Outcome Unit × LoopState W)
  unfolding run_guarded
  agent_loop_continue fuel context w = continue_from fuel context w (last? context.messages)
