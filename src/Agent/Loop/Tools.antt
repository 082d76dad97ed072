-- ===== src/Agent/Loop/Tools.antt =====
-- src/pi_agent/agent/agent_loop.py: one call of a tool, from its guards to the message of its result.
use Prim.Native.String.{◌++◌ as concat}
use pi_agent_python.Base.{
  ℕ, String, Bool, true, false, Option, none, some, List, [], ◌∷◌, if◌then◌else◌, beq, string_eq,
}
use pi_agent_python.Base.Result.{ok, err}
use pi_agent_python.Ai.Json.{JsonValue, null, object, Fields, end}
use pi_agent_python.Ai.Types.{
  Float, Usage, UserContent, ToolCall, AssistantMessage, ToolResultMessage, Message,
}
use pi_agent_python.Agent.Schema.{SchemaError, Checked}
use pi_agent_python.Agent.Schema.Validate.{validate_json_schema}
use pi_agent_python.Agent.Types.{
  AgentMessage, Exn, Outcome, AgentToolResult, AgentTool, BeforeToolCallContext,
  BeforeToolCallResult, AfterToolCallContext, AfterToolCallResult, AgentEvent, AgentLoopConfig, Ask,
  Execution,
}
use pi_agent_python.Agent.Loop.{
  PreparedToolCall, ToolOutcome, Env, Loop, text_or, option_text_or, text_of, ◌>>=◌, ◌>>◌, pure,
  raise, attempt, settle, ask, get, append_message, emit, raise_if_cancelled, emit_message,
}

-- Text that an f-string joins.
infixr 6 ◌<>◌
abbrev ◌<>◌ : String → String → String
◌<>◌ = concat

-- `_failed_tool_result`
abbrev pub failed_tool_result : String → AgentToolResult
failed_tool_result message = record {
  content = UserContent.text (record { text = message; text_signature = none }) ∷ [];
  details = object end;
  usage = none;
  added_tool_names = none;
  terminate = false;
  is_error = false;
}

-- What `_prepare_tool_call` returns.
pub data Preparation (W : Type 0) : Type 0 where
  prepared : PreparedToolCall W → Preparation W
  settled : ToolOutcome → Preparation W

abbrev pub failed_outcome : ℕ → ToolCall → Fields → String → ToolOutcome
failed_outcome index call args message = record {
  index = index;
  call = call;
  args = args;
  result = failed_tool_result message;
  is_error = true;
}

abbrev pub aborted_text : Exn → String
aborted_text x = text_or (text_of x) "Operation aborted"

-- The handlers of `_prepare_tool_call`.
abbrev pub preparation_text : ToolCall → Exn → String
preparation_text call (Exn.cancelled s) = aborted_text (Exn.cancelled s)
preparation_text call (Exn.tool_arguments s) =
    "Invalid arguments for tool " <> call.name <> ": " <> s
preparation_text call x = text_of x

-- `next((candidate for candidate in context.tools if ...), None)`
unfoldable pub find_tool : {W : Type 0} → String → List (AgentTool W) → Option (AgentTool W)
find_tool name [] = none
find_tool name (t ∷ ts) = if beq t.name name then some t else find_tool name ts

-- The results that `_apply_after_tool_override` replaces.
abbrev pub or_old : {A : Type 0} → A → Option A → A
or_old old none = old
or_old old (some new) = new

abbrev pub override_details : JsonValue → Bool → Option JsonValue → JsonValue
override_details old replace (some new) = new
override_details old true none = null
override_details old false none = old

abbrev pub override_usage : Option Usage → Bool → Option Usage → Option Usage
override_usage old replace (some new) = some new
override_usage old true none = none
override_usage old false none = old

-- `_apply_after_tool_override`
abbrev pub apply_after_tool_override :
    AgentToolResult → Bool → AfterToolCallResult → AgentToolResult × Bool
apply_after_tool_override result is_error override = (
  record result {
    content = or_old result.content override.content;
    details = override_details result.details override.replace_details override.details;
    usage = override_usage result.usage override.replace_usage override.usage;
    terminate = or_old result.terminate override.terminate;
  },
  or_old is_error override.is_error,
)

module _ {W : Type 0} (env : Env W) where
  abbrev pub checked_to : Checked → Loop W Unit
  checked_to (ok u) = pure tt
  checked_to (err (SchemaError.tool_arguments path problem)) =
      raise (Exn.tool_arguments (env.describe path problem))
  checked_to (err SchemaError.pattern_error) = raise (Exn.failure env.pattern_text)
  checked_to (err SchemaError.out_of_fuel) = raise Exn.out_of_fuel

  abbrev pub prepared_object : JsonValue → Loop W Fields
  prepared_object (object args) = pure args
  prepared_object _ = raise (Exn.tool_arguments "prepared arguments must be an object")

  abbrev pub prepare_with : Option (Fields → Ask W JsonValue) → Fields → Loop W Fields
  prepare_with none args = pure args
  prepare_with (some f) args = ask (f args) >>= prepared_object

  module _ (call : ToolCall) (index : ℕ) (args : Fields) (tool : AgentTool W) where
    abbrev pub blocked : Option BeforeToolCallResult → Loop W (Preparation W)
    blocked none = pure (prepared (record { index = index; call = call; tool = tool; args = args }))
    blocked (some decision) =
        if decision.block
        then pure (
            settled (record {
              index = index;
              call = call;
              args = args;
              result =
                  record (failed_tool_result
                    (option_text_or decision.reason ("Tool " <> call.name <> " was blocked"))) {
                      terminate = decision.terminate;
                    };
              is_error = true;
            }))
        else pure (prepared (record { index = index; call = call; tool = tool; args = args }))

    abbrev pub before_with :
        AssistantMessage
        → Option (BeforeToolCallContext W → Ask W (Option BeforeToolCallResult))
        → Loop W (Preparation W)
    before_with assistant none = blocked none
    before_with assistant (some hook) = do
      s ← get
      decision ← ask (
          hook (record {
            assistant_message = assistant;
            tool_call = call;
            args = args;
            context = s.context;
          }))
      blocked decision

  module _ (config : AgentLoopConfig W) where
    -- The rest of the `try` of `_prepare_tool_call`, once the arguments are prepared.
    unfoldable pub check_call :
        ToolCall → ℕ → AssistantMessage → AgentTool W → Fields → Loop W (Preparation W)
    unfolding validate_json_schema
    check_call call index assistant tool args = do
      checked_to (validate_json_schema env.python (object args) tool.parameters)
      before_with call index args tool assistant config.before_tool_call

    abbrev pub or_failed : ToolCall → ℕ → Fields → Outcome (Preparation W) → Loop W (Preparation W)
    or_failed call index args (ok p) = pure p
    or_failed call index args (err x) =
        pure (settled (failed_outcome index call args (preparation_text call x)))

    abbrev pub then_check :
        ToolCall → ℕ → AssistantMessage → AgentTool W → Outcome Fields → Loop W (Preparation W)
    then_check call index assistant tool (err x) = or_failed call index call.arguments (err x)
    then_check call index assistant tool (ok args) =
        attempt (check_call call index assistant tool args) >>= or_failed call index args

    abbrev pub prepare_found :
        ℕ → ToolCall → AssistantMessage → Option (AgentTool W) → Loop W (Preparation W)
    prepare_found index call assistant none =
        pure (
          settled (failed_outcome index call call.arguments ("Tool " <> call.name <> " not found")))
    prepare_found index call assistant (some tool) =
        attempt (raise_if_cancelled env >> prepare_with tool.prepare_arguments call.arguments)
        >>= then_check call index assistant tool

    -- `_prepare_tool_call`
    unfoldable pub prepare_tool_call : ℕ → ToolCall → AssistantMessage → Loop W (Preparation W)
    unfolding find_tool check_call
    prepare_tool_call index call assistant =
        get >>= λ s. prepare_found index call assistant (find_tool call.name s.context.tools)

    -- The token after the execution: the second `_raise_if_cancelled`.
    abbrev pub unless_cancelled : Option String → Outcome AgentToolResult → Outcome AgentToolResult
    unless_cancelled (some reason) (ok result) = err (Exn.cancelled reason)
    unless_cancelled _ outcome = outcome

    abbrev pub execute_unless : PreparedToolCall W → Option String → W → Execution × W
    execute_unless p (some reason) w = (([], err (Exn.cancelled reason)), w)
    execute_unless p none w =
        let ((updates, outcome), after) = p.tool.execute p.call.id p.args w in
        ((updates, unless_cancelled (env.cancelled after) outcome), after)

    abbrev pub run_execution : PreparedToolCall W → Loop W Execution
    run_execution p s =
        let (done, w) = execute_unless p (env.cancelled s.world) s.world in
        (ok done, record s { world = w })

    -- The handlers of `_run_prepared_tool`. Without a timeout the text of a `TimeoutError` cannot be
    -- formatted, and the handler raises.
    abbrev pub timeout_result : String → Option Float → Outcome (AgentToolResult × Bool)
    timeout_result name none =
        err (Exn.failure "unsupported format string passed to NoneType.__format__")
    timeout_result name (some t) =
        ok (
          failed_tool_result ("Tool " <> name <> " timed out after " <> env.format_g t <> "s"),
          true,
        )

    unfoldable pub handle :
        PreparedToolCall W → Outcome AgentToolResult → Outcome (AgentToolResult × Bool)
    handle p (ok result) = ok (result, result.is_error)
    handle p (err (Exn.timed_out s)) = timeout_result p.call.name p.tool.timeout
    handle p (err (Exn.cancelled s)) =
        ok (failed_tool_result (aborted_text (Exn.cancelled s)), true)
    handle p (err x) = ok (failed_tool_result (text_of x), true)

    abbrev pub first_error : Outcome Unit → Outcome Unit → Outcome Unit
    first_error (err x) later = err x
    first_error (ok u) later = later

    -- The `finally`: every update is emitted, and the first exception of them is raised.
    unfoldable pub emit_updates : PreparedToolCall W → List AgentToolResult → Loop W Unit
    unfolding emit
    emit_updates p [] = pure tt
    emit_updates p (r ∷ rs) = do
      here ← attempt (emit env (AgentEvent.tool_execution_update p.call.id p.call.name p.args r))
      later ← attempt (emit_updates p rs)
      settle (first_error here later)

    abbrev pub overridden :
        AgentToolResult × Bool
        → Outcome (Option AfterToolCallResult)
        → Loop W (AgentToolResult × Bool)
    overridden (result, is_error) (ok none) = pure (result, is_error)
    overridden (result, is_error) (ok (some override)) =
        pure (apply_after_tool_override result is_error override)
    overridden (result, is_error) (err (Exn.cancelled s)) = raise (Exn.cancelled s)
    overridden (result, is_error) (err x) = pure (failed_tool_result (text_of x), true)

    -- `if config.after_tool_call is not None`
    abbrev pub after_with :
        AssistantMessage
        → PreparedToolCall W
        → Option (AfterToolCallContext W → Ask W (Option AfterToolCallResult))
        → AgentToolResult × Bool
        → Loop W (AgentToolResult × Bool)
    after_with assistant p none done = pure done
    after_with assistant p (some hook) (result, is_error) = do
      s ← get
      answer ← attempt (
          ask (
            hook (record {
              assistant_message = assistant;
              tool_call = p.call;
              args = p.args;
              result = result;
              is_error = is_error;
              context = s.context;
            })))
      overridden (result, is_error) answer

    -- `_run_prepared_tool`
    unfoldable pub run_prepared_tool : AssistantMessage → PreparedToolCall W → Loop W ToolOutcome
    unfolding handle emit_updates
    run_prepared_tool assistant p = do
      (updates, outcome) ← run_execution p
      emit_updates p updates
      done ← settle (handle p outcome)
      (result, is_error) ← after_with assistant p config.after_tool_call done
      pure (record {
        index = p.index;
        call = p.call;
        args = p.args;
        result = result;
        is_error = is_error;
      })

  -- `_emit_tool_end`
  abbrev pub emit_tool_end : ToolOutcome → Loop W Unit
  emit_tool_end o =
      emit env (AgentEvent.tool_execution_end o.call.id o.call.name o.result o.is_error o.args)

  abbrev pub result_message : ToolOutcome → ℕ → ToolResultMessage
  result_message o now = record {
    tool_call_id = o.call.id;
    tool_name = o.call.name;
    content = o.result.content;
    details = o.result.details;
    usage = o.result.usage;
    added_tool_names = o.result.added_tool_names;
    is_error = o.is_error;
    timestamp = now;
  }

  -- `_emit_tool_result_message`, with the two appends that follow it everywhere
  unfoldable pub record_result : ToolOutcome → Loop W ToolResultMessage
  unfolding emit_message
  record_result o = do
    s ← get
    let m : ToolResultMessage = result_message o (env.clock s.world)
    emit_message env (AgentMessage.llm (Message.tool_result m))
    append_message (AgentMessage.llm (Message.tool_result m))
    pure m
