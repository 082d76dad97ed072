-- ===== src/Agent/Loop/Batch.antt =====
-- src/pi_agent/agent/agent_loop.py: `_execute_tool_batch`. In a parallel batch each task runs in one piece,
-- in an order that comes from outside; how two tasks interleave is not modelled.
use Prim.Native.String.{◌++◌ as concat}
use pi_agent_python.Base.{
  ℕ, suc, String, Bool, true, false, ◌||◌, Option, none, some, List, [], ◌∷◌, ◌++◌, nat_eq,
  string_eq,
}
use pi_agent_python.Base.Lists.{any}
use pi_agent_python.Base.Dict.{Dict, lookup, insert}
use pi_agent_python.Ai.Types.{StopReason, ToolCall, AssistantMessage, ToolResultMessage}
use pi_agent_python.Agent.Types.{Mode, AgentTool, AgentLoopConfig, AgentEvent}
use pi_agent_python.Agent.Loop.{
  PreparedToolCall, ToolOutcome, Env, Loop, ◌>>=◌, ◌>>◌, pure, get, emit,
}
use pi_agent_python.Agent.Loop.Tools.{
  Preparation, prepared, settled, failed_outcome, prepare_tool_call, run_prepared_tool,
  emit_tool_end, record_result,
}

-- `_TRUNCATED_TOOL_TEMPLATE`
abbrev pub truncated_text : String → String
truncated_text name = concat "Tool call \"" (
    concat name
      "\" was not executed: the response hit the output token limit, so its arguments may be truncated. Re-issue the tool call with complete arguments.")

-- A result message and the outcome that it is made of.
abbrev pub Answers : Type 0
Answers = List (ToolResultMessage × ToolOutcome)

-- `{tool.name: tool for tool in context.tools}`
unfoldable pub tools_by_name :
    {W : Type 0} → List (AgentTool W) → Dict String (AgentTool W) → Dict String (AgentTool W)
unfolding insert
tools_by_name [] d = d
tools_by_name (t ∷ ts) d = tools_by_name ts (insert t.name t d)

abbrev pub is_sequential : Mode → Bool
is_sequential Mode.sequential = true
is_sequential Mode.parallel = false

abbrev pub names_sequential : {W : Type 0} → Dict String (AgentTool W) → ToolCall → Bool
names_sequential d call = elim (lookup call.name d) [
  | none ↦ false
  | some t ↦ is_sequential t.execution_mode
]

abbrev pub is_length : StopReason → Bool
is_length StopReason.length = true
is_length _ = false

module _ {W : Type 0} (env : Env W) (config : AgentLoopConfig W)
    (assistant : AssistantMessage) where
  abbrev pub emit_tool_start : ToolCall → Loop W Unit
  emit_tool_start call = emit env (AgentEvent.tool_execution_start call.id call.name call.arguments)

  -- The loop of `_execute_tool_batch` after a response that was cut short.
  unfoldable pub refuse_truncated : ℕ → List ToolCall → Loop W Answers
  unfolding emit record_result
  refuse_truncated index [] = pure []
  refuse_truncated index (call ∷ calls) = do
    emit_tool_start call
    let outcome : ToolOutcome = failed_outcome index call call.arguments (truncated_text call.name)
    emit_tool_end env outcome
    message ← record_result env outcome
    rest ← refuse_truncated (suc index) calls
    pure ((message, outcome) ∷ rest)

  abbrev pub resolve : Preparation W → Loop W ToolOutcome
  resolve (settled outcome) = pure outcome
  resolve (prepared p) = run_prepared_tool env config assistant p

  -- `if signal is not None and signal.cancelled: break`
  abbrev pub unless_stopped : Option String → Loop W Answers → Loop W Answers
  unless_stopped none rest = rest
  unless_stopped (some reason) rest = pure []

  -- One round of the sequential loop.
  unfoldable pub sequential_call : ℕ → ToolCall → Loop W (ToolResultMessage × ToolOutcome)
  unfolding emit prepare_tool_call run_prepared_tool record_result
  sequential_call index call = do
    emit_tool_start call
    preparation ← prepare_tool_call env config index call assistant
    outcome ← resolve preparation
    emit_tool_end env outcome
    message ← record_result env outcome
    pure (message, outcome)

  -- `_execute_sequential_batch`
  unfoldable pub execute_sequential : ℕ → List ToolCall → Loop W Answers
  unfolding sequential_call
  execute_sequential index [] = pure []
  execute_sequential index (call ∷ calls) = do
    answer ← sequential_call index call
    s ← get
    rest ← unless_stopped (env.cancelled s.world) (execute_sequential (suc index) calls)
    pure (answer ∷ rest)

  abbrev pub Launched : Type 0
  Launched = Dict ℕ ToolOutcome × List (PreparedToolCall W)

  abbrev pub launch : ℕ → Launched → Preparation W → Loop W Launched
  launch index (outcomes, waiting) (prepared p) = pure (outcomes, waiting ++ p ∷ [])
  launch index (outcomes, waiting) (settled outcome) = do
    emit_tool_end env outcome
    pure (insert index outcome outcomes, waiting)

  -- The first loop of `_execute_parallel_batch`.
  unfoldable pub launch_all : ℕ → List ToolCall → Launched → Loop W Launched
  unfolding emit prepare_tool_call insert
  launch_all index [] l = pure l
  launch_all index (call ∷ calls) l = do
    emit_tool_start call
    preparation ← prepare_tool_call env config index call assistant
    next ← launch index l preparation
    launch_all (suc index) calls next

  -- The loop over `as_completed`.
  unfoldable pub complete_all :
      List (PreparedToolCall W) → Dict ℕ ToolOutcome → Loop W (Dict ℕ ToolOutcome)
  unfolding run_prepared_tool insert emit
  complete_all [] outcomes = pure outcomes
  complete_all (p ∷ ps) outcomes = do
    outcome ← run_prepared_tool env config assistant p
    emit_tool_end env outcome
    complete_all ps (insert outcome.index outcome outcomes)

  -- `[outcomes[index] for index in range(len(calls)) if index in outcomes]`
  unfoldable pub ordered : Dict ℕ ToolOutcome → ℕ → List ToolCall → List ToolOutcome
  unfolding lookup
  ordered outcomes index [] = []
  ordered outcomes index (call ∷ calls) =
      let rest = ordered outcomes (suc index) calls in
      elim (lookup index outcomes) [ none ↦ rest | some outcome ↦ outcome ∷ rest ]

  unfoldable pub record_all : List ToolOutcome → Loop W Answers
  unfolding record_result
  record_all [] = pure []
  record_all (o ∷ os) = do
    message ← record_result env o
    rest ← record_all os
    pure ((message, o) ∷ rest)

  -- `_execute_parallel_batch`
  unfoldable pub execute_parallel : List ToolCall → Loop W Answers
  unfolding launch_all complete_all ordered record_all
  execute_parallel calls = do
    (outcomes, waiting) ← launch_all 0 calls ([], [])
    s ← get
    done ← complete_all (env.schedule s.world waiting) outcomes
    record_all (ordered done 0 calls)

  abbrev pub execute_mode : Bool → List ToolCall → Loop W Answers
  execute_mode true calls = execute_sequential 0 calls
  execute_mode false calls = execute_parallel calls

  -- The branches of `_execute_tool_batch` where there are calls.
  abbrev pub execute_calls : Bool → List ToolCall → Loop W Answers
  execute_calls true calls = refuse_truncated 0 calls
  execute_calls false calls = get >>= λ s.
      execute_mode
        (is_sequential config.tool_execution
          || any (names_sequential (tools_by_name s.context.tools [])) calls)
        calls

  -- `_execute_tool_batch`
  unfoldable pub execute_tool_batch : List ToolCall → Loop W Answers
  unfolding refuse_truncated execute_sequential execute_parallel tools_by_name lookup
  execute_tool_batch [] = pure []
  execute_tool_batch (call ∷ calls) = execute_calls (is_length assistant.stop_reason) (call ∷ calls)
