-- ===== src/Tests/Runs.antt =====
-- A run of the agent whose provider asks for two calls of a tool.
use pi_agent_python.Base.{
  String, ℕ, zero, suc, ◌+◌, ◌≡◌, ◌≢◌, ◌↔◌, refl, true, false, none, some, [], ◌∷◌,
}
use pi_agent_python.Base.Result.{ok, err}
use pi_agent_python.Ai.Json.{pos, int, null, str, object, Fields, end, field}
use pi_agent_python.Ai.Types.{ToolCall, AssistantMessage, AssistantContent, StopReason}
use pi_agent_python.Ai.Events.{AssistantMessageEvent}
use pi_agent_python.Agent.Schema.{SchemaError, Primitives}
use pi_agent_python.Agent.Schema.Validate.{validate_json_schema}
use pi_agent_python.Agent.Schema.Fuel.{validate_json_schema_terminates}
use pi_agent_python.Agent.Types.{
  AgentMessage, Mode, ThinkingLevel, Exn, Outcome, Model, AgentToolResult, AgentTool, AgentContext,
  AgentLoopConfig, Response,
}
use pi_agent_python.Agent.Loop.{
  Env, PreparedToolCall, pure, continue, ◌>>=◌, attempt, get, change, ask, raise, settle,
}
use pi_agent_python.Agent.Loop.Tools.{failed_tool_result, handle}
use pi_agent_python.Agent.Loop.Batch.{execute_tool_batch}
use pi_agent_python.Agent.Loop.Run.{new_run, run_guarded}
use pi_agent_python.Agent.Loop.Returns.{Always, Returns}
use pi_agent_python.Agent.Loop.Answers.{Sequence}
use pi_agent_python.Agent.Loop.Parallel.{IsFair}
use pi_agent_python.Agent.Loop.Whole.{Returns-execute_tool_batch}
use pi_agent_python.Agent.Loop.Ending.{IsQuiet, IsOver, run_guarded-ends_once}
use pi_agent_python.Agent.Loop.Timeouts.{Raises, handle-Raises}
use pi_agent_python.Tests.Conversation.{question, says, read_call}

-- The world counts the calls of the provider and of the tool.
abbrev World : Type 0
World = ℕ

abbrev python : Primitives
python = record {
  equal = λ a b. false;
  less = λ a b. false;
  less_equal = λ a b. false;
  search = λ p s. some true;
}

abbrev model : Model
model = record {
  api = "openai";
  provider = "openai";
  id = "m";
  name = "M";
  base_url = "";
  reasoning = false;
  context_window = 1000;
  max_tokens = 100;
  headers = [];
  compat = end;
  sampling_params = end;
}

abbrev other_call : ToolCall
other_call = record read_call { id = "c2" }

abbrev two_calls : AssistantMessage
two_calls = says (AssistantContent.tool_call read_call ∷ AssistantContent.tool_call other_call ∷ [])

-- The first answer makes the two calls, the others say something.
abbrev reply : World → AssistantMessage
reply zero = two_calls
reply (suc n) = says []

abbrev respond : World → Outcome (Response World) × World
respond w = (
  ok (record {
    rounds = (λ v. (ok (some (AssistantMessageEvent.done StopReason.stop (reply w))), v)) ∷ [];
    done = λ v. true;
    result = λ v. (ok (reply w), v);
  }),
  w + 1,
)

abbrev env : Env World
env = record {
  stream_fn = λ m c o. respond;
  sink = none;
  cancelled = λ w. none;
  clock = λ w. w;
  schedule = λ w l. l;
  python = python;
  describe = λ path problem. "bad";
  pattern_text = "bad pattern";
  format_g = λ x. "1";
}

abbrev read_schema : Fields
read_schema =
    field "type" (str "object") (
      field "properties" (object (field "path" (object (field "type" (str "string") end)) end)) end)

abbrev read_tool : AgentTool World
read_tool = record {
  name = "read";
  label = "Read";
  description = "";
  parameters = read_schema;
  execute = λ id args w. (([], ok (failed_tool_result "hello")), w + 1);
  prepare_arguments = none;
  execution_mode = Mode.parallel;
  timeout = none;
  constrained_sampling = null;
}

abbrev config : AgentLoopConfig World
config = record {
  model = model;
  convert_to_llm = λ l w. (ok l, w);
  transform_context = none;
  get_api_key = none;
  get_steering_messages = none;
  get_follow_up_messages = none;
  should_stop_after_turn = none;
  prepare_next_turn = none;
  before_tool_call = none;
  after_tool_call = none;
  tool_execution = Mode.parallel;
  thinking_level = ThinkingLevel.off;
  stream_options = record {
    api_key = none;
    headers = [];
    metadata = end;
    sampling_params = end;
    reasoning = none;
  };
}

abbrev context : AgentContext World
context = record {
  system_prompt = "";
  messages = AgentMessage.llm question ∷ [];
  tools = read_tool ∷ [];
}

env-IsFair : IsFair env
env-IsFair = record { same = λ w l p. (λ m. m, λ m. m) }

env-IsQuiet : IsQuiet env
unfolding pure
env-IsQuiet = record { silent = λ e s. refl }

Returns-execute_tool_batch_example :
    Returns Always
      (λ l t. Sequence env config two_calls t (read_call ∷ other_call ∷ []) l)
      (execute_tool_batch env config two_calls (read_call ∷ other_call ∷ []))
Returns-execute_tool_batch_example =
    Returns-execute_tool_batch env config two_calls env-IsFair (read_call ∷ other_call ∷ [])

run_guarded-ends_once_example :
    IsOver env config env-IsQuiet (new_run env config context (AgentMessage.llm question ∷ []) 0) (
      run_guarded env config 5 false
        (AgentMessage.llm question ∷ [])
        (new_run env config context (AgentMessage.llm question ∷ []) 0))
run_guarded-ends_once_example =
    run_guarded-ends_once env config env-IsQuiet 5 false (AgentMessage.llm question ∷ [])
      (new_run env config context (AgentMessage.llm question ∷ []) 0)

abbrev waiting : PreparedToolCall World
waiting = record { index = 0; call = read_call; tool = read_tool; args = read_call.arguments }

handle-Raises_example :
    Raises env config (handle env config waiting (err (Exn.timed_out "slow"))) ↔ (
      ((s : String) × (◌≡◌ {A = Outcome AgentToolResult}
          (err (Exn.timed_out "slow"))
          (err (Exn.timed_out s))))
      × (waiting.tool.timeout ≡ none))
handle-Raises_example = handle-Raises env config waiting (err (Exn.timed_out "slow"))

-- One code point of two bytes is one character.
accent_fits : validate_json_schema python (str "é") (field "maxLength" (int (pos 1)) end) ≡ ok tt
unfolding validate_json_schema
accent_fits = refl

validate_json_schema_terminates_example :
    validate_json_schema python (object read_call.arguments) read_schema
    ≢ err SchemaError.out_of_fuel
validate_json_schema_terminates_example =
    validate_json_schema_terminates python (object read_call.arguments) read_schema

-- The run of the provider above takes two turns, and ends.
run_ends :
    (run_guarded env config 5 false
      (AgentMessage.llm question ∷ [])
      (new_run env config context (AgentMessage.llm question ∷ []) 0)).0
    ≡ ok tt
unfolding run_guarded ◌>>=◌ continue attempt pure get change ask raise settle
run_ends = refl
