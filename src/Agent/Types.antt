-- ===== src/Agent/Types.antt =====
-- src/pi_agent/agent/types.py and src/pi_agent/agent/events.py. What is outside of the loop (provider, tools,
-- hooks, sink, clock, cancellation) is a function of a world `W`, which it may change. A callback returns its
-- value, or the exception that it raises.
use pi_agent_python.Base.{ℕ, String, Bool, Option, List}
use pi_agent_python.Base.Result.{Result}
use pi_agent_python.Base.Dict.{Dict}
use pi_agent_python.Ai.Json.{JsonValue, Fields}
use pi_agent_python.Ai.Types.{
  Float, Usage, UserContent, ToolCall, AssistantMessage, ToolResultMessage, Message,
}
use pi_agent_python.Ai.Events.{AssistantMessageEvent}

-- A message of the model or of the application.
pub data AgentMessage : Type 0 where
  llm : Message → AgentMessage
  app : Fields → AgentMessage

pub data Mode : Type 0 where
  parallel sequential : Mode

pub data ThinkingLevel : Type 0 where
  off minimal low medium high xhigh max : ThinkingLevel

-- An exception, with its `str`.
pub data Exn : Type 0 where
  cancelled : String → Exn
  timed_out : String → Exn
  tool_arguments : String → Exn
  failure : String → Exn
  -- No exception of the source: the loop of the model has used up its fuel.
  out_of_fuel : Exn

abbrev pub Outcome : Type 0 → Type 0
Outcome A = Result Exn A

-- `class Model` of ai/types.py, less the prices, which the loop hands on unread.
pub record Model : Type 0 where
  pub api : String
  pub provider : String
  pub id : String
  pub name : String
  pub base_url : String
  pub reasoning : Bool
  pub context_window : ℕ
  pub max_tokens : ℕ
  pub headers : Dict String (Option String)
  pub compat : Fields
  pub sampling_params : Fields

pub record AgentToolResult : Type 0 where
  pub content : List UserContent
  pub details : JsonValue
  pub usage : Option Usage
  pub added_tool_names : Option (List String)
  pub terminate : Bool
  pub is_error : Bool

-- A call of something outside.
abbrev pub Ask : Type 0 → Type 0 → Type 0
Ask W A = W → Outcome A × W

-- What `execute` does: the results that it hands to `on_update`, in order, and its outcome.
abbrev pub Execution : Type 0
Execution = List AgentToolResult × Outcome AgentToolResult

pub record AgentTool (W : Type 0) : Type 0 where
  pub name : String
  pub label : String
  pub description : String
  pub parameters : Fields
  pub execute : String → Fields → W → Execution × W
  pub prepare_arguments : Option (Fields → Ask W JsonValue)
  pub execution_mode : Mode
  pub timeout : Option Float
  pub constrained_sampling : JsonValue

pub record AgentContext (W : Type 0) : Type 0 where
  pub system_prompt : String
  pub messages : List AgentMessage
  pub tools : List (AgentTool W)

pub record BeforeToolCallContext (W : Type 0) : Type 0 where
  pub assistant_message : AssistantMessage
  pub tool_call : ToolCall
  pub args : Fields
  pub context : AgentContext W

pub record BeforeToolCallResult : Type 0 where
  pub block : Bool
  pub reason : Option String
  pub terminate : Bool

pub record AfterToolCallContext (W : Type 0) : Type 0 where
  pub assistant_message : AssistantMessage
  pub tool_call : ToolCall
  pub args : Fields
  pub result : AgentToolResult
  pub is_error : Bool
  pub context : AgentContext W

-- `details` is none where it is `None`.
pub record AfterToolCallResult : Type 0 where
  pub content : Option (List UserContent)
  pub details : Option JsonValue
  pub replace_details : Bool
  pub is_error : Option Bool
  pub usage : Option Usage
  pub replace_usage : Bool
  pub terminate : Option Bool

pub record CompletedTurnContext (W : Type 0) : Type 0 where
  pub message : AssistantMessage
  pub tool_results : List ToolResultMessage
  pub context : AgentContext W
  pub new_messages : List AgentMessage

pub record AgentLoopTurnUpdate (W : Type 0) : Type 0 where
  pub context : Option (AgentContext W)
  pub model : Option Model
  pub thinking_level : Option ThinkingLevel

-- The type of an event.
pub data AgentEvent : Type 0 where
  agent_start : AgentEvent
  agent_end : List AgentMessage → AgentEvent
  turn_start : AgentEvent
  turn_end : AssistantMessage → List ToolResultMessage → AgentEvent
  message_start : AgentMessage → AgentEvent
  message_update : AssistantMessage → AssistantMessageEvent → AgentEvent
  message_end : AgentMessage → AgentEvent
  tool_execution_start : String → String → Fields → AgentEvent
  tool_execution_update : String → String → Fields → AgentToolResult → AgentEvent
  tool_execution_end : String → String → AgentToolResult → Bool → Fields → AgentEvent

-- The fields of `StreamOptions` of ai/types.py that the loop reads or sets; it hands the others on.
pub record StreamOptions : Type 0 where
  pub api_key : Option String
  pub headers : Dict String (Option String)
  pub metadata : Fields
  pub sampling_params : Fields
  pub reasoning : Option ThinkingLevel

pub record ToolDefinition : Type 0 where
  pub name : String
  pub description : String
  pub parameters : Fields
  pub constrained_sampling : JsonValue

-- `class Context` of ai/types.py
pub record ProviderContext : Type 0 where
  pub messages : List Message
  pub system_prompt : Option String
  pub tools : Option (List ToolDefinition)

-- A provider's answer: the rounds of `async for`, of which one that is none ends the stream; then
-- `response.done` and `await response.result()`.
pub record Response (W : Type 0) : Type 0 where
  pub rounds : List (Ask W (Option AssistantMessageEvent))
  pub done : W → Bool
  pub result : Ask W AssistantMessage

pub record AgentLoopConfig (W : Type 0) : Type 0 where
  pub model : Model
  pub convert_to_llm : List AgentMessage → Ask W (List AgentMessage)
  pub transform_context : Option (List AgentMessage → Ask W (List AgentMessage))
  pub get_api_key : Option (String → Ask W (Option String))
  pub get_steering_messages : Option (Ask W (List AgentMessage))
  pub get_follow_up_messages : Option (Ask W (List AgentMessage))
  pub should_stop_after_turn : Option (CompletedTurnContext W → Ask W Bool)
  pub prepare_next_turn : Option (CompletedTurnContext W → Ask W (Option (AgentLoopTurnUpdate W)))
  pub before_tool_call : Option (BeforeToolCallContext W → Ask W (Option BeforeToolCallResult))
  pub after_tool_call : Option (AfterToolCallContext W → Ask W (Option AfterToolCallResult))
  pub tool_execution : Mode
  pub thinking_level : ThinkingLevel
  pub stream_options : StreamOptions
