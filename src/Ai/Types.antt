-- ===== src/Ai/Types.antt =====
-- src/pi_agent/ai/types.py: content blocks, messages and usage.
-- Floats (costs) are carried as 64-bit patterns; token counts are natural numbers.
use pi_agent_python.Base.{ℕ, String, Bool, true, false, Option, none, List, [], ◌∷◌}
use pi_agent_python.Ai.Json.{JsonValue, Fields}

abbrev pub Float : Type 0
Float = ℕ

pub data StopReason : Type 0 where
  pending stop length tool_use error aborted deferred : StopReason

pub record UsageCost : Type 0 where
  pub input : Float
  pub output : Float
  pub cache_read : Float
  pub cache_write : Float
  pub total : Float

pub record Usage : Type 0 where
  pub input : ℕ
  pub output : ℕ
  pub cache_read : ℕ
  pub cache_write : ℕ
  pub cache_write_1h : Option ℕ
  pub reasoning : Option ℕ
  pub total_tokens : ℕ
  pub cost : UsageCost

-- `Usage.zero()`
abbrev pub zero_usage : Usage
zero_usage = record {
  input = 0;
  output = 0;
  cache_read = 0;
  cache_write = 0;
  cache_write_1h = none;
  reasoning = none;
  total_tokens = 0;
  cost = record { input = 0; output = 0; cache_read = 0; cache_write = 0; total = 0 };
}

pub record TextContent : Type 0 where
  pub text : String
  pub text_signature : Option String

pub record ThinkingContent : Type 0 where
  pub thinking : String
  pub thinking_signature : Option String
  pub redacted : Option Bool

-- `payload` is the field `data` of the source.
pub record ImageContent : Type 0 where
  pub payload : String
  pub mime_type : String

pub record ToolCall : Type 0 where
  pub id : String
  pub name : String
  pub arguments : Fields
  pub thought_signature : Option String
  pub namespace : Option String

pub data AssistantContent : Type 0 where
  text : TextContent → AssistantContent
  thinking : ThinkingContent → AssistantContent
  tool_call : ToolCall → AssistantContent

-- also `ToolResultContent` and `ToolContent`
pub data UserContent : Type 0 where
  text : TextContent → UserContent
  image : ImageContent → UserContent

pub data UserBody : Type 0 where
  plain : String → UserBody
  blocks : List UserContent → UserBody

pub record UserMessage : Type 0 where
  pub content : UserBody
  pub timestamp : ℕ

pub record AssistantMessage : Type 0 where
  pub content : List AssistantContent
  pub api : String
  pub provider : String
  pub model : String
  pub response_model : Option String
  pub response_id : Option String
  pub usage : Usage
  pub stop_reason : StopReason
  pub error_message : Option String
  pub raw_stop_reason : Option String
  pub end_turn : Option Bool
  pub diagnostics : List Fields
  pub timestamp : ℕ

pub record ToolResultMessage : Type 0 where
  pub tool_call_id : String
  pub tool_name : String
  pub content : List UserContent
  pub details : JsonValue
  pub usage : Option Usage
  pub added_tool_names : Option (List String)
  pub is_error : Bool
  pub timestamp : ℕ

pub data Message : Type 0 where
  user : UserMessage → Message
  assistant : AssistantMessage → Message
  tool_result : ToolResultMessage → Message

-- `[block for block in content if isinstance(block, ToolCall)]`
unfoldable pub tool_calls : List AssistantContent → List ToolCall
tool_calls [] = []
tool_calls (AssistantContent.tool_call c ∷ bs) = c ∷ tool_calls bs
tool_calls (AssistantContent.text _ ∷ bs) = tool_calls bs
tool_calls (AssistantContent.thinking _ ∷ bs) = tool_calls bs

abbrev pub is_user : Message → Bool
is_user (Message.user _) = true
is_user (Message.assistant _) = false
is_user (Message.tool_result _) = false
