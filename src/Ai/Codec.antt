-- ===== src/Ai/Codec.antt =====
-- The dictionaries of src/pi_agent/ai/types.py: `content_to_dict` to
-- `message_to_dict`, and the errors of the
-- other way, which is in `Ai/Codec/Read.antt`.
pub mod Read
pub mod Optional
pub mod Contents
pub mod RoundTrip
use pi_agent_python.Base.{
  ℕ, String, Bool, true, false, ◌||◌, Option, none, some, List, [], ◌∷◌, if◌then◌else◌, beq,
  string_eq,
}
use pi_agent_python.Base.Result.{Result, ok, err, ◌>>=◌, ◌>>◌}
use pi_agent_python.Ai.Json.{
  pos, JsonValue, null, bool, int, float, str, array, object, Items, nil, cons, Fields, end, field,
  get_field, truthy,
}
use pi_agent_python.Ai.Types.{
  StopReason, Float, Usage, UsageCost, TextContent, ThinkingContent, ImageContent, ToolCall,
  AssistantContent, UserContent, UserBody, UserMessage, AssistantMessage, ToolResultMessage,
  Message,
}

pub data CodecError : Type 0 where
  unknown_content_type : CodecError
  arguments_not_object : CodecError
  content_not_list : CodecError
  unknown_role : CodecError
  -- What `int` and `float` raise.
  not_a_number : CodecError
  type_error : CodecError
  overflow_error : CodecError
  -- What `.get` raises on a value that is no dictionary.
  attribute_error : CodecError
  -- No exception of the source, which keeps a value of another type there; the types cannot hold it.
  uncast : CodecError

-- A key that is only there where there is a value.
abbrev pub text_field : String → Option String → Fields → Fields
text_field k none fs = fs
text_field k (some s) fs = field k (str s) fs

abbrev pub bool_field : String → Option Bool → Fields → Fields
bool_field k none fs = fs
bool_field k (some b) fs = field k (bool b) fs

abbrev pub number_field : String → Option ℕ → Fields → Fields
number_field k none fs = fs
number_field k (some n) fs = field k (int (pos n)) fs

abbrev pub text_dict : TextContent → Fields
text_dict c =
    field "type" (str "text")
      (field "text" (str c.text) (text_field "textSignature" c.text_signature end))

-- `content_to_dict`, on each of its two unions
unfoldable pub assistant_content_to_dict : AssistantContent → Fields
assistant_content_to_dict (AssistantContent.text c) = text_dict c
assistant_content_to_dict (AssistantContent.thinking c) = field "type" (str "thinking") (
    field "thinking" (str c.thinking)
      (text_field "thinkingSignature" c.thinking_signature (bool_field "redacted" c.redacted end)))
assistant_content_to_dict (AssistantContent.tool_call c) = field "type" (str "toolCall") (
    field "id" (str c.id) (
      field "name" (str c.name) (
        field "arguments" (object c.arguments) (
          text_field "thoughtSignature" c.thought_signature
            (text_field "namespace" c.namespace end)))))

unfoldable pub user_content_to_dict : UserContent → Fields
user_content_to_dict (UserContent.text c) = text_dict c
user_content_to_dict (UserContent.image c) =
    field "type" (str "image")
      (field "data" (str c.payload) (field "mimeType" (str c.mime_type) end))

-- `usage_to_dict`
unfoldable pub usage_to_dict : Usage → Fields
usage_to_dict u = field "input" (int (pos u.input)) (
    field "output" (int (pos u.output)) (
      field "cacheRead" (int (pos u.cache_read)) (
        field "cacheWrite" (int (pos u.cache_write)) (
          field "totalTokens" (int (pos u.total_tokens)) (
            field "cost"
              (object (
                field "input" (float u.cost.input) (
                  field "output" (float u.cost.output) (
                    field "cacheRead" (float u.cost.cache_read) (
                      field "cacheWrite" (float u.cost.cache_write)
                        (field "total" (float u.cost.total) end))))))
              (number_field "cacheWrite1h" u.cache_write_1h
                (number_field "reasoning" u.reasoning end)))))))

abbrev pub stop_text : StopReason → String
stop_text StopReason.pending = "pending"
stop_text StopReason.stop = "stop"
stop_text StopReason.length = "length"
stop_text StopReason.tool_use = "toolUse"
stop_text StopReason.error = "error"
stop_text StopReason.aborted = "aborted"
stop_text StopReason.deferred = "deferred"

-- The lists of content, of names and of diagnostics.
unfoldable pub assistant_items : List AssistantContent → Items
unfolding assistant_content_to_dict
assistant_items [] = nil
assistant_items (c ∷ cs) = cons (object (assistant_content_to_dict c)) (assistant_items cs)

unfoldable pub user_items : List UserContent → Items
unfolding user_content_to_dict
user_items [] = nil
user_items (c ∷ cs) = cons (object (user_content_to_dict c)) (user_items cs)

unfoldable pub text_items : List String → Items
text_items [] = nil
text_items (s ∷ ss) = cons (str s) (text_items ss)

unfoldable pub object_items : List Fields → Items
object_items [] = nil
object_items (fs ∷ l) = cons (object fs) (object_items l)

abbrev pub usage_field : Option Usage → Fields → Fields
usage_field none fs = fs
usage_field (some u) fs = field "usage" (object (usage_to_dict u)) fs

abbrev pub names_field : Option (List String) → Fields → Fields
names_field none fs = fs
names_field (some l) fs = field "addedToolNames" (array (text_items l)) fs

-- `message.diagnostics or None`
abbrev pub diagnostics_field : List Fields → Fields → Fields
diagnostics_field [] rest = rest
diagnostics_field (fs ∷ l) rest = field "diagnostics" (array (object_items (fs ∷ l))) rest

abbrev pub user_body : UserBody → JsonValue
user_body (UserBody.plain s) = str s
user_body (UserBody.blocks cs) = array (user_items cs)

-- `message_to_dict`
unfoldable pub message_to_dict : Message → Fields
unfolding assistant_items user_items usage_to_dict text_items object_items
message_to_dict (Message.user m) =
    field "role" (str "user")
      (field "content" (user_body m.content) (field "timestamp" (int (pos m.timestamp)) end))
message_to_dict (Message.tool_result m) = field "role" (str "toolResult") (
    field "toolCallId" (str m.tool_call_id) (
      field "toolName" (str m.tool_name) (
        field "content" (array (user_items m.content)) (
          field "details" m.details (
            field "isError" (bool m.is_error) (
              field "timestamp" (int (pos m.timestamp))
                (usage_field m.usage (names_field m.added_tool_names end))))))))
message_to_dict (Message.assistant m) = field "role" (str "assistant") (
    field "content" (array (assistant_items m.content)) (
      field "api" (str m.api) (
        field "provider" (str m.provider) (
          field "model" (str m.model) (
            field "usage" (object (usage_to_dict m.usage)) (
              field "stopReason" (str (stop_text m.stop_reason)) (
                field "timestamp" (int (pos m.timestamp)) (
                  text_field "responseModel" m.response_model (
                    text_field "responseId" m.response_id (
                      text_field "errorMessage" m.error_message (
                        text_field "rawStopReason" m.raw_stop_reason (
                          bool_field "endTurn" m.end_turn
                            (diagnostics_field m.diagnostics end)))))))))))))
