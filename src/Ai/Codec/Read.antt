-- ===== src/Ai/Codec/Read.antt =====
-- The dictionaries of src/pi_agent/ai/types.py, read: `content_from_dict` to `message_from_dict`. What
-- Python makes of a value of another type (`str`, `int`, `float`) is an argument. Where the source
-- keeps a value of any type by `cast`, the model raises `uncast`, since its types cannot hold it.
use pi_agent_python.Base.{
  ℕ, String, Bool, false, ◌||◌, Option, none, some, List, [], ◌∷◌, if◌then◌else◌, beq, string_eq,
}
use pi_agent_python.Base.Result.{Result, ok, err, ◌>>=◌}
use pi_agent_python.Ai.Json.{
  JsonValue, null, bool, str, array, object, Items, nil, cons, Fields, end, get_field, truthy,
}
use pi_agent_python.Ai.Types.{
  StopReason, Float, Usage, UsageCost, TextContent, AssistantContent, UserContent, UserBody,
  Message,
}
use pi_agent_python.Ai.Codec.{CodecError}

-- `str(x)`, `int(x)` and `float(x)`, with what they raise. A negative `int(x)` is `uncast`, since the
-- counts and times of the model are natural numbers.
pub record Conversions : Type 0 where
  pub str_of : JsonValue → String
  pub int_of : JsonValue → Result CodecError ℕ
  pub float_of : JsonValue → Result CodecError Float

-- `cast(str | None, value.get(key))` and its like
abbrev pub cast_text : Option JsonValue → Result CodecError (Option String)
cast_text none = ok none
cast_text (some null) = ok none
cast_text (some (str s)) = ok (some s)
cast_text (some _) = err CodecError.uncast

abbrev pub cast_bool : Option JsonValue → Result CodecError (Option Bool)
cast_bool none = ok none
cast_bool (some null) = ok none
cast_bool (some (bool b)) = ok (some b)
cast_bool (some _) = err CodecError.uncast

abbrev pub cons_ok : {A : Type 0} → A → Result CodecError (List A) → Result CodecError (List A)
cons_ok a (ok l) = ok (a ∷ l)
cons_ok a (err x) = err x

unfoldable pub cast_texts : Items → Result CodecError (List String)
cast_texts nil = ok []
cast_texts (cons (str s) xs) = cons_ok s (cast_texts xs)
cast_texts (cons _ xs) = err CodecError.uncast

unfoldable pub cast_objects : Items → Result CodecError (List Fields)
cast_objects nil = ok []
cast_objects (cons (object fs) xs) = cons_ok fs (cast_objects xs)
cast_objects (cons _ xs) = err CodecError.uncast

abbrev pub cast_names : Option JsonValue → Result CodecError (Option (List String))
cast_names none = ok none
cast_names (some null) = ok none
cast_names (some (array xs)) = cast_texts xs >>= λ l. ok (some l)
cast_names (some _) = err CodecError.uncast

abbrev pub cast_diagnostics : Option JsonValue → Result CodecError (List Fields)
cast_diagnostics none = ok []
cast_diagnostics (some (array xs)) = cast_objects xs
cast_diagnostics (some _) = err CodecError.uncast

unfoldable pub stop_reason_of : String → Result CodecError StopReason
stop_reason_of s =
    if beq s "pending"
    then ok StopReason.pending
    else if beq s "stop"
    then ok StopReason.stop
    else if beq s "length"
    then ok StopReason.length
    else if beq s "toolUse"
    then ok StopReason.tool_use
    else if beq s "error"
    then ok StopReason.error
    else if beq s "aborted"
    then ok StopReason.aborted
    else if beq s "deferred"
    then ok StopReason.deferred
    else err CodecError.uncast

-- `cast(StopReason, value.get("stopReason", "pending"))`
abbrev pub cast_stop : Option JsonValue → Result CodecError StopReason
cast_stop none = ok StopReason.pending
cast_stop (some (str s)) = stop_reason_of s
cast_stop (some _) = err CodecError.uncast

abbrev pub is_text : Option JsonValue → String → Bool
is_text (some (str s)) t = beq s t
is_text _ t = false

-- `value.get(key, {})` where it has to be a dictionary
abbrev pub object_or_empty : Option JsonValue → CodecError → Result CodecError Fields
object_or_empty none x = ok end
object_or_empty (some (object fs)) x = ok fs
object_or_empty (some _) x = err x

abbrev pub list_or_empty : Option JsonValue → Result CodecError Items
list_or_empty none = ok nil
list_or_empty (some (array xs)) = ok xs
list_or_empty (some _) = err CodecError.content_not_list

module _ (c : Conversions) where
  -- `str(value.get(key, ""))`, `int(value.get(key, 0))` and `float(value.get(key, 0))`
  abbrev pub str_or : Option JsonValue → String
  str_or none = ""
  str_or (some v) = c.str_of v

  abbrev pub int_or : Option JsonValue → Result CodecError ℕ
  int_or none = ok 0
  int_or (some v) = c.int_of v

  abbrev pub float_or : Option JsonValue → Result CodecError Float
  float_or none = ok 0
  float_or (some v) = c.float_of v

  -- `int(value[key]) if key in value else None`
  abbrev pub int_if_there : Option JsonValue → Result CodecError (Option ℕ)
  int_if_there none = ok none
  int_if_there (some v) = c.int_of v >>= λ n. ok (some n)

  abbrev pub text_from : Fields → Result CodecError TextContent
  text_from value = do
    signature ← cast_text (get_field "textSignature" value)
    ok (record { text = str_or (get_field "text" value); text_signature = signature })

  abbrev pub thinking_from : Fields → Result CodecError AssistantContent
  thinking_from value = do
    signature ← cast_text (get_field "thinkingSignature" value)
    redacted ← cast_bool (get_field "redacted" value)
    ok (
        AssistantContent.thinking (record {
          thinking = str_or (get_field "thinking" value);
          thinking_signature = signature;
          redacted = redacted;
        }))

  abbrev pub tool_call_from : Fields → Result CodecError AssistantContent
  tool_call_from value = do
    arguments ← object_or_empty (get_field "arguments" value) CodecError.arguments_not_object
    signature ← cast_text (get_field "thoughtSignature" value)
    namespace ← cast_text (get_field "namespace" value)
    ok (
        AssistantContent.tool_call (record {
          id = str_or (get_field "id" value);
          name = str_or (get_field "name" value);
          arguments = arguments;
          thought_signature = signature;
          namespace = namespace;
        }))

  -- `content_from_dict`, where an assistant's content is wanted; the cast of an image is `uncast`.
  unfoldable pub assistant_content_from_dict : Fields → Result CodecError AssistantContent
  unfolding get_field
  assistant_content_from_dict value =
      let type = get_field "type" value in
      if is_text type "text"
      then (text_from value >>= λ t. ok (AssistantContent.text t))
      else if is_text type "thinking"
      then thinking_from value
      else if is_text type "image"
      then err CodecError.uncast
      else if is_text type "toolCall"
      then tool_call_from value
      else err CodecError.unknown_content_type

  -- The same where a user's or a tool's content is wanted.
  unfoldable pub user_content_from_dict : Fields → Result CodecError UserContent
  unfolding get_field
  user_content_from_dict value =
      let type = get_field "type" value in
      if is_text type "text"
      then (text_from value >>= λ t. ok (UserContent.text t))
      else if is_text type "image"
      then ok (
          UserContent.image (record {
            payload = str_or (get_field "data" value);
            mime_type = str_or (get_field "mimeType" value);
          }))
      else if is_text type "thinking" || is_text type "toolCall"
      then err CodecError.uncast
      else err CodecError.unknown_content_type

  unfoldable pub assistant_list : Items → Result CodecError (List AssistantContent)
  unfolding assistant_content_from_dict
  assistant_list nil = ok []
  assistant_list (cons (object fs) xs) =
      assistant_content_from_dict fs >>= λ a. cons_ok a (assistant_list xs)
  assistant_list (cons _ xs) = err CodecError.attribute_error

  unfoldable pub user_list : Items → Result CodecError (List UserContent)
  unfolding user_content_from_dict
  user_list nil = ok []
  user_list (cons (object fs) xs) = user_content_from_dict fs >>= λ a. cons_ok a (user_list xs)
  user_list (cons _ xs) = err CodecError.attribute_error

  abbrev pub cost_fields : Option JsonValue → Fields
  cost_fields (some (object fs)) = fs
  cost_fields _ = end

  abbrev pub cost_from : Fields → Result CodecError UsageCost
  cost_from value = do
    input ← float_or (get_field "input" value)
    output ← float_or (get_field "output" value)
    cache_read ← float_or (get_field "cacheRead" value)
    cache_write ← float_or (get_field "cacheWrite" value)
    total ← float_or (get_field "total" value)
    ok (record {
      input = input;
      output = output;
      cache_read = cache_read;
      cache_write = cache_write;
      total = total;
    })

  -- `usage_from_dict`
  unfoldable pub usage_from_dict : Fields → Result CodecError Usage
  unfolding get_field
  usage_from_dict value = do
    input ← int_or (get_field "input" value)
    output ← int_or (get_field "output" value)
    cache_read ← int_or (get_field "cacheRead" value)
    cache_write ← int_or (get_field "cacheWrite" value)
    cache_write_1h ← int_if_there (get_field "cacheWrite1h" value)
    reasoning ← int_if_there (get_field "reasoning" value)
    total_tokens ← int_or (get_field "totalTokens" value)
    cost ← cost_from (cost_fields (get_field "cost" value))
    ok (record {
      input = input;
      output = output;
      cache_read = cache_read;
      cache_write = cache_write;
      cache_write_1h = cache_write_1h;
      reasoning = reasoning;
      total_tokens = total_tokens;
      cost = cost;
    })

  abbrev pub usage_if_object : Option JsonValue → Result CodecError (Option Usage)
  usage_if_object (some (object fs)) = usage_from_dict fs >>= λ u. ok (some u)
  usage_if_object _ = ok none

  abbrev pub body_from : Option JsonValue → Result CodecError UserBody
  body_from (some (array xs)) = user_list xs >>= λ l. ok (UserBody.blocks l)
  body_from v = ok (UserBody.plain (str_or v))

  abbrev pub bool_or_false : Option JsonValue → Bool
  bool_or_false none = false
  bool_or_false (some v) = truthy v

  abbrev pub value_or_empty : Option JsonValue → JsonValue
  value_or_empty none = object end
  value_or_empty (some v) = v

  abbrev pub user_from : Fields → Result CodecError Message
  user_from value = do
    content ← body_from (get_field "content" value)
    timestamp ← int_or (get_field "timestamp" value)
    ok (Message.user (record { content = content; timestamp = timestamp }))

  abbrev pub tool_result_from : Fields → Result CodecError Message
  tool_result_from value = do
    items ← list_or_empty (get_field "content" value)
    content ← user_list items
    usage ← usage_if_object (get_field "usage" value)
    names ← cast_names (get_field "addedToolNames" value)
    timestamp ← int_or (get_field "timestamp" value)
    ok (
        Message.tool_result (record {
          tool_call_id = str_or (get_field "toolCallId" value);
          tool_name = str_or (get_field "toolName" value);
          content = content;
          details = value_or_empty (get_field "details" value);
          usage = usage;
          added_tool_names = names;
          is_error = bool_or_false (get_field "isError" value);
          timestamp = timestamp;
        }))

  abbrev pub assistant_from : Fields → Result CodecError Message
  assistant_from value = do
    items ← list_or_empty (get_field "content" value)
    content ← assistant_list items
    response_model ← cast_text (get_field "responseModel" value)
    response_id ← cast_text (get_field "responseId" value)
    usage_value ← object_or_empty (get_field "usage" value) CodecError.attribute_error
    usage ← usage_from_dict usage_value
    stop_reason ← cast_stop (get_field "stopReason" value)
    error_message ← cast_text (get_field "errorMessage" value)
    raw_stop_reason ← cast_text (get_field "rawStopReason" value)
    end_turn ← cast_bool (get_field "endTurn" value)
    diagnostics ← cast_diagnostics (get_field "diagnostics" value)
    timestamp ← int_or (get_field "timestamp" value)
    ok (
        Message.assistant (record {
          content = content;
          api = str_or (get_field "api" value);
          provider = str_or (get_field "provider" value);
          model = str_or (get_field "model" value);
          response_model = response_model;
          response_id = response_id;
          usage = usage;
          stop_reason = stop_reason;
          error_message = error_message;
          raw_stop_reason = raw_stop_reason;
          end_turn = end_turn;
          diagnostics = diagnostics;
          timestamp = timestamp;
        }))

  -- `message_from_dict`
  unfoldable pub message_from_dict : Fields → Result CodecError Message
  unfolding get_field assistant_list user_list usage_from_dict cast_texts cast_objects
      stop_reason_of
  message_from_dict value =
      let role = get_field "role" value in
      if is_text role "user"
      then user_from value
      else if is_text role "toolResult"
      then tool_result_from value
      else if is_text role "assistant"
      then assistant_from value
      else err CodecError.unknown_role
