-- ===== src/Compaction/Tokens.antt =====
-- src/pi_agent/harness/compaction/token_estimator.py.
use Prim.Native.String.{len}
use pi_agent_python.Base.{
  ℕ, ◌+◌, ◌/◌, max, String, Option, none, some, List, [], ◌∷◌, if◌then◌else◌, ◌==◌,
}
use pi_agent_python.Ai.Json.{truthy, JsonValue, Fields}
use pi_agent_python.Ai.Types.{Message, AssistantContent, UserContent, UserBody, plain, blocks}

-- `json.dumps`, with the two sets of options of the estimator. It is not code of the repository.
pub record JsonDumps : Type 0 where
  pub details : JsonValue → String
  pub arguments : Fields → String

abbrev pub message_overhead_tokens : ℕ
message_overhead_tokens = 4

abbrev pub image_estimate_tokens : ℕ
image_estimate_tokens = 1024

-- `max(1, math.ceil(len(text.encode("utf-8")) / 4))`
unfoldable pub estimate_text_tokens : String → ℕ
estimate_text_tokens text = if len text == 0 then 0 else max 1 ((len text + 3) / 4)

module _ (dumps : JsonDumps) where
  -- `_estimate_content`, at the blocks of an assistant and at those of a user or a tool
  unfoldable pub estimate_assistant_content : AssistantContent → ℕ
  unfolding estimate_text_tokens
  estimate_assistant_content (AssistantContent.text c) = estimate_text_tokens c.text
  estimate_assistant_content (AssistantContent.thinking c) = estimate_text_tokens c.thinking
  estimate_assistant_content (AssistantContent.tool_call c) =
      estimate_text_tokens c.name + estimate_text_tokens (dumps.arguments c.arguments)

  unfoldable pub estimate_user_content : UserContent → ℕ
  unfolding estimate_text_tokens
  estimate_user_content (UserContent.text c) = estimate_text_tokens c.text
  estimate_user_content (UserContent.image c) = image_estimate_tokens

  unfoldable pub estimate_assistant_blocks : List AssistantContent → ℕ
  unfolding estimate_assistant_content
  estimate_assistant_blocks [] = 0
  estimate_assistant_blocks (c ∷ cs) = estimate_assistant_content c + estimate_assistant_blocks cs

  unfoldable pub estimate_user_blocks : List UserContent → ℕ
  unfolding estimate_user_content
  estimate_user_blocks [] = 0
  estimate_user_blocks (c ∷ cs) = estimate_user_content c + estimate_user_blocks cs

  abbrev pub estimate_body : UserBody → ℕ
  estimate_body (plain text) = estimate_text_tokens text
  estimate_body (blocks cs) = estimate_user_blocks cs

  unfoldable pub estimate_message_tokens : Message → ℕ
  unfolding estimate_assistant_blocks estimate_user_blocks
  estimate_message_tokens (Message.user m) = message_overhead_tokens + estimate_body m.content
  estimate_message_tokens (Message.assistant m) =
      message_overhead_tokens + estimate_assistant_blocks m.content
  estimate_message_tokens (Message.tool_result m) =
      message_overhead_tokens
      + estimate_text_tokens m.tool_name
      + estimate_user_blocks m.content
      + (if truthy m.details then estimate_text_tokens (dumps.details m.details) else 0)

  unfoldable pub estimate_context_tokens : List Message → ℕ
  unfolding estimate_message_tokens
  estimate_context_tokens [] = 0
  estimate_context_tokens (m ∷ ms) = estimate_message_tokens m + estimate_context_tokens ms

  abbrev pub reported : Message → ℕ
  reported (Message.assistant m) =
      m.usage.input + m.usage.output + m.usage.cache_read + m.usage.cache_write
  reported _ = 0

  -- The loop of `calculate_context_tokens` from the end: the last message that reports a usage, and
  -- the messages behind it.
  unfoldable pub last_reported : List Message → Option (ℕ × List Message)
  last_reported [] = none
  last_reported (m ∷ ms) = elim (last_reported ms) [
    | some found ↦ some found
    | none ↦ if reported m == 0 then none else some (reported m, ms)
  ]

  unfoldable pub calculate_context_tokens : List Message → ℕ
  unfolding last_reported estimate_context_tokens
  calculate_context_tokens messages = elim (last_reported messages) [
    | none ↦ estimate_context_tokens messages
    | some (n, rest) ↦ n + estimate_context_tokens rest
  ]
