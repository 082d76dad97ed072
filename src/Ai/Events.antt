-- ===== src/Ai/Events.antt =====
-- The events of an assistant's message, src/pi_agent/ai/events.py, and the stream of them
-- (`AssistantMessageEventStream` of src/pi_agent/ai/event_stream.py).
pub mod Terminal
use pi_agent_python.Base.{ℕ, String, Bool, true, false, Option, none, some}
use pi_agent_python.Ai.Types.{AssistantMessage, StopReason, ToolCall}
use pi_agent_python.Ai.EventStream.{EventStream, push}

-- Numbers are content indices.
pub data AssistantMessageEvent : Type 0 where
  start : AssistantMessage → AssistantMessageEvent
  text_start : ℕ → AssistantMessage → AssistantMessageEvent
  text_delta : ℕ → String → AssistantMessage → AssistantMessageEvent
  text_end : ℕ → String → AssistantMessage → AssistantMessageEvent
  thinking_start : ℕ → AssistantMessage → AssistantMessageEvent
  thinking_delta : ℕ → String → AssistantMessage → AssistantMessageEvent
  thinking_end : ℕ → String → AssistantMessage → AssistantMessageEvent
  toolcall_start : ℕ → AssistantMessage → AssistantMessageEvent
  toolcall_delta : ℕ → String → AssistantMessage → AssistantMessageEvent
  toolcall_end : ℕ → ToolCall → AssistantMessage → AssistantMessageEvent
  done : StopReason → AssistantMessage → AssistantMessageEvent
  error : StopReason → AssistantMessage → AssistantMessageEvent

-- `event_result`, with none where it raises
unfoldable pub event_result : AssistantMessageEvent → Option AssistantMessage
event_result (AssistantMessageEvent.done reason message) = some message
event_result (AssistantMessageEvent.error reason message) = some message
event_result _ = none

abbrev pub is_some : Option AssistantMessage → Bool
is_some none = false
is_some (some _) = true

unfoldable pub is_terminal_event : AssistantMessageEvent → Bool
is_terminal_event (AssistantMessageEvent.done _ _) = true
is_terminal_event (AssistantMessageEvent.error _ _) = true
is_terminal_event _ = false

-- `AssistantMessageEventStream`
abbrev pub AssistantMessageEventStream : Type 0
AssistantMessageEventStream = EventStream AssistantMessageEvent (Option AssistantMessage)

unfoldable pub push_event :
    AssistantMessageEvent → AssistantMessageEventStream → AssistantMessageEventStream
unfolding push is_terminal_event event_result
push_event = push is_terminal_event event_result
