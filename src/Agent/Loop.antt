-- ===== src/Agent/Loop.antt =====
-- src/pi_agent/agent/agent_loop.py: the state of a run, the ways to change it, and
-- `AgentEventStream.emit` of src/pi_agent/agent/event_stream.py. A coroutine is a function of the state that
-- returns or raises. Hooks do not change the objects that they are given, and a run is not cancelled from
-- outside in the middle of an `await`, but through its token.
pub mod Tools
pub mod Batch
pub mod Turn
pub mod Run
pub mod Returns
pub mod Answers
pub mod Parallel
pub mod Whole
pub mod Log
pub mod Open
pub mod Streamed
pub mod Ending
pub mod Timeouts
use pi_agent_python.Base.{
  ℕ, String, Bool, true, false, Option, none, some, List, [], ◌∷◌, ◌++◌, if◌then◌else◌, beq,
  string_eq,
}
use pi_agent_python.Base.Result.{Result, ok, err}
use pi_agent_python.Ai.Json.{JsonValue, object, Fields, end}
use pi_agent_python.Ai.Types.{Float, ToolCall}
use pi_agent_python.Ai.EventStream.{EventStream, push, end as end_stream}
use pi_agent_python.Agent.Schema.{Place, Problem, Primitives}
use pi_agent_python.Agent.Types.{
  AgentMessage, Exn, Outcome, Model, AgentToolResult, AgentTool, AgentContext, AgentEvent, Ask,
  ProviderContext, StreamOptions, Response,
}

abbrev pub AgentEventStream : Type 0
AgentEventStream = EventStream AgentEvent (List AgentMessage)

pub record PreparedToolCall (W : Type 0) : Type 0 where
  pub index : ℕ
  pub call : ToolCall
  pub tool : AgentTool W
  pub args : Fields

pub record ToolOutcome : Type 0 where
  pub index : ℕ
  pub call : ToolCall
  pub args : Fields
  pub result : AgentToolResult
  pub is_error : Bool

-- What the run is given from outside, next to its configuration.
pub record Env (W : Type 0) : Type 0 where
  pub stream_fn : Model → ProviderContext → StreamOptions → Ask W (Response W)
  pub sink : Option (AgentEvent → Ask W Unit)
  -- the reason of the token, where it is cancelled
  pub cancelled : W → Option String
  pub clock : W → ℕ
  -- the order in which the tasks of a batch complete
  pub schedule : W → List (PreparedToolCall W) → List (PreparedToolCall W)
  pub python : Primitives
  -- the texts of `ToolArgumentsError`, of `re.error`, and of a number under `:g`
  pub describe : Place → Problem → String
  pub pattern_text : String
  pub format_g : Float → String

-- `first_context` is the caller's context, once another has taken its place.
pub record LoopState (W : Type 0) : Type 0 where
  pub world : W
  pub emitted : List AgentEvent
  pub stream : AgentEventStream
  pub context : AgentContext W
  pub first_context : Option (AgentContext W)
  pub new_messages : List AgentMessage

abbrev pub text_or : String → String → String
text_or s other = if beq s "" then other else s

abbrev pub option_text_or : Option String → String → String
option_text_or none other = other
option_text_or (some s) other = text_or s other

-- `str(exc)`
abbrev pub text_of : Exn → String
text_of (Exn.cancelled s) = s
text_of (Exn.timed_out s) = s
text_of (Exn.tool_arguments s) = s
text_of (Exn.failure s) = s
text_of Exn.out_of_fuel = ""

abbrev pub is_agent_end : AgentEvent → Bool
is_agent_end (AgentEvent.agent_end messages) = true
is_agent_end _ = false

-- `extract_result`
abbrev pub end_messages : AgentEvent → List AgentMessage
end_messages (AgentEvent.agent_end messages) = messages
end_messages _ = []

-- A coroutine that returns or raises.
abbrev pub Loop : Type 0 → Type 0 → Type 0
Loop W A = LoopState W → Outcome A × LoopState W

module _ {W : Type 0} where
  unfoldable pub continue : {A B : Type 0} → Outcome A → (A → Loop W B) → Loop W B
  continue (ok a) f s = f a s
  continue (err x) f s = (err x, s)

  infixl 5 ◌>>=◌ ◌>>◌
  unfoldable pub ◌>>=◌ : {A B : Type 0} → Loop W A → (A → Loop W B) → Loop W B
  unfolding continue
  ◌>>=◌ p f s = let (r, t) = p s in continue r f t

  abbrev pub ◌>>◌ : {A B : Type 0} → Loop W A → Loop W B → Loop W B
  p >> q = p >>= λ _. q

  unfoldable pub pure : {A : Type 0} → A → Loop W A
  pure a s = (ok a, s)

  unfoldable pub raise : {A : Type 0} → Exn → Loop W A
  raise x s = (err x, s)

  -- `try` with all its handlers: the outcome as a value.
  unfoldable pub attempt : {A : Type 0} → Loop W A → Loop W (Outcome A)
  attempt p s = let (r, t) = p s in (ok r, t)

  unfoldable pub settle : {A : Type 0} → Outcome A → Loop W A
  settle r s = (r, s)

  -- A call of something outside.
  unfoldable pub ask : {A : Type 0} → Ask W A → Loop W A
  ask f s = let (r, w) = f s.world in (r, record s { world = w })

  unfoldable pub get : Loop W (LoopState W)
  get s = (ok s, s)

  unfoldable pub change : (LoopState W → LoopState W) → Loop W Unit
  change f s = (ok tt, f s)

  abbrev pub set_messages : List AgentMessage → LoopState W → LoopState W
  set_messages l s = record s { context = record s.context { messages = l } }

  -- `context.messages.append(message)` with `new_messages.append(message)`
  abbrev pub add_message : AgentMessage → LoopState W → LoopState W
  add_message m s = record (set_messages (s.context.messages ++ m ∷ []) s) {
    new_messages = s.new_messages ++ m ∷ [];
  }

  abbrev pub append_message : AgentMessage → Loop W Unit
  append_message m = change (add_message m)

  -- `self.push(event)`, where there is no sink to take the event.
  abbrev pub push_event :
      Option (AgentEvent → Ask W Unit) → AgentEvent → AgentEventStream → AgentEventStream
  push_event none event s = push is_agent_end end_messages event s
  push_event (some sink) event s = s

  abbrev pub to_sink : Option (AgentEvent → Ask W Unit) → AgentEvent → Loop W Unit
  to_sink none event = pure tt
  to_sink (some sink) event = ask (sink event)

  -- `self.end(event.messages)`
  abbrev pub end_after :
      Option (AgentEvent → Ask W Unit) → AgentEvent → AgentEventStream → AgentEventStream
  end_after (some sink) (AgentEvent.agent_end messages) s = end_stream (some messages) s
  end_after _ _ s = s

  abbrev pub cancel_with : Option String → Loop W Unit
  cancel_with none = pure tt
  cancel_with (some reason) = raise (Exn.cancelled reason)

  module _ (env : Env W) where
    abbrev pub told : AgentEvent → LoopState W → LoopState W
    told event s = record s {
      emitted = s.emitted ++ event ∷ [];
      stream = push_event env.sink event s.stream;
    }

    abbrev pub ended : AgentEvent → LoopState W → LoopState W
    ended event s = record s { stream = end_after env.sink event s.stream }

    -- `emit`, with `buffer_events` set where there is no sink, as all callers do
    unfoldable pub emit : AgentEvent → Loop W Unit
    unfolding push end_stream
    emit event = do change (told event); to_sink env.sink event; change (ended event)

    -- `_raise_if_cancelled`
    abbrev pub raise_if_cancelled : Loop W Unit
    raise_if_cancelled = get >>= λ s. cancel_with (env.cancelled s.world)

    -- `MessageStartEvent` and `MessageEndEvent` of a message that is complete
    unfoldable pub emit_message : AgentMessage → Loop W Unit
    unfolding emit
    emit_message m = do emit (AgentEvent.message_start m); emit (AgentEvent.message_end m)
