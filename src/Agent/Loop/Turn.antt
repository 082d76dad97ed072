-- ===== src/Agent/Loop/Turn.antt =====
-- src/pi_agent/agent/agent_loop.py: `_stream_assistant_response`.
use pi_agent_python.Base.{
  ℕ, zero, suc, ◌-◌, String, Bool, true, false, Option, none, some, List, [], ◌∷◌, map,
  if◌then◌else◌, beq, string_eq,
}
use pi_agent_python.Base.Lists.{length}
use pi_agent_python.Ai.Types.{StopReason, AssistantMessage, Message}
use pi_agent_python.Ai.Events.{AssistantMessageEvent}
use pi_agent_python.Agent.Types.{
  AgentMessage, Exn, Model, ThinkingLevel, AgentTool, AgentEvent, AgentLoopConfig, Ask,
  ToolDefinition, StreamOptions, Response,
}
use pi_agent_python.Agent.Loop.{
  Env, Loop, ◌>>=◌, ◌>>◌, pure, raise, ask, get, change, set_messages, append_message, emit,
}

abbrev pub assistant_message : AssistantMessage → AgentMessage
assistant_message m = AgentMessage.llm (Message.assistant m)

-- `xs[index] = x`, for an index in range
abbrev pub set_at : {A : Type 0} → ℕ → A → List A → List A
set_at i a [] = []
set_at zero a (x ∷ xs) = a ∷ xs
set_at (suc i) a (x ∷ xs) = x ∷ set_at i a xs

-- `xs[-1] = x`
abbrev pub set_last : {A : Type 0} → A → List A → List A
set_last a [] = []
set_last a (x ∷ []) = a ∷ []
set_last a (x ∷ y ∷ xs) = x ∷ set_last a (y ∷ xs)

-- `convert_to_llm` must return messages of the model only.
unfoldable pub llm_messages : List AgentMessage → Option (List Message)
llm_messages [] = some []
llm_messages (AgentMessage.app fs ∷ ms) = none
llm_messages (AgentMessage.llm m ∷ ms) = elim (llm_messages ms) [
  | none ↦ none
  | some l ↦ some (m ∷ l)
]

-- `default_convert_to_llm`
unfoldable pub default_convert_to_llm : List AgentMessage → List AgentMessage
default_convert_to_llm [] = []
default_convert_to_llm (AgentMessage.app fs ∷ ms) = default_convert_to_llm ms
default_convert_to_llm (AgentMessage.llm m ∷ ms) = AgentMessage.llm m ∷ default_convert_to_llm ms

abbrev pub definition : {W : Type 0} → AgentTool W → ToolDefinition
definition t = record {
  name = t.name;
  description = t.description;
  parameters = t.parameters;
  constrained_sampling = t.constrained_sampling;
}

abbrev pub text_or_none : String → Option String
text_or_none s = if beq s "" then none else some s

abbrev pub list_or_none : {A : Type 0} → List A → Option (List A)
list_or_none [] = none
list_or_none (x ∷ xs) = some (x ∷ xs)

abbrev pub with_level : ThinkingLevel → StreamOptions → StreamOptions
with_level ThinkingLevel.off o = o
with_level level o = record o { reasoning = some level }

-- `refreshed_key or options.api_key`
abbrev pub fresh_key : Option String → Option String → Option String
fresh_key none old = old
fresh_key (some s) old = if beq s "" then old else some s

-- The message that stands for one whose first event is its last.
abbrev pub pending_of : AssistantMessage → AssistantMessage
pending_of m = record m { stop_reason = StopReason.pending; error_message = none }

-- `inserted` with `assistant_index`, and `final`.
pub record Progress : Type 0 where
  pub index : Option ℕ
  pub final : Option AssistantMessage

-- What an event of the provider is to the loop.
pub data Kind : Type 0 where
  starts : AssistantMessage → Kind
  ends : AssistantMessage → Kind
  updates : AssistantMessage → Kind

abbrev pub kind_of : AssistantMessageEvent → Kind
kind_of (AssistantMessageEvent.start m) = Kind.starts m
kind_of (AssistantMessageEvent.text_start i m) = Kind.updates m
kind_of (AssistantMessageEvent.text_delta i s m) = Kind.updates m
kind_of (AssistantMessageEvent.text_end i s m) = Kind.updates m
kind_of (AssistantMessageEvent.thinking_start i m) = Kind.updates m
kind_of (AssistantMessageEvent.thinking_delta i s m) = Kind.updates m
kind_of (AssistantMessageEvent.thinking_end i s m) = Kind.updates m
kind_of (AssistantMessageEvent.toolcall_start i m) = Kind.updates m
kind_of (AssistantMessageEvent.toolcall_delta i s m) = Kind.updates m
kind_of (AssistantMessageEvent.toolcall_end i c m) = Kind.updates m
kind_of (AssistantMessageEvent.done r m) = Kind.ends m
kind_of (AssistantMessageEvent.error r m) = Kind.ends m

module _ {W : Type 0} (env : Env W) where
  -- Both lists get the message, the index is kept, and its start is told.
  unfoldable pub insert_partial : AssistantMessage → Loop W ℕ
  unfolding emit
  insert_partial m = do
    append_message (assistant_message m)
    s ← get
    emit env (AgentEvent.message_start (assistant_message m))
    pure (length s.context.messages - 1)

  -- `context.messages[assistant_index] = m` with `new_messages[-1] = m`
  abbrev pub replace_partial : ℕ → AssistantMessage → Loop W Unit
  replace_partial index m = change λ s.
      record (set_messages (set_at index (assistant_message m) s.context.messages) s) {
        new_messages = set_last (assistant_message m) s.new_messages;
      }

  -- `if not inserted`
  abbrev pub insert_unless : AssistantMessage → Option ℕ → Loop W ℕ
  insert_unless m (some index) = pure index
  insert_unless m none = insert_partial m

  abbrev pub insert_or_replace : AssistantMessage → Option ℕ → Loop W ℕ
  insert_or_replace m (some index) = replace_partial index m >> pure index
  insert_or_replace m none = insert_partial m

  -- The end of a message, streamed or not.
  unfoldable pub finish_message : AssistantMessage → Option ℕ → Loop W ℕ
  unfolding insert_partial emit
  finish_message m inserted = do
    index ← insert_unless (pending_of m) inserted
    replace_partial index m
    emit env (AgentEvent.message_end (assistant_message m))
    pure index

  abbrev pub start_message : AssistantMessage → Option ℕ → Loop W ℕ
  start_message m none = insert_partial m
  start_message m (some index) = raise (Exn.failure "Provider emitted more than one start event")

  abbrev pub take_kind : Progress → AssistantMessageEvent → Kind → Loop W Progress
  take_kind p event (Kind.starts m) = do
    index ← start_message m p.index
    pure (record p { index = some index })
  take_kind p event (Kind.ends m) = do
    index ← finish_message m p.index
    pure (record { index = some index; final = some m })
  take_kind p event (Kind.updates m) = do
    index ← insert_or_replace m p.index
    emit env (AgentEvent.message_update m event)
    pure (record p { index = some index })

  -- The body of `async for`.
  unfoldable pub take_event : Progress → AssistantMessageEvent → Loop W Progress
  unfolding insert_partial finish_message emit
  take_event p event = take_kind p event (kind_of event)

  abbrev pub unless_closed :
      Progress → Option AssistantMessageEvent → (Progress → Loop W Progress) → Loop W Progress
  unless_closed p none rest = pure p
  unless_closed p (some event) rest = take_event p event >>= rest

  unfoldable pub read_events :
      List (Ask W (Option AssistantMessageEvent)) → Progress → Loop W Progress
  unfolding take_event
  read_events [] p = pure p
  read_events (round ∷ rounds) p = do event ← ask round; unless_closed p event (read_events rounds)

  -- What follows the `async for`.
  abbrev pub final_or :
      AssistantMessage → Progress → Option AssistantMessage → Loop W AssistantMessage
  final_or resolved p (some final) = pure final
  final_or resolved p none = finish_message resolved p.index >> pure resolved

  abbrev pub require_done : Bool → Loop W Unit
  require_done true = pure tt
  require_done false = raise (Exn.failure "Provider stream ended without a terminal event")

  abbrev pub transform_with :
      Option (List AgentMessage → Ask W (List AgentMessage))
      → List AgentMessage
      → Loop W (List AgentMessage)
  transform_with none l = pure l
  transform_with (some f) l = ask (f l)

  abbrev pub require_llm : Option (List Message) → Loop W (List Message)
  require_llm (some l) = pure l
  require_llm none = raise (Exn.failure "convert_to_llm must return only model Message values")

  abbrev pub refresh_key :
      Option (String → Ask W (Option String)) → Model → StreamOptions → Loop W StreamOptions
  refresh_key none model options = pure options
  refresh_key (some f) model options = do
    key ← ask (f model.provider)
    pure (record options { api_key = fresh_key key options.api_key })

  -- The request to the provider.
  unfoldable pub request : AgentLoopConfig W → Model → ThinkingLevel → Loop W (Response W)
  unfolding llm_messages
  request config model level = do
    s ← get
    transformed ← transform_with config.transform_context s.context.messages
    converted ← ask (config.convert_to_llm transformed)
    messages ← require_llm (llm_messages converted)
    options ← refresh_key config.get_api_key model (with_level level config.stream_options)
    ask (
        env.stream_fn model
          (record {
            messages = messages;
            system_prompt = text_or_none s.context.system_prompt;
            tools = list_or_none (map definition s.context.tools);
          })
          options)

  -- `_stream_assistant_response`
  unfoldable pub stream_assistant_response :
      AgentLoopConfig W → Model → ThinkingLevel → Loop W AssistantMessage
  unfolding request read_events finish_message
  stream_assistant_response config model level = do
    response ← request config model level
    p ← read_events response.rounds (record { index = none; final = none })
    s ← get
    require_done (response.done s.world)
    resolved ← ask response.result
    final_or resolved p p.final
