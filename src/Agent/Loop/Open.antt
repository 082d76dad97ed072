-- ===== src/Agent/Loop/Open.antt =====
-- No turn of src/pi_agent/agent/agent_loop.py emits `agent_end` by itself: its parts, one by one.
use pi_agent_python.Base.{
  String, ℕ, suc, refl, Bool, true, false, Option, none, some, List, [], ◌∷◌, if◌then◌else◌,
}
use pi_agent_python.Base.Result.{ok, err}
use pi_agent_python.Base.Dict.{Dict}
use pi_agent_python.Ai.Json.{Fields, JsonValue, null, bool, int, float, str, array, object}
use pi_agent_python.Ai.Types.{ToolCall, AssistantMessage}
use pi_agent_python.Agent.Schema.{Checked, SchemaError}
use pi_agent_python.Agent.Types.{
  AgentMessage, Exn, Outcome, AgentTool, AgentToolResult, AgentLoopConfig, Ask,
  BeforeToolCallContext, BeforeToolCallResult, AfterToolCallContext, AfterToolCallResult,
}
use pi_agent_python.Agent.Loop.{
  Env, PreparedToolCall, ToolOutcome, Loop, append_message, cancel_with, raise_if_cancelled,
  emit_message,
}
use pi_agent_python.Agent.Loop.Tools.{
  failed_outcome, Preparation, prepared, settled, checked_to, prepared_object, prepare_with,
  blocked, before_with, check_call, or_failed, then_check, prepare_found, prepare_tool_call,
  run_execution, emit_updates, overridden, after_with, run_prepared_tool, emit_tool_end,
  record_result, find_tool,
}
use pi_agent_python.Agent.Loop.Batch.{
  truncated_text, Answers, refuse_truncated, resolve, unless_stopped, sequential_call,
  execute_sequential, launch, launch_all, complete_all, record_all, execute_parallel, execute_mode,
  execute_calls, execute_tool_batch,
}
use pi_agent_python.Agent.Loop.Log.{
  Continues, Continues->>=, Continues-attempt, Continues-pure, Continues-raise, Continues-settle,
  Continues-get, Continues-ask, Continues-change, Continues-emit, Continues-silent,
}

module _ {W : Type 0} (env : Env W) where
  Continues-if :
      {A : Type 0} {p q : Loop W A} (b : Bool)
      → Continues p
      → Continues q
      → Continues (if b then p else q)
  Continues-if true h k = h
  Continues-if false h k = k

  pub Continues-append_message : (m : AgentMessage) → Continues {W = W} (append_message m)
  Continues-append_message m = Continues-change _ (λ s. refl)

  pub Continues-emit_message : (m : AgentMessage) → Continues (emit_message env m)
  unfolding emit_message
  Continues-emit_message m =
      Continues->>= _ _ (Continues-emit env _ refl) (λ _. Continues-emit env _ refl)

  Continues-cancel_with : (o : Option String) → Continues {W = W} (cancel_with o)
  Continues-cancel_with none = Continues-pure tt
  Continues-cancel_with (some reason) = Continues-raise _

  pub Continues-raise_if_cancelled : Continues (raise_if_cancelled env)
  Continues-raise_if_cancelled =
      Continues->>= _ _ Continues-get (λ s. Continues-cancel_with (env.cancelled s.world))

  Continues-checked_to : (r : Checked) → Continues (checked_to env r)
  Continues-checked_to (ok u) = Continues-pure tt
  Continues-checked_to (err (SchemaError.tool_arguments path problem)) = Continues-raise _
  Continues-checked_to (err SchemaError.pattern_error) = Continues-raise _
  Continues-checked_to (err SchemaError.out_of_fuel) = Continues-raise _

  Continues-prepared_object : (v : JsonValue) → Continues (prepared_object env v)
  Continues-prepared_object (object args) = Continues-pure args
  Continues-prepared_object null = Continues-raise _
  Continues-prepared_object (bool _) = Continues-raise _
  Continues-prepared_object (int _) = Continues-raise _
  Continues-prepared_object (float _) = Continues-raise _
  Continues-prepared_object (str _) = Continues-raise _
  Continues-prepared_object (array _) = Continues-raise _

  Continues-prepare_with :
      (o : Option (Fields → Ask W JsonValue)) (args : Fields) → Continues (prepare_with env o args)
  Continues-prepare_with none args = Continues-pure args
  Continues-prepare_with (some f) args =
      Continues->>= _ _ (Continues-ask _) Continues-prepared_object

  Continues-emit_tool_end : (o : ToolOutcome) → Continues (emit_tool_end env o)
  Continues-emit_tool_end o = Continues-emit env _ refl

  Continues-record_result : (o : ToolOutcome) → Continues (record_result env o)
  unfolding record_result
  Continues-record_result o = Continues->>= _ _ Continues-get (λ s.
      Continues->>= _ _ (Continues-emit_message _)
        (λ _. Continues->>= _ _ (Continues-append_message _) (λ _. Continues-pure _)))

  module _ (config : AgentLoopConfig W) where
    module _ (call : ToolCall) (index : ℕ) (assistant : AssistantMessage) where
      Continues-blocked :
          (args : Fields) (tool : AgentTool W) (d : Option BeforeToolCallResult)
          → Continues (blocked env call index args tool d)
      Continues-blocked args tool none = Continues-pure _
      Continues-blocked args tool (some d) =
          Continues-if d.block (Continues-pure _) (Continues-pure _)

      Continues-before_with :
          (args : Fields) (tool : AgentTool W)
          (h : Option (BeforeToolCallContext W → Ask W (Option BeforeToolCallResult)))
          → Continues (before_with env call index args tool assistant h)
      Continues-before_with args tool none = Continues-blocked args tool none
      Continues-before_with args tool (some hook) =
          Continues->>= _ _ Continues-get
            (λ s. Continues->>= _ _ (Continues-ask _) (Continues-blocked args tool))

      Continues-check_call :
          (tool : AgentTool W) (args : Fields)
          → Continues (check_call env config call index assistant tool args)
      unfolding check_call
      Continues-check_call tool args =
          Continues->>= _ _ (Continues-checked_to _)
            (λ _. Continues-before_with args tool config.before_tool_call)

      Continues-or_failed :
          (args : Fields) (r : Outcome (Preparation W))
          → Continues (or_failed env config call index args r)
      Continues-or_failed args (ok p) = Continues-pure _
      Continues-or_failed args (err x) = Continues-pure _

      Continues-then_check :
          (tool : AgentTool W) (r : Outcome Fields)
          → Continues (then_check env config call index assistant tool r)
      Continues-then_check tool (err x) = Continues-or_failed _ (err x)
      Continues-then_check tool (ok args) =
          Continues->>= _ _ (Continues-attempt _ (Continues-check_call tool args))
            (Continues-or_failed args)

      Continues-prepare_found :
          (o : Option (AgentTool W)) → Continues (prepare_found env config index call assistant o)
      Continues-prepare_found none = Continues-pure _
      Continues-prepare_found (some tool) =
          Continues->>= _ _
            (Continues-attempt _ (
              Continues->>= _ _ Continues-raise_if_cancelled
                (λ _. Continues-prepare_with tool.prepare_arguments call.arguments)))
            (Continues-then_check tool)

      Continues-prepare_tool_call : Continues (prepare_tool_call env config index call assistant)
      unfolding prepare_tool_call
      Continues-prepare_tool_call =
          Continues->>= _ _ Continues-get
            (λ s. Continues-prepare_found (find_tool call.name s.context.tools))

    Continues-run_execution : (p : PreparedToolCall W) → Continues (run_execution env config p)
    Continues-run_execution p = Continues-silent _ (λ s. refl)

    Continues-emit_updates :
        (p : PreparedToolCall W) (l : List AgentToolResult)
        → Continues (emit_updates env config p l)
    unfolding emit_updates
    Continues-emit_updates p [] = Continues-pure tt
    Continues-emit_updates p (r ∷ rs) =
        Continues->>= _ _ (Continues-attempt _ (Continues-emit env _ refl)) (λ here.
          Continues->>= _ _ (Continues-attempt _ (Continues-emit_updates p rs))
            (λ later. Continues-settle _))

    Continues-overridden :
        (d : AgentToolResult × Bool) (r : Outcome (Option AfterToolCallResult))
        → Continues (overridden env config d r)
    Continues-overridden d (ok none) = Continues-pure _
    Continues-overridden d (ok (some o)) = Continues-pure _
    Continues-overridden d (err (Exn.cancelled s)) = Continues-raise _
    Continues-overridden d (err (Exn.timed_out s)) = Continues-pure _
    Continues-overridden d (err (Exn.tool_arguments s)) = Continues-pure _
    Continues-overridden d (err (Exn.failure s)) = Continues-pure _
    Continues-overridden d (err Exn.out_of_fuel) = Continues-pure _

    module _ (assistant : AssistantMessage) where
      Continues-after_with :
          (p : PreparedToolCall W)
          (o : Option (AfterToolCallContext W → Ask W (Option AfterToolCallResult)))
          (d : AgentToolResult × Bool)
          → Continues (after_with env config assistant p o d)
      Continues-after_with p none d = Continues-pure d
      Continues-after_with p (some hook) d =
          Continues->>= _ _ Continues-get (λ s.
            Continues->>= _ _ (Continues-attempt _ (Continues-ask _)) (Continues-overridden d))

      Continues-run_prepared_tool :
          (p : PreparedToolCall W) → Continues (run_prepared_tool env config assistant p)
      unfolding run_prepared_tool
      Continues-run_prepared_tool p = Continues->>= _ _ (Continues-run_execution p) (λ e.
          Continues->>= _ _ (Continues-emit_updates p (e.0)) (λ _.
            Continues->>= _ _ (Continues-settle _) (λ d.
              Continues->>= _ _ (Continues-after_with p config.after_tool_call d)
                (λ r. Continues-pure _))))

      Continues-resolve : (p : Preparation W) → Continues (resolve env config assistant p)
      Continues-resolve (settled o) = Continues-pure o
      Continues-resolve (prepared p) = Continues-run_prepared_tool p

      Continues-refuse_truncated :
          (index : ℕ) (calls : List ToolCall)
          → Continues (refuse_truncated env config assistant index calls)
      unfolding refuse_truncated
      Continues-refuse_truncated index [] = Continues-pure []
      Continues-refuse_truncated index (call ∷ calls) =
          Continues->>= _ _ (Continues-emit env _ refl) (λ _.
            Continues->>= _ _ (Continues-emit env _ refl) (λ _.
              Continues->>= _ _
                (Continues-record_result
                  (failed_outcome index call call.arguments (truncated_text call.name)))
                (λ m.
                  Continues->>= _ _ (Continues-refuse_truncated (suc index) calls)
                    (λ l. Continues-pure _))))

      Continues-sequential_call :
          (index : ℕ) (call : ToolCall)
          → Continues (sequential_call env config assistant index call)
      unfolding sequential_call
      Continues-sequential_call index call = Continues->>= _ _ (Continues-emit env _ refl) (λ _.
          Continues->>= _ _ (Continues-prepare_tool_call call index assistant) (λ p.
            Continues->>= _ _ (Continues-resolve p) (λ o.
              Continues->>= _ _ (Continues-emit env _ refl)
                (λ _. Continues->>= _ _ (Continues-record_result o) (λ m. Continues-pure _)))))

      Continues-unless_stopped :
          (o : Option String) (p : Loop W Answers)
          → Continues p
          → Continues (unless_stopped env config assistant o p)
      Continues-unless_stopped none p h = h
      Continues-unless_stopped (some reason) p h = Continues-pure []

      Continues-execute_sequential :
          (index : ℕ) (calls : List ToolCall)
          → Continues (execute_sequential env config assistant index calls)
      unfolding execute_sequential
      Continues-execute_sequential index [] = Continues-pure []
      Continues-execute_sequential index (call ∷ calls) =
          Continues->>= _ _ (Continues-sequential_call index call) (λ a.
            Continues->>= _ _ Continues-get (λ s.
              Continues->>= _ _
                (Continues-unless_stopped (env.cancelled s.world) _
                  (Continues-execute_sequential (suc index) calls))
                (λ l. Continues-pure _)))

      Continues-launch :
          (index : ℕ) (l : Dict ℕ ToolOutcome × List (PreparedToolCall W)) (p : Preparation W)
          → Continues (launch env config assistant index l p)
      Continues-launch index l (prepared p) = Continues-pure _
      Continues-launch index l (settled o) =
          Continues->>= _ _ (Continues-emit env _ refl) (λ _. Continues-pure _)

      Continues-launch_all :
          (index : ℕ) (calls : List ToolCall) (l : Dict ℕ ToolOutcome × List (PreparedToolCall W))
          → Continues (launch_all env config assistant index calls l)
      unfolding launch_all
      Continues-launch_all index [] l = Continues-pure l
      Continues-launch_all index (call ∷ calls) l =
          Continues->>= _ _ (Continues-emit env _ refl) (λ _.
            Continues->>= _ _ (Continues-prepare_tool_call call index assistant) (λ p.
              Continues->>= _ _ (Continues-launch index l p)
                (Continues-launch_all (suc index) calls)))

      Continues-complete_all :
          (ps : List (PreparedToolCall W)) (d : Dict ℕ ToolOutcome)
          → Continues (complete_all env config assistant ps d)
      unfolding complete_all
      Continues-complete_all [] d = Continues-pure d
      Continues-complete_all (p ∷ ps) d =
          Continues->>= _ _ (Continues-run_prepared_tool p)
            (λ o. Continues->>= _ _ (Continues-emit env _ refl) (λ _. Continues-complete_all ps _))

      Continues-record_all :
          (os : List ToolOutcome) → Continues (record_all env config assistant os)
      unfolding record_all
      Continues-record_all [] = Continues-pure []
      Continues-record_all (o ∷ os) =
          Continues->>= _ _ (Continues-record_result o)
            (λ m. Continues->>= _ _ (Continues-record_all os) (λ l. Continues-pure _))

      Continues-execute_parallel :
          (calls : List ToolCall) → Continues (execute_parallel env config assistant calls)
      unfolding execute_parallel
      Continues-execute_parallel calls =
          Continues->>= _ _ (Continues-launch_all 0 calls ([], [])) (λ l.
            Continues->>= _ _ Continues-get
              (λ s. Continues->>= _ _ (Continues-complete_all _ _) (λ d. Continues-record_all _)))

      Continues-execute_mode :
          (b : Bool) (calls : List ToolCall) → Continues (execute_mode env config assistant b calls)
      Continues-execute_mode true calls = Continues-execute_sequential 0 calls
      Continues-execute_mode false calls = Continues-execute_parallel calls

      Continues-execute_calls :
          (b : Bool) (calls : List ToolCall)
          → Continues (execute_calls env config assistant b calls)
      Continues-execute_calls true calls = Continues-refuse_truncated 0 calls
      Continues-execute_calls false calls =
          Continues->>= _ _ Continues-get (λ s. Continues-execute_mode _ calls)

      pub Continues-execute_tool_batch :
          (calls : List ToolCall) → Continues (execute_tool_batch env config assistant calls)
      unfolding execute_tool_batch
      Continues-execute_tool_batch [] = Continues-pure []
      Continues-execute_tool_batch (call ∷ calls) = Continues-execute_calls _ (call ∷ calls)
