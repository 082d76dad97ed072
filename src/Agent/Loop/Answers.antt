-- ===== src/Agent/Loop/Answers.antt =====
-- The answers to the calls of a batch, src/pi_agent/agent/agent_loop.py: one call, and a batch in sequence.
use mathlib.Core.Path.{subst}
use pi_agent_python.Base.{
  String, ℕ, suc, ◌≡◌, refl, sym, ap, ◌∙◌, Bool, true, false, Option, none, some, List, [], ◌∷◌,
  if◌then◌else◌,
}
use pi_agent_python.Base.Result.{ok, err}
use pi_agent_python.Ai.Json.{Fields}
use pi_agent_python.Ai.Types.{ToolCall, AssistantMessage, ToolResultMessage}
use pi_agent_python.Agent.Types.{
  Exn, Outcome, AgentTool, AgentLoopConfig, BeforeToolCallResult, BeforeToolCallContext, Ask,
}
use pi_agent_python.Agent.Loop.{Env, PreparedToolCall, ToolOutcome, LoopState, Loop, ◌>>=◌, pure}
use pi_agent_python.Agent.Loop.Tools.{
  Preparation, prepared, settled, failed_outcome, find_tool, blocked, before_with, check_call,
  or_failed, then_check, prepare_found, prepare_tool_call, run_prepared_tool, record_result,
}
use pi_agent_python.Agent.Loop.Batch.{
  truncated_text, Answers, refuse_truncated, resolve, unless_stopped, sequential_call,
  execute_sequential,
}
use pi_agent_python.Agent.Loop.Returns.{
  Always, Returns, Returns->>=, Returns-attempt, Returns-after, Returns-pure, Returns-get,
  Returns-known, Returns-weaken, Returns-anywhere,
}

-- The calls are answered one by one.
pub data Answered : List ToolCall → Answers → Type 0 where
  none_left : Answered [] []
  one_more :
      {call : ToolCall} {calls : List ToolCall} {m : ToolResultMessage} {o : ToolOutcome}
      {rest : Answers}
      → m.tool_call_id ≡ call.id
      → o.call ≡ call
      → Answered calls rest
      → Answered (call ∷ calls) ((m, o) ∷ rest)

-- An outcome of a call at its place.
abbrev pub IsOf : {W : Type 0} → ℕ → ToolCall → ToolOutcome → LoopState W → Type 0
IsOf index call o s = (o.index ≡ index) × (o.call ≡ call)

abbrev pub IsFor : {W : Type 0} → ℕ → ToolCall → Preparation W → LoopState W → Type 0
IsFor index call (prepared p) s = (p.index ≡ index) × (p.call ≡ call)
IsFor index call (settled o) s = (o.index ≡ index) × (o.call ≡ call)

module _ {W : Type 0} (env : Env W) (config : AgentLoopConfig W) where
  pub Returns-record_result :
      (o : ToolOutcome) → Returns Always (λ m _. m.tool_call_id ≡ o.call.id) (record_result env o)
  unfolding record_result
  Returns-record_result o =
      Returns-after _ _
        (λ s. Returns-after _ _ (λ _. Returns-after _ _ (λ _. Returns-pure _ (λ _ _. refl))))

  Returns-if :
      {A : Type 0} {Post : A → LoopState W → Type 0} {p q : Loop W A} (b : Bool)
      → Returns Always Post p
      → Returns Always Post q
      → Returns Always Post (if b then p else q)
  Returns-if true h k = h
  Returns-if false h k = k

  module _ (call : ToolCall) (index : ℕ) where
    Returns-blocked :
        (args : Fields) (tool : AgentTool W) (d : Option BeforeToolCallResult)
        → Returns Always (IsFor index call) (blocked env call index args tool d)
    Returns-blocked args tool none = Returns-pure _ (λ _ _. (refl, refl))
    Returns-blocked args tool (some d) =
        Returns-if d.block (Returns-pure _ (λ _ _. (refl, refl)))
          (Returns-pure _ (λ _ _. (refl, refl)))

    Returns-or_failed :
        (args : Fields) (x : Exn)
        → Returns Always (IsFor index call) (or_failed env config call index args (err x))
    Returns-or_failed args x = Returns-pure _ (λ _ _. (refl, refl))

    Returns-kept :
        (args : Fields) (p : Preparation W)
        → Returns
            (IsFor index call p)
            (IsFor index call)
            (or_failed env config call index args (ok p))
    Returns-kept args p = Returns-pure p (λ _ h. h)

    module _ (assistant : AssistantMessage) where
      Returns-before_with :
          (args : Fields) (tool : AgentTool W)
          → (h : Option (BeforeToolCallContext W → Ask W (Option BeforeToolCallResult)))
          → Returns Always (IsFor index call) (before_with env call index args tool assistant h)
      Returns-before_with args tool none = Returns-blocked args tool none
      Returns-before_with args tool (some hook) =
          Returns-after _ _ (λ s. Returns-after _ _ (Returns-blocked args tool))

      Returns-check_call :
          (tool : AgentTool W) (args : Fields)
          → Returns Always (IsFor index call) (check_call env config call index assistant tool args)
      unfolding check_call
      Returns-check_call tool args =
          Returns-after _ _ (λ _. Returns-before_with args tool config.before_tool_call)

      Returns-then_check :
          (tool : AgentTool W) (r : Outcome Fields)
          → Returns Always (IsFor index call) (then_check env config call index assistant tool r)
      Returns-then_check tool (err x) = Returns-or_failed call.arguments x
      Returns-then_check tool (ok args) =
          Returns-attempt _ _ (Returns-check_call tool args) (Returns-kept args)
            (Returns-or_failed args)

      Returns-prepare_found :
          (o : Option (AgentTool W))
          → Returns Always (IsFor index call) (prepare_found env config index call assistant o)
      Returns-prepare_found none = Returns-pure _ (λ _ _. (refl, refl))
      Returns-prepare_found (some tool) = Returns-after _ _ (Returns-then_check tool)

      pub Returns-prepare_tool_call :
          Returns Always (IsFor index call) (prepare_tool_call env config index call assistant)
      unfolding prepare_tool_call
      Returns-prepare_tool_call =
          Returns-after _ _ (λ s. Returns-prepare_found (find_tool call.name s.context.tools))

  pub Returns-run_prepared_tool :
      (assistant : AssistantMessage) (p : PreparedToolCall W)
      → Returns Always (IsOf p.index p.call) (run_prepared_tool env config assistant p)
  unfolding run_prepared_tool
  Returns-run_prepared_tool assistant p = Returns-after _ _ (λ a.
      Returns-after _ _ (λ _.
        Returns-after _ _ (λ d. Returns-after _ _ (λ e. Returns-pure _ (λ _ _. (refl, refl))))))

  module _ (assistant : AssistantMessage) where
    Returns-resolve :
        (index : ℕ) (call : ToolCall) (p : Preparation W)
        → Returns (IsFor index call p) (IsOf index call) (resolve env config assistant p)
    Returns-resolve index call (settled o) = Returns-pure o (λ _ h. h)
    Returns-resolve index call (prepared p) = Returns-known (λ h.
        Returns-weaken (Returns-run_prepared_tool assistant p) (λ o _ k. (k.0 ∙ h.0, k.1 ∙ h.1)))

    abbrev pub IsAnswer : ToolCall → ToolResultMessage × ToolOutcome → Type 0
    IsAnswer call a = (a.0.tool_call_id ≡ call.id) × (a.1.call ≡ call)

    -- The message of an outcome, and the pair of both.
    pub Returns-IsAnswer :
        (call : ToolCall) (o : ToolOutcome)
        → o.call ≡ call
        → Returns Always
            (λ a _. IsAnswer call a)
            (record_result env o >>= λ message. pure (message, o))
    Returns-IsAnswer call o h =
        Returns->>= _ _ (Returns-record_result o)
          (λ m. Returns-pure _ (λ _ e. (e ∙ ap ToolCall.id h, h)))

    Returns-sequential_call :
        (index : ℕ) (call : ToolCall)
        → Returns Always (λ a _. IsAnswer call a) (sequential_call env config assistant index call)
    unfolding sequential_call
    Returns-sequential_call index call = Returns-after _ _ (λ _.
        Returns->>= _ _ (Returns-prepare_tool_call call index assistant) (λ p.
          Returns->>= _ _ (Returns-resolve index call p)
            (λ o. Returns-known (λ h. Returns-after _ _ (λ _. Returns-IsAnswer call o (h.1))))))

    pub Returns-refuse_truncated :
        (index : ℕ) (calls : List ToolCall)
        → Returns Always
            (λ l _. Answered calls l)
            (refuse_truncated env config assistant index calls)
    unfolding refuse_truncated
    Returns-refuse_truncated index [] = Returns-pure [] (λ _ _. none_left)
    Returns-refuse_truncated index (call ∷ calls) = Returns-after _ _ (λ _. Returns-after _ _ (λ _.
        Returns->>= _ _
          (Returns-record_result
            (failed_outcome index call call.arguments (truncated_text call.name)))
          (λ m. Returns-known (λ e.
            Returns->>= _ _ (Returns-refuse_truncated (suc index) calls)
              (λ rest. Returns-pure _ (λ _ h. one_more e refl h))))))

    -- What a batch in sequence comes to: the calls are answered one by one, until there is none left or
    -- the token is found cancelled after an answer.
    pub data Sequence (t : LoopState W) : List ToolCall → Answers → Type 0 where
      nothing_left : Sequence t [] []
      stopped_after :
          {call : ToolCall} {calls : List ToolCall} {a : ToolResultMessage × ToolOutcome}
          {reason : String}
          → IsAnswer call a
          → env.cancelled t.world ≡ some reason
          → Sequence t (call ∷ calls) (a ∷ [])
      answered_then :
          {call : ToolCall} {calls : List ToolCall} {a : ToolResultMessage × ToolOutcome}
          {rest : Answers}
          → IsAnswer call a
          → Sequence t calls rest
          → Sequence t (call ∷ calls) (a ∷ rest)

    Returns-unless_stopped :
        (call : ToolCall) (calls : List ToolCall) (a : ToolResultMessage × ToolOutcome)
        (p : Loop W Answers) (s : LoopState W) (o : Option String)
        → IsAnswer call a
        → env.cancelled s.world ≡ o
        → Returns Always (λ l t. Sequence t calls l) p
        → Returns
            (λ t. t ≡ s)
            (λ l t. Sequence t (call ∷ calls) l)
            (unless_stopped env config assistant o p >>= λ rest. pure (a ∷ rest))
    Returns-unless_stopped call calls a p s none h e k =
        Returns->>= _ _ (Returns-anywhere k)
          (λ rest. Returns-pure (a ∷ rest) (λ t q. answered_then h q))
    Returns-unless_stopped call calls a p s (some reason) h e k =
        Returns->>= {Mid = λ l t. (l ≡ []) × (t ≡ s)} _ _ (Returns-pure [] (λ t q. (refl, q)))
          (λ rest. Returns-pure (a ∷ rest) (λ t q.
            subst (λ l. Sequence t (call ∷ calls) (a ∷ l)) (sym (q.0))
              (stopped_after h (ap (λ u. env.cancelled u.world) (q.1) ∙ e))))

    pub Returns-execute_sequential :
        (index : ℕ) (calls : List ToolCall)
        → Returns Always
            (λ l t. Sequence t calls l)
            (execute_sequential env config assistant index calls)
    unfolding execute_sequential
    Returns-execute_sequential index [] = Returns-pure [] (λ _ _. nothing_left)
    Returns-execute_sequential index (call ∷ calls) =
        Returns->>= _ _ (Returns-sequential_call index call) (λ a. Returns-known (λ h.
          Returns-get _ (λ s.
            Returns-unless_stopped call calls a
              (execute_sequential env config assistant (suc index) calls) s (env.cancelled s.world)
              h refl (Returns-execute_sequential (suc index) calls))))
