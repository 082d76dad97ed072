-- ===== src/Agent/Loop/Whole.antt =====
-- `_execute_tool_batch` of src/pi_agent/agent/agent_loop.py, on all its branches.
use pi_agent_python.Base.{Bool, true, false, List, [], ◌∷◌}
use pi_agent_python.Ai.Types.{ToolCall, AssistantMessage}
use pi_agent_python.Agent.Types.{AgentLoopConfig}
use pi_agent_python.Agent.Loop.{Env, LoopState}
use pi_agent_python.Agent.Loop.Batch.{Answers, execute_mode, execute_calls, execute_tool_batch}
use pi_agent_python.Agent.Loop.Returns.{
  Always, Returns, Returns-pure, Returns-get, Returns-weaken, Returns-anywhere,
}
use pi_agent_python.Agent.Loop.Answers.{
  Answered, none_left, one_more, Sequence, nothing_left, answered_then, Returns-refuse_truncated,
  Returns-execute_sequential,
}
use pi_agent_python.Agent.Loop.Parallel.{IsFair, Returns-execute_parallel}

module _ {W : Type 0} (env : Env W) (config : AgentLoopConfig W)
    (assistant : AssistantMessage) where
  Answered-Sequence :
      (calls : List ToolCall) (l : Answers) (t : LoopState W)
      → Answered calls l
      → Sequence env config assistant t calls l
  Answered-Sequence _ _ t none_left = nothing_left
  Answered-Sequence (_ ∷ calls) ((_, _) ∷ rest) t (one_more e f h) =
      answered_then (e, f) (Answered-Sequence calls rest t h)

  module _ (fair : IsFair env) where
    Returns-execute_mode :
        (b : Bool) (calls : List ToolCall)
        → Returns Always
            (λ l t. Sequence env config assistant t calls l)
            (execute_mode env config assistant b calls)
    Returns-execute_mode true calls = Returns-execute_sequential env config assistant 0 calls
    Returns-execute_mode false calls =
        Returns-weaken (Returns-execute_parallel env config assistant fair calls)
          (λ l t h. Answered-Sequence calls l t h)

    Returns-execute_calls :
        (b : Bool) (calls : List ToolCall)
        → Returns Always
            (λ l t. Sequence env config assistant t calls l)
            (execute_calls env config assistant b calls)
    Returns-execute_calls true calls =
        Returns-weaken (Returns-refuse_truncated env config assistant 0 calls)
          (λ l t h. Answered-Sequence calls l t h)
    Returns-execute_calls false calls =
        Returns-get _ (λ s. Returns-anywhere (Returns-execute_mode _ calls))

    -- Where each task of a parallel batch is run, a batch of calls that returns, whatever its mode and
    -- whether its response was cut short, answers the calls one by one, in their order, each with a
    -- message under the id of its call, until none is left or the token is found cancelled after one.
    pub Returns-execute_tool_batch :
        (calls : List ToolCall)
        → Returns Always
            (λ l t. Sequence env config assistant t calls l)
            (execute_tool_batch env config assistant calls)
    unfolding execute_tool_batch
    Returns-execute_tool_batch [] = Returns-pure [] (λ _ _. nothing_left)
    Returns-execute_tool_batch (call ∷ calls) = Returns-execute_calls _ (call ∷ calls)
