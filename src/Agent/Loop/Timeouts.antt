-- ===== src/Agent/Loop/Timeouts.antt =====
-- The handlers of `_run_prepared_tool`, src/pi_agent/agent/agent_loop.py.
use pi_agent_python.Base.{String, ◌≡◌, refl, ◌↔◌, Option, none, some}
use pi_agent_python.Base.Result.{ok, err}
use pi_agent_python.Ai.Types.{Float}
use pi_agent_python.Agent.Types.{Exn, Outcome, AgentToolResult, AgentLoopConfig}
use pi_agent_python.Agent.Loop.{Env, PreparedToolCall}
use pi_agent_python.Agent.Loop.Tools.{timeout_result, handle}

module _ {W : Type 0} (env : Env W) (config : AgentLoopConfig W) where
  abbrev pub Raises : {A : Type 0} → Outcome A → Type 0
  Raises r = (x : Exn) × (r ≡ err x)

  timeout-Raises :
      (name : String) (o : Option Float) → Raises (timeout_result env config name o) → o ≡ none
  timeout-Raises name none h = refl
  timeout-Raises name (some t) (x, e) = cc

  timeout_none :
      (name : String) (o : Option Float) → o ≡ none → Raises (timeout_result env config name o)
  timeout_none name none h = (_, refl)
  timeout_none name (some t) h = cc

  -- The handlers around the execution of a tool raise exactly where a tool that has no timeout raises a
  -- `TimeoutError`; every other outcome of the execution becomes a result.
  pub handle-Raises :
      (p : PreparedToolCall W) (r : Outcome AgentToolResult)
      → Raises (handle env config p r)
        ↔ (((s : String) × (r ≡ err (Exn.timed_out s))) × (p.tool.timeout ≡ none))
  unfolding handle
  handle-Raises p (ok a) = (λ h. cc, λ h. cc)
  handle-Raises p (err (Exn.timed_out s)) = (
    λ h. ((s, refl), timeout-Raises p.call.name p.tool.timeout h),
    λ h. timeout_none p.call.name p.tool.timeout (h.1),
  )
  handle-Raises p (err (Exn.cancelled s)) = (λ h. cc, λ h. cc)
  handle-Raises p (err (Exn.tool_arguments s)) = (λ h. cc, λ h. cc)
  handle-Raises p (err (Exn.failure s)) = (λ h. cc, λ h. cc)
  handle-Raises p (err Exn.out_of_fuel) = (λ h. cc, λ h. cc)
