-- ===== src/Security/Approval.antt =====
-- `ApprovalManager` of src/pi_agent/security/approval.py. `authorize` runs in stages, since other
-- calls run while it waits for the lock and for the person who approves: `start` up to the lock,
-- `locked` from there to the question, `finish` from the answer on. The sink of audit records is left
-- out: it reads nothing back.
pub mod Stages
pub mod Grants
pub mod Whole
use Prim.Native.String.{len, ◌++◌ as concat}
use pi_agent_python.Base.{
  ℕ, String, Bool, true, false, not, ◌&&◌, ◌||◌, Option, none, some, List, [], ◌∷◌, ◌++◌,
  if◌then◌else◌, beq, string_eq, ◌==◌, reverse,
}
use pi_agent_python.Base.Result.{Result, ok, err}
use pi_agent_python.Ai.Json.{JsonValue, object, Fields, end}
use pi_agent_python.Security.Types.{
  DecisionEffect, allow, deny, ask, ApprovalScope, once, session_exact, session_pattern,
  RuleMatcher, exact, glob, RiskLevel, ToolRequest, PolicyDecision, ApprovalResponse, ApprovalGrant,
  SecurityAuditRecord,
}
use pi_agent_python.Security.Policy.{Library, ToolPolicy, evaluate, classify_request}

pub record ApprovalManager : Type 0 where
  pub policy : ToolPolicy
  pub session_id : Option String
  pub grants : List ApprovalGrant
  pub audit : List SecurityAuditRecord

pub data ApprovalError : Type 0 where
  tool_denied : String → ApprovalError
  missing_pattern : ApprovalError

-- `clear_grants`
unfoldable pub clear_grants : ApprovalManager → ApprovalManager
clear_grants m = record m { grants = [] }

-- `_record`
abbrev pub note :
    ToolRequest → PolicyDecision → Option ApprovalResponse → ApprovalManager → ApprovalManager
note request decision approval m = record m {
  audit = m.audit ++ record { request = request; decision = decision; approval = approval } ∷ [];
}

abbrev pub or_session : Option String → Option String → Option String
or_session none other = other
or_session (some s) other = if len s == 0 then other else some s

abbrev pub matcher_name : RuleMatcher → String
matcher_name exact = "exact"
matcher_name glob = "glob"

-- The decision at a matching grant.
abbrev pub granted : ApprovalGrant → ToolRequest → PolicyDecision
granted g request = record {
  effect = allow;
  reason = concat "matched session " (concat (matcher_name g.matcher) " approval");
  rule_id = none;
  risk = request.risk;
}

-- What a stage comes to: the call is decided, or it waits with its request and decision.
pub data Stage : Type 0 where
  done : Result ApprovalError PolicyDecision → Stage
  waiting : ToolRequest → PolicyDecision → Stage

module _ (lib : Library) where
  abbrev pub pattern_matches : Option String → Fields → Bool
  pattern_matches none arguments = false
  pattern_matches (some p) arguments = lib.fnmatchcase (lib.dumps (object arguments)) p

  abbrev pub matcher_matches : ApprovalGrant → ToolRequest → Bool
  matcher_matches g request = elim g.matcher [
    | exact ↦ lib.equal (object g.arguments) (object request.arguments)
    | glob ↦ pattern_matches g.pattern request.arguments
  ]

  unfoldable pub grant_matches : ApprovalGrant → ToolRequest → Bool
  grant_matches g request = beq g.tool_name request.tool_name && matcher_matches g request

  -- The loop of `_matching_grant`, over the grants last first.
  unfoldable pub matching_among : List ApprovalGrant → ToolRequest → Option ApprovalGrant
  unfolding grant_matches
  matching_among [] request = none
  matching_among (g ∷ gs) request =
      let rest = matching_among gs request in if grant_matches g request then some g else rest

  unfoldable pub matching_grant : ApprovalManager → ToolRequest → Option ApprovalGrant
  unfolding matching_among
  matching_grant m request = matching_among (reverse m.grants) request

  abbrev pub normalized : ApprovalManager → ToolRequest → ToolRequest
  normalized m request = record request {
    session_id = or_session request.session_id m.session_id;
    risk = classify_request lib request;
  }

  -- The tests behind `decision = self.policy.evaluate(normalized)`.
  abbrev pub decided :
      ToolRequest → PolicyDecision → DecisionEffect → ApprovalManager → Stage × ApprovalManager
  decided request decision allow m = (done (ok decision), note request decision none m)
  decided request decision deny m =
      (done (err (ApprovalError.tool_denied decision.reason)), note request decision none m)
  decided request decision ask m = (waiting request decision, m)

  -- `authorize` up to `async with self._lock`
  unfoldable pub start : ToolRequest → ApprovalManager → Stage × ApprovalManager
  unfolding matching_grant evaluate classify_request
  start raw m =
      let request = normalized m raw in
      elim (matching_grant m request) [
        | some g ↦ (done (ok (granted g request)), note request (granted g request) none m)
        | none ↦
            let decision = evaluate lib m.policy request in
            decided request decision decision.effect m
      ]

  -- From the lock to the question: another call may have left a grant.
  unfoldable pub locked : ToolRequest → PolicyDecision → ApprovalManager → Stage × ApprovalManager
  unfolding matching_grant
  locked request decision m = elim (matching_grant m request) [
    | some g ↦ (done (ok (granted g request)), note request (granted g request) none m)
    | none ↦ (waiting request decision, m)
  ]

  abbrev pub pattern_grant :
      ToolRequest → Option String → ApprovalManager → Result ApprovalError ApprovalManager
  pattern_grant request none m = err ApprovalError.missing_pattern
  pattern_grant request (some p) m =
      if len p == 0
      then err ApprovalError.missing_pattern
      else ok (record m {
        grants =
            m.grants
            ++ record {
              tool_name = request.tool_name;
              matcher = glob;
              arguments = end;
              pattern = some p;
            }
              ∷ [];
      })

  -- `_remember`
  unfoldable pub remember :
      ToolRequest
      → ApprovalScope
      → Option String
      → ApprovalManager
      → Result ApprovalError ApprovalManager
  remember request once pattern m = ok m
  remember request session_exact pattern m = ok (record m {
    grants =
        m.grants
        ++ record {
          tool_name = request.tool_name;
          matcher = exact;
          arguments = request.arguments;
          pattern = none;
        }
          ∷ [];
  })
  remember request session_pattern pattern m = pattern_grant request pattern m

  abbrev pub reason_or : String → String → String
  reason_or s other = if len s == 0 then other else s

  -- The decision of the answer.
  abbrev pub answered : ApprovalResponse → ToolRequest → PolicyDecision
  answered r request = record {
    effect = if r.approved then allow else deny;
    reason = reason_or r.reason (if r.approved then "approved by user" else "denied by user");
    rule_id = none;
    risk = request.risk;
  }

  abbrev pub remembered :
      ToolRequest
      → ApprovalResponse
      → ApprovalManager
      → Result ApprovalError ApprovalManager
      → Result ApprovalError PolicyDecision × ApprovalManager
  remembered request r m (ok m') =
      (ok (answered r request), note request (answered r request) (some r) m')
  remembered request r m (err x) = (err x, m)

  -- From the answer on.
  unfoldable pub finish :
      ToolRequest
      → ApprovalResponse
      → ApprovalManager
      → Result ApprovalError PolicyDecision × ApprovalManager
  unfolding remember
  finish request r m =
      if r.approved then remembered request r m (remember request r.scope r.pattern m) else (
        err (ApprovalError.tool_denied (answered r request).reason),
        note request (answered r request) (some r) m,
      )

  abbrev pub after_locked :
      (ToolRequest → PolicyDecision → ApprovalResponse)
      → Stage × ApprovalManager
      → Result ApprovalError PolicyDecision × ApprovalManager
  after_locked handler (done r, m) = (r, m)
  after_locked handler (waiting request decision, m) = finish request (handler request decision) m

  abbrev pub after_start :
      (ToolRequest → PolicyDecision → ApprovalResponse)
      → Stage × ApprovalManager
      → Result ApprovalError PolicyDecision × ApprovalManager
  after_start handler (done r, m) = (r, m)
  after_start handler (waiting request decision, m) =
      after_locked handler (locked request decision m)

  -- `authorize` where no other call runs in between; `handler` is `request_approval`.
  unfoldable pub authorize :
      (ToolRequest → PolicyDecision → ApprovalResponse)
      → ToolRequest
      → ApprovalManager
      → Result ApprovalError PolicyDecision × ApprovalManager
  unfolding start locked finish
  authorize handler raw m = after_start handler (start raw m)
