-- ===== src/Security/Types.antt =====
-- src/pi_agent/security/types.py. The times of grants and audit records are left out: nothing reads
-- them.
use pi_agent_python.Base.{String, Bool, Option, List}
use pi_agent_python.Ai.Json.{JsonValue, Fields}

pub data DecisionEffect : Type 0 where
  allow deny ask : DecisionEffect

pub data ApprovalScope : Type 0 where
  once session_exact session_pattern : ApprovalScope

pub data RuleMatcher : Type 0 where
  exact glob : RuleMatcher

pub data RiskLevel : Type 0 where
  low medium high critical : RiskLevel

pub record ToolRequest : Type 0 where
  pub tool_name : String
  pub arguments : Fields
  pub session_id : Option String
  pub cwd : Option String
  pub risk : RiskLevel

pub record PolicyDecision : Type 0 where
  pub effect : DecisionEffect
  pub reason : String
  pub rule_id : Option String
  pub risk : RiskLevel

pub record ApprovalResponse : Type 0 where
  pub approved : Bool
  pub scope : ApprovalScope
  pub pattern : Option String
  pub reason : String

pub record PolicyRule : Type 0 where
  pub id : String
  pub effect : DecisionEffect
  pub tool : String
  pub matcher : RuleMatcher
  pub arguments : List (String × JsonValue)
  pub reason : String
  pub risk : Option RiskLevel

pub record ApprovalGrant : Type 0 where
  pub tool_name : String
  pub matcher : RuleMatcher
  pub arguments : Fields
  pub pattern : Option String

pub record SecurityAuditRecord : Type 0 where
  pub request : ToolRequest
  pub decision : PolicyDecision
  pub approval : Option ApprovalResponse
