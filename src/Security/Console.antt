-- ===== src/Security/Console.antt =====
-- `ConsoleApprovalHandler._request_sync` of src/pi_agent/security/approval.py: what an answer on the
-- console means. The two lines are arguments, stripped, the first one casefolded too.
use Prim.Native.String.{len}
use pi_agent_python.Base.{
  String, true, false, Option, none, some, [], ◌∷◌, if◌then◌else◌, ◌==◌, string_eq,
}
use pi_agent_python.Base.Lists.{contains}
use pi_agent_python.Security.Types.{
  ApprovalScope, once, session_exact, session_pattern, ApprovalResponse,
}

abbrev approving : ApprovalScope → Option String → ApprovalResponse
approving scope pattern = record { approved = true; scope = scope; pattern = pattern; reason = "" }

abbrev refusing : String → ApprovalResponse
refusing reason = record { approved = false; scope = once; pattern = none; reason = reason }

unfoldable pub console_response : String → String → ApprovalResponse
unfolding contains
console_response answer pattern =
    if contains ("y" ∷ "yes" ∷ []) answer
    then approving once none
    else if contains ("a" ∷ "always" ∷ []) answer
    then approving session_exact none
    else if contains ("p" ∷ "pattern" ∷ []) answer
    then (if len pattern == 0
        then refusing "empty approval pattern"
        else approving session_pattern (some pattern))
    else refusing "user denied tool call"
