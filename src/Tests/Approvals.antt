-- ===== src/Tests/Approvals.antt =====
-- A policy of two rules, and a call that is approved for the session.
use pi_agent_python.Base.{
  String, ◌≡◌, refl, Bool, true, false, ◌⊎◌, none, some, [], ◌∷◌, string_eq, beq,
}
use pi_agent_python.Base.Lists.{any}
use pi_agent_python.Base.Result.{ok}
use pi_agent_python.Ai.Json.{JsonValue, str, object, Fields, end, field}
use pi_agent_python.Security.Types.{
  allow, deny, ask, session_exact, exact, RiskLevel, ToolRequest, PolicyDecision, PolicyRule,
  ApprovalResponse, ApprovalGrant,
}
use pi_agent_python.Security.Policy.{
  Library, ToolPolicy, new_rule, decision_of, matches_rule, classify_request, first_match, evaluate,
  add_exact, add_pattern,
}
use pi_agent_python.Security.Policy.FirstMatch.{evaluate-first, evaluate-add_exact-add_pattern}
use pi_agent_python.Security.Approval.{
  ApprovalManager, done, granted, matching_grant, normalized, start, finish,
}
use pi_agent_python.Security.Approval.{authorize}
use pi_agent_python.Security.Approval.Whole.{authorize-allowed}
use pi_agent_python.Security.Approval.Stages.{start-allowed}
use pi_agent_python.Security.Approval.Grants.{Later, finish-start}

abbrev equal_fields : Fields → Fields → Bool
equal_fields end end = true
equal_fields (field j (str s) fs) (field k (str t) gs) = elim (beq j k) [
  | true ↦ elim (beq s t) [ true ↦ equal_fields fs gs | false ↦ false ]
  | false ↦ false
]
equal_fields _ _ = false

-- Objects that hold texts are compared, and everything else is different.
abbrev equal : JsonValue → JsonValue → Bool
equal (object fs) (object gs) = equal_fields fs gs
equal _ _ = false

abbrev lib : Library
lib = record {
  fnmatchcase = λ name pattern. beq pattern "*";
  equal = equal;
  dumps = λ v. "";
  split_dots = λ s. s ∷ [];
  casefold = λ s. s;
  classify_command = λ s. RiskLevel.high;
  is_sensitive_path = λ s. false;
}

abbrev no_writes : PolicyRule
no_writes = new_rule "r1" deny "write" exact [] ""

abbrev reads : PolicyRule
reads = new_rule "r2" allow "read" exact [] "reading is safe"

abbrev policy : ToolPolicy
policy = record { rules = no_writes ∷ reads ∷ []; default_effect = ask }

abbrev request_of : String → ToolRequest
request_of name = record {
  tool_name = name;
  arguments = field "path" (str "a.txt") end;
  session_id = none;
  cwd = none;
  risk = RiskLevel.medium;
}

not_denied : any (λ r. matches_rule lib r (request_of "read")) (no_writes ∷ []) ≡ false
unfolding matches_rule
not_denied = refl

reads_match : matches_rule lib reads (request_of "read") ≡ true
unfolding matches_rule
reads_match = refl

evaluate-first_example :
    evaluate lib policy (request_of "read")
    ≡ decision_of reads (classify_request lib (request_of "read"))
evaluate-first_example =
    evaluate-first lib policy (no_writes ∷ []) reads [] (request_of "read") refl not_denied
      reads_match

reads_found : first_match lib policy.rules (request_of "read") ≡ some reads
unfolding first_match
reads_found = refl

evaluate-add_exact-add_pattern_example :
    (evaluate lib (add_exact policy "r3" deny "read" [] "") (request_of "read")
      ≡ evaluate lib policy (request_of "read"))
    × (evaluate lib (add_pattern policy "r3" deny "read" [] "") (request_of "read")
        ≡ evaluate lib policy (request_of "read"))
evaluate-add_exact-add_pattern_example =
    evaluate-add_exact-add_pattern lib policy "r3" deny "read" [] "" (request_of "read") reads
      reads_found

abbrev manager : ApprovalManager
manager = record { policy = policy; session_id = some "s"; grants = []; audit = [] }

abbrev allowed : PolicyDecision
allowed = record {
  effect = allow;
  reason = "reading is safe";
  rule_id = some "r2";
  risk = RiskLevel.low;
}

read_starts : (start lib (request_of "read") manager).0 ≡ done (ok allowed)
unfolding start
read_starts = refl

start-allowed_example :
    ((g : ApprovalGrant) × (matching_grant lib manager (normalized lib manager (request_of "read"))
        ≡ some g)
      × (granted g (normalized lib manager (request_of "read")) ≡ allowed))
    ⊎ (matching_grant lib manager (normalized lib manager (request_of "read")) ≡ none)
      × (evaluate lib policy (normalized lib manager (request_of "read")) ≡ allowed)
      × (allow ≡ allow)
start-allowed_example = start-allowed lib (request_of "read") manager allowed read_starts

abbrev for_session : ApprovalResponse
for_session = record { approved = true; scope = session_exact; pattern = none; reason = "" }

-- The manager after that answer, and after another call is let through.
abbrev answered_manager : ApprovalManager
answered_manager = (finish lib (request_of "edit") for_session manager).1

abbrev later_manager : ApprovalManager
later_manager = (start lib (request_of "read") answered_manager).1

after_one_call : Later lib answered_manager later_manager
after_one_call = Later.started (request_of "read") Later.at_once

finish-start_example :
    (g : ApprovalGrant) × ((start lib (request_of "edit") later_manager).0
      ≡ done (ok (granted g (normalized lib later_manager (request_of "edit")))))
finish-start_example =
    finish-start lib (request_of "edit") (request_of "edit") for_session manager later_manager refl
      refl refl refl after_one_call

abbrev agreeing : ToolRequest → PolicyDecision → ApprovalResponse
agreeing request decision = for_session

-- No rule matches `edit`, so the person is asked.
abbrev agreed : PolicyDecision
agreed = record {
  effect = allow;
  reason = "approved by user";
  rule_id = none;
  risk = RiskLevel.high;
}

edit_is_agreed : (authorize lib agreeing (request_of "edit") manager).0 ≡ ok agreed
unfolding authorize
edit_is_agreed = refl

authorize-allowed_example :
    ((g : ApprovalGrant) × (matching_grant lib manager (normalized lib manager (request_of "edit"))
        ≡ some g))
    ⊎ ((evaluate lib policy (normalized lib manager (request_of "edit"))).effect ≡ allow)
    ⊎ ((evaluate lib policy (normalized lib manager (request_of "edit"))).effect ≡ ask)
      × (true ≡ true)
authorize-allowed_example =
    authorize-allowed lib agreeing (request_of "edit") manager agreed edit_is_agreed
