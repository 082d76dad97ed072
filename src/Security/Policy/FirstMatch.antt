-- ===== src/Security/Policy/FirstMatch.antt =====
-- `ToolPolicy.evaluate` of src/pi_agent/security/policy.py and the order of its rules.
use pi_agent_python.Base.{String, ◌≡◌, ap, ◌∙◌, true, false, some, List, [], ◌∷◌, ◌++◌, arith}
use pi_agent_python.Base.Lists.{any}
use pi_agent_python.Ai.Json.{JsonValue}
use pi_agent_python.Security.Types.{DecisionEffect, PolicyRule, ToolRequest, exact, glob}
use pi_agent_python.Security.Policy.{
  Library, ToolPolicy, new_rule, decision_of, matches_rule, classify_request, first_match, evaluate,
  add_exact, add_pattern,
}

module _ (lib : Library) where
  first_match_here :
      (before : List PolicyRule) (rule : PolicyRule) (after : List PolicyRule)
      (request : ToolRequest)
      → any (λ r. matches_rule lib r request) before ≡ false
      → matches_rule lib rule request ≡ true
      → first_match lib (before ++ rule ∷ after) request ≡ some rule
  unfolding first_match
  first_match_here [] rule after request none_before here = ground arith
  first_match_here (r ∷ before) rule after request none_before here =
      ground (arith, first_match_here before rule after request)

  -- A rule decides a request where it matches and no rule before it does, whatever follows it.
  pub evaluate-first :
      (p : ToolPolicy) (before : List PolicyRule) (rule : PolicyRule) (after : List PolicyRule)
      (request : ToolRequest)
      → p.rules ≡ before ++ rule ∷ after
      → any (λ r. matches_rule lib r request) before ≡ false
      → matches_rule lib rule request ≡ true
      → evaluate lib p request ≡ decision_of rule (classify_request lib request)
  unfolding evaluate
  evaluate-first p before rule after request rules none_before here =
      let found : first_match lib p.rules request ≡ some rule =
        ap (λ rs. first_match lib rs request) rules
        ∙ first_match_here before rule after request none_before here in
      ground arith

  first_match_end :
      (rules : List PolicyRule) (extra request_rule : PolicyRule) (request : ToolRequest)
      → first_match lib rules request ≡ some request_rule
      → first_match lib (rules ++ extra ∷ []) request ≡ some request_rule
  unfolding first_match
  first_match_end [] extra rule request h = cc
  first_match_end (r ∷ rules) extra rule request h =
      ground (arith, first_match_end rules extra rule request)

  -- A rule that `add_exact` or `add_pattern` adds changes no decision that a rule of the policy makes.
  pub evaluate-add_exact-add_pattern :
      (p : ToolPolicy) (id : String) (effect : DecisionEffect) (tool : String)
      (arguments : List (String × JsonValue)) (reason : String) (request : ToolRequest)
      (rule : PolicyRule)
      → first_match lib p.rules request ≡ some rule
      → (evaluate lib (add_exact p id effect tool arguments reason) request
          ≡ evaluate lib p request)
        × (evaluate lib (add_pattern p id effect tool arguments reason) request
            ≡ evaluate lib p request)
  unfolding evaluate add_exact add_pattern
  evaluate-add_exact-add_pattern p id effect tool arguments reason request rule h =
      let added = new_rule id effect tool in
      (
        ground (arith, first_match_end p.rules (added exact arguments reason) rule request h),
        ground (arith, first_match_end p.rules (added glob arguments reason) rule request h),
      )
