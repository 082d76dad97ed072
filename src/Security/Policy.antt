-- ===== src/Security/Policy.antt =====
-- src/pi_agent/security/policy.py: ordered rules. What Python's library
-- does (`fnmatch.fnmatchcase`, `json.dumps`, equality of JSON values, `str.split`) and the judgement
-- of shell commands and paths, which rests on `re`, `shlex` and `pathlib`, are arguments.
pub mod FirstMatch
use Prim.Native.String.{len, ◌++◌ as concat}
use pi_agent_python.Base.{
  ℕ, String, Bool, true, false, not, ◌&&◌, ◌||◌, Option, none, some, List, [], ◌∷◌, ◌++◌,
  if◌then◌else◌, beq, string_eq, ◌==◌,
}
use pi_agent_python.Base.Lists.{contains}
use pi_agent_python.Ai.Json.{get_field, JsonValue, null, str, object, Fields, end, field}
use pi_agent_python.Security.Types.{
  DecisionEffect, RuleMatcher, exact, glob, RiskLevel, ToolRequest, PolicyDecision, PolicyRule,
}

pub record Library : Type 0 where
  pub fnmatchcase : String → String → Bool
  pub equal : JsonValue → JsonValue → Bool
  pub dumps : JsonValue → String
  pub split_dots : String → List String
  pub casefold : String → String
  pub classify_command : String → RiskLevel
  pub is_sensitive_path : String → Bool

-- The loop of `_nested_get`.
unfoldable pub nested_get : JsonValue → List String → JsonValue
unfolding get_field
nested_get current [] = current
nested_get (object fs) (part ∷ parts) = elim (get_field part fs) [
  | none ↦ null
  | some v ↦ nested_get v parts
]
nested_get _ (part ∷ parts) = null

-- `_argument_string`
abbrev pub text_or : Option JsonValue → Option String → Option String
text_or (some (str s)) other = some s
text_or _ other = other

unfoldable pub argument_string : Fields → List String → Option String
unfolding get_field
argument_string arguments [] = none
argument_string arguments (k ∷ ks) = text_or (get_field k arguments) (argument_string arguments ks)

-- `ToolPolicy`
pub record ToolPolicy : Type 0 where
  pub rules : List PolicyRule
  pub default_effect : DecisionEffect

abbrev pub risk_or : Option RiskLevel → RiskLevel → RiskLevel
risk_or none risk = risk
risk_or (some r) risk = r

-- The decision of a rule that matches.
abbrev pub decision_of : PolicyRule → RiskLevel → PolicyDecision
decision_of rule risk = record {
  effect = rule.effect;
  reason = if len rule.reason == 0 then concat "matched policy rule " rule.id else rule.reason;
  rule_id = some rule.id;
  risk = risk_or rule.risk risk;
}

abbrev pub new_rule :
    String → DecisionEffect → String → RuleMatcher → List (String × JsonValue) → String → PolicyRule
new_rule id effect tool matcher arguments reason = record {
  id = id;
  effect = effect;
  tool = tool;
  matcher = matcher;
  arguments = arguments;
  reason = reason;
  risk = none;
}

-- `add_exact` and `add_pattern`; the effect is one of the three by its type.
unfoldable pub add_exact :
    ToolPolicy → String → DecisionEffect → String → List (String × JsonValue) → String → ToolPolicy
add_exact p id effect tool arguments reason = record p {
  rules = p.rules ++ new_rule id effect tool exact arguments reason ∷ [];
}

unfoldable pub add_pattern :
    ToolPolicy → String → DecisionEffect → String → List (String × JsonValue) → String → ToolPolicy
add_pattern p id effect tool arguments reason = record p {
  rules = p.rules ++ new_rule id effect tool glob arguments reason ∷ [];
}

module _ (lib : Library) where
  -- `_stringify`
  abbrev pub stringify : JsonValue → String
  stringify (str s) = s
  stringify v = lib.dumps v

  abbrev pub argument_matches : RuleMatcher → JsonValue → JsonValue → Bool
  argument_matches exact actual expected = lib.equal actual expected
  argument_matches glob actual expected = lib.fnmatchcase (stringify actual) (stringify expected)

  -- The loop over `rule.arguments.items()`.
  unfoldable pub arguments_match : RuleMatcher → Fields → List (String × JsonValue) → Bool
  unfolding nested_get
  arguments_match matcher arguments [] = true
  arguments_match matcher arguments ((key, expected) ∷ rest) =
      argument_matches matcher (nested_get (object arguments) (lib.split_dots key)) expected
      && arguments_match matcher arguments rest

  abbrev pub tool_matches : RuleMatcher → String → String → Bool
  tool_matches exact name tool = beq name tool
  tool_matches glob name tool = lib.fnmatchcase name tool

  -- `_matches_rule`
  unfoldable pub matches_rule : PolicyRule → ToolRequest → Bool
  unfolding arguments_match
  matches_rule rule request =
      tool_matches rule.matcher request.tool_name rule.tool
      && arguments_match rule.matcher request.arguments rule.arguments

  abbrev pub sensitive : Option String → RiskLevel
  sensitive none = RiskLevel.high
  sensitive (some path) =
      if not (len path == 0) && lib.is_sensitive_path path
      then RiskLevel.critical
      else RiskLevel.high

  abbrev pub or_empty : Option String → String
  or_empty none = ""
  or_empty (some s) = s

  unfoldable pub classify_request : ToolRequest → RiskLevel
  unfolding argument_string contains
  classify_request request =
      let name = lib.casefold request.tool_name in
      if contains ("read" ∷ "grep" ∷ "find" ∷ "ls" ∷ []) name
      then RiskLevel.low
      else if contains ("write" ∷ "edit" ∷ "patch" ∷ "apply_patch" ∷ []) name
      then sensitive (argument_string request.arguments ("path" ∷ "file" ∷ "filePath" ∷ []))
      else if contains ("bash" ∷ "shell" ∷ "exec" ∷ "command" ∷ []) name
      then lib.classify_command
          (or_empty (argument_string request.arguments ("command" ∷ "cmd" ∷ [])))
      else if contains ("delete" ∷ "remove" ∷ "unlink" ∷ []) name
      then RiskLevel.critical
      else request.risk

  -- The loop of `evaluate`.
  unfoldable pub first_match : List PolicyRule → ToolRequest → Option PolicyRule
  unfolding matches_rule
  first_match [] request = none
  first_match (rule ∷ rules) request =
      let rest = first_match rules request in if matches_rule rule request then some rule else rest

  unfoldable pub evaluate : ToolPolicy → ToolRequest → PolicyDecision
  unfolding first_match classify_request
  evaluate policy request = elim (first_match policy.rules request) [
    | some rule ↦ decision_of rule (classify_request request)
    | none ↦ record {
      effect = policy.default_effect;
      reason = concat "no policy rule matched " request.tool_name;
      rule_id = none;
      risk = classify_request request;
    }
  ]
