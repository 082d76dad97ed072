-- ===== src/Security/Approval/Stages.antt =====
-- The stages of `authorize` in src/pi_agent/security/approval.py.
use pi_agent_python.Base.{
  ◌≡◌, refl, sym, ap, ◌∙◌, ◌⊎◌, inl, inr, none, some, arith, string_eq, Option-cases,
}
use pi_agent_python.Base.Result.{ok}
use pi_agent_python.Security.Types.{
  DecisionEffect, allow, deny, ask, ToolRequest, PolicyDecision, ApprovalGrant,
}
use pi_agent_python.Security.Policy.{Library, evaluate}
use pi_agent_python.Security.Approval.{
  ApprovalManager, done, note, granted, matching_grant, normalized, decided, start,
}

module _ (lib : Library) where
  pub start-granted :
      (raw : ToolRequest) (m : ApprovalManager) (g : ApprovalGrant)
      → matching_grant lib m (normalized lib m raw) ≡ some g
      → start lib raw m ≡ (
        done (ok (granted g (normalized lib m raw))),
        note (normalized lib m raw) (granted g (normalized lib m raw)) none m,
      )
  unfolding start
  start-granted raw m g found = ground arith

  pub start_judged :
      (raw : ToolRequest) (m : ApprovalManager)
      → matching_grant lib m (normalized lib m raw) ≡ none
      → start lib raw m
        ≡ decided lib
            (normalized lib m raw)
            (evaluate lib m.policy (normalized lib m raw))
            (evaluate lib m.policy (normalized lib m raw)).effect
            m
  unfolding start
  start_judged raw m nothing = ground arith

  decided_ok :
      (request : ToolRequest) (d out : PolicyDecision) (e : DecisionEffect) (m : ApprovalManager)
      → (decided lib request d e m).0 ≡ done (ok out)
      → (e ≡ allow) × (d ≡ out)
  decided_ok request d out allow m h = (refl, cc)
  decided_ok request d out deny m h = cc
  decided_ok request d out ask m h = cc

  -- `authorize` lets a call through before its lock only where a grant of the session matches it, or
  -- where none does and the policy allows it; the decision it returns is that of the grant or of the
  -- policy.
  pub start-allowed :
      (raw : ToolRequest) (m : ApprovalManager) (d : PolicyDecision)
      → (start lib raw m).0 ≡ done (ok d)
      → ((g : ApprovalGrant) × (matching_grant lib m (normalized lib m raw) ≡ some g)
          × (granted g (normalized lib m raw) ≡ d))
        ⊎ (matching_grant lib m (normalized lib m raw) ≡ none)
          × (evaluate lib m.policy (normalized lib m raw) ≡ d)
          × (d.effect ≡ allow)
  start-allowed raw m d h = elim (Option-cases (matching_grant lib m (normalized lib m raw))) [
    | inr (g, found) ↦ let step = start-granted raw m g found in inl (g, found, cc)
    | inl nothing ↦
        let step = start_judged raw m nothing in
        let request : ToolRequest = normalized lib m raw in
        let judged : PolicyDecision = evaluate lib m.policy request in
        let (effect, same) =
          decided_ok request judged d judged.effect m (ap (λ r. r.0) (sym step) ∙ h) in
        inr (nothing, same, ap PolicyDecision.effect (sym same) ∙ effect)
  ]
