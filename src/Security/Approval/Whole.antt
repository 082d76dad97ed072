-- ===== src/Security/Approval/Whole.antt =====
-- `authorize` of src/pi_agent/security/approval.py as a whole.
use pi_agent_python.Base.{
  ◌≡◌, refl, sym, ap, ◌∙◌, true, false, ◌⊎◌, inl, inr, none, some, arith, Bool-cases, Option-cases,
}
use pi_agent_python.Base.Result.{ok}
use pi_agent_python.Security.Types.{
  DecisionEffect, allow, deny, ask, ToolRequest, PolicyDecision, ApprovalResponse, ApprovalGrant,
}
use pi_agent_python.Security.Policy.{Library, evaluate}
use pi_agent_python.Security.Approval.{
  ApprovalManager, waiting, matching_grant, normalized, decided, locked, finish, after_locked,
  after_start, authorize,
}
use pi_agent_python.Security.Approval.Stages.{start_judged}

module _ (lib : Library) (handler : ToolRequest → PolicyDecision → ApprovalResponse) where
  finish_refused :
      (request : ToolRequest) (r : ApprovalResponse) (m : ApprovalManager) (d : PolicyDecision)
      → r.approved ≡ false
      → (finish lib request r m).0 ≡ ok d
      → ⊥
  unfolding finish
  finish_refused request r m d refused h = cc (ap (λ b. b) refused, h)

  locked_waits :
      (request : ToolRequest) (d : PolicyDecision) (m : ApprovalManager)
      → matching_grant lib m request ≡ none
      → locked lib request d m ≡ (waiting request d, m)
  unfolding locked
  locked_waits request d m nothing = ground arith

  -- What the policy and the person who is asked say, at a call that no grant matches.
  by_effect :
      (request : ToolRequest) (j : PolicyDecision) (m : ApprovalManager) (d : PolicyDecision)
      (e : DecisionEffect)
      → matching_grant lib m request ≡ none
      → (after_start lib handler (decided lib request j e m)).0 ≡ ok d
      → (e ≡ allow) ⊎ (e ≡ ask) × ((handler request j).approved ≡ true)
  by_effect request j m d allow nothing h = inl refl
  by_effect request j m d deny nothing h = cc
  by_effect request j m d ask nothing h = elim (Bool-cases (handler request j).approved) [
    | inl agreed ↦ inr (refl, agreed)
    | inr refused ↦ absurd (
        finish_refused request (handler request j) m d refused
          (ap (λ s. (after_locked lib handler s).0) (sym (locked_waits request j m nothing)) ∙ h))
  ]

  -- Where no other call runs in between, `authorize` lets a call through only if a grant of the
  -- session matches it, or the policy allows it, or the policy says `ask` and the person approves it;
  -- what the policy denies is never let through without a grant.
  pub authorize-allowed :
      (raw : ToolRequest) (m : ApprovalManager) (d : PolicyDecision)
      → (authorize lib handler raw m).0 ≡ ok d
      → ((g : ApprovalGrant) × (matching_grant lib m (normalized lib m raw) ≡ some g))
        ⊎ ((evaluate lib m.policy (normalized lib m raw)).effect ≡ allow)
        ⊎ ((evaluate lib m.policy (normalized lib m raw)).effect ≡ ask)
          × ((handler
                (normalized lib m raw)
                (evaluate lib m.policy (normalized lib m raw))).approved
              ≡ true)
  unfolding authorize
  authorize-allowed raw m d h = elim (Option-cases (matching_grant lib m (normalized lib m raw))) [
    | inr (g, found) ↦ inl (g, found)
    | inl nothing ↦
        let request : ToolRequest = normalized lib m raw in
        let judged : PolicyDecision = evaluate lib m.policy request in
        inr (
          by_effect request judged m d judged.effect nothing
            (ap (λ s. (after_start lib handler s).0) (sym (start_judged lib raw m nothing)) ∙ h))
  ]
