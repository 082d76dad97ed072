-- ===== src/Security/Approval/Grants.antt =====
-- The grants that calls of `authorize`, in src/pi_agent/security/approval.py, leave to later ones.
use Prim.Native.String.{len}
use pi_agent_python.Base.{
  ◌≡◌, refl, sym, ap, ◌∙◌, true, false, inl, inr, Option, none, some, String, Bool, Bool-cases,
  ◌==◌, if◌then◌else◌, append-nil, append_assoc, List, [], ◌∷◌, ◌++◌, arith, reverse,
  reverse-append, beq_refl, string_eq, Option-cases,
}
use pi_agent_python.Base.Result.{ok, err}
use pi_agent_python.Ai.Json.{object, end}
use pi_agent_python.Security.Types.{
  DecisionEffect, allow, deny, ask, ApprovalScope, once, session_exact, session_pattern, exact,
  glob, ToolRequest, PolicyDecision, ApprovalResponse, ApprovalGrant,
}
use pi_agent_python.Security.Policy.{Library, evaluate}
use pi_agent_python.Security.Approval.{
  ApprovalManager, ApprovalError, locked, remembered, done, note, granted, grant_matches,
  matching_among, matching_grant, normalized, decided, start, remember, answered, finish,
}
use pi_agent_python.Security.Approval.Stages.{start-granted, start_judged}

module _ (lib : Library) where
  -- The grant that an answer for the session with the same arguments leaves.
  abbrev pub exact_grant : ToolRequest → ApprovalGrant
  exact_grant request = record {
    tool_name = request.tool_name;
    matcher = exact;
    arguments = request.arguments;
    pattern = none;
  }

  finish_exact :
      (request : ToolRequest) (r : ApprovalResponse) (m : ApprovalManager)
      → r.approved ≡ true
      → r.scope ≡ session_exact
      → finish lib request r m ≡ (
        ok (answered lib r request),
        note request
            (answered lib r request)
            (some r)
            (record m { grants = m.grants ++ exact_grant request ∷ [] }),
      )
  unfolding finish remember
  finish_exact request r m agreed scope = ground arith

  -- What other calls, in whatever stage, make of a manager: all but `clear_grants`.
  pub data Later (m : ApprovalManager) : ApprovalManager → Type 0 where
    at_once : Later m m
    started : {m' : ApprovalManager} (raw : ToolRequest) → Later m m' → Later m (start lib raw m').1
    locked_in :
        {m' : ApprovalManager} (request : ToolRequest) (d : PolicyDecision)
        → Later m m'
        → Later m (locked lib request d m').1
    finished :
        {m' : ApprovalManager} (request : ToolRequest) (r : ApprovalResponse)
        → Later m m'
        → Later m (finish lib request r m').1

  -- The grants of a manager begin with those of another.
  abbrev GrantsFrom : ApprovalManager → ApprovalManager → Type 0
  GrantsFrom m m' = (more : List ApprovalGrant) × (m'.grants ≡ m.grants ++ more)

  decided-grants :
      (request : ToolRequest) (d : PolicyDecision) (e : DecisionEffect) (m : ApprovalManager)
      → (decided lib request d e m).1.grants ≡ m.grants
  decided-grants request d allow m = refl
  decided-grants request d deny m = refl
  decided-grants request d ask m = refl

  start-grants : (raw : ToolRequest) (m : ApprovalManager) → (start lib raw m).1.grants ≡ m.grants
  start-grants raw m = elim (Option-cases (matching_grant lib m (normalized lib m raw))) [
    | inl nothing ↦
        ap (λ o. o.1.grants) (start_judged lib raw m nothing)
        ∙ decided-grants (normalized lib m raw) (evaluate lib m.policy (normalized lib m raw))
            (evaluate lib m.policy (normalized lib m raw)).effect m
    | inr (g, found) ↦ ap (λ o. o.1.grants) (start-granted lib raw m g found)
  ]

  locked-grants :
      (request : ToolRequest) (d : PolicyDecision) (m : ApprovalManager)
      → (locked lib request d m).1.grants ≡ m.grants
  unfolding locked
  locked-grants request d m = elim (Option-cases (matching_grant lib m request)) [
    | inl nothing ↦ ground arith
    | inr (g, found) ↦ ground arith
  ]

  pattern-grants :
      (request : ToolRequest) (r : ApprovalResponse) (m : ApprovalManager) (g : ApprovalGrant)
      (b : Bool)
      → GrantsFrom m
          (remembered lib request r m (
            if b
            then err ApprovalError.missing_pattern
            else ok (record m { grants = m.grants ++ g ∷ [] }))).1
  pattern-grants request r m g true = ([], sym (append-nil m.grants))
  pattern-grants request r m g false = (g ∷ [], refl)

  remember-grants :
      (request : ToolRequest) (r : ApprovalResponse) (m : ApprovalManager) (scope : ApprovalScope)
      (p : Option String)
      → GrantsFrom m (remembered lib request r m (remember lib request scope p m)).1
  unfolding remember
  remember-grants request r m once p = ([], sym (append-nil m.grants))
  remember-grants request r m session_exact p = (exact_grant request ∷ [], refl)
  remember-grants request r m session_pattern none = ([], sym (append-nil m.grants))
  remember-grants request r m session_pattern (some p) =
      pattern-grants request r m
        (record {
          tool_name = request.tool_name;
          matcher = glob;
          arguments = end;
          pattern = some p;
        })
        (len p == 0)

  either-grants :
      {A : Type 0} (m : ApprovalManager) (b : Bool) (x y : A × ApprovalManager)
      → GrantsFrom m x.1
      → GrantsFrom m y.1
      → GrantsFrom m (if b then x else y).1
  either-grants m true x y h k = h
  either-grants m false x y h k = k

  finish-grants :
      (request : ToolRequest) (r : ApprovalResponse) (m : ApprovalManager)
      → GrantsFrom m (finish lib request r m).1
  unfolding finish
  finish-grants request r m =
      either-grants m r.approved _ _ (remember-grants request r m r.scope r.pattern)
        ([], sym (append-nil m.grants))

  Later-grants : (m m' : ApprovalManager) → Later m m' → GrantsFrom m m'
  Later-grants m m' (Later.at_once) = ([], sym (append-nil m.grants))
  Later-grants m _ (Later.started {m'} raw l) =
      let (more, e) = Later-grants m m' l in (more, start-grants raw m' ∙ e)
  Later-grants m _ (Later.locked_in {m'} request d l) =
      let (more, e) = Later-grants m m' l in (more, locked-grants request d m' ∙ e)
  Later-grants m _ (Later.finished {m'} request r l) =
      let (more, e) = Later-grants m m' l in
      let (last, f) = finish-grants request r m' in
      (more ++ last, f ∙ ap (λ gs. gs ++ last) e ∙ append_assoc m.grants more last)

  matching_among-some :
      (gs hs : List ApprovalGrant) (g : ApprovalGrant) (request : ToolRequest)
      → grant_matches lib g request ≡ true
      → (h : ApprovalGrant) × (matching_among lib (gs ++ g ∷ hs) request ≡ some h)
  unfolding matching_among
  matching_among-some [] hs g request here = (g, rw here refl)
  matching_among-some (x ∷ gs) hs g request here = elim (Bool-cases (grant_matches lib x request)) [
    | inl first ↦ (x, rw first refl)
    | inr other ↦ let (h, found) = matching_among-some gs hs g request here in (h, rw other found)
  ]

  matching_grant-some :
      (m : ApprovalManager) (gs more : List ApprovalGrant) (g : ApprovalGrant)
      (request : ToolRequest)
      → m.grants ≡ (gs ++ g ∷ []) ++ more
      → grant_matches lib g request ≡ true
      → (h : ApprovalGrant) × (matching_grant lib m request ≡ some h)
  unfolding matching_grant
  matching_grant-some m gs more g request e here =
      let (h, found) = matching_among-some (reverse more) (reverse gs) g request here in
      (
        h,
        ap (λ l. matching_among lib l request)
              (ap reverse e
                ∙ reverse-append (gs ++ g ∷ []) more
                ∙ ap (λ l. reverse more ++ l) (reverse-append gs (g ∷ [])))
            ∙ found,
      )

  -- After the person approved a call for the session, and whatever other calls do to the manager then,
  -- as long as the grants are not cleared: a call of the same tool with equal arguments is let through
  -- by a grant, without a question and whatever the policy says.
  pub finish-start :
      (request raw : ToolRequest) (r : ApprovalResponse) (m m' : ApprovalManager)
      → r.approved ≡ true
      → r.scope ≡ session_exact
      → request.tool_name ≡ raw.tool_name
      → lib.equal (object request.arguments) (object raw.arguments) ≡ true
      → Later (finish lib request r m).1 m'
      → (g : ApprovalGrant) × ((start lib raw m').0 ≡ done (ok (granted g (normalized lib m' raw))))
  unfolding grant_matches
  finish-start request raw r m m' agreed scope tool equal later =
      let (more, kept) = Later-grants (finish lib request r m).1 m' later in
      let here : grant_matches lib (exact_grant request) (normalized lib m' raw) ≡ true =
        ground (arith, beq_refl raw.tool_name) in
      let grants : m'.grants ≡ (m.grants ++ exact_grant request ∷ []) ++ more =
        kept ∙ ap (λ o. o.1.grants ++ more) (finish_exact request r m agreed scope) in
      let (g, found) =
        matching_grant-some m' m.grants more (exact_grant request) (normalized lib m' raw) grants
          here in
      (g, ap (λ s. s.0) (start-granted lib raw m' g found))
