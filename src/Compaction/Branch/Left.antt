-- ===== src/Compaction/Branch/Left.antt =====
-- `summarize_and_navigate_branch` of src/pi_agent/harness/compaction/branch.py, and the session.
use Prim.Native.String.{len}
use pi_agent_python.Base.{
  ℕ, String, ◌≡◌, ◌≢◌, refl, sym, ap, ◌∙◌, true, false, ◌⊎◌, inl, inr, Option, none, some, List, [],
  ◌∷◌, ◌++◌, arith, string_eq, Bool-cases, Option-cases, ◌==◌, ==_iff,
}
use pi_agent_python.Base.Dict.{lookup}
use pi_agent_python.Base.Result.{Result, ok, err, >>=-eq-ok}
use pi_agent_python.Ai.Types.{Message}
use pi_agent_python.Session.Types.{TreeEntry, EntryBody, SessionError}
use pi_agent_python.Session.Store.{dangling, tool_result_of}
use pi_agent_python.Session.Tree.{SessionTree, get, common_ancestor, path_to}
use pi_agent_python.Session.Manager.{SessionManager, Stamp, next_entry, append_branch_summary}
use pi_agent_python.Session.Manager.Appends.{IsSynced, append_entry-IsAppended}
use pi_agent_python.Session.Manager.Active.{next_entry-IsAnswered}
use pi_agent_python.Session.Manager.Navigate.{IsMoved, navigate_lem}
use pi_agent_python.Compaction.Compact.{Summarized}
use pi_agent_python.Compaction.Branch.{
  BranchPreparation, BranchSummaryResult, BranchError, collect_entries_for_branch_summary,
  entries_after, summarized_as, summary_of, generate_branch_summary, branch_details, noted,
  write_summary, go_on, summarize_prepared, leave_leaf, summarize_and_navigate_branch,
}

-- The entry with the summary: below `to`, from the leaf that was left, with what the summarizer gave.
abbrev pub left_entry :
    BranchPreparation → BranchSummaryResult → String → String → Stamp → TreeEntry
left_entry p r from to stamp = record {
  id = stamp.fresh;
  parent_id = some to;
  body = EntryBody.branch_summary (record {
    summary = r.summary;
    from_entry_id = from;
    to_entry_id = to;
    details = branch_details p r.usage;
  });
  timestamp = stamp.now;
}

-- A session that was left for `to`: without a summary, where it is empty, at `to` itself with the
-- entries as they were, and otherwise at the one entry more that holds the summary.
pub record IsLeft (m : SessionManager) (from to : String) (stamp : Stamp) (p : BranchPreparation)
    (r : BranchSummaryResult) (e : Option TreeEntry) (m' : SessionManager) : Type 0 where
  pub synced : IsSynced m'
  pub place :
      (len r.summary ≡ 0)
        × (e ≡ none)
        × (m'.tree.entries ≡ m.tree.entries)
        × (m'.tree.leaf_id ≡ some to)
      ⊎ (len r.summary ≢ 0)
        × (e ≡ some (left_entry p r from to stamp))
        × (m'.tree.entries ≡ m.tree.entries ++ (stamp.fresh, left_entry p r from to stamp) ∷ [])
        × (m'.tree.leaf_id ≡ some stamp.fresh)

known_of_get :
    (t : SessionTree) (id : String) (e : TreeEntry)
    → get t id ≡ ok e
    → dangling (some id) t.entries ≡ false
unfolding get
known_of_get t id e h = elim (Option-cases (lookup id t.entries)) [
  | inl missing ↦ absurd (ground arith)
  | inr (x, found) ↦ ground arith
]

target_of_collect :
    (t : SessionTree) (from to : String) (p : BranchPreparation)
    → collect_entries_for_branch_summary t from to ≡ ok p
    → dangling (some to) t.entries ≡ false
unfolding collect_entries_for_branch_summary
target_of_collect t from to p h =
    let (_, _, h1) = >>=-eq-ok (get t from) _ {out = p} h in
    let (e, found, _) = >>=-eq-ok (get t to) _ {out = p} h1 in known_of_get t to e found

abbrev start_of : Result SessionError BranchPreparation → String
start_of (ok p) = p.from_entry_id
start_of (err x) = ""

abbrev end_of : Result SessionError BranchPreparation → String
end_of (ok p) = p.to_entry_id
end_of (err x) = ""

-- What was collected names the two ends of the way.
ends_of_collect :
    (t : SessionTree) (from to : String) (p : BranchPreparation)
    → collect_entries_for_branch_summary t from to ≡ ok p
    → (p.from_entry_id ≡ from) × (p.to_entry_id ≡ to)
unfolding collect_entries_for_branch_summary
ends_of_collect t from to p h =
    let (_, _, h1) = >>=-eq-ok (get t from) _ {out = p} h in
    let (_, _, h2) = >>=-eq-ok (get t to) _ {out = p} h1 in
    let (common, _, h3) = >>=-eq-ok (common_ancestor t (some from) (some to)) _ {out = p} h2 in
    let (path, _, h4) = >>=-eq-ok (path_to t (some from)) _ {out = p} h3 in
    let (_, _, h5) = >>=-eq-ok (entries_after common path.entries) _ {out = p} h4 in
    (ap start_of (sym h5), ap end_of (sym h5))

-- A summary is one of what was collected.
preparation_of_generate :
    (call : List Message → Summarized) (p : BranchPreparation) (r : BranchSummaryResult)
    → generate_branch_summary call p ≡ ok r
    → r.preparation ≡ p
unfolding generate_branch_summary
preparation_of_generate call p r h = of_messages p.messages h
  where
    of_summarized : (s : Summarized) → summarized_as p s ≡ ok r → r.preparation ≡ p
    of_summarized (Summarized.response x) e = cc
    of_summarized (Summarized.text x) e = cc
    of_summarized (Summarized.raised x) e = cc

    of_messages : (ms : List Message) → summary_of call p ms ≡ ok r → r.preparation ≡ p
    of_messages [] e = cc
    of_messages (x ∷ ms) e = of_summarized (call (x ∷ ms)) e

-- The call raises and leaves the manager as it was, or leaves the branch with what was collected
-- between the leaf and `to` and with its summary.
abbrev pub Outcome :
    (List Message → Summarized)
    → SessionManager
    → String
    → Stamp
    → Result BranchError (Option TreeEntry × BranchSummaryResult) × SessionManager
    → Type 0
Outcome call m to stamp o =
    ((x : BranchError) × (o ≡ (err x, m)))
    ⊎ ((from : String) × (p : BranchPreparation) × (r : BranchSummaryResult) × (e : Option
          TreeEntry)
        × (m' : SessionManager) × (m.tree.leaf_id ≡ some from)
        × (collect_entries_for_branch_summary m.tree from to ≡ ok p)
        × (generate_branch_summary call p ≡ ok r)
        × (o ≡ (ok (e, r), m'))
        × IsLeft m from to stamp p r e m')

module _ (call : List Message → Summarized) (to : String) (now : ℕ) (stamp : Stamp)
    (m : SessionManager) (s : IsSynced m) (new : lookup stamp.fresh m.tree.entries ≡ none) where
  summary_entry : BranchSummaryResult → SessionManager → TreeEntry
  summary_entry r m1 =
      next_entry m1
        (EntryBody.branch_summary (record {
          summary = r.summary;
          from_entry_id = r.preparation.from_entry_id;
          to_entry_id = r.preparation.to_entry_id;
          details = branch_details r.preparation r.usage;
        }))
        none stamp

  module _ (from : String) (p : BranchPreparation) (r : BranchSummaryResult)
      (collected : collect_entries_for_branch_summary m.tree from to ≡ ok p)
      (generated : generate_branch_summary call p ≡ ok r) where
    abbrev entry_of : Option String → String → String → BranchPreparation → TreeEntry
    entry_of parent a b q = record {
      id = stamp.fresh;
      parent_id = parent;
      body = EntryBody.branch_summary (record {
        summary = r.summary;
        from_entry_id = a;
        to_entry_id = b;
        details = branch_details q r.usage;
      });
      timestamp = stamp.now;
    }

    summary_entry-left_entry :
        (m1 : SessionManager)
        → m1.tree.leaf_id ≡ some to
        → summary_entry r m1 ≡ left_entry p r from to stamp
    unfolding summary_entry
    summary_entry-left_entry m1 leaf =
        let prepared = preparation_of_generate call p r generated in
        let (starts, ends) = ends_of_collect m.tree from to p collected in
        ap
          (λ parent.
            entry_of parent r.preparation.from_entry_id r.preparation.to_entry_id r.preparation)
          leaf
        ∙ ap (λ q. entry_of (some to) q.from_entry_id q.to_entry_id q) prepared
        ∙ ap (λ a. entry_of (some to) a p.to_entry_id p) starts
        ∙ ap (λ b. entry_of (some to) from b p) ends

    -- What `write_summary` comes to, on a manager that has moved to the target.
    abbrev Written :
        SessionManager
        → Result BranchError (Option TreeEntry × BranchSummaryResult) × SessionManager
        → Type 0
    Written m1 o =
        (e : Option TreeEntry) × (m' : SessionManager) × (o ≡ (ok (e, r), m'))
        × IsLeft m from to stamp p r e m'

    write-Written :
        (m1 : SessionManager)
        → IsMoved m (some to) true now m1
        → Written m1 (write_summary r stamp (ok tt, m1))
    unfolding append_branch_summary summary_entry
    write-Written m1 moved = elim (Bool-cases (len r.summary == 0)) [
      | inl empty ↦ (
        none,
        m1,
        ground arith,
        record {
          synced = moved.synced;
          place = inl ((==_iff (len r.summary) 0).0 empty, refl, moved.entries, moved.leaf);
        },
      )
      | inr full ↦
          let e : TreeEntry = summary_entry r m1 in
          let (m2, done, a) =
            append_entry-IsAppended m1 e stamp.later moved.synced
              (ap (λ es. lookup stamp.fresh es) moved.entries ∙ new)
              (next_entry-IsAnswered m1 e.body none stamp moved.synced
                (unfold tool_result_of in refl)) in
          let wrote : append_branch_summary r.summary r.preparation.from_entry_id
                r.preparation.to_entry_id (some (branch_details r.preparation r.usage)) none stamp
                m1
              ≡ (ok e, m2) =
            done in
          let same : e ≡ left_entry p r from to stamp = summary_entry-left_entry m1 moved.leaf in
          (
            some e,
            m2,
            rw full (ap (noted r) wrote),
            record {
              synced = a.synced;
              place = inr (
                ground arith,
                ap some same,
                a.entries
                    ∙ ap (λ es. es ++ (stamp.fresh, e) ∷ []) moved.entries
                    ∙ ap (λ x. m.tree.entries ++ (stamp.fresh, x) ∷ []) same,
                a.leaf,
              );
            },
          )
    ]

  go_on-Outcome :
      (from : String) (p : BranchPreparation) (o : Result BranchError BranchSummaryResult)
      → m.tree.leaf_id ≡ some from
      → collect_entries_for_branch_summary m.tree from to ≡ ok p
      → generate_branch_summary call p ≡ o
      → Outcome call m to stamp (go_on to now stamp o m)
  go_on-Outcome from p (err x) leaf collected generated = inl (x, refl)
  go_on-Outcome from p (ok r) leaf collected generated =
      let (m1, done, moved) =
        navigate_lem m (some to) true now s (target_of_collect m.tree from to p collected) in
      let (e, m', is, left) = write-Written from p r collected generated m1 moved in
      inr (
        from,
        p,
        r,
        e,
        m',
        leaf,
        collected,
        generated,
        ap (λ o. write_summary r stamp o) done ∙ is,
        left,
      )

  prepared-Outcome :
      (o : Result SessionError BranchPreparation) (leaf : String)
      → m.tree.leaf_id ≡ some leaf
      → collect_entries_for_branch_summary m.tree leaf to ≡ o
      → Outcome call m to stamp (summarize_prepared call to now stamp o m)
  prepared-Outcome (err x) leaf at is = inl (BranchError.session x, refl)
  prepared-Outcome (ok p) leaf at is =
      go_on-Outcome leaf p (generate_branch_summary call p) at is refl

  leave-Outcome :
      (leaf : Option String)
      → m.tree.leaf_id ≡ leaf
      → Outcome call m to stamp (leave_leaf call to now stamp leaf m)
  leave-Outcome none at = inl (BranchError.empty_branch, refl)
  leave-Outcome (some leaf) at =
      prepared-Outcome (collect_entries_for_branch_summary m.tree leaf to) leaf at refl

  -- On a manager in step with its store, and with a new id, `summarize_and_navigate_branch` either
  -- raises and leaves the manager as it was, or returns the summary of the entries collected between
  -- the leaf and the target. Where the summary is empty the session ends at the target, with its
  -- entries as they were. Else there is exactly one entry more, at which the session ends: its id is
  -- the new one, its parent the target, and it holds the summary, the old leaf, the target and the
  -- details of the collection. The session stays in step with its store.
  pub summarize_and_navigate_branch-Outcome :
      Outcome call m to stamp (summarize_and_navigate_branch call to now stamp m)
  unfolding summarize_and_navigate_branch
  summarize_and_navigate_branch-Outcome = leave-Outcome m.tree.leaf_id refl
