-- ===== src/Compaction/Branch.antt =====
-- src/pi_agent/harness/compaction/branch.py: leaving a branch of the session with a summary of it.
pub mod Left
use Prim.Native.String.{len}
use pi_agent_python.Base.{
  ℕ, String, Bool, true, false, Option, none, some, List, [], ◌∷◌, ◌==◌, if◌then◌else◌,
}
use pi_agent_python.Base.Result.{Result, ok, err, ◌>>=◌, ◌>>◌}
use pi_agent_python.Ai.Json.{JsonValue, null, str, int, object, pos, Fields, end, field}
use pi_agent_python.Ai.Types.{Message, Usage, zero_usage}
use pi_agent_python.Session.Types.{TreeEntry, SessionError}
use pi_agent_python.Session.Tree.{SessionTree, get, common_ancestor, path_to, after_id, messages_of}
use pi_agent_python.Session.Manager.{SessionManager, Stamp, navigate, append_branch_summary}
use pi_agent_python.Compaction.Compact.{Summarized, SummaryResponse, strip}

pub record BranchPreparation : Type 0 where
  pub common_ancestor_id : Option String
  pub from_entry_id : String
  pub to_entry_id : String
  pub entries : List TreeEntry
  pub messages : List Message

pub record BranchSummaryResult : Type 0 where
  pub summary : String
  pub usage : Usage
  pub preparation : BranchPreparation

-- The exceptions: those of the session, that of an empty branch, and what the summarizer raises.
pub data BranchError : Type 0 where
  session : SessionError → BranchError
  empty_branch : BranchError
  summarizer : String → BranchError

-- `source_path[start:]`
abbrev pub entries_after : Option String → List TreeEntry → Result SessionError (List TreeEntry)
entries_after none path = ok path
entries_after (some c) path = elim (after_id c path) [
  | none ↦ err SessionError.stop_iteration
  | some es ↦ ok es
]

unfoldable pub collect_entries_for_branch_summary :
    SessionTree → String → String → Result SessionError BranchPreparation
unfolding get common_ancestor path_to after_id messages_of
collect_entries_for_branch_summary t from to = do
  get t from
  get t to
  common ← common_ancestor t (some from) (some to)
  path ← path_to t (some from)
  entries ← entries_after common path.entries
  ok (record {
    common_ancestor_id = common;
    from_entry_id = from;
    to_entry_id = to;
    entries = entries;
    messages = messages_of entries;
  })

abbrev pub summarized_as : BranchPreparation → Summarized → Result BranchError BranchSummaryResult
summarized_as p (Summarized.response r) =
    ok (record { summary = strip r.text; usage = r.usage; preparation = p })
summarized_as p (Summarized.text t) =
    ok (record { summary = strip t; usage = zero_usage; preparation = p })
summarized_as p (Summarized.raised x) = err (BranchError.summarizer x)

-- `call` is the summarizer behind `serialize_conversation`.
abbrev pub summary_of :
    (List Message → Summarized)
    → BranchPreparation
    → List Message
    → Result BranchError BranchSummaryResult
summary_of call p [] = ok (record { summary = ""; usage = zero_usage; preparation = p })
summary_of call p (m ∷ ms) = summarized_as p (call (m ∷ ms))

unfoldable pub generate_branch_summary :
    (List Message → Summarized) → BranchPreparation → Result BranchError BranchSummaryResult
unfolding strip
generate_branch_summary call p = summary_of call p p.messages

abbrev pub text_or_null : Option String → JsonValue
text_or_null none = null
text_or_null (some s) = str s

abbrev pub branch_details : BranchPreparation → Usage → Fields
branch_details p u = field "commonAncestorId" (text_or_null p.common_ancestor_id) (
    field "usage"
      (object (
        field "input" (int (pos u.input)) (
          field "output" (int (pos u.output))
            (field "totalTokens" (int (pos u.total_tokens)) end))))
      end)

abbrev pub noted :
    BranchSummaryResult
    → Result SessionError TreeEntry × SessionManager
    → Result BranchError (Option TreeEntry × BranchSummaryResult) × SessionManager
noted r (ok e, m) = (ok (some e, r), m)
noted r (err x, m) = (err (BranchError.session x), m)

-- `if not result.summary: ...` and what follows, after `manager.navigate`
abbrev pub write_summary :
    BranchSummaryResult
    → Stamp
    → Result SessionError Unit × SessionManager
    → Result BranchError (Option TreeEntry × BranchSummaryResult) × SessionManager
write_summary r stamp (err x, m) = (err (BranchError.session x), m)
write_summary r stamp (ok _, m) =
    if len r.summary == 0
    then (ok (none, r), m)
    else noted r (
        append_branch_summary r.summary r.preparation.from_entry_id r.preparation.to_entry_id
          (some (branch_details r.preparation r.usage)) none stamp m)

abbrev pub go_on :
    String
    → ℕ
    → Stamp
    → Result BranchError BranchSummaryResult
    → SessionManager
    → Result BranchError (Option TreeEntry × BranchSummaryResult) × SessionManager
go_on to now stamp (err x) m = (err x, m)
go_on to now stamp (ok r) m = write_summary r stamp (navigate (some to) true now m)

abbrev pub summarize_prepared :
    (List Message → Summarized)
    → String
    → ℕ
    → Stamp
    → Result SessionError BranchPreparation
    → SessionManager
    → Result BranchError (Option TreeEntry × BranchSummaryResult) × SessionManager
summarize_prepared call to now stamp (err x) m = (err (BranchError.session x), m)
summarize_prepared call to now stamp (ok p) m =
    go_on to now stamp (generate_branch_summary call p) m

abbrev pub leave_leaf :
    (List Message → Summarized)
    → String
    → ℕ
    → Stamp
    → Option String
    → SessionManager
    → Result BranchError (Option TreeEntry × BranchSummaryResult) × SessionManager
leave_leaf call to now stamp none m = (err BranchError.empty_branch, m)
leave_leaf call to now stamp (some leaf) m =
    summarize_prepared call to now stamp (collect_entries_for_branch_summary m.tree leaf to) m

unfoldable pub summarize_and_navigate_branch :
    (List Message → Summarized)
    → String
    → ℕ
    → Stamp
    → SessionManager
    → Result BranchError (Option TreeEntry × BranchSummaryResult) × SessionManager
unfolding collect_entries_for_branch_summary generate_branch_summary navigate append_branch_summary
summarize_and_navigate_branch call to now stamp m = leave_leaf call to now stamp m.tree.leaf_id m
