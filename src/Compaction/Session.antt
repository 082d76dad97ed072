-- ===== src/Compaction/Session.antt =====
-- `compact_session` of src/pi_agent/harness/compaction/compaction.py: the compaction of the active
-- branch of a session, written to it as an entry.
pub mod Written
use pi_agent_python.Base.{ℕ, String, Bool, Option, none, some, List, [], ◌∷◌}
use pi_agent_python.Base.Lists.{get_elem?}
use pi_agent_python.Base.Result.{Result, ok, err}
use pi_agent_python.Ai.Json.{
  JsonValue, bool, int, float, str, array, object, pos, Items, nil, cons, Fields, end, field,
}
use pi_agent_python.Ai.Types.{Message, Usage}
use pi_agent_python.Session.Types.{TreeEntry, EntryBody, SessionError}
use pi_agent_python.Session.Tree.{message_of}
use pi_agent_python.Session.Manager.{SessionManager, Stamp, active_entries, append_compaction}
use pi_agent_python.Compaction.Tokens.{JsonDumps}
use pi_agent_python.Compaction.Prepare.{Texts, CompactionError, CompactionSettings}
use pi_agent_python.Compaction.Compact.{Callbacks, CompactionResult, compact}

-- The exceptions of the two parts.
pub data CompactSessionError : Type 0 where
  session : SessionError → CompactSessionError
  compaction : CompactionError → CompactSessionError

-- `message_entries`, each with its message
unfoldable pub message_entries : List TreeEntry → List (TreeEntry × Message)
message_entries [] = []
message_entries (e ∷ es) = elim (message_of e.body) [
  | none ↦ message_entries es
  | some m ↦ (e, m) ∷ message_entries es
]

abbrev pub messages_in : List (TreeEntry × Message) → List Message
messages_in [] = []
messages_in ((e, m) ∷ es) = m ∷ messages_in es

abbrev pub summary_or : EntryBody → Option String → Option String
summary_or (EntryBody.compaction c) other = some c.summary
summary_or _ other = other

-- The summary of `previous_entry`, the last compaction of the branch.
unfoldable pub previous_summary : Option String → List TreeEntry → Option String
previous_summary found [] = found
previous_summary found (e ∷ es) = previous_summary (summary_or e.body found) es

-- `message_entries[result.cut_index].id if result.cut_index < len(message_entries) else None`
abbrev pub first_kept : List (TreeEntry × Message) → ℕ → Option String
first_kept es cut_index = elim (get_elem? es cut_index) [ none ↦ none | some (e, m) ↦ some e.id ]

-- `_usage_dict`
abbrev pub usage_dict : Usage → Fields
usage_dict u = field "input" (int (pos u.input)) (
    field "output" (int (pos u.output)) (
      field "cacheRead" (int (pos u.cache_read)) (
        field "cacheWrite" (int (pos u.cache_write)) (
          field "totalTokens" (int (pos u.total_tokens)) (
            field "cost"
              (object (
                field "input" (float u.cost.input) (
                  field "output" (float u.cost.output) (
                    field "cacheRead" (float u.cost.cache_read) (
                      field "cacheWrite" (float u.cost.cache_write)
                        (field "total" (float u.cost.total) end))))))
              end)))))

abbrev pub items_of : List String → Items
items_of [] = nil
items_of (s ∷ ss) = cons (str s) (items_of ss)

abbrev pub details_of : CompactionResult → Fields
details_of r = field "splitTurn" (bool r.split_turn) (
    field "attempts" (int (pos r.attempts)) (
      field "usage" (object (usage_dict r.usage)) (
        field "fileOperations"
          (object (
            field "read" (array (items_of r.file_operations.read))
              (field "modified" (array (items_of r.file_operations.modified)) end)))
          end)))

abbrev pub written :
    CompactionResult
    → Result SessionError TreeEntry × SessionManager
    → Result CompactSessionError (TreeEntry × CompactionResult) × SessionManager
written r (ok e, m) = (ok (e, r), m)
written r (err x, m) = (err (session x), m)

module _ (dumps : JsonDumps) (texts : Texts) (c : Callbacks) where
  abbrev pub write_compaction :
      List (TreeEntry × Message)
      → Stamp
      → Result CompactionError CompactionResult
      → SessionManager
      → Result CompactSessionError (TreeEntry × CompactionResult) × SessionManager
  write_compaction es stamp (err x) m = (err (compaction x), m)
  write_compaction es stamp (ok r) m = written r (
      append_compaction r.summary (first_kept es r.cut_index) r.tokens_before r.tokens_after
        (some (details_of r)) none stamp m)

  abbrev pub compact_entries :
      CompactionSettings
      → Bool
      → ℕ
      → Stamp
      → Result SessionError (List TreeEntry)
      → SessionManager
      → Result CompactSessionError (TreeEntry × CompactionResult) × SessionManager
  compact_entries s force now stamp (err x) m = (err (session x), m)
  compact_entries s force now stamp (ok entries) m =
      write_compaction (message_entries entries) stamp
        (compact dumps texts c (messages_in (message_entries entries)) s
          (previous_summary none entries) force now)
        m

  unfoldable pub compact_session :
      CompactionSettings
      → Bool
      → ℕ
      → Stamp
      → SessionManager
      → Result CompactSessionError (TreeEntry × CompactionResult) × SessionManager
  unfolding active_entries message_entries previous_summary compact append_compaction
  compact_session s force now stamp m = compact_entries s force now stamp (active_entries m) m
