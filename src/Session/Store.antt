-- ===== src/Session/Store.antt =====
-- src/pi_agent/harness/session/store.py: `validate_records` and the store in memory.
-- The walk to the ancestors takes fuel; `Session/Valid/Answers.antt` is about its being enough.
use pi_agent_python.Base.{
  ℕ, zero, suc, String, Bool, true, false, not, Option, none, some, List, [], ◌∷◌, ◌++◌,
  if◌then◌else◌, ◌==◌, beq, string_eq,
}
use pi_agent_python.Base.Lists.{length, any, contains}
use pi_agent_python.Base.Dict.{Dict, lookup, insert, has_key, values}
use pi_agent_python.Base.Result.{Result, ok, err, ◌>>=◌, ◌>>◌, raise_if}
use pi_agent_python.Ai.Types.{Message, ToolCall, ToolResultMessage, AssistantMessage, tool_calls}
use pi_agent_python.Session.Types.{
  TreeEntry, EntryBody, CursorEntry, SessionRecord, header, entry, cursor, SessionError,
  SessionWarning,
}

abbrev pub Entries : Type 0
Entries = Dict String TreeEntry

-- `parent_id is not None and parent_id not in entries`
abbrev pub dangling : Option String → Entries → Bool
dangling none es = false
dangling (some p) es = not (has_key p es)

-- The loop over `records[1:]`.
unfoldable pub scan :
    List SessionRecord
    → Entries
    → Option CursorEntry
    → Result SessionError (Entries × Option CursorEntry)
unfolding lookup
scan [] es c = ok (es, c)
scan (header h ∷ rs) es c = err SessionError.duplicate_session_header
scan (cursor d ∷ rs) es c = scan rs es (some d)
scan (entry e ∷ rs) es c =
    let rest = scan rs (insert e.id e es) c in
    if has_key e.id es
    then err (SessionError.duplicate_entry_id e.id)
    else if dangling e.parent_id es
    then err (SessionError.unknown_parent e.id e.parent_id)
    else rest

-- The assistant message of an entry, and the result of a tool in one.
unfoldable pub assistant_of : EntryBody → Option AssistantMessage
assistant_of (EntryBody.message (Message.assistant a)) = some a
assistant_of _ = none

unfoldable pub tool_result_of : EntryBody → Option ToolResultMessage
tool_result_of (EntryBody.message (Message.tool_result t)) = some t
tool_result_of _ = none

-- `any(isinstance(block, ToolCall) and block.id == call_id for block in content)`
unfoldable pub makes_call : String → TreeEntry → Bool
unfolding assistant_of tool_calls
makes_call call_id e = elim (assistant_of e.body) [
  | none ↦ false
  | some a ↦ any (λ b. beq b.id call_id) (tool_calls a.content)
]

-- The `while ancestor_id is not None` loop.
unfoldable pub find_call : ℕ → Entries → String → Option String → Result SessionError Bool
find_call zero es call_id p = err SessionError.out_of_fuel
find_call (suc fuel) es call_id none = ok false
find_call (suc fuel) es call_id (some p) = elim (lookup p es) [
  | none ↦ err (SessionError.key_error p)
  | some a ↦ elim (makes_call call_id a) [
    | true ↦ ok true
    | false ↦ find_call fuel es call_id a.parent_id
  ]
]

-- The body of the second loop, at the tool result of an entry.
unfoldable pub check_answer :
    Entries → TreeEntry → Option ToolResultMessage → Result SessionError Unit
unfolding find_call
check_answer es e none = ok tt
check_answer es e (some t) = do
  matched ← find_call (suc (length es)) es t.tool_call_id e.parent_id
  raise_if (not matched) (SessionError.no_ancestor_tool_call e.id t.tool_call_id)

unfoldable pub check_result : Entries → TreeEntry → Result SessionError Unit
unfolding tool_result_of check_answer
check_result es e = check_answer es e (tool_result_of e.body)

-- The second loop, over `entries.values()`.
unfoldable pub check_results : Entries → List TreeEntry → Result SessionError Unit
unfolding check_result
check_results es [] = ok tt
check_results es (e ∷ rest) = do check_result es e; check_results es rest

-- The set comprehension `resolved_ids`.
unfoldable pub resolved_ids : List TreeEntry → List String
unfolding tool_result_of
resolved_ids [] = []
resolved_ids (e ∷ es) = elim (tool_result_of e.body) [
  | none ↦ resolved_ids es
  | some t ↦ t.tool_call_id ∷ resolved_ids es
]

unfoldable pub unresolved : List String → List ToolCall → List SessionWarning
unfolding contains
unresolved ids [] = []
unresolved ids (b ∷ bs) =
    let rest = unresolved ids bs in
    if contains ids b.id then rest else SessionWarning.unresolved_tool_call b.id ∷ rest

-- The third loop.
unfoldable pub unresolved_calls : List String → List TreeEntry → List SessionWarning
unfolding assistant_of unresolved tool_calls
unresolved_calls ids [] = []
unresolved_calls ids (e ∷ es) = elim (assistant_of e.body) [
  | none ↦ unresolved_calls ids es
  | some a ↦ unresolved ids (tool_calls a.content) ++ unresolved_calls ids es
]

unfoldable pub check_selected : Entries → Option String → Result SessionError Unit
unfolding lookup
check_selected es none = ok tt
check_selected es (some l) =
    raise_if (not (has_key l es)) (SessionError.cursor_references_unknown_entry l)

-- `cursor is not None and cursor.leaf_id is not None and cursor.leaf_id not in entries`
unfoldable pub check_cursor : Entries → Option CursorEntry → Result SessionError Unit
unfolding check_selected
check_cursor es none = ok tt
check_cursor es (some c) = check_selected es c.leaf_id

-- All that follows the header.
unfoldable pub validate_body : List SessionRecord → Result SessionError (List SessionWarning)
unfolding scan check_cursor check_results resolved_ids unresolved_calls
validate_body rs = do
  (es, c) ← scan rs [] none
  check_cursor es c
  check_results es (values es)
  ok (unresolved_calls (resolved_ids (values es)) (values es))

unfoldable pub validate_records : List SessionRecord → Result SessionError (List SessionWarning)
unfolding validate_body
validate_records [] = err SessionError.session_is_empty
validate_records (entry e ∷ rs) = err SessionError.first_record_must_be_header
validate_records (cursor c ∷ rs) = err SessionError.first_record_must_be_header
validate_records (header h ∷ rs) = do
  raise_if (not (h.version == 1)) (SessionError.unsupported_schema_version h.version)
  validate_body rs

pub record SessionLoadResult : Type 0 where
  pub records : List SessionRecord
  pub warnings : List SessionWarning
  pub valid_bytes : ℕ
  pub ignored_tail : List ℕ

-- `class InMemorySessionStore`
pub record InMemorySessionStore : Type 0 where
  pub records : List SessionRecord

-- `__init__`
unfoldable pub new_store : List SessionRecord → Result SessionError InMemorySessionStore
unfolding validate_records
new_store [] = ok (record { records = [] })
new_store (r ∷ rs) = do validate_records (r ∷ rs); ok (record { records = r ∷ rs })

unfoldable pub load : InMemorySessionStore → Result SessionError SessionLoadResult
unfolding validate_records
load s = do
  warnings ← validate_records s.records
  ok (record { records = s.records; warnings = warnings; valid_bytes = 0; ignored_tail = [] })

-- A raise leaves `self.records` as it was: the result is the new store or the exception alone.
unfoldable pub append :
    InMemorySessionStore → SessionRecord → Result SessionError InMemorySessionStore
unfolding validate_records
append s r = do
  validate_records (s.records ++ r ∷ [])
  ok (record { records = s.records ++ r ∷ [] })
