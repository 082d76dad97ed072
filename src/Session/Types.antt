-- ===== src/Session/Types.antt =====
-- src/pi_agent/harness/session/types.py: the records of a session file.
-- The seven entry classes share `id`, `parent_id` and `timestamp`; what differs is `EntryBody`.
use pi_agent_python.Base.{ℕ, String, Option}
use pi_agent_python.Ai.Json.{Fields}
use pi_agent_python.Ai.Types.{Message}
use pi_agent_python.Ai.Codec.{CodecError}

pub record SessionHeader : Type 0 where
  pub id : String
  pub cwd : String
  pub version : ℕ
  pub timestamp : ℕ
  pub name : Option String
  pub parent_session_id : Option String

pub record Compaction : Type 0 where
  pub summary : String
  pub first_kept_entry_id : Option String
  pub tokens_before : ℕ
  pub tokens_after : ℕ
  pub details : Fields

pub record BranchSummary : Type 0 where
  pub summary : String
  pub from_entry_id : String
  pub to_entry_id : String
  pub details : Fields

pub data EntryBody : Type 0 where
  message : Message → EntryBody
  model_change : String → String → EntryBody
  thinking_level_change : String → EntryBody
  compaction : Compaction → EntryBody
  branch_summary : BranchSummary → EntryBody
  custom : String → Fields → EntryBody
  label : String → Option String → EntryBody

pub record TreeEntry : Type 0 where
  pub id : String
  pub parent_id : Option String
  pub body : EntryBody
  pub timestamp : ℕ

pub record CursorEntry : Type 0 where
  pub leaf_id : Option String
  pub timestamp : ℕ

pub data SessionRecord : Type 0 where
  header : SessionHeader → SessionRecord
  entry : TreeEntry → SessionRecord
  cursor : CursorEntry → SessionRecord

-- One constructor for each `raise` of store.py, tree.py, manager.py and context.py.
pub data SessionError : Type 0 where
  session_is_empty : SessionError
  first_record_must_be_header : SessionError
  unsupported_schema_version : ℕ → SessionError
  duplicate_session_header : SessionError
  duplicate_entry_id : String → SessionError
  unknown_parent : String → Option String → SessionError
  cursor_references_unknown_entry : String → SessionError
  no_ancestor_tool_call : String → String → SessionError
  session_header_is_missing : SessionError
  unknown_entry : String → SessionError
  stop_iteration : SessionError
  key_error : String → SessionError
  cycle_detected : String → SessionError
  cannot_label_unknown_target : String → SessionError
  first_kept_not_on_branch : String → SessionError
  -- Of the file: the line and the offset in bytes.
  blank_record : ℕ → ℕ → SessionError
  invalid_record : ℕ → ℕ → SessionError
  session_already_exists : SessionError
  session_does_not_exist : SessionError
  file_not_found : SessionError
  corrupt_final_record : ℕ → SessionError
  header_only_first : SessionError
  -- What `message_from_dict` raises that is no `ValueError`.
  not_caught : CodecError → SessionError
  -- No exception of the source: a record that the types of the model cannot hold.
  outside_model : SessionError
  -- No exception of the source: the loop of the model has used up its fuel.
  out_of_fuel : SessionError

pub data SessionWarning : Type 0 where
  corrupt_tail : ℕ → ℕ → SessionWarning
  unresolved_tool_call : String → SessionWarning
