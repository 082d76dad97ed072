-- ===== src/Session/Codec.antt =====
-- src/pi_agent/harness/session/codec.py: the dictionaries that the records of a session are written as.
pub mod RoundTrip
use Prim.Native.String.{len}
use pi_agent_python.Base.{
  ℕ, String, Bool, true, false, Option, none, some, if◌then◌else◌, ◌==◌, beq, string_eq,
}
use pi_agent_python.Base.Result.{Result, ok, err, ◌>>=◌}
use pi_agent_python.Ai.Json.{
  pos, negsuc, JsonValue, null, int, str, object, Fields, end, field, get_field,
}
use pi_agent_python.Ai.Types.{Message}
use pi_agent_python.Ai.Codec.{CodecError, text_field, message_to_dict}
use pi_agent_python.Ai.Codec.Read.{Conversions, is_text, str_or, message_from_dict}
use pi_agent_python.Session.Types.{
  SessionHeader, Compaction, BranchSummary, EntryBody, TreeEntry, CursorEntry, SessionRecord,
  header, entry, cursor,
}

-- `SessionCodecError`, one constructor for each message, and what `message_from_dict` raises.
pub data RecordError : Type 0 where
  not_non_empty_string : String → RecordError
  not_string_or_null : String → RecordError
  bad_timestamp : RecordError
  bad_version : RecordError
  not_an_object : String → RecordError
  bad_token_counts : RecordError
  unknown_record_type : RecordError
  in_message : CodecError → RecordError
  -- No exception of the source: a version below 0, which the record of the model cannot hold.
  negative_version : RecordError

-- A value that may be `None`, which is written as null.
abbrev pub or_null : Option String → JsonValue
or_null none = null
or_null (some s) = str s

abbrev pub header_to_dict : SessionHeader → Fields
header_to_dict h = field "type" (str "session") (
    field "id" (str h.id) (
      field "version" (int (pos h.version)) (
        field "timestamp" (int (pos h.timestamp)) (
          field "cwd" (str h.cwd)
            (text_field "name" h.name (text_field "parentSessionId" h.parent_session_id end))))))

-- The `type` of an entry, and the keys that follow its `base`.
abbrev pub type_of : EntryBody → String
type_of (EntryBody.message m) = "message"
type_of (EntryBody.model_change p i) = "model_change"
type_of (EntryBody.thinking_level_change l) = "thinking_level_change"
type_of (EntryBody.compaction c) = "compaction"
type_of (EntryBody.branch_summary b) = "branch_summary"
type_of (EntryBody.custom t d) = "custom"
type_of (EntryBody.label t l) = "label"

unfoldable pub body_to_dict : EntryBody → Fields
unfolding message_to_dict
body_to_dict (EntryBody.message m) = field "message" (object (message_to_dict m)) end
body_to_dict (EntryBody.model_change p i) = field "provider" (str p) (field "modelId" (str i) end)
body_to_dict (EntryBody.thinking_level_change l) = field "thinkingLevel" (str l) end
body_to_dict (EntryBody.compaction c) = field "summary" (str c.summary) (
    field "firstKeptEntryId" (or_null c.first_kept_entry_id) (
      field "tokensBefore" (int (pos c.tokens_before))
        (field "tokensAfter" (int (pos c.tokens_after)) (field "details" (object c.details) end))))
body_to_dict (EntryBody.branch_summary b) = field "summary" (str b.summary) (
    field "fromEntryId" (str b.from_entry_id)
      (field "toEntryId" (str b.to_entry_id) (field "details" (object b.details) end)))
body_to_dict (EntryBody.custom t d) = field "customType" (str t) (field "data" (object d) end)
body_to_dict (EntryBody.label t l) = field "targetId" (str t) (field "label" (or_null l) end)

unfoldable pub record_to_dict : SessionRecord → Fields
unfolding body_to_dict
record_to_dict (header h) = header_to_dict h
record_to_dict (cursor c) =
    field "type" (str "cursor")
      (field "leafId" (or_null c.leaf_id) (field "timestamp" (int (pos c.timestamp)) end))
record_to_dict (entry e) = field "type" (str (type_of e.body)) (
    field "id" (str e.id) (
      field "parentId" (or_null e.parent_id)
        (field "timestamp" (int (pos e.timestamp)) (body_to_dict e.body))))

abbrev pub non_empty : String → String → Result RecordError String
non_empty key s = if len s == 0 then err (RecordError.not_non_empty_string key) else ok s

abbrev pub string_at : String → Option JsonValue → Result RecordError String
string_at key (some (str s)) = non_empty key s
string_at key _ = err (RecordError.not_non_empty_string key)

-- `_required_string`
abbrev pub required_string : Fields → String → Result RecordError String
required_string value key = string_at key (get_field key value)

abbrev pub optional_at : String → Option JsonValue → Result RecordError (Option String)
optional_at key none = ok none
optional_at key (some null) = ok none
optional_at key (some (str s)) = ok (some s)
optional_at key (some _) = err (RecordError.not_string_or_null key)

-- `_optional_string`
abbrev pub optional_string : Fields → String → Result RecordError (Option String)
optional_string value key = optional_at key (get_field key value)

-- A number that is neither a bool nor negative, 0 where the key is missing.
abbrev pub count_at : RecordError → Option JsonValue → Result RecordError ℕ
count_at x none = ok 0
count_at x (some (int (pos n))) = ok n
count_at x (some _) = err x

-- `_timestamp`
abbrev pub timestamp_of : Fields → Result RecordError ℕ
timestamp_of value = count_at RecordError.bad_timestamp (get_field "timestamp" value)

abbrev pub details_at : String → Option JsonValue → Result RecordError Fields
details_at key none = ok end
details_at key (some (object fs)) = ok fs
details_at key (some _) = err (RecordError.not_an_object key)

-- `_details`
abbrev pub details_of : Fields → String → Result RecordError Fields
details_of value key = details_at key (get_field key value)

abbrev pub version_at : Option JsonValue → Result RecordError ℕ
version_at none = ok 1
version_at (some (int (pos n))) = ok n
version_at (some (int (negsuc n))) = err RecordError.negative_version
version_at (some _) = err RecordError.bad_version

abbrev pub lift_error : Result CodecError Message → Result RecordError Message
lift_error (ok m) = ok m
lift_error (err x) = err (RecordError.in_message x)

module _ (c : Conversions) where
  abbrev pub message_at : Option JsonValue → Result RecordError Message
  message_at (some (object fs)) = lift_error (message_from_dict c fs)
  message_at _ = err (RecordError.not_an_object "message")

  abbrev pub header_from : Fields → Result RecordError SessionRecord
  header_from value = do
    version ← version_at (get_field "version" value)
    id ← required_string value "id"
    cwd ← required_string value "cwd"
    timestamp ← timestamp_of value
    name ← optional_string value "name"
    parent ← optional_string value "parentSessionId"
    ok (
        header (record {
          id = id;
          cwd = cwd;
          version = version;
          timestamp = timestamp;
          name = name;
          parent_session_id = parent;
        }))

  abbrev pub compaction_from : Fields → Result RecordError EntryBody
  compaction_from value = do
    before ← count_at RecordError.bad_token_counts (get_field "tokensBefore" value)
    after ← count_at RecordError.bad_token_counts (get_field "tokensAfter" value)
    first_kept ← optional_string value "firstKeptEntryId"
    details ← details_of value "details"
    ok (
        EntryBody.compaction (record {
          summary = str_or c (get_field "summary" value);
          first_kept_entry_id = first_kept;
          tokens_before = before;
          tokens_after = after;
          details = details;
        }))

  abbrev pub branch_summary_from : Fields → Result RecordError EntryBody
  branch_summary_from value = do
    from ← required_string value "fromEntryId"
    to ← required_string value "toEntryId"
    details ← details_of value "details"
    ok (
        EntryBody.branch_summary (record {
          summary = str_or c (get_field "summary" value);
          from_entry_id = from;
          to_entry_id = to;
          details = details;
        }))

  -- What follows the common keys, by the type of the entry.
  unfoldable pub body_from_dict : Option JsonValue → Fields → Result RecordError EntryBody
  unfolding message_from_dict get_field
  body_from_dict type value =
      if is_text type "message"
      then (message_at (get_field "message" value) >>= λ m. ok (EntryBody.message m))
      else if is_text type "model_change"
      then (do
        provider ← required_string value "provider"
        model_id ← required_string value "modelId"
        ok (EntryBody.model_change provider model_id))
      else if is_text type "thinking_level_change"
      then (do
        level ← required_string value "thinkingLevel"
        ok (EntryBody.thinking_level_change level))
      else if is_text type "compaction"
      then compaction_from value
      else if is_text type "branch_summary"
      then branch_summary_from value
      else if is_text type "custom"
      then (do
        custom_type ← required_string value "customType"
        payload ← details_of value "data"
        ok (EntryBody.custom custom_type payload))
      else if is_text type "label"
      then (do
        target ← required_string value "targetId"
        text ← optional_string value "label"
        ok (EntryBody.label target text))
      else err RecordError.unknown_record_type

  abbrev pub cursor_from : Fields → Result RecordError SessionRecord
  cursor_from value = do
    leaf_id ← optional_string value "leafId"
    timestamp ← timestamp_of value
    ok (cursor (record { leaf_id = leaf_id; timestamp = timestamp }))

  abbrev pub entry_from : Fields → Result RecordError SessionRecord
  entry_from value = do
    id ← required_string value "id"
    parent_id ← optional_string value "parentId"
    timestamp ← timestamp_of value
    body ← body_from_dict (get_field "type" value) value
    ok (entry (record { id = id; parent_id = parent_id; body = body; timestamp = timestamp }))

  unfoldable pub record_from_dict : Fields → Result RecordError SessionRecord
  unfolding body_from_dict get_field
  record_from_dict value =
      let type = get_field "type" value in
      if is_text type "session"
      then header_from value
      else if is_text type "cursor"
      then cursor_from value
      else entry_from value
