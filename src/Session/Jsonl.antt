-- ===== src/Session/Jsonl.antt =====
-- src/pi_agent/harness/session/store.py: `decode_jsonl` and `JsonlSessionStore`. A file is none where it
-- does not exist, else the list of its bytes. The locks are not modelled: each method runs alone.
pub mod Lines
pub mod Decode
pub mod Torn
pub mod Refines
use pi_agent_python.Base.{
  ℕ, suc, ◌+◌, Bool, true, false, not, ◌&&◌, ◌||◌, Option, none, some, List, [], ◌∷◌, ◌++◌,
  if◌then◌else◌, ◌==◌,
}
use pi_agent_python.Base.Lists.{length, take, last?, any}
use pi_agent_python.Base.Result.{Result, ok, err, ◌>>=◌, ◌>>◌, raise_if}
use pi_agent_python.Ai.Json.{JsonValue, object, Fields}
use pi_agent_python.Ai.Codec.{CodecError}
use pi_agent_python.Ai.Codec.Read.{Conversions}
use pi_agent_python.Session.Types.{
  SessionHeader, SessionRecord, header, entry, cursor, SessionError, SessionWarning,
}
use pi_agent_python.Session.Store.{SessionLoadResult, validate_records}
use pi_agent_python.Session.Codec.{RecordError, record_to_dict, record_from_dict}

abbrev pub Bytes : Type 0
Bytes = List ℕ

abbrev pub File : Type 0
File = Option Bytes

-- `json.dumps` and `encode`, `decode` and `json.loads` with none where one of them raises, and what
-- Python makes of a value of another type.
pub record Json : Type 0 where
  pub dumps : Fields → Bytes
  pub loads : Bytes → Option JsonValue
  pub conversions : Conversions

abbrev pub is_break : ℕ → Bool
is_break b = b == 10 || b == 13

-- The white space of `bytes.strip`
abbrev pub is_space : ℕ → Bool
is_space b = b == 32 || b == 9 || b == 10 || b == 11 || b == 12 || b == 13

abbrev pub prefix_line : ℕ → List Bytes → List Bytes
prefix_line b [] = (b ∷ []) ∷ []
prefix_line b (l ∷ ls) = (b ∷ l) ∷ ls

abbrev pub starts_newline : Bytes → Bool
starts_newline [] = false
starts_newline (b ∷ bs) = b == 10

-- `data.splitlines(keepends=True)`
unfoldable pub split_keep : Bytes → List Bytes
split_keep [] = []
split_keep (b ∷ bs) =
    let rest = split_keep bs in
    if b == 10 || (b == 13 && not (starts_newline bs)) then (b ∷ []) ∷ rest else prefix_line b rest

abbrev pub strip_step : ℕ → Bytes → Bytes
strip_step b [] = if is_break b then [] else b ∷ []
strip_step b (c ∷ bs) = b ∷ c ∷ bs

-- `raw_line.rstrip(b"\r\n")`
unfoldable pub rstrip_breaks : Bytes → Bytes
rstrip_breaks [] = []
rstrip_breaks (b ∷ bs) = strip_step b (rstrip_breaks bs)

-- `body.strip()` is empty
abbrev pub is_blank : Bytes → Bool
is_blank bs = not (any (λ b. not (is_space b)) bs)

-- `raw_line.endswith((b"\n", b"\r"))`, and the test for the first alone
abbrev pub ends_break : Bytes → Bool
ends_break bs = elim (last? bs) [ none ↦ false | some b ↦ is_break b ]

abbrev pub ends_newline : Bytes → Bool
ends_newline bs = elim (last? bs) [ none ↦ false | some b ↦ b == 10 ]

-- `_encode_record`
unfoldable pub encode_record : Json → SessionRecord → Bytes
unfolding record_to_dict
encode_record j r = j.dumps (record_to_dict r) ++ 10 ∷ []

-- What the `try` leaves: a record, an exception that is caught, or one that is not.
pub data Parsed : Type 0 where
  parsed : SessionRecord → Parsed
  caught : Parsed
  escaped : SessionError → Parsed

abbrev pub classify : Result RecordError SessionRecord → Parsed
classify (ok r) = parsed r
classify (err (RecordError.in_message CodecError.type_error)) =
    escaped (SessionError.not_caught CodecError.type_error)
classify (err (RecordError.in_message CodecError.overflow_error)) =
    escaped (SessionError.not_caught CodecError.overflow_error)
classify (err (RecordError.in_message CodecError.attribute_error)) =
    escaped (SessionError.not_caught CodecError.attribute_error)
classify (err (RecordError.in_message CodecError.uncast)) = escaped SessionError.outside_model
classify (err RecordError.negative_version) = escaped SessionError.outside_model
classify (err _) = caught

abbrev pub parse_value : Conversions → Option JsonValue → Parsed
parse_value c (some (object fs)) = classify (record_from_dict c fs)
parse_value c _ = caught

unfoldable pub parse_body : Json → Bytes → Parsed
unfolding record_from_dict
parse_body j body = parse_value j.conversions (j.loads body)

abbrev pub is_nil : List Bytes → Bool
is_nil [] = true
is_nil (l ∷ ls) = false

abbrev pub loaded_to : ℕ → SessionLoadResult
loaded_to valid = record { records = []; warnings = []; valid_bytes = valid; ignored_tail = [] }

abbrev pub with_record :
    SessionRecord → Result SessionError SessionLoadResult → Result SessionError SessionLoadResult
with_record r (ok l) = ok (record l { records = r ∷ l.records })
with_record r (err x) = err x

-- The loop over the lines, from a line's number, its offset and the bytes that are valid before it.
unfoldable pub decode_lines : Json → List Bytes → ℕ → ℕ → ℕ → Result SessionError SessionLoadResult
unfolding parse_body rstrip_breaks
decode_lines j [] index offset valid = ok (loaded_to valid)
decode_lines j (raw ∷ rest) index offset valid =
    let later = decode_lines j rest (suc index) (offset + length raw) (offset + length raw) in
    if is_blank (rstrip_breaks raw)
    then (if is_nil rest
        then ok (loaded_to (offset + length raw))
        else err (SessionError.blank_record index offset))
    else elim (parse_body j (rstrip_breaks raw)) [
      | parsed r ↦ with_record r later
      | escaped x ↦ err x
      | caught ↦
          if is_nil rest && not (ends_break raw)
          then ok (record {
            records = [];
            warnings = SessionWarning.corrupt_tail index offset ∷ [];
            valid_bytes = valid;
            ignored_tail = raw;
          })
          else err (SessionError.invalid_record index offset)
    ]

unfoldable pub decode_jsonl : Json → Bytes → Result SessionError SessionLoadResult
unfolding decode_lines split_keep
decode_jsonl j data_bytes = decode_lines j (split_keep data_bytes) 1 0 0

-- `JsonlSessionStore.create`
unfoldable pub create : Json → SessionHeader → File → Result SessionError Unit × File
unfolding encode_record
create j h none = (ok tt, some (encode_record j (header h)))
create j h (some bs) = (err SessionError.session_already_exists, some bs)

-- `JsonlSessionStore.load`
unfoldable pub load_file : Json → File → Result SessionError SessionLoadResult
unfolding decode_jsonl validate_records
load_file j none = err SessionError.session_does_not_exist
load_file j (some bs) = do
  loaded ← decode_jsonl j bs
  more ← validate_records loaded.records
  ok (record loaded { warnings = loaded.warnings ++ more })

abbrev pub is_header : SessionRecord → Bool
is_header (header h) = true
is_header (entry e) = false
is_header (cursor c) = false

-- The guards of `append` where the file has bytes.
unfoldable pub check_append : Json → SessionRecord → Bytes → Result SessionError Unit
unfolding decode_jsonl validate_records
check_append j r existing = do
  loaded ← decode_jsonl j existing
  raise_if (not (length loaded.ignored_tail == 0))
      (SessionError.corrupt_final_record loaded.valid_bytes)
  validate_records (loaded.records ++ r ∷ [])
  raise_if (is_header r) SessionError.header_only_first

abbrev pub write_record : Json → SessionRecord → Bytes → Bytes
write_record j r existing =
    if ends_newline existing
    then existing ++ encode_record j r
    else existing ++ 10 ∷ encode_record j r

-- `JsonlSessionStore.append`. Opening with "a+b" makes the file where there is none.
unfoldable pub append_bytes : Json → SessionRecord → Bytes → Result SessionError Unit × File
unfolding encode_record check_append
append_bytes j r [] =
    if is_header r
    then (ok tt, some (encode_record j r))
    else (err SessionError.first_record_must_be_header, some [])
append_bytes j r (b ∷ bs) = elim (check_append j r (b ∷ bs)) [
  | err x ↦ (err x, some (b ∷ bs))
  | ok _ ↦ (ok tt, some (write_record j r (b ∷ bs)))
]

abbrev pub bytes_of : File → Bytes
bytes_of none = []
bytes_of (some bs) = bs

unfoldable pub append_file : Json → SessionRecord → File → Result SessionError Unit × File
unfolding append_bytes
append_file j r f = append_bytes j r (bytes_of f)

-- `JsonlSessionStore.repair_tail`
unfoldable pub repair_tail : Json → File → Result SessionError SessionLoadResult × File
unfolding decode_jsonl
repair_tail j none = (err SessionError.file_not_found, none)
repair_tail j (some bs) = elim (decode_jsonl j bs) [
  | err x ↦ (err x, some bs)
  | ok loaded ↦
      if length loaded.ignored_tail == 0
      then (ok loaded, some bs)
      else (ok loaded, some (take loaded.valid_bytes bs))
]
