-- ===== src/Tests/Codecs.antt =====
-- Messages and records that are written and read again, and a session file of two records.
use pi_agent_python.Base.{
  String, ℕ, zero, suc, ◌<◌, ◌≡◌, refl, Option, none, some, List, [], ◌∷◌, arith, if◌then◌else◌,
  ◌==◌,
}
use pi_agent_python.Base.Lists.{length, take, All}
use pi_agent_python.Base.Result.{Result, ok, err}
use pi_agent_python.Ai.Json.{pos, JsonValue, int, float, str, object, Fields, get_field}
use pi_agent_python.Ai.Codec.{CodecError, message_to_dict}
use pi_agent_python.Ai.Codec.Read.{Conversions, message_from_dict, is_text}
use pi_agent_python.Ai.Codec.Optional.{IsExact}
use pi_agent_python.Ai.Codec.RoundTrip.{message_from_dict-message_to_dict}
use pi_agent_python.Session.Types.{SessionRecord, header, entry}
use pi_agent_python.Session.Store.{append, load}
use pi_agent_python.Session.Codec.{record_to_dict, record_from_dict}
use pi_agent_python.Session.Codec.RoundTrip.{IsWritable, record_from_dict-record_to_dict}
use pi_agent_python.Session.Jsonl.{Json, Bytes, decode_jsonl, repair_tail, append_file, load_file}
use pi_agent_python.Session.Jsonl.Decode.{IsStored, file_of, whole, decode_jsonl-file_of}
use pi_agent_python.Session.Jsonl.Torn.{torn_file, torn_result, repair_tail_torn}
use pi_agent_python.Session.Jsonl.Refines.{stored_as, sized_as, append_file-append, load_file-load}
use pi_agent_python.Tests.Conversation.{answer, head, asked}

abbrev plain_str : JsonValue → String
plain_str (str s) = s
plain_str _ = ""

abbrev plain_int : JsonValue → Result CodecError ℕ
plain_int (int (pos n)) = ok n
plain_int _ = err CodecError.type_error

abbrev plain_float : JsonValue → Result CodecError ℕ
plain_float (float x) = ok x
plain_float _ = err CodecError.type_error

abbrev plain : Conversions
plain = record { str_of = plain_str; int_of = plain_int; float_of = plain_float }

plain-IsExact : IsExact plain
plain-IsExact = record { text = λ s. refl; number = λ n. refl; real = λ x. refl }

message_from_dict-message_to_dict_example :
    message_from_dict plain (message_to_dict answer) ≡ ok answer
message_from_dict-message_to_dict_example =
    message_from_dict-message_to_dict plain plain-IsExact answer

asked-IsWritable : IsWritable (entry asked)
unfolding IsWritable
asked-IsWritable = (refl, tt)

head-IsWritable : IsWritable (header head)
unfolding IsWritable
head-IsWritable = (refl, refl)

record_from_dict-record_to_dict_example :
    record_from_dict plain (record_to_dict (entry asked)) ≡ ok (entry asked)
record_from_dict-record_to_dict_example =
    record_from_dict-record_to_dict plain plain-IsExact (entry asked) asked-IsWritable

-- Two texts of json, and the dictionaries that they stand for.
abbrev head_text : Bytes
head_text = 123 ∷ 104 ∷ 125 ∷ []

abbrev asked_text : Bytes
asked_text = 123 ∷ 101 ∷ 125 ∷ []

abbrev write_text : Fields → Bytes
write_text fs = if is_text (get_field "type" fs) "session" then head_text else asked_text

abbrev read_text : Bytes → Option JsonValue
read_text (a ∷ b ∷ c ∷ []) =
    if b == 104
    then some (object (record_to_dict (header head)))
    else some (object (record_to_dict (entry asked)))
read_text _ = none

abbrev json : Json
json = record { dumps = write_text; loads = read_text; conversions = plain }

torn_text : (a b c n : ℕ) → n < length (a ∷ b ∷ c ∷ []) → read_text (take n (a ∷ b ∷ c ∷ [])) ≡ none
torn_text a b c zero h = refl
torn_text a b c (suc zero) h = refl
torn_text a b c (suc (suc zero)) h = refl
torn_text a b c (suc (suc (suc n))) h = absurd (omega arith)

head-IsStored : IsStored json (header head)
unfolding record_to_dict get_field
head-IsStored = record {
  writable = head-IsWritable;
  text = record {
    clean = (refl, (refl, (refl, tt)));
    after_brace = 104 ∷ 125 ∷ [];
    opens = refl;
    read = refl;
    torn = torn_text 123 104 125;
  };
}

asked-IsStored : IsStored json (entry asked)
unfolding record_to_dict get_field
asked-IsStored = record {
  writable = asked-IsWritable;
  text = record {
    clean = (refl, (refl, (refl, tt)));
    after_brace = 101 ∷ 125 ∷ [];
    opens = refl;
    read = refl;
    torn = torn_text 123 101 125;
  };
}

abbrev two_records : List SessionRecord
two_records = header head ∷ entry asked ∷ []

decode_jsonl-file_of_example :
    decode_jsonl json (file_of json two_records) ≡ ok (whole json plain-IsExact two_records)
decode_jsonl-file_of_example =
    decode_jsonl-file_of json plain-IsExact two_records (head-IsStored, (asked-IsStored, tt))

head_alone : All (IsStored json) (header head ∷ [])
head_alone = (head-IsStored, tt)

two_of_three : 2 < length (json.dumps (record_to_dict (entry asked)))
unfolding record_to_dict get_field
two_of_three = omega arith

repair_tail_torn_example :
    repair_tail json (some (torn_file json (header head ∷ []) (entry asked) 1)) ≡ (
      ok (torn_result json (header head ∷ []) (entry asked) 1),
      some (file_of json (header head ∷ [])),
    )
repair_tail_torn_example =
    repair_tail_torn json plain-IsExact (header head ∷ []) (entry asked) 1 head_alone asked-IsStored
      two_of_three

append_file-append_example :
    append_file json (entry asked) (some (file_of json (header head ∷ [])))
    ≡ stored_as json
        (header head ∷ [])
        (append (record { records = header head ∷ [] }) (entry asked))
append_file-append_example = append_file-append json plain-IsExact head [] (entry asked) head_alone

load_file-load_example :
    load_file json (some (file_of json two_records))
    ≡ sized_as json plain-IsExact two_records (load (record { records = two_records }))
load_file-load_example =
    load_file-load json plain-IsExact two_records (head-IsStored, (asked-IsStored, tt))
