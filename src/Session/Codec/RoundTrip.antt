-- ===== src/Session/Codec/RoundTrip.antt =====
-- Writing and reading again the records of src/pi_agent/harness/session/codec.py.
use Prim.Native.String.{len}
use pi_agent_python.Base.{
  String, ◌≡◌, refl, ap, ◌∙◌, false, Option, none, some, ◌==◌, arith, beq, beq_refl, string_eq,
}
use pi_agent_python.Base.Result.{ok}
use pi_agent_python.Ai.Json.{JsonValue, pos, int, str, Fields, end, field, get_field}
use pi_agent_python.Ai.Codec.{text_field}
use pi_agent_python.Ai.Codec.Read.{Conversions}
use pi_agent_python.Ai.Codec.Optional.{IsExact, skip_text}
use pi_agent_python.Ai.Codec.RoundTrip.{message_from_dict-message_to_dict}
use pi_agent_python.Session.Types.{EntryBody, SessionRecord, header, entry, cursor}
use pi_agent_python.Session.Codec.{
  or_null, record_to_dict, body_to_dict, type_of, optional_at, body_from_dict, record_from_dict,
}

-- The texts that `_required_string` will ask for are not empty.
abbrev pub IsFilled : String → Type 0
IsFilled s = (len s == 0) ≡ false

unfoldable pub IsWritableBody : EntryBody → Type 0
IsWritableBody (EntryBody.message m) = Unit
IsWritableBody (EntryBody.model_change p i) = IsFilled p × IsFilled i
IsWritableBody (EntryBody.thinking_level_change l) = IsFilled l
IsWritableBody (EntryBody.compaction c) = Unit
IsWritableBody (EntryBody.branch_summary b) = IsFilled b.from_entry_id × IsFilled b.to_entry_id
IsWritableBody (EntryBody.custom t d) = IsFilled t
IsWritableBody (EntryBody.label t l) = IsFilled t

unfoldable pub IsWritable : SessionRecord → Type 0
unfolding IsWritableBody
IsWritable (header h) = IsFilled h.id × IsFilled h.cwd
IsWritable (cursor c) = Unit
IsWritable (entry e) = IsFilled e.id × IsWritableBody e.body

optional_at-or_null : (key : String) (o : Option String) → optional_at key (some (or_null o)) ≡ ok o
optional_at-or_null key none = refl
optional_at-or_null key (some s) = refl

optional_at-text_field :
    (k : String) (o : Option String) (rest : Fields)
    → get_field k rest ≡ none
    → optional_at k (get_field k (text_field k o rest)) ≡ ok o
unfolding get_field
optional_at-text_field k none rest h = ground arith
optional_at-text_field k (some s) rest h = ground (arith, beq_refl k)

type_of_entry :
    (b : EntryBody) → (beq (type_of b) "session" ≡ false) × (beq (type_of b) "cursor" ≡ false)
type_of_entry (EntryBody.message m) = (refl, refl)
type_of_entry (EntryBody.model_change a i) = (refl, refl)
type_of_entry (EntryBody.thinking_level_change l) = (refl, refl)
type_of_entry (EntryBody.compaction c) = (refl, refl)
type_of_entry (EntryBody.branch_summary b) = (refl, refl)
type_of_entry (EntryBody.custom t d) = (refl, refl)
type_of_entry (EntryBody.label t l) = (refl, refl)

-- The common part of the dictionaries of all entries.
abbrev with_base : JsonValue → JsonValue → JsonValue → JsonValue → Fields → Fields
with_base t i p n fs = field "type" t (field "id" i (field "parentId" p (field "timestamp" n fs)))

module _ (c : Conversions) (x : IsExact c) where
  body_round :
      (i p n : JsonValue) (b : EntryBody)
      → IsWritableBody b
      → body_from_dict c
          (some (str (type_of b)))
          (with_base (str (type_of b)) i p n (body_to_dict b))
        ≡ ok b
  unfolding body_from_dict body_to_dict IsWritableBody
  body_round i p n (EntryBody.message m) w = rw (message_from_dict-message_to_dict c x m) refl
  body_round i p n (EntryBody.model_change a b) w = rw (w.0) (rw (w.1) refl)
  body_round i p n (EntryBody.thinking_level_change l) w = rw w refl
  body_round i p n (EntryBody.compaction b) w =
      rw (optional_at-or_null "firstKeptEntryId" b.first_kept_entry_id, x.text b.summary) refl
  body_round i p n (EntryBody.branch_summary b) w = rw (w.0) (rw (w.1) (rw (x.text b.summary) refl))
  body_round i p n (EntryBody.custom t d) w = rw w refl
  body_round i p n (EntryBody.label t l) w = rw w (rw (optional_at-or_null "label" l) refl)

  -- Where `str`, `int` and `float` leave texts and numbers as they are, a record whose required texts
  -- are not empty is read back, from the dictionary it is written as, as it was.
  pub record_from_dict-record_to_dict :
      (r : SessionRecord) → IsWritable r → record_from_dict c (record_to_dict r) ≡ ok r
  unfolding record_from_dict record_to_dict IsWritable get_field
  record_from_dict-record_to_dict (header h) w = rw (w.0) (
      rw (w.1) (
        rw
          (optional_at-text_field "name" h.name
            (text_field "parentSessionId" h.parent_session_id end)
            (skip_text "parentSessionId" end "name" refl h.parent_session_id))
          (rw
            (ap (optional_at "parentSessionId") (
                skip_text "name" (text_field "parentSessionId" h.parent_session_id end)
                  "parentSessionId" refl h.name)
              ∙ optional_at-text_field "parentSessionId" h.parent_session_id end refl)
            refl)))
  record_from_dict-record_to_dict (cursor d) w = rw (optional_at-or_null "leafId" d.leaf_id) refl
  record_from_dict-record_to_dict (entry e) w = rw (type_of_entry e.body).0 (
      rw (type_of_entry e.body).1 (
        rw (w.0) (
          rw (optional_at-or_null "parentId" e.parent_id) (
            rw (body_round (str e.id) (or_null e.parent_id) (int (pos e.timestamp)) e.body (w.1))
              refl))))
