-- ===== src/Session/Jsonl/Decode.antt =====
-- `decode_jsonl` of src/pi_agent/harness/session/store.py on what `_encode_record` writes.
use pi_agent_python.Base.{
  ℕ, suc, ◌+◌, ◌<◌, ◌≡◌, refl, sym, ap, ◌∙◌, false, none, some, List, [], ◌∷◌, ◌++◌, append_assoc,
  append-nil, arith,
}
use pi_agent_python.Base.Lists.{length, take, All, length-append}
use pi_agent_python.Base.Result.{Result, ok}
use pi_agent_python.Ai.Json.{object, Fields}
use pi_agent_python.Ai.Codec.Optional.{IsExact}
use pi_agent_python.Session.Types.{SessionRecord, SessionError}
use pi_agent_python.Session.Store.{SessionLoadResult}
use pi_agent_python.Session.Codec.{record_to_dict}
use pi_agent_python.Session.Codec.RoundTrip.{IsWritable, record_from_dict-record_to_dict}
use pi_agent_python.Session.Jsonl.{
  Bytes, Json, split_keep, is_blank, encode_record, parsed, parse_value, parse_body, loaded_to,
  with_record, decode_lines, decode_jsonl,
}
use pi_agent_python.Session.Jsonl.Lines.{IsClean, split_keep_line, rstrip_breaks_line}

-- `json` on one dictionary: the text is one line that opens with a brace; it is read back; and no part
-- that stops before its end is read.
pub record IsJson (j : Json) (fs : Fields) : Type 0 where
  pub clean : IsClean (j.dumps fs)
  pub after_brace : Bytes
  pub opens : j.dumps fs ≡ 123 ∷ after_brace
  pub read : j.loads (j.dumps fs) ≡ some (object fs)
  pub torn : (n : ℕ) → n < length (j.dumps fs) → j.loads (take n (j.dumps fs)) ≡ none

-- A record that can be written and read again.
pub record IsStored (j : Json) (r : SessionRecord) : Type 0 where
  pub writable : IsWritable r
  pub text : IsJson j (record_to_dict r)

-- The bytes of a file with these records.
abbrev pub file_of : Json → List SessionRecord → Bytes
file_of j [] = []
file_of j (r ∷ rs) = encode_record j r ++ file_of j rs

abbrev pub with_records :
    List SessionRecord
    → Result SessionError SessionLoadResult
    → Result SessionError SessionLoadResult
with_records [] l = l
with_records (r ∷ rs) l = with_record r (with_records rs l)

module _ (j : Json) (x : IsExact j.conversions) where
  pub parse_body-dumps :
      (r : SessionRecord) → IsStored j r → parse_body j (j.dumps (record_to_dict r)) ≡ parsed r
  unfolding parse_body
  parse_body-dumps r s =
      ap (parse_value j.conversions) (s.text.read)
      ∙ rw (record_from_dict-record_to_dict j.conversions x r s.writable) refl

  blank_not : (d : Bytes) → is_blank (123 ∷ d) ≡ false
  blank_not d = refl

  decode_line :
      (r : SessionRecord) (ls : List Bytes) (index offset : ℕ)
      → IsStored j r
      → decode_lines j (encode_record j r ∷ ls) index offset offset
        ≡ with_record r (
            decode_lines j ls
              (suc index)
              (offset + length (encode_record j r))
              (offset + length (encode_record j r)))
  unfolding decode_lines encode_record
  decode_line r ls index offset s =
      rw (rstrip_breaks_line (j.dumps (record_to_dict r)) s.text.clean)
        (rw (ap is_blank s.text.opens) (rw (parse_body-dumps r s) refl))

  decode_at :
      (ls : List Bytes) {a b m n : ℕ}
      → a ≡ b
      → m ≡ n
      → decode_lines j ls a m m ≡ decode_lines j ls b n n
  decode_at ls p q = rw p (rw q refl)

  split_keep_file :
      (r : SessionRecord) (rs : List SessionRecord) (t : Bytes)
      → IsClean (j.dumps (record_to_dict r))
      → split_keep ((encode_record j r ++ file_of j rs) ++ t)
        ≡ encode_record j r ∷ split_keep (file_of j rs ++ t)
  unfolding encode_record
  split_keep_file r rs t h =
      ap split_keep (
        append_assoc (encode_record j r) (file_of j rs) t
        ∙ append_assoc (j.dumps (record_to_dict r)) (10 ∷ []) (file_of j rs ++ t))
      ∙ split_keep_line (j.dumps (record_to_dict r)) (file_of j rs ++ t) h

  pub decode_lines-file_of :
      (rs : List SessionRecord) (t : Bytes) (index offset : ℕ)
      → All (IsStored j) rs
      → decode_lines j (split_keep (file_of j rs ++ t)) index offset offset
        ≡ with_records rs (
            decode_lines j
              (split_keep t)
              (index + length rs)
              (offset + length (file_of j rs))
              (offset + length (file_of j rs)))
  decode_lines-file_of [] t index offset h = decode_at (split_keep t) (omega arith) (omega arith)
  decode_lines-file_of (r ∷ rs) t index offset h =
      let here : ℕ = length (encode_record j r) in
      ap (λ ls. decode_lines j ls index offset offset) (split_keep_file r rs t (h.0.text.clean))
      ∙ decode_line r (split_keep (file_of j rs ++ t)) index offset (h.0)
      ∙ ap (with_record r) (
          decode_lines-file_of rs t (suc index) (offset + here) (h.1)
          ∙ ap (with_records rs) (
              decode_at (split_keep t) (omega arith)
                (omega (arith, length-append (encode_record j r) (file_of j rs)))))

  abbrev pub whole : List SessionRecord → SessionLoadResult
  whole rs = record {
    records = rs;
    warnings = [];
    valid_bytes = length (file_of j rs);
    ignored_tail = [];
  }

  pub with_records_loaded :
      (rs : List SessionRecord) (l : SessionLoadResult)
      → with_records rs (ok l) ≡ ok (record l { records = rs ++ l.records })
  with_records_loaded [] l = refl
  with_records_loaded (r ∷ rs) l = ap (with_record r) (with_records_loaded rs l)

  -- Where `str`, `int` and `float` are exact, the bytes of records that can be written and read again
  -- are decoded to these records, without a warning, every byte of them valid.
  pub decode_jsonl-file_of :
      (rs : List SessionRecord)
      → All (IsStored j) rs
      → decode_jsonl j (file_of j rs) ≡ ok (whole rs)
  unfolding decode_jsonl
  decode_jsonl-file_of rs h =
      ap (λ bs. decode_jsonl j bs) (sym (append-nil (file_of j rs)))
      ∙ decode_lines-file_of rs [] 1 0 h
      ∙ with_records_loaded rs (loaded_to (0 + length (file_of j rs)))
      ∙ ap
          (λ ok_rs.
            ok (record (whole rs) { records = ok_rs; valid_bytes = 0 + length (file_of j rs) }))
          (append-nil rs)
      ∙ ap (λ n. ok (record (whole rs) { valid_bytes = n })) (omega arith)
