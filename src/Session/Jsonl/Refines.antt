-- ===== src/Session/Jsonl/Refines.antt =====
-- The file store of src/pi_agent/harness/session/store.py beside the store in memory.
use pi_agent_python.Base.{
  ℕ, ◌≡◌, refl, sym, ap, ◌∙◌, true, false, not, Option, none, some, List, [], ◌∷◌, ◌++◌,
  append_assoc, append-nil, arith, if◌then◌else◌, ◌==◌, string_eq,
}
use pi_agent_python.Base.Lists.{length, All}
use pi_agent_python.Base.Dict.{insert}
use pi_agent_python.Base.Result.{Result, ok, err, ◌>>=◌, ◌>>◌, raise_if, >>=-eq-ok, raise_if-eq-ok}
use pi_agent_python.Ai.Codec.Optional.{IsExact}
use pi_agent_python.Session.Types.{
  SessionHeader, CursorEntry, SessionRecord, SessionError, SessionWarning, header, entry, cursor,
}
use pi_agent_python.Session.Store.{
  Entries, SessionLoadResult, InMemorySessionStore, scan, validate_body, validate_records, load,
  append,
}
use pi_agent_python.Session.Codec.{record_to_dict}
use pi_agent_python.Session.Jsonl.{
  Bytes, File, Json, encode_record, decode_jsonl, load_file, append_file, append_bytes,
  check_append, is_header, ends_newline, write_record,
}
use pi_agent_python.Session.Jsonl.Decode.{IsStored, file_of, whole, decode_jsonl-file_of}

-- A second header is refused.
scan_header :
    (rs : List SessionRecord) (h : SessionHeader) (es : Entries) (c : Option CursorEntry)
    (out : Entries × Option CursorEntry)
    → scan (rs ++ header h ∷ []) es c ≡ ok out
    → ⊥
unfolding scan
scan_header [] h es c out done = cc
scan_header (header g ∷ rs) h es c out done = cc
scan_header (cursor d ∷ rs) h es c out done = scan_header rs h es (some d) out done
scan_header (entry e ∷ rs) h es c out done =
    ground (arith, scan_header rs h (insert e.id e es) c out)

not_header :
    (g : SessionHeader) (rs : List SessionRecord) (r : SessionRecord) (ws : List SessionWarning)
    → validate_records (header g ∷ (rs ++ r ∷ [])) ≡ ok ws
    → is_header r ≡ false
unfolding validate_records validate_body
not_header g rs (entry e) ws done = refl
not_header g rs (cursor c) ws done = refl
not_header g rs (header h) ws done =
    let body =
      (raise_if-eq-ok (not (g.version == 1)) _ (validate_body (rs ++ header h ∷ [])) done).1 in
    let (out, scanned, _) = >>=-eq-ok (scan (rs ++ header h ∷ []) [] none) _ {out = ws} body in
    absurd (scan_header rs h [] none out scanned)

ends_newline_cons : (b : ℕ) (bs : Bytes) → ends_newline bs ≡ true → ends_newline (b ∷ bs) ≡ true
ends_newline_cons b [] h = cc
ends_newline_cons b (c ∷ bs) h = h

ends_newline-append : (d bs : Bytes) → ends_newline bs ≡ true → ends_newline (d ++ bs) ≡ true
ends_newline-append [] bs h = h
ends_newline-append (c ∷ d) bs h = ends_newline_cons c (d ++ bs) (ends_newline-append d bs h)

module _ (j : Json) where
  file_of-append :
      (rs more : List SessionRecord) → file_of j (rs ++ more) ≡ file_of j rs ++ file_of j more
  file_of-append [] more = refl
  file_of-append (r ∷ rs) more =
      ap (λ bs. encode_record j r ++ bs) (file_of-append rs more)
      ∙ sym (append_assoc (encode_record j r) (file_of j rs) (file_of j more))

  ends_newline-file_of :
      (r : SessionRecord) (rs : List SessionRecord) → ends_newline (file_of j (r ∷ rs)) ≡ true
  unfolding encode_record
  ends_newline-file_of r [] =
      ap ends_newline (append-nil (encode_record j r))
      ∙ ends_newline-append (j.dumps (record_to_dict r)) (10 ∷ []) refl
  ends_newline-file_of r (s ∷ rs) =
      ends_newline-append (encode_record j r) (file_of j (s ∷ rs)) (ends_newline-file_of s rs)

  -- What the store in memory does, as a change of the file.
  abbrev pub stored_as :
      List SessionRecord
      → Result SessionError InMemorySessionStore
      → Result SessionError Unit × File
  stored_as rs (ok s) = (ok tt, some (file_of j s.records))
  stored_as rs (err x) = (err x, some (file_of j rs))

  abbrev checked_as :
      SessionRecord → Bytes → Result SessionError Unit → Result SessionError Unit × File
  checked_as r bs (err x) = (err x, some bs)
  checked_as r bs (ok _) = (ok tt, some (write_record j r bs))

  append_bytes_cons :
      (r : SessionRecord) (bs : Bytes)
      → ends_newline bs ≡ true
      → append_bytes j r bs ≡ checked_as r bs (check_append j r bs)
  unfolding append_bytes
  append_bytes_cons r [] h = cc
  append_bytes_cons r (b ∷ bs) h = ground arith

  check_append_of :
      (bs : Bytes) (r : SessionRecord) (l : SessionLoadResult)
      → decode_jsonl j bs ≡ ok l
      → l.ignored_tail ≡ []
      → check_append j r bs ≡ (
          validate_records (l.records ++ r ∷ [])
          >> raise_if (is_header r) SessionError.header_only_first)
  unfolding check_append
  check_append_of bs r l h k = ground arith

  write_record-file_of :
      (g r : SessionRecord) (rs : List SessionRecord)
      → write_record j r (file_of j (g ∷ rs)) ≡ file_of j (g ∷ (rs ++ r ∷ []))
  write_record-file_of g r rs =
      ap
        (λ b.
          if b
          then file_of j (g ∷ rs) ++ encode_record j r
          else file_of j (g ∷ rs) ++ 10 ∷ encode_record j r)
        (ends_newline-file_of g rs)
      ∙ ap (λ bs. file_of j (g ∷ rs) ++ bs) (sym (append-nil (encode_record j r)))
      ∙ sym (file_of-append (g ∷ rs) (r ∷ []))

  -- After the guards.
  guarded_as :
      (g : SessionHeader) (rs : List SessionRecord) (r : SessionRecord)
      (v : Result SessionError (List SessionWarning))
      → validate_records (header g ∷ (rs ++ r ∷ [])) ≡ v
      → checked_as r
          (file_of j (header g ∷ rs))
          (v >> raise_if (is_header r) SessionError.header_only_first)
        ≡ stored_as (header g ∷ rs) (v >> ok (record { records = header g ∷ (rs ++ r ∷ []) }))
  guarded_as g rs r (err x) h = refl
  guarded_as g rs r (ok ws) h =
      rw (not_header g rs r ws h)
        (ap (λ bs. (ok tt, some bs)) (write_record-file_of (header g) r rs))

  append_of :
      (s : InMemorySessionStore) (r : SessionRecord)
      → append s r
        ≡ (validate_records (s.records ++ r ∷ []) >> ok (record { records = s.records ++ r ∷ [] }))
  unfolding append
  append_of s r = refl

  module _ (x : IsExact j.conversions) where
    -- Where `str`, `int` and `float` are exact and the file holds a header and records that can be
    -- written and read again, `append` does to it what the store in memory does to the records: it
    -- adds the record, or raises the same exception and leaves the file as it was.
    pub append_file-append :
        (g : SessionHeader) (rs : List SessionRecord) (r : SessionRecord)
        → All (IsStored j) (header g ∷ rs)
        → append_file j r (some (file_of j (header g ∷ rs)))
          ≡ stored_as (header g ∷ rs) (append (record { records = header g ∷ rs }) r)
    unfolding append_file
    append_file-append g rs r h =
        append_bytes_cons r (file_of j (header g ∷ rs)) (ends_newline-file_of (header g) rs)
        ∙ ap (checked_as r (file_of j (header g ∷ rs))) (
            check_append_of (file_of j (header g ∷ rs)) r (whole j x (header g ∷ rs))
              (decode_jsonl-file_of j x (header g ∷ rs) h) refl)
        ∙ guarded_as g rs r _ refl
        ∙ ap (stored_as (header g ∷ rs)) (sym (append_of (record { records = header g ∷ rs }) r))

    abbrev pub sized_as :
        List SessionRecord
        → Result SessionError SessionLoadResult
        → Result SessionError SessionLoadResult
    sized_as rs (ok l) = ok (record l { valid_bytes = length (file_of j rs) })
    sized_as rs (err e) = err e

    abbrev with_warnings : SessionLoadResult → Result SessionError SessionLoadResult
    with_warnings loaded = validate_records loaded.records >>= λ more.
        ok (record loaded { warnings = loaded.warnings ++ more })

    sized_lem :
        (rs : List SessionRecord) (v : Result SessionError (List SessionWarning))
        → (v >>= λ more. ok (record (whole j x rs) { warnings = more }))
          ≡ sized_as rs (
              v >>= λ warnings.
              ok (record { records = rs; warnings = warnings; valid_bytes = 0; ignored_tail = [] }))
    sized_lem rs (ok ws) = refl
    sized_lem rs (err e) = refl

    -- Where `str`, `int` and `float` are exact and the file holds records that can be written and read
    -- again, `load` returns what the store in memory returns, but for the count of bytes.
    pub load_file-load :
        (rs : List SessionRecord)
        → All (IsStored j) rs
        → load_file j (some (file_of j rs)) ≡ sized_as rs (load (record { records = rs }))
    unfolding load_file load
    load_file-load rs h =
        ap (λ d. d >>= with_warnings) (decode_jsonl-file_of j x rs h)
        ∙ sized_lem rs (validate_records rs)
