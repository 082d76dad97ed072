-- ===== src/Session/Jsonl/Torn.antt =====
-- An append of src/pi_agent/harness/session/store.py that stops in the middle, and `repair_tail`.
use pi_agent_python.Base.{
  ℕ, zero, suc, ◌+◌, ◌<◌, ◌≤◌, ◌≡◌, refl, sym, ap, ◌∙◌, false, some, List, [], ◌∷◌, ◌++◌,
  append-nil, arith, ◌==◌,
}
use mathlib.Core.Path.{subst}
use pi_agent_python.Base.Lists.{length, take, All}
use pi_agent_python.Base.Result.{ok}
use pi_agent_python.Ai.Codec.Optional.{IsExact}
use pi_agent_python.Session.Types.{SessionRecord, SessionWarning}
use pi_agent_python.Session.Store.{SessionLoadResult}
use pi_agent_python.Session.Codec.{record_to_dict}
use pi_agent_python.Session.Jsonl.{
  Bytes, Json, split_keep, is_blank, encode_record, parse_body, decode_lines, decode_jsonl,
  repair_tail,
}
use pi_agent_python.Session.Jsonl.Lines.{
  IsClean, split_keep_last, rstrip_breaks_clean, ends_break_clean,
}
use pi_agent_python.Session.Jsonl.Decode.{
  IsStored, file_of, with_records, with_records_loaded, decode_lines-file_of,
}

IsClean-take : (n : ℕ) (d : Bytes) → IsClean d → IsClean (take n d)
IsClean-take zero d h = tt
IsClean-take (suc n) [] h = tt
IsClean-take (suc n) (b ∷ d) h = (h.0, IsClean-take n d (h.1))

pub take_all {ℓ} : {A : Type ℓ} (xs ys : List A) → take (length xs) (xs ++ ys) ≡ xs
take_all [] ys = refl
take_all (a ∷ xs) ys = ap (λ l. a ∷ l) (take_all xs ys)

pub take_part {ℓ} :
    {A : Type ℓ} (n : ℕ) (xs ys : List A) → n ≤ length xs → take n (xs ++ ys) ≡ take n xs
take_part zero xs ys h = refl
take_part (suc n) [] ys h = absurd (omega arith)
take_part (suc n) (a ∷ xs) ys h = ap (λ l. a ∷ l) (take_part n xs ys (omega arith))

module _ (j : Json) where
  -- The start of a text of json, at least a byte of it.
  abbrev pub torn_line : SessionRecord → ℕ → Bytes
  torn_line r n = take (suc n) (j.dumps (record_to_dict r))

  torn_opens :
      (r : SessionRecord) (n : ℕ) (s : IsStored j r)
      → torn_line r n ≡ 123 ∷ take n s.text.after_brace
  torn_opens r n s = ap (take (suc n)) s.text.opens

  decode_torn :
      (r : SessionRecord) (n index offset : ℕ)
      → IsStored j r
      → suc n < length (j.dumps (record_to_dict r))
      → decode_lines j (torn_line r n ∷ []) index offset offset
        ≡ ok (record {
          records = [];
          warnings = SessionWarning.corrupt_tail index offset ∷ [];
          valid_bytes = offset;
          ignored_tail = torn_line r n;
        })
  unfolding decode_lines parse_body
  decode_torn r n index offset s h =
      let clean : IsClean (torn_line r n) =
        IsClean-take (suc n) (j.dumps (record_to_dict r)) s.text.clean in
      rw (rstrip_breaks_clean (torn_line r n) clean) (
        rw (ap is_blank (torn_opens r n s))
          (rw (s.text.torn (suc n) h) (rw (ends_break_clean (torn_line r n) clean) refl)))

  split_keep_torn :
      (r : SessionRecord) (n : ℕ) → IsStored j r → split_keep (torn_line r n) ≡ torn_line r n ∷ []
  split_keep_torn r n s =
      let d : Bytes = take n s.text.after_brace in
      let clean : IsClean (123 ∷ d) =
        subst IsClean (torn_opens r n s)
          (IsClean-take (suc n) (j.dumps (record_to_dict r)) s.text.clean) in
      ap split_keep (torn_opens r n s)
      ∙ split_keep_last 123 d clean
      ∙ ap (λ l. l ∷ []) (sym (torn_opens r n s))

  abbrev pub torn_file : List SessionRecord → SessionRecord → ℕ → Bytes
  torn_file rs r n = file_of j rs ++ take (suc n) (encode_record j r)

  -- What is read of the file: the whole records, and a warning with the line and offset of the rest.
  abbrev pub torn_at : List SessionRecord → ℕ → ℕ → Bytes → SessionLoadResult
  torn_at rs m index t = record {
    records = rs;
    warnings = SessionWarning.corrupt_tail index m ∷ [];
    valid_bytes = m;
    ignored_tail = t;
  }

  abbrev pub torn_result : List SessionRecord → SessionRecord → ℕ → SessionLoadResult
  torn_result rs r n = torn_at rs (length (file_of j rs)) (1 + length rs) (torn_line r n)

  torn_line_of :
      (r : SessionRecord) (n : ℕ)
      → suc n < length (j.dumps (record_to_dict r))
      → take (suc n) (encode_record j r) ≡ torn_line r n
  unfolding encode_record
  torn_line_of r n h = take_part (suc n) (j.dumps (record_to_dict r)) (10 ∷ []) (omega arith)

  suc_not_zero : (n : ℕ) → (suc n == 0) ≡ false
  suc_not_zero n = ground arith

  repair_tail_of :
      (bs : Bytes) (l : SessionLoadResult)
      → decode_jsonl j bs ≡ ok l
      → (length l.ignored_tail == 0) ≡ false
      → repair_tail j (some bs) ≡ (ok l, some (take l.valid_bytes bs))
  unfolding repair_tail
  repair_tail_of bs l h k = ground arith

  module _ (x : IsExact j.conversions) where
    decode_torn_file :
        (rs : List SessionRecord) (r : SessionRecord) (n : ℕ)
        → All (IsStored j) rs
        → IsStored j r
        → suc n < length (j.dumps (record_to_dict r))
        → decode_jsonl j (torn_file rs r n) ≡ ok (torn_result rs r n)
    unfolding decode_jsonl
    decode_torn_file rs r n all s h =
        ap (λ t. decode_jsonl j (file_of j rs ++ t)) (torn_line_of r n h)
        ∙ decode_lines-file_of j x rs (torn_line r n) 1 0 all
        ∙ ap (with_records rs) (
            ap
              (λ ls.
                decode_lines j ls (1 + length rs) (0 + length (file_of j rs))
                  (0 + length (file_of j rs)))
              (split_keep_torn r n s)
            ∙ decode_torn r n (1 + length rs) (0 + length (file_of j rs)) s h)
        ∙ with_records_loaded j x rs _
        ∙ ap (λ a. ok (torn_at a (0 + length (file_of j rs)) (1 + length rs) (torn_line r n)))
            (append-nil rs)
        ∙ ap (λ m. ok (torn_at rs m (1 + length rs) (torn_line r n))) (omega arith)

    -- A file of whole records, and of the start of one more that an append has not finished, up to the
    -- last byte of its text: `repair_tail` cuts the file back to the whole records and loses none.
    pub repair_tail_torn :
        (rs : List SessionRecord) (r : SessionRecord) (n : ℕ)
        → All (IsStored j) rs
        → IsStored j r
        → suc n < length (j.dumps (record_to_dict r))
        → repair_tail j (some (torn_file rs r n)) ≡ (ok (torn_result rs r n), some (file_of j rs))
    unfolding repair_tail
    repair_tail_torn rs r n all s h =
        repair_tail_of (torn_file rs r n) (torn_result rs r n) (decode_torn_file rs r n all s h) (
          ap (λ t. length t == 0) (torn_opens r n s)
          ∙ suc_not_zero (length (take n s.text.after_brace)))
        ∙ (ap (λ bs. (ok (torn_result rs r n), some bs))
            (take_all (file_of j rs) (take (suc n) (encode_record j r))))
