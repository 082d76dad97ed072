-- ===== src/Tools/Edit/Applied.antt =====
-- The loop over the edits in `create_edit_tool`, src/pi_agent/harness/tools/edit.py.
use pi_agent_python.Base.{
  ℕ, suc, ◌<◌, ◌≡◌, ◌≢◌, refl, ap, true, false, List, [], ◌∷◌, ◌++◌, ◌==◌, ==_iff, ltb, arith,
  Bool-cases, inl, inr, some,
}
use pi_agent_python.Base.Lists.{length, take, length-take}
use pi_agent_python.Base.Result.{Result, ok, err}
use pi_agent_python.Tools.Edit.{
  Text, Edit, EditError, Replacement, count, normalize_newlines, Edited, replace_at, replace_once,
  with_replacement, apply_edits,
}
use pi_agent_python.Tools.Edit.Occurs.{count-zero, Found, count-Found}

-- The text `old` is nowhere in the text.
abbrev pub Absent : Text → Text → Type 0
Absent old text = (before after : Text) → text ≢ before ++ old ++ after

-- One occurrence of `old` was replaced, and none is left behind it.
pub record Replaced (index : ℕ) (old new text updated : Text) (r : Replacement) : Type 0 where
  pub before : Text
  pub after : Text
  pub was : text ≡ before ++ old ++ after
  pub is_now : updated ≡ before ++ new ++ after
  pub unique : Absent old after
  pub noted : r ≡ record {
    index = index;
    position = length before;
    removed_chars = length old;
    added_chars = length new;
  }

-- What one edit does: an error, for its reason, or a replacement.
abbrev pub Step : ℕ → Text → Text → Text → Result EditError (Text × Replacement) → Type 0
Step index old new text (err (EditError.empty_old_text i)) = (i ≡ index) × (old ≡ [])
Step index old new text (err (EditError.not_found i)) = (i ≡ index) × Absent old text
Step index old new text (err (EditError.ambiguous i n)) =
    (i ≡ index) × (n ≡ count old 0 text) × (1 < n)
Step index old new text (ok (updated, r)) = Replaced index old new text updated r

-- What the edits do in their order: the first error ends them.
pub data Applied : ℕ → List Edit → Text → Edited → Type 0 where
  finished : {index : ℕ} {text : Text} → Applied index [] text (ok (text, []))
  refused :
      {index : ℕ} {edit : Edit} {edits : List Edit} {text : Text} (e : EditError)
      → Step index
          (normalize_newlines edit.old_text)
          (normalize_newlines edit.new_text)
          text
          (err e)
      → Applied index (edit ∷ edits) text (err e)
  goes_on :
      {index : ℕ} {edit : Edit} {edits : List Edit} {text : Text} (r : Text × Replacement)
      (out : Edited)
      → Step index (normalize_newlines edit.old_text) (normalize_newlines edit.new_text) text (ok r)
      → Applied (suc index) edits (r.0) out
      → Applied index (edit ∷ edits) text (with_replacement (r.1) out)

noted_at :
    (index removed : ℕ) (new : Text) {p q : ℕ}
    → p ≡ q
    → ◌≡◌ {A = Replacement}
        record { index = index; position = p; removed_chars = removed; added_chars = length new }
        record { index = index; position = q; removed_chars = removed; added_chars = length new }
noted_at index removed new same =
    ap
      (λ n. record {
        index = index;
        position = n;
        removed_chars = removed;
        added_chars = length new;
      })
      same

replace_at-Step :
    (index o : ℕ) (old new text : Text) (found : Found (o ∷ old) text)
    → count (o ∷ old) 0 text ≡ 1
    → Step index (o ∷ old) new text (replace_at index (o ∷ old) new text (some found.position))
replace_at-Step index o old new text found once = record {
  before = take found.position text;
  after = found.rest;
  was = found.parts;
  is_now = ap (λ t. take found.position text ++ new ++ t) found.ends;
  unique = count-zero o old found.rest (omega (arith, found.later));
  noted =
      noted_at index (suc (length old)) new
        (omega (arith, length-take found.position text, found.inside));
}

more_than_one : (n : ℕ) → ltb 1 n ≡ true → 1 < n
more_than_one n h = ground arith

exactly_one : (n : ℕ) → (n == 0) ≡ false → ltb 1 n ≡ false → n ≡ 1
exactly_one n h k = ground arith

replace_once-Step :
    (index : ℕ) (old new text : Text) → Step index old new text (replace_once index old new text)
unfolding replace_once
replace_once-Step index [] new text = (refl, refl)
replace_once-Step index (o ∷ old) new text =
    let n = count (o ∷ old) 0 text in
    elim (Bool-cases (count (o ∷ old) 0 text == 0)) [
      | inl zero_times ↦
          rw zero_times
            (refl, count-zero o old text ((==_iff (count (o ∷ old) 0 text) 0).0 zero_times))
      | inr not_zero ↦ elim (Bool-cases (ltb 1 (count (o ∷ old) 0 text))) [
        | inl many ↦ rw not_zero (rw many (refl, refl, more_than_one n many))
        | inr once ↦
            let one = exactly_one n not_zero once in
            let found = count-Found o old text (omega arith) in
            rw not_zero (rw once (rw found.at (replace_at-Step index o old new text found one)))
      ]
    ]

follow :
    (index : ℕ) (edit : Edit) (edits : List Edit) (text : Text)
    (r : Result EditError (Text × Replacement))
    → Step index (normalize_newlines edit.old_text) (normalize_newlines edit.new_text) text r
    → ((t : Text) → Applied (suc index) edits t (apply_edits (suc index) edits t))
    → Applied index (edit ∷ edits) text (elim r [
      | err e ↦ err e
      | ok p ↦ with_replacement (p.1) (apply_edits (suc index) edits (p.0))
    ])
follow index edit edits text (err e) step later = Applied.refused e step
follow index edit edits text (ok p) step later = Applied.goes_on p _ step (later (p.0))

-- The edits are done in their order: each replaces an occurrence of its old text, with no other behind
-- it, until one has an old text that is empty, that is nowhere, or that is counted more than once:
-- this one ends the loop with its error and its number.
pub apply_edits-Applied :
    (index : ℕ) (edits : List Edit) (text : Text)
    → Applied index edits text (apply_edits index edits text)
unfolding apply_edits
apply_edits-Applied index [] text = Applied.finished
apply_edits-Applied index (edit ∷ edits) text =
    follow index edit edits text _
      (replace_once-Step index (normalize_newlines edit.old_text) (normalize_newlines edit.new_text)
        text)
      (λ t. apply_edits-Applied (suc index) edits t)
