-- ===== src/Tools/Edit.antt =====
-- The edit tool, src/pi_agent/harness/tools/edit.py: `create_edit_tool`, from the decoded file to
-- the text that is written, and its newline helpers. A text is the list of its code points. Reading,
-- decoding and writing the file are not part of the model.
pub mod Occurs
pub mod Applied
pub mod Newlines
use pi_agent_python.Base.{
  ℕ, zero, suc, ◌+◌, ◌-◌, Bool, true, false, ◌&&◌, Option, none, some, List, [], ◌∷◌, ◌++◌, map,
  if◌then◌else◌, ◌==◌, ltb,
}
use pi_agent_python.Base.Lists.{length, take, drop}
use pi_agent_python.Base.Result.{Result, ok, err}

abbrev pub Text : Type 0
Text = List ℕ

-- `_Edit`
pub record Edit : Type 0 where
  pub old_text : Text
  pub new_text : Text

-- The `ValueError`s, without the path in their messages.
pub data EditError : Type 0 where
  empty_old_text : ℕ → EditError
  not_found : ℕ → EditError
  ambiguous : ℕ → ℕ → EditError

-- An entry of `replacements`.
pub record Replacement : Type 0 where
  pub index : ℕ
  pub position : ℕ
  pub removed_chars : ℕ
  pub added_chars : ℕ

-- `text.startswith(old)`
unfoldable pub starts_with : Text → Text → Bool
starts_with [] text = true
starts_with (c ∷ old) [] = false
starts_with (c ∷ old) (d ∷ text) = c == d && starts_with old text

abbrev pub is_empty : Text → Bool
is_empty [] = true
is_empty (c ∷ text) = false

-- `text.count(old)` for a text `old` that is not empty: the matches that do not overlap, from the
-- left. The number is of the characters of the last match that are still to be passed.
unfoldable pub count : Text → ℕ → Text → ℕ
unfolding starts_with
count old skip [] = 0
count old (suc skip) (c ∷ text) = count old skip text
count old zero (c ∷ text) =
    let rest = count old zero text in
    let after = count old (length old - 1) text in
    if starts_with old (c ∷ text) then suc after else rest

abbrev pub add_one : Option ℕ → Option ℕ
add_one none = none
add_one (some i) = some (suc i)

-- `text.index(old)` for a text `old` that is not empty, `none` where Python raises.
unfoldable pub index_of : Text → Text → Option ℕ
unfolding starts_with
index_of old [] = none
index_of old (c ∷ text) =
    let rest = add_one (index_of old text) in if starts_with old (c ∷ text) then some 0 else rest

-- `value.replace("\r\n", "\n")`
unfoldable pub replace_crlf : Text → Text
unfolding starts_with
replace_crlf [] = []
replace_crlf (c ∷ text) =
    let rest = replace_crlf text in if c == 13 && starts_with (10 ∷ []) text then rest else c ∷ rest

-- `value.replace("\r", "\n")`
unfoldable pub replace_cr : Text → Text
replace_cr text = map (λ c. if c == 13 then 10 else c) text

-- `_normalize_newlines`
unfoldable pub normalize_newlines : Text → Text
unfolding replace_crlf replace_cr
normalize_newlines text = replace_cr (replace_crlf text)

-- `part in text` for a part that is not empty
unfoldable pub has_part : Text → Text → Bool
unfolding starts_with
has_part part [] = false
has_part part (c ∷ text) =
    let rest = has_part part text in if starts_with part (c ∷ text) then true else rest

-- `_detect_newline`
unfoldable pub detect_newline : Text → Text
unfolding has_part
detect_newline text =
    if has_part (13 ∷ 10 ∷ []) text
    then 13 ∷ 10 ∷ []
    else if has_part (13 ∷ []) text
    then 13 ∷ []
    else 10 ∷ []

-- `updated.replace("\n", newline)`, which changes nothing where the newline is "\n"
unfoldable pub restore_newlines : Text → Text → Text
restore_newlines newline [] = []
restore_newlines newline (c ∷ text) =
    let rest = restore_newlines newline text in if c == 10 then newline ++ rest else c ∷ rest

abbrev pub Edited : Type 0
Edited = Result EditError (Text × List Replacement)

-- `updated[:position] + new_text + updated[position + len(old_text) :]`
abbrev pub splice : Text → Text → Text → ℕ → Text
splice text old new position = take position text ++ new ++ drop (position + length old) text

-- The end of a step: the replacement at the position, which `index` found.
abbrev pub replace_at : ℕ → Text → Text → Text → Option ℕ → Result EditError (Text × Replacement)
replace_at index old new text none = err (EditError.not_found index)
replace_at index old new text (some position) = ok (
  splice text old new position,
  record {
    index = index;
    position = position;
    removed_chars = length old;
    added_chars = length new;
  },
)

-- One step of the loop over `edits`, with the texts normalized.
unfoldable pub replace_once : ℕ → Text → Text → Text → Result EditError (Text × Replacement)
unfolding count index_of
replace_once index old new text =
    if is_empty old
    then err (EditError.empty_old_text index)
    else if count old 0 text == 0
    then err (EditError.not_found index)
    else if ltb 1 (count old 0 text)
    then err (EditError.ambiguous index (count old 0 text))
    else replace_at index old new text (index_of old text)

abbrev pub with_replacement : Replacement → Edited → Edited
with_replacement r (ok (text, rs)) = ok (text, r ∷ rs)
with_replacement r (err e) = err e

-- The loop over `edits`, from the index on.
unfoldable pub apply_edits : ℕ → List Edit → Text → Edited
unfolding replace_once normalize_newlines
apply_edits index [] text = ok (text, [])
apply_edits index (edit ∷ edits) text =
    elim (replace_once index (normalize_newlines edit.old_text) (normalize_newlines edit.new_text)
      text) [ err e ↦ err e | ok r ↦ with_replacement (r.1) (apply_edits (suc index) edits (r.0)) ]

-- `restored`, the text with the line breaks of the file
unfoldable pub with_newlines : Text → Edited → Edited
unfolding restore_newlines
with_newlines newline (ok (text, rs)) = ok (restore_newlines newline text, rs)
with_newlines newline (err e) = err e

-- From the decoded file to the text that `mutate` compares with it and writes if it differs.
unfoldable pub edit_text : List Edit → Text → Edited
unfolding apply_edits with_newlines detect_newline normalize_newlines
edit_text edits original =
    with_newlines (detect_newline original) (apply_edits 1 edits (normalize_newlines original))
