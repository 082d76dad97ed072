-- ===== src/Tests/Edits.antt =====
-- Edits of a text of two lines.
use pi_agent_python.Base.{◌≡◌, refl, List, [], ◌∷◌}
use pi_agent_python.Base.Result.{ok, err}
use pi_agent_python.Tools.Edit.{
  Text, Edit, EditError, Replacement, count, apply_edits, restore_newlines, with_newlines,
  edit_text,
}
use pi_agent_python.Tools.Edit.Applied.{Applied, apply_edits-Applied}
use pi_agent_python.Tools.Edit.Newlines.{crlf, newline_of, edit_text-restore_newlines}

-- "ab\nab c\n", and the same with "\r\n"
abbrev file : Text
file = 97 ∷ 98 ∷ 10 ∷ 97 ∷ 98 ∷ 32 ∷ 99 ∷ 10 ∷ []

abbrev dos_file : Text
dos_file = 97 ∷ 98 ∷ 13 ∷ 10 ∷ 97 ∷ 98 ∷ 32 ∷ 99 ∷ 13 ∷ 10 ∷ []

-- "b c" to "d", then "d" to "ee"
abbrev edits : List Edit
edits =
    record { old_text = 98 ∷ 32 ∷ 99 ∷ []; new_text = 100 ∷ [] }
    ∷ record { old_text = 100 ∷ []; new_text = 101 ∷ 101 ∷ [] }
    ∷ []

abbrev notes : List Replacement
notes =
    record { index = 1; position = 4; removed_chars = 3; added_chars = 1 }
    ∷ record { index = 2; position = 4; removed_chars = 1; added_chars = 2 }
    ∷ []

-- "ab" is there twice.
ambiguous_edit :
    apply_edits 1 (record { old_text = 97 ∷ 98 ∷ []; new_text = [] } ∷ []) file
    ≡ err (EditError.ambiguous 1 2)
unfolding apply_edits
ambiguous_edit = refl

-- The line breaks of the file are kept.
dos_edit : edit_text edits dos_file ≡ ok (97 ∷ 98 ∷ 13 ∷ 10 ∷ 97 ∷ 101 ∷ 101 ∷ 13 ∷ 10 ∷ [], notes)
unfolding edit_text
dos_edit = refl

-- "aa" stands at two places of "aaa" and is counted once.
overlap : count (97 ∷ 97 ∷ []) 0 (97 ∷ 97 ∷ 97 ∷ []) ≡ 1
unfolding count
overlap = refl

apply_edits-Applied_example :
    Applied 1 edits file (ok (97 ∷ 98 ∷ 10 ∷ 97 ∷ 101 ∷ 101 ∷ 10 ∷ [], notes))
unfolding apply_edits
apply_edits-Applied_example = apply_edits-Applied 1 edits file

edit_text-restore_newlines_example :
    edit_text edits (restore_newlines (newline_of crlf) file)
    ≡ with_newlines (13 ∷ 10 ∷ []) (apply_edits 1 edits file)
edit_text-restore_newlines_example =
    edit_text-restore_newlines crlf edits file
      (refl, (refl, (refl, (refl, (refl, (refl, (refl, (refl, tt)))))))) refl
