-- ===== src/Tools/Edit/Newlines.antt =====
-- The line breaks of a file under `create_edit_tool`, src/pi_agent/harness/tools/edit.py.
use pi_agent_python.Base.{
  ℕ, ◌≡◌, refl, sym, ap, ◌∙◌, Bool, true, false, List, [], ◌∷◌, if◌then◌else◌, ◌==◌, ==_iff, arith,
  Bool-cases, inl, inr,
}
use pi_agent_python.Base.Lists.{All, any}
use pi_agent_python.Tools.Edit.{
  Text, Edit, starts_with, replace_crlf, replace_cr, normalize_newlines, has_part, detect_newline,
  restore_newlines, apply_edits, with_newlines, edit_text,
}

-- The ways to end a line: "\n", "\r\n" and "\r".
pub data Style : Type 0 where
  lf crlf cr : Style

abbrev pub newline_of : Style → Text
newline_of lf = 10 ∷ []
newline_of crlf = 13 ∷ 10 ∷ []
newline_of cr = 13 ∷ []

-- A text without "\r".
abbrev pub IsPlain : Text → Type 0
IsPlain s = All (λ c. (c == 13) ≡ false) s

restore-lf : (s : Text) → restore_newlines (10 ∷ []) s ≡ s
unfolding restore_newlines
restore-lf [] = refl
restore-lf (c ∷ s) = elim (Bool-cases (c == 10)) [
  | inl nl ↦ rw nl (ap (λ t. 10 ∷ t) (restore-lf s) ∙ ap (λ d. d ∷ s) (sym ((==_iff c 10).0 nl)))
  | inr other ↦ rw other (ap (λ t. c ∷ t) (restore-lf s))
]

replace_cr-plain : (s : Text) → IsPlain s → replace_cr s ≡ s
unfolding replace_cr
replace_cr-plain [] h = refl
replace_cr-plain (c ∷ s) h = rw (h.0) (ap (λ t. c ∷ t) (replace_cr-plain s (h.1)))

replace_crlf-plain : (s : Text) → IsPlain s → replace_crlf s ≡ s
unfolding replace_crlf
replace_crlf-plain [] h = refl
replace_crlf-plain (c ∷ s) h = rw (h.0) (ap (λ t. c ∷ t) (replace_crlf-plain s (h.1)))

replace_crlf-restore : (s : Text) → IsPlain s → replace_crlf (restore_newlines (13 ∷ 10 ∷ []) s) ≡ s
unfolding replace_crlf restore_newlines starts_with
replace_crlf-restore [] h = refl
replace_crlf-restore (c ∷ s) h = elim (Bool-cases (c == 10)) [
  | inl nl ↦
      rw nl (
        ap (λ t. 10 ∷ t) (replace_crlf-restore s (h.1))
        ∙ ap (λ d. d ∷ s) (sym ((==_iff c 10).0 nl)))
  | inr other ↦ rw other (rw (h.0) (ap (λ t. c ∷ t) (replace_crlf-restore s (h.1))))
]

-- Behind a "\r" that stands for a line break there is no "\n".
no_lf_first : (s : Text) → starts_with (10 ∷ []) (restore_newlines (13 ∷ []) s) ≡ false
unfolding starts_with restore_newlines
no_lf_first [] = refl
no_lf_first (c ∷ s) = elim (Bool-cases (c == 10)) [ inl nl ↦ rw nl refl | inr other ↦ ground arith ]

replace_crlf-restore_cr :
    (s : Text)
    → IsPlain s
    → replace_crlf (restore_newlines (13 ∷ []) s) ≡ restore_newlines (13 ∷ []) s
unfolding replace_crlf restore_newlines
replace_crlf-restore_cr [] h = refl
replace_crlf-restore_cr (c ∷ s) h = elim (Bool-cases (c == 10)) [
  | inl nl ↦ rw nl (rw (no_lf_first s) (ap (λ t. 13 ∷ t) (replace_crlf-restore_cr s (h.1))))
  | inr other ↦ rw other (rw (h.0) (ap (λ t. c ∷ t) (replace_crlf-restore_cr s (h.1))))
]

replace_cr-restore : (s : Text) → IsPlain s → replace_cr (restore_newlines (13 ∷ []) s) ≡ s
unfolding replace_cr restore_newlines
replace_cr-restore [] h = refl
replace_cr-restore (c ∷ s) h = elim (Bool-cases (c == 10)) [
  | inl nl ↦
      rw nl
        (ap (λ t. 10 ∷ t) (replace_cr-restore s (h.1)) ∙ ap (λ d. d ∷ s) (sym ((==_iff c 10).0 nl)))
  | inr other ↦ rw other (rw (h.0) (ap (λ t. c ∷ t) (replace_cr-restore s (h.1))))
]

normalize-restore :
    (style : Style) (s : Text)
    → IsPlain s
    → normalize_newlines (restore_newlines (newline_of style) s) ≡ s
unfolding normalize_newlines
normalize-restore lf s h =
    ap (λ t. replace_cr (replace_crlf t)) (restore-lf s)
    ∙ ap replace_cr (replace_crlf-plain s h)
    ∙ replace_cr-plain s h
normalize-restore crlf s h = ap replace_cr (replace_crlf-restore s h) ∙ replace_cr-plain s h
normalize-restore cr s h = ap replace_cr (replace_crlf-restore_cr s h) ∙ replace_cr-restore s h

-- Which line breaks are found in the text.
if_true : (b : Bool) → (if b then true else true) ≡ true
if_true true = refl
if_true false = refl

has_part-later :
    (part : Text) (c : ℕ) (text : Text)
    → has_part part text ≡ true
    → has_part part (c ∷ text) ≡ true
unfolding has_part
has_part-later part c text h = rw h (if_true (starts_with part (c ∷ text)))

has_part-not :
    (part : Text) (c : ℕ) (text : Text)
    → starts_with part (c ∷ text) ≡ false
    → has_part part text ≡ false
    → has_part part (c ∷ text) ≡ false
unfolding has_part
has_part-not part c text here later = rw here later

starts_with-other :
    (part : Text) (c : ℕ) (text : Text)
    → (c == 13) ≡ false
    → starts_with (13 ∷ part) (c ∷ text) ≡ false
unfolding starts_with
starts_with-other part c text h = ground arith

has_part-plain : (s part : Text) → IsPlain s → has_part (13 ∷ part) s ≡ false
unfolding has_part starts_with
has_part-plain [] part h = refl
has_part-plain (c ∷ s) part h =
    has_part-not (13 ∷ part) c s (starts_with-other part c s (h.0)) (has_part-plain s part (h.1))

has_part-crlf :
    (s : Text)
    → any (λ c. c == 10) s ≡ true
    → has_part (13 ∷ 10 ∷ []) (restore_newlines (13 ∷ 10 ∷ []) s) ≡ true
unfolding has_part starts_with restore_newlines
has_part-crlf [] h = cc
has_part-crlf (c ∷ s) h = elim (Bool-cases (c == 10)) [
  | inl nl ↦ rw nl refl
  | inr other ↦ rw other (
      has_part-later (13 ∷ 10 ∷ []) c (restore_newlines (13 ∷ 10 ∷ []) s)
        (has_part-crlf s (rw other at h)))
]

has_part-cr :
    (s : Text)
    → any (λ c. c == 10) s ≡ true
    → has_part (13 ∷ []) (restore_newlines (13 ∷ []) s) ≡ true
unfolding has_part starts_with restore_newlines
has_part-cr [] h = cc
has_part-cr (c ∷ s) h = elim (Bool-cases (c == 10)) [
  | inl nl ↦ rw nl refl
  | inr other ↦
      rw other
        (has_part-later (13 ∷ []) c (restore_newlines (13 ∷ []) s) (has_part-cr s (rw other at h)))
]

has_part-no_crlf :
    (s : Text) → IsPlain s → has_part (13 ∷ 10 ∷ []) (restore_newlines (13 ∷ []) s) ≡ false
unfolding has_part starts_with restore_newlines
has_part-no_crlf [] h = refl
has_part-no_crlf (c ∷ s) h = elim (Bool-cases (c == 10)) [
  | inl nl ↦ rw nl (
      has_part-not (13 ∷ 10 ∷ []) 13 (restore_newlines (13 ∷ []) s) (no_lf_first s)
        (has_part-no_crlf s (h.1)))
  | inr other ↦ rw other (
      has_part-not (13 ∷ 10 ∷ []) c (restore_newlines (13 ∷ []) s)
        (starts_with-other (10 ∷ []) c (restore_newlines (13 ∷ []) s) (h.0))
        (has_part-no_crlf s (h.1)))
]

detect-restore :
    (style : Style) (s : Text)
    → IsPlain s
    → any (λ c. c == 10) s ≡ true
    → detect_newline (restore_newlines (newline_of style) s) ≡ newline_of style
unfolding detect_newline
detect-restore lf s h broken =
    rw (restore-lf s) (rw (has_part-plain s (10 ∷ []) h) (rw (has_part-plain s [] h) refl))
detect-restore crlf s h broken = rw (has_part-crlf s broken) refl
detect-restore cr s h broken = rw (has_part-no_crlf s h) (rw (has_part-cr s broken) refl)

-- A file with at least one line break, whose line breaks are all of one of the three kinds: the edits do
-- to it what they do to the same file with "\n", and what is written is that text with the file's line
-- break in place of each "\n", those of the new texts included; where an edit is refused, the error is
-- the same.
pub edit_text-restore_newlines :
    (style : Style) (edits : List Edit) (s : Text)
    → IsPlain s
    → any (λ c. c == 10) s ≡ true
    → edit_text edits (restore_newlines (newline_of style) s)
      ≡ with_newlines (newline_of style) (apply_edits 1 edits s)
unfolding edit_text
edit_text-restore_newlines style edits s plain broken =
    ap
      (λ newline.
        with_newlines newline
          (apply_edits 1 edits (normalize_newlines (restore_newlines (newline_of style) s))))
      (detect-restore style s plain broken)
    ∙ ap (λ t. with_newlines (newline_of style) (apply_edits 1 edits t))
        (normalize-restore style s plain)
