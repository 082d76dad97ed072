-- ===== src/Truncate/Bounds/Tail.antt =====
-- The limits of `truncate_tail` (src/pi_agent/harness/truncate.py).
use pi_agent_python.Base.{
  ℕ, zero, suc, ◌+◌, ◌≤◌, ◌<◌, ◌≡◌, refl, sym, ap, ◌∙◌, true, false, ◌&&◌, inl, inr, List, [], ◌∷◌,
  arith, if◌then◌else◌, Bool-cases, ltb, leb, reverse,
}
use pi_agent_python.Base.Lists.{length}
use pi_agent_python.Truncate.{
  Text, TruncatedBy, Kept, no_output, utf8_length, code_point_bytes, split_lines_for_counting,
  join_lines, is_empty, suffix_loop, truncate_utf8_suffix, tail_loop, truncate_tail,
}
use pi_agent_python.Truncate.Lines.{
  line_cost, utf8_length-join-cons, breaks, breaks_within, breaks-reverse, breaks_within-reverse,
  breaks_within-split_lines_for_counting,
}
use pi_agent_python.Truncate.Bounds.{Fits, IsWithin, kept-IsWithin, unchanged-IsWithin}

suffix_loop-le :
    (m used : ℕ) (cs selected : Text)
    → used ≡ utf8_length selected
    → used ≤ m
    → utf8_length (suffix_loop m used cs selected) ≤ m
unfolding suffix_loop utf8_length
suffix_loop-le m used [] selected e h = omega arith
suffix_loop-le m used (c ∷ cs) selected e h =
    ground (arith, suffix_loop-le m (used + code_point_bytes c) cs (c ∷ selected))

pub truncate_utf8_suffix-le :
    (value : Text) (m : ℕ) → utf8_length (truncate_utf8_suffix value m) ≤ m
unfolding truncate_utf8_suffix utf8_length
truncate_utf8_suffix-le value zero = omega arith
truncate_utf8_suffix-le value (suc n) =
    suffix_loop-le (suc n) 0 (reverse value) [] refl (omega arith)

breaks-suffix_loop :
    (m used : ℕ) (cs selected : Text)
    → breaks (suffix_loop m used cs selected) ≤ breaks cs + breaks selected
unfolding suffix_loop
breaks-suffix_loop m used [] selected = omega arith
breaks-suffix_loop m used (c ∷ cs) selected =
    ground (arith, breaks-suffix_loop m (used + code_point_bytes c) cs (c ∷ selected))

breaks-truncate_utf8_suffix :
    (value : Text) (m : ℕ) → breaks (truncate_utf8_suffix value m) ≤ breaks value
unfolding truncate_utf8_suffix
breaks-truncate_utf8_suffix value zero = omega arith
breaks-truncate_utf8_suffix value (suc n) =
    omega (arith, breaks-suffix_loop (suc n) 0 (reverse value) [], breaks-reverse value)

-- The ways on from a line of `tail_loop`.
abbrev pub put_first : Text → Kept → Kept
put_first l k = record k {
  output = l ∷ k.output;
  output_bytes = k.output_bytes + line_cost (is_empty k.output) l;
}

abbrev pub partial_kept : ℕ → Text → Kept
partial_kept m l = record {
  output = truncate_utf8_suffix l m ∷ [];
  output_bytes = utf8_length (truncate_utf8_suffix l m);
  truncated_by = TruncatedBy.bytes;
  last_line_partial = true;
}

module _ (max_lines m : ℕ) (l : Text) (ls : List Text) (k : Kept) where
  pub tail_loop_full : leb max_lines (length k.output) ≡ true → tail_loop max_lines m (l ∷ ls) k ≡ k
  unfolding tail_loop
  tail_loop_full h = ground arith

  pub tail_loop_stop :
      leb max_lines (length k.output) ≡ false
      → ltb m (k.output_bytes + line_cost (is_empty k.output) l) ≡ true
      → tail_loop max_lines m (l ∷ ls) k ≡ (
          if is_empty k.output
          then partial_kept m l
          else record k { truncated_by = TruncatedBy.bytes })
  unfolding tail_loop
  tail_loop_stop h over = ground arith

  pub tail_loop_go :
      leb max_lines (length k.output) ≡ false
      → ltb m (k.output_bytes + line_cost (is_empty k.output) l) ≡ false
      → tail_loop max_lines m (l ∷ ls) k ≡ tail_loop max_lines m ls (put_first l k)
  unfolding tail_loop
  tail_loop_go h fits = ground arith

record TailFits (max_lines m : ℕ) (k : Kept) : Type 0 where
  fits : Fits m k
  few : length k.output ≤ max_lines
  clean : breaks_within k.output ≡ 0

stopped-TailFits :
    (max_lines m : ℕ) (l : Text) (k : Kept)
    → 0 < max_lines
    → breaks l ≡ 0
    → TailFits max_lines m k
    → TailFits max_lines m (
        if is_empty k.output
        then partial_kept m l
        else record k { truncated_by = TruncatedBy.bytes })
stopped-TailFits max_lines m l k pos whole f = elim (Bool-cases (is_empty k.output)) [
  | inl none_yet ↦ rw none_yet (record {
    fits = record { counted = unfold join_lines in refl; within = truncate_utf8_suffix-le l m };
    few = omega arith;
    clean = omega (arith, breaks-truncate_utf8_suffix l m);
  })
  | inr some_yet ↦ rw some_yet (record {
    fits = record { counted = f.fits.counted; within = f.fits.within };
    few = f.few;
    clean = f.clean;
  })
]

tail_loop-TailFits :
    (max_lines m : ℕ) (ls : List Text) (k : Kept)
    → breaks_within ls ≡ 0
    → TailFits max_lines m k
    → TailFits max_lines m (tail_loop max_lines m ls k)
tail_loop-TailFits max_lines m [] k whole f = unfold tail_loop in f
tail_loop-TailFits max_lines m (l ∷ ls) k whole f =
    elim (Bool-cases (leb max_lines (length k.output))) [
      | inl full ↦ rw (tail_loop_full max_lines m l ls k full) f
      | inr room ↦ elim (Bool-cases (ltb m (k.output_bytes + line_cost (is_empty k.output) l))) [
        | inl over ↦
            rw (tail_loop_stop max_lines m l ls k room over)
              (stopped-TailFits max_lines m l k (ground arith) (omega arith) f)
        | inr ok ↦ rw (tail_loop_go max_lines m l ls k room ok) (
            tail_loop-TailFits max_lines m ls (put_first l k) (omega arith) (record {
              fits = record {
                counted =
                    ap (λ b. b + line_cost (is_empty k.output) l) f.fits.counted
                    ∙ sym (utf8_length-join-cons l k.output);
                within = ground arith;
              };
              few = ground arith;
              clean = omega (arith, f.clean);
            }))
      ]
    ]

-- Whatever the text and the limits, the text that `truncate_tail` returns has at most `max_lines` lines
-- and at most `max_bytes` bytes; `output_bytes` is its number of bytes, and `output_lines` its number
-- of lines: as the code counts them, where a newline at the end opens no line, or as `split` does.
pub truncate_tail-IsWithin :
    (content : Text) (max_lines max_bytes : ℕ)
    → IsWithin (truncate_tail content max_lines max_bytes) max_lines max_bytes
unfolding truncate_tail
truncate_tail-IsWithin content max_lines max_bytes =
    let ls : List Text = split_lines_for_counting content in
    let empty : TailFits max_lines max_bytes no_output = record {
      fits = record { counted = unfold utf8_length join_lines in refl; within = omega arith };
      few = omega arith;
      clean = refl;
    } in
    let kept : TailFits max_lines max_bytes (tail_loop max_lines max_bytes (reverse ls) no_output) =
      tail_loop-TailFits max_lines max_bytes (reverse ls) no_output
        (breaks_within-reverse ls ∙ breaks_within-split_lines_for_counting content) empty in
    elim (Bool-cases (leb (length ls) max_lines && leb (utf8_length content) max_bytes)) [
      | inl whole ↦ rw whole (unchanged-IsWithin content max_lines max_bytes whole)
      | inr not ↦ rw not (
          kept-IsWithin (length ls) (utf8_length content) max_lines max_bytes
            (tail_loop max_lines max_bytes (reverse ls) no_output) kept.fits kept.clean kept.few)
    ]
