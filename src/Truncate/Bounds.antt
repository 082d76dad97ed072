-- ===== src/Truncate/Bounds.antt =====
-- The limits of `truncate_head`, and what the two truncations share (src/pi_agent/harness/truncate.py).
pub mod Tail
use pi_agent_python.Base.{
  ℕ, zero, suc, ◌+◌, ◌≤◌, ◌<◌, ◌≡◌, refl, sym, ap, ◌∙◌, Bool, true, false, ◌&&◌, ◌⊎◌, inl, inr,
  List, [], ◌∷◌, ◌++◌, append_assoc, append-nil, arith, if◌then◌else◌, Bool-cases, ltb, leb,
  reverse,
}
use pi_agent_python.Base.Lists.{length, length-append, length-take, take}
use pi_agent_python.Truncate.{
  Text, TruncationResult, TruncatedBy, Kept, no_output, utf8_length, code_point_bytes, split_lines,
  split_lines_for_counting, join_lines, is_empty, head_loop, truncate_head, suffix_loop,
  truncate_utf8_suffix, tail_loop, truncate_tail, truncated_result, unchanged, first_line,
}
use pi_agent_python.Truncate.Lines.{
  line_cost, utf8_length-join-snoc, utf8_length-join-cons, breaks_within, breaks_within-append,
  breaks_within-take, breaks_within-split_lines_for_counting, length-split_lines_for_counting,
  length-split_lines-join_lines,
}

-- The loops count the bytes of what they have kept, and keep within the limit.
pub record Fits (max_bytes : ℕ) (k : Kept) : Type 0 where
  pub counted : k.output_bytes ≡ utf8_length (join_lines k.output)
  pub within : k.output_bytes ≤ max_bytes

is_empty-snoc : (ls : List Text) (l : Text) → is_empty (ls ++ l ∷ []) ≡ false
is_empty-snoc [] l = refl
is_empty-snoc (x ∷ ls) l = refl

-- The two ways on from a line of `head_loop`.
abbrev pub grown : Bool → Text → Kept → Kept
grown first l k = record k {
  output = k.output ++ l ∷ [];
  output_bytes = k.output_bytes + line_cost first l;
}

pub head_loop_stop :
    (m : ℕ) (first : Bool) (l : Text) (ls : List Text) (k : Kept)
    → ltb m (k.output_bytes + line_cost first l) ≡ true
    → head_loop m first (l ∷ ls) k ≡ record k { truncated_by = TruncatedBy.bytes }
unfolding head_loop
head_loop_stop m first l ls k h = ground arith

pub head_loop_go :
    (m : ℕ) (first : Bool) (l : Text) (ls : List Text) (k : Kept)
    → ltb m (k.output_bytes + line_cost first l) ≡ false
    → head_loop m first (l ∷ ls) k ≡ head_loop m false ls (grown first l k)
unfolding head_loop
head_loop_go m first l ls k h = ground arith

Fits-grown :
    (m : ℕ) (first : Bool) (l : Text) (k : Kept)
    → first ≡ is_empty k.output
    → ltb m (k.output_bytes + line_cost first l) ≡ false
    → Fits m k
    → Fits m (grown first l k)
Fits-grown m first l k e fits f = record {
  counted =
      ap (λ b. b + line_cost first l) f.counted
      ∙ ap (λ b. utf8_length (join_lines k.output) + line_cost b l) e
      ∙ sym (utf8_length-join-snoc k.output l);
  within = ground arith;
}

pub head_loop-Fits :
    (m : ℕ) (first : Bool) (ls : List Text) (k : Kept)
    → first ≡ is_empty k.output
    → Fits m k
    → Fits m (head_loop m first ls k)
head_loop-Fits m first [] k e f = unfold head_loop in f
head_loop-Fits m first (l ∷ ls) k e f =
    elim (Bool-cases (ltb m (k.output_bytes + line_cost first l))) [
      | inl over ↦
          rw (head_loop_stop m first l ls k over)
            (record { counted = f.counted; within = f.within })
      | inr fits ↦ rw (head_loop_go m first l ls k fits) (
          head_loop-Fits m false ls (grown first l k) (sym (is_empty-snoc k.output l))
            (Fits-grown m first l k e fits f))
    ]

-- What `head_loop` keeps of its lines: the first `n` of them.
pub head_loop-take :
    (m : ℕ) (first : Bool) (ls : List Text) (k : Kept)
    → (n : ℕ) × ((head_loop m first ls k).output ≡ k.output ++ take n ls)
head_loop-take m first [] k = (0, unfold head_loop in sym (append-nil k.output))
head_loop-take m first (l ∷ ls) k = elim (Bool-cases (ltb m (k.output_bytes + line_cost first l))) [
  | inl over ↦ (0, ap Kept.output (head_loop_stop m first l ls k over) ∙ sym (append-nil k.output))
  | inr fits ↦
      let (n, e) = head_loop-take m false ls (grown first l k) in
      (
        suc n,
        ap Kept.output (head_loop_go m first l ls k fits)
            ∙ e
            ∙ append_assoc k.output (l ∷ []) (take n ls),
      )
]

length-head_loop :
    (m : ℕ) (first : Bool) (ls : List Text) (k : Kept)
    → length (head_loop m first ls k).output ≤ length k.output + length ls
length-head_loop m first ls k =
    let (n, e) = head_loop-take m first ls k in
    omega (arith, ap length e, length-append k.output (take n ls), length-take n ls)

breaks_within-head_loop :
    (m : ℕ) (first : Bool) (ls : List Text) (k : Kept)
    → breaks_within k.output ≡ 0
    → breaks_within ls ≡ 0
    → breaks_within (head_loop m first ls k).output ≡ 0
breaks_within-head_loop m first ls k kept clean =
    let (n, e) = head_loop-take m first ls k in
    omega (
      arith,
      ap breaks_within e,
      breaks_within-append k.output (take n ls),
      breaks_within-take n ls,
    )

-- The text returned has at most `max_lines` lines and `max_bytes` bytes, and both numbers that are
-- reported are those of this text.
pub record IsWithin (r : TruncationResult) (max_lines max_bytes : ℕ) : Type 0 where
  pub held : length (split_lines_for_counting r.content) ≤ max_lines
  pub reported :
      (r.output_lines ≡ length (split_lines_for_counting r.content))
      ⊎ (r.output_lines ≡ length (split_lines r.content))
  pub lines : r.output_lines ≤ max_lines
  pub bytes : r.output_bytes ≤ max_bytes
  pub counted : r.output_bytes ≡ utf8_length r.content

pub unchanged-IsWithin :
    (content : Text) (max_lines max_bytes : ℕ)
    → (leb (length (split_lines_for_counting content)) max_lines
        && leb (utf8_length content) max_bytes)
      ≡ true
    → IsWithin
        (unchanged content
          (length (split_lines_for_counting content))
          (utf8_length content)
          max_lines
          max_bytes)
        max_lines
        max_bytes
unchanged-IsWithin content max_lines max_bytes h = record {
  held = ground arith;
  reported = inl refl;
  lines = ground arith;
  bytes = ground arith;
  counted = refl;
}

-- The lines of a text that the kept lines make.
record Holds (max_lines n : ℕ) (content : Text) : Type 0 where
  held : length (split_lines_for_counting content) ≤ max_lines
  reported : (n ≡ length (split_lines_for_counting content)) ⊎ (n ≡ length (split_lines content))

joined-Holds :
    (max_lines : ℕ) (ls : List Text)
    → breaks_within ls ≡ 0
    → length ls ≤ max_lines
    → Holds max_lines (length ls) (join_lines ls)
joined-Holds max_lines [] clean few =
    unfold join_lines split_lines_for_counting in (record { held = few; reported = inl refl })
joined-Holds max_lines (l ∷ ls) clean few =
    let whole = length-split_lines-join_lines l ls clean in
    record {
      held = omega (arith, whole, length-split_lines_for_counting (join_lines (l ∷ ls)));
      reported = inr (sym whole);
    }

pub kept-IsWithin :
    (total_lines total_bytes max_lines max_bytes : ℕ) (k : Kept)
    → Fits max_bytes k
    → breaks_within k.output ≡ 0
    → length k.output ≤ max_lines
    → IsWithin (truncated_result total_lines total_bytes max_lines max_bytes k) max_lines max_bytes
kept-IsWithin tl tb max_lines max_bytes k f clean n =
    let holds : Holds max_lines (length k.output) (join_lines k.output) =
      joined-Holds max_lines k.output clean n in
    record {
      held = holds.held;
      reported = holds.reported;
      lines = n;
      bytes = omega (arith, f.counted, f.within);
      counted = refl;
    }

head_kept-IsWithin :
    (content : Text) (tl tb max_lines max_bytes : ℕ)
    → IsWithin
        (truncated_result tl tb max_lines max_bytes
          (head_loop max_bytes true (take max_lines (split_lines_for_counting content)) no_output))
        max_lines
        max_bytes
head_kept-IsWithin content tl tb max_lines max_bytes =
    let ls : List Text = split_lines_for_counting content in
    let empty : Fits max_bytes no_output = record {
      counted = unfold utf8_length join_lines in refl;
      within = omega arith;
    } in
    kept-IsWithin tl tb max_lines max_bytes (head_loop max_bytes true (take max_lines ls) no_output)
      (head_loop-Fits max_bytes true (take max_lines ls) no_output refl empty)
      (breaks_within-head_loop max_bytes true (take max_lines ls) no_output refl (
        omega
          (arith, breaks_within-take max_lines ls, breaks_within-split_lines_for_counting content)))
      (omega (
        arith,
        length-head_loop max_bytes true (take max_lines ls) no_output,
        length-take max_lines ls,
      ))

-- Whatever the text and the limits, the text that `truncate_head` returns has at most `max_lines` lines
-- and at most `max_bytes` bytes; `output_bytes` is its number of bytes, and `output_lines` its number
-- of lines: as the code counts them, where a newline at the end opens no line, or as `split` does.
pub truncate_head-IsWithin :
    (content : Text) (max_lines max_bytes : ℕ)
    → IsWithin (truncate_head content max_lines max_bytes) max_lines max_bytes
unfolding truncate_head
truncate_head-IsWithin content max_lines max_bytes =
    let ls : List Text = split_lines_for_counting content in
    elim (Bool-cases (leb (length ls) max_lines && leb (utf8_length content) max_bytes)) [
      | inl whole ↦ rw whole (unchanged-IsWithin content max_lines max_bytes whole)
      | inr not ↦ rw not (elim (Bool-cases (ltb max_bytes (utf8_length (first_line ls)))) [
        | inl long ↦ rw long (record {
          held = unfold split_lines_for_counting in omega arith;
          reported = inl (unfold split_lines_for_counting in refl);
          lines = omega arith;
          bytes = omega arith;
          counted = unfold utf8_length in refl;
        })
        | inr short ↦
            rw short
              (head_kept-IsWithin content (length ls) (utf8_length content) max_lines max_bytes)
      ])
    ]
