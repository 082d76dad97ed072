-- ===== src/Truncate/Ends.antt =====
-- The two truncations of src/pi_agent/harness/truncate.py, and the ends of the text.
use pi_agent_python.Base.{
  ℕ, zero, suc, ◌+◌, ◌≡◌, refl, sym, ap, ◌∙◌, true, false, ◌&&◌, ◌⊎◌, inl, inr, List, [], ◌∷◌, ◌++◌,
  append_assoc, append-nil, reverse, reverse-append, reverse-reverse, arith, if◌then◌else◌,
  Bool-cases, ltb, leb,
}
use pi_agent_python.Base.Lists.{length, take}
use pi_agent_python.Truncate.{
  Text, TruncatedBy, Kept, newline, no_output, utf8_length, code_point_bytes,
  split_lines_for_counting, join_lines, is_empty, head_loop, truncate_head, suffix_loop,
  truncate_utf8_suffix, tail_loop, truncate_tail, first_line,
}
use pi_agent_python.Truncate.Lines.{line_cost, split_lines_for_counting_lem, join-take, join-append}
use pi_agent_python.Truncate.Bounds.{head_loop-take}
use pi_agent_python.Truncate.Bounds.Tail.{
  tail_loop_full, tail_loop_stop, tail_loop_go, put_first, partial_kept,
}

-- The text without the newline that the count of lines leaves out.
abbrev counted_text : Text → Text
counted_text content = join_lines (split_lines_for_counting content)

counted_prefix : (content : Text) → (rest : Text) × (content ≡ counted_text content ++ rest)
counted_prefix content = elim (split_lines_for_counting_lem content) [
  | inl same ↦ ([], sym same ∙ sym (append-nil _))
  | inr final ↦ (newline ∷ [], sym final)
]

head_output_prefix :
    (content : Text) (max_lines max_bytes : ℕ)
    → (rest : Text) × (counted_text content
        ≡ join_lines
            (head_loop max_bytes true
              (take max_lines (split_lines_for_counting content))
              no_output).output
          ++ rest)
head_output_prefix content max_lines max_bytes =
    let ls : List Text = split_lines_for_counting content in
    let (n, e) = head_loop-take max_bytes true (take max_lines ls) no_output in
    let (a, ea) = join-take max_lines ls in
    let (b, eb) = join-take n (take max_lines ls) in
    (b ++ a, ea ∙ ap (λ t. t ++ a) (eb ∙ ap (λ o. join_lines o ++ b) (sym e)) ∙ append_assoc _ b a)

-- `truncate_head` returns where the text begins: whole code points, nothing changed or left out
-- within.
pub truncate_head-prefix :
    (content : Text) (max_lines max_bytes : ℕ)
    → (rest : Text) × (content ≡ (truncate_head content max_lines max_bytes).content ++ rest)
unfolding truncate_head
truncate_head-prefix content max_lines max_bytes =
    let ls : List Text = split_lines_for_counting content in
    elim (Bool-cases (leb (length ls) max_lines && leb (utf8_length content) max_bytes)) [
      | inl whole ↦ ([], rw whole (sym (append-nil content)))
      | inr not ↦ elim (Bool-cases (ltb max_bytes (utf8_length (first_line ls)))) [
        | inl long ↦ (content, rw not (rw long refl))
        | inr short ↦
            let (a, ea) = counted_prefix content in
            let (b, eb) = head_output_prefix content max_lines max_bytes in
            (b ++ a, rw not (rw short (ea ∙ ap (λ t. t ++ a) eb ∙ append_assoc _ b a)))
      ]
    ]

suffix_stop :
    (m used c : ℕ) (cs selected : Text)
    → ltb m (used + code_point_bytes c) ≡ true
    → suffix_loop m used (c ∷ cs) selected ≡ selected
unfolding suffix_loop
suffix_stop m used c cs selected h = ground arith

suffix_go :
    (m used c : ℕ) (cs selected : Text)
    → ltb m (used + code_point_bytes c) ≡ false
    → suffix_loop m used (c ∷ cs) selected
      ≡ suffix_loop m (used + code_point_bytes c) cs (c ∷ selected)
unfolding suffix_loop
suffix_go m used c cs selected h = ground arith

suffix_loop-suffix :
    (m used : ℕ) (cs selected : Text)
    → (front : Text) × (reverse cs ++ selected ≡ front ++ suffix_loop m used cs selected)
suffix_loop-suffix m used [] selected = ([], unfold suffix_loop in refl)
suffix_loop-suffix m used (c ∷ cs) selected =
    elim (Bool-cases (ltb m (used + code_point_bytes c))) [
      | inl over ↦ (
        reverse (c ∷ cs),
        ap (λ t. reverse (c ∷ cs) ++ t) (sym (suffix_stop m used c cs selected over)),
      )
      | inr fits ↦
          let (front, e) = suffix_loop-suffix m (used + code_point_bytes c) cs (c ∷ selected) in
          (
            front,
            ap (λ t. t ++ selected) (reverse-append (c ∷ []) cs)
                ∙ append_assoc (reverse cs) (c ∷ []) selected
                ∙ e
                ∙ ap (λ t. front ++ t) (sym (suffix_go m used c cs selected fits)),
          )
    ]

truncate_utf8_suffix-suffix :
    (value : Text) (m : ℕ) → (front : Text) × (value ≡ front ++ truncate_utf8_suffix value m)
unfolding truncate_utf8_suffix
truncate_utf8_suffix-suffix value zero = (value, sym (append-nil value))
truncate_utf8_suffix-suffix value (suc n) =
    let (front, e) = suffix_loop-suffix (suc n) 0 (reverse value) [] in
    (front, sym (reverse-reverse value) ∙ sym (append-nil _) ∙ e)

no_lines : (ls : List Text) → is_empty ls ≡ true → ls ≡ []
no_lines [] h = refl
no_lines (l ∷ ls) h = cc

-- The two ways to stop at a line that does not fit.
stopped :
    (m : ℕ) (l : Text) (ls : List Text) (k : Kept)
    → (front : Text) × (join_lines (reverse (l ∷ ls) ++ k.output)
        ≡ front
          ++ join_lines
              (if is_empty k.output
                then partial_kept m l
                else record k { truncated_by = TruncatedBy.bytes }).output)
stopped m l ls k = elim (Bool-cases (is_empty k.output)) [
  | inl none_yet ↦
      let (a, ea) = join-append (reverse ls) (l ∷ []) in
      let (b, eb) = truncate_utf8_suffix-suffix l m in
      (
        a ++ b,
        rw none_yet (
            ap (λ o. join_lines (reverse (l ∷ ls) ++ o)) (no_lines k.output none_yet)
            ∙ ap join_lines (append-nil (reverse (l ∷ ls)) ∙ reverse-append (l ∷ []) ls)
            ∙ ea
            ∙ unfold join_lines in
              (ap (λ t. a ++ t) eb ∙ sym (append_assoc a b (truncate_utf8_suffix l m)))),
      )
  | inr some_yet ↦
      let (front, e) = join-append (reverse (l ∷ ls)) k.output in (front, rw some_yet e)
]

-- The lines not yet seen and those kept, joined, end with what the loop returns.
tail_loop-suffix :
    (max_lines m : ℕ) (ls : List Text) (k : Kept)
    → (front : Text) × (join_lines (reverse ls ++ k.output)
        ≡ front ++ join_lines (tail_loop max_lines m ls k).output)
tail_loop-suffix max_lines m [] k = ([], unfold tail_loop in refl)
tail_loop-suffix max_lines m (l ∷ ls) k =
    let (front, e) = join-append (reverse (l ∷ ls)) k.output in
    elim (Bool-cases (leb max_lines (length k.output))) [
      | inl full ↦ (
        front,
        e
            ∙ ap (λ r. front ++ join_lines (Kept.output r))
                (sym (tail_loop_full max_lines m l ls k full)),
      )
      | inr room ↦ elim (Bool-cases (ltb m (k.output_bytes + line_cost (is_empty k.output) l))) [
        | inl over ↦
            let (front', e') = stopped m l ls k in
            (
              front',
              e'
                  ∙ ap (λ r. front' ++ join_lines (Kept.output r))
                      (sym (tail_loop_stop max_lines m l ls k room over)),
            )
        | inr fits ↦
            let (front', e') = tail_loop-suffix max_lines m ls (put_first l k) in
            (
              front',
              ap join_lines (
                    ap (λ t. t ++ k.output) (reverse-append (l ∷ []) ls)
                    ∙ append_assoc (reverse ls) (l ∷ []) k.output)
                  ∙ e'
                  ∙ ap (λ r. front' ++ join_lines (Kept.output r))
                      (sym (tail_loop_go max_lines m l ls k room fits)),
            )
      ]
    ]

-- `truncate_tail` returns where the text ends, up to one final newline.
pub truncate_tail-suffix :
    (content : Text) (max_lines max_bytes : ℕ)
    → (front : Text) × ((content ≡ front ++ (truncate_tail content max_lines max_bytes).content)
        ⊎ (content
            ≡ (front ++ (truncate_tail content max_lines max_bytes).content) ++ newline ∷ []))
unfolding truncate_tail
truncate_tail-suffix content max_lines max_bytes =
    let ls : List Text = split_lines_for_counting content in
    let (front, e) = tail_loop-suffix max_lines max_bytes (reverse ls) no_output in
    let whole_lines : join_lines ls
        ≡ front ++ join_lines (tail_loop max_lines max_bytes (reverse ls) no_output).output =
      ap join_lines (sym (reverse-reverse ls) ∙ sym (append-nil _)) ∙ e in
    elim (Bool-cases (leb (length ls) max_lines && leb (utf8_length content) max_bytes)) [
      | inl whole ↦ ([], inl (rw whole refl))
      | inr not ↦ (
        front,
        elim (split_lines_for_counting_lem content) [
          | inl same ↦ inl (rw not (sym same ∙ whole_lines))
          | inr final ↦ inr (rw not (sym final ∙ ap (λ t. t ++ newline ∷ []) whole_lines))
        ],
      )
    ]
