-- ===== src/Truncate/Lines.antt =====
-- Lines and bytes in src/pi_agent/harness/truncate.py: `split`, `join` and the UTF-8 length.
use pi_agent_python.Base.{
  ℕ, zero, suc, ◌+◌, ◌≡◌, refl, sym, ap, ◌∙◌, ◌≤◌, ◌<◌, reverse, reverse-append, Bool, true, false,
  ◌⊎◌, inl, inr, List, [], ◌∷◌, ◌++◌, append_assoc, append-nil, arith, if◌then◌else◌, Bool-cases,
  ◌==◌, ==_iff,
}
use pi_agent_python.Base.Lists.{take, length}
use pi_agent_python.Truncate.{
  Text, newline, utf8_length, split_lines, pop_last, cons_line, ends_with_newline,
  split_lines_for_counting, join_lines, is_empty,
}

pub utf8_length-append : (a b : Text) → utf8_length (a ++ b) ≡ utf8_length a + utf8_length b
unfolding utf8_length
utf8_length-append [] b = omega arith
utf8_length-append (c ∷ a) b = omega (arith, utf8_length-append a b)

-- The bytes that one more line costs: itself, and the newline before it unless it is the first.
abbrev pub line_cost : Bool → Text → ℕ
line_cost first l = utf8_length l + (if first then 0 else 1)

pub utf8_length-join-snoc :
    (ls : List Text) (l : Text)
    → utf8_length (join_lines (ls ++ l ∷ []))
      ≡ utf8_length (join_lines ls) + line_cost (is_empty ls) l
unfolding join_lines utf8_length
utf8_length-join-snoc [] l = omega arith
utf8_length-join-snoc (x ∷ []) l = omega (arith, utf8_length-append x (newline ∷ l))
utf8_length-join-snoc (x ∷ y ∷ ls) l = omega (
  arith,
  utf8_length-append x (newline ∷ join_lines (y ∷ (ls ++ l ∷ []))),
  utf8_length-append x (newline ∷ join_lines (y ∷ ls)),
  utf8_length-join-snoc (y ∷ ls) l,
)

pub utf8_length-join-cons :
    (l : Text) (ls : List Text)
    → utf8_length (join_lines (l ∷ ls)) ≡ utf8_length (join_lines ls) + line_cost (is_empty ls) l
unfolding join_lines utf8_length
utf8_length-join-cons l [] = omega arith
utf8_length-join-cons l (x ∷ ls) =
    omega (arith, utf8_length-append l (newline ∷ join_lines (x ∷ ls)))

-- The newlines of a text, and those inside of lines.
abbrev pub breaks : Text → ℕ
breaks [] = 0
breaks (c ∷ s) = (if c == newline then 1 else 0) + breaks s

abbrev pub breaks_within : List Text → ℕ
breaks_within [] = 0
breaks_within (l ∷ ls) = breaks l + breaks_within ls

pub breaks-append : (a b : Text) → breaks (a ++ b) ≡ breaks a + breaks b
breaks-append [] b = omega arith
breaks-append (c ∷ a) b = omega (arith, breaks-append a b)

pub breaks-reverse : (s : Text) → breaks (reverse s) ≡ breaks s
breaks-reverse [] = refl
breaks-reverse (c ∷ s) =
    ap breaks (reverse-append (c ∷ []) s)
    ∙ omega (arith, breaks-append (reverse s) (c ∷ []), breaks-reverse s)

pub breaks_within-append :
    (a b : List Text) → breaks_within (a ++ b) ≡ breaks_within a + breaks_within b
breaks_within-append [] b = omega arith
breaks_within-append (l ∷ a) b = omega (arith, breaks_within-append a b)

pub breaks_within-reverse : (ls : List Text) → breaks_within (reverse ls) ≡ breaks_within ls
breaks_within-reverse [] = refl
breaks_within-reverse (l ∷ ls) =
    ap breaks_within (reverse-append (l ∷ []) ls)
    ∙ omega (arith, breaks_within-append (reverse ls) (l ∷ []), breaks_within-reverse ls)

pub breaks_within-take : (n : ℕ) (ls : List Text) → breaks_within (take n ls) ≤ breaks_within ls
breaks_within-take zero ls = omega arith
breaks_within-take (suc n) [] = omega arith
breaks_within-take (suc n) (l ∷ ls) = omega (arith, breaks_within-take n ls)

-- There is one line more than there are newlines.
length-cons_line : (c : ℕ) (ls : List Text) → 0 < length ls → length (cons_line c ls) ≡ length ls
length-cons_line c [] h = absurd (omega arith)
length-cons_line c (l ∷ ls) h = refl

pub length-split_lines : (s : Text) → length (split_lines s) ≡ suc (breaks s)
unfolding split_lines
length-split_lines [] = refl
length-split_lines (c ∷ s) = elim (Bool-cases (c == newline)) [
  | inl nl ↦ rw nl (omega (arith, length-split_lines s))
  | inr other ↦
      let rest = length-split_lines s in
      rw other (length-cons_line c (split_lines s) (omega arith) ∙ omega arith)
]

-- No newline is left inside of a line.
breaks_within-cons_line :
    (c : ℕ) (ls : List Text)
    → (c == newline) ≡ false
    → breaks_within (cons_line c ls) ≡ breaks_within ls
breaks_within-cons_line c [] h = ground arith
breaks_within-cons_line c (l ∷ ls) h = ground arith

breaks_within-split_lines : (s : Text) → breaks_within (split_lines s) ≡ 0
unfolding split_lines
breaks_within-split_lines [] = refl
breaks_within-split_lines (c ∷ s) = elim (Bool-cases (c == newline)) [
  | inl nl ↦ rw nl (omega (arith, breaks_within-split_lines s))
  | inr other ↦
      rw other (breaks_within-cons_line c (split_lines s) other ∙ breaks_within-split_lines s)
]

breaks_within-pop_last : (ls : List Text) → breaks_within (pop_last ls) ≤ breaks_within ls
breaks_within-pop_last [] = omega arith
breaks_within-pop_last (l ∷ []) = omega arith
breaks_within-pop_last (l ∷ k ∷ ls) = omega (arith, breaks_within-pop_last (k ∷ ls))

length-pop_last : (ls : List Text) → length (pop_last ls) ≤ length ls
length-pop_last [] = omega arith
length-pop_last (l ∷ []) = omega arith
length-pop_last (l ∷ k ∷ ls) = omega (arith, length-pop_last (k ∷ ls))

pub breaks_within-split_lines_for_counting :
    (s : Text) → breaks_within (split_lines_for_counting s) ≡ 0
unfolding split_lines_for_counting
breaks_within-split_lines_for_counting [] = refl
breaks_within-split_lines_for_counting (c ∷ s) =
    let whole = breaks_within-split_lines (c ∷ s) in
    let less = breaks_within-pop_last (split_lines (c ∷ s)) in ground (arith, whole, less)

pub length-split_lines_for_counting :
    (s : Text) → length (split_lines_for_counting s) ≤ length (split_lines s)
unfolding split_lines_for_counting
length-split_lines_for_counting [] = omega arith
length-split_lines_for_counting (c ∷ s) = ground (arith, length-pop_last (split_lines (c ∷ s)))

-- Lines without newlines, joined, are so many lines again.
breaks-join_lines :
    (l : Text) (ls : List Text) → breaks (join_lines (l ∷ ls)) ≡ breaks_within (l ∷ ls) + length ls
unfolding join_lines
breaks-join_lines l [] = omega arith
breaks-join_lines l (k ∷ ls) =
    omega (arith, breaks-append l (newline ∷ join_lines (k ∷ ls)), breaks-join_lines k ls)

pub length-split_lines-join_lines :
    (l : Text) (ls : List Text)
    → breaks_within (l ∷ ls) ≡ 0
    → length (split_lines (join_lines (l ∷ ls))) ≡ length (l ∷ ls)
length-split_lines-join_lines l ls h =
    omega (arith, length-split_lines (join_lines (l ∷ ls)), breaks-join_lines l ls)

split_lines-cons : (s : Text) → (l : Text) × (ls : List Text) × (split_lines s ≡ l ∷ ls)
unfolding split_lines
split_lines-cons [] = ([], [], refl)
split_lines-cons (c ∷ s) = elim (Bool-cases (c == newline)) [
  | inl nl ↦ ([], split_lines s, ground arith)
  | inr other ↦ let (l, ls, e) = split_lines-cons s in (c ∷ l, ls, ground arith)
]

join_cons :
    (c : ℕ) (l : Text) (ls : List Text) → join_lines ((c ∷ l) ∷ ls) ≡ c ∷ join_lines (l ∷ ls)
unfolding join_lines
join_cons c l [] = refl
join_cons c l (x ∷ ls) = refl

join_more :
    (c : ℕ) (s l : Text) (ls : List Text)
    → split_lines s ≡ l ∷ ls
    → join_lines (split_lines s) ≡ s
    → join_lines (split_lines (c ∷ s)) ≡ c ∷ s
unfolding split_lines join_lines
join_more c s l ls e ih = elim (Bool-cases (c == newline)) [
  | inl nl ↦ ground (arith, ==_iff c newline)
  | inr other ↦ ground (arith, join_cons c l ls)
]

-- Splitting at the newlines and joining with newlines gives the text back.
join_lines-split_lines : (s : Text) → join_lines (split_lines s) ≡ s
unfolding join_lines split_lines
join_lines-split_lines [] = refl
join_lines-split_lines (c ∷ s) =
    let (l, ls, e) = split_lines-cons s in join_more c s l ls e (join_lines-split_lines s)

-- Of a text that ends in a newline, the last line is empty and is not the only one.
split_lines_last :
    (s : Text)
    → ends_with_newline s ≡ true
    → (ls : List Text) × (l : Text) × (split_lines s ≡ l ∷ (ls ++ [] ∷ []))
unfolding split_lines
split_lines_last [] h = cc
split_lines_last (c ∷ []) h = ([], [], ground arith)
split_lines_last (c ∷ d ∷ s) h =
    let (ls, l, e) = split_lines_last (d ∷ s) h in
    elim (Bool-cases (c == newline)) [
      | inl nl ↦ (l ∷ ls, [], ground arith)
      | inr other ↦ (ls, c ∷ l, ground arith)
    ]

pop_last-snoc : (l : Text) (ls : List Text) (x : Text) → pop_last (l ∷ (ls ++ x ∷ [])) ≡ l ∷ ls
pop_last-snoc l [] x = refl
pop_last-snoc l (y ∷ ls) x = ap (λ r. l ∷ r) (pop_last-snoc y ls x)

join-empty_last :
    (l : Text) (ls : List Text)
    → join_lines (l ∷ (ls ++ [] ∷ [])) ≡ join_lines (l ∷ ls) ++ newline ∷ []
unfolding join_lines
join-empty_last l [] = refl
join-empty_last l (x ∷ ls) =
    ap (λ r. l ++ newline ∷ r) (join-empty_last x ls)
    ∙ sym (append_assoc l (newline ∷ join_lines (x ∷ ls)) (newline ∷ []))

-- The counted lines, joined, are the text up to one final newline.
pub split_lines_for_counting_lem :
    (s : Text)
    → (join_lines (split_lines_for_counting s) ≡ s)
      ⊎ (join_lines (split_lines_for_counting s) ++ newline ∷ [] ≡ s)
unfolding split_lines_for_counting
split_lines_for_counting_lem [] = inl (unfold join_lines in refl)
split_lines_for_counting_lem (c ∷ s) = elim (Bool-cases (ends_with_newline (c ∷ s))) [
  | inl ends ↦
      let (ls, l, e) = split_lines_last (c ∷ s) ends in
      inr (
        rw ends (
          ap (λ r. join_lines (pop_last r) ++ newline ∷ []) e
          ∙ ap (λ r. join_lines r ++ newline ∷ []) (pop_last-snoc l ls [])
          ∙ sym (join-empty_last l ls)
          ∙ ap join_lines (sym e)
          ∙ join_lines-split_lines (c ∷ s)))
  | inr not ↦ inl (rw not (join_lines-split_lines (c ∷ s)))
]

-- The first lines, joined, are where the text begins; the last ones, where it ends.
pub join-take :
    (n : ℕ) (ls : List Text) → (rest : Text) × (join_lines ls ≡ join_lines (take n ls) ++ rest)
unfolding join_lines
join-take zero ls = (join_lines ls, refl)
join-take (suc n) [] = ([], refl)
join-take (suc n) (l ∷ []) = ([], take_one n l)
  where
    take_one : (n : ℕ) (l : Text) → l ≡ join_lines (l ∷ take n []) ++ []
    take_one zero l = sym (append-nil l)
    take_one (suc n) l = sym (append-nil l)
join-take (suc zero) (l ∷ x ∷ ls) = (newline ∷ join_lines (x ∷ ls), refl)
join-take (suc (suc n)) (l ∷ x ∷ ls) =
    let (rest, e) = join-take (suc n) (x ∷ ls) in
    (
      rest,
      ap (λ r. l ++ newline ∷ r) e
          ∙ sym (append_assoc l (newline ∷ join_lines (x ∷ take n ls)) rest),
    )

pub join-append : (a b : List Text) → (front : Text) × (join_lines (a ++ b) ≡ front ++ join_lines b)
unfolding join_lines
join-append [] b = ([], refl)
join-append (l ∷ []) [] = (l, sym (append-nil l))
join-append (l ∷ []) (x ∷ b) =
    (l ++ newline ∷ [], sym (append_assoc l (newline ∷ []) (join_lines (x ∷ b))))
join-append (l ∷ x ∷ a) b =
    let (front, e) = join-append (x ∷ a) b in
    (
      l ++ newline ∷ front,
      ap (λ r. l ++ newline ∷ r) e ∙ sym (append_assoc l (newline ∷ front) (join_lines b)),
    )
