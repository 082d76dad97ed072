-- ===== src/Truncate.antt =====
-- src/pi_agent/harness/truncate.py: cutting tool output by lines and by bytes. A text is the list of
-- its code points (Python's `str`). Limits are natural numbers, so `_validate_limits` never raises.
pub mod Lines
pub mod Bounds
pub mod Ends
use Prim.Native.Nat.{max}
use pi_agent_python.Base.{
  ℕ, zero, suc, ◌+◌, ◌*◌, String, Bool, true, false, not, ◌&&◌, ◌||◌, Option, none, some, List, [],
  ◌∷◌, ◌++◌, reverse, if◌then◌else◌, ltb, leb, ◌==◌,
}
use pi_agent_python.Base.Lists.{length, take, last?}

abbrev pub Text : Type 0
Text = List ℕ

abbrev pub default_max_lines : ℕ
default_max_lines = 2000

abbrev pub default_max_bytes : ℕ
default_max_bytes = 50 * 1024

abbrev pub grep_max_line_length : ℕ
grep_max_line_length = 500

pub data TruncatedBy : Type 0 where
  lines bytes : TruncatedBy

pub record TruncationResult : Type 0 where
  pub content : Text
  pub truncated : Bool
  pub truncated_by : Option TruncatedBy
  pub total_lines : ℕ
  pub total_bytes : ℕ
  pub output_lines : ℕ
  pub output_bytes : ℕ
  pub last_line_partial : Bool
  pub first_line_exceeds_limit : Bool
  pub max_lines : ℕ
  pub max_bytes : ℕ

-- The bytes of one code point under UTF-8; `errors="replace"` makes a lone surrogate the byte `?`.
abbrev pub code_point_bytes : ℕ → ℕ
code_point_bytes c =
    if ltb c 0x80
    then 1
    else if ltb c 0x800
    then 2
    else if leb 0xd800 c && leb c 0xdfff
    then 1
    else if ltb c 0x10000
    then 3
    else 4

-- `_utf8_length`
unfoldable pub utf8_length : Text → ℕ
utf8_length [] = 0
utf8_length (c ∷ s) = code_point_bytes c + utf8_length s

abbrev pub newline : ℕ
newline = 10

-- `content.split("\n")`: never empty. `line` is what stands before the next newline, reversed.
abbrev pub cons_line : ℕ → List Text → List Text
cons_line c [] = (c ∷ []) ∷ []
cons_line c (l ∷ ls) = (c ∷ l) ∷ ls

unfoldable pub split_lines : Text → List Text
split_lines [] = [] ∷ []
split_lines (c ∷ s) =
    let rest = split_lines s in if c == newline then [] ∷ rest else cons_line c rest

-- `lines.pop()` when the content ends with a newline
abbrev pub pop_last : List Text → List Text
pop_last [] = []
pop_last (l ∷ []) = []
pop_last (l ∷ k ∷ ls) = l ∷ pop_last (k ∷ ls)

abbrev pub ends_with_newline : Text → Bool
ends_with_newline s = elim (last? s) [ none ↦ false | some c ↦ c == newline ]

-- `_split_lines_for_counting`
unfoldable pub split_lines_for_counting : Text → List Text
unfolding split_lines
split_lines_for_counting [] = []
split_lines_for_counting (c ∷ s) =
    let ls = split_lines (c ∷ s) in if ends_with_newline (c ∷ s) then pop_last ls else ls

-- `"\n".join(lines)`
unfoldable pub join_lines : List Text → Text
join_lines [] = []
join_lines (l ∷ []) = l
join_lines (l ∷ k ∷ ls) = l ++ newline ∷ join_lines (k ∷ ls)

-- `_unchanged`
abbrev pub unchanged : Text → ℕ → ℕ → ℕ → ℕ → TruncationResult
unchanged content total_lines total_bytes max_lines max_bytes = record {
  content = content;
  truncated = false;
  truncated_by = none;
  total_lines = total_lines;
  total_bytes = total_bytes;
  output_lines = total_lines;
  output_bytes = total_bytes;
  last_line_partial = false;
  first_line_exceeds_limit = false;
  max_lines = max_lines;
  max_bytes = max_bytes;
}

-- The variables of the two loops.
pub record Kept : Type 0 where
  pub output : List Text
  pub output_bytes : ℕ
  pub truncated_by : TruncatedBy
  pub last_line_partial : Bool

-- The loop of `truncate_head` over `lines[:max_lines]`; `first` is `index == 0`.
unfoldable pub head_loop : ℕ → Bool → List Text → Kept → Kept
unfolding utf8_length
head_loop max_bytes first [] k = k
head_loop max_bytes first (line ∷ ls) k =
    let line_bytes = utf8_length line + (if first then 0 else 1) in
    elim (ltb max_bytes (k.output_bytes + line_bytes)) [
      | true ↦ record k { truncated_by = TruncatedBy.bytes }
      | false ↦
          head_loop max_bytes false ls (record k {
            output = k.output ++ line ∷ [];
            output_bytes = k.output_bytes + line_bytes;
          })
    ]

abbrev pub no_output : Kept
no_output = record {
  output = [];
  output_bytes = 0;
  truncated_by = TruncatedBy.lines;
  last_line_partial = false;
}

-- `if len(output) >= max_lines and output_bytes <= max_bytes: truncated_by = "lines"`
abbrev pub settled : ℕ → ℕ → Kept → TruncatedBy
settled max_lines max_bytes k =
    if leb max_lines (length k.output) && leb k.output_bytes max_bytes
    then TruncatedBy.lines
    else k.truncated_by

abbrev pub truncated_result : ℕ → ℕ → ℕ → ℕ → Kept → TruncationResult
truncated_result total_lines total_bytes max_lines max_bytes k = record {
  content = join_lines k.output;
  truncated = true;
  truncated_by = some (settled max_lines max_bytes k);
  total_lines = total_lines;
  total_bytes = total_bytes;
  output_lines = length k.output;
  output_bytes = utf8_length (join_lines k.output);
  last_line_partial = k.last_line_partial;
  first_line_exceeds_limit = false;
  max_lines = max_lines;
  max_bytes = max_bytes;
}

abbrev pub first_line : List Text → Text
first_line [] = []
first_line (l ∷ _) = l

unfoldable pub truncate_head : Text → ℕ → ℕ → TruncationResult
unfolding utf8_length split_lines_for_counting head_loop join_lines
truncate_head content max_lines max_bytes =
    let total_bytes = utf8_length content in
    let ls = split_lines_for_counting content in
    let total_lines = length ls in
    if leb total_lines max_lines && leb total_bytes max_bytes
    then unchanged content total_lines total_bytes max_lines max_bytes
    else if ltb max_bytes (utf8_length (first_line ls))
    then record {
      content = [];
      truncated = true;
      truncated_by = some TruncatedBy.bytes;
      total_lines = total_lines;
      total_bytes = total_bytes;
      output_lines = 0;
      output_bytes = 0;
      last_line_partial = false;
      first_line_exceeds_limit = true;
      max_lines = max_lines;
      max_bytes = max_bytes;
    }
    else truncated_result total_lines total_bytes max_lines max_bytes
        (head_loop max_bytes true (take max_lines ls) no_output)

-- The loop of `_truncate_utf8_suffix`, over the characters last first; it builds `selected` reversed.
unfoldable pub suffix_loop : ℕ → ℕ → Text → Text → Text
suffix_loop max_bytes used [] selected = selected
suffix_loop max_bytes used (c ∷ rest) selected = elim (ltb max_bytes (used + code_point_bytes c)) [
  | true ↦ selected
  | false ↦ suffix_loop max_bytes (used + code_point_bytes c) rest (c ∷ selected)
]

-- `_truncate_utf8_suffix`
unfoldable pub truncate_utf8_suffix : Text → ℕ → Text
unfolding suffix_loop
truncate_utf8_suffix value zero = []
truncate_utf8_suffix value (suc n) = suffix_loop (suc n) 0 (reverse value) []

abbrev pub is_empty : List Text → Bool
is_empty [] = true
is_empty (_ ∷ _) = false

-- The loop of `truncate_tail`, over the lines last first.
unfoldable pub tail_loop : ℕ → ℕ → List Text → Kept → Kept
unfolding utf8_length truncate_utf8_suffix
tail_loop max_lines max_bytes [] k = k
tail_loop max_lines max_bytes (line ∷ ls) k = elim (leb max_lines (length k.output)) [
  | true ↦ k
  | false ↦
      let line_bytes = utf8_length line + (if is_empty k.output then 0 else 1) in
      elim (ltb max_bytes (k.output_bytes + line_bytes)) [
        | true ↦
            if is_empty k.output
            then record {
              output = truncate_utf8_suffix line max_bytes ∷ [];
              output_bytes = utf8_length (truncate_utf8_suffix line max_bytes);
              truncated_by = TruncatedBy.bytes;
              last_line_partial = true;
            }
            else record k { truncated_by = TruncatedBy.bytes }
        | false ↦
            tail_loop max_lines max_bytes ls
              (record k { output = line ∷ k.output; output_bytes = k.output_bytes + line_bytes })
      ]
]

unfoldable pub truncate_tail : Text → ℕ → ℕ → TruncationResult
unfolding utf8_length split_lines_for_counting tail_loop join_lines
truncate_tail content max_lines max_bytes =
    let total_bytes = utf8_length content in
    let ls = split_lines_for_counting content in
    let total_lines = length ls in
    if leb total_lines max_lines && leb total_bytes max_bytes
    then unchanged content total_lines total_bytes max_lines max_bytes
    else truncated_result total_lines total_bytes max_lines max_bytes
        (tail_loop max_lines max_bytes (reverse ls) no_output)

-- `truncate_line`; `marker` is "... [truncated]".
unfoldable pub truncate_line : Text → Text → ℕ → Text × Bool
truncate_line marker line max_chars =
    if leb (length line) max_chars then (line, false) else (take max_chars line ++ marker, true)
