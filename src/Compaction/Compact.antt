-- ===== src/Compaction/Compact.antt =====
-- `compact` of src/pi_agent/harness/compaction/compaction.py. The summarizer and the two hooks are
-- the caller's: functions of the call's number and arguments that return or raise. A cancellation
-- from outside (`CancelledError`) is not modelled. The time of the new message is an argument.
pub mod Summary
use Prim.Native.String.{len, [], ◌∷◌, ◌++◌ as concat}
use Prim.Native.Char.{Char, code}
use pi_agent_python.Base.{
  ℕ, zero, suc, ◌+◌, ◌-◌, String, Bool, true, false, not, ◌&&◌, ◌||◌, Option, none, some, List,
  if◌then◌else◌, ltb, leb, ◌==◌,
}
use mathlib.Core.List
use pi_agent_python.Base.Result.{Result, ok, err, ◌>>=◌, ◌>>◌, raise_if}
use pi_agent_python.Ai.Types.{Message, UserBody, Usage, zero_usage}
use pi_agent_python.Compaction.Tokens.{JsonDumps, estimate_context_tokens}
use pi_agent_python.Compaction.Prepare.{
  Texts, CompactionError, CompactionSettings, CompactionPreparation, FileOperations,
  prepare_compaction,
}

-- `str.isspace` at one character
abbrev pub is_space : Char → Bool
is_space c =
    let n = code c in
    (leb 9 n && leb n 13)
    || (leb 28 n && leb n 32)
    || n == 133
    || n == 160
    || n == 5760
    || (leb 8192 n && leb n 8202)
    || n == 8232
    || n == 8233
    || n == 8239
    || n == 8287
    || n == 12288

unfoldable pub lstrip : String → String
lstrip [] = []
lstrip (c ∷ s) = let rest = lstrip s in if is_space c then rest else c ∷ s

abbrev pub cons_unless_blank : Char → String → String
cons_unless_blank c [] = if is_space c then [] else c ∷ []
cons_unless_blank c (d ∷ s) = c ∷ d ∷ s

unfoldable pub rstrip : String → String
rstrip [] = []
rstrip (c ∷ s) = cons_unless_blank c (rstrip s)

-- `str.strip`
unfoldable pub strip : String → String
unfolding lstrip rstrip
strip s = rstrip (lstrip s)

pub record SummaryResponse : Type 0 where
  pub text : String
  pub usage : Usage

-- What a call of the summarizer does: it returns a response, or a text, or raises.
pub data Summarized : Type 0 where
  response : SummaryResponse → Summarized
  text : String → Summarized
  raised : String → Summarized

pub record CompactionResult : Type 0 where
  pub summary : String
  pub active_messages : List Message
  pub cut_index : ℕ
  pub tokens_before : ℕ
  pub tokens_after : ℕ
  pub split_turn : Bool
  pub usage : Usage
  pub file_operations : FileOperations
  pub attempts : ℕ

pub record BeforeCompactionDecision : Type 0 where
  pub cancel : Bool
  pub preparation : Option CompactionPreparation

-- The variables of the loop over the attempts.
pub record Attempts : Type 0 where
  pub response : Option SummaryResponse
  pub last_error : Option String
  pub attempts : ℕ

abbrev pub no_attempt : Attempts
no_attempt = record { response = none; last_error = none; attempts = 0 }

abbrev pub is_blank : String → Bool
is_blank s = len (strip s) == 0

-- One round: the new variables, and whether the loop goes on.
abbrev pub answered : SummaryResponse → ℕ → Attempts → Attempts × Bool
answered r n a =
    if is_blank r.text
    then (
      record {
        response = some r;
        last_error = some "summarizer returned an empty summary";
        attempts = n;
      },
      true,
    )
    else (record { response = some r; last_error = a.last_error; attempts = n }, false)

abbrev pub attempt : Summarized → ℕ → Attempts → Attempts × Bool
attempt (Summarized.response r) n a = answered r n a
attempt (Summarized.text t) n a = answered (record { text = t; usage = zero_usage }) n a
attempt (Summarized.raised x) n a =
    (record { response = a.response; last_error = some x; attempts = n }, true)

module _ (summarizer : ℕ → String → Option String → Summarized) (conversation : String)
    (previous : Option String) where
  -- `for attempts in range(1, max_attempts + 1)`, with `left` rounds to go, the next being `n`.
  unfoldable pub attempt_loop : ℕ → ℕ → Attempts → Attempts
  unfolding strip
  attempt_loop zero n a = a
  attempt_loop (suc left) n a =
      let round = attempt (summarizer n conversation previous) n a in
      elim round.1 [ true ↦ attempt_loop left (n + 1) round.0 | false ↦ round.0 ]

-- The hooks are options; `serialize` is `serialize_conversation`, which rests on `json.dumps`.
pub record Callbacks : Type 0 where
  pub summarizer : ℕ → String → Option String → Summarized
  pub serialize : List Message → String
  pub before : Option (CompactionPreparation → BeforeCompactionDecision)
  pub after : Option (CompactionResult → CompactionResult)

abbrev pub prepared_by :
    BeforeCompactionDecision → CompactionPreparation → Result CompactionError CompactionPreparation
prepared_by d p =
    if d.cancel
    then err CompactionError.cancelled
    else ok (elim d.preparation [ none ↦ p | some q ↦ q ])

abbrev pub run_before :
    Option (CompactionPreparation → BeforeCompactionDecision)
    → CompactionPreparation
    → Result CompactionError CompactionPreparation
run_before none p = ok p
run_before (some before) p = prepared_by (before p) p

abbrev pub run_after :
    Option (CompactionResult → CompactionResult) → CompactionResult → CompactionResult
run_after none r = r
run_after (some after) r = after r

module _ (dumps : JsonDumps) (texts : Texts) (c : Callbacks) where
  abbrev pub active_messages_of :
      CompactionSettings → CompactionPreparation → String → ℕ → List Message
  active_messages_of s p summary now =
      List.◌∷◌
        (Message.user
          (record { content = UserBody.plain (concat s.summary_prefix summary); timestamp = now }))
        p.messages_to_keep

  abbrev pub result_of :
      CompactionSettings → CompactionPreparation → ℕ → SummaryResponse → ℕ → CompactionResult
  result_of s p attempts r now =
      let active = active_messages_of s p (strip r.text) now in
      record {
        summary = strip r.text;
        active_messages = active;
        cut_index = p.cut_index;
        tokens_before = p.estimated_tokens;
        tokens_after = estimate_context_tokens dumps active;
        split_turn = p.split_turn;
        usage = r.usage;
        file_operations = p.file_operations;
        attempts = attempts;
      }

  abbrev pub finish :
      CompactionSettings
      → CompactionPreparation
      → ℕ
      → Attempts
      → Result CompactionError CompactionResult
  finish s p now a = elim a.response [
    | none ↦ err (CompactionError.summary_generation_failed a.attempts a.last_error)
    | some r ↦ ok (run_after c.after (result_of s p a.attempts r now))
  ]

  unfoldable pub summarize :
      CompactionSettings → CompactionPreparation → ℕ → Result CompactionError CompactionResult
  unfolding attempt_loop strip
  summarize s p now = finish s p now (
      attempt_loop c.summarizer (c.serialize p.messages_to_summarize) p.previous_summary
        s.max_attempts 1 no_attempt)

  unfoldable pub compact :
      List Message
      → CompactionSettings
      → Option String
      → Bool
      → ℕ
      → Result CompactionError CompactionResult
  unfolding prepare_compaction summarize
  compact messages s previous force now = do
    p ← prepare_compaction dumps texts messages s previous force
    q ← run_before c.before p
    summarize s q now
