-- ===== src/Tests/Compactions.antt =====
-- The conversation of the tests is compacted.
use Prim.Native.String.{len}
use pi_agent_python.Base.{
  ℕ, suc, ◌≤◌, ◌<◌, String, ◌≡◌, refl, true, false, ◌⊎◌, Option, none, List, [], ◌∷◌, ◌++◌, arith,
  string_eq, beq, ◌==◌, if◌then◌else◌,
}
use pi_agent_python.Base.Lists.{length, take, drop, any}
use pi_agent_python.Base.Dict.{lookup}
use pi_agent_python.Base.Result.{ok, err}
use pi_agent_python.Ai.Types.{Message, tool_calls}
use pi_agent_python.Session.Manager.{SessionManager, active_entries}
use pi_agent_python.Session.Manager.Active.{active_entries_lem}
use pi_agent_python.Compaction.Tokens.{JsonDumps, estimate_context_tokens, calculate_context_tokens}
use pi_agent_python.Compaction.Cut.{find_cut_point}
use pi_agent_python.Compaction.Cut.Answered.{is_result_of, find_cut_point-answered}
use pi_agent_python.Compaction.Cut.Budget.{find_cut_point-budget}
use pi_agent_python.Compaction.Prepare.{
  Texts, CompactionError, CompactionSettings, CompactionPreparation, threshold, should_compact,
  prepare_compaction,
}
use pi_agent_python.Compaction.Prepare.Split.{IsSplit, prepare_compaction_cases}
use pi_agent_python.Compaction.Compact.{
  Summarized, Callbacks, CompactionResult, strip, summarize, compact,
}
use pi_agent_python.Compaction.Compact.Summary.{
  all_raised, blank_answer, summarize_cases, summarize_blank,
}
use pi_agent_python.Compaction.Session.{
  CompactSessionError, message_entries, messages_in, previous_summary, compact_session,
}
use pi_agent_python.Compaction.Session.Written.{
  compaction_entry, IsCompacted, compact_session_cases,
}
use pi_agent_python.Compaction.Branch.{summarize_and_navigate_branch}
use pi_agent_python.Compaction.Branch.Left.{Outcome, summarize_and_navigate_branch-Outcome}
use pi_agent_python.Tests.Conversation.{
  question, calling, reading, talk, asked, begun, begun-IsSynced, stamp, asked-Chain, one_entry,
}

abbrev dumps : JsonDumps
dumps = record { details = λ v. "{}"; arguments = λ fs. "{}" }

abbrev texts : Texts
texts = record { lower = λ s. s; str_of = λ v. "" }

-- The cut falls behind the result of the tool.
cut_of_talk : find_cut_point dumps talk 10 ≡ (3, true)
unfolding find_cut_point
cut_of_talk = refl

cut_before_end : (find_cut_point dumps talk 10).0 < length talk
unfolding find_cut_point
cut_before_end = omega arith

cut_parts :
    take (find_cut_point dumps talk 10).0 talk
    ≡ (question ∷ []) ++ Message.assistant calling ∷ reading ∷ []
unfolding find_cut_point
cut_parts = refl

read_is_called : any (λ c. beq c.id "c1") (tool_calls calling.content) ≡ true
unfolding tool_calls
read_is_called = refl

find_cut_point-answered_example : any (is_result_of "c1") (reading ∷ []) ≡ true
find_cut_point-answered_example =
    find_cut_point-answered dumps talk 10 (question ∷ []) calling (reading ∷ []) "c1" cut_before_end
      cut_parts read_is_called

cut_is_inside : 0 < (find_cut_point dumps talk 10).0
unfolding find_cut_point
cut_is_inside = omega arith

find_cut_point-budget_example :
    estimate_context_tokens dumps (drop (suc (find_cut_point dumps talk 10).0) talk) ≤ 10
find_cut_point-budget_example = find_cut_point-budget dumps talk 10 (omega arith) cut_is_inside

abbrev settings : CompactionSettings
settings = record {
  context_window = 40;
  reserve_tokens = 20;
  keep_recent_tokens = 10;
  summary_prefix = "Summary: ";
  max_attempts = 2;
}

prepare_compaction_cases_example :
    (false ≡ false)
      × (should_compact dumps texts talk settings ≡ false)
      × (prepare_compaction dumps texts talk settings none false
          ≡ err (
              CompactionError.not_required
                (calculate_context_tokens dumps talk)
                (threshold settings)))
    ⊎ (prepare_compaction dumps texts talk settings none false
        ≡ err CompactionError.no_safe_cut_point)
      × ((find_cut_point dumps talk 10).0 ≡ 0)
    ⊎ ((p : CompactionPreparation) × (prepare_compaction dumps texts talk settings none false
          ≡ ok p)
        × IsSplit dumps talk settings p
        × ((false ≡ true) ⊎ (should_compact dumps texts talk settings ≡ true)))
prepare_compaction_cases_example = prepare_compaction_cases dumps texts talk settings none false

-- A summarizer that raises at its first call.
abbrev second_time : ℕ → String → Option String → Summarized
second_time n conversation previous =
    if n == 1 then Summarized.raised "timeout" else Summarized.text "a greeting"

abbrev by : (ℕ → String → Option String → Summarized) → Callbacks
by f = record { summarizer = f; serialize = λ ms. "talk"; before = none; after = none }

abbrev prepared : CompactionPreparation
prepared = record {
  messages_to_summarize = take 3 talk;
  messages_to_keep = drop 3 talk;
  cut_index = 3;
  estimated_tokens = 34;
  kept_tokens = 14;
  split_turn = true;
  previous_summary = none;
  file_operations = record { read = "a.txt" ∷ []; modified = [] };
}

summarize_cases_example :
    (all_raised second_time "talk" none 2 1 ≡ true)
      × ((n : ℕ) × (x : Option String) × (summarize dumps texts (by second_time) settings prepared 9
            ≡ err (CompactionError.summary_generation_failed n x)))
    ⊎ (all_raised second_time "talk" none 2 1 ≡ false)
      × ((r : CompactionResult) × (summarize dumps texts (by second_time) settings prepared 9
            ≡ ok r))
summarize_cases_example = summarize_cases dumps texts (by second_time) settings prepared 9

-- A summarizer that answers with two spaces.
abbrev spaces : ℕ → String → Option String → Summarized
spaces n conversation previous = Summarized.text "  "

spaces_are_blank : (n : ℕ) → blank_answer (spaces n "talk" none) ≡ true
unfolding strip
spaces_are_blank n = refl

summarize_blank_example :
    (r : CompactionResult) × (summarize dumps texts (by spaces) settings prepared 9 ≡ ok r)
    × (len r.summary ≡ 0)
summarize_blank_example =
    summarize_blank dumps texts (by spaces) settings prepared 9 (omega arith) refl spaces_are_blank

e2_is_new : lookup "e2" one_entry ≡ none
unfolding lookup
e2_is_new = refl

begun_entries : active_entries begun ≡ ok (asked ∷ [])
begun_entries = active_entries_lem begun (asked ∷ []) asked-Chain

compact_session_cases_example :
    ((x : CompactionError) × (compact dumps texts
          (by second_time)
          (messages_in (message_entries (asked ∷ [])))
          settings
          (previous_summary none (asked ∷ []))
          true
          9
        ≡ err x)
      × (compact_session dumps texts (by second_time) settings true 9 stamp begun
          ≡ (err (CompactSessionError.compaction x), begun)))
    ⊎ ((r : CompactionResult) × (m' : SessionManager) × (compact dumps texts
            (by second_time)
            (messages_in (message_entries (asked ∷ [])))
            settings
            (previous_summary none (asked ∷ []))
            true
            9
          ≡ ok r)
        × (compact_session dumps texts (by second_time) settings true 9 stamp begun
            ≡ (ok (compaction_entry begun (asked ∷ []) r stamp, r), m'))
        × IsCompacted begun (asked ∷ []) r stamp m')
compact_session_cases_example =
    compact_session_cases dumps texts (by second_time) settings true 9 stamp begun (asked ∷ [])
      begun-IsSynced begun_entries e2_is_new

abbrev one_line : List Message → Summarized
one_line ms = Summarized.text " went off "

summarize_and_navigate_branch-Outcome_example :
    Outcome one_line begun "e1" stamp (summarize_and_navigate_branch one_line "e1" 9 stamp begun)
summarize_and_navigate_branch-Outcome_example =
    summarize_and_navigate_branch-Outcome one_line "e1" 9 stamp begun begun-IsSynced e2_is_new
