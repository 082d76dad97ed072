-- ===== src/Tests/Contexts.antt =====
-- A branch with a compaction in it.
use Prim.Native.String.{◌++◌ as concat}
use pi_agent_python.Base.{String, ◌≡◌, refl, Option, none, some, [], ◌∷◌, ◌++◌, string_eq}
use pi_agent_python.Base.Result.{ok}
use pi_agent_python.Ai.Json.{end}
use pi_agent_python.Session.Types.{TreeEntry, EntryBody, Compaction}
use pi_agent_python.Session.Context.{ReconstructedContext, reconstruct_context, user_text, rendered}
use pi_agent_python.Session.Context.Compacted.{
  reconstruct_context-compaction, reconstruct_context-all_compacted,
}
use pi_agent_python.Tests.Conversation.{answer, thanks, asked, head, entry_of}

abbrev answered : TreeEntry
answered = entry_of "e2" (some "e1") answer

abbrev last : TreeEntry
last = entry_of "e4" (some "e3") thanks

abbrev cut : Option String → Compaction
cut kept = record {
  summary = "greeting";
  first_kept_entry_id = kept;
  tokens_before = 100;
  tokens_after = 10;
  details = end;
}

abbrev compacted : Option String → TreeEntry
compacted kept = record {
  id = "e3";
  parent_id = some "e2";
  body = EntryBody.compaction (cut kept);
  timestamp = 3;
}

reconstruct_context-compaction_example :
    (r : ReconstructedContext) × (reconstruct_context
        (record {
          header = head;
          entries = (asked ∷ answered ∷ []) ++ compacted (some "e2") ∷ last ∷ [];
        })
        "Summary: "
        "Branch: "
        9
      ≡ ok r)
    × (r.messages
        ≡ user_text (concat "Summary: " "greeting") 9
          ∷ (rendered "Branch: " 9 (answered ∷ []) ++ rendered "Branch: " 9 (last ∷ [])))
    × (r.compaction ≡ some (compacted (some "e2"), cut (some "e2")))
reconstruct_context-compaction_example =
    reconstruct_context-compaction head (asked ∷ []) answered [] (compacted (some "e2")) (last ∷ [])
      (cut (some "e2")) "Summary: " "Branch: " 9 refl refl refl refl

reconstruct_context-all_compacted_example :
    (r : ReconstructedContext) × (reconstruct_context
        (record { header = head; entries = (asked ∷ answered ∷ []) ++ compacted none ∷ last ∷ [] })
        "Summary: "
        "Branch: "
        9
      ≡ ok r)
    × (r.messages ≡ user_text (concat "Summary: " "greeting") 9 ∷ rendered "Branch: " 9 (last ∷ []))
    × (r.compaction ≡ some (compacted none, cut none))
reconstruct_context-all_compacted_example =
    reconstruct_context-all_compacted head (asked ∷ answered ∷ []) (compacted none) (last ∷ [])
      (cut none) "Summary: " "Branch: " 9 refl refl refl refl
