-- ===== src/Compaction/Prepare/Split.antt =====
-- `prepare_compaction` of src/pi_agent/harness/compaction/compaction.py.
use pi_agent_python.Base.{
  ℕ, ◌<◌, String, ◌≡◌, refl, Bool, true, false, not, ◌&&◌, ◌⊎◌, inl, inr, Option, List, ◌++◌, arith,
  Bool-cases, ltb, leb,
}
use pi_agent_python.Base.Lists.{take-append-drop}
use pi_agent_python.Base.Result.{ok, err}
use pi_agent_python.Ai.Types.{Message}
use pi_agent_python.Compaction.Tokens.{JsonDumps, estimate_context_tokens, calculate_context_tokens}
use pi_agent_python.Compaction.Cut.{find_cut_point}
use pi_agent_python.Compaction.Prepare.{
  Texts, CompactionSettings, CompactionPreparation, CompactionError, threshold, should_compact,
  preparation_of, prepare_compaction,
}

-- What a preparation is to be.
pub record IsSplit (dumps : JsonDumps) (messages : List Message) (s : CompactionSettings)
    (p : CompactionPreparation) : Type 0 where
  pub parts : p.messages_to_summarize ++ p.messages_to_keep ≡ messages
  pub cut : p.cut_index ≡ (find_cut_point dumps messages s.keep_recent_tokens).0
  pub summarised : 0 < p.cut_index
  pub kept : p.kept_tokens ≡ estimate_context_tokens dumps p.messages_to_keep

module _ (dumps : JsonDumps) (texts : Texts) (messages : List Message) (s : CompactionSettings)
    (previous : Option String) (force : Bool) where
  -- `prepare_compaction` raises exactly where it is neither forced nor due, or where there is no
  -- cut; otherwise nothing is lost or reordered: the two parts, joined, are the conversation.
  pub prepare_compaction_cases :
      (force ≡ false)
        × (should_compact dumps texts messages s ≡ false)
        × (prepare_compaction dumps texts messages s previous force
            ≡ err (
                CompactionError.not_required
                  (calculate_context_tokens dumps messages)
                  (threshold s)))
      ⊎ (prepare_compaction dumps texts messages s previous force
          ≡ err CompactionError.no_safe_cut_point)
        × ((find_cut_point dumps messages s.keep_recent_tokens).0 ≡ 0)
      ⊎ ((p : CompactionPreparation) × (prepare_compaction dumps texts messages s previous force
            ≡ ok p)
          × IsSplit dumps messages s p
          × ((force ≡ true) ⊎ (should_compact dumps texts messages s ≡ true)))
  unfolding prepare_compaction should_compact
  prepare_compaction_cases =
      let estimated : ℕ = calculate_context_tokens dumps messages in
      let cut : ℕ × Bool = find_cut_point dumps messages s.keep_recent_tokens in
      elim (Bool-cases (not force && ltb estimated (threshold s))) [
        | inl idle ↦ inl (ground arith, ground arith, rw idle refl)
        | inr due ↦ elim (Bool-cases (leb cut.0 0)) [
          | inl nowhere ↦ inr (inl (rw due (rw nowhere refl), ground arith))
          | inr somewhere ↦ inr (
              inr (
                preparation_of dumps texts messages previous estimated cut,
                rw due (rw somewhere refl),
                record {
                  parts = take-append-drop cut.0 messages;
                  cut = refl;
                  summarised = ground arith;
                  kept = refl;
                },
                due_or_forced (not force && ltb estimated (threshold s)) due,
              ))
        ]
      ]
    where
      due_or_forced :
          (b : Bool)
          → (not force && ltb (calculate_context_tokens dumps messages) (threshold s)) ≡ false
          → (force ≡ true) ⊎ (should_compact dumps texts messages s ≡ true)
      due_or_forced b h = elim (Bool-cases force) [
        | inl forced ↦ inl forced
        | inr free ↦ inr (ground arith)
      ]
