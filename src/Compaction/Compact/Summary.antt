-- ===== src/Compaction/Compact/Summary.antt =====
-- The loop over the attempts of `compact` in src/pi_agent/harness/compaction/compaction.py.
use Prim.Native.String.{len}
use pi_agent_python.Base.{
  ℕ, zero, suc, ◌+◌, ◌<◌, String, ◌≡◌, refl, sym, ap, ◌∙◌, Bool, true, false, ◌&&◌, ◌⊎◌, inl, inr,
  Option, none, some, arith, Bool-cases, Option-cases,
}
use pi_agent_python.Base.Result.{ok, err}
use pi_agent_python.Compaction.Tokens.{JsonDumps}
use pi_agent_python.Compaction.Prepare.{
  Texts, CompactionError, CompactionSettings, CompactionPreparation,
}
use pi_agent_python.Compaction.Compact.{
  Summarized, response, text, raised, SummaryResponse, CompactionResult, Attempts, no_attempt,
  attempt, attempt_loop, Callbacks, finish, result_of, run_after, summarize, is_blank,
}

abbrev is_none {ℓ} : {A : Type ℓ} → Option A → Bool
is_none none = true
is_none (some _) = false

abbrev pub is_raised : Summarized → Bool
is_raised (raised _) = true
is_raised (response _) = false
is_raised (text _) = false

-- The summarizer raises at each of `left` calls, the first being call `n`.
abbrev pub all_raised :
    (ℕ → String → Option String → Summarized) → String → Option String → ℕ → ℕ → Bool
all_raised f conversation previous zero n = true
all_raised f conversation previous (suc left) n =
    is_raised (f n conversation previous) && all_raised f conversation previous left (n + 1)

module _ (f : ℕ → String → Option String → Summarized) (conversation : String)
    (previous : Option String) where
  loop_go :
      (left n : ℕ) (a : Attempts)
      → (attempt (f n conversation previous) n a).1 ≡ true
      → attempt_loop f conversation previous (suc left) n a
        ≡ attempt_loop f conversation previous left
            (n + 1)
            (attempt (f n conversation previous) n a).0
  unfolding attempt_loop
  loop_go left n a h = rw (h, attempt_loop) refl

  loop_stop :
      (left n : ℕ) (a : Attempts)
      → (attempt (f n conversation previous) n a).1 ≡ false
      → attempt_loop f conversation previous (suc left) n a
        ≡ (attempt (f n conversation previous) n a).0
  unfolding attempt_loop
  loop_stop left n a h = rw (h, attempt_loop) refl

  -- A round leaves no response only if there was none and the call raises; it stops at a response.
  attempt_response :
      (r : Summarized) (n : ℕ) (a : Attempts)
      → is_none (attempt r n a).0.response ≡ (is_none a.response && is_raised r)
  attempt_response (raised x) n a = ground arith
  attempt_response (response r) n a = ground arith
  attempt_response (text t) n a = ground arith

  attempt_stops :
      (r : Summarized) (n : ℕ) (a : Attempts) → (attempt r n a).1 ≡ false → is_raised r ≡ false
  attempt_stops (raised x) n a h = cc
  attempt_stops (response r) n a h = refl
  attempt_stops (text t) n a h = refl

  loop_response :
      (left n : ℕ) (a : Attempts)
      → is_none (attempt_loop f conversation previous left n a).response
        ≡ (is_none a.response && all_raised f conversation previous left n)
  loop_response zero n a = unfold attempt_loop in ground arith
  loop_response (suc left) n a =
      let r : Summarized = f n conversation previous in
      elim (Bool-cases (attempt r n a).1) [
        | inl on ↦
            rw (loop_go left n a on)
              (ground (arith, loop_response left (n + 1) (attempt r n a).0, attempt_response r n a))
        | inr off ↦
            rw (loop_stop left n a off)
              (ground (arith, attempt_response r n a, attempt_stops r n a off))
      ]

-- A text that is blank, with the usage that it came with.
abbrev pub blank_answer : Summarized → Bool
blank_answer (raised _) = false
blank_answer (response r) = is_blank r.text
blank_answer (text t) = is_blank t

abbrev HoldsBlank : Option SummaryResponse → Type 0
HoldsBlank none = ⊥
HoldsBlank (some r) = is_blank r.text ≡ true

module _ (f : ℕ → String → Option String → Summarized) (conversation : String)
    (previous : Option String)
    (blank : (n : ℕ) → blank_answer (f n conversation previous) ≡ true) where
  blank_round :
      (r : Summarized) (n : ℕ) (a : Attempts)
      → blank_answer r ≡ true
      → ((attempt r n a).1 ≡ true) × HoldsBlank (attempt r n a).0.response
  blank_round (raised x) n a h = cc
  blank_round (response r) n a h = rw h (refl, h)
  blank_round (text t) n a h = rw h (refl, h)

  blank_loop :
      (left n : ℕ) (a : Attempts)
      → HoldsBlank a.response
      → HoldsBlank (attempt_loop f conversation previous left n a).response
  blank_loop zero n a h = unfold attempt_loop in h
  blank_loop (suc left) n a h =
      let (on, holds) = blank_round (f n conversation previous) n a (blank n) in
      rw (loop_go f conversation previous left n a on)
        (blank_loop left (n + 1) (attempt (f n conversation previous) n a).0 holds)

  pub blank_attempts :
      (left : ℕ)
      → 0 < left
      → HoldsBlank (attempt_loop f conversation previous left 1 no_attempt).response
  blank_attempts zero h = absurd (omega arith)
  blank_attempts (suc left) h =
      let (on, holds) = blank_round (f 1 conversation previous) 1 no_attempt (blank 1) in
      rw (loop_go f conversation previous left 1 no_attempt on)
        (blank_loop left 2 (attempt (f 1 conversation previous) 1 no_attempt).0 holds)

module _ (dumps : JsonDumps) (texts : Texts) (c : Callbacks) (s : CompactionSettings)
    (p : CompactionPreparation) (now : ℕ) where
  abbrev attempts_of : Attempts
  attempts_of =
      attempt_loop c.summarizer (c.serialize p.messages_to_summarize) p.previous_summary
        s.max_attempts 1 no_attempt

  -- From a preparation, `compact` raises that the summary failed exactly where the summarizer itself
  -- raises at each attempt that is allowed. Where it returns at one of them, were it a blank text, for
  -- which the loop raises and goes on, `compact` has a result.
  pub summarize_cases :
      (all_raised c.summarizer
            (c.serialize p.messages_to_summarize)
            p.previous_summary
            s.max_attempts
            1
          ≡ true)
        × ((n : ℕ) × (x : Option String) × (summarize dumps texts c s p now
              ≡ err (CompactionError.summary_generation_failed n x)))
      ⊎ (all_raised c.summarizer
            (c.serialize p.messages_to_summarize)
            p.previous_summary
            s.max_attempts
            1
          ≡ false)
        × ((r : CompactionResult) × (summarize dumps texts c s p now ≡ ok r))
  unfolding summarize
  summarize_cases = cases attempts_of (refl)
    where
      conversation : String
      conversation = c.serialize p.messages_to_summarize

      cases :
          (a : Attempts)
          → attempt_loop c.summarizer conversation p.previous_summary s.max_attempts 1 no_attempt
            ≡ a
          → (all_raised c.summarizer conversation p.previous_summary s.max_attempts 1 ≡ true)
              × ((n : ℕ) × (x : Option String) × (finish dumps texts c s p now (
                      attempt_loop c.summarizer conversation p.previous_summary s.max_attempts 1
                        no_attempt)
                    ≡ err (CompactionError.summary_generation_failed n x)))
            ⊎ (all_raised c.summarizer conversation p.previous_summary s.max_attempts 1 ≡ false)
              × ((r : CompactionResult) × (finish dumps texts c s p now (
                      attempt_loop c.summarizer conversation p.previous_summary s.max_attempts 1
                        no_attempt)
                    ≡ ok r))
      cases a e =
          let law : is_none a.response
              ≡ all_raised c.summarizer conversation p.previous_summary s.max_attempts 1 =
            ap (λ y. is_none (Attempts.response y)) (sym e)
            ∙ loop_response c.summarizer conversation p.previous_summary s.max_attempts 1
                no_attempt in
          elim (Option-cases a.response) [
            | inl nothing ↦ inl (
              ground arith,
              (a.attempts, a.last_error, ap (λ y. finish dumps texts c s p now y) e ∙ ground arith),
            )
            | inr (r, something) ↦ inr (
              ground arith,
              (
                run_after c.after (result_of dumps texts c s p a.attempts r now),
                ap (λ y. finish dumps texts c s p now y) e ∙ ground arith,
              ),
            )
          ]

  -- Where at least one attempt is allowed, there is no hook behind the compaction and every answer of
  -- the summarizer is blank, `compact` does not fail from a preparation: it gives an empty summary.
  pub summarize_blank :
      0 < s.max_attempts
      → c.after ≡ none
      → ((n : ℕ)
          → blank_answer (c.summarizer n (c.serialize p.messages_to_summarize) p.previous_summary)
            ≡ true)
      → (r : CompactionResult) × (summarize dumps texts c s p now ≡ ok r) × (len r.summary ≡ 0)
  unfolding summarize
  summarize_blank pos plain blank = accepted attempts_of (
      blank_attempts c.summarizer (c.serialize p.messages_to_summarize) p.previous_summary blank
        s.max_attempts pos)
    where
      accepted :
          (a : Attempts)
          → HoldsBlank a.response
          → (r : CompactionResult) × (finish dumps texts c s p now a ≡ ok r) × (len r.summary ≡ 0)
      accepted a h = elim (Option-cases a.response) [
        | inl nothing ↦ absurd (rw nothing at h)
        | inr (r, something) ↦
            let is : is_blank r.text ≡ true = rw something at h in
            (result_of dumps texts c s p a.attempts r now, ground arith, ground arith)
      ]
