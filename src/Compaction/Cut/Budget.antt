-- ===== src/Compaction/Cut/Budget.antt =====
-- The tokens behind the cut of src/pi_agent/harness/compaction/compaction.py.
use pi_agent_python.Base.{
  ℕ, zero, suc, ◌+◌, ◌-◌, ◌≤◌, ◌<◌, ◌≡◌, refl, sym, ap, Bool, true, false, ◌&&◌, inl, inr, Option,
  none, some, List, [], ◌∷◌, arith, nat_eq, Bool-cases, ltb, leb,
}
use pi_agent_python.Base.Lists.{length, take, drop, contains}
use pi_agent_python.Ai.Types.{Message}
use pi_agent_python.Compaction.Tokens.{JsonDumps, estimate_context_tokens}
use pi_agent_python.Compaction.Cut.{
  candidates, crossing, chosen_at, or_end, prefer_turn, first_from, cut_among, find_cut_point,
  find_turn_start_index,
}
use pi_agent_python.Compaction.Cut.Safe.{contains-first_from}

module _ (dumps : JsonDumps) where
  abbrev tokens : List Message → ℕ
  tokens = estimate_context_tokens dumps

  drop_step :
      (i : ℕ) (ms : List Message)
      → tokens (drop i ms) ≡ tokens (take 1 (drop i ms)) + tokens (drop (suc i) ms)
  unfolding estimate_context_tokens
  drop_step zero [] = omega arith
  drop_step zero (m ∷ ms) = omega arith
  drop_step (suc i) [] = omega arith
  drop_step (suc i) (m ∷ ms) = drop_step i ms

  drop_all : (ms : List Message) → tokens (drop (length ms) ms) ≡ 0
  unfolding estimate_context_tokens
  drop_all [] = refl
  drop_all (m ∷ ms) = drop_all ms

  -- Dropping more leaves no more tokens.
  drop_mono : (i d : ℕ) (ms : List Message) → tokens (drop (i + d) ms) ≤ tokens (drop i ms)
  drop_mono i zero ms = omega (arith, ap (λ n. tokens (drop n ms)) (plus_zero i))
    where
      plus_zero : (i : ℕ) → i + 0 ≡ i
      plus_zero i = omega arith
  drop_mono i (suc d) ms =
      omega
        (arith, drop_mono i d ms, drop_step (i + d) ms, ap (λ n. tokens (drop n ms)) (plus_suc i d))
    where
      plus_suc : (i d : ℕ) → i + suc d ≡ suc (i + d)
      plus_suc i d = omega arith

  drop-le : (i j : ℕ) (ms : List Message) → i ≤ j → tokens (drop j ms) ≤ tokens (drop i ms)
  drop-le i j ms h = omega (arith, drop_mono i (j - i) ms, ap (λ n. tokens (drop n ms)) (sum i j h))
    where
      sum : (i j : ℕ) → i ≤ j → i + (j - i) ≡ j
      sum i j h = omega arith

  module _ (ms : List Message) (keep : ℕ) where
    -- What lies behind the crossing is below the budget.
    abbrev BelowAt : Option ℕ → Type 0
    BelowAt none = tokens (drop 0 ms) < keep
    BelowAt (some i) = tokens (drop (suc i) ms) < keep

    one : ℕ → ℕ
    one i = tokens (take 1 (drop i ms))

    crossing_go :
        (i total : ℕ)
        → ltb (total + one i) keep ≡ true
        → crossing dumps ms keep (suc i) total ≡ crossing dumps ms keep i (total + one i)
    unfolding crossing one
    crossing_go i total h = ground arith

    crossing_stop :
        (i total : ℕ)
        → ltb (total + one i) keep ≡ false
        → crossing dumps ms keep (suc i) total ≡ some i
    unfolding crossing one
    crossing_stop i total h = ground arith

    counted : (i total : ℕ) → total ≡ tokens (drop (suc i) ms) → total + one i ≡ tokens (drop i ms)
    unfolding one
    counted i total e = omega (arith, drop_step i ms)

    crossing-BelowAt :
        (n total : ℕ)
        → total ≡ tokens (drop n ms)
        → total < keep
        → BelowAt (crossing dumps ms keep n total)
    crossing-BelowAt zero total e h = unfold crossing in omega (arith, e)
    crossing-BelowAt (suc i) total e h = elim (Bool-cases (ltb (total + one i) keep)) [
      | inl go ↦
          rw (crossing_go i total go)
            (crossing-BelowAt i (total + one i) (counted i total e) (ground arith))
      | inr stop ↦ rw (crossing_stop i total stop) (omega (arith, e))
    ]

    past_BelowAt :
        (i : ℕ) (cs : List ℕ) (o : Option ℕ)
        → first_from i cs ≡ o
        → tokens (drop (suc i) ms) < keep
        → tokens (drop (suc (or_end (length ms) o)) ms) < keep
    past_BelowAt i cs none found h =
        omega (arith, drop-le (length ms) (suc (length ms)) ms (omega arith), drop_all ms)
    past_BelowAt i cs (some c) found h =
        let at : i ≤ c = (contains-first_from i cs c found).0 in
        omega (arith, drop-le (suc i) (suc c) ms (omega arith))

    chosen_at-below :
        (first : ℕ) (cs : List ℕ) (o : Option ℕ)
        → BelowAt o
        → tokens (drop (suc (chosen_at dumps ms keep first cs o)) ms) < keep
    chosen_at-below first cs none h = omega (arith, drop-le 0 (suc first) ms (omega arith))
    chosen_at-below first cs (some i) h = past_BelowAt i cs (first_from i cs) refl h

    abbrev turn_fits : List ℕ → ℕ → ℕ → Bool
    turn_fits cs chosen start =
        ltb chosen (length ms)
        && ltb 0 start
        && contains cs start
        && leb (tokens (drop start ms)) keep

    prefer_turn-below :
        (cs : List ℕ) (chosen : ℕ) (o : Option ℕ)
        → tokens (drop (suc chosen) ms) < keep
        → tokens (drop (suc (prefer_turn dumps ms keep cs chosen o)) ms) ≤ keep
    prefer_turn-below cs chosen none h = omega arith
    prefer_turn-below cs chosen (some start) h = elim (Bool-cases (turn_fits cs chosen start)) [
      | inl fits ↦
          let small : tokens (drop start ms) ≤ keep = ground arith in
          rw fits (omega (arith, drop-le start (suc start) ms (omega arith)))
      | inr other ↦ rw other (omega arith)
    ]

    -- With a positive budget, and where there is a cut, the messages kept behind the first kept one are
    -- within the budget.
    pub find_cut_point-budget :
        0 < keep
        → 0 < (find_cut_point dumps ms keep).0
        → tokens (drop (suc (find_cut_point dumps ms keep).0) ms) ≤ keep
    unfolding find_cut_point
    find_cut_point-budget pos h = cut_of (candidates ms) h
      where
        start : BelowAt (crossing dumps ms keep (length ms) 0)
        start = crossing-BelowAt (length ms) 0 (sym (drop_all ms)) pos

        cut_of :
            (cs : List ℕ)
            → 0 < (cut_among dumps ms keep cs).0
            → tokens (drop (suc (cut_among dumps ms keep cs).0) ms) ≤ keep
        cut_of [] h = absurd (omega arith)
        cut_of (first ∷ rest) h =
            let cs : List ℕ = first ∷ rest in
            let chosen : ℕ =
              chosen_at dumps ms keep first cs (crossing dumps ms keep (length ms) 0) in
            prefer_turn-below cs chosen (find_turn_start_index ms chosen)
              (chosen_at-below first cs (crossing dumps ms keep (length ms) 0) start)
