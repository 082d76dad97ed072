-- ===== src/Compaction/Cut/Safe.antt =====
-- The safe indices of src/pi_agent/harness/compaction/compaction.py, and the calls that are pending.
use pi_agent_python.Base.{
  ℕ, suc, ◌+◌, ◌≤◌, ◌<◌, String, ◌≡◌, refl, Bool, true, false, ◌&&◌, ◌⊎◌, inl, inr, Option, none,
  some, List, [], ◌∷◌, arith, ltb, leb, ◌==◌, nat_eq, string_eq, Bool-cases, Option-cases,
}
use mathlib.Core.Path.{subst}
use pi_agent_python.Base.Lists.{length, take, drop, contains, discard}
use pi_agent_python.Ai.Types.{Message}
use pi_agent_python.Compaction.Tokens.{JsonDumps, estimate_context_tokens}
use pi_agent_python.Compaction.Cut.{
  pending_step, no_pending, safe_from, distinct, safe_cut_indices, inner, candidates,
  find_turn_start_index, first_from, crossing, chosen_at, prefer_turn, cut_among, find_cut_point,
}

-- The ids of the calls of a conversation that have no result behind them.
unfoldable pub pending_of : List String → List Message → List String
pending_of pending [] = pending
pending_of pending (m ∷ ms) = pending_of (pending_step pending m) ms

contains-discard : (x a : ℕ) (xs : List ℕ) → contains (discard x xs) a ≡ true → contains xs a ≡ true
unfolding contains discard
contains-discard x a [] h = h
contains-discard x a (y ∷ xs) h = ground (arith, contains-discard x a xs)

contains-distinct : (a : ℕ) (xs : List ℕ) → contains (distinct xs) a ≡ true → contains xs a ≡ true
unfolding distinct contains
contains-distinct a [] h = h
contains-distinct a (x ∷ xs) h =
    ground (arith, contains-discard x a (distinct xs), contains-distinct a xs)

contains-inner :
    (n a : ℕ) (xs : List ℕ)
    → contains (inner n xs) a ≡ true
    → (0 < a) × (a < n) × (contains xs a ≡ true)
unfolding inner contains
contains-inner n a [] h = cc
contains-inner n a (x ∷ xs) h = ground (arith, contains-inner n a xs)

in_safe_from :
    (index : ℕ) (pending : List String) (m : Message) (ms : List Message) (i : ℕ)
    → contains (safe_from index pending (m ∷ ms)) i ≡ true
    → ((i ≡ index + 1) × (no_pending (pending_step pending m) ≡ true))
      ⊎ (contains (safe_from (index + 1) (pending_step pending m) ms) i ≡ true)
unfolding safe_from contains
in_safe_from index pending m ms i h = elim (Bool-cases (no_pending (pending_step pending m))) [
  | inl closed ↦ elim (Bool-cases (index + 1 == i)) [
    | inl here ↦ inl (ground arith, closed)
    | inr there ↦ inr (ground arith)
  ]
  | inr opened ↦ inr (ground arith)
]

-- Every index of the loop bounds a prefix whose calls all have results.
contains-safe_from :
    (index : ℕ) (pending : List String) (ms : List Message) (i : ℕ)
    → contains (safe_from index pending ms) i ≡ true
    → (j : ℕ) × (i ≡ index + suc j) × (no_pending (pending_of pending (take (suc j) ms)) ≡ true)
unfolding pending_of
contains-safe_from index pending [] i h = absurd (unfold safe_from contains in cc)
contains-safe_from index pending (m ∷ ms) i h = elim (in_safe_from index pending m ms i h) [
  | inl (here, closed) ↦ (0, here, closed)
  | inr later ↦
      let (j, at, closed) = contains-safe_from (index + 1) (pending_step pending m) ms i later in
      (suc j, omega (arith, at), closed)
]

abbrev pub IsClosed : List Message → Type 0
IsClosed ms = no_pending (pending_of [] ms) ≡ true

-- An inner safe index: all calls before it have their results before it.
pub candidates-IsClosed :
    (messages : List Message) (i : ℕ)
    → contains (candidates messages) i ≡ true
    → (0 < i) × (i < length messages) × IsClosed (take i messages)
candidates-IsClosed messages i h =
    let (pos, below, safe) = contains-inner (length messages) i (safe_cut_indices messages) h in
    let found : contains (0 ∷ safe_from 0 [] messages) i ≡ true =
      contains-distinct i (0 ∷ safe_from 0 [] messages) (unfold safe_cut_indices in safe) in
    let rest : contains (safe_from 0 [] messages) i ≡ true = unfold contains in ground arith in
    let (j, at, closed) = contains-safe_from 0 [] messages i rest in
    let same : suc j ≡ i = omega (arith, at) in
    (pos, below, subst (λ n. IsClosed (take n messages)) same closed)

pub contains-first_from :
    (index : ℕ) (cs : List ℕ) (c : ℕ)
    → first_from index cs ≡ some c
    → (index ≤ c) × (contains cs c ≡ true)
unfolding first_from contains
contains-first_from index [] c h = absurd (ground arith)
contains-first_from index (x ∷ cs) c h = ground (arith, contains-first_from index cs c)

module _ (dumps : JsonDumps) (messages : List Message) (keep : ℕ) where
  -- What a cut may be: one of the candidates, or the end.
  abbrev IsCut : List ℕ → ℕ → Type 0
  IsCut cs n = (contains cs n ≡ true) ⊎ (n ≡ length messages)

  chosen_at-IsCut :
      (first : ℕ) (rest : List ℕ) (o : Option ℕ)
      → IsCut (first ∷ rest) (chosen_at dumps messages keep first (first ∷ rest) o)
  chosen_at-IsCut first rest none = inl (unfold contains in ground arith)
  chosen_at-IsCut first rest (some i) = elim (Option-cases (first_from i (first ∷ rest))) [
    | inl past ↦ inr (rw past refl)
    | inr (c, found) ↦ inl (rw found (contains-first_from i (first ∷ rest) c found).1)
  ]

  prefer_turn-IsCut :
      (cs : List ℕ) (chosen : ℕ) (o : Option ℕ)
      → IsCut cs chosen
      → IsCut cs (prefer_turn dumps messages keep cs chosen o)
  prefer_turn-IsCut cs chosen none h = h
  prefer_turn-IsCut cs chosen (some start) h = elim (Bool-cases (turn_fits cs chosen start)) [
    | inl fits ↦ rw fits (inl (ground arith))
    | inr other ↦ rw other h
  ]
    where
      turn_fits : List ℕ → ℕ → ℕ → Bool
      turn_fits cs chosen start =
          ltb chosen (length messages)
          && ltb 0 start
          && contains cs start
          && leb (estimate_context_tokens dumps (drop start messages)) keep

  cut_among-IsCut :
      (first : ℕ) (rest : List ℕ)
      → IsCut (first ∷ rest) (cut_among dumps messages keep (first ∷ rest)).0
  cut_among-IsCut first rest =
      let cs : List ℕ = first ∷ rest in
      let chosen : ℕ =
        chosen_at dumps messages keep first cs (crossing dumps messages keep (length messages) 0) in
      prefer_turn-IsCut cs chosen (find_turn_start_index messages chosen)
        (chosen_at-IsCut first rest (crossing dumps messages keep (length messages) 0))

  -- Where `find_cut_point` cuts: nowhere, at the end, or behind messages whose calls all have results.
  pub find_cut_point-IsClosed :
      (find_cut_point dumps messages keep ≡ (0, false))
      ⊎ ((find_cut_point dumps messages keep).0 ≡ length messages)
      ⊎ ((0 < (find_cut_point dumps messages keep).0)
          × ((find_cut_point dumps messages keep).0 < length messages)
          × IsClosed (take (find_cut_point dumps messages keep).0 messages))
  unfolding find_cut_point
  find_cut_point-IsClosed = cut_of (candidates messages) (candidates-IsClosed messages)
    where
      cut_of :
          (cs : List ℕ)
          → ((i : ℕ)
              → contains cs i ≡ true
              → (0 < i) × (i < length messages) × IsClosed (take i messages))
          → (cut_among dumps messages keep cs ≡ (0, false))
            ⊎ ((cut_among dumps messages keep cs).0 ≡ length messages)
            ⊎ ((0 < (cut_among dumps messages keep cs).0)
                × ((cut_among dumps messages keep cs).0 < length messages)
                × IsClosed (take (cut_among dumps messages keep cs).0 messages))
      cut_of [] closed = inl refl
      cut_of (first ∷ rest) closed = elim (cut_among-IsCut first rest) [
        | inl candidate ↦ inr (inr (closed _ candidate))
        | inr end ↦ inr (inl end)
      ]
