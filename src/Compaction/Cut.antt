-- ===== src/Compaction/Cut.antt =====
-- src/pi_agent/harness/compaction/compaction.py: where a conversation is cut.
pub mod Safe
pub mod Answered
pub mod Budget
use pi_agent_python.Base.{
  ℕ, zero, suc, ◌+◌, ◌-◌, min, String, Bool, true, false, not, ◌&&◌, ◌||◌, Option, none, some, List,
  [], ◌∷◌, ◌++◌, if◌then◌else◌, ltb, leb, ◌==◌, nat_eq, string_eq,
}
use pi_agent_python.Base.Lists.{length, take, drop, get_elem?, contains, discard}
use pi_agent_python.Ai.Types.{Message, ToolCall, tool_calls, is_user}
use pi_agent_python.Compaction.Tokens.{JsonDumps, estimate_context_tokens}

-- The ids of the calls, added to the set.
unfoldable pub add_calls : List String → List ToolCall → List String
add_calls pending [] = pending
add_calls pending (c ∷ cs) = add_calls (c.id ∷ pending) cs

-- `pending.update(...)` and `pending.discard(...)`
unfoldable pub pending_step : List String → Message → List String
unfolding add_calls tool_calls discard
pending_step pending (Message.user _) = pending
pending_step pending (Message.assistant a) = add_calls pending (tool_calls a.content)
pending_step pending (Message.tool_result t) = discard t.tool_call_id pending

abbrev pub no_pending : List String → Bool
no_pending [] = true
no_pending (_ ∷ _) = false

-- The loop of `safe_cut_indices`, from an index on.
unfoldable pub safe_from : ℕ → List String → List Message → List ℕ
unfolding pending_step
safe_from index pending [] = []
safe_from index pending (m ∷ ms) =
    let after = pending_step pending m in
    let rest = safe_from (index + 1) after ms in
    if no_pending after then (index + 1) ∷ rest else rest

-- `tuple(dict.fromkeys(xs))`
unfoldable pub distinct : List ℕ → List ℕ
unfolding discard
distinct [] = []
distinct (x ∷ xs) = x ∷ discard x (distinct xs)

unfoldable pub safe_cut_indices : List Message → List ℕ
unfolding safe_from distinct
safe_cut_indices messages = distinct (0 ∷ safe_from 0 [] messages)

-- `[index for index in indices if 0 < index < n]`
unfoldable pub inner : ℕ → List ℕ → List ℕ
inner n [] = []
inner n (i ∷ is) = let rest = inner n is in if ltb 0 i && ltb i n then i ∷ rest else rest

abbrev pub candidates : List Message → List ℕ
candidates messages = inner (length messages) (safe_cut_indices messages)

abbrev pub is_user_at : List Message → ℕ → Bool
is_user_at messages i = elim (get_elem? messages i) [ none ↦ false | some m ↦ is_user m ]

-- The loop of `find_turn_start_index`, down from `n - 1`.
unfoldable pub user_below : List Message → ℕ → ℕ
user_below messages zero = 0
user_below messages (suc i) = elim (is_user_at messages i) [
  | true ↦ i
  | false ↦ user_below messages i
]

-- `find_turn_start_index` at an index in range; out of range it raises `IndexError`.
unfoldable pub find_turn_start_index : List Message → ℕ → Option ℕ
unfolding user_below
find_turn_start_index [] index = if leb index 0 then some 0 else none
find_turn_start_index (m ∷ ms) index =
    if leb index (length (m ∷ ms))
    then some (user_below (m ∷ ms) (suc (min index (length (m ∷ ms) - 1))))
    else none

-- `next((c for c in candidates if c >= index), None)`
unfoldable pub first_from : ℕ → List ℕ → Option ℕ
first_from index [] = none
first_from index (c ∷ cs) = let rest = first_from index cs in if leb index c then some c else rest

-- `len(messages) if safe_after is None else safe_after`
abbrev pub or_end : ℕ → Option ℕ → ℕ
or_end n none = n
or_end n (some c) = c

module _ (dumps : JsonDumps) (messages : List Message) (keep : ℕ) where
  -- The loop from the end of `find_cut_point`: the index at which the tokens reach the budget.
  unfoldable pub crossing : ℕ → ℕ → Option ℕ
  unfolding estimate_context_tokens
  crossing zero accumulated = none
  crossing (suc i) accumulated =
      let total = accumulated + estimate_context_tokens dumps (take 1 (drop i messages)) in
      elim (ltb total keep) [ true ↦ crossing i total | false ↦ some i ]

  abbrev pub chosen_at : ℕ → List ℕ → Option ℕ → ℕ
  chosen_at first cs none = first
  chosen_at first cs (some i) = or_end (length messages) (first_from i cs)

  -- The preference for a whole turn.
  abbrev pub prefer_turn : List ℕ → ℕ → Option ℕ → ℕ
  prefer_turn cs chosen none = chosen
  prefer_turn cs chosen (some start) =
      if ltb chosen (length messages)
        && ltb 0 start
        && contains cs start
        && leb (estimate_context_tokens dumps (drop start messages)) keep
      then start
      else chosen

  abbrev pub is_split : ℕ → Bool
  is_split chosen = chosen == length messages || not (is_user_at messages chosen)

  abbrev pub cut_among : List ℕ → ℕ × Bool
  cut_among [] = (0, false)
  cut_among (first ∷ rest) =
      let cs = first ∷ rest in
      let chosen = chosen_at first cs (crossing (length messages) 0) in
      let cut = prefer_turn cs chosen (find_turn_start_index messages chosen) in (cut, is_split cut)

  -- An empty conversation has no candidates.
  unfoldable pub find_cut_point : ℕ × Bool
  unfolding crossing first_from find_turn_start_index inner safe_cut_indices contains
      estimate_context_tokens
  find_cut_point = cut_among (candidates messages)
