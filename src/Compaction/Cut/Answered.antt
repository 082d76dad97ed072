-- ===== src/Compaction/Cut/Answered.antt =====
-- The calls of tools before the cut of src/pi_agent/harness/compaction/compaction.py.
use mathlib.Core.Path.{subst}
use text.Mathlib.TextEquality.{eq_iff}
use pi_agent_python.Base.{
  ℕ, ◌<◌, String, ◌≡◌, refl, sym, ap, ◌∙◌, Bool, true, false, inl, inr, List, [], ◌∷◌, ◌++◌, arith,
  beq, string_eq, Bool-cases, nat_eq,
}
use pi_agent_python.Base.Lists.{length, take, contains, discard, any}
use pi_agent_python.Ai.Types.{Message, AssistantMessage, ToolCall, tool_calls}
use pi_agent_python.Compaction.Tokens.{JsonDumps}
use pi_agent_python.Compaction.Cut.{add_calls, pending_step, no_pending, find_cut_point}
use pi_agent_python.Compaction.Cut.Safe.{pending_of, IsClosed, find_cut_point-IsClosed}

abbrev pub is_result_of : String → Message → Bool
is_result_of k (Message.tool_result t) = beq t.tool_call_id k
is_result_of k _ = false

contains-discard_ne :
    (x k : String) (xs : List String)
    → beq x k ≡ false
    → contains xs k ≡ true
    → contains (discard x xs) k ≡ true
unfolding contains discard
contains-discard_ne x k [] h c = c
contains-discard_ne x k (y ∷ xs) h c =
    ground (arith, contains-discard_ne x k xs h, eq_iff y x, eq_iff y k, eq_iff x k)

contains-add_calls :
    (k : String) (pending : List String) (cs : List ToolCall)
    → contains pending k ≡ true
    → contains (add_calls pending cs) k ≡ true
unfolding add_calls
contains-add_calls k pending [] h = h
contains-add_calls k pending (c ∷ cs) h =
    contains-add_calls k (c.id ∷ pending) cs (unfold contains in ground arith)

-- A call is pending from its message on, until a result for it.
call-pending :
    (k : String) (pending : List String) (cs : List ToolCall)
    → any (λ c. beq c.id k) cs ≡ true
    → contains (add_calls pending cs) k ≡ true
unfolding add_calls
call-pending k pending [] h = cc
call-pending k pending (c ∷ cs) h = elim (Bool-cases (beq c.id k)) [
  | inl here ↦ contains-add_calls k (c.id ∷ pending) cs (unfold contains in ground arith)
  | inr there ↦ call-pending k (c.id ∷ pending) cs (ground arith)
]

step_pending :
    (k : String) (pending : List String) (m : Message)
    → contains pending k ≡ true
    → is_result_of k m ≡ false
    → contains (pending_step pending m) k ≡ true
unfolding pending_step
step_pending k pending (Message.user _) h r = h
step_pending k pending (Message.assistant a) h r =
    contains-add_calls k pending (tool_calls a.content) h
step_pending k pending (Message.tool_result t) h r =
    contains-discard_ne t.tool_call_id k pending r h

stays_pending :
    (k : String) (pending : List String) (ms : List Message)
    → contains pending k ≡ true
    → any (is_result_of k) ms ≡ false
    → contains (pending_of pending ms) k ≡ true
unfolding pending_of
stays_pending k pending [] h r = h
stays_pending k pending (m ∷ ms) h r =
    stays_pending k (pending_step pending m) ms (step_pending k pending m h (ground arith))
      (ground arith)

pending_of-append :
    (pending : List String) (a b : List Message)
    → pending_of pending (a ++ b) ≡ pending_of (pending_of pending a) b
unfolding pending_of
pending_of-append pending [] b = refl
pending_of-append pending (m ∷ a) b = pending_of-append (pending_step pending m) a b

none_pending : (k : String) (p : List String) → no_pending p ≡ true → contains p k ≡ false
unfolding contains
none_pending k [] h = refl
none_pending k (x ∷ p) h = cc

-- In a closed conversation every call has a result behind it.
pub closed_answered :
    (a : List Message) (m : AssistantMessage) (b : List Message) (k : String)
    → IsClosed (a ++ Message.assistant m ∷ b)
    → any (λ c. beq c.id k) (tool_calls m.content) ≡ true
    → any (is_result_of k) b ≡ true
closed_answered a m b k closed called = elim (Bool-cases (any (is_result_of k) b)) [
  | inl answered ↦ answered
  | inr open_call ↦
      let pending : List String = add_calls (pending_of [] a) (tool_calls m.content) in
      let at_end : contains (pending_of pending b) k ≡ true =
        stays_pending k pending b (call-pending k (pending_of [] a) (tool_calls m.content) called)
          open_call in
      let same : pending_of [] (a ++ Message.assistant m ∷ b) ≡ pending_of pending b =
        pending_of-append [] a (Message.assistant m ∷ b) ∙ unfold pending_of pending_step in refl in
      cc (none_pending k (pending_of pending b) (ap no_pending (sym same) ∙ closed), at_end)
]

-- A cut before the end keeps every tool batch of the summarised part whole: each call there has a
-- result there, behind it.
pub find_cut_point-answered :
    (dumps : JsonDumps) (messages : List Message) (keep : ℕ) (a : List Message)
    (m : AssistantMessage) (b : List Message) (k : String)
    → (find_cut_point dumps messages keep).0 < length messages
    → take (find_cut_point dumps messages keep).0 messages ≡ a ++ Message.assistant m ∷ b
    → any (λ c. beq c.id k) (tool_calls m.content) ≡ true
    → any (is_result_of k) b ≡ true
find_cut_point-answered dumps messages keep a m b k before parts called =
    elim (find_cut_point-IsClosed dumps messages keep) [
      | inl nowhere ↦ absurd (no_prefix a m b (ap (λ r. take r.0 messages) (sym nowhere) ∙ parts))
      | inr (inl end) ↦ absurd (omega (arith, end))
      | inr (inr (_, _, closed)) ↦ closed_answered a m b k (subst IsClosed parts closed) called
    ]
  where
    no_prefix :
        (a : List Message) (m : AssistantMessage) (b : List Message)
        → [] ≡ a ++ Message.assistant m ∷ b
        → ⊥
    no_prefix [] m b h = cc
    no_prefix (x ∷ a) m b h = cc
