-- ===== src/Agent/Loop/Parallel.antt =====
-- The answers to the calls of a parallel batch, src/pi_agent/agent/agent_loop.py.
use mathlib.Core.Path.{subst}
use mathlib.Core.List.{Memᴰ}
use mathlib.Core.List.Memᴰ
use pi_agent_python.Base.{
  ℕ, suc, ◌+◌, ◌<◌, ◌≡◌, refl, sym, ap, ◌∙◌, true, Option, none, some, ◌⊎◌, ◌↔◌, inl, inr, List, [],
  ◌∷◌, ◌++◌, arith, beq, nat_eq, ==_iff, Bool-cases,
}
use pi_agent_python.Base.Lists.{length, get_elem?}
use pi_agent_python.Base.Dict.{Dict, lookup, insert, lookup-insert_self, lookup-insert_ne}
use pi_agent_python.Ai.Types.{ToolCall, AssistantMessage}
use pi_agent_python.Agent.Types.{AgentLoopConfig}
use pi_agent_python.Agent.Loop.{Env, PreparedToolCall, ToolOutcome, LoopState}
use pi_agent_python.Agent.Loop.Tools.{Preparation, prepared, settled}
use pi_agent_python.Agent.Loop.Batch.{
  launch, launch_all, complete_all, ordered, record_all, execute_parallel,
}
use pi_agent_python.Agent.Loop.Returns.{
  Always, Returns, Returns->>=, Returns-after, Returns-pure, Returns-get, Returns-known,
  Returns-weaken, Returns-anywhere,
}
use pi_agent_python.Agent.Loop.Answers.{
  Answered, none_left, one_more, IsFor, Returns-record_result, Returns-prepare_tool_call,
  Returns-run_prepared_tool,
}

abbrev Outcomes : Type 0
Outcomes = Dict ℕ ToolOutcome

abbrev IsThere : ℕ → Outcomes → Type 0
IsThere i d = (o : ToolOutcome) × (lookup i d ≡ some o)

-- The outcomes stand under the places of their calls.
abbrev Right : List ToolCall → Outcomes → Type 0
Right calls d = (i : ℕ) (o : ToolOutcome) → lookup i d ≡ some o → get_elem? calls i ≡ some o.call

found_self :
    (d : Outcomes) (i j : ℕ) (o : ToolOutcome) → beq i j ≡ true → lookup j (insert i o d) ≡ some o
found_self d i j o same =
    subst (λ k. lookup k (insert i o d) ≡ some o) ((==_iff i j).0 same) (lookup-insert_self i o d)

abbrev call_of : Option ToolOutcome → Option ToolCall
call_of none = none
call_of (some o) = some o.call

Right-insert :
    (calls : List ToolCall) (d : Outcomes) (i : ℕ) (o : ToolOutcome)
    → Right calls d
    → get_elem? calls i ≡ some o.call
    → Right calls (insert i o d)
Right-insert calls d i o h e j p found = elim (Bool-cases (beq i j)) [
  | inl same ↦
      let there : lookup j (insert i o d) ≡ some o = found_self d i j o same in
      subst (λ k. get_elem? calls k ≡ some o.call) ((==_iff i j).0 same) e
      ∙ ap call_of (sym there ∙ found)
  | inr other ↦ h j p (sym (lookup-insert_ne i j o d other) ∙ found)
]

IsThere-insert : (d : Outcomes) (i j : ℕ) (o : ToolOutcome) → IsThere j d → IsThere j (insert i o d)
IsThere-insert d i j o h = elim (Bool-cases (beq i j)) [
  | inl same ↦ (o, found_self d i j o same)
  | inr other ↦ (h.0, lookup-insert_ne i j o d other ∙ h.1)
]

-- The calls that wait stand under their places.
abbrev Waits : {W : Type 0} → List ToolCall → List (PreparedToolCall W) → Type 0
Waits calls l = (p : PreparedToolCall _) → Memᴰ p l → get_elem? calls p.index ≡ some p.call

-- A place has an outcome, or its call waits.
abbrev IsTaken : {W : Type 0} → Outcomes → List (PreparedToolCall W) → ℕ → Type 0
IsTaken d l i = IsThere i d ⊎ ((p : PreparedToolCall _) × Memᴰ p l × (p.index ≡ i))

-- The calls before a place are launched.
record IsLaunched {W : Type 0} (calls : List ToolCall) (n : ℕ)
    (l : Outcomes × List (PreparedToolCall W)) : Type 0 where
  right : Right calls l.0
  waits : Waits calls l.1
  taken : (i : ℕ) → i < n → IsTaken l.0 l.1 i

-- `schedule` hands on every task, and no other.
pub record IsFair {W : Type 0} (env : Env W) : Type 0 where
  pub same :
      (w : W) (l : List (PreparedToolCall W)) (p : PreparedToolCall W)
      → Memᴰ p (env.schedule w l) ↔ Memᴰ p l

below_suc : (i n : ℕ) → i < suc n → (i ≡ n) ⊎ (i < n)
below_suc i n h = elim (Bool-cases (beq i n)) [
  | inl same ↦ inl ((==_iff i n).0 same)
  | inr other ↦ inr (ground arith)
]

member_one : {A : Type 0} {a b : A} → Memᴰ a (b ∷ []) → a ≡ b
member_one (Memᴰ.head e) = e
member_one (Memᴰ.tail m) = absurd (Memᴰ.not-nil m)

module _ {W : Type 0} (calls : List ToolCall) (index : ℕ) (call : ToolCall)
    (found : get_elem? calls index ≡ some call) where
  IsLaunched-settled :
      (d : Outcomes) (l : List (PreparedToolCall W)) (o : ToolOutcome)
      → IsLaunched calls index (d, l)
      → o.call ≡ call
      → IsLaunched calls (suc index) (insert index o d, l)
  IsLaunched-settled d l o h e = record {
    right = Right-insert calls d index o h.right (found ∙ ap some (sym e));
    waits = h.waits;
    taken = λ i lt. elim (below_suc i index lt) [
      | inl last ↦ inl (
        o,
        subst (λ k. lookup k (insert index o d) ≡ some o) (sym last) (lookup-insert_self index o d),
      )
      | inr old ↦ elim (h.taken i old) [
        | inl there ↦ inl (IsThere-insert d index i o there)
        | inr waiting ↦ inr waiting
      ]
    ];
  }

  IsLaunched-prepared :
      (d : Outcomes) (l : List (PreparedToolCall W)) (p : PreparedToolCall W)
      → IsLaunched calls index (d, l)
      → p.index ≡ index
      → p.call ≡ call
      → IsLaunched calls (suc index) (d, l ++ p ∷ [])
  IsLaunched-prepared d l p h e f = record {
    right = h.right;
    waits = λ q m. elim (Memᴰ.append_cases l m) [
      | inl old ↦ h.waits q old
      | inr new ↦
          subst (λ r. get_elem? calls r.index ≡ some r.call) (sym (member_one new))
            (ap (get_elem? calls) e ∙ found ∙ ap some (sym f))
    ];
    taken = λ i lt. elim (below_suc i index lt) [
      | inl last ↦ inr (p, Memᴰ.append_right l (Memᴰ.head refl), e ∙ sym last)
      | inr old ↦ elim (h.taken i old) [
        | inl there ↦ inl there
        | inr waiting ↦ inr (waiting.0, Memᴰ.append_left (p ∷ []) waiting.1, waiting.2)
      ]
    ];
  }

-- What is taken before a task completes is taken after it.
IsTaken-after :
    {W : Type 0} (p : PreparedToolCall W) (ps : List (PreparedToolCall W)) (d : Outcomes)
    (o : ToolOutcome) (i : ℕ)
    → o.index ≡ p.index
    → IsTaken d (p ∷ ps) i
    → IsTaken (insert o.index o d) ps i
IsTaken-after p ps d o i e (inl there) = inl (IsThere-insert d o.index i o there)
IsTaken-after p ps d o i e (inr (q, Memᴰ.head same, at)) = inl (
  o,
  subst (λ k. lookup k (insert o.index o d) ≡ some o)
      (e ∙ sym (ap PreparedToolCall.index same) ∙ at) (lookup-insert_self o.index o d),
)
IsTaken-after p ps d o i e (inr (q, Memᴰ.tail m, at)) = inr (q, m, at)

abbrev or_else : ToolCall → Option ToolCall → ToolCall
or_else c none = c
or_else c (some d) = d

-- The calls from a place on.
abbrev IsFrom : List ToolCall → ℕ → List ToolCall → Type 0
IsFrom calls index rest = (k : ℕ) → get_elem? calls (index + k) ≡ get_elem? rest k

IsFrom-head :
    (calls : List ToolCall) (index : ℕ) (call : ToolCall) (rest : List ToolCall)
    → IsFrom calls index (call ∷ rest)
    → get_elem? calls index ≡ some call
IsFrom-head calls index call rest h = subst (λ n. get_elem? calls n ≡ some call) (omega arith) (h 0)

IsFrom-tail :
    (calls : List ToolCall) (index : ℕ) (call : ToolCall) (rest : List ToolCall)
    → IsFrom calls index (call ∷ rest)
    → IsFrom calls (suc index) rest
IsFrom-tail calls index call rest h k =
    subst (λ n. get_elem? calls n ≡ get_elem? rest k) (omega arith) (h (suc k))

-- The outcomes in the order of the calls.
data IsOrdered : List ToolCall → List ToolOutcome → Type 0 where
  no_more : IsOrdered [] []
  next :
      {call : ToolCall} {calls : List ToolCall} {o : ToolOutcome} {os : List ToolOutcome}
      → o.call ≡ call
      → IsOrdered calls os
      → IsOrdered (call ∷ calls) (o ∷ os)

module _ {W : Type 0} (env : Env W) (config : AgentLoopConfig W)
    (assistant : AssistantMessage) where
  module _ (calls : List ToolCall) where
    Returns-launch :
        (index : ℕ) (call : ToolCall) (l : Outcomes × List (PreparedToolCall W)) (p : Preparation W)
        → get_elem? calls index ≡ some call
        → IsLaunched calls index l
        → Returns
            (IsFor index call p)
            (λ m _. IsLaunched calls (suc index) m)
            (launch env config assistant index l p)
    Returns-launch index call (d, l) (prepared p) found h = Returns-known (λ e.
        Returns-pure _ (λ _ _. IsLaunched-prepared calls index call found d l p h (e.0) (e.1)))
    Returns-launch index call (d, l) (settled o) found h = Returns-known (λ e.
        Returns-after _ _
          (λ _. Returns-pure _ (λ _ _. IsLaunched-settled calls index call found d l o h (e.1))))

    Returns-launch_all :
        (index : ℕ) (rest : List ToolCall) (l : Outcomes × List (PreparedToolCall W))
        → IsFrom calls index rest
        → IsLaunched calls index l
        → Returns Always
            (λ m _. IsLaunched calls (index + length rest) m)
            (launch_all env config assistant index rest l)
    unfolding launch_all
    Returns-launch_all index [] l h k =
        Returns-pure l (λ _ _. subst (λ n. IsLaunched calls n l) (omega arith) k)
    Returns-launch_all index (call ∷ rest) l h k = Returns-after _ _ (λ _.
        Returns->>= _ _ (Returns-prepare_tool_call env config call index assistant) (λ p.
          Returns->>= _ _ (Returns-launch index call l p (IsFrom-head calls index call rest h) k)
            (λ m. Returns-known (λ j.
              Returns-weaken
                (Returns-launch_all (suc index) rest m (IsFrom-tail calls index call rest h) j)
                (λ q _ x. subst (λ n. IsLaunched calls n q) (omega arith) x)))))

    Returns-complete_all :
        (ps : List (PreparedToolCall W)) (d : Outcomes)
        → Right calls d
        → Waits calls ps
        → Returns Always
            (λ e _. Right calls e × ((i : ℕ) → IsTaken d ps i → IsThere i e))
            (complete_all env config assistant ps d)
    unfolding complete_all
    Returns-complete_all [] d h k = Returns-pure d (λ _ _.
        (h, λ i t. elim t [ inl there ↦ there | inr waiting ↦ absurd (Memᴰ.not-nil (waiting.1)) ]))
    Returns-complete_all (p ∷ ps) d h k =
        Returns->>= _ _ (Returns-run_prepared_tool env config assistant p) (λ o. Returns-known (λ e.
          Returns-after _ _ (λ _.
            Returns-weaken
              (Returns-complete_all ps (insert o.index o d)
                (Right-insert calls d o.index o h
                  (ap (get_elem? calls) (e.0) ∙ k p (Memᴰ.head refl) ∙ ap some (sym (e.1))))
                (λ q m. k q (Memᴰ.tail m)))
              (λ f _ x. (x.0, λ i t. x.1 i (IsTaken-after p ps d o i (e.0) t))))))

    ordered-some :
        (d : Outcomes) (index : ℕ) (call : ToolCall) (rest : List ToolCall) (o : ToolOutcome)
        → lookup index d ≡ some o
        → ordered env config assistant d index (call ∷ rest)
          ≡ o ∷ ordered env config assistant d (suc index) rest
    unfolding ordered
    ordered-some d index call rest o h = ground arith

    ordered-IsOrdered :
        (d : Outcomes) (index : ℕ) (rest : List ToolCall)
        → Right calls d
        → IsFrom calls index rest
        → ((i : ℕ) → i < index + length rest → IsThere i d)
        → IsOrdered rest (ordered env config assistant d index rest)
    unfolding ordered
    ordered-IsOrdered d index [] h k t = no_more
    ordered-IsOrdered d index (call ∷ rest) h k t =
        let (o, there) = t index (omega arith) in
        let same : some o.call ≡ some call =
          sym (h index o there) ∙ IsFrom-head calls index call rest k in
        subst (IsOrdered (call ∷ rest)) (sym (ordered-some d index call rest o there)) (
          next (ap (or_else call) same) (
            ordered-IsOrdered d (suc index) rest h (IsFrom-tail calls index call rest k)
              (λ i lt. t i (omega arith))))

  Returns-record_all :
      (calls : List ToolCall) (os : List ToolOutcome)
      → IsOrdered calls os
      → Returns Always (λ l _. Answered calls l) (record_all env config assistant os)
  unfolding record_all
  Returns-record_all _ [] no_more = Returns-pure [] (λ _ _. none_left)
  Returns-record_all [] (o ∷ os) h = elim h [ ]
  Returns-record_all (call ∷ calls) (o ∷ os) (next e h) =
      Returns->>= _ _ (Returns-record_result env config o) (λ m. Returns-known (λ f.
        Returns->>= _ _ (Returns-record_all calls os h)
          (λ rest. Returns-pure _ (λ _ x. one_more (f ∙ ap ToolCall.id e) e x))))

  nothing-IsLaunched : (calls : List ToolCall) → IsLaunched {W = W} calls 0 ([], [])
  unfolding lookup
  nothing-IsLaunched calls = record {
    right = λ i o h. cc;
    waits = λ p m. absurd (Memᴰ.not-nil m);
    taken = λ i lt. absurd (omega arith);
  }

  -- After both loops every place of a call has its outcome.
  complete :
      IsFair env
      → (calls : List ToolCall) (d : Outcomes) (l : List (PreparedToolCall W)) (s : LoopState W)
      → IsLaunched calls (0 + length calls) (d, l)
      → Returns Always
          (λ e _. IsOrdered calls (ordered env config assistant e 0 calls))
          (complete_all env config assistant (env.schedule s.world l) d)
  complete fair calls d l s h =
      Returns-weaken
        (Returns-complete_all calls (env.schedule s.world l) d h.right
          (λ p m. h.waits p ((fair.same s.world l p).0 m)))
        (λ e _ x.
          ordered-IsOrdered calls e 0 calls (x.0) (λ k. ap (get_elem? calls) (omega arith))
            (λ i lt. x.1 i (elim (h.taken i lt) [
              | inl there ↦ inl there
              | inr waiting ↦
                  inr (waiting.0, (fair.same s.world l waiting.0).1 waiting.1, waiting.2)
            ])))

  -- Where each task of the batch is run, a parallel batch that returns answers every call, in order.
  pub Returns-execute_parallel :
      IsFair env
      → (calls : List ToolCall)
      → Returns Always (λ l _. Answered calls l) (execute_parallel env config assistant calls)
  unfolding execute_parallel
  Returns-execute_parallel fair calls =
      Returns->>= _ _
        (Returns-launch_all calls 0 calls ([], []) (λ k. ap (get_elem? calls) (omega arith))
          (nothing-IsLaunched calls))
        (λ m. Returns-known (λ h. Returns-get _ (λ s. Returns-anywhere (
          Returns->>= _ _ (complete fair calls (m.0) (m.1) s h)
            (λ e. Returns-known (λ x. Returns-record_all calls _ x))))))
