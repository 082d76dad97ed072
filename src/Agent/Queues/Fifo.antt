-- ===== src/Agent/Queues/Fifo.antt =====
-- The order in the queues of src/pi_agent/agent/queues.py.
use pi_agent_python.Base.{
  ℕ, zero, suc, ◌≤◌, String, ◌≡◌, refl, sym, ap, ◌∙◌, Bool, true, false, List, [], ◌∷◌, ◌++◌,
  append-nil, append_assoc, arith, string_eq, beq,
}
use pi_agent_python.Base.Lists.{length}
use pi_agent_python.Agent.Queues.{MessageQueue, push, drain_by, drain}

module _ {A : Type 0} where
  abbrev pub push_all : List A → MessageQueue A → MessageQueue A
  push_all [] q = q
  push_all (x ∷ xs) q = push_all xs (push x q)

  -- What `n` drains in a row return, and the queue that they leave.
  abbrev pub drain_times : ℕ → MessageQueue A → List A × MessageQueue A
  drain_times zero q = ([], q)
  drain_times (suc n) q =
      let (out, q') = drain q in let (rest, q'') = drain_times n q' in (out ++ rest, q'')

  items-push_all : (xs : List A) (q : MessageQueue A) → (push_all xs q).items ≡ q.items ++ xs
  items-push_all [] q = sym (append-nil q.items)
  items-push_all (x ∷ xs) q =
      items-push_all xs (push x q) ∙ unfold push in append_assoc q.items (x ∷ []) xs

  drain_splits :
      (one : Bool) (items : List A)
      → ((drain_by one items).0 ++ (drain_by one items).1 ≡ items)
        × ((n : ℕ) → length items ≤ suc n → length (drain_by one items).1 ≤ n)
  drain_splits true [] = (refl, λ n h. omega arith)
  drain_splits false [] = (refl, λ n h. omega arith)
  drain_splits true (x ∷ xs) = (refl, λ n h. omega arith)
  drain_splits false (x ∷ xs) = (append-nil (x ∷ xs), λ n h. omega arith)

  empty_of : (items : List A) → length items ≤ 0 → items ≡ []
  empty_of [] h = refl
  empty_of (x ∷ xs) h = absurd (omega arith)

  drain_times_items :
      (n : ℕ) (q : MessageQueue A)
      → length q.items ≤ n
      → ((drain_times n q).0 ≡ q.items) × ((drain_times n q).1.items ≡ [])
  unfolding drain
  drain_times_items zero q h = (sym (empty_of q.items h), empty_of q.items h)
  drain_times_items (suc n) q h =
      let (out, left) = drain_by (beq q.mode "one-at-a-time") q.items in
      let (same, shorter) = drain_splits (beq q.mode "one-at-a-time") q.items in
      let (rest, none_left) =
        drain_times_items n (record q { items = (drain_by (beq q.mode "one-at-a-time") q.items).1 })
          (shorter n h) in
      (ap (λ r. (drain_by (beq q.mode "one-at-a-time") q.items).0 ++ r) rest ∙ same, none_left)

  -- Messages pushed on an empty queue come out of the drains in that order, each once, in both modes;
  -- as many drains as there are messages are enough, and leave the queue empty.
  pub drain_times-push_all :
      (mode : String) (xs : List A) (n : ℕ)
      → length xs ≤ n
      → ((drain_times n (push_all xs (record { mode = mode; items = [] }))).0 ≡ xs)
        × ((drain_times n (push_all xs (record { mode = mode; items = [] }))).1.items ≡ [])
  drain_times-push_all mode xs n h =
      let q : MessageQueue A = push_all xs (record { mode = mode; items = [] }) in
      let pushed : q.items ≡ xs = items-push_all xs (record { mode = mode; items = [] }) in
      let (out, left) = drain_times_items n q (omega (arith, ap length pushed)) in
      (out ∙ pushed, left)
