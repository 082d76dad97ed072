-- ===== src/Ai/EventStream/Delivery.antt =====
-- Sequences of operations on the streams of src/pi_agent/ai/event_stream.py.
use pi_agent_python.Base.{
  ℕ, ◌≡◌, refl, sym, ap, ◌∙◌, Bool, true, false, ◌⊎◌, inl, inr, Option, some, List, [], ◌∷◌, ◌++◌,
  append-nil, append_assoc, arith, if◌then◌else◌, Bool-cases,
}
use pi_agent_python.Base.Lists.{all}
use pi_agent_python.Ai.EventStream.{
  Waiter, EventStream, new_stream, hand, end, next, next_of, completed, push,
}

pub data Op (T R : Type 0) : Type 0 where
  pushes : T → Op T R
  ends : Option R → Op T R
  asks : ℕ → Op T R

module _ {T R : Type 0} (is_complete : T → Bool) (extract_result : T → R) where
  abbrev pub step : Op T R → EventStream T R → EventStream T R
  step (Op.pushes e) s = push is_complete extract_result e s
  step (Op.ends r) s = end r s
  step (Op.asks id) s = (next id s).1

  -- The state after the operations, and the events pushed while the stream was open.
  abbrev pub run : List (Op T R) → EventStream T R → EventStream T R
  run [] s = s
  run (o ∷ os) s = run os (step o s)

  abbrev pub accepted_by : Op T R → EventStream T R → List T
  accepted_by (Op.pushes e) s = if s.done then [] else e ∷ []
  accepted_by (Op.ends r) s = []
  accepted_by (Op.asks id) s = []

  abbrev pub accepted : List (Op T R) → EventStream T R → List T
  accepted [] s = []
  accepted (o ∷ os) s = accepted_by o s ++ accepted os (step o s)

  -- No consumer waits while an event is queued.
  abbrev Idle : EventStream T R → Type 0
  Idle s = (s.queue ≡ []) ⊎ (all Waiter.done s.waiting ≡ true)

  -- The step adds the events `more` to what was received or is queued.
  record Adds (s : EventStream T R) (more : List T) (s' : EventStream T R) : Type 0 where
    idle : Idle s'
    added : s'.received ++ s'.queue ≡ (s.received ++ s.queue) ++ more

  hand-Adds :
      (e : T) (ws : List Waiter) (s : EventStream T R)
      → (s.queue ≡ []) ⊎ (all Waiter.done ws ≡ true)
      → Adds s (e ∷ []) (hand e ws s)
  unfolding hand
  hand-Adds e [] s h = record {
    idle = inr refl;
    added = sym (append_assoc s.received s.queue (e ∷ []));
  }
  hand-Adds e (w ∷ ws) s h = elim (Bool-cases w.done) [
    | inl gone ↦ rw gone (hand-Adds e ws s (rest h gone))
    | inr live ↦ rw live (given h live)
  ]
    where
      rest :
          (s.queue ≡ []) ⊎ (all Waiter.done (w ∷ ws) ≡ true)
          → w.done ≡ true
          → (s.queue ≡ []) ⊎ (all Waiter.done ws ≡ true)
      rest (inl q) g = inl q
      rest (inr a) g = inr (ground arith)

      given :
          (s.queue ≡ []) ⊎ (all Waiter.done (w ∷ ws) ≡ true)
          → w.done ≡ false
          → Adds s (e ∷ []) (record s { waiting = ws; received = s.received ++ e ∷ [] })
      given (inl q) live = record {
        idle = inl q;
        added =
            ap (λ l. (s.received ++ e ∷ []) ++ l) q
            ∙ append-nil (s.received ++ e ∷ [])
            ∙ ap (λ l. l ++ e ∷ [])
                (sym (append-nil s.received) ∙ ap (λ l. s.received ++ l) (sym q));
      }
      given (inr a) live = absurd (ground arith)

  next-Adds :
      (id : ℕ) (q : List T) (s : EventStream T R)
      → s.queue ≡ q
      → Idle s
      → Adds s [] (next_of id q s).1
  next-Adds id (x ∷ xs) s at h = record {
    idle = still h;
    added =
        append_assoc s.received (x ∷ []) xs
        ∙ ap (λ l. s.received ++ l) (sym at)
        ∙ sym (append-nil (s.received ++ s.queue));
  }
    where
      still : Idle s → (xs ≡ []) ⊎ (all Waiter.done s.waiting ≡ true)
      still (inl none_queued) = cc
      still (inr gone) = inr gone
  next-Adds id [] s at h = elim (Bool-cases s.done) [
    | inl over ↦ rw over (record { idle = h; added = sym (append-nil (s.received ++ s.queue)) })
    | inr running ↦
        rw running (record { idle = inl at; added = sym (append-nil (s.received ++ s.queue)) })
  ]

  step-Adds : (o : Op T R) (s : EventStream T R) → Idle s → Adds s (accepted_by o s) (step o s)
  unfolding push end next
  step-Adds (Op.pushes e) s h = judged s.done
    where
      pushed :
          (b : Bool)
          → Adds s (e ∷ []) (
              hand e s.waiting
                (if b then record s { done = true; result = some (extract_result e) } else s))
      pushed true =
          let a =
            hand-Adds e s.waiting (record s { done = true; result = some (extract_result e) }) h in
          record { idle = a.idle; added = a.added }
      pushed false = hand-Adds e s.waiting s h

      judged :
          (over : Bool)
          → Adds s
              (if over then [] else e ∷ [])
              (if over then s else hand e s.waiting (completed is_complete extract_result e s))
      judged true = record { idle = h; added = sym (append-nil (s.received ++ s.queue)) }
      judged false = pushed (is_complete e)
  step-Adds (Op.ends r) s h = record {
    idle = inr refl;
    added = sym (append-nil (s.received ++ s.queue));
  }
  step-Adds (Op.asks id) s h = next-Adds id s.queue s refl h

  run_from :
      (os : List (Op T R)) (s : EventStream T R)
      → Idle s
      → (run os s).received ++ (run os s).queue ≡ (s.received ++ s.queue) ++ accepted os s
  run_from [] s h = sym (append-nil (s.received ++ s.queue))
  run_from (o ∷ os) s h =
      let a = step-Adds o s h in
      run_from os (step o s) a.idle
      ∙ ap (λ l. l ++ accepted os (step o s)) a.added
      ∙ append_assoc (s.received ++ s.queue) (accepted_by o s) (accepted os (step o s))

  -- After any sequence of pushes, ends and requests of consumers on a new stream, the events that the
  -- consumers received, followed by those still queued, are the events pushed while the stream was
  -- open: none is lost, doubled or reordered.
  pub run-accepted :
      (os : List (Op T R))
      → (run os new_stream).received ++ (run os new_stream).queue ≡ accepted os new_stream
  run-accepted os = run_from os new_stream (inl refl)
