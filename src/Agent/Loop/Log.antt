-- ===== src/Agent/Loop/Log.antt =====
-- What the coroutines of src/pi_agent/agent/agent_loop.py add to the events of a run.
use pi_agent_python.Base.{
  ◌≡◌, refl, sym, ap, ◌∙◌, false, Option, none, some, List, [], ◌∷◌, ◌++◌, append-nil, append_assoc,
}
use pi_agent_python.Base.Lists.{All, All-append}
use pi_agent_python.Base.Result.{ok, err}
use pi_agent_python.Agent.Types.{Exn, Outcome, AgentEvent, Ask}
use pi_agent_python.Agent.Loop.{
  Env, LoopState, Loop, is_agent_end, continue, ◌>>=◌, pure, raise, attempt, settle, ask, get,
  change, to_sink, told, ended, emit,
}

-- Events of which none ends the run.
abbrev pub IsOpen : List AgentEvent → Type 0
IsOpen l = All (λ e. is_agent_end e ≡ false) l

module _ {W : Type 0} where
  -- The events after a step are those before it and more, of which none ends the run.
  abbrev pub Grows : LoopState W → LoopState W → Type 0
  Grows s t = (l : List AgentEvent) × (t.emitted ≡ s.emitted ++ l) × IsOpen l

  pub Grows-none : (s t : LoopState W) → t.emitted ≡ s.emitted → Grows s t
  Grows-none s t e = ([], e ∙ sym (append-nil s.emitted), tt)

  pub Grows-then : (s t u : LoopState W) → Grows s t → Grows t u → Grows s u
  Grows-then s t u (l, e, a) (m, f, b) = (
    l ++ m,
    f ∙ ap (λ k. k ++ m) e ∙ append_assoc s.emitted l m,
    All-append (λ x. is_agent_end x ≡ false) l m a b,
  )

  -- Whatever its outcome, a coroutine does not end the run.
  pub record Continues {A : Type 0} (p : Loop W A) : Type 0 where
    pub grows : (s : LoopState W) → Grows s (p s).1

  Grows-continue :
      {A B : Type 0} (f : A → Loop W B) (s : LoopState W) (r : Outcome A × LoopState W)
      → Grows s r.1
      → ((a : A) → Continues (f a))
      → Grows s (continue r.0 f r.1).1
  unfolding continue
  Grows-continue f s (ok a, t) h k = Grows-then s t (f a t).1 h ((k a).grows t)
  Grows-continue f s (err x, t) h k = h

  pub Continues->>= :
      {A B : Type 0} (p : Loop W A) (f : A → Loop W B)
      → Continues p
      → ((a : A) → Continues (f a))
      → Continues (p >>= f)
  unfolding ◌>>=◌
  Continues->>= p f h k = record { grows = λ s. Grows-continue f s (p s) (h.grows s) k }

  pub Continues-attempt : {A : Type 0} (p : Loop W A) → Continues p → Continues (attempt p)
  unfolding attempt
  Continues-attempt p h = record { grows = λ s. h.grows s }

  pub Continues-pure : {A : Type 0} (a : A) → Continues (pure a)
  unfolding pure
  Continues-pure a = record { grows = λ s. Grows-none s s refl }

  pub Continues-raise : {A : Type 0} (x : Exn) → Continues (raise {A = A} x)
  unfolding raise
  Continues-raise x = record { grows = λ s. Grows-none s s refl }

  pub Continues-settle : {A : Type 0} (r : Outcome A) → Continues (settle r)
  unfolding settle
  Continues-settle r = record { grows = λ s. Grows-none s s refl }

  pub Continues-get : Continues get
  unfolding get
  Continues-get = record { grows = λ s. Grows-none s s refl }

  pub Continues-ask : {A : Type 0} (f : Ask W A) → Continues (ask f)
  unfolding ask
  Continues-ask f = record { grows = λ s. Grows-none s (ask f s).1 refl }

  pub Continues-change :
      (f : LoopState W → LoopState W)
      → ((s : LoopState W) → (f s).emitted ≡ s.emitted)
      → Continues (change f)
  unfolding change
  Continues-change f h = record { grows = λ s. Grows-none s (f s) (h s) }

  Continues-to_sink :
      (o : Option (AgentEvent → Ask W Unit)) (e : AgentEvent) → Continues (to_sink o e)
  Continues-to_sink none e = Continues-pure tt
  Continues-to_sink (some sink) e = Continues-ask (sink e)

  Continues-told :
      (env : Env W) (e : AgentEvent) → is_agent_end e ≡ false → Continues (change (told env e))
  unfolding change
  Continues-told env e h = record { grows = λ s. (e ∷ [], refl, (h, tt)) }

  pub Continues-emit :
      (env : Env W) (e : AgentEvent) → is_agent_end e ≡ false → Continues (emit env e)
  unfolding emit
  Continues-emit env e h = Continues->>= (change (told env e)) _ (Continues-told env e h) (λ _.
      Continues->>= _ _ (Continues-to_sink env.sink e)
        (λ _. Continues-change (ended env e) (λ s. refl)))

  pub Continues-silent :
      {A : Type 0} (p : Loop W A) → ((s : LoopState W) → (p s).1.emitted ≡ s.emitted) → Continues p
  Continues-silent p h = record { grows = λ s. Grows-none s (p s).1 (h s) }
