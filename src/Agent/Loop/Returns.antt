-- ===== src/Agent/Loop/Returns.antt =====
-- What a coroutine of src/pi_agent/agent/agent_loop.py returns, where it returns, and the state then.
use pi_agent_python.Base.{◌≡◌, refl}
use pi_agent_python.Base.Result.{ok, err}
use pi_agent_python.Agent.Types.{Exn, Outcome}
use pi_agent_python.Agent.Loop.{LoopState, Loop, continue, ◌>>=◌, pure, raise, attempt, get}

-- Of any state.
abbrev pub Always : {W : Type 0} → LoopState W → Type 0
Always s = Unit

module _ {W : Type 0} where
  -- After an outcome: the value and the state have the property, unless an exception was raised.
  pub data At {A : Type 0} (P : A → LoopState W → Type 0) : Outcome A × LoopState W → Type 0 where
    returned : {a : A} {s : LoopState W} → P a s → At P (ok a, s)
    raised : {x : Exn} {s : LoopState W} → At P (err x, s)

  -- From every state that has the first property.
  pub record Returns {A : Type 0} (Pre : LoopState W → Type 0) (Post : A → LoopState W → Type 0)
      (p : Loop W A) : Type 0 where
    pub at : (s : LoopState W) → Pre s → At Post (p s)

  At-continue :
      {A B : Type 0} {Mid : A → LoopState W → Type 0} {Post : B → LoopState W → Type 0}
      (f : A → Loop W B) {r : Outcome A × LoopState W}
      → At Mid r
      → ((a : A) → Returns (Mid a) Post (f a))
      → At Post (continue r.0 f r.1)
  unfolding continue
  At-continue f (returned {a} {s} h) k = (k a).at s h
  At-continue f raised k = raised

  pub Returns->>= :
      {A B : Type 0} {Pre : LoopState W → Type 0} {Mid : A → LoopState W → Type 0}
      {Post : B → LoopState W → Type 0} (p : Loop W A) (f : A → Loop W B)
      → Returns Pre Mid p
      → ((a : A) → Returns (Mid a) Post (f a))
      → Returns Pre Post (p >>= f)
  unfolding ◌>>=◌
  Returns->>= p f h k = record { at = λ s pre. At-continue f (h.at s pre) k }

  At-caught :
      {A B : Type 0} {Mid : A → LoopState W → Type 0} {Post : B → LoopState W → Type 0}
      (f : Outcome A → Loop W B) {r : Outcome A × LoopState W}
      → At Mid r
      → ((a : A) → Returns (Mid a) Post (f (ok a)))
      → ((x : Exn) → Returns (λ _. Unit) Post (f (err x)))
      → At Post (f r.0 r.1)
  At-caught f (returned {a} {s} h) j k = (j a).at s h
  At-caught f (raised {x} {s}) j k = (k x).at s tt

  -- The outcome of an `attempt` is a value.
  pub Returns-attempt :
      {A B : Type 0} {Pre : LoopState W → Type 0} {Mid : A → LoopState W → Type 0}
      {Post : B → LoopState W → Type 0} (p : Loop W A) (f : Outcome A → Loop W B)
      → Returns Pre Mid p
      → ((a : A) → Returns (Mid a) Post (f (ok a)))
      → ((x : Exn) → Returns (λ _. Unit) Post (f (err x)))
      → Returns Pre Post (attempt p >>= f)
  unfolding ◌>>=◌ continue attempt
  Returns-attempt p f h j k = record { at = λ s pre. At-caught f (h.at s pre) j k }

  -- Nothing is known of the value.
  At-any : {A : Type 0} (r : Outcome A × LoopState W) → At {A = A} (λ _ _. Unit) r
  At-any (ok a, s) = returned tt
  At-any (err x, s) = raised

  pub Returns-any :
      {A : Type 0} {Pre : LoopState W → Type 0} (p : Loop W A) → Returns {A = A} Pre (λ _ _. Unit) p
  Returns-any p = record { at = λ s _. At-any (p s) }

  pub Returns-after :
      {A B : Type 0} {Pre : LoopState W → Type 0} {Post : B → LoopState W → Type 0} (p : Loop W A)
      (f : A → Loop W B)
      → ((a : A) → Returns (λ _. Unit) Post (f a))
      → Returns Pre Post (p >>= f)
  Returns-after p f k = Returns->>= p f (Returns-any p) k

  pub Returns-pure :
      {A : Type 0} {Pre : LoopState W → Type 0} {Post : A → LoopState W → Type 0} (a : A)
      → ((s : LoopState W) → Pre s → Post a s)
      → Returns Pre Post (pure a)
  unfolding pure
  Returns-pure a h = record { at = λ s pre. returned (h s pre) }

  pub Returns-raise :
      {A : Type 0} {Pre : LoopState W → Type 0} {Post : A → LoopState W → Type 0} (x : Exn)
      → Returns {A = A} Pre Post (raise x)
  unfolding raise
  Returns-raise x = record { at = λ s pre. raised }

  -- What `get` reads is the state.
  pub Returns-get :
      {B : Type 0} {Pre : LoopState W → Type 0} {Post : B → LoopState W → Type 0}
      (f : LoopState W → Loop W B)
      → ((s : LoopState W) → Returns (λ t. t ≡ s) Post (f s))
      → Returns Pre Post (get >>= f)
  unfolding ◌>>=◌ get continue
  Returns-get f k = record { at = λ s pre. (k s).at s refl }

  -- What is known of no state.
  pub Returns-known :
      {A : Type 0} {H : Type 0} {Post : A → LoopState W → Type 0} {p : Loop W A}
      → (H → Returns (λ _. Unit) Post p)
      → Returns (λ _. H) Post p
  Returns-known k = record { at = λ s h. (k h).at s tt }

  At-weaken :
      {A : Type 0} {P Q : A → LoopState W → Type 0} {r : Outcome A × LoopState W}
      → At P r
      → ((a : A) (s : LoopState W) → P a s → Q a s)
      → At Q r
  At-weaken (returned {a} {s} h) k = returned (k a s h)
  At-weaken raised k = raised

  pub Returns-weaken :
      {A : Type 0} {Pre : LoopState W → Type 0} {P Q : A → LoopState W → Type 0} {p : Loop W A}
      → Returns Pre P p
      → ((a : A) (s : LoopState W) → P a s → Q a s)
      → Returns Pre Q p
  Returns-weaken h k = record { at = λ s pre. At-weaken (h.at s pre) k }

  pub Returns-anywhere :
      {A : Type 0} {Pre : LoopState W → Type 0} {Post : A → LoopState W → Type 0} {p : Loop W A}
      → Returns (λ _. Unit) Post p
      → Returns Pre Post p
  Returns-anywhere h = record { at = λ s _. h.at s tt }
