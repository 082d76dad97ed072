-- ===== src/Agent/Loop/Ending.antt =====
-- How a run of src/pi_agent/agent/agent_loop.py ends: `_run_loop` and `_run_guarded`.
use mathlib.Core.Path.{subst}
use pi_agent_python.Base.{
  String, ℕ, zero, suc, ◌≡◌, refl, sym, ap, ◌∙◌, Bool, true, false, not, ◌||◌, ◌⊎◌, inl, inr,
  Option, none, some, List, [], ◌∷◌, ◌++◌, append_assoc, arith, if◌then◌else◌,
}
use pi_agent_python.Base.Result.{ok, err}
use pi_agent_python.Ai.Types.{StopReason, AssistantMessage, tool_calls}
use pi_agent_python.Agent.Types.{
  AgentMessage, Exn, Outcome, AgentEvent, AgentContext, AgentLoopConfig, AgentLoopTurnUpdate,
  CompletedTurnContext, Ask,
}
use pi_agent_python.Agent.Loop.{
  Env, LoopState, Loop, continue, ◌>>=◌, ◌>>◌, pure, raise, attempt, get, ask, change, to_sink,
  told, ended, emit, emit_message,
}
use pi_agent_python.Agent.Loop.Run.{
  Locals, Step, finished, goes_on, is_failed, is_empty, queued, replace_context, apply_update,
  prepare_next, steer_if_empty, begin_turn, inject, stop_with, emit_end, after_turn, run_tools,
  after_answer, turn, follow, next_turn, run_turns, emit_prompts, run_loop, append_first,
  append_failure, finish_after_loop_failure, guard_with, run_guarded,
}
use pi_agent_python.Agent.Loop.Log.{
  Grows, Grows-none, Grows-then, IsOpen, Continues, Continues->>=, Continues-pure, Continues-get,
  Continues-ask, Continues-change, Continues-emit,
}
use pi_agent_python.Agent.Loop.Open.{
  Continues-append_message, Continues-emit_message, Continues-raise_if_cancelled,
  Continues-execute_tool_batch,
}
use pi_agent_python.Agent.Loop.Streamed.{Continues-stream_assistant_response}

-- The sink raises nothing.
pub record IsQuiet {W : Type 0} (env : Env W) : Type 0 where
  pub silent : (e : AgentEvent) (s : LoopState W) → (to_sink env.sink e s).0 ≡ ok tt

module _ {W : Type 0} (env : Env W) (config : AgentLoopConfig W) where
  Continues-queued :
      (o : Option (Ask W (List AgentMessage))) (l : List AgentMessage)
      → Continues (queued env config o l)
  Continues-queued none l = Continues-pure l
  Continues-queued (some f) l = Continues-ask f

  Continues-replace_context :
      (o : Option (AgentContext W)) → Continues (replace_context env config o)
  Continues-replace_context none = Continues-pure tt
  Continues-replace_context (some c) = Continues-change _ (λ s. refl)

  Continues-apply_update :
      (l : Locals W) (o : Option (AgentLoopTurnUpdate W)) → Continues (apply_update env config l o)
  Continues-apply_update l none = Continues-pure l
  Continues-apply_update l (some u) =
      Continues->>= _ _ (Continues-replace_context u.context) (λ _. Continues-pure _)

  Continues-prepare_next :
      (o : Option (CompletedTurnContext W → Ask W (Option (AgentLoopTurnUpdate W))))
      (c : CompletedTurnContext W) (l : Locals W)
      → Continues (prepare_next env config o c l)
  Continues-prepare_next none c l = Continues-pure l
  Continues-prepare_next (some f) c l =
      Continues->>= _ _ (Continues-ask (f c)) (Continues-apply_update l)

  Continues-steer_if_empty : (l : List AgentMessage) → Continues (steer_if_empty env config l)
  Continues-steer_if_empty [] = Continues-queued config.get_steering_messages []
  Continues-steer_if_empty (m ∷ ms) = Continues-pure _

  Continues-begin_turn :
      (o : Option (CompletedTurnContext W)) (l : Locals W) → Continues (begin_turn env config o l)
  Continues-begin_turn none l = Continues-pure l
  Continues-begin_turn (some c) l =
      Continues->>= _ _ (Continues-prepare_next config.prepare_next_turn c l) (λ n.
        Continues->>= _ _ (Continues-steer_if_empty n.pending)
          (λ p. Continues->>= _ _ (Continues-emit env _ refl) (λ _. Continues-pure _)))

  Continues-inject : (l : List AgentMessage) → Continues (inject env config l)
  unfolding inject
  Continues-inject [] = Continues-pure tt
  Continues-inject (m ∷ ms) =
      Continues->>= _ _ (Continues-emit_message env m)
        (λ _. Continues->>= _ _ (Continues-append_message env m) (λ _. Continues-inject ms))

  Continues-stop_with :
      (o : Option (CompletedTurnContext W → Ask W Bool)) (c : CompletedTurnContext W)
      → Continues (stop_with env config o c)
  Continues-stop_with none c = Continues-pure false
  Continues-stop_with (some f) c = Continues-ask (f c)

  Continues-emit_prompts :
      (b : Bool) (l : List AgentMessage) → Continues (emit_prompts env config b l)
  unfolding emit_prompts
  Continues-emit_prompts true l = Continues-pure tt
  Continues-emit_prompts false [] = Continues-pure tt
  Continues-emit_prompts false (p ∷ ps) =
      Continues->>= _ _ (Continues-emit_message env p) (λ _. Continues-emit_prompts false ps)

  -- Events of which the last, and no other, ends the run.
  abbrev pub EndsOnce : LoopState W → LoopState W → Type 0
  EndsOnce s u =
      (l : List AgentEvent) × (ms : List AgentMessage) × (u.emitted
        ≡ s.emitted ++ (l ++ AgentEvent.agent_end ms ∷ []))
      × IsOpen l

  -- A step that is no exception has ended the run, or has not, by the test; an exception has not.
  data Leaves {A : Type 0} (is_end : A → Bool) (s : LoopState W)
      : Outcome A × LoopState W → Type 0 where
    has_ended :
        {a : A} {u : LoopState W} → is_end a ≡ true → EndsOnce s u → Leaves is_end s (ok a, u)
    is_open : {a : A} {u : LoopState W} → is_end a ≡ false → Grows s u → Leaves is_end s (ok a, u)
    has_raised : {x : Exn} {u : LoopState W} → Grows s u → Leaves is_end s (err x, u)

  ends_after : (s t u : LoopState W) → Grows s t → EndsOnce t u → EndsOnce s u
  ends_after s t u (l, e, a) (m, ms, f, b) =
      let (k, g, c) : Grows s (record u { emitted = t.emitted ++ m }) =
        Grows-then s t (record u { emitted = t.emitted ++ m }) (l, e, a) (m, refl, b) in
      (
        k,
        ms,
        f
            ∙ sym (append_assoc t.emitted m (AgentEvent.agent_end ms ∷ []))
            ∙ ap (λ x. x ++ AgentEvent.agent_end ms ∷ []) g
            ∙ append_assoc s.emitted k (AgentEvent.agent_end ms ∷ []),
        c,
      )

  Leaves-after :
      {A : Type 0} {is_end : A → Bool} (s t : LoopState W) {r : Outcome A × LoopState W}
      → Grows s t
      → Leaves is_end t r
      → Leaves is_end s r
  Leaves-after s t h (has_ended {u} e k) = has_ended e (ends_after s t u h k)
  Leaves-after s t h (is_open {u} e k) = is_open e (Grows-then s t u h k)
  Leaves-after s t h (has_raised {u} k) = has_raised (Grows-then s t u h k)

  record Turns {A : Type 0} (is_end : A → Bool) (p : Loop W A) : Type 0 where
    leaves : (s : LoopState W) → Leaves is_end s (p s)

  Leaves-continue :
      {A B : Type 0} {is_end : B → Bool} (f : A → Loop W B) (s : LoopState W)
      (r : Outcome A × LoopState W)
      → Grows s r.1
      → ((a : A) → Turns is_end (f a))
      → Leaves is_end s (continue r.0 f r.1)
  unfolding continue
  Leaves-continue f s (ok a, t) h k = Leaves-after s t h ((k a).leaves t)
  Leaves-continue f s (err x, t) h k = has_raised h

  Turns->>= :
      {A B : Type 0} {is_end : B → Bool} (p : Loop W A) (f : A → Loop W B)
      → Continues p
      → ((a : A) → Turns is_end (f a))
      → Turns is_end (p >>= f)
  unfolding ◌>>=◌
  Turns->>= p f h k = record { leaves = λ s. Leaves-continue f s (p s) (h.grows s) k }

  Turns-pure : {A : Type 0} {is_end : A → Bool} (a : A) → is_end a ≡ false → Turns is_end (pure a)
  unfolding pure
  Turns-pure a e = record { leaves = λ s. is_open e (Grows-none s s refl) }

  -- A coroutine that ends the run where it returns, and one more step.
  EndsRun : {A : Type 0} → Loop W A → Type 0
  EndsRun p = Turns (λ _. true) p

  Leaves-next :
      {A B : Type 0} {is_end : A → Bool} (f : A → Loop W B) (s : LoopState W)
      {r : Outcome A × LoopState W}
      → Leaves is_end s r
      → ((a : A)
          → is_end a ≡ true
          → (t : LoopState W) → EndsOnce s t
          → Leaves (λ _. true) s (f a t))
      → ((a : A) → is_end a ≡ false → Turns (λ _. true) (f a))
      → Leaves (λ _. true) s (continue r.0 f r.1)
  unfolding continue
  Leaves-next f s (has_ended {a} {u} e h) j k = j a e u h
  Leaves-next f s (is_open {a} {u} e h) j k = Leaves-after s u h ((k a e).leaves u)
  Leaves-next f s (has_raised h) j k = has_raised h

  continue_ok :
      {B : Type 0} (f : Unit → Loop W B) (r : Outcome Unit × LoopState W)
      → r.0 ≡ ok tt
      → continue r.0 f r.1 ≡ f tt r.1
  unfolding continue
  continue_ok f (ok tt, u) h = refl
  continue_ok f (err x, u) h = cc

  to_sink_emitted :
      (o : Option (AgentEvent → Ask W Unit)) (e : AgentEvent) (s : LoopState W)
      → (to_sink o e s).1.emitted ≡ s.emitted
  unfolding pure ask
  to_sink_emitted none e s = refl
  to_sink_emitted (some f) e s = refl

  module _ (quiet : IsQuiet env) where
    emit_quiet :
        (e : AgentEvent) (s : LoopState W)
        → emit env e s ≡ (ok tt, ended env e (to_sink env.sink e (told env e s)).1)
    unfolding emit ◌>>=◌ continue change
    emit_quiet e s =
        continue_ok (λ _. change (ended env e)) (to_sink env.sink e (told env e s))
          (quiet.silent e (told env e s))

    Leaves-ended :
        {A : Type 0} (a : A) (s : LoopState W) (ms : List AgentMessage)
        (r : Outcome A × LoopState W) (u : LoopState W)
        → r ≡ (ok a, ended env (AgentEvent.agent_end ms) u)
        → u.emitted ≡ s.emitted ++ AgentEvent.agent_end ms ∷ []
        → Leaves (λ _. true) s r
    Leaves-ended a s ms r u e h =
        subst (Leaves (λ _. true) s) (sym e) (has_ended refl ([], ms, h, tt))

    EndsRun-emit_agent_end : (ms : List AgentMessage) → EndsRun (emit env (AgentEvent.agent_end ms))
    unfolding EndsRun
    EndsRun-emit_agent_end ms = record {
      leaves = λ s.
          Leaves-ended tt s ms (emit env (AgentEvent.agent_end ms) s) _
            (emit_quiet (AgentEvent.agent_end ms) s)
            (to_sink_emitted env.sink (AgentEvent.agent_end ms)
              (told env (AgentEvent.agent_end ms) s));
    }

    EndsRun-emit_end : EndsRun (emit_end env config)
    unfolding EndsRun
    EndsRun-emit_end = Turns->>= _ _ Continues-get (λ s. EndsRun-emit_agent_end s.new_messages)

    abbrev is_finished : Step W → Bool
    is_finished finished = true
    is_finished (goes_on more l) = false

    Leaves-finished :
        (s : LoopState W) {r : Outcome Unit × LoopState W}
        → Leaves (λ _. true) s r
        → Leaves is_finished s (continue r.0 (λ _. pure finished) r.1)
    unfolding continue pure
    Leaves-finished s (has_ended e h) = has_ended refl h
    Leaves-finished s (is_open e h) = absurd (ground arith)
    Leaves-finished s (has_raised h) = has_raised h

    Turns-finish : Turns is_finished (emit_end env config >> pure finished)
    unfolding ◌>>=◌ EndsRun
    Turns-finish = record { leaves = λ s. Leaves-finished s (EndsRun-emit_end.leaves s) }

    Turns-after_turn :
        (b more : Bool) (l : Locals W) → Turns is_finished (after_turn env config b more l)
    Turns-after_turn true more l = Turns-finish
    Turns-after_turn false more l =
        Turns->>= _ _ (Continues-queued config.get_steering_messages []) (λ p. Turns-pure _ refl)

    Turns-run_tools :
        (l : Locals W) (assistant : AssistantMessage)
        → Turns is_finished (run_tools env config l assistant)
    unfolding run_tools
    Turns-run_tools l assistant =
        Turns->>= _ _
          (Continues-execute_tool_batch env config assistant (tool_calls assistant.content))
          (λ a. Turns->>= _ _ (Continues-emit env _ refl) (λ _. Turns->>= _ _ Continues-get (λ s.
            Turns->>= _ _ (Continues-stop_with config.should_stop_after_turn _)
              (λ stop. Turns-after_turn stop _ _))))

    Turns-after_answer :
        (b : Bool) (l : Locals W) (assistant : AssistantMessage)
        → Turns is_finished (after_answer env config b l assistant)
    Turns-after_answer false l assistant = Turns-run_tools l assistant
    Turns-after_answer true l assistant =
        Turns->>= _ _ (Continues-emit env _ refl) (λ _. Turns-finish)

    Turns-turn : (l : Locals W) → Turns is_finished (turn env config l)
    unfolding turn
    Turns-turn l = Turns->>= _ _ (Continues-begin_turn l.last_completed l) (λ r.
        Turns->>= _ _ (Continues-inject r.pending) (λ _.
          Turns->>= _ _ (Continues-raise_if_cancelled env) (λ _.
            Turns->>= _ _ (Continues-stream_assistant_response env config r.model r.thinking_level)
              (λ a. Turns-after_answer (is_failed a.stop_reason) _ a))))

    EndsRun-follow :
        (again : Locals W → Loop W Unit) (l : Locals W) (ms : List AgentMessage)
        → ((k : Locals W) → EndsRun (again k))
        → EndsRun (follow env config (emit_end env config) again l ms)
    EndsRun-follow again l [] h = EndsRun-emit_end
    EndsRun-follow again l (m ∷ ms) h = h _

    EndsRun-if :
        (p q : Loop W Unit) (b : Bool) → EndsRun p → EndsRun q → EndsRun (if b then p else q)
    EndsRun-if p q true h k = h
    EndsRun-if p q false h k = k

    EndsRun-next :
        (again : Locals W → Loop W Unit) (step : Step W)
        → ((k : Locals W) → EndsRun (again k))
        → is_finished step ≡ false
        → EndsRun (next_turn env config again step)
    unfolding EndsRun
    EndsRun-next again finished h e = cc
    EndsRun-next again (goes_on more l) h e =
        EndsRun-if _ _ (more || not (is_empty l.pending)) (h l) (
          Turns->>= _ _ (Continues-queued config.get_follow_up_messages [])
            (λ ms. EndsRun-follow again l ms h))

    ended_next :
        (again : Locals W → Loop W Unit) (s : LoopState W) (step : Step W)
        → is_finished step ≡ true
        → (t : LoopState W) → EndsOnce s t
        → Leaves (λ _. true) s (next_turn env config again step t)
    unfolding pure
    ended_next again s finished e t h = has_ended refl h
    ended_next again s (goes_on more l) e t h = cc

    EndsRun-run_turns : (fuel : ℕ) (l : Locals W) → EndsRun (run_turns env config fuel l)
    unfolding run_turns EndsRun ◌>>=◌ raise
    EndsRun-run_turns zero l = record { leaves = λ s. has_raised (Grows-none s s refl) }
    EndsRun-run_turns (suc fuel) l = record {
      leaves = λ s.
          Leaves-next (next_turn env config (run_turns env config fuel)) s ((Turns-turn l).leaves s)
            (ended_next (run_turns env config fuel) s)
            (λ step e. EndsRun-next (run_turns env config fuel) step (EndsRun-run_turns fuel) e);
    }

    EndsRun-run_loop :
        (fuel : ℕ) (b : Bool) (prompts : List AgentMessage)
        → EndsRun (run_loop env config fuel b prompts)
    unfolding run_loop EndsRun
    EndsRun-run_loop fuel b prompts = Turns->>= _ _ (Continues-emit env _ refl) (λ _.
        Turns->>= _ _ (Continues-emit env _ refl) (λ _.
          Turns->>= _ _ (Continues-emit_prompts b prompts) (λ _.
            Turns->>= _ _ (Continues-queued config.get_steering_messages [])
              (λ p. EndsRun-run_turns fuel _))))

    -- A coroutine that returns from every state.
    record Total (p : Loop W Unit) : Type 0 where
      total : (s : LoopState W) → (p s).0 ≡ ok tt

    Total-after : (p q : Loop W Unit) → Total p → Total q → Total (p >> q)
    unfolding ◌>>=◌
    Total-after p q h k = record {
      total = λ s. ap (λ r. r.0) (continue_ok (λ _. q) (p s) (h.total s)) ∙ k.total (p s).1;
    }

    Total-emit : (e : AgentEvent) → Total (emit env e)
    Total-emit e = record { total = λ s. ap (λ r. r.0) (emit_quiet e s) }

    Total-emit_message : (m : AgentMessage) → Total (emit_message env m)
    unfolding emit_message
    Total-emit_message m = Total-after _ _ (Total-emit _) (Total-emit _)

    Total-change : (f : LoopState W → LoopState W) → Total (change f)
    unfolding change
    Total-change f = record { total = λ s. refl }

    Total-get :
        (f : LoopState W → Loop W Unit) → ((s : LoopState W) → Total (f s)) → Total (get >>= f)
    unfolding ◌>>=◌ get continue
    Total-get f h = record { total = λ s. (h s).total s }

    Total-finish :
        (reason : StopReason) (text : String)
        → Total (finish_after_loop_failure env config reason text)
    unfolding finish_after_loop_failure
    Total-finish reason text = Total-get _ (λ s. Total-after _ _ (Total-emit_message _) (
        Total-after _ _ (Total-change _)
          (Total-after _ _ (Total-emit _) (Total-get _ (λ t. Total-emit _)))))

    append_first_emitted :
        (o : Option (AgentContext W)) (m : AgentMessage) (s : LoopState W)
        → (append_first env config o m s).emitted ≡ s.emitted
    append_first_emitted none m s = refl
    append_first_emitted (some c) m s = refl

    EndsRun-finish :
        (reason : StopReason) (text : String)
        → EndsRun (finish_after_loop_failure env config reason text)
    unfolding finish_after_loop_failure EndsRun
    EndsRun-finish reason text = Turns->>= _ _ Continues-get (λ s.
        Turns->>= _ _ (Continues-emit_message env _) (λ _.
          Turns->>= _ _
            (Continues-change (append_failure env config _)
              (λ t. append_first_emitted t.first_context _ t))
            (λ _.
              Turns->>= _ _ (Continues-emit env _ refl)
                (λ _. Turns->>= _ _ Continues-get (λ t. EndsRun-emit_agent_end _)))))

    -- The fuel is used up, or the coroutine returned and the run is ended, once.
    abbrev pub IsOver : LoopState W → Outcome Unit × LoopState W → Type 0
    IsOver s r = (r.0 ≡ err Exn.out_of_fuel) ⊎ (r.0 ≡ ok tt) × EndsOnce s r.1

    IsOver-total :
        (s : LoopState W) (r : Outcome Unit × LoopState W)
        → r.0 ≡ ok tt
        → Leaves (λ _. true) s r
        → IsOver s r
    IsOver-total s _ e (has_ended f h) = inr (e, h)
    IsOver-total s _ e (is_open f h) = absurd (ground arith)
    IsOver-total s _ e (has_raised h) = cc

    IsOver-finish :
        (s t : LoopState W) (reason : StopReason) (text : String)
        → Grows s t
        → IsOver s (finish_after_loop_failure env config reason text t)
    unfolding EndsRun
    IsOver-finish s t reason text h =
        IsOver-total s _ ((Total-finish reason text).total t)
          (Leaves-after s t h ((EndsRun-finish reason text).leaves t))

    IsOver-guard :
        (s : LoopState W) {r : Outcome Unit × LoopState W}
        → Leaves (λ _. true) s r
        → IsOver s (guard_with env config r.0 r.1)
    unfolding pure raise
    IsOver-guard s (has_ended e h) = inr (refl, h)
    IsOver-guard s (is_open e h) = absurd (ground arith)
    IsOver-guard s (has_raised {x} {u} h) =
        elim x as (λ y. IsOver s (guard_with env config (err y) u)) [
          | Exn.cancelled text ↦ IsOver-finish s u _ _ h
          | Exn.timed_out text ↦ IsOver-finish s u _ _ h
          | Exn.tool_arguments text ↦ IsOver-finish s u _ _ h
          | Exn.failure text ↦ IsOver-finish s u _ _ h
          | Exn.out_of_fuel ↦ inl refl
        ]

    -- Where the sink raises nothing, a run whose fuel lasts returns, whatever the provider, the tools and
    -- the hooks raise, and among its events exactly one ends the run: the last.
    pub run_guarded-ends_once :
        (fuel : ℕ) (is_continue : Bool) (prompts : List AgentMessage) (s : LoopState W)
        → IsOver s (run_guarded env config fuel is_continue prompts s)
    unfolding run_guarded ◌>>=◌ attempt continue EndsRun
    run_guarded-ends_once fuel is_continue prompts s =
        IsOver-guard s ((EndsRun-run_loop fuel is_continue prompts).leaves s)
