-- ===== src/Ai/EventStream.antt =====
-- `EventStream` of src/pi_agent/ai/event_stream.py. A waiting consumer is an id with a mark for a
-- cancelled future; `received` is what the consumers were given, in order. `_result` is set exactly
-- when `_result_ready` is. The producer tasks, which are only kept alive, are not modelled.
pub mod Delivery
use pi_agent_python.Base.{
  ℕ, Bool, true, false, Option, none, some, List, [], ◌∷◌, ◌++◌, if◌then◌else◌,
}

pub record Waiter : Type 0 where
  pub id : ℕ
  pub done : Bool

pub record EventStream (T R : Type 0) : Type 0 where
  pub queue : List T
  pub waiting : List Waiter
  pub done : Bool
  pub result : Option R
  pub received : List T
  -- the consumers that a call of `end` told that there is no more
  pub ended : List ℕ

abbrev pub new_stream : {T R : Type 0} → EventStream T R
new_stream = record {
  queue = [];
  waiting = [];
  done = false;
  result = none;
  received = [];
  ended = [];
}

abbrev pub or_result : {R : Type 0} → Option R → Option R → Option R
or_result (some r) other = some r
or_result none other = other

-- What a step of `__aiter__` comes to.
pub data Next (T : Type 0) : Type 0 where
  yields : T → Next T
  finished : Next T
  waits : Next T

-- The loop of `end`.
unfoldable pub tell_end : List Waiter → List ℕ
tell_end [] = []
tell_end (w ∷ ws) = let rest = tell_end ws in if w.done then rest else w.id ∷ rest

module _ {T R : Type 0} where
  -- The `while self._waiting` loop of `push`, with its `else`.
  unfoldable pub hand : T → List Waiter → EventStream T R → EventStream T R
  hand event [] s = record s { waiting = []; queue = s.queue ++ event ∷ [] }
  hand event (w ∷ ws) s =
      let rest = hand event ws s in
      if w.done then rest else record s { waiting = ws; received = s.received ++ event ∷ [] }

  unfoldable pub end : Option R → EventStream T R → EventStream T R
  unfolding tell_end
  end result s = record s {
    done = true;
    result = or_result s.result result;
    waiting = [];
    ended = s.ended ++ tell_end s.waiting;
  }

  abbrev pub next_of : ℕ → List T → EventStream T R → Next T × EventStream T R
  next_of id (x ∷ xs) s = (yields x, record s { queue = xs; received = s.received ++ x ∷ [] })
  next_of id [] s =
      if s.done
      then (finished, s)
      else (waits, record s { waiting = s.waiting ++ record { id = id; done = false } ∷ [] })

  -- One round of `__aiter__`, up to its `yield` or to the future of the id.
  unfoldable pub next : ℕ → EventStream T R → Next T × EventStream T R
  next id s = next_of id s.queue s

  module _ (is_complete : T → Bool) (extract_result : T → R) where
    abbrev pub completed : T → EventStream T R → EventStream T R
    completed event s =
        if is_complete event
        then record s { done = true; result = some (extract_result event) }
        else s

    unfoldable pub push : T → EventStream T R → EventStream T R
    unfolding hand
    push event s = if s.done then s else hand event s.waiting (completed event s)
