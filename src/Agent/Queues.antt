-- ===== src/Agent/Queues.antt =====
-- src/pi_agent/agent/queues.py: the queues of messages for a running agent. The messages are of any
-- type.
pub mod Fifo
use pi_agent_python.Base.{
  ℕ, ◌==◌, String, Bool, true, false, not, List, [], ◌∷◌, ◌++◌, string_eq, beq,
}
use pi_agent_python.Base.Lists.{contains, length}
use pi_agent_python.Base.Result.{Result, ok, err, ◌>>=◌, ◌>>◌, raise_if}

pub record MessageQueue (A : Type 0) : Type 0 where
  pub mode : String
  pub items : List A

-- The `ValueError`.
pub data QueueError : Type 0 where
  unsupported_queue_mode : String → QueueError

abbrev pub modes : List String
modes = "all" ∷ "one-at-a-time" ∷ []

unfoldable pub validate_mode : String → Result QueueError Unit
unfolding contains
validate_mode mode = raise_if (not (contains modes mode)) (QueueError.unsupported_queue_mode mode)

module _ {A : Type 0} where
  -- The constructor with `__post_init__`.
  unfoldable pub new_queue : String → Result QueueError (MessageQueue A)
  unfolding validate_mode
  new_queue mode = do validate_mode mode; ok (record { mode = mode; items = [] })

  unfoldable pub push : A → MessageQueue A → MessageQueue A
  push message q = record q { items = q.items ++ message ∷ [] }

  unfoldable pub enqueue : A → MessageQueue A → MessageQueue A
  unfolding push
  enqueue message q = push message q

  -- `__len__` and `__bool__`
  abbrev pub queue_length : MessageQueue A → ℕ
  queue_length q = length q.items

  abbrev pub queue_bool : MessageQueue A → Bool
  queue_bool q = not (length q.items == 0)

  abbrev pub drain_by : Bool → List A → List A × List A
  drain_by one [] = ([], [])
  drain_by true (x ∷ xs) = (x ∷ [], xs)
  drain_by false (x ∷ xs) = (x ∷ xs, [])

  unfoldable pub drain : MessageQueue A → List A × MessageQueue A
  drain q =
      let (out, left) = drain_by (beq q.mode "one-at-a-time") q.items in
      (out, record q { items = left })

  unfoldable pub clear : MessageQueue A → MessageQueue A
  clear q = record q { items = [] }

  unfoldable pub set_mode : String → MessageQueue A → Result QueueError (MessageQueue A)
  unfolding validate_mode
  set_mode mode q = do validate_mode mode; ok (record q { mode = mode })
