-- ===== src/Tests/Streams.antt =====
-- A stream with a consumer that waits, and a queue.
use pi_agent_python.Base.{ℕ, ◌≡◌, refl, Bool, none, List, [], ◌∷◌, ◌++◌, arith, ◌==◌}
use pi_agent_python.Ai.EventStream.{new_stream, push, end, next}
use pi_agent_python.Ai.EventStream.Delivery.{Op, run, accepted, run-accepted}
use pi_agent_python.Ai.Types.{StopReason}
use pi_agent_python.Ai.Events.{AssistantMessageEvent, is_some}
use pi_agent_python.Ai.Events.Terminal.{
  push_events, first_result, wrapped, push_events-first_result,
}
use pi_agent_python.Tests.Conversation.{calling}
use pi_agent_python.Agent.Queues.Fifo.{push_all, drain_times, drain_times-push_all}

-- The event 9 completes the stream.
abbrev is_last : ℕ → Bool
is_last n = n == 9

abbrev same : ℕ → ℕ
same n = n

abbrev ops : List (Op ℕ ℕ)
ops =
    Op.asks 0
    ∷ Op.pushes 1
    ∷ Op.pushes 2
    ∷ Op.pushes 9
    ∷ Op.pushes 3
    ∷ Op.asks 0
    ∷ Op.ends none
    ∷ []

accepted_ops : accepted is_last same ops new_stream ≡ 1 ∷ 2 ∷ 9 ∷ []
unfolding push end next
accepted_ops = refl

run-accepted_example :
    (run is_last same ops new_stream).received ++ (run is_last same ops new_stream).queue
    ≡ accepted is_last same ops new_stream
run-accepted_example = run-accepted is_last same ops

abbrev numbers : List ℕ
numbers = 4 ∷ 5 ∷ 6 ∷ []

drain_times-push_all_example :
    ((drain_times 3 (push_all numbers (record { mode = "one-at-a-time"; items = [] }))).0 ≡ numbers)
    × ((drain_times 3 (push_all numbers (record { mode = "one-at-a-time"; items = [] }))).1.items
        ≡ [])
drain_times-push_all_example = drain_times-push_all "one-at-a-time" numbers 3 (omega arith)

-- Two terminal events: only the first counts.
abbrev events : List AssistantMessageEvent
events =
    AssistantMessageEvent.start calling
    ∷ AssistantMessageEvent.done StopReason.tool_use calling
    ∷ AssistantMessageEvent.error StopReason.error calling
    ∷ []

push_events-first_result_example :
    ((push_events events new_stream).done ≡ is_some (first_result events))
    × ((push_events events new_stream).result ≡ wrapped (first_result events))
push_events-first_result_example = push_events-first_result events
