-- ===== src/Tests/Sessions.antt =====
-- A session that is begun, written to and navigated.
use pi_agent_python.Base.{
  ◌≡◌, ◌≢◌, ◌↔◌, refl, true, ◌⊎◌, none, some, List, [], ◌∷◌, ◌++◌, reverse, string_eq,
}
use pi_agent_python.Base.Dict.{lookup}
use pi_agent_python.Base.Result.{ok, err}
use pi_agent_python.Ai.Types.{Message}
use pi_agent_python.Session.Types.{TreeEntry, EntryBody, SessionError}
use pi_agent_python.Session.Store.{tool_result_of}
use pi_agent_python.Session.Tree.{path_to}
use pi_agent_python.Session.Chain.{Chain}
use pi_agent_python.Session.Chain.Path.{path_to_terminates, path_to-Chain}
use pi_agent_python.Session.Valid.Answers.{IsAnswered}
use pi_agent_python.Session.Manager.{
  SessionManager, next_entry, in_memory, append_entry, append_message, navigate, active_messages,
}
use pi_agent_python.Session.Manager.Appends.{IsSynced, IsAppended, append_entry_atomic}
use pi_agent_python.Session.Manager.Active.{append_message-active_messages, next_entry-IsAnswered}
use pi_agent_python.Session.Manager.Navigate.{IsMoved, navigate_lem}
use pi_agent_python.Session.Manager.Fresh.{in_memory-IsSynced}
use pi_agent_python.Tests.Conversation.{
  answer, reading, asked, one_entry, begun, begun-IsSynced, stamp, entry_of,
}

in_memory-IsSynced_example :
    (m : SessionManager) × (in_memory "/w" none (some "s") stamp ≡ ok m)
    × IsSynced m
    × (m.tree.entries ≡ [])
    × (active_messages m ≡ ok [])
in_memory-IsSynced_example = in_memory-IsSynced "/w" none (some "s") stamp

-- The result of a tool that nobody called.
abbrev stray : TreeEntry
stray = entry_of "e9" (some "e1") reading

append_entry_atomic_example :
    ((lookup "e9" one_entry ≡ none)
      × IsAnswered one_entry stray
      × ((m' : SessionManager) × (append_entry stray 9 begun ≡ (ok stray, m'))
          × IsAppended begun stray 9 m'))
    ⊎ ((x : SessionError) × (append_entry stray 9 begun ≡ (err x, begun)))
append_entry_atomic_example = append_entry_atomic begun stray 9 begun-IsSynced

answer_is_new : lookup "e2" one_entry ≡ none
unfolding lookup
answer_is_new = refl

answer_is_no_result : tool_result_of (EntryBody.message answer) ≡ none
unfolding tool_result_of
answer_is_no_result = refl

append_message-active_messages_example :
    (m' : SessionManager) × (old : List Message) × (append_message answer none stamp begun
      ≡ (ok (next_entry begun (EntryBody.message answer) none stamp), m'))
    × IsSynced m'
    × (active_messages begun ≡ ok old)
    × (active_messages m' ≡ ok (old ++ answer ∷ []))
append_message-active_messages_example =
    append_message-active_messages begun answer none stamp begun-IsSynced answer_is_new (
      next_entry-IsAnswered begun (EntryBody.message answer) none stamp begun-IsSynced
        answer_is_no_result)

navigate_lem_example :
    (m' : SessionManager) × (navigate none true 7 begun ≡ (ok tt, m'))
    × IsMoved begun none true 7 m'
navigate_lem_example = navigate_lem begun none true 7 begun-IsSynced refl

path_to_terminates_example : path_to begun.tree (some "e1") ≢ err SessionError.out_of_fuel
path_to_terminates_example = path_to_terminates begun.tree (some "e1")

path_to-Chain_example :
    (path_to begun.tree (some "e1")
      ≡ ok (record { header = begun.tree.header; entries = reverse (asked ∷ []) }))
    ↔ Chain one_entry (some "e1") (asked ∷ [])
path_to-Chain_example = path_to-Chain begun.tree (some "e1") (asked ∷ [])
