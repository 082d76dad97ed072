-- ===== src/Session/Manager/Active.antt =====
-- The active branch of a manager (src/pi_agent/harness/session/manager.py).
use pi_agent_python.Base.{
  ℕ, String, ◌≡◌, refl, sym, ap, ◌∙◌, Option, none, some, List, [], ◌∷◌, ◌++◌, arith, string_eq,
  reverse, reverse-append,
}
use pi_agent_python.Base.Dict.{lookup, lookup-append_none, lookup_single}
use pi_agent_python.Base.Result.{ok}
use pi_agent_python.Ai.Types.{Message}
use pi_agent_python.Session.Types.{TreeEntry, EntryBody}
use pi_agent_python.Session.Store.{tool_result_of}
use pi_agent_python.Session.Tree.{active_path, messages_of}
use pi_agent_python.Session.Chain.{Chain, link, Chain-at, Chain-append}
use pi_agent_python.Session.Chain.Path.{path_to-Chain}
use pi_agent_python.Session.Valid.{parent-Chain}
use pi_agent_python.Session.Valid.Answers.{IsAnswered}
use pi_agent_python.Session.Manager.{
  SessionManager, Stamp, next_entry, append_message, active_entries, active_messages,
}
use pi_agent_python.Session.Manager.Appends.{IsSynced, IsAppended, append_entry-IsAppended}

-- The active branch is the chain of the leaf, root first.
pub active_entries_lem :
    (m : SessionManager) (path : List TreeEntry)
    → Chain m.tree.entries m.tree.leaf_id path
    → active_entries m ≡ ok (reverse path)
unfolding active_entries active_path
active_entries_lem m path c = rw ((path_to-Chain m.tree m.tree.leaf_id path).1 c)

pub active_messages_lem :
    (m : SessionManager) (path : List TreeEntry)
    → Chain m.tree.entries m.tree.leaf_id path
    → active_messages m ≡ ok (messages_of (reverse path))
unfolding active_messages active_path
active_messages_lem m path c = rw ((path_to-Chain m.tree m.tree.leaf_id path).1 c)

messages_of-append : (a b : List TreeEntry) → messages_of (a ++ b) ≡ messages_of a ++ messages_of b
unfolding messages_of
messages_of-append [] b = refl
messages_of-append (e ∷ a) b = ground (arith, messages_of-append a b)

messages_of_one :
    (e : TreeEntry) (m : Message) → e.body ≡ EntryBody.message m → messages_of (e ∷ []) ≡ m ∷ []
unfolding messages_of
messages_of_one e m is = rw is refl

-- What an appended entry at the leaf does to the active branch.
module _ {m m' : SessionManager} {e : TreeEntry} {now : ℕ} (s : IsSynced m)
    (a : IsAppended m e now m') (at_leaf : e.parent_id ≡ m.tree.leaf_id) where
  pub longer-Chain :
      {path : List TreeEntry}
      → Chain m.tree.entries m.tree.leaf_id path
      → lookup e.id m.tree.entries ≡ none
      → Chain m'.tree.entries m'.tree.leaf_id (e ∷ path)
  longer-Chain c new =
      let found : lookup e.id (m.tree.entries ++ (e.id, e) ∷ []) ≡ some e =
        lookup-append_none e.id m.tree.entries _ new ∙ lookup_single e.id e in
      rw (a.entries, a.leaf) (link found (Chain-at (sym at_leaf) (Chain-append _ c)))

-- On a manager in step with its store, appending a message with a new id at the leaf succeeds where
-- its ancestors answer it, and the conversation is the one before with the message at its end.
pub append_message-active_messages :
    (m : SessionManager) (message : Message) (entry_id : Option String) (stamp : Stamp)
    → IsSynced m
    → lookup (next_entry m (EntryBody.message message) entry_id stamp).id m.tree.entries ≡ none
    → IsAnswered m.tree.entries (next_entry m (EntryBody.message message) entry_id stamp)
    → (m' : SessionManager) × (old : List Message) × (append_message message entry_id stamp m
        ≡ (ok (next_entry m (EntryBody.message message) entry_id stamp), m'))
      × IsSynced m'
      × (active_messages m ≡ ok old)
      × (active_messages m' ≡ ok (old ++ message ∷ []))
unfolding append_message
append_message-active_messages m message entry_id stamp s new ans =
    let e : TreeEntry = next_entry m (EntryBody.message message) entry_id stamp in
    let (path, c, _) = parent-Chain m.tree.entries m.tree.leaf_id s.accepted.forest s.leaf_known in
    let (m', done, a) = append_entry-IsAppended m e stamp.later s new ans in
    (
      m',
      messages_of (reverse path),
      done,
      a.synced,
      active_messages_lem m path c,
      active_messages_lem m' (e ∷ path) (longer-Chain s a refl c new)
          ∙ ap ok (
              ap messages_of (reverse-append (e ∷ []) path)
              ∙ messages_of-append (reverse path) (e ∷ [])
              ∙ ap (λ l. messages_of (reverse path) ++ l) (messages_of_one e message refl)),
    )

-- An entry at the leaf that is no tool result needs no answer.
pub next_entry-IsAnswered :
    (m : SessionManager) (body : EntryBody) (entry_id : Option String) (stamp : Stamp)
    → IsSynced m
    → tool_result_of body ≡ none
    → IsAnswered m.tree.entries (next_entry m body entry_id stamp)
next_entry-IsAnswered m body entry_id stamp s plain =
    let (path, c, n) = parent-Chain m.tree.entries m.tree.leaf_id s.accepted.forest s.leaf_known in
    record { ancestors = path; chain = c; bounded = n; answer = rw plain refl }
