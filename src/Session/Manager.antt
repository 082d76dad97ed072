-- ===== src/Session/Manager.antt =====
-- src/pi_agent/harness/session/manager.py: `SessionManager` over the store in memory. The repository
-- of files is not modelled. Each method gives back the manager as it leaves it, also when it raises.
-- New ids and the time are read from outside, so they are arguments (`Stamp`).
pub mod Sync
pub mod Appends
pub mod Active
pub mod Navigate
pub mod Fresh
use pi_agent_python.Base.{
  ℕ, String, Bool, true, false, not, ◌&&◌, Option, none, some, List, [], ◌∷◌, if◌then◌else◌, beq,
  string_eq,
}
use pi_agent_python.Base.Dict.{lookup, has_key}
use pi_agent_python.Base.Result.{Result, ok, err, and_then}
use pi_agent_python.Ai.Json.{Fields, end}
use pi_agent_python.Ai.Types.{Message}
use pi_agent_python.Session.Types.{
  SessionHeader, TreeEntry, EntryBody, CursorEntry, SessionRecord, header, entry, cursor,
  SessionError,
}
use pi_agent_python.Session.Store.{InMemorySessionStore, SessionLoadResult, new_store, load, append}
use pi_agent_python.Session.Tree.{SessionTree, SessionPath, new_tree, get, active_path, messages_of}

pub record SessionManager : Type 0 where
  pub store : InMemorySessionStore
  pub loaded : SessionLoadResult
  pub tree : SessionTree

-- What `new_entry_id` and `timestamp_ms` return: the id, the time of the entry, that of the cursor.
pub record Stamp : Type 0 where
  pub fresh : String
  pub now : ℕ
  pub later : ℕ

-- A method that may raise, with the manager that it leaves.
abbrev pub Method : Type 0 → Type 0
Method A = SessionManager → Result SessionError A × SessionManager

abbrev pub continue : {A B : Type 0} → Result SessionError A → (A → Method B) → Method B
continue (ok a) f m = f a m
continue (err x) f m = (err x, m)

infixl 5 ◌>>=◌ ◌>>◌
abbrev pub ◌>>=◌ : {A B : Type 0} → Method A → (A → Method B) → Method B
◌>>=◌ p f m = let (r, m') = p m in continue r f m'

abbrev pub ◌>>◌ : {A B : Type 0} → Method A → Method B → Method B
p >> q = p >>= λ _. q

abbrev pub pure : {A : Type 0} → A → Method A
pure a m = (ok a, m)

-- `SessionManager.__init__`
unfoldable pub new_manager : InMemorySessionStore → Result SessionError SessionManager
unfolding load new_tree
new_manager s =
    and_then (load s)
      λ l. and_then (new_tree l.records) λ t. ok (record { store = s; loaded = l; tree = t })

-- `x or y` on an optional text: the empty text is false.
abbrev pub or_else : Option String → String → String
or_else none y = y
or_else (some x) y = if beq x "" then y else x

-- `SessionManager.in_memory`
unfoldable pub in_memory :
    String → Option String → Option String → Stamp → Result SessionError SessionManager
unfolding new_store new_manager
in_memory cwd name session_id stamp =
    and_then
      (new_store (
        header (record {
          id = or_else session_id stamp.fresh;
          cwd = cwd;
          version = 1;
          timestamp = stamp.now;
          name = name;
          parent_session_id = none;
        })
        ∷ []))
      new_manager

-- `self.store.append(record)`
unfoldable pub store_append : SessionRecord → Method Unit
unfolding append
store_append r m = elim (append m.store r) [
  | ok s ↦ (ok tt, record m { store = s })
  | err x ↦ (err x, m)
]

abbrev rebuild : SessionLoadResult → Result SessionError SessionTree → Method SessionLoadResult
rebuild l (ok t) m = (ok l, record m { loaded = l; tree = t })
rebuild l (err x) m = (err x, record m { loaded = l })

unfoldable pub reload : Method SessionLoadResult
unfolding load new_tree
reload m = elim (load m.store) [ ok l ↦ rebuild l (new_tree l.records) m | err x ↦ (err x, m) ]

-- `SessionManager._append`
unfoldable pub append_entry : TreeEntry → ℕ → Method TreeEntry
unfolding store_append reload
append_entry e now = do
  store_append (entry e)
  store_append (cursor (record { leaf_id = some e.id; timestamp = now }))
  reload
  pure e

-- The entry that a method below makes: its parent is the leaf of the moment.
abbrev pub next_entry : SessionManager → EntryBody → Option String → Stamp → TreeEntry
next_entry m body entry_id stamp = record {
  id = or_else entry_id stamp.fresh;
  parent_id = m.tree.leaf_id;
  body = body;
  timestamp = stamp.now;
}

unfoldable pub append_message : Message → Option String → Stamp → Method TreeEntry
unfolding append_entry
append_message message entry_id stamp m =
    append_entry (next_entry m (EntryBody.message message) entry_id stamp) stamp.later m

unfoldable pub append_model_change : String → String → Option String → Stamp → Method TreeEntry
unfolding append_entry
append_model_change provider model_id entry_id stamp m =
    append_entry (next_entry m (EntryBody.model_change provider model_id) entry_id stamp)
      stamp.later m

unfoldable pub append_thinking_level : String → Option String → Stamp → Method TreeEntry
unfolding append_entry
append_thinking_level level entry_id stamp m =
    append_entry (next_entry m (EntryBody.thinking_level_change level) entry_id stamp) stamp.later m

-- `dict(details or {})`
abbrev pub details_or_empty : Option Fields → Fields
details_or_empty none = end
details_or_empty (some d) = d

unfoldable pub append_compaction :
    String → Option String → ℕ → ℕ → Option Fields → Option String → Stamp → Method TreeEntry
unfolding append_entry
append_compaction summary first_kept before after details entry_id stamp m =
    append_entry
      (next_entry m
        (EntryBody.compaction (record {
          summary = summary;
          first_kept_entry_id = first_kept;
          tokens_before = before;
          tokens_after = after;
          details = details_or_empty details;
        }))
        entry_id stamp)
      stamp.later m

unfoldable pub append_branch_summary :
    String → String → String → Option Fields → Option String → Stamp → Method TreeEntry
unfolding append_entry
append_branch_summary summary from to details entry_id stamp m =
    append_entry
      (next_entry m
        (EntryBody.branch_summary (record {
          summary = summary;
          from_entry_id = from;
          to_entry_id = to;
          details = details_or_empty details;
        }))
        entry_id stamp)
      stamp.later m

unfoldable pub append_custom : String → Fields → Option String → Stamp → Method TreeEntry
unfolding append_entry
append_custom custom_type payload entry_id stamp m =
    append_entry (next_entry m (EntryBody.custom custom_type payload) entry_id stamp) stamp.later m

unfoldable pub set_label : String → Option String → Option String → Stamp → Method TreeEntry
unfolding append_entry lookup
set_label target label entry_id stamp m =
    if not (beq target m.tree.header.id) && not (has_key target m.tree.entries)
    then (err (SessionError.cannot_label_unknown_target target), m)
    else append_entry (next_entry m (EntryBody.label target label) entry_id stamp) stamp.later m

-- `if entry_id is not None: self.tree.get(entry_id)`
unfoldable pub check_target : Option String → Method Unit
unfolding get
check_target none m = (ok tt, m)
check_target (some id) m = (and_then (get m.tree id) (λ _. ok tt), m)

unfoldable pub select : Option String → Bool → ℕ → Method Unit
unfolding store_append reload
select entry_id true now = do
  store_append (cursor (record { leaf_id = entry_id; timestamp = now }))
  reload
  pure tt
select entry_id false now = λ m. (ok tt, record m { tree = record m.tree { leaf_id = entry_id } })

unfoldable pub navigate : Option String → Bool → ℕ → Method Unit
unfolding check_target select
navigate entry_id persist now = do check_target entry_id; select entry_id persist now

unfoldable pub fork : Option String → ℕ → Method Unit
unfolding navigate
fork entry_id now = navigate entry_id true now

unfoldable pub active_entries : SessionManager → Result SessionError (List TreeEntry)
unfolding active_path
active_entries m = and_then (active_path m.tree) λ p. ok p.entries

unfoldable pub active_messages : SessionManager → Result SessionError (List Message)
unfolding active_path messages_of
active_messages m = and_then (active_path m.tree) λ p. ok (messages_of p.entries)
