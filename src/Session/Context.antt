-- ===== src/Session/Context.antt =====
-- src/pi_agent/harness/session/context.py: the messages that a branch of the session stands for.
-- The time that the new user messages carry is an argument. `entries.index(latest_compaction)` is
-- the search for its id: the ids of a path are distinct.
pub mod Compacted
use Prim.Native.String.{◌++◌ as concat}
use pi_agent_python.Base.{
  ℕ, String, Bool, true, false, Option, none, some, List, [], ◌∷◌, if◌then◌else◌, beq, string_eq,
}
use pi_agent_python.Base.Result.{Result, ok, err, ◌>>=◌}
use pi_agent_python.Ai.Types.{Message, UserBody}
use pi_agent_python.Session.Types.{TreeEntry, EntryBody, Compaction, BranchSummary, SessionError}
use pi_agent_python.Session.Tree.{SessionPath, after_id}

pub record ReconstructedContext : Type 0 where
  pub messages : List Message
  pub model_provider : Option String
  pub model_id : Option String
  pub thinking_level : Option String
  pub compaction : Option (TreeEntry × Compaction)

-- The variables of the first loop.
pub record Latest : Type 0 where
  pub model_provider : Option String
  pub model_id : Option String
  pub thinking_level : Option String
  pub compaction : Option (TreeEntry × Compaction)

abbrev pub no_latest : Latest
no_latest = record {
  model_provider = none;
  model_id = none;
  thinking_level = none;
  compaction = none;
}

abbrev pub latest_step : Latest → TreeEntry → EntryBody → Latest
latest_step l e (EntryBody.model_change provider model) = record l {
  model_provider = some provider;
  model_id = some model;
}
latest_step l e (EntryBody.thinking_level_change level) = record l { thinking_level = some level }
latest_step l e (EntryBody.compaction c) = record l { compaction = some (e, c) }
latest_step l e _ = l

unfoldable pub latest : Latest → List TreeEntry → Latest
latest l [] = l
latest l (e ∷ es) = latest (latest_step l e e.body) es

-- `entries[index:]` for the first index at which the id stands
unfoldable pub from_id : String → List TreeEntry → Option (List TreeEntry)
from_id k [] = none
from_id k (e ∷ es) = let rest = from_id k es in if beq e.id k then some (e ∷ es) else rest

-- `UserMessage(text)`
abbrev pub user_text : String → ℕ → Message
user_text text now = Message.user (record { content = UserBody.plain text; timestamp = now })

abbrev pub rendered_body : String → ℕ → EntryBody → Option Message
rendered_body prefix now (EntryBody.message m) = some m
rendered_body prefix now (EntryBody.branch_summary b) =
    some (user_text (concat prefix b.summary) now)
rendered_body prefix now _ = none

-- The second loop.
unfoldable pub rendered : String → ℕ → List TreeEntry → List Message
rendered prefix now [] = []
rendered prefix now (e ∷ es) = elim (rendered_body prefix now e.body) [
  | none ↦ rendered prefix now es
  | some m ↦ m ∷ rendered prefix now es
]

-- `entries[start:]`
unfoldable pub kept_entries :
    TreeEntry → Compaction → List TreeEntry → Result SessionError (List TreeEntry)
unfolding from_id after_id
kept_entries e c es = elim c.first_kept_entry_id [
  | some k ↦ elim (from_id k es) [
    | none ↦ err (SessionError.first_kept_not_on_branch k)
    | some kept ↦ ok kept
  ]
  | none ↦ elim (after_id e.id es) [ none ↦ err SessionError.stop_iteration | some kept ↦ ok kept ]
]

abbrev pub context_of : Latest → List Message → ReconstructedContext
context_of l messages = record {
  messages = messages;
  model_provider = l.model_provider;
  model_id = l.model_id;
  thinking_level = l.thinking_level;
  compaction = l.compaction;
}

abbrev pub messages_after :
    String
    → String
    → ℕ
    → List TreeEntry
    → Option (TreeEntry × Compaction)
    → Result SessionError (List Message)
messages_after compaction_prefix branch_prefix now es none = ok (rendered branch_prefix now es)
messages_after compaction_prefix branch_prefix now es (some (e, c)) = do
  kept ← kept_entries e c es
  ok (user_text (concat compaction_prefix c.summary) now ∷ rendered branch_prefix now kept)

unfoldable pub reconstruct_context :
    SessionPath → String → String → ℕ → Result SessionError ReconstructedContext
unfolding latest kept_entries rendered
reconstruct_context path compaction_prefix branch_prefix now =
    let l = latest no_latest path.entries in
    (messages_after compaction_prefix branch_prefix now path.entries l.compaction >>= λ messages.
    ok (context_of l messages))
