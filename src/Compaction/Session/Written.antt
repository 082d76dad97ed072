-- ===== src/Compaction/Session/Written.antt =====
-- `compact_session` of src/pi_agent/harness/compaction/compaction.py and the session it writes to.
use pi_agent_python.Base.{
  ℕ, ◌≡◌, refl, sym, ap, ◌∙◌, Bool, ◌⊎◌, inl, inr, none, some, List, [], ◌∷◌, ◌++◌, string_eq,
  reverse, reverse-append,
}
use pi_agent_python.Base.Dict.{lookup}
use pi_agent_python.Base.Result.{Result, ok, err}
use pi_agent_python.Session.Types.{TreeEntry, EntryBody, SessionError}
use pi_agent_python.Session.Store.{tool_result_of}
use pi_agent_python.Session.Valid.{parent-Chain}
use pi_agent_python.Session.Manager.{
  SessionManager, Stamp, next_entry, append_compaction, active_entries,
}
use pi_agent_python.Session.Manager.Appends.{IsSynced, append_entry-IsAppended}
use pi_agent_python.Session.Manager.Active.{active_entries_lem, next_entry-IsAnswered, longer-Chain}
use pi_agent_python.Compaction.Tokens.{JsonDumps}
use pi_agent_python.Compaction.Prepare.{Texts, CompactionError, CompactionSettings}
use pi_agent_python.Compaction.Compact.{Callbacks, CompactionResult, compact}
use pi_agent_python.Compaction.Session.{
  compaction, message_entries, messages_in, previous_summary, first_kept, details_of, written,
  write_compaction, compact_entries, compact_session,
}

-- The entry that is written for a result.
abbrev pub compaction_entry : SessionManager → List TreeEntry → CompactionResult → Stamp → TreeEntry
compaction_entry m old r stamp =
    next_entry m
      (EntryBody.compaction (record {
        summary = r.summary;
        first_kept_entry_id = first_kept (message_entries old) r.cut_index;
        tokens_before = r.tokens_before;
        tokens_after = r.tokens_after;
        details = details_of r;
      }))
      none stamp

-- The manager `m'` after the entry of `r` was written on the branch `old`.
pub record IsCompacted (m : SessionManager) (old : List TreeEntry) (r : CompactionResult)
    (stamp : Stamp) (m' : SessionManager) : Type 0 where
  pub synced : IsSynced m'
  pub entries :
      m'.tree.entries ≡ m.tree.entries ++ (stamp.fresh, compaction_entry m old r stamp) ∷ []
  pub branch : active_entries m' ≡ ok (old ++ compaction_entry m old r stamp ∷ [])

append_compaction_lem :
    (m : SessionManager) (old : List TreeEntry) (r : CompactionResult) (stamp : Stamp)
    → IsSynced m
    → active_entries m ≡ ok old
    → lookup stamp.fresh m.tree.entries ≡ none
    → (m' : SessionManager) × (append_compaction r.summary
          (first_kept (message_entries old) r.cut_index)
          r.tokens_before
          r.tokens_after
          (some (details_of r))
          none
          stamp
          m
        ≡ (ok (compaction_entry m old r stamp), m'))
      × IsCompacted m old r stamp m'
unfolding append_compaction
append_compaction_lem m old r stamp s branch new =
    let e : TreeEntry = compaction_entry m old r stamp in
    let (path, c, _) = parent-Chain m.tree.entries m.tree.leaf_id s.accepted.forest s.leaf_known in
    let (m', done, a) =
      append_entry-IsAppended m e stamp.later s new
        (next_entry-IsAnswered m e.body none stamp s (unfold tool_result_of in refl)) in
    let was : ok old ≡ ok (reverse path) = sym branch ∙ active_entries_lem m path c in
    (
      m',
      done,
      record {
        synced = a.synced;
        entries = a.entries;
        branch =
            active_entries_lem m' (e ∷ path) (longer-Chain s a refl c new)
            ∙ ap ok (reverse-append (e ∷ []) path)
            ∙ ap (λ l. ok (l ++ e ∷ [])) (sym (ok_old old (reverse path) was));
      },
    )
  where
    ok_old :
        (a b : List TreeEntry)
        → ◌≡◌ {A = Result SessionError (List TreeEntry)} (ok a) (ok b)
        → a ≡ b
    ok_old a b h = cc

module _ (dumps : JsonDumps) (texts : Texts) (c : Callbacks) (s : CompactionSettings) (force : Bool)
    (now : ℕ) (stamp : Stamp) where
  -- On a manager in step with its store, and with a new id, `compact_session` either raises what
  -- `compact` raises on the messages of the active branch and leaves the manager as it was, or writes
  -- one entry with the summary of `compact` at the end of the branch; the session stays valid.
  pub compact_session_cases :
      (m : SessionManager) (old : List TreeEntry)
      → IsSynced m
      → active_entries m ≡ ok old
      → lookup stamp.fresh m.tree.entries ≡ none
      → ((x : CompactionError) × (compact dumps texts c
              (messages_in (message_entries old))
              s
              (previous_summary none old)
              force
              now
            ≡ err x)
          × (compact_session dumps texts c s force now stamp m ≡ (err (compaction x), m)))
        ⊎ ((r : CompactionResult) × (m' : SessionManager) × (compact dumps texts c
                (messages_in (message_entries old))
                s
                (previous_summary none old)
                force
                now
              ≡ ok r)
            × (compact_session dumps texts c s force now stamp m
                ≡ (ok (compaction_entry m old r stamp, r), m'))
            × IsCompacted m old r stamp m')
  unfolding compact_session
  compact_session_cases m old synced branch new =
      decide
        (compact dumps texts c (messages_in (message_entries old)) s (previous_summary none old)
          force now)
        refl
    where
      run_as :
          (o : Result CompactionError CompactionResult)
          → compact dumps texts c
              (messages_in (message_entries old))
              s
              (previous_summary none old)
              force
              now
            ≡ o
          → compact_entries dumps texts c s force now stamp (active_entries m) m
            ≡ write_compaction dumps texts c (message_entries old) stamp o m
      run_as o is =
          ap (λ b. compact_entries dumps texts c s force now stamp b m) branch
          ∙ ap (λ x. write_compaction dumps texts c (message_entries old) stamp x m) is

      decide :
          (o : Result CompactionError CompactionResult)
          → compact dumps texts c
              (messages_in (message_entries old))
              s
              (previous_summary none old)
              force
              now
            ≡ o
          → ((x : CompactionError) × (compact dumps texts c
                  (messages_in (message_entries old))
                  s
                  (previous_summary none old)
                  force
                  now
                ≡ err x)
              × (compact_entries dumps texts c s force now stamp (active_entries m) m
                  ≡ (err (compaction x), m)))
            ⊎ ((r : CompactionResult) × (m' : SessionManager) × (compact dumps texts c
                    (messages_in (message_entries old))
                    s
                    (previous_summary none old)
                    force
                    now
                  ≡ ok r)
                × (compact_entries dumps texts c s force now stamp (active_entries m) m
                    ≡ (ok (compaction_entry m old r stamp, r), m'))
                × IsCompacted m old r stamp m')
      decide (err x) is = inl (x, is, run_as (err x) is)
      decide (ok r) is =
          let (m', done, compacted) = append_compaction_lem m old r stamp synced branch new in
          inr (r, m', is, run_as (ok r) is ∙ ap (written r) done, compacted)
