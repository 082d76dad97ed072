-- ===== src/Session/Manager/Navigate.antt =====
-- `navigate` of src/pi_agent/harness/session/manager.py.
use pi_agent_python.Base.{
  ℕ, String, ◌≡◌, refl, sym, ap, ◌∙◌, Bool, true, false, Option, none, some, [], ◌∷◌, ◌++◌, arith,
  string_eq, append-nil, if◌then◌else◌,
}
use pi_agent_python.Base.Result.{ok}
use pi_agent_python.Session.Types.{CursorEntry, header, cursor}
use pi_agent_python.Session.Store.{
  Entries, InMemorySessionStore, dangling, check_cursor, check_selected, append,
}
use pi_agent_python.Session.Tree.{get}
use pi_agent_python.Session.Valid.Records.{Accepts-cursor}
use pi_agent_python.Session.Manager.{
  SessionManager, store_append, reload, check_target, select, navigate,
}
use pi_agent_python.Session.Manager.Appends.{
  IsSynced, reload_lem, append_lem, store_append_of, bind_ok,
}

-- The manager after the cursor has moved to `id`: the tree has the same entries, and with `persist`
-- one cursor record was written.
pub record IsMoved (m : SessionManager) (id : Option String) (persist : Bool) (now : ℕ)
    (m' : SessionManager) : Type 0 where
  pub synced : IsSynced m'
  pub entries : m'.tree.entries ≡ m.tree.entries
  pub leaf : m'.tree.leaf_id ≡ id
  pub stored :
      m'.store.records
      ≡ m.store.records
        ++ (if persist then cursor (record { leaf_id = id; timestamp = now }) ∷ [] else [])

known_target :
    (es : Entries) (id : Option String) → dangling id es ≡ false → check_selected es id ≡ ok tt
unfolding check_selected
known_target es none h = refl
known_target es (some l) h = ground arith

select_persist :
    (m : SessionManager) (id : Option String) (now : ℕ)
    → IsSynced m
    → dangling id m.tree.entries ≡ false
    → (m' : SessionManager) × (select id true now m ≡ (ok tt, m')) × IsMoved m id true now m'
unfolding select
select_persist m id now s known =
    let d : CursorEntry = record { leaf_id = id; timestamp = now } in
    let a =
      Accepts-cursor s.accepted d (unfold check_cursor in known_target m.tree.entries id known) in
    let m1 : SessionManager = record m {
      store = record { records = header s.head ∷ (s.rest ++ cursor d ∷ []) };
    } in
    let first : append m.store (cursor d) ≡ ok m1.store =
      append_lem s.head s.version a m.store (header s.head ∷ s.rest) (cursor d) s.stored refl in
    let (l, m', reloaded, r) = reload_lem s.head m1 s.version a refl in
    (
      m',
      bind_ok (store_append (cursor d)) _ m m1 tt (store_append_of m (cursor d) m1.store first)
          ∙ bind_ok reload _ m1 m' l reloaded,
      record {
        synced = r.synced;
        entries = r.entries;
        leaf = r.leaf d refl;
        stored = ap InMemorySessionStore.records r.same_store ∙ rw s.stored refl;
      },
    )

select_only :
    (m : SessionManager) (id : Option String) (now : ℕ)
    → IsSynced m
    → dangling id m.tree.entries ≡ false
    → (m' : SessionManager) × (select id false now m ≡ (ok tt, m')) × IsMoved m id false now m'
unfolding select
select_only m id now s known = (
  record m { tree = record m.tree { leaf_id = id } },
  refl,
  record {
    synced = record {
      head = s.head;
      rest = s.rest;
      last = s.last;
      stored = s.stored;
      version = s.version;
      accepted = s.accepted;
      same_header = s.same_header;
      leaf_known = known;
    };
    entries = refl;
    leaf = refl;
    stored = sym (append-nil m.store.records);
  },
)

target_known :
    (m : SessionManager) (id : Option String)
    → dangling id m.tree.entries ≡ false
    → check_target id m ≡ (ok tt, m)
unfolding check_target get
target_known m none h = refl
target_known m (some id) h = ground arith

-- On a manager in step with its store, `navigate` to an entry of the tree, or to none, succeeds: it
-- moves the leaf there, keeps every entry, and writes one cursor record if it is to persist, none
-- otherwise; the manager stays in step.
pub navigate_lem :
    (m : SessionManager) (id : Option String) (persist : Bool) (now : ℕ)
    → IsSynced m
    → dangling id m.tree.entries ≡ false
    → (m' : SessionManager) × (navigate id persist now m ≡ (ok tt, m'))
      × IsMoved m id persist now m'
unfolding navigate
navigate_lem m id persist now s known =
    let checked : check_target id m ≡ (ok tt, m) = target_known m id known in
    let (m', done, moved) = selected persist in
    (m', bind_ok (check_target id) _ m m tt checked ∙ done, moved)
  where
    selected :
        (p : Bool)
        → (m' : SessionManager) × (select id p now m ≡ (ok tt, m')) × IsMoved m id p now m'
    selected true = select_persist m id now s known
    selected false = select_only m id now s known
