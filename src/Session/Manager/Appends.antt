-- ===== src/Session/Manager/Appends.antt =====
-- `_append` of src/pi_agent/harness/session/manager.py, which the writing methods share.
use pi_agent_python.Base.{
  ℕ, ◌≡◌, refl, sym, ap, ◌∙◌, false, not, ◌⊎◌, inl, inr, Option, none, some, List, [], ◌∷◌, ◌++◌,
  arith, string_eq, append_assoc, ◌==◌,
}
use pi_agent_python.Base.Dict.{lookup, lookup-append_none, lookup_single}
use pi_agent_python.Base.Result.{Result, ok, err, >>=-eq-ok, raise_if-eq-ok}
use pi_agent_python.Session.Types.{
  SessionHeader, TreeEntry, CursorEntry, SessionRecord, header, entry, cursor, SessionError,
  SessionWarning,
}
use pi_agent_python.Session.Store.{
  Entries, InMemorySessionStore, SessionLoadResult, dangling, validate_records, validate_body, load,
  append, check_cursor, check_selected,
}
use pi_agent_python.Session.Tree.{SessionTree, new_tree}
use pi_agent_python.Session.Valid.Answers.{IsAnswered}
use pi_agent_python.Session.Valid.Records.{
  Accepts, validate_of_Accepts, Accepts_of_validate, warnings_of, Accepts-entry, Accepts-cursor,
  entry_of_Accepts,
}
use pi_agent_python.Session.Manager.{
  SessionManager, Method, ◌>>=◌, continue, store_append, reload, append_entry,
}
use pi_agent_python.Session.Manager.Sync.{new_tree_lem, leaf_of, seen_of}

-- The tree is that of the records, which the validation accepts, and its leaf is one of its entries.
pub record IsSynced (m : SessionManager) : Type 0 where
  pub head : SessionHeader
  pub rest : List SessionRecord
  pub last : Option CursorEntry
  pub stored : m.store.records ≡ header head ∷ rest
  pub version : head.version ≡ 1
  pub accepted : Accepts rest m.tree.entries last
  pub same_header : m.tree.header ≡ head
  pub leaf_known : dangling m.tree.leaf_id m.tree.entries ≡ false

module _ (h : SessionHeader) {rs : List SessionRecord} {es : Entries} {c : Option CursorEntry}
    (v : h.version ≡ 1) (a : Accepts rs es c) where
  pub validate_lem : validate_records (header h ∷ rs) ≡ ok (warnings_of es)
  unfolding validate_records
  validate_lem = ground (arith, validate_of_Accepts a)

  load_lem :
      (s : InMemorySessionStore)
      → s.records ≡ header h ∷ rs
      → load s
        ≡ ok (record {
          records = header h ∷ rs;
          warnings = warnings_of es;
          valid_bytes = 0;
          ignored_tail = [];
        })
  unfolding load
  load_lem s stored = rw stored (rw validate_lem refl)

  pub append_lem :
      (s : InMemorySessionStore) (head : List SessionRecord) (r : SessionRecord)
      → s.records ≡ head
      → head ++ r ∷ [] ≡ header h ∷ rs
      → append s r ≡ ok (record { records = header h ∷ rs })
  unfolding append
  append_lem s head r stored grown = rw (stored, grown) (rw validate_lem refl)

-- A manager that is in step with accepted records, as a reload leaves it.
pub record IsReloaded (store : InMemorySessionStore) (es : Entries) (c : Option CursorEntry)
    (h : SessionHeader) (m : SessionManager) : Type 0 where
  pub synced : IsSynced m
  pub same_store : m.store ≡ store
  pub entries : m.tree.entries ≡ es
  pub same_head : m.tree.header ≡ h
  pub leaf : (d : CursorEntry) → c ≡ some d → m.tree.leaf_id ≡ d.leaf_id

reload_of :
    (m : SessionManager) (l : SessionLoadResult) (t : SessionTree)
    → load m.store ≡ ok l
    → new_tree l.records ≡ ok t
    → reload m ≡ (ok l, record m { loaded = l; tree = t })
unfolding reload
reload_of m l t loaded built = ground arith

pub store_append_of :
    (m : SessionManager) (r : SessionRecord) (s : InMemorySessionStore)
    → append m.store r ≡ ok s
    → store_append r m ≡ (ok tt, record m { store = s })
unfolding store_append
store_append_of m r s h = ground arith

pub bind_ok :
    {A B : Type 0} (p : Method A) (f : A → Method B) (m m' : SessionManager) (a : A)
    → p m ≡ (ok a, m')
    → (p >>= f) m ≡ f a m'
bind_ok p f m m' a h = ap (λ r. continue r.0 f r.1) h

append_entry_of :
    (e : TreeEntry) (now : ℕ) (m m1 m2 m3 : SessionManager) (l : SessionLoadResult)
    → store_append (entry e) m ≡ (ok tt, m1)
    → store_append (cursor (record { leaf_id = some e.id; timestamp = now })) m1 ≡ (ok tt, m2)
    → reload m2 ≡ (ok l, m3)
    → append_entry e now m ≡ (ok e, m3)
unfolding append_entry
append_entry_of e now m m1 m2 m3 l one two three =
    bind_ok (store_append (entry e)) _ m m1 tt one
    ∙ bind_ok (store_append (cursor (record { leaf_id = some e.id; timestamp = now }))) _ m1 m2 tt
        two
    ∙ bind_ok reload _ m2 m3 l three

-- A reload after the write of accepted records brings the manager in step with them.
pub reload_lem :
    (h : SessionHeader) {rs : List SessionRecord} {es : Entries} {c : Option CursorEntry}
    (m : SessionManager)
    → h.version ≡ 1
    → Accepts rs es c
    → m.store.records ≡ header h ∷ rs
    → (l : SessionLoadResult) × (m' : SessionManager) × (reload m ≡ (ok l, m'))
      × IsReloaded m.store es c h m'
unfolding reload
reload_lem h {rs} {es} {c} m v a stored =
    let (t, built, same_head, same_entries, known, leaf) = new_tree_lem h a in
    let l : SessionLoadResult = record {
      records = header h ∷ rs;
      warnings = warnings_of es;
      valid_bytes = 0;
      ignored_tail = [];
    } in
    let loaded : load m.store ≡ ok l = load_lem h v a m.store stored in
    (
      l,
      record m { loaded = l; tree = t },
      reload_of m l t loaded built,
      record {
        synced = record {
          head = h;
          rest = rs;
          last = c;
          stored = stored;
          version = v;
          accepted = rw same_entries a;
          same_header = same_head;
          leaf_known = rw same_entries known;
        };
        same_store = refl;
        entries = same_entries;
        same_head = same_head;
        leaf = λ d is. leaf (ap seen_of is) ∙ ap leaf_of is;
      },
    )

check_known :
    (es : Entries) (e : TreeEntry) → lookup e.id es ≡ some e → check_selected es (some e.id) ≡ ok tt
unfolding check_selected
check_known es e found = ground arith

selected_known :
    (es : Entries) (e : TreeEntry) (d : CursorEntry)
    → lookup e.id es ≡ some e
    → d.leaf_id ≡ some e.id
    → check_cursor es (some d) ≡ ok tt
unfolding check_cursor
selected_known es e d found leaf = rw leaf (check_known es e found)

-- The state after a successful `_append`.
pub record IsAppended (m : SessionManager) (e : TreeEntry) (now : ℕ) (m' : SessionManager)
    : Type 0 where
  pub synced : IsSynced m'
  pub stored :
      m'.store.records
      ≡ m.store.records ++ entry e ∷ cursor (record { leaf_id = some e.id; timestamp = now }) ∷ []
  pub entries : m'.tree.entries ≡ m.tree.entries ++ (e.id, e) ∷ []
  pub same_header : m'.tree.header ≡ m.tree.header
  pub leaf : m'.tree.leaf_id ≡ some e.id

-- An entry with a new id whose ancestors answer it is appended, and becomes the leaf.
pub append_entry-IsAppended :
    (m : SessionManager) (e : TreeEntry) (now : ℕ)
    → IsSynced m
    → lookup e.id m.tree.entries ≡ none
    → IsAnswered m.tree.entries e
    → (m' : SessionManager) × (append_entry e now m ≡ (ok e, m')) × IsAppended m e now m'
append_entry-IsAppended m e now s new ans =
    let d : CursorEntry = record { leaf_id = some e.id; timestamp = now } in
    let one = Accepts-entry s.accepted e new ans in
    let es : Entries = m.tree.entries ++ (e.id, e) ∷ [] in
    let found : lookup e.id es ≡ some e =
      lookup-append_none e.id m.tree.entries _ new ∙ lookup_single e.id e in
    let two = Accepts-cursor one d (selected_known es e d found refl) in
    let m1 : SessionManager = record m {
      store = record { records = header s.head ∷ (s.rest ++ entry e ∷ []) };
    } in
    let m2 : SessionManager = record m {
      store = record { records = header s.head ∷ ((s.rest ++ entry e ∷ []) ++ cursor d ∷ []) };
    } in
    let first : append m.store (entry e) ≡ ok m1.store =
      append_lem s.head s.version one m.store (header s.head ∷ s.rest) (entry e) s.stored refl in
    let second : append m1.store (cursor d) ≡ ok m2.store =
      append_lem s.head s.version two m1.store m1.store.records (cursor d) refl refl in
    let (l, m', reloaded, r) = reload_lem s.head m2 s.version two refl in
    (
      m',
      append_entry_of e now m m1 m2 m' l (store_append_of m (entry e) m1.store first)
          (store_append_of m1 (cursor d) m2.store second) reloaded,
      record {
        synced = r.synced;
        stored =
            ap InMemorySessionStore.records r.same_store
            ∙ rw s.stored
                (ap (λ l. header s.head ∷ l) (append_assoc s.rest (entry e ∷ []) (cursor d ∷ [])));
        entries = r.entries;
        same_header = r.same_head ∙ sym s.same_header;
        leaf = r.leaf d refl;
      },
    )

append_inv :
    (s : InMemorySessionStore) (h : SessionHeader) (rs : List SessionRecord) (r : SessionRecord)
    (s' : InMemorySessionStore)
    → s.records ≡ header h ∷ rs
    → append s r ≡ ok s'
    → (ws : List SessionWarning) × (validate_body (rs ++ r ∷ []) ≡ ok ws)
unfolding append validate_records
append_inv s h rs r s' stored done =
    let (ws, checked, _) = >>=-eq-ok (validate_records (s.records ++ r ∷ [])) _ {out = s'} done in
    let whole : validate_records (header h ∷ (rs ++ r ∷ [])) ≡ ok ws =
      ap (λ l. validate_records (l ++ r ∷ [])) (sym stored) ∙ checked in
    (ws, (raise_if-eq-ok (not (h.version == 1)) _ (validate_body (rs ++ r ∷ [])) whole).1)

append_entry_err :
    (e : TreeEntry) (now : ℕ) (m : SessionManager) (x : SessionError)
    → append m.store (entry e) ≡ err x
    → append_entry e now m ≡ (err x, m)
unfolding append_entry store_append
append_entry_err e now m x h = ground arith

-- On a manager in step with its store `_append` writes all or nothing: either the id is new and the
-- ancestors answer the entry, and both records are written; or it raises and leaves the manager as
-- it was. The second of the two writes never fails after the first.
pub append_entry_atomic :
    (m : SessionManager) (e : TreeEntry) (now : ℕ)
    → IsSynced m
    → ((lookup e.id m.tree.entries ≡ none)
        × IsAnswered m.tree.entries e
        × ((m' : SessionManager) × (append_entry e now m ≡ (ok e, m')) × IsAppended m e now m'))
      ⊎ ((x : SessionError) × (append_entry e now m ≡ (err x, m)))
append_entry_atomic m e now s = decide (append m.store (entry e)) refl
  where
    decide :
        (r : Result SessionError InMemorySessionStore)
        → append m.store (entry e) ≡ r
        → ((lookup e.id m.tree.entries ≡ none)
            × IsAnswered m.tree.entries e
            × ((m' : SessionManager) × (append_entry e now m ≡ (ok e, m')) × IsAppended m e now m'))
          ⊎ ((x : SessionError) × (append_entry e now m ≡ (err x, m)))
    decide (err x) h = inr (x, append_entry_err e now m x h)
    decide (ok s') h =
        let (ws, checked) = append_inv m.store s.head s.rest (entry e) s' s.stored h in
        let (es, c, a) = Accepts_of_validate (s.rest ++ entry e ∷ []) ws checked in
        let (new, ans) = entry_of_Accepts s.accepted e a in
        inl (new, ans, append_entry-IsAppended m e now s new ans)
