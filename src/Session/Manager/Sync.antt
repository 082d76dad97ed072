-- ===== src/Session/Manager/Sync.antt =====
-- The tree (src/pi_agent/harness/session/tree.py) that is built from valid records.
use pi_agent_python.Base.{
  String, ◌≡◌, refl, ap, ◌∙◌, Bool, true, false, inl, inr, Option, none, some, List, [], ◌∷◌, arith,
  string_eq, if◌then◌else◌, Bool-cases, beq,
}
use text.Mathlib.TextEquality.{eq_iff}
use pi_agent_python.Base.Dict.{insert, has_key, lookup-insert_self, lookup-insert_ne}
use pi_agent_python.Base.Result.{ok}
use pi_agent_python.Base.Lists.{last?, All, All-append}
use pi_agent_python.Session.Types.{
  SessionHeader, TreeEntry, CursorEntry, SessionRecord, header, entry, cursor,
}
use pi_agent_python.Session.Store.{Entries, dangling, scan, check_cursor, check_selected}
use pi_agent_python.Session.Tree.{
  SessionTree, Build, new_build, build_step, build, tree_of, check_leaf, new_tree,
}
use pi_agent_python.Session.Chain.{ok_eq}
use pi_agent_python.Session.Valid.Records.{Accepts}

abbrev pub leaf_of : Option CursorEntry → Option String
leaf_of none = none
leaf_of (some d) = d.leaf_id

abbrev pub seen_of : Option CursorEntry → Bool
seen_of none = false
seen_of (some _) = true

-- The loop of the tree and that of the validation agree.
record Agrees (b : Build) (es : Entries) (c : Option CursorEntry) : Type 0 where
  same_entries : b.entries ≡ es
  same_leaf : b.requested_leaf ≡ leaf_of c
  same_seen : b.cursor_seen ≡ seen_of c
  known : All (λ id. has_key id es ≡ true) b.order

has_key-insert :
    (k id : String) (e : TreeEntry) (es : Entries)
    → has_key id es ≡ true
    → has_key id (insert k e es) ≡ true
has_key-insert k id e es h = elim (Bool-cases (beq k id)) [
  | inl same ↦ ground (arith, lookup-insert_self k e es, (eq_iff k id).0 same)
  | inr other ↦ ground (arith, lookup-insert_ne k id e es other)
]

known-insert :
    (k : String) (e : TreeEntry) (es : Entries) (ids : List String)
    → All (λ id. has_key id es ≡ true) ids
    → All (λ id. has_key id (insert k e es) ≡ true) ids
known-insert k e es [] h = tt
known-insert k e es (id ∷ ids) h = (has_key-insert k id e es h.0, known-insert k e es ids h.1)

Agrees-build :
    (rs : List SessionRecord) (b : Build) (es : Entries) (c : Option CursorEntry)
    (out : Entries × Option CursorEntry)
    → Agrees b es c
    → scan rs es c ≡ ok out
    → Agrees (build b rs) out.0 out.1
unfolding scan build
Agrees-build [] b es c out a h = let same = ok_eq h in rw (← same) a
Agrees-build (header x ∷ rs) b es c out a h = cc
Agrees-build (cursor d ∷ rs) b es c out a h =
    Agrees-build rs _ es (some d) out
      (record {
        same_entries = a.same_entries;
        same_leaf = refl;
        same_seen = refl;
        known = a.known;
      })
      h
Agrees-build (entry e ∷ rs) b es c out a h =
    Agrees-build rs (build_step b (entry e)) (insert e.id e es) c out
      (record {
        same_entries = ap (insert e.id e) a.same_entries;
        same_leaf = a.same_leaf;
        same_seen = a.same_seen;
        known =
            All-append _ b.order (e.id ∷ []) (known-insert e.id e es b.order a.known)
              (ground (arith, lookup-insert_self e.id e es), tt);
      })
      (ground arith)

check_leaf_lem :
    (es : Entries) (c : Option CursorEntry) → check_leaf es (leaf_of c) ≡ check_cursor es c
unfolding check_leaf check_cursor
check_leaf_lem es none = refl
check_leaf_lem es (some d) = same es d.leaf_id
  where
    same : (es : Entries) (p : Option String) → check_leaf es p ≡ check_selected es p
    same es none = refl
    same es (some l) = refl

last_known :
    (es : Entries) (ids : List String)
    → All (λ id. has_key id es ≡ true) ids
    → dangling (last? ids) es ≡ false
last_known es [] h = refl
last_known es (id ∷ []) h = ground arith
last_known es (id ∷ next ∷ ids) h = last_known es (next ∷ ids) h.1

not_dangling_of_check :
    (es : Entries) (p : Option String) → check_leaf es p ≡ ok tt → dangling p es ≡ false
unfolding check_leaf
not_dangling_of_check es none h = refl
not_dangling_of_check es (some l) h = ground arith

dangling_if :
    (es : Entries) (p q : Option String) (s : Bool)
    → dangling p es ≡ false
    → dangling q es ≡ false
    → dangling (if s then p else q) es ≡ false
dangling_if es p q true h k = h
dangling_if es p q false h k = k

-- The tree of accepted records is built, with their entries; its leaf is the last cursor's if there
-- is one, and always an entry or none.
pub new_tree_lem :
    (h : SessionHeader) {rs : List SessionRecord} {es : Entries} {c : Option CursorEntry}
    → Accepts rs es c
    → (t : SessionTree) × (new_tree (header h ∷ rs) ≡ ok t)
      × (t.header ≡ h)
      × (t.entries ≡ es)
      × (dangling t.leaf_id es ≡ false)
      × (seen_of c ≡ true → t.leaf_id ≡ leaf_of c)
unfolding new_tree
new_tree_lem h {rs} {es} {c} a =
    let b : Build = build new_build rs in
    let agrees : Agrees b es c =
      Agrees-build rs new_build [] none (es, c)
        (record { same_entries = refl; same_leaf = refl; same_seen = refl; known = tt })
        a.scanned in
    let checked : check_leaf b.entries b.requested_leaf ≡ ok tt =
      rw (agrees.same_entries, agrees.same_leaf) (check_leaf_lem es c ∙ a.selected) in
    let selected : dangling b.requested_leaf es ≡ false =
      not_dangling_of_check es b.requested_leaf (rw (← agrees.same_entries) checked) in
    (
      tree_of h b,
      rw checked refl,
      refl,
      agrees.same_entries,
      dangling_if es b.requested_leaf (last? b.order) b.cursor_seen selected
          (last_known es b.order agrees.known),
      λ s. rw (agrees.same_seen, s) agrees.same_leaf,
    )
