-- ===== src/Session/Valid/Records.antt =====
-- `validate_records` of src/pi_agent/harness/session/store.py on a list of records that grows at its end.
use pi_agent_python.Base.{
  String, ◌≡◌, refl, sym, ap, ◌∙◌, false, Option, none, some, List, [], ◌∷◌, ◌++◌, arith, string_eq,
  Bool-cases, Option-cases, inl, inr,
}
use pi_agent_python.Base.Lists.{All, All-append}
use pi_agent_python.Base.Dict.{
  lookup, insert, has_key, values, values-append, insert_new, lookup-append_some,
  lookup-append_none, lookup_single, All_lookup,
}
use pi_agent_python.Base.Result.{ok, >>=-eq-ok}
use pi_agent_python.Session.Types.{
  TreeEntry, CursorEntry, SessionRecord, header, entry, cursor, SessionWarning,
}
use pi_agent_python.Session.Store.{
  Entries, dangling, scan, check_cursor, check_selected, check_results, validate_body,
  unresolved_calls, resolved_ids,
}
use pi_agent_python.Session.Chain.{Chain, root, link, Chain-append, Chain-unique, ok_eq}
use pi_agent_python.Session.Valid.{
  IsForest, IsForest-nil, scan-IsForest, has_key-false, parent-Chain, IsForest-add,
}
use pi_agent_python.Session.Valid.Answers.{
  IsAnswered, All_IsAnswered-append, check_results_of, answers_of_check,
}

-- The records that follow a header, the entries and the last cursor that they hold: the loops of
-- `validate_records` raise nothing.
pub record Accepts (rs : List SessionRecord) (es : Entries) (c : Option CursorEntry) : Type 0 where
  pub scanned : scan rs [] none ≡ ok (es, c)
  pub forest : IsForest es
  pub answered : All (IsAnswered es) (values es)
  pub selected : check_cursor es c ≡ ok tt

abbrev pub warnings_of : Entries → List SessionWarning
warnings_of es = unresolved_calls (resolved_ids (values es)) (values es)

pub validate_of_Accepts :
    {rs : List SessionRecord} {es : Entries} {c : Option CursorEntry}
    → Accepts rs es c
    → validate_body rs ≡ ok (warnings_of es)
unfolding validate_body
validate_of_Accepts {rs} {es} {c} a =
    let checked = check_results_of es (values es) a.answered in ground arith

pub Accepts_of_validate :
    (rs : List SessionRecord) (ws : List SessionWarning)
    → validate_body rs ≡ ok ws
    → (es : Entries) × (c : Option CursorEntry) × Accepts rs es c
unfolding validate_body
Accepts_of_validate rs ws h =
    let ((es, c), scanned, h1) = >>=-eq-ok (scan rs [] none) _ {out = ws} h in
    let (_, selected, h2) = >>=-eq-ok (check_cursor es c) _ {out = ws} h1 in
    let (_, checked, _) = >>=-eq-ok (check_results es (values es)) _ {out = ws} h2 in
    let forest : IsForest es = scan-IsForest rs [] none (es, c) IsForest-nil scanned in
    (
      es,
      c,
      record {
        scanned = scanned;
        forest = forest;
        answered = answers_of_check es (values es) forest.chains checked;
        selected = selected;
      },
    )

scan-append :
    (rs more : List SessionRecord) (es : Entries) (c : Option CursorEntry)
    (out : Entries × Option CursorEntry)
    → scan rs es c ≡ ok out
    → scan (rs ++ more) es c ≡ scan more out.0 out.1
unfolding scan
scan-append [] more es c out h = ap (λ o. scan more o.0 o.1) (ok_eq h)
scan-append (header x ∷ rs) more es c out h = cc
scan-append (cursor d ∷ rs) more es c out h = scan-append rs more es (some d) out h
scan-append (entry e ∷ rs) more es c out h =
    ground (arith, scan-append rs more (insert e.id e es) c out)

scan_new :
    (es : Entries) (c : Option CursorEntry) (e : TreeEntry)
    → lookup e.id es ≡ none
    → dangling e.parent_id es ≡ false
    → scan (entry e ∷ []) es c ≡ ok (es ++ (e.id, e) ∷ [], c)
unfolding scan
scan_new es c e new known = ground (arith, insert_new e.id e es)

scan_cursor :
    (es : Entries) (c : Option CursorEntry) (d : CursorEntry)
    → scan (cursor d ∷ []) es c ≡ ok (es, some d)
unfolding scan
scan_cursor es c d = refl

scan_entry_inv :
    (es : Entries) (c : Option CursorEntry) (e : TreeEntry) (es' : Entries)
    (c' : Option CursorEntry)
    → scan (entry e ∷ []) es c ≡ ok (es', c')
    → (lookup e.id es ≡ none) × (dangling e.parent_id es ≡ false) × (es' ≡ es ++ (e.id, e) ∷ [])
unfolding scan
scan_entry_inv es c e es' c' h = elim (Bool-cases (has_key e.id es)) [
  | inl old ↦ absurd (ground arith)
  | inr new ↦ elim (Bool-cases (dangling e.parent_id es)) [
    | inl bad ↦ absurd (ground arith)
    | inr known ↦
        let fresh = has_key-false e.id es new in
        (fresh, known, ground (arith, insert_new e.id e es))
  ]
]

not_dangling :
    {es : Entries} {p : Option String} {path : List TreeEntry}
    → Chain es p path
    → dangling p es ≡ false
not_dangling root = refl
not_dangling (link found c) = ground arith

known_append :
    (es more : Entries) (p : Option String)
    → check_selected es p ≡ ok tt
    → check_selected (es ++ more) p ≡ ok tt
unfolding check_selected
known_append es more none h = refl
known_append es more (some l) h = elim (Option-cases (lookup l es)) [
  | inl missing ↦ absurd (ground arith)
  | inr (e, found) ↦ ground (arith, lookup-append_some l es more e found)
]

selected_append :
    (es more : Entries) (c : Option CursorEntry)
    → check_cursor es c ≡ ok tt
    → check_cursor (es ++ more) c ≡ ok tt
unfolding check_cursor
selected_append es more none h = refl
selected_append es more (some d) h = known_append es more d.leaf_id h

-- The ancestors of an entry that was added last stand before it.
answered_before :
    (es : Entries) (e : TreeEntry) (es' : Entries)
    → lookup e.id es ≡ none
    → es' ≡ es ++ (e.id, e) ∷ []
    → IsForest es
    → dangling e.parent_id es ≡ false
    → All (IsAnswered es') (values es')
    → IsAnswered es e
answered_before es e es' new same f known all =
    let found : lookup e.id es' ≡ some e =
      rw same (lookup-append_none e.id es _ new ∙ lookup_single e.id e) in
    let later : IsAnswered es' e = All_lookup (IsAnswered es') e.id e es' all found in
    let (path, c, n) = parent-Chain es e.parent_id f known in
    let c' : Chain es' e.parent_id path = rw same (Chain-append _ c) in
    record {
      ancestors = path;
      chain = c;
      bounded = n;
      answer = rw (Chain-unique c' later.chain) later.answer;
    }

-- One record more, of each kind.
module _ {rs : List SessionRecord} {es : Entries} {c : Option CursorEntry}
    (a : Accepts rs es c) where
  scan_one : (r : SessionRecord) → scan (rs ++ r ∷ []) [] none ≡ scan (r ∷ []) es c
  scan_one r = scan-append rs (r ∷ []) [] none (es, c) a.scanned

  pub Accepts-entry :
      (e : TreeEntry)
      → lookup e.id es ≡ none
      → IsAnswered es e
      → Accepts (rs ++ entry e ∷ []) (es ++ (e.id, e) ∷ []) c
  Accepts-entry e new ans = record {
    scanned = scan_one (entry e) ∙ scan_new es c e new (not_dangling ans.chain);
    forest = IsForest-add es e a.forest new (not_dangling ans.chain);
    answered = rw (values-append es ((e.id, e) ∷ [])) (
        All-append _ (values es) (e ∷ []) (All_IsAnswered-append es _ (values es) a.answered)
          (All_IsAnswered-append es _ (e ∷ []) (ans, tt)));
    selected = selected_append es ((e.id, e) ∷ []) c a.selected;
  }

  pub Accepts-cursor :
      (d : CursorEntry)
      → check_cursor es (some d) ≡ ok tt
      → Accepts (rs ++ cursor d ∷ []) es (some d)
  Accepts-cursor d h = record {
    scanned = scan_one (cursor d) ∙ scan_cursor es c d;
    forest = a.forest;
    answered = a.answered;
    selected = h;
  }

  -- An entry that is accepted is new, and is answered by its ancestors.
  pub entry_of_Accepts :
      (e : TreeEntry) {es' : Entries} {c' : Option CursorEntry}
      → Accepts (rs ++ entry e ∷ []) es' c'
      → (lookup e.id es ≡ none) × IsAnswered es e
  entry_of_Accepts e {es'} {c'} b =
      let once : scan (entry e ∷ []) es c ≡ ok (es', c') = sym (scan_one (entry e)) ∙ b.scanned in
      let (new, known, same) = scan_entry_inv es c e es' c' once in
      (new, answered_before es e es' new same a.forest known b.answered)
