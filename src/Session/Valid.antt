-- ===== src/Session/Valid.antt =====
-- The entries that the first loop of `validate_records` (src/pi_agent/harness/session/store.py) collects.
pub mod Answers
pub mod Records
use pi_agent_python.Base.{
  ℕ, zero, suc, ◌+◌, ◌≤◌, ◌<◌, String, ◌≡◌, ◌≢◌, refl, sym, ap, ◌∙◌, Bool, true, false, not, ◌||◌,
  Option, none, some, List, [], ◌∷◌, ◌++◌, arith, string_eq, beq, Bool-cases, Option-cases, inl,
  inr, ◌⊎◌,
}
use text.Mathlib.TextEquality.{eq_iff}
use pi_agent_python.Base.Lists.{length, length-append, All, All-append}
use pi_agent_python.Base.Dict.{
  Dict, lookup, insert, has_key, values, values-append, insert_new, lookup-append_one,
  lookup_single, lookup-append_none, lookup-append_some,
}
use pi_agent_python.Base.Result.{Result, ok, err, ◌>>=◌, ◌>>◌, raise_if, >>=-eq-ok}
use pi_agent_python.Ai.Types.{ToolResultMessage}
use pi_agent_python.Session.Types.{
  SessionHeader, TreeEntry, CursorEntry, SessionRecord, header, entry, cursor, SessionError,
}
use pi_agent_python.Session.Store.{Entries, dangling, scan, makes_call, find_call}
use pi_agent_python.Session.Chain.{Chain, root, link, Chain-append, Chain-at, ok_eq}

-- Each entry is stored under its id, and its parents lead to a root through no more entries than
-- there are.
abbrev pub Keyed : Entries → Type 0
Keyed es = (id : String) (e : TreeEntry) → lookup id es ≡ some e → e.id ≡ id

abbrev pub Rooted : Entries → Type 0
Rooted es =
    (id : String) (e : TreeEntry)
    → lookup id es ≡ some e
    → (path : List TreeEntry) × Chain es (some id) path × (length path ≤ length es)

-- The parents of an entry lead to a root.
abbrev pub HasChain : Entries → TreeEntry → Type 0
HasChain es e = (path : List TreeEntry) × Chain es e.parent_id path × (length path ≤ length es)

pub record IsForest (es : Entries) : Type 0 where
  pub chains : All (HasChain es) (values es)
  pub keyed : Keyed es
  pub rooted : Rooted es

pub IsForest-nil : IsForest []
unfolding lookup
IsForest-nil = record {
  chains = tt;
  keyed = λ id e h. cc;
  rooted = λ id e h. absurd (ground arith);
}

-- The chain of a known or absent parent.
pub parent-Chain :
    (es : Entries) (p : Option String)
    → IsForest es
    → dangling p es ≡ false
    → (path : List TreeEntry) × Chain es p path × (length path ≤ length es)
parent-Chain es none f h = ([], root, omega arith)
parent-Chain es (some p) f h = elim (Option-cases (lookup p es)) [
  | inl missing ↦ absurd (ground arith)
  | inr (e, found) ↦ f.rooted p e found
]

All_HasChain-append :
    (es more : Entries) (l : List TreeEntry) → All (HasChain es) l → All (HasChain (es ++ more)) l
All_HasChain-append es more [] h = tt
All_HasChain-append es more (e ∷ l) ((path, c, n), h) = (
  (path, Chain-append more c, omega (arith, length-append es more)),
  All_HasChain-append es more l h,
)

add_chain :
    (es : Entries) (e : TreeEntry)
    → HasChain es e
    → All (HasChain es) (values es)
    → All (HasChain (es ++ (e.id, e) ∷ [])) (values (es ++ (e.id, e) ∷ []))
add_chain es e k h = rw (values-append es ((e.id, e) ∷ [])) (
    All-append _ (values es) (e ∷ []) (All_HasChain-append es _ (values es) h)
      (All_HasChain-append es _ (e ∷ []) (k, tt)))

-- A new entry below a known parent keeps the forest.
pub IsForest-add :
    (es : Entries) (e : TreeEntry)
    → IsForest es
    → lookup e.id es ≡ none
    → dangling e.parent_id es ≡ false
    → IsForest (es ++ (e.id, e) ∷ [])
IsForest-add es e f new known = record {
  chains = add_chain es e (parent-Chain es e.parent_id f known) f.chains;
  keyed = keyed;
  rooted = rooted;
}
  where
    all : Entries
    all = es ++ (e.id, e) ∷ []

    keyed : Keyed all
    keyed id x h = elim (lookup-append_one id e.id e x es h) [
      | inl old ↦ f.keyed id x old
      | inr last ↦ cc (last.1, ap (λ y. TreeEntry.id y) last.2)
    ]

    rooted : Rooted all
    rooted id x h = elim (lookup-append_one id e.id e x es h) [
      | inl old ↦
          let (path, c, l) = f.rooted id x old in
          (path, Chain-append _ c, omega (arith, length-append es ((e.id, e) ∷ [])))
      | inr last ↦
          let (path, c, l) = parent-Chain es e.parent_id f known in
          let found : lookup e.id all ≡ some e =
            lookup-append_none e.id es _ new ∙ lookup_single e.id e in
          let same : some e.id ≡ some id = ap some last.1 in
          (
            e ∷ path,
            Chain-at same (link found (Chain-append _ c)),
            omega (arith, length-append es ((e.id, e) ∷ [])),
          )
    ]

has_key-false : (id : String) (es : Entries) → has_key id es ≡ false → lookup id es ≡ none
has_key-false id es h = ground arith

-- The scan keeps the forest.
pub scan-IsForest :
    (rs : List SessionRecord) (es : Entries) (c : Option CursorEntry)
    (out : Entries × Option CursorEntry)
    → IsForest es
    → scan rs es c ≡ ok out
    → IsForest out.0
unfolding scan
scan-IsForest [] es c out f h = rw (← (ap (λ o. o.0) (ok_eq h))) f
scan-IsForest (header x ∷ rs) es c out f h = cc
scan-IsForest (cursor d ∷ rs) es c out f h = scan-IsForest rs es (some d) out f h
scan-IsForest (entry e ∷ rs) es c out f h = elim (Bool-cases (has_key e.id es)) [
  | inl old ↦ absurd (ground arith)
  | inr new ↦ elim (Bool-cases (dangling e.parent_id es)) [
    | inl bad ↦ absurd (ground arith)
    | inr known ↦
        let fresh = has_key-false e.id es new in
        scan-IsForest rs (insert e.id e es) c out
          (rw (insert_new e.id e es fresh) (IsForest-add es e f fresh known)) (ground arith)
  ]
]
