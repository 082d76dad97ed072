-- ===== src/Session/Chain.antt =====
-- The chain of parents of an entry, from the entry up to a root: what the walks of tree.py and
-- store.py are to follow, stated with no loop and no fuel.
pub mod Path
use pi_agent_python.Base.{
  ℕ, zero, suc, ◌≤◌, ◌<◌, String, ◌≡◌, ◌≢◌, refl, sym, ap, ◌∙◌, Bool, true, false, Option, none,
  some, List, [], ◌∷◌, ◌++◌, arith, string_eq, beq, Bool-cases, Option-cases, if◌then◌else◌, inl,
  inr, ◌⊎◌,
}
use pi_agent_python.Base.Lists.{length, contains, All}
use pi_agent_python.Base.Dict.{lookup, lookup-append_some}
use text.Mathlib.TextEquality.{eq_iff}
use pi_agent_python.Base.Result.{Result, ok, err, ◌>>=◌, >>=-eq-ok}
use pi_agent_python.Session.Types.{TreeEntry, SessionError}
use pi_agent_python.Session.Store.{Entries}
use pi_agent_python.Session.Tree.{walk, climb}

pub data Chain (es : Entries) : Option String → List TreeEntry → Type 0 where
  root : Chain es none []
  link :
      {id : String} {e : TreeEntry} {path : List TreeEntry}
      → lookup id es ≡ some e
      → Chain es e.parent_id path
      → Chain es (some id) (e ∷ path)

pub Chain-at :
    {es : Entries} {p q : Option String} {path : List TreeEntry}
    → p ≡ q
    → Chain es p path
    → Chain es q path
Chain-at h c = rw h at c

pub Chain-unique :
    {es : Entries} {p : Option String} {a b : List TreeEntry} → Chain es p a → Chain es p b → a ≡ b
Chain-unique root root = refl
Chain-unique (link {e} h c) (link {e = f} k d) =
    let same : f ≡ e = cc in
    cc (same, Chain-unique c (Chain-at (ap (λ x. TreeEntry.parent_id x) same) d))

-- More entries at the end leave a chain as it is.
pub Chain-append :
    {es : Entries} (more : Entries) {p : Option String} {path : List TreeEntry}
    → Chain es p path
    → Chain (es ++ more) p path
Chain-append more root = root
Chain-append {es} more (link {id} {e} h c) =
    link (lookup-append_some id es more e h) (Chain-append more c)

pub ok_eq {ℓ} : {E A : Type ℓ} {a b : A} → ◌≡◌ {A = Result E A} (ok a) (ok b) → a ≡ b
ok_eq h = cc

-- Whatever `walk` returns is the chain.
pub walk-Chain :
    (fuel : ℕ) (es : Entries) (seen : List String) (p : Option String) (path : List TreeEntry)
    → walk fuel es seen p ≡ ok path
    → Chain es p path
unfolding walk
walk-Chain zero es seen p path h = absurd (ground arith)
walk-Chain (suc fuel) es seen none path h = rw (← (ok_eq h)) root
walk-Chain (suc fuel) es seen (some id) path h = elim (Bool-cases (contains seen id)) [
  | inl old ↦ absurd (ground arith)
  | inr new ↦ elim (Option-cases (lookup id es)) [
    | inl missing ↦ absurd (ground arith)
    | inr (e, found) ↦
        let (rest, walked, same) =
          >>=-eq-ok (walk fuel es (id ∷ seen) e.parent_id) (λ path'. ok (e ∷ path')) {out = path}
            (ground arith) in
        rw (← (ok_eq same)) (link found (walk-Chain fuel es (id ∷ seen) e.parent_id rest walked))
  ]
]

-- How many entries are not in `seen`: it falls with each step of `walk`.
unseen : Entries → List String → ℕ
unfolding contains
unseen [] seen = 0
unseen ((k, e) ∷ es) seen = let rest = unseen es seen in if contains seen k then rest else suc rest

unseen-nil : (es : Entries) → unseen es [] ≡ length es
unfolding unseen
unseen-nil [] = refl
unseen-nil ((k, e) ∷ es) = ap suc (unseen-nil es)

unseen-cons-le :
    (es : Entries) (seen : List String) (id : String) → unseen es (id ∷ seen) ≤ unseen es seen
unfolding unseen
unseen-cons-le [] seen id = omega arith
unseen-cons-le ((k, e) ∷ es) seen id = ground (arith, unseen-cons-le es seen id)

unseen-cons-lt :
    (es : Entries) (seen : List String) (id : String) (e : TreeEntry)
    → lookup id es ≡ some e
    → contains seen id ≡ false
    → unseen es (id ∷ seen) < unseen es seen
unfolding unseen lookup
unseen-cons-lt [] seen id e h new = cc
unseen-cons-lt ((k, f) ∷ es) seen id e h new =
    ground (arith, unseen-cons-le es seen id, unseen-cons-lt es seen id e, eq_iff id k, eq_iff k id)

-- With fuel for the entries that are left, `walk` ends by itself.
walk-ne-out_of_fuel :
    (fuel : ℕ) (es : Entries) (seen : List String) (p : Option String)
    → unseen es seen < fuel
    → walk fuel es seen p ≢ err SessionError.out_of_fuel
unfolding walk
walk-ne-out_of_fuel zero es seen p h = absurd (omega arith)
walk-ne-out_of_fuel (suc fuel) es seen none h = λ q. ground arith
walk-ne-out_of_fuel (suc fuel) es seen (some id) h = λ q. elim (Bool-cases (contains seen id)) [
  | inl old ↦ ground arith
  | inr new ↦ elim (Option-cases (lookup id es)) [
    | inl missing ↦ ground arith
    | inr (e, found) ↦
        walk-ne-out_of_fuel fuel es (id ∷ seen) e.parent_id
          (omega (arith, unseen-cons-lt es seen id e found new)) (ground arith)
  ]
]

-- The ids in `seen` lie below: their chains are longer than `n`.
abbrev Below : Entries → ℕ → List String → Type 0
Below es n = All (λ id. (path : List TreeEntry) × Chain es (some id) path × (n < length path))

Below-mono :
    (es : Entries) (n m : ℕ) (seen : List String) → m ≤ n → Below es n seen → Below es m seen
Below-mono es n m [] h b = tt
Below-mono es n m (s ∷ seen) h ((path, c, l), b) =
    ((path, c, omega arith), Below-mono es n m seen h b)

not_seen :
    (es : Entries) (seen : List String) (id : String) (path : List TreeEntry)
    → Chain es (some id) path
    → Below es (length path) seen
    → contains seen id ≡ false
unfolding contains
not_seen es [] id path c b = refl
not_seen es (s ∷ seen) id path c ((longer, d, l), b) = elim (Bool-cases (beq s id)) [
  | inl same ↦
      absurd
        (omega (arith, ap length (Chain-unique (Chain-at (ap some ((eq_iff s id).0 same)) d) c)))
  | inr other ↦ ground (arith, not_seen es seen id path c b)
]

-- A chain is walked to its end.
walk_of_Chain :
    (fuel : ℕ) (es : Entries) (seen : List String) {p : Option String} {path : List TreeEntry}
    → Chain es p path
    → Below es (length path) seen
    → unseen es seen < fuel
    → walk fuel es seen p ≡ ok path
unfolding walk
walk_of_Chain zero es seen c b h = absurd (omega arith)
walk_of_Chain (suc fuel) es seen root b h = refl
walk_of_Chain (suc fuel) es seen (link {id} {e} {path} found c) b h =
    let new = not_seen es seen id (e ∷ path) (link found c) b in
    let deeper : Below es (length path) (id ∷ seen) =
      ((e ∷ path, link found c, omega arith), Below-mono es _ _ seen (omega arith) b) in
    let rest : walk fuel es (id ∷ seen) e.parent_id ≡ ok path =
      walk_of_Chain fuel es (id ∷ seen) c deeper
        (omega (arith, unseen-cons-lt es seen id e found new)) in
    ground arith

pub path_lem :
    (es : Entries) {p : Option String} {path : List TreeEntry}
    → Chain es p path
    → walk (suc (length es)) es [] p ≡ ok path
path_lem es c = walk_of_Chain (suc (length es)) es [] c tt (omega (arith, unseen-nil es))

pub walk_ends :
    (es : Entries) (p : Option String)
    → walk (suc (length es)) es [] p ≢ err SessionError.out_of_fuel
walk_ends es p = walk-ne-out_of_fuel (suc (length es)) es [] p (omega (arith, unseen-nil es))
