-- ===== src/Base/Dict.antt =====
-- Python's `dict`: entries in the order in which their keys were first set.
use mathlib.Core.Path.{◌≡◌, refl, ap, subst}
use mathlib.Core.Logic.{◌⊎◌, inl, inr}
use mathlib.Core.Bool.{Bool, true, false}
use mathlib.Core.Option.{Option, none, some}
use mathlib.Core.List.{List, [], ◌∷◌, ◌++◌}
use native.Mathlib.Omega.{arith}
use pi_agent_python.Base.Lists.{All}
use pi_agent_python.Base.Tests.{Eq, beq, beq_refl, if◌then◌else◌, Bool-cases}

abbrev pub Dict {ℓ} : Type ℓ → Type ℓ → Type ℓ
Dict K V = List (K × V)

-- `d.values()`
abbrev pub values {ℓ} : {K V : Type ℓ} → Dict K V → List V
values [] = []
values ((k, v) ∷ d) = v ∷ values d

module _ {ℓ} {K V : Type ℓ} ⦃e : Eq K⦄ where
  -- `d.get(k)`
  unfoldable pub lookup : K → Dict K V → Option V
  lookup k [] = none
  lookup k ((j, v) ∷ d) = if beq j k then some v else lookup k d

  -- `k in d`
  abbrev pub has_key : K → Dict K V → Bool
  has_key k d = elim (lookup k d) [ none ↦ false | some _ ↦ true ]

  -- `d[k] = v`
  unfoldable pub insert : K → V → Dict K V → Dict K V
  insert k v [] = (k, v) ∷ []
  insert k v ((j, w) ∷ d) =
      let rest = insert k v d in elim (beq j k) [ true ↦ (j, v) ∷ d | false ↦ (j, w) ∷ rest ]

  -- `d.pop(k, None)`
  unfoldable pub erase : K → Dict K V → Dict K V
  erase k [] = []
  erase k ((j, w) ∷ d) = elim (beq j k) [ true ↦ d | false ↦ (j, w) ∷ erase k d ]

  pub lookup-insert_self : (k : K) (v : V) (d : Dict K V) → lookup k (insert k v d) ≡ some v
  unfolding lookup insert
  lookup-insert_self k v [] = ground (arith, beq_refl k)
  lookup-insert_self k v ((j, w) ∷ d) = ground (arith, lookup-insert_self k v d)

  pub lookup-insert_ne :
      (k j : K) (v : V) (d : Dict K V) → beq k j ≡ false → lookup j (insert k v d) ≡ lookup j d
  unfolding lookup insert
  lookup-insert_ne k j v [] h = ground arith
  lookup-insert_ne k j v ((i, w) ∷ d) h =
      ground (arith, e.beq_iff i k, e.beq_iff k j, e.beq_iff i j, lookup-insert_ne k j v d h)

  -- A key that is new goes to the end.
  pub insert_new :
      (k : K) (v : V) (d : Dict K V) → lookup k d ≡ none → insert k v d ≡ d ++ (k, v) ∷ []
  unfolding lookup insert
  insert_new k v [] h = refl
  insert_new k v ((j, w) ∷ d) h = ground (arith, insert_new k v d)

  pub lookup-append_some :
      (k : K) (d r : Dict K V) (v : V) → lookup k d ≡ some v → lookup k (d ++ r) ≡ some v
  unfolding lookup
  lookup-append_some k [] r v h = cc
  lookup-append_some k ((j, w) ∷ d) r v h = ground (arith, lookup-append_some k d r v)

  pub lookup-append_none :
      (k : K) (d r : Dict K V) → lookup k d ≡ none → lookup k (d ++ r) ≡ lookup k r
  unfolding lookup
  lookup-append_none k [] r h = refl
  lookup-append_none k ((j, w) ∷ d) r h = ground (arith, lookup-append_none k d r)

  -- What is found after an entry was added at the end was there before, or is the new entry.
  pub lookup-append_one :
      (k j : K) (v w : V) (d : Dict K V)
      → lookup k (d ++ (j, v) ∷ []) ≡ some w
      → (lookup k d ≡ some w) ⊎ (lookup k d ≡ none) × (j ≡ k) × (v ≡ w)
  unfolding lookup
  lookup-append_one k j v w [] h = elim (Bool-cases (beq j k)) [
    | inl same ↦ inr (refl, (e.beq_iff j k).0 same, ground arith)
    | inr other ↦ absurd (ground arith)
  ]
  lookup-append_one k j v w ((i, u) ∷ d) h = elim (Bool-cases (beq i k)) [
    | inl here ↦ inl (ground arith)
    | inr there ↦ elim (lookup-append_one k j v w d (ground arith)) [
      | inl old ↦ inl (ground arith)
      | inr new ↦ inr (ground arith, new.1, new.2)
    ]
  ]

  pub lookup_single : (k : K) (v : V) → lookup k ((k, v) ∷ []) ≡ some v
  unfolding lookup
  lookup_single k v = ground (arith, beq_refl k)

pub values-append {ℓ} : {K V : Type ℓ} (d r : Dict K V) → values (d ++ r) ≡ values d ++ values r
values-append [] r = refl
values-append ((k, v) ∷ d) r = ap (λ l. v ∷ l) (values-append d r)

pub All_lookup {ℓ} :
    {K V : Type ℓ} ⦃e : Eq K⦄ (P : V → Type ℓ) (k : K) (v : V) (d : Dict K V)
    → All P (values d)
    → lookup k d ≡ some v
    → P v
unfolding lookup
All_lookup P k v [] h found = absurd (ground arith)
All_lookup ⦃e⦄ P k v ((j, w) ∷ d) (h, rest) found = elim (Bool-cases (beq j k)) [
  | inl here ↦ subst P (ground arith) h
  | inr there ↦ All_lookup P k v d rest (ground arith)
]
