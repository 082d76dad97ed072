-- ===== src/Agent/Schema/Ends.antt =====
-- That the parts of `validate_json_schema`, src/pi_agent/agent/schema.py, end: the lists of schemas.
use pi_agent_python.Base.{
  ℕ, suc, ◌+◌, ◌<◌, ◌≤◌, String, ◌≡◌, refl, ap, Bool, true, false, Option, none, some, List, [],
  ◌∷◌, arith, beq, string_eq, Option-cases, Bool-cases, inl, inr,
}
use pi_agent_python.Base.Lists.{All}
use pi_agent_python.Base.Result.{Result, ok, err, ◌>>=◌, ◌>>◌}
use pi_agent_python.Ai.Json.{
  JsonValue, null, bool, int, float, str, array, object, Items, nil, cons, Fields, end, field,
  get_field,
}
use pi_agent_python.Agent.Schema.{
  Place, Problem, SchemaError, Checked, refuse, each, objects_of, listed, schema_list, is_valid,
  or_later, any_valid, count_valid, check_size, check_type, check_types, expected_types,
  check_required,
}
use pi_agent_python.Agent.Schema.Validate.{value_size, items_size, fields_size, as_object}

-- The fuel was not used up.
abbrev pub IsOther : {A : Type 0} → Result SchemaError A → Type 0
IsOther (err SchemaError.out_of_fuel) = ⊥
IsOther _ = Unit

pub record Ends {A : Type 0} (r : Result SchemaError A) : Type 0 where
  pub other : IsOther r

pub done : {A : Type 0} {r : Result SchemaError A} → IsOther r → Ends r
done h = record { other = h }

pub Ends->>= :
    {A B : Type 0} (r : Result SchemaError A) (k : A → Result SchemaError B)
    → Ends r
    → ((a : A) → r ≡ ok a → Ends (k a))
    → Ends (r >>= k)
Ends->>= (ok a) k h j = j a refl
Ends->>= (err (SchemaError.tool_arguments path problem)) k h j = done tt
Ends->>= (err SchemaError.pattern_error) k h j = done tt
Ends->>= (err SchemaError.out_of_fuel) k h j = absurd h.other

-- One check after another.
pub Ends->> : (r s : Checked) → Ends r → Ends s → Ends (r >> s)
Ends->> r s h j = Ends->>= r (λ _. s) h (λ _ _. j)

pub Ends-refuse : (path : Place) (problem : Problem) (b : Bool) → Ends (refuse path problem b)
Ends-refuse path problem true = done tt
Ends-refuse path problem false = done tt

pub Ends-is_valid : (r : Checked) → Ends r → Ends (is_valid r)
Ends-is_valid (ok x) h = done tt
Ends-is_valid (err (SchemaError.tool_arguments path problem)) h = done tt
Ends-is_valid (err SchemaError.pattern_error) h = done tt
Ends-is_valid (err SchemaError.out_of_fuel) h = absurd h.other

pub get_field-size :
    (k : String) (fs : Fields) (v : JsonValue)
    → get_field k fs ≡ some v
    → value_size v < fields_size fs
unfolding get_field value_size fields_size
get_field-size k end v h = cc
get_field-size k (field j w fs) v h = elim (Bool-cases (beq j k)) [
  | inl same ↦ let e : w ≡ v = ground arith in let s = ap value_size e in omega arith
  | inr other ↦ let i = get_field-size k fs v (ground arith) in omega arith
]

-- Schemas smaller than the bound.
abbrev pub Small : ℕ → List Fields → Type 0
Small n l = All (λ fs. fields_size fs < n) l

Small-≤ : (m n : ℕ) (l : List Fields) → m ≤ n → Small m l → Small n l
Small-≤ m n [] le h = tt
Small-≤ m n (fs ∷ l) le h = (omega (arith, h.0), Small-≤ m n l le (h.1))

abbrev pub SmallIf : ℕ → Option (List Fields) → Type 0
SmallIf n none = Unit
SmallIf n (some l) = Small n l

pub SmallIf-cons :
    (m n : ℕ) (fs : Fields) (o : Option (List Fields))
    → fields_size fs < n
    → m ≤ n
    → SmallIf m o
    → SmallIf n (elim o [ none ↦ none | some l ↦ some (fs ∷ l) ])
SmallIf-cons m n fs none lt le h = tt
SmallIf-cons m n fs (some l) lt le h = (lt, Small-≤ m n l le h)

pub objects_of-Small : (xs : Items) → SmallIf (items_size xs) (objects_of xs)
unfolding objects_of items_size value_size
objects_of-Small nil = tt
objects_of-Small (cons (object fs) xs) =
    SmallIf-cons (items_size xs) (suc (suc (fields_size fs) + items_size xs)) fs (objects_of xs)
      (omega arith) (omega arith) (objects_of-Small xs)
objects_of-Small (cons null xs) = tt
objects_of-Small (cons (bool _) xs) = tt
objects_of-Small (cons (int _) xs) = tt
objects_of-Small (cons (float _) xs) = tt
objects_of-Small (cons (str _) xs) = tt
objects_of-Small (cons (array _) xs) = tt

module _ {A : Type 0} (k : List Fields → Result SchemaError A) (path : Place)
    (keyword : String) where
  Ends-listed :
      (n : ℕ) (o : Option (List Fields))
      → SmallIf n o
      → ((l : List Fields) → Small n l → Ends (k l))
      → Ends (listed path keyword o >>= k)
  Ends-listed n none h j = done tt
  Ends-listed n (some l) h j = j l h

  pub Ends-schema_list :
      (n : ℕ) (v : JsonValue)
      → value_size v ≤ n
      → ((l : List Fields) → Small n l → Ends (k l))
      → Ends (schema_list v path keyword >>= k)
  unfolding schema_list value_size
  Ends-schema_list n (array xs) le j =
      Ends-listed (items_size xs) (objects_of xs) (objects_of-Small xs)
        (λ l h. j l (Small-≤ (items_size xs) n l (omega arith) h))
  Ends-schema_list n null le j = done tt
  Ends-schema_list n (bool _) le j = done tt
  Ends-schema_list n (int _) le j = done tt
  Ends-schema_list n (float _) le j = done tt
  Ends-schema_list n (str _) le j = done tt
  Ends-schema_list n (object _) le j = done tt

module _ (n : ℕ) (f : Fields → Checked)
    (below : (fs : Fields) → fields_size fs < n → Ends (f fs)) where
  pub Ends-each : (l : List Fields) → Small n l → Ends (each f l)
  Ends-each [] h = done tt
  Ends-each (x ∷ l) h = Ends->> (f x) (each f l) (below x (h.0)) (Ends-each l (h.1))

  pub Ends-or_later : (b : Bool) (r : Result SchemaError Bool) → Ends r → Ends (or_later b r)
  Ends-or_later true r h = done tt
  Ends-or_later false r h = h

  pub Ends-any_valid : (l : List Fields) → Small n l → Ends (any_valid f l)
  Ends-any_valid [] h = done tt
  Ends-any_valid (x ∷ l) h =
      Ends->>= (is_valid (f x)) (λ b. or_later b (any_valid f l))
        (Ends-is_valid (f x) (below x (h.0)))
        (λ b _. Ends-or_later b (any_valid f l) (Ends-any_valid l (h.1)))

  pub Ends-count_valid : (l : List Fields) → Small n l → Ends (count_valid f l)
  Ends-count_valid [] h = done tt
  Ends-count_valid (x ∷ l) h =
      Ends->>= (is_valid (f x)) _ (Ends-is_valid (f x) (below x (h.0)))
        (λ b _. Ends->>= (count_valid f l) _ (Ends-count_valid l (h.1)) (λ m _. done tt))

pub Ends-check_types :
    (v : JsonValue) (path : Place) (o : Option (List String)) → Ends (check_types v path o)
Ends-check_types v path none = done tt
Ends-check_types v path (some l) = Ends-refuse path _ _

pub Ends-check_type :
    (v : JsonValue) (o : Option JsonValue) (path : Place) → Ends (check_type v o path)
Ends-check_type v none path = done tt
Ends-check_type v (some null) path = done tt
Ends-check_type v (some (bool b)) path = Ends-check_types v path (expected_types (bool b))
Ends-check_type v (some (int z)) path = Ends-check_types v path (expected_types (int z))
Ends-check_type v (some (float x)) path = Ends-check_types v path (expected_types (float x))
Ends-check_type v (some (str s)) path = Ends-check_types v path (expected_types (str s))
Ends-check_type v (some (array xs)) path = Ends-check_types v path (expected_types (array xs))
Ends-check_type v (some (object fs)) path = Ends-check_types v path (expected_types (object fs))

pub Ends-check_size :
    (n : ℕ) (s : Fields) (path : Place) (a b : String) → Ends (check_size n s path a b)
unfolding check_size
Ends-check_size n s path a b = Ends->> _ _ (Ends-refuse path _ _) (Ends-refuse path _ _)

pub Ends-check_required :
    (xs : Items) (value : Fields) (path : Place) → Ends (check_required xs value path)
unfolding check_required
Ends-check_required nil value path = done tt
Ends-check_required (cons (str key) xs) value path =
    Ends->> _ _ (Ends-refuse path _ _) (Ends-check_required xs value path)
Ends-check_required (cons null xs) value path = Ends-check_required xs value path
Ends-check_required (cons (bool _) xs) value path = Ends-check_required xs value path
Ends-check_required (cons (int _) xs) value path = Ends-check_required xs value path
Ends-check_required (cons (float _) xs) value path = Ends-check_required xs value path
Ends-check_required (cons (array _) xs) value path = Ends-check_required xs value path
Ends-check_required (cons (object _) xs) value path = Ends-check_required xs value path

-- A value that is none, or smaller than the bound.
abbrev pub Under : ℕ → Option JsonValue → Type 0
Under n none = Unit
Under n (some v) = value_size v < n

pub Under-get_field :
    (k : String) (fs : Fields) (n : ℕ) → fields_size fs ≤ n → Under n (get_field k fs)
Under-get_field k fs n h = elim (Option-cases (get_field k fs)) [
  | inl missing ↦ rw missing tt
  | inr (v, found) ↦ let s = get_field-size k fs v found in rw found (omega arith)
]

abbrev pub UnderFields : ℕ → Option Fields → Type 0
UnderFields n none = Unit
UnderFields n (some fs) = fields_size fs < n

pub Under-as_object : (n : ℕ) (o : Option JsonValue) → Under n o → UnderFields n (as_object o)
unfolding value_size
Under-as_object n (some (object fs)) h = omega arith
Under-as_object n none h = tt
Under-as_object n (some null) h = tt
Under-as_object n (some (bool _)) h = tt
Under-as_object n (some (int _)) h = tt
Under-as_object n (some (float _)) h = tt
Under-as_object n (some (str _)) h = tt
Under-as_object n (some (array _)) h = tt
