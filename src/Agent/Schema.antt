-- ===== src/Agent/Schema.antt =====
-- src/pi_agent/agent/schema.py: the check of a tool's arguments against its JSON schema. Python's `==` and
-- order on values and `re.search` are arguments. An exception is a constructor with the path it names; its
-- text is not modelled.
pub mod Validate
pub mod Ends
pub mod Fuel
use pi_agent_python.Base.{
  ℕ, zero, suc, ◌+◌, String, Bool, true, false, not, ◌&&◌, ◌||◌, Option, none, some, List, [], ◌∷◌,
  ◌++◌, if◌then◌else◌, ◌==◌, ltb, leb, beq, string_eq,
}
use pi_agent_python.Base.Lists.{length, any}
use pi_agent_python.Base.Result.{Result, ok, err, ◌>>=◌, ◌>>◌, raise_if}
use pi_agent_python.Ai.Json.{
  ℤ, pos, negsuc, JsonValue, null, bool, int, float, str, array, object, Items, nil, cons, Fields,
  end, field, get_field,
}

-- A step of the path of an exception: `.key` or `[index]`.
pub data Step : Type 0 where
  property : String → Step
  item : ℕ → Step

abbrev pub Place : Type 0
Place = List Step

-- `ToolArgumentsError`, one constructor for each raise.
pub data Problem : Type 0 where
  not_object_list : String → Problem
  no_match_any : Problem
  not_exactly_one : Problem
  forbidden : Problem
  not_constant : Problem
  enum_not_array : Problem
  not_in_enum : Problem
  bad_type_keyword : Problem
  wrong_type : Problem
  required_not_array : Problem
  missing_property : String → Problem
  properties_not_object : Problem
  unexpected_property : String → Problem
  below_size : String → Problem
  above_size : String → Problem
  not_unique : Problem
  no_pattern_match : Problem
  below_minimum : Problem
  above_maximum : Problem
  not_above_exclusive : Problem
  not_below_exclusive : Problem

pub data SchemaError : Type 0 where
  tool_arguments : Place → Problem → SchemaError
  -- What `re.search` raises on a pattern that is none.
  pattern_error : SchemaError
  -- No exception of the source: the recursion of the model has used up its fuel.
  out_of_fuel : SchemaError

-- What Python and its `re` do with values.
pub record Primitives : Type 0 where
  pub equal : JsonValue → JsonValue → Bool
  pub less : JsonValue → JsonValue → Bool
  pub less_equal : JsonValue → JsonValue → Bool
  -- none where the pattern is none
  pub search : String → String → Option Bool

abbrev pub Checked : Type 0
Checked = Result SchemaError Unit

abbrev pub refuse : Place → Problem → Bool → Checked
refuse path problem bad = raise_if bad (SchemaError.tool_arguments path problem)

abbrev pub each : {A : Type 0} → (A → Checked) → List A → Checked
each f [] = ok tt
each f (x ∷ xs) = f x >> each f xs

-- `_schema_list`
unfoldable pub objects_of : Items → Option (List Fields)
objects_of nil = some []
objects_of (cons (object fs) xs) = elim (objects_of xs) [ none ↦ none | some l ↦ some (fs ∷ l) ]
objects_of (cons _ xs) = none

abbrev pub listed : Place → String → Option (List Fields) → Result SchemaError (List Fields)
listed path keyword none = err (SchemaError.tool_arguments path (Problem.not_object_list keyword))
listed path keyword (some l) = ok l

unfoldable pub schema_list : JsonValue → Place → String → Result SchemaError (List Fields)
unfolding objects_of
schema_list (array xs) path keyword = listed path keyword (objects_of xs)
schema_list _ path keyword = listed path keyword none

-- `_is_valid`
abbrev pub is_valid : Checked → Result SchemaError Bool
is_valid (ok _) = ok true
is_valid (err (SchemaError.tool_arguments path problem)) = ok false
is_valid (err SchemaError.pattern_error) = err SchemaError.pattern_error
is_valid (err SchemaError.out_of_fuel) = err SchemaError.out_of_fuel

abbrev pub or_later : Bool → Result SchemaError Bool → Result SchemaError Bool
or_later true later = ok true
or_later false later = later

-- `any(...)`, which stops at the first, and `sum(...)`
abbrev pub any_valid : {A : Type 0} → (A → Checked) → List A → Result SchemaError Bool
any_valid f [] = ok false
any_valid f (x ∷ xs) = is_valid (f x) >>= λ b. or_later b (any_valid f xs)

abbrev pub count_valid : {A : Type 0} → (A → Checked) → List A → Result SchemaError ℕ
count_valid f [] = ok 0
count_valid f (x ∷ xs) =
    is_valid (f x) >>= λ b. count_valid f xs >>= λ n. ok (if b then suc n else n)

abbrev pub is_number : JsonValue → Bool
is_number (int _) = true
is_number (float _) = true
is_number _ = false

-- `_matches_type`
abbrev pub matches_type : JsonValue → String → Bool
matches_type (object _) t = beq t "object"
matches_type (array _) t = beq t "array"
matches_type (str _) t = beq t "string"
matches_type (int _) t = beq t "number" || beq t "integer"
matches_type (float _) t = beq t "number"
matches_type (bool _) t = beq t "boolean"
matches_type null t = beq t "null"

abbrev pub items_length : Items → ℕ
items_length nil = 0
items_length (cons v xs) = suc (items_length xs)

abbrev pub fields_length : Fields → ℕ
fields_length end = 0
fields_length (field k v fs) = suc (fields_length fs)

-- `isinstance(minimum, int) and len(value) < minimum`, and the other way; a bool is an int.
abbrev pub is_below : ℕ → Option JsonValue → Bool
is_below n (some (int (pos m))) = ltb n m
is_below n (some (bool true)) = n == 0
is_below n _ = false

abbrev pub is_above : ℕ → Option JsonValue → Bool
is_above n (some (int (pos m))) = ltb m n
is_above n (some (int (negsuc m))) = true
is_above n (some (bool true)) = ltb 1 n
is_above n (some (bool false)) = not (n == 0)
is_above n _ = false

-- `_check_size`
unfoldable pub check_size : ℕ → Fields → Place → String → String → Checked
unfolding get_field
check_size n schema path minimum_key maximum_key = do
  refuse path (Problem.below_size minimum_key) (is_below n (get_field minimum_key schema))
  refuse path (Problem.above_size maximum_key) (is_above n (get_field maximum_key schema))

abbrev pub strings_of : Items → Option (List String)
strings_of nil = some []
strings_of (cons (str s) xs) = elim (strings_of xs) [ none ↦ none | some l ↦ some (s ∷ l) ]
strings_of (cons _ xs) = none

abbrev pub expected_types : JsonValue → Option (List String)
expected_types (str s) = some (s ∷ [])
expected_types (array xs) = strings_of xs
expected_types _ = none

abbrev pub check_types : JsonValue → Place → Option (List String) → Checked
check_types value path none = err (SchemaError.tool_arguments path Problem.bad_type_keyword)
check_types value path (some types) =
    refuse path Problem.wrong_type (not (any (matches_type value) types))

-- `schema.get("type")` and what follows.
abbrev pub check_type : JsonValue → Option JsonValue → Place → Checked
check_type value none path = ok tt
check_type value (some null) path = ok tt
check_type value (some expected) path = check_types value path (expected_types expected)

-- `key not in value`
abbrev pub is_missing : String → Fields → Bool
is_missing key value = elim (get_field key value) [ none ↦ true | some _ ↦ false ]

unfoldable pub check_required : Items → Fields → Place → Checked
unfolding get_field
check_required nil value path = ok tt
check_required (cons (str key) xs) value path = do
  refuse path (Problem.missing_property key) (is_missing key value)
  check_required xs value path
check_required (cons _ xs) value path = check_required xs value path

abbrev pub required_of : Option JsonValue → Place → Result SchemaError Items
required_of none path = ok nil
required_of (some (array xs)) path = ok xs
required_of (some _) path = err (SchemaError.tool_arguments path Problem.required_not_array)

abbrev pub properties_of : Option JsonValue → Place → Result SchemaError Fields
properties_of none path = ok end
properties_of (some (object fs)) path = ok fs
properties_of (some _) path = err (SchemaError.tool_arguments path Problem.properties_not_object)
