-- ===== src/Agent/Schema/Validate.antt =====
-- `validate_json_schema` of src/pi_agent/agent/schema.py. Its parts take the recursive call as `go`.
use Prim.Native.String.{count}
use pi_agent_python.Base.{
  ℕ, zero, suc, ◌+◌, String, Bool, true, false, not, ◌&&◌, ◌||◌, Option, none, some, [], ◌∷◌, ◌++◌,
  if◌then◌else◌, ◌==◌,
}
use pi_agent_python.Base.Result.{ok, err, ◌>>=◌, ◌>>◌}
use pi_agent_python.Ai.Json.{
  JsonValue, null, bool, int, float, str, array, object, Items, nil, cons, Fields, end, field,
  get_field,
}
use pi_agent_python.Agent.Schema.{
  property, item, Place, Problem, SchemaError, Primitives, Checked, refuse, each, schema_list,
  is_valid, any_valid, count_valid, is_number, items_length, fields_length, check_size, check_type,
  check_required, required_of, properties_of,
}

abbrev pub Go : Type 0
Go = JsonValue → Fields → Place → Checked

-- The dictionary, where `isinstance(value, dict)`.
abbrev pub as_object : Option JsonValue → Option Fields
as_object (some (object fs)) = some fs
as_object _ = none

-- The size of a schema: the fuel that its check takes.
unfoldable mutual
  pub value_size : JsonValue → ℕ
  value_size null = 0
  value_size (bool _) = 0
  value_size (int _) = 0
  value_size (float _) = 0
  value_size (str _) = 0
  value_size (array xs) = suc (items_size xs)
  value_size (object fs) = suc (fields_size fs)

  pub items_size : Items → ℕ
  items_size nil = 0
  items_size (cons v xs) = suc (value_size v + items_size xs)

  pub fields_size : Fields → ℕ
  fields_size end = 0
  fields_size (field k v fs) = suc (value_size v + fields_size fs)

module _ (py : Primitives) where
  module _ (go : Go) (value : JsonValue) (path : Place) where
    -- `if "allOf" in schema`, and so on
    abbrev pub check_all_of : Option JsonValue → Checked
    check_all_of none = ok tt
    check_all_of (some v) =
        schema_list v path "allOf" >>= λ children. each (λ child. go value child path) children

    abbrev pub check_any_of : Option JsonValue → Checked
    check_any_of none = ok tt
    check_any_of (some v) = do
      children ← schema_list v path "anyOf"
      found ← any_valid (λ child. go value child path) children
      refuse path Problem.no_match_any (not found)

    abbrev pub check_one_of : Option JsonValue → Checked
    check_one_of none = ok tt
    check_one_of (some v) = do
      children ← schema_list v path "oneOf"
      matches ← count_valid (λ child. go value child path) children
      refuse path Problem.not_exactly_one (not (matches == 1))

    abbrev pub check_not : Option Fields → Checked
    check_not none = ok tt
    check_not (some child) = is_valid (go value child path) >>= λ b. refuse path Problem.forbidden b

  abbrev pub check_const : JsonValue → Place → Option JsonValue → Checked
  check_const value path none = ok tt
  check_const value path (some v) = refuse path Problem.not_constant (not (py.equal value v))

  -- `value in enum_values`
  abbrev pub in_items : JsonValue → Items → Bool
  in_items value nil = false
  in_items value (cons v xs) = py.equal v value || in_items value xs

  abbrev pub check_enum : JsonValue → Place → Option JsonValue → Checked
  check_enum value path none = ok tt
  check_enum value path (some (array xs)) =
      refuse path Problem.not_in_enum (not (in_items value xs))
  check_enum value path (some _) = err (SchemaError.tool_arguments path Problem.enum_not_array)

  abbrev pub check_additional : Go → String → JsonValue → Place → Option JsonValue → Checked
  check_additional go key v path (some (bool false)) =
      err (SchemaError.tool_arguments path (Problem.unexpected_property key))
  check_additional go key v path (some (object child)) = go v child (path ++ property key ∷ [])
  check_additional go key v path _ = ok tt

  -- The body of the loop over the items of a dictionary.
  abbrev pub check_property :
      Go → String → JsonValue → Place → Option Fields → Option JsonValue → Checked
  check_property go key v path (some child) additional = go v child (path ++ property key ∷ [])
  check_property go key v path none additional = check_additional go key v path additional

  unfoldable pub check_properties : Go → Fields → Fields → Option JsonValue → Place → Checked
  unfolding get_field
  check_properties go end properties additional path = ok tt
  check_properties go (field key v fs) properties additional path = do
    check_property go key v path (as_object (get_field key properties)) additional
    check_properties go fs properties additional path

  -- `item in value[:index]`, for each item
  abbrev pub is_unique : Items → Items → Bool
  is_unique before nil = true
  is_unique before (cons v xs) = not (in_items v before) && is_unique (cons v before) xs

  unfoldable pub check_items : Go → Fields → ℕ → Items → Place → Checked
  check_items go child index nil path = ok tt
  check_items go child index (cons v xs) path = do
    go v child (path ++ item index ∷ [])
    check_items go child (suc index) xs path

  abbrev pub check_unique : Option JsonValue → Items → Place → Checked
  check_unique (some (bool true)) xs path = refuse path Problem.not_unique (not (is_unique nil xs))
  check_unique _ xs path = ok tt

  abbrev pub check_item_schema : Go → Option Fields → Items → Place → Checked
  check_item_schema go (some child) xs path = check_items go child 0 xs path
  check_item_schema go none xs path = ok tt

  abbrev pub check_pattern : Option JsonValue → String → Place → Checked
  check_pattern (some (str pattern)) s path = elim (py.search pattern s) [
    | none ↦ err SchemaError.pattern_error
    | some found ↦ refuse path Problem.no_pattern_match (not found)
  ]
  check_pattern _ s path = ok tt

  -- By the class of the value: a dictionary, a list or a text, whose code points are counted.
  unfoldable pub check_shape : Go → JsonValue → Fields → Place → Checked
  unfolding get_field check_required check_properties check_size check_items
  check_shape go (object fs) schema path = do
    required ← required_of (get_field "required" schema) path
    check_required required fs path
    properties ← properties_of (get_field "properties" schema) path
    check_properties go fs properties (get_field "additionalProperties" schema) path
    check_size (fields_length fs) schema path "minProperties" "maxProperties"
  check_shape go (array xs) schema path = do
    check_size (items_length xs) schema path "minItems" "maxItems"
    check_unique (get_field "uniqueItems" schema) xs path
    check_item_schema go (as_object (get_field "items" schema)) xs path
  check_shape go (str s) schema path = do
    check_size (count s) schema path "minLength" "maxLength"
    check_pattern (get_field "pattern" schema) s path
  check_shape go _ schema path = ok tt

  -- `_is_number(bound) and` a comparison
  abbrev pub bounded : (JsonValue → Bool) → Option JsonValue → Bool
  bounded bad none = false
  bounded bad (some bound) = is_number bound && bad bound

  unfoldable pub check_bounds : JsonValue → Fields → Place → Checked
  unfolding get_field
  check_bounds value schema path = do
    refuse path Problem.below_minimum (bounded (λ b. py.less value b) (get_field "minimum" schema))
    refuse path Problem.above_maximum (bounded (λ b. py.less b value) (get_field "maximum" schema))
    refuse path Problem.not_above_exclusive
        (bounded (λ b. py.less_equal value b) (get_field "exclusiveMinimum" schema))
    refuse path Problem.not_below_exclusive
        (bounded (λ b. py.less_equal b value) (get_field "exclusiveMaximum" schema))

  abbrev pub check_number : JsonValue → Fields → Place → Checked
  check_number value schema path = if is_number value then check_bounds value schema path else ok tt

  -- The body of `validate_json_schema`, in its order.
  unfoldable pub validate_step : Go → Go
  unfolding get_field schema_list check_shape check_bounds
  validate_step go value schema path = do
    check_all_of go value path (get_field "allOf" schema)
    check_any_of go value path (get_field "anyOf" schema)
    check_one_of go value path (get_field "oneOf" schema)
    check_not go value path (as_object (get_field "not" schema))
    check_const value path (get_field "const" schema)
    check_enum value path (get_field "enum" schema)
    check_type value (get_field "type" schema) path
    check_shape go value schema path
    check_number value schema path

  unfoldable pub validate : ℕ → Go
  unfolding validate_step
  validate zero value schema path = err SchemaError.out_of_fuel
  validate (suc fuel) value schema path = validate_step (validate fuel) value schema path

  -- `validate_json_schema`, whose `path` is "$" at the start
  unfoldable pub validate_json_schema : JsonValue → Fields → Checked
  unfolding validate fields_size
  validate_json_schema value schema = validate (suc (fields_size schema)) value schema []
