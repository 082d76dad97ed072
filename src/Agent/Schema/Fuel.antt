-- ===== src/Agent/Schema/Fuel.antt =====
-- The recursion of `validate_json_schema`, src/pi_agent/agent/schema.py.
use Prim.Native.String.{count}
use pi_agent_python.Base.{
  ℕ, zero, suc, ◌<◌, ◌≤◌, String, ◌≢◌, Bool, true, false, not, Option, none, some, [],
  if◌then◌else◌, ◌==◌, arith, string_eq,
}
use pi_agent_python.Base.Result.{Result, ok, err, ◌>>=◌}
use pi_agent_python.Ai.Json.{
  JsonValue, null, bool, int, float, str, array, object, Items, nil, cons, Fields, end, field,
  get_field,
}
use pi_agent_python.Agent.Schema.{
  Place, Problem, SchemaError, Primitives, refuse, is_valid, any_valid, count_valid, is_number,
  items_length, fields_length, required_of, properties_of,
}
use pi_agent_python.Agent.Schema.Validate.{
  Go, value_size, fields_size, check_all_of, check_any_of, check_one_of, check_not, check_const,
  check_enum, check_additional, check_property, check_properties, check_items, check_unique,
  check_item_schema, check_pattern, check_shape, bounded, check_bounds, validate_step, validate,
  validate_json_schema,
}
use pi_agent_python.Agent.Schema.Ends.{
  Ends-each, IsOther, Ends, done, Ends->>=, Ends->>, Ends-refuse, Ends-is_valid, Ends-schema_list,
  Ends-any_valid, Ends-count_valid, Ends-check_type, Ends-check_size, Ends-check_required, Under,
  Under-get_field, UnderFields, Under-as_object,
}

abbrev GoEnds : ℕ → Go → Type 0
GoEnds n go =
    (v : JsonValue) (fs : Fields) (path : Place) → fields_size fs < n → Ends (go v fs path)

module _ (py : Primitives) (go : Go) (n : ℕ) (below : GoEnds n go) where
  module _ (value : JsonValue) (path : Place) where
    Ends-check_all_of : (o : Option JsonValue) → Under n o → Ends (check_all_of py go value path o)
    Ends-check_all_of none h = done tt
    Ends-check_all_of (some v) h =
        Ends-schema_list _ path "allOf" n v (omega arith)
          (Ends-each n (λ child. go value child path) (λ fs lt. below value fs path lt))

    Ends-check_any_of : (o : Option JsonValue) → Under n o → Ends (check_any_of py go value path o)
    Ends-check_any_of none h = done tt
    Ends-check_any_of (some v) h = Ends-schema_list _ path "anyOf" n v (omega arith) (λ l s.
        Ends->>= (any_valid (λ child. go value child path) l) _
          (Ends-any_valid n (λ child. go value child path) (λ fs lt. below value fs path lt) l s)
          (λ b _. Ends-refuse path Problem.no_match_any (not b)))

    Ends-check_one_of : (o : Option JsonValue) → Under n o → Ends (check_one_of py go value path o)
    Ends-check_one_of none h = done tt
    Ends-check_one_of (some v) h = Ends-schema_list _ path "oneOf" n v (omega arith) (λ l s.
        Ends->>= (count_valid (λ child. go value child path) l) _
          (Ends-count_valid n (λ child. go value child path) (λ fs lt. below value fs path lt) l s)
          (λ m _. Ends-refuse path Problem.not_exactly_one (not (m == 1))))

    Ends-check_not : (o : Option Fields) → UnderFields n o → Ends (check_not py go value path o)
    Ends-check_not none h = done tt
    Ends-check_not (some child) h =
        Ends->>= (is_valid (go value child path)) _
          (Ends-is_valid (go value child path) (below value child path h))
          (λ b _. Ends-refuse path Problem.forbidden b)

    Ends-check_const : (o : Option JsonValue) → Ends (check_const py value path o)
    Ends-check_const none = done tt
    Ends-check_const (some v) = Ends-refuse path _ _

    Ends-check_enum : (o : Option JsonValue) → Ends (check_enum py value path o)
    Ends-check_enum (some (array xs)) = Ends-refuse path _ _
    Ends-check_enum none = done tt
    Ends-check_enum (some null) = done tt
    Ends-check_enum (some (bool _)) = done tt
    Ends-check_enum (some (int _)) = done tt
    Ends-check_enum (some (float _)) = done tt
    Ends-check_enum (some (str _)) = done tt
    Ends-check_enum (some (object _)) = done tt

  Ends-check_additional :
      (key : String) (v : JsonValue) (path : Place) (a : Option JsonValue)
      → Under n a
      → Ends (check_additional py go key v path a)
  unfolding value_size
  Ends-check_additional key v path (some (object child)) h = below v child _ (omega arith)
  Ends-check_additional key v path (some (bool true)) h = done tt
  Ends-check_additional key v path (some (bool false)) h = done tt
  Ends-check_additional key v path none h = done tt
  Ends-check_additional key v path (some null) h = done tt
  Ends-check_additional key v path (some (int _)) h = done tt
  Ends-check_additional key v path (some (float _)) h = done tt
  Ends-check_additional key v path (some (str _)) h = done tt
  Ends-check_additional key v path (some (array _)) h = done tt

  Ends-check_property :
      (key : String) (v : JsonValue) (path : Place) (o : Option Fields) (a : Option JsonValue)
      → UnderFields n o
      → Under n a
      → Ends (check_property py go key v path o a)
  Ends-check_property key v path (some child) a h k = below v child _ h
  Ends-check_property key v path none a h k = Ends-check_additional key v path a k

  Ends-check_properties :
      (fs properties : Fields) (a : Option JsonValue) (path : Place)
      → fields_size properties ≤ n
      → Under n a
      → Ends (check_properties py go fs properties a path)
  unfolding check_properties
  Ends-check_properties end properties a path h k = done tt
  Ends-check_properties (field key v fs) properties a path h k =
      Ends->> _ _
        (Ends-check_property key v path _ a
          (Under-as_object n (get_field key properties) (Under-get_field key properties n h)) k)
        (Ends-check_properties fs properties a path h k)

  Ends-check_items :
      (child : Fields) (index : ℕ) (xs : Items) (path : Place)
      → fields_size child < n
      → Ends (check_items py go child index xs path)
  unfolding check_items
  Ends-check_items child index nil path h = done tt
  Ends-check_items child index (cons v xs) path h =
      Ends->> _ _ (below v child _ h) (Ends-check_items child (suc index) xs path h)

  Ends-check_item_schema :
      (o : Option Fields) (xs : Items) (path : Place)
      → UnderFields n o
      → Ends (check_item_schema py go o xs path)
  Ends-check_item_schema none xs path h = done tt
  Ends-check_item_schema (some child) xs path h = Ends-check_items child 0 xs path h

  Ends-check_unique :
      (o : Option JsonValue) (xs : Items) (path : Place) → Ends (check_unique py o xs path)
  Ends-check_unique (some (bool true)) xs path = Ends-refuse path _ _
  Ends-check_unique (some (bool false)) xs path = done tt
  Ends-check_unique none xs path = done tt
  Ends-check_unique (some null) xs path = done tt
  Ends-check_unique (some (int _)) xs path = done tt
  Ends-check_unique (some (float _)) xs path = done tt
  Ends-check_unique (some (str _)) xs path = done tt
  Ends-check_unique (some (array _)) xs path = done tt
  Ends-check_unique (some (object _)) xs path = done tt

  Ends-found :
      (o : Option Bool) (path : Place)
      → Ends {A = Unit {0}} (elim o [
        | none ↦ err SchemaError.pattern_error
        | some found ↦ refuse path Problem.no_pattern_match (not found)
      ])
  Ends-found none path = done tt
  Ends-found (some b) path = Ends-refuse path Problem.no_pattern_match (not b)

  Ends-check_pattern :
      (o : Option JsonValue) (s : String) (path : Place) → Ends (check_pattern py o s path)
  Ends-check_pattern (some (str pattern)) s path = Ends-found (py.search pattern s) path
  Ends-check_pattern none s path = done tt
  Ends-check_pattern (some null) s path = done tt
  Ends-check_pattern (some (bool _)) s path = done tt
  Ends-check_pattern (some (int _)) s path = done tt
  Ends-check_pattern (some (float _)) s path = done tt
  Ends-check_pattern (some (array _)) s path = done tt
  Ends-check_pattern (some (object _)) s path = done tt

  -- What `required` and `properties` come to.
  Ends-required_of : (o : Option JsonValue) (path : Place) → Ends (required_of o path)
  Ends-required_of (some (array xs)) path = done tt
  Ends-required_of none path = done tt
  Ends-required_of (some null) path = done tt
  Ends-required_of (some (bool _)) path = done tt
  Ends-required_of (some (int _)) path = done tt
  Ends-required_of (some (float _)) path = done tt
  Ends-required_of (some (str _)) path = done tt
  Ends-required_of (some (object _)) path = done tt

  Ends-properties_of :
      {A : Type 0} (o : Option JsonValue) (path : Place) (k : Fields → Result SchemaError A)
      → Under n o
      → ((fs : Fields) → fields_size fs ≤ n → Ends (k fs))
      → Ends (properties_of o path >>= k)
  unfolding value_size
  Ends-properties_of (some (object fs)) path k h j = j fs (omega arith)
  Ends-properties_of none path k h j = j end (omega arith)
  Ends-properties_of (some null) path k h j = done tt
  Ends-properties_of (some (bool _)) path k h j = done tt
  Ends-properties_of (some (int _)) path k h j = done tt
  Ends-properties_of (some (float _)) path k h j = done tt
  Ends-properties_of (some (str _)) path k h j = done tt
  Ends-properties_of (some (array _)) path k h j = done tt

  Ends-check_shape :
      (v : JsonValue) (fs : Fields) (path : Place)
      → fields_size fs ≤ n
      → Ends (check_shape py go v fs path)
  unfolding check_shape
  Ends-check_shape (object value) fs path h =
      Ends->>= _ _ (Ends-required_of (get_field "required" fs) path) (λ required _.
        Ends->> _ _ (Ends-check_required required value path) (
          Ends-properties_of (get_field "properties" fs) path _
            (Under-get_field "properties" fs n h)
            (λ properties le.
              Ends->> _ _
                (Ends-check_properties value properties (get_field "additionalProperties" fs) path
                  le (Under-get_field "additionalProperties" fs n h))
                (Ends-check_size (fields_length value) fs path "minProperties" "maxProperties"))))
  Ends-check_shape (array xs) fs path h =
      Ends->> _ _ (Ends-check_size (items_length xs) fs path "minItems" "maxItems") (
        Ends->> _ _ (Ends-check_unique (get_field "uniqueItems" fs) xs path) (
          Ends-check_item_schema _ xs path
            (Under-as_object n (get_field "items" fs) (Under-get_field "items" fs n h))))
  Ends-check_shape (str s) fs path h =
      Ends->> _ _ (Ends-check_size (count s) fs path "minLength" "maxLength")
        (Ends-check_pattern (get_field "pattern" fs) s path)
  Ends-check_shape null fs path h = done tt
  Ends-check_shape (bool _) fs path h = done tt
  Ends-check_shape (int _) fs path h = done tt
  Ends-check_shape (float _) fs path h = done tt

  Ends-check_bounds :
      (v : JsonValue) (fs : Fields) (path : Place) → Ends (check_bounds py v fs path)
  unfolding check_bounds
  Ends-check_bounds v fs path =
      let bad : (JsonValue → Bool) → String → Bool = λ p key. bounded py p (get_field key fs) in
      Ends->> _ _ (Ends-refuse path Problem.below_minimum (bad (λ b. py.less v b) "minimum")) (
        Ends->> _ _ (Ends-refuse path Problem.above_maximum (bad (λ b. py.less b v) "maximum")) (
          Ends->> _ _
            (Ends-refuse path Problem.not_above_exclusive
              (bad (λ b. py.less_equal v b) "exclusiveMinimum"))
            (Ends-refuse path Problem.not_below_exclusive
              (bad (λ b. py.less_equal b v) "exclusiveMaximum"))))

  Ends-check_number :
      (b : Bool) (v : JsonValue) (fs : Fields) (path : Place)
      → Ends (if b then check_bounds py v fs path else ok tt)
  Ends-check_number true v fs path = Ends-check_bounds v fs path
  Ends-check_number false v fs path = done tt

  Ends-validate_step :
      (v : JsonValue) (fs : Fields) (path : Place)
      → fields_size fs ≤ n
      → Ends (validate_step py go v fs path)
  unfolding validate_step
  Ends-validate_step v fs path h =
      Ends->> _ _ (Ends-check_all_of v path _ (Under-get_field "allOf" fs n h)) (
        Ends->> _ _ (Ends-check_any_of v path _ (Under-get_field "anyOf" fs n h)) (
          Ends->> _ _ (Ends-check_one_of v path _ (Under-get_field "oneOf" fs n h)) (
            Ends->> _ _
              (Ends-check_not v path _ (Under-as_object n _ (Under-get_field "not" fs n h)))
              (Ends->> _ _ (Ends-check_const v path (get_field "const" fs)) (
                Ends->> _ _ (Ends-check_enum v path (get_field "enum" fs)) (
                  Ends->> _ _ (Ends-check_type v (get_field "type" fs) path) (
                    Ends->> _ _ (Ends-check_shape v fs path h)
                      (Ends-check_number (is_number v) v fs path))))))))

Ends-validate :
    (py : Primitives) (n : ℕ) (v : JsonValue) (fs : Fields) (path : Place)
    → fields_size fs < n
    → Ends (validate py n v fs path)
unfolding validate
Ends-validate py zero v fs path h = absurd (omega arith)
Ends-validate py (suc n) v fs path h =
    Ends-validate_step py (validate py n) n (λ w child at lt. Ends-validate py n w child at lt) v fs
      path (omega arith)

other_not : {A : Type 0} (r : Result SchemaError A) → IsOther r → r ≢ err SchemaError.out_of_fuel
other_not (ok a) h e = cc
other_not (err (SchemaError.tool_arguments path problem)) h e = cc
other_not (err SchemaError.pattern_error) h e = cc
other_not (err SchemaError.out_of_fuel) h e = absurd h

-- The check of a value against a schema ends, whatever both are: the fuel of the model is never used up.
pub validate_json_schema_terminates :
    (py : Primitives) (v : JsonValue) (schema : Fields)
    → validate_json_schema py v schema ≢ err SchemaError.out_of_fuel
unfolding validate_json_schema
validate_json_schema_terminates py v schema =
    other_not _ (Ends-validate py (suc (fields_size schema)) v schema [] (omega arith)).other
