-- ===== src/Unit/Schema.antt =====
-- pkg/unit/schema.go with the Schema of pkg/unit/types.go: the validation of a value. Titles, defaults and
-- examples are left out, and so is the check of a map that is not a map[string]any. A number is a Go
-- int here, and so are the bounds on it.
pub mod Laws
use ai_inference_managed_by.Base.{
  ℕ, suc, String, Bool, true, false, not, ◌&&◌, List, [], ◌∷◌, Option, none, some, ◌==◌, ltb,
  if◌then◌else◌,
}
use ai_inference_managed_by.Base.Int.{ℤ, pos, negsuc, lt_ℕ}
use ai_inference_managed_by.Base.Map.{is_some}
use ai_inference_managed_by.Workflow.Types.{
  Value, Items, Fields, scalar, text, array, object, nil, cons, null, boolean, int,
}
use ai_inference_managed_by.Workflow.Resolver.{get_field}
use ai_inference_managed_by.Unit.Execution.{input_map}

-- What a schema says of strings and numbers.
pub record Limits : Type 0 where
  pub min : Option ℤ
  pub max : Option ℤ
  pub min_length : Option ℤ
  pub max_length : Option ℤ
  pub pattern : String
  pub enum : List Value

abbrev pub no_limits : Limits
no_limits = record {
  min = none;
  max = none;
  min_length = none;
  max_length = none;
  pattern = "";
  enum = [];
}

-- A schema has its type, its limits, the schema of its items, if any, its properties and the names
-- of those that are required.
mutual
  pub data Schema : Type 0 where
    schema : String → Limits → ItemSchema → Properties → List String → Schema

  pub data ItemSchema : Type 0 where
    any_item : ItemSchema
    items_of : Schema → ItemSchema

  pub data Properties : Type 0 where
    no_property : Properties
    property : String → Schema → Properties → Properties

pub data SchemaError : Type 0 where
  input_is_nil : SchemaError
  unknown_type expected bad_pattern required_missing : String → SchemaError
  too_short too_long too_small too_large no_match not_allowed : SchemaError
  in_item : ℕ → SchemaError → SchemaError
  in_field : String → SchemaError → SchemaError

-- m < n on int
abbrev pub lt_int : ℤ → ℤ → Bool
lt_int (pos m) (pos n) = ltb m n
lt_int (pos m) (negsuc n) = false
lt_int (negsuc m) (pos n) = true
lt_int (negsuc m) (negsuc n) = ltb n m

abbrev pub is_below : ℤ → Option ℤ → Bool
is_below n none = false
is_below n (some bound) = lt_int n bound

abbrev pub is_above : ℤ → Option ℤ → Bool
is_above n none = false
is_above n (some bound) = lt_int bound n

abbrev pub is_nil : Value → Bool
is_nil (scalar null) = true
is_nil (scalar (boolean b)) = false
is_nil (scalar (int n)) = false
is_nil (text s) = false
is_nil (array vs) = false
is_nil (object m) = false

abbrev pub items_in : Value → Option Items
items_in (scalar x) = none
items_in (text s) = none
items_in (array vs) = some vs
items_in (object m) = none

-- The first required name that is not in the object.
unfoldable pub missing_field : List String → Fields → Option String
missing_field [] m = none
missing_field (name ∷ names) m =
    let rest = missing_field names m in if is_some (get_field name m) then rest else some name

-- reflect.DeepEqual, the length of a string in bytes, and regexp.MatchString, which is `none` for a pattern
-- that is not valid.
module _ (deep_equal : Value → Value → Bool) (byte_length : String → ℕ)
    (matches : String → String → Option Bool) where
  unfoldable pub validate_enum : List Value → Value → Option SchemaError
  validate_enum [] v = some not_allowed
  validate_enum (allowed ∷ more) v =
      let rest = validate_enum more v in if deep_equal v allowed then none else rest

  -- if len(s.Enum) > 0 { return s.validateEnum(input) }
  abbrev pub check_enum : List Value → Value → Option SchemaError
  check_enum [] v = none
  check_enum (allowed ∷ more) v = validate_enum (allowed ∷ more) v

  abbrev pub check_pattern : String → String → Option SchemaError
  check_pattern pattern s = if pattern == "" then none else elim (matches pattern s) [
    | none ↦ some (bad_pattern pattern)
    | some matched ↦ if matched then none else some no_match
  ]

  unfoldable pub validate_string : Limits → Value → Option SchemaError
  validate_string l (text s) =
      let length = pos (byte_length s) in
      if is_below length l.min_length
      then some too_short
      else if is_above length l.max_length
      then some too_long
      else elim (check_pattern l.pattern s) [ some e ↦ some e | none ↦ check_enum l.enum (text s) ]
  validate_string l (scalar x) = some (expected "string")
  validate_string l (array vs) = some (expected "string")
  validate_string l (object m) = some (expected "string")

  unfoldable pub validate_number : Limits → Value → Option SchemaError
  validate_number l (scalar (int n)) =
      if is_below n l.min
      then some too_small
      else if is_above n l.max
      then some too_large
      else check_enum l.enum (scalar (int n))
  validate_number l (scalar null) = some (expected "number")
  validate_number l (scalar (boolean b)) = some (expected "number")
  validate_number l (text s) = some (expected "number")
  validate_number l (array vs) = some (expected "number")
  validate_number l (object m) = some (expected "number")

  unfoldable pub validate_boolean : Value → Option SchemaError
  validate_boolean (scalar (boolean b)) = none
  validate_boolean (scalar null) = some (expected "boolean")
  validate_boolean (scalar (int n)) = some (expected "boolean")
  validate_boolean (text s) = some (expected "boolean")
  validate_boolean (array vs) = some (expected "boolean")
  validate_boolean (object m) = some (expected "boolean")

  unfoldable mutual
    pub validate_schema : Schema → Value → Option SchemaError
    validate_schema (schema type l items properties required) v =
        let of_array : Option SchemaError = elim (items_in v) [
          | none ↦ some (expected "array")
          | some vs ↦ validate_items items 0 vs
        ] in
        let of_object : Option SchemaError = elim (input_map v) [
          | none ↦ some (expected "object")
          | some m ↦
              let fields = validate_fields properties m in
              elim (missing_field required m) [
                | some name ↦ some (required_missing name)
                | none ↦ fields
              ]
        ] in
        if is_nil v
        then some input_is_nil
        else if type == "string"
        then validate_string l v
        else if type == "number"
        then validate_number l v
        else if type == "boolean"
        then validate_boolean v
        else if type == "array"
        then of_array
        else if type == "object"
        then of_object
        else some (unknown_type type)

    pub validate_items : ItemSchema → ℕ → Items → Option SchemaError
    validate_items any_item i vs = none
    validate_items (items_of s) i nil = none
    validate_items (items_of s) i (cons v vs) =
        let rest = validate_items (items_of s) (suc i) vs in
        elim (validate_schema s v) [ some e ↦ some (in_item i e) | none ↦ rest ]

    pub validate_fields : Properties → Fields → Option SchemaError
    validate_fields no_property m = none
    validate_fields (property name s properties) m =
        let rest = validate_fields properties m in
        elim (get_field name m) [
          | none ↦ rest
          | some v ↦ elim (validate_schema s v) [ some e ↦ some (in_field name e) | none ↦ rest ]
        ]
