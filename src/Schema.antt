-- ===== src/Schema.antt =====
-- harness/validators_impl/schema.py: the JSON-schema subset that the harness checks documents with.
-- Parameters: `re_search pattern text` (Python's `re.search(...) is not None`) and `read_schema name`
-- (the schema document of a name of `_SCHEMA_PATHS`, read from disk).
-- The recursion takes fuel: the depth of a schema is below its size.
pub mod Loops
pub mod Keywords
pub mod Conforms
pub mod Steps
pub mod Exact
pub mod Total
pub mod Document
use Prim.Native.String.{◌++◌ as ◌<>◌}
use kozo.Base.{
  ℕ, zero, suc, ◌+◌, String, Bool, true, false, ◌&&◌, ◌||◌, not, ◌==◌, string_equality,
  if◌then◌else◌, Option, none, some, List, [], ◌∷◌,
}
use kozo.Base.Format.{show_nat}
use kozo.Base.Int.{ℤ, pos, negsuc, int_leb}
use kozo.Json.{Json, null, bool, int, str, arr, obj, Items, nil, cons, Fields, end, field}
use kozo.Json.Access.{lookup, has_key, size_items, as_number}
use kozo.Base.Text.{codes}
use kozo.Source.{occurs}
use kozo.Json.Equality.{json_eq, in_items}
use kozo.Result.{Result, ok, raise, ◌>>=◌, ◌>>◌}

-- The `ValueError`s, by their messages' arguments. `malformed_schema` is the exception of a keyword
-- whose value has a type that the source's loop, test or lookup cannot take.
pub data SchemaError : Type 0 where
  unknown_document : String → SchemaError
  unsupported_type wrong_type missing_property no_match : String → String → SchemaError
  unexpected_properties : String → List String → SchemaError
  too_few_items : String → ℤ → SchemaError
  not_constant not_enumerated : String → Json → SchemaError
  malformed_schema : String → SchemaError
  out_of_fuel : SchemaError

abbrev pub Check : Type 0
Check = Result SchemaError (Unit {0})

abbrev pub require : Bool → SchemaError → Check
require true e = ok tt
require false e = raise e

abbrev pub is_int : Json → Bool
is_int (int n) = true
is_int _ = false

abbrev pub is_obj : Json → Bool
is_obj (obj fs) = true
is_obj _ = false

abbrev pub is_arr : Json → Bool
is_arr (arr xs) = true
is_arr _ = false

abbrev pub is_bool : Json → Bool
is_bool (bool b) = true
is_bool _ = false

abbrev pub is_str : Json → Bool
is_str (str s) = true
is_str _ = false

-- The table `checks` of `_validate_type`: `none` at a name that it lacks.
unfoldable pub type_check : String → Json → Option Bool
type_check expected value =
    if expected == "array"
    then some (is_arr value)
    else if expected == "boolean"
    then some (is_bool value)
    else if expected == "integer"
    then some (is_int value)
    else if expected == "object"
    then some (is_obj value)
    else if expected == "string"
    then some (is_str value)
    else none

-- `_validate_type`
unfoldable pub validate_type : Json → String → String → Check
validate_type value expected path = elim (type_check expected value) [
  | none ↦ raise (unsupported_type path expected)
  | some fits ↦ require fits (wrong_type path expected)
]

-- the `required` loop of `_validate_object`
unfoldable pub check_required : Items → Fields → String → Check
check_required nil members path = ok tt
check_required (cons (str key) keys) members path =
    require (has_key key members) (missing_property path key) >> check_required keys members path
check_required (cons key keys) members path = raise (malformed_schema path)

-- the characters of a text, which a loop over it visits
abbrev pub characters : String → Items
characters String.[] = nil
characters (String.◌∷◌ c s) = cons (str (String.◌∷◌ c String.[])) (characters s)

abbrev pub keys_of : Fields → Items
keys_of end = nil
keys_of (field key v members) = cons (str key) (keys_of members)

-- what `for key in required` visits, of a list, a text or a dict
unfoldable pub required_keys : Fields → String → Result SchemaError Items
required_keys schema path = elim (lookup "required" schema) [
  | none ↦ ok nil
  | some v ↦ elim v [
    | arr keys ↦ ok keys
    | str s ↦ ok (characters s)
    | obj members ↦ ok (keys_of members)
    | _ ↦ raise (malformed_schema path)
  ]
]

unfoldable pub property_schemas : Fields → String → Result SchemaError Fields
property_schemas schema path = elim (lookup "properties" schema) [
  | none ↦ ok end
  | some v ↦ elim v [ obj properties ↦ ok properties | _ ↦ raise (malformed_schema path) ]
]

-- `set(value.keys()) - set(properties.keys())`, in the order of the entries
unfoldable pub extra_keys : Fields → Fields → List String
extra_keys end properties = []
extra_keys (field key v members) properties =
    let rest = extra_keys members properties in if has_key key properties then rest else key ∷ rest

abbrev pub is_false : Option Json → Bool
is_false (some (bool false)) = true
is_false _ = false

unfoldable pub check_extras : List String → String → Check
check_extras [] path = ok tt
check_extras (key ∷ keys) path = raise (unexpected_properties path (key ∷ keys))

unfoldable pub check_additional : Fields → Fields → Fields → String → Check
unfolding check_extras
check_additional schema properties members path =
    if is_false (lookup "additionalProperties" schema)
    then check_extras (extra_keys members properties) path
    else ok tt

-- the last loop of `_validate_object`; `visit` is `_validate_schema`
unfoldable pub check_properties : (Json → Json → String → Check) → Fields → Fields → String → Check
check_properties visit end members path = ok tt
check_properties visit (field key sub properties) members path = elim (lookup key members) [
  | none ↦ check_properties visit properties members path
  | some value ↦
      visit value sub (path <> ("." <> key)) >> check_properties visit properties members path
]

-- `_validate_object`
unfoldable pub validate_object : (Json → Json → String → Check) → Fields → Fields → String → Check
validate_object visit members schema path = do
  properties ← property_schemas schema path
  keys ← required_keys schema path
  check_required keys members path
  check_additional schema properties members path
  check_properties visit properties members path

-- the loop of `_validate_array`
unfoldable pub check_items : (Json → Json → String → Check) → Json → Items → ℕ → String → Check
check_items visit sub nil index path = ok tt
check_items visit sub (cons element elements) index path =
    visit element sub (path <> ("[" <> (show_nat index <> "]")))
    >> check_items visit sub elements (index + 1) path

-- `isinstance(min_items, int) and len(value) < min_items`: a bool is an int
unfoldable pub check_min_items : Items → Fields → String → Check
check_min_items elements schema path = elim (lookup "minItems" schema) [
  | none ↦ ok tt
  | some v ↦ elim (as_number v) [
    | none ↦ ok tt
    | some n ↦ require (int_leb n (pos (size_items elements))) (too_few_items path n)
  ]
]

-- `_validate_array`
unfoldable pub validate_array : (Json → Json → String → Check) → Items → Fields → String → Check
validate_array visit elements schema path = do
  check_min_items elements schema path
  elim (lookup "items" schema) [
    | none ↦ ok tt
    | some sub ↦ if is_obj sub then check_items visit sub elements 0 path else ok tt
  ]

-- `_validate_enum_and_const`
unfoldable pub check_const : Json → Fields → String → Check
check_const value schema path = elim (lookup "const" schema) [
  | none ↦ ok tt
  | some c ↦ require (json_eq value c) (not_constant path c)
]

-- `value in text`: only a text may be looked for in one
abbrev in_text : Json → String → Option Bool
in_text (str s) t = some (occurs (codes s) (codes t))
in_text _ t = none

-- `value in members`: a list and a dict have no hash
abbrev in_keys : Json → Fields → Option Bool
in_keys (str s) members = some (has_key s members)
in_keys (arr xs) members = none
in_keys (obj fs) members = none
in_keys _ members = some false

-- `value in options`; `none` is the `TypeError`
unfoldable pub is_among : Json → Json → Option Bool
is_among value options = elim options [
  | arr xs ↦ some (in_items value xs)
  | str t ↦ in_text value t
  | obj members ↦ in_keys value members
  | _ ↦ none
]

unfoldable pub check_enum : Json → Fields → String → Check
check_enum value schema path = elim (lookup "enum" schema) [
  | none ↦ ok tt
  | some options ↦ elim (is_among value options) [
    | none ↦ raise (malformed_schema path)
    | some found ↦ require found (not_enumerated path options)
  ]
]

module _ (re_search : String → String → Bool) where
  -- `_validate_string`
  unfoldable pub validate_string : String → Fields → String → Check
  validate_string value schema path = elim (lookup "pattern" schema) [
    | none ↦ ok tt
    | some v ↦ elim v [
      | str pattern ↦ require (re_search pattern value) (no_match path pattern)
      | _ ↦ ok tt
    ]
  ]

  -- The dispatch on the type, after the type check has passed. A value of another type cannot
  -- reach the cases above the last.
  unfoldable pub validate_shape :
      (Json → Json → String → Check) → Json → Option Json → Fields → String → Check
  validate_shape visit (obj members) (some (str expected)) schema path =
      if expected == "object" then validate_object visit members schema path else ok tt
  validate_shape visit (arr elements) (some (str expected)) schema path =
      if expected == "array" then validate_array visit elements schema path else ok tt
  validate_shape visit (str value) (some (str expected)) schema path =
      if expected == "string" then validate_string value schema path else ok tt
  validate_shape visit value expected schema path = ok tt

  unfoldable pub check_type : Json → Option Json → String → Check
  check_type value (some (str expected)) path = validate_type value expected path
  check_type value expected path = ok tt

  -- `_validate_schema`
  unfoldable pub validate_schema : ℕ → Json → Json → String → Check
  validate_schema zero value schema path = raise out_of_fuel
  validate_schema (suc fuel) value (obj schema) path = do
    let expected = lookup "type" schema
    check_type value expected path
    check_const value schema path
    check_enum value schema path
    validate_shape (validate_schema fuel) value expected schema path
  validate_schema (suc fuel) value schema path = raise (malformed_schema path)
