-- ===== src/Registry/Schema.antt =====
-- tools/registry.py, _validate_arguments: arguments against a tool's schema, with defaults filled in.
use Prim.Native.String.{compare}
use text.Mathlib.Text.{is_le}
use proofcoder.Base.{
  String, ◌⁀◌, Bool, true, false, ◌||◌, not, Option, none, some, is_none, List, [], ◌∷◌,
  if◌then◌else◌, ◌==◌,
}
use proofcoder.Base.Int.{ℤ, pos, ltb_ℤ}
use proofcoder.Base.Result.{Result, ok, ◌>>=◌, ◌>>◌, raise_if}
use proofcoder.Base.Text.{mem_text, text_length}
use proofcoder.Json.{
  Json, null, bool, int, real, str, arr, obj, Items, nil, cons, Fields, end, field, get,
}
use proofcoder.ToolResult.{ToolResult, failure}

unfoldable pub invalid_arguments : String → ToolResult
invalid_arguments message = failure "INVALID_ARGUMENTS" message true none

fields_or_empty : Option Json → Fields
fields_or_empty (some (obj d)) = d
fields_or_empty _ = end

items_or_empty : Option Json → Items
items_or_empty (some (arr xs)) = xs
items_or_empty _ = nil

unfoldable pub field_names : Fields → List String
field_names end = []
field_names (field k v d) = k ∷ field_names d

-- d[name] = value for a name that is not there yet
append_field : String → Json → Fields → Fields
append_field name value end = field name value end
append_field name value (field k v d) = field k v (append_field name value d)

-- the names of `arguments` that are not in `properties`
unfoldable pub unknown_names : List String → List String → List String
unknown_names properties [] = []
unknown_names properties (k ∷ ks) =
    let rest = unknown_names properties ks in if mem_text k properties then rest else k ∷ rest

-- sorted(names)[0]
unfoldable pub least : String → List String → String
least k [] = k
least k (j ∷ js) = least (if is_le (compare k j) then k else j) js

is_false : Option Json → Bool
is_false (some (bool false)) = true
is_false _ = false

has_type : Json → String → Bool
has_type null name = name == "null"
has_type (str s) name = name == "string"
has_type (int n) name = name == "integer"
has_type (bool b) name = name == "boolean"
has_type (obj d) name = name == "object"
has_type (arr xs) name = name == "array"
has_type (real t) name = false

any_type : Json → Items → Bool
any_type value nil = false
any_type value (cons (str name) xs) = has_type value name || any_type value xs
any_type value (cons _ xs) = any_type value xs

unfoldable pub matches_json_type : Json → Option Json → Bool
unfolding has_type any_type
matches_json_type value (some (str name)) = has_type value name
matches_json_type value (some (arr names)) = any_type value names
matches_json_type value _ = true

-- isinstance(limit, int): a Boolean is an int too
limit_of : Option Json → Option ℤ
limit_of (some (int n)) = some n
limit_of (some (bool true)) = some (pos 1)
limit_of (some (bool false)) = some (pos 0)
limit_of _ = none

below : ℤ → Option ℤ → Bool
below n none = false
below n (some m) = ltb_ℤ n m

above : ℤ → Option ℤ → Bool
above n none = false
above n (some m) = ltb_ℤ m n

about : String → String → ToolResult
about name problem = invalid_arguments ("argument '" ⁀ (name ⁀ ("'" ⁀ problem)))

unfoldable pub check_limits : String → Json → Fields → Result ToolResult (Unit {0})
unfolding limit_of below above about
check_limits name (int n) schema = do
  raise_if (below n (limit_of (get "minimum" schema))) (about name " is below its minimum")
  raise_if (above n (limit_of (get "maximum" schema))) (about name " is above its maximum")
check_limits name (str s) schema = do
  raise_if (below (pos (text_length s)) (limit_of (get "minLength" schema)))
      (about name " is shorter than its minimum length")
  raise_if (above (pos (text_length s)) (limit_of (get "maxLength" schema)))
      (about name " is longer than its maximum length")
check_limits name _ schema = ok tt

-- one property of the schema: a missing argument takes its default, if there is one
unfoldable pub check_property : String → Fields → Option Json → Fields → Result ToolResult Fields
unfolding check_limits append_field
check_property name schema none arguments = ok (elim (get "default" schema) [
  | none ↦ arguments
  | some value ↦ append_field name value arguments
])
check_property name schema (some value) arguments = do
  raise_if (not (matches_json_type value (get "type" schema))) (about name " has the wrong type")
  check_limits name value schema
  ok arguments

unfoldable pub check_properties : Fields → Fields → Result ToolResult Fields
unfolding check_property
check_properties end arguments = ok arguments
check_properties (field name (obj schema) rest) arguments =
    check_property name schema (get name arguments) arguments >>= check_properties rest
check_properties (field name _ rest) arguments = check_properties rest arguments

check_required : Items → Fields → Result ToolResult (Unit {0})
check_required nil arguments = ok tt
check_required (cons (str name) rest) arguments = do
  raise_if (is_none (get name arguments)) (invalid_arguments ("missing required argument: " ⁀ name))
  check_required rest arguments
check_required (cons _ rest) arguments = check_required rest arguments

check_unknown : List String → Bool → Result ToolResult (Unit {0})
check_unknown [] strict = ok tt
check_unknown (k ∷ ks) strict =
    raise_if strict (invalid_arguments ("unknown argument: " ⁀ least k ks))

-- the arguments with defaults, or the refusal
unfoldable pub validate_arguments : Fields → Fields → Result ToolResult Fields
unfolding check_unknown check_required check_properties fields_or_empty items_or_empty field_names
    unknown_names is_false least
validate_arguments schema arguments = do
  let properties = fields_or_empty (get "properties" schema)
  check_unknown (unknown_names (field_names properties) (field_names arguments))
      (is_false (get "additionalProperties" schema))
  check_required (items_or_empty (get "required" schema)) arguments
  check_properties properties arguments
