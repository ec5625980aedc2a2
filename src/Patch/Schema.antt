-- ===== src/Patch/Schema.antt =====
-- crates/h3s-apiserver/src/patch/strategic.rs: `resolve`, `field`, `strategy`, `merge_key` and
-- `identity`. The generated document of schemas is a parameter.
use mathlib.Core.Option
use Prim.Native.Char.{code}
use hedronetes_h3s.Prelude.{
  String, List, [], ◌∷◌, Bool, true, false, Option, none, some, if◌then◌else◌, ◌==◌, any, codes,
  codes_eq, split, ok, err, ok_or,
}
use hedronetes_h3s.Prelude.Results.{◌>>=◌}
use hedronetes_h3s.Json.{Value, string, int, float, bool, get, ◌!◌, as_str, value_eq}
use hedronetes_h3s.Patch.Budget.{R, invalid}

-- `str::strip_prefix`
abbrev pub strip_text : String → String → Option String
strip_text String.[] s = some s
strip_text (String.◌∷◌ p ps) String.[] = none
strip_text (String.◌∷◌ p ps) (String.◌∷◌ c cs) =
    let rest = strip_text ps cs in if code p == code c then rest else none

abbrev pub is_some {ℓ} : {A : Type ℓ} → Option A → Bool
is_some none = false
is_some (some a) = true

-- `k.starts_with('$')`
abbrev pub is_directive : String → Bool
is_directive k = is_some (strip_text "$" k)

module _ (schemas : Value) where
  abbrev definition_of : Value → Option String → Value
  definition_of schema none = schema
  definition_of schema (some name) = schemas ! "definitions" ! name

  unfoldable pub resolve : Value → Value
  resolve schema =
      definition_of schema (Option.bind (as_str (schema ! "$ref")) (strip_text "#/definitions/"))

  abbrev or_additional : Value → Option Value → Value
  or_additional schema none = schema ! "additionalProperties"
  or_additional schema (some child) = child

  unfoldable pub field_schema : Value → String → Value
  field_schema schema key = or_additional (resolve schema) (get (resolve schema ! "properties") key)

abbrev text_lists : String → Option String → Bool
text_lists expected none = false
text_lists expected (some s) = any (λ p. codes_eq p (codes expected)) (split b',' (codes s))

unfoldable pub strategy : Value → String → Bool
strategy schema expected = text_lists expected (as_str (schema ! "x-kubernetes-patch-strategy"))

abbrev pub merge_key : Value → Option String
merge_key schema = as_str (schema ! "x-kubernetes-patch-merge-key")

abbrev is_scalar : Value → Bool
is_scalar (string s) = true
is_scalar (int z) = true
is_scalar (float t) = true
is_scalar (bool b) = true
is_scalar _ = false

abbrev key_of : Value → Option String → R Value
key_of value none = ok value
key_of value (some key) =
    ok_or (get value key) (invalid "strategic list item is missing its merge key")

unfoldable pub identity : Option String → Value → R Value
identity key value = key_of value key >>= λ id.
    if is_scalar id then ok id else err (invalid "strategic list keys/items must be scalars")

-- `identity(v, key).ok() == Some(id)`
abbrev pub has_id : Option String → Value → Value → Bool
has_id key id v = elim (identity key v) [ ok other ↦ value_eq other id | err e ↦ false ]

-- `identity(v, key).ok() == identity(other, key).ok()`
abbrev pub same_id : Option String → Value → Value → Bool
same_id key v other = elim (identity key v) [
  | ok id ↦ has_id key id other
  | err e ↦ elim (identity key other) [ ok id ↦ false | err f ↦ true ]
]

-- `for v in values { identity(v, key)?; }`
abbrev pub check_ids : Option String → List Value → R (Unit {0})
check_ids key [] = ok tt
check_ids key (v ∷ vs) = identity key v >>= λ id. check_ids key vs
