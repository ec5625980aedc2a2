-- ===== src/Scheduler/Affinity.antt =====
-- crates/h3s-scheduler/src/placement.rs: `requirement`, `term` and `affinity`.
use hedronetes_h3s.Prelude.{
  ℕ, ◌+◌, String, List, [], ◌∷◌, Bool, true, false, ◌&&◌, ◌||◌, not, Option, none, some,
  if◌then◌else◌, leb, is_empty, any, all, filter_map, str_eq, ℤ, pos, negsuc, parse_i64, ltb_ℤ,
}
use hedronetes_h3s.Prelude.Options.{◌>>=◌, ◌>>◌, check}
use hedronetes_h3s.Json.{
  Value, ◌!◌, as_str, as_i64, as_object, is_text, is_null, value_eq, elements,
}
use hedronetes_h3s.Quantity.Parse.{in_i64}

abbrev pub one_value : List String → Option String
one_value [] = none
one_value (v ∷ []) = some v
one_value (v ∷ w ∷ vs) = none

abbrev compare_values : Bool → Option ℤ → Option ℤ → Bool
compare_values greater (some a) (some b) = if greater then ltb_ℤ b a else ltb_ℤ a b
compare_values greater _ _ = false

abbrev compares : Bool → Option String → Option String → Bool
compares greater value none = false
compares greater value (some w) = compare_values greater (value >>= parse_i64) (parse_i64 w)

abbrev is_some : Option String → Bool
is_some none = false
is_some (some s) = true

abbrev pub contains : List String → String → Bool
contains values v = any (str_eq v) values

abbrev is_in : List String → Option String → Bool
is_in values none = false
is_in values (some v) = contains values v

abbrev operator_matches : List String → Option String → Option String → Bool
operator_matches values value none = false
operator_matches values value (some operator) =
    if str_eq operator "In"
    then not (is_empty values) && is_in values value
    else if str_eq operator "NotIn"
    then not (is_empty values) && not (is_in values value)
    else if str_eq operator "Exists"
    then is_empty values && is_some value
    else if str_eq operator "DoesNotExist"
    then is_empty values && not (is_some value)
    else if str_eq operator "Gt" || str_eq operator "Lt"
    then compares (str_eq operator "Gt") value (one_value values)
    else false

unfoldable pub requirement : Value → Option String → Bool
requirement r value =
    operator_matches (filter_map as_str (elements (r ! "values"))) value (as_str (r ! "operator"))

abbrev expression_matches : Value → Value → Bool
expression_matches n r = elim (as_str (r ! "key")) [
  | none ↦ false
  | some k ↦ requirement r (as_str (n ! "metadata" ! "labels" ! k))
]

abbrev field_matches : Value → Value → Bool
field_matches n r =
    is_text "metadata.name" (r ! "key") && requirement r (as_str (n ! "metadata" ! "name"))

unfoldable pub term : Value → Value → Bool
term n t =
    let expressions = elements (t ! "matchExpressions") in
    let fields = elements (t ! "matchFields") in
    (not (is_empty expressions) || not (is_empty fields))
    && all (expression_matches n) expressions
    && all (field_matches n) fields

abbrev label_differs : Value → String × Value → Bool
label_differs n (k, v) = not (value_eq (n ! "metadata" ! "labels" ! k) v)

abbrev selector_matches : Value → Value → Bool
selector_matches p n = elim (as_object (p ! "spec" ! "nodeSelector")) [
  | none ↦ true
  | some m ↦ not (any (label_differs n) m)
]

-- `.as_i64().filter(|w| (1..=100).contains(w))`
abbrev pub weight : Option ℤ → Option ℕ
weight none = none
weight (some (pos n)) = if leb 1 n && leb n 100 then some n else none
weight (some (negsuc n)) = none

-- The loop over the preferred terms.
abbrev pub preference_score : Value → ℕ → List Value → Option ℕ
preference_score n score [] = some score
preference_score n score (pref ∷ prefs) = do
  w ← weight (as_i64 (pref ! "weight"))
  next ← if term n (pref ! "preference") then in_i64 (score + w) else some score
  preference_score n next prefs

abbrev required_matches : Value → Value → Bool
required_matches n required =
    is_null required || any (term n) (elements (required ! "nodeSelectorTerms"))

unfoldable pub affinity : Value → Value → Option ℕ
affinity p n = do
  let a = p ! "spec" ! "affinity" ! "nodeAffinity"
  check (selector_matches p n)
  check (required_matches n (a ! "requiredDuringSchedulingIgnoredDuringExecution"))
  preference_score n 0 (elements (a ! "preferredDuringSchedulingIgnoredDuringExecution"))
