-- ===== src/Selectors/Selection.antt =====
-- crates/h3s-apiserver/src/selectors.rs: `Selection` and `Requirement::matches`.
use hedronetes_h3s.Prelude.{
  ℕ, suc, zero, ◌+◌, ◌/◌, ◌%◌, String, List, [], ◌∷◌, ◌++◌, Bool, true, false, ◌&&◌, not, Option,
  none, some, if◌then◌else◌, ltb, any, all, codes, codes_eq, split, ℤ, pos, negsuc, ltb_ℤ,
  parse_i64_codes, ok, collect,
}
use hedronetes_h3s.Prelude.Results.{◌>>=◌}
use hedronetes_h3s.Json.{
  Value, null, bool, int, float, string, object, Fields, field, end, ◌!◌, as_str,
}
use hedronetes_h3s.Selectors.Text.{
  R, Op, one_of, none_of, exists, absent, greater, less, Requirement, Selection,
}
use hedronetes_h3s.Selectors.Labels.{split_labels, parse_label}
use hedronetes_h3s.Selectors.Fields.{split_fields, parse_field}

abbrev pub wanted : List (List ℕ) → List ℕ → Bool
wanted values v = any (codes_eq v) values

abbrev compared : (ℤ → Bool) → Option ℤ → Bool
compared test none = false
compared test (some z) = test z

abbrev number_of : Option (List ℕ) → Option ℤ
number_of none = none
number_of (some v) = parse_i64_codes v

abbrev some_wanted : List (List ℕ) → Option (List ℕ) → Bool
some_wanted values none = false
some_wanted values (some v) = wanted values v

abbrev is_some : Option (List ℕ) → Bool
is_some none = false
is_some (some v) = true

-- `Requirement::matches`
unfoldable pub op_matches : Op → Option (List ℕ) → Bool
op_matches (one_of values) value = some_wanted values value
op_matches (none_of values) value = not (some_wanted values value)
op_matches exists value = is_some value
op_matches absent value = not (is_some value)
op_matches (greater n) value = compared (λ v. ltb_ℤ n v) (number_of value)
op_matches (less n) value = compared (λ v. ltb_ℤ v n) (number_of value)

-- `value[key]` by the code points of a key
abbrev find_field : List ℕ → Fields → Value
find_field key end = null
find_field key (field k v fs) = if codes_eq (codes k) key then v else find_field key fs

abbrev pub at_key : Value → List ℕ → Value
at_key (object fs) key = find_field key fs
at_key _ key = null

abbrev text_of : Option String → Option (List ℕ)
text_of none = none
text_of (some s) = some (codes s)

-- Decimal digits; an integer of a document is below 2^64, which has twenty.
abbrev digits : ℕ → ℕ → List ℕ → List ℕ
digits zero n rest = rest
digits (suc fuel) n rest =
    let d = (48 + n % 10) ∷ rest in
    let more = digits fuel (n / 10) d in if ltb n 10 then d else more

abbrev decimal : ℤ → List ℕ
decimal (pos n) = digits 20 n []
decimal (negsuc n) = b'-' ∷ digits 20 (suc n) []

abbrev scalar_text : Value → List ℕ
scalar_text (string s) = codes s
scalar_text (bool true) = codes "true"
scalar_text (bool false) = codes "false"
scalar_text (int z) = decimal z
scalar_text (float t) = codes t
scalar_text _ = []

abbrev walk : Value → List (List ℕ) → Value
walk v [] = v
walk v (segment ∷ rest) = walk (at_key v segment) rest

unfoldable pub field_value : Value → List ℕ → List ℕ
field_value value path = scalar_text (walk value (split b'.' path))

unfoldable pub matches : Selection → Value → Bool
matches s value =
    all (λ r. op_matches r.op (text_of (as_str (at_key (value ! "metadata" ! "labels") r.key))))
      s.labels
    && all (λ r. op_matches r.op (some (field_value value r.key))) s.fields

unfoldable pub parse : List ℕ → List ℕ → String → R Selection
parse labels fields kind = do
  label_texts ← split_labels labels
  label_requirements ← collect parse_label label_texts
  field_texts ← split_fields fields
  field_requirements ← collect (parse_field kind) field_texts
  ok (record { labels = label_requirements; fields = field_requirements })

abbrev only_value : Op → Option (List ℕ)
only_value (one_of (v ∷ [])) = some v
only_value _ = none

abbrev exact_in : List ℕ → List Requirement → Option (List ℕ)
exact_in key [] = none
exact_in key (r ∷ rs) = elim (only_value r.op) [
  | none ↦ exact_in key rs
  | some v ↦ if codes_eq r.key key then some v else exact_in key rs
]

unfoldable pub exact_field : Selection → List ℕ → Option (List ℕ)
exact_field s key = exact_in key s.fields

unfoldable pub exact_name : Selection → Option (List ℕ)
exact_name s = exact_field s (codes "metadata.name")

unfoldable pub with_field : List ℕ → List ℕ → Selection → Selection
with_field key value s = record s {
  fields = s.fields ++ (record { key = key; op = one_of (value ∷ []) } ∷ []);
}

unfoldable pub with_name : Option (List ℕ) → Selection → Selection
with_name none s = s
with_name (some name) s = with_field (codes "metadata.name") name s
