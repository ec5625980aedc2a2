-- ===== src/Selectors/Tests.antt =====
-- crates/h3s-apiserver/src/selectors.rs: expressions of its own tests, and a run of the theorem.
use hedronetes_h3s.Prelude.{
  ℕ, String, List, [], ◌∷◌, Bool, true, false, ◌≡◌, ◌≢◌, refl, Option, none, some, codes, map, here,
  In, In-uncons, inl, inr, subst, arith, ok, err,
}
use hedronetes_h3s.Json.{Value, string, object, field, end}
use hedronetes_h3s.Selectors.Text.{R, panicked, Selection, label_part, label_key}
use hedronetes_h3s.Selectors.Labels.{split_labels, parse_label, parse_op, parse_value, parse_set}
use hedronetes_h3s.Selectors.Fields.{split_fields, parse_field}
use hedronetes_h3s.Selectors.Selection.{
  parse, matches, op_matches, field_value, exact_name, exact_field,
}
use hedronetes_h3s.Selectors.Escapes.{parse_field-split_fields}
use hedronetes_h3s.Selectors.RoundTrip.{required, IsField, parse-written}

abbrev sample : Value
sample = object (
    field "metadata"
      (object (
        field "labels"
          (object (
            field "app" (string "web") (
              field "example.org/role" (string "api")
                (field "tier" (string "") (field "version" (string "12") end)))))
          end))
      end)

abbrev outcome : R Selection → Option Bool
outcome (ok s) = some (matches s sample)
outcome (err e) = none

abbrev run : String → Option Bool
run expression = outcome (parse (codes expression) [] "ConfigMap")

accepted_labels :
    map run (
      "app=web" ∷ "app!=worker" ∷ "missing in (x)" ∷ "app in (web,worker),!disabled" ∷ "tier in ()"
      ∷ "tier notin ()" ∷ "example.org/role,version>10" ∷ "version<12" ∷ "!app" ∷ [])
    ≡ some true
      ∷ some true
      ∷ some false
      ∷ some true
      ∷ some true
      ∷ some false
      ∷ some true
      ∷ some false
      ∷ some false
      ∷ []
unfolding parse split_labels parse_label parse_op parse_value parse_set label_part label_key
    split_fields parse_field matches op_matches field_value
accepted_labels = refl

refused_labels :
    map run (
      "a in (x" ∷ "a in ((x))" ∷ "a,,b" ∷ "a," ∷ "a===b" ∷ "bad/key/extra=x" ∷ "!a=x"
      ∷ "a in (bad value)" ∷ [])
    ≡ none ∷ none ∷ none ∷ none ∷ none ∷ none ∷ none ∷ none ∷ []
unfolding parse split_labels parse_label parse_op parse_value parse_set label_part label_key
    split_fields parse_field matches op_matches field_value
refused_labels = refl

abbrev name_of : R Selection → Option (List ℕ)
name_of (ok s) = exact_name s
name_of (err e) = none

escaped_name : name_of (parse [] (codes "metadata.name=a\\,b\\=c") "Pod") ≡ some (codes "a,b=c")
unfolding parse split_labels split_fields parse_field exact_name exact_field
escaped_name = refl

escaped_pieces : split_fields (codes "metadata.name=a\\,b") ≡ ok (codes "metadata.name=a\\,b" ∷ [])
unfolding split_fields
escaped_pieces = refl

parse_field-split_fields_example : parse_field "Pod" (codes "metadata.name=a\\,b") ≢ err panicked
parse_field-split_fields_example =
    parse_field-split_fields (codes "metadata.name=a\\,b") (codes "metadata.name=a\\,b")
      (codes "metadata.name=a\\,b" ∷ []) "Pod" escaped_pieces (here refl)

abbrev two_fields : List (List ℕ × List ℕ)
two_fields = (codes "metadata.name", codes "a,b=c") ∷ (codes "status.phase", codes "Running") ∷ []

two_fields-IsField : (g : List ℕ × List ℕ) → In g two_fields → IsField "Pod" g
two_fields-IsField g m = elim (In-uncons m) [
  | inl e ↦ subst (IsField "Pod") e (refl, refl)
  | inr n ↦ elim (In-uncons n) [ inl e ↦ subst (IsField "Pod") e (refl, refl) | inr k ↦ elim k [ ] ]
]

parse-written_example :
    parse [] (codes "metadata.name=a\\,b\\=c,status.phase=Running") "Pod"
    ≡ ok (record { labels = []; fields = map required two_fields })
parse-written_example = parse-written "Pod" two_fields two_fields-IsField (omega arith)
