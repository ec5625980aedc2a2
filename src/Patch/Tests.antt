-- ===== src/Patch/Tests.antt =====
-- Runs of crates/h3s-apiserver/src/patch.rs and patch/strategic.rs on concrete objects, and the
-- theorems about them at those.
use mathlib.Core.List.{Perm}
use mathlib.Core.Option
use hedronetes_h3s.Prelude.{
  ℕ, ◌+◌, ◌≤◌, String, List, [], ◌∷◌, ◌++◌, true, not, ◌≡◌, ◌⊎◌, refl, Option, some, arith, text_lt,
  pos, codes, keep, IsSorted, ok, err, none, if◌then◌else◌,
}
use hedronetes_h3s.Json.{
  Value, null, int, string, array, object, nil, cons, Fields, field, end, get, value_eq,
}
use hedronetes_h3s.Patch.Budget.{R, invalid}
use hedronetes_h3s.Patch.Reorder.{reorder, is_requested, by_position}
use hedronetes_h3s.Patch.Sequence.{reorder-IsSorted}
use hedronetes_h3s.Patch.Merge.{merge, fresh}
use hedronetes_h3s.Patch.Merge
use hedronetes_h3s.Patch.Schema.{resolve, field_schema, strategy, identity}
use hedronetes_h3s.Patch.Directives.{retained, deletion, ordering}
use hedronetes_h3s.Patch.Measure.{size, nesting}
use hedronetes_h3s.Patch.Frame.{merge-silent}
use hedronetes_h3s.Patch.Bound.{merge-size}
use hedronetes_h3s.Patch.Fresh.{fresh-size}
use hedronetes_h3s.Patch.Pruned.{pruned_option, fresh-pruned}
use hedronetes_h3s.Patch.Copied.{is_marked, copy}
use hedronetes_h3s.Patch.Apply.{Codec, apply, run, Fits, is_media, apply-outcome, run-Fits}

abbrev one_field : String → Value → Value
one_field k v = object (field k v end)

abbrev pod_schema : Value
pod_schema = one_field "properties" (
    one_field "containers" (
      object (
        field "items" (object end) (
          field "x-kubernetes-patch-merge-key" (string "name")
            (field "x-kubernetes-patch-strategy" (string "merge") end)))))

abbrev schemas : Value
schemas = object (
    field "definitions" (one_field "core.Pod" pod_schema)
      (field "roots" (one_field "Pod" (string "core.Pod")) end))

abbrev container : String → String → Value
container name image = object (field "image" (string image) (field "name" (string name) end))

abbrev deleted : String → Value
deleted name = object (field "$patch" (string "delete") (field "name" (string name) end))

abbrev pair : Value → Value → Value
pair a b = array (cons a (cons b nil))

abbrev original_fields : Fields
original_fields =
    field "containers" (pair (container "a" "one") (container "b" "two"))
      (field "node" (string "n1") end)

abbrev patch_fields : Fields
patch_fields = field "containers" (pair (container "b" "three") (deleted "a")) end

-- Containers are merged by their names, and one is deleted.
merge_runs :
    Merge.apply schemas "Pod" (object original_fields) (object patch_fields)
    ≡ ok (
        object (
          field "containers"
            (array (cons (container "b" "three") nil))
            (field "node" (string "n1") end)))
unfolding Merge.apply Merge.apply_to merge resolve field_schema strategy identity retained deletion
    ordering reorder fresh Option.bind value_eq text_lt
merge_runs = refl

unknown_kind :
    Merge.apply schemas "Ingress" (object end) (object end)
    ≡ err (
        invalid
          "strategic merge is not implemented for this resource; use a JSON merge or a full update")
unfolding Merge.apply Merge.apply_to
unknown_kind = refl

abbrev merged_value : Value
merged_value =
    object (
      field "containers" (array (cons (container "b" "three") nil))
        (field "node" (string "n1") end))

merge-silent_example : get merged_value "node" ≡ some (string "n1")
unfolding merge resolve field_schema strategy identity retained deletion ordering reorder fresh
    Option.bind value_eq text_lt
merge-silent_example =
    merge-silent schemas "node" (object original_fields) patch_fields pod_schema merged_value 0 1000
      975 refl refl refl refl

merge-size_example : size merged_value ≤ size (object original_fields) + size (object patch_fields)
unfolding merge resolve field_schema strategy identity retained deletion ordering reorder fresh
    Option.bind value_eq text_lt
merge-size_example =
    merge-size schemas (object original_fields) (object patch_fields) pod_schema 0 1000 975
      merged_value refl

abbrev three : List Value
three = container "a" "one" ∷ container "b" "two" ∷ container "c" "three" ∷ []

abbrev named_order : List Value
named_order = container "c" "" ∷ container "a" "" ∷ []

abbrev reordered : List Value
reordered = container "b" "two" ∷ container "c" "three" ∷ container "a" "one" ∷ []

reorder-IsSorted_example :
    Perm reordered three
    × IsSorted
        (by_position (some "name") named_order)
        (keep (is_requested (some "name") named_order) reordered)
    × IsSorted
        (by_position (some "name") three)
        (keep (λ v. not (is_requested (some "name") named_order v)) reordered)
unfolding reorder identity value_eq text_lt
reorder-IsSorted_example =
    reorder-IsSorted three named_order three (some "name") 100 70 reordered refl

abbrev new_field : Value
new_field = object (field "a" null (field "b" (pair (deleted "x") (int (pos 1))) end))

abbrev copied : Value
copied = one_field "b" (array (cons (int (pos 1)) nil))

fresh-size_example :
    (o : Option Value) × (m : ℕ) × (fresh new_field 1 100 ≡ ok (o, m)) × (100 ≤ m + size new_field)
unfolding size nesting
fresh-size_example = fresh-size new_field 1 100 (omega arith) (omega arith)

fresh-pruned_example :
    (some copied ≡ (if is_marked new_field then none else some (copy new_field)))
    × (pruned_option (some copied) ≡ true)
unfolding fresh
fresh-pruned_example = fresh-pruned new_field 1 100 96 (some copied) refl

-- A codec in which the body is ignored, and a value's encoding has the length that its text says.
abbrev length_of : Value → R ℕ
length_of (string s) = ok 3000000
length_of v = ok 10

abbrev test_codec : Codec
test_codec = record {
  Operation = Value;
  from_slice = λ bytes. ok (object end);
  operations_from_slice = λ bytes. ok (null ∷ one_field "a" null ∷ []);
  encoded_length = length_of;
  merge = λ original patch. patch;
  patch = λ original operation. some operation;
}

apply-outcome_example :
    ((is_media "application/strategic-merge-patch+json" (codes "application/json-patch+json; q=1")
        ≡ true)
      ⊎ ((is_media "application/merge-patch+json" (codes "application/json-patch+json; q=1") ≡ true)
          ⊎ (is_media "application/json-patch+json" (codes "application/json-patch+json; q=1")
              ≡ true)))
    × ((null ≡ one_field "a" null) ⊎ Fits test_codec (one_field "a" null))
unfolding apply
apply-outcome_example =
    apply-outcome test_codec schemas "Pod" null [] (codes "application/json-patch+json; q=1")
      (one_field "a" null) refl

run-Fits_example : (w : Value) × (run test_codec ([] ++ null ∷ []) null ≡ ok w) × Fits test_codec w
run-Fits_example =
    run-Fits test_codec [] (one_field "a" null ∷ []) null null (one_field "a" null) refl

plain_refused :
    apply test_codec schemas "Pod" null [] (codes "text/plain")
    ≡ err (record {
      code = 415;
      reason = "UnsupportedMediaType";
      message =
          "supported patch types: application/json-patch+json, application/merge-patch+json, application/strategic-merge-patch+json";
    })
unfolding apply
plain_refused = refl
