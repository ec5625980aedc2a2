-- ===== src/Patch/Directives.antt =====
-- crates/h3s-apiserver/src/patch/strategic.rs: what `map` does with `$retainKeys`,
-- `$deleteFromPrimitiveList/` and `$setElementOrder/`.
use hedronetes_h3s.Prelude.{
  ◌+◌, String, List, [], ◌∷◌, Bool, false, ◌&&◌, ◌||◌, not, Option, none, some, if◌then◌else◌,
  length, any, keep, str_eq, ok, ok_or,
}
use hedronetes_h3s.Prelude.Results
use hedronetes_h3s.Json.{
  Value, array, Fields, field, end, get_field, set_field, list_items, elements, is_null, is_text,
  as_str, as_array, value_eq, ◌!◌,
}
use hedronetes_h3s.Patch.Budget.{
  R, Work, ◌>>=◌, ◌>>◌, pure, fail, lift, spend, saturating_mul, invalid,
}
use hedronetes_h3s.Patch.Schema.{
  strip_text, is_some, is_directive, field_schema, strategy, merge_key, identity, has_id, check_ids,
}
use hedronetes_h3s.Patch.Fields.{keep_fields, remove_field, field_count, has}
use hedronetes_h3s.Patch.Reorder.{reorder}

-- `retain.iter().any(|v| v.as_str() == Some(k))`
abbrev pub named : List Value → String → Bool
named names k = any (is_text k) names

-- A non-null field of the patch that `$retainKeys` does not name.
abbrev pub unnamed_field : List Value → Fields → Bool
unnamed_field names end = false
unnamed_field names (field k v fs) =
    (not (is_directive k) && not (is_null v) && not (named names k)) || unnamed_field names fs

abbrev pub retained_by : Option Value → Fields → Fields → Work Fields
retained_by none patch result = pure result
retained_by (some retain) patch result =
    lift (ok_or (as_array retain) (invalid "$retainKeys must be a string list")) >>= λ names.
    spend (saturating_mul (length names) (field_count result + field_count patch))
    >> (if any (λ v. not (is_some (as_str v))) names || unnamed_field names patch
        then fail "$retainKeys must contain every non-null patch field"
        else pure (keep_fields (named names) result))

unfoldable pub retained : Fields → Fields → Work Fields
retained patch result = retained_by (get_field "$retainKeys" patch) patch result

-- `get_mut` and `retain`: the list is taken out, and put back where it stood.
abbrev pub delete_from : String → List Value → Option Value → Fields → Work Fields
delete_from name removals none result = pure result
delete_from name removals (some target) result =
    lift (ok_or (as_array target) (invalid "primitive deletion target is not a list")) >>= λ old.
    spend (saturating_mul (length old) (length removals))
    >> pure (
        set_field name (array (list_items (keep (λ v. not (any (value_eq v) removals)) old)))
          (remove_field name result))

-- After `requested`, what remains of the order.
abbrev pub after_id : Option String → Value → List Value → Option (List Value)
after_id key id [] = none
after_id key id (v ∷ order) =
    let rest = after_id key id order in if has_id key id v then some order else rest

-- The patch's items stand in the requested order; those with `$patch` are passed over.
abbrev pub in_order : Option String → List Value → List Value → R (Unit {0})
in_order key [] order = ok tt
in_order key (v ∷ values) order =
    if has v "$patch"
    then in_order key values order
    else Results.◌>>=◌ (identity key v) λ id.
      Results.◌>>=◌
        (ok_or (after_id key id order) (invalid "patch list conflicts with $setElementOrder"))
        (in_order key values)

abbrev pub check_order : Option String → Option Value → List Value → Work (Unit {0})
check_order key none order = pure tt
check_order key (some items) order =
    lift (ok_or (as_array items) (invalid "ordered patch must be a list")) >>= λ values.
    spend (saturating_mul (length values) (length order)) >> lift (in_order key values order)

abbrev pub reorder_field :
    String → Option String → List Value → Value → Option Value → Fields → Work Fields
reorder_field name key order original none result = pure result
reorder_field name key order original (some target) result =
    lift (ok_or (as_array target) (invalid "ordered value must be a list")) >>= λ values.
    reorder values order (elements (original ! name)) key >>= λ sorted.
    pure (set_field name (array (list_items sorted)) (remove_field name result))

module _ (schemas : Value) where
  -- One directive of the second loop, given the list that it deletes from
  abbrev pub deletion_of : Option String → String → Value → Value → Fields → Work Fields
  deletion_of (some name) key value schema result =
      let child = field_schema schemas schema name in
      if not (strategy child "merge") || is_some (merge_key child)
      then fail "primitive deletion requires a primitive merge list"
      else lift (ok_or (as_array value) (invalid "primitive deletion must be a list"))
        >>= λ removals.
            lift (check_ids none removals)
            >> delete_from name removals (get_field name result) result
  deletion_of none key value schema result =
      if is_some (strip_text "$setElementOrder/" key)
      then pure result
      else fail "unknown strategic patch directive"

  unfoldable pub deletion : String → Value → Value → Fields → Work Fields
  deletion key value schema result =
      deletion_of (strip_text "$deleteFromPrimitiveList/" key) key value schema result

  abbrev pub deletions : Fields → Value → Fields → Work Fields
  deletions end schema result = pure result
  deletions (field k v fs) schema result =
      if is_directive k && not (str_eq k "$retainKeys")
      then (deletion k v schema result >>= deletions fs schema)
      else deletions fs schema result

  -- One directive of the third loop, given the list that it orders; other keys are filtered out.
  unfoldable pub ordering : Option String → Value → Fields → Value → Value → Fields → Work Fields
  ordering none value patch schema original result = pure result
  ordering (some name) value patch schema original result =
      let child = field_schema schemas schema name in
      if not (strategy child "merge")
      then fail "element ordering requires a merge list"
      else lift (ok_or (as_array value) (invalid "element order must be a list")) >>= λ order.
          lift (check_ids (merge_key child) order)
          >> check_order (merge_key child) (get_field name patch) order
          >> reorder_field name (merge_key child) order original (get_field name result) result

  abbrev pub orderings : Fields → Fields → Value → Value → Fields → Work Fields
  orderings end patch schema original result = pure result
  orderings (field k v fs) patch schema original result =
      ordering (strip_text "$setElementOrder/" k) v patch schema original result
      >>= orderings fs patch schema original
