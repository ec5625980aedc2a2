-- ===== src/Patch/Size.antt =====
-- crates/h3s-apiserver/src/patch/strategic.rs: what the directives of a merge do to the size of an
-- object.
use hedronetes_h3s.Prelude.{
  ℕ, ◌≤◌, ◌≡◌, refl, ap, subst, inl, inr, String, List, ◌&&◌, ◌||◌, not, Option, none, some, str_eq,
  arith, Bool-cases, keep, any, ok, ok_or,
}
use hedronetes_h3s.Json.{
  Value, array, Fields, end, field, get_field, list_items, elements, value_eq, as_array, as_str,
  ◌!◌,
}
use hedronetes_h3s.Patch.Budget.{bind-eq-ok, spend-eq-ok, lift-eq-ok, pure-eq-ok}
use hedronetes_h3s.Patch.Schema.{
  strip_text, is_some, is_directive, field_schema, strategy, merge_key, check_ids,
}
use hedronetes_h3s.Patch.Fields.{remove_field}
use hedronetes_h3s.Patch.Reorder.{reorder}
use hedronetes_h3s.Patch.Directives.{
  retained_by, named, delete_from, deletion, deletion_of, deletions, check_order, reorder_field,
  ordering, orderings, unnamed_field,
}
use hedronetes_h3s.Patch.Measure.{size_fields, size_option}
use hedronetes_h3s.Patch.Weight.{
  size_list-keep, reorder-size, size-list_items, size-remove_field, size-set_field,
  size-keep_fields, as_array-size,
}

le_of_eq : {a b : ℕ} → a ≡ b → b ≤ a
le_of_eq e = omega arith

pub retained_by-size :
    (o : Option Value) (patch fs r : Fields) (n m : ℕ)
    → retained_by o patch fs n ≡ ok (r, m)
    → size_fields r ≤ size_fields fs
retained_by-size none patch fs r n m h = le_of_eq (ap size_fields (pure-eq-ok h))
retained_by-size (some v) patch fs r n m h =
    let (names, e, g) = lift-eq-ok (ok_or (as_array v) _) _ n h in
    let (l, f, i) = spend-eq-ok _ _ n g in
    elim (Bool-cases (any (λ v. not (is_some (as_str v))) names || unnamed_field names patch)) [
      | inl t ↦ absurd (let g = rw t at i in cc)
      | inr t ↦
          let q = pure-eq-ok (rw t at i) in
          subst (λ r. size_fields r ≤ size_fields fs) q (size-keep_fields (named names) fs)
    ]

delete_from-size :
    (name : String) (removals : List Value) (fs r : Fields) (o : Option Value) (n m : ℕ)
    → get_field name fs ≡ o
    → delete_from name removals o fs n ≡ ok (r, m)
    → size_fields r ≤ size_fields fs
delete_from-size name removals fs r none n m o h = le_of_eq (ap size_fields (pure-eq-ok h))
delete_from-size name removals fs r (some v) n m o h =
    let (old, e, g) = lift-eq-ok (ok_or (as_array v) _) _ n h in
    let (l, f, i) = spend-eq-ok _ _ n g in
    let rest : List Value = keep (λ w. not (any (value_eq w) removals)) old in
    let new = array (list_items rest) in
    let a = size-set_field name new (remove_field name fs) in
    let b = size-remove_field name fs in
    let c = ap size_option o in
    let d = as_array-size v old _ e in
    let k = size-list_items rest in
    let u = size_list-keep (λ w. not (any (value_eq w) removals)) old in
    subst (λ r. size_fields r ≤ size_fields fs) (pure-eq-ok i) (omega (arith, a, b, c, d, k, u))

reorder_field-size :
    (name : String) (key : Option String) (order : List Value) (original : Value) (fs r : Fields)
    (o : Option Value) (n m : ℕ)
    → get_field name fs ≡ o
    → reorder_field name key order original o fs n ≡ ok (r, m)
    → size_fields r ≤ size_fields fs
reorder_field-size name key order original fs r none n m o h =
    le_of_eq (ap size_fields (pure-eq-ok h))
reorder_field-size name key order original fs r (some v) n m o h =
    let (values, e, g) = lift-eq-ok (ok_or (as_array v) _) _ n h in
    let old = elements (original ! name) in
    let (sorted, l, f, i) = bind-eq-ok (reorder values order old key) _ n g in
    let a = size-set_field name (array (list_items sorted)) (remove_field name fs) in
    let b = size-remove_field name fs in
    let c = ap size_option o in
    let d = as_array-size v values _ e in
    let k = size-list_items sorted in
    let u = reorder-size values order old key n l sorted f in
    subst (λ r. size_fields r ≤ size_fields fs) (pure-eq-ok i) (omega (arith, a, b, c, d, k, u))

module _ (schemas : Value) where
  deletion_of-size :
      (o : Option String) (key : String) (value schema : Value) (fs r : Fields) (n m : ℕ)
      → deletion_of schemas o key value schema fs n ≡ ok (r, m)
      → size_fields r ≤ size_fields fs
  deletion_of-size none key value schema fs r n m h =
      elim (Bool-cases (is_some (strip_text "$setElementOrder/" key))) [
        | inl f ↦ le_of_eq (ap size_fields (pure-eq-ok (rw f at h)))
        | inr f ↦ absurd (let g = rw f at h in cc)
      ]
  deletion_of-size (some name) key value schema fs r n m h =
      let child = field_schema schemas schema name in
      elim (Bool-cases (not (strategy child "merge") || is_some (merge_key child))) [
        | inl f ↦ absurd (let g = rw f at h in cc)
        | inr f ↦
            let (removals, p, g) = lift-eq-ok (ok_or (as_array value) _) _ n (rw f at h) in
            let (u, q, i) = lift-eq-ok (check_ids none removals) _ n g in
            delete_from-size name removals fs r (get_field name fs) n m refl i
      ]

  pub deletions-size :
      (fs : Fields) (schema : Value) (start r : Fields) (n m : ℕ)
      → deletions schemas fs schema start n ≡ ok (r, m)
      → size_fields r ≤ size_fields start
  unfolding deletion
  deletions-size end schema start r n m h = le_of_eq (ap size_fields (pure-eq-ok h))
  deletions-size (field j v fs) schema start r n m h =
      elim (Bool-cases (is_directive j && not (str_eq j "$retainKeys"))) [
        | inl e ↦
            let (next, l, f, g) = bind-eq-ok (deletion schemas j v schema start) _ n (rw e at h) in
            let a = deletions-size fs schema next r l m g in
            let b =
              deletion_of-size (strip_text "$deleteFromPrimitiveList/" j) j v schema start next n l
                f in
            omega (arith, a, b)
        | inr e ↦ deletions-size fs schema start r n m (rw e at h)
      ]

  ordering-size :
      (o : Option String) (value : Value) (patch : Fields) (schema original : Value) (fs r : Fields)
      (n m : ℕ)
      → ordering schemas o value patch schema original fs n ≡ ok (r, m)
      → size_fields r ≤ size_fields fs
  unfolding ordering
  ordering-size none value patch schema original fs r n m h =
      le_of_eq (ap size_fields (pure-eq-ok h))
  ordering-size (some name) value patch schema original fs r n m h =
      let child = field_schema schemas schema name in
      elim (Bool-cases (not (strategy child "merge"))) [
        | inl f ↦ absurd (let g = rw f at h in cc)
        | inr f ↦
            let (order, p, g) = lift-eq-ok (ok_or (as_array value) _) _ n (rw f at h) in
            let (u, q, i) = lift-eq-ok (check_ids (merge_key child) order) _ n g in
            let (t, l, o, z) =
              bind-eq-ok (check_order (merge_key child) (get_field name patch) order) _ n i in
            reorder_field-size name (merge_key child) order original fs r (get_field name fs) l m
              refl z
      ]

  pub orderings-size :
      (fs patch : Fields) (schema original : Value) (start r : Fields) (n m : ℕ)
      → orderings schemas fs patch schema original start n ≡ ok (r, m)
      → size_fields r ≤ size_fields start
  orderings-size end patch schema original start r n m h = le_of_eq (ap size_fields (pure-eq-ok h))
  orderings-size (field j v fs) patch schema original start r n m h =
      let name = strip_text "$setElementOrder/" j in
      let (next, l, f, g) =
        bind-eq-ok (ordering schemas name v patch schema original start) _ n h in
      let a = orderings-size fs patch schema original next r l m g in
      let b = ordering-size name v patch schema original start next n l f in omega (arith, a, b)
