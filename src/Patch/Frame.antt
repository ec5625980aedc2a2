-- ===== src/Patch/Frame.antt =====
-- crates/h3s-apiserver/src/patch/strategic.rs: `map` leaves alone what the patch does not mention.
use hedronetes_h3s.Prelude.{
  ℕ, suc, String, List, Bool, true, false, ◌&&◌, ◌||◌, not, ◌≡◌, ap, sym, ◌∙◌, inl, inr, Option,
  none, some, str_eq, arith, Bool-cases, ok, ok_or,
}
use hedronetes_h3s.Json.{
  Value, array, object, Fields, field, end, get_field, list_items, elements, other_field, or_null,
  is_null, get, as_array, ◌!◌,
}
use hedronetes_h3s.Patch.Budget.{bind-eq-ok, spend-eq-ok, enter-eq-ok, lift-eq-ok, pure-eq-ok}
use hedronetes_h3s.Patch.Schema.{
  strip_text, is_some, is_directive, field_schema, strategy, merge_key, check_ids,
}
use hedronetes_h3s.Patch.Fields.{
  remove_field, fields_of, insert_some, get_field-remove_field, insert_some-other,
}
use hedronetes_h3s.Patch.Reorder.{reorder}
use hedronetes_h3s.Patch.Directives.{
  retained, delete_from, deletion, deletion_of, deletions, check_order, reorder_field, ordering,
  orderings,
}
use hedronetes_h3s.Patch.Merge.{merge, merge_field, merge_fields}

abbrev is_name : String → Option String → Bool
is_name k none = false
is_name k (some name) = str_eq name k

-- The patch's key `j` is the field `k`, or a directive on it.
abbrev mentions : String → String → Bool
mentions k j =
    str_eq j k
    || is_name k (strip_text "$deleteFromPrimitiveList/" j)
    || is_name k (strip_text "$setElementOrder/" j)

-- No key of the patch mentions the field.
abbrev pub silent : String → Fields → Bool
silent k end = true
silent k (field j v fs) = not (mentions k j) && silent k fs

unsaid :
    (k j : String) (rest : Bool)
    → (not (mentions k j) && rest) ≡ true
    → (str_eq j k ≡ false)
      × (is_name k (strip_text "$deleteFromPrimitiveList/" j) ≡ false)
      × (is_name k (strip_text "$setElementOrder/" j) ≡ false)
      × (rest ≡ true)
unsaid k j rest h = ground arith

delete_from-other :
    (name k : String) (removals : List Value) (target : Option Value) (fs r : Fields) (n m : ℕ)
    → str_eq name k ≡ false
    → delete_from name removals target fs n ≡ ok (r, m)
    → get_field k r ≡ get_field k fs
delete_from-other name k removals none fs r n m d h = ap (get_field k) (sym (pure-eq-ok h))
delete_from-other name k removals (some t) fs r n m d h =
    let (old, e, g) = lift-eq-ok (ok_or (as_array t) _) _ n h in
    let (l, f, i) = spend-eq-ok _ _ n g in
    ap (get_field k) (sym (pure-eq-ok i))
    ∙ other_field name k _ (remove_field name fs) d
    ∙ get_field-remove_field name k fs d

reorder_field-other :
    (name k : String) (key : Option String) (order : List Value) (original : Value)
    (target : Option Value) (fs r : Fields) (n m : ℕ)
    → str_eq name k ≡ false
    → reorder_field name key order original target fs n ≡ ok (r, m)
    → get_field k r ≡ get_field k fs
reorder_field-other name k key order original none fs r n m d h =
    ap (get_field k) (sym (pure-eq-ok h))
reorder_field-other name k key order original (some t) fs r n m d h =
    let (values, e, g) = lift-eq-ok (ok_or (as_array t) _) _ n h in
    let (sorted, l, f, i) =
      bind-eq-ok (reorder values order (elements (original ! name)) key) _ n g in
    ap (get_field k) (sym (pure-eq-ok i))
    ∙ other_field name k (array (list_items sorted)) (remove_field name fs) d
    ∙ get_field-remove_field name k fs d

module _ (schemas : Value) (k : String) where
  deletion_of-other :
      (o : Option String) (key : String) (value schema : Value) (fs r : Fields) (n m : ℕ)
      → is_name k o ≡ false
      → deletion_of schemas o key value schema fs n ≡ ok (r, m)
      → get_field k r ≡ get_field k fs
  deletion_of-other none key value schema fs r n m d h =
      elim (Bool-cases (is_some (strip_text "$setElementOrder/" key))) [
        | inl f ↦ ap (get_field k) (sym (pure-eq-ok (rw f at h)))
        | inr f ↦ absurd (let g = rw f at h in cc)
      ]
  deletion_of-other (some name) key value schema fs r n m d h =
      let child = field_schema schemas schema name in
      elim (Bool-cases (not (strategy child "merge") || is_some (merge_key child))) [
        | inl f ↦ absurd (let g = rw f at h in cc)
        | inr f ↦
            let (removals, p, g) = lift-eq-ok (ok_or (as_array value) _) _ n (rw f at h) in
            let (u, q, i) = lift-eq-ok (check_ids none removals) _ n g in
            delete_from-other name k removals (get_field name fs) fs r n m d i
      ]

  deletions-silent :
      (fs : Fields) (schema : Value) (start r : Fields) (n m : ℕ)
      → silent k fs ≡ true
      → deletions schemas fs schema start n ≡ ok (r, m)
      → get_field k r ≡ get_field k start
  unfolding deletion
  deletions-silent end schema start r n m s h = ap (get_field k) (sym (pure-eq-ok h))
  deletions-silent (field j v fs) schema start r n m s h =
      let (a, b, c, d) = unsaid k j (silent k fs) s in
      elim (Bool-cases (is_directive j && not (str_eq j "$retainKeys"))) [
        | inl e ↦
            let (next, l, f, g) = bind-eq-ok (deletion schemas j v schema start) _ n (rw e at h) in
            deletions-silent fs schema next r l m d g
            ∙ deletion_of-other (strip_text "$deleteFromPrimitiveList/" j) j v schema start next n l
                b f
        | inr e ↦ deletions-silent fs schema start r n m d (rw e at h)
      ]

  ordering-other :
      (o : Option String) (value : Value) (patch : Fields) (schema original : Value) (fs r : Fields)
      (n m : ℕ)
      → is_name k o ≡ false
      → ordering schemas o value patch schema original fs n ≡ ok (r, m)
      → get_field k r ≡ get_field k fs
  unfolding ordering
  ordering-other none value patch schema original fs r n m d h =
      ap (get_field k) (sym (pure-eq-ok h))
  ordering-other (some name) value patch schema original fs r n m d h =
      let child = field_schema schemas schema name in
      elim (Bool-cases (not (strategy child "merge"))) [
        | inl f ↦ absurd (let g = rw f at h in cc)
        | inr f ↦
            let (order, p, g) = lift-eq-ok (ok_or (as_array value) _) _ n (rw f at h) in
            let (u, q, i) = lift-eq-ok (check_ids (merge_key child) order) _ n g in
            let (t, l, o, z) =
              bind-eq-ok (check_order (merge_key child) (get_field name patch) order) _ n i in
            reorder_field-other name k (merge_key child) order original (get_field name fs) fs r l m
              d z
      ]

  orderings-silent :
      (fs patch : Fields) (schema original : Value) (start r : Fields) (n m : ℕ)
      → silent k fs ≡ true
      → orderings schemas fs patch schema original start n ≡ ok (r, m)
      → get_field k r ≡ get_field k start
  orderings-silent end patch schema original start r n m s h = ap (get_field k) (sym (pure-eq-ok h))
  orderings-silent (field j v fs) patch schema original start r n m s h =
      let (a, b, c, d) = unsaid k j (silent k fs) s in
      let name = strip_text "$setElementOrder/" j in
      let (next, l, f, g) =
        bind-eq-ok (ordering schemas name v patch schema original start) _ n h in
      orderings-silent fs patch schema original next r l m d g
      ∙ ordering-other name v patch schema original start next n l c f

  merge_fields-silent :
      (fs : Fields) (schema : Value) (depth : ℕ) (start r : Fields) (n m : ℕ)
      → silent k fs ≡ true
      → merge_fields schemas fs schema depth start n ≡ ok (r, m)
      → get_field k r ≡ get_field k start
  unfolding merge
  merge_fields-silent end schema depth start r n m s h = ap (get_field k) (sym (pure-eq-ok h))
  merge_fields-silent (field j v fs) schema depth start r n m s h =
      let (a, b, c, d) = unsaid k j (silent k fs) s in
      elim (Bool-cases (is_directive j)) [
        | inl e ↦ merge_fields-silent fs schema depth start r n m d (rw e at h)
        | inr e ↦ elim (Bool-cases (is_null v)) [
          | inl f ↦
              merge_fields-silent fs schema depth (remove_field j start) r n m d (rw (e, f) at h)
              ∙ get_field-remove_field j k start a
          | inr f ↦
              let (new, l, i, g) =
                bind-eq-ok
                  (merge_field v (or_null (get_field j start)) (suc depth) (
                    merge schemas (or_null (get_field j start)) v (field_schema schemas schema j)
                      (suc depth)))
                  _ n (rw (e, f) at h) in
              merge_fields-silent fs schema depth (insert_some j new (remove_field j start)) r l m d
                g
              ∙ insert_some-other j k new (remove_field j start) a
              ∙ get_field-remove_field j k start a
        ]
      ]

  -- A merge keeps each field that the patch does not mention, by its name or in a directive on it,
  -- if the patch is an object without $patch and $retainKeys. Its other fields do not matter.
  pub merge-silent :
      (original : Value) (fs : Fields) (schema w : Value) (depth n m : ℕ)
      → silent k fs ≡ true
      → get_field "$patch" fs ≡ none
      → get_field "$retainKeys" fs ≡ none
      → merge schemas original (object fs) schema depth n ≡ ok (w, m)
      → get w k ≡ get_field k (fields_of original)
  unfolding merge retained
  merge-silent original fs schema w depth n m s p q h =
      let (l, e, d, g) = enter-eq-ok depth _ n h in
      let (start, i, f1, g1) = bind-eq-ok (retained fs (fields_of original)) _ l (rw p at g) in
      let (merged, i2, f2, g2) = bind-eq-ok (merge_fields schemas fs schema depth start) _ i g1 in
      let (trimmed, i3, f3, g3) = bind-eq-ok (deletions schemas fs schema merged) _ i2 g2 in
      let (result, i4, f4, g4) =
        bind-eq-ok (orderings schemas fs fs schema original trimmed) _ i3 g3 in
      ap (λ x. get x k) (sym (pure-eq-ok g4))
      ∙ orderings-silent fs fs schema original trimmed result i3 i4 s f4
      ∙ deletions-silent fs schema merged trimmed i2 i3 s f3
      ∙ merge_fields-silent fs schema depth start merged i i2 s f2
      ∙ ap (get_field k) (sym (pure-eq-ok (rw q at f1)))
