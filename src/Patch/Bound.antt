-- ===== src/Patch/Bound.antt =====
-- crates/h3s-apiserver/src/patch/strategic.rs: the size of the result of a merge.
use hedronetes_h3s.Prelude.{
  ℕ, suc, ◌+◌, ◌≤◌, ◌≡◌, ap, inl, inr, String, List, [], false, Option, arith, Bool-cases, ok,
}
use hedronetes_h3s.Json.{
  Value, null, bool, int, float, string, array, object, Items, nil, cons, Fields, end, field,
  get_field, items_list, elements, or_null, is_null, ◌!◌,
}
use hedronetes_h3s.Patch.Budget.{Work, bind-eq-ok, spend-eq-ok, enter-eq-ok, lift-eq-ok, pure-eq-ok}
use hedronetes_h3s.Patch.Schema.{
  is_directive, field_schema, resolve, strategy, merge_key, identity, check_ids,
}
use hedronetes_h3s.Patch.Fields.{remove_field, insert_some, has}
use hedronetes_h3s.Patch.Merge.{
  Triage, sort_items, find_id, merge_field, merge_item, merge, merge_fields, merge_items,
}
use hedronetes_h3s.Patch.Measure.{size, size_items, size_fields, size_list}
use hedronetes_h3s.Patch.Weight.{size-items_list, size-remove_field, size-insert_some}
use hedronetes_h3s.Patch.Growth.{sort_items-size}
use hedronetes_h3s.Patch.Parts.{
  field_size, elements-size, map_value-size, finish_list-size, merge_field-size, merge_item-size,
  taken_whole,
}

module _ (schemas : Value) where
  mutual
    unfolding merge size

    merge_size :
        (original patch schema : Value) (depth n m : ℕ) (w : Value)
        → merge schemas original patch schema depth n ≡ ok (w, m)
        → size w ≤ size original + size patch
    merge_size original null schema depth n m w h = taken_whole original null depth n m w h
    merge_size original (bool b) schema depth n m w h = taken_whole original (bool b) depth n m w h
    merge_size original (int z) schema depth n m w h = taken_whole original (int z) depth n m w h
    merge_size original (float t) schema depth n m w h =
        taken_whole original (float t) depth n m w h
    merge_size original (string s) schema depth n m w h =
        taken_whole original (string s) depth n m w h
    merge_size original (object fs) schema depth n m w h =
        let (l, e, d, g) = enter-eq-ok depth _ n h in
        map_value-size schemas original fs (get_field "$patch" fs) schema
          (merge_fields schemas fs schema depth) l m w
          (λ start r i j. merge_fields-size fs schema depth start r i j) g
    merge_size original (array vs) schema depth n m w h =
        let (l, e, d, g) = enter-eq-ok depth _ n h in
        let key = merge_key schema in
        let items = resolve schemas schema ! "items" in
        let merged : List Value → Work (List Value) =
          merge_items schemas vs key items (suc depth) in
        elim (Bool-cases (strategy schema "merge")) [
          | inr t ↦ let q = ap size (pure-eq-ok (rw t at g)) in omega (arith, q)
          | inl t ↦
              let old = elements original in
              let patch = items_list vs in
              let (k, f1, g1) = spend-eq-ok _ _ l (rw t at g) in
              let (u, f2, g2) = lift-eq-ok (check_ids key old) _ k g1 in
              let start : Triage = record { kept = old; ordinary = []; replace = false } in
              let (s, f3, g3) = lift-eq-ok (sort_items key patch start) _ k g2 in
              let (a, b) = sort_items-size key patch start s f3 in
              let c = size-items_list vs in
              let o = elements-size original in
              let p =
                finish_list-size key old merged s (size_items vs) k m w
                  (λ r i j x. merge_items-size vs key items (suc depth) s.kept r i j x)
                  (omega (arith, b, c)) g3 in
              omega (arith, a, o, p)
        ]

    merge_fields-size :
        (fs : Fields) (schema : Value) (depth : ℕ) (start r : Fields) (n m : ℕ)
        → merge_fields schemas fs schema depth start n ≡ ok (r, m)
        → size_fields r ≤ size_fields start + size_fields fs
    merge_fields-size end schema depth start r n m h =
        let q = ap size_fields (pure-eq-ok h) in omega (arith, q)
    merge_fields-size (field k v fs) schema depth start r n m h =
        let old = or_null (get_field k start) in
        let child = field_schema schemas schema k in
        let rest = remove_field k start in
        let a = size-remove_field k start in
        elim (Bool-cases (is_directive k)) [
          | inl e ↦
              let p = merge_fields-size fs schema depth start r n m (rw e at h) in omega (arith, p)
          | inr e ↦ elim (Bool-cases (is_null v)) [
            | inl f ↦
                let p = merge_fields-size fs schema depth rest r n m (rw (e, f) at h) in
                omega (arith, p, a)
            | inr f ↦
                let merged = merge schemas old v child (suc depth) in
                let (o, l, i, g) =
                  bind-eq-ok (merge_field v old (suc depth) merged) _ n (rw (e, f) at h) in
                let p = merge_fields-size fs schema depth (insert_some k o rest) r l m g in
                let c = size-insert_some k o rest in
                elim (merge_field-size v old (suc depth) merged n l o
                  (λ w j x. merge_size old v child (suc depth) n j w x) i) [
                    | inl (t, b) ↦ omega (arith, a, p, c, b)
                    | inr (t, b) ↦ let d = field_size k start t in omega (arith, a, p, c, b, d)
                  ]
          ]
        ]

    merge_items-size :
        (vs : Items) (key : Option String) (schema : Value) (depth : ℕ) (start r : List Value)
        (n m : ℕ)
        → merge_items schemas vs key schema depth start n ≡ ok (r, m)
        → size_list r ≤ size_list start + size_items vs
    merge_items-size nil key schema depth start r n m h =
        let q = ap size_list (pure-eq-ok h) in omega (arith, q)
    merge_items-size (cons v vs) key schema depth start r n m h =
        elim (Bool-cases (has v "$patch")) [
          | inl e ↦
              let p = merge_items-size vs key schema depth start r n m (rw e at h) in
              omega (arith, p)
          | inr e ↦
              let (id, f, g) = lift-eq-ok (identity key v) _ n (rw e at h) in
              let merged : Value → Work Value = λ old. merge schemas old v schema depth in
              let (next, l, i, g2) =
                bind-eq-ok (merge_item v (find_id key id start) key merged start) _ n g in
              let a =
                merge_item-size v id key merged start next n l
                  (λ old w k j x. merge_size old v schema depth k j w x) i in
              let p = merge_items-size vs key schema depth next r l m g2 in omega (arith, a, p)
        ]

  -- A merge that succeeds gives an object of no more nodes than the original and the patch have
  -- together, whatever the schemas say.
  pub merge-size :
      (original patch schema : Value) (depth n m : ℕ) (w : Value)
      → merge schemas original patch schema depth n ≡ ok (w, m)
      → size w ≤ size original + size patch
  merge-size original patch schema depth n m w h = merge_size original patch schema depth n m w h
