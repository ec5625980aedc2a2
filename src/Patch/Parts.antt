-- ===== src/Patch/Parts.antt =====
-- crates/h3s-apiserver/src/patch/strategic.rs: the size of the result of each part of a merge.
use hedronetes_h3s.Prelude.{
  ℕ, suc, ◌+◌, ◌≤◌, ◌≡◌, refl, ap, subst, inl, inr, String, List, [], ◌∷◌, true, false, Option,
  none, some, str_eq, arith, ◌⊎◌, Bool-cases, Option-cases, ok, >>=-eq-ok,
}
use hedronetes_h3s.Json.{
  Value, null, bool, int, float, string, array, object, Fields, end, get_field, elements, or_null,
  as_str, is_null,
}
use hedronetes_h3s.Patch.Budget.{Work, enter, ◌>>◌, pure, bind-eq-ok, enter-eq-ok, pure-eq-ok}
use hedronetes_h3s.Patch.Fields.{remove_field, fields_of}
use hedronetes_h3s.Patch.Reorder.{reorder}
use hedronetes_h3s.Patch.Directives.{retained, deletions, orderings}
use hedronetes_h3s.Patch.Merge.{
  map_directive, Triage, Place, find_id, deduplicate, merge_field, merge_item, finish_list,
  map_value,
}
use hedronetes_h3s.Patch.Measure.{size, size_fields, size_list, size_option}
use hedronetes_h3s.Patch.Weight.{
  size_list-append, reorder-size, size-list_items, size-items_list, size-remove_field,
}
use hedronetes_h3s.Patch.Size.{retained_by-size, deletions-size, orderings-size}
use hedronetes_h3s.Patch.Growth.{copy_bound, find_id-size, deduplicate-size}

pub field_size :
    (k : String) (fs : Fields)
    → is_null (or_null (get_field k fs)) ≡ false
    → size (or_null (get_field k fs)) ≡ size_option (get_field k fs)
field_size k fs e = elim (Option-cases (get_field k fs)) [
  | inl n ↦ absurd (let g = rw n at e in ground arith)
  | inr (v, n) ↦ rw n refl
]

fields_of-size : (v : Value) → suc (size_fields (fields_of v)) ≤ size v
unfolding size
fields_of-size (object fs) = omega arith
fields_of-size (array vs) = omega arith
fields_of-size null = omega arith
fields_of-size (bool b) = omega arith
fields_of-size (int z) = omega arith
fields_of-size (float t) = omega arith
fields_of-size (string s) = omega arith

pub elements-size : (v : Value) → suc (size_list (elements v)) ≤ size v
unfolding size
elements-size (array vs) = let a = size-items_list vs in omega (arith, a)
elements-size (object fs) = omega arith
elements-size null = omega arith
elements-size (bool b) = omega arith
elements-size (int z) = omega arith
elements-size (float t) = omega arith
elements-size (string s) = omega arith

map_directive-size :
    (o : Option String) (fs : Fields) (w : Value)
    → map_directive o fs ≡ ok w
    → size w ≤ suc (size_fields fs)
unfolding size
map_directive-size none fs w h = absurd (cc)
map_directive-size (some text) fs w h = elim (Bool-cases (str_eq text "replace")) [
  | inl e ↦
      let q : object (remove_field "$patch" fs) ≡ w = let g = rw e at h in cc in
      let a = size-remove_field "$patch" fs in
      subst (λ w. size w ≤ suc (size_fields fs)) q (omega (arith, a))
  | inr e ↦ elim (Bool-cases (str_eq text "delete")) [
    | inl d ↦
        let q : object end ≡ w = let g = rw (e, d) at h in cc in
        subst (λ w. size w ≤ suc (size_fields fs)) q (omega arith)
    | inr d ↦ absurd (let g = rw (e, d) at h in cc)
  ]
]

pub map_value-size :
    (schemas original : Value) (fs : Fields) (o : Option Value) (schema : Value)
    (merged : Fields → Work Fields) (n m : ℕ) (w : Value)
    → ((start r : Fields) (k l : ℕ)
        → merged start k ≡ ok (r, l)
        → size_fields r ≤ size_fields start + size_fields fs)
    → map_value schemas original fs o schema merged n ≡ ok (w, m)
    → size w ≤ size original + suc (size_fields fs)
unfolding size retained
map_value-size schemas original fs (some directive) schema merged n m w bound h =
    let (v, e, g) = >>=-eq-ok (map_directive (as_str directive) fs) _ h in
    let a = map_directive-size (as_str directive) fs v e in
    let q = ap size (pure-eq-ok g) in omega (arith, a, q)
map_value-size schemas original fs none schema merged n m w bound h =
    let (start, i, f1, g1) = bind-eq-ok (retained fs (fields_of original)) _ n h in
    let (fields, i2, f2, g2) = bind-eq-ok (merged start) _ i g1 in
    let (trimmed, i3, f3, g3) = bind-eq-ok (deletions schemas fs schema fields) _ i2 g2 in
    let (result, i4, f4, g4) =
      bind-eq-ok (orderings schemas fs fs schema original trimmed) _ i3 g3 in
    let a = retained_by-size (get_field "$retainKeys" fs) fs (fields_of original) start n i f1 in
    let b = bound start fields i i2 f2 in
    let c = deletions-size schemas fs schema fields trimmed i2 i3 f3 in
    let d = orderings-size schemas fs fs schema original trimmed result i3 i4 f4 in
    let o = fields_of-size original in
    subst (λ w. size w ≤ size original + suc (size_fields fs)) (pure-eq-ok g4)
      (omega (arith, a, b, c, d, o))

pub finish_list-size :
    (key : Option String) (old : List Value) (merged : List Value → Work (List Value)) (s : Triage)
    (bound n m : ℕ) (w : Value)
    → ((r : List Value) (k l : ℕ)
        → merged s.kept k ≡ ok (r, l)
        → size_list r ≤ size_list s.kept + bound)
    → size_list s.ordinary ≤ bound
    → finish_list key old merged s n ≡ ok (w, m)
    → size w ≤ suc (size_list s.kept + bound)
finish_list-size key old merged s bound n m w each small h = elim (Bool-cases s.replace) [
  | inl e ↦
      let q = ap size (pure-eq-ok (rw e at h)) in
      let a = size-list_items s.ordinary in omega (arith, q, a, small)
  | inr e ↦
      let (items, k, f1, g1) = bind-eq-ok (merged s.kept) _ n (rw e at h) in
      let (result, k2, f2, g2) = bind-eq-ok (deduplicate key items) _ k g1 in
      let (sorted, k3, f3, g3) = bind-eq-ok (reorder result s.ordinary old key) _ k2 g2 in
      let q = ap size (pure-eq-ok g3) in
      let a = each items n k f1 in
      let b = deduplicate-size key items result k k2 f2 in
      let c = reorder-size result s.ordinary old key k2 k3 sorted f3 in
      let d = size-list_items sorted in omega (arith, q, a, b, c, d)
]

pub merge_field-size :
    (v old : Value) (depth : ℕ) (merged : Work Value) (n m : ℕ) (o : Option Value)
    → ((w : Value) (l : ℕ) → merged n ≡ ok (w, l) → size w ≤ size old + size v)
    → merge_field v old depth merged n ≡ ok (o, m)
    → ((is_null old ≡ true) × (size_option o ≤ size v))
      ⊎ ((is_null old ≡ false) × (size_option o ≤ size old + size v))
merge_field-size v old depth merged n m o each h = elim (Bool-cases (is_null old)) [
  | inl e ↦ inl (e, copy_bound v depth n m o (rw e at h))
  | inr e ↦
      let (w, l, f, g) = bind-eq-ok merged _ n (rw e at h) in
      let a = each w l f in let q = ap size_option (pure-eq-ok g) in inr (e, omega (arith, a, q))
]

pub merge_item-size :
    (v id : Value) (key : Option String) (merged : Value → Work Value) (vs ws : List Value)
    (n m : ℕ)
    → ((old w : Value) (k l : ℕ) → merged old k ≡ ok (w, l) → size w ≤ size old + size v)
    → merge_item v (find_id key id vs) key merged vs n ≡ ok (ws, m)
    → size_list ws ≤ size_list vs + size v
merge_item-size v id key merged vs ws n m each h = elim (Option-cases (find_id key id vs)) [
  | inl e ↦
      let q = ap size_list (pure-eq-ok (rw e at h)) in
      let a = size_list-append vs (v ∷ []) in omega (arith, q, a)
  | inr (p, e) ↦ placed key p (find_id-size key id vs p e) (rw e at h)
]
  where
    placed :
        (key : Option String) (p : Place)
        → size_list p.before + size p.item + size_list p.after ≡ size_list vs
        → merge_item v (some p) key merged vs n ≡ ok (ws, m)
        → size_list ws ≤ size_list vs + size v
    placed none p a g = let q = ap size_list (pure-eq-ok g) in omega (arith, q)
    placed (some key) p a g =
        let (new, l, f, i) = bind-eq-ok (merged p.item) _ n g in
        let q = ap size_list (pure-eq-ok i) in
        let b = each p.item new n l f in
        let c = size_list-append p.before (new ∷ p.after) in omega (arith, q, a, b, c)

pub taken_whole :
    (original patch : Value) (depth n m : ℕ) (w : Value)
    → (enter depth >> pure patch) n ≡ ok (w, m)
    → size w ≤ size original + size patch
taken_whole original patch depth n m w h =
    let (l, e, d, g) = enter-eq-ok depth (pure patch) n h in
    let q = ap size (pure-eq-ok g) in omega (arith, q)
