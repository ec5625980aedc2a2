-- ===== src/Patch/Growth.antt =====
-- crates/h3s-apiserver/src/patch/strategic.rs: the size of what `fresh` copies, and of the lists
-- that `list` works on.
use hedronetes_h3s.Prelude.{
  ℕ, suc, ◌+◌, ◌≤◌, ◌≡◌, ap, subst, inl, inr, String, List, [], ◌∷◌, ◌++◌, not, Option, none, some,
  str_eq, arith, Bool-cases, Option-cases, keep, any, ok, >>=-eq-ok,
}
use hedronetes_h3s.Json.{
  Value, null, bool, int, float, string, array, object, Items, nil, cons, Fields, end, field,
  get_field, value_eq, as_str, is_null, get,
}
use hedronetes_h3s.Patch.Budget.{
  enter, ◌>>◌, pure, bind-eq-ok, spend-eq-ok, enter-eq-ok, pure-eq-ok,
}
use hedronetes_h3s.Patch.Schema.{is_some, identity, has_id}
use hedronetes_h3s.Patch.Merge.{
  fresh, fresh_fields, fresh_items, add_field, push_some, Triage, list_directive, sort_item,
  sort_items, Place, find_id, unique_from, deduplicate,
}
use hedronetes_h3s.Patch.Measure.{size, size_items, size_fields, size_list, size_option}
use hedronetes_h3s.Patch.Weight.{size_list-append, size_list-keep}

pub size_pos : (v : Value) → 1 ≤ size v
unfolding size
size_pos null = omega arith
size_pos (bool b) = omega arith
size_pos (int z) = omega arith
size_pos (float t) = omega arith
size_pos (string s) = omega arith
size_pos (array vs) = omega arith
size_pos (object fs) = omega arith

push_some-size :
    (o : Option Value) (vs : Items) → size_items (push_some o vs) ≡ size_option o + size_items vs
unfolding size
push_some-size none vs = omega arith
push_some-size (some v) vs = omega arith

add_field-size :
    (k : String) (o : Option Value) (fs : Fields)
    → size_fields (add_field k o fs) ≡ size_option o + size_fields fs
unfolding size
add_field-size k none fs = omega arith
add_field-size k (some v) fs = omega arith

-- What is copied as it stands
whole_bound :
    (v : Value) (depth n m : ℕ) (o : Option Value)
    → (enter depth >> pure (some v)) n ≡ ok (o, m)
    → size_option o ≤ size v
whole_bound v depth n m o h =
    let (l, e, d, g) = enter-eq-ok depth (pure (some v)) n h in
    let q = ap size_option (pure-eq-ok g) in omega (arith, q)

mutual
  unfolding fresh size

  pub copy_bound :
      (v : Value) (depth n m : ℕ) (o : Option Value)
      → fresh v depth n ≡ ok (o, m)
      → size_option o ≤ size v
  copy_bound null depth n m o h = whole_bound null depth n m o h
  copy_bound (bool b) depth n m o h = whole_bound (bool b) depth n m o h
  copy_bound (int z) depth n m o h = whole_bound (int z) depth n m o h
  copy_bound (float t) depth n m o h = whole_bound (float t) depth n m o h
  copy_bound (string s) depth n m o h = whole_bound (string s) depth n m o h
  copy_bound (array vs) depth n m o h =
      let (l, e, d, g) = enter-eq-ok depth _ n h in
      let (ws, k, f, i) = bind-eq-ok (fresh_items vs (suc depth)) _ l g in
      let p = fresh_items-size vs (suc depth) l k ws f in
      subst (λ o. size_option o ≤ suc (size_items vs)) (pure-eq-ok i) (omega (arith, p))
  copy_bound (object fs) depth n m o h =
      let (l, e, d, g) = enter-eq-ok depth _ n h in
      elim (Bool-cases (is_some (get_field "$patch" fs))) [
        | inl t ↦
            subst (λ o. size_option o ≤ suc (size_fields fs)) (pure-eq-ok (rw t at g)) (omega arith)
        | inr t ↦
            let (gs, k, f, i) = bind-eq-ok (fresh_fields fs (suc depth)) _ l (rw t at g) in
            let p = fresh_fields-size fs (suc depth) l k gs f in
            subst (λ o. size_option o ≤ suc (size_fields fs)) (pure-eq-ok i) (omega (arith, p))
      ]

  fresh_items-size :
      (vs : Items) (depth n m : ℕ) (ws : Items)
      → fresh_items vs depth n ≡ ok (ws, m)
      → size_items ws ≤ size_items vs
  fresh_items-size nil depth n m ws h = subst (λ w. size_items w ≤ 0) (pure-eq-ok h) (omega arith)
  fresh_items-size (cons v vs) depth n m ws h =
      let (o, l, f, g) = bind-eq-ok (fresh v depth) _ n h in
      let (us, k, f2, g2) = bind-eq-ok (fresh_items vs depth) _ l g in
      let a = copy_bound v depth n l o f in
      let b = fresh_items-size vs depth l k us f2 in
      let c = push_some-size o us in
      subst (λ w. size_items w ≤ size v + size_items vs) (pure-eq-ok g2) (omega (arith, a, b, c))

  fresh_fields-size :
      (fs : Fields) (depth n m : ℕ) (gs : Fields)
      → fresh_fields fs depth n ≡ ok (gs, m)
      → size_fields gs ≤ size_fields fs
  fresh_fields-size end depth n m gs h = subst (λ w. size_fields w ≤ 0) (pure-eq-ok h) (omega arith)
  fresh_fields-size (field k v fs) depth n m gs h = elim (Bool-cases (is_null v)) [
    | inl t ↦ let b = fresh_fields-size fs depth n m gs (rw t at h) in omega (arith, b)
    | inr t ↦
        let (o, l, f, g) = bind-eq-ok (fresh v depth) _ n (rw t at h) in
        let (us, i, f2, g2) = bind-eq-ok (fresh_fields fs depth) _ l g in
        let a = copy_bound v depth n l o f in
        let b = fresh_fields-size fs depth l i us f2 in
        let c = add_field-size k o us in
        subst (λ w. size_fields w ≤ size v + size_fields fs) (pure-eq-ok g2)
          (omega (arith, a, b, c))
  ]

-- The first loop of `list` drops old items, and collects items of the patch.
sort_item-size :
    (key : Option String) (item : Value) (o : Option Value) (s t : Triage)
    → sort_item key item o s ≡ ok t
    → (size_list t.kept ≤ size_list s.kept)
      × (size_list t.ordinary ≤ size_list s.ordinary + size item)
sort_item-size key item none s t h =
    let (id, e, g) = >>=-eq-ok (identity key item) _ h in
    let f : s.kept ≡ t.kept = cc in
    let f2 : s.ordinary ++ item ∷ [] ≡ t.ordinary = cc in
    let a = size_list-append s.ordinary (item ∷ []) in
    (omega (arith, ap size_list f), omega (arith, a, ap size_list f2))
sort_item-size key item (some directive) s t h = elim (Bool-cases (is_some key)) [
  | inr e ↦ absurd (let g = rw e at h in cc)
  | inl e ↦ directive_size (as_str directive) (rw e at h)
]
  where
    directive_size :
        (o : Option String)
        → list_directive key item o s ≡ ok t
        → (size_list t.kept ≤ size_list s.kept)
          × (size_list t.ordinary ≤ size_list s.ordinary + size item)
    directive_size none g = absurd (cc)
    directive_size (some text) g = elim (Bool-cases (str_eq text "replace")) [
      | inl e ↦
          let q = rw e at g in
          let f : s.kept ≡ t.kept = cc in
          let f2 : s.ordinary ≡ t.ordinary = cc in
          (omega (arith, ap size_list f), omega (arith, ap size_list f2))
      | inr e ↦ elim (Bool-cases (str_eq text "delete")) [
        | inr d ↦ absurd (let q = rw (e, d) at g in cc)
        | inl d ↦
            let (id, i, q) = >>=-eq-ok (identity key item) _ (rw (e, d) at g) in
            let f : keep (λ v. not (has_id key id v)) s.kept ≡ t.kept = cc in
            let f2 : s.ordinary ≡ t.ordinary = cc in
            let a = size_list-keep (λ v. not (has_id key id v)) s.kept in
            (omega (arith, a, ap size_list f), omega (arith, ap size_list f2))
      ]
    ]

pub sort_items-size :
    (key : Option String) (items : List Value) (s t : Triage)
    → sort_items key items s ≡ ok t
    → (size_list t.kept ≤ size_list s.kept)
      × (size_list t.ordinary ≤ size_list s.ordinary + size_list items)
sort_items-size key [] s t h =
    let f : s.kept ≡ t.kept = cc in
    let f2 : s.ordinary ≡ t.ordinary = cc in
    (omega (arith, ap size_list f), omega (arith, ap size_list f2))
sort_items-size key (item ∷ items) s t h =
    let (u, e, g) = >>=-eq-ok (sort_item key item (get item "$patch") s) _ h in
    let (a, b) = sort_item-size key item (get item "$patch") s u e in
    let (c, d) = sort_items-size key items u t g in (omega (arith, a, c), omega (arith, b, d))

pub find_id-size :
    (key : Option String) (id : Value) (vs : List Value) (p : Place)
    → find_id key id vs ≡ some p
    → size_list p.before + size p.item + size_list p.after ≡ size_list vs
find_id-size key id [] p h = absurd (cc)
find_id-size key id (v ∷ vs) p h = elim (Bool-cases (has_id key id v)) [
  | inl e ↦
      let q = rw e at h in
      let a : [] ≡ p.before = cc in
      let b : v ≡ p.item = cc in
      let c : vs ≡ p.after = cc in omega (arith, ap size_list a, ap size b, ap size_list c)
  | inr e ↦ elim (Option-cases (find_id key id vs)) [
    | inl n ↦ absurd (let q = rw (e, n) at h in cc)
    | inr (r, n) ↦
        let q = rw (e, n) at h in
        let ih = find_id-size key id vs r n in
        let a : v ∷ r.before ≡ p.before = cc in
        let b : r.item ≡ p.item = cc in
        let c : r.after ≡ p.after = cc in
        omega (arith, ih, ap size_list a, ap size b, ap size_list c)
  ]
]

unique_from-size :
    (us vs : List Value) → size_list (unique_from us vs) ≤ size_list us + size_list vs
unique_from-size us [] = omega arith
unique_from-size us (v ∷ vs) = elim (Bool-cases (any (value_eq v) us)) [
  | inl e ↦ rw e (let ih = unique_from-size us vs in omega (arith, ih))
  | inr e ↦ rw e (
      let ih = unique_from-size (us ++ v ∷ []) vs in
      let a = size_list-append us (v ∷ []) in omega (arith, ih, a))
]

pub deduplicate-size :
    (key : Option String) (vs ws : List Value) (n m : ℕ)
    → deduplicate key vs n ≡ ok (ws, m)
    → size_list ws ≤ size_list vs
deduplicate-size (some key) vs ws n m h = let e = ap size_list (pure-eq-ok h) in omega (arith, e)
deduplicate-size none vs ws n m h =
    let (l, f, i) = spend-eq-ok _ _ n h in
    let e = ap size_list (pure-eq-ok i) in let a = unique_from-size [] vs in omega (arith, e, a)
