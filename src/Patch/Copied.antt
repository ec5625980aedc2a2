-- ===== src/Patch/Copied.antt =====
-- crates/h3s-apiserver/src/patch/strategic.rs: `fresh` copies all but what it has to leave out.
use hedronetes_h3s.Prelude.{
  ℕ, suc, Bool, false, ◌||◌, ◌≡◌, refl, ap, sym, ◌∙◌, inl, inr, Option, none, some, Bool-cases, ok,
  String, if◌then◌else◌,
}
use hedronetes_h3s.Json.{
  Value, null, bool, int, float, string, array, object, Items, nil, cons, Fields, end, field,
  get_field, is_null,
}
use hedronetes_h3s.Patch.Budget.{enter, ◌>>◌, pure, bind-eq-ok, enter-eq-ok, pure-eq-ok}
use hedronetes_h3s.Patch.Schema.{is_some}
use hedronetes_h3s.Patch.Merge.{fresh, fresh_fields, fresh_items, add_field, push_some}

-- What is left out of the list or the object that it stands in: an object with a field $patch.
abbrev pub is_marked : Value → Bool
is_marked (object fs) = is_some (get_field "$patch" fs)
is_marked _ = false

-- The value without the null and the marked fields of its objects, and without the marked items of
-- its lists, at every depth; all else is kept, in its order.
unfoldable mutual
  pub copy : Value → Value
  copy (array vs) = array (copy_items vs)
  copy (object fs) = object (copy_fields fs)
  copy v = v

  pub copy_items : Items → Items
  copy_items nil = nil
  copy_items (cons v vs) = if is_marked v then copy_items vs else cons (copy v) (copy_items vs)

  pub copy_fields : Fields → Fields
  copy_fields end = end
  copy_fields (field k v fs) =
      if is_null v || is_marked v then copy_fields fs else field k (copy v) (copy_fields fs)

abbrev pub copied : Value → Option Value
copied v = if is_marked v then none else some (copy v)

-- What is copied as it stands
whole-copied :
    (v : Value) (depth n m : ℕ) (o : Option Value)
    → some v ≡ copied v
    → (enter depth >> pure (some v)) n ≡ ok (o, m)
    → o ≡ copied v
whole-copied v depth n m o p h =
    let (l, e, d, g) = enter-eq-ok depth (pure (some v)) n h in sym (pure-eq-ok g) ∙ p

push_some-copied :
    (v : Value) (o : Option Value) (us vs : Items)
    → o ≡ copied v
    → us ≡ vs
    → push_some o us ≡ (if is_marked v then vs else cons (copy v) vs)
push_some-copied v o us vs a b = elim (Bool-cases (is_marked v)) [
  | inl t ↦ rw (a, b, t) refl
  | inr t ↦ rw (a, b, t) refl
]

add_field-copied :
    (k : String) (v : Value) (o : Option Value) (us fs : Fields)
    → o ≡ copied v
    → us ≡ fs
    → add_field k o us ≡ (if is_marked v then fs else field k (copy v) fs)
add_field-copied k v o us fs a b = elim (Bool-cases (is_marked v)) [
  | inl t ↦ rw (a, b, t) refl
  | inr t ↦ rw (a, b, t) refl
]

mutual
  unfolding fresh copy

  pub fresh-copied :
      (v : Value) (depth n m : ℕ) (o : Option Value) → fresh v depth n ≡ ok (o, m) → o ≡ copied v
  fresh-copied null depth n m o h = whole-copied null depth n m o refl h
  fresh-copied (bool b) depth n m o h = whole-copied (bool b) depth n m o refl h
  fresh-copied (int z) depth n m o h = whole-copied (int z) depth n m o refl h
  fresh-copied (float t) depth n m o h = whole-copied (float t) depth n m o refl h
  fresh-copied (string s) depth n m o h = whole-copied (string s) depth n m o refl h
  fresh-copied (array vs) depth n m o h =
      let (l, e, d, g) = enter-eq-ok depth _ n h in
      let (ws, k, f, i) = bind-eq-ok (fresh_items vs (suc depth)) _ l g in
      sym (pure-eq-ok i) ∙ ap (λ ws. some (array ws)) (fresh_items-copied vs (suc depth) l k ws f)
  fresh-copied (object fs) depth n m o h =
      let (l, e, d, g) = enter-eq-ok depth _ n h in
      elim (Bool-cases (is_some (get_field "$patch" fs))) [
        | inl t ↦ rw t (sym (pure-eq-ok (rw t at g)))
        | inr t ↦
            let (gs, k, f, i) = bind-eq-ok (fresh_fields fs (suc depth)) _ l (rw t at g) in
            rw t (
              sym (pure-eq-ok i)
              ∙ ap (λ gs. some (object gs)) (fresh_fields-copied fs (suc depth) l k gs f))
      ]

  fresh_items-copied :
      (vs : Items) (depth n m : ℕ) (ws : Items)
      → fresh_items vs depth n ≡ ok (ws, m)
      → ws ≡ copy_items vs
  fresh_items-copied nil depth n m ws h = sym (pure-eq-ok h)
  fresh_items-copied (cons v vs) depth n m ws h =
      let (o, l, f, g) = bind-eq-ok (fresh v depth) _ n h in
      let (us, k, f2, g2) = bind-eq-ok (fresh_items vs depth) _ l g in
      let a = fresh-copied v depth n l o f in
      let b = fresh_items-copied vs depth l k us f2 in
      sym (pure-eq-ok g2) ∙ push_some-copied v o us (copy_items vs) a b

  fresh_fields-copied :
      (fs : Fields) (depth n m : ℕ) (gs : Fields)
      → fresh_fields fs depth n ≡ ok (gs, m)
      → gs ≡ copy_fields fs
  fresh_fields-copied end depth n m gs h = sym (pure-eq-ok h)
  fresh_fields-copied (field k v fs) depth n m gs h = elim (Bool-cases (is_null v)) [
    | inl t ↦ rw t (fresh_fields-copied fs depth n m gs (rw t at h))
    | inr t ↦
        let (o, l, f, g) = bind-eq-ok (fresh v depth) _ n (rw t at h) in
        let (us, i, f2, g2) = bind-eq-ok (fresh_fields fs depth) _ l g in
        let a = fresh-copied v depth n l o f in
        let b = fresh_fields-copied fs depth l i us f2 in
        rw t (sym (pure-eq-ok g2) ∙ add_field-copied k v o us (copy_fields fs) a b)
  ]
