-- ===== src/Patch/Pruned.antt =====
-- crates/h3s-apiserver/src/patch/strategic.rs: what `fresh` copies, and what it leaves out.
use hedronetes_h3s.Prelude.{
  ℕ, suc, Bool, true, false, ◌&&◌, ◌||◌, not, ◌≡◌, refl, ap, sym, ◌∙◌, subst, inl, inr, Option,
  none, some, str_eq, arith, Bool-cases, ok, String, if◌then◌else◌,
}
use hedronetes_h3s.Json.{
  Value, null, bool, int, float, string, array, object, Items, nil, cons, Fields, end, field,
  get_field, is_null,
}
use hedronetes_h3s.Patch.Budget.{enter, ◌>>◌, pure, bind-eq-ok, enter-eq-ok, pure-eq-ok}
use hedronetes_h3s.Patch.Schema.{is_some}
use hedronetes_h3s.Patch.Copied.{is_marked, copy, fresh-copied}
use hedronetes_h3s.Patch.Merge.{fresh, fresh_fields, fresh_items, add_field, push_some}

-- At no depth does an object have a null field or a field $patch.
unfoldable mutual
  pub pruned : Value → Bool
  pruned (array vs) = pruned_items vs
  pruned (object fs) = pruned_fields fs
  pruned _ = true

  pub pruned_items : Items → Bool
  pruned_items nil = true
  pruned_items (cons v vs) = pruned v && pruned_items vs

  pub pruned_fields : Fields → Bool
  pruned_fields end = true
  pruned_fields (field k v fs) =
      not (str_eq k "$patch") && not (is_null v) && pruned v && pruned_fields fs

abbrev pub pruned_option : Option Value → Bool
pruned_option none = true
pruned_option (some v) = pruned v

-- A copied value is null only if it was.
abbrev as_null : Value → Option Value → Bool
as_null v none = true
as_null v (some w) = is_null v || not (is_null w)

without_patch :
    (k : String) (v : Value) (fs : Fields)
    → is_some (get_field "$patch" (field k v fs)) ≡ false
    → (str_eq k "$patch" ≡ false) × (is_some (get_field "$patch" fs) ≡ false)
without_patch k v fs h = elim (Bool-cases (str_eq k "$patch")) [
  | inl e ↦ absurd (let g = rw e at h in ground arith)
  | inr e ↦ (e, rw e at h)
]

push_some-pruned :
    (o : Option Value) (vs : Items)
    → pruned_option o ≡ true
    → pruned_items vs ≡ true
    → pruned_items (push_some o vs) ≡ true
unfolding pruned
push_some-pruned none vs p q = q
push_some-pruned (some v) vs p q = rw (p, q) refl

add_field-pruned :
    (k : String) (v : Value) (o : Option Value) (fs : Fields)
    → str_eq k "$patch" ≡ false
    → is_null v ≡ false
    → as_null v o ≡ true
    → pruned_option o ≡ true
    → pruned_fields fs ≡ true
    → pruned_fields (add_field k o fs) ≡ true
unfolding pruned
add_field-pruned k v none fs a b c p q = q
add_field-pruned k v (some w) fs a b c p q =
    let n : is_null w ≡ false = ground arith in rw (a, n, p, q) refl

-- What is copied as it stands
whole-as_null :
    (v : Value) (depth n m : ℕ) (o : Option Value)
    → as_null v (some v) ≡ true
    → (enter depth >> pure (some v)) n ≡ ok (o, m)
    → as_null v o ≡ true
whole-as_null v depth n m o p h =
    let (l, e, d, g) = enter-eq-ok depth (pure (some v)) n h in
    subst (λ o. as_null v o ≡ true) (pure-eq-ok g) p

whole-pruned :
    (v : Value) (depth n m : ℕ) (o : Option Value)
    → pruned v ≡ true
    → (enter depth >> pure (some v)) n ≡ ok (o, m)
    → pruned_option o ≡ true
whole-pruned v depth n m o p h =
    let (l, e, d, g) = enter-eq-ok depth (pure (some v)) n h in
    subst (λ o. pruned_option o ≡ true) (pure-eq-ok g) p

fresh-as_null :
    (v : Value) (depth n m : ℕ) (o : Option Value)
    → fresh v depth n ≡ ok (o, m)
    → as_null v o ≡ true
unfolding fresh
fresh-as_null null depth n m none h = refl
fresh-as_null null depth n m (some w) h = refl
fresh-as_null (bool b) depth n m o h = whole-as_null (bool b) depth n m o refl h
fresh-as_null (int z) depth n m o h = whole-as_null (int z) depth n m o refl h
fresh-as_null (float t) depth n m o h = whole-as_null (float t) depth n m o refl h
fresh-as_null (string s) depth n m o h = whole-as_null (string s) depth n m o refl h
fresh-as_null (array vs) depth n m o h =
    let (l, e, d, g) = enter-eq-ok depth _ n h in
    let (ws, k, f, i) = bind-eq-ok (fresh_items vs (suc depth)) _ l g in
    subst (λ o. as_null (array vs) o ≡ true) (pure-eq-ok i) refl
fresh-as_null (object fs) depth n m o h =
    let (l, e, d, g) = enter-eq-ok depth _ n h in
    elim (Bool-cases (is_some (get_field "$patch" fs))) [
      | inl t ↦ subst (λ o. as_null (object fs) o ≡ true) (pure-eq-ok (rw t at g)) refl
      | inr t ↦
          let (gs, k, f, i) = bind-eq-ok (fresh_fields fs (suc depth)) _ l (rw t at g) in
          subst (λ o. as_null (object fs) o ≡ true) (pure-eq-ok i) refl
    ]

mutual
  unfolding fresh pruned

  fresh_pruned :
      (v : Value) (depth n m : ℕ) (o : Option Value)
      → fresh v depth n ≡ ok (o, m)
      → pruned_option o ≡ true
  fresh_pruned null depth n m o h = whole-pruned null depth n m o refl h
  fresh_pruned (bool b) depth n m o h = whole-pruned (bool b) depth n m o refl h
  fresh_pruned (int z) depth n m o h = whole-pruned (int z) depth n m o refl h
  fresh_pruned (float t) depth n m o h = whole-pruned (float t) depth n m o refl h
  fresh_pruned (string s) depth n m o h = whole-pruned (string s) depth n m o refl h
  fresh_pruned (array vs) depth n m o h =
      let (l, e, d, g) = enter-eq-ok depth _ n h in
      let (ws, k, f, i) = bind-eq-ok (fresh_items vs (suc depth)) _ l g in
      ap pruned_option (sym (pure-eq-ok i)) ∙ fresh_items-pruned vs (suc depth) l k ws f
  fresh_pruned (object fs) depth n m o h =
      let (l, e, d, g) = enter-eq-ok depth _ n h in
      elim (Bool-cases (is_some (get_field "$patch" fs))) [
        | inl t ↦ ap pruned_option (sym (pure-eq-ok (rw t at g)))
        | inr t ↦
            let (gs, k, f, i) = bind-eq-ok (fresh_fields fs (suc depth)) _ l (rw t at g) in
            ap pruned_option (sym (pure-eq-ok i)) ∙ fresh_fields-pruned fs (suc depth) l k gs t f
      ]

  fresh_items-pruned :
      (vs : Items) (depth n m : ℕ) (ws : Items)
      → fresh_items vs depth n ≡ ok (ws, m)
      → pruned_items ws ≡ true
  fresh_items-pruned nil depth n m ws h = ap pruned_items (sym (pure-eq-ok h))
  fresh_items-pruned (cons v vs) depth n m ws h =
      let (o, l, f, g) = bind-eq-ok (fresh v depth) _ n h in
      let (us, k, f2, g2) = bind-eq-ok (fresh_items vs depth) _ l g in
      ap pruned_items (sym (pure-eq-ok g2))
      ∙ push_some-pruned o us (fresh_pruned v depth n l o f) (fresh_items-pruned vs depth l k us f2)

  fresh_fields-pruned :
      (fs : Fields) (depth n m : ℕ) (gs : Fields)
      → is_some (get_field "$patch" fs) ≡ false
      → fresh_fields fs depth n ≡ ok (gs, m)
      → pruned_fields gs ≡ true
  fresh_fields-pruned end depth n m gs p h = ap pruned_fields (sym (pure-eq-ok h))
  fresh_fields-pruned (field k v fs) depth n m gs p h =
      let (a, b) = without_patch k v fs p in
      elim (Bool-cases (is_null v)) [
        | inl t ↦ fresh_fields-pruned fs depth n m gs b (rw t at h)
        | inr t ↦
            let (o, l, f, g) = bind-eq-ok (fresh v depth) _ n (rw t at h) in
            let (us, i, f2, g2) = bind-eq-ok (fresh_fields fs depth) _ l g in
            ap pruned_fields (sym (pure-eq-ok g2))
            ∙ add_field-pruned k v o us a t (fresh-as_null v depth n l o f)
                (fresh_pruned v depth n l o f) (fresh_fields-pruned fs depth l i us b f2)
      ]

-- A new field is copied, in its order, without the null fields and the $patch items of its objects
-- and lists, at every depth, and with all else; if it is marked with $patch itself, nothing is left.
-- What is copied has no null field and no field $patch at any depth.
pub fresh-pruned :
    (v : Value) (depth n m : ℕ) (o : Option Value)
    → fresh v depth n ≡ ok (o, m)
    → (o ≡ (if is_marked v then none else some (copy v))) × (pruned_option o ≡ true)
fresh-pruned v depth n m o h = (fresh-copied v depth n m o h, fresh_pruned v depth n m o h)
