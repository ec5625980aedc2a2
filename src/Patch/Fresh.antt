-- ===== src/Patch/Fresh.antt =====
-- crates/h3s-apiserver/src/patch/strategic.rs: what `fresh` costs, and when it gives a value.
use hedronetes_h3s.Prelude.{
  ℕ, suc, ◌+◌, ◌-◌, ◌≤◌, ◌≡◌, refl, true, false, inl, inr, Option, none, some, ltb, leb, arith,
  Bool-cases, ok,
}
use hedronetes_h3s.Json.{
  Value, null, bool, int, float, string, array, object, Items, nil, cons, Fields, end, field,
  get_field, is_null,
}
use hedronetes_h3s.Patch.Budget.{R, Work, ◌>>=◌, ◌>>◌, pure, enter}
use hedronetes_h3s.Patch.Schema.{is_some}
use hedronetes_h3s.Patch.Merge.{fresh, fresh_fields, fresh_items, add_field, push_some}
use hedronetes_h3s.Patch.Measure.{
  size, size_items, size_fields, nesting, nesting_items, nesting_fields,
}

-- The work gives a value, and costs at most `cost`.
abbrev Pays {ℓ} : {A : Type ℓ} → R (A × ℕ) → ℕ → ℕ → Type ℓ
Pays {A = A} outcome cost n = (a : A) × (m : ℕ) × (outcome ≡ ok (a, m)) × (n ≤ m + cost)

module _ {ℓ κ} {A : Type ℓ} {B : Type κ} where
  bind-Pays :
      (work : Work A) (continue : A → Work B) (c d n : ℕ)
      → Pays (work n) c n
      → ((a : A) (m : ℕ) → n ≤ m + c → Pays (continue a m) d m)
      → Pays ((work >>= continue) n) (c + d) n
  bind-Pays work continue c d n (a, m, e, p) next =
      let (b, l, f, q) = next a m p in (b, l, rw e f, omega arith)

module _ {ℓ} {A : Type ℓ} where
  enter-Pays :
      (depth : ℕ) (rest : Work A) (c n : ℕ)
      → depth ≤ 64
      → 1 ≤ n
      → Pays (rest (n - 1)) c (n - 1)
      → Pays ((enter depth >> rest) n) (suc c) n
  enter-Pays depth rest c n d h (a, m, e, p) =
      let f : leb 1 n ≡ true = ground arith in
      let g : ltb 64 depth ≡ false = ground arith in (a, m, rw (f, g) e, omega arith)

  loosen : {r : R (A × ℕ)} {c d n : ℕ} → Pays r c n → c ≤ d → Pays r d n
  loosen (a, m, e, p) h = (a, m, e, omega arith)

  pure-Pays : (a : A) (n : ℕ) → Pays (pure a n) 0 n
  pure-Pays a n = (a, n, refl, omega arith)

mutual
  unfolding fresh size nesting

  fresh_paid :
      (v : Value) (depth n : ℕ)
      → depth + nesting v ≤ 64
      → size v ≤ n
      → Pays (fresh v depth n) (size v) n
  fresh_paid null depth n d h = enter-Pays depth _ 0 n (omega arith) h (pure-Pays _ (n - 1))
  fresh_paid (bool b) depth n d h = enter-Pays depth _ 0 n (omega arith) h (pure-Pays _ (n - 1))
  fresh_paid (int z) depth n d h = enter-Pays depth _ 0 n (omega arith) h (pure-Pays _ (n - 1))
  fresh_paid (float t) depth n d h = enter-Pays depth _ 0 n (omega arith) h (pure-Pays _ (n - 1))
  fresh_paid (string s) depth n d h = enter-Pays depth _ 0 n (omega arith) h (pure-Pays _ (n - 1))
  fresh_paid (array vs) depth n d h =
      let items =
        bind-Pays (fresh_items vs (suc depth)) (λ ws. pure (some (array ws))) (size_items vs) 0
          (n - 1) (fresh_items-paid vs (suc depth) (n - 1) (omega arith) (omega arith))
          (λ ws m _. pure-Pays (some (array ws)) m) in
      enter-Pays depth _ (size_items vs) n (omega arith) (omega arith) (loosen items (omega arith))
  fresh_paid (object fs) depth n d h = elim (Bool-cases (is_some (get_field "$patch" fs))) [
    | inl e ↦
        let (a, m, f, p) =
          enter-Pays depth (pure none) 0 n (omega arith) (omega arith) (pure-Pays none (n - 1)) in
        (a, m, rw e f, omega arith)
    | inr e ↦
        let items =
          bind-Pays (fresh_fields fs (suc depth)) (λ gs. pure (some (object gs))) (size_fields fs) 0
            (n - 1) (fresh_fields-paid fs (suc depth) (n - 1) (omega arith) (omega arith))
            (λ gs m _. pure-Pays (some (object gs)) m) in
        let (a, m, f, p) =
          enter-Pays depth (fresh_fields fs (suc depth) >>= λ gs. pure (some (object gs)))
            (size_fields fs) n (omega arith) (omega arith) (loosen items (omega arith)) in
        (a, m, rw e f, p)
  ]

  fresh_items-paid :
      (vs : Items) (depth n : ℕ)
      → depth + nesting_items vs ≤ 64
      → size_items vs ≤ n
      → Pays (fresh_items vs depth n) (size_items vs) n
  fresh_items-paid nil depth n d h = pure-Pays _ n
  fresh_items-paid (cons v vs) depth n d h =
      bind-Pays (fresh v depth) _ (size v) (size_items vs) n
        (fresh_paid v depth n (omega arith) (omega arith))
        λ w m p.
          loosen
            (bind-Pays (fresh_items vs depth) (λ ws. pure (push_some w ws)) (size_items vs) 0 m
              (fresh_items-paid vs depth m (omega arith) (omega arith))
              (λ ws l _. pure-Pays (push_some w ws) l))
            (omega arith)

  fresh_fields-paid :
      (fs : Fields) (depth n : ℕ)
      → depth + nesting_fields fs ≤ 64
      → size_fields fs ≤ n
      → Pays (fresh_fields fs depth n) (size_fields fs) n
  fresh_fields-paid end depth n d h = pure-Pays _ n
  fresh_fields-paid (field k v fs) depth n d h = elim (Bool-cases (is_null v)) [
    | inl e ↦
        let (a, m, f, p) = fresh_fields-paid fs depth n (omega arith) (omega arith) in
        (a, m, rw e f, omega arith)
    | inr e ↦
        let (a, m, f, p) =
          bind-Pays (fresh v depth) (λ w. fresh_fields fs depth >>= λ gs. pure (add_field k w gs))
            (size v) (size_fields fs) n (fresh_paid v depth n (omega arith) (omega arith))
            (λ w m p.
              loosen
                (bind-Pays (fresh_fields fs depth) (λ gs. pure (add_field k w gs)) (size_fields fs)
                  0 m (fresh_fields-paid fs depth m (omega arith) (omega arith))
                  (λ gs l _. pure-Pays (add_field k w gs) l))
                (omega arith)) in
        (a, m, rw e f, p)
  ]

-- Copying a new field ends with a value whenever the budget covers the nodes of the field and its
-- nesting stays within 64 levels, and it spends at most one unit for each node.
pub fresh-size :
    (v : Value) (depth n : ℕ)
    → depth + nesting v ≤ 64
    → size v ≤ n
    → (o : Option Value) × (m : ℕ) × (fresh v depth n ≡ ok (o, m)) × (n ≤ m + size v)
fresh-size v depth n d h = fresh_paid v depth n d h
