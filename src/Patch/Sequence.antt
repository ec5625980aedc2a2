-- ===== src/Patch/Sequence.antt =====
-- crates/h3s-apiserver/src/patch/strategic.rs: what `reorder` keeps and where it puts it.
use mathlib.Core.List.{Perm, perm_middle, append-nil}
use mathlib.Core.List.Perm
use hedronetes_h3s.Prelude.{
  ℕ, ◌+◌, length, String, List, [], ◌∷◌, ◌++◌, Bool, true, false, not, ◌≡◌, refl, ap, inl, inr,
  arith, all, keep, insert, sort, Bool-cases, IsOrder, IsSorted, sort-IsSorted, Option, none, some,
  In→all, sort→In, keep→In, ok, and-eq-true, subst,
}
use hedronetes_h3s.Json.{Value}
use hedronetes_h3s.Patch.Budget.{
  ◌>>◌, pure, lift, saturating_mul, spend-eq-ok, lift-eq-ok, pure-eq-ok,
}
use hedronetes_h3s.Patch.Schema.{check_ids}
use hedronetes_h3s.Patch.Reorder.{
  interleave, option_lt, by_position, position, is_requested, requested, untouched, stands_before,
  reorder,
}

module _ {ℓ} {A : Type ℓ} where
  insert-Perm : (lt : A → A → Bool) (x : A) (xs : List A) → Perm (insert lt x xs) (x ∷ xs)
  insert-Perm lt x [] = Perm.refl _
  insert-Perm lt x (y ∷ ys) = elim (Bool-cases (lt y x)) [
    | inl e ↦ rw e (Perm.trans (Perm.cons y (insert-Perm lt x ys)) (Perm.swap x y ys))
    | inr e ↦ rw e (Perm.refl _)
  ]

  sort-Perm : (lt : A → A → Bool) (xs : List A) → Perm (sort lt xs) xs
  sort-Perm lt [] = Perm.refl _
  sort-Perm lt (x ∷ xs) = Perm.trans (insert-Perm lt x (sort lt xs)) (Perm.cons x (sort-Perm lt xs))

  interleave-Perm :
      (before : A → A → Bool) (xs ys : List A) → Perm (interleave before xs ys) (xs ++ ys)
  interleave-Perm before [] ys = Perm.refl _
  interleave-Perm before (x ∷ xs) [] = rw (append-nil xs) (Perm.refl _)
  interleave-Perm before (x ∷ xs) (y ∷ ys) = elim (Bool-cases (before x y)) [
    | inl e ↦ rw (interleave, e) (Perm.cons x (interleave-Perm before xs (y ∷ ys)))
    | inr e ↦
        rw (interleave, e)
          (Perm.trans (Perm.cons y (interleave-Perm before (x ∷ xs) ys))
            (Perm.symm (perm_middle {a = y} (x ∷ xs) ys)))
  ]

  keep-Perm :
      (test : A → Bool) (xs : List A) → Perm (keep (λ x. not (test x)) xs ++ keep test xs) xs
  keep-Perm test [] = Perm.refl _
  keep-Perm test (x ∷ xs) = elim (Bool-cases (test x)) [
    | inl e ↦ rw (e) (
        Perm.trans (perm_middle {a = x} (keep (λ x. not (test x)) xs) (keep test xs))
          (Perm.cons x (keep-Perm test xs)))
    | inr e ↦ rw (e) (Perm.cons x (keep-Perm test xs))
  ]

  keep-none :
      (test : A → Bool) (xs : List A) → all (λ x. not (test x)) xs ≡ true → keep test xs ≡ []
  keep-none test [] f = refl
  keep-none test (x ∷ xs) f =
      let (p, q) = and-eq-true (not (test x)) _ f in
      let n : test x ≡ false = ground arith in rw n (keep-none test xs q)

  -- Sublists of two kinds, brought together, are found again.
  keep-interleave :
      (test : A → Bool) (before : A → A → Bool) (xs ys : List A)
      → all (λ x. not (test x)) xs ≡ true
      → all test ys ≡ true
      → keep test (interleave before xs ys) ≡ ys
  keep-interleave test before [] [] f g = refl
  keep-interleave test before [] (y ∷ ys) f g =
      let (p, q) = and-eq-true (test y) _ g in
      rw p (ap (◌∷◌ y) (keep-interleave test before [] ys f q))
  keep-interleave test before (x ∷ xs) [] f g =
      let (p, q) = and-eq-true (not (test x)) _ f in
      let n : test x ≡ false = ground arith in rw n (keep-none test xs q)
  keep-interleave test before (x ∷ xs) (y ∷ ys) f g = elim (Bool-cases (before x y)) [
    | inl e ↦
        let (p, q) = and-eq-true (not (test x)) _ f in
        let n : test x ≡ false = ground arith in
        rw (interleave, e, n) (keep-interleave test before xs (y ∷ ys) q g)
    | inr e ↦
        let (p, q) = and-eq-true (test y) _ g in
        rw (interleave, e, p) (ap (◌∷◌ y) (keep-interleave test before (x ∷ xs) ys f q))
  ]

  all-double_not :
      (test : A → Bool) (xs : List A) → all test xs ≡ true → all (λ x. not (not (test x))) xs ≡ true
  all-double_not test [] h = refl
  all-double_not test (x ∷ xs) h =
      let (p, q) = and-eq-true (test x) _ h in rw p (all-double_not test xs q)

  keep_whole : (test : A → Bool) (xs : List A) → all test xs ≡ true → keep test xs ≡ xs
  keep_whole test [] h = refl
  keep_whole test (x ∷ xs) h =
      let (p, q) = and-eq-true (test x) _ h in rw p (ap (◌∷◌ x) (keep_whole test xs q))

  keep-interleave_left :
      (test : A → Bool) (before : A → A → Bool) (xs ys : List A)
      → all (λ x. not (test x)) xs ≡ true
      → all test ys ≡ true
      → keep (λ x. not (test x)) (interleave before xs ys) ≡ xs
  keep-interleave_left test before [] ys f g =
      keep-none (λ x. not (test x)) ys (all-double_not test ys g)
  keep-interleave_left test before (x ∷ xs) [] f g = keep_whole (λ x. not (test x)) (x ∷ xs) f
  keep-interleave_left test before (x ∷ xs) (y ∷ ys) f g = elim (Bool-cases (before x y)) [
    | inl e ↦
        let (p, q) = and-eq-true (not (test x)) _ f in
        let n : test x ≡ false = ground arith in
        rw (interleave, e, n) (ap (◌∷◌ x) (keep-interleave_left test before xs (y ∷ ys) q g))
    | inr e ↦
        let (p, q) = and-eq-true (test y) _ g in
        rw (interleave, e, p) (keep-interleave_left test before (x ∷ xs) ys f q)
  ]

lt_asym : (a b : Option ℕ) → option_lt a b ≡ true → option_lt b a ≡ false
lt_asym none none h = ground arith
lt_asym none (some j) h = ground arith
lt_asym (some i) none h = ground arith
lt_asym (some i) (some j) h = ground arith

lt_trans :
    (a b c : Option ℕ) → option_lt b a ≡ false → option_lt c b ≡ false → option_lt c a ≡ false
lt_trans none none none h g = refl
lt_trans none (some j) c h g = ground arith
lt_trans none none (some k) h g = ground arith
lt_trans (some i) none c h g = ground arith
lt_trans (some i) (some j) none h g = ground arith
lt_trans (some i) (some j) (some k) h g = ground arith

by_position-IsOrder : (key : Option String) (list : List Value) → IsOrder (by_position key list)
by_position-IsOrder key list = record {
  asym = λ a b. lt_asym (position key list a) (position key list b);
  trans = λ a b c. lt_trans (position key list a) (position key list b) (position key list c);
}

reorder-eq :
    (values order old : List Value) (key : Option String) (n m : ℕ) (r : List Value)
    → reorder values order old key n ≡ ok (r, m)
    → interleave
        (stands_before key old)
        (untouched key order old values)
        (requested key order values)
      ≡ r
unfolding reorder
reorder-eq values order old key n m r h =
    let amount = saturating_mul (length values + length order) (length old + length order + 1) in
    let ids = check_ids key (values ++ order ++ old) in
    let result =
      interleave (stands_before key old) (untouched key order old values)
        (requested key order values) in
    let (k, e, g) = spend-eq-ok amount (lift ids >> pure result) n h in
    let (a, f, i) = lift-eq-ok ids (λ _. pure result) k g in pure-eq-ok i

module _ (values order old : List Value) (key : Option String) where
  requested_named : all (is_requested key order) (requested key order values) ≡ true
  requested_named = In→all (is_requested key order) (requested key order values) (λ a m.
      (keep→In (is_requested key order) values a
        (sort→In (by_position key order) (keep (is_requested key order) values) a m)).1)

  untouched_rest : all (λ v. not (is_requested key order v)) (untouched key order old values) ≡ true
  untouched_rest =
      let rest : Value → Bool = λ v. not (is_requested key order v) in
      In→all rest (untouched key order old values)
        (λ a m. (keep→In rest values a (sort→In (by_position key old) (keep rest values) a m)).1)

  -- Reordering a list only moves its values: the result is a permutation of them, in which those
  -- that the order names stand in the requested order, and the others in the order that they have
  -- on the server.
  pub reorder-IsSorted :
      (n m : ℕ) (r : List Value)
      → reorder values order old key n ≡ ok (r, m)
      → Perm r values
        × IsSorted (by_position key order) (keep (is_requested key order) r)
        × IsSorted (by_position key old) (keep (λ v. not (is_requested key order v)) r)
  reorder-IsSorted n m r h =
      let before = stands_before key old in
      let named = keep (is_requested key order) values in
      let others = keep (λ v. not (is_requested key order v)) values in
      let u = untouched key order old values in
      let q = requested key order values in
      subst
        (λ r.
          Perm r values
          × IsSorted (by_position key order) (keep (is_requested key order) r)
          × IsSorted (by_position key old) (keep (λ v. not (is_requested key order v)) r))
        (reorder-eq values order old key n m r h)
        (
          Perm.trans (interleave-Perm before u q) (
              Perm.trans
                (Perm.append {l₂ = others} {t₂ = named} (sort-Perm (by_position key old) others)
                  (sort-Perm (by_position key order) named))
                (keep-Perm (is_requested key order) values)),
          rw (keep-interleave (is_requested key order) before u q untouched_rest requested_named)
              (sort-IsSorted (by_position key order) (by_position-IsOrder key order) named),
          rw
              (keep-interleave_left (is_requested key order) before u q untouched_rest
                requested_named)
              (sort-IsSorted (by_position key old) (by_position-IsOrder key old) others),
        )
