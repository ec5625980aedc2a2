-- ===== src/Prelude/Lists.antt =====
-- Lists measured by native numbers, and the iterator adaptors that the source uses
-- (`any`, `all`, `find`, `filter_map`, `position`), under names of their own.
use Prim.Native.Nat.{ℕ, suc, ◌+◌}
use mathlib.Core.Path.{◌≡◌, refl, ap, sym, ◌∙◌}
use mathlib.Core.Logic.{◌⊎◌, inl, inr}
use mathlib.Core.Bool.{Bool, true, false, ◌&&◌, ◌||◌}
use mathlib.Core.Option.{Option, none, some}
use mathlib.Core.List.{List, [], ◌∷◌, ◌++◌}
use native.Mathlib.Omega.{arith}
use hedronetes_h3s.Prelude.Tests.{if◌then◌else◌, Bool-cases, Option-cases, and-eq-true, or-eq-true}

module _ {ℓ} {A : Type ℓ} where
  abbrev pub length : List A → ℕ
  length [] = 0
  length (x ∷ xs) = suc (length xs)

  pub length-append : (xs ys : List A) → length (xs ++ ys) ≡ length xs + length ys
  length-append [] ys = omega arith
  length-append (x ∷ xs) ys = omega (arith, length-append xs ys)

  -- Membership with its position kept, so that a proof can take it apart.
  pub data In (a : A) : List A → Type ℓ where
    here : {x : A} {xs : List A} → x ≡ a → In a (x ∷ xs)
    there : {x : A} {xs : List A} → In a xs → In a (x ∷ xs)

  pub In-uncons : {a x : A} {xs : List A} → In a (x ∷ xs) → (x ≡ a) ⊎ In a xs
  In-uncons (here e) = inl e
  In-uncons (there m) = inr m

  abbrev pub is_empty : List A → Bool
  is_empty [] = true
  is_empty (x ∷ xs) = false

module _ {ℓ} {A : Type ℓ} (test : A → Bool) where
  abbrev pub any : List A → Bool
  any [] = false
  any (x ∷ xs) = test x || any xs

  abbrev pub all : List A → Bool
  all [] = true
  all (x ∷ xs) = test x && all xs

  abbrev pub find : List A → Option A
  find [] = none
  find (x ∷ xs) = if test x then some x else find xs

  -- `Iterator::filter` by a Boolean test.
  abbrev pub keep : List A → List A
  keep [] = []
  keep (x ∷ xs) = let rest = keep xs in if test x then x ∷ rest else rest

  pub any→In : (xs : List A) → any xs ≡ true → (a : A) × In a xs × (test a ≡ true)
  any→In [] h = absurd (ground arith)
  any→In (x ∷ xs) h = elim (or-eq-true _ _ h) [
    | inl e ↦ (x, here refl, e)
    | inr e ↦ let r = any→In xs e in (r.0, there r.1, r.2)
  ]

  pub In→any : (a : A) (xs : List A) → In a xs → test a ≡ true → any xs ≡ true
  In→any a [] m t = elim m [ ]
  In→any a (x ∷ xs) (here e) t = let s : test x ≡ true = ap test e ∙ t in ground arith
  In→any a (x ∷ xs) (there m) t = let s = In→any a xs m t in ground arith

  pub all→In : (xs : List A) → all xs ≡ true → (a : A) → In a xs → test a ≡ true
  all→In [] h a m = elim m [ ]
  all→In (x ∷ xs) h a (here e) = sym (ap test e) ∙ (and-eq-true _ _ h).0
  all→In (x ∷ xs) h a (there m) = all→In xs (and-eq-true _ _ h).1 a m

  pub In→all : (xs : List A) → ((a : A) → In a xs → test a ≡ true) → all xs ≡ true
  In→all [] f = refl
  In→all (x ∷ xs) f =
      let p = f x (here refl) in let q = In→all xs (λ a m. f a (there m)) in ground arith

  pub find→In : (xs : List A) (a : A) → find xs ≡ some a → In a xs × (test a ≡ true)
  find→In [] a h = absurd (ground arith)
  find→In (x ∷ xs) a h = elim (Bool-cases (test x)) [
    | inl e ↦ let p : x ≡ a = ground arith in (here p, sym (ap test p) ∙ e)
    | inr e ↦ let q : find xs ≡ some a = ground arith in let r = find→In xs a q in (there r.0, r.1)
  ]

  pub find→none : (xs : List A) (a : A) → find xs ≡ none → In a xs → test a ≡ false
  find→none [] a h m = elim m [ ]
  find→none (x ∷ xs) a h m = elim (Bool-cases (test x)) [
    | inl e ↦ absurd (ground arith)
    | inr e ↦ elim (In-uncons m) [
      | inl p ↦ sym (ap test p) ∙ e
      | inr q ↦ find→none xs a (rw e at h) q
    ]
  ]

module _ {ℓ κ} {A : Type ℓ} {B : Type κ} (f : A → Option B) where
  abbrev prepend : Option B → List B → List B
  prepend none ys = ys
  prepend (some y) ys = y ∷ ys

  abbrev pub filter_map : List A → List B
  filter_map [] = []
  filter_map (x ∷ xs) = prepend (f x) (filter_map xs)

  pub In→filter_map : (xs : List A) (a : A) (b : B) → In a xs → f a ≡ some b → In b (filter_map xs)
  In→filter_map [] a b m e = elim m [ ]
  In→filter_map (x ∷ xs) a b (here p) e = rw (ap f p ∙ e) (here refl)
  In→filter_map (x ∷ xs) a b (there m) e = elim (Option-cases (f x)) [
    | inl n ↦ rw n (In→filter_map xs a b m e)
    | inr (y, n) ↦ rw n (there (In→filter_map xs a b m e))
  ]

  pub filter_map→In :
      (xs : List A) (b : B) → In b (filter_map xs) → (a : A) × In a xs × (f a ≡ some b)
  filter_map→In [] b m = elim m [ ]
  filter_map→In (x ∷ xs) b m = elim (Option-cases (f x)) [
    | inl n ↦ let (a, k, e) = filter_map→In xs b (rw n at m) in (a, there k, e)
    | inr (y, n) ↦ elim (In-uncons (rw n at m)) [
      | inl p ↦ (x, here refl, n ∙ ap some p)
      | inr q ↦ let (a, k, e) = filter_map→In xs b q in (a, there k, e)
    ]
  ]

module _ {ℓ} {A : Type ℓ} (test : A → Bool) where
  pub In→keep : (xs : List A) (a : A) → In a xs → test a ≡ true → In a (keep test xs)
  In→keep [] a m t = elim m [ ]
  In→keep (x ∷ xs) a (here e) t = let s : test x ≡ true = ap test e ∙ t in rw s (here e)
  In→keep (x ∷ xs) a (there m) t = elim (Bool-cases (test x)) [
    | inl e ↦ rw e (there (In→keep xs a m t))
    | inr e ↦ rw e (In→keep xs a m t)
  ]

  pub keep→In : (xs : List A) (a : A) → In a (keep test xs) → In a xs × (test a ≡ true)
  keep→In [] a m = elim m [ ]
  keep→In (x ∷ xs) a m = elim (Bool-cases (test x)) [
    | inl e ↦ elim (In-uncons (rw e at m)) [
      | inl p ↦ (here p, sym (ap test p) ∙ e)
      | inr q ↦ let r = keep→In xs a q in (there r.0, r.1)
    ]
    | inr e ↦ let r = keep→In xs a (rw e at m) in (there r.0, r.1)
  ]

  -- Dropping elements keeps the first match, if the first match is kept.
  pub find-keep :
      (match : A → Bool) (xs : List A)
      → ((a : A) → find match xs ≡ some a → test a ≡ true)
      → find match (keep test xs) ≡ find match xs
  find-keep match [] h = refl
  find-keep match (x ∷ xs) h = elim (Bool-cases (match x)) [
    | inl e ↦ let k : test x ≡ true = h x (rw e) in rw (k, e)
    | inr e ↦
        let ih = find-keep match xs (λ a p. h a (rw e p)) in
        elim (Bool-cases (test x)) [ inl k ↦ rw (k, e) ih | inr k ↦ rw (k, e) ih ]
  ]

module _ {ℓ} {A : Type ℓ} where
  -- Tests that agree on the elements of a list find the same one.
  pub find-congr :
      (t u : A → Bool) (xs : List A) → ((a : A) → In a xs → t a ≡ u a) → find t xs ≡ find u xs
  find-congr t u [] h = refl
  find-congr t u (x ∷ xs) h =
      let ih = find-congr t u xs (λ a m. h a (there m)) in rw (h x (here refl), ih)

  -- Membership in a list with one more element at its end.
  pub snoc→In : (x : A) (ys : List A) (y : A) → In y (ys ++ x ∷ []) → In y ys ⊎ (x ≡ y)
  snoc→In x [] y m = elim (In-uncons m) [ inl e ↦ inr e | inr n ↦ elim n [ ] ]
  snoc→In x (w ∷ ws) y m = elim (In-uncons m) [
    | inl e ↦ inl (here e)
    | inr n ↦ elim (snoc→In x ws y n) [ inl k ↦ inl (there k) | inr e ↦ inr e ]
  ]
