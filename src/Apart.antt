-- ===== src/Apart.antt =====
-- Lists whose elements are pairwise different by a test, as crates/h3s-proxy/src/plan.rs and
-- crates/h3s-storage/src/sqlite.rs need them.
use hedronetes_h3s.Prelude.{
  suc, List, [], ◌∷◌, ◌++◌, Bool, false, ◌≡◌, refl, ap, ◌∙◌, subst, inl, inr, any, arith, length,
  sort, insert, insert→In, sort→In, In, here, there, In-uncons, snoc→In, In→any, Bool-cases,
}

module _ {ℓ} {A : Type ℓ} (same : A → A → Bool) where
  -- No element is the same as one that stands after it.
  abbrev pub Apart : List A → Type ℓ
  Apart [] = Unit
  Apart (x ∷ xs) = ((y : A) → In y xs → same x y ≡ false) × Apart xs

  pub Apart-snoc :
      (xs : List A) (x : A)
      → Apart xs
      → ((y : A) → In y xs → same y x ≡ false)
      → Apart (xs ++ x ∷ [])
  Apart-snoc [] x p f = (λ y m. elim m [ ], tt)
  Apart-snoc (z ∷ zs) x p f = (
    λ y m. elim (snoc→In x zs y m) [
      | inl n ↦ p.0 y n
      | inr e ↦ subst (λ w. same z w ≡ false) e (f z (here refl))
    ],
    Apart-snoc zs x p.1 (λ y m. f y (there m)),
  )

  module _ (symmetric : (a b : A) → same a b ≡ same b a) (lt : A → A → Bool) where
    Apart-insert :
        (x : A) (xs : List A)
        → Apart xs
        → ((y : A) → In y xs → same x y ≡ false)
        → Apart (insert lt x xs)
    Apart-insert x [] p f = (λ y m. elim m [ ], tt)
    Apart-insert x (z ∷ zs) p f = elim (Bool-cases (lt z x)) [
      | inl e ↦ rw e (
        λ y m. elim (In-uncons (insert→In lt x zs y m)) [
          | inl q ↦ subst (λ w. same z w ≡ false) q (symmetric z x ∙ f z (here refl))
          | inr q ↦ p.0 y q
        ],
        Apart-insert x zs p.1 (λ y m. f y (there m)),
      )
      | inr e ↦ rw e (f, p)
    ]

    pub Apart-sort : (xs : List A) → Apart xs → Apart (sort lt xs)
    Apart-sort [] p = tt
    Apart-sort (x ∷ xs) p =
        Apart-insert x (sort lt xs) (Apart-sort xs p.1) (λ y m. p.0 y (sort→In lt xs y m))

length-insert {ℓ} :
    {A : Type ℓ} (lt : A → A → Bool) (x : A) (xs : List A)
    → length (insert lt x xs) ≡ suc (length xs)
length-insert lt x [] = refl
length-insert lt x (y ∷ ys) = elim (Bool-cases (lt y x)) [
  | inl e ↦ rw e (ap suc (length-insert lt x ys))
  | inr e ↦ rw e refl
]

pub length-sort {ℓ} :
    {A : Type ℓ} (lt : A → A → Bool) (xs : List A) → length (sort lt xs) ≡ length xs
length-sort lt [] = refl
length-sort lt (x ∷ xs) = length-insert lt x (sort lt xs) ∙ ap suc (length-sort lt xs)

pub not_any {ℓ} :
    {A : Type ℓ} (test : A → Bool) (xs : List A) (a : A)
    → any test xs ≡ false
    → In a xs
    → test a ≡ false
not_any test xs a h m = elim (Bool-cases (test a)) [
  | inl e ↦ absurd (let g = In→any test a xs m e in ground arith)
  | inr e ↦ e
]
