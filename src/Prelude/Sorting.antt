-- ===== src/Prelude/Sorting.antt =====
-- Stable sorting by a strict order, as `sort`, `sort_by_key` and SQL's `ORDER BY` do it, and what
-- its result holds.
use mathlib.Core.Path.{◌≡◌, ap, sym, ◌∙◌}
use mathlib.Core.Logic.{inl, inr}
use mathlib.Core.Bool.{Bool, true, false}
use mathlib.Core.List.{List, [], ◌∷◌}
use hedronetes_h3s.Prelude.Tests.{if◌then◌else◌, Bool-cases}
use hedronetes_h3s.Prelude.Lists.{In, here, there, In-uncons}

-- What a comparison must satisfy: it is a strict weak order.
pub record IsOrder {ℓ} {A : Type ℓ} (lt : A → A → Bool) : Type ℓ where
  pub asym : (a b : A) → lt a b ≡ true → lt b a ≡ false
  pub trans : (a b c : A) → lt b a ≡ false → lt c b ≡ false → lt c a ≡ false

module _ {ℓ} {A : Type ℓ} (lt : A → A → Bool) where
  abbrev pub insert : A → List A → List A
  insert x [] = x ∷ []
  insert x (y ∷ ys) = if lt y x then y ∷ insert x ys else x ∷ y ∷ ys

  abbrev pub sort : List A → List A
  sort [] = []
  sort (x ∷ xs) = insert x (sort xs)

  -- No element comes after one that is greater.
  abbrev pub IsSorted : List A → Type ℓ
  IsSorted [] = Unit
  IsSorted (x ∷ xs) = ((y : A) → In y xs → lt y x ≡ false) × IsSorted xs

  pub In→insert : (x : A) (xs : List A) (a : A) → In a (x ∷ xs) → In a (insert x xs)
  In→insert x [] a m = m
  In→insert x (y ∷ ys) a m = elim (Bool-cases (lt y x)) [
    | inl e ↦ rw e (elim (In-uncons m) [
      | inl p ↦ there (In→insert x ys a (here p))
      | inr q ↦ elim (In-uncons q) [ inl p ↦ here p | inr r ↦ there (In→insert x ys a (there r)) ]
    ])
    | inr e ↦ rw e m
  ]

  pub insert→In : (x : A) (xs : List A) (a : A) → In a (insert x xs) → In a (x ∷ xs)
  insert→In x [] a m = m
  insert→In x (y ∷ ys) a m = elim (Bool-cases (lt y x)) [
    | inl e ↦ elim (In-uncons (rw e at m)) [
      | inl p ↦ there (here p)
      | inr q ↦ elim (In-uncons (insert→In x ys a q)) [ inl p ↦ here p | inr r ↦ there (there r) ]
    ]
    | inr e ↦ rw e at m
  ]

  pub In→sort : (xs : List A) (a : A) → In a xs → In a (sort xs)
  In→sort [] a m = m
  In→sort (x ∷ xs) a m = elim (In-uncons m) [
    | inl p ↦ In→insert x (sort xs) a (here p)
    | inr q ↦ In→insert x (sort xs) a (there (In→sort xs a q))
  ]

  pub sort→In : (xs : List A) (a : A) → In a (sort xs) → In a xs
  sort→In [] a m = m
  sort→In (x ∷ xs) a m = elim (In-uncons (insert→In x (sort xs) a m)) [
    | inl p ↦ here p
    | inr q ↦ there (sort→In xs a q)
  ]

module _ {ℓ} {A : Type ℓ} (lt : A → A → Bool) (order : IsOrder lt) where
  pub order_refl : (a : A) → lt a a ≡ false
  order_refl a = elim (Bool-cases (lt a a)) [ inl e ↦ order.asym a a e | inr e ↦ e ]

  insert-IsSorted : (x : A) (xs : List A) → IsSorted lt xs → IsSorted lt (insert lt x xs)
  insert-IsSorted x [] s = (λ y m. elim m [ ], tt)
  insert-IsSorted x (y ∷ ys) s = elim (Bool-cases (lt y x)) [
    | inl e ↦ rw e (
      λ z m. elim (In-uncons (insert→In lt x ys z m)) [
        | inl p ↦ ap (λ t. lt t y) (sym p) ∙ order.asym y x e
        | inr q ↦ s.0 z q
      ],
      insert-IsSorted x ys s.1,
    )
    | inr e ↦ rw e (
      λ z m. elim (In-uncons m) [
        | inl p ↦ ap (λ t. lt t x) (sym p) ∙ e
        | inr q ↦ order.trans x y z e (s.0 z q)
      ],
      s,
    )
  ]

  pub sort-IsSorted : (xs : List A) → IsSorted lt (sort lt xs)
  sort-IsSorted [] = tt
  sort-IsSorted (x ∷ xs) = insert-IsSorted x (sort lt xs) (sort-IsSorted xs)
