-- ===== src/Prelude/Results.antt =====
-- Rust's `Result`, with its `?` as a bind.
use mathlib.Core.Path.{◌≡◌, refl, subst}
use mathlib.Core.Option.{Option, none, some}
use mathlib.Core.List.{List, [], ◌∷◌}
use hedronetes_h3s.Prelude.Lists.{In, here, there}

pub data Result {ℓ κ} (E : Type ℓ) (A : Type κ) : Type (ℓ ⊔ κ) where
  ok : A → Result E A
  err : E → Result E A

-- What `?` does with a result.
module _ {ℓ κ μ} {E : Type ℓ} {A : Type κ} {B : Type μ} where
  infixl 5 ◌>>=◌
  abbrev pub ◌>>=◌ : Result E A → (A → Result E B) → Result E B
  r >>= continue = elim r [ err failure ↦ err failure | ok value ↦ continue value ]

  -- A chain that succeeds went through its first step.
  pub >>=-eq-ok :
      (r : Result E A) (continue : A → Result E B) {b : B}
      → (r >>= continue) ≡ ok b
      → (value : A) × (r ≡ ok value) × (continue value ≡ ok b)
  >>=-eq-ok (err failure) continue h = cc
  >>=-eq-ok (ok value) continue h = (value, refl, h)

module _ {ℓ κ} {E : Type ℓ} {B : Type κ} where
  infixl 5 ◌>>◌
  abbrev pub ◌>>◌ : Result E (Unit {0}) → Result E B → Result E B
  check >> rest = check >>= λ _. rest

-- `ok_or`
abbrev pub ok_or {ℓ κ} : {E : Type ℓ} {A : Type κ} → Option A → E → Result E A
ok_or none e = err e
ok_or (some a) e = ok a

-- `.collect::<Result<Vec<_>, _>>()` over mapped items: the first error ends it.
abbrev pub collect {ℓ κ μ} :
    {E : Type ℓ} {A : Type κ} {B : Type μ} → (A → Result E B) → List A → Result E (List B)
collect f [] = ok []
collect f (x ∷ xs) = f x >>= λ y. collect f xs >>= λ ys. ok (y ∷ ys)

-- Two successful results of one computation are the same.
pub ok-injective {ℓ κ} :
    {E : Type ℓ} {A : Type κ} {a b : A} → ◌≡◌ {A = Result E A} (ok a) (ok b) → a ≡ b
ok-injective h = cc

-- The value of a successful result, `a` for an error.
abbrev pub value_or {ℓ κ} : {E : Type ℓ} {A : Type κ} → A → Result E A → A
value_or a (ok b) = b
value_or a (err e) = a

-- Two lists are matched one to one by a function that may fail.
pub data Each {ℓ κ μ} {E : Type ℓ} {A : Type κ} {B : Type μ} (f : A → Result E B)
    : List A → List B → Type (ℓ ⊔ κ ⊔ μ) where
  done : Each f [] []
  match :
      {x : A} {y : B} {xs : List A} {ys : List B}
      → f x ≡ ok y
      → Each f xs ys
      → Each f (x ∷ xs) (y ∷ ys)

pub collect-Each {ℓ κ μ} :
    {E : Type ℓ} {A : Type κ} {B : Type μ} (f : A → Result E B) (xs : List A) (ys : List B)
    → collect f xs ≡ ok ys
    → Each f xs ys
collect-Each f [] [] h = done
collect-Each f [] (y ∷ ys) h = absurd (cc)
collect-Each f (x ∷ xs) ys h =
    let (y, e, h1) = >>=-eq-ok (f x) (λ z. collect f xs >>= λ zs. ok (z ∷ zs)) h in
    let (zs, e2, h2) = >>=-eq-ok (collect f xs) (λ zs. ok (y ∷ zs)) h1 in
    subst (Each f (x ∷ xs)) (ok-injective h2) (match e (collect-Each f xs zs e2))

-- A loop whose body may end it with an error.
module _ {ℓ κ μ} {E : Type ℓ} {A : Type κ} {S : Type μ} (body : A → S → Result E S) where
  abbrev pub for_each : List A → S → Result E S
  for_each [] s = ok s
  for_each (x ∷ xs) s = body x s >>= for_each xs

  pub for_each-inv {ν} :
      (P : S → Type ν) (xs : List A)
      → ((x : A) (s t : S) → In x xs → P s → body x s ≡ ok t → P t)
      → (s t : S) → P s
      → for_each xs s ≡ ok t
      → P t
  for_each-inv P [] keep s t p h = subst P (ok-injective h) p
  for_each-inv P (x ∷ xs) keep s t p h =
      let (u, e, g) = >>=-eq-ok (body x s) (for_each xs) h in
      for_each-inv P xs (λ y a b m. keep y a b (there m)) u t (keep x s u (here refl) p e) g

  -- What the body brings about for one element, and keeps for every other, holds at the end.
  pub for_each-reaches {ν} :
      (P : S → Type ν) (x : A) (xs : List A)
      → In x xs
      → ((s t : S) → body x s ≡ ok t → P t)
      → ((y : A) (s t : S) → P s → body y s ≡ ok t → P t)
      → (s t : S) → for_each xs s ≡ ok t
      → P t
  for_each-reaches P x [] m brings keeps s t h = elim m [ ]
  for_each-reaches P x (y ∷ ys) (here same) brings keeps s t h =
      let (u, e, g) = >>=-eq-ok (body y s) (for_each ys) h in
      for_each-inv P ys (λ z a b m. keeps z a b) u t
        (brings s u (subst (λ z. body z s ≡ ok u) same e)) g
  for_each-reaches P x (y ∷ ys) (there m) brings keeps s t h =
      let (u, e, g) = >>=-eq-ok (body y s) (for_each ys) h in
      for_each-reaches P x ys m brings keeps u t g
