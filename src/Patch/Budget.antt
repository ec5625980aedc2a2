-- ===== src/Patch/Budget.antt =====
-- crates/h3s-apiserver/src/patch/strategic.rs: `Budget`, the refusals, and the computations that
-- spend from a budget and may fail.
use hedronetes_h3s.Prelude.{
  ℕ, ◌-◌, ◌*◌, ◌^◌, ◌≡◌, String, ltb, leb, if◌then◌else◌, arith, Result, ok, err, Bool-cases,
  >>=-eq-ok, ◌+◌, suc, inl, inr, false, refl,
}
use hedronetes_h3s.Prelude.Results

-- `Failure::new(code, reason, message)`
pub record Failure : Type 0 where
  pub code : ℕ
  pub reason : String
  pub message : String

abbrev pub invalid : String → Failure
invalid message = record { code = 422; reason = "Invalid"; message = message }

abbrev pub too_large : String → Failure
too_large message = record { code = 413; reason = "RequestEntityTooLarge"; message = message }

abbrev pub R {ℓ} : Type ℓ → Type ℓ
R A = Result Failure A

-- A computation with `&mut Budget`: the budget that it leaves stands beside its value.
abbrev pub Work {ℓ} : Type ℓ → Type ℓ
Work A = ℕ → R (A × ℕ)

module _ {ℓ κ} {A : Type ℓ} {B : Type κ} where
  infixr 5 ◌>>=◌
  abbrev pub ◌>>=◌ : Work A → (A → Work B) → Work B
  (work >>= continue) n = Results.◌>>=◌ (work n) (λ r. continue r.0 r.1)

  pub bind-eq-ok :
      (work : Work A) (continue : A → Work B) (n : ℕ) {b : B} {l : ℕ}
      → (work >>= continue) n ≡ ok (b, l)
      → (a : A) × (m : ℕ) × (work n ≡ ok (a, m)) × (continue a m ≡ ok (b, l))
  bind-eq-ok work continue n h =
      let (r, e, g) = >>=-eq-ok (work n) (λ r. continue r.0 r.1) h in (r.0, r.1, e, g)

module _ {ℓ} {B : Type ℓ} where
  infixr 5 ◌>>◌
  abbrev pub ◌>>◌ : Work (Unit {0}) → Work B → Work B
  work >> rest = work >>= λ _. rest

abbrev pub pure {ℓ} : {A : Type ℓ} → A → Work A
pure a n = ok (a, n)

abbrev pub fail {ℓ} : {A : Type ℓ} → String → Work A
fail message n = err (invalid message)

-- A result that spends nothing.
abbrev pub lift {ℓ} : {A : Type ℓ} → R A → Work A
lift r n = Results.◌>>=◌ r (λ a. ok (a, n))

-- `usize::saturating_mul`
abbrev pub saturating_mul : ℕ → ℕ → ℕ
saturating_mul a b = if ltb (a * b) (2 ^ 64) then a * b else 2 ^ 64 - 1

abbrev pub spend : ℕ → Work (Unit {0})
spend amount n =
    if leb amount n
    then ok (tt, n - amount)
    else err (too_large "strategic patch work limit exceeded")

-- What `merge` and `fresh` do first.
abbrev pub enter : ℕ → Work (Unit {0})
enter depth =
    spend 1 >> (if ltb 64 depth then fail "strategic patch nesting exceeds 64 levels" else pure tt)

module _ {ℓ} {B : Type ℓ} where
  pub spend-eq-ok :
      (amount : ℕ) (rest : Work B) (n : ℕ) {b : B} {l : ℕ}
      → (spend amount >> rest) n ≡ ok (b, l)
      → (m : ℕ) × (m + amount ≡ n) × (rest m ≡ ok (b, l))
  spend-eq-ok amount rest n h = elim (Bool-cases (leb amount n)) [
    | inl e ↦ (n - amount, ground arith, rw e at h)
    | inr e ↦ absurd (let g = rw e at h in cc)
  ]

  pub enter-eq-ok :
      (depth : ℕ) (rest : Work B) (n : ℕ) {b : B} {l : ℕ}
      → (enter depth >> rest) n ≡ ok (b, l)
      → (m : ℕ) × (suc m ≡ n) × (ltb 64 depth ≡ false) × (rest m ≡ ok (b, l))
  enter-eq-ok depth rest n h = elim (Bool-cases (leb 1 n)) [
    | inl e ↦ elim (Bool-cases (ltb 64 depth)) [
      | inl d ↦ absurd (let g = rw (e, d) at h in cc)
      | inr d ↦ (n - 1, ground arith, d, rw (e, d) at h)
    ]
    | inr e ↦ absurd (let g = rw e at h in cc)
  ]

module _ {ℓ κ} {A : Type ℓ} {B : Type κ} where
  pub lift-eq-ok :
      (r : R A) (continue : A → Work B) (n : ℕ) {b : B} {l : ℕ}
      → (lift r >>= continue) n ≡ ok (b, l)
      → (a : A) × (r ≡ ok a) × (continue a n ≡ ok (b, l))
  lift-eq-ok (err e) continue n h = absurd (cc)
  lift-eq-ok (ok a) continue n h = (a, refl, h)

pub pure-eq-ok {ℓ} : {A : Type ℓ} {a b : A} {n l : ℕ} → pure a n ≡ ok (b, l) → a ≡ b
pure-eq-ok h = cc
