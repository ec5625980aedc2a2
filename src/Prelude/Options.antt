-- ===== src/Prelude/Options.antt =====
-- `?` on `Option`. Not passed on by the parent: a file that works with results uses theirs.
use mathlib.Core.Path.{◌≡◌, refl}
use mathlib.Core.Bool.{Bool, true, false}
use mathlib.Core.Option.{Option, none, some}

module _ {ℓ κ} {A : Type ℓ} {B : Type κ} where
  infixl 5 ◌>>=◌
  abbrev pub ◌>>=◌ : Option A → (A → Option B) → Option B
  o >>= continue = elim o [ none ↦ none | some value ↦ continue value ]

  -- A chain that gives a value went through its first step.
  pub >>=-eq-some :
      (o : Option A) (continue : A → Option B) {b : B}
      → (o >>= continue) ≡ some b
      → (value : A) × (o ≡ some value) × (continue value ≡ some b)
  >>=-eq-some none continue h = cc
  >>=-eq-some (some value) continue h = (value, refl, h)

module _ {ℓ} {B : Type ℓ} where
  infixl 5 ◌>>◌
  abbrev pub ◌>>◌ : Option (Unit {0}) → Option B → Option B
  o >> rest = o >>= λ _. rest

-- `if !test { return None }`
abbrev pub check : Bool → Option (Unit {0})
check true = some tt
check false = none
