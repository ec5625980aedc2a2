-- ===== src/Quantity/Exact.antt =====
-- crates/h3s-api/src/quantity.rs: the conversion against exact arithmetic.
use hedronetes_h3s.Prelude.{
  ℕ, ◌≤◌, ◌<◌, List, Bool, true, false, ◌≡◌, sym, ◌∙◌, subst, ◌↔◌, if◌then◌else◌, codes, arith,
  none, some, i64_max,
}
use hedronetes_h3s.Quantity.Parse.{scaled, div_up, in_i64, Quantity, as_milli_cpu, as_bytes}
use hedronetes_h3s.Quantity.Grammar.{
  Suffix, belongs, spell, IsNumber, split_number-spell, split_point-spell,
}
use hedronetes_h3s.Quantity.Rounded.{
  numerator, denominator, denominator-bounds, convert-exact, IsRoundedUp, div_up-IsRoundedUp,
  rounded_le,
}

-- The rounded quotient is the only such number.
pub div_up_lem : (x d v : ℕ) → 0 < d → (div_up x d ≡ v) ↔ IsRoundedUp x d v
div_up_lem x d v p = (
  λ e. subst (IsRoundedUp x d) e (div_up-IsRoundedUp x d p),
  λ r.
      let a = rounded_le x d _ v (div_up-IsRoundedUp x d p) r in
      let b = rounded_le x d v _ r (div_up-IsRoundedUp x d p) in omega arith,
)

scaled-exact :
    (s whole frac : List ℕ) (u : Suffix) (cpu : Bool)
    → s ≡ spell whole frac u
    → IsNumber whole frac
    → scaled s cpu ≡ (
        if belongs cpu u
        then in_i64 (div_up (numerator whole frac u cpu) (denominator frac u))
        else none)
unfolding scaled
scaled-exact s whole frac u cpu e n =
    rw (e, split_number-spell whole frac u n, split_point-spell whole frac n)
      (convert-exact whole frac u cpu n)

-- Which value a conversion gives: the number in the unit that is asked for, rounded up, where it
-- fits an `i64`.
abbrev pub IsConverted : Bool → List ℕ → List ℕ → Suffix → ℕ → Type 0
IsConverted cpu whole frac u v =
    (belongs cpu u ≡ true)
    × (v ≤ i64_max)
    × IsRoundedUp (numerator whole frac u cpu) (denominator frac u) v

some_iff :
    (b : Bool) (x v : ℕ)
    → ((if b then in_i64 x else none) ≡ some v) ↔ ((b ≡ true) × (v ≤ i64_max) × (x ≡ v))
some_iff b x v = ground arith

scaled-IsConverted :
    (s whole frac : List ℕ) (u : Suffix) (cpu : Bool) (v : ℕ)
    → s ≡ spell whole frac u
    → IsNumber whole frac
    → (scaled s cpu ≡ some v) ↔ IsConverted cpu whole frac u v
scaled-IsConverted s whole frac u cpu v e n =
    let i = some_iff (belongs cpu u) (div_up (numerator whole frac u cpu) (denominator frac u)) v in
    let r =
      div_up_lem (numerator whole frac u cpu) (denominator frac u) v
        (denominator-bounds frac u n.frac_length).0 in
    let x = scaled-exact s whole frac u cpu e n in
    (λ h. let (a, b, c) = i.0 (sym x ∙ h) in (a, b, r.0 c), λ h. x ∙ i.1 (h.0, h.1, r.1 h.2))

-- A quantity that the grammar spells, with a suffix of the right dimension, converts to its exact
-- value in millicores or bytes, rounded up, precisely where that fits an `i64`; nothing else is
-- returned.
pub convert-IsConverted :
    (q : Quantity) (whole frac : List ℕ) (u : Suffix) (v : ℕ)
    → IsNumber whole frac
    → codes q.raw ≡ spell whole frac u
    → ((as_milli_cpu q ≡ some v) ↔ IsConverted true whole frac u v)
      × ((as_bytes q ≡ some v) ↔ IsConverted false whole frac u v)
unfolding as_milli_cpu as_bytes
convert-IsConverted q whole frac u v n e =
    (scaled-IsConverted _ whole frac u true v e n, scaled-IsConverted _ whole frac u false v e n)
