-- ===== src/Quantity/Rounded.antt =====
-- crates/h3s-api/src/quantity.rs: the exact number of a spelling, and its rounding. The checks of `i128` lose
-- no value that an `i64` holds.
use native.Mathlib.Nat.{
  mod-lt, div-add-mod, mul-le-mul, lt_of_mul-lt-mul_right, mul_comm, suc-mul, pow-le-pow_right,
}
use hedronetes_h3s.Prelude.{
  ℕ, ◌+◌, ◌*◌, ◌/◌, ◌%◌, ◌≤◌, ◌<◌, ◌^◌, List, [], ◌∷◌, Bool, true, false, ◌≡◌, refl, ap, ◌∙◌, suc,
  inl, inr, if◌then◌else◌, ◌==◌, leb, length, is_empty, codes, all_digits, digits_value,
  parse_unsigned, arith, Bool-cases, Option, none, some, i64_max, i128_max,
}
use hedronetes_h3s.Prelude.Options.{◌>>=◌}
use hedronetes_h3s.Quantity.Parse.{
  convert, factor, dimension_ok, div_up, in_i64, in_i128, fraction_value, unit_of,
}
use hedronetes_h3s.Quantity.Grammar.{
  Suffix, plain, milli, micro, nano, kibi, mebi, gibi, tebi, kilo, big_kilo, mega, giga,
  suffix_text, multiplier, divisor, belongs, IsNumber,
}

-- A quotient by at most 10^18 of more than `i128` holds is more than `i64` holds.
large-quotient : (x d : ℕ) → 0 < d → d ≤ 1000000000000000000 → i128_max < x → i64_max < x / d
large-quotient x d p b h = elim (Bool-cases (leb (x / d) i64_max)) [
  | inl e ↦
      let q : x / d ≤ i64_max = ground arith in
      let m : d * (x / d) ≤ 1000000000000000000 * i64_max = mul-le-mul b q in
      absurd (omega (arith, div-add-mod x d, mod-lt x p, m))
  | inr e ↦ ground arith
]

large_lem : (x d : ℕ) → 0 < d → d ≤ 1000000000000000000 → i128_max < x → in_i64 (div_up x d) ≡ none
large_lem x d p b h = ground (arith, large-quotient x d p b h)

factor-suffix_text : (u : Suffix) → factor (codes (suffix_text u)) ≡ some (multiplier u, divisor u)
unfolding factor
factor-suffix_text plain = refl
factor-suffix_text milli = refl
factor-suffix_text micro = refl
factor-suffix_text nano = refl
factor-suffix_text kibi = refl
factor-suffix_text mebi = refl
factor-suffix_text gibi = refl
factor-suffix_text tebi = refl
factor-suffix_text kilo = refl
factor-suffix_text big_kilo = refl
factor-suffix_text mega = refl
factor-suffix_text giga = refl

pub dimension_ok-suffix_text :
    (cpu : Bool) (u : Suffix) → dimension_ok cpu (codes (suffix_text u)) ≡ belongs cpu u
unfolding dimension_ok
dimension_ok-suffix_text true plain = refl
dimension_ok-suffix_text true milli = refl
dimension_ok-suffix_text true micro = refl
dimension_ok-suffix_text true nano = refl
dimension_ok-suffix_text true kibi = refl
dimension_ok-suffix_text true mebi = refl
dimension_ok-suffix_text true gibi = refl
dimension_ok-suffix_text true tebi = refl
dimension_ok-suffix_text true kilo = refl
dimension_ok-suffix_text true big_kilo = refl
dimension_ok-suffix_text true mega = refl
dimension_ok-suffix_text true giga = refl
dimension_ok-suffix_text false plain = refl
dimension_ok-suffix_text false milli = refl
dimension_ok-suffix_text false micro = refl
dimension_ok-suffix_text false nano = refl
dimension_ok-suffix_text false kibi = refl
dimension_ok-suffix_text false mebi = refl
dimension_ok-suffix_text false gibi = refl
dimension_ok-suffix_text false tebi = refl
dimension_ok-suffix_text false kilo = refl
dimension_ok-suffix_text false big_kilo = refl
dimension_ok-suffix_text false mega = refl
dimension_ok-suffix_text false giga = refl

multiplier_pos : (u : Suffix) → 1 ≤ multiplier u
multiplier_pos u = ground arith

divisor-bounds : (u : Suffix) → (1 ≤ divisor u) × (divisor u ≤ 1000000000)
divisor-bounds u = ground arith

parse_unsigned-digits :
    (ds : List ℕ)
    → is_empty ds ≡ false
    → all_digits ds ≡ true
    → parse_unsigned i128_max ds ≡ in_i128 (digits_value 0 ds)
parse_unsigned-digits [] e h = absurd (ground arith)
parse_unsigned-digits (d ∷ ds) e h = rw h refl

fraction_value-digits :
    (ds : List ℕ) → all_digits ds ≡ true → fraction_value ds ≡ in_i128 (digits_value 0 ds)
fraction_value-digits [] h = refl
fraction_value-digits (d ∷ ds) h = rw h refl

power_bounds : (k : ℕ) → k ≤ 9 → (1 ≤ 10 ^ k) × (10 ^ k ≤ 1000000000)
power_bounds k h =
    (pow-le-pow_right (omega arith) {i = 0} (omega arith), pow-le-pow_right (omega arith) h)

-- What the text of a number stands for, over `denominator`.
abbrev pub numerator : List ℕ → List ℕ → Suffix → Bool → ℕ
numerator whole frac u cpu =
    (digits_value 0 whole * 10 ^ length frac + digits_value 0 frac) * multiplier u * unit_of cpu

abbrev pub denominator : List ℕ → Suffix → ℕ
denominator frac u = 10 ^ length frac * divisor u

pub denominator-bounds :
    (frac : List ℕ) (u : Suffix)
    → length frac ≤ 9
    → (0 < denominator frac u) × (denominator frac u ≤ 1000000000000000000)
denominator-bounds frac u h =
    let (a, b) = power_bounds (length frac) h in
    let (c, d) = divisor-bounds u in
    let m : 1 * 1 ≤ denominator frac u = mul-le-mul a c in
    let n : denominator frac u ≤ 1000000000 * 1000000000 = mul-le-mul b d in
    (omega (arith, m), omega (arith, n))

-- The checks of `i128` on the way to the numerator.
abbrev checked : ℕ → ℕ → ℕ → ℕ → ℕ → ℕ → Option ℕ
checked w scale f mul unit den = in_i128 w >>= λ w. in_i128 (w * scale) >>= λ a. in_i128 f >>= λ f.
    in_i128 (a + f) >>= λ base.
    in_i128 (base * mul) >>= λ b. in_i128 (b * unit) >>= λ num. in_i64 (div_up num den)

le_mul : (a b : ℕ) → 1 ≤ b → a ≤ a * b
le_mul a b h = let m : a * 1 ≤ a * b = mul-le-mul (omega arith) h in omega (arith, m)

checked_lem :
    (w scale f mul unit den : ℕ)
    → 1 ≤ scale
    → 1 ≤ mul
    → 1 ≤ unit
    → 0 < den
    → den ≤ 1000000000000000000
    → checked w scale f mul unit den ≡ in_i64 (div_up ((w * scale + f) * mul * unit) den)
checked_lem w scale f mul unit den s m u p b = ground (
  arith,
  le_mul w scale s,
  le_mul (w * scale + f) mul m,
  le_mul ((w * scale + f) * mul) unit u,
  large_lem ((w * scale + f) * mul * unit) den p b,
)

unit_of_pos : (cpu : Bool) → 1 ≤ unit_of cpu
unit_of_pos true = omega arith
unit_of_pos false = omega arith

pub convert-exact :
    (whole frac : List ℕ) (u : Suffix) (cpu : Bool)
    → IsNumber whole frac
    → convert whole frac (codes (suffix_text u)) cpu ≡ (
        if belongs cpu u
        then in_i64 (div_up (numerator whole frac u cpu) (denominator frac u))
        else none)
unfolding convert
convert-exact whole frac u cpu n =
    let (p, b) = denominator-bounds frac u n.frac_length in
    let scale = (power_bounds (length frac) n.frac_length).0 in
    let c =
      checked_lem (digits_value 0 whole) (10 ^ length frac) (digits_value 0 frac) (multiplier u)
        (unit_of cpu) (denominator frac u) scale (multiplier_pos u) (unit_of_pos cpu) p b in
    let e = parse_unsigned-digits whole n.some_digit n.whole_digits in
    let g = fraction_value-digits frac n.frac_digits in
    rw (convert, e, g, factor-suffix_text u, dimension_ok-suffix_text cpu u)
      (elim (Bool-cases (belongs cpu u)) [ inl h ↦ rw h c | inr h ↦ rw h (ground arith) ])

-- `v` is `x / d`, rounded up to a whole number.
pub record IsRoundedUp (x d v : ℕ) : Type 0 where
  pub enough : x ≤ v * d
  pub least : v * d < x + d

pub div_up-IsRoundedUp : (x d : ℕ) → 0 < d → IsRoundedUp x d (div_up x d)
div_up-IsRoundedUp x d p =
    let e = div-add-mod x d in
    let c = mul_comm d (x / d) in
    let l = mod-lt x p in
    elim (Bool-cases (x % d == 0)) [
      | inl h ↦ rw h (record { enough = ground arith; least = ground arith })
      | inr h ↦
          let u : suc (x / d) * d ≡ x / d * d + d = suc-mul (x / d) d in
          let g : x / d + 1 ≡ suc (x / d) = omega arith in
          let g2 : (x / d + 1) * d ≡ x / d * d + d = ap (λ t. t * d) g ∙ u in
          rw h (record { enough = ground arith; least = ground arith })
    ]

pub rounded_le : (x d v w : ℕ) → IsRoundedUp x d v → IsRoundedUp x d w → v ≤ w
rounded_le x d v w a b =
    let s = suc-mul w d in
    let a0 = a.least in
    let b0 = b.enough in
    let m : v * d < suc w * d = omega arith in omega (arith, lt_of_mul-lt-mul_right d m)
