-- ===== src/Quantity/Parse.antt =====
-- crates/h3s-api/src/quantity.rs: the syntax of resource quantities and their conversion.
use hedronetes_h3s.Prelude.{
  ℕ, ◌+◌, ◌*◌, ◌/◌, ◌%◌, ◌^◌, String, List, [], ◌∷◌, Bool, true, false, ◌&&◌, ◌||◌, not, Option,
  none, some, if◌then◌else◌, ◌==◌, leb, ltb, length, is_empty, any, codes, codes_eq, is_digit,
  all_digits, parse_unsigned, split_once, i64_max, i128_max,
}
use hedronetes_h3s.Prelude.Options.{◌>>=◌, ◌>>◌, check}

-- `Quantity`: a text that passed the syntax check.
pub record Quantity : Type 0 where
  pub raw : String

abbrev pub is_number_char : ℕ → Bool
is_number_char c = is_digit c || c == b'.'

-- `s.split_at(s.find(|c| !c.is_ascii_digit() && c != '.').unwrap_or(s.len()))`
abbrev prepend : ℕ → List ℕ × List ℕ → List ℕ × List ℕ
prepend c (n, suffix) = (c ∷ n, suffix)

abbrev pub split_number : List ℕ → List ℕ × List ℕ
split_number [] = ([], [])
split_number (c ∷ cs) = if is_number_char c then prepend c (split_number cs) else ([], c ∷ cs)

-- `n.split_once('.').unwrap_or((n, ""))`
abbrev pub split_point : List ℕ → List ℕ × List ℕ
split_point n = elim (split_once b'.' n) [ none ↦ (n, []) | some p ↦ p ]

abbrev pub is_point : ℕ → Bool
is_point c = c == b'.'

abbrev pub first_is : ℕ → List ℕ → Bool
first_is c [] = false
first_is c (d ∷ ds) = d == c

abbrev pub one_of : List String → List ℕ → Bool
one_of words s = any (λ w. codes_eq s (codes w)) words

abbrev pub known_suffixes : List String
known_suffixes = "" ∷ "m" ∷ "u" ∷ "n" ∷ "Ki" ∷ "Mi" ∷ "Gi" ∷ "Ti" ∷ "k" ∷ "K" ∷ "M" ∷ "G" ∷ []

abbrev pub parts_ok : List ℕ → List ℕ × List ℕ → Bool
parts_ok n (whole, frac) = not (
    is_empty whole
    || (any is_point n && is_empty frac)
    || ltb 9 (length frac)
    || not (all_digits frac))

abbrev pub number_ok : List ℕ → Bool
number_ok n = parts_ok n (split_point n)

unfoldable pub syntax_valid : List ℕ → Bool
syntax_valid s =
    if is_empty s || first_is b'-' s
    then false
    else (let (n, suffix) = split_number s in number_ok n && one_of known_suffixes suffix)

unfoldable pub parse : String → Option Quantity
parse s = if syntax_valid (codes s) then some (record { raw = s }) else none

-- `(mul, div)` of a suffix
unfoldable pub factor : List ℕ → Option (ℕ × ℕ)
factor s =
    if codes_eq s (codes "")
    then some (1, 1)
    else if codes_eq s (codes "m")
    then some (1, 1000)
    else if codes_eq s (codes "u")
    then some (1, 1000000)
    else if codes_eq s (codes "n")
    then some (1, 1000000000)
    else if codes_eq s (codes "Ki")
    then some (1024, 1)
    else if codes_eq s (codes "Mi")
    then some (1048576, 1)
    else if codes_eq s (codes "Gi")
    then some (1073741824, 1)
    else if codes_eq s (codes "Ti")
    then some (1099511627776, 1)
    else if codes_eq s (codes "k") || codes_eq s (codes "K")
    then some (1000, 1)
    else if codes_eq s (codes "M")
    then some (1000000, 1)
    else if codes_eq s (codes "G")
    then some (1000000000, 1)
    else none

abbrev pub byte_suffixes : List String
byte_suffixes = "Ki" ∷ "Mi" ∷ "Gi" ∷ "Ti" ∷ "k" ∷ "K" ∷ "M" ∷ "G" ∷ []

abbrev pub cpu_suffixes : List String
cpu_suffixes = "u" ∷ "n" ∷ []

-- A suffix belongs to the dimension that is asked for.
unfoldable pub dimension_ok : Bool → List ℕ → Bool
dimension_ok true s = not (one_of byte_suffixes s)
dimension_ok false s = not (one_of cpu_suffixes s)

-- `checked_mul`, `checked_add` on `i128` where no value is negative.
abbrev pub in_i128 : ℕ → Option ℕ
in_i128 x = if leb x i128_max then some x else none

abbrev pub in_i64 : ℕ → Option ℕ
in_i64 x = if leb x i64_max then some x else none

abbrev pub fraction_value : List ℕ → Option ℕ
fraction_value frac = if is_empty frac then some 0 else parse_unsigned i128_max frac

abbrev pub unit_of : Bool → ℕ
unit_of cpu = if cpu then 1000 else 1

-- `x / y + i128::from(x % y != 0)`
abbrev pub div_up : ℕ → ℕ → ℕ
div_up x y = x / y + (if x % y == 0 then 0 else 1)

-- The scale `10i128.pow(frac.len())` is at most 10^9 on a text that passed the syntax check, and the
-- denominator at most 10^18, so neither overflows.
unfoldable pub convert : List ℕ → List ℕ → List ℕ → Bool → Option ℕ
convert whole frac suffix cpu = do
  let scale = 10 ^ length frac
  w ← parse_unsigned i128_max whole
  a ← in_i128 (w * scale)
  f ← fraction_value frac
  base ← in_i128 (a + f)
  factors ← factor suffix
  check (dimension_ok cpu suffix)
  b ← in_i128 (base * factors.0)
  numerator ← in_i128 (b * unit_of cpu)
  in_i64 (div_up numerator (scale * factors.1))

unfoldable pub scaled : List ℕ → Bool → Option ℕ
scaled s cpu =
    let (n, suffix) = split_number s in
    let (whole, frac) = split_point n in convert whole frac suffix cpu

unfoldable pub as_milli_cpu : Quantity → Option ℕ
as_milli_cpu q = scaled (codes q.raw) true

unfoldable pub as_bytes : Quantity → Option ℕ
as_bytes q = scaled (codes q.raw) false
