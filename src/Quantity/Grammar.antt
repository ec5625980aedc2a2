-- ===== src/Quantity/Grammar.antt =====
-- crates/h3s-api/src/quantity.rs, described on its own: a quantity is digits, a point with one to
-- nine digits where there is one, and a suffix from a table; and how `split_number` and
-- `split_point` take such a text apart.
use hedronetes_h3s.Prelude.{
  ℕ, ◌≤◌, String, List, [], ◌∷◌, ◌++◌, Bool, true, false, ◌&&◌, ◌≡◌, refl, ap, ◌==◌, length,
  is_empty, any, codes, is_digit, all_digits, split_once, arith, and-eq-true, none, some,
}
use hedronetes_h3s.Quantity.Parse.{split_number, split_point, is_point}

-- The suffixes, and what each multiplies and divides by.
pub data Suffix : Type 0 where
  plain : Suffix
  milli : Suffix
  micro : Suffix
  nano : Suffix
  kibi : Suffix
  mebi : Suffix
  gibi : Suffix
  tebi : Suffix
  kilo : Suffix
  big_kilo : Suffix
  mega : Suffix
  giga : Suffix

abbrev pub suffix_text : Suffix → String
suffix_text plain = ""
suffix_text milli = "m"
suffix_text micro = "u"
suffix_text nano = "n"
suffix_text kibi = "Ki"
suffix_text mebi = "Mi"
suffix_text gibi = "Gi"
suffix_text tebi = "Ti"
suffix_text kilo = "k"
suffix_text big_kilo = "K"
suffix_text mega = "M"
suffix_text giga = "G"

abbrev pub multiplier : Suffix → ℕ
multiplier kibi = 1024
multiplier mebi = 1048576
multiplier gibi = 1073741824
multiplier tebi = 1099511627776
multiplier kilo = 1000
multiplier big_kilo = 1000
multiplier mega = 1000000
multiplier giga = 1000000000
multiplier _ = 1

abbrev pub divisor : Suffix → ℕ
divisor milli = 1000
divisor micro = 1000000
divisor nano = 1000000000
divisor _ = 1

-- A CPU quantity has no byte suffix, a byte quantity no micro or nano.
abbrev pub belongs : Bool → Suffix → Bool
belongs true plain = true
belongs true milli = true
belongs true micro = true
belongs true nano = true
belongs true _ = false
belongs false micro = false
belongs false nano = false
belongs false _ = true

-- The point and the fraction, where there is one.
abbrev pub fraction_text : List ℕ → List ℕ
fraction_text [] = []
fraction_text (d ∷ ds) = b'.' ∷ d ∷ ds

abbrev pub spell : List ℕ → List ℕ → Suffix → List ℕ
spell whole frac u = whole ++ (fraction_text frac ++ codes (suffix_text u))

-- Digits for the whole part, at least one, and at most nine for the fraction.
pub record IsNumber (whole frac : List ℕ) : Type 0 where
  pub some_digit : is_empty whole ≡ false
  pub whole_digits : all_digits whole ≡ true
  pub frac_digits : all_digits frac ≡ true
  pub frac_length : length frac ≤ 9

append-nil : (ds : List ℕ) → ds ++ [] ≡ ds
append-nil [] = refl
append-nil (d ∷ ds) = ap (λ t. d ∷ t) (append-nil ds)

split_number-suffix :
    (u : Suffix) → split_number (codes (suffix_text u)) ≡ ([], codes (suffix_text u))
split_number-suffix plain = refl
split_number-suffix milli = refl
split_number-suffix micro = refl
split_number-suffix nano = refl
split_number-suffix kibi = refl
split_number-suffix mebi = refl
split_number-suffix gibi = refl
split_number-suffix tebi = refl
split_number-suffix kilo = refl
split_number-suffix big_kilo = refl
split_number-suffix mega = refl
split_number-suffix giga = refl

split_number-digits :
    (ds rest n s : List ℕ)
    → all_digits ds ≡ true
    → split_number rest ≡ (n, s)
    → split_number (ds ++ rest) ≡ (ds ++ n, s)
split_number-digits [] rest n s h e = e
split_number-digits (d ∷ ds) rest n s h e =
    let (h0, h1) = and-eq-true (is_digit d) (all_digits ds) h in
    rw (h0, split_number-digits ds rest n s h1 e) refl

split_number-fraction :
    (frac : List ℕ) (u : Suffix)
    → all_digits frac ≡ true
    → split_number (fraction_text frac ++ codes (suffix_text u))
      ≡ (fraction_text frac, codes (suffix_text u))
split_number-fraction [] u h = split_number-suffix u
split_number-fraction (d ∷ ds) u h =
    let (h0, h1) = and-eq-true (is_digit d) (all_digits ds) h in
    rw
      (
        h0,
        split_number-digits ds (codes (suffix_text u)) [] (codes (suffix_text u)) h1
            (split_number-suffix u),
      )
      (ap (λ t. (b'.' ∷ d ∷ t, codes (suffix_text u))) (append-nil ds))

pub split_number-spell :
    (whole frac : List ℕ) (u : Suffix)
    → IsNumber whole frac
    → split_number (spell whole frac u) ≡ (whole ++ fraction_text frac, codes (suffix_text u))
split_number-spell whole frac u n =
    split_number-digits whole _ _ _ n.whole_digits (split_number-fraction frac u n.frac_digits)

split_once-digits : (ds : List ℕ) → all_digits ds ≡ true → split_once b'.' (ds ++ []) ≡ none
split_once-digits [] h = refl
split_once-digits (d ∷ ds) h =
    let (h0, h1) = and-eq-true (is_digit d) (all_digits ds) h in
    let e : (d == b'.') ≡ false = ground arith in rw (e, split_once-digits ds h1) refl

split_once-point :
    (ds rest : List ℕ)
    → all_digits ds ≡ true
    → split_once b'.' (ds ++ (b'.' ∷ rest)) ≡ some (ds, rest)
split_once-point [] rest h = refl
split_once-point (d ∷ ds) rest h =
    let (h0, h1) = and-eq-true (is_digit d) (all_digits ds) h in
    let e : (d == b'.') ≡ false = ground arith in rw (e, split_once-point ds rest h1) refl

pub split_point-spell :
    (whole frac : List ℕ)
    → IsNumber whole frac
    → split_point (whole ++ fraction_text frac) ≡ (whole, frac)
split_point-spell whole [] n =
    rw (split_point, split_once-digits whole n.whole_digits) (ap (λ t. (t, [])) (append-nil whole))
split_point-spell whole (d ∷ ds) n =
    rw (split_point, split_once-point whole (d ∷ ds) n.whole_digits) refl

any_point-digits : (ds : List ℕ) → all_digits ds ≡ true → any is_point (ds ++ []) ≡ false
any_point-digits [] h = refl
any_point-digits (d ∷ ds) h =
    let (h0, h1) = and-eq-true (is_digit d) (all_digits ds) h in
    let e : is_point d ≡ false = ground arith in rw (e, any_point-digits ds h1) refl

-- A point stands only before a fraction.
pub no_point-spell :
    (whole frac : List ℕ)
    → IsNumber whole frac
    → (any is_point (whole ++ fraction_text frac) && is_empty frac) ≡ false
no_point-spell whole [] n = rw (any_point-digits whole n.whole_digits) refl
no_point-spell whole (d ∷ ds) n = ground arith
