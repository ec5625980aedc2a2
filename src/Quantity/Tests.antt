-- ===== src/Quantity/Tests.antt =====
-- crates/h3s-api/src/quantity.rs: its own test vectors, and runs of the theorems.
use hedronetes_h3s.Prelude.{
  ℕ, map, String, [], ◌∷◌, true, false, ◌≡◌, refl, ◌↔◌, Option, none, some, codes, arith,
}
use hedronetes_h3s.Prelude.Options.{◌>>=◌}
use hedronetes_h3s.Quantity.Parse.{
  Quantity, parse, syntax_valid, scaled, convert, factor, dimension_ok, as_milli_cpu, as_bytes,
}
use hedronetes_h3s.Quantity.Grammar.{gibi}
use hedronetes_h3s.Quantity.Accepts.{IsSpelled, parse-IsSpelled}
use hedronetes_h3s.Quantity.Exact.{IsConverted, convert-IsConverted}

abbrev cpu : String → Option ℕ
cpu s = parse s >>= as_milli_cpu

abbrev bytes : String → Option ℕ
bytes s = parse s >>= as_bytes

invalid_syntax :
    map parse ("" ∷ "-1" ∷ "not-a-number" ∷ "1.2.3" ∷ "1Wi" ∷ [])
    ≡ none ∷ none ∷ none ∷ none ∷ none ∷ []
unfolding parse syntax_valid
invalid_syntax = refl

cpu_vectors :
    map cpu ("100m" ∷ "0.1" ∷ "0.0001" ∷ "1" ∷ "2500m" ∷ "1n" ∷ "64Mi" ∷ [])
    ≡ some 100 ∷ some 100 ∷ some 1 ∷ some 1000 ∷ some 2500 ∷ some 1 ∷ none ∷ []
unfolding parse syntax_valid as_milli_cpu scaled convert factor dimension_ok
cpu_vectors = refl

byte_vectors :
    map bytes ("64Mi" ∷ "1.5Gi" ∷ "1000m" ∷ "100m" ∷ "1" ∷ "1k" ∷ "1u" ∷ "8388608Ti" ∷ [])
    ≡ some 67108864 ∷ some 1610612736 ∷ some 1 ∷ some 1 ∷ some 1 ∷ some 1000 ∷ none ∷ none ∷ []
unfolding parse syntax_valid as_bytes scaled convert factor dimension_ok
byte_vectors = refl

abbrev one_and_a_half : Quantity
one_and_a_half = record { raw = "1.5Gi" }

parse-IsSpelled_example :
    (parse "1.5Gi" ≡ some one_and_a_half)
    ↔ (IsSpelled (codes "1.5Gi") × (one_and_a_half.raw ≡ "1.5Gi"))
parse-IsSpelled_example = parse-IsSpelled "1.5Gi" one_and_a_half

convert-IsConverted_example :
    ((as_milli_cpu one_and_a_half ≡ some 1610612736)
      ↔ IsConverted true (codes "1") (codes "5") gibi 1610612736)
    × ((as_bytes one_and_a_half ≡ some 1610612736)
        ↔ IsConverted false (codes "1") (codes "5") gibi 1610612736)
convert-IsConverted_example =
    convert-IsConverted one_and_a_half (codes "1") (codes "5") gibi 1610612736
      (record {
        some_digit = refl;
        whole_digits = refl;
        frac_digits = refl;
        frac_length = omega arith;
      })
      refl
