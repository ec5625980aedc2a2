-- ===== src/Prelude/Order.antt =====
-- The order of texts: `str`'s `Ord` and SQLite's BINARY collation compare bytes, which for UTF-8
-- is the order of code points.
use Prim.Native.Nat.{ℕ}
use Prim.Native.Char.{code}
use Prim.Native.String.{String}
use mathlib.Core.Path.{◌≡◌, refl, ap₂}
use mathlib.Core.Logic.{inl, inr}
use mathlib.Core.Bool.{Bool, true, false, ◌&&◌, ◌||◌}
use mathlib.Core.List.{List, [], ◌∷◌}
use native.Mathlib.Omega.{arith}
use text.Mathlib.TextEquality.{Char-path}
use hedronetes_h3s.Prelude.Tests.{ltb, ◌==◌, Bool-cases}
use hedronetes_h3s.Prelude.Sorting.{IsOrder}
use hedronetes_h3s.Prelude.Text.{codes}

abbrev pub codes_lt : List ℕ → List ℕ → Bool
codes_lt [] [] = false
codes_lt [] (d ∷ ds) = true
codes_lt (c ∷ cs) [] = false
codes_lt (c ∷ cs) (d ∷ ds) = ltb c d || (c == d && codes_lt cs ds)

unfoldable pub text_lt : String → String → Bool
text_lt s t = codes_lt (codes s) (codes t)

codes_lt_asym : (cs ds : List ℕ) → codes_lt cs ds ≡ true → codes_lt ds cs ≡ false
codes_lt_asym [] [] h = refl
codes_lt_asym [] (d ∷ ds) h = refl
codes_lt_asym (c ∷ cs) [] h = ground arith
codes_lt_asym (c ∷ cs) (d ∷ ds) h = ground (arith, codes_lt_asym cs ds)

codes_le_trans :
    (cs ds es : List ℕ) → codes_lt ds cs ≡ false → codes_lt es ds ≡ false → codes_lt es cs ≡ false
codes_le_trans [] ds [] h k = refl
codes_le_trans [] [] (e ∷ es) h k = ground arith
codes_le_trans [] (d ∷ ds) (e ∷ es) h k = ground arith
codes_le_trans (c ∷ cs) [] es h k = ground arith
codes_le_trans (c ∷ cs) (d ∷ ds) [] h k = ground arith
codes_le_trans (c ∷ cs) (d ∷ ds) (e ∷ es) h k = ground (arith, codes_le_trans cs ds es)

codes_eq_of_ties : (cs ds : List ℕ) → codes_lt cs ds ≡ false → codes_lt ds cs ≡ false → cs ≡ ds
codes_eq_of_ties [] [] h k = refl
codes_eq_of_ties [] (d ∷ ds) h k = ground arith
codes_eq_of_ties (c ∷ cs) [] h k = ground arith
codes_eq_of_ties (c ∷ cs) (d ∷ ds) h k = ground (arith, codes_eq_of_ties cs ds)

head-path : (c d : ℕ) (cs ds : List ℕ) → c ∷ cs ≡ d ∷ ds → (c ≡ d) × (cs ≡ ds)
head-path c d cs ds h = ground arith

pub codes-injective : (s t : String) → codes s ≡ codes t → s ≡ t
codes-injective String.[] String.[] h = refl
codes-injective String.[] (String.◌∷◌ d t) h = cc
codes-injective (String.◌∷◌ c s) String.[] h = cc
codes-injective (String.◌∷◌ c s) (String.◌∷◌ d t) h =
    let e = head-path (code c) (code d) (codes s) (codes t) h in
    ap₂ String.◌∷◌ (Char-path c d e.0) (codes-injective s t e.1)

pub text_lt-IsOrder : IsOrder text_lt
unfolding text_lt
text_lt-IsOrder = record {
  asym = λ a b. codes_lt_asym (codes a) (codes b);
  trans = λ a b c. codes_le_trans (codes a) (codes b) (codes c);
}

pub text_lt_irrefl : (s : String) → text_lt s s ≡ false
text_lt_irrefl s = elim (Bool-cases (text_lt s s)) [
  | inl e ↦ text_lt-IsOrder.asym s s e
  | inr e ↦ e
]

-- Two texts of which neither is smaller are equal.
pub text_eq_of_ties : (s t : String) → text_lt s t ≡ false → text_lt t s ≡ false → s ≡ t
unfolding text_lt
text_eq_of_ties s t h k = codes-injective s t (codes_eq_of_ties (codes s) (codes t) h k)

pub text_lt_trans : (a b c : String) → text_lt a b ≡ true → text_lt b c ≡ true → text_lt a c ≡ true
text_lt_trans a b c h k = elim (Bool-cases (text_lt a c)) [
  | inl e ↦ e
  | inr e ↦
      let cb = text_lt-IsOrder.trans c a b e (text_lt-IsOrder.asym a b h) in absurd (ground arith)
]
