-- ===== src/Quantity/Accepts.antt =====
-- crates/h3s-api/src/quantity.rs: `parse` accepts what the grammar spells and nothing else.
use mathlib.Core.List.{◌++◌, map}
use hedronetes_h3s.Prelude.{
  ℕ, String, List, [], ◌∷◌, true, false, ◌||◌, ◌≡◌, refl, sym, ap, ◌∙◌, ◌↔◌, ◌⊎◌, inl, inr, ◌==◌,
  is_empty, any, codes, codes_eq, codes_eq_iff, all_digits, split_once, arith, all, Bool-cases,
  or-eq-true, none, some,
}
use hedronetes_h3s.Quantity.Parse.{
  Quantity, parse, syntax_valid, number_ok, parts_ok, split_number, split_point, is_number_char,
  is_point, one_of, known_suffixes, first_is,
}
use hedronetes_h3s.Quantity.Grammar.{
  Suffix, plain, milli, micro, nano, kibi, mebi, gibi, tebi, kilo, big_kilo, mega, giga,
  suffix_text, fraction_text, spell, IsNumber, split_number-spell, split_point-spell,
  no_point-spell,
}

-- Taking a number off a text and putting it back.
split_number_lem :
    (s : List ℕ) → let p = split_number s in (p.0 ++ p.1 ≡ s) × (all is_number_char p.0 ≡ true)
split_number_lem [] = (refl, refl)
split_number_lem (c ∷ cs) = elim (Bool-cases (is_number_char c)) [
  | inl e ↦ let (a, b) = split_number_lem cs in rw e (ap (λ t. c ∷ t) a, rw (e, b) refl)
  | inr e ↦ rw e (refl, refl)
]

split_once_lem :
    (n : List ℕ)
    → ((split_once b'.' n ≡ none) × (any is_point n ≡ false))
      ⊎ ((w : List ℕ) × (f : List ℕ) × (split_once b'.' n ≡ some (w, f))
          × (w ++ (b'.' ∷ f) ≡ n)
          × (any is_point w ≡ false)
          × (any is_point n ≡ true))
split_once_lem [] = inl (refl, refl)
split_once_lem (c ∷ cs) = elim (Bool-cases (c == b'.')) [
  | inl e ↦
      let g : c ≡ b'.' = ground arith in
      inr ([], cs, rw e refl, ap (λ t. t ∷ cs) (sym g), refl, rw e refl)
  | inr e ↦ elim (split_once_lem cs) [
    | inl (a, b) ↦ inl (rw (e, a) refl, rw (e, b) refl)
    | inr (w, f, a, b, h, k) ↦
        inr (c ∷ w, f, rw (e, a) refl, ap (λ t. c ∷ t) b, rw (e, h) refl, rw (e, k) refl)
  ]
]

digits-no_point :
    (n : List ℕ) → all is_number_char n ≡ true → any is_point n ≡ false → all_digits n ≡ true
digits-no_point [] a b = refl
digits-no_point (c ∷ cs) a b = ground (arith, digits-no_point cs)

all-append : (w f : List ℕ) → all is_number_char (w ++ f) ≡ true → all is_number_char w ≡ true
all-append [] f h = refl
all-append (c ∷ w) f h = ground (arith, all-append w f)

suffix_among :
    (us : List Suffix) (s : List ℕ)
    → one_of (map suffix_text us) s ≡ true
    → (u : Suffix) × (s ≡ codes (suffix_text u))
suffix_among [] s h = absurd (ground arith)
suffix_among (u ∷ us) s h = elim (or-eq-true (codes_eq s (codes (suffix_text u))) _ h) [
  | inl e ↦ (u, (codes_eq_iff s (codes (suffix_text u))).0 e)
  | inr e ↦ suffix_among us s e
]

suffix_of :
    (s : List ℕ) → one_of known_suffixes s ≡ true → (u : Suffix) × (s ≡ codes (suffix_text u))
suffix_of =
    suffix_among (
      plain ∷ milli ∷ micro ∷ nano ∷ kibi ∷ mebi ∷ gibi ∷ tebi ∷ kilo ∷ big_kilo ∷ mega ∷ giga ∷ [])

suffix_known : (u : Suffix) → one_of known_suffixes (codes (suffix_text u)) ≡ true
suffix_known plain = refl
suffix_known milli = refl
suffix_known micro = refl
suffix_known nano = refl
suffix_known kibi = refl
suffix_known mebi = refl
suffix_known gibi = refl
suffix_known tebi = refl
suffix_known kilo = refl
suffix_known big_kilo = refl
suffix_known mega = refl
suffix_known giga = refl

-- A text that the grammar spells.
pub record IsSpelled (s : List ℕ) : Type 0 where
  pub whole : List ℕ
  pub frac : List ℕ
  pub suffix : Suffix
  pub number : IsNumber whole frac
  pub spelling : s ≡ spell whole frac suffix

whole_only :
    (n : List ℕ)
    → all is_number_char n ≡ true
    → any is_point n ≡ false
    → parts_ok n (n, []) ≡ true
    → IsNumber n []
whole_only n a p h = record {
  some_digit = ground arith;
  whole_digits = digits-no_point n a p;
  frac_digits = refl;
  frac_length = omega arith;
}

with_fraction :
    (n w f : List ℕ)
    → all is_number_char w ≡ true
    → any is_point w ≡ false
    → any is_point n ≡ true
    → parts_ok n (w, f) ≡ true
    → IsNumber w f × (is_empty f ≡ false)
with_fraction n w f a p k h = (
  record {
    some_digit = ground arith;
    whole_digits = digits-no_point w a p;
    frac_digits = ground arith;
    frac_length = ground arith;
  },
  ground arith,
)

fraction_spelled : (f : List ℕ) → is_empty f ≡ false → fraction_text f ≡ b'.' ∷ f
fraction_spelled [] h = absurd (ground arith)
fraction_spelled (d ∷ ds) h = refl

append_assoc : (a b c : List ℕ) → (a ++ b) ++ c ≡ a ++ (b ++ c)
append_assoc [] b c = refl
append_assoc (d ∷ ds) b c = ap (λ t. d ∷ t) (append_assoc ds b c)

number-IsSpelled :
    (s n : List ℕ) (u : Suffix)
    → n ++ codes (suffix_text u) ≡ s
    → all is_number_char n ≡ true
    → number_ok n ≡ true
    → IsSpelled s
number-IsSpelled s n u e a h = elim (split_once_lem n) [
  | inl (x, p) ↦ record {
    whole = n;
    frac = [];
    suffix = u;
    number = whole_only n a p (rw (split_point, x) at h);
    spelling = sym e;
  }
  | inr (w, f, x, b, p, k) ↦
      let all_w = all-append w (b'.' ∷ f) (ap (all is_number_char) b ∙ a) in
      let (num, g) = with_fraction n w f all_w p k (rw (split_point, x) at h) in
      record {
        whole = w;
        frac = f;
        suffix = u;
        number = num;
        spelling =
            sym e
            ∙ ap (λ t. t ++ codes (suffix_text u))
                (sym b ∙ ap (λ t. w ++ t) (sym (fraction_spelled f g)))
            ∙ append_assoc w (fraction_text f) (codes (suffix_text u));
      }
]

valid-IsSpelled : (s : List ℕ) → syntax_valid s ≡ true → IsSpelled s
unfolding syntax_valid
valid-IsSpelled s h =
    let (a, b) = split_number_lem s in
    let n = (split_number s).0 in
    let t = (split_number s).1 in
    let k : number_ok n ≡ true = ground arith in
    let m : one_of known_suffixes t ≡ true = ground arith in
    let (u, e) = suffix_of t m in number-IsSpelled s n u (ap (λ r. n ++ r) (sym e) ∙ a) b k

parts_valid : (w f : List ℕ) → IsNumber w f → parts_ok (w ++ fraction_text f) (w, f) ≡ true
parts_valid w f n =
    let a = no_point-spell w f n in
    let b = n.some_digit in let c = n.frac_digits in let d = n.frac_length in ground arith

first_digit :
    (w rest : List ℕ)
    → is_empty w ≡ false
    → all_digits w ≡ true
    → (is_empty (w ++ rest) || first_is b'-' (w ++ rest)) ≡ false
first_digit [] rest e h = absurd (ground arith)
first_digit (c ∷ w) rest e h = ground arith

spelled_valid : (s : List ℕ) → IsSpelled s → syntax_valid s ≡ true
unfolding syntax_valid
spelled_valid s i =
    let n = i.number in
    let f =
      first_digit i.whole (fraction_text i.frac ++ codes (suffix_text i.suffix)) n.some_digit
        n.whole_digits in
    rw
      (
        i.spelling,
        f,
        split_number-spell i.whole i.frac i.suffix n,
        split_point-spell i.whole i.frac n,
        parts_valid i.whole i.frac n,
        suffix_known i.suffix,
      )
      refl

-- A text parses as a quantity exactly if it is digits, perhaps a point and one to nine digits, and
-- one of the twelve suffixes; the quantity keeps the text.
pub parse-IsSpelled :
    (s : String) (q : Quantity) → (parse s ≡ some q) ↔ (IsSpelled (codes s) × (q.raw ≡ s))
unfolding parse
parse-IsSpelled s q = (
  λ h. (valid-IsSpelled (codes s) (ground arith), ground arith),
  λ h. rw (spelled_valid (codes s) h.0) (ap some (ap (λ t. record { raw = t }) (sym h.1))),
)
