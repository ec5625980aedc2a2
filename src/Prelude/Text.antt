-- ===== src/Prelude/Text.antt =====
-- Text: the native `String` where whole texts are compared, and its code points where the source
-- walks characters. `byte_length` counts the bytes of the UTF-8 text.
use Prim.Native.Nat.{ℕ, ◌+◌, ◌*◌, ◌-◌}
use Prim.Native.Char.{code}
use Prim.Native.String.{String}
use mathlib.Core.Path.{◌≡◌, refl}
use mathlib.Core.Logic.{◌↔◌, ◌≢◌}
use text.Mathlib.Text.{◌==◌ as str_eq}
use text.Mathlib.TextEquality.{eq_iff}
use mathlib.Core.Bool.{Bool, true, false, ◌&&◌, ◌||◌}
use mathlib.Core.Option
use mathlib.Core.Option.{Option, none, some}
use mathlib.Core.List.{List, [], ◌∷◌}
use native.Mathlib.Omega.{arith}
use hedronetes_h3s.Prelude.Tests.{leb, ltb, ◌==◌, if◌then◌else◌}
use hedronetes_h3s.Prelude.Int.{ℤ, pos, negsuc, i64_max}

-- The code points of a text.
abbrev pub codes : String → List ℕ
codes String.[] = []
codes (String.◌∷◌ c s) = code c ∷ codes s

abbrev pub codes_eq : List ℕ → List ℕ → Bool
codes_eq [] [] = true
codes_eq [] (d ∷ ds) = false
codes_eq (c ∷ cs) [] = false
codes_eq (c ∷ cs) (d ∷ ds) = c == d && codes_eq cs ds

pub codes_eq_iff : (cs ds : List ℕ) → (codes_eq cs ds ≡ true) ↔ (cs ≡ ds)
codes_eq_iff [] [] = (λ _. refl, λ _. refl)
codes_eq_iff [] (d ∷ ds) = ground arith
codes_eq_iff (c ∷ cs) [] = ground arith
codes_eq_iff (c ∷ cs) (d ∷ ds) = ground (arith, codes_eq_iff cs ds)

-- `char::is_ascii_digit`
abbrev pub is_digit : ℕ → Bool
is_digit c = leb 48 c && leb c 57

-- The number that decimal digits after `acc` spell.
abbrev pub digits_value : ℕ → List ℕ → ℕ
digits_value acc [] = acc
digits_value acc (c ∷ cs) = digits_value (acc * 10 + (c - 48)) cs

abbrev pub all_digits : List ℕ → Bool
all_digits [] = true
all_digits (c ∷ cs) = is_digit c && all_digits cs

-- `str::parse::<iN>` on a text with no sign: digits only, at least one, and within the type.
abbrev pub parse_unsigned : ℕ → List ℕ → Option ℕ
parse_unsigned max [] = none
parse_unsigned max (c ∷ cs) =
    if all_digits (c ∷ cs)
    then (if leb (digits_value 0 (c ∷ cs)) max then some (digits_value 0 (c ∷ cs)) else none)
    else none

-- -n as an integer
abbrev pub neg_ℕ : ℕ → ℤ
neg_ℕ n = if n == 0 then pos 0 else negsuc (n - 1)

-- `str::parse::<i64>`: an optional sign before the digits; -2^63 is in range, 2^63 is not.
abbrev pub parse_i64_codes : List ℕ → Option ℤ
parse_i64_codes [] = none
parse_i64_codes (c ∷ cs) =
    if c == b'-'
    then Option.map neg_ℕ (parse_unsigned (i64_max + 1) cs)
    else if c == b'+'
    then Option.map pos (parse_unsigned i64_max cs)
    else Option.map pos (parse_unsigned i64_max (c ∷ cs))

unfoldable pub parse_i64 : String → Option ℤ
parse_i64 s = parse_i64_codes (codes s)

-- `strip_prefix` and `starts_with` on bytes or characters.
abbrev pub strip_prefix : List ℕ → List ℕ → Option (List ℕ)
strip_prefix [] s = some s
strip_prefix (p ∷ ps) [] = none
strip_prefix (p ∷ ps) (c ∷ cs) = if p == c then strip_prefix ps cs else none

abbrev pub starts_with : List ℕ → List ℕ → Bool
starts_with s p = elim (strip_prefix p s) [ none ↦ false | some _ ↦ true ]

-- `strip_suffix`
abbrev pub strip_suffix : List ℕ → List ℕ → Option (List ℕ)
strip_suffix p [] = if codes_eq [] p then some [] else none
strip_suffix p (c ∷ cs) =
    if codes_eq (c ∷ cs) p then some [] else Option.map (λ r. c ∷ r) (strip_suffix p cs)

-- `split(c)`: always at least one piece.
abbrev first_piece : ℕ → List (List ℕ) → List (List ℕ)
first_piece c [] = (c ∷ []) ∷ []
first_piece c (p ∷ ps) = (c ∷ p) ∷ ps

abbrev pub split : ℕ → List ℕ → List (List ℕ)
split d [] = [] ∷ []
split d (c ∷ cs) = if c == d then [] ∷ split d cs else first_piece c (split d cs)

-- `split_once(c)`
abbrev pub split_once : ℕ → List ℕ → Option (List ℕ × List ℕ)
split_once d [] = none
split_once d (c ∷ cs) =
    if c == d then some ([], cs) else Option.map (λ r. (c ∷ r.0, r.1)) (split_once d cs)

-- The ASCII classes of characters.
abbrev pub is_lowercase : ℕ → Bool
is_lowercase c = leb b'a' c && leb c b'z'

abbrev pub is_uppercase : ℕ → Bool
is_uppercase c = leb b'A' c && leb c b'Z'

abbrev pub is_alphanumeric : ℕ → Bool
is_alphanumeric c = is_digit c || is_lowercase c || is_uppercase c

pub str_eq_refl : (s : String) → str_eq s s ≡ true
str_eq_refl s = (eq_iff s s).1 refl

pub ne→str_eq : (s t : String) → s ≢ t → str_eq s t ≡ false
ne→str_eq s t h = ground (arith, eq_iff s t)

-- `len()`, the bytes of the UTF-8 text
abbrev char_bytes : ℕ → ℕ
char_bytes c = if ltb c 128 then 1 else if ltb c 2048 then 2 else if ltb c 65536 then 3 else 4

abbrev pub byte_length : List ℕ → ℕ
byte_length [] = 0
byte_length (c ∷ cs) = char_bytes c + byte_length cs
