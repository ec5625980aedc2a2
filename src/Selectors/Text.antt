-- ===== src/Selectors/Text.antt =====
-- crates/h3s-apiserver/src/selectors.rs: the types of a selection, and the functions on texts that
-- its parsers share. A text is its code points.
use hedronetes_h3s.Prelude.{
  byte_length, ℕ, String, List, [], ◌∷◌, Bool, false, ◌&&◌, ◌||◌, not, Option, none, some,
  if◌then◌else◌, leb, ◌==◌, all, is_empty, split, split_once, ℤ, is_digit, is_lowercase,
  is_alphanumeric, Result,
}

-- `bad(message)`, a 400 BadRequest, or a panic.
pub data Refusal : Type 0 where
  bad : String → Refusal
  panicked : Refusal

abbrev pub R : Type 0 → Type 0
R A = Result Refusal A

pub data Op : Type 0 where
  one_of : List (List ℕ) → Op
  none_of : List (List ℕ) → Op
  exists : Op
  absent : Op
  greater : ℤ → Op
  less : ℤ → Op

pub record Requirement : Type 0 where
  pub key : List ℕ
  pub op : Op

pub record Selection : Type 0 where
  pub labels : List Requirement
  pub fields : List Requirement

-- `char::is_whitespace`
abbrev pub is_whitespace : ℕ → Bool
is_whitespace c =
    (leb 9 c && leb c 13)
    || c == 32
    || c == 133
    || c == 160
    || c == 5760
    || (leb 8192 c && leb c 8202)
    || c == 8232
    || c == 8233
    || c == 8239
    || c == 8287
    || c == 12288

-- `trim`
abbrev pub trim_start : List ℕ → List ℕ
trim_start [] = []
trim_start (c ∷ cs) = if is_whitespace c then trim_start cs else c ∷ cs

abbrev pub keep_or_drop : ℕ → List ℕ → List ℕ
keep_or_drop c [] = if is_whitespace c then [] else c ∷ []
keep_or_drop c (d ∷ ds) = c ∷ d ∷ ds

abbrev pub trim_end : List ℕ → List ℕ
trim_end [] = []
trim_end (c ∷ cs) = keep_or_drop c (trim_end cs)

abbrev pub trim : List ℕ → List ℕ
trim s = trim_end (trim_start s)

-- The character goes to the piece that comes first.
abbrev pub in_first : ℕ → List (List ℕ) → List (List ℕ)
in_first c [] = (c ∷ []) ∷ []
in_first c (p ∷ ps) = (c ∷ p) ∷ ps

abbrev pub first_ok : List ℕ → Bool
first_ok [] = false
first_ok (c ∷ cs) = is_alphanumeric c

abbrev pub last_ok : List ℕ → Bool
last_ok [] = false
last_ok (c ∷ []) = is_alphanumeric c
last_ok (c ∷ d ∷ ds) = last_ok (d ∷ ds)

abbrev part_char : ℕ → Bool
part_char c = is_alphanumeric c || c == b'-' || c == b'_' || c == b'.'

unfoldable pub label_part : List ℕ → Bool → Bool
label_part s empty =
    (empty && is_empty s)
    || (not (is_empty s) && leb (byte_length s) 63 && first_ok s && last_ok s && all part_char s)

abbrev prefix_char : ℕ → Bool
prefix_char c = is_lowercase c || is_digit c || c == b'-'

abbrev prefix_part : List ℕ → Bool
prefix_part s =
    not (is_empty s) && leb (byte_length s) 63 && first_ok s && last_ok s && all prefix_char s

abbrev key_parts : List ℕ → Option (List ℕ × List ℕ) → Bool
key_parts key none = label_part key false
key_parts key (some (prefix, name)) =
    not (is_empty prefix)
    && leb (byte_length prefix) 253
    && all prefix_part (split b'.' prefix)
    && label_part name false

unfoldable pub label_key : List ℕ → Bool
label_key key = key_parts key (split_once b'/' key)
