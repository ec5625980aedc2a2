-- ===== src/Selectors/Labels.antt =====
-- crates/h3s-apiserver/src/selectors.rs: `split_labels`, `parse_label`, `parse_value`, `parse_set`.
use mathlib.Core.Option
use hedronetes_h3s.Prelude.{
  byte_length, ℕ, List, [], ◌∷◌, Bool, true, false, ◌||◌, not, Option, none, some, if◌then◌else◌,
  ltb, ◌==◌, any, is_empty, map, codes, split, strip_prefix, ℤ, parse_i64_codes, ok, err, ok_or,
  collect,
}
use hedronetes_h3s.Prelude.Results.{◌>>=◌}
use hedronetes_h3s.Selectors.Text.{
  R, bad, Op, one_of, none_of, exists, absent, greater, less, Requirement, is_whitespace, trim,
  in_first, label_part, label_key,
}

-- The loop over the characters; `depth` is whether a parenthesis is open.
abbrev pub pieces : Bool → List ℕ → R (List (List ℕ))
pieces true [] = err (bad "unclosed selector set")
pieces false [] = ok ([] ∷ [])
pieces true (c ∷ cs) =
    if c == b'('
    then err (bad "nested label selector set")
    else (pieces (not (c == b')')) cs >>= λ ps. ok (in_first c ps))
pieces false (c ∷ cs) =
    if c == b')'
    then err (bad "unmatched selector parenthesis")
    else if c == b','
    then (pieces false cs >>= λ ps. ok ([] ∷ ps))
    else (pieces (c == b'(') cs >>= λ ps. ok (in_first c ps))

abbrev none_empty : List (List ℕ) → R (List (List ℕ))
none_empty ps = if any is_empty ps then err (bad "empty selector requirement") else ok ps

unfoldable pub split_labels : List ℕ → R (List (List ℕ))
split_labels s =
    if is_empty (trim s)
    then ok []
    else if ltb 8192 (byte_length s)
    then err (bad "label selector exceeds limit")
    else (pieces false s >>= λ ps. none_empty (map trim ps))

unfoldable pub parse_value : List ℕ → R (List ℕ)
parse_value value =
    if label_part (trim value) true
    then ok (trim value)
    else err (bad "invalid label selector value")

-- `strip_suffix(')')`
abbrev strip_close : List ℕ → Option (List ℕ)
strip_close [] = none
strip_close (c ∷ []) = if c == b')' then some [] else none
strip_close (c ∷ d ∷ ds) = Option.map (λ r. c ∷ r) (strip_close (d ∷ ds))

abbrev inside_of : Option (List ℕ) → Option (List ℕ)
inside_of none = none
inside_of (some v) = strip_close v

unfoldable pub parse_set : List ℕ → R (List (List ℕ))
parse_set value = do
  inside ←
      ok_or (inside_of (strip_prefix (b'(' ∷ []) (trim value)))
        (bad "selector in/notin requires parentheses")
  collect parse_value (split b',' inside)

abbrev parse_number : List ℕ → R ℤ
parse_number value = parse_value value >>= λ v.
    ok_or (parse_i64_codes v) (bad "selector comparison needs an integer")

-- `s.split_at(s.find(|c| c.is_whitespace() || "=!<>()".contains(c)).unwrap_or(s.len()))`
abbrev ends_key : ℕ → Bool
ends_key c =
    is_whitespace c || c == b'=' || c == b'!' || c == b'<' || c == b'>' || c == b'(' || c == b')'

abbrev in_key : ℕ → List ℕ × List ℕ → List ℕ × List ℕ
in_key c (key, rest) = (c ∷ key, rest)

abbrev pub split_key : List ℕ → List ℕ × List ℕ
split_key [] = ([], [])
split_key (c ∷ cs) = if ends_key c then ([], c ∷ cs) else in_key c (split_key cs)

-- `strip_prefix("==").or_else(|| strip_prefix('='))`
abbrev strip_equals : List ℕ → Option (List ℕ)
strip_equals rest = elim (strip_prefix (codes "==") rest) [
  | some v ↦ some v
  | none ↦ strip_prefix (codes "=") rest
]

abbrev less_op : Option (List ℕ) → R Op
less_op (some v) = parse_number v >>= λ n. ok (less n)
less_op none = err (bad "invalid label selector operator")

abbrev greater_op : Option (List ℕ) → R Op → R Op
greater_op (some v) other = parse_number v >>= λ n. ok (greater n)
greater_op none other = other

abbrev one_value_op : (List (List ℕ) → Op) → Option (List ℕ) → R Op → R Op
one_value_op op (some v) other = parse_value v >>= λ w. ok (op (w ∷ []))
one_value_op op none other = other

abbrev set_op : (List (List ℕ) → Op) → Option (List ℕ) → R Op → R Op
set_op op (some v) other = parse_set v >>= λ ws. ok (op ws)
set_op op none other = other

-- The operator that stands after the key.
unfoldable pub parse_op : List ℕ → R Op
parse_op rest =
    if is_empty rest
    then ok exists
    else set_op none_of (strip_prefix (codes "notin") rest) (
        set_op one_of (strip_prefix (codes "in") rest) (
          one_value_op none_of (strip_prefix (codes "!=") rest) (
            one_value_op one_of (strip_equals rest) (
              greater_op (strip_prefix (codes ">") rest)
                (less_op (strip_prefix (codes "<") rest))))))

abbrev with_key : List ℕ → R Op → R Requirement
with_key key op =
    if label_key key
    then (op >>= λ o. ok (record { key = key; op = o }))
    else err (bad "invalid label selector key")

abbrev parse_negated : List ℕ → Option (List ℕ) → R Requirement
parse_negated s (some key) = with_key (trim key) (ok absent)
parse_negated s none = let (key, rest) = split_key s in with_key key (parse_op (trim rest))

unfoldable pub parse_label : List ℕ → R Requirement
parse_label s = parse_negated s (strip_prefix (codes "!") s)
