-- ===== src/Selectors/Fields.antt =====
-- crates/h3s-apiserver/src/selectors.rs: `split_fields`, `unescape` and `parse_field`.
use mathlib.Core.Option
use hedronetes_h3s.Prelude.{
  byte_length, ℕ, String, List, [], ◌∷◌, Bool, true, false, ◌&&◌, ◌||◌, Option, none, some,
  if◌then◌else◌, ltb, ◌==◌, any, is_empty, codes, codes_eq, str_eq, ok, err,
}
use hedronetes_h3s.Prelude.Results.{◌>>=◌}
use hedronetes_h3s.Selectors.Text.{
  R, bad, panicked, Op, one_of, none_of, Requirement, trim, in_first,
}

-- What may stand after a backslash.
abbrev pub escapable : ℕ → Bool
escapable c = c == b',' || c == b'=' || c == b'\\'

-- The loop over the characters; the flag is `escaped`.
abbrev pub field_pieces : Bool → List ℕ → R (List (List ℕ))
field_pieces true [] = err (bad "trailing selector escape")
field_pieces false [] = ok ([] ∷ [])
field_pieces true (c ∷ cs) =
    if escapable c
    then (field_pieces false cs >>= λ ps. ok (in_first b'\\' (in_first c ps)))
    else err (bad "invalid field selector escape")
field_pieces false (c ∷ cs) =
    let rest = field_pieces (c == b'\\') cs in
    if c == b'\\'
    then rest
    else if c == b','
    then (rest >>= λ ps. ok ([] ∷ ps))
    else (rest >>= λ ps. ok (in_first c ps))

unfoldable pub split_fields : List ℕ → R (List (List ℕ))
split_fields s =
    if is_empty (trim s)
    then ok []
    else if ltb 8192 (byte_length s)
    then err (bad "field selector exceeds limit")
    else field_pieces false s

-- `unescape`: none where its `unwrap` panics, after a backslash at the end.
abbrev pub unescape_from : Bool → List ℕ → Option (List ℕ)
unescape_from true [] = none
unescape_from false [] = some []
unescape_from true (c ∷ cs) = Option.map (λ r. c ∷ r) (unescape_from false cs)
unescape_from false (c ∷ cs) =
    let rest = unescape_from (c == b'\\') cs in
    if c == b'\\' then rest else Option.map (λ r. c ∷ r) rest

abbrev pub unescape : List ℕ → Option (List ℕ)
unescape s = unescape_from false s

-- The operator that the loop finds: what stands before it, after it, and whether it is `!=`.
pub record Split : Type 0 where
  pub before : List ℕ
  pub after : List ℕ
  pub negated : Bool

abbrev pub after_char : ℕ → Split → Split
after_char c s = record s { before = c ∷ s.before }

abbrev pub drop_one : List ℕ → List ℕ
drop_one [] = []
drop_one (c ∷ cs) = cs

-- `if starts_with("==") { 2 } else { 1 }` after the first `=`
abbrev pub after_equals : List ℕ → List ℕ
after_equals [] = []
after_equals (c ∷ cs) = if c == b'=' then cs else c ∷ cs

abbrev pub next_is : ℕ → List ℕ → Bool
next_is d [] = false
next_is d (c ∷ cs) = c == d

abbrev pub find_operator : Bool → List ℕ → Option Split
find_operator escaped [] = none
find_operator true (c ∷ cs) = Option.map (after_char c) (find_operator false cs)
find_operator false (c ∷ cs) =
    let rest = Option.map (after_char c) (find_operator (c == b'\\') cs) in
    if c == b'\\'
    then rest
    else if c == b'!' && next_is b'=' cs
    then some (record { before = []; after = drop_one cs; negated = true })
    else if c == b'='
    then some (record { before = []; after = after_equals cs; negated = false })
    else rest

abbrev pub member : List String → List ℕ → Bool
member words key = any (λ w. codes_eq key (codes w)) words

abbrev pub kind_fields : String → List String
kind_fields kind =
    if str_eq kind "Pod"
    then "spec.nodeName" ∷ "spec.restartPolicy" ∷ "spec.schedulerName" ∷ "spec.serviceAccountName"
      ∷ "status.phase" ∷ "status.podIP" ∷ "status.nominatedNodeName" ∷ []
    else if str_eq kind "Node"
    then "spec.unschedulable" ∷ []
    else if str_eq kind "Namespace"
    then "status.phase" ∷ []
    else if str_eq kind "Secret"
    then "type" ∷ []
    else if str_eq kind "Service"
    then "spec.clusterIP" ∷ "spec.type" ∷ []
    else if str_eq kind "ReplicaSet"
    then "status.replicas" ∷ []
    else []

abbrev pub supported : List ℕ → String → Bool
supported key kind =
    member ("metadata.name" ∷ "metadata.namespace" ∷ []) key || member (kind_fields kind) key

abbrev pub field_op : Bool → List ℕ → Op
field_op true value = none_of (value ∷ [])
field_op false value = one_of (value ∷ [])

abbrev pub requirement_of : String → Bool → Option (List ℕ) → Option (List ℕ) → R Requirement
requirement_of kind negated none value = err panicked
requirement_of kind negated (some key) none = err panicked
requirement_of kind negated (some key) (some value) =
    if supported key kind
    then ok (record { key = key; op = field_op negated value })
    else err (bad "unsupported field selector for this resource")

abbrev pub parse_split : String → Option Split → R Requirement
parse_split kind none = err (bad "field selector requires =, == or !=")
parse_split kind (some s) =
    requirement_of kind s.negated (unescape (trim s.before)) (unescape (trim s.after))

unfoldable pub parse_field : String → List ℕ → R Requirement
parse_field kind s = parse_split kind (find_operator false (trim s))
