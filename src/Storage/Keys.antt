-- ===== src/Storage/Keys.antt =====
-- crates/h3s-storage/src/lib.rs: registry keys and prefixes, and which keys hold Secrets.
use hedronetes_h3s.Prelude.{
  ℕ, String, List, [], ◌∷◌, Bool, true, false, ◌&&◌, ◌||◌, not, Option, none, some, if◌then◌else◌,
  ◌==◌, ltb, length, all, is_empty, codes, codes_eq, split, strip_prefix, strip_suffix,
  is_alphanumeric, ok, err,
}
use hedronetes_h3s.Storage.Types.{R, invalid}

is_segment_char : ℕ → Bool
is_segment_char b = is_alphanumeric b || b == b'-' || b == b'.' || b == b'_' || b == b':'

unfoldable pub valid_segment : List ℕ → Bool
unfolding is_segment_char
valid_segment s =
    not (is_empty s)
    && not (codes_eq s (codes "."))
    && not (codes_eq s (codes ".."))
    && all is_segment_char s

key_parts : List (List ℕ) → Bool
key_parts (root ∷ registry ∷ rest) =
    is_empty root
    && codes_eq registry (codes "registry")
    && all valid_segment rest
    && (length rest == 2 || length rest == 3)
key_parts _ = false

-- `StoreKey::new`
unfoldable pub new_key : String → R String
unfolding key_parts valid_segment
new_key value = if key_parts (split b'/' (codes value)) then ok value else err (invalid value)

prefix_tail : List ℕ → Bool
prefix_tail tail =
    let parts = split b'/' tail in not (ltb 2 (length parts)) && all valid_segment parts

prefix_ok : Option (List ℕ) → Bool
prefix_ok none = false
prefix_ok (some tail) = if is_empty tail then true else closed (strip_suffix (codes "/") tail)
  where
    closed : Option (List ℕ) → Bool
    closed none = false
    closed (some t) = prefix_tail t

unfoldable pub validate_prefix : String → R (Unit {0})
unfolding prefix_ok prefix_tail valid_segment
validate_prefix prefix =
    if prefix_ok (strip_prefix (codes "/registry/") (codes prefix))
    then ok tt
    else err (invalid prefix)

first_is_secrets : Option (List ℕ) → Bool
first_is_secrets none = false
first_is_secrets (some tail) = heads (split b'/' tail)
  where
    heads : List (List ℕ) → Bool
    heads [] = false
    heads (p ∷ ps) = codes_eq p (codes "secrets")

unfoldable pub is_secret_key : String → Bool
unfolding first_is_secrets
is_secret_key key = first_is_secrets (strip_prefix (codes "/registry/") (codes key))
