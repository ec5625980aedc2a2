-- ===== src/Auth/Certificate.antt =====
-- crates/h3s-auth/src/lib.rs: `User::from_verified_certificate`. What x509-parser reads of a
-- certificate is an argument: whether bytes remain after it, and its common names and organizations,
-- none where one is no text.
use hedronetes_h3s.Prelude.{
  ℕ, String, List, [], ◌∷◌, ◌++◌, Bool, ◌&&◌, ◌||◌, Option, none, some, if◌then◌else◌, leb, any,
  str_eq, codes, Result, ok, err, ok_or,
}
use hedronetes_h3s.Prelude.Results.{◌>>=◌}
use hedronetes_h3s.Auth.Rbac.{User, has_text}

pub record Certificate : Type 0 where
  pub remaining : Bool
  pub common_names : List (Option String)
  pub organizations : List (Option String)

pub data InvalidIdentity : Type 0 where
  invalid_identity : InvalidIdentity

abbrev pub R : Type 0 → Type 0
R A = Result InvalidIdentity A

-- `char::is_control`
abbrev is_control : ℕ → Bool
is_control c = leb c 31 || (leb 127 c && leb c 159)

-- `name.is_empty() || name.chars().any(char::is_control)`
abbrev pub refused : String → Bool
refused s = str_eq s "" || any is_control (codes s)

abbrev pub text_ok : Option String → R String
text_ok none = err invalid_identity
text_ok (some s) = if refused s then err invalid_identity else ok s

-- `names.len() != 1`
abbrev pub only_name : List (Option String) → R String
only_name [] = err invalid_identity
only_name (n ∷ []) = text_ok n
only_name (n ∷ m ∷ ms) = err invalid_identity

-- `if !groups.iter().any(|g| g == org) { groups.push(org) }`
abbrev pub push_new : List String → String → List String
push_new groups org = if has_text groups org then groups else groups ++ (org ∷ [])

-- The loop over the organizations.
abbrev pub add_groups : List String → List (Option String) → R (List String)
add_groups groups [] = ok groups
add_groups groups (o ∷ os) = text_ok o >>= λ org. add_groups (push_new groups org) os

abbrev pub user_of : Certificate → R User
user_of c =
    if c.remaining
    then err invalid_identity
    else (only_name c.common_names >>= λ name. add_groups [] c.organizations >>= λ groups.
        ok (record { name = name; groups = push_new groups "system:authenticated" }))

unfoldable pub from_verified_certificate : (List ℕ → Option Certificate) → List ℕ → R User
from_verified_certificate from_der der = ok_or (from_der der) invalid_identity >>= user_of
