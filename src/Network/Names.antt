-- ===== src/Network/Names.antt =====
-- crates/h3s-api/src/lib.rs: `valid_node_name`. A name that passes is ASCII, so bytes are characters.
use hedronetes_h3s.Prelude.{
  ℕ, String, List, [], ◌∷◌, Bool, false, ◌&&◌, ◌||◌, not, leb, ◌==◌, all, is_empty, length, codes,
  split, is_digit, is_lowercase, is_alphanumeric,
}

abbrev first_ok : List ℕ → Bool
first_ok [] = false
first_ok (c ∷ cs) = is_alphanumeric c

abbrev last_ok : List ℕ → Bool
last_ok [] = false
last_ok (c ∷ []) = is_alphanumeric c
last_ok (c ∷ d ∷ ds) = last_ok (d ∷ ds)

abbrev label_char : ℕ → Bool
label_char c = is_lowercase c || is_digit c || c == b'-'

abbrev pub label_ok : List ℕ → Bool
label_ok label =
    not (is_empty label)
    && leb (length label) 63
    && first_ok label
    && last_ok label
    && all label_char label

unfoldable pub valid_node_name : String → Bool
valid_node_name name =
    not (is_empty (codes name))
    && leb (length (codes name)) 253
    && all label_ok (split b'.' (codes name))
