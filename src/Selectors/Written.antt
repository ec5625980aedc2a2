-- ===== src/Selectors/Written.antt =====
-- crates/h3s-apiserver/src/selectors.rs: fields written with escapes, and what the parser makes of
-- their parts.
use hedronetes_h3s.Prelude.{
  ℕ, List, [], ◌∷◌, ◌++◌, Bool, true, false, ◌&&◌, not, ◌≡◌, refl, ap, ◌∙◌, inl, inr, some,
  if◌then◌else◌, ◌==◌, all, arith, Bool-cases, and-eq-true, ok,
}
use hedronetes_h3s.Selectors.Text.{is_whitespace, trim, trim_start, trim_end, keep_or_drop}
use hedronetes_h3s.Selectors.Fields.{escapable, field_pieces, unescape, find_operator, after_equals}

-- What a client writes: a backslash before each comma, equals sign and backslash of a value.
abbrev pub escape : List ℕ → List ℕ
escape [] = []
escape (c ∷ cs) = let rest = escape cs in if escapable c then b'\\' ∷ c ∷ rest else c ∷ rest

-- A key and the value that it must have
abbrev pub written_one : List ℕ × List ℕ → List ℕ
written_one f = f.0 ++ b'=' ∷ escape f.1

abbrev pub written : List (List ℕ × List ℕ) → List ℕ
written [] = []
written (f ∷ []) = written_one f
written (f ∷ g ∷ fs) = written_one f ++ b',' ∷ written (g ∷ fs)

-- No character that the parser of fields looks at, and no space.
abbrev pub plain_char : ℕ → Bool
plain_char c = not (escapable c) && not (c == b'!') && not (is_whitespace c)

abbrev pub no_space : List ℕ → Bool
no_space s = all (λ c. not (is_whitespace c)) s

pub field_pieces-escape :
    (v rest p : List ℕ) (ps : List (List ℕ))
    → field_pieces false rest ≡ ok (p ∷ ps)
    → field_pieces false (escape v ++ rest) ≡ ok ((escape v ++ p) ∷ ps)
field_pieces-escape [] rest p ps h = h
field_pieces-escape (c ∷ cs) rest p ps h =
    let ih = field_pieces-escape cs rest p ps h in
    elim (Bool-cases (escapable c)) [
      | inl e ↦ rw (e, e, ih) refl
      | inr e ↦
          let a : (c == b'\\') ≡ false = ground arith in
          let b : (c == b',') ≡ false = ground arith in rw (e, a, b, ih) refl
    ]

pub field_pieces-plain :
    (k rest p : List ℕ) (ps : List (List ℕ))
    → all plain_char k ≡ true
    → field_pieces false rest ≡ ok (p ∷ ps)
    → field_pieces false (k ++ rest) ≡ ok ((k ++ p) ∷ ps)
field_pieces-plain [] rest p ps k h = h
field_pieces-plain (c ∷ cs) rest p ps k h =
    let (e, f) = and-eq-true (plain_char c) (all plain_char cs) k in
    let ih = field_pieces-plain cs rest p ps f h in
    let a : (c == b'\\') ≡ false = ground arith in
    let b : (c == b',') ≡ false = ground arith in rw (a, b, ih) refl

pub unescape-escape : (v : List ℕ) → unescape (escape v) ≡ some v
unescape-escape [] = refl
unescape-escape (c ∷ cs) = elim (Bool-cases (escapable c)) [
  | inl e ↦ rw (e, unescape-escape cs) refl
  | inr e ↦ let a : (c == b'\\') ≡ false = ground arith in rw (e, a, unescape-escape cs) refl
]

pub unescape-plain : (k : List ℕ) → all plain_char k ≡ true → unescape k ≡ some k
unescape-plain [] h = refl
unescape-plain (c ∷ cs) h =
    let (e, f) = and-eq-true (plain_char c) (all plain_char cs) h in
    let a : (c == b'\\') ≡ false = ground arith in rw (a, unescape-plain cs f) refl

pub find_operator-plain :
    (k rest : List ℕ)
    → all plain_char k ≡ true
    → find_operator false (k ++ b'=' ∷ rest)
      ≡ some (record { before = k; after = after_equals rest; negated = false })
find_operator-plain [] rest h = refl
find_operator-plain (c ∷ cs) rest h =
    let (e, f) = and-eq-true (plain_char c) (all plain_char cs) h in
    let a : (c == b'\\') ≡ false = ground arith in
    let b : (c == b'=') ≡ false = ground arith in
    let d : (c == b'!') ≡ false = ground arith in rw (a, b, d, find_operator-plain cs rest f) refl

pub after_equals-escape : (v : List ℕ) → after_equals (escape v) ≡ escape v
after_equals-escape [] = refl
after_equals-escape (c ∷ cs) = elim (Bool-cases (escapable c)) [
  | inl e ↦ rw e refl
  | inr e ↦ let a : (c == b'=') ≡ false = ground arith in rw (e, a) refl
]

pub no_space-escape : (v : List ℕ) → no_space v ≡ true → no_space (escape v) ≡ true
no_space-escape [] h = refl
no_space-escape (c ∷ cs) h =
    let (e, f) = and-eq-true (not (is_whitespace c)) (no_space cs) h in
    let ih = no_space-escape cs f in
    elim (Bool-cases (escapable c)) [ inl k ↦ rw (k, e, ih) refl | inr k ↦ rw (k, e, ih) refl ]

pub no_space-plain : (k : List ℕ) → all plain_char k ≡ true → no_space k ≡ true
no_space-plain [] h = refl
no_space-plain (c ∷ cs) h =
    let (e, f) = and-eq-true (plain_char c) (all plain_char cs) h in
    let ih = no_space-plain cs f in
    let a : is_whitespace c ≡ false = ground arith in rw (a, ih) refl

pub no_space-append :
    (s t : List ℕ) → no_space s ≡ true → no_space t ≡ true → no_space (s ++ t) ≡ true
no_space-append [] t h g = g
no_space-append (c ∷ cs) t h g =
    let (e, f) = and-eq-true (not (is_whitespace c)) (no_space cs) h in
    rw (e, no_space-append cs t f g) refl

trim_end-no_space : (s : List ℕ) → no_space s ≡ true → trim_end s ≡ s
trim_end-no_space [] h = refl
trim_end-no_space (c ∷ []) h = let a : is_whitespace c ≡ false = ground arith in rw a refl
trim_end-no_space (c ∷ d ∷ ds) h =
    let (e, f) = and-eq-true (not (is_whitespace c)) (no_space (d ∷ ds)) h in
    ap (keep_or_drop c) (trim_end-no_space (d ∷ ds) f)

pub trim-no_space : (s : List ℕ) → no_space s ≡ true → trim s ≡ s
trim-no_space [] h = refl
trim-no_space (c ∷ cs) h =
    let (e, f) = and-eq-true (not (is_whitespace c)) (no_space cs) h in
    let a : is_whitespace c ≡ false = ground arith in
    ap trim_end {x = trim_start (c ∷ cs)} {y = c ∷ cs} (rw a refl) ∙ trim_end-no_space (c ∷ cs) h
