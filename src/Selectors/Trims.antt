-- ===== src/Selectors/Trims.antt =====
-- crates/h3s-apiserver/src/selectors.rs: escapes stay whole when a text is cut and trimmed.
use mathlib.Core.Option
use hedronetes_h3s.Prelude.{
  ℕ, List, [], ◌∷◌, Bool, true, false, ◌&&◌, ◌≡◌, refl, sym, ap, ◌∙◌, subst, inl, inr, some, ◌==◌,
  all, arith, Bool-cases, and-eq-true, ok,
}
use hedronetes_h3s.Prelude.Results.{>>=-eq-ok}
use hedronetes_h3s.Selectors.Text.{is_whitespace, trim_start, trim_end, keep_or_drop, in_first}
use hedronetes_h3s.Selectors.Fields.{escapable, field_pieces, unescape_from}

-- Every backslash is followed by a character that it may escape; the flag says whether one stands
-- before the text.
abbrev pub well_escaped : Bool → List ℕ → Bool
well_escaped true [] = false
well_escaped false [] = true
well_escaped true (c ∷ cs) = escapable c && well_escaped false cs
well_escaped false (c ∷ cs) = well_escaped (c == b'\\') cs

pub unescape-some :
    (b : Bool) (s : List ℕ) → well_escaped b s ≡ true → (r : List ℕ) × (unescape_from b s ≡ some r)
unescape-some true [] h = absurd (ground arith)
unescape-some false [] h = ([], refl)
unescape-some true (c ∷ cs) h =
    let (r, e) = unescape-some false cs (and-eq-true (escapable c) _ h).1 in (c ∷ r, rw e refl)
unescape-some false (c ∷ cs) h =
    let (r, e) = unescape-some (c == b'\\') cs h in
    elim (Bool-cases (c == b'\\')) [
      | inl k ↦ (r, rw k (ap (λ b. unescape_from b cs) (sym k) ∙ e))
      | inr k ↦ (
        c ∷ r,
        rw k (
            ap (λ b. Option.map (λ r. c ∷ r) (unescape_from b cs)) (sym k)
            ∙ ap (Option.map (λ r. c ∷ r)) e),
      )
    ]

pub well_next :
    (c : ℕ) (cs : List ℕ)
    → (c == b'\\') ≡ false
    → well_escaped false (c ∷ cs) ≡ well_escaped false cs
well_next c cs k = ap (λ b. well_escaped b cs) k

in_first-well :
    (c : ℕ) (ps : List (List ℕ))
    → (c == b'\\') ≡ false
    → all (well_escaped false) ps ≡ true
    → all (well_escaped false) (in_first c ps) ≡ true
in_first-well c [] k h = ap (λ b. b && true) (well_next c [] k)
in_first-well c (p ∷ ps) k h = ap (λ b. b && all (well_escaped false) ps) (well_next c p k) ∙ h

escaped-well :
    (c : ℕ) (ps : List (List ℕ))
    → escapable c ≡ true
    → all (well_escaped false) ps ≡ true
    → all (well_escaped false) (in_first b'\\' (in_first c ps)) ≡ true
escaped-well c [] k h = rw k refl
escaped-well c (p ∷ ps) k h = rw k h

pub pieces_well :
    (b : Bool) (s : List ℕ) (ps : List (List ℕ))
    → field_pieces b s ≡ ok ps
    → all (well_escaped false) ps ≡ true
pieces_well true [] ps h = absurd (ground arith)
pieces_well false [] ps h =
    let e : [] ∷ [] ≡ ps = cc in subst (λ l. all (well_escaped false) l ≡ true) e refl
pieces_well true (c ∷ cs) ps h = elim (Bool-cases (escapable c)) [
  | inr k ↦ absurd (ground arith)
  | inl k ↦
      let (qs, e, g) =
        >>=-eq-ok (field_pieces false cs) (λ qs. ok (in_first b'\\' (in_first c qs))) (rw k at h) in
      let f : in_first b'\\' (in_first c qs) ≡ ps = cc in
      subst (λ l. all (well_escaped false) l ≡ true) f
        (escaped-well c qs k (pieces_well false cs qs e))
]
pieces_well false (c ∷ cs) ps h = elim (Bool-cases (c == b'\\')) [
  | inl k ↦ pieces_well true cs ps (rw k at h)
  | inr k ↦ elim (Bool-cases (c == b',')) [
    | inl m ↦
        let (qs, e, g) = >>=-eq-ok (field_pieces false cs) (λ qs. ok ([] ∷ qs)) (rw (k, m) at h) in
        let f : [] ∷ qs ≡ ps = cc in
        subst (λ l. all (well_escaped false) l ≡ true) f (pieces_well false cs qs e)
    | inr m ↦
        let (qs, e, g) =
          >>=-eq-ok (field_pieces false cs) (λ qs. ok (in_first c qs)) (rw (k, m) at h) in
        let f : in_first c qs ≡ ps = cc in
        subst (λ l. all (well_escaped false) l ≡ true) f
          (in_first-well c qs k (pieces_well false cs qs e))
  ]
]

space_lem : (c : ℕ) → is_whitespace c ≡ true → ((c == b'\\') ≡ false) × (escapable c ≡ false)
space_lem c h = ground arith

pub trim_start-well :
    (s : List ℕ) → well_escaped false s ≡ true → well_escaped false (trim_start s) ≡ true
trim_start-well [] h = refl
trim_start-well (c ∷ cs) h = elim (Bool-cases (is_whitespace c)) [
  | inr k ↦ rw k h
  | inl k ↦ rw k (trim_start-well cs (sym (well_next c cs (space_lem c k).0) ∙ h))
]

last_char-well :
    (c : ℕ) → well_escaped (c == b'\\') [] ≡ true → well_escaped false (keep_or_drop c []) ≡ true
last_char-well c h = elim (Bool-cases (is_whitespace c)) [ inl k ↦ rw k refl | inr k ↦ rw k h ]

escaped_end :
    (c : ℕ) (t : List ℕ)
    → escapable c ≡ true
    → is_whitespace c ≡ false
    → well_escaped false t ≡ true
    → well_escaped true (keep_or_drop c t) ≡ true
escaped_end c [] e k h = rw (k, e) refl
escaped_end c (d ∷ ds) e k h = rw e h

plain_end :
    (c : ℕ) (t : List ℕ)
    → well_escaped (c == b'\\') t ≡ true
    → well_escaped false (keep_or_drop c t) ≡ true
plain_end c [] h = last_char-well c h
plain_end c (d ∷ ds) h = h

pub trim_end-well :
    (b : Bool) (s : List ℕ) → well_escaped b s ≡ true → well_escaped b (trim_end s) ≡ true
trim_end-well b [] h = h
trim_end-well true (c ∷ cs) h =
    let (e, g) = and-eq-true (escapable c) _ h in
    let k : is_whitespace c ≡ false = elim (Bool-cases (is_whitespace c)) [
      | inl k ↦ absurd (let q = (space_lem c k).1 in ground arith)
      | inr k ↦ k
    ] in
    escaped_end c (trim_end cs) e k (trim_end-well false cs g)
trim_end-well false (c ∷ cs) h = plain_end c (trim_end cs) (trim_end-well (c == b'\\') cs h)
