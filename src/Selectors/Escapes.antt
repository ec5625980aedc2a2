-- ===== src/Selectors/Escapes.antt =====
-- crates/h3s-apiserver/src/selectors.rs: the `unwrap` of `unescape` never fails on what
-- `split_fields` lets through, since escapes stay whole when a text is cut and trimmed.
use mathlib.Core.Option
use hedronetes_h3s.Prelude.{
  byte_length, ℕ, String, List, [], ◌∷◌, Bool, true, false, ◌&&◌, ◌≡◌, ◌≢◌, ◌⊎◌, refl, sym, ap, ◌∙◌,
  subst, inl, inr, Option, none, some, if◌then◌else◌, ltb, ◌==◌, is_empty, arith, Bool-cases,
  Option-cases, and-eq-true, In, all→In, ok, err,
}
use hedronetes_h3s.Selectors.Text.{panicked, trim, trim_start}
use hedronetes_h3s.Selectors.Fields.{
  escapable, split_fields, Split, find_operator, after_char, drop_one, after_equals, next_is,
  requirement_of, parse_split, parse_field, supported,
}
use hedronetes_h3s.Selectors.Trims.{
  well_escaped, unescape-some, well_next, pieces_well, trim_start-well, trim_end-well,
}

same_split : {p q : Split} → ◌≡◌ {A = Option Split} (some p) (some q) → p ≡ q
same_split h = cc

branches :
    {A : Type 0} (a b c : Bool) (w x y z : A) {v : A}
    → (if a then w else if b then x else if c then y else z) ≡ v
    → ((a ≡ true) × (w ≡ v))
      ⊎ (((a ≡ false) × (b ≡ true) × (x ≡ v))
          ⊎ (((a ≡ false) × (b ≡ false) × (c ≡ true) × (y ≡ v))
              ⊎ ((a ≡ false) × (b ≡ false) × (c ≡ false) × (z ≡ v))))
branches true b c w x y z h = inl (refl, h)
branches false true c w x y z h = inr (inl (refl, refl, h))
branches false false true w x y z h = inr (inr (inl (refl, refl, refl, h)))
branches false false false w x y z h = inr (inr (inr (refl, refl, refl, h)))

drop_one-well :
    (cs : List ℕ)
    → next_is b'=' cs ≡ true
    → well_escaped false cs ≡ true
    → well_escaped false (drop_one cs) ≡ true
drop_one-well [] n h = refl
drop_one-well (d ∷ ds) n h =
    let k : (d == b'\\') ≡ false = ground arith in sym (well_next d ds k) ∙ h

after_equals-well :
    (cs : List ℕ) → well_escaped false cs ≡ true → well_escaped false (after_equals cs) ≡ true
after_equals-well [] h = refl
after_equals-well (d ∷ ds) h = elim (Bool-cases (d == b'=')) [
  | inl k ↦ let q : (d == b'\\') ≡ false = ground arith in rw k (sym (well_next d ds q) ∙ h)
  | inr k ↦ rw k h
]

abbrev Both : Bool → Split → Type 0
Both b p = (well_escaped b p.before ≡ true) × (well_escaped false p.after ≡ true)

well_cut :
    (b : Bool) (s : List ℕ) (p : Split)
    → well_escaped b s ≡ true
    → find_operator b s ≡ some p
    → Both b p
well_cut b [] p h e = absurd (ground arith)
well_cut true (c ∷ cs) p h e = elim (Option-cases (find_operator false cs)) [
  | inl n ↦ absurd (ground arith)
  | inr (q, n) ↦
      let (a, d) = well_cut false cs q (and-eq-true (escapable c) _ h).1 n in
      let f : after_char c q ≡ p = ground arith in
      subst (λ x. (well_escaped true x.before ≡ true) × (well_escaped false x.after ≡ true)) f
        (rw (and-eq-true (escapable c) _ h).0 a, d)
]
well_cut false (c ∷ cs) p h e =
    let rest = Option.map (after_char c) (find_operator (c == b'\\') cs) in
    let later : rest ≡ some p → Both false p = λ x.
      elim (Option-cases (find_operator (c == b'\\') cs)) [
        | inl n ↦ absurd (let z : rest ≡ none = ap (Option.map (after_char c)) n in ground arith)
        | inr (q, n) ↦
            let (a, d) = well_cut (c == b'\\') cs q h n in
            let z : rest ≡ some (after_char c q) = ap (Option.map (after_char c)) n in
            let f : after_char c q ≡ p = same_split (sym z ∙ x) in
            subst (λ x. (well_escaped false x.before ≡ true) × (well_escaped false x.after ≡ true))
              f (a, d)
      ] in
    elim (branches (c == b'\\') (c == b'!' && next_is b'=' cs) (c == b'=') rest
      (some (record { before = []; after = drop_one cs; negated = true }))
      (some (record { before = []; after = after_equals cs; negated = false })) rest e) [
        | inl (k, x) ↦ later x
        | inr (inl (k, m, x)) ↦
            let t : next_is b'=' cs ≡ true = ground arith in
            subst (Both false) (same_split x)
              (refl, drop_one-well cs t (sym (well_next c cs k) ∙ h))
        | inr (inr (inl (k, m, n, x))) ↦
            subst (Both false) (same_split x)
              (refl, after_equals-well cs (sym (well_next c cs k) ∙ h))
        | inr (inr (inr (k, m, n, x))) ↦ later x
      ]

trim-well : (s : List ℕ) → well_escaped false s ≡ true → well_escaped false (trim s) ≡ true
trim-well s h = trim_end-well false (trim_start s) (trim_start-well s h)

requirement-safe :
    (kind : String) (negated : Bool) (key value : List ℕ)
    → requirement_of kind negated (some key) (some value) ≢ err panicked
requirement-safe kind negated key value h = elim (Bool-cases (supported key kind)) [
  | inl k ↦ absurd (ground arith)
  | inr k ↦ absurd (ground arith)
]

split-safe :
    (kind : String) (o : Option Split) (s : List ℕ)
    → well_escaped false s ≡ true
    → find_operator false s ≡ o
    → parse_split kind o ≢ err panicked
split-safe kind none s w e h = absurd (cc)
split-safe kind (some q) s w e h =
    let (a, b) = well_cut false s q w e in
    let (key, k) = unescape-some false (trim q.before) (trim-well q.before a) in
    let (value, v) = unescape-some false (trim q.after) (trim-well q.after b) in
    requirement-safe kind q.negated key value (rw (k, v) at h)

fields_well :
    (s : List ℕ) (ps : List (List ℕ))
    → split_fields s ≡ ok ps
    → (p : List ℕ) → In p ps
    → well_escaped false p ≡ true
unfolding split_fields
fields_well s ps h p m = elim (Bool-cases (is_empty (trim s))) [
  | inl k ↦ let e : [] ≡ ps = ground arith in let n = subst (λ l. In p l) (sym e) m in elim n [ ]
  | inr k ↦ elim (Bool-cases (ltb 8192 (byte_length s))) [
    | inl n ↦ absurd (ground arith)
    | inr n ↦ all→In (well_escaped false) ps (pieces_well false s ps (ground arith)) p m
  ]
]

-- The `unwrap` of `unescape` never fails: no piece that split_fields gives makes parse_field panic,
-- for any kind.
pub parse_field-split_fields :
    (s p : List ℕ) (ps : List (List ℕ)) (kind : String)
    → split_fields s ≡ ok ps
    → In p ps
    → parse_field kind p ≢ err panicked
unfolding split_fields parse_field
parse_field-split_fields s p ps kind h m e =
    split-safe kind (find_operator false (trim p)) (trim p) (trim-well p (fields_well s ps h p m))
      refl e
