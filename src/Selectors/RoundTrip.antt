-- ===== src/Selectors/RoundTrip.antt =====
-- crates/h3s-apiserver/src/selectors.rs: a field selector that is written with escapes is read back.
use mathlib.Core.List.{append_assoc, append-nil}
use hedronetes_h3s.Prelude.{
  byte_length, ℕ, ◌≤◌, String, List, [], ◌∷◌, ◌++◌, Bool, true, false, ◌≡◌, refl, sym, ap, ◌∙◌, inl,
  inr, some, if◌then◌else◌, ltb, all, any→In, all→In, is_empty, map, arith, codes, codes_eq,
  codes_eq_iff, str_eq, Bool-cases, In, here, there, ok, err, collect,
}
use hedronetes_h3s.Selectors.Text.{R, bad, one_of, Requirement, trim}
use hedronetes_h3s.Selectors.Fields.{
  field_pieces, split_fields, unescape, Split, find_operator, requirement_of, parse_split,
  parse_field, supported, member, kind_fields,
}
use hedronetes_h3s.Selectors.Labels.{split_labels}
use hedronetes_h3s.Selectors.Selection.{parse}
use hedronetes_h3s.Selectors.Written.{
  escape, written_one, written, plain_char, no_space, field_pieces-escape, field_pieces-plain,
  unescape-escape, unescape-plain, find_operator-plain, after_equals-escape, no_space-escape,
  no_space-plain, no_space-append, trim-no_space,
}

-- The keys of the source are plain.
all_plain : List String → Bool
all_plain words = all (λ w. all plain_char (codes w)) words

kind_fields-plain : (kind : String) → all_plain (kind_fields kind) ≡ true
unfolding all_plain
kind_fields-plain kind = elim (Bool-cases (str_eq kind "Pod")) [
  | inl a ↦ rw a refl
  | inr a ↦ elim (Bool-cases (str_eq kind "Node")) [
    | inl b ↦ rw (a, b) refl
    | inr b ↦ elim (Bool-cases (str_eq kind "Namespace")) [
      | inl c ↦ rw (a, b, c) refl
      | inr c ↦ elim (Bool-cases (str_eq kind "Secret")) [
        | inl d ↦ rw (a, b, c, d) refl
        | inr d ↦ elim (Bool-cases (str_eq kind "Service")) [
          | inl e ↦ rw (a, b, c, d, e) refl
          | inr e ↦ elim (Bool-cases (str_eq kind "ReplicaSet")) [
            | inl f ↦ rw (a, b, c, d, e, f) refl
            | inr f ↦ rw (a, b, c, d, e, f) refl
          ]
        ]
      ]
    ]
  ]
]

member-plain :
    (words : List String) (k : List ℕ)
    → all_plain words ≡ true
    → member words k ≡ true
    → all plain_char k ≡ true
unfolding all_plain
member-plain words k h m =
    let (w, i, e) = any→In (λ w. codes_eq k (codes w)) words m in
    let q = (codes_eq_iff k (codes w)).0 e in
    ap (all plain_char) q ∙ all→In (λ w. all plain_char (codes w)) words h w i

supported-plain : (k : List ℕ) (kind : String) → supported k kind ≡ true → all plain_char k ≡ true
unfolding all_plain
supported-plain k kind h =
    elim (Bool-cases (member ("metadata.name" ∷ "metadata.namespace" ∷ []) k)) [
      | inl e ↦ member-plain ("metadata.name" ∷ "metadata.namespace" ∷ []) k refl e
      | inr e ↦
          let m : member (kind_fields kind) k ≡ true = ground arith in
          member-plain (kind_fields kind) k (kind_fields-plain kind) m
    ]

abbrev pub required : List ℕ × List ℕ → Requirement
required f = record { key = f.0; op = one_of (f.1 ∷ []) }

-- A field that the kind has, and a value without spaces
abbrev pub IsField : String → List ℕ × List ℕ → Type 0
IsField kind f = (supported f.0 kind ≡ true) × (no_space f.1 ≡ true)

written_one-no_space :
    (kind : String) (f : List ℕ × List ℕ) → IsField kind f → no_space (written_one f) ≡ true
written_one-no_space kind f (s, n) =
    no_space-append f.0 (b'=' ∷ escape f.1) (no_space-plain f.0 (supported-plain f.0 kind s))
      (no_space-escape f.1 n)

parse_field-written_one :
    (kind : String) (f : List ℕ × List ℕ)
    → IsField kind f
    → parse_field kind (written_one f) ≡ ok (required f)
unfolding parse_field
parse_field-written_one kind (k, v) (s, n) =
    let p = supported-plain k kind s in
    let text = k ++ b'=' ∷ escape v in
    let a = trim-no_space text (written_one-no_space kind (k, v) (s, n)) in
    let found : Split = record { before = k; after = escape v; negated = false } in
    let b : find_operator false text ≡ some found =
      find_operator-plain k (escape v) p
      ∙ ap (λ x. some (record { before = k; after = x; negated = false }))
          (after_equals-escape v) in
    let c = ap unescape (trim-no_space k (no_space-plain k p)) ∙ unescape-plain k p in
    let d = ap unescape (trim-no_space (escape v) (no_space-escape v n)) ∙ unescape-escape v in
    ap (λ t. parse_split kind (find_operator false t)) a
    ∙ ap (parse_split kind) b
    ∙ ap (λ x. requirement_of kind false x (unescape (trim (escape v)))) c
    ∙ ap (requirement_of kind false (some k)) d
    ∙ ap
        (λ t.
          if t
          then ok (required (k, v))
          else err (bad "unsupported field selector for this resource"))
        s

one_piece :
    (kind : String) (f : List ℕ × List ℕ) (rest p : List ℕ) (ps : List (List ℕ))
    → IsField kind f
    → field_pieces false rest ≡ ok (p ∷ ps)
    → field_pieces false (written_one f ++ rest) ≡ ok ((written_one f ++ p) ∷ ps)
one_piece kind (k, v) rest p ps (s, n) h =
    let e = field_pieces-escape v rest p ps h in
    let g : field_pieces false (b'=' ∷ escape v ++ rest) ≡ ok ((b'=' ∷ escape v ++ p) ∷ ps) =
      rw e refl in
    let w =
      field_pieces-plain k (b'=' ∷ escape v ++ rest) (b'=' ∷ escape v ++ p) ps
        (supported-plain k kind s) g in
    ap (field_pieces false) (append_assoc k (b'=' ∷ escape v) rest)
    ∙ w
    ∙ ap (λ t. ok (t ∷ ps)) (sym (append_assoc k (b'=' ∷ escape v) p))

written-pieces :
    (kind : String) (f : List ℕ × List ℕ) (fs : List (List ℕ × List ℕ))
    → ((g : List ℕ × List ℕ) → In g (f ∷ fs) → IsField kind g)
    → field_pieces false (written (f ∷ fs)) ≡ ok (map written_one (f ∷ fs))
written-pieces kind f [] h =
    let w = one_piece kind f [] [] [] (h f (here refl)) refl in
    ap (field_pieces false) (sym (append-nil (written_one f)))
    ∙ w
    ∙ ap (λ t. ok (t ∷ [])) (append-nil (written_one f))
written-pieces kind f (g ∷ gs) h =
    let ih = written-pieces kind g gs (λ x m. h x (there m)) in
    let tail : field_pieces false (b',' ∷ written (g ∷ gs)) ≡ ok ([] ∷ map written_one (g ∷ gs)) =
      rw ih refl in
    one_piece kind f (b',' ∷ written (g ∷ gs)) [] (map written_one (g ∷ gs)) (h f (here refl)) tail
    ∙ ap (λ t. ok (t ∷ map written_one (g ∷ gs))) (append-nil (written_one f))

written-no_space :
    (kind : String) (fs : List (List ℕ × List ℕ))
    → ((g : List ℕ × List ℕ) → In g fs → IsField kind g)
    → no_space (written fs) ≡ true
written-no_space kind [] h = refl
written-no_space kind (f ∷ []) h = written_one-no_space kind f (h f (here refl))
written-no_space kind (f ∷ g ∷ gs) h =
    no_space-append (written_one f) (b',' ∷ written (g ∷ gs))
      (written_one-no_space kind f (h f (here refl)))
      (written-no_space kind (g ∷ gs) (λ x m. h x (there m)))

non_empty : (s t : List ℕ) (c : ℕ) → is_empty (s ++ c ∷ t) ≡ false
non_empty [] t c = refl
non_empty (x ∷ xs) t c = refl

written-non_empty :
    (f : List ℕ × List ℕ) (fs : List (List ℕ × List ℕ)) → is_empty (written (f ∷ fs)) ≡ false
written-non_empty f [] = non_empty f.0 (escape f.1) b'='
written-non_empty f (g ∷ gs) = non_empty (written_one f) (written (g ∷ gs)) b','

split_fields-written :
    (kind : String) (fs : List (List ℕ × List ℕ))
    → ((g : List ℕ × List ℕ) → In g fs → IsField kind g)
    → byte_length (written fs) ≤ 8192
    → split_fields (written fs) ≡ ok (map written_one fs)
unfolding split_fields
split_fields-written kind [] h l = refl
split_fields-written kind (f ∷ fs) h l =
    let text = written (f ∷ fs) in
    let a =
      ap is_empty (trim-no_space text (written-no_space kind (f ∷ fs) h))
      ∙ written-non_empty f fs in
    let b : ltb 8192 (byte_length text) ≡ false = ground arith in
    let c = written-pieces kind f fs h in
    let outcome : Bool → Bool → R (List (List ℕ)) = λ x y.
      if x
      then ok []
      else if y
      then err (bad "field selector exceeds limit")
      else field_pieces false text in
    ap (λ x. outcome x (ltb 8192 (byte_length text))) a ∙ ap (outcome false) b ∙ c

collect-written :
    (kind : String) (fs : List (List ℕ × List ℕ))
    → ((g : List ℕ × List ℕ) → In g fs → IsField kind g)
    → collect (parse_field kind) (map written_one fs) ≡ ok (map required fs)
collect-written kind [] h = refl
collect-written kind (f ∷ fs) h =
    let a = parse_field-written_one kind f (h f (here refl)) in
    let b = collect-written kind fs (λ g m. h g (there m)) in rw (a, b) refl

-- A field selector that is written from fields of the kind and values without spaces, each comma,
-- equals sign and backslash of a value escaped, is read back as those fields and values, within the
-- limit of 8192 bytes.
pub parse-written :
    (kind : String) (fs : List (List ℕ × List ℕ))
    → ((g : List ℕ × List ℕ) → In g fs → IsField kind g)
    → byte_length (written fs) ≤ 8192
    → parse [] (written fs) kind ≡ ok (record { labels = []; fields = map required fs })
unfolding parse split_labels
parse-written kind fs h l =
    let a = split_fields-written kind fs h l in let b = collect-written kind fs h in rw (a, b) refl
