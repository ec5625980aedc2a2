-- ===== src/Patch/Apply.antt =====
-- crates/h3s-apiserver/src/patch.rs: `apply` and `check_size`. The JSON codec and the json_patch
-- crate are parameters.
use hedronetes_h3s.Prelude.{
  ℕ, ◌*◌, ◌≤◌, String, List, [], ◌∷◌, ◌++◌, Bool, true, ◌||◌, ◌≡◌, ◌⊎◌, refl, subst, inl, inr,
  Option, if◌then◌else◌, ltb, arith, length, codes, codes_eq, split, ok, err, ok_or, >>=-eq-ok,
  ok-injective, Bool-cases,
}
use hedronetes_h3s.Prelude.Results.{◌>>=◌, ◌>>◌}
use hedronetes_h3s.Json.{Value}
use hedronetes_h3s.Selectors.Text.{trim}
use hedronetes_h3s.Patch.Budget.{R, invalid, too_large}
use hedronetes_h3s.Patch.Merge

abbrev pub max_object_bytes : ℕ
max_object_bytes = 2 * 1024 * 1024

abbrev head : List (List ℕ) → List ℕ
head [] = []
head (p ∷ ps) = p

-- `content_type.split(';').next().unwrap_or("").trim()`
abbrev pub media_type : List ℕ → List ℕ
media_type content_type = trim (head (split b';' content_type))

abbrev pub is_media : String → List ℕ → Bool
is_media name content_type = codes_eq (media_type content_type) (codes name)

-- What the JSON codec and json_patch provide: the two decoders, the length of an encoding, RFC
-- 7396's merge, and one operation of RFC 6902.
pub record Codec : Type 1 where
  pub Operation : Type 0
  pub from_slice : List ℕ → R Value
  pub operations_from_slice : List ℕ → R (List Operation)
  pub encoded_length : Value → R ℕ
  pub merge : Value → Value → Value
  pub patch : Value → Operation → Option Value

module _ (codec : Codec) where
  abbrev pub check_size : Value → R (Unit {0})
  check_size value = codec.encoded_length value >>= λ n.
      if ltb max_object_bytes n then err (too_large "resulting object exceeds 2 MiB") else ok tt

  -- The loop over the operations of a JSON patch
  abbrev pub run : List codec.Operation → Value → R Value
  run [] original = ok original
  run (operation ∷ operations) original =
      ok_or (codec.patch original operation) (invalid "JSON patch operation failed") >>= λ next.
      check_size next >> run operations next

  abbrev checked : Value → R Value
  checked value = check_size value >> ok value

  unfoldable pub apply : Value → String → Value → List ℕ → List ℕ → R Value
  apply schemas kind original bytes content_type =
      if is_media "application/strategic-merge-patch+json" content_type
      then (codec.from_slice bytes >>= λ patch. Merge.apply schemas kind original patch >>= checked)
      else if is_media "application/merge-patch+json" content_type
      then (codec.from_slice bytes >>= λ patch. checked (codec.merge original patch))
      else if is_media "application/json-patch+json" content_type
      then (codec.operations_from_slice bytes >>= λ operations.
          if ltb 256 (length operations)
          then err (too_large "JSON patch exceeds 256 operations")
          else run operations original)
      else if is_media "application/apply-patch+json" content_type
          || is_media "application/apply-patch+yaml" content_type
      then err (record {
        code = 400;
        reason = "BadRequest";
        message = "server-side apply reaches the apply path, not this codec";
      })
      else err (record {
        code = 415;
        reason = "UnsupportedMediaType";
        message =
            "supported patch types: application/json-patch+json, application/merge-patch+json, application/strategic-merge-patch+json";
      })

  -- The encoding of a value stays within the limit.
  abbrev pub Fits : Value → Type 0
  Fits v = (n : ℕ) × (codec.encoded_length v ≡ ok n) × (n ≤ max_object_bytes)

  check_size-Fits : (v : Value) → check_size v ≡ ok tt → Fits v
  check_size-Fits v h =
      let (n, e, g) = >>=-eq-ok (codec.encoded_length v) _ h in
      elim (Bool-cases (ltb max_object_bytes n)) [
        | inl t ↦ absurd (let q = rw t at g in cc)
        | inr t ↦ (n, e, ground arith)
      ]

  checked-Fits : (v w : Value) → checked v ≡ ok w → Fits w
  checked-Fits v w h =
      let (u, e, g) = >>=-eq-ok (check_size v) (λ _. ok v) h in
      let q : v ≡ w = cc in subst Fits q (check_size-Fits v e)

  -- The object after any number of operations of a JSON patch fits, if the whole patch succeeds.
  pub run-Fits :
      (before after : List codec.Operation) (operation : codec.Operation) (original v : Value)
      → run (before ++ operation ∷ after) original ≡ ok v
      → (w : Value) × (run (before ++ operation ∷ []) original ≡ ok w) × Fits w
  run-Fits [] after operation original v h =
      let (next, e, g) =
        >>=-eq-ok (ok_or (codec.patch original operation) (invalid "JSON patch operation failed")) _
          h in
      let (u, f, i) = >>=-eq-ok (check_size next) (λ _. run after next) g in
      (next, rw (e, f) refl, check_size-Fits next f)
  run-Fits (o ∷ before) after operation original v h =
      let (next, e, g) =
        >>=-eq-ok (ok_or (codec.patch original o) (invalid "JSON patch operation failed")) _ h in
      let (u, f, i) = >>=-eq-ok (check_size next) (λ _. run (before ++ operation ∷ after) next) g in
      let (w, p, q) = run-Fits before after operation next v i in (w, rw (e, f) p, q)

  run-outcome :
      (os : List codec.Operation) (original v : Value)
      → run os original ≡ ok v
      → (original ≡ v) ⊎ Fits v
  run-outcome [] original v h = inl (ok-injective h)
  run-outcome (o ∷ os) original v h =
      let (next, e, g) =
        >>=-eq-ok (ok_or (codec.patch original o) (invalid "JSON patch operation failed")) _ h in
      let (u, f, i) = >>=-eq-ok (check_size next) (λ _. run os next) g in
      elim (run-outcome os next v i) [
        | inl q ↦ inr (subst Fits q (check_size-Fits next f))
        | inr fits ↦ inr fits
      ]

  abbrev Supported : List ℕ → Type 0
  Supported content_type =
      (is_media "application/strategic-merge-patch+json" content_type ≡ true)
      ⊎ ((is_media "application/merge-patch+json" content_type ≡ true)
          ⊎ (is_media "application/json-patch+json" content_type ≡ true))

  -- A patch succeeds only under one of the three media types of patches, and its result encodes to
  -- at most 2 MiB, unless it is the object unchanged.
  pub apply-outcome :
      (schemas : Value) (kind : String) (original : Value) (bytes content_type : List ℕ) (v : Value)
      → apply schemas kind original bytes content_type ≡ ok v
      → Supported content_type × ((original ≡ v) ⊎ Fits v)
  unfolding apply
  apply-outcome schemas kind original bytes content_type v h =
      elim (Bool-cases (is_media "application/strategic-merge-patch+json" content_type)) [
        | inl a ↦
            let (patch, e, g) = >>=-eq-ok (codec.from_slice bytes) _ (rw a at h) in
            let (w, f, i) = >>=-eq-ok (Merge.apply schemas kind original patch) checked g in
            (inl a, inr (checked-Fits w v i))
        | inr a ↦ elim (Bool-cases (is_media "application/merge-patch+json" content_type)) [
          | inl b ↦
              let (patch, e, g) = >>=-eq-ok (codec.from_slice bytes) _ (rw (a, b) at h) in
              (inr (inl b), inr (checked-Fits (codec.merge original patch) v g))
          | inr b ↦ elim (Bool-cases (is_media "application/json-patch+json" content_type)) [
            | inl c ↦
                let (os, e, g) =
                  >>=-eq-ok (codec.operations_from_slice bytes) _ (rw (a, b, c) at h) in
                elim (Bool-cases (ltb 256 (length os))) [
                  | inl t ↦ absurd (let q = rw t at g in cc)
                  | inr t ↦ (inr (inr c), run-outcome os original v (rw t at g))
                ]
            | inr c ↦
                elim (Bool-cases (
                  is_media "application/apply-patch+json" content_type
                  || is_media "application/apply-patch+yaml" content_type)) [
                    | inl d ↦ absurd (let q = rw (a, b, c, d) at h in cc)
                    | inr d ↦ absurd (let q = rw (a, b, c, d) at h in cc)
                  ]
          ]
        ]
      ]
