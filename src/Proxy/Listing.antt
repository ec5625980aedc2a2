-- ===== src/Proxy/Listing.antt =====
-- crates/h3s-proxy/src/plan.rs: what `by_service` holds of the EndpointSlices.
use hedronetes_h3s.Prelude.{
  String, List, [], ◌∷◌, Bool, ◌&&◌, ◌||◌, not, ◌≡◌, refl, ap, ◌∙◌, subst, inl, inr, Option, none,
  some, map, keep, keep→In, str_eq, eq_iff, In, here, there, In-uncons, snoc→In, Bool-cases,
  and-eq-true, ok, for_each, for_each-inv, >>=-eq-ok, ok-injective,
}
use hedronetes_h3s.Json.{Value, ◌!◌, as_str, is_text, is_null}
use hedronetes_h3s.Proxy.Types.{text}
use hedronetes_h3s.Proxy.Nodes.{Listed, add_named, add_slice, slices_of}

map→In {ℓ κ} :
    {A : Type ℓ} {B : Type κ} (f : A → B) (xs : List A) (b : B)
    → In b (map f xs)
    → (a : A) × In a xs × (f a ≡ b)
map→In f [] b m = elim m [ ]
map→In f (x ∷ xs) b m = elim (In-uncons m) [
  | inl e ↦ (x, here refl, e)
  | inr n ↦ let (a, k, e) = map→In f xs b n in (a, there k, e)
]

-- The EndpointSlice names the Service in its label, and lies in its namespace.
abbrev pub IsLabelled : String → String → Value → Type 0
IsLabelled namespace name slice =
    (as_str (slice ! "metadata" ! "labels" ! "kubernetes.io/service-name") ≡ some name)
    × (text (slice ! "metadata") "namespace" ≡ ok namespace)

module _ (slices : List Value) where
  abbrev pub Known : List Listed → Type 0
  Known listed =
      (l : Listed) → In l listed → In l.slice slices × IsLabelled l.namespace l.name l.slice

  named_Known :
      (o : Option String) (slice : Value) (listed out : List Listed)
      → In slice slices
      → as_str (slice ! "metadata" ! "labels" ! "kubernetes.io/service-name") ≡ o
      → Known listed
      → add_named o slice listed ≡ ok out
      → Known out
  named_Known none slice listed out m e k h = subst Known (ok-injective h) k
  named_Known (some name) slice listed out m e k h =
      let (namespace, f, g) = >>=-eq-ok (text (slice ! "metadata") "namespace") _ h in
      subst Known (ok-injective g) λ l n. elim (snoc→In _ listed l n) [
        | inl q ↦ k l q
        | inr q ↦
            subst (λ (l : Listed). In l.slice slices × IsLabelled l.namespace l.name l.slice) q
              (m, (e, f))
      ]

  slice_Known :
      (slice : Value) (listed out : List Listed)
      → In slice slices
      → Known listed
      → add_slice slice listed ≡ ok out
      → Known out
  unfolding add_slice
  slice_Known slice listed out m k h =
      elim (Bool-cases (
        not (is_text "IPv4" (slice ! "addressType"))
        || not (is_null (slice ! "metadata" ! "deletionTimestamp")))) [
          | inl t ↦ subst Known (ok-injective (rw t at h)) k
          | inr t ↦
              named_Known (as_str (slice ! "metadata" ! "labels" ! "kubernetes.io/service-name"))
                slice listed out m refl k (rw t at h)
        ]

  pub slices_Known :
      (listed : List Listed) → for_each add_slice slices [] ≡ ok listed → Known listed
  slices_Known listed h =
      for_each-inv add_slice Known slices (λ s x y m k. slice_Known s x y m k) [] listed
        (λ l m. elim m [ ]) h

  pub slices_of-Known :
      (listed : List Listed) (ns name : String) (slice : Value)
      → Known listed
      → In slice (slices_of ns name listed)
      → In slice slices × IsLabelled ns name slice
  slices_of-Known listed ns name slice k m =
      let test : Listed → Bool = λ l. str_eq l.namespace ns && str_eq l.name name in
      let (l, n, e) = map→In (λ (l : Listed). l.slice) (keep test listed) slice m in
      let (i, t) = keep→In test listed l n in
      let (a, b) = and-eq-true (str_eq l.namespace ns) (str_eq l.name name) t in
      let (q, r) = k l i in
      (
        subst (λ s. In s slices) e q,
        subst (λ s. IsLabelled ns name s) e
            (r.0 ∙ ap some ((eq_iff l.name name).0 b), r.1 ∙ ap ok ((eq_iff l.namespace ns).0 a)),
      )
