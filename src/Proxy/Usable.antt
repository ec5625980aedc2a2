-- ===== src/Proxy/Usable.antt =====
-- crates/h3s-proxy/src/plan.rs: which endpoints may be used, and which slices are of a Service,
-- written apart from the code.
use hedronetes_h3s.Prelude.{
  String, Bool, true, false, ◌&&◌, ◌||◌, not, ◌≡◌, ◌≢◌, ◌↔◌, ◌⊎◌, refl, sym, ap, ◌∙◌, inl, inr,
  false≢true, any, In→any, any→In, eq_iff, arith, In, Bool-cases,
}
use hedronetes_h3s.Json.{
  Value, null, bool, int, float, string, array, object, ◌!◌, is_text, is_true, elements,
}
use hedronetes_h3s.Proxy.Backends.{Port, is_false, foreign, unusable}
use hedronetes_h3s.Proxy.Types.{Platform}

-- Not said to be unready, not said to be terminating, and on this node if only those are wanted.
abbrev pub IsUsable : String → Bool → Value → Type 0
IsUsable node_name local endpoint =
    (endpoint ! "conditions" ! "ready" ≢ bool false)
    × (endpoint ! "conditions" ! "terminating" ≢ bool true)
    × ((local ≡ false) ⊎ (endpoint ! "nodeName" ≡ string node_name))

-- Each Service that owns the slice is this one.
abbrev pub IsOwn : Port → Value → Type 0
IsOwn p slice =
    (o : Value)
    → In o (elements (slice ! "metadata" ! "ownerReferences"))
    → (o ! "kind" ≢ string "Service") ⊎ ((o ! "uid" ≡ string p.uid) × (o ! "name" ≡ string p.name))

is_false_iff : (v : Value) → (is_false v ≡ false) ↔ (v ≢ bool false)
is_false_iff null = (λ _ e. cc, λ _. refl)
is_false_iff (bool true) = (λ _ e. cc, λ _. refl)
is_false_iff (bool false) = (λ h e. absurd (false≢true (sym h)), λ n. absurd (n refl))
is_false_iff (int z) = (λ _ e. cc, λ _. refl)
is_false_iff (float t) = (λ _ e. cc, λ _. refl)
is_false_iff (string s) = (λ _ e. cc, λ _. refl)
is_false_iff (array vs) = (λ _ e. cc, λ _. refl)
is_false_iff (object fs) = (λ _ e. cc, λ _. refl)

is_true_iff : (v : Value) → (is_true v ≡ false) ↔ (v ≢ bool true)
is_true_iff null = (λ _ e. cc, λ _. refl)
is_true_iff (bool true) = (λ h e. absurd (false≢true (sym h)), λ n. absurd (n refl))
is_true_iff (bool false) = (λ _ e. cc, λ _. refl)
is_true_iff (int z) = (λ _ e. cc, λ _. refl)
is_true_iff (float t) = (λ _ e. cc, λ _. refl)
is_true_iff (string s) = (λ _ e. cc, λ _. refl)
is_true_iff (array vs) = (λ _ e. cc, λ _. refl)
is_true_iff (object fs) = (λ _ e. cc, λ _. refl)

is_text_iff : (t : String) (v : Value) → (is_text t v ≡ true) ↔ (v ≡ string t)
is_text_iff t null = (λ h. ground arith, λ e. cc)
is_text_iff t (bool b) = (λ h. ground arith, λ e. cc)
is_text_iff t (int z) = (λ h. ground arith, λ e. cc)
is_text_iff t (float u) = (λ h. ground arith, λ e. cc)
is_text_iff t (string s) =
    (λ h. ap string ((eq_iff s t).0 h), λ e. let q : s ≡ t = cc in (eq_iff s t).1 q)
is_text_iff t (array vs) = (λ h. ground arith, λ e. cc)
is_text_iff t (object fs) = (λ h. ground arith, λ e. cc)

module _ (platform : Platform) (node_name : String) where
  pub unusable_iff :
      (local : Bool) (e : Value)
      → (unusable platform node_name local e ≡ false) ↔ IsUsable node_name local e
  unusable_iff local e =
      let r = is_false_iff (e ! "conditions" ! "ready") in
      let t = is_true_iff (e ! "conditions" ! "terminating") in
      let n = is_text_iff node_name (e ! "nodeName") in
      let away = is_text node_name (e ! "nodeName") in
      (
        λ h.
            let (a, b, c) =
              three_false (is_false (e ! "conditions" ! "ready"))
                (is_true (e ! "conditions" ! "terminating")) local away h in
            (r.0 a, t.0 b, elim c [ inl l ↦ inl l | inr k ↦ inr (n.0 k) ]),
        λ u.
            three_true (is_false (e ! "conditions" ! "ready"))
              (is_true (e ! "conditions" ! "terminating")) local away (r.1 u.0) (t.1 u.1)
              (elim u.2 [ inl l ↦ inl l | inr k ↦ inr (n.1 k) ]),
      )
    where
      three_false :
          (a b l w : Bool)
          → (a || b || (l && not w)) ≡ false
          → (a ≡ false) × (b ≡ false) × ((l ≡ false) ⊎ (w ≡ true))
      three_false false false false w h = (refl, refl, inl refl)
      three_false false false true true h = (refl, refl, inr refl)
      three_false false false true false h = ground arith
      three_false false true l w h = ground arith
      three_false true b l w h = ground arith

      three_true :
          (a b l w : Bool)
          → a ≡ false
          → b ≡ false
          → (l ≡ false) ⊎ (w ≡ true)
          → (a || b || (l && not w)) ≡ false
      three_true a b l w p q (inl r) = ground arith
      three_true a b l w p q (inr r) = ground arith

-- One owner
abbrev other_owner : Port → Value → Bool
other_owner p o =
    is_text "Service" (o ! "kind")
    && (not (is_text p.uid (o ! "uid")) || not (is_text p.name (o ! "name")))

owner_iff :
    (p : Port) (o : Value)
    → (other_owner p o ≡ false) ↔ (
        (o ! "kind" ≢ string "Service")
        ⊎ ((o ! "uid" ≡ string p.uid) × (o ! "name" ≡ string p.name)))
owner_iff p o =
    let k = is_text_iff "Service" (o ! "kind") in
    let u = is_text_iff p.uid (o ! "uid") in
    let n = is_text_iff p.name (o ! "name") in
    let kind = is_text "Service" (o ! "kind") in
    (
      λ h. elim (Bool-cases kind) [
        | inr e ↦ inl (λ q. false≢true (sym e ∙ k.1 q))
        | inl e ↦
            let a : is_text p.uid (o ! "uid") ≡ true = ground arith in
            let b : is_text p.name (o ! "name") ≡ true = ground arith in inr (u.0 a, n.0 b)
      ],
      λ x. elim x [
        | inl e ↦ elim (Bool-cases kind) [ inl f ↦ absurd (e (k.0 f)) | inr f ↦ rw f refl ]
        | inr e ↦ let a = u.1 e.0 in let b = n.1 e.1 in ground arith
      ],
    )

pub foreign_iff : (p : Port) (slice : Value) → (foreign p slice ≡ false) ↔ IsOwn p slice
foreign_iff p slice =
    let owners = elements (slice ! "metadata" ! "ownerReferences") in
    (
      λ h o m. (owner_iff p o).0 (elim (Bool-cases (other_owner p o)) [
        | inl e ↦ absurd (false≢true (sym h ∙ In→any (other_owner p) o owners m e))
        | inr e ↦ e
      ]),
      λ f. elim (Bool-cases (any (other_owner p) owners)) [
        | inl e ↦
            let (o, m, t) = any→In (other_owner p) owners e in
            absurd (false≢true (sym ((owner_iff p o).1 (f o m)) ∙ t))
        | inr e ↦ e
      ],
    )
