-- ===== src/Auth/Bounds.antt =====
-- crates/h3s-auth/src/node.rs: the limits of what a node may do.
use hedronetes_h3s.Prelude.{
  ℕ, String, List, [], ◌∷◌, ◌++◌, true, ◌≡◌, refl, inl, inr, Option, some, ◌==◌, any, arith,
  Bool-cases, Option-cases, codes, codes_eq, codes_eq_iff, split_once, strip_suffix, ◌↔◌, false,
}
use hedronetes_h3s.Auth.Rbac.{User, ResourceRequest, node_name}
use hedronetes_h3s.Auth.Node.{node_allows, node_label_allowed, is_restricted, is_suffix}
use hedronetes_h3s.Auth.Basic.{IsBasic, whole-IsBasic, sub-IsBasic, IsBasic-allowed}

-- Where nothing relates a Pod of the node to a request, node_allows permits exactly what IsBasic
-- lists, to a user that is a node: in particular no ConfigMap or Secret, no deletion of a Node, and
-- no Node object but its own to read.
pub node_allows-IsBasic :
    (user : User) (r : ResourceRequest) (selected_node : Option String)
    → (node_allows user r selected_node false ≡ true)
      ↔ ((node : List ℕ) × (node_name user ≡ some node) × IsBasic r selected_node node)
unfolding node_allows
node_allows-IsBasic user r selected_node = (
  λ h. elim (Option-cases (node_name user)) [
    | inl e ↦ absurd (ground arith)
    | inr (node, e) ↦ elim (Option-cases r.subresource) [
      | inl s ↦ (node, e, whole-IsBasic r selected_node node s (rw (e, s) at h))
      | inr (sub, s) ↦ (node, e, sub-IsBasic r sub selected_node node s (rw (e, s) at h))
    ]
  ],
  λ p. let (node, e, b) = p in IsBasic-allowed user r selected_node node e b,
)

codes_eq_refl : (cs : List ℕ) → codes_eq cs cs ≡ true
codes_eq_refl cs = (codes_eq_iff cs cs).1 refl

strip_suffix-append : (p s : List ℕ) → is_suffix (strip_suffix s (p ++ s)) ≡ true
strip_suffix-append [] [] = refl
strip_suffix-append [] (c ∷ cs) = let e = codes_eq_refl (c ∷ cs) in rw e refl
strip_suffix-append (d ∷ p) s =
    let ih = strip_suffix-append p s in
    elim (Bool-cases (codes_eq (d ∷ (p ++ s)) s)) [
      | inl e ↦ rw e refl
      | inr e ↦ elim (Option-cases (strip_suffix s (p ++ s))) [
        | inl n ↦ absurd (ground arith)
        | inr (w, n) ↦ rw (e, n) refl
      ]
    ]

split_once-first :
    (a b : List ℕ)
    → any (λ c. c == b'/') a ≡ false
    → split_once b'/' (a ++ (b'/' ∷ b)) ≡ some (a, b)
split_once-first [] b h = refl
split_once-first (c ∷ cs) b h =
    let e : (c == b'/') ≡ false = ground arith in
    let g : any (λ c. c == b'/') cs ≡ false = ground arith in rw (e, split_once-first cs b g) refl

-- A node never may set a label whose domain ends in `.node-restriction.kubernetes.io`, whatever
-- stands before it and after the slash.
pub node_label_allowed-restricted :
    (key : String) (prefix rest : List ℕ)
    → any (λ c. c == b'/') (prefix ++ codes ".node-restriction.kubernetes.io") ≡ false
    → codes key ≡ (prefix ++ codes ".node-restriction.kubernetes.io") ++ (b'/' ∷ rest)
    → node_label_allowed key ≡ false
unfolding node_label_allowed
node_label_allowed-restricted key prefix rest h e =
    let domain = prefix ++ codes ".node-restriction.kubernetes.io" in
    let s = strip_suffix-append prefix (codes ".node-restriction.kubernetes.io") in
    let r : is_restricted domain ≡ true = ground arith in
    rw (e, split_once-first domain rest h) (rw r refl)
