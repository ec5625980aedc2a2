-- ===== src/Proxy/Addresses.antt =====
-- crates/h3s-proxy/src/plan.rs: which addresses `plan` takes for those of this node.
use hedronetes_h3s.Prelude.{
  String, ℕ, List, Bool, true, not, ◌≡◌, ap, ◌⊎◌, subst, inl, inr, Option, none, some, any, ◌==◌,
  str_eq, eq_iff, In, snoc→In, Bool-cases, ok, ok_or, for_each, for_each-inv, >>=-eq-ok,
  ok-injective, or-eq-true, if◌then◌else◌,
}
use hedronetes_h3s.Json.{Value, ◌!◌, as_str, is_text, elements}
use hedronetes_h3s.Proxy.Ip.{ip}
use hedronetes_h3s.Proxy.Types.{Platform}
use hedronetes_h3s.Proxy.Nodes.{
  NodeState, is_node_address, non_empty, valid_cidr, add_cidr, add_node_address, add_node,
}
use hedronetes_h3s.Proxy.Frontends.{no_nodes}

-- A Node object of this node reports the address, as internal or external.
abbrev pub IsReported : String → List Value → ℕ → Type 0
IsReported node_name nodes a =
    (node : Value) × In node nodes
    × (is_text node_name (node ! "metadata" ! "name") ≡ true)
    × (address : Value) × In address (elements (node ! "status" ! "addresses"))
    × ((as_str (address ! "type") ≡ some "InternalIP")
        ⊎ (as_str (address ! "type") ≡ some "ExternalIP"))
    × (ip (address ! "address") ≡ ok a)

node_address :
    (o : Option String)
    → is_node_address o ≡ true
    → (o ≡ some "InternalIP") ⊎ (o ≡ some "ExternalIP")
node_address none h = absurd (cc)
node_address (some s) h = elim (or-eq-true (str_eq s "InternalIP") (str_eq s "ExternalIP") h) [
  | inl e ↦ inl (ap some ((eq_iff s "InternalIP").0 e))
  | inr e ↦ inr (ap some ((eq_iff s "ExternalIP").0 e))
]

module _ (platform : Platform) (node_name : String) (nodes : List Value) where
  abbrev Reports : NodeState platform.net → Type 0
  Reports s = (a : ℕ) → In a s.node_ips → IsReported node_name nodes a

  cidr_kept :
      (here_now : Bool) (o : Option String) (s t : NodeState platform.net)
      → add_cidr platform node_name here_now o s ≡ ok t
      → Reports s
      → Reports t
  cidr_kept here_now none s t h r = subst Reports (ok-injective h) r
  cidr_kept here_now (some cidr) s t h r =
      let (subnet, f, g) =
        >>=-eq-ok (ok_or (platform.net.parse cidr) "node CIDR must be IPv4") _ h in
      elim (Bool-cases (not (valid_cidr platform node_name subnet cidr))) [
        | inl e ↦ absurd (let k = rw e at g in cc)
        | inr e ↦ elim (Bool-cases (any (platform.net.same subnet) s.pod_cidrs)) [
          | inl d ↦ absurd (let k = rw (e, d) at g in cc)
          | inr d ↦ subst Reports (ok-injective (rw (e, d) at g)) r
        ]
      ]

  address_Reports :
      (node address : Value) (s t : NodeState platform.net)
      → In node nodes
      → is_text node_name (node ! "metadata" ! "name") ≡ true
      → In address (elements (node ! "status" ! "addresses"))
      → Reports s
      → add_node_address platform node_name address s ≡ ok t
      → Reports t
  address_Reports node address s t m n i r h =
      elim (Bool-cases (is_node_address (as_str (address ! "type")))) [
        | inr e ↦ subst Reports (ok-injective (rw e at h)) r
        | inl e ↦
            let (a, f, g) = >>=-eq-ok (ip (address ! "address")) _ (rw e at h) in
            elim (Bool-cases (any (λ b. b == a) s.node_ips)) [
              | inl d ↦ subst Reports (ok-injective (rw d at g)) r
              | inr d ↦ subst Reports (ok-injective (rw d at g)) λ b k.
                  elim (snoc→In a s.node_ips b k) [
                    | inl q ↦ r b q
                    | inr q ↦
                        subst (IsReported node_name nodes) q
                          (node, m, n, address, i, node_address (as_str (address ! "type")) e, f)
                  ]
            ]
      ]

  node_Reports :
      (node : Value) (s t : NodeState platform.net)
      → In node nodes
      → Reports s
      → add_node platform node_name node s ≡ ok t
      → Reports t
  unfolding add_node
  node_Reports node s t m r h =
      let here_now = is_text node_name (node ! "metadata" ! "name") in
      let cidr = non_empty (as_str (node ! "spec" ! "podCIDR")) in
      let (u, f, g) =
        >>=-eq-ok (add_cidr platform node_name here_now cidr s)
          (λ u.
            if here_now
            then for_each (add_node_address platform node_name)
                (elements (node ! "status" ! "addresses")) u
            else ok u)
          h in
      let k = cidr_kept here_now cidr s u f r in
      elim (Bool-cases here_now) [
        | inr e ↦ subst Reports (ok-injective (rw e at g)) k
        | inl e ↦
            for_each-inv (add_node_address platform node_name) Reports
              (elements (node ! "status" ! "addresses"))
              (λ address x y i p q. address_Reports node address x y m e i p q) u t k (rw e at g)
      ]

  -- Every address of the node that the plan uses is reported.
  pub node_ips-IsReported :
      (state : NodeState platform.net)
      → for_each (add_node platform node_name) nodes (no_nodes platform node_name) ≡ ok state
      → (a : ℕ) → In a state.node_ips
      → IsReported node_name nodes a
  node_ips-IsReported state h =
      for_each-inv (add_node platform node_name) Reports nodes
        (λ node x y m p q. node_Reports node x y m p q) (no_nodes platform node_name) state
        (λ a k. elim k [ ]) h
