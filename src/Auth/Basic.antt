-- ===== src/Auth/Basic.antt =====
-- crates/h3s-auth/src/node.rs: what a node may do without a related Pod.
use hedronetes_h3s.Prelude.{
  ℕ, String, List, [], ◌∷◌, true, ◌&&◌, ◌||◌, ◌≡◌, refl, ap, ◌∙◌, ◌⊎◌, inl, inr, Option, none, some,
  arith, Bool-cases, or-eq-true, str_eq, codes, codes_eq_iff, eq_iff, In, In-uncons, any→In, In→any,
  str_eq_refl, subst, sym, ◌↔◌, if◌then◌else◌, false,
}
use hedronetes_h3s.Auth.Rbac.{User, ResourceRequest, node_name}
use hedronetes_h3s.Auth.Node.{
  node_allows, one_of, is_read, is_node, is_lease_namespace, allows_whole, allows_sub, pod_verb,
}

-- A name of an object or of a selector is that of the node.
abbrev pub IsOwn : Option String → List ℕ → Type 0
IsOwn name node = (s : String) × (name ≡ some s) × (codes s ≡ node)

abbrev pub reads : List String
reads = "get" ∷ "list" ∷ "watch" ∷ []

-- What a node may do without a Pod of its own that is related: read its own Node object; create or
-- change Node objects; change the status of nodes and Pods; list the Pods selected by its name; read
-- services and endpoint slices; create leases of nodes, and use its own one.
pub data IsBasic (r : ResourceRequest) (selected_node : Option String) (node : List ℕ)
    : Type 0 where
  read_node :
      r.group ≡ ""
      → r.resource ≡ "nodes"
      → r.subresource ≡ none
      → In r.verb reads
      → IsOwn r.name node
      → IsBasic r selected_node node
  write_node :
      r.group ≡ ""
      → r.resource ≡ "nodes"
      → r.subresource ≡ none
      → In r.verb ("create" ∷ "update" ∷ "patch" ∷ [])
      → IsBasic r selected_node node
  status :
      r.group ≡ ""
      → In r.resource ("nodes" ∷ "pods" ∷ [])
      → r.subresource ≡ some "status"
      → In r.verb ("update" ∷ "patch" ∷ [])
      → IsBasic r selected_node node
  own_pods :
      r.group ≡ ""
      → r.resource ≡ "pods"
      → r.subresource ≡ none
      → In r.verb ("list" ∷ "watch" ∷ [])
      → IsOwn selected_node node
      → IsBasic r selected_node node
  services :
      ((r.group ≡ "") × (r.resource ≡ "services"))
        ⊎ ((r.group ≡ "discovery.k8s.io") × (r.resource ≡ "endpointslices"))
      → r.subresource ≡ none
      → In r.verb reads
      → IsBasic r selected_node node
  new_lease :
      r.group ≡ "coordination.k8s.io"
      → r.resource ≡ "leases"
      → r.subresource ≡ none
      → r.namespace ≡ some "kube-node-lease"
      → r.verb ≡ "create"
      → IsBasic r selected_node node
  own_lease :
      r.group ≡ "coordination.k8s.io"
      → r.resource ≡ "leases"
      → r.subresource ≡ none
      → r.namespace ≡ some "kube-node-lease"
      → In r.verb ("get" ∷ "update" ∷ "patch" ∷ "delete" ∷ [])
      → IsOwn r.name node
      → IsBasic r selected_node node

same : (a b : String) → str_eq a b ≡ true → a ≡ b
same a b = (eq_iff a b).0

lease_namespace : (n : Option String) → is_lease_namespace n ≡ true → n ≡ some "kube-node-lease"
lease_namespace none h = absurd (ground arith)
lease_namespace (some s) h = ap some (same s "kube-node-lease" h)

one_of-In : (words : List String) (s : String) → (one_of words s ≡ true) ↔ In s words
one_of-In words s = (
  λ h.
      let (w, m, e) = any→In (str_eq s) words h in
      subst (λ t. In t words) (sym ((eq_iff s w).0 e)) m,
  λ m. In→any (str_eq s) s words m (str_eq_refl s),
)

In-two : (s a b : String) → In s (a ∷ b ∷ []) → (s ≡ a) ⊎ (s ≡ b)
In-two s a b m = elim (In-uncons m) [
  | inl e ↦ inl (sym e)
  | inr n ↦ elim (In-uncons n) [ inl e ↦ inr (sym e) | inr k ↦ elim k [ ] ]
]

is_node-IsOwn :
    (name : Option String) (node : List ℕ) → (is_node name node ≡ true) ↔ IsOwn name node
is_node-IsOwn none node = (λ h. absurd (ground arith), λ p. let (s, e, q) = p in cc)
is_node-IsOwn (some s) node = (
  λ h. (s, refl, (codes_eq_iff (codes s) node).0 h),
  λ p. let (t, e, q) = p in let u : s ≡ t = cc in (codes_eq_iff (codes s) node).1 (ap codes u ∙ q),
)

pod_verb-none :
    (verb : String) (selected_node : Option String) (node : List ℕ)
    → pod_verb verb selected_node false node ≡ true
    → (one_of ("list" ∷ "watch" ∷ []) verb ≡ true) × (is_node selected_node node ≡ true)
pod_verb-none verb selected_node node h = ground arith

pub whole-IsBasic :
    (r : ResourceRequest) (selected_node : Option String) (node : List ℕ)
    → r.subresource ≡ none
    → allows_whole r selected_node false node ≡ true
    → IsBasic r selected_node node
whole-IsBasic r selected_node node none_sub h =
    elim (Bool-cases (str_eq r.group "" && str_eq r.resource "nodes")) [
      | inl e ↦
          let g = same r.group "" (ground arith) in
          let n = same r.resource "nodes" (ground arith) in
          elim (or-eq-true (is_read r.verb && is_node r.name node) _ (rw e at h)) [
            | inl a ↦
                read_node g n none_sub ((one_of-In reads r.verb).0 (ground arith))
                  ((is_node-IsOwn r.name node).0 (ground arith))
            | inr a ↦
                write_node g n none_sub
                  ((one_of-In ("create" ∷ "update" ∷ "patch" ∷ []) r.verb).0 a)
          ]
      | inr a ↦ elim (Bool-cases (str_eq r.group "" && str_eq r.resource "pods")) [
        | inl e ↦
            let (v, s) = pod_verb-none r.verb selected_node node (rw (a, e) at h) in
            own_pods (same r.group "" (ground arith)) (same r.resource "pods" (ground arith))
              none_sub ((one_of-In ("list" ∷ "watch" ∷ []) r.verb).0 v)
              ((is_node-IsOwn selected_node node).0 s)
        | inr b ↦
            elim (Bool-cases
              (str_eq r.group "" && one_of ("configmaps" ∷ "secrets" ∷ []) r.resource)) [
                | inl e ↦ absurd (ground arith)
                | inr c ↦ elim (Bool-cases (str_eq r.group "" && str_eq r.resource "services")) [
                  | inl e ↦
                      services
                        (inl (
                          same r.group "" (ground arith),
                          same r.resource "services" (ground arith),
                        ))
                        none_sub ((one_of-In reads r.verb).0 (rw (a, b, c, e) at h))
                  | inr d ↦
                      elim (Bool-cases
                        (str_eq r.group "discovery.k8s.io" && str_eq r.resource "endpointslices")) [
                          | inl e ↦
                              services
                                (inr (
                                  same r.group "discovery.k8s.io" (ground arith),
                                  same r.resource "endpointslices" (ground arith),
                                ))
                                none_sub ((one_of-In reads r.verb).0 (rw (a, b, c, d, e) at h))
                          | inr f ↦ lease (rw (a, b, c, d, f) at h)
                        ]
                ]
              ]
      ]
    ]
  where
    lease :
        (if str_eq r.group "coordination.k8s.io" && str_eq r.resource "leases"
            then is_lease_namespace r.namespace
              && (str_eq r.verb "create"
                  || (is_node r.name node
                      && one_of ("get" ∷ "update" ∷ "patch" ∷ "delete" ∷ []) r.verb))
            else false)
          ≡ true
        → IsBasic r selected_node node
    lease k =
        let g : str_eq r.group "coordination.k8s.io" ≡ true = ground arith in
        let l : str_eq r.resource "leases" ≡ true = ground arith in
        let n : is_lease_namespace r.namespace ≡ true = ground arith in
        let g2 = same r.group "coordination.k8s.io" g in
        let l2 = same r.resource "leases" l in
        let n2 = lease_namespace r.namespace n in
        elim (Bool-cases (str_eq r.verb "create")) [
          | inl e ↦ new_lease g2 l2 none_sub n2 (same r.verb "create" e)
          | inr e ↦
              own_lease g2 l2 none_sub n2
                ((one_of-In ("get" ∷ "update" ∷ "patch" ∷ "delete" ∷ []) r.verb).0 (ground arith))
                ((is_node-IsOwn r.name node).0 (ground arith))
        ]

pub sub-IsBasic :
    (r : ResourceRequest) (sub : String) (selected_node : Option String) (node : List ℕ)
    → r.subresource ≡ some sub
    → allows_sub r sub ≡ true
    → IsBasic r selected_node node
sub-IsBasic r sub selected_node node e h =
    let s : str_eq sub "status" ≡ true = ground arith in
    status (same r.group "" (ground arith))
      ((one_of-In ("nodes" ∷ "pods" ∷ []) r.resource).0 (ground arith))
      (e ∙ ap some (same sub "status" s))
      ((one_of-In ("update" ∷ "patch" ∷ []) r.verb).0 (ground arith))

pub IsBasic-allowed :
    (user : User) (r : ResourceRequest) (selected_node : Option String) (node : List ℕ)
    → node_name user ≡ some node
    → IsBasic r selected_node node
    → node_allows user r selected_node false ≡ true
unfolding node_allows
IsBasic-allowed user r selected_node node e (read_node g n s v o) =
    rw (e, s, g, n, (one_of-In reads r.verb).1 v, (is_node-IsOwn r.name node).1 o) refl
IsBasic-allowed user r selected_node node e (write_node g n s v) =
    let k = (one_of-In ("create" ∷ "update" ∷ "patch" ∷ []) r.verb).1 v in
    rw (e, s, g, n) (ground arith)
IsBasic-allowed user r selected_node node e (status g n s v) =
    let k = (one_of-In ("nodes" ∷ "pods" ∷ []) r.resource).1 n in
    rw (e, s, g, k, (one_of-In ("update" ∷ "patch" ∷ []) r.verb).1 v) refl
IsBasic-allowed user r selected_node node e (own_pods g n s v o) =
    let k = (is_node-IsOwn selected_node node).1 o in
    elim (In-two r.verb "list" "watch" v) [
      | inl w ↦ rw (e, s, g, n, w, k) refl
      | inr w ↦ rw (e, s, g, n, w, k) refl
    ]
IsBasic-allowed user r selected_node node e (services w s v) =
    let k = (one_of-In reads r.verb).1 v in
    elim w [ inl (g, n) ↦ rw (e, s, g, n, k) refl | inr (g, n) ↦ rw (e, s, g, n, k) refl ]
IsBasic-allowed user r selected_node node e (new_lease g n s l v) = rw (e, s, g, n, l, v) refl
IsBasic-allowed user r selected_node node e (own_lease g n s l v o) =
    let k = (one_of-In ("get" ∷ "update" ∷ "patch" ∷ "delete" ∷ []) r.verb).1 v in
    let own = (is_node-IsOwn r.name node).1 o in rw (e, s, g, n, l) (ground arith)
