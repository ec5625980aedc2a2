-- ===== src/Auth/Node.antt =====
-- crates/h3s-auth/src/node.rs: what a kubelet may do, and which labels it may set.
use hedronetes_h3s.Prelude.{
  ℕ, String, List, [], ◌∷◌, Bool, true, false, ◌&&◌, ◌||◌, not, Option, none, some, if◌then◌else◌,
  any, str_eq, codes, codes_eq, split_once, strip_suffix,
}
use hedronetes_h3s.Auth.Rbac.{User, ResourceRequest, node_name}

-- `r.name == Some(node)`
abbrev pub is_node : Option String → List ℕ → Bool
is_node none node = false
is_node (some s) node = codes_eq (codes s) node

abbrev pub one_of : List String → String → Bool
one_of words s = any (λ w. str_eq s w) words

abbrev pub is_read : String → Bool
is_read verb = one_of ("get" ∷ "list" ∷ "watch" ∷ []) verb

-- `r.namespace == Some("kube-node-lease")`
abbrev pub is_lease_namespace : Option String → Bool
is_lease_namespace none = false
is_lease_namespace (some s) = str_eq s "kube-node-lease"

abbrev pub pod_verb : String → Option String → Bool → List ℕ → Bool
pod_verb verb selected_node related node =
    if str_eq verb "get"
    then related
    else if one_of ("list" ∷ "watch" ∷ []) verb
    then is_node selected_node node || related
    else if str_eq verb "delete"
    then related
    else false

-- The arms with no subresource.
abbrev pub allows_whole : ResourceRequest → Option String → Bool → List ℕ → Bool
allows_whole r selected_node related node =
    if str_eq r.group "" && str_eq r.resource "nodes"
    then (is_read r.verb && is_node r.name node)
      || one_of ("create" ∷ "update" ∷ "patch" ∷ []) r.verb
    else if str_eq r.group "" && str_eq r.resource "pods"
    then pod_verb r.verb selected_node related node
    else if str_eq r.group "" && one_of ("configmaps" ∷ "secrets" ∷ []) r.resource
    then is_read r.verb && related
    else if (str_eq r.group "" && str_eq r.resource "services")
        || (str_eq r.group "discovery.k8s.io" && str_eq r.resource "endpointslices")
    then is_read r.verb
    else if str_eq r.group "coordination.k8s.io" && str_eq r.resource "leases"
    then is_lease_namespace r.namespace
      && (str_eq r.verb "create"
          || (is_node r.name node && one_of ("get" ∷ "update" ∷ "patch" ∷ "delete" ∷ []) r.verb))
    else false

-- The arm of the status subresource.
abbrev pub allows_sub : ResourceRequest → String → Bool
allows_sub r sub =
    str_eq r.group ""
    && one_of ("nodes" ∷ "pods" ∷ []) r.resource
    && str_eq sub "status"
    && one_of ("update" ∷ "patch" ∷ []) r.verb

abbrev allows_part : ResourceRequest → Option String → Bool → List ℕ → Option String → Bool
allows_part r selected_node related node none = allows_whole r selected_node related node
allows_part r selected_node related node (some sub) = allows_sub r sub

abbrev allows_node : ResourceRequest → Option String → Bool → Option (List ℕ) → Bool
allows_node r selected_node related none = false
allows_node r selected_node related (some node) =
    allows_part r selected_node related node r.subresource

unfoldable pub node_allows : User → ResourceRequest → Option String → Bool → Bool
node_allows user r selected_node related = allows_node r selected_node related (node_name user)

-- `domain == d || domain.strip_suffix(d).is_some_and(|prefix| prefix.ends_with('.'))`
abbrev ends_with_point : List ℕ → Bool
ends_with_point [] = false
ends_with_point (c ∷ []) = codes_eq (c ∷ []) (codes ".")
ends_with_point (c ∷ d ∷ ds) = ends_with_point (d ∷ ds)

abbrev point_before : Option (List ℕ) → Bool
point_before none = false
point_before (some prefix) = ends_with_point prefix

abbrev pub is_under : List ℕ → String → Bool
is_under domain d = codes_eq domain (codes d) || point_before (strip_suffix (codes d) domain)

abbrev pub well_known_labels : List String
well_known_labels =
    "kubernetes.io/hostname" ∷ "kubernetes.io/arch" ∷ "kubernetes.io/os" ∷ "beta.kubernetes.io/arch"
    ∷ "beta.kubernetes.io/os" ∷ "beta.kubernetes.io/instance-type"
    ∷ "node.kubernetes.io/instance-type" ∷ "failure-domain.beta.kubernetes.io/zone"
    ∷ "failure-domain.beta.kubernetes.io/region" ∷ "topology.kubernetes.io/zone"
    ∷ "topology.kubernetes.io/region" ∷ []

abbrev pub is_suffix : Option (List ℕ) → Bool
is_suffix none = false
is_suffix (some prefix) = true

-- `domain == r || domain.ends_with(".r")`
abbrev pub is_restricted : List ℕ → Bool
is_restricted domain =
    codes_eq domain (codes "node-restriction.kubernetes.io")
    || is_suffix (strip_suffix (codes ".node-restriction.kubernetes.io") domain)

abbrev domain_allowed : String → Option (List ℕ × List ℕ) → Bool
domain_allowed key none = true
domain_allowed key (some (domain, rest)) =
    if is_restricted domain
    then false
    else if any (is_under domain) ("kubelet.kubernetes.io" ∷ "node.kubernetes.io" ∷ [])
    then true
    else if one_of well_known_labels key
    then true
    else not (any (is_under domain) ("kubernetes.io" ∷ "k8s.io" ∷ []))

unfoldable pub node_label_allowed : String → Bool
node_label_allowed key = domain_allowed key (split_once b'/' (codes key))
