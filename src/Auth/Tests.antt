-- ===== src/Auth/Tests.antt =====
-- crates/h3s-auth/src: small policies, and runs of the theorems.
use hedronetes_h3s.Prelude.{
  ok, ℕ, String, List, [], ◌∷◌, true, false, ◌≡◌, refl, ◌↔◌, Option, none, some, codes,
}
use hedronetes_h3s.Auth.Rbac.{
  User, on_resource, ResourceRequest, Subject, PolicyRule, Role, Binding, Rbac, rbac_group, allows,
  subjects_match, rules_allow, rule_allows, node_name,
}
use hedronetes_h3s.Auth.Node.{node_allows, node_label_allowed}
use hedronetes_h3s.Auth.Granted.{IsGranted}
use hedronetes_h3s.Auth.Grants.{allows-IsGranted}
use hedronetes_h3s.Auth.Rules.{IsCovered, rule_allows-IsCovered}
use hedronetes_h3s.Auth.Scope.{allows-record}
use hedronetes_h3s.Auth.Certificate.{Certificate, from_verified_certificate}
use hedronetes_h3s.Auth.Identity.{IsIdentity, from_verified_certificate-IsIdentity}
use hedronetes_h3s.Auth.Basic.{IsBasic}
use hedronetes_h3s.Auth.Bounds.{node_allows-IsBasic, node_label_allowed-restricted}

abbrev alice : User
alice = record { name = "alice"; groups = "dev" ∷ "system:authenticated" ∷ [] }

abbrev read_pods : PolicyRule
read_pods = record {
  verbs = "get" ∷ "list" ∷ [];
  api_groups = some ("" ∷ []);
  resources = some ("pods" ∷ "*/scale" ∷ []);
  resource_names = none;
  non_resource_urls = none;
}

abbrev reader : Role
reader = record { namespace = some "demo"; name = some "reader"; rules = some (read_pods ∷ []) }

abbrev devs : Subject
devs = record { kind = "Group"; api_group = some rbac_group; name = "dev"; namespace = none }

abbrev dev_binding : String → Binding
dev_binding namespace = record {
  namespace = some namespace;
  role_ref = record { api_group = rbac_group; kind = "Role"; name = "reader" };
  subjects = some (devs ∷ []);
}

abbrev policy : Rbac
policy = record {
  roles = reader ∷ [];
  cluster_roles = [];
  role_bindings = dev_binding "demo" ∷ dev_binding "other" ∷ [];
  cluster_role_bindings = [];
}

abbrev get_in : Option String → ResourceRequest
get_in namespace = record {
  verb = "get";
  group = "";
  resource = "pods";
  subresource = none;
  namespace = namespace;
  name = some "web";
}

allowed_in_demo : allows policy alice (on_resource (get_in (some "demo"))) ≡ true
unfolding allows subjects_match rules_allow rule_allows
allowed_in_demo = refl

refused_elsewhere : allows policy alice (on_resource (get_in (some "other"))) ≡ false
unfolding allows subjects_match rules_allow rule_allows
refused_elsewhere = refl

refused_for_cluster : allows policy alice (on_resource (get_in none)) ≡ false
unfolding allows subjects_match rules_allow rule_allows
refused_for_cluster = refl

allows-IsGranted_example :
    (allows policy alice (on_resource (get_in (some "demo"))) ≡ true)
    ↔ IsGranted policy alice (on_resource (get_in (some "demo")))
allows-IsGranted_example = allows-IsGranted policy alice (on_resource (get_in (some "demo")))

rule_allows-IsCovered_example :
    (rule_allows (on_resource (get_in (some "demo"))) read_pods ≡ true)
    ↔ IsCovered read_pods (get_in (some "demo"))
rule_allows-IsCovered_example = rule_allows-IsCovered read_pods (get_in (some "demo"))

allows-record_example :
    allows (record policy { role_bindings = [] }) alice (on_resource (get_in none))
    ≡ allows policy alice (on_resource (get_in none))
allows-record_example =
    allows-record policy [] alice (on_resource (get_in none)) (λ namespace e. absurd (cc))

abbrev kubelet : User
kubelet = record { name = "system:node:worker"; groups = "system:nodes" ∷ [] }

abbrev get_node : ResourceRequest
get_node = record {
  verb = "get";
  group = "";
  resource = "nodes";
  subresource = none;
  namespace = none;
  name = some "worker";
}

node_permitted : node_allows kubelet get_node none false ≡ true
unfolding node_allows node_name
node_permitted = refl

node_allows-IsBasic_example :
    (node_allows kubelet get_node none false ≡ true)
    ↔ ((node : List ℕ) × (node_name kubelet ≡ some node) × IsBasic get_node none node)
node_allows-IsBasic_example = node_allows-IsBasic kubelet get_node none

abbrev delete_node : ResourceRequest
delete_node = record get_node { verb = "delete" }

deletion_refused : node_allows kubelet delete_node none false ≡ false
unfolding node_allows node_name
deletion_refused = refl

node_label_allowed-restricted_example :
    node_label_allowed "a.node-restriction.kubernetes.io/x" ≡ false
node_label_allowed-restricted_example =
    node_label_allowed-restricted "a.node-restriction.kubernetes.io/x" (codes "a") (codes "x") refl
      refl

abbrev alice_certificate : Certificate
alice_certificate = record {
  remaining = false;
  common_names = some "alice" ∷ [];
  organizations = some "dev" ∷ some "dev" ∷ some "ops" ∷ [];
}

abbrev from_der : List ℕ → Option Certificate
from_der [] = none
from_der (b ∷ bs) = some alice_certificate

abbrev alice_groups : User
alice_groups = record { name = "alice"; groups = "dev" ∷ "ops" ∷ "system:authenticated" ∷ [] }

alice_read : from_verified_certificate from_der (48 ∷ []) ≡ ok alice_groups
unfolding from_verified_certificate
alice_read = refl

from_verified_certificate-IsIdentity_example :
    (c : Certificate) × (from_der (48 ∷ []) ≡ some c)
    × (c.remaining ≡ false)
    × IsIdentity c alice_groups
from_verified_certificate-IsIdentity_example =
    from_verified_certificate-IsIdentity from_der (48 ∷ []) alice_groups alice_read
