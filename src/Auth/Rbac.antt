-- ===== src/Auth/Rbac.antt =====
-- crates/h3s-auth/src/lib.rs: users, requests and the evaluation of RBAC. The Kubernetes objects
-- are k8s-openapi's; of each the fields that the evaluation reads are kept. `format!` is the
-- concatenation of code points.
use hedronetes_h3s.Prelude.{
  ℕ, String, List, [], ◌∷◌, ◌++◌, Bool, true, false, ◌&&◌, ◌||◌, Option, none, some, if◌then◌else◌,
  any, find, str_eq, codes, codes_eq, starts_with, strip_prefix, strip_suffix,
}
use hedronetes_h3s.Prelude.Options.{◌>>=◌}

abbrev pub rbac_group : String
rbac_group = "rbac.authorization.k8s.io"

pub record User : Type 0 where
  pub name : String
  pub groups : List String

-- `x.iter().any(|g| g == s)` and `contains`
abbrev pub has_text : List String → String → Bool
has_text words s = any (λ w. str_eq w s) words

abbrev pub is_superuser : User → Bool
is_superuser user = has_text user.groups "system:masters"

-- `.filter(|s| !s.is_empty())` on code points
abbrev nonempty_codes : List ℕ → Option (List ℕ)
nonempty_codes [] = none
nonempty_codes (c ∷ cs) = some (c ∷ cs)

unfoldable pub node_name : User → Option (List ℕ)
node_name user =
    if has_text user.groups "system:nodes"
    then strip_prefix (codes "system:node:") (codes user.name) >>= nonempty_codes
    else none

pub record ResourceRequest : Type 0 where
  pub verb : String
  pub group : String
  pub resource : String
  pub subresource : Option String
  pub namespace : Option String
  pub name : Option String

pub data Request : Type 0 where
  on_resource : ResourceRequest → Request
  non_resource : String → String → Request

pub record RoleRef : Type 0 where
  pub api_group : String
  pub kind : String
  pub name : String

pub record Subject : Type 0 where
  pub kind : String
  pub api_group : Option String
  pub name : String
  pub namespace : Option String

pub record PolicyRule : Type 0 where
  pub verbs : List String
  pub api_groups : Option (List String)
  pub resources : Option (List String)
  pub resource_names : Option (List String)
  pub non_resource_urls : Option (List String)

-- A Role or a ClusterRole.
pub record Role : Type 0 where
  pub namespace : Option String
  pub name : Option String
  pub rules : Option (List PolicyRule)

-- A RoleBinding or a ClusterRoleBinding.
pub record Binding : Type 0 where
  pub namespace : Option String
  pub role_ref : RoleRef
  pub subjects : Option (List Subject)

pub record Rbac : Type 0 where
  pub roles : List Role
  pub cluster_roles : List Role
  pub role_bindings : List Binding
  pub cluster_role_bindings : List Binding

-- `.unwrap_or_default()`
abbrev pub list_of {ℓ} : {A : Type ℓ} → Option (List A) → List A
list_of none = []
list_of (some xs) = xs

-- `value.as_deref() == Some(s)`
abbrev pub is_some_text : Option String → String → Bool
is_some_text none s = false
is_some_text (some t) s = str_eq t s

abbrev pub text_or_empty : Option String → String
text_or_empty none = ""
text_or_empty (some t) = t

-- `.filter(|s| !s.is_empty())`
abbrev pub nonempty : Option String → Option String
nonempty none = none
nonempty (some s) = if str_eq s "" then none else some s

abbrev pub or_else : Option String → Option String → Option String
or_else none b = b
or_else (some a) b = some a

-- `user.name == format!("system:serviceaccount:{ns}:{}", s.name)`
abbrev pub is_service_account : User → String → Option String → Bool
is_service_account user name none = false
is_service_account user name (some ns) =
    codes_eq (codes user.name) (codes "system:serviceaccount:" ++ (codes ns ++ (b':' ∷ codes name)))

abbrev pub subject_is : User → Option String → Subject → Bool
subject_is user binding_ns s =
    if str_eq s.kind "User"
    then is_some_text s.api_group rbac_group && str_eq s.name user.name
    else if str_eq s.kind "Group"
    then is_some_text s.api_group rbac_group && has_text user.groups s.name
    else if str_eq s.kind "ServiceAccount"
    then str_eq (text_or_empty s.api_group) ""
      && is_service_account user s.name (nonempty (or_else s.namespace binding_ns))
    else false

unfoldable pub subjects_match : List Subject → User → Option String → Bool
subjects_match subjects user binding_ns = any (subject_is user binding_ns) subjects

-- `contains`: the star or the text itself.
abbrev pub star_or : String → String → Bool
star_or value v = str_eq v "*" || str_eq v value

abbrev pub contains : Option (List String) → String → Bool
contains values value = any (star_or value) (list_of values)

abbrev pub verb_of : Request → String
verb_of (on_resource r) = r.verb
verb_of (non_resource verb path) = verb

-- `url.strip_suffix('*').is_some_and(|prefix| path.starts_with(prefix))`
abbrev pub covers_path : String → Option (List ℕ) → Bool
covers_path path none = false
covers_path path (some prefix) = starts_with (codes path) prefix

abbrev pub url_matches : String → String → Bool
url_matches path url =
    str_eq url "*" || str_eq url path || covers_path path (strip_suffix (codes "*") (codes url))

-- `v == &resource` and `v == "*/{sub}"`, where there is a subresource
abbrev pub is_resource : String → Option String → String → Bool
is_resource resource none v = str_eq v resource
is_resource resource (some sub) v = codes_eq (codes v) (codes resource ++ (b'/' ∷ codes sub))

abbrev pub is_any_sub : Option String → String → Bool
is_any_sub none v = false
is_any_sub (some sub) v = codes_eq (codes v) (b'*' ∷ b'/' ∷ codes sub)

abbrev pub resource_matches : ResourceRequest → String → Bool
resource_matches r v =
    str_eq v "*"
    || is_resource r.resource (nonempty r.subresource) v
    || is_any_sub (nonempty r.subresource) v

-- `.filter(|names| !names.is_empty()).is_none_or(..)`
abbrev pub name_matches : List String → Option String → Bool
name_matches [] name = true
name_matches (n ∷ ns) none = false
name_matches (n ∷ ns) (some name) = has_text (n ∷ ns) name

abbrev pub target_matches : PolicyRule → Request → Bool
target_matches rule (non_resource verb path) =
    any (url_matches path) (list_of rule.non_resource_urls)
target_matches rule (on_resource r) =
    contains rule.api_groups r.group
    && any (resource_matches r) (list_of rule.resources)
    && name_matches (list_of rule.resource_names) r.name

unfoldable pub rule_allows : Request → PolicyRule → Bool
rule_allows request rule =
    contains (some rule.verbs) (verb_of request) && target_matches rule request

unfoldable pub rules_allow : Option (List PolicyRule) → Request → Bool
rules_allow rules request = any (rule_allows request) (list_of rules)

abbrev pub is_named : String → Role → Bool
is_named name role = is_some_text role.name name

abbrev pub role_grants : Request → Option Role → Bool
role_grants request none = false
role_grants request (some role) = rules_allow role.rules request

-- One ClusterRoleBinding.
abbrev pub cluster_binding_grants : Rbac → User → Request → Binding → Bool
cluster_binding_grants rbac user request b =
    str_eq b.role_ref.api_group rbac_group
    && str_eq b.role_ref.kind "ClusterRole"
    && subjects_match (list_of b.subjects) user none
    && role_grants request (find (is_named b.role_ref.name) rbac.cluster_roles)

abbrev pub is_role : String → String → Role → Bool
is_role namespace name role = is_some_text role.namespace namespace && is_named name role

-- The rules that a RoleBinding in a namespace refers to.
abbrev pub referred_role : Rbac → String → RoleRef → Option Role
referred_role rbac namespace ref =
    if str_eq ref.kind "Role"
    then find (is_role namespace ref.name) rbac.roles
    else if str_eq ref.kind "ClusterRole"
    then find (is_named ref.name) rbac.cluster_roles
    else none

-- One RoleBinding.
abbrev pub binding_grants : Rbac → User → Request → String → Binding → Bool
binding_grants rbac user request namespace b =
    is_some_text b.namespace namespace
    && str_eq b.role_ref.api_group rbac_group
    && subjects_match (list_of b.subjects) user (some namespace)
    && role_grants request (referred_role rbac namespace b.role_ref)

abbrev pub request_namespace : Request → Option String
request_namespace (on_resource r) = nonempty r.namespace
request_namespace (non_resource verb path) = none

abbrev pub namespace_grants : Rbac → User → Request → Option String → Bool
namespace_grants rbac user request none = false
namespace_grants rbac user request (some namespace) =
    any (binding_grants rbac user request namespace) rbac.role_bindings

unfoldable pub allows : Rbac → User → Request → Bool
allows rbac user request =
    if is_superuser user
    then true
    else if any (cluster_binding_grants rbac user request) rbac.cluster_role_bindings
    then true
    else namespace_grants rbac user request (request_namespace request)
