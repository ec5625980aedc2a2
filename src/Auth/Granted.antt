-- ===== src/Auth/Granted.antt =====
-- crates/h3s-auth/src/lib.rs: what a grant is, apart from the order of the search.
use hedronetes_h3s.Prelude.{
  String, List, Bool, true, ◌≡◌, ◌≢◌, refl, ap, ◌∙◌, ◌↔◌, inl, inr, Option, none, some, find, In,
  any→In, In→any, Option-cases, and-eq-true,
}
use hedronetes_h3s.Auth.Rbac.{
  Rbac, User, Request, ResourceRequest, on_resource, non_resource, Role, Binding, Subject,
  PolicyRule, rbac_group, subject_is, subjects_match, rule_allows, rules_allow, role_grants,
  is_named, is_role, request_namespace, list_of, is_some_text,
}
use hedronetes_h3s.Auth.Subjects.{
  IsFirst, find→IsFirst, IsFirst→find, some_text_iff, IsNamed, nonempty_iff, subject_is-IsNamed,
}

-- The first of the roles of which `P` holds has a rule that covers the request.
abbrev pub RoleCovers : Request → (Role → Type 0) → List Role → Type 0
RoleCovers request P roles =
    (role : Role) × IsFirst P role roles
    × (rule : PolicyRule) × In rule (list_of role.rules)
    × (rule_allows request rule ≡ true)

-- A ClusterRole of the name
abbrev pub IsClusterRole : String → Role → Type 0
IsClusterRole name role = role.name ≡ some name

-- A Role of the namespace and the name
abbrev pub IsRole : String → String → Role → Type 0
IsRole namespace name role = (role.namespace ≡ some namespace) × (role.name ≡ some name)

-- The user is one of the subjects.
abbrev pub IsSubject : User → Option String → Binding → Type 0
IsSubject user namespace b = (s : Subject) × In s (list_of b.subjects) × IsNamed user namespace s

-- The request is for a resource in the namespace.
abbrev pub IsWithin : Request → String → Type 0
IsWithin request namespace =
    (r : ResourceRequest) × (request ≡ on_resource r)
    × (r.namespace ≡ some namespace)
    × (namespace ≢ "")

-- What gives a user a request: being a superuser, a ClusterRoleBinding to a ClusterRole, or a
-- RoleBinding in the request's namespace to a Role there or to a ClusterRole.
pub data IsGranted (rbac : Rbac) (user : User) (request : Request) : Type 0 where
  superuser : In "system:masters" user.groups → IsGranted rbac user request
  by_cluster :
      (b : Binding)
      → In b rbac.cluster_role_bindings
      → b.role_ref.api_group ≡ rbac_group
      → b.role_ref.kind ≡ "ClusterRole"
      → IsSubject user none b
      → RoleCovers request (IsClusterRole b.role_ref.name) rbac.cluster_roles
      → IsGranted rbac user request
  by_role :
      (namespace : String) (b : Binding)
      → IsWithin request namespace
      → In b rbac.role_bindings
      → b.namespace ≡ some namespace
      → b.role_ref.api_group ≡ rbac_group
      → b.role_ref.kind ≡ "Role"
      → IsSubject user (some namespace) b
      → RoleCovers request (IsRole namespace b.role_ref.name) rbac.roles
      → IsGranted rbac user request
  by_cluster_role :
      (namespace : String) (b : Binding)
      → IsWithin request namespace
      → In b rbac.role_bindings
      → b.namespace ≡ some namespace
      → b.role_ref.api_group ≡ rbac_group
      → b.role_ref.kind ≡ "ClusterRole"
      → IsSubject user (some namespace) b
      → RoleCovers request (IsClusterRole b.role_ref.name) rbac.cluster_roles
      → IsGranted rbac user request

pub role_grants-find :
    (request : Request) (test : Role → Bool) (P : Role → Type 0) (roles : List Role)
    → ((role : Role) → (test role ≡ true) ↔ P role)
    → (role_grants request (find test roles) ≡ true) ↔ RoleCovers request P roles
unfolding rules_allow
role_grants-find request test P roles means = (
  λ h. elim (Option-cases (find test roles)) [
    | inl e ↦ absurd (let g = rw e at h in cc)
    | inr (role, e) ↦
        let (rule, m, t) = any→In (rule_allows request) (list_of role.rules) (rw e at h) in
        (role, find→IsFirst test P means role roles e, rule, m, t)
  ],
  λ p.
      let (role, f, rule, m, t) = p in
      rw (IsFirst→find test P means role roles f)
        (In→any (rule_allows request) rule (list_of role.rules) m t),
)

pub is_named_iff :
    (name : String) (role : Role) → (is_named name role ≡ true) ↔ IsClusterRole name role
is_named_iff name role = some_text_iff role.name name

pub is_role_iff :
    (namespace name : String) (role : Role)
    → (is_role namespace name role ≡ true) ↔ IsRole namespace name role
is_role_iff namespace name role = (
  λ h.
      let (a, b) = and-eq-true (is_some_text role.namespace namespace) (is_named name role) h in
      ((some_text_iff role.namespace namespace).0 a, (some_text_iff role.name name).0 b),
  λ p.
      rw ((some_text_iff role.namespace namespace).1 p.0, (some_text_iff role.name name).1 p.1)
        refl,
)

pub subjects_match-IsSubject :
    (user : User) (namespace : Option String) (b : Binding)
    → (subjects_match (list_of b.subjects) user namespace ≡ true) ↔ IsSubject user namespace b
unfolding subjects_match
subjects_match-IsSubject user namespace b = (
  λ h.
      let (s, m, t) = any→In (subject_is user namespace) (list_of b.subjects) h in
      (s, m, (subject_is-IsNamed user namespace s).0 t),
  λ p.
      let (s, m, n) = p in
      In→any (subject_is user namespace) s (list_of b.subjects) m
        ((subject_is-IsNamed user namespace s).1 n),
)

pub within_iff :
    (request : Request) (namespace : String)
    → (request_namespace request ≡ some namespace) ↔ IsWithin request namespace
within_iff (on_resource r) namespace = (
  λ h. let (a, b) = (nonempty_iff r.namespace namespace).0 h in (r, refl, a, b),
  λ p.
      let (q, e, a, b) = p in
      let u : r ≡ q = cc in
      (nonempty_iff r.namespace namespace).1 (ap (λ (r : ResourceRequest). r.namespace) u ∙ a, b),
)
within_iff (non_resource verb path) namespace =
    (λ h. absurd (cc), λ p. absurd (let (q, e, a, b) = p in cc))
