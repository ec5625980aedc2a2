-- ===== src/Auth/Grants.antt =====
-- crates/h3s-auth/src/lib.rs: `allows` is true exactly where there is a grant.
use hedronetes_h3s.Prelude.{
  String, true, ◌≡◌, refl, ◌↔◌, inl, inr, Option, none, some, any, find, str_eq, eq_iff, arith, In,
  any→In, In→any, Bool-cases,
}
use hedronetes_h3s.Auth.Rbac.{
  Rbac, User, Request, Binding, rbac_group, is_superuser, allows, subjects_match, role_grants,
  referred_role, is_named, is_role, cluster_binding_grants, binding_grants, request_namespace,
  namespace_grants, list_of, is_some_text,
}
use hedronetes_h3s.Auth.Subjects.{some_text_iff, has_text-In, In-has_text}
use hedronetes_h3s.Auth.Granted.{
  IsClusterRole, IsRole, IsSubject, IsWithin, IsGranted, superuser, by_cluster, by_role,
  by_cluster_role, role_grants-find, is_named_iff, is_role_iff, subjects_match-IsSubject,
  within_iff,
}

module _ (rbac : Rbac) (user : User) (request : Request) where
  cluster_binding :
      (b : Binding)
      → In b rbac.cluster_role_bindings
      → cluster_binding_grants rbac user request b ≡ true
      → IsGranted rbac user request
  cluster_binding b m h =
      let a : str_eq b.role_ref.api_group rbac_group ≡ true = ground arith in
      let k : str_eq b.role_ref.kind "ClusterRole" ≡ true = ground arith in
      let s : subjects_match (list_of b.subjects) user none ≡ true = ground arith in
      let r : role_grants request (find (is_named b.role_ref.name) rbac.cluster_roles) ≡ true =
        ground arith in
      by_cluster b m ((eq_iff b.role_ref.api_group rbac_group).0 a)
        ((eq_iff b.role_ref.kind "ClusterRole").0 k) ((subjects_match-IsSubject user none b).0 s)
        ((role_grants-find request (is_named b.role_ref.name) (IsClusterRole b.role_ref.name)
            rbac.cluster_roles (is_named_iff b.role_ref.name)).0
          r)

  role_binding :
      (namespace : String) (b : Binding)
      → request_namespace request ≡ some namespace
      → In b rbac.role_bindings
      → binding_grants rbac user request namespace b ≡ true
      → IsGranted rbac user request
  role_binding namespace b e m h =
      let name = b.role_ref.name in
      let n : is_some_text b.namespace namespace ≡ true = ground arith in
      let a : str_eq b.role_ref.api_group rbac_group ≡ true = ground arith in
      let s : subjects_match (list_of b.subjects) user (some namespace) ≡ true = ground arith in
      let r : role_grants request (referred_role rbac namespace b.role_ref) ≡ true = ground arith in
      let inside = (within_iff request namespace).0 e in
      let n2 = (some_text_iff b.namespace namespace).0 n in
      let a2 = (eq_iff b.role_ref.api_group rbac_group).0 a in
      let s2 = (subjects_match-IsSubject user (some namespace) b).0 s in
      elim (Bool-cases (str_eq b.role_ref.kind "Role")) [
        | inl k ↦ by_role namespace b inside m n2 a2 ((eq_iff b.role_ref.kind "Role").0 k) s2 (
            (role_grants-find request (is_role namespace name) (IsRole namespace name) rbac.roles
                (is_role_iff namespace name)).0
              (rw k at r))
        | inr k ↦ elim (Bool-cases (str_eq b.role_ref.kind "ClusterRole")) [
          | inl l ↦
              by_cluster_role namespace b inside m n2 a2
                ((eq_iff b.role_ref.kind "ClusterRole").0 l) s2
                ((role_grants-find request (is_named name) (IsClusterRole name) rbac.cluster_roles
                    (is_named_iff name)).0
                  (rw (k, l) at r))
          | inr l ↦ absurd (let g = rw (k, l) at r in cc)
        ]
      ]

  namespace-IsGranted :
      (n : Option String)
      → request_namespace request ≡ n
      → namespace_grants rbac user request n ≡ true
      → IsGranted rbac user request
  namespace-IsGranted none e h = absurd (ground arith)
  namespace-IsGranted (some namespace) e h =
      let (b, m, g) = any→In (binding_grants rbac user request namespace) rbac.role_bindings h in
      role_binding namespace b e m g

  allows_sound : allows rbac user request ≡ true → IsGranted rbac user request
  unfolding allows
  allows_sound h = elim (Bool-cases (is_superuser user)) [
    | inl e ↦ superuser (has_text-In user.groups "system:masters" e)
    | inr e ↦
        elim (Bool-cases
          (any (cluster_binding_grants rbac user request) rbac.cluster_role_bindings)) [
            | inl g ↦
                let (b, m, k) =
                  any→In (cluster_binding_grants rbac user request) rbac.cluster_role_bindings g in
                cluster_binding b m k
            | inr g ↦ namespace-IsGranted (request_namespace request) refl (rw (e, g) at h)
          ]
  ]

  -- A RoleBinding whose role grants
  bound :
      (namespace : String) (b : Binding)
      → IsWithin request namespace
      → In b rbac.role_bindings
      → b.namespace ≡ some namespace
      → b.role_ref.api_group ≡ rbac_group
      → IsSubject user (some namespace) b
      → role_grants request (referred_role rbac namespace b.role_ref) ≡ true
      → allows rbac user request ≡ true
  unfolding allows
  bound namespace b n m k a s r =
      let g : binding_grants rbac user request namespace b ≡ true =
        rw
          (
            (some_text_iff b.namespace namespace).1 k,
            (eq_iff b.role_ref.api_group rbac_group).1 a,
            (subjects_match-IsSubject user (some namespace) b).1 s,
            r,
          )
          refl in
      let any_one = In→any (binding_grants rbac user request namespace) b rbac.role_bindings m g in
      let last : namespace_grants rbac user request (request_namespace request) ≡ true =
        rw ((within_iff request namespace).1 n) any_one in
      ground arith

  allows_complete : IsGranted rbac user request → allows rbac user request ≡ true
  unfolding allows
  allows_complete (superuser m) = rw (In-has_text user.groups "system:masters" m) refl
  allows_complete (by_cluster b m a k s r) =
      let name = b.role_ref.name in
      let g : cluster_binding_grants rbac user request b ≡ true =
        rw
          (
            (eq_iff b.role_ref.api_group rbac_group).1 a,
            (eq_iff b.role_ref.kind "ClusterRole").1 k,
            (subjects_match-IsSubject user none b).1 s,
            (role_grants-find request (is_named name) (IsClusterRole name) rbac.cluster_roles
                  (is_named_iff name)).1
                r,
          )
          refl in
      let any_one =
        In→any (cluster_binding_grants rbac user request) b rbac.cluster_role_bindings m g in
      elim (Bool-cases (is_superuser user)) [ inl e ↦ rw e refl | inr e ↦ rw (e, any_one) refl ]
  allows_complete (by_role namespace b n m k a kind s r) =
      let name = b.role_ref.name in
      bound namespace b n m k a s (
        rw kind (
          (role_grants-find request (is_role namespace name) (IsRole namespace name) rbac.roles
              (is_role_iff namespace name)).1
            r))
  allows_complete (by_cluster_role namespace b n m k a kind s r) =
      let name = b.role_ref.name in
      bound namespace b n m k a s (
        rw kind (
          (role_grants-find request (is_named name) (IsClusterRole name) rbac.cluster_roles
              (is_named_iff name)).1
            r))

  -- A request is allowed exactly if something grants it: the user is in system:masters; or a
  -- ClusterRoleBinding names the user and a ClusterRole, of which a rule covers the request; or a
  -- RoleBinding in the namespace of the request does so with a Role of that namespace or with a
  -- ClusterRole.
  pub allows-IsGranted : (allows rbac user request ≡ true) ↔ IsGranted rbac user request
  allows-IsGranted = (allows_sound, allows_complete)
