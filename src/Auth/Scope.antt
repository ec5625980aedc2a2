-- ===== src/Auth/Scope.antt =====
-- crates/h3s-auth/src/lib.rs: which bindings a decision can depend on.
use hedronetes_h3s.Prelude.{
  String, List, [], ◌∷◌, Bool, true, false, ◌≡◌, refl, sym, ap, ◌∙◌, inl, inr, Option, none, some,
  any, keep, arith, Bool-cases,
}
use hedronetes_h3s.Auth.Rbac.{
  Rbac, User, Request, Binding, allows, binding_grants, namespace_grants, request_namespace,
  is_some_text,
}

abbrev pub in_namespace : String → Binding → Bool
in_namespace namespace b = is_some_text b.namespace namespace

any-keep :
    (test kept : Binding → Bool) (bs : List Binding)
    → ((b : Binding) → test b ≡ true → kept b ≡ true)
    → any test bs ≡ any test (keep kept bs)
any-keep test kept [] h = refl
any-keep test kept (b ∷ bs) h =
    let ih = any-keep test kept bs h in
    elim (Bool-cases (kept b)) [
      | inl e ↦ rw (e, ih) refl
      | inr e ↦
          let g : test b ≡ false = elim (Bool-cases (test b)) [
            | inl t ↦ absurd (let k = h b t in ground arith)
            | inr t ↦ t
          ] in
          rw (e, g, ih) refl
    ]

grants_same :
    (rbac : Rbac) (others : List Binding) (user : User) (request : Request) (n : Option String)
    → ((namespace : String)
        → n ≡ some namespace
        → keep (in_namespace namespace) rbac.role_bindings ≡ keep (in_namespace namespace) others)
    → namespace_grants rbac user request n
      ≡ namespace_grants (record rbac { role_bindings = others }) user request n
grants_same rbac others user request none h = refl
grants_same rbac others user request (some namespace) h =
    let test = binding_grants rbac user request namespace in
    let part : (b : Binding) → test b ≡ true → in_namespace namespace b ≡ true =
      λ b t. ground arith in
    any-keep test (in_namespace namespace) rbac.role_bindings part
    ∙ ap (any test) (h namespace refl)
    ∙ sym (any-keep test (in_namespace namespace) others part)

-- RoleBindings decide only requests in their own namespace: replacing them by others that agree in
-- the namespace of the request, if it has one, changes no decision. A request without a namespace,
-- for a cluster-scoped resource or a path, is thus decided without them.
pub allows-record :
    (rbac : Rbac) (others : List Binding) (user : User) (request : Request)
    → ((namespace : String)
        → request_namespace request ≡ some namespace
        → keep (in_namespace namespace) rbac.role_bindings ≡ keep (in_namespace namespace) others)
    → allows (record rbac { role_bindings = others }) user request ≡ allows rbac user request
unfolding allows
allows-record rbac others user request h =
    rw (sym (grants_same rbac others user request (request_namespace request) h)) refl
