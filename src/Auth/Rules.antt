-- ===== src/Auth/Rules.antt =====
-- crates/h3s-auth/src/lib.rs: which resource requests a policy rule covers, said without the tests.
use hedronetes_h3s.Prelude.{
  String, List, [], ◌∷◌, ◌++◌, true, ◌||◌, ◌≡◌, refl, subst, ◌↔◌, ◌⊎◌, inl, inr, Option, none, some,
  any, str_eq, eq_iff, codes, codes_eq, codes_eq_iff, arith, In, any→In, In→any, Bool-cases,
  or-eq-true,
}
use hedronetes_h3s.Auth.Rbac.{
  ResourceRequest, on_resource, PolicyRule, rule_allows, list_of, star_or, contains,
  resource_matches, is_resource, is_any_sub, name_matches, nonempty,
}
use hedronetes_h3s.Auth.Subjects.{has_text-In, In-has_text}

-- The list names the value, or has a star.
abbrev pub IsListed : Option (List String) → String → Type 0
IsListed values value = (w : String) × In w (list_of values) × ((w ≡ "*") ⊎ (w ≡ value))

-- How a text of a rule names the resource: a star, `resource` or `resource/sub` as the request has a
-- subresource or none, or `*/sub`.
pub data IsNamedBy (r : ResourceRequest) (v : String) : Type 0 where
  star : v ≡ "*" → IsNamedBy r v
  whole : nonempty r.subresource ≡ none → v ≡ r.resource → IsNamedBy r v
  part :
      {sub : String}
      → nonempty r.subresource ≡ some sub
      → codes v ≡ codes r.resource ++ (b'/' ∷ codes sub)
      → IsNamedBy r v
  any_part :
      {sub : String}
      → nonempty r.subresource ≡ some sub
      → codes v ≡ b'*' ∷ b'/' ∷ codes sub
      → IsNamedBy r v

pub record IsCovered (rule : PolicyRule) (r : ResourceRequest) : Type 0 where
  pub verb : IsListed (some rule.verbs) r.verb
  pub group : IsListed rule.api_groups r.group
  pub resource : (v : String) × In v (list_of rule.resources) × IsNamedBy r v
  pub name :
      (list_of rule.resource_names ≡ [])
      ⊎ ((n : String) × (r.name ≡ some n) × In n (list_of rule.resource_names))

contains_iff :
    (values : Option (List String)) (value : String)
    → (contains values value ≡ true) ↔ IsListed values value
contains_iff values value = (
  λ h.
      let (w, m, e) = any→In (star_or value) (list_of values) h in
      (
        w,
        m,
        elim (or-eq-true (str_eq w "*") (str_eq w value) e) [
          | inl a ↦ inl ((eq_iff w "*").0 a)
          | inr a ↦ inr ((eq_iff w value).0 a)
        ],
      ),
  λ p.
      let (w, m, e) = p in
      In→any (star_or value) w (list_of values) m (elim e [
        | inl a ↦ let b = (eq_iff w "*").1 a in ground arith
        | inr a ↦ let b = (eq_iff w value).1 a in ground arith
      ]),
)

named_by :
    (r : ResourceRequest) (v : String) (sub : Option String)
    → nonempty r.subresource ≡ sub
    → (str_eq v "*" || is_resource r.resource sub v || is_any_sub sub v) ≡ true
    → IsNamedBy r v
named_by r v none e h = elim (Bool-cases (str_eq v "*")) [
  | inl a ↦ star ((eq_iff v "*").0 a)
  | inr a ↦ whole e ((eq_iff v r.resource).0 (ground arith))
]
named_by r v (some sub) e h = elim (Bool-cases (str_eq v "*")) [
  | inl a ↦ star ((eq_iff v "*").0 a)
  | inr a ↦
      let full = codes r.resource ++ (b'/' ∷ codes sub) in
      elim (Bool-cases (codes_eq (codes v) full)) [
        | inl b ↦ part e ((codes_eq_iff (codes v) full).0 b)
        | inr b ↦ any_part e ((codes_eq_iff (codes v) (b'*' ∷ b'/' ∷ codes sub)).0 (ground arith))
      ]
]

by_named : (r : ResourceRequest) (v : String) → IsNamedBy r v → resource_matches r v ≡ true
by_named r v (star e) = let a = (eq_iff v "*").1 e in ground arith
by_named r v (whole n e) = rw n (let a = (eq_iff v r.resource).1 e in ground arith)
by_named r v (part {sub = sub} n e) =
    rw n (
      let a = (codes_eq_iff (codes v) (codes r.resource ++ (b'/' ∷ codes sub))).1 e in ground arith)
by_named r v (any_part {sub = sub} n e) =
    rw n (let a = (codes_eq_iff (codes v) (b'*' ∷ b'/' ∷ codes sub)).1 e in ground arith)

name_iff :
    (names : List String) (name : Option String)
    → (name_matches names name ≡ true)
      ↔ ((names ≡ []) ⊎ ((n : String) × (name ≡ some n) × In n names))
name_iff [] name = (λ h. inl refl, λ p. refl)
name_iff (w ∷ ws) none =
    (λ h. absurd (ground arith), λ p. elim p [ inl e ↦ absurd (cc) | inr (n, e, m) ↦ absurd (cc) ])
name_iff (w ∷ ws) (some name) = (
  λ h. inr (name, refl, has_text-In (w ∷ ws) name h),
  λ p. elim p [
    | inl e ↦ absurd (cc)
    | inr (n, e, m) ↦
        let g : n ≡ name = cc in In-has_text (w ∷ ws) name (subst (λ t. In t (w ∷ ws)) g m)
  ],
)

-- A rule covers a resource request exactly if it lists the verb and the group or a star, names the
-- resource, and lists the object's name if it lists any names: no other wildcard counts.
pub rule_allows-IsCovered :
    (rule : PolicyRule) (r : ResourceRequest)
    → (rule_allows (on_resource r) rule ≡ true) ↔ IsCovered rule r
unfolding rule_allows
rule_allows-IsCovered rule r = (
  λ h.
      let v : contains (some rule.verbs) r.verb ≡ true = ground arith in
      let g : contains rule.api_groups r.group ≡ true = ground arith in
      let s : any (resource_matches r) (list_of rule.resources) ≡ true = ground arith in
      let n : name_matches (list_of rule.resource_names) r.name ≡ true = ground arith in
      let (w, m, e) = any→In (resource_matches r) (list_of rule.resources) s in
      record {
        verb = (contains_iff (some rule.verbs) r.verb).0 v;
        group = (contains_iff rule.api_groups r.group).0 g;
        resource = (w, m, named_by r w (nonempty r.subresource) refl e);
        name = (name_iff (list_of rule.resource_names) r.name).0 n;
      },
  λ c.
      let (w, m, e) = c.resource in
      rw
        (
          (contains_iff (some rule.verbs) r.verb).1 c.verb,
          (contains_iff rule.api_groups r.group).1 c.group,
          In→any (resource_matches r) w (list_of rule.resources) m (by_named r w e),
          (name_iff (list_of rule.resource_names) r.name).1 c.name,
        )
        refl,
)
