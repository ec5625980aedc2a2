-- ===== src/Auth/Subjects.antt =====
-- crates/h3s-auth/src/lib.rs: which users a subject of a binding names, and which role a name finds,
-- said without the tests.
use hedronetes_h3s.Prelude.{
  String, List, [], ◌∷◌, ◌++◌, Bool, true, ◌≡◌, ◌≢◌, refl, sym, ap, ◌∙◌, subst, ◌↔◌, ◌⊎◌, inl, inr,
  Option, none, some, find, str_eq, str_eq_refl, eq_iff, codes, codes_eq_iff, arith, In, any→In,
  In→any, Bool-cases,
}
use hedronetes_h3s.Auth.Rbac.{
  User, Subject, rbac_group, subject_is, is_some_text, has_text, nonempty, or_else, text_or_empty,
  is_service_account,
}

-- The first element of the list of which `P` holds
pub data IsFirst {ℓ κ} {A : Type ℓ} (P : A → Type κ) (x : A) : List A → Type (ℓ ⊔ κ) where
  first : {y : A} {ys : List A} → y ≡ x → P y → IsFirst P x (y ∷ ys)
  later : {y : A} {ys : List A} → ¬ P y → IsFirst P x ys → IsFirst P x (y ∷ ys)

module _ {ℓ κ} {A : Type ℓ} (test : A → Bool) (P : A → Type κ)
    (means : (a : A) → (test a ≡ true) ↔ P a) where
  pub find→IsFirst : (x : A) (xs : List A) → find test xs ≡ some x → IsFirst P x xs
  find→IsFirst x [] h = absurd (cc)
  find→IsFirst x (y ∷ ys) h = elim (Bool-cases (test y)) [
    | inl t ↦ first (let e = rw t at h in cc) ((means y).0 t)
    | inr t ↦ later (λ p. absurd (let u = (means y).1 p in cc)) (find→IsFirst x ys (rw t at h))
  ]

  pub IsFirst→find : (x : A) (xs : List A) → IsFirst P x xs → find test xs ≡ some x
  IsFirst→find x [] p = elim p [ ]
  IsFirst→find x (y ∷ ys) (first e p) = rw ((means y).1 p) (ap some e)
  IsFirst→find x (y ∷ ys) (later misses p) = elim (Bool-cases (test y)) [
    | inl t ↦ absurd (misses ((means y).0 t))
    | inr t ↦ rw t (IsFirst→find x ys p)
  ]

pub some_text_iff : (o : Option String) (s : String) → (is_some_text o s ≡ true) ↔ (o ≡ some s)
some_text_iff none s = ground arith
some_text_iff (some t) s = ground (arith, eq_iff t s)

pub has_text-In : (words : List String) (s : String) → has_text words s ≡ true → In s words
has_text-In words s h =
    let (w, m, e) = any→In (λ w. str_eq w s) words h in subst (λ t. In t words) ((eq_iff w s).0 e) m

pub In-has_text : (words : List String) (s : String) → In s words → has_text words s ≡ true
In-has_text words s m = In→any (λ w. str_eq w s) s words m (str_eq_refl s)

-- The user whom a subject of a binding in `binding_ns` names: by its own name, by one of its groups,
-- or as the service account of a namespace, its own or else the binding's.
pub data IsNamed (user : User) (binding_ns : Option String) (s : Subject) : Type 0 where
  by_name :
      s.kind ≡ "User"
      → s.api_group ≡ some rbac_group
      → s.name ≡ user.name
      → IsNamed user binding_ns s
  by_group :
      s.kind ≡ "Group"
      → s.api_group ≡ some rbac_group
      → In s.name user.groups
      → IsNamed user binding_ns s
  as_account :
      (ns : String)
      → s.kind ≡ "ServiceAccount"
      → ((s.api_group ≡ none) ⊎ (s.api_group ≡ some ""))
      → ((s.namespace ≡ some ns) ⊎ ((s.namespace ≡ none) × (binding_ns ≡ some ns)))
      → ns ≢ ""
      → codes user.name ≡ codes "system:serviceaccount:" ++ (codes ns ++ (b':' ∷ codes s.name))
      → IsNamed user binding_ns s

pub nonempty_iff :
    (o : Option String) (s : String) → (nonempty o ≡ some s) ↔ ((o ≡ some s) × (s ≢ ""))
nonempty_iff none s = (λ h. absurd (cc), λ p. absurd (let q = p.0 in cc))
nonempty_iff (some t) s = elim (Bool-cases (str_eq t "")) [
  | inl e ↦ (
    λ h. absurd (let g = rw e at h in cc),
    λ p. absurd (let u : t ≡ s = (let q = p.0 in cc) in p.1 (sym u ∙ (eq_iff t "").0 e)),
  )
  | inr e ↦ (
    λ h.
        let g : ◌≡◌ {A = Option String} (some t) (some s) = rw e at h in
        (g, λ z. absurd (let u : t ≡ s = cc in let k = (eq_iff t "").1 (u ∙ z) in cc)),
    λ p. rw e p.0,
  )
]

or_else_iff :
    (a b : Option String) (s : String)
    → (or_else a b ≡ some s) ↔ ((a ≡ some s) ⊎ ((a ≡ none) × (b ≡ some s)))
or_else_iff none b s = (λ h. inr (refl, h), λ p. elim p [ inl e ↦ absurd (cc) | inr (n, e) ↦ e ])
or_else_iff (some t) b s = (λ h. inl h, λ p. elim p [ inl e ↦ e | inr (n, e) ↦ absurd (cc) ])

empty_group :
    (o : Option String) → (str_eq (text_or_empty o) "" ≡ true) ↔ ((o ≡ none) ⊎ (o ≡ some ""))
empty_group none = (λ h. inl refl, λ p. refl)
empty_group (some t) = (
  λ h. inr (ap some ((eq_iff t "").0 h)),
  λ p. elim p [ inl e ↦ absurd (cc) | inr e ↦ let u : t ≡ "" = cc in (eq_iff t "").1 u ],
)

account_iff :
    (user : User) (name : String) (o : Option String)
    → (is_service_account user name o ≡ true) ↔ (
        (ns : String) × (o ≡ some ns)
        × (codes user.name ≡ codes "system:serviceaccount:" ++ (codes ns ++ (b':' ∷ codes name))))
account_iff user name none = (λ h. absurd (ground arith), λ p. absurd (let (ns, e, q) = p in cc))
account_iff user name (some ns) =
    let full = codes "system:serviceaccount:" ++ (codes ns ++ (b':' ∷ codes name)) in
    (
      λ h. (ns, refl, (codes_eq_iff (codes user.name) full).0 h),
      λ p.
          let (other, e, q) = p in
          let u : ns ≡ other = cc in
          (codes_eq_iff (codes user.name) full).1 (
            q
            ∙ ap (λ ns. codes "system:serviceaccount:" ++ (codes ns ++ (b':' ∷ codes name)))
                (sym u)),
    )

pub subject_is-IsNamed :
    (user : User) (ns : Option String) (s : Subject)
    → (subject_is user ns s ≡ true) ↔ IsNamed user ns s
subject_is-IsNamed user ns s = (
  λ h. elim (Bool-cases (str_eq s.kind "User")) [
    | inl k ↦
        let g = rw k at h in
        let a : is_some_text s.api_group rbac_group ≡ true = ground arith in
        let n : str_eq s.name user.name ≡ true = ground arith in
        by_name ((eq_iff s.kind "User").0 k) ((some_text_iff s.api_group rbac_group).0 a)
          ((eq_iff s.name user.name).0 n)
    | inr k ↦ elim (Bool-cases (str_eq s.kind "Group")) [
      | inl l ↦
          let g = rw (k, l) at h in
          let a : is_some_text s.api_group rbac_group ≡ true = ground arith in
          let n : has_text user.groups s.name ≡ true = ground arith in
          by_group ((eq_iff s.kind "Group").0 l) ((some_text_iff s.api_group rbac_group).0 a)
            (has_text-In user.groups s.name n)
      | inr l ↦ elim (Bool-cases (str_eq s.kind "ServiceAccount")) [
        | inr m ↦ absurd (let g = rw (k, l, m) at h in cc)
        | inl m ↦
            let g = rw (k, l, m) at h in
            let a : str_eq (text_or_empty s.api_group) "" ≡ true = ground arith in
            let n : is_service_account user s.name (nonempty (or_else s.namespace ns)) ≡ true =
              ground arith in
            let (in_ns, e, q) = (account_iff user s.name (nonempty (or_else s.namespace ns))).0 n in
            let (f, some_ns) = (nonempty_iff (or_else s.namespace ns) in_ns).0 e in
            as_account in_ns ((eq_iff s.kind "ServiceAccount").0 m) ((empty_group s.api_group).0 a)
              ((or_else_iff s.namespace ns in_ns).0 f) some_ns q
      ]
    ]
  ],
  λ p. named p,
)
  where
    named : IsNamed user ns s → subject_is user ns s ≡ true
    named (by_name k a n) =
        rw (k, (some_text_iff s.api_group rbac_group).1 a, (eq_iff s.name user.name).1 n) refl
    named (by_group k a n) =
        rw (k, (some_text_iff s.api_group rbac_group).1 a, In-has_text user.groups s.name n) refl
    named (as_account in_ns k a w n q) =
        let e =
          (nonempty_iff (or_else s.namespace ns) in_ns).1
            ((or_else_iff s.namespace ns in_ns).1 w, n) in
        let f = (account_iff user s.name (nonempty (or_else s.namespace ns))).1 (in_ns, e, q) in
        rw (k, (empty_group s.api_group).1 a, f) refl
