-- ===== src/Auth/Identity.antt =====
-- crates/h3s-auth/src/lib.rs: what an identity from a certificate can be.
use hedronetes_h3s.Prelude.{
  ℕ, String, List, [], ◌∷◌, ◌++◌, true, false, ◌≡◌, refl, sym, ap, ◌∙◌, subst, ◌⊎◌, inl, inr,
  Option, none, some, str_eq, eq_iff, arith, In, here, there, In-uncons, Bool-cases, ok, ok_or,
  ok-injective,
}
use hedronetes_h3s.Prelude.Results.{◌>>=◌, >>=-eq-ok}
use hedronetes_h3s.Auth.Rbac.{User, has_text}
use hedronetes_h3s.Auth.Subjects.{has_text-In, In-has_text}
use hedronetes_h3s.Auth.Certificate.{
  Certificate, invalid_identity, refused, text_ok, only_name, push_new, add_groups, user_of,
  from_verified_certificate,
}

-- No text is in the list twice.
abbrev pub IsDistinct : List String → Type 0
IsDistinct [] = Unit
IsDistinct (s ∷ ss) = (has_text ss s ≡ false) × IsDistinct ss

In-append : (xs : List String) (y z : String) → In z (xs ++ (y ∷ [])) → In z xs ⊎ (y ≡ z)
In-append [] y z m = elim (In-uncons m) [ inl e ↦ inr e | inr k ↦ elim k [ ] ]
In-append (x ∷ xs) y z m = elim (In-uncons m) [
  | inl e ↦ inl (here e)
  | inr k ↦ elim (In-append xs y z k) [ inl a ↦ inl (there a) | inr e ↦ inr e ]
]

append_first : (xs : List String) (y z : String) → In z xs → In z (xs ++ (y ∷ []))
append_first [] y z m = elim m [ ]
append_first (x ∷ xs) y z (here e) = here e
append_first (x ∷ xs) y z (there m) = there (append_first xs y z m)

append_last : (xs : List String) (y : String) → In y (xs ++ (y ∷ []))
append_last [] y = here refl
append_last (x ∷ xs) y = there (append_last xs y)

append-IsDistinct :
    (xs : List String) (y : String)
    → IsDistinct xs
    → has_text xs y ≡ false
    → IsDistinct (xs ++ (y ∷ []))
append-IsDistinct [] y d n = (refl, tt)
append-IsDistinct (x ∷ xs) y (a, d) n =
    let n1 : has_text xs y ≡ false = ground arith in
    let absent : has_text (xs ++ (y ∷ [])) x ≡ false =
      elim (Bool-cases (has_text (xs ++ (y ∷ [])) x)) [
        | inr e ↦ e
        | inl e ↦ elim (In-append xs y x (has_text-In (xs ++ (y ∷ [])) x e)) [
          | inl m ↦ absurd (let q = In-has_text xs x m in ground arith)
          | inr q ↦ absurd (let w : str_eq x y ≡ true = (eq_iff x y).1 (sym q) in ground arith)
        ]
      ] in
    (absent, append-IsDistinct xs y d n1)

push_new-IsDistinct : (gs : List String) (g : String) → IsDistinct gs → IsDistinct (push_new gs g)
push_new-IsDistinct gs g d = elim (Bool-cases (has_text gs g)) [
  | inl e ↦ rw e d
  | inr e ↦ rw e (append-IsDistinct gs g d e)
]

In-push_new : (gs : List String) (g z : String) → In z (push_new gs g) → In z gs ⊎ (g ≡ z)
In-push_new gs g z m = elim (Bool-cases (has_text gs g)) [
  | inl e ↦ inl (rw e at m)
  | inr e ↦ In-append gs g z (rw e at m)
]

push_new_old : (gs : List String) (g z : String) → In z gs → In z (push_new gs g)
push_new_old gs g z m = elim (Bool-cases (has_text gs g)) [
  | inl e ↦ rw e m
  | inr e ↦ rw e (append_first gs g z m)
]

push_new_self : (gs : List String) (g : String) → In g (push_new gs g)
push_new_self gs g = elim (Bool-cases (has_text gs g)) [
  | inl e ↦ rw e (has_text-In gs g e)
  | inr e ↦ rw e (append_last gs g)
]

text_ok_lem :
    (o : Option String) (s : String) → text_ok o ≡ ok s → (o ≡ some s) × (refused s ≡ false)
text_ok_lem none s h = absurd (cc)
text_ok_lem (some t) s h = elim (Bool-cases (refused t)) [
  | inl e ↦ absurd (ground arith)
  | inr e ↦ let g : t ≡ s = ground arith in (ap some g, subst (λ x. refused x ≡ false) g e)
]

same_text : {s t : String} → ◌≡◌ {A = Option String} (some s) (some t) → s ≡ t
same_text h = cc

-- What the loop over the organizations adds to the groups.
record IsCollected (before : List String) (os : List (Option String)) (after : List String)
    : Type 0 where
  distinct : IsDistinct before → IsDistinct after
  sound : (g : String) → In g after → In g before ⊎ (In (some g) os × (refused g ≡ false))
  kept : (g : String) → In g before → In g after
  complete : (g : String) → In (some g) os → In g after

add_groups-IsCollected :
    (before : List String) (os : List (Option String)) (after : List String)
    → add_groups before os ≡ ok after
    → IsCollected before os after
add_groups-IsCollected before [] after h =
    let e : before ≡ after = cc in
    record {
      distinct = λ d. subst IsDistinct e d;
      sound = λ g m. inl (subst (In g) (sym e) m);
      kept = λ g m. subst (In g) e m;
      complete = λ g m. elim m [ ];
    }
add_groups-IsCollected before (o ∷ os) after h =
    let (org, e, h1) = >>=-eq-ok (text_ok o) (λ org. add_groups (push_new before org) os) h in
    let (q, r) = text_ok_lem o org e in
    let c = add_groups-IsCollected (push_new before org) os after h1 in
    record {
      distinct = λ d. c.distinct (push_new-IsDistinct before org d);
      sound = λ g m. elim (c.sound g m) [
        | inl k ↦ elim (In-push_new before org g k) [
          | inl w ↦ inl w
          | inr w ↦ inr (here (q ∙ ap some w), subst (λ x. refused x ≡ false) w r)
        ]
        | inr (k, w) ↦ inr (there k, w)
      ];
      kept = λ g m. c.kept g (push_new_old before org g m);
      complete = λ g m. elim (In-uncons m) [
        | inl w ↦
            let x : org ≡ g = same_text (sym q ∙ w) in
            subst (λ t. In t after) x (c.kept org (push_new_self before org))
        | inr k ↦ c.complete g k
      ];
    }

-- The identity that a certificate gives: one name, not empty and with no control character, and as
-- groups, each once, the organizations and `system:authenticated`.
pub record IsIdentity (c : Certificate) (user : User) : Type 0 where
  pub named : c.common_names ≡ some user.name ∷ []
  pub name_ok : refused user.name ≡ false
  pub distinct : IsDistinct user.groups
  pub authenticated : In "system:authenticated" user.groups
  pub every : (g : String) → In (some g) c.organizations → In g user.groups
  pub only :
      (g : String)
      → In g user.groups
      → ("system:authenticated" ≡ g) ⊎ (In (some g) c.organizations × (refused g ≡ false))

only_name_lem :
    (ns : List (Option String)) (name : String)
    → only_name ns ≡ ok name
    → (ns ≡ some name ∷ []) × (refused name ≡ false)
only_name_lem [] name h = absurd (cc)
only_name_lem (n ∷ []) name h = let (e, r) = text_ok_lem n name h in (ap (λ t. t ∷ []) e, r)
only_name_lem (n ∷ m ∷ ms) name h = absurd (cc)

user_of-IsIdentity : (c : Certificate) (user : User) → user_of c ≡ ok user → IsIdentity c user
user_of-IsIdentity c user h = elim (Bool-cases c.remaining) [
  | inl e ↦ absurd (ground arith)
  | inr e ↦
      let (name, n, h1) =
        >>=-eq-ok (only_name c.common_names)
          (λ name. add_groups [] c.organizations >>= λ groups.
            ok (record { name = name; groups = push_new groups "system:authenticated" }))
          (rw e at h) in
      let (groups, g, h2) =
        >>=-eq-ok (add_groups [] c.organizations)
          (λ groups. ok (record { name = name; groups = push_new groups "system:authenticated" }))
          h1 in
      let f : record { name = name; groups = push_new groups "system:authenticated" } ≡ user =
        ok-injective h2 in
      let (a, r) = only_name_lem c.common_names name n in
      let k = add_groups-IsCollected [] c.organizations groups g in
      subst (IsIdentity c) f (record {
        named = a;
        name_ok = r;
        distinct = push_new-IsDistinct groups "system:authenticated" (k.distinct tt);
        authenticated = push_new_self groups "system:authenticated";
        every = λ x m. push_new_old groups "system:authenticated" x (k.complete x m);
        only = λ x m. elim (In-push_new groups "system:authenticated" x m) [
          | inr w ↦ inl w
          | inl w ↦ elim (k.sound x w) [ inl z ↦ elim z [ ] | inr z ↦ inr z ]
        ];
      })
]

-- An identity comes from one parsed certificate with no bytes left over and one common name, which
-- is not empty and has no control character; its groups are the organizations and
-- `system:authenticated`, each once, and nothing else.
pub from_verified_certificate-IsIdentity :
    (from_der : List ℕ → Option Certificate) (der : List ℕ) (user : User)
    → from_verified_certificate from_der der ≡ ok user
    → (c : Certificate) × (from_der der ≡ some c) × (c.remaining ≡ false) × IsIdentity c user
unfolding from_verified_certificate
from_verified_certificate-IsIdentity from_der der user h =
    let (c, e, g) = >>=-eq-ok (ok_or (from_der der) invalid_identity) user_of h in
    let r : c.remaining ≡ false = ground arith in (c, ground arith, r, user_of-IsIdentity c user g)
