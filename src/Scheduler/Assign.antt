-- ===== src/Scheduler/Assign.antt =====
-- crates/h3s-scheduler/src/lib.rs: the assignment `objects[index]["spec"]["nodeName"] = node` and
-- what it leaves of the Pod.
use hedronetes_h3s.Prelude.{
  String, true, false, ◌≡◌, refl, subst, sym, ap, ◌∙◌, some, str_eq, str_eq_refl, eq_iff,
  and-eq-true,
}
use hedronetes_h3s.Prelude.Options.{>>=-eq-some}
use hedronetes_h3s.Json.{
  Value, null, bool, int, float, string, array, object, field, end, set_field, get_field-set_field,
  other_field, set_key, ◌!◌, is_text,
}
use hedronetes_h3s.Scheduler.Resources.{requests}
use hedronetes_h3s.Scheduler.Condition.{set_nested}
use hedronetes_h3s.Scheduler.Select.{assigned}

-- Writing a key gives it its new value, and keeps the values of the others.
pub set_key-same : (k : String) (new v w : Value) → set_key k new v ≡ some w → w ! k ≡ new
set_key-same k new null w h =
    let e : object (field k new end) ≡ w = cc in
    subst (λ x. x ! k ≡ new) e (rw (str_eq_refl k) refl)
set_key-same k new (object fs) w h =
    let e : object (set_field k new fs) ≡ w = cc in
    subst (λ x. x ! k ≡ new) e (rw (get_field-set_field k new fs) refl)
set_key-same k new (bool b) w h = absurd (cc)
set_key-same k new (int z) w h = absurd (cc)
set_key-same k new (float t) w h = absurd (cc)
set_key-same k new (string t) w h = absurd (cc)
set_key-same k new (array vs) w h = absurd (cc)

pub set_key-other :
    (k j : String) (new v w : Value) → set_key k new v ≡ some w → str_eq k j ≡ false → w ! j ≡ v ! j
set_key-other k j new null w h d =
    let e : object (field k new end) ≡ w = cc in subst (λ x. x ! j ≡ null) e (rw d refl)
set_key-other k j new (object fs) w h d =
    let e : object (set_field k new fs) ≡ w = cc in
    subst (λ x. x ! j ≡ object fs ! j) e (rw (other_field k j new fs d) refl)
set_key-other k j new (bool b) w h d = absurd (cc)
set_key-other k j new (int z) w h d = absurd (cc)
set_key-other k j new (float t) w h d = absurd (cc)
set_key-other k j new (string t) w h d = absurd (cc)
set_key-other k j new (array vs) w h d = absurd (cc)

-- A nested write that succeeds gives the inner key its value, and keeps the other fields.
pub set_nested-same :
    (outer inner : String) (new v w : Value)
    → set_nested outer inner new v ≡ some w
    → w ! outer ! inner ≡ new
set_nested-same outer inner new v w h =
    let (part, e, g) =
      >>=-eq-some (set_key inner new (v ! outer)) (λ part. set_key outer part v) h in
    ap (λ x. x ! inner) (set_key-same outer part v w g) ∙ set_key-same inner new (v ! outer) part e

pub set_nested-sibling :
    (outer inner j : String) (new v w : Value)
    → set_nested outer inner new v ≡ some w
    → str_eq inner j ≡ false
    → w ! outer ! j ≡ v ! outer ! j
set_nested-sibling outer inner j new v w h d =
    let (part, e, g) =
      >>=-eq-some (set_key inner new (v ! outer)) (λ part. set_key outer part v) h in
    ap (λ x. x ! j) (set_key-same outer part v w g) ∙ set_key-other inner j new (v ! outer) part e d

pub set_nested-other :
    (outer inner j : String) (new v w : Value)
    → set_nested outer inner new v ≡ some w
    → str_eq outer j ≡ false
    → w ! j ≡ v ! j
set_nested-other outer inner j new v w h d =
    let (part, e, g) =
      >>=-eq-some (set_key inner new (v ! outer)) (λ part. set_key outer part v) h in
    set_key-other outer j part v w g d

module _ (p q : Value) (node : String)
    (h : set_nested "spec" "nodeName" (string node) p ≡ some q) where
  kept : (j : String) → str_eq "nodeName" j ≡ false → q ! "spec" ! j ≡ p ! "spec" ! j
  kept j = set_nested-sibling "spec" "nodeName" j (string node) p q h

  -- An assigned Pod requests what it did.
  pub assign-requests : requests q ≡ requests p
  unfolding requests
  assign-requests =
      rw
        (
          kept "initContainers" refl,
          kept "resources" refl,
          kept "resourceClaims" refl,
          kept "containers" refl,
          kept "overhead" refl,
        )
        refl

  -- It holds resources of its node, and of no other.
  pub assign-assigned : (name : String) → assigned name q ≡ true → node ≡ name
  assign-assigned name e =
      let g = set_nested-same "spec" "nodeName" (string node) p q h in
      let (a, b) = and-eq-true (is_text name (q ! "spec" ! "nodeName")) _ e in
      (eq_iff node name).0 (ap (is_text name) (sym g) ∙ a)
