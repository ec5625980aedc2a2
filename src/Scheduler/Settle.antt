-- ===== src/Scheduler/Settle.antt =====
-- crates/h3s-scheduler/src/lib.rs: `condition` settles, so that cycles stop writing the same status.
use hedronetes_h3s.Prelude.{
  String, List, [], ◌∷◌, ◌++◌, Bool, true, false, ◌≡◌, refl, ap, inl, inr, some, arith, Bool-cases,
  any, str_eq_refl, keep,
}
use hedronetes_h3s.Json.{Value, array, ◌!◌, as_array, items_list, list_items}
use hedronetes_h3s.Scheduler.Condition.{
  unchanged, write, condition, new_conditions, list_or_empty, same_condition, scheduled_condition,
  set_nested, other_type, transition,
}
use hedronetes_h3s.Scheduler.Assign.{set_nested-same, set_nested-other}

items_list-list_items : (vs : List Value) → items_list (list_items vs) ≡ vs
items_list-list_items [] = refl
items_list-list_items (v ∷ vs) = ap (λ t. v ∷ t) (items_list-list_items vs)

any-last :
    (test : Value → Bool) (xs : List Value) (v : Value)
    → test v ≡ true
    → any test (xs ++ (v ∷ [])) ≡ true
any-last test [] v h = rw h refl
any-last test (x ∷ xs) v h = elim (Bool-cases (test x)) [
  | inl e ↦ rw e refl
  | inr e ↦ rw e (any-last test xs v h)
]

same-scheduled_condition :
    (scheduled : Bool) (reason time : String)
    → same_condition scheduled reason (scheduled_condition scheduled reason time) ≡ true
same-scheduled_condition true reason time = rw (str_eq_refl reason) refl
same-scheduled_condition false reason time = rw (str_eq_refl reason) refl

conditions : Value → List Value
conditions pod = list_or_empty (as_array (pod ! "status" ! "conditions"))

written_conditions :
    (pod new : Value) (scheduled : Bool) (reason now : String)
    → condition pod scheduled reason now ≡ write new
    → set_nested "status" "conditions"
        (array (list_items (new_conditions scheduled reason now (conditions pod))))
        pod
      ≡ some new
unfolding condition conditions
written_conditions pod new scheduled reason now h = ground arith

-- Once `condition` has written a Pod's status, calling it on the result with the same outcome writes
-- nothing, at whatever time, and the metadata and spec of the written Pod are as they were.
pub condition-condition :
    (pod new : Value) (scheduled : Bool) (reason now later : String)
    → condition pod scheduled reason now ≡ write new
    → (condition new scheduled reason later ≡ unchanged)
      × (new ! "spec" ≡ pod ! "spec")
      × (new ! "metadata" ≡ pod ! "metadata")
unfolding condition conditions
condition-condition pod new scheduled reason now later h =
    let listed = new_conditions scheduled reason now (conditions pod) in
    let w = written_conditions pod new scheduled reason now h in
    let e = set_nested-same "status" "conditions" (array (list_items listed)) pod new w in
    let time = transition scheduled now (conditions pod) in
    let a =
      any-last (same_condition scheduled reason) (keep other_type (conditions pod))
        (scheduled_condition scheduled reason time)
        (same-scheduled_condition scheduled reason time) in
    (
      rw (e, items_list-list_items listed) (rw a refl),
      set_nested-other "status" "conditions" "spec" _ pod new w refl,
      set_nested-other "status" "conditions" "metadata" _ pod new w refl,
    )
