-- ===== src/Scheduler/Commit.antt =====
-- crates/h3s-scheduler/src/lib.rs: a scheduling cycle never gives a node more than it offers.
use hedronetes_h3s.Prelude.{
  ℕ, String, List, [], ◌∷◌, true, false, ◌≡◌, refl, sym, ap, ◌∙◌, subst, inl, inr, Option, none,
  some, Bool-cases, Result, ok, err,
}
use hedronetes_h3s.Json.{Value, string, ◌!◌, as_str}
use hedronetes_h3s.Scheduler.Resources.{capacity}
use hedronetes_h3s.Scheduler.Nodes.{Chrono}
use hedronetes_h3s.Scheduler.Select.{assigned, select}
use hedronetes_h3s.Scheduler.Condition.{condition, set_nested}
use hedronetes_h3s.Scheduler.Cycle.{
  Failure, Reply, accepted, gone, failed, Replies, Listing, Progress, Outcome, mark_bound,
  record_bind, bind, act, attempt, schedule, schedule_all, reconcile_once, candidates, item_at,
  replace_at, identified, start, same_text, next_of, complete,
}
use hedronetes_h3s.Scheduler.Demand.{plus, IsWithin, IsWithin-trans, IsDemand}
use hedronetes_h3s.Scheduler.Best.{select-IsPlaced}
use hedronetes_h3s.Scheduler.Assign.{assign-requests, assign-assigned}
use hedronetes_h3s.Scheduler.Replace.{IsDemand-unique, replace-IsBefore}
use hedronetes_h3s.Scheduler.Accepted.{
  HasOwnNames, IsRespected, assign_to, replace_by, assign_at, applied, after_condition-progress,
}

module _ (chrono : Chrono) (nodes leases : List Value) (own : HasOwnNames nodes) where
  -- The binding of a placed Pod.
  bind-IsRespected :
      (now : chrono.Instant) (objects : List Value) (i : ℕ) (p q : Value) (name : String)
      → item_at i objects ≡ some p
      → select chrono p nodes objects leases now ≡ ok name
      → set_nested "spec" "nodeName" (string name) p ≡ some q
      → IsRespected nodes objects
      → IsRespected nodes (replace_at i q objects)
  bind-IsRespected now objects i p q name at chosen written inv node other offered u listed named
        offers d =
      let s = select-IsPlaced chrono p nodes objects leases now name chosen in
      let f = s.best.feasible in
      let b =
        replace-IsBefore other p q s.requested s.asks (assign-requests p q name written) i objects u
          at d in
      elim (Bool-cases (assigned other q)) [
        | inr e ↦
            IsWithin-trans (b.kept e) (inv node other offered b.before listed named offers b.demand)
        | inl e ↦
            let g : s.choice.name ≡ other = s.named ∙ assign-assigned p q name written other e in
            let same : s.best.node ≡ node =
              own s.best.node node s.best.listed listed (f.named ∙ ap some g ∙ sym named) in
            let before : f.used ≡ b.before =
              IsDemand-unique other objects f.used b.before
                (subst (λ n. IsDemand n objects f.used) g f.demand) b.demand in
            let off : some f.offered ≡ some offered = sym f.offers ∙ ap capacity same ∙ offers in
            let off1 : f.offered ≡ offered = cc in
            IsWithin-trans b.grown (
              subst (λ x. IsWithin (plus x s.requested) offered) before
                (subst (λ x. IsWithin (plus f.used s.requested) x) off1 f.room))
      ]

  module _ (pods : List Value) (replies : ℕ → Replies chrono.Instant) where
    mark_bound-progress :
        (s : Progress) (r : Replies chrono.Instant) (pod : Value)
        (c : Result Failure (Option Value))
        → (mark_bound s r pod c).progress ≡ s
    mark_bound-progress s r pod (err f) = refl
    mark_bound-progress s r pod (ok none) = refl
    mark_bound-progress s r pod (ok (some current)) =
        elim (Bool-cases
          (same_text (as_str (current ! "metadata" ! "uid")) (as_str (pod ! "metadata" ! "uid")))) [
            | inl e ↦ rw e (
                after_condition-progress s r.status
                  (condition current true "Scheduled" r.time_text))
            | inr e ↦ rw e refl
          ]

    abbrev Respects : Progress → Type 0
    Respects s = IsRespected nodes s.objects × (s.objects ≡ applied pods s.sent)

    assign_at-applied :
        (s : Progress) (i : ℕ) (p : Value) (name : String)
        → item_at i s.objects ≡ some p
        → s.objects ≡ applied pods s.sent
        → assign_at i name (applied pods s.sent)
          ≡ replace_by i (set_nested "spec" "nodeName" (string name) p) s.objects
    assign_at-applied s i p name at e =
        ap (assign_at i name) (sym e) ∙ ap (λ o. replace_by i (assign_to name o) s.objects) at

    record_bind-Respects :
        (s : Progress) (i : ℕ) (now : chrono.Instant) (r : Replies chrono.Instant) (p : Value)
        (name : String) (q : Option Value)
        → item_at i s.objects ≡ some p
        → select chrono p nodes s.objects leases now ≡ ok name
        → set_nested "spec" "nodeName" (string name) p ≡ q
        → Respects s
        → Respects (record_bind chrono nodes leases replies s i r p name q).progress
    record_bind-Respects s i now r p name none at chosen written inv =
        let e =
          assign_at-applied s i p name at inv.1 ∙ ap (λ o. replace_by i o s.objects) written in
        (inv.0, sym e)
    record_bind-Respects s i now r p name (some q) at chosen written inv =
        let e =
          assign_at-applied s i p name at inv.1 ∙ ap (λ o. replace_by i o s.objects) written in
        subst Respects (sym (mark_bound-progress _ r p r.current))
          (bind-IsRespected now s.objects i p q name at chosen written inv.0, sym e)

    bind-Respects :
        (s : Progress) (i : ℕ) (now : chrono.Instant) (r : Replies chrono.Instant) (p : Value)
        (name : String) (reply : Reply)
        → item_at i s.objects ≡ some p
        → select chrono p nodes s.objects leases now ≡ ok name
        → Respects s
        → Respects (bind chrono nodes leases replies s i r p name reply).progress
    bind-Respects s i now r p name accepted at e inv =
        record_bind-Respects s i now r p name _ at e refl inv
    bind-Respects s i now r p name gone at e inv = inv
    bind-Respects s i now r p name (failed f) at e inv = inv

    act-Respects :
        (s : Progress) (i : ℕ) (now : chrono.Instant) (r : Replies chrono.Instant) (p : Value)
        (chosen : Result String String)
        → item_at i s.objects ≡ some p
        → select chrono p nodes s.objects leases now ≡ chosen
        → Respects s
        → Respects (act chrono nodes leases replies s i r p chosen).progress
    act-Respects s i now r p (err reason) at e inv =
        subst Respects
          (sym (after_condition-progress s r.status (condition p false reason r.time_text))) inv
    act-Respects s i now r p (ok name) at e inv = bind-Respects s i now r p name r.binding at e inv

    attempt-Respects :
        (s : Progress) (i : ℕ) (o : Option Value)
        → item_at i s.objects ≡ o
        → Respects s
        → Respects (attempt chrono nodes leases replies s i o).progress
    attempt-Respects s i none at inv = inv
    attempt-Respects s i (some p) at inv =
        elim (Bool-cases (
          identified p (as_str (p ! "metadata" ! "namespace"))
            (as_str (p ! "metadata" ! "name")))) [
              | inl e ↦ rw e (act-Respects s i (replies i).time (replies i) p _ at refl inv)
              | inr e ↦ rw e inv
            ]

    schedule-Respects :
        (s : Progress) (i : ℕ)
        → Respects s
        → Respects (schedule chrono nodes leases replies s i).progress
    unfolding schedule
    schedule-Respects s i inv = attempt-Respects s i (item_at i s.objects) refl inv

    next-Respects :
        (f : Option Failure) (s : Progress) (rest : Outcome)
        → Respects s
        → Respects rest.progress
        → Respects (next_of f s rest).progress
    next-Respects none s rest a b = b
    next-Respects (some f) s rest a b = a

    schedule_all-Respects :
        (s : Progress) (is : List ℕ)
        → Respects s
        → Respects (schedule_all chrono nodes leases replies s is).progress
    schedule_all-Respects s [] inv = inv
    schedule_all-Respects s (i ∷ is) inv =
        let one = schedule-Respects s i inv in
        let step = schedule chrono nodes leases replies s i in
        next-Respects step.failure step.progress
          (schedule_all chrono nodes leases replies step.progress is) one
          (schedule_all-Respects step.progress is one)

reconcile_once_lem :
    (chrono : Chrono) (nodes leases pods : Listing) (replies : ℕ → Replies chrono.Instant)
    → HasOwnNames nodes.items
    → IsRespected nodes.items pods.items
    → IsRespected nodes.items (reconcile_once chrono nodes leases pods replies).progress.objects
      × ((reconcile_once chrono nodes leases pods replies).progress.objects
          ≡ applied pods.items (reconcile_once chrono nodes leases pods replies).progress.sent)
unfolding reconcile_once
reconcile_once_lem chrono nodes leases pods replies own inv =
    elim (Bool-cases (complete nodes leases pods)) [
      | inl e ↦ rw e (
          schedule_all-Respects chrono nodes.items leases.items own pods.items replies
            (start pods.items) (candidates pods.items) (inv, refl))
      | inr e ↦ rw e (inv, refl)
    ]

abbrev pub end_of :
    (chrono : Chrono) → Listing → Listing → Listing → (ℕ → Replies chrono.Instant) → Progress
end_of chrono nodes leases pods replies = (reconcile_once chrono nodes leases pods replies).progress

-- A scheduling cycle, however the API answers it and wherever it ends, gives no node of the list
-- more than it offers: if the Pods of each node together request no more than its capacity before,
-- they do not after the bindings that the API has accepted, where the requests of the node's Pods
-- are known; and the cycle's own list is the Pods with exactly those bindings. The nodes of the list
-- have distinct names.
pub reconcile_once-IsRespected :
    (chrono : Chrono) (nodes leases pods : Listing) (replies : ℕ → Replies chrono.Instant)
    → HasOwnNames nodes.items
    → IsRespected nodes.items pods.items
    → IsRespected nodes.items (applied pods.items (end_of chrono nodes leases pods replies).sent)
      × ((end_of chrono nodes leases pods replies).objects
          ≡ applied pods.items (end_of chrono nodes leases pods replies).sent)
reconcile_once-IsRespected chrono nodes leases pods replies own inv =
    let (a, b) = reconcile_once_lem chrono nodes leases pods replies own inv in
    (subst (IsRespected nodes.items) b a, b)
