-- ===== src/Scheduler/Tests.antt =====
-- crates/h3s-scheduler/src: the fixture of its own tests, and runs of the theorems.
use hedronetes_h3s.Prelude.{
  ℕ, String, List, [], ◌∷◌, true, ◌≡◌, refl, sym, ◌∙◌, ◌↔◌, inl, inr, none, some, arith, pos, ok,
  err, In, In-uncons, false≢true, parse_i64, text_lt,
}
use hedronetes_h3s.Json.{Value, string, int, array, object, field, end, cons, nil, ◌!◌, value_eq}
use hedronetes_h3s.Quantity.Parse.{
  parse, syntax_valid, scaled, convert, factor, dimension_ok, as_milli_cpu, as_bytes,
}
use hedronetes_h3s.Scheduler.Resources.{
  Resources, requests, requests_of, container_requests, capacity, milli_in, bytes_in, pods_in, add,
  fits, terminal, pending,
}
use hedronetes_h3s.Scheduler.Nodes.{Chrono, alive, renews, tolerates, toleration_covers}
use hedronetes_h3s.Scheduler.Affinity.{affinity, requirement, term}
use hedronetes_h3s.Scheduler.Select.{Choice, select, candidate, unsupported}
use hedronetes_h3s.Scheduler.Condition.{write, unchanged, condition}
use hedronetes_h3s.Scheduler.Settle.{condition-condition}
use hedronetes_h3s.Scheduler.Demand.{IsDemand, nobody, elsewhere, holds, IsWithin}
use hedronetes_h3s.Scheduler.Feasible.{IsFeasible}
use hedronetes_h3s.Scheduler.Best.{IsSupported, IsPlaced, select-IsPlaced, select-Unschedulable}
use hedronetes_h3s.Scheduler.Cycle.{Replies, Progress, accepted, Listing, reconcile_once, schedule}
use hedronetes_h3s.Scheduler.Accepted.{IsRespected, applied}
use hedronetes_h3s.Scheduler.Commit.{end_of, reconcile_once-IsRespected}

-- Instants are counted in milliseconds, and every text is read as the instant 0.
abbrev clock : Chrono
clock = record { Instant = ℕ; parse_rfc3339 = λ t. some 0; millis_since = λ a b. pos a }

abbrev one : String → Value → Value
one k v = object (field k v end)

abbrev quantities : Value
quantities = object (field "cpu" (string "500m") (field "memory" (string "64Mi") end))

abbrev metadata : Value
metadata = object (
    field "name" (string "web")
      (field "namespace" (string "demo") (field "uid" (string "pod") end)))

abbrev pod : Value
pod = object (
    field "metadata" metadata (
      field "spec" (one "containers" (array (cons (one "resources" (one "limits" quantities)) nil)))
        end))

abbrev node : Value
node = object (
    field "metadata" (object (field "name" (string "worker") (field "uid" (string "node") end))) (
      field "status"
        (object (
          field "allocatable"
            (object (
              field "cpu" (string "1")
                (field "memory" (string "128Mi") (field "pods" (string "2") end))))
            (field "conditions"
              (array (
                cons (object (field "status" (string "True") (field "type" (string "Ready") end)))
                  nil))
              end)))
        end))

abbrev lease : Value
lease = object (
    field "metadata"
      (object (
        field "name" (string "worker") (
          field "ownerReferences"
            (array (
              cons
                (object (
                  field "apiVersion" (string "v1")
                    (field "kind" (string "Node") (field "uid" (string "node") end))))
                nil))
            end)))
      (field "spec"
        (object (
          field "holderIdentity" (string "worker")
            (field "leaseDurationSeconds" (int (pos 40)) (field "renewTime" (string "now") end))))
        end))

abbrev used : Value
used = object (
    field "metadata" metadata (
      field "spec"
        (object (
          field "containers" (array (cons (one "resources" (one "limits" quantities)) nil))
            (field "nodeName" (string "worker") end)))
        end))

fresh_node : select clock pod (node ∷ []) [] (lease ∷ []) 1000 ≡ ok "worker"
unfolding select unsupported requests requests_of container_requests parse syntax_valid as_milli_cpu
    as_bytes scaled convert factor dimension_ok candidate alive renews value_eq capacity milli_in
    bytes_in pods_in add fits terminal affinity requirement term tolerates toleration_covers
    parse_i64
fresh_node = refl

full_node : select clock pod (node ∷ []) (used ∷ used ∷ []) (lease ∷ []) 1000 ≡ err "Unschedulable"
unfolding select unsupported requests requests_of container_requests parse syntax_valid as_milli_cpu
    as_bytes scaled convert factor dimension_ok candidate alive renews value_eq capacity milli_in
    bytes_in pods_in add fits terminal affinity requirement term tolerates toleration_covers
    parse_i64
full_node = refl

stale_lease : select clock pod (node ∷ []) [] (lease ∷ []) 41000 ≡ err "Unschedulable"
unfolding select unsupported requests requests_of container_requests parse syntax_valid as_milli_cpu
    as_bytes scaled convert factor dimension_ok candidate alive renews value_eq capacity milli_in
    bytes_in pods_in add fits terminal affinity requirement term tolerates toleration_covers
    parse_i64
stale_lease = refl

select-IsPlaced_example : IsPlaced clock pod (node ∷ []) [] (lease ∷ []) 1000 "worker"
select-IsPlaced_example =
    select-IsPlaced clock pod (node ∷ []) [] (lease ∷ []) 1000 "worker" fresh_node

abbrev half : Resources
half = record { cpu = 500; memory = 67108864; pods = 1 }

asks_half : requests pod ≡ some half
unfolding requests requests_of container_requests parse syntax_valid as_milli_cpu as_bytes scaled
    convert factor dimension_ok add
asks_half = refl

supported : IsSupported pod
unfolding unsupported
supported = record { open_gates = refl; known = refl }

select-Unschedulable_example :
    (select clock pod (node ∷ []) (used ∷ used ∷ []) (lease ∷ []) 1000 ≡ err "Unschedulable") ↔ (
      (n : Value) (c : Choice)
      → In n (node ∷ [])
      → ¬ (IsFeasible clock pod (used ∷ used ∷ []) (lease ∷ []) 1000 half n c))
select-Unschedulable_example =
    select-Unschedulable clock pod (node ∷ []) (used ∷ used ∷ []) (lease ∷ []) 1000 half asks_half
      supported

abbrev listing : List Value → Listing
listing vs = record { items = vs; continue_token = none }

abbrev all_accepted : ℕ → Replies ℕ
all_accepted i = record {
  time = 1000;
  time_text = "2026-01-01T00:00:00Z";
  binding = accepted;
  current = ok none;
  status = accepted;
}

one_bound :
    (reconcile_once clock
      (listing (node ∷ []))
      (listing (lease ∷ []))
      (listing (pod ∷ []))
      all_accepted).progress.bound
    ≡ 1
unfolding select unsupported requests requests_of container_requests parse syntax_valid as_milli_cpu
    as_bytes scaled convert factor dimension_ok candidate alive renews value_eq capacity milli_in
    bytes_in pods_in add fits terminal affinity requirement term tolerates toleration_covers
    parse_i64 reconcile_once pending schedule
one_bound = refl

unassigned-IsWithin :
    (name : String) (offered u : Resources) → IsDemand name (pod ∷ []) u → IsWithin u offered
unassigned-IsWithin name offered u (elsewhere a nobody) = record {
  cpu = omega arith;
  memory = omega arith;
  pods = omega arith;
}
unassigned-IsWithin name offered u (holds a r d) = absurd (false≢true a)

same_node : (n m : Value) → In n (node ∷ []) → In m (node ∷ []) → n ≡ m
same_node n m a b = elim (In-uncons a) [
  | inr e ↦ elim e [ ]
  | inl e ↦ elim (In-uncons b) [ inr g ↦ elim g [ ] | inl g ↦ sym e ∙ g ]
]

abbrev after_one : Progress
after_one =
    end_of clock (listing (node ∷ [])) (listing (lease ∷ [])) (listing (pod ∷ [])) all_accepted

reconcile_once-IsRespected_example :
    IsRespected (node ∷ []) (applied (pod ∷ []) after_one.sent)
    × (after_one.objects ≡ applied (pod ∷ []) after_one.sent)
reconcile_once-IsRespected_example =
    reconcile_once-IsRespected clock (listing (node ∷ [])) (listing (lease ∷ []))
      (listing (pod ∷ [])) all_accepted (λ n m a b e. same_node n m a b)
      (λ n name offered u listed named offers d. unassigned-IsWithin name offered u d)

abbrev status_after : Value
status_after = one "conditions" (
    array (
      cons
        (object (
          field "lastTransitionTime" (string "t0") (
            field "message" (string "bound by native h3s scheduler") (
              field "reason" (string "Scheduled")
                (field "status" (string "True") (field "type" (string "PodScheduled") end))))))
        nil))

abbrev pod_after : Value
pod_after = object (
    field "metadata" metadata (
      field "spec" (one "containers" (array (cons (one "resources" (one "limits" quantities)) nil)))
        (field "status" status_after end)))

written : condition pod true "Scheduled" "t0" ≡ write pod_after
unfolding condition text_lt
written = refl

condition-condition_example :
    (condition pod_after true "Scheduled" "t1" ≡ unchanged)
    × (pod_after ! "spec" ≡ pod ! "spec")
    × (pod_after ! "metadata" ≡ pod ! "metadata")
condition-condition_example = condition-condition pod pod_after true "Scheduled" "t0" "t1" written
