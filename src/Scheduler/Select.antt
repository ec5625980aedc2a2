-- ===== src/Scheduler/Select.antt =====
-- crates/h3s-scheduler/src/placement.rs: `select`.
use hedronetes_h3s.Prelude.{
  ℕ, String, List, [], ◌∷◌, Bool, false, ◌&&◌, ◌||◌, not, Option, none, some, if◌then◌else◌, ltb,
  ◌==◌, any, keep, filter_map, length, str_eq, text_lt, ℤ, pos, eqb_ℤ, sort, Result, ok, err,
}
use hedronetes_h3s.Prelude.Options.{◌>>=◌, ◌>>◌, check}
use hedronetes_h3s.Json.{Value, ◌!◌, as_str, as_i64, is_text, is_null, elements}
use hedronetes_h3s.Scheduler.Resources.{
  Resources, no_resources, populated, requests, capacity, add, fits, terminal, one_of,
}
use hedronetes_h3s.Scheduler.Nodes.{Chrono, alive, tolerates}
use hedronetes_h3s.Scheduler.Affinity.{affinity}

-- The entry of a node in `choices`.
pub record Choice : Type 0 where
  pub soft : ℕ
  pub preference : ℕ
  pub pods : ℕ
  pub name : String

-- The order of the tuples `(soft, Reverse(preference), used.pods, name)`.
abbrev pub choice_lt : Choice → Choice → Bool
choice_lt a b =
    if a.soft == b.soft
    then (if a.preference == b.preference
        then (if a.pods == b.pods then text_lt a.name b.name else ltb a.pods b.pods)
        else ltb b.preference a.preference)
    else ltb a.soft b.soft

abbrev pub supported_volumes : List String
supported_volumes =
    "configMap" ∷ "secret" ∷ "projected" ∷ "downwardAPI" ∷ "emptyDir" ∷ "persistentVolumeClaim" ∷ []

abbrev unsupported_volume : Value → Bool
unsupported_volume v = not (any (λ k. not (is_null (v ! k))) supported_volumes)

abbrev nonzero : Option ℤ → Bool
nonzero none = false
nonzero (some z) = not (eqb_ℤ z (pos 0))

abbrev has_host_port : Value → Bool
has_host_port c = any (λ p. nonzero (as_i64 (p ! "hostPort"))) (elements (c ! "ports"))

unfoldable pub unsupported : Value → Bool
unsupported s =
    populated (s ! "affinity" ! "podAffinity")
    || populated (s ! "affinity" ! "podAntiAffinity")
    || populated (s ! "topologySpreadConstraints")
    || populated (s ! "runtimeClassName")
    || any unsupported_volume (elements (s ! "volumes"))
    || any has_host_port (elements (s ! "containers"))

abbrev pub hard_taint : Value → Value → Bool
hard_taint p t =
    one_of ("NoSchedule" ∷ "NoExecute" ∷ []) (as_str (t ! "effect")) && not (tolerates p t)

abbrev pub soft_taint : Value → Value → Bool
soft_taint p t = is_text "PreferNoSchedule" (t ! "effect") && not (tolerates p t)

abbrev pub taints : Value → List Value
taints n = elements (n ! "spec" ! "taints")

-- A Pod that holds resources of the node.
abbrev pub assigned : String → Value → Bool
assigned name other = is_text name (other ! "spec" ! "nodeName") && not (terminal other)

-- `try_fold(.., |sum, p| sum.add(requests(p)?))`
abbrev pub sum_requests : Resources → List Value → Option Resources
sum_requests sum [] = some sum
sum_requests sum (p ∷ ps) = do r ← requests p; next ← add sum r; sum_requests next ps

abbrev pub used_on : String → List Value → Option Resources
used_on name pods = sum_requests no_resources (keep (assigned name) pods)

abbrev pub nonempty_name : Option String → Option String
nonempty_name none = none
nonempty_name (some s) = if str_eq s "" then none else some s

abbrev pub first_name : List Choice → Result String String
first_name [] = err "Unschedulable"
first_name (c ∷ cs) = ok c.name

module _ (chrono : Chrono) where
  -- One turn of the loop over the nodes: none is `continue`.
  unfoldable pub candidate :
      Value → List Value → List Value → chrono.Instant → Resources → Value → Option Choice
  candidate p pods leases now requested node = do
    check (alive chrono node leases now)
    name ← nonempty_name (as_str (node ! "metadata" ! "name"))
    offered ← capacity node
    preference ← affinity p node
    check (not (any (hard_taint p) (taints node)))
    let soft = length (keep (soft_taint p) (taints node))
    used ← used_on name pods
    total ← add used requested
    check (fits total offered)
    some (record { soft = soft; preference = preference; pods = used.pods; name = name })

  abbrev place :
      Value
      → List Value
      → List Value
      → List Value
      → chrono.Instant
      → Option Resources
      → Result String String
  place p nodes pods leases now none = err "UnsupportedResources"
  place p nodes pods leases now (some requested) =
      first_name (sort choice_lt (filter_map (candidate p pods leases now requested) nodes))

  unfoldable pub select :
      Value → List Value → List Value → List Value → chrono.Instant → Result String String
  select p nodes pods leases now =
      if populated (p ! "spec" ! "schedulingGates")
      then err "SchedulingGated"
      else if unsupported (p ! "spec")
      then err "UnsupportedScheduling"
      else place p nodes pods leases now (requests p)
