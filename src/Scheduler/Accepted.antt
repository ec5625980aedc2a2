-- ===== src/Scheduler/Accepted.antt =====
-- crates/h3s-scheduler/src/lib.rs: the Pods as the API holds them after bindings, and what nodes offer.
use hedronetes_h3s.Prelude.{ℕ, String, List, [], ◌∷◌, ◌≡◌, refl, Option, none, some, In}
use hedronetes_h3s.Json.{Value, string, ◌!◌, as_str}
use hedronetes_h3s.Scheduler.Resources.{Resources, capacity}
use hedronetes_h3s.Scheduler.Condition.{set_nested, Update, unchanged, write, panic}
use hedronetes_h3s.Scheduler.Cycle.{
  Reply, accepted, gone, failed, Progress, after_write, after_condition, item_at, replace_at,
}
use hedronetes_h3s.Scheduler.Demand.{IsWithin, IsDemand}

abbrev pub node_name : Value → Option String
node_name n = as_str (n ! "metadata" ! "name")

-- The nodes of a LIST have names of their own.
abbrev pub HasOwnNames : List Value → Type 0
HasOwnNames nodes = (n m : Value) → In n nodes → In m nodes → node_name n ≡ node_name m → n ≡ m

-- What the Pods of a node request, where that is known, is within what the node offers.
abbrev pub IsRespected : List Value → List Value → Type 0
IsRespected nodes objects =
    (node : Value) (name : String) (offered u : Resources)
    → In node nodes
    → node_name node ≡ some name
    → capacity node ≡ some offered
    → IsDemand name objects u
    → IsWithin u offered

-- The Pods as the API holds them once it has accepted bindings, the last one first.
abbrev pub assign_to : String → Option Value → Option Value
assign_to node none = none
assign_to node (some p) = set_nested "spec" "nodeName" (string node) p

abbrev pub replace_by : ℕ → Option Value → List Value → List Value
replace_by i none objects = objects
replace_by i (some q) objects = replace_at i q objects

abbrev pub assign_at : ℕ → String → List Value → List Value
assign_at i node objects = replace_by i (assign_to node (item_at i objects)) objects

abbrev pub applied : List Value → List (ℕ × String) → List Value
applied pods [] = pods
applied pods ((i, node) ∷ sent) = assign_at i node (applied pods sent)

after_write-progress : (s : Progress) (r : Reply) → (after_write s r).progress ≡ s
after_write-progress s accepted = refl
after_write-progress s gone = refl
after_write-progress s (failed f) = refl

pub after_condition-progress :
    (s : Progress) (r : Reply) (u : Update) → (after_condition s r u).progress ≡ s
after_condition-progress s r unchanged = refl
after_condition-progress s r (write v) = after_write-progress s r
after_condition-progress s r panic = refl
