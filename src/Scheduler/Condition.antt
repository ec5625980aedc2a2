-- ===== src/Scheduler/Condition.antt =====
-- crates/h3s-scheduler/src/lib.rs: `condition`, the PodScheduled condition of a Pod's status.
use hedronetes_h3s.Prelude.{
  String, List, [], ◌∷◌, ◌++◌, Bool, true, false, ◌&&◌, not, Option, none, some, if◌then◌else◌, any,
  keep, find,
}
use hedronetes_h3s.Prelude.Options.{◌>>=◌}
use hedronetes_h3s.Json.{
  Value, string, array, object, field, end, ◌!◌, as_str, as_array, is_text, set_key, list_items,
}

-- `value[outer][inner] = new`
abbrev pub set_nested : String → String → Value → Value → Option Value
set_nested outer inner new v = do part ← set_key inner new (v ! outer); set_key outer part v

abbrev pub status_text : Bool → String
status_text true = "True"
status_text false = "False"

abbrev message_text : Bool → String
message_text true = "bound by native h3s scheduler"
message_text false = "no placement satisfying the supported scheduling constraints is available"

abbrev pub is_scheduled_type : Value → Bool
is_scheduled_type c = is_text "PodScheduled" (c ! "type")

abbrev pub same_status : Bool → Value → Bool
same_status scheduled c = is_scheduled_type c && is_text (status_text scheduled) (c ! "status")

abbrev pub same_condition : Bool → String → Value → Bool
same_condition scheduled reason c =
    is_scheduled_type c
    && is_text (status_text scheduled) (c ! "status")
    && is_text reason (c ! "reason")

abbrev pub list_or_empty : Option (List Value) → List Value
list_or_empty none = []
list_or_empty (some vs) = vs

abbrev text_or : String → Option String → String
text_or now none = now
text_or now (some t) = t

-- The transition time of a condition that keeps its status, and `now` for another.
abbrev pub transition : Bool → String → List Value → String
transition scheduled now conditions =
    text_or now (find (same_status scheduled) conditions >>= λ c. as_str (c ! "lastTransitionTime"))

abbrev pub scheduled_condition : Bool → String → String → Value
scheduled_condition scheduled reason time = object (
    field "lastTransitionTime" (string time) (
      field "message" (string (message_text scheduled)) (
        field "reason" (string reason) (
          field "status" (string (status_text scheduled))
            (field "type" (string "PodScheduled") end)))))

abbrev pub other_type : Value → Bool
other_type c = not (is_scheduled_type c)

abbrev pub new_conditions : Bool → String → String → List Value → List Value
new_conditions scheduled reason now conditions =
    keep other_type conditions
    ++ (scheduled_condition scheduled reason (transition scheduled now conditions) ∷ [])

-- What `condition` does before it sends: nothing to write, an object to write, or a panic where the
-- status is no object.
pub data Update : Type 0 where
  unchanged : Update
  write : Value → Update
  panic : Update

abbrev write_or_panic : Option Value → Update
write_or_panic none = panic
write_or_panic (some v) = write v

abbrev pub update_conditions : List Value → Value → Bool → String → String → Update
update_conditions conditions pod scheduled reason now =
    if any (same_condition scheduled reason) conditions
    then unchanged
    else write_or_panic (
        set_nested "status" "conditions"
          (array (list_items (new_conditions scheduled reason now conditions))) pod)

unfoldable pub condition : Value → Bool → String → String → Update
condition pod scheduled reason now =
    update_conditions (list_or_empty (as_array (pod ! "status" ! "conditions"))) pod scheduled
      reason now
