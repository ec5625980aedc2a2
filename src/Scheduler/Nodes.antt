-- ===== src/Scheduler/Nodes.antt =====
-- crates/h3s-scheduler/src/placement.rs: `alive` and `tolerates`. Times are chrono's: a type of
-- instants, how a text is read as one, and the milliseconds between two.
use hedronetes_h3s.Prelude.{
  ℕ, ◌*◌, String, List, [], ◌∷◌, Bool, false, ◌&&◌, ◌||◌, not, Option, none, some, if◌then◌else◌,
  ltb, leb, any, str_eq, ℤ, pos, negsuc,
}
use hedronetes_h3s.Json.{Value, ◌!◌, as_str, as_i64, is_text, is_true, is_null, value_eq, elements}
use hedronetes_h3s.Scheduler.Resources.{one_of}

pub record Chrono : Type 1 where
  pub Instant : Type 0
  pub parse_rfc3339 : String → Option Instant
  -- `a.signed_duration_since(b).num_milliseconds()`
  pub millis_since : Instant → Instant → ℤ

abbrev pub is_ready : Value → Bool
is_ready c = is_text "Ready" (c ! "type") && is_text "True" (c ! "status")

abbrev pub under_pressure : Value → Bool
under_pressure c =
    one_of ("MemoryPressure" ∷ "DiskPressure" ∷ "PIDPressure" ∷ "NetworkUnavailable" ∷ [])
      (as_str (c ! "type"))
    && not (is_text "False" (c ! "status"))

abbrev pub owned_by : Value → Value → Bool
owned_by n o =
    is_text "Node" (o ! "kind")
    && is_text "v1" (o ! "apiVersion")
    && value_eq (o ! "uid") (n ! "metadata" ! "uid")

-- `.as_i64().unwrap_or(0).clamp(0, 40)`
abbrev pub lease_seconds : Option ℤ → ℕ
lease_seconds none = 0
lease_seconds (some (pos n)) = if leb n 40 then n else 40
lease_seconds (some (negsuc n)) = 0

-- `age >= 0 && age <= duration * 1000 && duration > 0`
abbrev pub fresh_age : ℤ → ℕ → Bool
fresh_age (pos age) duration = leb age (duration * 1000) && ltb 0 duration
fresh_age (negsuc age) duration = false

module _ (chrono : Chrono) where
  abbrev renewed : chrono.Instant → ℕ → Option String → Bool
  renewed now duration none = false
  renewed now duration (some t) = elim (chrono.parse_rfc3339 t) [
    | none ↦ false
    | some time ↦ fresh_age (chrono.millis_since now time) duration
  ]

  unfoldable pub renews : Value → chrono.Instant → Value → Bool
  renews n now l =
      value_eq (l ! "metadata" ! "name") (n ! "metadata" ! "name")
      && value_eq (l ! "spec" ! "holderIdentity") (n ! "metadata" ! "name")
      && any (owned_by n) (elements (l ! "metadata" ! "ownerReferences"))
      && renewed now (lease_seconds (as_i64 (l ! "spec" ! "leaseDurationSeconds")))
          (as_str (l ! "spec" ! "renewTime"))

  unfoldable pub alive : Value → List Value → chrono.Instant → Bool
  alive n leases now =
      let conditions = elements (n ! "status" ! "conditions") in
      not (
        not (is_null (n ! "metadata" ! "deletionTimestamp"))
        || is_true (n ! "spec" ! "unschedulable"))
      && not (not (any is_ready conditions) || any under_pressure conditions)
      && any (renews n now) leases

-- `.as_str().unwrap_or(default)`
abbrev pub text_or : String → Option String → String
text_or default none = default
text_or default (some s) = s

abbrev operator_tolerates : Value → Value → String → String → Bool
operator_tolerates v t key operator =
    if str_eq operator "Exists"
    then str_eq key "" || value_eq (v ! "key") (t ! "key")
    else if str_eq operator "Equal"
    then not (str_eq key "")
      && value_eq (v ! "key") (t ! "key")
      && str_eq (text_or "" (as_str (v ! "value"))) (text_or "" (as_str (t ! "value")))
    else false

-- One toleration against one taint.
unfoldable pub toleration_covers : Value → Value → Bool
toleration_covers t v =
    if not (str_eq (text_or "" (as_str (v ! "effect"))) "")
      && not (value_eq (v ! "effect") (t ! "effect"))
    then false
    else operator_tolerates v t (text_or "" (as_str (v ! "key")))
        (text_or "Equal" (as_str (v ! "operator")))

unfoldable pub tolerates : Value → Value → Bool
tolerates p t = any (toleration_covers t) (elements (p ! "spec" ! "tolerations"))
