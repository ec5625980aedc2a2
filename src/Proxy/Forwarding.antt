-- ===== src/Proxy/Forwarding.antt =====
-- crates/h3s-api/src/service_forwarding.rs: `ServiceForwarding`.
use hedronetes_h3s.Prelude.{
  String, List, [], ◌∷◌, Bool, true, false, ◌||◌, not, Option, none, some, if◌then◌else◌, any,
  is_empty, str_eq, ℤ, pos, eqb_ℤ,
}
use hedronetes_h3s.Json.{Value, ◌!◌, as_str, as_array, as_i64, is_null}

pub data ServiceForwarding : Type 0 where
  cluster_ip node_port external_name headless load_balancer : ServiceForwarding
  unsupported_type unsupported_policy : ServiceForwarding

-- `unwrap_or`
abbrev pub or_text : String → Option String → String
or_text default none = default
or_text default (some s) = s

-- `is_some_and(|s| s != text)`
abbrev other_than : String → Option String → Bool
other_than text none = false
other_than text (some s) = not (str_eq s text)

abbrev any_items : Option (List Value) → Bool
any_items none = false
any_items (some values) = not (is_empty values)

abbrev not_zero : Option ℤ → Bool
not_zero none = false
not_zero (some p) = not (eqb_ℤ p (pos 0))

-- The policies that the native proxy does not implement.
abbrev pub has_policy : Value → Bool
has_policy spec =
    other_than "None" (as_str (spec ! "sessionAffinity"))
    || any_items (as_array (spec ! "externalIPs"))
    || not (is_null (spec ! "trafficDistribution"))
    || other_than "Cluster" (as_str (spec ! "externalTrafficPolicy"))
    || not_zero (as_i64 (spec ! "healthCheckNodePort"))

abbrev is_none_ip : Option String → Bool
is_none_ip none = false
is_none_ip (some s) = str_eq s "None"

unfoldable pub classify : Value → ServiceForwarding
classify spec =
    let kind = or_text "ClusterIP" (as_str (spec ! "type")) in
    if str_eq kind "ExternalName"
    then external_name
    else if is_none_ip (as_str (spec ! "clusterIP"))
    then (if str_eq kind "ClusterIP" then headless else unsupported_type)
    else if not (any (str_eq kind) ("ClusterIP" ∷ "NodePort" ∷ "LoadBalancer" ∷ []))
    then unsupported_type
    else if has_policy spec
    then unsupported_policy
    else if str_eq kind "NodePort"
    then node_port
    else if str_eq kind "LoadBalancer"
    then load_balancer
    else cluster_ip

abbrev pub proxied : ServiceForwarding → Bool
proxied cluster_ip = true
proxied node_port = true
proxied load_balancer = true
proxied _ = false

abbrev pub skip_in_plan : ServiceForwarding → Bool
skip_in_plan f = not (proxied f)
