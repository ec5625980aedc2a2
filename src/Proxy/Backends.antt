-- ===== src/Proxy/Backends.antt =====
-- crates/h3s-proxy/src/plan.rs: the loops of `plan` that collect the backends of a Service port.
use hedronetes_h3s.Prelude.{
  String, ℕ, ◌+◌, List, [], ◌∷◌, ◌++◌, Bool, false, ◌&&◌, ◌||◌, not, if◌then◌else◌, leb, ltb, any,
  length, str_eq, ok, err, for_each,
}
use hedronetes_h3s.Prelude.Results.{◌>>=◌}
use hedronetes_h3s.Json.{Value, bool, ◌!◌, as_str, is_text, is_true, is_null, elements}
use hedronetes_h3s.Proxy.Ip.{R, ip}
use hedronetes_h3s.Proxy.Forwarding.{or_text}
use hedronetes_h3s.Proxy.Types.{
  Platform, Protocol, upper, Backend, same_backend, insert_backend, Warning, unmatched, port,
}

-- What the loops know of the Service and of its port.
pub record Port : Type 0 where
  pub namespace : String
  pub name : String
  pub uid : String
  pub local : Bool
  pub service_ports : ℕ
  pub port_name : String
  pub protocol : Protocol

pub record Gathered : Type 0 where
  pub backends : List Backend
  pub total : ℕ
  pub warnings : List Warning

-- `value == false`
abbrev pub is_false : Value → Bool
is_false (bool b) = not b
is_false _ = false

-- The slice belongs to a Service of another name or another UID.
abbrev pub foreign : Port → Value → Bool
foreign p slice =
    any
      (λ o.
        is_text "Service" (o ! "kind")
        && (not (is_text p.uid (o ! "uid")) || not (is_text p.name (o ! "name"))))
      (elements (slice ! "metadata" ! "ownerReferences"))

abbrev pub mismatched : Port → Value → Value → Bool
mismatched p slice sp =
    let slice_name = or_text "" (as_str (sp ! "name")) in
    let unambiguous = leb p.service_ports 1 && leb (length (elements (slice ! "ports"))) 1 in
    let named = not (str_eq p.port_name "") && not (str_eq slice_name "") in
    (not unambiguous && named && not (str_eq slice_name p.port_name))
    || (not unambiguous && not named)
    || not (str_eq (or_text "TCP" (as_str (sp ! "protocol"))) (upper p.protocol))
    || is_null (sp ! "port")

-- `backends.insert(…)` and the count
abbrev pub insert_counted : Backend → Gathered → R Gathered
insert_counted b s =
    if any (same_backend b) s.backends
    then ok s
    else if ltb 16384 (s.total + 1)
    then err "too many Service backends"
    else ok (record s { backends = insert_backend b s.backends; total = s.total + 1 })

module _ (platform : Platform) (node_name : String) where
  abbrev pub add_address : ℕ → Value → Gathered → R Gathered
  add_address target address s = ip address >>= λ a.
      if platform.net.contains platform.service_range a
      then err "Service IP cannot be an endpoint"
      else insert_counted (record { ip = a; port = target }) s

  abbrev pub unusable : Bool → Value → Bool
  unusable local endpoint =
      is_false (endpoint ! "conditions" ! "ready")
      || is_true (endpoint ! "conditions" ! "terminating")
      || (local && not (is_text node_name (endpoint ! "nodeName")))

  abbrev pub add_endpoint : Bool → ℕ → Value → Gathered → R Gathered
  add_endpoint local target endpoint s =
      if unusable local endpoint
      then ok s
      else for_each (add_address target) (elements (endpoint ! "addresses")) s

  abbrev pub add_slice_port : Port → Value → Value → Gathered → R Gathered
  add_slice_port p slice sp s =
      if mismatched p slice sp
      then ok (record s {
        warnings =
            s.warnings
            ++ unmatched p.namespace p.name (slice ! "metadata" ! "name") sp p.port_name p.protocol
              ∷ [];
      })
      else port (sp ! "port") >>= λ target.
          for_each (add_endpoint p.local target) (elements (slice ! "endpoints")) s

  abbrev pub add_service_slice : Port → Value → Gathered → R Gathered
  add_service_slice p slice s =
      if foreign p slice
      then ok s
      else for_each (add_slice_port p slice) (elements (slice ! "ports")) s

  unfoldable pub gather : Port → List Value → Gathered → R Gathered
  gather p slices s = for_each (add_service_slice p) slices s
