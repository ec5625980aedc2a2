-- ===== src/Proxy/Draft.antt =====
-- crates/h3s-proxy/src/plan.rs: the variables of the loop of `plan` over the Services, and the claims.
use hedronetes_h3s.Prelude.{
  String, ℕ, List, [], ◌∷◌, ◌++◌, Bool, true, false, ◌&&◌, if◌then◌else◌, ◌==◌, any, length,
  is_empty, str_eq, ok, err,
}
use hedronetes_h3s.Json.{Value}
use hedronetes_h3s.Proxy.Ip.{R}
use hedronetes_h3s.Proxy.Types.{Protocol, tcp, udp, Frontend, ServiceStatus, Warning, no_endpoint}
use hedronetes_h3s.Proxy.Backends.{Gathered}

-- An element of `tuples`
pub record Tuple : Type 0 where
  pub ip : ℕ
  pub port : ℕ
  pub protocol : Protocol

abbrev pub same_protocol : Protocol → Protocol → Bool
same_protocol tcp tcp = true
same_protocol udp udp = true
same_protocol _ _ = false

abbrev pub same_tuple : Tuple → Tuple → Bool
same_tuple a b = a.ip == b.ip && a.port == b.port && same_protocol a.protocol b.protocol

-- The variables of the loop over the Services; of the two sets only membership is used.
pub record Draft : Type 0 where
  pub frontends : List Frontend
  pub tuples : List Tuple
  pub ids : List String
  pub warnings : List Warning
  pub status : List ServiceStatus
  pub total_backends : ℕ

abbrev pub claim_tuple : Tuple → Draft → R Draft
claim_tuple t d =
    if any (same_tuple t) d.tuples
    then err "duplicate Service frontend"
    else ok (record d { tuples = t ∷ d.tuples })

abbrev pub claim_id : String → Draft → R Draft
claim_id id d =
    if any (str_eq id) d.ids
    then err "duplicate Service chain identity"
    else ok (record d { ids = id ∷ d.ids })

abbrev pub push_frontend : Frontend → Draft → Draft
push_frontend f d = record d { frontends = d.frontends ++ f ∷ [] }

-- A Service that the plan serves
pub record Facts : Type 0 where
  pub namespace : String
  pub name : String
  pub uid : String
  pub cluster_ip : ℕ
  pub local : Bool
  pub ports : List Value
  pub is_node_port : Bool

abbrev pub policy : String → R Bool
policy s =
    if str_eq s "Cluster"
    then ok false
    else if str_eq s "Local"
    then ok true
    else err "unsupported internal traffic policy"

-- After `gather`: the status, and the warning of a port without endpoints.
abbrev pub report : Facts → ℕ → Protocol → Gathered → Draft → Draft
report f service_port protocol g d =
    let missing =
      if is_empty g.backends
      then no_endpoint f.namespace f.name service_port protocol ∷ []
      else [] in
    record d {
      status =
          d.status
          ++ record {
            namespace = f.namespace;
            name = f.name;
            port = service_port;
            backends = length g.backends;
          }
            ∷ [];
      warnings = g.warnings ++ missing;
      total_backends = g.total;
    }
