-- ===== src/Proxy/Frontends.antt =====
-- crates/h3s-proxy/src/plan.rs: `plan`, which selects the frontends and backends of a snapshot.
use hedronetes_h3s.Prelude.{
  String, ℕ, List, [], ◌∷◌, Bool, false, ◌||◌, not, none, if◌then◌else◌, ltb, length, is_empty,
  text_lt, sort, ok, err, for_each,
}
use hedronetes_h3s.Prelude.Results.{◌>>=◌}
use hedronetes_h3s.Json.{Value, ◌!◌, as_str, is_text, is_null, elements}
use hedronetes_h3s.Network.Names.{valid_node_name}
use hedronetes_h3s.Proxy.Ip.{R, ip, refuse_if}
use hedronetes_h3s.Proxy.Forwarding.{or_text, classify, skip_in_plan}
use hedronetes_h3s.Proxy.Types.{
  Platform, Protocol, parse_protocol, nft, Backend, Plan, text, port, node_port, concat, show_ip,
  decimal,
}
use hedronetes_h3s.Proxy.Nodes.{NodeState, add_node, check_overlap, Listed, add_slice, slices_of}
use hedronetes_h3s.Proxy.Backends.{gather}
use hedronetes_h3s.Proxy.Draft.{Draft, claim_tuple, claim_id, push_frontend, Facts, policy, report}

module _ (platform : Platform) (node_name : String) where
  -- `svc_` and the digest of what the frontend is
  abbrev pub service_id : Facts → ℕ → ℕ → Protocol → String → String
  service_id f address number protocol suffix = concat (
      "svc_"
      ∷ platform.digest (
          concat (
            f.namespace
            ∷ "/"
            ∷ f.name
            ∷ "/"
            ∷ f.uid
            ∷ "/"
            ∷ show_ip address
            ∷ "/"
            ∷ decimal number
            ∷ "/"
            ∷ nft protocol
            ∷ suffix
            ∷ []))
      ∷ [])

  -- The frontend of a node port on one address of this node
  abbrev pub add_node_frontend : Facts → ℕ → Protocol → List Backend → ℕ → Draft → R Draft
  add_node_frontend f number protocol backends address d =
      claim_tuple (record { ip = address; port = number; protocol = protocol }) d >>= λ claimed.
      claim_id (service_id f address number protocol "/nodeport") claimed >>= λ named. ok (
        push_frontend
          (record {
            id = service_id f address number protocol "/nodeport";
            ip = address;
            port = number;
            protocol = protocol;
            local = false;
            backends = backends;
          })
          named)

  abbrev pub add_node_frontends : Facts → List ℕ → Value → Protocol → List Backend → Draft → R Draft
  add_node_frontends f node_ips p protocol backends d =
      if f.is_node_port
      then (node_port (p ! "nodePort") >>= λ number.
          if is_empty node_ips
          then err "local node reports no address for NodePort Services"
          else for_each (add_node_frontend f number protocol backends) node_ips d)
      else ok d

  abbrev pub check_count : Draft → R Draft
  check_count d = if ltb 4096 (length d.frontends) then err "too many Service ports" else ok d

  -- One port of a Service
  unfoldable pub add_port : Facts → List Value → List ℕ → Value → Draft → R Draft
  add_port f slices node_ips p d = do
    service_port ← port (p ! "port")
    protocol ← parse_protocol (p ! "protocol")
    claimed ← claim_tuple (record { ip = f.cluster_ip; port = service_port; protocol = protocol }) d
    gathered ←
        gather platform node_name
          (record {
            namespace = f.namespace;
            name = f.name;
            uid = f.uid;
            local = f.local;
            service_ports = length f.ports;
            port_name = or_text "" (as_str (p ! "name"));
            protocol = protocol;
          })
          slices (record { backends = []; total = d.total_backends; warnings = d.warnings })
    named ← claim_id (service_id f f.cluster_ip service_port protocol "") claimed
    done ← add_node_frontends f node_ips p protocol gathered.backends (
        push_frontend
          (record {
            id = service_id f f.cluster_ip service_port protocol "";
            ip = f.cluster_ip;
            port = service_port;
            protocol = protocol;
            local = f.local;
            backends = gathered.backends;
          })
          (report f service_port protocol gathered named))
    check_count done

  abbrev pub facts_of : Value → R Facts
  facts_of service = do
    uid ← text (service ! "metadata") "uid"
    name ← text (service ! "metadata") "name"
    namespace ← text (service ! "metadata") "namespace"
    cluster_ip ← ip (service ! "spec" ! "clusterIP")
    inside ←
        refuse_if (not (platform.net.contains platform.service_range cluster_ip))
          "Service IP is outside the configured range"
    local ← policy (or_text "Cluster" (as_str (service ! "spec" ! "internalTrafficPolicy")))
    ok (record {
      namespace = namespace;
      name = name;
      uid = uid;
      cluster_ip = cluster_ip;
      local = local;
      ports = elements (service ! "spec" ! "ports");
      is_node_port = is_text "NodePort" (service ! "spec" ! "type");
    })

  unfoldable pub add_service : List Listed → List ℕ → Value → Draft → R Draft
  add_service listed node_ips service d =
      if not (is_null (service ! "metadata" ! "deletionTimestamp"))
        || skip_in_plan (classify (service ! "spec"))
      then ok d
      else facts_of service >>= λ f.
          for_each (add_port f (slices_of f.namespace f.name listed) node_ips) f.ports d

  abbrev pub no_draft : Draft
  no_draft = record {
    frontends = [];
    tuples = [];
    ids = [];
    warnings = [];
    status = [];
    total_backends = 0;
  }

  abbrev pub check_snapshot : List Value → List Value → List Value → R (Unit {0})
  check_snapshot services slices nodes =
      refuse_if
        (not (valid_node_name node_name)
          || ltb 8192 (length services)
          || ltb 8192 (length slices)
          || ltb 8192 (length nodes))
        "invalid or excessive proxy snapshot"

  abbrev pub check_own : Bool → R (Unit {0})
  check_own own = refuse_if (not own) "local node has no allocated Pod CIDR yet"

  abbrev pub no_nodes : NodeState platform.net
  no_nodes = record { pod_cidrs = []; own = false; node_ips = [] }

  unfoldable pub plan : List Value → List Value → List Value → R (Plan platform.net)
  plan services slices nodes = do
    bounded ← check_snapshot services slices nodes
    state ← for_each (add_node platform node_name) nodes no_nodes
    apart ← check_overlap platform node_name none state.pod_cidrs
    owned ← check_own state.own
    listed ← for_each add_slice slices []
    draft ← for_each (add_service listed state.node_ips) services no_draft
    ok (record {
      pod_cidrs = state.pod_cidrs;
      services = sort (λ a b. text_lt a.id b.id) draft.frontends;
      warnings = draft.warnings;
      status = draft.status;
    })
