-- ===== src/Proxy/Published.antt =====
-- crates/h3s-proxy/src/plan.rs: what a frontend of a plan stands for.
use hedronetes_h3s.Prelude.{
  String, List, Bool, not, true, false, ◌≡◌, refl, subst, length, In, ok, >>=-eq-ok, ok-injective,
}
use hedronetes_h3s.Json.{Value, ◌!◌, as_str, is_null, is_text, elements}
use hedronetes_h3s.Proxy.Ip.{ip, refuse_if}
use hedronetes_h3s.Proxy.Addresses.{IsReported}
use hedronetes_h3s.Proxy.Forwarding.{or_text, skip_in_plan, classify}
use hedronetes_h3s.Proxy.Types.{
  Platform, Protocol, Backend, Frontend, text, port, parse_protocol, node_port,
}
use hedronetes_h3s.Proxy.Backends.{Port}
use hedronetes_h3s.Proxy.Exact.{AtSlice}
use hedronetes_h3s.Proxy.Draft.{policy, Facts}
use hedronetes_h3s.Proxy.Frontends.{service_id, facts_of}
use hedronetes_h3s.Proxy.Listing.{IsLabelled}

module _ (platform : Platform) (node_name : String) (services slices nodes : List Value) where
  -- What is known of a Service that is served, by its fields
  pub record IsFacts (service : Value) (f : Facts) : Type 0 where
    pub namespace : text (service ! "metadata") "namespace" ≡ ok f.namespace
    pub name : text (service ! "metadata") "name" ≡ ok f.name
    pub uid : text (service ! "metadata") "uid" ≡ ok f.uid
    pub address : ip (service ! "spec" ! "clusterIP") ≡ ok f.cluster_ip
    pub inside : platform.net.contains platform.service_range f.cluster_ip ≡ true
    pub policy :
        policy (or_text "Cluster" (as_str (service ! "spec" ! "internalTrafficPolicy")))
        ≡ ok f.local
    pub ports : f.ports ≡ elements (service ! "spec" ! "ports")
    pub type : f.is_node_port ≡ is_text "NodePort" (service ! "spec" ! "type")

  -- What `gather` is told of a port of the Service
  abbrev pub port_of : Facts → Value → Protocol → Port
  port_of f p protocol = record {
    namespace = f.namespace;
    name = f.name;
    uid = f.uid;
    local = f.local;
    service_ports = length f.ports;
    port_name = or_text "" (as_str (p ! "name"));
    protocol = protocol;
  }

  -- Each backend is a usable endpoint, for this port of the Service, in a slice that is labelled for
  -- the Service.
  abbrev pub IsBacked : Facts → Value → Protocol → List Backend → Type 0
  IsBacked f p protocol backends =
      (b : Backend)
      → In b backends
      → (slice : Value) × In slice slices
        × IsLabelled f.namespace f.name slice
        × AtSlice platform node_name (port_of f p protocol) slice b

  -- A port of a live, proxied Service, with backends for it
  abbrev pub IsPublished : Value → Facts → Value → Protocol → List Backend → Type 0
  IsPublished service f p protocol backends =
      In service services
      × (is_null (service ! "metadata" ! "deletionTimestamp") ≡ true)
      × (skip_in_plan (classify (service ! "spec")) ≡ false)
      × IsFacts service f
      × In p f.ports
      × (parse_protocol (p ! "protocol") ≡ ok protocol)
      × IsBacked f p protocol backends

  -- The frontend stands under the address of the Service and the Service port, or, for a Service of
  -- type NodePort, under an address of this node and the node port.
  pub data IsAt (f : Facts) (p : Value) (x : Frontend) : Type 0 where
    cluster :
        x.ip ≡ f.cluster_ip
        → port (p ! "port") ≡ ok x.port
        → x.local ≡ f.local
        → x.id ≡ service_id platform node_name f x.ip x.port x.protocol ""
        → IsAt f p x
    node :
        f.is_node_port ≡ true
        → IsReported node_name nodes x.ip
        → node_port (p ! "nodePort") ≡ ok x.port
        → x.local ≡ false
        → x.id ≡ service_id platform node_name f x.ip x.port x.protocol "/nodeport"
        → IsAt f p x

  abbrev pub IsServed : Frontend → Type 0
  IsServed x =
      (service : Value) × (f : Facts) × (p : Value) × IsPublished service f p x.protocol x.backends
      × IsAt f p x

  pub facts_of-IsFacts :
      (service : Value) (f : Facts) → facts_of platform node_name service ≡ ok f → IsFacts service f
  facts_of-IsFacts service f h =
      let (uid, h1, g1) = >>=-eq-ok (text (service ! "metadata") "uid") _ h in
      let (name, h2, g2) = >>=-eq-ok (text (service ! "metadata") "name") _ g1 in
      let (namespace, h3, g3) = >>=-eq-ok (text (service ! "metadata") "namespace") _ g2 in
      let (cluster_ip, h4, g4) = >>=-eq-ok (ip (service ! "spec" ! "clusterIP")) _ g3 in
      let (inside, h5, g5) =
        >>=-eq-ok
          (refuse_if (not (platform.net.contains platform.service_range cluster_ip))
            "Service IP is outside the configured range")
          _ g4 in
      let (local, h6, g6) =
        >>=-eq-ok (policy (or_text "Cluster" (as_str (service ! "spec" ! "internalTrafficPolicy"))))
          _ g5 in
      subst (IsFacts service) (ok-injective g6) (record {
        namespace = h3;
        name = h2;
        uid = h1;
        address = h4;
        inside = not_refused (platform.net.contains platform.service_range cluster_ip) h5;
        policy = h6;
        ports = refl;
        type = refl;
      })
    where
      not_refused :
          (b : Bool) {u : Unit {0}}
          → refuse_if (not b) "Service IP is outside the configured range" ≡ ok u
          → b ≡ true
      not_refused true h = refl
      not_refused false h = absurd (cc)
