-- ===== src/Proxy/Tests.antt =====
-- Runs of crates/h3s-proxy/src/plan.rs on a small snapshot, and the theorems about it at that.
use mathlib.Core.Option
use hedronetes_h3s.Prelude.{
  String, ◌≤◌, [], ◌∷◌, Bool, true, false, ◌≡◌, ◌↔◌, refl, pos, In, here, there, ok, err, text_lt,
}
use hedronetes_h3s.Json.{◌!◌, Value, bool, int, string, json, items}
use hedronetes_h3s.Network.Names.{valid_node_name}
use hedronetes_h3s.Network.Tests.{blocks, service_block, first_half}
use hedronetes_h3s.Proxy.Ip.{ip, parse_ipv4}
use hedronetes_h3s.Proxy.Forwarding.{classify}
use hedronetes_h3s.Proxy.Types.{
  Platform, tcp, Backend, Frontend, Plan, text, port, node_port, parse_protocol, concat,
  no_endpoint,
}
use hedronetes_h3s.Proxy.Nodes.{add_node, add_slice}
use hedronetes_h3s.Proxy.Backends.{Port, gather}
use hedronetes_h3s.Proxy.Frontends.{add_port, add_service, plan}
use hedronetes_h3s.Apart.{Apart}
use hedronetes_h3s.Proxy.Claims.{same_match, same_chain}
use hedronetes_h3s.Proxy.Matches.{plan-Apart}
use hedronetes_h3s.Proxy.Exact.{AtSlice, gather-AtSlice}
use hedronetes_h3s.Proxy.Render.{render, endpoint_chain}
use hedronetes_h3s.Proxy.Ruleset.{IsRuleset, render-IsRuleset}
use hedronetes_h3s.Proxy.Published.{IsServed}
use hedronetes_h3s.Proxy.Served.{plan-IsServed}

abbrev platform : Platform
platform = record { net = blocks; service_range = service_block; digest = λ s. s }

abbrev server : Value
server = json (
    ("metadata", json (("name", string "server") ∷ []))
    ∷ ("spec", json (("podCIDR", string "10.42.0.0/24") ∷ []))
    ∷ (
      "status",
      json (
          (
            "addresses",
            items (
                json (("address", string "192.168.1.5") ∷ ("type", string "InternalIP") ∷ []) ∷ []),
          )
          ∷ []),
    )
    ∷ [])

abbrev web : Value
web = json (
    (
      "metadata",
      json (("name", string "web") ∷ ("namespace", string "test") ∷ ("uid", string "u1") ∷ []),
    )
    ∷ (
      "spec",
      json (
          ("clusterIP", string "10.43.0.10")
          ∷ (
            "ports",
            items (
                json (
                  ("name", string "http")
                  ∷ ("nodePort", int (pos 30080))
                  ∷ ("port", int (pos 80))
                  ∷ [])
                ∷ []),
          )
          ∷ ("type", string "NodePort")
          ∷ []),
    )
    ∷ [])

abbrev endpoint : String → Bool → Value
endpoint address ready = json (
    ("addresses", items (string address ∷ []))
    ∷ ("conditions", json (("ready", bool ready) ∷ []))
    ∷ [])

abbrev web_slice : Value
web_slice = json (
    ("addressType", string "IPv4")
    ∷ ("endpoints", items (endpoint "10.42.0.2" true ∷ endpoint "10.42.0.3" false ∷ []))
    ∷ (
      "metadata",
      json (
          ("labels", json (("kubernetes.io/service-name", string "web") ∷ []))
          ∷ ("namespace", string "test")
          ∷ []),
    )
    ∷ ("ports", items (json (("port", int (pos 8080)) ∷ ("protocol", string "TCP") ∷ []) ∷ []))
    ∷ [])

-- 10.42.0.2, which is ready; 10.42.0.3 is not.
abbrev backend : Backend
backend = record { ip = 170524674; port = 8080 }

abbrev cluster_frontend : Frontend
cluster_frontend = record {
  id = "svc_test/web/u1/10.43.0.10/80/tcp";
  ip = 170590218;
  port = 80;
  protocol = tcp;
  local = false;
  backends = backend ∷ [];
}

abbrev node_frontend : Frontend
node_frontend = record {
  id = "svc_test/web/u1/192.168.1.5/30080/tcp/nodeport";
  ip = 3232235781;
  port = 30080;
  protocol = tcp;
  local = false;
  backends = backend ∷ [];
}

abbrev web_plan : Plan blocks
web_plan = record {
  pod_cidrs = first_half ∷ [];
  services = cluster_frontend ∷ node_frontend ∷ [];
  warnings = [];
  status = record { namespace = "test"; name = "web"; port = 80; backends = 1 } ∷ [];
}

plan_runs : plan platform "server" (web ∷ []) (web_slice ∷ []) (server ∷ []) ≡ ok web_plan
unfolding plan add_service add_port gather add_node add_slice classify valid_node_name ip parse_ipv4
    text port node_port parse_protocol text_lt Option.bind
plan_runs = refl

pending_node :
    plan platform "worker" (web ∷ []) (web_slice ∷ []) (server ∷ [])
    ≡ err "local node has no allocated Pod CIDR yet"
unfolding plan add_node valid_node_name ip parse_ipv4 Option.bind
pending_node = refl

plan-Apart_example :
    Apart same_match web_plan.services × Apart same_chain web_plan.services × (2 ≤ 4096)
unfolding plan add_service add_port gather add_node add_slice classify valid_node_name ip parse_ipv4
    text port node_port parse_protocol text_lt Option.bind
plan-Apart_example =
    plan-Apart platform "server" (web ∷ []) (web_slice ∷ []) (server ∷ []) web_plan refl

plan-IsServed_example :
    IsServed platform "server" (web ∷ []) (web_slice ∷ []) (server ∷ []) node_frontend
unfolding plan add_service add_port gather add_node add_slice classify valid_node_name ip parse_ipv4
    text port node_port parse_protocol text_lt Option.bind
plan-IsServed_example =
    plan-IsServed platform "server" (web ∷ []) (web_slice ∷ []) (server ∷ []) web_plan node_frontend
      refl (there (here refl))

abbrev web_port : Port
web_port = record {
  namespace = "test";
  name = "web";
  uid = "u1";
  local = false;
  service_ports = 1;
  port_name = "http";
  protocol = tcp;
}

gather-AtSlice_example : In backend (backend ∷ []) ↔ (
    (slice : Value) × In slice (web_slice ∷ []) × AtSlice platform "server" web_port slice backend)
unfolding gather ip parse_ipv4 port Option.bind
gather-AtSlice_example =
    gather-AtSlice platform "server" web_port (web_slice ∷ []) 0 []
      (record { backends = backend ∷ []; total = 1; warnings = [] }) backend refl

loopback_refused : ip (string "127.0.0.1") ≡ err "endpoint must be a unicast IPv4 address"
unfolding ip parse_ipv4 Option.bind
loopback_refused = refl

abbrev owner : String
owner = "0123456789abcdef0123456789abcdef0123456789abcdef0123456789abcdef"

abbrev web_rules : String
web_rules = concat (
    "add table ip h3s_proxy\n" ∷ "delete table ip h3s_proxy\n" ∷ "table ip h3s_proxy {\n"
    ∷ " comment \"hedronetes.io/service-proxy/v1:0123456789abcdef0123456789abcdef0123456789abcdef0123456789abcdef\"\n"
    ∷ " chain nat_prerouting { type nat hook prerouting priority -100; policy accept; jump services; }\n"
    ∷ " chain nat_output { type nat hook output priority -100; policy accept; jump services; }\n"
    ∷ " chain services {\n"
    ∷ "  ip daddr 10.43.0.10 tcp dport 80 counter jump svc_test/web/u1/10.43.0.10/80/tcp\n"
    ∷ "  ip daddr 192.168.1.5 tcp dport 30080 counter jump svc_test/web/u1/192.168.1.5/30080/tcp/nodeport\n"
    ∷ " }\n" ∷ " chain reject_input { type filter hook input priority -10; policy accept;\n"
    ∷ " }\n" ∷ " chain reject_forward { type filter hook forward priority -10; policy accept;\n"
    ∷ " }\n" ∷ " chain reject_output { type filter hook output priority -10; policy accept;\n"
    ∷ " }\n" ∷ " chain postrouting { type nat hook postrouting priority 90; policy accept;\n"
    ∷ "  ct status dnat ct original ip daddr 10.43.0.10 meta l4proto tcp ct original proto-dst 80 ip saddr != { 10.42.0.0/24 } counter masquerade\n"
    ∷ "  ct status dnat ct original ip daddr 10.43.0.10 meta l4proto tcp ct original proto-dst 80 ip saddr 10.42.0.2 ip daddr 10.42.0.2 tcp dport 8080 counter masquerade\n"
    ∷ "  ct status dnat ct original ip daddr 192.168.1.5 meta l4proto tcp ct original proto-dst 30080 ip saddr != { 10.42.0.0/24 } counter masquerade\n"
    ∷ "  ct status dnat ct original ip daddr 192.168.1.5 meta l4proto tcp ct original proto-dst 30080 ip saddr 10.42.0.2 ip daddr 10.42.0.2 tcp dport 8080 counter masquerade\n"
    ∷ " }\n" ∷ " chain svc_test/web/u1/10.43.0.10/80/tcp {\n"
    ∷ "  jump ep_svc_test/web/u1/10.43.0.10/80/tcp:10.42.0.2:8080\n" ∷ " }\n"
    ∷ " chain ep_svc_test/web/u1/10.43.0.10/80/tcp:10.42.0.2:8080 { meta l4proto tcp counter dnat to 10.42.0.2:8080; }\n"
    ∷ " chain svc_test/web/u1/192.168.1.5/30080/tcp/nodeport {\n"
    ∷ "  jump ep_svc_test/web/u1/192.168.1.5/30080/tcp/nodeport:10.42.0.2:8080\n" ∷ " }\n"
    ∷ " chain ep_svc_test/web/u1/192.168.1.5/30080/tcp/nodeport:10.42.0.2:8080 { meta l4proto tcp counter dnat to 10.42.0.2:8080; }\n"
    ∷ "}\n" ∷ [])

render_runs : render platform web_plan owner ≡ ok web_rules
unfolding render endpoint_chain
render_runs = refl

foreign_owner : render platform web_plan "0123" ≡ err "invalid table ownership digest"
unfolding render
foreign_owner = refl

render-IsRuleset_example : IsRuleset platform web_plan owner web_rules
render-IsRuleset_example = render-IsRuleset platform web_plan owner web_rules render_runs

-- With internalTrafficPolicy Local and the ready endpoint not on this node, the node port gets no
-- backend either.
abbrev local_web : Value
local_web = json (
    ("metadata", web ! "metadata")
    ∷ (
      "spec",
      json (
          ("clusterIP", string "10.43.0.10")
          ∷ ("internalTrafficPolicy", string "Local")
          ∷ ("ports", web ! "spec" ! "ports")
          ∷ ("type", string "NodePort")
          ∷ []),
    )
    ∷ [])

abbrev local_plan : Plan blocks
local_plan = record {
  pod_cidrs = first_half ∷ [];
  services =
      record cluster_frontend { local = true; backends = [] }
      ∷ record node_frontend { backends = [] }
      ∷ [];
  warnings = no_endpoint "test" "web" 80 tcp ∷ [];
  status = record { namespace = "test"; name = "web"; port = 80; backends = 0 } ∷ [];
}

local_node_port :
    plan platform "server" (local_web ∷ []) (web_slice ∷ []) (server ∷ []) ≡ ok local_plan
unfolding plan add_service add_port gather add_node add_slice classify valid_node_name ip parse_ipv4
    text port node_port parse_protocol text_lt Option.bind
local_node_port = refl
