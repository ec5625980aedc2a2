-- ===== src/Proxy/Served.antt =====
-- crates/h3s-proxy/src/plan.rs: where the frontends of a plan and their backends come from.
use hedronetes_h3s.Prelude.{
  String, ℕ, List, [], true, false, ◌≡◌, refl, sym, ap, ◌∙◌, subst, inl, inr, none, ltb, length,
  is_empty, text_lt, sort, sort→In, In, snoc→In, Bool-cases, ok, for_each, for_each-inv, >>=-eq-ok,
  ok-injective,
}
use hedronetes_h3s.Json.{Value, ◌!◌, is_null}
use hedronetes_h3s.Proxy.Addresses.{IsReported, node_ips-IsReported}
use hedronetes_h3s.Proxy.Forwarding.{skip_in_plan, classify}
use hedronetes_h3s.Proxy.Types.{
  Platform, Protocol, Backend, Frontend, Plan, port, parse_protocol, node_port,
}
use hedronetes_h3s.Proxy.Nodes.{Listed, add_slice, slices_of, add_node, check_overlap}
use hedronetes_h3s.Proxy.Backends.{gather}
use hedronetes_h3s.Proxy.Exact.{gather-AtSlice}
use hedronetes_h3s.Proxy.Draft.{Tuple, Draft, claim_tuple, claim_id, push_frontend, report, Facts}
use hedronetes_h3s.Proxy.Frontends.{
  service_id, add_node_frontend, add_node_frontends, check_count, add_port, facts_of, add_service,
  no_draft, plan, check_snapshot, check_own, no_nodes,
}
use hedronetes_h3s.Proxy.Claims.{tuple_of, claim_tuple-eq, claim_id-eq}
use hedronetes_h3s.Proxy.Listing.{Known, slices_Known, slices_of-Known}
use hedronetes_h3s.Proxy.Published.{
  port_of, IsBacked, IsPublished, IsServed, cluster, node, facts_of-IsFacts,
}

module _ (platform : Platform) (node_name : String) (services slices nodes : List Value) where
  abbrev Served : Draft → Type 0
  Served d =
      (x : Frontend) → In x d.frontends → (IsServed platform node_name services slices nodes) x

  node_frontends-Served :
      (service : Value) (f : Facts) (node_ips : List ℕ) (p : Value) (protocol : Protocol)
      (backends : List Backend) (d e : Draft)
      → (IsPublished platform node_name services slices nodes) service f p protocol backends
      → ((a : ℕ) → In a node_ips → IsReported node_name nodes a)
      → Served d
      → add_node_frontends platform node_name f node_ips p protocol backends d ≡ ok e
      → Served e
  node_frontends-Served service f node_ips p protocol backends d e known reported s h =
      elim (Bool-cases f.is_node_port) [
        | inr t ↦ subst Served (ok-injective (rw t at h)) s
        | inl t ↦
            let (number, h1, g1) = >>=-eq-ok (node_port (p ! "nodePort")) _ (rw t at h) in
            elim (Bool-cases (is_empty node_ips)) [
              | inl u ↦ absurd (let g = rw u at g1 in cc)
              | inr u ↦
                  for_each-inv (add_node_frontend platform node_name f number protocol backends)
                    Served node_ips (λ a x y m. one t number h1 a x y (reported a m)) d e s
                    (rw u at g1)
            ]
      ]
    where
      one :
          f.is_node_port ≡ true
          → (number : ℕ) → node_port (p ! "nodePort") ≡ ok number
          → (a : ℕ) (x y : Draft) → IsReported node_name nodes a
          → Served x
          → add_node_frontend platform node_name f number protocol backends a x ≡ ok y
          → Served y
      one is_node number numbered a x y here_now s g =
          let id = service_id platform node_name f a number protocol "/nodeport" in
          let new : Frontend = record {
            id = id;
            ip = a;
            port = number;
            protocol = protocol;
            local = false;
            backends = backends;
          } in
          let (claimed, h1, g1) = >>=-eq-ok (claim_tuple (tuple_of new) x) _ g in
          let (named, h2, g2) = >>=-eq-ok (claim_id id claimed) _ g1 in
          let (k, f1, t1, i1) = claim_tuple-eq (tuple_of new) x claimed h1 in
          let (l, f2, t2, i2) = claim_id-eq id claimed named h2 in
          subst Served (ok-injective g2) λ w m. elim (snoc→In new named.frontends w m) [
            | inl n ↦ s w (rw (f2 ∙ f1) at n)
            | inr q ↦
                subst (IsServed platform node_name services slices nodes) q
                  (service, f, p, known, node is_node here_now numbered refl refl)
          ]

  check_count-eq : (d e : Draft) → check_count platform node_name d ≡ ok e → d ≡ e
  check_count-eq d e h = elim (Bool-cases (ltb 4096 (length d.frontends))) [
    | inl t ↦ absurd (let g = rw t at h in cc)
    | inr t ↦ ok-injective (rw t at h)
  ]

  port_Served :
      (service : Value) (f : Facts) (listed : List Listed) (node_ips : List ℕ) (p : Value)
      (d e : Draft)
      → Known slices listed
      → ((a : ℕ) → In a node_ips → IsReported node_name nodes a)
      → ((protocol : Protocol) (backends : List Backend)
          → parse_protocol (p ! "protocol") ≡ ok protocol
          → (IsBacked platform node_name services slices nodes) f p protocol backends
          → (IsPublished platform node_name services slices nodes) service f p protocol backends)
      → Served d
      → add_port platform node_name f (slices_of f.namespace f.name listed) node_ips p d ≡ ok e
      → Served e
  unfolding add_port
  port_Served service f listed node_ips p d e known reported publish s h =
      let ours = slices_of f.namespace f.name listed in
      let (service_port, h1, g1) = >>=-eq-ok (port (p ! "port")) _ h in
      let (protocol, h2, g2) = >>=-eq-ok (parse_protocol (p ! "protocol")) _ g1 in
      let t : Tuple = record { ip = f.cluster_ip; port = service_port; protocol = protocol } in
      let (claimed, h3, g3) = >>=-eq-ok (claim_tuple t d) _ g2 in
      let facts = (port_of platform node_name services slices nodes) f p protocol in
      let (gathered, h4, g4) =
        >>=-eq-ok
          (gather platform node_name facts ours
            (record { backends = []; total = d.total_backends; warnings = d.warnings }))
          _ g3 in
      let id = service_id platform node_name f f.cluster_ip service_port protocol "" in
      let (named, h5, g5) = >>=-eq-ok (claim_id id claimed) _ g4 in
      let new : Frontend = record {
        id = id;
        ip = f.cluster_ip;
        port = service_port;
        protocol = protocol;
        local = f.local;
        backends = gathered.backends;
      } in
      let pushed = push_frontend new (report f service_port protocol gathered named) in
      let (done, h6, g6) =
        >>=-eq-ok
          (add_node_frontends platform node_name f node_ips p protocol gathered.backends pushed) _
          g5 in
      let published : (IsPublished platform node_name services slices nodes) service f p protocol
          gathered.backends =
        publish protocol gathered.backends h2 (λ b m.
          let (slice, n, at) =
            (gather-AtSlice platform node_name facts ours d.total_backends d.warnings gathered b
                h4).0
              m in
          let (i, l) = slices_of-Known slices listed f.namespace f.name slice known n in
          (slice, i, l, at)) in
      let (k, f1, t1, i1) = claim_tuple-eq t d claimed h3 in
      let (l, f2, t2, i2) = claim_id-eq id claimed named h5 in
      let s1 : Served pushed = λ w m. elim (snoc→In new named.frontends w m) [
        | inl n ↦ s w (rw (f2 ∙ f1) at n)
        | inr q ↦
            subst (IsServed platform node_name services slices nodes) q
              (service, f, p, published, cluster refl h1 refl refl)
      ] in
      let s2 =
        node_frontends-Served service f node_ips p protocol gathered.backends pushed done published
          reported s1 h6 in
      subst Served (check_count-eq done e g6) s2

  service_Served :
      (listed : List Listed) (node_ips : List ℕ) (service : Value) (d e : Draft)
      → In service services
      → Known slices listed
      → ((a : ℕ) → In a node_ips → IsReported node_name nodes a)
      → Served d
      → add_service platform node_name listed node_ips service d ≡ ok e
      → Served e
  unfolding add_service
  service_Served listed node_ips service d e m known reported s h =
      elim (Bool-cases (is_null (service ! "metadata" ! "deletionTimestamp"))) [
        | inr t ↦ subst Served (ok-injective (rw t at h)) s
        | inl t ↦ elim (Bool-cases (skip_in_plan (classify (service ! "spec")))) [
          | inl u ↦ subst Served (ok-injective (rw (t, u) at h)) s
          | inr u ↦
              let (f, h1, g1) =
                >>=-eq-ok (facts_of platform node_name service) _ (rw (t, u) at h) in
              for_each-inv
                (add_port platform node_name f (slices_of f.namespace f.name listed) node_ips)
                Served f.ports
                (λ p x y n.
                  port_Served service f listed node_ips p x y known reported
                    (λ protocol backends c b. (
                      m,
                      t,
                      u,
                      (facts_of-IsFacts platform node_name services slices nodes) service f h1,
                      n,
                      c,
                      b,
                    )))
                d e s g1
        ]
      ]

  -- Every frontend of a plan stands for a port of a live, proxied Service of the snapshot: it has the
  -- protocol of that port, and the address of the Service and the Service port, or, for a Service of
  -- type NodePort, an address that this node reports and the node port. Each of its backends is a
  -- unicast address outside the Service range of a usable endpoint, under a port of the slice that
  -- fits that Service port, in an EndpointSlice that is labelled for that Service and is not another
  -- one's.
  pub plan-IsServed :
      (p : Plan platform.net) (x : Frontend)
      → plan platform node_name services slices nodes ≡ ok p
      → In x p.services
      → (IsServed platform node_name services slices nodes) x
  unfolding plan
  plan-IsServed p x h m =
      let (u, h1, g1) = >>=-eq-ok (check_snapshot platform node_name services slices nodes) _ h in
      let (state, h2, g2) =
        >>=-eq-ok (for_each (add_node platform node_name) nodes (no_nodes platform node_name)) _
          g1 in
      let (v, h3, g3) = >>=-eq-ok (check_overlap platform node_name none state.pod_cidrs) _ g2 in
      let (w, h4, g4) = >>=-eq-ok (check_own platform node_name state.own) _ g3 in
      let (listed, h5, g5) = >>=-eq-ok (for_each add_slice slices []) _ g4 in
      let body = add_service platform node_name listed state.node_ips in
      let (draft, h6, g6) = >>=-eq-ok (for_each body services (no_draft platform node_name)) _ g5 in
      let s =
        for_each-inv body Served services
          (λ x y z n.
            service_Served listed state.node_ips x y z n (slices_Known slices listed h5)
              (node_ips-IsReported platform node_name nodes state h2))
          (no_draft platform node_name) draft (λ x m. elim m [ ]) h6 in
      let q : sort (λ a b. text_lt a.id b.id) draft.frontends ≡ p.services =
        ap (λ (p : Plan platform.net). p.services) (ok-injective g6) in
      s x (sort→In (λ a b. text_lt a.id b.id) draft.frontends x (subst (In x) (sym q) m))
