-- ===== src/Proxy/Matches.antt =====
-- crates/h3s-proxy/src/plan.rs: no two frontends of a plan match the same packets, and no two have
-- the same chain.
use hedronetes_h3s.Prelude.{
  String, ℕ, ◌≤◌, List, [], Bool, false, ◌||◌, not, ◌≡◌, refl, sym, ap, subst, inl, inr, none, ltb,
  arith, length, is_empty, text_lt, Bool-cases, ok, for_each, for_each-inv, >>=-eq-ok, ok-injective,
}
use hedronetes_h3s.Json.{Value, ◌!◌, is_null}
use hedronetes_h3s.Proxy.Forwarding.{skip_in_plan, classify}
use hedronetes_h3s.Proxy.Types.{
  Platform, Protocol, Backend, Frontend, Plan, port, parse_protocol, node_port,
}
use hedronetes_h3s.Proxy.Nodes.{Listed, slices_of, add_node, add_slice, check_overlap}
use hedronetes_h3s.Proxy.Backends.{gather}
use hedronetes_h3s.Proxy.Draft.{Draft, claim_tuple, claim_id, push_frontend, Facts, report}
use hedronetes_h3s.Proxy.Frontends.{
  add_node_frontend, add_node_frontends, check_count, add_port, facts_of, add_service, no_draft,
  plan, service_id, check_snapshot, check_own, no_nodes,
}
use hedronetes_h3s.Apart.{Apart, Apart-sort, length-sort}
use hedronetes_h3s.Proxy.Claims.{
  tuple_of, same_match, same_chain, match_sym, str_eq_sym, Claimed, claims-Claimed,
}

module _ (platform : Platform) (node_name : String) where
  node_frontend-Claimed :
      (f : Facts) (number : ℕ) (protocol : Protocol) (backends : List Backend) (a : ℕ) (d e : Draft)
      → Claimed d
      → add_node_frontend platform node_name f number protocol backends a d ≡ ok e
      → Claimed e
  node_frontend-Claimed f number protocol backends a d e p h =
      let id = service_id platform node_name f a number protocol "/nodeport" in
      let new : Frontend = record {
        id = id;
        ip = a;
        port = number;
        protocol = protocol;
        local = false;
        backends = backends;
      } in
      let (claimed, h1, g1) = >>=-eq-ok (claim_tuple (tuple_of new) d) _ h in
      let (named, h2, g2) = >>=-eq-ok (claim_id id claimed) _ g1 in
      let q : push_frontend new named ≡ e = ok-injective g2 in
      claims-Claimed new d claimed named e p h1 h2 (ap (λ (x : Draft). x.frontends) (sym q))
        (ap (λ (x : Draft). x.tuples) (sym q)) (ap (λ (x : Draft). x.ids) (sym q))

  node_frontends-Claimed :
      (f : Facts) (node_ips : List ℕ) (p : Value) (protocol : Protocol) (backends : List Backend)
      (d e : Draft)
      → Claimed d
      → add_node_frontends platform node_name f node_ips p protocol backends d ≡ ok e
      → Claimed e
  node_frontends-Claimed f node_ips p protocol backends d e c h = elim (Bool-cases f.is_node_port) [
    | inr t ↦ subst Claimed (ok-injective (rw t at h)) c
    | inl t ↦
        let (number, h1, g1) = >>=-eq-ok (node_port (p ! "nodePort")) _ (rw t at h) in
        elim (Bool-cases (is_empty node_ips)) [
          | inl u ↦ absurd (let g = rw u at g1 in cc)
          | inr u ↦
              for_each-inv (add_node_frontend platform node_name f number protocol backends) Claimed
                node_ips (λ a x y m. node_frontend-Claimed f number protocol backends a x y) d e c
                (rw u at g1)
        ]
  ]

  -- Between two ports the number of frontends is also within its limit.
  abbrev Counted : Draft → Type 0
  Counted d = Claimed d × (length d.frontends ≤ 4096)

  check_count-Counted :
      (d e : Draft) → Claimed d → check_count platform node_name d ≡ ok e → Counted e
  check_count-Counted d e c h = elim (Bool-cases (ltb 4096 (length d.frontends))) [
    | inl t ↦ absurd (let g = rw t at h in cc)
    | inr t ↦
        let small : length d.frontends ≤ 4096 = ground arith in
        subst Counted (ok-injective (rw t at h)) (c, small)
  ]

  port_Counted :
      (f : Facts) (slices : List Value) (node_ips : List ℕ) (p : Value) (d e : Draft)
      → Counted d
      → add_port platform node_name f slices node_ips p d ≡ ok e
      → Counted e
  unfolding add_port
  port_Counted f slices node_ips p d e c h =
      let (service_port, h1, g1) = >>=-eq-ok (port (p ! "port")) _ h in
      let (protocol, h2, g2) = >>=-eq-ok (parse_protocol (p ! "protocol")) _ g1 in
      let (claimed, h3, g3) = >>=-eq-ok (claim_tuple _ d) _ g2 in
      let (gathered, h4, g4) = >>=-eq-ok (gather platform node_name _ slices _) _ g3 in
      let id = service_id platform node_name f f.cluster_ip service_port protocol "" in
      let (named, h5, g5) = >>=-eq-ok (claim_id id claimed) _ g4 in
      let new : Frontend = record {
        id = id;
        ip = f.cluster_ip;
        port = service_port;
        protocol = protocol;
        local = f.local;
        backends = gathered.backends;
      } in
      let pushed = push_frontend new (report f service_port protocol gathered named) in
      let (done, h6, g6) =
        >>=-eq-ok
          (add_node_frontends platform node_name f node_ips p protocol gathered.backends pushed) _
          g5 in
      check_count-Counted done e
        (node_frontends-Claimed f node_ips p protocol gathered.backends pushed done
          (claims-Claimed new d claimed named pushed c.0 h3 h5 refl refl refl) h6)
        g6

  service_Counted :
      (listed : List Listed) (node_ips : List ℕ) (service : Value) (d e : Draft)
      → Counted d
      → add_service platform node_name listed node_ips service d ≡ ok e
      → Counted e
  unfolding add_service
  service_Counted listed node_ips service d e c h =
      elim (Bool-cases (
        not (is_null (service ! "metadata" ! "deletionTimestamp"))
        || skip_in_plan (classify (service ! "spec")))) [
          | inl t ↦ subst Counted (ok-injective (rw t at h)) c
          | inr t ↦
              let (f, h1, g1) = >>=-eq-ok (facts_of platform node_name service) _ (rw t at h) in
              for_each-inv
                (add_port platform node_name f (slices_of f.namespace f.name listed) node_ips)
                Counted f.ports
                (λ p x y m. port_Counted f (slices_of f.namespace f.name listed) node_ips p x y) d e
                c g1
        ]

  -- The frontends of a plan match pairwise different destinations, an address, a port and a
  -- protocol, have pairwise different chains, and are at most 4096.
  pub plan-Apart :
      (services slices nodes : List Value) (p : Plan platform.net)
      → plan platform node_name services slices nodes ≡ ok p
      → Apart same_match p.services × Apart same_chain p.services × (length p.services ≤ 4096)
  unfolding plan
  plan-Apart services slices nodes p h =
      let (u, h1, g1) = >>=-eq-ok (check_snapshot platform node_name services slices nodes) _ h in
      let (state, h2, g2) =
        >>=-eq-ok (for_each (add_node platform node_name) nodes (no_nodes platform node_name)) _
          g1 in
      let (v, h3, g3) = >>=-eq-ok (check_overlap platform node_name none state.pod_cidrs) _ g2 in
      let (w, h4, g4) = >>=-eq-ok (check_own platform node_name state.own) _ g3 in
      let (listed, h5, g5) = >>=-eq-ok (for_each add_slice slices []) _ g4 in
      let body = add_service platform node_name listed state.node_ips in
      let start = no_draft platform node_name in
      let (draft, h6, g6) = >>=-eq-ok (for_each body services start) _ g5 in
      let (c, small) =
        for_each-inv body Counted services (λ s x y m. service_Counted listed state.node_ips s x y)
          start draft ((tt, λ f m. elim m [ ], tt, λ f m. elim m [ ]), omega arith) h6 in
      let lt : Frontend → Frontend → Bool = λ a b. text_lt a.id b.id in
      subst
        (λ (p : Plan platform.net).
          Apart same_match p.services × Apart same_chain p.services × (length p.services ≤ 4096))
        (ok-injective g6)
        (
          Apart-sort same_match match_sym lt draft.frontends c.0,
          Apart-sort same_chain (λ f g. str_eq_sym f.id g.id) lt draft.frontends c.2,
          subst (λ n. n ≤ 4096) (sym (length-sort lt draft.frontends)) small,
        )
