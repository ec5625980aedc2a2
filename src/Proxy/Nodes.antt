-- ===== src/Proxy/Nodes.antt =====
-- crates/h3s-proxy/src/plan.rs: what `plan` reads from the Nodes and the EndpointSlices.
use hedronetes_h3s.Prelude.{
  String, ℕ, List, [], ◌∷◌, ◌++◌, Bool, false, ◌&&◌, ◌||◌, not, Option, none, some, map,
  if◌then◌else◌, ltb, ◌==◌, any, keep, str_eq, ok, err, ok_or, for_each,
}
use hedronetes_h3s.Prelude.Results.{◌>>=◌}
use hedronetes_h3s.Json.{Value, ◌!◌, as_str, is_text, is_null, elements}
use hedronetes_h3s.Network.Allocations.{IpNet, is_private}
use hedronetes_h3s.Proxy.Ip.{R, ip}
use hedronetes_h3s.Proxy.Types.{Platform, text}

pub record NodeState (net : IpNet) : Type 0 where
  -- a set, in its order
  pub pod_cidrs : List net.Net
  pub own : Bool
  pub node_ips : List ℕ

abbrev pub is_node_address : Option String → Bool
is_node_address none = false
is_node_address (some s) = str_eq s "InternalIP" || str_eq s "ExternalIP"

-- `filter(|s| !s.is_empty())`
abbrev pub non_empty : Option String → Option String
non_empty none = none
non_empty (some s) = if str_eq s "" then none else some s

module _ (platform : Platform) (node_name : String) where
  -- `BTreeSet<Ipv4Net>`: ordered by address, then prefix length
  abbrev net_lt : platform.net.Net → platform.net.Net → Bool
  net_lt a b =
      ltb (platform.net.addr a) (platform.net.addr b)
      || (platform.net.addr a == platform.net.addr b
          && ltb (platform.net.prefix_len a) (platform.net.prefix_len b))

  abbrev insert_net : platform.net.Net → List platform.net.Net → List platform.net.Net
  insert_net n [] = n ∷ []
  insert_net n (m ∷ ms) = if net_lt m n then m ∷ insert_net n ms else n ∷ m ∷ ms

  abbrev pub valid_cidr : platform.net.Net → String → Bool
  valid_cidr subnet cidr =
      platform.net.addr subnet == platform.net.network subnet
      && str_eq (platform.net.show subnet) cidr
      && is_private (platform.net.network subnet)
      && is_private (platform.net.broadcast subnet)
      && not (platform.net.contains subnet (platform.net.network platform.service_range))
      && not (platform.net.contains platform.service_range (platform.net.network subnet))

  abbrev pub add_cidr : Bool → Option String → NodeState platform.net → R (NodeState platform.net)
  add_cidr here none s = ok s
  add_cidr here (some cidr) s =
      ok_or (platform.net.parse cidr) "node CIDR must be IPv4" >>= λ subnet.
      if not (valid_cidr subnet cidr)
      then err "invalid node CIDR"
      else if any (platform.net.same subnet) s.pod_cidrs
      then err "duplicate node CIDR"
      else ok (record s { pod_cidrs = insert_net subnet s.pod_cidrs; own = s.own || here })

  abbrev pub add_node_address : Value → NodeState platform.net → R (NodeState platform.net)
  add_node_address address s =
      if not (is_node_address (as_str (address ! "type")))
      then ok s
      else ip (address ! "address") >>= λ reported.
          if any (λ a. a == reported) s.node_ips
          then ok s
          else ok (record s { node_ips = s.node_ips ++ reported ∷ [] })

  unfoldable pub add_node : Value → NodeState platform.net → R (NodeState platform.net)
  add_node node s =
      let here = is_text node_name (node ! "metadata" ! "name") in
      add_cidr here (non_empty (as_str (node ! "spec" ! "podCIDR"))) s >>= λ t.
      if here then for_each add_node_address (elements (node ! "status" ! "addresses")) t else ok t

  abbrev covers : Option platform.net.Net → platform.net.Net → Bool
  covers none cidr = false
  covers (some p) cidr = platform.net.contains p (platform.net.network cidr)

  abbrev pub check_overlap : Option platform.net.Net → List platform.net.Net → R (Unit {0})
  check_overlap previous [] = ok tt
  check_overlap previous (cidr ∷ cidrs) =
      if covers previous cidr then err "overlapping node CIDRs" else check_overlap (some cidr) cidrs

-- An entry of `by_service`; the entries stand in the order in which they were pushed.
pub record Listed : Type 0 where
  pub namespace : String
  pub name : String
  pub slice : Value

abbrev pub add_named : Option String → Value → List Listed → R (List Listed)
add_named none slice listed = ok listed
add_named (some name) slice listed = text (slice ! "metadata") "namespace" >>= λ namespace.
    ok (listed ++ record { namespace = namespace; name = name; slice = slice } ∷ [])

unfoldable pub add_slice : Value → List Listed → R (List Listed)
add_slice slice listed =
    if not (is_text "IPv4" (slice ! "addressType"))
      || not (is_null (slice ! "metadata" ! "deletionTimestamp"))
    then ok listed
    else add_named (as_str (slice ! "metadata" ! "labels" ! "kubernetes.io/service-name")) slice
        listed

-- `by_service.get(&(ns, name)).into_iter().flatten()`
abbrev pub slices_of : String → String → List Listed → List Value
slices_of ns name listed =
    map (λ l. l.slice) (keep (λ l. str_eq l.namespace ns && str_eq l.name name) listed)
