-- ===== src/Network/Allocations.antt =====
-- crates/h3s-api/src/network.rs: `NodeCidrAllocations`. The IPv4 networks are ipnet's, an argument:
-- the type, its parser and printer, and the functions of it that the code calls. An address is its
-- 32-bit number.
use hedronetes_h3s.Prelude.{
  ℕ, ◌-◌, ◌^◌, String, List, [], ◌∷◌, Bool, true, false, ◌&&◌, ◌||◌, not, Option, none, some,
  if◌then◌else◌, leb, ltb, ◌==◌, any, find, length, map, str_eq, text_lt, Result, ok, err, ok_or,
}
use hedronetes_h3s.Prelude.Results.{◌>>=◌, ◌>>◌}
use hedronetes_h3s.Network.Names.{valid_node_name}

pub record IpNet : Type 1 where
  pub Net : Type 0
  pub parse : String → Option Net
  pub show : Net → String
  pub addr : Net → ℕ
  pub network : Net → ℕ
  pub broadcast : Net → ℕ
  pub prefix_len : Net → ℕ
  pub contains : Net → ℕ → Bool
  pub same : Net → Net → Bool
  -- `None` for a prefix that is shorter than the network's own or too long
  pub subnets : Net → ℕ → Option (List Net)

pub record NodeCidrAllocations : Type 0 where
  pub version : ℕ
  pub cluster_cidr : String
  pub node_prefix : ℕ
  -- the map from names to CIDRs, in the order of the names
  pub reservations : List (String × String)

-- `BTreeMap::get` and `insert`
abbrev pub get : String → List (String × String) → Option String
get name [] = none
get name ((n, c) ∷ rest) = if str_eq n name then some c else get name rest

abbrev pub insert_name : String → String → List (String × String) → List (String × String)
insert_name name cidr [] = (name, cidr) ∷ []
insert_name name cidr ((n, c) ∷ rest) =
    if str_eq n name
    then (n, cidr) ∷ rest
    else if text_lt name n
    then (name, cidr) ∷ (n, c) ∷ rest
    else (n, c) ∷ insert_name name cidr rest

abbrev pub has_value : String → List (String × String) → Bool
has_value cidr entries = any (λ e. str_eq e.1 cidr) entries

-- `Ipv4Addr::is_private`: 10.0.0.0/8, 172.16.0.0/12 and 192.168.0.0/16
abbrev pub is_private : ℕ → Bool
is_private a =
    (leb 167772160 a && leb a 184549375)
    || (leb 2886729728 a && leb a 2887778303)
    || (leb 3232235520 a && leb a 3232301055)

abbrev pub R : Type 0 → Type 0
R A = Result String A

abbrev pub exhausted : String
exhausted = "node CIDR pool exhausted; retained reservations require operator investigation"

abbrev pub not_a_subnet : String
not_a_subnet =
    "node CIDR must be a canonical subnet of the configured pool with its configured prefix"

module _ (ip : IpNet) where
  -- 10.43.0.0/16, where a literal is parsed and unwrapped
  abbrev services_overlap : ip.Net → Option ip.Net → Bool
  services_overlap pool none = true
  services_overlap pool (some services) =
      ip.contains pool (ip.network services) || ip.contains services (ip.network pool)

  abbrev pool_refused : NodeCidrAllocations → ip.Net → Bool
  pool_refused a pool =
      not (a.version == 1)
      || not (str_eq (ip.show pool) a.cluster_cidr)
      || not (ip.addr pool == ip.network pool)
      || not (is_private (ip.network pool))
      || not (is_private (ip.broadcast pool))
      || ltb a.node_prefix (ip.prefix_len pool)
      || ltb 30 a.node_prefix
      || ltb 12 (a.node_prefix - ip.prefix_len pool)
      || services_overlap pool (ip.parse "10.43.0.0/16")

  unfoldable pub pool : NodeCidrAllocations → R ip.Net
  pool a = do
    p ← ok_or (ip.parse a.cluster_cidr) "cluster CIDR must be IPv4"
    if pool_refused a p
        then err
            "require a canonical private IPv4 pool, at most 4096 node subnets through /30, disjoint from Service CIDR 10.43.0.0/16"
        else ok p

  abbrev pub subnet_refused : NodeCidrAllocations → String → ip.Net → Bool
  subnet_refused a cidr s =
      not (ip.prefix_len s == a.node_prefix)
      || not (ip.addr s == ip.network s)
      || not (str_eq (ip.show s) cidr)

  unfoldable pub subnet : NodeCidrAllocations → String → R ip.Net
  subnet a cidr = do
    s ← ok_or (ip.parse cidr) "invalid IPv4 node CIDR"
    if subnet_refused a cidr s
        then err not_a_subnet
        else (pool a >>= λ p. if ip.contains p (ip.network s) then ok s else err not_a_subnet)

  abbrev insert_used : R (List ip.Net) → R ip.Net → R (List ip.Net)
  insert_used (err e) s = err e
  insert_used (ok used) (err e) = err e
  insert_used (ok used) (ok s) =
      if any (ip.same s) used
      then err "invalid node name or duplicate node CIDR reservation"
      else ok (s ∷ used)

  -- The loop over the reservations, with the set of the subnets seen.
  abbrev pub check_entries :
      NodeCidrAllocations → List ip.Net → List (String × String) → R (Unit {0})
  check_entries a used [] = ok tt
  check_entries a used ((name, cidr) ∷ rest) =
      if valid_node_name name
      then (insert_used (ok used) (subnet a cidr) >>= λ next. check_entries a next rest)
      else err "invalid node name or duplicate node CIDR reservation"

  unfoldable pub validate : NodeCidrAllocations → R (Unit {0})
  validate a = do
    p ← pool a
    if ltb (2 ^ (a.node_prefix - ip.prefix_len p)) (length a.reservations)
        then err "too many node CIDR reservations"
        else check_entries a [] a.reservations

  -- `new`
  unfoldable pub new : String → ℕ → R NodeCidrAllocations
  new cluster_cidr node_prefix =
      let result : NodeCidrAllocations = record {
        version = 1;
        cluster_cidr = cluster_cidr;
        node_prefix = node_prefix;
        reservations = [];
      } in
      validate result >> ok result

  abbrev reserve_new : NodeCidrAllocations → String → String → R Bool × NodeCidrAllocations
  reserve_new a name cidr =
      if has_value cidr a.reservations
      then (err "node CIDR is reserved by another node", a)
      else (ok true, record a { reservations = insert_name name cidr a.reservations })

  abbrev reserve_found :
      NodeCidrAllocations → String → String → Option String → R Bool × NodeCidrAllocations
  reserve_found a name cidr none = reserve_new a name cidr
  reserve_found a name cidr (some old) =
      (if str_eq old cidr then ok false else err "node CIDR reservation is immutable", a)

  abbrev reserve_subnet :
      NodeCidrAllocations → String → String → R ip.Net → R Bool × NodeCidrAllocations
  reserve_subnet a name cidr (err e) = (err e, a)
  reserve_subnet a name cidr (ok s) = reserve_found a name cidr (get name a.reservations)

  -- `reserve`, with the allocations after it
  unfoldable pub reserve : String → String → NodeCidrAllocations → R Bool × NodeCidrAllocations
  reserve name cidr a =
      if valid_node_name name
      then reserve_subnet a name cidr (subnet a cidr)
      else (err "invalid node name", a)

  abbrev pub free : NodeCidrAllocations → String → Bool
  free a cidr = not (has_value cidr a.reservations)

  abbrev pub next_free : NodeCidrAllocations → Option String → R String
  next_free a (some cidr) = ok cidr
  next_free a none = do
    p ← pool a
    nets ← ok_or (ip.subnets p a.node_prefix) "invalid node prefix"
    ok_or (find (free a) (map ip.show nets)) exhausted

  unfoldable pub next : String → NodeCidrAllocations → R String
  next name a = validate a >> next_free a (get name a.reservations)
