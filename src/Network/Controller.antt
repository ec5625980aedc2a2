-- ===== src/Network/Controller.antt =====
-- crates/h3s-controllers/src/node_cidrs.rs: `node_cidrs_once`, one pass over the Nodes. The snapshot
-- of the allocations, the list of Nodes and the answers to the patches are arguments.
use hedronetes_h3s.Prelude.{
  ℕ, suc, String, List, [], ◌∷◌, Bool, true, false, Option, none, some, if◌then◌else◌, ltb, length,
  str_eq, ok, err,
}
use hedronetes_h3s.Network.Allocations.{IpNet, NodeCidrAllocations, R, validate, reserve, next}

-- The fields of a Node that the pass reads.
pub record Node : Type 0 where
  pub deleting : Bool
  pub name : Option String
  pub uid : Option String
  pub resource_version : Option String
  pub pod_cidr : Option String
  pub pod_cidrs : Option (List String)

-- Where the pass stands: the allocations, the patches accepted, the last one first, and why it ended.
pub record Pass : Type 0 where
  pub allocation : NodeCidrAllocations
  pub patches : List (String × String)
  pub failure : Option String

abbrev pub nonempty : Option String → Option String
nonempty none = none
nonempty (some s) = if str_eq s "" then none else some s

abbrev pub only_cidr : Option (List String) → String → Bool
only_cidr (some (c ∷ [])) cidr = str_eq c cidr
only_cidr _ cidr = false

abbrev pub fail : String → Pass → Pass
fail e p = record p { failure = some e }

module _ (ip : IpNet) (accepts : ℕ → Bool) where
  -- `allocation.reserve(..)?`
  abbrev pub reserved : R Bool × NodeCidrAllocations → Pass → Pass
  reserved (ok fresh, a) p = record p { allocation = a }
  reserved (err e, a) p = fail e p

  -- The patch and the reservation after it.
  abbrev pub patch : ℕ → String → String → Pass → Pass
  patch i name cidr p =
      if accepts i
      then reserved (reserve ip name cidr p.allocation)
          (record p { patches = (name, cidr) ∷ p.patches })
      else fail "node CIDR controller API request" p

  abbrev pub patch_changed : ℕ → Node → String → String → Pass → Pass
  patch_changed i node name cidr p =
      if only_cidr node.pod_cidrs cidr then p else patch i name cidr p

  abbrev pub existing_step : ℕ → Node → String → String → R Bool × NodeCidrAllocations → Pass → Pass
  existing_step i node name cidr (err e, a) p = fail e p
  existing_step i node name cidr (ok fresh, a) p =
      patch_changed i node name cidr (record p { allocation = a })

  abbrev pub chosen_step : ℕ → String → R String → Pass → Pass
  chosen_step i name (err e) p = fail e p
  chosen_step i name (ok cidr) p = patch i name cidr p

  abbrev pub named_step : ℕ → Node → String → Option String → Pass → Pass
  named_step i node name (some cidr) p =
      existing_step i node name cidr (reserve ip name cidr p.allocation) p
  named_step i node name none p = chosen_step i name (next ip name p.allocation) p

  abbrev pub identified_step :
      ℕ → Node → Option String → Option String → Option String → Pass → Pass
  identified_step i node none uid rv p = fail "Node name missing" p
  identified_step i node (some name) none rv p = fail "Node UID missing" p
  identified_step i node (some name) (some uid) none p = fail "Node resourceVersion missing" p
  identified_step i node (some name) (some uid) (some rv) p =
      named_step i node name (nonempty node.pod_cidr) p

  -- One Node.
  unfoldable pub node_step : ℕ → Node → Pass → Pass
  node_step i node p =
      if node.deleting then p else identified_step i node node.name node.uid node.resource_version p

  abbrev pub go_on : Option String → Pass → Pass → Pass
  go_on none p rest = rest
  go_on (some e) p rest = p

  -- The loop: it ends at the first failure.
  abbrev pub node_steps : ℕ → List Node → Pass → Pass
  node_steps i [] p = p
  node_steps i (n ∷ ns) p =
      let q = node_step i n p in let rest = node_steps (suc i) ns q in go_on q.failure q rest

  abbrev pub incomplete : Option String → List Node → Bool
  incomplete token nodes = elim (nonempty token) [ none ↦ ltb 4096 (length nodes) | some t ↦ true ]

  abbrev pub validated : R (Unit {0}) → Option String → List Node → Pass → Pass
  validated (err e) token nodes p = fail e p
  validated (ok u) token nodes p =
      if incomplete token nodes
      then fail "node CIDR controller requires a complete bounded Node snapshot" p
      else node_steps 0 nodes p

  abbrev pub begin : NodeCidrAllocations → Pass
  begin a = record { allocation = a; patches = []; failure = none }

  unfoldable pub node_cidrs_once : NodeCidrAllocations → Option String → List Node → Pass
  node_cidrs_once a token nodes = validated (validate ip a) token nodes (begin a)
