-- ===== src/Network/Assigned.antt =====
-- crates/h3s-controllers/src/node_cidrs.rs: what a pass over the Nodes assigns.
use hedronetes_h3s.Prelude.{
  ℕ, suc, String, List, [], ◌∷◌, Bool, ◌≡◌, refl, sym, ap, ◌∙◌, subst, inl, inr, Option, none, some,
  In, In-uncons, Bool-cases, ok, err,
}
use hedronetes_h3s.Network.Allocations.{IpNet, NodeCidrAllocations, R, get, reserve, next, validate}
use hedronetes_h3s.Network.Reserve.{IsAllocated, IsReserved, reserve-IsReserved, get→In}
use hedronetes_h3s.Network.Controller.{
  Node, Pass, nonempty, fail, only_cidr, reserved, patch, patch_changed, existing_step, chosen_step,
  named_step, identified_step, node_step, go_on, node_steps, incomplete, validated, begin,
  node_cidrs_once,
}

-- Every patch is a reservation.
abbrev pub IsHeld : Pass → Type 0
IsHeld p = (n c : String) → In (n, c) p.patches → get n p.allocation.reservations ≡ some c

-- What a pass keeps: the allocations are in order, and unless it has failed its patches are reserved.
record IsKept (ip : IpNet) (p : Pass) : Type 0 where
  allocated : IsAllocated ip p.allocation
  held : p.failure ≡ none → IsHeld p

module _ (ip : IpNet) (accepts : ℕ → Bool) where
  fail-IsKept : (e : String) (p : Pass) → IsKept ip p → IsKept ip (fail e p)
  fail-IsKept e p k = record { allocated = k.allocated; held = λ n. absurd (cc) }

  pair-IsReserved :
      (name cidr : String) (a b : NodeCidrAllocations) (fresh : Bool)
      → IsAllocated ip a
      → reserve ip name cidr a ≡ (ok fresh, b)
      → IsReserved ip name cidr a b
  pair-IsReserved name cidr a b fresh i e =
      subst (IsReserved ip name cidr a) (ap (λ x. x.1) e)
        (reserve-IsReserved ip name cidr a fresh i (ap (λ x. x.0) e))

  still_held :
      (name cidr : String) (p : Pass) (b : NodeCidrAllocations)
      → IsReserved ip name cidr p.allocation b
      → IsHeld p
      → (n c : String) → In (n, c) ((name, cidr) ∷ p.patches)
      → get n b.reservations ≡ some c
  still_held name cidr p b r h n c m = elim (In-uncons m) [
    | inl e ↦
        ap (λ t. get t b.reservations) (sym (ap (λ x. x.0) e)) ∙ r.holds ∙ ap some (ap (λ x. x.1) e)
    | inr k ↦ r.immutable n c (h n c k)
  ]

  patch_reserved :
      (name cidr : String) (p : Pass) (x : R Bool × NodeCidrAllocations)
      → reserve ip name cidr p.allocation ≡ x
      → p.failure ≡ none
      → IsKept ip p
      → IsKept ip (reserved ip accepts x (record p { patches = (name, cidr) ∷ p.patches }))
  patch_reserved name cidr p (err e, a) q f k = record {
    allocated = k.allocated;
    held = λ n. absurd (cc);
  }
  patch_reserved name cidr p (ok fresh, a) q f k =
      let r = pair-IsReserved name cidr p.allocation a fresh k.allocated q in
      record { allocated = r.allocated; held = λ n. still_held name cidr p a r (k.held f) }

  patch-IsKept :
      (i : ℕ) (name cidr : String) (p : Pass)
      → p.failure ≡ none
      → IsKept ip p
      → IsKept ip (patch ip accepts i name cidr p)
  patch-IsKept i name cidr p f k = elim (Bool-cases (accepts i)) [
    | inl e ↦ rw e (patch_reserved name cidr p (reserve ip name cidr p.allocation) refl f k)
    | inr e ↦ rw e (fail-IsKept "node CIDR controller API request" p k)
  ]

  changed-IsKept :
      (i : ℕ) (node : Node) (name cidr : String) (p : Pass)
      → p.failure ≡ none
      → IsKept ip p
      → IsKept ip (patch_changed ip accepts i node name cidr p)
  changed-IsKept i node name cidr p f k = elim (Bool-cases (only_cidr node.pod_cidrs cidr)) [
    | inl e ↦ rw e k
    | inr e ↦ rw e (patch-IsKept i name cidr p f k)
  ]

  existing-IsKept :
      (i : ℕ) (node : Node) (name cidr : String) (x : R Bool × NodeCidrAllocations) (p : Pass)
      → reserve ip name cidr p.allocation ≡ x
      → p.failure ≡ none
      → IsKept ip p
      → IsKept ip (existing_step ip accepts i node name cidr x p)
  existing-IsKept i node name cidr (err e, a) p q f k = fail-IsKept e p k
  existing-IsKept i node name cidr (ok fresh, a) p q f k =
      let r = pair-IsReserved name cidr p.allocation a fresh k.allocated q in
      changed-IsKept i node name cidr (record p { allocation = a }) f
        (record { allocated = r.allocated; held = λ n. λ m c y. r.immutable m c (k.held f m c y) })

  chosen-IsKept :
      (i : ℕ) (name : String) (x : R String) (p : Pass)
      → p.failure ≡ none
      → IsKept ip p
      → IsKept ip (chosen_step ip accepts i name x p)
  chosen-IsKept i name (err e) p f k = fail-IsKept e p k
  chosen-IsKept i name (ok cidr) p f k = patch-IsKept i name cidr p f k

  named-IsKept :
      (i : ℕ) (node : Node) (name : String) (cidr : Option String) (p : Pass)
      → p.failure ≡ none
      → IsKept ip p
      → IsKept ip (named_step ip accepts i node name cidr p)
  named-IsKept i node name (some cidr) p f k =
      existing-IsKept i node name cidr (reserve ip name cidr p.allocation) p refl f k
  named-IsKept i node name none p f k = chosen-IsKept i name (next ip name p.allocation) p f k

  identified-IsKept :
      (i : ℕ) (node : Node) (name uid rv : Option String) (p : Pass)
      → p.failure ≡ none
      → IsKept ip p
      → IsKept ip (identified_step ip accepts i node name uid rv p)
  identified-IsKept i node none uid rv p f k = fail-IsKept "Node name missing" p k
  identified-IsKept i node (some name) none rv p f k = fail-IsKept "Node UID missing" p k
  identified-IsKept i node (some name) (some uid) none p f k =
      fail-IsKept "Node resourceVersion missing" p k
  identified-IsKept i node (some name) (some uid) (some rv) p f k =
      named-IsKept i node name (nonempty node.pod_cidr) p f k

  step-IsKept :
      (i : ℕ) (node : Node) (p : Pass)
      → p.failure ≡ none
      → IsKept ip p
      → IsKept ip (node_step ip accepts i node p)
  unfolding node_step
  step-IsKept i node p f k = elim (Bool-cases node.deleting) [
    | inl e ↦ rw e k
    | inr e ↦ rw e (identified-IsKept i node node.name node.uid node.resource_version p f k)
  ]

  go_on-IsKept :
      (f : Option String) (q rest : Pass)
      → q.failure ≡ f
      → IsKept ip q
      → (q.failure ≡ none → IsKept ip rest)
      → IsKept ip (go_on ip accepts f q rest)
  go_on-IsKept none q rest e k r = r e
  go_on-IsKept (some x) q rest e k r = k

  steps-IsKept :
      (i : ℕ) (nodes : List Node) (p : Pass)
      → p.failure ≡ none
      → IsKept ip p
      → IsKept ip (node_steps ip accepts i nodes p)
  steps-IsKept i [] p f k = k
  steps-IsKept i (n ∷ ns) p f k =
      let q = node_step ip accepts i n p in
      go_on-IsKept q.failure q (node_steps ip accepts (suc i) ns q) refl (step-IsKept i n p f k)
        (λ g. steps-IsKept (suc i) ns q g (step-IsKept i n p f k))

  validated-IsKept :
      (x : R (Unit {0})) (token : Option String) (nodes : List Node) (p : Pass)
      → p.failure ≡ none
      → IsKept ip p
      → IsKept ip (validated ip accepts x token nodes p)
  validated-IsKept (err e) token nodes p f k = fail-IsKept e p k
  validated-IsKept (ok u) token nodes p f k =
      elim (Bool-cases (incomplete ip accepts token nodes)) [
        | inl e ↦
            rw e (fail-IsKept "node CIDR controller requires a complete bounded Node snapshot" p k)
        | inr e ↦ rw e (steps-IsKept 0 nodes p f k)
      ]

  once-IsKept :
      (a : NodeCidrAllocations) (token : Option String) (nodes : List Node)
      → IsAllocated ip a
      → IsKept ip (node_cidrs_once ip accepts a token nodes)
  unfolding node_cidrs_once
  once-IsKept a token nodes i =
      validated-IsKept (validate ip a) token nodes (begin ip accepts a) refl
        (record { allocated = i; held = λ f n c m. elim m [ ] })

-- No CIDR is in the patches of two names.
abbrev pub HasOwnCidrs : Pass → Type 0
HasOwnCidrs p = (n m c : String) → In (n, c) p.patches → In (m, c) p.patches → n ≡ m

-- A pass of the node CIDR controller that ends without a failure, whatever the API accepts, keeps
-- the allocations in order, has reserved every patch that it made under the Node's name, and has
-- given no CIDR to two names.
pub node_cidrs_once-IsHeld :
    (ip : IpNet) (accepts : ℕ → Bool) (a : NodeCidrAllocations) (token : Option String)
    (nodes : List Node)
    → IsAllocated ip a
    → (node_cidrs_once ip accepts a token nodes).failure ≡ none
    → IsAllocated ip (node_cidrs_once ip accepts a token nodes).allocation
      × IsHeld (node_cidrs_once ip accepts a token nodes)
      × HasOwnCidrs (node_cidrs_once ip accepts a token nodes)
node_cidrs_once-IsHeld ip accepts a token nodes i f =
    let k = once-IsKept ip accepts a token nodes i in
    let es = (node_cidrs_once ip accepts a token nodes).allocation.reservations in
    (
      k.allocated,
      k.held f,
      λ n m c x y.
          k.allocated.one_name n m c (get→In n c es (k.held f n c x))
            (get→In m c es (k.held f m c y)),
    )
