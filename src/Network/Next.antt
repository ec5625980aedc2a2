-- ===== src/Network/Next.antt =====
-- crates/h3s-api/src/network.rs: what `next` proposes can be reserved.
use hedronetes_h3s.Prelude.{
  ℕ, String, List, [], ◌∷◌, Bool, true, false, ◌≡◌, refl, sym, ap, ◌∙◌, subst, ◌⊎◌, inl, inr, none,
  some, ==_iff, find, find→In, map, str_eq_refl, arith, In, here, there, Option-cases, not-eq-true,
  ok, ok_or,
}
use hedronetes_h3s.Prelude.Results.{◌>>=◌, >>=-eq-ok}
use hedronetes_h3s.Network.Names.{valid_node_name}
use hedronetes_h3s.Network.Allocations.{
  IpNet, NodeCidrAllocations, get, has_value, pool, subnet, reserve, next, next_free, free,
  validate, exhausted,
}
use hedronetes_h3s.Network.Reserve.{IsAllocated, get→In}

-- What ipnet documents of the subnets of a network: each has the prefix that was asked for and no
-- host bits, lies in the network, and reads back from its text.
pub record IsSubnetting (ip : IpNet) : Type 0 where
  pub pieces :
      (p : ip.Net) (prefix : ℕ) (nets : List ip.Net)
      → ip.subnets p prefix ≡ some nets
      → (n : ip.Net) → In n nets
      → (ip.parse (ip.show n) ≡ some n)
        × (ip.prefix_len n ≡ prefix)
        × (ip.addr n ≡ ip.network n)
        × (ip.contains p (ip.network n) ≡ true)

In-map :
    {A : Type 0} (f : A → String) (xs : List A) (y : String)
    → In y (map f xs)
    → (x : A) × In x xs × (f x ≡ y)
In-map f [] y m = elim m [ ]
In-map f (x ∷ xs) y (here e) = (x, here refl, e)
In-map f (x ∷ xs) y (there m) = let (z, k, e) = In-map f xs y m in (z, there k, e)

module _ (ip : IpNet) (law : IsSubnetting ip) (a : NodeCidrAllocations) where
  piece-subnet :
      (p : ip.Net) (nets : List ip.Net) (n : ip.Net)
      → pool ip a ≡ ok p
      → ip.subnets p a.node_prefix ≡ some nets
      → In n nets
      → subnet ip a (ip.show n) ≡ ok n
  unfolding subnet
  piece-subnet p nets n e s m =
      let (r, l, d, c) = law.pieces p a.node_prefix nets s n m in
      let l1 = (==_iff (ip.prefix_len n) a.node_prefix).1 l in
      let d1 = (==_iff (ip.addr n) (ip.network n)).1 d in
      rw (r, l1, d1, str_eq_refl (ip.show n), e, c) refl

  -- A proposal that is not the name's own is a subnet that nobody holds.
  pub data IsProposal (name cidr : String) : Type 0 where
    own : get name a.reservations ≡ some cidr → IsProposal name cidr
    unused :
        get name a.reservations ≡ none
        → has_value cidr a.reservations ≡ false
        → (n : ip.Net) × (subnet ip a cidr ≡ ok n)
        → IsProposal name cidr

  next-IsProposal : (name cidr : String) → next ip name a ≡ ok cidr → IsProposal name cidr
  unfolding next
  next-IsProposal name cidr h =
      let (u, v, h1) =
        >>=-eq-ok (validate ip a) (λ _. next_free ip a (get name a.reservations)) h in
      elim (Option-cases (get name a.reservations)) [
        | inr (c, g) ↦ let e : c ≡ cidr = ground arith in own (g ∙ ap some e)
        | inl g ↦
            let h2 : next_free ip a none ≡ ok cidr = ap (next_free ip a) (sym g) ∙ h1 in
            let (p, ep, h3) =
              >>=-eq-ok (pool ip a)
                (λ p. ok_or (ip.subnets p a.node_prefix) "invalid node prefix" >>= λ nets.
                  ok_or (find (free ip a) (map ip.show nets)) exhausted)
                h2 in
            let (nets, en, h4) =
              >>=-eq-ok (ok_or (ip.subnets p a.node_prefix) "invalid node prefix")
                (λ nets. ok_or (find (free ip a) (map ip.show nets)) exhausted) h3 in
            let s : ip.subnets p a.node_prefix ≡ some nets = ground arith in
            let f : find (free ip a) (map ip.show nets) ≡ some cidr = ground arith in
            let (m, t) = find→In (free ip a) (map ip.show nets) cidr f in
            let (n, k, e) = In-map ip.show nets cidr m in
            unused g (not-eq-true (has_value cidr a.reservations) t)
              (n, subst (λ c. subnet ip a c ≡ ok n) e (piece-subnet p nets n ep s k))
      ]

  proposal-reserve :
      (name cidr : String)
      → IsAllocated ip a
      → valid_node_name name ≡ true
      → IsProposal name cidr
      → (fresh : Bool) × ((reserve ip name cidr a).0 ≡ ok fresh)
  unfolding reserve
  proposal-reserve name cidr i v (own g) =
      let (s, w) = i.within name cidr (get→In name cidr a.reservations g) in
      (false, rw (v, w, g, str_eq_refl cidr) refl)
  proposal-reserve name cidr i v (unused g f (n, w)) = (true, rw (v, w, g, f) refl)

-- A CIDR that `next` proposes for a valid name is the one the name holds, or a subnet of the pool
-- that nobody holds, and reserving it succeeds.
pub next-reserve :
    (ip : IpNet) (a : NodeCidrAllocations) (name cidr : String)
    → IsSubnetting ip
    → IsAllocated ip a
    → valid_node_name name ≡ true
    → next ip name a ≡ ok cidr
    → ((get name a.reservations ≡ some cidr) ⊎ (has_value cidr a.reservations ≡ false))
      × ((fresh : Bool) × ((reserve ip name cidr a).0 ≡ ok fresh))
next-reserve ip a name cidr law i v h =
    let p = next-IsProposal ip law a name cidr h in
    (elim p [ own g ↦ inl g | unused g f s ↦ inr f ], proposal-reserve ip law a name cidr i v p)
