-- ===== src/Network/Tests.antt =====
-- crates/h3s-api/src/network.rs: its test of a pool of two subnets, over a table of networks in the
-- place of ipnet, and runs of the theorems.
use hedronetes_h3s.Prelude.{
  ℕ, ◌+◌, ◌-◌, ◌^◌, String, List, [], ◌∷◌, Bool, true, false, ◌&&◌, ◌≡◌, refl, sym, ◌⊎◌, inl, inr,
  subst, none, some, if◌then◌else◌, leb, ltb, ◌==◌, ==_iff, keep, keep→In, find, str_eq,
  and-eq-true, arith, ok, err, In, In-uncons, text_lt,
}
use hedronetes_h3s.Network.Names.{valid_node_name}
use hedronetes_h3s.Network.Allocations.{
  IpNet, NodeCidrAllocations, get, has_value, pool, subnet, validate, new, reserve, next,
}
use hedronetes_h3s.Network.Reserve.{IsAllocated, IsReserved, reserve-IsReserved}
use hedronetes_h3s.Network.Controller.{Node, Pass, node_cidrs_once, node_step}
use hedronetes_h3s.Network.Assigned.{IsHeld, HasOwnCidrs, node_cidrs_once-IsHeld}
use hedronetes_h3s.Network.Next.{IsSubnetting, next-reserve}

pub record Block : Type 0 where
  pub text : String
  pub start : ℕ
  pub prefix : ℕ

abbrev size : Block → ℕ
size b = 2 ^ (32 - b.prefix)

abbrev whole_pool : Block
whole_pool = record { text = "10.42.0.0/23"; start = 170524672; prefix = 23 }

abbrev pub first_half : Block
first_half = record { text = "10.42.0.0/24"; start = 170524672; prefix = 24 }

abbrev second_half : Block
second_half = record { text = "10.42.1.0/24"; start = 170524928; prefix = 24 }

abbrev pub service_block : Block
service_block = record { text = "10.43.0.0/16"; start = 170590208; prefix = 16 }

abbrev table : List Block
table = whole_pool ∷ first_half ∷ second_half ∷ service_block ∷ []

abbrev covers : Block → ℕ → Bool
covers b a = leb b.start a && ltb a (b.start + size b)

abbrev piece_of : Block → ℕ → Block → Bool
piece_of b prefix c = c.prefix == prefix && covers b c.start

abbrev pub blocks : IpNet
blocks = record {
  Net = Block;
  parse = λ s. find (λ b. str_eq b.text s) table;
  show = λ b. b.text;
  addr = λ b. b.start;
  network = λ b. b.start;
  broadcast = λ b. b.start + size b - 1;
  prefix_len = λ b. b.prefix;
  contains = covers;
  same = λ b c. b.start == c.start && b.prefix == c.prefix;
  subnets = λ b prefix. if ltb prefix b.prefix then none else some (keep (piece_of b prefix) table);
}

read_back : (n : Block) → In n table → find (λ b. str_eq b.text n.text) table ≡ some n
read_back n m = elim (In-uncons m) [
  | inl e ↦ subst (λ b. find (λ c. str_eq c.text b.text) table ≡ some b) e refl
  | inr m1 ↦ elim (In-uncons m1) [
    | inl e ↦ subst (λ b. find (λ c. str_eq c.text b.text) table ≡ some b) e refl
    | inr m2 ↦ elim (In-uncons m2) [
      | inl e ↦ subst (λ b. find (λ c. str_eq c.text b.text) table ≡ some b) e refl
      | inr m3 ↦ elim (In-uncons m3) [
        | inl e ↦ subst (λ b. find (λ c. str_eq c.text b.text) table ≡ some b) e refl
        | inr m4 ↦ elim m4 [ ]
      ]
    ]
  ]
]

blocks-IsSubnetting : IsSubnetting blocks
blocks-IsSubnetting = record {
  pieces = λ p prefix nets e n m.
      let g : keep (piece_of p prefix) table ≡ nets = ground arith in
      let (k, t) = keep→In (piece_of p prefix) table n (subst (λ l. In n l) (sym g) m) in
      let (a, b) = and-eq-true (n.prefix == prefix) (covers p n.start) t in
      (read_back n k, (==_iff n.prefix prefix).0 a, refl, b);
}

abbrev empty : NodeCidrAllocations
empty = record { version = 1; cluster_cidr = "10.42.0.0/23"; node_prefix = 24; reservations = [] }

abbrev one : NodeCidrAllocations
one = record empty { reservations = ("a", "10.42.0.0/24") ∷ [] }

fresh_pool : new blocks "10.42.0.0/23" 24 ≡ ok empty
unfolding new validate pool
fresh_pool = refl

next_first : next blocks "a" empty ≡ ok "10.42.0.0/24"
unfolding next validate pool
next_first = refl

next_second : next blocks "b" one ≡ ok "10.42.1.0/24"
unfolding next validate pool subnet valid_node_name
next_second = refl

taken : (reserve blocks "b" "10.42.0.0/24" one).0 ≡ err "node CIDR is reserved by another node"
unfolding reserve subnet pool valid_node_name
taken = refl

immutable : (reserve blocks "a" "10.42.1.0/24" one).0 ≡ err "node CIDR reservation is immutable"
unfolding reserve subnet pool valid_node_name
immutable = refl

reserved : (reserve blocks "a" "10.42.0.0/24" empty).0 ≡ ok true
unfolding reserve subnet pool valid_node_name
reserved = refl

empty-IsAllocated : IsAllocated blocks empty
empty-IsAllocated = record {
  named = λ n c m. elim m [ ];
  within = λ n c m. elim m [ ];
  one_subnet = λ n c d m k. elim m [ ];
  one_name = λ n m c x y. elim x [ ];
}

reserve-IsReserved_example :
    IsReserved blocks "a" "10.42.0.0/24" empty (reserve blocks "a" "10.42.0.0/24" empty).1
reserve-IsReserved_example =
    reserve-IsReserved blocks "a" "10.42.0.0/24" empty true empty-IsAllocated reserved

valid_a : valid_node_name "a" ≡ true
unfolding valid_node_name
valid_a = refl

next-reserve_example :
    ((get "a" empty.reservations ≡ some "10.42.0.0/24")
      ⊎ (has_value "10.42.0.0/24" empty.reservations ≡ false))
    × ((fresh : Bool) × ((reserve blocks "a" "10.42.0.0/24" empty).0 ≡ ok fresh))
next-reserve_example =
    next-reserve blocks empty "a" "10.42.0.0/24" blocks-IsSubnetting empty-IsAllocated valid_a
      next_first

abbrev fresh_node : String → Node
fresh_node name = record {
  deleting = false;
  name = some name;
  uid = some "u";
  resource_version = some "1";
  pod_cidr = none;
  pod_cidrs = none;
}

abbrev pass_over_two : Pass
pass_over_two = node_cidrs_once blocks (λ i. true) empty none (fresh_node "a" ∷ fresh_node "b" ∷ [])

two_assigned : pass_over_two.patches ≡ ("b", "10.42.1.0/24") ∷ ("a", "10.42.0.0/24") ∷ []
unfolding node_cidrs_once node_step validate pool subnet reserve next valid_node_name text_lt
two_assigned = refl

no_failure : pass_over_two.failure ≡ none
unfolding node_cidrs_once node_step validate pool subnet reserve next valid_node_name text_lt
no_failure = refl

node_cidrs_once-IsHeld_example :
    IsAllocated blocks pass_over_two.allocation × IsHeld pass_over_two × HasOwnCidrs pass_over_two
node_cidrs_once-IsHeld_example =
    node_cidrs_once-IsHeld blocks (λ i. true) empty none (fresh_node "a" ∷ fresh_node "b" ∷ [])
      empty-IsAllocated no_failure
