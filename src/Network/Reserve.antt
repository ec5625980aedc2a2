-- ===== src/Network/Reserve.antt =====
-- crates/h3s-api/src/network.rs: the reservations stay a one-to-one map from valid names to subnets
-- of the pool, and none is ever changed.
use hedronetes_h3s.Prelude.{
  String, List, [], ◌∷◌, Bool, true, false, ◌≡◌, ◌≢◌, refl, sym, ap, ◌∙◌, subst, ◌⊎◌, inl, inr,
  none, some, str_eq, str_eq_refl, eq_iff, text_lt, arith, In, here, there, In-uncons, In→any,
  Bool-cases, Option-cases, false≢true, ok, err,
}
use hedronetes_h3s.Network.Names.{valid_node_name}
use hedronetes_h3s.Network.Allocations.{
  IpNet, NodeCidrAllocations, get, insert_name, has_value, R, pool, subnet, reserve,
}

get-insert_name :
    (name c : String) (es : List (String × String)) → get name (insert_name name c es) ≡ some c
get-insert_name name c [] = rw (str_eq_refl name) refl
get-insert_name name c ((n, d) ∷ es) = elim (Bool-cases (str_eq n name)) [
  | inl e ↦ rw (e, e) refl
  | inr e ↦ elim (Bool-cases (text_lt name n)) [
    | inl l ↦ rw (e, l, str_eq_refl name) refl
    | inr l ↦ rw (e, l, e) (get-insert_name name c es)
  ]
]

get_other :
    (name m c : String) (es : List (String × String))
    → str_eq name m ≡ false
    → get m (insert_name name c es) ≡ get m es
get_other name m c [] h = rw h refl
get_other name m c ((n, d) ∷ es) h = elim (Bool-cases (str_eq n name)) [
  | inl e ↦
      let g : str_eq n m ≡ false = ap (λ t. str_eq t m) ((eq_iff n name).0 e) ∙ h in rw (e, g) refl
  | inr e ↦ elim (Bool-cases (text_lt name n)) [
    | inl l ↦ rw (e, l, h) refl
    | inr l ↦ elim (Bool-cases (str_eq n m)) [
      | inl k ↦ rw (e, l, k) refl
      | inr k ↦ rw (e, l, k) (get_other name m c es h)
    ]
  ]
]

In-insert_name :
    (name c : String) (es : List (String × String)) (x : String × String)
    → In x (insert_name name c es)
    → ((name, c) ≡ x) ⊎ In x es
In-insert_name name c [] x m = elim (In-uncons m) [ inl e ↦ inl e | inr k ↦ elim k [ ] ]
In-insert_name name c ((n, d) ∷ es) x m = elim (Bool-cases (str_eq n name)) [
  | inl e ↦ elim (In-uncons (rw e at m)) [
    | inl g ↦ inl (ap (λ t. (t, c)) (sym ((eq_iff n name).0 e)) ∙ g)
    | inr k ↦ inr (there k)
  ]
  | inr e ↦ elim (Bool-cases (text_lt name n)) [
    | inl l ↦ elim (In-uncons (rw (e, l) at m)) [ inl g ↦ inl g | inr k ↦ inr k ]
    | inr l ↦ elim (In-uncons (rw (e, l) at m)) [
      | inl g ↦ inr (here g)
      | inr k ↦ elim (In-insert_name name c es x k) [ inl g ↦ inl g | inr w ↦ inr (there w) ]
    ]
  ]
]

pub get→In :
    (name c : String) (es : List (String × String)) → get name es ≡ some c → In (name, c) es
get→In name c [] h = absurd (ground arith)
get→In name c ((n, d) ∷ es) h = elim (Bool-cases (str_eq n name)) [
  | inl e ↦
      let g : d ≡ c = ground arith in
      here (ap (λ t. (t, d)) ((eq_iff n name).0 e) ∙ ap (λ t. (name, t)) g)
  | inr e ↦ there (get→In name c es (rw e at h))
]

In→get : (name c : String) (es : List (String × String)) → In (name, c) es → get name es ≢ none
In→get name c [] m h = elim m [ ]
In→get name c ((n, d) ∷ es) m h = elim (In-uncons m) [
  | inl e ↦ let g = (eq_iff n name).1 (ap (λ x. x.0) e) in absurd (ground arith)
  | inr k ↦ elim (Bool-cases (str_eq n name)) [
    | inl e ↦ absurd (ground arith)
    | inr e ↦ In→get name c es k (rw e at h)
  ]
]

In→has_value :
    (name c : String) (es : List (String × String)) → In (name, c) es → has_value c es ≡ true
In→has_value name c es m = In→any (λ e. str_eq e.1 c) (name, c) es m (str_eq_refl c)

pub Result-cases : {A : Type 0} (r : R A) → ((e : String) × (r ≡ err e)) ⊎ ((x : A) × (r ≡ ok x))
Result-cases (err e) = inl (e, refl)
Result-cases (ok x) = inr (x, refl)

module _ (ip : IpNet) where
  -- Every reservation is of a valid name for a subnet of the pool, and no name or subnet is in two.
  pub record IsAllocated (a : NodeCidrAllocations) : Type 0 where
    pub named : (name c : String) → In (name, c) a.reservations → valid_node_name name ≡ true
    pub within :
        (name c : String) → In (name, c) a.reservations → (s : ip.Net) × (subnet ip a c ≡ ok s)
    pub one_subnet :
        (name c d : String) → In (name, c) a.reservations → In (name, d) a.reservations → c ≡ d
    pub one_name :
        (name m c : String) → In (name, c) a.reservations → In (m, c) a.reservations → name ≡ m

  -- What a call of reserve that succeeds has gone through.
  data Reserved (name cidr : String) (a b : NodeCidrAllocations) (fresh : Bool) : Type 0 where
    known :
        fresh ≡ false → b ≡ a → get name a.reservations ≡ some cidr → Reserved name cidr a b fresh
    added :
        fresh ≡ true
        → b ≡ record a { reservations = insert_name name cidr a.reservations }
        → valid_node_name name ≡ true
        → (s : ip.Net) × (subnet ip a cidr ≡ ok s)
        → get name a.reservations ≡ none
        → has_value cidr a.reservations ≡ false
        → Reserved name cidr a b fresh

  reserve-Reserved :
      (name cidr : String) (a : NodeCidrAllocations) (fresh : Bool)
      → (reserve ip name cidr a).0 ≡ ok fresh
      → Reserved name cidr a (reserve ip name cidr a).1 fresh
  unfolding reserve
  reserve-Reserved name cidr a fresh h = elim (Bool-cases (valid_node_name name)) [
    | inr v ↦ absurd (ground arith)
    | inl v ↦ elim (Result-cases (subnet ip a cidr)) [
      | inl (e, s) ↦ absurd (ground arith)
      | inr (n, s) ↦ elim (Option-cases (get name a.reservations)) [
        | inr (old, g) ↦
            let q : str_eq old cidr ≡ true = ground arith in
            let f : fresh ≡ false = ground arith in
            known f (rw (v, s, g) refl) (g ∙ ap some ((eq_iff old cidr).0 q))
        | inl g ↦
            let q : has_value cidr a.reservations ≡ false = ground arith in
            let f : fresh ≡ true = ground arith in added f (rw (v, s, g, q) refl) v (n, s) g q
      ]
    ]
  ]

  same_subnet :
      (a : NodeCidrAllocations) (es : List (String × String)) (c : String)
      → subnet ip (record a { reservations = es }) c ≡ subnet ip a c
  unfolding subnet pool
  same_subnet a es c = refl

  added-IsAllocated :
      (name cidr : String) (a : NodeCidrAllocations)
      → valid_node_name name ≡ true
      → (s : ip.Net) × (subnet ip a cidr ≡ ok s)
      → get name a.reservations ≡ none
      → has_value cidr a.reservations ≡ false
      → IsAllocated a
      → IsAllocated (record a { reservations = insert_name name cidr a.reservations })
  added-IsAllocated name cidr a v s g q i =
      let es = a.reservations in
      let split = λ (x : String × String) (m : In x (insert_name name cidr es)).
        In-insert_name name cidr es x m in
      record {
        named = λ n c m. elim (split (n, c) m) [
          | inl e ↦ subst (λ t. valid_node_name t ≡ true) (ap (λ x. x.0) e) v
          | inr k ↦ i.named n c k
        ];
        within = λ n c m. elim (split (n, c) m) [
          | inl e ↦ (
            s.0,
            same_subnet a (insert_name name cidr es) c
                ∙ ap (subnet ip a) (sym (ap (λ x. x.1) e))
                ∙ s.1,
          )
          | inr k ↦
              let (t, w) = i.within n c k in (t, same_subnet a (insert_name name cidr es) c ∙ w)
        ];
        one_subnet = λ n c d m k. elim (split (n, c) m) [
          | inl e ↦ elim (split (n, d) k) [
            | inl f ↦ sym (ap (λ x. x.1) e) ∙ ap (λ x. x.1) f
            | inr f ↦ absurd (In→get n d es f (subst (λ t. get t es ≡ none) (ap (λ x. x.0) e) g))
          ]
          | inr e ↦ elim (split (n, d) k) [
            | inl f ↦ absurd (In→get n c es e (subst (λ t. get t es ≡ none) (ap (λ x. x.0) f) g))
            | inr f ↦ i.one_subnet n c d e f
          ]
        ];
        one_name = λ n m c x y. elim (split (n, c) x) [
          | inl e ↦ elim (split (m, c) y) [
            | inl f ↦ sym (ap (λ z. z.0) e) ∙ ap (λ z. z.0) f
            | inr f ↦ absurd (
                false≢true
                  (sym q ∙ ap (λ t. has_value t es) (ap (λ z. z.1) e) ∙ In→has_value m c es f))
          ]
          | inr e ↦ elim (split (m, c) y) [
            | inl f ↦ absurd (
                false≢true
                  (sym q ∙ ap (λ t. has_value t es) (ap (λ z. z.1) f) ∙ In→has_value n c es e))
            | inr f ↦ i.one_name n m c e f
          ]
        ];
      }

  keeps :
      (name cidr m d : String) (a : NodeCidrAllocations)
      → get name a.reservations ≡ none
      → get m a.reservations ≡ some d
      → get m (insert_name name cidr a.reservations) ≡ some d
  keeps name cidr m d a g h = elim (Bool-cases (str_eq name m)) [
    | inl e ↦
        let q : get m a.reservations ≡ none =
          subst (λ t. get t a.reservations ≡ none) ((eq_iff name m).0 e) g in
        absurd (ground arith)
    | inr e ↦ get_other name m cidr a.reservations e ∙ h
  ]

  -- What a reservation that succeeds has brought about.
  pub record IsReserved (name cidr : String) (a b : NodeCidrAllocations) : Type 0 where
    pub allocated : IsAllocated b
    pub holds : get name b.reservations ≡ some cidr
    pub immutable : (m d : String) → get m a.reservations ≡ some d → get m b.reservations ≡ some d

  Reserved-IsReserved :
      (name cidr : String) (a b : NodeCidrAllocations) (fresh : Bool)
      → IsAllocated a
      → Reserved name cidr a b fresh
      → IsReserved name cidr a b
  Reserved-IsReserved name cidr a b fresh i (known f e g) =
      subst (IsReserved name cidr a) (sym e)
        (record { allocated = i; holds = g; immutable = λ m d h. h })
  Reserved-IsReserved name cidr a b fresh i (added f e v s g q) =
      subst (IsReserved name cidr a) (sym e) (record {
        allocated = added-IsAllocated name cidr a v s g q i;
        holds = get-insert_name name cidr a.reservations;
        immutable = λ m d h. keeps name cidr m d a g h;
      })

-- A reservation that succeeds keeps the reservations a one-to-one map from valid names to subnets of
-- the pool, the name then holds the CIDR, and no reservation there was is changed.
pub reserve-IsReserved :
    (ip : IpNet) (name cidr : String) (a : NodeCidrAllocations) (fresh : Bool)
    → IsAllocated ip a
    → (reserve ip name cidr a).0 ≡ ok fresh
    → IsReserved ip name cidr a (reserve ip name cidr a).1
reserve-IsReserved ip name cidr a fresh i h =
    Reserved-IsReserved ip name cidr a (reserve ip name cidr a).1 fresh i
      (reserve-Reserved ip name cidr a fresh h)
