-- ===== src/Proxy/Exact.antt =====
-- crates/h3s-proxy/src/plan.rs: the backends of a Service port are exactly its usable endpoints.
use hedronetes_h3s.Prelude.{
  String, ℕ, List, [], Bool, false, ◌≡◌, ◌↔◌, refl, sym, ◌∙◌, subst, inl, inr, In, Bool-cases, ok,
  for_each, >>=-eq-ok, ok-injective,
}
use hedronetes_h3s.Prelude.Results.{◌>>=◌}
use hedronetes_h3s.Json.{Value, ◌!◌, elements}
use hedronetes_h3s.Proxy.Ip.{ip}
use hedronetes_h3s.Proxy.Types.{Platform, Backend, Warning, port}
use hedronetes_h3s.Proxy.Usable.{IsUsable, IsOwn, unusable_iff, foreign_iff}
use hedronetes_h3s.Proxy.Backends.{
  Port, Gathered, foreign, mismatched, add_address, unusable, add_endpoint, add_slice_port,
  add_service_slice, gather,
}
use hedronetes_h3s.Proxy.Collects.{
  Collects, insert_counted-Collects, guarded-Collects, described, for_each-Collects,
}

module _ (platform : Platform) (node_name : String) where
  -- The address gives the backend, under the port number of its slice.
  abbrev AtAddress : ℕ → Value → Backend → Type 0
  AtAddress target address b =
      (ip address ≡ ok b.ip)
      × (platform.net.contains platform.service_range b.ip ≡ false)
      × (target ≡ b.port)

  abbrev AtEndpoint : Bool → ℕ → Value → Backend → Type 0
  AtEndpoint local target endpoint b =
      IsUsable node_name local endpoint
      × ((a : Value) × In a (elements (endpoint ! "addresses")) × AtAddress target a b)

  abbrev AtSlicePort : Port → Value → Value → Backend → Type 0
  AtSlicePort p slice sp b =
      (mismatched p slice sp ≡ false)
      × ((target : ℕ) × (port (sp ! "port") ≡ ok target)
          × ((e : Value) × In e (elements (slice ! "endpoints")) × AtEndpoint p.local target e b))

  abbrev pub AtSlice : Port → Value → Backend → Type 0
  AtSlice p slice b =
      IsOwn p slice × ((sp : Value) × In sp (elements (slice ! "ports")) × AtSlicePort p slice sp b)

  address-Collects :
      (target : ℕ) (a : Value)
      → Collects (AtAddress target a) (add_address platform node_name target a)
  address-Collects target a s t h =
      let (n, e, g) = >>=-eq-ok (ip a) _ h in
      elim (Bool-cases (platform.net.contains platform.service_range n)) [
        | inl r ↦ absurd (let q = rw r at g in cc)
        | inr r ↦
            let new : Backend = record { ip = n; port = target } in
            let (add, keep, only) = insert_counted-Collects new s t (rw r at g) in
            (
              λ b y.
                  let q : n ≡ b.ip = ok-injective (sym e ∙ y.0) in
                  add b (λ i. record { ip = q i; port = y.2 i }),
              keep,
              λ b m. elim (only b m) [
                | inl q ↦ inl (subst (AtAddress target a) q (e, r, refl))
                | inr k ↦ inr k
              ],
            )
      ]

  endpoint-Collects :
      (local : Bool) (target : ℕ) (e : Value)
      → Collects (AtEndpoint local target e) (add_endpoint platform node_name local target e)
  endpoint-Collects local target e =
      let addresses = elements (e ! "addresses") in
      let Y : Backend → Type 0 = λ b. (a : Value) × In a addresses × AtAddress target a b in
      let step = for_each (add_address platform node_name target) addresses in
      let test = unusable platform node_name local e in
      described test Y (add_endpoint platform node_name local target e)
        (unusable_iff platform node_name local e)
        (guarded-Collects test Y (λ s. s) step (λ s. refl)
          (for_each-Collects (AtAddress target) (add_address platform node_name target) addresses
            (address-Collects target)))

  slice_port-Collects :
      (p : Port) (slice sp : Value)
      → Collects (AtSlicePort p slice sp) (add_slice_port platform node_name p slice sp)
  slice_port-Collects p slice sp =
      let endpoints = elements (slice ! "endpoints") in
      guarded-Collects (mismatched p slice sp)
        (λ b.
          (target : ℕ) × (port (sp ! "port") ≡ ok target)
          × ((e : Value) × In e endpoints × AtEndpoint p.local target e b))
        _
        (λ s. port (sp ! "port") >>= λ target.
          for_each (add_endpoint platform node_name p.local target) endpoints s)
        (λ s. refl) at_port
    where
      at_port :
          Collects
            (λ b.
              (target : ℕ) × (port (sp ! "port") ≡ ok target)
              × ((e : Value) × In e (elements (slice ! "endpoints"))
                  × AtEndpoint p.local target e b))
            (λ s. port (sp ! "port") >>= λ target.
              for_each
                (add_endpoint platform node_name p.local target)
                (elements (slice ! "endpoints"))
                s)
      at_port s t h =
          let (target, e, g) = >>=-eq-ok (port (sp ! "port")) _ h in
          let (add, keep, only) =
            for_each-Collects (AtEndpoint p.local target)
              (add_endpoint platform node_name p.local target) (elements (slice ! "endpoints"))
              (endpoint-Collects p.local target) s t g in
          (
            λ b y.
                let q : y.0 ≡ target = ok-injective (sym y.1 ∙ e) in
                add b (
                  subst
                    (λ n.
                      (x : Value) × In x (elements (slice ! "endpoints"))
                      × AtEndpoint p.local n x b)
                    q y.2),
            keep,
            λ b m. elim (only b m) [ inl y ↦ inl (target, e, y) | inr n ↦ inr n ],
          )

  slice_Collects :
      (p : Port) (slice : Value)
      → Collects (AtSlice p slice) (add_service_slice platform node_name p slice)
  slice_Collects p slice =
      let ports = elements (slice ! "ports") in
      let Y : Backend → Type 0 = λ b. (sp : Value) × In sp ports × AtSlicePort p slice sp b in
      let step = for_each (add_slice_port platform node_name p slice) ports in
      described (foreign p slice) Y (add_service_slice platform node_name p slice)
        (foreign_iff p slice)
        (guarded-Collects (foreign p slice) Y (λ s. s) step (λ s. refl)
          (for_each-Collects (AtSlicePort p slice) (add_slice_port platform node_name p slice) ports
            (slice_port-Collects p slice)))

  -- The backends that are gathered for a Service port are exactly the unicast addresses outside the
  -- Service range of the usable endpoints, in the slices that are not of another Service, under the
  -- port number of each slice port that fits the Service port.
  pub gather-AtSlice :
      (p : Port) (slices : List Value) (total : ℕ) (warnings : List Warning) (g : Gathered)
      (b : Backend)
      → gather platform node_name p slices
          (record { backends = []; total = total; warnings = warnings })
        ≡ ok g
      → In b g.backends ↔ ((slice : Value) × In slice slices × AtSlice p slice b)
  unfolding gather
  gather-AtSlice p slices total warnings g b h =
      let (add, keep, only) =
        for_each-Collects (AtSlice p) (add_service_slice platform node_name p) slices
          (slice_Collects p) (record { backends = []; total = total; warnings = warnings }) g h in
      (λ m. elim (only b m) [ inl y ↦ y | inr n ↦ elim n [ ] ], λ y. add b y)
