-- ===== src/Proxy/Chains.antt =====
-- crates/h3s-proxy/src/plan.rs: the text of the chains of a frontend and of its backends.
use Prim.Native.String.{len}
use hedronetes_h3s.Prelude.{
  ◌≤◌, String, List, [], ◌∷◌, false, ◌≡◌, refl, subst, inl, inr, In, ltb, arith, is_empty,
  Bool-cases, ok, for_each, for_each-inv, for_each-reaches, ok-injective,
}
use hedronetes_h3s.Proxy.Types.{Platform, nft, Backend, Frontend, show_ip, decimal}
use hedronetes_h3s.Proxy.Render.{
  max_ruleset, line, write_each, endpoint_chain, endpoint_rule, dispatch, service_chain,
  check_length,
}
use hedronetes_h3s.Proxy.Rules.{
  Grows, Has, Grows-refl, Grows-trans, Has-Grows, write_each-Grows, write_each-Has, Appends,
  line_text,
}

module _ (platform : Platform) where
  -- The packets that a backend's chain gets go to the backend.
  abbrev pub endpoint_text : Frontend → Backend → String
  endpoint_text f b = line_text (
      " chain "
      ∷ endpoint_chain platform f b
      ∷ " { meta l4proto "
      ∷ nft f.protocol
      ∷ " counter dnat to "
      ∷ show_ip b.ip
      ∷ ":"
      ∷ decimal b.port
      ∷ "; }"
      ∷ [])

  dispatch-Grows : (f : Frontend) (bs : List Backend) → Appends (dispatch platform f bs)
  dispatch-Grows f [] s = Grows-refl s
  dispatch-Grows f (b ∷ []) s = (_, refl)
  dispatch-Grows f (b ∷ c ∷ bs) s = (_, refl)

  pub check_length-eq :
      (s out : String) → check_length platform s ≡ ok out → (s ≡ out) × (len out ≤ max_ruleset)
  check_length-eq s out h = elim (Bool-cases (ltb max_ruleset (len s))) [
    | inl t ↦ absurd (let g = rw t at h in cc)
    | inr t ↦
        let same : s ≡ out = ok-injective (rw t at h) in
        let small : len s ≤ max_ruleset = ground arith in
        (same, subst (λ o. len o ≤ max_ruleset) same small)
  ]

  -- The text of a frontend's chain, before the chains of its backends
  abbrev opened_chain : Frontend → String → String
  opened_chain f s =
      line (" }" ∷ []) (dispatch platform f f.backends (line (" chain " ∷ f.id ∷ " {" ∷ []) s))

  opened_chain-Grows :
      (f : Frontend) (s : String) → Grows (line (" chain " ∷ f.id ∷ " {" ∷ []) s) (opened_chain f s)
  opened_chain-Grows f s =
      let opened = line (" chain " ∷ f.id ∷ " {" ∷ []) s in
      let dispatched = dispatch platform f f.backends opened in
      Grows-trans opened dispatched (opened_chain f s) (dispatch-Grows f f.backends opened)
        (_, refl)

  abbrev whole_chain : Frontend → String → String
  whole_chain f s = write_each (endpoint_rule platform f) f.backends (opened_chain f s)

  whole_chain-Grows : (f : Frontend) (s : String) → Grows (opened_chain f s) (whole_chain f s)
  whole_chain-Grows f s =
      write_each-Grows (endpoint_rule platform f) (λ b t. (_, refl)) f.backends (opened_chain f s)

  service_chain-eq :
      (f : Frontend) (s t : String)
      → service_chain platform f s ≡ ok t
      → is_empty f.backends ≡ false
      → whole_chain f s ≡ t
  service_chain-eq f s t h e = (check_length-eq (whole_chain f s) t (rw e at h)).0

  service_chain-Grows :
      (f : Frontend) (s t : String) → service_chain platform f s ≡ ok t → Grows s t
  service_chain-Grows f s t h = elim (Bool-cases (is_empty f.backends)) [
    | inl e ↦ subst (Grows s) (ok-injective (rw e at h)) (Grows-refl s)
    | inr e ↦
        let opened = line (" chain " ∷ f.id ∷ " {" ∷ []) s in
        subst (Grows s) (service_chain-eq f s t h e) (
          Grows-trans s opened (whole_chain f s) (_, refl)
            (Grows-trans opened (opened_chain f s) (whole_chain f s) (opened_chain-Grows f s)
              (whole_chain-Grows f s)))
  ]

  pub service_chain-header :
      (f : Frontend) (s t : String)
      → is_empty f.backends ≡ false
      → service_chain platform f s ≡ ok t
      → Has (line_text (" chain " ∷ f.id ∷ " {" ∷ [])) t
  service_chain-header f s t e h =
      let header = line_text (" chain " ∷ f.id ∷ " {" ∷ []) in
      subst (Has header) (service_chain-eq f s t h e) (
        Has-Grows header (opened_chain f s) (whole_chain f s) (s, opened_chain-Grows f s)
          (whole_chain-Grows f s))

  In-not_empty : (b : Backend) (bs : List Backend) → In b bs → is_empty bs ≡ false
  In-not_empty b [] m = elim m [ ]
  In-not_empty b (c ∷ bs) m = refl

  pub service_chain-endpoint :
      (f : Frontend) (b : Backend) (s t : String)
      → In b f.backends
      → service_chain platform f s ≡ ok t
      → Has (endpoint_text f b) t
  service_chain-endpoint f b s t m h =
      subst (Has (endpoint_text f b)) (service_chain-eq f s t h (In-not_empty b f.backends m)) (
        write_each-Has (endpoint_rule platform f) (λ c u. (_, refl)) (endpoint_text f b) b
          f.backends m (λ u. (u, Grows-refl (endpoint_rule platform f b u))) (opened_chain f s))

  pub chains-Grows :
      (fs : List Frontend) (s t : String)
      → for_each (service_chain platform) fs s ≡ ok t
      → Grows s t
  chains-Grows fs s t h =
      for_each-inv (service_chain platform) (Grows s) fs
        (λ f a b m g e. Grows-trans s a b g (service_chain-Grows f a b e)) s t (Grows-refl s) h

  -- What one chain brings about stays in the text.
  pub chains-Has :
      (rule : String) (f : Frontend) (fs : List Frontend) (s t : String)
      → In f fs
      → ((a b : String) → service_chain platform f a ≡ ok b → Has rule b)
      → for_each (service_chain platform) fs s ≡ ok t
      → Has rule t
  chains-Has rule f fs s t m brings h =
      for_each-reaches (service_chain platform) (Has rule) f fs m brings
        (λ y a b p e. Has-Grows rule a b p (service_chain-Grows y a b e)) s t h
