-- ===== src/Proxy/Claims.antt =====
-- crates/h3s-proxy/src/plan.rs: claims keep the frontends of a draft apart.
use hedronetes_h3s.Prelude.{
  String, ℕ, [], ◌∷◌, ◌++◌, Bool, false, ◌≡◌, refl, sym, ap, ◌∙◌, inl, inr, ◌==◌, any, arith,
  str_eq, In, here, there, snoc→In, Bool-cases, ok, ok-injective, eq_iff,
}
use hedronetes_h3s.Proxy.Types.{Protocol, tcp, udp, Frontend}
use hedronetes_h3s.Proxy.Draft.{Tuple, same_protocol, same_tuple, Draft, claim_tuple, claim_id}
use hedronetes_h3s.Apart.{Apart, Apart-snoc, not_any}

abbrev pub tuple_of : Frontend → Tuple
tuple_of f = record { ip = f.ip; port = f.port; protocol = f.protocol }

abbrev pub same_match : Frontend → Frontend → Bool
same_match f g = same_tuple (tuple_of f) (tuple_of g)

abbrev pub same_chain : Frontend → Frontend → Bool
same_chain f g = str_eq f.id g.id

==_sym : (a b : ℕ) → (a == b) ≡ (b == a)
==_sym a b = ground arith

protocol_sym : (a b : Protocol) → same_protocol a b ≡ same_protocol b a
protocol_sym tcp tcp = refl
protocol_sym tcp udp = refl
protocol_sym udp tcp = refl
protocol_sym udp udp = refl

pub match_sym : (f g : Frontend) → same_match f g ≡ same_match g f
match_sym f g = rw (==_sym f.ip g.ip, ==_sym f.port g.port, protocol_sym f.protocol g.protocol) refl

pub str_eq_sym : (s t : String) → str_eq s t ≡ str_eq t s
str_eq_sym s t = ground (arith, eq_iff s t, eq_iff t s)

-- What holds of the frontends, the tuples and the chain names between two steps.
abbrev pub Claimed : Draft → Type 0
Claimed d =
    Apart same_match d.frontends
    × ((f : Frontend) → In f d.frontends → In (tuple_of f) d.tuples)
    × Apart same_chain d.frontends
    × ((f : Frontend) → In f d.frontends → In f.id d.ids)

-- A frontend whose tuple and name are claimed first keeps the frontends apart.
push-Claimed :
    (f : Frontend) (d e : Draft)
    → Claimed d
    → any (same_tuple (tuple_of f)) d.tuples ≡ false
    → any (str_eq f.id) d.ids ≡ false
    → e.frontends ≡ d.frontends ++ f ∷ []
    → e.tuples ≡ tuple_of f ∷ d.tuples
    → e.ids ≡ f.id ∷ d.ids
    → Claimed e
push-Claimed f d e (p, q, r, s) t i a b c =
    let tuples_known : (g : Frontend) → In g (d.frontends ++ f ∷ []) → In (tuple_of g) e.tuples =
      λ g m. rw b (elim (snoc→In f d.frontends g m) [
        | inl k ↦ there (q g k)
        | inr k ↦ here (ap tuple_of k)
      ]) in
    let ids_known : (g : Frontend) → In g (d.frontends ++ f ∷ []) → In g.id e.ids = λ g m.
      rw c (elim (snoc→In f d.frontends g m) [
        | inl k ↦ there (s g k)
        | inr k ↦ here (ap (λ (x : Frontend). x.id) k)
      ]) in
    (
      rw a (
          Apart-snoc same_match d.frontends f p (λ g m.
            match_sym g f ∙ not_any (same_tuple (tuple_of f)) d.tuples (tuple_of g) t (q g m))),
      rw a tuples_known,
      rw a (
          Apart-snoc same_chain d.frontends f r
            (λ g m. str_eq_sym g.id f.id ∙ not_any (str_eq f.id) d.ids g.id i (s g m))),
      rw a ids_known,
    )

pub claim_tuple-eq :
    (t : Tuple) (d e : Draft)
    → claim_tuple t d ≡ ok e
    → (any (same_tuple t) d.tuples ≡ false)
      × (e.frontends ≡ d.frontends)
      × (e.tuples ≡ t ∷ d.tuples)
      × (e.ids ≡ d.ids)
claim_tuple-eq t d e h = elim (Bool-cases (any (same_tuple t) d.tuples)) [
  | inl k ↦ absurd (let g = rw k at h in cc)
  | inr k ↦
      let q : record d { tuples = t ∷ d.tuples } ≡ e = ok-injective (rw k at h) in
      (
        k,
        ap (λ (x : Draft). x.frontends) (sym q),
        ap (λ (x : Draft). x.tuples) (sym q),
        ap (λ (x : Draft). x.ids) (sym q),
      )
]

pub claim_id-eq :
    (id : String) (d e : Draft)
    → claim_id id d ≡ ok e
    → (any (str_eq id) d.ids ≡ false)
      × (e.frontends ≡ d.frontends)
      × (e.tuples ≡ d.tuples)
      × (e.ids ≡ id ∷ d.ids)
claim_id-eq id d e h = elim (Bool-cases (any (str_eq id) d.ids)) [
  | inl k ↦ absurd (let g = rw k at h in cc)
  | inr k ↦
      let q : record d { ids = id ∷ d.ids } ≡ e = ok-injective (rw k at h) in
      (
        k,
        ap (λ (x : Draft). x.frontends) (sym q),
        ap (λ (x : Draft). x.tuples) (sym q),
        ap (λ (x : Draft). x.ids) (sym q),
      )
]

pub claims-Claimed :
    (f : Frontend) (d claimed named e : Draft)
    → Claimed d
    → claim_tuple (tuple_of f) d ≡ ok claimed
    → claim_id f.id claimed ≡ ok named
    → e.frontends ≡ named.frontends ++ f ∷ []
    → e.tuples ≡ named.tuples
    → e.ids ≡ named.ids
    → Claimed e
claims-Claimed f d claimed named e p h1 h2 a b c =
    let (k, f1, t1, i1) = claim_tuple-eq (tuple_of f) d claimed h1 in
    let (l, f2, t2, i2) = claim_id-eq f.id claimed named h2 in
    push-Claimed f d e p k (ap (any (str_eq f.id)) (sym i1) ∙ l)
      (a ∙ ap (λ fs. fs ++ f ∷ []) (f2 ∙ f1)) (b ∙ t2 ∙ t1) (c ∙ i2 ∙ ap (λ is. f.id ∷ is) i1)
