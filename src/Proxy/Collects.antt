-- ===== src/Proxy/Collects.antt =====
-- crates/h3s-proxy/src/plan.rs: steps that add the backends of a description, and no others.
use hedronetes_h3s.Prelude.{
  ◌+◌, List, [], ◌∷◌, Bool, true, false, ◌≡◌, ◌↔◌, ◌⊎◌, refl, sym, ap, ◌∙◌, subst, inl, inr,
  if◌then◌else◌, ltb, any, any→In, arith, In, here, there, In-uncons, Bool-cases, ok, for_each,
  >>=-eq-ok, ok-injective,
}
use hedronetes_h3s.Proxy.Ip.{R}
use hedronetes_h3s.Proxy.Types.{Backend, same_backend, backend_lt, insert_backend}
use hedronetes_h3s.Proxy.Backends.{Gathered, insert_counted}

insert_backend→In :
    (b : Backend) (cs : List Backend) (a : Backend) → In a (insert_backend b cs) → (b ≡ a) ⊎ In a cs
insert_backend→In b [] a m = In-uncons m
insert_backend→In b (c ∷ cs) a m = elim (Bool-cases (backend_lt c b)) [
  | inr e ↦ In-uncons (rw e at m)
  | inl e ↦ elim (In-uncons (rw e at m)) [
    | inl q ↦ inr (here q)
    | inr q ↦ elim (insert_backend→In b cs a q) [ inl r ↦ inl r | inr r ↦ inr (there r) ]
  ]
]

In→insert_backend :
    (b : Backend) (cs : List Backend) (a : Backend) → (b ≡ a) ⊎ In a cs → In a (insert_backend b cs)
In→insert_backend b [] a (inl e) = here e
In→insert_backend b [] a (inr m) = elim m [ ]
In→insert_backend b (c ∷ cs) a m = elim (Bool-cases (backend_lt c b)) [
  | inr e ↦ rw e (elim m [ inl q ↦ here q | inr q ↦ there q ])
  | inl e ↦ rw e (elim m [
    | inl q ↦ there (In→insert_backend b cs a (inl q))
    | inr q ↦ elim (In-uncons q) [
      | inl r ↦ here r
      | inr r ↦ there (In→insert_backend b cs a (inr r))
    ]
  ])
]

same_backend-eq : (a b : Backend) → same_backend a b ≡ true → a ≡ b
same_backend-eq a b h =
    let e : a.ip ≡ b.ip = ground arith in
    let f : a.port ≡ b.port = ground arith in λ i. record { ip = e i; port = f i }

-- Between the two, the backends of which `Y` holds were added, and no others.
abbrev Change : (Backend → Type 0) → Gathered → Gathered → Type 0
Change Y s t =
    ((b : Backend) → Y b → In b t.backends)
    × ((b : Backend) → In b s.backends → In b t.backends)
    × ((b : Backend) → In b t.backends → Y b ⊎ In b s.backends)

abbrev pub Collects : (Backend → Type 0) → (Gathered → R Gathered) → Type 0
Collects Y step = (s t : Gathered) → step s ≡ ok t → Change Y s t

-- A step that leaves the backends as they are, where nothing is to be added.
skipped :
    (Y : Backend → Type 0) (s t : Gathered)
    → ((b : Backend) → ¬ Y b)
    → s.backends ≡ t.backends
    → Change Y s t
skipped Y s t none e = (λ b y. absurd (none b y), λ b m. rw (← e) m, λ b m. inr (rw e m))

pub insert_counted-Collects : (b : Backend) → Collects (λ a. b ≡ a) (insert_counted b)
insert_counted-Collects b s t h = elim (Bool-cases (any (same_backend b) s.backends)) [
  | inl e ↦
      let (c, m, r) = any→In (same_backend b) s.backends e in
      let found : In b s.backends = subst (λ x. In x s.backends) (sym (same_backend-eq b c r)) m in
      subst (Change (λ a. b ≡ a) s) (ok-injective (rw e at h))
        (λ a y. subst (λ x. In x s.backends) y found, λ a n. n, λ a n. inr n)
  | inr e ↦ elim (Bool-cases (ltb 16384 (s.total + 1))) [
    | inl f ↦ absurd (let g = rw (e, f) at h in cc)
    | inr f ↦ subst (Change (λ a. b ≡ a) s) (ok-injective (rw (e, f) at h)) (
      λ a y. In→insert_backend b s.backends a (inl y),
      λ a n. In→insert_backend b s.backends a (inr n),
      λ a n. insert_backend→In b s.backends a n,
    )
  ]
]

-- `if test { … } else { step }`, where the first branch leaves the backends alone.
pub guarded-Collects :
    (test : Bool) (Y : Backend → Type 0) (other : Gathered → Gathered)
    (step : Gathered → R Gathered)
    → ((s : Gathered) → (other s).backends ≡ s.backends)
    → Collects Y step
    → Collects (λ b. (test ≡ false) × Y b) (λ s. if test then ok (other s) else step s)
guarded-Collects true Y other step same c s t h =
    skipped (λ b. (true ≡ false) × Y b) s t (λ b y. let q = y.0 in ground arith)
      (sym (same s) ∙ ap (λ (g : Gathered). g.backends) (ok-injective h))
guarded-Collects false Y other step same c s t h =
    let (add, keep, only) = c s t h in
    (λ b y. add b y.1, keep, λ b m. elim (only b m) [ inl y ↦ inl (refl, y) | inr n ↦ inr n ])

-- The same under another description of the condition.
pub described :
    {C : Type 0} (test : Bool) (Y : Backend → Type 0) (step : Gathered → R Gathered)
    → (test ≡ false) ↔ C
    → Collects (λ b. (test ≡ false) × Y b) step
    → Collects (λ b. C × Y b) step
described test Y step iff c s t h =
    let (add, keep, only) = c s t h in
    (
      λ b y. add b (iff.1 y.0, y.1),
      keep,
      λ b m. elim (only b m) [ inl y ↦ inl (iff.0 y.0, y.1) | inr n ↦ inr n ],
    )

module _ {A : Type 0} (Y : A → Backend → Type 0) (body : A → Gathered → R Gathered) where
  pub for_each-Collects :
      (xs : List A)
      → ((x : A) → Collects (Y x) (body x))
      → Collects (λ b. (x : A) × In x xs × Y x b) (for_each body xs)
  for_each-Collects [] each s t h =
      skipped (λ b. (x : A) × In x [] × Y x b) s t (λ b y. elim y.1 [ ])
        (ap (λ (g : Gathered). g.backends) (ok-injective h))
  for_each-Collects (x ∷ xs) each s t h =
      let (u, e, g) = >>=-eq-ok (body x s) (for_each body xs) h in
      let (a1, k1, o1) = each x s u e in
      let (a2, k2, o2) = for_each-Collects xs each u t g in
      (
        λ b y. elim (In-uncons y.1) [
          | inl q ↦ k2 b (a1 b (subst (λ z. Y z b) (sym q) y.2))
          | inr m ↦ a2 b (y.0, m, y.2)
        ],
        λ b m. k2 b (k1 b m),
        λ b m. elim (o2 b m) [
          | inl y ↦ inl (y.0, there y.1, y.2)
          | inr n ↦ elim (o1 b n) [ inl y ↦ inl (x, here refl, y) | inr k ↦ inr k ]
        ],
      )
