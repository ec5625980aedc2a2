-- ===== src/Scheduler/Feasible.antt =====
-- crates/h3s-scheduler/src/placement.rs: when a node can take a Pod, and that `candidate` gives an
-- entry exactly then.
use hedronetes_h3s.Prelude.{
  String, List, [], ◌∷◌, Bool, true, false, ◌≡◌, ◌≢◌, refl, sym, ap, ◌∙◌, subst, ◌↔◌, inl, inr,
  Option, none, some, any, keep, length, eq_iff, arith, Bool-cases, Option-cases, In, any→In,
  In→any, and-eq-true,
}
use hedronetes_h3s.Json.{Value, ◌!◌, as_str}
use hedronetes_h3s.Scheduler.Resources.{Resources, capacity, add, fits, one_of}
use hedronetes_h3s.Scheduler.Nodes.{Chrono, alive, tolerates}
use hedronetes_h3s.Scheduler.Affinity.{affinity}
use hedronetes_h3s.Scheduler.Select.{
  Choice, candidate, hard_taint, soft_taint, taints, nonempty_name, used_on,
}
use hedronetes_h3s.Scheduler.Demand.{
  plus, IsWithin, IsDemand, IsWithin-trans, add-eq-some, add-within, fits_iff, used_on-IsDemand,
  IsDemand-used_on, IsWithin-left, capacity_bound,
}

-- A taint that keeps off every Pod that does not tolerate it.
abbrev pub keeps_off : Value → Bool
keeps_off t = one_of ("NoSchedule" ∷ "NoExecute" ∷ []) (as_str (t ! "effect"))

module _ (chrono : Chrono) (p : Value) (pods leases : List Value) (now : chrono.Instant)
    (requested : Resources) where
  -- The node can take the Pod, with this entry among the choices.
  pub record IsFeasible (node : Value) (c : Choice) : Type 0 where
    pub offered : Resources
    pub used : Resources
    pub live : alive chrono node leases now ≡ true
    pub named : as_str (node ! "metadata" ! "name") ≡ some c.name
    pub not_empty : c.name ≢ ""
    pub offers : capacity node ≡ some offered
    pub prefers : affinity p node ≡ some c.preference
    pub tolerated : (t : Value) → In t (taints node) → keeps_off t ≡ true → tolerates p t ≡ true
    pub softly : c.soft ≡ length (keep (soft_taint p) (taints node))
    pub demand : IsDemand c.name pods used
    pub counted : c.pods ≡ used.pods
    pub room : IsWithin (plus used requested) offered

  nonempty_name_iff :
      (o : Option String) (s : String) → (nonempty_name o ≡ some s) ↔ ((o ≡ some s) × (s ≢ ""))
  nonempty_name_iff none s = ground arith
  nonempty_name_iff (some t) s = ground (arith, eq_iff t "")

  no_hard_taint :
      (ts : List Value)
      → any (hard_taint p) ts ≡ false
      → (t : Value) → In t ts
      → keeps_off t ≡ true
      → tolerates p t ≡ true
  no_hard_taint ts h t m k = elim (Bool-cases (tolerates p t)) [
    | inl e ↦ e
    | inr e ↦ let a = In→any (hard_taint p) t ts m (rw (k, e) refl) in absurd (ground arith)
  ]

  all_tolerated :
      (ts : List Value)
      → ((t : Value) → In t ts → keeps_off t ≡ true → tolerates p t ≡ true)
      → any (hard_taint p) ts ≡ false
  all_tolerated ts f = elim (Bool-cases (any (hard_taint p) ts)) [
    | inl e ↦
        let (t, m, h) = any→In (hard_taint p) ts e in
        let g = f t m (and-eq-true _ _ h).0 in absurd (ground arith)
    | inr e ↦ e
  ]

  -- What the steps of a turn that reaches its end have given.
  record Passed (node : Value) (c : Choice) : Type 0 where
    offered : Resources
    used : Resources
    total : Resources
    live : alive chrono node leases now ≡ true
    named : nonempty_name (as_str (node ! "metadata" ! "name")) ≡ some c.name
    offers : capacity node ≡ some offered
    prefers : affinity p node ≡ some c.preference
    untainted : any (hard_taint p) (taints node) ≡ false
    sums : used_on c.name pods ≡ some used
    adds : add used requested ≡ some total
    room : fits total offered ≡ true
    softly : length (keep (soft_taint p) (taints node)) ≡ c.soft
    counted : used.pods ≡ c.pods

  candidate-Passed :
      (node : Value) (c : Choice)
      → candidate chrono p pods leases now requested node ≡ some c
      → Passed node c
  unfolding candidate
  candidate-Passed node c h =
      elim (Option-cases (nonempty_name (as_str (node ! "metadata" ! "name")))) [
        | inl e ↦ absurd (ground arith)
        | inr (name, e1) ↦ elim (Option-cases (capacity node)) [
          | inl e ↦ absurd (ground arith)
          | inr (offered, e2) ↦ elim (Option-cases (affinity p node)) [
            | inl e ↦ absurd (ground arith)
            | inr (preference, e3) ↦ elim (Option-cases (used_on name pods)) [
              | inl e ↦ absurd (ground arith)
              | inr (used, e4) ↦ elim (Option-cases (add used requested)) [
                | inl e ↦ absurd (ground arith)
                | inr (total, e5) ↦
                    let g : name ≡ c.name = ground arith in
                    record {
                      offered = offered;
                      used = used;
                      total = total;
                      live = ground arith;
                      named = ground arith;
                      offers = e2;
                      prefers = ground arith;
                      untainted = ground arith;
                      sums = ap (λ n. used_on n pods) (sym g) ∙ e4;
                      adds = e5;
                      room = ground arith;
                      softly = ground arith;
                      counted = ground arith;
                    }
              ]
            ]
          ]
        ]
      ]

  pub candidate-IsFeasible :
      (node : Value) (c : Choice)
      → candidate chrono p pods leases now requested node ≡ some c
      → IsFeasible node c
  candidate-IsFeasible node c h =
      let s = candidate-Passed node c h in
      let n = (nonempty_name_iff _ c.name).0 s.named in
      let (g, w) = add-eq-some s.used requested s.total s.adds in
      record {
        offered = s.offered;
        used = s.used;
        live = s.live;
        named = n.0;
        not_empty = n.1;
        offers = s.offers;
        prefers = s.prefers;
        tolerated = no_hard_taint _ s.untainted;
        softly = sym s.softly;
        demand = used_on-IsDemand c.name pods s.used s.sums;
        counted = sym s.counted;
        room = subst (λ t. IsWithin t s.offered) g ((fits_iff s.total s.offered).0 s.room);
      }

  pub IsFeasible-candidate :
      (node : Value) (c : Choice)
      → IsFeasible node c
      → candidate chrono p pods leases now requested node ≡ some c
  unfolding candidate
  IsFeasible-candidate node c f =
      let w = IsWithin-trans f.room (capacity_bound node f.offered f.offers) in
      let a = add-within f.used requested w in
      let s = IsDemand-used_on c.name pods f.used f.demand (IsWithin-left f.used requested _ w) in
      let n =
        (nonempty_name_iff (as_str (node ! "metadata" ! "name")) c.name).1 (f.named, f.not_empty) in
      let k = (fits_iff (plus f.used requested) f.offered).1 f.room in
      rw (f.live, n, f.offers, f.prefers, all_tolerated (taints node) f.tolerated, s, a, k)
        (let x = f.softly in let y = f.counted in ground arith)
