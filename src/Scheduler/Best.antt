-- ===== src/Scheduler/Best.antt =====
-- crates/h3s-scheduler/src/placement.rs: `select` finds the best node among those that can take the
-- Pod, and says that there is none only where there is none.
use hedronetes_h3s.Prelude.{
  String, List, [], ◌∷◌, false, ◌≡◌, refl, sym, subst, ◌↔◌, inl, inr, some, arith, filter_map,
  filter_map→In, In→filter_map, order_refl, sort, IsOrder, IsSorted, sort→In, In→sort,
  sort-IsSorted, text_lt-IsOrder, Option-cases, In, here, In-uncons, ok, err,
}
use hedronetes_h3s.Json.{Value, ◌!◌}
use hedronetes_h3s.Scheduler.Resources.{Resources, populated, requests}
use hedronetes_h3s.Scheduler.Nodes.{Chrono}
use hedronetes_h3s.Scheduler.Select.{Choice, choice_lt, candidate, select, unsupported, first_name}
use hedronetes_h3s.Scheduler.Feasible.{IsFeasible, candidate-IsFeasible, IsFeasible-candidate}

choice_lt-IsOrder : IsOrder choice_lt
choice_lt-IsOrder = record {
  asym = λ a b h. let x = text_lt-IsOrder.asym a.name b.name in ground (arith, x);
  trans = λ a b c h k. let x = text_lt-IsOrder.trans a.name b.name c.name in ground (arith, x);
}

-- The Pod asks for nothing that the scheduler leaves aside.
pub record IsSupported (p : Value) : Type 0 where
  pub open_gates : populated (p ! "spec" ! "schedulingGates") ≡ false
  pub known : unsupported (p ! "spec") ≡ false

module _ (chrono : Chrono) (p : Value) (nodes pods leases : List Value) (now : chrono.Instant) where
  -- A node of the list that can take the Pod, with an entry that none other comes before: the fewest
  -- soft taints, then the highest preference, then the fewest Pods, then the first name.
  pub record IsBest (requested : Resources) (c : Choice) : Type 0 where
    pub node : Value
    pub listed : In node nodes
    pub feasible : IsFeasible chrono p pods leases now requested node c
    pub least :
        (other : Value) (d : Choice)
        → In other nodes
        → IsFeasible chrono p pods leases now requested other d
        → choice_lt d c ≡ false

  choices : Resources → List Choice
  choices requested = filter_map (candidate chrono p pods leases now requested) nodes

  first-IsBest :
      (requested : Resources) (cs : List Choice) (name : String)
      → sort choice_lt (choices requested) ≡ cs
      → first_name cs ≡ ok name
      → (c : Choice) × (c.name ≡ name) × IsBest requested c
  unfolding choices
  first-IsBest requested [] name e h = absurd (ground arith)
  first-IsBest requested (c ∷ cs) name e h =
      let m = sort→In choice_lt (choices requested) c (subst (λ l. In c l) (sym e) (here refl)) in
      let (node, k, f) = filter_map→In (candidate chrono p pods leases now requested) nodes c m in
      let sorted =
        subst (IsSorted choice_lt) e
          (sort-IsSorted choice_lt choice_lt-IsOrder (choices requested)) in
      (
        c,
        ground arith,
        record {
          node = node;
          listed = k;
          feasible = candidate-IsFeasible chrono p pods leases now requested node c f;
          least = λ other d ko fo.
              let q =
                In→filter_map (candidate chrono p pods leases now requested) nodes other d ko
                  (IsFeasible-candidate chrono p pods leases now requested other d fo) in
              let r = subst (λ l. In d l) e (In→sort choice_lt (choices requested) d q) in
              elim (In-uncons r) [
                | inl g ↦
                    subst (λ x. choice_lt x c ≡ false) g (order_refl choice_lt choice_lt-IsOrder c)
                | inr g ↦ sorted.0 d g
              ];
        },
      )

  -- The Pod is supported, its requests are known, and the best node for them has this name.
  pub record IsPlaced (name : String) : Type 0 where
    pub supported : IsSupported p
    pub requested : Resources
    pub asks : requests p ≡ some requested
    pub choice : Choice
    pub named : choice.name ≡ name
    pub best : IsBest requested choice

  pub select-IsPlaced :
      (name : String) → select chrono p nodes pods leases now ≡ ok name → IsPlaced name
  unfolding select choices
  select-IsPlaced name h = elim (Option-cases (requests p)) [
    | inl e ↦ absurd (ground arith)
    | inr (requested, e) ↦
        let (c, g, b) =
          first-IsBest requested (sort choice_lt (choices requested)) name refl (ground arith) in
        record {
          supported = record { open_gates = ground arith; known = ground arith };
          requested = requested;
          asks = e;
          choice = c;
          named = g;
          best = b;
        }
  ]

  nothing_listed :
      (cs : List Choice) → first_name cs ≡ err "Unschedulable" → (c : Choice) → In c cs → ⊥
  nothing_listed [] h c m = elim m [ ]
  nothing_listed (d ∷ ds) h c m = absurd (ground arith)

  nothing_first :
      (cs : List Choice) → ((c : Choice) → In c cs → ⊥) → first_name cs ≡ err "Unschedulable"
  nothing_first [] f = refl
  nothing_first (d ∷ ds) f = absurd (f d (here refl))

  -- `select` gives up on a supported Pod exactly if no node of the list can take it.
  pub select-Unschedulable :
      (requested : Resources)
      → requests p ≡ some requested
      → IsSupported p
      → (select chrono p nodes pods leases now ≡ err "Unschedulable") ↔ (
          (node : Value) (c : Choice)
          → In node nodes
          → ¬ (IsFeasible chrono p pods leases now requested node c))
  unfolding select choices
  select-Unschedulable requested e s =
      let g = s.open_gates in
      let k = s.known in
      (
        λ h node c m f. nothing_listed (sort choice_lt (choices requested)) (ground arith) c (
            In→sort choice_lt (choices requested) c (
              In→filter_map (candidate chrono p pods leases now requested) nodes node c m
                (IsFeasible-candidate chrono p pods leases now requested node c f))),
        λ f.
            rw (g, k, e)
              (nothing_first (sort choice_lt (choices requested)) λ c m.
                let (node, n, x) =
                  filter_map→In (candidate chrono p pods leases now requested) nodes c
                    (sort→In choice_lt (choices requested) c m) in
                f node c n (candidate-IsFeasible chrono p pods leases now requested node c x)),
      )
