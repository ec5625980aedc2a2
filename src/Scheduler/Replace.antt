-- ===== src/Scheduler/Replace.antt =====
-- crates/h3s-scheduler/src/lib.rs: what the demand on a node becomes when one Pod of the cycle's
-- list is replaced.
use hedronetes_h3s.Prelude.{
  ℕ, zero, suc, String, List, [], ◌∷◌, false, ◌≡◌, refl, sym, ap, ◌∙◌, subst, inl, inr, Option,
  some, arith, Bool-cases, false≢true,
}
use hedronetes_h3s.Json.{Value}
use hedronetes_h3s.Scheduler.Resources.{Resources, requests}
use hedronetes_h3s.Scheduler.Select.{assigned}
use hedronetes_h3s.Scheduler.Cycle.{item_at, replace_at}
use hedronetes_h3s.Scheduler.Demand.{
  plus, IsWithin, IsWithin-trans, IsDemand, nobody, elsewhere, holds,
}

same_value : {a b : Resources} → ◌≡◌ {A = Option Resources} (some a) (some b) → a ≡ b
same_value h = cc

-- The demand is one.
pub IsDemand-unique :
    (name : String) (ps : List Value) (u v : Resources)
    → IsDemand name ps u
    → IsDemand name ps v
    → u ≡ v
IsDemand-unique name [] u v nobody nobody = refl
IsDemand-unique name (p ∷ ps) u v (elsewhere a d) (elsewhere b e) = IsDemand-unique name ps u v d e
IsDemand-unique name (p ∷ ps) u v (elsewhere a d) (holds b r e) = absurd (false≢true (sym a ∙ b))
IsDemand-unique name (p ∷ ps) u v (holds a r d) (elsewhere b e) = absurd (false≢true (sym b ∙ a))
IsDemand-unique name (p ∷ ps) u v (holds {r = r} {total = t} a x d)
      (holds {r = s} {total = w} b y e) =
    ap (λ z. plus z t) (same_value (sym x ∙ y)) ∙ ap (plus s) (IsDemand-unique name ps t w d e)

pub IsWithin-refl : (a : Resources) → IsWithin a a
IsWithin-refl a = record { cpu = omega arith; memory = omega arith; pods = omega arith }

IsWithin-plus : (a b : Resources) → IsWithin a (plus b a)
IsWithin-plus a b = record { cpu = omega arith; memory = omega arith; pods = omega arith }

IsWithin-plus_right : (a b : Resources) → IsWithin a (plus a b)
IsWithin-plus_right a b = record { cpu = omega arith; memory = omega arith; pods = omega arith }

plus-IsWithin : (c : Resources) {a b : Resources} → IsWithin a b → IsWithin (plus c a) (plus c b)
plus-IsWithin c w = record {
  cpu = omega (arith, w.cpu);
  memory = omega (arith, w.memory);
  pods = omega (arith, w.pods);
}

plus-IsWithin-plus :
    (c : Resources) (a b r : Resources)
    → IsWithin a (plus b r)
    → IsWithin (plus c a) (plus (plus c b) r)
plus-IsWithin-plus c a b r w = record {
  cpu = omega (arith, w.cpu);
  memory = omega (arith, w.memory);
  pods = omega (arith, w.pods);
}

plus_commutes : (a b : Resources) → IsWithin (plus a b) (plus b a)
plus_commutes a b = record { cpu = omega arith; memory = omega arith; pods = omega arith }

-- What the demand was before the Pod `p` at a position became `q`, which requests as much: no less
-- where `q` holds nothing of the node, and at most one request less anywhere.
pub record IsBefore (name : String) (objects : List Value) (q : Value) (r after : Resources)
    : Type 0 where
  pub before : Resources
  pub demand : IsDemand name objects before
  pub kept : assigned name q ≡ false → IsWithin after before
  pub grown : IsWithin after (plus before r)

module _ (name : String) (p q : Value) (r : Resources) (known : requests p ≡ some r)
    (same : requests q ≡ requests p) where
  head-IsBefore :
      (ps : List Value) (after : Resources)
      → IsDemand name (q ∷ ps) after
      → IsBefore name (p ∷ ps) q r after
  head-IsBefore ps after (elsewhere e d) = elim (Bool-cases (assigned name p)) [
    | inl a ↦ record {
      before = plus r after;
      demand = holds a known d;
      kept = λ _. IsWithin-plus after r;
      grown = IsWithin-trans (IsWithin-plus after r) (IsWithin-plus_right (plus r after) r);
    }
    | inr a ↦ record {
      before = after;
      demand = elsewhere a d;
      kept = λ _. IsWithin-refl after;
      grown = IsWithin-plus_right after r;
    }
  ]
  head-IsBefore ps after (holds {r = s} {total = t} e x d) =
      let g : s ≡ r = same_value (sym x ∙ same ∙ known) in
      subst (λ z. IsBefore name (p ∷ ps) q r (plus z t)) (sym g)
        (elim (Bool-cases (assigned name p)) [
          | inl a ↦ record {
            before = plus r t;
            demand = holds a known d;
            kept = λ n. IsWithin-refl (plus r t);
            grown = IsWithin-plus_right (plus r t) r;
          }
          | inr a ↦ record {
            before = t;
            demand = elsewhere a d;
            kept = λ n. absurd (false≢true (sym n ∙ e));
            grown = plus_commutes r t;
          }
        ])

  pub replace-IsBefore :
      (i : ℕ) (objects : List Value) (after : Resources)
      → item_at i objects ≡ some p
      → IsDemand name (replace_at i q objects) after
      → IsBefore name objects q r after
  replace-IsBefore i [] after h d = absurd (cc)
  replace-IsBefore zero (v ∷ vs) after h d =
      let e : v ≡ p = cc in
      subst (λ z. IsBefore name (z ∷ vs) q r after) (sym e) (head-IsBefore vs after d)
  replace-IsBefore (suc i) (v ∷ vs) after h (elsewhere a d) =
      let b = replace-IsBefore i vs after h d in
      record { before = b.before; demand = elsewhere a b.demand; kept = b.kept; grown = b.grown }
  replace-IsBefore (suc i) (v ∷ vs) after h (holds {r = s} {total = t} a x d) =
      let b = replace-IsBefore i vs t h d in
      record {
        before = plus s b.before;
        demand = holds a x b.demand;
        kept = λ n. plus-IsWithin s (b.kept n);
        grown = plus-IsWithin-plus s t b.before r b.grown;
      }
