-- ===== src/Scheduler/Demand.antt =====
-- crates/h3s-scheduler/src/placement.rs: what the Pods of a node request together, apart from the
-- order and the checks of the additions.
use hedronetes_h3s.Prelude.{
  ℕ, ◌+◌, ◌≤◌, String, List, [], ◌∷◌, Bool, true, false, ◌≡◌, sym, subst, ◌↔◌, ap, ◌∙◌, inl, inr,
  some, keep, i64_max, arith, Bool-cases, parse_i64, parse_i64_codes, parse_unsigned, codes,
}
use hedronetes_h3s.Prelude.Options.{◌>>=◌, >>=-eq-some}
use hedronetes_h3s.Json.{Value, ◌!◌, as_str}
use hedronetes_h3s.Quantity.Parse.{parse, as_milli_cpu, as_bytes, scaled, convert, in_i64}
use hedronetes_h3s.Scheduler.Resources.{
  Resources, positive, milli_in, bytes_in, pods_in, no_resources, requests, capacity, add, fits,
}
use hedronetes_h3s.Scheduler.Select.{assigned, sum_requests, used_on}

abbrev pub plus : Resources → Resources → Resources
plus a b = record { cpu = a.cpu + b.cpu; memory = a.memory + b.memory; pods = a.pods + b.pods }

-- No resource of `a` is above that of `b`.
pub record IsWithin (a b : Resources) : Type 0 where
  pub cpu : a.cpu ≤ b.cpu
  pub memory : a.memory ≤ b.memory
  pub pods : a.pods ≤ b.pods

pub IsWithin-trans : {a b c : Resources} → IsWithin a b → IsWithin b c → IsWithin a c
IsWithin-trans x y = record {
  cpu = omega (arith, x.cpu, y.cpu);
  memory = omega (arith, x.memory, y.memory);
  pods = omega (arith, x.pods, y.pods);
}

abbrev pub i64_resources : Resources
i64_resources = record { cpu = i64_max; memory = i64_max; pods = i64_max }

-- The requests of the Pods that hold resources of the node, added up.
pub data IsDemand (name : String) : List Value → Resources → Type 0 where
  nobody : IsDemand name [] no_resources
  elsewhere :
      {p : Value} {ps : List Value} {total : Resources}
      → assigned name p ≡ false
      → IsDemand name ps total
      → IsDemand name (p ∷ ps) total
  holds :
      {p : Value} {ps : List Value} {r total : Resources}
      → assigned name p ≡ true
      → requests p ≡ some r
      → IsDemand name ps total
      → IsDemand name (p ∷ ps) (plus r total)

pub add-eq-some :
    (a b c : Resources) → add a b ≡ some c → (c ≡ plus a b) × IsWithin (plus a b) i64_resources
unfolding add
add-eq-some a b c h =
    (ground arith, record { cpu = ground arith; memory = ground arith; pods = ground arith })

pub add-within : (a b : Resources) → IsWithin (plus a b) i64_resources → add a b ≡ some (plus a b)
unfolding add
add-within a b h = let x = h.cpu in let y = h.memory in let z = h.pods in ground arith

pub fits_iff : (a b : Resources) → (fits a b ≡ true) ↔ IsWithin a b
unfolding fits
fits_iff a b = (
  λ h. record { cpu = ground arith; memory = ground arith; pods = ground arith },
  λ h. let x = h.cpu in let y = h.memory in let z = h.pods in ground arith,
)

plus_assoc : (a b c : Resources) → plus (plus a b) c ≡ plus a (plus b c)
plus_assoc a b c = ground arith

plus_none : (a : Resources) → plus a no_resources ≡ a
plus_none a = ground arith

-- The checked sum of the Pods on a node is their demand.
pub sum_requests-IsDemand :
    (name : String) (ps : List Value) (sum u : Resources)
    → sum_requests sum (keep (assigned name) ps) ≡ some u
    → (total : Resources) × IsDemand name ps total × (u ≡ plus sum total)
sum_requests-IsDemand name [] sum u h =
    let e : sum ≡ u = cc in (no_resources, nobody, sym e ∙ sym (plus_none sum))
sum_requests-IsDemand name (p ∷ ps) sum u h = elim (Bool-cases (assigned name p)) [
  | inl e ↦
      let (r, er, h1) =
        >>=-eq-some (requests p)
          (λ r. add sum r >>= λ next. sum_requests next (keep (assigned name) ps)) (rw e at h) in
      let (next, en, h2) =
        >>=-eq-some (add sum r) (λ next. sum_requests next (keep (assigned name) ps)) h1 in
      let (t, d, q) = sum_requests-IsDemand name ps next u h2 in
      let n = (add-eq-some sum r next en).0 in
      (plus r t, holds e er d, q ∙ ap (λ s. plus s t) n ∙ plus_assoc sum r t)
  | inr e ↦ let (t, d, q) = sum_requests-IsDemand name ps sum u (rw e at h) in (t, elsewhere e d, q)
]

IsWithin-first :
    (a b c : Resources)
    → IsWithin (plus a (plus b c)) i64_resources
    → IsWithin (plus a b) i64_resources
IsWithin-first a b c h = record {
  cpu = omega (arith, h.cpu);
  memory = omega (arith, h.memory);
  pods = omega (arith, h.pods);
}

-- A demand that an `i64` holds is computed.
pub IsDemand-sum_requests :
    (name : String) (ps : List Value) (sum total : Resources)
    → IsDemand name ps total
    → IsWithin (plus sum total) i64_resources
    → sum_requests sum (keep (assigned name) ps) ≡ some (plus sum total)
IsDemand-sum_requests name [] sum total nobody w = ap some (sym (plus_none sum))
IsDemand-sum_requests name (p ∷ ps) sum total (elsewhere e d) w =
    rw e (IsDemand-sum_requests name ps sum total d w)
IsDemand-sum_requests name (p ∷ ps) sum total (holds {r = r} {total = t} e er d) w =
    let a = add-within sum r (IsWithin-first sum r t w) in
    rw (e, er, a)
      (IsDemand-sum_requests name ps (plus sum r) t d
          (subst (λ x. IsWithin x i64_resources) (sym (plus_assoc sum r t)) w)
        ∙ ap some (plus_assoc sum r t))

none_plus : (a : Resources) → plus no_resources a ≡ a
none_plus a = ground arith

pub used_on-IsDemand :
    (name : String) (ps : List Value) (u : Resources)
    → used_on name ps ≡ some u
    → IsDemand name ps u
used_on-IsDemand name ps u h =
    let (total, d, e) = sum_requests-IsDemand name ps no_resources u h in
    subst (IsDemand name ps) (sym (e ∙ none_plus total)) d

pub IsDemand-used_on :
    (name : String) (ps : List Value) (u : Resources)
    → IsDemand name ps u
    → IsWithin u i64_resources
    → used_on name ps ≡ some u
IsDemand-used_on name ps u d w =
    let e = none_plus u in
    IsDemand-sum_requests name ps no_resources u d (subst (λ x. IsWithin x i64_resources) (sym e) w)
    ∙ ap some e

pub IsWithin-left : (a b c : Resources) → IsWithin (plus a b) c → IsWithin a c
IsWithin-left a b c h = record {
  cpu = omega (arith, h.cpu);
  memory = omega (arith, h.memory);
  pods = omega (arith, h.pods);
}

in_i64_bound : (x v : ℕ) → in_i64 x ≡ some v → v ≤ i64_max
in_i64_bound x v h = ground arith

convert_bound : (w f s : List ℕ) (c : Bool) (v : ℕ) → convert w f s c ≡ some v → v ≤ i64_max
unfolding convert
convert_bound w f s c v h = ground arith

scaled_bound : (s : List ℕ) (c : Bool) (v : ℕ) → scaled s c ≡ some v → v ≤ i64_max
unfolding scaled
scaled_bound s c v h = convert_bound _ _ _ c v h

parse_unsigned_bound : (max : ℕ) (s : List ℕ) (v : ℕ) → parse_unsigned max s ≡ some v → v ≤ max
parse_unsigned_bound max [] v h = absurd (ground arith)
parse_unsigned_bound max (c ∷ cs) v h = ground arith

pods_bound_codes : (cs : List ℕ) (v : ℕ) → (parse_i64_codes cs >>= positive) ≡ some v → v ≤ i64_max
pods_bound_codes [] v h = absurd (ground arith)
pods_bound_codes (c ∷ cs) v h =
    ground (arith, parse_unsigned_bound i64_max cs v, parse_unsigned_bound i64_max (c ∷ cs) v)

pods_in_bound : (x : Value) (v : ℕ) → pods_in x ≡ some v → v ≤ i64_max
unfolding pods_in parse_i64
pods_in_bound x v h =
    let (z, e, g) = >>=-eq-some (as_str x >>= parse_i64) positive h in
    let (s, e1, g1) = >>=-eq-some (as_str x) parse_i64 e in pods_bound_codes (codes s) v (rw g1 g)

milli_in_bound : (x : Value) (v : ℕ) → milli_in x ≡ some v → v ≤ i64_max
unfolding milli_in as_milli_cpu
milli_in_bound x v h =
    let (q, e, g) = >>=-eq-some (as_str x >>= parse) as_milli_cpu h in
    scaled_bound (codes q.raw) true v g

bytes_in_bound : (x : Value) (v : ℕ) → bytes_in x ≡ some v → v ≤ i64_max
unfolding bytes_in as_bytes
bytes_in_bound x v h =
    let (q, e, g) = >>=-eq-some (as_str x >>= parse) as_bytes h in
    scaled_bound (codes q.raw) false v g

-- What a node offers fits the machine's integers.
pub capacity_bound : (n : Value) (c : Resources) → capacity n ≡ some c → IsWithin c i64_resources
unfolding capacity
capacity_bound n c h =
    let a = n ! "status" ! "allocatable" in
    let x = milli_in_bound (a ! "cpu") c.cpu in
    let y = bytes_in_bound (a ! "memory") c.memory in
    let z = pods_in_bound (a ! "pods") c.pods in
    record { cpu = ground (arith, x); memory = ground (arith, y); pods = ground (arith, z) }
