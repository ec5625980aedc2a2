-- ===== src/Rollout/Steps.antt =====
-- crates/h3s-controllers/src/workload/deployment.rs: what a step of a rolling update may change, and
-- when there is none.
use Prim.Native.Nat.{min}
use hedronetes_h3s.Prelude.{
  ℕ, zero, suc, ◌+◌, ◌-◌, ◌≤◌, ◌<◌, List, [], ◌∷◌, true, false, ◌&&◌, ◌≡◌, ◌≢◌, refl, sym, ap, ◌∙◌,
  subst, inl, inr, Option, none, some, ltb, ◌==◌, arith, Bool-cases, ok, >>=-eq-ok, ok-injective,
  value_or, i64_max,
}
use hedronetes_h3s.Json.{Value}
use hedronetes_h3s.Rollout.Plan.{
  replicas, count, Bounds, Change, nth, total, available, remove_old, rolling,
}

-- The replicas that a set asks for, none where the field is refused.
abbrev pub wanted : Value → ℕ
wanted r = value_or 0 (replicas r)

pub wanted-eq : (r : Value) (n : ℕ) → replicas r ≡ ok n → wanted r ≡ n
wanted-eq r n e = ap (value_or 0) e

pub ==_eq : (a b : ℕ) → (a == b) ≡ true → a ≡ b
==_eq a b h = ground arith

pub not_equal : (a b : ℕ) → (a == b) ≡ false → a ≢ b
not_equal a b h = ground arith

abbrev pub sum : List Value → ℕ
sum [] = 0
sum (r ∷ rs) = wanted r + sum rs

pub total-sum : (s t : ℕ) (sets : List Value) → total s sets ≡ ok t → t ≡ s + sum sets
total-sum s t [] h = let e = ok-injective h in omega (arith, e)
total-sum s t (r ∷ rs) h =
    let (n, e, g) = >>=-eq-ok (replicas r) _ h in
    elim (Bool-cases (ltb i64_max (s + n))) [
      | inl o ↦ absurd (let q = rw o at g in cc)
      | inr o ↦
          let ih = total-sum (s + n) t rs (rw o at g) in
          let w = wanted-eq r n e in omega (arith, ih, w)
    ]

-- Two different sets ask for no more than all.
pub nth-sum : (i : ℕ) (sets : List Value) (r : Value) → nth i sets ≡ some r → wanted r ≤ sum sets
nth-sum i [] r h = absurd (cc)
nth-sum zero (x ∷ xs) r h = let e : x ≡ r = cc in let w = ap wanted e in omega (arith, w)
nth-sum (suc i) (x ∷ xs) r h = let ih = nth-sum i xs r h in omega (arith, ih)

pub nth-two :
    (i j : ℕ) (sets : List Value) (r s : Value)
    → nth i sets ≡ some r
    → nth j sets ≡ some s
    → i ≢ j
    → wanted r + wanted s ≤ sum sets
nth-two i j [] r s h g n = absurd (cc)
nth-two zero zero (x ∷ xs) r s h g n = absurd (n refl)
nth-two zero (suc j) (x ∷ xs) r s h g n =
    let e : x ≡ r = cc in let w = ap wanted e in let p = nth-sum j xs s g in omega (arith, w, p)
nth-two (suc i) zero (x ∷ xs) r s h g n =
    let e : x ≡ s = cc in let w = ap wanted e in let p = nth-sum i xs r h in omega (arith, w, p)
nth-two (suc i) (suc j) (x ∷ xs) r s h g n =
    let ih = nth-two i j xs r s h g (λ e. n (ap suc e)) in omega (arith, ih)

-- The set that an index counted from `i` stands for.
remove_old-some :
    (new excess i : ℕ) (sets : List Value) (c : Change)
    → remove_old new excess i sets ≡ ok (some c)
    → (k : ℕ) × (r : Value) × (nth k sets ≡ some r)
      × (c.index ≡ i + k)
      × (c.index ≢ new)
      × (c.replicas < wanted r)
      × (min (wanted r) (count r "availableReplicas") ≤ c.replicas + excess)
remove_old-some new excess i [] c h = absurd (let q = ok-injective h in cc)
remove_old-some new excess i (r ∷ rs) c h = elim (Bool-cases (i == new)) [
  | inl e ↦
      let (k, s, p, q, u, v, w) = remove_old-some new excess (suc i) rs c (rw e at h) in
      (suc k, s, p, omega (arith, q), u, v, w)
  | inr e ↦
      let (old, f, g) = >>=-eq-ok (replicas r) _ (rw e at h) in
      let removed = min old ((old - count r "availableReplicas") + excess) in
      elim (Bool-cases (ltb 0 removed)) [
        | inl t ↦
            let q : ◌≡◌ {A = Option Change} (some (record { index = i; replicas = old - removed }))
                (some c) =
              ok-injective (rw t at g) in
            let a : i ≡ c.index = cc in
            let b : old - removed ≡ c.replicas = cc in
            let w = wanted-eq r old f in
            (
              zero,
              r,
              refl,
              omega (arith, a),
              (λ z. not_equal i new e (a ∙ z)),
              ground (arith, b, w),
              ground (arith, b, w),
            )
        | inr t ↦
            let (k, s, p, q, u, v, w) = remove_old-some new excess (suc i) rs c (rw t at g) in
            (suc k, s, p, omega (arith, q), u, v, w)
      ]
]

-- Where the loop over the old sets finds nothing to do, each of them has none to give up.
pub remove_old-none :
    (new excess i : ℕ) (sets : List Value) (k : ℕ) (r : Value)
    → remove_old new excess i sets ≡ ok none
    → nth k sets ≡ some r
    → i + k ≢ new
    → min (wanted r) ((wanted r - count r "availableReplicas") + excess) ≡ 0
remove_old-none new excess i [] k r h n d = absurd (cc)
remove_old-none new excess i (x ∷ xs) zero r h n d = elim (Bool-cases (i == new)) [
  | inl e ↦ absurd (d (let q = ==_eq i new e in omega (arith, q)))
  | inr e ↦
      let (old, f, g) = >>=-eq-ok (replicas x) _ (rw e at h) in
      let removed = min old ((old - count x "availableReplicas") + excess) in
      elim (Bool-cases (ltb 0 removed)) [
        | inl t ↦ absurd (let q = ok-injective (rw t at g) in cc)
        | inr t ↦
            let q : x ≡ r = cc in
            let w = wanted-eq x old f in
            subst (λ r. min (wanted r) ((wanted r - count r "availableReplicas") + excess) ≡ 0) q
              (ground (arith, w))
      ]
]
remove_old-none new excess i (x ∷ xs) (suc k) r h n d =
    let later : remove_old new excess (suc i) xs ≡ ok none
        → min (wanted r) ((wanted r - count r "availableReplicas") + excess) ≡ 0 =
      λ g. remove_old-none new excess (suc i) xs k r g n (λ e. d (omega (arith, e))) in
    elim (Bool-cases (i == new)) [
      | inl e ↦ later (rw e at h)
      | inr e ↦
          let (old, f, g) = >>=-eq-ok (replicas x) _ (rw e at h) in
          elim (Bool-cases (ltb 0 (min old ((old - count x "availableReplicas") + excess)))) [
            | inl t ↦ absurd (let q = ok-injective (rw t at g) in cc)
            | inr t ↦ later (rw t at g)
          ]
    ]

-- A step of a rolling update. It lowers the new set to the desired number where it has more; or it
-- raises the new set, to at most the desired number, so that all sets together ask for at most the
-- desired number and the surge; or it lowers an old set, which gives up at most as many available
-- Pods as all sets have beyond the minimum.
pub data IsSafe (desired : ℕ) (b : Bounds) (sets : List Value) (new : ℕ) (c : Change) : Type 0 where
  lowers_new :
      (r : Value)
      → nth new sets ≡ some r
      → c.index ≡ new
      → c.replicas ≡ desired
      → desired < wanted r
      → IsSafe desired b sets new c
  raises_new :
      (r : Value)
      → nth new sets ≡ some r
      → c.index ≡ new
      → wanted r < c.replicas
      → c.replicas ≤ desired
      → sum sets + c.replicas ≤ desired + b.surge + wanted r
      → IsSafe desired b sets new c
  lowers_old :
      (r : Value)
      → nth c.index sets ≡ some r
      → c.index ≢ new
      → c.replicas < wanted r
      → min (wanted r) (count r "availableReplicas")
        ≤ c.replicas + (available sets - (desired - b.unavailable))
      → IsSafe desired b sets new c

pub rolling-IsSafe :
    (desired n : ℕ) (b : Bounds) (sets : List Value) (new : ℕ) (r : Value) (c : Change)
    → nth new sets ≡ some r
    → wanted r ≡ n
    → rolling desired n b sets new ≡ ok (some c)
    → IsSafe desired b sets new c
rolling-IsSafe desired n b sets new r c at w h = elim (Bool-cases (ltb desired n)) [
  | inl e ↦
      let q : ◌≡◌ {A = Option Change} (some (record { index = new; replicas = desired })) (some c) =
        ok-injective (rw e at h) in
      let i : new ≡ c.index = cc in
      let k : desired ≡ c.replicas = cc in lowers_new r at (sym i) (sym k) (ground (arith, w))
  | inr e ↦
      let (t, f, g) = >>=-eq-ok (total 0 sets) _ (rw e at h) in
      let s = total-sum 0 t sets f in
      elim (Bool-cases (ltb n desired && ltb t (desired + b.surge))) [
        | inl u ↦
            let q : ◌≡◌ {A = Option Change}
                (some (record {
                  index = new;
                  replicas = n + min (desired - n) (desired + b.surge - t);
                }))
                (some c) =
              ok-injective (rw u at g) in
            let i : new ≡ c.index = cc in
            let k : n + min (desired - n) (desired + b.surge - t) ≡ c.replicas = cc in
            raises_new r at (sym i) (ground (arith, k, w)) (ground (arith, k, w))
              (ground (arith, k, w, s))
        | inr u ↦
            let (k, x, p, q, d, less, enough) =
              remove_old-some new (available sets - (desired - b.unavailable)) 0 sets c
                (rw u at g) in
            let j : k ≡ c.index = omega (arith, q) in
            lowers_old x (ap (λ j. nth j sets) (sym j) ∙ p) d less enough
      ]
]
