-- ===== src/Rollout/Progress.antt =====
-- crates/h3s-controllers/src/workload/deployment.rs: a rolling update is safe, and is never stuck.
use Prim.Native.Nat.{min}
use hedronetes_h3s.Prelude.{
  ℕ, zero, suc, ◌+◌, ◌-◌, ◌≤◌, ◌<◌, List, [], ◌∷◌, true, false, ◌&&◌, not, ◌≡◌, ◌≢◌, ◌⊎◌, refl, sym,
  ap, ◌∙◌, subst, inl, inr, Option, none, some, ltb, ◌==◌, any, arith, Bool-cases, In, here, there,
  ok, >>=-eq-ok, ok-injective, i64_max,
}
use hedronetes_h3s.Json.{Value, ◌!◌, is_true, is_text}
use hedronetes_h3s.Rollout.Plan.{
  replicas, observed, count, Bounds, check_bounds, fraction, bounds, Change, nth, total, available,
  rolling, by_type, plan, new_set,
}
use hedronetes_h3s.Rollout.Steps.{
  wanted, wanted-eq, sum, nth-two, total-sum, remove_old-none, IsSafe, rolling-IsSafe,
}

bounds-eq :
    (d : Value) (desired : ℕ) (b : Bounds)
    → replicas d ≡ ok desired
    → bounds d ≡ ok b
    → ((desired ≡ 0) ⊎ (0 < b.surge + b.unavailable)) × (b.unavailable ≤ desired)
unfolding bounds
bounds-eq d desired b e h =
    let update = d ! "spec" ! "strategy" ! "rollingUpdate" in
    let (n, f, g) = >>=-eq-ok (replicas d) _ h in
    let (surge, f2, g2) = >>=-eq-ok (fraction (update ! "maxSurge") n true) _ g in
    let (away, f3, g3) = >>=-eq-ok (fraction (update ! "maxUnavailable") n false) _ g2 in
    let q : n ≡ desired = ok-injective (sym f ∙ e) in
    checked n (record { surge = surge; unavailable = min away n }) q (omega arith) g3
  where
    checked :
        (n : ℕ) (x : Bounds)
        → n ≡ desired
        → x.unavailable ≤ n
        → check_bounds n x ≡ ok b
        → ((desired ≡ 0) ⊎ (0 < b.surge + b.unavailable)) × (b.unavailable ≤ desired)
    checked n x q small k = elim (Bool-cases (ltb 0 n && x.surge == 0 && x.unavailable == 0)) [
      | inl t ↦ absurd (let y = rw t at k in cc)
      | inr t ↦ elim (Bool-cases (ltb i64_max (n + x.surge))) [
        | inl u ↦ absurd (let y = rw (t, u) at k in cc)
        | inr u ↦
            let same : x ≡ b = ok-injective (rw (t, u) at k) in
            subst
              (λ (b : Bounds).
                ((desired ≡ 0) ⊎ (0 < b.surge + b.unavailable)) × (b.unavailable ≤ desired))
              same (ground arith, omega (arith, q, small))
      ]
    ]

available-sum :
    (sets : List Value)
    → ((r : Value) → In r sets → count r "availableReplicas" ≡ wanted r)
    → available sets ≡ sum sets
available-sum [] h = refl
available-sum (r ∷ rs) h =
    let ih = available-sum rs (λ x m. h x (there m)) in
    let e = h r (here refl) in omega (arith, ih, e)

sum-zero :
    (sets : List Value) → ((k : ℕ) (r : Value) → nth k sets ≡ some r → wanted r ≡ 0) → sum sets ≡ 0
sum-zero [] h = refl
sum-zero (x ∷ xs) h =
    let a = h zero x refl in let ih = sum-zero xs (λ k r e. h (suc k) r e) in omega (arith, a, ih)

sum-only :
    (new : ℕ) (sets : List Value) (x : Value)
    → nth new sets ≡ some x
    → ((k : ℕ) (r : Value) → nth k sets ≡ some r → k ≢ new → wanted r ≡ 0)
    → sum sets ≡ wanted x
sum-only new [] x at h = absurd (cc)
sum-only zero (y ∷ ys) x at h =
    let e : y ≡ x = cc in
    let w = ap wanted e in
    let z = sum-zero ys (λ k r g. h (suc k) r g (λ q. absurd (ground (arith, q)))) in
    omega (arith, w, z)
sum-only (suc new) (y ∷ ys) x at h =
    let a = h zero y refl (λ q. absurd (ground (arith, q))) in
    let ih = sum-only new ys x at (λ k r g d. h (suc k) r g (λ q. d (omega (arith, q)))) in
    omega (arith, a, ih)

nth→In : (k : ℕ) (sets : List Value) (r : Value) → nth k sets ≡ some r → In r sets
nth→In k [] r h = absurd (cc)
nth→In zero (x ∷ xs) r h = here (cc)
nth→In (suc k) (x ∷ xs) r h = there (nth→In k xs r h)

-- The plan of a Deployment that is neither paused nor Recreate, on sets that are all observed, is
-- that of `rolling`.
module _ (d : Value) (sets : List Value) (new : ℕ)
    (type : is_text "Recreate" (d ! "spec" ! "strategy" ! "type") ≡ false) where
  abbrev Rolls : Option Change → Type 0
  Rolls o =
      (desired : ℕ) × (b : Bounds) × (r : Value) × (n : ℕ) × (replicas d ≡ ok desired)
      × (bounds d ≡ ok b)
      × (nth new sets ≡ some r)
      × (replicas r ≡ ok n)
      × (rolling desired n b sets new ≡ ok o)

  plan-Rolls :
      (o : Option Change)
      → is_true (d ! "spec" ! "paused") ≡ false
      → any (λ r. not (observed r)) sets ≡ false
      → plan d sets new ≡ ok o
      → Rolls o
  unfolding plan
  plan-Rolls o p q h =
      let (desired, f, g) = >>=-eq-ok (replicas d) _ h in
      let (r, f2, g2) = >>=-eq-ok (new_set (nth new sets)) _ (rw (p, q) at g) in
      let (n, f3, g3) = >>=-eq-ok (replicas r) _ g2 in
      let g3b = subst (λ t. by_type t d desired n sets new ≡ ok o) type g3 in
      let (b, f4, g4) = >>=-eq-ok (bounds d) _ g3b in
      (desired, b, r, n, f, f4, at_new (nth new sets) r f2, f3, g4)
    where
      at_new : (o : Option Value) (r : Value) → new_set o ≡ ok r → o ≡ some r
      at_new none r h = absurd (cc)
      at_new (some x) r h = cc

  changing :
      (c : Change)
      → plan d sets new ≡ ok (some c)
      → (is_true (d ! "spec" ! "paused") ≡ false) × (any (λ r. not (observed r)) sets ≡ false)
  unfolding plan
  changing c h =
      let (desired, f, g) = >>=-eq-ok (replicas d) _ h in
      elim (Bool-cases (is_true (d ! "spec" ! "paused"))) [
        | inl p ↦ absurd (let k = ok-injective (rw p at g) in cc)
        | inr p ↦ elim (Bool-cases (any (λ r. not (observed r)) sets)) [
          | inl q ↦ absurd (let k = ok-injective (rw (p, q) at g) in cc)
          | inr q ↦ (p, q)
        ]
      ]

  -- A step of a rolling update lowers the new set to the desired number where it has more; or it
  -- raises the new set, to at most the desired number, so that all sets together ask for at most the
  -- desired number and the surge; or it lowers an old set. At most as many of the available Pods of
  -- that one go as are available beyond the desired number less the unavailable ones that the
  -- strategy allows. No step raises an old set.
  pub plan-IsSafe :
      (c : Change)
      → plan d sets new ≡ ok (some c)
      → (desired : ℕ) × (b : Bounds) × (replicas d ≡ ok desired)
        × (bounds d ≡ ok b)
        × IsSafe desired b sets new c
  plan-IsSafe c h =
      let (p, q) = changing c h in
      let (desired, b, r, n, e, f, at, v, g) = plan-Rolls (some c) p q h in
      let w = wanted-eq r n v in (desired, b, e, f, rolling-IsSafe desired n b sets new r c at w g)

  -- A rolling update is never stuck: if the sets are observed, the Deployment is not paused, and all
  -- replicas that the sets ask for are available, there is nothing to do only when the new set asks
  -- for the desired number and every other set for none.
  pub plan-finished :
      is_true (d ! "spec" ! "paused") ≡ false
      → any (λ r. not (observed r)) sets ≡ false
      → ((r : Value) → In r sets → count r "availableReplicas" ≡ wanted r)
      → plan d sets new ≡ ok none
      → (desired : ℕ) × (x : Value) × (replicas d ≡ ok desired)
        × (nth new sets ≡ some x)
        × (replicas x ≡ ok desired)
        × ((k : ℕ) (r : Value) → nth k sets ≡ some r → k ≢ new → wanted r ≡ 0)
  plan-finished p q healthy h =
      let (desired, b, x, n, e, f, atn, asked, g) = plan-Rolls none p q h in
      let w = wanted-eq x n asked in
      let all_there = available-sum sets healthy in
      let (some_room, small) = bounds-eq d desired b e f in
      elim (Bool-cases (ltb desired n)) [
        | inl t ↦ absurd (let z = ok-injective (rw t at g) in cc)
        | inr t ↦
            let (s, u, v) = >>=-eq-ok (total 0 sets) _ (rw t at g) in
            let total_is = total-sum 0 s sets u in
            elim (Bool-cases (ltb n desired && ltb s (desired + b.surge))) [
              | inl y ↦ absurd (let z = ok-injective (rw y at v) in cc)
              | inr y ↦
                  let excess = available sets - (desired - b.unavailable) in
                  let left : (j : ℕ) (z : Value)
                      → nth j sets ≡ some z
                      → j ≢ new
                      → min (wanted z) excess ≡ 0 =
                    λ j z aj dj.
                      let m =
                        remove_old-none new excess 0 sets j z (rw y at v) aj
                          (λ q. dj (omega (arith, q))) in
                      let there_too = healthy z (nth→In j sets z aj) in
                      omega (arith, m, there_too) in
                  let full : n ≡ desired = elim (Bool-cases (ltb n desired)) [
                    | inr o ↦ ground arith
                    | inl o ↦
                        let room : 0 < excess =
                          ground (arith, all_there, total_is, some_room, small) in
                        let only =
                          sum-only new sets x atn
                            (λ j z aj dj. let m = left j z aj dj in omega (arith, m, room)) in
                        absurd (ground (arith, only, w, total_is))
                  ] in
                  (
                    desired,
                    x,
                    e,
                    atn,
                    asked ∙ ap ok full,
                    λ k r at d2.
                        let m = left k r at d2 in
                        let two = nth-two k new sets r x at atn d2 in
                        ground (arith, m, two, all_there, total_is, w, small, full),
                  )
            ]
      ]
