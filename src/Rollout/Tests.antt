-- ===== src/Rollout/Tests.antt =====
-- Runs of crates/h3s-controllers/src/workload/deployment.rs on a Deployment of three replicas, and
-- the theorems at those.
use mathlib.Core.Option
use hedronetes_h3s.Prelude.{
  ℕ, [], ◌∷◌, ◌≢◌, ◌≡◌, refl, subst, inl, inr, none, some, pos, In, In-uncons, ok,
}
use hedronetes_h3s.Json.{Value, int, string, json, value_eq}
use hedronetes_h3s.Rollout.Plan.{
  replicas, observed, count, Bounds, bounds, fraction, Change, nth, plan,
}
use hedronetes_h3s.Rollout.Steps.{wanted, IsSafe}
use hedronetes_h3s.Rollout.Progress.{plan-IsSafe, plan-finished}

abbrev rollout_step : Value
rollout_step = json (("maxSurge", string "25%") ∷ ("maxUnavailable", int (pos 0)) ∷ [])

abbrev deployment : Value
deployment = json (
    (
      "spec",
      json (
          ("replicas", int (pos 3))
          ∷ (
            "strategy",
            json (("rollingUpdate", rollout_step) ∷ ("type", string "RollingUpdate") ∷ []),
          )
          ∷ []),
    )
    ∷ [])

abbrev set : ℕ → ℕ → Value
set wanted there = json (
    ("metadata", json (("generation", int (pos 1)) ∷ []))
    ∷ ("spec", json (("replicas", int (pos wanted)) ∷ []))
    ∷ (
      "status",
      json (("availableReplicas", int (pos there)) ∷ ("observedGeneration", int (pos 1)) ∷ []),
    )
    ∷ [])

abbrev one_more : Bounds
one_more = record { surge = 1; unavailable = 0 }

-- A quarter of three is rounded up: one Pod more than the three may run.
surge_runs : bounds deployment ≡ ok one_more
unfolding bounds replicas fraction Option.bind
surge_runs = refl

abbrev raise_new : Change
raise_new = record { index = 1; replicas = 1 }

abbrev lower_old : Change
lower_old = record { index = 0; replicas = 2 }

-- First the new set gets one replica, then an old one goes, when the new one is available.
first_step : plan deployment (set 3 3 ∷ set 0 0 ∷ []) 1 ≡ ok (some raise_new)
unfolding plan replicas observed count bounds fraction Option.bind value_eq
first_step = refl

second_step : plan deployment (set 3 3 ∷ set 1 1 ∷ []) 1 ≡ ok (some lower_old)
unfolding plan replicas observed count bounds fraction Option.bind value_eq
second_step = refl

waiting : plan deployment (set 3 3 ∷ set 1 0 ∷ []) 1 ≡ ok none
unfolding plan replicas observed count bounds fraction Option.bind value_eq
waiting = refl

plan-IsSafe_example :
    (desired : ℕ) × (b : Bounds) × (replicas deployment ≡ ok desired)
    × (bounds deployment ≡ ok b)
    × IsSafe desired b (set 3 3 ∷ set 1 1 ∷ []) 1 lower_old
unfolding plan replicas observed count bounds fraction Option.bind value_eq
plan-IsSafe_example = plan-IsSafe deployment (set 3 3 ∷ set 1 1 ∷ []) 1 refl lower_old refl

healthy : (r : Value) → In r (set 0 0 ∷ set 3 3 ∷ []) → count r "availableReplicas" ≡ wanted r
unfolding replicas count
healthy r m = elim (In-uncons m) [
  | inl e ↦ subst (λ r. count r "availableReplicas" ≡ wanted r) e refl
  | inr n ↦ elim (In-uncons n) [
    | inl e ↦ subst (λ r. count r "availableReplicas" ≡ wanted r) e refl
    | inr k ↦ elim k [ ]
  ]
]

plan-finished_example :
    (desired : ℕ) × (x : Value) × (replicas deployment ≡ ok desired)
    × (nth 1 (set 0 0 ∷ set 3 3 ∷ []) ≡ some x)
    × (replicas x ≡ ok desired)
    × ((k : ℕ) (r : Value) → nth k (set 0 0 ∷ set 3 3 ∷ []) ≡ some r → k ≢ 1 → wanted r ≡ 0)
unfolding plan replicas observed count bounds fraction Option.bind value_eq
plan-finished_example =
    plan-finished deployment (set 0 0 ∷ set 3 3 ∷ []) 1 refl refl refl healthy refl
