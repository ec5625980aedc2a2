-- ===== src/Rollout/Plan.antt =====
-- crates/h3s-controllers/src/workload/deployment.rs: `observed`, `count`, `fraction`, `bounds` and
-- `plan`; `replicas` of workload/mod.rs.
use Prim.Native.Nat.{min}
use mathlib.Core.Option
use hedronetes_h3s.Prelude.{
  ℕ, zero, suc, ◌+◌, ◌-◌, ◌*◌, ◌/◌, ◌%◌, String, List, [], ◌∷◌, Bool, true, false, ◌&&◌, ◌||◌, not,
  Option, none, some, if◌then◌else◌, leb, ltb, ◌==◌, any, codes, strip_suffix, parse_i64_codes,
  i64_max, ℤ, pos, Result, ok, err, ok_or,
}
use hedronetes_h3s.Prelude.Results.{◌>>=◌}
use hedronetes_h3s.Json.{Value, ◌!◌, as_i64, as_str, is_true, is_text, value_eq}

-- `Error::Invalid`, by its text
abbrev pub R {ℓ} : Type ℓ → Type ℓ
R A = Result String A

-- LIMIT of workload/mod.rs
abbrev limit : ℕ
limit = 4096

-- `filter(|n| *n >= 0)`
abbrev natural : Option ℤ → Option ℕ
natural (some (pos n)) = some n
natural _ = none

abbrev within_limit : Option ℕ → R ℕ
within_limit none = err "replica count exceeds the current bounded controller range"
within_limit (some n) =
    if leb n limit then ok n else err "replica count exceeds the current bounded controller range"

unfoldable pub replicas : Value → R ℕ
replicas v = within_limit (natural (as_i64 (v ! "spec" ! "replicas")))

unfoldable pub observed : Value → Bool
observed rs = value_eq (rs ! "status" ! "observedGeneration") (rs ! "metadata" ! "generation")

-- `unwrap_or(0).max(0)`
abbrev or_zero : Option ℕ → ℕ
or_zero none = 0
or_zero (some n) = n

unfoldable pub count : Value → String → ℕ
count rs field = or_zero (natural (as_i64 (rs ! "status" ! field)))

abbrev percentage : Option ℕ → R ℕ
percentage none = err "invalid rollout percentage"
percentage (some n) = ok n

abbrev percent_of : Value → Option ℕ
percent_of v =
    natural (
      Option.bind (as_str v)
        (λ s. Option.bind (strip_suffix (b'%' ∷ []) (codes s)) parse_i64_codes))

abbrev share : ℕ → Bool → ℕ → ℕ
share product ceil remainder =
    if ceil && not (remainder == 0) then product / 100 + 1 else product / 100

abbrev fraction_of : Option ℕ → Value → ℕ → Bool → R ℕ
fraction_of (some n) v desired ceil = ok n
fraction_of none v desired ceil = percentage (percent_of v) >>= λ percent.
    let product = desired * percent in
    if ltb i64_max product
    then err "rollout percentage overflow"
    else ok (share product ceil (product % 100))

unfoldable pub fraction : Value → ℕ → Bool → R ℕ
fraction v desired ceil = fraction_of (natural (as_i64 v)) v desired ceil

pub record Bounds : Type 0 where
  pub surge : ℕ
  pub unavailable : ℕ

abbrev pub check_bounds : ℕ → Bounds → R Bounds
check_bounds desired b =
    if ltb 0 desired && b.surge == 0 && b.unavailable == 0
    then err "rollout requires nonzero maxSurge or maxUnavailable"
    else if ltb i64_max (desired + b.surge)
    then err "rollout capacity overflow"
    else ok b

unfoldable pub bounds : Value → R Bounds
bounds d =
    let update = d ! "spec" ! "strategy" ! "rollingUpdate" in
    replicas d >>= λ desired. fraction (update ! "maxSurge") desired true >>= λ surge.
    fraction (update ! "maxUnavailable") desired false >>= λ unavailable.
    check_bounds desired (record { surge = surge; unavailable = min unavailable desired })

-- Which set gets how many replicas
pub record Change : Type 0 where
  pub index : ℕ
  pub replicas : ℕ

abbrev pub nth {ℓ} : {A : Type ℓ} → ℕ → List A → Option A
nth i [] = none
nth zero (x ∷ xs) = some x
nth (suc i) (x ∷ xs) = nth i xs

-- The first loop of a Recreate: an old set that still has replicas.
abbrev pub stop_old : ℕ → ℕ → List Value → R (Option Change)
stop_old new i [] = ok none
stop_old new i (r ∷ rs) =
    let rest = stop_old new (suc i) rs in
    if i == new
    then rest
    else replicas r >>= λ n.
        if ltb 0 n then ok (some (record { index = i; replicas = 0 })) else rest

-- `any(|(i, r)| i != new && count(r, "replicas") > 0)`
abbrev pub old_running : ℕ → ℕ → List Value → Bool
old_running new i [] = false
old_running new i (r ∷ rs) =
    (not (i == new) && ltb 0 (count r "replicas")) || old_running new (suc i) rs

-- `(new_desired != desired).then_some((new, desired))`
abbrev set_new : ℕ → ℕ → ℕ → Option Change
set_new new new_desired desired =
    if new_desired == desired then none else some (record { index = new; replicas = desired })

abbrev or_recreate : ℕ → ℕ → ℕ → List Value → Option Change → R (Option Change)
or_recreate new new_desired desired sets (some c) = ok (some c)
or_recreate new new_desired desired sets none =
    if old_running new 0 sets then ok none else ok (set_new new new_desired desired)

-- `try_fold`
abbrev pub total : ℕ → List Value → R ℕ
total sum [] = ok sum
total sum (r ∷ rs) = replicas r >>= λ n.
    if ltb i64_max (sum + n) then err "replica sum overflow" else total (sum + n) rs

-- The sum of the available replicas; i64's overflow of this sum is not modelled.
abbrev pub available : List Value → ℕ
available [] = 0
available (r ∷ rs) = count r "availableReplicas" + available rs

-- The loop over the old sets
abbrev pub remove_old : ℕ → ℕ → ℕ → List Value → R (Option Change)
remove_old new excess i [] = ok none
remove_old new excess i (r ∷ rs) =
    let rest = remove_old new excess (suc i) rs in
    if i == new
    then rest
    else replicas r >>= λ old.
        let remove = min old ((old - count r "availableReplicas") + excess) in
        if ltb 0 remove then ok (some (record { index = i; replicas = old - remove })) else rest

abbrev pub rolling : ℕ → ℕ → Bounds → List Value → ℕ → R (Option Change)
rolling desired new_desired b sets new =
    if ltb desired new_desired
    then ok (some (record { index = new; replicas = desired }))
    else total 0 sets >>= λ sum.
        if ltb new_desired desired && ltb sum (desired + b.surge)
        then ok (
            some (record {
              index = new;
              replicas = new_desired + min (desired - new_desired) (desired + b.surge - sum);
            }))
        else remove_old new (available sets - (desired - b.unavailable)) 0 sets

abbrev pub new_set : Option Value → R Value
new_set o = ok_or o "index out of bounds"

-- The rest of `plan`, given whether the strategy is Recreate
abbrev pub by_type : Bool → Value → ℕ → ℕ → List Value → ℕ → R (Option Change)
by_type true d desired new_desired sets new =
    stop_old new 0 sets >>= or_recreate new new_desired desired sets
by_type false d desired new_desired sets new =
    bounds d >>= λ b. rolling desired new_desired b sets new

unfoldable pub plan : Value → List Value → ℕ → R (Option Change)
plan d sets new = replicas d >>= λ desired.
    if is_true (d ! "spec" ! "paused")
    then ok none
    else if any (λ r. not (observed r)) sets
    then ok none
    else new_set (nth new sets) >>= λ r. replicas r >>= λ new_desired.
        by_type (is_text "Recreate" (d ! "spec" ! "strategy" ! "type")) d desired new_desired sets
          new
