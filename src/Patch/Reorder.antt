-- ===== src/Patch/Reorder.antt =====
-- crates/h3s-apiserver/src/patch/strategic.rs: `reorder`.
use mathlib.Core.Option
use hedronetes_h3s.Prelude.{
  ℕ, suc, ◌+◌, String, List, [], ◌∷◌, ◌++◌, Bool, true, false, not, Option, none, some,
  if◌then◌else◌, ltb, length, keep, sort,
}
use hedronetes_h3s.Json.{Value}
use hedronetes_h3s.Patch.Budget.{Work, ◌>>◌, pure, lift, spend, saturating_mul}
use hedronetes_h3s.Patch.Schema.{is_some, same_id, check_ids}

-- The closure `position`
abbrev pub position : Option String → List Value → Value → Option ℕ
position key [] v = none
position key (other ∷ list) v =
    let rest = Option.map suc (position key list v) in if same_id key v other then some 0 else rest

-- Of two positions, the lesser; `None` is the least.
abbrev pub option_lt : Option ℕ → Option ℕ → Bool
option_lt none none = false
option_lt none (some j) = true
option_lt (some i) none = false
option_lt (some i) (some j) = ltb i j

-- The key of `sort_by_key(|v| position(v, list))`
abbrev pub by_position : Option String → List Value → Value → Value → Bool
by_position key list v w = option_lt (position key list v) (position key list w)

-- `matches!((position(left, old), position(right, old)), (Some(l), Some(r)) if l < r)`
abbrev both_lt : Option ℕ → Option ℕ → Bool
both_lt (some l) (some r) = ltb l r
both_lt _ _ = false

abbrev pub stands_before : Option String → List Value → Value → Value → Bool
stands_before key old left right = both_lt (position key old left) (position key old right)

-- The loop over the two peekable iterators, and the two `extend`s after it.
abbrev pub interleave {ℓ} : {A : Type ℓ} → (A → A → Bool) → List A → List A → List A
interleave before [] ys = ys
interleave before (x ∷ xs) [] = x ∷ xs
interleave before (x ∷ xs) (y ∷ ys) = elim (before x y) [
  | true ↦ x ∷ interleave before xs (y ∷ ys)
  | false ↦ y ∷ interleave before (x ∷ xs) ys
]

abbrev pub is_requested : Option String → List Value → Value → Bool
is_requested key order v = is_some (position key order v)

abbrev pub requested : Option String → List Value → List Value → List Value
requested key order values = sort (by_position key order) (keep (is_requested key order) values)

abbrev pub untouched : Option String → List Value → List Value → List Value → List Value
untouched key order old values =
    sort (by_position key old) (keep (λ v. not (is_requested key order v)) values)

unfoldable pub reorder : List Value → List Value → List Value → Option String → Work (List Value)
reorder values order old key =
    spend (saturating_mul (length values + length order) (length old + length order + 1))
    >> lift (check_ids key (values ++ order ++ old))
    >> pure (
        interleave (stands_before key old) (untouched key order old values)
          (requested key order values))
