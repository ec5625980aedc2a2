-- ===== src/Patch/Measure.antt =====
-- The size of a JSON value, in nodes, and the depth of its nesting.
use Prim.Native.Nat.{max}
use hedronetes_h3s.Prelude.{ℕ, suc, ◌+◌, List, [], ◌∷◌, Option, none, some}
use hedronetes_h3s.Json.{Value, array, object, Items, nil, cons, Fields, end, field}

unfoldable mutual
  pub size : Value → ℕ
  size (array vs) = suc (size_items vs)
  size (object fs) = suc (size_fields fs)
  size _ = 1

  pub size_items : Items → ℕ
  size_items nil = 0
  size_items (cons v vs) = size v + size_items vs

  pub size_fields : Fields → ℕ
  size_fields end = 0
  size_fields (field k v fs) = size v + size_fields fs

unfoldable mutual
  pub nesting : Value → ℕ
  nesting (array vs) = suc (nesting_items vs)
  nesting (object fs) = suc (nesting_fields fs)
  nesting _ = 0

  pub nesting_items : Items → ℕ
  nesting_items nil = 0
  nesting_items (cons v vs) = max (nesting v) (nesting_items vs)

  pub nesting_fields : Fields → ℕ
  nesting_fields end = 0
  nesting_fields (field k v fs) = max (nesting v) (nesting_fields fs)

abbrev pub size_list : List Value → ℕ
size_list [] = 0
size_list (v ∷ vs) = size v + size_list vs

abbrev pub size_option : Option Value → ℕ
size_option none = 0
size_option (some v) = size v
