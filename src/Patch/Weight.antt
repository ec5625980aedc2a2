-- ===== src/Patch/Weight.antt =====
-- crates/h3s-apiserver/src/patch/strategic.rs: the size of lists and objects.
use mathlib.Core.Logic.{∥∥₁_elim}
use native.Mathlib.Nat.{ℕ_set}
use mathlib.Core.List.{Permᴰ, Perm}
use hedronetes_h3s.Prelude.{
  ℕ, suc, ◌+◌, ◌≤◌, ◌≡◌, refl, ap, sym, ◌∙◌, inl, inr, String, List, [], ◌∷◌, ◌++◌, Bool, Option,
  none, some, str_eq, text_lt, arith, Bool-cases, keep, ok, ok_or,
}
use hedronetes_h3s.Json.{
  Value, null, bool, int, float, string, array, object, Items, nil, cons, Fields, end, field,
  get_field, set_field, items_list, list_items, as_array,
}
use hedronetes_h3s.Patch.Budget.{Failure}
use hedronetes_h3s.Patch.Fields.{remove_field, keep_fields, insert_some}
use hedronetes_h3s.Patch.Reorder.{reorder}
use hedronetes_h3s.Patch.Sequence.{reorder-IsSorted}
use hedronetes_h3s.Patch.Measure.{size, size_items, size_fields, size_list, size_option}

pub size_list-append : (vs ws : List Value) → size_list (vs ++ ws) ≡ size_list vs + size_list ws
size_list-append [] ws = omega arith
size_list-append (v ∷ vs) ws = omega (arith, size_list-append vs ws)

pub size_list-keep :
    (test : Value → Bool) (vs : List Value) → size_list (keep test vs) ≤ size_list vs
size_list-keep test [] = omega arith
size_list-keep test (v ∷ vs) =
    let ih = size_list-keep test vs in
    elim (Bool-cases (test v)) [ inl e ↦ rw e (omega arith) | inr e ↦ rw e (omega arith) ]

Permᴰ-size : {vs ws : List Value} → Permᴰ vs ws → size_list vs ≡ size_list ws
Permᴰ-size Permᴰ.nil = refl
Permᴰ-size (Permᴰ.cons e p) = omega (arith, ap size e, Permᴰ-size p)
Permᴰ-size (Permᴰ.swap e f) = omega (arith, ap size e, ap size f)
Permᴰ-size (Permᴰ.trans p q) = Permᴰ-size p ∙ Permᴰ-size q

Perm-size : {vs ws : List Value} → Perm vs ws → size_list vs ≡ size_list ws
Perm-size p = ∥∥₁_elim p (ℕ_set _ _) Permᴰ-size

pub reorder-size :
    (values order old : List Value) (key : Option String) (n m : ℕ) (r : List Value)
    → reorder values order old key n ≡ ok (r, m)
    → size_list r ≡ size_list values
reorder-size values order old key n m r h =
    Perm-size (reorder-IsSorted values order old key n m r h).0

pub size-list_items : (vs : List Value) → size (array (list_items vs)) ≡ suc (size_list vs)
unfolding size
size-list_items [] = refl
size-list_items (v ∷ vs) = let ih = size-list_items vs in omega (arith, ih)

pub size-items_list : (vs : Items) → size_list (items_list vs) ≡ size_items vs
unfolding size
size-items_list nil = refl
size-items_list (cons v vs) = omega (arith, size-items_list vs)

pub size-remove_field :
    (k : String) (fs : Fields)
    → size_option (get_field k fs) + size_fields (remove_field k fs) ≤ size_fields fs
unfolding size
size-remove_field k end = omega arith
size-remove_field k (field j v fs) =
    let ih = size-remove_field k fs in
    elim (Bool-cases (str_eq j k)) [ inl e ↦ rw e (omega arith) | inr e ↦ rw e (omega arith) ]

pub size-set_field :
    (k : String) (v : Value) (fs : Fields)
    → size_fields (set_field k v fs) ≤ size v + size_fields fs
unfolding size
size-set_field k v end = omega arith
size-set_field k v (field j w fs) =
    let ih = size-set_field k v fs in
    elim (Bool-cases (str_eq j k)) [
      | inl e ↦ rw e (omega arith)
      | inr e ↦ elim (Bool-cases (text_lt k j)) [
        | inl l ↦ rw (e, l) (omega arith)
        | inr l ↦ rw (e, l) (omega arith)
      ]
    ]

pub size-insert_some :
    (k : String) (o : Option Value) (fs : Fields)
    → size_fields (insert_some k o fs) ≤ size_option o + size_fields fs
size-insert_some k none fs = omega arith
size-insert_some k (some v) fs = size-set_field k v fs

pub size-keep_fields :
    (test : String → Bool) (fs : Fields) → size_fields (keep_fields test fs) ≤ size_fields fs
unfolding size
size-keep_fields test end = omega arith
size-keep_fields test (field k v fs) =
    let ih = size-keep_fields test fs in
    elim (Bool-cases (test k)) [ inl e ↦ rw e (omega arith) | inr e ↦ rw e (omega arith) ]

-- A list that stands in an object
pub as_array-size :
    (v : Value) (vs : List Value) (e : Failure)
    → ok_or (as_array v) e ≡ ok vs
    → suc (size_list vs) ≡ size v
unfolding size
as_array-size (array ws) vs e h =
    let p : items_list ws ≡ vs = cc in ap suc (ap size_list (sym p) ∙ size-items_list ws)
as_array-size null vs e h = absurd (cc)
as_array-size (bool b) vs e h = absurd (cc)
as_array-size (int z) vs e h = absurd (cc)
as_array-size (float t) vs e h = absurd (cc)
as_array-size (string s) vs e h = absurd (cc)
as_array-size (object fs) vs e h = absurd (cc)
