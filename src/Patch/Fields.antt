-- ===== src/Patch/Fields.antt =====
-- `serde_json::Map`: the operations that the patches use besides those of Json.
use hedronetes_h3s.Prelude.{
  ℕ, suc, String, Bool, Option, none, some, if◌then◌else◌, str_eq, ◌≡◌, refl, ap, ◌∙◌, inl, inr,
  Bool-cases, false, eq_iff,
}
use hedronetes_h3s.Json.{Value, object, Fields, field, end, set_field, get, get_field, other_field}
use hedronetes_h3s.Patch.Schema.{is_some}

-- `Map::retain` by a test on keys
abbrev pub keep_fields : (String → Bool) → Fields → Fields
keep_fields test end = end
keep_fields test (field k v fs) =
    let rest = keep_fields test fs in if test k then field k v rest else rest

-- `Map::remove`, whose result the caller reads before
abbrev pub remove_field : String → Fields → Fields
remove_field key end = end
remove_field key (field k v fs) =
    let rest = remove_field key fs in if str_eq k key then rest else field k v rest

-- `Map::len`
abbrev pub field_count : Fields → ℕ
field_count end = 0
field_count (field k v fs) = suc (field_count fs)

-- `value.as_object().cloned().unwrap_or_default()`
abbrev pub fields_of : Value → Fields
fields_of (object fs) = fs
fields_of _ = end

-- `value.get(key).is_some()`
abbrev pub has : Value → String → Bool
has v key = is_some (get v key)

abbrev pub insert_some : String → Option Value → Fields → Fields
insert_some key none fs = fs
insert_some key (some v) fs = set_field key v fs

pub get_field-remove_field :
    (key k : String) (fs : Fields)
    → str_eq key k ≡ false
    → get_field k (remove_field key fs) ≡ get_field k fs
get_field-remove_field key k end h = refl
get_field-remove_field key k (field j v fs) h =
    let ih = get_field-remove_field key k fs h in
    elim (Bool-cases (str_eq j key)) [
      | inl e ↦
          let g : str_eq j k ≡ false = ap (λ t. str_eq t k) ((eq_iff j key).0 e) ∙ h in rw (e, g) ih
      | inr e ↦ elim (Bool-cases (str_eq j k)) [ inl g ↦ rw (e, g) refl | inr g ↦ rw (e, g) ih ]
    ]

pub insert_some-other :
    (key k : String) (o : Option Value) (fs : Fields)
    → str_eq key k ≡ false
    → get_field k (insert_some key o fs) ≡ get_field k fs
insert_some-other key k none fs h = refl
insert_some-other key k (some v) fs h = other_field key k v fs h
