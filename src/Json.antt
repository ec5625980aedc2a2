-- ===== src/Json.antt =====
-- `serde_json::Value`, in which the API server, the scheduler and the kubelet exchange objects. An
-- object is its fields in the order of the map. An integer is kept as one; a number with a fraction
-- or an exponent is kept as its text, and no accessor that the code uses reads it.
use hedronetes_h3s.Prelude.{
  String, List, [], ◌∷◌, Bool, true, false, ◌&&◌, Option, none, some, if◌then◌else◌, str_eq,
  text_lt, leb, ◌≡◌, refl, ap, ◌∙◌, inl, inr, Bool-cases, str_eq_refl, eq_iff, ℤ, pos, negsuc,
  eqb_ℤ, i64_max,
}

mutual
  pub data Value : Type 0 where
    null : Value
    bool : Bool → Value
    int : ℤ → Value
    float : String → Value
    string : String → Value
    array : Items → Value
    object : Fields → Value

  pub data Items : Type 0 where
    nil : Items
    cons : Value → Items → Items

  pub data Fields : Type 0 where
    end : Fields
    field : String → Value → Fields → Fields

abbrev pub items_list : Items → List Value
items_list nil = []
items_list (cons v vs) = v ∷ items_list vs

abbrev pub fields_list : Fields → List (String × Value)
fields_list end = []
fields_list (field k v fs) = (k, v) ∷ fields_list fs

abbrev pub list_items : List Value → Items
list_items [] = nil
list_items (v ∷ vs) = cons v (list_items vs)

abbrev pub get_field : String → Fields → Option Value
get_field k end = none
get_field k (field j v fs) = if str_eq j k then some v else get_field k fs

abbrev pub or_null : Option Value → Value
or_null none = null
or_null (some v) = v

-- `value.get(key)`
abbrev pub get : Value → String → Option Value
get (object fs) k = get_field k fs
get _ k = none

-- `value[key]`: null where there is no such field, and on what is no object.
infixl 80 ◌!◌
abbrev pub ◌!◌ : Value → String → Value
v ! k = or_null (get v k)

abbrev pub is_null : Value → Bool
is_null null = true
is_null _ = false

abbrev pub as_str : Value → Option String
as_str (string s) = some s
as_str _ = none

abbrev pub as_bool : Value → Option Bool
as_bool (bool b) = some b
as_bool _ = none

abbrev in_i64 : ℤ → Bool
in_i64 (pos n) = leb n i64_max
in_i64 (negsuc n) = leb n i64_max

abbrev pub as_i64 : Value → Option ℤ
as_i64 (int z) = if in_i64 z then some z else none
as_i64 _ = none

abbrev pub as_array : Value → Option (List Value)
as_array (array vs) = some (items_list vs)
as_array _ = none

abbrev pub as_object : Value → Option (List (String × Value))
as_object (object fs) = some (fields_list fs)
as_object _ = none

-- `value == "text"` and `value == true`
abbrev pub is_text : String → Value → Bool
is_text t (string s) = str_eq s t
is_text t _ = false

abbrev pub is_true : Value → Bool
is_true (bool b) = b
is_true _ = false

abbrev bool_eq : Bool → Bool → Bool
bool_eq true b = b
bool_eq false true = false
bool_eq false false = true

-- `==` of two values
unfoldable mutual
  pub value_eq : Value → Value → Bool
  value_eq null null = true
  value_eq (bool a) (bool b) = bool_eq a b
  value_eq (int a) (int b) = eqb_ℤ a b
  value_eq (float a) (float b) = str_eq a b
  value_eq (string a) (string b) = str_eq a b
  value_eq (array a) (array b) = items_eq a b
  value_eq (object a) (object b) = fields_eq a b
  value_eq _ _ = false

  pub items_eq : Items → Items → Bool
  items_eq nil nil = true
  items_eq (cons a vs) (cons b ws) = value_eq a b && items_eq vs ws
  items_eq _ _ = false

  pub fields_eq : Fields → Fields → Bool
  fields_eq end end = true
  fields_eq (field j a fs) (field k b gs) = str_eq j k && value_eq a b && fields_eq fs gs
  fields_eq _ _ = false

-- `value[key] = new` on a map, whose keys are in order: the field is replaced where it stands, or
-- inserted.
abbrev pub set_field : String → Value → Fields → Fields
set_field k new end = field k new end
set_field k new (field j v fs) =
    if str_eq j k
    then field j new fs
    else if text_lt k j
    then field k new (field j v fs)
    else field j v (set_field k new fs)

-- Writing a field gives it its new value, and keeps the values of the others.
pub get_field-set_field :
    (k : String) (v : Value) (fs : Fields) → get_field k (set_field k v fs) ≡ some v
get_field-set_field k v end = rw (str_eq_refl k) refl
get_field-set_field k v (field j w fs) = elim (Bool-cases (str_eq j k)) [
  | inl e ↦ rw (e, e) refl
  | inr e ↦ elim (Bool-cases (text_lt k j)) [
    | inl l ↦ rw (e, l, str_eq_refl k) refl
    | inr l ↦ rw (e, l, e) (get_field-set_field k v fs)
  ]
]

pub other_field :
    (k j : String) (v : Value) (fs : Fields)
    → str_eq k j ≡ false
    → get_field j (set_field k v fs) ≡ get_field j fs
other_field k j v end h = rw h refl
other_field k j v (field i w fs) h = elim (Bool-cases (str_eq i k)) [
  | inl e ↦
      let g : str_eq i j ≡ false = ap (λ t. str_eq t j) ((eq_iff i k).0 e) ∙ h in rw (e, g) refl
  | inr e ↦ elim (Bool-cases (text_lt k i)) [
    | inl l ↦ rw (e, l, h) refl
    | inr l ↦ elim (Bool-cases (str_eq i j)) [
      | inl m ↦ rw (e, l, m) refl
      | inr m ↦ rw (e, l, m) (other_field k j v fs h)
    ]
  ]
]

-- The same on a value: null becomes an object first, and anything else panics.
abbrev pub set_key : String → Value → Value → Option Value
set_key k new (object fs) = some (object (set_field k new fs))
set_key k new null = some (object (field k new end))
set_key k new _ = none

-- `array(v)`, `v.as_array().into_iter().flatten()`
abbrev pub elements : Value → List Value
elements (array vs) = items_list vs
elements _ = []

-- `json!({…})` and `json!([…])`
abbrev collect_fields : List (String × Value) → Fields
collect_fields [] = end
collect_fields ((k, v) ∷ rest) = field k v (collect_fields rest)

abbrev pub json : List (String × Value) → Value
json kvs = object (collect_fields kvs)

abbrev pub items : List Value → Value
items vs = array (list_items vs)
