-- ===== src/Scheduler/Resources.antt =====
-- crates/h3s-scheduler/src/placement.rs: which Pods wait, what a Pod requests and what a Node offers.
-- No value that a quantity gives is negative, so a count is a natural number that an `i64` holds.
use mathlib.Core.Option
use hedronetes_h3s.Prelude.{
  ℕ, ◌+◌, String, List, [], ◌∷◌, Bool, true, false, ◌&&◌, ◌||◌, not, Option, none, some,
  if◌then◌else◌, leb, ◌==◌, any, str_eq, ℤ, pos, negsuc, parse_i64,
}
use hedronetes_h3s.Prelude.Options.{◌>>=◌, ◌>>◌, check}
use hedronetes_h3s.Json.{
  Value, null, array, object, nil, end, ◌!◌, as_str, as_array, as_object, is_null,
}
use hedronetes_h3s.Quantity.Parse.{Quantity, parse, as_milli_cpu, as_bytes, in_i64}

abbrev pub populated : Value → Bool
populated null = false
populated (array nil) = false
populated (object end) = false
populated _ = true

-- `matches!(v.as_str(), Some(..))` on a list of texts
abbrev pub one_of : List String → Option String → Bool
one_of words none = false
one_of words (some s) = any (str_eq s) words

unfoldable pub terminal : Value → Bool
terminal p = one_of ("Succeeded" ∷ "Failed" ∷ []) (as_str (p ! "status" ! "phase"))

abbrev nonempty_text : Option String → Bool
nonempty_text none = false
nonempty_text (some s) = not (str_eq s "")

abbrev default_scheduler : Option String → Bool
default_scheduler none = true
default_scheduler (some s) = str_eq s "" || str_eq s "default-scheduler"

unfoldable pub pending : Value → Bool
pending p =
    is_null (p ! "metadata" ! "deletionTimestamp")
    && not (nonempty_text (as_str (p ! "spec" ! "nodeName")))
    && default_scheduler (as_str (p ! "spec" ! "schedulerName"))
    && not (terminal p)

pub record Resources : Type 0 where
  pub cpu : ℕ
  pub memory : ℕ
  pub pods : ℕ

-- `Resources::default`
abbrev pub no_resources : Resources
no_resources = record { cpu = 0; memory = 0; pods = 0 }

-- `Resources::add`, with `checked_add`
unfoldable pub add : Resources → Resources → Option Resources
add a b = do
  cpu ← in_i64 (a.cpu + b.cpu)
  memory ← in_i64 (a.memory + b.memory)
  pods ← in_i64 (a.pods + b.pods)
  some (record { cpu = cpu; memory = memory; pods = pods })

unfoldable pub fits : Resources → Resources → Bool
fits a capacity = leb a.cpu capacity.cpu && leb a.memory capacity.memory && leb a.pods capacity.pods

-- A field that is no cpu and no memory.
abbrev other_resource : String × Value → Bool
other_resource (k, v) = not (str_eq k "cpu" || str_eq k "memory")

abbrev only_known : Value → Bool
only_known v = elim (as_object v) [ none ↦ true | some m ↦ not (any other_resource m) ]

-- `transpose_option` of a converted text: no text is no value, a bad one is an error.
abbrev transposed : (Quantity → Option ℕ) → Option String → Option (Option ℕ)
transposed convert none = some none
transposed convert (some s) = Option.map some (parse s >>= convert)

abbrev or_zero : Option ℕ → ℕ
or_zero none = 0
or_zero (some n) = n

abbrev or_else : Option ℕ → Option ℕ → Option ℕ
or_else none b = b
or_else (some a) b = some a

abbrev within_limit : ℕ → Option ℕ → Bool
within_limit request none = true
within_limit request (some l) = leb request l

-- One resource of one container: its request, its limit where it names none, or nothing.
abbrev pub container_request : Value → String → (Quantity → Option ℕ) → Option ℕ
container_request r key convert = do
  limit ← transposed convert (as_str (r ! "limits" ! key))
  request ← transposed convert (as_str (r ! "requests" ! key))
  let value = or_zero (or_else request limit)
  check (within_limit value limit)
  some value

unfoldable pub container_requests : Value → Option Resources
container_requests c = do
  let r = c ! "resources"
  check (only_known (r ! "requests") && only_known (r ! "limits"))
  cpu ← container_request r "cpu" as_milli_cpu
  memory ← container_request r "memory" as_bytes
  some (record { cpu = cpu; memory = memory; pods = 0 })

-- The loop over the containers.
abbrev pub add_containers : Resources → List Value → Option Resources
add_containers total [] = some total
add_containers total (c ∷ cs) = do
  values ← container_requests c
  next ← add total values
  add_containers next cs

abbrev pub nonempty : Option (List Value) → Option (List Value)
nonempty none = none
nonempty (some []) = none
nonempty (some (v ∷ vs)) = some (v ∷ vs)

abbrev overhead_of : Value → Option Resources
overhead_of overhead = do
  check (only_known overhead)
  cpu ← transposed as_milli_cpu (as_str (overhead ! "cpu"))
  memory ← transposed as_bytes (as_str (overhead ! "memory"))
  some (record { cpu = or_zero cpu; memory = or_zero memory; pods = 0 })

-- `requests`, from the five fields of the spec that it reads
unfoldable pub requests_of : Value → Value → Value → Value → Value → Option Resources
requests_of init_containers resources claims containers overhead = do
  check (not (populated init_containers || populated resources || populated claims))
  listed ← nonempty (as_array containers)
  total ← add_containers (record { cpu = 0; memory = 0; pods = 1 }) listed
  extra ← overhead_of overhead
  add total extra

abbrev pub spec_requests : Value → Option Resources
spec_requests s =
    requests_of (s ! "initContainers") (s ! "resources") (s ! "resourceClaims") (s ! "containers")
      (s ! "overhead")

unfoldable pub requests : Value → Option Resources
requests p = spec_requests (p ! "spec")

-- `.parse().ok().filter(|v| *v > 0)`
abbrev pub positive : ℤ → Option ℕ
positive (pos n) = if n == 0 then none else some n
positive (negsuc n) = none

-- `Quantity::parse(v.as_str()?)?.as_milli_cpu()?` and the like
unfoldable pub milli_in : Value → Option ℕ
milli_in v = as_str v >>= parse >>= as_milli_cpu

unfoldable pub bytes_in : Value → Option ℕ
bytes_in v = as_str v >>= parse >>= as_bytes

unfoldable pub pods_in : Value → Option ℕ
pods_in v = as_str v >>= parse_i64 >>= positive

unfoldable pub capacity : Value → Option Resources
capacity n = do
  let a = n ! "status" ! "allocatable"
  cpu ← milli_in (a ! "cpu")
  memory ← bytes_in (a ! "memory")
  pods ← pods_in (a ! "pods")
  some (record { cpu = cpu; memory = memory; pods = pods })
