-- ===== src/Storage/Table.antt =====
-- crates/h3s-storage/src/sqlite.rs: the tables and the queries over `registry_versions`.
use hedronetes_h3s.Prelude.{
  ℕ, String, List, [], ◌∷◌, Bool, false, ◌&&◌, Option, none, some, if◌then◌else◌, ◌==◌, leb, ltb,
  str_eq, codes, starts_with, ok, err,
}
use mathlib.Core.Option
use hedronetes_h3s.Storage.Types.{
  Bytes, StoredObject, EventKind, added, modified, deleted, bookmark, R, Error, SecretsSealer,
  invalid, future_revision, worker,
}

-- A row of `registry_versions`; `kind` is 0, 1 or 2.
pub record Row : Type 0 where
  pub key : String
  pub revision : ℕ
  pub value : Bytes
  pub kind : ℕ

-- A row of `registry_leases`.
pub record LeaseRow : Type 0 where
  pub id : ℕ
  pub ttl_ms : ℕ
  pub expires_ms : ℕ

-- The database: the one row of `registry_meta`, the version log with the newest row first, the
-- leases, and the counter behind AUTOINCREMENT.
pub record Db : Type 0 where
  pub revision : ℕ
  pub compacted : ℕ
  pub versions : List Row
  pub leases : List LeaseRow
  pub last_lease : ℕ

abbrev pub empty : Db
empty = record { revision = 0; compacted = 0; versions = []; leases = []; last_lease = 0 }

abbrev pub newer : Option Row → Option Row → Option Row
newer none b = b
newer (some a) none = some a
newer (some a) (some b) = if ltb a.revision b.revision then some b else some a

-- `… WHERE test ORDER BY revision DESC LIMIT 1`, also the row that `MAX(revision)` is taken from.
unfoldable pub newest : (Row → Bool) → List Row → Option Row
newest test [] = none
newest test (x ∷ xs) = let rest = newest test xs in if test x then newer (some x) rest else rest

-- `key=?1`, `key=?1 AND revision<=?2`, `key=?1 AND revision<?2`
abbrev pub has_key : String → Row → Bool
has_key k x = str_eq x.key k

abbrev pub until : String → ℕ → Row → Bool
until k r x = str_eq x.key k && leb x.revision r

abbrev pub before : String → ℕ → Row → Bool
before k r x = str_eq x.key k && ltb x.revision r

abbrev pub revision_is : ℕ → Option Row → Bool
revision_is n none = false
revision_is n (some m) = m.revision == n

-- Is `x` the row of its key that is current at revision `r`?
-- `v.revision=(SELECT MAX(p.revision) … WHERE p.key=v.key AND p.revision<=r)`
unfoldable pub is_current_at : ℕ → List Row → Row → Bool
is_current_at r rows x = revision_is x.revision (newest (until x.key r) rows)

-- `substr(v.key,1,length(?))=?`
abbrev pub in_prefix : String → Row → Bool
in_prefix prefix x = starts_with (codes x.key) (codes prefix)

abbrev pub to_object : Row → StoredObject
to_object x = record { key = x.key; value = x.value; revision = x.revision }

abbrev pub live : Option Row → Option Row
live none = none
live (some x) = if x.kind == 2 then none else some x

abbrev pub object_for : String → Row → StoredObject
object_for k x = record { key = k; value = x.value; revision = x.revision }

unfoldable pub get_current : List Row → String → Option StoredObject
get_current rows k = Option.map (object_for k) (live (newest (has_key k) rows))

-- `unreachable!()` ends the worker's task.
unfoldable pub kind_number : EventKind → R ℕ
kind_number added = ok 0
kind_number modified = ok 1
kind_number deleted = ok 2
kind_number bookmark = err worker

abbrev pub geo_envelope : Bytes
geo_envelope = codes "H3SGEO1:"

unfoldable pub decode_row_value : SecretsSealer → Bytes → R Bytes
decode_row_value sealer value =
    if starts_with value geo_envelope then sealer.open_sealed value else ok value

abbrev pub i64_limit : ℕ
i64_limit = 9223372036854775807

unfoldable pub revision_i64 : ℕ → R ℕ
revision_i64 rev =
    if leb rev i64_limit then ok rev else err (invalid "revision exceeds backend range")

unfoldable pub validate_revision : ℕ → ℕ → ℕ → R (Unit {0})
validate_revision rev current floor =
    if ltb rev floor
    then err (Error.compacted rev floor)
    else if ltb current rev
    then err (future_revision rev current)
    else ok tt
