-- ===== src/Storage/Mutate.antt =====
-- crates/h3s-storage/src/sqlite.rs: `mutate` and the three writes that call it.
-- A transaction that is dropped before `commit` is rolled back, so an error inside it leaves the
-- database as it was. The methods run one at a time: the connection stands behind a mutex.
use hedronetes_h3s.Prelude.{
  ℕ, ◌+◌, String, [], ◌∷◌, Bool, true, false, Option, none, some, if◌then◌else◌, ◌==◌, ◌≡◌, ok, err,
  ◌>>=◌, ◌>>◌,
}
use hedronetes_h3s.Storage.Types.{
  Bytes, StoredObject, EventKind, added, modified, deleted, R, SecretsSealer, worker,
  already_exists, not_found, conflict, database,
}
use hedronetes_h3s.Storage.Keys.{is_secret_key}
use hedronetes_h3s.Storage.Table.{
  Row, Db, newest, has_key, get_current, kind_number, decode_row_value, revision_i64,
}

unfoldable pub check_expected : String → Option ℕ → Option StoredObject → R (Unit {0})
check_expected key none none = ok tt
check_expected key none (some old) = err (already_exists key)
check_expected key (some expected) none = err (not_found key)
check_expected key (some expected) (some old) =
    if expected == old.revision then ok tt else err (conflict expected old.revision)

unfoldable pub mutation_kind : Bool → Option StoredObject → EventKind
mutation_kind true previous = deleted
mutation_kind false (some old) = modified
mutation_kind false none = added

-- The payload that is written: a deletion keeps the last value, a Secret goes through custody.
unfoldable pub payload : SecretsSealer → StoredObject → Option StoredObject → Bool → R Bytes
payload sealer obj (some old) true = ok old.value
payload sealer obj none true = err worker
payload sealer obj previous false =
    if is_secret_key obj.key then sealer.seal obj.value else ok obj.value

-- The transaction: the stored row, the payload to return, and the database after the commit.
unfoldable pub mutate_tx : SecretsSealer → StoredObject → Option ℕ → Bool → Db → R (Bytes × Db)
mutate_tx sealer obj expected deleting db = do
  let previous = get_current db.versions obj.key
  check_expected obj.key expected previous
  value ← payload sealer obj previous deleting
  let new_revision = db.revision + 1
  returned ← (if deleting then ok value else decode_row_value sealer value)
  rev ← revision_i64 new_revision
  kind ← kind_number (mutation_kind deleting previous)
  ok (
    returned,
    record db {
      revision = new_revision;
      versions = record { key = obj.key; revision = rev; value = value; kind = kind } ∷ db.versions;
    },
  )

-- The read of the stored revision after the commit.
read_back : StoredObject → Bytes → Option Row → R StoredObject
read_back obj returned none = err database
read_back obj returned (some x) =
    ok (record { key = obj.key; value = returned; revision = x.revision })

finish : StoredObject → Db → R (Bytes × Db) → R StoredObject × Db
finish obj db (err e) = (err e, db)
finish obj db (ok (returned, db')) =
    (read_back obj returned (newest (has_key obj.key) db'.versions), db')

unfoldable pub mutate : SecretsSealer → StoredObject → Option ℕ → Bool → Db → R StoredObject × Db
unfolding finish read_back
mutate sealer obj expected deleting db = finish obj db (mutate_tx sealer obj expected deleting db)

unfoldable pub create : SecretsSealer → StoredObject → Db → R StoredObject × Db
create sealer obj db = mutate sealer obj none false db

unfoldable pub update : SecretsSealer → StoredObject → ℕ → Db → R StoredObject × Db
update sealer obj rv db = mutate sealer obj (some rv) false db

discard : R StoredObject × Db → R (Unit {0}) × Db
discard (ok _, db) = (ok tt, db)
discard (err e, db) = (err e, db)

unfoldable pub delete : SecretsSealer → String → ℕ → Db → R (Unit {0}) × Db
unfolding discard
delete sealer key rv db =
    discard (mutate sealer (record { key = key; value = []; revision = 0 }) (some rv) true db)

discard-ok :
    (r : R StoredObject × Db) (db' : Db)
    → discard r ≡ (ok tt, db')
    → (o : StoredObject) × (r ≡ (ok o, db'))
unfolding discard
discard-ok (ok o, d) db' h = (o, cc)
discard-ok (err e, d) db' h = cc

-- An accepted deletion is an accepted `mutate`.
pub delete-ok :
    (sealer : SecretsSealer) (key : String) (rv : ℕ) (db db' : Db)
    → delete sealer key rv db ≡ (ok tt, db')
    → (o : StoredObject) × (mutate sealer
          (record { key = key; value = []; revision = 0 })
          (some rv)
          true
          db
        ≡ (ok o, db'))
unfolding delete
delete-ok sealer key rv db db' h =
    discard-ok (mutate sealer (record { key = key; value = []; revision = 0 }) (some rv) true db)
      db' h
