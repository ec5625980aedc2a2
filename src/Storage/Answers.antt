-- ===== src/Storage/Answers.antt =====
-- crates/h3s-storage/src/sqlite.rs: which answer a write gets, on every branch.
use hedronetes_h3s.Prelude.{
  ℕ, suc, ◌+◌, ◌<◌, ◌==◌, ◌∷◌, Bool, true, false, ◌≡◌, ◌≢◌, refl, sym, ◌∙◌, subst, Option, none,
  some, inl, inr, arith, ok, err, Bool-cases, str_eq_refl, starts_with,
}
use hedronetes_h3s.Storage.Types.{
  Bytes, StoredObject, R, SecretsSealer, already_exists, not_found, conflict,
}
use hedronetes_h3s.Storage.Keys.{is_secret_key}
use hedronetes_h3s.Storage.Table.{
  Db, newest, has_key, get_current, kind_number, decode_row_value, revision_i64, i64_limit,
  geo_envelope,
}
use hedronetes_h3s.Storage.Log.{IsLog, IsLog-le, IsStore, newest-eq-find}
use hedronetes_h3s.Storage.Mutate.{check_expected, mutation_kind, payload, mutate_tx, mutate}
use hedronetes_h3s.Storage.Commit.{commit_row}
use hedronetes_h3s.Storage.Writes.{mutate-refused}

-- The answer and the database after an accepted write
abbrev pub accepted : StoredObject → Bytes → ℕ → Db → R StoredObject × Db
accepted obj value kind db = (
  ok (record { key = obj.key; value = value; revision = db.revision + 1 }),
  record db {
    revision = db.revision + 1;
    versions =
        record { key = obj.key; revision = db.revision + 1; value = value; kind = kind }
        ∷ db.versions;
  },
)

-- The answer to a write, by what it expects and by the current version of its key. Nothing expected
-- is a creation; an update and a deletion expect a revision.
pub data IsAnswer (obj : StoredObject) (db : Db)
    : Option ℕ → Bool → Option StoredObject → R StoredObject × Db → Type 0 where
  created : IsAnswer obj db none false none (accepted obj obj.value 0 db)
  exists :
      {old : StoredObject}
      → IsAnswer obj db none false (some old) (err (already_exists obj.key), db)
  missing :
      {rv : ℕ} {deleting : Bool}
      → IsAnswer obj db (some rv) deleting none (err (not_found obj.key), db)
  stale :
      {rv : ℕ} {deleting : Bool} {old : StoredObject}
      → rv ≢ old.revision
      → IsAnswer obj db (some rv) deleting (some old) (err (conflict rv old.revision), db)
  updated :
      {rv : ℕ} {old : StoredObject}
      → rv ≡ old.revision
      → IsAnswer obj db (some rv) false (some old) (accepted obj obj.value 1 db)
  removed :
      {rv : ℕ} {old : StoredObject}
      → rv ≡ old.revision
      → IsAnswer obj db (some rv) true (some old) (accepted obj old.value 2 db)

newest-own :
    (db : Db) (obj : StoredObject) (value : Bytes) (kind : ℕ)
    → IsStore db
    → newest (has_key obj.key) (commit_row obj (db.revision + 1) value kind ∷ db.versions)
      ≡ some (commit_row obj (db.revision + 1) value kind)
newest-own db obj value kind s =
    let row = commit_row obj (db.revision + 1) value kind in
    let log : IsLog (suc (db.revision + 1)) (row ∷ db.versions) =
      (omega arith, IsLog-le (suc db.revision) (db.revision + 1) db.versions (omega arith) s.log) in
    newest-eq-find (has_key obj.key) (suc (db.revision + 1)) (row ∷ db.versions) log
    ∙ rw (str_eq_refl obj.key) refl

mutate-tx-eq :
    (sealer : SecretsSealer) (obj : StoredObject) (expected : Option ℕ) (deleting : Bool) (db : Db)
    (value : Bytes) (kind : ℕ)
    → IsStore db
    → mutate_tx sealer obj expected deleting db ≡ ok (value, (accepted obj value kind db).1)
    → mutate sealer obj expected deleting db ≡ accepted obj value kind db
unfolding mutate
mutate-tx-eq sealer obj expected deleting db value kind s h =
    rw h (rw (newest-own db obj value kind s) refl)

module _ (sealer : SecretsSealer) (obj : StoredObject) (db : Db) (s : IsStore db)
    (plain : is_secret_key obj.key ≡ false)
    (open_value : starts_with obj.value geo_envelope ≡ false) (room : db.revision < i64_limit) where
  numbered : revision_i64 (db.revision + 1) ≡ ok (db.revision + 1)
  unfolding revision_i64
  numbered = ground arith

  answers :
      (expected : Option ℕ) (deleting : Bool) (current : Option StoredObject)
      → get_current db.versions obj.key ≡ current
      → (deleting ≡ true → expected ≢ none)
      → IsAnswer obj db expected deleting current (mutate sealer obj expected deleting db)
  unfolding mutate_tx check_expected payload kind_number mutation_kind decode_row_value
  answers none true current c h = absurd (h refl refl)
  answers none false none c h =
      subst (IsAnswer obj db none false none)
        (sym (
          mutate-tx-eq sealer obj none false db obj.value 0 s
            (rw (c, plain, open_value, numbered) refl)))
        created
  answers none false (some old) c h =
      subst (IsAnswer obj db none false (some old))
        (sym (mutate-refused sealer obj none false db (already_exists obj.key) (rw c refl))) exists
  answers (some rv) deleting none c h =
      subst (IsAnswer obj db (some rv) deleting none)
        (sym (mutate-refused sealer obj (some rv) deleting db (not_found obj.key) (rw c refl)))
        missing
  answers (some rv) deleting (some old) c h = elim (Bool-cases (rv == old.revision)) [
    | inr e ↦
        subst (IsAnswer obj db (some rv) deleting (some old))
          (sym (
            mutate-refused sealer obj (some rv) deleting db (conflict rv old.revision)
              (rw (c, e) refl)))
          (stale (λ q. absurd (ground (arith, q))))
    | inl e ↦ met deleting e
  ]
    where
      met :
          (deleting : Bool)
          → (rv == old.revision) ≡ true
          → IsAnswer obj db (some rv) deleting (some old) (mutate sealer obj (some rv) deleting db)
      met false e =
          subst (IsAnswer obj db (some rv) false (some old))
            (sym (
              mutate-tx-eq sealer obj (some rv) false db obj.value 1 s
                (rw (c, e, plain, open_value, numbered) refl)))
            (updated (ground arith))
      met true e =
          subst (IsAnswer obj db (some rv) true (some old))
            (sym
              (mutate-tx-eq sealer obj (some rv) true db old.value 2 s (rw (c, e, numbered) refl)))
            (removed (ground arith))

-- Every write gets exactly the answer that the current version of its key calls for, on each branch:
-- a creation is accepted where the key has none, and refused as already existing where it has one; an
-- update or a deletion is refused as not found where there is none, refused with a conflict that names
-- both revisions where it has another revision than the expected one, and else accepted. An accepted
-- write adds one row of its kind at the next revision; a refused one changes nothing. The key is not
-- that of a Secret, the payload is not sealed, and revisions are left. A deletion expects a revision.
pub mutate-IsAnswer :
    (sealer : SecretsSealer) (obj : StoredObject) (expected : Option ℕ) (deleting : Bool) (db : Db)
    → IsStore db
    → is_secret_key obj.key ≡ false
    → starts_with obj.value geo_envelope ≡ false
    → db.revision < i64_limit
    → (deleting ≡ true → expected ≢ none)
    → IsAnswer obj db expected deleting
        (get_current db.versions obj.key)
        (mutate sealer obj expected deleting db)
mutate-IsAnswer sealer obj expected deleting db s plain open_value room h =
    answers sealer obj db s plain open_value room expected deleting
      (get_current db.versions obj.key) refl h
