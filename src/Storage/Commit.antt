-- ===== src/Storage/Commit.antt =====
-- crates/h3s-storage/src/sqlite.rs: what a committed `mutate` wrote, and that a refused one wrote
-- nothing.
use hedronetes_h3s.Prelude.{
  ℕ, suc, ◌+◌, ◌≤◌, List, [], ◌∷◌, Bool, ◌≡◌, refl, ap, ◌∙◌, Option, some, inl, inr, arith, ok, err,
  value_or, if◌then◌else◌, eq_iff, In-uncons,
}
use hedronetes_h3s.Storage.Types.{Bytes, StoredObject, EventKind, R, Error, SecretsSealer}
use hedronetes_h3s.Storage.Table.{
  Row, Db, newest, has_key, get_current, kind_number, decode_row_value, revision_i64, i64_limit,
}
use hedronetes_h3s.Storage.Log.{IsLog, IsLog-le, IsStore, newest-eq-find}
use hedronetes_h3s.Storage.Mutate.{check_expected, mutation_kind, payload, mutate_tx, mutate}

-- What the transaction has established when it commits.
pub record Committed (sealer : SecretsSealer) (obj : StoredObject) (expected : Option ℕ)
    (deleting : Bool) (db : Db) (returned : Bytes) (db' : Db) : Type 0 where
  pub value : Bytes
  pub kind : ℕ
  pub allowed : check_expected obj.key expected (get_current db.versions obj.key) ≡ ok tt
  pub stored : payload sealer obj (get_current db.versions obj.key) deleting ≡ ok value
  pub shown : (if deleting then ok value else decode_row_value sealer value) ≡ ok returned
  pub numbered : kind_number (mutation_kind deleting (get_current db.versions obj.key)) ≡ ok kind
  pub within : db.revision + 1 ≤ i64_limit
  pub after : db' ≡ record db {
    revision = db.revision + 1;
    versions =
        record { key = obj.key; revision = db.revision + 1; value = value; kind = kind }
        ∷ db.versions;
  }

revision_i64-ok : (n m : ℕ) → revision_i64 n ≡ ok m → (n ≤ i64_limit) × (m ≡ n)
unfolding revision_i64
revision_i64-ok n m h = ground arith

pub mutate_tx-Committed :
    (sealer : SecretsSealer) (obj : StoredObject) (expected : Option ℕ) (deleting : Bool) (db : Db)
    (returned : Bytes) (db' : Db)
    → mutate_tx sealer obj expected deleting db ≡ ok (returned, db')
    → Committed sealer obj expected deleting db returned db'
unfolding mutate_tx
mutate_tx-Committed sealer obj expected deleting db returned db' h =
    let previous = get_current db.versions obj.key in
    let value = value_or [] (payload sealer obj previous deleting) in
    record {
      value = value;
      kind = value_or 0 (kind_number (mutation_kind deleting previous));
      allowed = ground arith;
      stored = ground arith;
      shown = ground arith;
      numbered = ground arith;
      within =
          ground (
            arith,
            revision_i64-ok (db.revision + 1) (value_or 0 (revision_i64 (db.revision + 1))),
          );
      after =
          ground (
            arith,
            revision_i64-ok (db.revision + 1) (value_or 0 (revision_i64 (db.revision + 1))),
          );
    }

-- The row that a commit puts on top of the log.
abbrev pub commit_row : StoredObject → ℕ → Bytes → ℕ → Row
commit_row obj revision value kind = record {
  key = obj.key;
  revision = revision;
  value = value;
  kind = kind;
}

newest-commit :
    (n : ℕ) (rows : List Row) (obj : StoredObject) (value : Bytes) (kind : ℕ)
    → IsLog (suc n) rows
    → newest (has_key obj.key) (commit_row obj (n + 1) value kind ∷ rows)
      ≡ some (commit_row obj (n + 1) value kind)
newest-commit n rows obj value kind h =
    newest-eq-find (has_key obj.key) (suc (n + 1)) (commit_row obj (n + 1) value kind ∷ rows)
      (omega arith, IsLog-le (suc n) (n + 1) rows (omega arith) h)
    ∙ rw ((eq_iff obj.key obj.key).1 refl)

-- What a write gives: an error and the database as it was, or one more row and its revision.
pub data Outcome (sealer : SecretsSealer) (obj : StoredObject) (expected : Option ℕ)
    (deleting : Bool) (db : Db) : R StoredObject × Db → Type 0 where
  refused : (e : Error) → Outcome sealer obj expected deleting db (err e, db)
  written :
      (returned : Bytes) (db' : Db)
      → Committed sealer obj expected deleting db returned db'
      → Outcome sealer obj expected deleting db
          (ok (record { key = obj.key; value = returned; revision = db.revision + 1 }), db')

pub mutate-Outcome :
    (sealer : SecretsSealer) (obj : StoredObject) (expected : Option ℕ) (deleting : Bool) (db : Db)
    → IsStore db
    → Outcome sealer obj expected deleting db (mutate sealer obj expected deleting db)
unfolding mutate
mutate-Outcome sealer obj expected deleting db s =
    ended (mutate_tx sealer obj expected deleting db) refl
  where
    ended :
        (r : R (Bytes × Db))
        → mutate_tx sealer obj expected deleting db ≡ r
        → Outcome sealer obj expected deleting db (mutate sealer obj expected deleting db)
    ended (err e) p = rw (p, mutate) (refused e)
    ended (ok (returned, db')) p =
        let c = mutate_tx-Committed sealer obj expected deleting db returned db' p in
        let q : newest (has_key obj.key) db'.versions
            ≡ some (commit_row obj (db.revision + 1) c.value c.kind) =
          ap (λ (d : Db). newest (has_key obj.key) d.versions) c.after
          ∙ newest-commit db.revision db.versions obj c.value c.kind s.log in
        rw (p, mutate, q) (written returned db' c)

kind_number-le : (k : EventKind) (n : ℕ) → kind_number k ≡ ok n → n ≤ 2
unfolding kind_number
kind_number-le k n h = ground arith

pub mutate-IsStore :
    (sealer : SecretsSealer) (obj : StoredObject) (expected : Option ℕ) (deleting : Bool) (db : Db)
    → IsStore db
    → IsStore (mutate sealer obj expected deleting db).1
mutate-IsStore sealer obj expected deleting db s =
    kept (mutate-Outcome sealer obj expected deleting db s)
  where
    kept : {r : R StoredObject × Db} → Outcome sealer obj expected deleting db r → IsStore r.1
    kept (refused e) = s
    kept (written returned db' c) = rw c.after (record {
      log = (
        omega arith,
        IsLog-le (suc db.revision) (db.revision + 1) db.versions (omega arith) s.log,
      );
      floor = omega (arith, s.floor);
      bounded = c.within;
      kinds = λ x m. elim (In-uncons m) [
        | inl p ↦
            let e : c.kind ≡ x.kind = ap (λ (r : Row). r.kind) p in
            omega (
              arith,
              kind_number-le (mutation_kind deleting (get_current db.versions obj.key)) c.kind
                  c.numbered,
            )
        | inr q ↦ s.kinds x q
      ];
    })
