-- ===== src/Storage/Current.antt =====
-- crates/h3s-storage/src/sqlite.rs: the newest version of a key after a commit.
use hedronetes_h3s.Prelude.{
  ℕ, suc, ◌+◌, String, ◌∷◌, Bool, false, ◌≡◌, sym, ap, subst₂, ◌∙◌, Option, some, inl, inr, arith,
  ok, ok-injective, if◌then◌else◌, str_eq, ◌==◌, Bool-cases,
}
use mathlib.Core.Option
use hedronetes_h3s.Storage.Types.{Bytes, StoredObject, R, SecretsSealer}
use hedronetes_h3s.Storage.Table.{
  Row, Db, has_key, live, get_current, decode_row_value, kind_number, object_for,
}
use hedronetes_h3s.Storage.Log.{IsLog, IsLog-le, IsStore, newest-eq-find}
use hedronetes_h3s.Storage.Mutate.{mutation_kind}
use hedronetes_h3s.Storage.Read.{get}
use hedronetes_h3s.Storage.Commit.{Committed, Outcome, refused, written, commit_row}

-- A key's newest version after a commit: the new row for its own key, the old one for the others.
pub get_current-commit :
    (db : Db) (obj : StoredObject) (value : Bytes) (kind : ℕ) (k : String)
    → IsStore db
    → get_current (commit_row obj (db.revision + 1) value kind ∷ db.versions) k ≡ (
        if str_eq obj.key k
        then Option.map (object_for k) (live (some (commit_row obj (db.revision + 1) value kind)))
        else get_current db.versions k)
unfolding get_current
get_current-commit db obj value kind k s =
    let row = commit_row obj (db.revision + 1) value kind in
    let log : IsLog (suc (db.revision + 1)) (row ∷ db.versions) =
      (omega arith, IsLog-le (suc db.revision) (db.revision + 1) db.versions (omega arith) s.log) in
    let new = newest-eq-find (has_key k) (suc (db.revision + 1)) (row ∷ db.versions) log in
    let old = newest-eq-find (has_key k) (suc db.revision) db.versions s.log in
    elim (Bool-cases (str_eq obj.key k)) [ inl e ↦ rw (new, e) | inr e ↦ rw (new, e, old) ]

pub written_of :
    (sealer : SecretsSealer) (obj : StoredObject) (expected : Option ℕ) (deleting : Bool)
    (db db' : Db) (reply : StoredObject) {r : R StoredObject × Db}
    → Outcome sealer obj expected deleting db r
    → r ≡ (ok reply, db')
    → Committed sealer obj expected deleting db reply.value db'
      × (reply ≡ record { key = obj.key; value = reply.value; revision = db.revision + 1 })
written_of sealer obj expected deleting db db' reply (refused e) p = cc
written_of sealer obj expected deleting db db' reply (written returned d c) p =
    let e : ◌≡◌ {A = R StoredObject}
        (ok (record { key = obj.key; value = returned; revision = db.revision + 1 })) (ok reply) =
      ap (λ (q : R StoredObject × Db). q.0) p in
    let f : record { key = obj.key; value = returned; revision = db.revision + 1 } ≡ reply =
      ok-injective e in
    let g : d ≡ db' = ap (λ (q : R StoredObject × Db). q.1) p in
    let v : returned ≡ reply.value = ap (λ (o : StoredObject). o.value) f in
    (
      subst₂ (λ b t. Committed sealer obj expected deleting db b t) v g c,
      sym f ∙ ap (λ (b : Bytes). record { key = obj.key; value = b; revision = db.revision + 1 }) v,
    )

-- A row that a create or an update writes is live.
pub upsert-live :
    (previous : Option StoredObject) (kind : ℕ)
    → kind_number (mutation_kind false previous) ≡ ok kind
    → (kind == 2) ≡ false
unfolding kind_number mutation_kind
upsert-live previous kind h = ground arith

pub get-live :
    (sealer : SecretsSealer) (k : String) (x : Row) (db : Db) (returned : Bytes)
    → get_current db.versions k ≡ some (object_for k x)
    → decode_row_value sealer x.value ≡ ok returned
    → get sealer k db ≡ ok (some (record { key = k; value = returned; revision = x.revision }))
unfolding get
get-live sealer k x db returned e d = rw (e, d)

pub get-eq :
    (sealer : SecretsSealer) (k : String) (db db' : Db)
    → get_current db'.versions k ≡ get_current db.versions k
    → get sealer k db' ≡ get sealer k db
unfolding get
get-eq sealer k db db' e = rw e

-- The current version of every key after a commit.
pub current-after :
    (sealer : SecretsSealer) (obj : StoredObject) (expected : Option ℕ) (deleting : Bool)
    (db db' : Db) (returned : Bytes)
    → IsStore db
    → (c : Committed sealer obj expected deleting db returned db') → (k : String)
    → get_current db'.versions k ≡ (
        if str_eq obj.key k
        then Option.map
            (object_for k)
            (live (some (commit_row obj (db.revision + 1) c.value c.kind)))
        else get_current db.versions k)
current-after sealer obj expected deleting db db' returned s c k =
    ap (λ (d : Db). get_current d.versions k) c.after ∙ get_current-commit db obj c.value c.kind k s
