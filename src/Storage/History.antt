-- ===== src/Storage/History.antt =====
-- crates/h3s-storage/src/sqlite.rs: sequences of calls, in any order, and what they keep.
use hedronetes_h3s.Prelude.{
  ℕ, ◌+◌, ◌≤◌, ◌<◌, String, List, Bool, ◌≡◌, refl, ap, ◌∙◌, Option, some, inl, inr, arith, ok,
}
use hedronetes_h3s.Storage.Types.{StoredObject, R, SecretsSealer}
use hedronetes_h3s.Storage.Table.{Row, Db, empty, validate_revision}
use hedronetes_h3s.Storage.Log.{IsStore}
use hedronetes_h3s.Storage.Mutate.{mutate}
use hedronetes_h3s.Storage.Maintain.{
  compact, maintain, maintenance_revision, lease_grant, lease_keepalive, SameVersions,
  maintain-cases,
}
use hedronetes_h3s.Storage.Commit.{Outcome, refused, written, mutate-Outcome, mutate-IsStore}
use hedronetes_h3s.Storage.Snapshot.{
  snapshot, snapshot-mutate, snapshot-compact_floor, compact-cases, compact-IsStore,
}

-- One call of the store that may change the database, whatever its arguments and whether or not it
-- succeeds.
pub data Step (db : Db) : Db → Type 0 where
  mutated :
      (sealer : SecretsSealer) (obj : StoredObject) (expected : Option ℕ) (deleting : Bool)
      → Step db (mutate sealer obj expected deleting db).1
  compacted_to : (rev : ℕ) → Step db (compact rev db).1
  maintained : (window now : ℕ) → Step db (maintain window now db).1
  granted : (ttl_ms now : ℕ) → Step db (lease_grant ttl_ms now db).1
  kept_alive : (id now : ℕ) → Step db (lease_keepalive id now db).1

pub data Run (db : Db) : Db → Type 0 where
  start : Run db db
  next : {d e : Db} → Run db d → Step d e → Run db e

lease_grant-SameVersions :
    (ttl_ms now : ℕ) (db : Db) → SameVersions db (lease_grant ttl_ms now db).1
unfolding lease_grant
lease_grant-SameVersions ttl_ms now db = ground arith

lease_keepalive-SameVersions :
    (id now : ℕ) (db : Db) → SameVersions db (lease_keepalive id now db).1
unfolding lease_keepalive
lease_keepalive-SameVersions id now db = ground arith

SameVersions-IsStore : {d e : Db} → SameVersions d e → IsStore d → IsStore e
SameVersions-IsStore {d} {e} v s = record {
  log = rw (v.revision, v.versions) s.log;
  floor = omega (arith, s.floor, v.revision, v.compacted);
  bounded = omega (arith, s.bounded, v.revision);
  kinds = λ x m. s.kinds x (rw v.versions at m);
}

pub Step-IsStore : {d e : Db} → Step d e → IsStore d → IsStore e
Step-IsStore {d} (mutated sealer obj expected deleting) s =
    mutate-IsStore sealer obj expected deleting d s
Step-IsStore {d} (compacted_to rev) s = compact-IsStore rev d s
Step-IsStore {d} (maintained window now) s = elim (maintain-cases window now d) [
  | inl v ↦ SameVersions-IsStore v.1 s
  | inr m ↦ SameVersions-IsStore m.2 (compact-IsStore m.0 d s)
]
Step-IsStore {d} (granted ttl_ms now) s =
    SameVersions-IsStore (lease_grant-SameVersions ttl_ms now d) s
Step-IsStore {d} (kept_alive id now) s =
    SameVersions-IsStore (lease_keepalive-SameVersions id now d) s

empty-IsStore : IsStore empty
empty-IsStore = record {
  log = tt;
  floor = omega arith;
  bounded = omega arith;
  kinds = λ x m. elim m [ ];
}

pub Run-IsStore : {d e : Db} → Run d e → IsStore d → IsStore e
Run-IsStore start s = s
Run-IsStore (next r st) s = Step-IsStore st (Run-IsStore r s)

-- Revisions and the compaction floor never fall, and the floor never passes the head.
pub record Grows (d e : Db) : Type 0 where
  pub revision : d.revision ≤ e.revision
  pub compacted : d.compacted ≤ e.compacted

mutate-Grows :
    {db : Db} {sealer : SecretsSealer} {obj : StoredObject} {expected : Option ℕ} {deleting : Bool}
    {r : R StoredObject × Db}
    → Outcome sealer obj expected deleting db r
    → Grows db r.1
mutate-Grows (refused e) = omega arith
mutate-Grows (written returned db' c) = rw c.after (omega arith)

compact-Grows : (rev : ℕ) (db : Db) → Grows db (compact rev db).1
compact-Grows rev db = elim (compact-cases rev db) [
  | inl e ↦ rw e (omega arith)
  | inr c ↦ rw c.2 (omega (arith, c.1))
]

pub Step-Grows : {d e : Db} → IsStore d → Step d e → Grows d e
Step-Grows {d} s (mutated sealer obj expected deleting) =
    mutate-Grows (mutate-Outcome sealer obj expected deleting d s)
Step-Grows {d} s (compacted_to rev) = compact-Grows rev d
Step-Grows {d} s (maintained window now) = elim (maintain-cases window now d) [
  | inl v ↦ omega (arith, v.1.revision, v.1.compacted)
  | inr m ↦ omega (arith, m.2.revision, m.2.compacted, compact-Grows m.0 d)
]
Step-Grows {d} s (granted ttl_ms now) = omega (arith, lease_grant-SameVersions ttl_ms now d)
Step-Grows {d} s (kept_alive id now) = omega (arith, lease_keepalive-SameVersions id now d)

Run-Grows : {d e : Db} → IsStore d → Run d e → Grows d e
Run-Grows s start = omega arith
Run-Grows s (next r st) = omega (arith, Run-Grows s r, Step-Grows (Run-IsStore r s) st)

-- One call keeps every snapshot that is at most the head before it and at least the floor after it.
Step-snapshot :
    {d e : Db} (r : ℕ) (k : String)
    → IsStore d
    → Step d e
    → r ≤ d.revision
    → e.compacted ≤ r
    → snapshot e.versions r k ≡ snapshot d.versions r k
Step-snapshot {d} r k s (mutated sealer obj expected deleting) h f =
    snapshot-mutate sealer obj expected deleting d r k s h
Step-snapshot {d} r k s (compacted_to rev) h f = snapshot-compact_floor d rev r k s f
Step-snapshot {d} r k s (maintained window now) h f = elim (maintain-cases window now d) [
  | inl (_, v) ↦ ap (λ (rows : List Row). snapshot rows r k) v.versions
  | inr (rev, _, v) ↦
      ap (λ (rows : List Row). snapshot rows r k) v.versions
      ∙ snapshot-compact_floor d rev r k s (omega (arith, f, v.compacted))
]
Step-snapshot {d} r k s (granted ttl_ms now) h f =
    rw (lease_grant-SameVersions ttl_ms now d).versions
Step-snapshot {d} r k s (kept_alive id now) h f =
    rw (lease_keepalive-SameVersions id now d).versions

-- Snapshot isolation over any sequence of calls. What a reader of revision `r` sees of a key never
-- changes: not by creates, updates and deletions, accepted or refused, not by leases, and not by
-- compaction or maintenance as long as the floor has not passed `r`.
pub Run-snapshot :
    {d e : Db} (r : ℕ) (k : String)
    → IsStore d
    → Run d e
    → r ≤ d.revision
    → e.compacted ≤ r
    → snapshot e.versions r k ≡ snapshot d.versions r k
Run-snapshot r k s start h f = refl
Run-snapshot r k s (next run st) h f =
    let mid = Run-IsStore run s in
    let grows = Step-Grows mid st in
    Step-snapshot r k mid st (omega (arith, Run-Grows s run)) f
    ∙ Run-snapshot r k s run h (omega (arith, grows))

maintenance_revision-window :
    (current floor window rev : ℕ)
    → maintenance_revision current floor window ≡ some rev
    → (floor < rev) × (rev < current) × (rev + window ≡ current)
unfolding maintenance_revision
maintenance_revision-window current floor window rev h = ground arith

compact-fields :
    (rev r : ℕ) (db : Db)
    → db.compacted ≤ r
    → rev ≤ r
    → ((compact rev db).1.compacted ≤ r) × ((compact rev db).1.revision ≡ db.revision)
compact-fields rev r db fl h = elim (compact-cases rev db) [
  | inl e ↦ rw e (omega arith)
  | inr c ↦ rw c.2 (omega arith)
]

maintain-fields :
    (window now r : ℕ) (db : Db)
    → db.compacted ≤ r
    → db.revision ≤ r + window
    → ((maintain window now db).1.compacted ≤ r)
      × ((maintain window now db).1.revision ≡ db.revision)
maintain-fields window now r db fl w = elim (maintain-cases window now db) [
  | inl (_, v) ↦ omega (arith, v.compacted, v.revision)
  | inr (rev, e, v) ↦
      let b = maintenance_revision-window db.revision db.compacted window rev e in
      omega (arith, v.compacted, v.revision, compact-fields rev r db fl (omega (arith, b)))
]

readable :
    (r current floor : ℕ) → r ≤ current → floor ≤ r → validate_revision r current floor ≡ ok tt
unfolding validate_revision
readable r current floor h f = ground arith

-- Maintenance keeps the last `window` revisions: a revision inside the window that could be read
-- before can be read after, with the same contents, and the head moves neither forward nor back.
pub maintain-window :
    (window now r : ℕ) (k : String) (db : Db)
    → IsStore db
    → db.compacted ≤ r
    → r ≤ db.revision
    → db.revision ≤ r + window
    → (validate_revision r (maintain window now db).1.revision (maintain window now db).1.compacted
        ≡ ok tt)
      × (snapshot (maintain window now db).1.versions r k ≡ snapshot db.versions r k)
      × ((maintain window now db).1.revision ≡ db.revision)
maintain-window window now r k db s fl h w =
    let (low, head) = maintain-fields window now r db fl w in
    (
      readable r (maintain window now db).1.revision (maintain window now db).1.compacted
          (omega arith) low,
      Step-snapshot r k s (maintained window now) h low,
      head,
    )
