-- ===== src/Storage/Snapshot.antt =====
-- crates/h3s-storage/src/sqlite.rs: what a reader of a fixed revision sees, and that neither later
-- writes nor compaction change it.
use hedronetes_h3s.Prelude.{
  ℕ, suc, ◌+◌, ◌≤◌, ◌<◌, String, List, [], ◌∷◌, Bool, true, false, ◌≡◌, refl, sym, ap, ◌∙◌, Option,
  some, ◌⊎◌, inl, inr, arith, eq_iff, ltb, ltb→lt, find, keep, In→any, keep→In, find→In, find-keep,
  Bool-cases,
}
use hedronetes_h3s.Storage.Types.{StoredObject, R, SecretsSealer}
use hedronetes_h3s.Storage.Table.{Row, Db, newest, until, live, revision_i64}
use hedronetes_h3s.Storage.Log.{IsLog, IsLog-le, IsStore, newest-eq-find, keep-IsLog}
use hedronetes_h3s.Storage.Mutate.{mutate}
use hedronetes_h3s.Storage.Maintain.{is_group_max, is_baseline, survives, compact}
use hedronetes_h3s.Storage.Commit.{Outcome, refused, written, commit_row, mutate-Outcome}

-- The live row of a key at a revision: the specification of a point-in-time read.
unfoldable pub snapshot : List Row → ℕ → String → Option Row
snapshot rows r k = live (newest (until k r) rows)

pub snapshot-eq-find :
    (n : ℕ) (rows : List Row) (r : ℕ) (k : String)
    → IsLog n rows
    → snapshot rows r k ≡ live (find (until k r) rows)
unfolding snapshot
snapshot-eq-find n rows r k h = rw (newest-eq-find (until k r) n rows h)

-- A reader of a revision that exists does not see a later row.
pub snapshot-cons :
    (n : ℕ) (x : Row) (rows : List Row) (r : ℕ) (k : String)
    → IsLog n (x ∷ rows)
    → r < x.revision
    → snapshot (x ∷ rows) r k ≡ snapshot rows r k
snapshot-cons n x rows r k h lt =
    snapshot-eq-find n (x ∷ rows) r k h
    ∙ ground arith
    ∙ sym (snapshot-eq-find x.revision rows r k h.1)

-- A write, committed or refused, leaves every snapshot up to the current revision as it was.
pub snapshot-mutate :
    (sealer : SecretsSealer) (obj : StoredObject) (expected : Option ℕ) (deleting : Bool) (db : Db)
    (r : ℕ) (k : String)
    → IsStore db
    → r ≤ db.revision
    → snapshot (mutate sealer obj expected deleting db).1.versions r k ≡ snapshot db.versions r k
snapshot-mutate sealer obj expected deleting db r k s h =
    unseen (mutate-Outcome sealer obj expected deleting db s)
  where
    unseen :
        {w : R StoredObject × Db}
        → Outcome sealer obj expected deleting db w
        → snapshot w.1.versions r k ≡ snapshot db.versions r k
    unseen (refused e) = refl
    unseen (written returned db' c) =
        ap (λ (d : Db). snapshot d.versions r k) c.after
        ∙ snapshot-cons (suc (db.revision + 1)) (commit_row obj (db.revision + 1) c.value c.kind)
            db.versions r k
            (
              omega arith,
              IsLog-le (suc db.revision) (db.revision + 1) db.versions (omega arith) s.log,
            )
            (omega arith)

-- The row that is current at `c` for its key is a baseline of the compaction at `c`.
find-is_baseline :
    (n : ℕ) (rows : List Row) (c : ℕ) (k : String) (m : Row)
    → IsLog n rows
    → find (until k c) rows ≡ some m
    → is_baseline c rows m ≡ true
unfolding is_baseline
find-is_baseline n rows c k m h e =
    let (mem, met) = find→In (until k c) rows m e in
    let same : m.key ≡ k = (eq_iff m.key k).0 (ground arith) in
    let top : newest (until m.key c) rows ≡ some m =
      ap (λ j. newest (until j c) rows) same ∙ newest-eq-find (until k c) n rows h ∙ e in
    In→any (is_group_max c rows m) m rows mem (rw top (ground arith))

-- A row found at `r` that is not newer than `c` is also the one found at `c`.
find-until-lower :
    (rows : List Row) (c r : ℕ) (k : String) (m : Row)
    → find (until k r) rows ≡ some m
    → m.revision ≤ c
    → c ≤ r
    → find (until k c) rows ≡ some m
find-until-lower [] c r k m e h cr = e
find-until-lower (x ∷ xs) c r k m e h cr = elim (Bool-cases (until k r x)) [
  | inl t ↦
      let p : x ≡ m = ground arith in
      let q : x.revision ≡ m.revision = ap (λ (y : Row). y.revision) p in
      let u : until k c x ≡ true = ground arith in rw u (ap some p)
  | inr t ↦
      let u : until k c x ≡ false = ground arith in
      rw u (find-until-lower xs c r k m (rw t at e) h cr)
]

-- Compaction at `c` keeps every snapshot from `c` on.
pub snapshot-survives :
    (n : ℕ) (rows : List Row) (c r : ℕ) (k : String)
    → IsLog n rows
    → c ≤ r
    → snapshot (keep (survives c rows) rows) r k ≡ snapshot rows r k
snapshot-survives n rows c r k h cr =
    snapshot-eq-find n (keep (survives c rows) rows) r k (keep-IsLog (survives c rows) n rows h)
    ∙ ap live (find-keep (survives c rows) (until k r) rows needed)
    ∙ sym (snapshot-eq-find n rows r k h)
  where
    needed : (m : Row) → find (until k r) rows ≡ some m → survives c rows m ≡ true
    needed m e = elim (Bool-cases (ltb m.revision c)) [
      | inl old ↦
          let b =
            find-is_baseline n rows c k m h
              (find-until-lower rows c r k m e (omega (arith, ltb→lt m.revision c old)) cr) in
          unfold survives in rw b (ground arith)
      | inr new ↦ unfold survives in rw new
    ]

-- What a compaction does to the database: nothing, or it drops the rows that do not survive.
pub compact-cases :
    (rev : ℕ) (db : Db)
    → ((compact rev db).1 ≡ db)
      ⊎ ((rev ≤ db.revision)
          × (db.compacted < rev)
          × ((compact rev db).1 ≡ record db {
            versions = keep (survives rev db.versions) db.versions;
            compacted = rev;
          }))
unfolding compact revision_i64
compact-cases rev db = ground arith

-- Compaction to `rev` leaves every snapshot at `rev` or later as it was.
pub snapshot-compact :
    (db : Db) (rev r : ℕ) (k : String)
    → IsStore db
    → rev ≤ r
    → snapshot (compact rev db).1.versions r k ≡ snapshot db.versions r k
snapshot-compact db rev r k s h = elim (compact-cases rev db) [
  | inl e ↦ ap (λ (d : Db). snapshot d.versions r k) e
  | inr c ↦
      ap (λ (d : Db). snapshot d.versions r k) c.2
      ∙ snapshot-survives (suc db.revision) db.versions rev r k s.log h
]

pub compact-IsStore : (rev : ℕ) (db : Db) → IsStore db → IsStore (compact rev db).1
compact-IsStore rev db s = elim (compact-cases rev db) [
  | inl e ↦ rw e s
  | inr c ↦ rw c.2 (record {
    log = keep-IsLog (survives rev db.versions) (suc db.revision) db.versions s.log;
    floor = c.0;
    bounded = s.bounded;
    kinds = λ x m. s.kinds x (keep→In (survives rev db.versions) db.versions x m).0;
  })
]

-- The same, by the floor that the compaction leaves behind.
pub snapshot-compact_floor :
    (db : Db) (rev r : ℕ) (k : String)
    → IsStore db
    → (compact rev db).1.compacted ≤ r
    → snapshot (compact rev db).1.versions r k ≡ snapshot db.versions r k
snapshot-compact_floor db rev r k s h = elim (compact-cases rev db) [
  | inl e ↦ ap (λ (d : Db). snapshot d.versions r k) e
  | inr c ↦ snapshot-compact db rev r k s (omega (arith, h, ap (λ (d : Db). d.compacted) c.2))
]
