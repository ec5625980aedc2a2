-- ===== src/Storage/Maintain.antt =====
-- crates/h3s-storage/src/sqlite.rs: compaction, maintenance and leases, and
-- crates/h3s-storage/src/lib.rs: `maintenance_revision`.
-- The clock is an argument: `now` is `now_ms()`, which is not negative.
use hedronetes_h3s.Prelude.{
  ℕ, ◌+◌, ◌-◌, List, [], ◌∷◌, Bool, ◌&&◌, not, Option, none, some, if◌then◌else◌, ◌==◌, leb, ltb,
  ok, err, any, keep, length, ◌≡◌, refl, ◌⊎◌, inl, inr, Option-cases,
}
use hedronetes_h3s.Storage.Types.{R, Lease, future_revision, invalid, lease_expired}
use hedronetes_h3s.Storage.Table.{
  Row, LeaseRow, Db, newest, until, revision_is, i64_limit, revision_i64,
}

-- `revision IN (SELECT MAX(revision) … WHERE revision<=c GROUP BY key)`
abbrev pub is_group_max : ℕ → List Row → Row → Row → Bool
is_group_max c rows x y = leb y.revision c && revision_is x.revision (newest (until y.key c) rows)

unfoldable pub is_baseline : ℕ → List Row → Row → Bool
is_baseline c rows x = any (is_group_max c rows x) rows

unfoldable pub survives : ℕ → List Row → Row → Bool
survives c rows x = not (ltb x.revision c && not (is_baseline c rows x))

unfoldable pub compact : ℕ → Db → R (Unit {0}) × Db
compact rev db =
    if ltb db.revision rev
    then (err (future_revision rev db.revision), db)
    else if leb rev db.compacted
    then (ok tt, db)
    else elim (revision_i64 rev) [
      | err e ↦ (err e, db)
      | ok c ↦
          (ok tt, record db { versions = keep (survives c db.versions) db.versions; compacted = c })
    ]

unfoldable pub maintenance_revision : ℕ → ℕ → ℕ → Option ℕ
maintenance_revision current floor window =
    if ltb current window
    then none
    else if ltb floor (current - window) && ltb (current - window) current
    then some (current - window)
    else none

expired_at : ℕ → LeaseRow → Bool
expired_at now l = leb l.expires_ms now

abbrev live_at : ℕ → LeaseRow → Bool
live_at now l = not (leb l.expires_ms now)

-- The rows that `DELETE … WHERE expires_ms<=?1` removes are counted.
delete_expired : ℕ → Db → ℕ × Db
delete_expired now db =
    let kept = keep (live_at now) db.leases in
    (length (keep (expired_at now) db.leases), record db { leases = kept })

maintain_leases : ℕ → R (Unit {0}) × Db → R ℕ × Db
maintain_leases now (err e, db) = (err e, db)
maintain_leases now (ok _, db) = let (n, db') = delete_expired now db in (ok n, db')

compact_step : Option ℕ → Db → R (Unit {0}) × Db
compact_step none db = (ok tt, db)
compact_step (some rev) db = compact rev db

unfoldable pub maintain : ℕ → ℕ → Db → R ℕ × Db
unfolding maintain_leases delete_expired expired_at compact_step
maintain window now db =
    maintain_leases now (compact_step (maintenance_revision db.revision db.compacted window) db)

-- What a call leaves alone that only touches leases.
pub record SameVersions (d e : Db) : Type 0 where
  pub revision : e.revision ≡ d.revision
  pub compacted : e.compacted ≡ d.compacted
  pub versions : e.versions ≡ d.versions

maintain_leases-SameVersions :
    (now : ℕ) (r : R (Unit {0}) × Db) → SameVersions r.1 (maintain_leases now r).1
unfolding maintain_leases delete_expired
maintain_leases-SameVersions now (err e, db) = record {
  revision = refl;
  compacted = refl;
  versions = refl;
}
maintain_leases-SameVersions now (ok u, db) = record {
  revision = refl;
  compacted = refl;
  versions = refl;
}

-- Maintenance is at most one compaction, followed by a call that only touches leases.
pub maintain-cases :
    (window now : ℕ) (db : Db)
    → ((maintenance_revision db.revision db.compacted window ≡ none)
        × SameVersions db (maintain window now db).1)
      ⊎ ((rev : ℕ) × (maintenance_revision db.revision db.compacted window ≡ some rev)
          × SameVersions (compact rev db).1 (maintain window now db).1)
unfolding maintain
maintain-cases window now db =
    elim (Option-cases (maintenance_revision db.revision db.compacted window)) [
      | inl e ↦ inl (e, rw (e, compact_step) (maintain_leases-SameVersions now (ok tt, db)))
      | inr (rev, e) ↦
          inr (rev, e, rw (e, compact_step) (maintain_leases-SameVersions now (compact rev db)))
    ]

unfoldable pub lease_grant : ℕ → ℕ → Db → R Lease × Db
lease_grant ttl_ms now db =
    if ltb i64_limit ttl_ms
    then (err (invalid "lease TTL too large"), db)
    else if ttl_ms == 0
    then (err (invalid "lease TTL must be at least 1ms"), db)
    else if ltb i64_limit (now + ttl_ms)
    then (err (invalid "lease expiry overflow"), db)
    else (
      ok (record { id = db.last_lease + 1; ttl = ttl_ms }),
      record db {
        last_lease = db.last_lease + 1;
        leases =
            record { id = db.last_lease + 1; ttl_ms = ttl_ms; expires_ms = now + ttl_ms }
            ∷ db.leases;
      },
    )

abbrev pub renewable : ℕ → ℕ → LeaseRow → Bool
renewable id now l = l.id == id && ltb now l.expires_ms

renew : ℕ → ℕ → List LeaseRow → List LeaseRow
renew id now [] = []
renew id now (l ∷ ls) =
    (if renewable id now l then record l { expires_ms = now + l.ttl_ms } else l) ∷ renew id now ls

unfoldable pub lease_keepalive : ℕ → ℕ → Db → R (Unit {0}) × Db
unfolding renew
lease_keepalive id now db = elim (revision_i64 id) [
  | err e ↦ (err e, db)
  | ok i ↦
      if any (renewable i now) db.leases
      then (ok tt, record db { leases = renew i now db.leases })
      else (err (lease_expired id), db)
]
