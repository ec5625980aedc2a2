-- ===== src/Storage/Batch.antt =====
-- crates/h3s-storage/src/sqlite.rs: the events of a batch of `changes` are those of the version log.
use hedronetes_h3s.Prelude.{
  ℕ, zero, suc, ◌-◌, ◌≤◌, ◌<◌, ◌&&◌, String, List, Bool, ◌≡◌, refl, sym, ap, ◌∙◌, subst, Option,
  none, some, ◌⊎◌, inl, inr, arith, ltb, In, here, there, length, if◌then◌else◌, starts_with, sort,
  keep, keep→In, sort→In, ok, >>=-eq-ok, ok-injective, Each, done, match, find-congr, and-eq-true,
}
use hedronetes_h3s.Storage.Types.{
  StoredObject, EventKind, added, modified, deleted, WatchEvent, SecretsSealer,
}
use hedronetes_h3s.Storage.Keys.{is_secret_key}
use hedronetes_h3s.Storage.Table.{
  Row, Db, in_prefix, decode_row_value, live, newest, before, until, geo_envelope,
}
use hedronetes_h3s.Storage.Snapshot.{snapshot, snapshot-eq-find}
use hedronetes_h3s.Storage.Log.{IsLog, IsLog-In, IsStore, newest-eq-find}
use hedronetes_h3s.Storage.Read.{
  event_of, event_kind, decode_previous, changed_rows, take, revision_lt, batch_limit,
}
use hedronetes_h3s.Storage.Replay.{advance, Watched, changed-IsPending}
use hedronetes_h3s.Storage.Ascending.{
  Ascending, selected-Ascending, take-Ascending, take→In, taken_or_later, at_most-advance,
}

-- The number of a row's kind, and the kind of an event
pub data IsKind : ℕ → EventKind → Type 0 where
  adds : IsKind 0 added
  modifies : IsKind 1 modified
  deletes : IsKind 2 deleted

-- What an event says of the object before the change: what a reader just before the row is shown.
pub data IsPrevious (k : String) : Option Row → Option StoredObject → Type 0 where
  nothing : IsPrevious k none none
  something :
      {p : Row} {o : StoredObject}
      → o.key ≡ k
      → o.revision ≡ p.revision
      → IsPrevious k (some p) (some o)

-- The event shows the row: its kind, its revision, its key and its payload, and what was before.
pub record IsEventOf (sealer : SecretsSealer) (rows : List Row) (x : Row) (e : WatchEvent)
    : Type 0 where
  pub revision : e.revision ≡ x.revision
  pub kind : IsKind x.kind e.kind
  pub object :
      (o : StoredObject) × (e.object ≡ some o)
      × (o.key ≡ x.key)
      × (o.revision ≡ x.revision)
      × (decode_row_value sealer x.value ≡ ok o.value)
  pub previous : IsPrevious x.key (snapshot rows (x.revision - 1) x.key) e.previous

event_kind-IsKind : (n : ℕ) → n ≤ 2 → IsKind n (event_kind n)
unfolding event_kind
event_kind-IsKind zero h = adds
event_kind-IsKind (suc zero) h = modifies
event_kind-IsKind (suc (suc zero)) h = deletes
event_kind-IsKind (suc (suc (suc n))) h = absurd (omega arith)

decode_previous-IsPrevious :
    (sealer : SecretsSealer) (k : String) (r : Option Row) (o : Option StoredObject)
    → decode_previous sealer k r ≡ ok o
    → IsPrevious k r o
unfolding decode_previous
decode_previous-IsPrevious sealer k none o h = subst (IsPrevious k none) (ok-injective h) nothing
decode_previous-IsPrevious sealer k (some p) o h =
    let (value, f, g) =
      >>=-eq-ok
        (if is_secret_key k && starts_with p.value geo_envelope
          then sealer.open_sealed p.value
          else ok p.value)
        (λ value. ok (some (record { key = k; value = value; revision = p.revision }))) h in
    subst (IsPrevious k (some p)) (ok-injective g) (something refl refl)

-- The version before a row is what a reader of the revision before it sees.
snapshot-before :
    (n : ℕ) (rows : List Row) (k : String) (r : ℕ)
    → IsLog n rows
    → 0 < r
    → live (newest (before k r) rows) ≡ snapshot rows (r - 1) k
snapshot-before n rows k r log h =
    ap live (newest-eq-find (before k r) n rows log)
    ∙ ap live (find-congr (before k r) (until k (r - 1)) rows (λ x m. same x))
    ∙ sym (snapshot-eq-find n rows (r - 1) k log)
  where
    same : (x : Row) → before k r x ≡ until k (r - 1) x
    same x = ground arith

event_of-IsEventOf :
    (sealer : SecretsSealer) (n : ℕ) (rows : List Row) (x : Row) (e : WatchEvent)
    → IsLog n rows
    → 0 < x.revision
    → x.kind ≤ 2
    → event_of sealer rows x ≡ ok e
    → IsEventOf sealer rows x e
unfolding event_of
event_of-IsEventOf sealer n rows x e log pos small h =
    let (value, f, g) = >>=-eq-ok (decode_row_value sealer x.value) _ h in
    let before_it = live (newest (before x.key x.revision) rows) in
    let (previous, f2, g2) = >>=-eq-ok (decode_previous sealer x.key before_it) _ g in
    subst (IsEventOf sealer rows x) (ok-injective g2) (record {
      revision = refl;
      kind = event_kind-IsKind x.kind small;
      object = (record { key = x.key; value = value; revision = x.revision }, refl, refl, refl, f);
      previous =
          subst (λ r. IsPrevious x.key r previous) (snapshot-before n rows x.key x.revision log pos)
            (decode_previous-IsPrevious sealer x.key before_it previous f2);
    })

-- The events of a batch between two cursors: strictly in the order of the log, each of them that of a
-- row of the watched prefix between the cursors, and one for every such row.
pub record IsBatch (sealer : SecretsSealer) (prefix : String) (after next : ℕ) (db : Db)
    (events : List WatchEvent) : Type 0 where
  pub ordered : Ascending (λ e. e.revision) after events
  pub sound :
      (e : WatchEvent)
      → In e events
      → (x : Row) × In x db.versions
        × Watched prefix x.key
        × (after < x.revision)
        × (x.revision ≤ next)
        × IsEventOf sealer db.versions x e
  pub complete :
      (x : Row)
      → In x db.versions
      → Watched prefix x.key
      → after < x.revision
      → x.revision ≤ next
      → (e : WatchEvent) × In e events × IsEventOf sealer db.versions x e

pub event_revision :
    (sealer : SecretsSealer) (rows : List Row) (x : Row) (e : WatchEvent)
    → event_of sealer rows x ≡ ok e
    → e.revision ≡ x.revision
unfolding event_of
event_revision sealer rows x e ev = ground arith

module _ (sealer : SecretsSealer) (rows : List Row) where
  Each→In :
      {xs : List Row} {es : List WatchEvent}
      → Each (event_of sealer rows) xs es
      → (e : WatchEvent) → In e es
      → (x : Row) × In x xs × (event_of sealer rows x ≡ ok e)
  Each→In done e m = elim m [ ]
  Each→In (match {x = x} f rest) e (here q) =
      (x, here refl, subst (λ e. event_of sealer rows x ≡ ok e) q f)
  Each→In (match f rest) e (there m) = let (x, n, g) = Each→In rest e m in (x, there n, g)

  In→Each :
      {xs : List Row} {es : List WatchEvent}
      → Each (event_of sealer rows) xs es
      → (x : Row) → In x xs
      → (e : WatchEvent) × In e es × (event_of sealer rows x ≡ ok e)
  In→Each done x m = elim m [ ]
  In→Each (match {y = e} f rest) x (here q) =
      (e, here refl, subst (λ x. event_of sealer rows x ≡ ok e) q f)
  In→Each (match f rest) x (there m) = let (e, n, g) = In→Each rest x m in (e, there n, g)

  Each-Ascending :
      (c : ℕ) {xs : List Row} {es : List WatchEvent}
      → Each (event_of sealer rows) xs es
      → Ascending (λ x. x.revision) c xs
      → Ascending (λ e. e.revision) c es
  Each-Ascending c done h = tt
  Each-Ascending c (match {x = x} {y = e} {ys = es} f rest) h =
      let q = event_revision sealer rows x e f in
      let a = h.0 in
      (
        omega (arith, q, a),
        subst (λ c. Ascending (λ e. e.revision) c es) (sym q) (Each-Ascending x.revision rest h.1),
      )

-- A batch goes up to the last of its rows, or, where it is not full, up to the head.
pub changed-IsBatch :
    (sealer : SecretsSealer) (prefix : String) (after next : ℕ) (db : Db) (events : List WatchEvent)
    → IsStore db
    → Each (event_of sealer db.versions) (changed_rows prefix after db.versions) events
    → (next ≡ advance after (changed_rows prefix after db.versions))
      ⊎ ((length (changed_rows prefix after db.versions) < batch_limit) × (next ≡ db.revision))
    → IsBatch sealer prefix after next db events
unfolding changed_rows
changed-IsBatch sealer prefix after next db events s each ends =
    let test : Row → Bool = λ x. ltb after x.revision && in_prefix prefix x in
    let zs = sort revision_lt (keep test db.versions) in
    let pending = changed-IsPending db.versions prefix after in
    let whole = selected-Ascending (suc db.revision) db.versions prefix after s.log in
    let rows_up = take-Ascending batch_limit after zs whole in
    let event : (x : Row) (e : WatchEvent)
        → In x db.versions
        → after < x.revision
        → event_of sealer db.versions x ≡ ok e
        → IsEventOf sealer db.versions x e =
      λ x e m late f.
        event_of-IsEventOf sealer (suc db.revision) db.versions x e s.log (omega (arith, late))
          (s.kinds x m) f in
    record {
      ordered = Each-Ascending sealer db.versions after each rows_up;
      sound = λ e m.
          let (x, n, f) = Each→In sealer db.versions each e m in
          let (late, up) = at_most-advance after (take batch_limit zs) x rows_up n in
          let (i, t) =
            keep→In test db.versions x
              (sort→In revision_lt (keep test db.versions) x (take→In batch_limit zs x n)) in
          let below = IsLog-In (suc db.revision) db.versions x s.log i in
          let reached : x.revision ≤ next = elim ends [
            | inl q ↦ omega (arith, q, up)
            | inr (short, q) ↦ omega (arith, q, below)
          ] in
          (
            x,
            i,
            (and-eq-true (ltb after x.revision) (in_prefix prefix x) t).1,
            late,
            reached,
            event x e i late f,
          );
      complete = λ x m watched late up.
          let taken : In x (take batch_limit zs) =
            elim (taken_or_later batch_limit after zs x whole (pending.complete x m watched late)) [
              | inl k ↦ k
              | inr (later, full) ↦ elim ends [
                | inl q ↦ absurd (omega (arith, later, q, up))
                | inr (short, q) ↦ absurd (omega (arith, short, full))
              ]
            ] in
          let (e, n, f) = In→Each sealer db.versions each x taken in (e, n, event x e m late f);
    }
