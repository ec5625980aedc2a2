-- ===== src/Storage/Writes.antt =====
-- crates/h3s-storage/src/sqlite.rs: what `get` returns after a write, and when a write is refused.
use hedronetes_h3s.Prelude.{
  ℕ, suc, ◌+◌, ◌≤◌, ◌<◌, String, [], Bool, true, false, ◌≡◌, ◌≢◌, refl, sym, ap, ◌∙◌, Option, none,
  some, ◌⊎◌, inl, inr, arith, ok, err, eq_iff, str_eq_refl, ne→str_eq, ◌==◌, find→In, Option-cases,
}
use hedronetes_h3s.Storage.Types.{StoredObject, Error, SecretsSealer, not_found, conflict}
use hedronetes_h3s.Storage.Table.{Row, Db, newest, has_key, get_current, kind_number, object_for}
use hedronetes_h3s.Storage.Log.{IsLog-In, IsStore, newest-eq-find}
use hedronetes_h3s.Storage.Mutate.{
  mutate, update, delete, delete-ok, mutate_tx, check_expected, mutation_kind,
}
use hedronetes_h3s.Storage.Read.{get}
use hedronetes_h3s.Storage.Commit.{commit_row, mutate-Outcome}
use hedronetes_h3s.Storage.Current.{written_of, upsert-live, get-live, get-eq, current-after}

-- A created or updated object is what `get` of its key returns from then on, with the payload and
-- the revision of the reply, and every other key is as before.
pub get-mutate :
    (sealer : SecretsSealer) (obj : StoredObject) (expected : Option ℕ) (db db' : Db)
    (reply : StoredObject)
    → IsStore db
    → mutate sealer obj expected false db ≡ (ok reply, db')
    → (reply.key ≡ obj.key)
      × (reply.revision ≡ db.revision + 1)
      × (get sealer obj.key db' ≡ ok (some reply))
      × ((k : String) → obj.key ≢ k → get sealer k db' ≡ get sealer k db)
get-mutate sealer obj expected db db' reply s h =
    let (c, shape) =
      written_of sealer obj expected false db db' reply
        (mutate-Outcome sealer obj expected false db s) h in
    let row = commit_row obj (db.revision + 1) c.value c.kind in
    let current = current-after sealer obj expected false db db' reply.value s c in
    let mine : get_current db'.versions obj.key ≡ some (object_for obj.key row) =
      current obj.key
      ∙ rw (str_eq_refl obj.key, upsert-live (get_current db.versions obj.key) c.kind c.numbered) in
    (
      ap (λ (o : StoredObject). o.key) shape,
      ap (λ (o : StoredObject). o.revision) shape,
      get-live sealer obj.key row db' reply.value mine c.shown
          ∙ ap (λ (o : StoredObject). ok (some o)) (sym shape),
      λ k other. get-eq sealer k db db' (current k ∙ rw (ne→str_eq obj.key k other)),
    )

-- A write whose expectation the current version does not meet is refused with that reason, before
-- anything is written.
pub mutate-refused :
    (sealer : SecretsSealer) (obj : StoredObject) (expected : Option ℕ) (deleting : Bool) (db : Db)
    (e : Error)
    → check_expected obj.key expected (get_current db.versions obj.key) ≡ err e
    → mutate sealer obj expected deleting db ≡ (err e, db)
unfolding mutate mutate_tx
mutate-refused sealer obj expected deleting db e h = rw h

get_current-revision :
    (db : Db) (k : String) (old : StoredObject)
    → IsStore db
    → get_current db.versions k ≡ some old
    → old.revision ≤ db.revision
unfolding get_current
get_current-revision db k old s h = newest-bound (Option-cases (newest (has_key k) db.versions))
  where
    newest-bound :
        (newest (has_key k) db.versions ≡ none)
          ⊎ ((x : Row) × (newest (has_key k) db.versions ≡ some x))
        → old.revision ≤ db.revision
    newest-bound (inl e) = ground arith
    newest-bound (inr (x, e)) =
        let f = sym (newest-eq-find (has_key k) (suc db.revision) db.versions s.log) ∙ e in
        let b =
          IsLog-In (suc db.revision) db.versions x s.log (find→In (has_key k) db.versions x f).0 in
        ground arith

-- A row that a deletion writes is not live.
deletion-dead :
    (previous : Option StoredObject) (kind : ℕ)
    → kind_number (mutation_kind true previous) ≡ ok kind
    → (kind == 2) ≡ true
unfolding kind_number mutation_kind
deletion-dead previous kind h = ground arith

get-none :
    (sealer : SecretsSealer) (k : String) (db : Db)
    → get_current db.versions k ≡ none
    → get sealer k db ≡ ok none
unfolding get
get-none sealer k db e = rw e

refused-missing : (k : String) (r : ℕ) → check_expected k (some r) none ≡ err (not_found k)
unfolding check_expected
refused-missing k r = refl

-- An accepted update expected the revision that was current.
expected-current :
    (k : String) (rv : ℕ) (previous : Option StoredObject)
    → check_expected k (some rv) previous ≡ ok tt
    → (old : StoredObject) × (previous ≡ some old) × (rv ≡ old.revision)
unfolding check_expected
expected-current k rv none h = cc
expected-current k rv (some old) h = (old, refl, ground arith)

refused-conflict :
    (k : String) (rv : ℕ) (old : StoredObject)
    → rv < old.revision
    → check_expected k (some rv) (some old) ≡ err (conflict rv old.revision)
unfolding check_expected
refused-conflict k rv old h = ground arith

-- Of two updates that expect the same revision of one object, only one can be accepted: after the
-- first, the second is refused with a conflict that names the revision of the first.
pub update-update_conflict :
    (sealer : SecretsSealer) (a b : StoredObject) (rv : ℕ) (db db' : Db) (reply : StoredObject)
    → IsStore db
    → a.key ≡ b.key
    → update sealer a rv db ≡ (ok reply, db')
    → update sealer b rv db' ≡ (err (conflict rv reply.revision), db')
unfolding update
update-update_conflict sealer a b rv db db' reply s same h =
    let (c, shape) =
      written_of sealer a (some rv) false db db' reply
        (mutate-Outcome sealer a (some rv) false db s) h in
    let row = commit_row a (db.revision + 1) c.value c.kind in
    let (old, was, met) = expected-current a.key rv (get_current db.versions a.key) c.allowed in
    let bound = get_current-revision db a.key old s was in
    let now : get_current db'.versions b.key ≡ some (object_for b.key row) =
      current-after sealer a (some rv) false db db' reply.value s c b.key
      ∙ rw (
        (eq_iff a.key b.key).1 same,
        upsert-live (get_current db.versions a.key) c.kind c.numbered,
      ) in
    let number : reply.revision ≡ db.revision + 1 = ap (λ (o : StoredObject). o.revision) shape in
    mutate-refused sealer b (some rv) false db' (conflict rv reply.revision)
      (rw (now, number) (refused-conflict b.key rv (object_for b.key row) (omega arith)))

-- After an accepted deletion `get` finds nothing under the key, every other key is as before, and a
-- further update of the key is refused as not found.
pub get-delete :
    (sealer : SecretsSealer) (key : String) (rv : ℕ) (db db' : Db)
    → IsStore db
    → delete sealer key rv db ≡ (ok tt, db')
    → (get sealer key db' ≡ ok none)
      × ((k : String) → key ≢ k → get sealer k db' ≡ get sealer k db)
      × ((obj : StoredObject) (r : ℕ)
          → obj.key ≡ key
          → update sealer obj r db' ≡ (err (not_found key), db'))
get-delete sealer key rv db db' s h =
    let gone : StoredObject = record { key = key; value = []; revision = 0 } in
    let (o, m) = delete-ok sealer key rv db db' h in
    let (c, shape) =
      written_of sealer gone (some rv) true db db' o
        (mutate-Outcome sealer gone (some rv) true db s) m in
    let row = commit_row gone (db.revision + 1) c.value c.kind in
    let current = current-after sealer gone (some rv) true db db' o.value s c in
    let none_left : get_current db'.versions key ≡ none =
      current key
      ∙ rw (str_eq_refl key, deletion-dead (get_current db.versions key) c.kind c.numbered) in
    (
      get-none sealer key db' none_left,
      λ k other. get-eq sealer k db db' (current k ∙ rw (ne→str_eq key k other)),
      λ obj r same.
          unfold update in
          mutate-refused sealer obj (some r) false db' (not_found key)
            (rw (same, none_left) (refused-missing key r)),
    )
