-- ===== src/Storage/ListPage.antt =====
-- crates/h3s-storage/src/sqlite.rs: the contract of `list`.
use hedronetes_h3s.Prelude.{
  ℕ, suc, ◌+◌, ◌-◌, ◌≤◌, ◌<◌, String, List, [], true, ◌≡◌, sym, ap, ◌∙◌, subst, subst₂, some, ◌⊎◌,
  inl, inr, arith, ltb, ltb→lt, In, length, Bool-cases, ok, value_or, collect, collect-Each, Each,
  text_lt, codes, starts_with,
}
use native.Mathlib.Numerals.{add-one}
use hedronetes_h3s.Storage.Types.{StoredObject, ListSelect, ObjectList, SecretsSealer}
use hedronetes_h3s.Storage.Table.{Row, Db, validate_revision, revision_i64}
use hedronetes_h3s.Storage.Log.{IsStore}
use hedronetes_h3s.Storage.Read.{
  decode_row, list, list_rows, paginate, take, last, pop, start_text, last_key, resolve_revision,
}
use hedronetes_h3s.Storage.Snapshot.{snapshot}
use hedronetes_h3s.Storage.Replay.{Watched}
use hedronetes_h3s.Storage.Pages.{
  take-length-le, take→In, take-more, pop-take, Each-pop, Each-length, decode-key, Each-last,
  Each→In, In→Each,
}
use hedronetes_h3s.Storage.Listing.{
  IsPage, take-IsPage, sorted_rows, sorted_rows_sound, sorted_rows_complete,
}

-- What `list` has checked and read when it succeeds.
list-ok :
    (sealer : SecretsSealer) (sel : ListSelect) (db : Db) (page : ObjectList)
    → list sealer sel db ≡ ok page
    → (items : List StoredObject) × (0 < sel.limit)
      × (resolve_revision sel.at_revision db.revision ≤ db.revision)
      × (db.compacted ≤ resolve_revision sel.at_revision db.revision)
      × (collect (decode_row sealer) (
            list_rows sel.prefix
              (start_text sel.start_after)
              (resolve_revision sel.at_revision db.revision)
              (sel.limit + 1)
              db.versions)
          ≡ ok items)
      × (page ≡ paginate items sel.limit (resolve_revision sel.at_revision db.revision))
unfolding list validate_revision revision_i64
list-ok sealer sel db page h =
    let read = collect (decode_row sealer) (
      list_rows sel.prefix (start_text sel.start_after)
        (resolve_revision sel.at_revision db.revision) (sel.limit + 1) db.versions) in
    (value_or [] read, ground arith, ground arith, ground arith, ground arith, ground arith)

-- What a page of a LIST promises, for the selection, the revision read and the database it was
-- read from.
pub record IsPageOf (sealer : SecretsSealer) (sel : ListSelect) (db : Db) (page : ObjectList)
    : Type 0 where
  pub revision : page.revision ≡ resolve_revision sel.at_revision db.revision
  pub bounded : length page.items ≤ sel.limit
  pub sound :
      (o : StoredObject)
      → In o page.items
      → (x : Row) × (snapshot db.versions page.revision o.key ≡ some x)
        × (decode_row sealer x ≡ ok o)
        × Watched sel.prefix o.key
        × (text_lt (start_text sel.start_after) o.key ≡ true)
  pub complete :
      (k : String) (x : Row)
      → Watched sel.prefix k
      → text_lt (start_text sel.start_after) k ≡ true
      → snapshot db.versions page.revision k ≡ some x
      → ((o : StoredObject) × In o page.items × (decode_row sealer x ≡ ok o))
        ⊎ ((c : String) × (page.next_after ≡ some c) × (text_lt c k ≡ true))

module _ (sealer : SecretsSealer) (sel : ListSelect) (db : Db) (s : IsStore db) where
  abbrev start : String
  start = start_text sel.start_after

  abbrev at : ℕ
  at = resolve_revision sel.at_revision db.revision

  abbrev all_rows : List Row
  all_rows = sorted_rows (suc db.revision) db.versions s.log sel.prefix start at

  -- The rows behind the items of a page, each of them live in the snapshot, and all of them, or all
  -- before the continuation key.
  behind :
      (page : ObjectList) (rows : List Row)
      → page.revision ≡ at
      → length page.items ≤ sel.limit
      → Each (decode_row sealer) rows page.items
      → ((x : Row) → In x rows → In x all_rows)
      → ((k : String) (x : Row)
          → In x all_rows
          → x.key ≡ k
          → In x rows ⊎ ((c : String) × (page.next_after ≡ some c) × (text_lt c k ≡ true)))
      → IsPageOf sealer sel db page
  behind page rows rev bound each sound complete = record {
    revision = rev;
    bounded = bound;
    sound = λ o m.
        let (x, mx, e) = Each→In sealer o each m in
        let (_, live_x, watched, after_start) =
          sorted_rows_sound (suc db.revision) db.versions s.log sel.prefix start at x
            (sound x mx) in
        let same = sym (decode-key sealer x o e) in
        (
          x,
          ap (λ (r : ℕ). snapshot db.versions r o.key) rev
              ∙ ap (snapshot db.versions at) (sym same)
              ∙ live_x,
          e,
          ap (λ (j : String). starts_with (codes j) (codes sel.prefix)) (sym same) ∙ watched,
          ap (text_lt start) (sym same) ∙ after_start,
        );
    complete = λ k x w b e.
        let (m, same) =
          sorted_rows_complete (suc db.revision) db.versions s.log sel.prefix start at k x w b
            (ap (λ (r : ℕ). snapshot db.versions r k) (sym rev) ∙ e) in
        elim (complete k x m same) [ inl p ↦ inl (In→Each sealer x each p) | inr c ↦ inr c ];
  }

  -- A page with a continuation: the first `limit` rows.
  full_page :
      (l : ℕ) (items : List StoredObject)
      → sel.limit ≡ suc l
      → Each (decode_row sealer) (take (suc sel.limit) all_rows) items
      → sel.limit < length items
      → (page : ObjectList) → page.revision ≡ at
      → page.items ≡ pop items
      → page.next_after ≡ last_key (last (pop items))
      → IsPageOf sealer sel db page
  full_page l items pos each over page rev shown after =
      let size = Each-length sealer each in
      let rows_eq : pop (take (suc sel.limit) all_rows) ≡ take sel.limit all_rows =
        pop-take sel.limit all_rows (omega arith) in
      let popped : Each (decode_row sealer) (take sel.limit all_rows) page.items =
        subst₂ (Each (decode_row sealer)) rows_eq (sym shown) (Each-pop sealer each) in
      let first : IsPage db.versions sel.prefix start at (take sel.limit all_rows) =
        rw pos (take-IsPage (suc db.revision) db.versions s.log sel.prefix start at l) in
      behind page (take sel.limit all_rows) rev
        (omega (arith, Each-length sealer popped, take-length-le sel.limit all_rows)) popped
        (λ x m. take→In sel.limit all_rows x m)
        (λ k x m same.
          let (_, live_x, watched, after_start) =
            sorted_rows_sound (suc db.revision) db.versions s.log sel.prefix start at x m in
          elim (first.complete x.key x watched after_start live_x) [
            | inl p ↦ inl p
            | inr (z, e, lt) ↦ inr (
              z.key,
              after
                  ∙ ap (λ (os : List StoredObject). last_key (last os)) (sym shown)
                  ∙ Each-last sealer z popped e,
              ap (text_lt z.key) (sym same) ∙ lt,
            )
          ])

  -- The last page: every row.
  last_page :
      (items : List StoredObject)
      → Each (decode_row sealer) (take (suc sel.limit) all_rows) items
      → length items ≤ sel.limit
      → (page : ObjectList) → page.revision ≡ at
      → page.items ≡ items
      → IsPageOf sealer sel db page
  last_page items each fits page rev shown =
      let size = Each-length sealer each in
      let rows_eq = take-more sel.limit all_rows (omega arith) in
      let whole : Each (decode_row sealer) all_rows page.items =
        subst₂ (Each (decode_row sealer)) rows_eq (sym shown) each in
      behind page all_rows rev (rw shown fits) whole (λ x m. m) (λ k x m same. inl m)

-- A page of a LIST is a piece of one snapshot. When `list` succeeds, every item is what a reader of
-- the page's revision is shown under the item's key, the key is in the selection and after the
-- start key, and there are at most `limit` items. Every object of that snapshot that is in the
-- selection and after the start key is on the page, or the page names a continuation key before
-- the object's key, from which the next page starts.
pub list-IsPageOf :
    (sealer : SecretsSealer) (sel : ListSelect) (db : Db) (page : ObjectList)
    → IsStore db
    → list sealer sel db ≡ ok page
    → IsPageOf sealer sel db page
unfolding list_rows paginate
list-IsPageOf sealer sel db page s h =
    let (items, positive, _, _, read, shape) = list-ok sealer sel db page h in
    let raw = collect-Each (decode_row sealer) _ items read in
    let each : Each (decode_row sealer) (take (suc sel.limit) (all_rows sealer sel db s)) items =
      subst (λ (c : ℕ). Each (decode_row sealer) (take c (all_rows sealer sel db s)) items)
        (add-one sel.limit) raw in
    elim (Bool-cases (ltb sel.limit (length items))) [
      | inl over ↦
          let shape' = rw over at shape in
          full_page sealer sel db s (sel.limit - 1) items (omega arith) each
            (ltb→lt sel.limit (length items) over) page (ap (λ (q : ObjectList). q.revision) shape')
            (ap (λ (q : ObjectList). q.items) shape') (ap (λ (q : ObjectList). q.next_after) shape')
      | inr fits ↦
          let shape' = rw fits at shape in
          last_page sealer sel db s items each (ground arith) page
            (ap (λ (q : ObjectList). q.revision) shape') (ap (λ (q : ObjectList). q.items) shape')
    ]
