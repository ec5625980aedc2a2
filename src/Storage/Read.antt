-- ===== src/Storage/Read.antt =====
-- crates/h3s-storage/src/sqlite.rs: `get`, `list` and `changes`.
use hedronetes_h3s.Prelude.{
  ℕ, zero, suc, ◌+◌, String, List, [], ◌∷◌, Bool, true, ◌&&◌, ◌||◌, not, Option, none, some,
  if◌then◌else◌, ◌==◌, ltb, ok, err, ◌>>=◌, ◌>>◌, collect, keep, sort, length, codes, text_lt,
  starts_with,
}
use hedronetes_h3s.Storage.Types.{
  Bytes, StoredObject, ListSelect, ObjectList, EventKind, added, modified, deleted, WatchEvent, R,
  SecretsSealer, invalid,
}
use hedronetes_h3s.Storage.Keys.{is_secret_key, validate_prefix}
use hedronetes_h3s.Storage.Table.{
  Row, Db, newest, before, is_current_at, in_prefix, get_current, geo_envelope, decode_row_value,
  revision_i64, validate_revision, live,
}

module _ {ℓ} {A : Type ℓ} where
  abbrev pub take : ℕ → List A → List A
  take zero xs = []
  take (suc n) [] = []
  take (suc n) (x ∷ xs) = x ∷ take n xs

  abbrev pub last : List A → Option A
  last [] = none
  last (x ∷ []) = some x
  last (x ∷ y ∷ ys) = last (y ∷ ys)

  -- `Vec::pop`, its result dropped
  abbrev pub pop : List A → List A
  pop [] = []
  pop (x ∷ []) = []
  pop (x ∷ y ∷ ys) = x ∷ pop (y ∷ ys)

decode_object : SecretsSealer → String → ℕ → Bytes → R StoredObject
decode_object sealer key revision stored = do
  value ← decode_row_value sealer stored
  ok (record { key = key; value = value; revision = revision })

decode_current : SecretsSealer → Option StoredObject → R (Option StoredObject)
unfolding decode_object
decode_current sealer none = ok none
decode_current sealer (some o) = do
  decoded ← decode_object sealer o.key o.revision o.value
  ok (some decoded)

unfoldable pub get : SecretsSealer → String → Db → R (Option StoredObject)
unfolding decode_current
get sealer key db = decode_current sealer (get_current db.versions key)

-- The revision that a LIST reads: none and zero select the current one.
unfoldable pub resolve_revision : Option ℕ → ℕ → ℕ
resolve_revision none current = current
resolve_revision (some r) current = if r == 0 then current else r

abbrev pub key_lt : Row → Row → Bool
key_lt a b = text_lt a.key b.key

abbrev pub start_text : Option String → String
start_text none = ""
start_text (some k) = k

-- The WHERE clause of the LIST query.
unfoldable pub selected : String → String → ℕ → List Row → Row → Bool
selected prefix start revision rows x =
    in_prefix prefix x && text_lt start x.key && not (x.kind == 2) && is_current_at revision rows x

unfoldable pub list_rows : String → String → ℕ → ℕ → List Row → List Row
unfolding selected
list_rows prefix start revision count rows =
    take count (sort key_lt (keep (selected prefix start revision rows) rows))

unfoldable pub decode_row : SecretsSealer → Row → R StoredObject
unfolding decode_object
decode_row sealer x = decode_object sealer x.key x.revision x.value

abbrev pub last_key : Option StoredObject → Option String
last_key none = none
last_key (some o) = some o.key

-- One row more than the limit is read: it shows whether another page follows.
unfoldable pub paginate : List StoredObject → ℕ → ℕ → ObjectList
paginate items limit revision =
    if ltb limit (length items)
    then record { items = pop items; revision = revision; next_after = last_key (last (pop items)) }
    else record { items = items; revision = revision; next_after = none }

abbrev continuation_ok : String → Option String → Bool
continuation_ok prefix none = true
continuation_ok prefix (some k) = starts_with (codes k) (codes prefix)

unfoldable pub list : SecretsSealer → ListSelect → Db → R ObjectList
unfolding resolve_revision list_rows paginate decode_row
list sealer sel db = do
  validate_prefix sel.prefix
  (if sel.limit == 0 || ltb 4096 sel.limit
      then err (invalid "LIST limit must be 1..4096")
      else ok tt)
  (if continuation_ok sel.prefix sel.start_after
      then ok tt
      else err (invalid "continuation key is outside the selection"))
  let revision = resolve_revision sel.at_revision db.revision
  validate_revision revision db.revision db.compacted
  rev ← revision_i64 revision
  let raw = list_rows sel.prefix (start_text sel.start_after) rev (sel.limit + 1) db.versions
  items ← collect (decode_row sealer) raw
  ok (paginate items sel.limit revision)

-- `changes`: the version log after a revision, oldest first, in batches of at most 256.
abbrev pub revision_lt : Row → Row → Bool
revision_lt a b = ltb a.revision b.revision

abbrev pub batch_limit : ℕ
batch_limit = 256

unfoldable pub event_kind : ℕ → EventKind
event_kind kind = if kind == 0 then added else if kind == 1 then modified else deleted

unfoldable pub changed_rows : String → ℕ → List Row → List Row
changed_rows prefix after rows =
    take batch_limit
      (sort revision_lt (keep (λ x. ltb after x.revision && in_prefix prefix x) rows))

-- The row that the LEFT JOIN finds: the version before this one, if it is no deletion.
unfoldable pub decode_previous : SecretsSealer → String → Option Row → R (Option StoredObject)
decode_previous sealer key none = ok none
decode_previous sealer key (some p) = do
  value ←
      (if is_secret_key key && starts_with p.value geo_envelope
        then sealer.open_sealed p.value
        else ok p.value)
  ok (some (record { key = key; value = value; revision = p.revision }))

unfoldable pub event_of : SecretsSealer → List Row → Row → R WatchEvent
unfolding decode_previous event_kind
event_of sealer rows x = do
  value ← decode_row_value sealer x.value
  previous ← decode_previous sealer x.key (live (newest (before x.key x.revision) rows))
  ok (record {
    previous = previous;
    kind = event_kind x.kind;
    revision = x.revision;
    object = some (record { key = x.key; value = value; revision = x.revision });
  })

abbrev pub last_revision : Option WatchEvent → ℕ → ℕ
last_revision none current = current
last_revision (some e) current = e.revision

unfoldable pub next_cursor : List WatchEvent → ℕ → ℕ
next_cursor events current =
    if length events == batch_limit then last_revision (last events) current else current

unfoldable pub changes : SecretsSealer → String → ℕ → Db → R (List WatchEvent × ℕ)
changes sealer prefix after db = do
  validate_revision after db.revision db.compacted
  rev ← revision_i64 after
  events ← collect (event_of sealer db.versions) (changed_rows prefix rev db.versions)
  ok (events, next_cursor events db.revision)
