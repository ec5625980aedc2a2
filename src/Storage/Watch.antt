-- ===== src/Storage/Watch.antt =====
-- crates/h3s-storage/src/sqlite.rs: what a client that applies the events of `changes` ends up with.
use hedronetes_h3s.Prelude.{
  String, List, [], ◌∷◌, Option, none, some, if◌then◌else◌, str_eq, ok, ◌>>=◌,
}
use hedronetes_h3s.Storage.Types.{StoredObject, EventKind, deleted, WatchEvent, R, SecretsSealer}
use hedronetes_h3s.Storage.Table.{Row}
use hedronetes_h3s.Storage.Read.{decode_row}

-- What a reader is shown of a row: its payload goes through custody.
abbrev pub shown : SecretsSealer → Option Row → R (Option StoredObject)
shown sealer none = ok none
shown sealer (some x) = decode_row sealer x >>= λ o. ok (some o)

-- What a client's cache holds under `k` after an event.
abbrev pub put_object :
    String → EventKind → StoredObject → Option StoredObject → Option StoredObject
put_object k deleted o seen = if str_eq o.key k then none else seen
put_object k _ o seen = if str_eq o.key k then some o else seen

abbrev pub apply_event : String → WatchEvent → Option StoredObject → Option StoredObject
apply_event k e seen = elim e.object [ none ↦ seen | some o ↦ put_object k e.kind o seen ]

abbrev pub replay_events : String → Option StoredObject → List WatchEvent → Option StoredObject
replay_events k seen [] = seen
replay_events k seen (e ∷ es) = replay_events k (apply_event k e seen) es
