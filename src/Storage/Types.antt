-- ===== src/Storage/Types.antt =====
-- crates/h3s-storage/src/lib.rs: the types of the storage boundary.
use hedronetes_h3s.Prelude.{ℕ, String, Option, List, Result, ok}

abbrev pub Bytes : Type 0
Bytes = List ℕ

-- The errors that the store itself decides on. Failures of the database or of its worker thread are
-- one constructor each.
pub data Error : Type 0 where
  invalid : String → Error
  already_exists not_found : String → Error
  conflict compacted future_revision : ℕ → ℕ → Error
  lease_expired : ℕ → Error
  database worker custody : Error

abbrev pub R : Type 0 → Type 0
R A = Result Error A

-- A `StoreKey` is the text that it wraps.
pub record StoredObject : Type 0 where
  pub key : String
  pub value : Bytes
  pub revision : ℕ

pub record ListSelect : Type 0 where
  pub prefix : String
  pub at_revision : Option ℕ
  pub start_after : Option String
  pub limit : ℕ

pub record ObjectList : Type 0 where
  pub items : List StoredObject
  pub revision : ℕ
  pub next_after : Option String

pub data EventKind : Type 0 where
  added modified deleted bookmark : EventKind

pub record WatchEvent : Type 0 where
  pub previous : Option StoredObject
  pub kind : EventKind
  pub revision : ℕ
  pub object : Option StoredObject

-- `SecretsSealer`: custody of Secret payloads, which Geode implements.
pub record SecretsSealer : Type 0 where
  pub seal : Bytes → R Bytes
  pub open_sealed : Bytes → R Bytes

-- `Unsealed`: no custody, payloads stay as written.
abbrev pub unsealed : SecretsSealer
unsealed = record { seal = λ plaintext. ok plaintext; open_sealed = λ sealed. ok sealed }

pub record Lease : Type 0 where
  pub id : ℕ
  pub ttl : ℕ
