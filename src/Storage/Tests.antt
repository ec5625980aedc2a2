-- ===== src/Storage/Tests.antt =====
-- crates/h3s-storage/tests/contract.rs, in the small: a registry with two versions of one object and
-- one of another, and the theorems of the store at it.
use hedronetes_h3s.Prelude.{
  ℕ, ◌+◌, ◌≤◌, String, List, [], ◌∷◌, true, false, ◌≡◌, ◌≢◌, refl, none, some, arith, ok, err, In,
  here, there, ap, eq_iff, false≢true, text_lt,
}
use hedronetes_h3s.Storage.Types.{
  StoredObject, ListSelect, ObjectList, Error, unsealed, conflict, not_found, already_exists,
  WatchEvent, added, modified,
}
use hedronetes_h3s.Storage.Table.{
  Row, Db, empty, get_current, newest, kind_number, decode_row_value, revision_i64,
  validate_revision, is_current_at,
}
use hedronetes_h3s.Storage.Keys.{is_secret_key, validate_prefix, new_key}
use hedronetes_h3s.Storage.Log.{IsStore}
use hedronetes_h3s.Storage.Mutate.{
  mutate, mutate_tx, check_expected, mutation_kind, payload, create, update, delete,
}
use hedronetes_h3s.Storage.Read.{
  get, list, list_rows, selected, decode_row, paginate, resolve_revision,
}
use hedronetes_h3s.Storage.Maintain.{compact, maintain}
use hedronetes_h3s.Storage.Snapshot.{snapshot}
use hedronetes_h3s.Storage.History.{
  Run, start, next, mutated, compacted_to, Run-IsStore, Run-snapshot, maintain-window,
}
use hedronetes_h3s.Storage.Writes.{get-mutate, update-update_conflict, get-delete}
use hedronetes_h3s.Storage.Answers.{IsAnswer, mutate-IsAnswer}
use hedronetes_h3s.Storage.ListPage.{IsPageOf, list-IsPageOf}

abbrev key_a : String
key_a = "/registry/configmaps/default/a"

abbrev key_b : String
key_b = "/registry/configmaps/default/b"

abbrev row : String → ℕ → ℕ → ℕ → Row
row key revision byte kind = record {
  key = key;
  revision = revision;
  value = byte ∷ [];
  kind = kind;
}

-- `a` was created at 1 and updated at 3, `b` was created at 2.
abbrev three : Db
three = record {
  revision = 3;
  compacted = 0;
  versions = row key_a 3 12 1 ∷ row key_b 2 20 0 ∷ row key_a 1 11 0 ∷ [];
  leases = [];
  last_lease = 0;
}

three-kinds : (x : Row) → In x three.versions → x.kind ≤ 2
three-kinds x (here e) = let f = ap (λ (r : Row). r.kind) e in omega arith
three-kinds x (there (here e)) = let f = ap (λ (r : Row). r.kind) e in omega arith
three-kinds x (there (there (here e))) = let f = ap (λ (r : Row). r.kind) e in omega arith
three-kinds x (there (there (there m))) = elim m [ ]

three-IsStore : IsStore three
three-IsStore = record {
  log = omega arith;
  floor = omega arith;
  bounded = omega arith;
  kinds = three-kinds;
}

abbrev object : String → ℕ → StoredObject
object key byte = record { key = key; value = byte ∷ []; revision = 0 }

abbrev stored : String → ℕ → ℕ → StoredObject
stored key byte revision = record { key = key; value = byte ∷ []; revision = revision }

-- `a` after one more update.
abbrev four : Db
four = record three { revision = 4; versions = row key_a 4 13 1 ∷ three.versions }

update_runs : update unsealed (object key_a 13) 3 three ≡ (ok (stored key_a 13 4), four)
unfolding update mutate mutate_tx check_expected mutation_kind payload get_current newest
    kind_number decode_row_value revision_i64 is_secret_key
update_runs = refl

create_runs_and_refuses :
    ((create unsealed (object key_a 11) empty).0 ≡ ok (stored key_a 11 1))
    × ((create unsealed (object key_a 11) three).0 ≡ err (already_exists key_a))
unfolding create mutate mutate_tx check_expected mutation_kind payload get_current newest
    kind_number decode_row_value revision_i64 is_secret_key
create_runs_and_refuses = (refl, refl)

keys_accepted_and_refused :
    (new_key key_a ≡ ok key_a)
    × (new_key "/registry/configmaps/../a" ≡ err (Error.invalid "/registry/configmaps/../a"))
    × (is_secret_key "/registry/secrets/default/s" ≡ true)
unfolding new_key is_secret_key
keys_accepted_and_refused = (refl, refl, refl)

a_not_b : ◌≢◌ {A = String} key_a key_b
a_not_b p = false≢true ((eq_iff key_a key_b).1 p)

run_of_calls : Run three (compact 3 (mutate unsealed (object key_b 21) (some 2) false three).1).1
run_of_calls =
    next (next start (mutated unsealed (object key_b 21) (some 2) false)) (compacted_to 3)

compacted_floor :
    (compact 3 (mutate unsealed (object key_b 21) (some 2) false three).1).1.compacted ≤ 3
unfolding compact mutate mutate_tx check_expected mutation_kind payload get_current newest
    kind_number decode_row_value revision_i64 is_secret_key
compacted_floor = omega arith

Run-snapshot_example :
    snapshot
      (compact 3 (mutate unsealed (object key_b 21) (some 2) false three).1).1.versions
      3
      key_a
    ≡ snapshot three.versions 3 key_a
Run-snapshot_example = Run-snapshot 3 key_a three-IsStore run_of_calls (omega arith) compacted_floor

mutate_runs :
    mutate unsealed (object key_a 13) (some 3) false three ≡ (ok (stored key_a 13 4), four)
unfolding mutate mutate_tx check_expected mutation_kind payload get_current newest kind_number
    decode_row_value revision_i64 is_secret_key
mutate_runs = refl

get-mutate_example :
    (◌≡◌ {A = String} key_a key_a)
    × (◌≡◌ {A = ℕ} 4 (3 + 1))
    × (get unsealed key_a four ≡ ok (some (stored key_a 13 4)))
    × ((k : String) → key_a ≢ k → get unsealed k four ≡ get unsealed k three)
get-mutate_example =
    get-mutate unsealed (object key_a 13) (some 3) three four (stored key_a 13 4) three-IsStore
      mutate_runs

update-update_conflict_example :
    update unsealed (object key_a 14) 3 four ≡ (err (conflict 3 4), four)
update-update_conflict_example =
    update-update_conflict unsealed (object key_a 13) (object key_a 14) 3 three four
      (stored key_a 13 4) three-IsStore refl update_runs

mutate-IsAnswer_example :
    IsAnswer
      (object key_a 14)
      three
      (some 1)
      false
      (get_current three.versions key_a)
      (mutate unsealed (object key_a 14) (some 1) false three)
unfolding is_secret_key
mutate-IsAnswer_example =
    mutate-IsAnswer unsealed (object key_a 14) (some 1) false three three-IsStore refl refl
      (omega arith) (λ p. absurd (false≢true p))

stale_update : mutate unsealed (object key_a 14) (some 1) false three ≡ (err (conflict 1 3), three)
unfolding mutate mutate_tx check_expected mutation_kind payload get_current newest kind_number
    decode_row_value revision_i64 is_secret_key
stale_update = refl

-- `b` deleted.
abbrev without_b : Db
without_b = record three { revision = 4; versions = row key_b 4 20 2 ∷ three.versions }

delete_runs : delete unsealed key_b 2 three ≡ (ok tt, without_b)
unfolding delete mutate mutate_tx check_expected mutation_kind payload get_current newest
    kind_number decode_row_value revision_i64 is_secret_key
delete_runs = refl

get-delete_example :
    (get unsealed key_b without_b ≡ ok none)
    × ((k : String) → key_b ≢ k → get unsealed k without_b ≡ get unsealed k three)
    × ((obj : StoredObject) (r : ℕ)
        → obj.key ≡ key_b
        → update unsealed obj r without_b ≡ (err (not_found key_b), without_b))
get-delete_example = get-delete unsealed key_b 2 three without_b three-IsStore delete_runs

abbrev changed : List WatchEvent
changed =
    record { previous = none; kind = added; revision = 2; object = some (stored key_b 20 2) }
    ∷ record {
      previous = some (stored key_a 11 1);
      kind = modified;
      revision = 3;
      object = some (stored key_a 12 3);
    }
    ∷ []

abbrev one_object : ListSelect
one_object = record {
  prefix = "/registry/configmaps/default/";
  at_revision = none;
  start_after = none;
  limit = 1;
}

abbrev first_page : ObjectList
first_page = record { items = stored key_a 12 3 ∷ []; revision = 3; next_after = some key_a }

list_runs : list unsealed one_object three ≡ ok first_page
unfolding list validate_prefix validate_revision revision_i64 resolve_revision list_rows selected
    is_current_at newest text_lt paginate decode_row decode_row_value
list_runs = refl

list-IsPageOf_example : IsPageOf unsealed one_object three first_page
list-IsPageOf_example = list-IsPageOf unsealed one_object three first_page three-IsStore list_runs

Run-IsStore_example :
    IsStore (compact 3 (mutate unsealed (object key_b 21) (some 2) false three).1).1
Run-IsStore_example = Run-IsStore run_of_calls three-IsStore

maintain-window_example :
    (validate_revision 2 (maintain 1 0 three).1.revision (maintain 1 0 three).1.compacted ≡ ok tt)
    × (snapshot (maintain 1 0 three).1.versions 2 key_a ≡ snapshot three.versions 2 key_a)
    × ((maintain 1 0 three).1.revision ≡ three.revision)
maintain-window_example =
    maintain-window 1 0 2 key_a three three-IsStore (omega arith) (omega arith) (omega arith)
