-- ===== src/Stores.antt =====
-- db/leveldb_db.cc, db/rocksdb_db.cc and db/leveldbVlog_db.cc: the databases on LevelDB, RocksDB and
-- the SepDB of LevelDB. The stores are a parameter. The three classes have the same operations on
-- records but for the status of `exit` and for `Scan`; they ignore the table and the names of the
-- fields, so a record is one value.
pub mod Model
pub mod Records
pub mod Levels
pub mod Reports
pub mod Filters
pub mod Options
pub mod Clients
pub mod Requests
use ycsb_lsm.Base.{
  ℕ, suc, zero, ◌+◌, Bool, true, false, not, List, [], ◌∷◌, Option, none, some, Bytes, ◌==◌,
  if◌then◌else◌, Run, ok, fault, exit, undefined, ◌>>=◌,
}
use ycsb_lsm.Base.Int.{ℤ, pos, negsuc, pos_part}
use ycsb_lsm.Db.{Status, k_ok, k_error_no_data, code, FieldPair, Db}

-- What `Get` of a store comes to: `IsNotFound()`, another status that is not `ok()`, or the value.
pub data Found : Type 0 where
  not_found failed : Found
  found : Bytes → Found

-- `leveldb::DB`, `leveldb::SepDB` and `rocksdb::DB`.
pub record Engine : Type 1 where
  pub State : Type 0
  pub get : State → Bytes → Found × State
  -- `Put`; whether the status is `ok()`
  pub put : State → Bytes → Bytes → Bool × State
  -- the entries from the key on, in order: those that an iterator walks over after `Seek`
  pub seek : State → Bytes → List (Bytes × Bytes)
  -- `GetProperty`, given what the string holds before
  pub get_property : State → Bytes → Bytes → Bool × Bytes
  -- `DoSomeThing`
  pub do_some_thing : State → Bytes → State

module _ (E : Engine) where
  -- `db_` and `hasRead`
  pub record Store : Type 0 where
    pub db : E.State
    pub has_read : Bool

  -- The status of `exit` is a parameter: 0 for LevelDB, 1 for RocksDB.
  module _ (status : ℕ) where
    -- `Read`, which does not touch `result`
    unfoldable pub read_record :
        Store
        → Bytes
        → Bytes
        → Option (List Bytes)
        → List FieldPair
        → Run ((ℤ × List FieldPair) × Store)
    read_record s table key fields result =
        let (got, db') = E.get s.db key in
        elim got [
          | not_found ↦ ok ((code k_error_no_data, result), record s { db = db' })
          | failed ↦ fault (exit status)
          | found value ↦ ok ((code k_ok, result), record { db = db'; has_read = true })
        ]

    -- The loop of `Insert`, with `count` at its start.
    unfoldable pub put_all : E.State → Bytes → List FieldPair → ℕ → Run (ℕ × E.State)
    put_all db key [] count = ok (count, db)
    put_all db key ((name, v) ∷ rest) count =
        let (done, db') = E.put db key v in
        elim done [ true ↦ put_all db' key rest (count + 1) | false ↦ fault (exit status) ]

    -- `Insert`
    unfoldable pub insert_values : Store → Bytes → Bytes → List FieldPair → Run (ℤ × Store)
    unfolding put_all
    insert_values s table key values = do
      (count, db') ← put_all s.db key values 0
      if not (count == 1) then fault (exit status) else ok (code k_ok, record s { db = db' })

    -- `Update`
    unfoldable pub update_values : Store → Bytes → Bytes → List FieldPair → Run (ℤ × Store)
    unfolding insert_values
    update_values s table key values = insert_values s table key values

    -- `Delete`
    unfoldable pub delete_values : Store → Bytes → Bytes → Run (ℤ × Store)
    unfolding insert_values
    delete_values s table key = insert_values s table key []

  -- `Next`, for the number of times that the loop of `Scan` is run. The stores require a valid iterator.
  unfoldable pub advance : ℕ → List (Bytes × Bytes) → Run (List (Bytes × Bytes))
  advance zero entries = ok entries
  advance (suc n) [] = fault undefined
  advance (suc n) (entry ∷ rest) = advance n rest

  -- `Scan` of LevelDB and RocksDB
  unfoldable pub scan_entries :
      Store → Bytes → Bytes → ℤ → Option (List Bytes) → Run ((ℤ × List (List FieldPair)) × Store)
  unfolding advance
  scan_entries s table key len fields = do
    _ ← advance (pos_part len) (E.seek s.db key)
    ok ((code k_ok, []), s)

  -- `LevelDB`
  abbrev pub level_db : Db
  level_db = record {
    State = Store;
    read = read_record 0;
    scan = scan_entries;
    update = update_values 0;
    insert = insert_values 0;
    delete = delete_values 0;
  }

  -- `RocksDB`
  abbrev pub rocks_db : Db
  rocks_db = record {
    State = Store;
    read = read_record 1;
    scan = scan_entries;
    update = update_values 1;
    insert = insert_values 1;
    delete = delete_values 1;
  }

  -- `LeveldbVlog`; its `Scan` is not implemented
  abbrev pub leveldb_vlog : Db
  leveldb_vlog = record {
    State = Store;
    read = read_record 0;
    scan = λ s table key len fields. ok ((code k_ok, []), s);
    update = update_values 0;
    insert = insert_values 0;
    delete = delete_values 0;
  }
