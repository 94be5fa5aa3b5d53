-- ===== src/HashtableDb.antt =====
-- db/hashtable_db.cc and db/hashtable_db.h, with `CopyString` of db/lock_stl_db.h: the
-- database in memory. A table of fields is owned by one key, so the pointer to it is modelled as the
-- table, which an update puts back under its key. The order of calls of several threads is a sequence
-- of whole operations.
pub mod Records
pub mod Contract
pub mod Inserts
pub mod Release
use ycsb_lsm.Base.{
  ℕ, Bool, true, false, List, [], ◌∷◌, ◌++◌, Option, none, some, Bytes, ◌^◌, ◌-◌, Run, ok,
}
use ycsb_lsm.Base.Int.{ℤ, to_u64}
use ycsb_lsm.Db.{Status, k_ok, k_error_no_data, k_error_conflict, code, FieldPair, Db}
use ycsb_lsm.UnorderedMap.{Container}
use ycsb_lsm.Hashtable.{c_str, get, insert, update, remove, entries}

-- `CopyString`: `strcpy(value, str.c_str())`
unfoldable pub copy_string : Bytes → Bytes
unfolding c_str
copy_string str = c_str str

-- `n = -1`, the default number of entries
abbrev pub all_entries : ℕ
all_entries = 2 ^ 64 - 1

module _ (C : Container) where
  abbrev pub FieldHashtable : Type 0
  FieldHashtable = C.Map Bytes

  -- `*key_table_`
  abbrev pub KeyHashtable : Type 0
  KeyHashtable = C.Map FieldHashtable

  -- The fields of the list that the record has, in the order of the list.
  unfoldable pub pick_fields : List Bytes → FieldHashtable → List FieldPair
  unfolding get
  pick_fields [] field_table = []
  pick_fields (field ∷ rest) field_table = elim (get C field field_table) [
    | none ↦ pick_fields rest field_table
    | some value ↦ (field, value) ∷ pick_fields rest field_table
  ]

  -- The pairs that `Read` and `Scan` return for one record.
  unfoldable pub field_values : Option (List Bytes) → FieldHashtable → List FieldPair
  unfolding entries pick_fields
  field_values none field_table = entries C none all_entries field_table
  field_values (some fields) field_table = pick_fields fields field_table

  -- `Read`; without the record `result` is left as it was
  unfoldable pub read :
      KeyHashtable → Bytes → Bytes → Option (List Bytes) → List FieldPair → Status × List FieldPair
  unfolding field_values get
  read key_table table key fields result = elim (get C (table ++ key) key_table) [
    | none ↦ (k_error_no_data, result)
    | some field_table ↦ (k_ok, field_values fields field_table)
  ]

  unfoldable pub scan_records :
      Option (List Bytes) → List (Bytes × FieldHashtable) → List (List FieldPair)
  unfolding field_values
  scan_records fields [] = []
  scan_records fields ((k, field_table) ∷ rest) =
      field_values fields field_table ∷ scan_records fields rest

  -- `Scan`; the length is converted to `size_t`
  unfoldable pub scan :
      KeyHashtable → Bytes → Bytes → ℤ → Option (List Bytes) → Status × List (List FieldPair)
  unfolding scan_records entries to_u64
  scan key_table table key len fields =
      (k_ok, scan_records fields (entries C (some (table ++ key)) (to_u64 len) key_table))

  -- The loop of `Update` on a record that is new: `Insert`, whatever it returns.
  unfoldable pub insert_all : List FieldPair → FieldHashtable → FieldHashtable
  unfolding insert copy_string
  insert_all [] field_table = field_table
  insert_all ((name, v) ∷ rest) field_table =
      insert_all rest (insert C (some name) (copy_string v) field_table).1

  -- One round of the loop of `Update` on a record that is there.
  unfoldable pub update_field : Bytes → Bytes → FieldHashtable → FieldHashtable
  unfolding insert update copy_string
  update_field name v field_table =
      let (old, field_table') = update C name (copy_string v) field_table in
      elim old [
        | none ↦ (insert C (some name) (copy_string v) field_table').1
        | some o ↦ field_table'
      ]

  unfoldable pub update_all : List FieldPair → FieldHashtable → FieldHashtable
  unfolding update_field
  update_all [] field_table = field_table
  update_all ((name, v) ∷ rest) field_table = update_all rest (update_field name v field_table)

  -- The table of fields at a key is changed in place.
  unfoldable pub store : Bytes → FieldHashtable → KeyHashtable → KeyHashtable
  unfolding update
  store key_index field_table key_table = (update C key_index field_table key_table).1

  -- `Update` of the database
  unfoldable pub update_record :
      KeyHashtable → Bytes → Bytes → List FieldPair → Status × KeyHashtable
  unfolding get insert insert_all update_all store
  update_record key_table table key values =
      let key_index = table ++ key in
      elim (get C key_index key_table) [
        | none ↦
            let key_table' = (insert C (some key_index) C.empty key_table).1 in
            (k_ok, store key_index (insert_all values C.empty) key_table')
        | some field_table ↦ (k_ok, store key_index (update_all values field_table) key_table)
      ]

  -- The loop of `Insert`: it stops at the first field that is there already.
  unfoldable pub insert_until_conflict : List FieldPair → FieldHashtable → Status × FieldHashtable
  unfolding insert copy_string
  insert_until_conflict [] field_table = (k_ok, field_table)
  insert_until_conflict ((name, v) ∷ rest) field_table =
      let (inserted, field_table') = insert C (some name) (copy_string v) field_table in
      elim inserted [
        | true ↦ insert_until_conflict rest field_table'
        | false ↦ (k_error_conflict, field_table')
      ]

  -- `Insert` of the database
  unfoldable pub insert_record :
      KeyHashtable → Bytes → Bytes → List FieldPair → Status × KeyHashtable
  unfolding get insert insert_until_conflict store
  insert_record key_table table key values =
      let key_index = table ++ key in
      elim (get C key_index key_table) [
        | none ↦
            let key_table' = (insert C (some key_index) C.empty key_table).1 in
            let (status, field_table) = insert_until_conflict values C.empty in
            (status, store key_index field_table key_table')
        | some old ↦
            let (status, field_table) = insert_until_conflict values old in
            (status, store key_index field_table key_table)
      ]

  -- `Delete`
  unfoldable pub delete : KeyHashtable → Bytes → Bytes → Status × KeyHashtable
  unfolding remove
  delete key_table table key =
      let (field_table, key_table') = remove C (table ++ key) key_table in
      elim field_table [ none ↦ (k_error_no_data, key_table') | some old ↦ (k_ok, key_table') ]

  -- `HashtableDB` as a `DB`
  abbrev pub hashtable_db : Db
  hashtable_db = record {
    State = KeyHashtable;
    read = λ db table key fields result.
        let (status, r) = read db table key fields result in ok ((code status, r), db);
    scan = λ db table key len fields.
        let (status, r) = scan db table key len fields in ok ((code status, r), db);
    update = λ db table key values.
        let (status, db') = update_record db table key values in ok (code status, db');
    insert = λ db table key values.
        let (status, db') = insert_record db table key values in ok (code status, db');
    delete = λ db table key. let (status, db') = delete db table key in ok (code status, db');
  }
