-- ===== src/Tests/Databases.antt =====
-- The database in memory and the client at concrete inputs.
use ycsb_lsm.Base.{
  ℕ, ◌≡◌, refl, Bool, true, false, [], ◌∷◌, ◌++◌, some, none, Bytes, codes, same, if◌then◌else◌,
  ◌+◌,
}
use mathlib.Core.Option.{or_else}
use ycsb_lsm.Platform.Model.{counting}
use ycsb_lsm.UnorderedMap.{lookup}
use ycsb_lsm.UnorderedMap.Model.{listing, listing-IsContainer}
use ycsb_lsm.Hashtable.{c_str, get}
use ycsb_lsm.Db.{k_ok, k_error_no_data, k_error_conflict}
use ycsb_lsm.HashtableDb.{
  FieldHashtable, KeyHashtable, read, update_record, insert_record, delete, hashtable_db,
}
use ycsb_lsm.HashtableDb.Records.{first_given}
use ycsb_lsm.HashtableDb.Contract.{record_at, value_at, updated, update_record_lem, delete_lem}
use ycsb_lsm.HashtableDb.Inserts.{start_of, read-insert_record, insert_record_conflict}
use ycsb_lsm.Workload.{insert}
use ycsb_lsm.Client.{System, Shared, Client, run_operation}
use ycsb_lsm.Tests.Workloads.{ten_records, value_or}

abbrev one_record : KeyHashtable listing
one_record = (codes "t1", (codes "f", codes "x") ∷ []) ∷ []

update_record_lem_example :
    ((update_record listing one_record (codes "t") (codes "1") ((codes "f", codes "y") ∷ [])).0
      ≡ k_ok)
    × (value_at listing
          (update_record listing one_record (codes "t") (codes "1") ((codes "f", codes "y") ∷ [])).1
          (codes "t1")
          (codes "f")
        ≡ (if same (c_str (codes "t1")) (c_str (codes "t1"))
            then updated listing
                (record_at listing one_record (codes "t1"))
                ((codes "f", codes "y") ∷ [])
                (codes "f")
            else value_at listing one_record (codes "t1") (codes "f")))
update_record_lem_example =
    update_record_lem listing listing-IsContainer one_record (codes "t") (codes "1")
      ((codes "f", codes "y") ∷ []) (codes "t1") (codes "f")

delete_lem_example :
    ((delete listing one_record (codes "t") (codes "1")).0
      ≡ elim (record_at listing one_record (codes "t1")) [ none ↦ k_error_no_data | some t ↦ k_ok ])
    × (record_at listing (delete listing one_record (codes "t") (codes "1")).1 (codes "t1") ≡ (
        if same (c_str (codes "t1")) (c_str (codes "t1"))
        then none
        else record_at listing one_record (codes "t1")))
delete_lem_example =
    delete_lem listing listing-IsContainer one_record (codes "t") (codes "1") (codes "t1")

read-insert_record_example :
    ((insert_record listing one_record (codes "t") (codes "2") ((codes "f", codes "y") ∷ [])).0
      ≡ k_ok)
    × (read listing
          (insert_record listing one_record (codes "t") (codes "2") ((codes "f", codes "y") ∷ [])).1
          (codes "t")
          (codes "2")
          (some (codes "f" ∷ []))
          []
        ≡ (k_ok, (codes "f", c_str (codes "y")) ∷ []))
    × ((j : Bytes)
        → record_at listing
            (insert_record listing one_record
              (codes "t")
              (codes "2")
              ((codes "f", codes "y") ∷ [])).1
            j
          ≡ (if same (c_str (codes "t2")) (c_str j)
              then record_at listing
                  (insert_record listing one_record
                    (codes "t")
                    (codes "2")
                    ((codes "f", codes "y") ∷ [])).1
                  (codes "t2")
              else record_at listing one_record j))
read-insert_record_example =
    read-insert_record listing listing-IsContainer one_record (codes "t") (codes "2")
      ((codes "f", codes "y") ∷ []) (unfold first_given in refl, tt)
      (unfold get lookup same in refl)

insert_record_conflict_example :
    ((insert_record listing one_record
        (codes "t")
        (codes "1")
        ([] ++ (codes "f", codes "y") ∷ [])).0
      ≡ k_error_conflict)
    × ((t : FieldHashtable listing) × ((j : Bytes)
          → record_at listing
              (insert_record listing one_record
                (codes "t")
                (codes "1")
                ([] ++ (codes "f", codes "y") ∷ [])).1
              j
            ≡ (if same (c_str (codes "t1")) (c_str j)
                then some t
                else record_at listing one_record j))
        × ((n : Bytes)
            → get listing n t
              ≡ or_else
                  (get listing n (start_of listing (record_at listing one_record (codes "t1"))))
                  (first_given n [])))
insert_record_conflict_example =
    insert_record_conflict listing listing-IsContainer one_record (codes "t") (codes "1")
      (codes "f") (codes "y") (codes "x") [] [] tt (unfold get lookup same in refl)

abbrev pub ticking : System ℕ
ticking = record {
  elapsed = λ w. (17, w + 1);
  sscanf_timestamp_operation = λ line. (2, b'w');
  sscanf_timestamp = λ line. 1;
}

abbrev empty_shared : Shared counting (hashtable_db listing) ticking
empty_shared = record { workload = ten_records; db = []; ops = λ i. 0; durations = λ i. 0 }

abbrev first_client : Client counting (hashtable_db listing) ticking
first_client = record {
  t_id = 0;
  t_type = 0;
  line = [];
  current_operation = none;
  timestamp_trace = none;
  first_do_transaction = true;
  latency_open = false;
  nlatency_open = false;
}

abbrev inserted_run : (Bool × Shared counting (hashtable_db listing) ticking) × ℕ
inserted_run =
    value_or
      (run_operation counting (hashtable_db listing) ticking 1 true first_client insert empty_shared
        3)
      ((false, empty_shared), 0)
