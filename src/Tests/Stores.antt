-- ===== src/Tests/Stores.antt =====
-- The stores and their configuration at concrete inputs.
use ycsb_lsm.Base.{
  ℕ, suc, ◌+◌, ◌<◌, ◌≡◌, ◌⊎◌, inl, inr, refl, true, false, List, [], ◌∷◌, ◌++◌, Option, some, none,
  Bytes, codes, same, if◌then◌else◌, leb, length, replicate, ok, fault, undefined, arith,
}
use ycsb_lsm.Base.Int.{ℤ, pos, pos_part}
use ycsb_lsm.Base.Decimal.{to_string, value_from, decimal}
use ycsb_lsm.Convert.{stoi}
use ycsb_lsm.Platform.Model.{counting}
use ycsb_lsm.UnorderedMap.{lookup}
use ycsb_lsm.Db.{k_ok, code}
use ycsb_lsm.Client.{Shared}
use ycsb_lsm.Config.{Config, set_config_path}
use ycsb_lsm.Config.Model.{tree_of}
use ycsb_lsm.Config.Required.{HoldsAll, required_keys, set_config_path-HoldsAll}
use ycsb_lsm.Stores.{Store, level_db, scan_entries}
use ycsb_lsm.Stores.Model.{Entries, ordered}
use ycsb_lsm.Stores.Records.{scan_entries_lem}
use ycsb_lsm.Stores.Levels.{num_files_name}
use ycsb_lsm.Stores.Reports.{StopsAt}
use ycsb_lsm.Stores.Filters.{of_array}
use ycsb_lsm.Stores.Options.{
  LevelOptions, LevelExtras, level_options, level_extras, opened, level_db_new,
}
use ycsb_lsm.Stores.Options.Opened.{level_db_new-array}
use ycsb_lsm.Tests.Workloads.{ten_records}
use ycsb_lsm.Tests.Databases.{ticking}

abbrev pub two_entries : Store (ordered [])
two_entries = record {
  db = (codes "user1", codes "x") ∷ (codes "user2", codes "y") ∷ [];
  has_read = false;
}

scan_entries_lem_example :
    scan_entries (ordered []) two_entries (codes "t") (codes "user1") (pos 2) none ≡ (
      if leb (pos_part (pos 2)) (length ((ordered []).seek two_entries.db (codes "user1")))
      then ok ((code k_ok, []), two_entries)
      else fault undefined)
scan_entries_lem_example =
    scan_entries_lem (ordered []) two_entries (codes "t") (codes "user1") (pos 2) none

abbrev pub one_field : Shared counting (level_db (ordered [])) ticking
one_field = record {
  workload = record ten_records { field_count = pos 1 };
  db = two_entries;
  ops = λ i. 0;
  durations = λ i. 0;
}

abbrev three_fields : Shared counting (level_db (ordered [])) ticking
three_fields = record one_field { workload = ten_records }

-- A file on level 3 and none on level 4.
abbrev levels_used : Entries
levels_used = (num_files_name 3, codes "1") ∷ (num_files_name 4, codes "0") ∷ []

levels_used-StopsAt : StopsAt (ordered levels_used) [] 2 4
unfolding num_files_name to_string decimal same lookup stoi
levels_used-StopsAt = record {
  above = omega arith;
  used = λ i p q.
      let first : i ≡ 3 = omega (arith, p, q) in
      rw first (λ held. (codes "1", pos 1, refl, refl, refl));
  stop = inl (λ held. (codes "0", pos 0, refl, refl, refl));
}

abbrev store_of : Entries → Store (ordered levels_used)
store_of entries = record { db = entries; has_read = false }

-- A file on each of the levels 3 to 6; the store has no other level.
abbrev pub all_levels : Entries
all_levels =
    (num_files_name 3, codes "1")
    ∷ (num_files_name 4, codes "1")
    ∷ (num_files_name 5, codes "1")
    ∷ (num_files_name 6, codes "1")
    ∷ []

upper_levels : (i : ℕ) → 2 < i → i < 7 → (i ≡ 3) ⊎ (i ≡ 4) ⊎ (i ≡ 5) ⊎ (i ≡ 6)
upper_levels i p q = ground arith

pub all_levels-StopsAt : StopsAt (ordered all_levels) [] 2 7
unfolding num_files_name to_string decimal same lookup stoi
all_levels-StopsAt = record {
  above = omega arith;
  used = λ i p q. elim (upper_levels i p q) [
    | inl e ↦ rw e (λ held. (codes "1", pos 1, refl, refl, refl))
    | inr (inl e) ↦ rw e (λ held. (codes "1", pos 1, refl, refl, refl))
    | inr (inr (inl e)) ↦ rw e (λ held. (codes "1", pos 1, refl, refl, refl))
    | inr (inr (inr e)) ↦ rw e (λ held. (codes "1", pos 1, refl, refl, refl))
  ];
  stop = inr (λ held. refl);
}

abbrev pub full_store : Store (ordered all_levels)
full_store = record { db = []; has_read = false }

-- A file with every key.
abbrev full_file : Entries
full_file =
    (codes "basic.bloomFileName", codes "blooms")
    ∷ (codes "basic.vlogFileName", codes "vlog")
    ∷ (codes "basic.bloomBits", codes "4")
    ∷ (codes "basic.maxFileSize", codes "2097152")
    ∷ (codes "basic.regionDivideSize", codes "16777216")
    ∷ (codes "basic.maxOpenFiles", codes "6100")
    ∷ (codes "basic.bloomType", codes "2")
    ∷ (codes "basic.openLog", codes "true")
    ∷ (codes "basic.compressionFlag", codes "false")
    ∷ (codes "basic.directIOFlag", codes "true")
    ∷ (codes "basic.seekCompactionFlag", codes "false")
    ∷ (codes "basic.forceDisableCompactionFlag", codes "false")
    ∷ (codes "basic.statisticsOpen", codes "true")
    ∷ (codes "basic.bitsArrayFileName", codes "bits")
    ∷ (codes "basic.setFreCountInCompaction", codes "false")
    ∷ (codes "basic.L0BaseRatio", codes "1")
    ∷ (codes "basic.extraValue1", codes "1")
    ∷ (codes "LRU.LRUNum", codes "10")
    ∷ (codes "LRU.filterCapacityRatio", codes "4")
    ∷ (codes "LRU.baseNum", codes "8")
    ∷ (codes "LRU.lifeTime", codes "20000")
    ∷ (codes "LRU.logBase", codes "5")
    ∷ (codes "LRU.slowRatio", codes "1")
    ∷ (codes "LRU.changeRatio", codes "1")
    ∷ (codes "basic.sizeRatio", codes "10")
    ∷ (codes "basic.valueSize", codes "1024")
    ∷ (codes "basic.filterBaseLg", codes "16")
    ∷ (codes "basic.runMode", codes "0")
    ∷ (codes "basic.forceDeleteLevel0File", codes "false")
    ∷ (codes "LRU.initFilterNum", codes "2")
    ∷ (codes "basic.blockCacheSize", codes "8388608")
    ∷ []

abbrev full_config : Config (tree_of full_file)
full_config = record {
  shape = record {
    bloom_filename = codes "blooms";
    vlog_filename = codes "vlog";
    bloom_bits = pos 4;
    max_file_size = pos 2_097_152;
    region_divide_size = 16_777_216;
    max_open_files = pos 6100;
    bloom_type = pos 2;
  };
  switches = record {
    open_log = true;
    compression_flag = false;
    direct_io_flag = true;
    seek_compaction_flag = false;
    force_disable_compaction_flag = false;
    statistics_open = true;
    bloom_bits_array_filename = codes "bits";
    set_fre_count_in_compaction = false;
  };
  caching = record {
    l0_base_ratio = pos 1;
    extra_value1 = pos 1;
    lrus_num = pos 10;
    filters_capacity_ratio = pos 4;
    base_num = pos 8;
    life_time = 20000;
    log_base = pos 5;
    slow_ratio = pos 1;
    change_ratio = pos 1;
  };
  sizes = record {
    size_ratio = pos 10;
    value_size = pos 1024;
    filter_base_lg = pos 16;
    run_mode = pos 0;
    force_delete_level0_file = false;
    init_filter_num = pos 2;
    block_cache_size = 8_388_608;
    use_lru_cache = false;
  };
}

full_config_read : set_config_path (tree_of full_file) (codes "c.ini") ≡ ok full_config
unfolding set_config_path lookup same value_from
full_config_read = refl

set_config_path-HoldsAll_example :
    (pt : Entries) × (some full_file ≡ some pt)
    × ((tree_of full_file).is_empty pt ≡ false)
    × HoldsAll (tree_of full_file) pt required_keys
set_config_path-HoldsAll_example =
    set_config_path-HoldsAll (tree_of full_file) (codes "c.ini") {config = full_config}
      full_config_read

-- Every store opens, and is empty.
abbrev open_empty :
    LevelOptions (tree_of full_file) → LevelExtras (tree_of full_file) → Bytes → Option Entries
open_empty options extras name = some []

abbrev two_bits : Bytes → Option (List ℤ)
two_bits name = some (pos 4 ∷ pos 8 ∷ [])

level_db_new-array_example :
    level_db_new (tree_of full_file) (ordered []) two_bits open_empty (codes "db") (codes "c.ini")
    ≡ opened (tree_of full_file) (ordered []) two_bits 0 (
        open_empty
          (level_options
            (tree_of full_file)
            full_config
            (of_array ((pos 4 ∷ pos 8 ∷ []) ++ replicate (suc 29) (pos 0)) (pos 4))
            (some (2 + 1)))
          (level_extras (tree_of full_file) full_config)
          (codes "db"))
level_db_new-array_example =
    level_db_new-array (tree_of full_file) (ordered []) two_bits open_empty (codes "db")
      (codes "c.ini") full_config (pos 4 ∷ pos 8 ∷ []) 29 full_config_read refl refl
      (refl, (refl, tt)) refl
