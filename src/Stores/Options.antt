-- ===== src/Stores/Options.antt =====
-- The constructors of the three databases: the options that they set and the opening of the store. The
-- messages are left out. `open_db` is the parameter for `DB::Open` and `SepDB::Open`, where `none` is a
-- status that is not `ok()`.
pub mod Opened
use ycsb_lsm.Base.{
  ℕ, ◌*◌, ◌^◌, ◌+◌, Bool, true, false, List, [], ◌∷◌, Option, none, some, Bytes, if◌then◌else◌, Run,
  ok, fault, undefined, exit, ◌>>=◌,
}
use ycsb_lsm.Base.Int.{ℤ, pos}
use ycsb_lsm.Config.{PropertyTree, Config, set_config_path, get_field}
use ycsb_lsm.Stores.{Engine, Store}
use ycsb_lsm.Stores.Filters.{FilterPolicy, choose_filter}

-- `kSnappyCompression`, `kNoCompression`
pub data Compression : Type 0 where
  snappy_compression no_compression : Compression

-- The library's arithmetic of `double`, as far as it is used.
pub record Arithmetic (Double : Type 0) : Type 0 where
  pub of_int : ℤ → Double
  pub mul : Double → Double → Double

module _ (B : PropertyTree) where
  -- The members of `leveldb::Options` and of its `opEp_` that both LevelDB and LeveldbVlog set.
  pub record LevelOptions : Type 0 where
    pub no_cache_io : Bool
    pub filter_policy : FilterPolicy
    pub lrus_num : Option ℕ
    pub region_divide_size : ℕ
    pub freq_divide_size : ℕ
    pub k_filter_base_lg : ℤ
    pub key_value_size : ℤ
    pub force_delete_level0_file : Bool
    pub create_if_missing : Bool
    pub compression : Compression
    pub max_file_size : ℤ
    pub max_open_files : ℤ
    pub seek_compaction : Bool
    pub force_disable_compaction : Bool
    pub filter_capacity_ratio : B.Double
    pub l0_base_ratio : B.Double
    pub life_time : ℕ
    pub base_num : ℤ
    pub set_fre_count_in_compaction : Bool
    pub slow_ratio : B.Double
    pub change_ratio : B.Double
    pub size_ratio : ℤ
    pub init_filter_nums : ℤ
    pub block_cache : ℕ
    pub with_statistics : Bool

  -- Those that only LevelDB sets.
  pub record LevelExtras : Type 0 where
    pub run_mode : ℤ
    pub cache_use_real_size : Bool
    pub region_merge_threshold : B.Double
    pub write_buffer_size : ℕ
    pub use_lru_cache : Bool

  unfoldable pub level_options : Config B → FilterPolicy → Option ℕ → LevelOptions
  level_options config policy lrus =
      let shape = config.shape in
      let switches = config.switches in
      let caching = config.caching in
      let sizes = config.sizes in
      record {
        no_cache_io = switches.direct_io_flag;
        filter_policy = policy;
        lrus_num = lrus;
        region_divide_size = shape.region_divide_size;
        freq_divide_size = shape.region_divide_size;
        k_filter_base_lg = sizes.filter_base_lg;
        key_value_size = sizes.value_size;
        force_delete_level0_file = sizes.force_delete_level0_file;
        create_if_missing = true;
        compression = if switches.compression_flag then snappy_compression else no_compression;
        max_file_size = shape.max_file_size;
        max_open_files = shape.max_open_files;
        seek_compaction = switches.seek_compaction_flag;
        force_disable_compaction = switches.force_disable_compaction_flag;
        filter_capacity_ratio = caching.filters_capacity_ratio;
        l0_base_ratio = caching.l0_base_ratio;
        life_time = caching.life_time;
        base_num = caching.base_num;
        set_fre_count_in_compaction = switches.set_fre_count_in_compaction;
        slow_ratio = caching.slow_ratio;
        change_ratio = caching.change_ratio;
        size_ratio = sizes.size_ratio;
        init_filter_nums = sizes.init_filter_num;
        block_cache = sizes.block_cache_size;
        with_statistics = switches.statistics_open;
      }

  unfoldable pub level_extras : Config B → LevelExtras
  level_extras config = record {
    run_mode = config.sizes.run_mode;
    cache_use_real_size = true;
    region_merge_threshold = config.caching.extra_value1;
    write_buffer_size = 64 * 2 ^ 20;
    use_lru_cache = config.sizes.use_lru_cache;
  }

  -- What the constructor of RocksDB sets in `rocksdb::Options` and `BlockBasedTableOptions`, as compiled
  -- without `USE_ORIGIN`. A cache is its capacity.
  pub record RocksOptions : Type 0 where
    pub create_if_missing : Bool
    pub compression : Compression
    pub max_open_files : ℤ
    pub target_file_size_base : ℤ
    pub write_buffer_size : ℕ
    pub use_direct_reads : Bool
    pub block_cache : ℕ
    pub block_size : ℕ
    pub max_background_compactions : ℕ
    pub max_bytes_for_level_base : ℕ
    pub metadata_cache : ℕ
    pub filter_info_capacity : B.Double
    pub filter_info_life_time : ℕ
    pub filter_info_change_ratio : B.Double
    pub metadata_block_size : ℕ
    pub bits_per_key_per_filter : List ℤ
    pub init_filter_nums : ℤ
    pub force_disable_compaction : Bool
    pub block_restart_interval : ℕ
    pub with_statistics : Bool

  unfoldable pub rocks_options : Arithmetic B.Double → Config B → List ℤ → RocksOptions
  rocks_options arithmetic config bits =
      let shape = config.shape in
      let switches = config.switches in
      let caching = config.caching in
      let sizes = config.sizes in
      let files = arithmetic.of_int shape.max_open_files in
      let scaled = arithmetic.mul files caching.filters_capacity_ratio in
      record {
        create_if_missing = true;
        compression = if switches.compression_flag then snappy_compression else no_compression;
        max_open_files = shape.max_open_files;
        target_file_size_base = shape.max_file_size;
        write_buffer_size = 64 * 2 ^ 20;
        use_direct_reads = switches.direct_io_flag;
        block_cache = sizes.block_cache_size;
        block_size = 4096;
        max_background_compactions = 20;
        max_bytes_for_level_base = 512 * 1024 * 1024;
        metadata_cache = 8 * 1024 * 1024 * 1024;
        filter_info_capacity = arithmetic.mul scaled (arithmetic.of_int (pos 9));
        filter_info_life_time = caching.life_time;
        filter_info_change_ratio = caching.change_ratio;
        metadata_block_size = 4096;
        bits_per_key_per_filter = bits;
        init_filter_nums = sizes.init_filter_num;
        force_disable_compaction = switches.force_disable_compaction_flag;
        block_restart_interval = 16;
        with_statistics = switches.statistics_open;
      }

  module _ (E : Engine) (scan_file : Bytes → Option (List ℤ)) where
    -- The store that was opened, or `exit`.
    unfoldable pub opened : ℕ → Option E.State → Run (Store E)
    opened status none = fault (exit status)
    opened status (some db) = ok (record { db = db; has_read = false })

    -- The constructor of LevelDB
    unfoldable pub level_db_new :
        (LevelOptions → LevelExtras → Bytes → Option E.State) → Bytes → Bytes → Run (Store E)
    unfolding set_config_path get_field choose_filter level_options level_extras opened
    level_db_new open_db dbfilename config_path = do
      read ← set_config_path B config_path
      config ← get_field B (some read) (λ c. c)
      (policy, lrus) ← choose_filter B scan_file config
      opened 0 (open_db (level_options config policy lrus) (level_extras config) dbfilename)

    -- The constructor of LeveldbVlog, which passes on the name of the log of values
    unfoldable pub leveldb_vlog_new :
        (LevelOptions → Bytes → Bytes → Option E.State) → Bytes → Bytes → Run (Store E)
    unfolding set_config_path get_field choose_filter level_options opened
    leveldb_vlog_new open_db dbfilename config_path = do
      read ← set_config_path B config_path
      config ← get_field B (some read) (λ c. c)
      (policy, lrus) ← choose_filter B scan_file config
      opened 0 (open_db (level_options config policy lrus) dbfilename config.shape.vlog_filename)

    -- The constructor of RocksDB, which reads the file of bits whatever the type of the filter is
    unfoldable pub rocks_db_new :
        Arithmetic B.Double
        → (RocksOptions → Bytes → Option E.State)
        → Bytes
        → Bytes
        → Run (Store E)
    unfolding set_config_path get_field rocks_options opened
    rocks_db_new arithmetic open_db dbfilename config_path = do
      read ← set_config_path B config_path
      config ← get_field B (some read) (λ c. c)
      elim (scan_file config.switches.bloom_bits_array_filename) [
        | none ↦ fault undefined
        | some bits ↦ opened 1 (open_db (rocks_options arithmetic config bits) dbfilename)
      ]
