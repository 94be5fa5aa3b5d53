-- ===== src/Config.antt =====
-- db/basic_config.cc and db/basic_config.hh: the configuration of the stores, a singleton that
-- `setConfigPath` fills from an INI file. boost's property tree is a parameter.
pub mod Model
pub mod Required
use ycsb_lsm.Base.{
  ℕ, Bool, true, false, not, Option, none, some, String, Bytes, codes, Run, ok, fault, assert,
  assertion, undefined, std_exception, ◌>>=◌, ◌>>◌,
}
use ycsb_lsm.Base.Int.{ℤ}

-- `boost::property_tree`: `read_ini` of a file, where `none` is an `ini_parser_error`; the text at a
-- path; the conversions of `get<T>`, where `none` is a text that is no `T`; and that of a `double` to
-- `int`, where `none` is a value out of range. `uint64_t` and `size_t` are one type.
pub record PropertyTree : Type 1 where
  pub Tree : Type 0
  pub Double : Type 0
  pub read_ini : Bytes → Option Tree
  pub is_empty : Tree → Bool
  pub at : Tree → Bytes → Option Bytes
  pub to_int : Bytes → Option ℤ
  pub to_unsigned : Bytes → Option ℕ
  pub to_bool : Bytes → Option Bool
  pub to_double : Bytes → Option Double
  pub int_of_double : Double → Option ℤ

-- `_pt.get<T>(key)`
unfoldable pub get_value {ℓ} : {T : Type ℓ} → Option Bytes → (Bytes → Option T) → Run T
get_value none convert = fault (std_exception (codes "boost::property_tree::ptree_bad_path"))
get_value (some text) convert = elim (convert text) [
  | none ↦ fault (std_exception (codes "boost::property_tree::ptree_bad_data"))
  | some value ↦ ok value
]

-- `_pt.get<T>(key, defaultVal)`
unfoldable pub get_value_or {ℓ} : {T : Type ℓ} → Option Bytes → (Bytes → Option T) → T → T
get_value_or none convert default_val = default_val
get_value_or (some text) convert default_val = elim (convert text) [
  | none ↦ default_val
  | some value ↦ value
]

module _ (B : PropertyTree) where
  -- The fields of the class, in four groups, in the order in which they are read.
  pub record Shape : Type 0 where
    pub bloom_filename : Bytes
    pub vlog_filename : Bytes
    pub bloom_bits : ℤ
    pub max_file_size : ℤ
    pub region_divide_size : ℕ
    pub max_open_files : ℤ
    pub bloom_type : ℤ

  pub record Switches : Type 0 where
    pub open_log : Bool
    pub compression_flag : Bool
    pub direct_io_flag : Bool
    pub seek_compaction_flag : Bool
    pub force_disable_compaction_flag : Bool
    pub statistics_open : Bool
    pub bloom_bits_array_filename : Bytes
    pub set_fre_count_in_compaction : Bool

  pub record Caching : Type 0 where
    pub l0_base_ratio : B.Double
    pub extra_value1 : B.Double
    pub lrus_num : ℤ
    pub filters_capacity_ratio : B.Double
    pub base_num : ℤ
    pub life_time : ℕ
    pub log_base : ℤ
    pub slow_ratio : B.Double
    pub change_ratio : B.Double

  pub record Sizes : Type 0 where
    pub size_ratio : ℤ
    pub value_size : ℤ
    pub filter_base_lg : ℤ
    pub run_mode : ℤ
    pub force_delete_level0_file : Bool
    pub init_filter_num : ℤ
    pub block_cache_size : ℕ
    pub use_lru_cache : Bool

  pub record Config : Type 0 where
    pub shape : Shape
    pub switches : Switches
    pub caching : Caching
    pub sizes : Sizes

  -- `readString`; every text is a string
  unfoldable pub read_string : B.Tree → String → Run Bytes
  unfolding get_value
  read_string pt key = get_value (B.at pt (codes key)) some

  -- `readInt`
  unfoldable pub read_int : B.Tree → String → Run ℤ
  unfolding get_value
  read_int pt key = get_value (B.at pt (codes key)) B.to_int

  -- `readULL` and `readSize_t`
  unfoldable pub read_unsigned : B.Tree → String → Run ℕ
  unfolding get_value
  read_unsigned pt key = get_value (B.at pt (codes key)) B.to_unsigned

  -- `readBool` without a default
  unfoldable pub read_bool : B.Tree → String → Run Bool
  unfolding get_value
  read_bool pt key = get_value (B.at pt (codes key)) B.to_bool

  -- `readBool` with a default
  unfoldable pub read_bool_or : B.Tree → String → Bool → Bool
  unfolding get_value_or
  read_bool_or pt key default_val = get_value_or (B.at pt (codes key)) B.to_bool default_val

  -- `readFloat`
  unfoldable pub read_float : B.Tree → String → Run B.Double
  unfolding get_value
  read_float pt key = get_value (B.at pt (codes key)) B.to_double

  -- The assignment of a `double` to an `int`.
  unfoldable pub checked_int : Option ℤ → Run ℤ
  checked_int none = fault undefined
  checked_int (some n) = ok n

  unfoldable pub read_shape : B.Tree → Run Shape
  unfolding read_string read_int read_unsigned
  read_shape pt = do
    a ← read_string pt "basic.bloomFileName"
    b ← read_string pt "basic.vlogFileName"
    c ← read_int pt "basic.bloomBits"
    d ← read_int pt "basic.maxFileSize"
    e ← read_unsigned pt "basic.regionDivideSize"
    f ← read_int pt "basic.maxOpenFiles"
    g ← read_int pt "basic.bloomType"
    ok (record {
      bloom_filename = a;
      vlog_filename = b;
      bloom_bits = c;
      max_file_size = d;
      region_divide_size = e;
      max_open_files = f;
      bloom_type = g;
    })

  unfoldable pub read_switches : B.Tree → Run Switches
  unfolding read_string read_bool
  read_switches pt = do
    a ← read_bool pt "basic.openLog"
    b ← read_bool pt "basic.compressionFlag"
    c ← read_bool pt "basic.directIOFlag"
    d ← read_bool pt "basic.seekCompactionFlag"
    e ← read_bool pt "basic.forceDisableCompactionFlag"
    f ← read_bool pt "basic.statisticsOpen"
    g ← read_string pt "basic.bitsArrayFileName"
    h ← read_bool pt "basic.setFreCountInCompaction"
    ok (record {
      open_log = a;
      compression_flag = b;
      direct_io_flag = c;
      seek_compaction_flag = d;
      force_disable_compaction_flag = e;
      statistics_open = f;
      bloom_bits_array_filename = g;
      set_fre_count_in_compaction = h;
    })

  unfoldable pub read_caching : B.Tree → Run Caching
  unfolding read_int read_unsigned read_float
  read_caching pt = do
    a ← read_float pt "basic.L0BaseRatio"
    b ← read_float pt "basic.extraValue1"
    c ← read_int pt "LRU.LRUNum"
    d ← read_float pt "LRU.filterCapacityRatio"
    e ← read_int pt "LRU.baseNum"
    f ← read_unsigned pt "LRU.lifeTime"
    g ← read_int pt "LRU.logBase"
    h ← read_float pt "LRU.slowRatio"
    i ← read_float pt "LRU.changeRatio"
    ok (record {
      l0_base_ratio = a;
      extra_value1 = b;
      lrus_num = c;
      filters_capacity_ratio = d;
      base_num = e;
      life_time = f;
      log_base = g;
      slow_ratio = h;
      change_ratio = i;
    })

  unfoldable pub read_sizes : B.Tree → Run Sizes
  unfolding read_int read_unsigned read_bool read_bool_or read_float checked_int
  read_sizes pt = do
    a ← read_int pt "basic.sizeRatio"
    b ← read_int pt "basic.valueSize"
    c ← read_int pt "basic.filterBaseLg"
    d ← read_int pt "basic.runMode"
    e ← read_bool pt "basic.forceDeleteLevel0File"
    x ← read_float pt "LRU.initFilterNum"
    f ← checked_int (B.int_of_double x)
    g ← read_unsigned pt "basic.blockCacheSize"
    ok (record {
      size_ratio = a;
      value_size = b;
      filter_base_lg = c;
      run_mode = d;
      force_delete_level0_file = e;
      init_filter_num = f;
      block_cache_size = g;
      use_lru_cache = read_bool_or pt "basic.useLRUCache" false;
    })

  -- `setConfigPath` from the assertion on.
  unfoldable pub load_tree : B.Tree → Run Config
  unfolding read_shape read_switches read_caching read_sizes
  load_tree pt = do
    assert (not (B.is_empty pt))
    shape ← read_shape pt
    switches ← read_switches pt
    caching ← read_caching pt
    sizes ← read_sizes pt
    ok (record { shape = shape; switches = switches; caching = caching; sizes = sizes })

  -- `setConfigPath`
  unfoldable pub set_config_path : Bytes → Run Config
  unfolding load_tree
  set_config_path path = elim (B.read_ini path) [
    | none ↦ fault (std_exception (codes "boost::property_tree::ini_parser::ini_parser_error"))
    | some pt ↦ load_tree pt
  ]

  -- The singleton: `none` before `setConfigPath`, while `_pt` is empty. Each getter asserts that
  -- `_pt` is not empty and returns its field.
  unfoldable pub get_field {ℓ} : {T : Type ℓ} → Option Config → (Config → T) → Run T
  get_field none field = fault assertion
  get_field (some config) field = ok (field config)
