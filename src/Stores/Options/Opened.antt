-- ===== src/Stores/Options/Opened.antt =====
-- With which options LevelDB and LeveldbVlog open_db their stores.
use ycsb_lsm.Base.{
  ℕ, suc, ◌+◌, ◌≡◌, refl, List, ◌++◌, Option, some, Bytes, length, replicate, ok, fault, undefined,
  ◌≤◌,
}
use ycsb_lsm.Base.Int.{ℤ, pos}
use ycsb_lsm.Config.{PropertyTree, Config, set_config_path, get_field}
use ycsb_lsm.Stores.{Engine}
use ycsb_lsm.Stores.Filters.{of_array, choose_filter}
use ycsb_lsm.Stores.Filters.Bits.{NoneZero, read_bits_lem}
use ycsb_lsm.Stores.Options.{
  LevelOptions, LevelExtras, level_options, level_extras, opened, level_db_new,
}

module _ (B : PropertyTree) (E : Engine) (scan_file : Bytes → Option (List ℤ)) where
  choose_filter-array :
      (config : Config B) (numbers : List ℤ)
      → config.shape.bloom_type ≡ pos 2
      → scan_file config.switches.bloom_bits_array_filename ≡ some numbers
      → NoneZero numbers
      → ((k : ℕ)
          → length numbers + suc k ≡ 32
          → choose_filter B scan_file config
            ≡ ok (
              of_array (numbers ++ replicate (suc k) (pos 0)) config.shape.bloom_bits,
              some (length numbers + 1),
            ))
        × (32 ≤ length numbers → choose_filter B scan_file config ≡ fault undefined)
  unfolding choose_filter
  choose_filter-array config numbers type file none_zero =
      let (within, beyond) = read_bits_lem numbers none_zero in
      (
        λ k room. rw (choose_filter, type, file, within k room) refl,
        λ over. rw (choose_filter, type, file, beyond over) refl,
      )

  -- With filters of type 2 and a file of fewer than 32 numbers, none of them zero, the constructor of
  -- LevelDB opens its store with these numbers followed by zeros as the array of the filter policy, and
  -- with one more LRU queue than there are numbers.
  pub level_db_new-array :
      (open_db : LevelOptions B → LevelExtras B → Bytes → Option E.State) (dbfilename path : Bytes)
      (config : Config B) (numbers : List ℤ) (k : ℕ)
      → set_config_path B path ≡ ok config
      → config.shape.bloom_type ≡ pos 2
      → scan_file config.switches.bloom_bits_array_filename ≡ some numbers
      → NoneZero numbers
      → length numbers + suc k ≡ 32
      → level_db_new B E scan_file open_db dbfilename path
        ≡ opened B E scan_file 0 (
            open_db
              (level_options B config
                (of_array (numbers ++ replicate (suc k) (pos 0)) config.shape.bloom_bits)
                (some (length numbers + 1)))
              (level_extras B config)
              dbfilename)
  unfolding level_db_new get_field
  level_db_new-array open_db dbfilename path config numbers k read type file none_zero room =
      let (within, beyond) = choose_filter-array config numbers type file none_zero in
      rw (level_db_new, read, within k room) refl

  -- With filters of type 2 and a file of 32 numbers or more, none of them zero, the constructor reads or
  -- writes past the end of its array.
  pub level_db_new_overrun :
      (open_db : LevelOptions B → LevelExtras B → Bytes → Option E.State) (dbfilename path : Bytes)
      (config : Config B) (numbers : List ℤ)
      → set_config_path B path ≡ ok config
      → config.shape.bloom_type ≡ pos 2
      → scan_file config.switches.bloom_bits_array_filename ≡ some numbers
      → NoneZero numbers
      → 32 ≤ length numbers
      → level_db_new B E scan_file open_db dbfilename path ≡ fault undefined
  unfolding level_db_new get_field
  level_db_new_overrun open_db dbfilename path config numbers read type file none_zero over =
      let (within, beyond) = choose_filter-array config numbers type file none_zero in
      rw (level_db_new, read, beyond over) refl
