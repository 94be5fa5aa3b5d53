-- ===== src/Stores/Levels.antt =====
-- The reports on the levels of a store: `printAccessFreq` and `printFilterCount` of LevelDB and of
-- LeveldbVlog. What is written is a list of files, each with its name and the text that `write` is given;
-- a file that cannot be opened or written only has a message.
use ycsb_lsm.Base.{
  ℕ, suc, zero, ◌+◌, Bool, true, false, not, List, [], ◌∷◌, ◌++◌, Bytes, codes, leb, ltb,
  if◌then◌else◌, Run, ok, fault, undefined, out_of_fuel, ◌>>=◌,
}
use ycsb_lsm.Base.Int.{is_zero}
use ycsb_lsm.Base.Decimal.{to_string}
use ycsb_lsm.Convert.{stoi}
use ycsb_lsm.Stores.{Engine}

-- A file and the text written to it.
abbrev pub Output : Type 0
Output = Bytes × Bytes

-- `int fd[7]`
abbrev pub fd_size : ℕ
fd_size = 7

-- `snprintf(buf, sizeof(buf), "leveldb.num-files-at-level%d", levels)`
unfoldable pub num_files_name : ℕ → Bytes
unfolding to_string
num_files_name levels = codes "leveldb.num-files-at-level" ++ to_string levels

-- The names of the files of a level and of the properties that they hold.
unfoldable pub access_frequencies_file : ℕ → Bytes
unfolding to_string
access_frequencies_file i = codes "level" ++ to_string i ++ codes "_access_frequencies.txt"

unfoldable pub access_frequencies_property : ℕ → Bytes
unfolding to_string
access_frequencies_property i = codes "leveldb.files-access-frequencies" ++ to_string i

unfoldable pub extra_infos_file : ℕ → Bytes
unfolding to_string
extra_infos_file i = codes "level" ++ to_string i ++ codes "_extra_infos.txt"

unfoldable pub extra_infos_property : ℕ → Bytes
unfolding to_string
extra_infos_property i = codes "leveldb.files-extra-infos" ++ to_string i

unfoldable pub filter_count_file : ℕ → ℕ → Bytes
unfolding to_string
filter_count_file i call_count =
    codes "level" ++ to_string i ++ codes "_filter_count_" ++ to_string call_count ++ codes ".txt"

unfoldable pub filter_size_property : ℕ → Bytes
unfolding to_string
filter_size_property i = codes "leveldb.file_filter_size" ++ to_string i

module _ (E : Engine) (db : E.State) where
  -- The condition of the loops after the `||`, with the string that it leaves.
  unfoldable pub level_in_use : ℕ → Bytes → Run (Bool × Bytes)
  level_in_use levels num_files_str =
      let (known, text) = E.get_property db (num_files_name levels) num_files_str in
      if known then (do files ← stoi text; ok (not (is_zero files), text)) else ok (false, text)

  -- The loop that counts the levels: those up to `always` are counted in any case.
  unfoldable pub count_levels : ℕ → ℕ → ℕ → Bytes → Run ℕ
  unfolding level_in_use
  count_levels zero always levels num_files_str = fault out_of_fuel
  count_levels (suc fuel) always levels num_files_str = elim (leb levels always) [
    | true ↦ count_levels fuel always (levels + 1) num_files_str
    | false ↦ do
      (more, text) ← level_in_use levels num_files_str
      elim more [ true ↦ count_levels fuel always (levels + 1) text | false ↦ ok levels ]
  ]

  -- `fd[i] = open(name)`, `GetProperty`, `write` and `close`; the string keeps what it holds if the
  -- property is unknown
  unfoldable pub write_property : ℕ → Bytes → Bytes → Bytes → Run (Output × Bytes)
  write_property i file property held =
      if ltb i fd_size
      then (let text = (E.get_property db property held).1 in ok ((file, text), text))
      else fault undefined

  -- The second loop of `printAccessFreq`, for a number of levels from `i` on.
  unfoldable pub write_levels : ℕ → ℕ → Bytes → Run (List Output)
  unfolding write_property
  write_levels zero i acc_str = ok []
  write_levels (suc n) i acc_str = do
    (frequencies, text) ←
        write_property i (access_frequencies_file i) (access_frequencies_property i) acc_str
    (infos, text') ← write_property i (extra_infos_file i) (extra_infos_property i) text
    rest ← write_levels n (i + 1) text'
    ok (frequencies ∷ infos ∷ rest)

  -- `printAccessFreq`; LevelDB counts the levels 0, 1 and 2 in any case, LeveldbVlog the level 0. The loop
  -- runs up to and with `levels`.
  unfoldable pub print_access_freq : ℕ → ℕ → Run (List Output)
  unfolding count_levels write_levels
  print_access_freq fuel always = do
    levels ← count_levels fuel always 0 []
    write_levels (levels + 1) 0 []

  -- The second loop of `printFilterCount`.
  unfoldable pub write_filter_counts : ℕ → ℕ → ℕ → Bytes → Run (List Output)
  unfolding write_property
  write_filter_counts call_count zero i filter_str = ok []
  write_filter_counts call_count (suc n) i filter_str = do
    (written, text) ←
        write_property i (filter_count_file i call_count) (filter_size_property i) filter_str
    rest ← write_filter_counts call_count n (i + 1) text
    ok (written ∷ rest)

  -- `printFilterCount`, with the static `call_count`
  unfoldable pub print_filter_count : ℕ → ℕ → Run (List Output × ℕ)
  unfolding count_levels write_filter_counts
  print_filter_count fuel call_count = do
    levels ← count_levels fuel 0 0 []
    files ← write_filter_counts call_count levels 0 []
    ok (files, call_count + 1)

  -- `LevelDB::printAccessFreq`
  unfoldable pub level_db_print_access_freq : ℕ → Run (List Output)
  unfolding print_access_freq
  level_db_print_access_freq fuel = print_access_freq fuel 2

  -- `LeveldbVlog::printAccessFreq`
  unfoldable pub leveldb_vlog_print_access_freq : ℕ → Run (List Output)
  unfolding print_access_freq
  leveldb_vlog_print_access_freq fuel = print_access_freq fuel 0

  -- `LeveldbVlog::printFilterCount`
  unfoldable pub leveldb_vlog_print_filter_count : ℕ → ℕ → Run (List Output × ℕ)
  unfolding print_filter_count
  leveldb_vlog_print_filter_count fuel call_count = print_filter_count fuel call_count
