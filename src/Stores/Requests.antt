-- ===== src/Stores/Requests.antt =====
-- `doSomeThing` of the three databases: the requests by the start of their names.
use ycsb_lsm.Base.{
  ℕ, ◌+◌, ◌≡◌, refl, Bool, true, false, List, [], ◌∷◌, Bytes, codes, ◌==◌, if◌then◌else◌, Run, ok,
  fault, undefined, ◌>>=◌, Returns, ◌≤◌, ◌<◌, length, ◌*◌,
}
use ycsb_lsm.Stores.{Engine, Store}
use ycsb_lsm.Stores.Levels.{
  Output, print_filter_count, level_db_print_access_freq, leveldb_vlog_print_access_freq,
  leveldb_vlog_print_filter_count,
}
use ycsb_lsm.Stores.Reports.{StopsAt, print_access_freq_ends, print_access_freq_overrun}

-- `strncmp(thing_str, name, strlen(name)) == 0`
unfoldable pub starts_with : Bytes → Bytes → Bool
starts_with [] thing = true
starts_with (c ∷ name) [] = false
starts_with (c ∷ name) (d ∷ thing) = if c == d then starts_with name thing else false

-- What a request leaves behind: the files with the texts written to them, the texts printed, the store and
-- the static counter of `printFilterCount`.
pub record Outcome (E : Engine) : Type 0 where
  pub files : List Output
  pub shown : List Bytes
  pub store : Store E
  pub call_count : ℕ

module _ (E : Engine) where
  -- `stat_str` after `GetProperty` into an empty string
  unfoldable pub property_text : E.State → Bytes → Bytes
  property_text db name = (E.get_property db name []).1

  -- The four files of `printFP`.
  unfoldable pub print_fp : E.State → List Output
  unfolding property_text
  print_fp db =
      (codes "fp_access_file.txt", property_text db (codes "leveldb.fp-stat-access_file"))
      ∷ (codes "fp_calc_fpr.txt", property_text db (codes "leveldb.fp-stat-calc_fpr"))
      ∷ (codes "fp_real_fpr.txt", property_text db (codes "leveldb.fp-stat-real_fpr"))
      ∷ (codes "fp_real_io.txt", property_text db (codes "leveldb.fp-stat-real_io"))
      ∷ []

  -- `doSomeThing` of LevelDB and of LeveldbVlog, given their reports
  unfoldable pub do_some_thing :
      Run (List Output) → Run (List Output × ℕ) → Store E → ℕ → Bytes → Run (Outcome E)
  unfolding starts_with print_fp property_text
  do_some_thing access_freq filter_count s call_count thing =
      let idle : Outcome E = record {
        files = [];
        shown = [];
        store = s;
        call_count = call_count;
      } in
      if starts_with (codes "adjust_filter") thing
      then ok
          (record idle { store = record s { db = E.do_some_thing s.db (codes "adjust_filter") } })
      else if starts_with (codes "printFilterCount") thing
      then (do
        (files, counted) ← filter_count
        ok (record idle { files = files; call_count = counted }))
      else if starts_with (codes "printStats") thing
      then ok (record idle { shown = property_text s.db (codes "leveldb.stats") ∷ [] })
      else if starts_with (codes "printAccessFreq") thing
      then (do files ← access_freq; ok (record idle { files = files }))
      else if starts_with (codes "printFP") thing
      then ok (record idle { files = print_fp s.db })
      else ok idle

  -- `LevelDB::doSomeThing`
  unfoldable pub level_db_do_some_thing : ℕ → Store E → ℕ → Bytes → Run (Outcome E)
  unfolding do_some_thing level_db_print_access_freq print_filter_count
  level_db_do_some_thing fuel s call_count thing =
      do_some_thing (level_db_print_access_freq E s.db fuel)
        (print_filter_count E s.db fuel call_count) s call_count thing

  -- `LeveldbVlog::doSomeThing`
  unfoldable pub leveldb_vlog_do_some_thing : ℕ → Store E → ℕ → Bytes → Run (Outcome E)
  unfolding do_some_thing leveldb_vlog_print_access_freq leveldb_vlog_print_filter_count
  leveldb_vlog_do_some_thing fuel s call_count thing =
      do_some_thing (leveldb_vlog_print_access_freq E s.db fuel)
        (leveldb_vlog_print_filter_count E s.db fuel call_count) s call_count thing

  -- `doSomeThing` of RocksDB
  unfoldable pub do_some_thing_rocks : Store E → Bytes → List Bytes
  unfolding starts_with property_text
  do_some_thing_rocks s thing =
      if starts_with (codes "printStats") thing
      then property_text s.db (codes "rocksdb.stats") ∷ []
      else []

  -- `openStatistics` of LevelDB and LeveldbVlog, but for the lines of dashes
  unfoldable pub open_statistics : Store E → List Bytes
  unfolding property_text
  open_statistics s = property_text s.db (codes "leveldb.stats") ∷ []

-- `DelegateClient` asks LevelDB for "printAccessFreq" after each run. If the levels 3 to 6 are in use, this opens
-- a file past the end of the array `fd`.
pub level_db_do_some_thing_overrun :
    (E : Engine) (s : Store E) (n fuel call_count : ℕ)
    → StopsAt E s.db 2 n
    → n < fuel
    → 6 < n
    → level_db_do_some_thing E fuel s call_count (codes "printAccessFreq") ≡ fault undefined
unfolding level_db_do_some_thing do_some_thing starts_with level_db_print_access_freq
level_db_do_some_thing_overrun E s n fuel call_count stops enough over =
    rw (print_access_freq_overrun E s.db 2 n fuel stops enough over) refl

-- If level 3, or another up to level 6, is the first above level 2 that is not in use, the same request ends normally with enough fuel,
-- leaves the store and the counter as they are, shows nothing, and writes two files for each level up to and
-- with that one.
pub level_db_do_some_thing_ends :
    (E : Engine) (s : Store E) (n fuel call_count : ℕ)
    → StopsAt E s.db 2 n
    → n < fuel
    → n ≤ 6
    → Returns (level_db_do_some_thing E fuel s call_count (codes "printAccessFreq")) (λ r.
      (length r.files ≡ 2 * (n + 1)) × (r.shown ≡ []) × (r.store ≡ s) × (r.call_count ≡ call_count))
unfolding level_db_do_some_thing do_some_thing starts_with level_db_print_access_freq
level_db_do_some_thing_ends E s n fuel call_count stops enough room =
    let (files, written, count) = print_access_freq_ends E s.db 2 n fuel stops enough room in
    (
      record { files = files; shown = []; store = s; call_count = call_count },
      rw written refl,
      (count, refl, refl, refl),
    )
