-- ===== src/Tests/Interleavings.antt =====
-- The interleaved threads that load, at concrete inputs.
use ycsb_lsm.Base.{
  same, ◌+◌, ◌*◌, ◌≡◌, refl, List, [], ◌∷◌, codes, ok, Run, fault, arith, replicate,
}
use ycsb_lsm.Base.Int.{pos}
use ycsb_lsm.Platform.Model.{counting, counting-IsStandard}
use ycsb_lsm.UnorderedMap.Model.{listing, listing-IsContainer}
use ycsb_lsm.UnorderedMap.{lookup}
use ycsb_lsm.Base.Decimal.{format_020lu}
use ycsb_lsm.HashtableDb.{hashtable_db, insert_record}
use ycsb_lsm.Workload.{rounds, build_key_name}
use ycsb_lsm.Driver.Threads.{Thread, starting, finished, Memory, Phase, interleave}
use ycsb_lsm.Driver.Threads.Loads.{CanStart, Inevitably, IsLoaded, load_threads_inevitable}
use ycsb_lsm.Tests.Workloads.{ten_records}
use ycsb_lsm.Tests.Runs.{other_record, records_absent, ten_records-IsLoadable}

abbrev two_threads : Memory counting (hashtable_db listing)
two_threads = record { thread_id = 0; workload = ten_records; db = other_record; world = 3 }

two_threads-CanStart : CanStart listing counting counting-IsStandard 8 8 2 1 two_threads
unfolding rounds
two_threads-CanStart = record {
  ordered = refl;
  text = ten_records-IsLoadable.table;
  room = omega arith;
  lengths = (omega arith, omega arith);
  few = omega arith;
  absent = records_absent;
}

load_threads_inevitable_example :
    Inevitably listing counting 1
      (2 * (3 * 1 + 2))
      (IsLoaded listing counting 1 (codes "usertable") 0 (2 * 1) other_record)
      (record { threads = replicate 2 starting; memory = two_threads })
load_threads_inevitable_example =
    load_threads_inevitable listing listing-IsContainer counting counting-IsStandard 8 8 2 1
      two_threads two_threads-CanStart

-- The inserts of what comes to an end with two threads that have returned.
abbrev counts : Run (Phase counting (hashtable_db listing) (pos 0) 1) → List Thread
counts (fault why) = []
counts (ok s) = s.threads

-- The second thread overtakes the first between its key and its insert.
overtaken :
    counts (
      interleave counting
        (hashtable_db listing)
        (pos 0)
        1
        (0 ∷ 0 ∷ 1 ∷ 1 ∷ 1 ∷ 1 ∷ 1 ∷ 0 ∷ 0 ∷ 0 ∷ [])
        (record { threads = starting ∷ starting ∷ []; memory = two_threads }))
    ≡ finished 1 ∷ finished 1 ∷ []
unfolding interleave insert_record lookup same build_key_name format_020lu
overtaken = refl
