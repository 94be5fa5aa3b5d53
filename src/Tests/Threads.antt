-- ===== src/Tests/Threads.antt =====
-- Threads at concrete inputs: the phases of `main` and the locks of the tables.
use ycsb_lsm.Base.{
  length, All, ℕ, suc, ◌+◌, ◌≤◌, ◌≡◌, refl, Bool, true, false, List, [], ◌∷◌, ◌++◌, Option, some,
  none, Bytes, codes, same, if◌then◌else◌, Run, ok, ◌>>=◌,
}
use ycsb_lsm.Base.Int.{pos, to_u64, pred_ℤ}
use ycsb_lsm.Convert.{stoi, stol, sscanf_zu}
use ycsb_lsm.Utils.{str_to_bool}
use ycsb_lsm.Properties.{Properties, get_property, find}
use ycsb_lsm.Platform.Model.{counting}
use ycsb_lsm.Generators.Simple.{uniform_new}
use ycsb_lsm.DbFactory.{basic}
use ycsb_lsm.UnorderedMap.{lookup}
use ycsb_lsm.UnorderedMap.Model.{replace, erase}
use ycsb_lsm.Hashtable.Tbb.{ConcurrentMap}
use ycsb_lsm.Hashtable.Tbb.Equal.{
  InsertsNew, Agree, stl_table, rand_table, scan_table, tbb_tables-Agree,
}
use ycsb_lsm.Workload.Init.{
  property, read_proportions, init, get_field_len_generator, stod, read_settings, key_chooser_of,
  scan_len_chooser_of,
}
use ycsb_lsm.Hashtable.Locks.{
  remove_op, size_op, tbb_scan, Inside, IsTbbSize, Size-overlaps, alone_lem,
}
use ycsb_lsm.Driver.Reports.{no_requests}
use ycsb_lsm.Driver.Main.{Setup, Globals, run_phase, clear_statistics, runs_loop}
use ycsb_lsm.Driver.Main.Runs.{run_phase_bounds, runs_loop_lem}
use ycsb_lsm.Tests.Workloads.{value_or}
use ycsb_lsm.Tests.Databases.{ticking}

abbrev nobody : Inside
nobody = []

abbrev sizing : Inside
sizing = size_op ∷ []

alone_lem_example : All (IsTbbSize tbb_scan) (sizing ++ nobody)
alone_lem_example = alone_lem tbb_scan sizing nobody remove_op Size-overlaps refl

abbrev setup : Setup
setup = record { fuel = 5; trace = []; latency_opens = false; workload_opens = λ name. false }

abbrev fresh : Globals counting basic (no_requests basic) ticking setup
fresh = record {
  db = tt;
  ops = λ i. 0;
  durations = λ i. 0;
  thread_id = 0;
  processed_ops = 0;
  init_count = 0;
}

abbrev ordered_load : Properties
ordered_load = record {
  properties = (codes "recordcount", codes "5") ∷ (codes "insertorder", codes "ordered") ∷ [];
}

abbrev phase : Run ((ℕ × Globals counting basic (no_requests basic) ticking setup × Bool) × ℕ)
phase =
    run_phase counting basic (no_requests basic) ticking setup ordered_load 2 5 true (pos 0) fresh 3

abbrev phase_end : (ℕ × Globals counting basic (no_requests basic) ticking setup × Bool) × ℕ
phase_end = value_or phase ((99, fresh, true), 99)

phase_ends : phase ≡ ok phase_end
unfolding run_phase init get_field_len_generator get_property find stoi property same
    read_proportions stod read_settings sscanf_zu stol str_to_bool key_chooser_of uniform_new to_u64
    pred_ℤ scan_len_chooser_of
phase_ends = refl

run_phase_bounds_example : (phase_end.0.0 ≤ 5) × (phase_end.0.1.thread_id ≡ 0 + 2)
run_phase_bounds_example =
    run_phase_bounds counting basic (no_requests basic) ticking setup ordered_load 2 5 true (pos 0)
      fresh 3 {r = phase_end} phase_ends

runs_loop_lem_example :
    runs_loop counting basic
      (no_requests basic)
      ticking
      setup
      (suc (suc (suc 0)))
      0
      ordered_load
      2
      5
      (pos 0)
      fresh
      3
    ≡ (run_phase counting basic
          (no_requests basic)
          ticking
          setup
          ordered_load
          2
          5
          false
          (pos 0)
          fresh
          3
        >>= λ first.
            if first.0.2
            then (run_phase counting basic
                  (no_requests basic)
                  ticking
                  setup
                  ordered_load
                  2
                  5
                  false
                  (pos 0)
                  (clear_statistics counting basic (no_requests basic) ticking setup first.0.1)
                  first.1
                >>= λ second. ok ((first.0.0 ∷ second.0.0 ∷ [], second.0.1), second.1))
            else ok ((first.0.0 ∷ [], first.0.1), first.1))
runs_loop_lem_example =
    runs_loop_lem counting basic (no_requests basic) ticking setup 0 ordered_load 2 5 (pos 0) fresh
      3

abbrev inserted : {V : Type 0} → Option V → Bytes → V → List (Bytes × V) → Bool × List (Bytes × V)
inserted none k v m = (true, (k, v) ∷ m)
inserted (some old) k v m = (false, m)

-- A map of TBB as a list of its elements.
abbrev tbb_listing : ConcurrentMap
tbb_listing = record {
  Map = λ V. List (Bytes × V);
  empty = [];
  find = lookup;
  insert = λ k v m. inserted (lookup k m) k v m;
  assign = replace;
  erase = erase;
  elements = λ m. m;
  size = λ m. length m;
}

tbb_listing-InsertsNew : InsertsNew tbb_listing
tbb_listing-InsertsNew = record {
  insert-new = λ k v m absent. rw absent refl;
  insert-old = λ k v old m there. rw there refl;
  size-elements = λ m. refl;
}

tbb_tables-Agree_example :
    Agree (rand_table tbb_listing {V = Bytes}) (stl_table tbb_listing)
    × Agree (scan_table tbb_listing {V = Bytes}) (stl_table tbb_listing)
tbb_tables-Agree_example = tbb_tables-Agree tbb_listing tbb_listing-InsertsNew
