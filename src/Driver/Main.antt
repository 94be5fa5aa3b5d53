-- ===== src/Driver/Main.antt =====
-- ycsbc.cc: `main`. The threads of a phase run one after another, in the order of their numbers: one of the
-- orders in which they can run. Output and time are left out, and so is the phase under `if (warm)`,
-- which is never entered.
pub mod Program
pub mod Runs
use mathlib.Core.Option.{get_or}
use ycsb_lsm.Base.{
  ℕ, zero, suc, ◌+◌, ◌/◌, Bool, true, false, not, List, [], ◌∷◌, ◌++◌, Option, Bytes, codes, ltb,
  ◌==◌, if◌then◌else◌, Run, ok, fault, out_of_fuel, ◌>>=◌,
}
use ycsb_lsm.Base.Int.{ℤ, pos, to_u64}
use ycsb_lsm.Convert.{stoi, stol, sscanf_zu}
use ycsb_lsm.Utils.{str_to_bool}
use ycsb_lsm.Properties.{Properties, get_property, index}
use ycsb_lsm.Platform.{Platform}
use ycsb_lsm.Db.{Db}
use ycsb_lsm.Workload.{CoreWorkload}
use ycsb_lsm.Workload.Init.{init}
use ycsb_lsm.Client.{System, Shared, Counters}
use ycsb_lsm.Driver.Reports.{Requests, delegate_client}

-- What the program is given: the number of draws that a choice of a key may take, the time stamps, which
-- files can be opened, and the properties.
pub record Setup : Type 0 where
  pub fuel : ℕ
  pub trace : List Bytes
  pub latency_opens : Bool
  pub workload_opens : Bytes → Bool

module _ (P : Platform) (D : Db) (R : Requests D) (S : System P.World) (setup : Setup) where
  -- The global variables with the database: `thread_id`, `ops`, `durations`, `processed_ops` and the static counter of
  -- `Init`.
  pub record Globals : Type 0 where
    pub db : D.State
    pub ops : Counters
    pub durations : Counters
    pub thread_id : ℕ
    pub processed_ops : ℕ
    pub init_count : ℕ

  -- The threads that are left, with `thread_id`, `processed_ops` and the sum of what the threads before returned.
  unfoldable pub run_threads :
      ℕ
      → ℕ
      → Bool
      → ℤ
      → ℕ
      → ℕ
      → ℕ
      → Shared P D S
      → P.World
      → Run (((ℕ × ℕ × ℕ) × Shared P D S) × P.World)
  unfolding delegate_client
  run_threads zero num_ops is_loading read_thread_nums thread_id processed_ops sum s w =
      ok (((sum, thread_id, processed_ops), s), w)
  run_threads (suc left) num_ops is_loading read_thread_nums thread_id processed_ops sum s w = do
    (((oks, processed_ops'), s'), w') ←
        delegate_client P D R S setup.fuel thread_id setup.trace setup.latency_opens num_ops
          is_loading read_thread_nums false processed_ops s w
    run_threads left num_ops is_loading read_thread_nums (thread_id + 1) processed_ops' (sum + oks)
        s' w'

  -- A workload of its own, the threads on it and, after transactions, the request "printFP". Each thread takes its share of the operations; without
  -- threads the division is not reached.
  unfoldable pub run_phase :
      Properties → ℕ → ℕ → Bool → ℤ → Globals → P.World → Run ((ℕ × Globals × Bool) × P.World)
  unfolding run_threads init
  run_phase props num_threads total_ops is_loading read_thread_nums g w = do
    ((wl, init_count), w₁) ← init P setup.workload_opens g.init_count props w
    let start : Shared P D S = record {
      workload = wl;
      db = g.db;
      ops = g.ops;
      durations = g.durations;
    }
    (((sum, thread_id, processed_ops), s), w₂) ←
        run_threads num_threads (total_ops / num_threads) is_loading read_thread_nums g.thread_id
          g.processed_ops 0 start w₁
    db ← if is_loading then ok s.db else R.do_some_thing (codes "printFP") s.db
    let g' : Globals = record {
      db = db;
      ops = s.ops;
      durations = s.durations;
      thread_id = thread_id;
      processed_ops = processed_ops;
      init_count = init_count;
    }
    ok ((sum, g', wl.adjust_filter), w₂)

  -- The two `memset`s before the second run, and `processed_ops = 0`.
  unfoldable pub clear_statistics : Globals → Globals
  clear_statistics g = record g { ops = λ i. 0; durations = λ i. 0; processed_ops = 0 }

  -- The loop over `runs`, on fuel, with the sums of the runs.
  unfoldable pub runs_loop :
      ℕ → ℕ → Properties → ℕ → ℕ → ℤ → Globals → P.World → Run ((List ℕ × Globals) × P.World)
  unfolding run_phase clear_statistics
  runs_loop zero runs props num_threads total_ops read_thread_nums g w = fault out_of_fuel
  runs_loop (suc rounds) runs props num_threads total_ops read_thread_nums g w = elim (ltb runs 2) [
    | false ↦ ok (([], g), w)
    | true ↦ do
      let start = if runs == 0 then g else clear_statistics g
      ((sum, g', adjust_filter), w') ←
          run_phase props num_threads total_ops false read_thread_nums start w
      let runs' = if adjust_filter then runs else runs + 1
      ((sums, g''), w'') ←
          runs_loop rounds (runs' + 1) props num_threads total_ops read_thread_nums g' w'
      ok ((sum ∷ sums, g''), w'')
  ]

  -- The loading phase, unless it is skipped.
  unfoldable pub load_phase :
      Bool → Properties → ℕ → ℕ → Globals → P.World → Run ((ℕ × Globals) × P.World)
  unfolding run_phase
  load_phase skip_load props num_threads total_ops g w = if skip_load then ok ((0, g), w) else (do
    ((sum, g', _), w') ← run_phase props num_threads total_ops true (pos 0) g w
    ok ((sum, g'), w'))

  -- `main` after the database is made: the records that were loaded and the sums of the runs.
  unfoldable pub main_run : Properties → D.State → P.World → Run ((ℕ × List ℕ) × P.World)
  unfolding load_phase runs_loop get_property index stoi stol sscanf_zu str_to_bool
  main_run props db w = do
    threads ← stoi (get_property props (codes "threadcount") (codes "1"))
    let num_threads = to_u64 threads
    skip_load ← str_to_bool (get_property props (codes "skipLoad") (codes "false"))
    let (record_count, props₁) = index props (codes "recordcount")
    let to_load = get_or (sscanf_zu record_count) 0
    db₀ ← R.do_some_thing (codes "printStats") db
    let g₀ : Globals = record {
      db = db₀;
      ops = λ i. 0;
      durations = λ i. 0;
      thread_id = 0;
      processed_ops = 0;
      init_count = 0;
    }
    ((loaded, g₁), w₁) ← load_phase skip_load props₁ num_threads to_load g₀ w
    let (operation_count, props₂) = index props₁ (codes "operationcount")
    total ← stol operation_count
    db₁ ← R.open_statistics g₁.db
    read_thread_nums ← stoi (get_property props₂ (codes "readTheadNums") (codes "0"))
    ((sums, g₂), w₂) ←
        runs_loop 3 0 props₂ num_threads (to_u64 total) read_thread_nums
          (record g₁ { db = db₁; thread_id = 0 }) w₁
    ok ((loaded, sums), w₂)
