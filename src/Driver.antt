-- ===== src/Driver.antt =====
-- ycsbc.cc: the command line and the loop of a client thread. Output and time are left out; the calls of
-- `doSomeThing` between the rounds are in Reports.
pub mod Options
pub mod Loops
pub mod Loads
pub mod StoreLoads
pub mod Threads
pub mod Reports
pub mod StoreReports
pub mod Main
use ycsb_lsm.Base.{
  ℕ, zero, suc, ◌+◌, ◌%◌, ◌^◌, Bool, true, false, not, ◌&&◌, List, [], ◌∷◌, Option, none, some,
  Bytes, codes, same, ◌==◌, if◌then◌else◌, Run, ok, fault, exit, ◌>>=◌,
}
use ycsb_lsm.Base.Int.{ℤ, pos, ltb_ℤ, is_zero, to_u64}
use ycsb_lsm.Properties.{Properties, set_property, load}
use ycsb_lsm.Platform.{Platform}
use ycsb_lsm.UnorderedMap.{lookup}
use ycsb_lsm.Db.{Db}
use ycsb_lsm.Workload.{CoreWorkload}
use ycsb_lsm.Client.{System, Client, Shared, do_insert, do_transaction}

-- The options that set a property, with the property.
abbrev pub options : List (Bytes × Bytes)
options =
    (codes "-threads", codes "threadcount")
    ∷ (codes "-db", codes "dbname")
    ∷ (codes "-host", codes "host")
    ∷ (codes "-port", codes "port")
    ∷ (codes "-slaves", codes "slaves")
    ∷ (codes "-dbfilename", codes "dbfilename")
    ∷ (codes "-configpath", codes "configpath")
    ∷ (codes "-skipLoad", codes "skipLoad")
    ∷ (codes "-requestdistribution", codes "requestdistribution")
    ∷ (codes "-zipfianconst", codes "zipfianconst")
    ∷ (codes "-readTheadNums", codes "readTheadNums")
    ∷ []

-- `StrStartWith(argv[argindex], "-")`
unfoldable pub starts_with_dash : Bytes → Bool
starts_with_dash [] = false
starts_with_dash (c ∷ s) = c == b'-'

-- One option with its value. `catch (const string &)` does not catch what `Load` throws.
unfoldable pub take_option :
    (Bytes → Option Bytes) → Bytes → Bytes → Bytes × Properties → Run (Bytes × Properties)
unfolding lookup
take_option files option value (filename, props) =
    if same option (codes "-P")
    then (do (_, props') ← load props (files value); ok (value, props'))
    else elim (lookup option options) [
      | none ↦ fault (exit 0)
      | some key ↦ ok (filename, set_property props key value)
    ]

-- The loop of `ParseCommandLine` over the arguments that are left; it returns those where it stops.
unfoldable pub take_options :
    (Bytes → Option Bytes)
    → List Bytes
    → Bytes × Properties
    → Run ((Bytes × Properties) × List Bytes)
unfolding starts_with_dash take_option
take_options files [] state = ok (state, [])
take_options files (a ∷ []) state =
    if starts_with_dash a then fault (exit 0) else ok (state, a ∷ [])
take_options files (a ∷ value ∷ rest) state =
    if starts_with_dash a
    then (do state' ← take_option files a value state; take_options files rest state')
    else ok (state, a ∷ value ∷ rest)

-- `ParseCommandLine` on the arguments after the name of the program; `files` is what the files hold
-- that can be opened.
unfoldable pub parse_command_line :
    (Bytes → Option Bytes) → List Bytes → Properties → Run (Bytes × Properties)
unfolding take_options
parse_command_line files [] props = fault (exit 0)
parse_command_line files (a ∷ args) props = do
  (state, rest) ← take_options files (a ∷ args) ([], props)
  elim rest [ [] ↦ ok state | b ∷ others ↦ fault (exit 0) ]

-- The type of a thread: 0 runs the mix of the workload, 1 reads and 2 inserts.
unfoldable pub thread_type : ℕ → ℤ → Bool → ℕ
thread_type t_id read_thread_nums warm =
    let base =
      if is_zero read_thread_nums then 0 else if ltb_ℤ (pos t_id) read_thread_nums then 1 else 2 in
    if warm then 1 else base

-- `skipratio && i % skipratio != 0`
unfoldable pub is_skipped : ℤ → ℕ → Bool
is_skipped skipratio i = not (is_zero skipratio) && not (i % to_u64 skipratio == 0)

abbrev pub bit_of : Bool → ℕ
bit_of true = 1
bit_of false = 0

module _ (P : Platform) (D : Db) (S : System P.World) where
  -- The loop of `DelegateClient` when it loads, from round `i` on, with the rounds that are left.
  unfoldable pub load_loop :
      ℤ → ℕ → ℕ → ℕ → Shared P D S → P.World → Run ((ℕ × Shared P D S) × P.World)
  unfolding is_skipped do_insert
  load_loop skipratio zero i oks s w = ok ((oks, s), w)
  load_loop skipratio (suc left) i oks s w = do
    ((inserted, s'), w') ← do_insert P D S (not (is_skipped skipratio i)) s w
    let oks' = if is_skipped skipratio i then oks else oks + bit_of inserted
    load_loop skipratio left (i + 1) oks' s' w'

  -- The loop of `DelegateClient` when it runs transactions.
  unfoldable pub run_loop :
      ℕ → ℤ → ℕ → ℕ → ℕ → Client P D S → Shared P D S → P.World → Run ((ℕ × Shared P D S) × P.World)
  unfolding is_skipped do_transaction
  run_loop fuel skipratio zero i oks c s w = ok ((oks, s), w)
  run_loop fuel skipratio (suc left) i oks c s w = do
    (((done, c'), s'), w') ← do_transaction P D S fuel (not (is_skipped skipratio i)) c s w
    run_loop fuel skipratio left (i + 1) (oks + bit_of done) c' s' w'
