-- ===== src/Driver/Reports.antt =====
-- ycsbc.cc: the loop of `DelegateClient` with the requests that it makes of the database while it counts, through
-- the methods of core/db.h that do nothing unless a database overrides them.
pub mod Silent
use ycsb_lsm.Base.{
  ℕ, zero, suc, ◌+◌, ◌%◌, ◌^◌, Bool, true, false, not, ◌&&◌, List, [], ◌∷◌, Bytes, codes, ◌==◌,
  if◌then◌else◌, Run, ok, ◌>>=◌,
}
use ycsb_lsm.Base.Int.{ℤ}
use ycsb_lsm.Platform.{Platform}
use ycsb_lsm.Db.{Db}
use ycsb_lsm.Client.{System, Client, Shared, client_new, do_insert, do_transaction}
use ycsb_lsm.Driver.{thread_type, is_skipped, bit_of}

-- `doSomeThing` and `openStatistics`
pub record Requests (D : Db) : Type 0 where
  pub do_some_thing : Bytes → D.State → Run D.State
  pub open_statistics : D.State → Run D.State

-- The methods that core/db.h gives.
abbrev pub no_requests : (D : Db) → Requests D
no_requests D = record { do_some_thing = λ thing db. ok db; open_statistics = λ db. ok db }

-- The requests at the end of a stage.
abbrev pub stage_requests : Bool → List Bytes
stage_requests true = codes "printFP" ∷ codes "printAccessFreq" ∷ []
stage_requests false = codes "printStats" ∷ codes "printFP" ∷ codes "printAccessFreq" ∷ []

module _ {D : Db} (R : Requests D) where
  unfoldable pub request_all : List Bytes → D.State → Run D.State
  request_all [] db = ok db
  request_all (thing ∷ things) db = do db' ← R.do_some_thing thing db; request_all things db'

  -- The end of round `i` with `processed_ops`, which counts in tens of thousands; each half million ends a stage.
  unfoldable pub end_round : Bool → ℕ → ℕ → D.State → Run (ℕ × D.State)
  unfolding request_all
  end_round is_loading i processed_ops db =
      let cur_processed_ops = (processed_ops + 10000) % 2 ^ 64 in
      if not (i == 0) && i % 10000 == 0
      then (if cur_processed_ops % 500000 == 0
          then (do db' ← request_all (stage_requests is_loading) db; ok (cur_processed_ops, db'))
          else ok (cur_processed_ops, db))
      else ok (processed_ops, db)

module _ (P : Platform) (D : Db) (R : Requests D) (S : System P.World) where
  -- What a loop ends in: the inserts or transactions that counted, and `processed_ops`.
  abbrev pub Ended : Type 0
  Ended = ((ℕ × ℕ) × Shared P D S) × P.World

  -- The loop when it loads; a round that is skipped goes on to the next at once.
  unfoldable pub load_rounds : ℤ → ℕ → ℕ → ℕ → ℕ → Shared P D S → P.World → Run Ended
  unfolding is_skipped do_insert end_round
  load_rounds skipratio zero i oks processed_ops s w = ok (((oks, processed_ops), s), w)
  load_rounds skipratio (suc left) i oks processed_ops s w = elim (is_skipped skipratio i) [
    | true ↦ do
      ((_, s'), w') ← do_insert P D S false s w
      load_rounds skipratio left (i + 1) oks processed_ops s' w'
    | false ↦ do
      ((inserted, s'), w') ← do_insert P D S true s w
      (processed_ops', db) ← end_round R true i processed_ops s'.db
      load_rounds skipratio left (i + 1) (oks + bit_of inserted) processed_ops'
          (record s' { db = db }) w'
  ]

  -- The loop when it runs transactions.
  unfoldable pub run_rounds :
      ℕ → ℤ → ℕ → ℕ → ℕ → ℕ → Client P D S → Shared P D S → P.World → Run Ended
  unfolding is_skipped do_transaction end_round
  run_rounds fuel skipratio zero i oks processed_ops c s w = ok (((oks, processed_ops), s), w)
  run_rounds fuel skipratio (suc left) i oks processed_ops c s w = elim (is_skipped skipratio i) [
    | true ↦ do
      (((done, c'), s'), w') ← do_transaction P D S fuel false c s w
      run_rounds fuel skipratio left (i + 1) (oks + bit_of done) processed_ops c' s' w'
    | false ↦ do
      (((done, c'), s'), w') ← do_transaction P D S fuel true c s w
      (processed_ops', db) ← end_round R false i processed_ops s'.db
      run_rounds fuel skipratio left (i + 1) (oks + bit_of done) processed_ops' c'
          (record s' { db = db }) w'
  ]

  -- `DelegateClient` of the thread that is given the number `t_id`, with its requests.
  unfoldable pub delegate_client :
      ℕ → ℕ → List Bytes → Bool → ℕ → Bool → ℤ → Bool → ℕ → Shared P D S → P.World → Run Ended
  unfolding load_rounds run_rounds thread_type client_new request_all
  delegate_client fuel t_id trace opens num_ops is_loading read_thread_nums warm processed_ops s w =
      let wl = s.workload in
      let c = client_new P D S trace opens wl t_id (thread_type t_id read_thread_nums warm) in
      if is_loading then load_rounds wl.skipratio_inload num_ops 0 0 processed_ops s w else (do
        ((counts, s'), w') ← run_rounds fuel wl.skipratio_forrun num_ops 0 0 processed_ops c s w
        db ← request_all R (codes "printStats" ∷ codes "printAccessFreq" ∷ []) s'.db
        ok ((counts, record s' { db = db }), w'))
