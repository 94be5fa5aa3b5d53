-- ===== src/Tests/Reports.antt =====
-- The requests of the client threads, and the command line, at concrete inputs.
use ycsb_lsm.Base.{
  ◌+◌, ◌≡◌, refl, false, [], ◌∷◌, none, codes, same, ltb, if◌then◌else◌, ok, fault, undefined, exit,
  ◌>>=◌, arith,
}
use ycsb_lsm.Base.Int.{pos}
use ycsb_lsm.Platform.Model.{counting}
use ycsb_lsm.Properties.{index, set_property}
use ycsb_lsm.UnorderedMap.{lookup}
use ycsb_lsm.DbFactory.{basic}
use ycsb_lsm.Stores.{level_db, read_record}
use ycsb_lsm.Stores.Model.{ordered}
use ycsb_lsm.Client.{Shared, client_new}
use ycsb_lsm.Driver.{thread_type, load_loop}
use ycsb_lsm.Driver.Options.{Setting, arguments}
use ycsb_lsm.Driver.Reports.{no_requests, Ended, load_rounds, run_rounds, delegate_client}
use ycsb_lsm.Driver.Reports.Silent.{stages, load_rounds-early}
use ycsb_lsm.Driver.StoreReports.{level_requests, delegate_client_reports}
use ycsb_lsm.Driver.Main.Program.{run_program, run_program_unknown}
use ycsb_lsm.Tests.Workloads.{ten_records, value_or}
use ycsb_lsm.Tests.Databases.{ticking}
use ycsb_lsm.Tests.Stores.{all_levels, all_levels-StopsAt, full_store}

abbrev basic_shared : Shared counting basic ticking
basic_shared = record { workload = ten_records; db = tt; ops = λ i. 0; durations = λ i. 0 }

load_rounds-early_example :
    load_rounds counting basic (no_requests basic) ticking (pos 0) 3 0 0 0 basic_shared 3 ≡ (do
      ((oks, s), w) ← load_loop counting basic ticking (pos 0) 3 0 0 basic_shared 3
      ok (((oks, stages (0 + 3)), s), w))
load_rounds-early_example =
    load_rounds-early counting basic (no_requests basic) ticking 3 0 0 basic_shared 3 (omega arith)

abbrev full_shared : Shared counting (level_db (ordered all_levels)) ticking
full_shared = record { workload = ten_records; db = full_store; ops = λ i. 0; durations = λ i. 0 }

abbrev full_ended :
    Ended counting (level_db (ordered all_levels)) (level_requests (ordered all_levels) 8) ticking
full_ended =
    value_or
      (run_rounds counting (level_db (ordered all_levels)) (level_requests (ordered all_levels) 8)
        ticking 5 ten_records.skipratio_forrun 1 0 0 0
        (client_new counting (level_db (ordered all_levels)) ticking [] false ten_records 0
          (thread_type 0 (pos 1) false))
        full_shared 3)
      (((99, 99), full_shared), 99)

delegate_client_reports_example :
    delegate_client counting
      (level_db (ordered all_levels))
      (level_requests (ordered all_levels) 8)
      ticking
      5
      0
      []
      false
      1
      false
      (pos 1)
      false
      0
      full_shared
      3
    ≡ (if ltb 6 7 then fault undefined else ok full_ended)
unfolding run_rounds same lookup client_new thread_type read_record
delegate_client_reports_example =
    delegate_client_reports (ordered all_levels) 8 counting ticking 7 5 0 1 0 [] false (pos 1) false
      full_shared 3 full_ended refl all_levels-StopsAt (omega arith)

unknown_name : Setting
unknown_name = record {
  option = codes "-db";
  key = codes "dbname";
  value = codes "mysql";
  known = unfold lookup same in refl;
}

run_program_unknown_example :
    run_program counting ticking
      (record { fuel = 5; trace = []; latency_opens = false; workload_opens = λ name. false })
      (λ class. record { db = basic; requests = no_requests basic; construct = ok tt })
      (λ name. none)
      (arguments (unknown_name ∷ []))
      3
    ≡ fault (exit 0)
unfolding same unknown_name index set_property
run_program_unknown_example =
    run_program_unknown counting ticking
      (record { fuel = 5; trace = []; latency_opens = false; workload_opens = λ name. false })
      (λ class. record { db = basic; requests = no_requests basic; construct = ok tt })
      (λ name. none) unknown_name [] 3 refl
