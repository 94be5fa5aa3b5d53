-- ===== src/Tests/Workloads.antt =====
-- Workloads at concrete inputs.
use ycsb_lsm.Base.{
  ℕ, ◌≡◌, ◌≢◌, refl, true, false, [], ◌∷◌, some, codes, Run, ok, fault, Returns, get_elem?, arith,
  ◌<◌, ◌+◌, same, ◌⊎◌,
}
use ycsb_lsm.Base.Int.{pos, to_u64, pred_ℤ}
use ycsb_lsm.Convert.{stoi, stol, sscanf_zu}
use ycsb_lsm.Utils.{str_to_bool}
use ycsb_lsm.Platform.Model.{counting, counting-IsStandard}
use ycsb_lsm.Properties.{Properties, get_property, find}
use ycsb_lsm.Generators.Simple.{counter_next, uniform_new}
use ycsb_lsm.Generators.Any.{Generator, constant, uniform}
use ycsb_lsm.Workload.{
  read, build_key_name, rounds, CoreWorkload, next_sequence_key, next_transaction_key,
  next_operation, build_values,
}
use ycsb_lsm.Workload.Keys.{sequence_keys, sequence_keys_distinct}
use ycsb_lsm.Workload.Transactions.{
  IsConfined, next_transaction_key_hits, next_transaction_key_misses,
}
use ycsb_lsm.Workload.Values.{Built, build_values-Built}
use ycsb_lsm.Workload.Init.{
  Proportions, property, read_proportions, init, get_field_len_generator, stod, read_settings,
  key_chooser_of, scan_len_chooser_of,
}
use ycsb_lsm.Workload.Init.Rejects.{init_distributions}
use ycsb_lsm.Workload.Init.Accepts.{is_wanted, init-IsConfined, init-next_operation}

abbrev pub ten_records : CoreWorkload counting
ten_records = record {
  table_name = codes "usertable";
  field_count = pos 3;
  read_all_fields = true;
  write_all_fields = false;
  field_len_generator = constant (record { constant = 8 });
  key_generator = record { counter = 0 };
  op_chooser = record { values = (read, 1_000_000) ∷ []; sum = 1_000_000; last = some read };
  key_chooser = uniform (record { last_int = 0; generator = 1; min = 0; max = 9 });
  field_chooser = record { last_int = 0; generator = 1; min = 0; max = 2 };
  scan_len_chooser = uniform (record { last_int = 0; generator = 1; min = 1; max = 100 });
  insert_key_sequence = record { counter = 10 };
  ordered_inserts = true;
  record_count = 10;
  read_key_start = 0;
  with_timestamp = false;
  with_operation = false;
  with_latency_filename = false;
  timestamp_trace_open = false;
  latency_open = false;
  skipratio_inload = pos 0;
  skipratio_forrun = pos 0;
  adjust_filter = false;
  zerolookuprate = pos 0;
}

abbrev zero_lookups : CoreWorkload counting
zero_lookups = record ten_records { zerolookuprate = pos 100 }

sequence_keys_distinct_example :
    get_elem? (sequence_keys counting 2 ten_records).0 1 ≢ some (build_key_name true 0)
sequence_keys_distinct_example =
    sequence_keys_distinct counting 2 0 1 (build_key_name true 0) ten_records (omega arith)
      (omega arith) refl (omega arith) (omega arith)
      (unfold sequence_keys next_sequence_key counter_next in refl)

ten_records-IsConfined : IsConfined counting ten_records
ten_records-IsConfined = record {
  some_records = omega arith;
  last_key = refl;
  chooser = (omega arith, omega arith, omega arith);
  fits = omega arith;
}

zero_lookups-IsConfined : IsConfined counting zero_lookups
zero_lookups-IsConfined = record {
  some_records = omega arith;
  last_key = refl;
  chooser = (omega arith, omega arith, omega arith);
  fits = omega arith;
}

next_transaction_key_hits_example : Returns (next_transaction_key counting 1 ten_records 3) λ r.
    ((i : ℕ) × (i < 10) × (r.0.0 ≡ build_key_name true (0 + i)))
    × (r.0.1 ≡ record ten_records { key_chooser = r.0.1.key_chooser })
    × IsConfined counting r.0.1
next_transaction_key_hits_example =
    next_transaction_key_hits counting counting-IsStandard 0 ten_records 3 ten_records-IsConfined
      refl

next_transaction_key_misses_example :
    Returns
      (next_transaction_key counting 1 zero_lookups 3)
      λ r. ((j : ℕ) → j < 10 → r.0.0 ≢ build_key_name true (0 + j)) × IsConfined counting r.0.1
next_transaction_key_misses_example =
    next_transaction_key_misses counting counting-IsStandard 0 zero_lookups 3
      zero_lookups-IsConfined refl (omega arith)

abbrev first_draw : (ℕ × Generator counting) × ℕ
first_draw =
    let (n, e) = counting.uniform_int 0 9 1 in
    ((n, uniform (record { last_int = n; generator = e; min = 0; max = 9 })), 3)

build_values-Built_example :
    Returns
      (build_values counting ten_records 3)
      λ r. Built counting counting-IsStandard 8 8 (rounds (pos 3)) 0 ten_records r.0
build_values-Built_example =
    build_values-Built counting counting-IsStandard 8 8 ten_records 3 (omega arith, omega arith)

abbrev asked : Properties
asked = record {
  properties = (codes "recordcount", codes "10") ∷ (codes "insertorder", codes "ordered") ∷ [];
}

abbrev zipfian_lengths : Properties
zipfian_lengths = record { properties = (codes "field_len_dist", codes "zipfian") ∷ [] }

abbrev pub value_or : {A : Type 0} → Run A → A → A
value_or (ok a) b = a
value_or (fault e) b = b

abbrev asked_run : (CoreWorkload counting × ℕ) × ℕ
asked_run = value_or (init counting (λ _. false) 0 asked 3) ((zero_lookups, 7), 7)

asked_ok : init counting (λ _. false) 0 asked 3 ≡ ok asked_run
unfolding init get_field_len_generator get_property find stoi property same read_proportions stod
    read_settings sscanf_zu stol str_to_bool key_chooser_of uniform_new to_u64 pred_ℤ
    scan_len_chooser_of
asked_ok = refl

asked_counts : (asked_run.0.0.record_count ≡ 10) × (asked_run.0.0.read_key_start ≡ 0)
unfolding init get_field_len_generator get_property find stoi property same read_proportions stod
    read_settings sscanf_zu stol str_to_bool key_chooser_of uniform_new to_u64 pred_ℤ
    scan_len_chooser_of
asked_counts = (refl, refl)

init_distributions_example :
    ((property asked "field_len_dist" "constant" ≡ codes "constant")
      ⊎ (property asked "field_len_dist" "constant" ≡ codes "uniform"))
    × (property asked "scanlengthdistribution" "uniform" ≡ codes "uniform")
init_distributions_example =
    init_distributions counting (λ _. false) 0 asked 3 {r = asked_run} asked_ok

init-IsConfined_example : IsConfined counting asked_run.0.0 × (asked_run.0.1 ≡ 0 + 1)
init-IsConfined_example =
    init-IsConfined counting (λ _. false) 0 asked 3 {r = asked_run} asked_ok
      (unfold property get_property find same in refl) (omega (arith, asked_counts))
      (omega (arith, asked_counts))

abbrev halves : Proportions counting
halves = record {
  read_proportion = 500_000;
  update_proportion = 500_000;
  insert_proportion = 500_000;
  scan_proportion = 500_000;
  readmodifywrite_proportion = 500_000;
}

init-next_operation_example :
    Returns (next_operation counting asked_run.0.0 3) λ s. is_wanted counting halves s.0.0 ≡ true
init-next_operation_example =
    init-next_operation counting (λ _. false) 0 asked 3 3 halves read {r = asked_run} asked_ok
      (unfold read_proportions stod in refl) refl
