-- ===== src/Workload/Init.antt =====
-- core/core_workload.cc: `CoreWorkload::Init` and `GetFieldLenGenerator`, the names of the
-- properties and their defaults included. Runs of statements that only read properties are grouped
-- in functions of their own, in the order of the source.
pub mod Parts
pub mod Rejects
pub mod Accepts
use mathlib.Core.Option.{get_or}
use ycsb_lsm.Base.{
  ℕ, ◌+◌, ◌-◌, ◌%◌, ◌^◌, Bool, true, false, [], ◌∷◌, ◌++◌, Option, none, some, String, Bytes, codes,
  same, if◌then◌else◌, not, ◌&&◌, Run, ok, fault, exception, std_exception, undefined, ◌>>=◌,
}
use ycsb_lsm.Base.Int.{ℤ, to_u64, pred_ℤ}
use ycsb_lsm.Base.Decimal.{to_string}
use ycsb_lsm.Convert.{stoi, stol, sscanf_zu}
use ycsb_lsm.Utils.{str_to_bool}
use ycsb_lsm.Properties.{Properties, get_property}
use ycsb_lsm.Platform.{Platform}
use ycsb_lsm.Generators.Simple.{UniformGenerator, CounterGenerator, uniform_new, counter_set}
use ycsb_lsm.Generators.Discrete.{DiscreteGenerator, discrete_new, add_value}
use ycsb_lsm.Generators.Hotspot.{hotspot_new}
use ycsb_lsm.Generators.Zipfian.{zipfian_of_items, scrambled_new, latest_new}
use ycsb_lsm.Generators.Any.{Generator, constant, uniform, zipfian, scrambled, latest, hotspot}
use ycsb_lsm.Workload.{Operation, insert, read, update, scan, readmodifywrite, CoreWorkload}

-- `p.GetProperty(name, default)`; the names and the defaults, constants of the class, stand at the
-- calls.
unfoldable pub property : Properties → String → String → Bytes
property p name default_value = get_property p (codes name) (codes default_value)

-- A variable that a failed `sscanf` leaves without a value is then read.
unfoldable pub written : Option ℕ → Run ℕ
written none = fault undefined
written (some n) = ok n

module _ (P : Platform) where
  -- `std::stod`
  unfoldable pub stod : Bytes → Run P.Double
  stod s = elim (P.stod s) [
    | none ↦ fault (std_exception (codes "std::invalid_argument"))
    | some d ↦ ok d
  ]

  -- `GetFieldLenGenerator`. `new ZipfianGenerator(1, field_len)` has two arguments, so it is the
  -- constructor that takes a number of items and a zipfian constant.
  unfoldable pub get_field_len_generator : Properties → P.World → Run (Generator P × P.World)
  get_field_len_generator p w = do
    let field_len_dist = property p "field_len_dist" "constant"
    field_len ← stoi (property p "fieldlength" "100")
    if same field_len_dist (codes "constant")
        then ok (constant (record { constant = to_u64 field_len }), w)
        else if same field_len_dist (codes "uniform")
        then (do g ← uniform_new P 1 (to_u64 field_len); ok (uniform g, w))
        else if same field_len_dist (codes "zipfian")
        then (do (g, w') ← zipfian_of_items P 1 (P.of_int field_len) w; ok (zipfian g, w'))
        else fault (exception (codes "Unknown field length distribution: " ++ field_len_dist))

  pub record Proportions : Type 0 where
    pub read_proportion : P.Double
    pub update_proportion : P.Double
    pub insert_proportion : P.Double
    pub scan_proportion : P.Double
    pub readmodifywrite_proportion : P.Double

  unfoldable pub read_proportions : Properties → Run Proportions
  read_proportions p = do
    r ← stod (property p "readproportion" "0.95")
    u ← stod (property p "updateproportion" "0.05")
    i ← stod (property p "insertproportion" "0.0")
    s ← stod (property p "scanproportion" "0.0")
    m ← stod (property p "readmodifywriteproportion" "0.0")
    ok (record {
      read_proportion = r;
      update_proportion = u;
      insert_proportion = i;
      scan_proportion = s;
      readmodifywrite_proportion = m;
    })

  -- `if (proportion > 0) op_chooser_.AddValue(op, proportion)`
  unfoldable pub add_operation :
      Operation → P.Double → DiscreteGenerator P Operation → DiscreteGenerator P Operation
  add_operation op proportion g =
      if P.lt (P.of_nat 0) proportion then add_value P op proportion g else g

  unfoldable pub op_chooser_of : Proportions → DiscreteGenerator P Operation
  unfolding add_operation
  op_chooser_of q = add_operation readmodifywrite q.readmodifywrite_proportion (
      add_operation scan q.scan_proportion (
        add_operation insert q.insert_proportion (
          add_operation update q.update_proportion
            (add_operation read q.read_proportion (discrete_new P)))))

  -- What `Init` reads after the proportions.
  pub record Settings : Type 0 where
    pub record_count : ℕ
    pub read_key_start : ℕ
    pub request_dist : Bytes
    pub max_scan_len : ℤ
    pub scan_len_dist : Bytes
    pub insert_start : ℤ
    pub read_all_fields : Bool
    pub write_all_fields : Bool
    pub with_timestamp : Bool
    pub with_operation : Bool
    pub with_latency_filename : Bool
    pub zerolookuprate : ℤ
    pub skipratio_inload : ℤ
    pub skipratio_forrun : ℤ
    pub adjust_filter : Bool

  -- `record_count_` is 0 before `Init`, and stays so if the property is no number.
  unfoldable pub read_settings : Properties → Run Settings
  unfolding written
  read_settings p = do
    let record_count = get_or (sscanf_zu (get_property p (codes "recordcount") [])) 0
    read_key_start ← written (sscanf_zu (property p "readkeystart" "0"))
    field_len ← stoi (property p "fieldlength" "100")
    max_scan_len ← stoi (property p "maxscanlength" "1000")
    insert_start ← stol (property p "insertstart" "0")
    read_all_fields ← str_to_bool (property p "readallfields" "true")
    write_all_fields ← str_to_bool (property p "writeallfields" "false")
    with_timestamp ← str_to_bool (property p "withtimestamp" "false")
    with_operation ← str_to_bool (property p "withoperation" "false")
    with_latency ← str_to_bool (property p "withlatency" "false")
    zerolookuprate ← stoi (property p "zerolookuprate" "0")
    skipratio_inload ← stoi (property p "skipratioinload" "0")
    skipratio_forrun ← stoi (property p "skipratioforrun" "0")
    adjust_filter ← str_to_bool (property p "adjustfilter" "false")
    ok (record {
      record_count = record_count;
      read_key_start = read_key_start;
      request_dist = property p "requestdistribution" "uniform";
      max_scan_len = max_scan_len;
      scan_len_dist = property p "scanlengthdistribution" "uniform";
      insert_start = insert_start;
      read_all_fields = read_all_fields;
      write_all_fields = write_all_fields;
      with_timestamp = with_timestamp;
      with_operation = with_operation;
      with_latency_filename = with_latency;
      zerolookuprate = zerolookuprate;
      skipratio_inload = skipratio_inload;
      skipratio_forrun = skipratio_forrun;
      adjust_filter = adjust_filter;
    })

  -- The choice of `key_chooser_`.
  unfoldable pub key_chooser_of :
      Properties → Settings → P.Double → CounterGenerator → P.World → Run (Generator P × P.World)
  key_chooser_of p s insert_proportion seq w =
      let last_record = (s.record_count + 2 ^ 64 - 1) % 2 ^ 64 in
      if same s.request_dist (codes "uniform")
      then (do g ← uniform_new P 0 last_record; ok (uniform g, w))
      else if same s.request_dist (codes "zipfian")
      then (do
        op_count ← stol (get_property p (codes "operationcount") [])
        let new_keys = P.to_long (P.mul (P.mul (P.of_int op_count) insert_proportion) (P.of_nat 2))
        zipfian_const ← stod (property p "zipfianconst" "0.99")
        (g, w') ← scrambled_new P ((s.record_count + to_u64 new_keys) % 2 ^ 64) zipfian_const w
        ok (scrambled g, w'))
      else if same s.request_dist (codes "latest")
      then (do
        zipfian_const ← stod (property p "zipfianconst" "0.99")
        (g, w') ← latest_new P seq zipfian_const w
        ok (latest g, w'))
      else if same s.request_dist (codes "hotspot")
      then (do
        hotset ← stod (property p "hotspotdatafraction" "0.2")
        hotopn ← stod (property p "hotspotopnfraction" "0.8")
        ok (hotspot (hotspot_new P 0 last_record hotset hotopn), w))
      else fault (exception (codes "Unknown request distribution: " ++ s.request_dist))

  -- The choice of `scan_len_chooser_`; `ZipfianGenerator(1, max_scan_len)` is again the constructor
  -- of a number of items and a constant.
  unfoldable pub scan_len_chooser_of : Settings → P.World → Run (Generator P × P.World)
  scan_len_chooser_of s w =
      if same s.scan_len_dist (codes "uniform")
      then (do g ← uniform_new P 1 (to_u64 s.max_scan_len); ok (uniform g, w))
      else if same s.scan_len_dist (codes "zipfian")
      then (do (g, w') ← zipfian_of_items P 1 (P.of_int s.max_scan_len) w; ok (zipfian g, w'))
      else fault (exception (codes "Distribution not allowed for scan length: " ++ s.scan_len_dist))

  -- `Init` on a new object. `opens` tells which files `fopen` opens; `init_count` is the static
  -- `initCount`, which is returned incremented.
  unfoldable pub init :
      (Bytes → Bool) → ℕ → Properties → P.World → Run ((CoreWorkload P × ℕ) × P.World)
  unfolding op_chooser_of
  init opens init_count p w = do
    field_count ← stoi (property p "fieldcount" "1")
    (field_len_generator, w₁) ← get_field_len_generator p w
    q ← read_proportions p
    s ← read_settings p
    let seq = counter_set (record { counter = 3 }) s.record_count
    (key_chooser, w₂) ← key_chooser_of p s q.insert_proportion seq w₁
    field_chooser ← uniform_new P 0 (to_u64 (pred_ℤ field_count))
    (scan_len_chooser, w₃) ← scan_len_chooser_of s w₂
    let latency_file =
        property p "latencyfilename" "lf" ++ to_string (init_count + 1) ++ codes ".txt"
    ok (
      (
        record {
          table_name = property p "table" "usertable";
          field_count = field_count;
          read_all_fields = s.read_all_fields;
          write_all_fields = s.write_all_fields;
          field_len_generator = field_len_generator;
          key_generator = record { counter = to_u64 s.insert_start };
          op_chooser = op_chooser_of q;
          key_chooser = key_chooser;
          field_chooser = field_chooser;
          scan_len_chooser = scan_len_chooser;
          insert_key_sequence = seq;
          ordered_inserts = not (same (property p "insertorder" "hashed") (codes "hashed"));
          record_count = s.record_count;
          read_key_start = s.read_key_start;
          with_timestamp = s.with_timestamp;
          with_operation = s.with_operation;
          with_latency_filename = s.with_latency_filename;
          timestamp_trace_open =
              s.with_timestamp && opens (property p "timestamptracefilename" "trace.txt");
          latency_open = s.with_latency_filename && opens latency_file;
          skipratio_inload = s.skipratio_inload;
          skipratio_forrun = s.skipratio_forrun;
          adjust_filter = s.adjust_filter;
          zerolookuprate = s.zerolookuprate;
        },
        init_count + 1,
      ),
      w₃,
    )
