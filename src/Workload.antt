-- ===== src/Workload.antt =====
-- core/core_workload.h and the record operations of core/core_workload.cc: the class `CoreWorkload`
-- after `Init`, and the keys, values, operations and lengths that it makes up.
pub mod KeyName
pub mod Keys
pub mod Transactions
pub mod Values
pub mod Init
use ycsb_lsm.Base.{
  ℕ, zero, suc, ◌+◌, ◌%◌, ◌^◌, Bool, true, false, List, [], ◌∷◌, ◌++◌, Bytes, codes, ltb,
  if◌then◌else◌, take, replicate, Run, ok, fault, out_of_fuel, ◌>>=◌,
}
use ycsb_lsm.Base.Int.{ℤ, pos, negsuc, ltb_ℤ, is_zero}
use ycsb_lsm.Base.Decimal.{to_string, format_020lu}
use ycsb_lsm.Utils.{hash, random_print_char}
use ycsb_lsm.Platform.{Platform}
use ycsb_lsm.Generators.Simple.{
  CounterGenerator, counter_next, counter_last, UniformGenerator, uniform_next,
}
use ycsb_lsm.Generators.Discrete.{DiscreteGenerator, discrete_next}
use ycsb_lsm.Generators.Any.{Generator, generator_next}

-- `Operation`; the last three name slots of the statistics
pub data Operation : Type 0 where
  insert read update scan readmodifywrite zeroread all thread0 : Operation

-- `DB::KVPair`
abbrev pub KvPair : Type 0
KvPair = Bytes × Bytes

-- `BuildKeyName`
unfoldable pub build_key_name : Bool → ℕ → Bytes
build_key_name ordered_inserts key_num =
    let n = if ordered_inserts then key_num else hash key_num in
    codes "user" ++ take 20 (format_020lu n)

-- The rounds of `for (int i = 0; i < field_count_; ++i)`.
unfoldable pub rounds : ℤ → ℕ
rounds (pos n) = n
rounds (negsuc n) = 0

module _ (P : Platform) where
  -- The fields of `CoreWorkload`. A trace or latency file is only known to be open or `NULL`.
  pub record CoreWorkload : Type 0 where
    pub table_name : Bytes
    pub field_count : ℤ
    pub read_all_fields : Bool
    pub write_all_fields : Bool
    pub field_len_generator : Generator P
    pub key_generator : CounterGenerator
    pub op_chooser : DiscreteGenerator P Operation
    pub key_chooser : Generator P
    pub field_chooser : UniformGenerator P
    pub scan_len_chooser : Generator P
    pub insert_key_sequence : CounterGenerator
    pub ordered_inserts : Bool
    pub record_count : ℕ
    pub read_key_start : ℕ
    pub with_timestamp : Bool
    pub with_operation : Bool
    pub with_latency_filename : Bool
    pub timestamp_trace_open : Bool
    pub latency_open : Bool
    pub skipratio_inload : ℤ
    pub skipratio_forrun : ℤ
    pub adjust_filter : Bool
    pub zerolookuprate : ℤ

  -- `NextTable`
  unfoldable pub next_table : CoreWorkload → Bytes
  next_table wl = wl.table_name

  -- `NextSequenceKey`
  unfoldable pub next_sequence_key : CoreWorkload → Bytes × CoreWorkload
  unfolding counter_next
  next_sequence_key wl =
      let (key_num, g) = counter_next wl.key_generator in
      (build_key_name wl.ordered_inserts key_num, record wl { key_generator = g })

  -- The loop of `NextTransactionKey`: draw until the number is no larger than the last key.
  unfoldable pub draw_key :
      ℕ → CounterGenerator → Generator P → P.World → Run ((ℕ × Generator P) × P.World)
  draw_key zero seq g w = fault out_of_fuel
  draw_key (suc fuel) seq g w = do
    ((key_num, g'), w') ← generator_next P seq g w
    let again = draw_key fuel seq g' w'
    if ltb (counter_last seq) key_num then again else ok ((key_num, g'), w')

  -- `if (zerolookuprate != 0)`: with that rate in percent the key is moved past the records.
  unfoldable pub zero_lookup : ℤ → ℕ → ℕ → P.World → ℕ × P.World
  zero_lookup rate record_count key_num w =
      let (r, w') = P.rand w in
      if is_zero rate
      then (key_num, w)
      else if ltb_ℤ (pos (r % 100)) rate
      then ((key_num + record_count) % 2 ^ 64, w')
      else (key_num, w')

  -- `NextTransactionKey`
  unfoldable pub next_transaction_key :
      ℕ → CoreWorkload → P.World → Run ((Bytes × CoreWorkload) × P.World)
  unfolding draw_key zero_lookup
  next_transaction_key fuel wl w = do
    ((drawn, g), w') ← draw_key fuel wl.insert_key_sequence wl.key_chooser w
    let shifted = (drawn + wl.read_key_start) % 2 ^ 64
    let (key_num, w'') = zero_lookup wl.zerolookuprate wl.record_count shifted w'
    ok ((build_key_name wl.ordered_inserts key_num, record wl { key_chooser = g }), w'')

  -- `NextOperation`
  unfoldable pub next_operation :
      CoreWorkload → P.World → Run ((Operation × CoreWorkload) × P.World)
  unfolding discrete_next
  next_operation wl w = do
    ((op, g), w') ← discrete_next P wl.op_chooser w
    ok ((op, record wl { op_chooser = g }), w')

  -- `NextFieldName`
  unfoldable pub next_field_name : CoreWorkload → Bytes × CoreWorkload
  unfolding uniform_next
  next_field_name wl =
      let (n, g) = uniform_next P wl.field_chooser in
      (codes "field" ++ to_string n, record wl { field_chooser = g })

  -- `NextScanLength`
  unfoldable pub next_scan_length : CoreWorkload → P.World → Run ((ℕ × CoreWorkload) × P.World)
  unfolding generator_next
  next_scan_length wl w = do
    ((n, g), w') ← generator_next P wl.insert_key_sequence wl.scan_len_chooser w
    ok ((n, record wl { scan_len_chooser = g }), w')

  -- `append(field_len_generator_->Next(), utils::RandomPrintChar())`
  unfoldable pub next_value : CoreWorkload → P.World → Run ((Bytes × CoreWorkload) × P.World)
  unfolding generator_next random_print_char
  next_value wl w = do
    ((n, g), w') ← generator_next P wl.insert_key_sequence wl.field_len_generator w
    let (r, w'') = P.rand w'
    ok ((replicate n (random_print_char r), record wl { field_len_generator = g }), w'')

  -- The loop of `BuildValues` from field `i`, with the rounds that are left.
  unfoldable pub build_values_from :
      ℕ → ℕ → CoreWorkload → P.World → Run ((List KvPair × CoreWorkload) × P.World)
  unfolding next_value
  build_values_from zero i wl w = ok (([], wl), w)
  build_values_from (suc left) i wl w = do
    ((value, wl'), w') ← next_value wl w
    ((rest, wl''), w'') ← build_values_from left (i + 1) wl' w'
    ok (((codes "field" ++ to_string i, value) ∷ rest, wl''), w'')

  -- `BuildValues`
  unfoldable pub build_values :
      CoreWorkload → P.World → Run ((List KvPair × CoreWorkload) × P.World)
  unfolding build_values_from rounds
  build_values wl w = build_values_from (rounds wl.field_count) 0 wl w

  -- `BuildUpdate`
  unfoldable pub build_update :
      CoreWorkload → P.World → Run ((List KvPair × CoreWorkload) × P.World)
  unfolding next_field_name next_value
  build_update wl w = do
    let (name, wl') = next_field_name wl
    ((value, wl''), w') ← next_value wl' w
    ok (((name, value) ∷ [], wl''), w')
