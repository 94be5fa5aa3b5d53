-- ===== src/Client.antt =====
-- core/client.h: the class `Client`, one for each thread. The workload, the database and the arrays of
-- statistics are shared by the clients; each step takes them as they are and returns them. Output to
-- files and the terminal is left out, and so are the waits for the time stamps of a trace.
pub mod Loading
pub mod Accounting
use ycsb_lsm.Base.{
  ltb, ℕ, ◌+◌, ◌-◌, ◌%◌, ◌^◌, Bool, true, false, not, ◌&&◌, List, [], ◌∷◌, ◌++◌, Option, none, some,
  Bytes, codes, ◌==◌, leb, if◌then◌else◌, Run, ok, fault, undefined, exit, exception, assert, ◌>>=◌,
  ◌>>◌,
}
use ycsb_lsm.Base.Int.{ℤ, pos, negsuc, ltb_ℤ}
use ycsb_lsm.Platform.{Platform}
use ycsb_lsm.Db.{Status, k_ok, k_error_no_data, code, FieldPair, Db, eq_int}
use ycsb_lsm.Workload.{
  Operation, insert, read, update, scan, readmodifywrite, zeroread, all, thread0, CoreWorkload,
  next_table, next_sequence_key, next_transaction_key, next_operation, next_field_name,
  next_scan_length, build_values, build_update,
}

-- The slot of an operation in the arrays of statistics.
abbrev pub slot : Operation → ℕ
slot insert = 0
slot read = 1
slot update = 2
slot scan = 3
slot readmodifywrite = 4
slot zeroread = 5
slot all = 6
slot thread0 = 7

-- `ops` and `durations` by slot number; there are 256 slots.
abbrev pub Counters : Type 0
Counters = ℕ → ℕ

-- `__sync_add_and_fetch(&counters[i], n)` for a slot of the array
unfoldable pub add_at : ℕ → ℕ → Counters → Counters
add_at i n counters = λ j. if j == i then (counters j + n) % 2 ^ 64 else counters j

-- `getline`: at the end of the file the line that was read last stays.
unfoldable pub next_line : Bytes → List Bytes → Bytes × List Bytes
next_line line [] = (line, [])
next_line line (l ∷ rest) = (l, rest)

-- What the clients take from the system: the time since a timer was started, in microseconds, and
-- `sscanf` of a line of the trace, the conversions that succeed and the character of the operation.
pub record System (World : Type 0) : Type 0 where
  pub elapsed : World → ℕ × World
  pub sscanf_timestamp_operation : Bytes → ℕ × ℕ
  pub sscanf_timestamp : Bytes → ℕ

module _ (P : Platform) (D : Db) (S : System P.World) where
  pub record Client : Type 0 where
    pub t_id : ℕ
    pub t_type : ℕ
    pub line : Bytes
    pub current_operation : Option Operation
    -- the lines of the trace that are left, if it is open
    pub timestamp_trace : Option (List Bytes)
    pub first_do_transaction : Bool
    pub latency_open : Bool
    pub nlatency_open : Bool

  pub record Shared : Type 0 where
    pub workload : CoreWorkload P
    pub db : D.State
    pub ops : Counters
    pub durations : Counters

  -- The constructor. `trace` is what the file of time stamps holds, and `opens` whether the file of
  -- latencies of reads without data can be opened.
  unfoldable pub client_new : List Bytes → Bool → CoreWorkload P → ℕ → ℕ → Client
  client_new trace opens wl t_id t_type = record {
    t_id = t_id;
    t_type = t_type;
    line = [];
    current_operation = if wl.with_operation then some read else none;
    timestamp_trace = if wl.with_timestamp && wl.timestamp_trace_open then some trace else none;
    first_do_transaction = false;
    latency_open = wl.with_latency_filename && wl.latency_open;
    nlatency_open = wl.with_latency_filename && opens;
  }

  -- `DoInsert`. Without `insert_real` it returns `DB::kOK` as a `bool`, which is false.
  unfoldable pub do_insert : Bool → Shared → P.World → Run ((Bool × Shared) × P.World)
  unfolding next_sequence_key build_values next_table eq_int
  do_insert insert_real s w = do
    let (key, wl) = next_sequence_key P s.workload
    ((pairs, wl'), w') ← build_values P wl w
    if insert_real
        then (do
          (status, db) ← D.insert s.db (next_table P wl') key pairs
          ok ((eq_int status (code k_ok), record s { workload = wl'; db = db }), w'))
        else ok ((false, record s { workload = wl' }), w')

  -- `fields` of the reads and scans: NULL, or one name. `NextFieldName` has the prefix already.
  unfoldable pub wanted_fields : CoreWorkload P → Option (List Bytes) × CoreWorkload P
  unfolding next_field_name
  wanted_fields wl =
      if wl.read_all_fields
      then (none, wl)
      else (let (name, wl') = next_field_name P wl in (some ((codes "field" ++ name) ∷ []), wl'))

  -- The values that an update writes.
  unfoldable pub new_values :
      CoreWorkload P → P.World → Run ((List FieldPair × CoreWorkload P) × P.World)
  unfolding build_values build_update
  new_values wl w = if wl.write_all_fields then build_values P wl w else build_update P wl w

  -- `TransactionRead`
  unfoldable pub transaction_read : ℕ → Shared → P.World → Run ((ℤ × Shared) × P.World)
  unfolding next_table next_transaction_key wanted_fields
  transaction_read fuel s w = do
    let table = next_table P s.workload
    ((key, wl), w') ← next_transaction_key P fuel s.workload w
    let (fields, wl') = wanted_fields wl
    ((status, result), db) ← D.read s.db table key fields []
    ok ((status, record s { workload = wl'; db = db }), w')

  -- `TransactionReadModifyWrite`
  unfoldable pub transaction_read_modify_write : ℕ → Shared → P.World → Run ((ℤ × Shared) × P.World)
  unfolding next_table next_transaction_key wanted_fields new_values
  transaction_read_modify_write fuel s w = do
    let table = next_table P s.workload
    ((key, wl), w₁) ← next_transaction_key P fuel s.workload w
    let (fields, wl₁) = wanted_fields wl
    (_, db) ← D.read s.db table key fields []
    ((values, wl₂), w₂) ← new_values wl₁ w₁
    (status, db') ← D.update db table key values
    ok ((status, record s { workload = wl₂; db = db' }), w₂)

  -- The conversion of a length to `int`.
  unfoldable pub to_int : ℕ → ℤ
  to_int n = let m = n % 2 ^ 32 in if leb (2 ^ 31) m then negsuc (2 ^ 32 - 1 - m) else pos m

  -- `TransactionScan`
  unfoldable pub transaction_scan : ℕ → Shared → P.World → Run ((ℤ × Shared) × P.World)
  unfolding next_table next_transaction_key next_scan_length wanted_fields to_int
  transaction_scan fuel s w = do
    let table = next_table P s.workload
    ((key, wl), w₁) ← next_transaction_key P fuel s.workload w
    ((len, wl₁), w₂) ← next_scan_length P wl w₁
    let (fields, wl₂) = wanted_fields wl₁
    ((status, result), db) ← D.scan s.db table key (to_int len) fields
    ok ((status, record s { workload = wl₂; db = db }), w₂)

  -- `TransactionUpdate`
  unfoldable pub transaction_update : ℕ → Shared → P.World → Run ((ℤ × Shared) × P.World)
  unfolding next_table next_transaction_key new_values
  transaction_update fuel s w = do
    let table = next_table P s.workload
    ((key, wl), w₁) ← next_transaction_key P fuel s.workload w
    ((values, wl₁), w₂) ← new_values wl w₁
    (status, db) ← D.update s.db table key values
    ok ((status, record s { workload = wl₁; db = db }), w₂)

  -- `TransactionInsert`
  unfoldable pub transaction_insert : Shared → P.World → Run ((ℤ × Shared) × P.World)
  unfolding next_table next_sequence_key build_values
  transaction_insert s w = do
    let table = next_table P s.workload
    let (key, wl) = next_sequence_key P s.workload
    ((values, wl₁), w₁) ← build_values P wl w
    (status, db) ← D.insert s.db table key values
    ok ((status, record s { workload = wl₁; db = db }), w₁)

  -- `getCurrentTimeStamp` on the lines that are left.
  unfoldable pub get_current_time_stamp : List Bytes → Client → Run Client
  unfolding next_line
  get_current_time_stamp lines c =
      let (line, rest) = next_line c.line lines in
      let read_line : Client = record c { line = line; timestamp_trace = some rest } in
      elim c.current_operation [
        | some old ↦
            let (conversions, operation) = S.sscanf_timestamp_operation line in
            if conversions == 2
            then ok (record read_line {
              current_operation = some (if operation == b'w' then update else read);
            })
            else fault (exit 0)
        | none ↦ if S.sscanf_timestamp line == 1 then ok read_line else fault (exit 0)
      ]

  -- The operation that `DoTransaction` performs.
  unfoldable pub choose_operation : Client → Shared → P.World → Run ((Operation × Shared) × P.World)
  unfolding next_operation
  choose_operation c s w =
      if c.t_type == 0
      then elim c.current_operation [
        | some op ↦ ok ((op, s), w)
        | none ↦ do
          ((op, wl), w') ← next_operation P s.workload w
          ok ((op, record s { workload = wl }), w')
      ]
      else if c.t_type == 1
      then ok ((read, s), w)
      else ok ((insert, s), w)

  -- One operation in the slot; to write beyond the arrays is undefined.
  unfoldable pub count : ℕ → ℕ → Shared → Run Shared
  unfolding add_at
  count i latency s =
      if ltb i 256
      then ok (record s { ops = add_at i 1 s.ops; durations = add_at i latency s.durations })
      else fault undefined

  -- The statistics of a read without data, kept only while latencies are written to files.
  unfoldable pub count_zero_read : Client → ℤ → ℕ → Shared → Run Shared
  unfolding count eq_int
  count_zero_read c status latency s =
      if c.latency_open && eq_int status (code k_error_no_data)
      then (if c.nlatency_open then count (slot zeroread) latency s else fault undefined)
      else ok s

  -- The `switch` of `DoTransaction`. Updates count in the slot of inserts.
  unfoldable pub perform : ℕ → Client → Operation → Shared → P.World → Run ((ℤ × Shared) × P.World)
  unfolding transaction_read transaction_update transaction_insert transaction_scan
      transaction_read_modify_write count count_zero_read
  perform fuel c read s w = do
    ((status, s₁), w₁) ← transaction_read fuel s w
    let (latency, w₂) = S.elapsed w₁
    s₂ ← count_zero_read c status latency s₁
    s₃ ← count (slot read) latency s₂
    ok ((status, s₃), w₂)
  perform fuel c update s w = do
    ((status, s₁), w₁) ← transaction_update fuel s w
    let (latency, w₂) = S.elapsed w₁
    s₂ ← count (slot insert) latency s₁
    ok ((status, s₂), w₂)
  perform fuel c insert s w = do
    ((status, s₁), w₁) ← transaction_insert s w
    let (latency, w₂) = S.elapsed w₁
    s₂ ← count (slot insert) latency s₁
    ok ((status, s₂), w₂)
  perform fuel c scan s w = transaction_scan fuel s w
  perform fuel c readmodifywrite s w = transaction_read_modify_write fuel s w
  perform fuel c _ s w = fault (exception (codes "Operation request is not recognized!"))

  -- `DoTransaction` from the operation on. Without `real_do` it returns `DB::kOK` as a `bool`.
  unfoldable pub run_operation :
      ℕ → Bool → Client → Operation → Shared → P.World → Run ((Bool × Shared) × P.World)
  unfolding perform next_sequence_key count add_at eq_int
  run_operation fuel false c insert s w =
      ok ((false, record s { workload = (next_sequence_key P s.workload).1 }), w)
  run_operation fuel false c _ s w = ok ((false, s), w)
  run_operation fuel true c op s w = do
    ((status, s₁), w₁) ← perform fuel c op s w
    assert (not (ltb_ℤ status (pos 0)))
    let (latency, w₂) = S.elapsed w₁
    let s₂ : Shared = record s₁ { ops = add_at (slot all) 1 s₁.ops }
    s₃ ← count (slot thread0 + c.t_id) latency s₂
    ok ((eq_int status (code k_ok), s₃), w₂)

  -- `DoTransaction`
  unfoldable pub do_transaction :
      ℕ → Bool → Client → Shared → P.World → Run (((Bool × Client) × Shared) × P.World)
  unfolding get_current_time_stamp choose_operation run_operation
  do_transaction fuel real_do c s w = do
    let started : Client = record c { first_do_transaction = true }
    c' ← elim started.timestamp_trace [
      | none ↦ ok started
      | some lines ↦ get_current_time_stamp lines started
    ]
    ((op, s'), w') ← choose_operation c' s w
    ((result, s''), w'') ← run_operation fuel real_do c' op s' w'
    ok (((result, c'), s''), w'')
