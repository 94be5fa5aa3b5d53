-- ===== src/Db.antt =====
-- core/db.h: the interface of the databases. Its methods that do nothing unless a database overrides
-- them (`Init`, `Close`, `openStatistics`, `doSomeThing`) are left out.
use ycsb_lsm.Base.{Bool, false, List, Option, Bytes, Run, ◌==◌}
use ycsb_lsm.Base.Int.{ℤ, pos, negsuc}

-- `kOK`, `kErrorNoData`, `kErrorConflict`
pub data Status : Type 0 where
  k_ok k_error_no_data k_error_conflict : Status

-- Their values.
abbrev pub code : Status → ℤ
code k_ok = pos 0
code k_error_no_data = pos 1
code k_error_conflict = pos 2

-- `KVPair`
abbrev pub FieldPair : Type 0
FieldPair = Bytes × Bytes

-- The pure virtual methods, as functions of the state of the database. The results of `Read` and
-- `Scan` are appended to or replace the vector that they are given, which the callers leave empty.
pub record Db : Type 1 where
  pub State : Type 0
  pub read :
      State
      → Bytes
      → Bytes
      → Option (List Bytes)
      → List FieldPair
      → Run ((ℤ × List FieldPair) × State)
  pub scan :
      State → Bytes → Bytes → ℤ → Option (List Bytes) → Run ((ℤ × List (List FieldPair)) × State)
  pub update : State → Bytes → Bytes → List FieldPair → Run (ℤ × State)
  pub insert : State → Bytes → Bytes → List FieldPair → Run (ℤ × State)
  pub delete : State → Bytes → Bytes → Run (ℤ × State)

-- `==` on `int`
unfoldable pub eq_int : ℤ → ℤ → Bool
eq_int (pos a) (pos b) = a == b
eq_int (negsuc a) (negsuc b) = a == b
eq_int (pos a) (negsuc b) = false
eq_int (negsuc a) (pos b) = false
