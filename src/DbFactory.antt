-- ===== src/DbFactory.antt =====
-- db/db_factory.cc: the choice of a database by its name, and db/basic_db.h, the database that only
-- prints what it is asked for.
pub mod Names
use ycsb_lsm.Base.{
  ℕ, Bool, true, false, List, [], ◌∷◌, Option, none, some, Bytes, codes, same, if◌then◌else◌, Run,
  ok, ◌>>=◌,
}
use ycsb_lsm.Base.Int.{ℤ, pos}
use ycsb_lsm.Convert.{stoi}
use ycsb_lsm.Properties.{Properties, index}
use ycsb_lsm.Db.{Db, FieldPair}

-- A new database, by its class and the arguments of its constructor.
pub data NewDb : Type 0 where
  basic_db lock_stl_db tbb_rand_db tbb_scan_db : NewDb
  redis_db : Bytes → ℤ → ℤ → NewDb
  level_db rocks_db leveldb_vlog : Bytes → Bytes → NewDb

-- The databases that are made of `props["dbfilename"]` and `props["configpath"]`.
unfoldable pub of_files : (Bytes → Bytes → NewDb) → Properties → Run (Option NewDb × Properties)
unfolding index
of_files make props =
    let (file, props₁) = index props (codes "dbfilename") in
    let (config, props₂) = index props₁ (codes "configpath") in ok (some (make file config), props₂)

-- `RedisDB(props["host"], stoi(props["port"]), stoi(props["slaves"]))`
unfoldable pub of_host : Properties → Run (Option NewDb × Properties)
unfolding index
of_host props = do
  let (port_text, props₁) = index props (codes "port")
  port ← stoi port_text
  let (slaves_text, props₂) = index props₁ (codes "slaves")
  slaves ← stoi slaves_text
  let (host, props₃) = index props₂ (codes "host")
  ok (some (redis_db host port slaves), props₃)

-- `DBFactory::CreateDB`; `none` is NULL
unfoldable pub create_db : Properties → Run (Option NewDb × Properties)
unfolding index of_files of_host
create_db props =
    let (name, props') = index props (codes "dbname") in
    if same name (codes "basic")
    then ok (some basic_db, props')
    else if same name (codes "lock_stl")
    then ok (some lock_stl_db, props')
    else if same name (codes "redis")
    then of_host props'
    else if same name (codes "tbb_rand")
    then ok (some tbb_rand_db, props')
    else if same name (codes "tbb_scan")
    then ok (some tbb_scan_db, props')
    else if same name (codes "leveldb")
    then of_files level_db props'
    else if same name (codes "rocksdb")
    then of_files rocks_db props'
    else if same name (codes "leveldbVlog")
    then of_files leveldb_vlog props'
    else ok (none, props')

-- `BasicDB`: every operation returns 0, and a read or a scan leaves its result as it was.
abbrev pub basic : Db
basic = record {
  State = Unit;
  read = λ db table key fields result. ok ((pos 0, result), db);
  scan = λ db table key len fields. ok ((pos 0, []), db);
  update = λ db table key values. ok (pos 0, db);
  insert = λ db table key values. ok (pos 0, db);
  delete = λ db table key. ok (pos 0, db);
}
