-- ===== src/Lib.antt =====
-- A model of YCSB-LSM, a benchmark of key-value stores in C++, and proofs about it.
--
-- The parts of the program and how they work together: `main` (ycsbc.cc) reads properties
-- (core/properties.h), makes a workload (core/core_workload.h, core/core_workload.cc) and a database
-- (core/db.h, db/), and runs clients (core/client.h), one for each thread. A client asks the workload
-- for operations, keys and values, which the workload makes with generators (core/*_generator.h,
-- core/HotspotIntegerGenerator.h), and calls the database. The database in memory (db/hashtable_db.cc)
-- stands on hash tables (lib/).
--
-- The files and what they model:
--   Base: types, text, numbers and faults that all parts share. Run is a result or a fault: an
--     exception, a failed assertion, `exit`, undefined behaviour.
--   Utils: core/utils.h. Convert: the conversions of the C++ library that read numbers.
--   Properties: core/properties.h.
--   Platform: what the program takes from the machine and from <random>, as a parameter: floating-point
--     numbers with their roundings, and the random sources. IsStandard names the bounds that the C++
--     standard promises. Platform/Model has a platform that runs.
--   Generators: the generators of core/, each with its state as a record and `Next` as a function of
--     the state and the random source. Generators/Any is the virtual call of `Next`.
--   Workload: core/core_workload.h, and Workload/Init: `CoreWorkload::Init`.
--   Db: the interface of core/db.h. UnorderedMap: `std::unordered_map` as a parameter with the laws
--     that the C++ standard gives; UnorderedMap/Model has one that runs.
--   Hashtable: lib/string.h, lib/stl_hashtable.h and lib/lock_stl_hashtable.h. Hashtable/Tbb:
--     lib/tbb_rand_hashtable.h and lib/tbb_scan_hashtable.h on the maps of TBB, which are a parameter.
--     Hashtable/Locks: the locks of the three tables as a step relation. Hashtable/Memory: the copies of
--     keys (lib/string.h, lib/mem_alloc.h) on a heap that is a parameter and that lookups read; its Model
--     has one that runs.
--   HashtableDb: db/hashtable_db.cc; HashtableDb/Release: db/lock_stl_db.h, db/tbb_rand_db.h and
--     db/tbb_scan_db.h with their destructors.
--   Config: db/basic_config.cc and db/basic_config.hh, on the property tree of boost, a parameter.
--     Config/Model has one that runs.
--   Stores: db/leveldb_db.cc, db/rocksdb_db.cc and db/leveldbVlog_db.cc. LevelDB, SepDB and RocksDB are
--     the parameter Engine; Stores/Records names what they document. Stores/Filters and Stores/Options
--     are the constructors, Stores/Levels and Stores/Requests the reports and `doSomeThing`.
--   Redis: db/redis_db.cc, db/redis_db.h and redis/redis_client.h, on hiredis, a parameter. Redis/Server: what
--     the server is documented to do with HMSET, HMGET and DEL.
--   Timer: core/timer.h and `WallTimer` of core/client.h.
--   Client: core/client.h. To write beyond the 256 slots of the statistics of ycsbc.cc is undefined.
--   DbFactory: db/db_factory.cc and db/basic_db.h.
--   Driver: the command line and the loop of the client threads in ycsbc.cc. Driver/Reports: the loop with
--     the requests that it makes of the database, and `DelegateClient`. Driver/Main: `main`, from the
--     command line on in Driver/Main/Program. Driver/Threads: the threads that load, interleaved.
--   Tests: the theorems at concrete inputs.
--
-- Integers are natural numbers with the wrap at 2 ^ 64 written out; `int` and `long` are a sign and a
-- size. Bounds and fuel: `NextTransactionKey` draws until a key is small enough, which need not end, so
-- the model draws at most as often as its fuel says; for generators that are confined to the records one
-- draw is enough. The loop that counts the levels of a store ends at the first that is not in use, with
-- one round more than levels. The loop over the runs in `main` has three rounds, since it runs at most
-- twice. All other loops recur on what they walk over. Operations of several threads on shared objects
-- are sequences of whole operations. In Driver/Main the threads of a phase run one after another; in
-- Driver/Threads the threads that load move in any order, one step at a time, where taking the number of the
-- thread, taking a key, building the values and inserting the record are one step each.
--
-- Not modelled: time and output; the interleaving of threads that run transactions, and of the steps inside an
-- operation of a database; the vendored redis/hiredis; scripts and samples. The libraries that the
-- program calls are parameters.
pub mod Base
pub mod Utils
pub mod Properties
pub mod Convert
pub mod Platform
pub mod Generators
pub mod Workload
pub mod Db
pub mod UnorderedMap
pub mod Hashtable
pub mod HashtableDb
pub mod Config
pub mod Stores
pub mod Redis
pub mod Timer
pub mod Client
pub mod DbFactory
pub mod Driver
pub mod Tests
