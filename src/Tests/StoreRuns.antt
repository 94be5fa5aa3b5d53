-- ===== src/Tests/StoreRuns.antt =====
-- The loading loop on a store at a concrete input.
use ycsb_lsm.Client.{Shared}
use ycsb_lsm.Base.{false, []}
use ycsb_lsm.Platform.Model.{counting}
use ycsb_lsm.Stores.{level_db}
use ycsb_lsm.Stores.Model.{ordered}
use ycsb_lsm.Tests.Databases.{ticking}
use ycsb_lsm.Tests.Stores.{one_field}

-- LevelDB without a key.
abbrev new_store : Shared counting (level_db (ordered [])) ticking
new_store = record one_field { db = record { db = []; has_read = false } }
