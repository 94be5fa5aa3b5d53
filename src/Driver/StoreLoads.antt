-- ===== src/Driver/StoreLoads.antt =====
-- The loading loop of ycsbc.cc on LevelDB.
use ycsb_lsm.Base.{ℕ, ◌+◌, ◌^◌, ◌≤◌, ◌≡◌, some, Bytes}
use ycsb_lsm.Platform.{Platform, IsStandard}
use ycsb_lsm.Workload.{rounds, build_key_name}
use ycsb_lsm.Workload.Values.{HasLengths}
use ycsb_lsm.Client.{System, Shared}
use ycsb_lsm.Stores.{Engine, Store, level_db}
use ycsb_lsm.Stores.Records.{IsEngine}

module _ (E : Engine) (laws : IsEngine E) (P : Platform) (std : IsStandard P) (S : System P.World)
    (lo hi : ℕ) where
  -- A workload of records with one field that can load `n` more.
  pub record CanLoad (n : ℕ) (s : Shared P (level_db E) S) : Type 0 where
    pub lengths : HasLengths P std lo hi s.workload
    pub one_field : rounds s.workload.field_count ≡ 1
    pub room : s.workload.key_generator.counter + n ≤ 2 ^ 64

  -- The key that the `k`-th insert from now on makes.
  abbrev pub next_key : Shared P (level_db E) S → ℕ → Bytes
  next_key s k = build_key_name s.workload.ordered_inserts (s.workload.key_generator.counter + k)

  -- The store has a value for the key.
  abbrev pub HasKey : Store E → Bytes → Type 0
  HasKey s key = (v : Bytes) × (laws.contents s.db key ≡ some v)
