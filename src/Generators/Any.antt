-- ===== src/Generators/Any.antt =====
-- core/generator.h: `Generator<uint64_t>` and the classes that the workload creates.
pub mod Bounds
use ycsb_lsm.Base.{ℕ, Run, ok, ◌>>=◌}
use ycsb_lsm.Platform.{Platform}
use ycsb_lsm.Generators.Simple.{
  ConstGenerator, const_next, CounterGenerator, UniformGenerator, uniform_next,
}
use ycsb_lsm.Generators.Hotspot.{HotspotGenerator, hotspot_next}
use ycsb_lsm.Generators.Zipfian.{
  ZipfianGenerator, zipfian_next, ScrambledZipfianGenerator, scrambled_next, SkewedLatestGenerator,
  latest_next,
}

module _ (P : Platform) where
  pub data Generator : Type 0 where
    constant : ConstGenerator → Generator
    uniform : UniformGenerator P → Generator
    zipfian : ZipfianGenerator P → Generator
    scrambled : ScrambledZipfianGenerator P → Generator
    latest : SkewedLatestGenerator P → Generator
    hotspot : HotspotGenerator P → Generator

  -- The virtual `Next`; `basis` is the counter to which a `SkewedLatestGenerator` refers.
  unfoldable pub generator_next :
      CounterGenerator → Generator → P.World → Run ((ℕ × Generator) × P.World)
  unfolding const_next uniform_next zipfian_next scrambled_next latest_next hotspot_next
  generator_next basis (constant g) w = ok ((const_next g, constant g), w)
  generator_next basis (uniform g) w = let (n, g') = uniform_next P g in ok ((n, uniform g'), w)
  generator_next basis (zipfian g) w = do
    ((n, g'), w') ← zipfian_next P g w
    ok ((n, zipfian g'), w')
  generator_next basis (scrambled g) w = do
    ((n, g'), w') ← scrambled_next P g w
    ok ((n, scrambled g'), w')
  generator_next basis (latest g) w = do
    ((n, g'), w') ← latest_next P basis g w
    ok ((n, latest g'), w')
  generator_next basis (hotspot g) w = do
    ((n, g'), w') ← hotspot_next P g w
    ok ((n, hotspot g'), w')
