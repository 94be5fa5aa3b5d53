-- ===== src/Generators/Zipfian.antt =====
-- core/zipfian_generator.h, core/scrambled_zipfian_generator.h and core/skewed_latest_generator.h.
pub mod Zeta
pub mod Next
use ycsb_lsm.Base.{
  ℕ, zero, suc, ◌+◌, ◌-◌, ◌/◌, ◌%◌, ◌^◌, Bool, true, false, ◌&&◌, ltb, leb, if◌then◌else◌, Run, ok,
  fault, assert, ◌>>=◌, ◌>>◌,
}
use ycsb_lsm.Utils.{fnv_hash64}
use ycsb_lsm.Platform.{Platform}
use ycsb_lsm.Generators.Simple.{CounterGenerator, counter_last}
use ycsb_lsm.Generators.Hotspot.{modulo}

-- `kMaxNumItems`
abbrev pub k_max_num_items : ℕ
k_max_num_items = (2 ^ 64 - 1) / 2 ^ 24

module _ (P : Platform) where
  -- `kZipfianConst`
  abbrev pub k_zipfian_const : P.Double
  k_zipfian_const = P.literal 99 2

  pub record ZipfianGenerator : Type 0 where
    pub num_items : ℕ
    pub base : ℕ
    pub theta : P.Double
    pub zeta_n : P.Double
    pub eta : P.Double
    pub alpha : P.Double
    pub zeta_2 : P.Double
    pub n_for_zeta : ℕ
    pub last_value : ℕ

  -- The loop of `Zeta` from `i`, with the rounds that are left.
  unfoldable pub zeta_loop : P.Double → ℕ → ℕ → P.Double → P.Double
  zeta_loop theta zero i zeta = zeta
  zeta_loop theta (suc left) i zeta =
      zeta_loop theta left (i + 1) (P.add zeta (P.div (P.of_nat 1) (P.pow (P.of_nat i) theta)))

  -- `Zeta(last_num, cur_num, theta, last_zeta)`
  unfoldable pub zeta_from : ℕ → ℕ → P.Double → P.Double → P.Double
  zeta_from last_num cur_num theta last_zeta =
      zeta_loop theta (cur_num - last_num) (last_num + 1) last_zeta

  -- `Zeta(num, theta)`
  unfoldable pub zeta : ℕ → P.Double → P.Double
  unfolding zeta_from
  zeta num theta = zeta_from 0 num theta (P.of_nat 0)

  -- `Eta`
  unfoldable pub eta_of : ZipfianGenerator → P.Double
  eta_of g =
      P.div
        (P.sub (P.of_nat 1)
          (P.pow (P.div (P.of_nat 2) (P.of_nat g.num_items)) (P.sub (P.of_nat 1) g.theta)))
        (P.sub (P.of_nat 1) (P.div g.zeta_2 g.zeta_n))

  -- `RaiseZeta`
  unfoldable pub raise_zeta : ℕ → ZipfianGenerator → Run ZipfianGenerator
  raise_zeta num g = do
    assert (leb g.n_for_zeta num)
    ok (record g { zeta_n = zeta_from g.n_for_zeta num g.theta g.zeta_n; n_for_zeta = num })

  -- The start of `Next(num)`: recompute zeta_n and eta for a larger number of items.
  unfoldable pub recompute : ℕ → ZipfianGenerator → Run ZipfianGenerator
  unfolding raise_zeta
  recompute num g =
      if ltb g.n_for_zeta num
      then (do g' ← raise_zeta num g; ok (record g' { eta = eta_of g' }))
      else ok g

  -- The value that `Next(num)` makes of the random number `u`.
  unfoldable pub zipfian_value : ℕ → P.Double → ZipfianGenerator → ℕ
  zipfian_value num u g =
      let uz = P.mul u g.zeta_n in
      if P.lt uz (P.literal 10 1)
      then 0
      else if P.lt uz (P.add (P.literal 10 1) (P.pow (P.literal 5 1) g.theta))
      then 1
      else P.truncate (
          P.add (P.of_nat g.base) (
            P.mul (P.of_nat num)
              (P.pow (P.add (P.sub (P.mul g.eta u) g.eta) (P.of_nat 1)) g.alpha)))

  -- `Next(num)`
  unfoldable pub zipfian_next_of :
      ℕ → ZipfianGenerator → P.World → Run ((ℕ × ZipfianGenerator) × P.World)
  unfolding recompute zipfian_value
  zipfian_next_of num g w = do
    assert (leb 2 num && ltb num k_max_num_items)
    g' ← recompute num g
    let (u, w') = P.random_double w
    let v = zipfian_value num u g'
    ok ((v, record g' { last_value = v }), w')

  -- `Next()`
  unfoldable pub zipfian_next : ZipfianGenerator → P.World → Run ((ℕ × ZipfianGenerator) × P.World)
  unfolding zipfian_next_of
  zipfian_next g w = zipfian_next_of g.num_items g w

  -- The fields as the constructor has them before `RaiseZeta`; `eta_` and `last_value_` are not
  -- written yet.
  unfoldable pub zipfian_start : ℕ → ℕ → P.Double → ZipfianGenerator
  zipfian_start min max zipfian_const = record {
    num_items = (max + 2 ^ 64 - min + 1) % 2 ^ 64;
    base = min;
    theta = zipfian_const;
    zeta_n = P.of_nat 0;
    eta = P.of_nat 0;
    alpha = P.div (P.of_nat 1) (P.sub (P.of_nat 1) zipfian_const);
    zeta_2 = zeta 2 zipfian_const;
    n_for_zeta = 0;
    last_value = 0;
  }

  -- `ZipfianGenerator(min, max, zipfian_const)`
  unfoldable pub zipfian_new : ℕ → ℕ → P.Double → P.World → Run (ZipfianGenerator × P.World)
  unfolding raise_zeta zipfian_next zipfian_start
  zipfian_new min max zipfian_const w = do
    let g = zipfian_start min max zipfian_const
    assert (leb 2 g.num_items && ltb g.num_items k_max_num_items)
    g' ← raise_zeta g.num_items g
    ((_, g''), w') ← zipfian_next (record g' { eta = eta_of g' }) w
    ok (g'', w')

  -- `ZipfianGenerator(num_items, zipfian_const)`
  unfoldable pub zipfian_of_items : ℕ → P.Double → P.World → Run (ZipfianGenerator × P.World)
  unfolding zipfian_new
  zipfian_of_items num_items zipfian_const w =
      zipfian_new 0 ((num_items + 2 ^ 64 - 1) % 2 ^ 64) zipfian_const w

  pub record ScrambledZipfianGenerator : Type 0 where
    pub base : ℕ
    pub num_items : ℕ
    pub generator : ZipfianGenerator
    pub last : ℕ

  -- `ScrambledZipfianGenerator(num_items, zipfian_const)`; `last_` is not written.
  unfoldable pub scrambled_new : ℕ → P.Double → P.World → Run (ScrambledZipfianGenerator × P.World)
  unfolding zipfian_new
  scrambled_new num_items zipfian_const w = do
    let max = (num_items + 2 ^ 64 - 1) % 2 ^ 64
    (g, w') ← zipfian_new 0 max zipfian_const w
    ok (record { base = 0; num_items = (max + 1) % 2 ^ 64; generator = g; last = 0 }, w')

  -- `ScrambledZipfianGenerator::Next`
  unfoldable pub scrambled_next :
      ScrambledZipfianGenerator → P.World → Run ((ℕ × ScrambledZipfianGenerator) × P.World)
  unfolding zipfian_next modulo
  scrambled_next g w = do
    ((value, z), w') ← zipfian_next g.generator w
    r ← modulo (fnv_hash64 value) g.num_items
    let v = (g.base + r) % 2 ^ 64
    ok ((v, record g { generator = z; last = v }), w')

  -- `basis_` is a reference to a counter of the workload, which the calls take as an argument.
  pub record SkewedLatestGenerator : Type 0 where
    pub zipfian : ZipfianGenerator
    pub last : ℕ

  -- `SkewedLatestGenerator::Next`
  unfoldable pub latest_next :
      CounterGenerator
      → SkewedLatestGenerator
      → P.World
      → Run ((ℕ × SkewedLatestGenerator) × P.World)
  unfolding counter_last zipfian_next_of
  latest_next basis g w = do
    let max = counter_last basis
    ((z, zipfian), w') ← zipfian_next_of max g.zipfian w
    let v = (max + 2 ^ 64 - z) % 2 ^ 64
    ok ((v, record { zipfian = zipfian; last = v }), w')

  -- `SkewedLatestGenerator(counter, zipfian_const)`
  unfoldable pub latest_new :
      CounterGenerator → P.Double → P.World → Run (SkewedLatestGenerator × P.World)
  unfolding zipfian_of_items latest_next counter_last
  latest_new basis zipfian_const w = do
    (z, w') ← zipfian_of_items (counter_last basis) zipfian_const w
    ((_, g), w'') ← latest_next basis (record { zipfian = z; last = 0 }) w'
    ok (g, w'')
