-- ===== src/Tests/Draws.antt =====
-- The generators at concrete inputs.
use ycsb_lsm.Base.{ℕ, ◌≡◌, ◌≢◌, refl, [], ◌∷◌, some, Returns, get_elem?, arith, ◌≤◌, ◌+◌, ltb}
use ycsb_lsm.Platform.Model.{counting, counting-IsStandard}
use ycsb_lsm.Generators.Simple.{CounterGenerator, counter_next}
use ycsb_lsm.Generators.Simple.Counter.{draws, draws_distinct}
use ycsb_lsm.Generators.Discrete.{DiscreteGenerator}
use ycsb_lsm.Generators.Discrete.Choice.{here, IsReady}
use ycsb_lsm.Generators.Hotspot.{HotspotGenerator, hotspot_next}
use ycsb_lsm.Generators.Hotspot.Range.{hotspot_next_bounds}
use ycsb_lsm.Generators.Zipfian.{ZipfianGenerator, zeta, zipfian_next_of, SkewedLatestGenerator}
use ycsb_lsm.Generators.Zipfian.Zeta.{IsConsistent, SameShape, zipfian_next_of-IsConsistent}
use ycsb_lsm.Generators.Any.{hotspot, generator_next}
use ycsb_lsm.Generators.Any.Bounds.{StaysIn, generator_next-StaysIn}

abbrev from_five : CounterGenerator
from_five = record { counter = 5 }

draws_distinct_example : get_elem? (draws 3 from_five).0 2 ≢ some 5
draws_distinct_example =
    draws_distinct 3 0 2 5 from_five (omega arith) (omega arith) (omega arith) (omega arith)
      (unfold draws counter_next in refl)

abbrev two_values : DiscreteGenerator counting ℕ
two_values = record { values = (7, 250_000) ∷ (8, 750_000) ∷ []; sum = 1_000_000; last = some 7 }

two_values-IsReady : IsReady counting two_values
two_values-IsReady = record { default = 7; written = refl; offered = here }

abbrev ten_keys : HotspotGenerator counting
ten_keys = record {
  lower_bound = 0;
  upper_bound = 9;
  hot_interval = 2;
  cold_interval = 8;
  hotset_fraction = 200_000;
  hot_opn_fraction = 800_000;
  last_value = 0;
}

hotspot_next_bounds_example : Returns (hotspot_next counting ten_keys 1) λ r.
    (0 ≤ r.0.0)
    × (r.0.0 ≤ 9)
    × (ltb r.0.0 (0 + 2) ≡ ltb (counting.random_double 1).0 800_000)
    × (r.0.1 ≡ record ten_keys { last_value = r.0.0 })
hotspot_next_bounds_example =
    hotspot_next_bounds counting ten_keys 1
      (record { ordered = omega arith; fits = omega arith; split = refl }) (omega arith)
      (omega arith)

abbrev no_cold_keys : HotspotGenerator counting
no_cold_keys = record ten_keys { hot_interval = 10; cold_interval = 0; hot_opn_fraction = 0 }

abbrev ten_items : ZipfianGenerator counting
ten_items = record {
  num_items = 10;
  base = 0;
  theta = 990_000;
  zeta_n = zeta counting 10 990_000;
  eta = 0;
  alpha = 100_000_000;
  zeta_2 = zeta counting 2 990_000;
  n_for_zeta = 10;
  last_value = 0;
}

ten_items-IsConsistent : IsConsistent counting ten_items
ten_items-IsConsistent = record { zeta_n = refl; items = omega arith }

zipfian_next_of-IsConsistent_example : Returns (zipfian_next_of counting 12 ten_items 3) λ r.
    IsConsistent counting r.0.1
    × SameShape counting ten_items r.0.1
    × (12 ≤ r.0.1.n_for_zeta)
    × (r.0.1.last_value ≡ r.0.0)
zipfian_next_of-IsConsistent_example =
    zipfian_next_of-IsConsistent counting 12 ten_items 3 (omega arith) (omega arith)
      ten_items-IsConsistent

abbrev latest_of_ten : SkewedLatestGenerator counting
latest_of_ten = record { zipfian = ten_items; last = 0 }

generator_next-StaysIn_example :
    Returns
      (generator_next counting from_five (hotspot ten_keys) 1)
      λ r. (0 ≤ r.0.0) × (r.0.0 ≤ 9) × StaysIn counting 0 9 r.0.1
generator_next-StaysIn_example =
    generator_next-StaysIn counting counting-IsStandard from_five 0 9 (hotspot ten_keys) 1 (
      record { ordered = omega arith; fits = omega arith; split = refl },
      omega arith,
      omega arith,
      omega arith,
      omega arith,
    )
