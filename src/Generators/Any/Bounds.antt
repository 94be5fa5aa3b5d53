-- ===== src/Generators/Any/Bounds.antt =====
-- Generators whose numbers stay between two bounds.
use ycsb_lsm.Base.{ℕ, ◌+◌, ◌≤◌, ◌<◌, refl, Returns, arith}
use ycsb_lsm.Platform.{Platform, IsStandard}
use ycsb_lsm.Generators.Simple.{CounterGenerator, uniform_next}
use ycsb_lsm.Generators.Simple.Counter.{uniform_next_bounds}
use ycsb_lsm.Generators.Hotspot.Range.{IsSplit, hotspot_next_bounds}
use ycsb_lsm.Generators.Zipfian.Next.{IsScrambled, scrambled_next-IsScrambled}
use ycsb_lsm.Generators.Any.{
  Generator, constant, uniform, zipfian, scrambled, latest, hotspot, generator_next,
}

module _ (P : Platform) where
  -- The fields of the generator confine it to the numbers from `lo` to `hi`. Plain zipfian and
  -- latest generators are left out: their range depends on the rounding of `pow`.
  abbrev pub StaysIn : ℕ → ℕ → Generator P → Type 0
  StaysIn lo hi (constant g) = (lo ≤ g.constant) × (g.constant ≤ hi)
  StaysIn lo hi (uniform g) = (lo ≤ g.min) × (g.min ≤ g.max) × (g.max ≤ hi)
  StaysIn lo hi (scrambled g) = IsScrambled P g × (lo ≤ g.base) × (g.base + g.num_items ≤ hi + 1)
  StaysIn lo hi (hotspot g) =
      IsSplit P g
      × (0 < g.hot_interval)
      × (0 < g.cold_interval)
      × (lo ≤ g.lower_bound)
      × (g.upper_bound ≤ hi)
  StaysIn lo hi _ = ⊥

  -- `Next` of a confined generator returns a number between the bounds, and the generator stays
  -- confined.
  pub generator_next-StaysIn :
      IsStandard P
      → (basis : CounterGenerator) (lo hi : ℕ) (g : Generator P) (w : P.World) → StaysIn lo hi g
      → Returns (generator_next P basis g w) λ r. (lo ≤ r.0.0) × (r.0.0 ≤ hi) × StaysIn lo hi r.0.1
  unfolding generator_next
  generator_next-StaysIn std basis lo hi (constant g) w s =
      (((g.constant, constant g), w), refl, (s.0, s.1, s))
  generator_next-StaysIn std basis lo hi (uniform g) w s =
      let b = uniform_next_bounds P std g s.1 in
      (
        (((uniform_next P g).0, uniform (uniform_next P g).1), w),
        refl,
        (
          unfold uniform_next in omega (arith, b, s),
          unfold uniform_next in omega (arith, b, s),
          unfold uniform_next in (s.0, s.1, s.2),
        ),
      )
  generator_next-StaysIn std basis lo hi (scrambled g) w s =
      let (((n, g'), w'), run, (a, b, ready, items, base)) = scrambled_next-IsScrambled P g w s.0 in
      (
        ((n, scrambled g'), w'),
        rw run refl,
        (omega arith, omega arith, (ready, rw base s.1, rw (base, items) s.2)),
      )
  generator_next-StaysIn std basis lo hi (hotspot g) w s =
      let (((n, g'), w'), run, (a, b, _, same)) = hotspot_next_bounds P g w s.0 s.1 s.2 in
      (
        ((n, hotspot g'), w'),
        rw run refl,
        (
          omega arith,
          omega arith,
          rw same (
            record { ordered = s.0.ordered; fits = s.0.fits; split = s.0.split },
            s.1,
            s.2,
            s.3,
            s.4,
          ),
        ),
      )
  generator_next-StaysIn std basis lo hi (zipfian g) w s = absurd s
  generator_next-StaysIn std basis lo hi (latest g) w s = absurd s
