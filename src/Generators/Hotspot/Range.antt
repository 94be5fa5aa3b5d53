-- ===== src/Generators/Hotspot/Range.antt =====
-- The range of a `HotspotIntegerGenerator`.
use ycsb_lsm.Base.{
  ℕ, ◌+◌, ◌-◌, ◌%◌, ◌^◌, ◌≤◌, ◌<◌, ◌≡◌, refl, ◌⊎◌, inl, inr, true, false, ltb, fault, undefined,
  Returns, Bool-cases, arith, if◌then◌else◌,
}
use ycsb_lsm.Platform.{Platform}
use ycsb_lsm.Generators.Hotspot.{HotspotGenerator, clamp_fraction, hotspot_new, hotspot_next}

module _ (P : Platform) where
  -- The two intervals together are the range, which fits 64 bits.
  pub record IsSplit (g : HotspotGenerator P) : Type 0 where
    pub ordered : g.lower_bound ≤ g.upper_bound
    pub fits : g.upper_bound < 2 ^ 64
    pub split : g.hot_interval + g.cold_interval ≡ g.upper_bound + 1 - g.lower_bound

  -- The constructor splits the range of the two bounds, in whichever order they are given, if the
  -- range has fewer than 2 ^ 64 numbers and the hot part of it is no larger than the range.
  pub hotspot_new-IsSplit :
      (lower upper : ℕ) (hotset opn : P.Double)
      → lower < 2 ^ 64 - 1
      → upper < 2 ^ 64 - 1
      → ((n : ℕ) → P.truncate (P.mul (P.of_nat n) (clamp_fraction P hotset)) ≤ n)
      → IsSplit (hotspot_new P lower upper hotset opn)
  unfolding hotspot_new
  hotspot_new-IsSplit lower upper hotset opn p q part =
      let interval : ℕ =
        ((if ltb upper lower then lower else upper)
          + 2 ^ 64
          - (if ltb upper lower then upper else lower)
          + 1)
        % 2 ^ 64 in
      ground (arith, part interval)

  -- `Next` of a split range with a hot and a cold part returns a number between the bounds. On the
  -- hot branch it is one of the first `hotInterval`, on the cold branch one of the others.
  pub hotspot_next_bounds :
      (g : HotspotGenerator P) (w : P.World)
      → IsSplit g
      → 0 < g.hot_interval
      → 0 < g.cold_interval
      → Returns (hotspot_next P g w) λ r.
        (g.lower_bound ≤ r.0.0)
        × (r.0.0 ≤ g.upper_bound)
        × (ltb r.0.0 (g.lower_bound + g.hot_interval)
            ≡ P.lt (P.random_double w).0 g.hot_opn_fraction)
        × (r.0.1 ≡ record g { last_value = r.0.0 })
  unfolding hotspot_next
  hotspot_next_bounds g w s hot cold =
      let n = (P.random_ull (P.random_double w).1).0 in
      let w'' = (P.random_ull (P.random_double w).1).1 in
      let h = (g.lower_bound + n % g.hot_interval) % 2 ^ 64 in
      let c = (g.lower_bound + g.hot_interval + n % g.cold_interval) % 2 ^ 64 in
      let hot_eq : h ≡ g.lower_bound + n % g.hot_interval = omega arith in
      let cold_eq : c ≡ g.lower_bound + g.hot_interval + n % g.cold_interval = omega arith in
      let hot_lt : n % g.hot_interval < g.hot_interval = omega arith in
      let cold_lt : n % g.cold_interval < g.cold_interval = omega arith in
      elim (Bool-cases (P.lt (P.random_double w).0 g.hot_opn_fraction)) [
        | inl e ↦ (
          ((h, record g { last_value = h }), w''),
          ground arith,
          (omega arith, omega arith, ground arith, refl),
        )
        | inr e ↦ (
          ((c, record g { last_value = c }), w''),
          ground arith,
          (omega arith, omega arith, ground arith, refl),
        )
      ]

  -- With an empty part `Next` divides by zero as soon as it draws from that part.
  pub hotspot_next_undefined :
      (g : HotspotGenerator P) (w : P.World)
      → ((P.lt (P.random_double w).0 g.hot_opn_fraction ≡ true) × (g.hot_interval ≡ 0))
        ⊎ ((P.lt (P.random_double w).0 g.hot_opn_fraction ≡ false) × (g.cold_interval ≡ 0))
      → hotspot_next P g w ≡ fault undefined
  unfolding hotspot_next
  hotspot_next_undefined g w h = ground arith
