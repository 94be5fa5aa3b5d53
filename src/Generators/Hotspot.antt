-- ===== src/Generators/Hotspot.antt =====
-- core/HotspotIntegerGenerator.h.
pub mod Range
use ycsb_lsm.Base.{
  ℕ, ◌+◌, ◌-◌, ◌%◌, ◌^◌, Bool, true, false, ◌||◌, ltb, ◌==◌, if◌then◌else◌, Run, ok, fault,
  undefined, ◌>>=◌,
}
use ycsb_lsm.Platform.{Platform}

-- `%` on unsigned integers
unfoldable pub modulo : ℕ → ℕ → Run ℕ
modulo a b = if b == 0 then fault undefined else ok (a % b)

module _ (P : Platform) where
  pub record HotspotGenerator : Type 0 where
    pub lower_bound : ℕ
    pub upper_bound : ℕ
    pub hot_interval : ℕ
    pub cold_interval : ℕ
    pub hotset_fraction : P.Double
    pub hot_opn_fraction : P.Double
    pub last_value : ℕ

  -- `fraction < 0.0 || fraction > 1.0`, then `fraction = 0.0`
  unfoldable pub clamp_fraction : P.Double → P.Double
  clamp_fraction fraction =
      if P.lt fraction (P.of_nat 0) || P.lt (P.of_nat 1) fraction then P.of_nat 0 else fraction

  -- The constructor. The member `last_value_` is not written; 0 stands for it.
  unfoldable pub hotspot_new : ℕ → ℕ → P.Double → P.Double → HotspotGenerator
  unfolding clamp_fraction
  hotspot_new lower upper hotset opn =
      let hotset_fraction = clamp_fraction hotset in
      let lower_bound = if ltb upper lower then upper else lower in
      let upper_bound = if ltb upper lower then lower else upper in
      let interval = (upper_bound + 2 ^ 64 - lower_bound + 1) % 2 ^ 64 in
      let hot_interval = P.truncate (P.mul (P.of_nat interval) hotset_fraction) in
      record {
        lower_bound = lower_bound;
        upper_bound = upper_bound;
        hot_interval = hot_interval;
        cold_interval = (interval + 2 ^ 64 - hot_interval) % 2 ^ 64;
        hotset_fraction = hotset_fraction;
        hot_opn_fraction = clamp_fraction opn;
        last_value = 0;
      }

  -- `Next`
  unfoldable pub hotspot_next : HotspotGenerator → P.World → Run ((ℕ × HotspotGenerator) × P.World)
  unfolding modulo
  hotspot_next g w =
      let (u, w') = P.random_double w in
      let (n, w'') = P.random_ull w' in
      if P.lt u g.hot_opn_fraction
      then (do
        r ← modulo n g.hot_interval
        let value = (g.lower_bound + r) % 2 ^ 64
        ok ((value, record g { last_value = value }), w''))
      else (do
        r ← modulo n g.cold_interval
        let value = (g.lower_bound + g.hot_interval + r) % 2 ^ 64
        ok ((value, record g { last_value = value }), w''))
