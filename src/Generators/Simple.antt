-- ===== src/Generators/Simple.antt =====
-- core/const_generator.h, core/counter_generator.h and core/uniform_generator.h.
pub mod Counter
use ycsb_lsm.Base.{ℕ, ◌+◌, ◌-◌, ◌%◌, ◌^◌, leb, if◌then◌else◌, Run, ok, fault, undefined}
use ycsb_lsm.Platform.{Platform}

-- `ConstGenerator`
pub record ConstGenerator : Type 0 where
  pub constant : ℕ

unfoldable pub const_next : ConstGenerator → ℕ
const_next g = g.constant

unfoldable pub const_last : ConstGenerator → ℕ
const_last g = g.constant

-- `CounterGenerator`. `fetch_add`, `load` and `store` are atomic, so calls of several threads are a
-- sequence of these steps.
pub record CounterGenerator : Type 0 where
  pub counter : ℕ

unfoldable pub counter_next : CounterGenerator → ℕ × CounterGenerator
counter_next g = (g.counter, record g { counter = (g.counter + 1) % 2 ^ 64 })

unfoldable pub counter_last : CounterGenerator → ℕ
counter_last g = (g.counter + 2 ^ 64 - 1) % 2 ^ 64

unfoldable pub counter_set : CounterGenerator → ℕ → CounterGenerator
counter_set g start = record g { counter = start }

module _ (P : Platform) where
  -- `UniformGenerator`, with the bounds of its distribution
  pub record UniformGenerator : Type 0 where
    pub last_int : ℕ
    pub generator : P.Engine
    pub min : ℕ
    pub max : ℕ

  unfoldable pub uniform_next : UniformGenerator → ℕ × UniformGenerator
  uniform_next g =
      let (n, e) = P.uniform_int g.min g.max g.generator in
      (n, record g { last_int = n; generator = e })

  unfoldable pub uniform_last : UniformGenerator → ℕ
  uniform_last g = g.last_int

  -- The constructor, which draws once. Bounds in the wrong order are undefined behaviour.
  unfoldable pub uniform_new : ℕ → ℕ → Run UniformGenerator
  unfolding uniform_next
  uniform_new min max =
      if leb min max
      then ok
          (uniform_next
            (record { last_int = 0; generator = P.default_engine; min = min; max = max })).1
      else fault undefined
