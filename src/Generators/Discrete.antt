-- ===== src/Generators/Discrete.antt =====
-- core/discrete_generator.h: `DiscreteGenerator<Value>`.
pub mod Choice
use ycsb_lsm.Base.{
  Bool, true, false, List, [], ◌∷◌, ◌++◌, Option, none, some, Run, ok, fault, undefined,
}
use ycsb_lsm.Platform.{Platform}

-- `last` is `none` as long as the program has not written `last_`.
pub record DiscreteGenerator (P : Platform) (V : Type 0) : Type 0 where
  pub values : List (V × P.Double)
  pub sum : P.Double
  pub last : Option V

module _ (P : Platform) {V : Type 0} where
  unfoldable pub discrete_new : DiscreteGenerator P V
  discrete_new = record { values = []; sum = P.of_nat 0; last = none }

  -- the test `values_.empty()` of `AddValue`
  unfoldable pub first_value : List (V × P.Double) → V → Option V → Option V
  first_value [] value last = some value
  first_value (x ∷ xs) value last = last

  -- `AddValue`
  unfoldable pub add_value : V → P.Double → DiscreteGenerator P V → DiscreteGenerator P V
  unfolding first_value
  add_value value weight g = record {
    values = g.values ++ (value, weight) ∷ [];
    sum = P.add g.sum weight;
    last = first_value g.values value g.last;
  }

  -- The loop of `Next`; `none` is a loop that ends without a choice.
  unfoldable pub choose : P.Double → P.Double → List (V × P.Double) → Option V
  choose sum chooser [] = none
  choose sum chooser ((v, weight) ∷ rest) =
      let later = choose sum (P.sub chooser (P.div weight sum)) rest in
      elim (P.lt chooser (P.div weight sum)) [ true ↦ some v | false ↦ later ]

  -- `Next`. Without a choice it returns `last_`, which may never have been written.
  unfoldable pub discrete_next :
      DiscreteGenerator P V → P.World → Run ((V × DiscreteGenerator P V) × P.World)
  unfolding choose
  discrete_next g w =
      let (chooser, w') = P.random_double w in
      elim (choose g.sum chooser g.values) [
        | some v ↦ ok ((v, record g { last = some v }), w')
        | none ↦ elim g.last [ some v ↦ ok ((v, g), w') | none ↦ fault undefined ]
      ]
