-- ===== src/Generators/Discrete/Choice.antt =====
-- What `DiscreteGenerator` can return.
use mathlib.Core.Path.{subst}
use ycsb_lsm.Base.{
  ◌≡◌, refl, List, [], ◌∷◌, ◌++◌, some, fault, undefined, Returns, arith, ◌⊎◌, inl, inr, Bool-cases,
  Option-cases,
}
use ycsb_lsm.Platform.{Platform}
use ycsb_lsm.Generators.Discrete.{DiscreteGenerator, discrete_new, add_value, choose, discrete_next}

module _ (P : Platform) {V : Type 0} where
  -- The value stands in the list with some weight.
  pub data Offered (v : V) : List (V × P.Double) → Type 0 where
    here : {weight : P.Double} {rest : List (V × P.Double)} → Offered v ((v, weight) ∷ rest)
    there : {x : V × P.Double} {rest : List (V × P.Double)} → Offered v rest → Offered v (x ∷ rest)

  Offered-append_left :
      {v : V} {xs : List (V × P.Double)} (ys : List (V × P.Double))
      → Offered v xs
      → Offered v (xs ++ ys)
  Offered-append_left ys here = here
  Offered-append_left ys (there o) = there (Offered-append_left ys o)

  Offered-last :
      (v : V) (weight : P.Double) (xs : List (V × P.Double)) → Offered v (xs ++ (v, weight) ∷ [])
  Offered-last v weight [] = here
  Offered-last v weight (x ∷ xs) = there (Offered-last v weight xs)

  -- `last_` has been written, with one of the values.
  pub record IsReady (g : DiscreteGenerator P V) : Type 0 where
    pub default : V
    pub written : g.last ≡ some default
    pub offered : Offered default g.values

  choose-Offered :
      (sum chooser : P.Double) (xs : List (V × P.Double)) (v : V)
      → choose P sum chooser xs ≡ some v
      → Offered v xs
  unfolding choose
  choose-Offered sum chooser [] v h = cc
  choose-Offered sum chooser ((u, weight) ∷ xs) v h =
      elim (Bool-cases (P.lt chooser (P.div weight sum))) [
        | inl e ↦
            let same_value : u ≡ v = ground arith in
            subst (λ z. Offered z ((u, weight) ∷ xs)) same_value here
        | inr e ↦
            there (choose-Offered sum (P.sub chooser (P.div weight sum)) xs v (rw (choose, e) at h))
      ]

  -- `AddValue` on a generator that is new or ready makes it ready.
  pub add_value-IsReady :
      (value : V) (weight : P.Double) (g : DiscreteGenerator P V)
      → (g.values ≡ []) ⊎ IsReady g
      → IsReady (add_value P value weight g)
  unfolding add_value
  add_value-IsReady value weight g h = go g.values refl h
    where
      go :
          (xs : List (V × P.Double))
          → g.values ≡ xs
          → (g.values ≡ []) ⊎ IsReady g
          → IsReady (add_value P value weight g)
      go [] e h = record {
        default = value;
        written = rw e refl;
        offered = Offered-last value weight g.values;
      }
      go (x ∷ xs) e (inl f) = cc
      go (x ∷ xs) e (inr r) = record {
        default = r.default;
        written = rw e r.written;
        offered = Offered-append_left ((value, weight) ∷ []) r.offered;
      }

  -- `Next` of a ready generator returns one of its values, whatever the random number and the
  -- rounding of the weights, and leaves the values and the readiness.
  pub discrete_next-Offered :
      (g : DiscreteGenerator P V) (w : P.World)
      → IsReady g
      → Returns
          (discrete_next P g w)
          λ r. Offered r.0.0 g.values × (r.0.1.values ≡ g.values) × IsReady r.0.1
  unfolding discrete_next
  discrete_next-Offered g w r =
      elim (Option-cases (choose P g.sum (P.random_double w).0 g.values)) [
        | inl e ↦ (
          ((r.default, g), (P.random_double w).1),
          ground (arith, r.written),
          (r.offered, refl, r),
        )
        | inr (v, e) ↦
            let o = choose-Offered g.sum (P.random_double w).0 g.values v e in
            (
              ((v, record g { last = some v }), (P.random_double w).1),
              rw (discrete_next, e) refl,
              (o, refl, record { default = v; written = refl; offered = o }),
            )
      ]

  -- `Next` before the first `AddValue` reads a variable that was never written.
  pub discrete_next-new :
      (w : P.World) → discrete_next P {V = V} (discrete_new P) w ≡ fault undefined
  unfolding discrete_next discrete_new
  discrete_next-new w = refl
