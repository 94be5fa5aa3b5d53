-- ===== src/Generators/Zipfian/Zeta.antt =====
-- The zeta constant that a zipfian generator keeps is computed step by step, and is the same as if
-- it were computed at once.
use ycsb_lsm.Base.{
  ℕ, zero, suc, ◌+◌, ◌-◌, ◌≤◌, ◌<◌, ◌≡◌, refl, ap, ◌∙◌, inl, inr, true, ltb, leb, Returns,
  Bool-cases, arith,
}
use ycsb_lsm.Platform.{Platform}
use ycsb_lsm.Generators.Zipfian.{
  k_max_num_items, ZipfianGenerator, zeta_loop, zeta_from, zeta, recompute, eta_of, zipfian_value,
  zipfian_next_of,
}

module _ (P : Platform) where
  zeta_loop-add :
      (theta : P.Double) (m n i : ℕ) (z : P.Double)
      → zeta_loop P theta (m + n) i z ≡ zeta_loop P theta n (i + m) (zeta_loop P theta m i z)
  unfolding zeta_loop
  zeta_loop-add theta zero n i z =
      let a : 0 + n ≡ n = omega arith in let b : i + 0 ≡ i = omega arith in rw (a, b) refl
  zeta_loop-add theta (suc m) n i z =
      let a : suc m + n ≡ suc (m + n) = omega arith in
      let b : i + suc m ≡ i + 1 + m = omega arith in rw (a, b) (zeta_loop-add theta m n (i + 1) _)

  -- Adding the terms up to `b` to the sum up to `a` gives the sum up to `b`, with the same
  -- roundings.
  pub zeta_from-zeta :
      (theta : P.Double) (a b : ℕ) → a ≤ b → zeta_from P a b theta (zeta P a theta) ≡ zeta P b theta
  unfolding zeta zeta_from
  zeta_from-zeta theta a b h =
      let e : b ≡ a + (b - a) = omega arith in
      let zero_a : a - 0 ≡ a = omega arith in
      let zero_b : b - 0 ≡ a + (b - a) = omega arith in
      let one : 0 + 1 + a ≡ a + 1 = omega arith in
      rw (zero_a, zero_b, zeta_loop-add theta a (b - a) (0 + 1) (P.of_nat 0), one) refl

  -- `zeta_n_` belongs to `n_for_zeta_` items, which are at least two.
  pub record IsConsistent (g : ZipfianGenerator P) : Type 0 where
    pub zeta_n : g.zeta_n ≡ zeta P g.n_for_zeta g.theta
    pub items : 2 ≤ g.n_for_zeta

  -- What a generator never changes once it is constructed.
  abbrev pub SameShape : ZipfianGenerator P → ZipfianGenerator P → Type 0
  SameShape g g' =
      (g'.num_items ≡ g.num_items)
      × (g'.base ≡ g.base)
      × (g'.theta ≡ g.theta)
      × (g'.alpha ≡ g.alpha)
      × (g'.zeta_2 ≡ g.zeta_2)

  recompute-IsConsistent :
      (num : ℕ) (g : ZipfianGenerator P)
      → IsConsistent g
      → Returns (recompute P num g) λ g'.
        IsConsistent g' × SameShape g g' × (num ≤ g'.n_for_zeta) × (g.n_for_zeta ≤ g'.n_for_zeta)
  unfolding recompute
  recompute-IsConsistent num g c = elim (Bool-cases (ltb g.n_for_zeta num)) [
    | inr e ↦
        (g, rw (recompute, e) refl, (c, (refl, refl, refl, refl, refl), ground arith, omega arith))
    | inl e ↦
        let ordered : leb g.n_for_zeta num ≡ true = ground arith in
        let z = zeta_from P g.n_for_zeta num g.theta g.zeta_n in
        let raised : ZipfianGenerator P = record g { zeta_n = z; n_for_zeta = num } in
        (
          record raised { eta = eta_of P raised },
          rw (recompute, e, ordered) refl,
          (
            record {
              zeta_n =
                  ap (zeta_from P g.n_for_zeta num g.theta) c.zeta_n
                  ∙ zeta_from-zeta g.theta g.n_for_zeta num (ground arith);
              items = ground (arith, c.items);
            },
            (refl, refl, refl, refl, refl),
            omega arith,
            ground arith,
          ),
        )
  ]

  -- `Next(num)` with at least two and not too many items returns, keeps the sum and the number of
  -- items that it was computed for in step, and covers `num`.
  pub zipfian_next_of-IsConsistent :
      (num : ℕ) (g : ZipfianGenerator P) (w : P.World)
      → 2 ≤ num
      → num < k_max_num_items
      → IsConsistent g
      → Returns (zipfian_next_of P num g w) λ r.
        IsConsistent r.0.1
        × SameShape g r.0.1
        × (num ≤ r.0.1.n_for_zeta)
        × (r.0.1.last_value ≡ r.0.0)
  unfolding zipfian_next_of
  zipfian_next_of-IsConsistent num g w lo hi c =
      let a : leb 2 num ≡ true = ground arith in
      let b : ltb num k_max_num_items ≡ true = ground arith in
      let (g', run, (c', shape, covers, _)) = recompute-IsConsistent num g c in
      let v = zipfian_value P num (P.random_double w).0 g' in
      (
        ((v, record g' { last_value = v }), (P.random_double w).1),
        rw (zipfian_next_of, a, b, run) refl,
        (record { zeta_n = c'.zeta_n; items = c'.items }, shape, covers, refl),
      )
