-- ===== src/Generators/Zipfian/Next.antt =====
-- When the zipfian generators can be constructed, and the range of those built on them.
use ycsb_lsm.Base.{
  ℕ, ◌+◌, ◌-◌, ◌%◌, ◌^◌, ◌≤◌, ◌<◌, ◌≡◌, refl, true, false, ltb, leb, fault, assertion, Returns,
  arith, ◌==◌, inl, inr, ◌⊎◌,
}
use ycsb_lsm.Utils.{fnv_hash64}
use ycsb_lsm.Platform.{Platform}
use ycsb_lsm.Generators.Simple.{CounterGenerator, counter_last}
use ycsb_lsm.Generators.Hotspot.{modulo}
use ycsb_lsm.Generators.Zipfian.{
  k_max_num_items, ZipfianGenerator, zeta, zeta_from, raise_zeta, eta_of, zipfian_new, zipfian_next,
  zipfian_start, zipfian_of_items, ScrambledZipfianGenerator, scrambled_new, scrambled_next,
  SkewedLatestGenerator, latest_next,
}
use ycsb_lsm.Generators.Zipfian.Zeta.{IsConsistent, zipfian_next_of-IsConsistent}

-- The numbers of items that the constructor's assertion admits.
abbrev pub Admitted : ℕ → Type 0
Admitted n = (2 ≤ n) × (n < k_max_num_items)

module _ (P : Platform) where
  -- The constructor returns a consistent generator for every admitted number of items.
  pub zipfian_new-IsConsistent :
      (min max : ℕ) (zipfian_const : P.Double) (w : P.World)
      → Admitted ((max + 2 ^ 64 - min + 1) % 2 ^ 64)
      → Returns (zipfian_new P min max zipfian_const w) λ r.
        IsConsistent P r.0
        × (r.0.num_items ≡ (max + 2 ^ 64 - min + 1) % 2 ^ 64)
        × (r.0.base ≡ min)
        × (r.0.theta ≡ zipfian_const)
  unfolding zipfian_new zipfian_start zipfian_next raise_zeta
  zipfian_new-IsConsistent min max c w (lo, hi) =
      let n = (max + 2 ^ 64 - min + 1) % 2 ^ 64 in
      let a : leb 2 n ≡ true = ground arith in
      let b : ltb n k_max_num_items ≡ true = ground arith in
      let z : leb 0 n ≡ true = ground arith in
      let g = zipfian_start P min max c in
      let raised : ZipfianGenerator P = record g {
        zeta_n = zeta_from P 0 n c (P.of_nat 0);
        n_for_zeta = n;
      } in
      let ready : ZipfianGenerator P = record raised { eta = eta_of P raised } in
      let consistent : IsConsistent P ready = record { zeta_n = unfold zeta in refl; items = lo } in
      let (((v, g''), w'), run, (c', shape, _, _)) =
        zipfian_next_of-IsConsistent P n ready w lo hi consistent in
      ((g'', w'), rw (a, b, z, run) refl, (c', shape.0, shape.1, shape.2))

  -- For any other number of items the assertion in the constructor fails.
  pub zipfian_new_assertion :
      (min max : ℕ) (zipfian_const : P.Double) (w : P.World)
      → ((max + 2 ^ 64 - min + 1) % 2 ^ 64 < 2)
        ⊎ (k_max_num_items ≤ (max + 2 ^ 64 - min + 1) % 2 ^ 64)
      → zipfian_new P min max zipfian_const w ≡ fault assertion
  unfolding zipfian_new zipfian_start
  zipfian_new_assertion min max c w (inl h) =
      let a : leb 2 ((max + 2 ^ 64 - min + 1) % 2 ^ 64) ≡ false = ground arith in rw a refl
  zipfian_new_assertion min max c w (inr h) =
      let n = (max + 2 ^ 64 - min + 1) % 2 ^ 64 in
      let a : leb 2 n ≡ true = ground arith in
      let b : ltb n k_max_num_items ≡ false = ground arith in rw (a, b) refl

  -- `ZipfianGenerator(num_items, zipfian_const)` with fewer than two items fails its assertion,
  -- whatever the constant.
  pub zipfian_of_items_assertion :
      (num_items : ℕ) (zipfian_const : P.Double) (w : P.World)
      → num_items < 2
      → zipfian_of_items P num_items zipfian_const w ≡ fault assertion
  unfolding zipfian_of_items
  zipfian_of_items_assertion n c w h =
      zipfian_new_assertion 0 ((n + 2 ^ 64 - 1) % 2 ^ 64) c w (inl (omega arith))

  -- A scrambled generator is ready when its items fit 64 bits and its zipfian generator is.
  pub record IsScrambled (g : ScrambledZipfianGenerator P) : Type 0 where
    pub items : 0 < g.num_items
    pub fits : g.base + g.num_items ≤ 2 ^ 64
    pub consistent : IsConsistent P g.generator
    pub admitted : Admitted g.generator.num_items

  -- `ScrambledZipfianGenerator::Next` returns a number of its keyspace, and stays ready.
  pub scrambled_next-IsScrambled :
      (g : ScrambledZipfianGenerator P) (w : P.World)
      → IsScrambled g
      → Returns (scrambled_next P g w) λ r.
        (g.base ≤ r.0.0)
        × (r.0.0 < g.base + g.num_items)
        × IsScrambled r.0.1
        × (r.0.1.num_items ≡ g.num_items)
        × (r.0.1.base ≡ g.base)
  unfolding scrambled_next zipfian_next modulo
  scrambled_next-IsScrambled g w s =
      let (((value, z), w'), run, (c, shape, _, _)) =
        zipfian_next_of-IsConsistent P g.generator.num_items g.generator w s.admitted.0 s.admitted.1
          s.consistent in
      let nonzero : (g.num_items == 0) ≡ false = ground (arith, s.items) in
      let v = (g.base + fnv_hash64 value % g.num_items) % 2 ^ 64 in
      let below : fnv_hash64 value % g.num_items < g.num_items = omega (arith, s.items) in
      let exact : v ≡ g.base + fnv_hash64 value % g.num_items = omega (arith, s.fits) in
      (
        ((v, record g { generator = z; last = v }), w'),
        rw (run, nonzero) refl,
        (
          omega arith,
          omega arith,
          record {
            items = s.items;
            fits = s.fits;
            consistent = c;
            admitted = (rw shape.0 s.admitted.0, rw shape.0 s.admitted.1);
          },
          refl,
          refl,
        ),
      )

  -- The constructor makes a ready generator over the keys below the number of items.
  pub scrambled_new-IsScrambled :
      (n : ℕ) (zipfian_const : P.Double) (w : P.World)
      → Admitted n
      → Returns
          (scrambled_new P n zipfian_const w)
          λ r. IsScrambled r.0 × (r.0.base ≡ 0) × (r.0.num_items ≡ n)
  unfolding scrambled_new
  scrambled_new-IsScrambled n c w (lo, hi) =
      let max = (n + 2 ^ 64 - 1) % 2 ^ 64 in
      let e : (max + 2 ^ 64 - 0 + 1) % 2 ^ 64 ≡ n = omega arith in
      let items : (max + 1) % 2 ^ 64 ≡ n = omega arith in
      let ((g, w'), run, (k, num, _, _)) = zipfian_new-IsConsistent 0 max c w (rw e lo, rw e hi) in
      (
        (record { base = 0; num_items = (max + 1) % 2 ^ 64; generator = g; last = 0 }, w'),
        rw run refl,
        (
          record {
            items = rw items (omega arith);
            fits = rw items (omega arith);
            consistent = k;
            admitted = (rw (num, e) lo, rw (num, e) hi);
          },
          refl,
          items,
        ),
      )

  -- `SkewedLatestGenerator::Next` returns the distance below the newest key that the zipfian
  -- generator gives for as many items as there are keys, and keeps its zipfian generator
  -- consistent.
  pub latest_next_lem :
      (basis : CounterGenerator) (g : SkewedLatestGenerator P) (w : P.World)
      → Admitted (counter_last basis)
      → IsConsistent P g.zipfian
      → Returns (latest_next P basis g w) λ r.
        IsConsistent P r.0.1.zipfian
        × (r.0.0 ≡ (counter_last basis + 2 ^ 64 - r.0.1.zipfian.last_value) % 2 ^ 64)
        × (counter_last basis ≤ r.0.1.zipfian.n_for_zeta)
  unfolding latest_next
  latest_next_lem basis g w (lo, hi) c =
      let max = counter_last basis in
      let (((z, zipfian), w'), run, (c', _, covers, last)) =
        zipfian_next_of-IsConsistent P max g.zipfian w lo hi c in
      let v = (max + 2 ^ 64 - z) % 2 ^ 64 in
      (((v, record { zipfian = zipfian; last = v }), w'), rw run refl, (c', rw last refl, covers))
