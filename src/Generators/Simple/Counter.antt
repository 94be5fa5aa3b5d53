-- ===== src/Generators/Simple/Counter.antt =====
-- The numbers that a `CounterGenerator` hands out, and the range of a `UniformGenerator`.
use ycsb_lsm.Base.{
  ℕ, zero, suc, ◌+◌, ◌-◌, ◌%◌, ◌^◌, ◌≤◌, ◌<◌, ◌≡◌, ◌≢◌, refl, List, [], ◌∷◌, some, get_elem?, arith,
  fault, undefined, leb, Returns, true, false,
}
use ycsb_lsm.Platform.{Platform, IsStandard}
use ycsb_lsm.Generators.Simple.{
  CounterGenerator, counter_next, counter_last, UniformGenerator, uniform_next, uniform_new,
}

-- The results of `n` calls of `Next`, whichever threads make them, and the counter afterwards.
unfoldable pub draws : ℕ → CounterGenerator → List ℕ × CounterGenerator
draws zero g = ([], g)
draws (suc n) g = let (v, g') = counter_next g in let (vs, g'') = draws n g' in (v ∷ vs, g'')

draws_at :
    (n i : ℕ) (g : CounterGenerator)
    → i < n
    → g.counter < 2 ^ 64
    → get_elem? (draws n g).0 i ≡ some ((g.counter + i) % 2 ^ 64)
unfolding draws counter_next
draws_at zero i g p q = absurd (omega arith)
draws_at (suc n) zero g p q =
    let e : (g.counter + 0) % 2 ^ 64 ≡ g.counter = omega arith in rw e refl
draws_at (suc n) (suc i) g p q =
    let g' : CounterGenerator = record g { counter = (g.counter + 1) % 2 ^ 64 } in
    let e : (g.counter + suc i) % 2 ^ 64 ≡ (g'.counter + i) % 2 ^ 64 = omega arith in
    rw e (draws_at n i g' (omega arith) (omega arith))

draws_counter :
    (n : ℕ) (g : CounterGenerator)
    → g.counter < 2 ^ 64
    → (draws n g).1.counter ≡ (g.counter + n) % 2 ^ 64
unfolding draws counter_next
draws_counter zero g q = omega arith
draws_counter (suc n) g q =
    omega (arith, draws_counter n (record g { counter = (g.counter + 1) % 2 ^ 64 }) (omega arith))

-- A sequence of calls of `Next` hands out consecutive numbers from the counter
-- on, and `Last` is then the number handed out last.
pub draws_lem :
    (n i : ℕ) (g : CounterGenerator)
    → i < n
    → g.counter < 2 ^ 64
    → (get_elem? (draws n g).0 i ≡ some ((g.counter + i) % 2 ^ 64))
      × (get_elem? (draws n g).0 (n - 1) ≡ some (counter_last (draws n g).1))
unfolding counter_last
draws_lem n i g p q =
    let last = draws_at n (n - 1) g (omega arith) q in
    let c = draws_counter n g q in
    let e : (g.counter + (n - 1)) % 2 ^ 64 ≡ ((g.counter + n) % 2 ^ 64 + 2 ^ 64 - 1) % 2 ^ 64 =
      omega arith in
    (draws_at n i g p q, rw (c, ← e) last)

-- Of at most 2 ^ 64 calls of `Next` no two return the same number.
pub draws_distinct :
    (n i j v : ℕ) (g : CounterGenerator)
    → n ≤ 2 ^ 64
    → g.counter < 2 ^ 64
    → i < j
    → j < n
    → get_elem? (draws n g).0 i ≡ some v
    → get_elem? (draws n g).0 j ≢ some v
draws_distinct n i j v g small q p r e f =
    let a : (g.counter + i) % 2 ^ 64 ≡ v = cc (draws_at n i g (omega arith) q) in
    let b : (g.counter + j) % 2 ^ 64 ≡ v = cc (draws_at n j g r q) in omega arith

module _ (P : Platform) (standard : IsStandard P) where
  -- `Next` of a uniform generator stays between its bounds, which it keeps.
  pub uniform_next_bounds :
      (g : UniformGenerator P)
      → g.min ≤ g.max
      → (g.min ≤ (uniform_next P g).0)
        × ((uniform_next P g).0 ≤ g.max)
        × ((uniform_next P g).1.min ≡ g.min)
        × ((uniform_next P g).1.max ≡ g.max)
  unfolding uniform_next
  uniform_next_bounds g h =
      let b = standard.uniform_int_bounds g.min g.max g.generator h in (b.0, b.1, refl, refl)

-- The constructor of a uniform generator succeeds exactly on bounds in order, and keeps them.
pub uniform_new_lem :
    (P : Platform) (min max : ℕ)
    → ((min ≤ max) → Returns (uniform_new P min max) (λ g. (g.min ≡ min) × (g.max ≡ max)))
      × (max < min → uniform_new P min max ≡ fault undefined)
unfolding uniform_new uniform_next
uniform_new_lem P min max = (
  λ h.
      let e : leb min max ≡ true = ground arith in
      (
        (uniform_next P
            (record { last_int = 0; generator = P.default_engine; min = min; max = max })).1,
        rw e refl,
        (refl, refl),
      ),
  λ h. let e : leb min max ≡ false = ground arith in rw e refl,
)
