-- ===== src/Driver/Threads/Totals.antt =====
-- What the threads that load still have to do and have counted, in the loop of `DelegateClient` in ycsbc.cc.
use ycsb_lsm.Base.{
  ℕ, zero, suc, ◌+◌, ◌*◌, ◌<◌, ◌≤◌, ◌≡◌, refl, true, false, List, [], ◌∷◌, some, get_elem?, set,
  replicate, arith,
}
use native.Mathlib.Decide.{dec_lt}
use ycsb_lsm.Driver.Threads.{Thread, starting, looping, keyed, built, finished, is_finished}

module _ (weight : Thread → ℕ) where
  unfoldable pub total : List Thread → ℕ
  total [] = 0
  total (t ∷ threads) = weight t + total threads

  pub total-set :
      (threads : List Thread) (i : ℕ) (t t' : Thread)
      → get_elem? threads i ≡ some t
      → total (set threads i t') + weight t ≡ total threads + weight t'
  unfolding total
  total-set [] i t t' h = cc
  total-set (u ∷ threads) zero t t' h = let e : u ≡ t = ground arith in rw e (omega arith)
  total-set (u ∷ threads) (suc i) t t' h = omega (arith, total-set threads i t t' h)

  pub total-replicate : (n : ℕ) (t : Thread) → total (replicate n t) ≡ n * weight t
  unfolding total
  total-replicate zero t = omega arith
  total-replicate (suc n) t = grind (arith, total-replicate n t)

-- What a thread that has finished returned.
abbrev pub returned : Thread → ℕ
returned (finished oks) = oks
returned _ = 0

-- The keys that a thread still takes, the inserts that it counts when it returns, and the steps that it still
-- makes, in a phase of `num_ops` inserts for each thread.
module _ (num_ops : ℕ) where
  abbrev pub to_take : Thread → ℕ
  to_take starting = num_ops
  to_take (looping t_id left i oks) = left
  to_take (keyed t_id left i oks key) = left
  to_take (built t_id left i oks key pairs) = left
  to_take (finished oks) = 0

  abbrev pub to_count : Thread → ℕ
  to_count starting = num_ops
  to_count (looping t_id left i oks) = oks + left
  to_count (keyed t_id left i oks key) = oks + 1 + left
  to_count (built t_id left i oks key pairs) = oks + 1 + left
  to_count (finished oks) = oks

  abbrev pub to_do : Thread → ℕ
  to_do starting = 3 * num_ops + 2
  to_do (looping t_id left i oks) = 3 * left + 1
  to_do (keyed t_id left i oks key) = 3 * left + 3
  to_do (built t_id left i oks key pairs) = 3 * left + 2
  to_do (finished oks) = 0

  -- A thread with steps left has not finished, and one that has not finished has steps left.
  unfinished : (t : Thread) → 0 < to_do t → is_finished t ≡ false
  unfinished starting h = refl
  unfinished (looping t_id left i oks) h = refl
  unfinished (keyed t_id left i oks key) h = refl
  unfinished (built t_id left i oks key pairs) h = refl
  unfinished (finished oks) h = absurd (omega arith)

  take-le-do : (t : Thread) → to_take t ≤ to_do t
  take-le-do starting = omega arith
  take-le-do (looping t_id left i oks) = omega arith
  take-le-do (keyed t_id left i oks key) = omega arith
  take-le-do (built t_id left i oks key pairs) = omega arith
  take-le-do (finished oks) = omega arith

  pub total-take-le-do : (threads : List Thread) → total to_take threads ≤ total to_do threads
  unfolding total
  total-take-le-do [] = omega arith
  total-take-le-do (t ∷ threads) = omega (arith, take-le-do t, total-take-le-do threads)

  finished_of_zero : (t : Thread) → to_do t ≡ 0 → is_finished t ≡ true
  finished_of_zero starting h = absurd (omega arith)
  finished_of_zero (looping t_id left i oks) h = absurd (omega arith)
  finished_of_zero (keyed t_id left i oks key) h = absurd (omega arith)
  finished_of_zero (built t_id left i oks key pairs) h = absurd (omega arith)
  finished_of_zero (finished oks) h = refl

  -- While there are steps left, some thread has not finished.
  pub someone :
      (threads : List Thread)
      → 0 < total to_do threads
      → (i : ℕ) × (t : Thread) × (get_elem? threads i ≡ some t) × (is_finished t ≡ false)
  unfolding total
  someone [] h = absurd (omega arith)
  someone (t ∷ threads) h = elim (dec_lt 0 (to_do t)) [
    | yes here ↦ (0, t, refl, unfinished t here)
    | no later ↦ let (i, u, at, more) = someone threads (omega arith) in (suc i, u, at, more)
  ]

  -- With no steps left, all threads have finished.
  pub everyone :
      (threads : List Thread) (i : ℕ) (t : Thread)
      → total to_do threads ≡ 0
      → get_elem? threads i ≡ some t
      → is_finished t ≡ true
  unfolding total
  everyone [] i t h at = cc
  everyone (u ∷ threads) zero t h at =
      let e : u ≡ t = ground arith in finished_of_zero t (rw (← e) (omega arith))
  everyone (u ∷ threads) (suc i) t h at = everyone threads i t (omega arith) at

  returned-finished : (t : Thread) → to_do t ≡ 0 → returned t ≡ to_count t
  returned-finished starting h = absurd (omega arith)
  returned-finished (looping t_id left i oks) h = absurd (omega arith)
  returned-finished (keyed t_id left i oks key) h = absurd (omega arith)
  returned-finished (built t_id left i oks key pairs) h = absurd (omega arith)
  returned-finished (finished oks) h = refl

  pub total-returned :
      (threads : List Thread)
      → total to_do threads ≡ 0
      → total returned threads ≡ total to_count threads
  unfolding total
  total-returned [] h = refl
  total-returned (t ∷ threads) h =
      omega (arith, returned-finished t (omega arith), total-returned threads (omega arith))
