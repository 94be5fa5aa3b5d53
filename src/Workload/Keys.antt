-- ===== src/Workload/Keys.antt =====
-- The keys of a workload: those that are loaded, and those that transactions ask for.
use ycsb_lsm.Base.{
  ℕ, zero, suc, ◌+◌, ◌%◌, ◌^◌, ◌≤◌, ◌<◌, ◌≡◌, ◌≢◌, refl, true, false, List, [], ◌∷◌, some, Bytes,
  ltb, get_elem?, ok, Returns, Bool-cases, inl, inr, arith, >>=-eq-ok,
}
use ycsb_lsm.Base.Int.{ℤ, is_zero, pos_part}
use ycsb_lsm.Platform.{Platform, IsStandard}
use ycsb_lsm.Generators.Simple.{CounterGenerator, counter_next, counter_last}
use ycsb_lsm.Generators.Any.{Generator, generator_next}
use ycsb_lsm.Generators.Any.Bounds.{StaysIn, generator_next-StaysIn}
use ycsb_lsm.Workload.{CoreWorkload, build_key_name, next_sequence_key, draw_key, zero_lookup}
use ycsb_lsm.Workload.KeyName.{build_key_name_inj}

module _ (P : Platform) where
  -- The names of `n` calls of `NextSequenceKey`, and the workload afterwards.
  unfoldable pub sequence_keys : ℕ → CoreWorkload P → List Bytes × CoreWorkload P
  sequence_keys zero wl = ([], wl)
  sequence_keys (suc n) wl =
      let (k, wl') = next_sequence_key P wl in
      let (ks, wl'') = sequence_keys n wl' in (k ∷ ks, wl'')

  -- The `i`-th key that is loaded is the name of the number `i` after the start.
  pub sequence_keys_at :
      (n i : ℕ) (wl : CoreWorkload P)
      → i < n
      → wl.key_generator.counter < 2 ^ 64
      → get_elem? (sequence_keys n wl).0 i
        ≡ some (build_key_name wl.ordered_inserts ((wl.key_generator.counter + i) % 2 ^ 64))
  unfolding sequence_keys next_sequence_key counter_next
  sequence_keys_at zero i wl p q = absurd (omega arith)
  sequence_keys_at (suc n) zero wl p q =
      let e : (wl.key_generator.counter + 0) % 2 ^ 64 ≡ wl.key_generator.counter = omega arith in
      simp e refl
  sequence_keys_at (suc n) (suc i) wl p q =
      let next = (next_sequence_key P wl).1 in
      let e : (wl.key_generator.counter + suc i) % 2 ^ 64
          ≡ (next.key_generator.counter + i) % 2 ^ 64 =
        omega arith in
      simp e (sequence_keys_at n i next (omega arith) (omega arith))

  -- With ordered inserts the keys of at most 2 ^ 64 loads are all different.
  pub sequence_keys_distinct :
      (n i j : ℕ) (k : Bytes) (wl : CoreWorkload P)
      → n ≤ 2 ^ 64
      → wl.key_generator.counter < 2 ^ 64
      → wl.ordered_inserts ≡ true
      → i < j
      → j < n
      → get_elem? (sequence_keys n wl).0 i ≡ some k
      → get_elem? (sequence_keys n wl).0 j ≢ some k
  sequence_keys_distinct n i j k wl small q ordered r s e f =
      let a = sequence_keys_at n i wl (omega arith) q in
      let b = sequence_keys_at n j wl s q in
      let same_name : build_key_name wl.ordered_inserts ((wl.key_generator.counter + i) % 2 ^ 64)
          ≡ build_key_name wl.ordered_inserts ((wl.key_generator.counter + j) % 2 ^ 64) =
        cc (a, b) in
      let same_number =
        build_key_name_inj ((wl.key_generator.counter + i) % 2 ^ 64)
          ((wl.key_generator.counter + j) % 2 ^ 64) (omega arith) (omega arith)
          (rw ordered at same_name) in
      omega arith

  -- Whatever the generator, a key number that the loop returns is no larger than the last key.
  pub draw_key-le :
      (fuel : ℕ) (seq : CounterGenerator) (g : Generator P) (w : P.World)
      → {r : (ℕ × Generator P) × P.World} → draw_key P fuel seq g w ≡ ok r
      → r.0.0 ≤ counter_last seq
  unfolding draw_key
  draw_key-le zero seq g w e = cc
  draw_key-le (suc fuel) seq g w {r} e =
      let (((k, g'), w'), _, rest) = >>=-eq-ok (generator_next P seq g w) _ e in
      elim (Bool-cases (ltb (counter_last seq) k)) [
        | inl big ↦ draw_key-le fuel seq g' w' (rw big at rest)
        | inr small ↦
            let same_draw : ok ((k, g'), w') ≡ ok r = rw small at rest in
            let drawn : k ≡ r.0.0 = ground arith in ground arith
      ]

  -- A generator that is confined to the keys up to the last one needs one draw.
  pub draw_key-StaysIn :
      IsStandard P
      → (fuel lo hi : ℕ) (seq : CounterGenerator) (g : Generator P) (w : P.World)
      → StaysIn P lo hi g
      → hi ≤ counter_last seq
      → Returns
          (draw_key P (suc fuel) seq g w)
          λ r. (lo ≤ r.0.0) × (r.0.0 ≤ hi) × StaysIn P lo hi r.0.1
  unfolding draw_key
  draw_key-StaysIn std fuel lo hi seq g w s h =
      let (((k, g'), w'), run, (a, b, s')) = generator_next-StaysIn P std seq lo hi g w s in
      let small : ltb (counter_last seq) k ≡ false = ground arith in
      (((k, g'), w'), rw (run, small) refl, (a, b, s'))

  -- The number that a transaction's key is made of: a record that is loaded, or, at a zero lookup,
  -- one as far past the records.
  pub zero_lookup_lem :
      (rate : ℤ) (record_count key_num : ℕ) (w : P.World)
      → (is_zero rate ≡ true → zero_lookup P rate record_count key_num w ≡ (key_num, w))
        × (100 ≤ pos_part rate
            → (zero_lookup P rate record_count key_num w).0 ≡ (key_num + record_count) % 2 ^ 64)
  unfolding zero_lookup
  zero_lookup_lem rate record_count key_num w = (λ h. rw h refl, λ h. ground arith)
