-- ===== src/Workload/Transactions.antt =====
-- Which records the keys of transactions name.
use ycsb_lsm.Base.{ℕ, suc, ◌+◌, ◌-◌, ◌*◌, ◌%◌, ◌^◌, ◌≤◌, ◌<◌, ◌≡◌, ◌≢◌, refl, true, Returns, arith}
use mathlib.Core.Path.{subst}
use ycsb_lsm.Base.Int.{is_zero, pos_part}
use ycsb_lsm.Platform.{Platform, IsStandard}
use ycsb_lsm.Generators.Simple.{counter_last}
use ycsb_lsm.Generators.Any.Bounds.{StaysIn}
use ycsb_lsm.Workload.{CoreWorkload, build_key_name, draw_key, zero_lookup, next_transaction_key}
use ycsb_lsm.Workload.KeyName.{build_key_name_inj}
use ycsb_lsm.Workload.Keys.{draw_key-StaysIn, zero_lookup_lem}

module _ (P : Platform) where
  -- A workload over `record_count` records, whose requests are confined to them.
  pub record IsConfined (wl : CoreWorkload P) : Type 0 where
    pub some_records : 0 < wl.record_count
    pub last_key : wl.insert_key_sequence.counter ≡ wl.record_count
    pub chooser : StaysIn P 0 (wl.record_count - 1) wl.key_chooser
    pub fits : wl.read_key_start + 2 * wl.record_count ≤ 2 ^ 64

  drawn_key :
      IsStandard P
      → (fuel : ℕ) (wl : CoreWorkload P) (w : P.World) → IsConfined wl
      → Returns (draw_key P (suc fuel) wl.insert_key_sequence wl.key_chooser w) λ r.
        (r.0.0 < wl.record_count)
        × ((r.0.0 + wl.read_key_start) % 2 ^ 64 ≡ wl.read_key_start + r.0.0)
        × IsConfined (record wl { key_chooser = r.0.1 })
  drawn_key std fuel wl w c =
      let last : wl.record_count - 1 ≤ counter_last wl.insert_key_sequence =
        unfold counter_last in omega (arith, c.some_records, c.last_key, c.fits) in
      let (r, run, (_, hi, s)) =
        draw_key-StaysIn P std fuel 0 (wl.record_count - 1) wl.insert_key_sequence wl.key_chooser w
          c.chooser last in
      (
        r,
        run,
        (
          omega (arith, c.some_records),
          omega (arith, c.some_records, c.fits),
          record {
            some_records = c.some_records;
            last_key = c.last_key;
            chooser = s;
            fits = c.fits;
          },
        ),
      )

  -- Without zero lookups the key of a transaction names one of the records from `readkeystart` on,
  -- found with one draw. Of the workload only the key chooser changes, and it stays confined.
  pub next_transaction_key_hits :
      IsStandard P
      → (fuel : ℕ) (wl : CoreWorkload P) (w : P.World) → IsConfined wl
      → is_zero wl.zerolookuprate ≡ true
      → Returns (next_transaction_key P (suc fuel) wl w) λ r.
        ((i : ℕ) × (i < wl.record_count)
          × (r.0.0 ≡ build_key_name wl.ordered_inserts (wl.read_key_start + i)))
        × (r.0.1 ≡ record wl { key_chooser = r.0.1.key_chooser })
        × IsConfined r.0.1
  unfolding next_transaction_key
  next_transaction_key_hits std fuel wl w c no_misses =
      let (((n, g), w'), run, (below, e, c')) = drawn_key std fuel wl w c in
      let z =
        (zero_lookup_lem P wl.zerolookuprate wl.record_count (wl.read_key_start + n) w').0
          no_misses in
      (
        (
          (
            build_key_name wl.ordered_inserts (wl.read_key_start + n),
            record wl { key_chooser = g },
          ),
          w',
        ),
        rw (run, e, z) refl,
        ((n, below, refl), refl, c'),
      )

  -- With a zero lookup rate of a hundred percent the key of a transaction is, for ordered inserts,
  -- the name of none of the records from `readkeystart` on.
  pub next_transaction_key_misses :
      IsStandard P
      → (fuel : ℕ) (wl : CoreWorkload P) (w : P.World) → IsConfined wl
      → wl.ordered_inserts ≡ true
      → 100 ≤ pos_part wl.zerolookuprate
      → Returns (next_transaction_key P (suc fuel) wl w) λ r.
        ((j : ℕ) → j < wl.record_count → r.0.0 ≢ build_key_name true (wl.read_key_start + j))
        × IsConfined r.0.1
  unfolding next_transaction_key
  next_transaction_key_misses std fuel wl w c ordered rate =
      let (((n, g), w'), run, (below, e, c')) = drawn_key std fuel wl w c in
      let start = wl.read_key_start + n in
      let z = (zero_lookup_lem P wl.zerolookuprate wl.record_count start w').1 rate in
      let past = (start + wl.record_count) % 2 ^ 64 in
      let exact : past ≡ start + wl.record_count = omega (arith, c.fits) in
      (
        (
          (build_key_name wl.ordered_inserts past, record wl { key_chooser = g }),
          (zero_lookup P wl.zerolookuprate wl.record_count start w').1,
        ),
        rw (run, e, z) refl,
        (
          λ j below_j same_name.
              let same_number =
                build_key_name_inj past (wl.read_key_start + j) (omega arith)
                  (omega (arith, c.fits))
                  (subst (λ b. build_key_name b past ≡ build_key_name true (wl.read_key_start + j))
                    ordered same_name) in
              omega arith,
          c',
        ),
      )
