-- ===== src/Driver/Reports/Silent.antt =====
-- When the requests of ycsbc.cc leave the loops of `DelegateClient` as they are.
use ycsb_lsm.Base.{
  ℕ, zero, suc, ◌+◌, ◌*◌, ◌%◌, ◌/◌, ◌-◌, ◌^◌, ◌≤◌, ◌<◌, ◌≡◌, sym, ap, ◌∙◌, Bool, true, false, not,
  ◌&&◌, ◌==◌, inl, inr, Bool-cases, ok, followed, ◌>>=◌, arith,
}
use ycsb_lsm.Base.Int.{pos}
use ycsb_lsm.Platform.{Platform}
use ycsb_lsm.Db.{Db}
use ycsb_lsm.Client.{System, Client, Shared, do_insert, do_transaction}
use ycsb_lsm.Driver.{is_skipped, bit_of, load_loop, run_loop}
use ycsb_lsm.Driver.Reports.{Requests, end_round, load_rounds, run_rounds}

-- The tens of thousands of rounds before round `i`, not counting the first round.
abbrev pub stages : ℕ → ℕ
stages i = (i - 1) / 10000 * 10000

-- A round that ends ten thousand: its number is the count, and it ends no stage yet.
ten_thousandth :
    (i : ℕ)
    → i < 500000
    → (not (i == 0) && i % 10000 == 0) ≡ true
    → ((stages i + 10000) % 2 ^ 64 ≡ stages (i + 1))
      × (((stages i + 10000) % 2 ^ 64 % 500000 == 0) ≡ false)
ten_thousandth i h e =
    let positive : 0 < i = ground arith in
    let whole : i % 10000 ≡ 0 = ground arith in
    let count : (stages i + 10000) % 2 ^ 64 ≡ i = omega arith in
    let early : (i % 500000 == 0) ≡ false = ground arith in
    (count ∙ omega arith, ap (λ n. n % 500000 == 0) count ∙ early)

-- Other rounds count nothing.
other_round : (i : ℕ) → (not (i == 0) && i % 10000 == 0) ≡ false → stages i ≡ stages (i + 1)
other_round i e = ground arith

module _ {D : Db} (R : Requests D) where
  -- In the first half million of rounds no stage ends.
  end_round-early :
      (is_loading : Bool) (i : ℕ) (db : D.State)
      → i < 500000
      → end_round R is_loading i (stages i) db ≡ ok (stages (i + 1), db)
  unfolding end_round
  end_round-early is_loading i db h = elim (Bool-cases (not (i == 0) && i % 10000 == 0)) [
    | inl e ↦
        let (count, early) = ten_thousandth i h e in
        rw (end_round, e) (rw early (ap (λ n. ok (n, db)) count))
    | inr e ↦ rw (end_round, e) (ap (λ n. ok (n, db)) (other_round i e))
  ]

module _ (P : Platform) (D : Db) (R : Requests D) (S : System P.World) where
  -- With no load skipped and `processed_ops` at the count of the rounds before, a thread that loads up to round
  -- 500000 makes no request: it ends as the loop without requests does, in its fault or with the same
  -- inserts, workload and database, and with its tens of thousands counted.
  pub load_rounds-early :
      (left i oks : ℕ) (s : Shared P D S) (w : P.World)
      → i + left ≤ 500000
      → load_rounds P D R S (pos 0) left i oks (stages i) s w ≡ (do
        ((oks', s'), w') ← load_loop P D S (pos 0) left i oks s w
        ok (((oks', stages (i + left)), s'), w'))
  unfolding load_rounds load_loop is_skipped
  load_rounds-early zero i oks s w h =
      let here : i + 0 ≡ i = omega arith in ap (λ n. ok (((oks, stages n), s), w)) (sym here)
  load_rounds-early (suc left) i oks s w h =
      let number : i + 1 + left ≡ i + suc left = omega arith in
      followed (do_insert P D S true s w) _ _ λ r.
        rw (end_round-early R true i r.0.1.db (omega arith)) (
          load_rounds-early left (i + 1) (oks + bit_of r.0.0) r.0.1 r.1 (omega arith)
          ∙ ap
              (λ n. load_loop P D S (pos 0) left (i + 1) (oks + bit_of r.0.0) r.0.1 r.1 >>= λ q.
                ok (((q.0.0, stages n), q.0.1), q.1))
              number)

  -- The same of a thread that runs transactions.
  pub run_rounds-early :
      (fuel left i oks : ℕ) (c : Client P D S) (s : Shared P D S) (w : P.World)
      → i + left ≤ 500000
      → run_rounds P D R S fuel (pos 0) left i oks (stages i) c s w ≡ (do
        ((oks', s'), w') ← run_loop P D S fuel (pos 0) left i oks c s w
        ok (((oks', stages (i + left)), s'), w'))
  unfolding run_rounds run_loop is_skipped
  run_rounds-early fuel zero i oks c s w h =
      let here : i + 0 ≡ i = omega arith in ap (λ n. ok (((oks, stages n), s), w)) (sym here)
  run_rounds-early fuel (suc left) i oks c s w h =
      let number : i + 1 + left ≡ i + suc left = omega arith in
      followed (do_transaction P D S fuel true c s w) _ _ λ r.
        rw (end_round-early R false i r.0.1.db (omega arith)) (
          run_rounds-early fuel left (i + 1) (oks + bit_of r.0.0.0) r.0.0.1 r.0.1 r.1 (omega arith)
          ∙ ap
              (λ n.
                run_loop P D S fuel (pos 0) left (i + 1) (oks + bit_of r.0.0.0) r.0.0.1 r.0.1 r.1
                >>= λ q. ok (((q.0.0, stages n), q.0.1), q.1))
              number)
