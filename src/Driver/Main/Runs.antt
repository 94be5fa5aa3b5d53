-- ===== src/Driver/Main/Runs.antt =====
-- How often `main` runs the workload, and how many operations its phases count.
use native.Mathlib.Nat.{suc-mul, mul-div-le}
use ycsb_lsm.Base.{
  codes, Bytes, Run-cases, ℕ, zero, suc, ◌+◌, ◌*◌, ◌/◌, ◌≤◌, ◌≡◌, refl, ap, ◌∙◌, Bool, true, false,
  List, [], ◌∷◌, Bool-cases, inl, inr, Run, ok, fault, through, arith, ok_inj, ◌>>=◌, if◌then◌else◌,
}
use ycsb_lsm.Base.Int.{ℤ}
use ycsb_lsm.Properties.{Properties}
use ycsb_lsm.Platform.{Platform}
use ycsb_lsm.Db.{Db}
use ycsb_lsm.Workload.Init.{init}
use ycsb_lsm.Client.{System, Shared, Client, do_insert, do_transaction}
use ycsb_lsm.Driver.{bit_of, is_skipped}
use ycsb_lsm.Driver.Reports.{
  Requests, request_all, end_round, Ended, load_rounds, run_rounds, delegate_client,
}
use ycsb_lsm.Driver.Main.{Setup, Globals, run_threads, run_phase, clear_statistics, runs_loop}

bit_of-le : (b : Bool) → bit_of b ≤ 1
bit_of-le true = omega arith
bit_of-le false = omega arith

>>=-assoc {ℓ μ ν} :
    {T : Type ℓ} {U : Type μ} {V : Type ν} (first : Run T) (second : T → U) (third : U → V)
    → ((first >>= λ x. ok (second x)) >>= λ y. ok (third y))
      ≡ (first >>= λ x. ok (third (second x)))
>>=-assoc (fault why) second third = refl
>>=-assoc (ok x) second third = refl

module _ (P : Platform) (D : Db) (R : Requests D) (S : System P.World) where
  load_rounds-le :
      (skipratio : ℤ) (n i oks processed : ℕ) (s : Shared P D S) (w : P.World) {r : Ended P D R S}
      → load_rounds P D R S skipratio n i oks processed s w ≡ ok r
      → r.0.0.0 ≤ oks + n
  unfolding load_rounds
  load_rounds-le skipratio zero i oks processed s w run =
      let e = ap (λ (x : Ended P D R S). x.0.0.0) (ok_inj run) in omega (arith, e)
  load_rounds-le skipratio (suc n) i oks processed s w run =
      elim (Bool-cases (is_skipped skipratio i)) [
        | inl skipped ↦
            through (do_insert P D S false s w) _ (rw (load_rounds, skipped) at run) λ r _ run.
              omega (arith, load_rounds-le skipratio n (i + 1) oks processed r.0.1 r.1 run)
        | inr real ↦ through (do_insert P D S true s w) _ (rw (load_rounds, real) at run) λ r _ run.
            through (end_round R true i processed r.0.1.db) _ run λ p _ run.
              omega (arith, bit_of-le r.0.0, load_rounds-le skipratio n (i + 1) _ p.0 _ r.1 run)
      ]

  run_rounds-le :
      (fuel : ℕ) (skipratio : ℤ) (n i oks processed : ℕ) (c : Client P D S) (s : Shared P D S)
      (w : P.World) {r : Ended P D R S}
      → run_rounds P D R S fuel skipratio n i oks processed c s w ≡ ok r
      → r.0.0.0 ≤ oks + n
  unfolding run_rounds
  run_rounds-le fuel skipratio zero i oks processed c s w run =
      let e = ap (λ (x : Ended P D R S). x.0.0.0) (ok_inj run) in omega (arith, e)
  run_rounds-le fuel skipratio (suc n) i oks processed c s w run =
      elim (Bool-cases (is_skipped skipratio i)) [
        | inl skipped ↦
            through (do_transaction P D S fuel false c s w) _ (rw (run_rounds, skipped) at run)
              λ r _ run. omega (
                arith,
                bit_of-le r.0.0.0,
                run_rounds-le fuel skipratio n (i + 1) _ processed r.0.0.1 r.0.1 r.1 run,
              )
        | inr real ↦
            through (do_transaction P D S fuel true c s w) _ (rw (run_rounds, real) at run)
              λ r _ run. through (end_round R false i processed r.0.1.db) _ run λ p _ run. omega (
                arith,
                bit_of-le r.0.0.0,
                run_rounds-le fuel skipratio n (i + 1) _ p.0 r.0.0.1 _ r.1 run,
              )
      ]

  -- A thread counts no more operations than it is given.
  delegate_client-le :
      (fuel t_id : ℕ) (trace : List Bytes) (opens : Bool) (n : ℕ) (is_loading : Bool) (readers : ℤ)
      (warm : Bool) (processed : ℕ) (s : Shared P D S) (w : P.World) {r : Ended P D R S}
      → delegate_client P D R S fuel t_id trace opens n is_loading readers warm processed s w ≡ ok r
      → r.0.0.0 ≤ n
  unfolding delegate_client
  delegate_client-le fuel t_id trace opens n true readers warm processed s w run =
      omega (arith, load_rounds-le s.workload.skipratio_inload n 0 0 processed s w run)
  delegate_client-le fuel t_id trace opens n false readers warm processed s w run =
      through (run_rounds P D R S fuel s.workload.skipratio_forrun n 0 0 processed _ s w) _ run
        λ d ran run.
          through (request_all R (codes "printStats" ∷ codes "printAccessFreq" ∷ []) d.0.1.db)
            (λ db. ok ((d.0.0, record d.0.1 { db = db }), d.1)) run
            λ db _ run.
              let few = run_rounds-le fuel s.workload.skipratio_forrun n 0 0 processed _ s w ran in
              let e = ap (λ (x : Ended P D R S). x.0.0.0) (ok_inj run) in omega (arith, few, e)

  module _ (setup : Setup) where
    run_threads-le :
        (threads n : ℕ) (is_loading : Bool) (readers : ℤ) (thread_id processed sum : ℕ)
        (s : Shared P D S) (w : P.World) {r : ((ℕ × ℕ × ℕ) × Shared P D S) × P.World}
        → run_threads P D R S setup threads n is_loading readers thread_id processed sum s w ≡ ok r
        → (r.0.0.0 ≤ sum + threads * n) × (r.0.0.1 ≡ thread_id + threads)
    unfolding run_threads
    run_threads-le zero n is_loading readers thread_id processed sum s w run =
        let e = ap (λ (x : ((ℕ × ℕ × ℕ) × Shared P D S) × P.World). x.0.0) (ok_inj run) in
        let e₀ = ap (λ (x : ℕ × ℕ × ℕ). x.0) e in
        let e₁ = ap (λ (x : ℕ × ℕ × ℕ). x.1) e in (omega (arith, e₀), omega (arith, e₁))
    run_threads-le (suc threads) n is_loading readers thread_id processed sum s w run =
        through
          (delegate_client P D R S setup.fuel thread_id setup.trace setup.latency_opens n is_loading
            readers false processed s w)
          _ run
          λ d ran run.
            let mine =
              delegate_client-le setup.fuel thread_id setup.trace setup.latency_opens n is_loading
                readers false processed s w ran in
            let (rest, last) =
              run_threads-le threads n is_loading readers (thread_id + 1) d.0.0.1 (sum + d.0.0.0)
                d.0.1 d.1 run in
            (omega (arith, mine, rest, suc-mul threads n), omega (arith, last))

    globals_of : ((ℕ × ℕ × ℕ) × Shared P D S) × P.World → ℕ → D.State → Globals P D R S setup
    globals_of d init_count db = record {
      db = db;
      ops = d.0.1.ops;
      durations = d.0.1.durations;
      thread_id = d.0.0.1;
      processed_ops = d.0.0.2;
      init_count = init_count;
    }

    -- A phase that ends normally counts no more operations than the property asks for, although each thread has the
    -- same share, and it moves `thread_id` on by the number of threads.
    pub run_phase_bounds :
        (props : Properties) (threads total : ℕ) (is_loading : Bool) (readers : ℤ)
        (g : Globals P D R S setup) (w : P.World) {r : (ℕ × Globals P D R S setup × Bool) × P.World}
        → run_phase P D R S setup props threads total is_loading readers g w ≡ ok r
        → (r.0.0 ≤ total) × (r.0.1.thread_id ≡ g.thread_id + threads)
    unfolding run_phase globals_of
    run_phase_bounds props threads total is_loading readers g w run =
        through (init P setup.workload_opens g.init_count props w) _ run λ made _ run.
          through
            (run_threads P D R S setup threads (total / threads) is_loading readers g.thread_id
              g.processed_ops 0 _ made.1)
            _ run
            λ d ran run.
              through
                (if is_loading then ok d.0.1.db else R.do_some_thing (codes "printFP") d.0.1.db)
                (λ db. ok ((d.0.0.0, globals_of d made.0.1 db, made.0.0.adjust_filter), d.1)) run
                λ db _ run.
                  let (few, last) =
                    run_threads-le threads (total / threads) is_loading readers g.thread_id
                      g.processed_ops 0 _ made.1 ran in
                  let e = ok_inj run in
                  let e₀ = ap (λ (x : (ℕ × Globals P D R S setup × Bool) × P.World). x.0.0) e in
                  let e₁ =
                    ap (λ (x : (ℕ × Globals P D R S setup × Bool) × P.World). x.0.1.thread_id) e in
                  (omega (arith, e₀, few, mul-div-le total threads), omega (arith, e₁, last))

    -- The run with number 1 is the last.
    second_run :
        (rounds : ℕ) (props : Properties) (threads total : ℕ) (readers : ℤ)
        (g : Globals P D R S setup) (w : P.World)
        → runs_loop P D R S setup (suc (suc rounds)) 1 props threads total readers g w ≡ (
            run_phase P D R S setup props threads total false readers
              (clear_statistics P D R S setup g)
              w
            >>= λ second. ok ((second.0.0 ∷ [], second.0.1), second.1))
    unfolding runs_loop
    second_run rounds props threads total readers g w =
        let again = clear_statistics P D R S setup g in
        elim (Run-cases (run_phase P D R S setup props threads total false readers again w)) [
          | inl (why, stopped) ↦ rw stopped refl
          | inr (second, ran) ↦ elim (Bool-cases second.0.2) [
            | inl more ↦ rw (ran, more) refl
            | inr no_more ↦ rw (ran, no_more) refl
          ]
        ]

    -- A first run that adjusts the filters is followed by the second.
    first_run :
        (rounds : ℕ) (props : Properties) (threads total : ℕ) (readers : ℤ)
        (g : Globals P D R S setup) (w : P.World)
        (first : (ℕ × Globals P D R S setup × Bool) × P.World)
        → run_phase P D R S setup props threads total false readers g w ≡ ok first
        → first.0.2 ≡ true
        → runs_loop P D R S setup (suc rounds) 0 props threads total readers g w ≡ (
            runs_loop P D R S setup rounds 1 props threads total readers first.0.1 first.1
            >>= λ rest. ok ((first.0.0 ∷ rest.0.0, rest.0.1), rest.1))
    unfolding runs_loop
    first_run rounds props threads total readers g w first ran adjusts =
        rw (runs_loop, ran, adjusts) refl

    -- With three rounds of fuel the loop runs the workload once or, if the workload adjusts the filters, twice, the second
    -- time with cleared statistics and with the numbers of threads going on.
    pub runs_loop_lem :
        (rounds : ℕ) (props : Properties) (threads total : ℕ) (readers : ℤ)
        (g : Globals P D R S setup) (w : P.World)
        → runs_loop P D R S setup (suc (suc (suc rounds))) 0 props threads total readers g w ≡ (
            run_phase P D R S setup props threads total false readers g w >>= λ first.
            if first.0.2
            then (run_phase P D R S setup props threads total false readers
                  (clear_statistics P D R S setup first.0.1)
                  first.1
                >>= λ second. ok ((first.0.0 ∷ second.0.0 ∷ [], second.0.1), second.1))
            else ok ((first.0.0 ∷ [], first.0.1), first.1))
    unfolding runs_loop
    runs_loop_lem rounds props threads total readers g w =
        elim (Run-cases (run_phase P D R S setup props threads total false readers g w)) [
          | inl (why, stopped) ↦ rw (runs_loop, stopped) refl
          | inr (first, ran) ↦ elim (Bool-cases first.0.2) [
            | inr kept ↦ rw (runs_loop, ran, kept) refl
            | inl adjusts ↦
                let again = clear_statistics P D R S setup first.0.1 in
                first_run (suc (suc rounds)) props threads total readers g w first ran adjusts
                ∙ rw (second_run rounds props threads total readers first.0.1 first.1, ran, adjusts)
                    (>>=-assoc
                      (run_phase P D R S setup props threads total false readers again first.1) _ _)
          ]
        ]
