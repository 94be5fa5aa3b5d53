-- ===== src/Driver/Threads/Alone.antt =====
-- A thread of ycsbc.cc that is picked alone does what the loop of `DelegateClient` does in one go.
use mathlib.Core.Path.{fun_ext}
use ycsb_lsm.Base.{
  ℕ, zero, suc, ◌+◌, ◌≡◌, refl, sym, ap, ◌∙◌, not, List, [], ◌∷◌, some, get_elem?, set, inl, inr,
  if◌then◌else◌, Bool-cases, Run, ok, Run-cases, followed, ◌>>=◌, arith,
}
use ycsb_lsm.Base.Int.{ℤ}
use ycsb_lsm.Platform.{Platform}
use ycsb_lsm.Db.{Db}
use ycsb_lsm.Workload.{next_table, next_sequence_key, build_values}
use ycsb_lsm.Client.{System, Shared, do_insert}
use ycsb_lsm.Driver.{is_skipped, bit_of, load_loop}
use ycsb_lsm.Driver.Threads.{Thread, looping, keyed, built, Memory, Phase, move, pick, interleave}
use ycsb_lsm.Driver.Threads.Claims.{put_same, get_elem?-set}

-- Three steps of one thread for each round.
unfoldable pub turns : ℕ → ℕ → List ℕ
turns zero place = []
turns (suc left) place = place ∷ place ∷ place ∷ turns left place

set-set {ℓ} : {A : Type ℓ} (xs : List A) (i : ℕ) (x y : A) → set (set xs i x) i y ≡ set xs i y
set-set [] i x y = refl
set-set (a ∷ xs) zero x y = refl
set-set (a ∷ xs) (suc i) x y = ap (λ r. a ∷ r) (set-set xs i x y)

set-same {ℓ} :
    {A : Type ℓ} (xs : List A) (i : ℕ) (x : A) → get_elem? xs i ≡ some x → set xs i x ≡ xs
set-same [] i x h = refl
set-same (a ∷ xs) zero x h = ground arith
set-same (a ∷ xs) (suc i) x h = ap (λ r. a ∷ r) (set-same xs i x h)

get_elem?-set_self {ℓ} :
    {A : Type ℓ} (xs : List A) (i : ℕ) (x y : A)
    → get_elem? xs i ≡ some x
    → get_elem? (set xs i y) i ≡ some y
get_elem?-set_self xs i x y h = get_elem?-set xs i i x y h ∙ put_same (get_elem? xs) i (some y)

module _ (P : Platform) (D : Db) (S : System P.World) (skipratio_inload : ℤ) (num_ops : ℕ) where
  abbrev LoadPhase : Type 0
  LoadPhase = Phase P D skipratio_inload num_ops

  -- The phase in which one thread has moved.
  abbrev with_thread : List Thread → ℕ → Thread → Memory P D → LoadPhase
  with_thread threads place t m = record { threads = set threads place t; memory = m }

  pick_at :
      (threads : List Thread) (place : ℕ) (t : Thread) (m : Memory P D)
      → get_elem? threads place ≡ some t
      → pick P D skipratio_inload num_ops place (record { threads = threads; memory = m }) ≡ (do
        (t', m') ← move P D skipratio_inload num_ops t m
        ok (with_thread threads place t' m'))
  unfolding pick
  pick_at threads place t m at = rw (pick, at) refl

  set_again :
      (threads : List Thread) (place : ℕ) (t u : Thread) (m : Memory P D)
      → ◌≡◌ {A = Run LoadPhase}
          (ok (with_thread (set threads place t) place u m))
          (ok (with_thread threads place u m))
  set_again threads place t u m =
      ap (λ ts. ok (record { threads = ts; memory = m })) (set-set threads place t u)

  -- A second step of the same thread.
  pick_again :
      (threads : List Thread) (place : ℕ) (t u : Thread) (m : Memory P D)
      → get_elem? threads place ≡ some u
      → pick P D skipratio_inload num_ops place (with_thread threads place t m) ≡ (do
        (t', m') ← move P D skipratio_inload num_ops t m
        ok (with_thread threads place t' m'))
  pick_again threads place t u m at =
      pick_at (set threads place t) place t m (get_elem?-set_self threads place u t at)
      ∙ ap (λ f. move P D skipratio_inload num_ops t m >>= f)
          (fun_ext λ x. set_again threads place t x.0 x.1)

  -- What the threads share, out of what a client is given.
  abbrev memory_of : ℕ → Shared P D S → P.World → Memory P D
  memory_of thread_id s w = record {
    thread_id = thread_id;
    workload = s.workload;
    db = s.db;
    world = w;
  }

  -- Three steps of one thread are a `DoInsert`.
  interleave-do_insert :
      (threads : List Thread) (place thread_id t_id left i oks : ℕ) (later : List ℕ)
      (s : Shared P D S) (w : P.World)
      → get_elem? threads place ≡ some (looping t_id (suc left) i oks)
      → interleave P D skipratio_inload num_ops
          (place ∷ place ∷ place ∷ later)
          (record { threads = threads; memory = memory_of thread_id s w })
        ≡ (do
          ((inserted, s'), w') ← do_insert P D S (not (is_skipped skipratio_inload i)) s w
          let oks' = if is_skipped skipratio_inload i then oks else oks + bit_of inserted
          interleave P D skipratio_inload num_ops later (
              with_thread threads place
                (looping t_id left (i + 1) oks')
                (memory_of thread_id s' w')))
  unfolding interleave do_insert move
  interleave-do_insert threads place thread_id t_id left i oks later s w at =
      let m = memory_of thread_id s w in
      let (key, wl) = next_sequence_key P s.workload in
      let t₁ : Thread = keyed t_id left i oks key in
      let first = pick_at threads place (looping t_id (suc left) i oks) m at in
      let second = pick_again threads place t₁ _ (record m { workload = wl }) at in
      elim (Run-cases (build_values P wl w)) [
        | inl (why, stopped) ↦ rw (first, second, stopped) refl
        | inr (((pairs, wl'), w'), run) ↦
            let t₂ : Thread = built t_id left i oks key pairs in
            let third =
              pick_again threads place t₂ _ (record m { workload = wl'; world = w' }) at in
            elim (Bool-cases (is_skipped skipratio_inload i)) [
              | inl skipped ↦ rw (first, second, run, third, skipped) refl
              | inr real ↦ elim (Run-cases (D.insert s.db (next_table P wl') key pairs)) [
                | inl (why, stopped) ↦ rw (first, second, run, third, real, stopped) refl
                | inr ((status, db), done) ↦ rw (first, second, run, third, real, done) refl
              ]
            ]
      ]

  -- Picked three times for each round, and no other thread in between, a thread ends as the loop
  -- does: in its fault, or with its workload, database and number of inserts.
  pub interleave-load_loop :
      (threads : List Thread) (place thread_id t_id left i oks : ℕ) (s : Shared P D S) (w : P.World)
      → get_elem? threads place ≡ some (looping t_id left i oks)
      → interleave P D skipratio_inload num_ops
          (turns left place)
          (record { threads = threads; memory = memory_of thread_id s w })
        ≡ (do
          ((oks', s'), w') ← load_loop P D S skipratio_inload left i oks s w
          ok (
              with_thread threads place
                (looping t_id 0 (i + left) oks')
                (memory_of thread_id s' w')))
  unfolding interleave load_loop turns
  interleave-load_loop threads place thread_id t_id zero i oks s w at =
      let here : i + 0 ≡ i = omega arith in
      rw here (
        ap (λ ts. ok (record { threads = ts; memory = memory_of thread_id s w }))
          (sym (set-same threads place (looping t_id 0 i oks) at)))
  interleave-load_loop threads place thread_id t_id (suc left) i oks s w at =
      let number : i + 1 + left ≡ i + suc left = omega arith in
      interleave-do_insert threads place thread_id t_id left i oks (turns left place) s w at
      ∙ followed (do_insert P D S (not (is_skipped skipratio_inload i)) s w) _ _ λ r.
        let oks' = if is_skipped skipratio_inload i then oks else oks + bit_of r.0.0 in
        let next : Thread = looping t_id left (i + 1) oks' in
        let at' = get_elem?-set_self threads place (looping t_id (suc left) i oks) next at in
        interleave-load_loop (set threads place next) place thread_id t_id left (i + 1) oks' r.0.1
          r.1 at'
        ∙ ap (λ f. load_loop P D S skipratio_inload left (i + 1) oks' r.0.1 r.1 >>= f)
            (fun_ext λ q.
              set_again threads place next (looping t_id 0 (i + 1 + left) q.0.0)
                (memory_of thread_id q.0.1 q.1)
              ∙ ap
                  (λ n. ok (
                    with_thread threads place (looping t_id 0 n q.0.0)
                      (memory_of thread_id q.0.1 q.1)))
                  number)
