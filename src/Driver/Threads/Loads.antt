-- ===== src/Driver/Threads/Loads.antt =====
-- Loading by several client threads of ycsbc.cc in any order of their steps: nothing is lost.
use mathlib.Core.Option.{some_inj}
use ycsb_lsm.Base.{
  Option-cases, ◌≢◌, ◌-◌, ℕ, zero, suc, ◌+◌, ◌*◌, ◌^◌, ◌≤◌, ◌<◌, ◌≡◌, inl, inr, refl, sym, ap, ◌∙◌,
  true, false, List, none, some, Bytes, get_elem?, replicate, Returns, arith,
}
use ycsb_lsm.Platform.{Platform, IsStandard}
use ycsb_lsm.UnorderedMap.{Container, IsContainer}
use ycsb_lsm.HashtableDb.{KeyHashtable, hashtable_db}
use ycsb_lsm.HashtableDb.Contract.{record_at}
use ycsb_lsm.Workload.{rounds}
use ycsb_lsm.Workload.Values.{HasLengths}
use ycsb_lsm.Client.Loading.{IsText}
use ycsb_lsm.Driver.Loads.{index_of}
use ycsb_lsm.Driver.Threads.{Thread, starting, looping, keyed, built, finished, is_finished, Memory}
use ycsb_lsm.Driver.Threads.Claims.{held, held_of, claim_of, IsThere}
use ycsb_lsm.Driver.Threads.Totals.{
  total, total-replicate, to_take, to_count, to_do, returned, someone, everyone, total-returned,
  total-take-le-do,
}
use ycsb_lsm.Driver.Threads.Moves.{LoadPhase, pick_thread, IsLoading, pick-Moves}

held-finished : (t : Thread) → is_finished t ≡ true → held t ≡ none
held-finished starting h = cc
held-finished (looping t_id left i oks) h = cc
held-finished (keyed t_id left i oks key) h = cc
held-finished (built t_id left i oks key pairs) h = cc
held-finished (finished oks) h = refl

-- When all threads have returned no key is held.
nothing_held :
    (num_ops : ℕ) (threads : List Thread) (i : ℕ) (key : Bytes)
    → total (to_do num_ops) threads ≡ 0
    → claim_of threads i ≢ some key
nothing_held num_ops threads i key none_left h = elim (Option-cases (get_elem? threads i)) [
  | inl out ↦ let clash = sym (ap held_of out) ∙ h in cc
  | inr (t, at) ↦
      let clash =
        sym (held-finished t (everyone num_ops threads i t none_left at))
        ∙ sym (ap held_of at)
        ∙ h in
      cc
]

module _ (C : Container) (P : Platform) (num_ops : ℕ) where
  abbrev State : Type 0
  State = LoadPhase C P num_ops

  -- Whichever threads are picked, after `steps` steps the phase has the property: until then some thread can
  -- move, and each that can move does so without a fault.
  abbrev pub Inevitably : ℕ → (State → Type 0) → State → Type 0
  Inevitably zero Holds s = Holds s
  Inevitably (suc steps) Holds s =
      ((i : ℕ) × (t : Thread) × (get_elem? s.threads i ≡ some t) × (is_finished t ≡ false))
      × ((i : ℕ) (t : Thread)
          → get_elem? s.threads i ≡ some t
          → is_finished t ≡ false
          → Returns (pick_thread C P num_ops i s) (Inevitably steps Holds))

  module _ (table : Bytes) (first goal : ℕ) (before : KeyHashtable C) where
    -- Every thread has returned, the inserts that they counted are `goal`, each of the records is there,
    -- and so is every record that was there before.
    pub record IsLoaded (s : State) : Type 0 where
      pub returned_all :
          (i : ℕ) (t : Thread) → get_elem? s.threads i ≡ some t → is_finished t ≡ true
      pub sum : total (returned) s.threads ≡ goal
      pub there : (k : ℕ) → k < goal → IsThere C s.memory.db (index_of table (first + k))
      pub kept : (j : Bytes) → IsThere C before j → IsThere C s.memory.db j

module _ (C : Container) (laws : IsContainer C) (P : Platform) (std : IsStandard P) (lo hi : ℕ)
    (table : Bytes) (fields first goal num_ops : ℕ) (before : KeyHashtable C) where
  abbrev IsGood : LoadPhase C P num_ops → Type 0
  IsGood = IsLoading C laws P std lo hi table fields first goal num_ops before

  abbrev IsDone : LoadPhase C P num_ops → Type 0
  IsDone = IsLoaded C P num_ops table first goal before

  IsLoading-IsLoaded :
      (s : LoadPhase C P num_ops) → IsGood s → total (to_do num_ops) s.threads ≡ 0 → IsDone s
  IsLoading-IsLoaded s l none_left = record {
    returned_all = λ i t at. everyone num_ops s.threads i t none_left at;
    sum = total-returned num_ops s.threads none_left ∙ l.counted;
    there = λ k p.
        let all_taken = total-take-le-do num_ops s.threads in
        elim (l.claimed.there (first + k) (omega arith) (omega (arith, all_taken, l.numbers))) [
          | inl written ↦ written
          | inr (i, holds) ↦ absurd (nothing_held num_ops s.threads i _ none_left holds)
        ];
    kept = l.claimed.kept;
  }

  module _ (text : IsText table) (room : first + goal < 2 ^ 64) (few : fields ≤ 2 ^ 64) where
    pub IsLoading-Inevitably :
        (steps : ℕ) (s : LoadPhase C P num_ops)
        → IsGood s
        → total (to_do num_ops) s.threads ≡ steps
        → Inevitably C P num_ops steps IsDone s
    IsLoading-Inevitably zero s l e = IsLoading-IsLoaded s l e
    IsLoading-Inevitably (suc steps) s l e = (
      someone num_ops s.threads (omega arith),
      λ i t at h.
          let (s', run, (l', less)) =
            pick-Moves C laws P std lo hi table fields first goal num_ops before text room few s i t
              l at h in
          (s', run, IsLoading-Inevitably steps s' l' (omega arith)),
    )

-- A phase that loads is about to start: `n` threads, each with `num_ops` inserts of records that are not there.
pub record CanStart (C : Container) (P : Platform) (std : IsStandard P) (lo hi n num_ops : ℕ)
    (m : Memory P (hashtable_db C)) : Type 0 where
  pub ordered : m.workload.ordered_inserts ≡ true
  pub text : IsText m.workload.table_name
  pub room : m.workload.key_generator.counter + n * num_ops < 2 ^ 64
  pub lengths : HasLengths P std lo hi m.workload
  pub few : rounds m.workload.field_count ≤ 2 ^ 64
  pub absent :
      (k : ℕ)
      → k < n * num_ops
      → record_at C m.db (index_of m.workload.table_name (m.workload.key_generator.counter + k))
        ≡ none

split : (a b : ℕ) → a ≤ b → (d : ℕ) × (b ≡ a + d)
split a b h = (b - a, omega arith)

no_claims : (n i : ℕ) → claim_of (replicate n starting) i ≡ none
no_claims zero i = refl
no_claims (suc n) zero = refl
no_claims (suc n) (suc i) = no_claims n i

start_names : (n i : ℕ) (t : Thread) → get_elem? (replicate n starting) i ≡ some t → starting ≡ t
start_names zero i t h = cc
start_names (suc n) zero t h = some_inj.0 h
start_names (suc n) (suc i) t h = start_names n i t h

module _ (C : Container) (laws : IsContainer C) (P : Platform) (std : IsStandard P)
    (lo hi n num_ops : ℕ) (m : Memory P (hashtable_db C)) where
  -- With ordered inserts, no load skipped and none of the records there, `n` threads that load `num_ops` records
  -- each have all returned after exactly n * (3 * num_ops + 2) steps, in whatever order they are picked:
  -- until then some thread can move, and no step faults. At the end the threads have counted one insert for
  -- each record, each of the next n * num_ops records is there, and so are those that were there before.
  pub load_threads_inevitable :
      CanStart C P std lo hi n num_ops m
      → Inevitably C P num_ops
          (n * (3 * num_ops + 2))
          (IsLoaded C P num_ops m.workload.table_name m.workload.key_generator.counter
            (n * num_ops)
            m.db)
          (record { threads = replicate n starting; memory = m })
  load_threads_inevitable c =
      let first = m.workload.key_generator.counter in
      IsLoading-Inevitably C laws P std lo hi m.workload.table_name (rounds m.workload.field_count)
        first (n * num_ops) num_ops m.db c.text c.room c.few (n * (3 * num_ops + 2))
        (record { threads = replicate n starting; memory = m })
        (record {
          workload = record {
            ordered = c.ordered;
            same_table = refl;
            same_fields = refl;
            lengths = c.lengths;
          };
          numbers = ap (λ k. first + k) (total-replicate (to_take num_ops) n starting);
          counted = total-replicate (to_count num_ops) n starting;
          claimed = record {
            started = omega arith;
            taken = λ i key h. let clash = sym (no_claims n i) ∙ h in cc;
            apart = λ i j key h k. let clash = sym (no_claims n i) ∙ h in cc;
            there = λ k p q. absurd (omega arith);
            free = λ k p q.
                let (d, e) = split first k p in
                ap (λ x. record_at C m.db (index_of m.workload.table_name x)) e
                ∙ c.absent d (omega (arith, e));
            kept = λ j h. h;
          };
          names = λ i t at. rw (← start_names n i t at) tt;
        })
        (total-replicate (to_do num_ops) n starting)
