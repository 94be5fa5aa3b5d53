-- ===== src/Driver/Threads/Moves.antt =====
-- The steps of the threads of ycsbc.cc that load, each with what it keeps true of the whole phase.
use mathlib.Core.Path.{subst}
use ycsb_lsm.Base.{
  ℕ, zero, suc, ◌+◌, ◌%◌, ◌^◌, ◌≤◌, ◌<◌, ◌≡◌, inl, inr, refl, sym, ap, ◌∙◌, true, false, List, ◌++◌,
  Option, none, some, Bytes, same, get_elem?, set, map, if◌then◌else◌, Run, Returns, arith,
}
use ycsb_lsm.Base.Int.{pos}
use ycsb_lsm.Platform.{Platform, IsStandard}
use ycsb_lsm.UnorderedMap.{Container, IsContainer}
use ycsb_lsm.Hashtable.{c_str}
use ycsb_lsm.Db.{FieldPair, eq_int}
use ycsb_lsm.HashtableDb.{KeyHashtable, hashtable_db, insert_record}
use ycsb_lsm.HashtableDb.Contract.{record_at}
use ycsb_lsm.HashtableDb.Inserts.{read-insert_record}
use ycsb_lsm.Generators.Simple.{counter_next}
use ycsb_lsm.Workload.{rounds, CoreWorkload, build_key_name, next_sequence_key, next_table}
use ycsb_lsm.Workload.Values.{field_names, HasLengths, build_values-Built}
use ycsb_lsm.Client.Loading.{IsText, field_names-AreDistinct}
use ycsb_lsm.Driver.{is_skipped}
use ycsb_lsm.Driver.Loads.{read-present}
use ycsb_lsm.Driver.Threads.{
  Thread, starting, looping, keyed, built, finished, is_finished, Memory, Phase, pick, move,
}
use ycsb_lsm.Driver.Threads.Claims.{
  held_of, claim_of, put, put_cases, get_elem?-set, claim_of-set, claim_of-set_same, AreClaimed,
  AreClaimed-take, AreClaimed-write,
}
use ycsb_lsm.Driver.Threads.Totals.{total, total-set, to_take, to_count, to_do}

module _ (C : Container) (P : Platform) (num_ops : ℕ) where
  -- A phase that loads into a database in memory and skips no load.
  abbrev pub LoadPhase : Type 0
  LoadPhase = Phase P (hashtable_db C) (pos 0) num_ops

  -- One step of the thread at a place.
  abbrev pub pick_thread : ℕ → LoadPhase → Run LoadPhase
  pick_thread i s = pick P (hashtable_db C) (pos 0) num_ops i s

module _ (C : Container) (laws : IsContainer C) (P : Platform) (std : IsStandard P) (lo hi : ℕ)
    (table : Bytes) (fields first goal num_ops : ℕ) (before : KeyHashtable C) where
  -- The values that a thread has built have the names of the fields.
  abbrev pub HasNames : Thread → Type 0
  HasNames (built t_id left i oks key pairs) =
      map (λ (e : FieldPair). e.0) pairs ≡ field_names fields 0
  HasNames _ = Unit

  abbrev pub HasNamesOf : Option Thread → Type 0
  HasNamesOf none = Unit
  HasNamesOf (some t) = HasNames t

  -- The settings of the workload that the steps leave alone.
  pub record IsKept (wl : CoreWorkload P) : Type 0 where
    pub ordered : wl.ordered_inserts ≡ true
    pub same_table : wl.table_name ≡ table
    pub same_fields : rounds wl.field_count ≡ fields
    pub lengths : HasLengths P std lo hi wl

  pub record IsLoading (s : LoadPhase C P num_ops) : Type 0 where
    pub workload : IsKept s.memory.workload
    pub numbers :
        s.memory.workload.key_generator.counter + total (to_take num_ops) s.threads ≡ first + goal
    pub counted : total (to_count num_ops) s.threads ≡ goal
    pub claimed :
        AreClaimed C table first goal before
          (claim_of s.threads)
          s.memory.workload.key_generator.counter
          s.memory.db
    pub names : (i : ℕ) (t : Thread) → get_elem? s.threads i ≡ some t → HasNames t

  -- What one step makes of a phase: it stays as it should be, with one step less to do.
  abbrev pub Moves : LoadPhase C P num_ops → LoadPhase C P num_ops → Type 0
  Moves s s' =
      IsLoading s' × (suc (total (to_do num_ops) s'.threads) ≡ total (to_do num_ops) s.threads)

  module _ (s : LoadPhase C P num_ops) (i : ℕ) (t t' : Thread) (m : Memory P (hashtable_db C))
      (at : get_elem? s.threads i ≡ some t) (l : IsLoading s) where
    abbrev Next : LoadPhase C P num_ops
    Next = record { threads = set s.threads i t'; memory = m }

    -- A step is right if what it does to its own thread is.
    IsLoading-set :
        IsKept m.workload
        → m.workload.key_generator.counter + to_take num_ops t'
          ≡ s.memory.workload.key_generator.counter + to_take num_ops t
        → to_count num_ops t' ≡ to_count num_ops t
        → suc (to_do num_ops t') ≡ to_do num_ops t
        → HasNames t'
        → AreClaimed C table first goal before
            (claim_of (set s.threads i t'))
            m.workload.key_generator.counter
            m.db
        → Moves s Next
    IsLoading-set kept numbers counted less names claimed = (
      record {
        workload = kept;
        numbers =
            omega (arith, l.numbers, numbers, total-set (to_take num_ops) s.threads i t t' at);
        counted =
            omega (arith, l.counted, counted, total-set (to_count num_ops) s.threads i t t' at);
        claimed = claimed;
        names = λ j u h.
            elim (put_cases (get_elem? s.threads) i j (some t') (some u)
              (sym (get_elem?-set s.threads i j t t' at) ∙ h)) [
                | inl (here, one) ↦ subst (λ o. HasNamesOf o) one names
                | inr (other, old) ↦ l.names j u old
              ];
      },
      omega (arith, less, total-set (to_do num_ops) s.threads i t t' at),
    )

  module _ (text : IsText table) (room : first + goal < 2 ^ 64) (few : fields ≤ 2 ^ 64) where
    -- A thread takes the next key.
    pick-take :
        (s : LoadPhase C P num_ops) (i t_id left k oks : ℕ)
        → IsLoading s
        → get_elem? s.threads i ≡ some (looping t_id (suc left) k oks)
        → Returns (pick_thread C P num_ops i s) (Moves s)
    unfolding pick next_sequence_key counter_next
    pick-take s i t_id left k oks l at =
        let wl = s.memory.workload in
        let counter = wl.key_generator.counter in
        let t : Thread = looping t_id (suc left) k oks in
        let gone = total-set (to_take num_ops) s.threads i t (finished 0) at in
        let more : counter < first + goal = omega (arith, gone, l.numbers) in
        let next : (counter + 1) % 2 ^ 64 ≡ suc counter = omega (arith, more, room) in
        let key = (next_sequence_key P wl).0 in
        let t' : Thread = keyed t_id left k oks key in
        let name : key ≡ build_key_name true counter =
          ap (λ b. build_key_name b counter) l.workload.ordered in
        let idle = ap held_of at in
        let claims =
          claim_of-set s.threads i t t' at ∙ ap (λ n. put (claim_of s.threads) i (some n)) name in
        let claimed =
          AreClaimed-take C table first goal before text (omega (arith, room)) (claim_of s.threads)
            counter s.memory.db i l.claimed idle more in
        (
          record {
            threads = set s.threads i t';
            memory = record s.memory { workload = (next_sequence_key P wl).1 };
          },
          rw (pick, at, move) refl,
          IsLoading-set s i t t' _ at l
              (record {
                ordered = l.workload.ordered;
                same_table = l.workload.same_table;
                same_fields = l.workload.same_fields;
                lengths = l.workload.lengths;
              })
              (omega (arith, next)) (omega arith) (omega arith) tt (rw (claims, next) claimed),
        )

    -- A thread builds the values.
    pick-build :
        (s : LoadPhase C P num_ops) (i t_id left k oks : ℕ) (key : Bytes)
        → IsLoading s
        → get_elem? s.threads i ≡ some (keyed t_id left k oks key)
        → Returns (pick_thread C P num_ops i s) (Moves s)
    unfolding pick
    pick-build s i t_id left k oks key l at =
        let m = s.memory in
        let t : Thread = keyed t_id left k oks key in
        let (((pairs, wl), w), run, b) =
          build_values-Built P std lo hi m.workload m.world l.workload.lengths in
        let t' : Thread = built t_id left k oks key pairs in
        let o = ap (λ (x : CoreWorkload P). x.ordered_inserts) b.same in
        let u = ap (λ (x : CoreWorkload P). x.table_name) b.same in
        let c = ap (λ (x : CoreWorkload P). x.key_generator.counter) b.same in
        let f = ap (λ (x : CoreWorkload P). rounds x.field_count) b.same in
        let claims = claim_of-set_same s.threads i t t' at refl in
        (
          record { threads = set s.threads i t'; memory = record m { workload = wl; world = w } },
          rw (pick, at, move, run) refl,
          IsLoading-set s i t t' _ at l
              (record {
                ordered = o ∙ l.workload.ordered;
                same_table = u ∙ l.workload.same_table;
                same_fields = f ∙ l.workload.same_fields;
                lengths = b.lengths;
              })
              (omega (arith, c)) refl (omega arith)
              (b.names ∙ ap (λ n. field_names n 0) l.workload.same_fields)
              (rw (claims, c) l.claimed),
        )

    -- A thread writes the record of its key.
    pick-store :
        (s : LoadPhase C P num_ops) (i t_id left k oks : ℕ) (key : Bytes) (pairs : List FieldPair)
        → IsLoading s
        → get_elem? s.threads i ≡ some (built t_id left k oks key pairs)
        → Returns (pick_thread C P num_ops i s) (Moves s)
    unfolding pick next_table is_skipped eq_int
    pick-store s i t_id left k oks key pairs l at =
        let m = s.memory in
        let t : Thread = built t_id left k oks key pairs in
        let t' : Thread = looping t_id left (k + 1) (oks + 1) in
        let own = l.claimed.taken i key (ap held_of at) in
        let named = l.names i t at in
        let distinct = field_names-AreDistinct 0 fields pairs (omega arith) named in
        let (status, read_back, frame) =
          read-insert_record C laws m.db table key pairs distinct own.absent in
        let db = (insert_record C m.db table key pairs).1 in
        let (u, there) = read-present C db table key _ _ read_back in
        let frame' : (j : Bytes)
            → record_at C db j
              ≡ (if same (c_str (table ++ key)) (c_str j) then some u else record_at C m.db j) =
          λ j.
            frame j
            ∙ ap (λ o. if same (c_str (table ++ key)) (c_str j) then o else record_at C m.db j)
                there in
        let claims = claim_of-set s.threads i t t' at in
        let small : m.workload.key_generator.counter ≤ first + goal = omega (arith, l.numbers) in
        (
          record { threads = set s.threads i t'; memory = record m { db = db } },
          rw (pick, at, move) (rw (l.workload.same_table, status) refl),
          IsLoading-set s i t t' _ at l l.workload refl (omega arith) (omega arith) tt (
              rw claims (
                AreClaimed-write C table first goal before text (omega (arith, room))
                  (claim_of s.threads) m.workload.key_generator.counter m.db db i key u l.claimed
                  small (ap held_of at) there frame')),
        )

    -- Any thread that has not finished can make its next step, and the step is right.
    pub pick-Moves :
        (s : LoadPhase C P num_ops) (i : ℕ) (t : Thread)
        → IsLoading s
        → get_elem? s.threads i ≡ some t
        → is_finished t ≡ false
        → Returns (pick_thread C P num_ops i s) (Moves s)
    unfolding pick
    pick-Moves s i starting l at h =
        let m = s.memory in
        let t' : Thread = looping m.thread_id num_ops 0 0 in
        let claims = claim_of-set_same s.threads i starting t' at refl in
        (
          record {
            threads = set s.threads i t';
            memory = record m { thread_id = m.thread_id + 1 };
          },
          rw (pick, at, move) refl,
          IsLoading-set s i starting t' _ at l l.workload refl (omega arith) (omega arith) tt
              (rw claims l.claimed),
        )
    pick-Moves s i (looping t_id zero k oks) l at h =
        let t : Thread = looping t_id zero k oks in
        let claims = claim_of-set_same s.threads i t (finished oks) at refl in
        (
          record { threads = set s.threads i (finished oks); memory = s.memory },
          rw (pick, at, move) refl,
          IsLoading-set s i t (finished oks) s.memory at l l.workload refl (omega arith)
              (omega arith) tt (rw claims l.claimed),
        )
    pick-Moves s i (looping t_id (suc left) k oks) l at h = pick-take s i t_id left k oks l at
    pick-Moves s i (keyed t_id left k oks key) l at h = pick-build s i t_id left k oks key l at
    pick-Moves s i (built t_id left k oks key pairs) l at h =
        pick-store s i t_id left k oks key pairs l at
    pick-Moves s i (finished oks) l at h = cc
