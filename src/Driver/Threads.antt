-- ===== src/Driver/Threads.antt =====
-- ycsbc.cc and core/client.h: the threads that load, interleaved in any order. Each of the following is one
-- step: taking the number of the thread, `NextSequenceKey`, `BuildValues`, `Insert` of the database.
pub mod Claims
pub mod Totals
pub mod Moves
pub mod Loads
pub mod Alone
use ycsb_lsm.Base.{
  ℕ, zero, suc, ◌+◌, Bool, true, false, List, [], ◌∷◌, Option, none, some, Bytes, get_elem?, set,
  if◌then◌else◌, Run, ok, fault, undefined, ◌>>=◌,
}
use ycsb_lsm.Base.Int.{ℤ}
use ycsb_lsm.Platform.{Platform}
use ycsb_lsm.Db.{k_ok, code, FieldPair, Db, eq_int}
use ycsb_lsm.Workload.{CoreWorkload, next_table, next_sequence_key, build_values}
use ycsb_lsm.Driver.{is_skipped, bit_of}

-- Where a thread stands in `DelegateClient` when it loads, with the rounds that are left after this one,
-- the index of the round and the inserts that have counted.
pub data Thread : Type 0 where
  -- before it takes its number
  starting : Thread
  -- at the head of the loop, with the number of the thread and the rounds that are left
  looping : (t_id left i oks : ℕ) → Thread
  -- in `DoInsert`, after `NextSequenceKey`
  keyed : (t_id left i oks : ℕ) (key : Bytes) → Thread
  -- in `DoInsert`, after `BuildValues`
  built : (t_id left i oks : ℕ) (key : Bytes) (pairs : List FieldPair) → Thread
  -- returned
  finished : (oks : ℕ) → Thread

abbrev pub is_finished : Thread → Bool
is_finished (finished oks) = true
is_finished _ = false

module _ (P : Platform) (D : Db) where
  -- What the threads share.
  pub record Memory : Type 0 where
    pub thread_id : ℕ
    pub workload : CoreWorkload P
    pub db : D.State
    pub world : P.World

  module _ (skipratio_inload : ℤ) (num_ops : ℕ) where
    -- The next step of a thread.
    unfoldable pub move : Thread → Memory → Run (Thread × Memory)
    unfolding next_sequence_key build_values next_table eq_int is_skipped
    move starting m = ok (looping m.thread_id num_ops 0 0, record m { thread_id = m.thread_id + 1 })
    move (looping t_id zero i oks) m = ok (finished oks, m)
    move (looping t_id (suc left) i oks) m =
        let (key, wl) = next_sequence_key P m.workload in
        ok (keyed t_id left i oks key, record m { workload = wl })
    move (keyed t_id left i oks key) m = do
      ((pairs, wl), w) ← build_values P m.workload m.world
      ok (built t_id left i oks key pairs, record m { workload = wl; world = w })
    move (built t_id left i oks key pairs) m =
        if is_skipped skipratio_inload i then ok (looping t_id left (i + 1) oks, m) else (do
          (status, db) ← D.insert m.db (next_table P m.workload) key pairs
          ok (
            looping t_id left (i + 1) (oks + bit_of (eq_int status (code k_ok))),
            record m { db = db },
          ))
    move (finished oks) m = ok (finished oks, m)

    -- The threads of a phase with what they share.
    pub record Phase : Type 0 where
      pub threads : List Thread
      pub memory : Memory

    -- The system picks the thread that moves next.
    unfoldable pub pick : ℕ → Phase → Run Phase
    unfolding move
    pick i s = elim (get_elem? s.threads i) [
      | none ↦ fault undefined
      | some t ↦ do
        (t', m) ← move t s.memory
        ok (record { threads = set s.threads i t'; memory = m })
    ]

    -- A whole interleaving, as the threads that are picked.
    unfoldable pub interleave : List ℕ → Phase → Run Phase
    unfolding pick
    interleave [] s = ok s
    interleave (i ∷ later) s = do s' ← pick i s; interleave later s'
