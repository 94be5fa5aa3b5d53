-- ===== src/Driver/Loads/Rounds.antt =====
-- One round of the loading loop of ycsbc.cc on an in-memory database, with its insert or without.
use mathlib.Core.Path.{subst}
use ycsb_lsm.Base.{
  ℕ, suc, ◌+◌, ◌<◌, ◌≡◌, ◌≢◌, refl, sym, ap, ◌∙◌, Bool, true, false, none, Bytes, same, Returns,
  arith,
}
use ycsb_lsm.Platform.{Platform, IsStandard}
use ycsb_lsm.UnorderedMap.{Container, IsContainer}
use ycsb_lsm.Hashtable.{c_str}
use ycsb_lsm.HashtableDb.{KeyHashtable, hashtable_db}
use ycsb_lsm.HashtableDb.Contract.{record_at}
use ycsb_lsm.Workload.{next_sequence_key}
use ycsb_lsm.Workload.Values.{build_values-Built}
use ycsb_lsm.Client.{System, Shared, do_insert}
use ycsb_lsm.Client.Loading.{next_index, Inserted, do_insert_stores}
use ycsb_lsm.Driver.Loads.{
  index_of_differ, read-present, Inserted-IsLoadable, next_slot, IsThere, IsReady, next_slot-zero,
  next_slot-suc,
}

module _ (C : Container) (laws : IsContainer C) (P : Platform) (std : IsStandard P)
    (S : System P.World) (lo hi : ℕ) where
  abbrev pub State : Type 0
  State = Shared P (hashtable_db C) S

  abbrev pub slot_of : State → ℕ → Bytes
  slot_of = next_slot C laws P std S lo hi

  abbrev pub Ready : ℕ → State → Type 0
  Ready = IsReady C laws P std S lo hi

  -- The index is not that of the record.
  abbrev pub Differs : Bytes → Bytes → Type 0
  Differs j k = same (c_str j) (c_str k) ≡ false

  -- The record is there if it is inserted, and otherwise not.
  abbrev pub Filled : Bool → KeyHashtable C → Bytes → Type 0
  Filled true db j = IsThere C laws P std S lo hi db j
  Filled false db j = record_at C db j ≡ none

  pub Filled-subst :
      (b : Bool) (db db' : KeyHashtable C) (j : Bytes)
      → record_at C db' j ≡ record_at C db j
      → Filled b db j
      → Filled b db' j
  Filled-subst true db db' j e (t, at) = (t, e ∙ at)
  Filled-subst false db db' j e at = e ∙ at

  pub slots_differ :
      (n a b : ℕ) (s : State)
      → Ready n s
      → a < n
      → b < n
      → a ≢ b
      → Differs (slot_of s a) (slot_of s b)
  slots_differ n a b s (h, _) p q differ =
      index_of_differ s.workload.table_name (s.workload.key_generator.counter + a)
        (s.workload.key_generator.counter + b) h.table (omega (arith, h.room))
        (omega (arith, h.room)) (λ e. differ (omega arith))

  -- One round: its record is filled in or left out, and no other record changes.
  pub record Rounded (b : Bool) (n : ℕ) (s : State) (r : (Bool × State) × P.World) : Type 0 where
    pub done : r.0.0 ≡ b
    pub ready : Ready n r.0.1
    pub moved : (k : ℕ) → k < n → slot_of r.0.1 k ≡ slot_of s (suc k)
    pub filled : Filled b r.0.1.db (slot_of s 0)
    pub frame : (j : Bytes) → Differs (slot_of s 0) j → record_at C r.0.1.db j ≡ record_at C s.db j

  -- What follows when the workload has gone on by one key and only the first slot may have changed.
  Rounded-of :
      (b : Bool) (n : ℕ) (s : State) (r : (Bool × State) × P.World)
      → Ready (suc n) s
      → r.0.0 ≡ b
      → Inserted C laws P std S lo hi s.workload r.0.1.workload
      → Filled b r.0.1.db (slot_of s 0)
      → ((j : Bytes) → Differs (slot_of s 0) j → record_at C r.0.1.db j ≡ record_at C s.db j)
      → Rounded b n s r
  Rounded-of b n s r (h, absent) done inserted filled frame =
      let (h', same_table, next) =
        Inserted-IsLoadable C laws P std S lo hi n s.workload r.0.1.workload h inserted in
      let moved : (k : ℕ) → k < n → slot_of r.0.1 k ≡ slot_of s (suc k) =
        λ k p. next_slot-suc C laws P std S lo hi n s r.0.1 k h same_table next p in
      record {
        done = done;
        ready = (
          h',
          λ k p.
              ap (record_at C r.0.1.db) (moved k p)
              ∙ frame (slot_of s (suc k)) (
                  slots_differ (suc n) 0 (suc k) s (h, absent) (omega arith) (omega arith)
                    (λ e. omega arith))
              ∙ absent (suc k) (omega arith),
        );
        moved = moved;
        filled = filled;
        frame = frame;
      }

  pub insert-Rounded :
      (b : Bool) (n : ℕ) (s : State) (w : P.World)
      → Ready (suc n) s
      → Returns (do_insert P (hashtable_db C) S b s w) (Rounded b n s)
  unfolding do_insert next_sequence_key
  insert-Rounded true n s w (h, absent) =
      let first = next_slot-zero C laws P std S lo hi (suc n) s h in
      let free = ap (record_at C s.db) (sym first) ∙ absent 0 (omega arith) in
      let (((b, s'), w'), run, (done, inserted, (values, names, read_back), frame)) =
        do_insert_stores C laws P std S lo hi s w h.lengths h.few free in
      let (t₀, at₀) =
        read-present C s'.db s.workload.table_name (next_sequence_key P s.workload).0 _ _
          read_back in
      (
        ((b, s'), w'),
        run,
        Rounded-of true n s ((b, s'), w') (h, absent) done inserted
            (t₀, ap (record_at C s'.db) first ∙ at₀)
            (λ j differs.
              let other : Differs (next_index P s.workload) j =
                subst (λ (x : Bytes). Differs x j) first differs in
              frame j ∙ rw other refl),
      )
  insert-Rounded false n s w (h, absent) =
      let ((pairs, w'), run, b) =
        build_values-Built P std lo hi (next_sequence_key P s.workload).1 w h.lengths in
      (
        ((false, record s { workload = pairs.1 }), w'),
        rw (do_insert, run) refl,
        Rounded-of false n s ((false, record s { workload = pairs.1 }), w') (h, absent) refl
            (b.same, b.lengths) (absent 0 (omega arith)) (λ j differs. refl),
      )
