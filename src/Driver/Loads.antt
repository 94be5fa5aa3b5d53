-- ===== src/Driver/Loads.antt =====
-- The loading loop of ycsbc.cc on an in-memory database: every record is there afterwards.
pub mod Rounds
pub mod Skips
use mathlib.Core.Path.{subst}
use ycsb_lsm.Base.{
  ℕ, zero, suc, ◌+◌, ◌%◌, ◌/◌, ◌^◌, ◌≤◌, ◌<◌, ◌≡◌, ◌≢◌, refl, sym, ap, ◌∙◌, true, false, List, [],
  ◌∷◌, ◌++◌, none, some, Bytes, codes, same, same-eq, Returns, Bool-cases, Option-cases, inl, inr,
  arith, All, All-append, All-below, below, ◌⊎◌,
}
use ycsb_lsm.Base.Int.{pos}
use ycsb_lsm.Base.Decimal.{fixed}
use ycsb_lsm.Platform.{Platform, IsStandard}
use ycsb_lsm.UnorderedMap.{Container, IsContainer}
use ycsb_lsm.Hashtable.{c_str}
use ycsb_lsm.Db.{Status, FieldPair, k_ok, k_error_no_data}
use ycsb_lsm.HashtableDb.{KeyHashtable, FieldHashtable, hashtable_db}
use ycsb_lsm.HashtableDb.{read as hashtable_read}
use ycsb_lsm.HashtableDb.Contract.{record_at}
use ycsb_lsm.Generators.Simple.{counter_next}
use ycsb_lsm.Workload.{rounds, CoreWorkload, build_key_name, next_sequence_key}
use ycsb_lsm.Workload.KeyName.{key_number, build_key_name-fixed, build_key_name_inj}
use ycsb_lsm.Workload.Values.{HasLengths}
use ycsb_lsm.Client.{System, Shared, do_insert}
use ycsb_lsm.Client.Loading.{IsText, c_str_id, next_index, Inserted, do_insert_stores}
use ycsb_lsm.Driver.{load_loop}
use ycsb_lsm.Driver.Loops.{Advances, load_loop-Loaded}

fixed-IsText : (k n : ℕ) → IsText (fixed k n)
unfolding fixed
fixed-IsText zero n = tt
fixed-IsText (suc k) n =
    All-append (λ c. c ≢ 0) (fixed k (n / 10)) ((b'0' + n % 10) ∷ []) (fixed-IsText k (n / 10))
      (λ h. omega arith, tt)

-- The index of the record with a key number, for ordered inserts.
abbrev pub index_of : Bytes → ℕ → Bytes
index_of table n = table ++ build_key_name true n

index_of-IsText : (table : Bytes) (n : ℕ) → IsText table → n < 2 ^ 64 → IsText (index_of table n)
index_of-IsText table n t h =
    All-append (λ c. c ≢ 0) table (build_key_name true n) t
      (rw (build_key_name-fixed true n h) (
        All-append (λ c. c ≢ 0) (codes "user") (fixed 20 (key_number true n))
          (λ h. omega arith, (λ h. omega arith, (λ h. omega arith, (λ h. omega arith, tt))))
          (fixed-IsText 20 (key_number true n))))

append_cancel : (t a b : Bytes) → t ++ a ≡ t ++ b → a ≡ b
append_cancel [] a b e = e
append_cancel (c ∷ t) a b e = append_cancel t a b (ground arith)

-- Different key numbers have different indices.
pub index_of_differ :
    (table : Bytes) (a b : ℕ)
    → IsText table
    → a < 2 ^ 64
    → b < 2 ^ 64
    → a ≢ b
    → same (c_str (index_of table a)) (c_str (index_of table b)) ≡ false
index_of_differ table a b t p q differ =
    let ea = c_str_id (index_of table a) (index_of-IsText table a t p) in
    let eb = c_str_id (index_of table b) (index_of-IsText table b t q) in
    elim (Bool-cases (same (c_str (index_of table a)) (c_str (index_of table b)))) [
      | inr e ↦ e
      | inl e ↦
          let whole =
            sym ea ∙ same-eq (c_str (index_of table a)) (c_str (index_of table b)) e ∙ eb in
          absurd (
            differ (
              build_key_name_inj a b p q
                (append_cancel table (build_key_name true a) (build_key_name true b) whole)))
    ]

module _ (C : Container) where
  -- Where `Read` of some fields returned kOK there is a record.
  pub read-present :
      (db : KeyHashtable C) (table key : Bytes) (names : List Bytes) (r : List FieldPair)
      → hashtable_read C db table key (some names) [] ≡ (k_ok, r)
      → (t : FieldHashtable C) × (record_at C db (table ++ key) ≡ some t)
  unfolding hashtable_read
  read-present db table key names r e = elim (Option-cases (record_at C db (table ++ key))) [
    | inr there ↦ there
    | inl h ↦
        let failed : hashtable_read C db table key (some names) [] ≡ (k_error_no_data, []) =
          rw (hashtable_read, h) refl in
        let bad : k_error_no_data ≡ k_ok =
          ap (λ (x : Status × List FieldPair). x.0) (sym failed ∙ e) in
        cc
  ]

module _ (C : Container) (laws : IsContainer C) (P : Platform) (std : IsStandard P)
    (S : System P.World) (lo hi : ℕ) where
  -- A workload that can load `n` records more.
  pub record IsLoadable (n : ℕ) (wl : CoreWorkload P) : Type 0 where
    pub ordered : wl.ordered_inserts ≡ true
    pub table : IsText wl.table_name
    pub room : wl.key_generator.counter + n ≤ 2 ^ 64
    pub lengths : HasLengths P std lo hi wl
    pub few : rounds wl.field_count ≤ 2 ^ 64

  Inserted-IsLoadable :
      (n : ℕ) (wl wl' : CoreWorkload P)
      → IsLoadable (suc n) wl
      → Inserted C laws P std S lo hi wl wl'
      → IsLoadable n wl'
        × (wl'.table_name ≡ wl.table_name)
        × (wl'.key_generator.counter ≡ (wl.key_generator.counter + 1) % 2 ^ 64)
  unfolding next_sequence_key counter_next
  Inserted-IsLoadable n wl wl' h (same_wl, lengths) =
      let t = ap (λ (x : CoreWorkload P). x.table_name) same_wl in
      let o = ap (λ (x : CoreWorkload P). x.ordered_inserts) same_wl in
      let c = ap (λ (x : CoreWorkload P). x.key_generator.counter) same_wl in
      let f = ap (λ (x : CoreWorkload P). x.field_count) same_wl in
      (
        record {
          ordered = o ∙ h.ordered;
          table = rw t h.table;
          room = omega (arith, c, h.room);
          lengths = lengths;
          few = rw f h.few;
        },
        t,
        c,
      )

  -- The index of the record that the `k`-th insert from now on makes.
  abbrev pub next_slot : Shared P (hashtable_db C) S → ℕ → Bytes
  next_slot s k = index_of s.workload.table_name (s.workload.key_generator.counter + k)

  abbrev pub IsThere : KeyHashtable C → Bytes → Type 0
  IsThere db j = (t : FieldHashtable C) × (record_at C db j ≡ some t)

  -- `n` records more can be loaded, and none of them is there.
  abbrev IsReady : ℕ → Shared P (hashtable_db C) S → Type 0
  IsReady n s =
      IsLoadable n s.workload × ((k : ℕ) → k < n → record_at C s.db (next_slot s k) ≡ none)

  -- The first of the next indices is that of the next insert.
  next_slot-zero :
      (n : ℕ) (s : Shared P (hashtable_db C) S)
      → IsLoadable n s.workload
      → next_slot s 0 ≡ next_index P s.workload
  next_slot-zero n s h =
      let counter = s.workload.key_generator.counter in
      let zeroth : counter + 0 ≡ counter = omega arith in
      let index : next_index P s.workload ≡ index_of s.workload.table_name counter =
        unfold next_sequence_key counter_next in
        ap (λ b. s.workload.table_name ++ build_key_name b counter) h.ordered in
      ap (index_of s.workload.table_name) zeroth ∙ sym index

  next_slot-suc :
      (n : ℕ) (s s' : Shared P (hashtable_db C) S) (k : ℕ)
      → IsLoadable (suc n) s.workload
      → s'.workload.table_name ≡ s.workload.table_name
      → s'.workload.key_generator.counter ≡ (s.workload.key_generator.counter + 1) % 2 ^ 64
      → k < n
      → next_slot s' k ≡ next_slot s (suc k)
  next_slot-suc n s s' k h same_table next p =
      let number : s'.workload.key_generator.counter + k
          ≡ s.workload.key_generator.counter + suc k =
        omega (arith, next, h.room) in
      ap (λ m. index_of s'.workload.table_name m) number
      ∙ ap (λ u. index_of u (s.workload.key_generator.counter + suc k)) same_table

  -- The later indices are not that of the next insert.
  next_slot-differ :
      (n k : ℕ) (s : Shared P (hashtable_db C) S)
      → IsLoadable (suc n) s.workload
      → k < n
      → same (c_str (next_index P s.workload)) (c_str (next_slot s (suc k))) ≡ false
  next_slot-differ n k s h p =
      let counter = s.workload.key_generator.counter in
      let far : counter + 0 ≢ counter + suc k = λ e. omega arith in
      subst (λ j. same (c_str j) (c_str (next_slot s (suc k))) ≡ false) (next_slot-zero (suc n) s h)
        (index_of_differ s.workload.table_name (counter + 0) (counter + suc k) h.table
          (omega (arith, h.room)) (omega (arith, h.room)) far)

  -- One insert into a database that is ready.
  do_insert-Advances :
      (n : ℕ) (s : Shared P (hashtable_db C) S) (w : P.World)
      → IsReady (suc n) s
      → Returns (do_insert P (hashtable_db C) S true s w) (λ r.
        (r.0.0 ≡ true)
        × Advances P (hashtable_db C) S (λ why. ⊥) IsReady IsThere next_slot n s r.0.1)
  do_insert-Advances n s w (h, absent) =
      let first = next_slot-zero (suc n) s h in
      let free = ap (record_at C s.db) (sym first) ∙ absent 0 (omega arith) in
      let (((b, s'), w'), run, (done, inserted, (values, names, read_back), frame)) =
        do_insert_stores C laws P std S lo hi s w h.lengths h.few free in
      let (h', same_table, next) = Inserted-IsLoadable n s.workload s'.workload h inserted in
      let (t₀, at₀) =
        read-present C s'.db s.workload.table_name (next_sequence_key P s.workload).0 _ _
          read_back in
      let moved : (k : ℕ) → k < n → next_slot s' k ≡ next_slot s (suc k) =
        λ k p. next_slot-suc n s s' k h same_table next p in
      let absent' : (k : ℕ) → k < n → record_at C s'.db (next_slot s' k) ≡ none = λ k p.
        ap (record_at C s'.db) (moved k p)
        ∙ frame (next_slot s (suc k))
        ∙ rw (next_slot-differ n k s h p) (absent (suc k) (omega arith)) in
      (
        ((b, s'), w'),
        run,
        (
          done,
          record {
            ready = (h', absent');
            moved = moved;
            there = (t₀, ap (record_at C s'.db) first ∙ at₀);
            kept = λ j e. elim (Bool-cases (same (c_str (next_index P s.workload)) (c_str j))) [
              | inl b ↦ (t₀, frame j ∙ rw b at₀)
              | inr b ↦ (e.0, frame j ∙ rw b e.1)
            ];
          },
        ),
      )

  -- With ordered inserts and no load skipped, loading `n` records into a database that has none of them
  -- ends normally, all `n` inserts count as done, and then each of the records is there; a record that
  -- was there before still is.
  pub load_loop-All :
      (n i oks : ℕ) (j : Bytes) (s : Shared P (hashtable_db C) S) (w : P.World)
      → IsLoadable n s.workload
      → ((m : ℕ)
          → m < n
          → record_at C s.db (index_of s.workload.table_name (s.workload.key_generator.counter + m))
            ≡ none)
      → Returns (load_loop P (hashtable_db C) S (pos 0) n i oks s w) λ r.
        (r.0.0 ≡ oks + n)
        × All
            (λ k.
              IsThere r.0.1.db
                (index_of s.workload.table_name (s.workload.key_generator.counter + k)))
            (below n)
        × ((record_at C s.db j ≡ none) ⊎ IsThere r.0.1.db j)
  load_loop-All n i oks j s w h absent =
      let ended =
        load_loop-Loaded P (hashtable_db C) S (λ why. ⊥) IsReady IsThere next_slot
          (λ n s w h. inr (do_insert-Advances n s w h)) n i oks s w (h, absent) in
      elim ended [
        | inl (why, never, stopped) ↦ absurd never
        | inr (r, run, l) ↦ (
          r,
          run,
          (
            l.counted,
            All-below n l.there,
            elim (Option-cases (record_at C s.db j)) [
              | inl missing ↦ inl missing
              | inr there ↦ inr (l.kept j there)
            ],
          ),
        )
      ]
