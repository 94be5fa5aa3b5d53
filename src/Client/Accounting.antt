-- ===== src/Client/Accounting.antt =====
-- The statistics that `DoTransaction` of core/client.h keeps.
use mathlib.Core.Path.{subst}
use ycsb_lsm.Base.{
  ℕ, ◌+◌, ◌%◌, ◌^◌, ◌≤◌, ◌<◌, suc, ltb, ◌>>=◌, ◌≡◌, ◌≢◌, refl, sym, ap, ◌∙◌, Bool, true, false, not,
  ◌&&◌, [], ok, fault, undefined, assert, through, ok_inj, Bool-cases, inl, inr, arith, ==_iff,
}
use ycsb_lsm.Base.Int.{ℤ, pos, ltb_ℤ}
use ycsb_lsm.Platform.{Platform}
use ycsb_lsm.Db.{k_ok, k_error_no_data, code, Db, eq_int}
use ycsb_lsm.Workload.{
  CoreWorkload, Operation, insert, read, update, scan, readmodifywrite, zeroread, all, thread0,
  next_table, next_sequence_key, next_transaction_key, next_scan_length, build_values,
}
use ycsb_lsm.Client.{
  slot, Counters, add_at, System, Client, Shared, wanted_fields, new_values, transaction_read,
  transaction_read_modify_write, transaction_scan, transaction_update, transaction_insert, to_int,
  count, count_zero_read, perform, run_operation,
}

module _ (P : Platform) (D : Db) (S : System P.World) where
  -- The slots from ALL on have not changed.
  abbrev Kept : Shared P D S → Shared P D S → Type 0
  Kept s s' = (j : ℕ) → 6 ≤ j → s'.ops j ≡ s.ops j

  abbrev Result : Type 0
  Result = (ℤ × Shared P D S) × P.World

  kept :
      (s : Shared P D S) {status : ℤ} {wl : CoreWorkload P} {db : D.State} {w : P.World}
      {r : Result}
      → ok ((status, record s { workload = wl; db = db }), w) ≡ ok r
      → Kept s r.0.1
  kept s e j h = subst (λ (r : Result). r.0.1.ops j ≡ s.ops j) (ok_inj e) refl

  Kept-read :
      (fuel : ℕ) (s : Shared P D S) (w : P.World) {r : Result}
      → transaction_read P D S fuel s w ≡ ok r
      → Kept s r.0.1
  unfolding transaction_read
  Kept-read fuel s w {r} e =
      through (next_transaction_key P fuel s.workload w) _ e λ ((key, wl), w') _ e.
        through (D.read s.db (next_table P s.workload) key (wanted_fields P D S wl).0 []) _ e
          λ ((status, result), db) _ e. kept s e

  Kept-update :
      (fuel : ℕ) (s : Shared P D S) (w : P.World) {r : Result}
      → transaction_update P D S fuel s w ≡ ok r
      → Kept s r.0.1
  unfolding transaction_update
  Kept-update fuel s w {r} e =
      through (next_transaction_key P fuel s.workload w) _ e λ ((key, wl), w₁) _ e.
        through (new_values P D S wl w₁) _ e λ ((values, wl₁), w₂) _ e.
          through (D.update s.db (next_table P s.workload) key values) _ e
            λ (status, db) _ e. kept s e

  Kept-insert :
      (s : Shared P D S) (w : P.World) {r : Result}
      → transaction_insert P D S s w ≡ ok r
      → Kept s r.0.1
  unfolding transaction_insert
  Kept-insert s w {r} e =
      through (build_values P (next_sequence_key P s.workload).1 w) _ e λ ((values, wl), w₁) _ e.
        through (D.insert s.db (next_table P s.workload) (next_sequence_key P s.workload).0 values)
          _ e λ (status, db) _ e. kept s e

  Kept-scan :
      (fuel : ℕ) (s : Shared P D S) (w : P.World) {r : Result}
      → transaction_scan P D S fuel s w ≡ ok r
      → Kept s r.0.1
  unfolding transaction_scan
  Kept-scan fuel s w {r} e =
      through (next_transaction_key P fuel s.workload w) _ e λ ((key, wl), w₁) _ e.
        through (next_scan_length P wl w₁) _ e λ ((len, wl₁), w₂) _ e.
          through
            (D.scan s.db (next_table P s.workload) key (to_int P D S len)
              (wanted_fields P D S wl₁).0)
            _ e λ ((status, result), db) _ e. kept s e

  Kept-read_modify_write :
      (fuel : ℕ) (s : Shared P D S) (w : P.World) {r : Result}
      → transaction_read_modify_write P D S fuel s w ≡ ok r
      → Kept s r.0.1
  unfolding transaction_read_modify_write
  Kept-read_modify_write fuel s w {r} e =
      through (next_transaction_key P fuel s.workload w) _ e λ ((key, wl), w₁) _ e.
        through (D.read s.db (next_table P s.workload) key (wanted_fields P D S wl).0 []) _ e
          λ (_, db) _ e.
            through (new_values P D S (wanted_fields P D S wl).1 w₁) _ e λ ((values, wl₁), w₂) _ e.
              through (D.update db (next_table P s.workload) key values) _ e
                λ (status, db') _ e. kept s e

  add_at_other : (i j n : ℕ) (counters : Counters) → j ≢ i → add_at i n counters j ≡ counters j
  unfolding add_at
  add_at_other i j n counters h = ground (arith, ==_iff j i)

  -- Counting changes the slot only, which the arrays have.
  count-eq :
      (i n : ℕ) (s s' : Shared P D S)
      → count P D S i n s ≡ ok s'
      → (i < 256) × (s'.ops ≡ add_at i 1 s.ops)
  unfolding count
  count-eq i n s s' e = elim (Bool-cases (ltb i 256)) [
    | inl a ↦
        let counted : ok (record s { ops = add_at i 1 s.ops; durations = add_at i n s.durations })
            ≡ ok s' =
          rw a at e in
        (ground (arith, a), sym (ap (λ (x : Shared P D S). x.ops) (ok_inj counted)))
    | inr a ↦ let stopped : fault undefined ≡ ok s' = rw a at e in cc
  ]

  Kept-count :
      (s s₁ : Shared P D S) (status : ℤ) (w : P.World) {r : Result} (i n : ℕ)
      → i ≤ 5
      → Kept s s₁
      → (count P D S i n s₁ >>= λ s₂. ok ((status, s₂), w)) ≡ ok r
      → Kept s r.0.1
  Kept-count s s₁ status w i n small k e = through (count P D S i n s₁) _ e λ s₂ counted e j h.
      ap (λ (r : Result). r.0.1.ops j) (sym (ok_inj e))
      ∙ ap (λ (a : Counters). a j) (count-eq i n s₁ s₂ counted).1
      ∙ add_at_other i j 1 s₁.ops (omega arith)
      ∙ k j h

  Kept-zero_read :
      (c : Client P D S) (status : ℤ) (n : ℕ) (s : Shared P D S) {s' : Shared P D S}
      → count_zero_read P D S c status n s ≡ ok s'
      → Kept s s'
  unfolding count_zero_read
  Kept-zero_read c status n s {s'} e j h =
      elim (Bool-cases (c.latency_open && eq_int status (code k_error_no_data))) [
        | inr a ↦
            let same : ok s ≡ ok s' = rw a at e in
            sym (ap (λ (x : Shared P D S). x.ops j) (ok_inj same))
        | inl a ↦ elim (Bool-cases c.nlatency_open) [
          | inl b ↦
              let counted : count P D S (slot zeroread) n s ≡ ok s' = rw (a, b) at e in
              ap (λ (a : Counters). a j) (count-eq 5 n s s' counted).1
              ∙ add_at_other 5 j 1 s.ops (omega arith)
          | inr b ↦ let stopped : fault undefined ≡ ok s' = rw (a, b) at e in cc
        ]
      ]

  Kept-perform :
      (fuel : ℕ) (c : Client P D S) (op : Operation) (s : Shared P D S) (w : P.World) {r : Result}
      → perform P D S fuel c op s w ≡ ok r
      → Kept s r.0.1
  unfolding perform
  Kept-perform fuel c read s w e =
      through (transaction_read P D S fuel s w) _ e λ ((status, s₁), w₁) run e.
        through (count_zero_read P D S c status (S.elapsed w₁).0 s₁) _ e λ s₂ counted e.
          Kept-count s s₂ status (S.elapsed w₁).1 1 (S.elapsed w₁).0 (omega arith)
            (λ j h.
              Kept-zero_read c status (S.elapsed w₁).0 s₁ counted j h ∙ Kept-read fuel s w run j h)
            e
  Kept-perform fuel c update s w e =
      through (transaction_update P D S fuel s w) _ e λ ((status, s₁), w₁) run e.
        Kept-count s s₁ status (S.elapsed w₁).1 0 (S.elapsed w₁).0 (omega arith)
          (Kept-update fuel s w run) e
  Kept-perform fuel c insert s w e =
      through (transaction_insert P D S s w) _ e λ ((status, s₁), w₁) run e.
        Kept-count s s₁ status (S.elapsed w₁).1 0 (S.elapsed w₁).0 (omega arith)
          (Kept-insert s w run) e
  Kept-perform fuel c scan s w e = Kept-scan fuel s w e
  Kept-perform fuel c readmodifywrite s w e = Kept-read_modify_write fuel s w e
  Kept-perform fuel c zeroread s w e = cc
  Kept-perform fuel c all s w e = cc
  Kept-perform fuel c thread0 s w e = cc

  add_at_same : (i n : ℕ) (counters : Counters) → add_at i n counters i ≡ (counters i + n) % 2 ^ 64
  unfolding add_at
  add_at_same i n counters = ground (arith, ==_iff i i)

  -- What a transaction with this status and result has done to the counters, `t` being some other
  -- thread.
  abbrev pub Counted : Shared P D S → ℕ → ℕ → (Bool × Shared P D S) × P.World → Type 0
  Counted s t_id t r =
      (slot thread0 + t_id < 256)
      × (r.0.1.ops (slot all) ≡ (s.ops (slot all) + 1) % 2 ^ 64)
      × (r.0.1.ops (slot thread0 + t_id) ≡ (s.ops (slot thread0 + t_id) + 1) % 2 ^ 64)
      × (r.0.1.ops (slot thread0 + t) ≡ s.ops (slot thread0 + t))
      × ((status : ℤ) × (ltb_ℤ status (pos 0) ≡ false) × (r.0.0 ≡ eq_int status (code k_ok)))

  pub run_operation_counts :
      (fuel : ℕ) (c : Client P D S) (op : Operation) (s : Shared P D S) (w : P.World) (t : ℕ)
      {r : (Bool × Shared P D S) × P.World}
      → t ≢ c.t_id
      → run_operation P D S fuel true c op s w ≡ ok r
      → Counted s c.t_id t r
  unfolding run_operation
  run_operation_counts fuel c op s w t {r} other e =
      through (perform P D S fuel c op s w) _ e λ ((status, s₁), w₁) run e.
        through (assert (not (ltb_ℤ status (pos 0)))) _ e λ _ passed e.
          let total : Shared P D S = record s₁ { ops = add_at 6 1 s₁.ops } in
          let own = 7 + c.t_id in
          through (count P D S own (S.elapsed w₁).0 total) _ e λ s₂ counted e.
            let kept = Kept-perform fuel c op s w run in
            let sign : ltb_ℤ status (pos 0) ≡ false = ground (arith, passed) in
            let (room, slots) = count-eq own (S.elapsed w₁).0 total s₂ counted in
            let at : (j : ℕ) → s₂.ops j ≡ add_at own 1 total.ops j =
              λ j. ap (λ (a : Counters). a j) slots in
            let plus = λ (x : ℕ). (x + 1) % 2 ^ 64 in
            subst (Counted s c.t_id t) (ok_inj e) (
              room,
              at 6
                  ∙ add_at_other own 6 1 total.ops (omega arith)
                  ∙ add_at_same 6 1 s₁.ops
                  ∙ ap plus (kept 6 (omega arith)),
              at own
                  ∙ add_at_same own 1 total.ops
                  ∙ ap plus (add_at_other 6 own 1 s₁.ops (omega arith) ∙ kept own (omega arith)),
              at (7 + t)
                  ∙ add_at_other own (7 + t) 1 total.ops (omega arith)
                  ∙ add_at_other 6 (7 + t) 1 s₁.ops (omega arith)
                  ∙ kept (7 + t) (omega arith),
              (status, sign, refl),
            )

  -- A transaction of a thread without a slot in the arrays ends normally in no case.
  pub run_operation_overrun :
      (fuel : ℕ) (c : Client P D S) (op : Operation) (s : Shared P D S) (w : P.World)
      {r : (Bool × Shared P D S) × P.World}
      → 256 ≤ slot thread0 + c.t_id
      → run_operation P D S fuel true c op s w ≢ ok r
  run_operation_overrun fuel c op s w beyond e =
      let counted = run_operation_counts fuel c op s w (suc c.t_id) (λ h. omega arith) e in
      omega (arith, counted.0, beyond)
