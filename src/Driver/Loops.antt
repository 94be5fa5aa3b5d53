-- ===== src/Driver/Loops.antt =====
-- The loading loop of ycsbc.cc over any database: what one insert does, the whole loop does.
use mathlib.Core.Path.{subst}
use ycsb_lsm.Base.{
  ℕ, zero, suc, ◌+◌, ◌<◌, ◌≡◌, ◌⊎◌, inl, inr, refl, true, Bytes, Fault, Run, fault, Returns, arith,
}
use ycsb_lsm.Base.Int.{pos}
use ycsb_lsm.Platform.{Platform}
use ycsb_lsm.Db.{Db}
use ycsb_lsm.Client.{System, Shared, do_insert}
use ycsb_lsm.Driver.{is_skipped, load_loop}

-- The code ends normally in a value with the property, or in one of the faults.
abbrev pub Ends {ℓ} : {T : Type ℓ} → (Fault → Type 0) → Run T → (T → Type 0) → Type ℓ
Ends Bad code Holds = ((why : Fault) × Bad why × (code ≡ fault why)) ⊎ Returns code Holds

module _ (P : Platform) (D : Db) (S : System P.World) (Bad : Fault → Type 0)
    (Ready : ℕ → Shared P D S → Type 0) (Has : D.State → Bytes → Type 0)
    (index : Shared P D S → ℕ → Bytes) where
  -- One record is there, nothing is lost, and the next records are those that came after it.
  pub record Advances (n : ℕ) (s s' : Shared P D S) : Type 0 where
    pub ready : Ready n s'
    pub moved : (k : ℕ) → k < n → index s' k ≡ index s (suc k)
    pub there : Has s'.db (index s 0)
    pub kept : (j : Bytes) → Has s.db j → Has s'.db j

  -- All inserts have counted, the records of the next `n` indices are there, and so is every record that was there
  -- before.
  pub record Loaded (n oks : ℕ) (s : Shared P D S) (r : ℕ × Shared P D S) : Type 0 where
    pub counted : r.0 ≡ oks + n
    pub there : (k : ℕ) → k < n → Has r.1.db (index s k)
    pub kept : (j : Bytes) → Has s.db j → Has r.1.db j

  Loaded-step :
      (n oks : ℕ) (s s' : Shared P D S) (r : ℕ × Shared P D S)
      → Advances n s s'
      → Loaded n (oks + 1) s' r
      → Loaded (suc n) oks s r
  Loaded-step n oks s s' r a l = record {
    counted = omega (arith, l.counted);
    there = λ k. elim k as (λ k. k < suc n → Has r.1.db (index s k)) [
      | zero ↦ λ p. l.kept (index s 0) a.there
      | suc m ↦ λ p. subst (Has r.1.db) (a.moved m (omega arith)) (l.there m (omega arith))
    ];
    kept = λ j h. l.kept j (a.kept j h);
  }

  -- If an insert advances, or ends in one of the faults, the loop over `n` records loads them all or
  -- ends in one of the faults.
  pub load_loop-Loaded :
      ((n : ℕ) (s : Shared P D S) (w : P.World)
        → Ready (suc n) s
        → Ends Bad (do_insert P D S true s w) (λ r. (r.0.0 ≡ true) × Advances n s r.0.1))
      → (n i oks : ℕ) (s : Shared P D S) (w : P.World) → Ready n s
      → Ends Bad (load_loop P D S (pos 0) n i oks s w) (λ r. Loaded n oks s r.0)
  unfolding load_loop is_skipped
  load_loop-Loaded insert zero i oks s w h = inr (
    ((oks, s), w),
    refl,
    record { counted = omega arith; there = λ k p. absurd (omega arith); kept = λ j e. e },
  )
  load_loop-Loaded insert (suc n) i oks s w h = elim (insert n s w h) [
    | inl (why, bad, stopped) ↦ inl (why, bad, rw (load_loop, stopped) refl)
    | inr (((b, s'), w'), ran, (done, advances)) ↦
        elim (load_loop-Loaded insert n (i + 1) (oks + 1) s' w' advances.ready) [
          | inl (why, bad, stopped) ↦ inl (why, bad, rw (load_loop, ran, done) stopped)
          | inr (r, ran_on, l) ↦
              inr (r, rw (load_loop, ran, done) ran_on, Loaded-step n oks s s' r.0 advances l)
        ]
  ]
