-- ===== src/Driver/Loads/Skips.antt =====
-- The loading loop of ycsbc.cc with a skip ratio: which records it leaves out.
use mathlib.Core.Path.{subst}
use ycsb_lsm.Base.{
  ℕ, zero, suc, ◌+◌, ◌%◌, ◌^◌, ◌<◌, ◌≡◌, ◌≢◌, ◌⊎◌, inl, inr, refl, sym, ◌∙◌, Bool, true, false, not,
  none, Bytes, ◌==◌, ==_iff, Returns, Bool-cases, arith, All, All-below, below,
}
use ycsb_lsm.Base.Int.{pos, is_zero, to_u64}
use ycsb_lsm.Platform.{Platform, IsStandard}
use ycsb_lsm.UnorderedMap.{Container, IsContainer}
use ycsb_lsm.HashtableDb.{KeyHashtable, hashtable_db}
use ycsb_lsm.HashtableDb.Contract.{record_at}
use ycsb_lsm.Client.{System, Shared}
use ycsb_lsm.Driver.{is_skipped, bit_of, load_loop}
use ycsb_lsm.Driver.Loads.{index_of, IsLoadable, IsThere}
use ycsb_lsm.Driver.Loads.Rounds.{
  State, slot_of, Ready, Differs, Filled, Filled-subst, slots_differ, Rounded, insert-Rounded,
}

-- The rounds from `i` on, `n` of them, whose number is a multiple of `r`.
abbrev pub multiples : ℕ → ℕ → ℕ → ℕ
multiples r i zero = 0
multiples r i (suc n) = bit_of (i % r == 0) + multiples r (i + 1) n

is_skipped-pos : (r i : ℕ) → 0 < r → r < 2 ^ 64 → is_skipped (pos r) i ≡ not (i % r == 0)
unfolding is_skipped to_u64
is_skipped-pos r i h k =
    let whole : r % 2 ^ 64 ≡ r = omega arith in
    let some_ratio : is_zero (pos r) ≡ false = ground arith in
    rw (is_skipped, some_ratio, whole) refl

module _ (C : Container) (laws : IsContainer C) (P : Platform) (std : IsStandard P)
    (S : System P.World) (lo hi : ℕ) where
  -- What the loop has done from round `i` on.
  record Skipped (r i n oks : ℕ) (s : (State C laws P std S lo hi))
      (e : ℕ × (State C laws P std S lo hi)) : Type 0 where
    counted : e.0 ≡ oks + multiples r i n
    filled :
        (k : ℕ)
        → k < n
        → Filled C laws P std S lo hi ((i + k) % r == 0) e.1.db (slot_of C laws P std S lo hi s k)
    frame :
        (j : Bytes)
        → ((k : ℕ) → k < n → Differs C laws P std S lo hi (slot_of C laws P std S lo hi s k) j)
        → record_at C e.1.db j ≡ record_at C s.db j

  Skipped-step :
      (r i n oks : ℕ) (s : (State C laws P std S lo hi))
      (one : (Bool × (State C laws P std S lo hi)) × P.World) (e : ℕ × (State C laws P std S lo hi))
      → Ready C laws P std S lo hi (suc n) s
      → Rounded C laws P std S lo hi (i % r == 0) n s one
      → Skipped r (i + 1) n (oks + bit_of (i % r == 0)) one.0.1 e
      → Skipped r i (suc n) oks s e
  Skipped-step r i n oks s one e h a l = record {
    counted = omega (arith, l.counted);
    filled = λ k.
        elim k
          as (λ k.
            k < suc n
            → Filled C laws P std S lo hi ((i + k) % r == 0) e.1.db
                (slot_of C laws P std S lo hi s k)) [
                  | zero ↦ λ p.
                      let same_round : i + 0 ≡ i = omega arith in
                      let left : record_at C e.1.db (slot_of C laws P std S lo hi s 0)
                          ≡ record_at C one.0.1.db (slot_of C laws P std S lo hi s 0) =
                        l.frame (slot_of C laws P std S lo hi s 0) (λ k q.
                          subst
                            (λ j. Differs C laws P std S lo hi j (slot_of C laws P std S lo hi s 0))
                            (sym (a.moved k q))
                            (slots_differ C laws P std S lo hi (suc n) (suc k) 0 s h (omega arith)
                              (omega arith) (λ x. omega arith))) in
                      subst
                        (λ m.
                          Filled C laws P std S lo hi (m % r == 0) e.1.db
                            (slot_of C laws P std S lo hi s 0))
                        (sym same_round)
                        (Filled-subst C laws P std S lo hi (i % r == 0) one.0.1.db e.1.db
                          (slot_of C laws P std S lo hi s 0) left a.filled)
                  | suc m ↦ λ p.
                      let later : (i + 1) + m ≡ i + suc m = omega arith in
                      subst
                        (λ x.
                          Filled C laws P std S lo hi (x % r == 0) e.1.db
                            (slot_of C laws P std S lo hi s (suc m)))
                        later
                        (subst (Filled C laws P std S lo hi (((i + 1) + m) % r == 0) e.1.db)
                          (a.moved m (omega arith)) (l.filled m (omega arith)))
                ];
    frame = λ j apart.
        l.frame j (λ k p.
          subst (λ x. Differs C laws P std S lo hi x j) (sym (a.moved k p))
            (apart (suc k) (omega arith)))
        ∙ a.frame j (apart 0 (omega arith));
  }

  load_loop-Skipped :
      (r n i oks : ℕ) (s : (State C laws P std S lo hi)) (w : P.World)
      → 0 < r
      → r < 2 ^ 64
      → Ready C laws P std S lo hi n s
      → Returns (load_loop P (hashtable_db C) S (pos r) n i oks s w) (λ e. Skipped r i n oks s e.0)
  unfolding load_loop
  load_loop-Skipped r zero i oks s w p q h = (
    ((oks, s), w),
    refl,
    record { counted = omega arith; filled = λ k x. absurd (omega arith); frame = λ j x. refl },
  )
  load_loop-Skipped r (suc n) i oks s w p q h = elim (Bool-cases (i % r == 0)) [
    | inl e ↦
        let (((b, s'), w'), run, a) = insert-Rounded C laws P std S lo hi true n s w h in
        let (end, ran_on, l) = load_loop-Skipped r n (i + 1) (oks + 1) s' w' p q a.ready in
        (
          end,
          rw (load_loop, is_skipped-pos r i p q, e, run, a.done) ran_on,
          Skipped-step r i n oks s ((b, s'), w') end.0 h
              (subst (λ b₁. Rounded C laws P std S lo hi b₁ n s ((b, s'), w')) (sym e) a)
              (subst (λ b₁. Skipped r (i + 1) n (oks + bit_of b₁) s' end.0) (sym e) l),
        )
    | inr e ↦
        let (((b, s'), w'), run, a) = insert-Rounded C laws P std S lo hi false n s w h in
        let (end, ran_on, l) = load_loop-Skipped r n (i + 1) oks s' w' p q a.ready in
        let same_count : oks ≡ oks + 0 = omega arith in
        (
          end,
          rw (load_loop, is_skipped-pos r i p q, e, run) ran_on,
          Skipped-step r i n oks s ((b, s'), w') end.0 h
              (subst (λ b₁. Rounded C laws P std S lo hi b₁ n s ((b, s'), w')) (sym e) a)
              (subst (λ b₁. Skipped r (i + 1) n (oks + bit_of b₁) s' end.0) (sym e)
                (subst (λ x. Skipped r (i + 1) n x s' end.0) same_count l)),
        )
  ]

  -- The record of round `k` is there if the skip ratio divides `k`, and otherwise it is not.
  abbrev pub IsLeft : ℕ → KeyHashtable C → ℕ → Bytes → Type 0
  IsLeft r db k j =
      ((k % r ≡ 0) × IsThere C laws P std S lo hi db j) ⊎ ((k % r ≢ 0) × (record_at C db j ≡ none))

  Filled-IsLeft :
      (r k : ℕ) (db : KeyHashtable C) (j : Bytes)
      → Filled C laws P std S lo hi (k % r == 0) db j
      → IsLeft r db k j
  Filled-IsLeft r k db j f = elim (Bool-cases (k % r == 0)) [
    | inl e ↦ inl ((==_iff (k % r) 0).0 e, subst (λ b. Filled C laws P std S lo hi b db j) e f)
    | inr e ↦ inr (
      λ divides. let clash : false ≡ true = sym e ∙ (==_iff (k % r) 0).1 divides in cc,
      subst (λ b. Filled C laws P std S lo hi b db j) e f,
    )
  ]

  -- With ordered inserts and a positive skip ratio, loading `n` records into a database that has none of them ends
  -- normally. Then the record of a round is there if the ratio divides the number of the round, and
  -- otherwise it is not; the inserts that count are as many as the rounds that the ratio divides.
  pub load_loop_skips :
      (r n oks : ℕ) (s : Shared P (hashtable_db C) S) (w : P.World)
      → 0 < r
      → r < 2 ^ 64
      → IsLoadable C laws P std S lo hi n s.workload
      → ((m : ℕ)
          → m < n
          → record_at C s.db (index_of s.workload.table_name (s.workload.key_generator.counter + m))
            ≡ none)
      → Returns (load_loop P (hashtable_db C) S (pos r) n 0 oks s w) λ e.
        (e.0.0 ≡ oks + multiples r 0 n)
        × All
            (λ k.
              IsLeft r e.0.1.db k
                (index_of s.workload.table_name (s.workload.key_generator.counter + k)))
            (below n)
  load_loop_skips r n oks s w p q h absent =
      let (end, run, l) = load_loop-Skipped r n 0 oks s w p q (h, absent) in
      (
        end,
        run,
        (
          l.counted,
          All-below n (λ k x.
              let same_round : 0 + k ≡ k = omega arith in
              Filled-IsLeft r k end.0.1.db (slot_of C laws P std S lo hi s k) (
                subst
                  (λ m.
                    Filled C laws P std S lo hi (m % r == 0) end.0.1.db
                      (slot_of C laws P std S lo hi s k))
                  same_round (l.filled k x))),
        ),
      )
