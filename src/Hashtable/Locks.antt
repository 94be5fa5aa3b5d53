-- ===== src/Hashtable/Locks.antt =====
-- The locks of lib/lock_stl_hashtable.h, lib/tbb_rand_hashtable.h and lib/tbb_scan_hashtable.h: which
-- operations can overlap when several threads use one table.
use ycsb_lsm.Base.{
  ℕ, zero, suc, ◌+◌, ◌≡◌, ◌≢◌, ◌⊎◌, inl, inr, refl, ap, Bool, true, false, List, [], ◌∷◌, ◌++◌,
  arith, All,
}

pub data TableOperation : Type 0 where
  get_op insert_op update_op remove_op entries_op size_op : TableOperation

-- How an operation takes the lock of its table: as a reader, as a writer, or not at all.
pub data Mode : Type 0 where
  reader writer unlocked : Mode

-- `std::lock_guard` of a mutex
unfoldable pub lock_stl_mode : TableOperation → Mode
lock_stl_mode op = writer

-- `scoped_lock lock(mutex_, false)` for readers; `Entries` has no second argument, and `Size` takes no
-- lock.
unfoldable pub tbb_rand_mode : TableOperation → Mode
tbb_rand_mode get_op = reader
tbb_rand_mode insert_op = reader
tbb_rand_mode update_op = reader
tbb_rand_mode remove_op = reader
tbb_rand_mode entries_op = writer
tbb_rand_mode size_op = unlocked

unfoldable pub tbb_scan_mode : TableOperation → Mode
tbb_scan_mode get_op = reader
tbb_scan_mode insert_op = reader
tbb_scan_mode update_op = writer
tbb_scan_mode remove_op = writer
tbb_scan_mode entries_op = reader
tbb_scan_mode size_op = unlocked

mode-cases : (m : Mode) → (m ≡ reader) ⊎ ((m ≡ writer) ⊎ (m ≡ unlocked))
mode-cases reader = inl refl
mode-cases writer = inr (inl refl)
mode-cases unlocked = inr (inr refl)

-- The operations that have begun and not ended, the latest first.
abbrev pub Inside : Type 0
Inside = List TableOperation

module _ (mode : TableOperation → Mode) where
  -- How many of the operations hold the lock as a reader, and as a writer.
  abbrev pub reads : Mode → ℕ
  reads reader = 1
  reads _ = 0

  abbrev pub writes : Mode → ℕ
  writes writer = 1
  writes _ = 0

  abbrev pub readers : Inside → ℕ
  readers [] = 0
  readers (op ∷ inside) = reads (mode op) + readers inside

  abbrev pub writers : Inside → ℕ
  writers [] = 0
  writers (op ∷ inside) = writes (mode op) + writers inside

  -- A reader enters if there is no writer, a writer if nobody holds the lock, and an operation without the lock at
  -- any time; any operation may leave.
  pub data Step (before after : Inside) : Type 0 where
    enter_reader :
        (op : TableOperation)
        → mode op ≡ reader
        → writers before ≡ 0
        → after ≡ op ∷ before
        → Step before after
    enter_writer :
        (op : TableOperation)
        → mode op ≡ writer
        → readers before ≡ 0
        → writers before ≡ 0
        → after ≡ op ∷ before
        → Step before after
    enter_unlocked :
        (op : TableOperation) → mode op ≡ unlocked → after ≡ op ∷ before → Step before after
    leave :
        (front back : Inside) (op : TableOperation)
        → before ≡ front ++ (op ∷ back)
        → after ≡ front ++ back
        → Step before after

  -- What can be inside, from a free lock on.
  pub data Reach : Inside → Type 0 where
    free : Reach []
    step : {before after : Inside} → Reach before → Step before after → Reach after

  -- No writer, or one writer and no reader.
  abbrev pub IsExclusive : Inside → Type 0
  IsExclusive inside = (writers inside ≡ 0) ⊎ ((writers inside ≡ 1) × (readers inside ≡ 0))

  readers-middle :
      (front back : Inside) (op : TableOperation)
      → readers (front ++ (op ∷ back)) ≡ reads (mode op) + readers (front ++ back)
  readers-middle [] back op = refl
  readers-middle (x ∷ front) back op = omega (arith, readers-middle front back op)

  writers-middle :
      (front back : Inside) (op : TableOperation)
      → writers (front ++ (op ∷ back)) ≡ writes (mode op) + writers (front ++ back)
  writers-middle [] back op = refl
  writers-middle (x ∷ front) back op = omega (arith, writers-middle front back op)

  fewer :
      (r r' w w' a b : ℕ)
      → r ≡ a + r'
      → w ≡ b + w'
      → (w ≡ 0) ⊎ ((w ≡ 1) × (r ≡ 0))
      → (w' ≡ 0) ⊎ ((w' ≡ 1) × (r' ≡ 0))
  fewer r r' w w' a b p q (inl h) = inl (omega arith)
  fewer r r' w zero a b p q (inr (h, k)) = inl refl
  fewer r r' w (suc w') a b p q (inr (h, k)) = inr (omega arith, omega arith)

  Step-IsExclusive :
      {before after : Inside} → Step before after → IsExclusive before → IsExclusive after
  Step-IsExclusive (enter_reader op is_reader nobody entered) h =
      inl (rw (entered, is_reader) (omega (arith, nobody)))
  Step-IsExclusive (enter_writer op is_writer no_reader no_writer entered) h = inr (
    rw (entered, is_writer) (omega (arith, no_writer)),
    rw (entered, is_writer) (omega (arith, no_reader)),
  )
  Step-IsExclusive {before} (enter_unlocked op is_unlocked entered) h =
      rw (entered, is_unlocked)
        (fewer (readers before) (0 + readers before) (writers before) (0 + writers before) 0 0
          (omega arith) (omega arith) h)
  Step-IsExclusive {before} {after} (leave front back op was now) h =
      fewer (readers before) (readers after) (writers before) (writers after) (reads (mode op))
        (writes (mode op)) (rw (was, now) (readers-middle front back op))
        (rw (was, now) (writers-middle front back op)) h

  Reach-IsExclusive : {inside : Inside} → Reach inside → IsExclusive inside
  Reach-IsExclusive free = inl refl
  Reach-IsExclusive (step reached taken) = Step-IsExclusive taken (Reach-IsExclusive reached)

  nobody-AreUnlocked :
      (inside : Inside)
      → readers inside ≡ 0
      → writers inside ≡ 0
      → All (λ op. mode op ≡ unlocked) inside
  nobody-AreUnlocked [] h k = tt
  nobody-AreUnlocked (op ∷ inside) h k = elim (mode-cases (mode op)) [
    | inl is_reader ↦ absurd (omega (arith, h, ap reads is_reader))
    | inr (inl is_writer) ↦ absurd (omega (arith, k, ap writes is_writer))
    | inr (inr is_unlocked) ↦
        (is_unlocked, nobody-AreUnlocked inside (omega (arith, h)) (omega (arith, k)))
  ]

  -- Whenever an operation that writes holds the lock, no other operation does.
  writer_alone :
      (front back : Inside) (op : TableOperation)
      → Reach (front ++ (op ∷ back))
      → mode op ≡ writer
      → All (λ other. mode other ≡ unlocked) (front ++ back)
  writer_alone front back op reached is_writer =
      let one = ap writes is_writer in
      elim (Reach-IsExclusive reached) [
        | inl nobody ↦ absurd (omega (arith, nobody, one, writers-middle front back op))
        | inr (one_writer, no_reader) ↦
            nobody-AreUnlocked (front ++ back)
              (omega (arith, no_reader, readers-middle front back op))
              (omega (arith, one_writer, one, writers-middle front back op))
      ]

-- The three tables that threads share.
pub data SharedTable : Type 0 where
  lock_stl tbb_rand tbb_scan : SharedTable

abbrev pub mode_of : SharedTable → TableOperation → Mode
mode_of lock_stl = lock_stl_mode
mode_of tbb_rand = tbb_rand_mode
mode_of tbb_scan = tbb_scan_mode

-- The operations that may not overlap others: all of them on the map that is not safe for threads, the walk over
-- the elements of `concurrent_hash_map`, and what writes or erases elements of `concurrent_unordered_map`.
abbrev pub needs_alone : SharedTable → TableOperation → Bool
needs_alone lock_stl op = true
needs_alone tbb_rand entries_op = true
needs_alone tbb_rand _ = false
needs_alone tbb_scan update_op = true
needs_alone tbb_scan remove_op = true
needs_alone tbb_scan _ = false

needs_alone-writer :
    (table : SharedTable) (op : TableOperation)
    → needs_alone table op ≡ true
    → mode_of table op ≡ writer
unfolding lock_stl_mode tbb_rand_mode tbb_scan_mode
needs_alone-writer lock_stl op h = refl
needs_alone-writer tbb_rand get_op h = cc
needs_alone-writer tbb_rand insert_op h = cc
needs_alone-writer tbb_rand update_op h = cc
needs_alone-writer tbb_rand remove_op h = cc
needs_alone-writer tbb_rand entries_op h = refl
needs_alone-writer tbb_rand size_op h = cc
needs_alone-writer tbb_scan get_op h = cc
needs_alone-writer tbb_scan insert_op h = cc
needs_alone-writer tbb_scan update_op h = refl
needs_alone-writer tbb_scan remove_op h = refl
needs_alone-writer tbb_scan entries_op h = cc
needs_alone-writer tbb_scan size_op h = cc

-- `Size` of a table on TBB.
abbrev pub IsTbbSize : SharedTable → TableOperation → Type 0
IsTbbSize table op = (table ≢ lock_stl) × (op ≡ size_op)

unlocked-IsTbbSize :
    (table : SharedTable) (op : TableOperation) → mode_of table op ≡ unlocked → IsTbbSize table op
unfolding lock_stl_mode tbb_rand_mode tbb_scan_mode
unlocked-IsTbbSize lock_stl op h = cc
unlocked-IsTbbSize tbb_rand get_op h = cc
unlocked-IsTbbSize tbb_rand insert_op h = cc
unlocked-IsTbbSize tbb_rand update_op h = cc
unlocked-IsTbbSize tbb_rand remove_op h = cc
unlocked-IsTbbSize tbb_rand entries_op h = cc
unlocked-IsTbbSize tbb_rand size_op h = (λ e. cc, refl)
unlocked-IsTbbSize tbb_scan get_op h = cc
unlocked-IsTbbSize tbb_scan insert_op h = cc
unlocked-IsTbbSize tbb_scan update_op h = cc
unlocked-IsTbbSize tbb_scan remove_op h = cc
unlocked-IsTbbSize tbb_scan entries_op h = cc
unlocked-IsTbbSize tbb_scan size_op h = (λ e. cc, refl)

All-unlocked :
    (table : SharedTable) (inside : Inside)
    → All (λ op. mode_of table op ≡ unlocked) inside
    → All (IsTbbSize table) inside
All-unlocked table [] h = tt
All-unlocked table (op ∷ inside) (first, h) =
    (unlocked-IsTbbSize table op first, All-unlocked table inside h)

-- From a free lock on, no operation overlaps one of a `LockStlHashtable`, and none but `Size` overlaps `Entries`
-- of a `TbbRandHashtable`, or `Update` or `Remove` of a `TbbScanHashtable`.
pub alone_lem :
    (table : SharedTable) (front back : Inside) (op : TableOperation)
    → Reach (mode_of table) (front ++ (op ∷ back))
    → needs_alone table op ≡ true
    → All (IsTbbSize table) (front ++ back)
alone_lem table front back op reached needs =
    All-unlocked table (front ++ back)
      (writer_alone (mode_of table) front back op reached (needs_alone-writer table op needs))

-- `Size` of a table on TBB can overlap `Remove` of a `TbbScanHashtable`.
pub Size-overlaps : Reach (mode_of tbb_scan) (size_op ∷ remove_op ∷ [])
unfolding tbb_scan_mode
Size-overlaps =
    step (step free (enter_writer remove_op refl refl refl refl)) (enter_unlocked size_op refl refl)
