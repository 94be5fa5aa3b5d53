-- ===== src/Hashtable/Tbb/Equal.antt =====
-- The hash tables on TBB do what the one on `std::unordered_map` does.
use ycsb_lsm.Base.{
  ℕ, length, ◌≡◌, refl, take, [], ◌∷◌, ap, Bool, true, false, List, Option, none, some, Bytes,
  Option-cases, inl, inr,
}
use ycsb_lsm.UnorderedMap.{Container}
use ycsb_lsm.Hashtable.{wrap, get, insert, update, remove, entries, entries_from, size}
use ycsb_lsm.Hashtable.Tbb.{
  ConcurrentMap, elements_from, rand_get, rand_insert, rand_update, rand_remove, rand_entries,
  rand_size, scan_get, scan_insert, scan_update, scan_remove, scan_entries, scan_size,
}

-- What TBB documents of `insert` and `size`: `insert` inserts a key that is not there and leaves one that is there
-- alone, and the size of a map that no other thread uses is the number of its elements.
pub record InsertsNew (M : ConcurrentMap) : Type 1 where
  pub insert-new :
      {V : Type 0} (k : Bytes) (v : V) (m : M.Map V) → M.find k m ≡ none → (M.insert k v m).0 ≡ true
  pub insert-old :
      {V : Type 0} (k : Bytes) (v old : V) (m : M.Map V)
      → M.find k m ≡ some old
      → M.insert k v m ≡ (false, m)
  pub size-elements : {V : Type 0} (m : M.Map V) → M.size m ≡ length (M.elements m)

-- The map of TBB as a container with the operations of `std::unordered_map`.
abbrev pub container_of : ConcurrentMap → Container
container_of M = record {
  Map = M.Map;
  empty = M.empty;
  find = λ k m. M.find k m;
  add = λ k v m. (M.insert k v m).1;
  replace = λ k v m. M.assign k v m;
  erase = λ k m. M.erase k m;
  elements = λ m. M.elements m;
}

-- An operation on the value type `V`, for each of the tables.
pub record Table (State V : Type 0) : Type 0 where
  pub get : Bytes → State → Option V
  pub insert : Option Bytes → V → State → Bool × State
  pub update : Bytes → V → State → Option V × State
  pub remove : Bytes → State → Option V × State
  pub entries : Option Bytes → ℕ → State → List (Bytes × V)
  pub size : State → ℕ

-- Two tables whose operations do the same.
pub record Agree {State V : Type 0} (a b : Table State V) : Type 0 where
  pub get : (k : Bytes) (m : State) → a.get k m ≡ b.get k m
  pub insert : (k : Option Bytes) (v : V) (m : State) → a.insert k v m ≡ b.insert k v m
  pub update : (k : Bytes) (v : V) (m : State) → a.update k v m ≡ b.update k v m
  pub remove : (k : Bytes) (m : State) → a.remove k m ≡ b.remove k m
  pub entries : (k : Option Bytes) (n : ℕ) (m : State) → a.entries k n m ≡ b.entries k n m
  pub size : (m : State) → a.size m ≡ b.size m

elements_from-eq :
    (C : Container) {V : Type 0} (key : Bytes) (l : List (Bytes × V))
    → elements_from key l ≡ entries_from C key l
unfolding elements_from entries_from
elements_from-eq C key [] = refl
elements_from-eq C key ((k, v) ∷ rest) = rw (elements_from-eq C key rest) refl

module _ (M : ConcurrentMap) {V : Type 0} where
  -- The operations of the three classes.
  abbrev pub stl_table : Table (M.Map V) V
  stl_table = record {
    get = get (container_of M);
    insert = insert (container_of M);
    update = update (container_of M);
    remove = remove (container_of M);
    entries = entries (container_of M);
    size = size (container_of M);
  }

  abbrev pub rand_table : Table (M.Map V) V
  rand_table = record {
    get = rand_get M;
    insert = rand_insert M;
    update = rand_update M;
    remove = rand_remove M;
    entries = rand_entries M;
    size = rand_size M;
  }

  abbrev pub scan_table : Table (M.Map V) V
  scan_table = record {
    get = scan_get M;
    insert = scan_insert M;
    update = scan_update M;
    remove = scan_remove M;
    entries = scan_entries M;
    size = scan_size M;
  }

module _ (M : ConcurrentMap) (laws : InsertsNew M) {V : Type 0} where
  insert-eq :
      (k : Bytes) (v : V) (m : M.Map V)
      → M.insert (wrap k).value v m ≡ insert (container_of M) (some k) v m
  unfolding insert
  insert-eq k v m = elim (Option-cases (M.find (wrap k).value m)) [
    | inl absent ↦
        rw (insert, absent)
          (ap (λ b. (b, (M.insert (wrap k).value v m).1)) (laws.insert-new _ v m absent))
    | inr (old, there) ↦ rw (insert, there) (laws.insert-old _ v old m there)
  ]

  rand_insert-eq :
      (k : Option Bytes) (v : V) (m : M.Map V) → rand_insert M k v m ≡ insert (container_of M) k v m
  unfolding rand_insert insert
  rand_insert-eq none v m = refl
  rand_insert-eq (some k) v m = insert-eq k v m

  rand_entries-eq :
      (k : Option Bytes) (n : ℕ) (m : M.Map V)
      → rand_entries M k n m ≡ entries (container_of M) k n m
  unfolding rand_entries entries
  rand_entries-eq none n m = refl
  rand_entries-eq (some k) n m =
      ap (take n) (elements_from-eq (container_of M) (wrap k).value (M.elements m))

  scan_insert-eq :
      (k : Option Bytes) (v : V) (m : M.Map V) → scan_insert M k v m ≡ insert (container_of M) k v m
  unfolding scan_insert insert
  scan_insert-eq none v m = refl
  scan_insert-eq (some k) v m = insert-eq k v m

  scan_entries-eq :
      (k : Option Bytes) (n : ℕ) (m : M.Map V)
      → scan_entries M k n m ≡ entries (container_of M) k n m
  unfolding scan_entries entries
  scan_entries-eq none n m = refl
  scan_entries-eq (some k) n m =
      ap (take n) (elements_from-eq (container_of M) (wrap k).value (M.elements m))

  -- `TbbRandHashtable` and `TbbScanHashtable` do in each operation what `StlHashtable` does on the same
  -- map.
  pub tbb_tables-Agree :
      Agree (rand_table M {V = V}) (stl_table M) × Agree (scan_table M {V = V}) (stl_table M)
  unfolding rand_get rand_update rand_remove scan_get scan_update scan_remove get update remove
      rand_size scan_size size
  tbb_tables-Agree = (
    record {
      get = λ k m. refl;
      insert = rand_insert-eq;
      update = λ k v m. refl;
      remove = λ k m. refl;
      entries = rand_entries-eq;
      size = laws.size-elements;
    },
    record {
      get = λ k m. refl;
      insert = scan_insert-eq;
      update = λ k v m. refl;
      remove = λ k m. refl;
      entries = scan_entries-eq;
      size = laws.size-elements;
    },
  )
