-- ===== src/Hashtable/Tbb.antt =====
-- lib/tbb_rand_hashtable.h and lib/tbb_scan_hashtable.h: the hash tables on the maps of TBB, which are a
-- parameter. Each operation is one whole step; Locks says which can overlap. As in the other tables a
-- key is the text of its C string.
pub mod Equal
use ycsb_lsm.Base.{
  ℕ, Bool, true, false, List, [], ◌∷◌, Option, none, some, Bytes, take, length, ◌≡◌, same,
  if◌then◌else◌,
}
use ycsb_lsm.Hashtable.{wrap}

-- `tbb::concurrent_hash_map` and `tbb::concurrent_unordered_map`. An element that was found is known by its
-- key.
pub record ConcurrentMap : Type 1 where
  pub Map : Type 0 → Type 0
  pub empty : {V : Type 0} → Map V
  pub find : {V : Type 0} → Bytes → Map V → Option V
  -- `insert` of a pair: whether it was inserted
  pub insert : {V : Type 0} → Bytes → V → Map V → Bool × Map V
  -- assignment to the value of the element found
  pub assign : {V : Type 0} → Bytes → V → Map V → Map V
  -- `erase` and `unsafe_erase` of the element found
  pub erase : {V : Type 0} → Bytes → Map V → Map V
  -- the elements in the order of iteration
  pub elements : {V : Type 0} → Map V → List (Bytes × V)
  pub size : {V : Type 0} → Map V → ℕ

-- The elements from `equal_range(key).first` on.
unfoldable pub elements_from {ℓ} : {V : Type ℓ} → Bytes → List (Bytes × V) → List (Bytes × V)
elements_from key [] = []
elements_from key ((k, v) ∷ rest) =
    let later = elements_from key rest in if same k key then (k, v) ∷ rest else later

module _ (M : ConcurrentMap) {V : Type 0} where
  -- `TbbRandHashtable::Get`
  unfoldable pub rand_get : Bytes → M.Map V → Option V
  unfolding wrap
  rand_get key table = M.find (wrap key).value table

  -- `TbbRandHashtable::Insert`
  unfoldable pub rand_insert : Option Bytes → V → M.Map V → Bool × M.Map V
  unfolding wrap
  rand_insert none value table = (false, table)
  rand_insert (some key) value table = M.insert (wrap key).value value table

  -- `TbbRandHashtable::Update`, which returns the old value
  unfoldable pub rand_update : Bytes → V → M.Map V → Option V × M.Map V
  unfolding wrap
  rand_update key value table = elim (M.find (wrap key).value table) [
    | some old ↦ (some old, M.assign (wrap key).value value table)
    | none ↦ (none, table)
  ]

  -- `TbbRandHashtable::Remove`, which returns the old value
  unfoldable pub rand_remove : Bytes → M.Map V → Option V × M.Map V
  unfolding wrap
  rand_remove key table = elim (M.find (wrap key).value table) [
    | some old ↦ (some old, M.erase (wrap key).value table)
    | none ↦ (none, table)
  ]

  -- `TbbRandHashtable::Entries`
  unfoldable pub rand_entries : Option Bytes → ℕ → M.Map V → List (Bytes × V)
  unfolding wrap elements_from
  rand_entries none n table = take n (M.elements table)
  rand_entries (some key) n table = take n (elements_from (wrap key).value (M.elements table))

  -- `TbbRandHashtable::Size`
  unfoldable pub rand_size : M.Map V → ℕ
  rand_size table = M.size table

  -- `TbbScanHashtable::Get`
  unfoldable pub scan_get : Bytes → M.Map V → Option V
  unfolding wrap
  scan_get key table = M.find (wrap key).value table

  -- `TbbScanHashtable::Insert`
  unfoldable pub scan_insert : Option Bytes → V → M.Map V → Bool × M.Map V
  unfolding wrap
  scan_insert none value table = (false, table)
  scan_insert (some key) value table = M.insert (wrap key).value value table

  -- `TbbScanHashtable::Update`, which returns the old value
  unfoldable pub scan_update : Bytes → V → M.Map V → Option V × M.Map V
  unfolding wrap
  scan_update key value table = elim (M.find (wrap key).value table) [
    | none ↦ (none, table)
    | some old ↦ (some old, M.assign (wrap key).value value table)
  ]

  -- `TbbScanHashtable::Remove`, which returns the old value
  unfoldable pub scan_remove : Bytes → M.Map V → Option V × M.Map V
  unfolding wrap
  scan_remove key table = elim (M.find (wrap key).value table) [
    | none ↦ (none, table)
    | some old ↦ (some old, M.erase (wrap key).value table)
  ]

  -- `TbbScanHashtable::Entries`
  unfoldable pub scan_entries : Option Bytes → ℕ → M.Map V → List (Bytes × V)
  unfolding wrap elements_from
  scan_entries none n table = take n (M.elements table)
  scan_entries (some key) n table = take n (elements_from (wrap key).value (M.elements table))

  -- `TbbScanHashtable::Size`
  unfoldable pub scan_size : M.Map V → ℕ
  scan_size table = M.size table
