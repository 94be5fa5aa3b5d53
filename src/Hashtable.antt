-- ===== src/Hashtable.antt =====
-- lib/string.h, lib/string_hashtable.h, lib/stl_hashtable.h and lib/lock_stl_hashtable.h: hash tables
-- keyed by C strings. A `LockStlHashtable` holds its lock during each operation, so its operations are
-- those of `StlHashtable`, one after the other. A pointer to a value is modelled as the value; `none`
-- is NULL. Memory is not modelled: the copies of keys that `String::Copy` makes are the keys.
pub mod Text
pub mod Laws
pub mod Tbb
pub mod Locks
pub mod Memory
use ycsb_lsm.Base.{
  ℕ, ◌+◌, ◌-◌, ◌*◌, ◌%◌, ◌^◌, Bool, true, false, ◌&&◌, List, [], ◌∷◌, Option, none, some, Bytes,
  same, ltb, ◌==◌, if◌then◌else◌, take, length, Run, ok, fault, assertion,
}
use ycsb_lsm.UnorderedMap.{Container}

-- The bytes of a C string: those before the first NUL.
unfoldable pub c_str : Bytes → Bytes
c_str [] = []
c_str (c ∷ s) = if c == 0 then [] else c ∷ c_str s

-- `String`
pub record String : Type 0 where
  pub hash : ℕ
  pub value : Bytes
  pub len : ℕ

-- The loop of `SDBMHash`. A byte from 128 on is a negative `char`.
unfoldable pub sdbm_from : ℕ → Bytes → ℕ
sdbm_from hash [] = hash
sdbm_from hash (c ∷ s) =
    let wide = if ltb c 128 then c else 2 ^ 64 - 256 + c in
    sdbm_from ((wide + hash * 2 ^ 6 + hash * 2 ^ 16 + 2 ^ 64 - hash) % 2 ^ 64) s

-- `SDBMHash`
unfoldable pub sdbm_hash : Bytes → ℕ
unfolding sdbm_from
sdbm_hash s = sdbm_from 0 s

-- `set_value`, and so `Wrap` and `Copy` of the C string at a pointer into the bytes
unfoldable pub wrap : Bytes → String
unfolding c_str sdbm_hash
wrap cstr = record { hash = sdbm_hash (c_str cstr); value = c_str cstr; len = length (c_str cstr) }

-- `operator==`
unfoldable pub string_eq : String → String → Bool
string_eq a b = if a.hash == b.hash then same a.value b.value else false

module _ (C : Container) {V : Type 0} where
  -- `Get`
  unfoldable pub get : Bytes → C.Map V → Option V
  unfolding wrap
  get key table = C.find (wrap key).value table

  -- `Insert`; `insert` of the container leaves a key that is there as it is.
  unfoldable pub insert : Option Bytes → V → C.Map V → Bool × C.Map V
  unfolding wrap
  insert none value table = (false, table)
  insert (some key) value table = elim (C.find (wrap key).value table) [
    | none ↦ (true, C.add (wrap key).value value table)
    | some old ↦ (false, table)
  ]

  -- `Update`, which returns the old value
  unfoldable pub update : Bytes → V → C.Map V → Option V × C.Map V
  unfolding wrap
  update key value table = elim (C.find (wrap key).value table) [
    | none ↦ (none, table)
    | some old ↦ (some old, C.replace (wrap key).value value table)
  ]

  -- `Remove`, which returns the old value
  unfoldable pub remove : Bytes → C.Map V → Option V × C.Map V
  unfolding wrap
  remove key table = elim (C.find (wrap key).value table) [
    | none ↦ (none, table)
    | some old ↦ (some old, C.erase (wrap key).value table)
  ]

  -- The entries from the one with the key on.
  unfoldable pub entries_from : Bytes → List (Bytes × V) → List (Bytes × V)
  entries_from key [] = []
  entries_from key ((k, v) ∷ rest) = if same k key then (k, v) ∷ rest else entries_from key rest

  -- `Entries`; without a key, from the first entry on
  unfoldable pub entries : Option Bytes → ℕ → C.Map V → List (Bytes × V)
  unfolding wrap entries_from
  entries none n table = take n (C.elements table)
  entries (some key) n table = take n (entries_from (wrap key).value (C.elements table))

  -- `Size`
  unfoldable pub size : C.Map V → ℕ
  size table = length (C.elements table)
