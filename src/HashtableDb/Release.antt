-- ===== src/HashtableDb/Release.antt =====
-- db/lock_stl_db.h, db/tbb_rand_db.h and db/tbb_scan_db.h: the three databases in memory, and the strings
-- that their destructors delete, in order. The copies of keys are deleted by no destructor.
use mathlib.Core.Path.{subst}
use mathlib.Core.Option.{some_inj}
use mathlib.Core.List.{Mem, mem-cons_self, mem-cons_of_mem, mem-append_left, mem-append_right}
use ycsb_lsm.Base.{
  ◌≤◌, ◌≡◌, refl, sym, ◌∙◌, inl, inr, ◌⊎◌, List, [], ◌∷◌, ◌++◌, none, some, Bytes, same, length,
  Bool-cases,
}
use ycsb_lsm.UnorderedMap.{Container, IsContainer, lookup}
use ycsb_lsm.Hashtable.{c_str, get, entries}
use ycsb_lsm.Hashtable.Laws.{lookup-entries}
use ycsb_lsm.Hashtable.Tbb.{ConcurrentMap}
use ycsb_lsm.Hashtable.Tbb.Equal.{container_of}
use ycsb_lsm.Db.{Db}
use ycsb_lsm.HashtableDb.{FieldHashtable, KeyHashtable, all_entries, hashtable_db}
use ycsb_lsm.HashtableDb.Contract.{record_at}

-- The loop of `DeleteFieldHashtable`: the string of each pair.
unfoldable pub delete_strings : List (Bytes × Bytes) → List Bytes
delete_strings [] = []
delete_strings ((name, value) ∷ pairs) = value ∷ delete_strings pairs

module _ (C : Container) where
  -- `DeleteFieldHashtable`
  unfoldable pub delete_field_hashtable : FieldHashtable C → List Bytes
  unfolding delete_strings entries
  delete_field_hashtable table = delete_strings (entries C none all_entries table)

  -- The loop of the destructor.
  unfoldable pub delete_tables : List (Bytes × FieldHashtable C) → List Bytes
  unfolding delete_field_hashtable
  delete_tables [] = []
  delete_tables ((key, table) ∷ pairs) = delete_field_hashtable table ++ delete_tables pairs

  -- The destructor
  unfoldable pub destroy : KeyHashtable C → List Bytes
  unfolding delete_tables entries
  destroy key_table = delete_tables (entries C none all_entries key_table)

  -- `LockStlDB`
  abbrev pub lock_stl_db : Db
  lock_stl_db = hashtable_db C

-- `TbbRandDB` and its destructor
abbrev pub tbb_rand_db : ConcurrentMap → Db
tbb_rand_db M = hashtable_db (container_of M)

abbrev pub tbb_rand_destroy : (M : ConcurrentMap) → KeyHashtable (container_of M) → List Bytes
tbb_rand_destroy M = destroy (container_of M)

-- `TbbScanDB` and its destructor
abbrev pub tbb_scan_db : ConcurrentMap → Db
tbb_scan_db M = hashtable_db (container_of M)

abbrev pub tbb_scan_destroy : (M : ConcurrentMap) → KeyHashtable (container_of M) → List Bytes
tbb_scan_destroy M = destroy (container_of M)

-- The first entry with the key is the one that is found, or it is found among the others.
lookup-cases :
    {V : Type 0} (k j : Bytes) (v w : V) (rest : List (Bytes × V))
    → lookup k ((j, w) ∷ rest) ≡ some v
    → (w ≡ v) ⊎ (lookup k rest ≡ some v)
unfolding lookup
lookup-cases k j v w rest h = elim (Bool-cases (same j k)) [
  | inl here ↦
      let e : lookup k ((j, w) ∷ rest) ≡ some w = rw (lookup, here) refl in
      inl (some_inj.0 (sym e ∙ h))
  | inr later ↦
      let e : lookup k ((j, w) ∷ rest) ≡ lookup k rest = rw (lookup, later) refl in inr (sym e ∙ h)
]

mem-delete_strings :
    (name v : Bytes) (pairs : List (Bytes × Bytes))
    → lookup name pairs ≡ some v
    → Mem v (delete_strings pairs)
unfolding lookup delete_strings
mem-delete_strings name v [] h = cc
mem-delete_strings name v ((j, w) ∷ pairs) h = elim (lookup-cases name j v w pairs h) [
  | inl here ↦ subst (λ x. Mem x (w ∷ delete_strings pairs)) here mem-cons_self
  | inr later ↦ mem-cons_of_mem w (mem-delete_strings name v pairs later)
]

mem-delete_tables :
    (C : Container) (k : Bytes) (t : FieldHashtable C) (v : Bytes)
    (pairs : List (Bytes × FieldHashtable C))
    → lookup k pairs ≡ some t
    → Mem v (delete_field_hashtable C t)
    → Mem v (delete_tables C pairs)
unfolding lookup delete_tables
mem-delete_tables C k t v [] h m = cc
mem-delete_tables C k t v ((j, u) ∷ pairs) h m = elim (lookup-cases k j t u pairs h) [
  | inl here ↦
      mem-append_left (delete_tables C pairs)
        (subst (λ x. Mem v (delete_field_hashtable C x)) (sym here) m)
  | inr later ↦
      mem-append_right (delete_field_hashtable C u) (mem-delete_tables C k t v pairs later m)
]

-- The destructor of a database in memory deletes the string of every field of every record.
pub mem-destroy :
    (C : Container) (laws : IsContainer C) (db : KeyHashtable C) (t : FieldHashtable C)
    (index name v : Bytes)
    → length (C.elements db) ≤ all_entries
    → length (C.elements t) ≤ all_entries
    → record_at C db index ≡ some t
    → get C name t ≡ some v
    → Mem v (destroy C db)
unfolding destroy delete_field_hashtable
mem-destroy C laws db t index name v few_records few_fields there field =
    let record_found = lookup-entries C laws index all_entries db few_records ∙ there in
    let field_found = lookup-entries C laws name all_entries t few_fields ∙ field in
    mem-delete_tables C (c_str index) t v (entries C none all_entries db) record_found
      (mem-delete_strings (c_str name) v (entries C none all_entries t) field_found)
