-- ===== src/Hashtable/Memory.antt =====
-- The copies of keys in lib/string.h, lib/mem_alloc.h and lib/stl_hashtable.h: `String::Copy` and `String::Free`
-- on the heap of the C library, which is a parameter, and the operations of `StlHashtable` with them.
pub mod Copies
pub mod Ledger
pub mod Tables
pub mod Values
pub mod Model
use ycsb_lsm.Base.{
  ℕ, ◌+◌, ◌<◌, ◌≡◌, Bool, true, false, List, [], ◌∷◌, Option, none, some, Bytes, ◌==◌,
  if◌then◌else◌, length, map, Run, ok, fault, undefined, same, ◌>>=◌,
}
use ycsb_lsm.UnorderedMap.{Container}
use ycsb_lsm.Hashtable.{c_str, sdbm_hash, wrap, entries}

-- `malloc`, `free`, `strcpy`, and whether `strcmp` finds the C string at an address equal to a text; it is `none`
-- where no block is in use, so that the call is undefined. The address of NULL is `none`.
pub record Allocator : Type 1 where
  pub Heap : Type 0
  pub malloc : ℕ → Heap → Option ℕ × Heap
  pub free : ℕ → Heap → Heap
  pub strcpy : ℕ → Bytes → Heap → Heap
  pub strcmp : ℕ → Bytes → Heap → Option Bool

-- What the C standard says of these, by the size of the block at an address, if one is in use, and the
-- C string there.
pub record IsAllocator (A : Allocator) : Type 0 where
  pub size_at : A.Heap → ℕ → Option ℕ
  pub text_at : A.Heap → ℕ → Bytes
  -- a block that `malloc` returns was not in use
  pub malloc_fresh : (n p : ℕ) (h h' : A.Heap) → A.malloc n h ≡ (some p, h') → size_at h p ≡ none
  pub malloc_size :
      (n p q : ℕ) (h h' : A.Heap)
      → A.malloc n h ≡ (some p, h')
      → size_at h' q ≡ (if q == p then some n else size_at h q)
  pub malloc_text :
      (n p q m : ℕ) (h h' : A.Heap)
      → A.malloc n h ≡ (some p, h')
      → size_at h q ≡ some m
      → text_at h' q ≡ text_at h q
  pub free_size :
      (p q n : ℕ) (h : A.Heap)
      → size_at h p ≡ some n
      → size_at (A.free p h) q ≡ (if q == p then none else size_at h q)
  pub free_text :
      (p q n m : ℕ) (h : A.Heap)
      → size_at h p ≡ some n
      → size_at (A.free p h) q ≡ some m
      → text_at (A.free p h) q ≡ text_at h q
  pub strcpy_size :
      (p q n : ℕ) (s : Bytes) (h : A.Heap)
      → size_at h p ≡ some n
      → length s < n
      → size_at (A.strcpy p s h) q ≡ size_at h q
  pub strcpy_text :
      (p q n : ℕ) (s : Bytes) (h : A.Heap)
      → size_at h p ≡ some n
      → length s < n
      → text_at (A.strcpy p s h) q ≡ (if q == p then s else text_at h q)
  pub strcmp_used :
      (p n : ℕ) (s : Bytes) (h : A.Heap)
      → size_at h p ≡ some n
      → A.strcmp p s h ≡ some (same (text_at h p) s)
  pub strcmp_free : (p : ℕ) (s : Bytes) (h : A.Heap) → size_at h p ≡ none → A.strcmp p s h ≡ none

-- A `String` in a table: its `value_` is an address.
pub record StoredKey : Type 0 where
  pub hash_ : ℕ
  pub value_ : ℕ
  pub len_ : ℕ

-- The pair of a key and its value in a table.
pub record Node (V : Type 0) : Type 0 where
  pub first : StoredKey
  pub second : V

module _ (A : Allocator) where
  -- `MemAlloc::Malloc` and `MemAlloc::Free`, which does not use the size
  unfoldable pub mem_malloc : ℕ → A.Heap → Option ℕ × A.Heap
  mem_malloc size h = A.malloc size h

  unfoldable pub mem_free : ℕ → ℕ → A.Heap → A.Heap
  mem_free p size h = A.free p h

  -- `String::Copy<MemAlloc>`; `strcpy` to NULL is undefined.
  unfoldable pub copy : Bytes → A.Heap → Run (StoredKey × A.Heap)
  unfolding c_str sdbm_hash mem_malloc
  copy cstr h =
      let len = length (c_str cstr) in
      let (str, h') = mem_malloc (len + 1) h in
      elim str [
        | none ↦ fault undefined
        | some p ↦ ok (
          record { hash_ = sdbm_hash (c_str cstr); value_ = p; len_ = len },
          A.strcpy p (c_str cstr) h',
        )
      ]

  -- `String::Free<MemAlloc>`
  unfoldable pub free_key : StoredKey → A.Heap → A.Heap
  unfolding mem_free
  free_key hstr h = mem_free hstr.value_ (hstr.len_ + 1) h

-- `table_`, and the heap
abbrev pub Table : Allocator → Container → Type 0 → Type 0
Table A C V = C.Map (Node V) × A.Heap

module _ (A : Allocator) (C : Container) {V : Type 0} where
  -- `find` of a key: the node with its hash, if `String::operator==` finds the text of its copy equal.
  unfoldable pub find_node : Bytes → Table A C V → Run (Option (Node V))
  find_node key (table, h) = elim (C.find key table) [
    | none ↦ ok none
    | some n ↦ elim (A.strcmp n.first.value_ key h) [
      | none ↦ fault undefined
      | some equal ↦ ok (if equal then some n else none)
    ]
  ]

  -- `Get`
  unfoldable pub get_node : Bytes → Table A C V → Run (Option V)
  unfolding wrap find_node
  get_node key t = do
    found ← find_node (wrap key).value t
    elim found [ none ↦ ok none | some n ↦ ok (some n.second) ]

  -- `Insert`; where the key is there already, the copy is not freed.
  unfoldable pub insert_node : Option Bytes → V → Table A C V → Run (Bool × Table A C V)
  unfolding copy wrap find_node
  insert_node none value t = ok (false, t)
  insert_node (some key) value (table, h) = do
    (skey, h') ← copy A key h
    found ← find_node (wrap key).value (table, h')
    elim found [
      | none ↦
          ok (true, (C.add (wrap key).value (record { first = skey; second = value }) table, h'))
      | some old ↦ ok (false, (table, h'))
    ]

  -- `Update`
  unfoldable pub update_node : Bytes → V → Table A C V → Run (Option V × Table A C V)
  unfolding wrap find_node
  update_node key value (table, h) = do
    found ← find_node (wrap key).value (table, h)
    elim found [
      | none ↦ ok (none, (table, h))
      | some n ↦
          ok (some n.second, (C.replace (wrap key).value (record n { second = value }) table, h))
    ]

  -- `Remove`: the copy of the key is freed, then the node erased.
  unfoldable pub remove_node : Bytes → Table A C V → Run (Option V × Table A C V)
  unfolding wrap free_key find_node
  remove_node key (table, h) = do
    found ← find_node (wrap key).value (table, h)
    elim found [
      | none ↦ ok (none, (table, h))
      | some n ↦ ok (some n.second, (C.erase (wrap key).value table, free_key A n.first h))
    ]

  -- The addresses of the keys with the values.
  abbrev pub node_pairs : List (Bytes × Node V) → List (ℕ × V)
  node_pairs = map (λ (e : Bytes × Node V). (e.1.first.value_, e.1.second))

  -- `Entries`
  unfoldable pub node_entries : Option Bytes → ℕ → Table A C V → Run (List (ℕ × V))
  unfolding entries wrap find_node
  node_entries none n (table, h) = ok (node_pairs (entries C none n table))
  node_entries (some key) n (table, h) = do
    found ← find_node (wrap key).value (table, h)
    elim found [ none ↦ ok [] | some _ ↦ ok (node_pairs (entries C (some key) n table)) ]

-- The calls that a client makes of a table.
pub data TableCall (V : Type 0) : Type 0 where
  get_call : Bytes → TableCall V
  insert_call : Option Bytes → V → TableCall V
  update_call : Bytes → V → TableCall V
  remove_call : Bytes → TableCall V

module _ (A : Allocator) (C : Container) {V : Type 0} where
  -- One call, with 1 for an `Insert` of a key that was there.
  unfoldable pub serve : TableCall V → Table A C V → Run (ℕ × Table A C V)
  unfolding get_node insert_node update_node remove_node
  serve (get_call key) t = do _ ← get_node A C key t; ok (0, t)
  serve (insert_call none value) t = ok (0, t)
  serve (insert_call (some key) value) t = do
    (inserted, t') ← insert_node A C (some key) value t
    ok (if inserted then 0 else 1, t')
  serve (update_call key value) t = do (_, t') ← update_node A C key value t; ok (0, t')
  serve (remove_call key) t = do (_, t') ← remove_node A C key t; ok (0, t')

  -- One call after another, with the number of calls of `Insert` that found their key.
  unfoldable pub serve_all : List (TableCall V) → Table A C V → Run (ℕ × Table A C V)
  unfolding serve
  serve_all [] t = ok (0, t)
  serve_all (call ∷ calls) t = do
    (conflicts, t') ← serve call t
    (later, t'') ← serve_all calls t'
    ok (conflicts + later, t'')
