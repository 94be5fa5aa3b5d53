-- ===== src/Tests/Memory.antt =====
-- The copies of keys at concrete inputs.
use ycsb_lsm.Base.{
  ℕ, ◌≡◌, refl, List, [], ◌∷◌, ◌++◌, none, some, Bytes, codes, length, ok, Returns, same, inl,
}
use ycsb_lsm.UnorderedMap.{lookup}
use ycsb_lsm.UnorderedMap.Model.{listing, listing-IsContainer}
use ycsb_lsm.Hashtable.{get, insert, update, remove}
use ycsb_lsm.Hashtable.Memory.{
  Table, TableCall, insert_call, remove_call, get_node, insert_node, update_node, remove_node,
  serve_all,
}
use ycsb_lsm.Hashtable.Memory.Model.{Heap, bumping, bumping-IsAllocator}
use ycsb_lsm.Hashtable.Memory.Tables.{Owns, serve_all-Owns}
use ycsb_lsm.Hashtable.Memory.Values.{Implements, operations-Implement}

plenty : (n : ℕ) (h : Heap) → (p : ℕ) × ((bumping.malloc n h).0 ≡ some p)
plenty n h = (h.next, refl)

abbrev fresh_heap : Heap
fresh_heap = record { next = 1; cell = λ q. none }

abbrev no_keys : Table bumping listing Bytes
no_keys = ([], fresh_heap)

no_keys-Owns :
    Owns bumping bumping-IsAllocator listing listing-IsContainer Bytes fresh_heap plenty [] no_keys
unfolding lookup
no_keys-Owns = record {
  size = λ k p h. cc;
  text = λ k p h. cc;
  new = λ k p h. cc;
  apart = λ k p h m. m;
  leaked_new = λ q m. absurd m;
  leaked_used = λ q m. absurd m;
  before = λ q n h. h;
  accounted = λ q n h. inl h;
}

-- One key twice, and removed in the end.
abbrev twice : List (TableCall Bytes)
twice =
    insert_call (some (codes "k")) (codes "1")
    ∷ insert_call (some (codes "k")) (codes "2")
    ∷ remove_call (codes "k")
    ∷ []

serve_all-Owns_example : Returns (serve_all bumping listing twice no_keys) λ r.
    (more : List ℕ) × (length more ≡ r.0)
    × Owns bumping bumping-IsAllocator listing listing-IsContainer Bytes fresh_heap plenty
        (more ++ [])
        r.1
serve_all-Owns_example =
    serve_all-Owns bumping bumping-IsAllocator listing listing-IsContainer Bytes fresh_heap plenty
      [] twice no_keys no_keys-Owns

operations-Implement_example :
    (get_node bumping listing (codes "k") no_keys ≡ ok (get listing (codes "k") []))
    × Returns (insert_node bumping listing (some (codes "k")) (codes "1") no_keys) (λ r.
      (r.0 ≡ (insert listing (some (codes "k")) (codes "1") []).0)
      × ((more : List ℕ) × Implements bumping bumping-IsAllocator listing listing-IsContainer Bytes
            fresh_heap plenty
            (more ++ [])
            r.1
            (insert listing (some (codes "k")) (codes "1") []).1))
    × Returns (update_node bumping listing (codes "k") (codes "1") no_keys) (λ r.
      (r.0 ≡ (update listing (codes "k") (codes "1") []).0)
      × Implements bumping bumping-IsAllocator listing listing-IsContainer Bytes fresh_heap plenty
          [] r.1
          (update listing (codes "k") (codes "1") []).1)
    × Returns (remove_node bumping listing (codes "k") no_keys) (λ r.
      (r.0 ≡ (remove listing {V = Bytes} (codes "k") []).0)
      × Implements bumping bumping-IsAllocator listing listing-IsContainer Bytes fresh_heap plenty
          [] r.1
          (remove listing (codes "k") []).1)
unfolding lookup
operations-Implement_example =
    operations-Implement bumping bumping-IsAllocator listing listing-IsContainer Bytes fresh_heap
      plenty [] (codes "k") (codes "1") no_keys [] (no_keys-Owns, λ k. refl)

-- The address of the leaked copy is still in use.
leak : (h : Heap) × (serve_all bumping listing twice no_keys ≡ ok (1, ([], h)))
unfolding serve_all same lookup
leak = (_, refl)
