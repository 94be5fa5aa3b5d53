-- ===== src/Hashtable/Memory/Values.antt =====
-- The tables of lib/stl_hashtable.h with the copies of their keys implement the tables without them.
use ycsb_lsm.Base.{
  ◌≡◌, refl, sym, ap, ◌∙◌, inl, inr, ℕ, true, false, List, [], ◌∷◌, ◌++◌, Option, none, some, Bytes,
  same, ok, Bool-cases, Option-cases, Returns, if◌then◌else◌,
}
use ycsb_lsm.UnorderedMap.{Container, IsContainer}
use ycsb_lsm.Hashtable.{c_str, wrap, get, insert, update, remove}
use ycsb_lsm.Hashtable.Memory.{
  Allocator, IsAllocator, Node, Table, free_key, find_node, get_node, insert_node, update_node,
  remove_node,
}
use ycsb_lsm.Hashtable.Memory.Copies.{copy-IsCopy}
use ycsb_lsm.Hashtable.Memory.Tables.{
  Owns, Owns-add, Owns-leak, Owns-replace, Owns-erase, find_node-Owns,
}

abbrev pub value_of : {V : Type 0} → Option (Node V) → Option V
value_of none = none
value_of (some n) = some n.second

module _ (A : Allocator) (rules : IsAllocator A) (C : Container) (laws : IsContainer C) (V : Type 0)
    (base : A.Heap) (plenty : (n : ℕ) (h : A.Heap) → (p : ℕ) × ((A.malloc n h).0 ≡ some p)) where
  -- The two tables have the same keys with the same values.
  abbrev pub HasValues : Table A C V → C.Map V → Type 0
  HasValues t m = (k : Bytes) → value_of (C.find k t.0) ≡ C.find k m

  value-assign :
      (k j : Bytes) (o : Option (Node V)) (t : Table A C V) (m : C.Map V)
      → HasValues t m
      → value_of (if same k j then o else C.find j t.0)
        ≡ (if same k j then value_of o else C.find j m)
  value-assign k j o t m h = elim (Bool-cases (same k j)) [ inl e ↦ rw e refl | inr e ↦ rw e (h j) ]

  -- A key is absent from both tables, or is in both with one value.
  both_cases :
      {Goal : Type 0} (k : Bytes) (t : Table A C V) (m : C.Map V)
      → HasValues t m
      → (C.find k t.0 ≡ none → C.find k m ≡ none → Goal)
      → ((n : Node V) → C.find k t.0 ≡ some n → C.find k m ≡ some n.second → Goal)
      → Goal
  both_cases k t m h absent there = elim (Option-cases (C.find k t.0)) [
    | inl e ↦ absent e (sym (h k) ∙ ap value_of e)
    | inr (n, e) ↦ there n e (sym (h k) ∙ ap value_of e)
  ]

  abbrev Owned : List ℕ → Table A C V → Type 0
  Owned = Owns A rules C laws V base plenty

  -- The table with copies stands for the one without: it has the same keys with the same values, and every copy of
  -- a key is in use and holds the key.
  abbrev pub Implements : List ℕ → Table A C V → C.Map V → Type 0
  Implements leaked t m = Owned leaked t × HasValues t m

  found :
      (leaked : List ℕ) (key : Bytes) (t : Table A C V)
      → Owned leaked t
      → find_node A C (c_str key) t ≡ ok (C.find (c_str key) t.0)
  found leaked key t o = find_node-Owns A rules C laws V base plenty leaked (c_str key) t o

  get-Implements :
      (leaked : List ℕ) (key : Bytes) (t : Table A C V) (m : C.Map V)
      → Implements leaked t m
      → get_node A C key t ≡ ok (get C key m)
  unfolding get_node get wrap
  get-Implements leaked key t m (o, h) =
      both_cases (c_str key) t m h (λ e f. rw (get_node, found leaked key t o, e, f) refl)
        (λ n e f. rw (get_node, found leaked key t o, e, f) refl)

  insert-Implements :
      (leaked : List ℕ) (key : Bytes) (v : V) (t : Table A C V) (m : C.Map V)
      → Implements leaked t m
      → Returns (insert_node A C (some key) v t) (λ r.
        (r.0 ≡ (insert C (some key) v m).0)
        × ((more : List ℕ) × Implements (more ++ leaked) r.1 (insert C (some key) v m).1))
  unfolding insert_node insert wrap
  insert-Implements leaked key v t m (o, h) =
      let k = c_str key in
      let ((s, h'), run, c) = copy-IsCopy A rules plenty key t.1 in
      let lost = Owns-leak A rules C laws V base plenty leaked t h' s k o c in
      let reads = found (s.value_ ∷ leaked) key (t.0, h') lost in
      let n : Node V = record { first = s; second = v } in
      both_cases k t m h
        (λ e f. (
          (true, (C.add k n t.0, h')),
          rw (insert_node, run, reads, e) refl,
          (
            rw (insert, f) refl,
            (
              [],
              (
                Owns-add A rules C laws V base plenty leaked t h' s k v o c e,
                rw (insert, f)
                    (λ j.
                      ap value_of (laws.find-add k j n t.0 e)
                      ∙ value-assign k j (some n) t m h
                      ∙ sym (laws.find-add k j v m f)),
              ),
            ),
          ),
        ))
        (λ old e f. (
          (false, (t.0, h')),
          rw (insert_node, run, reads, e) refl,
          (rw (insert, f) refl, (s.value_ ∷ [], (lost, rw (insert, f) h))),
        ))

  update-Implements :
      (leaked : List ℕ) (key : Bytes) (v : V) (t : Table A C V) (m : C.Map V)
      → Implements leaked t m
      → Returns
          (update_node A C key v t)
          (λ r. (r.0 ≡ (update C key v m).0) × Implements leaked r.1 (update C key v m).1)
  unfolding update_node update wrap
  update-Implements leaked key v t m (o, h) =
      let k = c_str key in
      both_cases k t m h
        (λ e f. (
          (none, t),
          rw (update_node, found leaked key t o, e) refl,
          (rw (update, f) refl, (o, rw (update, f) h)),
        ))
        (λ n e f. (
          (some n.second, (C.replace k (record n { second = v }) t.0, t.1)),
          rw (update_node, found leaked key t o, e) refl,
          (
            rw (update, f) refl,
            (
              Owns-replace A rules C laws V base plenty leaked t k v n o e,
              rw (update, f)
                  (λ j.
                    ap value_of (laws.find-replace k j (record n { second = v }) n t.0 e)
                    ∙ value-assign k j (some (record n { second = v })) t m h
                    ∙ sym (laws.find-replace k j v n.second m f)),
            ),
          ),
        ))

  remove-Implements :
      (leaked : List ℕ) (key : Bytes) (t : Table A C V) (m : C.Map V)
      → Implements leaked t m
      → Returns
          (remove_node A C key t)
          (λ r. (r.0 ≡ (remove C key m).0) × Implements leaked r.1 (remove C key m).1)
  unfolding remove_node remove wrap
  remove-Implements leaked key t m (o, h) =
      let k = c_str key in
      both_cases k t m h
        (λ e f. (
          (none, t),
          rw (remove_node, found leaked key t o, e) refl,
          (rw (remove, f) refl, (o, rw (remove, f) h)),
        ))
        (λ n e f. (
          (some n.second, (C.erase k t.0, free_key A n.first t.1)),
          rw (remove_node, found leaked key t o, e) refl,
          (
            rw (remove, f) refl,
            (
              Owns-erase A rules C laws V base plenty leaked t k n o e,
              rw (remove, f)
                  (λ j.
                    ap value_of (laws.find-erase k j n t.0 e)
                    ∙ value-assign k j none t m h
                    ∙ sym (laws.find-erase k j n.second m f)),
            ),
          ),
        ))

  -- While there is memory, from a table with copies that stands for one without, `Get`, `Insert`, `Update` and
  -- `Remove` end normally and return the same as without them, and the tables stand for each other again: they
  -- have the same keys and values, and every key has a block of its own that is in use and holds its text.
  pub operations-Implement :
      (leaked : List ℕ) (key : Bytes) (v : V) (t : Table A C V) (m : C.Map V)
      → Implements leaked t m
      → (get_node A C key t ≡ ok (get C key m))
        × Returns (insert_node A C (some key) v t) (λ r.
          (r.0 ≡ (insert C (some key) v m).0)
          × ((more : List ℕ) × Implements (more ++ leaked) r.1 (insert C (some key) v m).1))
        × Returns
            (update_node A C key v t)
            (λ r. (r.0 ≡ (update C key v m).0) × Implements leaked r.1 (update C key v m).1)
        × Returns
            (remove_node A C key t)
            (λ r. (r.0 ≡ (remove C key m).0) × Implements leaked r.1 (remove C key m).1)
  operations-Implement leaked key v t m r = (
    get-Implements leaked key t m r,
    insert-Implements leaked key v t m r,
    update-Implements leaked key v t m r,
    remove-Implements leaked key t m r,
  )
