-- ===== src/Hashtable/Memory/Tables.antt =====
-- The copies of keys through any history of calls of lib/stl_hashtable.h.
use mathlib.Core.Path.{subst, fun_ext}
use ycsb_lsm.Base.{
  ℕ, ◌+◌, ◌≡◌, refl, sym, ap, ◌∙◌, inl, inr, List, [], ◌∷◌, ◌++◌, Option, none, some, Bytes, same,
  same_refl, true, ok, same-eq, length, length-append, Bool-cases, Option-cases, Returns, arith,
}
use mathlib.Core.List.{append_assoc}
use ycsb_lsm.UnorderedMap.{Container, IsContainer}
use ycsb_lsm.Hashtable.{c_str, wrap}
use ycsb_lsm.Hashtable.Memory.{
  Allocator, IsAllocator, Node, Table, StoredKey, free_key, find_node, get_node, insert_node,
  update_node, remove_node, TableCall, get_call, insert_call, update_call, remove_call, serve,
  serve_all,
}
use ycsb_lsm.Hashtable.Memory.Copies.{IsCopy, copy-IsCopy}
use ycsb_lsm.Hashtable.Memory.Ledger.{
  Addresses, assign, IsOwned, IsOwned-leak, IsOwned-add, IsOwned-remove,
}

abbrev pub node_address : {V : Type 0} → Option (Node V) → Option ℕ
node_address none = none
node_address (some n) = some n.first.value_

module _ (A : Allocator) (rules : IsAllocator A) (C : Container) (laws : IsContainer C) (V : Type 0)
    (base : A.Heap) (plenty : (n : ℕ) (h : A.Heap) → (p : ℕ) × ((A.malloc n h).0 ≡ some p)) where
  -- Where the table has the copy of each key.
  abbrev pub addresses : C.Map (Node V) → Addresses
  addresses table k = node_address (C.find k table)

  -- The copies of the keys of a table, with those that are leaked.
  abbrev pub Owns : List ℕ → Table A C V → Type 0
  Owns leaked t = IsOwned A rules base leaked (addresses t.0) t.1

  addresses-add :
      (k : Bytes) (n : Node V) (table : C.Map (Node V))
      → C.find k table ≡ none
      → addresses (C.add k n table) ≡ assign (addresses table) k (some n.first.value_)
  addresses-add k n table h = fun_ext λ j.
      ap node_address (laws.find-add k j n table h)
      ∙ elim (Bool-cases (same k j)) [ inl e ↦ rw e refl | inr e ↦ rw e refl ]

  addresses-erase :
      (k : Bytes) (old : Node V) (table : C.Map (Node V))
      → C.find k table ≡ some old
      → addresses (C.erase k table) ≡ assign (addresses table) k none
  addresses-erase k old table h = fun_ext λ j.
      ap node_address (laws.find-erase k j old table h)
      ∙ elim (Bool-cases (same k j)) [ inl e ↦ rw e refl | inr e ↦ rw e refl ]

  addresses-replace :
      (k : Bytes) (v : V) (old : Node V) (table : C.Map (Node V))
      → C.find k table ≡ some old
      → addresses (C.replace k (record old { second = v }) table) ≡ addresses table
  addresses-replace k v old table h = fun_ext λ j.
      ap node_address (laws.find-replace k j (record old { second = v }) old table h)
      ∙ elim (Bool-cases (same k j)) [
        | inl e ↦
            let there = ap (λ b. C.find b table) (sym (same-eq k j e)) ∙ h in
            rw e (sym (ap node_address there))
        | inr e ↦ rw e refl
      ]

  -- The copy of a key holds its text, so `find` finds the node of the key.
  pub find_node-Owns :
      (leaked : List ℕ) (k : Bytes) (t : Table A C V)
      → Owns leaked t
      → find_node A C k t ≡ ok (C.find k t.0)
  unfolding find_node
  find_node-Owns leaked k t o = elim (Option-cases (C.find k t.0)) [
    | inl absent ↦ rw (find_node, absent) refl
    | inr (n, there) ↦
        let p = n.first.value_ in
        let mine = o.size k p (ap node_address there) in
        let equal : A.strcmp p k t.1 ≡ some true =
          rules.strcmp_used p (length k + 1) k t.1 mine
          ∙ ap (λ s. some (same s k)) (o.text k p (ap node_address there))
          ∙ ap some (same_refl k) in
        rw (find_node, there, equal) refl
  ]

  pub Owns-add :
      (leaked : List ℕ) (t : Table A C V) (h' : A.Heap) (s : StoredKey) (k : Bytes) (v : V)
      → Owns leaked t
      → IsCopy A rules k t.1 s h'
      → C.find k t.0 ≡ none
      → Owns leaked (C.add k (record { first = s; second = v }) t.0, h')
  Owns-add leaked t h' s k v o c absent =
      rw (addresses-add k (record { first = s; second = v }) t.0 absent)
        (IsOwned-add A rules base leaked (addresses t.0) t.1 h' s k o c (ap node_address absent))

  pub Owns-leak :
      (leaked : List ℕ) (t : Table A C V) (h' : A.Heap) (s : StoredKey) (k : Bytes)
      → Owns leaked t
      → IsCopy A rules k t.1 s h'
      → Owns (s.value_ ∷ leaked) (t.0, h')
  Owns-leak leaked t h' s k o c = IsOwned-leak A rules base leaked (addresses t.0) t.1 h' s k o c

  pub Owns-replace :
      (leaked : List ℕ) (t : Table A C V) (k : Bytes) (v : V) (old : Node V)
      → Owns leaked t
      → C.find k t.0 ≡ some old
      → Owns leaked (C.replace k (record old { second = v }) t.0, t.1)
  Owns-replace leaked t k v old o there = rw (addresses-replace k v old t.0 there) o

  pub Owns-erase :
      (leaked : List ℕ) (t : Table A C V) (k : Bytes) (old : Node V)
      → Owns leaked t
      → C.find k t.0 ≡ some old
      → Owns leaked (C.erase k t.0, free_key A old.first t.1)
  unfolding free_key
  Owns-erase leaked t k old o there = rw (addresses-erase k old t.0 there) (
      IsOwned-remove A rules base leaked (addresses t.0) t.1 k old.first.value_ o
        (ap node_address there))

  -- One call: the blocks it leaks are as many as it counts.
  serve-Owns :
      (leaked : List ℕ) (call : TableCall V) (t : Table A C V)
      → Owns leaked t
      → Returns
          (serve A C call t)
          λ r. (more : List ℕ) × (length more ≡ r.0) × Owns (more ++ leaked) r.1
  unfolding serve get_node insert_node update_node remove_node wrap
  serve-Owns leaked (get_call key) t o =
      let k = c_str key in
      elim (Option-cases (C.find k t.0)) [
        | inl absent ↦
            (_, rw (serve, get_node, find_node-Owns leaked k t o, absent) refl, ([], refl, o))
        | inr (old, there) ↦
            (_, rw (serve, get_node, find_node-Owns leaked k t o, there) refl, ([], refl, o))
      ]
  serve-Owns leaked (insert_call none v) t o = (_, refl, ([], refl, o))
  serve-Owns leaked (insert_call (some key) v) t o =
      let k = c_str key in
      let ((s, h'), run, c) = copy-IsCopy A rules plenty key t.1 in
      let lost = Owns-leak leaked t h' s k o c in
      let found = find_node-Owns (s.value_ ∷ leaked) k (t.0, h') lost in
      elim (Option-cases (C.find k t.0)) [
        | inl absent ↦ (
          (0, (C.add k (record { first = s; second = v }) t.0, h')),
          rw (serve, insert_node, run, found, absent) refl,
          ([], refl, Owns-add leaked t h' s k v o c absent),
        )
        | inr (old, there) ↦ (
          (1, (t.0, h')),
          rw (serve, insert_node, run, found, there) refl,
          (s.value_ ∷ [], refl, lost),
        )
      ]
  serve-Owns leaked (update_call key v) t o =
      let k = c_str key in
      elim (Option-cases (C.find k t.0)) [
        | inl absent ↦ (
          (0, t),
          rw (serve, update_node, find_node-Owns leaked k t o, absent) refl,
          ([], refl, o),
        )
        | inr (old, there) ↦ (
          (0, (C.replace k (record old { second = v }) t.0, t.1)),
          rw (serve, update_node, find_node-Owns leaked k t o, there) refl,
          ([], refl, Owns-replace leaked t k v old o there),
        )
      ]
  serve-Owns leaked (remove_call key) t o =
      let k = c_str key in
      elim (Option-cases (C.find k t.0)) [
        | inl absent ↦ (
          (0, t),
          rw (serve, remove_node, find_node-Owns leaked k t o, absent) refl,
          ([], refl, o),
        )
        | inr (old, there) ↦ (
          (0, (C.erase k t.0, free_key A old.first t.1)),
          rw (serve, remove_node, find_node-Owns leaked k t o, there) refl,
          ([], refl, Owns-erase leaked t k old o there),
        )
      ]

  -- While there is memory, any history of calls ends normally. Then every key has a block of its own that is in use and
  -- holds its text; what is in use besides the blocks from before is a block of a key or leaked; and
  -- as many blocks have leaked as calls of `Insert` found their key in the table.
  pub serve_all-Owns :
      (leaked : List ℕ) (calls : List (TableCall V)) (t : Table A C V)
      → Owns leaked t
      → Returns
          (serve_all A C calls t)
          λ r. (more : List ℕ) × (length more ≡ r.0) × Owns (more ++ leaked) r.1
  unfolding serve_all
  serve_all-Owns leaked [] t o = (_, refl, ([], refl, o))
  serve_all-Owns leaked (call ∷ calls) t o =
      let ((n, t'), run, (first, counted, o')) = serve-Owns leaked call t o in
      let ((later, t''), run', (rest, counted', o'')) =
        serve_all-Owns (first ++ leaked) calls t' o' in
      (
        (n + later, t''),
        rw (serve_all, run, run') refl,
        (
          rest ++ first,
          omega (arith, length-append {0} rest first, counted, counted'),
          subst (λ l. Owns l t'') (sym (append_assoc rest first leaked)) o'',
        ),
      )
