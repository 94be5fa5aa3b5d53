-- ===== src/Hashtable/Laws.antt =====
-- What `Get` returns after each operation of lib/stl_hashtable.h.
use ycsb_lsm.Base.{
  ℕ, ◌≡◌, refl, ◌≤◌, take-all, same_iff, same-eq, true, false, none, some, Bytes, same,
  if◌then◌else◌, arith, Option-cases, inl, inr, length,
}
use ycsb_lsm.UnorderedMap.{Container, IsContainer, lookup}
use ycsb_lsm.Hashtable.{c_str, wrap, get, insert, update, remove, entries}

module _ (C : Container) (laws : IsContainer C) {V : Type 0} where
  pub get-empty : (j : Bytes) → get C j (C.empty {V = V}) ≡ none
  unfolding get
  get-empty j = laws.find-empty (wrap j).value

  -- Two keys with one text are one key.
  pub get-same :
      (k j : Bytes) (m : C.Map V) → same (c_str k) (c_str j) ≡ true → get C j m ≡ get C k m
  unfolding get wrap
  get-same k j m h = let e : c_str k ≡ c_str j = same-eq (c_str k) (c_str j) h in rw (get, e) refl

  -- `Insert` enters a new key with its value and returns true. It returns false and leaves the table
  -- alone if the key is there.
  pub get-insert :
      (k j : Bytes) (v : V) (m : C.Map V)
      → (get C k m ≡ none
          → ((insert C (some k) v m).0 ≡ true)
            × (get C j (insert C (some k) v m).1
                ≡ (if same (c_str k) (c_str j) then some v else get C j m)))
        × ((old : V) → get C k m ≡ some old → insert C (some k) v m ≡ (false, m))
  unfolding get insert wrap
  get-insert k j v m = (
    λ h. (rw (insert, h) refl, rw (insert, h) (laws.find-add (c_str k) (c_str j) v m h)),
    λ old h. rw (insert, h) refl,
  )

  -- `Update` replaces the value of a key that is there and returns the old one. It returns NULL and
  -- leaves the table alone otherwise.
  pub get-update :
      (k j : Bytes) (v : V) (m : C.Map V)
      → (get C k m ≡ none → update C k v m ≡ (none, m))
        × ((old : V)
            → get C k m ≡ some old
            → ((update C k v m).0 ≡ some old)
              × (get C j (update C k v m).1
                  ≡ (if same (c_str k) (c_str j) then some v else get C j m)))
  unfolding get update wrap
  get-update k j v m = (
    λ h. rw (update, h) refl,
    λ old h.
        (rw (update, h) refl, rw (update, h) (laws.find-replace (c_str k) (c_str j) v old m h)),
  )

  -- `Remove` returns the value of the key, or NULL, and afterwards the key is not there.
  pub get-remove :
      (k j : Bytes) (m : C.Map V)
      → ((remove C k m).0 ≡ get C k m)
        × (get C j (remove C k m).1 ≡ (if same (c_str k) (c_str j) then none else get C j m))
  unfolding get remove wrap
  get-remove k j m = elim (Option-cases (C.find (c_str k) m)) [
    | inl h ↦ (rw (remove, h) refl, ground (arith, h, same_iff (c_str k) (c_str j)))
    | inr (old, h) ↦
        (rw (remove, h) refl, rw (remove, h) (laws.find-erase (c_str k) (c_str j) old m h))
  ]

  -- All entries together are the table: the first with a key has the value that `Get` returns.
  pub lookup-entries :
      (j : Bytes) (n : ℕ) (m : C.Map V)
      → length (C.elements m) ≤ n
      → lookup (c_str j) (entries C none n m) ≡ get C j m
  unfolding entries get wrap
  lookup-entries j n m h = rw (take-all (C.elements m) n h) (laws.lookup-elements (c_str j) m)
