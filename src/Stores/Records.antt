-- ===== src/Stores/Records.antt =====
-- The operations on records as operations on a map from keys to values.
use ycsb_lsm.Base.{
  ℕ, suc, zero, ◌+◌, ◌≤◌, ◌<◌, ◌≡◌, ◌≢◌, ◌⊎◌, inl, inr, refl, ok_inj, ap, leb, undefined, ◌∙◌, sym,
  true, List, [], ◌∷◌, Option, none, some, Bytes, same, same_refl, Bool-cases, if◌then◌else◌,
  length, arith, ok, fault, exit, Returns,
}
use ycsb_lsm.Base.Int.{ℤ, pos_part}
use ycsb_lsm.Db.{k_ok, k_error_no_data, code, FieldPair}
use ycsb_lsm.Stores.{
  Found, not_found, failed, found, Engine, Store, read_record, put_all, insert_values,
  delete_values, advance, scan_entries,
}

-- What the stores document: `Get` returns the value of the key, if it can be read, and changes nothing;
-- a `Put` that succeeds gives the key its value.
pub record IsEngine (E : Engine) : Type 0 where
  pub contents : E.State → Bytes → Option Bytes
  pub get-found : (s : E.State) (k v : Bytes) → (E.get s k).0 ≡ found v → contents s k ≡ some v
  pub get-not_found : (s : E.State) (k : Bytes) → (E.get s k).0 ≡ not_found → contents s k ≡ none
  pub contents-get : (s : E.State) (k j : Bytes) → contents (E.get s k).1 j ≡ contents s j
  pub contents-put :
      (s : E.State) (k j v : Bytes)
      → (E.put s k v).0 ≡ true
      → contents (E.put s k v).1 j ≡ (if same k j then some v else contents s j)

module _ (E : Engine) (status : ℕ) where
  -- The loop of `Insert` counts the pairs, or a `Put` fails.
  put_all-cases :
      (values : List FieldPair) (db : E.State) (key : Bytes) (n m : ℕ)
      → n + length values ≡ m
      → (put_all E status db key values n ≡ fault (exit status))
        ⊎ ((db' : E.State) × (put_all E status db key values n ≡ ok (m, db')))
  unfolding put_all
  put_all-cases [] db key n m h = let e : n ≡ m = omega (arith, h) in inr (db, rw e refl)
  put_all-cases ((name, v) ∷ values) db key n m h = elim (Bool-cases (E.put db key v).0) [
    | inl done ↦
        rw (put_all, done)
          (put_all-cases values (E.put db key v).1 key (n + 1) m (omega (arith, h)))
    | inr refused ↦ inl (rw (put_all, refused) refl)
  ]

  -- `Insert`, and so `Update`, of a number of pairs that is not one ends the program, whatever the store
  -- does.
  pub insert_values_exit :
      (s : Store E) (table key : Bytes) (values : List FieldPair)
      → length values ≢ 1
      → insert_values E status s table key values ≡ fault (exit status)
  unfolding insert_values
  insert_values_exit s table key values h =
      elim (put_all-cases values s.db key 0 (length values) (omega arith)) [
        | inl stopped ↦ rw stopped refl
        | inr (db', counted) ↦ rw counted (ground (arith, h))
      ]

  -- `Delete` passes no pair to `Insert`, so it ends the program and never deletes.
  pub delete_values_exit :
      (s : Store E) (table key : Bytes) → delete_values E status s table key ≡ fault (exit status)
  unfolding delete_values
  delete_values_exit s table key = insert_values_exit s table key [] (omega arith)

  -- The state of the database after a `Put`.
  abbrev pub put_state : Store E → Bytes → Bytes → Store E
  put_state s key v = record s { db = (E.put s.db key v).1 }

  -- `Insert` of one pair is one `Put`.
  insert_values_one :
      (s : Store E) (table key name v : Bytes)
      → insert_values E status s table key ((name, v) ∷ [])
        ≡ (if (E.put s.db key v).0 then ok (code k_ok, put_state s key v) else fault (exit status))
  unfolding insert_values put_all
  insert_values_one s table key name v = elim (Bool-cases (E.put s.db key v).0) [
    | inl done ↦ rw (insert_values, put_all, done) refl
    | inr refused ↦ rw (insert_values, put_all, refused) refl
  ]

Found-cases : (got : Found) → (got ≡ not_found) ⊎ (got ≡ failed) ⊎ ((v : Bytes) × (got ≡ found v))
Found-cases not_found = inl refl
Found-cases failed = inr (inl refl)
Found-cases (found v) = inr (inr (v, refl))

-- What a call of `Read` returns: the code for a key with that value or without one, and the vector as it
-- was given.
abbrev pub answer : Option Bytes → List FieldPair → ℤ × List FieldPair
answer none result = (code k_error_no_data, result)
answer (some v) result = (code k_ok, result)

module _ (E : Engine) (status : ℕ) (laws : IsEngine E) where
  -- `Read` of a key with a value returns `kOK`, and of a key without one `kErrorNoData`, unless the store
  -- reports an error, which ends the program. It leaves `result` and the contents as they are.
  pub read_record_lem :
      (s : Store E) (table key : Bytes) (fields : Option (List Bytes)) (result : List FieldPair)
      → (read_record E status s table key fields result ≡ fault (exit status))
        ⊎ Returns (read_record E status s table key fields result) (λ r.
          (r.0 ≡ answer (laws.contents s.db key) result)
          × ((j : Bytes) → laws.contents r.1.db j ≡ laws.contents s.db j))
  unfolding read_record
  read_record_lem s table key fields result = elim (Found-cases (E.get s.db key).0) [
    | inl e ↦ inr (
      ((code k_error_no_data, result), record s { db = (E.get s.db key).1 }),
      rw (read_record, e) refl,
      (rw (laws.get-not_found s.db key e) refl, laws.contents-get s.db key),
    )
    | inr (inl e) ↦ inl (rw (read_record, e) refl)
    | inr (inr (v, e)) ↦ inr (
      ((code k_ok, result), record { db = (E.get s.db key).1; has_read = true }),
      rw (read_record, e) refl,
      (rw (laws.get-found s.db key v e) refl, laws.contents-get s.db key),
    )
  ]

  -- `Insert` of one pair gives the key its value and leaves the other keys alone, or the store reports an
  -- error, which ends the program.
  pub insert_values_lem :
      (s : Store E) (table key name v : Bytes)
      → (insert_values E status s table key ((name, v) ∷ []) ≡ fault (exit status))
        ⊎ Returns (insert_values E status s table key ((name, v) ∷ [])) (λ r.
          (r.0 ≡ code k_ok)
          × ((j : Bytes)
              → laws.contents r.1.db j ≡ (if same key j then some v else laws.contents s.db j)))
  insert_values_lem s table key name v = elim (Bool-cases (E.put s.db key v).0) [
    | inl done ↦ inr (
      (code k_ok, put_state E status s key v),
      insert_values_one E status s table key name v ∙ rw done refl,
      (refl, λ j. laws.contents-put s.db key j v done),
    )
    | inr refused ↦ inl (insert_values_one E status s table key name v ∙ rw refused refl)
  ]

  contents-insert_values :
      (s s' : Store E) (table key name v : Bytes) (result : ℤ)
      → insert_values E status s table key ((name, v) ∷ []) ≡ ok (result, s')
      → laws.contents s'.db key ≡ some v
  contents-insert_values s s' table key name v result run =
      elim (insert_values_lem s table key name v) [
        | inl stopped ↦ cc
        | inr (r, returned, (_, stored)) ↦
            let same_end : r ≡ (result, s') = ok_inj (sym returned ∙ run) in
            ap (λ x. laws.contents x.1.db key) (sym same_end) ∙ stored key ∙ rw (same_refl key) refl
      ]

  -- After an `Insert` that returned, `Read` of the key under any table returns `kOK` and the vector as it
  -- was given, or the store reports an error, which ends the program.
  pub read_record-insert_values :
      (s s' : Store E) (table table' key name v : Bytes) (inserted : ℤ)
      (fields : Option (List Bytes)) (result : List FieldPair)
      → insert_values E status s table key ((name, v) ∷ []) ≡ ok (inserted, s')
      → (read_record E status s' table' key fields result ≡ fault (exit status))
        ⊎ Returns
            (read_record E status s' table' key fields result)
            (λ r. r.0 ≡ (code k_ok, result))
  read_record-insert_values s s' table table' key name v inserted fields result run =
      let stored = contents-insert_values s s' table key name v inserted run in
      elim (read_record_lem s' table' key fields result) [
        | inl stopped ↦ inl stopped
        | inr (r, returned, (answered, _)) ↦
            inr (r, returned, answered ∙ ap (λ c. answer c result) stored)
      ]

advance_enough :
    (E : Engine) (n : ℕ) (entries : List (Bytes × Bytes))
    → n ≤ length entries
    → Returns (advance E n entries) (λ rest. n + length rest ≡ length entries)
unfolding advance
advance_enough E zero entries h = (entries, refl, omega arith)
advance_enough E (suc n) [] h = absurd (omega (arith, h))
advance_enough E (suc n) (entry ∷ rest) h =
    let (left, ran, count) = advance_enough E n rest (omega (arith, h)) in
    (left, ran, omega (arith, count))

advance_short :
    (E : Engine) (n : ℕ) (entries : List (Bytes × Bytes))
    → length entries < n
    → advance E n entries ≡ fault undefined
unfolding advance
advance_short E zero entries h = absurd (omega (arith, h))
advance_short E (suc n) [] h = refl
advance_short E (suc n) (entry ∷ rest) h = advance_short E n rest (omega (arith, h))

-- `Scan` returns `kOK` and stores no record in its result, whatever it passes over, if the store has at least
-- `len` entries from the key on; core/db.h asks for the records there. With fewer it calls `Next` on an iterator that is not valid.
pub scan_entries_lem :
    (E : Engine) (s : Store E) (table key : Bytes) (len : ℤ) (fields : Option (List Bytes))
    → scan_entries E s table key len fields ≡ (
        if leb (pos_part len) (length (E.seek s.db key))
        then ok ((code k_ok, []), s)
        else fault undefined)
unfolding scan_entries
scan_entries_lem E s table key len fields =
    let n = pos_part len in
    let entries = E.seek s.db key in
    elim (Bool-cases (leb n (length entries))) [
      | inl enough ↦
          let (rest, ran, _) = advance_enough E n entries (ground (arith, enough)) in
          rw (scan_entries, ran, enough) refl
      | inr short ↦ rw (scan_entries, advance_short E n entries (ground (arith, short)), short) refl
    ]
