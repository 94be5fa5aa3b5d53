-- ===== src/HashtableDb/Inserts.antt =====
-- `Insert` of db/hashtable_db.cc, and what `Read` returns after it.
use mathlib.Core.Path.{subst}
use mathlib.Core.Option.{or_else}
use ycsb_lsm.Base.{
  ◌≡◌, refl, sym, ap, ◌∙◌, inl, inr, Bool, true, List, [], ◌∷◌, ◌++◌, Option, none, some, Bytes,
  same, same-eq, same_refl, if◌then◌else◌, arith, Option-cases, Bool-cases, All, map,
}
use ycsb_lsm.UnorderedMap.{Container, IsContainer}
use ycsb_lsm.Hashtable.{c_str, get}
use ycsb_lsm.Hashtable.Laws.{get-empty, get-insert}
use ycsb_lsm.Db.{FieldPair, Status, k_ok, k_error_conflict}
use ycsb_lsm.HashtableDb.{
  FieldHashtable, KeyHashtable, pick_fields, field_values, read, copy_string, insert_until_conflict,
  insert_record,
}
use ycsb_lsm.HashtableDb.Records.{first_given, AreNew, insert_until_conflict-AreNew}
use ycsb_lsm.HashtableDb.Contract.{record_at, get-store_new, get-store}

-- No two of the pairs have the same name.
abbrev pub AreDistinct : List FieldPair → Type 0
AreDistinct [] = Unit
AreDistinct ((name, v) ∷ rest) = (first_given name rest ≡ none) × AreDistinct rest

append_nil : (xs : List FieldPair) → xs ++ [] ≡ xs
append_nil [] = refl
append_nil (x ∷ xs) = ap (λ t. x ∷ t) (append_nil xs)

first_given-same :
    (n k : Bytes) (values : List FieldPair)
    → same (c_str n) (c_str k) ≡ true
    → first_given k values ≡ first_given n values
unfolding first_given
first_given-same n k [] h = refl
first_given-same n k ((i, v) ∷ rest) h =
    let e : c_str n ≡ c_str k = same-eq (c_str n) (c_str k) h in
    ground (arith, ap (λ x. same (c_str i) x) e, first_given-same n k rest h)

given-All :
    (values : List FieldPair)
    → AreDistinct values
    → (f : Bytes → Option Bytes) → ((n v : Bytes) → first_given n values ≡ some v → f n ≡ some v)
    → All (λ (e : FieldPair). f e.0 ≡ some (c_str e.1)) values
unfolding first_given
given-All [] d f h = tt
given-All ((name, v) ∷ rest) d f h = (
  h name (c_str v) (rw (first_given, same_refl (c_str name)) refl),
  given-All rest d.1 f (λ n w e. h n w (elim (Bool-cases (same (c_str name) (c_str n))) [
    | inl b ↦ let twice = first_given-same name n rest b in cc (d.0)
    | inr b ↦ rw (first_given, b) e
  ])),
)

module _ (C : Container) where
  -- The table of fields that `Insert` starts from.
  abbrev pub start_of : Option (FieldHashtable C) → FieldHashtable C
  start_of none = C.empty
  start_of (some t) = t

module _ (C : Container) (laws : IsContainer C) where
  AreDistinct-AreNew : (values : List FieldPair) → AreDistinct values → AreNew C laws values C.empty
  AreDistinct-AreNew [] d = tt
  AreDistinct-AreNew ((name, v) ∷ rest) d =
      (get-empty C laws {V = Bytes} name, d.0, AreDistinct-AreNew rest d.1)

  -- `Insert` stores what its loop makes of the record.
  insert_record_filled :
      (db : KeyHashtable C) (table key : Bytes) (values : List FieldPair) (status : Status)
      (t : FieldHashtable C)
      → insert_until_conflict C values (start_of C (record_at C db (table ++ key))) ≡ (status, t)
      → ((insert_record C db table key values).0 ≡ status)
        × ((j : Bytes)
            → record_at C (insert_record C db table key values).1 j
              ≡ (if same (c_str (table ++ key)) (c_str j) then some t else record_at C db j))
  unfolding insert_record
  insert_record_filled db table key values status t e =
      let k = table ++ key in
      elim (Option-cases (get C k db)) [
        | inl h ↦
            let e' : insert_until_conflict C values C.empty ≡ (status, t) = rw h at e in
            (
              rw (insert_record, h, e') refl,
              λ j. rw (insert_record, h, e') (get-store_new C laws k j t db h),
            )
        | inr (old, h) ↦
            let e' : insert_until_conflict C values old ≡ (status, t) = rw h at e in
            (
              rw (insert_record, h, e') refl,
              λ j. rw (insert_record, h, e') (get-store C laws k j t old db h),
            )
      ]

  -- `Insert` of pairs of which none names a field that is there already or another of the pairs
  -- returns kOK. The record then has the fields that it had, and those of the pairs with their values;
  -- the other records are as before.
  pub insert_record_new :
      (db : KeyHashtable C) (table key : Bytes) (values : List FieldPair)
      → AreNew C laws values (start_of C (record_at C db (table ++ key)))
      → ((insert_record C db table key values).0 ≡ k_ok)
        × ((t : FieldHashtable C) × ((j : Bytes)
              → record_at C (insert_record C db table key values).1 j
                ≡ (if same (c_str (table ++ key)) (c_str j) then some t else record_at C db j))
            × ((name : Bytes)
                → get C name t
                  ≡ or_else
                      (get C name (start_of C (record_at C db (table ++ key))))
                      (first_given name values)))
  unfolding insert_until_conflict
  insert_record_new db table key values new =
      let start = start_of C (record_at C db (table ++ key)) in
      let (t, e, g) = insert_until_conflict-AreNew C laws values [] start new in
      let (a, b) =
        insert_record_filled db table key values k_ok t
          (subst (λ xs. insert_until_conflict C xs start ≡ (k_ok, t)) (append_nil values) e) in
      (a, (t, b, g))

  -- At the first pair whose field is there already `Insert` returns kErrorConflict. The fields of the
  -- pairs before it stay in the record, and nothing else has changed.
  pub insert_record_conflict :
      (db : KeyHashtable C) (table key name v old : Bytes) (before after : List FieldPair)
      → AreNew C laws before (start_of C (record_at C db (table ++ key)))
      → get C name (start_of C (record_at C db (table ++ key))) ≡ some old
      → ((insert_record C db table key (before ++ (name, v) ∷ after)).0 ≡ k_error_conflict)
        × ((t : FieldHashtable C) × ((j : Bytes)
              → record_at C (insert_record C db table key (before ++ (name, v) ∷ after)).1 j
                ≡ (if same (c_str (table ++ key)) (c_str j) then some t else record_at C db j))
            × ((n : Bytes)
                → get C n t
                  ≡ or_else
                      (get C n (start_of C (record_at C db (table ++ key))))
                      (first_given n before)))
  unfolding insert_until_conflict or_else copy_string
  insert_record_conflict db table key name v old before after new there =
      let start = start_of C (record_at C db (table ++ key)) in
      let (t, e, g) = insert_until_conflict-AreNew C laws before ((name, v) ∷ after) start new in
      let kept : get C name t ≡ some old = ground (arith, g name, there) in
      let stop = (get-insert C laws name name (c_str v) t).1 old kept in
      let (a, b) =
        insert_record_filled db table key (before ++ (name, v) ∷ after) k_error_conflict t (
          e
          ∙ rw
              (
                insert_until_conflict,
                ap (λ (r : Bool × FieldHashtable C). r.0) stop,
                ap (λ (r : Bool × FieldHashtable C). r.1) stop,
              )
              refl) in
      (a, (t, b, g))

  pick_fields-All :
      (values : List FieldPair) (t : FieldHashtable C)
      → All (λ (e : FieldPair). get C e.0 t ≡ some (c_str e.1)) values
      → pick_fields C (map (λ (e : FieldPair). e.0) values) t
        ≡ map (λ (e : FieldPair). (e.0, c_str e.1)) values
  unfolding pick_fields
  pick_fields-All [] t h = refl
  pick_fields-All ((name, v) ∷ rest) t (h, hs) =
      rw (pick_fields, h) (ap (λ r. (name, c_str v) ∷ r) (pick_fields-All rest t hs))

  -- `Insert` of pairs with different names, where no record is yet, returns kOK. What `Read` of their
  -- names then returns, with kOK, is those pairs in their order, as C strings. The records at other
  -- indices are as before.
  pub read-insert_record :
      (db : KeyHashtable C) (table key : Bytes) (values : List FieldPair)
      → AreDistinct values
      → record_at C db (table ++ key) ≡ none
      → ((insert_record C db table key values).0 ≡ k_ok)
        × (read C
              (insert_record C db table key values).1
              table
              key
              (some (map (λ (e : FieldPair). e.0) values))
              []
            ≡ (k_ok, map (λ (e : FieldPair). (e.0, c_str e.1)) values))
        × ((j : Bytes)
            → record_at C (insert_record C db table key values).1 j ≡ (
                if same (c_str (table ++ key)) (c_str j)
                then record_at C (insert_record C db table key values).1 (table ++ key)
                else record_at C db j))
  unfolding read field_values or_else
  read-insert_record db table key values distinct absent =
      let k = table ++ key in
      let new : AreNew C laws values (start_of C (record_at C db k)) =
        rw absent (AreDistinct-AreNew values distinct) in
      let (status, (t, there, fields)) = insert_record_new db table key values new in
      let found : get C k (insert_record C db table key values).1 ≡ some t =
        ground (arith, there k, same_refl (c_str k)) in
      let given : (n : Bytes) → get C n t ≡ first_given n values = λ n.
        fields n
        ∙ ap (λ o. or_else (get C n (start_of C o)) (first_given n values)) absent
        ∙ ap (λ o. or_else o (first_given n values)) (get-empty C laws {V = Bytes} n) in
      (
        status,
        rw (read, found)
            (ap (λ r. (k_ok, r))
              (pick_fields-All values t
                (given-All values distinct (λ n. get C n t) (λ n v h. given n ∙ h)))),
        λ j.
            there j
            ∙ ap (λ o. if same (c_str k) (c_str j) then o else record_at C db j) (sym found),
      )
