-- ===== src/HashtableDb/Contract.antt =====
-- What the operations of db/hashtable_db.cc do to the map from indices, the name of the table followed
-- by the key, and names of fields to values.
use ycsb_lsm.Base.{
  ◌≡◌, refl, ap, ◌∙◌, inl, inr, Bool, true, false, List, ◌++◌, Option, none, some, Bytes, same,
  same_refl, if◌then◌else◌, arith, Option-cases,
}
use mathlib.Core.Option.{or_else}
use ycsb_lsm.UnorderedMap.{Container, IsContainer}
use ycsb_lsm.Hashtable.{c_str, get, insert}
use ycsb_lsm.Hashtable.Laws.{get-empty, get-insert, get-update, get-remove}
use ycsb_lsm.Db.{FieldPair, k_ok, k_error_no_data}
use ycsb_lsm.HashtableDb.{
  FieldHashtable, KeyHashtable, insert_all, update_all, store, update_record, delete,
}
use ycsb_lsm.HashtableDb.Records.{first_given, last_given, get-update_all, get-insert_all}

module _ (C : Container) where
  -- The table of fields at an index.
  abbrev pub record_at : KeyHashtable C → Bytes → Option (FieldHashtable C)
  record_at db index = get C index db

  -- The value of a field of the record at an index.
  abbrev pub value_at : KeyHashtable C → Bytes → Bytes → Option Bytes
  value_at db index name = elim (get C index db) [ none ↦ none | some t ↦ get C name t ]

  -- What `Update` makes of the field `name`, given its record before.
  abbrev pub updated : Option (FieldHashtable C) → List FieldPair → Bytes → Option Bytes
  updated none values name = first_given name values
  updated (some t) values name = or_else (last_given name values) (get C name t)

module _ (C : Container) (laws : IsContainer C) where
  pub value_at_put :
      (b : Bool) (j name : Bytes) (t : FieldHashtable C) (db db' : KeyHashtable C)
      → get C j db' ≡ (if b then some t else get C j db)
      → value_at C db' j name ≡ (if b then get C name t else value_at C db j name)
  value_at_put true j name t db db' h = rw (value_at, h) refl
  value_at_put false j name t db db' h = rw (value_at, h) refl

  pub get-store :
      (k j : Bytes) (t old : FieldHashtable C) (db : KeyHashtable C)
      → get C k db ≡ some old
      → get C j (store C k t db) ≡ (if same (c_str k) (c_str j) then some t else get C j db)
  unfolding store
  get-store k j t old db h = ((get-update C laws k j t db).1 old h).1

  -- A new table of fields, filled, at an index where none was.
  pub get-store_new :
      (k j : Bytes) (t : FieldHashtable C) (db : KeyHashtable C)
      → get C k db ≡ none
      → get C j (store C k t (insert C (some k) C.empty db).1)
        ≡ (if same (c_str k) (c_str j) then some t else get C j db)
  get-store_new k j t db h =
      let at = ((get-insert C laws k k C.empty db).0 h).1 in
      let there : get C k (insert C (some k) C.empty db).1 ≡ some C.empty =
        ground (arith, at, same_refl (c_str k)) in
      ground (
        arith,
        get-store k j t C.empty (insert C (some k) C.empty db).1 there,
        ((get-insert C laws k j C.empty db).0 h).1,
      )

  -- `Update` always returns kOK. It changes the record of its index only. In a record that is there
  -- the last pair with a name gives the field its value, and the other fields keep theirs. Where no
  -- record is, one is made in which the first pair with a name gives the value.
  pub update_record_lem :
      (db : KeyHashtable C) (table key : Bytes) (values : List FieldPair) (j name : Bytes)
      → ((update_record C db table key values).0 ≡ k_ok)
        × (value_at C (update_record C db table key values).1 j name ≡ (
            if same (c_str (table ++ key)) (c_str j)
            then updated C (record_at C db (table ++ key)) values name
            else value_at C db j name))
  unfolding update_record or_else
  update_record_lem db table key values j name =
      let k = table ++ key in
      let here = same (c_str k) (c_str j) in
      elim (Option-cases (get C k db)) [
        | inl h ↦
            let t = insert_all C values C.empty in
            let filled =
              get-insert_all C laws values name C.empty
              ∙ ap (λ o. or_else o (first_given name values)) (get-empty C laws {V = Bytes} name) in
            (
              rw (update_record, h) refl,
              rw (update_record, h)
                  (value_at_put here j name t db _ (get-store_new k j t db h)
                    ∙ ap (λ o. if here then o else value_at C db j name) filled),
            )
        | inr (old, h) ↦
            let t = update_all C values old in
            (
              rw (update_record, h) refl,
              rw (update_record, h)
                  (value_at_put here j name t db _ (get-store k j t old db h)
                    ∙ ap (λ o. if here then o else value_at C db j name)
                        (get-update_all C laws values name old)),
            )
      ]

  -- `Delete` returns kOK if there is a record and kErrorNoData if not. Afterwards there is none at its
  -- index, and the other records are as before.
  pub delete_lem :
      (db : KeyHashtable C) (table key j : Bytes)
      → ((delete C db table key).0
          ≡ elim (record_at C db (table ++ key)) [ none ↦ k_error_no_data | some t ↦ k_ok ])
        × (record_at C (delete C db table key).1 j
            ≡ (if same (c_str (table ++ key)) (c_str j) then none else record_at C db j))
  unfolding delete
  delete_lem db table key j =
      let (a, b) = get-remove C laws (table ++ key) j db in
      elim (Option-cases (get C (table ++ key) db)) [
        | inl h ↦ let e = a ∙ h in (rw (delete, e, h) refl, rw (delete, e) b)
        | inr (t, h) ↦ let e = a ∙ h in (rw (delete, e, h) refl, rw (delete, e) b)
      ]
