-- ===== src/HashtableDb/Records.antt =====
-- The operations of db/hashtable_db.cc against their contract: a database is a map from an index, the
-- name of the table followed by the key, to records, and a record is a map from names to values.
use ycsb_lsm.Base.{
  ◌≡◌, refl, ap, inl, inr, List, [], ◌∷◌, ◌++◌, Option, none, some, Bytes, same, same_iff,
  if◌then◌else◌, arith, Option-cases, Bool-cases,
}
use mathlib.Core.Option.{or_else}
use ycsb_lsm.UnorderedMap.{Container, IsContainer}
use ycsb_lsm.Hashtable.{c_str, get, insert}
use ycsb_lsm.Hashtable.Laws.{get-insert, get-update, get-same}
use ycsb_lsm.Db.{FieldPair}
use ycsb_lsm.HashtableDb.{
  copy_string, FieldHashtable, insert_all, update_field, update_all, insert_until_conflict,
}

-- The value that the first pair with the name gives to it.
unfoldable pub first_given : Bytes → List FieldPair → Option Bytes
first_given name [] = none
first_given name ((n, v) ∷ rest) =
    if same (c_str n) (c_str name) then some (c_str v) else first_given name rest

-- The value that the last pair with the name gives to it.
pub last_given : Bytes → List FieldPair → Option Bytes
last_given name [] = none
last_given name ((n, v) ∷ rest) =
    or_else (last_given name rest) (if same (c_str n) (c_str name) then some (c_str v) else none)

module _ (C : Container) (laws : IsContainer C) where
  -- None of the pairs names a field that the record has, or one that an earlier pair names.
  abbrev pub AreNew : List FieldPair → FieldHashtable C → Type 0
  AreNew [] t = Unit
  AreNew ((name, v) ∷ rest) t =
      (get C name t ≡ none) × (first_given name rest ≡ none) × AreNew rest t

  get-update_field :
      (name j v : Bytes) (t : FieldHashtable C)
      → get C j (update_field C name v t)
        ≡ (if same (c_str name) (c_str j) then some (c_str v) else get C j t)
  unfolding update_field copy_string
  get-update_field name j v t = elim (Option-cases (get C name t)) [
    | inl h ↦
        let e = (get-update C laws name j (c_str v) t).0 h in
        rw
          (
            update_field,
            ap (λ (r : Option Bytes × FieldHashtable C). r.0) e,
            ap (λ (r : Option Bytes × FieldHashtable C). r.1) e,
          )
          ((get-insert C laws name j (c_str v) t).0 h).1
    | inr (old, h) ↦
        let (a, b) = (get-update C laws name j (c_str v) t).1 old h in rw (update_field, a) b
  ]

  pub get-update_all :
      (values : List FieldPair) (j : Bytes) (t : FieldHashtable C)
      → get C j (update_all C values t) ≡ or_else (last_given j values) (get C j t)
  unfolding update_all last_given or_else
  get-update_all [] j t = refl
  get-update_all ((name, v) ∷ rest) j t =
      ground (arith, get-update_all rest j (update_field C name v t), get-update_field name j v t)

  pub get-insert_all :
      (values : List FieldPair) (j : Bytes) (t : FieldHashtable C)
      → get C j (insert_all C values t) ≡ or_else (get C j t) (first_given j values)
  unfolding insert_all first_given or_else copy_string
  get-insert_all [] j t = ground arith
  get-insert_all ((name, v) ∷ rest) j t = elim (Option-cases (get C name t)) [
    | inl h ↦ ground (
      arith,
      get-insert_all rest j (insert C (some name) (c_str v) t).1,
      ((get-insert C laws name j (c_str v) t).0 h).1,
      get-same C laws name j t,
      h,
    )
    | inr (old, h) ↦
        let e = (get-insert C laws name j (c_str v) t).1 old h in
        rw (insert_all, e) (ground (arith, get-insert_all rest j t, get-same C laws name j t, h))
  ]

  AreNew-insert :
      (values : List FieldPair) (name v : Bytes) (t : FieldHashtable C)
      → get C name t ≡ none
      → first_given name values ≡ none
      → AreNew values t
      → AreNew values (insert C (some name) v t).1
  unfolding first_given
  AreNew-insert [] name v t h f n = tt
  AreNew-insert ((k, w) ∷ rest) name v t h f (a, b, n) =
      elim (Bool-cases (same (c_str k) (c_str name))) [
        | inl e ↦ let bad : some (c_str w) ≡ none = rw e at f in cc
        | inr e ↦ (
          ground (
            arith,
            ((get-insert C laws name k v t).0 h).1,
            same_iff (c_str name) (c_str k),
            same_iff (c_str k) (c_str name),
            a,
          ),
          b,
          AreNew-insert rest name v t h (rw e at f) n,
        )
      ]

  -- The loop of `Insert` over pairs that are new goes on to the pairs behind them, and the record
  -- then has the fields that it had and those.
  pub insert_until_conflict-AreNew :
      (values rest : List FieldPair) (t : FieldHashtable C)
      → AreNew values t
      → (t' : FieldHashtable C) × (insert_until_conflict C (values ++ rest) t
          ≡ insert_until_conflict C rest t')
        × ((j : Bytes) → get C j t' ≡ or_else (get C j t) (first_given j values))
  unfolding insert_until_conflict copy_string first_given or_else
  insert_until_conflict-AreNew [] rest t n = (t, refl, λ j. ground arith)
  insert_until_conflict-AreNew ((name, v) ∷ values) rest t (h, f, n) =
      let t₁ = (insert C (some name) (c_str v) t).1 in
      let inserted = (get-insert C laws name name (c_str v) t).0 h in
      let (t', e, g) =
        insert_until_conflict-AreNew values rest t₁ (AreNew-insert values name (c_str v) t h f n) in
      (
        t',
        rw (insert_until_conflict, inserted.0) e,
        λ j. ground (
          arith,
          g j,
          ((get-insert C laws name j (c_str v) t).0 h).1,
          get-same C laws name j t,
          h,
        ),
      )
