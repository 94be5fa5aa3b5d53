-- ===== src/Client/Loading.antt =====
-- Loading a `HashtableDB` through `DoInsert` of core/client.h.
use ycsb_lsm.Base.{
  ℕ, zero, suc, ◌+◌, ◌%◌, ◌/◌, ◌^◌, ◌≤◌, ◌<◌, ◌≡◌, ◌≢◌, refl, sym, ap, ◌∙◌, true, false, List, [],
  ◌∷◌, ◌++◌, none, some, Bytes, codes, same, same-eq, if◌then◌else◌, Returns, Bool-cases, inl, inr,
  arith, All, All-append, map, ltb,
}
use ycsb_lsm.Base.Decimal.{to_string, decimal}
use ycsb_lsm.Platform.{Platform, IsStandard}
use ycsb_lsm.UnorderedMap.{Container, IsContainer}
use ycsb_lsm.Hashtable.{c_str}
use ycsb_lsm.Db.{FieldPair, k_ok, eq_int}
use ycsb_lsm.HashtableDb.{insert_record, hashtable_db}
use ycsb_lsm.HashtableDb.{read as hashtable_read}
use ycsb_lsm.HashtableDb.Contract.{record_at}
use ycsb_lsm.HashtableDb.Records.{first_given}
use ycsb_lsm.HashtableDb.Inserts.{AreDistinct, read-insert_record}
use ycsb_lsm.Workload.{rounds, CoreWorkload, next_sequence_key}
use ycsb_lsm.Workload.Values.{
  field_name, field_names, field_name_inj, HasLengths, build_values-Built,
}
use ycsb_lsm.Client.{System, Shared, do_insert}

-- Text without a NUL, which a C string holds whole.
abbrev pub IsText : Bytes → Type 0
IsText s = All (λ c. c ≢ 0) s

pub c_str_id : (s : Bytes) → IsText s → c_str s ≡ s
unfolding c_str
c_str_id [] h = refl
c_str_id (c ∷ s) h = ground (arith, c_str_id s h.1, h.0)

decimal-IsText : (k n : ℕ) → IsText (decimal k n)
unfolding decimal
decimal-IsText zero n = tt
decimal-IsText (suc k) n = elim (Bool-cases (ltb n 10)) [
  | inl e ↦ rw e (λ (h : 48 + n ≡ 0). omega arith, tt)
  | inr e ↦ rw e (
      All-append (λ c. c ≢ 0) (decimal k (n / 10)) ((b'0' + n % 10) ∷ [])
        (decimal-IsText k (n / 10)) (λ h. omega arith, tt))
]

field_name-IsText : (i : ℕ) → IsText (field_name i)
unfolding to_string
field_name-IsText i =
    let letters : IsText (codes "field") = (
      λ h. omega arith,
      (λ h. omega arith, (λ h. omega arith, (λ h. omega arith, (λ h. omega arith, tt)))),
    ) in
    All-append (λ c. c ≢ 0) (codes "field") (to_string i) letters (decimal-IsText 20 i)

same_field_name :
    (i k : ℕ) → i < k → k < 2 ^ 64 → same (c_str (field_name k)) (c_str (field_name i)) ≡ false
same_field_name i k p q =
    let e = c_str_id (field_name i) (field_name-IsText i) in
    let f = c_str_id (field_name k) (field_name-IsText k) in
    elim (Bool-cases (same (c_str (field_name k)) (c_str (field_name i)))) [
      | inr b ↦ b
      | inl b ↦
          let one_name = sym f ∙ same-eq (c_str (field_name k)) (c_str (field_name i)) b ∙ e in
          let one = field_name_inj k i q (omega arith) one_name in absurd (omega arith)
    ]

first_given-field_names :
    (i k n : ℕ) (values : List FieldPair)
    → i < k
    → k + n ≤ 2 ^ 64
    → map (λ (e : FieldPair). e.0) values ≡ field_names n k
    → first_given (field_name i) values ≡ none
unfolding first_given field_names
first_given-field_names i k n [] p q e = refl
first_given-field_names i k zero ((name, v) ∷ rest) p q e = cc
first_given-field_names i k (suc n) ((name, v) ∷ rest) p q e =
    let head : name ≡ field_name k = ground arith in
    let tail : map (λ (e : FieldPair). e.0) rest ≡ field_names n (k + 1) = ground arith in
    let other : same (c_str name) (c_str (field_name i)) ≡ false =
      rw head (same_field_name i k p (omega arith)) in
    rw (first_given, other)
      (first_given-field_names i (k + 1) n rest (omega arith) (omega arith) tail)

pub field_names-AreDistinct :
    (k n : ℕ) (values : List FieldPair)
    → k + n ≤ 2 ^ 64
    → map (λ (e : FieldPair). e.0) values ≡ field_names n k
    → AreDistinct values
unfolding field_names
field_names-AreDistinct k n [] q e = tt
field_names-AreDistinct k zero ((name, v) ∷ rest) q e = cc
field_names-AreDistinct k (suc n) ((name, v) ∷ rest) q e =
    let head : name ≡ field_name k = ground arith in
    let tail : map (λ (e : FieldPair). e.0) rest ≡ field_names n (k + 1) = ground arith in
    (
      rw head (first_given-field_names k (k + 1) n rest (omega arith) (omega arith) tail),
      field_names-AreDistinct (k + 1) n rest (omega arith) tail,
    )

module _ (P : Platform) where
  -- The index of the record that the next `DoInsert` writes.
  abbrev pub next_index : CoreWorkload P → Bytes
  next_index wl = wl.table_name ++ (next_sequence_key P wl).0

module _ (C : Container) (laws : IsContainer C) (P : Platform) (std : IsStandard P)
    (S : System P.World) (lo hi : ℕ) where
  -- The workload after `DoInsert`: the counter of keys has gone on, and the generator of field
  -- lengths may have.
  abbrev pub Inserted : CoreWorkload P → CoreWorkload P → Type 0
  Inserted wl wl' =
      (wl' ≡ record wl {
        key_generator = (next_sequence_key P wl).1.key_generator;
        field_len_generator = wl'.field_len_generator;
      })
      × HasLengths P std lo hi wl'

  pub do_insert_stores :
      (s : Shared P (hashtable_db C) S) (w : P.World)
      → HasLengths P std lo hi s.workload
      → rounds s.workload.field_count ≤ 2 ^ 64
      → record_at C s.db (next_index P s.workload) ≡ none
      → Returns (do_insert P (hashtable_db C) S true s w) λ r.
        (r.0.0 ≡ true)
        × Inserted s.workload r.0.1.workload
        × ((values : List FieldPair) × (map (λ (e : FieldPair). e.0) values
              ≡ field_names (rounds s.workload.field_count) 0)
            × (hashtable_read C r.0.1.db s.workload.table_name
                  (next_sequence_key P s.workload).0
                  (some (map (λ (e : FieldPair). e.0) values))
                  []
                ≡ (k_ok, map (λ (e : FieldPair). (e.0, c_str e.1)) values)))
        × ((j : Bytes)
            → record_at C r.0.1.db j ≡ (
                if same (c_str (next_index P s.workload)) (c_str j)
                then record_at C r.0.1.db (next_index P s.workload)
                else record_at C s.db j))
  unfolding do_insert next_sequence_key
  do_insert_stores s w lengths few absent =
      let (key, wl) = next_sequence_key P s.workload in
      let table = s.workload.table_name in
      let (((values, wl'), w'), run, b) = build_values-Built P std lo hi wl w lengths in
      let distinct =
        field_names-AreDistinct 0 (rounds s.workload.field_count) values (omega arith) b.names in
      let (status, read_back, frame) =
        read-insert_record C laws s.db table key values distinct absent in
      let table_kept : wl'.table_name ≡ table = ap (λ (x : CoreWorkload P). x.table_name) b.same in
      (
        ((true, record s { workload = wl'; db = (insert_record C s.db table key values).1 }), w'),
        rw (do_insert, run) (rw (table_kept, status) (unfold eq_int in refl)),
        (refl, (b.same, b.lengths), (values, b.names, read_back), frame),
      )
