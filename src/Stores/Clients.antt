-- ===== src/Stores/Clients.antt =====
-- Loading a store through `DoInsert` of core/client.h.
use mathlib.Core.Path.{subst}
use ycsb_lsm.Base.{
  Bool, All, ℕ, zero, suc, ◌+◌, ◌≡◌, ◌≢◌, ◌⊎◌, inl, inr, refl, sym, ap, ◌∙◌, true, List, [], ◌∷◌,
  some, Bytes, same, if◌then◌else◌, length, map, Returns, fault, exit, arith,
}
use ycsb_lsm.Platform.{Platform, IsStandard}
use ycsb_lsm.Db.{FieldPair, eq_int}
use ycsb_lsm.Workload.{rounds, next_sequence_key}
use ycsb_lsm.Workload.Values.{field_names, HasLengths, IsValue, build_values-Built}
use ycsb_lsm.Client.{System, Shared, do_insert}
use ycsb_lsm.Stores.{Engine, level_db, insert_values}
use ycsb_lsm.Stores.Records.{IsEngine, insert_values_exit, insert_values_lem}

length-field_names :
    (n i : ℕ) (values : List FieldPair)
    → map (λ (e : FieldPair). e.0) values ≡ field_names n i
    → length values ≡ n
unfolding field_names
length-field_names zero i [] h = refl
length-field_names zero i (e ∷ values) h = cc
length-field_names (suc n) i [] h = cc
length-field_names (suc n) i (e ∷ values) h =
    let rest : map (λ (e : FieldPair). e.0) values ≡ field_names n (i + 1) = ground arith in
    ap suc (length-field_names n (i + 1) values rest)

module _ (E : Engine) (P : Platform) (std : IsStandard P) (S : System P.World) (lo hi : ℕ) where
  -- With a number of fields other than one, the first insert of a load into LevelDB ends the program.
  pub do_insert_exit :
      (s : Shared P (level_db E) S) (w : P.World)
      → HasLengths P std lo hi s.workload
      → rounds s.workload.field_count ≢ 1
      → do_insert P (level_db E) S true s w ≡ fault (exit 0)
  unfolding do_insert next_sequence_key
  do_insert_exit s w lengths several =
      let (key, wl) = next_sequence_key P s.workload in
      let (((values, wl'), w'), run, b) = build_values-Built P std lo hi wl w lengths in
      let count = length-field_names (rounds s.workload.field_count) 0 values b.names in
      rw
        (
          do_insert,
          run,
          insert_values_exit E 0 s.db wl'.table_name key values (λ e. several (sym count ∙ e)),
        )
        refl

  one_element :
      (values : List FieldPair) → length values ≡ 1 → (name v : Bytes) × (values ≡ (name, v) ∷ [])
  one_element [] h = absurd (omega (arith, h))
  one_element ((name, v) ∷ []) h = (name, v, refl)
  one_element (e ∷ e' ∷ values) h = absurd (omega (arith, h))

  -- What `DoInsert` leaves: the value under the next key, and the workload with its counter of keys gone
  -- on.
  pub record Stored (laws : IsEngine E) (s : Shared P (level_db E) S)
      (r : (Bool × Shared P (level_db E) S) × P.World) : Type 0 where
    pub done : r.0.0 ≡ true
    pub value : Bytes
    pub is_value : IsValue lo hi value
    pub contents :
        (j : Bytes)
        → laws.contents r.0.1.db.db j ≡ (
            if same (next_sequence_key P s.workload).0 j
            then some value
            else laws.contents s.db.db j)
    pub same_workload : r.0.1.workload ≡ record s.workload {
      key_generator = (next_sequence_key P s.workload).1.key_generator;
      field_len_generator = r.0.1.workload.field_len_generator;
    }
    pub lengths : HasLengths P std lo hi r.0.1.workload

  pub do_insert-Stored :
      (laws : IsEngine E) (s : Shared P (level_db E) S) (w : P.World)
      → HasLengths P std lo hi s.workload
      → rounds s.workload.field_count ≡ 1
      → (do_insert P (level_db E) S true s w ≡ fault (exit 0))
        ⊎ Returns (do_insert P (level_db E) S true s w) (Stored laws s)
  unfolding do_insert next_sequence_key
  do_insert-Stored laws s w lengths one =
      let (key, wl) = next_sequence_key P s.workload in
      let (((values, wl'), w'), run, b) = build_values-Built P std lo hi wl w lengths in
      let count = length-field_names (rounds s.workload.field_count) 0 values b.names in
      let (name, v, shape) = one_element values (count ∙ one) in
      let is_value : IsValue lo hi v × Unit =
        subst (λ l. All (λ (e : FieldPair). IsValue lo hi e.1) l) shape b.values in
      let inserts = insert_values E 0 s.db wl'.table_name key in
      elim (insert_values_lem E 0 laws s.db wl'.table_name key name v) [
        | inl stopped ↦ inl (rw (do_insert, run, ap inserts shape ∙ stopped) refl)
        | inr ((result, db), stored, (done, contents)) ↦ inr (
          ((true, record s { workload = wl'; db = db }), w'),
          rw (do_insert, run, ap inserts shape ∙ stored, done) (unfold eq_int in refl),
          record {
            done = refl;
            value = v;
            is_value = is_value.0;
            contents = contents;
            same_workload = b.same;
            lengths = b.lengths;
          },
        )
      ]
