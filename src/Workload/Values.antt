-- ===== src/Workload/Values.antt =====
-- The records that a workload makes up: field names and values.
use ycsb_lsm.Base.{
  ℕ, zero, suc, ◌+◌, ◌%◌, ◌^◌, ◌≤◌, ◌<◌, ◌≡◌, refl, ap, ◌∙◌, List, [], ◌∷◌, ◌++◌, Bytes, codes,
  length, length-replicate, replicate, All, Returns, arith, map,
}
use ycsb_lsm.Base.Decimal.{to_string, to_string_inj}
use ycsb_lsm.Utils.{random_print_char}
use ycsb_lsm.Platform.{Platform, IsStandard}
use ycsb_lsm.Generators.Simple.{uniform_next}
use ycsb_lsm.Generators.Simple.Counter.{uniform_next_bounds}
use ycsb_lsm.Generators.Any.Bounds.{StaysIn, generator_next-StaysIn}
use ycsb_lsm.Workload.{
  KvPair, rounds, CoreWorkload, next_value, build_values_from, build_values, next_field_name,
  build_update,
}

-- `"field" + std::to_string(i)`
abbrev pub field_name : ℕ → Bytes
field_name i = codes "field" ++ to_string i

-- The names of `n` fields from number `i` on.
unfoldable pub field_names : ℕ → ℕ → List Bytes
field_names zero i = []
field_names (suc n) i = field_name i ∷ field_names n (i + 1)

-- Characters that print, without the space.
abbrev pub IsPrintable : ℕ → Type 0
IsPrintable c = (33 ≤ c) × (c ≤ 126)

-- A value of `lo` to `hi` printable characters.
abbrev pub IsValue : ℕ → ℕ → Bytes → Type 0
IsValue lo hi s = (lo ≤ length s) × (length s ≤ hi) × All IsPrintable s

All-replicate : (n c : ℕ) → IsPrintable c → All IsPrintable (replicate n c)
All-replicate zero c h = tt
All-replicate (suc n) c h = (h, All-replicate n c h)

pub field_name_inj : (i j : ℕ) → i < 2 ^ 64 → j < 2 ^ 64 → field_name i ≡ field_name j → i ≡ j
field_name_inj i j p q e = to_string_inj i j p q (cc)

module _ (P : Platform) (std : IsStandard P) (lo hi : ℕ) where
  -- A workload whose field lengths stay between the two bounds.
  abbrev pub HasLengths : CoreWorkload P → Type 0
  HasLengths wl = StaysIn P lo hi wl.field_len_generator

  -- Nothing but the generator of field lengths differs.
  abbrev pub SameButLengths : CoreWorkload P → CoreWorkload P → Type 0
  SameButLengths wl wl' = wl' ≡ record wl { field_len_generator = wl'.field_len_generator }

  pub next_value-IsValue :
      (wl : CoreWorkload P) (w : P.World)
      → HasLengths wl
      → Returns
          (next_value P wl w)
          λ r. IsValue lo hi r.0.0 × HasLengths r.0.1 × SameButLengths wl r.0.1
  unfolding next_value random_print_char
  next_value-IsValue wl w h =
      let (((n, g), w'), run, (a, b, s)) =
        generator_next-StaysIn P std wl.insert_key_sequence lo hi wl.field_len_generator w h in
      let c = (P.rand w').0 % 94 + 33 in
      (
        ((replicate n c, record wl { field_len_generator = g }), (P.rand w').1),
        rw run refl,
        (
          (
            omega (arith, length-replicate {0} n c),
            omega (arith, length-replicate {0} n c),
            All-replicate n c (omega arith, omega arith),
          ),
          s,
          refl,
        ),
      )

  -- What the loop of `BuildValues` returns.
  pub record Built (n i : ℕ) (wl : CoreWorkload P) (r : List KvPair × CoreWorkload P) : Type 0 where
    pub names : map (λ (e : KvPair). e.0) r.0 ≡ field_names n i
    pub values : All (λ (e : KvPair). IsValue lo hi e.1) r.0
    pub lengths : HasLengths r.1
    pub same : SameButLengths wl r.1

  build_values_from-Built :
      (n i : ℕ) (wl : CoreWorkload P) (w : P.World)
      → HasLengths wl
      → Returns (build_values_from P n i wl w) (λ r. Built n i wl r.0)
  unfolding build_values_from field_names
  build_values_from-Built zero i wl w h =
      ((([], wl), w), refl, record { names = refl; values = tt; lengths = h; same = refl })
  build_values_from-Built (suc n) i wl w h =
      let (((v, wl'), w'), run, (is_value, h', same)) = next_value-IsValue wl w h in
      let (((rest, wl''), w''), run', b) = build_values_from-Built n (i + 1) wl' w' h' in
      (
        (((field_name i, v) ∷ rest, wl''), w''),
        rw (run, run') refl,
        record {
          names = ap (λ t. field_name i ∷ t) b.names;
          values = (is_value, b.values);
          lengths = b.lengths;
          same =
              b.same
              ∙ ap
                  (λ (x : CoreWorkload P). record x {
                    field_len_generator = wl''.field_len_generator;
                  })
                  same;
        },
      )

  -- `BuildValues` makes the fields "field0" to the last field of the record, in this order, each
  -- with a printable value of an admitted length. Of the workload only the length generator
  -- changes.
  pub build_values-Built :
      (wl : CoreWorkload P) (w : P.World)
      → HasLengths wl
      → Returns (build_values P wl w) (λ r. Built (rounds wl.field_count) 0 wl r.0)
  unfolding build_values
  build_values-Built wl w h = build_values_from-Built (rounds wl.field_count) 0 wl w h

  -- `BuildUpdate` makes a printable value of an admitted length for one field of the record.
  pub build_update_lem :
      (wl : CoreWorkload P) (w : P.World)
      → HasLengths wl
      → wl.field_chooser.min ≤ wl.field_chooser.max
      → Returns (build_update P wl w) λ r.
        (i : ℕ) × (v : Bytes) × (wl.field_chooser.min ≤ i)
        × (i ≤ wl.field_chooser.max)
        × IsValue lo hi v
        × (r.0.0 ≡ (field_name i, v) ∷ [])
  unfolding build_update next_field_name
  build_update_lem wl w h ordered =
      let (n, g) = uniform_next P wl.field_chooser in
      let b = uniform_next_bounds P std wl.field_chooser ordered in
      let wl' : CoreWorkload P = record wl { field_chooser = g } in
      let (((v, wl''), w'), run, (is_value, _, _)) = next_value-IsValue wl' w h in
      ((((field_name n, v) ∷ [], wl''), w'), rw run refl, (n, v, b.0, b.1, is_value, refl))
