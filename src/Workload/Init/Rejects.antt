-- ===== src/Workload/Init/Rejects.antt =====
-- The distributions with which `Init` of core/core_workload.cc can succeed.
use ycsb_lsm.Base.{
  ℕ, ◌≡◌, ◌≢◌, refl, sym, ◌∙◌, Bool, Bytes, codes, same, same-eq, ok, fault, exception, assertion,
  ◌>>=◌, >>=-eq-ok, ◌⊎◌, inl, inr, Bool-cases, arith,
}
use ycsb_lsm.Base.Int.{ℤ}
use ycsb_lsm.Convert.{stoi}
use ycsb_lsm.Properties.{Properties}
use ycsb_lsm.Platform.{Platform}
use ycsb_lsm.Generators.Zipfian.{zipfian_of_items}
use ycsb_lsm.Generators.Zipfian.Next.{zipfian_of_items_assertion}
use ycsb_lsm.Generators.Any.{Generator, zipfian}
use ycsb_lsm.Workload.{CoreWorkload}
use ycsb_lsm.Workload.Init.{property, get_field_len_generator, Settings, scan_len_chooser_of, init}
use ycsb_lsm.Workload.Init.Parts.{init-Parts, read_settings_names}

module _ (P : Platform) where
  -- A zipfian length over one item: nothing is made of it but the failed assertion.
  zipfian_length_fails :
      (c : P.Double) (w : P.World) {r : Generator P × P.World}
      → (zipfian_of_items P 1 c w >>= λ (g, w'). ok (zipfian g, w')) ≢ ok r
  zipfian_length_fails c w {r} e =
      let ((g, w'), run, _) = >>=-eq-ok (zipfian_of_items P 1 c w) _ e in
      let stop = zipfian_of_items_assertion P 1 c w (omega arith) in cc

  -- `GetFieldLenGenerator` with the distribution "zipfian" fails the assertion on the number of
  -- items, whatever the length that was asked for.
  pub get_field_len_generator_zipfian :
      (p : Properties) (w : P.World) (field_len : ℤ)
      → property p "field_len_dist" "constant" ≡ codes "zipfian"
      → stoi (property p "fieldlength" "100") ≡ ok field_len
      → get_field_len_generator P p w ≡ fault assertion
  unfolding get_field_len_generator
  get_field_len_generator_zipfian p w n dist len =
      let stop = zipfian_of_items_assertion P 1 (P.of_int n) w (omega arith) in
      rw (len, dist, stop) (unfold same in refl)

  field_len_dist :
      (p : Properties) (w : P.World) {r : Generator P × P.World}
      → get_field_len_generator P p w ≡ ok r
      → (property p "field_len_dist" "constant" ≡ codes "constant")
        ⊎ (property p "field_len_dist" "constant" ≡ codes "uniform")
  unfolding get_field_len_generator
  field_len_dist p w {r} e =
      let d = property p "field_len_dist" "constant" in
      let (n, _, rest) = >>=-eq-ok (stoi (property p "fieldlength" "100")) _ e in
      elim (Bool-cases (same d (codes "constant"))) [
        | inl a ↦ inl (same-eq d (codes "constant") a)
        | inr a ↦ elim (Bool-cases (same d (codes "uniform"))) [
          | inl b ↦ inr (same-eq d (codes "uniform") b)
          | inr b ↦ elim (Bool-cases (same d (codes "zipfian"))) [
            | inl c ↦ absurd (zipfian_length_fails (P.of_int n) w (rw (a, b, c) at rest))
            | inr c ↦ let bad : fault (exception _) ≡ ok r = rw (a, b, c) at rest in cc
          ]
        ]
      ]

  scan_len_dist :
      (s : Settings P) (w : P.World) {r : Generator P × P.World}
      → scan_len_chooser_of P s w ≡ ok r
      → s.scan_len_dist ≡ codes "uniform"
  unfolding scan_len_chooser_of
  scan_len_dist s w {r} e = elim (Bool-cases (same s.scan_len_dist (codes "uniform"))) [
    | inl a ↦ same-eq s.scan_len_dist (codes "uniform") a
    | inr a ↦ elim (Bool-cases (same s.scan_len_dist (codes "zipfian"))) [
      | inl b ↦ absurd (zipfian_length_fails (P.of_int s.max_scan_len) w (rw (a, b) at e))
      | inr b ↦ let bad : fault (exception _) ≡ ok r = rw (a, b) at e in cc
    ]
  ]

  -- When `Init` ends normally, the field lengths are "constant" or "uniform", and the scan lengths
  -- are "uniform": "zipfian", and every name that the source does not know, ends in a fault.
  pub init_distributions :
      (opens : Bytes → Bool) (n : ℕ) (p : Properties) (w : P.World)
      {r : (CoreWorkload P × ℕ) × P.World}
      → init P opens n p w ≡ ok r
      → ((property p "field_len_dist" "constant" ≡ codes "constant")
          ⊎ (property p "field_len_dist" "constant" ≡ codes "uniform"))
        × (property p "scanlengthdistribution" "uniform" ≡ codes "uniform")
  init_distributions opens n p w e =
      let parts = (init-Parts P opens n p w e).0 in
      (
        field_len_dist p w parts.lengths,
        sym (read_settings_names P p parts.settings_run).1
            ∙ scan_len_dist parts.settings parts.w₂ parts.scans,
      )
