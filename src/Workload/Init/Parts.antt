-- ===== src/Workload/Init/Parts.antt =====
-- A run of `Init` of core/core_workload.cc that ends normally, taken apart.
use mathlib.Core.Path.{subst}
use ycsb_lsm.Base.{ℕ, ◌+◌, ◌≡◌, refl, Bool, Bytes, codes, [], ok, >>=-eq-ok, ok_inj, through, arith}
use mathlib.Core.Option.{get_or}
use ycsb_lsm.Base.Int.{to_u64, pred_ℤ}
use ycsb_lsm.Convert.{stoi, stol, sscanf_zu}
use ycsb_lsm.Utils.{str_to_bool}
use ycsb_lsm.Properties.{Properties, get_property}
use ycsb_lsm.Platform.{Platform}
use ycsb_lsm.Generators.Simple.{uniform_new, counter_set}
use ycsb_lsm.Workload.{CoreWorkload}
use ycsb_lsm.Workload.Init.{
  property, written, get_field_len_generator, Proportions, Settings, read_proportions,
  read_settings, op_chooser_of, key_chooser_of, scan_len_chooser_of, init,
}

module _ (P : Platform) where
  pub record Parts (p : Properties) (w : P.World) (wl : CoreWorkload P) : Type 0 where
    pub proportions : Proportions P
    pub settings : Settings P
    pub w₁ : P.World
    pub w₂ : P.World
    pub w₃ : P.World
    pub lengths : get_field_len_generator P p w ≡ ok (wl.field_len_generator, w₁)
    pub mix : wl.op_chooser ≡ op_chooser_of P proportions
    pub keys :
        key_chooser_of P p settings proportions.insert_proportion wl.insert_key_sequence w₁
        ≡ ok (wl.key_chooser, w₂)
    pub scans : scan_len_chooser_of P settings w₂ ≡ ok (wl.scan_len_chooser, w₃)
    pub sequence : wl.insert_key_sequence.counter ≡ wl.record_count
    pub records : settings.record_count ≡ wl.record_count
    pub read_proportions_run : read_proportions P p ≡ ok proportions
    pub settings_run : read_settings P p ≡ ok settings

  pub read_settings_names :
      (p : Properties) {s : Settings P}
      → read_settings P p ≡ ok s
      → (s.request_dist ≡ property p "requestdistribution" "uniform")
        × (s.scan_len_dist ≡ property p "scanlengthdistribution" "uniform")
        × (s.record_count ≡ get_or (sscanf_zu (get_property p (codes "recordcount") [])) 0)
  unfolding read_settings
  read_settings_names p {s} e =
      let (_, _, e) = >>=-eq-ok (written (sscanf_zu (property p "readkeystart" "0"))) _ e in
      let (_, _, e) = >>=-eq-ok (stoi (property p "fieldlength" "100")) _ e in
      let (_, _, e) = >>=-eq-ok (stoi (property p "maxscanlength" "1000")) _ e in
      let (_, _, e) = >>=-eq-ok (stol (property p "insertstart" "0")) _ e in
      let (_, _, e) = >>=-eq-ok (str_to_bool (property p "readallfields" "true")) _ e in
      let (_, _, e) = >>=-eq-ok (str_to_bool (property p "writeallfields" "false")) _ e in
      let (_, _, e) = >>=-eq-ok (str_to_bool (property p "withtimestamp" "false")) _ e in
      let (_, _, e) = >>=-eq-ok (str_to_bool (property p "withoperation" "false")) _ e in
      let (_, _, e) = >>=-eq-ok (str_to_bool (property p "withlatency" "false")) _ e in
      let (_, _, e) = >>=-eq-ok (stoi (property p "zerolookuprate" "0")) _ e in
      let (_, _, e) = >>=-eq-ok (stoi (property p "skipratioinload" "0")) _ e in
      let (_, _, e) = >>=-eq-ok (stoi (property p "skipratioforrun" "0")) _ e in
      let (_, _, e) = >>=-eq-ok (str_to_bool (property p "adjustfilter" "false")) _ e in
      (ground arith, ground arith, ground arith)

  pub init-Parts :
      (opens : Bytes → Bool) (n : ℕ) (p : Properties) (w : P.World)
      {r : (CoreWorkload P × ℕ) × P.World}
      → init P opens n p w ≡ ok r
      → Parts p w r.0.0 × (r.0.1 ≡ n + 1)
  unfolding init
  init-Parts opens n p w {r} e = through (stoi (property p "fieldcount" "1")) _ e λ fc _ e.
      through (get_field_len_generator P p w) _ e λ (fg, w₁) lengths e.
        through (read_proportions P p) _ e λ q prop e.
          through (read_settings P p) _ e λ s settings e.
            through
              (key_chooser_of P p s q.insert_proportion
                (counter_set (record { counter = 3 }) s.record_count) w₁)
              _ e
              λ (kg, w₂) keys e. through (uniform_new P 0 (to_u64 (pred_ℤ fc))) _ e λ fch _ e.
                through (scan_len_chooser_of P s w₂) _ e λ (sg, w₃) scans e.
                  subst (λ r. Parts p w r.0.0 × (r.0.1 ≡ n + 1)) (ok_inj e)
                    (
                      record {
                        proportions = q;
                        settings = s;
                        w₁ = w₁;
                        w₂ = w₂;
                        w₃ = w₃;
                        lengths = lengths;
                        mix = refl;
                        keys = unfold counter_set in keys;
                        scans = scans;
                        sequence = unfold counter_set in refl;
                        records = refl;
                        read_proportions_run = prop;
                        settings_run = settings;
                      },
                      refl,
                    )
