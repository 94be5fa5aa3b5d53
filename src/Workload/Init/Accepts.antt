-- ===== src/Workload/Init/Accepts.antt =====
-- What a workload is like after `Init` of core/core_workload.cc.
use mathlib.Core.Path.{subst}
use ycsb_lsm.Base.{
  ℕ, ◌+◌, ◌-◌, ◌*◌, ◌%◌, ◌^◌, ◌≤◌, ◌<◌, ◌≡◌, refl, sym, ap, ◌∙◌, Bool, true, false, List, [], ◌∷◌,
  ◌++◌, Bytes, codes, same, if◌then◌else◌, ok, Returns, ok_inj, ◌⊎◌, inl, inr, Bool-cases, arith,
}
use ycsb_lsm.Properties.{Properties}
use ycsb_lsm.Platform.{Platform}
use ycsb_lsm.Generators.Simple.{CounterGenerator}
use ycsb_lsm.Generators.Simple.Counter.{uniform_new_lem}
use ycsb_lsm.Generators.Discrete.{DiscreteGenerator, discrete_new, add_value}
use ycsb_lsm.Generators.Discrete.Choice.{
  Offered, here, there, IsReady, add_value-IsReady, discrete_next-Offered,
}
use ycsb_lsm.Generators.Any.{Generator, uniform}
use ycsb_lsm.Generators.Any.Bounds.{StaysIn}
use ycsb_lsm.Workload.{
  Operation, insert, read, update, scan, readmodifywrite, zeroread, all, thread0, CoreWorkload,
  next_operation,
}
use ycsb_lsm.Workload.Init.{
  property, Proportions, Settings, read_proportions, add_operation, op_chooser_of, key_chooser_of,
  init,
}
use ycsb_lsm.Workload.Init.Parts.{init-Parts, read_settings_names}
use ycsb_lsm.Workload.Transactions.{IsConfined}

module _ (P : Platform) where
  -- The proportion of an operation is larger than 0.
  abbrev pub is_wanted : Proportions P → Operation → Bool
  is_wanted q read = P.lt (P.of_nat 0) q.read_proportion
  is_wanted q update = P.lt (P.of_nat 0) q.update_proportion
  is_wanted q insert = P.lt (P.of_nat 0) q.insert_proportion
  is_wanted q scan = P.lt (P.of_nat 0) q.scan_proportion
  is_wanted q readmodifywrite = P.lt (P.of_nat 0) q.readmodifywrite_proportion
  is_wanted q zeroread = false
  is_wanted q all = false
  is_wanted q thread0 = false

  -- Every value of the chooser is wanted, and the chooser is new or ready.
  record IsMix (q : Proportions P) (g : DiscreteGenerator P Operation) : Type 0 where
    wanted : (op : Operation) → Offered P op g.values → is_wanted q op ≡ true
    state : (g.values ≡ []) ⊎ IsReady P g

  Offered-last :
      (v op : Operation) (x : P.Double) (xs : List (Operation × P.Double))
      → Offered P v (xs ++ (op, x) ∷ [])
      → Offered P v xs ⊎ (op ≡ v)
  Offered-last v op x [] here = inr refl
  Offered-last v op x [] (there o) = elim o [ ]
  Offered-last v op x (y ∷ ys) here = inl here
  Offered-last v op x (y ∷ ys) (there o) = elim (Offered-last v op x ys o) [
    | inl a ↦ inl (there a)
    | inr a ↦ inr a
  ]

  add_operation-IsMix :
      (q : Proportions P) (op : Operation) (x : P.Double) (g : DiscreteGenerator P Operation)
      → is_wanted q op ≡ P.lt (P.of_nat 0) x
      → IsMix q g
      → IsMix q (add_operation P op x g)
        × ((P.lt (P.of_nat 0) x ≡ true) ⊎ IsReady P g → IsReady P (add_operation P op x g))
  unfolding add_operation
  add_operation-IsMix q op x g e m = elim (Bool-cases (P.lt (P.of_nat 0) x)) [
    | inl positive ↦
        let ready = add_value-IsReady P op x g m.state in
        (
          subst (λ b. IsMix q (if b then add_value P op x g else g)) (sym positive)
              (record {
                wanted = λ v o. elim (Offered-last v op x g.values (unfold add_value in o)) [
                  | inl old ↦ m.wanted v old
                  | inr new ↦ subst (λ v. is_wanted q v ≡ true) new (e ∙ positive)
                ];
                state = inr ready;
              }),
          λ _. subst (λ b. IsReady P (if b then add_value P op x g else g)) (sym positive) ready,
        )
    | inr other ↦ (
      subst (λ b. IsMix q (if b then add_value P op x g else g)) (sym other) m,
      λ h.
          subst (λ b. IsReady P (if b then add_value P op x g else g)) (sym other)
            (elim h [ inl positive ↦ cc | inr ready ↦ ready ]),
    )
  ]

  -- Each value of the chooser that `Init` makes has a proportion larger than 0, and one such
  -- proportion is enough for it to be ready.
  op_chooser_of-IsMix :
      (q : Proportions P)
      → IsMix q (op_chooser_of P q)
        × ((op : Operation) → is_wanted q op ≡ true → IsReady P (op_chooser_of P q))
  unfolding op_chooser_of discrete_new
  op_chooser_of-IsMix q =
      let none_yet : (v : Operation) → Offered P v [] → is_wanted q v ≡ true = λ v o. elim o [ ] in
      let empty : IsMix q (discrete_new P) = record { wanted = none_yet; state = inl refl } in
      let (m₁, r₁) = add_operation-IsMix q read q.read_proportion (discrete_new P) refl empty in
      let (m₂, r₂) = add_operation-IsMix q update q.update_proportion _ refl m₁ in
      let (m₃, r₃) = add_operation-IsMix q insert q.insert_proportion _ refl m₂ in
      let (m₄, r₄) = add_operation-IsMix q scan q.scan_proportion _ refl m₃ in
      let (m₅, r₅) = add_operation-IsMix q readmodifywrite q.readmodifywrite_proportion _ refl m₄ in
      (
        m₅,
        λ op. elim op as (λ o. is_wanted q o ≡ true → IsReady P (op_chooser_of P q)) [
          | read ↦ λ h. r₅ (inr (r₄ (inr (r₃ (inr (r₂ (inr (r₁ (inl h)))))))))
          | update ↦ λ h. r₅ (inr (r₄ (inr (r₃ (inr (r₂ (inl h)))))))
          | insert ↦ λ h. r₅ (inr (r₄ (inr (r₃ (inl h)))))
          | scan ↦ λ h. r₅ (inr (r₄ (inl h)))
          | readmodifywrite ↦ λ h. r₅ (inl h)
          | zeroread ↦ λ h. cc
          | all ↦ λ h. cc
          | thread0 ↦ λ h. cc
        ],
      )

  -- After `Init` with some proportion larger than 0, `NextOperation` never stops the program: it
  -- returns an operation whose proportion is larger than 0.
  pub init-next_operation :
      (opens : Bytes → Bool) (n : ℕ) (p : Properties) (w v : P.World) (q : Proportions P)
      (op : Operation) {r : (CoreWorkload P × ℕ) × P.World}
      → init P opens n p w ≡ ok r
      → read_proportions P p ≡ ok q
      → is_wanted q op ≡ true
      → Returns (next_operation P r.0.0 v) λ s. is_wanted q s.0.0 ≡ true
  unfolding next_operation
  init-next_operation opens n p w v q op {r} e eq h =
      let parts = (init-Parts P opens n p w e).0 in
      let mix : r.0.0.op_chooser ≡ op_chooser_of P q =
        parts.mix ∙ ap (op_chooser_of P) (ok_inj (sym parts.read_proportions_run ∙ eq)) in
      let (m, ready) = op_chooser_of-IsMix q in
      let (((op', g), v'), run, (offered, _, _)) =
        discrete_next-Offered P (op_chooser_of P q) v (ready op h) in
      (((op', record r.0.0 { op_chooser = g }), v'), rw (mix, run) refl, m.wanted op' offered)

  uniform_key_chooser :
      (p : Properties) (s : Settings P) (x : P.Double) (c : CounterGenerator) (w : P.World)
      {r : Generator P × P.World}
      → s.request_dist ≡ codes "uniform"
      → 0 < s.record_count
      → s.record_count < 2 ^ 64
      → key_chooser_of P p s x c w ≡ ok r
      → StaysIn P 0 (s.record_count - 1) r.0
  unfolding key_chooser_of
  uniform_key_chooser p s x c w {r} dist some_records fits e =
      let last : (s.record_count + 2 ^ 64 - 1) % 2 ^ 64 ≡ s.record_count - 1 = omega arith in
      let (g, made, (low, high)) =
        (uniform_new_lem P 0 ((s.record_count + 2 ^ 64 - 1) % 2 ^ 64)).0 (omega arith) in
      let run : key_chooser_of P p s x c w ≡ ok (uniform g, w) =
        rw (dist, made) (unfold same in refl) in
      subst (λ r. StaysIn P 0 (s.record_count - 1) r.0) (ok_inj (sym run ∙ e))
        (omega arith, omega arith, omega arith)

  -- `Init` with a uniform request distribution, at least one record, and key numbers that fit 64
  -- bits makes a workload whose requests are confined to its records.
  pub init-IsConfined :
      (opens : Bytes → Bool) (n : ℕ) (p : Properties) (w : P.World)
      {r : (CoreWorkload P × ℕ) × P.World}
      → init P opens n p w ≡ ok r
      → property p "requestdistribution" "uniform" ≡ codes "uniform"
      → 0 < r.0.0.record_count
      → r.0.0.read_key_start + 2 * r.0.0.record_count ≤ 2 ^ 64
      → IsConfined P r.0.0 × (r.0.1 ≡ n + 1)
  init-IsConfined opens n p w {r} e dist some_records fits =
      let (parts, count) = init-Parts P opens n p w e in
      let s = parts.settings in
      (
        record {
          some_records = some_records;
          last_key = parts.sequence;
          chooser =
              subst (λ m. StaysIn P 0 (m - 1) r.0.0.key_chooser) parts.records
                (uniform_key_chooser p s _ _ parts.w₁
                  ((read_settings_names P p parts.settings_run).0 ∙ dist)
                  (omega (arith, parts.records)) (omega (arith, parts.records)) parts.keys);
          fits = fits;
        },
        count,
      )
