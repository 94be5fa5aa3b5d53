-- ===== src/Hashtable/Memory/Ledger.antt =====
-- Who owns the copies of keys that lib/stl_hashtable.h makes.
use ycsb_lsm.Base.{
  ℕ, ◌+◌, ◌≡◌, ◌≢◌, ◌⊎◌, inl, inr, refl, sym, ap, ◌∙◌, true, false, List, [], ◌∷◌, Option, none,
  some, Bytes, same, same_refl, same-eq, ◌==◌, ==_iff, if◌then◌else◌, length, Bool-cases,
  Option-cases,
}
use mathlib.Core.Path.{subst}
use mathlib.Core.Option.{some_inj}
use ycsb_lsm.Hashtable.Memory.Copies.{
  ==_ne, InUse, IsCopy, IsCopy-differs, IsCopy-keeps, IsCopy-cases,
}
use ycsb_lsm.Hashtable.Memory.{Allocator, IsAllocator, StoredKey}

abbrev pub IsIn : ℕ → List ℕ → Type 0
IsIn q [] = ⊥
IsIn q (p ∷ ps) = (q ≡ p) ⊎ IsIn q ps

-- The address of the copy of each key.
abbrev pub Addresses : Type 0
Addresses = Bytes → Option ℕ

abbrev pub assign : Addresses → Bytes → Option ℕ → Addresses
assign f k p = λ j. if same k j then p else f j

assign_cases :
    (f : Addresses) (k j : Bytes) (p : Option ℕ) (q : ℕ)
    → assign f k p j ≡ some q
    → ((k ≡ j) × (p ≡ some q)) ⊎ ((same k j ≡ false) × (f j ≡ some q))
assign_cases f k j p q h = elim (Bool-cases (same k j)) [
  | inl e ↦ inl (same-eq k j e, rw e at h)
  | inr e ↦ inr (e, rw e at h)
]

module _ (A : Allocator) (rules : IsAllocator A) (base : A.Heap) where
  -- Every key has its own block, which holds its text. The blocks in use are those from before, those of the keys,
  -- and the leaked ones; no block is two of these.
  pub record IsOwned (leaked : List ℕ) (f : Addresses) (h : A.Heap) : Type 0 where
    pub size : (k : Bytes) (p : ℕ) → f k ≡ some p → rules.size_at h p ≡ some (length k + 1)
    pub text : (k : Bytes) (p : ℕ) → f k ≡ some p → rules.text_at h p ≡ k
    pub new : (k : Bytes) (p : ℕ) → f k ≡ some p → rules.size_at base p ≡ none
    pub apart : (k : Bytes) (p : ℕ) → f k ≡ some p → ¬ IsIn p leaked
    pub leaked_new : (q : ℕ) → IsIn q leaked → rules.size_at base q ≡ none
    pub leaked_used : (q : ℕ) → IsIn q leaked → InUse A rules h q
    pub before : (q n : ℕ) → rules.size_at base q ≡ some n → rules.size_at h q ≡ some n
    pub accounted :
        (q n : ℕ)
        → rules.size_at h q ≡ some n
        → (rules.size_at base q ≡ some n) ⊎ (((k : Bytes) × (f k ≡ some q)) ⊎ IsIn q leaked)

  -- Two keys never share a block.
  pub blocks_differ :
      (leaked : List ℕ) (f : Addresses) (h : A.Heap) (j k : Bytes) (p : ℕ)
      → IsOwned leaked f h
      → f j ≡ some p
      → f k ≡ some p
      → j ≡ k
  blocks_differ leaked f h j k p o g e = sym (o.text j p g) ∙ o.text k p e

  -- What is free now was free before.
  free_before :
      (leaked : List ℕ) (f : Addresses) (h : A.Heap) (q : ℕ)
      → IsOwned leaked f h
      → rules.size_at h q ≡ none
      → rules.size_at base q ≡ none
  free_before leaked f h q o e = elim (Option-cases (rules.size_at base q)) [
    | inl gone ↦ gone
    | inr (n, used) ↦ let clash = sym e ∙ o.before q n used in cc
  ]

  module _ (leaked : List ℕ) (f : Addresses) (h h' : A.Heap) (s : StoredKey) (k : Bytes)
      (o : IsOwned leaked f h) (c : IsCopy A rules k h s h') where
    keeps : (q n : ℕ) → rules.size_at h q ≡ some n → rules.size_at h' q ≡ some n
    keeps q n used = IsCopy-keeps A rules s k h h' q n c used

    mine : rules.size_at h' s.value_ ≡ some (length k + 1)
    mine = c.size s.value_ ∙ rw ((==_iff s.value_ s.value_).1 refl) refl

    -- A copy that no table takes is leaked.
    pub IsOwned-leak : IsOwned (s.value_ ∷ leaked) f h'
    IsOwned-leak = record {
      size = λ j p at. keeps p _ (o.size j p at);
      text = λ j p at. c.texts p _ (o.size j p at) ∙ o.text j p at;
      new = o.new;
      apart = λ j p at m. elim m [
        | inl e ↦ IsCopy-differs A rules s k h h' p _ c (o.size j p at) e
        | inr m ↦ o.apart j p at m
      ];
      leaked_new = λ q m. elim m [
        | inl e ↦ ap (rules.size_at base) e ∙ free_before leaked f h s.value_ o c.fresh
        | inr m ↦ o.leaked_new q m
      ];
      leaked_used = λ q m. elim m [
        | inl e ↦ (length k + 1, ap (rules.size_at h') e ∙ mine)
        | inr m ↦ let (n, used) = o.leaked_used q m in (n, keeps q n used)
      ];
      before = λ q n used. keeps q n (o.before q n used);
      accounted = λ q n used. elim (IsCopy-cases A rules s k h h' q n c used) [
        | inl e ↦ inr (inr (inl e))
        | inr old ↦ elim (o.accounted q n old) [
          | inl b ↦ inl b
          | inr (inl owner) ↦ inr (inl owner)
          | inr (inr m) ↦ inr (inr (inr m))
        ]
      ];
    }

    -- A copy that the table takes belongs to its key.
    pub IsOwned-add : f k ≡ none → IsOwned leaked (assign f k (some s.value_)) h'
    IsOwned-add absent = record {
      size = λ j p at. elim (assign_cases f k j (some s.value_) p at) [
        | inl (e, new) ↦
            ap (rules.size_at h') (sym (some_inj.0 new))
            ∙ mine
            ∙ ap (λ (b : Bytes). some (length b + 1)) e
        | inr (_, old) ↦ keeps p _ (o.size j p old)
      ];
      text = λ j p at. elim (assign_cases f k j (some s.value_) p at) [
        | inl (e, new) ↦ ap (rules.text_at h') (sym (some_inj.0 new)) ∙ c.text_there ∙ e
        | inr (_, old) ↦ c.texts p _ (o.size j p old) ∙ o.text j p old
      ];
      new = λ j p at. elim (assign_cases f k j (some s.value_) p at) [
        | inl (e, new) ↦
            ap (rules.size_at base) (sym (some_inj.0 new))
            ∙ free_before leaked f h s.value_ o c.fresh
        | inr (_, old) ↦ o.new j p old
      ];
      apart = λ j p at m. elim (assign_cases f k j (some s.value_) p at) [
        | inl (e, new) ↦
            let (n, used) = o.leaked_used p m in
            IsCopy-differs A rules s k h h' p n c used (sym (some_inj.0 new))
        | inr (_, old) ↦ o.apart j p old m
      ];
      leaked_new = o.leaked_new;
      leaked_used = λ q m. let (n, used) = o.leaked_used q m in (n, keeps q n used);
      before = λ q n used. keeps q n (o.before q n used);
      accounted = λ q n used. elim (IsCopy-cases A rules s k h h' q n c used) [
        | inl e ↦ inr (inl (k, rw (same_refl k) (ap some (sym e))))
        | inr old ↦ elim (o.accounted q n old) [
          | inl b ↦ inl b
          | inr (inl (j, at)) ↦
              let other : same k j ≡ false = elim (Bool-cases (same k j)) [
                | inl e ↦ let clash = sym absent ∙ ap f (same-eq k j e) ∙ at in cc
                | inr e ↦ e
              ] in
              inr (inl (j, rw other at))
          | inr (inr m) ↦ inr (inr m)
        ]
      ];
    }

  -- What freeing a block in use leaves in use.
  free_keeps :
      (h : A.Heap) (p m q n : ℕ)
      → rules.size_at h p ≡ some m
      → q ≢ p
      → rules.size_at h q ≡ some n
      → rules.size_at (A.free p h) q ≡ some n
  free_keeps h p m q n mine differ used = rules.free_size p q m h mine ∙ rw (==_ne q p differ) used

  free_cases :
      (h : A.Heap) (p m q n : ℕ)
      → rules.size_at h p ≡ some m
      → rules.size_at (A.free p h) q ≡ some n
      → (q ≢ p) × (rules.size_at h q ≡ some n)
  free_cases h p m q n mine used = elim (Bool-cases (q == p)) [
    | inl e ↦
        let gone : rules.size_at (A.free p h) q ≡ none = rules.free_size p q m h mine ∙ rw e refl in
        let clash : none ≡ some n = sym gone ∙ used in cc
    | inr e ↦ (
      λ same_block. let clash : false ≡ true = sym e ∙ (==_iff q p).1 same_block in cc,
      sym (rules.free_size p q m h mine ∙ rw e refl) ∙ used,
    )
  ]

  -- Freeing the copy of a key that is erased: its block was in use, and no other block changes.
  pub IsOwned-remove :
      (leaked : List ℕ) (f : Addresses) (h : A.Heap) (k : Bytes) (p : ℕ)
      → IsOwned leaked f h
      → f k ≡ some p
      → IsOwned leaked (assign f k none) (A.free p h)
  IsOwned-remove leaked f h k p o at =
      let mine = o.size k p at in
      let keeps = λ (q n : ℕ). free_keeps h p (length k + 1) q n mine in
      let other : (j : Bytes) (q : ℕ) → same k j ≡ false → f j ≡ some q → q ≢ p =
        λ j q differ there e.
          let one = blocks_differ leaked f h k j p o at (there ∙ ap some e) in
          let clash : false ≡ true = sym differ ∙ ap (same k) (sym one) ∙ same_refl k in cc in
      record {
        size = λ j q at'. elim (assign_cases f k j none q at') [
          | inl (e, never) ↦ cc
          | inr (differ, old) ↦ keeps q _ (other j q differ old) (o.size j q old)
        ];
        text = λ j q at'. elim (assign_cases f k j none q at') [
          | inl (e, never) ↦ cc
          | inr (differ, old) ↦
              rules.free_text p q _ _ h mine (keeps q _ (other j q differ old) (o.size j q old))
              ∙ o.text j q old
        ];
        new = λ j q at'. elim (assign_cases f k j none q at') [
          | inl (e, never) ↦ cc
          | inr (differ, old) ↦ o.new j q old
        ];
        apart = λ j q at' m. elim (assign_cases f k j none q at') [
          | inl (e, never) ↦ cc
          | inr (differ, old) ↦ o.apart j q old m
        ];
        leaked_new = o.leaked_new;
        leaked_used = λ q m.
            let (n, used) = o.leaked_used q m in
            (n, keeps q n (λ e. o.apart k p at (subst (λ b. IsIn b leaked) e m)) used);
        before = λ q n used.
            let differ : q ≢ p =
              λ e. let clash = sym used ∙ ap (rules.size_at base) e ∙ o.new k p at in cc in
            keeps q n differ (o.before q n used);
        accounted = λ q n used.
            let (differ, old) = free_cases h p (length k + 1) q n mine used in
            elim (o.accounted q n old) [
              | inl b ↦ inl b
              | inr (inl (j, there)) ↦
                  let apart : same k j ≡ false = elim (Bool-cases (same k j)) [
                    | inl e ↦
                        absurd (differ (some_inj.0 (sym there ∙ ap f (sym (same-eq k j e)) ∙ at)))
                    | inr e ↦ e
                  ] in
                  inr (inl (j, rw apart there))
              | inr (inr m) ↦ inr (inr m)
            ];
      }
