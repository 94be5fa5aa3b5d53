-- ===== src/Hashtable/Memory/Copies.antt =====
-- What `String::Copy` of lib/string.h does to the heap.
use ycsb_lsm.Base.{
  ℕ, ◌+◌, ◌<◌, ◌≡◌, ◌≢◌, ◌⊎◌, inl, inr, refl, sym, ap, ◌∙◌, false, none, some, Bytes, ◌==◌, ==_iff,
  if◌then◌else◌, length, Returns, Bool-cases, arith,
}
use ycsb_lsm.Hashtable.{c_str, sdbm_hash}
use ycsb_lsm.Hashtable.Memory.{Allocator, IsAllocator, StoredKey, copy}

pub ==_ne : (a b : ℕ) → a ≢ b → (a == b) ≡ false
==_ne a b h = elim (Bool-cases (a == b)) [ inl e ↦ absurd (h ((==_iff a b).0 e)) | inr e ↦ e ]

module _ (A : Allocator) (rules : IsAllocator A) where
  -- The block is in use.
  abbrev pub InUse : A.Heap → ℕ → Type 0
  InUse h q = (n : ℕ) × (rules.size_at h q ≡ some n)

  -- What `String::Copy` does: a block that was not in use holds the text and its NUL, and nothing else changes.
  pub record IsCopy (text : Bytes) (h : A.Heap) (s : StoredKey) (h' : A.Heap) : Type 0 where
    pub fresh : rules.size_at h s.value_ ≡ none
    pub size :
        (q : ℕ)
        → rules.size_at h' q ≡ (if q == s.value_ then some (length text + 1) else rules.size_at h q)
    pub text_there : rules.text_at h' s.value_ ≡ text
    pub texts : (q n : ℕ) → rules.size_at h q ≡ some n → rules.text_at h' q ≡ rules.text_at h q

  -- What was in use before a copy is another block, and still in use after it.
  pub IsCopy-differs :
      (s : StoredKey) (text : Bytes) (h h' : A.Heap) (q n : ℕ)
      → IsCopy text h s h'
      → rules.size_at h q ≡ some n
      → q ≢ s.value_
  IsCopy-differs s text h h' q n c used e =
      let clash = sym used ∙ ap (rules.size_at h) e ∙ c.fresh in cc

  pub IsCopy-keeps :
      (s : StoredKey) (text : Bytes) (h h' : A.Heap) (q n : ℕ)
      → IsCopy text h s h'
      → rules.size_at h q ≡ some n
      → rules.size_at h' q ≡ some n
  IsCopy-keeps s text h h' q n c used =
      c.size q ∙ rw (==_ne q s.value_ (IsCopy-differs s text h h' q n c used)) used

  -- A block in use after a copy is the one that was taken, or was in use before.
  pub IsCopy-cases :
      (s : StoredKey) (text : Bytes) (h h' : A.Heap) (q n : ℕ)
      → IsCopy text h s h'
      → rules.size_at h' q ≡ some n
      → (q ≡ s.value_) ⊎ (rules.size_at h q ≡ some n)
  IsCopy-cases s text h h' q n c used = elim (Bool-cases (q == s.value_)) [
    | inl e ↦ inl ((==_iff q s.value_).0 e)
    | inr e ↦ inr (sym (c.size q ∙ rw e refl) ∙ used)
  ]

  -- While there is memory, a copy succeeds.
  module _ (plenty : (n : ℕ) (h : A.Heap) → (p : ℕ) × ((A.malloc n h).0 ≡ some p)) where
    pub copy-IsCopy :
        (key : Bytes) (h : A.Heap) → Returns (copy A key h) (λ r. IsCopy (c_str key) h r.0 r.1)
    unfolding copy
    copy-IsCopy key h =
        let text = c_str key in
        let size = length text + 1 in
        let (p, given) = plenty size h in
        let h' = (A.malloc size h).1 in
        let got : A.malloc size h ≡ (some p, h') = λ i. (given i, h') in
        let itself = (==_iff p p).1 refl in
        let mine : rules.size_at h' p ≡ some size =
          rules.malloc_size size p p h h' got ∙ rw itself refl in
        let fits : length text < size = omega arith in
        (
          (record { hash_ = sdbm_hash text; value_ = p; len_ = length text }, A.strcpy p text h'),
          rw (copy, given) refl,
          record {
            fresh = rules.malloc_fresh size p h h' got;
            size = λ q.
                rules.strcpy_size p q size text h' mine fits ∙ rules.malloc_size size p q h h' got;
            text_there = rules.strcpy_text p p size text h' mine fits ∙ rw itself refl;
            texts = λ q n used.
                let other : q ≢ p = λ e.
                  let clash =
                    sym used ∙ ap (rules.size_at h) e ∙ rules.malloc_fresh size p h h' got in
                  cc in
                rules.strcpy_text p q size text h' mine fits
                ∙ rw (==_ne q p other) (rules.malloc_text size p q n h h' got used);
          },
        )
