-- ===== src/Hashtable/Memory/Model.antt =====
-- A heap that hands out one address after another.
use ycsb_lsm.Base.{
  ℕ, Bool, Bool-cases, Option-cases, same, inl, inr, true, false, sym, ap, ◌∙◌, ◌+◌, ◌≡◌, refl,
  Option, none, some, Bytes, [], ltb, ◌==◌, ==_iff, if◌then◌else◌, arith,
}
use mathlib.Core.Option.{some_inj}
use ycsb_lsm.Hashtable.Memory.{Allocator, IsAllocator}

-- A block: its size and the text in it.
pub record Heap : Type 0 where
  pub next : ℕ
  pub cell : ℕ → Option (ℕ × Bytes)

abbrev pub size_of : Option (ℕ × Bytes) → Option ℕ
size_of none = none
size_of (some (n, s)) = some n

abbrev pub text_of : Option (ℕ × Bytes) → Bytes
text_of none = []
text_of (some (n, s)) = s

abbrev pub with_text : Bytes → Option (ℕ × Bytes) → Option (ℕ × Bytes)
with_text s none = none
with_text s (some (n, _)) = some (n, s)

abbrev pub size_in : Heap → ℕ → Option ℕ
size_in h q = if ltb q h.next then size_of (h.cell q) else none

abbrev pub text_in : Heap → ℕ → Bytes
text_in h q = text_of (h.cell q)

abbrev pub compare_block : Bytes → Option (ℕ × Bytes) → Option Bool
compare_block s none = none
compare_block s (some (n, text)) = some (same text s)

abbrev pub bumping : Allocator
bumping = record {
  Heap = Heap;
  malloc = λ n h. (
    some h.next,
    record { next = h.next + 1; cell = λ q. if q == h.next then some (n, []) else h.cell q },
  );
  free = λ p h. record h { cell = λ q. if q == p then none else h.cell q };
  strcpy = λ p s h. record h { cell = λ q. if q == p then with_text s (h.cell q) else h.cell q };
  strcmp = λ p s h. if ltb p h.next then compare_block s (h.cell p) else none;
}

-- `malloc` returned the next address, and this heap.
malloc_inv :
    (n p : ℕ) (h h' : Heap)
    → bumping.malloc n h ≡ (some p, h')
    → (h.next ≡ p) × ((bumping.malloc n h).1 ≡ h')
malloc_inv n p h h' e =
    (some_inj.0 (ap (λ (r : Option ℕ × Heap). r.0) e), ap (λ (r : Option ℕ × Heap). r.1) e)

malloc-size_in :
    (n q : ℕ) (h : Heap)
    → size_in (bumping.malloc n h).1 q ≡ (if q == h.next then some n else size_in h q)
malloc-size_in n q h = ground arith

malloc-text_in :
    (n q m : ℕ) (h : Heap) → size_in h q ≡ some m → text_in (bumping.malloc n h).1 q ≡ text_in h q
malloc-text_in n q m h used = ground arith

strcpy-size_of :
    (b : Bool) (s : Bytes) (c : Option (ℕ × Bytes))
    → size_of (if b then with_text s c else c) ≡ size_of c
strcpy-size_of true s none = refl
strcpy-size_of true s (some c) = refl
strcpy-size_of false s c = refl

text_of-with_text :
    (n : ℕ) (s : Bytes) (c : Option (ℕ × Bytes)) → size_of c ≡ some n → text_of (with_text s c) ≡ s
text_of-with_text n s none h = cc
text_of-with_text n s (some c) h = refl

size_in-size_of : (n p : ℕ) (h : Heap) → size_in h p ≡ some n → size_of (h.cell p) ≡ some n
size_in-size_of n p h used = ground arith

strcpy-text_of :
    (n p q : ℕ) (s : Bytes) (h : Heap)
    → size_in h p ≡ some n
    → text_in (bumping.strcpy p s h) q ≡ (if q == p then s else text_in h q)
strcpy-text_of n p q s h used = elim (Bool-cases (q == p)) [
  | inl e ↦
      let at = ap (λ r. size_of (h.cell r)) ((==_iff q p).0 e) ∙ size_in-size_of n p h used in
      rw e (text_of-with_text n s (h.cell q) at)
  | inr e ↦ rw e refl
]

strcmp_in :
    (p n : ℕ) (s : Bytes) (h : Heap)
    → size_in h p ≡ some n
    → bumping.strcmp p s h ≡ some (same (text_in h p) s)
strcmp_in p n s h used = elim (Bool-cases (ltb p h.next)) [
  | inl e ↦ elim (Option-cases (h.cell p)) [
    | inl empty ↦ let clash : none ≡ some n = rw (e, empty) at used in cc
    | inr (block, there) ↦ rw (e, there) refl
  ]
  | inr e ↦ let clash : none ≡ some n = rw e at used in cc
]

strcmp_out : (p : ℕ) (s : Bytes) (h : Heap) → size_in h p ≡ none → bumping.strcmp p s h ≡ none
strcmp_out p s h gone = elim (Bool-cases (ltb p h.next)) [
  | inl e ↦ elim (Option-cases (h.cell p)) [
    | inl empty ↦ rw (e, empty) refl
    | inr (block, there) ↦ let clash : some block.0 ≡ none = rw (e, there) at gone in cc
  ]
  | inr e ↦ rw e refl
]

pub bumping-IsAllocator : IsAllocator bumping
bumping-IsAllocator = record {
  size_at = size_in;
  text_at = text_in;
  malloc_fresh = λ n p h h' e. let (next, _) = malloc_inv n p h h' e in rw (← next) (ground arith);
  malloc_size = λ n p q h h' e.
      let (next, made) = malloc_inv n p h h' e in
      ap (λ g. size_in g q) (sym made)
      ∙ malloc-size_in n q h
      ∙ ap (λ b. if q == b then some n else size_in h q) next;
  malloc_text = λ n p q m h h' e used.
      let (_, made) = malloc_inv n p h h' e in
      ap (λ g. text_in g q) (sym made) ∙ malloc-text_in n q m h used;
  free_size = λ p q n h used. ground arith;
  free_text = λ p q n m h used used'. ground arith;
  strcpy_size = λ p q n s h used fits.
      ap (λ o. if ltb q h.next then o else none) (strcpy-size_of (q == p) s (h.cell q));
  strcpy_text = λ p q n s h used fits. strcpy-text_of n p q s h used;
  strcmp_used = strcmp_in;
  strcmp_free = strcmp_out;
}
