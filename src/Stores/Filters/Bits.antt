-- ===== src/Stores/Filters/Bits.antt =====
-- The array of bits per key: what the file fills in, and the filters that are counted.
use mathlib.Core.List.{append_assoc, append-nil}
use ycsb_lsm.Base.{
  ℕ, suc, zero, ◌+◌, ◌≤◌, ◌<◌, ◌≡◌, refl, sym, ap, ◌∙◌, false, List, [], ◌∷◌, ◌++◌, some, length,
  length-append, replicate, ok, fault, undefined, arith, Bool-cases, inl, inr, leb,
}
use ycsb_lsm.Base.Int.{ℤ, pos, is_zero}
use ycsb_lsm.Stores.Filters.{set_at, fill_bits, printed, read_bits}

-- No number is zero.
abbrev pub NoneZero : List ℤ → Type 0
NoneZero [] = Unit
NoneZero (x ∷ numbers) = (is_zero x ≡ false) × NoneZero numbers

set_at-append :
    (front : List ℤ) (c x : ℤ) (back : List ℤ) (i : ℕ)
    → i ≡ length front
    → set_at i c (front ++ x ∷ back) ≡ ok (front ++ c ∷ back)
unfolding set_at
set_at-append [] c x back zero h = refl
set_at-append [] c x back (suc i) h = absurd (omega (arith, h))
set_at-append (y ∷ front) c x back zero h = absurd (omega (arith, h))
set_at-append (y ∷ front) c x back (suc i) h =
    rw (set_at, set_at-append front c x back i (omega (arith, h))) refl

set_at_beyond :
    (array : List ℤ) (c : ℤ) (i : ℕ) → length array ≤ i → set_at i c array ≡ fault undefined
unfolding set_at
set_at_beyond [] c i h = refl
set_at_beyond (x ∷ array) c zero h = absurd (omega (arith, h))
set_at_beyond (x ∷ array) c (suc i) h = rw (set_at, set_at_beyond array c i (omega (arith, h))) refl

-- The array is filled from the front; the last `k` elements stay zero.
fill_bits-append :
    (numbers front : List ℤ) (k n i : ℕ)
    → i ≡ length front
    → length numbers + k ≡ n
    → fill_bits numbers i (front ++ replicate n (pos 0))
      ≡ ok (front ++ (numbers ++ replicate k (pos 0)))
unfolding fill_bits
fill_bits-append [] front k n i here room =
    let all_left : n ≡ k = omega (arith, room) in rw all_left refl
fill_bits-append (c ∷ numbers) front k zero i here room = absurd (omega (arith, room))
fill_bits-append (c ∷ numbers) front k (suc n) i here room =
    let zeros = replicate n (pos 0) in
    let next =
      fill_bits-append numbers (front ++ c ∷ []) k n (i + 1)
        (omega (arith, here, length-append {0} front (c ∷ []))) (omega (arith, room)) in
    rw (fill_bits, set_at-append front c (pos 0) zeros i here)
      (ap (fill_bits numbers (i + 1)) (sym (append_assoc front (c ∷ []) zeros))
        ∙ next
        ∙ ap ok (append_assoc front (c ∷ []) (numbers ++ replicate k (pos 0))))

-- A number too many is written past the end of the array.
fill_bits_beyond :
    (numbers front : List ℤ) (n i : ℕ)
    → i ≡ length front
    → n < length numbers
    → fill_bits numbers i (front ++ replicate n (pos 0)) ≡ fault undefined
unfolding fill_bits
fill_bits_beyond [] front n i here over = absurd (omega (arith, over))
fill_bits_beyond (c ∷ numbers) front zero i here over =
    let full : length (front ++ []) ≤ i = omega (arith, here, length-append {0} front []) in
    rw (fill_bits, set_at_beyond (front ++ []) c i full) refl
fill_bits_beyond (c ∷ numbers) front (suc n) i here over =
    let zeros = replicate n (pos 0) in
    let next =
      fill_bits_beyond numbers (front ++ c ∷ []) n (i + 1)
        (omega (arith, here, length-append {0} front (c ∷ []))) (omega (arith, over)) in
    rw (fill_bits, set_at-append front c (pos 0) zeros i here)
      (ap (fill_bits numbers (i + 1)) (sym (append_assoc front (c ∷ []) zeros)) ∙ next)

printed-append :
    (numbers rest : List ℤ)
    → NoneZero numbers
    → printed (numbers ++ pos 0 ∷ rest) ≡ ok (length numbers)
unfolding printed
printed-append [] rest h = refl
printed-append (x ∷ numbers) rest h =
    rw (printed, h.0, printed-append numbers rest h.1) (ap ok (omega arith))

printed_all : (numbers : List ℤ) → NoneZero numbers → printed numbers ≡ fault undefined
unfolding printed
printed_all [] h = refl
printed_all (x ∷ numbers) h = rw (printed, h.0, printed_all numbers h.1) refl

-- A file of fewer than 32 numbers, none of them zero, gives an array of these numbers followed by zeros,
-- and all of the numbers are counted. With 32 numbers or more the code reads or writes past the end of
-- the array.
pub read_bits_lem :
    (numbers : List ℤ)
    → NoneZero numbers
    → ((k : ℕ)
        → length numbers + suc k ≡ 32
        → read_bits (some numbers) ≡ ok (numbers ++ replicate (suc k) (pos 0), length numbers))
      × (32 ≤ length numbers → read_bits (some numbers) ≡ fault undefined)
unfolding read_bits
read_bits_lem numbers h = (
  λ k room.
      let filled = fill_bits-append numbers [] (suc k) 32 0 refl room in
      rw (filled, printed-append numbers (replicate k (pos 0)) h) refl,
  λ over. elim (Bool-cases (leb (length numbers) 32)) [
    | inl exactly ↦
        let filled = fill_bits-append numbers [] 0 32 0 refl (ground (arith, exactly, over)) in
        rw (filled, append-nil numbers, printed_all numbers h) refl
    | inr more ↦
        let overrun = fill_bits_beyond numbers [] 32 0 refl (ground (arith, more)) in
        rw overrun refl
  ],
)
