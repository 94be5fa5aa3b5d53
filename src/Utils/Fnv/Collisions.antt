-- ===== src/Utils/Fnv/Collisions.antt =====
-- What `FNVHash64` tells apart. A round is a bijection of the hash and of the octet, so two numbers
-- that differ in one octet have different hashes.
use Prim.Native.Nat.{bit_and, bit_xor}
use ycsb_lsm.Base.{ℕ, zero, suc, ◌*◌, ◌/◌, ◌%◌, ◌^◌, ◌<◌, ◌≡◌, ◌∙◌, sym, ap, arith}
use ycsb_lsm.Base.Bits.{bit_xor-lt, bit_xor_inj_left, bit_xor_inj_right, bit_and_byte}
use ycsb_lsm.Utils.Fnv.{k_fnv_prime64, k_fnv_offset_basis64, fnv_mix, fnv_loop, fnv_hash64}

fnv_mix-lt : (hash octet : ℕ) → fnv_mix hash octet < 2 ^ 64
unfolding fnv_mix
fnv_mix-lt hash octet = omega arith

fnv_loop-lt : (n val hash : ℕ) → hash < 2 ^ 64 → fnv_loop n val hash < 2 ^ 64
unfolding fnv_loop
fnv_loop-lt zero val hash h = h
fnv_loop-lt (suc n) val hash h = fnv_loop-lt n (val / 2 ^ 8) _ (fnv_mix-lt hash _)

-- The hash of every number is a 64-bit word.
pub fnv_hash64-lt : (val : ℕ) → fnv_hash64 val < 2 ^ 64
unfolding fnv_hash64
fnv_hash64-lt val = fnv_loop-lt 8 val _ (omega arith)

-- The prime is odd, so multiplication by it can be undone modulo 2 ^ 64.
mul_prime_inj :
    (a b : ℕ)
    → a < 2 ^ 64
    → b < 2 ^ 64
    → a * k_fnv_prime64 % 2 ^ 64 ≡ b * k_fnv_prime64 % 2 ^ 64
    → a ≡ b
mul_prime_inj a b p q e =
    undo a p ∙ ap (λ (t : ℕ). t * 14886173955864302971 % 2 ^ 64) e ∙ sym (undo b q)
  where
    undo : (n : ℕ) → n < 2 ^ 64 → n ≡ n * k_fnv_prime64 % 2 ^ 64 * 14886173955864302971 % 2 ^ 64
    undo n h = omega arith

fnv_mix_inj_hash :
    (h h' octet : ℕ)
    → h < 2 ^ 64
    → h' < 2 ^ 64
    → octet < 256
    → fnv_mix h octet ≡ fnv_mix h' octet
    → h ≡ h'
unfolding fnv_mix
fnv_mix_inj_hash h h' octet p q r e = bit_xor_inj_left 64 octet h h' p q (
    mul_prime_inj (bit_xor h octet) (bit_xor h' octet) (bit_xor-lt 64 h octet p (omega arith))
      (bit_xor-lt 64 h' octet q (omega arith)) e)

fnv_mix_inj_octet :
    (h o o' : ℕ) → h < 2 ^ 64 → o < 256 → o' < 256 → fnv_mix h o ≡ fnv_mix h o' → o ≡ o'
unfolding fnv_mix
fnv_mix_inj_octet h o o' p q r e = bit_xor_inj_right 64 h o o' (omega arith) (omega arith) (
    mul_prime_inj (bit_xor h o) (bit_xor h o') (bit_xor-lt 64 h o p (omega arith))
      (bit_xor-lt 64 h o' p (omega arith)) e)

fnv_loop_inj_hash :
    (n val h h' : ℕ) → h < 2 ^ 64 → h' < 2 ^ 64 → fnv_loop n val h ≡ fnv_loop n val h' → h ≡ h'
unfolding fnv_loop
fnv_loop_inj_hash zero val h h' p q e = e
fnv_loop_inj_hash (suc n) val h h' p q e =
    fnv_mix_inj_hash h h' (bit_and val 0x00ff) p q (omega (arith, bit_and_byte val))
      (fnv_loop_inj_hash n (val / 2 ^ 8) _ _ (fnv_mix-lt h _) (fnv_mix-lt h' _) e)

-- The two numbers agree in every octet but, perhaps, number `i`.
abbrev pub SameButOctet : ℕ → ℕ → ℕ → Type 0
SameButOctet zero a b = a / 2 ^ 8 ≡ b / 2 ^ 8
SameButOctet (suc i) a b = (a % 2 ^ 8 ≡ b % 2 ^ 8) × SameButOctet i (a / 2 ^ 8) (b / 2 ^ 8)

fnv_loop_inj_octet :
    (n i a b h : ℕ)
    → i < n
    → h < 2 ^ 64
    → SameButOctet i a b
    → fnv_loop n a h ≡ fnv_loop n b h
    → a ≡ b
unfolding fnv_loop
fnv_loop_inj_octet zero i a b h p q s e = absurd (omega arith)
fnv_loop_inj_octet (suc n) zero a b h p q s e =
    let mixed =
      fnv_loop_inj_hash n (b / 2 ^ 8) (fnv_mix h (bit_and a 0x00ff)) (fnv_mix h (bit_and b 0x00ff))
        (fnv_mix-lt h _) (fnv_mix-lt h _) (rw s at e) in
    let octets =
      fnv_mix_inj_octet h (bit_and a 0x00ff) (bit_and b 0x00ff) q (omega (arith, bit_and_byte a))
        (omega (arith, bit_and_byte b)) mixed in
    omega (arith, octets, bit_and_byte a, bit_and_byte b)
fnv_loop_inj_octet (suc n) (suc i) a b h p q s e =
    let octets : bit_and a 0x00ff ≡ bit_and b 0x00ff =
      omega (arith, bit_and_byte a, bit_and_byte b) in
    let rest =
      fnv_loop_inj_octet n i (a / 2 ^ 8) (b / 2 ^ 8) (fnv_mix h (bit_and b 0x00ff)) (omega arith)
        (fnv_mix-lt h _) s.1 (rw octets at e) in
    omega arith

-- Two numbers that agree in all octets of a 64-bit word but at most one have the same hash only
-- if they are equal.
pub fnv_hash64_inj : (i a b : ℕ) → i < 8 → SameButOctet i a b → fnv_hash64 a ≡ fnv_hash64 b → a ≡ b
unfolding fnv_hash64
fnv_hash64_inj i a b p s e = fnv_loop_inj_octet 8 i a b k_fnv_offset_basis64 p (omega arith) s e
