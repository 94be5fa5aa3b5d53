-- ===== src/Base/Bits.antt =====
-- `&` with a byte mask and `^` on the native numbers, at variables.
use Prim.Native.Nat.{
  min, differ, digits, bitwise, bit_and, bit_xor, bit_and-bitwise, bit_xor-bitwise,
}
use Prim.Native.Nat.{ℕ, zero, suc, ◌+◌, ◌*◌, ◌/◌, ◌%◌, ◌^◌, ◌≤◌, ◌<◌}
use mathlib.Core.Path.{◌≡◌, refl, ap₂}
use native.Mathlib.Nat.{pow-suc, le_refl}
use native.Mathlib.Omega.{arith}

-- Two amounts of fuel that are both enough give the same digits.
module _ (tail : ℕ → ℕ) (op : ℕ → ℕ → ℕ) where
  digits_same :
      (x y fuel other : ℕ)
      → x ≤ fuel
      → x ≤ other
      → digits tail op fuel x y ≡ digits tail op other x y
  digits_same zero y zero zero h k = refl
  digits_same zero y zero (suc other) h k = refl
  digits_same zero y (suc fuel) zero h k = refl
  digits_same zero y (suc fuel) (suc other) h k = refl
  digits_same (suc x) y zero other h k = absurd (omega arith)
  digits_same (suc x) y (suc fuel) zero h k = absurd (omega arith)
  digits_same (suc x) y (suc fuel) (suc other) h k =
      let halves = digits_same (suc x / 2) (y / 2) fuel other (omega arith) (omega arith) in
      rw halves refl

  -- The lowest digit, and the others.
  split_digit :
      (x y : ℕ)
      → bitwise tail op (suc x) y ≡ op (suc x % 2) (y % 2) + 2 * bitwise tail op (suc x / 2) (y / 2)
  split_digit x y =
      let halves = digits_same (suc x / 2) (y / 2) x (suc x / 2) (omega arith) (le_refl _) in
      omega (arith, halves)

bit_and_step : (a b : ℕ) → bit_and a b ≡ min (a % 2) (b % 2) + 2 * bit_and (a / 2) (b / 2)
bit_and_step zero b = simp bit_and-bitwise (omega arith)
bit_and_step (suc x) b = simp bit_and-bitwise (split_digit (λ y. 0) min x b)

differ-eq-mod : (x y : ℕ) → x < 2 → y < 2 → differ x y ≡ (x + y) % 2
differ-eq-mod zero y p q = omega arith
differ-eq-mod (suc zero) zero p q = refl
differ-eq-mod (suc zero) (suc zero) p q = refl
differ-eq-mod (suc zero) (suc (suc y)) p q = absurd (omega arith)
differ-eq-mod (suc (suc x)) y p q = absurd (omega arith)

bit_xor_digit : (a b : ℕ) → bit_xor a b ≡ differ (a % 2) (b % 2) + 2 * bit_xor (a / 2) (b / 2)
bit_xor_digit zero b = simp bit_xor-bitwise (omega arith)
bit_xor_digit (suc x) b = simp bit_xor-bitwise (split_digit (λ y. y) differ x b)

bit_xor_step : (a b : ℕ) → bit_xor a b ≡ bit_xor (a / 2) (b / 2) * 2 + (a + b) % 2
bit_xor_step a b =
    omega (arith, bit_xor_digit a b, differ-eq-mod (a % 2) (b % 2) (omega arith) (omega arith))

zero-bit_xor : (b : ℕ) → bit_xor 0 b ≡ b
zero-bit_xor b = bit_xor-bitwise 0 b

-- The exclusive or of two words of `k` bits has `k` bits.
pub bit_xor-lt : (k a b : ℕ) → a < 2 ^ k → b < 2 ^ k → bit_xor a b < 2 ^ k
bit_xor-lt zero zero b p q = omega (arith, zero-bit_xor b)
bit_xor-lt zero (suc a) b p q = absurd (omega arith)
bit_xor-lt (suc k) a b p q =
    let double = pow-suc 2 k in
    omega (
      arith,
      double,
      bit_xor_step a b,
      bit_xor-lt k (a / 2) (b / 2) (omega (arith, double)) (omega (arith, double)),
    )

-- On words of `k` bits `^` loses nothing of its second argument, nor of its first.
pub bit_xor_inj_right : (k h x y : ℕ) → x < 2 ^ k → y < 2 ^ k → bit_xor h x ≡ bit_xor h y → x ≡ y
bit_xor_inj_right zero h x y p q e = omega arith
bit_xor_inj_right (suc k) h x y p q e =
    let double = pow-suc 2 k in
    let sx = bit_xor_step h x in
    let sy = bit_xor_step h y in
    let half =
      bit_xor_inj_right k (h / 2) (x / 2) (y / 2) (omega (arith, double)) (omega (arith, double))
        (omega (arith, sx, sy)) in
    omega (arith, sx, sy, half)

pub bit_xor_inj_left : (k h x y : ℕ) → x < 2 ^ k → y < 2 ^ k → bit_xor x h ≡ bit_xor y h → x ≡ y
bit_xor_inj_left zero h x y p q e = omega arith
bit_xor_inj_left (suc k) h x y p q e =
    let double = pow-suc 2 k in
    let sx = bit_xor_step x h in
    let sy = bit_xor_step y h in
    let half =
      bit_xor_inj_left k (h / 2) (x / 2) (y / 2) (omega (arith, double)) (omega (arith, double))
        (omega (arith, sx, sy)) in
    omega (arith, sx, sy, half)

masked_out : (bound x : ℕ) → x ≤ bound → bit_and x 0 ≡ 0
masked_out bound zero h = refl
masked_out zero (suc x) h = absurd (omega arith)
masked_out (suc bound) (suc x) h =
    let above = masked_out bound (suc x / 2) (omega arith) in
    omega (arith, above, bit_and_step (suc x) 0)

bit_and_nibble : (a m : ℕ) → m % 16 ≡ 15 → bit_and a m ≡ bit_and (a / 16) (m / 16) * 16 + a % 16
bit_and_nibble a m e = omega (
  arith,
  bit_and_step a m,
  bit_and_step (a / 2) (m / 2),
  bit_and_step (a / 2 / 2) (m / 2 / 2),
  bit_and_step (a / 2 / 2 / 2) (m / 2 / 2 / 2),
  ap₂ bit_and (sixteenth a) (sixteenth m),
)
  where
    sixteenth : (n : ℕ) → n / 2 / 2 / 2 / 2 ≡ n / 16
    sixteenth n = omega arith

-- The low byte of a word is its remainder by 256.
pub bit_and_byte : (a : ℕ) → bit_and a 0xff ≡ a % 256
bit_and_byte a = omega (
  arith,
  bit_and_nibble a 255 refl,
  bit_and_nibble (a / 16) 15 refl,
  masked_out (a / 16 / 16) (a / 16 / 16) (le_refl _),
)
