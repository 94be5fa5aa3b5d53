-- ===== src/Base/Decimal.antt =====
-- Decimal text of unsigned integers: `std::to_string` and the conversion `%020lu`.
use Prim.Native.Nat.{ℕ, zero, suc, ◌+◌, ◌-◌, ◌*◌, ◌/◌, ◌%◌, ◌^◌, ◌<◌}
use mathlib.Core.Path.{◌≡◌, refl, sym, ap, ◌∙◌}
use mathlib.Core.Logic.{inl, inr}
use mathlib.Core.Bool.{Bool, true, false}
use mathlib.Core.List.{[], ◌∷◌, ◌++◌, append_assoc}
use native.Mathlib.Nat.{pow-suc}
use native.Mathlib.Omega.{arith}
use ycsb_lsm.Base.Tests.{ltb, ◌==◌, ==_iff, if◌then◌else◌, Bool-cases}
use ycsb_lsm.Base.Lists.{length, replicate, length-append}
use ycsb_lsm.Base.Strings.{Bytes, same, same-eq, eq-same}

-- The decimal digits, with a bound on their number.
unfoldable pub decimal : ℕ → ℕ → Bytes
decimal zero n = []
decimal (suc k) n =
    let front = decimal k (n / 10) in
    if ltb n 10 then (b'0' + n) ∷ [] else front ++ (b'0' + n % 10) ∷ []

-- `std::to_string` of a 64-bit number, which has at most 20 digits.
unfoldable pub to_string : ℕ → Bytes
unfolding decimal
to_string n = decimal 20 n

-- Zeros on the left up to a width.
unfoldable pub pad_zeros : ℕ → Bytes → Bytes
pad_zeros width s = replicate (width - length s) b'0' ++ s

-- `snprintf(…, "%020lu", n)`
unfoldable pub format_020lu : ℕ → Bytes
unfolding to_string pad_zeros
format_020lu n = pad_zeros 20 (to_string n)

-- The number that a text of digits stands for.
unfoldable pub value_from : ℕ → Bytes → ℕ
value_from acc [] = acc
value_from acc (c ∷ s) = value_from (acc * 10 + (c - b'0')) s

value_from-append :
    (acc : ℕ) (s : Bytes) (d : ℕ)
    → value_from acc (s ++ (b'0' + d) ∷ []) ≡ value_from acc s * 10 + d
unfolding value_from
value_from-append acc [] d = omega arith
value_from-append acc (c ∷ s) d = value_from-append (acc * 10 + (c - b'0')) s d

value_from-decimal : (k n : ℕ) → n < 10 ^ k → value_from 0 (decimal k n) ≡ n
unfolding decimal
value_from-decimal zero n h = unfold value_from in omega arith
value_from-decimal (suc k) n h = elim (Bool-cases (ltb n 10)) [
  | inl small ↦ rw small (unfold value_from in omega arith)
  | inr large ↦
      rw (large, value_from-append 0 (decimal k (n / 10)) (n % 10))
        (omega (arith, value_from-decimal k (n / 10) (omega (arith, pow-suc 10 k))))
]

-- Reading a printed 64-bit number gives it back.
pub value_from-to_string : (n : ℕ) → n < 2 ^ 64 → value_from 0 (to_string n) ≡ n
unfolding to_string
value_from-to_string n h = value_from-decimal 20 n (omega arith)

pub to_string_inj : (a b : ℕ) → a < 2 ^ 64 → b < 2 ^ 64 → to_string a ≡ to_string b → a ≡ b
to_string_inj a b p q e =
    sym (value_from-to_string a p) ∙ ap (value_from 0) e ∙ value_from-to_string b q

-- Exactly `k` digits, with leading zeros.
unfoldable pub fixed : ℕ → ℕ → Bytes
fixed zero n = []
fixed (suc k) n = fixed k (n / 10) ++ (b'0' + n % 10) ∷ []

pub length-fixed : (k n : ℕ) → length (fixed k n) ≡ k
unfolding fixed
length-fixed zero n = refl
length-fixed (suc k) n =
    omega
      (arith, length-append {0} (fixed k (n / 10)) ((b'0' + n % 10) ∷ []), length-fixed k (n / 10))

replicate_snoc : (k c : ℕ) → replicate k c ++ c ∷ [] ≡ replicate (suc k) c
replicate_snoc zero c = refl
replicate_snoc (suc k) c = ap (λ s. c ∷ s) (replicate_snoc k c)

fixed-zero : (k : ℕ) → fixed k 0 ≡ replicate k b'0'
unfolding fixed
fixed-zero zero = refl
fixed-zero (suc k) = rw (fixed-zero k) (replicate_snoc k b'0')

pad_zeros-decimal : (k n : ℕ) → n < 10 ^ k → pad_zeros k (decimal k n) ≡ fixed k n
unfolding pad_zeros decimal fixed
pad_zeros-decimal zero n h = refl
pad_zeros-decimal (suc k) n h = elim (Bool-cases (ltb n 10)) [
  | inl small ↦
      let quotient : n / 10 ≡ 0 = ground arith in
      let digit : n % 10 ≡ n = ground arith in
      let width : suc k - 1 ≡ k = omega arith in
      rw (small, quotient, digit, fixed-zero k, width) refl
  | inr large ↦
      let front = decimal k (n / 10) in
      let d = (b'0' + n % 10) ∷ [] in
      let width : suc k - length (front ++ d) ≡ k - length front =
        omega (arith, length-append {0} front d) in
      rw (large, width)
        (sym (append_assoc (replicate (k - length front) b'0') front d)
          ∙ ap (λ s. s ++ d) (pad_zeros-decimal k (n / 10) (omega (arith, pow-suc 10 k))))
]

-- The conversion gives exactly twenty digits.
pub format_020lu-fixed : (n : ℕ) → n < 2 ^ 64 → format_020lu n ≡ fixed 20 n
unfolding format_020lu
format_020lu-fixed n h = pad_zeros-decimal 20 n (omega arith)

pub value_from-fixed : (k n : ℕ) → n < 10 ^ k → value_from 0 (fixed k n) ≡ n
unfolding fixed
value_from-fixed zero n h = unfold value_from in omega arith
value_from-fixed (suc k) n h =
    rw (value_from-append 0 (fixed k (n / 10)) (n % 10))
      (omega (arith, value_from-fixed k (n / 10) (omega (arith, pow-suc 10 k))))

-- The order of texts byte by byte, as `std::string::operator<` and the key order of the stores.
unfoldable pub lex_ltb : Bytes → Bytes → Bool
lex_ltb [] [] = false
lex_ltb [] (y ∷ t) = true
lex_ltb (x ∷ s) [] = false
lex_ltb (x ∷ s) (y ∷ t) = if ltb x y then true else if ltb y x then false else lex_ltb s t

lex_ltb-append :
    (s t : Bytes) (c d : ℕ)
    → length s ≡ length t
    → lex_ltb (s ++ c ∷ []) (t ++ d ∷ [])
      ≡ (if lex_ltb s t then true else if same s t then ltb c d else false)
unfolding lex_ltb same
lex_ltb-append [] [] c d h = ground arith
lex_ltb-append [] (y ∷ t) c d h = absurd (omega arith)
lex_ltb-append (x ∷ s) [] c d h = absurd (omega arith)
lex_ltb-append (x ∷ s) (y ∷ t) c d h = ground (arith, lex_ltb-append s t c d)

pub lex_ltb-prefix : (p s t : Bytes) → lex_ltb (p ++ s) (p ++ t) ≡ lex_ltb s t
unfolding lex_ltb
lex_ltb-prefix [] s t = refl
lex_ltb-prefix (x ∷ p) s t = ground (arith, lex_ltb-prefix p s t)

same-fixed : (k a b : ℕ) → a < 10 ^ k → b < 10 ^ k → same (fixed k a) (fixed k b) ≡ (a == b)
same-fixed k a b p q = elim (Bool-cases (same (fixed k a) (fixed k b))) [
  | inl e ↦
      let v = ap (value_from 0) (same-eq (fixed k a) (fixed k b) e) in
      ground (arith, v, value_from-fixed k a p, value_from-fixed k b q)
  | inr e ↦
      ground (arith, ==_iff a b, λ (h : a ≡ b). eq-same (fixed k a) (fixed k b) (ap (fixed k) h))
]

-- With the same number of digits the order of texts is the order of numbers.
pub lex_ltb-fixed :
    (k a b : ℕ) → a < 10 ^ k → b < 10 ^ k → lex_ltb (fixed k a) (fixed k b) ≡ ltb a b
unfolding fixed
lex_ltb-fixed zero a b p q = unfold lex_ltb in ground arith
lex_ltb-fixed (suc k) a b p q =
    let pa : a / 10 < 10 ^ k = omega (arith, pow-suc 10 k) in
    let pb : b / 10 < 10 ^ k = omega (arith, pow-suc 10 k) in
    let step =
      lex_ltb-append (fixed k (a / 10)) (fixed k (b / 10)) (b'0' + a % 10) (b'0' + b % 10)
        (length-fixed k (a / 10) ∙ sym (length-fixed k (b / 10))) in
    let ih = lex_ltb-fixed k (a / 10) (b / 10) pa pb in
    rw (step, lex_ltb-fixed k (a / 10) (b / 10) pa pb, same-fixed k (a / 10) (b / 10) pa pb)
      (ground arith)
