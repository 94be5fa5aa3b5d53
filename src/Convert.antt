-- ===== src/Convert.antt =====
-- The conversions from text of the C++ library that the program calls: `std::stoi`, `std::stol` and
-- the `%zu` of `sscanf`. They skip white space, take a sign and read digits up to another character.
use ycsb_lsm.Base.{
  ℕ, ◌+◌, ◌-◌, ◌^◌, Bool, ◌&&◌, [], ◌∷◌, Option, none, some, Bytes, codes, ltb, leb, ◌==◌,
  if◌then◌else◌, Run, ok, fault, std_exception,
}
use ycsb_lsm.Base.Int.{ℤ, pos, negsuc}
use ycsb_lsm.Base.Decimal.{value_from}
use ycsb_lsm.Utils.{find_if_not}

abbrev pub is_digit : ℕ → Bool
is_digit c = leb b'0' c && leb c b'9'

-- The digits at the start of a text.
unfoldable pub digit_run : Bytes → Bytes
digit_run [] = []
digit_run (c ∷ s) = if is_digit c then c ∷ digit_run s else []

-- At least one digit.
unfoldable pub read_digits : Bytes → Option ℕ
unfolding digit_run value_from
read_digits [] = none
read_digits (c ∷ s) = if is_digit c then some (value_from 0 (digit_run (c ∷ s))) else none

abbrev pub negate : ℕ → ℤ
negate n = if n == 0 then pos 0 else negsuc (n - 1)

unfoldable pub read_signed : Bytes → Option ℤ
unfolding read_digits
read_signed [] = none
read_signed (c ∷ s) =
    if c == b'-'
    then elim (read_digits s) [ none ↦ none | some n ↦ some (negate n) ]
    else if c == b'+'
    then elim (read_digits s) [ none ↦ none | some n ↦ some (pos n) ]
    else elim (read_digits (c ∷ s)) [ none ↦ none | some n ↦ some (pos n) ]

unfoldable pub read_integer : Bytes → Option ℤ
unfolding read_signed find_if_not
read_integer s = read_signed (find_if_not s)

-- The value fits a signed type of `bits + 1` bits.
abbrev pub fits : ℕ → ℤ → Bool
fits bits (pos n) = ltb n (2 ^ bits)
fits bits (negsuc n) = ltb n (2 ^ bits)

unfoldable pub checked : ℕ → Option ℤ → Run ℤ
checked bits none = fault (std_exception (codes "std::invalid_argument"))
checked bits (some z) =
    if fits bits z then ok z else fault (std_exception (codes "std::out_of_range"))

-- `std::stoi`
unfoldable pub stoi : Bytes → Run ℤ
unfolding read_integer checked
stoi s = checked 31 (read_integer s)

-- `std::stol`
unfoldable pub stol : Bytes → Run ℤ
unfolding read_integer checked
stol s = checked 63 (read_integer s)

-- `sscanf(s, "%zu", &n)`: `none` is a conversion that fails and leaves `n` as it was. A negative
-- number wraps, and a number that does not fit is replaced by the largest.
unfoldable pub sscanf_zu : Bytes → Option ℕ
unfolding read_integer
sscanf_zu s = elim (read_integer s) [
  | none ↦ none
  | some (pos n) ↦ some (if ltb n (2 ^ 64) then n else 2 ^ 64 - 1)
  | some (negsuc n) ↦ some (if ltb (n + 1) (2 ^ 64) then 2 ^ 64 - 1 - n else 2 ^ 64 - 1)
]
