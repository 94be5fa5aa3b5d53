-- ===== src/Platform/Model.antt =====
-- A platform on which the definitions run: `double` in millionths, and sources that count.
use ycsb_lsm.Base.{ℕ, ◌+◌, ◌-◌, ◌*◌, ◌/◌, ◌%◌, ◌^◌, ◌≤◌, ◌==◌, some, ltb, if◌then◌else◌, arith}
use ycsb_lsm.Base.Int.{pos, pos_part}
use ycsb_lsm.Platform.{Platform, IsStandard}

abbrev pub counting : Platform
counting = record {
  Double = ℕ;
  literal = λ m k. m * 1_000_000 / 10 ^ k;
  of_nat = λ n. n * 1_000_000;
  of_int = λ z. pos_part z * 1_000_000;
  add = λ x y. x + y;
  sub = λ x y. x - y;
  mul = λ x y. x * y / 1_000_000;
  div = λ x y. x * 1_000_000 / y;
  pow = λ x y. if y == 0 then 1_000_000 else x;
  lt = ltb;
  truncate = λ x. x / 1_000_000;
  to_long = λ x. pos (x / 1_000_000);
  stod = λ s. some 500_000;
  Engine = ℕ;
  default_engine = 5489;
  uniform_int = λ a b e. (a + e % (b - a + 1), (e * 69069 + 1) % 2 ^ 32);
  World = ℕ;
  random_double = λ w. (w * 617_321 % 1_000_000, w + 1);
  random_ull = λ w. (w * 16807 % 2 ^ 31, w + 1);
  rand = λ w. ((w * 1_103_515_245 + 12345) % 2 ^ 31, w + 1);
}

uniform_int_bounds : (a b e : ℕ) → a ≤ b → (a ≤ a + e % (b - a + 1)) × (a + e % (b - a + 1) ≤ b)
uniform_int_bounds a b e h = omega arith

random_ull-le : (w : ℕ) → w * 16807 % 2 ^ 31 ≤ 2 ^ 63
random_ull-le w = omega arith

pub counting-IsStandard : IsStandard counting
counting-IsStandard = record {
  uniform_int_bounds = uniform_int_bounds;
  random_ull-le = random_ull-le;
}
