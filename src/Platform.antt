-- ===== src/Platform.antt =====
-- What the program takes from the machine and from <random>: floating-point numbers, and the random
-- numbers of core/utils.h and of `std::mt19937_64`. All of it is a parameter of the model.
pub mod Model
use ycsb_lsm.Base.{ℕ, ◌^◌, ◌≤◌, Bool, Option, Bytes}
use ycsb_lsm.Base.Int.{ℤ}

pub record Platform : Type 1 where
  -- `double`; `literal m k` is the constant m / 10 ^ k
  pub Double : Type 0
  pub literal : ℕ → ℕ → Double
  pub of_nat : ℕ → Double
  pub of_int : ℤ → Double
  pub add : Double → Double → Double
  pub sub : Double → Double → Double
  pub mul : Double → Double → Double
  pub div : Double → Double → Double
  pub pow : Double → Double → Double
  pub lt : Double → Double → Bool
  -- the conversions to `uint64_t` and to `long`
  pub truncate : Double → ℕ
  pub to_long : Double → ℤ
  -- the number that `std::stod` reads, if the text begins with one
  pub stod : Bytes → Option Double
  -- `std::mt19937_64`, as its constructor leaves it, and a draw of
  -- `std::uniform_int_distribution<uint64_t>(min, max)` from it
  pub Engine : Type 0
  pub default_engine : Engine
  pub uniform_int : ℕ → ℕ → Engine → ℕ × Engine
  -- the state of the global sources: `utils::RandomDouble`, `utils::RandomULL` and `rand`
  pub World : Type 0
  pub random_double : World → Double × World
  pub random_ull : World → ℕ × World
  pub rand : World → ℕ × World

-- What the C++ standard says of these.
pub record IsStandard (P : Platform) : Type 1 where
  -- [rand.dist.uni.int]: a draw lies between the bounds, both included
  pub uniform_int_bounds :
      (a b : ℕ) (e : P.Engine)
      → a ≤ b
      → (a ≤ (P.uniform_int a b e).0) × ((P.uniform_int a b e).0 ≤ b)
  pub random_ull-le : (w : P.World) → (P.random_ull w).0 ≤ 2 ^ 63
