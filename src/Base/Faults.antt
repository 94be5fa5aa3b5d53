-- ===== src/Base/Faults.antt =====
-- Code that can stop: by an exception, a failed `assert`, a call of `exit`, or undefined behaviour.
use Prim.Native.Nat.{ℕ}
use mathlib.Core.Path.{◌≡◌, refl}
use mathlib.Core.Logic.{◌⊎◌, inl, inr}
use mathlib.Core.Bool.{Bool, true, false}
use ycsb_lsm.Base.Strings.{Bytes}

pub data Fault : Type 0 where
  -- `throw utils::Exception(message)`
  exception : Bytes → Fault
  -- an exception of the standard library, by its class
  std_exception : Bytes → Fault
  -- a failed `assert`
  assertion : Fault
  -- `% 0`, a read out of range, a null pointer: undefined behaviour
  undefined : Fault
  -- `exit(status)`
  exit : ℕ → Fault
  -- no fault of the program: a loop of the model used up the rounds that it was given
  out_of_fuel : Fault

-- What a piece of code comes to.
pub data Run {ℓ} (T : Type ℓ) : Type ℓ where
  fault : Fault → Run T
  ok : T → Run T

-- One piece of code after another: the second is given the value of the first.
abbrev pub ◌>>=◌ {μ ν} : {T : Type μ} {U : Type ν} → Run T → (T → Run U) → Run U
fault why >>= continue = fault why
ok value >>= continue = continue value

abbrev pub ◌>>◌ {μ} : {U : Type μ} → Run (Unit {0}) → Run U → Run U
first >> second = first >>= λ _. second

infixl 5 ◌>>=◌
infixl 5 ◌>>◌
-- `assert(b)`
abbrev pub assert : Bool → Run (Unit {0})
assert true = ok tt
assert false = fault assertion

-- The code ends normally, in a value for which `Holds` is true.
abbrev pub Returns {μ ν} : {T : Type μ} → Run T → (T → Type ν) → Type (μ ⊔ ν)
Returns {T} code Holds = (value : T) × (code ≡ ok value) × Holds value

pub ok_inj {ℓ} : {T : Type ℓ} {x y : T} → ok x ≡ ok y → x ≡ y
ok_inj same = cc

-- When a sequence ends normally its first part did, and the goal follows from what that part gave.
pub through {μ ν κ} :
    {T : Type μ} {U : Type ν} {Goal : Type κ} (first : Run T) (second : T → Run U) {end : U}
    → (first >>= second) ≡ ok end
    → ((value : T) → first ≡ ok value → second value ≡ ok end → Goal)
    → Goal
through (fault why) second ended next = cc
through (ok value) second ended next = next value refl ended

-- The same, as a tuple.
pub >>=-eq-ok {μ ν} :
    {T : Type μ} {U : Type ν} (first : Run T) (second : T → Run U) {end : U}
    → (first >>= second) ≡ ok end
    → Returns first (λ value. second value ≡ ok end)
>>=-eq-ok first second ended = through first second ended λ value run rest. (value, run, rest)

-- What a piece of code comes to.
pub Run-cases {ℓ} :
    {T : Type ℓ} (code : Run T)
    → ((why : Fault) × (code ≡ fault why)) ⊎ ((value : T) × (code ≡ ok value))
Run-cases (fault why) = inl (why, refl)
Run-cases (ok value) = inr (value, refl)

-- What follows a piece of code, with one more step before it.
pub followed {ℓ} :
    {A B G : Type ℓ} (code : Run A) {f : A → Run G} (g : A → Run B) (h : B → Run G)
    → ((value : A) → f value ≡ (g value >>= h))
    → (code >>= f) ≡ ((code >>= g) >>= h)
followed (fault why) g h e = refl
followed (ok value) g h e = e value
