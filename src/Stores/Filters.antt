-- ===== src/Stores/Filters.antt =====
-- The filter policy of LevelDB and of LeveldbVlog, as their constructors choose it.
pub mod Bits
use ycsb_lsm.Base.{
  ℕ, suc, zero, ◌+◌, ◌≤◌, ◌<◌, ◌≡◌, ◌≢◌, refl, Bool, true, false, List, [], ◌∷◌, ◌++◌, Option, none,
  some, Bytes, length, replicate, if◌then◌else◌, Run, ok, fault, undefined, Returns, ◌>>=◌, arith,
  Bool-cases, inl, inr,
}
use ycsb_lsm.Base.Int.{ℤ, pos, is_zero}
use ycsb_lsm.Db.{eq_int}
use ycsb_lsm.Config.{PropertyTree, Config}

-- `options.filter_policy`: not set, or `NewBloomFilterPolicy` of the name of a file, of the number of bits
-- for a key, or of the array with the number of bits for each filter and that number.
pub data FilterPolicy : Type 0 where
  not_set : FilterPolicy
  of_file : Bytes → FilterPolicy
  of_bits : ℤ → FilterPolicy
  of_array : List ℤ → ℤ → FilterPolicy

-- `int bits_per_key_per_filter[32] = {0}`
abbrev pub no_bits : List ℤ
no_bits = replicate 32 (pos 0)

-- `array[i] = c`
unfoldable pub set_at : ℕ → ℤ → List ℤ → Run (List ℤ)
set_at i c [] = fault undefined
set_at zero c (x ∷ array) = ok (c ∷ array)
set_at (suc i) c (x ∷ array) = do rest ← set_at i c array; ok (x ∷ rest)

-- The loop that reads the file: the numbers are those that `fscanf` converts, up to the first that it
-- cannot.
unfoldable pub fill_bits : List ℤ → ℕ → List ℤ → Run (List ℤ)
unfolding set_at
fill_bits [] i array = ok array
fill_bits (c ∷ numbers) i array = do array' ← set_at i c array; fill_bits numbers (i + 1) array'

-- The loop that prints the array: `i` after it. It stops at the first zero.
unfoldable pub printed : List ℤ → Run ℕ
printed [] = fault undefined
printed (x ∷ array) = elim (is_zero x) [ true ↦ ok 0 | false ↦ do i ← printed array; ok (i + 1) ]

-- The numbers of the file, or `none` if it cannot be opened: `fscanf` is then given NULL.
unfoldable pub read_bits : Option (List ℤ) → Run (List ℤ × ℕ)
unfolding fill_bits printed
read_bits none = fault undefined
read_bits (some numbers) = do array ← fill_bits numbers 0 no_bits; i ← printed array; ok (array, i)

module _ (B : PropertyTree) (scan_file : Bytes → Option (List ℤ)) where
  -- The choice by `bloom_type`, with `options.opEp_.lrus_num_` where it is set.
  unfoldable pub choose_filter : Config B → Run (FilterPolicy × Option ℕ)
  unfolding read_bits eq_int
  choose_filter config =
      let shape = config.shape in
      if eq_int shape.bloom_type (pos 1)
      then ok (of_file shape.bloom_filename, none)
      else if eq_int shape.bloom_type (pos 0)
      then ok (of_bits shape.bloom_bits, none)
      else if eq_int shape.bloom_type (pos 2)
      then (do
        (array, i) ← read_bits (scan_file config.switches.bloom_bits_array_filename)
        ok (of_array array shape.bloom_bits, some (i + 1)))
      else ok (not_set, none)
