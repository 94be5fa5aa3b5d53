-- ===== src/Config/Model.antt =====
-- A property tree that is a list of paths and texts, with integers for its numbers of every type.
use ycsb_lsm.Base.{
  ℕ, Bool, true, false, List, [], ◌∷◌, Option, none, some, Bytes, codes, same, if◌then◌else◌,
}
use ycsb_lsm.Base.Int.{ℤ, pos}
use ycsb_lsm.Base.Decimal.{value_from}
use ycsb_lsm.UnorderedMap.{lookup}
use ycsb_lsm.Config.{PropertyTree}

abbrev bool_of : Bytes → Option Bool
bool_of text =
    if same text (codes "true")
    then some true
    else if same text (codes "false")
    then some false
    else none

abbrev number_of : Bytes → Option ℕ
number_of [] = none
number_of (c ∷ s) = some (value_from 0 (c ∷ s))

abbrev integer_of : Bytes → Option ℤ
integer_of [] = none
integer_of (c ∷ s) = some (pos (value_from 0 (c ∷ s)))

abbrev is_nil : List (Bytes × Bytes) → Bool
is_nil [] = true
is_nil (entry ∷ rest) = false

-- Every file holds the given entries.
abbrev pub tree_of : List (Bytes × Bytes) → PropertyTree
tree_of entries = record {
  Tree = List (Bytes × Bytes);
  Double = ℤ;
  read_ini = λ path. some entries;
  is_empty = is_nil;
  at = λ tree path. lookup path tree;
  to_int = integer_of;
  to_unsigned = number_of;
  to_bool = bool_of;
  to_double = integer_of;
  int_of_double = some;
}
