-- ===== src/Properties.antt =====
-- core/properties.h: the class `Properties`. The `std::map` is an association list with one entry
-- for each key; the program never walks over it, so the order of the entries is not modelled.
pub mod Laws
pub mod Loading
use ycsb_lsm.Base.{
  ℕ, Bool, true, false, List, [], ◌∷◌, ◌++◌, Option, none, some, Bytes, codes, same, ◌==◌,
  if◌then◌else◌, Run, ok, fault, exception,
}
use ycsb_lsm.Utils.{trim}

pub record Properties : Type 0 where
  pub properties : List (Bytes × Bytes)

-- `std::map::find`
unfoldable pub find : Bytes → List (Bytes × Bytes) → Option Bytes
find k [] = none
find k ((j, v) ∷ m) = if same j k then some v else find k m

-- `properties_[key] = value`
unfoldable pub assign : Bytes → Bytes → List (Bytes × Bytes) → List (Bytes × Bytes)
assign k v [] = (k, v) ∷ []
assign k v ((j, w) ∷ m) = if same j k then (j, v) ∷ m else (j, w) ∷ assign k v m

abbrev pub no_properties : Properties
no_properties = record { properties = [] }

-- `GetProperty`
unfoldable pub get_property : Properties → Bytes → Bytes → Bytes
unfolding find
get_property p key default_value = elim (find key p.properties) [
  | none ↦ default_value
  | some value ↦ value
]

-- `SetProperty`
unfoldable pub set_property : Properties → Bytes → Bytes → Properties
unfolding assign
set_property p key value = record p { properties = assign key value p.properties }

-- `operator[]` read as a value: a key that is not there is entered with an empty value.
unfoldable pub index : Properties → Bytes → Bytes × Properties
unfolding find
index p key = elim (find key p.properties) [
  | none ↦ ([], record p { properties = assign key [] p.properties })
  | some value ↦ (value, p)
]

abbrev push_front : ℕ → List Bytes → List Bytes
push_front c [] = (c ∷ []) ∷ []
push_front c (line ∷ rest) = (c ∷ line) ∷ rest

-- What the calls of `std::getline` deliver until the end of the file: the pieces between newlines.
unfoldable pub lines : Bytes → List Bytes
lines [] = [] ∷ []
lines (c ∷ s) = let rest = lines s in if c == b'\n' then [] ∷ rest else push_front c rest

-- `find_first_of('=')` with the two `substr` calls.
unfoldable pub split_at_equals : Bytes → Option (Bytes × Bytes)
split_at_equals [] = none
split_at_equals (c ∷ s) =
    let rest = split_at_equals s in
    if c == b'='
    then some ([], s)
    else elim rest [ none ↦ none | some (before, after) ↦ some (c ∷ before, after) ]

-- `line[0] == '#'`; the first character of an empty `std::string` is the terminating zero.
unfoldable pub is_comment : Bytes → Bool
is_comment [] = false
is_comment (c ∷ s) = c == b'#'

-- One round of the loop in `Load`.
unfoldable pub load_line : Properties → Bytes → Properties
unfolding split_at_equals is_comment set_property
load_line p line = if is_comment line then p else elim (split_at_equals line) [
  | none ↦ p
  | some (before, after) ↦ set_property p (trim before) (trim after)
]

unfoldable pub load_lines : Properties → List Bytes → Properties
load_lines p [] = p
load_lines p (line ∷ rest) = load_lines (load_line p line) rest

-- `Load`; `none` is a stream that is not open.
unfoldable pub load : Properties → Option Bytes → Run (Bool × Properties)
unfolding load_lines lines
load p none = fault (exception (codes "File not open!"))
load p (some text) = ok (true, load_lines p (lines text))
