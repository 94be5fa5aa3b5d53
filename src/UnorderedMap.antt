-- ===== src/UnorderedMap.antt =====
-- What the hash tables take from `std::unordered_map`: a parameter of the model. The equality of keys
-- is `String::operator==`, so a key is the text of its C string.
pub mod Model
use ycsb_lsm.Base.{ℕ, ◌≡◌, Bool, List, [], ◌∷◌, Option, none, some, Bytes, same, if◌then◌else◌}

-- The value of the first entry with the key.
unfoldable pub lookup {ℓ} : {V : Type ℓ} → Bytes → List (Bytes × V) → Option V
lookup k [] = none
lookup k ((j, v) ∷ rest) = if same j k then some v else lookup k rest

pub record Container : Type 1 where
  pub Map : Type 0 → Type 0
  pub empty : {V : Type 0} → Map V
  -- `find`, and the value at the iterator
  pub find : {V : Type 0} → Bytes → Map V → Option V
  -- `insert` of a key that is not there
  pub add : {V : Type 0} → Bytes → V → Map V → Map V
  -- assignment to the value at the iterator of a key that is there
  pub replace : {V : Type 0} → Bytes → V → Map V → Map V
  -- `erase` at the iterator of a key that is there
  pub erase : {V : Type 0} → Bytes → Map V → Map V
  -- the entries in the order of iteration
  pub elements : {V : Type 0} → Map V → List (Bytes × V)

-- What [unord.req] of the C++ standard says of these.
pub record IsContainer (C : Container) : Type 1 where
  pub find-empty : {V : Type 0} (k : Bytes) → C.find k (C.empty {V = V}) ≡ none
  pub find-add :
      {V : Type 0} (k j : Bytes) (v : V) (m : C.Map V)
      → C.find k m ≡ none
      → C.find j (C.add k v m) ≡ (if same k j then some v else C.find j m)
  pub find-replace :
      {V : Type 0} (k j : Bytes) (v old : V) (m : C.Map V)
      → C.find k m ≡ some old
      → C.find j (C.replace k v m) ≡ (if same k j then some v else C.find j m)
  pub find-erase :
      {V : Type 0} (k j : Bytes) (old : V) (m : C.Map V)
      → C.find k m ≡ some old
      → C.find j (C.erase k m) ≡ (if same k j then none else C.find j m)
  pub lookup-elements :
      {V : Type 0} (k : Bytes) (m : C.Map V) → lookup k (C.elements m) ≡ C.find k m
