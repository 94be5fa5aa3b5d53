-- ===== src/UnorderedMap/Model.antt =====
-- A container that keeps its entries in a list, the newest first.
use ycsb_lsm.Base.{
  ◌≡◌, refl, List, [], ◌∷◌, none, some, Bytes, same, same_iff, if◌then◌else◌, arith,
}
use ycsb_lsm.UnorderedMap.{lookup, Container, IsContainer}

abbrev pub replace {ℓ} : {V : Type ℓ} → Bytes → V → List (Bytes × V) → List (Bytes × V)
replace k v [] = []
replace k v ((j, w) ∷ rest) = if same j k then (j, v) ∷ rest else (j, w) ∷ replace k v rest

abbrev pub erase {ℓ} : {V : Type ℓ} → Bytes → List (Bytes × V) → List (Bytes × V)
erase k [] = []
erase k ((j, w) ∷ rest) = let others = erase k rest in if same j k then others else (j, w) ∷ others

abbrev pub listing : Container
listing = record {
  Map = λ V. List (Bytes × V);
  empty = [];
  find = lookup;
  add = λ k v m. (k, v) ∷ m;
  replace = replace;
  erase = erase;
  elements = λ m. m;
}

lookup-replace {ℓ} :
    {V : Type ℓ} (k j : Bytes) (v old : V) (m : List (Bytes × V))
    → lookup k m ≡ some old
    → lookup j (replace k v m) ≡ (if same k j then some v else lookup j m)
unfolding lookup
lookup-replace k j v old [] h = cc
lookup-replace k j v old ((i, w) ∷ m) h =
    ground (arith, same_iff i k, same_iff i j, same_iff k j, lookup-replace k j v old m)

lookup-erase {ℓ} :
    {V : Type ℓ} (k j : Bytes) (m : List (Bytes × V))
    → lookup j (erase k m) ≡ (if same k j then none else lookup j m)
unfolding lookup
lookup-erase k j [] = ground arith
lookup-erase k j ((i, w) ∷ m) =
    ground (arith, same_iff i k, same_iff i j, same_iff k j, lookup-erase k j m)

pub listing-IsContainer : IsContainer listing
listing-IsContainer = record {
  find-empty = λ k. unfold lookup in refl;
  find-add = λ k j v m h. unfold lookup in refl;
  find-replace = λ k j v old m h. lookup-replace k j v old m h;
  find-erase = λ k j old m h. lookup-erase k j m;
  lookup-elements = λ k m. refl;
}
