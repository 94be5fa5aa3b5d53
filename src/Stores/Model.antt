-- ===== src/Stores/Model.antt =====
-- A store that keeps its entries in the order of their keys, refuses to put the empty key, and answers
-- its properties from a second list.
use ycsb_lsm.Base.{
  ◌≡◌, refl, ap, Bool, true, false, List, [], ◌∷◌, Option, none, some, Bytes, same, same_iff,
  if◌then◌else◌, arith,
}
use ycsb_lsm.Base.Decimal.{lex_ltb}
use ycsb_lsm.UnorderedMap.{lookup}
use ycsb_lsm.Stores.{Found, not_found, found, Engine}
use ycsb_lsm.Stores.Records.{IsEngine}

abbrev pub Entries : Type 0
Entries = List (Bytes × Bytes)

-- The entries with the key set to the value.
unfoldable pub put : Bytes → Bytes → Entries → Entries
put k v [] = (k, v) ∷ []
put k v ((j, w) ∷ rest) =
    let others = put k v rest in
    if same j k
    then (k, v) ∷ rest
    else if lex_ltb k j
    then (k, v) ∷ (j, w) ∷ rest
    else (j, w) ∷ others

unfoldable pub from_key : Bytes → Entries → Entries
from_key k [] = []
from_key k ((j, w) ∷ rest) =
    let others = from_key k rest in if lex_ltb j k then others else (j, w) ∷ rest

abbrev found_of : Option Bytes → Found
found_of none = not_found
found_of (some v) = found v

abbrev property_of : Option Bytes → Bytes → Bool × Bytes
property_of none held = (false, held)
property_of (some text) held = (true, text)

abbrev put_checked : Bytes → Bytes → Entries → Bool × Entries
put_checked [] v s = (false, s)
put_checked (c ∷ k) v s = (true, put (c ∷ k) v s)

abbrev pub ordered : Entries → Engine
ordered properties = record {
  State = Entries;
  get = λ s k. (found_of (lookup k s), s);
  put = λ s k v. put_checked k v s;
  seek = λ s k. from_key k s;
  get_property = λ s name held. property_of (lookup name properties) held;
  do_some_thing = λ s what. s;
}

lookup-put :
    (k j v : Bytes) (s : Entries) → lookup j (put k v s) ≡ (if same k j then some v else lookup j s)
unfolding lookup put
lookup-put k j v [] = refl
lookup-put k j v ((i, w) ∷ s) =
    ground (arith, same_iff i k, same_iff i j, same_iff k j, lookup-put k j v s)

found_inj : {v w : Bytes} → found v ≡ found w → v ≡ w
found_inj h = cc

found_of-found : (o : Option Bytes) (v : Bytes) → found_of o ≡ found v → o ≡ some v
found_of-found none v h = cc
found_of-found (some w) v h = ap some (found_inj h)

found_of-not_found : (o : Option Bytes) → found_of o ≡ not_found → o ≡ none
found_of-not_found none h = refl
found_of-not_found (some w) h = cc

lookup-put_checked :
    (k j v : Bytes) (s : Entries)
    → (put_checked k v s).0 ≡ true
    → lookup j (put_checked k v s).1 ≡ (if same k j then some v else lookup j s)
lookup-put_checked [] j v s h = cc
lookup-put_checked (c ∷ k) j v s h = lookup-put (c ∷ k) j v s

pub ordered-IsEngine : (properties : Entries) → IsEngine (ordered properties)
ordered-IsEngine properties = record {
  contents = λ s k. lookup k s;
  get-found = λ s k v h. found_of-found (lookup k s) v h;
  get-not_found = λ s k h. found_of-not_found (lookup k s) h;
  contents-get = λ s k j. refl;
  contents-put = λ s k j v h. lookup-put_checked k j v s h;
}

pub contents-ordered :
    (properties s : Entries) (k : Bytes) → (ordered-IsEngine properties).contents s k ≡ lookup k s
unfolding ordered-IsEngine
contents-ordered properties s k = refl
