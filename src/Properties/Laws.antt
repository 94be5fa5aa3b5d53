-- ===== src/Properties/Laws.antt =====
-- `GetProperty` after a write.
use ycsb_lsm.Base.{◌≡◌, refl, List, [], ◌∷◌, some, Bytes, same, same_iff, arith, if◌then◌else◌}
use ycsb_lsm.Properties.{Properties, find, assign, get_property, set_property, index}

pub find-assign :
    (k j v : Bytes) (m : List (Bytes × Bytes))
    → find j (assign k v m) ≡ (if same k j then some v else find j m)
unfolding find assign
find-assign k j v [] = refl
find-assign k j v ((i, w) ∷ m) =
    ground (arith, same_iff i k, same_iff i j, same_iff k j, find-assign k j v m)

-- `GetProperty` after `SetProperty` returns the new value under its key, and under any other key
-- what it returned before.
pub get_property-set_property :
    (p : Properties) (k v j d : Bytes)
    → get_property (set_property p k v) j d ≡ (if same k j then v else get_property p j d)
unfolding get_property set_property
get_property-set_property p k v j d = ground (arith, find-assign k j v p.properties)

-- `operator[]` returns the value or an empty text, and afterwards the key has a value.
pub index_lem :
    (p : Properties) (k j d : Bytes)
    → ((index p k).0 ≡ get_property p k [])
      × (get_property (index p k).1 j d
          ≡ (if same k j then get_property p k [] else get_property p j d))
unfolding index get_property
index_lem p k j d = ground (arith, find-assign k j [] p.properties, same_iff k j)
