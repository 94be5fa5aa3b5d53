-- ===== src/DbFactory/Names.antt =====
-- The names of databases that db/db_factory.cc knows.
use ycsb_lsm.Base.{◌≡◌, refl, Bool, false, List, [], ◌∷◌, none, Bytes, codes, same, ◌||◌, ok, arith}
use ycsb_lsm.Properties.{Properties, index}
use ycsb_lsm.DbFactory.{create_db}

abbrev pub known_names : List Bytes
known_names =
    codes "basic"
    ∷ codes "lock_stl"
    ∷ codes "redis"
    ∷ codes "tbb_rand"
    ∷ codes "tbb_scan"
    ∷ codes "leveldb"
    ∷ codes "rocksdb"
    ∷ codes "leveldbVlog"
    ∷ []

abbrev pub is_one_of : Bytes → List Bytes → Bool
is_one_of name [] = false
is_one_of name (n ∷ rest) = same name n || is_one_of name rest

-- `CreateDB` returns NULL for every name that is not known.
pub create_db_unknown :
    (props : Properties)
    → is_one_of (index props (codes "dbname")).0 known_names ≡ false
    → create_db props ≡ ok (none, (index props (codes "dbname")).1)
unfolding create_db
create_db_unknown props h =
    let name = (index props (codes "dbname")).0 in
    let h₁ : same name (codes "basic") ≡ false = ground arith in
    let h₂ : same name (codes "lock_stl") ≡ false = ground arith in
    let h₃ : same name (codes "redis") ≡ false = ground arith in
    let h₄ : same name (codes "tbb_rand") ≡ false = ground arith in
    let h₅ : same name (codes "tbb_scan") ≡ false = ground arith in
    let h₆ : same name (codes "leveldb") ≡ false = ground arith in
    let h₇ : same name (codes "rocksdb") ≡ false = ground arith in
    let h₈ : same name (codes "leveldbVlog") ≡ false = ground arith in
    rw (h₁, h₂, h₃, h₄, h₅, h₆, h₇, h₈) refl
