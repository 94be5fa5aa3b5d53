-- ===== src/Hashtable/Text.antt =====
-- Equality of the strings of lib/string.h.
use ycsb_lsm.Base.{◌≡◌, ◌↔◌, true, Bytes, same_iff, same_refl, ==_iff, arith}
use ycsb_lsm.Hashtable.{c_str, wrap, string_eq, sdbm_hash}

-- Two wrapped C strings are equal, the comparison of hashes included, exactly if their texts are.
pub string_eq-wrap : (s t : Bytes) → (string_eq (wrap s) (wrap t) ≡ true) ↔ (c_str s ≡ c_str t)
unfolding string_eq wrap
string_eq-wrap s t =
    let i = same_iff (c_str s) (c_str t) in
    let h = ==_iff (sdbm_hash (c_str s)) (sdbm_hash (c_str t)) in
    (
      λ e. ground (arith, i),
      λ e.
          rw e (
            ground
              (arith, same_refl (c_str t), ==_iff (sdbm_hash (c_str t)) (sdbm_hash (c_str t)))),
    )
