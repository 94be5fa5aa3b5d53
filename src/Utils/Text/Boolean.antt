-- ===== src/Utils/Text/Boolean.antt =====
-- What `StrToBool` accepts.
use ycsb_lsm.Base.{
  ℕ, ◌≡◌, refl, true, false, [], ◌∷◌, map, Bytes, codes, ok, arith, ◌↔◌, Bool, ◌⊎◌, same_iff,
}
use ycsb_lsm.Utils.Text.{tolower, str_to_bool}

tolower_idem : (c : ℕ) → tolower (tolower c) ≡ tolower c
unfolding tolower
tolower_idem c = ground arith

map-tolower_idem : (s : Bytes) → map tolower (map tolower s) ≡ map tolower s
map-tolower_idem [] = refl
map-tolower_idem (c ∷ s) = cc (tolower_idem c, map-tolower_idem s)

-- The two spellings of each truth value.
abbrev pub Spells : Bool → Bytes → Type 0
Spells true s = (s ≡ codes "true") ⊎ (s ≡ codes "1")
Spells false s = (s ≡ codes "false") ⊎ (s ≡ codes "0")

-- `StrToBool` returns a truth value exactly on its two spellings in any case.
pub str_to_bool-Spells : (b : Bool) (s : Bytes) → (str_to_bool s ≡ ok b) ↔ Spells b (map tolower s)
unfolding str_to_bool
str_to_bool-Spells true s =
    let t = map tolower s in
    ground (
      arith,
      same_iff t (codes "true"),
      same_iff t (codes "1"),
      same_iff t (codes "false"),
      same_iff t (codes "0"),
    )
str_to_bool-Spells false s =
    let t = map tolower s in
    ground (
      arith,
      same_iff t (codes "true"),
      same_iff t (codes "1"),
      same_iff t (codes "false"),
      same_iff t (codes "0"),
    )

-- `StrToBool` does not look at the case of the letters.
pub str_to_bool_any_case : (s : Bytes) → str_to_bool (map tolower s) ≡ str_to_bool s
unfolding str_to_bool
str_to_bool_any_case s = rw map-tolower_idem
