-- ===== src/Tests/Texts.antt =====
-- Hashing, text and properties at concrete inputs.
use ycsb_lsm.Base.{
  ℕ, ◌≡◌, refl, ◌≢◌, not, ◌&&◌, ◌==◌, Bool, true, [], ◌∷◌, none, some, Bytes, codes, ok, All, arith,
  ltb,
}
use ycsb_lsm.Base.Decimal.{lex_ltb}
use ycsb_lsm.Utils.{trim, find_if_not}
use ycsb_lsm.Utils.Fnv.Collisions.{fnv_hash64_inj}
use ycsb_lsm.Utils.Text.Trimmed.{Trimming, trim-Trimming}
use ycsb_lsm.Properties.{Properties, no_properties, get_property, lines, load, is_comment}
use ycsb_lsm.Properties.Loading.{last_value, get_property-load, print, IsPlain, set_all, load-print}
use ycsb_lsm.Workload.{build_key_name}
use ycsb_lsm.Workload.KeyName.{
  build_key_name_inj, build_key_name_inj_hashed, lex_ltb-build_key_name,
}

abbrev some_key : ℕ
some_key = 258

fnv_hash64_inj_example : some_key ≡ 258
fnv_hash64_inj_example = fnv_hash64_inj 1 some_key 258 (omega arith) (refl, refl) refl

trim-Trimming_example : Trimming (codes "  a b ") (trim (codes "  a b "))
trim-Trimming_example = trim-Trimming (codes "  a b ")

get_property-load_example :
    (q : Properties) × (load no_properties (some (codes "a=1\na = 2\n")) ≡ ok (true, q))
    × (get_property q (codes "a") []
        ≡ elim (last_value (codes "a") (lines (codes "a=1\na = 2\n"))) [
          | none ↦ get_property no_properties (codes "a") []
          | some v ↦ v
        ])
get_property-load_example = get_property-load no_properties (codes "a=1\na = 2\n") (codes "a") []

lacks : ℕ → Bytes → Bool
lacks x [] = true
lacks x (c ∷ s) = not (c == x) && lacks x s

lacks-All : (x : ℕ) (s : Bytes) → lacks x s ≡ true → All (λ c. c ≢ x) s
unfolding lacks
lacks-All x [] h = tt
lacks-All x (c ∷ s) h = ground (arith, lacks-All x s)

threads-IsPlain : IsPlain (codes "threads", codes "4")
threads-IsPlain = record {
  key_line = lacks-All b'\n' (codes "threads") (unfold lacks in refl);
  key_equals = lacks-All b'=' (codes "threads") (unfold lacks in refl);
  key_comment = unfold is_comment in refl;
  key_trimmed = unfold trim find_if_not in refl;
  value_line = lacks-All b'\n' (codes "4") (unfold lacks in refl);
  value_trimmed = unfold trim find_if_not in refl;
}

load-print_example :
    load no_properties (some (print ((codes "threads", codes "4") ∷ [])))
    ≡ ok (true, set_all no_properties ((codes "threads", codes "4") ∷ []))
load-print_example =
    load-print no_properties ((codes "threads", codes "4") ∷ []) (threads-IsPlain, tt)

build_key_name_inj_example : some_key ≡ 258
build_key_name_inj_example = build_key_name_inj some_key 258 (omega arith) (omega arith) refl

build_key_name_inj_hashed_example : some_key ≡ 258
build_key_name_inj_hashed_example =
    build_key_name_inj_hashed 0 some_key 258 (omega arith) (omega arith) (omega arith) refl refl

lex_ltb-build_key_name_example : lex_ltb (build_key_name true 9) (build_key_name true 10) ≡ ltb 9 10
lex_ltb-build_key_name_example = lex_ltb-build_key_name 9 10 (omega arith) (omega arith)
