-- ===== src/Workload/KeyName.antt =====
-- The names of keys that `BuildKeyName` makes.
use ycsb_lsm.Base.{
  ℕ, ◌^◌, ◌<◌, ◌≡◌, sym, ap, ◌∙◌, Bool, true, false, ◌++◌, codes, ltb, if◌then◌else◌, take, length,
  take-all, arith,
}
use ycsb_lsm.Base.Decimal.{
  fixed, length-fixed, format_020lu, format_020lu-fixed, value_from, value_from-fixed, lex_ltb,
  lex_ltb-prefix, lex_ltb-fixed,
}
use ycsb_lsm.Utils.{hash}
use ycsb_lsm.Utils.Fnv.Collisions.{fnv_hash64-lt, fnv_hash64_inj, SameButOctet}
use ycsb_lsm.Workload.{build_key_name}

take-format : (n : ℕ) → n < 2 ^ 64 → take 20 (format_020lu n) ≡ fixed 20 n
take-format n h =
    rw (format_020lu-fixed n h) (take-all (fixed 20 n) 20 (omega (arith, length-fixed 20 n)))

hash-lt : (n : ℕ) → hash n < 2 ^ 64
unfolding hash
hash-lt n = fnv_hash64-lt n

-- The number behind a key name.
pub key_number : Bool → ℕ → ℕ
key_number ordered n = if ordered then n else hash n

key_number-lt : (ordered : Bool) (n : ℕ) → n < 2 ^ 64 → key_number ordered n < 2 ^ 64
unfolding key_number
key_number-lt true n h = h
key_number-lt false n h = hash-lt n

pub build_key_name-fixed :
    (ordered : Bool) (n : ℕ)
    → n < 2 ^ 64
    → build_key_name ordered n ≡ codes "user" ++ fixed 20 (key_number ordered n)
unfolding build_key_name key_number
build_key_name-fixed ordered n h =
    ap (λ s. codes "user" ++ s) (take-format (key_number ordered n) (key_number-lt ordered n h))

-- Every key name has 24 bytes: "user" and twenty digits.
pub length-build_key_name :
    (ordered : Bool) (n : ℕ) → n < 2 ^ 64 → length (build_key_name ordered n) ≡ 24
length-build_key_name ordered n h =
    rw (build_key_name-fixed ordered n h) (omega (arith, length-fixed 20 (key_number ordered n)))

key_number-build_key_name :
    (ordered : Bool) (a b : ℕ)
    → a < 2 ^ 64
    → b < 2 ^ 64
    → build_key_name ordered a ≡ build_key_name ordered b
    → key_number ordered a ≡ key_number ordered b
key_number-build_key_name ordered a b p q e =
    let digits : fixed 20 (key_number ordered a) ≡ fixed 20 (key_number ordered b) =
      cc (e, build_key_name-fixed ordered a p, build_key_name-fixed ordered b q) in
    let va =
      value_from-fixed 20 (key_number ordered a) (omega (arith, key_number-lt ordered a p)) in
    let vb =
      value_from-fixed 20 (key_number ordered b) (omega (arith, key_number-lt ordered b q)) in
    sym va ∙ ap (value_from 0) digits ∙ vb

-- With ordered inserts two key numbers have the same name only if they are equal.
pub build_key_name_inj :
    (a b : ℕ) → a < 2 ^ 64 → b < 2 ^ 64 → build_key_name true a ≡ build_key_name true b → a ≡ b
build_key_name_inj a b p q e = unfold key_number in key_number-build_key_name true a b p q e

-- With hashed inserts two key numbers that differ in one octet have different names.
pub build_key_name_inj_hashed :
    (i a b : ℕ)
    → a < 2 ^ 64
    → b < 2 ^ 64
    → i < 8
    → SameButOctet i a b
    → build_key_name false a ≡ build_key_name false b
    → a ≡ b
build_key_name_inj_hashed i a b p q r s e =
    fnv_hash64_inj i a b r s (unfold key_number hash in key_number-build_key_name false a b p q e)

-- With ordered inserts the names sort byte by byte as the key numbers do.
pub lex_ltb-build_key_name :
    (a b : ℕ)
    → a < 2 ^ 64
    → b < 2 ^ 64
    → lex_ltb (build_key_name true a) (build_key_name true b) ≡ ltb a b
lex_ltb-build_key_name a b p q =
    rw
      (
        build_key_name-fixed true a p,
        build_key_name-fixed true b q,
        lex_ltb-prefix (codes "user") (fixed 20 (key_number true a)) (fixed 20 (key_number true b)),
      )
      (unfold key_number in lex_ltb-fixed 20 a b (omega arith) (omega arith))
