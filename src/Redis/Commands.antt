-- ===== src/Redis/Commands.antt =====
-- The text of the command that `Update` sends.
use mathlib.Core.List.{append_assoc, append-nil}
use ycsb_lsm.Base.{
  ℕ, ◌+◌, ◌≡◌, refl, sym, ap, ◌∙◌, Bool, true, ◌&&◌, List, [], ◌∷◌, ◌++◌, Bytes, codes, length,
  length-append, ◌==◌, if◌then◌else◌, ok, fault, assertion, arith, Bool-cases, inl, inr,
}
use ycsb_lsm.Db.{FieldPair}
use ycsb_lsm.Redis.{append_word, has_no_space, append_pairs, add_lengths, update_text}

-- The fields and the values, with a space before each.
abbrev pub pairs_text : List FieldPair → Bytes
pairs_text [] = []
pairs_text ((name, v) ∷ rest) = b' ' ∷ (name ++ (b' ' ∷ (v ++ pairs_text rest)))

-- No field name and no value has a space.
abbrev pub no_spaces : List FieldPair → Bool
no_spaces [] = true
no_spaces ((name, v) ∷ rest) = has_no_space name && (has_no_space v && no_spaces rest)

append_two :
    (cmd name v rest : Bytes)
    → append_word (append_word cmd name) v ++ rest ≡ cmd ++ (b' ' ∷ (name ++ (b' ' ∷ (v ++ rest))))
unfolding append_word
append_two cmd name v rest =
    append_assoc (cmd ++ (b' ' ∷ name)) (b' ' ∷ v) rest
    ∙ append_assoc cmd (b' ' ∷ name) (b' ' ∷ (v ++ rest))

append_pairs-eq :
    (values : List FieldPair) (cmd : Bytes)
    → append_pairs cmd values
      ≡ (if no_spaces values then ok (cmd ++ pairs_text values) else fault assertion)
unfolding append_pairs
append_pairs-eq [] cmd = ap ok (sym (append-nil cmd))
append_pairs-eq ((name, v) ∷ values) cmd = elim (Bool-cases (has_no_space name)) [
  | inr space ↦ rw (append_pairs, space) refl
  | inl plain ↦ elim (Bool-cases (has_no_space v)) [
    | inr space ↦ rw (append_pairs, plain, space) refl
    | inl plain_v ↦
        rw
          (
            append_pairs,
            plain,
            plain_v,
            append_pairs-eq values (append_word (append_word cmd name) v),
            append_two cmd name v (pairs_text values),
          )
          refl
  ]
]

add_lengths-eq :
    (values : List FieldPair) (len : ℕ) → add_lengths len values ≡ len + length (pairs_text values)
unfolding add_lengths
add_lengths-eq [] len = omega arith
add_lengths-eq ((name, v) ∷ values) len = omega (
  arith,
  add_lengths-eq values (len + (length name + length v + 2)),
  length-append {0} name (b' ' ∷ (v ++ pairs_text values)),
  length-append {0} v (pairs_text values),
)

-- The whole command.
abbrev pub hmset_text : Bytes → List FieldPair → Bytes
hmset_text key values = codes "HMSET" ++ (b' ' ∷ key) ++ pairs_text values

length-hmset_text :
    (key : Bytes) (values : List FieldPair)
    → length (hmset_text key values) ≡ add_lengths (5 + length key + 1) values
length-hmset_text key values = omega (
  arith,
  add_lengths-eq values (5 + length key + 1),
  length-append {0} (codes "HMSET" ++ (b' ' ∷ key)) (pairs_text values),
  length-append {0} (codes "HMSET") (b' ' ∷ key),
)

==-refl : (n : ℕ) → (n == n) ≡ true
==-refl n = ground arith

-- The command is the word `HMSET`, the key, and the fields with their values, with a space before each, and the assertion on
-- its length holds. A name or a value with a space fails an assertion.
pub update_text_lem :
    (key : Bytes) (values : List FieldPair)
    → update_text key values
      ≡ (if no_spaces values then ok (hmset_text key values) else fault assertion)
unfolding update_text append_word
update_text_lem key values = elim (Bool-cases (no_spaces values)) [
  | inr space ↦ rw (append_pairs-eq values (codes "HMSET" ++ (b' ' ∷ key)), space) refl
  | inl plain ↦
      let long : (length (hmset_text key values) == add_lengths (5 + length key + 1) values)
          ≡ true =
        rw (length-hmset_text key values) (==-refl _) in
      rw (append_pairs-eq values (codes "HMSET" ++ (b' ' ∷ key)), plain, long) refl
]
