-- ===== src/Redis/Updates.antt =====
-- What an update sends to the server: the command that hiredis reads in the text.
use mathlib.Core.List.{append_assoc, append-nil}
use ycsb_lsm.Base.{
  ℕ, ◌≡◌, refl, sym, ap, ◌∙◌, ◌≢◌, true, false, List, [], ◌∷◌, ◌++◌, Bytes, codes, ◌==◌,
  if◌then◌else◌, Returns, arith,
}
use ycsb_lsm.Db.{FieldPair}
use ycsb_lsm.Redis.{has_no_space, update_text}
use ycsb_lsm.Redis.Commands.{pairs_text, no_spaces, hmset_text, update_text_lem}

abbrev emit : Bytes → List Bytes → List Bytes
emit [] words = words
emit (c ∷ word) words = (c ∷ word) ∷ words

unfoldable words_from : Bytes → Bytes → List Bytes
words_from word [] = emit word []
words_from word (c ∷ s) =
    let rest = words_from [] s in
    let longer = words_from (word ++ c ∷ []) s in if c == b' ' then emit word rest else longer

-- The arguments that hiredis takes from a format without `%`: the words between the spaces. Two spaces
-- one after the other have no argument between them.
unfoldable pub arguments : Bytes → List Bytes
unfolding words_from
arguments text = words_from [] text

has_no_space-cons :
    (c : ℕ) (s : Bytes)
    → has_no_space (c ∷ s) ≡ true
    → ((c == b' ') ≡ false) × (has_no_space s ≡ true)
unfolding has_no_space
has_no_space-cons c s h = ground arith

words_from-space :
    (s word rest : Bytes)
    → has_no_space s ≡ true
    → words_from word (s ++ (b' ' ∷ rest)) ≡ emit (word ++ s) (words_from [] rest)
unfolding words_from
words_from-space [] word rest h = ap (λ w. emit w (words_from [] rest)) (sym (append-nil word))
words_from-space (c ∷ s) word rest h =
    let (other, plain) = has_no_space-cons c s h in
    rw (words_from, other)
      (words_from-space s (word ++ c ∷ []) rest plain
        ∙ ap (λ w. emit w (words_from [] rest)) (append_assoc word (c ∷ []) s))

words_from-end : (s word : Bytes) → has_no_space s ≡ true → words_from word s ≡ emit (word ++ s) []
unfolding words_from
words_from-end [] word h = ap (λ w. emit w []) (sym (append-nil word))
words_from-end (c ∷ s) word h =
    let (other, plain) = has_no_space-cons c s h in
    rw (words_from, other)
      (words_from-end s (word ++ c ∷ []) plain ∙ ap (λ w. emit w []) (append_assoc word (c ∷ []) s))

-- A word that is an argument as it stands.
abbrev pub IsWord : Bytes → Type 0
IsWord s = (has_no_space s ≡ true) × (s ≢ [])

abbrev pub AreWords : List FieldPair → Type 0
AreWords [] = Unit
AreWords ((name, v) ∷ rest) = IsWord name × IsWord v × AreWords rest

-- The names and the values, in turn.
abbrev pub flatten : List FieldPair → List Bytes
flatten [] = []
flatten ((name, v) ∷ rest) = name ∷ v ∷ flatten rest

emit-word : (word : Bytes) (words : List Bytes) → word ≢ [] → emit word words ≡ word ∷ words
emit-word [] words h = absurd (h refl)
emit-word (c ∷ word) words h = refl

words_from-pairs :
    (values : List FieldPair) (s : Bytes)
    → IsWord s
    → AreWords values
    → words_from [] (s ++ pairs_text values) ≡ s ∷ flatten values
words_from-pairs [] s (plain, filled) h =
    ap (words_from []) (append-nil s) ∙ words_from-end s [] plain ∙ emit-word s [] filled
words_from-pairs ((name, v) ∷ values) s (plain, filled) ((plain_name, filled_name), word, h) =
    let rest = v ++ pairs_text values in
    words_from-space s [] (name ++ (b' ' ∷ rest)) plain
    ∙ emit-word s (words_from [] (name ++ (b' ' ∷ rest))) filled
    ∙ ap (λ l. s ∷ l)
        (words_from-space name [] rest plain_name
          ∙ emit-word name (words_from [] rest) filled_name
          ∙ ap (λ l. name ∷ l) (words_from-pairs values v word h))

-- If the key, the names and the values are not empty and have no space, the server is sent the arguments
-- HMSET, the key, and the names and the values in turn.
pub arguments-hmset_text :
    (key : Bytes) (values : List FieldPair)
    → IsWord key
    → AreWords values
    → arguments (hmset_text key values) ≡ codes "HMSET" ∷ key ∷ flatten values
unfolding arguments
arguments-hmset_text key values word h =
    ap (words_from []) (append_assoc (codes "HMSET") (b' ' ∷ key) (pairs_text values))
    ∙ words_from-space (codes "HMSET") [] (key ++ pairs_text values) (unfold has_no_space in refl)
    ∙ ap (λ l. codes "HMSET" ∷ l) (words_from-pairs values key word h)

-- If the key is not empty and has no space, `Delete` sends the server the arguments DEL and the key.
pub arguments-del_text :
    (key : Bytes) → IsWord key → arguments (codes "DEL" ++ (b' ' ∷ key)) ≡ codes "DEL" ∷ key ∷ []
unfolding arguments
arguments-del_text key (plain, filled) =
    words_from-space (codes "DEL") [] key (unfold has_no_space in refl)
    ∙ ap (λ l. codes "DEL" ∷ l) (words_from-end key [] plain ∙ emit-word key [] filled)

pub AreWords-no_spaces : (values : List FieldPair) → AreWords values → no_spaces values ≡ true
AreWords-no_spaces [] h = refl
AreWords-no_spaces ((name, v) ∷ values) ((plain, _), (plain_v, _), h) =
    rw (plain, plain_v) (AreWords-no_spaces values h)

-- If the key, the names and the values are not empty and have no space, `Update` builds a text with the
-- arguments HMSET, the key, and the names and the values in turn.
pub update_text-arguments :
    (key : Bytes) (values : List FieldPair)
    → IsWord key
    → AreWords values
    → Returns
        (update_text key values)
        (λ text. arguments text ≡ codes "HMSET" ∷ key ∷ flatten values)
update_text-arguments key values word h = (
  hmset_text key values,
  update_text_lem key values ∙ rw (AreWords-no_spaces values h) refl,
  arguments-hmset_text key values word h,
)
