-- ===== src/Redis/Server.antt =====
-- The operations of db/redis_db.cc against a server that keeps the fields of each key.
pub mod Kept
use ycsb_lsm.Base.{
  suc, if◌then◌else◌, ◌≡◌, ◌≢◌, refl, ap, ◌∙◌, Bool, true, List, [], ◌∷◌, ◌++◌, Option, none, some,
  Bytes, codes, length, same, Bool-cases, inl, inr, ltb, ◌&&◌, arith, All, All-append, map,
}
use ycsb_lsm.Db.{FieldPair}
use ycsb_lsm.Hashtable.{c_str}
use ycsb_lsm.Redis.{Hiredis, array_reply, value_or_empty}
use ycsb_lsm.Redis.Commands.{pairs_text, hmset_text}
use ycsb_lsm.Redis.Updates.{arguments, IsWord, AreWords, flatten}
use ycsb_lsm.Redis.Replies.{zip_values}

-- Text that hiredis sends as it stands: no NUL ends it and no `%` starts a conversion.
abbrev pub IsLiteral : Bytes → Type 0
IsLiteral s = All (λ c. (c ≢ 0) × (c ≢ b'%')) s

-- What the server keeps of one field, from what it kept before, after the fields are set in turn.
unfoldable pub set_fields : List FieldPair → Bytes → Option Bytes → Option Bytes
set_fields [] f old = old
set_fields ((name, v) ∷ rest) f old = set_fields rest f (if same f name then some v else old)

-- The same, where an empty text stands for no field.
unfoldable pub value_after : List FieldPair → Bytes → Bytes → Bytes
value_after [] f old = old
value_after ((name, v) ∷ rest) f old = value_after rest f (if same f name then v else old)

-- The documented behaviour of HMSET, HMGET and DEL on keys that hold hashes.
pub record IsServer (R : Hiredis) : Type 1 where
  -- the server answers, no reply is outstanding, and what the keys hold are hashes
  pub IsReady : R.Context → Type 0
  pub field_of : R.Context → Bytes → Bytes → Option Bytes
  pub hmset :
      (c : R.Context) (text key : Bytes) (values : List FieldPair)
      → IsReady c
      → IsLiteral text
      → values ≢ []
      → arguments text ≡ codes "HMSET" ∷ key ∷ flatten values
      → let reply = R.get_reply (R.append_command c text) in
        (reply.0 ≡ true)
        × IsReady reply.1
        × ((k f : Bytes)
            → field_of reply.1 k f
              ≡ (if same k key then set_fields values f (field_of c k f) else field_of c k f))
  pub hmget :
      (c : R.Context) (key : Bytes) (fields : List Bytes)
      → IsReady c
      → fields ≢ []
      → let reply = R.command_argv c (codes "HMGET" ∷ key ∷ fields) in
        (reply.0 ≡ array_reply (map (field_of c key) fields))
        × IsReady reply.1
        × ((k f : Bytes) → field_of reply.1 k f ≡ field_of c k f)
  pub del :
      (c : R.Context) (text key : Bytes)
      → IsReady c
      → IsLiteral text
      → arguments text ≡ codes "DEL" ∷ key ∷ []
      → let reply = R.get_reply (R.append_command c text) in
        (reply.0 ≡ true)
        × IsReady reply.1
        × ((k f : Bytes) → field_of reply.1 k f ≡ (if same k key then none else field_of c k f))

-- Text that is an argument as it stands.
abbrev pub IsArgument : Bytes → Type 0
IsArgument s = IsWord s × IsLiteral s

abbrev pub AreArguments : List FieldPair → Type 0
AreArguments [] = Unit
AreArguments ((name, v) ∷ rest) = IsArgument name × IsArgument v × AreArguments rest

pub c_str-literal : (s : Bytes) → IsLiteral s → c_str s ≡ s
unfolding c_str
c_str-literal [] h = refl
c_str-literal (c ∷ s) ((filled, _), h) = ground (arith, c_str-literal s h, filled)

pub AreArguments-AreWords : (values : List FieldPair) → AreArguments values → AreWords values
AreArguments-AreWords [] h = tt
AreArguments-AreWords ((name, v) ∷ values) ((word, _), (word_v, _), h) =
    (word, word_v, AreArguments-AreWords values h)

pub IsLiteral-append : (s t : Bytes) → IsLiteral s → IsLiteral t → IsLiteral (s ++ t)
IsLiteral-append = All-append (λ c. (c ≢ 0) × (c ≢ b'%'))

pub IsLiteral-space : (s : Bytes) → IsLiteral s → IsLiteral (b' ' ∷ s)
IsLiteral-space s h = ((λ e. omega arith, λ e. omega arith), h)

pairs_text-IsLiteral :
    (values : List FieldPair) → AreArguments values → IsLiteral (pairs_text values)
pairs_text-IsLiteral [] h = tt
pairs_text-IsLiteral ((name, v) ∷ values) ((_, plain), (_, plain_v), h) =
    let rest = IsLiteral-append v (pairs_text values) plain_v (pairs_text-IsLiteral values h) in
    IsLiteral-space (name ++ (b' ' ∷ (v ++ pairs_text values))) (
      IsLiteral-append name (b' ' ∷ (v ++ pairs_text values)) plain
        (IsLiteral-space (v ++ pairs_text values) rest))

-- Letters and digits come after `%` in ASCII.
unfoldable pub above_percent : Bytes → Bool
above_percent [] = true
above_percent (c ∷ s) = ltb b'%' c && above_percent s

-- Text of characters after `%` is sent as it stands.
pub above_percent-IsLiteral : (s : Bytes) → above_percent s ≡ true → IsLiteral s
unfolding above_percent
above_percent-IsLiteral [] h = tt
above_percent-IsLiteral (c ∷ s) h = elim (Bool-cases (ltb b'%' c)) [
  | inl above ↦
      ((λ e. ground arith, λ e. ground arith), above_percent-IsLiteral s (ground (arith, h, above)))
  | inr below ↦ absurd (ground (arith, h, below))
]

pub hmset_text-IsLiteral :
    (key : Bytes) (values : List FieldPair)
    → IsLiteral key
    → AreArguments values
    → IsLiteral (hmset_text key values)
hmset_text-IsLiteral key values plain h =
    IsLiteral-append (codes "HMSET" ++ (b' ' ∷ key)) (pairs_text values)
      (IsLiteral-append (codes "HMSET") (b' ' ∷ key)
        (above_percent-IsLiteral (codes "HMSET") (unfold above_percent in refl))
        (IsLiteral-space key plain))
      (pairs_text-IsLiteral values h)

pub value_or_empty-set_fields :
    (values : List FieldPair) (f : Bytes) (old : Option Bytes)
    → AreArguments values
    → value_or_empty (set_fields values f old) ≡ value_after values f (value_or_empty old)
unfolding set_fields value_after value_or_empty
value_or_empty-set_fields [] f old h = refl
value_or_empty-set_fields ((name, v) ∷ values) f old (_, (_, plain), h) =
    elim (Bool-cases (same f name)) [
      | inl named ↦
          rw (set_fields, value_after, named)
            (value_or_empty-set_fields values f (some v) h
              ∙ ap (value_after values f) (c_str-literal v plain))
      | inr other ↦ rw (set_fields, value_after, other) (value_or_empty-set_fields values f old h)
    ]

pub zip_values-map :
    (stored : Bytes → Option Bytes) (fields : List Bytes)
    → zip_values fields (map stored fields) ≡ map (λ f. (f, value_or_empty (stored f))) fields
zip_values-map stored [] = refl
zip_values-map stored (f ∷ fields) =
    ap (λ l. (f, value_or_empty (stored f)) ∷ l) (zip_values-map stored fields)

pub length-map :
    (stored : Bytes → Option Bytes) (fields : List Bytes)
    → length fields ≡ length (map stored fields)
length-map stored [] = refl
length-map stored (f ∷ fields) = ap suc (length-map stored fields)
