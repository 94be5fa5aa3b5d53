-- ===== src/Redis/Replies.antt =====
-- What the operations return for the replies of the server.
use mathlib.Core.List.{append_assoc, append-nil}
use ycsb_lsm.Base.{
  ◌≡◌, ◌≢◌, refl, sym, ap, ◌∙◌, ◌⊎◌, inl, inr, true, false, List, [], ◌∷◌, ◌++◌, Option, some,
  Bytes, codes, length, ◌==◌, Bool-cases, Returns, ok, fault, assertion, exit, arith,
}
use ycsb_lsm.Base.Int.{is_zero}
use ycsb_lsm.Db.{k_ok, code, FieldPair}
use ycsb_lsm.Redis.{
  Hiredis, array_reply, RedisClient, value_or_empty, pair_up, read_redis, take_reply, command,
  update_redis, read_fields,
}
use ycsb_lsm.Hashtable.{c_str}
use ycsb_lsm.Redis.Commands.{no_spaces, hmset_text, update_text_lem}

-- The fields with their values, an empty text for NULL.
abbrev pub zip_values : List Bytes → List (Option Bytes) → List FieldPair
zip_values (f ∷ fields) (e ∷ elements) = (f, value_or_empty e) ∷ zip_values fields elements
zip_values [] elements = []
zip_values (f ∷ fields) [] = []

pair_up-eq :
    (fields : List Bytes) (elements : List (Option Bytes)) (result : List FieldPair)
    → pair_up result fields elements ≡ result ++ zip_values fields elements
unfolding pair_up
pair_up-eq (f ∷ fields) (e ∷ elements) result =
    pair_up-eq fields elements (result ++ (f, value_or_empty e) ∷ [])
    ∙ append_assoc result ((f, value_or_empty e) ∷ []) (zip_values fields elements)
pair_up-eq [] elements result = sym (append-nil result)
pair_up-eq (f ∷ fields) [] result = sym (append-nil result)

module _ (R : Hiredis) where
  abbrev hmget : Bytes → List Bytes → List Bytes
  hmget key fields = codes "HMGET" ∷ key ∷ fields

  -- `Read` of fields, when the server replies with an array, appends each field with its value to the result,
  -- with an empty text where the server has none, and returns `kOK` even if it has none at all. An
  -- array of another length fails an assertion.
  pub read_redis_fields :
      (client : RedisClient R) (table key : Bytes) (fields : List Bytes) (result : List FieldPair)
      (elements : List (Option Bytes))
      → (R.command_argv client.context (hmget key fields)).0 ≡ array_reply elements
      → (length fields ≡ length elements
          → Returns
              (read_redis R client table key (some fields) result)
              (λ r. r.0 ≡ (code k_ok, result ++ zip_values fields elements)))
        × (length fields ≢ length elements
            → read_redis R client table key (some fields) result ≡ fault assertion)
  unfolding read_redis read_fields
  read_redis_fields client table key fields result elements replied = (
    λ same_length.
        let equal : (length fields == length elements) ≡ true = ground (arith, same_length) in
        (
          (
            (code k_ok, pair_up result fields elements),
            record client { context = (R.command_argv client.context (hmget key fields)).1 },
          ),
          rw (read_redis, replied, equal) refl,
          ap (λ l. (code k_ok, l)) (pair_up-eq fields elements result),
        ),
    λ other.
        let differ : (length fields == length elements) ≡ false = ground (arith, other) in
        rw (read_redis, replied, differ) refl,
  )

  take_reply-cases :
      (context : R.Context)
      → (take_reply R context ≡ fault (exit 2))
        ⊎ ((context' : R.Context) × (take_reply R context ≡ ok context'))
  unfolding take_reply
  take_reply-cases context = elim (Bool-cases (R.get_reply context).0) [
    | inl received ↦ inr ((R.get_reply context).1, rw (take_reply, received) refl)
    | inr lost ↦ inl (rw (take_reply, lost) refl)
  ]

  command-cases :
      (client : RedisClient R) (cmd : Bytes)
      → (command R client cmd ≡ fault (exit 2))
        ⊎ Returns (command R client cmd) (λ after. after.slaves ≡ client.slaves)
  unfolding command
  command-cases client cmd = elim (Bool-cases (is_zero client.slaves)) [
    | inl alone ↦ elim (take_reply-cases appended) [
      | inl lost ↦ inl (rw (command, alone, lost) refl)
      | inr (context, got) ↦
          inr (record client { context = context }, rw (command, alone, got) refl, refl)
    ]
    | inr slaves ↦ elim (take_reply-cases (R.append_wait appended client.slaves)) [
      | inl lost ↦ inl (rw (command, slaves, lost) refl)
      | inr (replied, got) ↦ elim (take_reply-cases replied) [
        | inl lost ↦ inl (rw (command, slaves, got, lost) refl)
        | inr (context, waited) ↦
            inr (record client { context = context }, rw (command, slaves, got, waited) refl, refl)
      ]
    ]
  ]
    where
      appended : R.Context
      appended = R.append_command client.context (c_str cmd)

  -- `Update`, and so `Insert`, with a space in a name or a value fails an assertion. Otherwise it sends the command
  -- and returns `kOK`, or the server's reply cannot be read and the program ends.
  pub update_redis_lem :
      (client : RedisClient R) (table key : Bytes) (values : List FieldPair)
      → (no_spaces values ≡ false → update_redis R client table key values ≡ fault assertion)
        × (no_spaces values ≡ true
            → (update_redis R client table key values ≡ fault (exit 2))
              ⊎ Returns (update_redis R client table key values) (λ r.
                (command R client (hmset_text key values) ≡ ok r.1)
                × (r.0 ≡ code k_ok)
                × (r.1.slaves ≡ client.slaves)))
  unfolding update_redis
  update_redis_lem client table key values = (
    λ spaces. rw (update_text_lem key values, spaces) refl,
    λ plain. elim (command-cases client (hmset_text key values)) [
      | inl lost ↦ inl (rw (update_text_lem key values, plain, lost) refl)
      | inr (after, sent, kept) ↦ inr (
        (code k_ok, after),
        rw (update_text_lem key values, plain, sent) refl,
        (sent, refl, kept),
      )
    ],
  )
