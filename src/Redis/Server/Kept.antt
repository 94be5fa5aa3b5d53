-- ===== src/Redis/Server/Kept.antt =====
-- Updates, deletions and reads of db/redis_db.cc, one after the other, on a server that keeps the fields.
use ycsb_lsm.Base.{
  ◌≡◌, ◌≢◌, refl, ap, ◌∙◌, true, false, List, [], ◌∷◌, ◌++◌, Option, some, Bytes, codes, same,
  same_refl, ok, Returns, map,
}
use ycsb_lsm.Base.Int.{is_zero}
use ycsb_lsm.Db.{k_ok, code, FieldPair}
use ycsb_lsm.Redis.{
  Hiredis, RedisClient, value_or_empty, take_reply, command, read_redis, update_redis, delete_redis,
}
use ycsb_lsm.Redis.Commands.{hmset_text, update_text_lem}
use ycsb_lsm.Redis.Updates.{arguments-hmset_text, arguments-del_text, AreWords-no_spaces}
use ycsb_lsm.Redis.Replies.{read_redis_fields}
use ycsb_lsm.Redis.Server.{
  IsServer, IsLiteral, IsArgument, AreArguments, value_after, hmset_text-IsLiteral,
  value_or_empty-set_fields, zip_values-map, length-map, AreArguments-AreWords, c_str-literal,
  IsLiteral-append, IsLiteral-space, above_percent-IsLiteral, above_percent,
}

module _ (R : Hiredis) (S : IsServer R) where
  -- The fields with the values that the server keeps, an empty text where it keeps none.
  abbrev pub kept : R.Context → Bytes → List Bytes → List FieldPair
  kept c key = map (λ f. (f, value_or_empty (S.field_of c key f)))

  command-answered :
      (client : RedisClient R) (cmd : Bytes)
      → is_zero client.slaves ≡ true
      → IsLiteral cmd
      → (R.get_reply (R.append_command client.context cmd)).0 ≡ true
      → command R client cmd
        ≡ ok (record client { context = (R.get_reply (R.append_command client.context cmd)).1 })
  unfolding command take_reply
  command-answered client cmd alone plain got =
      rw (command, alone, c_str-literal cmd plain, got) refl

  -- Reading fields of a server that is ready returns what it keeps.
  read_redis-kept :
      (client : RedisClient R) (table key : Bytes) (fields : List Bytes)
      → S.IsReady client.context
      → fields ≢ []
      → Returns
          (read_redis R client table key (some fields) [])
          (λ r. r.0 ≡ (code k_ok, kept client.context key fields))
  read_redis-kept client table key fields ready some_field =
      let stored = S.field_of client.context key in
      let (answer, _, _) = S.hmget client.context key fields ready some_field in
      let (r, run, same_pairs) =
        (read_redis_fields R client table key fields [] (map stored fields) answer).0
          (length-map stored fields) in
      (r, run, same_pairs ∙ ap (λ l. (code k_ok, l)) (zip_values-map stored fields))

  -- `Update`, and so `Insert`, of some fields without the characters that the text of a command cannot hold, with
  -- no slaves to wait for and a server that is ready, returns `kOK`. Then `Read` returns the last value given
  -- for each field, and for the others what it returned before, and what the other keys keep is
  -- unchanged.
  pub read_redis-update_redis :
      (client : RedisClient R) (table key : Bytes) (values : List FieldPair) (fields : List Bytes)
      → S.IsReady client.context
      → is_zero client.slaves ≡ true
      → IsArgument key
      → AreArguments values
      → values ≢ []
      → fields ≢ []
      → Returns (update_redis R client table key values) (λ r.
        (r.0 ≡ code k_ok)
        × S.IsReady r.1.context
        × Returns (read_redis R r.1 table key (some fields) []) (λ q. q.0 ≡ (
          code k_ok,
          map
              (λ f. (f, value_after values f (value_or_empty (S.field_of client.context key f))))
              fields,
        ))
        × ((k : Bytes)
            → same k key ≡ false
            → kept r.1.context k fields ≡ kept client.context k fields))
  unfolding update_redis
  read_redis-update_redis client table key values fields ready alone (word, plain) h some_value
        some_field =
      let text = hmset_text key values in
      let literal = hmset_text-IsLiteral key values plain h in
      let words = AreArguments-AreWords values h in
      let (got, ready', keeps) =
        S.hmset client.context text key values ready literal some_value
          (arguments-hmset_text key values word words) in
      let after : RedisClient R = record client {
        context = (R.get_reply (R.append_command client.context text)).1;
      } in
      let (q, run, same_pairs) = read_redis-kept after table key fields ready' some_field in
      let new : (f : Bytes)
          → value_or_empty (S.field_of after.context key f)
            ≡ value_after values f (value_or_empty (S.field_of client.context key f)) =
        λ f.
          ap value_or_empty (keeps key f)
          ∙ rw (same_refl key)
              (value_or_empty-set_fields values f (S.field_of client.context key f) h) in
      (
        (code k_ok, after),
        rw
            (
              update_redis,
              update_text_lem key values,
              AreWords-no_spaces values words,
              command-answered client text alone literal got,
            )
            refl,
        (
          refl,
          ready',
          (
            q,
            run,
            same_pairs
                ∙ ap (λ (g : Bytes → Bytes). (code k_ok, map (λ f. (f, g f)) fields))
                    (λ i f. new f i),
          ),
          λ k other.
              let unchanged : (f : Bytes)
                  → S.field_of after.context k f ≡ S.field_of client.context k f =
                λ f. rw (keeps k f, other) refl in
              ap (λ (g : Bytes → Option Bytes). map (λ f. (f, value_or_empty (g f))) fields)
                (λ i f. unchanged f i),
        ),
      )

  -- `Delete` of a key without the characters that the text of a command cannot hold, with no slaves to wait for and
  -- a server that is ready, returns `kOK`, whether the key is there or not. Then `Read` returns an empty text for
  -- each field of the key, and what the other keys keep is unchanged.
  pub read_redis-delete_redis :
      (client : RedisClient R) (table key : Bytes) (fields : List Bytes)
      → S.IsReady client.context
      → is_zero client.slaves ≡ true
      → IsArgument key
      → fields ≢ []
      → Returns (delete_redis R client table key) (λ r.
        (r.0 ≡ code k_ok)
        × S.IsReady r.1.context
        × Returns
            (read_redis R r.1 table key (some fields) [])
            (λ q. q.0 ≡ (code k_ok, map (λ f. (f, [])) fields))
        × ((k : Bytes)
            → same k key ≡ false
            → kept r.1.context k fields ≡ kept client.context k fields))
  unfolding delete_redis value_or_empty
  read_redis-delete_redis client table key fields ready alone (word, plain) some_field =
      let text = codes "DEL" ++ (b' ' ∷ key) in
      let literal =
        IsLiteral-append (codes "DEL") (b' ' ∷ key)
          (above_percent-IsLiteral (codes "DEL") (unfold above_percent in refl))
          (IsLiteral-space key plain) in
      let (got, ready', keeps) =
        S.del client.context text key ready literal (arguments-del_text key word) in
      let after : RedisClient R = record client {
        context = (R.get_reply (R.append_command client.context text)).1;
      } in
      let (q, run, same_pairs) = read_redis-kept after table key fields ready' some_field in
      let gone : (f : Bytes) → value_or_empty (S.field_of after.context key f) ≡ [] =
        λ f. rw (keeps key f, same_refl key) refl in
      (
        (code k_ok, after),
        rw (delete_redis, command-answered client text alone literal got) refl,
        (
          refl,
          ready',
          (
            q,
            run,
            same_pairs
                ∙ ap (λ (g : Bytes → Bytes). (code k_ok, map (λ f. (f, g f)) fields))
                    (λ i f. gone f i),
          ),
          λ k other.
              let unchanged : (f : Bytes)
                  → S.field_of after.context k f ≡ S.field_of client.context k f =
                λ f. rw (keeps k f, other) refl in
              ap (λ (g : Bytes → Option Bytes). map (λ f. (f, value_or_empty (g f))) fields)
                (λ i f. unchanged f i),
        ),
      )
