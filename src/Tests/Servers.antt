-- ===== src/Tests/Servers.antt =====
-- The database of db/redis_db.cc on a server at concrete inputs.
use ycsb_lsm.Base.{
  ◌≡◌, refl, ap, true, false, List, [], ◌∷◌, Option, none, some, Bytes, codes, same, if◌then◌else◌,
  Returns, map,
}
use ycsb_lsm.Base.Int.{pos}
use ycsb_lsm.Db.{k_ok, code, FieldPair}
use ycsb_lsm.Redis.{
  Hiredis, Reply, array_reply, other_reply, RedisClient, has_no_space, value_or_empty, read_redis,
  update_redis,
}
use ycsb_lsm.Redis.Updates.{arguments, flatten}
use ycsb_lsm.Redis.Server.{
  IsServer, IsArgument, above_percent, above_percent-IsLiteral, set_fields, value_after,
}
use ycsb_lsm.Redis.Server.Kept.{kept, read_redis-update_redis}

record Served : Type 0 where
  stored : Bytes → Bytes → Option Bytes
  pending : Bytes

abbrev pairs_of : List Bytes → List FieldPair
pairs_of (name ∷ v ∷ rest) = (name, v) ∷ pairs_of rest
pairs_of (name ∷ []) = []
pairs_of [] = []

unfoldable execute : List Bytes → (Bytes → Bytes → Option Bytes) → Bytes → Bytes → Option Bytes
execute (cmd ∷ key ∷ rest) stored k f =
    if same cmd (codes "HMSET")
    then (if same k key then set_fields (pairs_of rest) f (stored k f) else stored k f)
    else (if same cmd (codes "DEL") then (if same k key then none else stored k f) else stored k f)
execute (cmd ∷ []) stored k f = stored k f
execute [] stored k f = stored k f

abbrev answer : Served → List Bytes → Reply
answer c (cmd ∷ key ∷ fields) =
    if same cmd (codes "HMGET") then array_reply (map (c.stored key) fields) else other_reply
answer c (cmd ∷ []) = other_reply
answer c [] = other_reply

-- A server that executes a command when its reply is taken.
abbrev serving : Hiredis
serving = record {
  Context = Served;
  append_command = λ c text. record c { pending = text };
  append_wait = λ c slaves. c;
  get_reply = λ c. (true, record { stored = execute (arguments c.pending) c.stored; pending = [] });
  command_argv = λ c args. (answer c args, c);
  command_hgetall = λ c key. (other_reply, c);
}

pairs_of-flatten : (values : List FieldPair) → pairs_of (flatten values) ≡ values
pairs_of-flatten [] = refl
pairs_of-flatten ((name, v) ∷ values) = ap (λ l. (name, v) ∷ l) (pairs_of-flatten values)

serving-IsServer : IsServer serving
unfolding execute same
serving-IsServer = record {
  IsReady = λ c. c.pending ≡ [];
  field_of = λ c. c.stored;
  hmset = λ c text key values ready plain some_value read.
      (refl, refl, λ k f. rw (read, pairs_of-flatten values) refl);
  hmget = λ c key fields ready some_field. (refl, ready, λ k f. refl);
  del = λ c text key ready plain read. (refl, refl, λ k f. rw read refl);
}

user-IsArgument : IsArgument (codes "user1")
unfolding has_no_space above_percent
user-IsArgument = ((refl, λ e. cc), above_percent-IsLiteral (codes "user1") refl)

field-IsArgument : IsArgument (codes "field0")
unfolding has_no_space above_percent
field-IsArgument = ((refl, λ e. cc), above_percent-IsLiteral (codes "field0") refl)

value-IsArgument : IsArgument (codes "abc")
unfolding has_no_space above_percent
value-IsArgument = ((refl, λ e. cc), above_percent-IsLiteral (codes "abc") refl)

abbrev alone : RedisClient serving
alone = record { context = record { stored = λ k f. none; pending = [] }; slaves = pos 0 }

abbrev two_fields : List Bytes
two_fields = codes "field0" ∷ codes "field1" ∷ []

read_redis-update_redis_example :
    Returns
      (update_redis serving alone (codes "t") (codes "user1") ((codes "field0", codes "abc") ∷ []))
      (λ r.
        (r.0 ≡ code k_ok)
        × (r.1.context.pending ≡ [])
        × Returns (read_redis serving r.1 (codes "t") (codes "user1") (some two_fields) []) (λ q.
          q.0 ≡ (
            code k_ok,
            map
                (λ f. (f, value_after ((codes "field0", codes "abc") ∷ []) f (value_or_empty none)))
                two_fields,
          ))
        × ((k : Bytes)
            → same k (codes "user1") ≡ false
            → kept serving serving-IsServer r.1.context k two_fields
              ≡ kept serving serving-IsServer alone.context k two_fields))
unfolding serving-IsServer
read_redis-update_redis_example =
    read_redis-update_redis serving serving-IsServer alone (codes "t") (codes "user1")
      ((codes "field0", codes "abc") ∷ []) two_fields refl refl user-IsArgument
      (field-IsArgument, value-IsArgument, tt) (λ e. cc) (λ e. cc)
