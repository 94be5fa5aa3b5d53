-- ===== src/Redis.antt =====
-- redis/redis_client.h, db/redis_db.cc and db/redis_db.h: the database on a Redis server. The library
-- hiredis, with the server behind it, is a parameter. Lengths of strings in memory do not overflow.
pub mod Commands
pub mod Updates
pub mod Replies
pub mod Server
use ycsb_lsm.Base.{
  ℕ, ◌+◌, Bool, true, false, not, List, [], ◌∷◌, ◌++◌, Option, none, some, Bytes, codes, length,
  ◌==◌, if◌then◌else◌, Run, ok, fault, exit, exception, undefined, assertion, assert, ◌>>=◌, ◌>>◌,
}
use ycsb_lsm.Base.Int.{ℤ, is_zero}
use ycsb_lsm.Db.{k_ok, code, FieldPair, Db}
use ycsb_lsm.Hashtable.{c_str}

-- A reply: NULL, an array of texts and NULLs, or another type.
pub data Reply : Type 0 where
  no_reply other_reply : Reply
  array_reply : List (Option Bytes) → Reply

-- `redisContext` and the functions of hiredis that the code calls. A command of `append_command` is a
-- format: its arguments stand between spaces, and `%` starts a conversion.
pub record Hiredis : Type 1 where
  pub Context : Type 0
  pub append_command : Context → Bytes → Context
  pub append_wait : Context → ℤ → Context
  -- whether `redisGetReply` is not REDIS_ERR
  pub get_reply : Context → Bool × Context
  -- `redisCommandArgv`
  pub command_argv : Context → List Bytes → Reply × Context
  -- `redisCommand` of "HGETALL %s"
  pub command_hgetall : Context → Bytes → Reply × Context

-- `cmd.append(" ").append(word)`
unfoldable pub append_word : Bytes → Bytes → Bytes
append_word cmd word = cmd ++ (b' ' ∷ word)

-- `find(' ') == string::npos`
unfoldable pub has_no_space : Bytes → Bool
has_no_space [] = true
has_no_space (c ∷ s) = if c == b' ' then false else has_no_space s

-- The loop of `Update` that builds the command.
unfoldable pub append_pairs : Bytes → List FieldPair → Run Bytes
unfolding append_word has_no_space
append_pairs cmd [] = ok cmd
append_pairs cmd ((name, v) ∷ rest) = do
  assert (has_no_space name)
  let named = append_word cmd name
  assert (has_no_space v)
  append_pairs (append_word named v) rest

-- The loop that adds up the length.
unfoldable pub add_lengths : ℕ → List FieldPair → ℕ
add_lengths len [] = len
add_lengths len ((name, v) ∷ rest) = add_lengths (len + (length name + length v + 2)) rest

-- The command of `Update`.
unfoldable pub update_text : Bytes → List FieldPair → Run Bytes
unfolding append_word append_pairs add_lengths
update_text key values = do
  let cmd = codes "HMSET"
  let len = add_lengths (length cmd + length key + 1) values
  text ← append_pairs (append_word cmd key) values
  assert (length text == len)
  ok text

-- `string(value ? value : "")`
unfoldable pub value_or_empty : Option Bytes → Bytes
unfolding c_str
value_or_empty none = []
value_or_empty (some value) = c_str value

-- The loop of `Read` over the fields and the elements of the reply, which are as many.
unfoldable pub pair_up : List FieldPair → List Bytes → List (Option Bytes) → List FieldPair
unfolding value_or_empty
pair_up result (f ∷ fields) (e ∷ elements) =
    pair_up (result ++ (f, value_or_empty e) ∷ []) fields elements
pair_up result [] elements = result
pair_up result (f ∷ fields) [] = result

-- The loop of `Read` over the pairs of elements; a string of NULL is undefined.
unfoldable pub pair_elements : List FieldPair → List (Option Bytes) → Run (List FieldPair)
unfolding c_str
pair_elements result [] = ok result
pair_elements result (e ∷ []) = ok result
pair_elements result (some name ∷ some v ∷ rest) =
    pair_elements (result ++ (c_str name, c_str v) ∷ []) rest
pair_elements result (some name ∷ none ∷ rest) = fault undefined
pair_elements result (none ∷ e ∷ rest) = fault undefined

module _ (R : Hiredis) where
  -- `RedisClient`
  pub record RedisClient : Type 0 where
    pub context : R.Context
    pub slaves : ℤ

  -- The constructor; `none` is a context that is NULL or has an error.
  unfoldable pub redis_client_new : Option R.Context → ℤ → Run RedisClient
  redis_client_new none slaves = fault (exit 1)
  redis_client_new (some context) slaves = ok (record { context = context; slaves = slaves })

  -- `redisGetReply`, and `HandleError` if it fails
  unfoldable pub take_reply : R.Context → Run R.Context
  take_reply context =
      let (received, context') = R.get_reply context in
      if received then ok context' else fault (exit 2)

  -- `Command`, which returns 0
  unfoldable pub command : RedisClient → Bytes → Run RedisClient
  command client cmd = do
    let appended = R.append_command client.context (c_str cmd)
    if is_zero client.slaves
        then (do context ← take_reply appended; ok (record client { context = context }))
        else (do
          replied ← take_reply (R.append_wait appended client.slaves)
          context ← take_reply replied
          ok (record client { context = context }))

  -- `Read` with the reply to `HMGET`
  unfoldable pub read_fields : List Bytes → List FieldPair → Reply → Run (List FieldPair)
  unfolding pair_up
  read_fields fields result no_reply = ok result
  read_fields fields result other_reply = fault assertion
  read_fields fields result (array_reply elements) = do
    assert (length fields == length elements)
    ok (pair_up result fields elements)

  -- `Read` with the reply to `HGETALL`
  unfoldable pub read_all : List FieldPair → Reply → Run (List FieldPair)
  unfolding pair_elements
  read_all result no_reply = ok result
  read_all result other_reply = fault assertion
  read_all result (array_reply elements) = pair_elements result elements

  -- `Read`
  unfoldable pub read_redis :
      RedisClient
      → Bytes
      → Bytes
      → Option (List Bytes)
      → List FieldPair
      → Run ((ℤ × List FieldPair) × RedisClient)
  unfolding read_fields read_all c_str
  read_redis client table key (some fields) result = do
    let (reply, context) = R.command_argv client.context (codes "HMGET" ∷ key ∷ fields)
    result' ← read_fields fields result reply
    ok ((code k_ok, result'), record client { context = context })
  read_redis client table key none result = do
    let (reply, context) = R.command_hgetall client.context (c_str key)
    result' ← read_all result reply
    ok ((code k_ok, result'), record client { context = context })

  -- `Update`, and so `Insert`
  unfoldable pub update_redis : RedisClient → Bytes → Bytes → List FieldPair → Run (ℤ × RedisClient)
  unfolding update_text command
  update_redis client table key values = do
    text ← update_text key values
    client' ← command client text
    ok (code k_ok, client')

  -- `Delete`
  unfoldable pub delete_redis : RedisClient → Bytes → Bytes → Run (ℤ × RedisClient)
  unfolding command
  delete_redis client table key = do
    client' ← command client (codes "DEL " ++ key)
    ok (code k_ok, client')

  -- `RedisDB`; `Scan` throws a C string
  abbrev pub redis_db : Db
  redis_db = record {
    State = RedisClient;
    read = read_redis;
    scan = λ s table key len fields. fault (exception (codes "Scan: function not implemented!"));
    update = update_redis;
    insert = update_redis;
    delete = delete_redis;
  }
