-- ===== src/Dispatch/Arity.antt =====
-- The tables of src/commands.cpp that `Dispatch` consults before it runs a command: the arity table and
-- the write commands.
use cpp_inference_engine.Base.{
  ℕ, ◌≡◌, refl, Bool, true, false, ◌&&◌, ◌||◌, Option, none, some, List, [], ◌∷◌, ◌++◌, String,
  Bytes, codes, leb, str_eq, if◌then◌else◌,
}

-- `max` is none where the table has a negative number.
pub record Arity : Type 0 where
  pub min : ℕ
  pub max : Option ℕ

row : String → ℕ → Option ℕ → Bytes × Arity
row name min max = (codes name, record { min = min; max = max })

first_rows : List (Bytes × Arity)
unfolding row
first_rows =
    row "PING" 1 (some 2)
    ∷ row "ECHO" 2 (some 2)
    ∷ row "SELECT" 2 (some 2)
    ∷ row "AUTH" 2 (some 2)
    ∷ row "QUIT" 1 (some 1)
    ∷ row "HELLO" 1 none
    ∷ row "COMMAND" 1 (some 2)
    ∷ row "INFO" 1 (some 2)
    ∷ row "DBSIZE" 1 (some 1)
    ∷ row "FLUSHDB" 1 (some 2)
    ∷ row "FLUSHALL" 1 (some 2)
    ∷ row "SAVE" 1 (some 1)
    ∷ row "BGSAVE" 1 (some 1)
    ∷ row "LASTSAVE" 1 (some 1)
    ∷ row "BGREWRITEAOF" 1 (some 1)
    ∷ row "WAIT" 3 (some 3)
    ∷ row "TIME" 1 (some 1)
    ∷ row "ROLE" 1 (some 1)
    ∷ row "SHUTDOWN" 1 (some 2)
    ∷ row "CONFIG" 3 (some 3)
    ∷ row "CLIENT" 2 none
    ∷ row "MEMORY" 3 (some 3)
    ∷ row "GET" 2 (some 2)
    ∷ row "SET" 3 none
    ∷ row "SETNX" 3 (some 3)
    ∷ row "SETEX" 4 (some 4)
    ∷ row "PSETEX" 4 (some 4)
    ∷ row "GETSET" 3 (some 3)
    ∷ row "GETDEL" 2 (some 2)
    ∷ row "GETRANGE" 4 (some 4)
    ∷ row "SETRANGE" 4 (some 4)
    ∷ row "STRLEN" 2 (some 2)
    ∷ row "APPEND" 3 (some 3)
    ∷ row "INCR" 2 (some 2)
    ∷ row "DECR" 2 (some 2)
    ∷ row "INCRBY" 3 (some 3)
    ∷ row "DECRBY" 3 (some 3)
    ∷ row "INCRBYFLOAT" 3 (some 3)
    ∷ row "MGET" 2 none
    ∷ row "MSET" 3 none
    ∷ []

middle_rows : List (Bytes × Arity)
unfolding row
middle_rows =
    row "MSETNX" 3 none
    ∷ row "DEL" 2 none
    ∷ row "UNLINK" 2 none
    ∷ row "EXISTS" 2 none
    ∷ row "KEYS" 2 (some 2)
    ∷ row "RANDOMKEY" 1 (some 1)
    ∷ row "TYPE" 2 (some 2)
    ∷ row "RENAME" 3 (some 3)
    ∷ row "EXPIRE" 3 (some 3)
    ∷ row "PEXPIRE" 3 (some 3)
    ∷ row "EXPIREAT" 3 (some 3)
    ∷ row "PEXPIREAT" 3 (some 3)
    ∷ row "TTL" 2 (some 2)
    ∷ row "PTTL" 2 (some 2)
    ∷ row "PERSIST" 2 (some 2)
    ∷ row "SCAN" 2 none
    ∷ row "HSET" 4 none
    ∷ row "HMSET" 4 none
    ∷ row "HGET" 3 (some 3)
    ∷ row "HMGET" 3 none
    ∷ row "HGETALL" 2 (some 2)
    ∷ row "HDEL" 3 none
    ∷ row "HEXISTS" 3 (some 3)
    ∷ row "HLEN" 2 (some 2)
    ∷ row "HKEYS" 2 (some 2)
    ∷ row "HVALS" 2 (some 2)
    ∷ row "HSETNX" 4 (some 4)
    ∷ row "HINCRBY" 4 (some 4)
    ∷ row "HINCRBYFLOAT" 4 (some 4)
    ∷ row "HSTRLEN" 3 (some 3)
    ∷ row "LPUSH" 3 none
    ∷ row "RPUSH" 3 none
    ∷ row "LPOP" 2 (some 3)
    ∷ row "RPOP" 2 (some 3)
    ∷ row "LLEN" 2 (some 2)
    ∷ row "LRANGE" 4 (some 4)
    ∷ row "LINDEX" 3 (some 3)
    ∷ row "LSET" 4 (some 4)
    ∷ row "LREM" 4 (some 4)
    ∷ row "LINSERT" 5 (some 5)
    ∷ []

last_rows : List (Bytes × Arity)
unfolding row
last_rows =
    row "LTRIM" 4 (some 4)
    ∷ row "LMOVE" 5 (some 5)
    ∷ row "RPOPLPUSH" 3 (some 3)
    ∷ row "SADD" 3 none
    ∷ row "SREM" 3 none
    ∷ row "SMEMBERS" 2 (some 2)
    ∷ row "SISMEMBER" 3 (some 3)
    ∷ row "SCARD" 2 (some 2)
    ∷ row "SPOP" 2 (some 3)
    ∷ row "SRANDMEMBER" 2 (some 3)
    ∷ row "SMOVE" 4 (some 4)
    ∷ row "SINTER" 2 none
    ∷ row "SUNION" 2 none
    ∷ row "SDIFF" 2 none
    ∷ row "SINTERSTORE" 3 none
    ∷ row "SUNIONSTORE" 3 none
    ∷ row "SDIFFSTORE" 3 none
    ∷ row "ZADD" 4 none
    ∷ row "ZSCORE" 3 (some 3)
    ∷ row "ZCARD" 2 (some 2)
    ∷ row "ZRANGE" 3 none
    ∷ row "ZREVRANGE" 4 none
    ∷ row "ZRANGEBYSCORE" 4 none
    ∷ row "ZREVRANGEBYSCORE" 4 none
    ∷ row "ZRANK" 3 (some 3)
    ∷ row "ZREVRANK" 3 (some 3)
    ∷ row "ZCOUNT" 4 (some 4)
    ∷ row "ZREM" 3 none
    ∷ row "ZINCRBY" 4 (some 4)
    ∷ row "ZPOPMIN" 2 (some 3)
    ∷ row "ZPOPMAX" 2 (some 3)
    ∷ row "ZREMRANGEBYRANK" 4 (some 4)
    ∷ row "ZREMRANGEBYSCORE" 4 (some 4)
    ∷ row "MULTI" 1 (some 1)
    ∷ row "EXEC" 1 (some 1)
    ∷ row "DISCARD" 1 (some 1)
    ∷ []

-- `ArityTable`
unfoldable pub arity_table : List (Bytes × Arity)
unfolding first_rows middle_rows last_rows
arity_table = first_rows ++ (middle_rows ++ last_rows)

unfoldable pub arity_of : Bytes → List (Bytes × Arity) → Option Arity
arity_of name [] = none
arity_of name ((n, a) ∷ rows) = if str_eq n name then some a else arity_of name rows

-- `CommandExists`
unfoldable pub command_exists : Bytes → Bool
unfolding arity_of arity_table
command_exists upper = elim (arity_of upper arity_table) [ none ↦ false | some a ↦ true ]

at_most : ℕ → Option ℕ → Bool
at_most argc none = true
at_most argc (some max) = leb argc max

-- `ArityOk`
unfoldable pub arity_ok : Bytes → ℕ → Bool
unfolding arity_of arity_table at_most
arity_ok upper argc = elim (arity_of upper arity_table) [
  | none ↦ false
  | some a ↦ leb a.min argc && at_most argc a.max
]

is_one_of : Bytes → List String → Bool
is_one_of name [] = false
is_one_of name (w ∷ ws) = str_eq (codes w) name || is_one_of name ws

-- `IsWriteCommand`
unfoldable pub is_write_command : Bytes → Bool
unfolding is_one_of
is_write_command upper = is_one_of upper (
    "SET" ∷ "SETNX" ∷ "SETEX" ∷ "PSETEX" ∷ "GETSET" ∷ "SETRANGE" ∷ "APPEND" ∷ "INCR" ∷ "DECR"
    ∷ "INCRBY" ∷ "DECRBY" ∷ "INCRBYFLOAT" ∷ "MSET" ∷ "MSETNX" ∷ "DEL" ∷ "UNLINK" ∷ "RENAME"
    ∷ "EXPIRE" ∷ "PEXPIRE" ∷ "EXPIREAT" ∷ "PEXPIREAT" ∷ "PERSIST" ∷ "GETDEL" ∷ "HSET" ∷ "HMSET"
    ∷ "HDEL" ∷ "HSETNX" ∷ "HINCRBY" ∷ "HINCRBYFLOAT" ∷ "LPUSH" ∷ "RPUSH" ∷ "LPOP" ∷ "RPOP" ∷ "LSET"
    ∷ "LREM" ∷ "LINSERT" ∷ "LTRIM" ∷ "LMOVE" ∷ "RPOPLPUSH" ∷ "SADD" ∷ "SREM" ∷ "SPOP" ∷ "SMOVE"
    ∷ "SINTERSTORE" ∷ "SUNIONSTORE" ∷ "SDIFFSTORE" ∷ "ZADD" ∷ "ZREM" ∷ "ZINCRBY" ∷ "ZPOPMIN"
    ∷ "ZPOPMAX" ∷ "ZREMRANGEBYRANK" ∷ "ZREMRANGEBYSCORE" ∷ "FLUSHDB" ∷ "FLUSHALL" ∷ [])

-- A command without arguments that is no write command.
abbrev pub IsPlain : Bytes → Type 0
IsPlain upper =
    (command_exists upper ≡ true) × (arity_ok upper 1 ≡ true) × (is_write_command upper ≡ false)

pub multi-IsPlain : IsPlain (codes "MULTI")
unfolding command_exists arity_ok is_write_command str_eq
multi-IsPlain = (refl, refl, refl)

pub exec-IsPlain : IsPlain (codes "EXEC")
unfolding command_exists arity_ok is_write_command str_eq
exec-IsPlain = (refl, refl, refl)
