-- ===== src/Commands/Handle.antt =====
-- The chain of branches in `Dispatch` of src/commands.cpp, but for MULTI, EXEC and DISCARD: what each
-- command calls.
pub mod Complete
use cpp_inference_engine.Base.{
  ℕ, ◌≡◌, refl, Bool, true, false, ◌||◌, Option, none, some, List, [], ◌∷◌, ◌++◌, String, Bytes,
  codes, map, str_eq, if◌then◌else◌,
}
use cpp_inference_engine.Base.Int.{ℤ, pos}
use cpp_inference_engine.Dispatch.{ServerOptions, Server, Handler, reply, err_unknown_command}
use cpp_inference_engine.Commands.State.{
  Env, Args, Action, say_simple, say_error, say_int, say_empty_array,
}
use cpp_inference_engine.Commands.Admin.{
  cmd_ping, cmd_echo, cmd_select, cmd_auth, cmd_quit, cmd_hello, cmd_dbsize, cmd_flushdb,
  cmd_flushall, cmd_time, cmd_role, cmd_shutdown, cmd_config, cmd_client, cmd_memory,
}
use cpp_inference_engine.Commands.Info.{cmd_info}
use cpp_inference_engine.Commands.Set.{cmd_set}
use cpp_inference_engine.Commands.Strings.{
  cmd_get, cmd_setnx, cmd_setex, cmd_getset, cmd_getdel, cmd_getrange, cmd_setrange, cmd_strlen,
  cmd_append, cmd_mget, cmd_mset,
}
use cpp_inference_engine.Commands.Numbers.{
  cmd_incr, cmd_decr, cmd_incrby, cmd_decrby, cmd_incrbyfloat,
}
use cpp_inference_engine.Commands.Keys.{
  cmd_del, cmd_exists, cmd_type, cmd_expire, cmd_ttl, cmd_persist, cmd_rename, cmd_keys, cmd_scan,
  cmd_randomkey,
}
use cpp_inference_engine.Commands.Hashes.{
  cmd_hset, cmd_hget, cmd_hmget, cmd_hgetall, cmd_hkeys, cmd_hvals, cmd_hdel, cmd_hexists, cmd_hlen,
  cmd_hsetnx, cmd_hstrlen, cmd_hincrby, cmd_hincrbyfloat,
}
use cpp_inference_engine.Commands.Lists.{
  cmd_push, cmd_pop, cmd_llen, cmd_lrange, cmd_lindex, cmd_lset, cmd_ltrim,
}
use cpp_inference_engine.Commands.ListEdits.{cmd_lrem, cmd_linsert, cmd_lmove, cmd_rpoplpush}
use cpp_inference_engine.Commands.Sets.{
  union, inter, diff, cmd_sadd, cmd_srem, cmd_smembers, cmd_sismember, cmd_scard, cmd_spop,
  cmd_srandmember, cmd_smove, cmd_set_op, cmd_set_op_store,
}
use cpp_inference_engine.Commands.Zsets.{
  cmd_zadd, cmd_zscore, cmd_zcard, cmd_zrank, cmd_zrem, cmd_zincrby, cmd_zpop,
}
use cpp_inference_engine.Commands.ZsetRanges.{
  cmd_zrange, cmd_zrangebyscore, cmd_zcount, cmd_zremrangebyrank, cmd_zremrangebyscore,
}

-- What one command finds outside: `NowUs()`, `last_save_time()`, and the error messages of `SaveToFile`
-- and `BgSaveFork`, if they fail.
pub record World : Type 0 where
  pub env : Env
  pub now_us : ℤ
  pub last_save : ℤ
  pub save_error : Option Bytes
  pub fork_error : Option Bytes

-- the reply of SAVE and BGSAVE
outcome : Option Bytes → Bytes → Action
outcome none text = say_simple text
outcome (some e) text = say_error e

abbrev pub Branches : Type 0
Branches = List (Bytes × Action)

branch : String → Action → Bytes × Action
branch name act = (codes name, act)

-- from PING to MEMORY
server_branches : World → ServerOptions → Bytes → Args → Branches
unfolding branch outcome
server_branches w opts lower argv =
    branch "PING" (cmd_ping argv)
    ∷ branch "ECHO" (cmd_echo argv)
    ∷ branch "SELECT" (cmd_select opts argv)
    ∷ branch "AUTH" cmd_auth
    ∷ branch "QUIT" cmd_quit
    ∷ branch "HELLO" (cmd_hello argv)
    ∷ branch "COMMAND" say_empty_array
    ∷ branch "INFO" (cmd_info opts w.now_us w.last_save argv)
    ∷ branch "DBSIZE" cmd_dbsize
    ∷ branch "FLUSHDB" cmd_flushdb
    ∷ branch "FLUSHALL" cmd_flushall
    ∷ branch "SAVE" (outcome w.save_error (codes "OK"))
    ∷ branch "BGSAVE" (outcome w.fork_error (codes "Background saving started"))
    ∷ branch "LASTSAVE" (say_int w.last_save)
    ∷ branch "BGREWRITEAOF" (say_simple (codes "Background append only file rewriting started"))
    ∷ branch "WAIT" (say_int (pos 0))
    ∷ branch "TIME" (cmd_time w.now_us)
    ∷ branch "ROLE" cmd_role
    ∷ branch "SHUTDOWN" (cmd_shutdown argv)
    ∷ branch "CONFIG" (cmd_config opts argv)
    ∷ branch "CLIENT" (cmd_client opts argv)
    ∷ branch "MEMORY" (cmd_memory w.env argv)
    ∷ []

-- strings, numbers and keys
key_branches : World → ServerOptions → Bytes → Args → Branches
unfolding branch
key_branches w opts lower argv =
    branch "GET" (cmd_get w.env argv)
    ∷ branch "SET" (cmd_set w.env argv)
    ∷ branch "SETNX" (cmd_setnx w.env argv)
    ∷ branch "SETEX" (cmd_setex 1000 w.env argv)
    ∷ branch "PSETEX" (cmd_setex 1 w.env argv)
    ∷ branch "GETSET" (cmd_getset w.env argv)
    ∷ branch "GETDEL" (cmd_getdel w.env argv)
    ∷ branch "GETRANGE" (cmd_getrange w.env argv)
    ∷ branch "SETRANGE" (cmd_setrange w.env argv)
    ∷ branch "STRLEN" (cmd_strlen w.env argv)
    ∷ branch "APPEND" (cmd_append w.env argv)
    ∷ branch "INCR" (cmd_incr w.env argv)
    ∷ branch "DECR" (cmd_decr w.env argv)
    ∷ branch "INCRBY" (cmd_incrby w.env argv)
    ∷ branch "DECRBY" (cmd_decrby w.env argv)
    ∷ branch "INCRBYFLOAT" (cmd_incrbyfloat w.env argv)
    ∷ branch "MGET" (cmd_mget w.env argv)
    ∷ branch "MSET" (cmd_mset false lower w.env argv)
    ∷ branch "MSETNX" (cmd_mset true lower w.env argv)
    ∷ branch "DEL" (cmd_del argv)
    ∷ branch "UNLINK" (cmd_del argv)
    ∷ branch "EXISTS" (cmd_exists w.env argv)
    ∷ branch "KEYS" (cmd_keys w.env argv)
    ∷ branch "RANDOMKEY" (cmd_randomkey w.env)
    ∷ branch "TYPE" (cmd_type w.env argv)
    ∷ branch "RENAME" (cmd_rename w.env argv)
    ∷ branch "EXPIRE" (cmd_expire false false w.env argv)
    ∷ branch "PEXPIRE" (cmd_expire false true w.env argv)
    ∷ branch "EXPIREAT" (cmd_expire true false w.env argv)
    ∷ branch "PEXPIREAT" (cmd_expire true true w.env argv)
    ∷ branch "TTL" (cmd_ttl false w.env argv)
    ∷ branch "PTTL" (cmd_ttl true w.env argv)
    ∷ branch "PERSIST" (cmd_persist w.env argv)
    ∷ branch "SCAN" (cmd_scan w.env argv)
    ∷ []

-- hashes and lists
hash_branches : World → ServerOptions → Bytes → Args → Branches
unfolding branch
hash_branches w opts lower argv =
    branch "HSET" (cmd_hset false lower w.env argv)
    ∷ branch "HMSET" (cmd_hset true lower w.env argv)
    ∷ branch "HGET" (cmd_hget w.env argv)
    ∷ branch "HMGET" (cmd_hmget w.env argv)
    ∷ branch "HGETALL" (cmd_hgetall w.env argv)
    ∷ branch "HDEL" (cmd_hdel w.env argv)
    ∷ branch "HEXISTS" (cmd_hexists w.env argv)
    ∷ branch "HLEN" (cmd_hlen w.env argv)
    ∷ branch "HKEYS" (cmd_hkeys w.env argv)
    ∷ branch "HVALS" (cmd_hvals w.env argv)
    ∷ branch "HSETNX" (cmd_hsetnx w.env argv)
    ∷ branch "HINCRBY" (cmd_hincrby w.env argv)
    ∷ branch "HINCRBYFLOAT" (cmd_hincrbyfloat w.env argv)
    ∷ branch "HSTRLEN" (cmd_hstrlen w.env argv)
    ∷ branch "LPUSH" (cmd_push true w.env argv)
    ∷ branch "RPUSH" (cmd_push false w.env argv)
    ∷ branch "LPOP" (cmd_pop true w.env argv)
    ∷ branch "RPOP" (cmd_pop false w.env argv)
    ∷ branch "LLEN" (cmd_llen w.env argv)
    ∷ branch "LRANGE" (cmd_lrange w.env argv)
    ∷ branch "LINDEX" (cmd_lindex w.env argv)
    ∷ branch "LSET" (cmd_lset w.env argv)
    ∷ branch "LREM" (cmd_lrem w.env argv)
    ∷ branch "LINSERT" (cmd_linsert w.env argv)
    ∷ branch "LTRIM" (cmd_ltrim w.env argv)
    ∷ branch "LMOVE" (cmd_lmove w.env argv)
    ∷ branch "RPOPLPUSH" (cmd_rpoplpush w.env argv)
    ∷ []

-- sets
set_branches : World → ServerOptions → Bytes → Args → Branches
unfolding branch
set_branches w opts lower argv =
    branch "SADD" (cmd_sadd w.env argv)
    ∷ branch "SREM" (cmd_srem w.env argv)
    ∷ branch "SMEMBERS" (cmd_smembers w.env argv)
    ∷ branch "SISMEMBER" (cmd_sismember w.env argv)
    ∷ branch "SCARD" (cmd_scard w.env argv)
    ∷ branch "SPOP" (cmd_spop w.env argv)
    ∷ branch "SRANDMEMBER" (cmd_srandmember w.env argv)
    ∷ branch "SMOVE" (cmd_smove w.env argv)
    ∷ branch "SINTER" (cmd_set_op inter w.env argv)
    ∷ branch "SUNION" (cmd_set_op union w.env argv)
    ∷ branch "SDIFF" (cmd_set_op diff w.env argv)
    ∷ branch "SINTERSTORE" (cmd_set_op_store inter w.env argv)
    ∷ branch "SUNIONSTORE" (cmd_set_op_store union w.env argv)
    ∷ branch "SDIFFSTORE" (cmd_set_op_store diff w.env argv)
    ∷ []

-- sorted sets
zset_branches : World → ServerOptions → Bytes → Args → Branches
unfolding branch
zset_branches w opts lower argv =
    branch "ZADD" (cmd_zadd lower w.env argv)
    ∷ branch "ZSCORE" (cmd_zscore w.env argv)
    ∷ branch "ZCARD" (cmd_zcard w.env argv)
    ∷ branch "ZRANGE" (cmd_zrange false w.env argv)
    ∷ branch "ZREVRANGE" (cmd_zrange true w.env argv)
    ∷ branch "ZRANGEBYSCORE" (cmd_zrangebyscore false w.env argv)
    ∷ branch "ZREVRANGEBYSCORE" (cmd_zrangebyscore true w.env argv)
    ∷ branch "ZRANK" (cmd_zrank false w.env argv)
    ∷ branch "ZREVRANK" (cmd_zrank true w.env argv)
    ∷ branch "ZCOUNT" (cmd_zcount w.env argv)
    ∷ branch "ZREM" (cmd_zrem w.env argv)
    ∷ branch "ZINCRBY" (cmd_zincrby w.env argv)
    ∷ branch "ZPOPMIN" (cmd_zpop true w.env argv)
    ∷ branch "ZPOPMAX" (cmd_zpop false w.env argv)
    ∷ branch "ZREMRANGEBYRANK" (cmd_zremrangebyrank w.env argv)
    ∷ branch "ZREMRANGEBYSCORE" (cmd_zremrangebyscore w.env argv)
    ∷ []

-- all of them
unfoldable pub branches : World → ServerOptions → Bytes → Args → Branches
unfolding server_branches key_branches hash_branches set_branches zset_branches
branches w opts lower argv =
    server_branches w opts lower argv
    ++ (key_branches w opts lower argv
        ++ (hash_branches w opts lower argv
            ++ (set_branches w opts lower argv ++ zset_branches w opts lower argv)))

-- the branch of a name
unfoldable pub branch_of : Bytes → Branches → Option Action
branch_of upper [] = none
branch_of upper ((name, act) ∷ rows) = if str_eq name upper then some act else branch_of upper rows

-- The rest of the chain, for `Dispatch`. What a command finds outside may depend on it and on the state.
unfoldable pub handle : (Args → Server → World) → Handler
unfolding branch_of branches err_unknown_command
handle world upper lower argv v =
    elim (branch_of upper (branches (world argv v) v.opts lower argv)) [
      | none ↦ reply (err_unknown_command argv) v
      | some act ↦ reply act v
    ]
