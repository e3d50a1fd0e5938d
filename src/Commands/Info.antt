-- ===== src/Commands/Info.antt =====
-- `BuildInfo` of src/commands.cpp, and INFO.
pub mod Sections
use cpp_inference_engine.Base.{
  ℕ, zero, suc, ◌+◌, ◌/◌, Bool, true, false, not, ◌||◌, List, [], ◌∷◌, ◌++◌, Bytes, codes, ◌==◌,
  if◌then◌else◌, length, str_eq,
}
use cpp_inference_engine.Base.Int.{ℤ, pos, ◌-ℤ◌, is_zero}
use cpp_inference_engine.Base.Decimal.{to_string}
use cpp_inference_engine.Db.{Entry, Table, Database}
use cpp_inference_engine.Dispatch.{ServerOptions}
use cpp_inference_engine.Commands.State.{ServerStats, State, Args, Action, say_bulk, to_lower}
use cpp_inference_engine.Commands.Admin.{quot}

-- `kv`
abbrev pub kv : Bytes → Bytes → Bytes
kv k v = k ++ (codes ":" ++ (v ++ codes "\r\n"))

abbrev number : ℕ → Bytes
number n = to_string (pos n)

-- `want`
unfoldable pub want : Bytes → Bytes → Bool
want section name =
    str_eq section []
    || str_eq section (codes "all")
    || str_eq section (codes "default")
    || str_eq section name

-- a section under its heading, if it is wanted
unfoldable pub info_section : Bytes → Bytes → Bytes → Bytes
unfolding want
info_section section name lines =
    if want section name then codes "# " ++ (name ++ (codes "\r\n" ++ lines)) else []

-- the keys with an expiry time
unfoldable pub expiring : Table → ℕ
expiring [] = 0
expiring ((k, e) ∷ t) = let rest = expiring t in if is_zero e.expires_at_ms then rest else suc rest

-- the lines of the databases from the index `i` on
unfoldable pub keyspace : ℕ → List Table → Bytes
unfolding expiring
keyspace i [] = []
keyspace i ([] ∷ ts) = keyspace (i + 1) ts
keyspace i ((x ∷ t) ∷ ts) =
    kv (codes "db" ++ number i) (
      codes "keys="
      ++ (number (length (x ∷ t))
          ++ (codes ",expires=" ++ (number (expiring (x ∷ t)) ++ codes ",avg_ttl=0"))))
    ++ keyspace (i + 1) ts

-- `uptime_s`
unfoldable pub uptime : ServerStats → ℤ → ℤ
unfolding quot
uptime stats now_us =
    if is_zero stats.start_time_us then pos 0 else quot (now_us -ℤ stats.start_time_us) 1000000

-- `BuildInfo`, at `NowUs()` and `last_save_time()`
unfoldable pub build_info : Database → ServerOptions → ServerStats → ℤ → ℤ → Bytes → Bytes
unfolding info_section keyspace uptime
build_info db opts stats now_us last_save section =
    info_section section (codes "Server") (
      kv (codes "redis_version") (codes "7.4.0-tiny")
      ++ (kv (codes "redis_mode") (codes "standalone")
          ++ (kv (codes "os") (codes "Darwin tiny-redis-runtime")
              ++ (kv (codes "run_id") (codes "0000000000000000000000000000000000000000")
                  ++ (kv (codes "tcp_port") (number opts.port)
                      ++ kv (codes "uptime_in_seconds") (to_string (uptime stats now_us)))))))
    ++ (info_section section (codes "Clients")
          (kv (codes "connected_clients") (number stats.connected_clients))
        ++ (info_section section (codes "Memory") (
              kv (codes "used_memory") (number db.used)
              ++ (kv (codes "used_memory_human") (number (db.used / 1024) ++ codes "K")
                  ++ (kv (codes "maxmemory") (number db.max_memory)
                      ++ kv (codes "maxmemory_policy") (codes "noeviction"))))
            ++ (info_section section (codes "Persistence") (
                  kv (codes "loading") (codes "0")
                  ++ kv (codes "rdb_last_save_time") (to_string last_save))
                ++ (info_section section (codes "Stats") (
                      kv (codes "total_connections_received") (number stats.total_connections)
                      ++ (kv (codes "total_commands_processed") (number stats.total_commands)
                          ++ kv (codes "expired_keys") (number stats.expired_keys)))
                    ++ (info_section section (codes "Replication") (
                          kv (codes "role") (codes "master")
                          ++ kv (codes "connected_slaves") (codes "0"))
                        ++ info_section section (codes "Keyspace") (keyspace 0 db.dbs))))))

-- INFO
unfoldable pub cmd_info : ServerOptions → ℤ → ℤ → Args → Action
unfolding build_info to_lower
cmd_info opts now_us last_save argv s =
    let section : Bytes = elim argv [ name ∷ sec ∷ [] ↦ to_lower sec | _ ↦ [] ] in
    say_bulk (build_info s.db opts s.stats now_us last_save section) s
