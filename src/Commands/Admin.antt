-- ===== src/Commands/Admin.antt =====
-- The server commands of src/commands.cpp: the branches of `Dispatch` from PING to MEMORY, without INFO.
use cpp_inference_engine.Base.{
  ℕ, ◌+◌, ◌/◌, ◌%◌, Bool, true, false, ◌||◌, none, some, List, [], ◌∷◌, ◌++◌, Bytes, codes,
  if◌then◌else◌, length, str_eq,
}
use cpp_inference_engine.Base.Int.{ℤ, pos, negsuc, neg_ℤ, is_neg, pos_part, leb_ℤ, eqb_ℤ}
use cpp_inference_engine.Base.Decimal.{parse_int_strict, to_string}
use cpp_inference_engine.Db.{table, value_size, flush_db, flush_all}
use cpp_inference_engine.Resp.Replies.{append_array_reply, append_bulk_reply, append_int_reply}
use cpp_inference_engine.Dispatch.{ServerOptions, with_cs}
use cpp_inference_engine.Commands.State.{
  Run, ok, fault, out_of_range, Env, State, Args, Action, say_simple, say_error, say_int, say_bulk,
  say_null, say_bulk_array, err_syntax, err_not_int, to_upper, to_lower, lookup_key,
}

-- PING
unfoldable pub cmd_ping : Args → Action
cmd_ping (name ∷ text ∷ []) = say_bulk text
cmd_ping _ = say_simple (codes "PONG")

-- ECHO
unfoldable pub cmd_echo : Args → Action
cmd_echo (name ∷ text ∷ rest) = say_bulk text
cmd_echo _ = λ s. fault out_of_range

-- SELECT
unfoldable pub cmd_select : ServerOptions → Args → Action
unfolding with_cs
cmd_select opts (name ∷ index ∷ rest) s =
    let bad = say_error (codes "ERR DB index is out of range") s in
    elim (parse_int_strict index) [
      | none ↦ bad
      | some idx ↦
          if is_neg idx || leb_ℤ (pos opts.num_databases) idx
          then bad
          else say_simple (codes "OK") (with_cs (λ c. record c { db_index = pos_part idx }) s)
    ]
cmd_select opts _ s = fault out_of_range

-- AUTH
unfoldable pub cmd_auth : Action
cmd_auth = say_error (codes "ERR Client sent AUTH, but no password is set")

-- QUIT
unfoldable pub cmd_quit : Action
unfolding with_cs
cmd_quit s = say_simple (codes "OK") (with_cs (λ c. record c { quit_requested = true }) s)

-- bulk replies, one after the other
append_each : List Bytes → Bytes → Bytes
append_each [] out = out
append_each (b ∷ l) out = append_each l (append_bulk_reply out b)

-- HELLO
unfoldable pub cmd_hello : Args → Action
unfolding append_each
cmd_hello argv s =
    let greet : Run State = ok (record s {
      out =
          append_each
            (codes "server"
              ∷ codes "redis"
              ∷ codes "version"
              ∷ codes "7.4.0-tiny"
              ∷ codes "proto"
              ∷ codes "2"
              ∷ codes "id"
              ∷ codes "1"
              ∷ codes "mode"
              ∷ codes "standalone"
              ∷ codes "role"
              ∷ codes "master"
              ∷ codes "modules"
              ∷ []
              ∷ [])
            (append_array_reply s.out (pos 14));
    }) in
    let refuse = say_error (codes "NOPROTO unsupported protocol version") s in
    elim argv [
      | name ∷ proto ∷ rest ↦ elim (parse_int_strict proto) [
        | none ↦ refuse
        | some n ↦ if eqb_ℤ n (pos 2) then greet else refuse
      ]
      | _ ↦ greet
    ]

-- DBSIZE
unfoldable pub cmd_dbsize : Action
cmd_dbsize s = say_int (pos (length (table s.db s.cs.db_index))) s

-- FLUSHDB
unfoldable pub cmd_flushdb : Action
cmd_flushdb s = say_simple (codes "OK") (record s { db = flush_db s.cs.db_index s.db })

-- FLUSHALL
unfoldable pub cmd_flushall : Action
cmd_flushall s = say_simple (codes "OK") (record s { db = flush_all s.db })

-- `/` and `%` of C++, towards zero
unfoldable pub quot : ℤ → ℕ → ℤ
quot (pos a) n = pos (a / n)
quot (negsuc a) n = neg_ℤ (pos ((a + 1) / n))

unfoldable pub rem : ℤ → ℕ → ℤ
rem (pos a) n = pos (a % n)
rem (negsuc a) n = neg_ℤ (pos ((a + 1) % n))

-- TIME, at `NowUs()`
unfoldable pub cmd_time : ℤ → Action
unfolding append_each quot rem
cmd_time now_us s = ok (record s {
  out =
      append_each (to_string (quot now_us 1000000) ∷ to_string (rem now_us 1000000) ∷ [])
        (append_array_reply s.out (pos 2));
})

-- ROLE
unfoldable pub cmd_role : Action
cmd_role s = ok (record s {
  out =
      append_array_reply
        (append_int_reply (append_bulk_reply (append_array_reply s.out (pos 3)) (codes "master"))
          (pos 0))
        (pos 0);
})

shut_down : Bool → Action
shut_down nosave s =
    ok (record s { stats = record s.stats { shutdown_nosave = nosave; shutdown_requested = true } })

-- SHUTDOWN, which does not answer
unfoldable pub cmd_shutdown : Args → Action
unfolding shut_down err_syntax to_upper
cmd_shutdown (name ∷ how ∷ []) =
    if str_eq (to_upper how) (codes "NOSAVE")
    then shut_down true
    else if str_eq (to_upper how) (codes "SAVE")
    then shut_down false
    else err_syntax
cmd_shutdown _ = shut_down false

-- the answer of CONFIG GET
config_get : ServerOptions → Bytes → Action
config_get opts param s =
    let pair = λ (v : Bytes). say_bulk_array (param ∷ v ∷ []) s in
    if str_eq param (codes "maxmemory")
    then pair (to_string (pos s.db.max_memory))
    else if str_eq param (codes "port")
    then pair (to_string (pos opts.port))
    else if str_eq param (codes "databases")
    then pair (to_string (pos opts.num_databases))
    else if str_eq param (codes "dir")
    then pair opts.dir
    else if str_eq param (codes "dbfilename")
    then pair opts.dbfilename
    else if str_eq param (codes "save")
    then pair []
    else if str_eq param (codes "timeout")
    then pair (codes "0")
    else say_error
        (codes "ERR Unknown option or number of arguments for CONFIG GET -- '"
          ++ (param ++ codes "'"))
        s

-- CONFIG SET: the value is the fourth argument
config_set : Bytes → Args → Action
unfolding err_not_int
config_set param values s =
    if str_eq param (codes "maxmemory")
    then elim values [
      | [] ↦ fault out_of_range
      | v ∷ rest ↦ elim (parse_int_strict v) [
        | none ↦ err_not_int s
        | some cap ↦
            if is_neg cap
            then err_not_int s
            else say_simple (codes "OK")
                (record s { db = record s.db { max_memory = pos_part cap } })
      ]
    ]
    else say_error (codes "ERR Unsupported CONFIG parameter: " ++ param) s

-- CONFIG
unfoldable pub cmd_config : ServerOptions → Args → Action
unfolding config_get config_set err_syntax to_upper to_lower
cmd_config opts (name ∷ sub ∷ param ∷ values) s =
    if str_eq (to_upper sub) (codes "GET")
    then config_get opts (to_lower param) s
    else if str_eq (to_upper sub) (codes "SET")
    then config_set (to_lower param) values s
    else err_syntax s
cmd_config opts _ s = fault out_of_range

-- CLIENT
unfoldable pub cmd_client : ServerOptions → Args → Action
unfolding with_cs to_upper to_lower
cmd_client opts (name ∷ sub ∷ rest) s =
    let is = λ (t : Bytes). str_eq (to_upper sub) t in
    let id = to_string (pos s.cs.id) in
    let index = to_string (pos s.cs.db_index) in
    if is (codes "ID")
    then say_int (pos s.cs.id) s
    else if is (codes "GETNAME")
    then elim s.cs.name [ [] ↦ say_null s | b ∷ t ↦ say_bulk (b ∷ t) s ]
    else if is (codes "SETNAME")
    then elim rest [
      | [] ↦ fault out_of_range
      | new ∷ more ↦ say_simple (codes "OK") (with_cs (λ c. record c { name = new }) s)
    ]
    else if is (codes "INFO")
    then say_bulk
        (codes "id="
          ++ (id
              ++ (codes " addr=127.0.0.1:0 laddr=127.0.0.1:"
                  ++ (to_string (pos opts.port)
                      ++ (codes " name=" ++ (s.cs.name ++ (codes " db=" ++ index)))))))
        s
    else if is (codes "LIST")
    then say_bulk
        (codes "id="
          ++ (id
              ++ (codes " addr=127.0.0.1:0 fd=-1 name="
                  ++ (s.cs.name ++ (codes " db=" ++ (index ++ codes " cmd=client"))))))
        s
    else say_error
        (codes "ERR Unknown CLIENT subcommand or wrong number of arguments for '"
          ++ (to_lower sub ++ codes "'"))
        s
cmd_client opts _ s = fault out_of_range

-- MEMORY
unfoldable pub cmd_memory : Env → Args → Action
unfolding lookup_key to_upper
cmd_memory env (name ∷ sub ∷ rest) s =
    if str_eq (to_upper sub) (codes "USAGE")
    then elim rest [
      | [] ↦ fault out_of_range
      | key ∷ more ↦
          let (e, s') = lookup_key env key s in
          elim e [
            | none ↦ say_null s'
            | some x ↦ say_int (pos (48 + length key + value_size x.value)) s'
          ]
    ]
    else say_error (codes "ERR syntax error") s
cmd_memory env _ s = fault out_of_range
