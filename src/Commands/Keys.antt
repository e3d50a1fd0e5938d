-- ===== src/Commands/Keys.antt =====
-- The key and expiry commands of src/commands.cpp: `CmdExpire`, and the branches of `Dispatch` from DEL
-- to PERSIST and from KEYS to TYPE.
pub mod Shown
pub mod Renamed
use cpp_inference_engine.Base.{
  ℕ, ◌+◌, ◌/◌, ◌%◌, length, Bool, true, false, Option, none, some, List, [], ◌∷◌, ◌++◌, Bytes,
  codes, if◌then◌else◌, str_eq, leb, get_elem?,
}
use cpp_inference_engine.Base.Int.{
  ℤ, pos, negsuc, ◌+ℤ◌, ◌-ℤ◌, wrap64, scale, leb_ℤ, is_zero, is_neg, pos_part,
}
use cpp_inference_engine.Base.Decimal.{parse_int_strict}
use cpp_inference_engine.Base.Sort.{sort}
use cpp_inference_engine.Value.{
  Value, raw_string, hash_value, list_value, set_value, zset_value, type_of, value_type_name,
}
use cpp_inference_engine.Zskiplist.{empty_list}
use cpp_inference_engine.Db.{Entry, Table, table, expired, size_mod}
use cpp_inference_engine.Resp.Replies.{append_array_reply, append_bulk_reply}
use cpp_inference_engine.Glob.{glob_match}
use cpp_inference_engine.Commands.State.{
  fault, out_of_range, Env, State, Args, Action, say_simple, say_error, say_int, say_bulk, say_null,
  say_bulk_array, err_not_int, err_syntax, to_upper, lookup_key, store, assign,
}
use cpp_inference_engine.Commands.Strings.{delete_key}

-- the loop of DEL
unfoldable pub del_loop : List Bytes → State → ℕ → ℕ × State
unfolding delete_key
del_loop [] s n = (n, s)
del_loop (key ∷ keys) s n =
    let (gone, s') = delete_key key s in del_loop keys s' (if gone then n + 1 else n)

-- DEL and UNLINK
unfoldable pub cmd_del : Args → Action
unfolding del_loop
cmd_del [] s = fault out_of_range
cmd_del (name ∷ keys) s = let (n, s') = del_loop keys s 0 in say_int (pos n) s'

-- the loop of EXISTS
unfoldable pub exists_loop : Env → List Bytes → State → ℕ → ℕ × State
unfolding lookup_key
exists_loop env [] s n = (n, s)
exists_loop env (key ∷ keys) s n =
    let (e, s') = lookup_key env key s in
    exists_loop env keys s' (elim e [ none ↦ n | some x ↦ n + 1 ])

-- EXISTS
unfoldable pub cmd_exists : Env → Args → Action
unfolding exists_loop
cmd_exists env [] s = fault out_of_range
cmd_exists env (name ∷ keys) s = let (n, s') = exists_loop env keys s 0 in say_int (pos n) s'

-- TYPE
unfoldable pub cmd_type : Env → Args → Action
unfolding lookup_key type_of value_type_name
cmd_type env (name ∷ key ∷ rest) s =
    let (e, s') = lookup_key env key s in
    elim e [
      | none ↦ say_simple (codes "none") s'
      | some x ↦ say_simple (value_type_name (type_of x.value)) s'
    ]
cmd_type env _ s = fault out_of_range

-- `expires_at_ms` of EXPIRE (`at` false) and EXPIREAT, in seconds or milliseconds
unfoldable pub expire_time : Env → Bool → Bool → ℤ → ℤ
expire_time env at ms v =
    let t = if ms then v else wrap64 (scale v 1000) in if at then t else wrap64 (env.now_ms +ℤ t)

-- `CmdExpire`: EXPIRE, PEXPIRE, EXPIREAT and PEXPIREAT
unfoldable pub cmd_expire : Bool → Bool → Env → Args → Action
unfolding lookup_key assign expire_time err_not_int
cmd_expire at ms env (name ∷ key ∷ time ∷ rest) s = elim (parse_int_strict time) [
  | none ↦ err_not_int s
  | some v ↦
      let (e, s') = lookup_key env key s in
      elim e [
        | none ↦ say_int (pos 0) s'
        | some x ↦ say_int (pos 1) (assign key x.value (expire_time env at ms v) s')
      ]
]
cmd_expire at ms env _ s = fault out_of_range

-- the reply of TTL (`ms` false) and PTTL for an entry
unfoldable pub time_left : Env → Bool → Entry → ℤ
time_left env ms e =
    let left = wrap64 (e.expires_at_ms -ℤ env.now_ms) in
    if is_zero e.expires_at_ms
    then negsuc 0
    else if leb_ℤ left (pos 0)
    then negsuc 1
    else if ms
    then left
    else pos ((pos_part left + 999) / 1000)

-- TTL and PTTL
unfoldable pub cmd_ttl : Bool → Env → Args → Action
unfolding lookup_key time_left
cmd_ttl ms env (name ∷ key ∷ rest) s =
    let (e, s') = lookup_key env key s in
    elim e [ none ↦ say_int (negsuc 1) s' | some x ↦ say_int (time_left env ms x) s' ]
cmd_ttl ms env _ s = fault out_of_range

-- PERSIST
unfoldable pub cmd_persist : Env → Args → Action
unfolding lookup_key assign
cmd_persist env (name ∷ key ∷ rest) s =
    let (e, s') = lookup_key env key s in
    elim e [
      | none ↦ say_int (pos 0) s'
      | some x ↦
          if is_zero x.expires_at_ms
          then say_int (pos 0) s'
          else say_int (pos 1) (assign key x.value (pos 0) s')
    ]
cmd_persist env _ s = fault out_of_range

-- What is left of a value that has been moved out: the empty value of its type.
unfoldable pub moved_out : Value → Value
moved_out (raw_string t) = raw_string []
moved_out (hash_value h) = hash_value []
moved_out (list_value l) = list_value []
moved_out (set_value m) = set_value []
moved_out (zset_value z) = zset_value (record { sl = empty_list; dict = [] })

-- RENAME: the entry is moved out before `Delete` takes its size
unfoldable pub cmd_rename : Env → Args → Action
unfolding lookup_key assign moved_out delete_key store
cmd_rename env (name ∷ old ∷ new ∷ rest) s =
    let (e, s') = lookup_key env old s in
    elim e [
      | none ↦ say_error (codes "ERR no such key") s'
      | some x ↦
          if str_eq old new
          then say_simple (codes "OK") s'
          else say_simple (codes "OK") (
              store new x.value x.expires_at_ms
                (delete_key old (assign old (moved_out x.value) x.expires_at_ms s')).1)
    ]
cmd_rename env _ s = fault out_of_range

-- the loop of KEYS over the table: the keys that match, and the stale ones
keys_loop : Env → Bytes → Table → List Bytes × List Bytes
keys_loop env pattern [] = ([], [])
keys_loop env pattern ((k, e) ∷ t) =
    let (keys, stale) = keys_loop env pattern t in
    if expired env.now_ms e
    then (keys, k ∷ stale)
    else elim (glob_match pattern k) [ some true ↦ (k ∷ keys, stale) | _ ↦ (keys, stale) ]

delete_all : List Bytes → State → State
unfolding delete_key
delete_all [] s = s
delete_all (k ∷ ks) s = delete_all ks (delete_key k s).1

-- KEYS
unfoldable pub cmd_keys : Env → Args → Action
unfolding keys_loop delete_all sort
cmd_keys env (name ∷ pattern ∷ rest) s =
    let (keys, stale) = keys_loop env pattern (table s.db s.cs.db_index) in
    let s' = delete_all stale s in
    let n = (s.stats.expired_keys + length stale) % size_mod in
    say_bulk_array (sort keys) (record s' { stats = record s'.stats { expired_keys = n } })
cmd_keys env _ s = fault out_of_range

-- ---- SCAN ----
-- the pattern, and the bound of COUNT where it is given
pub data ScanOptions : Type 0 where
  scan : Bytes → Option ℕ → ScanOptions
  bad_count bad_option : ScanOptions

unfoldable pub scan_options : Args → Bytes → Option ℕ → ScanOptions
unfolding to_upper
scan_options [] pattern bound = scan pattern bound
scan_options (o ∷ []) pattern bound = bad_option
scan_options (o ∷ v ∷ rest) pattern bound = elim (str_eq (to_upper o) (codes "MATCH")) [
  | true ↦ scan_options rest v bound
  | false ↦ elim (str_eq (to_upper o) (codes "COUNT")) [
    | false ↦ bad_option
    | true ↦ elim (parse_int_strict v) [
      | none ↦ bad_count
      | some n ↦ if is_neg n then bad_count else scan_options rest pattern (some (pos_part n))
    ]
  ]
]

abbrev pub is_full : Option ℕ → List Bytes → Bool
is_full none keys = false
is_full (some n) keys = leb n (length keys)

-- The loop of SCAN: a key that has expired is passed over before the bound is looked at.
unfoldable pub scan_loop : Env → Bytes → Option ℕ → Table → List Bytes → List Bytes
scan_loop env pattern bound [] keys = keys
scan_loop env pattern bound ((k, e) ∷ t) keys = elim (expired env.now_ms e) [
  | true ↦ scan_loop env pattern bound t keys
  | false ↦
      let keys' : List Bytes = elim (glob_match pattern k) [
        | some true ↦ keys ++ k ∷ []
        | _ ↦ keys
      ] in
      elim (is_full bound keys') [ true ↦ keys' | false ↦ scan_loop env pattern bound t keys' ]
]

-- SCAN
unfoldable pub cmd_scan : Env → Args → Action
unfolding scan_options scan_loop sort err_not_int err_syntax
cmd_scan env (name ∷ cursor ∷ args) s =
    let refuse = say_error (codes "ERR invalid cursor") s in
    elim (parse_int_strict cursor) [
      | none ↦ refuse
      | some c ↦ elim (is_zero c) [
        | false ↦ refuse
        | true ↦ elim (scan_options args (codes "*") none) [
          | bad_count ↦ err_not_int s
          | bad_option ↦ err_syntax s
          | scan pattern bound ↦
              say_bulk_array (sort (scan_loop env pattern bound (table s.db s.cs.db_index) []))
                (record s {
                  out = append_bulk_reply (append_array_reply s.out (pos 2)) (codes "0");
                })
        ]
      ]
    ]
cmd_scan env _ s = fault out_of_range

-- RANDOMKEY: a key that has expired is deleted and not answered
unfoldable pub cmd_randomkey : Env → Action
unfolding delete_key
cmd_randomkey env s =
    let t = table s.db s.cs.db_index in
    elim (get_elem? t (env.draw 0 % length t)) [
      | none ↦ say_null s
      | some (k, e) ↦
          let s' = (delete_key k s).1 in
          let n = (s.stats.expired_keys + 1) % size_mod in
          if expired env.now_ms e
          then say_null (record s' { stats = record s'.stats { expired_keys = n } })
          else say_bulk k s
    ]
