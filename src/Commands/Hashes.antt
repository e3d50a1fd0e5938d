-- ===== src/Commands/Hashes.antt =====
-- The hash commands of src/commands.cpp: the branches of `Dispatch` from HSET to HINCRBYFLOAT.
use cpp_inference_engine.Base.{
  ℕ, ◌+◌, ◌*◌, ◌%◌, Bool, true, false, not, ◌||◌, Option, none, some, List, [], ◌∷◌, map, Bytes,
  codes, ◌==◌, if◌then◌else◌, length,
}
use cpp_inference_engine.Base.Int.{ℤ, pos, add_overflow}
use cpp_inference_engine.Base.Decimal.{parse_int_strict, to_string}
use cpp_inference_engine.Base.Dict.{Dict, find, put, erase}
use cpp_inference_engine.Base.Sort.{sort}
use cpp_inference_engine.Value.{hash_value}
use cpp_inference_engine.Resp.Replies.{
  append_array_reply, append_bulk_reply, append_null_bulk_reply,
}
use cpp_inference_engine.Commands.State.{
  Run, ok, fault, null_pointer, out_of_range, ◌>>=◌, Env, LongDouble, State, Args, Action,
  say_simple, say_int, say_bulk, say_null, say_empty_array, say_bulk_array, err_wrong_args,
  err_not_int, err_not_float, err_hash_not_int, err_hash_not_float, err_incr_overflow, assign,
  as_hash, with_typed, with_created,
}
use cpp_inference_engine.Commands.Numbers.{parse_long_double_strict, format_long_double}

abbrev pub has_field : Bytes → Dict Bytes → Bool
has_field f h = elim (find f h) [ none ↦ false | some v ↦ true ]

-- The loop of HSET: the hash, and the number of new fields. A field without a value is read out of
-- range.
unfoldable pub hset_loop : List Bytes → Dict Bytes → ℕ → Run (Dict Bytes × ℕ)
hset_loop [] h added = ok (h, added)
hset_loop (f ∷ []) h added = fault out_of_range
hset_loop (f ∷ v ∷ rest) h added =
    hset_loop rest (put f v h) (if has_field f h then added else added + 1)

-- HSET and HMSET; `lower` is the name of the command in small letters
unfoldable pub cmd_hset : Bool → Bytes → Env → Args → Action
unfolding hset_loop with_created assign err_wrong_args
cmd_hset hmset lower env (name ∷ key ∷ pairs) s =
    if not (length pairs % 2 == 0)
    then err_wrong_args lower s
    else with_created as_hash env key (hash_value [])
        (λ h x s'. hset_loop pairs h 0 >>= λ (h', added).
          let s'' = assign key (hash_value h') x s' in
          if hmset then say_simple (codes "OK") s'' else say_int (pos added) s'')
        s
cmd_hset hmset lower env _ s = fault out_of_range

-- HGET
unfoldable pub cmd_hget : Env → Args → Action
unfolding with_typed
cmd_hget env (name ∷ key ∷ field ∷ rest) =
    with_typed as_hash env key say_null
      (λ h x s. elim (find field h) [ none ↦ say_null s | some v ↦ say_bulk v s ])
cmd_hget env _ = λ s. fault out_of_range

hmget_loop : Dict Bytes → List Bytes → Bytes → Bytes
hmget_loop h [] out = out
hmget_loop h (f ∷ fields) out =
    hmget_loop h fields
      (elim (find f h) [ none ↦ append_null_bulk_reply out | some v ↦ append_bulk_reply out v ])

-- HMGET: without the key each field is looked for in nothing
unfoldable pub cmd_hmget : Env → Args → Action
unfolding with_typed hmget_loop
cmd_hmget env (name ∷ key ∷ fields) =
    let answer = λ (h : Dict Bytes) (s : State).
      ok
        (record s { out = hmget_loop h fields (append_array_reply s.out (pos (length fields))) }) in
    with_typed as_hash env key (answer []) (λ h x. answer h)
cmd_hmget env _ = λ s. fault out_of_range

-- the pairs of HGETALL: `h[key]` for each key
hgetall_loop : Dict Bytes → List Bytes → Bytes → Bytes
hgetall_loop h [] out = out
hgetall_loop h (k ∷ keys) out =
    hgetall_loop h keys
      (append_bulk_reply (append_bulk_reply out k) (elim (find k h) [ none ↦ [] | some v ↦ v ]))

abbrev pub keys_of : Dict Bytes → List Bytes
keys_of = map (λ e. e.0)

abbrev pub vals_of : Dict Bytes → List Bytes
vals_of = map (λ e. e.1)

-- HGETALL
unfoldable pub cmd_hgetall : Env → Args → Action
unfolding with_typed hgetall_loop sort
cmd_hgetall env (name ∷ key ∷ rest) = with_typed as_hash env key say_empty_array (λ h x s.
    ok (record s {
      out = hgetall_loop h (sort (keys_of h)) (append_array_reply s.out (pos (length h * 2)));
    }))
cmd_hgetall env _ = λ s. fault out_of_range

-- HKEYS
unfoldable pub cmd_hkeys : Env → Args → Action
unfolding with_typed sort
cmd_hkeys env (name ∷ key ∷ rest) =
    with_typed as_hash env key say_empty_array (λ h x. say_bulk_array (sort (keys_of h)))
cmd_hkeys env _ = λ s. fault out_of_range

-- HVALS
unfoldable pub cmd_hvals : Env → Args → Action
unfolding with_typed sort
cmd_hvals env (name ∷ key ∷ rest) =
    with_typed as_hash env key say_empty_array (λ h x. say_bulk_array (sort (vals_of h)))
cmd_hvals env _ = λ s. fault out_of_range

hdel_loop : List Bytes → Dict Bytes → ℕ → Dict Bytes × ℕ
hdel_loop [] h n = (h, n)
hdel_loop (f ∷ fields) h n = hdel_loop fields (erase f h) (if has_field f h then n + 1 else n)

-- HDEL: the pointer is null where the key is missing, and the loop follows it
unfoldable pub cmd_hdel : Env → Args → Action
unfolding with_typed hdel_loop assign
cmd_hdel env (name ∷ key ∷ []) =
    with_typed as_hash env key (say_int (pos 0)) (λ h x. say_int (pos 0))
cmd_hdel env (name ∷ key ∷ field ∷ fields) =
    with_typed as_hash env key (λ s. fault null_pointer)
      (λ h x s.
        let (h', n) = hdel_loop (field ∷ fields) h 0 in
        say_int (pos n) (assign key (hash_value h') x s))
cmd_hdel env _ = λ s. fault out_of_range

-- HEXISTS
unfoldable pub cmd_hexists : Env → Args → Action
unfolding with_typed
cmd_hexists env (name ∷ key ∷ field ∷ rest) =
    with_typed as_hash env key (say_int (pos 0))
      (λ h x. say_int (if has_field field h then pos 1 else pos 0))
cmd_hexists env _ = λ s. fault out_of_range

-- HLEN
unfoldable pub cmd_hlen : Env → Args → Action
unfolding with_typed
cmd_hlen env (name ∷ key ∷ rest) =
    with_typed as_hash env key (say_int (pos 0)) (λ h x. say_int (pos (length h)))
cmd_hlen env _ = λ s. fault out_of_range

-- HSETNX
unfoldable pub cmd_hsetnx : Env → Args → Action
unfolding with_created assign
cmd_hsetnx env (name ∷ key ∷ field ∷ val ∷ rest) =
    with_created as_hash env key (hash_value []) (λ h x s.
      if has_field field h
      then say_int (pos 0) s
      else say_int (pos 1) (assign key (hash_value (put field val h)) x s))
cmd_hsetnx env _ = λ s. fault out_of_range

-- HSTRLEN
unfoldable pub cmd_hstrlen : Env → Args → Action
unfolding with_typed
cmd_hstrlen env (name ∷ key ∷ field ∷ rest) = with_typed as_hash env key (say_int (pos 0)) (λ h x s.
    elim (find field h) [ none ↦ say_int (pos 0) s | some v ↦ say_int (pos (length v)) s ])
cmd_hstrlen env _ = λ s. fault out_of_range

hincrby_of : Bytes → Bytes → ℤ → Dict Bytes → ℤ → Action
unfolding assign err_hash_not_int err_not_int
hincrby_of key field by h x s = elim (find field h) [
  | none ↦ say_int by (assign key (hash_value (put field (to_string by) h)) x s)
  | some v ↦ elim (parse_int_strict v) [
    | none ↦ err_hash_not_int s
    | some cur ↦ elim (add_overflow cur by) [
      | none ↦ err_not_int s
      | some res ↦ say_int res (assign key (hash_value (put field (to_string res) h)) x s)
    ]
  ]
]

-- HINCRBY
unfoldable pub cmd_hincrby : Env → Args → Action
unfolding with_created hincrby_of err_not_int
cmd_hincrby env (name ∷ key ∷ field ∷ by ∷ rest) s = elim (parse_int_strict by) [
  | none ↦ err_not_int s
  | some n ↦ with_created as_hash env key (hash_value []) (hincrby_of key field n) s
]
cmd_hincrby env _ s = fault out_of_range

-- the number in the field: a missing field is zero
field_float : LongDouble → Option Bytes → Option ℕ
unfolding parse_long_double_strict
field_float ld none = some ld.plus_zero
field_float ld (some v) = parse_long_double_strict ld v

hincrbyfloat_of : LongDouble → Bytes → Bytes → ℕ → Dict Bytes → ℤ → Action
unfolding assign err_hash_not_float err_incr_overflow field_float format_long_double
hincrbyfloat_of ld key field by h x s = elim (field_float ld (find field h)) [
  | none ↦ err_hash_not_float s
  | some cur ↦
      let res = ld.add cur by in
      let text = format_long_double ld res in
      if ld.is_nan res || ld.is_inf res
      then err_incr_overflow s
      else say_bulk text (assign key (hash_value (put field text h)) x s)
]

-- HINCRBYFLOAT
unfoldable pub cmd_hincrbyfloat : Env → Args → Action
unfolding with_created hincrbyfloat_of err_not_float parse_long_double_strict
cmd_hincrbyfloat env (name ∷ key ∷ field ∷ by ∷ rest) s =
    elim (parse_long_double_strict env.long_double by) [
      | none ↦ err_not_float s
      | some d ↦
          with_created as_hash env key (hash_value []) (hincrbyfloat_of env.long_double key field d)
            s
    ]
cmd_hincrbyfloat env _ s = fault out_of_range
