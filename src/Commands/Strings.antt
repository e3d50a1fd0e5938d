-- ===== src/Commands/Strings.antt =====
-- The string commands of src/commands.cpp other than SET and the counters: the branches of `Dispatch`
-- from GET to MSETNX. An argument list that is too short is an index out of range.
pub mod Expiry
use cpp_inference_engine.Base.{
  ℕ, ◌+◌, ◌-◌, ◌*◌, ◌%◌, Bool, true, false, not, ◌||◌, none, some, List, [], ◌∷◌, ◌++◌, Bytes,
  codes, ltb, ◌==◌, if◌then◌else◌, length, take, drop, replicate,
}
use cpp_inference_engine.Base.Int.{ℤ, pos, wrap64, scale, ◌+ℤ◌, ltb_ℤ, leb_ℤ, is_neg, pos_part}
use cpp_inference_engine.Base.Decimal.{parse_int_strict}
use cpp_inference_engine.Value.{raw_string}
use cpp_inference_engine.Db.{delete}
use cpp_inference_engine.Resp.Replies.{
  append_array_reply, append_bulk_reply, append_null_bulk_reply,
}
use cpp_inference_engine.Commands.State.{
  Run, ok, fault, out_of_range, ◌>>=◌, Env, State, Args, Action, say_simple, say_error, say_int,
  say_bulk, say_null, err_wrong_args, err_not_int, lookup_key, store, assign, as_string, get_typed,
  with_typed, found, with_created,
}

-- GET
unfoldable pub cmd_get : Env → Args → Action
unfolding with_typed
cmd_get env (name ∷ key ∷ rest) = with_typed as_string env key say_null (λ v x. say_bulk v)
cmd_get env _ = λ s. fault out_of_range

-- SETNX
unfoldable pub cmd_setnx : Env → Args → Action
unfolding lookup_key store
cmd_setnx env (name ∷ key ∷ val ∷ rest) s =
    let (e, s') = lookup_key env key s in
    elim e [
      | some old ↦ say_int (pos 0) s'
      | none ↦ say_int (pos 1) (store key (raw_string val) (pos 0) s')
    ]
cmd_setnx env _ s = fault out_of_range

-- SETEX and PSETEX: a unit is `unit` milliseconds
unfoldable pub cmd_setex : ℕ → Env → Args → Action
unfolding store err_not_int
cmd_setex unit env (name ∷ key ∷ time ∷ val ∷ rest) s = elim (parse_int_strict time) [
  | none ↦ err_not_int s
  | some v ↦
      if leb_ℤ v (pos 0)
      then err_not_int s
      else say_simple (codes "OK")
          (store key (raw_string val) (wrap64 (env.now_ms +ℤ scale v unit)) s)
]
cmd_setex unit env _ s = fault out_of_range

-- GETSET
unfoldable pub cmd_getset : Env → Args → Action
unfolding with_typed store
cmd_getset env (name ∷ key ∷ val ∷ rest) =
    let write = λ (s : State). ok (store key (raw_string val) (pos 0) s) in
    with_typed as_string env key (λ s. say_null s >>= write) (λ v x s. say_bulk v s >>= write)
cmd_getset env _ = λ s. fault out_of_range

-- `db.Delete(cs.db_index, key)`
unfoldable pub delete_key : Bytes → State → Bool × State
delete_key key s = let (b, db) = delete s.cs.db_index key s.db in (b, record s { db = db })

-- GETDEL
unfoldable pub cmd_getdel : Env → Args → Action
unfolding with_typed delete_key
cmd_getdel env (name ∷ key ∷ rest) =
    with_typed as_string env key say_null
      (λ v x s. say_bulk v s >>= λ (s' : State). ok (delete_key key s').1)
cmd_getdel env _ = λ s. fault out_of_range

-- the window of GETRANGE in a text that is not empty
unfoldable pub range_of : Bytes → ℤ → ℤ → Bytes
range_of v start end =
    let len : ℤ = pos (length v) in
    let start₁ = if is_neg start then start +ℤ len else start in
    let end₁ = if is_neg end then end +ℤ len else end in
    let start₂ = if is_neg start₁ then pos 0 else start₁ in
    let end₂ = if leb_ℤ len end₁ then pos (length v - 1) else end₁ in
    if ltb_ℤ end₂ start₂ || leb_ℤ len start₂ || is_neg end₂
    then []
    else take (pos_part end₂ - pos_part start₂ + 1) (drop (pos_part start₂) v)

getrange_of : Bytes → Bytes → Bytes → Action
unfolding range_of err_not_int
getrange_of start end v s = elim (parse_int_strict start) [
  | none ↦ err_not_int s
  | some a ↦ elim (parse_int_strict end) [
    | none ↦ err_not_int s
    | some b ↦ if length v == 0 then say_bulk [] s else say_bulk (range_of v a b) s
  ]
]

-- GETRANGE
unfoldable pub cmd_getrange : Env → Args → Action
unfolding with_typed getrange_of
cmd_getrange env (name ∷ key ∷ start ∷ end ∷ rest) =
    with_typed as_string env key (getrange_of start end []) (λ v x. getrange_of start end v)
cmd_getrange env _ = λ s. fault out_of_range

-- `resize` with NUL bytes, and `replace` from `offset` on
unfoldable pub overwrite : Bytes → ℕ → Bytes → Bytes
overwrite v offset patch =
    let n = length patch in
    let wide = v ++ replicate (offset + n - length v) 0 in
    take offset wide ++ (patch ++ drop (offset + n) wide)

-- SETRANGE
unfoldable pub cmd_setrange : Env → Args → Action
unfolding with_created assign overwrite
cmd_setrange env (name ∷ key ∷ at ∷ patch ∷ rest) s = elim (parse_int_strict at) [
  | none ↦ say_error (codes "ERR offset is out of range") s
  | some offset ↦
      if is_neg offset
      then say_error (codes "ERR offset is out of range") s
      else if ltb (512 * 1024 * 1024) (pos_part offset + length patch)
      then say_error (codes "ERR string exceeds maximum allowed size (proto-max-bulk-len)") s
      else with_created as_string env key (raw_string [])
          (λ v x s'.
            let v' = overwrite v (pos_part offset) patch in
            say_int (pos (length v')) (assign key (raw_string v') x s'))
          s
]
cmd_setrange env _ s = fault out_of_range

-- STRLEN
unfoldable pub cmd_strlen : Env → Args → Action
unfolding with_typed
cmd_strlen env (name ∷ key ∷ rest) =
    with_typed as_string env key (say_int (pos 0)) (λ v x. say_int (pos (length v)))
cmd_strlen env _ = λ s. fault out_of_range

-- APPEND
unfoldable pub cmd_append : Env → Args → Action
unfolding with_created assign
cmd_append env (name ∷ key ∷ tail ∷ rest) =
    with_created as_string env key (raw_string [])
      (λ v x s. say_int (pos (length (v ++ tail))) (assign key (raw_string (v ++ tail)) x s))
cmd_append env _ = λ s. fault out_of_range

mget_loop : Env → List Bytes → State → State
unfolding get_typed
mget_loop env [] s = s
mget_loop env (key ∷ keys) s =
    let (t, s') = get_typed as_string env key s in
    mget_loop env keys (elim t [
      | found v x ↦ record s' { out = append_bulk_reply s'.out v }
      | _ ↦ record s' { out = append_null_bulk_reply s'.out }
    ])

-- MGET
unfoldable pub cmd_mget : Env → Args → Action
unfolding mget_loop
cmd_mget env [] s = fault out_of_range
cmd_mget env (name ∷ keys) s =
    ok (mget_loop env keys (record s { out = append_array_reply s.out (pos (length keys)) }))

-- the loop that stores; a key without a value is read out of range
mset_loop : List Bytes → State → Run State
unfolding store
mset_loop [] s = ok s
mset_loop (key ∷ []) s = fault out_of_range
mset_loop (key ∷ val ∷ rest) s = mset_loop rest (store key (raw_string val) (pos 0) s)

-- the loop of MSETNX over the keys: is one of them there?
any_key : Env → List Bytes → State → Bool × State
unfolding lookup_key
any_key env [] s = (false, s)
any_key env (key ∷ []) s =
    let (e, s') = lookup_key env key s in (elim e [ none ↦ false | some x ↦ true ], s')
any_key env (key ∷ val ∷ rest) s =
    let (e, s') = lookup_key env key s in
    elim e [ some x ↦ (true, s') | none ↦ any_key env rest s' ]

-- MSET and MSETNX; `lower` is the name of the command in small letters
unfoldable pub cmd_mset : Bool → Bytes → Env → Args → Action
unfolding mset_loop any_key err_wrong_args
cmd_mset nx lower env [] s = fault out_of_range
cmd_mset nx lower env (name ∷ pairs) s =
    let (taken, s') = any_key env pairs s in
    let write_nx = mset_loop pairs s' >>= say_int (pos 1) in
    let write = mset_loop pairs s >>= say_simple (codes "OK") in
    if not (length pairs % 2 == 0)
    then err_wrong_args lower s
    else if nx
    then (if taken then say_int (pos 0) s' else write_nx)
    else write
