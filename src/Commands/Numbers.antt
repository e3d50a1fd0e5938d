-- ===== src/Commands/Numbers.antt =====
-- `CmdIncrBy` and `FormatLongDouble` of src/commands.cpp, with INCR, DECR, INCRBY, DECRBY and
-- INCRBYFLOAT.
pub mod Created
pub mod Counted
use cpp_inference_engine.Base.{
  ℕ, Bool, false, Option, none, some, [], ◌∷◌, Bytes, codes, ◌==◌, if◌then◌else◌, length, str_eq,
  ◌||◌,
}
use cpp_inference_engine.Base.Int.{ℤ, pos, negsuc, add_overflow, sub_overflow}
use cpp_inference_engine.Base.Decimal.{parse_int_strict, to_string}
use cpp_inference_engine.Value.{raw_string}
use cpp_inference_engine.Commands.State.{
  fault, out_of_range, Env, LongDouble, Args, Action, say_int, say_bulk, err_not_int, err_not_float,
  err_incr_overflow, assign, as_string, with_created,
}

strip_zeros : Bytes → Bytes
strip_zeros [] = []
strip_zeros (c ∷ s) =
    let rest = strip_zeros s in
    elim rest [ [] ↦ (if c == b'0' then [] else c ∷ []) | d ∷ t ↦ c ∷ d ∷ t ]

strip_dot : Bytes → Bytes
strip_dot [] = []
strip_dot (c ∷ s) =
    let rest = strip_dot s in elim s [ [] ↦ (if c == b'.' then [] else c ∷ []) | d ∷ t ↦ c ∷ rest ]

has_dot : Bytes → Bool
has_dot [] = false
has_dot (c ∷ s) = c == b'.' || has_dot s

-- `FormatLongDouble`
unfoldable pub format_long_double : LongDouble → ℕ → Bytes
unfolding strip_zeros strip_dot has_dot
format_long_double ld d =
    let text = ld.print_17lf d in
    let short = if has_dot text then strip_dot (strip_zeros text) else text in
    if ld.is_nan d
    then codes "nan"
    else if ld.is_inf d
    then (if ld.is_positive d then codes "inf" else codes "-inf")
    else if ld.is_zero d
    then codes "0"
    else if length text == 0
    then codes "0"
    else if str_eq short (codes "-0")
    then codes "0"
    else short

-- `ParseLongDoubleStrict`
unfoldable pub parse_long_double_strict : LongDouble → Bytes → Option ℕ
parse_long_double_strict ld [] = none
parse_long_double_strict ld (c ∷ s) = ld.strtold (c ∷ s)

-- the value of a string: an empty one is zero
unfoldable pub int_of : Bytes → Option ℤ
int_of [] = some (pos 0)
int_of (c ∷ s) = parse_int_strict (c ∷ s)

float_of : LongDouble → Bytes → Option ℕ
unfolding parse_long_double_strict
float_of ld [] = some ld.plus_zero
float_of ld (c ∷ s) = parse_long_double_strict ld (c ∷ s)

-- `CmdIncrBy` with `is_float` false
unfoldable pub cmd_incr_by : ℤ → Env → Args → Action
unfolding with_created assign int_of err_not_int
cmd_incr_by by env (name ∷ key ∷ rest) = with_created as_string env key (raw_string []) (λ v x s.
    elim (int_of v) [
      | none ↦ err_not_int s
      | some cur ↦ elim (add_overflow cur by) [
        | none ↦ err_not_int s
        | some res ↦ say_int res (assign key (raw_string (to_string res)) x s)
      ]
    ])
cmd_incr_by by env _ = λ s. fault out_of_range

incr_float : LongDouble → Bytes → Bytes → Bytes → ℤ → Action
unfolding float_of parse_long_double_strict format_long_double assign err_not_float
    err_incr_overflow
incr_float ld key delta v x s = elim (float_of ld v) [
  | none ↦ err_not_float s
  | some cur ↦ elim (parse_long_double_strict ld delta) [
    | none ↦ err_not_float s
    | some d ↦
        let res = ld.add cur d in
        let text = format_long_double ld res in
        if ld.is_nan res || ld.is_inf res
        then err_incr_overflow s
        else say_bulk text (assign key (raw_string text) x s)
  ]
]

-- INCRBYFLOAT: `CmdIncrBy` with `is_float` true
unfoldable pub cmd_incrbyfloat : Env → Args → Action
unfolding with_created incr_float
cmd_incrbyfloat env (name ∷ key ∷ delta ∷ rest) =
    with_created as_string env key (raw_string []) (incr_float env.long_double key delta)
cmd_incrbyfloat env _ = λ s. fault out_of_range

-- INCR and DECR
unfoldable pub cmd_incr : Env → Args → Action
unfolding cmd_incr_by
cmd_incr = cmd_incr_by (pos 1)

unfoldable pub cmd_decr : Env → Args → Action
unfolding cmd_incr_by
cmd_decr = cmd_incr_by (negsuc 0)

-- INCRBY
unfoldable pub cmd_incrby : Env → Args → Action
unfolding cmd_incr_by
cmd_incrby env (name ∷ key ∷ by ∷ rest) s = elim (parse_int_strict by) [
  | none ↦ err_not_int s
  | some n ↦ cmd_incr_by n env (name ∷ key ∷ by ∷ rest) s
]
cmd_incrby env _ s = fault out_of_range

-- DECRBY
unfoldable pub cmd_decrby : Env → Args → Action
unfolding cmd_incr_by
cmd_decrby env (name ∷ key ∷ by ∷ rest) s = elim (parse_int_strict by) [
  | none ↦ err_not_int s
  | some n ↦ elim (sub_overflow (pos 0) n) [
    | none ↦ err_not_int s
    | some m ↦ cmd_incr_by m env (name ∷ key ∷ by ∷ rest) s
  ]
]
cmd_decrby env _ s = fault out_of_range
