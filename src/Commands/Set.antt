-- ===== src/Commands/Set.antt =====
-- `CmdSet` of src/commands.cpp.
use cpp_inference_engine.Base.{
  Bool, true, false, ◌&&◌, Option, none, some, List, [], ◌∷◌, Bytes, codes, if◌then◌else◌, str_eq,
}
use cpp_inference_engine.Base.Int.{ℤ, pos, negsuc, wrap64, scale, ◌+ℤ◌, ltb_ℤ, leb_ℤ}
use cpp_inference_engine.Base.Decimal.{parse_int_strict}
use cpp_inference_engine.Value.{raw_string}
use cpp_inference_engine.Db.{Entry}
use cpp_inference_engine.Commands.State.{
  ok, fault, out_of_range, ◌>>=◌, Env, Args, Action, to_upper, say_simple, say_bulk, say_null,
  err_wrong_type, err_syntax, lookup_key, store, as_string,
}

-- the options of SET: -1 is an expiry that is not given
pub record SetOptions : Type 0 where
  pub ex_s : ℤ
  pub px_ms : ℤ
  pub nx : Bool
  pub xx : Bool
  pub keepttl : Bool
  pub want_get : Bool

abbrev pub no_options : SetOptions
no_options = record {
  ex_s = negsuc 0;
  px_ms = negsuc 0;
  nx = false;
  xx = false;
  keepttl = false;
  want_get = false;
}

-- an option of one word
set_flag : Bytes → SetOptions → Option SetOptions
set_flag o opts =
    if str_eq o (codes "NX")
    then some (record opts { nx = true })
    else if str_eq o (codes "XX")
    then some (record opts { xx = true })
    else if str_eq o (codes "KEEPTTL")
    then some (record opts { keepttl = true })
    else if str_eq o (codes "GET")
    then some (record opts { want_get = true })
    else none

-- `ParseIntStrict(s, &v)` with `v > 0`
positive : Bytes → Option ℤ
positive s = elim (parse_int_strict s) [
  | none ↦ none
  | some v ↦ if leb_ℤ v (pos 0) then none else some v
]

-- an option with its argument
set_expiry : Bytes → Bytes → SetOptions → Option SetOptions
unfolding positive
set_expiry o arg opts =
    if str_eq o (codes "EX")
    then elim (positive arg) [ none ↦ none | some v ↦ some (record opts { ex_s = v }) ]
    else if str_eq o (codes "PX")
    then elim (positive arg) [ none ↦ none | some v ↦ some (record opts { px_ms = v }) ]
    else none

-- the `for` loop over the options; `none` is a syntax error
unfoldable pub set_options : List Bytes → SetOptions → Option SetOptions
unfolding set_flag set_expiry
set_options [] opts = some opts
set_options (o ∷ []) opts = set_flag (to_upper o) opts
set_options (o ∷ arg ∷ rest) opts = elim (set_flag (to_upper o) opts) [
  | some opts' ↦ set_options (arg ∷ rest) opts'
  | none ↦ elim (set_expiry (to_upper o) arg opts) [
    | some opts' ↦ set_options rest opts'
    | none ↦ none
  ]
]

-- the expiry time that SET stores
unfoldable pub set_expires : Env → SetOptions → Option Entry → ℤ
set_expires env o e =
    let keep : ℤ = elim e [
      | none ↦ pos 0
      | some old ↦ if o.keepttl then old.expires_at_ms else pos 0
    ] in
    if ltb_ℤ (pos 0) o.px_ms
    then wrap64 (env.now_ms +ℤ o.px_ms)
    else if ltb_ℤ (pos 0) o.ex_s
    then wrap64 (env.now_ms +ℤ scale o.ex_s 1000)
    else keep

-- from the tests of NX and XX on
set_store : Env → Bytes → Bytes → SetOptions → Option Entry → Action
unfolding set_expires store
set_store env key val o e s =
    let stop = if o.want_get then ok s else say_null s in
    let s' = store key (raw_string val) (set_expires env o e) s in
    let go = if o.want_get then ok s' else say_simple (codes "OK") s' in
    elim e [ some old ↦ if o.nx then stop else go | none ↦ if o.xx then stop else go ]

-- the reply of the option GET
set_get : Env → Bytes → Bytes → SetOptions → Option Entry → Action
unfolding set_store err_wrong_type
set_get env key val o none s = say_null s >>= set_store env key val o none
set_get env key val o (some old) s = elim (as_string old.value) [
  | some v ↦ say_bulk v s >>= set_store env key val o (some old)
  | none ↦ err_wrong_type s
]

set_with : Env → Bytes → Bytes → SetOptions → Action
unfolding set_get lookup_key err_syntax
set_with env key val o s =
    let (e, s') = lookup_key env key s in
    if o.nx && o.xx
    then err_syntax s
    else if o.want_get
    then set_get env key val o e s'
    else set_store env key val o e s'

-- `CmdSet`
unfoldable pub cmd_set : Env → Args → Action
unfolding set_options set_with
cmd_set env (name ∷ key ∷ val ∷ opts) s = elim (set_options opts no_options) [
  | none ↦ err_syntax s
  | some o ↦ set_with env key val o s
]
cmd_set env _ s = fault out_of_range
