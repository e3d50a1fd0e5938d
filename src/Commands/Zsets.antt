-- ===== src/Commands/Zsets.antt =====
-- The sorted set commands of src/commands.cpp that change single members, or read them: ZADD, ZSCORE,
-- ZCARD, ZRANK, ZREVRANK, ZREM, ZINCRBY, ZPOPMIN and ZPOPMAX.
pub mod Counts
use cpp_inference_engine.Base.{
  ℕ, zero, suc, ◌+◌, ◌%◌, Bool, true, false, not, ◌&&◌, ◌||◌, Option, none, some, List, [], ◌∷◌,
  ◌++◌, Bytes, codes, ◌==◌, if◌then◌else◌, length, str_eq,
}
use cpp_inference_engine.Base.Int.{ℤ, pos, is_neg, pos_part}
use cpp_inference_engine.Base.Decimal.{parse_int_strict}
use cpp_inference_engine.Base.Dict.{find, put}
use cpp_inference_engine.Base.Dict
use cpp_inference_engine.Base.Double.{is_nan, is_inf, dlt, deq}
use cpp_inference_engine.Value.{SkipList, ZSet, zset_value}
use cpp_inference_engine.Zskiplist
use cpp_inference_engine.Zskiplist.{empty_list}
use cpp_inference_engine.Zskiplist.Range.{rank, rev_rank, pop_min, pop_max}
use cpp_inference_engine.Commands.State.{
  Run, ok, fault, out_of_range, ◌>>=◌, Env, Floats, State, Args, Action, say_int, say_bulk,
  say_null, say_empty_array, say_bulk_array, err_wrong_args, err_syntax, err_not_int, err_not_float,
  err_incr_overflow, to_upper, assign, as_zset, with_typed, with_created,
}

-- `ParseDoubleStrict`
unfoldable pub parse_double_strict : Floats → Bytes → Option ℕ
parse_double_strict c [] = none
parse_double_strict c (b ∷ s) =
    let (v, n) = c.strtod (b ∷ s) in if n == length (b ∷ s) then some v else none

-- a number that the commands take for a score
unfoldable pub parse_score : Floats → Bytes → Option ℕ
unfolding parse_double_strict
parse_score c s = elim (parse_double_strict c s) [
  | none ↦ none
  | some v ↦ if is_nan v then none else some v
]

-- `FormatDouble`: the first of the precisions 15, 16 and 17 that reads back
unfoldable pub format_double : Floats → ℕ → Bytes
format_double c d =
    if is_nan d
    then codes "nan"
    else if is_inf d
    then (if dlt 0 d then codes "inf" else codes "-inf")
    else if deq d 0
    then codes "0"
    else if deq (c.strtod (c.print_g 15 d)).0 d
    then c.print_g 15 d
    else if deq (c.strtod (c.print_g 16 d)).0 d
    then c.print_g 16 d
    else c.print_g 17 d

-- an empty `ZSetValue`
abbrev pub empty_zset : ZSet
empty_zset = record { sl = empty_list; dict = [] }

-- The score of a member is set: the old one leaves the skip list, and the new one is inserted.
unfoldable pub put_score : (ℕ → Bool) → Option ℕ → ℕ → Bytes → ZSet → ZSet
put_score flips old score member z =
    let cleared : SkipList = elim old [
      | none ↦ z.sl
      | some v ↦ (Zskiplist.erase v member z.sl).1
    ] in
    record { sl = (Zskiplist.insert flips score member cleared).1; dict = put member score z.dict }

-- a member with the score that was found leaves
abbrev pub remove_at : Bytes → ZSet → Option ℕ → Bool × ZSet
remove_at member z none = (false, z)
remove_at member z (some v) =
    (true, record { sl = (Zskiplist.erase v member z.sl).1; dict = Dict.erase member z.dict })

unfoldable pub remove_member : Bytes → ZSet → Bool × ZSet
remove_member member z = remove_at member z (find member z.dict)

-- ---- ZADD ----
pub record ZaddFlags : Type 0 where
  pub nx : Bool
  pub xx : Bool
  pub ch : Bool
  pub incr : Bool

-- the flags in front, and the arguments behind them
unfoldable pub zadd_flags : Args → ZaddFlags → ZaddFlags × Args
unfolding to_upper
zadd_flags [] f = (f, [])
zadd_flags (o ∷ rest) f = elim (str_eq (to_upper o) (codes "NX")) [
  | true ↦ zadd_flags rest (record f { nx = true })
  | false ↦ elim (str_eq (to_upper o) (codes "XX")) [
    | true ↦ zadd_flags rest (record f { xx = true })
    | false ↦ elim (str_eq (to_upper o) (codes "CH")) [
      | true ↦ zadd_flags rest (record f { ch = true })
      | false ↦ elim (str_eq (to_upper o) (codes "INCR")) [
        | true ↦ zadd_flags rest (record f { incr = true })
        | false ↦ (f, o ∷ rest)
      ]
    ]
  ]
]

-- Where the loop of ZADD stands: `inserted` counts the calls of `Insert`; `refused` is a score that is
-- not a number.
pub record Adding : Type 0 where
  pub zset : ZSet
  pub inserted : ℕ
  pub added : ℕ
  pub changed : ℕ
  pub refused : Bool

-- one pair of the loop
unfoldable pub zadd_pair : (ℕ → ℕ → Bool) → ZaddFlags → ℕ → Bytes → Adding → Adding
unfolding put_score
zadd_pair flips f score member a =
    let old = find member a.zset.dict in
    let next = put_score (flips a.inserted) old score member a.zset in
    elim old [
      | none ↦ if f.xx then a else record a {
        zset = next;
        inserted = a.inserted + 1;
        added = a.added + 1;
        changed = a.changed + 1;
      }
      | some v ↦
          if f.nx || deq v score
          then a
          else record a { zset = next; inserted = a.inserted + 1; changed = a.changed + 1 }
    ]

-- the loop over the pairs, without INCR
unfoldable pub zadd_loop : Env → ZaddFlags → Args → Adding → Run Adding
unfolding parse_score zadd_pair
zadd_loop env f [] a = ok a
zadd_loop env f (s ∷ []) a = fault out_of_range
zadd_loop env f (s ∷ member ∷ rest) a = elim (parse_score env.floats s) [
  | none ↦ ok (record a { refused = true })
  | some score ↦ zadd_loop env f rest (zadd_pair env.flips f score member a)
]

-- The sum of a score and `by` is stored, and is the answer.
unfoldable pub incr_score : Env → Bytes → Bytes → ℕ → ZSet → ℤ → Action
unfolding put_score format_double assign err_incr_overflow
incr_score env key member by z x s =
    let old = find member z.dict in
    let res = env.floats.add (elim old [ none ↦ 0 | some v ↦ v ]) by in
    if is_nan res || is_inf res
    then err_incr_overflow s
    else say_bulk (format_double env.floats res)
        (assign key (zset_value (put_score (env.flips 0) old res member z)) x s)

-- the loop of ZADD with INCR, whose first round is its last
unfoldable pub zadd_incr : Env → ZaddFlags → Bytes → Args → ZSet → ℤ → Action
unfolding parse_score incr_score err_not_float
zadd_incr env f key (score ∷ member ∷ rest) z x s = elim (parse_score env.floats score) [
  | none ↦ err_not_float s
  | some by ↦
      let exists : Bool = elim (find member z.dict) [ none ↦ false | some v ↦ true ] in
      if f.nx && not exists || f.xx && exists
      then say_null s
      else incr_score env key member by z x s
]
zadd_incr env f key _ z x s = fault out_of_range

-- the pairs of ZADD, at the value
unfoldable pub zadd_of : Env → ZaddFlags → Bytes → Args → ZSet → ℤ → Action
unfolding zadd_loop zadd_incr assign err_not_float
zadd_of env f key pairs z x s =
    if f.incr
    then zadd_incr env f key pairs z x s
    else zadd_loop env f pairs
        (record { zset = z; inserted = 0; added = 0; changed = 0; refused = false })
      >>= λ a.
          let s' = assign key (zset_value a.zset) x s in
          if a.refused
          then err_not_float s'
          else say_int (pos (if f.ch then a.changed else a.added)) s'

-- ZADD
unfoldable pub cmd_zadd : Bytes → Env → Args → Action
unfolding zadd_flags zadd_of with_created err_syntax err_wrong_args
cmd_zadd lower env (name ∷ key ∷ args) s =
    let (f, pairs) =
      zadd_flags args (record { nx = false; xx = false; ch = false; incr = false }) in
    let n = length pairs in
    if f.nx && f.xx
    then err_syntax s
    else if f.incr && not (n == 2)
    then err_syntax s
    else if n == 0 || not (n % 2 == 0)
    then err_wrong_args lower s
    else with_created as_zset env key (zset_value empty_zset) (zadd_of env f key pairs) s
cmd_zadd lower env _ s = fault out_of_range

-- ZINCRBY
unfoldable pub cmd_zincrby : Env → Args → Action
unfolding parse_score with_created incr_score err_not_float
cmd_zincrby env (name ∷ key ∷ by ∷ member ∷ rest) s = elim (parse_score env.floats by) [
  | none ↦ err_not_float s
  | some d ↦ with_created as_zset env key (zset_value empty_zset) (incr_score env key member d) s
]
cmd_zincrby env _ s = fault out_of_range

-- ZSCORE
unfoldable pub cmd_zscore : Env → Args → Action
unfolding with_typed format_double
cmd_zscore env (name ∷ key ∷ member ∷ rest) = with_typed as_zset env key say_null (λ z x s.
    elim (find member z.dict) [
      | none ↦ say_null s
      | some v ↦ say_bulk (format_double env.floats v) s
    ])
cmd_zscore env _ = λ s. fault out_of_range

-- ZCARD
unfoldable pub cmd_zcard : Env → Args → Action
unfolding with_typed
cmd_zcard env (name ∷ key ∷ rest) =
    with_typed as_zset env key (say_int (pos 0)) (λ z x. say_int (pos (length z.dict)))
cmd_zcard env _ = λ s. fault out_of_range

-- ZRANK, and ZREVRANK with `rev`
unfoldable pub cmd_zrank : Bool → Env → Args → Action
unfolding with_typed rank rev_rank
cmd_zrank rev env (name ∷ key ∷ member ∷ rest) = with_typed as_zset env key say_null (λ z x s.
    elim (find member z.dict) [
      | none ↦ say_null s
      | some v ↦ elim (if rev then rev_rank v member z.sl else rank v member z.sl) [
        | none ↦ say_null s
        | some r ↦ say_int (pos r) s
      ]
    ])
cmd_zrank rev env _ = λ s. fault out_of_range

unfoldable pub zrem_loop : Args → ZSet → ℕ → ZSet × ℕ
unfolding remove_member
zrem_loop [] z n = (z, n)
zrem_loop (m ∷ members) z n =
    let (was, z') = remove_member m z in zrem_loop members z' (if was then n + 1 else n)

-- ZREM
unfoldable pub cmd_zrem : Env → Args → Action
unfolding with_typed zrem_loop assign
cmd_zrem env (name ∷ key ∷ members) = with_typed as_zset env key (say_int (pos 0)) (λ z x s.
    let (z', n) = zrem_loop members z 0 in say_int (pos n) (assign key (zset_value z') x s))
cmd_zrem env _ = λ s. fault out_of_range

-- no more than `n` members from an end: the set, and the names and scores in turn
unfoldable pub zpop_loop : Floats → Bool → ℕ → ZSet → List Bytes → ZSet × List Bytes
unfolding pop_min pop_max format_double
zpop_loop c min zero z flat = (z, flat)
zpop_loop c min (suc n) z flat = elim (if min then pop_min z.sl else pop_max z.sl) [
  | none ↦ (z, flat)
  | some ((score, member), sl) ↦
      zpop_loop c min n (record { sl = sl; dict = Dict.erase member z.dict })
        (flat ++ member ∷ format_double c score ∷ [])
]

-- the count of ZPOPMIN and ZPOPMAX
zpop_count : Args → Option ℕ
zpop_count (count ∷ []) = elim (parse_int_strict count) [
  | none ↦ none
  | some n ↦ if is_neg n then none else some (pos_part n)
]
zpop_count _ = some 1

-- ZPOPMIN, and ZPOPMAX with `min` false
unfoldable pub cmd_zpop : Bool → Env → Args → Action
unfolding with_typed zpop_count zpop_loop assign err_not_int
cmd_zpop min env (name ∷ key ∷ rest) =
    with_typed as_zset env key
      (λ s. elim (zpop_count rest) [ none ↦ err_not_int s | some n ↦ say_empty_array s ])
      (λ z x s. elim (zpop_count rest) [
        | none ↦ err_not_int s
        | some zero ↦ say_empty_array s
        | some (suc n) ↦
            let (z', flat) = zpop_loop env.floats min (suc n) z [] in
            say_bulk_array flat (assign key (zset_value z') x s)
      ])
cmd_zpop min env _ = λ s. fault out_of_range
