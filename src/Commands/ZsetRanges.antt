-- ===== src/Commands/ZsetRanges.antt =====
-- The sorted set commands of src/commands.cpp on ranges: ZRANGE, ZREVRANGE, ZRANGEBYSCORE,
-- ZREVRANGEBYSCORE, ZCOUNT, ZREMRANGEBYRANK and ZREMRANGEBYSCORE.
use cpp_inference_engine.Base.{
  ℕ, ◌*◌, Bool, true, false, not, ◌&&◌, ◌||◌, Option, none, some, List, [], ◌∷◌, Bytes, codes, ◌==◌,
  if◌then◌else◌, length, str_eq,
}
use cpp_inference_engine.Base.Int.{ℤ, pos, negsuc}
use cpp_inference_engine.Base.Decimal.{parse_int_strict}
use cpp_inference_engine.Base.Dict
use cpp_inference_engine.Base.Double.{inf, neg_inf}
use cpp_inference_engine.Resp.Replies.{append_array_reply, append_bulk_reply}
use cpp_inference_engine.Value.{ZSet, zset_value}
use cpp_inference_engine.Zskiplist
use cpp_inference_engine.Zskiplist.Range.{
  Scored, nodes, ScoreRange, range_by_rank, range_by_score, count_in_range,
}
use cpp_inference_engine.Commands.State.{
  Run, ok, fault, out_of_range, ◌>>=◌, Env, Floats, Args, Action, say_int, say_error,
  say_empty_array, err_syntax, err_not_int, to_upper, assign, as_zset, with_typed,
}
use cpp_inference_engine.Commands.Zsets.{parse_double_strict, format_double}

-- `ParseScoreBound`: the bound, and whether it is exclusive
unfoldable pub parse_score_bound : Floats → Bytes → Option (ℕ × Bool)
unfolding parse_double_strict
parse_score_bound c s =
    let (t, exclusive) : Bytes × Bool = elim s [
      | [] ↦ ([], false)
      | b ∷ u ↦ if b == b'(' then (u, true) else (b ∷ u, false)
    ] in
    if str_eq t (codes "-inf") || str_eq t (codes "-infinity")
    then some (neg_inf, exclusive)
    else if str_eq t (codes "+inf") || str_eq t (codes "inf") || str_eq t (codes "infinity")
    then some (inf, exclusive)
    else elim (parse_double_strict c t) [ none ↦ none | some v ↦ some (v, exclusive) ]

-- `ToRange`
abbrev pub to_range : ℕ × Bool → ℕ × Bool → ScoreRange
to_range (lo, lo_exclusive) (hi, hi_exclusive) = record {
  min = lo;
  max = hi;
  min_exclusive = lo_exclusive;
  max_exclusive = hi_exclusive;
}

append_members : List Scored → Bytes → Bytes
append_members [] out = out
append_members ((v, m) ∷ l) out = append_members l (append_bulk_reply out m)

append_pairs : Floats → List Scored → Bytes → Bytes
unfolding format_double
append_pairs c [] out = out
append_pairs c ((v, m) ∷ l) out =
    append_pairs c l (append_bulk_reply (append_bulk_reply out m) (format_double c v))

-- `AppendScoredPairs`
unfoldable pub append_scored_pairs : Floats → List Scored → Bool → Action
unfolding append_members append_pairs
append_scored_pairs c [] with_scores s = say_empty_array s
append_scored_pairs c (p ∷ l) with_scores s = ok (record s {
  out =
      if with_scores
      then append_pairs c (p ∷ l) (append_array_reply s.out (pos (length (p ∷ l) * 2)))
      else append_members (p ∷ l) (append_array_reply s.out (pos (length (p ∷ l))));
})

-- two integers, of which the second is read only if the first is one
unfoldable pub two_ints : Args → Run (Option (ℤ × ℤ))
two_ints [] = fault out_of_range
two_ints (a ∷ rest) = elim (parse_int_strict a) [
  | none ↦ ok none
  | some n ↦ elim rest [
    | [] ↦ fault out_of_range
    | b ∷ rest' ↦ elim (parse_int_strict b) [ none ↦ ok none | some m ↦ ok (some (n, m)) ]
  ]
]

-- the options of ZRANGE, and of ZREVRANGE where `fixed` holds: WITHSCORES and REV
zrange_options : Bool → Args → Bool × Bool → Option (Bool × Bool)
unfolding to_upper
zrange_options fixed [] o = some o
zrange_options fixed (a ∷ rest) (with_scores, rev) =
    elim (str_eq (to_upper a) (codes "WITHSCORES")) [
      | true ↦ zrange_options fixed rest (true, rev)
      | false ↦ elim (str_eq (to_upper a) (codes "REV") && not fixed) [
        | true ↦ zrange_options fixed rest (with_scores, true)
        | false ↦ none
      ]
    ]

-- what is done with the value, or without the key, when the arguments were read
zrange_of : Env → Bool → Args → Option ZSet → Action
unfolding two_ints zrange_options append_scored_pairs range_by_rank err_not_int err_syntax
zrange_of env fixed args z s = two_ints args >>= λ r. elim r [
  | none ↦ err_not_int s
  | some (start, stop) ↦ elim (zrange_options fixed (drop_two args) (false, fixed)) [
    | none ↦ err_syntax s
    | some (with_scores, rev) ↦ elim z [
      | none ↦ say_empty_array s
      | some v ↦ append_scored_pairs env.floats (range_by_rank start stop rev v.sl) with_scores s
    ]
  ]
]
  where
    drop_two : Args → Args
    drop_two (a ∷ b ∷ rest) = rest
    drop_two _ = []

-- ZRANGE, and ZREVRANGE where `fixed` holds
unfoldable pub cmd_zrange : Bool → Env → Args → Action
unfolding with_typed zrange_of
cmd_zrange fixed env (name ∷ key ∷ args) =
    with_typed as_zset env key (zrange_of env fixed args none)
      (λ z x. zrange_of env fixed args (some z))
cmd_zrange fixed env _ = λ s. fault out_of_range

-- a fault of the source as a value that no list of elements is
unfoldable pub ranged : Option (List Scored) → Run (List Scored)
ranged none = fault out_of_range
ranged (some l) = ok l

pub record ByScore : Type 0 where
  pub with_scores : Bool
  pub offset : ℤ
  pub count : ℤ

-- the options of ZRANGEBYSCORE: WITHSCORES, and LIMIT with two numbers
pub data Options : Type 0 where
  options : ByScore → Options
  bad_int bad_syntax : Options

score_options : Args → ByScore → Options
unfolding to_upper
score_options [] o = options o
score_options (a ∷ []) o = elim (str_eq (to_upper a) (codes "WITHSCORES")) [
  | true ↦ options (record o { with_scores = true })
  | false ↦ bad_syntax
]
score_options (a ∷ n ∷ []) o = elim (str_eq (to_upper a) (codes "WITHSCORES")) [
  | true ↦ score_options (n ∷ []) (record o { with_scores = true })
  | false ↦ bad_syntax
]
score_options (a ∷ n ∷ m ∷ rest) o = elim (str_eq (to_upper a) (codes "WITHSCORES")) [
  | true ↦ score_options (n ∷ m ∷ rest) (record o { with_scores = true })
  | false ↦ elim (str_eq (to_upper a) (codes "LIMIT")) [
    | false ↦ bad_syntax
    | true ↦ elim (parse_int_strict n) [
      | none ↦ bad_int
      | some offset ↦ elim (parse_int_strict m) [
        | none ↦ bad_int
        | some count ↦ score_options rest (record o { offset = offset; count = count })
      ]
    ]
  ]
]

-- ERR min or max is not a float
unfoldable pub err_bounds : Action
err_bounds = say_error (codes "ERR min or max is not a float")

-- both bounds, as a range
unfoldable pub parse_range : Floats → Bytes → Bytes → Option ScoreRange
unfolding parse_score_bound
parse_range c lo hi = elim (parse_score_bound c lo) [
  | none ↦ none
  | some a ↦ elim (parse_score_bound c hi) [ none ↦ none | some b ↦ some (to_range a b) ]
]

by_score_of : Env → Bool → Option ScoreRange → Args → Option ZSet → Action
unfolding score_options append_scored_pairs range_by_score err_bounds err_not_int err_syntax ranged
by_score_of env rev none rest z s = err_bounds s
by_score_of env rev (some r) rest z s =
    elim (score_options rest (record { with_scores = false; offset = pos 0; count = negsuc 0 })) [
      | bad_int ↦ err_not_int s
      | bad_syntax ↦ err_syntax s
      | options o ↦ elim z [
        | none ↦ say_empty_array s
        | some v ↦ ranged (range_by_score r rev o.offset o.count v.sl) >>= λ l.
            append_scored_pairs env.floats l o.with_scores s
      ]
    ]

-- ZRANGEBYSCORE, and ZREVRANGEBYSCORE with `rev`, which takes the maximum first
unfoldable pub cmd_zrangebyscore : Bool → Env → Args → Action
unfolding with_typed by_score_of parse_range
cmd_zrangebyscore rev env (name ∷ key ∷ a ∷ b ∷ rest) =
    let r = if rev then parse_range env.floats b a else parse_range env.floats a b in
    with_typed as_zset env key (by_score_of env rev r rest none)
      (λ z x. by_score_of env rev r rest (some z))
cmd_zrangebyscore rev env _ = λ s. fault out_of_range

-- ZCOUNT
unfoldable pub cmd_zcount : Env → Args → Action
unfolding with_typed parse_range err_bounds nodes count_in_range
cmd_zcount env (name ∷ key ∷ lo ∷ hi ∷ rest) = elim (parse_range env.floats lo hi) [
  | none ↦ with_typed as_zset env key err_bounds (λ z x. err_bounds)
  | some r ↦
      with_typed as_zset env key (say_int (pos 0))
        (λ z x. say_int (pos (count_in_range r (nodes z.sl))))
]
cmd_zcount env _ = λ s. fault out_of_range

-- the loop over the victims
unfoldable pub remove_all : List Scored → ZSet → ZSet
remove_all [] z = z
remove_all ((v, m) ∷ l) z =
    remove_all l (record { sl = (Zskiplist.erase v m z.sl).1; dict = Dict.erase m z.dict })

-- the victims leave the value, and are counted
remove_victims : Bytes → List Scored → ZSet → ℤ → Action
unfolding remove_all assign
remove_victims key victims z x s =
    say_int (pos (length victims)) (assign key (zset_value (remove_all victims z)) x s)

-- ZREMRANGEBYRANK
unfoldable pub cmd_zremrangebyrank : Env → Args → Action
unfolding with_typed two_ints remove_victims range_by_rank err_not_int
cmd_zremrangebyrank env (name ∷ key ∷ args) =
    with_typed as_zset env key
      (λ s. two_ints args >>= λ r. elim r [ none ↦ err_not_int s | some p ↦ say_int (pos 0) s ])
      (λ z x s. two_ints args >>= λ r. elim r [
        | none ↦ err_not_int s
        | some (start, stop) ↦ remove_victims key (range_by_rank start stop false z.sl) z x s
      ])
cmd_zremrangebyrank env _ = λ s. fault out_of_range

-- ZREMRANGEBYSCORE
unfoldable pub cmd_zremrangebyscore : Env → Args → Action
unfolding with_typed parse_range remove_victims range_by_score err_bounds ranged
cmd_zremrangebyscore env (name ∷ key ∷ lo ∷ hi ∷ rest) = elim (parse_range env.floats lo hi) [
  | none ↦ with_typed as_zset env key err_bounds (λ z x. err_bounds)
  | some r ↦ with_typed as_zset env key (say_int (pos 0)) (λ z x s.
      ranged (range_by_score r false (pos 0) (negsuc 0) z.sl) >>= λ victims.
      remove_victims key victims z x s)
]
cmd_zremrangebyscore env _ = λ s. fault out_of_range
