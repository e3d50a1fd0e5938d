-- ===== src/Commands/Sets.antt =====
-- The set commands of src/commands.cpp: `EvalSetOp`, `CmdSetOp`, `CmdSetOpStore` and the branches of
-- `Dispatch` from SADD to SDIFFSTORE.
pub mod Algebra
use cpp_inference_engine.Base.{
  ℕ, zero, suc, ◌+◌, ◌%◌, min, Bool, true, false, not, ◌&&◌, Option, none, some, List, [], ◌∷◌,
  Bytes, ◌==◌, if◌then◌else◌, length, str_eq, get_elem?, take,
}
use cpp_inference_engine.Base.Int.{ℤ, pos, is_neg, pos_part, neg_part}
use cpp_inference_engine.Base.Decimal.{parse_int_strict}
use cpp_inference_engine.Base.StrSet.{StrSet, has, insert, remove}
use cpp_inference_engine.Base.Sort.{sort}
use cpp_inference_engine.Value.{set_value}
use cpp_inference_engine.Commands.State.{
  Run, ok, fault, null_pointer, out_of_range, ◌>>=◌, Env, State, Args, Action, say_int, say_bulk,
  say_null, say_empty_array, say_bulk_array, err_wrong_type, err_not_int, assign, store, as_set,
  with_typed, with_created, get_typed, Typed, missing, found, wrong_type,
}

-- the loop of SADD: the set, and the number of new members
unfoldable pub sadd_loop : List Bytes → StrSet → ℕ → StrSet × ℕ
sadd_loop [] set n = (set, n)
sadd_loop (m ∷ ms) set n = sadd_loop ms (insert m set) (if has m set then n else n + 1)

-- SADD
unfoldable pub cmd_sadd : Env → Args → Action
unfolding with_created sadd_loop assign
cmd_sadd env (name ∷ key ∷ members) = with_created as_set env key (set_value []) (λ set x s.
    let (set', n) = sadd_loop members set 0 in say_int (pos n) (assign key (set_value set') x s))
cmd_sadd env _ = λ s. fault out_of_range

-- the loop of SREM: the set, and the number of members removed
unfoldable pub srem_loop : List Bytes → StrSet → ℕ → StrSet × ℕ
srem_loop [] set n = (set, n)
srem_loop (m ∷ ms) set n = srem_loop ms (remove m set) (if has m set then n + 1 else n)

-- SREM: the pointer is null where the key is missing, and the loop follows it
unfoldable pub cmd_srem : Env → Args → Action
unfolding with_typed srem_loop assign
cmd_srem env (name ∷ key ∷ []) =
    with_typed as_set env key (say_int (pos 0)) (λ set x. say_int (pos 0))
cmd_srem env (name ∷ key ∷ member ∷ members) =
    with_typed as_set env key (λ s. fault null_pointer)
      (λ set x s.
        let (set', n) = srem_loop (member ∷ members) set 0 in
        say_int (pos n) (assign key (set_value set') x s))
cmd_srem env _ = λ s. fault out_of_range

-- SMEMBERS
unfoldable pub cmd_smembers : Env → Args → Action
unfolding with_typed sort
cmd_smembers env (name ∷ key ∷ rest) =
    with_typed as_set env key (say_bulk_array []) (λ set x. say_bulk_array (sort set))
cmd_smembers env _ = λ s. fault out_of_range

-- SISMEMBER
unfoldable pub cmd_sismember : Env → Args → Action
unfolding with_typed
cmd_sismember env (name ∷ key ∷ member ∷ rest) =
    with_typed as_set env key (say_int (pos 0))
      (λ set x. say_int (if has member set then pos 1 else pos 0))
cmd_sismember env _ = λ s. fault out_of_range

-- SCARD
unfoldable pub cmd_scard : Env → Args → Action
unfolding with_typed
cmd_scard env (name ∷ key ∷ rest) =
    with_typed as_set env key (say_int (pos 0)) (λ set x. say_int (pos (length set)))
cmd_scard env _ = λ s. fault out_of_range

-- `random_member`: the member at which the iterator stops after `draw % size` steps
random_member : ℕ → StrSet → Run Bytes
random_member draw set = elim (get_elem? set (draw % length set)) [
  | none ↦ fault out_of_range
  | some m ↦ ok m
]

-- the loop of SPOP with a count: `k` is the number of the draw
spop_loop : (ℕ → ℕ) → ℕ → ℕ → StrSet → Run (List Bytes × StrSet)
unfolding random_member
spop_loop draw k zero set = ok ([], set)
spop_loop draw k (suc n) set = random_member (draw k) set >>= λ m.
    spop_loop draw (k + 1) n (remove m set) >>= λ (items, rest). ok (m ∷ items, rest)

spop_single : Env → Bytes → StrSet → ℤ → Action
unfolding random_member assign
spop_single env key [] x s = say_null s
spop_single env key (v ∷ set) x s = random_member (env.draw 0) (v ∷ set) >>= λ m.
    say_bulk m (assign key (set_value (remove m (v ∷ set))) x s)

spop_many : Env → Bytes → ℕ → StrSet → ℤ → Action
unfolding spop_loop assign
spop_many env key count [] x s = say_null s
spop_many env key count (v ∷ set) x s =
    let all = spop_loop env.draw 0 (min count (length (v ∷ set))) (v ∷ set) in
    if count == 0
    then say_empty_array s
    else all >>= λ (items, rest). say_bulk_array items (assign key (set_value rest) x s)

-- the count of SPOP, which is refused where it is bad
with_count : Bytes → (ℕ → Action) → Action
unfolding err_not_int
with_count count act s = elim (parse_int_strict count) [
  | none ↦ err_not_int s
  | some c ↦ if is_neg c then err_not_int s else act (pos_part c) s
]

-- SPOP: a bad count is refused before a missing key is answered, and after a wrong type
unfoldable pub cmd_spop : Env → Args → Action
unfolding with_typed with_count spop_single spop_many
cmd_spop env (name ∷ key ∷ []) = with_typed as_set env key say_null (spop_single env key)
cmd_spop env (name ∷ key ∷ count ∷ rest) =
    with_typed as_set env key (with_count count (λ c. say_null))
      (λ set x. with_count count (λ c. spop_many env key c set x))
cmd_spop env _ = λ s. fault out_of_range

-- `n` draws of a member, with repeats
srand_loop : (ℕ → ℕ) → ℕ → ℕ → StrSet → Run (List Bytes)
unfolding random_member
srand_loop draw k zero set = ok []
srand_loop draw k (suc n) set =
    random_member (draw k) set >>= λ m. srand_loop draw (k + 1) n set >>= λ items. ok (m ∷ items)

srandmember_one : Env → StrSet → ℤ → Action
unfolding random_member
srandmember_one env [] x s = say_null s
srandmember_one env (v ∷ set) x s = random_member (env.draw 0) (v ∷ set) >>= λ m. say_bulk m s

-- what SRANDMEMBER with a count says where there is no member
srandmember_none : ℤ → Action
srandmember_none count = if is_neg count then say_null else say_empty_array

srandmember_many : Env → ℤ → StrSet → ℤ → Action
unfolding srand_loop srandmember_none sort
srandmember_many env count [] x s = srandmember_none count s
srandmember_many env count (v ∷ set) x s =
    let chosen = take (min (pos_part count) (length (v ∷ set))) (env.shuffle (v ∷ set)) in
    let drawn = srand_loop env.draw 0 (neg_part count) (v ∷ set) in
    if is_neg count
    then (drawn >>= λ items. say_bulk_array (sort items) s)
    else say_bulk_array (sort chosen) s

-- a count that may be negative
with_any_count : Bytes → (ℤ → Action) → Action
unfolding err_not_int
with_any_count count act s = elim (parse_int_strict count) [
  | none ↦ err_not_int s
  | some c ↦ act c s
]

-- SRANDMEMBER
unfoldable pub cmd_srandmember : Env → Args → Action
unfolding with_typed with_any_count srandmember_one srandmember_none srandmember_many
cmd_srandmember env (name ∷ key ∷ []) = with_typed as_set env key say_null (srandmember_one env)
cmd_srandmember env (name ∷ key ∷ count ∷ rest) =
    with_typed as_set env key (with_any_count count srandmember_none)
      (λ set x. with_any_count count (λ c. srandmember_many env c set x))
cmd_srandmember env _ = λ s. fault out_of_range

smove_found : Env → Bytes → Bytes → Bytes → StrSet → ℤ → Typed StrSet → Action
unfolding with_created assign err_wrong_type
smove_found env src dst member set x wrong_type s = err_wrong_type s
smove_found env src dst member set x missing s =
    if not (has member set)
    then say_int (pos 0) s
    else if str_eq src dst
    then say_int (pos 1) s
    else with_created as_set env dst (set_value [])
        (λ other y s'. say_int (pos 1) (
          assign dst (set_value (insert member other)) y
            (assign src (set_value (remove member set)) x s')))
        s
smove_found env src dst member set x (found other y) s =
    if not (has member set)
    then say_int (pos 0) s
    else if str_eq src dst
    then say_int (pos 1) s
    else say_int (pos 1) (
        assign dst (set_value (insert member other)) y
          (assign src (set_value (remove member set)) x s))

-- SMOVE
unfoldable pub cmd_smove : Env → Args → Action
unfolding with_typed smove_found get_typed err_wrong_type
cmd_smove env (name ∷ src ∷ dst ∷ member ∷ rest) =
    with_typed as_set env src
      (λ s.
        let (t, s') = get_typed as_set env dst s in
        elim t [ wrong_type ↦ err_wrong_type s' | _ ↦ say_int (pos 0) s' ])
      (λ set x s.
        let (t, s') = get_typed as_set env dst s in smove_found env src dst member set x t s')
cmd_smove env _ = λ s. fault out_of_range

pub data SetOp : Type 0 where
  union inter diff : SetOp

-- The operands of `EvalSetOp`: `none` is a wrong type, and `some none` the empty result of an
-- intersection with a missing key. The keys behind that are not looked up.
unfoldable pub operands : SetOp → Env → List Bytes → State → Option (Option (List StrSet)) × State
unfolding get_typed
operands op env [] s = (some (some []), s)
operands op env (key ∷ keys) s =
    let (t, s') = get_typed as_set env key s in
    let (rest, s'') = operands op env keys s' in
    let skip : Option (Option (List StrSet)) × State = elim op [
      | inter ↦ (some none, s')
      | _ ↦ (rest, s'')
    ] in
    elim t [
      | wrong_type ↦ (none, s')
      | missing ↦ skip
      | found set x ↦ (
        elim rest [
          | none ↦ none
          | some none ↦ some none
          | some (some sets) ↦ some (some (set ∷ sets))
        ],
        s'',
      )
    ]

insert_all : List Bytes → StrSet → StrSet
insert_all [] acc = acc
insert_all (m ∷ ms) acc = insert_all ms (insert m acc)

union_all : List StrSet → StrSet → StrSet
unfolding insert_all
union_all [] acc = acc
union_all (o ∷ others) acc = union_all others (insert_all o acc)

unfoldable pub in_all : Bytes → List StrSet → Bool
in_all m [] = true
in_all m (o ∷ others) = has m o && in_all m others

unfoldable pub in_any : Bytes → List StrSet → Bool
in_any m [] = false
in_any m (o ∷ others) = let rest = in_any m others in if has m o then true else rest

-- the members of the first operand that pass a test
keep : (Bytes → Bool) → List Bytes → StrSet → StrSet
keep test [] acc = acc
keep test (m ∷ ms) acc = keep test ms (if test m then insert m acc else acc)

-- the result of `EvalSetOp` for its operands
unfoldable pub combine : SetOp → List StrSet → StrSet
unfolding union_all insert_all in_all in_any keep
combine op [] = []
combine union (base ∷ others) = union_all others (insert_all base [])
combine inter (base ∷ others) = keep (λ m. in_all m others) base []
combine diff (base ∷ others) = keep (λ m. not (in_any m others)) base []

-- `EvalSetOp`: `none` is a wrong type
unfoldable pub eval_set_op : SetOp → Env → List Bytes → State → Option StrSet × State
unfolding operands combine
eval_set_op op env keys s =
    let (r, s') = operands op env keys s in
    (elim r [ none ↦ none | some none ↦ some [] | some (some sets) ↦ some (combine op sets) ], s')

-- `CmdSetOp`: SUNION, SINTER and SDIFF
unfoldable pub cmd_set_op : SetOp → Env → Args → Action
unfolding eval_set_op sort err_wrong_type
cmd_set_op op env [] s = fault out_of_range
cmd_set_op op env (name ∷ keys) s =
    let (r, s') = eval_set_op op env keys s in
    elim r [ none ↦ err_wrong_type s' | some set ↦ say_bulk_array (sort set) s' ]

-- the count that `CmdSetOpStore` replies, read through the pointer of a lookup
stored_count : Env → Bytes → State → Run State
unfolding get_typed
stored_count env dst s =
    let (t, s') = get_typed as_set env dst s in
    elim t [ found set x ↦ say_int (pos (length set)) s' | _ ↦ fault null_pointer ]

-- `CmdSetOpStore`
unfoldable pub cmd_set_op_store : SetOp → Env → Args → Action
unfolding eval_set_op store stored_count err_wrong_type
cmd_set_op_store op env (name ∷ dst ∷ keys) s =
    let (r, s') = eval_set_op op env keys s in
    elim r [
      | none ↦ err_wrong_type s'
      | some set ↦ stored_count env dst (store dst (set_value set) (pos 0) s')
    ]
cmd_set_op_store op env _ s = fault out_of_range
