-- ===== src/Commands/ListEdits.antt =====
-- LREM, LINSERT, RPOPLPUSH and LMOVE of src/commands.cpp.
use cpp_inference_engine.Base.{
  ℕ, suc, ◌+◌, ◌-◌, min, Bool, true, false, not, ◌&&◌, ◌||◌, Option, none, some, List, [], ◌∷◌,
  ◌++◌, Bytes, codes, ltb, ◌==◌, if◌then◌else◌, length, str_eq,
}
use cpp_inference_engine.Base.Int.{ℤ, pos, negsuc}
use cpp_inference_engine.Base.Decimal.{parse_int_strict}
use cpp_inference_engine.Value.{list_value}
use cpp_inference_engine.Commands.State.{
  fault, out_of_range, Env, Args, Action, to_upper, say_int, say_bulk, say_null, err_syntax,
  err_not_int, err_wrong_type, assign, as_list, with_typed, with_created, get_typed, Typed, missing,
  found, wrong_type,
}
use cpp_inference_engine.Commands.Lists.{pop_one}

-- The loop of LREM from the head: all matches for the count 0.
unfoldable pub rem_head : Bytes → ℕ → ℕ → List Bytes → List Bytes × ℕ
rem_head x count removed [] = ([], removed)
rem_head x count removed (v ∷ l) =
    let (rest, n) = rem_head x count (if str_eq v x then removed + 1 else removed) l in
    if not (count == 0 || ltb removed count)
    then (v ∷ l, removed)
    else if str_eq v x
    then (rest, n)
    else (v ∷ rest, n)

unfoldable pub hits : Bytes → List Bytes → ℕ
hits x [] = 0
hits x (v ∷ l) = (if str_eq v x then 1 else 0) + hits x l

-- all matches behind the first `skip` ones are erased
unfoldable pub rem_behind : Bytes → ℕ → List Bytes → List Bytes
rem_behind x skip [] = []
rem_behind x skip (v ∷ l) =
    let rest = rem_behind x (if str_eq v x then skip - 1 else skip) l in
    if str_eq v x && skip == 0 then rest else v ∷ rest

-- The list that LREM leaves, and the number of values removed. A count below zero erases the last ones.
unfoldable pub lrem : Bytes → ℤ → List Bytes → List Bytes × ℕ
unfolding rem_head hits rem_behind
lrem x (pos count) l = rem_head x count 0 l
lrem x (negsuc k) l = let want = min (hits x l) (suc k) in (rem_behind x (hits x l - want) l, want)

-- LREM
unfoldable pub cmd_lrem : Env → Args → Action
unfolding with_typed lrem assign err_not_int
cmd_lrem env (name ∷ key ∷ count ∷ val ∷ rest) =
    with_typed as_list env key
      (λ s. elim (parse_int_strict count) [ none ↦ err_not_int s | some c ↦ say_int (pos 0) s ])
      (λ l x s. elim (parse_int_strict count) [
        | none ↦ err_not_int s
        | some c ↦ let (l', n) = lrem val c l in say_int (pos n) (assign key (list_value l') x s)
      ])
cmd_lrem env _ = λ s. fault out_of_range

-- the list with `val` before or after the first `pivot`, unless there is none
unfoldable pub insert_at : Bool → Bytes → Bytes → List Bytes → Option (List Bytes)
insert_at before pivot val [] = none
insert_at before pivot val (v ∷ l) =
    let rest = insert_at before pivot val l in
    if str_eq v pivot
    then some (if before then val ∷ v ∷ l else v ∷ val ∷ l)
    else elim rest [ none ↦ none | some r ↦ some (v ∷ r) ]

linsert_of : Bool → Bytes → Bytes → Bytes → List Bytes → ℤ → Action
unfolding insert_at assign
linsert_of before key pivot val l x s = elim (insert_at before pivot val l) [
  | none ↦ say_int (negsuc 0) s
  | some l' ↦ say_int (pos (length l')) (assign key (list_value l') x s)
]

-- LINSERT
unfoldable pub cmd_linsert : Env → Args → Action
unfolding with_typed linsert_of err_syntax
cmd_linsert env (name ∷ key ∷ where_to ∷ pivot ∷ val ∷ rest) s =
    let before = str_eq (to_upper where_to) (codes "BEFORE") in
    if not before && not (str_eq (to_upper where_to) (codes "AFTER"))
    then err_syntax s
    else with_typed as_list env key (say_int (pos 0)) (linsert_of before key pivot val) s
cmd_linsert env _ s = fault out_of_range

-- a value put at an end
unfoldable pub push_one : Bool → Bytes → List Bytes → List Bytes
push_one true v l = v ∷ l
push_one false v l = l ++ v ∷ []

-- Source and destination are one list: the value, and the list after the move.
unfoldable pub rotate : Bool → Bool → List Bytes → Option (Bytes × List Bytes)
unfolding pop_one
rotate true true [] = none
rotate true true (v ∷ l) = some (v, v ∷ l)
rotate false false l = elim (pop_one false l) [ none ↦ none | some (v, r) ↦ some (v, l) ]
rotate true false [] = none
rotate true false (v ∷ l) = some (v, l ++ v ∷ [])
rotate false true l = elim (pop_one false l) [ none ↦ none | some (v, r) ↦ some (v, v ∷ r) ]

-- from the source list to another: the pop, and the push to the destination
lmove_between : Bytes → Bytes → Bool → Bool → List Bytes → ℤ → List Bytes → ℤ → Action
unfolding pop_one push_one assign
lmove_between src dst from_left to_left l x m y s = elim (pop_one from_left l) [
  | none ↦ fault out_of_range
  | some (v, r) ↦
      say_bulk v (assign dst (list_value (push_one to_left v m)) y (assign src (list_value r) x s))
]

lmove_same : Bytes → Bool → Bool → List Bytes → ℤ → Action
unfolding rotate assign
lmove_same src from_left to_left l x s = elim (rotate from_left to_left l) [
  | none ↦ fault out_of_range
  | some (v, r) ↦ say_bulk v (assign src (list_value r) x s)
]

-- both lists are known
lmove_found : Env → Bytes → Bytes → Bool → Bool → List Bytes → ℤ → Typed (List Bytes) → Action
unfolding lmove_between lmove_same with_created err_wrong_type
lmove_found env src dst from_left to_left l x wrong_type s = err_wrong_type s
lmove_found env src dst from_left to_left [] x missing s = say_null s
lmove_found env src dst from_left to_left [] x (found m y) s = say_null s
lmove_found env src dst from_left to_left (v ∷ l) x missing s =
    with_created as_list env dst (list_value [])
      (λ m y. lmove_between src dst from_left to_left (v ∷ l) x m y) s
lmove_found env src dst from_left to_left (v ∷ l) x (found m y) s =
    if str_eq src dst
    then lmove_same src from_left to_left (v ∷ l) x s
    else lmove_between src dst from_left to_left (v ∷ l) x m y s

lmove_source : Env → Bytes → Bytes → Bool → Bool → Typed (List Bytes) → Action
unfolding lmove_found get_typed err_wrong_type
lmove_source env src dst from_left to_left wrong_type s = err_wrong_type s
lmove_source env src dst from_left to_left missing s =
    let (t, s') = get_typed as_list env dst s in
    elim t [ wrong_type ↦ err_wrong_type s' | _ ↦ say_null s' ]
lmove_source env src dst from_left to_left (found l x) s =
    let (t, s') = get_typed as_list env dst s in lmove_found env src dst from_left to_left l x t s'

-- LEFT or RIGHT
side : Bytes → Option Bool
side text =
    if str_eq (to_upper text) (codes "LEFT")
    then some true
    else if str_eq (to_upper text) (codes "RIGHT")
    then some false
    else none

-- `CmdLMove`
unfoldable pub cmd_lmove : Env → Args → Action
unfolding lmove_source side err_syntax
cmd_lmove env (name ∷ src ∷ dst ∷ from ∷ to ∷ rest) s = elim (side from) [
  | none ↦ err_syntax s
  | some from_left ↦ elim (side to) [
    | none ↦ err_syntax s
    | some to_left ↦
        let (t, s') = get_typed as_list env src s in lmove_source env src dst from_left to_left t s'
  ]
]
cmd_lmove env _ s = fault out_of_range

-- RPOPLPUSH
unfoldable pub cmd_rpoplpush : Env → Args → Action
unfolding cmd_lmove
cmd_rpoplpush env (name ∷ src ∷ dst ∷ rest) =
    cmd_lmove env (codes "LMOVE" ∷ src ∷ dst ∷ codes "RIGHT" ∷ codes "LEFT" ∷ [])
cmd_rpoplpush env _ = λ s. fault out_of_range
