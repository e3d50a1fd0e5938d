-- ===== src/Commands/Lists.antt =====
-- The list commands of src/commands.cpp: `CmdPush`, `CmdPop`, `ListIndexRange` and the branches of
-- `Dispatch` from LLEN to LTRIM.
pub mod Windows
use cpp_inference_engine.Base.{
  ℕ, zero, suc, ◌+◌, min, Bool, true, false, ◌||◌, Option, none, some, List, [], ◌∷◌, ◌++◌, Bytes,
  codes, ltb, leb, ◌==◌, if◌then◌else◌, length, get_elem?, set,
}
use cpp_inference_engine.Base.Int.{ℤ, pos, negsuc, ◌+ℤ◌, ltb_ℤ, leb_ℤ, is_neg, pos_part}
use cpp_inference_engine.Base.Decimal.{parse_int_strict}
use cpp_inference_engine.Value.{list_value}
use cpp_inference_engine.Commands.State.{
  Run, ok, fault, out_of_range, ◌>>=◌, Env, State, Args, Action, say_simple, say_error, say_int,
  say_bulk, say_null, say_empty_array, say_bulk_array, err_not_int, assign, as_list, with_typed,
  with_created,
}
use cpp_inference_engine.Commands.Strings.{delete_key}

-- one `push_front` or `push_back` for each value
unfoldable pub push_all : Bool → List Bytes → List Bytes → List Bytes
push_all left [] l = l
push_all left (v ∷ vs) l = push_all left vs (if left then v ∷ l else l ++ v ∷ [])

-- `CmdPush`: LPUSH and RPUSH
unfoldable pub cmd_push : Bool → Env → Args → Action
unfolding with_created assign push_all
cmd_push left env (name ∷ key ∷ vals) = with_created as_list env key (list_value []) (λ l x s.
    let l' = push_all left vals l in say_int (pos (length l')) (assign key (list_value l') x s))
cmd_push left env _ = λ s. fault out_of_range

-- `back()` and `pop_back()`
unfoldable pub pop_back : List Bytes → Option (Bytes × List Bytes)
pop_back [] = none
pop_back (v ∷ l) = elim (pop_back l) [ none ↦ some (v, []) | some (w, r) ↦ some (w, v ∷ r) ]

unfoldable pub pop_one : Bool → List Bytes → Option (Bytes × List Bytes)
unfolding pop_back
pop_one true [] = none
pop_one true (v ∷ l) = some (v, l)
pop_one false l = pop_back l

-- `n` values taken from an end, and what is left; an empty list has no value to take
unfoldable pub pop_loop : ℕ → Bool → List Bytes → Run (List Bytes × List Bytes)
unfolding pop_one
pop_loop zero left l = ok ([], l)
pop_loop (suc n) left l = elim (pop_one left l) [
  | none ↦ fault out_of_range
  | some (v, r) ↦ pop_loop n left r >>= λ (items, rest). ok (v ∷ items, rest)
]

-- CmdPop with no count
pop_single : Bool → Bytes → List Bytes → ℤ → Action
unfolding pop_one assign
pop_single left key l x s = elim (pop_one left l) [
  | none ↦ say_null s
  | some (v, r) ↦ say_bulk v (assign key (list_value r) x s)
]

-- CmdPop with a count
pop_many : Bool → Bytes → ℕ → List Bytes → ℤ → Action
unfolding pop_loop assign
pop_many left key count l x s =
    let n = min count (length l) in
    if length l == 0 then say_null s else (do
      (items, rest) ← pop_loop n left l
      let s' = assign key (list_value rest) x s
      if n == 0 then say_empty_array s' else say_bulk_array items s')

-- `CmdPop`: LPOP and RPOP
unfoldable pub cmd_pop : Bool → Env → Args → Action
unfolding with_typed pop_single pop_many err_not_int
cmd_pop left env (name ∷ key ∷ count ∷ []) s = elim (parse_int_strict count) [
  | none ↦ err_not_int s
  | some c ↦
      if is_neg c
      then err_not_int s
      else with_typed as_list env key say_null (pop_many left key (pos_part c)) s
]
cmd_pop left env (name ∷ key ∷ rest) s = with_typed as_list env key say_null (pop_single left key) s
cmd_pop left env _ s = fault out_of_range

-- LLEN
unfoldable pub cmd_llen : Env → Args → Action
unfolding with_typed
cmd_llen env (name ∷ key ∷ rest) =
    with_typed as_list env key (say_int (pos 0)) (λ l x. say_int (pos (length l)))
cmd_llen env _ = λ s. fault out_of_range

-- `ListIndexRange`: the window in a list of `llen` values, unless it is empty
unfoldable pub list_index_range : ℤ → ℤ → ℕ → Option (ℕ × ℕ)
list_index_range start stop llen =
    let len : ℤ = pos llen in
    let start₁ = if is_neg start then start +ℤ len else start in
    let stop₁ = if is_neg stop then stop +ℤ len else stop in
    let start₂ = if is_neg start₁ then pos 0 else start₁ in
    let stop₂ = if leb_ℤ len stop₁ then len +ℤ negsuc 0 else stop₁ in
    if ltb_ℤ stop₂ start₂ then none else some (pos_part start₂, pos_part stop₂)

-- the loop of LRANGE from the index `i` on
unfoldable pub slice : ℕ → ℕ → ℕ → List Bytes → List Bytes
slice i start stop [] = []
slice i start stop (v ∷ l) =
    let rest = slice (i + 1) start stop l in
    if ltb stop i then [] else if leb start i then v ∷ rest else rest

-- the loop of LTRIM from the index `i` on
unfoldable pub trim : ℕ → ℕ → ℕ → List Bytes → List Bytes
trim i start stop [] = []
trim i start stop (v ∷ l) =
    let rest = trim (i + 1) start stop l in if ltb i start || ltb stop i then rest else v ∷ rest

-- two integer arguments, read before the key is used
with_window : Bytes → Bytes → (ℤ → ℤ → Action) → Action
unfolding err_not_int
with_window start stop act s = elim (parse_int_strict start) [
  | none ↦ err_not_int s
  | some a ↦ elim (parse_int_strict stop) [ none ↦ err_not_int s | some b ↦ act a b s ]
]

lrange_of : List Bytes → ℤ → ℤ → Action
unfolding list_index_range slice
lrange_of l a b s = elim (list_index_range a b (length l)) [
  | none ↦ say_empty_array s
  | some (start, stop) ↦ say_bulk_array (slice 0 start stop l) s
]

-- LRANGE
unfoldable pub cmd_lrange : Env → Args → Action
unfolding with_typed with_window lrange_of
cmd_lrange env (name ∷ key ∷ start ∷ stop ∷ rest) =
    with_typed as_list env key (with_window start stop (lrange_of []))
      (λ l x. with_window start stop (lrange_of l))
cmd_lrange env _ = λ s. fault out_of_range

-- the index of LINDEX and LSET, where it is in the list
unfoldable pub list_index : ℤ → ℕ → Option ℕ
list_index idx llen =
    let i = if is_neg idx then idx +ℤ pos llen else idx in
    if is_neg i || leb_ℤ (pos llen) i then none else some (pos_part i)

lindex_of : List Bytes → ℤ → Action
unfolding list_index
lindex_of l idx s = elim (list_index idx (length l)) [
  | none ↦ say_null s
  | some i ↦ elim (get_elem? l i) [ none ↦ fault out_of_range | some v ↦ say_bulk v s ]
]

with_int : Bytes → (ℤ → Action) → Action
unfolding err_not_int
with_int text act s = elim (parse_int_strict text) [ none ↦ err_not_int s | some n ↦ act n s ]

-- LINDEX
unfoldable pub cmd_lindex : Env → Args → Action
unfolding with_typed with_int lindex_of
cmd_lindex env (name ∷ key ∷ idx ∷ rest) =
    with_typed as_list env key (with_int idx (λ n. say_null)) (λ l x. with_int idx (lindex_of l))
cmd_lindex env _ = λ s. fault out_of_range

lset_of : Bytes → Bytes → List Bytes → ℤ → ℤ → Action
unfolding list_index assign
lset_of key val [] x idx s = say_error (codes "ERR no such key") s
lset_of key val (v ∷ l) x idx s = elim (list_index idx (length (v ∷ l))) [
  | none ↦ say_error (codes "ERR index out of range") s
  | some i ↦ say_simple (codes "OK") (assign key (list_value (set (v ∷ l) i val)) x s)
]

-- LSET
unfoldable pub cmd_lset : Env → Args → Action
unfolding with_typed with_int lset_of
cmd_lset env (name ∷ key ∷ idx ∷ val ∷ rest) =
    with_typed as_list env key (with_int idx (λ n. say_error (codes "ERR no such key")))
      (λ l x. with_int idx (lset_of key val l x))
cmd_lset env _ = λ s. fault out_of_range

ltrim_window : Bytes → List Bytes → ℤ → ℤ → ℤ → State → State
unfolding list_index_range trim delete_key assign
ltrim_window key l x a b s = elim (list_index_range a b (length l)) [
  | none ↦ (delete_key key s).1
  | some (start, stop) ↦
      let l' = trim 0 start stop l in
      let s' = assign key (list_value l') x s in elim l' [ [] ↦ (delete_key key s').1 | v ∷ r ↦ s' ]
]

ltrim_of : Bytes → List Bytes → ℤ → ℤ → ℤ → Action
unfolding ltrim_window
ltrim_of key [] x a b s = say_simple (codes "OK") s
ltrim_of key (v ∷ l) x a b s = say_simple (codes "OK") (ltrim_window key (v ∷ l) x a b s)

-- LTRIM
unfoldable pub cmd_ltrim : Env → Args → Action
unfolding with_typed with_window ltrim_of
cmd_ltrim env (name ∷ key ∷ start ∷ stop ∷ rest) =
    with_typed as_list env key (with_window start stop (λ a b. say_simple (codes "OK")))
      (λ l x. with_window start stop (ltrim_of key l x))
cmd_ltrim env _ = λ s. fault out_of_range
