-- ===== src/Zskiplist/Range.antt =====
-- What src/zskiplist.cpp reads from a skip list: ranks, ranges, counts, and the ends.
use cpp_inference_engine.Base.{
  ℕ, zero, suc, ◌+◌, ◌-◌, Bool, true, false, ◌&&◌, ◌||◌, not, Option, none, some, List, [], ◌∷◌,
  Bytes, ltb, leb, ◌==◌, if◌then◌else◌, length, take, drop, str_eq, str_lt,
}
use mathlib.Core.List.{reverse}
use cpp_inference_engine.Base.Int.{
  ℤ, pos, negsuc, ◌+ℤ◌, ◌-ℤ◌, ltb_ℤ, leb_ℤ, is_neg, is_zero, pos_part,
}
use cpp_inference_engine.Base.Double.{dlt, deq}
use cpp_inference_engine.Value.{Node, SkipList}
use cpp_inference_engine.Zskiplist.{forward_at, walk, descend, search, delete_node, at_bottom}

-- a score and a member
abbrev pub Scored : Type 0
Scored = ℕ × Bytes

abbrev pub scored : Node → Scored
scored n = (n.score, n.member)

-- the nodes at the level 0 from a pointer on: no more than the length
unfoldable pub follow : ℕ → SkipList → Option ℕ → List Node
follow zero l p = []
follow (suc f) l none = []
follow (suc f) l (some x) = l.heap x ∷ follow f l (forward_at l x 0)

unfoldable pub nodes : SkipList → List Node
unfolding follow
nodes l = follow l.length l (forward_at l l.header 0)

-- `x->score < score || (x->score == score && x->member <= member)`
abbrev pub up_to_key : ℕ → Bytes → Node → Bool
up_to_key score member n = dlt n.score score || (deq n.score score && not (str_lt member n.member))

-- the test behind the inner loop of `Rank`
abbrev pub is_target : SkipList → ℕ → Bytes → ℕ → Bool
is_target l score member x =
    not (x == l.header) && (deq (l.heap x).score score && str_eq (l.heap x).member member)

-- The loop of `Rank` over the `n` lowest levels; `none` is `SIZE_MAX`.
unfoldable pub rank_from : ℕ → Bytes → ℕ → SkipList → ℕ → ℕ → Option ℕ
unfolding walk
rank_from score member zero l x r = none
rank_from score member (suc i) l x r =
    let (y, q) = walk (up_to_key score member) l.length l i x r in
    let below = rank_from score member i l y q in
    if is_target l score member y then some (q - 1) else below

-- `Rank`
unfoldable pub rank : ℕ → Bytes → SkipList → Option ℕ
unfolding rank_from
rank score member l = rank_from score member l.level l l.header 0

-- `RevRank`
unfoldable pub rev_rank : ℕ → Bytes → SkipList → Option ℕ
unfolding rank
rev_rank score member l = elim (rank score member l) [
  | none ↦ none
  | some r ↦ if leb l.length r then none else some (l.length - 1 - r)
]

-- The loop of `RangeByRank` from the rank `r` on.
unfoldable pub window : ℕ → ℕ → ℕ → List Node → List Scored
window r start stop [] = []
window r start stop (n ∷ ns) =
    let rest = window (r + 1) start stop ns in
    if ltb stop r then [] else if leb start r then scored n ∷ rest else rest

-- the ranks of `RangeByRank` in a list of `n` nodes
unfoldable pub rank_window : ℤ → ℤ → ℕ → Option (ℕ × ℕ)
rank_window start stop n =
    let len : ℤ = pos n in
    let a = if is_neg start then len +ℤ start else start in
    let b = if is_neg stop then len +ℤ stop else stop in
    let a' = if is_neg a then pos 0 else a in
    let b' = if leb_ℤ len b then len +ℤ negsuc 0 else b in
    if n == 0
    then none
    else if leb_ℤ len a'
    then none
    else if is_neg b
    then none
    else if ltb_ℤ b' a'
    then none
    else some (pos_part a', pos_part b')

-- `RangeByRank`
unfoldable pub range_by_rank : ℤ → ℤ → Bool → SkipList → List Scored
unfolding rank_window window nodes
range_by_rank start stop rev l = elim (rank_window start stop l.length) [
  | none ↦ []
  | some (a, b) ↦
      if rev
      then reverse (window 0 (l.length - 1 - b) (l.length - 1 - a) (nodes l))
      else window 0 a b (nodes l)
]

pub record ScoreRange : Type 0 where
  pub min : ℕ
  pub max : ℕ
  pub min_exclusive : Bool
  pub max_exclusive : Bool

-- a >= b and a > b on doubles
abbrev pub dle : ℕ → ℕ → Bool
dle a b = dlt a b || deq a b

-- `r.min_exclusive ? v <= r.min : v < r.min`, and the test at the other end
abbrev pub below_min : ScoreRange → ℕ → Bool
below_min r v = if r.min_exclusive then dle v r.min else dlt v r.min

abbrev pub above_max : ScoreRange → ℕ → Bool
above_max r v = if r.max_exclusive then dle r.max v else dlt r.max v

-- The loop of the ascending `RangeByScore`: `skip` elements are still to be skipped, and `room` is what
-- LIMIT leaves, where there is a limit.
unfoldable pub take_range : ScoreRange → ℕ → Option ℕ → List Node → List Scored
take_range r skip room [] = []
take_range r skip room (n ∷ ns) = elim (below_min r n.score) [
  | true ↦ take_range r skip room ns
  | false ↦ elim (above_max r n.score) [
    | true ↦ []
    | false ↦ elim skip [
      | suc k ↦ take_range r k room ns
      | zero ↦ scored n ∷ (elim room [
        | none ↦ take_range r zero none ns
        | some left ↦ if leb left 1 then [] else take_range r zero (some (left - 1)) ns
      ])
    ]
  ]
]

-- the nodes from the first that is not below the minimum
unfoldable pub skip_ties : ℕ → List Node → List Node
skip_ties v [] = []
skip_ties v (n ∷ ns) = let rest = skip_ties v ns in if deq n.score v then rest else n ∷ ns

unfoldable pub from_min : ScoreRange → SkipList → List Node
unfolding descend follow skip_ties
from_min r l =
    let (x, q) = at_bottom l (descend (λ n. dlt n.score r.min) l.level l l.header 0) in
    let cur = follow l.length l (forward_at l x 0) in
    if r.min_exclusive then skip_ties r.min cur else cur

-- the loop of the descending `RangeByScore`
unfoldable pub in_range : ScoreRange → List Node → List Scored
in_range r [] = []
in_range r (n ∷ ns) =
    let rest = in_range r ns in
    if below_min r n.score || above_max r n.score then rest else scored n ∷ rest

-- The window of the descending order; `none` is an iterator in front of the beginning.
unfoldable pub rev_window : ℤ → ℤ → List Scored → Option (List Scored)
rev_window offset count asc =
    let total : ℤ = pos (length asc) in
    let end = total -ℤ offset in
    let start = if ltb_ℤ (pos 0) count then end -ℤ count else pos 0 in
    let from = if is_neg start then 0 else pos_part start in
    if leb_ℤ end (pos 0)
    then some []
    else if ltb_ℤ total end
    then none
    else some (reverse (drop from (take (pos_part end) asc)))

-- `RangeByScore`
unfoldable pub range_by_score : ScoreRange → Bool → ℤ → ℤ → SkipList → Option (List Scored)
unfolding take_range from_min in_range rev_window nodes
range_by_score r rev offset count l =
    if is_zero count
    then some []
    else if rev
    then rev_window offset count (in_range r (nodes l))
    else some (
        take_range r (pos_part offset) (if is_neg count then none else some (pos_part count))
          (from_min r l))

-- `CountInRange`
unfoldable pub count_in_range : ScoreRange → List Node → ℕ
count_in_range r [] = 0
count_in_range r (n ∷ ns) =
    let rest = count_in_range r ns in
    if below_min r n.score then rest else if above_max r n.score then 0 else suc rest

-- `ScoreOf`
unfoldable pub score_of : Bytes → List Node → ℕ
score_of member [] = 0
score_of member (n ∷ ns) =
    let rest = score_of member ns in if str_eq n.member member then n.score else rest

-- `PopMin`
unfoldable pub pop_min : SkipList → Option (Scored × SkipList)
unfolding search delete_node
pop_min l = elim (forward_at l l.header 0) [
  | none ↦ none
  | some x ↦ let n = l.heap x in some (scored n, delete_node x (search n.score n.member l) l)
]

-- `PopMax`: the walk to the last node
unfoldable pub pop_max : SkipList → Option (Scored × SkipList)
unfolding descend search delete_node
pop_max l =
    let (x, q) = at_bottom l (descend (λ n. true) l.level l l.header 0) in
    let n = l.heap x in
    if x == l.header then none else some (scored n, delete_node x (search n.score n.member l) l)
