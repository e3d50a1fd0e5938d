-- ===== src/Zskiplist.antt =====
-- src/zskiplist.cpp and include/zskiplist.h: a skip list of nodes on a heap. A position behind the end
-- of `forward` reads as the null pointer, and of `span` as 0; `span` is an unsigned long.
pub mod Range
pub mod Order
pub mod Chain
pub mod Search
pub mod Lookup
pub mod Frame
pub mod Splice
pub mod Path
pub mod Place
pub mod Linked
pub mod Assemble
pub mod Stored
pub mod Grown
pub mod Inserted
use cpp_inference_engine.Base.{
  ℕ, zero, suc, ◌+◌, ◌-◌, ◌%◌, ◌^◌, Bool, true, false, ◌&&◌, ◌||◌, not, Option, none, some, List,
  [], ◌∷◌, ◌++◌, Bytes, ltb, leb, ◌==◌, if◌then◌else◌, length, get_or, set, take, drop, replicate,
  str_eq, str_lt,
}
use cpp_inference_engine.Base.Double.{dlt, deq}
use cpp_inference_engine.Value.{Node, SkipList}

abbrev pub max_level : ℕ
max_level = 32

abbrev pub fresh_node : ℕ → Bytes → ℕ → Node
fresh_node score member level = record {
  score = score;
  member = member;
  forward = replicate level none;
  span = replicate level 0;
}

-- `SkipList::SkipList`
abbrev pub empty_list : SkipList
empty_list = record {
  heap = λ p. fresh_node 0 [] max_level;
  next_free = 1;
  header = 0;
  level = 1;
  length = 0;
}

-- `x->forward[i]` and `x->span[i]`
abbrev pub forward_at : SkipList → ℕ → ℕ → Option ℕ
forward_at l x i = get_or (l.heap x).forward i none

abbrev pub span_at : SkipList → ℕ → ℕ → ℕ
span_at l x i = get_or (l.heap x).span i 0

-- a write to the node at `x`
abbrev pub put_node : SkipList → ℕ → Node → SkipList
put_node l x n = record l { heap = λ p. if p == x then n else l.heap p }

-- one field of one node at one level
unfoldable pub link : ℕ → ℕ → Option ℕ → ℕ → SkipList → SkipList
link x i next width l =
    let n = l.heap x in
    put_node l x (record n { forward = set n.forward i next; span = set n.span i width })

abbrev pub add64 : ℕ → ℕ → ℕ
add64 a b = (a + b) % 2 ^ 64

abbrev pub sub64 : ℕ → ℕ → ℕ
sub64 a b = (a + (2 ^ 64 - b)) % 2 ^ 64

-- the loop of `RandomLevel`: `flips n` says whether the n-th number of `random()` is below a quarter
unfoldable pub climb : ℕ → (ℕ → Bool) → ℕ → ℕ
climb zero flips level = level
climb (suc n) flips level = let up = climb n flips (level + 1) in if flips level then up else level

-- `RandomLevel`
unfoldable pub random_level : (ℕ → Bool) → ℕ
unfolding climb
random_level flips = climb 31 flips 1

-- `KeyLess` and `KeyEqual`
unfoldable pub key_less : ℕ → Bytes → ℕ → Bytes → Bool
key_less s₁ m₁ s₂ m₂ = if deq s₁ s₂ then str_lt m₁ m₂ else dlt s₁ s₂

unfoldable pub key_equal : ℕ → Bytes → ℕ → Bytes → Bool
key_equal s₁ m₁ s₂ m₂ = deq s₁ s₂ && str_eq m₁ m₂

-- The inner loop: from the node `x` with the rank `r` to the last node that `go` lets pass. There are
-- no more rounds than nodes.
unfoldable pub walk : (Node → Bool) → ℕ → SkipList → ℕ → ℕ → ℕ → ℕ × ℕ
walk go zero l i x r = (x, r)
walk go (suc f) l i x r = elim (forward_at l x i) [
  | none ↦ (x, r)
  | some y ↦
      let next = walk go f l i y (add64 r (span_at l x i)) in if go (l.heap y) then next else (x, r)
]

-- The outer loop over the `n` lowest levels: `update` and `rank`, from the level 0 on.
unfoldable pub descend : (Node → Bool) → ℕ → SkipList → ℕ → ℕ → List (ℕ × ℕ)
unfolding walk
descend go zero l x r = []
descend go (suc i) l x r =
    let (y, q) = walk go l.length l i x r in descend go i l y q ++ (y, q) ∷ []

abbrev pub before_key : ℕ → Bytes → Node → Bool
before_key score member n = key_less n.score n.member score member

unfoldable pub search : ℕ → Bytes → SkipList → List (ℕ × ℕ)
unfolding descend key_less
search score member l = descend (before_key score member) l.level l l.header 0

-- `x` behind the loops, and `rank[0]`
abbrev pub at_bottom : SkipList → List (ℕ × ℕ) → ℕ × ℕ
at_bottom l [] = (l.header, 0)
at_bottom l (u ∷ path) = u

-- `x->forward[0]`, where it has the key
unfoldable pub candidate : ℕ → Bytes → SkipList → List (ℕ × ℕ) → Option ℕ
unfolding key_equal
candidate score member l path = elim (forward_at l (at_bottom l path).0 0) [
  | none ↦ none
  | some c ↦ if key_equal (l.heap c).score (l.heap c).member score member then some c else none
]

-- `FindNode`
unfoldable pub find_node : ℕ → Bytes → SkipList → Option ℕ × List (ℕ × ℕ)
unfolding search candidate
find_node score member l = let path = search score member l in (candidate score member l path, path)

-- `Contains`
unfoldable pub contains : ℕ → Bytes → SkipList → Bool
unfolding find_node
contains score member l = elim (find_node score member l).0 [ none ↦ false | some c ↦ true ]

-- The header gets the levels from `i` on: their spans are the length.
unfoldable pub raise : ℕ → ℕ → SkipList → SkipList
unfolding link
raise zero i l = l
raise (suc n) i l = raise n (i + 1) (link l.header i (forward_at l l.header i) l.length l)

-- The loop that links the node: `r₀` is `rank[0]`.
unfoldable pub splice : ℕ → ℕ → ℕ → List (ℕ × ℕ) → SkipList → SkipList
unfolding link
splice node r₀ i [] l = l
splice node r₀ i ((u, r) ∷ path) l =
    let l' = link node i (forward_at l u i) (sub64 (span_at l u i) (sub64 r₀ r)) l in
    splice node r₀ (i + 1) path (link u i (some node) (add64 (sub64 r₀ r) 1) l')

-- The levels above the node: their spans grow.
unfoldable pub widen : ℕ → List (ℕ × ℕ) → SkipList → SkipList
unfolding link
widen i [] l = l
widen i ((u, r) ∷ path) l =
    widen (i + 1) path (link u i (forward_at l u i) (add64 (span_at l u i) 1) l)

-- a new node of the given level, behind the path
unfoldable pub insert_at_path : ℕ → Bytes → ℕ → List (ℕ × ℕ) → SkipList → SkipList
unfolding raise splice widen
insert_at_path score member level path l =
    let raised = record (raise (level - l.level) l.level l) {
      level = if ltb l.level level then level else l.level;
    } in
    let all = path ++ replicate (level - l.level) (l.header, 0) in
    let node = raised.next_free in
    let allocated = record (put_node raised node (fresh_node score member level)) {
      next_free = node + 1;
    } in
    let r₀ = (at_bottom l path).1 in
    let l' = widen level (drop level all) (splice node r₀ 0 (take level all) allocated) in
    record l' { length = l'.length + 1 }

-- `Insert`
unfoldable pub insert : (ℕ → Bool) → ℕ → Bytes → SkipList → Bool × SkipList
unfolding search candidate random_level insert_at_path
insert flips score member l =
    let path = search score member l in
    elim (candidate score member l path) [
      | some c ↦ (false, put_node l c (record (l.heap c) { score = score }))
      | none ↦ (true, insert_at_path score member (random_level flips) path l)
    ]

-- The loop of `DeleteNode`.
unsplice : ℕ → ℕ → List (ℕ × ℕ) → SkipList → SkipList
unfolding link
unsplice x i [] l = l
unsplice x i ((u, r) ∷ path) l =
    let is_next : Bool = elim (forward_at l u i) [ none ↦ false | some y ↦ y == x ] in
    let width : ℕ = elim (forward_at l x i) [
      | none ↦ 0
      | some y ↦ add64 (span_at l u i) (sub64 (span_at l x i) 1)
    ] in
    unsplice x (i + 1) path (
      if is_next
      then link u i (forward_at l x i) width l
      else link u i (forward_at l u i) (sub64 (span_at l u i) 1) l)

-- the levels that are left, of `n + 1`
lower : SkipList → ℕ → ℕ
lower l zero = 1
lower l (suc n) =
    let rest = lower l n in
    elim (forward_at l l.header (suc n)) [ none ↦ rest | some y ↦ suc (suc n) ]

-- `DeleteNode`; the memory of the node is given back
unfoldable pub delete_node : ℕ → List (ℕ × ℕ) → SkipList → SkipList
unfolding unsplice lower
delete_node x path l =
    let l' = unsplice x 0 path l in
    put_node (record l' { level = lower l' (l'.level - 1); length = l'.length - 1 }) x
      (fresh_node 0 [] 0)

-- `Erase`
unfoldable pub erase : ℕ → Bytes → SkipList → Bool × SkipList
unfolding find_node delete_node
erase score member l =
    let (found, path) = find_node score member l in
    elim found [ none ↦ (false, l) | some x ↦ (true, delete_node x path l) ]
