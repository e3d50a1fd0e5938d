-- ===== src/Zskiplist/Lookup.antt =====
-- What a search of src/zskiplist.cpp finds, on a sorted chain.
use cpp_inference_engine.Base.{
  ℕ, zero, suc, ◌-◌, ◌≤◌, ◌≡◌, ap, subst, refl, Bool, true, false, ◌||◌, arith, Option, none, some,
  List, [], ◌∷◌, Bytes, length, Bool-cases, inl, inr, All, map,
}
use cpp_inference_engine.Value.{Node, SkipList}
use cpp_inference_engine.Zskiplist.{
  forward_at, before_key, key_less, key_equal, search, at_bottom, candidate, find_node, contains,
  descend,
}
use cpp_inference_engine.Zskiplist.Range.{follow, nodes}
use cpp_inference_engine.Zskiplist.Order.{key_less_trans, key_less-key_equal, key_less-through}
use cpp_inference_engine.Zskiplist.Chain.{Chained, cut, Falls}
use cpp_inference_engine.Zskiplist.Search.{Chained-end, descend-Chained}

-- the order of two nodes
abbrev pub node_less : Node → Node → Bool
node_less a b = key_less a.score a.member b.score b.member

abbrev pub IsSorted : SkipList → List ℕ → Type 0
IsSorted l [] = Unit
IsSorted l (x ∷ r) = All (λ y. node_less (l.heap x) (l.heap y) ≡ true) r × IsSorted l r

-- A skip list whose nodes are at the addresses `xs`, in ascending order.
pub record IsList (l : SkipList) (xs : List ℕ) : Type 0 where
  pub chained : Chained l l.header xs
  pub sorted : IsSorted l xs
  pub size : l.length ≡ length xs
  pub levels : 1 ≤ l.level

-- one of the nodes has the key
unfoldable pub has_key : ℕ → Bytes → List Node → Bool
has_key s m [] = false
has_key s m (n ∷ ns) = key_equal n.score n.member s m || has_key s m ns

module _ (s : ℕ) (m : Bytes) (l : SkipList) where
  above :
      (x : Node) (r : List ℕ)
      → before_key s m x ≡ false
      → All (λ y. node_less x (l.heap y) ≡ true) r
      → All (λ y. before_key s m (l.heap y) ≡ false) r
  above x [] h a = tt
  above x (y ∷ r) h (xy, a) =
      let n = l.heap y in
      (
        elim (Bool-cases (before_key s m n)) [
          | inr p ↦ p
          | inl p ↦
              absurd (ground (arith, h, key_less_trans x.score x.member n.score n.member s m xy p))
        ],
        above x r h a,
      )

  pub IsSorted-Falls : (r : List ℕ) → IsSorted l r → Falls (before_key s m) l r
  IsSorted-Falls [] o = tt
  IsSorted-Falls (x ∷ r) (a, o) = (λ h. above (l.heap x) r h a, IsSorted-Falls r o)

  -- no node behind one that is not less has the key
  missed :
      (x : Node) (r : List ℕ)
      → before_key s m x ≡ false
      → All (λ y. node_less x (l.heap y) ≡ true) r
      → has_key s m (map l.heap r) ≡ false
  unfolding has_key
  missed x [] h a = refl
  missed x (y ∷ r) h (xy, a) =
      let n = l.heap y in
      ground (arith, h, missed x r h a, key_less-through x.score x.member n.score n.member s m xy)

  -- the head of what is behind the search
  abbrev head_of : List ℕ → Option ℕ
  head_of [] = none
  head_of (x ∷ r) = some x

  has_key-cut :
      (r : List ℕ)
      → IsSorted l r
      → has_key s m (map l.heap r) ≡ (elim (head_of (cut (before_key s m) l r)) [
        | none ↦ false
        | some c ↦ key_equal (l.heap c).score (l.heap c).member s m
      ])
  unfolding has_key
  has_key-cut [] o = refl
  has_key-cut (x ∷ r) (a, o) =
      let n = l.heap x in
      elim (Bool-cases (before_key s m n)) [
        | inl p ↦ rw (p, key_less-key_equal n.score n.member s m p) (has_key-cut r o)
        | inr p ↦ rw (p, missed n r p a) (ground arith)
      ]

  forward-Chained : (x : ℕ) (r : List ℕ) → Chained l x r → forward_at l x 0 ≡ head_of r
  forward-Chained x [] c = Chained-end l x c
  forward-Chained x (y ∷ r) (e, a, c) = e

pub follow-Chained :
    (l : SkipList) (f x : ℕ) (r : List ℕ)
    → Chained l x r
    → length r ≤ f
    → follow f l (forward_at l x 0) ≡ map l.heap r
unfolding follow
follow-Chained l zero x [] c n = refl
follow-Chained l zero x (y ∷ r) c n = absurd (omega (arith, n))
follow-Chained l (suc f) x [] c n = rw (Chained-end l x c) refl
follow-Chained l (suc f) x (y ∷ r) (e, a, c) n =
    rw e (ap (λ ns. l.heap y ∷ ns) (follow-Chained l f y r c (omega arith)))

pub nodes-IsList : (l : SkipList) (xs : List ℕ) → IsList l xs → nodes l ≡ map l.heap xs
unfolding nodes
nodes-IsList l xs w = follow-Chained l l.length l.header xs w.chained (omega (arith, w.size))

-- where the search ends
pub search-Chained :
    (s : ℕ) (m : Bytes) (l : SkipList) (xs : List ℕ)
    → IsList l xs
    → Chained l (at_bottom l (search s m l)).0 (cut (before_key s m) l xs)
unfolding search
search-Chained s m l xs w =
    let top : suc (l.level - 1) ≡ l.level = omega (arith, w.levels) in
    subst
      (λ n.
        Chained l (at_bottom l (descend (before_key s m) n l l.header 0)).0
          (cut (before_key s m) l xs))
      top
      (descend-Chained (before_key s m) l (l.level - 1) l.header 0 xs w.chained
        (IsSorted-Falls s m l xs w.sorted) (omega (arith, w.size)))

contains_at :
    (s : ℕ) (m : Bytes) (l : SkipList) (o : Option ℕ)
    → forward_at l (at_bottom l (search s m l)).0 0 ≡ o
    → contains s m l
      ≡ (elim o [ none ↦ false | some c ↦ key_equal (l.heap c).score (l.heap c).member s m ])
unfolding contains find_node candidate
contains_at s m l none e = rw (contains, e) refl
contains_at s m l (some c) e =
    elim (Bool-cases (key_equal (l.heap c).score (l.heap c).member s m)) [
      | inl h ↦ rw (contains, e, h) refl
      | inr h ↦ rw (contains, e, h) refl
    ]

-- On a skip list whose level 0 is a sorted chain and whose pointers of all levels lead forward in
-- it, `Contains`, which goes down from the top level, finds a key exactly when one of the nodes of
-- the level 0 has it.
pub contains-IsList :
    (s : ℕ) (m : Bytes) (l : SkipList) (xs : List ℕ)
    → IsList l xs
    → contains s m l ≡ has_key s m (nodes l)
contains-IsList s m l xs w =
    let c = search-Chained s m l xs w in
    let path = search s m l in
    let e = forward-Chained s m l (at_bottom l path).0 (cut (before_key s m) l xs) c in
    rw (nodes-IsList l xs w, has_key-cut s m l xs w.sorted)
      (contains_at s m l (head_of s m l (cut (before_key s m) l xs)) e)
