-- ===== src/Zskiplist/Chain.antt =====
-- The nodes of a skip list as a list of addresses, and where the walks of src/zskiplist.cpp end in it.
use cpp_inference_engine.Base.{
  ℕ, subst, zero, suc, ◌≤◌, ◌≡◌, sym, refl, Bool, true, false, ◌&&◌, ◌||◌, arith, Option, none,
  some, List, [], ◌∷◌, ◌==◌, if◌then◌else◌, length, get_or, Bool-cases, inl, inr, All,
}
use cpp_inference_engine.Value.{Node, SkipList}
use cpp_inference_engine.Zskiplist.{forward_at}

abbrev pub is_in : ℕ → List ℕ → Bool
is_in y [] = false
is_in y (z ∷ r) = (z == y) || is_in y r

-- what is behind the first `y`
abbrev pub behind : ℕ → List ℕ → List ℕ
behind y [] = []
behind y (z ∷ r) = if z == y then r else behind y r

-- a pointer that is null or leads to a node of the list
abbrev pub lands : List ℕ → Option ℕ → Bool
lands r none = true
lands r (some y) = is_in y r

abbrev pub all_land : List (Option ℕ) → List ℕ → Bool
all_land [] r = true
all_land (p ∷ ps) r = lands r p && all_land ps r

-- From the node `x` the level 0 leads to each node of the list in turn, and the pointers of all levels
-- lead to nodes that come later.
abbrev pub Chained : SkipList → ℕ → List ℕ → Type 0
Chained l x [] = all_land (l.heap x).forward [] ≡ true
Chained l x (y ∷ r) =
    (forward_at l x 0 ≡ some y) × (all_land (l.heap x).forward (y ∷ r) ≡ true) × Chained l y r

-- behind the first nodes that `go` lets pass
abbrev pub cut : (Node → Bool) → SkipList → List ℕ → List ℕ
cut go l [] = []
cut go l (x ∷ r) = if go (l.heap x) then cut go l r else x ∷ r

-- the last node that `go` lets pass in front of them, or `x`
unfoldable pub pred : (Node → Bool) → SkipList → ℕ → List ℕ → ℕ
pred go l x [] = x
pred go l x (y ∷ r) = let rest = pred go l y r in if go (l.heap y) then rest else x

-- `go` lets no node pass behind one that it stops at.
abbrev pub Falls : (Node → Bool) → SkipList → List ℕ → Type 0
Falls go l [] = Unit
Falls go l (x ∷ r) = (go (l.heap x) ≡ false → All (λ y. go (l.heap y) ≡ false) r) × Falls go l r

pub same_address : (z y : ℕ) → (z == y) ≡ true → z ≡ y
same_address z y h = ground (arith, h)

pub length-behind : (y : ℕ) (r : List ℕ) → length (behind y r) ≤ length r
length-behind y [] = omega arith
length-behind y (z ∷ r) = ground (arith, length-behind y r)

pub Chained-behind :
    (l : SkipList) (x y : ℕ) (r : List ℕ)
    → Chained l x r
    → is_in y r ≡ true
    → Chained l y (behind y r)
Chained-behind l x y [] c h = cc
Chained-behind l x y (z ∷ r) (e, a, c) h = elim (Bool-cases (z == y)) [
  | inl s ↦ rw s (subst (λ w. Chained l w r) (same_address z y s) c)
  | inr s ↦ rw s (Chained-behind l z y r c (ground (arith, h, s)))
]

all_land-get_or :
    (ps : List (Option ℕ)) (r : List ℕ) (i y : ℕ)
    → all_land ps r ≡ true
    → get_or ps i none ≡ some y
    → is_in y r ≡ true
all_land-get_or [] r i y a e = cc
all_land-get_or (none ∷ ps) r zero y a e = cc
all_land-get_or (some z ∷ ps) r zero y a e = ground (arith, a, e)
all_land-get_or (p ∷ ps) r (suc i) y a e = all_land-get_or ps r i y (ground (arith, a)) e

pub Chained-is_in :
    (l : SkipList) (x i y : ℕ) (r : List ℕ)
    → Chained l x r
    → forward_at l x i ≡ some y
    → is_in y r ≡ true
Chained-is_in l x i y [] c e = all_land-get_or (l.heap x).forward [] i y c e
Chained-is_in l x i y (z ∷ r) (f, a, c) e = all_land-get_or (l.heap x).forward (z ∷ r) i y a e

module _ (go : Node → Bool) (l : SkipList) where
  pub Falls-behind : (y : ℕ) (r : List ℕ) → Falls go l r → Falls go l (behind y r)
  Falls-behind y [] f = f
  Falls-behind y (z ∷ r) (h, f) = elim (Bool-cases (z == y)) [
    | inl s ↦ rw s f
    | inr s ↦ rw s (Falls-behind y r f)
  ]

  pub stopped :
      (y : ℕ) (r : List ℕ)
      → All (λ z. go (l.heap z) ≡ false) r
      → is_in y r ≡ true
      → go (l.heap y) ≡ false
  stopped y [] a h = cc
  stopped y (z ∷ r) (g, a) h = elim (Bool-cases (z == y)) [
    | inl s ↦ subst (λ w. go (l.heap w) ≡ false) (same_address z y s) g
    | inr s ↦ stopped y r a (ground (arith, h, s))
  ]

  pub cut-behind :
      (y : ℕ) (r : List ℕ)
      → Falls go l r
      → is_in y r ≡ true
      → go (l.heap y) ≡ true
      → cut go l r ≡ cut go l (behind y r)
  cut-behind y [] f h g = refl
  cut-behind y (z ∷ r) (h, f) i g = elim (Bool-cases (z == y)) [
    | inl s ↦ rw (s, subst (λ w. go (l.heap w) ≡ true) (sym (same_address z y s)) g) refl
    | inr s ↦
        let inside : is_in y r ≡ true = ground (arith, i, s) in
        elim (Bool-cases (go (l.heap z))) [
          | inl p ↦ rw (s, p) (cut-behind y r f inside g)
          | inr p ↦ absurd (ground (arith, g, stopped y r (h p) inside))
        ]
  ]

  pub pred-behind :
      (x y : ℕ) (r : List ℕ)
      → Falls go l r
      → is_in y r ≡ true
      → go (l.heap y) ≡ true
      → pred go l x r ≡ pred go l y (behind y r)
  unfolding pred
  pred-behind x y [] f i g = cc
  pred-behind x y (z ∷ r) (h, f) i g = elim (Bool-cases (z == y)) [
    | inl s ↦
        let e = same_address z y s in
        rw (s, subst (λ w. go (l.heap w) ≡ true) (sym e) g)
          (subst (λ w. pred go l z r ≡ pred go l w r) e refl)
    | inr s ↦
        let inside : is_in y r ≡ true = ground (arith, i, s) in
        elim (Bool-cases (go (l.heap z))) [
          | inl p ↦ rw (s, p) (pred-behind z y r f inside g)
          | inr p ↦ absurd (ground (arith, g, stopped y r (h p) inside))
        ]
  ]
