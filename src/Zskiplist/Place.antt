-- ===== src/Zskiplist/Place.antt =====
-- The chain of a skip list of src/zskiplist.cpp with a new node in its place.
use cpp_inference_engine.Base.{
  ℕ, ◌≡◌, ◌≢◌, ◌∙◌, sym, subst, refl, Bool, true, false, ◌==◌, if◌then◌else◌, arith, Option, none,
  some, List, [], ◌∷◌, Bool-cases, inl, inr, All,
}
use cpp_inference_engine.Value.{Node, SkipList}
use cpp_inference_engine.Zskiplist.{forward_at}
use cpp_inference_engine.Zskiplist.Chain.{is_in, all_land, Chained, cut, pred, Falls, same_address}

-- the addresses with `a` in front of the first node that `go` stops at
unfoldable pub place : (Node → Bool) → SkipList → ℕ → List ℕ → List ℕ
place go l a [] = a ∷ []
place go l a (x ∷ r) = let rest = place go l a r in if go (l.heap x) then x ∷ rest else a ∷ x ∷ r

abbrev pub NoRepeat : List ℕ → Type 0
NoRepeat [] = Unit
NoRepeat (x ∷ r) = (is_in x r ≡ false) × NoRepeat r

is_in-place :
    (go : Node → Bool) (l : SkipList) (a : ℕ) (r : List ℕ) → is_in a (place go l a r) ≡ true
unfolding place
is_in-place go l a [] = ground arith
is_in-place go l a (x ∷ r) = ground (arith, is_in-place go l a r)

in_place :
    (go : Node → Bool) (l : SkipList) (a y : ℕ) (r : List ℕ)
    → is_in y r ≡ true
    → is_in y (place go l a r) ≡ true
unfolding place
in_place go l a y [] h = cc
in_place go l a y (x ∷ r) h = ground (arith, h, in_place go l a y r)

all_land_mono :
    (ps : List (Option ℕ)) (s t : List ℕ)
    → ((y : ℕ) → is_in y s ≡ true → is_in y t ≡ true)
    → all_land ps s ≡ true
    → all_land ps t ≡ true
all_land_mono [] s t f h = refl
all_land_mono (none ∷ ps) s t f h = all_land_mono ps s t f (ground (arith, h))
all_land_mono (some y ∷ ps) s t f h =
    ground (arith, f y (ground (arith, h)), all_land_mono ps s t f (ground (arith, h)))

Chained-all_land :
    (l : SkipList) (x : ℕ) (r : List ℕ) → Chained l x r → all_land (l.heap x).forward r ≡ true
Chained-all_land l x [] c = c
Chained-all_land l x (y ∷ r) (e, a, c) = a

-- nodes with the same pointers
Chained-frame :
    (l l' : SkipList) (x : ℕ) (r : List ℕ)
    → ((y : ℕ) → is_in y (x ∷ r) ≡ true → (l'.heap y).forward ≡ (l.heap y).forward)
    → Chained l x r
    → Chained l' x r
Chained-frame l l' x [] f c = rw (f x (ground arith)) c
Chained-frame l l' x (y ∷ r) f (e, a, c) =
    let same = f x (ground arith) in
    (rw same e, rw same a, Chained-frame l l' y r (λ z m. f z (ground (arith, m))) c)

-- What an insertion has done to the pointers.
pub record Inserted (go : Node → Bool) (l : SkipList) (a h : ℕ) (xs : List ℕ) (l' : SkipList)
    : Type 0 where
  pub grows :
      (y : ℕ) (s : List ℕ)
      → y ≢ a
      → is_in a s ≡ true
      → all_land (l.heap y).forward s ≡ true
      → all_land (l'.heap y).forward s ≡ true
  pub untouched :
      (y : ℕ) → y ≢ a → y ≢ h → go (l.heap y) ≡ false → (l'.heap y).forward ≡ (l.heap y).forward
  pub node : all_land (l'.heap a).forward (cut go l xs) ≡ true
  pub pred_next : forward_at l' (pred go l h xs) 0 ≡ some a
  pub node_next : forward_at l' a 0 ≡ forward_at l (pred go l h xs) 0
  pub other : (y : ℕ) → y ≢ a → y ≢ pred go l h xs → forward_at l' y 0 ≡ forward_at l y 0

pub is_in-pred :
    (go : Node → Bool) (l : SkipList) (x : ℕ) (r : List ℕ) → is_in (pred go l x r) (x ∷ r) ≡ true
unfolding pred
is_in-pred go l x [] = ground arith
is_in-pred go l x (y ∷ r) = ground (arith, is_in-pred go l y r)

differs : (x y : ℕ) (r : List ℕ) → is_in x r ≡ false → is_in y r ≡ true → x ≢ y
differs x y r h m e = ground (arith, m, subst (λ z. is_in z r ≡ false) e h)

module _ (go : Node → Bool) (l l' : SkipList) (a h : ℕ) (xs : List ℕ)
    (ins : Inserted go l a h xs l') where
  -- the nodes that `go` stops at
  after_node :
      (y : ℕ) (r : List ℕ)
      → is_in a (y ∷ r) ≡ false
      → is_in h (y ∷ r) ≡ false
      → All (λ z. go (l.heap z) ≡ false) (y ∷ r)
      → Chained l y r
      → Chained l' y r
  after_node y r na nh stops c =
      Chained-frame l l' y r
        (λ z m.
          ins.untouched z (λ e. differs a z (y ∷ r) na m (sym e))
            (λ e. differs h z (y ∷ r) nh m (sym e)) (stopped z (y ∷ r) stops m))
        c
    where
      stopped :
          (z : ℕ) (s : List ℕ)
          → All (λ z. go (l.heap z) ≡ false) s
          → is_in z s ≡ true
          → go (l.heap z) ≡ false
      stopped z [] q m = cc
      stopped z (w ∷ s) (g, q) m = elim (Bool-cases (w == z)) [
        | inl e ↦ subst (λ v. go (l.heap v) ≡ false) (same_address w z e) g
        | inr e ↦ stopped z s q (ground (arith, m, e))
      ]

  pub place-Chained :
      (x : ℕ) (r : List ℕ)
      → Chained l x r
      → Falls go l r
      → is_in a (x ∷ r) ≡ false
      → is_in h r ≡ false
      → NoRepeat (x ∷ r)
      → cut go l r ≡ cut go l xs
      → pred go l x r ≡ pred go l h xs
      → Chained l' x (place go l a r)
  unfolding place pred
  place-Chained x [] c f na nh d same p = (
    rw p ins.pred_next,
    ins.grows x (a ∷ []) (λ e. ground (arith, na, e)) (ground arith)
        (all_land_mono (l.heap x).forward [] (a ∷ []) (λ y m. cc) c),
    rw same ins.node,
  )
  place-Chained x (y ∷ r) (e, q, c) (fh, f) na nh (dx, d) same p =
      let x_a : x ≢ a = (λ i. ground (arith, na, i)) in
      let later = λ (z : ℕ) (m : is_in z (y ∷ r) ≡ true). in_place go l a z (y ∷ r) m in
      let pointers =
        ins.grows x (place go l a (y ∷ r)) x_a (is_in-place go l a (y ∷ r))
          (all_land_mono (l.heap x).forward (y ∷ r) (place go l a (y ∷ r)) later q) in
      elim (Bool-cases (go (l.heap y))) [
        | inr g ↦
            let x_is : x ≡ pred go l h xs = ground (arith, p, g) in
            let stop : y ∷ r ≡ cut go l xs = ground (arith, same, g) in
            let shown : place go l a (y ∷ r) ≡ a ∷ y ∷ r = rw g refl in
            subst (λ t. Chained l' x t) (sym shown)
              (
                subst (λ z. forward_at l' z 0 ≡ some a) (sym x_is) ins.pred_next,
                subst (λ t. all_land (l'.heap x).forward t ≡ true) shown pointers,
                (
                  ins.node_next ∙ subst (λ z. forward_at l z 0 ≡ some y) x_is e,
                  subst (λ t. all_land (l'.heap a).forward t ≡ true) (sym stop) ins.node,
                  after_node y r (ground (arith, na)) nh (g, fh g) c,
                ),
              )
        | inl g ↦
            let p' : pred go l y r ≡ pred go l h xs = ground (arith, p, g) in
            let same' : cut go l r ≡ cut go l xs = ground (arith, same, g) in
            let shown : place go l a (y ∷ r) ≡ y ∷ place go l a r = rw g refl in
            let x_p : x ≢ pred go l h xs =
              subst (λ z. x ≢ z) p' (differs x (pred go l y r) (y ∷ r) dx (is_in-pred go l y r)) in
            subst (λ t. Chained l' x t) (sym shown)
              (
                ins.other x x_a x_p ∙ e,
                subst (λ t. all_land (l'.heap x).forward t ≡ true) shown pointers,
                place-Chained y r c f (ground (arith, na)) (ground (arith, nh)) d same' p',
              )
      ]
