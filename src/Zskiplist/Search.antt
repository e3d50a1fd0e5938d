-- ===== src/Zskiplist/Search.antt =====
-- The search of src/zskiplist.cpp ends in front of the first node that is not less, on every chain.
use cpp_inference_engine.Base.{
  ℕ, zero, suc, ◌≤◌, ◌<◌, ◌≡◌, ◌⊎◌, ◌∙◌, sym, ap, subst, refl, Bool, true, false, arith, Option,
  none, some, List, [], ◌∷◌, ◌++◌, ◌==◌, if◌then◌else◌, length, Bool-cases, inl, inr,
}
use cpp_inference_engine.Value.{Node, SkipList}
use cpp_inference_engine.Zskiplist.{forward_at, span_at, add64, walk, descend, at_bottom}
use cpp_inference_engine.Zskiplist.Chain.{
  is_in, behind, lands, same_address, Chained, cut, pred, pred-behind, Falls, length-behind,
  Chained-behind, Chained-is_in, Falls-behind, cut-behind,
}

pub Chained-end : (l : SkipList) (x : ℕ) → Chained l x [] → forward_at l x 0 ≡ none
Chained-end l x c = look (forward_at l x 0) refl
  where
    look : (o : Option ℕ) → forward_at l x 0 ≡ o → o ≡ none
    look none e = refl
    look (some y) e = absurd (ground (arith, Chained-is_in l x 0 y [] c e))

-- The node is `x`, or one of the list that `go` lets pass.
abbrev pub Passed : (Node → Bool) → SkipList → ℕ → List ℕ → ℕ → Type 0
Passed go l x r y = (y ≡ x) ⊎ ((is_in y r ≡ true) × (go (l.heap y) ≡ true))

-- Where a walk of `f` rounds at the level `i` stands: at `y`, in front of `rest`.
pub record Standing (go : Node → Bool) (l : SkipList) (f i x : ℕ) (r : List ℕ) (y : ℕ)
    : Type 0 where
  pub rest : List ℕ
  pub chained : Chained l y rest
  pub falls : Falls go l rest
  pub same : cut go l r ≡ cut go l rest
  pub last : pred go l x r ≡ pred go l y rest
  pub shorter : length rest ≤ length r
  pub inside : (z : ℕ) → is_in z rest ≡ true → is_in z r ≡ true
  pub passed : Passed go l x r y
  pub stops : length r ≤ f → lands (cut go l r) (forward_at l y i) ≡ true

is_in-behind : (z y : ℕ) (r : List ℕ) → is_in z (behind y r) ≡ true → is_in z r ≡ true
is_in-behind z y [] h = h
is_in-behind z y (x ∷ r) h = ground (arith, h, is_in-behind z y r)

behind-shorter : (y : ℕ) (r : List ℕ) → is_in y r ≡ true → length (behind y r) < length r
behind-shorter y [] h = cc
behind-shorter y (x ∷ r) h = ground (arith, h, behind-shorter y r)

module _ (go : Node → Bool) (l : SkipList) where
  is_in-cut :
      (y : ℕ) (r : List ℕ) → is_in y r ≡ true → go (l.heap y) ≡ false → is_in y (cut go l r) ≡ true
  is_in-cut y [] h g = h
  is_in-cut y (x ∷ r) h g = elim (Bool-cases (go (l.heap x))) [
    | inr p ↦ rw p h
    | inl p ↦ elim (Bool-cases (x == y)) [
      | inl e ↦
          absurd
            (ground (arith, p, subst (λ w. go (l.heap w) ≡ false) (sym (same_address x y e)) g))
      | inr e ↦ rw p (is_in-cut y r (ground (arith, h, e)) g)
    ]
  ]

  nothing_left :
      (f i x : ℕ) (r : List ℕ)
      → Chained l x r
      → length r ≤ 0
      → lands (cut go l r) (forward_at l x i) ≡ true
  nothing_left f i x (y ∷ r) c n = absurd (omega (arith, n))
  nothing_left f i x [] c n = look (forward_at l x i) refl
    where
      look : (o : Option ℕ) → forward_at l x i ≡ o → lands [] o ≡ true
      look none e = refl
      look (some y) e = Chained-is_in l x i y [] c e

  pub walk_lem :
      (f i x q : ℕ) (r : List ℕ)
      → Chained l x r
      → Falls go l r
      → Standing go l f i x r (walk go f l i x q).0
  unfolding walk
  walk_lem zero i x q r c h = record {
    rest = r;
    chained = c;
    falls = h;
    same = refl;
    last = refl;
    shorter = omega arith;
    inside = λ z m. m;
    passed = inl refl;
    stops = nothing_left zero i x r c;
  }
  walk_lem (suc f) i x q r c h =
      look (λ y p a b. walk_lem f i y p (behind y r) a b) (forward_at l x i) refl
    where
      stay : lands (cut go l r) (forward_at l x i) ≡ true → Standing go l (suc f) i x r x
      stay t = record {
        rest = r;
        chained = c;
        falls = h;
        same = refl;
        last = refl;
        shorter = omega arith;
        inside = λ z m. m;
        passed = inl refl;
        stops = λ n. t;
      }

      look :
          ((y p : ℕ)
            → Chained l y (behind y r)
            → Falls go l (behind y r)
            → Standing go l f i y (behind y r) (walk go f l i y p).0)
          → (o : Option ℕ) → forward_at l x i ≡ o
          → Standing go l (suc f) i x r (
              (elim o as (λ _. ℕ × ℕ) [
                | none ↦ (x, q)
                | some y ↦
                    let next = walk go f l i y (add64 q (span_at l x i)) in
                    if go (l.heap y) then next else (x, q)
              ]).0)
      look step none e = stay (rw e refl)
      look step (some y) e =
          let m = Chained-is_in l x i y r c e in
          elim (Bool-cases (go (l.heap y))) [
            | inr p ↦ rw p (stay (rw e (is_in-cut y r m p)))
            | inl p ↦
                let s =
                  step y (add64 q (span_at l x i)) (Chained-behind l x y r c m)
                    (Falls-behind go l y r h) in
                let same = cut-behind go l y r h m p in
                rw p (record {
                  rest = s.rest;
                  chained = s.chained;
                  falls = s.falls;
                  same = same ∙ s.same;
                  last = pred-behind go l x y r h m p ∙ s.last;
                  shorter = omega (arith, s.shorter, length-behind y r);
                  inside = λ z n. is_in-behind z y r (s.inside z n);
                  passed = inr (moved y r m p s.passed);
                  stops = λ n. rw same (s.stops (omega (arith, behind-shorter y r m, n)));
                })
          ]
        where
          moved :
              (y : ℕ) (r : List ℕ)
              → is_in y r ≡ true
              → go (l.heap y) ≡ true
              → {z : ℕ} → Passed go l y (behind y r) z
              → (is_in z r ≡ true) × (go (l.heap z) ≡ true)
          moved y r m p {z} (inl e) =
              (subst (λ w. is_in w r ≡ true) (sym e) m, subst (λ w. go (l.heap w) ≡ true) (sym e) p)
          moved y r m p {z} (inr (n, g)) = (is_in-behind z y r n, g)

  -- at the level 0
  walk_bottom :
      (f x q : ℕ) (r : List ℕ)
      → Chained l x r
      → length r ≤ f
      → Chained l (walk go f l 0 x q).0 (cut go l r)
  unfolding walk
  walk_bottom zero x q [] c n = c
  walk_bottom zero x q (y ∷ r) c n = absurd (omega (arith, n))
  walk_bottom (suc f) x q [] c n = rw (walk, Chained-end l x c) c
  walk_bottom (suc f) x q (y ∷ r) (e, a, c) n = elim (Bool-cases (go (l.heap y))) [
    | inl p ↦ rw (walk, e, p) (walk_bottom f y (add64 q (span_at l x 0)) r c (omega arith))
    | inr p ↦ rw (walk, e, p) (e, a, c)
  ]

  at_bottom-append :
      (a : List (ℕ × ℕ)) (u v : ℕ × ℕ)
      → at_bottom l ((a ++ u ∷ []) ++ v ∷ []) ≡ at_bottom l (a ++ u ∷ [])
  at_bottom-append [] u v = refl
  at_bottom-append (w ∷ a) u v = refl

  pub descend-Chained :
      (n x q : ℕ) (r : List ℕ)
      → Chained l x r
      → Falls go l r
      → length r ≤ l.length
      → Chained l (at_bottom l (descend go (suc n) l x q)).0 (cut go l r)
  unfolding descend
  descend-Chained zero x q r c h n = walk_bottom l.length x q r c n
  descend-Chained (suc i) x q r c h n =
      let (y, p) = walk go l.length l (suc i) x q in
      let s = walk_lem l.length (suc i) x q r c h in
      let below = descend-Chained i y p s.rest s.chained s.falls (omega (arith, s.shorter)) in
      let a = descend go i l (walk go l.length l i y p).0 (walk go l.length l i y p).1 in
      subst (λ b. Chained l b.0 (cut go l r))
        (sym (at_bottom-append a (walk go l.length l i y p) (y, p)))
        (subst (λ t. Chained l (at_bottom l (descend go (suc i) l y p)).0 t) (sym s.same) below)

  -- at the level 0 the walk ends at the last node that passes
  walk_bottom-pred :
      (f x q : ℕ) (r : List ℕ)
      → Chained l x r
      → length r ≤ f
      → (walk go f l 0 x q).0 ≡ pred go l x r
  unfolding walk pred
  walk_bottom-pred zero x q [] c n = refl
  walk_bottom-pred zero x q (y ∷ r) c n = absurd (omega (arith, n))
  walk_bottom-pred (suc f) x q [] c n = rw (walk, Chained-end l x c) refl
  walk_bottom-pred (suc f) x q (y ∷ r) (e, a, c) n = elim (Bool-cases (go (l.heap y))) [
    | inl p ↦ rw (walk, e, p) (walk_bottom-pred f y (add64 q (span_at l x 0)) r c (omega arith))
    | inr p ↦ rw (walk, e, p) refl
  ]

  pub descend-pred :
      (n x q : ℕ) (r : List ℕ)
      → Chained l x r
      → Falls go l r
      → length r ≤ l.length
      → (at_bottom l (descend go (suc n) l x q)).0 ≡ pred go l x r
  unfolding descend
  descend-pred zero x q r c h n = walk_bottom-pred l.length x q r c n
  descend-pred (suc i) x q r c h n =
      let (y, p) = walk go l.length l (suc i) x q in
      let s = walk_lem l.length (suc i) x q r c h in
      let a = descend go i l (walk go l.length l i y p).0 (walk go l.length l i y p).1 in
      ap (λ b. b.0) (at_bottom-append a (walk go l.length l i y p) (y, p))
      ∙ descend-pred i y p s.rest s.chained s.falls (omega (arith, s.shorter))
      ∙ sym s.last
