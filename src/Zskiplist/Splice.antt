-- ===== src/Zskiplist/Splice.antt =====
-- The pointers behind the loop of `Insert` in src/zskiplist.cpp that links the new node.
use cpp_inference_engine.Base.{
  ℕ, zero, suc, ◌+◌, ◌≤◌, ◌<◌, ◌≡◌, ◌≢◌, ◌∙◌, ap, subst, refl, Bool, true, false, ◌||◌, arith,
  Option, none, some, List, [], ◌∷◌, ◌==◌, length, get_or, set, get_or-set_self, get_or-set_ne,
  Bool-cases, inl, inr,
}
use cpp_inference_engine.Value.{SkipList}
use cpp_inference_engine.Zskiplist.{forward_at, span_at, add64, sub64, link, splice}
use cpp_inference_engine.Zskiplist.Chain.{is_in, lands, all_land}
use cpp_inference_engine.Zskiplist.Frame.{
  Frame, Frame-refl, Frame-trans, link-Frame, link-forward_self, link-forward_ne,
}

all_land-set :
    (ps : List (Option ℕ)) (i : ℕ) (p : Option ℕ) (s : List ℕ)
    → all_land ps s ≡ true
    → lands s p ≡ true
    → all_land (set ps i p) s ≡ true
all_land-set [] i p s a h = refl
all_land-set (q ∷ ps) zero p s a h = ground (arith, a, h)
all_land-set (q ∷ ps) (suc i) p s a h = ground (arith, a, all_land-set ps i p s)

module _ (x i : ℕ) (next : Option ℕ) (w : ℕ) (l : SkipList) where
  link-all_land :
      (y : ℕ) (s : List ℕ)
      → all_land (l.heap y).forward s ≡ true
      → lands s next ≡ true
      → all_land ((link x i next w l).heap y).forward s ≡ true
  unfolding link
  link-all_land y s a h = elim (Bool-cases (y == x)) [
    | inl e ↦
        rw (link, e)
          (all_land-set (l.heap x).forward i next s
            (subst (λ z. all_land (l.heap z).forward s ≡ true) (ground (arith, e)) a) h)
    | inr e ↦ rw (link, e) a
  ]

  link-forward_at : (y j : ℕ) → i ≢ j → forward_at (link x i next w l) y j ≡ forward_at l y j
  unfolding link
  link-forward_at y j n = elim (Bool-cases (y == x)) [
    | inl e ↦
        rw (link, e)
          (get_or-set_ne (l.heap x).forward i j next none n
            ∙ subst (λ z. forward_at l z j ≡ forward_at l y j) (ground (arith, e)) refl)
    | inr e ↦ rw (link, e) refl
  ]

-- the pointers of the path, from the level `i` on, lead to nodes of the list
abbrev pub PathLands : List ℕ → ℕ → List (ℕ × ℕ) → SkipList → Type 0
PathLands s i [] l = Unit
PathLands s i ((u, r) ∷ path) l = (lands s (forward_at l u i) ≡ true) × PathLands s (i + 1) path l

PathLands-frame :
    (s : List ℕ) (i : ℕ) (path : List (ℕ × ℕ)) (l l' : SkipList)
    → ((y j : ℕ) → i ≤ j → forward_at l' y j ≡ forward_at l y j)
    → PathLands s i path l
    → PathLands s i path l'
PathLands-frame s i [] l l' f h = tt
PathLands-frame s i ((u, r) ∷ path) l l' f (h, hs) = (
  rw (f u i (omega arith)) h,
  PathLands-frame s (i + 1) path l l' (λ y j b. f y j (omega (arith, b))) hs,
)

abbrev pub Avoids : ℕ → List (ℕ × ℕ) → Type 0
Avoids a [] = Unit
Avoids a ((u, r) ∷ path) = (a ≢ u) × Avoids a path

-- the nodes that are on the path
abbrev pub on_path : ℕ → List (ℕ × ℕ) → Bool
on_path y [] = false
on_path y ((u, r) ∷ path) = (u == y) || on_path y path

pub record Spliced (a i : ℕ) (path : List (ℕ × ℕ)) (l l' : SkipList) : Type 0 where
  pub frame : Frame l l'
  pub grows :
      (y : ℕ) (s : List ℕ)
      → y ≢ a
      → is_in a s ≡ true
      → all_land (l.heap y).forward s ≡ true
      → all_land (l'.heap y).forward s ≡ true
  pub apart : (y : ℕ) → y ≢ a → on_path y path ≡ false → (l'.heap y).forward ≡ (l.heap y).forward
  pub node :
      (s : List ℕ)
      → all_land (l.heap a).forward s ≡ true
      → PathLands s i path l
      → all_land (l'.heap a).forward s ≡ true
  pub below : (y j : ℕ) → j < i → forward_at l' y j ≡ forward_at l y j
  pub above : (y j : ℕ) → i + length path ≤ j → forward_at l' y j ≡ forward_at l y j

pub splice-Spliced :
    (a r₀ i : ℕ) (path : List (ℕ × ℕ)) (l : SkipList)
    → Avoids a path
    → Spliced a i path l (splice a r₀ i path l)
unfolding splice
splice-Spliced a r₀ i [] l v = record {
  frame = Frame-refl l;
  grows = λ y s n m h. h;
  apart = λ y n h. refl;
  node = λ s h p. h;
  below = λ y j b. refl;
  above = λ y j b. refl;
}
splice-Spliced a r₀ i ((u, r) ∷ path) l (v, vs) =
    let w₁ = sub64 (span_at l u i) (sub64 r₀ r) in
    let w₂ = add64 (sub64 r₀ r) 1 in
    let next = forward_at l u i in
    let l₁ = link a i next w₁ l in
    let l₂ = link u i (some a) w₂ l₁ in
    let rest = splice-Spliced a r₀ (i + 1) path l₂ vs in
    let at₂ = λ (y j : ℕ) (n : i ≢ j).
      link-forward_at u i (some a) w₂ l₁ y j n ∙ link-forward_at a i next w₁ l y j n in
    record {
      frame = Frame-trans l l₁ (splice a r₀ (i + 1) path l₂) (link-Frame a i next w₁ l) (
          Frame-trans l₁ l₂ (splice a r₀ (i + 1) path l₂) (link-Frame u i (some a) w₂ l₁)
            rest.frame);
      grows = λ y s n m h.
          rest.grows y s n m
            (link-all_land u i (some a) w₂ l₁ y s (rw (link-forward_ne a i next w₁ l y n) h) m);
      apart = λ y n h.
          rest.apart y n (ground (arith, h))
          ∙ link-forward_ne u i (some a) w₂ l₁ y (ground (arith, h))
          ∙ link-forward_ne a i next w₁ l y n;
      node = λ s h p.
          rest.node s
            (rw (link-forward_ne u i (some a) w₂ l₁ a v) (link-all_land a i next w₁ l a s h p.0))
            (PathLands-frame s (i + 1) path l l₂ (λ y j b. at₂ y j (omega (arith, b))) p.1);
      below = λ y j b. rest.below y j (omega (arith, b)) ∙ at₂ y j (omega (arith, b));
      above = λ y j b. rest.above y j (omega (arith, b)) ∙ at₂ y j (omega (arith, b));
    }

-- at the level 0
module _ (a r₀ u r : ℕ) (path : List (ℕ × ℕ)) (l : SkipList) (n : a ≢ u) (v : Avoids a path) where
  pub splice-pred :
      1 ≤ length (l.heap u).forward → forward_at (splice a r₀ 0 ((u, r) ∷ path) l) u 0 ≡ some a
  unfolding splice
  splice-pred tall =
      let w₁ = sub64 (span_at l u 0) (sub64 r₀ r) in
      let w₂ = add64 (sub64 r₀ r) 1 in
      let l₁ = link a 0 (forward_at l u 0) w₁ l in
      let l₂ = link u 0 (some a) w₂ l₁ in
      (splice-Spliced a r₀ 1 path l₂ v).below u 0 (omega arith)
      ∙ ap (λ f. get_or f 0 none) (link-forward_self u 0 (some a) w₂ l₁)
      ∙ get_or-set_self (l₁.heap u).forward 0 (some a) none
          (omega (arith, tall, (link-Frame a 0 (forward_at l u 0) w₁ l).height u))

  pub splice-node :
      1 ≤ length (l.heap a).forward
      → forward_at (splice a r₀ 0 ((u, r) ∷ path) l) a 0 ≡ forward_at l u 0
  unfolding splice
  splice-node tall =
      let w₁ = sub64 (span_at l u 0) (sub64 r₀ r) in
      let w₂ = add64 (sub64 r₀ r) 1 in
      let l₁ = link a 0 (forward_at l u 0) w₁ l in
      let l₂ = link u 0 (some a) w₂ l₁ in
      (splice-Spliced a r₀ 1 path l₂ v).below a 0 (omega arith)
      ∙ ap (λ f. get_or f 0 none) (link-forward_ne u 0 (some a) w₂ l₁ a n)
      ∙ ap (λ f. get_or f 0 none) (link-forward_self a 0 (forward_at l u 0) w₁ l)
      ∙ get_or-set_self (l.heap a).forward 0 (forward_at l u 0) none (omega (arith, tall))

  pub splice-other :
      (y : ℕ) → y ≢ a → y ≢ u → forward_at (splice a r₀ 0 ((u, r) ∷ path) l) y 0 ≡ forward_at l y 0
  unfolding splice
  splice-other y na nu =
      let w₁ = sub64 (span_at l u 0) (sub64 r₀ r) in
      let w₂ = add64 (sub64 r₀ r) 1 in
      let l₁ = link a 0 (forward_at l u 0) w₁ l in
      let l₂ = link u 0 (some a) w₂ l₁ in
      (splice-Spliced a r₀ 1 path l₂ v).below y 0 (omega arith)
      ∙ ap (λ f. get_or f 0 none) (link-forward_ne u 0 (some a) w₂ l₁ y nu)
      ∙ ap (λ f. get_or f 0 none) (link-forward_ne a 0 (forward_at l u 0) w₁ l y na)
