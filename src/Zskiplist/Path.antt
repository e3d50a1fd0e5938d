-- ===== src/Zskiplist/Path.antt =====
-- The path of a search in src/zskiplist.cpp: the vector `update`.
use cpp_inference_engine.Base.{
  ℕ, zero, suc, ◌+◌, ◌≤◌, ◌≡◌, sym, subst, refl, Bool, true, arith, List, [], ◌∷◌, ◌++◌, length,
  length-append, inl, inr, All,
}
use cpp_inference_engine.Value.{Node, SkipList}
use cpp_inference_engine.Zskiplist.{forward_at, walk, descend}
use cpp_inference_engine.Zskiplist.Chain.{is_in, lands, Chained, cut, Falls}
use cpp_inference_engine.Zskiplist.Search.{Passed, walk_lem}
use cpp_inference_engine.Zskiplist.Splice.{PathLands}

pub PathLands-append :
    (s : List ℕ) (i : ℕ) (p : List (ℕ × ℕ)) (u r : ℕ) (l : SkipList)
    → PathLands s i p l
    → lands s (forward_at l u (i + length p)) ≡ true
    → PathLands s i (p ++ (u, r) ∷ []) l
PathLands-append s i [] u r l h e =
    (subst (λ n. lands s (forward_at l u n) ≡ true) (omega arith) e, tt)
PathLands-append s i ((v, q) ∷ p) u r l (h, hs) e = (
  h,
  PathLands-append s (i + 1) p u r l hs
      (subst (λ n. lands s (forward_at l u n) ≡ true) (omega arith) e),
)

All-append :
    (P : ℕ × ℕ → Type 0) (a : List (ℕ × ℕ)) (u : ℕ × ℕ) → All P a → P u → All P (a ++ u ∷ [])
All-append P [] u h p = (p, tt)
All-append P (v ∷ a) u (h, hs) p = (h, All-append P a u hs p)

All-map : (P Q : ℕ × ℕ → Type 0) (a : List (ℕ × ℕ)) → ((u : ℕ × ℕ) → P u → Q u) → All P a → All Q a
All-map P Q [] f h = tt
All-map P Q (v ∷ a) f (h, hs) = (f v h, All-map P Q a f hs)

module _ (go : Node → Bool) (l : SkipList) where
  pub length-descend : (n x q : ℕ) → length (descend go n l x q) ≡ n
  unfolding descend
  length-descend zero x q = refl
  length-descend (suc i) x q =
      let (y, p) = walk go l.length l i x q in
      omega (arith, length-append (descend go i l y p) ((y, p) ∷ []), length-descend i y p)

  -- every node of the path is in front of the place that is looked for, and its pointer leads behind
  pub record IsPath (x : ℕ) (r : List ℕ) (path : List (ℕ × ℕ)) : Type 0 where
    pub behind_it : PathLands (cut go l r) 0 path l
    pub before_it : All (λ u. Passed go l x r u.0) path

  pub descend-IsPath :
      (n x q : ℕ) (r : List ℕ)
      → Chained l x r
      → Falls go l r
      → length r ≤ l.length
      → IsPath x r (descend go n l x q)
  unfolding descend
  descend-IsPath zero x q r c h n = record { behind_it = tt; before_it = tt }
  descend-IsPath (suc i) x q r c h n =
      let (y, p) = walk go l.length l i x q in
      let s = walk_lem go l l.length i x q r c h in
      let below = descend-IsPath i y p s.rest s.chained s.falls (omega (arith, s.shorter, n)) in
      let level : i ≡ 0 + length (descend go i l y p) = omega (arith, length-descend i y p) in
      record {
        behind_it =
            PathLands-append (cut go l r) 0 (descend go i l y p) y p l
              (subst (λ t. PathLands t 0 (descend go i l y p) l) (sym s.same) below.behind_it)
              (subst (λ k. lands (cut go l r) (forward_at l y k) ≡ true) level (s.stops n));
        before_it =
            All-append (λ u. Passed go l x r u.0) (descend go i l y p) (y, p)
              (All-map (λ u. Passed go l y s.rest u.0) (λ u. Passed go l x r u.0)
                (descend go i l y p) (λ u. onward u y s.rest s.passed s.inside) below.before_it)
              s.passed;
      }
    where
      onward :
          (u : ℕ × ℕ) (y : ℕ) (rest : List ℕ)
          → Passed go l x r y
          → ((z : ℕ) → is_in z rest ≡ true → is_in z r ≡ true)
          → Passed go l y rest u.0
          → Passed go l x r u.0
      onward u y rest a f (inl e) = subst (λ z. Passed go l x r z) (sym e) a
      onward u y rest a f (inr (m, g)) = inr (f u.0 m, g)
