-- ===== src/Zskiplist/Linked.antt =====
-- The pointers behind `Insert` of src/zskiplist.cpp, from a path of the search.
use cpp_inference_engine.Base.{
  ℕ, zero, suc, ◌+◌, ◌≤◌, ◌≡◌, ◌≢◌, ◌∙◌, sym, ap, subst, refl, Bool, true, false, arith, none, List,
  [], ◌∷◌, ◌++◌, length, take, replicate, inl, inr, All,
}
use cpp_inference_engine.Value.{Node, SkipList}
use cpp_inference_engine.Zskiplist.{fresh_node, forward_at}
use cpp_inference_engine.Zskiplist.Chain.{is_in, all_land}
use cpp_inference_engine.Zskiplist.Search.{Passed}
use cpp_inference_engine.Zskiplist.Splice.{PathLands, Avoids, on_path}

-- ---- paths ----
pub PathLands-replicate :
    (s : List ℕ) (j k h r : ℕ) (l : SkipList)
    → ((i : ℕ) → j ≤ i → forward_at l h i ≡ none)
    → PathLands s j (replicate k (h, r)) l
PathLands-replicate s j zero h r l f = tt
PathLands-replicate s j (suc k) h r l f = (
  rw (f j (omega arith)) refl,
  PathLands-replicate s (j + 1) k h r l (λ i b. f i (omega (arith, b))),
)

pub PathLands-join :
    (s : List ℕ) (i : ℕ) (p q : List (ℕ × ℕ)) (l : SkipList)
    → PathLands s i p l
    → PathLands s (i + length p) q l
    → PathLands s i (p ++ q) l
PathLands-join s i [] q l h k = subst (λ n. PathLands s n q l) (omega arith) k
PathLands-join s i (u ∷ p) q l (h, hs) k =
    (h, PathLands-join s (i + 1) p q l hs (subst (λ n. PathLands s n q l) (omega arith) k))

pub PathLands-take :
    (s : List ℕ) (i n : ℕ) (p : List (ℕ × ℕ)) (l : SkipList)
    → PathLands s i p l
    → PathLands s i (take n p) l
PathLands-take s i zero p l h = tt
PathLands-take s i (suc n) [] l h = tt
PathLands-take s i (suc n) (u ∷ p) l (h, hs) = (h, PathLands-take s (i + 1) n p l hs)

pub PathLands-avoid :
    (s : List ℕ) (i a : ℕ) (p : List (ℕ × ℕ)) (l l' : SkipList)
    → ((y j : ℕ) → y ≢ a → forward_at l' y j ≡ forward_at l y j)
    → Avoids a p
    → PathLands s i p l
    → PathLands s i p l'
PathLands-avoid s i a [] l l' f v h = tt
PathLands-avoid s i a ((u, r) ∷ p) l l' f (n, v) (h, hs) =
    (rw (f u i (λ e. n (sym e))) h, PathLands-avoid s (i + 1) a p l l' f v hs)

module _ (P : ℕ × ℕ → Type 0) where
  pub All-join : (p q : List (ℕ × ℕ)) → All P p → All P q → All P (p ++ q)
  All-join [] q h k = k
  All-join (u ∷ p) q (h, hs) k = (h, All-join p q hs k)

  pub All-replicate : (n : ℕ) (u : ℕ × ℕ) → P u → All P (replicate n u)
  All-replicate zero u h = tt
  All-replicate (suc n) u h = (h, All-replicate n u h)

  pub All-take : (n : ℕ) (p : List (ℕ × ℕ)) → All P p → All P (take n p)
  All-take zero p h = tt
  All-take (suc n) [] h = tt
  All-take (suc n) (u ∷ p) (h, hs) = (h, All-take n p hs)

module _ (go : Node → Bool) (l : SkipList) (xs : List ℕ) where
  abbrev pub OnPath : ℕ × ℕ → Type 0
  OnPath u = Passed go l l.header xs u.0

  pub avoid :
      (a : ℕ) (p : List (ℕ × ℕ)) → is_in a (l.header ∷ xs) ≡ false → All OnPath p → Avoids a p
  avoid a [] n h = tt
  avoid a ((u, r) ∷ p) n (h, hs) = (apart h, avoid a p n hs)
    where
      apart : Passed go l l.header xs u → a ≢ u
      apart (inl e) i = ground (arith, n, e, i)
      apart (inr (m, g)) i = ground (arith, m, subst (λ z. is_in z (l.header ∷ xs) ≡ false) i n)

  pub off_path :
      (y : ℕ) (p : List (ℕ × ℕ))
      → y ≢ l.header
      → go (l.heap y) ≡ false
      → All OnPath p
      → on_path y p ≡ false
  off_path y [] n g h = refl
  off_path y ((u, r) ∷ p) n g (h, hs) = ground (arith, different h, off_path y p n g hs)
    where
      different : Passed go l l.header xs u → u ≢ y
      different (inl e) i = n (sym i ∙ e)
      different (inr (m, gu)) i = ground (arith, g, subst (λ z. go (l.heap z) ≡ true) i gu)

pub all_land-none : (n : ℕ) (s : List ℕ) → all_land (replicate n none) s ≡ true
all_land-none zero s = refl
all_land-none (suc n) s = all_land-none n s

pub length-none : (n : ℕ) → length (fresh_node 0 [] n).forward ≡ n
length-none zero = refl
length-none (suc n) = ap suc (length-none n)
