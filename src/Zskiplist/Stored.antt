-- ===== src/Zskiplist/Stored.antt =====
-- `Insert` of src/zskiplist.cpp keeps a skip list well-formed, and puts a new key in its place.
use cpp_inference_engine.Base.{
  ℕ, zero, suc, ◌+◌, ◌-◌, ◌≤◌, ◌<◌, ◌≡◌, ◌∙◌, sym, ap, subst, refl, Bool, true, false, ◌==◌,
  if◌then◌else◌, arith, Option, none, some, List, [], ◌∷◌, Bytes, length, Bool-cases, inl, inr, All,
}
use cpp_inference_engine.Base.Double.{is_nan}
use cpp_inference_engine.Value.{SkipList}
use cpp_inference_engine.Zskiplist.{
  climb, random_level, key_less, before_key, search, descend, at_bottom, candidate, contains,
  find_node, forward_at,
}
use cpp_inference_engine.Zskiplist.Range.{Scored}
use cpp_inference_engine.Zskiplist.Chain.{is_in, pred}
use cpp_inference_engine.Zskiplist.Search.{descend-pred}
use cpp_inference_engine.Zskiplist.Path.{IsPath, descend-IsPath, length-descend}
use cpp_inference_engine.Zskiplist.Place.{NoRepeat, is_in-pred}
use cpp_inference_engine.Zskiplist.Lookup.{IsList, IsSorted-Falls}
use cpp_inference_engine.Zskiplist.Assemble.{Ready}

-- A skip list whose nodes are at the addresses `xs`, as the operations keep it.
pub record IsStored (l : SkipList) (xs : List ℕ) : Type 0 where
  pub list : IsList l xs
  pub below : All (λ x. x < l.next_free) (l.header ∷ xs)
  pub apart : NoRepeat (l.header ∷ xs)
  pub tall : All (λ x. 1 ≤ length (l.heap x).forward) (l.header ∷ xs)
  pub top : (i : ℕ) → l.level ≤ i → forward_at l l.header i ≡ none
  pub numbers : All (λ x. is_nan (l.heap x).score ≡ false) xs

pub climb_le : (n : ℕ) (flips : ℕ → Bool) (k : ℕ) → k ≤ climb n flips k
unfolding climb
climb_le zero flips k = omega arith
climb_le (suc n) flips k = ground (arith, climb_le n flips (k + 1))

All-at : (P : ℕ → Type 0) (y : ℕ) (r : List ℕ) → All P r → is_in y r ≡ true → P y
All-at P y [] h m = cc
All-at P y (x ∷ r) (h, hs) m = elim (Bool-cases (x == y)) [
  | inl e ↦ subst P (ground (arith, e)) h
  | inr e ↦ All-at P y r hs (ground (arith, m, e))
]

pub fresh_above : (n : ℕ) (r : List ℕ) → All (λ x. x < n) r → is_in n r ≡ false
fresh_above n [] h = refl
fresh_above n (x ∷ r) (h, hs) = ground (arith, h, fresh_above n r hs)

-- the specification: a key in its place
unfoldable pub insert_scored : ℕ → Bytes → List Scored → List Scored
insert_scored s m [] = (s, m) ∷ []
insert_scored s m ((t, n) ∷ r) =
    let rest = insert_scored s m r in
    if key_less t n s m then (t, n) ∷ rest else (s, m) ∷ (t, n) ∷ r

contains-candidate :
    (s : ℕ) (m : Bytes) (l : SkipList) (c : ℕ)
    → candidate s m l (search s m l) ≡ some c
    → contains s m l ≡ true
unfolding contains find_node
contains-candidate s m l c e = rw (contains, e) refl

module _ (s : ℕ) (m : Bytes) (flips : ℕ → Bool) (l : SkipList) (xs : List ℕ)
    (w : IsStored l xs) where
  search-pred : (at_bottom l (search s m l)).0 ≡ pred (before_key s m) l l.header xs
  unfolding search
  search-pred =
      let top : suc (l.level - 1) ≡ l.level = omega (arith, w.list.levels) in
      subst
        (λ n.
          (at_bottom l (descend (before_key s m) n l l.header 0)).0
          ≡ pred (before_key s m) l l.header xs)
        top
        (descend-pred (before_key s m) l (l.level - 1) l.header 0 xs w.list.chained
          (IsSorted-Falls s m l xs w.list.sorted) (omega (arith, w.list.size)))

  search-IsPath : IsPath (before_key s m) l l.header xs (search s m l)
  unfolding search
  search-IsPath =
      descend-IsPath (before_key s m) l l.level l.header 0 xs w.list.chained
        (IsSorted-Falls s m l xs w.list.sorted) (omega (arith, w.list.size))

  pub length-search : length (search s m l) ≡ l.level
  unfolding search
  length-search = length-descend (before_key s m) l l.level l.header 0

  pub search-Ready :
      (u r : ℕ) (path : List (ℕ × ℕ))
      → search s m l ≡ (u, r) ∷ path
      → Ready (before_key s m) l xs (random_level flips) u r path
  unfolding random_level
  search-Ready u r path e =
      let p : u ≡ pred (before_key s m) l l.header xs =
        ap (λ q. (at_bottom l q).0) (sym e) ∙ search-pred in
      record {
        on_way = subst (λ q. IsPath (before_key s m) l l.header xs q) e search-IsPath;
        is_pred = p;
        levels = ap length (sym e) ∙ length-search;
        some_level = climb_le 31 flips 1;
        unused = fresh_above l.next_free (l.header ∷ xs) w.below;
        tall =
            All-at (λ x. 1 ≤ length (l.heap x).forward) u (l.header ∷ xs) w.tall
              (subst (λ y. is_in y (l.header ∷ xs) ≡ true) (sym p)
                (is_in-pred (before_key s m) l l.header xs));
        top = w.top;
      }

  pub no_candidate : contains s m l ≡ false → candidate s m l (search s m l) ≡ none
  no_candidate h = look (candidate s m l (search s m l)) refl
    where
      look : (o : Option ℕ) → candidate s m l (search s m l) ≡ o → o ≡ none
      look none e = refl
      look (some c) e = absurd (ground (arith, h, contains-candidate s m l c e))
