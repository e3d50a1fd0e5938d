-- ===== src/Zskiplist/Grown.antt =====
-- The skip list of src/zskiplist.cpp behind `Insert` of a new key.
use cpp_inference_engine.Base.{
  ℕ, ◌+◌, ◌≤◌, ◌<◌, ◌≡◌, ◌≢◌, ◌∙◌, sym, ap, subst, refl, Bool, true, false, ◌==◌, ◌||◌, arith, none,
  List, [], ◌∷◌, Bytes, length, Bool-cases, inl, inr, All, map,
}
use cpp_inference_engine.Base.Double.{is_nan}
use cpp_inference_engine.Value.{Node, SkipList}
use cpp_inference_engine.Zskiplist.{key_less, before_key, forward_at, insert_at_path}
use cpp_inference_engine.Zskiplist.Range.{scored}
use cpp_inference_engine.Zskiplist.Order.{key_less_trans, key_less-total}
use cpp_inference_engine.Zskiplist.Chain.{is_in, Chained}
use cpp_inference_engine.Zskiplist.Place.{place, NoRepeat, place-Chained}
use cpp_inference_engine.Zskiplist.Lookup.{node_less, IsSorted, has_key, IsSorted-Falls}
use cpp_inference_engine.Zskiplist.Assemble.{
  Ready, new_node, new_node_lem, new_node-unused, insert_at_path-Inserted, final-header,
  final-next_free, final-level, final-length, final-score, final-member, final-height, new-score,
  new-member, new-height, final-top,
}
use cpp_inference_engine.Zskiplist.Stored.{IsStored, insert_scored}

-- ---- places ----
module _ (go : Node → Bool) (l : SkipList) (a : ℕ) where
  length-place : (r : List ℕ) → length (place go l a r) ≡ length r + 1
  unfolding place
  length-place [] = omega arith
  length-place (x ∷ r) = ground (arith, length-place r)

  is_in-place_iff : (y : ℕ) (r : List ℕ) → is_in y (place go l a r) ≡ ((a == y) || is_in y r)
  unfolding place
  is_in-place_iff y [] = ground arith
  is_in-place_iff y (x ∷ r) = ground (arith, is_in-place_iff y r)

  place-NoRepeat : (r : List ℕ) → is_in a r ≡ false → NoRepeat r → NoRepeat (place go l a r)
  unfolding place
  place-NoRepeat [] n d = (refl, tt)
  place-NoRepeat (x ∷ r) n (dx, d) = elim (Bool-cases (go (l.heap x))) [
    | inr g ↦ rw g (n, (dx, d))
    | inl g ↦
        rw g (ground (arith, is_in-place_iff x r, n, dx), place-NoRepeat r (ground (arith, n)) d)
  ]

  place-All : (P : ℕ → Type 0) (r : List ℕ) → P a → All P r → All P (place go l a r)
  unfolding place
  place-All P [] p h = (p, tt)
  place-All P (x ∷ r) p (h, hs) = elim (Bool-cases (go (l.heap x))) [
    | inr g ↦ rw g (p, (h, hs))
    | inl g ↦ rw g (h, place-All P r p hs)
  ]

pub is_in-tail : (a h : ℕ) (xs : List ℕ) → is_in a (h ∷ xs) ≡ false → is_in a xs ≡ false
is_in-tail a h xs n = ground (arith, n)

All-other :
    (P Q : ℕ → Type 0) (a : ℕ) (r : List ℕ)
    → ((y : ℕ) → y ≢ a → P y → Q y)
    → is_in a r ≡ false
    → All P r
    → All Q r
All-other P Q a [] f n h = tt
All-other P Q a (y ∷ r) f n (h, hs) =
    (f y (λ e. ground (arith, n, e)) h, All-other P Q a r f (ground (arith, n)) hs)

module _ (s : ℕ) (m : Bytes) (level : ℕ) (l : SkipList) (xs : List ℕ) (num : is_nan s ≡ false)
    (u r : ℕ) (path : List (ℕ × ℕ)) (ready : Ready (before_key s m) l xs level u r path) where
  unfoldable pub grown : SkipList
  grown = insert_at_path s m level ((u, r) ∷ path) l

  score_of_old : (y : ℕ) → y ≢ new_node level l → (grown.heap y).score ≡ (l.heap y).score
  unfolding grown
  score_of_old y n = final-score (before_key s m) l xs s m level u r path ready y n

  member_of_old : (y : ℕ) → y ≢ new_node level l → (grown.heap y).member ≡ (l.heap y).member
  unfolding grown
  member_of_old y n = final-member (before_key s m) l xs s m level u r path ready y n

  score_of_new : (grown.heap (new_node level l)).score ≡ s
  unfolding grown
  score_of_new = new-score (before_key s m) l xs s m level u r path ready

  member_of_new : (grown.heap (new_node level l)).member ≡ m
  unfolding grown
  member_of_new = new-member (before_key s m) l xs s m level u r path ready

  less_of_old :
      (x y : ℕ)
      → x ≢ new_node level l
      → y ≢ new_node level l
      → node_less (l.heap x) (l.heap y) ≡ true
      → node_less (grown.heap x) (grown.heap y) ≡ true
  less_of_old x y nx ny h =
      rw (score_of_old x nx, member_of_old x nx, score_of_old y ny, member_of_old y ny) h

  less_of_new :
      (y : ℕ)
      → y ≢ new_node level l
      → key_less s m (l.heap y).score (l.heap y).member ≡ true
      → node_less (grown.heap (new_node level l)) (grown.heap y) ≡ true
  less_of_new y ny h = rw (score_of_new, member_of_new, score_of_old y ny, member_of_old y ny) h

  old-IsSorted : (r : List ℕ) → is_in (new_node level l) r ≡ false → IsSorted l r → IsSorted grown r
  old-IsSorted [] n o = tt
  old-IsSorted (x ∷ r) n (ox, o) = (
    All-other (λ y. node_less (l.heap x) (l.heap y) ≡ true)
        (λ y. node_less (grown.heap x) (grown.heap y) ≡ true) (new_node level l) r
        (λ y q h. less_of_old x y (λ e. ground (arith, n, e)) q h) (ground (arith, n)) ox,
    old-IsSorted r (ground (arith, n)) o,
  )

  place-IsSorted :
      (r : List ℕ)
      → is_in (new_node level l) r ≡ false
      → All (λ x. is_nan (l.heap x).score ≡ false) r
      → has_key s m (map l.heap r) ≡ false
      → IsSorted l r
      → IsSorted grown (place (before_key s m) l (new_node level l) r)
  unfolding place has_key
  place-IsSorted [] n v k o = (tt, tt)
  place-IsSorted (x ∷ r) n (vx, v) k (ox, o) =
      let a = new_node level l in
      let x_a : x ≢ a = (λ e. ground (arith, n, e)) in
      let later =
        All-other (λ y. node_less (l.heap x) (l.heap y) ≡ true)
          (λ y. node_less (grown.heap x) (grown.heap y) ≡ true) a r
          (λ y q h. less_of_old x y x_a q h) (ground (arith, n)) ox in
      elim (Bool-cases (before_key s m (l.heap x))) [
        | inl g ↦
            let front : node_less (grown.heap x) (grown.heap a) ≡ true =
              rw (score_of_old x x_a, member_of_old x x_a, score_of_new, member_of_new) g in
            rw g (
              place-All (before_key s m) l a (λ y. node_less (grown.heap x) (grown.heap y) ≡ true) r
                  front later,
              place-IsSorted r (ground (arith, n)) v (ground (arith, k)) o,
            )
        | inr g ↦
            let n' = l.heap x in
            let less = key_less-total n'.score n'.member s m vx num g (ground (arith, k)) in
            let behind =
              All-other (λ y. node_less n' (l.heap y) ≡ true)
                (λ y. node_less (grown.heap a) (grown.heap y) ≡ true) a r
                (λ y q h.
                  less_of_new y q (
                    key_less_trans s m n'.score n'.member (l.heap y).score (l.heap y).member less
                      h))
                (ground (arith, n)) ox in
            rw g ((less_of_new x x_a less, behind), (later, old-IsSorted r (ground (arith, n)) o))
      ]

  -- the keys in their order
  pub scored-place :
      (r : List ℕ)
      → is_in (new_node level l) r ≡ false
      → map scored (map grown.heap (place (before_key s m) l (new_node level l) r))
        ≡ insert_scored s m (map scored (map l.heap r))
  unfolding place insert_scored
  scored-place [] n = rw (score_of_new, member_of_new) refl
  scored-place (x ∷ r) n =
      let a = new_node level l in
      let x_a : x ≢ a = (λ e. ground (arith, n, e)) in
      let old : scored (grown.heap x) ≡ scored (l.heap x) =
        rw (score_of_old x x_a, member_of_old x x_a) refl in
      let new : scored (grown.heap a) ≡ (s, m) = rw (score_of_new, member_of_new) refl in
      elim (Bool-cases (before_key s m (l.heap x))) [
        | inl g ↦ rw g (
            ap (λ p. p ∷ map scored (map grown.heap (place (before_key s m) l a r))) old
            ∙ ap (λ t. scored (l.heap x) ∷ t) (scored-place r (ground (arith, n))))
        | inr g ↦ rw g (
            ap (λ p. p ∷ scored (grown.heap x) ∷ map scored (map grown.heap r)) new
            ∙ ap (λ p. (s, m) ∷ p ∷ map scored (map grown.heap r)) old
            ∙ ap (λ t. (s, m) ∷ scored (l.heap x) ∷ t) (old_scored r (ground (arith, n))))
      ]
    where
      old_scored :
          (r : List ℕ)
          → is_in (new_node level l) r ≡ false
          → map scored (map grown.heap r) ≡ map scored (map l.heap r)
      old_scored [] n = refl
      old_scored (y ∷ r) n =
          let y_a : y ≢ new_node level l = (λ e. ground (arith, n, e)) in
          rw (score_of_old y y_a, member_of_old y y_a, old_scored r (ground (arith, n))) refl

  module _ (w : IsStored l xs) (k : has_key s m (map l.heap xs) ≡ false) where
    pub grown-IsStored : IsStored grown (place (before_key s m) l (new_node level l) xs)
    unfolding grown
    grown-IsStored =
        let go = before_key s m in
        let a = new_node level l in
        let un = new_node-unused go l xs s m level u r path ready in
        let free = is_in-tail a l.header xs un in
        let ins = insert_at_path-Inserted go l xs s m level u r path ready in
        let head : grown.header ≡ l.header = final-header go l xs s m level u r path ready in
        let h_a : l.header ≢ a = (λ e. ground (arith, un, e)) in
        let next = final-next_free go l xs s m level u r path ready in
        let lev = final-level go l xs s m level u r path ready in
        let more : l.next_free < grown.next_free = omega (arith, next, new_node_lem level l) in
        let height = final-height go l xs s m level u r path ready in
        record {
          list = record {
            chained =
                subst (λ h. Chained grown h (place go l a xs)) (sym head)
                  (place-Chained go l grown a l.header xs ins l.header xs w.list.chained
                    (IsSorted-Falls s m l xs w.list.sorted) un w.apart.0 w.apart refl refl);
            sorted = place-IsSorted xs free w.numbers k w.list.sorted;
            size = omega (
              arith,
              final-length go l xs s m level u r path ready,
              w.list.size,
              length-place go l a xs,
            );
            levels = ground (arith, lev, w.list.levels);
          };
          below =
              subst (λ h. All (λ x. x < grown.next_free) (h ∷ place go l a xs)) (sym head)
                (
                  omega (arith, w.below.0, more),
                  place-All go l a (λ x. x < grown.next_free) xs (omega (arith, next))
                      (All-other (λ x. x < l.next_free) (λ x. x < grown.next_free) a xs
                        (λ y n b. omega (arith, b, more)) free w.below.1),
                );
          apart =
              subst (λ h. NoRepeat (h ∷ place go l a xs)) (sym head)
                (
                  ground (arith, is_in-place_iff go l a l.header xs, w.apart.0, un),
                  place-NoRepeat go l a xs free w.apart.1,
                );
          tall =
              subst (λ h. All (λ x. 1 ≤ length (grown.heap x).forward) (h ∷ place go l a xs))
                (sym head)
                (
                  omega (arith, w.tall.0, height l.header h_a),
                  place-All go l a (λ x. 1 ≤ length (grown.heap x).forward) xs
                      (omega (arith, new-height go l xs s m level u r path ready, ready.some_level))
                      (All-other (λ x. 1 ≤ length (l.heap x).forward)
                        (λ x. 1 ≤ length (grown.heap x).forward) a xs
                        (λ y n b. omega (arith, b, height y n)) free w.tall.1),
                );
          top = λ i b.
              subst (λ h. forward_at grown h i ≡ none) (sym head)
                (final-top go l xs s m level u r path ready i (ground (arith, lev, b))
                  (ground (arith, lev, b)));
          numbers =
              place-All go l a (λ x. is_nan (grown.heap x).score ≡ false) xs (rw score_of_new num)
                (All-other (λ x. is_nan (l.heap x).score ≡ false)
                  (λ x. is_nan (grown.heap x).score ≡ false) a xs (λ y n b. rw (score_of_old y n) b)
                  free w.numbers);
        }
