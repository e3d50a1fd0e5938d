-- ===== src/Zskiplist/Assemble.antt =====
-- `Insert` of src/zskiplist.cpp behind the search: the new node is in its place.
use cpp_inference_engine.Base.{
  ℕ, zero, suc, ◌+◌, ◌-◌, ◌≤◌, ◌≡◌, ◌≢◌, ◌∙◌, sym, ap, subst, refl, Bool, false, if◌then◌else◌, ltb,
  arith, Option, none, some, List, [], ◌∷◌, ◌++◌, Bytes, length, get_or, take, drop, replicate, inl,
  All,
}
use cpp_inference_engine.Value.{Node, SkipList}
use cpp_inference_engine.Zskiplist.{
  fresh_node, forward_at, put_node, raise, splice, widen, at_bottom, insert_at_path,
}
use cpp_inference_engine.Zskiplist.Chain.{is_in, cut, pred}
use cpp_inference_engine.Zskiplist.Path.{IsPath}
use cpp_inference_engine.Zskiplist.Frame.{Frame, Frame-trans, raise-Kept, widen-Kept}
use cpp_inference_engine.Zskiplist.Splice.{
  PathLands, Avoids, Spliced, splice-Spliced, splice-pred, splice-node, splice-other,
}
use cpp_inference_engine.Zskiplist.Place.{Inserted}
use cpp_inference_engine.Zskiplist.Linked.{
  PathLands-replicate, PathLands-join, PathLands-take, PathLands-avoid, All-join, All-replicate,
  All-take, OnPath, avoid, off_path, all_land-none, length-none,
}

take-cons :
    {A : Type 0} (n : ℕ) (x : A) (xs : List A) → 1 ≤ n → take n (x ∷ xs) ≡ x ∷ take (n - 1) xs
take-cons zero x xs h = absurd (omega (arith, h))
take-cons (suc n) x xs h = ap (λ k. x ∷ take k xs) (omega arith)

length-take_le : {A : Type 0} (n : ℕ) (xs : List A) → length (take n xs) ≤ n
length-take_le zero xs = omega arith
length-take_le (suc n) [] = omega arith
length-take_le (suc n) (x ∷ xs) = omega (arith, length-take_le n xs)

-- the list with the levels of the header and the new node
abbrev pub raised : ℕ → SkipList → SkipList
raised level l = raise (level - l.level) l.level l

abbrev pub allocated : ℕ → Bytes → ℕ → SkipList → SkipList
allocated s m level l =
    let r = record (raised level l) { level = if ltb l.level level then level else l.level } in
    record (put_node r r.next_free (fresh_node s m level)) { next_free = r.next_free + 1 }

-- the address of the new node
abbrev pub new_node : ℕ → SkipList → ℕ
new_node level l = (raised level l).next_free

-- the part of `update` that the new node is linked into
abbrev pub linked_path : ℕ → List (ℕ × ℕ) → SkipList → List (ℕ × ℕ)
linked_path level path l = take level (path ++ replicate (level - l.level) (l.header, 0))

pub new_node_lem : (level : ℕ) (l : SkipList) → new_node level l ≡ l.next_free
new_node_lem level l = (raise-Kept (level - l.level) l.level l).frame.next_free

-- what the insertion starts from
pub record Ready (go : Node → Bool) (l : SkipList) (xs : List ℕ) (level u r : ℕ)
    (path : List (ℕ × ℕ)) : Type 0 where
  pub on_way : IsPath go l l.header xs ((u, r) ∷ path)
  pub is_pred : u ≡ pred go l l.header xs
  pub levels : length ((u, r) ∷ path) ≡ l.level
  pub some_level : 1 ≤ level
  pub unused : is_in l.next_free (l.header ∷ xs) ≡ false
  pub tall : 1 ≤ length (l.heap u).forward
  pub top : (i : ℕ) → l.level ≤ i → forward_at l l.header i ≡ none

module _ (go : Node → Bool) (l : SkipList) (xs : List ℕ) (s : ℕ) (m : Bytes) (level u r : ℕ)
    (path : List (ℕ × ℕ)) (ready : Ready go l xs level u r path) where
  way : List (ℕ × ℕ)
  way = linked_path level ((u, r) ∷ path) l

  pub new_node-unused : is_in (new_node level l) (l.header ∷ xs) ≡ false
  new_node-unused =
      subst (λ a. is_in a (l.header ∷ xs) ≡ false)
        (sym (raise-Kept (level - l.level) l.level l).frame.next_free) ready.unused

  pub allocated-forward :
      (y : ℕ) → y ≢ new_node level l → ((allocated s m level l).heap y).forward ≡ (l.heap y).forward
  allocated-forward y n =
      let kept = (raise-Kept (level - l.level) l.level l).forward y in ground (arith, n, kept)

  way-OnPath : All (OnPath go l xs) way
  unfolding way
  way-OnPath =
      All-take (OnPath go l xs) level ((u, r) ∷ path ++ replicate (level - l.level) (l.header, 0)) (
        All-join (OnPath go l xs) ((u, r) ∷ path) (replicate (level - l.level) (l.header, 0))
          ready.on_way.before_it
          (All-replicate (OnPath go l xs) (level - l.level) (l.header, 0) (inl refl)))

  way-Avoids : Avoids (new_node level l) way
  way-Avoids = avoid go l xs (new_node level l) way new_node-unused way-OnPath

  way-PathLands : PathLands (cut go l xs) 0 way (allocated s m level l)
  unfolding way
  way-PathLands =
      PathLands-avoid (cut go l xs) 0 (new_node level l) way l (allocated s m level l)
        (λ y j n. ap (λ f. get_or f j none) (allocated-forward y n)) way-Avoids
        (PathLands-take (cut go l xs) 0 level
          ((u, r) ∷ path ++ replicate (level - l.level) (l.header, 0)) l
          (PathLands-join (cut go l xs) 0 ((u, r) ∷ path)
            (replicate (level - l.level) (l.header, 0)) l ready.on_way.behind_it
            (PathLands-replicate (cut go l xs) (0 + length ((u, r) ∷ path)) (level - l.level)
              l.header 0 l (λ i b. ready.top i (omega (arith, b, ready.levels))))))

  -- `splice` on the way
  spliced : SkipList
  spliced = splice (new_node level l) (at_bottom l ((u, r) ∷ path)).1 0 way (allocated s m level l)

  spliced-Spliced : Spliced (new_node level l) 0 way (allocated s m level l) spliced
  unfolding spliced
  spliced-Spliced =
      splice-Spliced (new_node level l) (at_bottom l ((u, r) ∷ path)).1 0 way
        (allocated s m level l) way-Avoids

  allocated-node : (allocated s m level l).heap (new_node level l) ≡ fresh_node s m level
  allocated-node = ground arith

  final-forward :
      (y : ℕ)
      → ((insert_at_path s m level ((u, r) ∷ path) l).heap y).forward ≡ (spliced.heap y).forward
  unfolding insert_at_path spliced way
  final-forward y =
      (widen-Kept level (drop level ((u, r) ∷ path ++ replicate (level - l.level) (l.header, 0))) (
          splice (new_node level l) r 0 (linked_path level ((u, r) ∷ path) l)
            (allocated s m level l))).forward
        y

  -- behind the first level
  more : List (ℕ × ℕ)
  more = take (level - 1) (path ++ replicate (level - l.level) (l.header, 0))

  way_lem : way ≡ (u, r) ∷ more
  unfolding way more
  way_lem =
      take-cons level (u, r) (path ++ replicate (level - l.level) (l.header, 0)) ready.some_level

  more-Avoids : Avoids (new_node level l) ((u, r) ∷ more)
  more-Avoids = subst (λ p. Avoids (new_node level l) p) way_lem way-Avoids

  spliced_lem : spliced ≡ splice (new_node level l) r 0 ((u, r) ∷ more) (allocated s m level l)
  unfolding spliced
  spliced_lem = ap (λ p. splice (new_node level l) r 0 p (allocated s m level l)) way_lem

  -- a pointer of the level 0
  final-forward_at :
      (y : ℕ) (o : Option ℕ)
      → forward_at (splice (new_node level l) r 0 ((u, r) ∷ more) (allocated s m level l)) y 0 ≡ o
      → forward_at (insert_at_path s m level ((u, r) ∷ path) l) y 0 ≡ o
  final-forward_at y o e =
      ap (λ f. get_or f 0 none) (final-forward y) ∙ ap (λ k. forward_at k y 0) spliced_lem ∙ e

  allocated-forward_at :
      (y : ℕ) → y ≢ new_node level l → forward_at (allocated s m level l) y 0 ≡ forward_at l y 0
  allocated-forward_at y n = ap (λ f. get_or f 0 none) (allocated-forward y n)

  pub insert_at_path-Inserted :
      Inserted go l (new_node level l) l.header xs (insert_at_path s m level ((u, r) ∷ path) l)
  insert_at_path-Inserted =
      let a = new_node level l in
      let al = allocated s m level l in
      let u_a : u ≢ a = (λ e. more-Avoids.0 (sym e)) in
      record {
        grows = λ y t n i h.
            rw (final-forward y) (spliced-Spliced.grows y t n i (rw (allocated-forward y n) h));
        untouched = λ y n h g.
            final-forward y
            ∙ spliced-Spliced.apart y n (off_path go l xs y way h g way-OnPath)
            ∙ allocated-forward y n;
        node = rw (final-forward (new_node level l)) (
            spliced-Spliced.node (cut go l xs)
              (rw allocated-node (all_land-none level (cut go l xs))) way-PathLands);
        pred_next =
            subst (λ y. forward_at (insert_at_path s m level ((u, r) ∷ path) l) y 0 ≡ some a)
              ready.is_pred
              (final-forward_at u (some a) (
                splice-pred a r u r more al more-Avoids.0 more-Avoids.1
                  (omega (arith, ready.tall, ap length (allocated-forward u u_a)))));
        node_next = final-forward_at a (forward_at l (pred go l l.header xs) 0) (
            splice-node a r u r more al more-Avoids.0 more-Avoids.1 (
              omega (
                arith,
                ready.some_level,
                ap (λ n. length n.forward) allocated-node,
                length-none level,
              ))
            ∙ allocated-forward_at u u_a
            ∙ ap (λ y. forward_at l y 0) ready.is_pred);
        other = λ y n p. final-forward_at y (forward_at l y 0) (
            splice-other a r u r more al more-Avoids.0 more-Avoids.1 y n
              (λ e. p (e ∙ ready.is_pred))
            ∙ allocated-forward_at y n);
      }

  -- the list before it is counted
  widened : SkipList
  widened =
      widen level (drop level ((u, r) ∷ path ++ replicate (level - l.level) (l.header, 0))) (
        splice (new_node level l) r 0 (linked_path level ((u, r) ∷ path) l) (allocated s m level l))

  widened-Frame : Frame (allocated s m level l) widened
  unfolding widened spliced way
  widened-Frame =
      Frame-trans (allocated s m level l) spliced widened spliced-Spliced.frame
        (widen-Kept level (drop level ((u, r) ∷ path ++ replicate (level - l.level) (l.header, 0)))
          spliced).frame

  pub final-header : (insert_at_path s m level ((u, r) ∷ path) l).header ≡ l.header
  unfolding insert_at_path widened
  final-header = widened-Frame.header ∙ (raise-Kept (level - l.level) l.level l).frame.header

  pub final-next_free :
      (insert_at_path s m level ((u, r) ∷ path) l).next_free ≡ new_node level l + 1
  unfolding insert_at_path widened
  final-next_free = widened-Frame.next_free

  pub final-level :
      (insert_at_path s m level ((u, r) ∷ path) l).level
      ≡ (if ltb l.level level then level else l.level)
  unfolding insert_at_path widened
  final-level = widened-Frame.level

  pub final-length : (insert_at_path s m level ((u, r) ∷ path) l).length ≡ l.length + 1
  unfolding insert_at_path widened
  final-length =
      ap (λ n. n + 1) (widened-Frame.size ∙ (raise-Kept (level - l.level) l.level l).frame.size)

  -- the nodes that were there
  module _ (y : ℕ) (n : y ≢ new_node level l) where
    pub final-score : ((insert_at_path s m level ((u, r) ∷ path) l).heap y).score ≡ (l.heap y).score
    unfolding insert_at_path widened
    final-score =
        let kept = (raise-Kept (level - l.level) l.level l).frame.score y in
        widened-Frame.score y ∙ ground (arith, n, kept)

    pub final-member :
        ((insert_at_path s m level ((u, r) ∷ path) l).heap y).member ≡ (l.heap y).member
    unfolding insert_at_path widened
    final-member =
        let kept = (raise-Kept (level - l.level) l.level l).frame.member y in
        widened-Frame.member y ∙ ground (arith, n, kept)

    pub final-height :
        length ((insert_at_path s m level ((u, r) ∷ path) l).heap y).forward
        ≡ length (l.heap y).forward
    unfolding insert_at_path widened
    final-height = widened-Frame.height y ∙ ap length (allocated-forward y n)

  -- the new node
  pub new-score : ((insert_at_path s m level ((u, r) ∷ path) l).heap (new_node level l)).score ≡ s
  unfolding insert_at_path widened
  new-score = widened-Frame.score (new_node level l) ∙ ap (λ n. n.score) allocated-node

  pub new-member : ((insert_at_path s m level ((u, r) ∷ path) l).heap (new_node level l)).member ≡ m
  unfolding insert_at_path widened
  new-member = widened-Frame.member (new_node level l) ∙ ap (λ n. n.member) allocated-node

  pub new-height :
      length ((insert_at_path s m level ((u, r) ∷ path) l).heap (new_node level l)).forward ≡ level
  unfolding insert_at_path widened
  new-height =
      widened-Frame.height (new_node level l)
      ∙ ap (λ n. length n.forward) allocated-node
      ∙ length-none level

  way-length : length way ≤ level
  unfolding way
  way-length =
      omega
        (arith, length-take_le level ((u, r) ∷ path ++ replicate (level - l.level) (l.header, 0)))

  pub final-top :
      (i : ℕ)
      → l.level ≤ i
      → level ≤ i
      → forward_at (insert_at_path s m level ((u, r) ∷ path) l) l.header i ≡ none
  final-top i b c =
      ap (λ f. get_or f i none) (final-forward l.header)
      ∙ spliced-Spliced.above l.header i (omega (arith, way-length, c))
      ∙ ap (λ f. get_or f i none)
          (allocated-forward l.header (λ e. ground (arith, new_node-unused, e)))
      ∙ ready.top i b
