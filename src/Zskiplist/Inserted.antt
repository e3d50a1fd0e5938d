-- ===== src/Zskiplist/Inserted.antt =====
-- `Insert` of src/zskiplist.cpp is an insertion into the sorted list of scores and members.
use cpp_inference_engine.Base.{
  ℕ, zero, suc, ◌≡◌, ◌∙◌, sym, ap, subst, refl, Bool, true, false, arith, none, List, [], ◌∷◌,
  Bytes, length, get_or, map,
}
use cpp_inference_engine.Base.Double.{is_nan}
use cpp_inference_engine.Value.{SkipList}
use cpp_inference_engine.Zskiplist.{
  fresh_node, empty_list, random_level, before_key, search, contains, insert, insert_at_path,
}
use cpp_inference_engine.Zskiplist.Range.{scored, nodes}
use cpp_inference_engine.Zskiplist.Place.{place}
use cpp_inference_engine.Zskiplist.Lookup.{has_key, nodes-IsList, contains-IsList}
use cpp_inference_engine.Zskiplist.Assemble.{new_node, new_node-unused}
use cpp_inference_engine.Zskiplist.Stored.{
  IsStored, insert_scored, search-Ready, length-search, no_candidate,
}
use cpp_inference_engine.Zskiplist.Grown.{grown, grown-IsStored, scored-place, is_in-tail}

-- On a well-formed skip list, `Insert` of a key that no node has and whose score is a number,
-- whatever levels are drawn, returns true, leaves a well-formed skip list, and the list of its
-- scores and members is the old one with the key inserted in its place.
pub insert-IsStored :
    (flips : ℕ → Bool) (s : ℕ) (m : Bytes) (l : SkipList) (xs : List ℕ)
    → IsStored l xs
    → is_nan s ≡ false
    → has_key s m (nodes l) ≡ false
    → ((insert flips s m l).0 ≡ true)
      × ((ys : List ℕ) × IsStored (insert flips s m l).1 ys)
      × (map scored (nodes (insert flips s m l).1) ≡ insert_scored s m (map scored (nodes l)))
unfolding insert grown
insert-IsStored flips s m l xs w num fresh = split (search s m l) refl
  where
    absent : contains s m l ≡ false
    absent = contains-IsList s m l xs w.list ∙ fresh

    split :
        (p : List (ℕ × ℕ))
        → search s m l ≡ p
        → ((insert flips s m l).0 ≡ true)
          × ((ys : List ℕ) × IsStored (insert flips s m l).1 ys)
          × (map scored (nodes (insert flips s m l).1) ≡ insert_scored s m (map scored (nodes l)))
    split [] e = absurd (omega (arith, ap length e, length-search s m flips l xs w, w.list.levels))
    split ((u, r) ∷ path) e =
        let ready = search-Ready s m flips l xs w u r path e in
        let level = random_level flips in
        let l' = insert_at_path s m level ((u, r) ∷ path) l in
        let before = nodes-IsList l xs w.list in
        let k = subst (λ ns. has_key s m ns ≡ false) before fresh in
        let stored = grown-IsStored s m level l xs num u r path ready w k in
        let order = scored-place s m level l xs num u r path ready xs (
          is_in-tail (new_node level l) l.header xs
            (new_node-unused (before_key s m) l xs s m level u r path ready)) in
        let ys = place (before_key s m) l (new_node level l) xs in
        let result : insert flips s m l ≡ (true, l') =
          rw (insert, no_candidate s m flips l xs w absent, e) refl in
        subst
          (λ o.
            (o.0 ≡ true)
            × ((ys : List ℕ) × IsStored o.1 ys)
            × (map scored (nodes o.1) ≡ insert_scored s m (map scored (nodes l))))
          (sym result)
          (
            refl,
            (ys, stored),
            ap (map scored) (nodes-IsList l' ys stored.list)
                ∙ order
                ∙ ap (λ ns. insert_scored s m (map scored ns)) (sym before),
          )

get_or-replicate : (n i : ℕ) → get_or (fresh_node 0 [] n).forward i none ≡ none
get_or-replicate zero i = refl
get_or-replicate (suc n) zero = refl
get_or-replicate (suc n) (suc i) = get_or-replicate n i

pub empty_list-IsStored : IsStored empty_list []
empty_list-IsStored = record {
  list = record { chained = refl; sorted = tt; size = refl; levels = omega arith };
  below = (omega arith, tt);
  apart = (refl, tt);
  tall = (omega arith, tt);
  top = λ i b. get_or-replicate 32 i;
  numbers = tt;
}
