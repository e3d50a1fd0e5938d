-- ===== src/Tests/Scored.antt =====
-- Skip lists.
use cpp_inference_engine.Base.{
  ℕ, ◌≡◌, refl, Bool, ◌&&◌, true, none, some, [], ◌∷◌, codes, str_eq, str_lt, ◌==◌, map, List,
}
use cpp_inference_engine.Base.Double.{dlt, deq}
use cpp_inference_engine.Base.Int.{negsuc, ◌+ℤ◌}
use cpp_inference_engine.Value.{SkipList}
use cpp_inference_engine.Zskiplist.{empty_list, insert, erase, contains}
use cpp_inference_engine.Zskiplist.Range.{rank, range_by_rank, nodes, scored}
use cpp_inference_engine.Zskiplist.Lookup.{has_key, contains-IsList}
use cpp_inference_engine.Zskiplist.Stored.{IsStored, insert_scored}
use cpp_inference_engine.Zskiplist.Inserted.{insert-IsStored, empty_list-IsStored}

-- two levels for the second number, one for the others
abbrev flips_at : ℕ → ℕ → Bool
flips_at n i = (n == 1) && (i == 1)

abbrev add_three : SkipList
unfolding insert
add_three =
    let a = (insert (flips_at 0) 5 (codes "m") empty_list).1 in
    let b = (insert (flips_at 1) 7 (codes "n") a).1 in (insert (flips_at 2) 3 (codes "l") b).1

ranks :
    (rank 5 (codes "m") add_three ≡ some 1)
    × (rank 7 (codes "n") add_three ≡ some 2)
    × (rank 3 (codes "l") add_three ≡ some 0)
    × (rank 4 (codes "l") add_three ≡ none)
    × (rank 7 (codes "n") (erase 5 (codes "m") add_three).1 ≡ some 1)
    × (range_by_rank (negsuc 1) (negsuc 0) true add_three ≡ (5, codes "m") ∷ (3, codes "l") ∷ [])
unfolding insert rank erase range_by_rank str_lt str_eq deq dlt ◌+ℤ◌
ranks = (refl, refl, refl, refl, refl, refl)

-- a list with one node
abbrev one_node : SkipList
one_node = (insert (flips_at 1) 5 (codes "m") empty_list).1

one_node-IsStored : (xs : List ℕ) × IsStored one_node xs
unfolding has_key nodes
one_node-IsStored =
    (insert-IsStored (flips_at 1) 5 (codes "m") empty_list [] empty_list-IsStored refl refl).1

insert-IsStored_example :
    ((insert (flips_at 0) 3 (codes "l") one_node).0 ≡ true)
    × ((ys : List ℕ) × IsStored (insert (flips_at 0) 3 (codes "l") one_node).1 ys)
    × (map scored (nodes (insert (flips_at 0) 3 (codes "l") one_node).1)
        ≡ insert_scored 3 (codes "l") (map scored (nodes one_node)))
unfolding has_key nodes insert str_eq deq
insert-IsStored_example =
    insert-IsStored (flips_at 0) 3 (codes "l") one_node one_node-IsStored.0 one_node-IsStored.1 refl
      refl

contains-IsList_example : contains 5 (codes "m") one_node ≡ has_key 5 (codes "m") (nodes one_node)
contains-IsList_example =
    contains-IsList 5 (codes "m") one_node one_node-IsStored.0 one_node-IsStored.1.list
