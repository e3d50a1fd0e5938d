-- ===== src/Tests/Containers.antt =====
-- Patterns, lists and sets.
use cpp_inference_engine.Base.{
  ◌<◌, ◌≤◌, ◌≡◌, ◌≢◌, ◌↔◌, refl, true, false, none, some, List, [], ◌∷◌, arith, Bytes, codes,
  length, take, drop,
}
use cpp_inference_engine.Base.Int.{negsuc, ◌+ℤ◌}
use cpp_inference_engine.Glob.{glob_match, Matches}
use cpp_inference_engine.Glob.Complete.{NoStar}
use cpp_inference_engine.Glob.Fuel.{glob_match_total}
use cpp_inference_engine.Glob.Decides.{glob_match_iff, star_refused}
use cpp_inference_engine.Commands.State.{ok}
use cpp_inference_engine.Commands.Lists.{list_index_range, slice, trim, push_all, pop_one, pop_loop}
use cpp_inference_engine.Commands.Lists.Windows.{
  list_index_range_bounds, slice_lem, trim_lem, pop_one-push_all, rejoin, pop_loop_lem,
}

-- ---- patterns ----
no_star : NoStar (codes "hello")
no_star = (omega arith, (omega arith, (omega arith, (omega arith, (omega arith, tt)))))

glob_match_iff_example :
    (glob_match (codes "h?l*") (codes "hello") ≡ some true) ↔ Matches (codes "h?l*") (codes "hello")
glob_match_iff_example = glob_match_iff (codes "h?l*") (codes "hello") no_star

star_refused_example :
    (glob_match (b'*' ∷ []) (b'*' ∷ b'a' ∷ []) ≡ some false)
    × Matches (b'*' ∷ []) (b'*' ∷ b'a' ∷ [])
star_refused_example = star_refused b'a' []

glob_match_total_example : glob_match (codes "a*b*") (codes "xaxb") ≢ none
glob_match_total_example = glob_match_total (codes "a*b*") (codes "xaxb")

-- ---- lists ----
abbrev abc : List Bytes
abc = codes "a" ∷ codes "b" ∷ codes "c" ∷ []

window : list_index_range (negsuc 1) (negsuc 0) 3 ≡ some (1, 2)
unfolding list_index_range ◌+ℤ◌
window = refl

list_index_range_bounds_example : (1 ≤ 2) × (2 < 3)
list_index_range_bounds_example = list_index_range_bounds (negsuc 1) (negsuc 0) 3 1 2 window

slice_lem_example : slice 0 1 2 abc ≡ take 2 (drop 1 abc)
slice_lem_example = slice_lem 1 2 abc (omega arith)

trim_lem_example : trim 0 1 2 abc ≡ take 2 (drop 1 abc)
trim_lem_example = trim_lem 1 2 abc (omega arith)

pop_one-push_all_example :
    pop_one false (push_all false (codes "x" ∷ codes "y" ∷ []) abc)
    ≡ some (codes "y", push_all false (codes "x" ∷ []) abc)
pop_one-push_all_example = pop_one-push_all false (codes "x" ∷ []) (codes "y") abc

pop_loop_lem_example :
    (items : List Bytes) × (rest : List Bytes) × (pop_loop 2 false abc ≡ ok (items, rest))
    × (length items ≡ 2)
    × (rejoin false items rest ≡ abc)
pop_loop_lem_example = pop_loop_lem 2 false abc (omega arith)

glob_samples :
    (glob_match (codes "h?l*o") (codes "hello world o") ≡ some true)
    × (glob_match (codes "*a*b") (codes "xaxbxb") ≡ some true)
    × (glob_match (codes "a*c") (codes "ab") ≡ some false)
unfolding glob_match
glob_samples = (refl, refl, refl)
