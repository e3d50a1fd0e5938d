-- ===== src/Base/Sort.antt =====
-- `std::sort` on strings: the result is the sorted list of the same strings.
use mathlib.Core.List.{List, [], ◌∷◌}
use cpp_inference_engine.Base.Tests.{if◌then◌else◌, Bytes, str_lt}

unfoldable pub insert_sorted : Bytes → List Bytes → List Bytes
insert_sorted s [] = s ∷ []
insert_sorted s (t ∷ l) = let rest = insert_sorted s l in if str_lt t s then t ∷ rest else s ∷ t ∷ l

unfoldable pub sort : List Bytes → List Bytes
unfolding insert_sorted str_lt
sort [] = []
sort (s ∷ l) = insert_sorted s (sort l)
