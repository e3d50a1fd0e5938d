-- ===== src/Base/StrSet.antt =====
-- `std::unordered_set<std::string>` as the list of its members in iteration order.
use Prim.Native.Nat.{suc}
use mathlib.Core.Path.{◌≡◌, refl}
use mathlib.Core.Logic.{◌≢◌}
use mathlib.Core.Bool.{Bool, true, false, ◌||◌}
use mathlib.Core.List.{List, [], ◌∷◌}
use native.Mathlib.Omega.{arith}
use cpp_inference_engine.Base.Tests.{if◌then◌else◌, Bytes, str_eq, str_eq_iff}
use cpp_inference_engine.Base.Lists.{length}

abbrev pub StrSet : Type 0
StrSet = List Bytes

-- `s.count(m)`
unfoldable pub has : Bytes → StrSet → Bool
has m [] = false
has m (x ∷ s) = let rest = has m s in if str_eq x m then true else rest

-- `s.insert(m)`
unfoldable pub insert : Bytes → StrSet → StrSet
insert m [] = m ∷ []
insert m (x ∷ s) = let rest = insert m s in if str_eq x m then x ∷ s else x ∷ rest

-- `s.erase(m)`
unfoldable pub remove : Bytes → StrSet → StrSet
remove m [] = []
remove m (x ∷ s) = let rest = remove m s in if str_eq x m then s else x ∷ rest

abbrev pub Distinct : StrSet → Type 0
Distinct [] = Unit
Distinct (x ∷ s) = (has x s ≡ false) × Distinct s

pub has-insert : (m j : Bytes) (s : StrSet) → has j (insert m s) ≡ (str_eq m j || has j s)
unfolding has insert
has-insert m j [] = ground arith
has-insert m j (x ∷ s) =
    ground (arith, has-insert m j s, str_eq_iff x m, str_eq_iff x j, str_eq_iff m j)

pub insert-Distinct : (m : Bytes) (s : StrSet) → Distinct s → Distinct (insert m s)
unfolding insert
insert-Distinct m [] d = (unfold has in refl, tt)
insert-Distinct m (x ∷ s) (fresh, d) =
    ground (arith, insert-Distinct m s d, has-insert m x s, str_eq_iff x m, str_eq_iff m x)

has-remove_ne : (m j : Bytes) (s : StrSet) → m ≢ j → has j (remove m s) ≡ has j s
unfolding has remove
has-remove_ne m j [] h = refl
has-remove_ne m j (x ∷ s) h = ground (arith, has-remove_ne m j s h, str_eq_iff x m, str_eq_iff x j)

has-remove_self : (m : Bytes) (s : StrSet) → Distinct s → has m (remove m s) ≡ false
unfolding has remove
has-remove_self m [] d = refl
has-remove_self m (x ∷ s) (fresh, d) = ground (arith, has-remove_self m s d, str_eq_iff x m)

pub has-remove :
    (m j : Bytes) (s : StrSet)
    → Distinct s
    → has j (remove m s) ≡ (if str_eq m j then false else has j s)
has-remove m j s d = ground (arith, has-remove_ne m j s, has-remove_self m s d, str_eq_iff m j)

has-remove_fresh : (m j : Bytes) (s : StrSet) → has j s ≡ false → has j (remove m s) ≡ false
unfolding has remove
has-remove_fresh m j [] h = refl
has-remove_fresh m j (x ∷ s) h = ground (arith, has-remove_fresh m j s)

pub remove-Distinct : (m : Bytes) (s : StrSet) → Distinct s → Distinct (remove m s)
unfolding remove
remove-Distinct m [] d = tt
remove-Distinct m (x ∷ s) (fresh, d) =
    ground (arith, remove-Distinct m s d, has-remove_fresh m x s fresh)

pub length-insert :
    (m : Bytes) (s : StrSet) → length (insert m s) ≡ (if has m s then length s else suc (length s))
unfolding has insert
length-insert m [] = refl
length-insert m (x ∷ s) = ground (arith, length-insert m s)

pub length-remove :
    (m : Bytes) (s : StrSet)
    → length s ≡ (if has m s then suc (length (remove m s)) else length (remove m s))
unfolding has remove
length-remove m [] = refl
length-remove m (x ∷ s) = ground (arith, length-remove m s)
