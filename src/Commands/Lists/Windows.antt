-- ===== src/Commands/Lists/Windows.antt =====
-- What the list commands take out of a list: windows, ends and values.
use cpp_inference_engine.Base.{
  ℕ, zero, suc, ◌+◌, ◌-◌, ◌<◌, ◌≤◌, ◌≡◌, ◌∙◌, ap, refl, Bool, true, false, some, List, [], ◌∷◌,
  ◌++◌, arith, Bytes, length, length-append, take, drop, sym, append_assoc, append-nil,
}
use mathlib.Core.List.{reverse, reverse-cons}
use cpp_inference_engine.Base.Int.{ℤ, ◌+ℤ◌}
use cpp_inference_engine.Commands.State.{ok}
use cpp_inference_engine.Commands.Lists.{
  list_index_range, slice, trim, push_all, pop_back, pop_one, pop_loop,
}

-- A window that `ListIndexRange` gives for two integers and a length starts no later than it
-- stops, and stops inside the list.
pub list_index_range_bounds :
    (start stop : ℤ) (llen a b : ℕ)
    → list_index_range start stop llen ≡ some (a, b)
    → (a ≤ b) × (b < llen)
unfolding list_index_range ◌+ℤ◌
list_index_range_bounds start stop llen a b h = ground arith

slice-past : (i start stop : ℕ) (l : List Bytes) → stop < i → slice i start stop l ≡ []
unfolding slice
slice-past i start stop [] h = refl
slice-past i start stop (v ∷ l) h = ground arith

slice-from :
    (i start b n : ℕ) (l : List Bytes) → start ≤ i → b ≡ i + n → slice i start b l ≡ take (suc n) l
unfolding slice
slice-from i start b n [] h e = refl
slice-from i start b zero (v ∷ l) h e = ground (arith, slice-past (i + 1) start b l)
slice-from i start b (suc n) (v ∷ l) h e =
    ground (arith, slice-from (i + 1) start b n l (omega arith) (omega arith))

slice-skip :
    (i a b k n : ℕ) (l : List Bytes)
    → a ≡ i + k
    → b ≡ a + n
    → slice i a b l ≡ take (suc n) (drop k l)
slice-skip i a b zero n l h e = slice-from i a b n l (omega arith) (omega arith)
slice-skip i a b (suc k) n [] h e = unfold slice in refl
slice-skip i a b (suc k) n (v ∷ l) h e =
    slice-cons i a b v l (omega arith) (omega arith) ∙ slice-skip (i + 1) a b k n l (omega arith) e
  where
    slice-cons :
        (i a b : ℕ) (v : Bytes) (l : List Bytes)
        → i < a
        → i ≤ b
        → slice i a b (v ∷ l) ≡ slice (i + 1) a b l
    slice-cons i a b v l h k = unfold slice in ground arith

-- For a window from the index a to the index b, with a at most b, the loop of LRANGE collects the
-- values from a to b, as far as the list has them.
pub slice_lem : (a b : ℕ) (l : List Bytes) → a ≤ b → slice 0 a b l ≡ take (suc (b - a)) (drop a l)
slice_lem a b l h = slice-skip 0 a b a (b - a) l (omega arith) (omega arith)

trim-past : (i start stop : ℕ) (l : List Bytes) → stop < i → trim i start stop l ≡ []
unfolding trim
trim-past i start stop [] h = refl
trim-past i start stop (v ∷ l) h = ground (arith, trim-past (i + 1) start stop l (omega arith))

trim-slice : (i a b : ℕ) (l : List Bytes) → trim i a b l ≡ slice i a b l
unfolding trim slice
trim-slice i a b [] = refl
trim-slice i a b (v ∷ l) = ground (arith, trim-slice (i + 1) a b l, trim-past (i + 1) a b l)

-- For a window from the index a to the index b, with a at most b, the loop of LTRIM leaves the
-- values from a to b, as far as the list has them.
pub trim_lem : (a b : ℕ) (l : List Bytes) → a ≤ b → trim 0 a b l ≡ take (suc (b - a)) (drop a l)
trim_lem a b l h = trim-slice 0 a b l ∙ slice_lem a b l h

pop_back-append : (l : List Bytes) (v : Bytes) → pop_back (l ++ v ∷ []) ≡ some (v, l)
unfolding pop_back
pop_back-append [] v = refl
pop_back-append (w ∷ l) v = ground (arith, pop_back-append l v)

-- The last value that a push puts at an end of a list is the one that a pop takes from that end;
-- what is left is the list after the push of the other values.
pub pop_one-push_all :
    (left : Bool) (vs : List Bytes) (v : Bytes) (l : List Bytes)
    → pop_one left (push_all left (vs ++ v ∷ []) l) ≡ some (v, push_all left vs l)
unfolding pop_one push_all
pop_one-push_all true [] v l = refl
pop_one-push_all true (w ∷ vs) v l = pop_one-push_all true vs v (w ∷ l)
pop_one-push_all false [] v l = pop_back-append l v
pop_one-push_all false (w ∷ vs) v l = pop_one-push_all false vs v (l ++ w ∷ [])

pop_back-some :
    (v : Bytes) (l : List Bytes)
    → (w : Bytes) × (r : List Bytes) × (pop_back (v ∷ l) ≡ some (w, r)) × (r ++ w ∷ [] ≡ v ∷ l)
unfolding pop_back
pop_back-some v [] = (v, [], refl, refl)
pop_back-some v (u ∷ l) =
    let (w, r, e, q) = pop_back-some u l in (w, v ∷ r, ground (arith, e), ap (λ t. v ∷ t) q)

-- what was popped, put back at its end
abbrev pub rejoin : Bool → List Bytes → List Bytes → List Bytes
rejoin true items rest = items ++ rest
rejoin false items rest = rest ++ reverse items

pop_one-some :
    (left : Bool) (v : Bytes) (l : List Bytes)
    → (w : Bytes) × (r : List Bytes) × (pop_one left (v ∷ l) ≡ some (w, r))
      × (rejoin left (w ∷ []) r ≡ v ∷ l)
unfolding pop_one
pop_one-some true v l = (v, l, refl, refl)
pop_one-some false v l = pop_back-some v l

rejoin-cons :
    (left : Bool) (w : Bytes) (items rest : List Bytes)
    → rejoin left (w ∷ items) rest ≡ rejoin left (w ∷ []) (rejoin left items rest)
rejoin-cons true w items rest = refl
rejoin-cons false w items rest =
    ap (λ t. rest ++ t) (reverse-cons w items) ∙ sym (append_assoc rest (reverse items) (w ∷ []))

length-rejoin :
    (left : Bool) (w : Bytes) (r : List Bytes) → length (rejoin left (w ∷ []) r) ≡ suc (length r)
length-rejoin true w r = refl
length-rejoin false w r = omega (arith, length-append r (w ∷ []))

-- A pop of n values from a list of n values or more does not read an empty list, and takes n
-- values; put back at the end that they came from, they give the list.
pub pop_loop_lem :
    (n : ℕ) (left : Bool) (l : List Bytes)
    → n ≤ length l
    → (items : List Bytes) × (rest : List Bytes) × (pop_loop n left l ≡ ok (items, rest))
      × (length items ≡ n)
      × (rejoin left items rest ≡ l)
unfolding pop_loop
pop_loop_lem zero left l h = ([], l, refl, refl, rejoin-nil left l)
  where
    rejoin-nil : (left : Bool) (l : List Bytes) → rejoin left [] l ≡ l
    rejoin-nil true l = refl
    rejoin-nil false l = append-nil l
pop_loop_lem (suc n) left [] h = absurd (omega arith)
pop_loop_lem (suc n) left (v ∷ l) h =
    let (w, r, e, q) = pop_one-some left v l in
    let (items, rest, e', c, q') =
      pop_loop_lem n left r (omega (arith, length-rejoin left w r, ap length q)) in
    (
      w ∷ items,
      rest,
      ground (arith, e, e'),
      omega arith,
      rejoin-cons left w items rest ∙ ap (rejoin left (w ∷ [])) q' ∙ q,
    )
