-- ===== src/Base/Dict.antt =====
-- `std::unordered_map<std::string, V>` as the list of its entries, in the order in which an iterator
-- meets them. A new entry goes to the end; the program does not rely on the order.
use Prim.Native.Nat.{ℕ, suc, ◌+◌}
use mathlib.Core.Path.{◌≡◌, refl}
use mathlib.Core.Logic.{◌≢◌}
use mathlib.Core.Option.{Option, none, some}
use mathlib.Core.List.{List, [], ◌∷◌}
use native.Mathlib.Omega.{arith}
use cpp_inference_engine.Base.Tests.{
  if◌then◌else◌, Bytes, str_eq, str_eq_iff, str_eq_refl, str_eq_sound,
}
use cpp_inference_engine.Base.Lists.{length}

abbrev pub Dict {ℓ} : Type ℓ → Type ℓ
Dict V = List (Bytes × V)

module _ {ℓ} {V : Type ℓ} where
  -- `m.find(k)`, the value of the entry, unless it is the end
  unfoldable pub find : Bytes → Dict V → Option V
  find k [] = none
  find k ((j, v) ∷ m) = if str_eq j k then some v else find k m

  -- `m[k] = v`
  unfoldable pub put : Bytes → V → Dict V → Dict V
  put k v [] = (k, v) ∷ []
  put k v ((j, w) ∷ m) = if str_eq j k then (j, v) ∷ m else (j, w) ∷ put k v m

  -- `m.erase(k)`
  unfoldable pub erase : Bytes → Dict V → Dict V
  erase k [] = []
  erase k ((j, w) ∷ m) = if str_eq j k then m else (j, w) ∷ erase k m

  -- The keys of a map are distinct.
  abbrev pub Unique : Dict V → Type ℓ
  Unique [] = Unit
  Unique ((j, v) ∷ m) = (find j m ≡ none) × Unique m

  -- the sum of a measure of the entries
  unfoldable pub total : (Bytes → V → ℕ) → Dict V → ℕ
  total f [] = 0
  total f ((j, v) ∷ m) = f j v + total f m

module _ {ℓ} {V : Type ℓ} where
  pub find-put :
      (k j : Bytes) (v : V) (m : Dict V)
      → find j (put k v m) ≡ (if str_eq k j then some v else find j m)
  unfolding find put
  find-put k j v [] = refl
  find-put k j v ((i, w) ∷ m) =
      ground (arith, find-put k j v m, str_eq_iff i k, str_eq_iff i j, str_eq_iff k j)

  pub find-put_self : (k : Bytes) (v : V) (m : Dict V) → find k (put k v m) ≡ some v
  find-put_self k v m = rw (find-put k k v m, str_eq_refl k)

  pub find-put_ne : (k j : Bytes) (v : V) (m : Dict V) → k ≢ j → find j (put k v m) ≡ find j m
  find-put_ne k j v m h = ground (arith, find-put k j v m, str_eq_iff k j)

  pub find-erase_ne : (k j : Bytes) (m : Dict V) → k ≢ j → find j (erase k m) ≡ find j m
  unfolding find erase
  find-erase_ne k j [] h = refl
  find-erase_ne k j ((i, w) ∷ m) h =
      ground (arith, find-erase_ne k j m h, str_eq_iff i k, str_eq_iff i j)

  pub find-erase_self : (k : Bytes) (m : Dict V) → Unique m → find k (erase k m) ≡ none
  unfolding find erase
  find-erase_self k [] h = refl
  find-erase_self k ((i, w) ∷ m) (fresh, u) = ground (arith, find-erase_self k m u, str_eq_iff i k)

  pub find-erase :
      (k j : Bytes) (m : Dict V)
      → Unique m
      → find j (erase k m) ≡ (if str_eq k j then none else find j m)
  find-erase k j m u = ground (arith, find-erase_self k m u, find-erase_ne k j m, str_eq_iff k j)

  pub erase-fresh : (k : Bytes) (m : Dict V) → find k m ≡ none → erase k m ≡ m
  unfolding find erase
  erase-fresh k [] h = refl
  erase-fresh k ((i, w) ∷ m) h = ground (arith, erase-fresh k m)

  pub put-Unique : (k : Bytes) (v : V) (m : Dict V) → Unique m → Unique (put k v m)
  unfolding put
  put-Unique k v [] u = (unfold find in refl, tt)
  put-Unique k v ((i, w) ∷ m) (fresh, u) =
      ground (arith, put-Unique k v m u, find-put k i v m, str_eq_iff i k, str_eq_iff k i)

  find-erase_fresh : (k j : Bytes) (m : Dict V) → find j m ≡ none → find j (erase k m) ≡ none
  unfolding find erase
  find-erase_fresh k j [] h = refl
  find-erase_fresh k j ((i, w) ∷ m) h = ground (arith, find-erase_fresh k j m)

  pub erase-Unique : (k : Bytes) (m : Dict V) → Unique m → Unique (erase k m)
  unfolding erase
  erase-Unique k [] u = tt
  erase-Unique k ((i, w) ∷ m) (fresh, u) =
      ground (arith, erase-Unique k m u, find-erase_fresh k i m fresh)

  pub total-put_fresh :
      (f : Bytes → V → ℕ) (k : Bytes) (v : V) (m : Dict V)
      → find k m ≡ none
      → total f (put k v m) ≡ total f m + f k v
  unfolding total put find
  total-put_fresh f k v [] h = omega arith
  total-put_fresh f k v ((i, w) ∷ m) h = ground (arith, total-put_fresh f k v m)

  pub total-put :
      (f : Bytes → V → ℕ) (k : Bytes) (v old : V) (m : Dict V)
      → find k m ≡ some old
      → total f (put k v m) + f k old ≡ total f m + f k v
  unfolding total put find
  total-put f k v old [] h = cc
  total-put f k v old ((i, w) ∷ m) h = ground (arith, total-put f k v old m, str_eq_sound i k)

  pub total-erase :
      (f : Bytes → V → ℕ) (k : Bytes) (old : V) (m : Dict V)
      → find k m ≡ some old
      → total f (erase k m) + f k old ≡ total f m
  unfolding total erase find
  total-erase f k old [] h = cc
  total-erase f k old ((i, w) ∷ m) h = ground (arith, total-erase f k old m, str_eq_sound i k)

  pub length-put_fresh :
      (k : Bytes) (v : V) (m : Dict V) → find k m ≡ none → length (put k v m) ≡ suc (length m)
  unfolding put find
  length-put_fresh k v [] h = refl
  length-put_fresh k v ((i, w) ∷ m) h = ground (arith, length-put_fresh k v m)

  pub length-put_found :
      (k : Bytes) (v old : V) (m : Dict V) → find k m ≡ some old → length (put k v m) ≡ length m
  unfolding put find
  length-put_found k v old [] h = cc
  length-put_found k v old ((i, w) ∷ m) h = ground (arith, length-put_found k v old m)

  pub length-erase :
      (k : Bytes) (old : V) (m : Dict V) → find k m ≡ some old → suc (length (erase k m)) ≡ length m
  unfolding erase find
  length-erase k old [] h = cc
  length-erase k old ((i, w) ∷ m) h = ground (arith, length-erase k old m)
