-- ===== src/Rdb/Codec.antt =====
-- Numbers, byte strings and containers of a snapshot are read back from their bytes.
use cpp_inference_engine.Base.{
  ℕ, zero, suc, ◌/◌, ◌^◌, ◌≤◌, ◌<◌, ◌≡◌, ◌∙◌, sym, ap, refl, true, false, none, List, [], ◌∷◌, ◌++◌,
  append_assoc, append-nil, arith, Bytes, str_eq, str_eq_refl, str_eq_sound, length, length-append,
  take, drop, take-append_length, drop-append_length, All,
}
use cpp_inference_engine.Base.Dict.{Dict, find, put, Unique}
use cpp_inference_engine.Base.StrSet
use cpp_inference_engine.Base.StrSet.{StrSet, has, Distinct}
use cpp_inference_engine.Rdb.{put_le, put_bytes, put_pairs, put_items}
use cpp_inference_engine.Rdb.Load.{
  Reader, le_value, read_le, read_text, read_bytes, emplace, read_pairs, read_items, read_members,
}

-- a reader in front of `s`
abbrev pub at : Bytes → ℕ → Reader
at s d = record { rest = s; ok = true; drawn = d }

-- The number has no more than `n` bytes.
abbrev pub Fits : ℕ → ℕ → Type 0
Fits zero v = v ≡ 0
Fits (suc n) v = Fits n (v / 256)

pub le_value-put_le : (n v : ℕ) → Fits n v → le_value (put_le n v) ≡ v
unfolding le_value put_le
le_value-put_le zero v h = sym h
le_value-put_le (suc n) v h = omega (arith, le_value-put_le n (v / 256) h)

pub length-put_le : (n v : ℕ) → length (put_le n v) ≡ n
unfolding put_le
length-put_le zero v = refl
length-put_le (suc n) v = ap suc (length-put_le n (v / 256))

-- what `n` bytes in front of a rest are
module _ (a s : Bytes) (n : ℕ) (e : length a ≡ n) where
  pub take-front : take n (a ++ s) ≡ a
  take-front = rw (← e) (take-append_length a s)

  pub drop-front : drop n (a ++ s) ≡ s
  drop-front = rw (← e) (drop-append_length a s)

  pub front-le : n ≤ length (a ++ s)
  front-le = omega (arith, length-append a s, e)

pub read_le_lem :
    (n v : ℕ) (s : Bytes) (d : ℕ) → Fits n v → read_le n (at (put_le n v ++ s) d) ≡ (v, at s d)
unfolding read_le
read_le_lem n v s d h =
    let e = length-put_le n v in
    ground (
      arith,
      take-front (put_le n v) s n e,
      drop-front (put_le n v) s n e,
      front-le (put_le n v) s n e,
      le_value-put_le n v h,
    )

read_text_lem : (t s : Bytes) (d : ℕ) → read_text (length t) (at (t ++ s) d) ≡ (t, at s d)
unfolding read_text
read_text_lem t s d =
    ground (arith, take-append_length t s, drop-append_length t s, front-le t s (length t) refl)

-- the strings of a snapshot
abbrev pub IsShort : Bytes → Type 0
IsShort s = length s < 2 ^ 32

pub read_bytes_lem :
    (t s : Bytes) (d : ℕ) → IsShort t → read_bytes (at (put_bytes t ++ s) d) ≡ (t, at s d)
unfolding read_bytes
read_bytes_lem t s d h = ground (
  arith,
  append_assoc (put_le 4 (length t)) t s,
  read_le_lem 4 (length t) (t ++ s) d (omega arith),
  read_text_lem t s d,
)

-- A key that is not there goes to the end.
module _ {ℓ} {V : Type ℓ} where
  pub put-fresh : (k : Bytes) (v : V) (m : Dict V) → find k m ≡ none → put k v m ≡ m ++ (k, v) ∷ []
  unfolding find put
  put-fresh k v [] h = refl
  put-fresh k v ((j, w) ∷ m) h = ground (arith, put-fresh k v m)

  pub Unique-fresh :
      (k : Bytes) (v : V) (m rest : Dict V) → Unique (m ++ (k, v) ∷ rest) → find k m ≡ none
  unfolding find
  Unique-fresh k v [] rest u = refl
  Unique-fresh k v ((j, w) ∷ m) rest (fresh, u) =
      ground (arith, Unique-fresh k v m rest u, find-middle j m, str_eq_sound j k, str_eq_refl k)
    where
      find-middle :
          (j : Bytes) (m : Dict V) → find j (m ++ (k, v) ∷ rest) ≡ none → str_eq k j ≡ false
      find-middle j [] h = ground arith
      find-middle j ((i, w) ∷ m) h = ground (arith, find-middle j m)

emplace-fresh : (k v : Bytes) (m : Dict Bytes) → find k m ≡ none → emplace k v m ≡ m ++ (k, v) ∷ []
unfolding emplace
emplace-fresh k v m h = rw (h, emplace) (put-fresh k v m h)

insert-fresh : (m : Bytes) (s : StrSet) → has m s ≡ false → StrSet.insert m s ≡ s ++ m ∷ []
unfolding has StrSet.insert
insert-fresh m [] h = refl
insert-fresh m (x ∷ s) h = ground (arith, insert-fresh m s)

Distinct-fresh : (m : Bytes) (s rest : StrSet) → Distinct (s ++ m ∷ rest) → has m s ≡ false
unfolding has
Distinct-fresh m [] rest u = refl
Distinct-fresh m (x ∷ s) rest (fresh, u) =
    ground (arith, Distinct-fresh m s rest u, has-middle x s, str_eq_sound x m, str_eq_refl m)
  where
    has-middle : (x : Bytes) (s : StrSet) → has x (s ++ m ∷ rest) ≡ false → str_eq m x ≡ false
    has-middle x [] h = ground arith
    has-middle x (y ∷ s) h = ground (arith, has-middle x s)

-- ---- containers ----
abbrev pub IsShortPair : Bytes × Bytes → Type 0
IsShortPair (k, v) = IsShort k × IsShort v

pub read_pairs_lem :
    (h acc : Dict Bytes) (s : Bytes) (d : ℕ)
    → All IsShortPair h
    → Unique (acc ++ h)
    → read_pairs (length h) acc (at (put_pairs h ++ s) d) ≡ (acc ++ h, at s d)
unfolding read_pairs put_pairs
read_pairs_lem [] acc s d short u = rw append-nil
read_pairs_lem ((k, v) ∷ h) acc s d ((ks, vs), short) u =
    let tail = put_pairs h ++ s in
    let text =
      append_assoc (put_bytes k) (put_bytes v ++ put_pairs h) s
      ∙ ap (λ t. put_bytes k ++ t) (append_assoc (put_bytes v) (put_pairs h) s) in
    rw
      (
        text,
        read_bytes_lem k (put_bytes v ++ tail) d ks,
        read_bytes_lem v tail d vs,
        emplace-fresh k v acc (Unique-fresh k v acc h u),
      )
      (read_pairs_lem h (acc ++ (k, v) ∷ []) s d short (rw append_assoc u) ∙ rw append_assoc)

pub read_items_lem :
    (l acc : List Bytes) (s : Bytes) (d : ℕ)
    → All IsShort l
    → read_items (length l) acc (at (put_items l ++ s) d) ≡ (acc ++ l, at s d)
unfolding read_items put_items
read_items_lem [] acc s d short = rw append-nil
read_items_lem (x ∷ l) acc s d (xs, short) =
    rw (append_assoc (put_bytes x) (put_items l) s, read_bytes_lem x (put_items l ++ s) d xs)
      (read_items_lem l (acc ++ x ∷ []) s d short ∙ rw append_assoc)

pub read_members_lem :
    (l acc : StrSet) (s : Bytes) (d : ℕ)
    → All IsShort l
    → Distinct (acc ++ l)
    → read_members (length l) acc (at (put_items l ++ s) d) ≡ (acc ++ l, at s d)
unfolding read_members put_items
read_members_lem [] acc s d short u = rw append-nil
read_members_lem (x ∷ l) acc s d (xs, short) u =
    rw
      (
        append_assoc (put_bytes x) (put_items l) s,
        read_bytes_lem x (put_items l ++ s) d xs,
        insert-fresh x acc (Distinct-fresh x acc l u),
      )
      (read_members_lem l (acc ++ x ∷ []) s d short (rw append_assoc u) ∙ rw append_assoc)

abbrev pub IsShortScore : Bytes × ℕ → Type 0
IsShortScore (m, v) = IsShort m × (v < 2 ^ 64)
