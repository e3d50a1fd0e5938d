-- ===== src/Rdb/Values.antt =====
-- Values and entries of a snapshot are read back, skip lists aside.
use cpp_inference_engine.Base.{
  ℕ, ◌+◌, ◌^◌, ◌<◌, ◌≡◌, ◌∙◌, ap, refl, Bool, true, some, [], ◌∷◌, ◌++◌, append_assoc, append-nil,
  arith, Bytes, length, All,
}
use cpp_inference_engine.Base.Int.{ℤ, pos, negsuc, in_range64, wrap64}
use cpp_inference_engine.Base.Dict.{Dict, Unique}
use cpp_inference_engine.Base.StrSet.{Distinct}
use cpp_inference_engine.Value.{
  SkipList, Value, raw_string, hash_value, list_value, set_value, zset_value, type_of,
}
use cpp_inference_engine.Zskiplist
use cpp_inference_engine.Zskiplist.{empty_list}
use cpp_inference_engine.Db.{Entry, Database, set_key}
use cpp_inference_engine.Rdb.{
  put_le, put_bytes, put_scores, put_value, put_entry, type_code, to_u64,
}
use cpp_inference_engine.Rdb.Load.{read_scores, read_value, read_entry, from_u64, done}
use cpp_inference_engine.Rdb.Codec.{
  at, Fits, IsShort, IsShortPair, IsShortScore, read_le_lem, read_bytes_lem, put-fresh,
  Unique-fresh, read_pairs_lem, read_items_lem, read_members_lem,
}

read_scores_lem :
    (flips : ℕ → ℕ → Bool) (z acc : Dict ℕ) (l : SkipList) (s : Bytes) (d : ℕ)
    → All IsShortScore z
    → Unique (acc ++ z)
    → (l' : SkipList) × (d' : ℕ) × (read_scores flips (length z) acc l (at (put_scores z ++ s) d)
        ≡ (acc ++ z, l', at s d'))
unfolding read_scores put_scores
read_scores_lem flips [] acc l s d short u = (l, d, rw append-nil)
read_scores_lem flips ((m, v) ∷ z) acc l s d ((ms, vs), short) u =
    let tail = put_scores z ++ s in
    let text =
      append_assoc (put_bytes m) (put_le 8 v ++ put_scores z) s
      ∙ ap (λ t. put_bytes m ++ t) (append_assoc (put_le 8 v) (put_scores z) s) in
    let (l', d', e) =
      read_scores_lem flips z (acc ++ (m, v) ∷ []) (Zskiplist.insert (flips d) v m l).1 s (d + 1)
        short (rw append_assoc u) in
    (
      l',
      d',
      rw
          (
            text,
            read_bytes_lem m (put_le 8 v ++ tail) d ms,
            read_le_lem 8 v tail d (omega arith),
            put-fresh m v acc (Unique-fresh m v acc z u),
          )
          (e ∙ rw append_assoc),
    )

-- A value that the format can hold.
abbrev pub IsStorable : Value → Type 0
IsStorable (raw_string s) = IsShort s
IsStorable (hash_value h) = (length h < 2 ^ 32) × All IsShortPair h × Unique h
IsStorable (list_value l) = (length l < 2 ^ 32) × All IsShort l
IsStorable (set_value s) = (length s < 2 ^ 32) × All IsShort s × Distinct s
IsStorable (zset_value z) = (length z.dict < 2 ^ 32) × All IsShortScore z.dict × Unique z.dict

-- a value without the skip list of a sorted set
abbrev pub plain : Value → Value
plain (zset_value z) = zset_value (record { sl = empty_list; dict = z.dict })
plain (raw_string s) = raw_string s
plain (hash_value h) = hash_value h
plain (list_value l) = list_value l
plain (set_value s) = set_value s

pub from_u64-to_u64 : (a : ℤ) → in_range64 a ≡ true → from_u64 (to_u64 a) ≡ a
unfolding to_u64 wrap64
from_u64-to_u64 (pos n) h = ground arith
from_u64-to_u64 (negsuc n) h = ground arith

pub to_u64-lt : (a : ℤ) → to_u64 a < 2 ^ 64
unfolding to_u64
to_u64-lt (pos n) = omega arith
to_u64-lt (negsuc n) = omega arith

-- what `read_value` gives in front of the payload of `v`
abbrev Reads : (ℕ → ℕ → Bool) → Value → Bytes → ℕ → Type 0
Reads flips v s d =
    (w : Value) × (d' : ℕ) × (read_value flips (type_code (type_of v)) (at (put_value v ++ s) d)
      ≡ some (w, at s d'))
    × (plain w ≡ plain v)

pub read_value_lem :
    (flips : ℕ → ℕ → Bool) (v : Value) (s : Bytes) (d : ℕ) → IsStorable v → Reads flips v s d
unfolding read_value put_value type_code type_of
read_value_lem flips (raw_string t) s d h = (raw_string t, d, rw (read_bytes_lem t s d h), refl)
read_value_lem flips (hash_value t) s d (n, short, u) = (
  hash_value t,
  d,
  rw (append_assoc, read_le_lem 4 (length t) _ d (omega arith), read_pairs_lem t [] s d short u),
  refl,
)
read_value_lem flips (list_value t) s d (n, short) = (
  list_value t,
  d,
  rw (append_assoc, read_le_lem 4 (length t) _ d (omega arith), read_items_lem t [] s d short),
  refl,
)
read_value_lem flips (set_value t) s d (n, short, u) = (
  set_value t,
  d,
  rw (append_assoc, read_le_lem 4 (length t) _ d (omega arith), read_members_lem t [] s d short u),
  refl,
)
read_value_lem flips (zset_value z) s d (n, short, u) =
    let (l', d', e) = read_scores_lem flips z.dict [] empty_list s d short u in
    (
      zset_value (record { sl = l'; dict = z.dict }),
      d',
      rw (append_assoc, read_le_lem 4 (length z.dict) _ d (omega arith), e),
      refl,
    )

-- An entry that the format can hold.
abbrev pub IsStorableEntry : Bytes × Entry → Type 0
IsStorableEntry (k, e) = IsShort k × (in_range64 e.expires_at_ms ≡ true) × IsStorable e.value

pub read_entry_lem :
    (flips : ℕ → ℕ → Bool) (idx : ℕ) (k : Bytes) (e : Entry) (s : Bytes) (d : ℕ) (db : Database)
    → IsStorableEntry (k, e)
    → (w : Value) × (d' : ℕ) × (read_entry flips idx (at (put_entry k e ++ s) d) db
        ≡ done (at s d', set_key idx k w e.expires_at_ms db))
      × (plain w ≡ plain e.value)
unfolding read_entry put_entry
read_entry_lem flips idx k e s d db (ks, range, v) =
    let (w, d', q, p) = read_value_lem flips e.value s d v in
    let tail = put_value e.value ++ s in
    let exp = put_le 8 (to_u64 e.expires_at_ms) in
    let text =
      append_assoc (put_le 1 (type_code (type_of e.value)))
        (put_bytes k ++ (exp ++ put_value e.value)) s
      ∙ ap (λ t. put_le 1 (type_code (type_of e.value)) ++ t)
          (append_assoc (put_bytes k) (exp ++ put_value e.value) s
            ∙ ap (λ t. put_bytes k ++ t) (append_assoc exp (put_value e.value) s)) in
    (
      w,
      d',
      rw (
        text,
        read_le_lem 1 (type_code (type_of e.value)) (put_bytes k ++ (exp ++ tail)) d
            (code-Fits e.value),
        read_bytes_lem k (exp ++ tail) d ks,
        read_le_lem 8 (to_u64 e.expires_at_ms) tail d (omega (arith, to_u64-lt e.expires_at_ms)),
        q,
        from_u64-to_u64 e.expires_at_ms range,
      ),
      p,
    )
  where
    code-Fits : (v : Value) → Fits 1 (type_code (type_of v))
    code-Fits (raw_string t) = refl
    code-Fits (hash_value t) = refl
    code-Fits (list_value t) = refl
    code-Fits (set_value t) = refl
    code-Fits (zset_value t) = refl
