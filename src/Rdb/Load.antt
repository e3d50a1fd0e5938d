-- ===== src/Rdb/Load.antt =====
-- `LoadFromFile` of src/rdb.cpp on the bytes of a file, and its `Reader`.
use cpp_inference_engine.Base.{
  ℕ, zero, suc, ◌+◌, ◌-◌, ◌*◌, Bool, true, false, ◌&&◌, ◌||◌, not, Option, none, some, List, [],
  ◌∷◌, ◌++◌, Bytes, codes, ltb, leb, ◌==◌, if◌then◌else◌, length, take, drop, str_eq,
}
use cpp_inference_engine.Base.Int.{ℤ, pos, wrap64}
use cpp_inference_engine.Base.Dict.{Dict, find, put}
use cpp_inference_engine.Base.StrSet
use cpp_inference_engine.Base.StrSet.{StrSet}
use cpp_inference_engine.Value.{
  SkipList, Value, raw_string, hash_value, list_value, set_value, zset_value,
}
use cpp_inference_engine.Zskiplist
use cpp_inference_engine.Zskiplist.{empty_list}
use cpp_inference_engine.Db.{Database, num_databases, empty_database, set_key}
use cpp_inference_engine.Rdb.{magic, crc32}

-- `pos` is what is left of the text there. `drawn` counts the calls of `Insert`, each of which has
-- random numbers of its own.
pub record Reader : Type 0 where
  pub rest : Bytes
  pub ok : Bool
  pub drawn : ℕ

-- `Need`
abbrev pub need : ℕ → Reader → Bool
need n r = r.ok && leb n (length r.rest)

abbrev pub fail : Reader → Reader
fail r = record r { ok = false }

abbrev pub skip : ℕ → Reader → Reader
skip n r = record r { rest = drop n r.rest }

-- the number that bytes stand for, the lowest first
unfoldable pub le_value : Bytes → ℕ
le_value [] = 0
le_value (b ∷ s) = b + 256 * le_value s

-- `U8`, `U32`, `U64` and `F64`, by their number of bytes
unfoldable pub read_le : ℕ → Reader → ℕ × Reader
unfolding le_value
read_le n r = if need n r then (le_value (take n r.rest), skip n r) else (0, fail r)

-- `Bytes`
unfoldable pub read_text : ℕ → Reader → Bytes × Reader
read_text n r = if need n r then (take n r.rest, skip n r) else ([], fail r)

-- `Bytes(U32())`
unfoldable pub read_bytes : Reader → Bytes × Reader
unfolding read_le read_text
read_bytes r = let (n, r') = read_le 4 r in read_text n r'

-- `emplace`: an entry that is there stays
unfoldable pub emplace : Bytes → Bytes → Dict Bytes → Dict Bytes
emplace k v h = elim (find k h) [ none ↦ put k v h | some w ↦ h ]

-- the loop over the fields of a hash
unfoldable pub read_pairs : ℕ → Dict Bytes → Reader → Dict Bytes × Reader
unfolding read_bytes emplace
read_pairs zero h r = (h, r)
read_pairs (suc n) h r = elim r.ok [
  | false ↦ (h, r)
  | true ↦
      let (k, r') = read_bytes r in let (v, r'') = read_bytes r' in read_pairs n (emplace k v h) r''
]

-- the loop over the values of a list
unfoldable pub read_items : ℕ → List Bytes → Reader → List Bytes × Reader
unfolding read_bytes
read_items zero l r = (l, r)
read_items (suc n) l r = elim r.ok [
  | false ↦ (l, r)
  | true ↦ let (s, r') = read_bytes r in read_items n (l ++ s ∷ []) r'
]

-- the loop over the members of a set
unfoldable pub read_members : ℕ → StrSet → Reader → StrSet × Reader
unfolding read_bytes
read_members zero l r = (l, r)
read_members (suc n) l r = elim r.ok [
  | false ↦ (l, r)
  | true ↦ let (s, r') = read_bytes r in read_members n (StrSet.insert s l) r'
]

-- the loop over the members of a sorted set
unfoldable pub read_scores :
    (ℕ → ℕ → Bool) → ℕ → Dict ℕ → SkipList → Reader → Dict ℕ × SkipList × Reader
unfolding read_bytes
read_scores flips zero d l r = (d, l, r)
read_scores flips (suc n) d l r = elim r.ok [
  | false ↦ (d, l, r)
  | true ↦
      let (m, r') = read_bytes r in
      let (v, r'') = read_le 8 r' in
      read_scores flips n (put m v d) (Zskiplist.insert (flips r''.drawn) v m l).1
        (record r'' { drawn = r''.drawn + 1 })
]

-- the `switch` over the type; `none` is a type that the format does not have
unfoldable pub read_value : (ℕ → ℕ → Bool) → ℕ → Reader → Option (Value × Reader)
unfolding read_bytes read_pairs read_items read_members read_scores
read_value flips type r =
    let (n, r') = read_le 4 r in
    if type == 0
    then (let (s, r'') = read_bytes r in some (raw_string s, r''))
    else if type == 1
    then (let (h, r'') = read_pairs n [] r' in some (hash_value h, r''))
    else if type == 2
    then (let (l, r'') = read_items n [] r' in some (list_value l, r''))
    else if type == 3
    then (let (s, r'') = read_members n [] r' in some (set_value s, r''))
    else if type == 4
    then (let (d, l, r'') = read_scores flips n [] empty_list r' in
        some (zset_value (record { sl = l; dict = d }), r''))
    else none

-- a result, or the error message
pub data Loading (A : Type 0) : Type 0 where
  done : A → Loading A
  failed : Bytes → Loading A

infixl 5 ◌>>=◌
abbrev pub ◌>>=◌ : {A B : Type 0} → Loading A → (A → Loading B) → Loading B
done a >>= f = f a
failed e >>= f = failed e

-- `exp ? (long long)exp : 0`
abbrev pub from_u64 : ℕ → ℤ
from_u64 n = wrap64 (pos n)

-- an entry whose value was read
store_entry : ℕ → Bytes → ℕ → Option (Value × Reader) → Database → Loading (Reader × Database)
store_entry idx key expires none db = failed (codes "unknown value type in dump")
store_entry idx key expires (some (v, r)) db =
    if not r.ok
    then failed (codes "truncated value")
    else done (r, set_key idx key v (from_u64 expires) db)

-- the body of the loop over the entries of a table
unfoldable pub read_entry : (ℕ → ℕ → Bool) → ℕ → Reader → Database → Loading (Reader × Database)
unfolding read_le read_bytes read_value store_entry
read_entry flips idx r db =
    let (type, r₁) = read_le 1 r in
    let (key, r₂) = read_bytes r₁ in
    let (expires, r₃) = read_le 8 r₂ in
    if not r₃.ok
    then failed (codes "truncated entry")
    else store_entry idx key expires (read_value flips type r₃) db

unfoldable pub read_entries :
    (ℕ → ℕ → Bool) → ℕ → ℕ → Reader → Database → Loading (Reader × Database)
unfolding read_entry
read_entries flips idx zero r db = done (r, db)
read_entries flips idx (suc n) r db =
    read_entry flips idx r db >>= λ (r', db'). read_entries flips idx n r' db'

-- the body of the loop over the tables
unfoldable pub read_table : (ℕ → ℕ → Bool) → Reader → Database → Loading (Reader × Database)
unfolding read_le read_entries
read_table flips r db =
    let (idx, r₁) = read_le 1 r in
    let (count, r₂) = read_le 4 r₁ in
    if not r₂.ok || leb num_databases idx
    then failed (codes "bad db index")
    else read_entries flips idx count r₂ db

unfoldable pub read_tables : (ℕ → ℕ → Bool) → ℕ → Reader → Database → Loading (Reader × Database)
unfolding read_table
read_tables flips zero r db = done (r, db)
read_tables flips (suc n) r db = read_table flips r db >>= λ (r', db'). read_tables flips n r' db'

-- behind the header
unfoldable pub read_header : (ℕ → ℕ → Bool) → Reader → Loading (Reader × Database)
unfolding read_le read_tables
read_header flips r =
    let (ndbs, r') = read_le 1 r in
    if not r'.ok
    then failed (codes "truncated header")
    else read_tables flips ndbs r' empty_database

-- `LoadFromFile`, for the bytes of the file: the database that replaces `db`
unfoldable pub load : (ℕ → ℕ → Bool) → Bytes → Database → Loading Database
unfolding le_value crc32 read_header
load flips text db =
    let size = length text - 4 in
    if ltb (length text) 16 || not (str_eq (take 11 text) magic)
    then failed (codes "bad magic (not a TINYREDIS dump)")
    else if not (crc32 (take size text) == le_value (take 4 (drop size text)))
    then failed (codes "CRC mismatch (corrupt dump)")
    else read_header flips (record { rest = drop 11 text; ok = true; drawn = 0 }) >>= λ (r, fresh).
        done (record fresh { max_memory = db.max_memory })
