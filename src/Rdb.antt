-- ===== src/Rdb.antt =====
-- src/rdb.cpp: the snapshot of a database as bytes. A `Put` function is modelled by the bytes that it
-- appends; the machine is little-endian, as PutF64 and F64 take it to be.
pub mod Load
pub mod Codec
pub mod Values
pub mod RoundTrip
pub mod File
pub mod Atomic
use Prim.Native.Nat.{bit_xor}
use cpp_inference_engine.Base.{
  ℕ, zero, suc, ◌+◌, ◌-◌, ◌/◌, ◌%◌, ◌^◌, Bool, true, false, List, [], ◌∷◌, ◌++◌, Bytes, codes, ◌==◌,
  if◌then◌else◌, length,
}
use cpp_inference_engine.Base.Int.{ℤ, pos, negsuc}
use cpp_inference_engine.Base.Dict.{Dict}
use cpp_inference_engine.Value.{
  Value, raw_string, hash_value, list_value, set_value, zset_value, ValueType, k_string, k_hash,
  k_list, k_set, k_zset, type_of,
}
use cpp_inference_engine.Db.{Entry, Table, Database}

abbrev pub magic : Bytes
magic = codes "TINYREDIS01"

-- eight rounds of the loop that fills the table
crc_rounds : ℕ → ℕ → ℕ
crc_rounds zero c = c
crc_rounds (suc k) c = crc_rounds k (if c % 2 == 1 then bit_xor 0xEDB8_8320 (c / 2) else c / 2)

-- `crc = table[(uint8_t)crc ^ (uint8_t)data[i]] ^ (crc >> 8)`
crc_bytes : ℕ → Bytes → ℕ
unfolding crc_rounds
crc_bytes crc [] = crc
crc_bytes crc (b ∷ s) =
    crc_bytes (bit_xor (crc_rounds 8 (bit_xor (crc % 256) (b % 256))) (crc / 256)) s

-- `Crc32`, a `uint32_t`
unfoldable pub crc32 : Bytes → ℕ
unfolding crc_bytes
crc32 s = bit_xor (crc_bytes 0xFFFF_FFFF s) 0xFFFF_FFFF % 2 ^ 32

-- `n` bytes of a number, the lowest first
unfoldable pub put_le : ℕ → ℕ → Bytes
put_le zero v = []
put_le (suc n) v = (v % 256) ∷ put_le n (v / 256)

abbrev pub put_u8 : ℕ → Bytes
put_u8 v = put_le 1 v

abbrev pub put_u32 : ℕ → Bytes
put_u32 v = put_le 4 v

abbrev pub put_u64 : ℕ → Bytes
put_u64 v = put_le 8 v

abbrev pub put_f64 : ℕ → Bytes
put_f64 v = put_le 8 v

-- `PutBytes`
abbrev pub put_bytes : Bytes → Bytes
put_bytes s = put_u32 (length s) ++ s

-- the `uint64_t` of a `long long`
unfoldable pub to_u64 : ℤ → ℕ
to_u64 (pos n) = n % 2 ^ 64
to_u64 (negsuc n) = 2 ^ 64 - 1 - n % 2 ^ 64

unfoldable pub type_code : ValueType → ℕ
type_code k_string = 0
type_code k_hash = 1
type_code k_list = 2
type_code k_set = 3
type_code k_zset = 4

unfoldable pub put_pairs : Dict Bytes → Bytes
put_pairs [] = []
put_pairs ((k, v) ∷ h) = put_bytes k ++ (put_bytes v ++ put_pairs h)

unfoldable pub put_items : List Bytes → Bytes
put_items [] = []
put_items (s ∷ l) = put_bytes s ++ put_items l

unfoldable pub put_scores : Dict ℕ → Bytes
put_scores [] = []
put_scores ((m, v) ∷ d) = put_bytes m ++ (put_f64 v ++ put_scores d)

-- the payload of an entry
unfoldable pub put_value : Value → Bytes
unfolding put_pairs put_items put_scores
put_value (raw_string s) = put_bytes s
put_value (hash_value h) = put_u32 (length h) ++ put_pairs h
put_value (list_value l) = put_u32 (length l) ++ put_items l
put_value (set_value s) = put_u32 (length s) ++ put_items s
put_value (zset_value z) = put_u32 (length z.dict) ++ put_scores z.dict

unfoldable pub put_entry : Bytes → Entry → Bytes
unfolding type_code type_of to_u64 put_value
put_entry key e =
    put_u8 (type_code (type_of e.value))
    ++ (put_bytes key ++ (put_u64 (to_u64 e.expires_at_ms) ++ put_value e.value))

unfoldable pub put_table : Table → Bytes
unfolding put_entry
put_table [] = []
put_table ((k, e) ∷ t) = put_entry k e ++ put_table t

-- the tables that are not empty, from the index `i` on
unfoldable pub put_tables : ℕ → List Table → Bytes
unfolding put_table
put_tables i [] = []
put_tables i ([] ∷ ts) = put_tables (i + 1) ts
put_tables i ((x ∷ t) ∷ ts) =
    put_u8 i ++ (put_u32 (length (x ∷ t)) ++ (put_table (x ∷ t) ++ put_tables (i + 1) ts))

unfoldable pub count_used : List Table → ℕ
count_used [] = 0
count_used ([] ∷ ts) = count_used ts
count_used ((x ∷ t) ∷ ts) = suc (count_used ts)

-- what the checksum is about
unfoldable pub body : Database → Bytes
unfolding put_tables count_used
body db = magic ++ (put_u8 (count_used db.dbs) ++ put_tables 0 db.dbs)

-- `Serialize`
unfoldable pub serialize : Database → Bytes
unfolding body crc32
serialize db = body db ++ put_u32 (crc32 (body db))
