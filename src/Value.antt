-- ===== src/Value.antt =====
-- include/value.h, and the data of include/zskiplist.h: what is stored under a key.
use cpp_inference_engine.Base.{ℕ, Bytes, codes, List, Option}
use cpp_inference_engine.Base.Dict.{Dict}
use cpp_inference_engine.Base.StrSet.{StrSet}

-- A node of the skiplist. A pointer is an address, and `none` is the null pointer.
pub record Node : Type 0 where
  pub score : ℕ
  pub member : Bytes
  pub forward : List (Option ℕ)
  pub span : List ℕ

-- `heap` is the memory that the list's nodes live in; `next_free` is the address of the next `new`.
pub record SkipList : Type 0 where
  pub heap : ℕ → Node
  pub next_free : ℕ
  pub header : ℕ
  pub level : ℕ
  pub length : ℕ

pub record ZSet : Type 0 where
  pub sl : SkipList
  pub dict : Dict ℕ

-- `std::variant` of the five types
pub data Value : Type 0 where
  raw_string : Bytes → Value
  hash_value : Dict Bytes → Value
  list_value : List Bytes → Value
  set_value : StrSet → Value
  zset_value : ZSet → Value

pub data ValueType : Type 0 where
  k_string k_hash k_list k_set k_zset : ValueType

unfoldable pub type_of : Value → ValueType
type_of (raw_string s) = k_string
type_of (hash_value h) = k_hash
type_of (list_value l) = k_list
type_of (set_value s) = k_set
type_of (zset_value z) = k_zset

unfoldable pub value_type_name : ValueType → Bytes
value_type_name k_string = codes "string"
value_type_name k_hash = codes "hash"
value_type_name k_list = codes "list"
value_type_name k_set = codes "set"
value_type_name k_zset = codes "zset"
