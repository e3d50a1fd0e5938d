-- ===== src/Commands/State.antt =====
-- What the handlers of src/commands.cpp share: the state that `Dispatch` passes to them, the replies,
-- and the typed lookup.
use cpp_inference_engine.Base.{
  ℕ, ◌+◌, ◌-◌, Bool, ◌&&◌, Option, none, some, List, [], ◌∷◌, ◌++◌, Bytes, codes, leb,
  if◌then◌else◌,
}
use cpp_inference_engine.Base.Int.{ℤ, pos}
use cpp_inference_engine.Base.Dict.{Dict}
use cpp_inference_engine.Base.StrSet.{StrSet}
use cpp_inference_engine.Value.{
  Value, raw_string, hash_value, list_value, set_value, zset_value, ZSet,
}
use cpp_inference_engine.Db.{Entry, Database, lookup, write_through, set_key}
use cpp_inference_engine.Resp.Replies.{
  append_simple_reply, append_error_reply, append_int_reply, append_bulk_reply,
  append_null_bulk_reply, append_empty_array_reply, append_bulk_array,
}

-- Undefined behaviour of the source: a null pointer is followed, or an index is out of range. A
-- recursion on fuel is cut off where the fuel is spent.
pub data Fault : Type 0 where
  null_pointer out_of_range cut_off : Fault

pub data Run {ℓ} (A : Type ℓ) : Type ℓ where
  ok : A → Run A
  fault : Fault → Run A

infixl 5 ◌>>=◌
abbrev pub ◌>>=◌ {ℓ κ} : {A : Type ℓ} {B : Type κ} → Run A → (A → Run B) → Run B
ok a >>= f = f a
fault e >>= f = fault e

-- `long double` and its operations in the C library: a value is known by its bits.
pub record LongDouble : Type 0 where
  pub strtold : Bytes → Option ℕ
  pub add : ℕ → ℕ → ℕ
  pub is_nan : ℕ → Bool
  pub is_inf : ℕ → Bool
  pub is_positive : ℕ → Bool
  pub is_zero : ℕ → Bool
  pub plus_zero : ℕ
  pub print_17lf : ℕ → Bytes

-- `double` in the C library: `strtod` with the number of bytes it reads, the sum, and `%.*g`.
pub record Floats : Type 0 where
  pub strtod : Bytes → ℕ × ℕ
  pub add : ℕ → ℕ → ℕ
  pub print_g : ℕ → ℕ → Bytes

-- What a command reads from outside: the clock, which stands still while the command runs, the numbers
-- that its random generator returns in turn, `std::shuffle`, the coin flips of each insertion into a
-- skip list, and the C library.
pub record Env : Type 0 where
  pub now_ms : ℤ
  pub draw : ℕ → ℕ
  pub shuffle : List Bytes → List Bytes
  pub flips : ℕ → ℕ → Bool
  pub long_double : LongDouble
  pub floats : Floats

pub record ClientState : Type 0 where
  pub db_index : ℕ
  pub name : Bytes
  pub id : ℕ
  pub in_multi : Bool
  pub multi_error : Bool
  pub multi_queue : List (List Bytes)
  pub quit_requested : Bool

pub record ServerStats : Type 0 where
  pub total_commands : ℕ
  pub total_connections : ℕ
  pub rejected_connections : ℕ
  pub expired_keys : ℕ
  pub start_time_us : ℤ
  pub connected_clients : ℕ
  pub shutdown_requested : Bool
  pub shutdown_nosave : Bool

-- The arguments of `Dispatch` that a handler changes.
pub record State : Type 0 where
  pub db : Database
  pub cs : ClientState
  pub stats : ServerStats
  pub out : Bytes

abbrev pub Args : Type 0
Args = List Bytes

-- A handler, from its arguments on.
abbrev pub Action : Type 0
Action = State → Run State

upper_byte : ℕ → ℕ
upper_byte c = if leb b'a' c && leb c b'z' then c - 32 else c

lower_byte : ℕ → ℕ
lower_byte c = if leb b'A' c && leb c b'Z' then c + 32 else c

unfoldable pub to_upper : Bytes → Bytes
unfolding upper_byte
to_upper [] = []
to_upper (c ∷ s) = upper_byte c ∷ to_upper s

unfoldable pub to_lower : Bytes → Bytes
unfolding lower_byte
to_lower [] = []
to_lower (c ∷ s) = lower_byte c ∷ to_lower s

-- ---- replies ----
abbrev pub say_simple : Bytes → Action
say_simple b s = ok (record s { out = append_simple_reply s.out b })

abbrev pub say_error : Bytes → Action
say_error b s = ok (record s { out = append_error_reply s.out b })

abbrev pub say_int : ℤ → Action
say_int v s = ok (record s { out = append_int_reply s.out v })

abbrev pub say_bulk : Bytes → Action
say_bulk b s = ok (record s { out = append_bulk_reply s.out b })

abbrev pub say_null : Action
say_null s = ok (record s { out = append_null_bulk_reply s.out })

abbrev pub say_empty_array : Action
say_empty_array s = ok (record s { out = append_empty_array_reply s.out })

abbrev pub say_bulk_array : List Bytes → Action
say_bulk_array items s = ok (record s { out = append_bulk_array s.out items })

unfoldable pub err_wrong_args : Bytes → Action
err_wrong_args cmd_lower =
    say_error (codes "ERR wrong number of arguments for '" ++ (cmd_lower ++ codes "' command"))

unfoldable pub err_wrong_type : Action
err_wrong_type =
    say_error (codes "WRONGTYPE Operation against a key holding the wrong kind of value")

unfoldable pub err_syntax : Action
err_syntax = say_error (codes "ERR syntax error")

unfoldable pub err_not_int : Action
err_not_int = say_error (codes "ERR value is not an integer or out of range")

unfoldable pub err_not_float : Action
err_not_float = say_error (codes "ERR value is not a valid float")

unfoldable pub err_hash_not_int : Action
err_hash_not_int = say_error (codes "ERR hash value is not an integer")

unfoldable pub err_incr_overflow : Action
err_incr_overflow = say_error (codes "ERR increment would produce NaN or Infinity")

unfoldable pub err_hash_not_float : Action
err_hash_not_float = say_error (codes "ERR hash value is not a float")

-- ---- lookup ----
unfoldable pub lookup_key : Env → Bytes → State → Option Entry × State
lookup_key env key s =
    let (e, db) = lookup env.now_ms s.cs.db_index key s.db in (e, record s { db = db })

-- `db.Set(cs.db_index, key, value, expires)`
unfoldable pub store : Bytes → Value → ℤ → State → State
store key value expires s = record s { db = set_key s.cs.db_index key value expires s.db }

-- a write of a value through the pointer of a lookup
unfoldable pub assign : Bytes → Value → ℤ → State → State
assign key value expires s = record s {
  db = write_through s.cs.db_index key (record { value = value; expires_at_ms = expires }) s.db;
}

-- `GetTyped`: the value of the wanted type, with the entry's expiry time
pub data Typed (A : Type 0) : Type 0 where
  missing : Typed A
  found : A → ℤ → Typed A
  wrong_type : Typed A

abbrev pub as_string : Value → Option Bytes
as_string (raw_string s) = some s
as_string _ = none

abbrev pub as_hash : Value → Option (Dict Bytes)
as_hash (hash_value h) = some h
as_hash _ = none

abbrev pub as_list : Value → Option (List Bytes)
as_list (list_value l) = some l
as_list _ = none

abbrev pub as_set : Value → Option StrSet
as_set (set_value s) = some s
as_set _ = none

abbrev pub as_zset : Value → Option ZSet
as_zset (zset_value z) = some z
as_zset _ = none

module _ {A : Type 0} (get_if : Value → Option A) where
  unfoldable pub typed : Option Entry → Typed A
  typed none = missing
  typed (some e) = elim (get_if e.value) [ none ↦ wrong_type | some a ↦ found a e.expires_at_ms ]

  unfoldable pub get_typed : Env → Bytes → State → Typed A × State
  unfolding typed lookup_key
  get_typed env key s = let (e, s') = lookup_key env key s in (typed e, s')

-- A handler that fails on a value of another type: what it does without the key, and with it.
unfoldable pub with_typed :
    {A : Type 0} → (Value → Option A) → Env → Bytes → Action → (A → ℤ → Action) → Action
unfolding get_typed err_wrong_type
with_typed get_if env key on_missing on_found s =
    let (t, s') = get_typed get_if env key s in
    elim t [
      | missing ↦ on_missing s'
      | found a expires ↦ on_found a expires s'
      | wrong_type ↦ err_wrong_type s'
    ]

-- The entry, made with an empty value where there is none; the pointer of the second lookup is
-- followed.
unfoldable pub get_or_create : Env → Bytes → Value → State → Run (Entry × State)
unfolding lookup_key store
get_or_create env key value s =
    let (e, s') = lookup_key env key s in
    elim e [
      | some old ↦ ok (old, s')
      | none ↦
          let (e', s'') = lookup_key env key (store key value (pos 0) s') in
          elim e' [ some new ↦ ok (new, s'') | none ↦ fault null_pointer ]
    ]

-- The value of that entry, of the wanted type.
unfoldable pub with_created :
    {A : Type 0} → (Value → Option A) → Env → Bytes → Value → (A → ℤ → Action) → Action
unfolding get_or_create err_wrong_type
with_created get_if env key value act s = do
  (e, s') ← get_or_create env key value s
  elim (get_if e.value) [ none ↦ err_wrong_type s' | some a ↦ act a e.expires_at_ms s' ]
