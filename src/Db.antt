-- ===== src/Db.antt =====
-- src/db.cpp and include/db.h: sixteen key spaces with expiry times and memory accounting. `NowMs()`
-- is the argument `now`; a table is a `Dict` in the order of its iterators.
pub mod Sizes
pub mod Invariant
pub mod Accounting
pub mod Visible
pub mod Purge
pub mod Expire
use cpp_inference_engine.Base.{
  ℕ, zero, suc, ◌+◌, ◌-◌, ◌%◌, ◌^◌, Bool, true, false, not, ◌&&◌, Option, none, some, List, [], ◌∷◌,
  ◌++◌, Bytes, ltb, leb, ◌==◌, if◌then◌else◌, length, get_or, set, take, drop, replicate,
}
use cpp_inference_engine.Base.Int.{ℤ, pos, leb_ℤ, is_zero}
use cpp_inference_engine.Base.Dict.{Dict, find, put, erase}
use cpp_inference_engine.Value.{
  Value, raw_string, hash_value, list_value, set_value, zset_value, ZSet,
}

-- `expires_at_ms` is 0 where there is no expiry.
pub record Entry : Type 0 where
  pub value : Value
  pub expires_at_ms : ℤ

abbrev pub Table : Type 0
Table = Dict Entry

pub record Database : Type 0 where
  pub dbs : List Table
  pub used : ℕ
  pub max_memory : ℕ
  pub total_expired : ℕ

abbrev pub num_databases : ℕ
num_databases = 16

-- the values of `size_t`
abbrev pub size_mod : ℕ
size_mod = 2 ^ 64

abbrev pub empty_database : Database
empty_database = record {
  dbs = replicate num_databases [];
  used = 0;
  max_memory = 0;
  total_expired = 0;
}

hash_size : Dict Bytes → ℕ
hash_size [] = 0
hash_size ((k, v) ∷ h) = 16 + length k + length v + hash_size h

list_size : List Bytes → ℕ
list_size [] = 0
list_size (s ∷ l) = 8 + length s + list_size l

set_size : List Bytes → ℕ
set_size [] = 0
set_size (e ∷ s) = 16 + length e + set_size s

dict_size : Dict ℕ → ℕ
dict_size [] = 0
dict_size ((m, v) ∷ d) = 16 + length m + dict_size d

unfoldable pub value_size : Value → ℕ
unfolding hash_size list_size set_size dict_size
value_size (raw_string s) = 16 + length s
value_size (hash_value h) = 32 + hash_size h
value_size (list_value l) = 16 + list_size l
value_size (set_value s) = 16 + set_size s
value_size (zset_value z) = 32 + dict_size z.dict

unfoldable pub entry_size : Bytes → Entry → ℕ
entry_size key e = 48 + length key + value_size e.value

unfoldable pub mem_add : ℕ → ℕ → ℕ
mem_add used n = (used + n) % size_mod

unfoldable pub mem_sub : ℕ → ℕ → ℕ
mem_sub used n = if leb n used then used - n else 0

-- the test of `Lookup`, of the active cycle and of `KeyIsLiveExpired`
unfoldable pub expired : ℤ → Entry → Bool
expired now e = not (is_zero e.expires_at_ms) && leb_ℤ e.expires_at_ms now

abbrev pub table : Database → ℕ → Table
table db idx = get_or db.dbs idx []

abbrev pub with_table : Database → ℕ → Table → Database
with_table db idx t = record db { dbs = set db.dbs idx t }

-- the stale entry is dropped
drop_entry : ℕ → Bytes → Entry → Database → Database
drop_entry idx key e db = record db {
  dbs = set db.dbs idx (erase key (table db idx));
  used = mem_sub db.used (entry_size key e);
  total_expired = (db.total_expired + 1) % size_mod;
}

lookup_entry : ℤ → ℕ → Bytes → Option Entry → Database → Option Entry × Database
unfolding drop_entry
lookup_entry now idx key none db = (none, db)
lookup_entry now idx key (some e) db =
    if expired now e then (none, drop_entry idx key e db) else (some e, db)

-- `Database::Lookup`: the entry that the returned pointer shows, and the database left behind
unfoldable pub lookup : ℤ → ℕ → Bytes → Database → Option Entry × Database
unfolding lookup_entry
lookup now idx key db = lookup_entry now idx key (find key (table db idx)) db

-- a write through the pointer that `Lookup` returned: no accounting takes place
unfoldable pub write_through : ℕ → Bytes → Entry → Database → Database
write_through idx key e db = with_table db idx (put key e (table db idx))

-- the memory of the entry that `Set` replaces is given back first
replaced : ℕ → Bytes → Option Entry → ℕ
replaced used key none = used
replaced used key (some old) = mem_sub used (entry_size key old)

-- `Database::Set`
unfoldable pub set_key : ℕ → Bytes → Value → ℤ → Database → Database
unfolding replaced
set_key idx key value expires db =
    let e : Entry = record { value = value; expires_at_ms = expires } in
    let t = table db idx in
    record db {
      dbs = set db.dbs idx (put key e t);
      used = mem_add (replaced db.used key (find key t)) (entry_size key e);
    }

delete_entry : ℕ → Bytes → Option Entry → Database → Bool × Database
delete_entry idx key none db = (false, db)
delete_entry idx key (some e) db = (
  true,
  record db {
    dbs = set db.dbs idx (erase key (table db idx));
    used = mem_sub db.used (entry_size key e);
  },
)

-- `Database::Delete`
unfoldable pub delete : ℕ → Bytes → Database → Bool × Database
unfolding delete_entry
delete idx key db = delete_entry idx key (find key (table db idx)) db

pub count_keys : List Table → ℕ
count_keys [] = 0
count_keys (t ∷ ts) = length t + count_keys ts

-- `Database::TotalKeys`
unfoldable pub total_keys : Database → ℕ
unfolding count_keys
total_keys db = count_keys db.dbs

count_expires : Table → ℕ
count_expires [] = 0
count_expires ((k, e) ∷ t) = (if is_zero e.expires_at_ms then 0 else 1) + count_expires t

count_all_expires : List Table → ℕ
unfolding count_expires
count_all_expires [] = 0
count_all_expires (t ∷ ts) = count_expires t + count_all_expires ts

-- `Database::TotalExpires`
unfoldable pub total_expires : Database → ℕ
unfolding count_all_expires
total_expires db = count_all_expires db.dbs

free_table : Table → ℕ → ℕ
free_table [] used = used
free_table ((k, e) ∷ t) used = free_table t (mem_sub used (entry_size k e))

-- `Database::FlushDb`
unfoldable pub flush_db : ℕ → Database → Database
unfolding free_table
flush_db idx db = record db { dbs = set db.dbs idx []; used = free_table (table db idx) db.used }

flush_from : ℕ → ℕ → Database → Database
flush_from zero i db = db
flush_from (suc n) i db = flush_from n (i + 1) (flush_db i db)

-- `Database::FlushAll`
unfoldable pub flush_all : Database → Database
unfolding flush_from flush_db
flush_all db = flush_from num_databases 0 db

abbrev pub sample_window : ℕ
sample_window = 200

-- The walk of one table: `window` entries at most are looked at. The result is what is left of the
-- entries, the memory counter and the number of deleted keys.
sweep : ℤ → ℕ → Table → ℕ → Table × ℕ × ℕ
sweep now zero t used = (t, used, 0)
sweep now (suc window) [] used = ([], used, 0)
sweep now (suc window) ((k, e) ∷ t) used =
    let stale = expired now e in
    let (rest, used', n) =
      sweep now window t (if stale then mem_sub used (entry_size k e) else used) in
    if stale then (rest, used', n + 1) else ((k, e) ∷ rest, used', n)

-- one round of the cycle: `draw` is what the random generator returns
expire_db : ℤ → ℕ → ℕ → Database → Database × ℕ
unfolding sweep
expire_db now draw idx db =
    let t = table db idx in
    let size = length t in
    let offset = draw % (if ltb size sample_window then size else sample_window) in
    let (rest, used', n) = sweep now sample_window (drop offset t) db.used in
    if size == 0 then (db, 0) else (
      record db {
        dbs = set db.dbs idx (take offset t ++ rest);
        used = used';
        total_expired = (db.total_expired + n) % size_mod;
      },
      n,
    )

expire_from : ℤ → (ℕ → ℕ) → ℕ → ℕ → Database × ℕ → Database × ℕ
unfolding expire_db
expire_from now draw zero i (db, deleted) = (db, deleted)
expire_from now draw (suc n) i (db, deleted) =
    let (db', k) = expire_db now (draw i) i db in expire_from now draw n (i + 1) (db', deleted + k)

-- `Database::ActiveExpireCycle`
unfoldable pub active_expire_cycle : ℤ → (ℕ → ℕ) → Database → Database × ℕ
unfolding expire_from
active_expire_cycle now draw db = expire_from now draw num_databases 0 (db, 0)
