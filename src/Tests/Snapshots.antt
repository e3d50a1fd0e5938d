-- ===== src/Tests/Snapshots.antt =====
-- Snapshots, and a file system in memory.
use cpp_inference_engine.Base.{
  ℕ, zero, suc, ◌++◌, drop, All, ◌≡◌, ◌∙◌, refl, ◌≢◌, Bool, true, false, Option, none, some, [],
  ◌∷◌, Bytes, codes, arith, str_eq, map, replicate, if◌then◌else◌, str_eq_refl, str_eq_sound,
}
use cpp_inference_engine.Base.Int.{pos}
use cpp_inference_engine.Value.{raw_string, list_value, zset_value}
use cpp_inference_engine.Zskiplist.{empty_list}
use cpp_inference_engine.Db.{Database, empty_database}
use cpp_inference_engine.Base.Dict.{find}
use cpp_inference_engine.Rdb.{crc32, serialize}
use cpp_inference_engine.Rdb.Load.{load, done, failed}
use cpp_inference_engine.Rdb.RoundTrip.{
  plain_table, IsStorableTable, IsStorableDatabase, load-serialize,
}
use cpp_inference_engine.Rdb.File.{FileSystem, IsPosix, save_to_file, load_from_file, Saved}
use cpp_inference_engine.Rdb.Atomic.{Saving, save_to_file-Saving, load_from_file-save_to_file}

-- the check value of this CRC
check_value : crc32 (codes "123456789") ≡ 0xCBF4_3926
unfolding crc32
check_value = refl

abbrev no_flips : ℕ → ℕ → Bool
no_flips n i = false

abbrev keeps : Database
keeps = record {
  dbs =
      ((codes "a", record { value = raw_string (codes "x"); expires_at_ms = pos 0 })
        ∷ (
          codes "b",
          record { value = list_value (codes "y" ∷ codes "z" ∷ []); expires_at_ms = pos 40 },
        )
        ∷ [])
      ∷ []
      ∷ ((
        codes "c",
        record {
          value = zset_value (record { sl = empty_list; dict = (codes "m", 7) ∷ [] });
          expires_at_ms = pos 0;
        },
      )
          ∷ [])
      ∷ replicate 13 [];
  used = 0;
  max_memory = 0;
  total_expired = 0;
}

empty-IsStorable : (n : ℕ) → All IsStorableTable (replicate n [])
empty-IsStorable zero = tt
empty-IsStorable (suc n) = ((omega arith, tt, tt), empty-IsStorable n)

keeps-IsStorable : IsStorableDatabase keeps
unfolding find str_eq
keeps-IsStorable = record {
  count = refl;
  tables = (
    (
      omega arith,
      (
        (omega arith, refl, omega arith),
        ((omega arith, refl, (omega arith, (omega arith, (omega arith, tt)))), tt),
      ),
      (refl, (refl, tt)),
    ),
    (
      (omega arith, tt, tt),
      (
        (
          omega arith,
          ((omega arith, refl, (omega arith, ((omega arith, omega arith), tt), (refl, tt))), tt),
          (refl, tt),
        ),
        empty-IsStorable 13,
      ),
    ),
  );
}

load-serialize_example :
    (fresh : Database) × (load no_flips (serialize keeps) empty_database ≡ done fresh)
    × (map plain_table fresh.dbs ≡ map plain_table keeps.dbs)
    × (fresh.max_memory ≡ empty_database.max_memory)
load-serialize_example = load-serialize no_flips keeps empty_database keeps-IsStorable

-- a bit of the trailer is wrong
broken :
    load no_flips (0x54 ∷ drop 1 (serialize keeps ++ 0 ∷ [])) empty_database
    ≡ failed (codes "CRC mismatch (corrupt dump)")
unfolding load serialize cpp_inference_engine.Rdb.put_le str_eq
broken = refl

-- ---- files ----
abbrev Files : Type 0
Files = Bytes → Option Bytes

-- the files with `p` changed
abbrev with_file : Bytes → Option Bytes → Files → Files
with_file p v d q = if str_eq p q then v else d q

with_file-same : (p : Bytes) (v : Option Bytes) (d : Files) → with_file p v d p ≡ v
with_file-same p v d = ground (arith, str_eq_refl p)

with_file-other : (p q : Bytes) (v : Option Bytes) (d : Files) → q ≢ p → with_file p v d q ≡ d q
with_file-other p q v d n = ground (arith, n, str_eq_sound p q)

abbrev in_memory : FileSystem
in_memory = record {
  Disk = Files;
  content = λ p d. d p;
  open_trunc = λ p d. (with_file p (some []) d, true);
  write = λ p s d. (with_file p (some s) d, true);
  rename = λ p q d. (with_file q (d p) (with_file p none d), true);
  errno_string = λ d. codes "Success (errno 0)";
  opens = λ p d. elim (d p) [ none ↦ false | some s ↦ true ];
  read = λ p d. d p;
}

in_memory-IsPosix : IsPosix in_memory
in_memory-IsPosix = record {
  open-other = λ p q d n. with_file-other p q (some []) d n;
  write-other = λ p q s d n. with_file-other p q (some s) d n;
  write-all = λ p s d h. with_file-same p (some s) d;
  rename-moves = λ p q d h. with_file-same q (d p) (with_file p none d);
  rename-other = λ p q r d m n.
      with_file-other q r (d p) (with_file p none d) n ∙ with_file-other p r none d m;
  rename-fails = λ p q r d h. cc;
  read-all = λ p s d o h. h;
}

abbrev no_files : Saved in_memory
no_files = record { disk = λ p. none; last_save = pos 0 }

abbrev dump : Bytes
dump = codes "dump.rdb"

save_to_file-Saving_example :
    Saving in_memory in_memory-IsPosix dump
      (serialize keeps)
      (pos 5)
      no_files
      (save_to_file in_memory dump keeps (pos 5) no_files).0
      (save_to_file in_memory dump keeps (pos 5) no_files).1
save_to_file-Saving_example =
    save_to_file-Saving in_memory in_memory-IsPosix dump keeps (pos 5) no_files

load_from_file-save_to_file_example :
    (fresh : Database) × (load_from_file in_memory no_flips dump
        (save_to_file in_memory dump keeps (pos 5) no_files).0.disk
        empty_database
      ≡ done fresh)
    × (map plain_table fresh.dbs ≡ map plain_table keeps.dbs)
    × (fresh.max_memory ≡ empty_database.max_memory)
unfolding save_to_file str_eq
load_from_file-save_to_file_example =
    load_from_file-save_to_file in_memory in_memory-IsPosix no_flips dump keeps empty_database
      (pos 5) no_files (serialize keeps) keeps-IsStorable refl refl refl
