-- ===== src/Rdb/RoundTrip.antt =====
-- `LoadFromFile` reads what `Serialize` wrote.
use cpp_inference_engine.Base.{
  ℕ, suc, ◌+◌, ◌-◌, ◌^◌, ◌≤◌, ◌<◌, ◌≡◌, ◌∙◌, sym, ap, refl, Bool, true, false, not, ◌||◌, none,
  List, [], ◌∷◌, ◌++◌, map, append_assoc, append-nil, arith, Bytes, ltb, ◌==◌, length,
  length-append, All, get_or, set, replicate, take, drop, str_eq, str_eq_refl,
}
use mathlib.Core.List.{map-append}
use cpp_inference_engine.Base.Int.{ℤ}
use cpp_inference_engine.Base.Dict.{find, Unique}
use cpp_inference_engine.Value.{Value}
use cpp_inference_engine.Db.{Entry, Table, Database, num_databases, empty_database, set_key}
use cpp_inference_engine.Rdb.{
  put_le, put_entry, put_table, put_tables, count_used, body, serialize, crc32, magic,
}
use cpp_inference_engine.Rdb.Load.{
  Reader, le_value, read_entries, read_table, read_tables, read_header, load, done, ◌>>=◌,
}
use cpp_inference_engine.Rdb.Codec.{
  at, Fits, read_le_lem, le_value-put_le, length-put_le, take-front, drop-front, put-fresh,
  Unique-fresh,
}
use cpp_inference_engine.Rdb.Values.{plain, IsStorableEntry, read_entry_lem}

-- entries, tables and databases without skip lists
abbrev pub plain_entry : Bytes × Entry → Bytes × Entry
plain_entry (k, e) = (k, record e { value = plain e.value })

abbrev pub plain_table : Table → Table
plain_table = map plain_entry

-- A table that the format can hold.
abbrev pub IsStorableTable : Table → Type 0
IsStorableTable t = (length t < 2 ^ 32) × All IsStorableEntry t × Unique t

-- keys alone decide what is found
find-plain :
    (k : Bytes) (a b : Table) → plain_table a ≡ plain_table b → find k b ≡ none → find k a ≡ none
unfolding find
find-plain k [] b e h = refl
find-plain k (x ∷ a) [] e h = cc
find-plain k ((i, x) ∷ a) ((j, y) ∷ b) e h = ground (arith, find-plain k a b, e)

module _ {ℓ} {A : Type ℓ} where
  set-length : (a : List A) (x y : A) (b : List A) → set (a ++ x ∷ b) (length a) y ≡ a ++ y ∷ b
  set-length [] x y b = refl
  set-length (z ∷ a) x y b = ap (λ l. z ∷ l) (set-length a x y b)

  get_or-length : (a : List A) (x d : A) (b : List A) → get_or (a ++ x ∷ b) (length a) d ≡ x
  get_or-length [] x d b = refl
  get_or-length (z ∷ a) x d b = get_or-length a x d b

-- The tables in front of the one at hand, that one, and those behind it.
record Loaded (before : List Table) (t : Table) (after : List Table) (db : Database) : Type 0 where
  tables : db.dbs ≡ before ++ t ∷ after

set_key-Loaded :
    (before after : List Table) (t : Table) (k : Bytes) (w : Value) (x : ℤ) (db : Database)
    → Loaded before t after db
    → find k t ≡ none
    → Loaded before
        (t ++ (k, record { value = w; expires_at_ms = x }) ∷ [])
        after
        (set_key (length before) k w x db)
unfolding set_key
set_key-Loaded before after t k w x db l fresh = record {
  tables =
      rw
        (
          l.tables,
          get_or-length before t [] after,
          put-fresh k (record { value = w; expires_at_ms = x }) t fresh,
        )
        (set-length before t (t ++ (k, record { value = w; expires_at_ms = x }) ∷ []) after);
}

read_entries_lem :
    (flips : ℕ → ℕ → Bool) (before after : List Table) (t acc old : Table) (s : Bytes) (d : ℕ)
    (db : Database)
    → All IsStorableEntry t
    → Unique (acc ++ t)
    → plain_table old ≡ plain_table acc
    → Loaded before old after db
    → (new : Table) × (d' : ℕ) × (db' : Database) × (read_entries flips
          (length before)
          (length t)
          (at (put_table t ++ s) d)
          db
        ≡ done (at s d', db'))
      × (plain_table new ≡ plain_table (acc ++ t))
      × Loaded before new after db'
unfolding read_entries put_table
read_entries_lem flips before after [] acc old s d db q u p l =
    (old, d, db, refl, p ∙ ap plain_table (sym (append-nil acc)), l)
read_entries_lem flips before after ((k, e) ∷ t) acc old s d db (q, qs) u p l =
    let (w, d₁, r, pw) = read_entry_lem flips (length before) k e (put_table t ++ s) d db q in
    let e' : Entry = record { value = w; expires_at_ms = e.expires_at_ms } in
    let fresh = find-plain k old acc p (Unique-fresh k e acc t u) in
    let grown =
      map-append plain_entry old ((k, e') ∷ [])
      ∙ ap (λ a. a ++ (k, record e' { value = plain w }) ∷ []) p
      ∙ ap (λ v. plain_table acc ++ (k, record e' { value = v }) ∷ []) pw
      ∙ sym (map-append plain_entry acc ((k, e) ∷ [])) in
    let (new, d', db', rs, ps, l') =
      read_entries_lem flips before after t (acc ++ (k, e) ∷ []) (old ++ (k, e') ∷ []) s d₁
        (set_key (length before) k w e.expires_at_ms db) qs (rw append_assoc u) grown
        (set_key-Loaded before after old k w e.expires_at_ms db l fresh) in
    (
      new,
      d',
      db',
      rw (append_assoc (put_entry k e) (put_table t) s, r) rs,
      ps ∙ ap plain_table (append_assoc acc ((k, e) ∷ []) t),
      l',
    )

read_table_lem :
    (flips : ℕ → ℕ → Bool) (before after : List Table) (t : Table) (s : Bytes) (d : ℕ)
    (db : Database)
    → length before < num_databases
    → IsStorableTable t
    → Loaded before [] after db
    → (new : Table) × (d' : ℕ) × (db' : Database) × (read_table flips
          (at (put_le 1 (length before) ++ (put_le 4 (length t) ++ (put_table t ++ s))) d)
          db
        ≡ done (at s d', db'))
      × (plain_table new ≡ plain_table t)
      × Loaded before new after db'
unfolding read_table
read_table_lem flips before after t s d db bound (n, q, u) l =
    let (new, d', db', r, p, l') = read_entries_lem flips before after t [] [] s d db q u refl l in
    (
      new,
      d',
      db',
      rw
          (
            read_le_lem 1 (length before) (put_le 4 (length t) ++ (put_table t ++ s)) d
                (omega arith),
            read_le_lem 4 (length t) (put_table t ++ s) d (omega arith),
          )
          (ground (arith, r)),
      p,
      l',
    )

read_tables_lem :
    (flips : ℕ → ℕ → Bool) (ts before : List Table) (s : Bytes) (d : ℕ) (db : Database)
    → length before + length ts ≤ num_databases
    → All IsStorableTable ts
    → db.dbs ≡ before ++ replicate (length ts) []
    → (new : List Table) × (d' : ℕ) × (db' : Database) × (read_tables flips
          (count_used ts)
          (at (put_tables (length before) ts ++ s) d)
          db
        ≡ done (at s d', db'))
      × (map plain_table new ≡ map plain_table ts)
      × (db'.dbs ≡ before ++ new)
unfolding read_tables put_tables count_used
read_tables_lem flips [] before s d db bound q e = ([], d, db, refl, refl, e)
read_tables_lem flips ([] ∷ ts) before s d db bound (q, qs) e =
    let (new, d', db', r, p, l) =
      read_tables_lem flips ts (before ++ [] ∷ []) s d db
        (omega (arith, length-append before ([] ∷ []))) qs
        (e ∙ sym (append_assoc before ([] ∷ []) _)) in
    (
      [] ∷ new,
      d',
      db',
      rw (← length-append before ([] ∷ [])) r,
      ap (λ m. [] ∷ m) p,
      l ∙ append_assoc before ([] ∷ []) new,
    )
read_tables_lem flips ((x ∷ t) ∷ ts) before s d db bound (q, qs) e =
    let (t', d₁, db₁, r₁, p₁, l₁) =
      read_table_lem flips before (replicate (length ts) []) (x ∷ t)
        (put_tables (length before + 1) ts ++ s) d db (omega arith) q (record { tables = e }) in
    let (new, d', db', r, p, l) =
      read_tables_lem flips ts (before ++ t' ∷ []) s d₁ db₁
        (omega (arith, length-append before (t' ∷ []))) qs
        (l₁.tables ∙ sym (append_assoc before (t' ∷ []) _)) in
    let tail = put_tables (length before + 1) ts ++ s in
    let text =
      append_assoc (put_le 1 (length before))
        (put_le 4 (length (x ∷ t)) ++ (put_table (x ∷ t) ++ put_tables (length before + 1) ts)) s
      ∙ ap (λ b. put_le 1 (length before) ++ b)
          (append_assoc (put_le 4 (length (x ∷ t)))
              (put_table (x ∷ t) ++ put_tables (length before + 1) ts) s
            ∙ ap (λ b. put_le 4 (length (x ∷ t)) ++ b)
                (append_assoc (put_table (x ∷ t)) (put_tables (length before + 1) ts) s)) in
    (
      t' ∷ new,
      d',
      db',
      ap (λ b. read_tables flips (suc (count_used ts)) (at b d) db) text
          ∙ ap (λ o. o >>= λ (r, u). read_tables flips (count_used ts) r u) r₁
          ∙ ap (λ n. read_tables flips (count_used ts) (at (put_tables n ts ++ s) d₁) db₁)
              (sym (length-append before (t' ∷ [])))
          ∙ r,
      ap (λ h. h ∷ map plain_table new) p₁ ∙ ap (λ m. plain_table (x ∷ t) ∷ m) p,
      l ∙ append_assoc before (t' ∷ []) new,
    )

-- A database that the format can hold.
pub record IsStorableDatabase (db : Database) : Type 0 where
  pub count : length db.dbs ≡ num_databases
  pub tables : All IsStorableTable db.dbs

count_used-le : (ts : List Table) → count_used ts ≤ length ts
unfolding count_used
count_used-le [] = omega arith
count_used-le ([] ∷ ts) = omega (arith, count_used-le ts)
count_used-le ((x ∷ t) ∷ ts) = omega (arith, count_used-le ts)

read_header_lem :
    (flips : ℕ → ℕ → Bool) (db : Database) (s : Bytes)
    → IsStorableDatabase db
    → (d' : ℕ) × (db' : Database) × (read_header flips
          (at (put_le 1 (count_used db.dbs) ++ (put_tables 0 db.dbs ++ s)) 0)
        ≡ done (at s d', db'))
      × (map plain_table db'.dbs ≡ map plain_table db.dbs)
unfolding read_header
read_header_lem flips db s q =
    let (new, d', db', r, p, l) =
      read_tables_lem flips db.dbs [] s 0 empty_database (omega (arith, q.count)) q.tables
        (ap (λ n. replicate n []) (sym q.count)) in
    (
      d',
      db',
      rw
          (read_le_lem 1 (count_used db.dbs) (put_tables 0 db.dbs ++ s) 0
            (omega (arith, count_used-le db.dbs, q.count)))
          r,
      ap (map plain_table) l ∙ p,
    )

crc32-Fits : (s : Bytes) → Fits 4 (crc32 s)
unfolding crc32
crc32-Fits s = omega arith

-- a file that passes the checks
load-checked :
    (flips : ℕ → ℕ → Bool) (text : Bytes) (old fresh : Database) (r : Reader)
    → 16 ≤ length text
    → take 11 text ≡ magic
    → crc32 (take (length text - 4) text) ≡ le_value (take 4 (drop (length text - 4) text))
    → read_header flips (at (drop 11 text) 0) ≡ done (r, fresh)
    → load flips text old ≡ done (record fresh { max_memory = old.max_memory })
unfolding load
load-checked flips text old fresh r long m c h =
    let passes : (ltb (length text) 16 || not (str_eq (take 11 text) magic)) ≡ false =
      ground (arith, m, str_eq_refl magic) in
    let same : (crc32 (take (length text - 4) text)
          == le_value (take 4 (drop (length text - 4) text)))
        ≡ true =
      ground (arith, c) in
    rw (passes, same, h) refl

-- a text `t` behind the magic bytes, and its trailer
load-trailer :
    (flips : ℕ → ℕ → Bool) (t c : Bytes) (old fresh : Database) (r : Reader)
    → c ≡ put_le 4 (crc32 (magic ++ t))
    → 1 ≤ length t
    → read_header flips (at (t ++ c) 0) ≡ done (r, fresh)
    → load flips ((magic ++ t) ++ c) old ≡ done (record fresh { max_memory = old.max_memory })
unfolding load
load-trailer flips t c old fresh r e long h =
    let four : length c ≡ 4 = rw e (length-put_le 4 (crc32 (magic ++ t))) in
    let n = length (magic ++ t) in
    let size : length ((magic ++ t) ++ c) - 4 ≡ n = omega (arith, length-append (magic ++ t) c) in
    let sum : le_value (take 4 c) ≡ crc32 (magic ++ t) =
      ap (λ s. le_value (take 4 s)) (sym (append-nil c) ∙ ap (λ s. s ++ []) e)
      ∙ ap le_value
          (take-front (put_le 4 (crc32 (magic ++ t))) [] 4 (length-put_le 4 (crc32 (magic ++ t))))
      ∙ le_value-put_le 4 (crc32 (magic ++ t)) (crc32-Fits (magic ++ t)) in
    load-checked flips ((magic ++ t) ++ c) old fresh r
      (omega (arith, length-append (magic ++ t) c, length-append magic t)) refl
      (ap (λ n. crc32 (take n ((magic ++ t) ++ c))) size
        ∙ ap crc32 (take-front (magic ++ t) c n refl)
        ∙ sym sum
        ∙ sym (ap (λ s. le_value (take 4 s)) (drop-front (magic ++ t) c n refl))
        ∙ sym (ap (λ n. le_value (take 4 (drop n ((magic ++ t) ++ c)))) size))
      h

-- Of a database with sixteen tables of distinct keys, whose sizes and lengths are below 2^32 and
-- whose numbers fit into their types, `LoadFromFile` accepts what `Serialize` writes, and reads
-- the same tables, in the same order, with the same values and expiry times; of a sorted set this
-- is about its dictionary. The limit of the memory is kept from the database that is replaced.
pub load-serialize :
    (flips : ℕ → ℕ → Bool) (db old : Database)
    → IsStorableDatabase db
    → (fresh : Database) × (load flips (serialize db) old ≡ done fresh)
      × (map plain_table fresh.dbs ≡ map plain_table db.dbs)
      × (fresh.max_memory ≡ old.max_memory)
unfolding serialize body put_le
load-serialize flips db old q =
    let t = put_le 1 (count_used db.dbs) ++ put_tables 0 db.dbs in
    let trailer = put_le 4 (crc32 (body db)) in
    let (d', db', r, p) = read_header_lem flips db trailer q in
    (
      record db' { max_memory = old.max_memory },
      load-trailer flips t trailer old db' (at trailer d') refl (omega arith) (
          ap (λ b. read_header flips (at b 0))
            (append_assoc (put_le 1 (count_used db.dbs)) (put_tables 0 db.dbs) trailer)
          ∙ r),
      p,
      refl,
    )
