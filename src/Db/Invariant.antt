-- ===== src/Db/Invariant.antt =====
-- The invariant of a database, and what each operation of src/db.cpp does to it.
use cpp_inference_engine.Base.{
  ℕ, ◌≡◌, ◌∙◌, Option, none, some, [], length, length-set, set, All, Bytes, Bool-cases, inl, inr,
}
use cpp_inference_engine.Base.Int.{ℤ}
use cpp_inference_engine.Base.Dict.{find, put, erase, Unique, put-Unique, erase-Unique}
use cpp_inference_engine.Value.{Value}
use cpp_inference_engine.Db.{
  Entry, Table, Database, num_databases, table, expired, lookup, lookup_entry, write_through,
  set_key, delete, delete_entry, flush_db,
}
use cpp_inference_engine.Db.Sizes.{All-set, All-get_or}

-- Sixteen tables, with distinct keys in each.
pub record IsWellFormed (db : Database) : Type 0 where
  pub count : length db.dbs ≡ num_databases
  pub unique : All Unique db.dbs

pub Unique-table : {db : Database} (idx : ℕ) → IsWellFormed db → Unique (table db idx)
Unique-table {db} idx w = All-get_or Unique db.dbs idx [] w.unique tt

pub write-IsWellFormed :
    (idx : ℕ) (db : Database) (t : Table) (u m e : ℕ)
    → IsWellFormed db
    → Unique t
    → IsWellFormed (record { dbs = set db.dbs idx t; used = u; max_memory = m; total_expired = e })
write-IsWellFormed idx db t u m e w d = record {
  count = length-set db.dbs idx t ∙ w.count;
  unique = All-set Unique db.dbs idx t w.unique d;
}

erase-table-Unique :
    {db : Database} (idx : ℕ) (key : Bytes) → IsWellFormed db → Unique (erase key (table db idx))
erase-table-Unique {db} idx key w = erase-Unique key (table db idx) (Unique-table idx w)

put-table-Unique :
    {db : Database} (idx : ℕ) (key : Bytes) (e : Entry)
    → IsWellFormed db
    → Unique (put key e (table db idx))
put-table-Unique {db} idx key e w = put-Unique key e (table db idx) (Unique-table idx w)

module _ (idx : ℕ) (key : Bytes) (db : Database) (w : IsWellFormed db) where
  lookup_entry-IsWellFormed :
      (now : ℤ) (o : Option Entry) → IsWellFormed (lookup_entry now idx key o db).1
  unfolding lookup_entry
  lookup_entry-IsWellFormed now none = w
  lookup_entry-IsWellFormed now (some e) = elim (Bool-cases (expired now e)) [
    | inl h ↦ rw h (write-IsWellFormed idx db _ _ _ _ w (erase-table-Unique idx key w))
    | inr h ↦ rw h w
  ]

  pub lookup-IsWellFormed : (now : ℤ) → IsWellFormed (lookup now idx key db).1
  unfolding lookup
  lookup-IsWellFormed now = lookup_entry-IsWellFormed now (find key (table db idx))

  delete_entry-IsWellFormed : (o : Option Entry) → IsWellFormed (delete_entry idx key o db).1
  unfolding delete_entry
  delete_entry-IsWellFormed none = w
  delete_entry-IsWellFormed (some e) =
      write-IsWellFormed idx db _ _ _ _ w (erase-table-Unique idx key w)

  pub delete-IsWellFormed : IsWellFormed (delete idx key db).1
  unfolding delete
  delete-IsWellFormed = delete_entry-IsWellFormed (find key (table db idx))

  pub set_key-IsWellFormed :
      (value : Value) (expires : ℤ) → IsWellFormed (set_key idx key value expires db)
  unfolding set_key
  set_key-IsWellFormed value expires =
      write-IsWellFormed idx db _ _ _ _ w (put-table-Unique idx key _ w)

  pub write_through-IsWellFormed : (e : Entry) → IsWellFormed (write_through idx key e db)
  unfolding write_through
  write_through-IsWellFormed e = write-IsWellFormed idx db _ _ _ _ w (put-table-Unique idx key e w)

pub flush_db-IsWellFormed :
    (idx : ℕ) (db : Database) → IsWellFormed db → IsWellFormed (flush_db idx db)
unfolding flush_db
flush_db-IsWellFormed idx db w = write-IsWellFormed idx db [] _ _ _ w tt
