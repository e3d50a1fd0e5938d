-- ===== src/Db/Accounting.antt =====
-- Memory accounting: `used_memory` after each operation of src/db.cpp.
use cpp_inference_engine.Base.{
  ℕ, zero, suc, ◌+◌, ◌-◌, ◌<◌, ◌≤◌, ◌≡◌, ◌∙◌, refl, ◌≢◌, ◌↔◌, Option, none, some, List, [], ◌∷◌,
  arith, length, length-set, get_or, get_or-set_self, get_or-set_ne, set, Bytes, Bool-cases, inl,
  inr,
}
use native.Mathlib.Decide.{ℕ_discrete}
use cpp_inference_engine.Base.Int.{ℤ}
use cpp_inference_engine.Base.Dict.{
  find, put, erase, total, total-put, total-put_fresh, total-erase,
}
use cpp_inference_engine.Value.{Value}
use cpp_inference_engine.Db.{
  Entry, Table, Database, num_databases, size_mod, entry_size, mem_add, mem_sub, table, expired,
  lookup, lookup_entry, write_through, replaced, set_key, delete, delete_entry, free_table,
  flush_db, flush_from, flush_all,
}
use cpp_inference_engine.Db.Sizes.{table_size, sum_tables, sum_tables-set, table_size-le}
use cpp_inference_engine.Db.Invariant.{IsWellFormed, flush_db-IsWellFormed}

-- `used_memory` is the memory that the entries hold, and it has not wrapped around.
pub record IsAccounted (db : Database) : Type 0 where
  pub exact : db.used ≡ sum_tables db.dbs
  pub fits : db.used < size_mod

pub mem_sub_lem : (used n : ℕ) → n ≤ used → mem_sub used n ≡ used - n
unfolding mem_sub
mem_sub_lem used n h = ground arith

mem_add_lem : (used n : ℕ) → used + n < size_mod → mem_add used n ≡ used + n
unfolding mem_add
mem_add_lem used n h = omega arith

module _ (idx : ℕ) (key : Bytes) (db : Database) (bound : idx < length db.dbs) where
  entry-le : (e : Entry) → find key (table db idx) ≡ some e → entry_size key e ≤ sum_tables db.dbs
  entry-le e h =
      let (r, q) = table_size-le db.dbs idx bound in
      omega (arith, total-erase entry_size key e (table db idx) h)

  sum-erase :
      (e : Entry)
      → find key (table db idx) ≡ some e
      → sum_tables (set db.dbs idx (erase key (table db idx))) + entry_size key e
        ≡ sum_tables db.dbs
  sum-erase e h = omega (
    arith,
    total-erase entry_size key e (table db idx) h,
    sum_tables-set db.dbs idx (erase key (table db idx)) bound,
  )

  sum-put :
      (old e : Entry)
      → find key (table db idx) ≡ some old
      → sum_tables (set db.dbs idx (put key e (table db idx))) + entry_size key old
        ≡ sum_tables db.dbs + entry_size key e
  sum-put old e h = omega (
    arith,
    total-put entry_size key e old (table db idx) h,
    sum_tables-set db.dbs idx (put key e (table db idx)) bound,
  )

  sum-put_fresh :
      (e : Entry)
      → find key (table db idx) ≡ none
      → sum_tables (set db.dbs idx (put key e (table db idx)))
        ≡ sum_tables db.dbs + entry_size key e
  sum-put_fresh e h = omega (
    arith,
    total-put_fresh entry_size key e (table db idx) h,
    sum_tables-set db.dbs idx (put key e (table db idx)) bound,
  )

  -- an entry given back
  sub-IsAccounted :
      (e : Entry) (m x : ℕ)
      → IsAccounted db
      → find key (table db idx) ≡ some e
      → IsAccounted (record {
        dbs = set db.dbs idx (erase key (table db idx));
        used = mem_sub db.used (entry_size key e);
        max_memory = m;
        total_expired = x;
      })
  sub-IsAccounted e m x a h =
      let le = entry-le e h in
      let s = mem_sub_lem db.used (entry_size key e) (omega (arith, a.exact)) in
      record { exact = omega (arith, s, sum-erase e h, a.exact); fits = omega (arith, s, a.fits) }

  lookup_entry-IsAccounted :
      (now : ℤ) (o : Option Entry)
      → find key (table db idx) ≡ o
      → IsAccounted db
      → IsAccounted (lookup_entry now idx key o db).1
  unfolding lookup_entry
  lookup_entry-IsAccounted now none h a = a
  lookup_entry-IsAccounted now (some e) h a = elim (Bool-cases (expired now e)) [
    | inl x ↦ rw x (sub-IsAccounted e _ _ a h)
    | inr x ↦ rw x a
  ]

  -- `Lookup` in a table of the database, with its lazy expiry, keeps `used_memory` equal to the
  -- memory that the entries hold.
  pub lookup-IsAccounted : (now : ℤ) → IsAccounted db → IsAccounted (lookup now idx key db).1
  unfolding lookup
  lookup-IsAccounted now a = lookup_entry-IsAccounted now _ refl a

  delete_entry-IsAccounted :
      (o : Option Entry)
      → find key (table db idx) ≡ o
      → IsAccounted db
      → IsAccounted (delete_entry idx key o db).1
  unfolding delete_entry
  delete_entry-IsAccounted none h a = a
  delete_entry-IsAccounted (some e) h a = sub-IsAccounted e _ _ a h

  -- `Delete` in a table of the database keeps `used_memory` equal to the memory that the entries
  -- hold.
  pub delete-IsAccounted : IsAccounted db → IsAccounted (delete idx key db).1
  unfolding delete
  delete-IsAccounted a = delete_entry-IsAccounted _ refl a

  set-exact :
      (e : Entry) (o : Option Entry)
      → find key (table db idx) ≡ o
      → IsAccounted db
      → sum_tables (set db.dbs idx (put key e (table db idx))) < size_mod
      → mem_add (replaced db.used key o) (entry_size key e)
        ≡ sum_tables (set db.dbs idx (put key e (table db idx)))
  unfolding replaced
  set-exact e none h a f = omega (
    arith,
    mem_add_lem db.used (entry_size key e) (omega (arith, sum-put_fresh e h, a.exact)),
    sum-put_fresh e h,
    a.exact,
  )
  set-exact e (some old) h a f =
      let s = mem_sub_lem db.used (entry_size key old) (omega (arith, a.exact, entry-le old h)) in
      omega (
        arith,
        s,
        mem_add_lem (mem_sub db.used (entry_size key old)) (entry_size key e)
            (omega (arith, s, sum-put old e h, a.exact, entry-le old h)),
        sum-put old e h,
        a.exact,
        entry-le old h,
      )

  -- `Set` in a table of the database keeps `used_memory` equal to the memory that the entries
  -- hold, whether the key is new or replaced, as long as the new total is below 2^64.
  pub set_key-IsAccounted :
      (value : Value) (expires : ℤ)
      → IsAccounted db
      → sum_tables (set_key idx key value expires db).dbs < size_mod
      → IsAccounted (set_key idx key value expires db)
  unfolding set_key
  set_key-IsAccounted value expires a f =
      let s = set-exact (record { value = value; expires_at_ms = expires }) _ refl a f in
      record { exact = s; fits = omega (arith, s) }

  -- Where `used_memory` equals the memory that the entries hold, a write through a pointer that
  -- `Lookup` returned keeps that exactly when the new entry has the size of the old one.
  pub write_through-IsAccounted_iff :
      (old e : Entry)
      → find key (table db idx) ≡ some old
      → IsAccounted db
      → IsAccounted (write_through idx key e db) ↔ (entry_size key e ≡ entry_size key old)
  unfolding write_through
  write_through-IsAccounted_iff old e h a = (
    λ b. omega (arith, sum-put old e h, a.exact, b.exact),
    λ q. record { exact = omega (arith, sum-put old e h, a.exact); fits = a.fits },
  )

free_table_lem :
    (t : Table) (used : ℕ) → table_size t ≤ used → free_table t used ≡ used - table_size t
unfolding free_table total
free_table_lem [] used h = omega arith
free_table_lem ((k, e) ∷ t) used h =
    let s = mem_sub_lem used (entry_size k e) (omega arith) in
    omega (arith, s, free_table_lem t (mem_sub used (entry_size k e)) (omega (arith, s)))

pub flush_db-IsAccounted :
    (idx : ℕ) (db : Database) → idx < length db.dbs → IsAccounted db → IsAccounted (flush_db idx db)
unfolding flush_db total
flush_db-IsAccounted idx db bound a =
    let (r, q) = table_size-le db.dbs idx bound in
    let s = free_table_lem (table db idx) db.used (omega (arith, a.exact)) in
    record {
      exact = omega (arith, s, sum_tables-set db.dbs idx [] bound, a.exact);
      fits = omega (arith, s, a.fits);
    }

flush_from-keeps :
    (n i : ℕ) (db : Database)
    → IsWellFormed db
    → IsAccounted db
    → i + n ≤ num_databases
    → IsWellFormed (flush_from n i db) × IsAccounted (flush_from n i db)
unfolding flush_from
flush_from-keeps zero i db w a h = (w, a)
flush_from-keeps (suc n) i db w a h =
    flush_from-keeps n (i + 1) (flush_db i db) (flush_db-IsWellFormed i db w)
      (flush_db-IsAccounted i db (omega (arith, w.count)) a) (omega arith)

flush_from-table :
    (n i j : ℕ) (db : Database)
    → length db.dbs ≡ num_databases
    → i + n ≤ num_databases
    → (j < i → table db j ≡ [])
    → j < i + n
    → table (flush_from n i db) j ≡ []
unfolding flush_from flush_db
flush_from-table zero i j db c h before lt = before (omega arith)
flush_from-table (suc n) i j db c h before lt =
    flush_from-table n (i + 1) j (flush_db i db) (length-set db.dbs i [] ∙ c) (omega arith)
      (λ q. elim (ℕ_discrete i j) [
        | yes e ↦ rw (← e) (get_or-set_self db.dbs i [] [] (omega arith))
        | no d ↦ get_or-set_ne db.dbs i j [] [] d ∙ before (omega (arith, ne-lt i j d q))
      ])
      (omega arith)
  where
    ne-lt : (i j : ℕ) → i ≢ j → j < i + 1 → j < i
    ne-lt i j d q = omega arith

-- On a well-formed database `FlushAll` leaves each of the sixteen tables empty.
pub flush_all_empty :
    (db : Database) (j : ℕ) → IsWellFormed db → j < num_databases → table (flush_all db) j ≡ []
unfolding flush_all
flush_all_empty db j w h =
    flush_from-table num_databases 0 j db w.count (omega arith) (λ q. absurd (omega arith)) h

sum_tables-zero :
    (ts : List Table) → ((j : ℕ) → j < length ts → get_or ts j [] ≡ []) → sum_tables ts ≡ 0
unfolding total
sum_tables-zero [] h = refl
sum_tables-zero (t ∷ ts) h =
    rw (h 0 (omega arith)) (omega (arith, sum_tables-zero ts (λ j q. h (suc j) (omega arith))))

-- On a well-formed database whose `used_memory` is the memory that the entries hold, `FlushAll`
-- leaves `used_memory` at zero.
pub used-flush_all : (db : Database) → IsWellFormed db → IsAccounted db → (flush_all db).used ≡ 0
unfolding flush_all
used-flush_all db w a =
    let (w', a') = flush_from-keeps num_databases 0 db w a (omega arith) in
    let z =
      sum_tables-zero (flush_from num_databases 0 db).dbs
        (λ j q. flush_all_empty db j w (omega (arith, w'.count))) in
    omega (arith, z, a'.exact)
