-- ===== src/Db/Expire.antt =====
-- `ActiveExpireCycle` of src/db.cpp: what it deletes has expired, and its accounting is right.
use cpp_inference_engine.Base.{
  ℕ, zero, suc, ◌+◌, ◌%◌, ◌<◌, ◌≤◌, ◌≡◌, ◌∙◌, refl, none, [], ◌∷◌, ◌++◌, arith, length, set, Bytes,
  Bool-cases, inl, inr, str_eq_sound, if◌then◌else◌, ◌==◌, ltb, take, drop,
}
use native.Mathlib.Nat.{le_trans}
use Prim.Native.Nat.{suc-le-suc}
use cpp_inference_engine.Base.Int.{ℤ, ◌≤ℤ◌}
use cpp_inference_engine.Base.Dict.{find, Unique, total}
use cpp_inference_engine.Db.{
  Table, Database, num_databases, sample_window, entry_size, mem_sub, table, expired, sweep,
  expire_db, expire_from, active_expire_cycle, total_keys,
}
use cpp_inference_engine.Db.Sizes.{table_size, sum_tables-set, table_size-le, count_keys-set}
use cpp_inference_engine.Db.Invariant.{IsWellFormed, Unique-table, write-IsWellFormed}
use cpp_inference_engine.Db.Accounting.{IsAccounted, mem_sub_lem}
use cpp_inference_engine.Db.Visible.{hide, expired-is_live, view, view_other_table, expired_mono}

-- The entries that the walk keeps, and the memory and the keys that it gives back.
abbrev kept : ℤ → ℕ → ℕ → Table → ℕ → Table
kept now offset window t used = take offset t ++ (sweep now window (drop offset t) used).0

sweep-fresh :
    (now : ℤ) (window : ℕ) (t : Table) (used : ℕ) (q : Bytes)
    → find q t ≡ none
    → find q (sweep now window t used).0 ≡ none
unfolding sweep find
sweep-fresh now zero t used q h = h
sweep-fresh now (suc window) [] used q h = refl
sweep-fresh now (suc window) ((k, e) ∷ t) used q h =
    let used' = if expired now e then mem_sub used (entry_size k e) else used in
    ground (arith, sweep-fresh now window t used' q)

sweep-Unique :
    (now : ℤ) (window : ℕ) (t : Table) (used : ℕ) → Unique t → Unique (sweep now window t used).0
unfolding sweep
sweep-Unique now zero t used u = u
sweep-Unique now (suc window) [] used u = tt
sweep-Unique now (suc window) ((k, e) ∷ t) used (fresh, u) =
    let used' = if expired now e then mem_sub used (entry_size k e) else used in
    ground (arith, sweep-Unique now window t used' u, sweep-fresh now window t used' k fresh)

-- what the walk removes was hidden
hide-sweep :
    (now later : ℤ) (window : ℕ) (t : Table) (used : ℕ) (q : Bytes)
    → now ≤ℤ later
    → Unique t
    → hide later (find q (sweep now window t used).0) ≡ hide later (find q t)
unfolding sweep find hide
hide-sweep now later zero t used q le u = refl
hide-sweep now later (suc window) [] used q le u = refl
hide-sweep now later (suc window) ((k, e) ∷ t) used q le (fresh, u) =
    let used' = if expired now e then mem_sub used (entry_size k e) else used in
    ground (
      arith,
      hide-sweep now later window t used' q le u,
      sweep-fresh now window t used' k fresh,
      expired_mono now later e le,
      expired-is_live later e,
      str_eq_sound k q,
    )

-- memory given back, and keys deleted
sweep_sizes :
    (now : ℤ) (window : ℕ) (t : Table) (used : ℕ)
    → table_size t ≤ used
    → ((sweep now window t used).1 + table_size t ≡ used + table_size (sweep now window t used).0)
      × (length (sweep now window t used).0 + (sweep now window t used).2 ≡ length t)
unfolding sweep total
sweep_sizes now zero t used h = (refl, omega arith)
sweep_sizes now (suc window) [] used h = (omega arith, omega arith)
sweep_sizes now (suc window) ((k, e) ∷ t) used h = elim (Bool-cases (expired now e)) [
  | inl x ↦
      let s = mem_sub_lem used (entry_size k e) (omega arith) in
      let (a, b) = sweep_sizes now window t (mem_sub used (entry_size k e)) (omega (arith, s)) in
      (ground arith, ground arith)
  | inr x ↦ let (a, b) = sweep_sizes now window t used (omega arith) in (ground arith, ground arith)
]

module _ (now : ℤ) (window : ℕ) where
  kept-fresh :
      (offset : ℕ) (t : Table) (used : ℕ) (q : Bytes)
      → find q t ≡ none
      → find q (kept now offset window t used) ≡ none
  unfolding find
  kept-fresh zero t used q h = sweep-fresh now window t used q h
  kept-fresh (suc o) [] used q h = sweep-fresh now window [] used q h
  kept-fresh (suc o) ((k, e) ∷ t) used q h = ground (arith, kept-fresh o t used q)

  kept-Unique :
      (offset : ℕ) (t : Table) (used : ℕ) → Unique t → Unique (kept now offset window t used)
  kept-Unique zero t used u = sweep-Unique now window t used u
  kept-Unique (suc o) [] used u = sweep-Unique now window [] used u
  kept-Unique (suc o) ((k, e) ∷ t) used (fresh, u) =
      (kept-fresh o t used k fresh, kept-Unique o t used u)

  hide-kept :
      (later : ℤ) (offset : ℕ) (t : Table) (used : ℕ) (q : Bytes)
      → now ≤ℤ later
      → Unique t
      → hide later (find q (kept now offset window t used)) ≡ hide later (find q t)
  unfolding find
  hide-kept later zero t used q le u = hide-sweep now later window t used q le u
  hide-kept later (suc o) [] used q le u = hide-sweep now later window [] used q le u
  hide-kept later (suc o) ((k, e) ∷ t) used q le (fresh, u) =
      ground (arith, hide-kept later o t used q le u)

  kept_sizes :
      (offset : ℕ) (t : Table) (used : ℕ)
      → table_size t ≤ used
      → ((sweep now window (drop offset t) used).1 + table_size t
          ≡ used + table_size (kept now offset window t used))
        × (length (kept now offset window t used) + (sweep now window (drop offset t) used).2
            ≡ length t)
  unfolding total
  kept_sizes zero t used h = sweep_sizes now window t used h
  kept_sizes (suc o) [] used h = sweep_sizes now window [] used h
  kept_sizes (suc o) ((k, e) ∷ t) used h =
      let (a, b) = kept_sizes o t used (omega arith) in (omega arith, omega arith)

-- What one round, and so the whole cycle, does: the invariants hold, nothing that can be read from
-- now on has changed, and the number of deleted keys is counted.
pub record Swept (now : ℤ) (db : Database) (deleted : ℕ) (after : Database × ℕ) : Type 0 where
  pub formed : IsWellFormed after.0
  pub accounted : IsAccounted after.0
  pub same :
      (later : ℤ) (j : ℕ) (q : Bytes) → now ≤ℤ later → view later after.0 j q ≡ view later db j q
  pub counted : total_keys after.0 + after.1 ≡ total_keys db + deleted

sweep_used-le : (now : ℤ) (window : ℕ) (t : Table) (used : ℕ) → (sweep now window t used).1 ≤ used
unfolding sweep mem_sub
sweep_used-le now zero t used = omega arith
sweep_used-le now (suc window) [] used = omega arith
sweep_used-le now (suc window) ((k, e) ∷ t) used =
    let used' = if expired now e then mem_sub used (entry_size k e) else used in
    ground (arith, sweep_used-le now window t used')

replace_exact : (u n T K S S' used : ℕ) → u + T ≡ used + K → S' + T ≡ S + K → used ≡ S → u ≡ S'
replace_exact u n T K S S' used a b c = omega arith

replace_counted : (n k t c c' : ℕ) → k + n ≡ t → c' + t ≡ c + k → c' + n ≡ c + 0
replace_counted n k t c c' a b = omega arith

-- a table replaced by one that shows the same
module _ (now : ℤ) (idx : ℕ) (db : Database) (bound : idx < length db.dbs) (w : IsWellFormed db)
    (a : IsAccounted db) (k : Table) (u n x : ℕ) where
  replace-Swept :
      Unique k
      → ((later : ℤ) (r : Bytes)
          → now ≤ℤ later
          → hide later (find r k) ≡ hide later (find r (table db idx)))
      → u + table_size (table db idx) ≡ db.used + table_size k
      → u ≤ db.used
      → length k + n ≡ length (table db idx)
      → Swept now db 0 (
        record { dbs = set db.dbs idx k; used = u; max_memory = db.max_memory; total_expired = x },
        n,
      )
  unfolding total_keys
  replace-Swept d s b le c = record {
    formed = write-IsWellFormed idx db k _ _ _ w d;
    accounted = record {
      exact = replace_exact u n _ _ _ _ db.used b (sum_tables-set db.dbs idx k bound) a.exact;
      fits = le_trans (suc-le-suc le) a.fits;
    };
    same = λ later j p q. view_other_table idx [] db bound w later k _ _ _ j p (λ z. s later z q);
    counted = replace_counted n _ _ _ _ c (count_keys-set db.dbs idx k bound);
  }

module _ (now : ℤ) (draw idx : ℕ) (db : Database) (bound : idx < length db.dbs)
    (w : IsWellFormed db) (a : IsAccounted db) where
  table_size-le-used : table_size (table db idx) ≤ db.used
  table_size-le-used = let (r, q) = table_size-le db.dbs idx bound in omega (arith, a.exact)

  expire_db-Swept : Swept now db 0 (expire_db now draw idx db)
  unfolding expire_db
  expire_db-Swept =
      let t = table db idx in
      let size = length t in
      let offset = draw % (if ltb size sample_window then size else sample_window) in
      let (bytes, keys) = kept_sizes now sample_window offset t db.used table_size-le-used in
      elim (Bool-cases (size == 0)) [
        | inl empty ↦
            rw empty
              (record { formed = w; accounted = a; same = λ later j p le. refl; counted = refl })
        | inr some_key ↦ rw some_key (
            replace-Swept now idx db bound w a (kept now offset sample_window t db.used) _ _ _
              (kept-Unique now sample_window offset t db.used (Unique-table idx w))
              (λ later z le.
                hide-kept now sample_window later offset t db.used z le (Unique-table idx w))
              bytes (sweep_used-le now sample_window (drop offset t) db.used) keys)
      ]

Swept-trans :
    (now : ℤ) (db : Database) (n k : ℕ) (b c : Database × ℕ)
    → Swept now db n b
    → Swept now b.0 0 c
    → (r : ℕ) → r ≡ b.1 + c.1
    → Swept now db n (c.0, r)
Swept-trans now db n k b c p q r e = record {
  formed = q.formed;
  accounted = q.accounted;
  same = λ later j z le. q.same later j z le ∙ p.same later j z le;
  counted = omega (arith, p.counted, q.counted);
}

expire_from-Swept :
    (now : ℤ) (draw : ℕ → ℕ) (n i : ℕ) (start db : Database) (deleted : ℕ)
    → i + n ≤ num_databases
    → Swept now start 0 (db, deleted)
    → Swept now start 0 (expire_from now draw n i (db, deleted))
unfolding expire_from
expire_from-Swept now draw zero i start db deleted h s = s
expire_from-Swept now draw (suc n) i start db deleted h s =
    let r = expire_db now (draw i) i db in
    expire_from-Swept now draw n (i + 1) start r.0 (deleted + r.1) (omega arith) (
      Swept-trans now start 0 0 (db, deleted) r s
        (expire_db-Swept now (draw i) i db (omega (arith, s.formed.count)) s.formed s.accounted) _
        refl)

-- On a well-formed and accounted database the active expire cycle keeps both invariants, changes
-- nothing that can be read at `now` or later, whatever numbers are drawn, and returns how many
-- keys it removed: the keys left and the returned number are the keys before.
pub active_expire_cycle-Swept :
    (now : ℤ) (draw : ℕ → ℕ) (db : Database)
    → IsWellFormed db
    → IsAccounted db
    → Swept now db 0 (active_expire_cycle now draw db)
unfolding active_expire_cycle
active_expire_cycle-Swept now draw db w a =
    expire_from-Swept now draw num_databases 0 db db 0 (omega arith)
      (record { formed = w; accounted = a; same = λ later j q le. refl; counted = refl })
