-- ===== src/Db/Purge.antt =====
-- `Database::Lookup` of src/db.cpp: what it returns, what it leaves stored, and what it counts.
use native.Mathlib.Decide.{ℕ_discrete}
use cpp_inference_engine.Base.{
  ℕ, suc, ◌+◌, ◌%◌, ◌<◌, ◌≡◌, ◌∙◌, sym, refl, ◌≢◌, ◌⊎◌, true, false, Option, none, some, [], arith,
  length, get_or-set_self, get_or-set_ne, set, get_or, Bytes, Bool-cases, inl, inr,
}
use cpp_inference_engine.Base.Int.{ℤ}
use cpp_inference_engine.Base.Dict.{find, erase, find-erase_self, find-erase_ne, length-erase}
use cpp_inference_engine.Db.{
  Entry, Database, size_mod, table, expired, lookup, lookup_entry, total_keys, count_keys,
}
use cpp_inference_engine.Db.Sizes.{count_keys-set}
use cpp_inference_engine.Db.Invariant.{IsWellFormed, Unique-table}
use cpp_inference_engine.Db.Visible.{view, hide, hide-expired}

-- What a lookup of a key leaves behind, and the entry that it returns.
pub record Purged (now : ℤ) (idx : ℕ) (key : Bytes) (db : Database)
    (after : Option Entry × Database) : Type 0 where
  -- the entry that can be read under the key is returned
  pub answer : after.0 ≡ view now db idx key
  -- and it is what is stored under the key from now on: a stale entry is gone from the table
  pub stored : find key (table after.1 idx) ≡ view now db idx key
  -- nothing else that is stored has changed, stale or not
  pub others :
      (j : ℕ) (q : Bytes) → ((idx ≢ j) ⊎ (key ≢ q)) → find q (table after.1 j) ≡ find q (table db j)
  -- each key that has gone is counted as expired, in a `size_t`
  pub counted :
      (after.1.total_expired + total_keys after.1) % size_mod
      ≡ (db.total_expired + total_keys db) % size_mod

counted_lem : (e k k' : ℕ) → suc k' ≡ k → ((e + 1) % size_mod + k') % size_mod ≡ (e + k) % size_mod
counted_lem e k k' h = omega arith

-- a stale entry, which is erased
module _ (now : ℤ) (idx : ℕ) (key : Bytes) (db : Database) (bound : idx < length db.dbs)
    (w : IsWellFormed db) (e : Entry) (h : find key (table db idx) ≡ some e) where
  keys_left : suc (count_keys (set db.dbs idx (erase key (table db idx)))) ≡ count_keys db.dbs
  keys_left = omega (
    arith,
    count_keys-set db.dbs idx (erase key (table db idx)) bound,
    length-erase key e (table db idx) h,
  )

  erased_others :
      (j : ℕ) (q : Bytes)
      → ((idx ≢ j) ⊎ (key ≢ q))
      → find q (get_or (set db.dbs idx (erase key (table db idx))) j []) ≡ find q (table db j)
  erased_others j q d = elim (ℕ_discrete idx j) [
    | no n ↦ rw (get_or-set_ne db.dbs idx j (erase key (table db idx)) [] n)
    | yes same ↦ elim d [
      | inl n ↦ absurd (n same)
      | inr n ↦ rw (← same) (
          rw (get_or-set_self db.dbs idx (erase key (table db idx)) [] bound)
            (find-erase_ne key q (table db idx) n))
    ]
  ]

  view_stale : expired now e ≡ true → view now db idx key ≡ none
  unfolding view
  view_stale x = rw (h, hide-expired now e, x) refl

  view_fresh : expired now e ≡ false → view now db idx key ≡ some e
  unfolding view
  view_fresh x = rw (h, hide-expired now e, x) refl

  erased_self : find key (get_or (set db.dbs idx (erase key (table db idx))) idx []) ≡ none
  erased_self =
      rw (get_or-set_self db.dbs idx (erase key (table db idx)) [] bound)
        (find-erase_self key (table db idx) (Unique-table idx w))

  found-Purged : Purged now idx key db (lookup_entry now idx key (some e) db)
  unfolding lookup_entry total_keys
  found-Purged = elim (Bool-cases (expired now e)) [
    | inl x ↦ rw x (record {
      answer = sym (view_stale x);
      stored = erased_self ∙ sym (view_stale x);
      others = erased_others;
      counted = counted_lem db.total_expired _ _ keys_left;
    })
    | inr x ↦ rw x (record {
      answer = sym (view_fresh x);
      stored = h ∙ sym (view_fresh x);
      others = λ j q d. refl;
      counted = refl;
    })
  ]

missing-Purged :
    (now : ℤ) (idx : ℕ) (key : Bytes) (db : Database)
    → find key (table db idx) ≡ none
    → Purged now idx key db (lookup_entry now idx key none db)
unfolding lookup_entry
missing-Purged now idx key db h =
    let v : view now db idx key ≡ none = unfold view hide in rw h refl in
    record { answer = sym v; stored = h ∙ sym v; others = λ j q d. refl; counted = refl }

-- In a well-formed database with the table `idx`, `Lookup` returns the entry of the key if its
-- expiry time is 0 or still to come, and nothing otherwise. Afterwards exactly this is stored
-- under the key, so that an entry whose time has come is gone from its table; what is stored under
-- every other key of every table is unchanged; and a key that is gone is counted as expired,
-- modulo 2^64.
pub lookup-Purged :
    (now : ℤ) (idx : ℕ) (key : Bytes) (db : Database)
    → idx < length db.dbs
    → IsWellFormed db
    → Purged now idx key db (lookup now idx key db)
unfolding lookup
lookup-Purged now idx key db bound w = by_cases (find key (table db idx)) refl
  where
    by_cases :
        (o : Option Entry)
        → find key (table db idx) ≡ o
        → Purged now idx key db (lookup_entry now idx key o db)
    by_cases none h = missing-Purged now idx key db h
    by_cases (some e) h = found-Purged now idx key db bound w e h
