-- ===== src/Db/Visible.antt =====
-- The abstract view of a database: what a client can read at a time. Each operation of src/db.cpp is
-- related to it.
use native.Mathlib.Decide.{ℕ_discrete}
use cpp_inference_engine.Base.{
  ℕ, zero, suc, ◌<◌, ◌≡◌, ◌∙◌, ap, refl, ◌≢◌, ◌⊎◌, true, Option, none, some, [], arith, length,
  get_or-set_self, get_or-set_ne, set, Bytes, Bool-cases, inl, inr, str_eq, str_eq_iff,
  str_eq_sound, if◌then◌else◌, ◌==◌, ◌&&◌, Bool, not,
}
use cpp_inference_engine.Base.Int.{ℤ, pos, negsuc, ltb_ℤ, leb_ℤ, is_zero, ◌≤ℤ◌}
use cpp_inference_engine.Base.Dict.{
  find, put, erase, find-put, find-erase, find-erase_self, find-erase_ne,
}
use cpp_inference_engine.Value.{Value}
use cpp_inference_engine.Db.{
  Entry, Table, Database, table, expired, lookup, lookup_entry, write_through, set_key, delete,
  delete_entry,
}
use cpp_inference_engine.Db.Invariant.{IsWellFormed, Unique-table}

-- An entry can be read if its expiry time is 0, which stands for none, or is still to come.
unfoldable pub is_live : ℤ → ℤ → Bool
is_live now (pos zero) = true
is_live now (pos (suc n)) = ltb_ℤ now (pos (suc n))
is_live now (negsuc n) = ltb_ℤ now (negsuc n)

-- an entry, while it can be read
unfoldable pub hide : ℤ → Option Entry → Option Entry
hide now none = none
hide now (some e) = if is_live now e.expires_at_ms then some e else none

-- what a client reads under a key at the time `now`
unfoldable pub view : ℤ → Database → ℕ → Bytes → Option Entry
view now db idx key = hide now (find key (table db idx))

-- the test of the code, by the meaning of an expiry time
is_live_iff : (now t : ℤ) → (not (is_zero t) && leb_ℤ t now) ≡ not (is_live now t)
unfolding is_live
is_live_iff now (pos zero) = refl
is_live_iff now (pos (suc n)) = ground arith
is_live_iff now (negsuc n) = ground arith

pub expired-is_live : (now : ℤ) (e : Entry) → expired now e ≡ not (is_live now e.expires_at_ms)
unfolding expired
expired-is_live now e = is_live_iff now e.expires_at_ms

pub hide-expired :
    (now : ℤ) (e : Entry) → hide now (some e) ≡ (if expired now e then none else some e)
unfolding hide
hide-expired now e = ground (arith, expired-is_live now e)

pub expired_mono :
    (now later : ℤ) (e : Entry) → now ≤ℤ later → expired now e ≡ true → expired later e ≡ true
unfolding expired
expired_mono now later e h x = ground arith

-- A write to the table `idx`, seen at the place `(j, q)`.
module _ (later : ℤ) (idx : ℕ) (db : Database) (bound : idx < length db.dbs) (t : Table)
    (u m x : ℕ) where
  view-set_other :
      (j : ℕ) (q : Bytes)
      → ((idx ≢ j) ⊎ (find q t ≡ find q (table db idx)))
      → view later
          (record { dbs = set db.dbs idx t; used = u; max_memory = m; total_expired = x })
          j
          q
        ≡ view later db j q
  unfolding view
  view-set_other j q (inl d) = rw (get_or-set_ne db.dbs idx j t [] d)
  view-set_other j q (inr e) = elim (ℕ_discrete idx j) [
    | yes same ↦ rw (← same) (rw (get_or-set_self db.dbs idx t [] bound) (ap (hide later) e))
    | no d ↦ rw (get_or-set_ne db.dbs idx j t [] d)
  ]

  view-set_self :
      (q : Bytes)
      → view later
          (record { dbs = set db.dbs idx t; used = u; max_memory = m; total_expired = x })
          idx
          q
        ≡ hide later (find q t)
  unfolding view
  view-set_self q = rw (get_or-set_self db.dbs idx t [] bound)

module _ (idx : ℕ) (key : Bytes) (db : Database) where
  hide-lookup_entry : (now : ℤ) (o : Option Entry) → (lookup_entry now idx key o db).0 ≡ hide now o
  unfolding lookup_entry
  hide-lookup_entry now none = unfold hide in refl
  hide-lookup_entry now (some e) = ground (arith, hide-expired now e)

  -- what a lookup returns
  pub lookup-eq-view : (now : ℤ) → (lookup now idx key db).0 ≡ view now db idx key
  unfolding lookup view
  lookup-eq-view now = hide-lookup_entry now (find key (table db idx))

module _ (idx : ℕ) (key : Bytes) (db : Database) (bound : idx < length db.dbs)
    (w : IsWellFormed db) where
  -- erasing a key whose entry is hidden changes no view
  hide-erase :
      (later : ℤ) (e : Entry) (q : Bytes)
      → find key (table db idx) ≡ some e
      → expired later e ≡ true
      → hide later (find q (erase key (table db idx))) ≡ hide later (find q (table db idx))
  hide-erase later e q h x = elim (Bool-cases (str_eq key q)) [
    | inl same ↦
        let s = (str_eq_iff key q).0 same in
        rw (← s) (
          rw (find-erase_self key (table db idx) (Unique-table idx w), h)
            (unfold hide in ground (arith, x, expired-is_live later e)))
    | inr ne ↦
        rw (find-erase_ne key q (table db idx) (λ s. ground (arith, ne, (str_eq_iff key q).1 s)))
  ]

  view-drop :
      (later : ℤ) (e : Entry) (j : ℕ) (q : Bytes) (u m x : ℕ)
      → find key (table db idx) ≡ some e
      → expired later e ≡ true
      → view later
          (record {
            dbs = set db.dbs idx (erase key (table db idx));
            used = u;
            max_memory = m;
            total_expired = x;
          })
          j
          q
        ≡ view later db j q
  view-drop later e j q u m x h s = elim (ℕ_discrete idx j) [
    | yes same ↦ rw (← same) (
        view-set_self later idx db bound (erase key (table db idx)) u m x q
        ∙ unfold view in hide-erase later e q h s)
    | no d ↦ view-set_other later idx db bound (erase key (table db idx)) u m x j q (inl d)
  ]

  view-lookup_entry :
      (now later : ℤ) (j : ℕ) (q : Bytes) (o : Option Entry)
      → find key (table db idx) ≡ o
      → now ≤ℤ later
      → view later (lookup_entry now idx key o db).1 j q ≡ view later db j q
  unfolding lookup_entry
  view-lookup_entry now later j q none h le = refl
  view-lookup_entry now later j q (some e) h le = elim (Bool-cases (expired now e)) [
    | inl x ↦ rw x (view-drop later e j q _ _ _ h (expired_mono now later e le x))
    | inr x ↦ rw x
  ]

  -- In a well-formed database with the table `idx`, `Lookup` at `now`, with its lazy expiry,
  -- changes nothing that any key of any table shows at `now` or later.
  pub view-lookup :
      (now later : ℤ) (j : ℕ) (q : Bytes)
      → now ≤ℤ later
      → view later (lookup now idx key db).1 j q ≡ view later db j q
  unfolding lookup
  view-lookup now later j q = view-lookup_entry now later j q _ refl

  -- a write of one entry
  view-put :
      (later : ℤ) (e : Entry) (j : ℕ) (q : Bytes) (u m x : ℕ)
      → view later
          (record {
            dbs = set db.dbs idx (put key e (table db idx));
            used = u;
            max_memory = m;
            total_expired = x;
          })
          j
          q
        ≡ (if (idx == j) && str_eq key q then hide later (some e) else view later db j q)
  view-put later e j q u m x = elim (ℕ_discrete idx j) [
    | yes same ↦ ground (
      arith,
      view-set_self later idx db bound (put key e (table db idx)) u m x q,
      find-put key q e (table db idx),
      view_lem later q,
    )
    | no d ↦
        ground
          (arith, view-set_other later idx db bound (put key e (table db idx)) u m x j q (inl d))
  ]
    where
      view_lem : (later : ℤ) (q : Bytes) → view later db idx q ≡ hide later (find q (table db idx))
      view_lem later q = unfold view in refl

  -- In a well-formed database with the table `idx`, after `Set` the key of that table shows the
  -- new value until it expires, and every other key of every table shows what it showed.
  pub view-set_key :
      (later : ℤ) (value : Value) (expires : ℤ) (j : ℕ) (q : Bytes)
      → view later (set_key idx key value expires db) j q ≡ (
          if (idx == j) && str_eq key q
          then hide later (some (record { value = value; expires_at_ms = expires }))
          else view later db j q)
  unfolding set_key
  view-set_key later value expires j q = view-put later _ j q _ _ _

  -- a table whose entries show the same from `later` on
  pub view_other_table :
      (later : ℤ) (t : Table) (u m x j : ℕ) (q : Bytes)
      → ((r : Bytes) → hide later (find r t) ≡ hide later (find r (table db idx)))
      → view later
          (record { dbs = set db.dbs idx t; used = u; max_memory = m; total_expired = x })
          j
          q
        ≡ view later db j q
  view_other_table later t u m x j q same = elim (ℕ_discrete idx j) [
    | yes here ↦ rw (← here) (view-set_self later idx db bound t u m x q ∙ unfold view in same q)
    | no d ↦ view-set_other later idx db bound t u m x j q (inl d)
  ]

  pub view-write_through :
      (later : ℤ) (e : Entry) (j : ℕ) (q : Bytes)
      → view later (write_through idx key e db) j q
        ≡ (if (idx == j) && str_eq key q then hide later (some e) else view later db j q)
  unfolding write_through
  view-write_through later e j q = view-put later e j q _ _ _

  -- the removal of one entry
  view-erase :
      (later : ℤ) (j : ℕ) (q : Bytes) (u m x : ℕ)
      → view later
          (record {
            dbs = set db.dbs idx (erase key (table db idx));
            used = u;
            max_memory = m;
            total_expired = x;
          })
          j
          q
        ≡ (if (idx == j) && str_eq key q then none else view later db j q)
  view-erase later j q u m x = elim (ℕ_discrete idx j) [
    | yes same ↦
        unfold hide in
        ground (
          arith,
          view-set_self later idx db bound (erase key (table db idx)) u m x q,
          find-erase key q (table db idx) (Unique-table idx w),
          view_lem later q,
        )
    | no d ↦
        ground
          (arith, view-set_other later idx db bound (erase key (table db idx)) u m x j q (inl d))
  ]
    where
      view_lem : (later : ℤ) (q : Bytes) → view later db idx q ≡ hide later (find q (table db idx))
      view_lem later q = unfold view in refl

  view-delete_entry :
      (later : ℤ) (j : ℕ) (q : Bytes) (o : Option Entry)
      → find key (table db idx) ≡ o
      → view later (delete_entry idx key o db).1 j q
        ≡ (if (idx == j) && str_eq key q then none else view later db j q)
  unfolding delete_entry
  view-delete_entry later j q none h = elim (Bool-cases ((idx == j) && str_eq key q)) [
    | inl here ↦ rw here (unfold view hide in ground (arith, str_eq_sound key q))
    | inr there ↦ rw there
  ]
  view-delete_entry later j q (some e) h = view-erase later j q _ _ _

  -- In a well-formed database with the table `idx`, after `Delete` the key of that table shows
  -- nothing, and every other key of every table shows what it showed.
  pub view-delete :
      (later : ℤ) (j : ℕ) (q : Bytes)
      → view later (delete idx key db).1 j q
        ≡ (if (idx == j) && str_eq key q then none else view later db j q)
  unfolding delete
  view-delete later j q = view-delete_entry later j q _ refl
