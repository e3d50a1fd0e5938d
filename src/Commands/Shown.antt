-- ===== src/Commands/Shown.antt =====
-- What every key shows behind a handler, and the lookup and the writes that the handlers of
-- src/commands.cpp share.
use cpp_inference_engine.Base.{
  ℕ, Bool, true, false, str_eq_sound, ◌<◌, ◌≡◌, refl, Option, none, some, arith, length, Bytes,
  ◌==◌, ◌&&◌, str_eq, if◌then◌else◌,
}
use cpp_inference_engine.Base.Int.{ℤ, ◌≤ℤ◌}
use cpp_inference_engine.Value.{Value}
use cpp_inference_engine.Db.{Entry, Database, num_databases, lookup}
use cpp_inference_engine.Db.Invariant.{IsWellFormed, lookup-IsWellFormed}
use cpp_inference_engine.Db.Visible.{hide, view, view-lookup, view-write_through}
use cpp_inference_engine.Commands.State.{Run, ok, fault, Env, State, assign}

-- what a handler has written, where it does not fault
abbrev pub out_of : Run State → Option Bytes
out_of (ok s) = some s.out
out_of (fault e) = none

-- what a key shows at a time behind a handler, where it does not fault
abbrev pub seen : ℤ → ℕ → Bytes → Run State → Option (Option Entry)
seen later j q (ok s) = some (view later s.db j q)
seen later j q (fault e) = none

abbrev pub is_some : Option Entry → Bool
is_some none = false
is_some (some e) = true

-- the key of a client, as a place among all tables
abbrev pub at_key : State → Bytes → ℕ → Bytes → Bool
at_key s key j q = (s.cs.db_index == j) && str_eq key q

pub bound_of :
    {db : Database} (idx : ℕ) → IsWellFormed db → idx < num_databases → idx < length db.dbs
bound_of idx w h = omega (arith, w.count)

-- the state that a lookup leaves behind
abbrev pub looked : Env → Bytes → State → State
looked env key s = record s { db = (lookup env.now_ms s.cs.db_index key s.db).1 }

module _ (env : Env) (key : Bytes) (s : State) (h : s.cs.db_index < num_databases)
    (w : IsWellFormed s.db) where
  pub looked-IsWellFormed : IsWellFormed (looked env key s).db
  looked-IsWellFormed = lookup-IsWellFormed s.cs.db_index key s.db w env.now_ms

  pub view-looked :
      (later : ℤ) (j : ℕ) (q : Bytes)
      → env.now_ms ≤ℤ later
      → view later (looked env key s).db j q ≡ view later s.db j q
  view-looked later j q =
      view-lookup s.cs.db_index key s.db (bound_of s.cs.db_index w h) w env.now_ms later j q

  pub view-assign :
      (written : Bytes) (value : Value) (t later : ℤ) (j : ℕ) (q : Bytes)
      → env.now_ms ≤ℤ later
      → view later (assign written value t (looked env key s)).db j q ≡ (
          if at_key s written j q
          then hide later (some (record { value = value; expires_at_ms = t }))
          else view later s.db j q)
  unfolding assign
  view-assign written value t later j q le =
      rw
        (
          view-write_through s.cs.db_index written (looked env key s).db
              (bound_of s.cs.db_index looked-IsWellFormed h) looked-IsWellFormed later
              (record { value = value; expires_at_ms = t }) j q,
          view-looked later j q le,
        )
        refl

  -- an entry that is shown now, seen later
  pub view_later :
      (x : Entry) (later : ℤ)
      → view env.now_ms s.db s.cs.db_index key ≡ some x
      → view later s.db s.cs.db_index key ≡ hide later (some x)
  unfolding view hide
  view_later x later e = ground (arith, e)

  pub view-at_key :
      (x : Entry) (later : ℤ) (j : ℕ) (q : Bytes)
      → view env.now_ms s.db s.cs.db_index key ≡ some x
      → at_key s key j q ≡ true
      → view later s.db j q ≡ hide later (some x)
  view-at_key x later j q e a = ground (arith, view_later x later e, str_eq_sound key q, a)
