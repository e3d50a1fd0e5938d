-- ===== src/Commands/Numbers/Created.antt =====
-- The empty string that `GetOrCreateStringEntry` of src/commands.cpp makes, and what it shows.
use cpp_inference_engine.Base.{
  ℕ, refl, false, ◌<◌, ◌≡◌, ◌∙◌, some, [], arith, Bytes, if◌then◌else◌, str_eq_refl,
}
use cpp_inference_engine.Base.Int.{ℤ, pos, ◌≤ℤ◌}
use cpp_inference_engine.Value.{raw_string}
use cpp_inference_engine.Db.{Entry, num_databases}
use cpp_inference_engine.Db.Invariant.{IsWellFormed, set_key-IsWellFormed}
use cpp_inference_engine.Db.Visible.{hide, is_live, view, view-set_key}
use cpp_inference_engine.Commands.State.{Env, State, store}
use cpp_inference_engine.Commands.Shown.{at_key, looked, view-looked, bound_of, looked-IsWellFormed}

abbrev pub fresh : Entry
fresh = record { value = raw_string []; expires_at_ms = pos 0 }

-- the state with the new key
abbrev pub created : Env → Bytes → State → State
created env key s = looked env key (store key (raw_string []) (pos 0) (looked env key s))

module _ (env : Env) (key : Bytes) (s : State) (h : s.cs.db_index < num_databases)
    (w : IsWellFormed s.db) where
  pub stored_db-IsWellFormed :
      IsWellFormed (store key (raw_string []) (pos 0) (looked env key s)).db
  unfolding store
  stored_db-IsWellFormed =
      set_key-IsWellFormed s.cs.db_index key _ (looked-IsWellFormed env key s h w) _ _

  view-stored_db :
      (later : ℤ) (j : ℕ) (q : Bytes)
      → view later (store key (raw_string []) (pos 0) (looked env key s)).db j q
        ≡ (if at_key s key j q then some fresh else view later (looked env key s).db j q)
  unfolding store
  view-stored_db later j q =
      view-set_key s.cs.db_index key (looked env key s).db
        (bound_of s.cs.db_index (looked-IsWellFormed env key s h w) h)
        (looked-IsWellFormed env key s h w) later (raw_string []) (pos 0) j q
      ∙ unfold hide is_live in refl

  pub shows_fresh :
      view env.now_ms (store key (raw_string []) (pos 0) (looked env key s)).db s.cs.db_index key
      ≡ some fresh
  shows_fresh = ground (arith, view-stored_db env.now_ms s.cs.db_index key, str_eq_refl key)

  pub view-created_elsewhere :
      (later : ℤ) (j : ℕ) (q : Bytes)
      → env.now_ms ≤ℤ later
      → at_key s key j q ≡ false
      → view later (created env key s).db j q ≡ view later s.db j q
  unfolding store
  view-created_elsewhere later j q le b =
      rw
        (
          view-looked env key (store key (raw_string []) (pos 0) (looked env key s)) h
              stored_db-IsWellFormed later j q le,
          view-stored_db later j q,
          b,
        )
        (view-looked env key s h w later j q le)
